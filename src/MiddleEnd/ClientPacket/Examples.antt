-- ===== src/MiddleEnd/ClientPacket/Examples.antt =====
-- Tests of client_packet.go's model on concrete streams, and the theorems at concrete inputs.
use tel_ego_openwrt.Base.{
  ℕ, ◌+◌, ◌<◌, ◌≡◌, refl, List, [], ◌∷◌, ◌++◌, false, none, some, arith, length, ok, err,
}
use tel_ego_openwrt.Base.Bytes.{put_le32, le_uint32, join32}
use tel_ego_openwrt.MiddleEnd.ClientPacket.{
  ClientError, invalid_client_packet, ClientPacket, ClientPacketDecoder, abridged,
  padded_intermediate, byte_at, parse_abridged_header, parse_intermediate_header, parse_header,
  take_packet, fail, next,
}
use tel_ego_openwrt.MiddleEnd.ClientPacket.Encoding.{
  ClientPacketEncoder, random_bounded_loop, random_bounded_int, encode_padded_intermediate_packet,
  encode,
}
use tel_ego_openwrt.MiddleEnd.ClientPacket.Fragments.{more, next-more}
use tel_ego_openwrt.MiddleEnd.ClientPacket.Room.{next_waiting-room}
use tel_ego_openwrt.MiddleEnd.ClientPacket.RoundTrip.{next-encode}

abbrev encoder : ClientPacketEncoder
encoder = record { connection_type = padded_intermediate; max_packet_size = 64 }

abbrev packet : List ℕ
packet = 1 ∷ 2 ∷ 3 ∷ 4 ∷ []

-- Six bytes: the packet, and two of padding.
abbrev wire : List ℕ
wire = 6 ∷ 0 ∷ 0 ∷ 0 ∷ 1 ∷ 2 ∷ 3 ∷ 4 ∷ 8 ∷ 9 ∷ []

encoded : encode encoder packet (2 ∷ 8 ∷ 9 ∷ 10 ∷ []) ≡ ok (wire, 10 ∷ [])
unfolding encode encode_padded_intermediate_packet random_bounded_int random_bounded_loop put_le32
encoded = refl

abbrev decoder : ClientPacketDecoder
decoder = record {
  connection_type = padded_intermediate;
  max_packet_size = 64;
  retained = wire ++ (7 ∷ []);
  error = none;
}

-- An abridged word count of 1 that takes four bytes.
overlong :
    (next (record {
      connection_type = abridged;
      max_packet_size = 64;
      retained = 127 ∷ 1 ∷ 0 ∷ 0 ∷ [];
      error = none;
    })).1
    ≡ err invalid_client_packet
unfolding next parse_header parse_abridged_header byte_at take_packet fail
overlong = refl

next-encode_example : next decoder ≡ (
  record decoder { retained = 7 ∷ [] },
  ok (some (record { payload = packet; quick_ack = false })),
)
next-encode_example =
    next-encode encoder decoder packet (2 ∷ 8 ∷ 9 ∷ 10 ∷ []) wire (10 ∷ []) (7 ∷ []) (omega arith)
      refl refl refl encoded (omega arith) refl

next-more_example :
    ((p : ClientPacket)
      → (next decoder).1 ≡ ok (some p)
      → next (more decoder (5 ∷ [])) ≡ (more (next decoder).0 (5 ∷ []), ok (some p)))
    × ((x : ClientError) → (next decoder).1 ≡ err x → (next (more decoder (5 ∷ []))).1 ≡ err x)
next-more_example = next-more decoder (5 ∷ []) (ground arith)

-- Five bytes of the image.
abbrev waiting : ClientPacketDecoder
waiting = record decoder { retained = 6 ∷ 0 ∷ 0 ∷ 0 ∷ 1 ∷ [] }

waits : (next waiting).1 ≡ ok none
unfolding next parse_header parse_intermediate_header le_uint32 join32 take_packet
waits = refl

next_waiting-room_example : length waiting.retained < 64 + 4
next_waiting-room_example = next_waiting-room waiting refl (ground arith) waits
