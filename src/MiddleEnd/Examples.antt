-- ===== src/MiddleEnd/Examples.antt =====
-- Tests of the middle-end models on concrete packets and frames, and the theorems at concrete inputs.
use tel_ego_openwrt.Base.{
  ℕ, ◌≡◌, ◌≢◌, refl, ◌↔◌, List, [], ◌∷◌, ◌++◌, true, false, none, some, inr, arith, ok,
}
use tel_ego_openwrt.Base.Bytes.{join32, join16, le_uint32, put_le32}
use tel_ego_openwrt.Base.Int.{pos, negsuc, to_uint32, to_int32}
use tel_ego_openwrt.MiddleEnd.Handshake.{
  ProcessId, HandshakePacket, IsProcessId, put_process_id, parse_process_id, matches,
  mismatched_process_id_fields, marshal_handshake, parse_handshake_packet, validate_handshake_flags,
  checksum_crc32, ip_field,
}
use tel_ego_openwrt.MiddleEnd.Handshake.ProcessIds.{
  parse_process_id-put_process_id, matches-mismatched_process_id_fields,
}
use tel_ego_openwrt.MiddleEnd.Handshake.RoundTrip.{parse_handshake_packet_iff}
use tel_ego_openwrt.MiddleEnd.Crc.{crc32}
use tel_ego_openwrt.MiddleEnd.Frame.{
  validate_sequence, validate_checksum_mode, validate_max_frame_size, checksum, frame_body,
  encode_frame_within, decode_frame,
}
use tel_ego_openwrt.MiddleEnd.Frame.RoundTrip.{decode_frame-encode_frame_within}
use tel_ego_openwrt.MiddleEnd.Frame.Canonical.{encode_frame_within-decode_frame}
use tel_ego_openwrt.MiddleEnd.Encoder.{
  FrameEncoder, no_handshake, new_frame_encoder, encode, after_encode, note_handshake, advance,
  close_transition,
}
use tel_ego_openwrt.MiddleEnd.Encoder.Runs.{Call, encodes, applies, run}
use tel_ego_openwrt.MiddleEnd.Encoder.Streams.{Numbered, new_frame_encoder-Numbered}
use tel_ego_openwrt.MiddleEnd.Encoder.Invariant.{new_frame_encoder-IsEncoder}
use tel_ego_openwrt.MiddleEnd.Decoder.{
  FrameDecoder, new_frame_decoder, buffered, feed, drain_noops, next,
}
use tel_ego_openwrt.MiddleEnd.Decoder.Views.{SameView, Agree, with_bytes, next-Agree}
use tel_ego_openwrt.MiddleEnd.Decoder.Padding.{noops, IsDrained, drain_noops-IsDrained, next-noops}
use tel_ego_openwrt.MiddleEnd.Decoder.Lockstep.{InStep, encode-next}

abbrev local_id : ProcessId
local_id = record { ip = 0x0a000001; port = 443; pid = 7; uptime = negsuc 0 }

abbrev other_id : ProcessId
other_id = record { ip = 0x0a000002; port = 443; pid = 0; uptime = pos 0 }

local_id-IsProcessId : IsProcessId local_id
local_id-IsProcessId = record {
  ip_range = omega arith;
  port_range = omega arith;
  pid_range = omega arith;
  uptime_range = omega arith;
}

other_id-IsProcessId : IsProcessId other_id
other_id-IsProcessId = record {
  ip_range = omega arith;
  port_range = omega arith;
  pid_range = omega arith;
  uptime_range = omega arith;
}

mismatched : mismatched_process_id_fields local_id other_id ≡ ip_field ∷ []
unfolding mismatched_process_id_fields
mismatched = refl

abbrev greeting : HandshakePacket
greeting = record { flags = 0; sender = local_id; peer = other_id }

abbrev greeting_bytes : List ℕ
greeting_bytes =
    0xf5 ∷ 0xee ∷ 0x82 ∷ 0x76 ∷ 0 ∷ 0 ∷ 0 ∷ 0 ∷ 1 ∷ 0 ∷ 0 ∷ 10 ∷ 187 ∷ 1 ∷ 7 ∷ 0 ∷ 255 ∷ 255 ∷ 255
    ∷ 255 ∷ 2 ∷ 0 ∷ 0 ∷ 10 ∷ 187 ∷ 1 ∷ 0 ∷ 0 ∷ 0 ∷ 0 ∷ 0 ∷ 0 ∷ []

marshalled : marshal_handshake greeting ≡ ok greeting_bytes
unfolding marshal_handshake validate_handshake_flags put_process_id to_uint32
marshalled = refl

parsed : parse_handshake_packet greeting_bytes ≡ ok greeting
unfolding parse_handshake_packet validate_handshake_flags parse_process_id to_int32 join32 join16
parsed = refl

parse_process_id-put_process_id_example :
    parse_process_id (put_process_id local_id ++ (9 ∷ [])) ≡ local_id
parse_process_id-put_process_id_example =
    parse_process_id-put_process_id local_id (9 ∷ []) local_id-IsProcessId

matches-mismatched_process_id_fields_example :
    (matches local_id other_id ≡ true) ↔ (mismatched_process_id_fields local_id other_id ≡ [])
matches-mismatched_process_id_fields_example =
    matches-mismatched_process_id_fields local_id other_id

parse_handshake_packet_iff_example :
    (parse_handshake_packet greeting_bytes ≡ ok greeting)
    ↔ (marshal_handshake greeting ≡ ok greeting_bytes)
parse_handshake_packet_iff_example =
    parse_handshake_packet_iff greeting_bytes greeting (ground arith) (record {
      flags_range = omega arith;
      sender_range = local_id-IsProcessId;
      peer_range = other_id-IsProcessId;
    })

-- The frame with number 3 and the payload 5 6 7 8.
abbrev ping : List ℕ
ping = 16 ∷ 0 ∷ 0 ∷ 0 ∷ 3 ∷ 0 ∷ 0 ∷ 0 ∷ 5 ∷ 6 ∷ 7 ∷ 8 ∷ 5 ∷ 190 ∷ 139 ∷ 139 ∷ []

encoded : encode_frame_within (pos 3) (5 ∷ 6 ∷ 7 ∷ 8 ∷ []) checksum_crc32 64 ≡ ok ping
unfolding encode_frame_within validate_checksum_mode frame_body checksum crc32 to_uint32 put_le32
encoded = refl

decoded :
    decode_frame ping (pos 3) checksum_crc32 64
    ≡ ok (record { sequence = pos 3; payload = 5 ∷ 6 ∷ 7 ∷ 8 ∷ [] })
unfolding decode_frame validate_sequence validate_checksum_mode validate_max_frame_size checksum
    crc32 to_int32 le_uint32 join32
decoded = refl

pings_valid : validate_sequence (pos 3) ≡ ok tt
unfolding validate_sequence
pings_valid = refl

limit_valid : validate_max_frame_size 64 ≡ ok tt
unfolding validate_max_frame_size
limit_valid = refl

decode_frame-encode_frame_within_example :
    decode_frame ping (pos 3) checksum_crc32 64
    ≡ ok (record { sequence = pos 3; payload = 5 ∷ 6 ∷ 7 ∷ 8 ∷ [] })
decode_frame-encode_frame_within_example =
    decode_frame-encode_frame_within (pos 3) (5 ∷ 6 ∷ 7 ∷ 8 ∷ []) checksum_crc32 64 ping
      (omega arith) pings_valid limit_valid encoded

encode_frame_within-decode_frame_example :
    (pos 3 ≡ pos 3) × (encode_frame_within (pos 3) (5 ∷ 6 ∷ 7 ∷ 8 ∷ []) checksum_crc32 64 ≡ ok ping)
encode_frame_within-decode_frame_example =
    encode_frame_within-decode_frame ping (pos 3) checksum_crc32 64
      (record { sequence = pos 3; payload = 5 ∷ 6 ∷ 7 ∷ 8 ∷ [] }) (ground arith) decoded

abbrev encoder : FrameEncoder
encoder = record {
  next_sequence = pos 3;
  max_frame_size = 64;
  mode = checksum_crc32;
  local_handshake = no_handshake;
  checksum_transition_open = false;
  checksum_transition_done = false;
  exhausted = false;
  error = none;
}

started : new_frame_encoder (pos 3) 64 ≡ ok encoder
unfolding new_frame_encoder validate_sequence validate_max_frame_size
started = refl

-- Two frames, with a failing call and a peer's handshake that comes too late between them.
abbrev calls : List Call
calls =
    encodes (5 ∷ 6 ∷ 7 ∷ 8 ∷ [])
    ∷ encodes (1 ∷ [])
    ∷ applies greeting
    ∷ encodes (1 ∷ 2 ∷ 3 ∷ 4 ∷ [])
    ∷ []

new_frame_encoder-Numbered_example :
    Numbered (run encoder calls).0.mode 64 (pos 3) (run encoder calls).1
new_frame_encoder-Numbered_example =
    new_frame_encoder-Numbered (pos 3) 64 encoder calls (omega arith) started

encoder_after :
    encode encoder (5 ∷ 6 ∷ 7 ∷ 8 ∷ []) ≡ (record encoder { next_sequence = pos 4 }, ok ping)
unfolding encode after_encode encode_frame_within validate_checksum_mode frame_body checksum crc32
    to_uint32 note_handshake advance close_transition put_le32
encoder_after = refl

abbrev decoder : FrameDecoder
decoder = record {
  buffer = [];
  head = 0;
  next_sequence = pos 3;
  mode = checksum_crc32;
  max_frame_size = 64;
  peer_handshake = no_handshake;
  checksum_transition_open = false;
  checksum_transition_done = false;
  exhausted = false;
  error = none;
}

decoder_started : new_frame_decoder (pos 3) 64 ≡ ok decoder
unfolding new_frame_decoder validate_sequence validate_max_frame_size
decoder_started = refl

in_step : InStep encoder decoder
unfolding buffered
in_step = record {
  same_sequence = refl;
  same_mode = refl;
  same_size = refl;
  same_exhausted = refl;
  no_error = refl;
  empty = refl;
  within = omega arith;
}

encode-next_example :
    ((feed decoder ping).1 ≡ ok 16)
    × ((next (feed decoder ping).0).1
        ≡ ok (some (record { sequence = pos 3; payload = 5 ∷ 6 ∷ 7 ∷ 8 ∷ [] })))
    × InStep (record encoder { next_sequence = pos 4 }) (next (feed decoder ping).0).0
encode-next_example =
    encode-next encoder (record encoder { next_sequence = pos 4 }) decoder (5 ∷ 6 ∷ 7 ∷ 8 ∷ []) ping
      (new_frame_encoder-IsEncoder (pos 3) 64 encoder (omega arith) started) in_step refl (λ h. cc)
      encoder_after

-- The same live bytes behind three consumed ones.
abbrev shifted : FrameDecoder
shifted = record decoder { buffer = 1 ∷ 2 ∷ 3 ∷ ping; head = 3 }

shifted-SameView : SameView shifted (with_bytes decoder ping)
shifted-SameView = (refl, omega arith, omega arith)

next-Agree_example : Agree (next shifted) (next (with_bytes decoder ping))
next-Agree_example = next-Agree shifted (with_bytes decoder ping) shifted-SameView

abbrev padded : FrameDecoder
padded = record decoder { buffer = noops 2 ++ ping; head = 0 }

padded_bytes : buffered padded ≡ noops 2 ++ ping
unfolding buffered
padded_bytes = refl

header_is : le_uint32 ping ≢ 4
unfolding le_uint32 join32
header_is = omega arith

next-noops_example : Agree (next padded) (next (with_bytes padded ping))
next-noops_example = next-noops 2 padded ping (omega arith) refl refl padded_bytes (inr header_is)

drain_noops-IsDrained_example : IsDrained (drain_noops padded)
drain_noops-IsDrained_example = drain_noops-IsDrained padded (omega arith)
