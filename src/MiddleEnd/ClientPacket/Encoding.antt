-- ===== src/MiddleEnd/ClientPacket/Encoding.antt =====
-- client_packet.go: ClientPacketEncoder. The source of random bytes is the list of the bytes that it
-- will yield; a function that reads it returns what is left.
use tel_ego_openwrt.Base.{
  ℕ, ◌+◌, ◌-◌, ◌/◌, ◌%◌, ◌^◌, List, [], ◌∷◌, ◌++◌, ◌||◌, not, ltb, ◌==◌, if◌then◌else◌, length,
  take, drop, Result, ok, err, ◌>>=◌, fail_if,
}
use tel_ego_openwrt.Base.Bytes.{put_le32, put_be32}
use tel_ego_openwrt.MiddleEnd.ClientPacket.{
  ClientError, invalid_client_packet, client_packet_too_large, unsupported_client_framing,
  padding_source, ConnectionType, abridged, intermediate, padded_intermediate,
  validate_client_packet_codec,
}

pub record ClientPacketEncoder : Type 0 where
  pub connection_type : ConnectionType
  pub max_packet_size : ℕ

-- newClientPacketEncoder, with a source of padding.
unfoldable pub new_client_packet_encoder :
    ConnectionType → ℕ → Result ClientError ClientPacketEncoder
new_client_packet_encoder t max_packet_size = do
  _ ← validate_client_packet_codec t max_packet_size
  ok (record { connection_type = t; max_packet_size = max_packet_size })

unfoldable pub encode_abridged_packet : List ℕ → Result ClientError (List ℕ)
encode_abridged_packet packet = do
  let word_count = length packet / 4
  _ ← fail_if (ltb 0xffffff word_count) client_packet_too_large
  if ltb 0x7e word_count
      then ok (
          0x7f
          ∷ (word_count % 256)
          ∷ (word_count / 2 ^ 8 % 256)
          ∷ (word_count / 2 ^ 16 % 256)
          ∷ packet)
      else ok ((word_count % 256) ∷ packet)

-- The loop of randomBoundedInt: a byte that would favour small results is dropped.
unfoldable pub random_bounded_loop : ℕ → List ℕ → Result ClientError (ℕ × List ℕ)
random_bounded_loop choices [] = err padding_source
random_bounded_loop choices (value ∷ source) =
    let rest = random_bounded_loop choices source in
    if ltb value (256 - 256 % choices) then ok (value % choices, source) else rest

unfoldable pub random_bounded_int : List ℕ → ℕ → Result ClientError (ℕ × List ℕ)
random_bounded_int source maximum =
    if maximum == 0 then ok (0, source) else random_bounded_loop (maximum + 1) source

unfoldable pub encode_padded_intermediate_packet :
    List ℕ → List ℕ → Result ClientError (List ℕ × List ℕ)
encode_padded_intermediate_packet packet source = do
  (padding_size, source') ← random_bounded_int source 3
  let wire_packet_size = length packet + padding_size
  _ ← fail_if (ltb (length source') padding_size) padding_source
  ok (
    put_le32 (wire_packet_size % 2 ^ 32) ++ (packet ++ take padding_size source'),
    drop padding_size source',
  )

-- ClientPacketEncoder.Encode
unfoldable pub encode : ClientPacketEncoder → List ℕ → List ℕ → Result ClientError (List ℕ × List ℕ)
encode e packet source = do
  _ ← fail_if (ltb (length packet) 4 || not (length packet % 4 == 0)) invalid_client_packet
  _ ← fail_if (ltb e.max_packet_size (length packet)) client_packet_too_large
  if e.connection_type == abridged
      then (do wire ← encode_abridged_packet packet; ok (wire, source))
      else if e.connection_type == intermediate
      then ok (put_le32 (length packet % 2 ^ 32) ++ packet, source)
      else if e.connection_type == padded_intermediate
      then encode_padded_intermediate_packet packet source
      else err unsupported_client_framing

-- EncodeSimpleAckForClient
unfoldable pub encode_simple_ack_for_client : ConnectionType → ℕ → Result ClientError (List ℕ)
encode_simple_ack_for_client t confirm_key =
    if t == abridged
    then ok (put_be32 confirm_key)
    else if t == intermediate || t == padded_intermediate
    then ok (put_le32 confirm_key)
    else err unsupported_client_framing
