-- ===== src/MiddleEnd/Frame.antt =====
-- transport/middleend/frame.go: the stateless codec of full TCP RPC frames.
-- An `int` size is a natural number; the code refuses every size below 16, so none is negative.
pub mod RoundTrip
pub mod Canonical
use Prim.Native.Nat.{bit_and}
use tel_ego_openwrt.Base.{
  ℕ, ◌+◌, ◌-◌, ◌%◌, ◌^◌, List, [], ◌∷◌, ◌++◌, Bool, ◌&&◌, ◌||◌, not, ltb, ◌==◌, if◌then◌else◌,
  length, take, drop, Result, ok, err, ◌>>=◌, fail_if,
}
use tel_ego_openwrt.Base.Bytes.{put_le32, le_uint32}
use tel_ego_openwrt.Base.Int.{ℤ, negsuc, eqb_ℤ, ltb_ℤ, to_uint32, to_int32}
use tel_ego_openwrt.MiddleEnd.Constants.{
  Error, invalid_checksum_mode, invalid_frame_size, frame_too_large, checksum_mismatch,
  sequence_mismatch, checksum_transition, full_frame_overhead, minimum_full_frame_size,
  max_me_frame_size, handshake_flag_crc32c,
}
use tel_ego_openwrt.MiddleEnd.Crc.{crc32, ieee_polynomial, castagnoli_polynomial}
use tel_ego_openwrt.MiddleEnd.Handshake.{
  ChecksumMode, checksum_crc32, checksum_crc32c, HandshakePacket, validate_handshake_flags,
}

pub record Frame : Type 0 where
  pub sequence : ℤ
  pub payload : List ℕ

-- `negsuc 1` is -2.
unfoldable pub validate_sequence : ℤ → Result Error (Unit {0})
validate_sequence sequence = fail_if (ltb_ℤ sequence (negsuc 1)) sequence_mismatch

unfoldable pub validate_checksum_mode : ChecksumMode → Result Error (Unit {0})
validate_checksum_mode mode =
    fail_if (not (mode == checksum_crc32) && not (mode == checksum_crc32c)) invalid_checksum_mode

unfoldable pub validate_max_frame_size : ℕ → Result Error (Unit {0})
validate_max_frame_size max_frame_size = do
  _ ← fail_if (ltb max_frame_size minimum_full_frame_size) invalid_frame_size
  fail_if (ltb max_me_frame_size max_frame_size) frame_too_large

unfoldable pub checksum : List ℕ → ChecksumMode → ℕ
checksum bytes mode =
    if mode == checksum_crc32c
    then crc32 castagnoli_polynomial bytes
    else crc32 ieee_polynomial bytes

-- `frame[:frameSize-4]`: the size, the sequence and the payload.
unfoldable pub frame_body : ℤ → List ℕ → List ℕ
frame_body sequence payload =
    put_le32 ((length payload + full_frame_overhead) % 2 ^ 32)
    ++ (put_le32 (to_uint32 sequence) ++ payload)

-- `encodeFrame`
unfoldable pub encode_frame_within : ℤ → List ℕ → ChecksumMode → ℕ → Result Error (List ℕ)
encode_frame_within sequence payload mode max_frame_size = do
  _ ← validate_checksum_mode mode
  _ ← fail_if (ltb (length payload) 4 || not (length payload % 4 == 0)) invalid_frame_size
  _ ← fail_if (ltb (max_frame_size - full_frame_overhead) (length payload)) frame_too_large
  let body = frame_body sequence payload
  ok (body ++ put_le32 (checksum body mode))

-- `EncodeFrame`
unfoldable pub encode_frame : ℤ → List ℕ → ChecksumMode → Result Error (List ℕ)
encode_frame sequence payload mode = do
  _ ← validate_sequence sequence
  encode_frame_within sequence payload mode max_me_frame_size

-- The checks of DecodeFrame on a wire image, and the frame that it holds.
unfoldable pub decode_frame : List ℕ → ℤ → ChecksumMode → ℕ → Result Error Frame
decode_frame wire expected_sequence mode max_frame_size = do
  _ ← validate_sequence expected_sequence
  _ ← validate_checksum_mode mode
  _ ← validate_max_frame_size max_frame_size
  let size = length wire
  _ ← fail_if (ltb size minimum_full_frame_size || not (size % 4 == 0)) invalid_frame_size
  let declared_size = le_uint32 wire
  _ ← fail_if (not (declared_size == size)) invalid_frame_size
  _ ← fail_if (ltb max_frame_size declared_size) frame_too_large
  let want_checksum = le_uint32 (drop (size - 4) wire)
  _ ← fail_if (not (checksum (take (size - 4) wire) mode == want_checksum)) checksum_mismatch
  let sequence = to_int32 (le_uint32 (drop 4 wire))
  _ ← fail_if (not (eqb_ℤ sequence expected_sequence)) sequence_mismatch
  ok (record { sequence = sequence; payload = take (size - 12) (drop 8 wire) })

-- A failure of either flag test is wrapped in ErrChecksumTransition, the sentinel kept here.
unfoldable pub has_valid_flags : HandshakePacket → Bool
has_valid_flags p = bit_and p.flags 0xff == 0

unfoldable pub negotiated_checksum : HandshakePacket → HandshakePacket → Result Error ChecksumMode
unfolding has_valid_flags
negotiated_checksum local peer = do
  _ ← fail_if (not (has_valid_flags local)) checksum_transition
  _ ← fail_if (not (has_valid_flags peer)) checksum_transition
  if bit_and peer.flags handshake_flag_crc32c == 0
      then ok checksum_crc32
      else if bit_and local.flags handshake_flag_crc32c == 0
      then err checksum_transition
      else ok checksum_crc32c
