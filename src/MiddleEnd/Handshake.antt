-- ===== src/MiddleEnd/Handshake.antt =====
-- transport/middleend/handshake.go: the nonce, handshake and handshake error packets.
-- An int32 is an integer, an unsigned field a number below the power of two of its width; a slice
-- expression `wire[i:j]` under a fixed-width read is `drop i wire`. A mask `x & m` is `bit_and x m`.
pub mod ProcessIds
pub mod RoundTrip
use Prim.Native.Nat.{bit_and}
use tel_ego_openwrt.Base.{
  ℕ, ◌+◌, ◌-◌, ◌^◌, ◌<◌, ◌≡◌, List, [], ◌∷◌, ◌++◌, Bool, ◌&&◌, ◌||◌, not, All, ltb, ◌==◌,
  if◌then◌else◌, length, drop, Result, ok, err, ◌>>=◌, fail_if,
}
use tel_ego_openwrt.Base.Bytes.{IsByte, put_le32, le_uint32, put_le16, le_uint16}
use tel_ego_openwrt.Base.Int.{ℤ, pos, negsuc, eqb_ℤ, to_uint32, to_int32, IsInt32}
use tel_ego_openwrt.MiddleEnd.Constants.{
  Error, invalid_nonce, key_selector, timestamp_skew, invalid_handshake, process_id_mismatch,
  operation_nonce, operation_handshake, operation_handshake_error, crypto_schema_aes,
  handshake_flag_crc32c, nonce_packet_size, handshake_packet_size, handshake_error_packet_size,
}

-- A nonce is an array of sixteen bytes.
pub record NoncePacket : Type 0 where
  pub selector : ℕ
  pub timestamp : ℤ
  pub nonce : List ℕ

pub record IsNoncePacket (p : NoncePacket) : Type 0 where
  pub selector_range : p.selector < 2 ^ 32
  pub timestamp_range : IsInt32 p.timestamp
  pub nonce_size : length p.nonce ≡ 16

-- NoncePacket.MarshalBinary
unfoldable pub marshal_nonce : NoncePacket → Result Error (List ℕ)
unfolding put_le32
marshal_nonce p = do
  _ ← fail_if (p.selector == 0) invalid_nonce
  ok (
      put_le32 operation_nonce
      ++ (put_le32 p.selector
          ++ (put_le32 crypto_schema_aes ++ (put_le32 (to_uint32 p.timestamp) ++ p.nonce))))

unfoldable pub parse_nonce_packet : List ℕ → Result Error NoncePacket
unfolding le_uint32
parse_nonce_packet wire = do
  _ ← fail_if (not (length wire == nonce_packet_size)) invalid_nonce
  _ ← fail_if (not (le_uint32 wire == operation_nonce)) invalid_nonce
  let selector = le_uint32 (drop 4 wire)
  _ ← fail_if (selector == 0) invalid_nonce
  _ ←
      fail_if (not (eqb_ℤ (to_int32 (le_uint32 (drop 8 wire))) (pos crypto_schema_aes)))
        invalid_nonce
  ok (record {
    selector = selector;
    timestamp = to_int32 (le_uint32 (drop 12 wire));
    nonce = drop 16 wire;
  })

-- The distance of two integers; as an int64 the difference of an int32 and a time does not wrap.
unfoldable pub distance : ℤ → ℤ → ℕ
distance (pos m) (pos n) = (m - n) + (n - m)
distance (pos m) (negsuc n) = m + (n + 1)
distance (negsuc m) (pos n) = n + (m + 1)
distance (negsuc m) (negsuc n) = (m - n) + (n - m)

-- NoncePacket.Validate; `reference` is `referenceTime.Unix()`.
unfoldable pub validate_nonce : NoncePacket → ℕ → ℤ → Result Error (Unit {0})
validate_nonce p expected_selector reference = do
  _ ← fail_if (expected_selector == 0 || not (p.selector == expected_selector)) key_selector
  fail_if (ltb 30 (distance p.timestamp reference)) timestamp_skew

pub record ProcessId : Type 0 where
  pub ip : ℕ
  pub port : ℕ
  pub pid : ℕ
  pub uptime : ℤ

pub record IsProcessId (p : ProcessId) : Type 0 where
  pub ip_range : p.ip < 2 ^ 32
  pub port_range : p.port < 2 ^ 16
  pub pid_range : p.pid < 2 ^ 16
  pub uptime_range : IsInt32 p.uptime

-- ProcessID.Matches: a zero field of the pattern is a wildcard.
unfoldable pub matches : ProcessId → ProcessId → Bool
matches p pattern_id =
    (pattern_id.ip == 0 || p.ip == pattern_id.ip)
    && ((pattern_id.port == 0 || p.port == pattern_id.port)
        && ((pattern_id.pid == 0 || p.pid == pattern_id.pid)
            && (eqb_ℤ pattern_id.uptime (pos 0) || eqb_ℤ p.uptime pattern_id.uptime)))

unfoldable pub put_process_id : ProcessId → List ℕ
unfolding put_le32 put_le16
put_process_id p =
    put_le32 p.ip ++ (put_le16 p.port ++ (put_le16 p.pid ++ put_le32 (to_uint32 p.uptime)))

unfoldable pub parse_process_id : List ℕ → ProcessId
unfolding le_uint32 le_uint16
parse_process_id src = record {
  ip = le_uint32 src;
  port = le_uint16 (drop 4 src);
  pid = le_uint16 (drop 6 src);
  uptime = to_int32 (le_uint32 (drop 8 src));
}

pub record HandshakePacket : Type 0 where
  pub flags : ℕ
  pub sender : ProcessId
  pub peer : ProcessId

pub record IsHandshakePacket (p : HandshakePacket) : Type 0 where
  pub flags_range : p.flags < 2 ^ 32
  pub sender_range : IsProcessId p.sender
  pub peer_range : IsProcessId p.peer

unfoldable pub validate_handshake_flags : ℕ → Result Error (Unit {0})
validate_handshake_flags flags = fail_if (not (bit_and flags 0xff == 0)) invalid_handshake

-- HandshakePacket.MarshalBinary
unfoldable pub marshal_handshake : HandshakePacket → Result Error (List ℕ)
unfolding put_le32
marshal_handshake p = do
  _ ← validate_handshake_flags p.flags
  ok (
      put_le32 operation_handshake
      ++ (put_le32 p.flags ++ (put_process_id p.sender ++ put_process_id p.peer)))

unfoldable pub parse_handshake_packet : List ℕ → Result Error HandshakePacket
unfolding le_uint32
parse_handshake_packet wire = do
  _ ← fail_if (not (length wire == handshake_packet_size)) invalid_handshake
  _ ← fail_if (not (le_uint32 wire == operation_handshake)) invalid_handshake
  let flags = le_uint32 (drop 4 wire)
  _ ← validate_handshake_flags flags
  ok (record {
    flags = flags;
    sender = parse_process_id (drop 8 wire);
    peer = parse_process_id (drop 20 wire);
  })

-- HandshakePacket.ValidatePeer
unfoldable pub validate_peer : HandshakePacket → ProcessId → Result Error (Unit {0})
validate_peer p local = fail_if (not (matches local p.peer)) process_id_mismatch

-- The names that mismatchedProcessIDFields joins into the error's text.
pub data Field : Type 0 where
  ip_field port_field pid_field uptime_field : Field

mismatch : Bool → Field → List Field → List Field
mismatch b f rest = if b then f ∷ rest else rest

unfoldable pub mismatched_process_id_fields : ProcessId → ProcessId → List Field
unfolding mismatch
mismatched_process_id_fields local pattern_id =
    mismatch (not (pattern_id.ip == 0) && not (local.ip == pattern_id.ip)) ip_field (
      mismatch (not (pattern_id.port == 0) && not (local.port == pattern_id.port)) port_field (
        mismatch (not (pattern_id.pid == 0) && not (local.pid == pattern_id.pid)) pid_field (
          mismatch
            (not (eqb_ℤ pattern_id.uptime (pos 0)) && not (eqb_ℤ local.uptime pattern_id.uptime))
            uptime_field [])))

pub record HandshakeErrorPacket : Type 0 where
  pub error_code : ℤ
  pub sender : ProcessId

-- HandshakeErrorPacket.MarshalBinary
unfoldable pub marshal_handshake_error : HandshakeErrorPacket → List ℕ
unfolding put_le32
marshal_handshake_error p =
    put_le32 operation_handshake_error
    ++ (put_le32 (to_uint32 p.error_code) ++ put_process_id p.sender)

unfoldable pub parse_handshake_error_packet : List ℕ → Result Error HandshakeErrorPacket
unfolding le_uint32
parse_handshake_error_packet wire = do
  _ ← fail_if (not (length wire == handshake_error_packet_size)) invalid_handshake
  _ ← fail_if (not (le_uint32 wire == operation_handshake_error)) invalid_handshake
  ok (record {
    error_code = to_int32 (le_uint32 (drop 4 wire));
    sender = parse_process_id (drop 8 wire);
  })

-- `!=` on packets compares field by field.
unfoldable pub eqb_process_id : ProcessId → ProcessId → Bool
eqb_process_id a b =
    a.ip == b.ip && (a.port == b.port && (a.pid == b.pid && eqb_ℤ a.uptime b.uptime))

unfoldable pub eqb_handshake : HandshakePacket → HandshakePacket → Bool
unfolding eqb_process_id
eqb_handshake a b =
    a.flags == b.flags && (eqb_process_id a.sender b.sender && eqb_process_id a.peer b.peer)

-- ChecksumMode is a uint8 of frame.go; two of its values are valid.
abbrev pub ChecksumMode : Type 0
ChecksumMode = ℕ

abbrev pub checksum_crc32 : ChecksumMode
checksum_crc32 = 0

abbrev pub checksum_crc32c : ChecksumMode
checksum_crc32c = 1

-- HandshakePacket.NegotiatedChecksum
unfoldable pub packet_checksum : HandshakePacket → ChecksumMode
packet_checksum p =
    if not (bit_and p.flags handshake_flag_crc32c == 0) then checksum_crc32c else checksum_crc32
