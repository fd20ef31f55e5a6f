-- ===== src/MiddleEnd/Frame/RoundTrip.antt =====
-- frame.go: DecodeFrame reads what encodeFrame wrote, and accepts nothing else.
use tel_ego_openwrt.Base.{
  ℕ, ◌+◌, ◌-◌, ◌%◌, ◌^◌, ◌≤◌, ◌<◌, ◌≡◌, refl, List, [], ◌++◌, arith, length, take, drop, ok,
  length-append, subst, take-length_append, drop-length_append,
}
use tel_ego_openwrt.Base.Bytes.{join32, put_le32, le_uint32, join32_bytes, le_uint32-put_le32}
use tel_ego_openwrt.Base.Int.{ℤ, eqb_ℤ_iff, to_uint32, IsInt32, to_int32-to_uint32, to_uint32-lt}
use tel_ego_openwrt.MiddleEnd.Constants.{max_me_frame_size, full_frame_overhead}
use tel_ego_openwrt.MiddleEnd.Crc.{crc32-lt, castagnoli_polynomial, ieee_polynomial}
use tel_ego_openwrt.MiddleEnd.Handshake.{ChecksumMode}
use tel_ego_openwrt.MiddleEnd.Frame.{
  validate_sequence, validate_checksum_mode, validate_max_frame_size, checksum, frame_body,
  encode_frame_within, decode_frame,
}
use mathlib.Core.List.{append-nil}

checksum-lt : (bytes : List ℕ) (mode : ChecksumMode) → checksum bytes mode < 2 ^ 32
unfolding checksum
checksum-lt bytes mode =
    ground (arith, crc32-lt castagnoli_polynomial bytes, crc32-lt ieee_polynomial bytes)

encode_frame_within_facts :
    (sequence : ℤ) (payload : List ℕ) (mode : ChecksumMode) (max_frame_size : ℕ) (wire : List ℕ)
    → encode_frame_within sequence payload mode max_frame_size ≡ ok wire
    → (validate_checksum_mode mode ≡ ok tt)
      × (4 ≤ length payload)
      × (length payload % 4 ≡ 0)
      × (length payload ≤ max_frame_size - full_frame_overhead)
      × (frame_body sequence payload ++ put_le32 (checksum (frame_body sequence payload) mode)
          ≡ wire)
unfolding encode_frame_within
encode_frame_within_facts sequence payload mode max_frame_size wire h = ground arith

length-frame_body :
    (sequence : ℤ) (payload : List ℕ) → length (frame_body sequence payload) ≡ length payload + 8
unfolding frame_body put_le32
length-frame_body sequence payload = omega arith

-- What DecodeFrame reads at the places of a wire image.
record Reads (sequence : ℤ) (payload : List ℕ) (sum : ℕ) (wire : List ℕ) : Type 0 where
  size : length wire ≡ length payload + 12
  declared : le_uint32 wire ≡ length payload + 12
  sequence_at : le_uint32 (drop 4 wire) ≡ to_uint32 sequence
  payload_at : take (length payload) (drop 8 wire) ≡ payload
  body : take (length payload + 8) wire ≡ frame_body sequence payload
  sum_at : le_uint32 (drop (length payload + 8) wire) ≡ sum

frame_body-Reads :
    (sequence : ℤ) (payload : List ℕ) (sum : ℕ)
    → IsInt32 sequence
    → length payload + 12 < 2 ^ 32
    → sum < 2 ^ 32
    → Reads sequence payload sum (frame_body sequence payload ++ put_le32 sum)
frame_body-Reads sequence payload sum i n s =
    let b : List ℕ = frame_body sequence payload in
    let e : length b ≡ length payload + 8 = length-frame_body sequence payload in
    record {
      size = unfold put_le32 in omega (arith, length-append b (put_le32 sum));
      declared = unfold frame_body put_le32 le_uint32 join32 in omega arith;
      sequence_at =
          unfold frame_body put_le32 le_uint32 in
          join32_bytes (to_uint32 sequence) (to_uint32-lt sequence i);
      payload_at = unfold frame_body put_le32 in take-length_append payload (put_le32 sum);
      body = rw (← e) (take-length_append b (put_le32 sum));
      sum_at =
          rw (← e, drop-length_append b (put_le32 sum), ← append-nil (put_le32 sum))
            (le_uint32-put_le32 sum [] s);
    }

validate_max_frame_size_bounds :
    (max_frame_size : ℕ)
    → validate_max_frame_size max_frame_size ≡ ok tt
    → (16 ≤ max_frame_size) × (max_frame_size ≤ max_me_frame_size)
unfolding validate_max_frame_size
validate_max_frame_size_bounds max_frame_size h = ground arith

-- With these readings every check of DecodeFrame passes.
decode_frame-Reads :
    (sequence : ℤ) (payload : List ℕ) (mode : ChecksumMode) (max_frame_size : ℕ) (wire : List ℕ)
    → IsInt32 sequence
    → validate_sequence sequence ≡ ok tt
    → validate_checksum_mode mode ≡ ok tt
    → validate_max_frame_size max_frame_size ≡ ok tt
    → 4 ≤ length payload
    → length payload % 4 ≡ 0
    → length payload + 12 ≤ max_frame_size
    → Reads sequence payload (checksum (frame_body sequence payload) mode) wire
    → decode_frame wire sequence mode max_frame_size
      ≡ ok (record { sequence = sequence; payload = payload })
unfolding decode_frame
decode_frame-Reads sequence payload mode max_frame_size wire i v c m n q l r =
    let a : length payload + 12 - 4 ≡ length payload + 8 = omega arith in
    let b : length payload + 12 - 12 ≡ length payload = omega arith in
    let d : (length payload + 12) % 4 ≡ 0 = omega arith in
    rw
      (
        v,
        c,
        m,
        r.size,
        a,
        b,
        r.declared,
        r.body,
        r.sum_at,
        r.sequence_at,
        to_int32-to_uint32 sequence i,
        r.payload_at,
        d,
      )
      (ground (arith, (eqb_ℤ_iff sequence sequence).1 refl))

-- DecodeFrame returns the frame that encodeFrame wrote under the same sequence, mode and limit, where
-- the sequence is a valid int32 and the limit is valid.
pub decode_frame-encode_frame_within :
    (sequence : ℤ) (payload : List ℕ) (mode : ChecksumMode) (max_frame_size : ℕ) (wire : List ℕ)
    → IsInt32 sequence
    → validate_sequence sequence ≡ ok tt
    → validate_max_frame_size max_frame_size ≡ ok tt
    → encode_frame_within sequence payload mode max_frame_size ≡ ok wire
    → decode_frame wire sequence mode max_frame_size
      ≡ ok (record { sequence = sequence; payload = payload })
decode_frame-encode_frame_within sequence payload mode max_frame_size wire i v m h =
    let (c, n, q, l, e) = encode_frame_within_facts sequence payload mode max_frame_size wire h in
    let (m1, m2) = validate_max_frame_size_bounds max_frame_size m in
    let sum : ℕ = checksum (frame_body sequence payload) mode in
    let r = frame_body-Reads sequence payload sum i (omega arith) (checksum-lt _ mode) in
    decode_frame-Reads sequence payload mode max_frame_size wire i v c m n q (omega arith)
      (subst (Reads sequence payload sum) e r)

-- The size of what encodeFrame wrote, and where it stands on the wire.
pub encode_frame_within_size :
    (sequence : ℤ) (payload : List ℕ) (mode : ChecksumMode) (max_frame_size : ℕ) (wire : List ℕ)
    → IsInt32 sequence
    → validate_max_frame_size max_frame_size ≡ ok tt
    → encode_frame_within sequence payload mode max_frame_size ≡ ok wire
    → (le_uint32 wire ≡ length wire)
      × (16 ≤ length wire)
      × (length wire ≤ max_frame_size)
      × (length wire % 4 ≡ 0)
encode_frame_within_size sequence payload mode max_frame_size wire i m h =
    let (c, n, q, l, e) = encode_frame_within_facts sequence payload mode max_frame_size wire h in
    let (m1, m2) = validate_max_frame_size_bounds max_frame_size m in
    let sum : ℕ = checksum (frame_body sequence payload) mode in
    let r =
      subst (Reads sequence payload sum) e
        (frame_body-Reads sequence payload sum i (omega arith) (checksum-lt _ mode)) in
    (
      omega (arith, r.declared, r.size),
      omega (arith, r.size),
      omega (arith, r.size),
      omega (arith, r.size),
    )
