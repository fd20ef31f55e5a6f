-- ===== src/MiddleEnd/Frame/Canonical.antt =====
-- frame.go: a wire image that DecodeFrame accepts is the one that encodeFrame writes.
use tel_ego_openwrt.Base.{
  ℕ, suc, ◌+◌, ◌-◌, ◌%◌, ◌^◌, ◌≤◌, ◌≡◌, sym, List, [], ◌∷◌, arith, All, All-take, length, take,
  drop, All-drop, ok, take-append-drop, length-take, length-drop,
}
use tel_ego_openwrt.Base.Bytes.{
  IsByte, join32, put_le32, le_uint32, join32-lt, put_le32-join32, put_le32-le_uint32,
}
use tel_ego_openwrt.Base.Int.{ℤ, eqb_ℤ_iff, to_uint32, to_int32, to_uint32-to_int32}
use tel_ego_openwrt.MiddleEnd.Constants.{full_frame_overhead}
use tel_ego_openwrt.MiddleEnd.Handshake.{ChecksumMode}
use tel_ego_openwrt.MiddleEnd.Frame.{
  Frame, validate_checksum_mode, checksum, frame_body, encode_frame_within, decode_frame,
}

-- The checks that DecodeFrame made of a wire image that it accepted.
record Passed (wire : List ℕ) (expected : ℤ) (mode : ChecksumMode) (max : ℕ) (f : Frame)
    : Type 0 where
  mode_valid : validate_checksum_mode mode ≡ ok tt
  at_least : 16 ≤ length wire
  aligned : length wire % 4 ≡ 0
  declared : le_uint32 wire ≡ length wire
  at_most : length wire ≤ max
  sum_matches :
      le_uint32 (drop (length wire - 4) wire) ≡ checksum (take (length wire - 4) wire) mode
  sequence_matches : to_int32 (le_uint32 (drop 4 wire)) ≡ expected
  sequence_is : f.sequence ≡ expected
  payload_is : f.payload ≡ take (length wire - 12) (drop 8 wire)

decode_frame-Passed :
    (wire : List ℕ) (expected : ℤ) (mode : ChecksumMode) (max : ℕ) (f : Frame)
    → decode_frame wire expected mode max ≡ ok f
    → Passed wire expected mode max f
unfolding decode_frame
decode_frame-Passed wire expected mode max f h =
    let q = eqb_ℤ_iff (to_int32 (le_uint32 (drop 4 wire))) expected in ground (arith, q.0)

-- The first eight bytes of an image are those that `frame_body` writes.
frame_body-image :
    (a b c d e f g h : ℕ) (payload : List ℕ)
    → All IsByte (a ∷ b ∷ c ∷ d ∷ e ∷ f ∷ g ∷ h ∷ payload)
    → join32 d c b a ≡ length payload + 12
    → frame_body (to_int32 (join32 h g f e)) payload ≡ a ∷ b ∷ c ∷ d ∷ e ∷ f ∷ g ∷ h ∷ payload
unfolding frame_body
frame_body-image a b c d e f g h payload w s =
    let small : (length payload + full_frame_overhead) % 2 ^ 32 ≡ join32 d c b a =
      ground (arith, join32-lt d c b a) in
    let seq : to_uint32 (to_int32 (join32 h g f e)) ≡ join32 h g f e =
      to_uint32-to_int32 (join32 h g f e) (ground (arith, join32-lt h g f e)) in
    let first : put_le32 (join32 d c b a) ≡ a ∷ b ∷ c ∷ d ∷ [] =
      put_le32-join32 a b c d (w.0) (w.1.0) (w.1.1.0) (w.1.1.1.0) in
    let second : put_le32 (join32 h g f e) ≡ e ∷ f ∷ g ∷ h ∷ [] =
      put_le32-join32 e f g h (w.1.1.1.1.0) (w.1.1.1.1.1.0) (w.1.1.1.1.1.1.0) (w.1.1.1.1.1.1.1.0) in
    rw (small, seq, first, second)

-- The image of the frame: its eight bytes, its payload and its checksum.
image :
    (wire : List ℕ) (expected : ℤ) (mode : ChecksumMode) (max : ℕ) (f : Frame)
    → All IsByte wire
    → Passed wire expected mode max f
    → (frame_body expected f.payload ≡ take (length wire - 4) wire)
      × (put_le32 (checksum (take (length wire - 4) wire) mode) ≡ drop (length wire - 4) wire)
      × (length f.payload ≡ length wire - 12)
unfolding le_uint32
image (a ∷ b ∷ c ∷ d ∷ e ∷ f' ∷ g ∷ h ∷ rest) expected mode max f w p =
    let wire : List ℕ = a ∷ b ∷ c ∷ d ∷ e ∷ f' ∷ g ∷ h ∷ rest in
    let n : ℕ = length rest - 4 in
    let cut : length wire - 4 ≡ suc (suc (suc (suc (suc (suc (suc (suc n))))))) =
      omega (arith, p.at_least) in
    let cut' : length wire - 12 ≡ n = omega (arith, p.at_least) in
    let is : f.payload ≡ take n rest = rw (← cut') p.payload_is in
    let size : length f.payload ≡ n = rw (is, length-take n rest) (omega (arith, p.at_least)) in
    let front : All IsByte (a ∷ b ∷ c ∷ d ∷ e ∷ f' ∷ g ∷ h ∷ take n rest) =
      All-take IsByte (suc (suc (suc (suc (suc (suc (suc (suc n)))))))) wire w in
    let whole : join32 d c b a ≡ length (take n rest) + 12 =
      rw (length-take n rest) (omega (arith, p.declared, p.at_least)) in
    (
      rw (cut, is, ← p.sequence_matches)
          (frame_body-image a b c d e f' g h (take n rest) front whole),
      rw (← p.sum_matches) (
          put_le32-le_uint32 (drop (length wire - 4) wire)
            (All-drop IsByte (length wire - 4) wire w)
            (omega (arith, length-drop (length wire - 4) wire, p.at_least))),
      rw size (sym cut'),
    )
image _ expected mode max f w p = absurd (omega (arith, p.at_least))

-- If DecodeFrame accepts an image, which are bytes, the frame has the expected sequence, and
-- encodeFrame writes that image for its payload under the same sequence, mode and limit.
pub encode_frame_within-decode_frame :
    (wire : List ℕ) (expected : ℤ) (mode : ChecksumMode) (max : ℕ) (f : Frame)
    → All IsByte wire
    → decode_frame wire expected mode max ≡ ok f
    → (f.sequence ≡ expected) × (encode_frame_within expected f.payload mode max ≡ ok wire)
unfolding encode_frame_within
encode_frame_within-decode_frame wire expected mode max f w h =
    let p = decode_frame-Passed wire expected mode max f h in
    let (b, s, n) = image wire expected mode max f w p in
    let cut = take-append-drop (length wire - 4) wire in
    (p.sequence_is, ground (arith, p.mode_valid, p.at_least, p.aligned, p.at_most))
