-- ===== src/WebProxy/Frame/Bounds.antt =====
-- What frame.go's shape test guarantees, and what `parse_frame` reads from a header.
use tel_ego_openwrt.Base.{
  ℕ, ◌+◌, ◌/◌, ◌%◌, ◌^◌, ◌≤◌, ◌≡◌, subst, List, ◌∷◌, ◌++◌, arith, length, All, All-take, All-drop,
  length-take, take-append-drop, take, drop, length-append, take-length_append, drop-length_append,
  ok, ltb-false,
}
use tel_ego_openwrt.Base.Bytes.{IsByte, join32}
use tel_ego_openwrt.WebProxy.Frame.{
  Frame, IsFrame, max_stream_id, max_frame_payload, validate_frame_shape, frame_header, parse_frame,
}

-- A frame of a valid shape has a 24-bit stream and a payload of at most a mebibyte.
pub validate_frame_shape_bounds :
    (f : Frame)
    → validate_frame_shape f ≡ ok tt
    → (f.stream_id ≤ max_stream_id) × (length f.payload ≤ max_frame_payload)
unfolding validate_frame_shape
validate_frame_shape_bounds f h = ground arith

join32-low24 :
    (n : ℕ) → n ≤ max_stream_id → join32 0 (n / 2 ^ 16 % 256) (n / 2 ^ 8 % 256) (n % 256) ≡ n
unfolding join32
join32-low24 n h = omega arith

join32-size :
    (n : ℕ)
    → n ≤ max_frame_payload
    → join32
        (n % 2 ^ 32 / 2 ^ 24 % 256)
        (n % 2 ^ 32 / 2 ^ 16 % 256)
        (n % 2 ^ 32 / 2 ^ 8 % 256)
        (n % 2 ^ 32 % 256)
      ≡ n
unfolding join32
join32-size n h = omega arith

-- One round of the parser on what AppendFrame wrote gives the frame back, and leaves what follows.
pub parse_frame-append :
    (f : Frame) (rest : List ℕ)
    → IsFrame f
    → validate_frame_shape f ≡ ok tt
    → parse_frame (frame_header f ++ (f.payload ++ rest)) ≡ ok (f, rest)
unfolding parse_frame frame_header
parse_frame-append f rest w h =
    let (s, n) = validate_frame_shape_bounds f h in
    let t : f.frame_type % 256 ≡ f.frame_type = omega arith in
    rw (
      join32-size (length f.payload) n,
      join32-low24 f.stream_id s,
      ltb-false max_frame_payload (length f.payload) n,
      ltb-false (8 + length (f.payload ++ rest)) (8 + length f.payload)
          (omega (arith, length-append f.payload rest)),
      take-length_append f.payload rest,
      drop-length_append f.payload rest,
      t,
      h,
    )

-- The frame and the remaining input are those whose encoding is `input`.
abbrev Reads : List ℕ → Frame × List ℕ → Type 0
Reads input (f, rest) =
    (input ≡ frame_header f ++ (f.payload ++ rest))
    × IsFrame f
    × (validate_frame_shape f ≡ ok tt)
    × All IsByte rest

-- A header of eight bytes is the one that `frame_header` writes for what it says.
header_read :
    (t s2 s1 s0 n3 n2 n1 n0 : ℕ) (rest : List ℕ)
    → All IsByte (t ∷ s2 ∷ s1 ∷ s0 ∷ n3 ∷ n2 ∷ n1 ∷ n0 ∷ rest)
    → join32 n3 n2 n1 n0 ≤ length rest
    → let f : Frame = record {
      frame_type = t;
      stream_id = join32 0 s2 s1 s0;
      payload = take (join32 n3 n2 n1 n0) rest;
    } in
      validate_frame_shape f ≡ ok tt
      → Reads (t ∷ s2 ∷ s1 ∷ s0 ∷ n3 ∷ n2 ∷ n1 ∷ n0 ∷ rest) (f, drop (join32 n3 n2 n1 n0) rest)
unfolding frame_header
header_read t s2 s1 s0 n3 n2 n1 n0 rest w h v =
    let n : ℕ = join32 n3 n2 n1 n0 in
    let wr : All IsByte rest = All-drop IsByte 8 (t ∷ s2 ∷ s1 ∷ s0 ∷ n3 ∷ n2 ∷ n1 ∷ n0 ∷ rest) w in
    rw (length-take n rest, take-append-drop n rest)
      (
        unfold join32 in ground arith,
        record {
          type_range = omega arith;
          stream_range = unfold join32 in omega arith;
          payload_bytes = All-take IsByte n rest wr;
        },
        v,
        All-drop IsByte n rest wr,
      )

-- What `parse_frame` accepts is what AppendFrame writes for the frame that it returns.
pub parse_frame-Reads :
    (input : List ℕ) (f : Frame) (rest : List ℕ)
    → All IsByte input
    → parse_frame input ≡ ok (f, rest)
    → Reads input (f, rest)
unfolding parse_frame
parse_frame-Reads (t ∷ s2 ∷ s1 ∷ s0 ∷ n3 ∷ n2 ∷ n1 ∷ n0 ∷ rest') f rest w h =
    let n : ℕ = join32 n3 n2 n1 n0 in
    let f' : Frame = record {
      frame_type = t;
      stream_id = join32 0 s2 s1 s0;
      payload = take n rest';
    } in
    let fits : n ≤ length rest' = ground arith in
    let shaped : validate_frame_shape f' ≡ ok tt = ground arith in
    let same : ◌≡◌ {A = Frame × List ℕ} (f', drop n rest') (f, rest) = ground arith in
    subst (Reads _) same (header_read t s2 s1 s0 n3 n2 n1 n0 rest' w fits shaped)
parse_frame-Reads _ f rest w h = cc
