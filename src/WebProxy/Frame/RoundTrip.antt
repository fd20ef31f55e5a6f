-- ===== src/WebProxy/Frame/RoundTrip.antt =====
-- frame.go: ParseBatch reads back what AppendFrame wrote, and accepts nothing else.
use tel_ego_openwrt.Base.{
  ℕ, zero, suc, ◌≤◌, ◌≡◌, refl, subst, ap, List, [], ◌∷◌, ◌++◌, arith, length, All, Result, ok,
  ◌>>=◌, >>=-eq-ok,
}
use tel_ego_openwrt.Base.Bytes.{IsByte}
use tel_ego_openwrt.WebProxy.Frame.{
  Frame, IsFrame, FrameError, max_batch_frames, validate_frame_shape, frame_header, append_frame,
  parse_frame, parse_loop, parse_batch,
}
use tel_ego_openwrt.WebProxy.Frame.Bounds.{parse_frame-Reads, parse_frame-append}
use mathlib.Core.List.{append_assoc, append-nil}

abbrev pub IsShaped : Frame → Type 0
IsShaped f = validate_frame_shape f ≡ ok tt

-- A sender's batch: AppendFrame for each frame, one after the other.
unfoldable pub append_frames : List ℕ → List Frame → Result FrameError (List ℕ)
append_frames dst [] = ok dst
append_frames dst (f ∷ fs) = do dst' ← append_frame dst f; append_frames dst' fs

-- The bytes of a batch.
batch_bytes : List Frame → List ℕ
batch_bytes [] = []
batch_bytes (f ∷ fs) = frame_header f ++ (f.payload ++ batch_bytes fs)

append_frames-bytes :
    (dst : List ℕ) (fs : List Frame) (wire : List ℕ)
    → append_frames dst fs ≡ ok wire
    → All IsShaped fs × (wire ≡ dst ++ batch_bytes fs)
unfolding append_frames batch_bytes append_frame
append_frames-bytes dst [] wire h = (tt, ground (arith, append-nil dst))
append_frames-bytes dst (f ∷ fs) wire h =
    let (dst', m, k) = >>=-eq-ok (append_frame dst f) (λ d. append_frames d fs) h in
    let (u, v, d) = >>=-eq-ok (validate_frame_shape f) _ m in
    let (rest, e) = append_frames-bytes dst' fs wire k in
    (
      (v, rest),
      cc (
        append_assoc dst (frame_header f ++ f.payload) (batch_bytes fs),
        append_assoc (frame_header f) f.payload (batch_bytes fs),
      ),
    )

parse_loop_step :
    (room : ℕ) (input : List ℕ) {f : Frame} {rest : List ℕ}
    → parse_frame input ≡ ok (f, rest)
    → parse_loop (suc room) input ≡ (parse_loop room rest >>= λ fs. ok (f ∷ fs))
unfolding parse_loop
parse_loop_step room [] h = unfold parse_frame in cc
parse_loop_step room (b ∷ bs) h = rw h

parse_loop-batch_bytes :
    (room : ℕ) (fs : List Frame)
    → All IsFrame fs
    → All IsShaped fs
    → length fs ≤ room
    → parse_loop room (batch_bytes fs) ≡ ok fs
unfolding batch_bytes
parse_loop-batch_bytes room [] w s h = unfold parse_loop in refl
parse_loop-batch_bytes zero (f ∷ fs) w s h = absurd (omega arith)
parse_loop-batch_bytes (suc room) (f ∷ fs) w s h = rw (
  parse_loop_step room _ (parse_frame-append f (batch_bytes fs) w.0 s.0),
  parse_loop-batch_bytes room fs w.1 s.1 (omega arith),
)

-- If AppendFrame accepts each of 1 to 4096 frames, whose fields are within their ranges, ParseBatch
-- reads exactly those frames back from the bytes that it wrote.
pub parse_batch-append_frames :
    (f : Frame) (fs : List Frame) (wire : List ℕ)
    → All IsFrame (f ∷ fs)
    → length (f ∷ fs) ≤ max_batch_frames
    → append_frames [] (f ∷ fs) ≡ ok wire
    → parse_batch wire ≡ ok (f ∷ fs)
unfolding parse_batch
parse_batch-append_frames f fs wire w n h =
    let (s, e) = append_frames-bytes [] (f ∷ fs) wire h in
    rw e (unfold batch_bytes frame_header in parse_loop-batch_bytes max_batch_frames (f ∷ fs) w s n)

-- The frames are well formed, and the input is what AppendFrame writes for them.
abbrev Decodes : List ℕ → ℕ → List Frame → Type 0
Decodes input room fs =
    (input ≡ batch_bytes fs) × All IsFrame fs × All IsShaped fs × (length fs ≤ room)

parse_loop-Decodes :
    (room : ℕ) (input : List ℕ) (fs : List Frame)
    → All IsByte input
    → parse_loop room input ≡ ok fs
    → Decodes input room fs
unfolding parse_loop batch_bytes
parse_loop-Decodes room [] fs w h =
    let same : ◌≡◌ {A = List Frame} [] fs = cc in
    subst (Decodes [] room) same (refl, tt, tt, omega arith)
parse_loop-Decodes zero (b ∷ bs) fs w h = cc
parse_loop-Decodes (suc room) (b ∷ bs) fs w h =
    let ((f, rest), m, k) = >>=-eq-ok (parse_frame (b ∷ bs)) _ h in
    let (fs', m', k') = >>=-eq-ok (parse_loop room rest) _ k in
    let (e, w', s, w'') = parse_frame-Reads (b ∷ bs) f rest w m in
    let (e', ws, ss, n) = parse_loop-Decodes room rest fs' w'' m' in
    let same : f ∷ fs' ≡ fs = cc in
    subst (Decodes (b ∷ bs) (suc room)) same (cc, (w', ws), (s, ss), omega arith)

append_frames-batch_bytes :
    (dst : List ℕ) (fs : List Frame)
    → All IsShaped fs
    → append_frames dst fs ≡ ok (dst ++ batch_bytes fs)
unfolding append_frames append_frame batch_bytes
append_frames-batch_bytes dst [] s = rw append-nil
append_frames-batch_bytes dst (f ∷ fs) s =
    rw (s.0, append_frames-batch_bytes (dst ++ (frame_header f ++ f.payload)) fs s.1)
      (ap ok (
        cc (
          append_assoc dst (frame_header f ++ f.payload) (batch_bytes fs),
          append_assoc (frame_header f) f.payload (batch_bytes fs),
        )))

-- Whatever bytes ParseBatch accepts, it returns 1 to 4096 frames, each within the ranges of its
-- fields, and AppendFrame accepts them and writes exactly the bytes that were read.
pub append_frames-parse_batch :
    (input : List ℕ) (fs : List Frame)
    → All IsByte input
    → parse_batch input ≡ ok fs
    → (append_frames [] fs ≡ ok input)
      × All IsFrame fs
      × (1 ≤ length fs)
      × (length fs ≤ max_batch_frames)
unfolding parse_batch
append_frames-parse_batch [] fs w h = cc
append_frames-parse_batch (b ∷ bs) [] w h =
    let d = parse_loop-Decodes max_batch_frames (b ∷ bs) [] w h in
    absurd (unfold batch_bytes in cc d.0)
append_frames-parse_batch (b ∷ bs) (f ∷ fs) w h =
    let (e, ws, ss, n) = parse_loop-Decodes max_batch_frames (b ∷ bs) (f ∷ fs) w h in
    (rw e (append_frames-batch_bytes [] (f ∷ fs) ss), ws, omega arith, n)
