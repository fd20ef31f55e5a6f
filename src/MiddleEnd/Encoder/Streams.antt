-- ===== src/MiddleEnd/Encoder/Streams.antt =====
-- frame.go: whatever the calls on a FrameEncoder, its frames are numbered without gaps, and all
-- frames behind the handshake carry one checksum.
use tel_ego_openwrt.Base.{
  ℕ, ◌-◌, ◌^◌, ◌≡◌, refl, sym, ap, ◌∙◌, ◌⊎◌, List, [], ◌∷◌, ◌++◌, inl, inr, ok, subst,
}
use tel_ego_openwrt.Base.Int.{ℤ, pos, negsuc, suc_ℤ, IsInt32}
use tel_ego_openwrt.MiddleEnd.Handshake.{ChecksumMode, checksum_crc32}
use tel_ego_openwrt.MiddleEnd.Frame.{encode_frame_within, decode_frame}
use tel_ego_openwrt.MiddleEnd.Frame.RoundTrip.{decode_frame-encode_frame_within}
use tel_ego_openwrt.MiddleEnd.Encoder.{FrameEncoder, new_frame_encoder, after_encode}
use tel_ego_openwrt.MiddleEnd.Encoder.Steps.{
  after_encode-Advances, encode_cases, apply_peer_handshake_facts,
}
use tel_ego_openwrt.MiddleEnd.Encoder.Invariant.{
  IsEncoder, new_frame_encoder-IsEncoder, new_frame_encoder_start,
}
use tel_ego_openwrt.MiddleEnd.Encoder.Runs.{
  Call, encodes, applies, emit, step, run, step-IsEncoder, run-IsPast, run-exhausted,
}

-- Frames below sequence 0 carry CRC32, the others the mode `m`.
abbrev pub mode_at : ChecksumMode → ℤ → ChecksumMode
mode_at m (pos n) = m
mode_at m (negsuc n) = checksum_crc32

-- Each frame decodes under the next sequence.
abbrev pub Numbered : ChecksumMode → ℕ → ℤ → List (List ℕ) → Type 0
Numbered m max s [] = Unit {0}
Numbered m max s (w ∷ ws) =
    ((payload : List ℕ) × (decode_frame w s (mode_at m s) max
        ≡ ok (record { sequence = s; payload = payload })))
    × Numbered m max (suc_ℤ s) ws

-- The frame just written, and what follows it, are numbered from the encoder's sequence on.
written_frame :
    (e : FrameEncoder) (payload wire : List ℕ) (m : ChecksumMode)
    → IsEncoder e
    → encode_frame_within e.next_sequence payload e.mode e.max_frame_size ≡ ok wire
    → mode_at m e.next_sequence ≡ e.mode
    → decode_frame wire e.next_sequence (mode_at m e.next_sequence) e.max_frame_size
      ≡ ok (record { sequence = e.next_sequence; payload = payload })
written_frame e payload wire m v k h = rw h (
    decode_frame-encode_frame_within e.next_sequence payload e.mode e.max_frame_size wire v.range
      v.sequence_valid v.size_valid k)

-- The mode in which a frame is written is the final one, or the frame comes before sequence 0.
final_mode :
    (s : ℤ) (e : FrameEncoder) (payload : List ℕ) (cs : List Call)
    → e.next_sequence ≡ s
    → IsEncoder e
    → mode_at (run (after_encode e payload) cs).0.mode s ≡ e.mode
final_mode (negsuc n) e payload cs p v = sym (v.early (rw p refl))
final_mode (pos n) e payload cs p v =
    let (m, z, c) = after_encode-Advances e payload in
    elim c [
      | inl (x, _, q) ↦ run-IsPast (after_encode e payload) cs (2 ^ 31 - 2, q ∙ x) ∙ m
      | inr (x, _, q) ↦ run-IsPast (after_encode e payload) cs (n, rw (q, p)) ∙ m
    ]

Numbered-subst :
    (m : ChecksumMode) (ws vs : List (List ℕ)) {max max' : ℕ} {s s' : ℤ}
    → max' ≡ max
    → s' ≡ s
    → ws ≡ vs
    → Numbered m max' s' ws
    → Numbered m max s vs
Numbered-subst m ws vs {max} {max'} {s} {s'} z n w h =
    subst (Numbered m max s) w
      (subst (λ t. Numbered m max t ws) n (subst (λ k. Numbered m k s' ws) z h))

-- A call either writes nothing and keeps the number, or writes the frame of that number.
Writes : FrameEncoder → Call → Type 0
Writes e c =
    (((step e c).1 ≡ [])
      × ((step e c).0.next_sequence ≡ e.next_sequence)
      × ((step e c).0.max_frame_size ≡ e.max_frame_size))
    ⊎ ((payload : List ℕ) × (wire : List ℕ) × (encode_frame_within e.next_sequence payload e.mode
            e.max_frame_size
          ≡ ok wire)
        × (step e c ≡ (after_encode e payload, wire ∷ [])))

step-Writes : (e : FrameEncoder) (c : Call) → Writes e c
unfolding Writes step emit
step-Writes e (applies peer) =
    let (n, z, x, m) = apply_peer_handshake_facts e peer in inl (refl, n, z)
step-Writes e (encodes payload) = elim (encode_cases e payload) [
  | inl (x, h) ↦ inl (
    ap (λ r. emit r.1 (λ w. w ∷ [])) h,
    ap (λ r. r.0.next_sequence) h,
    ap (λ r. r.0.max_frame_size) h,
  )
  | inr (w, n, k, h) ↦ inr (payload, w, k, ap (λ r. (r.0, emit r.1 (λ w. w ∷ []))) h)
]

-- Behind a written frame the numbers go on, or no frame follows.
tail_Numbered :
    (m : ChecksumMode) (e : FrameEncoder) (payload : List ℕ) (cs : List Call)
    → Numbered m
        (after_encode e payload).max_frame_size
        (after_encode e payload).next_sequence
        (run (after_encode e payload) cs).1
    → Numbered m e.max_frame_size (suc_ℤ e.next_sequence) (run (after_encode e payload) cs).1
tail_Numbered m e payload cs ih =
    let (_, z, c) = after_encode-Advances e payload in
    let ws = (run (after_encode e payload) cs).1 in
    elim c [
      | inl (x, y, q) ↦
          subst (Numbered m e.max_frame_size (suc_ℤ e.next_sequence))
            (sym (run-exhausted (after_encode e payload) cs y)) tt
      | inr (x, y, q) ↦ Numbered-subst m ws ws z q refl ih
    ]

-- The frames of the remaining calls, and all frames, when a call leaves `r`.
Rest : List Call → FrameEncoder × List (List ℕ) → Type 0
Rest cs r = Numbered (run r.0 cs).0.mode r.0.max_frame_size r.0.next_sequence (run r.0 cs).1

Whole : FrameEncoder → List Call → FrameEncoder × List (List ℕ) → Type 0
Whole e cs r = Numbered (run r.0 cs).0.mode e.max_frame_size e.next_sequence (r.1 ++ (run r.0 cs).1)

written_Whole :
    (e : FrameEncoder) (cs : List Call) (payload wire : List ℕ) (r : FrameEncoder × List (List ℕ))
    → IsEncoder e
    → encode_frame_within e.next_sequence payload e.mode e.max_frame_size ≡ ok wire
    → r ≡ (after_encode e payload, wire ∷ [])
    → Rest cs r
    → Whole e cs r
unfolding Rest Whole
written_Whole e cs payload wire r v k h =
    let m : ChecksumMode = (run (after_encode e payload) cs).0.mode in
    subst (λ q. Rest cs q → Whole e cs q) (sym h)
      (λ rest. (
        (
          payload,
          written_frame e payload wire m v k (final_mode e.next_sequence e payload cs refl v),
        ),
        tail_Numbered m e payload cs rest,
      ))

run-Numbered :
    (e : FrameEncoder) (cs : List Call)
    → IsEncoder e
    → Numbered (run e cs).0.mode e.max_frame_size e.next_sequence (run e cs).1
unfolding run Writes Rest Whole
run-Numbered e [] v = tt
run-Numbered e (c ∷ cs) v =
    let ih = run-Numbered (step e c).0 cs (step-IsEncoder e c v) in
    let m : ChecksumMode = (run (step e c).0 cs).0.mode in
    let ws = (run (step e c).0 cs).1 in
    elim (step-Writes e c) [
      | inl (w, n, z) ↦ Numbered-subst m ws _ z n (sym (ap (λ vs. vs ++ ws) w)) ih
      | inr (payload, wire, k, h) ↦ written_Whole e cs payload wire (step e c) v k h ih
    ]

-- From any start that NewFrameEncoder accepts, an int32, and whatever calls of Encode and ApplyPeerHandshake follow, the i-th frame that the
-- encoder writes decodes under the i-th sequence from the start on: no number is used twice or left
-- out. The frames below sequence 0 carry CRC32, and all others the checksum that the encoder ends in.
pub new_frame_encoder-Numbered :
    (start : ℤ) (max_frame_size : ℕ) (e : FrameEncoder) (cs : List Call)
    → IsInt32 start
    → new_frame_encoder start max_frame_size ≡ ok e
    → Numbered (run e cs).0.mode max_frame_size start (run e cs).1
new_frame_encoder-Numbered start max_frame_size e cs i h =
    let (z, n) = new_frame_encoder_start start max_frame_size e h in
    Numbered-subst (run e cs).0.mode (run e cs).1 (run e cs).1 z n refl
      (run-Numbered e cs (new_frame_encoder-IsEncoder start max_frame_size e i h))
