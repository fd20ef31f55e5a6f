-- ===== src/MiddleEnd/Decoder/Padding.antt =====
-- frame.go: the no-op frames at the front of the buffer.
use tel_ego_openwrt.Base.{
  ℕ, zero, suc, ◌≤◌, ◌<◌, ◌≡◌, ◌≢◌, refl, sym, ap, ◌∙◌, ◌⊎◌, List, [], ◌∷◌, ◌++◌, false, arith,
  length, drop, Bool-cases, none, inl, inr, length-drop, subst, ltb, ◌==◌,
}
use tel_ego_openwrt.Base.Bytes.{le_uint32, join32}
use tel_ego_openwrt.MiddleEnd.Constants.{noop_frame_size}
use tel_ego_openwrt.MiddleEnd.Decoder.{
  FrameDecoder, buffered, buffered_len, discard_buffered, skip_noops, drain_noops, next,
}
use tel_ego_openwrt.MiddleEnd.Decoder.Views.{
  Agree, SameView, next_waiting-Agree, buffered-discard_buffered, view, with_bytes, IsWithin,
  length-buffered, view-discard_buffered,
}

-- Four bytes that hold the number 4, `k` times.
abbrev pub noops : ℕ → List ℕ
noops zero = []
noops (suc k) = 4 ∷ 0 ∷ 0 ∷ 0 ∷ noops k

-- Where a header other than a no-op's stands, or none, nothing is dropped.
pub skip_noops_self :
    (rounds : ℕ) (d : FrameDecoder) → le_uint32 (buffered d) ≢ 4 → skip_noops rounds d ≡ d
unfolding skip_noops
skip_noops_self zero d h = refl
skip_noops_self (suc rounds) d h = ground arith

-- No no-op is left at the front.
abbrev pub Stops : List ℕ → Type 0
Stops bytes = (length bytes < 4) ⊎ (le_uint32 bytes ≢ 4)

abbrev pub IsDrained : FrameDecoder → Type 0
IsDrained d = Stops (buffered d)

skip_noops-IsDrained :
    (rounds : ℕ) (d : FrameDecoder)
    → IsWithin d
    → length (buffered d) ≤ rounds
    → IsDrained (skip_noops rounds d)
unfolding skip_noops
skip_noops-IsDrained zero d w h = inl (omega arith)
skip_noops-IsDrained (suc rounds) d w h =
    let ih = λ (n : 4 ≤ length (buffered d)).
      skip_noops-IsDrained rounds (discard_buffered d 4) (view-discard_buffered d 4 w n).1 (
        omega (arith, ap length (buffered-discard_buffered d 4 w n), length-drop 4 (buffered d))) in
    elim (Bool-cases (ltb (length (buffered d)) 4)) [
      | inl k ↦ rw k (inl (ground arith))
      | inr k ↦ elim (Bool-cases (le_uint32 (buffered d) == noop_frame_size)) [
        | inl l ↦ rw (k, l) (ih (ground arith))
        | inr l ↦ rw (k, l) (inr (ground arith))
      ]
    ]

-- The loop that drops no-op frames stops by its own test: fewer than four live bytes are left, or
-- their first four are not a no-op. The head is within the buffer.
pub drain_noops-IsDrained : (d : FrameDecoder) → IsWithin d → IsDrained (drain_noops d)
unfolding drain_noops
drain_noops-IsDrained d w =
    skip_noops-IsDrained (buffered_len d) d w (omega (arith, length-buffered d))

noop_step :
    (rounds : ℕ) (d : FrameDecoder) (bytes : List ℕ)
    → buffered d ≡ 4 ∷ 0 ∷ 0 ∷ 0 ∷ bytes
    → skip_noops (suc rounds) d ≡ skip_noops rounds (discard_buffered d 4)
unfolding skip_noops
noop_step rounds d bytes h = unfold le_uint32 join32 in ground arith

drained_self : (rounds : ℕ) (d : FrameDecoder) → IsDrained d → skip_noops rounds d ≡ d
unfolding skip_noops
drained_self zero d h = refl
drained_self (suc rounds) d h = ground arith

view-buffered : (d : FrameDecoder) → view d ≡ with_bytes d (buffered d)
unfolding buffered
view-buffered d = refl

skip_noops-noops :
    (k rounds : ℕ) (d : FrameDecoder) (rest : List ℕ)
    → IsWithin d
    → buffered d ≡ noops k ++ rest
    → Stops rest
    → k ≤ rounds
    → (view (skip_noops rounds d) ≡ with_bytes d rest) × IsWithin (skip_noops rounds d)
skip_noops-noops zero rounds d rest w b h n =
    rw (drained_self rounds d (subst Stops (sym b) h)) (view-buffered d ∙ ap (with_bytes d) b, w)
skip_noops-noops (suc k) zero d rest w b h n = absurd (omega arith)
skip_noops-noops (suc k) (suc rounds) d rest w b h n =
    let four : 4 ≤ length (buffered d) = rw b (omega arith) in
    let (v, w') = view-discard_buffered d 4 w four in
    let b' : buffered (discard_buffered d 4) ≡ noops k ++ rest =
      buffered-discard_buffered d 4 w four ∙ ap (drop 4) b in
    let (e, i) = skip_noops-noops k rounds (discard_buffered d 4) rest w' b' h (omega arith) in
    rw (noop_step rounds d (noops k ++ rest) b) (e ∙ ap (λ x. with_bytes x rest) v, i)

length-noops : (k : ℕ) (rest : List ℕ) → k ≤ length (noops k ++ rest)
length-noops zero rest = omega arith
length-noops (suc k) rest = omega (arith, length-noops k rest)

-- Any number of no-ops in front is as if they had not come.
pub drain_noops-noops :
    (k : ℕ) (d : FrameDecoder) (rest : List ℕ)
    → IsWithin d
    → buffered d ≡ noops k ++ rest
    → Stops rest
    → SameView (drain_noops d) (with_bytes d rest)
unfolding drain_noops
drain_noops-noops k d rest w b h =
    let n : k ≤ buffered_len d = rw (← length-buffered d, b) (length-noops k rest) in
    let (e, i) = skip_noops-noops k (buffered_len d) d rest w b h n in (e, i, omega arith)

pub with_bytes-drained :
    (d : FrameDecoder) (rest : List ℕ)
    → Stops rest
    → drain_noops (with_bytes d rest) ≡ with_bytes d rest
unfolding drain_noops
with_bytes-drained d rest h = drained_self _ (with_bytes d rest) (unfold buffered in h)

-- On a decoder that has no error and no transition open, and whose head is within its buffer, Next
-- answers as if the no-op frames in front of the live bytes had not been sent, however many they are.
-- The bytes behind them do not begin with a no-op.
pub next-noops :
    (k : ℕ) (d : FrameDecoder) (rest : List ℕ)
    → IsWithin d
    → d.error ≡ none
    → d.checksum_transition_open ≡ false
    → buffered d ≡ noops k ++ rest
    → Stops rest
    → Agree (next d) (next (with_bytes d rest))
next-noops k d rest w e o b h = next_waiting-Agree d (with_bytes d rest) e e o o refl (
    subst (SameView (drain_noops d)) (sym (with_bytes-drained d rest h))
      (drain_noops-noops k d rest w b h))
