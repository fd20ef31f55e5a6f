-- ===== src/MiddleEnd/Decoder/Views.antt =====
-- frame.go: where the live bytes of a FrameDecoder stand in its buffer cannot be observed.
use tel_ego_openwrt.Base.{
  ℕ, zero, suc, ◌+◌, ◌-◌, ◌%◌, ◌≤◌, ◌≡◌, refl, sym, ap, ◌∙◌, List, ◌++◌, false, arith, length, take,
  drop, min, Bool-cases, Option, none, some, Option-cases, Result, inl, inr, ok, err, length-drop,
  length-append, subst, subst₂, ltb, ◌==◌, drop-drop, drop_all, drop-append, ◌||◌, not,
}
use tel_ego_openwrt.Base.Bytes.{le_uint32}
use tel_ego_openwrt.MiddleEnd.Constants.{
  Error, invalid_frame_size, frame_too_large, noop_frame_size,
}
use tel_ego_openwrt.MiddleEnd.Frame.{Frame, decode_frame}
use tel_ego_openwrt.MiddleEnd.Decoder.{
  FrameDecoder, buffered, buffered_len, discard_buffered, compact, feed, settle, fail, skip_noops,
  drain_noops, consume_exhausted_padding, advance, accept, next_frame, next,
}
use mathlib.Core.List.{append-nil}

-- The decoder with its live bytes at the front.
abbrev pub view : FrameDecoder → FrameDecoder
view d = record d { buffer = drop d.head d.buffer; head = 0 }

-- The decoder with other live bytes.
abbrev pub with_bytes : FrameDecoder → List ℕ → FrameDecoder
with_bytes d bytes = record d { buffer = bytes; head = 0 }

abbrev pub IsWithin : FrameDecoder → Type 0
IsWithin d = d.head ≤ length d.buffer

pub length-buffered : (d : FrameDecoder) → length (buffered d) ≡ buffered_len d
unfolding buffered buffered_len
length-buffered d = length-drop d.head d.buffer

-- Discarding drops the first live bytes.
pub view-discard_buffered :
    (d : FrameDecoder) (n : ℕ)
    → IsWithin d
    → n ≤ length (buffered d)
    → (view (discard_buffered d n) ≡ with_bytes d (drop n (buffered d)))
      × IsWithin (discard_buffered d n)
unfolding discard_buffered buffered
view-discard_buffered d n w h = ground (
  arith,
  drop-drop d.head n d.buffer,
  drop_all (d.head + n) d.buffer,
  length-drop d.head d.buffer,
)

pub buffered-discard_buffered :
    (d : FrameDecoder) (n : ℕ)
    → IsWithin d
    → n ≤ length (buffered d)
    → buffered (discard_buffered d n) ≡ drop n (buffered d)
buffered-discard_buffered d n w h =
    let v = (view-discard_buffered d n w h).0 in unfold buffered in ap (λ x. x.buffer) v

-- Feed takes what there is room for, behind the live bytes.
pub view-feed :
    (d : FrameDecoder) (bytes : List ℕ)
    → IsWithin d
    → d.error ≡ none
    → let n = min (length bytes) (d.max_frame_size - buffered_len d) in
      ((feed d bytes).1 ≡ ok n)
      × (view (feed d bytes).0 ≡ with_bytes d (buffered d ++ take n bytes))
      × IsWithin (feed d bytes).0
unfolding feed buffered buffered_len compact
view-feed d bytes w e =
    let n = min (length bytes) (d.max_frame_size - buffered_len d) in
    ground (
      arith,
      drop-append d.head d.buffer (take n bytes),
      length-append d.buffer (take n bytes),
      append-nil d.buffer,
    )

-- Dropping the no-ops leaves the same live bytes, wherever they stand.
abbrev pub SameView : FrameDecoder → FrameDecoder → Type 0
SameView d c = (view d ≡ view c) × IsWithin d × IsWithin c

pub SameView-buffered : (d c : FrameDecoder) → SameView d c → buffered d ≡ buffered c
unfolding buffered
SameView-buffered d c s = ap (λ x. x.buffer) s.0

-- Operations that look at the other fields only.
pub SameView-with_bytes :
    (d c : FrameDecoder) (xs : List ℕ) → SameView d c → with_bytes d xs ≡ with_bytes c xs
SameView-with_bytes d c xs s = ap (λ x. with_bytes x xs) s.0

discard_buffered-SameView :
    (d c : FrameDecoder) (n : ℕ)
    → SameView d c
    → n ≤ length (buffered d)
    → SameView (discard_buffered d n) (discard_buffered c n)
discard_buffered-SameView d c n s h =
    let b = SameView-buffered d c s in
    let (v, w) = view-discard_buffered d n s.1 h in
    let (v', w') = view-discard_buffered c n s.2 (rw (← b) h) in
    let same = SameView-with_bytes d c (drop n (buffered d)) s in
    (v ∙ same ∙ ap (λ x. with_bytes c (drop n x)) b ∙ sym v', w, w')

skip_noops-SameView :
    (rounds : ℕ) (d c : FrameDecoder)
    → SameView d c
    → SameView (skip_noops rounds d) (skip_noops rounds c)
unfolding skip_noops
skip_noops-SameView zero d c s = s
skip_noops-SameView (suc rounds) d c s =
    let b = SameView-buffered d c s in
    let t = discard_buffered-SameView d c noop_frame_size s in
    let ih = λ (k : 4 ≤ length (buffered d)).
      skip_noops-SameView rounds (discard_buffered d noop_frame_size)
        (discard_buffered c noop_frame_size) (t k) in
    elim (Bool-cases (ltb (length (buffered d)) 4)) [
      | inl h ↦ rw (h, rw b at h) s
      | inr h ↦ elim (Bool-cases (le_uint32 (buffered d) == noop_frame_size)) [
        | inl k ↦ rw (h, rw b at h, k, rw b at k) (ih (ground arith))
        | inr k ↦ rw (h, rw b at h, k, rw b at k) s
      ]
    ]

-- Two outcomes that nothing outside can tell apart.
abbrev pub Agree {ℓ} :
    {A : Type ℓ} → FrameDecoder × Result Error A → FrameDecoder × Result Error A → Type ℓ
Agree r q = (r.1 ≡ q.1) × SameView r.0 q.0

abbrev with_error : FrameDecoder → Error → FrameDecoder
with_error d x = record d { error = some x }

fail-Agree :
    (A : Type 0) (d c : FrameDecoder) (x : Error)
    → SameView d c
    → Agree {A = A} (fail d x) (fail c x)
unfolding fail
fail-Agree A d c x s = (refl, (ap (λ y. with_error y x) s.0, s.1, s.2))

accept-Agree :
    (d c : FrameDecoder) (size : ℕ) (f : Frame)
    → SameView d c
    → size ≤ length (buffered d)
    → Agree (accept d size f) (accept c size f)
unfolding accept fail advance
accept-Agree d c size f s h = let t = discard_buffered-SameView d c size s h in ground arith

pub SameView-buffered_len : (d c : FrameDecoder) → SameView d c → buffered_len d ≡ buffered_len c
SameView-buffered_len d c s = rw (← length-buffered d, ← length-buffered c, SameView-buffered d c s)

pub drain_noops-SameView :
    (d c : FrameDecoder) → SameView d c → SameView (drain_noops d) (drain_noops c)
unfolding drain_noops
drain_noops-SameView d c s =
    subst (λ n. SameView (skip_noops (buffered_len d) d) (skip_noops n c))
      (SameView-buffered_len d c s) (skip_noops-SameView (buffered_len d) d c s)

consume_exhausted_padding-Agree :
    (d c : FrameDecoder)
    → SameView (drain_noops d) (drain_noops c)
    → Agree (consume_exhausted_padding d) (consume_exhausted_padding c)
unfolding consume_exhausted_padding fail
consume_exhausted_padding-Agree d c t =
    let n = SameView-buffered_len (drain_noops d) (drain_noops c) t in ground arith

settle-Agree :
    (d c : FrameDecoder) (size n : ℕ) (r q : Result Error Frame)
    → SameView d c
    → size ≤ length (buffered d)
    → size ≡ n
    → r ≡ q
    → Agree (settle d size r) (settle c n q)
unfolding settle
settle-Agree d c size n (ok f) q s h z e =
    subst₂ (λ k x. Agree (accept d size f) (settle c k x)) z e (accept-Agree d c size f s h)
settle-Agree d c size n (err x) q s h z e =
    subst₂ (λ k x'. Agree {A = Option Frame} (fail d x) (settle c k x')) z e
      (fail-Agree (Option Frame) d c x s)

abbrev outcome : FrameDecoder → Result Error Frame
outcome d =
    decode_frame (take (le_uint32 (buffered d)) (buffered d)) d.next_sequence d.mode
      d.max_frame_size

pub next_frame-Agree : (d c : FrameDecoder) → SameView d c → Agree (next_frame d) (next_frame c)
unfolding next_frame
next_frame-Agree d c s =
    let b = SameView-buffered d c s in
    let short : ltb (length (buffered d)) 4 ≡ ltb (length (buffered c)) 4 =
      ap (λ x. ltb (length x) 4) b in
    let bad : (ltb (le_uint32 (buffered d)) 16 || not (le_uint32 (buffered d) % 4 == 0))
        ≡ (ltb (le_uint32 (buffered c)) 16 || not (le_uint32 (buffered c) % 4 == 0)) =
      ap (λ x. ltb (le_uint32 x) 16 || not (le_uint32 x % 4 == 0)) b in
    let large : ltb d.max_frame_size (le_uint32 (buffered d))
        ≡ ltb c.max_frame_size (le_uint32 (buffered c)) =
      λ i. ltb (s.0 i).max_frame_size (le_uint32 (b i)) in
    let partial : ltb (length (buffered d)) (le_uint32 (buffered d))
        ≡ ltb (length (buffered c)) (le_uint32 (buffered c)) =
      ap (λ x. ltb (length x) (le_uint32 x)) b in
    let result : outcome d ≡ outcome c = λ i.
      decode_frame (take (le_uint32 (b i)) (b i)) (s.0 i).next_sequence (s.0 i).mode
        (s.0 i).max_frame_size in
    elim (Bool-cases (ltb (length (buffered d)) 4)) [
      | inl h ↦ rw (h, sym short ∙ h) (refl, s)
      | inr h ↦
          elim (Bool-cases
            (ltb (le_uint32 (buffered d)) 16 || not (le_uint32 (buffered d) % 4 == 0))) [
              | inl k ↦
                  rw (h, sym short ∙ h, k, sym bad ∙ k)
                    (fail-Agree (Option Frame) d c invalid_frame_size s)
              | inr k ↦ elim (Bool-cases (ltb d.max_frame_size (le_uint32 (buffered d)))) [
                | inl l ↦
                    rw (h, sym short ∙ h, k, sym bad ∙ k, l, sym large ∙ l)
                      (fail-Agree (Option Frame) d c frame_too_large s)
                | inr l ↦ elim (Bool-cases (ltb (length (buffered d)) (le_uint32 (buffered d)))) [
                  | inl m ↦
                      rw (h, sym short ∙ h, k, sym bad ∙ k, l, sym large ∙ l, m, sym partial ∙ m)
                        (refl, s)
                  | inr m ↦
                      rw (h, sym short ∙ h, k, sym bad ∙ k, l, sym large ∙ l, m, sym partial ∙ m)
                        (settle-Agree d c (le_uint32 (buffered d)) (le_uint32 (buffered c))
                          (outcome d) (outcome c) s (ground arith) (ap le_uint32 b) result)
                ]
              ]
            ]
    ]

-- Next gives the same answer whether the live bytes stand at the front of the buffer or behind
-- consumed ones, and leaves the decoder with the same live bytes and the same other fields.
pub next-Agree : (d c : FrameDecoder) → SameView d c → Agree (next d) (next c)
unfolding next
next-Agree d c s =
    let e : d.error ≡ c.error = ap (λ x. x.error) s.0 in
    let o : d.checksum_transition_open ≡ c.checksum_transition_open =
      ap (λ x. x.checksum_transition_open) s.0 in
    let z : d.exhausted ≡ c.exhausted = ap (λ x. x.exhausted) s.0 in
    let t = drain_noops-SameView d c s in
    let p = consume_exhausted_padding-Agree d c t in
    let n = next_frame-Agree (drain_noops d) (drain_noops c) t in
    elim (Option-cases d.error) [
      | inr (x, h) ↦ ground (arith, e, s)
      | inl h ↦ elim (Bool-cases d.checksum_transition_open) [
        | inl k ↦ ground (arith, e, o, s)
        | inr k ↦ elim (Bool-cases d.exhausted) [
          | inl l ↦ ground (arith, e, o, z, p)
          | inr l ↦ ground (arith, e, o, z, n)
        ]
      ]
    ]

-- The same of decoders that wait for frames and agree once the no-ops in front are dropped.
pub next_waiting-Agree :
    (d c : FrameDecoder)
    → d.error ≡ none
    → c.error ≡ none
    → d.checksum_transition_open ≡ false
    → c.checksum_transition_open ≡ false
    → d.exhausted ≡ c.exhausted
    → SameView (drain_noops d) (drain_noops c)
    → Agree (next d) (next c)
unfolding next
next_waiting-Agree d c e e' o o' z t =
    let p = consume_exhausted_padding-Agree d c t in
    let n = next_frame-Agree (drain_noops d) (drain_noops c) t in
    elim (Bool-cases d.exhausted) [ inl l ↦ ground (arith, p) | inr l ↦ ground (arith, n) ]
