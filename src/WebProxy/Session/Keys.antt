-- ===== src/WebProxy/Session/Keys.antt =====
-- webproxy/session.go: how the writes to a lane's queue move the indices of its WINDOW frames, and
-- what they do to the cost and the number of the frames.
use tel_ego_openwrt.Base.{
  ℕ, zero, suc, ◌+◌, ◌<◌, List, [], ◌∷◌, ◌++◌, none, some, ◌==◌, if◌then◌else◌, length, ◌≡◌, refl,
  sym, ap, ◌∙◌, inl, inr, Bool-cases, Option-cases, arith, get_elem?, All, All-append, ==_iff,
  subst, set, length-append,
}
use mathlib.Core.Path.{ap₂}
use tel_ego_openwrt.Base.Maps.{Map, lookup, insert, lookup-insert}
use tel_ego_openwrt.WebProxy.Frame.{FrameType, frame_window}
use tel_ego_openwrt.WebProxy.Limits.{queue_item_cost}
use tel_ego_openwrt.WebProxy.Session.{CarrierLane, QueuedFrame}
use tel_ego_openwrt.WebProxy.Session.Queue.{split_last, append_queue}
use tel_ego_openwrt.WebProxy.Session.Release.{frames_cost}
use tel_ego_openwrt.WebProxy.Session.Accounts.{keys, lane_cost, lane_items, LaneOk, Framed}

pub frames_cost-append :
    (xs ys : List QueuedFrame) → frames_cost (xs ++ ys) ≡ frames_cost xs + frames_cost ys
unfolding frames_cost
frames_cost-append [] ys = omega arith
frames_cost-append (x ∷ xs) ys = omega (arith, frames_cost-append xs ys)

pub keys-append : (xs ys : List QueuedFrame) → keys (xs ++ ys) ≡ keys xs ++ keys ys
unfolding keys
keys-append [] ys = refl
keys-append (x ∷ xs) ys = ap (◌∷◌ (x.frame_type, x.stream_id)) (keys-append xs ys)

pub length-keys : (xs : List QueuedFrame) → length (keys xs) ≡ length xs
unfolding keys
length-keys [] = refl
length-keys (x ∷ xs) = ap suc (length-keys xs)

split_last-none {ℓ} : {A : Type ℓ} (qs : List A) → split_last qs ≡ none → qs ≡ []
unfolding split_last
split_last-none [] h = refl
split_last-none (q ∷ qs) h = elim (Option-cases (split_last qs)) [
  | inl e ↦ let g = rw e at h in absurd (cc)
  | inr (r, e) ↦ let g = rw e at h in absurd (cc)
]

pub split_last_lem {ℓ} :
    {A : Type ℓ} (qs front : List A) (last : A)
    → split_last qs ≡ some (front, last)
    → front ++ last ∷ [] ≡ qs
unfolding split_last
split_last_lem [] front last h = absurd (cc)
split_last_lem (q ∷ qs) front last h = elim (Option-cases (split_last qs)) [
  | inl e ↦
      let g = rw e at h in
      let start : [] ≡ front = cc in
      let only : q ≡ last = cc in rw (split_last-none qs e, sym start, sym only) refl
  | inr ((f, l), e) ↦
      let g = rw e at h in
      let start : q ∷ f ≡ front = cc in
      let only : l ≡ last = cc in rw (sym start, sym only) (ap (◌∷◌ q) (split_last_lem qs f l e))
]

-- A write that keeps a frame's type, stream and cost.
pub keys-set :
    (qs : List QueuedFrame) (i : ℕ) (old new : QueuedFrame)
    → get_elem? qs i ≡ some old
    → new.frame_type ≡ old.frame_type
    → new.stream_id ≡ old.stream_id
    → keys (set qs i new) ≡ keys qs
unfolding keys
keys-set [] i old new h t d = refl
keys-set (q ∷ qs) zero old new h t d =
    let same : q ≡ old = cc in
    ap (λ k. k ∷ keys qs)
      (ap₂ (λ a b. (a, b)) (t ∙ ap (λ x. x.frame_type) (sym same))
        (d ∙ ap (λ x. x.stream_id) (sym same)))
keys-set (q ∷ qs) (suc i) old new h t d =
    ap (◌∷◌ (q.frame_type, q.stream_id)) (keys-set qs i old new h t d)

pub frames_cost-set :
    (qs : List QueuedFrame) (i : ℕ) (old new : QueuedFrame)
    → get_elem? qs i ≡ some old
    → new.cost ≡ old.cost
    → frames_cost (set qs i new) ≡ frames_cost qs
unfolding frames_cost
frames_cost-set [] i old new h c = refl
frames_cost-set (q ∷ qs) zero old new h c =
    let same : q ≡ old = cc in ap (λ n. n + frames_cost qs) (c ∙ ap (λ x. x.cost) (sym same))
frames_cost-set (q ∷ qs) (suc i) old new h c =
    ap (λ n. q.cost + n) (frames_cost-set qs i old new h c)

pub length-set {ℓ} : {A : Type ℓ} (xs : List A) (i : ℕ) (v : A) → length (set xs i v) ≡ length xs
length-set [] i v = refl
length-set (x ∷ xs) zero v = refl
length-set (x ∷ xs) (suc i) v = ap suc (length-set xs i v)

pub get_elem?-append_front {ℓ} :
    {A : Type ℓ} (xs ys : List A) (i : ℕ) (a : A)
    → get_elem? xs i ≡ some a
    → get_elem? (xs ++ ys) i ≡ some a
get_elem?-append_front [] ys i a h = absurd (cc)
get_elem?-append_front (x ∷ xs) ys zero a h = h
get_elem?-append_front (x ∷ xs) ys (suc i) a h = get_elem?-append_front xs ys i a h

pub get_elem?-append_last {ℓ} :
    {A : Type ℓ} (xs : List A) (a : A) → get_elem? (xs ++ a ∷ []) (length xs) ≡ some a
get_elem?-append_last [] a = refl
get_elem?-append_last (x ∷ xs) a = get_elem?-append_last xs a

-- A further key behind the others, indexed where it is a WINDOW frame's.
windows_append :
    (ks : List (ℕ × ℕ)) (windows : Map ℕ) (t : FrameType) (id : ℕ)
    → ((j index : ℕ) → lookup j windows ≡ some index → get_elem? ks index ≡ some (frame_window, j))
    → (j index : ℕ)
    → lookup j (if t == frame_window then insert id (length ks) windows else windows) ≡ some index
    → get_elem? (ks ++ (t, id) ∷ []) index ≡ some (frame_window, j)
windows_append ks windows t id w j index h = elim (Bool-cases (t == frame_window)) [
  | inr n ↦ get_elem?-append_front ks ((t, id) ∷ []) index (frame_window, j) (w j index (rw n at h))
  | inl y ↦
      let g = lookup-insert j id (length ks) windows in
      let k = rw y at h in
      elim (Bool-cases (j == id)) [
        | inr d ↦
            let g' = rw d at g in
            get_elem?-append_front ks ((t, id) ∷ []) index (frame_window, j)
              (w j index (sym g' ∙ k))
        | inl d ↦
            let g' = rw d at g in
            let place : length ks ≡ index = cc in
            subst (λ i. get_elem? (ks ++ (t, id) ∷ []) i ≡ some (frame_window, j)) place
              (get_elem?-append_last ks (t, id)
                ∙ ap some
                    (ap₂ (λ x y. (x, y)) ((==_iff t frame_window).0 y) (sym ((==_iff j id).0 d))))
      ]
]

-- A frame of its own behind the queue: its windows stay indexed, and it adds its cost.
pub append_queue-LaneOk :
    (lane : CarrierLane) (t : FrameType) (id : ℕ) (encoded : List ℕ)
    → 0 < length encoded
    → LaneOk lane
    → LaneOk (append_queue lane t id encoded)
unfolding append_queue keys Framed
append_queue-LaneOk lane t id encoded n w = record {
  indexed = λ j index h. rw (keys-append lane.pending_frames) (
      windows_append (keys lane.pending_frames) lane.pending_windows t id w.indexed j index (
        subst
          (λ n.
            lookup j
              (if t == frame_window then insert id n lane.pending_windows else lane.pending_windows)
            ≡ some index)
          (sym (length-keys lane.pending_frames)) h));
  framed = All-append Framed lane.pending_frames _ w.framed (n, tt);
  acked = w.acked;
}

pub lane_cost-append_queue :
    (lane : CarrierLane) (t : FrameType) (id : ℕ) (encoded : List ℕ)
    → lane_cost (append_queue lane t id encoded)
      ≡ lane_cost lane + (length encoded + queue_item_cost)
unfolding append_queue lane_cost frames_cost
lane_cost-append_queue lane t id encoded = rw (frames_cost-append lane.pending_frames) (omega arith)

pub lane_items-append_queue :
    (lane : CarrierLane) (t : FrameType) (id : ℕ) (encoded : List ℕ)
    → lane_items (append_queue lane t id encoded) ≡ lane_items lane + 1
unfolding append_queue lane_items
lane_items-append_queue lane t id encoded = rw (length-append lane.pending_frames) (omega arith)

-- A lane whose frames have the same keys keeps its windows indexed.
pub same_keys-LaneOk :
    (lane : CarrierLane) (frames : List QueuedFrame)
    → keys frames ≡ keys lane.pending_frames
    → All Framed frames
    → LaneOk lane
    → LaneOk (record lane { pending_frames = frames })
same_keys-LaneOk lane frames e a w = record {
  indexed = λ j index h. rw e (w.indexed j index h);
  framed = a;
  acked = w.acked;
}

-- A key stands for a frame.
pub get_elem?-keys :
    (qs : List QueuedFrame) (i : ℕ) (k : ℕ × ℕ)
    → get_elem? (keys qs) i ≡ some k
    → (q : QueuedFrame) × (get_elem? qs i ≡ some q)
unfolding keys
get_elem?-keys [] i k h = absurd (cc)
get_elem?-keys (q ∷ qs) zero k h = (q, refl)
get_elem?-keys (q ∷ qs) (suc i) k h = get_elem?-keys qs i k h

pub All-set {ℓ κ} :
    {A : Type ℓ} (P : A → Type κ) (xs : List A) (i : ℕ) (v : A)
    → All P xs
    → P v
    → All P (set xs i v)
All-set P [] i v h p = tt
All-set P (x ∷ xs) zero v h p = (p, h.1)
All-set P (x ∷ xs) (suc i) v h p = (h.0, All-set P xs i v h.1 p)

pub All-front {ℓ κ} :
    {A : Type ℓ} (P : A → Type κ) (xs ys : List A) → All P (xs ++ ys) → All P xs × All P ys
All-front P [] ys h = (tt, h)
All-front P (x ∷ xs) ys h = let rest = All-front P xs ys h.1 in ((h.0, rest.0), rest.1)
