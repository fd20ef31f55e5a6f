-- ===== src/WebProxy/Session/Windows.antt =====
-- webproxy/session.go: the indices of WINDOW frames behind takeDownBatchLocked and
-- dropPendingStreamFramesLocked.
use tel_ego_openwrt.Base.{
  ℕ, zero, suc, ◌+◌, ◌-◌, ◌≤◌, ◌<◌, List, [], ◌∷◌, false, ◌&&◌, some, ◌==◌, length, take, drop,
  get_elem?, ◌≡◌, refl, sym, ap, ◌∙◌, ◌⊎◌, inl, inr, Bool-cases, ==_iff, arith, All,
}
use native.Mathlib.Nat.{zero-add, suc-add}
use tel_ego_openwrt.Base.Maps.{Map, lookup, insert, remove, lookup-insert, lookup-remove}
use tel_ego_openwrt.WebProxy.Frame.{frame_window}
use tel_ego_openwrt.WebProxy.Session.{QueuedFrame}
use tel_ego_openwrt.WebProxy.Session.Release.{
  frames_cost, window_index, forget_windows, shift_windows, index_windows, frames_without,
  frames_of, batch_count,
}
use tel_ego_openwrt.WebProxy.Session.Accounts.{keys}

pub frames_cost-without :
    (id : ℕ) (qs : List QueuedFrame)
    → frames_cost (frames_without id qs) + frames_cost (frames_of id qs) ≡ frames_cost qs
unfolding frames_cost frames_without frames_of
frames_cost-without id [] = refl
frames_cost-without id (q ∷ qs) = elim (Bool-cases (q.stream_id == id)) [
  | inl e ↦ rw e (omega (arith, frames_cost-without id qs))
  | inr e ↦ rw e (omega (arith, frames_cost-without id qs))
]

pub length-without :
    (id : ℕ) (qs : List QueuedFrame)
    → length (frames_without id qs) + length (frames_of id qs) ≡ length qs
unfolding frames_without frames_of
length-without id [] = refl
length-without id (q ∷ qs) = elim (Bool-cases (q.stream_id == id)) [
  | inl e ↦ rw e (omega (arith, length-without id qs))
  | inr e ↦ rw e (omega (arith, length-without id qs))
]

pub All-without {κ} :
    (P : QueuedFrame → Type κ) (id : ℕ) (qs : List QueuedFrame)
    → All P qs
    → All P (frames_without id qs)
unfolding frames_without
All-without P id [] a = tt
All-without P id (q ∷ qs) a = elim (Bool-cases (q.stream_id == id)) [
  | inl e ↦ rw e (All-without P id qs a.1)
  | inr e ↦ rw e (a.0, All-without P id qs a.1)
]

-- An index that index_windows gives was there before, or is a WINDOW frame's place.
pub index_windows_lem :
    (windows : Map ℕ) (first : ℕ) (qs : List QueuedFrame) (j i : ℕ)
    → lookup j (index_windows windows first qs) ≡ some i
    → (lookup j windows ≡ some i)
      ⊎ ((d : ℕ) × ((i ≡ first + d) × (get_elem? (keys qs) d ≡ some (frame_window, j))))
unfolding index_windows keys
index_windows_lem windows first [] j i h = inl h
index_windows_lem windows first (q ∷ qs) j i h = elim (Bool-cases (q.frame_type == frame_window)) [
  | inr n ↦ elim (index_windows_lem windows (suc first) qs j i (rw n at h)) [
    | inl g ↦ inl g
    | inr (d, (e, g)) ↦ inr (suc d, (omega arith, g))
  ]
  | inl y ↦
      elim (index_windows_lem (insert q.stream_id first windows) (suc first) qs j i (rw y at h)) [
        | inr (d, (e, g)) ↦ inr (suc d, (omega arith, g))
        | inl g ↦
            let l = lookup-insert j q.stream_id first windows in
            elim (Bool-cases (j == q.stream_id)) [
              | inr n ↦ inl (sym (rw n at l) ∙ g)
              | inl e ↦
                  let l' = rw e at l in
                  let place : first ≡ i = cc in
                  let kind = (==_iff q.frame_type frame_window).0 y in
                  let stream = (==_iff j q.stream_id).0 e in inr (0, (omega arith, cc))
            ]
      ]
]

-- What holds of the first key and of the later ones holds of all.
later :
    (i first : ℕ) (k : ℕ × ℕ) (j : ℕ) (ks : List (ℕ × ℕ))
    → ((d : ℕ) → i ≡ suc first + d → get_elem? ks d ≡ some (frame_window, j) → ⊥)
    → (i ≡ first → k ≡ (frame_window, j) → ⊥)
    → (d : ℕ) → i ≡ first + d
    → get_elem? (k ∷ ks) d ≡ some (frame_window, j)
    → ⊥
later i first k j ks r z zero e g = z (omega arith) cc
later i first k j ks r z (suc d) e g = r d (omega arith) g

other_stream : (stream j : ℕ) → (j == stream) ≡ false → stream ≡ j → ⊥
other_stream stream j h e = ground arith

-- A WINDOW frame whose index is left is not in the place that its index names.
still_there :
    (windows : Map ℕ) (q : QueuedFrame) (i j first : ℕ) (k : ℕ × ℕ)
    → (q.frame_type == frame_window && window_index windows q.stream_id == first) ≡ false
    → lookup j windows ≡ some i
    → i ≡ first
    → k.0 ≡ frame_window
    → k.1 ≡ j
    → (k.0 ≡ q.frame_type) × (k.1 ≡ q.stream_id)
    → ⊥
unfolding window_index
still_there windows q i j first k n l z t d own =
    let kind : q.frame_type ≡ frame_window = sym own.0 ∙ t in
    let stream : q.stream_id ≡ j = sym own.1 ∙ d in
    let stands = ap (λ x. lookup x windows) stream ∙ l in
    let index : window_index windows q.stream_id ≡ first = rw (window_index, stands) z in
    let a = (==_iff q.frame_type frame_window).1 kind in
    let b = (==_iff (window_index windows q.stream_id) first).1 index in ground arith

-- An index that is left was there, and is not the place of a WINDOW frame of its stream.
pub forget_windows_lem :
    (windows : Map ℕ) (first : ℕ) (qs : List QueuedFrame) (j i : ℕ)
    → lookup j (forget_windows windows first qs) ≡ some i
    → (lookup j windows ≡ some i)
      × ((d : ℕ) → i ≡ first + d → get_elem? (keys qs) d ≡ some (frame_window, j) → ⊥)
unfolding forget_windows keys
forget_windows_lem windows first [] j i h = (h, λ d e g. cc)
forget_windows_lem windows first (q ∷ qs) j i h =
    elim (Bool-cases (q.frame_type == frame_window && window_index windows q.stream_id == first)) [
      | inl y ↦
          let ih = forget_windows_lem (remove q.stream_id windows) (suc first) qs j i (rw y at h) in
          let l = lookup-remove j q.stream_id windows in
          elim (Bool-cases (j == q.stream_id)) [
            | inl e ↦ let l' = rw e at l in let gone = ih.0 in absurd (cc)
            | inr e ↦ (
              sym (rw e at l) ∙ ih.0,
              later i first (q.frame_type, q.stream_id) j (keys qs) ih.1
                  (λ z g. other_stream q.stream_id j e (ap (λ k. k.1) g)),
            )
          ]
      | inr n ↦
          let ih = forget_windows_lem windows (suc first) qs j i (rw n at h) in
          (
            ih.0,
            later i first (q.frame_type, q.stream_id) j (keys qs) ih.1
                (λ z g.
                  still_there windows q i j first (q.frame_type, q.stream_id) n ih.0 z
                    (ap (λ k. k.0) g) (ap (λ k. k.1) g) (refl, refl)),
          )
    ]

pub shift_windows_lem :
    (count : ℕ) (windows : Map ℕ) (j i : ℕ)
    → lookup j (shift_windows count windows) ≡ some i
    → (i' : ℕ) × ((lookup j windows ≡ some i') × (i ≡ i' - count))
unfolding shift_windows
shift_windows_lem count [] j i h = absurd (cc)
shift_windows_lem count (e ∷ windows) j i h = elim (Bool-cases (j == e.0)) [
  | inl y ↦ let g = rw y at h in (e.1, (rw y refl, cc))
  | inr n ↦ let (i', (l, s)) = shift_windows_lem count windows j i (rw n at h) in (i', (rw n l, s))
]

pub batch_count_bounds :
    (bytes n size : ℕ) (qs : List QueuedFrame) → batch_count bytes n size qs ≤ n + length qs
unfolding batch_count
batch_count_bounds bytes n size [] = omega arith
batch_count_bounds bytes n size (q ∷ qs) =
    ground (arith, batch_count_bounds bytes (suc n) (size + length q.encoded) qs)

pub keys-take : (n : ℕ) (qs : List QueuedFrame) → keys (take n qs) ≡ take n (keys qs)
unfolding keys
keys-take zero qs = refl
keys-take (suc n) [] = refl
keys-take (suc n) (q ∷ qs) = ap (◌∷◌ (q.frame_type, q.stream_id)) (keys-take n qs)

pub keys-drop : (n : ℕ) (qs : List QueuedFrame) → keys (drop n qs) ≡ drop n (keys qs)
unfolding keys
keys-drop zero qs = refl
keys-drop (suc n) [] = refl
keys-drop (suc n) (q ∷ qs) = keys-drop n qs

pub get_elem?-take {ℓ} :
    {A : Type ℓ} (n i : ℕ) (xs : List A) → i < n → get_elem? (take n xs) i ≡ get_elem? xs i
get_elem?-take zero i xs h = absurd (omega arith)
get_elem?-take (suc n) i [] h = refl
get_elem?-take (suc n) zero (x ∷ xs) h = refl
get_elem?-take (suc n) (suc i) (x ∷ xs) h = get_elem?-take n i xs (omega arith)

pub get_elem?-drop {ℓ} :
    {A : Type ℓ} (n d : ℕ) (xs : List A) → get_elem? (drop n xs) d ≡ get_elem? xs (n + d)
get_elem?-drop zero d xs = rw zero-add refl
get_elem?-drop (suc n) d [] = refl
get_elem?-drop (suc n) d (x ∷ xs) = rw suc-add (get_elem?-drop n d xs)
