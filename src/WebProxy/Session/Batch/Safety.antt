-- ===== src/WebProxy/Session/Batch/Safety.antt =====
-- webproxy/session.go: a batch that validateBatchLocked accepts, with the reservation that
-- backendWriteReservationLocked computes, is applied without a panic.
use tel_ego_openwrt.Base.{
  ℕ, ◌+◌, ◌≤◌, List, [], ◌∷◌, Bool, true, false, some, ◌==◌, if◌then◌else◌, length, All, ◌≡◌, refl,
  sym, ap, subst, inl, inr, Bool-cases, Option-cases, arith,
}
use native.Mathlib.Nat.{add-zero}
use tel_ego_openwrt.Base.Maps.{Map, contains, insert}
use tel_ego_openwrt.WebProxy.Frame.{
  Frame, frame_open, frame_data, frame_close, frame_window, frame_pong,
}
use tel_ego_openwrt.WebProxy.StreamHistory.{StreamIdHistory}
use tel_ego_openwrt.WebProxy.Limits.{queue_item_cost, checked_add_int}
use tel_ego_openwrt.WebProxy.Session.Batch.{Batch, apply_frame, apply_frames, apply_open}
use tel_ego_openwrt.WebProxy.Session.Checks.{
  Checked, check_frame, check_frames, live_after, charged, reserve_frame, reserve_frames,
}
use tel_ego_openwrt.WebProxy.Session.Batch.Agreement.{Agrees, InRange, was_used}
use tel_ego_openwrt.WebProxy.Session.Batch.Cases.{Stepped, same-Stepped, window-case, data-case}
use tel_ego_openwrt.WebProxy.Session.Batch.Openings.{open-case, close-case}
use tel_ego_openwrt.WebProxy.Session.Accounts.{Balanced}

-- The price of a frame in the reservation.
unfoldable pub price : Map (Unit {0}) → Frame → ℕ × ℕ
price live f = if charged live f then (length f.payload + queue_item_cost, 1) else (0, 0)

reserve_frame_lem :
    (cost items cost' items' : ℕ) (f : Frame)
    → reserve_frame (cost, items) f ≡ some (cost', items')
    → (cost' ≡ cost + (length f.payload + queue_item_cost)) × (items' ≡ items + 1)
unfolding reserve_frame checked_add_int
reserve_frame_lem cost items cost' items' f h = ground arith

price-data :
    (live : Map (Unit {0})) (f : Frame)
    → (f.stream_id == 0) ≡ false
    → (f.frame_type == frame_data) ≡ true
    → contains f.stream_id live ≡ true
    → price live f ≡ (length f.payload + queue_item_cost, 1)
unfolding price charged
price-data live f z t k = rw (price, charged, z, t, k) refl

less-Stepped :
    (start : StreamIdHistory) (c : Checked) (live : Map (Unit {0})) (before b : Batch)
    (hc hi cost items : ℕ)
    → Stepped start c live before b hc hi 0 0
    → Stepped start c live before b hc hi cost items
less-Stepped start c live before b hc hi cost items s = record {
  still_balanced = s.still_balanced;
  agrees = s.agrees;
  cost_left = omega (arith, s.cost_left);
  items_left = omega (arith, s.items_left);
}

-- A tag that one constant is, another is not.
other_tag : (t k l : ℕ) → (t == k) ≡ true → (k == l) ≡ false → (t == l) ≡ false
other_tag t k l h n = ground arith

priced_covers :
    (live : Map (Unit {0})) (f : Frame) (cost items : ℕ)
    → price live f ≡ (length f.payload + queue_item_cost, 1)
    → ((price live f).0 ≤ cost) × ((price live f).1 ≤ items)
    → (length f.payload + queue_item_cost ≤ cost) × (1 ≤ items)
priced_covers live f cost items e h =
    (subst (λ p. p.0 ≤ cost) e h.0, subst (λ p. p.1 ≤ items) e h.1)

-- One frame of a batch.
apply_frame-Stepped :
    (start : StreamIdHistory) (c c' : Checked) (live : Map (Unit {0})) (b : Batch) (hc hi : ℕ)
    (acquire : ℕ → Bool) (f : Frame)
    → Agrees start c live b hc hi
    → b.applied ≡ true
    → InRange f
    → ((price live f).0 ≤ b.unused_cost) × ((price live f).1 ≤ b.unused_items)
    → check_frame start c f ≡ some c'
    → Stepped start c'
        (live_after live f)
        b
        (apply_frame acquire b f)
        hc
        hi
        (price live f).0
        (price live f).1
unfolding check_frame apply_frame live_after was_used InRange
apply_frame-Stepped start c c' live b hc hi acquire f a going r covered h =
    elim (Bool-cases (f.stream_id == 0)) [
      | inl z ↦ elim (Bool-cases (f.frame_type == frame_pong)) [
        | inr n ↦ let g = rw (check_frame, z, n) at h in absurd (cc)
        | inl y ↦
            let g = rw (check_frame, z, y) at h in
            let e : c ≡ c' = cc in
            rw (apply_frame, live_after, z)
              (subst (λ x. Stepped start x live b b hc hi (price live f).0 (price live f).1) e
                (same-Stepped start c live b hc hi a c b (price live f).0 (price live f).1 refl a))
      ]
      | inr z ↦ elim (Bool-cases (f.frame_type == frame_open)) [
        | inl o ↦
            let g = rw (check_frame, z, o) at h in
            rw (apply_frame, live_after, z, o)
              (less-Stepped start c' (insert f.stream_id tt live) b
                (apply_open acquire b f.stream_id) hc hi (price live f).0 (price live f).1
                (open-case start c live b hc hi a going acquire f.stream_id c' r.0 g))
        | inr o ↦ elim (Bool-cases (f.frame_type == frame_data)) [
          | inl d ↦
              let g = rw (check_frame, z, o, d) at h in
              let k = other_tag f.frame_type frame_data frame_close d refl in
              rw (apply_frame, live_after, z, o, d, k)
                (data-case start c live b hc hi a f c' (price live f).0 (price live f).1 r going
                  (λ l.
                    priced_covers live f b.unused_cost b.unused_items (price-data live f z d l)
                      covered)
                  (λ l.
                    priced_covers live f (price live f).0 (price live f).1 (price-data live f z d l)
                      (omega arith, omega arith))
                  g)
          | inr d ↦ elim (Bool-cases (f.frame_type == frame_window)) [
            | inl w ↦
                let g = rw (check_frame, z, o, d, w) at h in
                let k = other_tag f.frame_type frame_window frame_close w refl in
                rw (apply_frame, live_after, z, o, d, w, k)
                  (window-case start c live b hc hi a f c' (price live f).0 (price live f).1 r going
                    g)
            | inr w ↦ elim (Bool-cases (f.frame_type == frame_close)) [
              | inl k ↦
                  let g = rw (check_frame, z, o, d, w, k) at h in
                  rw (apply_frame, live_after, z, o, d, w, k)
                    (close-case start c live b hc hi a going f c' (price live f).0 (price live f).1
                      r g)
              | inr k ↦ let g = rw (check_frame, z, o, d, w, k) at h in absurd (cc)
            ]
          ]
        ]
      ]
    ]

-- The sums only grow.
reserve_frames-grows :
    (live : Map (Unit {0})) (rc ri cost items : ℕ) (fs : List Frame)
    → reserve_frames live (rc, ri) fs ≡ some (cost, items)
    → (rc ≤ cost) × (ri ≤ items)
unfolding reserve_frames
reserve_frames-grows live rc ri cost items [] h =
    let a : rc ≡ cost = cc in let b : ri ≡ items = cc in (omega arith, omega arith)
reserve_frames-grows live rc ri cost items (f ∷ fs) h = elim (Bool-cases (charged live f)) [
  | inr n ↦
      let g = rw (reserve_frames, n) at h in
      reserve_frames-grows (live_after live f) rc ri cost items fs g
  | inl y ↦ elim (Option-cases (reserve_frame (rc, ri) f)) [
    | inl x ↦ let g = rw (reserve_frames, y, x) at h in absurd (cc)
    | inr ((rc', ri'), x) ↦
        let g = rw (reserve_frames, y, x) at h in
        let more = reserve_frame_lem rc ri rc' ri' f x in
        let ih = reserve_frames-grows (live_after live f) rc' ri' cost items fs g in
        (omega (arith, more, ih), omega (arith, more, ih))
  ]
]

-- What the reservation of a batch says of its first frame and of the rest.
reserve_frames-step :
    (live : Map (Unit {0})) (rc ri cost items : ℕ) (f : Frame) (fs : List Frame)
    → reserve_frames live (rc, ri) (f ∷ fs) ≡ some (cost, items)
    → reserve_frames (live_after live f) (rc + (price live f).0, ri + (price live f).1) fs
      ≡ some (cost, items)
unfolding reserve_frames price
reserve_frames-step live rc ri cost items f fs h = elim (Bool-cases (charged live f)) [
  | inr n ↦ let g = rw (reserve_frames, n) at h in rw (price, n, add-zero, add-zero) g
  | inl y ↦ elim (Option-cases (reserve_frame (rc, ri) f)) [
    | inl x ↦ let g = rw (reserve_frames, y, x) at h in absurd (cc)
    | inr ((rc', ri'), x) ↦
        let g = rw (reserve_frames, y, x) at h in
        let more = reserve_frame_lem rc ri rc' ri' f x in rw (price, y, sym more.0, sym more.1) g
  ]
]

-- The batch behind all its frames: the accounts hold, and so does the agreement if it was applied.
pub record Finished (start : StreamIdHistory) (b : Batch) (hc hi : ℕ) : Type 0 where
  pub balanced : Balanced b.session (hc + b.unused_cost) (hi + b.unused_items)
  pub agreed :
      b.applied ≡ true → (c : Checked) × (live : Map (Unit {0})) × Agrees start c live b hc hi

pub apply_frames-Finished :
    (start : StreamIdHistory) (c : Checked) (live : Map (Unit {0})) (b : Batch) (hc hi : ℕ)
    (acquire : ℕ → Bool) (rc ri cost items : ℕ) (fs : List Frame)
    → Balanced b.session (hc + b.unused_cost) (hi + b.unused_items)
    → (b.applied ≡ true → Agrees start c live b hc hi)
    → All InRange fs
    → (cost ≤ b.unused_cost + rc) × (items ≤ b.unused_items + ri)
    → check_frames start c fs ≡ true
    → reserve_frames live (rc, ri) fs ≡ some (cost, items)
    → Finished start (apply_frames acquire b fs) hc hi
unfolding check_frames apply_frames
apply_frames-Finished start c live b hc hi acquire rc ri cost items [] bal a r cover h v = record {
  balanced = bal;
  agreed = λ y. (c, live, a y);
}
apply_frames-Finished start c live b hc hi acquire rc ri cost items (f ∷ fs) bal a r cover h v =
    let next = apply_frame acquire b f in
    let rest = apply_frames acquire next fs in
    elim (Bool-cases b.applied) [
      | inr n ↦
          subst (λ x. Finished start x hc hi) (sym (ap (λ z. if z then rest else b) n))
            (record { balanced = bal; agreed = λ y. absurd (cc) })
      | inl y ↦ elim (Option-cases (check_frame start c f)) [
        | inl x ↦ let g = rw (check_frames, x) at h in absurd (cc)
        | inr (c', x) ↦
            let g = rw (check_frames, x) at h in
            let v' = reserve_frames-step live rc ri cost items f fs v in
            let grows =
              reserve_frames-grows (live_after live f) (rc + (price live f).0)
                (ri + (price live f).1) cost items fs v' in
            let stepped =
              apply_frame-Stepped start c c' live b hc hi acquire f (a y) y r.0
                (omega arith, omega arith) x in
            let left = stepped.cost_left in
            let left' = stepped.items_left in
            subst (λ x. Finished start x hc hi) (sym (ap (λ z. if z then rest else b) y))
              (apply_frames-Finished start c' (live_after live f) next hc hi acquire
                (rc + (price live f).0) (ri + (price live f).1) cost items fs stepped.still_balanced
                stepped.agrees r.1 (omega arith, omega arith) g v')
      ]
    ]
