-- ===== src/WebProxy/Session/Batch/Cases.antt =====
-- webproxy/session.go: one frame of a batch, by its type: what validateBatchLocked lets pass is applied
-- without a panic, and the agreement goes on.
use tel_ego_openwrt.Base.{
  ℕ, ◌+◌, ◌-◌, ◌^◌, ◌≤◌, ◌<◌, Bool, true, false, none, some, ltb, ◌==◌, if◌then◌else◌, length, ◌≡◌,
  refl, sym, ap, subst, inl, inr, Bool-cases, Option-cases, arith,
}
use tel_ego_openwrt.Base.Maps.{Map, lookup, contains, insert, lookup-insert_there}
use tel_ego_openwrt.WebProxy.Frame.{Frame}
use tel_ego_openwrt.WebProxy.StreamHistory.{StreamIdHistory}
use tel_ego_openwrt.WebProxy.Limits.{queue_item_cost}
use tel_ego_openwrt.WebProxy.Session.{StreamState}
use tel_ego_openwrt.WebProxy.Session.Streams.{put_stream}
use tel_ego_openwrt.WebProxy.Session.Batch.{Batch, apply_late, apply_data, apply_window}
use tel_ego_openwrt.WebProxy.Session.Checks.{
  Checked, StreamSnapshot, payload_size, more_credit, check_late, check_data, check_window,
}
use tel_ego_openwrt.WebProxy.Session.Batch.Agreement.{
  Agrees, InRange, was_used, apply_late-same, absent-Agrees, present-Agrees,
}
use tel_ego_openwrt.WebProxy.Session.Batch.Steps.{
  apply_data-session, apply_data-unused, apply_data-Balanced, after_data, apply_window-Balanced,
  data_window-exact,
}
use tel_ego_openwrt.WebProxy.Session.Accounts.{Balanced}

-- The batch behind a frame: the accounts hold; while the batch is applied the checks agree; and no more
-- than the frame's price of the reservation is gone.
pub record Stepped (start : StreamIdHistory) (c : Checked) (live : Map (Unit {0}))
    (before b : Batch) (hc hi cost items : ℕ) : Type 0 where
  pub still_balanced : Balanced b.session (hc + b.unused_cost) (hi + b.unused_items)
  pub agrees : b.applied ≡ true → Agrees start c live b hc hi
  pub cost_left : before.unused_cost ≤ b.unused_cost + cost
  pub items_left : before.unused_items ≤ b.unused_items + items

module _ (start : StreamIdHistory) (c : Checked) (live : Map (Unit {0})) (b : Batch) (hc hi : ℕ)
    (a : Agrees start c live b hc hi) where
  -- Nothing has happened.
  pub same-Stepped :
      (c' : Checked) (b' : Batch) (cost items : ℕ)
      → b' ≡ b
      → Agrees start c' live b hc hi
      → Stepped start c' live b b' hc hi cost items
  same-Stepped c' b' cost items e a' =
      subst (λ x. Stepped start c' live b x hc hi cost items) (sym e)
        (record {
          still_balanced = a'.balanced;
          agrees = λ _. a';
          cost_left = omega arith;
          items_left = omega arith;
        })

  check_late_lem : (u : Bool) (c' : Checked) → check_late u c ≡ some c' → (u ≡ true) × (c ≡ c')
  unfolding check_late
  check_late_lem u c' h = elim (Bool-cases u) [
    | inl y ↦ let g = rw y at h in (y, cc)
    | inr n ↦ let g = rw n at h in absurd (cc)
  ]

  -- A late frame, where the stream has no state.
  pub late-Stepped :
      (id : ℕ) (c' : Checked) (cost items : ℕ)
      → check_late (was_used start c id) c ≡ some c'
      → Stepped start c' live b (apply_late b id) hc hi cost items
  late-Stepped id c' cost items h =
      let (u, e) = check_late_lem (was_used start c id) c' h in
      same-Stepped c' (apply_late b id) cost items (apply_late-same start c live b hc hi a id u)
        (subst (λ x. Agrees start x live b hc hi) e a)

  -- A frame of a stream that only validateBatchLocked holds to be live.
  pub ghost-Stepped :
      (id : ℕ) (c' : Checked) (snap : StreamSnapshot) (cost items : ℕ)
      → lookup id b.session.streams ≡ none
      → lookup id c.live ≡ some snap
      → c'.used ≡ c.used
      → ((j : ℕ) → (j == id) ≡ false → lookup j c'.live ≡ lookup j c.live)
      → Stepped start c' live b (apply_late b id) hc hi cost items
  ghost-Stepped id c' snap cost items absent l u other =
      let known = a.live_used id snap l in
      same-Stepped c' (apply_late b id) cost items (apply_late-same start c live b hc hi a id known)
        (absent-Agrees start c live b hc hi a id c' absent u other (λ _ _. known))

  -- validateBatchLocked's view behind a WINDOW frame and behind a DATA frame.
  abbrev credited : StreamSnapshot → Frame → Checked
  credited snap f = record c {
    live = insert f.stream_id (record snap { send_credit = more_credit snap.send_credit f }) c.live;
  }

  abbrev narrowed : StreamSnapshot → Frame → Checked
  narrowed snap f = record c {
    live =
        insert f.stream_id (record snap { receive_window = snap.receive_window - payload_size f })
          c.live;
  }

  pub window-case :
      (f : Frame) (c' : Checked) (cost items : ℕ)
      → InRange f
      → b.applied ≡ true
      → check_window (was_used start c f.stream_id) c f ≡ some c'
      → Stepped start c' live b
          (elim (lookup f.stream_id b.session.streams) [
            | none ↦ apply_late b f.stream_id
            | some state ↦ apply_window b f state
          ])
          hc
          hi
          cost
          items
  unfolding check_window InRange apply_window put_stream
  window-case f c' cost items r going h =
      let id = f.stream_id in
      elim (Option-cases (lookup id b.session.streams)) [
        | inl x ↦ elim (Option-cases (lookup id c.live)) [
          | inl y ↦ let h' = rw (check_window, y) at h in rw x (late-Stepped id c' cost items h')
          | inr (snap, y) ↦
              let h' = rw (check_window, y) at h in
              let e : credited snap f ≡ c' = cc in
              rw x (
                subst (λ z. Stepped start z live b (apply_late b id) hc hi cost items) e
                  (ghost-Stepped id (credited snap f) snap cost items x y refl
                    (λ j n. lookup-insert_there j id _ c.live n)))
        ]
        | inr (state, x) ↦
            let (snap, (y, w)) = a.snapshot id state x in
            let h' = rw (check_window, y) at h in
            let e : credited snap f ≡ c' = cc in
            let balanced =
              apply_window-Balanced b f state (hc + b.unused_cost) (hi + b.unused_items) x
                a.balanced in
            rw x (
              subst (λ z. Stepped start z live b (apply_window b f state) hc hi cost items) e
                (record {
                  still_balanced = balanced;
                  agrees = λ _.
                      present-Agrees start c live b hc hi a id state
                        (record state { send_credit = more_credit state.send_credit f })
                        (record snap { send_credit = more_credit snap.send_credit f })
                        (credited snap f) (apply_window b f state) x refl refl w refl refl balanced;
                  cost_left = omega arith;
                  items_left = omega arith;
                }))
      ]

  narrowed_lem :
      (snap : StreamSnapshot) (f : Frame) (c' : Checked)
      → (if ltb snap.receive_window (payload_size f) then none else some (narrowed snap f))
        ≡ some c'
      → (payload_size f ≤ snap.receive_window) × (narrowed snap f ≡ c')
  narrowed_lem snap f c' h = elim (Bool-cases (ltb snap.receive_window (payload_size f))) [
    | inl y ↦ let g = rw y at h in absurd (cc)
    | inr n ↦ let g = rw n at h in let e : narrowed snap f ≡ c' = cc in (ground arith, e)
  ]

  -- A DATA frame of a live stream, within its window and its reservation.
  data-Stepped :
      (f : Frame) (snap : StreamSnapshot) (state : StreamState) (cost items : ℕ)
      → length f.payload < 2 ^ 32
      → lookup f.stream_id b.session.streams ≡ some state
      → snap.receive_window ≡ state.receive_window
      → lookup f.stream_id c.live ≡ some snap
      → payload_size f ≤ snap.receive_window
      → (length f.payload + queue_item_cost ≤ b.unused_cost) × (1 ≤ b.unused_items)
      → (length f.payload + queue_item_cost ≤ cost) × (1 ≤ items)
      → Stepped start (narrowed snap f) live b (apply_data b f state) hc hi cost items
  unfolding payload_size put_stream
  data-Stepped f snap state cost items small x w y t enough paid =
      let fits : length f.payload ≤ state.receive_window = omega arith in
      let balanced = apply_data-Balanced b f state hc hi x a.balanced fits enough.0 enough.1 in
      let session = apply_data-session b f state hc hi x a.balanced fits enough.0 enough.1 in
      let left = apply_data-unused b f state hc hi x a.balanced fits enough.0 enough.1 in
      let exact = data_window-exact b f state hc hi x a.balanced fits enough.0 enough.1 in
      let after = after_data b f state hc hi x a.balanced fits enough.0 enough.1 in
      record {
        still_balanced = balanced;
        agrees = λ _.
            present-Agrees start c live b hc hi a f.stream_id state after
              (record snap { receive_window = snap.receive_window - payload_size f })
              (narrowed snap f) (apply_data b f state) x refl refl (omega arith)
              (ap (λ s. s.streams) session) (ap (λ s. s.used_streams) session) balanced;
        cost_left = omega (arith, left, paid);
        items_left = omega (arith, left, paid);
      }

  pub data-case :
      (f : Frame) (c' : Checked) (cost items : ℕ)
      → InRange f
      → b.applied ≡ true
      → (contains f.stream_id live ≡ true
          → (length f.payload + queue_item_cost ≤ b.unused_cost) × (1 ≤ b.unused_items))
      → (contains f.stream_id live ≡ true
          → (length f.payload + queue_item_cost ≤ cost) × (1 ≤ items))
      → check_data (was_used start c f.stream_id) c f ≡ some c'
      → Stepped start c' live b
          (elim (lookup f.stream_id b.session.streams) [
            | none ↦ apply_late b f.stream_id
            | some state ↦ apply_data b f state
          ])
          hc
          hi
          cost
          items
  unfolding check_data InRange
  data-case f c' cost items r going covered price h =
      let id = f.stream_id in
      elim (Option-cases (lookup id b.session.streams)) [
        | inl x ↦ elim (Option-cases (lookup id c.live)) [
          | inl y ↦ let h' = rw (check_data, y) at h in rw x (late-Stepped id c' cost items h')
          | inr (snap, y) ↦
              let h' = rw (check_data, y) at h in
              let (t, e) = narrowed_lem snap f c' h' in
              rw x (
                subst (λ z. Stepped start z live b (apply_late b id) hc hi cost items) e
                  (ghost-Stepped id (narrowed snap f) snap cost items x y refl
                    (λ j n. lookup-insert_there j id _ c.live n)))
        ]
        | inr (state, x) ↦
            let (snap, (y, w)) = a.snapshot id state x in
            let h' = rw (check_data, y) at h in
            let (t, e) = narrowed_lem snap f c' h' in
            let live_here = a.reserved id state x in
            let enough = covered live_here in
            let paid = price live_here in
            rw x (
              subst (λ z. Stepped start z live b (apply_data b f state) hc hi cost items) e
                (data-Stepped f snap state cost items r.1 x w y t enough paid))
      ]
