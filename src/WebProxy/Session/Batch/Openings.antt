-- ===== src/WebProxy/Session/Batch/Openings.antt =====
-- webproxy/session.go: the OPEN and CLOSE frames of a batch, as Cases does DATA and WINDOW.
use tel_ego_openwrt.Base.{
  ℕ, ◌+◌, ◌^◌, ◌<◌, [], ◌∷◌, ◌++◌, Bool, true, false, not, ◌||◌, none, some, leb, ◌==◌, ◌≡◌, refl,
  sym, ap, subst, ◌∙◌, inl, inr, Bool-cases, Option-cases, ==_iff, arith,
}
use tel_ego_openwrt.Base.Maps.{
  Map, lookup, contains, insert, remove, count, lookup-insert_here, lookup-insert_there,
  lookup-remove_there,
}
use tel_ego_openwrt.WebProxy.Frame.{Frame, frame_close}
use tel_ego_openwrt.WebProxy.StreamHistory.{StreamIdHistory}
use tel_ego_openwrt.WebProxy.Session.{StreamState}
use tel_ego_openwrt.WebProxy.Session.Release.{
  drop_pending_stream_frames, drop_stream, remember_closed,
}
use tel_ego_openwrt.WebProxy.Session.Streams.{put_stream, new_stream_state}
use tel_ego_openwrt.WebProxy.Session.Kept.{
  queue_frame-Kept, remember_closed-Kept, drop_pending_stream_frames-Kept, release_pending-Kept,
}
use tel_ego_openwrt.WebProxy.Session.Batch.{
  Batch, use_stream, apply_late, apply_open, apply_close, refuse_stream,
}
use tel_ego_openwrt.WebProxy.Session.Checks.{Checked, whole_snapshot, check_open, check_close}
use tel_ego_openwrt.WebProxy.Session.Batch.Agreement.{
  Agrees, InRange, was_used, closed-Agrees, opened-Agrees, drop_live-Agrees, lookup_absent,
}
use tel_ego_openwrt.WebProxy.Session.Batch.Steps.{
  use_stream-Balanced, put_new_stream-Balanced, apply_close-Balanced,
}
use tel_ego_openwrt.WebProxy.Session.Accounts.Queueing.{queue_frame-Balanced}
use tel_ego_openwrt.WebProxy.Session.Accounts.Releasing.{remember_closed-Balanced}
use tel_ego_openwrt.WebProxy.Session.Batch.Cases.{Stepped, late-Stepped, ghost-Stepped}

or-false_left : (x y : Bool) → (x || y) ≡ false → x ≡ false
or-false_left true y h = h
or-false_left false y h = refl

-- CLOSE and OPEN change what is live.
module _ (start : StreamIdHistory) (c : Checked) (live : Map (Unit {0})) (b : Batch) (hc hi : ℕ)
    (a : Agrees start c live b hc hi) (going : b.applied ≡ true) where
  apply_close-streams :
      (id : ℕ) (state : StreamState)
      → ((apply_close b id state).session.streams ≡ remove id b.session.streams)
        × ((apply_close b id state).session.used_streams ≡ b.session.used_streams)
  unfolding apply_close drop_stream
  apply_close-streams id state =
      let unqueued = drop_pending_stream_frames b.session id in
      let k1 = drop_pending_stream_frames-Kept b.session id in
      let k2 = release_pending-Kept unqueued state.pending_write_cost state.pending_write_items in
      let k3 = remember_closed-Kept (drop_stream unqueued id state) id in
      (
        k3.same_streams ∙ ap (remove id) (k2.same_streams ∙ k1.same_streams),
        k3.same_used ∙ k2.same_used ∙ k1.same_used,
      )

  abbrev removed : ℕ → Checked
  removed id = record c { live = remove id c.live }

  pub close-case :
      (f : Frame) (c' : Checked) (cost items : ℕ)
      → InRange f
      → check_close (was_used start c f.stream_id) c f ≡ some c'
      → Stepped start c'
          (remove f.stream_id live)
          b
          (elim (lookup f.stream_id b.session.streams) [
            | none ↦ apply_late b f.stream_id
            | some state ↦ apply_close b f.stream_id state
          ])
          hc
          hi
          cost
          items
  unfolding check_close InRange apply_close
  close-case f c' cost items r h =
      let id = f.stream_id in
      let gone = remove id live in
      elim (Option-cases (lookup id b.session.streams)) [
        | inl x ↦
            let a' = drop_live-Agrees start c live b hc hi a id x in
            elim (Option-cases (lookup id c.live)) [
              | inl y ↦
                  let h' = rw (check_close, y) at h in
                  rw x (late-Stepped start c gone b hc hi a' id c' cost items h')
              | inr (snap, y) ↦
                  let h' = rw (check_close, y) at h in
                  let e : removed id ≡ c' = cc in
                  rw x (
                    subst (λ z. Stepped start z gone b (apply_late b id) hc hi cost items) e
                      (ghost-Stepped start c gone b hc hi a' id (removed id) snap cost items x y
                        refl (λ j n. lookup-remove_there j id c.live n)))
            ]
        | inr (state, x) ↦
            let (snap, (y, w)) = a.snapshot id state x in
            let h' = rw (check_close, y) at h in
            let e : removed id ≡ c' = cc in
            let fields = apply_close-streams id state in
            let balanced =
              apply_close-Balanced b id state (hc + b.unused_cost) (hi + b.unused_items) x
                a.balanced in
            rw x (
              subst (λ z. Stepped start z gone b (apply_close b id state) hc hi cost items) e
                (record {
                  still_balanced = balanced;
                  agrees = λ _.
                      closed-Agrees start c live b hc hi a id (removed id) (apply_close b id state)
                        refl refl fields.0 fields.1 balanced;
                  cost_left = omega arith;
                  items_left = omega arith;
                }))
      ]

  -- A stream that opens and finds no room.
  refuse_stream-Stepped :
      (id : ℕ)
      → id < 2 ^ 24
      → lookup id b.session.streams ≡ none
      → Stepped start
          (record { live = insert id whole_snapshot c.live; used = insert id tt c.used })
          (insert id tt live)
          b
          (refuse_stream b (use_stream b.session id) id)
          hc
          hi
          0
          0
  unfolding refuse_stream use_stream
  refuse_stream-Stepped id r absent =
      let used = use_stream b.session id in
      let remembered = remember_closed used id in
      let k1 = remember_closed-Kept used id in
      let k2 = queue_frame-Kept remembered frame_close id [] in
      let balanced =
        queue_frame-Balanced remembered frame_close id [] (hc + b.unused_cost) (hi + b.unused_items)
          (remember_closed-Balanced used id (hc + b.unused_cost) (hi + b.unused_items) (
            use_stream-Balanced b.session id (hc + b.unused_cost) (hi + b.unused_items)
              a.balanced)) in
      record {
        still_balanced = balanced;
        agrees = λ _.
            opened-Agrees start c live b hc hi a id (refuse_stream b used id) r
              (k2.same_used ∙ k1.same_used)
              (λ j state h.
                let before = ap (lookup j) (sym (k2.same_streams ∙ k1.same_streams)) ∙ h in
                elim (Bool-cases (j == id)) [
                  | inl y ↦
                      let here =
                        ap (λ i. lookup i b.session.streams) ((==_iff j id).0 y) ∙ absent in
                      absurd (cc)
                  | inr n ↦ inr (n, before)
                ])
              balanced;
        cost_left = omega arith;
        items_left = omega arith;
      }

  abbrev admitted : ℕ → Batch
  admitted id = record b {
    session = put_stream (use_stream b.session id) id new_stream_state;
    opened = b.opened ++ id ∷ [];
  }

  admitted-Stepped :
      (id : ℕ)
      → id < 2 ^ 24
      → lookup id b.session.streams ≡ none
      → Stepped start
          (record { live = insert id whole_snapshot c.live; used = insert id tt c.used })
          (insert id tt live)
          b
          (admitted id)
          hc
          hi
          0
          0
  unfolding put_stream use_stream new_stream_state whole_snapshot
  admitted-Stepped id r absent =
      let used = use_stream b.session id in
      let balanced =
        put_new_stream-Balanced used id (hc + b.unused_cost) (hi + b.unused_items) absent (
          use_stream-Balanced b.session id (hc + b.unused_cost) (hi + b.unused_items) a.balanced) in
      record {
        still_balanced = balanced;
        agrees = λ _.
            opened-Agrees start c live b hc hi a id (admitted id) r refl
              (λ j state h. elim (Bool-cases (j == id)) [
                | inl y ↦
                    let put =
                      sym (lookup-insert_here j id new_stream_state b.session.streams y) ∙ h in
                    let same : new_stream_state ≡ state = cc in
                    inl (y, ap (λ s. s.receive_window) same)
                | inr n ↦
                    inr (n, sym (lookup-insert_there j id new_stream_state b.session.streams n) ∙ h)
              ])
              balanced;
        cost_left = omega arith;
        items_left = omega arith;
      }

  check_open_lem :
      (u : Bool) (id : ℕ) (c' : Checked)
      → check_open u c id ≡ some c'
      → (contains id c.live ≡ false)
        × (record { live = insert id whole_snapshot c.live; used = insert id tt c.used } ≡ c')
  unfolding check_open
  check_open_lem u id c' h = elim (Bool-cases (contains id c.live || u)) [
    | inl y ↦ let g = rw (check_open, y) at h in absurd (cc)
    | inr n ↦
        let g = rw (check_open, n) at h in
        let e : record { live = insert id whole_snapshot c.live; used = insert id tt c.used } ≡ c' =
          cc in
        (or-false_left (contains id c.live) u n, e)
  ]

  absent_stream : (id : ℕ) → contains id c.live ≡ false → lookup id b.session.streams ≡ none
  absent_stream id h = elim (Option-cases (lookup id b.session.streams)) [
    | inl x ↦ x
    | inr (state, x) ↦
        let (snap, (y, w)) = a.snapshot id state x in
        let z = sym (lookup_absent id c.live h) ∙ y in absurd (cc)
  ]

  pub open-case :
      (acquire : ℕ → Bool) (id : ℕ) (c' : Checked)
      → id < 2 ^ 24
      → check_open (was_used start c id) c id ≡ some c'
      → Stepped start c' (insert id tt live) b (apply_open acquire b id) hc hi 0 0
  unfolding check_open apply_open
  open-case acquire id c' r h =
      let (l, e) = check_open_lem (was_used start c id) id c' h in
      let absent = absent_stream id l in
      subst (λ z. Stepped start z (insert id tt live) b (apply_open acquire b id) hc hi 0 0) e
        (elim (Bool-cases (
          leb b.session.limits.max_streams_per_session (count b.session.streams)
          || not (acquire id))) [
            | inl y ↦ rw (apply_open, y) (refuse_stream-Stepped id r absent)
            | inr y ↦ rw (apply_open, y) (admitted-Stepped id r absent)
          ])
