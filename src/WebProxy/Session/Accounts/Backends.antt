-- ===== src/WebProxy/Session/Accounts/Backends.antt =====
-- webproxy/session.go: what a backend does to its stream keeps the accounts.
use tel_ego_openwrt.Base.{
  ℕ, ◌+◌, ◌-◌, ◌≤◌, ◌<◌, List, [], ◌∷◌, Bool, true, false, not, ◌||◌, some, ltb, ◌==◌,
  if◌then◌else◌, length, ◌≡◌, ◌⊎◌, refl, inl, inr, Bool-cases, Option-cases, arith, Result-cases,
  ap, ◌∙◌, ==_iff,
}
use tel_ego_openwrt.Base.Maps.{lookup, lookup-insert_here}
use tel_ego_openwrt.WebProxy.Frame.{frame_data, frame_window, window_payload}
use tel_ego_openwrt.WebProxy.Limits.{queue_item_cost}
use tel_ego_openwrt.WebProxy.Session.{Session, StreamState}
use tel_ego_openwrt.WebProxy.Session.Queue.{max_uint32}
use tel_ego_openwrt.WebProxy.Session.Kept.{queue_frame-Kept}
use tel_ego_openwrt.WebProxy.Session.Pending.{release_pending}
use tel_ego_openwrt.WebProxy.Session.Streams.{
  NextWrite, next_write, first_write, backend_drained, drained_state, can_drain,
  backend_write_finished, finished_state, backend_data, put_stream, spent_credit,
}
use tel_ego_openwrt.WebProxy.Session.Accounts.{
  Balanced, Balanced-StreamOk, put_stream-Balanced, release_pending-Balanced, write_cost,
  write_items,
}
use tel_ego_openwrt.WebProxy.Session.Accounts.Queueing.{queue_frame-Balanced}

-- What the credit covers is taken from it without a wrap.
spent_credit_exact :
    (credit size : ℕ)
    → credit ≤ max_uint32
    → size ≤ credit
    → spent_credit credit size ≡ credit - size
unfolding spent_credit
spent_credit_exact credit size c h = omega arith

if-Balanced {ℓ} :
    {A : Type ℓ} (c : Bool) (x y : Session × A) (hc hi : ℕ)
    → Balanced x.0 hc hi
    → Balanced y.0 hc hi
    → Balanced (if c then x else y).0 hc hi
if-Balanced true x y hc hi p q = p
if-Balanced false x y hc hi p q = q

module _ (s : Session) (id hc hi : ℕ) (b : Balanced s hc hi) where
  first_write-Balanced :
      (state : StreamState) (writes : List (List ℕ))
      → lookup id s.streams ≡ some state
      → Balanced (first_write s id state writes).0 hc hi
  unfolding first_write write_cost write_items
  first_write-Balanced state [] h = b
  first_write-Balanced state (w ∷ rest) h =
      let o = Balanced-StreamOk s id hc hi state b h in
      put_stream-Balanced s id state (record state { writes = rest }) hc hi hc hi h
        (record { window = o.window; priced = o.priced; credit = o.credit }) refl refl b

  pub next_write-Balanced : Balanced (next_write s id).0 hc hi
  unfolding next_write
  next_write-Balanced = elim (Option-cases (lookup id s.streams)) [
    | inl x ↦ rw (next_write, x) b
    | inr (state, x) ↦
        rw (next_write, x)
          (if-Balanced s.closed (s, NextWrite.stopped) (first_write s id state state.writes) hc hi b
            (first_write-Balanced state state.writes x))
  ]

  drained-Balanced :
      (state : StreamState) (amount : ℕ)
      → lookup id s.streams ≡ some state
      → can_drain state amount ≡ true
      → Balanced (release_pending (put_stream s id (drained_state state amount)) amount 0) hc hi
  unfolding drained_state can_drain write_cost write_items
  drained-Balanced state amount h c =
      let o = Balanced-StreamOk s id hc hi state b h in
      let ow = o.window in
      let op = o.priced in
      let bytes : amount ≤ state.pending_write_bytes = ground arith in
      let cost : amount ≤ state.pending_write_cost = ground arith in
      release_pending-Balanced (put_stream s id (drained_state state amount)) hc hi amount 0 (
        put_stream-Balanced s id state (drained_state state amount) hc hi (hc + amount) (hi + 0) h
          (record { window = omega arith; priced = omega arith; credit = o.credit }) (omega arith)
          (omega arith) b)

  -- On a balanced session, backendDrained leaves the session balanced with the same held, and
  -- without a panic, for every amount, drained or refused. In particular the client's window and
  -- what waits for the backend still make a whole window.
  pub backend_drained-Balanced : (amount : ℕ) → Balanced (backend_drained s id amount).0 hc hi
  unfolding backend_drained
  backend_drained-Balanced amount = elim (Option-cases (lookup id s.streams)) [
    | inl x ↦ rw (backend_drained, x) b
    | inr (state, x) ↦ elim (Bool-cases (s.closed || not (can_drain state amount))) [
      | inl c ↦ rw (backend_drained, x, c) b
      | inr c ↦
          let d = drained-Balanced state amount x (ground arith) in
          elim (Result-cases (window_payload amount)) [
            | inr (e, y) ↦ rw (backend_drained, x, c, y) d
            | inl (payload, y) ↦
                rw (backend_drained, x, c, y)
                  (queue_frame-Balanced
                    (release_pending (put_stream s id (drained_state state amount)) amount 0)
                    frame_window id payload hc hi d)
          ]
    ]
  ]

  -- On a balanced session, backendWriteFinished leaves the session balanced with the same held,
  -- and without a panic.
  pub backend_write_finished-Balanced : Balanced (backend_write_finished s id).0 hc hi
  unfolding backend_write_finished finished_state write_cost write_items
  backend_write_finished-Balanced = elim (Option-cases (lookup id s.streams)) [
    | inl x ↦ rw (backend_write_finished, x) b
    | inr (state, x) ↦
        let o = Balanced-StreamOk s id hc hi state b x in
        let ow = o.window in
        let op = o.priced in
        elim (Bool-cases (
          s.closed
          || (state.pending_write_items == 0 || ltb state.pending_write_cost queue_item_cost))) [
            | inl c ↦ rw (backend_write_finished, x, c) b
            | inr c ↦
                let some_items : 0 < state.pending_write_items = ground arith in
                let enough : queue_item_cost ≤ state.pending_write_cost = ground arith in
                rw (backend_write_finished, x, c)
                  (release_pending-Balanced (put_stream s id (finished_state state)) hc hi
                    queue_item_cost 1
                    (put_stream-Balanced s id state (finished_state state) hc hi
                      (hc + queue_item_cost) (hi + 1) x
                      (record { window = omega arith; priced = omega arith; credit = o.credit })
                      (omega arith) (omega arith) b))
          ]
  ]

  pub backend_data-Balanced : (bytes : List ℕ) → Balanced (backend_data s id bytes).0 hc hi
  unfolding backend_data write_cost write_items
  backend_data-Balanced bytes = elim (Option-cases (lookup id s.streams)) [
    | inl x ↦ rw (backend_data, x) b
    | inr (state, x) ↦
        let o = Balanced-StreamOk s id hc hi state b x in
        let oc = o.credit in
        let left = spent_credit state.send_credit (length bytes) in
        let spent = record state { send_credit = left } in
        elim (Bool-cases
          (s.closed || (length bytes == 0 || ltb state.send_credit (length bytes)))) [
            | inl c ↦ rw (backend_data, x, c) b
            | inr c ↦
                let enough : length bytes ≤ state.send_credit = ground arith in
                let exact = spent_credit_exact state.send_credit (length bytes) oc enough in
                rw (backend_data, x, c)
                  (queue_frame-Balanced (put_stream s id spent) frame_data id bytes hc hi (
                    put_stream-Balanced s id state spent hc hi hc hi x
                      (record {
                        window = o.window;
                        priced = o.priced;
                        credit = omega (arith, oc, exact);
                      })
                      refl refl b))
          ]
  ]

  -- On a balanced session, for a stream that is there and for all bytes, backendData leaves the
  -- session balanced with the same held, and without a panic; nothing of the stream changes but its
  -- credit, which falls by exactly the number of the bytes, or stays where the bytes are refused.
  -- In particular no more is accepted than the credit covers.
  pub backend_data_credit :
      (bytes : List ℕ) (state : StreamState)
      → lookup id s.streams ≡ some state
      → Balanced (backend_data s id bytes).0 hc hi
        × ((left : ℕ) × ((lookup id (backend_data s id bytes).0.streams
                ≡ some (record state { send_credit = left }))
              × ((left + length bytes ≡ state.send_credit)
                  ⊎ ((left ≡ state.send_credit) × ((backend_data s id bytes).1 ≡ false)))))
  unfolding backend_data put_stream
  backend_data_credit bytes state x =
      let oc = (Balanced-StreamOk s id hc hi state b x).credit in
      let left = spent_credit state.send_credit (length bytes) in
      let spent = record state { send_credit = left } in
      (
        backend_data-Balanced bytes,
        elim (Bool-cases
            (s.closed || (length bytes == 0 || ltb state.send_credit (length bytes)))) [
              | inl c ↦ rw (backend_data, x, c) (state.send_credit, (x, inr (refl, refl)))
              | inr c ↦
                  let enough : length bytes ≤ state.send_credit = ground arith in
                  let exact = spent_credit_exact state.send_credit (length bytes) oc enough in
                  rw (backend_data, x, c)
                    (
                      left,
                      (
                        ap (lookup id)
                              (queue_frame-Kept (put_stream s id spent) frame_data id
                                bytes).same_streams
                            ∙ lookup-insert_here id id spent s.streams ((==_iff id id).1 refl),
                        inl (omega (arith, exact, enough)),
                      ),
                    )
            ],
      )
