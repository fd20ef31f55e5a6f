-- ===== src/WebProxy/Session/Accounts/Closing.antt =====
-- webproxy/session.go: the end of a session, and of a stream whose backend closes.
use tel_ego_openwrt.Base.{
  ℕ, ◌+◌, [], Bool, true, false, ◌&&◌, ◌==◌, if◌then◌else◌, ◌≡◌, refl, sym, ap, subst, ◌∙◌, inl,
  inr, Bool-cases, Option-cases, arith, subst₂,
}
use tel_ego_openwrt.Base.Maps.{lookup}
use tel_ego_openwrt.WebProxy.Frame.{frame_close}
use tel_ego_openwrt.WebProxy.Session.{Session, StreamState, Global, CloseReason, by_resource}
use tel_ego_openwrt.WebProxy.Session.Queue.{queue_frame}
use tel_ego_openwrt.WebProxy.Session.Release.{
  drop_pending_stream_frames, drop_stream, remember_closed,
}
use tel_ego_openwrt.WebProxy.Session.Streams.{backend_closed, close_session, closed_session}
use tel_ego_openwrt.WebProxy.Session.Kept.{
  queue_frame-Kept, drop_pending_stream_frames-Kept, remember_closed-Kept, release_pending-Kept,
}
use tel_ego_openwrt.WebProxy.Session.Accounts.{
  Balanced, charged_cost, charged_items, refund_global_lem,
}
use tel_ego_openwrt.WebProxy.Session.Accounts.Queueing.{queue_frame-Balanced}
use tel_ego_openwrt.WebProxy.Session.Accounts.Releasing.{
  drop_pending_stream_frames-Balanced, drop_stream-Balanced, remember_closed-Balanced,
}

closed_session-Balanced :
    (s : Session) (reason : CloseReason) (g : Global)
    → s.panicked ≡ false
    → Balanced (closed_session s reason g) 0 0
unfolding closed_session charged_cost charged_items
closed_session-Balanced s reason g p = record {
  cost_balance = refl;
  items_balance = refl;
  lanes_once = tt;
  streams_once = tt;
  windows = tt;
  flows = tt;
  global_cost = omega arith;
  global_items = omega arith;
  no_panic = p;
}

if-true {ℓ} : {A : Type ℓ} (c : Bool) (x y : A) → c ≡ true → (if c then x else y) ≡ x
if-true c x y h = ap (λ b. if b then x else y) h

if-false {ℓ} : {A : Type ℓ} (c : Bool) (x y : A) → c ≡ false → (if c then x else y) ≡ y
if-false c x y h = ap (λ b. if b then x else y) h

-- What is held of a session that has ended is nothing.
abbrev pub held : Session → ℕ → ℕ
held s n = if s.closed then 0 else n

pub close_session_lem :
    (s : Session) (reason : CloseReason) (hc hi : ℕ)
    → s.closed ≡ false
    → Balanced s hc hi
    → (g : Global) × ((close_session s reason ≡ closed_session s reason g)
        × ((g.pending_bytes + s.pending_cost ≡ s.global.pending_bytes)
            × (g.pending_items + s.pending_items ≡ s.global.pending_items)))
unfolding close_session
close_session_lem s reason hc hi c b =
    elim (Bool-cases (s.pending_cost == 0 && s.pending_items == 0)) [
      | inl z ↦ (s.global, (rw (close_session, c, z) refl, ground arith))
      | inr z ↦
          let (g, (e, t)) =
            refund_global_lem s.global s.pending_cost s.pending_items b.global_cost
              b.global_items in
          (g, (rw (close_session, c, z, e) refl, t))
    ]

pub close_session-Balanced :
    (s : Session) (reason : CloseReason) (hc hi : ℕ)
    → s.closed ≡ false
    → Balanced s hc hi
    → Balanced (close_session s reason) 0 0
close_session-Balanced s reason hc hi c b =
    let (g, (e, t)) = close_session_lem s reason hc hi c b in
    rw e (closed_session-Balanced s reason g b.no_panic)

pub close_session-closed :
    (s : Session) (reason : CloseReason) (hc hi : ℕ)
    → s.closed ≡ false
    → Balanced s hc hi
    → (close_session s reason).closed ≡ true
unfolding closed_session
close_session-closed s reason hc hi c b =
    let (g, (e, t)) = close_session_lem s reason hc hi c b in rw e refl

pub still_open :
    (s : Session) (hc hi : ℕ)
    → s.closed ≡ false
    → Balanced s hc hi
    → Balanced s (held s hc) (held s hi)
still_open s hc hi c b =
    subst₂ (Balanced s) (sym (ap (λ x. if x then 0 else hc) c))
      (sym (ap (λ x. if x then 0 else hi) c)) b

pub ended :
    (s : Session) (hc hi : ℕ)
    → s.closed ≡ true
    → Balanced s 0 0
    → Balanced s (held s hc) (held s hi)
ended s hc hi c b =
    subst₂ (Balanced s) (sym (ap (λ x. if x then 0 else hc) c))
      (sym (ap (λ x. if x then 0 else hi) c)) b

-- Closing an open session, seen from what was held.
pub close_session-held :
    (s : Session) (reason : CloseReason) (hc hi : ℕ)
    → s.closed ≡ false
    → Balanced s hc hi
    → Balanced
        (close_session s reason)
        (held (close_session s reason) hc)
        (held (close_session s reason) hi)
close_session-held s reason hc hi c b =
    ended (close_session s reason) hc hi (close_session-closed s reason hc hi c b)
      (close_session-Balanced s reason hc hi c b)

pub drop_stream-closed :
    (s : Session) (id : ℕ) (state : StreamState) → (drop_stream s id state).closed ≡ s.closed
unfolding drop_stream
drop_stream-closed s id state =
    (release_pending-Kept s state.pending_write_cost state.pending_write_items).same_closed

-- On an open, balanced session, backendClosed leaves the session balanced and without a panic.
-- What was held beside stays held, or is given up where the CLOSE frame finds no room and the
-- session ends.
pub backend_closed-Balanced :
    (s : Session) (id hc hi : ℕ)
    → s.closed ≡ false
    → Balanced s hc hi
    → Balanced (backend_closed s id) (held (backend_closed s id) hc) (held (backend_closed s id) hi)
unfolding backend_closed
backend_closed-Balanced s id hc hi c b = elim (Option-cases (lookup id s.streams)) [
  | inl x ↦ rw (backend_closed, x) (still_open s hc hi c b)
  | inr (state, x) ↦
      let unqueued = drop_pending_stream_frames s id in
      let kept = drop_pending_stream_frames-Kept s id in
      let dropped = drop_stream unqueued id state in
      let remembered = remember_closed dropped id in
      let queued = queue_frame remembered frame_close id [] in
      let b1 = drop_pending_stream_frames-Balanced s id hc hi b in
      let b2 =
        drop_stream-Balanced unqueued id state hc hi (ap (lookup id) kept.same_streams ∙ x) b1 in
      let b3 =
        queue_frame-Balanced remembered frame_close id [] hc hi
          (remember_closed-Balanced dropped id hc hi b2) in
      let still : queued.0.closed ≡ false =
        (queue_frame-Kept remembered frame_close id []).same_closed
        ∙ (remember_closed-Kept dropped id).same_closed
        ∙ drop_stream-closed unqueued id state
        ∙ kept.same_closed
        ∙ c in
      let Held : Session → Type 0 = λ t. Balanced t (held t hc) (held t hi) in
      let result = still_open queued.0 hc hi still b3 in
      let ending = close_session-held queued.0 by_resource hc hi still b3 in
      let closing = close_session queued.0 by_resource in
      let opened : backend_closed s id ≡ (if queued.1 then queued.0 else closing) =
        rw (backend_closed, x) (if-false s.closed s (if queued.1 then queued.0 else closing) c) in
      elim (Bool-cases queued.1) [
        | inl q ↦ subst Held (sym (opened ∙ if-true queued.1 queued.0 closing q)) result
        | inr q ↦ subst Held (sym (opened ∙ if-false queued.1 queued.0 closing q)) ending
      ]
]
