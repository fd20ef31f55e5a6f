-- ===== src/WebProxy/Session/Batch/Applied.antt =====
-- webproxy/session.go: validateBatchLocked, backendWriteReservationLocked and applyBatchLocked as
-- processUp composes them.
use tel_ego_openwrt.Base.{
  ℕ, ◌+◌, List, [], ◌∷◌, Bool, true, some, ◌==◌, All, ◌≡◌, refl, sym, ap, subst, ◌∙◌, inl, inr,
  Bool-cases, arith,
}
use tel_ego_openwrt.Base.Maps.{Map, lookup, contains}
use tel_ego_openwrt.WebProxy.Frame.{Frame}
use tel_ego_openwrt.WebProxy.StreamHistory.{StreamIdHistory}
use tel_ego_openwrt.WebProxy.StreamHistory as History
use tel_ego_openwrt.WebProxy.StreamHistory.Bits.{IsHistory}
use tel_ego_openwrt.WebProxy.Session.{Session, StreamState, uplink}
use tel_ego_openwrt.WebProxy.Session.Pending.{reserve_pending}
use tel_ego_openwrt.WebProxy.Session.Kept.{reserve_pending-Kept}
use tel_ego_openwrt.WebProxy.Session.Batch.{Batch, start_batch, apply_batch}
use tel_ego_openwrt.WebProxy.Session.Checks.{
  Checked, StreamSnapshot, snapshots, stream_set, validate_batch, backend_write_reservation,
}
use tel_ego_openwrt.WebProxy.Session.Batch.Agreement.{Agrees, InRange, was_used}
use tel_ego_openwrt.WebProxy.Session.Batch.Safety.{apply_frames-Finished}
use tel_ego_openwrt.WebProxy.Session.Accounts.{Balanced, reserve_pending-Balanced}

-- The history is well formed and knows every live stream.
pub record Remembers (s : Session) : Type 0 where
  pub history_ok : IsHistory s.used_streams
  pub knows :
      (id : ℕ) (state : StreamState)
      → lookup id s.streams ≡ some state
      → History.contains s.used_streams id ≡ true

lookup-snapshots :
    (id : ℕ) (state : StreamState) (m : Map StreamState)
    → lookup id m ≡ some state
    → (snap : StreamSnapshot) × ((lookup id (snapshots m) ≡ some snap)
        × (snap.receive_window ≡ state.receive_window))
unfolding snapshots
lookup-snapshots id state [] h = absurd (cc)
lookup-snapshots id state (e ∷ m) h = elim (Bool-cases (id == e.0)) [
  | inl y ↦
      let g = rw y at h in
      let same : e.1 ≡ state = cc in
      (
        record { receive_window = e.1.receive_window; send_credit = e.1.send_credit },
        (rw y refl, ap (λ x. x.receive_window) same),
      )
  | inr n ↦ let (snap, (l, w)) = lookup-snapshots id state m (rw n at h) in (snap, (rw n l, w))
]

snapshots-lookup :
    (id : ℕ) (snap : StreamSnapshot) (m : Map StreamState)
    → lookup id (snapshots m) ≡ some snap
    → (state : StreamState) × (lookup id m ≡ some state)
unfolding snapshots
snapshots-lookup id snap [] h = absurd (cc)
snapshots-lookup id snap (e ∷ m) h = elim (Bool-cases (id == e.0)) [
  | inl y ↦ (e.1, rw y refl)
  | inr n ↦ let (state, l) = snapshots-lookup id snap m (rw n at h) in (state, rw n l)
]

contains-stream_set :
    (id : ℕ) (state : StreamState) (m : Map StreamState)
    → lookup id m ≡ some state
    → contains id (stream_set m) ≡ true
unfolding stream_set
contains-stream_set id state [] h = absurd (cc)
contains-stream_set id state (e ∷ m) h = elim (Bool-cases (id == e.0)) [
  | inl y ↦ rw (contains, y) refl
  | inr n ↦ let ih = contains-stream_set id state m (rw n at h) in rw (contains, n) ih
]

-- Before the first frame, the checks agree with the session.
start-Agrees :
    (s t : Session) (cost items hc hi : ℕ)
    → Remembers s
    → t.streams ≡ s.streams
    → t.used_streams ≡ s.used_streams
    → Balanced t (hc + cost) (hi + items)
    → Agrees s.used_streams
        (record { live = snapshots s.streams; used = [] })
        (stream_set s.streams)
        (start_batch t cost items)
        hc
        hi
unfolding start_batch was_used
start-Agrees s t cost items hc hi m st us bal = record {
  balanced = bal;
  history = subst IsHistory (sym us) m.history_ok;
  used = λ id. ap (λ h. History.contains h id) us;
  snapshot = λ id state h. lookup-snapshots id state s.streams (ap (lookup id) (sym st) ∙ h);
  live_used =
      λ id snap h. let (state, l) = snapshots-lookup id snap s.streams h in m.knows id state l;
  reserved = λ id state h. contains-stream_set id state s.streams (ap (lookup id) (sym st) ∙ h);
}

Agrees-Remembers :
    (start : StreamIdHistory) (c : Checked) (live : Map (Unit {0})) (b : Batch) (hc hi : ℕ)
    → Agrees start c live b hc hi
    → Remembers b.session
Agrees-Remembers start c live b hc hi a = record {
  history_ok = a.history;
  knows =
      λ id state h. let (snap, (l, w)) = a.snapshot id state h in a.used id ∙ a.live_used id snap l;
}

-- On a balanced session whose history is well formed and knows every live stream, for frames of
-- 24-bit streams and 32-bit sizes: where validateBatchLocked accepts the batch,
-- backendWriteReservationLocked computes a reservation and reservePendingLocked admits it,
-- applyBatchLocked ends without a panic (no release of more than is pending, no frame for a stream
-- without a state, no unused rest below zero), the budget stays balanced with the unused rest
-- counted as held, and if it reports that the batch was applied the history still is well formed
-- and knows every live stream.
pub apply_batch-Balanced :
    (acquire : ℕ → Bool) (s : Session) (frames : List Frame) (cost items hc hi : ℕ)
    → Balanced s hc hi
    → Remembers s
    → All InRange frames
    → validate_batch s frames ≡ true
    → backend_write_reservation s frames ≡ some (cost, items)
    → (reserve_pending s cost items uplink).1 ≡ true
    → Balanced
        (apply_batch acquire (reserve_pending s cost items uplink).0 frames cost items).session
        (hc
          + (apply_batch acquire
              (reserve_pending s cost items uplink).0
              frames
              cost
              items).unused_cost)
        (hi
          + (apply_batch acquire
              (reserve_pending s cost items uplink).0
              frames
              cost
              items).unused_items)
      × ((apply_batch acquire (reserve_pending s cost items uplink).0 frames cost items).applied
            ≡ true
          → Remembers
              (apply_batch acquire
                (reserve_pending s cost items uplink).0
                frames
                cost
                items).session)
unfolding apply_batch validate_batch backend_write_reservation start_batch
apply_batch-Balanced acquire s frames cost items hc hi b m r v w y =
    let reserved = (reserve_pending s cost items uplink).0 in
    let k = reserve_pending-Kept s cost items uplink in
    let bal = reserve_pending-Balanced s hc hi cost items uplink b y in
    let a = start-Agrees s reserved cost items hc hi m k.same_streams k.same_used bal in
    let finished =
      apply_frames-Finished s.used_streams (record { live = snapshots s.streams; used = [] })
        (stream_set s.streams) (start_batch reserved cost items) hc hi acquire 0 0 cost items frames
        bal (λ _. a) r (omega arith, omega arith) v w in
    (
      finished.balanced,
      λ applied.
          let (c, live, agreed) = finished.agreed applied in
          Agrees-Remembers s.used_streams c live (apply_batch acquire reserved frames cost items) hc
            hi agreed,
    )
