-- ===== src/WebProxy/Session/Carrier/Polling.antt =====
-- webproxy/session.go: the answers of pollCarrier keep the accounts, and an answer that the client has
-- not acknowledged is given again.
use tel_ego_openwrt.Base.{
  ℕ, ◌+◌, ◌≤◌, List, [], ◌∷◌, Bool, false, not, ◌&&◌, Option, none, some, ◌==◌, if◌then◌else◌,
  length, take, All, ◌≡◌, refl, sym, ap, subst, ◌∙◌, inl, inr, Bool-cases, Option-cases, ==_iff,
  arith, length-append, length-take, All-take,
}
use tel_ego_openwrt.Base.Maps.{lookup, contains, lookup-Each, lookup-insert_here}
use tel_ego_openwrt.WebProxy.BoundedSet.{has}
use tel_ego_openwrt.WebProxy.StreamHistory as History
use tel_ego_openwrt.WebProxy.Session.{Session, CarrierLane, QueuedFrame}
use tel_ego_openwrt.WebProxy.Session.Pending.{release_pending}
use tel_ego_openwrt.WebProxy.Session.Queue.{put_lane}
use tel_ego_openwrt.WebProxy.Session.Release.{
  take_down_batch, frames_cost, frames_body, batch_count,
}
use tel_ego_openwrt.WebProxy.Session.Windows.{batch_count_bounds}
use tel_ego_openwrt.WebProxy.Session.Kept.{
  put_lane-Kept, release_pending-Kept, release_pending-lanes,
}
use tel_ego_openwrt.WebProxy.Session.Carrier.{err_closed, lane_protocol_failure, is_lane}
use tel_ego_openwrt.WebProxy.Session.Poll.{
  poll_open, failed, poll, answer_poll, next_batch, sent_lane, acked_lane, max_uint64,
}
use tel_ego_openwrt.WebProxy.Session.Carrier.Failures.{lane_protocol_failure-Balanced}
use tel_ego_openwrt.WebProxy.Session.Accounts.{
  Balanced, LaneOk, Framed, lane_cost, lane_items, put_lane-Balanced, release_pending-Balanced,
}
use tel_ego_openwrt.WebProxy.Session.Accounts.Releasing.{
  take_down_batch-LaneOk, take_down_batch-cost,
}
use tel_ego_openwrt.WebProxy.Session.Accounts.Closing.{held, still_open}

pub frames_body-length :
    (qs : List QueuedFrame) → All Framed qs → length qs ≤ length (frames_body qs)
unfolding frames_body Framed
frames_body-length [] a = omega arith
frames_body-length (q ∷ qs) a =
    let ih = frames_body-length qs a.1 in
    let whole = length-append q.encoded (frames_body qs) in omega (arith, ih, whole, a.0)

frames_cost-empty : (qs : List QueuedFrame) → length qs ≡ 0 → frames_cost qs ≡ 0
unfolding frames_cost
frames_cost-empty [] h = refl
frames_cost-empty (q ∷ qs) h = absurd (omega (arith, h))

module _ (s : Session) (id : ℕ) (lane : CarrierLane) (cursor : ℕ) (lanes : Bool)
    (expected : Option ℕ) (hc hi : ℕ) (alive : s.closed ≡ false)
    (found : lookup id s.carrier_lanes ≡ some lane) (b : Balanced s hc hi) where
  lane_ok : LaneOk lane
  lane_ok = lookup-Each (λ _ l. LaneOk l) id lane s.carrier_lanes b.windows found

  sent-LaneOk : LaneOk (sent_lane s.limits.carrier_batch_bytes lane cursor)
  unfolding sent_lane take_down_batch
  sent-LaneOk =
      let bytes = s.limits.carrier_batch_bytes in
      let ok = take_down_batch-LaneOk bytes lane lane_ok in
      let count = batch_count bytes 0 0 lane.pending_frames in
      let taken = take count lane.pending_frames in
      record {
        indexed = ok.indexed;
        framed = ok.framed;
        acked = λ h.
            let body =
              frames_body-length taken (All-take Framed count lane.pending_frames lane_ok.framed) in
            let bound = batch_count_bounds bytes 0 0 lane.pending_frames in
            let size = length-take count lane.pending_frames in
            let empty : length taken ≡ 0 = omega (arith, body, h) in
            (frames_cost-empty taken empty, omega (arith, bound, size, empty));
      }

  sent-Balanced :
      (lane.unacked_cost ≡ 0) × (lane.unacked_items ≡ 0)
      → Balanced (put_lane s id (sent_lane s.limits.carrier_batch_bytes lane cursor)) hc hi
  unfolding sent_lane lane_cost lane_items
  sent-Balanced owed =
      let (cost, items) = take_down_batch-cost s.limits.carrier_batch_bytes lane in
      put_lane-Balanced s id lane (sent_lane s.limits.carrier_batch_bytes lane cursor) hc hi hc hi
        found sent-LaneOk (omega (arith, owed, cost)) (omega (arith, owed, items)) b

  Held : Session → Type 0
  Held t = Balanced t (held t hc) (held t hi)

  fails : Held (lane_protocol_failure s id expected)
  unfolding Held
  fails = lane_protocol_failure-Balanced s id expected hc hi alive b

  next_batch-Balanced :
      (lane.unacked_cost ≡ 0) × (lane.unacked_items ≡ 0)
      → Held (next_batch s id lane cursor lanes expected).0
  unfolding next_batch Held
  next_batch-Balanced owed =
      let sent = sent_lane s.limits.carrier_batch_bytes lane cursor in
      elim (Bool-cases (length lane.pending_frames == 0)) [
        | inr n ↦ elim (Bool-cases (lane.down_cursor == max_uint64)) [
          | inl y ↦ rw (next_batch, n, y) fails
          | inr m ↦
              rw (next_batch, n, m)
                (still_open (put_lane s id sent) hc hi
                  ((put_lane-Kept s id sent).same_closed ∙ alive) (sent-Balanced owed))
        ]
        | inl y ↦
            elim (Bool-cases
              (lanes && (not (id == 0) && (not (contains id s.streams) && has s.tombstones id)))) [
                | inl z ↦ rw (next_batch, y, z) (still_open s hc hi alive b)
                | inr z ↦ rw (next_batch, y, z) (still_open s hc hi alive b)
              ]
      ]

module _ (s : Session) (id : ℕ) (lane : CarrierLane) (cursor : ℕ) (lanes : Bool)
    (expected : Option ℕ) (hc hi : ℕ) (alive : s.closed ≡ false)
    (found : lookup id s.carrier_lanes ≡ some lane) (b : Balanced s hc hi) where
  abbrev pub acked : Session
  acked = release_pending (put_lane s id (acked_lane lane)) lane.unacked_cost lane.unacked_items

  pub acked-Balanced : Balanced acked hc hi
  unfolding acked_lane lane_cost lane_items
  acked-Balanced =
      release_pending-Balanced (put_lane s id (acked_lane lane)) hc hi lane.unacked_cost
        lane.unacked_items
        (put_lane-Balanced s id lane (acked_lane lane) hc hi (hc + lane.unacked_cost)
          (hi + lane.unacked_items) found
          (record {
            indexed = (lane_ok s id lane cursor lanes expected hc hi alive found b).indexed;
            framed = (lane_ok s id lane cursor lanes expected hc hi alive found b).framed;
            acked = λ _. (refl, refl);
          })
          (omega arith) (omega arith) b)

  pub acked-closed : acked.closed ≡ false
  acked-closed =
      (release_pending-Kept (put_lane s id (acked_lane lane)) lane.unacked_cost
        lane.unacked_items).same_closed
      ∙ (put_lane-Kept s id (acked_lane lane)).same_closed
      ∙ alive

  pub acked-lookup : lookup id acked.carrier_lanes ≡ some (acked_lane lane)
  unfolding put_lane
  acked-lookup =
      ap (lookup id) (
        release_pending-lanes (put_lane s id (acked_lane lane)) lane.unacked_cost
          lane.unacked_items)
      ∙ lookup-insert_here id id (acked_lane lane) s.carrier_lanes ((==_iff id id).1 refl)

  -- The lane's answer keeps the accounts.
  answer_poll-Balanced :
      Held s id lane cursor lanes expected hc hi alive found b
        (answer_poll s id lane cursor lanes expected).0
  unfolding answer_poll Held acked_lane
  answer_poll-Balanced =
      elim (Bool-cases (not (length lane.unacked == 0) && cursor == lane.unacked_base)) [
        | inl y ↦ rw (answer_poll, y) (still_open s hc hi alive b)
        | inr n ↦ elim (Bool-cases (cursor == lane.down_cursor)) [
          | inr m ↦
              rw (answer_poll, n, m) (fails s id lane cursor lanes expected hc hi alive found b)
          | inl m ↦ elim (Bool-cases (length lane.unacked == 0)) [
            | inl z ↦
                rw (answer_poll, n, m, z)
                  (next_batch-Balanced s id lane cursor lanes expected hc hi alive found b (
                    (lane_ok s id lane cursor lanes expected hc hi alive found b).acked
                      ((==_iff (length lane.unacked) 0).0 z)))
            | inr z ↦
                rw (answer_poll, n, m, z)
                  (next_batch-Balanced acked id (acked_lane lane) cursor lanes expected hc hi
                    acked-closed acked-lookup acked-Balanced (refl, refl))
          ]
        ]
      ]

pub poll-alive :
    (s : Session) (id cursor : ℕ) (lanes : Bool) (expected : Option ℕ)
    → s.closed ≡ false
    → poll s id cursor lanes expected ≡ poll_open s id cursor lanes expected
unfolding poll
poll-alive s id cursor lanes expected alive =
    ap (λ c. if c then (s, failed err_closed) else poll_open s id cursor lanes expected) alive

gone-Balanced :
    (s : Session) (id cursor : ℕ) (lanes : Bool) (expected : Option ℕ) (hc hi : ℕ)
    → s.closed ≡ false
    → lookup id s.carrier_lanes ≡ none
    → Balanced s hc hi
    → Balanced
        (poll_open s id cursor lanes expected).0
        (held (poll_open s id cursor lanes expected).0 hc)
        (held (poll_open s id cursor lanes expected).0 hi)
unfolding poll_open
gone-Balanced s id cursor lanes (some serial) hc hi alive x b =
    rw (poll_open, x) (still_open s hc hi alive b)
gone-Balanced s id cursor lanes none hc hi alive x b =
    elim (Bool-cases (lanes && History.contains s.used_streams id)) [
      | inl y ↦ rw (poll_open, x, y) (still_open s hc hi alive b)
      | inr n ↦ rw (poll_open, x, n) (lane_protocol_failure-Balanced s id none hc hi alive b)
    ]

-- On an open, balanced session, pollCarrier leaves the session balanced and without a panic,
-- whatever the lane and the cursor: where it replays, acknowledges, sends, waits or fails. What
-- was held beside stays held, or is given up where the session ends.
pub poll-Balanced :
    (s : Session) (id cursor : ℕ) (lanes : Bool) (expected : Option ℕ) (hc hi : ℕ)
    → s.closed ≡ false
    → Balanced s hc hi
    → Balanced
        (poll s id cursor lanes expected).0
        (held (poll s id cursor lanes expected).0 hc)
        (held (poll s id cursor lanes expected).0 hi)
unfolding poll Held
poll-Balanced s id cursor lanes expected hc hi alive b =
    subst (λ r. Balanced r.0 (held r.0 hc) (held r.0 hi))
      (sym (poll-alive s id cursor lanes expected alive))
      (elim (Option-cases (lookup id s.carrier_lanes)) [
        | inr (lane, x) ↦ elim (Bool-cases (is_lane lane expected)) [
          | inl y ↦
              rw (poll_open, x, y)
                (answer_poll-Balanced s id lane cursor lanes expected hc hi alive x b)
          | inr n ↦ rw (poll_open, x, n) (still_open s hc hi alive b)
        ]
        | inl x ↦ gone-Balanced s id cursor lanes expected hc hi alive x b
      ])
