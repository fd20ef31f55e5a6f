-- ===== src/WebProxy/Session/Carrier/Failures.antt =====
-- webproxy/session.go: a protocol failure ends the session, or the WebSocket lane, and keeps the accounts.
use tel_ego_openwrt.Base.{
  ℕ, false, ◌&&◌, Option, none, some, ◌==◌, ◌≡◌, refl, sym, ap, subst, ◌∙◌, inl, inr, Bool-cases,
  Option-cases, arith, length, get_elem?, All,
}
use tel_ego_openwrt.Base.Maps.{lookup, lookup-Each}
use tel_ego_openwrt.WebProxy.Session.{Session, CarrierLane, by_protocol}
use tel_ego_openwrt.WebProxy.Session.Queue.{put_lane}
use tel_ego_openwrt.WebProxy.Session.Release.{drop_stream, frames_cost}
use tel_ego_openwrt.WebProxy.Session.Kept.{
  put_lane-Kept, release_carrier_lane-Kept, remember_closed-Kept,
}
use tel_ego_openwrt.WebProxy.Session.Carrier.{
  drop_lane_stream, release_websocket_lane, lane_protocol_failure, is_websocket_lanes,
}
use tel_ego_openwrt.WebProxy.Session.Accounts.{
  Balanced, LaneOk, Framed, keys, lane_cost, lane_items, put_lane-Balanced,
}
use tel_ego_openwrt.WebProxy.Session.Accounts.Releasing.{
  release_carrier_lane-Balanced, remember_closed-Balanced, drop_stream-Balanced,
}
use tel_ego_openwrt.WebProxy.Session.Accounts.Closing.{
  held, still_open, close_session-held, drop_stream-closed,
}

-- A write of the lane's other fields.
pub lane_fields-Balanced :
    (s : Session) (id : ℕ) (lane new : CarrierLane) (hc hi : ℕ)
    → lookup id s.carrier_lanes ≡ some lane
    → new.pending_frames ≡ lane.pending_frames
    → new.pending_windows ≡ lane.pending_windows
    → new.unacked ≡ lane.unacked
    → (new.unacked_cost ≡ lane.unacked_cost) × (new.unacked_items ≡ lane.unacked_items)
    → Balanced s hc hi
    → Balanced (put_lane s id new) hc hi
unfolding lane_cost lane_items
lane_fields-Balanced s id lane new hc hi x f w u c b =
    let old = lookup-Each (λ _ l. LaneOk l) id lane s.carrier_lanes b.windows x in
    let costs = ap frames_cost f in
    let many : length new.pending_frames ≡ length lane.pending_frames = ap length f in
    put_lane-Balanced s id lane new hc hi hc hi x
      (record {
        indexed =
            λ j i h. ap (λ q. get_elem? (keys q) i) f ∙ old.indexed j i (ap (lookup j) (sym w) ∙ h);
        framed = subst (All Framed) (sym f) old.framed;
        acked = λ h.
            let none_owed = old.acked (ap length (sym u) ∙ h) in
            (c.0 ∙ none_owed.0, c.1 ∙ none_owed.1);
      })
      (omega (arith, costs, c)) (omega (arith, many, c)) b

drop_lane_stream-Balanced :
    (s : Session) (id hc hi : ℕ) → Balanced s hc hi → Balanced (drop_lane_stream s id) hc hi
unfolding drop_lane_stream
drop_lane_stream-Balanced s id hc hi b = elim (Option-cases (lookup id s.streams)) [
  | inl x ↦ rw (drop_lane_stream, x) b
  | inr (state, x) ↦
      rw (drop_lane_stream, x)
        (remember_closed-Balanced (drop_stream s id state) id hc hi
          (drop_stream-Balanced s id state hc hi x b))
]

drop_lane_stream-closed : (s : Session) (id : ℕ) → (drop_lane_stream s id).closed ≡ s.closed
unfolding drop_lane_stream
drop_lane_stream-closed s id = elim (Option-cases (lookup id s.streams)) [
  | inl x ↦ rw (drop_lane_stream, x) refl
  | inr (state, x) ↦
      rw (drop_lane_stream, x)
        ((remember_closed-Kept (drop_stream s id state) id).same_closed
          ∙ drop_stream-closed s id state)
]

-- Releasing a WebSocket lane does not end the session.
pub release_websocket_lane-Balanced :
    (s : Session) (id : ℕ) (expected : Option ℕ) (hc hi : ℕ)
    → Balanced s hc hi
    → Balanced (release_websocket_lane s id expected) hc hi
      × ((release_websocket_lane s id expected).closed ≡ s.closed)
unfolding release_websocket_lane
release_websocket_lane-Balanced s id none hc hi b = (b, refl)
release_websocket_lane-Balanced s id (some serial) hc hi b =
    elim (Option-cases (lookup id s.carrier_lanes)) [
      | inl x ↦ rw (release_websocket_lane, x) (b, refl)
      | inr (lane, x) ↦
          let put = put_lane s id (record lane { websocket_active = false }) in
          let dropped = drop_lane_stream put id in
          elim (Bool-cases (is_websocket_lanes s.carrier && lane.serial == serial)) [
            | inr n ↦ rw (release_websocket_lane, x, n) (b, refl)
            | inl y ↦
                rw (release_websocket_lane, x, y)
                  (
                    release_carrier_lane-Balanced dropped id hc hi (
                        drop_lane_stream-Balanced put id hc hi (
                          lane_fields-Balanced s id lane (record lane { websocket_active = false })
                            hc hi x refl refl refl (refl, refl) b)),
                    (release_carrier_lane-Kept dropped id).same_closed
                        ∙ drop_lane_stream-closed put id
                        ∙ (put_lane-Kept s id
                            (record lane { websocket_active = false })).same_closed,
                  )
          ]
    ]

pub lane_protocol_failure-Balanced :
    (s : Session) (id : ℕ) (expected : Option ℕ) (hc hi : ℕ)
    → s.closed ≡ false
    → Balanced s hc hi
    → Balanced
        (lane_protocol_failure s id expected)
        (held (lane_protocol_failure s id expected) hc)
        (held (lane_protocol_failure s id expected) hi)
unfolding lane_protocol_failure
lane_protocol_failure-Balanced s id expected hc hi c b =
    elim (Bool-cases (is_websocket_lanes s.carrier)) [
      | inl y ↦
          let (released, same) = release_websocket_lane-Balanced s id expected hc hi b in
          rw (lane_protocol_failure, y)
            (still_open (release_websocket_lane s id expected) hc hi (same ∙ c) released)
      | inr n ↦ rw (lane_protocol_failure, n) (close_session-held s by_protocol hc hi c b)
    ]
