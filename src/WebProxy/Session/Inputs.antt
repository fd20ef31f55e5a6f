-- ===== src/WebProxy/Session/Inputs.antt =====
-- webproxy/session.go: the reservations of WebSocket input, and the acquisition of WebSockets.
use tel_ego_openwrt.Base.{
  ℕ, ◌-◌, ◌*◌, Bool, true, false, not, ◌||◌, Option, none, some, ltb, ◌==◌, min, if◌then◌else◌, leb,
}
use tel_ego_openwrt.Base.Maps.{lookup, count}
use tel_ego_openwrt.WebProxy.Frame.{max_stream_id}
use tel_ego_openwrt.WebProxy.Limits.{queue_item_cost, checked_add_int, max_carrier_batch_bytes}
use tel_ego_openwrt.WebProxy.StreamHistory as History
use tel_ego_openwrt.WebProxy.Session.{
  Session, CarrierLane, CarrierMode, websocket, uplink, new_carrier_lane,
}
use tel_ego_openwrt.WebProxy.Session.Pending.{reserve_pending, release_pending}
use tel_ego_openwrt.WebProxy.Session.Queue.{put_lane}
use tel_ego_openwrt.WebProxy.Session.Carrier.{add_lane, is_websocket_lanes}

-- webSocketInputReservation
pub record InputReservation : Type 0 where
  pub cost : ℕ
  pub items : ℕ
  pub released : Bool

-- `min(limits.MaxBodyBytes, maxWebSocketMessageBytes)`
unfoldable pub max_message : Session → ℕ
max_message s = min s.limits.max_body_bytes max_carrier_batch_bytes

unfoldable pub reserve_cost : Session → ℕ → Session × Option InputReservation
reserve_cost s cost =
    let reserved = reserve_pending s cost 1 uplink in
    if s.closed
    then (s, none)
    else if reserved.1
    then (reserved.0, some (record { cost = cost; items = 1; released = false }))
    else (reserved.0, none)

-- reserveWebSocketInput
unfoldable pub reserve_websocket_input : Session → ℕ → Session × Option InputReservation
unfolding reserve_cost max_message checked_add_int
reserve_websocket_input s size =
    if ltb (2 * max_message s) size
    then (s, none)
    else elim (checked_add_int size queue_item_cost) [
      | none ↦ (s, none)
      | some cost ↦ reserve_cost s cost
    ]

-- The end of resize: the budget takes the difference.
unfoldable pub resize_cost : Session → InputReservation → ℕ → Session × (InputReservation × Bool)
resize_cost s r cost =
    let resized = record r { cost = cost } in
    let more = reserve_pending s (cost - r.cost) 0 uplink in
    if ltb r.cost cost
    then (if more.1 then (more.0, (resized, true)) else (more.0, (r, false)))
    else if ltb cost r.cost
    then (release_pending s (r.cost - cost) 0, (resized, true))
    else (s, (resized, true))

-- webSocketInputReservation.resize
unfoldable pub resize : Session → InputReservation → ℕ → Session × (InputReservation × Bool)
unfolding resize_cost max_message checked_add_int
resize s r size =
    if ltb (3 * max_message s) size
    then (s, (r, false))
    else elim (checked_add_int size queue_item_cost) [
      | none ↦ (s, (r, false))
      | some cost ↦ if r.released || s.closed then (s, (r, false)) else resize_cost s r cost
    ]

-- webSocketInputReservation.Release
unfoldable pub release_input : Session → InputReservation → Session × InputReservation
unfolding release_pending
release_input s r = if r.released then (s, r) else (
  if s.closed then s else release_pending s r.cost r.items,
  record { cost = 0; items = 0; released = true },
)

is_websocket : CarrierMode → Bool
is_websocket websocket = true
is_websocket _ = false

-- AcquireWebSocket
unfoldable pub acquire_websocket : Session → Session × Bool
unfolding is_websocket
acquire_websocket s =
    if s.closed || (not (is_websocket s.carrier) || s.websocket_active)
    then (s, false)
    else (record s { websocket_active = true }, true)

-- The lane that AcquireWebSocketLane takes, in the session that has it; nothing at the limit.
unfoldable pub lane_or_new : Session → ℕ → Option (Session × CarrierLane)
unfolding add_lane
lane_or_new s id = elim (lookup id s.carrier_lanes) [
  | some lane ↦ some (s, lane)
  | none ↦
      if leb s.limits.max_streams_per_session (count s.carrier_lanes)
      then none
      else some (add_lane s id, new_carrier_lane s.allocated)
]

-- AcquireWebSocketLane: the serial of the lane that the lease has.
unfoldable pub acquire_websocket_lane : Session → ℕ → Session × Option ℕ
unfolding lane_or_new put_lane is_websocket_lanes
acquire_websocket_lane s id =
    if s.closed || (not (is_websocket_lanes s.carrier) || (id == 0 || ltb max_stream_id id))
    then (s, none)
    else if History.contains s.used_streams id
    then (s, none)
    else elim (lane_or_new s id) [
      | none ↦ (s, none)
      | some (s', lane) ↦
          if lane.websocket_active
          then (s', none)
          else (put_lane s' id (record lane { websocket_active = true }), some lane.serial)
    ]
