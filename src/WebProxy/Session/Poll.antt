-- ===== src/WebProxy/Session/Poll.antt =====
-- webproxy/session.go: the downlink of a carrier: pollCarrier. The claims of polls (superseded, downSlot,
-- downActive) and the waiting are not modelled: `poll` is the answer of the newest poll, `waiting` where
-- it waits on.
use tel_ego_openwrt.Base.{
  ℕ, ◌+◌, ◌-◌, ◌^◌, List, [], Bool, not, ◌&&◌, Option, none, some, ◌==◌, if◌then◌else◌, length,
}
use tel_ego_openwrt.Base.Maps.{lookup, contains}
use tel_ego_openwrt.WebProxy.StreamHistory as History
use tel_ego_openwrt.WebProxy.BoundedSet.{has}
use tel_ego_openwrt.WebProxy.Session.{Session, CarrierLane}
use tel_ego_openwrt.WebProxy.Session.Pending.{release_pending}
use tel_ego_openwrt.WebProxy.Session.Queue.{put_lane}
use tel_ego_openwrt.WebProxy.Session.Release.{take_down_batch}
use tel_ego_openwrt.WebProxy.Session.Carrier.{
  CarrierError, err_closed, err_protocol, lane_protocol_failure, is_lane,
}

pub data PollAnswer : Type 0 where
  batch : List ℕ → ℕ → PollAnswer
  lane_closed : PollAnswer
  waiting : PollAnswer
  failed : CarrierError → PollAnswer

-- math.MaxUint64
abbrev pub max_uint64 : ℕ
max_uint64 = 2 ^ 64 - 1

-- The lane with the batch that is now unacknowledged.
unfoldable pub sent_lane : ℕ → CarrierLane → ℕ → CarrierLane
unfolding take_down_batch
sent_lane bytes lane cursor =
    let taken = take_down_batch bytes lane in
    record taken.0 {
      down_cursor = lane.down_cursor + 1;
      unacked_base = cursor;
      unacked = taken.1.body;
      unacked_cost = taken.1.cost;
      unacked_items = taken.1.items;
    }

-- One round of pollCarrier's loop.
unfoldable pub next_batch : Session → ℕ → CarrierLane → ℕ → Bool → Option ℕ → Session × PollAnswer
unfolding sent_lane put_lane lane_protocol_failure has
next_batch s id lane cursor lanes expected =
    let sent = sent_lane s.limits.carrier_batch_bytes lane cursor in
    if not (length lane.pending_frames == 0)
    then (if lane.down_cursor == max_uint64
        then (lane_protocol_failure s id expected, failed err_protocol)
        else (put_lane s id sent, batch sent.unacked sent.down_cursor))
    else if lanes && (not (id == 0) && (not (contains id s.streams) && has s.tombstones id))
    then (s, lane_closed)
    else (s, waiting)

unfoldable pub acked_lane : CarrierLane → CarrierLane
acked_lane lane = record lane { unacked = []; unacked_cost = 0; unacked_items = 0 }

-- pollCarrier behind the claim: the last batch again, or its acknowledgement and the next one.
unfoldable pub answer_poll : Session → ℕ → CarrierLane → ℕ → Bool → Option ℕ → Session × PollAnswer
unfolding next_batch acked_lane put_lane lane_protocol_failure
answer_poll s id lane cursor lanes expected =
    let acked =
      release_pending (put_lane s id (acked_lane lane)) lane.unacked_cost lane.unacked_items in
    if not (length lane.unacked == 0) && cursor == lane.unacked_base
    then (s, batch lane.unacked lane.down_cursor)
    else if not (cursor == lane.down_cursor)
    then (lane_protocol_failure s id expected, failed err_protocol)
    else if length lane.unacked == 0
    then next_batch s id lane cursor lanes expected
    else next_batch acked id (acked_lane lane) cursor lanes expected

-- pollCarrier on a session that is open.
unfoldable pub poll_open : Session → ℕ → ℕ → Bool → Option ℕ → Session × PollAnswer
unfolding answer_poll is_lane
poll_open s id cursor lanes expected = elim (lookup id s.carrier_lanes) [
  | none ↦ elim expected [
    | some serial ↦ (s, failed err_closed)
    | none ↦
        if lanes && History.contains s.used_streams id
        then (s, lane_closed)
        else (lane_protocol_failure s id none, failed err_protocol)
  ]
  | some lane ↦
      if is_lane lane expected
      then answer_poll s id lane cursor lanes expected
      else (s, failed err_closed)
]

-- pollCarrier
unfoldable pub poll : Session → ℕ → ℕ → Bool → Option ℕ → Session × PollAnswer
unfolding poll_open
poll s id cursor lanes expected =
    if s.closed then (s, failed err_closed) else poll_open s id cursor lanes expected
