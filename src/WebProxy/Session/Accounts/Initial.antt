-- ===== src/WebProxy/Session/Accounts/Initial.antt =====
-- webproxy/session.go: newSession.
use tel_ego_openwrt.Base.{ℕ, refl, arith}
use tel_ego_openwrt.WebProxy.Limits.{Limits}
use tel_ego_openwrt.WebProxy.Session.{
  CarrierMode, https, https_lanes, websocket, websocket_lanes, Global, new_session, first_lanes,
  new_carrier_lane,
}
use tel_ego_openwrt.WebProxy.Session.Release.{frames_cost}
use tel_ego_openwrt.WebProxy.Session.Accounts.{
  Balanced, LaneOk, lane_cost, lane_items, charged_cost, charged_items,
}
use tel_ego_openwrt.WebProxy.Session.Batch.Applied.{Remembers}
use tel_ego_openwrt.WebProxy.StreamHistory.Exact.{new_stream_id_history-IsHistory}

pub new_carrier_lane-LaneOk : (serial : ℕ) → LaneOk (new_carrier_lane serial)
unfolding new_carrier_lane
new_carrier_lane-LaneOk serial = record {
  indexed = λ j i h. absurd (cc);
  framed = tt;
  acked = λ _. (refl, refl);
}

new_session-Remembers :
    (carrier : CarrierMode) (limits : Limits) (global : Global)
    → Remembers (new_session carrier limits global)
unfolding new_session
new_session-Remembers carrier limits global = record {
  history_ok = new_stream_id_history-IsHistory;
  knows = λ id state h. absurd (cc);
}

-- Every new session, of each carrier, is balanced with nothing held, and its history is well
-- formed and knows every live stream.
pub new_session-Balanced :
    (carrier : CarrierMode) (limits : Limits) (global : Global)
    → Balanced (new_session carrier limits global) 0 0
      × Remembers (new_session carrier limits global)
unfolding new_session first_lanes charged_cost charged_items lane_cost lane_items frames_cost
    new_carrier_lane
new_session-Balanced websocket_lanes limits global = (
  record {
    cost_balance = refl;
    items_balance = refl;
    lanes_once = tt;
    streams_once = tt;
    windows = tt;
    flows = tt;
    global_cost = omega arith;
    global_items = omega arith;
    no_panic = refl;
  },
  new_session-Remembers websocket_lanes limits global,
)
new_session-Balanced https limits global = (
  record {
    cost_balance = refl;
    items_balance = refl;
    lanes_once = (refl, tt);
    streams_once = tt;
    windows = (new_carrier_lane-LaneOk 0, tt);
    flows = tt;
    global_cost = omega arith;
    global_items = omega arith;
    no_panic = refl;
  },
  new_session-Remembers https limits global,
)
new_session-Balanced https_lanes limits global = (
  record {
    cost_balance = refl;
    items_balance = refl;
    lanes_once = (refl, tt);
    streams_once = tt;
    windows = (new_carrier_lane-LaneOk 0, tt);
    flows = tt;
    global_cost = omega arith;
    global_items = omega arith;
    no_panic = refl;
  },
  new_session-Remembers https_lanes limits global,
)
new_session-Balanced websocket limits global = (
  record {
    cost_balance = refl;
    items_balance = refl;
    lanes_once = (refl, tt);
    streams_once = tt;
    windows = (new_carrier_lane-LaneOk 0, tt);
    flows = tt;
    global_cost = omega arith;
    global_items = omega arith;
    no_panic = refl;
  },
  new_session-Remembers websocket limits global,
)
