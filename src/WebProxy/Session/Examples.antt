-- ===== src/WebProxy/Session/Examples.antt =====
-- webproxy/session.go: tests, and examples of the sessions' theorems.
pub mod Carriers
use tel_ego_openwrt.Base.{
  ℕ, ◌+◌, List, [], ◌∷◌, Bool, true, false, none, some, ◌≡◌, ◌⊎◌, refl, All, arith, if◌then◌else◌,
  ◌==◌, not,
}
use tel_ego_openwrt.Base.Maps.{lookup}
use tel_ego_openwrt.WebProxy.Frame.{Frame, frame_open, frame_data}
use tel_ego_openwrt.WebProxy.Limits.{
  default_limits, pending_control_reserve, checked_add_int, checked_mul_int,
}
use tel_ego_openwrt.WebProxy.StreamHistory.{new_stream_id_history, add}
use tel_ego_openwrt.WebProxy.StreamHistory as History
use tel_ego_openwrt.WebProxy.StreamHistory.Exact.{
  contains-add, add-new, new_stream_id_history-IsHistory,
}
use tel_ego_openwrt.WebProxy.Session.{
  Session, StreamState, Global, https, new_session, new_carrier_lane, first_lanes, uplink,
}
use tel_ego_openwrt.WebProxy.Session.Pending.{
  reserve_pending, admit, charge_global, global_reserve, class_limits, uplink_pending_limits,
  subtract_reserve,
}
use tel_ego_openwrt.WebProxy.Session.Queue.{queue_frame}
use tel_ego_openwrt.WebProxy.Session.Release.{frames_cost}
use tel_ego_openwrt.WebProxy.Session.Streams.{backend_drained, backend_data, backend_closed}
use tel_ego_openwrt.WebProxy.Session.Batch.{Batch, apply_batch}
use tel_ego_openwrt.WebProxy.Session.Checks.{
  validate_batch, backend_write_reservation, check_frame, check_data, whole_snapshot, payload_size,
}
use tel_ego_openwrt.WebProxy.Session.Batch.Agreement.{InRange}
use tel_ego_openwrt.WebProxy.Session.Batch.Applied.{Remembers, apply_batch-Balanced}
use tel_ego_openwrt.WebProxy.Session.Accounts.{
  Balanced, lane_cost, lane_items, write_cost, write_items, charged_cost, charged_items,
}
use tel_ego_openwrt.WebProxy.Session.Accounts.Initial.{
  new_session-Balanced, new_carrier_lane-LaneOk,
}
use tel_ego_openwrt.WebProxy.Session.Accounts.Queueing.{queue_frame-Balanced}
use tel_ego_openwrt.WebProxy.Session.Accounts.Backends.{
  backend_drained-Balanced, backend_data_credit,
}
use tel_ego_openwrt.WebProxy.Session.Accounts.Closing.{held, backend_closed-Balanced}
use tel_ego_openwrt.WebProxy.Session.Carrier.{
  begin_up, commit_up, lane_protocol_failure, parse_uplink_batch, is_websocket_lanes,
}
use tel_ego_openwrt.WebProxy.Session.Poll.{poll}
use tel_ego_openwrt.WebProxy.Session.Carrier.Polling.{poll-Balanced}
use tel_ego_openwrt.WebProxy.Session.Carrier.Uplink.{commit_up-Balanced}
use tel_ego_openwrt.WebProxy.Session.Carrier.Admission.{
  begin_up-Balanced, parse_uplink_batch-InRange,
}
use tel_ego_openwrt.WebProxy.Session.Inputs.{InputReservation, reserve_websocket_input, resize}
use tel_ego_openwrt.WebProxy.Session.Accounts.Reservations.{
  held_cost, held_items, reserve_websocket_input-Balanced, resize-Balanced,
}
use tel_ego_openwrt.WebProxy.Session.{CarrierLane, QueuedFrame}
use tel_ego_openwrt.WebProxy.Session.Queue.{put_lane}
use tel_ego_openwrt.WebProxy.Session.Release.{take_down_batch, frames_body, batch_count}
use tel_ego_openwrt.WebProxy.Session.Carrier.{is_lane}
use tel_ego_openwrt.WebProxy.Session.Poll.{batch, poll_open, answer_poll, next_batch, sent_lane}
use tel_ego_openwrt.WebProxy.Session.Accounts.{keys, Framed}
use tel_ego_openwrt.WebProxy.Session.Carrier.Replay.{poll_again}

abbrev pub idle_global : Global
idle_global = record { pending_bytes = 0; pending_items = 0 }

abbrev pub fresh : Session
fresh = new_session https default_limits idle_global

abbrev pub open_and_data : List Frame
open_and_data =
    record { frame_type = frame_open; stream_id = 1; payload = [] }
    ∷ record { frame_type = frame_data; stream_id = 1; payload = 7 ∷ 8 ∷ 9 ∷ [] }
    ∷ []

-- A session with one stream, of which three bytes wait for the backend.
abbrev pub busy_stream : StreamState
busy_stream = record {
  receive_window = 4194301;
  send_credit = 100;
  pending_write_bytes = 3;
  pending_write_cost = 259;
  pending_write_items = 1;
  writes = (7 ∷ 8 ∷ 9 ∷ []) ∷ [];
}

abbrev pub busy : Session
busy = record (new_session https default_limits idle_global) {
  streams = (1, busy_stream) ∷ [];
  pending_cost = 259;
  pending_items = 1;
  global = record { pending_bytes = 1000; pending_items = 4 };
}

pub busy-Balanced : Balanced busy 0 0
unfolding new_session first_lanes charged_cost charged_items lane_cost lane_items write_cost
    write_items frames_cost new_carrier_lane
busy-Balanced = record {
  cost_balance = refl;
  items_balance = refl;
  lanes_once = (refl, tt);
  streams_once = (refl, tt);
  windows = (new_carrier_lane-LaneOk 0, tt);
  flows = (record { window = refl; priced = refl; credit = omega arith }, tt);
  global_cost = omega arith;
  global_items = omega arith;
  no_panic = refl;
}

pub busy-open : busy.closed ≡ false
unfolding new_session
busy-open = refl

queue_frame-Balanced_example : Balanced (queue_frame busy frame_data 1 (1 ∷ 2 ∷ [])).0 0 0
queue_frame-Balanced_example = queue_frame-Balanced busy frame_data 1 (1 ∷ 2 ∷ []) 0 0 busy-Balanced

backend_drained-Balanced_example : Balanced (backend_drained busy 1 3).0 0 0
backend_drained-Balanced_example = backend_drained-Balanced busy 1 0 0 busy-Balanced 3

backend_data_credit_example :
    Balanced (backend_data busy 1 (4 ∷ 5 ∷ [])).0 0 0
    × ((left : ℕ) × ((lookup 1 (backend_data busy 1 (4 ∷ 5 ∷ [])).0.streams
            ≡ some (record busy_stream { send_credit = left }))
          × ((left + 2 ≡ 100) ⊎ ((left ≡ 100) × ((backend_data busy 1 (4 ∷ 5 ∷ [])).1 ≡ false)))))
backend_data_credit_example =
    backend_data_credit busy 1 0 0 busy-Balanced (4 ∷ 5 ∷ []) busy_stream refl

backend_closed-Balanced_example :
    Balanced
      (backend_closed busy 1)
      (held (backend_closed busy 1) 0)
      (held (backend_closed busy 1) 0)
backend_closed-Balanced_example = backend_closed-Balanced busy 1 0 0 busy-open busy-Balanced

poll-Balanced_example :
    Balanced
      (poll busy 0 0 false none).0
      (held (poll busy 0 0 false none).0 0)
      (held (poll busy 0 0 false none).0 0)
poll-Balanced_example = poll-Balanced busy 0 0 false none 0 0 busy-open busy-Balanced

-- The digest of the examples: the body itself.
abbrev pub digest : List ℕ → List ℕ
digest body = body

abbrev pub data_body : List ℕ
data_body = 2 ∷ 0 ∷ 0 ∷ 1 ∷ 0 ∷ 0 ∷ 0 ∷ 2 ∷ 5 ∷ 6 ∷ []

begin_up-Balanced_example :
    Balanced
      (begin_up digest busy 0 1 data_body false none).0
      (held (begin_up digest busy 0 1 data_body false none).0 0)
      (held (begin_up digest busy 0 1 data_body false none).0 0)
begin_up-Balanced_example =
    begin_up-Balanced digest busy 0 1 data_body false 0 0 busy-open busy-Balanced none

abbrev pub accept_all : ℕ → Bool
accept_all id = true

fresh-open : fresh.closed ≡ false
unfolding new_session
fresh-open = refl

commit_up-Balanced_example :
    Balanced
      (commit_up accept_all fresh 0 0 1 data_body (parse_uplink_batch data_body 0 false) none).0
      (held
        (commit_up accept_all fresh 0 0 1 data_body (parse_uplink_batch data_body 0 false) none).0
        0)
      (held
        (commit_up accept_all fresh 0 0 1 data_body (parse_uplink_batch data_body 0 false) none).0
        0)
commit_up-Balanced_example =
    commit_up-Balanced accept_all fresh 0 0 1 data_body (parse_uplink_batch data_body 0 false) none
      0 0 fresh-open (new_session-Balanced https default_limits idle_global).0
      (new_session-Balanced https default_limits idle_global).1
      (parse_uplink_batch-InRange data_body 0 false)

open_and_data-InRange : All InRange open_and_data
unfolding InRange
open_and_data-InRange = ((omega arith, omega arith), ((omega arith, omega arith), tt))

open_and_data-valid : validate_batch fresh open_and_data ≡ true
unfolding validate_batch new_session new_stream_id_history check_frame check_data History.contains
    whole_snapshot payload_size
open_and_data-valid = refl

open_and_data-reservation : backend_write_reservation fresh open_and_data ≡ some (259, 1)
unfolding backend_write_reservation new_session
open_and_data-reservation = refl

open_and_data-reserved : (reserve_pending fresh 259 1 uplink).1 ≡ true
unfolding reserve_pending new_session default_limits admit class_limits uplink_pending_limits
    subtract_reserve pending_control_reserve checked_add_int checked_mul_int charge_global
    global_reserve
open_and_data-reserved = refl

abbrev reserved_batch : Batch
reserved_batch = apply_batch accept_all (reserve_pending fresh 259 1 uplink).0 open_and_data 259 1

apply_batch-Balanced_example :
    Balanced reserved_batch.session
      (0 + reserved_batch.unused_cost)
      (0 + reserved_batch.unused_items)
    × (reserved_batch.applied ≡ true → Remembers reserved_batch.session)
apply_batch-Balanced_example =
    apply_batch-Balanced accept_all fresh open_and_data 259 1 0 0
      (new_session-Balanced https default_limits idle_global).0
      (new_session-Balanced https default_limits idle_global).1 open_and_data-InRange
      open_and_data-valid open_and_data-reservation open_and_data-reserved

contains-add_example :
    History.contains (add new_stream_id_history 7).0 7
    ≡ (if 7 == 7 then true else History.contains new_stream_id_history 7)
contains-add_example =
    contains-add new_stream_id_history 7 new_stream_id_history-IsHistory (omega arith) 7

add-new_example : (add new_stream_id_history 7).1 ≡ not (History.contains new_stream_id_history 7)
add-new_example = add-new new_stream_id_history 7 new_stream_id_history-IsHistory (omega arith)

reserve_websocket_input-Balanced_example :
    Balanced
      (reserve_websocket_input busy 1000).0
      (0 + held_cost (reserve_websocket_input busy 1000).1)
      (0 + held_items (reserve_websocket_input busy 1000).1)
reserve_websocket_input-Balanced_example =
    reserve_websocket_input-Balanced busy 1000 0 0 busy-Balanced

-- A session of which a WebSocket message of 44 bytes holds a reservation.
abbrev reading : Session
reading = record (new_session https default_limits idle_global) {
  pending_cost = 300;
  pending_items = 1;
  global = record { pending_bytes = 1000; pending_items = 4 };
}

abbrev message : InputReservation
message = record { cost = 300; items = 1; released = false }

reading-Balanced : Balanced reading (0 + 300) (0 + 1)
unfolding new_session first_lanes charged_cost charged_items lane_cost lane_items frames_cost
    new_carrier_lane
reading-Balanced = record {
  cost_balance = refl;
  items_balance = refl;
  lanes_once = (refl, tt);
  streams_once = tt;
  windows = (new_carrier_lane-LaneOk 0, tt);
  flows = tt;
  global_cost = omega arith;
  global_items = omega arith;
  no_panic = refl;
}

resize-Balanced_example :
    Balanced
      (resize reading message 20).0
      (0 + (resize reading message 20).1.0.cost)
      (0 + (resize reading message 20).1.0.items)
resize-Balanced_example = resize-Balanced reading message 20 0 0 reading-Balanced
