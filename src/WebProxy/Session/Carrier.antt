-- ===== src/WebProxy/Session/Carrier.antt =====
-- webproxy/session.go: the uplink of a carrier. `begin_up` is its first critical section; with the
-- mutex released it parses, and what it then does under the mutex again is a section of its own:
-- `commit_up` for a lane, `finish_late` without one, `fail_up` for a repeated sequence that differs.
-- A lane that the caller expects (a WebSocket lease's) is named by its serial. `digest` stands for
-- SHA-256. Where the batch is not applied to its end, `commit_up` includes the closeWithReason that
-- follows its section.
pub mod Failures
pub mod Polling
pub mod Replay
pub mod Uplink
pub mod Admission
pub mod Retry
pub mod Endings
pub mod Violations
use tel_ego_openwrt.Base.{
  ℕ, zero, suc, ◌+◌, ◌-◌, ◌%◌, ◌^◌, List, [], ◌∷◌, Bool, true, false, not, ◌&&◌, ◌||◌, Option, none,
  some, ltb, leb, ◌==◌, if◌then◌else◌, length, Result, ok, err, ◌>>=◌, fail_if,
}
use tel_ego_openwrt.Base.Bytes.{join32}
use tel_ego_openwrt.Base.Maps.{Map, lookup, insert, contains}
use tel_ego_openwrt.WebProxy.Frame.{
  Frame, FrameError, invalid_frame, frame_open, frame_data, frame_close, frame_window,
  frame_header_size, parse_batch, validate_client_frame,
}
use tel_ego_openwrt.WebProxy.StreamHistory as History
use tel_ego_openwrt.WebProxy.BoundedSet.{has}
use tel_ego_openwrt.WebProxy.Session.{
  Session, CarrierLane, CarrierMode, websocket_lanes, CloseReason, by_protocol, by_resource,
  new_carrier_lane, PendingClass, uplink, QueuedFrame,
}
use tel_ego_openwrt.WebProxy.Session.Pending.{reserve_pending, release_pending}
use tel_ego_openwrt.WebProxy.Session.Queue.{put_lane}
use tel_ego_openwrt.WebProxy.Session.Release.{
  take_down_batch, release_carrier_lane, remember_closed, drop_stream,
}
use tel_ego_openwrt.WebProxy.Session.Streams.{close_session}
use tel_ego_openwrt.WebProxy.Session.Batch.{Batch, apply_batch}
use tel_ego_openwrt.WebProxy.Session.Checks.{validate_batch, backend_write_reservation}

pub data CarrierError : Type 0 where
  err_closed err_protocol err_backpressure : CarrierError

-- `bytes.Equal`
unfoldable pub same_bytes : List ℕ → List ℕ → Bool
same_bytes [] [] = true
same_bytes (x ∷ xs) (y ∷ ys) = x == y && same_bytes xs ys
same_bytes _ _ = false

unfoldable pub is_lane : CarrierLane → Option ℕ → Bool
is_lane lane none = true
is_lane lane (some serial) = lane.serial == serial

-- The stream of a WebSocket lane that is released, where it is live.
unfoldable pub drop_lane_stream : Session → ℕ → Session
unfolding drop_stream remember_closed
drop_lane_stream s id = elim (lookup id s.streams) [
  | none ↦ s
  | some state ↦ remember_closed (drop_stream s id state) id
]

unfoldable pub is_websocket_lanes : CarrierMode → Bool
is_websocket_lanes websocket_lanes = true
is_websocket_lanes _ = false

-- releaseWebSocketLaneLocked
unfoldable pub release_websocket_lane : Session → ℕ → Option ℕ → Session
unfolding release_carrier_lane drop_lane_stream is_websocket_lanes
release_websocket_lane s id none = s
release_websocket_lane s id (some serial) = elim (lookup id s.carrier_lanes) [
  | none ↦ s
  | some lane ↦
      if is_websocket_lanes s.carrier && lane.serial == serial
      then release_carrier_lane
          (drop_lane_stream (put_lane s id (record lane { websocket_active = false })) id) id
      else s
]

-- laneProtocolFailureLocked
unfoldable pub lane_protocol_failure : Session → ℕ → Option ℕ → Session
unfolding close_session release_websocket_lane
lane_protocol_failure s id expected =
    if is_websocket_lanes s.carrier
    then release_websocket_lane s id expected
    else close_session s by_protocol

-- The frames of an uplink batch, each a client's and of the lane.
unfoldable pub check_uplink : ℕ → Bool → List Frame → Result FrameError (Unit {0})
check_uplink lane_id lanes [] = ok tt
check_uplink lane_id lanes (f ∷ fs) = do
  _ ← fail_if (lanes && not (f.stream_id == lane_id)) invalid_frame
  _ ← validate_client_frame f
  check_uplink lane_id lanes fs

unfoldable pub parse_uplink_batch : List ℕ → ℕ → Bool → Result FrameError (List Frame)
unfolding check_uplink
parse_uplink_batch body lane_id lanes = do
  frames ← parse_batch body
  _ ← check_uplink lane_id lanes frames
  ok frames

unfoldable pub batch_starts_with_open : List ℕ → ℕ → Bool
unfolding join32
batch_starts_with_open (t ∷ b2 ∷ b1 ∷ b0 ∷ rest) lane_id =
    leb frame_header_size (4 + length rest) && (t == frame_open && join32 0 b2 b1 b0 == lane_id)
batch_starts_with_open _ lane_id = false

all_late : List Frame → Bool
all_late [] = true
all_late (f ∷ fs) =
    (f.frame_type == frame_data || (f.frame_type == frame_window || f.frame_type == frame_close))
    && all_late fs

unfoldable pub only_late_lane_frames : List Frame → Bool
unfolding all_late
only_late_lane_frames [] = false
only_late_lane_frames (f ∷ fs) = all_late (f ∷ fs)

-- What the first critical section of processUp decides: an answer, to parse for a lane or without
-- one, or to fail since a repeated sequence has another digest.
pub data UpBegin : Type 0 where
  accepted : ℕ → UpBegin
  refused : CarrierError → UpBegin
  proceed : ℕ → UpBegin
  laneless : UpBegin
  mismatched : UpBegin

unfoldable pub begin_on : Session → ℕ → CarrierLane → ℕ → List ℕ → Option ℕ → Session × UpBegin
unfolding lane_protocol_failure same_bytes put_lane
begin_on s id lane sequence sum expected =
    let failing = lane_protocol_failure s id expected in
    if sequence == lane.last_up_sequence
    then (if same_bytes sum lane.last_up_digest then (s, accepted sequence) else (s, mismatched))
    else if not (sequence == (lane.last_up_sequence + 1) % 2 ^ 64)
    then (failing, refused err_protocol)
    else if lane.up_active
    then (s, refused err_backpressure)
    else (put_lane s id (record lane { up_active = true }), proceed lane.serial)

-- A new lane, and the session that has allocated it.
unfoldable pub add_lane : Session → ℕ → Session
add_lane s id = record s {
  carrier_lanes = insert id (new_carrier_lane s.allocated) s.carrier_lanes;
  allocated = s.allocated + 1;
}

unfoldable pub begin_new : (List ℕ → List ℕ) → Session → ℕ → ℕ → List ℕ → Bool → Session × UpBegin
unfolding begin_on add_lane batch_starts_with_open
begin_new digest s id sequence body lanes =
    if not lanes || (id == 0 || not (batch_starts_with_open body id))
    then (s, laneless)
    else begin_on (add_lane s id) id (new_carrier_lane s.allocated) sequence (digest body) none

-- processUp until it parses, on a session that is open.
unfoldable pub begin_open :
    (List ℕ → List ℕ) → Session → ℕ → ℕ → List ℕ → Bool → Option ℕ → Session × UpBegin
unfolding begin_on begin_new is_lane
begin_open digest s id sequence body lanes expected =
    let bad = sequence == 0 || ltb s.limits.max_body_bytes (length body) in
    elim (lookup id s.carrier_lanes) [
      | none ↦ elim expected [
        | some serial ↦ (s, refused err_closed)
        | none ↦
            if bad
            then (lane_protocol_failure s id none, refused err_protocol)
            else begin_new digest s id sequence body lanes
      ]
      | some lane ↦
          if not (is_lane lane expected)
          then (s, refused err_closed)
          else if bad
          then (lane_protocol_failure s id expected, refused err_protocol)
          else begin_on s id lane sequence (digest body) expected
    ]

unfoldable pub begin_up :
    (List ℕ → List ℕ) → Session → ℕ → ℕ → List ℕ → Bool → Option ℕ → Session × UpBegin
unfolding begin_open
begin_up digest s id sequence body lanes expected =
    if s.closed
    then (s, refused err_closed)
    else begin_open digest s id sequence body lanes expected

-- laneProtocolFailure, which takes the mutex for itself.
unfoldable pub fail_up : Session → ℕ → Option ℕ → Session × Result CarrierError ℕ
unfolding lane_protocol_failure
fail_up s id expected = (lane_protocol_failure s id expected, err err_protocol)

-- processUp behind the parser, for a batch without a lane: late frames pass, everything else fails.
unfoldable pub finish_late :
    Session
    → ℕ
    → ℕ
    → Bool
    → Result FrameError (List Frame)
    → Option ℕ
    → Session × Result CarrierError ℕ
unfolding fail_up only_late_lane_frames
finish_late s id sequence lanes parsed expected = elim parsed [
  | err e ↦ fail_up s id expected
  | ok frames ↦
      if lanes && only_late_lane_frames frames then (s, ok sequence) else fail_up s id expected
]

-- The writes to `lane`, which its map may have lost.
unfoldable pub record_sequence : Session → ℕ → ℕ → ℕ → List ℕ → Session
unfolding put_lane
record_sequence s id serial sequence sum = elim (lookup id s.carrier_lanes) [
  | none ↦ s
  | some lane ↦
      if lane.serial == serial
      then put_lane s id (record lane { last_up_sequence = sequence; last_up_digest = sum })
      else s
]

unfoldable pub finish_batch : Batch → ℕ → ℕ → ℕ → List ℕ → Session × Result CarrierError ℕ
unfolding record_sequence close_session
finish_batch b id serial sequence sum =
    let released = release_pending b.session b.unused_cost b.unused_items in
    if b.applied
    then (record_sequence released id serial sequence sum, ok sequence)
    else (close_session released by_resource, err err_closed)

unfoldable pub commit_batch :
    (ℕ → Bool) → Session → ℕ → ℕ → ℕ → List ℕ → List Frame → Session × Result CarrierError ℕ
unfolding finish_batch
commit_batch acquire s id serial sequence sum frames = elim (backend_write_reservation s frames) [
  | none ↦ (s, err err_backpressure)
  | some (cost, items) ↦
      let reserved = reserve_pending s cost items uplink in
      if reserved.1
      then finish_batch (apply_batch acquire reserved.0 frames cost items) id serial sequence sum
      else (reserved.0, err err_backpressure)
]

-- What the parser gave, on a session that is open.
unfoldable pub commit_parsed :
    (ℕ → Bool)
    → Session
    → ℕ
    → CarrierLane
    → ℕ
    → List ℕ
    → Result FrameError (List Frame)
    → Option ℕ
    → Session × Result CarrierError ℕ
unfolding commit_batch lane_protocol_failure
commit_parsed acquire s id lane sequence sum parsed expected =
    let failing = lane_protocol_failure s id expected in
    elim parsed [
      | err e ↦ (failing, err err_protocol)
      | ok frames ↦
          if validate_batch s frames
          then commit_batch acquire s id lane.serial sequence sum frames
          else (failing, err err_protocol)
    ]

unfoldable pub commit_on :
    (ℕ → Bool)
    → Session
    → ℕ
    → CarrierLane
    → ℕ
    → List ℕ
    → Result FrameError (List Frame)
    → Option ℕ
    → Session × Result CarrierError ℕ
unfolding commit_parsed put_lane
commit_on acquire s id lane sequence sum parsed expected =
    let idle = put_lane s id (record lane { up_active = false }) in
    if s.closed
    then (idle, err err_closed)
    else commit_parsed acquire idle id lane sequence sum parsed expected

-- processUp behind the parser, for a batch that holds its lane.
unfoldable pub commit_up :
    (ℕ → Bool)
    → Session
    → ℕ
    → ℕ
    → ℕ
    → List ℕ
    → Result FrameError (List Frame)
    → Option ℕ
    → Session × Result CarrierError ℕ
unfolding commit_on
commit_up acquire s id serial sequence sum parsed expected = elim (lookup id s.carrier_lanes) [
  | none ↦ (s, err err_closed)
  | some lane ↦
      if lane.serial == serial
      then commit_on acquire s id lane sequence sum parsed expected
      else (s, err err_closed)
]

-- processUp where nothing else takes the mutex while it parses.
unfoldable pub process_up :
    (List ℕ → List ℕ)
    → (ℕ → Bool)
    → Session
    → ℕ
    → ℕ
    → List ℕ
    → Bool
    → Option ℕ
    → Session × Result CarrierError ℕ
unfolding begin_up commit_up finish_late fail_up
process_up digest acquire s id sequence body lanes expected =
    let begun = begin_up digest s id sequence body lanes expected in
    elim begun.1 [
      | accepted n ↦ (begun.0, ok n)
      | refused e ↦ (begun.0, err e)
      | proceed serial ↦
          commit_up acquire begun.0 id serial sequence (digest body)
            (parse_uplink_batch body id lanes) expected
      | laneless ↦ finish_late begun.0 id sequence lanes (parse_uplink_batch body id lanes) expected
      | mismatched ↦ fail_up begun.0 id expected
    ]
