-- ===== src/WebProxy/Session.antt =====
-- webproxy/session.go: the state of one carrier session. Its mutex is held across each operation
-- below, so that an operation is one step. Channels that only wake waiting goroutines, times of last
-- activity and statistics have no field. A lane's `serial` stands for its address: the n-th lane
-- that a session allocates has the serial n. `panicked` records a panic or a nil dereference; what
-- the model computes behind one has no meaning.
pub mod Pending
pub mod Queue
pub mod Release
pub mod Streams
pub mod Checks
pub mod Batch
pub mod Carrier
pub mod Poll
pub mod Inputs
mod Examples
pub mod Accounts
pub mod Keys
pub mod Windows
pub mod Kept
use tel_ego_openwrt.Base.{ℕ, ◌+◌, ◌*◌, List, [], ◌∷◌, Bool, true, false, ◌||◌, Option, none, some}
use tel_ego_openwrt.Base.Maps.{Map}
use tel_ego_openwrt.WebProxy.Frame.{FrameType}
use tel_ego_openwrt.WebProxy.Limits.{Limits}
use tel_ego_openwrt.WebProxy.BoundedSet.{BoundedSet, new_bounded_set}
use tel_ego_openwrt.WebProxy.StreamHistory.{StreamIdHistory, new_stream_id_history}

abbrev pub initial_stream_window : ℕ
initial_stream_window = 4 * 1024 * 1024

abbrev pub relay_data_chunk : ℕ
relay_data_chunk = 64 * 1024

pub data CarrierMode : Type 0 where
  https https_lanes websocket websocket_lanes : CarrierMode

unfoldable pub uses_lanes : CarrierMode → Bool
uses_lanes https_lanes = true
uses_lanes websocket_lanes = true
uses_lanes _ = false

pub data PendingClass : Type 0 where
  uplink downlink control : PendingClass

pub data CloseReason : Type 0 where
  by_client by_expiry by_protocol by_resource by_shutdown : CloseReason

-- streamState; its `writes` wait for the backend.
pub record StreamState : Type 0 where
  pub receive_window : ℕ
  pub send_credit : ℕ
  pub pending_write_bytes : ℕ
  pub pending_write_cost : ℕ
  pub pending_write_items : ℕ
  pub writes : List (List ℕ)

pub record QueuedFrame : Type 0 where
  pub encoded : List ℕ
  pub frame_type : FrameType
  pub stream_id : ℕ
  pub cost : ℕ

pub record CarrierLane : Type 0 where
  pub serial : ℕ
  pub pending_frames : List QueuedFrame
  pub pending_windows : Map ℕ
  pub unacked : List ℕ
  pub unacked_cost : ℕ
  pub unacked_items : ℕ
  pub unacked_base : ℕ
  pub down_cursor : ℕ
  pub last_up_sequence : ℕ
  pub last_up_digest : List ℕ
  pub up_active : Bool
  pub websocket_active : Bool

unfoldable pub new_carrier_lane : ℕ → CarrierLane
new_carrier_lane serial = record {
  serial = serial;
  pending_frames = [];
  pending_windows = [];
  unacked = [];
  unacked_cost = 0;
  unacked_items = 0;
  unacked_base = 0;
  down_cursor = 0;
  last_up_sequence = 0;
  last_up_digest = [];
  up_active = false;
  websocket_active = false;
}

-- The manager's counters of all sessions' pending bytes and items.
pub record Global : Type 0 where
  pub pending_bytes : ℕ
  pub pending_items : ℕ

pub record Session : Type 0 where
  pub carrier : CarrierMode
  pub limits : Limits
  pub streams : Map StreamState
  pub used_streams : StreamIdHistory
  pub tombstones : BoundedSet
  pub carrier_lanes : Map CarrierLane
  pub allocated : ℕ
  pub websocket_active : Bool
  pub pending_cost : ℕ
  pub pending_items : ℕ
  pub closed : Bool
  pub close_reason : CloseReason
  pub global : Global
  pub panicked : Bool

unfoldable pub first_lanes : CarrierMode → Map CarrierLane
first_lanes websocket_lanes = []
first_lanes _ = (0, new_carrier_lane 0) ∷ []

-- newSession, where the manager's counters are `global`.
unfoldable pub new_session : CarrierMode → Limits → Global → Session
unfolding first_lanes
new_session carrier limits global = record {
  carrier = carrier;
  limits = limits;
  streams = [];
  used_streams = new_stream_id_history;
  tombstones = new_bounded_set limits.max_closed_stream_ids;
  carrier_lanes = first_lanes carrier;
  allocated = 1;
  websocket_active = false;
  pending_cost = 0;
  pending_items = 0;
  closed = false;
  close_reason = by_client;
  global = global;
  panicked = false;
}
