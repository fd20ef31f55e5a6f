-- ===== src/WebProxy/Session/Batch.antt =====
-- webproxy/session.go: what a batch of the client's frames does to the streams.
pub mod Steps
pub mod Agreement
pub mod Cases
pub mod Openings
pub mod Safety
pub mod Applied
pub mod Open
use tel_ego_openwrt.Base.{
  ℕ, zero, suc, ◌+◌, ◌-◌, ◌%◌, ◌^◌, List, [], ◌∷◌, ◌++◌, Bool, true, false, not, ◌&&◌, ◌||◌, Option,
  none, some, ltb, leb, ◌==◌, if◌then◌else◌, length, min,
}
use tel_ego_openwrt.Base.Maps.{Map, lookup, contains, insert, remove, count}
use tel_ego_openwrt.WebProxy.Frame.{
  Frame, frame_open, frame_data, frame_close, frame_window, frame_pong,
}
use tel_ego_openwrt.WebProxy.StreamHistory.{StreamIdHistory}
use tel_ego_openwrt.WebProxy.StreamHistory as History
use tel_ego_openwrt.WebProxy.Limits.{queue_item_cost, checked_add_int, max_int}
use tel_ego_openwrt.WebProxy.Session.{Session, StreamState, initial_stream_window}
use tel_ego_openwrt.WebProxy.Session.Queue.{delta_or_zero, queue_frame, max_uint32}
use tel_ego_openwrt.WebProxy.Session.Release.{
  drop_pending_stream_frames, drop_stream, remember_closed,
}
use tel_ego_openwrt.WebProxy.Session.Checks.{payload_size, more_credit}
use tel_ego_openwrt.WebProxy.Session.Streams.{append_backend_write, new_stream_state, put_stream}

-- The variables of applyBatchLocked; `applied` is false where it has returned false.
pub record Batch : Type 0 where
  pub session : Session
  pub opened : List ℕ
  pub closed : List ℕ
  pub unused_cost : ℕ
  pub unused_items : ℕ
  pub applied : Bool

unfoldable pub panic : Batch → Batch
panic b = record b { session = record b.session { panicked = true } }

-- A frame of a stream without a state: late where the stream was used, else a nil dereference.
unfoldable pub apply_late : Batch → ℕ → Batch
unfolding panic
apply_late b id = if History.contains b.session.used_streams id then b else panic b

unfoldable pub use_stream : Session → ℕ → Session
use_stream s id = record s { used_streams = (History.add s.used_streams id).0 }

-- A stream that finds no room is closed at once.
unfoldable pub refuse_stream : Batch → Session → ℕ → Batch
unfolding remember_closed queue_frame
refuse_stream b s id =
    let queued = queue_frame (remember_closed s id) frame_close id [] in
    record b { session = queued.0; applied = queued.1 }

-- `acquire` stands for acquireStream: whether the manager admits the stream.
unfoldable pub apply_open : (ℕ → Bool) → Batch → ℕ → Batch
unfolding use_stream refuse_stream put_stream new_stream_state
apply_open acquire b id =
    let used = use_stream b.session id in
    if leb b.session.limits.max_streams_per_session (count b.session.streams) || not (acquire id)
    then refuse_stream b used id
    else record b { session = put_stream used id new_stream_state; opened = b.opened ++ id ∷ [] }

-- A DATA frame's payload waits for the backend, and narrows the client's window. An `unused` that
-- became negative would panic when it is released.
unfoldable pub apply_data : Batch → Frame → StreamState → Batch
unfolding append_backend_write put_stream panic
apply_data b f state =
    let appended = append_backend_write state f.payload in
    let window = (state.receive_window + (2 ^ 32 - payload_size f)) % 2 ^ 32 in
    if ltb b.unused_cost appended.1.0 || ltb b.unused_items appended.1.1
    then panic b
    else record b {
      session = put_stream b.session f.stream_id (record appended.0 { receive_window = window });
      unused_cost = b.unused_cost - appended.1.0;
      unused_items = b.unused_items - appended.1.1;
    }

unfoldable pub apply_window : Batch → Frame → StreamState → Batch
unfolding put_stream
apply_window b f state = record b {
  session =
      put_stream b.session f.stream_id
        (record state { send_credit = more_credit state.send_credit f });
}

unfoldable pub apply_close : Batch → ℕ → StreamState → Batch
unfolding drop_stream remember_closed
apply_close b id state = record b {
  session = remember_closed (drop_stream (drop_pending_stream_frames b.session id) id state) id;
  closed = b.closed ++ id ∷ [];
}

-- One round of applyBatchLocked.
unfoldable pub apply_frame : (ℕ → Bool) → Batch → Frame → Batch
unfolding apply_open apply_data apply_window apply_close apply_late
apply_frame acquire b f =
    let stream = lookup f.stream_id b.session.streams in
    if f.stream_id == 0
    then b
    else if f.frame_type == frame_open
    then apply_open acquire b f.stream_id
    else if f.frame_type == frame_data
    then elim stream [ none ↦ apply_late b f.stream_id | some state ↦ apply_data b f state ]
    else if f.frame_type == frame_window
    then elim stream [ none ↦ apply_late b f.stream_id | some state ↦ apply_window b f state ]
    else if f.frame_type == frame_close
    then elim stream [
      | none ↦ apply_late b f.stream_id
      | some state ↦ apply_close b f.stream_id state
    ]
    else b

unfoldable pub apply_frames : (ℕ → Bool) → Batch → List Frame → Batch
unfolding apply_frame
apply_frames acquire b [] = b
apply_frames acquire b (f ∷ fs) =
    let rest = apply_frames acquire (apply_frame acquire b f) fs in if b.applied then rest else b

unfoldable pub start_batch : Session → ℕ → ℕ → Batch
start_batch s cost items = record {
  session = s;
  opened = [];
  closed = [];
  unused_cost = cost;
  unused_items = items;
  applied = true;
}

-- applyBatchLocked
unfoldable pub apply_batch : (ℕ → Bool) → Session → List Frame → ℕ → ℕ → Batch
unfolding apply_frames start_batch
apply_batch acquire s frames cost items = apply_frames acquire (start_batch s cost items) frames
