-- ===== src/WebProxy/Session/Streams.antt =====
-- webproxy/session.go: the streams of a session: what waits for the backend, what the backend has
-- taken, and what it sends.
use tel_ego_openwrt.Base.{
  ℕ, ◌+◌, ◌-◌, ◌%◌, ◌^◌, List, [], ◌∷◌, ◌++◌, Bool, true, false, not, ◌&&◌, ◌||◌, Option, none,
  some, ltb, leb, ◌==◌, if◌then◌else◌, length, min, ok, err,
}
use tel_ego_openwrt.Base.Maps.{lookup, insert}
use tel_ego_openwrt.WebProxy.Frame.{frame_data, frame_window, frame_close, window_payload}
use tel_ego_openwrt.WebProxy.Limits.{queue_item_cost}
use tel_ego_openwrt.WebProxy.Session.{
  Session, StreamState, Global, CloseReason, by_resource, initial_stream_window, relay_data_chunk,
}
use tel_ego_openwrt.WebProxy.Session.Pending.{release_pending, refund_global, data_frame_allowance}
use tel_ego_openwrt.WebProxy.Session.Queue.{split_last, queue_frame}
use tel_ego_openwrt.WebProxy.Session.Release.{
  drop_pending_stream_frames, drop_stream, remember_closed,
}

-- newBackendStream's state: both windows are whole.
unfoldable pub new_stream_state : StreamState
new_stream_state = record {
  receive_window = initial_stream_window;
  send_credit = initial_stream_window;
  pending_write_bytes = 0;
  pending_write_cost = 0;
  pending_write_items = 0;
  writes = [];
}

unfoldable pub put_stream : Session → ℕ → StreamState → Session
put_stream s id state = record s { streams = insert id state s.streams }

unfoldable pub add_write : StreamState → List (List ℕ) → ℕ → ℕ → ℕ → StreamState
add_write state writes bytes cost items = record state {
  writes = writes;
  pending_write_bytes = state.pending_write_bytes + bytes;
  pending_write_cost = state.pending_write_cost + cost;
  pending_write_items = state.pending_write_items + items;
}

-- A write of its own: the state, and the cost and the items that it takes.
unfoldable pub append_new : StreamState → List ℕ → StreamState × (ℕ × ℕ)
unfolding add_write
append_new state payload =
    let cost = length payload + queue_item_cost in
    (add_write state (state.writes ++ payload ∷ []) (length payload) cost 1, (cost, 1))

-- appendBackendWriteLocked: a payload joins the last write while that fits one relay chunk.
unfoldable pub append_backend_write : StreamState → List ℕ → StreamState × (ℕ × ℕ)
unfolding append_new
append_backend_write state payload = elim (split_last state.writes) [
  | none ↦ append_new state payload
  | some (front, last) ↦
      if leb (length last + length payload) relay_data_chunk
      then (
        add_write state (front ++ (last ++ payload) ∷ []) (length payload) (length payload) 0,
        (length payload, 0),
      )
      else append_new state payload
]

-- One round of nextWrite: `closed`, a write, or to wait.
pub data NextWrite : Type 0 where
  stopped : NextWrite
  write : List ℕ → NextWrite
  wait : NextWrite

unfoldable pub first_write : Session → ℕ → StreamState → List (List ℕ) → Session × NextWrite
unfolding put_stream
first_write s id state [] = (s, wait)
first_write s id state (first ∷ rest) =
    (put_stream s id (record state { writes = rest }), write first)

unfoldable pub next_write : Session → ℕ → Session × NextWrite
unfolding first_write
next_write s id = elim (lookup id s.streams) [
  | none ↦ (s, stopped)
  | some state ↦ if s.closed then (s, stopped) else first_write s id state state.writes
]

unfoldable pub drained_state : StreamState → ℕ → StreamState
drained_state state amount = record state {
  pending_write_bytes = state.pending_write_bytes - amount;
  pending_write_cost = state.pending_write_cost - amount;
  receive_window = state.receive_window + amount;
}

unfoldable pub can_drain : StreamState → ℕ → Bool
can_drain state amount =
    not (amount == 0)
    && (not (ltb state.pending_write_bytes amount)
        && (not (ltb state.pending_write_cost amount)
            && not (ltb initial_stream_window (state.receive_window + amount))))

-- backendDrained: the backend has taken `amount` bytes, which a WINDOW frame gives back to the client.
unfoldable pub backend_drained : Session → ℕ → ℕ → Session × Bool
unfolding put_stream drained_state release_pending can_drain window_payload
backend_drained s id amount = elim (lookup id s.streams) [
  | none ↦ (s, false)
  | some state ↦
      let drained = release_pending (put_stream s id (drained_state state amount)) amount 0 in
      if s.closed || not (can_drain state amount)
      then (s, false)
      else elim (window_payload amount) [
        | err e ↦ (drained, false)
        | ok payload ↦ queue_frame drained frame_window id payload
      ]
]

unfoldable pub finished_state : StreamState → StreamState
finished_state state = record state {
  pending_write_items = state.pending_write_items - 1;
  pending_write_cost = state.pending_write_cost - queue_item_cost;
}

-- backendWriteFinished
unfoldable pub backend_write_finished : Session → ℕ → Session × Bool
unfolding put_stream finished_state release_pending
backend_write_finished s id = elim (lookup id s.streams) [
  | none ↦ (s, false)
  | some state ↦
      if s.closed
        || (state.pending_write_items == 0 || ltb state.pending_write_cost queue_item_cost)
      then (s, false)
      else (release_pending (put_stream s id (finished_state state)) queue_item_cost 1, true)
]

-- One round of nextReadAllowance: nothing when the stream has ended; 0 is to wait.
unfoldable pub next_read_allowance : Session → ℕ → Option ℕ
unfolding data_frame_allowance
next_read_allowance s id = elim (lookup id s.streams) [
  | none ↦ none
  | some state ↦
      if s.closed
      then none
      else some (data_frame_allowance s (min state.send_credit relay_data_chunk))
]

-- The credit less what is sent: a subtraction on uint64, which wraps around.
unfoldable pub spent_credit : ℕ → ℕ → ℕ
spent_credit credit size = (credit + (2 ^ 64 - size % 2 ^ 64)) % 2 ^ 64

-- backendData: bytes of the backend, queued for the client.
unfoldable pub backend_data : Session → ℕ → List ℕ → Session × Bool
unfolding put_stream spent_credit
backend_data s id bytes = elim (lookup id s.streams) [
  | none ↦ (s, false)
  | some state ↦
      if s.closed || (length bytes == 0 || ltb state.send_credit (length bytes))
      then (s, false)
      else queue_frame
          (put_stream s id
            (record state { send_credit = spent_credit state.send_credit (length bytes) }))
          frame_data id bytes
]

unfoldable pub closed_session : Session → CloseReason → Global → Session
closed_session s reason global = record s {
  closed = true;
  close_reason = reason;
  streams = [];
  carrier_lanes = [];
  pending_cost = 0;
  pending_items = 0;
  global = global;
}

-- closeLocked: all that is pending goes back to the manager.
unfoldable pub close_session : Session → CloseReason → Session
unfolding closed_session refund_global
close_session s reason =
    if s.closed
    then s
    else if s.pending_cost == 0 && s.pending_items == 0
    then closed_session s reason s.global
    else elim (refund_global s.global s.pending_cost s.pending_items) [
      | none ↦ record s { panicked = true }
      | some global ↦ closed_session s reason global
    ]

-- backendClosed. A stream number is opened once, so that the backend that closes is the state's own.
unfoldable pub backend_closed : Session → ℕ → Session
unfolding drop_pending_stream_frames drop_stream remember_closed close_session
backend_closed s id = elim (lookup id s.streams) [
  | none ↦ s
  | some state ↦
      let dropped = drop_stream (drop_pending_stream_frames s id) id state in
      let queued = queue_frame (remember_closed dropped id) frame_close id [] in
      if s.closed then s else if queued.1 then queued.0 else close_session queued.0 by_resource
]
