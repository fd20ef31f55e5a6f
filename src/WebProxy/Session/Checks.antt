-- ===== src/WebProxy/Session/Checks.antt =====
-- webproxy/session.go: what a batch of the client's frames may do to the streams, and what it will cost.
use tel_ego_openwrt.Base.{
  ℕ, ◌+◌, ◌-◌, ◌%◌, ◌^◌, List, [], ◌∷◌, Bool, true, false, not, ◌&&◌, ◌||◌, Option, none, some, ltb,
  ◌==◌, if◌then◌else◌, length, min,
}
use tel_ego_openwrt.Base.Maps.{Map, lookup, contains, insert, remove}
use tel_ego_openwrt.WebProxy.Frame.{
  Frame, frame_open, frame_data, frame_close, frame_window, frame_pong,
}
use tel_ego_openwrt.WebProxy.StreamHistory.{StreamIdHistory}
use tel_ego_openwrt.WebProxy.StreamHistory as History
use tel_ego_openwrt.WebProxy.Limits.{queue_item_cost, checked_add_int, max_int}
use tel_ego_openwrt.WebProxy.Session.{Session, StreamState, initial_stream_window}
use tel_ego_openwrt.WebProxy.Session.Queue.{delta_or_zero, max_uint32}

-- streamSnapshot
pub record StreamSnapshot : Type 0 where
  pub receive_window : ℕ
  pub send_credit : ℕ

unfoldable pub whole_snapshot : StreamSnapshot
whole_snapshot = record {
  receive_window = initial_stream_window;
  send_credit = initial_stream_window;
}

unfoldable pub snapshots : Map StreamState → Map StreamSnapshot
snapshots [] = []
snapshots ((id, state) ∷ rest) =
    (id, record { receive_window = state.receive_window; send_credit = state.send_credit })
    ∷ snapshots rest

-- `uint32(len(payload))`
unfoldable pub payload_size : Frame → ℕ
payload_size f = length f.payload % 2 ^ 32

-- `min(math.MaxUint32, credit + delta)`
unfoldable pub more_credit : ℕ → Frame → ℕ
more_credit credit f = min max_uint32 (credit + delta_or_zero f.payload)

-- The `live` and `usedInBatch` of validateBatchLocked.
pub record Checked : Type 0 where
  pub live : Map StreamSnapshot
  pub used : Map (Unit {0})

-- A frame of a stream that is not live: late frames of a used stream pass.
unfoldable pub check_late : Bool → Checked → Option Checked
check_late used c = if used then some c else none

unfoldable pub check_open : Bool → Checked → ℕ → Option Checked
check_open used c id =
    if contains id c.live || used
    then none
    else some (record { live = insert id whole_snapshot c.live; used = insert id tt c.used })

unfoldable pub check_data : Bool → Checked → Frame → Option Checked
unfolding check_late
check_data used c f = elim (lookup f.stream_id c.live) [
  | none ↦ check_late used c
  | some state ↦
      if ltb state.receive_window (payload_size f)
      then none
      else some (record c {
        live =
            insert f.stream_id
              (record state { receive_window = state.receive_window - payload_size f }) c.live;
      })
]

unfoldable pub check_window : Bool → Checked → Frame → Option Checked
unfolding check_late
check_window used c f = elim (lookup f.stream_id c.live) [
  | none ↦ check_late used c
  | some state ↦ some (record c {
    live =
        insert f.stream_id (record state { send_credit = more_credit state.send_credit f }) c.live;
  })
]

unfoldable pub check_close : Bool → Checked → Frame → Option Checked
unfolding check_late
check_close used c f = elim (lookup f.stream_id c.live) [
  | none ↦ check_late used c
  | some state ↦ some (record c { live = remove f.stream_id c.live })
]

-- One round of validateBatchLocked: nothing when it returns false.
unfoldable pub check_frame : StreamIdHistory → Checked → Frame → Option Checked
unfolding check_open check_data check_window check_close
check_frame history c f =
    let used = contains f.stream_id c.used || History.contains history f.stream_id in
    if f.stream_id == 0
    then (if f.frame_type == frame_pong then some c else none)
    else if f.frame_type == frame_open
    then check_open used c f.stream_id
    else if f.frame_type == frame_data
    then check_data used c f
    else if f.frame_type == frame_window
    then check_window used c f
    else if f.frame_type == frame_close
    then check_close used c f
    else none

unfoldable pub check_frames : StreamIdHistory → Checked → List Frame → Bool
unfolding check_frame
check_frames history c [] = true
check_frames history c (f ∷ fs) = elim (check_frame history c f) [
  | none ↦ false
  | some c' ↦ check_frames history c' fs
]

-- validateBatchLocked
unfoldable pub validate_batch : Session → List Frame → Bool
unfolding check_frames snapshots
validate_batch s frames =
    check_frames s.used_streams (record { live = snapshots s.streams; used = [] }) frames

-- The `live` of backendWriteReservationLocked: a set of streams.
unfoldable pub stream_set : Map StreamState → Map (Unit {0})
stream_set [] = []
stream_set ((id, state) ∷ rest) = (id, tt) ∷ stream_set rest

-- Its `live` behind a frame.
unfoldable pub live_after : Map (Unit {0}) → Frame → Map (Unit {0})
live_after live f =
    if f.stream_id == 0
    then live
    else if f.frame_type == frame_open
    then insert f.stream_id tt live
    else if f.frame_type == frame_close
    then remove f.stream_id live
    else live

-- Whether a frame is charged.
unfoldable pub charged : Map (Unit {0}) → Frame → Bool
charged live f = not (f.stream_id == 0) && (f.frame_type == frame_data && contains f.stream_id live)

-- The sum with a frame's cost: nothing where an int would overflow.
unfoldable pub reserve_frame : ℕ × ℕ → Frame → Option (ℕ × ℕ)
unfolding checked_add_int
reserve_frame (cost, items) f = elim (checked_add_int (length f.payload) queue_item_cost) [
  | none ↦ none
  | some item_cost ↦ elim (checked_add_int cost item_cost) [
    | none ↦ none
    | some cost' ↦ if items == max_int then none else some (cost', items + 1)
  ]
]

unfoldable pub reserve_frames : Map (Unit {0}) → ℕ × ℕ → List Frame → Option (ℕ × ℕ)
unfolding live_after charged reserve_frame
reserve_frames live sums [] = some sums
reserve_frames live sums (f ∷ fs) =
    if charged live f
    then elim (reserve_frame sums f) [
      | none ↦ none
      | some sums' ↦ reserve_frames (live_after live f) sums' fs
    ]
    else reserve_frames (live_after live f) sums fs

-- backendWriteReservationLocked
unfoldable pub backend_write_reservation : Session → List Frame → Option (ℕ × ℕ)
unfolding reserve_frames stream_set
backend_write_reservation s frames = reserve_frames (stream_set s.streams) (0, 0) frames
