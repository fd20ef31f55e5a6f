-- ===== src/WebProxy/Session/Release.antt =====
-- webproxy/session.go: taking a batch off a lane's queue, and dropping what a closed stream has
-- queued.
use tel_ego_openwrt.Base.{
  ℕ, suc, ◌+◌, ◌-◌, List, [], ◌∷◌, ◌++◌, not, ◌&&◌, none, some, ltb, ◌==◌, if◌then◌else◌, length,
  take, drop,
}
use tel_ego_openwrt.Base.Maps.{Map, lookup, insert, remove}
use tel_ego_openwrt.WebProxy.BoundedSet.{add}
use tel_ego_openwrt.WebProxy.Frame.{frame_window, max_batch_frames}
use tel_ego_openwrt.WebProxy.Session.{Session, CarrierLane, QueuedFrame, StreamState, uses_lanes}
use tel_ego_openwrt.WebProxy.Session.Pending.{release_pending}
use tel_ego_openwrt.WebProxy.Session.Queue.{lane_of, put_lane}

-- The cost of queued frames.
unfoldable pub frames_cost : List QueuedFrame → ℕ
frames_cost [] = 0
frames_cost (q ∷ qs) = q.cost + frames_cost qs

unfoldable pub frames_body : List QueuedFrame → List ℕ
frames_body [] = []
frames_body (q ∷ qs) = q.encoded ++ frames_body qs

-- The first loop of takeDownBatchLocked: how many frames go into a batch that has `n` frames of
-- `size` bytes already.
unfoldable pub batch_count : ℕ → ℕ → ℕ → List QueuedFrame → ℕ
batch_count bytes n size [] = n
batch_count bytes n size (q ∷ qs) =
    let more = batch_count bytes (suc n) (size + length q.encoded) qs in
    if not (ltb n max_batch_frames)
    then n
    else if not (n == 0) && ltb bytes (size + length q.encoded)
    then n
    else more

-- `lane.pendingWindows[id]`, which is 0 for a key that is missing.
unfoldable pub window_index : Map ℕ → ℕ → ℕ
window_index windows id = elim (lookup id windows) [ none ↦ 0 | some index ↦ index ]

-- The second loop: the index of the first frame is `index`.
unfoldable pub forget_windows : Map ℕ → ℕ → List QueuedFrame → Map ℕ
forget_windows windows index [] = windows
forget_windows windows index (q ∷ qs) =
    forget_windows
      (if q.frame_type == frame_window && window_index windows q.stream_id == index
        then remove q.stream_id windows
        else windows)
      (suc index) qs

-- The third loop: the indices, less `count`.
unfoldable pub shift_windows : ℕ → Map ℕ → Map ℕ
shift_windows count [] = []
shift_windows count ((id, index) ∷ rest) = (id, index - count) ∷ shift_windows count rest

pub record DownBatch : Type 0 where
  pub body : List ℕ
  pub cost : ℕ
  pub items : ℕ

-- takeDownBatchLocked, for a batch size of `bytes`.
unfoldable pub take_down_batch : ℕ → CarrierLane → CarrierLane × DownBatch
unfolding batch_count frames_body frames_cost forget_windows shift_windows window_index
take_down_batch bytes lane =
    let count = batch_count bytes 0 0 lane.pending_frames in
    let taken = take count lane.pending_frames in
    (
      record lane {
        pending_frames = drop count lane.pending_frames;
        pending_windows = shift_windows count (forget_windows lane.pending_windows 0 taken);
      },
      record { body = frames_body taken; cost = frames_cost taken; items = count },
    )

-- The frames of other streams, and those of the stream.
unfoldable pub frames_without : ℕ → List QueuedFrame → List QueuedFrame
frames_without id [] = []
frames_without id (q ∷ qs) =
    if q.stream_id == id then frames_without id qs else q ∷ frames_without id qs

unfoldable pub frames_of : ℕ → List QueuedFrame → List QueuedFrame
frames_of id [] = []
frames_of id (q ∷ qs) = if q.stream_id == id then q ∷ frames_of id qs else frames_of id qs

-- The last loop of dropPendingStreamFramesLocked: the indices of the WINDOW frames.
unfoldable pub index_windows : Map ℕ → ℕ → List QueuedFrame → Map ℕ
index_windows windows index [] = windows
index_windows windows index (q ∷ qs) =
    index_windows
      (if q.frame_type == frame_window then insert q.stream_id index windows else windows)
      (suc index) qs

-- dropPendingStreamFramesLocked
unfoldable pub drop_pending_stream_frames : Session → ℕ → Session
unfolding frames_without frames_of frames_cost index_windows release_pending put_lane
drop_pending_stream_frames s id = elim (lookup (lane_of s.carrier id) s.carrier_lanes) [
  | none ↦ s
  | some lane ↦
      let kept = frames_without id lane.pending_frames in
      let dropped = frames_of id lane.pending_frames in
      release_pending
        (put_lane s (lane_of s.carrier id)
          (record lane { pending_frames = kept; pending_windows = index_windows [] 0 kept }))
        (frames_cost dropped) (length dropped)
]

-- releaseCarrierLaneLocked
unfoldable pub release_carrier_lane : Session → ℕ → Session
unfolding frames_cost release_pending
release_carrier_lane s id = if id == 0 then s else elim (lookup id s.carrier_lanes) [
  | none ↦ s
  | some lane ↦
      release_pending (record s { carrier_lanes = remove id s.carrier_lanes })
        (lane.unacked_cost + frames_cost lane.pending_frames)
        (lane.unacked_items + length lane.pending_frames)
]

-- rememberClosedLocked
unfoldable pub remember_closed : Session → ℕ → Session
unfolding release_carrier_lane add
remember_closed s id =
    let added = add s.tombstones id in
    let remembered = record s { tombstones = added.0 } in
    if uses_lanes s.carrier
    then elim added.1 [ none ↦ remembered | some evicted ↦ release_carrier_lane remembered evicted ]
    else remembered

-- releaseStreamWritesLocked and `delete(s.streams, id)`, which follows at every call: the state is
-- then unreachable, so that its reset fields are not kept.
unfoldable pub drop_stream : Session → ℕ → StreamState → Session
unfolding release_pending
drop_stream s id state =
    let released = release_pending s state.pending_write_cost state.pending_write_items in
    record released { streams = remove id released.streams }
