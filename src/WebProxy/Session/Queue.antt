-- ===== src/WebProxy/Session/Queue.antt =====
-- webproxy/session.go: the frames that wait on a lane for the carrier, and their release.
use tel_ego_openwrt.Base.{
  ℕ, ◌+◌, ◌-◌, ◌^◌, List, [], ◌∷◌, ◌++◌, Bool, true, false, not, ◌&&◌, Option, none, some, ltb,
  ◌==◌, if◌then◌else◌, length, take, drop, get_elem?, set, ok, err,
}
use tel_ego_openwrt.Base.Bytes.{put_be32}
use tel_ego_openwrt.Base.Maps.{lookup, insert}
use tel_ego_openwrt.WebProxy.Frame.{
  FrameType, frame_data, frame_window, frame_header_size, max_frame_payload, encode_frame,
  window_delta,
}
use tel_ego_openwrt.WebProxy.Limits.{queue_item_cost}
use tel_ego_openwrt.WebProxy.Session.{
  Session, CarrierLane, QueuedFrame, PendingClass, downlink, control, uses_lanes, CarrierMode,
}
use tel_ego_openwrt.WebProxy.Session.Pending.{reserve_pending}

-- math.MaxUint32
abbrev pub max_uint32 : ℕ
max_uint32 = 2 ^ 32 - 1

-- The lane of a stream.
unfoldable pub lane_of : CarrierMode → ℕ → ℕ
lane_of carrier id = if uses_lanes carrier then id else 0

unfoldable pub put_lane : Session → ℕ → CarrierLane → Session
put_lane s id lane = record s { carrier_lanes = insert id lane s.carrier_lanes }

-- `delta, _ := WindowDelta(payload)`
unfoldable pub delta_or_zero : List ℕ → ℕ
delta_or_zero payload = elim (window_delta payload) [ err e ↦ 0 | ok delta ↦ delta ]

-- The four bytes from `at` on, overwritten (binary.BigEndian.PutUint32).
unfoldable pub put_uint32 : List ℕ → ℕ → ℕ → List ℕ
unfolding put_be32
put_uint32 bytes at n = take at bytes ++ (put_be32 n ++ drop (at + 4) bytes)

-- A list before its last element, and that element.
unfoldable pub split_last {ℓ} : {A : Type ℓ} → List A → Option (List A × A)
split_last [] = none
split_last (q ∷ qs) = elim (split_last qs) [
  | none ↦ some ([], q)
  | some (front, last) ↦ some (q ∷ front, last)
]

-- The end of queueFrameLocked: a frame of its own.
unfoldable pub append_queue : CarrierLane → FrameType → ℕ → List ℕ → CarrierLane
append_queue lane t id encoded =
    let queued : QueuedFrame = record {
      encoded = encoded;
      frame_type = t;
      stream_id = id;
      cost = length encoded + queue_item_cost;
    } in
    record lane {
      pending_frames = lane.pending_frames ++ queued ∷ [];
      pending_windows =
          if t == frame_window
          then insert id (length lane.pending_frames) lane.pending_windows
          else lane.pending_windows;
    }

unfoldable pub class_of : FrameType → PendingClass
class_of t = if t == frame_data then downlink else control

unfoldable pub queue_new : Session → ℕ → CarrierLane → FrameType → ℕ → List ℕ → Session × Bool
queue_new s lane_id lane t id payload =
    elim (encode_frame (record { frame_type = t; stream_id = id; payload = payload })) [
      | err e ↦ (s, false)
      | ok encoded ↦
          let reserved = reserve_pending s (length encoded + queue_item_cost) 1 (class_of t) in
          if reserved.1
          then (put_lane reserved.0 lane_id (append_queue lane t id encoded), true)
          else (reserved.0, false)
    ]

-- The last frame, with the payload of a DATA frame of the same stream behind its own.
unfoldable pub extend : QueuedFrame → List ℕ → QueuedFrame
extend last payload =
    let encoded = last.encoded ++ payload in
    record last {
      encoded = put_uint32 encoded 4 (length encoded - frame_header_size);
      cost = last.cost + length payload;
    }

unfoldable pub coalesces : QueuedFrame → FrameType → ℕ → List ℕ → Bool
coalesces last t id payload =
    last.frame_type == frame_data
    && (t == frame_data
        && (last.stream_id == id
            && not
                (ltb max_frame_payload (length last.encoded - frame_header_size + length payload))))

unfoldable pub queue_last : Session → ℕ → CarrierLane → FrameType → ℕ → List ℕ → Session × Bool
unfolding queue_new extend coalesces
queue_last s lane_id lane t id payload = elim (split_last lane.pending_frames) [
  | none ↦ queue_new s lane_id lane t id payload
  | some (front, last) ↦
      let reserved = reserve_pending s (length payload) 0 downlink in
      let extended = record lane { pending_frames = front ++ extend last payload ∷ [] } in
      if not (coalesces last t id payload)
      then queue_new s lane_id lane t id payload
      else if reserved.1
      then (put_lane reserved.0 lane_id extended, true)
      else (reserved.0, false)
]

-- The queued WINDOW frame that takes up the delta of a further one.
unfoldable pub window_slot : CarrierLane → FrameType → ℕ → Option ℕ
window_slot lane t id = if t == frame_window then lookup id lane.pending_windows else none

unfoldable pub queue_on : Session → ℕ → CarrierLane → FrameType → ℕ → List ℕ → Session × Bool
unfolding queue_last window_slot delta_or_zero put_uint32
queue_on s lane_id lane t id payload = elim (window_slot lane t id) [
  | none ↦ queue_last s lane_id lane t id payload
  | some index ↦ elim (get_elem? lane.pending_frames index) [
    | none ↦ (record s { panicked = true }, false)
    | some queued ↦
        let sum = delta_or_zero (drop frame_header_size queued.encoded) + delta_or_zero payload in
        if ltb max_uint32 sum then queue_last s lane_id lane t id payload else (
          put_lane s lane_id (record lane {
            pending_frames =
                set lane.pending_frames index
                  (record queued { encoded = put_uint32 queued.encoded frame_header_size sum });
          }),
          true,
        )
  ]
]

-- queueFrameLocked
unfoldable pub queue_frame : Session → FrameType → ℕ → List ℕ → Session × Bool
unfolding queue_on
queue_frame s t id payload = elim (lookup (lane_of s.carrier id) s.carrier_lanes) [
  | none ↦ (s, false)
  | some lane ↦ queue_on s (lane_of s.carrier id) lane t id payload
]
