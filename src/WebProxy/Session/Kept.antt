-- ===== src/WebProxy/Session/Kept.antt =====
-- webproxy/session.go: the fields that the queues and the budget leave alone.
use tel_ego_openwrt.Base.{
  ℕ, ◌+◌, List, [], ◌∷◌, ◌++◌, Bool, true, false, ◌&&◌, ◌||◌, ltb, ◌==◌, if◌then◌else◌, length,
  drop, get_elem?, ◌≡◌, refl, ◌∙◌, inl, inr, Bool-cases, Option-cases, Result-cases,
}
use tel_ego_openwrt.Base.Maps.{lookup, remove}
use tel_ego_openwrt.WebProxy.Frame.{FrameType, encode_frame, frame_header_size}
use tel_ego_openwrt.WebProxy.BoundedSet.{add}
use tel_ego_openwrt.WebProxy.Limits.{queue_item_cost}
use tel_ego_openwrt.WebProxy.Session.{Session, CarrierLane, PendingClass, downlink, uses_lanes}
use tel_ego_openwrt.WebProxy.Session.Pending.{
  reserve_pending, release_pending, charge, discharge, refund_global, admit,
}
use tel_ego_openwrt.WebProxy.Session.Queue.{
  queue_frame, queue_on, queue_last, queue_new, append_queue, extend, coalesces, split_last,
  lane_of, put_lane, window_slot, class_of, delta_or_zero, max_uint32,
}
use tel_ego_openwrt.WebProxy.Session.Release.{
  frames_cost, frames_of, frames_without, index_windows, drop_pending_stream_frames,
  release_carrier_lane, remember_closed,
}

-- The second session has the first one's streams, stream history, limits, carrier and end.
pub record Kept (s t : Session) : Type 0 where
  pub same_closed : t.closed ≡ s.closed
  pub same_streams : t.streams ≡ s.streams
  pub same_used : t.used_streams ≡ s.used_streams
  pub same_carrier : t.carrier ≡ s.carrier
  pub same_limits : t.limits ≡ s.limits

pub keeps :
    (s t : Session)
    → t.closed ≡ s.closed
    → t.streams ≡ s.streams
    → t.used_streams ≡ s.used_streams
    → t.carrier ≡ s.carrier
    → t.limits ≡ s.limits
    → Kept s t
keeps s t c i u m l = record {
  same_closed = c;
  same_streams = i;
  same_used = u;
  same_carrier = m;
  same_limits = l;
}

pub Kept-refl : (s : Session) → Kept s s
Kept-refl s = keeps s s refl refl refl refl refl

pub Kept-trans : (s t u : Session) → Kept s t → Kept t u → Kept s u
Kept-trans s t u k l = record {
  same_closed = l.same_closed ∙ k.same_closed;
  same_streams = l.same_streams ∙ k.same_streams;
  same_used = l.same_used ∙ k.same_used;
  same_carrier = l.same_carrier ∙ k.same_carrier;
  same_limits = l.same_limits ∙ k.same_limits;
}

if-Kept {ℓ} :
    {A : Type ℓ} (s : Session) (c : Bool) (x y : Session × A)
    → Kept s x.0
    → Kept s y.0
    → Kept s (if c then x else y).0
if-Kept s true x y p q = p
if-Kept s false x y p q = q

pub reserve_pending-Kept :
    (s : Session) (cost items : ℕ) (class : PendingClass)
    → Kept s (reserve_pending s cost items class).0
unfolding reserve_pending charge
reserve_pending-Kept s cost items class = elim (Bool-cases (cost == 0 && items == 0)) [
  | inl z ↦ rw (reserve_pending, z) (Kept-refl s)
  | inr z ↦ elim (Option-cases (admit s cost items class)) [
    | inl a ↦ rw (reserve_pending, z, a) (Kept-refl s)
    | inr (g, a) ↦ rw (reserve_pending, z, a) (keeps s _ refl refl refl refl refl)
  ]
]

pub release_pending-Kept : (s : Session) (cost items : ℕ) → Kept s (release_pending s cost items)
unfolding release_pending discharge
release_pending-Kept s cost items = elim (Bool-cases (cost == 0 && items == 0)) [
  | inl z ↦ rw (release_pending, z) (Kept-refl s)
  | inr z ↦ elim (Bool-cases (ltb s.pending_cost cost || ltb s.pending_items items)) [
    | inl o ↦ rw (release_pending, z, o) (keeps s _ refl refl refl refl refl)
    | inr o ↦ elim (Option-cases (refund_global s.global cost items)) [
      | inl a ↦ rw (release_pending, z, o, a) (keeps s _ refl refl refl refl refl)
      | inr (g, a) ↦ rw (release_pending, z, o, a) (keeps s _ refl refl refl refl refl)
    ]
  ]
]

-- A release leaves the lanes.
pub release_pending-lanes :
    (s : Session) (cost items : ℕ) → (release_pending s cost items).carrier_lanes ≡ s.carrier_lanes
unfolding release_pending discharge
release_pending-lanes s cost items = elim (Bool-cases (cost == 0 && items == 0)) [
  | inl z ↦ rw (release_pending, z) refl
  | inr z ↦ elim (Bool-cases (ltb s.pending_cost cost || ltb s.pending_items items)) [
    | inl o ↦ rw (release_pending, z, o) refl
    | inr o ↦ elim (Option-cases (refund_global s.global cost items)) [
      | inl a ↦ rw (release_pending, z, o, a) refl
      | inr (g, a) ↦ rw (release_pending, z, o, a) refl
    ]
  ]
]

pub put_lane-Kept : (s : Session) (id : ℕ) (lane : CarrierLane) → Kept s (put_lane s id lane)
unfolding put_lane
put_lane-Kept s id lane = keeps s (put_lane s id lane) refl refl refl refl refl

reserved_lane-Kept :
    (s : Session) (lane_id : ℕ) (lane : CarrierLane) (cost items : ℕ) (class : PendingClass)
    → Kept s
        (if◌then◌else◌ {A = Session × Bool}
          (reserve_pending s cost items class).1
          (put_lane (reserve_pending s cost items class).0 lane_id lane, true)
          ((reserve_pending s cost items class).0, false)).0
reserved_lane-Kept s lane_id lane cost items class =
    let r = (reserve_pending s cost items class).0 in
    let k = reserve_pending-Kept s cost items class in
    if-Kept s (reserve_pending s cost items class).1 (put_lane r lane_id lane, true) (r, false)
      (Kept-trans s r (put_lane r lane_id lane) k (put_lane-Kept r lane_id lane)) k

module _ (s : Session) (lane_id : ℕ) (lane : CarrierLane) (t : FrameType) (id : ℕ)
    (payload : List ℕ) where
  queue_new-Kept : Kept s (queue_new s lane_id lane t id payload).0
  unfolding queue_new
  queue_new-Kept =
      elim (Result-cases
        (encode_frame (record { frame_type = t; stream_id = id; payload = payload }))) [
          | inr (e, x) ↦ rw (queue_new, x) (Kept-refl s)
          | inl (encoded, x) ↦
              rw (queue_new, x)
                (reserved_lane-Kept s lane_id (append_queue lane t id encoded)
                  (length encoded + queue_item_cost) 1 (class_of t))
        ]

  queue_last-Kept : Kept s (queue_last s lane_id lane t id payload).0
  unfolding queue_last
  queue_last-Kept = elim (Option-cases (split_last lane.pending_frames)) [
    | inl x ↦ rw (queue_last, x) queue_new-Kept
    | inr ((front, last), x) ↦ elim (Bool-cases (coalesces last t id payload)) [
      | inr c ↦ rw (queue_last, x, c) queue_new-Kept
      | inl c ↦
          rw (queue_last, x, c)
            (reserved_lane-Kept s lane_id
              (record lane { pending_frames = front ++ extend last payload ∷ [] }) (length payload)
              0 downlink)
    ]
  ]

  queue_on-Kept : Kept s (queue_on s lane_id lane t id payload).0
  unfolding queue_on
  queue_on-Kept = elim (Option-cases (window_slot lane t id)) [
    | inl x ↦ rw (queue_on, x) queue_last-Kept
    | inr (index, x) ↦ elim (Option-cases (get_elem? lane.pending_frames index)) [
      | inl y ↦ rw (queue_on, x, y) (keeps s _ refl refl refl refl refl)
      | inr (queued, y) ↦
          let sum = delta_or_zero (drop frame_header_size queued.encoded) + delta_or_zero payload in
          elim (Bool-cases (ltb max_uint32 sum)) [
            | inl o ↦ rw (queue_on, x, y, o) queue_last-Kept
            | inr o ↦ rw (queue_on, x, y, o) (put_lane-Kept s lane_id _)
          ]
    ]
  ]

pub queue_frame-Kept :
    (s : Session) (t : FrameType) (id : ℕ) (payload : List ℕ)
    → Kept s (queue_frame s t id payload).0
unfolding queue_frame
queue_frame-Kept s t id payload =
    elim (Option-cases (lookup (lane_of s.carrier id) s.carrier_lanes)) [
      | inl x ↦ rw (queue_frame, x) (Kept-refl s)
      | inr (lane, x) ↦
          rw (queue_frame, x) (queue_on-Kept s (lane_of s.carrier id) lane t id payload)
    ]

pub drop_pending_stream_frames-Kept :
    (s : Session) (id : ℕ) → Kept s (drop_pending_stream_frames s id)
unfolding drop_pending_stream_frames
drop_pending_stream_frames-Kept s id =
    elim (Option-cases (lookup (lane_of s.carrier id) s.carrier_lanes)) [
      | inl x ↦ rw (drop_pending_stream_frames, x) (Kept-refl s)
      | inr (lane, x) ↦
          let kept = frames_without id lane.pending_frames in
          let dropped = frames_of id lane.pending_frames in
          let put =
            put_lane s (lane_of s.carrier id)
              (record lane { pending_frames = kept; pending_windows = index_windows [] 0 kept }) in
          rw (drop_pending_stream_frames, x)
            (Kept-trans s put _ (put_lane-Kept s (lane_of s.carrier id) _)
              (release_pending-Kept put (frames_cost dropped) (length dropped)))
    ]

pub release_carrier_lane-Kept : (s : Session) (id : ℕ) → Kept s (release_carrier_lane s id)
unfolding release_carrier_lane
release_carrier_lane-Kept s id = elim (Bool-cases (id == 0)) [
  | inl z ↦ rw (release_carrier_lane, z) (Kept-refl s)
  | inr z ↦ elim (Option-cases (lookup id s.carrier_lanes)) [
    | inl x ↦ rw (release_carrier_lane, z, x) (Kept-refl s)
    | inr (lane, x) ↦
        let without = record s { carrier_lanes = remove id s.carrier_lanes } in
        let r =
          release_pending-Kept without (lane.unacked_cost + frames_cost lane.pending_frames)
            (lane.unacked_items + length lane.pending_frames) in
        rw (release_carrier_lane, z, x)
          (record {
            same_closed = r.same_closed;
            same_streams = r.same_streams;
            same_used = r.same_used;
            same_carrier = r.same_carrier;
            same_limits = r.same_limits;
          })
  ]
]

pub remember_closed-Kept : (s : Session) (id : ℕ) → Kept s (remember_closed s id)
unfolding remember_closed
remember_closed-Kept s id =
    let added = add s.tombstones id in
    let remembered = record s { tombstones = added.0 } in
    let kept = keeps s remembered refl refl refl refl refl in
    elim (Bool-cases (uses_lanes s.carrier)) [
      | inr n ↦ rw (remember_closed, n) kept
      | inl y ↦ elim (Option-cases added.1) [
        | inl x ↦ rw (remember_closed, y, x) kept
        | inr (evicted, x) ↦
            rw (remember_closed, y, x)
              (Kept-trans s remembered _ kept (release_carrier_lane-Kept remembered evicted))
      ]
    ]
