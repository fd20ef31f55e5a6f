-- ===== src/WebProxy/Session/Accounts/Queueing.antt =====
-- webproxy/session.go: queueFrameLocked keeps the accounts.
use tel_ego_openwrt.Base.{
  ℕ, ◌+◌, List, [], ◌∷◌, ◌++◌, true, false, some, ltb, length, drop, set, get_elem?, ◌≡◌, refl, sym,
  ap, ◌∙◌, inl, inr, Bool-cases, Option-cases, arith, All, All-append, take, ◌<◌, ok, length-append,
  subst, Result-cases,
}
use tel_ego_openwrt.Base.Maps.{lookup, lookup-Each}
use tel_ego_openwrt.Base.Bytes.{put_be32}
use tel_ego_openwrt.WebProxy.Frame.{
  Frame, FrameType, frame_window, encode_frame, append_frame, frame_header, validate_frame_shape,
  frame_header_size,
}
use tel_ego_openwrt.WebProxy.Limits.{queue_item_cost}
use tel_ego_openwrt.WebProxy.Session.{Session, CarrierLane, QueuedFrame, PendingClass, downlink}
use tel_ego_openwrt.WebProxy.Session.Pending.{reserve_pending}
use tel_ego_openwrt.WebProxy.Session.Queue.{
  queue_frame, queue_on, queue_last, queue_new, append_queue, extend, coalesces, split_last,
  lane_of, put_lane, window_slot, class_of, delta_or_zero, put_uint32, max_uint32,
}
use tel_ego_openwrt.WebProxy.Session.Release.{frames_cost}
use tel_ego_openwrt.WebProxy.Session.Accounts.{
  Balanced, LaneOk, Framed, lane_cost, lane_items, keys, put_lane-Balanced,
  reserve_pending-Balanced, reserve_pending-refused, reserve_pending-lanes,
}
use tel_ego_openwrt.WebProxy.Session.Keys.{
  append_queue-LaneOk, lane_cost-append_queue, lane_items-append_queue, same_keys-LaneOk,
  split_last_lem, frames_cost-append, keys-append, keys-set, frames_cost-set, length-set,
  get_elem?-keys, All-set, All-front,
}

-- A reservation of a class, and the write of a lane that owes exactly what was reserved.
reserved-Balanced :
    (s : Session) (lane_id : ℕ) (lane new : CarrierLane) (cost items hc hi : ℕ)
    (class : PendingClass)
    → lookup lane_id s.carrier_lanes ≡ some lane
    → LaneOk new
    → lane_cost new ≡ lane_cost lane + cost
    → lane_items new ≡ lane_items lane + items
    → Balanced s hc hi
    → (reserve_pending s cost items class).1 ≡ true
    → Balanced (put_lane (reserve_pending s cost items class).0 lane_id new) hc hi
reserved-Balanced s lane_id lane new cost items hc hi class h w ec ei b r =
    put_lane-Balanced (reserve_pending s cost items class).0 lane_id lane new (hc + cost)
      (hi + items) hc hi (ap (lookup lane_id) (reserve_pending-lanes s cost items class) ∙ h) w
      (omega (arith, ec)) (omega (arith, ei))
      (reserve_pending-Balanced s hc hi cost items class b r)

refused-Balanced :
    (s : Session) (cost items hc hi : ℕ) (class : PendingClass)
    → Balanced s hc hi
    → (reserve_pending s cost items class).1 ≡ false
    → Balanced (reserve_pending s cost items class).0 hc hi
refused-Balanced s cost items hc hi class b r =
    subst (λ x. Balanced x hc hi) (sym (reserve_pending-refused s cost items class r)) b

length-put_uint32_pos : (bytes : List ℕ) (at n : ℕ) → 0 < length (put_uint32 bytes at n)
unfolding put_uint32 put_be32
length-put_uint32_pos bytes at n =
    let whole = length-append (take at bytes) (put_be32 n ++ drop (at + 4) bytes) in
    let back : length (put_be32 n ++ drop (at + 4) bytes) ≡ 4 + length (drop (at + 4) bytes) =
      omega arith in
    omega (arith, whole, back)

encode_frame-size :
    (f : Frame) (encoded : List ℕ) → encode_frame f ≡ ok encoded → 0 < length encoded
unfolding encode_frame append_frame frame_header
encode_frame-size f encoded h = elim (Result-cases (validate_frame_shape f)) [
  | inr (e, x) ↦ let g = rw x at h in absurd (cc)
  | inl (u, x) ↦
      let g = rw x at h in
      let e : frame_header f ++ f.payload ≡ encoded = cc in
      subst (λ bs. 0 < length bs) e (omega arith)
]

-- The lane with a payload behind its last frame's own.
abbrev extended : CarrierLane → List QueuedFrame → QueuedFrame → List ℕ → CarrierLane
extended lane front last payload = record lane {
  pending_frames = front ++ extend last payload ∷ [];
}

module _ (lane : CarrierLane) (front : List QueuedFrame) (last : QueuedFrame) (payload : List ℕ)
    (whole : front ++ last ∷ [] ≡ lane.pending_frames) where
  extended-LaneOk : LaneOk lane → LaneOk (extended lane front last payload)
  unfolding extend keys Framed
  extended-LaneOk w =
      same_keys-LaneOk lane (front ++ extend last payload ∷ [])
        (keys-append front (extend last payload ∷ [])
          ∙ sym (keys-append front (last ∷ []))
          ∙ ap keys whole)
        (All-append Framed front (extend last payload ∷ [])
          (All-front Framed front (last ∷ []) (subst (All Framed) (sym whole) w.framed)).0
          (length-put_uint32_pos (last.encoded ++ payload) 4 _, tt))
        w

  lane_cost-extended :
      lane_cost (extended lane front last payload) ≡ lane_cost lane + length payload
  unfolding extend lane_cost frames_cost
  lane_cost-extended =
      let before = ap frames_cost whole in
      let split = frames_cost-append front (last ∷ []) in
      let after = frames_cost-append front (extend last payload ∷ []) in
      omega (arith, before, split, after)

  lane_items-extended : lane_items (extended lane front last payload) ≡ lane_items lane + 0
  unfolding lane_items
  lane_items-extended =
      let before : length (front ++ last ∷ []) ≡ length lane.pending_frames = ap length whole in
      let split = length-append front (last ∷ []) in
      let after = length-append front (extend last payload ∷ []) in
      omega (arith, before, split, after)

window_slot_lem :
    (lane : CarrierLane) (t : FrameType) (id index : ℕ)
    → window_slot lane t id ≡ some index
    → lookup id lane.pending_windows ≡ some index
unfolding window_slot
window_slot_lem lane t id index h = ground arith

-- A frame in place of one of the same type, stream and cost.
merged-Balanced :
    (s : Session) (lane_id : ℕ) (lane : CarrierLane) (index : ℕ) (old new : QueuedFrame) (hc hi : ℕ)
    → lookup lane_id s.carrier_lanes ≡ some lane
    → get_elem? lane.pending_frames index ≡ some old
    → new.frame_type ≡ old.frame_type
    → new.stream_id ≡ old.stream_id
    → new.cost ≡ old.cost
    → Framed new
    → LaneOk lane
    → Balanced s hc hi
    → Balanced
        (put_lane s lane_id (record lane { pending_frames = set lane.pending_frames index new }))
        hc
        hi
unfolding lane_cost lane_items
merged-Balanced s lane_id lane index old new hc hi found at t d c n w b =
    let frames = set lane.pending_frames index new in
    let same = frames_cost-set lane.pending_frames index old new at c in
    let many = length-set lane.pending_frames index new in
    put_lane-Balanced s lane_id lane (record lane { pending_frames = frames }) hc hi hc hi found
      (same_keys-LaneOk lane frames (keys-set lane.pending_frames index old new at t d)
        (All-set Framed lane.pending_frames index new w.framed n) w)
      (omega (arith, same)) (omega (arith, many)) b

module _ (s : Session) (lane_id : ℕ) (lane : CarrierLane) (hc hi : ℕ)
    (found : lookup lane_id s.carrier_lanes ≡ some lane) (b : Balanced s hc hi) where
  lane-LaneOk : LaneOk lane
  lane-LaneOk = lookup-Each (λ _ l. LaneOk l) lane_id lane s.carrier_lanes b.windows found

  queue_new-Balanced :
      (t : FrameType) (id : ℕ) (payload : List ℕ)
      → Balanced (queue_new s lane_id lane t id payload).0 hc hi
  unfolding queue_new
  queue_new-Balanced t id payload =
      elim (Result-cases
        (encode_frame (record { frame_type = t; stream_id = id; payload = payload }))) [
          | inr (e, x) ↦ rw (queue_new, x) b
          | inl (encoded, x) ↦
              let cost = length encoded + queue_item_cost in
              elim (Bool-cases (reserve_pending s cost 1 (class_of t)).1) [
                | inl r ↦
                    rw (queue_new, x, r)
                      (reserved-Balanced s lane_id lane (append_queue lane t id encoded) cost 1 hc
                        hi (class_of t) found
                        (append_queue-LaneOk lane t id encoded (encode_frame-size _ encoded x)
                          lane-LaneOk)
                        (lane_cost-append_queue lane t id encoded)
                        (lane_items-append_queue lane t id encoded) b r)
                | inr r ↦ rw (queue_new, x, r) (refused-Balanced s cost 1 hc hi (class_of t) b r)
              ]
        ]

  queue_last-Balanced :
      (t : FrameType) (id : ℕ) (payload : List ℕ)
      → Balanced (queue_last s lane_id lane t id payload).0 hc hi
  unfolding queue_last
  queue_last-Balanced t id payload = elim (Option-cases (split_last lane.pending_frames)) [
    | inl x ↦ rw (queue_last, x) (queue_new-Balanced t id payload)
    | inr ((front, last), x) ↦ elim (Bool-cases (coalesces last t id payload)) [
      | inr c ↦ rw (queue_last, x, c) (queue_new-Balanced t id payload)
      | inl c ↦ elim (Bool-cases (reserve_pending s (length payload) 0 downlink).1) [
        | inr r ↦
            rw (queue_last, x, c, r) (refused-Balanced s (length payload) 0 hc hi downlink b r)
        | inl r ↦
            let whole = split_last_lem lane.pending_frames front last x in
            rw (queue_last, x, c, r)
              (reserved-Balanced s lane_id lane (extended lane front last payload) (length payload)
                0 hc hi downlink found (extended-LaneOk lane front last payload whole lane-LaneOk)
                (lane_cost-extended lane front last payload whole)
                (lane_items-extended lane front last payload whole) b r)
      ]
    ]
  ]

  queue_on-Balanced :
      (t : FrameType) (id : ℕ) (payload : List ℕ)
      → Balanced (queue_on s lane_id lane t id payload).0 hc hi
  unfolding queue_on Framed
  queue_on-Balanced t id payload = elim (Option-cases (window_slot lane t id)) [
    | inl x ↦ rw (queue_on, x) (queue_last-Balanced t id payload)
    | inr (index, x) ↦
        let key = lane-LaneOk.indexed id index (window_slot_lem lane t id index x) in
        let (queued, q) = get_elem?-keys lane.pending_frames index (frame_window, id) key in
        let old = delta_or_zero (drop frame_header_size queued.encoded) in
        let sum = old + delta_or_zero payload in
        elim (Bool-cases (ltb max_uint32 sum)) [
          | inl o ↦ rw (queue_on, x, q, o) (queue_last-Balanced t id payload)
          | inr o ↦
              rw (queue_on, x, q, o)
                (merged-Balanced s lane_id lane index queued
                  (record queued { encoded = put_uint32 queued.encoded frame_header_size sum }) hc
                  hi found q refl refl refl
                  (length-put_uint32_pos queued.encoded frame_header_size sum) lane-LaneOk b)
        ]
  ]

-- On a balanced session, queueFrameLocked leaves the session balanced with the same held, and
-- without a panic, for every frame: where it merges a WINDOW, extends a DATA frame, appends, or
-- refuses. In particular the entry of pendingWindows that it reads is the index of a queued WINDOW
-- frame.
pub queue_frame-Balanced :
    (s : Session) (t : FrameType) (id : ℕ) (payload : List ℕ) (hc hi : ℕ)
    → Balanced s hc hi
    → Balanced (queue_frame s t id payload).0 hc hi
unfolding queue_frame
queue_frame-Balanced s t id payload hc hi b =
    elim (Option-cases (lookup (lane_of s.carrier id) s.carrier_lanes)) [
      | inl x ↦ rw (queue_frame, x) b
      | inr (lane, x) ↦
          rw (queue_frame, x)
            (queue_on-Balanced s (lane_of s.carrier id) lane hc hi x b t id payload)
    ]
