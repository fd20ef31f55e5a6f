-- ===== src/WebProxy/Session/Carrier/Admission.antt =====
-- webproxy/session.go: the first critical section of processUp, and the frames that its parser gives.
use tel_ego_openwrt.Base.{
  ℕ, ◌+◌, ◌%◌, ◌^◌, List, [], ◌∷◌, Bool, true, false, not, ◌&&◌, ◌||◌, Option, none, some, ltb,
  ◌==◌, if◌then◌else◌, length, All, ◌≡◌, refl, subst, ◌∙◌, inl, inr, Bool-cases, Option-cases,
  ==_iff, arith, ok, Result-cases,
}
use tel_ego_openwrt.Base.Maps.{
  lookup, insert-Unique, insert-Each, total-insert_new, lookup-insert_here,
}
use tel_ego_openwrt.WebProxy.Frame.{
  Frame, frame_hello, parse_batch, validate_client_frame, validate_frame, validate_frame_shape,
}
use tel_ego_openwrt.WebProxy.Frame.Bounds.{validate_frame_shape_bounds}
use tel_ego_openwrt.WebProxy.Session.{Session, CarrierLane, new_carrier_lane}
use tel_ego_openwrt.WebProxy.Session.Queue.{put_lane}
use tel_ego_openwrt.WebProxy.Session.Release.{frames_cost}
use tel_ego_openwrt.WebProxy.Session.Kept.{put_lane-Kept}
use tel_ego_openwrt.WebProxy.Session.Batch.Agreement.{InRange}
use tel_ego_openwrt.WebProxy.Session.Carrier.{
  err_protocol, err_closed, err_backpressure, accepted, refused, proceed, laneless, mismatched,
  begin_on, begin_new, begin_open, begin_up, add_lane, lane_protocol_failure, same_bytes, is_lane,
  batch_starts_with_open, parse_uplink_batch, check_uplink,
}
use tel_ego_openwrt.WebProxy.Session.Carrier.Failures.{
  lane_protocol_failure-Balanced, lane_fields-Balanced,
}
use tel_ego_openwrt.WebProxy.Session.Carrier.Uplink.{Held}
use tel_ego_openwrt.WebProxy.Session.Accounts.{
  Balanced, LaneOk, lane_cost, lane_items, charged_cost, charged_items,
}
use tel_ego_openwrt.WebProxy.Session.Accounts.Closing.{held, still_open}

validate_client_frame-InRange : (f : Frame) → validate_client_frame f ≡ ok tt → InRange f
unfolding validate_client_frame validate_frame InRange
validate_client_frame-InRange f h = elim (Result-cases (validate_frame_shape f)) [
  | inr (e, x) ↦ elim (Bool-cases (f.frame_type == frame_hello)) [
    | inl y ↦ let g = rw (validate_client_frame, y) at h in absurd (cc)
    | inr n ↦ let g = rw (validate_client_frame, n, validate_frame, x) at h in absurd (cc)
  ]
  | inl (u, x) ↦ let (s, p) = validate_frame_shape_bounds f x in (omega arith, omega arith)
]

check_uplink-InRange :
    (id : ℕ) (lanes : Bool) (fs : List Frame) → check_uplink id lanes fs ≡ ok tt → All InRange fs
unfolding check_uplink
check_uplink-InRange id lanes [] h = tt
check_uplink-InRange id lanes (f ∷ fs) h = elim (Bool-cases (lanes && not (f.stream_id == id))) [
  | inl y ↦ let g = rw (check_uplink, y) at h in absurd (cc)
  | inr n ↦ elim (Result-cases (validate_client_frame f)) [
    | inr (e, x) ↦ let g = rw (check_uplink, n, x) at h in absurd (cc)
    | inl (u, x) ↦
        let g = rw (check_uplink, n, x) at h in
        (validate_client_frame-InRange f x, check_uplink-InRange id lanes fs g)
  ]
]

-- The frames that the parser of an uplink batch gives have a 24-bit stream and a 32-bit size.
pub parse_uplink_batch-InRange :
    (body : List ℕ) (id : ℕ) (lanes : Bool) (frames : List Frame)
    → parse_uplink_batch body id lanes ≡ ok frames
    → All InRange frames
unfolding parse_uplink_batch
parse_uplink_batch-InRange body id lanes frames h = elim (Result-cases (parse_batch body)) [
  | inr (e, x) ↦ let g = rw (parse_uplink_batch, x) at h in absurd (cc)
  | inl (fs, x) ↦ elim (Result-cases (check_uplink id lanes fs)) [
    | inr (e, y) ↦ let g = rw (parse_uplink_batch, x, y) at h in absurd (cc)
    | inl (u, y) ↦
        let g = rw (parse_uplink_batch, x, y) at h in
        let same : fs ≡ frames = cc in subst (All InRange) same (check_uplink-InRange id lanes fs y)
  ]
]

if-Held {ℓ} :
    {A : Type ℓ} (c : Bool) (x y : Session × A) (hc hi : ℕ)
    → Held x.0 hc hi
    → Held y.0 hc hi
    → Held (if c then x else y).0 hc hi
if-Held true x y hc hi p q = p
if-Held false x y hc hi p q = q

new_lane-LaneOk : (serial : ℕ) → LaneOk (new_carrier_lane serial)
unfolding new_carrier_lane
new_lane-LaneOk serial = record {
  indexed = λ j i h. absurd (cc);
  framed = tt;
  acked = λ _. (refl, refl);
}

pub add_lane-Balanced :
    (s : Session) (id hc hi : ℕ)
    → lookup id s.carrier_lanes ≡ none
    → Balanced s hc hi
    → Balanced (add_lane s id) hc hi
unfolding add_lane charged_cost charged_items lane_cost lane_items new_carrier_lane frames_cost
add_lane-Balanced s id hc hi h b =
    let new = new_carrier_lane s.allocated in
    let tc = total-insert_new lane_cost id new s.carrier_lanes h in
    let ti = total-insert_new lane_items id new s.carrier_lanes h in
    record {
      cost_balance = omega (arith, b.cost_balance, tc);
      items_balance = omega (arith, b.items_balance, ti);
      lanes_once = insert-Unique id new s.carrier_lanes b.lanes_once;
      streams_once = b.streams_once;
      windows =
          insert-Each (λ _ l. LaneOk l) id new s.carrier_lanes b.windows
            (new_lane-LaneOk s.allocated);
      flows = b.flows;
      global_cost = b.global_cost;
      global_items = b.global_items;
      no_panic = b.no_panic;
    }

begin_on-Balanced :
    (s : Session) (id : ℕ) (lane : CarrierLane) (sequence : ℕ) (sum : List ℕ) (expected : Option ℕ)
    (hc hi : ℕ)
    → lookup id s.carrier_lanes ≡ some lane
    → s.closed ≡ false
    → Balanced s hc hi
    → Held (begin_on s id lane sequence sum expected).0 hc hi
unfolding begin_on Held
begin_on-Balanced s id lane sequence sum expected hc hi found alive b =
    let same = still_open s hc hi alive b in
    let fails = lane_protocol_failure-Balanced s id expected hc hi alive b in
    let new = record lane { up_active = true } in
    if-Held (sequence == lane.last_up_sequence) _ _ hc hi
      (if-Held (same_bytes sum lane.last_up_digest) (s, accepted sequence) (s, mismatched) hc hi
        same same)
      (if-Held (not (sequence == (lane.last_up_sequence + 1) % 2 ^ 64))
        (lane_protocol_failure s id expected, refused err_protocol) _ hc hi fails
        (if-Held lane.up_active (s, refused err_backpressure)
          (put_lane s id new, proceed lane.serial) hc hi same
          (still_open (put_lane s id new) hc hi ((put_lane-Kept s id new).same_closed ∙ alive)
            (lane_fields-Balanced s id lane new hc hi found refl refl refl (refl, refl) b))))

module _ (digest : List ℕ → List ℕ) (s : Session) (id sequence : ℕ) (body : List ℕ) (lanes : Bool)
    (hc hi : ℕ) (alive : s.closed ≡ false) (b : Balanced s hc hi) where
  begin_new-Balanced :
      lookup id s.carrier_lanes ≡ none → Held (begin_new digest s id sequence body lanes).0 hc hi
  unfolding begin_new add_lane Held
  begin_new-Balanced x =
      let new = new_carrier_lane s.allocated in
      if-Held (not lanes || (id == 0 || not (batch_starts_with_open body id))) (s, laneless)
        (begin_on (add_lane s id) id new sequence (digest body) none) hc hi
        (still_open s hc hi alive b)
        (begin_on-Balanced (add_lane s id) id new sequence (digest body) none hc hi
          (lookup-insert_here id id new s.carrier_lanes ((==_iff id id).1 refl)) alive
          (add_lane-Balanced s id hc hi x b))

  begin_gone-Balanced :
      (expected : Option ℕ)
      → lookup id s.carrier_lanes ≡ none
      → Held (begin_open digest s id sequence body lanes expected).0 hc hi
  unfolding begin_open Held
  begin_gone-Balanced (some serial) x = rw (begin_open, x) (still_open s hc hi alive b)
  begin_gone-Balanced none x =
      rw (begin_open, x)
        (if-Held (sequence == 0 || ltb s.limits.max_body_bytes (length body))
          (lane_protocol_failure s id none, refused err_protocol)
          (begin_new digest s id sequence body lanes) hc hi
          (lane_protocol_failure-Balanced s id none hc hi alive b) (begin_new-Balanced x))

  -- On an open, balanced session, the first critical section of processUp leaves the session
  -- balanced and without a panic, whatever the lane, the sequence and the body, and whatever it
  -- answers. What was held beside stays held, or is given up where the session ends.
  pub begin_up-Balanced :
      (expected : Option ℕ)
      → Balanced
          (begin_up digest s id sequence body lanes expected).0
          (held (begin_up digest s id sequence body lanes expected).0 hc)
          (held (begin_up digest s id sequence body lanes expected).0 hi)
  unfolding begin_up Held
  begin_up-Balanced expected =
      if-Held s.closed (s, refused err_closed) (begin_open digest s id sequence body lanes expected)
        hc hi (still_open s hc hi alive b)
        (elim (Option-cases (lookup id s.carrier_lanes)) [
          | inl x ↦ begin_gone-Balanced expected x
          | inr (lane, x) ↦
              rw (begin_open, x)
                (if-Held (not (is_lane lane expected)) (s, refused err_closed) _ hc hi
                  (still_open s hc hi alive b)
                  (if-Held (sequence == 0 || ltb s.limits.max_body_bytes (length body))
                    (lane_protocol_failure s id expected, refused err_protocol)
                    (begin_on s id lane sequence (digest body) expected) hc hi
                    (lane_protocol_failure-Balanced s id expected hc hi alive b)
                    (begin_on-Balanced s id lane sequence (digest body) expected hc hi x alive b)))
        ])
