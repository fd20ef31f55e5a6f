-- ===== src/WebProxy/Session/Carrier/Endings.antt =====
-- webproxy/session.go: which answers of processUp end the session, and what the proofs for it and for
-- pollCarrier share.
use tel_ego_openwrt.Base.{
  ℕ, ◌+◌, ◌%◌, ◌^◌, List, Bool, true, false, not, ◌&&◌, ◌||◌, Option, none, some, ltb, ◌==◌,
  if◌then◌else◌, length, ◌≡◌, refl, ◌∙◌, inl, inr, Bool-cases, Option-cases, Result, ok, err, arith,
}
use tel_ego_openwrt.Base.Maps.{lookup}
use tel_ego_openwrt.WebProxy.Frame.{Frame, FrameError}
use tel_ego_openwrt.WebProxy.Session.{Session, CarrierLane, by_protocol, new_carrier_lane}
use tel_ego_openwrt.WebProxy.Session.Queue.{put_lane}
use tel_ego_openwrt.WebProxy.Session.Kept.{put_lane-Kept}
use tel_ego_openwrt.WebProxy.Session.Carrier.{
  CarrierError, err_closed, err_protocol, err_backpressure, UpBegin, accepted, refused, proceed,
  laneless, mismatched, begin_on, begin_new, begin_open, begin_up, add_lane, fail_up, finish_late,
  is_lane, is_websocket_lanes, lane_protocol_failure, only_late_lane_frames, same_bytes,
  batch_starts_with_open,
}
use tel_ego_openwrt.WebProxy.Session.Poll.{PollAnswer, failed}
use tel_ego_openwrt.WebProxy.Session.Accounts.{Balanced}
use tel_ego_openwrt.WebProxy.Session.Accounts.Closing.{close_session-closed}
use tel_ego_openwrt.WebProxy.Session.Carrier.Failures.{release_websocket_lane-Balanced}
use tel_ego_openwrt.WebProxy.Session.Carrier.Admission.{add_lane-Balanced}

is_violation : CarrierError → Bool
is_violation err_protocol = true
is_violation _ = false

-- The answers that report ErrProtocol.
unfoldable pub poll_violation : PollAnswer → Bool
unfolding is_violation
poll_violation (failed e) = is_violation e
poll_violation _ = false

unfoldable pub begin_violation : UpBegin → Bool
unfolding is_violation
begin_violation (refused e) = is_violation e
begin_violation _ = false

unfoldable pub up_violation : Result CarrierError ℕ → Bool
unfolding is_violation
up_violation (ok n) = false
up_violation (err e) = is_violation e

-- The session has ended where the answer is bad, and only there; and never on websocket-lanes.
unfoldable pub EndsOn {ℓ} : {A : Type ℓ} → Session → (A → Bool) → Session × A → Type 0
EndsOn s bad r = r.0.closed ≡ (not (is_websocket_lanes s.carrier) && bad r.1)

pub if-EndsOn {ℓ} :
    {A : Type ℓ} (s : Session) (bad : A → Bool) (c : Bool) (x y : Session × A)
    → EndsOn s bad x
    → EndsOn s bad y
    → EndsOn s bad (if c then x else y)
if-EndsOn s bad true x y p q = p
if-EndsOn s bad false x y p q = q

-- A good answer of a session that is open.
pub stays {ℓ} :
    {A : Type ℓ} (s : Session) (bad : A → Bool) (r : Session × A)
    → bad r.1 ≡ false
    → r.0.closed ≡ false
    → EndsOn s bad r
unfolding EndsOn
stays s bad r good alive = elim (Bool-cases (is_websocket_lanes s.carrier)) [
  | inl y ↦ ground arith
  | inr n ↦ ground arith
]

module _ (s : Session) (id : ℕ) (expected : Option ℕ) (hc hi : ℕ) (alive : s.closed ≡ false)
    (b : Balanced s hc hi) where
  -- A protocol failure ends the session on every carrier but websocket-lanes.
  pub fails {ℓ} :
      {A : Type ℓ} (bad : A → Bool) (a : A)
      → bad a ≡ true
      → EndsOn s bad (lane_protocol_failure s id expected, a)
  unfolding lane_protocol_failure EndsOn
  fails bad a h = elim (Bool-cases (is_websocket_lanes s.carrier)) [
    | inl y ↦
        rw (lane_protocol_failure, y)
          ((release_websocket_lane-Balanced s id expected hc hi b).1 ∙ alive)
    | inr n ↦ rw (lane_protocol_failure, n, h) (close_session-closed s by_protocol hc hi alive b)
  ]

  pub finish_late_ends :
      (sequence : ℕ) (lanes : Bool) (parsed : Result FrameError (List Frame))
      → (finish_late s id sequence lanes parsed expected).0.closed ≡ (
          not (is_websocket_lanes s.carrier)
          && up_violation (finish_late s id sequence lanes parsed expected).1)
  unfolding finish_late fail_up up_violation EndsOn
  finish_late_ends sequence lanes (err e) = fails up_violation (err err_protocol) refl
  finish_late_ends sequence lanes (ok frames) =
      if-EndsOn s up_violation (lanes && only_late_lane_frames frames) (s, ok sequence)
        (fail_up s id expected) (stays s up_violation (s, ok sequence) refl alive)
        (fails up_violation (err err_protocol) refl)

begin_on_ends :
    (s : Session) (id : ℕ) (lane : CarrierLane) (sequence : ℕ) (sum : List ℕ) (expected : Option ℕ)
    (hc hi : ℕ)
    → s.closed ≡ false
    → Balanced s hc hi
    → EndsOn s begin_violation (begin_on s id lane sequence sum expected)
unfolding begin_on begin_violation
begin_on_ends s id lane sequence sum expected hc hi alive b =
    let bad = begin_violation in
    let new = record lane { up_active = true } in
    if-EndsOn s bad (sequence == lane.last_up_sequence) _ _
      (if-EndsOn s bad (same_bytes sum lane.last_up_digest) (s, accepted sequence) (s, mismatched)
        (stays s bad (s, accepted sequence) refl alive) (stays s bad (s, mismatched) refl alive))
      (if-EndsOn s bad (not (sequence == (lane.last_up_sequence + 1) % 2 ^ 64))
        (lane_protocol_failure s id expected, refused err_protocol) _
        (fails s id expected hc hi alive b bad (refused err_protocol) refl)
        (if-EndsOn s bad lane.up_active (s, refused err_backpressure)
          (put_lane s id new, proceed lane.serial)
          (stays s bad (s, refused err_backpressure) refl alive)
          (stays s bad (put_lane s id new, proceed lane.serial) refl
            ((put_lane-Kept s id new).same_closed ∙ alive))))

module _ (digest : List ℕ → List ℕ) (s : Session) (id sequence : ℕ) (body : List ℕ) (lanes : Bool)
    (hc hi : ℕ) (alive : s.closed ≡ false) (b : Balanced s hc hi) where
  begin_new_ends :
      lookup id s.carrier_lanes ≡ none
      → EndsOn s begin_violation (begin_new digest s id sequence body lanes)
  unfolding begin_new add_lane begin_violation EndsOn
  begin_new_ends x =
      if-EndsOn s begin_violation (not lanes || (id == 0 || not (batch_starts_with_open body id)))
        (s, laneless)
        (begin_on (add_lane s id) id (new_carrier_lane s.allocated) sequence (digest body) none)
        (stays s begin_violation (s, laneless) refl alive)
        (begin_on_ends (add_lane s id) id (new_carrier_lane s.allocated) sequence (digest body) none
          hc hi alive (add_lane-Balanced s id hc hi x b))

  begin_gone_ends :
      (expected : Option ℕ)
      → lookup id s.carrier_lanes ≡ none
      → EndsOn s begin_violation (begin_open digest s id sequence body lanes expected)
  unfolding begin_open begin_violation EndsOn
  begin_gone_ends (some serial) x =
      rw (begin_open, x) (stays s begin_violation (s, refused err_closed) refl alive)
  begin_gone_ends none x =
      rw (begin_open, x)
        (if-EndsOn s begin_violation (sequence == 0 || ltb s.limits.max_body_bytes (length body))
          (lane_protocol_failure s id none, refused err_protocol)
          (begin_new digest s id sequence body lanes)
          (fails s id none hc hi alive b begin_violation (refused err_protocol) refl)
          (begin_new_ends x))

  pub begin_up_ends :
      (expected : Option ℕ)
      → (begin_up digest s id sequence body lanes expected).0.closed ≡ (
          not (is_websocket_lanes s.carrier)
          && begin_violation (begin_up digest s id sequence body lanes expected).1)
  unfolding begin_up begin_violation EndsOn
  begin_up_ends expected =
      let bad = begin_violation in
      if-EndsOn s bad s.closed (s, refused err_closed)
        (begin_open digest s id sequence body lanes expected)
        (stays s bad (s, refused err_closed) refl alive)
        (elim (Option-cases (lookup id s.carrier_lanes)) [
          | inl x ↦ begin_gone_ends expected x
          | inr (lane, x) ↦
              rw (begin_open, x)
                (if-EndsOn s bad (not (is_lane lane expected)) (s, refused err_closed) _
                  (stays s bad (s, refused err_closed) refl alive)
                  (if-EndsOn s bad (sequence == 0 || ltb s.limits.max_body_bytes (length body))
                    (lane_protocol_failure s id expected, refused err_protocol)
                    (begin_on s id lane sequence (digest body) expected)
                    (fails s id expected hc hi alive b bad (refused err_protocol) refl)
                    (begin_on_ends s id lane sequence (digest body) expected hc hi alive b)))
        ])
