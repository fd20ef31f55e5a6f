-- ===== src/WebProxy/Session/Carrier/Uplink.antt =====
-- webproxy/session.go: processUp keeps the accounts, whatever it answers.
use tel_ego_openwrt.Base.{
  ℕ, ◌+◌, List, Bool, true, false, Option, some, ◌==◌, if◌then◌else◌, All, ◌≡◌, refl, sym, ap,
  subst, ◌∙◌, inl, inr, Bool-cases, Option-cases, Result, ok, err, Result-cases,
}
use tel_ego_openwrt.Base.Maps.{lookup}
use tel_ego_openwrt.WebProxy.Frame.{Frame, FrameError}
use tel_ego_openwrt.WebProxy.Session.{Session, CarrierLane, uplink, by_resource}
use tel_ego_openwrt.WebProxy.Session.Pending.{reserve_pending, release_pending}
use tel_ego_openwrt.WebProxy.Session.Queue.{put_lane}
use tel_ego_openwrt.WebProxy.Session.Streams.{close_session}
use tel_ego_openwrt.WebProxy.Session.Kept.{
  put_lane-Kept, release_pending-Kept, reserve_pending-Kept,
}
use tel_ego_openwrt.WebProxy.Session.Batch.{Batch, apply_batch, start_batch}
use tel_ego_openwrt.WebProxy.Session.Checks.{validate_batch, backend_write_reservation}
use tel_ego_openwrt.WebProxy.Session.Batch.Open.{apply_frames-closed}
use tel_ego_openwrt.WebProxy.Session.Batch.Agreement.{InRange}
use tel_ego_openwrt.WebProxy.Session.Batch.Applied.{Remembers, apply_batch-Balanced}
use tel_ego_openwrt.WebProxy.Session.Carrier.{
  CarrierError, err_closed, record_sequence, finish_batch, commit_batch, commit_parsed, commit_on,
  commit_up,
}
use tel_ego_openwrt.WebProxy.Session.Carrier.Failures.{
  lane_protocol_failure-Balanced, lane_fields-Balanced,
}
use tel_ego_openwrt.WebProxy.Session.Accounts.{
  Balanced, reserve_pending-refused, release_pending-Balanced,
}
use tel_ego_openwrt.WebProxy.Session.Accounts.Closing.{held, still_open, close_session-held}

unfoldable pub Held : Session → ℕ → ℕ → Type 0
Held s hc hi = Balanced s (held s hc) (held s hi)

-- The commit of a batch keeps the accounts, where the session stays open while it is applied.
record_sequence-Balanced :
    (s : Session) (id serial sequence : ℕ) (sum : List ℕ) (hc hi : ℕ)
    → Balanced s hc hi
    → Balanced (record_sequence s id serial sequence sum) hc hi
      × ((record_sequence s id serial sequence sum).closed ≡ s.closed)
unfolding record_sequence
record_sequence-Balanced s id serial sequence sum hc hi b =
    elim (Option-cases (lookup id s.carrier_lanes)) [
      | inl x ↦ rw (record_sequence, x) (b, refl)
      | inr (lane, x) ↦
          let new = record lane { last_up_sequence = sequence; last_up_digest = sum } in
          elim (Bool-cases (lane.serial == serial)) [
            | inr n ↦ rw (record_sequence, x, n) (b, refl)
            | inl y ↦
                rw (record_sequence, x, y)
                  (
                    lane_fields-Balanced s id lane new hc hi x refl refl refl (refl, refl) b,
                    (put_lane-Kept s id new).same_closed,
                  )
          ]
    ]

finish_batch-Balanced :
    (b : Batch) (id serial sequence : ℕ) (sum : List ℕ) (hc hi : ℕ)
    → b.session.closed ≡ false
    → Balanced b.session (hc + b.unused_cost) (hi + b.unused_items)
    → Held (finish_batch b id serial sequence sum).0 hc hi
unfolding finish_batch Held
finish_batch-Balanced b id serial sequence sum hc hi alive bal =
    let released = release_pending b.session b.unused_cost b.unused_items in
    let open_still =
      (release_pending-Kept b.session b.unused_cost b.unused_items).same_closed ∙ alive in
    let ok_released = release_pending-Balanced b.session hc hi b.unused_cost b.unused_items bal in
    let recorded = record_sequence-Balanced released id serial sequence sum hc hi ok_released in
    let done : Session × Result CarrierError ℕ =
      (record_sequence released id serial sequence sum, ok sequence) in
    let ending : Session × Result CarrierError ℕ =
      (close_session released by_resource, err err_closed) in
    elim (Bool-cases b.applied) [
      | inl y ↦
          subst (λ r. Balanced r.0 (held r.0 hc) (held r.0 hi))
            (sym (ap (λ z. if z then done else ending) y))
            (still_open (record_sequence released id serial sequence sum) hc hi
              (recorded.1 ∙ open_still) recorded.0)
      | inr n ↦
          subst (λ r. Balanced r.0 (held r.0 hc) (held r.0 hi))
            (sym (ap (λ z. if z then done else ending) n))
            (close_session-held released by_resource hc hi open_still ok_released)
    ]

pub apply_batch-closed :
    (acquire : ℕ → Bool) (s : Session) (frames : List Frame) (cost items : ℕ)
    → (apply_batch acquire s frames cost items).session.closed ≡ s.closed
unfolding apply_batch start_batch
apply_batch-closed acquire s frames cost items =
    apply_frames-closed acquire (start_batch s cost items) frames

commit_batch-Balanced :
    (acquire : ℕ → Bool) (s : Session) (id serial sequence : ℕ) (sum : List ℕ) (frames : List Frame)
    (hc hi : ℕ)
    → s.closed ≡ false
    → Balanced s hc hi
    → Remembers s
    → All InRange frames
    → validate_batch s frames ≡ true
    → Held (commit_batch acquire s id serial sequence sum frames).0 hc hi
unfolding commit_batch Held
commit_batch-Balanced acquire s id serial sequence sum frames hc hi alive b m r v =
    elim (Option-cases (backend_write_reservation s frames)) [
      | inl x ↦ rw (commit_batch, x) (still_open s hc hi alive b)
      | inr ((cost, items), x) ↦
          let reserved = (reserve_pending s cost items uplink).0 in
          let kept = (reserve_pending-Kept s cost items uplink).same_closed ∙ alive in
          elim (Bool-cases (reserve_pending s cost items uplink).1) [
            | inr n ↦
                rw (commit_batch, x, n)
                  (still_open reserved hc hi kept (
                    subst (λ t. Balanced t hc hi)
                      (sym (reserve_pending-refused s cost items uplink n)) b))
            | inl y ↦
                let applied = apply_batch-Balanced acquire s frames cost items hc hi b m r v x y in
                rw (commit_batch, x, y)
                  (finish_batch-Balanced (apply_batch acquire reserved frames cost items) id serial
                    sequence sum hc hi
                    (apply_batch-closed acquire reserved frames cost items ∙ kept) applied.0)
          ]
    ]

-- The lane that has parsed is free for the next batch.
idle-Remembers :
    (s : Session) (id : ℕ) (lane : CarrierLane) → Remembers s → Remembers (put_lane s id lane)
unfolding put_lane
idle-Remembers s id lane m = record { history_ok = m.history_ok; knows = m.knows }

commit_on-Balanced :
    (acquire : ℕ → Bool) (s : Session) (id : ℕ) (lane : CarrierLane) (sequence : ℕ) (sum : List ℕ)
    (parsed : Result FrameError (List Frame)) (expected : Option ℕ) (hc hi : ℕ)
    → lookup id s.carrier_lanes ≡ some lane
    → s.closed ≡ false
    → Balanced s hc hi
    → Remembers s
    → ((frames : List Frame) → parsed ≡ ok frames → All InRange frames)
    → Held (commit_on acquire s id lane sequence sum parsed expected).0 hc hi
unfolding commit_on Held
commit_on-Balanced acquire s id lane sequence sum parsed expected hc hi found alive b m r =
    let idle = put_lane s id (record lane { up_active = false }) in
    let open_still = (put_lane-Kept s id (record lane { up_active = false })).same_closed ∙ alive in
    let bal =
      lane_fields-Balanced s id lane (record lane { up_active = false }) hc hi found refl refl refl
        (refl, refl) b in
    let fails = lane_protocol_failure-Balanced idle id expected hc hi open_still bal in
    subst (λ x. Balanced x.0 (held x.0 hc) (held x.0 hi))
      (sym (
        ap
          (λ c.
            if c
            then (idle, err err_closed)
            else commit_parsed acquire idle id lane sequence sum parsed expected)
          alive))
      (elim (Result-cases parsed) [
        | inr (e, x) ↦ rw (commit_parsed, x) fails
        | inl (frames, x) ↦ elim (Bool-cases (validate_batch idle frames)) [
          | inr n ↦ rw (commit_parsed, x, n) fails
          | inl y ↦
              rw (commit_parsed, x, y)
                (commit_batch-Balanced acquire idle id lane.serial sequence sum frames hc hi
                  open_still bal (idle-Remembers s id (record lane { up_active = false }) m)
                  (r frames x) y)
        ]
      ])

-- On an open, balanced session whose history is well formed and knows every live stream, and for a
-- parsed batch, if any, of 24-bit streams and 32-bit sizes: the second critical section of
-- processUp leaves the session balanced and without a panic, whatever it answers. What was held
-- beside stays held, or is given up where the session ends.
pub commit_up-Balanced :
    (acquire : ℕ → Bool) (s : Session) (id serial sequence : ℕ) (sum : List ℕ)
    (parsed : Result FrameError (List Frame)) (expected : Option ℕ) (hc hi : ℕ)
    → s.closed ≡ false
    → Balanced s hc hi
    → Remembers s
    → ((frames : List Frame) → parsed ≡ ok frames → All InRange frames)
    → Balanced
        (commit_up acquire s id serial sequence sum parsed expected).0
        (held (commit_up acquire s id serial sequence sum parsed expected).0 hc)
        (held (commit_up acquire s id serial sequence sum parsed expected).0 hi)
unfolding commit_up Held
commit_up-Balanced acquire s id serial sequence sum parsed expected hc hi alive b m r =
    elim (Option-cases (lookup id s.carrier_lanes)) [
      | inl x ↦ rw (commit_up, x) (still_open s hc hi alive b)
      | inr (lane, x) ↦ elim (Bool-cases (lane.serial == serial)) [
        | inr n ↦ rw (commit_up, x, n) (still_open s hc hi alive b)
        | inl y ↦
            rw (commit_up, x, y)
              (commit_on-Balanced acquire s id lane sequence sum parsed expected hc hi x alive b m
                r)
      ]
    ]
