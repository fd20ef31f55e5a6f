-- ===== src/WebProxy/Limits.antt =====
-- webproxy/session_config.go: the limits of a session, the reserves of its queues, and boundedSet.
-- An int is a natural number where the code keeps it from being negative; the overflow tests of
-- checkedAddInt and checkedMulInt are those of a 64-bit int.
use tel_ego_openwrt.Base.{
  ℕ, ◌+◌, ◌-◌, ◌*◌, ◌/◌, ◌^◌, Bool, true, false, not, ◌&&◌, ◌||◌, Option, none, some, ltb, ◌==◌,
  min, if◌then◌else◌,
}
use tel_ego_openwrt.WebProxy.Frame.{frame_header_size, max_batch_frames}

abbrev pub queue_item_cost : ℕ
queue_item_cost = 256

abbrev pub control_reserve_extra_items : ℕ
control_reserve_extra_items = 16

abbrev pub control_reserve_items_per_stream : ℕ
control_reserve_items_per_stream = 3

abbrev pub max_carrier_batch_bytes : ℕ
max_carrier_batch_bytes = 2 * 1024 * 1024

pub record Limits : Type 0 where
  pub carrier_batch_bytes : ℕ
  pub max_body_bytes : ℕ
  pub max_streams_per_session : ℕ
  pub max_closed_stream_ids : ℕ
  pub max_pending_per_session : ℕ
  pub max_pending_global : ℕ
  pub max_pending_items_per_session : ℕ
  pub max_pending_items_global : ℕ
  pub max_bootstraps : ℕ
  pub max_sessions : ℕ
  pub max_closed_tokens : ℕ
  pub max_streams : ℕ
  pub max_backend_dials_in_flight : ℕ

-- DefaultLimits
unfoldable pub default_limits : Limits
default_limits = record {
  carrier_batch_bytes = 2 * 1024 * 1024;
  max_body_bytes = 2 * 1024 * 1024;
  max_streams_per_session = 128;
  max_closed_stream_ids = 4096;
  max_pending_per_session = 32 * 1024 * 1024;
  max_pending_global = 512 * 1024 * 1024;
  max_pending_items_per_session = 16 * 1024;
  max_pending_items_global = 256 * 1024;
  max_bootstraps = 512;
  max_sessions = 128;
  max_closed_tokens = 2048;
  max_streams = 4096;
  max_backend_dials_in_flight = 256;
}

-- math.MaxInt
abbrev pub max_int : ℕ
max_int = 2 ^ 63 - 1

unfoldable pub checked_add_int : ℕ → ℕ → Option ℕ
checked_add_int left right = if ltb (max_int - right) left then none else some (left + right)

unfoldable pub checked_mul_int : ℕ → ℕ → Option ℕ
checked_mul_int left right =
    if not (left == 0) && ltb (max_int / left) right then none else some (left * right)

-- The first result that is missing makes the whole missing: `ok` is false.
abbrev pub and_then {ℓ κ} : {A : Type ℓ} {B : Type κ} → Option A → (A → Option B) → Option B
and_then none f = none
and_then (some a) f = f a

-- The bytes and the items kept for control frames.
unfoldable pub pending_control_reserve : Limits → Option (ℕ × ℕ)
unfolding checked_add_int checked_mul_int
pending_control_reserve limits =
    and_then (checked_mul_int limits.max_streams_per_session control_reserve_items_per_stream)
      (λ stream_items. and_then (checked_add_int control_reserve_extra_items stream_items) (λ items.
        and_then (checked_mul_int items (queue_item_cost + frame_header_size + 4))
          (λ cost. some (cost, items))))

-- The bytes and the items kept for uplink batches.
unfoldable pub pending_uplink_reserve : Limits → Option (ℕ × ℕ)
unfolding checked_add_int checked_mul_int
pending_uplink_reserve limits =
    let items = min (limits.max_body_bytes / frame_header_size) max_batch_frames in
    and_then (checked_mul_int items queue_item_cost) (λ overhead.
      and_then (checked_add_int limits.max_body_bytes overhead) (λ cost. some (cost, items)))

-- The tests that validateManagerConfig makes of the limits, in its order.
positive_limits : Limits → Bool
positive_limits l =
    not (l.carrier_batch_bytes == 0)
    && (not (l.max_body_bytes == 0)
        && (not (l.max_streams_per_session == 0)
            && (not (l.max_closed_stream_ids == 0)
                && (not (l.max_pending_per_session == 0)
                    && (not (l.max_pending_global == 0)
                        && (not (l.max_pending_items_per_session == 0)
                            && (not (l.max_pending_items_global == 0)
                                && (not (l.max_bootstraps == 0)
                                    && (not (l.max_sessions == 0)
                                        && (not (l.max_closed_tokens == 0)
                                            && (not (l.max_streams == 0)
                                                && not
                                                    (l.max_backend_dials_in_flight == 0))))))))))))

session_reserve_fits : Limits → Bool
session_reserve_fits l = elim (pending_control_reserve l) [
  | none ↦ false
  | some (cost, items) ↦
      not (ltb l.max_pending_per_session cost) && not (ltb l.max_pending_items_per_session items)
]

global_reserve_fits : Limits → Bool
global_reserve_fits l = elim (pending_control_reserve l) [
  | none ↦ false
  | some (cost, items) ↦ elim (checked_mul_int cost l.max_sessions) [
    | none ↦ false
    | some global_cost ↦ elim (checked_mul_int items l.max_sessions) [
      | none ↦ false
      | some global_items ↦
          ltb global_cost l.max_pending_global && ltb global_items l.max_pending_items_global
    ]
  ]
]

unfoldable pub valid_limits : Limits → Bool
unfolding positive_limits session_reserve_fits global_reserve_fits
valid_limits l =
    positive_limits l
    && (not (
          ltb max_carrier_batch_bytes l.carrier_batch_bytes
          || ltb l.max_body_bytes l.carrier_batch_bytes)
        && (not (
              ltb l.max_pending_global l.max_pending_per_session
              || (ltb l.max_pending_items_global l.max_pending_items_per_session
                  || (ltb l.max_streams l.max_streams_per_session
                      || ltb l.max_streams l.max_backend_dials_in_flight)))
            && (session_reserve_fits l
                && (global_reserve_fits l
                    && elim (pending_uplink_reserve l) [ none ↦ false | some _ ↦ true ]))))
