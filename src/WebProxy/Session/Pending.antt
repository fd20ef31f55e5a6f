-- ===== src/WebProxy/Session/Pending.antt =====
-- webproxy/session.go: the budget of pending bytes and items that a session and its manager keep
-- (reservePendingLocked, releasePendingLocked, and changePendingBudget of manager.go).
use tel_ego_openwrt.Base.{
  ℕ, ◌+◌, ◌-◌, Bool, true, false, not, ◌&&◌, ◌||◌, Option, none, some, ltb, ◌==◌, min,
  if◌then◌else◌,
}
use tel_ego_openwrt.WebProxy.Frame.{frame_header_size}
use tel_ego_openwrt.WebProxy.Limits.{
  Limits, queue_item_cost, pending_control_reserve, pending_uplink_reserve, checked_mul_int,
}
use tel_ego_openwrt.WebProxy.Session.{Session, Global, PendingClass, uplink, downlink, control}

-- Where the code does not test `ok`, a reserve that overflows is zero.
abbrev reserve_or_zero : Option (ℕ × ℕ) → ℕ × ℕ
reserve_or_zero none = (0, 0)
reserve_or_zero (some r) = r

abbrev product_or_zero : Option ℕ → ℕ
product_or_zero none = 0
product_or_zero (some n) = n

unfoldable pub subtract_reserve : ℕ × ℕ → ℕ × ℕ → ℕ × ℕ
subtract_reserve (cost, items) (reserve_cost, reserve_items) =
    (cost - reserve_cost, items - reserve_items)

unfoldable pub uplink_pending_limits : Limits → ℕ × ℕ
uplink_pending_limits l =
    subtract_reserve (l.max_pending_per_session, l.max_pending_items_per_session)
      (reserve_or_zero (pending_control_reserve l))

unfoldable pub downlink_pending_limits : Limits → ℕ × ℕ
downlink_pending_limits l =
    subtract_reserve (uplink_pending_limits l) (reserve_or_zero (pending_uplink_reserve l))

-- The limits that reservePendingLocked takes for a class.
unfoldable pub class_limits : Limits → PendingClass → ℕ × ℕ
class_limits l uplink = uplink_pending_limits l
class_limits l downlink = downlink_pending_limits l
class_limits l control = (l.max_pending_per_session, l.max_pending_items_per_session)

-- What the manager keeps free of the other classes: the control reserves of all sessions.
unfoldable pub global_reserve : Limits → PendingClass → ℕ × ℕ
global_reserve l control = (0, 0)
global_reserve l _ =
    let reserve = reserve_or_zero (pending_control_reserve l) in
    (
      product_or_zero (checked_mul_int reserve.0 l.max_sessions),
      product_or_zero (checked_mul_int reserve.1 l.max_sessions),
    )

-- A test that `amount` more than `used` passes the limit.
abbrev over : ℕ → ℕ → ℕ → Bool
over amount used limit = ltb limit amount || ltb (limit - amount) used

-- changePendingBudget where the amounts are not negative. The code compares differences that may be
-- negative; these are the same tests on sums.
unfoldable pub charge_global : Limits → Global → ℕ → ℕ → PendingClass → Option Global
unfolding global_reserve
charge_global l g bytes items class =
    let reserve = global_reserve l class in
    if ltb l.max_pending_global (bytes + g.pending_bytes + reserve.0)
      || ltb l.max_pending_items_global (items + g.pending_items + reserve.1)
    then none
    else some (record {
      pending_bytes = g.pending_bytes + bytes;
      pending_items = g.pending_items + items;
    })

-- changePendingBudget where they are negative. It panics when a counter would become negative:
-- `none`.
unfoldable pub refund_global : Global → ℕ → ℕ → Option Global
refund_global g bytes items =
    if ltb g.pending_bytes bytes || ltb g.pending_items items
    then none
    else some (record {
      pending_bytes = g.pending_bytes - bytes;
      pending_items = g.pending_items - items;
    })

unfoldable pub data_frame_allowance : Session → ℕ → ℕ
unfolding downlink_pending_limits
data_frame_allowance s limit =
    let limits = downlink_pending_limits s.limits in
    if not (ltb s.pending_items limits.1)
    then 0
    else min limit (limits.0 - s.pending_cost - queue_item_cost - frame_header_size)

-- The tests of reservePendingLocked: the manager's counters where both budgets have room.
unfoldable pub admit : Session → ℕ → ℕ → PendingClass → Option Global
unfolding class_limits
admit s cost items class =
    let limits = class_limits s.limits class in
    if cost == 0 || (over cost s.pending_cost limits.0 || over items s.pending_items limits.1)
    then none
    else charge_global s.limits s.global cost items class

unfoldable pub charge : Session → ℕ → ℕ → Global → Session
charge s cost items g = record s {
  pending_cost = s.pending_cost + cost;
  pending_items = s.pending_items + items;
  global = g;
}

-- reservePendingLocked
unfoldable pub reserve_pending : Session → ℕ → ℕ → PendingClass → Session × Bool
reserve_pending s cost items class =
    if cost == 0 && items == 0 then (s, true) else elim (admit s cost items class) [
      | none ↦ (s, false)
      | some g ↦ (charge s cost items g, true)
    ]

unfoldable pub discharge : Session → ℕ → ℕ → Global → Session
discharge s cost items g = record s {
  pending_cost = s.pending_cost - cost;
  pending_items = s.pending_items - items;
  global = g;
}

-- releasePendingLocked, which panics when it is asked for more than is pending.
unfoldable pub release_pending : Session → ℕ → ℕ → Session
unfolding refund_global
release_pending s cost items =
    if cost == 0 && items == 0
    then s
    else if ltb s.pending_cost cost || ltb s.pending_items items
    then record s { panicked = true }
    else elim (refund_global s.global cost items) [
      | none ↦ record s { panicked = true }
      | some g ↦ discharge s cost items g
    ]
