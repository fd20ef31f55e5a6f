-- ===== src/WebProxy/Session/Accounts/Reservations.antt =====
-- webproxy/session.go: the reservations of WebSocket input keep the accounts.
use tel_ego_openwrt.Base.{
  ℕ, ◌+◌, ◌-◌, ◌*◌, Bool, true, false, ◌||◌, Option, none, some, ltb, if◌then◌else◌, ◌≡◌, refl,
  subst, subst₂, sym, inl, inr, Option-cases, arith,
}
use tel_ego_openwrt.WebProxy.Limits.{queue_item_cost, checked_add_int}
use tel_ego_openwrt.WebProxy.Session.{Session, uplink}
use tel_ego_openwrt.WebProxy.Session.Pending.{reserve_pending}
use tel_ego_openwrt.WebProxy.Session.Accounts.{
  Balanced, reserve_pending-Balanced, reserve_pending-refused, release_pending-Balanced,
}
use tel_ego_openwrt.WebProxy.Session.Inputs.{
  InputReservation, max_message, reserve_cost, reserve_websocket_input, resize_cost, resize,
}

-- What a reservation holds of the budget.
unfoldable pub held_cost : Option InputReservation → ℕ
held_cost none = 0
held_cost (some r) = r.cost

unfoldable pub held_items : Option InputReservation → ℕ
held_items none = 0
held_items (some r) = r.items

if-reserved {ℓ κ} :
    {A : Type ℓ} (P : A → Type κ) (c : Bool) (x y : A)
    → (c ≡ true → P x)
    → (c ≡ false → P y)
    → P (if c then x else y)
if-reserved P true x y p q = p refl
if-reserved P false x y p q = q refl

reserve_cost-Balanced :
    (s : Session) (cost hc hi : ℕ)
    → Balanced s hc hi
    → Balanced
        (reserve_cost s cost).0
        (hc + held_cost (reserve_cost s cost).1)
        (hi + held_items (reserve_cost s cost).1)
unfolding reserve_cost held_cost held_items
reserve_cost-Balanced s cost hc hi b =
    let P : Session × Option InputReservation → Type 0 =
      λ x. Balanced x.0 (hc + held_cost x.1) (hi + held_items x.1) in
    let reserved = reserve_pending s cost 1 uplink in
    let same : P (s, none) = subst₂ (Balanced s) (omega arith) (omega arith) b in
    if-reserved P s.closed (s, none) _ (λ _. same)
      (λ _.
        if-reserved P reserved.1 _ (reserved.0, none)
          (reserve_pending-Balanced s hc hi cost 1 uplink b)
          (λ n. subst (λ t. P (t, none)) (sym (reserve_pending-refused s cost 1 uplink n)) same))

-- On a balanced session, reserveWebSocketInput leaves the session balanced and without a panic, with
-- the cost and the items of the reservation that it returns held in addition, if it returns one.
pub reserve_websocket_input-Balanced :
    (s : Session) (size hc hi : ℕ)
    → Balanced s hc hi
    → Balanced
        (reserve_websocket_input s size).0
        (hc + held_cost (reserve_websocket_input s size).1)
        (hi + held_items (reserve_websocket_input s size).1)
unfolding reserve_websocket_input held_cost held_items
reserve_websocket_input-Balanced s size hc hi b =
    let P : Session × Option InputReservation → Type 0 =
      λ x. Balanced x.0 (hc + held_cost x.1) (hi + held_items x.1) in
    let same : P (s, none) = subst₂ (Balanced s) (omega arith) (omega arith) b in
    if-reserved P (ltb (2 * max_message s) size) (s, none) _ (λ _. same)
      (λ _. elim (Option-cases (checked_add_int size queue_item_cost)) [
        | inl x ↦ rw x same
        | inr (cost, x) ↦ rw x (reserve_cost-Balanced s cost hc hi b)
      ])

resize_cost-Balanced :
    (s : Session) (r : InputReservation) (cost hc hi : ℕ)
    → Balanced s (hc + r.cost) (hi + r.items)
    → Balanced
        (resize_cost s r cost).0
        (hc + (resize_cost s r cost).1.0.cost)
        (hi + (resize_cost s r cost).1.0.items)
unfolding resize_cost
resize_cost-Balanced s r cost hc hi b =
    let P : Session × (InputReservation × Bool) → Type 0 =
      λ x. Balanced x.0 (hc + x.1.0.cost) (hi + x.1.0.items) in
    let resized = record r { cost = cost } in
    let more = reserve_pending s (cost - r.cost) 0 uplink in
    if-reserved P (ltb r.cost cost) _ _
      (λ y.
        if-reserved P more.1 (more.0, (resized, true)) (more.0, (r, false))
          (λ z.
            subst₂ (Balanced more.0) (ground arith) (omega arith) (
              reserve_pending-Balanced s (hc + r.cost) (hi + r.items) (cost - r.cost) 0 uplink b z))
          (λ z.
            subst (λ t. P (t, (r, false)))
              (sym (reserve_pending-refused s (cost - r.cost) 0 uplink z)) b))
      (λ n.
        if-reserved P (ltb cost r.cost) _ (s, (resized, true))
          (λ y.
            release_pending-Balanced s (hc + cost) (hi + r.items) (r.cost - cost) 0
              (subst₂ (Balanced s) (ground arith) (omega arith) b))
          (λ m. subst₂ (Balanced s) (ground arith) refl b))

-- On a session that is balanced with a reservation's cost and items held, resize leaves it balanced and
-- without a panic, with the cost and items that the reservation then has held, for every size, resized
-- or refused.
pub resize-Balanced :
    (s : Session) (r : InputReservation) (size hc hi : ℕ)
    → Balanced s (hc + r.cost) (hi + r.items)
    → Balanced
        (resize s r size).0
        (hc + (resize s r size).1.0.cost)
        (hi + (resize s r size).1.0.items)
unfolding resize
resize-Balanced s r size hc hi b =
    let P : Session × (InputReservation × Bool) → Type 0 =
      λ x. Balanced x.0 (hc + x.1.0.cost) (hi + x.1.0.items) in
    if-reserved P (ltb (3 * max_message s) size) (s, (r, false)) _ (λ _. b)
      (λ _. elim (Option-cases (checked_add_int size queue_item_cost)) [
        | inl x ↦ rw x b
        | inr (cost, x) ↦ rw x (
            if-reserved P (r.released || s.closed) (s, (r, false)) (resize_cost s r cost) (λ _. b)
              (λ _. resize_cost-Balanced s r cost hc hi b))
      ])
