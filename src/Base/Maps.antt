-- ===== src/Base/Maps.antt =====
-- Go's maps keyed by unsigned numbers, as association lists, and sums over their values.
use tel_ego_openwrt.Base.Tests.{◌==◌, if◌then◌else◌, Bool-cases, ==_iff}
use Prim.Native.Nat.{ℕ, suc, ◌+◌}
use mathlib.Core.Path.{◌≡◌, refl, sym, ap, subst₂, ◌∙◌}
use mathlib.Core.Logic.{inl, inr}
use mathlib.Core.Bool.{Bool, true, false}
use mathlib.Core.List.{List, [], ◌∷◌}
use mathlib.Core.Option.{Option, none, some}
use native.Mathlib.Omega.{arith}

abbrev pub Map {ℓ} : Type ℓ → Type ℓ
Map V = List (ℕ × V)

module _ {ℓ} {V : Type ℓ} where
  -- `m[k]`
  abbrev pub lookup : ℕ → Map V → Option V
  lookup k [] = none
  lookup k (e ∷ m) = if k == e.0 then some e.1 else lookup k m

  abbrev pub contains : ℕ → Map V → Bool
  contains k m = elim (lookup k m) [ none ↦ false | some _ ↦ true ]

  -- `m[k] = v`
  abbrev pub insert : ℕ → V → Map V → Map V
  insert k v [] = (k, v) ∷ []
  insert k v (e ∷ m) = if k == e.0 then (k, v) ∷ m else e ∷ insert k v m

  -- `delete(m, k)`
  abbrev pub remove : ℕ → Map V → Map V
  remove k [] = []
  remove k (e ∷ m) = if k == e.0 then remove k m else e ∷ remove k m

  -- `len(m)`
  abbrev pub count : Map V → ℕ
  count [] = 0
  count (e ∷ m) = suc (count m)

  -- Each key stands once.
  abbrev pub Unique : Map V → Type ℓ
  Unique [] = Unit {ℓ}
  Unique (e ∷ m) = (lookup e.0 m ≡ none) × Unique m

  -- The sum of a weight over the values.
  abbrev pub total : (V → ℕ) → Map V → ℕ
  total w [] = 0
  total w (e ∷ m) = w e.1 + total w m

  -- A predicate of every value.
  abbrev pub Each {κ} : (ℕ → V → Type κ) → Map V → Type κ
  Each P [] = Unit {κ}
  Each P (e ∷ m) = P e.0 e.1 × Each P m

  pub lookup-insert :
      (j k : ℕ) (v : V) (m : Map V)
      → lookup j (insert k v m) ≡ (if j == k then some v else lookup j m)
  lookup-insert j k v [] = refl
  lookup-insert j k v (e ∷ m) = ground (arith, lookup-insert j k v m)

  pub lookup-remove :
      (j k : ℕ) (m : Map V) → lookup j (remove k m) ≡ (if j == k then none else lookup j m)
  lookup-remove j k [] = ground arith
  lookup-remove j k (e ∷ m) = ground (arith, lookup-remove j k m)

  -- The same, split by the test that the caller has made.
  pub lookup-insert_here :
      (j k : ℕ) (v : V) (m : Map V) → (j == k) ≡ true → lookup j (insert k v m) ≡ some v
  lookup-insert_here j k v m t =
      lookup-insert j k v m ∙ ap (λ b. if b then some v else lookup j m) t

  pub lookup-insert_there :
      (j k : ℕ) (v : V) (m : Map V) → (j == k) ≡ false → lookup j (insert k v m) ≡ lookup j m
  lookup-insert_there j k v m t =
      lookup-insert j k v m ∙ ap (λ b. if b then some v else lookup j m) t

  pub lookup-remove_here : (j k : ℕ) (m : Map V) → (j == k) ≡ true → lookup j (remove k m) ≡ none
  lookup-remove_here j k m t = lookup-remove j k m ∙ ap (λ b. if b then none else lookup j m) t

  pub lookup-remove_there :
      (j k : ℕ) (m : Map V) → (j == k) ≡ false → lookup j (remove k m) ≡ lookup j m
  lookup-remove_there j k m t = lookup-remove j k m ∙ ap (λ b. if b then none else lookup j m) t

  pub remove_absent : (k : ℕ) (m : Map V) → lookup k m ≡ none → remove k m ≡ m
  remove_absent k [] h = refl
  remove_absent k (e ∷ m) h = ground (arith, remove_absent k m)

  pub insert-Unique : (k : ℕ) (v : V) (m : Map V) → Unique m → Unique (insert k v m)
  insert-Unique k v [] u = (refl, tt)
  insert-Unique k v (e ∷ m) u = elim (Bool-cases (k == e.0)) [
    | inl h ↦ rw h (ap (λ i. lookup i m) ((==_iff k e.0).0 h) ∙ u.0, u.1)
    | inr h ↦ rw h (lookup-insert e.0 k v m ∙ ground (arith, u.0), insert-Unique k v m u.1)
  ]

  pub remove-Unique : (k : ℕ) (m : Map V) → Unique m → Unique (remove k m)
  remove-Unique k [] u = tt
  remove-Unique k (e ∷ m) u = elim (Bool-cases (k == e.0)) [
    | inl h ↦ rw h (remove-Unique k m u.1)
    | inr h ↦ rw h (lookup-remove e.0 k m ∙ ground (arith, u.0), remove-Unique k m u.1)
  ]

  -- What a write does to a sum.
  pub total-insert_old :
      (w : V → ℕ) (k : ℕ) (v old : V) (m : Map V)
      → lookup k m ≡ some old
      → total w (insert k v m) + w old ≡ total w m + w v
  total-insert_old w k v old [] h = cc
  total-insert_old w k v old (e ∷ m) h = elim (Bool-cases (k == e.0)) [
    | inl t ↦ ground (arith)
    | inr t ↦ let ih = total-insert_old w k v old m (rw t at h) in rw t (omega (arith, ih))
  ]

  pub total-insert_new :
      (w : V → ℕ) (k : ℕ) (v : V) (m : Map V)
      → lookup k m ≡ none
      → total w (insert k v m) ≡ total w m + w v
  total-insert_new w k v [] h = omega arith
  total-insert_new w k v (e ∷ m) h = elim (Bool-cases (k == e.0)) [
    | inl t ↦ ground (arith)
    | inr t ↦ let ih = total-insert_new w k v m (rw t at h) in rw t (omega (arith, ih))
  ]

  pub total-remove :
      (w : V → ℕ) (k : ℕ) (v : V) (m : Map V)
      → Unique m
      → lookup k m ≡ some v
      → total w (remove k m) + w v ≡ total w m
  total-remove w k v [] u h = cc
  total-remove w k v (e ∷ m) u h = elim (Bool-cases (k == e.0)) [
    | inl t ↦
        let same = ap (λ i. lookup i m) ((==_iff k e.0).0 t) ∙ u.0 in
        rw (t, remove_absent k m same) (ground arith)
    | inr t ↦ let ih = total-remove w k v m u.1 (rw t at h) in rw t (omega (arith, ih))
  ]

  pub lookup-Each {κ} :
      (P : ℕ → V → Type κ) (k : ℕ) (v : V) (m : Map V) → Each P m → lookup k m ≡ some v → P k v
  lookup-Each P k v [] a h = cc
  lookup-Each P k v (e ∷ m) a h = elim (Bool-cases (k == e.0)) [
    | inl t ↦
        let here = rw t at h in
        let same : e.1 ≡ v = cc in subst₂ P (sym ((==_iff k e.0).0 t)) same a.0
    | inr t ↦ lookup-Each P k v m a.1 (rw t at h)
  ]

  pub insert-Each {κ} :
      (P : ℕ → V → Type κ) (k : ℕ) (v : V) (m : Map V) → Each P m → P k v → Each P (insert k v m)
  insert-Each P k v [] a p = (p, tt)
  insert-Each P k v (e ∷ m) a p = elim (Bool-cases (k == e.0)) [
    | inl t ↦ rw t (p, a.1)
    | inr t ↦ rw t (a.0, insert-Each P k v m a.1 p)
  ]

  pub remove-Each {κ} : (P : ℕ → V → Type κ) (k : ℕ) (m : Map V) → Each P m → Each P (remove k m)
  remove-Each P k [] a = tt
  remove-Each P k (e ∷ m) a = elim (Bool-cases (k == e.0)) [
    | inl t ↦ rw t (remove-Each P k m a.1)
    | inr t ↦ rw t (a.0, remove-Each P k m a.1)
  ]
