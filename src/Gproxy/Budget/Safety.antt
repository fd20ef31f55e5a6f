-- ===== src/Gproxy/Budget/Safety.antt =====
-- middleend_budget.go: however goroutines interleave, the budget counts what they hold, and neither
-- the count nor its high-water mark passes the limit.
use tel_ego_openwrt.Base.{
  ℕ, zero, suc, ◌+◌, ◌-◌, ◌≤◌, ◌≡◌, refl, sym, ◌∙◌, List, [], ◌∷◌, arith, ltb, ◌==◌, Bool-cases,
  inl, inr, subst,
}
use tel_ego_openwrt.Gproxy.Budget.{
  ByteBudget, new_middle_end_byte_budget, Caller, idle, refused, asking, loaded, recording,
  swapping, holding, try_swap, load_high_water, swap_high_water, advance_caller, Action, begin,
  proceed, release, act, act_at, run,
}

-- The bytes that a goroutine has reserved and not released.
abbrev pub held : Caller → ℕ
held (recording size value) = size
held (swapping size value seen) = size
held (holding size) = size
held c = 0

abbrev pub total_held : List Caller → ℕ
total_held [] = 0
total_held (c ∷ cs) = held c + total_held cs

-- A mark that a goroutine is about to record is within the limit.
abbrev MarkFits : ℕ → Caller → Type 0
MarkFits limit (recording size value) = value ≤ limit
MarkFits limit (swapping size value seen) = value ≤ limit
MarkFits limit c = Unit {0}

abbrev Marks : ℕ → List Caller → Type 0
Marks limit [] = Unit {0}
Marks limit (c ∷ cs) = MarkFits limit c × Marks limit cs

-- What one step keeps, where the other goroutines hold `others` bytes.
record Kept (b : ByteBudget) (others : ℕ) (r : ByteBudget × Caller) : Type 0 where
  counts : r.0.current ≡ held r.1 + others
  within : r.0.current ≤ r.0.limit
  marked : r.0.high_water ≤ r.0.limit
  mark : MarkFits r.0.limit r.1
  same : r.0.limit ≡ b.limit

unchanged :
    (b : ByteBudget) (c : Caller) (others : ℕ)
    → b.current ≡ held c + others
    → b.current ≤ b.limit
    → b.high_water ≤ b.limit
    → MarkFits b.limit c
    → Kept b others (b, c)
unchanged b c others h w m k = record { counts = h; within = w; marked = m; mark = k; same = refl }

try_swap-Kept :
    (b : ByteBudget) (size seen others : ℕ)
    → b.current ≡ 0 + others
    → b.current ≤ b.limit
    → b.high_water ≤ b.limit
    → Kept b others (try_swap b size seen)
unfolding try_swap
try_swap-Kept b size seen others h w m = elim (Bool-cases (ltb (b.limit - seen) size)) [
  | inl x ↦ rw x (record { counts = h; within = w; marked = m; mark = tt; same = refl })
  | inr x ↦ elim (Bool-cases (b.current == seen)) [
    | inl y ↦
        rw (x, y)
          (record {
            counts = ground arith;
            within = ground arith;
            marked = m;
            mark = ground arith;
            same = refl;
          })
    | inr y ↦ rw (x, y) (unchanged b (asking size) others h w m tt)
  ]
]

load_high_water-Kept :
    (b : ByteBudget) (size value others : ℕ)
    → b.current ≡ size + others
    → b.current ≤ b.limit
    → b.high_water ≤ b.limit
    → value ≤ b.limit
    → Kept b others (b, load_high_water b size value)
unfolding load_high_water
load_high_water-Kept b size value others h w m k = elim (Bool-cases (ltb b.high_water value)) [
  | inl x ↦ rw x (unchanged b (swapping size value b.high_water) others h w m k)
  | inr x ↦ rw x (unchanged b (holding size) others h w m tt)
]

swap_high_water-Kept :
    (b : ByteBudget) (size value seen others : ℕ)
    → b.current ≡ size + others
    → b.current ≤ b.limit
    → b.high_water ≤ b.limit
    → value ≤ b.limit
    → Kept b others (swap_high_water b size value seen)
unfolding swap_high_water
swap_high_water-Kept b size value seen others h w m k = elim (Bool-cases (b.high_water == seen)) [
  | inl x ↦ rw x (record { counts = h; within = w; marked = k; mark = tt; same = refl })
  | inr x ↦ rw x (unchanged b (recording size value) others h w m k)
]

act-Kept :
    (a : Action) (b : ByteBudget) (c : Caller) (others : ℕ)
    → b.current ≡ held c + others
    → b.current ≤ b.limit
    → b.high_water ≤ b.limit
    → MarkFits b.limit c
    → Kept b others (act a b c)
unfolding act advance_caller
act-Kept (begin size) b idle others h w m k = unchanged b (asking size) others h w m tt
act-Kept (begin size) b refused others h w m k = unchanged b (asking size) others h w m tt
act-Kept (begin size) b (asking n) others h w m k = unchanged b (asking n) others h w m k
act-Kept (begin size) b (loaded n s) others h w m k = unchanged b (loaded n s) others h w m k
act-Kept (begin size) b (recording n v) others h w m k = unchanged b (recording n v) others h w m k
act-Kept (begin size) b (swapping n v s) others h w m k =
    unchanged b (swapping n v s) others h w m k
act-Kept (begin size) b (holding n) others h w m k = unchanged b (holding n) others h w m k
act-Kept proceed b idle others h w m k = unchanged b idle others h w m k
act-Kept proceed b refused others h w m k = unchanged b refused others h w m k
act-Kept proceed b (asking n) others h w m k = unchanged b (loaded n b.current) others h w m tt
act-Kept proceed b (loaded n s) others h w m k = try_swap-Kept b n s others h w m
act-Kept proceed b (recording n v) others h w m k = load_high_water-Kept b n v others h w m k
act-Kept proceed b (swapping n v s) others h w m k = swap_high_water-Kept b n v s others h w m k
act-Kept proceed b (holding n) others h w m k = unchanged b (holding n) others h w m k
act-Kept release b (holding n) others h w m k = record {
  counts = ground arith;
  within = ground arith;
  marked = m;
  mark = tt;
  same = refl;
}
act-Kept release b idle others h w m k = unchanged b idle others h w m k
act-Kept release b refused others h w m k = unchanged b refused others h w m k
act-Kept release b (asking n) others h w m k = unchanged b (asking n) others h w m k
act-Kept release b (loaded n s) others h w m k = unchanged b (loaded n s) others h w m k
act-Kept release b (recording n v) others h w m k = unchanged b (recording n v) others h w m k
act-Kept release b (swapping n v s) others h w m k = unchanged b (swapping n v s) others h w m k

-- The whole system: the count is what all hold, and the marks fit.
record Safe (limit others : ℕ) (r : ByteBudget × List Caller) : Type 0 where
  counts : r.0.current ≡ total_held r.1 + others
  within : r.0.current ≤ limit
  marked : r.0.high_water ≤ limit
  marks : Marks limit r.1
  same : r.0.limit ≡ limit

act_at-Safe :
    (i : ℕ) (a : Action) (b : ByteBudget) (cs : List Caller) (limit others : ℕ)
    → Safe limit others (b, cs)
    → Safe limit others (act_at i a b cs)
unfolding act_at
act_at-Safe i a b [] limit others s = s
act_at-Safe zero a b (c ∷ cs) limit others s =
    let k =
      act-Kept a b c (total_held cs + others) (omega (arith, s.counts))
        (omega (arith, s.within, s.same)) (omega (arith, s.marked, s.same))
        (subst (λ n. MarkFits n c) (sym s.same) (s.marks.0)) in
    record {
      counts = omega (arith, k.counts);
      within = omega (arith, k.within, k.same, s.same);
      marked = omega (arith, k.marked, k.same, s.same);
      marks = (subst (λ n. MarkFits n (act a b c).1) (k.same ∙ s.same) k.mark, s.marks.1);
      same = k.same ∙ s.same;
    }
act_at-Safe (suc i) a b (c ∷ cs) limit others s =
    let t = act_at-Safe i a b cs limit (held c + others) (record {
      counts = omega (arith, s.counts);
      within = s.within;
      marked = s.marked;
      marks = s.marks.1;
      same = s.same;
    }) in
    record {
      counts = omega (arith, t.counts);
      within = t.within;
      marked = t.marked;
      marks = (s.marks.0, t.marks);
      same = t.same;
    }

run-Safe :
    (schedule : List (ℕ × Action)) (b : ByteBudget) (cs : List Caller) (limit : ℕ)
    → Safe limit 0 (b, cs)
    → Safe limit 0 (run schedule b cs)
unfolding run
run-Safe [] b cs limit s = s
run-Safe ((i, a) ∷ schedule) b cs limit s =
    run-Safe schedule (act_at i a b cs).0 (act_at i a b cs).1 limit (act_at-Safe i a b cs limit 0 s)

-- `n` goroutines that have not called tryReserve.
abbrev pub idlers : ℕ → List Caller
idlers zero = []
idlers (suc n) = idle ∷ idlers n

total_held-idlers : (n : ℕ) → 0 ≡ total_held (idlers n) + 0
total_held-idlers zero = refl
total_held-idlers (suc n) = omega (arith, total_held-idlers n)

idlers-Marks : (limit n : ℕ) → Marks limit (idlers n)
idlers-Marks limit zero = tt
idlers-Marks limit (suc n) = (tt, idlers-Marks limit n)

-- Any number of goroutines that share a new budget, in any interleaving of the atomic steps of
-- tryReserve and release: the budget's count is the bytes that they hold together, and neither it nor
-- the high-water mark exceeds the limit.
pub new_middle_end_byte_budget-run :
    (limit n : ℕ) (schedule : List (ℕ × Action))
    → let (b, cs) = run schedule (new_middle_end_byte_budget limit) (idlers n) in
      (b.current ≡ total_held cs) × (b.current ≤ limit) × (b.high_water ≤ limit)
unfolding new_middle_end_byte_budget
new_middle_end_byte_budget-run limit n schedule =
    let s = run-Safe schedule (new_middle_end_byte_budget limit) (idlers n) limit (record {
      counts = total_held-idlers n;
      within = omega arith;
      marked = omega arith;
      marks = idlers-Marks limit n;
      same = refl;
    }) in
    (omega (arith, s.counts), s.within, s.marked)
