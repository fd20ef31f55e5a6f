-- ===== src/Gproxy/Budget.antt =====
-- gproxy/middleend_budget.go: a byte budget that many goroutines share without a lock. An atomic
-- operation is one step; a goroutine's state says where in tryReserve it stands. The counters are
-- int64, and the code reserves and releases positive sizes only: where the count has reached the
-- limit, no room is left, as with the source's difference. `observe`, which adjusts the count of
-- bytes already retained, is not modelled.
pub mod Safety
use tel_ego_openwrt.Base.{ℕ, zero, suc, ◌+◌, ◌-◌, List, [], ◌∷◌, Bool, ltb, ◌==◌, if◌then◌else◌}

pub record ByteBudget : Type 0 where
  pub limit : ℕ
  pub current : ℕ
  pub high_water : ℕ
  pub backpressure : ℕ

unfoldable pub new_middle_end_byte_budget : ℕ → ByteBudget
new_middle_end_byte_budget limit = record {
  limit = limit;
  current = 0;
  high_water = 0;
  backpressure = 0;
}

-- `asking`: before the load of `current`; `loaded`: before the test and the swap of it; `recording`
-- and `swapping`: the same in recordHighWater, for a reservation already made; `holding`: tryReserve
-- has returned true; `refused`: it has returned false.
pub data Caller : Type 0 where
  idle refused : Caller
  asking : ℕ → Caller
  loaded : ℕ → ℕ → Caller
  recording : ℕ → ℕ → Caller
  swapping : ℕ → ℕ → ℕ → Caller
  holding : ℕ → Caller

-- The test of tryReserve and its compare-and-swap, for the value `seen` that it loaded.
unfoldable pub try_swap : ByteBudget → ℕ → ℕ → ByteBudget × Caller
try_swap b size seen =
    if ltb (b.limit - seen) size
    then (record b { backpressure = suc b.backpressure }, refused)
    else if b.current == seen
    then (record b { current = seen + size }, recording size (seen + size))
    else (b, asking size)

-- The test of recordHighWater's loop, and its compare-and-swap.
unfoldable pub load_high_water : ByteBudget → ℕ → ℕ → Caller
load_high_water b size value =
    if ltb b.high_water value then swapping size value b.high_water else holding size

unfoldable pub swap_high_water : ByteBudget → ℕ → ℕ → ℕ → ByteBudget × Caller
swap_high_water b size value seen =
    if b.high_water == seen
    then (record b { high_water = value }, holding size)
    else (b, recording size value)

-- One atomic step of a goroutine inside tryReserve.
unfoldable pub advance_caller : ByteBudget → Caller → ByteBudget × Caller
advance_caller b (asking size) = (b, loaded size b.current)
advance_caller b (loaded size seen) = try_swap b size seen
advance_caller b (recording size value) = (b, load_high_water b size value)
advance_caller b (swapping size value seen) = swap_high_water b size value seen
advance_caller b c = (b, c)

-- What a goroutine may do: call tryReserve, go on inside it, or release what it holds.
pub data Action : Type 0 where
  begin : ℕ → Action
  proceed release : Action

unfoldable pub act : Action → ByteBudget → Caller → ByteBudget × Caller
act (begin size) b idle = (b, asking size)
act (begin size) b refused = (b, asking size)
act release b (holding size) = (record b { current = b.current - size }, idle)
act proceed b c = advance_caller b c
act _ b c = (b, c)

-- A schedule names the goroutine of each step by its place.
unfoldable pub act_at : ℕ → Action → ByteBudget → List Caller → ByteBudget × List Caller
act_at i a b [] = (b, [])
act_at zero a b (c ∷ cs) = let (b', c') = act a b c in (b', c' ∷ cs)
act_at (suc i) a b (c ∷ cs) = let (b', cs') = act_at i a b cs in (b', c ∷ cs')

unfoldable pub run : List (ℕ × Action) → ByteBudget → List Caller → ByteBudget × List Caller
run [] b cs = (b, cs)
run ((i, a) ∷ schedule) b cs = let (b', cs') = act_at i a b cs in run schedule b' cs'
