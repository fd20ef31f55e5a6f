-- ===== src/Gproxy/Examples.antt =====
-- The theorems on gproxy's models at concrete inputs.
use tel_ego_openwrt.Base.{
  ℕ, suc, ◌+◌, ◌%◌, ◌≤◌, ◌≡◌, refl, ap, ◌∙◌, List, [], ◌∷◌, ◌++◌, arith, true, false, length,
  length-append, ok,
}
use tel_ego_openwrt.FakeTls.Record.RoundTrip.{Delivers}
use tel_ego_openwrt.FakeTls.Sizer.{plan_size}
use tel_ego_openwrt.Gproxy.Writer.{Client, max_encoded_response, write_wire}
use tel_ego_openwrt.Gproxy.Writer.Limit.{plan_size_limit}
use tel_ego_openwrt.Gproxy.Budget.{
  new_middle_end_byte_budget, Action, begin, proceed, holding, refused, run, act_at, act,
  advance_caller, try_swap, load_high_water, swap_high_water,
}
use tel_ego_openwrt.Gproxy.Budget.Safety.{idlers, total_held, new_middle_end_byte_budget-run}
use tel_ego_openwrt.Gproxy.Writer.Total.{write_wire-Delivers}

-- A stream cipher whose state is the position: it adds the position to each byte.
shift : ℕ → List ℕ → List ℕ
shift s [] = []
shift s (x ∷ xs) = ((x + s) % 256) ∷ shift (s + 1) xs

position_cipher : ℕ → List ℕ → ℕ × List ℕ
unfolding shift
position_cipher s xs = (s + length xs, shift s xs)

length-shift : (s : ℕ) (xs : List ℕ) → length (shift s xs) ≡ length xs
unfolding shift
length-shift s [] = refl
length-shift s (x ∷ xs) = ap suc (length-shift (s + 1) xs)

shift-append :
    (s : ℕ) (xs ys : List ℕ) → shift s (xs ++ ys) ≡ shift s xs ++ shift (s + length xs) ys
unfolding shift
shift-append s [] ys = ap (λ t. shift t ys) (omega arith)
shift-append s (x ∷ xs) ys =
    ap (λ zs. ((x + s) % 256) ∷ zs)
      (shift-append (s + 1) xs ys ∙ ap (λ t. shift (s + 1) xs ++ shift t ys) (omega arith))

length-position_cipher : (s : ℕ) (xs : List ℕ) → length (position_cipher s xs).1 ≡ length xs
unfolding position_cipher
length-position_cipher s xs = length-shift s xs

position_cipher-nil : (s : ℕ) → position_cipher s [] ≡ (s, [])
unfolding position_cipher shift
position_cipher-nil s = ap (λ t. (t, [])) (omega arith)

position_sum : (s : ℕ) (xs ys : List ℕ) → s + length (xs ++ ys) ≡ s + length xs + length ys
position_sum s xs ys = omega (arith, length-append xs ys)

position_cipher-append :
    (s : ℕ) (xs ys : List ℕ)
    → position_cipher s (xs ++ ys)
      ≡ (let (t, a) = position_cipher s xs in let (u, b) = position_cipher t ys in (u, a ++ b))
unfolding position_cipher
position_cipher-append s xs ys = λ i. (position_sum s xs ys i, shift-append s xs ys i)

-- A client behind its first record.
abbrev client : Client ℕ
client = record {
  mode_dd = false;
  drs = record { records = 1; bytes = 1; split_next = false; drs_on = true; max_size = 16640 };
  encryptor = 7;
}

write_wire-Delivers_example :
    let (c', r) = write_wire position_cipher client (1 ∷ 2 ∷ 3 ∷ []) in
    (out : List ℕ) × (r ≡ ok out)
    × (length out ≡ plan_size client.drs 3)
    × Delivers out (position_cipher 7 (1 ∷ 2 ∷ 3 ∷ [])).1
    × (c'.encryptor ≡ (position_cipher 7 (1 ∷ 2 ∷ 3 ∷ [])).0)
write_wire-Delivers_example =
    write_wire-Delivers position_cipher length-position_cipher position_cipher-nil
      position_cipher-append client (1 ∷ 2 ∷ 3 ∷ []) refl refl (omega arith) (omega arith)

plan_size_limit_example : plan_size client.drs 100000 ≤ max_encoded_response
plan_size_limit_example = plan_size_limit client.drs 100000 refl (omega arith) (omega arith)

-- Two goroutines that both load 0; the second swap fails, and its retry finds no room.
abbrev schedule : List (ℕ × Action)
schedule =
    (0, begin 6)
    ∷ (1, begin 6)
    ∷ (0, proceed)
    ∷ (1, proceed)
    ∷ (0, proceed)
    ∷ (1, proceed)
    ∷ (1, proceed)
    ∷ (1, proceed)
    ∷ (0, proceed)
    ∷ (0, proceed)
    ∷ []

budget_after : run schedule (new_middle_end_byte_budget 10) (idlers 2) ≡ (
  record { limit = 10; current = 6; high_water = 6; backpressure = 1 },
  holding 6 ∷ refused ∷ [],
)
unfolding run act_at act advance_caller try_swap load_high_water swap_high_water
    new_middle_end_byte_budget
budget_after = refl

new_middle_end_byte_budget-run_example :
    let (b, cs) = run schedule (new_middle_end_byte_budget 10) (idlers 2) in
    (b.current ≡ total_held cs) × (b.current ≤ 10) × (b.high_water ≤ 10)
new_middle_end_byte_budget-run_example = new_middle_end_byte_budget-run 10 2 schedule
