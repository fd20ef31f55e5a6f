-- ===== src/Gproxy/Writer/Limit.antt =====
-- middleend_frontend.go, drs.go: middleEndMaxEncodedResponse is a bound of every plan, so that
-- writeWire refuses no packet of middleEndMaxClientWire bytes.
use tel_ego_openwrt.Base.{
  ℕ, zero, suc, ◌+◌, ◌-◌, ◌*◌, ◌/◌, ◌^◌, ◌≤◌, ◌<◌, ◌≡◌, ◌∙◌, arith, ltb, if◌then◌else◌,
}
use tel_ego_openwrt.FakeTls.Record.{max_record_payload}
use tel_ego_openwrt.FakeTls.Sizer.{
  DrsState, drs_ramp_records, next_chunk, advance, plan_loop, plan_size,
}
use tel_ego_openwrt.Gproxy.Writer.{max_client_wire, max_encoded_response}
use tel_ego_openwrt.Gproxy.Writer.Delivery.{
  next_chunk_bounds, advance-max_size, plan_loop_idle, plan_loop_step,
}

-- The records of one byte that are still to come.
splits : DrsState → ℕ
splits d = if d.split_next then 1 else 0

-- The probe records that can still come in `fuel` rounds: the counter may wrap once.
probes : ℕ → ℕ → ℕ
probes fuel records =
    if ltb records drs_ramp_records
    then drs_ramp_records - records
    else if ltb (records + fuel) (2 ^ 32)
    then 0
    else drs_ramp_records

full_records : ℕ → ℕ
full_records n = (n + max_record_payload - 1) / max_record_payload

limit : ℕ → DrsState → ℕ → ℕ
limit fuel d n = splits d + probes fuel d.records + full_records n

-- What a round of the plan does to that number.
round_limit :
    (fuel : ℕ) (d : DrsState) (n : ℕ)
    → 1 ≤ n
    → d.max_size ≡ max_record_payload
    → d.records < 2 ^ 32
    → fuel + 8 < 2 ^ 32
    → let (e, c) = next_chunk d n in 1 + limit fuel (advance e c) (n - c) ≤ limit (suc fuel) d n
unfolding limit splits probes full_records next_chunk advance
round_limit fuel d n p m r f = ground arith

advance_range : (d : DrsState) (n : ℕ) → d.records < 2 ^ 32 → (advance d n).records < 2 ^ 32
unfolding advance
advance_range d n r = ground arith

next_chunk_same :
    (d : DrsState) (n : ℕ)
    → ((next_chunk d n).0.records ≡ d.records) × ((next_chunk d n).0.max_size ≡ d.max_size)
unfolding next_chunk
next_chunk_same d n = ground arith

plan_loop-limit :
    (fuel : ℕ) (d : DrsState) (n : ℕ)
    → n ≤ fuel
    → d.max_size ≡ max_record_payload
    → d.records < 2 ^ 32
    → fuel + 8 < 2 ^ 32
    → plan_loop fuel d n 0 ≤ n + 5 * limit fuel d n
plan_loop-limit zero d n l m r f = unfold plan_loop in omega arith
plan_loop-limit (suc fuel) d zero l m r f = omega (arith, plan_loop_idle (suc fuel) d)
plan_loop-limit (suc fuel) d (suc n) l m r f =
    let (p, q, _, k) = next_chunk_bounds d (suc n) (omega arith) (omega arith) (omega arith) in
    let (same, _) = next_chunk_same d (suc n) in
    let e : DrsState = (next_chunk d (suc n)).0 in
    let c : ℕ = (next_chunk d (suc n)).1 in
    let ih =
      plan_loop-limit fuel (advance e c) (suc n - c) (omega arith) (advance-max_size e c ∙ k ∙ m)
        (advance_range e c (omega (arith, same))) (omega arith) in
    omega (
      arith,
      ih,
      plan_loop_step fuel d (suc n) (omega arith) p,
      round_limit fuel d (suc n) (omega arith) m r (omega arith),
    )

-- PlanSize of up to middleEndMaxClientWire bytes is at most middleEndMaxEncodedResponse, in every
-- record sizing state whose steady-state size is MaxRecordPayload and whose record counter fits 32
-- bits.
pub plan_size_limit :
    (d : DrsState) (n : ℕ)
    → d.max_size ≡ max_record_payload
    → d.records < 2 ^ 32
    → n ≤ max_client_wire
    → plan_size d n ≤ max_encoded_response
unfolding plan_size limit splits probes full_records
plan_size_limit d n m r l =
    let most : limit n d n ≤ 1 + drs_ramp_records + full_records n = ground arith in
    omega (arith, plan_loop-limit n d n (omega arith) m r (omega arith), most)
