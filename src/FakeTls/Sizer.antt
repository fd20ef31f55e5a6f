-- ===== src/FakeTls/Sizer.antt =====
-- transport/faketls/drs.go: the sizes of the outbound ApplicationData records.
-- `records` is a uint32 and `bytes` a uint64, whose additions wrap.
use tel_ego_openwrt.Base.{
  ℕ, zero, suc, ◌+◌, ◌-◌, ◌*◌, ◌%◌, ◌^◌, Bool, false, ◌&&◌, ltb, ◌==◌, min, if◌then◌else◌,
}
use tel_ego_openwrt.FakeTls.Record.{record_header_size}

abbrev pub drs_probe_size : ℕ
drs_probe_size = 1369

abbrev pub drs_ramp_records : ℕ
drs_ramp_records = 8

abbrev pub drs_ramp_bytes : ℕ
drs_ramp_bytes = 128 * 1024

pub record DrsState : Type 0 where
  pub records : ℕ
  pub bytes : ℕ
  pub split_next : Bool
  pub drs_on : Bool
  pub max_size : ℕ

unfoldable pub new_drs_state : Bool → Bool → ℕ → DrsState
new_drs_state drs_on split_first max_size = record {
  records = 0;
  bytes = 0;
  split_next = split_first;
  drs_on = drs_on;
  max_size = max_size;
}

-- DRSState.NextChunk: the state it leaves, and the size of the next record.
unfoldable pub next_chunk : DrsState → ℕ → DrsState × ℕ
next_chunk d remaining =
    if remaining == 0
    then (d, 0)
    else if d.split_next
    then (record d { split_next = false }, 1)
    else if d.drs_on && (ltb d.records drs_ramp_records && ltb d.bytes drs_ramp_bytes)
    then (d, min remaining drs_probe_size)
    else (d, min remaining d.max_size)

-- DRSState.Advance
unfoldable pub advance : DrsState → ℕ → DrsState
advance d n =
    if n == 0
    then d
    else record d { records = (d.records + 1) % 2 ^ 32; bytes = (d.bytes + n) % 2 ^ 64 }

-- The loop of PlanSize on a copy of the state, from a total on. A round takes at least one byte, so
-- that the pending bytes bound the rounds.
unfoldable pub plan_loop : ℕ → DrsState → ℕ → ℕ → ℕ
plan_loop zero sim remaining total = total
plan_loop (suc fuel) sim remaining total =
    let (chosen, c) = next_chunk sim remaining in
    let rest =
      plan_loop fuel (advance chosen c) (remaining - c) (total + (record_header_size + c)) in
    if remaining == 0 then total else if c == 0 then total else rest

-- DRSState.PlanSize
unfoldable pub plan_size : DrsState → ℕ → ℕ
plan_size d payload_len = plan_loop payload_len d payload_len 0
