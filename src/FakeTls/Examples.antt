-- ===== src/FakeTls/Examples.antt =====
-- Tests of the record and sizing models, and the theorems at concrete inputs.
use tel_ego_openwrt.Base.{ℕ, ◌≡◌, refl, List, [], ◌∷◌, arith, true, some, ok, err}
use tel_ego_openwrt.Base.Bytes.{be_uint16, join16}
use tel_ego_openwrt.FakeTls.Record.{
  unexpected_end, read_full, read_record, write_loop, write_application_data,
  wrap_application_data_chunked,
}
use tel_ego_openwrt.FakeTls.Record.RoundTrip.{
  Delivers, write_application_data-Delivers, wrap_application_data_chunked-Delivers,
}
use tel_ego_openwrt.FakeTls.Sizer.{new_drs_state, next_chunk, advance, plan_loop, plan_size}

written : write_application_data (1 ∷ 2 ∷ []) ≡ 0x17 ∷ 3 ∷ 3 ∷ 0 ∷ 2 ∷ 1 ∷ 2 ∷ []
unfolding write_application_data write_loop
written = refl

read :
    read_record (0x17 ∷ 3 ∷ 3 ∷ 0 ∷ 2 ∷ 1 ∷ 2 ∷ 9 ∷ [])
    ≡ ok (record { record_type = 0x17; version = 0x0303; payload = 1 ∷ 2 ∷ [] }, 9 ∷ [])
unfolding read_record read_full be_uint16 join16
read = refl

-- A payload that ends early.
read_short : read_record (0x17 ∷ 3 ∷ 3 ∷ 0 ∷ 2 ∷ 1 ∷ []) ≡ err unexpected_end
unfolding read_record read_full be_uint16 join16
read_short = refl

-- A split record, one probe record, and the rest of 1,400 bytes.
planned : plan_size (new_drs_state true true 16640) 1400 ≡ 1415
unfolding plan_size new_drs_state plan_loop next_chunk advance
planned = refl

write_application_data-Delivers_example :
    Delivers (write_application_data (1 ∷ 2 ∷ [])) (1 ∷ 2 ∷ [])
write_application_data-Delivers_example = write_application_data-Delivers (1 ∷ 2 ∷ [])

wrap_application_data_chunked-Delivers_example :
    (out : List ℕ) × (wrap_application_data_chunked (1 ∷ 2 ∷ []) ≡ some out)
    × Delivers out (1 ∷ 2 ∷ [])
wrap_application_data_chunked-Delivers_example =
    wrap_application_data_chunked-Delivers (1 ∷ 2 ∷ []) (omega arith)
