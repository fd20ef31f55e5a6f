-- ===== src/MiddleEnd/Handshake/ProcessIds.antt =====
-- handshake.go: process identifiers, their twelve bytes and their patterns.
use tel_ego_openwrt.Base.{
  ℕ, ◌≤◌, ◌≡◌, refl, ◌↔◌, List, [], ◌∷◌, ◌++◌, true, arith, All, length, take,
}
use tel_ego_openwrt.Base.Bytes.{
  IsByte, join32, join32_bytes, join16_bytes, put_le32-join32, put_le16-join16, join32-lt,
  join16-lt,
}
use tel_ego_openwrt.Base.Int.{
  eqb_ℤ_iff, to_uint32, to_int32-to_uint32, to_uint32-to_int32, to_uint32-lt, to_int32-IsInt32,
}
use tel_ego_openwrt.MiddleEnd.Handshake.{
  ProcessId, IsProcessId, put_process_id, parse_process_id, matches, mismatched_process_id_fields,
  eqb_process_id,
}

-- The identifier whose twelve bytes are written is read back, whatever follows. Its fields are within
-- their ranges.
pub parse_process_id-put_process_id :
    (p : ProcessId) (rest : List ℕ)
    → IsProcessId p
    → parse_process_id (put_process_id p ++ rest) ≡ p
unfolding parse_process_id put_process_id
parse_process_id-put_process_id p rest w = ground (
  arith,
  join32_bytes p.ip,
  join16_bytes p.port,
  join16_bytes p.pid,
  join32_bytes (to_uint32 p.uptime),
  to_uint32-lt p.uptime,
  to_int32-to_uint32 p.uptime,
)

-- Twelve bytes are those of the identifier that they are read as.
pub put_process_id-parse_process_id :
    (src : List ℕ)
    → All IsByte src
    → 12 ≤ length src
    → (put_process_id (parse_process_id src) ≡ take 12 src) × IsProcessId (parse_process_id src)
unfolding parse_process_id put_process_id
put_process_id-parse_process_id (a ∷ b ∷ c ∷ d ∷ e ∷ f ∷ g ∷ h ∷ i ∷ j ∷ k ∷ l ∷ rest) w n = (
  ground (
    arith,
    put_le32-join32 a b c d,
    put_le16-join16 e f,
    put_le16-join16 g h,
    put_le32-join32 i j k l,
    to_uint32-to_int32 (join32 l k j i),
    join32-lt l k j i,
  ),
  record {
    ip_range = ground (arith, join32-lt d c b a);
    port_range = ground (arith, join16-lt f e);
    pid_range = ground (arith, join16-lt h g);
    uptime_range = to_int32-IsInt32 (join32 l k j i) (ground (arith, join32-lt l k j i));
  },
)
put_process_id-parse_process_id _ w n = absurd (omega arith)

-- Matches holds exactly when mismatchedProcessIDFields names no field.
pub matches-mismatched_process_id_fields :
    (local other : ProcessId)
    → (matches local other ≡ true) ↔ (mismatched_process_id_fields local other ≡ [])
unfolding matches mismatched_process_id_fields
matches-mismatched_process_id_fields local other = (λ h. ground arith, λ h. ground arith)

pub eqb_process_id_iff : (a b : ProcessId) → (eqb_process_id a b ≡ true) ↔ (a ≡ b)
unfolding eqb_process_id
eqb_process_id_iff a b = (
  λ h. ground (arith, (eqb_ℤ_iff a.uptime b.uptime).0),
  λ h. rw h (ground (arith, (eqb_ℤ_iff b.uptime b.uptime).1 refl)),
)
