-- ===== src/MiddleEnd/Crc.antt =====
-- The two checksums of transport/middleend/frame.go: hash/crc32 with the IEEE and the Castagnoli
-- polynomials, in their reflected form, bit by bit.
use Prim.Native.Nat.{bit_xor}
use tel_ego_openwrt.Base.{
  ℕ, zero, suc, ◌/◌, ◌%◌, ◌^◌, ◌<◌, ◌≡◌, refl, List, [], ◌∷◌, ◌==◌, if◌then◌else◌, arith,
}

abbrev pub ieee_polynomial : ℕ
ieee_polynomial = 0xedb88320

abbrev pub castagnoli_polynomial : ℕ
castagnoli_polynomial = 0x82f63b78

-- `n` bits of the register are shifted out.
crc_bits : ℕ → ℕ → ℕ → ℕ
crc_bits polynomial zero crc = crc
crc_bits polynomial (suc n) crc =
    crc_bits polynomial n (if crc % 2 == 1 then bit_xor (crc / 2) polynomial else crc / 2)

crc_update : ℕ → ℕ → List ℕ → ℕ
crc_update polynomial crc [] = crc
crc_update polynomial crc (b ∷ bs) =
    crc_update polynomial (crc_bits polynomial 8 (bit_xor crc b)) bs

-- The result is a uint32.
unfoldable pub crc32 : ℕ → List ℕ → ℕ
unfolding crc_update crc_bits
crc32 polynomial bytes = bit_xor (crc_update polynomial 0xffffffff bytes) 0xffffffff % 2 ^ 32

pub crc32-lt : (polynomial : ℕ) (bytes : List ℕ) → crc32 polynomial bytes < 2 ^ 32
unfolding crc32
crc32-lt polynomial bytes = omega arith

-- The published check values: the checksums of "123456789".
abbrev check_input : List ℕ
check_input = 0x31 ∷ 0x32 ∷ 0x33 ∷ 0x34 ∷ 0x35 ∷ 0x36 ∷ 0x37 ∷ 0x38 ∷ 0x39 ∷ []

crc32_ieee_check : crc32 ieee_polynomial check_input ≡ 0xcbf43926
unfolding crc32
crc32_ieee_check = refl

crc32_castagnoli_check : crc32 castagnoli_polynomial check_input ≡ 0xe3069283
unfolding crc32
crc32_castagnoli_check = refl
