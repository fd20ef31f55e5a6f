-- ===== src/Base/Bytes.antt =====
-- Bytes, and the fixed-width integers of encoding/binary. A byte slice is a list of numbers.
use Prim.Native.Nat.{ℕ, ◌+◌, ◌*◌, ◌/◌, ◌%◌, ◌^◌, ◌<◌}
use mathlib.Core.Path.{◌≡◌}
use mathlib.Core.List.{List, [], ◌∷◌, ◌++◌}
use native.Mathlib.Omega.{arith}
use tel_ego_openwrt.Base.Lists.{All, length}

abbrev pub IsByte : ℕ → Type 0
IsByte b = b < 256

-- binary.BigEndian.PutUint32
unfoldable pub put_be32 : ℕ → List ℕ
put_be32 n = (n / 2 ^ 24 % 256) ∷ (n / 2 ^ 16 % 256) ∷ (n / 2 ^ 8 % 256) ∷ (n % 256) ∷ []

-- binary.LittleEndian.PutUint32
unfoldable pub put_le32 : ℕ → List ℕ
put_le32 n = (n % 256) ∷ (n / 2 ^ 8 % 256) ∷ (n / 2 ^ 16 % 256) ∷ (n / 2 ^ 24 % 256) ∷ []

-- Four bytes, the highest first: `a<<24 | b<<16 | c<<8 | d`. The parts share no bit.
unfoldable pub join32 : ℕ → ℕ → ℕ → ℕ → ℕ
join32 a b c d = a * 2 ^ 24 + b * 2 ^ 16 + c * 2 ^ 8 + d

-- binary.BigEndian.Uint32 and binary.LittleEndian.Uint32. Both panic on fewer than four bytes; each
-- caller checks the length first, so the last clause is not reached.
unfoldable pub be_uint32 : List ℕ → ℕ
be_uint32 (a ∷ b ∷ c ∷ d ∷ rest) = join32 a b c d
be_uint32 _ = 0

unfoldable pub le_uint32 : List ℕ → ℕ
le_uint32 (a ∷ b ∷ c ∷ d ∷ rest) = join32 d c b a
le_uint32 _ = 0

pub be_uint32-put_be32 : (n : ℕ) (rest : List ℕ) → n < 2 ^ 32 → be_uint32 (put_be32 n ++ rest) ≡ n
unfolding be_uint32 put_be32 join32
be_uint32-put_be32 n rest h = omega arith

pub le_uint32-put_le32 : (n : ℕ) (rest : List ℕ) → n < 2 ^ 32 → le_uint32 (put_le32 n ++ rest) ≡ n
unfolding le_uint32 put_le32 join32
le_uint32-put_le32 n rest h = omega arith

-- Two bytes, the higher first: `a<<8 | b`.
unfoldable pub join16 : ℕ → ℕ → ℕ
join16 a b = a * 2 ^ 8 + b

-- binary.LittleEndian.PutUint16 and Uint16, and their big-endian forms.
unfoldable pub put_le16 : ℕ → List ℕ
put_le16 n = (n % 256) ∷ (n / 2 ^ 8 % 256) ∷ []

unfoldable pub le_uint16 : List ℕ → ℕ
le_uint16 (a ∷ b ∷ rest) = join16 b a
le_uint16 _ = 0

unfoldable pub put_be16 : ℕ → List ℕ
put_be16 n = (n / 2 ^ 8 % 256) ∷ (n % 256) ∷ []

unfoldable pub be_uint16 : List ℕ → ℕ
be_uint16 (a ∷ b ∷ rest) = join16 a b
be_uint16 _ = 0

-- The bytes of a number make it up, and the number made of bytes has them.
pub join32_bytes :
    (n : ℕ)
    → n < 2 ^ 32
    → join32 (n / 2 ^ 24 % 256) (n / 2 ^ 16 % 256) (n / 2 ^ 8 % 256) (n % 256) ≡ n
unfolding join32
join32_bytes n h = omega arith

pub join16_bytes : (n : ℕ) → n < 2 ^ 16 → join16 (n / 2 ^ 8 % 256) (n % 256) ≡ n
unfolding join16
join16_bytes n h = omega arith

pub put_le32-join32 :
    (a b c d : ℕ)
    → IsByte a
    → IsByte b
    → IsByte c
    → IsByte d
    → put_le32 (join32 d c b a) ≡ a ∷ b ∷ c ∷ d ∷ []
unfolding put_le32 join32
put_le32-join32 a b c d ha hb hc hd = ground arith

pub put_le16-join16 : (a b : ℕ) → IsByte a → IsByte b → put_le16 (join16 b a) ≡ a ∷ b ∷ []
unfolding put_le16 join16
put_le16-join16 a b ha hb = ground arith

pub join32-lt : (a b c d : ℕ) → IsByte a → IsByte b → IsByte c → IsByte d → join32 a b c d < 2 ^ 32
unfolding join32
join32-lt a b c d ha hb hc hd = omega arith

pub join16-lt : (a b : ℕ) → IsByte a → IsByte b → join16 a b < 2 ^ 16
unfolding join16
join16-lt a b ha hb = omega arith

-- Four bytes are those of the number that they are read as.
pub put_le32-le_uint32 :
    (xs : List ℕ) → All IsByte xs → length xs ≡ 4 → put_le32 (le_uint32 xs) ≡ xs
unfolding le_uint32
put_le32-le_uint32 (a ∷ b ∷ c ∷ d ∷ []) w n = ground (arith, put_le32-join32 a b c d)
put_le32-le_uint32 _ w n = absurd (omega arith)
