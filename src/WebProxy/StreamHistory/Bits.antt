-- ===== src/WebProxy/StreamHistory/Bits.antt =====
-- webproxy/stream_history.go: the bits of a chunk, and the shape of a history.
use tel_ego_openwrt.Base.{
  ℕ, zero, suc, ◌/◌, ◌<◌, List, [], ◌∷◌, true, false, Option, none, some, ◌==◌, if◌then◌else◌,
  get_or, set, replicate, length, All, ◌≡◌, refl, sym, ap, subst, ◌∙◌, inl, inr, Bool-cases, ==_iff,
  arith,
}
use tel_ego_openwrt.WebProxy.StreamHistory.{
  StreamIdHistory, Chunk, Word, chunk_bits, word_bits, chunk_count, word_count, new_chunk, word_of,
  bit_of, get_bit, set_bit,
}

module _ {ℓ} {A : Type ℓ} where
  pub get_or-set :
      (xs : List A) (i j : ℕ) (v d : A)
      → i < length xs
      → get_or (set xs i v) j d ≡ (if j == i then v else get_or xs j d)
  get_or-set [] i j v d h = absurd (omega arith)
  get_or-set (x ∷ xs) zero zero v d h = refl
  get_or-set (x ∷ xs) zero (suc j) v d h = ground arith
  get_or-set (x ∷ xs) (suc i) zero v d h = ground arith
  get_or-set (x ∷ xs) (suc i) (suc j) v d h = ground (arith, get_or-set xs i j v d)

  pub length-set_same : (xs : List A) (i : ℕ) (v : A) → length (set xs i v) ≡ length xs
  length-set_same [] i v = refl
  length-set_same (x ∷ xs) zero v = refl
  length-set_same (x ∷ xs) (suc i) v = ap suc (length-set_same xs i v)

  pub get_or-replicate : (n i : ℕ) (v : A) → get_or (replicate n v) i v ≡ v
  get_or-replicate zero i v = refl
  get_or-replicate (suc n) zero v = refl
  get_or-replicate (suc n) (suc i) v = get_or-replicate n i v

  pub get_or-replicate_in : (n i : ℕ) (v d : A) → i < n → get_or (replicate n v) i d ≡ v
  get_or-replicate_in zero i v d h = absurd (omega arith)
  get_or-replicate_in (suc n) zero v d h = refl
  get_or-replicate_in (suc n) (suc i) v d h = get_or-replicate_in n i v d (omega arith)

  pub length-replicate : (n : ℕ) (v : A) → length (replicate n v) ≡ n
  length-replicate zero v = refl
  length-replicate (suc n) v = ap suc (length-replicate n v)

  pub All-set_one {κ} :
      (P : A → Type κ) (xs : List A) (i : ℕ) (v : A) → All P xs → P v → All P (set xs i v)
  All-set_one P [] i v h p = tt
  All-set_one P (x ∷ xs) zero v h p = (p, h.1)
  All-set_one P (x ∷ xs) (suc i) v h p = (h.0, All-set_one P xs i v h.1 p)

  pub All-get_or {κ} :
      (P : A → Type κ) (xs : List A) (i : ℕ) (d : A) → All P xs → i < length xs → P (get_or xs i d)
  All-get_or P [] i d h l = absurd (omega arith)
  All-get_or P (x ∷ xs) zero d h l = h.0
  All-get_or P (x ∷ xs) (suc i) d h l = All-get_or P xs i d h.1 (omega arith)

  pub All-replicate {κ} : (P : A → Type κ) (n : ℕ) (v : A) → P v → All P (replicate n v)
  All-replicate P zero v p = tt
  All-replicate P (suc n) v p = (p, All-replicate P n v p)

-- A chunk of 1024 words of 64 bits.
unfoldable pub IsWord : Word → Type 0
IsWord word = length word ≡ word_bits

unfoldable pub IsChunk : Chunk → Type 0
unfolding IsWord
IsChunk chunk = (length chunk ≡ word_count) × All IsWord chunk

unfoldable pub IsSlot : Option Chunk → Type 0
IsSlot none = Unit
IsSlot (some chunk) = IsChunk chunk

-- 256 slots, each empty or with a whole chunk.
pub record IsHistory (h : StreamIdHistory) : Type 0 where
  pub slots : length h.chunks ≡ chunk_count
  pub whole : All IsSlot h.chunks

-- The place of a number's bit tells the number from the others of its chunk.
same_place :
    (i j : ℕ)
    → i / chunk_bits ≡ j / chunk_bits
    → word_of i ≡ word_of j
    → bit_of i ≡ bit_of j
    → i ≡ j
unfolding word_of bit_of
same_place i j c w b = omega arith

word_of-range : (i : ℕ) → word_of i < word_count
unfolding word_of
word_of-range i = omega arith

bit_of-range : (i : ℕ) → bit_of i < word_bits
unfolding bit_of
bit_of-range i = omega arith

pub different : (i j : ℕ) → (i ≡ j → ⊥) → (j == i) ≡ false
different i j h = elim (Bool-cases (j == i)) [
  | inl e ↦ absurd (h (sym ((==_iff j i).0 e)))
  | inr e ↦ e
]

-- The write of one bit, at the places of two numbers of one chunk.
pub get_bit-set_bit :
    (chunk : Chunk) (i j : ℕ)
    → IsChunk chunk
    → i / chunk_bits ≡ j / chunk_bits
    → get_bit (set_bit chunk i) j ≡ (if j == i then true else get_bit chunk j)
unfolding get_bit set_bit IsChunk IsWord
get_bit-set_bit chunk i j c e =
    let word = get_or chunk (word_of i) (replicate 0 false) in
    let changed = set word (bit_of i) true in
    let none_yet : Word = replicate 0 false in
    let fits : bit_of i < length word =
      subst (λ n. bit_of i < n)
        (sym (
          All-get_or IsWord chunk (word_of i) none_yet c.1
            (subst (λ n. word_of i < n) (sym c.0) (word_of-range i))))
        (bit_of-range i) in
    let words =
      get_or-set chunk (word_of i) (word_of j) changed none_yet
        (subst (λ n. word_of i < n) (sym c.0) (word_of-range i)) in
    let bits = get_or-set word (bit_of i) (bit_of j) true false fits in
    elim (Bool-cases (word_of j == word_of i)) [
      | inr n ↦
          let apart = different i j (λ s. ground (arith, ap word_of s)) in
          rw apart (
            ap (λ w. get_or w (bit_of j) false)
              (words ∙ ap (λ b. if b then changed else get_or chunk (word_of j) none_yet) n))
      | inl y ↦
          let here =
            ap (λ w. get_or w (bit_of j) false)
              (words ∙ ap (λ b. if b then changed else get_or chunk (word_of j) none_yet) y) in
          elim (Bool-cases (bit_of j == bit_of i)) [
            | inl z ↦
                let equal =
                  same_place i j e (sym ((==_iff (word_of j) (word_of i)).0 y))
                    (sym ((==_iff (bit_of j) (bit_of i)).0 z)) in
                rw ((==_iff j i).1 (sym equal))
                  (here ∙ bits ∙ ap (λ b. if b then true else get_or word (bit_of j) false) z)
            | inr z ↦
                let apart = different i j (λ s. ground (arith, ap bit_of s)) in
                let same : get_or word (bit_of j) false
                    ≡ get_or (get_or chunk (word_of j) none_yet) (bit_of j) false =
                  ap (λ w. get_or (get_or chunk w none_yet) (bit_of j) false)
                    (sym ((==_iff (word_of j) (word_of i)).0 y)) in
                rw apart (
                  here ∙ bits ∙ ap (λ b. if b then true else get_or word (bit_of j) false) z ∙ same)
          ]
    ]

pub set_bit-IsChunk : (chunk : Chunk) (i : ℕ) → IsChunk chunk → IsChunk (set_bit chunk i)
unfolding set_bit IsChunk IsWord
set_bit-IsChunk chunk i c =
    let word = get_or chunk (word_of i) (replicate 0 false) in
    let sized =
      All-get_or IsWord chunk (word_of i) (replicate 0 false) c.1
        (subst (λ n. word_of i < n) (sym c.0) (word_of-range i)) in
    (
      length-set_same chunk (word_of i) (set word (bit_of i) true) ∙ c.0,
      All-set_one IsWord chunk (word_of i) (set word (bit_of i) true) c.1
          (length-set_same word (bit_of i) true ∙ sized),
    )

pub new_chunk-IsChunk : IsChunk new_chunk
unfolding new_chunk IsChunk IsWord
new_chunk-IsChunk = (
  length-replicate word_count (replicate word_bits false),
  All-replicate IsWord word_count (replicate word_bits false) (length-replicate word_bits false),
)

pub get_bit-new_chunk : (j : ℕ) → get_bit new_chunk j ≡ false
unfolding new_chunk get_bit
get_bit-new_chunk j =
    ap (λ w. get_or w (bit_of j) false)
      (get_or-replicate_in word_count (word_of j) (replicate word_bits false) (replicate 0 false)
        (word_of-range j))
    ∙ get_or-replicate word_bits (bit_of j) false
