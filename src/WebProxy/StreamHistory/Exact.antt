-- ===== src/WebProxy/StreamHistory/Exact.antt =====
-- webproxy/stream_history.go: the history holds exactly the numbers that were added.
use tel_ego_openwrt.Base.{
  ℕ, ◌+◌, ◌/◌, ◌^◌, ◌<◌, Bool, true, false, not, Option, none, some, ◌==◌, if◌then◌else◌, get_or,
  set, length, ◌≡◌, refl, sym, ap, subst, ◌∙◌, inl, inr, Bool-cases, Option-cases, ==_iff, arith,
}
use tel_ego_openwrt.WebProxy.StreamHistory.{
  StreamIdHistory, Chunk, chunk_bits, chunk_count, new_chunk, new_stream_id_history, get_bit,
  set_bit, contains, add_to, add,
}
use tel_ego_openwrt.WebProxy.StreamHistory.Bits.{
  IsChunk, IsSlot, IsHistory, get_or-set, length-set_same, length-replicate, All-set_one,
  All-get_or, All-replicate, get_bit-set_bit, set_bit-IsChunk, new_chunk-IsChunk, get_bit-new_chunk,
  different,
}

-- What a lookup finds in one slot.
unfoldable pub in_slot : Option Chunk → ℕ → Bool
in_slot none j = false
in_slot (some chunk) j = get_bit chunk j

contains_lem :
    (h : StreamIdHistory) (j : ℕ) → contains h j ≡ in_slot (get_or h.chunks (j / chunk_bits) none) j
unfolding contains in_slot
contains_lem h j = elim (Option-cases (get_or h.chunks (j / chunk_bits) none)) [
  | inl x ↦ rw (contains, x) refl
  | inr (chunk, x) ↦ rw (contains, x) refl
]

-- The chunk that Add works on, and its slot's bits.
module _ (h : StreamIdHistory) (allocated i : ℕ) (chunk : Chunk) (ok : IsHistory h)
    (whole : IsChunk chunk) (range : i < 2 ^ 24)
    (found : (j : ℕ) → get_bit chunk j ≡ in_slot (get_or h.chunks (i / chunk_bits) none) j) where
  slot_fits : i / chunk_bits < length h.chunks
  slot_fits = subst (λ n. i / chunk_bits < n) (sym ok.slots) (omega arith)

  written : Chunk → StreamIdHistory
  written c = record { chunks = set h.chunks (i / chunk_bits) (some c); allocated = allocated }

  contains-written :
      (c : Chunk) (j : ℕ)
      → contains (written c) j
        ≡ (if (j / chunk_bits) == (i / chunk_bits) then get_bit c j else contains h j)
  unfolding written in_slot
  contains-written c j =
      let slots = get_or-set h.chunks (i / chunk_bits) (j / chunk_bits) (some c) none slot_fits in
      elim (Bool-cases ((j / chunk_bits) == (i / chunk_bits))) [
        | inl y ↦ rw y (
            contains_lem (written c) j
            ∙ ap (λ o. in_slot o j)
                (slots ∙ ap (λ b. if b then some c else get_or h.chunks (j / chunk_bits) none) y))
        | inr n ↦ rw n (
            contains_lem (written c) j
            ∙ ap (λ o. in_slot o j)
                (slots ∙ ap (λ b. if b then some c else get_or h.chunks (j / chunk_bits) none) n)
            ∙ sym (contains_lem h j))
      ]

  written-IsHistory : (c : Chunk) → IsChunk c → IsHistory (written c)
  unfolding written IsSlot
  written-IsHistory c w = record {
    slots = length-set_same h.chunks (i / chunk_bits) (some c) ∙ ok.slots;
    whole = All-set_one IsSlot h.chunks (i / chunk_bits) (some c) ok.whole w;
  }

  base : StreamIdHistory
  base = record h { allocated = allocated }

  in_chunk : (j : ℕ) → j / chunk_bits ≡ i / chunk_bits → get_bit chunk j ≡ contains h j
  in_chunk j e =
      found j ∙ ap (λ n. in_slot (get_or h.chunks n none) j) (sym e) ∙ sym (contains_lem h j)

  merge :
      (v : Bool) (j : ℕ)
      → v ≡ (if j == i then true else get_bit chunk j)
      → (if (j / chunk_bits) == (i / chunk_bits) then v else contains h j)
        ≡ (if j == i then true else contains h j)
  merge v j e = elim (Bool-cases ((j / chunk_bits) == (i / chunk_bits))) [
    | inl y ↦
        let same = in_chunk j ((==_iff (j / chunk_bits) (i / chunk_bits)).0 y) in
        rw y (e ∙ ap (λ b. if j == i then true else b) same)
    | inr n ↦
        let apart = different i j (λ s. ground (arith, ap (λ x. x / chunk_bits) s)) in
        rw (n, apart) refl
  ]

  old_bit :
      (j : ℕ)
      → get_bit chunk i ≡ true
      → get_bit chunk j ≡ (if j == i then true else get_bit chunk j)
  old_bit j g = elim (Bool-cases (j == i)) [
    | inl y ↦ rw y (ap (get_bit chunk) ((==_iff j i).0 y) ∙ g)
    | inr n ↦ rw n refl
  ]

  new_bit :
      (j : ℕ)
      → j / chunk_bits ≡ i / chunk_bits
      → (if (j / chunk_bits) == (i / chunk_bits) then get_bit (set_bit chunk i) j else contains h j)
        ≡ (if j == i then true else contains h j)
  new_bit j e = merge (get_bit (set_bit chunk i) j) j (get_bit-set_bit chunk i j whole (sym e))

  far :
      (j : ℕ)
      → ((j / chunk_bits) == (i / chunk_bits)) ≡ false
      → (if (j / chunk_bits) == (i / chunk_bits) then get_bit (set_bit chunk i) j else contains h j)
        ≡ (if j == i then true else contains h j)
  far j n =
      let apart = different i j (λ s. ground (arith, ap (λ x. x / chunk_bits) s)) in
      rw (n, apart) refl

  add_to-contains :
      (j : ℕ) → contains (add_to base chunk i).0 j ≡ (if j == i then true else contains h j)
  unfolding add_to base written
  add_to-contains j = elim (Bool-cases (get_bit chunk i)) [
    | inl g ↦ rw (add_to, g) (contains-written chunk j ∙ merge (get_bit chunk j) j (old_bit j g))
    | inr g ↦
        rw (add_to, g)
          (contains-written (set_bit chunk i) j
            ∙ elim (Bool-cases ((j / chunk_bits) == (i / chunk_bits))) [
              | inl y ↦ new_bit j ((==_iff (j / chunk_bits) (i / chunk_bits)).0 y)
              | inr n ↦ far j n
            ])
  ]

  add_to-new : (add_to base chunk i).1 ≡ not (contains h i)
  unfolding add_to base
  add_to-new = elim (Bool-cases (get_bit chunk i)) [
    | inl g ↦ rw (add_to, g) (ap not (sym g ∙ in_chunk i refl))
    | inr g ↦ rw (add_to, g) (ap not (sym g ∙ in_chunk i refl))
  ]

  add_to-IsHistory : IsHistory (add_to base chunk i).0
  unfolding add_to base written
  add_to-IsHistory = elim (Bool-cases (get_bit chunk i)) [
    | inl g ↦ rw (add_to, g) (written-IsHistory chunk whole)
    | inr g ↦ rw (add_to, g) (written-IsHistory (set_bit chunk i) (set_bit-IsChunk chunk i whole))
  ]

-- The three facts about Add, on a history that is well formed and a number of 24 bits.
module _ (h : StreamIdHistory) (i : ℕ) (ok : IsHistory h) (range : i < 2 ^ 24) where
  slot_chunk : (chunk : Chunk) → get_or h.chunks (i / chunk_bits) none ≡ some chunk → IsChunk chunk
  unfolding IsSlot
  slot_chunk chunk x = subst IsSlot x (
      All-get_or IsSlot h.chunks (i / chunk_bits) none ok.whole
        (subst (λ n. i / chunk_bits < n) (sym ok.slots) (omega arith)))

  empty_slot :
      get_or h.chunks (i / chunk_bits) none ≡ none
      → (j : ℕ) → get_bit new_chunk j ≡ in_slot (get_or h.chunks (i / chunk_bits) none) j
  unfolding in_slot
  empty_slot x j = get_bit-new_chunk j ∙ sym (ap (λ o. in_slot o j) x)

  full_slot :
      (chunk : Chunk)
      → get_or h.chunks (i / chunk_bits) none ≡ some chunk
      → (j : ℕ) → get_bit chunk j ≡ in_slot (get_or h.chunks (i / chunk_bits) none) j
  unfolding in_slot
  full_slot chunk x j = sym (ap (λ o. in_slot o j) x)

  -- On a well-formed history and for a 24-bit number, what Contains says behind an Add is true for
  -- that number, and for every other number what it said before.
  pub contains-add : (j : ℕ) → contains (add h i).0 j ≡ (if j == i then true else contains h j)
  unfolding add base
  contains-add j = elim (Option-cases (get_or h.chunks (i / chunk_bits) none)) [
    | inl x ↦
        rw (add, x)
          (add_to-contains h (h.allocated + 1) i new_chunk ok new_chunk-IsChunk range (empty_slot x)
            j)
    | inr (chunk, x) ↦
        rw (add, x)
          (add_to-contains h h.allocated i chunk ok (slot_chunk chunk x) range (full_slot chunk x)
            j)
  ]

  -- On a well-formed history, Add of a 24-bit number returns true exactly where Contains said
  -- false.
  pub add-new : (add h i).1 ≡ not (contains h i)
  unfolding add base
  add-new = elim (Option-cases (get_or h.chunks (i / chunk_bits) none)) [
    | inl x ↦
        rw (add, x)
          (add_to-new h (h.allocated + 1) i new_chunk ok new_chunk-IsChunk range (empty_slot x))
    | inr (chunk, x) ↦
        rw (add, x)
          (add_to-new h h.allocated i chunk ok (slot_chunk chunk x) range (full_slot chunk x))
  ]

  pub add-IsHistory : IsHistory (add h i).0
  unfolding add base
  add-IsHistory = elim (Option-cases (get_or h.chunks (i / chunk_bits) none)) [
    | inl x ↦
        rw (add, x)
          (add_to-IsHistory h (h.allocated + 1) i new_chunk ok new_chunk-IsChunk range
            (empty_slot x))
    | inr (chunk, x) ↦
        rw (add, x)
          (add_to-IsHistory h h.allocated i chunk ok (slot_chunk chunk x) range (full_slot chunk x))
  ]

abbrev empty : Option Chunk
empty = none

pub new_stream_id_history-IsHistory : IsHistory new_stream_id_history
unfolding new_stream_id_history IsSlot
new_stream_id_history-IsHistory = record {
  slots = length-replicate chunk_count empty;
  whole = All-replicate IsSlot chunk_count none tt;
}
