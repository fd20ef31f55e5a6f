-- ===== src/FakeTls/Record/Chunks.antt =====
-- record.go: byte sequences as sequences of records, and how a peer reads them.
use tel_ego_openwrt.Base.{
  ℕ, zero, suc, ◌+◌, ◌-◌, ◌*◌, ◌/◌, ◌%◌, ◌^◌, ◌≤◌, ◌≡◌, refl, sym, List, [], ◌∷◌, ◌++◌, arith, All,
  Bool-cases, inl, inr, length-take, length-drop, take-append-drop, false, ltb, ◌==◌, length, take,
  drop, min, Result, ok, err, ◌>>=◌, take-length_append, drop-length_append, length-append,
  if◌then◌else◌,
}
use tel_ego_openwrt.Base.Bytes.{put_be16, be_uint16, join16, join16_bytes}
use tel_ego_openwrt.FakeTls.Record.{
  Record, RecordError, record_type_application_data, max_record_payload, read_full, read_record,
  wrap_application_data,
}

-- The bytes of one ApplicationData record after another.
abbrev pub wrapped : List (List ℕ) → List ℕ
wrapped [] = []
wrapped (c ∷ cs) = wrap_application_data c ++ wrapped cs

abbrev pub concat : List (List ℕ) → List ℕ
concat [] = []
concat (c ∷ cs) = c ++ concat cs

-- A payload that ReadRecord accepts and that is worth a record.
abbrev pub Fits : List ℕ → Type 0
Fits c = (1 ≤ length c) × (length c ≤ max_record_payload)

-- What a peer does: it reads records until the stream ends. A record takes at least five bytes, so
-- that the length of the stream bounds the rounds.
unfoldable pub read_loop : ℕ → List ℕ → Result RecordError (List Record)
read_loop zero stream = ok []
read_loop (suc fuel) stream = if length stream == 0 then ok [] else elim (read_record stream) [
  | err x ↦ err x
  | ok (r, rest) ↦ (do rs ← read_loop fuel rest; ok (r ∷ rs))
]

abbrev pub application_data : List ℕ → Record
application_data c = record { record_type = 0x17; version = 0x0303; payload = c }

abbrev pub application_records : List (List ℕ) → List Record
application_records [] = []
application_records (c ∷ cs) = application_data c ∷ application_records cs

read_full-append : (c rest : List ℕ) → read_full (c ++ rest) (length c) ≡ ok (c, rest)
unfolding read_full
read_full-append [] rest = refl
read_full-append (b ∷ c) rest =
    ground (arith, take-length_append c rest, drop-length_append c rest, length-append c rest)

read_header :
    (t u v a b : ℕ) (rest : List ℕ)
    → read_full (t ∷ u ∷ v ∷ a ∷ b ∷ rest) 5 ≡ ok (t ∷ u ∷ v ∷ a ∷ b ∷ [], rest)
unfolding read_full
read_header t u v a b rest = ground arith

-- ReadRecord reads a wrapped payload back, whatever follows it.
pub read_record-wrap_application_data :
    (c rest : List ℕ)
    → length c ≤ max_record_payload
    → read_record (wrap_application_data c ++ rest) ≡ ok (application_data c, rest)
unfolding read_record wrap_application_data be_uint16 put_be16
read_record-wrap_application_data c rest n =
    let small : length c % 2 ^ 16 ≡ length c = omega arith in
    let fits : ltb max_record_payload (length c) ≡ false = ground arith in
    rw
      (
        small,
        read_header record_type_application_data 3 3 (length c / 2 ^ 8 % 256) (length c % 256)
            (c ++ rest),
        join16_bytes (length c) (omega arith),
        fits,
        read_full-append c rest,
      )
      (unfold join16 in refl)

pub length-wrapped :
    (c : List ℕ) (cs : List (List ℕ))
    → length (wrapped (c ∷ cs)) ≡ 5 + length c + length (wrapped cs)
unfolding wrap_application_data put_be16
length-wrapped c cs = omega (arith, length-append c (wrapped cs))

-- A peer that reads to the end gets the payloads, in order.
pub read_loop-wrapped :
    (cs : List (List ℕ)) (fuel : ℕ)
    → All Fits cs
    → length (wrapped cs) ≤ fuel
    → read_loop fuel (wrapped cs) ≡ ok (application_records cs)
unfolding read_loop
read_loop-wrapped [] zero f n = refl
read_loop-wrapped [] (suc fuel) f n = refl
read_loop-wrapped (c ∷ cs) zero f n = absurd (omega (arith, length-wrapped c cs))
read_loop-wrapped (c ∷ cs) (suc fuel) (f, fs) n =
    let size = length-wrapped c cs in
    let ih = read_loop-wrapped cs fuel fs (omega arith) in
    ground (arith, read_record-wrap_application_data c (wrapped cs) (f.1))

pub length-zero : (xs : List ℕ) → length xs ≡ 0 → xs ≡ []
length-zero [] h = refl
length-zero (x ∷ xs) h = absurd (omega arith)

-- A byte sequence cut into pieces of `size` bytes, the last one shorter. `fuel` is the length.
unfoldable pub pieces : ℕ → ℕ → List ℕ → List (List ℕ)
pieces zero size xs = []
pieces (suc fuel) size xs =
    let rest = pieces fuel size (drop (min size (length xs)) xs) in
    if length xs == 0 then [] else take (min size (length xs)) xs ∷ rest

pub pieces-Fits :
    (fuel size : ℕ) (xs : List ℕ)
    → 1 ≤ size
    → size ≤ max_record_payload
    → All Fits (pieces fuel size xs)
unfolding pieces
pieces-Fits zero size xs lo hi = tt
pieces-Fits (suc fuel) size xs lo hi =
    let ih = pieces-Fits fuel size (drop (min size (length xs)) xs) lo hi in
    elim (Bool-cases (length xs == 0)) [
      | inl h ↦ rw h tt
      | inr h ↦ rw h (
        (
          ground (arith, length-take (min size (length xs)) xs),
          ground (arith, length-take (min size (length xs)) xs),
        ),
        ih,
      )
    ]

pub concat-pieces :
    (fuel size : ℕ) (xs : List ℕ) → 1 ≤ size → length xs ≤ fuel → concat (pieces fuel size xs) ≡ xs
unfolding pieces
concat-pieces zero size [] lo n = refl
concat-pieces zero size (x ∷ xs) lo n = absurd (omega arith)
concat-pieces (suc fuel) size xs lo n =
    let k : ℕ = min size (length xs) in
    elim (Bool-cases (length xs == 0)) [
      | inl h ↦ rw h (sym (length-zero xs (ground arith)))
      | inr h ↦
          let ih = concat-pieces fuel size (drop k xs) lo (ground (arith, length-drop k xs)) in
          rw (h, ih, take-append-drop k xs)
    ]

-- The bytes of the records of pieces of `max_record_payload` bytes.
pub length-pieces :
    (fuel : ℕ) (xs : List ℕ)
    → length xs ≤ fuel
    → length (wrapped (pieces fuel max_record_payload xs))
      ≡ length xs + (length xs + max_record_payload - 1) / max_record_payload * 5
unfolding pieces
length-pieces zero xs n = omega arith
length-pieces (suc fuel) xs n =
    let k : ℕ = min max_record_payload (length xs) in
    elim (Bool-cases (length xs == 0)) [
      | inl h ↦ rw h (ground arith)
      | inr h ↦
          let some_left : 1 ≤ length xs = ground arith in
          let ih = length-pieces fuel (drop k xs) (omega (arith, length-drop k xs)) in
          rw
            (
              h,
              length-wrapped (take k xs) (pieces fuel max_record_payload (drop k xs)),
              ih,
              length-take k xs,
              length-drop k xs,
            )
            (omega (arith, some_left))
    ]
