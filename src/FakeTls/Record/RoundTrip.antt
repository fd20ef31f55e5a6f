-- ===== src/FakeTls/Record/RoundTrip.antt =====
-- record.go: a peer that calls ReadRecord to the end of what WriteApplicationData or
-- WrapApplicationDataChunked wrote gets the data back.
use tel_ego_openwrt.Base.{
  ℕ, zero, suc, ◌+◌, ◌-◌, ◌*◌, ◌/◌, ◌%◌, ◌^◌, ◌≤◌, ◌<◌, ◌≡◌, refl, sym, ap, ◌∙◌, List, [], ◌∷◌,
  ◌++◌, arith, All, false, Bool-cases, inl, inr, ltb, ◌==◌, Option, some, length, take, drop, min,
  ok, take-length_append, drop-length_append, length-append, length-take, length-drop, take_all,
  drop-drop,
}
use tel_ego_openwrt.Base.Bytes.{put_be16}
use tel_ego_openwrt.FakeTls.Record.{
  max_record_payload, optimal_chunk_size, record_type_application_data, record_header_size,
  wrap_application_data, write_loop, write_application_data, copy_at, wrap_loop,
  wrap_application_data_to, wrap_application_data_chunked, zeros,
}
use tel_ego_openwrt.FakeTls.Record.Chunks.{
  wrapped, concat, Fits, read_loop, application_records, read_loop-wrapped, pieces, pieces-Fits,
  concat-pieces, length-pieces, length-wrapped,
}
use mathlib.Core.List.{append-nil, append_assoc}

-- The bytes of a record whose size is known.
wrap_application_data_sized :
    (c : List ℕ) (k : ℕ)
    → length c ≡ k
    → k < 2 ^ 16
    → wrap_application_data c
      ≡ record_type_application_data ∷ 0x03 ∷ 0x03 ∷ (k / 2 ^ 8 % 256) ∷ (k % 256) ∷ c
unfolding wrap_application_data put_be16
wrap_application_data_sized c k h n = ground arith

length-take-min : (m : ℕ) (xs : List ℕ) → length (take (min m (length xs)) xs) ≡ min m (length xs)
length-take-min m xs = omega (arith, length-take (min m (length xs)) xs)

write_loop-pieces :
    (fuel : ℕ) (buf input : List ℕ)
    → length input ≤ fuel
    → write_loop fuel buf input ≡ buf ++ wrapped (pieces fuel optimal_chunk_size input)
unfolding write_loop pieces
write_loop-pieces zero buf input n = sym (append-nil buf)
write_loop-pieces (suc fuel) buf input n =
    let k : ℕ = min optimal_chunk_size (length input) in
    elim (Bool-cases (length input == 0)) [
      | inl h ↦ rw h (sym (append-nil buf))
      | inr h ↦
          let some_left : 1 ≤ length input = ground arith in
          let ih = λ (b : List ℕ).
            write_loop-pieces fuel b (drop k input) (omega (arith, length-drop k input)) in
          let sized =
            wrap_application_data_sized (take k input) k (length-take-min optimal_chunk_size input)
              (omega arith) in
          rw (h, ih, sized, append_assoc) refl
    ]

-- The data that a peer reads record by record.
pub record Delivers (out input : List ℕ) : Type 0 where
  pub payloads : List (List ℕ)
  pub fit : All Fits payloads
  pub whole : concat payloads ≡ input
  pub read_back : read_loop (length out) out ≡ ok (application_records payloads)

pieces-Delivers :
    (size : ℕ) (input out : List ℕ)
    → 1 ≤ size
    → size ≤ max_record_payload
    → out ≡ wrapped (pieces (length input) size input)
    → Delivers out input
pieces-Delivers size input out lo hi h = record {
  payloads = pieces (length input) size input;
  fit = pieces-Fits (length input) size input lo hi;
  whole = concat-pieces (length input) size input lo (omega arith);
  read_back = rw h (
      read_loop-wrapped (pieces (length input) size input)
        (length (wrapped (pieces (length input) size input)))
        (pieces-Fits (length input) size input lo hi) (omega arith));
}

single-Delivers :
    (c : List ℕ)
    → 1 ≤ length c
    → length c ≤ max_record_payload
    → Delivers (wrap_application_data c) c
single-Delivers c lo hi =
    let one : wrapped (c ∷ []) ≡ wrap_application_data c = append-nil (wrap_application_data c) in
    record {
      payloads = c ∷ [];
      fit = ((lo, hi), tt);
      whole = append-nil c;
      read_back =
          rw (← one)
            (read_loop-wrapped (c ∷ []) (length (wrapped (c ∷ []))) ((lo, hi), tt) (omega arith));
    }

-- Whatever the data, a peer that calls ReadRecord until the stream ends reads, without an error,
-- ApplicationData records of 1 to 16640 bytes whose payloads are the data that WriteApplicationData
-- was given.
pub write_application_data-Delivers :
    (input : List ℕ) → Delivers (write_application_data input) input
unfolding write_application_data
write_application_data-Delivers input =
    pieces-Delivers optimal_chunk_size input (write_application_data input) (omega arith)
      (omega arith) (write_loop-pieces (length input) [] input (omega arith))

copy_at-append :
    (pre space src : List ℕ)
    → length src ≤ length space
    → copy_at (pre ++ space) (length pre) src ≡ pre ++ (src ++ drop (length src) space)
unfolding copy_at
copy_at-append pre space src n =
    let m : min (length (pre ++ space) - length pre) (length src) ≡ length src =
      omega (arith, length-append pre space) in
    rw (
      m,
      take-length_append pre space,
      take_all (length src) src (omega arith),
      ← drop-drop (length pre) (length src) (pre ++ space),
      drop-length_append pre space,
    )

-- The two copies of a round put a record behind what is written.
copy_record :
    (pre space c : List ℕ) (header : List ℕ)
    → length header ≡ 5
    → 5 + length c ≤ length space
    → copy_at (copy_at (pre ++ space) (length pre) header) (length pre + 5) c
      ≡ (pre ++ (header ++ c)) ++ drop (5 + length c) space
copy_record pre space c header h n =
    let first = copy_at-append pre space header (omega arith) in
    let at : length pre + 5 ≡ length (pre ++ header) = omega (arith, length-append pre header) in
    let second =
      copy_at-append (pre ++ header) (drop 5 space) c (omega (arith, length-drop 5 space)) in
    rw
      (
        first,
        h,
        at,
        ← append_assoc pre header (drop 5 space),
        second,
        drop-drop 5 (length c) space,
        append_assoc pre header (c ++ drop (5 + length c) space),
        append_assoc pre (header ++ c) (drop (5 + length c) space),
        append_assoc header c (drop (5 + length c) space),
      )
      refl

pub header-wrap :
    (c : List ℕ) (k : ℕ)
    → length c ≡ k
    → (record_type_application_data ∷ 0x03 ∷ 0x03 ∷ put_be16 (k % 2 ^ 16)) ++ c
      ≡ wrap_application_data c
unfolding wrap_application_data put_be16
header-wrap c k h = rw h refl

pub length-wrap : (c : List ℕ) → length (wrap_application_data c) ≡ 5 + length c
unfolding wrap_application_data put_be16
length-wrap c = omega arith

filled :
    (pre space : List ℕ)
    → 0 ≡ length space
    → ◌≡◌ {A = Option (List ℕ × ℕ)}
        (some (pre ++ space, length pre))
        (some (pre ++ [], length pre + length space))
filled pre [] h = ap (λ n. some (pre ++ [], n)) (omega arith)
filled pre (x ∷ space) h = absurd (omega arith)

-- With room for the records and nothing more, the loop fills the buffer with them.
wrap_loop-pieces :
    (fuel : ℕ) (pre space payload : List ℕ)
    → length payload ≤ fuel
    → length (wrapped (pieces fuel max_record_payload payload)) ≡ length space
    → wrap_loop fuel (pre ++ space) (length pre) payload
      ≡ some (pre ++ wrapped (pieces fuel max_record_payload payload), length pre + length space)
unfolding wrap_loop pieces put_be16
wrap_loop-pieces zero pre space payload n z = filled pre space z
wrap_loop-pieces (suc fuel) pre space payload n z =
    let k : ℕ = min max_record_payload (length payload) in
    elim (Bool-cases (length payload == 0)) [
      | inl h ↦ rw h (filled pre space (rw h at z))
      | inr h ↦
          let some_left : 1 ≤ length payload = ground arith in
          let c : List ℕ = take k payload in
          let taken : length c ≡ k = length-take-min max_record_payload payload in
          let after : List ℕ = drop k payload in
          let left : List ℕ = drop (5 + k) space in
          let cut : length (wrapped (c ∷ pieces fuel max_record_payload after)) ≡ length space =
            rw h at z in
          let size : 5 + k + length (wrapped (pieces fuel max_record_payload after))
              ≡ length space =
            omega (arith, length-wrapped c (pieces fuel max_record_payload after), taken, cut) in
          let header : List ℕ =
            record_type_application_data ∷ 0x03 ∷ 0x03 ∷ put_be16 (k % 2 ^ 16) in
          let room : ltb (length (pre ++ space)) (length pre + 5) ≡ false =
            ground (arith, length-append pre space) in
          let copied : copy_at (copy_at (pre ++ space) (length pre) header) (length pre + 5) c
              ≡ (pre ++ wrap_application_data c) ++ left =
            copy_record pre space c header refl (omega arith)
            ∙ ap (λ x. (pre ++ x) ++ drop (5 + length c) space) (header-wrap c k taken)
            ∙ ap (λ x. (pre ++ wrap_application_data c) ++ drop (5 + x) space) taken in
          let there : length pre + 5 + k ≡ length (pre ++ wrap_application_data c) =
            omega (arith, length-append pre (wrap_application_data c), length-wrap c, taken) in
          let ih =
            wrap_loop-pieces fuel (pre ++ wrap_application_data c) left after
              (omega (arith, length-drop k payload)) (omega (arith, length-drop (5 + k) space)) in
          let total : length (pre ++ wrap_application_data c) + length left
              ≡ length pre + length space =
            omega (arith, length-drop (5 + k) space, there) in
          rw (h, room, copied, there, ih)
            (λ i. some (
              append_assoc pre (wrap_application_data c)
                  (wrapped (pieces fuel max_record_payload after)) i,
              total i,
            ))
    ]

length-zeros : (n : ℕ) → length (zeros n) ≡ n
unfolding zeros
length-zeros zero = refl
length-zeros (suc n) = ap suc (length-zeros n)

-- WrapApplicationDataChunked never runs out of its buffer, and a peer that calls ReadRecord until the
-- stream ends reads, without an error, ApplicationData records of 1 to 16640 bytes whose payloads are
-- the payload given. The payload is not empty.
pub wrap_application_data_chunked-Delivers :
    (payload : List ℕ)
    → 1 ≤ length payload
    → (out : List ℕ) × (wrap_application_data_chunked payload ≡ some out) × Delivers out payload
unfolding wrap_application_data_chunked wrap_application_data_to
wrap_application_data_chunked-Delivers payload n =
    elim (Bool-cases (ltb max_record_payload (length payload))) [
      | inl h ↦
          let total : ℕ =
            length payload
            + (length payload + max_record_payload - 1) / max_record_payload * record_header_size in
          let size = length-pieces (length payload) payload (omega arith) in
          let w =
            wrap_loop-pieces (length payload) [] (zeros total) payload (omega arith)
              (size ∙ sym (length-zeros total)) in
          (
            wrapped (pieces (length payload) max_record_payload payload),
            rw (h, w) refl,
            pieces-Delivers max_record_payload payload _ (omega arith) (omega arith) refl,
          )
      | inr h ↦ (wrap_application_data payload, rw h refl, single-Delivers payload n (ground arith))
    ]
