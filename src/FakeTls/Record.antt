-- ===== src/FakeTls/Record.antt =====
-- transport/faketls/record.go: TLS records. A reader is the list of the bytes that it will yield
-- before its end, a writer is what was written. The pools only reuse buffers and are not modelled.
pub mod Chunks
pub mod RoundTrip
use tel_ego_openwrt.Base.{
  ℕ, zero, suc, ◌+◌, ◌-◌, ◌*◌, ◌/◌, ◌%◌, ◌^◌, List, [], ◌∷◌, ◌++◌, Bool, ltb, ◌==◌, min, Option,
  some, none, if◌then◌else◌, length, take, drop, Result, ok, err, ◌>>=◌, fail_if,
}
use tel_ego_openwrt.Base.Bytes.{put_be16, be_uint16}

abbrev pub record_type_application_data : ℕ
record_type_application_data = 0x17

abbrev pub version_tls12 : ℕ
version_tls12 = 0x0303

abbrev pub record_header_size : ℕ
record_header_size = 5

abbrev pub max_record_payload : ℕ
max_record_payload = 16384 + 256

abbrev pub optimal_chunk_size : ℕ
optimal_chunk_size = 16384

-- `end_of_file` and `unexpected_end` are io.ReadFull's io.EOF and io.ErrUnexpectedEOF.
pub data RecordError : Type 0 where
  record_too_large end_of_file unexpected_end : RecordError

pub record Record : Type 0 where
  pub record_type : ℕ
  pub version : ℕ
  pub payload : List ℕ

-- io.ReadFull: `size` bytes and what is left, or the error of a reader that ends before.
unfoldable pub read_full : List ℕ → ℕ → Result RecordError (List ℕ × List ℕ)
read_full stream size =
    if size == 0
    then ok ([], stream)
    else if length stream == 0
    then err end_of_file
    else if ltb (length stream) size
    then err unexpected_end
    else ok (take size stream, drop size stream)

-- The first byte, 0 where there is none: the code reads it of five bytes only.
abbrev pub first_byte : List ℕ → ℕ
first_byte [] = 0
first_byte (b ∷ bs) = b

-- ReadRecord: the record, and what the reader has left.
unfoldable pub read_record : List ℕ → Result RecordError (Record × List ℕ)
read_record stream = do
  (header, after) ← read_full stream record_header_size
  let size = be_uint16 (drop 3 header)
  _ ← fail_if (ltb max_record_payload size) record_too_large
  (payload, rest) ← read_full after size
  ok (
    record {
      record_type = first_byte header;
      version = be_uint16 (drop 1 header);
      payload = payload;
    },
    rest,
  )

-- WriteRecord and Record.Dump: both lengths are cut to sixteen bits.
unfoldable pub write_record : ℕ → List ℕ → List ℕ
write_record record_type payload =
    record_type ∷ (put_be16 version_tls12 ++ (put_be16 (length payload % 2 ^ 16) ++ payload))

unfoldable pub dump : Record → List ℕ
dump r = r.record_type ∷ (put_be16 r.version ++ (put_be16 (length r.payload % 2 ^ 16) ++ r.payload))

-- WrapApplicationData
unfoldable pub wrap_application_data : List ℕ → List ℕ
wrap_application_data payload =
    record_type_application_data ∷ 0x03 ∷ 0x03 ∷ (put_be16 (length payload % 2 ^ 16) ++ payload)

-- The loop of WriteApplicationData, on the buffer. A round takes at least one byte, so that the
-- length of the data bounds the rounds.
unfoldable pub write_loop : ℕ → List ℕ → List ℕ → List ℕ
write_loop zero buf input = buf
write_loop (suc fuel) buf input =
    let chunk = min optimal_chunk_size (length input) in
    let rest =
      write_loop fuel
        (buf
          ++ (record_type_application_data
              ∷ 0x03
              ∷ 0x03
              ∷ (chunk / 2 ^ 8 % 256)
              ∷ (chunk % 256)
              ∷ take chunk input))
        (drop chunk input) in
    if length input == 0 then buf else rest

-- WriteApplicationData
unfoldable pub write_application_data : List ℕ → List ℕ
write_application_data input = write_loop (length input) [] input

-- `copy(dst[at:], src)`: as many bytes as `dst` has room for.
unfoldable pub copy_at : List ℕ → ℕ → List ℕ → List ℕ
copy_at dst at src =
    let n = min (length dst - at) (length src) in take at dst ++ (take n src ++ drop (at + n) dst)

-- The loop of WrapApplicationDataTo: `dst`, and the number of bytes written. `none` is the panic of a
-- header that does not fit.
unfoldable pub wrap_loop : ℕ → List ℕ → ℕ → List ℕ → Option (List ℕ × ℕ)
wrap_loop zero dst written payload = some (dst, written)
wrap_loop (suc fuel) dst written payload =
    let chunk = min max_record_payload (length payload) in
    let header = record_type_application_data ∷ 0x03 ∷ 0x03 ∷ put_be16 (chunk % 2 ^ 16) in
    let there = written + record_header_size in
    let rest =
      wrap_loop fuel (copy_at (copy_at dst written header) there (take chunk payload))
        (there + chunk) (drop chunk payload) in
    if length payload == 0
    then some (dst, written)
    else if ltb (length dst) there
    then none
    else rest

unfoldable pub wrap_application_data_to : List ℕ → List ℕ → Option (List ℕ × ℕ)
wrap_application_data_to dst payload = wrap_loop (length payload) dst 0 payload

-- `make([]byte, n)`
unfoldable pub zeros : ℕ → List ℕ
zeros zero = []
zeros (suc n) = 0 ∷ zeros n

-- WrapApplicationDataChunked
unfoldable pub wrap_application_data_chunked : List ℕ → Option (List ℕ)
wrap_application_data_chunked payload =
    let num_records = (length payload + max_record_payload - 1) / max_record_payload in
    let total_size = length payload + num_records * record_header_size in
    if ltb max_record_payload (length payload)
    then (elim (wrap_application_data_to (zeros total_size) payload) [
      | some (buf, written) ↦ some buf
      | none ↦ none
    ])
    else some (wrap_application_data payload)
