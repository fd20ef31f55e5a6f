-- ===== src/MiddleEnd/ClientPacket.antt =====
-- transport/middleend/client_packet.go: the framing of the packets of one Obfuscated2 client stream.
-- A decoder's `retained` is its live plaintext `buffer[head:]`: the code around it only moves live
-- bytes, clears consumed ones and changes the capacity. A mask of single bits is written with
-- division and remainder: `x & 0x7f` is `x % 2 ^ 7`, and `x & 0x80 != 0` is `x / 2 ^ 7 % 2 == 1`.
pub mod Encoding
pub mod Fragments
pub mod Room
pub mod Framed
pub mod RoundTrip
mod Examples
use tel_ego_openwrt.Base.{
  ℕ, zero, suc, ◌+◌, ◌-◌, ◌*◌, ◌/◌, ◌%◌, ◌^◌, List, [], ◌∷◌, ◌++◌, Bool, true, false, ◌&&◌, ◌||◌,
  not, Option, none, some, ltb, ◌==◌, min, if◌then◌else◌, length, take, drop, Result, ok, err,
  ◌>>=◌, fail_if,
}
use tel_ego_openwrt.Base.Bytes.{put_le32, put_be32, le_uint32}
use tel_ego_openwrt.MiddleEnd.Constants.{max_client_packet_size}

-- The sentinels; `padding_source` stands for the error of the source of random bytes.
pub data ClientError : Type 0 where
  invalid_client_packet client_packet_too_large incomplete_client_packet : ClientError
  unsupported_client_framing decoder_closed padding_source : ClientError

-- obfuscated2.ConnectionType is a uint32.
abbrev pub ConnectionType : Type 0
ConnectionType = ℕ

abbrev pub abridged : ConnectionType
abridged = 0xefefefef

abbrev pub intermediate : ConnectionType
intermediate = 0xeeeeeeee

abbrev pub padded_intermediate : ConnectionType
padded_intermediate = 0xdddddddd

abbrev pub max_client_packet_header_size : ℕ
max_client_packet_header_size = 4

pub record ClientPacket : Type 0 where
  pub payload : List ℕ
  pub quick_ack : Bool

unfoldable pub validate_client_packet_codec : ConnectionType → ℕ → Result ClientError (Unit {0})
validate_client_packet_codec t max_packet_size = do
  _ ←
      fail_if (not (t == abridged) && (not (t == intermediate) && not (t == padded_intermediate)))
        unsupported_client_framing
  _ ← fail_if (ltb max_packet_size 4) invalid_client_packet
  fail_if (ltb max_client_packet_size max_packet_size) client_packet_too_large

pub record ClientPacketDecoder : Type 0 where
  pub connection_type : ConnectionType
  pub max_packet_size : ℕ
  pub retained : List ℕ
  pub error : Option ClientError

unfoldable pub new_client_packet_decoder :
    ConnectionType → ℕ → Result ClientError ClientPacketDecoder
new_client_packet_decoder t max_packet_size = do
  _ ← validate_client_packet_codec t max_packet_size
  ok (record {
    connection_type = t;
    max_packet_size = max_packet_size;
    retained = [];
    error = none;
  })

-- ClientPacketDecoder.Feed
unfoldable pub feed : ClientPacketDecoder → List ℕ → ClientPacketDecoder × Result ClientError ℕ
feed d bytes = elim d.error [
  | some x ↦ (d, err x)
  | none ↦
      let maximum_buffered = d.max_packet_size + max_client_packet_header_size in
      let consumed = min (length bytes) (maximum_buffered - length d.retained) in
      if consumed == 0
      then (d, ok 0)
      else (record d { retained = d.retained ++ take consumed bytes }, ok consumed)
]

-- The result of parseHeader for a complete header.
pub record Header : Type 0 where
  pub header_size : ℕ
  pub wire_packet_size : ℕ
  pub payload_size : ℕ
  pub quick_ack : Bool

-- `data[i]`, 0 behind the end: the code reads bytes that a length test has shown to exist.
unfoldable pub byte_at : List ℕ → ℕ → ℕ
byte_at [] i = 0
byte_at (b ∷ bs) zero = b
byte_at (b ∷ bs) (suc i) = byte_at bs i

-- The size test and the result of parseAbridgedHeader for a word count.
unfoldable pub abridged_header : ℕ → ℕ → ℕ → Bool → Result ClientError (Option Header)
abridged_header max_packet_size header_size word_count quick_ack = do
  _ ← fail_if (word_count == 0) invalid_client_packet
  let wire_packet_size = word_count * 4 % 2 ^ 32
  _ ← fail_if (ltb (max_packet_size % 2 ^ 32) wire_packet_size) client_packet_too_large
  ok (
      some (record {
        header_size = header_size;
        wire_packet_size = wire_packet_size;
        payload_size = wire_packet_size;
        quick_ack = quick_ack;
      }))

-- `ok none` asks for more bytes.
unfoldable pub parse_abridged_header : ℕ → List ℕ → Result ClientError (Option Header)
parse_abridged_header max_packet_size bytes =
    let first = byte_at bytes 0 in
    let quick_ack = first / 2 ^ 7 % 2 == 1 in
    let short_count = first % 2 ^ 7 in
    let long_count = byte_at bytes 1 + byte_at bytes 2 * 2 ^ 8 + byte_at bytes 3 * 2 ^ 16 in
    if ltb (length bytes) 1
    then ok none
    else if not (short_count == 0x7f)
    then abridged_header max_packet_size 1 short_count quick_ack
    else if ltb (length bytes) max_client_packet_header_size
    then ok none
    else if ltb long_count 0x7f
    then err invalid_client_packet
    else abridged_header max_packet_size max_client_packet_header_size long_count quick_ack

unfoldable pub parse_intermediate_header :
    ConnectionType → ℕ → List ℕ → Result ClientError (Option Header)
parse_intermediate_header t max_packet_size bytes =
    let word = le_uint32 bytes in
    let quick_ack = word / 2 ^ 31 % 2 == 1 in
    let declared = word % 2 ^ 31 in
    let payload_size = if t == padded_intermediate then declared - declared % 4 else declared in
    if ltb (length bytes) max_client_packet_header_size then ok none else (do
      _ ← fail_if (declared / 2 ^ 30 % 2 == 1) invalid_client_packet
      _ ← fail_if (ltb declared 4) invalid_client_packet
      _ ← fail_if (ltb (max_packet_size % 2 ^ 32) declared) client_packet_too_large
      _ ← fail_if (not (t == padded_intermediate) && not (declared % 4 == 0)) invalid_client_packet
      _ ← fail_if (ltb payload_size 4) invalid_client_packet
      ok (
          some (record {
            header_size = max_client_packet_header_size;
            wire_packet_size = declared;
            payload_size = payload_size;
            quick_ack = quick_ack;
          })))

unfoldable pub parse_header : ConnectionType → ℕ → List ℕ → Result ClientError (Option Header)
parse_header t max_packet_size bytes =
    if t == abridged
    then parse_abridged_header max_packet_size bytes
    else if t == intermediate || t == padded_intermediate
    then parse_intermediate_header t max_packet_size bytes
    else err unsupported_client_framing

-- A failed decoder keeps its first error and drops its plaintext.
unfoldable pub fail {ℓ} :
    {A : Type ℓ} → ClientPacketDecoder → ClientError → ClientPacketDecoder × Result ClientError A
fail d x = (record d { retained = []; error = some x }, err x)

-- What Next does with the outcome of parseHeader.
unfoldable pub take_packet :
    ClientPacketDecoder
    → Result ClientError (Option Header)
    → ClientPacketDecoder × Result ClientError (Option ClientPacket)
take_packet d (err x) = fail d x
take_packet d (ok none) = (d, ok none)
take_packet d (ok (some h)) =
    if ltb (length d.retained) (h.header_size + h.wire_packet_size) then (d, ok none) else (
      record d { retained = drop (h.header_size + h.wire_packet_size) d.retained },
      ok (
          some (record {
            payload = take h.payload_size (drop h.header_size d.retained);
            quick_ack = h.quick_ack;
          })),
    )

-- ClientPacketDecoder.Next
unfoldable pub next :
    ClientPacketDecoder → ClientPacketDecoder × Result ClientError (Option ClientPacket)
next d = elim d.error [
  | some x ↦ (d, err x)
  | none ↦ take_packet d (parse_header d.connection_type d.max_packet_size d.retained)
]

-- ClientPacketDecoder.Finish
unfoldable pub finish : ClientPacketDecoder → ClientPacketDecoder × Result ClientError (Unit {0})
finish d = elim d.error [
  | some x ↦ (d, err x)
  | none ↦ if length d.retained == 0 then (d, ok tt) else fail d incomplete_client_packet
]

-- ClientPacketDecoder.Close: an earlier error stays.
unfoldable pub close : ClientPacketDecoder → ClientPacketDecoder
close d = elim d.error [
  | some x ↦ record d { retained = [] }
  | none ↦ record d { retained = []; error = some decoder_closed }
]
