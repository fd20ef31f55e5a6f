-- ===== src/MiddleEnd/ClientPacket/Framed.antt =====
-- client_packet.go: the wire images of ClientPacketEncoder.Encode, one framing after another.
use tel_ego_openwrt.Base.{
  ℕ, ◌+◌, ◌-◌, ◌*◌, ◌/◌, ◌%◌, ◌^◌, ◌≤◌, ◌<◌, ◌≡◌, refl, sym, ap, ◌∙◌, ◌⊎◌, List, [], ◌∷◌, ◌++◌,
  arith, false, Option, some, Bool-cases, Result-cases, inl, inr, ltb, ◌==◌, length, take, drop,
  Result, ok, length-append, length-take, drop-drop, take-length_append, drop-length_append,
}
use tel_ego_openwrt.Base.Bytes.{le_uint32, put_le32, le_uint32-put_le32}
use tel_ego_openwrt.MiddleEnd.Constants.{max_client_packet_size}
use tel_ego_openwrt.MiddleEnd.ClientPacket.{
  ClientError, ConnectionType, ClientPacket, ClientPacketDecoder, Header, abridged, intermediate,
  padded_intermediate, byte_at, abridged_header, parse_abridged_header, parse_intermediate_header,
  parse_header, take_packet,
}
use tel_ego_openwrt.MiddleEnd.ClientPacket.Encoding.{
  encode_abridged_packet, random_bounded_loop, random_bounded_int,
  encode_padded_intermediate_packet,
}
use mathlib.Core.List.{append-nil, append_assoc}

-- A header of `front` bytes that announces `size` bytes, of which `payload` are the packet.
abbrev pub header_of : ℕ → ℕ → ℕ → Result ClientError (Option Header)
header_of front size payload = ok (
    some (record {
      header_size = front;
      wire_packet_size = size;
      payload_size = payload;
      quick_ack = false;
    }))

-- A wire image: a header, the packet, and padding; whatever follows, the header is read.
pub record Framed (t : ConnectionType) (max : ℕ) (packet wire : List ℕ) : Type 0 where
  pub front : List ℕ
  pub pad : List ℕ
  pub image : wire ≡ front ++ (packet ++ pad)
  pub parsed :
      (later : List ℕ)
      → parse_header t max (wire ++ later)
        ≡ header_of (length front) (length packet + length pad) (length packet)

abbrev pub with_retained : ClientPacketDecoder → List ℕ → ClientPacketDecoder
with_retained d bytes = record d { retained = bytes }

abbrev pub packet_of : List ℕ → Result ClientError (Option ClientPacket)
packet_of bytes = ok (some (record { payload = bytes; quick_ack = false }))

pub take_packet-front :
    (d : ClientPacketDecoder) (front packet pad later : List ℕ)
    → d.retained ≡ front ++ (packet ++ (pad ++ later))
    → take_packet d (header_of (length front) (length packet + length pad) (length packet))
      ≡ (record d { retained = later }, ok (some (record { payload = packet; quick_ack = false })))
unfolding take_packet
take_packet-front d front packet pad later h =
    let rest : List ℕ = pad ++ later in
    let long : ltb (length d.retained) (length front + (length packet + length pad)) ≡ false =
      ground (
        arith,
        ap length h,
        length-append front (packet ++ rest),
        length-append packet rest,
        length-append pad later,
      ) in
    let behind : drop (length front) d.retained ≡ packet ++ rest =
      ap (drop (length front)) h ∙ drop-length_append front (packet ++ rest) in
    let all : drop (length front + (length packet + length pad)) d.retained ≡ later =
      sym (drop-drop (length front) (length packet + length pad) d.retained)
      ∙ ap (drop (length packet + length pad)) behind
      ∙ sym (drop-drop (length packet) (length pad) (packet ++ rest))
      ∙ ap (drop (length pad)) (drop-length_append packet rest)
      ∙ drop-length_append pad later in
    rw (long, behind, take-length_append packet rest)
      (ap (λ xs. (with_retained d xs, packet_of packet)) all)

parse_short :
    (max count : ℕ) (rest : List ℕ)
    → 1 ≤ count
    → count ≤ 0x7e
    → count * 4 ≤ max
    → max ≤ max_client_packet_size
    → parse_header abridged max ((count % 256) ∷ rest) ≡ header_of (1) (count * 4) (count * 4)
unfolding parse_header parse_abridged_header abridged_header byte_at
parse_short max count rest lo hi n m = ground arith

parse_long :
    (max count : ℕ) (rest : List ℕ)
    → 0x7f ≤ count
    → count * 4 ≤ max
    → max ≤ max_client_packet_size
    → parse_header abridged max
        (0x7f ∷ (count % 256) ∷ (count / 2 ^ 8 % 256) ∷ (count / 2 ^ 16 % 256) ∷ rest)
      ≡ header_of (4) (count * 4) (count * 4)
unfolding parse_header parse_abridged_header abridged_header byte_at
parse_long max count rest lo n m =
    let same : count % 256 + count / 2 ^ 8 % 256 * 2 ^ 8 + count / 2 ^ 16 % 256 * 2 ^ 16 ≡ count =
      omega arith in
    let nonzero : (count == 0) ≡ false = ground arith in ground (arith, same)

pub encode_abridged_packet-Framed :
    (max : ℕ) (packet wire : List ℕ)
    → 4 ≤ length packet
    → length packet % 4 ≡ 0
    → length packet ≤ max
    → max ≤ max_client_packet_size
    → encode_abridged_packet packet ≡ ok wire
    → Framed abridged max packet wire
unfolding encode_abridged_packet
encode_abridged_packet-Framed max packet wire lo q hi m h =
    let count : ℕ = length packet / 4 in
    let four : count * 4 ≡ length packet = omega arith in
    let four' : count * 4 ≡ length packet + 0 = omega arith in
    elim (Bool-cases (ltb 0x7e count)) [
      | inl k ↦
          let written : wire
              ≡ 0x7f ∷ (count % 256) ∷ (count / 2 ^ 8 % 256) ∷ (count / 2 ^ 16 % 256) ∷ packet =
            ground arith in
          record {
            front = 0x7f ∷ (count % 256) ∷ (count / 2 ^ 8 % 256) ∷ (count / 2 ^ 16 % 256) ∷ [];
            pad = [];
            image = written ∙ rw (append-nil packet) refl;
            parsed = λ later.
                ap (λ w. parse_header abridged max (w ++ later)) written
                ∙ parse_long max count (packet ++ later) (ground arith) (omega arith) m
                ∙ (λ i. header_of 4 (four' i) (four i));
          }
      | inr k ↦
          let written : wire ≡ (count % 256) ∷ packet = ground arith in
          record {
            front = (count % 256) ∷ [];
            pad = [];
            image = written ∙ rw (append-nil packet) refl;
            parsed = λ later.
                ap (λ w. parse_header abridged max (w ++ later)) written
                ∙ parse_short max count (packet ++ later) (omega arith) (ground arith) (omega arith)
                    m
                ∙ (λ i. header_of 1 (four' i) (four i));
          }
    ]

parse_word_value :
    (t : ConnectionType) (max size payload : ℕ) (bytes : List ℕ)
    → (t ≡ intermediate) ⊎ (t ≡ padded_intermediate)
    → 4 ≤ payload
    → payload ≤ size
    → size ≤ max
    → max ≤ max_client_packet_size
    → payload % 4 ≡ 0
    → size < payload + 4
    → ((t ≡ intermediate) → size ≡ payload)
    → le_uint32 bytes ≡ size
    → 4 ≤ length bytes
    → parse_header t max bytes ≡ header_of 4 size payload
unfolding parse_header parse_intermediate_header
parse_word_value t max size payload bytes (inl e) lo n hi m q r s w l =
    let same : size ≡ payload = s e in ground arith
parse_word_value t max size payload bytes (inr e) lo n hi m q r s w l =
    let aligned : size - size % 4 ≡ payload = omega arith in ground arith

parse_word :
    (t : ConnectionType) (max size payload : ℕ) (rest : List ℕ)
    → (t ≡ intermediate) ⊎ (t ≡ padded_intermediate)
    → 4 ≤ payload
    → payload ≤ size
    → size ≤ max
    → max ≤ max_client_packet_size
    → payload % 4 ≡ 0
    → size < payload + 4
    → ((t ≡ intermediate) → size ≡ payload)
    → parse_header t max (put_le32 (size % 2 ^ 32) ++ rest) ≡ header_of 4 size payload
parse_word t max size payload rest k lo n hi m q r s =
    let word : le_uint32 (put_le32 (size % 2 ^ 32) ++ rest) ≡ size =
      le_uint32-put_le32 (size % 2 ^ 32) rest (omega arith) ∙ omega arith in
    parse_word_value t max size payload (put_le32 (size % 2 ^ 32) ++ rest) k lo n hi m q r s word
      (unfold put_le32 in omega arith)

random_bounded_loop-bound :
    (choices : ℕ) (source : List ℕ) (n : ℕ) (rest : List ℕ)
    → 1 ≤ choices
    → random_bounded_loop choices source ≡ ok (n, rest)
    → n < choices
unfolding random_bounded_loop
random_bounded_loop-bound choices [] n rest c h = ground arith
random_bounded_loop-bound choices (v ∷ vs) n rest c h =
    let ih = random_bounded_loop-bound choices vs n rest c in ground arith

length-word : (n : ℕ) → 4 ≡ length (put_le32 n)
unfolding put_le32
length-word n = refl

nothing_added : (n : ℕ) → n ≡ n + 0
nothing_added n = omega arith

pub intermediate-Framed :
    (max : ℕ) (packet : List ℕ)
    → 4 ≤ length packet
    → length packet % 4 ≡ 0
    → length packet ≤ max
    → max ≤ max_client_packet_size
    → Framed intermediate max packet (put_le32 (length packet % 2 ^ 32) ++ packet)
intermediate-Framed max packet lo q hi m = record {
  front = put_le32 (length packet % 2 ^ 32);
  pad = [];
  image = rw (append-nil packet) refl;
  parsed = λ later.
      ap (parse_header intermediate max)
        (append_assoc (put_le32 (length packet % 2 ^ 32)) packet later)
      ∙ parse_word intermediate max (length packet) (length packet) (packet ++ later) (inl refl) lo
          (omega arith) hi m q (omega arith) (λ e. refl)
      ∙ (λ i.
          header_of (length-word (length packet % 2 ^ 32) i) (nothing_added (length packet) i)
            (length packet));
}

random_bounded_int-bound :
    (source : List ℕ) (n : ℕ) (rest : List ℕ) → random_bounded_int source 3 ≡ ok (n, rest) → n < 4
unfolding random_bounded_int
random_bounded_int-bound source n rest h = random_bounded_loop-bound 4 source n rest (omega arith) h

-- The number of padding bytes, and where they come from.
padded_cases :
    (packet source wire rest : List ℕ)
    → encode_padded_intermediate_packet packet source ≡ ok (wire, rest)
    → (k : ℕ) × (tail : List ℕ) × (k < 4)
      × (k ≤ length tail)
      × (wire ≡ put_le32 ((length packet + k) % 2 ^ 32) ++ (packet ++ take k tail))
unfolding encode_padded_intermediate_packet
padded_cases packet source wire rest h = elim (Result-cases (random_bounded_int source 3)) [
  | inl ((k, tail), e) ↦
      (k, tail, random_bounded_int-bound source k tail e, ground arith, ground arith)
  | inr (x, e) ↦ absurd (ground arith)
]

pub encode_padded_intermediate_packet-Framed :
    (max : ℕ) (packet source wire rest : List ℕ)
    → 4 ≤ length packet
    → length packet % 4 ≡ 0
    → length wire ≤ max + 4
    → max ≤ max_client_packet_size
    → encode_padded_intermediate_packet packet source ≡ ok (wire, rest)
    → Framed padded_intermediate max packet wire
encode_padded_intermediate_packet-Framed max packet source wire rest lo q hi m h =
    let (k, tail, small, room, written) = padded_cases packet source wire rest h in
    let pad : List ℕ = take k tail in
    let size : k ≡ length pad = omega (arith, length-take k tail) in
    let total : length packet + k ≤ max = omega (
      arith,
      ap length written,
      length-word ((length packet + k) % 2 ^ 32),
      size,
      length-append (put_le32 ((length packet + k) % 2 ^ 32)) (packet ++ pad),
      length-append packet pad,
    ) in
    record {
      front = put_le32 ((length packet + k) % 2 ^ 32);
      pad = pad;
      image = written;
      parsed = λ later.
          ap (λ w. parse_header padded_intermediate max (w ++ later)) written
          ∙ ap (parse_header padded_intermediate max)
              (append_assoc (put_le32 ((length packet + k) % 2 ^ 32)) (packet ++ pad) later)
          ∙ parse_word padded_intermediate max (length packet + k) (length packet)
              ((packet ++ pad) ++ later) (inr refl) lo (omega arith) total m q (omega arith)
              (λ e. absurd (ground arith))
          ∙ (λ i.
              header_of (length-word ((length packet + k) % 2 ^ 32) i) (length packet + size i)
                (length packet));
    }
