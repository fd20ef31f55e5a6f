-- ===== src/MiddleEnd/ClientPacket/Fragments.antt =====
-- client_packet.go: bytes that come later change nothing of what Next has decided.
use tel_ego_openwrt.Base.{
  ℕ, zero, suc, ◌+◌, ◌*◌, ◌/◌, ◌%◌, ◌^◌, ◌≤◌, ◌<◌, ◌≡◌, refl, sym, ap, ◌∙◌, ◌⊎◌, List, [], ◌∷◌,
  ◌++◌, arith, All, Bool, false, Option, none, some, Option-cases, Bool-cases, inl, inr, ltb, ◌==◌,
  length, drop, Result, ok, err, length-append, length-drop, take-append, drop-append,
}
use tel_ego_openwrt.Base.Bytes.{IsByte, le_uint32}
use tel_ego_openwrt.MiddleEnd.ClientPacket.{
  ClientError, ConnectionType, ClientPacket, ClientPacketDecoder, Header, byte_at, abridged_header,
  parse_abridged_header, parse_intermediate_header, parse_header, take_packet, fail, next,
}

byte_at-append : (xs ys : List ℕ) (i : ℕ) → i < length xs → byte_at (xs ++ ys) i ≡ byte_at xs i
unfolding byte_at
byte_at-append [] ys i h = absurd (omega arith)
byte_at-append (x ∷ xs) ys zero h = refl
byte_at-append (x ∷ xs) ys (suc i) h = byte_at-append xs ys i (omega arith)

le_uint32-append : (xs ys : List ℕ) → 4 ≤ length xs → le_uint32 (xs ++ ys) ≡ le_uint32 xs
unfolding le_uint32
le_uint32-append (a ∷ b ∷ c ∷ d ∷ xs) ys h = refl
le_uint32-append _ ys h = absurd (omega arith)

parse_abridged_header-append :
    (m : ℕ) (xs ys : List ℕ)
    → (parse_abridged_header m xs ≡ ok none)
      ⊎ (parse_abridged_header m (xs ++ ys) ≡ parse_abridged_header m xs)
unfolding parse_abridged_header
parse_abridged_header-append m xs ys = ground (
  arith,
  length-append xs ys,
  byte_at-append xs ys 0,
  byte_at-append xs ys 1,
  byte_at-append xs ys 2,
  byte_at-append xs ys 3,
)

parse_intermediate_header-append :
    (t : ConnectionType) (m : ℕ) (xs ys : List ℕ)
    → (parse_intermediate_header t m xs ≡ ok none)
      ⊎ (parse_intermediate_header t m (xs ++ ys) ≡ parse_intermediate_header t m xs)
unfolding parse_intermediate_header
parse_intermediate_header-append t m xs ys = elim (Bool-cases (ltb (length xs) 4)) [
  | inl h ↦ inl (rw h refl)
  | inr h ↦
      let long : ltb (length (xs ++ ys)) 4 ≡ false = ground (arith, length-append xs ys) in
      inr (rw (h, long, le_uint32-append xs ys (ground arith)) refl)
]

-- A header is known from the bytes that are there, or waits for more.
parse_header-append :
    (t : ConnectionType) (m : ℕ) (xs ys : List ℕ)
    → (parse_header t m xs ≡ ok none) ⊎ (parse_header t m (xs ++ ys) ≡ parse_header t m xs)
unfolding parse_header
parse_header-append t m xs ys =
    ground (arith, parse_abridged_header-append m xs ys, parse_intermediate_header-append t m xs ys)

byte_at-IsByte : (xs : List ℕ) (i : ℕ) → All IsByte xs → byte_at xs i < 256
unfolding byte_at
byte_at-IsByte [] i w = omega arith
byte_at-IsByte (x ∷ xs) zero w = w.0
byte_at-IsByte (x ∷ xs) (suc i) w = byte_at-IsByte xs i w.1

abridged_header_sizes :
    (m size count : ℕ) (q : Bool) (h : Header)
    → count < 2 ^ 24
    → abridged_header m size count q ≡ ok (some h)
    → (h.header_size ≡ size)
      × (4 ≤ h.payload_size)
      × (h.payload_size ≤ h.wire_packet_size)
      × (h.wire_packet_size ≤ m)
unfolding abridged_header
abridged_header_sizes m size count q h n e = ground arith

parse_abridged_header_sizes :
    (m : ℕ) (xs : List ℕ) (h : Header)
    → All IsByte xs
    → parse_abridged_header m xs ≡ ok (some h)
    → (1 ≤ h.header_size)
      × (h.header_size ≤ 4)
      × (4 ≤ h.payload_size)
      × (h.payload_size ≤ h.wire_packet_size)
      × (h.wire_packet_size ≤ m)
unfolding parse_abridged_header
parse_abridged_header_sizes m xs h w e =
    let first : ℕ = byte_at xs 0 in
    let long : ℕ = byte_at xs 1 + byte_at xs 2 * 2 ^ 8 + byte_at xs 3 * 2 ^ 16 in
    let small : long < 2 ^ 24 =
      omega (arith, byte_at-IsByte xs 1 w, byte_at-IsByte xs 2 w, byte_at-IsByte xs 3 w) in
    ground (
      arith,
      abridged_header_sizes m 1 (first % 2 ^ 7) (first / 2 ^ 7 % 2 == 1) h,
      abridged_header_sizes m 4 long (first / 2 ^ 7 % 2 == 1) h,
      small,
    )

parse_intermediate_header_sizes :
    (t : ConnectionType) (m : ℕ) (xs : List ℕ) (h : Header)
    → parse_intermediate_header t m xs ≡ ok (some h)
    → (1 ≤ h.header_size)
      × (h.header_size ≤ 4)
      × (4 ≤ h.payload_size)
      × (h.payload_size ≤ h.wire_packet_size)
      × (h.wire_packet_size ≤ m)
unfolding parse_intermediate_header
parse_intermediate_header_sizes t m xs h e = ground arith

-- The sizes of a header that was accepted.
pub parse_header_sizes :
    (t : ConnectionType) (m : ℕ) (xs : List ℕ) (h : Header)
    → All IsByte xs
    → parse_header t m xs ≡ ok (some h)
    → (1 ≤ h.header_size)
      × (h.header_size ≤ 4)
      × (4 ≤ h.payload_size)
      × (h.payload_size ≤ h.wire_packet_size)
      × (h.wire_packet_size ≤ m)
unfolding parse_header
parse_header_sizes t m xs h w e =
    ground (arith, parse_abridged_header_sizes m xs h w, parse_intermediate_header_sizes t m xs h)

-- The decoder with more bytes behind those that it retains.
abbrev pub more : ClientPacketDecoder → List ℕ → ClientPacketDecoder
more d ys = record d { retained = d.retained ++ ys }

abbrev with_retained : ClientPacketDecoder → List ℕ → ClientPacketDecoder
with_retained d bytes = record d { retained = bytes }

take_packet-append :
    (d : ClientPacketDecoder) (ys : List ℕ) (h : Header) (p : ClientPacket)
    → h.payload_size ≤ h.wire_packet_size
    → (take_packet d (ok (some h))).1 ≡ ok (some p)
    → take_packet (more d ys) (ok (some h)) ≡ (more (take_packet d (ok (some h))).0 ys, ok (some p))
unfolding take_packet
take_packet-append d ys h p n e =
    elim (Bool-cases (ltb (length d.retained) (h.header_size + h.wire_packet_size))) [
      | inl k ↦ ground (arith)
      | inr k ↦
          let long : ltb (length (d.retained ++ ys)) (h.header_size + h.wire_packet_size) ≡ false =
            ground (arith, length-append d.retained ys) in
          let whole =
            drop-append (h.header_size + h.wire_packet_size) d.retained ys (ground arith) in
          let front = drop-append h.header_size d.retained ys (ground arith) in
          let payload =
            take-append h.payload_size (drop h.header_size d.retained) ys
              (ground (arith, length-drop h.header_size d.retained)) in
          let e' = rw k at e in
          rw (k, long, whole, front, payload)
            (λ i.
              (with_retained d (drop (h.header_size + h.wire_packet_size) d.retained ++ ys), e' i))
    ]

pub next_open :
    (d : ClientPacketDecoder)
    → d.error ≡ none
    → next d ≡ take_packet d (parse_header d.connection_type d.max_packet_size d.retained)
unfolding next
next_open d h = ground arith

next_failed : (d : ClientPacketDecoder) (x : ClientError) → d.error ≡ some x → next d ≡ (d, err x)
unfolding next
next_failed d x h = ground arith

-- The same for the outcome of a header.
take_packet-more :
    (d : ClientPacketDecoder) (ys : List ℕ) (r q : Result ClientError (Option Header))
    → All IsByte d.retained
    → r ≡ parse_header d.connection_type d.max_packet_size d.retained
    → (r ≡ ok none) ⊎ (q ≡ r)
    → ((p : ClientPacket)
        → (take_packet d r).1 ≡ ok (some p)
        → take_packet (more d ys) q ≡ (more (take_packet d r).0 ys, ok (some p)))
      × ((x : ClientError) → (take_packet d r).1 ≡ err x → (take_packet (more d ys) q).1 ≡ err x)
unfolding take_packet fail
take_packet-more d ys (err y) q w k c =
    (λ p e. ground arith, λ x e. elim c [ inl n ↦ ground arith | inr n ↦ rw n e ])
take_packet-more d ys (ok none) q w k c = (λ p e. ground arith, λ x e. ground arith)
take_packet-more d ys (ok (some h)) q w k c =
    let (_, _, _, n, _) =
      parse_header_sizes d.connection_type d.max_packet_size d.retained h w (sym k) in
    (
      λ p e. elim c [ inl m ↦ ground arith | inr m ↦ rw m (take_packet-append d ys h p n e) ],
      λ x e. ground arith,
    )

-- If Next returns a packet or an error, it returns the same when more bytes have arrived behind the
-- ones that the decoder retains; and behind a packet the decoder is left with the same bytes and the
-- new ones. What the decoder retains are bytes.
pub next-more :
    (d : ClientPacketDecoder) (ys : List ℕ)
    → All IsByte d.retained
    → ((p : ClientPacket)
        → (next d).1 ≡ ok (some p)
        → next (more d ys) ≡ (more (next d).0 ys, ok (some p)))
      × ((x : ClientError) → (next d).1 ≡ err x → (next (more d ys)).1 ≡ err x)
next-more d ys w = elim (Option-cases d.error) [
  | inr (x, h) ↦
      let now = next_failed d x h in
      let later = next_failed (more d ys) x h in
      (
        λ p e. absurd (ground (arith, now)),
        λ y e. ap (λ r. r.1) (later ∙ sym (ap (λ r. (more d ys, r.1)) now)) ∙ e,
      )
  | inl h ↦
      let now = next_open d h in
      let later = next_open (more d ys) h in
      let t =
        take_packet-more d ys (parse_header d.connection_type d.max_packet_size d.retained)
          (parse_header d.connection_type d.max_packet_size (d.retained ++ ys)) w refl
          (parse_header-append d.connection_type d.max_packet_size d.retained ys) in
      (λ p e. rw (now, later) (t.0 p (rw now at e)), λ x e. rw later (t.1 x (rw now at e)))
]
