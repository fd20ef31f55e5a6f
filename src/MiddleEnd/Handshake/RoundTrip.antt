-- ===== src/MiddleEnd/Handshake/RoundTrip.antt =====
-- handshake.go: each packet is read back from its bytes, and no other bytes are read.
use tel_ego_openwrt.Base.{
  ℕ, ◌≡◌, refl, ◌↔◌, List, [], ◌∷◌, ◌++◌, arith, All, length, take, drop, All-drop, ok,
  take-append-drop, take_all, length-drop, length-append, subst,
}
use tel_ego_openwrt.Base.Bytes.{
  IsByte, join32, join32_bytes, put_le32-join32, join32-lt, put_le32, le_uint32,
}
use tel_ego_openwrt.MiddleEnd.Constants.{operation_handshake}
use tel_ego_openwrt.MiddleEnd.Handshake.{
  ProcessId, put_process_id, parse_process_id, HandshakePacket, IsHandshakePacket,
  marshal_handshake, parse_handshake_packet, validate_handshake_flags,
}
use tel_ego_openwrt.MiddleEnd.Handshake.ProcessIds.{
  parse_process_id-put_process_id, put_process_id-parse_process_id,
}
use mathlib.Core.List.{append-nil}

length-put_process_id : (p : ProcessId) → length (put_process_id p) ≡ 12
unfolding put_process_id
length-put_process_id p = refl

drop-put_process_id : (p : ProcessId) (rest : List ℕ) → drop 12 (put_process_id p ++ rest) ≡ rest
unfolding put_process_id
drop-put_process_id p rest = refl

packet_bytes : HandshakePacket → List ℕ
packet_bytes p =
    put_le32 operation_handshake
    ++ (put_le32 p.flags ++ (put_process_id p.sender ++ put_process_id p.peer))

length-processes : (p q : ProcessId) → length (put_process_id p ++ put_process_id q) ≡ 24
length-processes p q = omega (
  arith,
  length-append (put_process_id p) (put_process_id q),
  length-put_process_id p,
  length-put_process_id q,
)

parse-packet_bytes :
    (p : HandshakePacket)
    → IsHandshakePacket p
    → validate_handshake_flags p.flags ≡ ok tt
    → parse_handshake_packet (packet_bytes p) ≡ ok p
unfolding packet_bytes parse_handshake_packet put_le32 join32
parse-packet_bytes p w v =
    let second = put_process_id p.peer in
    let last : parse_process_id second ≡ p.peer =
      rw (append-nil second) at (parse_process_id-put_process_id p.peer [] w.peer_range) in
    rw (
      length-processes p.sender p.peer,
      join32_bytes p.flags w.flags_range,
      v,
      parse_process_id-put_process_id p.sender second w.sender_range,
      drop-put_process_id p.sender second,
      last,
    )

marshal_handshake-packet_bytes :
    (p : HandshakePacket) (wire : List ℕ)
    → marshal_handshake p ≡ ok wire
    → (validate_handshake_flags p.flags ≡ ok tt) × (packet_bytes p ≡ wire)
unfolding marshal_handshake packet_bytes
marshal_handshake-packet_bytes p wire h = ground arith

packet_bytes-marshal_handshake :
    (p : HandshakePacket)
    → validate_handshake_flags p.flags ≡ ok tt
    → marshal_handshake p ≡ ok (packet_bytes p)
unfolding marshal_handshake packet_bytes
packet_bytes-marshal_handshake p v = rw v

-- The packet that the fields of 32 bytes make.
read_packet : List ℕ → HandshakePacket
read_packet wire = record {
  flags = le_uint32 (drop 4 wire);
  sender = parse_process_id (drop 8 wire);
  peer = parse_process_id (drop 20 wire);
}

parse_handshake_packet_facts :
    (wire : List ℕ) (p : HandshakePacket)
    → parse_handshake_packet wire ≡ ok p
    → (length wire ≡ 32)
      × (le_uint32 wire ≡ operation_handshake)
      × (validate_handshake_flags (le_uint32 (drop 4 wire)) ≡ ok tt)
      × (read_packet wire ≡ p)
unfolding parse_handshake_packet read_packet
parse_handshake_packet_facts wire p h = ground arith

packet_bytes-read_packet :
    (wire : List ℕ)
    → All IsByte wire
    → length wire ≡ 32
    → le_uint32 wire ≡ operation_handshake
    → (packet_bytes (read_packet wire) ≡ wire) × IsHandshakePacket (read_packet wire)
unfolding packet_bytes read_packet le_uint32
packet_bytes-read_packet (a ∷ b ∷ c ∷ d ∷ e ∷ f ∷ g ∷ h ∷ rest) w n o =
    let wr : All IsByte rest = All-drop IsByte 8 (a ∷ b ∷ c ∷ d ∷ e ∷ f ∷ g ∷ h ∷ rest) w in
    let wt : All IsByte (drop 12 rest) = All-drop IsByte 12 rest wr in
    let (s, sw) = put_process_id-parse_process_id rest wr (omega arith) in
    let (t, tw) =
      put_process_id-parse_process_id (drop 12 rest) wt (omega (arith, length-drop 12 rest)) in
    let all : take 12 (drop 12 rest) ≡ drop 12 rest =
      take_all 12 (drop 12 rest) (omega (arith, length-drop 12 rest)) in
    (
      rw (
        ← o,
        put_le32-join32 a b c d (w.0) (w.1.0) (w.1.1.0) (w.1.1.1.0),
        put_le32-join32 e f g h (w.1.1.1.1.0) (w.1.1.1.1.1.0) (w.1.1.1.1.1.1.0) (w.1.1.1.1.1.1.1.0),
        s,
        t,
        all,
        take-append-drop 12 rest,
      ),
      record {
        flags_range = ground (arith, join32-lt h g f e);
        sender_range = sw;
        peer_range = tw;
      },
    )
packet_bytes-read_packet _ w n o = absurd (omega arith)

-- ParseHandshakePacket reads a packet, whose fields are within their ranges, from bytes exactly when
-- MarshalBinary writes those bytes for it.
pub parse_handshake_packet_iff :
    (wire : List ℕ) (p : HandshakePacket)
    → All IsByte wire
    → IsHandshakePacket p
    → (parse_handshake_packet wire ≡ ok p) ↔ (marshal_handshake p ≡ ok wire)
parse_handshake_packet_iff wire p w wp = (
  λ h.
      let (n, o, v, same) = parse_handshake_packet_facts wire p h in
      let (e, _) = packet_bytes-read_packet wire w n o in
      let m : marshal_handshake (read_packet wire) ≡ ok (packet_bytes (read_packet wire)) =
        packet_bytes-marshal_handshake (read_packet wire) (unfold read_packet in v) in
      cc,
  λ h.
      let (v, e) = marshal_handshake-packet_bytes p wire h in
      subst (λ x. parse_handshake_packet x ≡ ok p) e (parse-packet_bytes p wp v),
)
