-- ===== src/MiddleEnd/ClientPacket/Room.antt =====
-- client_packet.go: a full ClientPacketDecoder always has an answer.
use tel_ego_openwrt.Base.{
  ℕ, ◌+◌, ◌<◌, ◌≡◌, refl, sym, ap, ◌∙◌, ◌⊎◌, List, arith, All, Option, none, some, inl, inr, length,
  Result, ok, err,
}
use tel_ego_openwrt.Base.Bytes.{IsByte}
use tel_ego_openwrt.MiddleEnd.ClientPacket.{
  ClientError, ConnectionType, ClientPacketDecoder, Header, abridged_header, parse_abridged_header,
  parse_intermediate_header, parse_header, take_packet, fail, next,
}
use tel_ego_openwrt.MiddleEnd.ClientPacket.Fragments.{parse_header_sizes, next_open}

parse_header_waiting :
    (t : ConnectionType) (m : ℕ) (xs : List ℕ) → parse_header t m xs ≡ ok none → length xs < 4
unfolding parse_header parse_abridged_header parse_intermediate_header abridged_header
parse_header_waiting t m xs h = ground arith

take_packet_waiting :
    (d : ClientPacketDecoder) (r : Result ClientError (Option Header))
    → (take_packet d r).1 ≡ ok none
    → (r ≡ ok none)
      ⊎ ((h : Header) × (r ≡ ok (some h))
          × (length d.retained < h.header_size + h.wire_packet_size))
unfolding take_packet fail
take_packet_waiting d (err x) e = ground arith
take_packet_waiting d (ok none) e = inl refl
take_packet_waiting d (ok (some h)) e = inr (h, refl, ground arith)

-- If a decoder without an error asks for more bytes, it retains fewer than a header of four bytes and
-- a packet of the greatest size would take. What it retains are bytes.
pub next_waiting-room :
    (d : ClientPacketDecoder)
    → d.error ≡ none
    → All IsByte d.retained
    → (next d).1 ≡ ok none
    → length d.retained < d.max_packet_size + 4
next_waiting-room d h w e =
    elim (take_packet_waiting d (parse_header d.connection_type d.max_packet_size d.retained)
      (sym (ap (λ r. r.1) (next_open d h)) ∙ e)) [
        | inl n ↦
            omega (arith, parse_header_waiting d.connection_type d.max_packet_size d.retained n)
        | inr (x, k, l) ↦
            let (_, s, _, _, m) =
              parse_header_sizes d.connection_type d.max_packet_size d.retained x w k in
            omega arith
      ]
