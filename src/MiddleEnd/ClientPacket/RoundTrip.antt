-- ===== src/MiddleEnd/ClientPacket/RoundTrip.antt =====
-- client_packet.go: ClientPacketDecoder.Next reads what ClientPacketEncoder.Encode wrote.
use tel_ego_openwrt.Base.{
  ℕ, ◌+◌, ◌%◌, ◌^◌, ◌≤◌, ◌≡◌, sym, ap, ◌∙◌, ◌⊎◌, List, ◌++◌, arith, false, none, some, inl, inr,
  subst, length, ok,
}
use tel_ego_openwrt.Base.Bytes.{put_le32}
use tel_ego_openwrt.MiddleEnd.Constants.{max_client_packet_size}
use tel_ego_openwrt.MiddleEnd.ClientPacket.{
  ClientPacketDecoder, abridged, intermediate, padded_intermediate, parse_header, take_packet, next,
}
use tel_ego_openwrt.MiddleEnd.ClientPacket.Encoding.{
  ClientPacketEncoder, encode_abridged_packet, encode_padded_intermediate_packet, encode,
}
use tel_ego_openwrt.MiddleEnd.ClientPacket.Fragments.{next_open}
use mathlib.Core.List.{append_assoc}
use tel_ego_openwrt.MiddleEnd.ClientPacket.Framed.{
  Framed, take_packet-front, encode_abridged_packet-Framed, intermediate-Framed,
  encode_padded_intermediate_packet-Framed,
}

encode_cases :
    (e : ClientPacketEncoder) (packet source wire rest : List ℕ)
    → encode e packet source ≡ ok (wire, rest)
    → (4 ≤ length packet)
      × (length packet % 4 ≡ 0)
      × (length packet ≤ e.max_packet_size)
      × (((e.connection_type ≡ abridged) × (encode_abridged_packet packet ≡ ok wire))
          ⊎ ((e.connection_type ≡ intermediate)
              × (wire ≡ put_le32 (length packet % 2 ^ 32) ++ packet))
          ⊎ ((e.connection_type ≡ padded_intermediate)
              × (encode_padded_intermediate_packet packet source ≡ ok (wire, rest))))
unfolding encode
encode_cases e packet source wire rest h = ground arith

encode-Framed :
    (e : ClientPacketEncoder) (packet source wire rest : List ℕ)
    → e.max_packet_size ≤ max_client_packet_size
    → encode e packet source ≡ ok (wire, rest)
    → length wire ≤ e.max_packet_size + 4
    → Framed e.connection_type e.max_packet_size packet wire
encode-Framed e packet source wire rest m h n =
    let (lo, q, hi, c) = encode_cases e packet source wire rest h in
    elim c [
      | inl (t, w) ↦
          subst (λ x. Framed x e.max_packet_size packet wire) (sym t)
            (encode_abridged_packet-Framed e.max_packet_size packet wire lo q hi m w)
      | inr (inl (t, w)) ↦
          subst (λ x. Framed x e.max_packet_size packet wire) (sym t)
            (subst (Framed intermediate e.max_packet_size packet) (sym w)
              (intermediate-Framed e.max_packet_size packet lo q hi m))
      | inr (inr (t, w)) ↦
          subst (λ x. Framed x e.max_packet_size packet wire) (sym t)
            (encode_padded_intermediate_packet-Framed e.max_packet_size packet source wire rest lo q
              n m w)
    ]

-- What Encode wrote for a packet is read back by Next of a decoder of the same framing and limit,
-- whatever bytes follow: it returns the packet, without the padding and without a quick
-- acknowledgement, and retains the following bytes. The decoder has no error, the limit is at most
-- MaxClientPacketSize, and the padded packet is within the limit.
pub next-encode :
    (e : ClientPacketEncoder) (d : ClientPacketDecoder) (packet source wire rest later : List ℕ)
    → e.max_packet_size ≤ max_client_packet_size
    → d.connection_type ≡ e.connection_type
    → d.max_packet_size ≡ e.max_packet_size
    → d.error ≡ none
    → encode e packet source ≡ ok (wire, rest)
    → length wire ≤ e.max_packet_size + 4
    → d.retained ≡ wire ++ later
    → next d
      ≡ (record d { retained = later }, ok (some (record { payload = packet; quick_ack = false })))
next-encode e d packet source wire rest later m t z x h n b =
    let f = encode-Framed e packet source wire rest m h n in
    let bytes : d.retained ≡ f.front ++ (packet ++ (f.pad ++ later)) =
      b
      ∙ ap (λ w. w ++ later) f.image
      ∙ append_assoc f.front (packet ++ f.pad) later
      ∙ ap (λ w. f.front ++ w) (append_assoc packet f.pad later) in
    next_open d x
    ∙ ap (take_packet d) ((λ i. parse_header (t i) (z i) (b i)) ∙ f.parsed later)
    ∙ take_packet-front d f.front packet f.pad later bytes
