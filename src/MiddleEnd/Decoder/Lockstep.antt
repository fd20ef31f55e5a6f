-- ===== src/MiddleEnd/Decoder/Lockstep.antt =====
-- frame.go: a FrameEncoder and the FrameDecoder at the other end of the stream keep step.
use tel_ego_openwrt.Base.{
  ℕ, ◌-◌, ◌%◌, ◌≤◌, ◌≡◌, ◌≢◌, refl, sym, ap, ◌∙◌, ◌⊎◌, List, [], ◌++◌, true, false, arith, length,
  take, min, Bool-cases, none, some, Result, inl, inr, ok, err, subst, take_all,
}
use tel_ego_openwrt.Base.Bytes.{le_uint32}
use tel_ego_openwrt.Base.Int.{negsuc, eqb_ℤ, eqb_ℤ_iff, suc_ℤ}
use tel_ego_openwrt.MiddleEnd.Constants.{Error}
use tel_ego_openwrt.MiddleEnd.Handshake.{HandshakePacket, parse_handshake_packet}
use tel_ego_openwrt.MiddleEnd.Frame.{Frame, decode_frame, encode_frame_within}
use tel_ego_openwrt.MiddleEnd.Frame.RoundTrip.{
  decode_frame-encode_frame_within, encode_frame_within_size,
}
use tel_ego_openwrt.MiddleEnd.Encoder.{FrameEncoder, max_int32, after_encode, encode}
use tel_ego_openwrt.MiddleEnd.Encoder.Steps.{Advances, after_encode-Advances, encode_cases}
use tel_ego_openwrt.MiddleEnd.Encoder.Invariant.{IsEncoder}
use tel_ego_openwrt.MiddleEnd.Decoder.{
  FrameDecoder, buffered, buffered_len, discard_buffered, drain_noops, feed, settle, accept,
  advance, next_frame, next,
}
use tel_ego_openwrt.MiddleEnd.Decoder.Views.{
  SameView-buffered, with_bytes, IsWithin, SameView, next-Agree, length-buffered, view-feed,
}
use tel_ego_openwrt.MiddleEnd.Decoder.Padding.{with_bytes-drained}

-- Both ends stand at the same number, in the same mode and under the same limit, and nothing is in
-- flight.
pub record InStep (e : FrameEncoder) (d : FrameDecoder) : Type 0 where
  pub same_sequence : d.next_sequence ≡ e.next_sequence
  pub same_mode : d.mode ≡ e.mode
  pub same_size : d.max_frame_size ≡ e.max_frame_size
  pub same_exhausted : d.exhausted ≡ e.exhausted
  pub no_error : d.error ≡ none
  pub empty : buffered d ≡ []
  pub within : IsWithin d

next_waiting :
    (d : FrameDecoder)
    → d.error ≡ none
    → d.checksum_transition_open ≡ false
    → d.exhausted ≡ false
    → next d ≡ next_frame (drain_noops d)
unfolding next
next_waiting d e o x = ground arith

settle_ok :
    (d : FrameDecoder) (n : ℕ) (r : Result Error Frame) (f : Frame)
    → r ≡ ok f
    → settle d n r ≡ accept d n f
unfolding settle
settle_ok d n (ok g) f h = ground arith
settle_ok d n (err x) f h = cc

next_frame-whole :
    (d : FrameDecoder) (wire : List ℕ) (f : Frame)
    → buffered d ≡ wire
    → le_uint32 wire ≡ length wire
    → 16 ≤ length wire
    → length wire ≤ d.max_frame_size
    → length wire % 4 ≡ 0
    → decode_frame wire d.next_sequence d.mode d.max_frame_size ≡ ok f
    → next_frame d ≡ accept d (length wire) f
unfolding next_frame
next_frame-whole d wire f b s lo hi q r = ground (
  arith,
  take_all (length wire) wire,
  settle_ok d (length wire) (decode_frame wire d.next_sequence d.mode d.max_frame_size) f r,
)

-- A frame that fills the buffer is decoded and accepted.
next-whole :
    (d : FrameDecoder) (wire : List ℕ) (f : Frame)
    → d.error ≡ none
    → d.checksum_transition_open ≡ false
    → d.exhausted ≡ false
    → le_uint32 wire ≡ length wire
    → 16 ≤ length wire
    → length wire ≤ d.max_frame_size
    → length wire % 4 ≡ 0
    → decode_frame wire d.next_sequence d.mode d.max_frame_size ≡ ok f
    → next (with_bytes d wire) ≡ accept (with_bytes d wire) (length wire) f
next-whole d wire f e o x s lo hi q r =
    next_waiting (with_bytes d wire) e o x
    ∙ ap next_frame (with_bytes-drained d wire (inr (λ four. omega arith)))
    ∙ next_frame-whole (with_bytes d wire) wire f (unfold buffered in refl) s lo hi q r

discard_whole :
    (d : FrameDecoder) (wire : List ℕ)
    → discard_buffered (with_bytes d wire) (length wire) ≡ with_bytes d []
unfolding discard_buffered
discard_whole d wire = ground arith

-- The decoder `c` has no byte left, and its number has advanced from that of `d`.
abbrev Moves : FrameDecoder → FrameDecoder → Type 0
Moves d c =
    (c.buffer ≡ [])
    × (c.head ≡ 0)
    × (c.mode ≡ d.mode)
    × (c.max_frame_size ≡ d.max_frame_size)
    × (c.error ≡ d.error)
    × (((d.next_sequence ≡ max_int32) × (c.exhausted ≡ true) × (c.next_sequence ≡ d.next_sequence))
        ⊎ ((d.next_sequence ≢ max_int32)
            × (c.exhausted ≡ d.exhausted)
            × (c.next_sequence ≡ suc_ℤ d.next_sequence)))

advance-Moves : (d : FrameDecoder) → d.buffer ≡ [] → d.head ≡ 0 → Moves d (advance d)
unfolding advance
advance-Moves d b h = elim (Bool-cases (eqb_ℤ d.next_sequence max_int32)) [
  | inl x ↦
      rw x (b, h, refl, refl, refl, inl ((eqb_ℤ_iff d.next_sequence max_int32).0 x, refl, refl))
  | inr x ↦ rw x (
    b,
    h,
    refl,
    refl,
    refl,
    inr ((λ m. cc ((eqb_ℤ_iff d.next_sequence max_int32).1 m)), refl, refl),
  )
]

-- What a decoder is after it accepted the only frame in its buffer.
accept-whole :
    (d : FrameDecoder) (wire : List ℕ) (f : Frame)
    → (eqb_ℤ f.sequence (negsuc 0) ≡ true
        → (h : HandshakePacket) × (parse_handshake_packet f.payload ≡ ok h))
    → let r = accept (with_bytes d wire) (length wire) f in (r.1 ≡ ok (some f)) × Moves d r.0
unfolding accept
accept-whole d wire f h = elim (Bool-cases (eqb_ℤ f.sequence (negsuc 0))) [
  | inl x ↦
      let (p, k) = h x in
      rw (x, k, discard_whole d wire)
        (
          refl,
          advance-Moves
              (record (with_bytes d []) { peer_handshake = p; checksum_transition_open = true })
              refl refl,
        )
  | inr x ↦ rw (x, discard_whole d wire) (refl, advance-Moves (with_bytes d []) refl refl)
]

-- What a decoder in step receives when the frame that the encoder wrote arrives.
arrived :
    (e : FrameEncoder) (d : FrameDecoder) (wire : List ℕ)
    → InStep e d
    → length wire ≤ e.max_frame_size
    → ((feed d wire).1 ≡ ok (length wire)) × SameView (feed d wire).0 (with_bytes d wire)
arrived e d wire s n =
    let (r, v, w) = view-feed d wire s.within s.no_error in
    let z : buffered_len d ≡ 0 = rw (← length-buffered d, s.empty) in
    let m : min (length wire) (d.max_frame_size - buffered_len d) ≡ length wire =
      omega (arith, z, s.same_size) in
    let t : buffered d ++ take (min (length wire) (d.max_frame_size - buffered_len d)) wire ≡ wire =
      rw (s.empty, m) (take_all (length wire) wire (omega arith)) in
    (r ∙ ap ok m, (v ∙ ap (with_bytes d) t, w, omega arith))

-- A call that wrote a frame.
written :
    (e e' : FrameEncoder) (payload wire : List ℕ)
    → encode e payload ≡ (e', ok wire)
    → (e.exhausted ≡ false)
      × (encode_frame_within e.next_sequence payload e.mode e.max_frame_size ≡ ok wire)
      × (e' ≡ after_encode e payload)
written e e' payload wire k = elim (encode_cases e payload) [
  | inl (x, h) ↦ ground arith
  | inr (w, x, h, q) ↦ ground arith
]

-- What the other end makes of the frame.
received :
    (e : FrameEncoder) (d : FrameDecoder) (payload wire : List ℕ)
    → IsEncoder e
    → InStep e d
    → d.checksum_transition_open ≡ false
    → (eqb_ℤ e.next_sequence (negsuc 0) ≡ true
        → (h : HandshakePacket) × (parse_handshake_packet payload ≡ ok h))
    → e.exhausted ≡ false
    → encode_frame_within e.next_sequence payload e.mode e.max_frame_size ≡ ok wire
    → let r = next (with_bytes d wire) in
      (r.1 ≡ ok (some (record { sequence = e.next_sequence; payload = payload }))) × Moves d r.0
received e d payload wire v s o h x w =
    let f : Frame = record { sequence = e.next_sequence; payload = payload } in
    let (n, lo, hi, q) =
      encode_frame_within_size e.next_sequence payload e.mode e.max_frame_size wire v.range
        v.size_valid w in
    let decoded =
      decode_frame-encode_frame_within e.next_sequence payload e.mode e.max_frame_size wire v.range
        v.sequence_valid v.size_valid w in
    let there : decode_frame wire d.next_sequence d.mode d.max_frame_size ≡ ok f =
      rw (s.same_sequence, s.same_mode, s.same_size) decoded in
    let accepted =
      next-whole d wire f s.no_error o (s.same_exhausted ∙ x) n lo (omega (arith, s.same_size)) q
        there in
    rw accepted (accept-whole d wire f h)

Moves-InStep :
    (e e' : FrameEncoder) (d c : FrameDecoder)
    → InStep e d
    → Advances e e'
    → Moves d c
    → InStep e' c
unfolding buffered
Moves-InStep e e' d c s (m, z, a) (b, t, m', z', x, a') = record {
  same_sequence = ground (arith, s.same_sequence);
  same_mode = m' ∙ s.same_mode ∙ sym m;
  same_size = z' ∙ s.same_size ∙ sym z;
  same_exhausted = ground (arith, s.same_sequence, s.same_exhausted);
  no_error = x ∙ s.no_error;
  empty = rw (b, t) refl;
  within = rw (b, t) (omega arith);
}

InStep-SameView : (e : FrameEncoder) (d c : FrameDecoder) → SameView d c → InStep e c → InStep e d
InStep-SameView e d c v s = record {
  same_sequence = ap (λ x. x.next_sequence) v.0 ∙ s.same_sequence;
  same_mode = ap (λ x. x.mode) v.0 ∙ s.same_mode;
  same_size = ap (λ x. x.max_frame_size) v.0 ∙ s.same_size;
  same_exhausted = ap (λ x. x.exhausted) v.0 ∙ s.same_exhausted;
  no_error = ap (λ x. x.error) v.0 ∙ s.no_error;
  empty = SameView-buffered d c v ∙ s.empty;
  within = v.1;
}

-- An encoder and a decoder in step, with no transition open at the decoder: if Encode writes a frame
-- and all its bytes arrive, Feed takes them all, Next returns the payload under the encoder's
-- sequence, and both ends are in step again. The encoder's facts hold, and a payload with sequence -1
-- is a handshake packet.
pub encode-next :
    (e e' : FrameEncoder) (d : FrameDecoder) (payload wire : List ℕ)
    → IsEncoder e
    → InStep e d
    → d.checksum_transition_open ≡ false
    → (eqb_ℤ e.next_sequence (negsuc 0) ≡ true
        → (h : HandshakePacket) × (parse_handshake_packet payload ≡ ok h))
    → encode e payload ≡ (e', ok wire)
    → ((feed d wire).1 ≡ ok (length wire))
      × ((next (feed d wire).0).1
          ≡ ok (some (record { sequence = e.next_sequence; payload = payload })))
      × InStep e' (next (feed d wire).0).0
encode-next e e' d payload wire v s o h k =
    let (x, w, i) = written e e' payload wire k in
    let (n, lo, hi, q) =
      encode_frame_within_size e.next_sequence payload e.mode e.max_frame_size wire v.range
        v.size_valid w in
    let (taken, same) = arrived e d wire s hi in
    let (answer, moves) = received e d payload wire v s o h x w in
    let (agree, t) = next-Agree (feed d wire).0 (with_bytes d wire) same in
    let r = next (with_bytes d wire) in
    let step : InStep (after_encode e payload) r.0 =
      Moves-InStep e (after_encode e payload) d r.0 s (after_encode-Advances e payload) moves in
    (
      taken,
      agree ∙ answer,
      subst (λ c. InStep c (next (feed d wire).0).0) (sym i)
          (InStep-SameView (after_encode e payload) (next (feed d wire).0).0 r.0 t step),
    )
