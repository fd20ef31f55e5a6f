-- ===== src/MiddleEnd/Encoder/Steps.antt =====
-- frame.go: what one call of FrameEncoder.Encode or ApplyPeerHandshake changes.
use tel_ego_openwrt.Base.{
  ℕ, ◌≡◌, ◌≢◌, refl, ◌⊎◌, List, true, false, arith, Bool-cases, Option-cases, Result-cases, inl,
  inr, ok, err,
}
use tel_ego_openwrt.Base.Int.{ℤ, pos, suc_ℤ, eqb_ℤ, eqb_ℤ_iff}
use tel_ego_openwrt.MiddleEnd.Constants.{Error, sequence_exhausted}
use tel_ego_openwrt.MiddleEnd.Handshake.{HandshakePacket}
use tel_ego_openwrt.MiddleEnd.Frame.{encode_frame_within}
use tel_ego_openwrt.MiddleEnd.Encoder.{
  FrameEncoder, max_int32, close_transition, advance, note_handshake, after_encode, encode,
  apply_peer_handshake,
}

-- Two encoders that agree but for the state of the transition.
record Alike (e e' : FrameEncoder) : Type 0 where
  sequence_alike : e'.next_sequence ≡ e.next_sequence
  mode_alike : e'.mode ≡ e.mode
  size_alike : e'.max_frame_size ≡ e.max_frame_size
  exhausted_alike : e'.exhausted ≡ e.exhausted

close_transition-Alike : (e : FrameEncoder) → Alike e (close_transition e)
unfolding close_transition
close_transition-Alike e = ground arith

note_handshake-Alike :
    (s : ℤ) (payload : List ℕ) (e : FrameEncoder) → Alike e (note_handshake s payload e)
unfolding note_handshake
note_handshake-Alike s payload e = ground arith

-- The sequence after a frame: the next one, or the same at the end of the numbers.
abbrev pub Advances : FrameEncoder → FrameEncoder → Type 0
Advances e e' =
    (e'.mode ≡ e.mode)
    × (e'.max_frame_size ≡ e.max_frame_size)
    × (((e.next_sequence ≡ max_int32)
          × (e'.exhausted ≡ true)
          × (e'.next_sequence ≡ e.next_sequence))
        ⊎ ((e.next_sequence ≢ max_int32)
            × (e'.exhausted ≡ e.exhausted)
            × (e'.next_sequence ≡ suc_ℤ e.next_sequence)))

advance-Advances : (e : FrameEncoder) → Advances e (advance e)
unfolding advance
advance-Advances e = elim (Bool-cases (eqb_ℤ e.next_sequence max_int32)) [
  | inl h ↦ rw h (refl, refl, inl ((eqb_ℤ_iff _ _).0 h, refl, refl))
  | inr h ↦
      rw h (refl, refl, inr ((λ m. cc ((eqb_ℤ_iff e.next_sequence max_int32).1 m)), refl, refl))
]

pub after_encode-Advances :
    (e : FrameEncoder) (payload : List ℕ) → Advances e (after_encode e payload)
unfolding after_encode
after_encode-Advances e payload =
    let c = close_transition-Alike e in
    let a = advance-Advances (close_transition e) in
    let n = note_handshake-Alike e.next_sequence payload (advance (close_transition e)) in
    ground arith

-- A call of Encode fails and changes nothing, or writes a frame and advances.
pub encode_cases :
    (e : FrameEncoder) (payload : List ℕ)
    → ((x : Error) × (encode e payload ≡ (e, err x)))
      ⊎ ((wire : List ℕ) × (e.exhausted ≡ false)
          × (encode_frame_within e.next_sequence payload e.mode e.max_frame_size ≡ ok wire)
          × (encode e payload ≡ (after_encode e payload, ok wire)))
unfolding encode
encode_cases e payload = elim (Option-cases e.error) [
  | inr (x, h) ↦ inl (x, ground arith)
  | inl h ↦ elim (Bool-cases e.exhausted) [
    | inl x ↦ inl (sequence_exhausted, ground arith)
    | inr n ↦
        elim (Result-cases (encode_frame_within e.next_sequence payload e.mode e.max_frame_size)) [
          | inl (w, k) ↦ inr (w, n, k, ground arith)
          | inr (x, k) ↦ inl (x, ground arith)
        ]
  ]
]

-- ApplyPeerHandshake keeps the numbering, and sets the mode only before sequence 0.
pub apply_peer_handshake_facts :
    (e : FrameEncoder) (peer : HandshakePacket)
    → let e' = (apply_peer_handshake e peer).0 in
      (e'.next_sequence ≡ e.next_sequence)
      × (e'.max_frame_size ≡ e.max_frame_size)
      × (e'.exhausted ≡ e.exhausted)
      × ((e'.mode ≡ e.mode) ⊎ (e.next_sequence ≡ pos 0))
unfolding apply_peer_handshake
apply_peer_handshake_facts e peer = ground (arith, (eqb_ℤ_iff e.next_sequence (pos 0)).0)
