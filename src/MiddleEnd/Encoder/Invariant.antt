-- ===== src/MiddleEnd/Encoder/Invariant.antt =====
-- frame.go: what holds of a FrameEncoder between its calls.
use tel_ego_openwrt.Base.{ℕ, zero, suc, ◌≡◌, ◌≢◌, refl, List, true, arith, inl, inr, ok}
use tel_ego_openwrt.Base.Int.{ℤ, pos, negsuc, suc_ℤ, ltb_ℤ, IsInt32}
use tel_ego_openwrt.MiddleEnd.Handshake.{checksum_crc32, HandshakePacket}
use tel_ego_openwrt.MiddleEnd.Frame.{validate_sequence, validate_max_frame_size}
use tel_ego_openwrt.MiddleEnd.Encoder.{
  FrameEncoder, max_int32, new_frame_encoder, after_encode, apply_peer_handshake,
}
use tel_ego_openwrt.MiddleEnd.Encoder.Steps.{after_encode-Advances, apply_peer_handshake_facts}

-- The facts that hold of an encoder between calls.
pub record IsEncoder (e : FrameEncoder) : Type 0 where
  pub range : IsInt32 e.next_sequence
  pub sequence_valid : validate_sequence e.next_sequence ≡ ok tt
  pub size_valid : validate_max_frame_size e.max_frame_size ≡ ok tt
  pub early : ltb_ℤ e.next_sequence (pos 0) ≡ true → e.mode ≡ checksum_crc32

pub new_frame_encoder-IsEncoder :
    (s : ℤ) (max : ℕ) (e : FrameEncoder) → IsInt32 s → new_frame_encoder s max ≡ ok e → IsEncoder e
unfolding new_frame_encoder
new_frame_encoder-IsEncoder s max e i h = record {
  range = ground arith;
  sequence_valid = ground arith;
  size_valid = ground arith;
  early = λ l. ground arith;
}

suc_ℤ-range : (s : ℤ) → IsInt32 s → s ≢ max_int32 → IsInt32 (suc_ℤ s)
suc_ℤ-range (pos n) i h = ground arith
suc_ℤ-range (negsuc zero) i h = omega arith
suc_ℤ-range (negsuc (suc n)) i h = omega arith

suc_ℤ-valid : (s : ℤ) → validate_sequence s ≡ ok tt → validate_sequence (suc_ℤ s) ≡ ok tt
unfolding validate_sequence
suc_ℤ-valid (pos n) v = refl
suc_ℤ-valid (negsuc zero) v = refl
suc_ℤ-valid (negsuc (suc n)) v = ground arith

suc_ℤ-early : (s : ℤ) → ltb_ℤ (suc_ℤ s) (pos 0) ≡ true → ltb_ℤ s (pos 0) ≡ true
suc_ℤ-early (pos n) h = ground arith
suc_ℤ-early (negsuc n) h = refl

pub after_encode-IsEncoder :
    (e : FrameEncoder) (payload : List ℕ) → IsEncoder e → IsEncoder (after_encode e payload)
after_encode-IsEncoder e payload v =
    let (m, z, c) = after_encode-Advances e payload in
    elim c [
      | inl (x, _, n) ↦ record {
        range = rw n v.range;
        sequence_valid = rw n v.sequence_valid;
        size_valid = rw z v.size_valid;
        early = λ l. rw m (v.early (rw n at l));
      }
      | inr (x, _, n) ↦ record {
        range = rw n (suc_ℤ-range e.next_sequence v.range x);
        sequence_valid = rw n (suc_ℤ-valid e.next_sequence v.sequence_valid);
        size_valid = rw z v.size_valid;
        early = λ l. rw m (v.early (suc_ℤ-early e.next_sequence (rw n at l)));
      }
    ]

pub apply_peer_handshake-IsEncoder :
    (e : FrameEncoder) (peer : HandshakePacket)
    → IsEncoder e
    → IsEncoder (apply_peer_handshake e peer).0
apply_peer_handshake-IsEncoder e peer v =
    let (n, z, x, m) = apply_peer_handshake_facts e peer in
    record {
      range = rw n v.range;
      sequence_valid = rw n v.sequence_valid;
      size_valid = rw z v.size_valid;
      early = λ l. elim m [ inl k ↦ rw k (v.early (rw n at l)) | inr k ↦ cc (rw (n, k) at l) ];
    }

pub new_frame_encoder_start :
    (s : ℤ) (max : ℕ) (e : FrameEncoder)
    → new_frame_encoder s max ≡ ok e
    → (e.max_frame_size ≡ max) × (e.next_sequence ≡ s)
unfolding new_frame_encoder
new_frame_encoder_start s max e h = ground arith
