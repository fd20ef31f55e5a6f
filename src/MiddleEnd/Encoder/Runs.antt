-- ===== src/MiddleEnd/Encoder/Runs.antt =====
-- frame.go: sequences of calls on a FrameEncoder, and the frames that they write.
use tel_ego_openwrt.Base.{
  ℕ, suc, ◌≡◌, refl, ◌∙◌, List, [], ◌∷◌, ◌++◌, true, Result, inl, inr, ok, err,
}
use tel_ego_openwrt.Base.Int.{pos}
use tel_ego_openwrt.MiddleEnd.Constants.{Error}
use tel_ego_openwrt.MiddleEnd.Handshake.{HandshakePacket}
use tel_ego_openwrt.MiddleEnd.Encoder.{FrameEncoder, encode, apply_peer_handshake}
use tel_ego_openwrt.MiddleEnd.Encoder.Steps.{
  after_encode-Advances, encode_cases, apply_peer_handshake_facts,
}
use tel_ego_openwrt.MiddleEnd.Encoder.Invariant.{
  IsEncoder, after_encode-IsEncoder, apply_peer_handshake-IsEncoder,
}

pub data Call : Type 0 where
  encodes : List ℕ → Call
  applies : HandshakePacket → Call

-- The frame that a call puts on the wire, if any.
unfoldable pub emit : {A : Type 0} → Result Error A → (A → List (List ℕ)) → List (List ℕ)
emit (ok a) f = f a
emit (err x) f = []

unfoldable pub step : FrameEncoder → Call → FrameEncoder × List (List ℕ)
unfolding emit
step e (encodes payload) = let (e', r) = encode e payload in (e', emit r (λ wire. wire ∷ []))
step e (applies peer) = ((apply_peer_handshake e peer).0, [])

-- The encoder after a sequence of calls, and the frames written, in order.
unfoldable pub run : FrameEncoder → List Call → FrameEncoder × List (List ℕ)
run e [] = (e, [])
run e (c ∷ cs) = let (e', ws) = step e c in let (e'', vs) = run e' cs in (e'', ws ++ vs)

pub step-IsEncoder : (e : FrameEncoder) (c : Call) → IsEncoder e → IsEncoder (step e c).0
unfolding step
step-IsEncoder e (applies peer) v = apply_peer_handshake-IsEncoder e peer v
step-IsEncoder e (encodes payload) v = elim (encode_cases e payload) [
  | inl (x, h) ↦ rw h v
  | inr (w, n, k, h) ↦ rw h (after_encode-IsEncoder e payload v)
]

-- The numbers run behind sequence 0: the mode does not change any more.
abbrev IsPast : FrameEncoder → Type 0
IsPast e = (n : ℕ) × (e.next_sequence ≡ pos (suc n))

step-IsPast :
    (e : FrameEncoder) (c : Call) → IsPast e → IsPast (step e c).0 × ((step e c).0.mode ≡ e.mode)
unfolding step
step-IsPast e (applies peer) (n, p) =
    let (q, z, x, m) = apply_peer_handshake_facts e peer in
    ((n, q ∙ p), elim m [ inl k ↦ k | inr k ↦ cc ])
step-IsPast e (encodes payload) (n, p) = elim (encode_cases e payload) [
  | inl (x, h) ↦ rw h ((n, p), refl)
  | inr (w, k, l, h) ↦
      let (m, z, c) = after_encode-Advances e payload in
      rw h (elim c [ inl (x, _, q) ↦ ((n, q ∙ p), m) | inr (x, _, q) ↦ ((suc n, rw (q, p)), m) ])
]

pub run-IsPast : (e : FrameEncoder) (cs : List Call) → IsPast e → (run e cs).0.mode ≡ e.mode
unfolding run
run-IsPast e [] p = refl
run-IsPast e (c ∷ cs) p = let (q, m) = step-IsPast e c p in run-IsPast (step e c).0 cs q ∙ m

step-exhausted :
    (e : FrameEncoder) (c : Call)
    → e.exhausted ≡ true
    → ((step e c).0.exhausted ≡ true) × ((step e c).1 ≡ [])
unfolding step emit
step-exhausted e (applies peer) x = ((apply_peer_handshake_facts e peer).2 ∙ x, refl)
step-exhausted e (encodes payload) x = elim (encode_cases e payload) [
  | inl (y, h) ↦ rw h (x, refl)
  | inr (w, k, l, h) ↦ cc
]

pub run-exhausted : (e : FrameEncoder) (cs : List Call) → e.exhausted ≡ true → (run e cs).1 ≡ []
unfolding run
run-exhausted e [] x = refl
run-exhausted e (c ∷ cs) x =
    let (y, w) = step-exhausted e c x in rw (w, run-exhausted (step e c).0 cs y)
