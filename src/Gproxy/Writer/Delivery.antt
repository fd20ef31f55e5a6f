-- ===== src/Gproxy/Writer/Delivery.antt =====
-- middleend_frontend.go, drs.go: the records of writeWire are those that PlanSize announces, and
-- carry the encrypted stream.
use tel_ego_openwrt.Base.{
  ℕ, zero, suc, ◌+◌, ◌-◌, ◌≤◌, ◌≡◌, refl, sym, ap, ◌∙◌, List, [], ◌∷◌, ◌++◌, arith, All, false,
  Bool-cases, inl, inr, ltb, ◌==◌, subst, length, take, drop, ok, length-append, length-take,
  length-drop, take-append-drop,
}
use tel_ego_openwrt.FakeTls.Record.{max_record_payload, record_header_size, wrap_application_data}
use tel_ego_openwrt.FakeTls.Record.Chunks.{wrapped, concat, Fits, length-wrapped, length-zero}
use tel_ego_openwrt.FakeTls.Record.RoundTrip.{header-wrap, length-wrap}
use tel_ego_openwrt.FakeTls.Sizer.{DrsState, next_chunk, advance, plan_loop}
use tel_ego_openwrt.Gproxy.Writer.{Client, encode_loop}
use mathlib.Core.List.{append-nil, append_assoc}

-- NextChunk takes some of the pending bytes, and no more than a record holds.
pub next_chunk_bounds :
    (d : DrsState) (n : ℕ)
    → 1 ≤ n
    → 1 ≤ d.max_size
    → d.max_size ≤ max_record_payload
    → (1 ≤ (next_chunk d n).1)
      × ((next_chunk d n).1 ≤ n)
      × ((next_chunk d n).1 ≤ max_record_payload)
      × ((next_chunk d n).0.max_size ≡ d.max_size)
unfolding next_chunk
next_chunk_bounds d n lo m hi = ground arith

pub advance-max_size : (d : DrsState) (n : ℕ) → (advance d n).max_size ≡ d.max_size
unfolding advance
advance-max_size d n = ground arith

plan_loop_total :
    (fuel : ℕ) (d : DrsState) (n total : ℕ)
    → plan_loop fuel d n total ≡ total + plan_loop fuel d n 0
unfolding plan_loop
plan_loop_total zero d n total = omega arith
plan_loop_total (suc fuel) d n total =
    let c : ℕ = (next_chunk d n).1 in
    let ih = λ (t : ℕ). plan_loop_total fuel (advance (next_chunk d n).0 c) (n - c) t in
    ground (arith, ih (total + (record_header_size + c)), ih (record_header_size + c))

-- One round of the plan.
pub plan_loop_step :
    (fuel : ℕ) (d : DrsState) (n : ℕ)
    → 1 ≤ n
    → 1 ≤ (next_chunk d n).1
    → plan_loop (suc fuel) d n 0
      ≡ 5
        + (next_chunk d n).1
        + plan_loop fuel (advance (next_chunk d n).0 (next_chunk d n).1) (n - (next_chunk d n).1) 0
unfolding plan_loop
plan_loop_step fuel d n p q = ground (
  arith,
  plan_loop_total fuel (advance (next_chunk d n).0 (next_chunk d n).1) (n - (next_chunk d n).1)
      (record_header_size + (next_chunk d n).1),
)

pub plan_loop_idle : (fuel : ℕ) (d : DrsState) → plan_loop fuel d 0 0 ≡ 0
unfolding plan_loop
plan_loop_idle zero d = refl
plan_loop_idle (suc fuel) d = refl

-- crypto/cipher's Stream: XORKeyStream keeps the length, an empty source changes nothing, and calls
-- behave as if their sources came in a single one.
module _ {S : Type 0} (xor_key_stream : S → List ℕ → S × List ℕ)
    (length-xor_key_stream : (s : S) (xs : List ℕ) → length (xor_key_stream s xs).1 ≡ length xs)
    (xor_key_stream-nil : (s : S) → xor_key_stream s [] ≡ (s, []))
    (xor_key_stream-append : (s : S) (xs ys : List ℕ)
      → xor_key_stream s (xs ++ ys) ≡ (
          let (t, a) = xor_key_stream s xs in
          let (u, b) = xor_key_stream t ys in (u, a ++ b))) where
  -- What the loop makes of the rest of the source: records behind those written, as many bytes as
  -- the plan says, and the encrypted rest in them.
  pub record Encoded (fuel planned : ℕ) (c : Client S) (out wire : List ℕ) : Type 0 where
    pub payloads : List (List ℕ)
    pub fit : All Fits payloads
    pub whole : concat payloads ≡ (xor_key_stream c.encryptor wire).1
    pub size : length (wrapped payloads) ≡ plan_loop fuel c.drs (length wire) 0
    pub result :
        (encode_loop xor_key_stream fuel planned c out wire).1 ≡ ok (out ++ wrapped payloads)
    pub cipher :
        (encode_loop xor_key_stream fuel planned c out wire).0.encryptor
        ≡ (xor_key_stream c.encryptor wire).0

  encode_loop_idle :
      (fuel planned : ℕ) (c : Client S) (out : List ℕ)
      → encode_loop xor_key_stream fuel planned c out [] ≡ (c, ok out)
  unfolding encode_loop
  encode_loop_idle zero planned c out = refl
  encode_loop_idle (suc fuel) planned c out = refl

  encode_loop_nothing :
      (fuel planned : ℕ) (c : Client S) (out wire : List ℕ)
      → wire ≡ []
      → Encoded fuel planned c out wire
  unfolding encode_loop plan_loop
  encode_loop_nothing fuel planned c out wire e =
      let n = xor_key_stream-nil c.encryptor in
      let idle = encode_loop_idle fuel planned c out in
      subst (Encoded fuel planned c out) (sym e) (record {
        payloads = [];
        fit = tt;
        whole = ap (λ x. x.1) (sym n);
        size = sym (plan_loop_idle fuel c.drs);
        result = ap (λ x. x.1) idle ∙ ap ok (sym (append-nil out));
        cipher = ap (λ x. x.0.encryptor) idle ∙ ap (λ x. x.0) (sym n);
      })

  encode_loop_round :
      (fuel planned : ℕ) (c : Client S) (out wire : List ℕ)
      → 1 ≤ length wire
      → 1 ≤ (next_chunk c.drs (length wire)).1
      → length out + 5 + (next_chunk c.drs (length wire)).1 ≤ planned
      → let (d, chunk) = next_chunk c.drs (length wire) in
        let (s, bytes) = xor_key_stream c.encryptor (take chunk wire) in
        length bytes ≡ chunk
        → encode_loop xor_key_stream (suc fuel) planned c out wire
          ≡ encode_loop xor_key_stream fuel planned
              (record c { drs = advance d chunk; encryptor = s })
              (out ++ wrap_application_data bytes)
              (drop chunk wire)
  unfolding encode_loop
  encode_loop_round fuel planned c out wire p q r e =
      let chunk : ℕ = (next_chunk c.drs (length wire)).1 in
      let bytes : List ℕ = (xor_key_stream c.encryptor (take chunk wire)).1 in
      let full : (length wire == 0) ≡ false = ground arith in
      let some_chunk : (chunk == 0) ≡ false = ground arith in
      let room : ltb planned (length out + record_header_size + chunk) ≡ false = ground arith in
      rw (full, some_chunk, room, header-wrap bytes chunk e) refl

  -- One record in front of what the rest of the loop makes.
  encode_loop_cons :
      (fuel planned : ℕ) (c : Client S) (out wire : List ℕ)
      → 1 ≤ length wire
      → 1 ≤ (next_chunk c.drs (length wire)).1
      → (next_chunk c.drs (length wire)).1 ≤ length wire
      → (next_chunk c.drs (length wire)).1 ≤ max_record_payload
      → length out + 5 + (next_chunk c.drs (length wire)).1 ≤ planned
      → let (d, chunk) = next_chunk c.drs (length wire) in
        let (s, bytes) = xor_key_stream c.encryptor (take chunk wire) in
        Encoded fuel planned
          (record c { drs = advance d chunk; encryptor = s })
          (out ++ wrap_application_data bytes)
          (drop chunk wire)
        → Encoded (suc fuel) planned c out wire
  encode_loop_cons fuel planned c out wire p q q' m r h =
      let d : DrsState = (next_chunk c.drs (length wire)).0 in
      let chunk : ℕ = (next_chunk c.drs (length wire)).1 in
      let s : S = (xor_key_stream c.encryptor (take chunk wire)).0 in
      let bytes : List ℕ = (xor_key_stream c.encryptor (take chunk wire)).1 in
      let e : length bytes ≡ chunk =
        length-xor_key_stream c.encryptor (take chunk wire)
        ∙ omega (arith, length-take chunk wire) in
      let round = encode_loop_round fuel planned c out wire p q r e in
      let both =
        ap (xor_key_stream c.encryptor) (sym (take-append-drop chunk wire))
        ∙ xor_key_stream-append c.encryptor (take chunk wire) (drop chunk wire) in
      record {
        payloads = bytes ∷ h.payloads;
        fit = ((omega (arith, e), omega (arith, e)), h.fit);
        whole = ap (λ x. bytes ++ x) h.whole ∙ ap (λ x. x.1) (sym both);
        size =
            length-wrapped bytes h.payloads
            ∙ omega (
              arith,
              e,
              h.size,
              length-drop chunk wire,
              plan_loop_step fuel c.drs (length wire) p q,
              ap (λ n. plan_loop fuel (advance d chunk) n 0) (length-drop chunk wire),
            );
        result =
            ap (λ x. x.1) round
            ∙ h.result
            ∙ ap ok (append_assoc out (wrap_application_data bytes) (wrapped h.payloads));
        cipher = ap (λ x. x.0.encryptor) round ∙ h.cipher ∙ ap (λ x. x.0) (sym both);
      }

  pub encode_loop-Encoded :
      (fuel planned : ℕ) (c : Client S) (out wire : List ℕ)
      → 1 ≤ c.drs.max_size
      → c.drs.max_size ≤ max_record_payload
      → length wire ≤ fuel
      → length out + plan_loop fuel c.drs (length wire) 0 ≤ planned
      → Encoded fuel planned c out wire
  encode_loop-Encoded zero planned c out wire lo hi n r =
      encode_loop_nothing zero planned c out wire (length-zero wire (omega arith))
  encode_loop-Encoded (suc fuel) planned c out wire lo hi n r =
      elim (Bool-cases (length wire == 0)) [
        | inl z ↦
            encode_loop_nothing (suc fuel) planned c out wire (length-zero wire (ground arith))
        | inr z ↦
            let p : 1 ≤ length wire = ground arith in
            let (q, q', m, keep) = next_chunk_bounds c.drs (length wire) p lo hi in
            let d : DrsState = (next_chunk c.drs (length wire)).0 in
            let chunk : ℕ = (next_chunk c.drs (length wire)).1 in
            let s : S = (xor_key_stream c.encryptor (take chunk wire)).0 in
            let bytes : List ℕ = (xor_key_stream c.encryptor (take chunk wire)).1 in
            let e : length bytes ≡ chunk =
              length-xor_key_stream c.encryptor (take chunk wire)
              ∙ omega (arith, length-take chunk wire) in
            let step = plan_loop_step fuel c.drs (length wire) p q in
            let left = ap (λ x. plan_loop fuel (advance d chunk) x 0) (length-drop chunk wire) in
            let size = advance-max_size d chunk in
            encode_loop_cons fuel planned c out wire p q q' m (omega (arith, step)) (
              encode_loop-Encoded fuel planned (record c { drs = advance d chunk; encryptor = s })
                (out ++ wrap_application_data bytes) (drop chunk wire) (omega (arith, size, keep))
                (omega (arith, size, keep)) (omega (arith, length-drop chunk wire))
                (omega (
                  arith,
                  step,
                  left,
                  e,
                  length-append out (wrap_application_data bytes),
                  length-wrap bytes,
                )))
      ]
