-- ===== src/Gproxy/Writer/Total.antt =====
-- middleend_frontend.go: writeWire never fails, and what it writes carries the encrypted packet.
use tel_ego_openwrt.Base.{ℕ, ◌^◌, ◌≤◌, ◌<◌, ◌≡◌, ap, ◌∙◌, List, [], ◌++◌, arith, false, length, ok}
use tel_ego_openwrt.FakeTls.Record.{max_record_payload}
use tel_ego_openwrt.FakeTls.Record.Chunks.{wrapped, read_loop-wrapped}
use tel_ego_openwrt.FakeTls.Record.RoundTrip.{Delivers}
use tel_ego_openwrt.FakeTls.Sizer.{plan_size}
use tel_ego_openwrt.Gproxy.Writer.{
  Client, max_client_wire, max_encoded_response, encode_loop, write_wire,
}
use tel_ego_openwrt.Gproxy.Writer.Delivery.{encode_loop-Encoded}
use tel_ego_openwrt.Gproxy.Writer.Limit.{plan_size_limit}

-- A plan within the bound that the loop keeps to.
write_wire_planned :
    {S : Type 0} (xor_key_stream : S → List ℕ → S × List ℕ) (c : Client S) (wire out : List ℕ)
    → c.mode_dd ≡ false
    → plan_size c.drs (length wire) ≤ max_encoded_response
    → length out ≡ plan_size c.drs (length wire)
    → let r = encode_loop xor_key_stream (length wire) (plan_size c.drs (length wire)) c [] wire in
      r.1 ≡ ok out
      → ((write_wire xor_key_stream c wire).1 ≡ ok out)
        × ((write_wire xor_key_stream c wire).0 ≡ r.0)
unfolding write_wire
write_wire_planned xor_key_stream c wire out dd n size k = ground arith

-- crypto/cipher's Stream, as in Delivery.
module _ {S : Type 0} (xor_key_stream : S → List ℕ → S × List ℕ)
    (length-xor_key_stream : (s : S) (xs : List ℕ) → length (xor_key_stream s xs).1 ≡ length xs)
    (xor_key_stream-nil : (s : S) → xor_key_stream s [] ≡ (s, []))
    (xor_key_stream-append : (s : S) (xs ys : List ℕ)
      → xor_key_stream s (xs ++ ys) ≡ (
          let (t, a) = xor_key_stream s xs in
          let (u, b) = xor_key_stream t ys in (u, a ++ b))) where
  -- Outside of mode DD, whatever record sizing state the client is in, writeWire accepts every packet
  -- of up to middleEndMaxClientWire bytes: it writes exactly as many bytes as PlanSize said, a peer
  -- that calls ReadRecord until the stream ends reads from them, without an error, records of 1 to
  -- 16640 bytes whose payloads are the packet as one encrypted stream, and the cipher is left behind
  -- that stream. The steady-state size is MaxRecordPayload and the record counter fits 32 bits. The
  -- cipher keeps lengths and may be fed piece by piece.
  pub write_wire-Delivers :
      (c : Client S) (wire : List ℕ)
      → c.mode_dd ≡ false
      → c.drs.max_size ≡ max_record_payload
      → c.drs.records < 2 ^ 32
      → length wire ≤ max_client_wire
      → let (c', r) = write_wire xor_key_stream c wire in
        (out : List ℕ) × (r ≡ ok out)
        × (length out ≡ plan_size c.drs (length wire))
        × Delivers out (xor_key_stream c.encryptor wire).1
        × (c'.encryptor ≡ (xor_key_stream c.encryptor wire).0)
  unfolding plan_size
  write_wire-Delivers c wire dd m r n =
      let bound = plan_size_limit c.drs (length wire) m r n in
      let h =
        encode_loop-Encoded xor_key_stream length-xor_key_stream xor_key_stream-nil
          xor_key_stream-append (length wire) (plan_size c.drs (length wire)) c [] wire
          (omega (arith, m)) (omega (arith, m)) (omega arith) (unfold plan_size in omega arith) in
      let (done, left) =
        write_wire_planned xor_key_stream c wire (wrapped h.payloads) dd bound h.size h.result in
      (
        wrapped h.payloads,
        done,
        h.size,
        record {
          payloads = h.payloads;
          fit = h.fit;
          whole = h.whole;
          read_back =
              read_loop-wrapped h.payloads (length (wrapped h.payloads)) h.fit (omega arith);
        },
        ap (λ x. x.encryptor) left ∙ h.cipher,
      )
