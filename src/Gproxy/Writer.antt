-- ===== src/Gproxy/Writer.antt =====
-- gproxy/middleend_frontend.go: middleEndClient.writeWire, which encrypts what goes to the client and
-- wraps it in TLS records. The cipher is crypto/cipher's: a parameter that takes its state and a
-- piece of the stream, and returns its state and the encrypted piece. What the code hands to
-- `connection.Write` is the result.
pub mod Delivery
pub mod Limit
pub mod Total
use tel_ego_openwrt.Base.{
  ℕ, zero, suc, ◌+◌, ◌-◌, ◌*◌, ◌/◌, ◌%◌, ◌^◌, List, [], ◌∷◌, ◌++◌, Bool, true, false, not, ltb,
  ◌==◌, if◌then◌else◌, length, take, drop, Result, ok, err, ◌>>=◌, fail_if,
}
use tel_ego_openwrt.Base.Bytes.{put_be16}
use tel_ego_openwrt.MiddleEnd.Constants.{max_client_packet_size}
use tel_ego_openwrt.FakeTls.Record.{
  max_record_payload, record_type_application_data, record_header_size,
}
use tel_ego_openwrt.FakeTls.Sizer.{drs_ramp_records, DrsState, next_chunk, advance, plan_size}

-- `out_of_range` is the panic of a write behind the end of the buffer.
pub data WriteError : Type 0 where
  response_too_large empty_chunk size_drift out_of_range : WriteError

-- The fields of a middleEndClient that writeWire uses; `mode_dd` is `c.mode == ModeDD`.
pub record Client (S : Type 0) : Type 0 where
  pub mode_dd : Bool
  pub drs : DrsState
  pub encryptor : S

-- middleEndMaxClientWire: a packet with a header of four bytes and three bytes of padding.
abbrev pub max_client_wire : ℕ
max_client_wire = max_client_packet_size + 7

-- middleEndMaxTLSRecords: one split record, the probe records, and the full-size records.
abbrev pub max_tls_records : ℕ
max_tls_records =
    1 + drs_ramp_records + (max_client_wire + max_record_payload - 1) / max_record_payload

-- middleEndMaxEncodedResponse
abbrev pub max_encoded_response : ℕ
max_encoded_response = max_client_wire + max_tls_records * record_header_size

module _ {S : Type 0} (xor_key_stream : S → List ℕ → S × List ℕ) where
  -- The loop over the source, on the part of the buffer that is written. A round takes at least one
  -- byte, so that the length of the source bounds the rounds.
  unfoldable pub encode_loop :
      ℕ → ℕ → Client S → List ℕ → List ℕ → Client S × Result WriteError (List ℕ)
  encode_loop zero planned c out wire = (c, ok out)
  encode_loop (suc fuel) planned c out wire =
      let (d, chunk) = next_chunk c.drs (length wire) in
      let (s, bytes) = xor_key_stream c.encryptor (take chunk wire) in
      let header = record_type_application_data ∷ 0x03 ∷ 0x03 ∷ put_be16 (chunk % 2 ^ 16) in
      let rest =
        encode_loop fuel planned (record c { drs = advance d chunk; encryptor = s })
          (out ++ (header ++ bytes)) (drop chunk wire) in
      if length wire == 0
      then (c, ok out)
      else if chunk == 0
      then (record c { drs = d }, err empty_chunk)
      else if ltb planned (length out + record_header_size + chunk)
      then (record c { drs = d }, err out_of_range)
      else rest

  -- middleEndClient.writeWire
  unfoldable pub write_wire : Client S → List ℕ → Client S × Result WriteError (List ℕ)
  write_wire c wire =
      let encoded_size = plan_size c.drs (length wire) in
      if c.mode_dd
      then (let (s, out) = xor_key_stream c.encryptor wire in (record c { encryptor = s }, ok out))
      else if ltb max_encoded_response encoded_size
      then (c, err response_too_large)
      else let (c', r) = encode_loop (length wire) encoded_size c [] wire in
        (c', do out ← r; _ ← fail_if (not (length out == encoded_size)) size_drift; ok out)
