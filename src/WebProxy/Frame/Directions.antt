-- ===== src/WebProxy/Frame/Directions.antt =====
-- frame.go: which frames each side may send, as a grammar of the protocol.
use tel_ego_openwrt.Base.{
  ℕ, ◌≤◌, ◌<◌, ◌≡◌, ◌≢◌, refl, true, ◌↔◌, ◌⊎◌, inl, inr, List, [], ◌∷◌, arith, length, ok,
}
use tel_ego_openwrt.Base.Bytes.{be_uint32}
use tel_ego_openwrt.WebProxy.Frame.{
  Frame, Direction, relay_to_client, max_stream_id, max_frame_payload, max_ping_payload,
  validate_type_shape, validate_frame_shape, validate_frame, validate_client_frame, allowed,
  client_to_relay, frame_open, frame_data, frame_close, frame_window, frame_ping, frame_pong,
  frame_hello, frame_welcome, frame_bye,
}

-- A frame on a stream: the stream is not zero and has 24 bits.
abbrev IsStream : ℕ → Type 0
IsStream s = (0 < s) × (s ≤ max_stream_id)

-- The frames that a side may send, and the payload of each.
pub data Permitted (d : Direction) (f : Frame) : Type 0 where
  opens :
      d ≡ client_to_relay
      → f.frame_type ≡ frame_open
      → IsStream f.stream_id
      → f.payload ≡ []
      → Permitted d f
  carries :
      f.frame_type ≡ frame_data
      → IsStream f.stream_id
      → 1 ≤ length f.payload
      → length f.payload ≤ max_frame_payload
      → Permitted d f
  closes : f.frame_type ≡ frame_close → IsStream f.stream_id → f.payload ≡ [] → Permitted d f
  widens :
      f.frame_type ≡ frame_window
      → IsStream f.stream_id
      → length f.payload ≡ 4
      → be_uint32 f.payload ≢ 0
      → Permitted d f
  pings :
      d ≡ relay_to_client
      → f.frame_type ≡ frame_ping
      → f.stream_id ≡ 0
      → length f.payload ≤ max_ping_payload
      → Permitted d f
  pongs :
      d ≡ client_to_relay
      → f.frame_type ≡ frame_pong
      → f.stream_id ≡ 0
      → length f.payload ≤ max_ping_payload
      → Permitted d f
  greets :
      d ≡ client_to_relay
      → f.frame_type ≡ frame_hello
      → f.stream_id ≡ 0
      → f.payload ≡ 1 ∷ []
      → Permitted d f
  welcomes :
      d ≡ relay_to_client
      → f.frame_type ≡ frame_welcome
      → f.stream_id ≡ 0
      → f.payload ≡ []
      → Permitted d f
  leaves :
      d ≡ relay_to_client
      → f.frame_type ≡ frame_bye
      → f.stream_id ≡ 0
      → length f.payload ≤ max_frame_payload
      → Permitted d f

Permitted-validate_frame : (f : Frame) (d : Direction) → Permitted d f → validate_frame f d ≡ ok tt
unfolding validate_frame validate_frame_shape validate_type_shape allowed
Permitted-validate_frame f d (opens e t s p) = ground arith
Permitted-validate_frame f client_to_relay (carries t s p q) = ground arith
Permitted-validate_frame f relay_to_client (carries t s p q) = ground arith
Permitted-validate_frame f client_to_relay (closes t s p) = ground arith
Permitted-validate_frame f relay_to_client (closes t s p) = ground arith
Permitted-validate_frame f client_to_relay (widens t s p n) = ground arith
Permitted-validate_frame f relay_to_client (widens t s p n) = ground arith
Permitted-validate_frame f d (pings e t s p) = ground arith
Permitted-validate_frame f d (pongs e t s p) = ground arith
Permitted-validate_frame f d (greets e t s p) = ground arith
Permitted-validate_frame f d (welcomes e t s p) = ground arith
Permitted-validate_frame f d (leaves e t s p) = ground arith

length-zero : (xs : List ℕ) → length xs ≡ 0 → xs ≡ []
length-zero [] h = refl
length-zero (x ∷ xs) h = absurd (omega arith)

-- The branch of the shape test for each type.
module _ (f : Frame) (h : validate_frame_shape f ≡ ok tt) where
  open_shape : f.frame_type ≡ frame_open → IsStream f.stream_id × (f.payload ≡ [])
  unfolding validate_frame_shape validate_type_shape
  open_shape e = ground (arith, length-zero f.payload)

  data_shape :
      f.frame_type ≡ frame_data
      → IsStream f.stream_id × (1 ≤ length f.payload) × (length f.payload ≤ max_frame_payload)
  unfolding validate_frame_shape validate_type_shape
  data_shape e = ground arith

  close_shape : f.frame_type ≡ frame_close → IsStream f.stream_id × (f.payload ≡ [])
  unfolding validate_frame_shape validate_type_shape
  close_shape e = ground (arith, length-zero f.payload)

  window_shape :
      f.frame_type ≡ frame_window
      → IsStream f.stream_id × (length f.payload ≡ 4) × (be_uint32 f.payload ≢ 0)
  unfolding validate_frame_shape validate_type_shape
  window_shape e = ground arith

  ping_shape :
      (f.frame_type ≡ frame_ping) ⊎ (f.frame_type ≡ frame_pong)
      → (f.stream_id ≡ 0) × (length f.payload ≤ max_ping_payload)
  unfolding validate_frame_shape validate_type_shape
  ping_shape e = ground arith

  hello_shape : f.frame_type ≡ frame_hello → (f.stream_id ≡ 0) × (f.payload ≡ 1 ∷ [])
  unfolding validate_frame_shape validate_type_shape
  hello_shape e = ground arith

  welcome_shape : f.frame_type ≡ frame_welcome → (f.stream_id ≡ 0) × (f.payload ≡ [])
  unfolding validate_frame_shape validate_type_shape
  welcome_shape e = ground (arith, length-zero f.payload)

  bye_shape : f.frame_type ≡ frame_bye → (f.stream_id ≡ 0) × (length f.payload ≤ max_frame_payload)
  unfolding validate_frame_shape validate_type_shape
  bye_shape e = ground arith

client_types :
    (t : ℕ)
    → allowed client_to_relay t ≡ true
    → (t ≡ frame_open)
      ⊎ (t ≡ frame_data)
      ⊎ (t ≡ frame_close)
      ⊎ (t ≡ frame_window)
      ⊎ (t ≡ frame_pong)
      ⊎ (t ≡ frame_hello)
unfolding allowed
client_types t h = ground arith

relay_types :
    (t : ℕ)
    → allowed relay_to_client t ≡ true
    → (t ≡ frame_data)
      ⊎ (t ≡ frame_close)
      ⊎ (t ≡ frame_window)
      ⊎ (t ≡ frame_ping)
      ⊎ (t ≡ frame_welcome)
      ⊎ (t ≡ frame_bye)
unfolding allowed
relay_types t h = ground arith

validate_frame_parts :
    (f : Frame) (d : Direction)
    → validate_frame f d ≡ ok tt
    → (validate_frame_shape f ≡ ok tt) × (allowed d f.frame_type ≡ true)
unfolding validate_frame
validate_frame_parts f d h = ground arith

validate_frame-Permitted : (f : Frame) (d : Direction) → validate_frame f d ≡ ok tt → Permitted d f
validate_frame-Permitted f client_to_relay h =
    let (s, a) = validate_frame_parts f client_to_relay h in
    elim (client_types f.frame_type a) [
      | inl e ↦ let (p, q) = open_shape f s e in opens refl e p q
      | inr (inl e) ↦ let (p, q, r) = data_shape f s e in carries e p q r
      | inr (inr (inl e)) ↦ let (p, q) = close_shape f s e in closes e p q
      | inr (inr (inr (inl e))) ↦ let (p, q, r) = window_shape f s e in widens e p q r
      | inr (inr (inr (inr (inl e)))) ↦ let (p, q) = ping_shape f s (inr e) in pongs refl e p q
      | inr (inr (inr (inr (inr e)))) ↦ let (p, q) = hello_shape f s e in greets refl e p q
    ]
validate_frame-Permitted f relay_to_client h =
    let (s, a) = validate_frame_parts f relay_to_client h in
    elim (relay_types f.frame_type a) [
      | inl e ↦ let (p, q, r) = data_shape f s e in carries e p q r
      | inr (inl e) ↦ let (p, q) = close_shape f s e in closes e p q
      | inr (inr (inl e)) ↦ let (p, q, r) = window_shape f s e in widens e p q r
      | inr (inr (inr (inl e))) ↦ let (p, q) = ping_shape f s (inl e) in pings refl e p q
      | inr (inr (inr (inr (inl e)))) ↦ let (p, q) = welcome_shape f s e in welcomes refl e p q
      | inr (inr (inr (inr (inr e)))) ↦ let (p, q) = bye_shape f s e in leaves refl e p q
    ]

-- ValidateFrame accepts a frame from a side exactly when the protocol lets that side send it.
pub validate_frame_iff : (f : Frame) (d : Direction) → (validate_frame f d ≡ ok tt) ↔ Permitted d f
validate_frame_iff f d = (validate_frame-Permitted f d, Permitted-validate_frame f d)

-- ValidateClientFrame accepts what the client may send, but for HELLO.
pub validate_client_frame_iff :
    (f : Frame)
    → (validate_client_frame f ≡ ok tt)
      ↔ (Permitted client_to_relay f × (f.frame_type ≢ frame_hello))
unfolding validate_client_frame
validate_client_frame_iff f =
    let v = validate_frame_iff f client_to_relay in
    (λ h. (v.0 (ground arith), ground arith), λ (p, n). ground (arith, v.1 p))
