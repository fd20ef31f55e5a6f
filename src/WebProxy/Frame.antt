-- ===== src/WebProxy/Frame.antt =====
-- webproxy/frame.go: the WEB shared frames, their shape, and the batches that carry them.
pub mod Bounds
pub mod RoundTrip
pub mod Hello
pub mod Directions
mod Examples
use tel_ego_openwrt.Base.{
  ℕ, zero, suc, ◌+◌, ◌*◌, ◌/◌, ◌%◌, ◌^◌, ◌<◌, List, [], ◌∷◌, ◌++◌, Bool, ◌||◌, not, ltb, ◌==◌,
  if◌then◌else◌, length, take, drop, All, Result, ok, err, ◌>>=◌, fail_if,
}
use tel_ego_openwrt.Base.Bytes.{IsByte, put_be32, be_uint32, join32}

abbrev pub frame_header_size : ℕ
frame_header_size = 8

abbrev pub max_frame_payload : ℕ
max_frame_payload = 1024 * 1024

abbrev pub max_batch_frames : ℕ
max_batch_frames = 4096

abbrev pub max_stream_id : ℕ
max_stream_id = 0xFFFFFF

abbrev pub max_ping_payload : ℕ
max_ping_payload = 64

pub data FrameError : Type 0 where
  empty_frame_batch incomplete_frame too_many_frames payload_too_large invalid_frame : FrameError

-- FrameType is a uint8; the constants name nine of its values.
abbrev pub FrameType : Type 0
FrameType = ℕ

abbrev pub frame_open : FrameType
frame_open = 0x01

abbrev pub frame_data : FrameType
frame_data = 0x02

abbrev pub frame_close : FrameType
frame_close = 0x03

abbrev pub frame_window : FrameType
frame_window = 0x04

abbrev pub frame_ping : FrameType
frame_ping = 0x05

abbrev pub frame_pong : FrameType
frame_pong = 0x06

abbrev pub frame_hello : FrameType
frame_hello = 0x10

abbrev pub frame_welcome : FrameType
frame_welcome = 0x11

abbrev pub frame_bye : FrameType
frame_bye = 0x1f

pub data Direction : Type 0 where
  client_to_relay relay_to_client : Direction

pub record Frame : Type 0 where
  pub frame_type : FrameType
  pub stream_id : ℕ
  pub payload : List ℕ

-- The field ranges of the Go struct: a uint8, a uint32 and bytes.
pub record IsFrame (f : Frame) : Type 0 where
  pub type_range : f.frame_type < 2 ^ 8
  pub stream_range : f.stream_id < 2 ^ 32
  pub payload_bytes : All IsByte f.payload

-- `WindowDelta`: exactly four bytes that are not all zero.
unfoldable pub window_delta : List ℕ → Result FrameError ℕ
unfolding be_uint32
window_delta payload = do
  _ ← fail_if (not (length payload == 4)) invalid_frame
  _ ← fail_if (be_uint32 payload == 0) invalid_frame
  ok (be_uint32 payload)

unfoldable pub window_payload : ℕ → Result FrameError (List ℕ)
unfolding put_be32
window_payload delta = do _ ← fail_if (delta == 0) invalid_frame; ok (put_be32 delta)

-- The first byte of a payload, 0 where there is none: the code reads it behind a length test only.
abbrev first_byte : List ℕ → ℕ
first_byte [] = 0
first_byte (b ∷ bs) = b

-- The cases of the `switch` on the frame's type.
unfoldable pub validate_type_shape : Frame → Result FrameError (Unit {0})
unfolding window_delta
validate_type_shape f =
    let stream = f.stream_id in
    let size = length f.payload in
    let t = f.frame_type in
    if t == frame_open || t == frame_close
    then fail_if (stream == 0 || not (size == 0)) invalid_frame
    else if t == frame_data
    then fail_if (stream == 0 || size == 0) invalid_frame
    else if t == frame_window
    then (do _ ← fail_if (stream == 0) invalid_frame; _ ← window_delta f.payload; ok tt)
    else if t == frame_ping || t == frame_pong
    then fail_if (not (stream == 0) || ltb max_ping_payload size) invalid_frame
    else if t == frame_hello
    then fail_if (not (stream == 0) || not (size == 1) || not (first_byte f.payload == 1))
        invalid_frame
    else if t == frame_welcome
    then fail_if (not (stream == 0) || not (size == 0)) invalid_frame
    else if t == frame_bye
    then fail_if (not (stream == 0)) invalid_frame
    else err invalid_frame

unfoldable pub validate_frame_shape : Frame → Result FrameError (Unit {0})
validate_frame_shape f = do
  _ ← fail_if (ltb max_stream_id f.stream_id) invalid_frame
  _ ← fail_if (ltb max_frame_payload (length f.payload)) payload_too_large
  validate_type_shape f

-- The eight bytes that AppendFrame writes before the payload: `byte(x)` keeps the low eight bits.
unfoldable pub frame_header : Frame → List ℕ
unfolding put_be32
frame_header f =
    (f.frame_type % 256)
    ∷ (f.stream_id / 2 ^ 16 % 256)
    ∷ (f.stream_id / 2 ^ 8 % 256)
    ∷ (f.stream_id % 256)
    ∷ put_be32 (length f.payload % 2 ^ 32)

unfoldable pub append_frame : List ℕ → Frame → Result FrameError (List ℕ)
append_frame dst f = do _ ← validate_frame_shape f; ok (dst ++ (frame_header f ++ f.payload))

unfoldable pub encode_frame : Frame → Result FrameError (List ℕ)
encode_frame f = append_frame [] f

-- One round of ParseBatch's loop: the frame at the front of the input, and `input[frameSize:]`.
-- `rest` is the input behind the eight header bytes.
unfoldable pub parse_frame : List ℕ → Result FrameError (Frame × List ℕ)
unfolding join32
parse_frame (t ∷ s2 ∷ s1 ∷ s0 ∷ n3 ∷ n2 ∷ n1 ∷ n0 ∷ rest) = do
  let payload_size = join32 n3 n2 n1 n0
  _ ← fail_if (ltb max_frame_payload payload_size) payload_too_large
  _ ←
      fail_if (ltb (frame_header_size + length rest) (frame_header_size + payload_size))
        incomplete_frame
  let f : Frame = record {
    frame_type = t;
    stream_id = join32 0 s2 s1 s0;
    payload = take payload_size rest;
  }
  _ ← validate_frame_shape f
  ok (f, drop payload_size rest)
parse_frame _ = err incomplete_frame

-- The loop. `room` is `MaxBatchFrames - len(frames)`, so that the loop ends by its own frame limit.
unfoldable pub parse_loop : ℕ → List ℕ → Result FrameError (List Frame)
parse_loop room [] = ok []
parse_loop zero (b ∷ bs) = err too_many_frames
parse_loop (suc room) (b ∷ bs) = do
  (f, rest) ← parse_frame (b ∷ bs)
  fs ← parse_loop room rest
  ok (f ∷ fs)

unfoldable pub parse_batch : List ℕ → Result FrameError (List Frame)
parse_batch [] = err empty_frame_batch
parse_batch (b ∷ bs) = parse_loop max_batch_frames (b ∷ bs)

-- The frame types that each side may send.
unfoldable pub allowed : Direction → FrameType → Bool
allowed client_to_relay t =
    t == frame_open
    || t == frame_data
    || t == frame_close
    || t == frame_window
    || t == frame_pong
    || t == frame_hello
allowed relay_to_client t =
    t == frame_data
    || t == frame_close
    || t == frame_window
    || t == frame_ping
    || t == frame_welcome
    || t == frame_bye

unfoldable pub validate_frame : Frame → Direction → Result FrameError (Unit {0})
validate_frame f direction = do
  _ ← validate_frame_shape f
  fail_if (not (allowed direction f.frame_type)) invalid_frame

unfoldable pub validate_client_frame : Frame → Result FrameError (Unit {0})
validate_client_frame f =
    if f.frame_type == frame_hello then err invalid_frame else validate_frame f client_to_relay

-- `len(frames) != 1 || frames[0].Type != FrameHello`, then the frame's own validation.
unfoldable pub check_hello : List Frame → Result FrameError (Unit {0})
check_hello (f ∷ []) =
    if not (f.frame_type == frame_hello)
    then err invalid_frame
    else validate_frame f client_to_relay
check_hello _ = err invalid_frame

unfoldable pub parse_hello : List ℕ → Result FrameError (Unit {0})
parse_hello input = do frames ← parse_batch input; check_hello frames
