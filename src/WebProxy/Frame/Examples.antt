-- ===== src/WebProxy/Frame/Examples.antt =====
-- Tests of frame.go's model on concrete batches, and the theorems at concrete inputs.
use tel_ego_openwrt.Base.{ℕ, ◌≤◌, ◌≡◌, ◌≢◌, refl, ◌↔◌, List, [], ◌∷◌, arith, length, All, ok, err}
use tel_ego_openwrt.WebProxy.Frame.{
  Frame, IsFrame, frame_open, frame_data, frame_hello, max_batch_frames, client_to_relay,
  relay_to_client, empty_frame_batch, incomplete_frame, payload_too_large, invalid_frame,
  parse_frame, parse_loop, parse_batch, append_frame, frame_header, validate_frame_shape,
  validate_type_shape, validate_frame, validate_client_frame, parse_hello, window_delta,
  window_payload,
}
use tel_ego_openwrt.WebProxy.Frame.RoundTrip.{
  append_frames, parse_batch-append_frames, append_frames-parse_batch,
}
use tel_ego_openwrt.WebProxy.Frame.Hello.{hello_bytes, parse_hello_iff, window_delta_iff}
use tel_ego_openwrt.WebProxy.Frame.Directions.{
  Permitted, validate_frame_iff, validate_client_frame_iff,
}

abbrev opening : Frame
opening = record { frame_type = frame_open; stream_id = 0x010203; payload = [] }

abbrev carrying : Frame
carrying = record { frame_type = frame_data; stream_id = 0x010203; payload = 7 ∷ 9 ∷ [] }

abbrev batch : List ℕ
batch = 1 ∷ 1 ∷ 2 ∷ 3 ∷ 0 ∷ 0 ∷ 0 ∷ 0 ∷ 2 ∷ 1 ∷ 2 ∷ 3 ∷ 0 ∷ 0 ∷ 0 ∷ 2 ∷ 7 ∷ 9 ∷ []

appended : append_frames [] (opening ∷ carrying ∷ []) ≡ ok batch
unfolding append_frames append_frame validate_frame_shape validate_type_shape frame_header
appended = refl

parsed : parse_batch batch ≡ ok (opening ∷ carrying ∷ [])
unfolding parse_batch parse_loop parse_frame validate_frame_shape validate_type_shape
parsed = refl

parsed_nothing : parse_batch [] ≡ err empty_frame_batch
unfolding parse_batch
parsed_nothing = refl

-- A header that announces a byte more than follows.
parsed_short : parse_batch (2 ∷ 0 ∷ 0 ∷ 1 ∷ 0 ∷ 0 ∷ 0 ∷ 2 ∷ 7 ∷ []) ≡ err incomplete_frame
unfolding parse_batch parse_loop parse_frame
parsed_short = refl

parsed_large : parse_batch (2 ∷ 0 ∷ 0 ∷ 1 ∷ 0 ∷ 16 ∷ 0 ∷ 1 ∷ []) ≡ err payload_too_large
unfolding parse_batch parse_loop parse_frame
parsed_large = refl

-- OPEN on stream zero.
parsed_invalid : parse_batch (1 ∷ 0 ∷ 0 ∷ 0 ∷ 0 ∷ 0 ∷ 0 ∷ 0 ∷ []) ≡ err invalid_frame
unfolding parse_batch parse_loop parse_frame validate_frame_shape validate_type_shape
parsed_invalid = refl

opening-IsFrame : IsFrame opening
opening-IsFrame = omega arith

carrying-IsFrame : IsFrame carrying
carrying-IsFrame = omega arith

parse_batch-append_frames_example : parse_batch batch ≡ ok (opening ∷ carrying ∷ [])
parse_batch-append_frames_example =
    parse_batch-append_frames opening (carrying ∷ []) batch
      (opening-IsFrame, (carrying-IsFrame, tt)) (omega arith) appended

append_frames-parse_batch_example :
    (append_frames [] (opening ∷ carrying ∷ []) ≡ ok batch)
    × All IsFrame (opening ∷ carrying ∷ [])
    × (1 ≤ length (opening ∷ carrying ∷ []))
    × (length (opening ∷ carrying ∷ []) ≤ max_batch_frames)
append_frames-parse_batch_example =
    append_frames-parse_batch batch (opening ∷ carrying ∷ []) (omega arith) parsed

parse_hello_iff_example : (parse_hello hello_bytes ≡ ok tt) ↔ (hello_bytes ≡ hello_bytes)
parse_hello_iff_example = parse_hello_iff hello_bytes (omega arith)

window_delta_iff_example :
    (window_delta (0 ∷ 1 ∷ 0 ∷ 5 ∷ []) ≡ ok 65541)
    ↔ (window_payload 65541 ≡ ok (0 ∷ 1 ∷ 0 ∷ 5 ∷ []))
window_delta_iff_example = window_delta_iff (0 ∷ 1 ∷ 0 ∷ 5 ∷ []) 65541 (omega arith) (omega arith)

validate_frame_iff_example :
    (validate_frame carrying relay_to_client ≡ ok tt) ↔ Permitted relay_to_client carrying
validate_frame_iff_example = validate_frame_iff carrying relay_to_client

validate_client_frame_iff_example :
    (validate_client_frame opening ≡ ok tt)
    ↔ (Permitted client_to_relay opening × (frame_open ≢ frame_hello))
validate_client_frame_iff_example = validate_client_frame_iff opening
