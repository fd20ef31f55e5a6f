-- ===== src/WebProxy/Frame/Hello.antt =====
-- frame.go: ParseHello and the WINDOW payloads.
use tel_ego_openwrt.Base.{ℕ, ◌^◌, ◌<◌, ◌≡◌, refl, ◌↔◌, List, [], ◌∷◌, arith, All, ok, >>=-eq-ok}
use tel_ego_openwrt.Base.Bytes.{IsByte, be_uint32, put_be32, be_uint32-put_be32, join32}
use tel_ego_openwrt.WebProxy.Frame.{
  Frame, validate_type_shape, validate_frame_shape, frame_header, append_frame, parse_frame,
  parse_loop, parse_batch, parse_hello, check_hello, validate_frame, allowed, frame_hello,
  window_delta, window_payload,
}
use tel_ego_openwrt.WebProxy.Frame.RoundTrip.{append_frames, append_frames-parse_batch}

abbrev pub hello_bytes : List ℕ
hello_bytes = 0x10 ∷ 0 ∷ 0 ∷ 0 ∷ 0 ∷ 0 ∷ 0 ∷ 1 ∷ 1 ∷ []

abbrev hello : Frame
hello = record { frame_type = frame_hello; stream_id = 0; payload = 1 ∷ [] }

hello_shape : (f : Frame) → f.frame_type ≡ frame_hello → validate_frame_shape f ≡ ok tt → f ≡ hello
unfolding validate_frame_shape validate_type_shape
hello_shape f e h = ground arith

check_hello-eq-ok : (fs : List Frame) → check_hello fs ≡ ok tt → fs ≡ hello ∷ []
unfolding check_hello validate_frame
check_hello-eq-ok (f ∷ []) h = ground (arith, hello_shape f)
check_hello-eq-ok [] h = cc
check_hello-eq-ok (f ∷ g ∷ fs) h = cc

parse_hello_self : parse_hello hello_bytes ≡ ok tt
unfolding parse_hello parse_batch parse_loop parse_frame validate_frame validate_frame_shape
    validate_type_shape check_hello allowed
parse_hello_self = refl

append_hello : append_frames [] (hello ∷ []) ≡ ok hello_bytes
unfolding append_frames append_frame validate_frame_shape validate_type_shape frame_header
append_hello = refl

-- On bytes, ParseHello accepts one input only: the nine bytes of a version 1 HELLO on stream zero.
pub parse_hello_iff :
    (input : List ℕ) → All IsByte input → (parse_hello input ≡ ok tt) ↔ (input ≡ hello_bytes)
unfolding parse_hello
parse_hello_iff input w = (
  λ h.
      let (fs, m, k) = >>=-eq-ok (parse_batch input) check_hello h in
      let e = (append_frames-parse_batch input fs w m).0 in
      cc (check_hello-eq-ok fs k, append_hello),
  λ e. rw e parse_hello_self,
)

put_be32-be_uint32 :
    (a b c d : ℕ)
    → All IsByte (a ∷ b ∷ c ∷ d ∷ [])
    → put_be32 (be_uint32 (a ∷ b ∷ c ∷ d ∷ [])) ≡ a ∷ b ∷ c ∷ d ∷ []
unfolding put_be32 be_uint32 join32
put_be32-be_uint32 a b c d w = ground arith

-- WindowDelta reads a uint32 delta from a payload of bytes exactly when WindowPayload writes that
-- payload for the delta.
pub window_delta_iff :
    (payload : List ℕ) (delta : ℕ)
    → All IsByte payload
    → delta < 2 ^ 32
    → (window_delta payload ≡ ok delta) ↔ (window_payload delta ≡ ok payload)
unfolding window_delta window_payload
window_delta_iff (a ∷ b ∷ c ∷ d ∷ []) delta w h = (
  λ e. ground (arith, put_be32-be_uint32 a b c d w),
  λ e. ground (arith, be_uint32-put_be32 delta [] h),
)
window_delta_iff payload delta w h = (λ e. ground arith, λ e. unfold put_be32 in ground arith)
