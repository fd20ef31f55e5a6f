-- ===== src/MiddleEnd/Encoder.antt =====
-- transport/middleend/frame.go: FrameEncoder, the outbound sequence of one stream.
-- A method returns the encoder that it leaves behind and its result.
pub mod Steps
pub mod Invariant
pub mod Runs
pub mod Streams
use tel_ego_openwrt.Base.{
  ℕ, ◌+◌, ◌-◌, ◌^◌, List, [], Bool, true, false, ◌&&◌, ◌||◌, not, Option, none, some, ltb,
  if◌then◌else◌, Result, ok, err, ◌>>=◌,
}
use tel_ego_openwrt.Base.Int.{ℤ, pos, negsuc, eqb_ℤ, ltb_ℤ, suc_ℤ}
use tel_ego_openwrt.MiddleEnd.Constants.{Error, sequence_exhausted, checksum_transition}
use tel_ego_openwrt.MiddleEnd.Handshake.{
  ChecksumMode, checksum_crc32, HandshakePacket, parse_handshake_packet,
}
use tel_ego_openwrt.MiddleEnd.Frame.{
  validate_sequence, validate_max_frame_size, encode_frame_within, negotiated_checksum,
}

-- math.MaxInt32
abbrev pub max_int32 : ℤ
max_int32 = pos (2 ^ 31 - 1)

-- The zero value of a HandshakePacket.
abbrev pub no_handshake : HandshakePacket
no_handshake = record {
  flags = 0;
  sender = record { ip = 0; port = 0; pid = 0; uptime = pos 0 };
  peer = record { ip = 0; port = 0; pid = 0; uptime = pos 0 };
}

pub record FrameEncoder : Type 0 where
  pub next_sequence : ℤ
  pub max_frame_size : ℕ
  pub mode : ChecksumMode
  pub local_handshake : HandshakePacket
  pub checksum_transition_open : Bool
  pub checksum_transition_done : Bool
  pub exhausted : Bool
  pub error : Option Error

unfoldable pub new_frame_encoder : ℤ → ℕ → Result Error FrameEncoder
new_frame_encoder next_sequence max_frame_size = do
  _ ← validate_sequence next_sequence
  _ ← validate_max_frame_size max_frame_size
  ok (record {
    next_sequence = next_sequence;
    max_frame_size = max_frame_size;
    mode = checksum_crc32;
    local_handshake = no_handshake;
    checksum_transition_open = false;
    checksum_transition_done = false;
    exhausted = false;
    error = none;
  })

-- The first frame from sequence 0 on closes an open transition.
unfoldable pub close_transition : FrameEncoder → FrameEncoder
close_transition e =
    if e.checksum_transition_open && not (ltb_ℤ e.next_sequence (pos 0))
    then record e { checksum_transition_open = false; checksum_transition_done = true }
    else e

-- The sequence advances, or the encoder is exhausted.
unfoldable pub advance : FrameEncoder → FrameEncoder
advance e =
    if eqb_ℤ e.next_sequence max_int32
    then record e { exhausted = true }
    else record e { next_sequence = suc_ℤ e.next_sequence }

-- A handshake sent with sequence -1 opens the transition.
unfoldable pub note_handshake : ℤ → List ℕ → FrameEncoder → FrameEncoder
note_handshake sequence payload e =
    if eqb_ℤ sequence (negsuc 0)
    then elim (parse_handshake_packet payload) [
      | ok handshake ↦ record e { local_handshake = handshake; checksum_transition_open = true }
      | err _ ↦ e
    ]
    else e

-- What Encode does to its state once the frame is written.
unfoldable pub after_encode : FrameEncoder → List ℕ → FrameEncoder
after_encode e payload = note_handshake e.next_sequence payload (advance (close_transition e))

-- FrameEncoder.Encode
unfoldable pub encode : FrameEncoder → List ℕ → FrameEncoder × Result Error (List ℕ)
encode e payload = elim e.error [
  | some x ↦ (e, err x)
  | none ↦
      if e.exhausted
      then (e, err sequence_exhausted)
      else elim (encode_frame_within e.next_sequence payload e.mode e.max_frame_size) [
        | err x ↦ (e, err x)
        | ok wire ↦ (after_encode e payload, ok wire)
      ]
]

-- FrameEncoder.ApplyPeerHandshake
unfoldable pub apply_peer_handshake :
    FrameEncoder → HandshakePacket → FrameEncoder × Result Error (Unit {0})
apply_peer_handshake e peer =
    if not e.checksum_transition_open
      || e.checksum_transition_done
      || not (eqb_ℤ e.next_sequence (pos 0))
    then (e, err checksum_transition)
    else elim (negotiated_checksum e.local_handshake peer) [
      | err x ↦ (
        record e {
          checksum_transition_open = false;
          checksum_transition_done = true;
          error = some x;
        },
        err x,
      )
      | ok mode ↦ (
        record e { mode = mode; checksum_transition_open = false; checksum_transition_done = true },
        ok tt,
      )
    ]
