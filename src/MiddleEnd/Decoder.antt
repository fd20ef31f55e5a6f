-- ===== src/MiddleEnd/Decoder.antt =====
-- transport/middleend/frame.go: FrameDecoder, the inbound sequence of one stream.
-- `buffer` and `head` are the slice and the offset of the first byte that is not consumed.
pub mod Views
pub mod Padding
pub mod Lockstep
use tel_ego_openwrt.Base.{
  ℕ, zero, suc, ◌+◌, ◌-◌, ◌%◌, List, [], ◌++◌, Bool, true, false, ◌&&◌, ◌||◌, not, Option, none,
  some, ltb, ◌==◌, min, if◌then◌else◌, length, take, drop, Result, ok, err, ◌>>=◌,
}
use tel_ego_openwrt.Base.Bytes.{le_uint32}
use tel_ego_openwrt.Base.Int.{ℤ, pos, negsuc, eqb_ℤ, suc_ℤ}
use tel_ego_openwrt.MiddleEnd.Constants.{
  Error, invalid_frame_size, frame_too_large, sequence_exhausted, incomplete_frame,
  checksum_transition, noop_frame_size, minimum_full_frame_size,
}
use tel_ego_openwrt.MiddleEnd.Handshake.{
  ChecksumMode, checksum_crc32, HandshakePacket, parse_handshake_packet, eqb_handshake,
}
use tel_ego_openwrt.MiddleEnd.Frame.{
  Frame, validate_sequence, validate_max_frame_size, decode_frame, negotiated_checksum,
}
use tel_ego_openwrt.MiddleEnd.Encoder.{max_int32, no_handshake}

pub record FrameDecoder : Type 0 where
  pub buffer : List ℕ
  pub head : ℕ
  pub next_sequence : ℤ
  pub mode : ChecksumMode
  pub max_frame_size : ℕ
  pub peer_handshake : HandshakePacket
  pub checksum_transition_open : Bool
  pub checksum_transition_done : Bool
  pub exhausted : Bool
  pub error : Option Error

unfoldable pub new_frame_decoder : ℤ → ℕ → Result Error FrameDecoder
new_frame_decoder next_sequence max_frame_size = do
  _ ← validate_sequence next_sequence
  _ ← validate_max_frame_size max_frame_size
  ok (record {
    buffer = [];
    head = 0;
    next_sequence = next_sequence;
    mode = checksum_crc32;
    max_frame_size = max_frame_size;
    peer_handshake = no_handshake;
    checksum_transition_open = false;
    checksum_transition_done = false;
    exhausted = false;
    error = none;
  })

unfoldable pub buffered : FrameDecoder → List ℕ
buffered d = drop d.head d.buffer

unfoldable pub buffered_len : FrameDecoder → ℕ
buffered_len d = length d.buffer - d.head

unfoldable pub discard_buffered : FrameDecoder → ℕ → FrameDecoder
discard_buffered d size =
    if d.head + size == length d.buffer
    then record d { buffer = []; head = 0 }
    else record d { head = d.head + size }

-- The live bytes are moved to the front before new ones are appended.
unfoldable pub compact : FrameDecoder → ℕ → FrameDecoder
unfolding buffered
compact d consumed =
    if not (d.head == 0) && not (consumed == 0)
    then record d { buffer = buffered d; head = 0 }
    else d

-- FrameDecoder.Feed returns the number of bytes that it took.
unfoldable pub feed : FrameDecoder → List ℕ → FrameDecoder × Result Error ℕ
feed d bytes = elim d.error [
  | some x ↦ (d, err x)
  | none ↦
      let consumed = min (length bytes) (d.max_frame_size - buffered_len d) in
      let c = compact d consumed in
      (record c { buffer = c.buffer ++ take consumed bytes }, ok consumed)
]

-- A failed decoder stays failed.
unfoldable pub fail {ℓ} : {A : Type ℓ} → FrameDecoder → Error → FrameDecoder × Result Error A
fail d x = (record d { error = some x }, err x)

-- The no-op frames at the front of the buffer are dropped. Each takes four bytes, so that the number
-- of buffered bytes bounds the rounds.
unfoldable pub skip_noops : ℕ → FrameDecoder → FrameDecoder
skip_noops zero d = d
skip_noops (suc rounds) d =
    let rest = skip_noops rounds (discard_buffered d noop_frame_size) in
    if ltb (length (buffered d)) 4
    then d
    else if le_uint32 (buffered d) == noop_frame_size
    then rest
    else d

unfoldable pub drain_noops : FrameDecoder → FrameDecoder
drain_noops d = skip_noops (buffered_len d) d

-- After the last sequence only no-ops may follow.
unfoldable pub consume_exhausted_padding : FrameDecoder → FrameDecoder × Result Error (Unit {0})
consume_exhausted_padding d =
    let c = drain_noops d in
    if ltb (buffered_len c) noop_frame_size then (c, ok tt) else fail c sequence_exhausted

unfoldable pub advance : FrameDecoder → FrameDecoder
advance d =
    if eqb_ℤ d.next_sequence max_int32
    then record d { exhausted = true }
    else record d { next_sequence = suc_ℤ d.next_sequence }

-- What Next does with a frame that DecodeFrame accepted; `size` is its declared size.
unfoldable pub accept : FrameDecoder → ℕ → Frame → FrameDecoder × Result Error (Option Frame)
accept d size f =
    let c = discard_buffered d size in
    if eqb_ℤ f.sequence (negsuc 0)
    then elim (parse_handshake_packet f.payload) [
      | err x ↦ fail c x
      | ok handshake ↦ (
        advance (record c { peer_handshake = handshake; checksum_transition_open = true }),
        ok (some f),
      )
    ]
    else (advance c, ok (some f))

-- The outcome of DecodeFrame on the first `size` bytes.
unfoldable pub settle :
    FrameDecoder → ℕ → Result Error Frame → FrameDecoder × Result Error (Option Frame)
settle d size (err x) = fail d x
settle d size (ok f) = accept d size f

-- The frame at the front, where no no-op is: `ok none` asks for more bytes.
unfoldable pub next_frame : FrameDecoder → FrameDecoder × Result Error (Option Frame)
next_frame d =
    let input = buffered d in
    let declared_size = le_uint32 input in
    if ltb (length input) 4
    then (d, ok none)
    else if ltb declared_size minimum_full_frame_size || not (declared_size % 4 == 0)
    then fail d invalid_frame_size
    else if ltb d.max_frame_size declared_size
    then fail d frame_too_large
    else if ltb (length input) declared_size
    then (d, ok none)
    else settle d declared_size
        (decode_frame (take declared_size input) d.next_sequence d.mode d.max_frame_size)

-- FrameDecoder.Next
unfoldable pub next : FrameDecoder → FrameDecoder × Result Error (Option Frame)
next d = elim d.error [
  | some x ↦ (d, err x)
  | none ↦
      if d.checksum_transition_open
      then (d, ok none)
      else if d.exhausted
      then (let (c, r) = consume_exhausted_padding d in (c, r >>= λ _. ok none))
      else next_frame (drain_noops d)
]

-- FrameDecoder.ApplyPeerHandshake
unfoldable pub apply_peer_handshake :
    FrameDecoder → HandshakePacket → HandshakePacket → FrameDecoder × Result Error (Unit {0})
apply_peer_handshake d peer local =
    let settled = record d { checksum_transition_open = false; checksum_transition_done = true } in
    if not d.checksum_transition_open
      || d.checksum_transition_done
      || not (eqb_ℤ d.next_sequence (pos 0))
    then (d, err checksum_transition)
    else if not (eqb_handshake peer d.peer_handshake)
    then fail settled checksum_transition
    else elim (negotiated_checksum local peer) [
      | err x ↦ fail settled x
      | ok mode ↦ (record settled { mode = mode }, ok tt)
    ]

-- FrameDecoder.Finish
unfoldable pub finish : FrameDecoder → FrameDecoder × Result Error (Unit {0})
finish d = elim d.error [
  | some x ↦ (d, err x)
  | none ↦
      if d.checksum_transition_open
      then (d, err checksum_transition)
      else let (c, r) = (if d.exhausted then consume_exhausted_padding d else (d, ok tt)) in
        (c, r >>= λ _. if buffered_len c == 0 then ok tt else err incomplete_frame)
]
