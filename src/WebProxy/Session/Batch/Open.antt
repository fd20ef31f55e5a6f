-- ===== src/WebProxy/Session/Batch/Open.antt =====
-- webproxy/session.go: applyBatchLocked does not end the session.
use tel_ego_openwrt.Base.{
  ℕ, List, [], ◌∷◌, Bool, true, false, not, ◌||◌, Option, none, some, leb, ltb, ◌==◌, if◌then◌else◌,
  ◌≡◌, refl, ◌∙◌, inl, inr, Bool-cases,
}
use tel_ego_openwrt.Base.Maps.{lookup, count}
use tel_ego_openwrt.WebProxy.Frame.{Frame, frame_open, frame_data, frame_close, frame_window}
use tel_ego_openwrt.WebProxy.StreamHistory as History
use tel_ego_openwrt.WebProxy.Session.{StreamState}
use tel_ego_openwrt.WebProxy.Session.Release.{
  drop_pending_stream_frames, drop_stream, remember_closed,
}
use tel_ego_openwrt.WebProxy.Session.Streams.{append_backend_write, put_stream}
use tel_ego_openwrt.WebProxy.Session.Kept.{
  queue_frame-Kept, remember_closed-Kept, drop_pending_stream_frames-Kept,
}
use tel_ego_openwrt.WebProxy.Session.Accounts.Closing.{drop_stream-closed}
use tel_ego_openwrt.WebProxy.Session.Batch.{
  Batch, panic, use_stream, apply_late, refuse_stream, apply_open, apply_data, apply_window,
  apply_close, apply_frame, apply_frames,
}

-- Whether the batch's session has ended.
abbrev ended : Batch → Bool
ended b = b.session.closed

apply_late-closed : (b : Batch) (id : ℕ) → ended (apply_late b id) ≡ ended b
unfolding apply_late panic
apply_late-closed b id = elim (Bool-cases (History.contains b.session.used_streams id)) [
  | inl y ↦ rw (apply_late, y) refl
  | inr n ↦ rw (apply_late, n) refl
]

apply_open-closed :
    (acquire : ℕ → Bool) (b : Batch) (id : ℕ) → ended (apply_open acquire b id) ≡ ended b
unfolding apply_open refuse_stream use_stream put_stream
apply_open-closed acquire b id =
    let used = use_stream b.session id in
    elim (Bool-cases (
      leb b.session.limits.max_streams_per_session (count b.session.streams) || not (acquire id))) [
        | inr n ↦ rw (apply_open, n) refl
        | inl y ↦
            rw (apply_open, y)
              ((queue_frame-Kept (remember_closed used id) frame_close id []).same_closed
                ∙ (remember_closed-Kept used id).same_closed)
      ]

apply_data-closed :
    (b : Batch) (f : Frame) (state : StreamState) → ended (apply_data b f state) ≡ ended b
unfolding apply_data panic put_stream
apply_data-closed b f state =
    let appended = append_backend_write state f.payload in
    elim (Bool-cases (ltb b.unused_cost appended.1.0 || ltb b.unused_items appended.1.1)) [
      | inl y ↦ rw (apply_data, y) refl
      | inr n ↦ rw (apply_data, n) refl
    ]

apply_close-closed :
    (b : Batch) (id : ℕ) (state : StreamState) → ended (apply_close b id state) ≡ ended b
unfolding apply_close
apply_close-closed b id state =
    let unqueued = drop_pending_stream_frames b.session id in
    (remember_closed-Kept (drop_stream unqueued id state) id).same_closed
    ∙ drop_stream-closed unqueued id state
    ∙ (drop_pending_stream_frames-Kept b.session id).same_closed

-- A frame of a stream, late or not.
by_stream :
    (b : Batch) (id : ℕ) (o : Option StreamState) (live : StreamState → Batch)
    → ((state : StreamState) → ended (live state) ≡ ended b)
    → ended (elim o [ none ↦ apply_late b id | some state ↦ live state ]) ≡ ended b
by_stream b id none live h = apply_late-closed b id
by_stream b id (some state) live h = h state

if-closed :
    (c : Bool) (x y b : Batch)
    → ended x ≡ ended b
    → ended y ≡ ended b
    → ended (if c then x else y) ≡ ended b
if-closed true x y b p q = p
if-closed false x y b p q = q

apply_frame-closed :
    (acquire : ℕ → Bool) (b : Batch) (f : Frame) → ended (apply_frame acquire b f) ≡ ended b
unfolding apply_frame apply_window put_stream
apply_frame-closed acquire b f =
    let id = f.stream_id in
    let o = lookup id b.session.streams in
    if-closed (id == 0) b _ b refl (
      if-closed (f.frame_type == frame_open) (apply_open acquire b id) _ b
        (apply_open-closed acquire b id)
        (if-closed (f.frame_type == frame_data) _ _ b
          (by_stream b id o (apply_data b f) (apply_data-closed b f))
          (if-closed (f.frame_type == frame_window) _ _ b
            (by_stream b id o (apply_window b f) (λ state. refl))
            (if-closed (f.frame_type == frame_close) _ b b
              (by_stream b id o (apply_close b id) (apply_close-closed b id)) refl))))

pub apply_frames-closed :
    (acquire : ℕ → Bool) (b : Batch) (fs : List Frame)
    → (apply_frames acquire b fs).session.closed ≡ b.session.closed
unfolding apply_frames
apply_frames-closed acquire b [] = refl
apply_frames-closed acquire b (f ∷ fs) =
    if-closed b.applied (apply_frames acquire (apply_frame acquire b f) fs) b b
      (apply_frames-closed acquire (apply_frame acquire b f) fs ∙ apply_frame-closed acquire b f)
      refl
