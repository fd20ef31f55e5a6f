-- ===== src/WebProxy/Session/Carrier/Replay.antt =====
-- webproxy/session.go: pollCarrier answers a repeated cursor with the batch that it has sent.
use tel_ego_openwrt.Base.{
  ℕ, suc, ◌+◌, ◌≤◌, List, [], ◌∷◌, Bool, true, false, not, ◌&&◌, Option, none, some, ◌==◌, length,
  take, ◌≡◌, refl, sym, ap, subst, ◌∙◌, inl, inr, Bool-cases, Option-cases, ==_iff, arith,
  length-take, All-take,
}
use tel_ego_openwrt.Base.Maps.{lookup, lookup-Each, lookup-insert_here, contains}
use tel_ego_openwrt.WebProxy.BoundedSet.{has}
use tel_ego_openwrt.WebProxy.StreamHistory as History
use tel_ego_openwrt.WebProxy.Session.{Session, CarrierLane, QueuedFrame}
use tel_ego_openwrt.WebProxy.Session.Queue.{put_lane}
use tel_ego_openwrt.WebProxy.Session.Release.{take_down_batch, batch_count}
use tel_ego_openwrt.WebProxy.Session.Carrier.{is_lane}
use tel_ego_openwrt.WebProxy.Session.Poll.{
  PollAnswer, batch, poll, poll_open, answer_poll, next_batch, sent_lane, acked_lane, max_uint64,
}
use tel_ego_openwrt.WebProxy.Session.Kept.{put_lane-Kept}
use tel_ego_openwrt.WebProxy.Session.Windows.{batch_count_bounds}
use tel_ego_openwrt.WebProxy.Session.Accounts.{Balanced, LaneOk, Framed}
use tel_ego_openwrt.WebProxy.Session.Carrier.Polling.{
  frames_body-length, acked, acked-closed, acked-lookup, poll-alive,
}

batch_count_least : (bytes n size : ℕ) (qs : List QueuedFrame) → n ≤ batch_count bytes n size qs
unfolding batch_count
batch_count_least bytes n size [] = omega arith
batch_count_least bytes n size (q ∷ qs) =
    ground (arith, batch_count_least bytes (suc n) (size + length q.encoded) qs)

-- A batch is never empty: its first frame goes in whatever its size.
batch_count_one :
    (bytes : ℕ) (qs : List QueuedFrame) → (length qs ≡ 0 → ⊥) → 1 ≤ batch_count bytes 0 0 qs
unfolding batch_count
batch_count_one bytes [] h = absurd (h refl)
batch_count_one bytes (q ∷ qs) h = batch_count_least bytes 1 (0 + length q.encoded) qs

sent_lane-unacked :
    (bytes cursor : ℕ) (lane : CarrierLane)
    → LaneOk lane
    → (length lane.pending_frames ≡ 0 → ⊥)
    → (length (sent_lane bytes lane cursor).unacked == 0) ≡ false
unfolding sent_lane take_down_batch
sent_lane-unacked bytes cursor lane ok some_frames =
    let count = batch_count bytes 0 0 lane.pending_frames in
    let taken = take count lane.pending_frames in
    let one = batch_count_one bytes lane.pending_frames some_frames in
    let most = batch_count_bounds bytes 0 0 lane.pending_frames in
    let size = length-take count lane.pending_frames in
    let body = frames_body-length taken (All-take Framed count lane.pending_frames ok.framed) in
    ground (arith)

-- An unacknowledged batch is the answer at its own cursor.
unacked_again :
    (t : Session) (id cursor : ℕ) (lane : CarrierLane) (lanes : Bool) (expected : Option ℕ)
    → t.closed ≡ false
    → lookup id t.carrier_lanes ≡ some lane
    → is_lane lane expected ≡ true
    → (length lane.unacked == 0) ≡ false
    → (cursor == lane.unacked_base) ≡ true
    → poll t id cursor lanes expected ≡ (t, batch lane.unacked lane.down_cursor)
unfolding poll_open answer_poll
unacked_again t id cursor lane lanes expected alive x l u c =
    poll-alive t id cursor lanes expected alive ∙ rw (poll_open, x, l, answer_poll, u, c) refl

-- The answers that are no batch.
not_batch :
    {r : Session × PollAnswer} {t : Session} {body : List ℕ} {next : ℕ}
    → r ≡ (t, batch body next)
    → r.1 ≡ batch body next
not_batch h = ap (λ r. r.1) h

module _ (s : Session) (id : ℕ) (lane : CarrierLane) (cursor : ℕ) (lanes : Bool)
    (expected : Option ℕ) (alive : s.closed ≡ false) (found : lookup id s.carrier_lanes ≡ some lane)
    (ok : LaneOk lane) (ours : is_lane lane expected ≡ true) (s' : Session) (body : List ℕ)
    (next : ℕ) where
  same_lane : is_lane (sent_lane s.limits.carrier_batch_bytes lane cursor) expected ≡ true
  unfolding sent_lane take_down_batch is_lane
  same_lane =
      elim expected
          as (λ e.
            is_lane lane e ≡ true
            → is_lane (sent_lane s.limits.carrier_batch_bytes lane cursor) e ≡ true) [
              | none ↦ λ h. h
              | some serial ↦ λ h. h
            ]
        ours

  abbrev sent_answer : Session × PollAnswer
  sent_answer =
      let sent = sent_lane s.limits.carrier_batch_bytes lane cursor in
      (put_lane s id sent, batch sent.unacked sent.down_cursor)

  sent_again :
      (length lane.pending_frames == 0) ≡ false
      → sent_answer ≡ (s', batch body next)
      → poll s' id cursor lanes expected ≡ (s', batch body next)
  unfolding put_lane sent_lane
  sent_again n h =
      let sent = sent_lane s.limits.carrier_batch_bytes lane cursor in
      subst (λ r. poll r.0 id cursor lanes expected ≡ r) h
        (unacked_again (put_lane s id sent) id cursor sent lanes expected
          ((put_lane-Kept s id sent).same_closed ∙ alive)
          (lookup-insert_here id id sent s.carrier_lanes ((==_iff id id).1 refl)) same_lane
          (sent_lane-unacked s.limits.carrier_batch_bytes cursor lane ok (λ z. ground arith))
          ((==_iff cursor cursor).1 refl))

  next_batch_again :
      next_batch s id lane cursor lanes expected ≡ (s', batch body next)
      → poll s' id cursor lanes expected ≡ (s', batch body next)
  unfolding next_batch
  next_batch_again h = elim (Bool-cases (length lane.pending_frames == 0)) [
    | inr n ↦ elim (Bool-cases (lane.down_cursor == max_uint64)) [
      | inl y ↦ let g = not_batch (rw (next_batch, n, y) at h) in absurd (cc)
      | inr m ↦ sent_again n (rw (next_batch, n, m) at h)
    ]
    | inl y ↦
        elim (Bool-cases
          (lanes && (not (id == 0) && (not (contains id s.streams) && has s.tombstones id)))) [
            | inl z ↦ let g = not_batch (rw (next_batch, y, z) at h) in absurd (cc)
            | inr z ↦ let g = not_batch (rw (next_batch, y, z) at h) in absurd (cc)
          ]
  ]

module _ (s : Session) (id : ℕ) (lane : CarrierLane) (cursor : ℕ) (lanes : Bool)
    (expected : Option ℕ) (hc hi : ℕ) (alive : s.closed ≡ false)
    (found : lookup id s.carrier_lanes ≡ some lane) (b : Balanced s hc hi)
    (ours : is_lane lane expected ≡ true) (s' : Session) (body : List ℕ) (next : ℕ) where
  acked_lane-ours : is_lane (acked_lane lane) expected ≡ true
  unfolding acked_lane is_lane
  acked_lane-ours =
      elim expected as (λ e. is_lane lane e ≡ true → is_lane (acked_lane lane) e ≡ true) [
        | none ↦ λ h. h
        | some serial ↦ λ h. h
      ]
        ours

  this-LaneOk : LaneOk lane
  this-LaneOk = lookup-Each (λ _ l. LaneOk l) id lane s.carrier_lanes b.windows found

  acked_lane-LaneOk : LaneOk (acked_lane lane)
  unfolding acked_lane
  acked_lane-LaneOk = record {
    indexed = this-LaneOk.indexed;
    framed = this-LaneOk.framed;
    acked = λ _. (refl, refl);
  }

  abbrev acknowledged : Session
  acknowledged = acked s id lane cursor lanes expected hc hi alive found b

  answer_poll_again :
      poll s id cursor lanes expected ≡ answer_poll s id lane cursor lanes expected
      → answer_poll s id lane cursor lanes expected ≡ (s', batch body next)
      → poll s' id cursor lanes expected ≡ (s', batch body next)
  unfolding answer_poll
  answer_poll_again same h =
      elim (Bool-cases (not (length lane.unacked == 0) && cursor == lane.unacked_base)) [
        | inl y ↦
            let g = rw (answer_poll, y) at h in
            let stays : s ≡ s' = ap (λ r. r.0) g in
            subst (λ t. poll t id cursor lanes expected ≡ (s', batch body next)) stays (same ∙ h)
        | inr n ↦ elim (Bool-cases (cursor == lane.down_cursor)) [
          | inr m ↦ let g = not_batch (rw (answer_poll, n, m) at h) in absurd (cc)
          | inl m ↦ elim (Bool-cases (length lane.unacked == 0)) [
            | inl z ↦
                next_batch_again s id lane cursor lanes expected alive found this-LaneOk ours s'
                  body next (rw (answer_poll, n, m, z) at h)
            | inr z ↦
                next_batch_again acknowledged id (acked_lane lane) cursor lanes expected
                  (acked-closed s id lane cursor lanes expected hc hi alive found b)
                  (acked-lookup s id lane cursor lanes expected hc hi alive found b)
                  acked_lane-LaneOk acked_lane-ours s' body next (rw (answer_poll, n, m, z) at h)
          ]
        ]
      ]

gone_no_batch :
    (s s' : Session) (id cursor : ℕ) (lanes : Bool) (expected : Option ℕ) (body : List ℕ) (next : ℕ)
    → lookup id s.carrier_lanes ≡ none
    → poll_open s id cursor lanes expected ≡ (s', batch body next)
    → ⊥
unfolding poll_open
gone_no_batch s s' id cursor lanes (some serial) body next x h =
    let g = not_batch (rw (poll_open, x) at h) in cc
gone_no_batch s s' id cursor lanes none body next x h =
    elim (Bool-cases (lanes && History.contains s.used_streams id)) [
      | inl y ↦ let g = not_batch (rw (poll_open, x, y) at h) in cc
      | inr n ↦ let g = not_batch (rw (poll_open, x, n) at h) in cc
    ]

-- On an open, balanced session: where pollCarrier has answered with a batch, and the client asks again
-- with the same cursor, it answers with the same batch and the same next cursor, and leaves the session
-- as it is.
pub poll_again :
    (s s' : Session) (id cursor : ℕ) (lanes : Bool) (expected : Option ℕ) (body : List ℕ)
    (next hc hi : ℕ)
    → s.closed ≡ false
    → Balanced s hc hi
    → poll s id cursor lanes expected ≡ (s', batch body next)
    → poll s' id cursor lanes expected ≡ (s', batch body next)
unfolding poll_open
poll_again s s' id cursor lanes expected body next hc hi alive b h =
    let opened = poll-alive s id cursor lanes expected alive in
    elim (Option-cases (lookup id s.carrier_lanes)) [
      | inl x ↦ absurd (gone_no_batch s s' id cursor lanes expected body next x (sym opened ∙ h))
      | inr (lane, x) ↦ elim (Bool-cases (is_lane lane expected)) [
        | inr n ↦ let g = not_batch (rw (poll_open, x, n) at (sym opened ∙ h)) in absurd (cc)
        | inl y ↦
            let answer : poll_open s id cursor lanes expected
                ≡ answer_poll s id lane cursor lanes expected =
              rw (poll_open, x, y) refl in
            answer_poll_again s id lane cursor lanes expected hc hi alive x b y s' body next
              (opened ∙ answer) (sym answer ∙ sym opened ∙ h)
      ]
    ]
