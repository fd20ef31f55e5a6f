-- ===== src/WebProxy/Session/Examples/Carriers.antt =====
-- webproxy/session.go: examples of the theorems on a carrier's answers.
use tel_ego_openwrt.Base.{ℕ, List, [], ◌∷◌, false, none, ◌≡◌, refl, arith}
use tel_ego_openwrt.WebProxy.Session.{
  Session, CarrierLane, QueuedFrame, https, new_carrier_lane, new_session,
}
use tel_ego_openwrt.WebProxy.Session.Carrier.{is_lane}
use tel_ego_openwrt.WebProxy.Frame.{Frame, frame_pong, frame_data}
use tel_ego_openwrt.WebProxy.Limits.{default_limits}
use tel_ego_openwrt.WebProxy.Session.Queue.{put_lane}
use tel_ego_openwrt.WebProxy.Session.Release.{
  frames_cost, take_down_batch, frames_body, batch_count,
}
use tel_ego_openwrt.WebProxy.Session.Poll.{
  batch, poll, poll_open, answer_poll, next_batch, sent_lane,
}
use tel_ego_openwrt.WebProxy.Session.Accounts.{
  Balanced, lane_cost, lane_items, charged_cost, charged_items, keys, Framed,
}
use tel_ego_openwrt.WebProxy.Session.Carrier.Replay.{poll_again}
use tel_ego_openwrt.WebProxy.Session.Examples.{fresh, idle_global}

-- A PONG without a payload, and the session that has committed it as sequence 1.
abbrev pong : Frame
pong = record { frame_type = frame_pong; stream_id = 0; payload = [] }

abbrev pong_body : List ℕ
pong_body = frame_pong ∷ 0 ∷ 0 ∷ 0 ∷ 0 ∷ 0 ∷ 0 ∷ 0 ∷ []

abbrev committed_lane : CarrierLane
committed_lane = record (new_carrier_lane 0) { last_up_sequence = 1; last_up_digest = pong_body }

abbrev committed : Session
committed = put_lane fresh 0 committed_lane

-- A session that has one DATA frame queued for the client.
abbrev data_frame : QueuedFrame
data_frame = record {
  encoded = 2 ∷ 0 ∷ 0 ∷ 1 ∷ 0 ∷ 0 ∷ 0 ∷ 1 ∷ 5 ∷ [];
  frame_type = frame_data;
  stream_id = 1;
  cost = 265;
}

abbrev queued_lane : CarrierLane
queued_lane = record (new_carrier_lane 0) { pending_frames = data_frame ∷ [] }

abbrev queued : Session
queued = record (new_session https default_limits idle_global) {
  carrier_lanes = (0, queued_lane) ∷ [];
  pending_cost = 265;
  pending_items = 1;
  global = record { pending_bytes = 265; pending_items = 1 };
}

queued-Balanced : Balanced queued 0 0
unfolding new_session charged_cost charged_items lane_cost lane_items frames_cost new_carrier_lane
    keys Framed
queued-Balanced = record {
  cost_balance = refl;
  items_balance = refl;
  lanes_once = (refl, tt);
  streams_once = tt;
  windows = (
    record {
      indexed = λ j i h. absurd (cc);
      framed = (omega arith, tt);
      acked = λ _. (refl, refl);
    },
    tt,
  );
  flows = tt;
  global_cost = omega arith;
  global_items = omega arith;
  no_panic = refl;
}

abbrev sent : Session
sent = put_lane queued 0 (sent_lane 2097152 queued_lane 0)

queued-open : queued.closed ≡ false
unfolding new_session
queued-open = refl

queued-sent : poll queued 0 0 false none ≡ (sent, batch data_frame.encoded 1)
unfolding poll poll_open answer_poll next_batch is_lane new_session new_carrier_lane default_limits
    sent_lane take_down_batch put_lane frames_body frames_cost batch_count
queued-sent = refl

poll_again_example : poll sent 0 0 false none ≡ (sent, batch data_frame.encoded 1)
poll_again_example =
    poll_again queued sent 0 0 false none data_frame.encoded 1 0 0 queued-open queued-Balanced
      queued-sent
