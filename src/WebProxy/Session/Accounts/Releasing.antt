-- ===== src/WebProxy/Session/Accounts/Releasing.antt =====
-- webproxy/session.go: taking a batch, dropping a stream's frames, its writes and its lane keep the
-- accounts.
use tel_ego_openwrt.Base.{
  ℕ, ◌+◌, List, [], some, ltb, ◌==◌, length, take, drop, get_elem?, ◌≡◌, ap, subst, ◌∙◌, inl, inr,
  Bool-cases, Option-cases, arith, All-drop, take-append-drop, length-drop, subst₂, ltb→lt,
}
use tel_ego_openwrt.Base.Maps.{
  lookup, remove, lookup-Each, remove-Each, remove-Unique, total-remove,
}
use tel_ego_openwrt.WebProxy.Frame.{frame_window}
use tel_ego_openwrt.WebProxy.BoundedSet.{add}
use tel_ego_openwrt.WebProxy.Session.{Session, CarrierLane, QueuedFrame, StreamState, uses_lanes}
use tel_ego_openwrt.WebProxy.Session.Pending.{discharge}
use tel_ego_openwrt.WebProxy.Session.Queue.{put_lane, lane_of}
use tel_ego_openwrt.WebProxy.Session.Release.{
  frames_cost, take_down_batch, batch_count, forget_windows, index_windows, frames_without,
  frames_of, drop_pending_stream_frames, release_carrier_lane, remember_closed, drop_stream,
}
use tel_ego_openwrt.WebProxy.Session.Accounts.{
  Balanced, LaneOk, StreamOk, Framed, lane_cost, lane_items, write_cost, write_items, charged_cost,
  charged_items, keys, put_lane-Balanced, release_pending-Balanced, release_pending-cases,
  discharge-Balanced,
}
use tel_ego_openwrt.WebProxy.Session.Keys.{frames_cost-append}
use tel_ego_openwrt.WebProxy.Session.Windows.{
  frames_cost-without, length-without, All-without, index_windows_lem, forget_windows_lem,
  shift_windows_lem, batch_count_bounds, keys-take, keys-drop, get_elem?-take, get_elem?-drop,
}

-- The lane that dropPendingStreamFramesLocked leaves.
abbrev pub dropped_lane : ℕ → CarrierLane → CarrierLane
dropped_lane id lane = record lane {
  pending_frames = frames_without id lane.pending_frames;
  pending_windows = index_windows [] 0 (frames_without id lane.pending_frames);
}

dropped_lane-LaneOk : (id : ℕ) (lane : CarrierLane) → LaneOk lane → LaneOk (dropped_lane id lane)
dropped_lane-LaneOk id lane w = record {
  indexed = λ j index h.
      elim (index_windows_lem [] 0 (frames_without id lane.pending_frames) j index h) [
        | inl g ↦ absurd (cc)
        | inr (d, (e, g)) ↦
            subst
              (λ i.
                get_elem? (keys (frames_without id lane.pending_frames)) i ≡ some (frame_window, j))
              (omega arith) g
      ];
  framed = All-without Framed id lane.pending_frames w.framed;
  acked = w.acked;
}

pub drop_pending_stream_frames-Balanced :
    (s : Session) (id hc hi : ℕ)
    → Balanced s hc hi
    → Balanced (drop_pending_stream_frames s id) hc hi
unfolding drop_pending_stream_frames lane_cost lane_items
drop_pending_stream_frames-Balanced s id hc hi b =
    let lane_id = lane_of s.carrier id in
    elim (Option-cases (lookup lane_id s.carrier_lanes)) [
      | inl x ↦ rw (drop_pending_stream_frames, x) b
      | inr (lane, x) ↦
          let w = lookup-Each (λ _ l. LaneOk l) lane_id lane s.carrier_lanes b.windows x in
          let dropped = frames_of id lane.pending_frames in
          let costs = frames_cost-without id lane.pending_frames in
          let many = length-without id lane.pending_frames in
          rw (drop_pending_stream_frames, x)
            (release_pending-Balanced (put_lane s lane_id (dropped_lane id lane)) hc hi
              (frames_cost dropped) (length dropped)
              (put_lane-Balanced s lane_id lane (dropped_lane id lane) hc hi
                (hc + frames_cost dropped) (hi + length dropped) x (dropped_lane-LaneOk id lane w)
                (omega (arith, costs)) (omega (arith, many)) b))
    ]

-- A lane that leaves the map leaves its debts as held.
remove_lane-Balanced :
    (s : Session) (id : ℕ) (lane : CarrierLane) (hc hi : ℕ)
    → lookup id s.carrier_lanes ≡ some lane
    → Balanced s hc hi
    → Balanced
        (record s { carrier_lanes = remove id s.carrier_lanes })
        (hc + lane_cost lane)
        (hi + lane_items lane)
unfolding charged_cost charged_items
remove_lane-Balanced s id lane hc hi h b =
    let tc = total-remove lane_cost id lane s.carrier_lanes b.lanes_once h in
    let ti = total-remove lane_items id lane s.carrier_lanes b.lanes_once h in
    record {
      cost_balance = omega (arith, b.cost_balance, tc);
      items_balance = omega (arith, b.items_balance, ti);
      lanes_once = remove-Unique id s.carrier_lanes b.lanes_once;
      streams_once = b.streams_once;
      windows = remove-Each (λ _ l. LaneOk l) id s.carrier_lanes b.windows;
      flows = b.flows;
      global_cost = b.global_cost;
      global_items = b.global_items;
      no_panic = b.no_panic;
    }

pub release_carrier_lane-Balanced :
    (s : Session) (id hc hi : ℕ) → Balanced s hc hi → Balanced (release_carrier_lane s id) hc hi
unfolding release_carrier_lane lane_cost lane_items
release_carrier_lane-Balanced s id hc hi b = elim (Bool-cases (id == 0)) [
  | inl z ↦ rw (release_carrier_lane, z) b
  | inr z ↦ elim (Option-cases (lookup id s.carrier_lanes)) [
    | inl x ↦ rw (release_carrier_lane, z, x) b
    | inr (lane, x) ↦
        rw (release_carrier_lane, z, x)
          (release_pending-Balanced (record s { carrier_lanes = remove id s.carrier_lanes }) hc hi
            (lane.unacked_cost + frames_cost lane.pending_frames)
            (lane.unacked_items + length lane.pending_frames)
            (subst₂ (Balanced (record s { carrier_lanes = remove id s.carrier_lanes }))
              (omega arith) (omega arith) (remove_lane-Balanced s id lane hc hi x b)))
  ]
]

-- The tombstones are no part of the accounts.
remembered-Balanced :
    (s : Session) (tombs : _) (hc hi : ℕ)
    → Balanced s hc hi
    → Balanced (record s { tombstones = tombs }) hc hi
unfolding charged_cost charged_items
remembered-Balanced s tombs hc hi b = record {
  cost_balance = b.cost_balance;
  items_balance = b.items_balance;
  lanes_once = b.lanes_once;
  streams_once = b.streams_once;
  windows = b.windows;
  flows = b.flows;
  global_cost = b.global_cost;
  global_items = b.global_items;
  no_panic = b.no_panic;
}

pub remember_closed-Balanced :
    (s : Session) (id hc hi : ℕ) → Balanced s hc hi → Balanced (remember_closed s id) hc hi
unfolding remember_closed
remember_closed-Balanced s id hc hi b =
    let added = add s.tombstones id in
    let r = remembered-Balanced s added.0 hc hi b in
    elim (Bool-cases (uses_lanes s.carrier)) [
      | inr n ↦ rw (remember_closed, n) r
      | inl y ↦ elim (Option-cases added.1) [
        | inl x ↦ rw (remember_closed, y, x) r
        | inr (evicted, x) ↦
            rw (remember_closed, y, x)
              (release_carrier_lane-Balanced (record s { tombstones = added.0 }) evicted hc hi r)
      ]
    ]

-- A stream that leaves the map leaves the cost of its writes as held.
remove_stream-Balanced :
    (s : Session) (id : ℕ) (state : StreamState) (hc hi : ℕ)
    → lookup id s.streams ≡ some state
    → Balanced s hc hi
    → Balanced
        (record s { streams = remove id s.streams })
        (hc + write_cost state)
        (hi + write_items state)
unfolding charged_cost charged_items
remove_stream-Balanced s id state hc hi h b =
    let tc = total-remove write_cost id state s.streams b.streams_once h in
    let ti = total-remove write_items id state s.streams b.streams_once h in
    record {
      cost_balance = omega (arith, b.cost_balance, tc);
      items_balance = omega (arith, b.items_balance, ti);
      lanes_once = b.lanes_once;
      streams_once = remove-Unique id s.streams b.streams_once;
      windows = b.windows;
      flows = remove-Each (λ _ st. StreamOk st) id s.streams b.flows;
      global_cost = b.global_cost;
      global_items = b.global_items;
      no_panic = b.no_panic;
    }

-- A stream leaves the map, and its writes are released.
pub drop_stream-Balanced :
    (s : Session) (id : ℕ) (state : StreamState) (hc hi : ℕ)
    → lookup id s.streams ≡ some state
    → Balanced s hc hi
    → Balanced (drop_stream s id state) hc hi
unfolding drop_stream write_cost write_items discharge
drop_stream-Balanced s id state hc hi h b =
    let without = record s { streams = remove id s.streams } in
    let r = remove_stream-Balanced s id state hc hi h b in
    let bc = r.cost_balance in
    let bi = r.items_balance in
    let gc = r.global_cost in
    let gi = r.global_items in
    elim (release_pending-cases s state.pending_write_cost state.pending_write_items (omega arith)
      (omega arith) (omega arith) (omega arith)) [
        | inl (e, z) ↦
            rw (drop_stream, e) (subst₂ (Balanced without) (omega (arith, z)) (omega (arith, z)) r)
        | inr (g, (e, t)) ↦
            rw (drop_stream, e)
              (discharge-Balanced without hc hi state.pending_write_cost state.pending_write_items g
                t r)
      ]

-- The lane that takeDownBatchLocked leaves.
module _ (bytes : ℕ) (lane : CarrierLane) where
  abbrev count : ℕ
  count = batch_count bytes 0 0 lane.pending_frames

  abbrev taken : List QueuedFrame
  taken = take count lane.pending_frames

  pub take_down_batch-LaneOk : LaneOk lane → LaneOk (take_down_batch bytes lane).0
  unfolding take_down_batch
  take_down_batch-LaneOk w = record {
    indexed = λ j index h.
        let (i', (l, e)) =
          shift_windows_lem count (forget_windows lane.pending_windows 0 taken) j index h in
        let (before, never) = forget_windows_lem lane.pending_windows 0 taken j i' l in
        let key = w.indexed j i' before in
        elim (Bool-cases (ltb i' count)) [
          | inl y ↦
              let place = get_elem?-take count i' (keys lane.pending_frames) (ltb→lt i' count y) in
              absurd
                (never i' (omega arith) (rw (keys-take count lane.pending_frames) (place ∙ key)))
          | inr n ↦
              let whole : count + index ≡ i' = ground arith in
              rw (keys-drop count lane.pending_frames, get_elem?-drop count index, whole) key
        ];
    framed = All-drop Framed count lane.pending_frames w.framed;
    acked = w.acked;
  }

  -- The cost of the batch is what the lane does not owe any more.
  pub take_down_batch-cost :
      (frames_cost (take_down_batch bytes lane).0.pending_frames
          + (take_down_batch bytes lane).1.cost
        ≡ frames_cost lane.pending_frames)
      × (length (take_down_batch bytes lane).0.pending_frames + (take_down_batch bytes lane).1.items
          ≡ length lane.pending_frames)
  unfolding take_down_batch
  take_down_batch-cost =
      let whole = ap frames_cost (take-append-drop count lane.pending_frames) in
      let parts = frames_cost-append taken (drop count lane.pending_frames) in
      let bound = batch_count_bounds bytes 0 0 lane.pending_frames in
      let rest = length-drop count lane.pending_frames in
      (omega (arith, whole, parts), omega (arith, rest, bound))
