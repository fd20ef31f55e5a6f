-- ===== src/WebProxy/Session/Accounts.antt =====
-- The accounts of a session: what its lanes and streams owe of the pending budget.
pub mod Queueing
pub mod Releasing
pub mod Backends
pub mod Closing
pub mod Initial
pub mod Reservations
use tel_ego_openwrt.Base.{
  ℕ, zero, suc, ◌+◌, ◌-◌, ◌*◌, ◌≤◌, List, [], ◌∷◌, ◌++◌, Bool, true, false, not, ◌&&◌, ◌||◌, Option,
  none, some, ltb, ◌==◌, if◌then◌else◌, length, ◌≡◌, refl, sym, ap, subst, ◌∙◌, ◌⊎◌, inl, inr,
  Bool-cases, Option-cases, arith, All, ◌<◌, get_elem?, ltb-false, subst₂,
}
use native.Mathlib.Nat.{add-zero}
use tel_ego_openwrt.Base.Maps.{
  Map, lookup, insert, remove, Unique, total, Each, insert-Unique, remove-Unique, total-insert_old,
  total-insert_new, total-remove, insert-Each, remove-Each, lookup-Each,
}
use tel_ego_openwrt.WebProxy.Limits.{queue_item_cost}
use tel_ego_openwrt.WebProxy.Frame.{FrameType, frame_window}
use tel_ego_openwrt.WebProxy.Session.{
  Session, CarrierLane, QueuedFrame, StreamState, PendingClass, Global, initial_stream_window,
}
use tel_ego_openwrt.WebProxy.Session.Pending.{
  reserve_pending, release_pending, charge_global, charge, discharge, refund_global, admit,
}
use tel_ego_openwrt.WebProxy.Session.Queue.{put_lane, max_uint32}
use tel_ego_openwrt.WebProxy.Session.Release.{frames_cost}
use tel_ego_openwrt.WebProxy.Session.Streams.{put_stream}

unfoldable pub lane_cost : CarrierLane → ℕ
lane_cost lane = frames_cost lane.pending_frames + lane.unacked_cost

unfoldable pub lane_items : CarrierLane → ℕ
lane_items lane = length lane.pending_frames + lane.unacked_items

unfoldable pub write_cost : StreamState → ℕ
write_cost state = state.pending_write_cost

unfoldable pub write_items : StreamState → ℕ
write_items state = state.pending_write_items

unfoldable pub charged_cost : Session → ℕ
charged_cost s = total lane_cost s.carrier_lanes + total write_cost s.streams

unfoldable pub charged_items : Session → ℕ
charged_items s = total lane_items s.carrier_lanes + total write_items s.streams

-- The type and the stream of each frame.
unfoldable pub keys : List QueuedFrame → List (ℕ × ℕ)
keys [] = []
keys (q ∷ qs) = (q.frame_type, q.stream_id) ∷ keys qs

-- A frame has some bytes: those of its header at least.
unfoldable pub Framed : QueuedFrame → Type 0
Framed q = 0 < length q.encoded

-- Each entry of pendingWindows is the index of a WINDOW frame of its stream; queued frames are not
-- empty; and a lane without an unacknowledged batch owes nothing for one.
pub record LaneOk (lane : CarrierLane) : Type 0 where
  pub indexed :
      (id index : ℕ)
      → lookup id lane.pending_windows ≡ some index
      → get_elem? (keys lane.pending_frames) index ≡ some (frame_window, id)
  pub framed : All Framed lane.pending_frames
  pub acked : length lane.unacked ≡ 0 → (lane.unacked_cost ≡ 0) × (lane.unacked_items ≡ 0)

-- What a client may still send and what waits for the backend make a whole window; a write costs its
-- bytes and one item's overhead; and the credit of the client is a uint32.
pub record StreamOk (state : StreamState) : Type 0 where
  pub window : state.receive_window + state.pending_write_bytes ≡ initial_stream_window
  pub priced :
      state.pending_write_cost
      ≡ state.pending_write_bytes + queue_item_cost * state.pending_write_items
  pub credit : state.send_credit ≤ max_uint32

-- The pending budget is what the lanes and the streams owe, and what is held beside them: `cost`
-- bytes and `items` items.
pub record Balanced (s : Session) (cost items : ℕ) : Type 0 where
  pub cost_balance : s.pending_cost ≡ charged_cost s + cost
  pub items_balance : s.pending_items ≡ charged_items s + items
  pub lanes_once : Unique s.carrier_lanes
  pub streams_once : Unique s.streams
  pub windows : Each (λ _ lane. LaneOk lane) s.carrier_lanes
  pub flows : Each (λ _ state. StreamOk state) s.streams
  pub global_cost : s.pending_cost ≤ s.global.pending_bytes
  pub global_items : s.pending_items ≤ s.global.pending_items
  pub no_panic : s.panicked ≡ false

charge_global_lem :
    (l : _) (g g' : Global) (bytes items : ℕ) (class : PendingClass)
    → charge_global l g bytes items class ≡ some g'
    → (g'.pending_bytes ≡ g.pending_bytes + bytes) × (g'.pending_items ≡ g.pending_items + items)
unfolding charge_global
charge_global_lem l g g' bytes items class h = ground arith

admit_lem :
    (s : Session) (g : Global) (cost items : ℕ) (class : PendingClass)
    → admit s cost items class ≡ some g
    → (g.pending_bytes ≡ s.global.pending_bytes + cost)
      × (g.pending_items ≡ s.global.pending_items + items)
unfolding admit
admit_lem s g cost items class h =
    ground (arith, charge_global_lem s.limits s.global g cost items class)

-- What a reservation that succeeds does to the session.
charge-Balanced :
    (s : Session) (hc hi cost items : ℕ) (g : Global)
    → (g.pending_bytes ≡ s.global.pending_bytes + cost)
      × (g.pending_items ≡ s.global.pending_items + items)
    → Balanced s hc hi
    → Balanced (charge s cost items g) (hc + cost) (hi + items)
unfolding charge charged_cost charged_items
charge-Balanced s hc hi cost items g e b = record {
  cost_balance = omega (arith, b.cost_balance);
  items_balance = omega (arith, b.items_balance);
  lanes_once = b.lanes_once;
  streams_once = b.streams_once;
  windows = b.windows;
  flows = b.flows;
  global_cost = omega (arith, b.global_cost, e.0);
  global_items = omega (arith, b.global_items, e.1);
  no_panic = b.no_panic;
}

-- The three ways a reservation goes.
pub reserve_pending-cases :
    (s : Session) (cost items : ℕ) (class : PendingClass)
    → ((reserve_pending s cost items class ≡ (s, true)) × ((cost ≡ 0) × (items ≡ 0)))
      ⊎ ((reserve_pending s cost items class ≡ (s, false))
          ⊎ ((g : Global) × ((reserve_pending s cost items class ≡ (charge s cost items g, true))
                × ((g.pending_bytes ≡ s.global.pending_bytes + cost)
                    × (g.pending_items ≡ s.global.pending_items + items)))))
unfolding reserve_pending
reserve_pending-cases s cost items class = elim (Bool-cases (cost == 0 && items == 0)) [
  | inl z ↦ inl (rw z, ground arith)
  | inr n ↦ elim (Option-cases (admit s cost items class)) [
    | inl a ↦ inr (inl (rw (n, a)))
    | inr (g, a) ↦ inr (inr (g, (rw (n, a), admit_lem s g cost items class a)))
  ]
]

pub reserve_pending-Balanced :
    (s : Session) (hc hi cost items : ℕ) (class : PendingClass)
    → Balanced s hc hi
    → (reserve_pending s cost items class).1 ≡ true
    → Balanced (reserve_pending s cost items class).0 (hc + cost) (hi + items)
reserve_pending-Balanced s hc hi cost items class b h =
    elim (reserve_pending-cases s cost items class) [
      | inl (e, z) ↦ rw (e, z.0, z.1) (rw (add-zero, add-zero) b)
      | inr (inl e) ↦ absurd (cc)
      | inr (inr (g, (e, t))) ↦ rw e (charge-Balanced s hc hi cost items g t b)
    ]

pub reserve_pending-refused :
    (s : Session) (cost items : ℕ) (class : PendingClass)
    → (reserve_pending s cost items class).1 ≡ false
    → (reserve_pending s cost items class).0 ≡ s
reserve_pending-refused s cost items class h = elim (reserve_pending-cases s cost items class) [
  | inl (e, z) ↦ rw e refl
  | inr (inl e) ↦ rw e refl
  | inr (inr (g, (e, t))) ↦ absurd (cc)
]

-- A reservation leaves the lanes and the streams.
pub reserve_pending-lanes :
    (s : Session) (cost items : ℕ) (class : PendingClass)
    → (reserve_pending s cost items class).0.carrier_lanes ≡ s.carrier_lanes
unfolding charge
reserve_pending-lanes s cost items class = elim (reserve_pending-cases s cost items class) [
  | inl (e, z) ↦ rw e refl
  | inr (inl e) ↦ rw e refl
  | inr (inr (g, (e, t))) ↦ rw e refl
]

-- A release of what is held gives back exactly that, and does not panic.
pub discharge-Balanced :
    (s : Session) (hc hi cost items : ℕ) (g : Global)
    → (g.pending_bytes + cost ≡ s.global.pending_bytes)
      × (g.pending_items + items ≡ s.global.pending_items)
    → Balanced s (hc + cost) (hi + items)
    → Balanced (discharge s cost items g) hc hi
unfolding discharge charged_cost charged_items
discharge-Balanced s hc hi cost items g e b = record {
  cost_balance = omega (arith, b.cost_balance);
  items_balance = omega (arith, b.items_balance);
  lanes_once = b.lanes_once;
  streams_once = b.streams_once;
  windows = b.windows;
  flows = b.flows;
  global_cost = omega (arith, b.global_cost, b.cost_balance, e.0);
  global_items = omega (arith, b.global_items, b.items_balance, e.1);
  no_panic = b.no_panic;
}

pub refund_global_lem :
    (g : Global) (cost items : ℕ)
    → cost ≤ g.pending_bytes
    → items ≤ g.pending_items
    → (g' : Global) × ((refund_global g cost items ≡ some g')
        × ((g'.pending_bytes + cost ≡ g.pending_bytes)
            × (g'.pending_items + items ≡ g.pending_items)))
unfolding refund_global
refund_global_lem g cost items hb hi = (
  record { pending_bytes = g.pending_bytes - cost; pending_items = g.pending_items - items },
  (ground arith, (omega arith, omega arith)),
)

-- With enough pending, a release takes its amounts off the session and off the manager.
pub release_pending-cases :
    (s : Session) (cost items : ℕ)
    → cost ≤ s.pending_cost
    → items ≤ s.pending_items
    → cost ≤ s.global.pending_bytes
    → items ≤ s.global.pending_items
    → ((release_pending s cost items ≡ s) × ((cost ≡ 0) × (items ≡ 0)))
      ⊎ ((g : Global) × ((release_pending s cost items ≡ discharge s cost items g)
            × ((g.pending_bytes + cost ≡ s.global.pending_bytes)
                × (g.pending_items + items ≡ s.global.pending_items))))
unfolding release_pending
release_pending-cases s cost items hc hi gc gi = elim (Bool-cases (cost == 0 && items == 0)) [
  | inl z ↦ inl (rw z, ground arith)
  | inr n ↦
      let (g, (e, t)) = refund_global_lem s.global cost items gc gi in
      inr (g, (rw (n, ltb-false s.pending_cost cost hc, ltb-false s.pending_items items hi, e), t))
]

pub release_pending-Balanced :
    (s : Session) (hc hi cost items : ℕ)
    → Balanced s (hc + cost) (hi + items)
    → Balanced (release_pending s cost items) hc hi
release_pending-Balanced s hc hi cost items b =
    let bc = b.cost_balance in
    let bi = b.items_balance in
    let gc = b.global_cost in
    let gi = b.global_items in
    elim (release_pending-cases s cost items (omega arith) (omega arith) (omega arith)
      (omega arith)) [
        | inl (e, z) ↦ rw e (subst₂ (Balanced s) (omega (arith, z)) (omega (arith, z)) b)
        | inr (g, (e, t)) ↦ rw e (discharge-Balanced s hc hi cost items g t b)
      ]

-- A write of one lane, where its windows stay indexed: the budget is out by the difference.
pub put_lane-Balanced :
    (s : Session) (id : ℕ) (old new : CarrierLane) (hc hi hc' hi' : ℕ)
    → lookup id s.carrier_lanes ≡ some old
    → LaneOk new
    → lane_cost new + hc' ≡ lane_cost old + hc
    → lane_items new + hi' ≡ lane_items old + hi
    → Balanced s hc hi
    → Balanced (put_lane s id new) hc' hi'
unfolding put_lane charged_cost charged_items
put_lane-Balanced s id old new hc hi hc' hi' h w ec ei b =
    let tc = total-insert_old lane_cost id new old s.carrier_lanes h in
    let ti = total-insert_old lane_items id new old s.carrier_lanes h in
    record {
      cost_balance = omega (arith, b.cost_balance, tc, ec);
      items_balance = omega (arith, b.items_balance, ti, ei);
      lanes_once = insert-Unique id new s.carrier_lanes b.lanes_once;
      streams_once = b.streams_once;
      windows = insert-Each (λ _ lane. LaneOk lane) id new s.carrier_lanes b.windows w;
      flows = b.flows;
      global_cost = b.global_cost;
      global_items = b.global_items;
      no_panic = b.no_panic;
    }

-- A write of one stream: the budget is out by the difference.
pub put_stream-Balanced :
    (s : Session) (id : ℕ) (old new : StreamState) (hc hi hc' hi' : ℕ)
    → lookup id s.streams ≡ some old
    → StreamOk new
    → write_cost new + hc' ≡ write_cost old + hc
    → write_items new + hi' ≡ write_items old + hi
    → Balanced s hc hi
    → Balanced (put_stream s id new) hc' hi'
unfolding put_stream charged_cost charged_items
put_stream-Balanced s id old new hc hi hc' hi' h w ec ei b =
    let tc = total-insert_old write_cost id new old s.streams h in
    let ti = total-insert_old write_items id new old s.streams h in
    record {
      cost_balance = omega (arith, b.cost_balance, tc, ec);
      items_balance = omega (arith, b.items_balance, ti, ei);
      lanes_once = b.lanes_once;
      streams_once = insert-Unique id new s.streams b.streams_once;
      windows = b.windows;
      flows = insert-Each (λ _ state. StreamOk state) id new s.streams b.flows w;
      global_cost = b.global_cost;
      global_items = b.global_items;
      no_panic = b.no_panic;
    }

pub Balanced-StreamOk :
    (s : Session) (id hc hi : ℕ) (state : StreamState)
    → Balanced s hc hi
    → lookup id s.streams ≡ some state
    → StreamOk state
Balanced-StreamOk s id hc hi state b h =
    lookup-Each (λ _ st. StreamOk st) id state s.streams b.flows h
