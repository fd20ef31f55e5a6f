-- ===== src/WebProxy/Session/Batch/Steps.antt =====
-- webproxy/session.go: each case of applyBatchLocked keeps the accounts, the reservation that is not
-- used up counted as held.
use tel_ego_openwrt.Base.{
  ℕ, ◌+◌, ◌-◌, ◌*◌, ◌%◌, ◌^◌, ◌≤◌, List, false, ◌||◌, none, some, ltb, leb, length, ◌≡◌, refl, sym,
  ap, subst, ◌∙◌, inl, inr, Bool-cases, Option-cases, arith,
}
use tel_ego_openwrt.Base.Maps.{lookup, insert-Unique, insert-Each, total-insert_new}
use tel_ego_openwrt.WebProxy.Frame.{Frame}
use tel_ego_openwrt.WebProxy.Limits.{queue_item_cost}
use tel_ego_openwrt.WebProxy.Session.{Session, StreamState, relay_data_chunk}
use tel_ego_openwrt.WebProxy.Session.Queue.{split_last, max_uint32}
use tel_ego_openwrt.WebProxy.Session.Release.{drop_pending_stream_frames, drop_stream}
use tel_ego_openwrt.WebProxy.Session.Streams.{
  append_backend_write, append_new, add_write, new_stream_state, put_stream,
}
use tel_ego_openwrt.WebProxy.Session.Batch.{
  Batch, use_stream, apply_data, apply_window, apply_close,
}
use tel_ego_openwrt.WebProxy.Session.Checks.{payload_size, more_credit}
use tel_ego_openwrt.WebProxy.Session.Kept.{drop_pending_stream_frames-Kept}
use tel_ego_openwrt.WebProxy.Session.Accounts.{
  Balanced, StreamOk, Balanced-StreamOk, put_stream-Balanced, write_cost, write_items, charged_cost,
  charged_items,
}
use tel_ego_openwrt.WebProxy.Session.Accounts.Releasing.{
  drop_pending_stream_frames-Balanced, drop_stream-Balanced, remember_closed-Balanced,
}

-- A stream number that is marked as used is no part of the accounts.
pub use_stream-Balanced :
    (s : Session) (id hc hi : ℕ) → Balanced s hc hi → Balanced (use_stream s id) hc hi
unfolding use_stream charged_cost charged_items
use_stream-Balanced s id hc hi b = record {
  cost_balance = b.cost_balance;
  items_balance = b.items_balance;
  lanes_once = b.lanes_once;
  streams_once = b.streams_once;
  windows = b.windows;
  flows = b.flows;
  global_cost = b.global_cost;
  global_items = b.global_items;
  no_panic = b.no_panic;
}

new_stream_state-StreamOk : StreamOk new_stream_state
unfolding new_stream_state
new_stream_state-StreamOk = record {
  window = omega arith;
  priced = omega arith;
  credit = omega arith;
}

-- A new stream owes nothing.
pub put_new_stream-Balanced :
    (s : Session) (id hc hi : ℕ)
    → lookup id s.streams ≡ none
    → Balanced s hc hi
    → Balanced (put_stream s id new_stream_state) hc hi
unfolding put_stream charged_cost charged_items new_stream_state write_cost write_items
put_new_stream-Balanced s id hc hi h b =
    let tc = total-insert_new write_cost id new_stream_state s.streams h in
    let ti = total-insert_new write_items id new_stream_state s.streams h in
    record {
      cost_balance = omega (arith, b.cost_balance, tc);
      items_balance = omega (arith, b.items_balance, ti);
      lanes_once = b.lanes_once;
      streams_once = insert-Unique id new_stream_state s.streams b.streams_once;
      windows = b.windows;
      flows =
          insert-Each (λ _ st. StreamOk st) id new_stream_state s.streams b.flows
            new_stream_state-StreamOk;
      global_cost = b.global_cost;
      global_items = b.global_items;
      no_panic = b.no_panic;
    }

-- What appendBackendWriteLocked charges: the payload, and the overhead of at most one item.
pub record Appends (state : StreamState) (size : ℕ) (after : StreamState) (cost items : ℕ)
    : Type 0 where
  pub bytes_more : after.pending_write_bytes ≡ state.pending_write_bytes + size
  pub cost_more : after.pending_write_cost ≡ state.pending_write_cost + cost
  pub items_more : after.pending_write_items ≡ state.pending_write_items + items
  pub price : cost ≡ size + queue_item_cost * items
  pub one_item : items ≤ 1
  pub same_credit : after.send_credit ≡ state.send_credit

append_new-Appends :
    (state : StreamState) (payload : List ℕ)
    → Appends state
        (length payload)
        (append_new state payload).0
        (append_new state payload).1.0
        (append_new state payload).1.1
unfolding append_new add_write
append_new-Appends state payload = record {
  bytes_more = refl;
  cost_more = refl;
  items_more = refl;
  price = omega arith;
  one_item = omega arith;
  same_credit = refl;
}

pub append_backend_write-Appends :
    (state : StreamState) (payload : List ℕ)
    → Appends state
        (length payload)
        (append_backend_write state payload).0
        (append_backend_write state payload).1.0
        (append_backend_write state payload).1.1
unfolding append_backend_write add_write
append_backend_write-Appends state payload = elim (Option-cases (split_last state.writes)) [
  | inl x ↦ rw (append_backend_write, x) (append_new-Appends state payload)
  | inr ((front, last), x) ↦
      elim (Bool-cases (leb (length last + length payload) relay_data_chunk)) [
        | inr n ↦ rw (append_backend_write, x, n) (append_new-Appends state payload)
        | inl y ↦
            rw (append_backend_write, x, y)
              (record {
                bytes_more = refl;
                cost_more = refl;
                items_more = refl;
                price = omega arith;
                one_item = omega arith;
                same_credit = refl;
              })
      ]
]

-- A DATA frame that fits the client's window, and whose cost is still reserved.
module _ (b : Batch) (f : Frame) (state : StreamState) (hc hi : ℕ)
    (found : lookup f.stream_id b.session.streams ≡ some state)
    (ok : Balanced b.session (hc + b.unused_cost) (hi + b.unused_items))
    (fits : length f.payload ≤ state.receive_window)
    (cost : length f.payload + queue_item_cost ≤ b.unused_cost) (item : 1 ≤ b.unused_items) where
  abbrev pub data_window : ℕ
  data_window = (state.receive_window + (2 ^ 32 - payload_size f)) % 2 ^ 32

  -- The window does not wrap.
  pub data_window-exact : data_window ≡ state.receive_window - length f.payload
  unfolding payload_size
  data_window-exact =
      let w =
        (Balanced-StreamOk b.session f.stream_id (hc + b.unused_cost) (hi + b.unused_items) state ok
          found).window in
      omega arith

  abbrev pub after_data : StreamState
  after_data = record (append_backend_write state f.payload).0 { receive_window = data_window }

  data_covered :
      (ltb b.unused_cost (append_backend_write state f.payload).1.0
        || ltb b.unused_items (append_backend_write state f.payload).1.1)
      ≡ false
  data_covered =
      let a = append_backend_write-Appends state f.payload in
      let p = a.price in let one = a.one_item in ground arith

  pub apply_data-session :
      (apply_data b f state).session ≡ put_stream b.session f.stream_id after_data
  unfolding apply_data
  apply_data-session = rw (apply_data, data_covered) refl

  pub apply_data-applied : (apply_data b f state).applied ≡ b.applied
  unfolding apply_data
  apply_data-applied = rw (apply_data, data_covered) refl

  -- What is left of the reservation covers all but the price of a whole item.
  pub apply_data-unused :
      (b.unused_cost ≤ (apply_data b f state).unused_cost + (length f.payload + queue_item_cost))
      × (b.unused_items ≤ (apply_data b f state).unused_items + 1)
  unfolding apply_data
  apply_data-unused =
      let a = append_backend_write-Appends state f.payload in
      let p = a.price in
      let one = a.one_item in rw (apply_data, data_covered) (omega arith, omega arith)

  pub apply_data-Balanced :
      Balanced
        (apply_data b f state).session
        (hc + (apply_data b f state).unused_cost)
        (hi + (apply_data b f state).unused_items)
  unfolding apply_data write_cost write_items
  apply_data-Balanced =
      let a = append_backend_write-Appends state f.payload in
      let o =
        Balanced-StreamOk b.session f.stream_id (hc + b.unused_cost) (hi + b.unused_items) state ok
          found in
      let appended = append_backend_write state f.payload in
      let exact = data_window-exact in
      let p = a.price in
      let one = a.one_item in
      let ow = o.window in
      let op = o.priced in
      let ab = a.bytes_more in
      let ac = a.cost_more in
      let ai = a.items_more in
      rw (apply_data, data_covered)
        (put_stream-Balanced b.session f.stream_id state after_data (hc + b.unused_cost)
          (hi + b.unused_items) (hc + (b.unused_cost - appended.1.0))
          (hi + (b.unused_items - appended.1.1)) found
          (record {
            window = omega arith;
            priced = omega arith;
            credit = subst (λ n. n ≤ max_uint32) (sym a.same_credit) o.credit;
          })
          (omega arith) (omega arith) ok)

pub apply_window-Balanced :
    (b : Batch) (f : Frame) (state : StreamState) (hc hi : ℕ)
    → lookup f.stream_id b.session.streams ≡ some state
    → Balanced b.session hc hi
    → Balanced (apply_window b f state).session hc hi
unfolding apply_window more_credit write_cost write_items
apply_window-Balanced b f state hc hi h ok =
    let o = Balanced-StreamOk b.session f.stream_id hc hi state ok h in
    put_stream-Balanced b.session f.stream_id state
      (record state { send_credit = more_credit state.send_credit f }) hc hi hc hi h
      (record { window = o.window; priced = o.priced; credit = omega arith }) refl refl ok

pub apply_close-Balanced :
    (b : Batch) (id : ℕ) (state : StreamState) (hc hi : ℕ)
    → lookup id b.session.streams ≡ some state
    → Balanced b.session hc hi
    → Balanced (apply_close b id state).session hc hi
unfolding apply_close
apply_close-Balanced b id state hc hi h ok =
    let unqueued = drop_pending_stream_frames b.session id in
    let kept = drop_pending_stream_frames-Kept b.session id in
    remember_closed-Balanced (drop_stream unqueued id state) id hc hi (
      drop_stream-Balanced unqueued id state hc hi (ap (lookup id) kept.same_streams ∙ h)
        (drop_pending_stream_frames-Balanced b.session id hc hi ok))
