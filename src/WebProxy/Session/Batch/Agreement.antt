-- ===== src/WebProxy/Session/Batch/Agreement.antt =====
-- webproxy/session.go: what validateBatchLocked and backendWriteReservationLocked know of the streams
-- agrees with what applyBatchLocked finds, frame by frame.
use tel_ego_openwrt.Base.{
  ℕ, ◌+◌, ◌^◌, ◌<◌, Bool, true, false, ◌||◌, none, some, ◌==◌, if◌then◌else◌, length, ◌≡◌, refl,
  sym, ap, subst, ◌∙◌, ◌⊎◌, inl, inr, Bool-cases, Option-cases, ==_iff,
}
use tel_ego_openwrt.Base.Maps.{
  Map, lookup, contains, insert, remove, lookup-insert_here, lookup-insert_there,
  lookup-remove_here, lookup-remove_there,
}
use tel_ego_openwrt.WebProxy.Frame.{Frame}
use tel_ego_openwrt.WebProxy.StreamHistory.{StreamIdHistory}
use tel_ego_openwrt.WebProxy.StreamHistory as History
use tel_ego_openwrt.WebProxy.StreamHistory.Bits.{IsHistory}
use tel_ego_openwrt.WebProxy.StreamHistory.Exact.{contains-add, add-IsHistory}
use tel_ego_openwrt.WebProxy.Session.{StreamState}
use tel_ego_openwrt.WebProxy.Session.Batch.{Batch, apply_late}
use tel_ego_openwrt.WebProxy.Session.Checks.{Checked, StreamSnapshot, whole_snapshot}
use tel_ego_openwrt.WebProxy.Session.Accounts.{Balanced}

-- The stream and the size that a frame of a batch has.
unfoldable pub InRange : Frame → Type 0
InRange f = (f.stream_id < 2 ^ 24) × (length f.payload < 2 ^ 32)

-- A stream number that the session or the batch has used, by validateBatchLocked's tests.
unfoldable pub was_used : StreamIdHistory → Checked → ℕ → Bool
was_used start c id = contains id c.used || History.contains start id

-- The session while a batch is applied. Every live stream is known to validateBatchLocked with its
-- window, and to backendWriteReservationLocked; a stream that only validateBatchLocked holds to be live
-- (one that found no room) is marked as used.
pub record Agrees (start : StreamIdHistory) (c : Checked) (live : Map (Unit {0})) (b : Batch)
    (hc hi : ℕ) : Type 0 where
  pub balanced : Balanced b.session (hc + b.unused_cost) (hi + b.unused_items)
  pub history : IsHistory b.session.used_streams
  pub used : (id : ℕ) → History.contains b.session.used_streams id ≡ was_used start c id
  pub snapshot :
      (id : ℕ) (state : StreamState)
      → lookup id b.session.streams ≡ some state
      → (snap : StreamSnapshot) × ((lookup id c.live ≡ some snap)
          × (snap.receive_window ≡ state.receive_window))
  pub live_used :
      (id : ℕ) (snap : StreamSnapshot) → lookup id c.live ≡ some snap → was_used start c id ≡ true
  pub reserved :
      (id : ℕ) (state : StreamState)
      → lookup id b.session.streams ≡ some state
      → contains id live ≡ true

contains-lookup {ℓ} :
    {V : Type ℓ} (id : ℕ) (v : V) (m : Map V) → lookup id m ≡ some v → contains id m ≡ true
contains-lookup id v m h = rw (contains, h) refl

pub lookup_absent {ℓ} :
    {V : Type ℓ} (id : ℕ) (m : Map V) → contains id m ≡ false → lookup id m ≡ none
lookup_absent id m h = elim (Option-cases (lookup id m)) [
  | inl x ↦ x
  | inr (v, x) ↦ let y = contains-lookup id v m x in absurd (cc)
]

-- The used numbers behind a stream that opens.
module _ (start : StreamIdHistory) (c : Checked) where
  opened_other :
      (id j : ℕ)
      → (j == id) ≡ false
      → was_used start c j ≡ (contains j (insert id tt c.used) || History.contains start j)
  unfolding was_used
  opened_other id j n =
      ap (λ o. elim o [ none ↦ false | some _ ↦ true ] || History.contains start j)
        (sym (lookup-insert_there j id tt c.used n))

  opened_used :
      (id j : ℕ) {seen : Bool}
      → seen ≡ was_used start c j
      → (if j == id then true else seen)
        ≡ (contains j (insert id tt c.used) || History.contains start j)
  opened_used id j e = elim (Bool-cases (j == id)) [
    | inl y ↦ rw y (
        sym (
          ap (λ x. x || History.contains start j)
            (contains-lookup j tt (insert id tt c.used) (lookup-insert_here j id tt c.used y))))
    | inr n ↦ rw n (e ∙ opened_other id j n)
  ]

module _ (start : StreamIdHistory) (c : Checked) (live : Map (Unit {0})) (b : Batch) (hc hi : ℕ)
    (a : Agrees start c live b hc hi) where
  -- A frame of a used stream that has no state changes nothing.
  pub apply_late-same : (id : ℕ) → was_used start c id ≡ true → apply_late b id ≡ b
  unfolding apply_late
  apply_late-same id u = rw (a.used id ∙ u) refl

  -- validateBatchLocked's view may change at a stream without a state.
  pub absent-Agrees :
      (id : ℕ) (c' : Checked)
      → lookup id b.session.streams ≡ none
      → c'.used ≡ c.used
      → ((j : ℕ) → (j == id) ≡ false → lookup j c'.live ≡ lookup j c.live)
      → ((snap : StreamSnapshot) → lookup id c'.live ≡ some snap → was_used start c id ≡ true)
      → Agrees start c' live b hc hi
  unfolding was_used
  absent-Agrees id c' absent u other self = record {
    balanced = a.balanced;
    history = a.history;
    used = λ j. a.used j ∙ ap (λ m. contains j m || History.contains start j) (sym u);
    snapshot = λ j state h. elim (Bool-cases (j == id)) [
      | inl y ↦
          let here = ap (λ i. lookup i b.session.streams) ((==_iff j id).0 y) ∙ absent in
          absurd (cc)
      | inr n ↦ let (snap, (l, w)) = a.snapshot j state h in (snap, (other j n ∙ l, w))
    ];
    live_used = λ j snap h.
        ap (λ m. contains j m || History.contains start j) u ∙ (elim (Bool-cases (j == id)) [
          | inl y ↦
              let e = (==_iff j id).0 y in
              subst (λ i. was_used start c i ≡ true) (sym e)
                (self snap (subst (λ i. lookup i c'.live ≡ some snap) e h))
          | inr n ↦ a.live_used j snap (sym (other j n) ∙ h)
        ]);
    reserved = a.reserved;
  }

  -- A stream's state may change together with validateBatchLocked's view of its window.
  pub present-Agrees :
      (id : ℕ) (old state : StreamState) (snap : StreamSnapshot) (c' : Checked) (b' : Batch)
      → lookup id b.session.streams ≡ some old
      → c'.used ≡ c.used
      → c'.live ≡ insert id snap c.live
      → snap.receive_window ≡ state.receive_window
      → b'.session.streams ≡ insert id state b.session.streams
      → b'.session.used_streams ≡ b.session.used_streams
      → Balanced b'.session (hc + b'.unused_cost) (hi + b'.unused_items)
      → Agrees start c' live b' hc hi
  unfolding was_used
  present-Agrees id old state snap c' b' known u l w st us bal = record {
    balanced = bal;
    history = subst IsHistory (sym us) a.history;
    used = λ j.
        ap (λ h. History.contains h j) us
        ∙ a.used j
        ∙ ap (λ m. contains j m || History.contains start j) (sym u);
    snapshot = λ j found h. elim (Bool-cases (j == id)) [
      | inl y ↦
          let put = lookup-insert_here j id state b.session.streams y in
          let there = sym put ∙ ap (lookup j) (sym st) ∙ h in
          let same : state ≡ found = cc in
          (
            snap,
            (
              ap (lookup j) l ∙ lookup-insert_here j id snap c.live y,
              w ∙ ap (λ x. x.receive_window) same,
            ),
          )
      | inr n ↦
          let before =
            sym (lookup-insert_there j id state b.session.streams n) ∙ ap (lookup j) (sym st) ∙ h in
          let (snap', (l', w')) = a.snapshot j found before in
          (snap', (ap (lookup j) l ∙ lookup-insert_there j id snap c.live n ∙ l', w'))
    ];
    live_used = λ j snap' h.
        ap (λ m. contains j m || History.contains start j) u ∙ (elim (Bool-cases (j == id)) [
          | inl y ↦
              let e = (==_iff j id).0 y in
              let (snap0, (l0, w0)) = a.snapshot id old known in
              subst (λ i. was_used start c i ≡ true) (sym e) (a.live_used id snap0 l0)
          | inr n ↦
              a.live_used j snap'
                (sym (ap (lookup j) l ∙ lookup-insert_there j id snap c.live n) ∙ h)
        ]);
    reserved = λ j found h. elim (Bool-cases (j == id)) [
      | inl y ↦
          let e = (==_iff j id).0 y in
          subst (λ i. contains i live ≡ true) (sym e) (a.reserved id old known)
      | inr n ↦
          a.reserved j found
            (sym (lookup-insert_there j id state b.session.streams n) ∙ ap (lookup j) (sym st) ∙ h)
    ];
  }

  -- A stream that closes leaves all three.
  pub closed-Agrees :
      (id : ℕ) (c' : Checked) (b' : Batch)
      → c'.used ≡ c.used
      → c'.live ≡ remove id c.live
      → b'.session.streams ≡ remove id b.session.streams
      → b'.session.used_streams ≡ b.session.used_streams
      → Balanced b'.session (hc + b'.unused_cost) (hi + b'.unused_items)
      → Agrees start c' (remove id live) b' hc hi
  unfolding was_used
  closed-Agrees id c' b' u l st us bal =
      let kept : (j : ℕ) (state : StreamState)
          → lookup j b'.session.streams ≡ some state
          → ((j == id) ≡ false) × (lookup j b.session.streams ≡ some state) =
        λ j state h. elim (Bool-cases (j == id)) [
          | inl y ↦
              let gone =
                sym (lookup-remove_here j id b.session.streams y) ∙ ap (lookup j) (sym st) ∙ h in
              absurd (cc)
          | inr n ↦
              (n, sym (lookup-remove_there j id b.session.streams n) ∙ ap (lookup j) (sym st) ∙ h)
        ] in
      record {
        balanced = bal;
        history = subst IsHistory (sym us) a.history;
        used = λ j.
            ap (λ h. History.contains h j) us
            ∙ a.used j
            ∙ ap (λ m. contains j m || History.contains start j) (sym u);
        snapshot = λ j state h.
            let (n, before) = kept j state h in
            let (snap, (l', w)) = a.snapshot j state before in
            (snap, (ap (lookup j) l ∙ lookup-remove_there j id c.live n ∙ l', w));
        live_used = λ j snap h.
            ap (λ m. contains j m || History.contains start j) u ∙ (elim (Bool-cases (j == id)) [
              | inl y ↦
                  let gone = sym (lookup-remove_here j id c.live y) ∙ ap (lookup j) (sym l) ∙ h in
                  absurd (cc)
              | inr n ↦
                  a.live_used j snap (sym (ap (lookup j) l ∙ lookup-remove_there j id c.live n) ∙ h)
            ]);
        reserved = λ j state h.
            let (n, before) = kept j state h in
            let r = a.reserved j state before in
            let there = lookup-remove_there j id live n in
            ap (λ o. elim o [ none ↦ false | some _ ↦ true ]) there ∙ r;
      }

  -- A stream that opens is live for both checks and used; its state, if it has found room, is new.
  pub opened-Agrees :
      (id : ℕ) (b' : Batch)
      → id < 2 ^ 24
      → b'.session.used_streams ≡ (History.add b.session.used_streams id).0
      → ((j : ℕ) (state : StreamState)
          → lookup j b'.session.streams ≡ some state
          → (((j == id) ≡ true) × (whole_snapshot.receive_window ≡ state.receive_window))
            ⊎ (((j == id) ≡ false) × (lookup j b.session.streams ≡ some state)))
      → Balanced b'.session (hc + b'.unused_cost) (hi + b'.unused_items)
      → Agrees start
          (record { live = insert id whole_snapshot c.live; used = insert id tt c.used })
          (insert id tt live)
          b'
          hc
          hi
  unfolding was_used
  opened-Agrees id b' r us st bal = record {
    balanced = bal;
    history = subst IsHistory (sym us) (add-IsHistory b.session.used_streams id a.history r);
    used = λ j.
        ap (λ h. History.contains h j) us
        ∙ contains-add b.session.used_streams id a.history r j
        ∙ opened_used start c id j (a.used j);
    snapshot = λ j state h. elim (st j state h) [
      | inl (y, w) ↦ (whole_snapshot, (lookup-insert_here j id whole_snapshot c.live y, w))
      | inr (n, before) ↦
          let (snap, (l, w)) = a.snapshot j state before in
          (snap, (lookup-insert_there j id whole_snapshot c.live n ∙ l, w))
    ];
    live_used = λ j snap h. elim (Bool-cases (j == id)) [
      | inl y ↦
          ap (λ x. x || History.contains start j)
            (contains-lookup j tt (insert id tt c.used) (lookup-insert_here j id tt c.used y))
      | inr n ↦
          sym (opened_other start c id j n)
          ∙ a.live_used j snap (sym (lookup-insert_there j id whole_snapshot c.live n) ∙ h)
    ];
    reserved = λ j state h. elim (st j state h) [
      | inl (y, w) ↦ contains-lookup j tt (insert id tt live) (lookup-insert_here j id tt live y)
      | inr (n, before) ↦
          ap (λ o. elim o [ none ↦ false | some _ ↦ true ]) (lookup-insert_there j id tt live n)
          ∙ a.reserved j state before
    ];
  }

  -- backendWriteReservationLocked may forget a stream without a state.
  pub drop_live-Agrees :
      (id : ℕ) → lookup id b.session.streams ≡ none → Agrees start c (remove id live) b hc hi
  drop_live-Agrees id absent = record {
    balanced = a.balanced;
    history = a.history;
    used = a.used;
    snapshot = a.snapshot;
    live_used = a.live_used;
    reserved = λ j state h. elim (Bool-cases (j == id)) [
      | inl y ↦
          let here = ap (λ i. lookup i b.session.streams) ((==_iff j id).0 y) ∙ absent in
          absurd (cc)
      | inr n ↦
          ap (λ o. elim o [ none ↦ false | some _ ↦ true ]) (lookup-remove_there j id live n)
          ∙ a.reserved j state h
    ];
  }
