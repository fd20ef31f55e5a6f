-- ===== src/WebProxy/BoundedSet.antt =====
-- webproxy/session_config.go: boundedSet, which remembers the latest values and forgets the oldest.
use tel_ego_openwrt.Base.{
  ℕ, ◌+◌, ◌%◌, List, [], ◌∷◌, ◌++◌, Bool, Option, none, some, ltb, if◌then◌else◌, length, get_or,
  set,
}
use tel_ego_openwrt.Base.Maps.{Map, contains, insert, remove}

-- `order` is a ring of at most `capacity` values, and `next` the place of the oldest once it is full.
pub record BoundedSet : Type 0 where
  pub values : Map (Unit {0})
  pub order : List ℕ
  pub next : ℕ
  pub capacity : ℕ

unfoldable pub new_bounded_set : ℕ → BoundedSet
new_bounded_set capacity = record { values = []; order = []; next = 0; capacity = capacity }

unfoldable pub has : BoundedSet → ℕ → Bool
has s value = contains value s.values

-- boundedSet.Add: the set, and the value that it forgot.
unfoldable pub add : BoundedSet → ℕ → BoundedSet × Option ℕ
unfolding has
add s value =
    let evicted = get_or s.order s.next 0 in
    if has s value
    then (s, none)
    else if ltb (length s.order) s.capacity
    then (record s { values = insert value tt s.values; order = s.order ++ value ∷ [] }, none)
    else (
      record s {
        values = insert value tt (remove evicted s.values);
        order = set s.order s.next value;
        next = (s.next + 1) % length s.order;
      },
      some evicted,
    )
