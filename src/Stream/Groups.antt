-- ===== src/Stream/Groups.antt =====
-- Deletion and the consumer groups of src/stream_type.rs: `xdel`, `xsetid`, the XGROUP operations
-- and `xack`.
pub mod Counts
pub mod Accounts
use kore.Base.{
  ℕ, zero, suc, ◌+◌, ◌-◌, ◌≤◌, ◌<◌, Bool, true, false, not, ◌&&◌, ◌||◌, Option, none, some, min,
  max, List, [], ◌∷◌, ◌++◌, ltb, leb, ◌==◌, if◌then◌else◌, length, Bytes, same, take, map,
}
use kore.Base.Table.{Table, lookup, contains_key, insert, remove, update, or_insert}
use kore.Stream.Id.{
  StreamId, Chars, zero_id, max_id, lt_id, eq_id, next_id, parse_explicit, parse, saturating_add,
}
use kore.Stream.Index.{Index, find, contains, put, delete, select, ids, values, last_key}
use kore.Stream.State.{
  StreamEntry, PendingEntry, Consumer, ConsumerGroup, RedisStream, StreamError, Result, ok, err,
  invalid_id, busy_group, no_group, xsetid_too_small, ◌>>=◌, new_group, later_of, from_id,
}

-- `c.pending = c.pending.saturating_sub(1)`.
unfoldable pub lose_one : Consumer → Consumer
lose_one c = record c { pending = c.pending - 1 }

unfoldable pub gain_one : Consumer → Consumer
gain_one c = record c { pending = c.pending + 1 }

release_found : StreamId → ConsumerGroup → Option PendingEntry → ConsumerGroup
unfolding lose_one
release_found id g none = g
release_found id g (some pe) = record g {
  pending = delete id g.pending;
  consumers = update pe.consumer lose_one g.consumers;
}

-- Takes `id` off the pending list and off the count of its owner.
unfoldable pub release : StreamId → ConsumerGroup → ConsumerGroup
unfolding release_found
release id g = release_found id g (find id g.pending)

release_in_groups : StreamId → Table ConsumerGroup → Table ConsumerGroup
release_in_groups id [] = []
release_in_groups id ((n, g) ∷ gs) = (n, release id g) ∷ release_in_groups id gs

xdel_one : StreamId → RedisStream → RedisStream
unfolding release_in_groups release later_of
xdel_one id s = record s {
  entries = delete id s.entries;
  max_deleted_entry_id = later_of id s.max_deleted_entry_id;
  groups = release_in_groups id s.groups;
}

unfoldable pub xdel : List StreamId → RedisStream → RedisStream × ℕ
unfolding xdel_one
xdel [] s = (s, 0)
xdel (id ∷ rest) s = elim (contains id s.entries) [
  | true ↦ let (s', n) = xdel rest (xdel_one id s) in (s', suc n)
  | false ↦ xdel rest s
]

unfoldable pub group_create : Bytes → StreamId → Option ℕ → RedisStream → Result RedisStream
group_create name id entries_read s =
    if contains_key name s.groups
    then err busy_group
    else ok (record s {
      groups = insert name (record (new_group name id) { entries_read = entries_read }) s.groups;
    })

unfoldable pub group_destroy : Bytes → RedisStream → RedisStream × Bool
group_destroy name s = (record s { groups = remove name s.groups }, contains_key name s.groups)

-- Runs `f` on the group `name`, and puts the changed group back.
unfoldable pub with_group {ℓ} :
    {A : Type ℓ}
    → Bytes
    → RedisStream
    → (ConsumerGroup → ConsumerGroup × A)
    → Result (RedisStream × A)
with_group name s f = elim (lookup name s.groups) [
  | none ↦ err no_group
  | some g ↦ let (g', a) = f g in ok (record s { groups = insert name g' s.groups }, a)
]

unfoldable pub new_consumer : Bytes → ℕ → Consumer
new_consumer name now = record { name = name; seen_time_ms = now; pending = 0 }

pub create_consumer : ℕ → Bytes → ConsumerGroup → ConsumerGroup × Bool
unfolding new_consumer
create_consumer now name g =
    if contains_key name g.consumers
    then (g, false)
    else (record g { consumers = insert name (new_consumer name now) g.consumers }, true)

unfoldable pub group_create_consumer : ℕ → Bytes → Bytes → RedisStream → Result (RedisStream × Bool)
unfolding with_group create_consumer
group_create_consumer now group_name name s = with_group group_name s (create_consumer now name)

delete_all : List StreamId → Index PendingEntry → Index PendingEntry
delete_all [] m = m
delete_all (id ∷ rest) m = delete_all rest (delete id m)

pub del_consumer : Bytes → ConsumerGroup → ConsumerGroup × ℕ
unfolding delete_all
del_consumer name g =
    if contains_key name g.consumers
    then (let gone = ids (select (λ _ pe. same pe.consumer name) g.pending) in
        (
          record g { pending = delete_all gone g.pending; consumers = remove name g.consumers },
          length gone,
        ))
    else (g, 0)

unfoldable pub group_del_consumer : Bytes → Bytes → RedisStream → Result (RedisStream × ℕ)
unfolding with_group del_consumer
group_del_consumer group_name name s = with_group group_name s (del_consumer name)

pub set_cursor : StreamId → Option ℕ → ConsumerGroup → ConsumerGroup × Unit {0}
set_cursor id none g = (record g { last_delivered_id = id }, tt)
set_cursor id (some v) g = (record g { last_delivered_id = id; entries_read = some v }, tt)

unfoldable pub group_setid :
    Bytes → StreamId → Option ℕ → RedisStream → Result (RedisStream × Unit {0})
unfolding with_group set_cursor
group_setid name id entries_read s = with_group name s (set_cursor id entries_read)

below_top : StreamId → Option StreamId → Bool
below_top id none = false
below_top id (some top) = lt_id id top

or_old {ℓ} : {A : Type ℓ} → Option A → A → A
or_old none a = a
or_old (some b) a = b

unfoldable pub xsetid : StreamId → Option ℕ → Option StreamId → RedisStream → Result RedisStream
unfolding below_top or_old
xsetid id added deleted s =
    if below_top id (last_key s.entries)
    then err xsetid_too_small
    else ok (record s {
      last_generated_id = id;
      entries_added = or_old added s.entries_added;
      max_deleted_entry_id = or_old deleted s.max_deleted_entry_id;
    })

pub ack_all : List StreamId → ConsumerGroup → ConsumerGroup × ℕ
unfolding release
ack_all [] g = (g, 0)
ack_all (id ∷ rest) g =
    let (g', n) = ack_all rest (release id g) in (g', if contains id g.pending then suc n else n)

unfoldable pub xack : Bytes → List StreamId → RedisStream → Result (RedisStream × ℕ)
unfolding with_group ack_all
xack group_name targets s = with_group group_name s (ack_all targets)
