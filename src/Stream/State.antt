-- ===== src/Stream/State.antt =====
-- The state of a stream in src/stream_type.rs, and the operations on its log. The clock is an
-- argument, `now`, of each operation that reads it; an operation that fails changes nothing.
pub mod Log
pub mod Trim
pub mod Forget
use kore.Base.{
  ℕ, zero, suc, ◌+◌, ◌-◌, ◌≤◌, ◌<◌, Bool, true, false, not, ◌&&◌, Option, none, some, min, List, [],
  ◌∷◌, ◌++◌, ltb, leb, ◌==◌, if◌then◌else◌, length, Bytes, same, take, map,
}
use kore.Base.Table.{Table}
use kore.Stream.Id.{
  StreamId, Chars, zero_id, max_id, lt_id, eq_id, next_id, parse_explicit, saturating_add,
}
use kore.Stream.Index.{Index, find, contains, put, delete, select, ids, values, last_key}

pub record StreamEntry : Type 0 where
  pub id : StreamId
  pub fields : List (Bytes × Bytes)

pub record PendingEntry : Type 0 where
  pub id : StreamId
  pub consumer : Bytes
  pub delivery_time_ms : ℕ
  pub delivery_count : ℕ

pub record Consumer : Type 0 where
  pub name : Bytes
  pub seen_time_ms : ℕ
  pub pending : ℕ

-- How often a consumer stands in the pending list.
unfoldable pub owned : Bytes → Index PendingEntry → ℕ
owned n [] = 0
owned n ((id, pe) ∷ m) = if same pe.consumer n then suc (owned n m) else owned n m

pub record ConsumerGroup : Type 0 where
  pub name : Bytes
  pub last_delivered_id : StreamId
  pub entries_read : Option ℕ
  pub consumers : Table Consumer
  pub pending : Index PendingEntry

pub record RedisStream : Type 0 where
  pub entries : Index StreamEntry
  pub last_generated_id : StreamId
  pub entries_added : ℕ
  pub max_deleted_entry_id : StreamId
  pub groups : Table ConsumerGroup

pub data StreamError : Type 0 where
  wrong_number_of_args invalid_id id_not_positive id_too_small : StreamError
  busy_group no_group xsetid_too_small : StreamError

pub data Result {ℓ} (A : Type ℓ) : Type ℓ where
  ok : A → Result A
  err : StreamError → Result A

infixl 5 ◌>>=◌
abbrev pub ◌>>=◌ {ℓ κ} : {A : Type ℓ} {B : Type κ} → Result A → (A → Result B) → Result B
ok a >>= f = f a
err e >>= f = err e

unfoldable pub new : RedisStream
new = record {
  entries = [];
  last_generated_id = zero_id;
  entries_added = 0;
  max_deleted_entry_id = zero_id;
  groups = [];
}

unfoldable pub new_group : Bytes → StreamId → ConsumerGroup
new_group name id = record {
  name = name;
  last_delivered_id = id;
  entries_read = none;
  consumers = [];
  pending = [];
}

unfoldable pub next_auto_id : ℕ → StreamId → StreamId
next_auto_id now last =
    if ltb last.ms now
    then record { ms = now; seq = 0 }
    else if now == last.ms
    then record { ms = last.ms; seq = saturating_add last.seq 1 }
    else record { ms = last.ms; seq = saturating_add last.seq 1 }

check_explicit : StreamId → Option StreamId → Result StreamId
check_explicit last none = err invalid_id
check_explicit last (some id) =
    if eq_id id zero_id
    then err id_not_positive
    else if not (lt_id last id)
    then err id_too_small
    else ok id

-- The ID that an `id_spec` stands for: `*` is the next automatic one.
unfoldable pub assign_id : ℕ → Chars → StreamId → Result StreamId
unfolding check_explicit
assign_id now id_spec last =
    if same id_spec (b'*' ∷ [])
    then ok (next_auto_id now last)
    else check_explicit last (parse_explicit id_spec)

abbrev pub has_no_fields : List (Bytes × Bytes) → Bool
has_no_fields [] = true
has_no_fields (f ∷ fs) = false

append_entry : List (Bytes × Bytes) → RedisStream → StreamId → RedisStream × StreamId
append_entry fields s id = (
  record s {
    entries = put id (record { id = id; fields = fields }) s.entries;
    last_generated_id = id;
    entries_added = saturating_add s.entries_added 1;
  },
  id,
)

unfoldable pub xadd :
    ℕ → Chars → List (Bytes × Bytes) → RedisStream → Result (RedisStream × StreamId)
unfolding append_entry
xadd now id_spec fields s =
    if has_no_fields fields
    then err wrong_number_of_args
    else (do id ← assign_id now id_spec s.last_generated_id; ok (append_entry fields s id))

-- The first consumer of a table that has pending entries loses one of them.
drop_first_pending : Table Consumer → Table Consumer
drop_first_pending [] = []
drop_first_pending ((n, c) ∷ cs) =
    let rest = drop_first_pending cs in
    if ltb 0 c.pending then (n, record c { pending = c.pending - 1 }) ∷ cs else (n, c) ∷ rest

pub forget_in_group : StreamId → ConsumerGroup → ConsumerGroup
forget_in_group id g =
    if contains id g.pending
    then record g { pending = delete id g.pending; consumers = drop_first_pending g.consumers }
    else g

forget_in_groups : StreamId → Table ConsumerGroup → Table ConsumerGroup
forget_in_groups id [] = []
forget_in_groups id ((n, g) ∷ gs) = (n, forget_in_group id g) ∷ forget_in_groups id gs

-- `max_deleted_entry_id` after the entry `id` is deleted.
unfoldable pub later_of : StreamId → StreamId → StreamId
later_of id old = if lt_id old id then id else old

unfoldable pub remove_entry_and_pel : StreamId → RedisStream → RedisStream
unfolding forget_in_groups forget_in_group drop_first_pending later_of
remove_entry_and_pel id s =
    if contains id s.entries
    then record s {
      entries = delete id s.entries;
      max_deleted_entry_id = later_of id s.max_deleted_entry_id;
      groups = forget_in_groups id s.groups;
    }
    else record s { groups = forget_in_groups id s.groups }

remove_all : List StreamId → RedisStream → RedisStream
remove_all [] s = s
remove_all (id ∷ rest) s = remove_all rest (remove_entry_and_pel id s)

unfoldable pub at_most : Option ℕ → ℕ → ℕ
at_most none n = n
at_most (some limit) n = min n limit

-- `take` or `truncate` by an optional bound.
unfoldable pub take_opt {ℓ} : {A : Type ℓ} → Option ℕ → List A → List A
take_opt none xs = xs
take_opt (some n) xs = if ltb n (length xs) then take n xs else xs

unfoldable pub trim_maxlen_limit : ℕ → Option ℕ → RedisStream → RedisStream × ℕ
unfolding remove_all at_most remove_entry_and_pel
trim_maxlen_limit max limit s =
    if leb (length s.entries) max
    then (s, 0)
    else (let gone = take (at_most limit (length s.entries - max)) (ids s.entries) in
        (remove_all gone s, length gone))

unfoldable pub trim_minid_limit : StreamId → Option ℕ → RedisStream → RedisStream × ℕ
unfolding remove_all take_opt remove_entry_and_pel
trim_minid_limit minid limit s =
    let gone = take_opt limit (ids (select (λ id _. lt_id id minid) s.entries)) in
    (remove_all gone s, length gone)

trim_after_add :
    Option ℕ → Option StreamId → Option ℕ → RedisStream × StreamId → RedisStream × StreamId
trim_after_add (some max) minid limit (s, id) = ((trim_maxlen_limit max limit s).0, id)
trim_after_add none (some min) limit (s, id) = ((trim_minid_limit min limit s).0, id)
trim_after_add none none limit (s, id) = (s, id)

unfoldable pub xadd_with_trim :
    ℕ
    → Chars
    → List (Bytes × Bytes)
    → Option ℕ
    → Option StreamId
    → Option ℕ
    → RedisStream
    → Result (RedisStream × StreamId)
unfolding xadd trim_after_add trim_maxlen_limit trim_minid_limit
xadd_with_trim now id_spec fields maxlen minid limit s = do
  added ← xadd now id_spec fields s
  ok (trim_after_add maxlen minid limit added)

unfoldable pub from_id {ℓ} : {V : Type ℓ} → StreamId → Index V → Index V
from_id start = select (λ id _. not (lt_id id start))

unfoldable pub xread_after : StreamId → Option ℕ → RedisStream → List StreamEntry
unfolding from_id take_opt
xread_after after count s = take_opt count (values (from_id (next_id after) s.entries))
