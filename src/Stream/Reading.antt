-- ===== src/Stream/Reading.antt =====
-- XREADGROUP of src/stream_type.rs: new entries for a group, and the history of a consumer.
pub mod Counts
pub mod Delivery
use kore.Base.{
  ℕ, zero, suc, ◌+◌, ◌-◌, ◌≤◌, ◌<◌, Bool, true, false, not, ◌&&◌, ◌||◌, Option, none, some, min,
  max, List, [], ◌∷◌, ◌++◌, ltb, leb, ◌==◌, if◌then◌else◌, length, Bytes, same, take, map,
}
use kore.Base.Table.{Table, lookup, contains_key, insert, remove, update, or_insert}
use kore.Stream.Id.{
  StreamId, Chars, zero_id, max_id, lt_id, eq_id, next_id, parse_explicit, parse, saturating_add,
}
use kore.Stream.Index.{Index, find, contains, put, delete, select, ids, values, last_key}
use kore.Stream.State.{
  StreamEntry, PendingEntry, Consumer, ConsumerGroup, RedisStream, StreamError, Result, ok, err,
  invalid_id, no_group, ◌>>=◌, from_id, owned,
}
use kore.Stream.Groups.{lose_one, with_group}
use kore.Stream.Claim.{see_consumer, pending_or_new}

reached : Option ℕ → ℕ → Bool
reached none n = false
reached (some c) n = leb c n

-- Collects entries until `count` of them are there; the test comes after the push.
collect : Option ℕ → ℕ → List StreamEntry → List StreamEntry
unfolding reached
collect count n [] = []
collect count n (e ∷ es) =
    let rest = collect count (suc n) es in if reached count (suc n) then e ∷ [] else e ∷ rest

-- One new entry is delivered: the cursor moves, and without NOACK the entry is pending.
deliver_pending : ℕ → Bytes → StreamId → ConsumerGroup → ConsumerGroup
deliver_pending now name id g =
    let pe = pending_or_new name id now (find id g.pending) in
    record g {
      consumers =
          if not (same pe.consumer name)
          then update pe.consumer lose_one g.consumers
          else g.consumers;
      pending =
          put id
            (record pe {
              consumer = name;
              delivery_time_ms = now;
              delivery_count = pe.delivery_count + 1;
            })
            g.pending;
    }

deliver_one : ℕ → Bytes → Bool → StreamId → ConsumerGroup → ConsumerGroup
unfolding deliver_pending
deliver_one now name noack id g =
    let g' : ConsumerGroup = record g { last_delivered_id = id } in
    if noack then g' else deliver_pending now name id g'

deliver_all : ℕ → Bytes → Bool → List StreamEntry → ConsumerGroup → ConsumerGroup
unfolding deliver_one
deliver_all now name noack [] g = g
deliver_all now name noack (e ∷ es) g =
    deliver_all now name noack es (deliver_one now name noack e.id g)

-- `c.pending` becomes the number of entries that the consumer owns.
recount : Bytes → ConsumerGroup → ConsumerGroup
unfolding owned
recount name g = record g {
  consumers = update name (λ c. record c { pending = owned name g.pending }) g.consumers;
}

see : ℕ → Bytes → ConsumerGroup → ConsumerGroup
see now name g = record g { consumers = see_consumer now name g.consumers }

unfoldable pub read_new :
    ℕ
    → Bytes
    → Option ℕ
    → Bool
    → Index StreamEntry
    → ConsumerGroup
    → ConsumerGroup × List StreamEntry
unfolding collect deliver_all recount see see_consumer pending_or_new
read_new now name count noack entries g =
    let es = collect count 0 (values (from_id (next_id g.last_delivered_id) entries)) in
    let g' = deliver_all now name noack es (see now name g) in
    (if noack then g' else recount name g', es)

-- The entries of some IDs, as far as they are in the log.
present : Index StreamEntry → List StreamId → List StreamEntry
present entries [] = []
present entries (id ∷ rest) = elim (find id entries) [
  | none ↦ present entries rest
  | some e ↦ e ∷ present entries rest
]

redeliver_found : ℕ → StreamId → ConsumerGroup → Option PendingEntry → ConsumerGroup
redeliver_found now id g none = g
redeliver_found now id g (some pe) = record g {
  pending =
      put id (record pe { delivery_count = pe.delivery_count + 1; delivery_time_ms = now })
        g.pending;
}

redeliver_all : ℕ → List StreamEntry → ConsumerGroup → ConsumerGroup
unfolding redeliver_found
redeliver_all now [] g = g
redeliver_all now (e ∷ es) g =
    redeliver_all now es (redeliver_found now e.id g (find e.id g.pending))

unfoldable pub read_history :
    ℕ
    → Bytes
    → Option ℕ
    → StreamId
    → Index StreamEntry
    → ConsumerGroup
    → ConsumerGroup × List StreamEntry
unfolding collect present redeliver_all see see_consumer
read_history now name count after entries g =
    let mine = select (λ _ pe. same pe.consumer name) (from_id (next_id after) g.pending) in
    let es = collect count 0 (present entries (ids mine)) in
    (redeliver_all now es (see now name g), es)

or_else {ℓ} : {A : Type ℓ} → Option A → Option A → Option A
or_else none b = b
or_else (some a) b = some a

history_start : Chars → Result StreamId
unfolding or_else
history_start id_spec =
    if same id_spec (b'0' ∷ []) || same id_spec (b'0' ∷ b'-' ∷ b'0' ∷ [])
    then ok zero_id
    else elim (or_else (parse_explicit id_spec) (parse id_spec)) [
      | none ↦ err invalid_id
      | some id ↦ ok id
    ]

unfoldable pub xreadgroup_opts :
    ℕ
    → Bytes
    → Bytes
    → Chars
    → Option ℕ
    → Bool
    → RedisStream
    → Result (RedisStream × List StreamEntry)
unfolding with_group read_new read_history history_start
xreadgroup_opts now group_name name id_spec count noack s =
    if not (contains_key group_name s.groups)
    then err no_group
    else if same id_spec (b'>' ∷ [])
    then with_group group_name s (read_new now name count noack s.entries)
    else (do
      after ← history_start id_spec
      with_group group_name s (read_history now name count after s.entries))
