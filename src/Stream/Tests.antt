-- ===== src/Stream/Tests.antt =====
-- Runs of the stream operations of src/stream_type.rs on small logs and groups.
use kore.Base.{
  ℕ, zero, suc, ◌+◌, ◌-◌, ◌≤◌, ◌<◌, ◌≡◌, ◌≢◌, refl, ap, Bool, true, false, not, ◌&&◌, Option, none,
  some, List, [], ◌∷◌, ◌++◌, arith, same_iff, if◌then◌else◌, leb, ltb, length, Bytes, ◌⊎◌, inl, inr,
  ◌↔◌, min, max, take, drop,
}
use kore.Base.Table.{Table, lookup, Distinct}
use kore.Stream.Id.{
  StreamId, Chars, u64_max, zero_id, max_id, lt_id, eq_id, next_id, to_string_id, parse,
  parse_explicit,
}
use kore.Stream.Id.Order.{IsWord}
use kore.Stream.Index.{Index, find, contains, select, put, values, Sorted, Above, Below}
use kore.Stream.State.{
  StreamEntry, PendingEntry, Consumer, ConsumerGroup, RedisStream, ok, err, id_not_positive,
  id_too_small, new, xadd, forget_in_group, trim_maxlen_limit, trim_minid_limit, at_most, owned,
}
use kore.Stream.State.Log.{IsLog, added_log, xadd_appends, xadd_explicit, xadd_saturated}
use kore.Stream.State.Trim.{trim_maxlen_limit_lem}
use kore.Stream.State.Forget.{FirstPending, IsForgotten, forget_in_group_lem}
use kore.Stream.Groups.{group_create, xdel}
use kore.Stream.Groups.Counts.{IsCounted, pending_of}
use kore.Stream.Groups.Accounts.{AllCounted}
use kore.Stream.Accounting.{Reachable, start, next, added, group_created, Reachable-AllCounted}
use kore.Stream.Ranges.{between, Within, reverse, xrange, xrevrange, xrange_lem}
use kore.Stream.Pending.{wanted, xpending_range}
use kore.Stream.Pending.Reports.{xpending_range_lem}
use kore.Stream.Snapshot.{GroupSnapshot, StreamStateSnapshot, export_state, import_state}
use kore.Stream.Snapshot.Restored.{import_state-export_state, import_state-AllCounted}
use kore.Stream.Reading.{read_new}
use kore.Stream.Reading.Delivery.{Keyed, after, read_new_once}

abbrev workers : Bytes
workers = 119 ∷ []

abbrev ann : Bytes
ann = 97 ∷ []

abbrev bob : Bytes
bob = 98 ∷ []

abbrev star : Chars
star = b'*' ∷ []

abbrev field : Bytes × Bytes
field = (ann, bob)

abbrev fields : List (Bytes × Bytes)
fields = field ∷ []

abbrev first_id : StreamId
first_id = record { ms = 1; seq = 0 }

abbrev second_id : StreamId
second_id = record { ms = 2; seq = 0 }

abbrev third_id : StreamId
third_id = record { ms = 3; seq = 0 }

abbrev first_entry : StreamEntry
first_entry = record { id = first_id; fields = fields }

abbrev second_entry : StreamEntry
second_entry = record { id = second_id; fields = fields }

abbrev third_entry : StreamEntry
third_entry = record { id = third_id; fields = fields }

abbrev two_entries : Index StreamEntry
two_entries = (first_id, first_entry) ∷ (second_id, second_entry) ∷ []

abbrev log : RedisStream
log = record {
  entries = two_entries;
  last_generated_id = second_id;
  entries_added = 2;
  max_deleted_entry_id = zero_id;
  groups = [];
}

abbrev longer_log : RedisStream
longer_log = record {
  entries = (first_id, first_entry) ∷ (second_id, second_entry) ∷ (third_id, third_entry) ∷ [];
  last_generated_id = third_id;
  entries_added = 3;
  max_deleted_entry_id = zero_id;
  groups = [];
}

abbrev last_word : StreamId
last_word = record { ms = 2; seq = 18446744073709551615 }

abbrev full_log : RedisStream
full_log = record {
  entries = (last_word, record { id = last_word; fields = fields }) ∷ [];
  last_generated_id = last_word;
  entries_added = 1;
  max_deleted_entry_id = zero_id;
  groups = [];
}

-- Ann owns one entry and Bob owns another one.
abbrev shared_group : ConsumerGroup
shared_group = record {
  name = workers;
  last_delivered_id = zero_id;
  entries_read = none;
  consumers =
      (ann, record { name = ann; seen_time_ms = 0; pending = 1 })
      ∷ (bob, record { name = bob; seen_time_ms = 0; pending = 1 })
      ∷ [];
  pending =
      (first_id, record { id = first_id; consumer = ann; delivery_time_ms = 0; delivery_count = 1 })
      ∷ (
        second_id,
        record { id = second_id; consumer = bob; delivery_time_ms = 0; delivery_count = 1 },
      )
      ∷ [];
}

-- The count of Ann is wrong and Bob is not there.
abbrev torn_group : GroupSnapshot
torn_group = record {
  name = workers;
  last_delivered_id = second_id;
  pending =
      record { id = first_id; consumer = ann; delivery_time_ms = 0; delivery_count = 1 }
      ∷ record { id = second_id; consumer = bob; delivery_time_ms = 0; delivery_count = 1 }
      ∷ [];
  consumers = record { name = ann; seen_time_ms = 0; pending = 7 } ∷ [];
}

abbrev torn : StreamStateSnapshot
torn = record {
  last_generated_id = zero_id;
  entries = (first_id, fields) ∷ (second_id, fields) ∷ [];
  groups = torn_group ∷ [];
}

abbrev bobs_entry : PendingEntry
bobs_entry = record { id = second_id; consumer = bob; delivery_time_ms = 0; delivery_count = 1 }

first-IsWord : IsWord first_id
first-IsWord = record { ms_fits = omega arith; seq_fits = omega arith }

second-IsWord : IsWord second_id
second-IsWord = record { ms_fits = omega arith; seq_fits = omega arith }

third-IsWord : IsWord third_id
third-IsWord = record { ms_fits = omega arith; seq_fits = omega arith }

zero-IsWord : IsWord zero_id
zero-IsWord = record { ms_fits = omega arith; seq_fits = omega arith }

two-Sorted : Sorted two_entries
unfolding lt_id
two-Sorted = ((refl, tt), (tt, tt))

two-Keyed : Keyed two_entries
two-Keyed = (first-IsWord, refl, (second-IsWord, refl, tt))

log-IsLog : IsLog log
unfolding lt_id
log-IsLog = record { sorted = two-Sorted; bounded = (refl, (refl, tt)) }

full-IsLog : IsLog full_log
unfolding lt_id
full-IsLog = record { sorted = (tt, tt); bounded = (refl, tt) }

log_grows : xadd 3 star fields log ≡ ok (longer_log, third_id)
unfolding xadd kore.Stream.State.assign_id kore.Base.same put kore.Stream.State.next_auto_id
    kore.Stream.Id.saturating_add lt_id eq_id
log_grows = refl

two-Sorted' : Sorted shared_group.pending
unfolding lt_id
two-Sorted' = ((refl, tt), (tt, tt))

shared-IsCounted : IsCounted shared_group
unfolding owned lookup kore.Base.same kore.Stream.Groups.Counts.pending_of lt_id
shared-IsCounted = record {
  sorted = two-Sorted';
  counts = λ n. ground (arith, same_iff ann n, same_iff bob n);
}

bob_found : find second_id shared_group.pending ≡ some bobs_entry
unfolding find eq_id
bob_found = refl

abbrev shared_log : RedisStream
shared_log = record log { groups = (workers, shared_group) ∷ [] }

workers_found : lookup workers shared_log.groups ≡ some shared_group
unfolding lookup kore.Base.same
workers_found = refl

in_order : lt_id second_id first_id ≡ false
unfolding lt_id
in_order = refl

shared-Distinct : Distinct shared_group.consumers
unfolding lookup kore.Base.same
shared-Distinct = (refl, (refl, tt))

zero_not_max : zero_id ≢ max_id
zero_not_max = λ e. ground arith

abbrev one_at_most : Option ℕ
one_at_most = some 1

abbrev one_log : RedisStream
one_log = record {
  entries = (third_id, third_entry) ∷ [];
  last_generated_id = third_id;
  entries_added = 1;
  max_deleted_entry_id = zero_id;
  groups = [];
}

abbrev new_workers : ConsumerGroup
new_workers = record {
  name = workers;
  last_delivered_id = zero_id;
  entries_read = none;
  consumers = [];
  pending = [];
}

abbrev grouped : RedisStream
grouped = record one_log { groups = (workers, new_workers) ∷ [] }

one_added : xadd 3 star fields new ≡ ok (one_log, third_id)
unfolding xadd kore.Stream.State.assign_id kore.Base.same put kore.Stream.State.next_auto_id
    kore.Stream.Id.saturating_add lt_id eq_id new
one_added = refl

workers_created : group_create workers zero_id none one_log ≡ ok grouped
unfolding group_create lookup kore.Base.same kore.Base.Table.contains_key kore.Base.Table.insert
    kore.Stream.State.new_group
workers_created = refl

grouped-Reachable : Reachable grouped
grouped-Reachable =
    next (next start (added 3 star fields third_id one_added))
      (group_created workers zero_id none workers_created)

Reachable-AllCounted_example : AllCounted grouped.groups
Reachable-AllCounted_example = Reachable-AllCounted grouped grouped-Reachable

xrange_lem_example :
    ((lt_id third_id second_id ≡ true)
      × (xrange second_id third_id none log ≡ none)
      × (xrevrange third_id second_id none log ≡ none))
    ⊎ ((low : Index StreamEntry) × (mid : Index StreamEntry) × (high : Index StreamEntry)
        × (log.entries ≡ low ++ mid ++ high)
        × Below second_id low
        × Within second_id third_id mid
        × Above third_id high
        × (xrange second_id third_id none log ≡ some (values mid))
        × (xrevrange third_id second_id none log ≡ some (reverse (values mid))))
xrange_lem_example = xrange_lem second_id third_id log two-Sorted

xpending_range_lem_example :
    xpending_range 9 workers first_id second_id 1 (some bob) 5 shared_log
    ≡ some (
        ok (
          take (max 1 1) (
            values (
              select
                (λ id. wanted 9 (some bob) 5)
                (between first_id second_id shared_group.pending)))))
xpending_range_lem_example =
    xpending_range_lem 9 workers first_id second_id 1 (some bob) 5 shared_group shared_log
      workers_found in_order

import_state-AllCounted_example : AllCounted (import_state torn).groups
import_state-AllCounted_example = import_state-AllCounted torn

import_state-export_state_example :
    ((import_state (export_state log)).entries ≡ log.entries)
    × ((import_state (export_state log)).last_generated_id ≡ log.last_generated_id)
import_state-export_state_example = import_state-export_state log log-IsLog two-Keyed

trim_maxlen_limit_lem_example :
    let (s', n) = trim_maxlen_limit 1 one_at_most log in
    (s'.entries ≡ drop n log.entries)
    × (n ≡ at_most one_at_most (length log.entries - 1))
    × (one_at_most ≡ none → length s'.entries ≤ 1)
trim_maxlen_limit_lem_example = trim_maxlen_limit_lem 1 one_at_most log

xadd_appends_example :
    (longer_log.entries ≡ log.entries ++ (third_id, record { id = third_id; fields = fields }) ∷ [])
    × (lt_id log.last_generated_id third_id ≡ true)
    × (longer_log.last_generated_id ≡ third_id)
    × (longer_log.groups ≡ log.groups)
    × IsLog longer_log
xadd_appends_example =
    xadd_appends 3 star fields log longer_log third_id log-IsLog (omega arith) log_grows

xadd_explicit_example : xadd 3 (to_string_id third_id) (field ∷ []) log ≡ (
    if eq_id third_id zero_id
    then err id_not_positive
    else if lt_id log.last_generated_id third_id
    then ok (added_log third_id (field ∷ []) log, third_id)
    else err id_too_small)
xadd_explicit_example = xadd_explicit 3 third_id field [] log third-IsWord

xadd_saturated_example :
    (s' : RedisStream) × (xadd 1 (b'*' ∷ []) (field ∷ []) full_log
      ≡ ok (s', full_log.last_generated_id))
    × (find full_log.last_generated_id s'.entries
        ≡ some (record { id = full_log.last_generated_id; fields = field ∷ [] }))
    × (contains full_log.last_generated_id full_log.entries ≡ true
        → length s'.entries ≡ length full_log.entries)
xadd_saturated_example = xadd_saturated 1 field [] full_log full-IsLog refl (omega arith)

forget_in_group_lem_example :
    (f : FirstPending shared_group.consumers) × IsForgotten second_id shared_group f
      (forget_in_group second_id shared_group)
    × (IsCounted (forget_in_group second_id shared_group) ↔ (bobs_entry.consumer ≡ f.name))
forget_in_group_lem_example =
    forget_in_group_lem second_id bobs_entry shared_group shared-IsCounted shared-Distinct bob_found

read_new_once_example :
    let (g', es) = read_new 5 ann (some 1) false two_entries shared_group in
    let fresh = values (after shared_group.last_delivered_id two_entries) in
    (es ≡ take (length es) fresh)
    × (values (after g'.last_delivered_id two_entries) ≡ drop (length es) fresh)
read_new_once_example =
    read_new_once 5 ann (some 1) false two_entries shared_group two-Sorted two-Keyed zero-IsWord
      zero_not_max
