-- ===== src/Stream/Pending.antt =====
-- XPENDING in its two forms: `xpending_range` and `xpending_summary` of src/stream_type.rs.
pub mod Reports
use kore.Base.{
  leb_bytes, ℕ, zero, suc, ◌+◌, ◌-◌, ◌≡◌, refl, ap, sym, ◌∙◌, Bool, true, false, not, ◌&&◌, ◌||◌,
  Option, none, some, List, [], ◌∷◌, arith, ltb, leb, ◌==◌, if◌then◌else◌, length, Bytes, same,
  same_iff, same_refl, max, take, Bool-cases, ◌⊎◌, inl, inr,
}
use kore.Base.Table.{
  Table, lookup, contains_key, insert, update, or_insert, Distinct, insert-Distinct, lookup-update,
  lookup-or_insert,
}
use kore.Stream.Id.{StreamId, lt_id}
use kore.Stream.Index.{Index, select, values, ids, last_key}
use kore.Stream.State.{PendingEntry, ConsumerGroup, RedisStream, Result, ok, err, no_group, owned}
use kore.Stream.Ranges.{between}
use kore.Stream.Groups.Counts.{pending_of, IsCounted}

-- The entry is of the consumer, if one is named, and idle long enough.
unfoldable pub wanted : ℕ → Option Bytes → ℕ → PendingEntry → Bool
wanted now none min_idle pe = not (ltb (now - pe.delivery_time_ms) min_idle)
wanted now (some c) min_idle pe =
    same pe.consumer c && not (ltb (now - pe.delivery_time_ms) min_idle)

-- The loop with `found` entries so far: it stops once it has `count` of them.
unfoldable pub collect : (PendingEntry → Bool) → ℕ → ℕ → Index PendingEntry → List PendingEntry
collect p count found [] = []
collect p count found ((id, pe) ∷ m) =
    let skipped = collect p count found m in
    let rest = collect p count (suc found) m in
    if not (p pe) then skipped else if leb count (suc found) then pe ∷ [] else pe ∷ rest

-- A start after the end has no result, as for XRANGE.
unfoldable pub xpending_range :
    ℕ
    → Bytes
    → StreamId
    → StreamId
    → ℕ
    → Option Bytes
    → ℕ
    → RedisStream
    → Option (Result (List PendingEntry))
xpending_range now group_name start end count consumer min_idle s =
    elim (lookup group_name s.groups) [
      | none ↦ some (err no_group)
      | some g ↦
          if lt_id end start
          then none
          else some
              (ok (collect (wanted now consumer min_idle) count 0 (between start end g.pending)))
    ]

-- `*consumers.entry(..).or_insert(0) += 1` for every entry.
unfoldable pub count_owners : Index PendingEntry → Table ℕ → Table ℕ
count_owners [] t = t
count_owners ((id, pe) ∷ m) t = count_owners m (update pe.consumer suc (or_insert pe.consumer 0 t))

unfoldable pub insert_by_name : Bytes → ℕ → Table ℕ → Table ℕ
insert_by_name k n [] = (k, n) ∷ []
insert_by_name k n ((j, c) ∷ t) =
    if leb_bytes k j then (k, n) ∷ (j, c) ∷ t else (j, c) ∷ insert_by_name k n t

unfoldable pub sort_by_name : Table ℕ → Table ℕ
sort_by_name [] = []
sort_by_name ((k, n) ∷ t) = insert_by_name k n (sort_by_name t)

unfoldable pub first_key : Index PendingEntry → Option StreamId
first_key [] = none
first_key ((id, pe) ∷ m) = some id

pub record PendingSummary : Type 0 where
  pub total : ℕ
  pub min_id : Option StreamId
  pub max_id : Option StreamId
  pub consumers : Table ℕ

unfoldable pub xpending_summary : Bytes → RedisStream → Result PendingSummary
xpending_summary group_name s = elim (lookup group_name s.groups) [
  | none ↦ err no_group
  | some g ↦ ok (record {
    total = length g.pending;
    min_id = first_key g.pending;
    max_id = last_key g.pending;
    consumers = sort_by_name (count_owners g.pending []);
  })
]
