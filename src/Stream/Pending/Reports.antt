-- ===== src/Stream/Pending/Reports.antt =====
-- What the two forms of XPENDING report: `xpending_range` and `xpending_summary` of
-- src/stream_type.rs.
use kore.Base.{
  ℕ, zero, suc, ◌+◌, ◌-◌, ◌≡◌, refl, ap, ◌∙◌, Bool, false, Option, none, some, [], ◌∷◌, arith, leb,
  if◌then◌else◌, length, Bytes, same, same_iff, max, take, Bool-cases, inl, inr,
}
use kore.Base.Table.{
  Table, lookup, contains_key, update, or_insert, Distinct, insert-Distinct, lookup-update,
  lookup-or_insert,
}
use kore.Stream.Id.{StreamId, lt_id}
use kore.Stream.Index.{Index, select, values, last_key}
use kore.Stream.State.{PendingEntry, ConsumerGroup, RedisStream, ok, owned}
use kore.Stream.Ranges.{between}
use kore.Stream.Groups.Counts.{pending_of, IsCounted}
use kore.Stream.Pending.{
  wanted, collect, xpending_range, count_owners, insert_by_name, sort_by_name, first_key,
  PendingSummary, xpending_summary,
}

collect-eq-take :
    (p : PendingEntry → Bool) (count found : ℕ) (m : Index PendingEntry)
    → collect p count found m ≡ take (suc (count - suc found)) (values (select (λ id. p) m))
unfolding collect select
collect-eq-take p count found [] = refl
collect-eq-take p count found ((id, pe) ∷ m) = elim (Bool-cases (p pe)) [
  | inr q ↦ rw q (collect-eq-take p count found m)
  | inl q ↦ elim (Bool-cases (leb count (suc found))) [
    | inl stop ↦ let last : count - suc found ≡ 0 = ground arith in rw (q, stop, last) refl
    | inr more ↦
        let left : count - suc found ≡ suc (count - suc (suc found)) = ground arith in
        rw (q, more, left) (ap (λ l. pe ∷ l) (collect-eq-take p count (suc found) m))
  ]
]

-- XPENDING with a range and a count returns the first entries of the range, in order, that are of the
-- consumer and idle long enough, as many as the count says, but one if it is 0. The group is there
-- and the start is not after the end.
pub xpending_range_lem :
    (now : ℕ) (group_name : Bytes) (start end : StreamId) (count : ℕ) (consumer : Option Bytes)
    (min_idle : ℕ) (g : ConsumerGroup) (s : RedisStream)
    → lookup group_name s.groups ≡ some g
    → lt_id end start ≡ false
    → xpending_range now group_name start end count consumer min_idle s
      ≡ some (
          ok (
            take
              (max 1 count)
              (values (select (λ id. wanted now consumer min_idle) (between start end g.pending)))))
unfolding xpending_range
xpending_range_lem now group_name start end count consumer min_idle g s e h =
    let shown =
      collect-eq-take (wanted now consumer min_idle) count 0 (between start end g.pending) in
    let one_or_more : suc (count - 1) ≡ max 1 count = omega arith in
    let picked =
      values (select (λ id. wanted now consumer min_idle) (between start end g.pending)) in
    rw (e, xpending_range, h) (ap (λ l. some (ok l)) (shown ∙ ap (λ n. take n picked) one_or_more))

-- A count as a lookup finds it: names without entries are not there.
abbrev pub listed : ℕ → Option ℕ
listed zero = none
listed (suc n) = some (suc n)

bump_lem :
    (n k : Bytes) (c : ℕ) (t : Table ℕ)
    → lookup n t ≡ listed c
    → lookup n (update k suc (or_insert k 0 t)) ≡ listed (if same k n then suc c else c)
bump_lem n k zero t h =
    ground (arith, lookup-update k n suc (or_insert k 0 t), lookup-or_insert k n 0 t, same_iff k n)
bump_lem n k (suc c) t h =
    ground (arith, lookup-update k n suc (or_insert k 0 t), lookup-or_insert k n 0 t, same_iff k n)

count_owners_lem :
    (n : Bytes) (m : Index PendingEntry) (t : Table ℕ) (k : ℕ)
    → lookup n t ≡ listed k
    → lookup n (count_owners m t) ≡ listed (owned n m + k)
unfolding count_owners owned
count_owners_lem n [] t k h = h ∙ ap listed (omega arith)
count_owners_lem n ((id, pe) ∷ m) t k h =
    count_owners_lem n m _ _ (bump_lem n pe.consumer k t h) ∙ ap listed same_sum
  where
    same_sum :
        owned n m + (if same pe.consumer n then suc k else k)
        ≡ (if same pe.consumer n then suc (owned n m) else owned n m) + k
    same_sum = ground arith

update-Distinct : (k : Bytes) (f : ℕ → ℕ) (t : Table ℕ) → Distinct t → Distinct (update k f t)
unfolding update lookup
update-Distinct k f [] d = tt
update-Distinct k f ((j, c) ∷ t) d =
    ground (arith, update-Distinct k f t d.1, lookup-update k j f t)

count_owners-Distinct :
    (m : Index PendingEntry) (t : Table ℕ) → Distinct t → Distinct (count_owners m t)
unfolding count_owners or_insert
count_owners-Distinct [] t d = d
count_owners-Distinct ((id, pe) ∷ m) t d = count_owners-Distinct m _ (
    update-Distinct pe.consumer suc (or_insert pe.consumer 0 t)
      (elim (Bool-cases (contains_key pe.consumer t)) [
        | inl p ↦ rw p d
        | inr p ↦ rw p (insert-Distinct pe.consumer 0 t d)
      ]))

lookup-insert_by_name :
    (j k : Bytes) (n : ℕ) (t : Table ℕ)
    → lookup k t ≡ none
    → lookup j (insert_by_name k n t) ≡ (if same k j then some n else lookup j t)
unfolding lookup insert_by_name
lookup-insert_by_name j k n [] h = refl
lookup-insert_by_name j k n ((i, c) ∷ t) h =
    ground (arith, lookup-insert_by_name j k n t, same_iff i k, same_iff k j, same_iff i j)

lookup-sort_by_name :
    (j : Bytes) (t : Table ℕ) → Distinct t → lookup j (sort_by_name t) ≡ lookup j t
unfolding lookup sort_by_name
lookup-sort_by_name j [] d = refl
lookup-sort_by_name j ((k, n) ∷ t) d = ground (
  arith,
  lookup-insert_by_name j k n (sort_by_name t),
  lookup-sort_by_name k t d.1,
  lookup-sort_by_name j t d.1,
)

-- The summary of XPENDING lists each consumer with the count that the group keeps of it, and the
-- consumers without pending entries not at all. The counts of the group are right.
pub xpending_summary_lem :
    (group_name n : Bytes) (g : ConsumerGroup) (s : RedisStream)
    → lookup group_name s.groups ≡ some g
    → IsCounted g
    → (r : PendingSummary) × (xpending_summary group_name s ≡ ok r)
      × (r.total ≡ length g.pending)
      × (lookup n r.consumers ≡ listed (pending_of n g.consumers))
unfolding xpending_summary lookup
xpending_summary_lem group_name n g s e c = (summary, reported, refl, counted_once)
  where
    summary : PendingSummary
    summary = record {
      total = length g.pending;
      min_id = first_key g.pending;
      max_id = last_key g.pending;
      consumers = sort_by_name (count_owners g.pending []);
    }

    reported : xpending_summary group_name s ≡ ok summary
    reported = rw (e, xpending_summary) refl

    counted_once :
        lookup n (sort_by_name (count_owners g.pending [])) ≡ listed (pending_of n g.consumers)
    counted_once =
        lookup-sort_by_name n (count_owners g.pending []) (count_owners-Distinct g.pending [] tt)
        ∙ count_owners_lem n g.pending [] 0 refl
        ∙ ap listed (omega (arith, c.counts n))
