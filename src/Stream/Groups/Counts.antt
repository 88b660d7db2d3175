-- ===== src/Stream/Groups/Counts.antt =====
-- The pending counts of the consumers agree with the pending list of their group.
use kore.Base.{
  ℕ, ◌+◌, ◌-◌, ◌≡◌, refl, Bool, not, Option, none, some, List, [], ◌∷◌, arith, if◌then◌else◌, inl,
  inr, Bytes, same, same_iff, Option-cases, Bool-cases,
}
use kore.Base.Table.{
  Table, lookup, insert, update, or_insert, contains_key, lookup-insert, lookup-remove,
  lookup-update, lookup-or_insert,
}
use kore.Stream.Id.{StreamId}
use kore.Stream.Id.Order.{eq_id_iff_0, eq_id_refl, lt_id_irrefl}
use kore.Stream.Index.{
  Index, find, put, delete, select, ids, Sorted, Above, Above-of_lt, select-Above, select-Sorted,
  find-Above, delete-Sorted,
}
use kore.Stream.State.{PendingEntry, Consumer, ConsumerGroup, owned, new_group}
use kore.Stream.Groups.{
  release, release_found, lose_one, ack_all, set_cursor, create_consumer, del_consumer, delete_all,
  new_consumer,
}

-- The count that a consumer table keeps under a name; a consumer that is not there has none.
unfoldable pub pending_of : Bytes → Table Consumer → ℕ
pending_of n cs = elim (lookup n cs) [ none ↦ 0 | some c ↦ c.pending ]

-- The pending list is in order, and every name has as many entries in it as its count says.
pub record IsCounted (g : ConsumerGroup) : Type 0 where
  pub sorted : Sorted g.pending
  pub counts : (n : Bytes) → pending_of n g.consumers ≡ owned n g.pending

-- 1 for the owner of an entry.
abbrev pub counted : Bytes → Option PendingEntry → ℕ
counted n none = 0
counted n (some pe) = if same pe.consumer n then 1 else 0

pub owned-delete :
    (n : Bytes) (id : StreamId) (m : Index PendingEntry)
    → owned n (delete id m) + counted n (find id m) ≡ owned n m
unfolding owned delete find
owned-delete n id [] = refl
owned-delete n id ((j, pe) ∷ m) = ground (arith, owned-delete n id m)

pub owned-put :
    (n : Bytes) (id : StreamId) (pe : PendingEntry) (m : Index PendingEntry)
    → Sorted m
    → owned n (put id pe m) + counted n (find id m) ≡ owned n m + counted n (some pe)
unfolding owned put find
owned-put n id pe [] s = ground arith
owned-put n id pe ((j, q) ∷ m) s = ground (
  arith,
  owned-put n id pe m s.1,
  Above-of_lt id j m,
  find-Above id m,
  eq_id_iff_0 j id,
  lt_id_irrefl id,
)

pub pending_of-lose :
    (n k : Bytes) (cs : Table Consumer)
    → pending_of n (update k lose_one cs)
      ≡ (if same k n then pending_of n cs - 1 else pending_of n cs)
unfolding pending_of lose_one
pending_of-lose n k cs = ground (arith, lookup-update k n lose_one cs)

pub contains_key-lose :
    (j k : Bytes) (cs : Table Consumer) → contains_key k (update j lose_one cs) ≡ contains_key k cs
unfolding contains_key
contains_key-lose j k cs = ground (arith, lookup-update j k lose_one cs)

-- Taking an entry off the pending list keeps the counts right.
pub release-IsCounted : (id : StreamId) (g : ConsumerGroup) → IsCounted g → IsCounted (release id g)
unfolding release
release-IsCounted id g c = elim (Option-cases (find id g.pending)) [
  | inl e ↦ rw (e, release_found) c
  | inr (pe, e) ↦
      rw (e, release_found)
        (record {
          sorted = delete-Sorted id g.pending c.sorted;
          counts = λ n. ground (
            arith,
            pending_of-lose n pe.consumer g.consumers,
            owned-delete n id g.pending,
            c.counts n,
          );
        })
]

-- XACK keeps the counts right.
pub ack_all-IsCounted :
    (targets : List StreamId) (g : ConsumerGroup) → IsCounted g → IsCounted (ack_all targets g).0
unfolding ack_all
ack_all-IsCounted [] g c = c
ack_all-IsCounted (id ∷ rest) g c = ack_all-IsCounted rest (release id g) (release-IsCounted id g c)

pending_of-insert :
    (n k : Bytes) (c : Consumer) (cs : Table Consumer)
    → pending_of n (insert k c cs) ≡ (if same k n then c.pending else pending_of n cs)
unfolding pending_of
pending_of-insert n k c cs = ground (arith, lookup-insert k n c cs)

pub pending_of-or_insert :
    (n k : Bytes) (now : ℕ) (cs : Table Consumer)
    → pending_of n (or_insert k (new_consumer k now) cs) ≡ pending_of n cs
unfolding pending_of new_consumer
pending_of-or_insert n k now cs =
    ground (arith, lookup-or_insert k n (new_consumer k now) cs, same_iff k n)

pub create_consumer-IsCounted :
    (now : ℕ) (name : Bytes) (g : ConsumerGroup)
    → IsCounted g
    → IsCounted (create_consumer now name g).0
unfolding create_consumer contains_key pending_of new_consumer
create_consumer-IsCounted now name g c = record {
  sorted = ground (arith, c.sorted);
  counts = λ n. ground (
    arith,
    lookup-insert name n (new_consumer name now) g.consumers,
    same_iff name n,
    c.counts n,
  );
}

delete_all-cons :
    (j : StreamId) (v : PendingEntry) (x m : Index PendingEntry)
    → Above j x
    → delete_all (ids x) ((j, v) ∷ m) ≡ (j, v) ∷ delete_all (ids x) m
unfolding delete_all delete
delete_all-cons j v [] m h = refl
delete_all-cons j v ((k, w) ∷ x) m h =
    ground (arith, eq_id_iff_0 j k, lt_id_irrefl j, delete_all-cons j v x (delete k m) h.1)

-- Deleting the selected entries one by one keeps the others.
delete_all-select :
    (p : StreamId → PendingEntry → Bool) (m : Index PendingEntry)
    → Sorted m
    → delete_all (ids (select p m)) m ≡ select (λ id pe. not (p id pe)) m
unfolding select delete_all delete
delete_all-select p [] s = refl
delete_all-select p ((j, v) ∷ m) s = ground (
  arith,
  delete_all-select p m s.1,
  delete_all-cons j v (select p m) m (select-Above p j m s.0),
  eq_id_refl j,
)

owned-select :
    (n name : Bytes) (m : Index PendingEntry)
    → owned n (select (λ _ pe. not (same pe.consumer name)) m)
      ≡ (if same name n then 0 else owned n m)
unfolding owned select
owned-select n name [] = ground arith
owned-select n name ((j, v) ∷ m) =
    ground (
      arith,
      owned-select n name m,
      same_iff v.consumer n,
      same_iff v.consumer name,
      same_iff name n,
    )

pub del_consumer-IsCounted :
    (name : Bytes) (g : ConsumerGroup) → IsCounted g → IsCounted (del_consumer name g).0
unfolding del_consumer
del_consumer-IsCounted name g c = elim (Bool-cases (contains_key name g.consumers)) [
  | inr e ↦ rw e c
  | inl e ↦ rw e (record {
    sorted =
        rw (delete_all-select (λ _ pe. same pe.consumer name) g.pending c.sorted)
          (select-Sorted _ g.pending c.sorted);
    counts = λ n. rw (delete_all-select (λ _ pe. same pe.consumer name) g.pending c.sorted) (
        unfold pending_of in
        ground
          (arith, lookup-remove name n g.consumers, owned-select n name g.pending, c.counts n));
  })
]

pub set_cursor-IsCounted :
    (id : StreamId) (read : Option ℕ) (g : ConsumerGroup)
    → IsCounted g
    → IsCounted (set_cursor id read g).0
unfolding set_cursor
set_cursor-IsCounted id none g c = record { sorted = c.sorted; counts = c.counts }
set_cursor-IsCounted id (some v) g c = record { sorted = c.sorted; counts = c.counts }

pub new_group-IsCounted :
    (name : Bytes) (id : StreamId) (read : Option ℕ)
    → IsCounted (record (new_group name id) { entries_read = read })
unfolding new_group pending_of owned lookup
new_group-IsCounted name id read = record { sorted = tt; counts = λ n. refl }
