-- ===== src/Stream/Snapshot/Restored.antt =====
-- What an import restores: the log, and pending counts that are right whatever the snapshot says.
use kore.Base.{
  suc, ◌+◌, ◌≡◌, refl, ap, sym, ◌∙◌, subst, true, false, some, List, [], ◌∷◌, ◌++◌, arith,
  if◌then◌else◌, Bytes, same, same_iff, same_refl, Option-cases, inl, inr,
}
use kore.Base.Table.{
  Table, lookup, contains_key, update, or_insert, lookup-update, lookup-or_insert,
}
use kore.Stream.Id.{StreamId, lt_id}
use kore.Stream.Index.{Index, put, last_key, Sorted, Above, Below, put-Sorted, put_last}
use kore.Stream.State.{
  StreamEntry, PendingEntry, Consumer, ConsumerGroup, RedisStream, new_group, owned,
}
use kore.Stream.State.Log.{IsLog, AtMost}
use kore.Stream.Groups.{gain_one}
use kore.Stream.Groups.Counts.{pending_of, IsCounted}
use kore.Stream.Groups.Accounts.{AllCounted, insert-AllCounted}
use kore.Stream.Reading.Delivery.{Keyed}
use kore.Stream.Snapshot.{
  GroupSnapshot, StreamStateSnapshot, export_entries, export_state, import_entries,
  import_consumers, import_pending, zero_counts, count_pending, import_group, import_groups, top_id,
  import_state,
}

-- The owner of every pending entry is a consumer.
abbrev AllOwned : Index PendingEntry → Table Consumer → Type 0
AllOwned [] cs = Unit
AllOwned ((id, pe) ∷ m) cs = (contains_key pe.consumer cs ≡ true) × AllOwned m cs

-- The owners stay when no consumer goes.
AllOwned-mono :
    (m : Index PendingEntry) (cs cs' : Table Consumer)
    → ((k : Bytes) → contains_key k cs ≡ true → contains_key k cs' ≡ true)
    → AllOwned m cs
    → AllOwned m cs'
AllOwned-mono [] cs cs' h a = tt
AllOwned-mono ((id, pe) ∷ m) cs cs' h a = (h pe.consumer a.0, AllOwned-mono m cs cs' h a.1)

contains_key-gain :
    (j k : Bytes) (cs : Table Consumer) → contains_key k (update j gain_one cs) ≡ contains_key k cs
unfolding contains_key
contains_key-gain j k cs = ground (arith, lookup-update j k gain_one cs)

pending_of-gain :
    (n k : Bytes) (cs : Table Consumer)
    → contains_key k cs ≡ true
    → pending_of n (update k gain_one cs)
      ≡ (if same k n then suc (pending_of n cs) else pending_of n cs)
unfolding pending_of gain_one contains_key
pending_of-gain n k cs h = ground (arith, lookup-update k n gain_one cs, same_iff k n)

pending_of-count_pending :
    (n : Bytes) (m : Index PendingEntry) (cs : Table Consumer)
    → AllOwned m cs
    → pending_of n (count_pending cs m) ≡ pending_of n cs + owned n m
unfolding count_pending owned
pending_of-count_pending n [] cs a = omega arith
pending_of-count_pending n ((id, pe) ∷ m) cs a =
    let later =
      pending_of-count_pending n m (update pe.consumer gain_one cs)
        (AllOwned-mono m cs _ (λ k h. contains_key-gain pe.consumer k cs ∙ h) a.1) in
    let here = pending_of-gain n pe.consumer cs a.0 in ground arith

zero_counts_lem :
    (n : Bytes) (cs : Table Consumer)
    → (pending_of n (zero_counts cs) ≡ 0) × (contains_key n (zero_counts cs) ≡ contains_key n cs)
unfolding pending_of zero_counts lookup contains_key
zero_counts_lem n [] = (refl, refl)
zero_counts_lem n ((k, c) ∷ cs) = ground (arith, zero_counts_lem n cs)

put-AllOwned :
    (id : StreamId) (pe : PendingEntry) (m : Index PendingEntry) (cs : Table Consumer)
    → contains_key pe.consumer cs ≡ true
    → AllOwned m cs
    → AllOwned (put id pe m) cs
unfolding put
put-AllOwned id pe [] cs h a = (h, tt)
put-AllOwned id pe ((j, w) ∷ m) cs h a = ground (arith, put-AllOwned id pe m cs h a.1)

contains_key-or_insert :
    (k j : Bytes) (c : Consumer) (cs : Table Consumer)
    → contains_key j (or_insert k c cs) ≡ (if same k j then true else contains_key j cs)
unfolding contains_key
contains_key-or_insert k j c cs = ground (arith, lookup-or_insert k j c cs)

import_pending-AllOwned :
    (pes : List PendingEntry) (g : ConsumerGroup)
    → Sorted g.pending
    → AllOwned g.pending g.consumers
    → Sorted (import_pending g pes).pending
      × AllOwned (import_pending g pes).pending (import_pending g pes).consumers
unfolding import_pending
import_pending-AllOwned [] g s a = (s, a)
import_pending-AllOwned (pe ∷ pes) g s a =
    let c : Consumer = record {
      name = pe.consumer;
      seen_time_ms = pe.delivery_time_ms;
      pending = 0;
    } in
    import_pending-AllOwned pes _ (put-Sorted pe.id pe g.pending s) (
      put-AllOwned pe.id pe g.pending (or_insert pe.consumer c g.consumers)
        (ground (
          arith,
          contains_key-or_insert pe.consumer pe.consumer c g.consumers,
          same_refl pe.consumer,
        ))
        (AllOwned-mono g.pending g.consumers _
          (λ k h. ground (arith, contains_key-or_insert pe.consumer k c g.consumers)) a))

import_group-IsCounted : (gs : GroupSnapshot) → IsCounted (import_group gs)
unfolding import_group new_group
import_group-IsCounted gs =
    let fresh = new_group gs.name gs.last_delivered_id in
    let g =
      import_pending (record fresh { consumers = import_consumers fresh.consumers gs.consumers })
        gs.pending in
    let (s, a) =
      import_pending-AllOwned gs.pending
        (record fresh { consumers = import_consumers fresh.consumers gs.consumers }) tt tt in
    record {
      sorted = s;
      counts = λ n.
          let c = pending_of-count_pending n g.pending (zero_counts g.consumers) (
            AllOwned-mono g.pending g.consumers (zero_counts g.consumers)
              (λ k h. (zero_counts_lem k g.consumers).1 ∙ h) a) in
          omega (arith, c, (zero_counts_lem n g.consumers).0);
    }

import_groups-AllCounted :
    (gss : List GroupSnapshot) (groups : Table ConsumerGroup)
    → AllCounted groups
    → AllCounted (import_groups groups gss)
unfolding import_groups
import_groups-AllCounted [] groups a = a
import_groups-AllCounted (gs ∷ gss) groups a =
    import_groups-AllCounted gss _
      (insert-AllCounted gs.name (import_group gs) groups (import_group-IsCounted gs) a)

append_nil : (m : Index StreamEntry) → m ≡ m ++ []
append_nil [] = refl
append_nil (x ∷ m) = ap (λ n. x ∷ n) (append_nil m)

snoc_append :
    (x : StreamId × StreamEntry) (before m : Index StreamEntry)
    → (before ++ x ∷ []) ++ m ≡ before ++ x ∷ m
snoc_append x [] m = refl
snoc_append x (y ∷ before) m = ap (λ n. y ∷ n) (snoc_append x before m)

Above-middle :
    (a j : StreamId) (e : StreamEntry) (before m : Index StreamEntry)
    → Above a (before ++ (j, e) ∷ m)
    → lt_id a j ≡ true
Above-middle a j e [] m h = h.0
Above-middle a j e ((i, v) ∷ before) m h = Above-middle a j e before m h.1

Sorted-Below :
    (j : StreamId) (e : StreamEntry) (before m : Index StreamEntry)
    → Sorted (before ++ (j, e) ∷ m)
    → Below j before
Sorted-Below j e [] m s = tt
Sorted-Below j e ((i, v) ∷ before) m s =
    (Above-middle i j e before m s.0, Sorted-Below j e before m s.1)

import_entries-export :
    (m before : Index StreamEntry)
    → Sorted (before ++ m)
    → Keyed m
    → import_entries before (export_entries m) ≡ before ++ m
unfolding import_entries export_entries
import_entries-export [] before s k = append_nil before
import_entries-export ((j, e) ∷ m) before s k =
    let last : put e.id e before ≡ before ++ (j, e) ∷ [] =
      ap (λ id. put id e before) k.1 ∙ put_last j e before (Sorted-Below j e before m s) in
    let moved = snoc_append (j, e) before m in
    ap (λ b. import_entries b (export_entries m)) last
    ∙ import_entries-export m (before ++ (j, e) ∷ []) (subst Sorted (sym moved) s) k.2
    ∙ moved

last_key-AtMost :
    (top k : StreamId) (m : Index StreamEntry)
    → AtMost top m
    → last_key m ≡ some k
    → lt_id top k ≡ false
unfolding last_key
last_key-AtMost top k [] a e = ground arith
last_key-AtMost top k ((j, v) ∷ m) a e = ground (arith, last_key-AtMost top k m a.1)

top_id_lem : (top : StreamId) (m : Index StreamEntry) → AtMost top m → top_id (last_key m) top ≡ top
unfolding top_id
top_id_lem top m a = elim (Option-cases (last_key m)) [
  | inl p ↦ rw p refl
  | inr (k, p) ↦ rw (p, top_id, last_key-AtMost top k m a p) refl
]

-- An exported log comes back from an import: the same entries under the same IDs, and the same last
-- generated ID. The log is in order, and every entry has its key as its ID.
pub import_state-export_state :
    (s : RedisStream)
    → IsLog s
    → Keyed s.entries
    → ((import_state (export_state s)).entries ≡ s.entries)
      × ((import_state (export_state s)).last_generated_id ≡ s.last_generated_id)
unfolding import_state export_state
import_state-export_state s l k =
    let e = import_entries-export s.entries [] l.sorted k in
    (
      e,
      ap (λ m. top_id (last_key m) s.last_generated_id) e
          ∙ top_id_lem s.last_generated_id s.entries l.bounded,
    )

-- Whatever a snapshot says of the counts of its consumers, after its import they are right: every
-- consumer of every group has as many pending entries as its count says.
pub import_state-AllCounted : (state : StreamStateSnapshot) → AllCounted (import_state state).groups
unfolding import_state
import_state-AllCounted state = import_groups-AllCounted state.groups [] tt
