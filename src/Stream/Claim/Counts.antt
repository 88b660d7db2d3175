-- ===== src/Stream/Claim/Counts.antt =====
-- XCLAIM and XAUTOCLAIM keep the pending counts right.
use kore.Base.{
  ℕ, ◌+◌, ◌-◌, ◌≡◌, refl, Bool, true, ◌&&◌, none, some, List, [], ◌∷◌, arith, if◌then◌else◌, inl,
  inr, length, Bytes, same, same_iff, same_refl, Bool-cases, leb,
}
use kore.Base.Table.{Table, update, or_insert, contains_key, lookup-update, lookup-or_insert}
use kore.Stream.Id.{StreamId}
use kore.Stream.Index.{Index, find, contains, put, put-Sorted}
use kore.Stream.State.{PendingEntry, StreamEntry, Consumer, ConsumerGroup, RedisStream, owned, ok}
use kore.Stream.Groups.{lose_one, gain_one, new_consumer}
use kore.Stream.Groups.Counts.{
  IsCounted, pending_of, pending_of-lose, owned-put, release-IsCounted, contains_key-lose,
}
use kore.Stream.Groups.Accounts.{AllCounted, with_group-AllCounted}
use kore.Stream.Claim.{
  XClaimOpts, take_over, pending_or_new, see_consumer, move_count, is_none, delivery_time,
  claimed_count, claim_one, claim_all, may_claim, Scan, drop_orphan, claim_next, autoclaim_loop,
  autoclaim_group, autoclaim_opts, candidates, xclaim, xautoclaim,
}

pub pending_of-see :
    (n k : Bytes) (now : ℕ) (cs : Table Consumer)
    → (pending_of n (see_consumer now k cs) ≡ pending_of n cs)
      × (contains_key k (see_consumer now k cs) ≡ true)
unfolding see_consumer pending_of contains_key new_consumer
pending_of-see n k now cs = (
  ground (
    arith,
    lookup-update k n (λ (c : Consumer). record c { seen_time_ms = now })
        (or_insert k (new_consumer k now) cs),
    lookup-or_insert k n (new_consumer k now) cs,
    same_iff k n,
  ),
  ground (
    arith,
    lookup-update k k (λ (c : Consumer). record c { seen_time_ms = now })
        (or_insert k (new_consumer k now) cs),
    lookup-or_insert k k (new_consumer k now) cs,
    same_refl k,
  ),
)

pending_of-gain :
    (n k : Bytes) (cs : Table Consumer)
    → contains_key k cs ≡ true
    → pending_of n (update k gain_one cs)
      ≡ (if same k n then pending_of n cs + 1 else pending_of n cs)
unfolding pending_of gain_one contains_key
pending_of-gain n k cs h = ground (arith, lookup-update k n gain_one cs, same_iff k n)

-- The counts after a claim, by name.
pending_of-move :
    (n name : Bytes) (pe : PendingEntry) (is_new : Bool) (cs : Table Consumer)
    → contains_key name cs ≡ true
    → pending_of n (move_count name pe is_new cs) ≡ (
        if same pe.consumer name
        then (if is_new && same name n then pending_of n cs + 1 else pending_of n cs)
        else if same name n
        then pending_of n cs + 1
        else if same pe.consumer n
        then pending_of n cs - 1
        else pending_of n cs)
unfolding move_count
pending_of-move n name pe is_new cs h = ground (
  arith,
  contains_key-lose pe.consumer name cs,
  pending_of-gain n name (update pe.consumer lose_one cs),
  pending_of-gain n name cs,
  pending_of-lose n pe.consumer cs,
  same_iff pe.consumer name,
  same_iff pe.consumer n,
  same_iff name n,
)

module _ (now : ℕ) (name : Bytes) (o : XClaimOpts) (id : StreamId) (g : ConsumerGroup) where
  worked_on : PendingEntry
  worked_on = pending_or_new name id (delivery_time now o) (find id g.pending)

  claimed_entry : PendingEntry
  claimed_entry = record worked_on {
    consumer = name;
    delivery_time_ms = delivery_time now o;
    delivery_count = claimed_count o worked_on.delivery_count;
  }

  consumers-take_over :
      (take_over now name o id g).consumers
      ≡ move_count name worked_on (is_none (find id g.pending)) (see_consumer now name g.consumers)
  unfolding take_over worked_on
  consumers-take_over = refl

  pending-take_over : (take_over now name o id g).pending ≡ put id claimed_entry g.pending
  unfolding take_over claimed_entry worked_on
  pending-take_over = refl

  take_over-counts :
      (n : Bytes)
      → IsCounted g
      → pending_of n (
          move_count name worked_on
            (is_none (find id g.pending))
            (see_consumer now name g.consumers))
        ≡ owned n (put id claimed_entry g.pending)
  unfolding worked_on claimed_entry pending_or_new is_none
  take_over-counts n c = ground (
    arith,
    pending_of-move n name worked_on (is_none (find id g.pending))
        (see_consumer now name g.consumers),
    pending_of-see n name now g.consumers,
    pending_of-see name name now g.consumers,
    owned-put n id claimed_entry g.pending c.sorted,
    c.counts n,
    same_refl name,
    same_iff worked_on.consumer n,
    same_iff worked_on.consumer name,
    same_iff name n,
  )

  take_over-IsCounted : IsCounted g → IsCounted (take_over now name o id g)
  take_over-IsCounted c = record {
    sorted = rw pending-take_over (put-Sorted id claimed_entry g.pending c.sorted);
    counts = λ n. rw (consumers-take_over, pending-take_over) (take_over-counts n c);
  }

claim_one-IsCounted :
    (now : ℕ) (name : Bytes) (o : XClaimOpts) (entries : Index StreamEntry) (id : StreamId)
    (g : ConsumerGroup)
    → IsCounted g
    → IsCounted (claim_one now name o entries id g).0
unfolding claim_one
claim_one-IsCounted now name o entries id g c = elim (Bool-cases (contains id entries)) [
  | inr e ↦ rw e (release-IsCounted id g c)
  | inl e ↦ elim (Bool-cases (may_claim now o (find id g.pending))) [
    | inl p ↦ rw (e, p) (take_over-IsCounted now name o id g c)
    | inr p ↦ rw (e, p) c
  ]
]

claim_all-IsCounted :
    (now : ℕ) (name : Bytes) (o : XClaimOpts) (entries : Index StreamEntry)
    (targets : List StreamId) (g : ConsumerGroup)
    → IsCounted g
    → IsCounted (claim_all now name o entries targets g).0
unfolding claim_all
claim_all-IsCounted now name o entries [] g c = c
claim_all-IsCounted now name o entries (id ∷ rest) g c =
    claim_all-IsCounted now name o entries rest (claim_one now name o entries id g).0
      (claim_one-IsCounted now name o entries id g c)

module _ (now : ℕ) (name : Bytes) (o : XClaimOpts) (count : ℕ) (entries : Index StreamEntry) where
  drop_orphan-IsCounted :
      (id : StreamId) (a : Scan) → IsCounted a.group → IsCounted (drop_orphan id a).group
  unfolding drop_orphan
  drop_orphan-IsCounted id a c = release-IsCounted id a.group c

  claim_next-IsCounted :
      (id : StreamId) (a : Scan)
      → IsCounted a.group
      → IsCounted (claim_next now name o entries id a).group
  unfolding claim_next
  claim_next-IsCounted id a c = claim_one-IsCounted now name o entries id a.group c

  autoclaim_loop-IsCounted :
      (todo : List StreamId) (a : Scan)
      → IsCounted a.group
      → IsCounted (autoclaim_loop now name o count entries todo a).group
  unfolding autoclaim_loop
  autoclaim_loop-IsCounted [] a c = c
  autoclaim_loop-IsCounted (id ∷ rest) a c =
      let seen : Scan = record a { last_examined = some id } in
      let next = claim_next now name o entries id seen in
      let next_counted = claim_next-IsCounted id seen c in
      elim (Bool-cases (contains id entries)) [
        | inr e ↦
            rw (e, autoclaim_loop)
              (autoclaim_loop-IsCounted rest (drop_orphan id seen)
                (drop_orphan-IsCounted id seen c))
        | inl e ↦ elim (Bool-cases (leb count (length a.claimed))) [
          | inl p ↦ rw (e, autoclaim_loop) (rw (p, autoclaim_loop) c)
          | inr p ↦ elim (Bool-cases (leb count (length next.claimed))) [
            | inl q ↦
                rw (e, autoclaim_loop)
                  (rw (p, autoclaim_loop) (rw (q, autoclaim_loop) next_counted))
            | inr q ↦
                rw (e, autoclaim_loop)
                  (rw (p, autoclaim_loop)
                    (rw (q, autoclaim_loop) (autoclaim_loop-IsCounted rest next next_counted)))
          ]
        ]
      ]

autoclaim_group-IsCounted :
    (now : ℕ) (name : Bytes) (min_idle : ℕ) (start : StreamId) (count : ℕ) (just_id : Bool)
    (entries : Index StreamEntry) (g : ConsumerGroup)
    → IsCounted g
    → IsCounted (autoclaim_group now name min_idle start count just_id entries g).0
unfolding autoclaim_group
autoclaim_group-IsCounted now name min_idle start count just_id entries g c =
    autoclaim_loop-IsCounted now name (autoclaim_opts min_idle just_id) count entries
      (candidates now min_idle start entries g)
      (record { group = g; claimed = []; deleted = []; last_examined = none }) c

-- XCLAIM keeps the counts of every group right.
pub xclaim-AllCounted :
    (now : ℕ) (group_name name : Bytes) (targets : List StreamId) (o : XClaimOpts)
    (s s' : RedisStream) (r : List StreamId)
    → AllCounted s.groups
    → xclaim now group_name name targets o s ≡ ok (s', r)
    → AllCounted s'.groups
unfolding xclaim
xclaim-AllCounted now group_name name targets o s s' r =
    with_group-AllCounted group_name s s' r (claim_all now name o s.entries targets)
      (claim_all-IsCounted now name o s.entries targets)

-- XAUTOCLAIM keeps the counts of every group right.
pub xautoclaim-AllCounted :
    (now : ℕ) (group_name name : Bytes) (min_idle : ℕ) (start : StreamId) (count : ℕ)
    (just_id : Bool) (s s' : RedisStream) (r : StreamId × List StreamId × List StreamId)
    → AllCounted s.groups
    → xautoclaim now group_name name min_idle start count just_id s ≡ ok (s', r)
    → AllCounted s'.groups
unfolding xautoclaim
xautoclaim-AllCounted now group_name name min_idle start count just_id s s' r =
    with_group-AllCounted group_name s s' r
      (autoclaim_group now name min_idle start count just_id s.entries)
      (autoclaim_group-IsCounted now name min_idle start count just_id s.entries)
