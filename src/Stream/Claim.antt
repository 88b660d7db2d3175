-- ===== src/Stream/Claim.antt =====
-- Claiming pending entries in src/stream_type.rs: `xclaim`, `xclaim_force` and `xautoclaim`.
pub mod Counts
use kore.Base.{
  ℕ, zero, suc, ◌+◌, ◌-◌, ◌≤◌, ◌<◌, Bool, true, false, not, ◌&&◌, ◌||◌, Option, none, some, min,
  max, List, [], ◌∷◌, ◌++◌, ltb, leb, ◌==◌, if◌then◌else◌, length, Bytes, same, take, map,
}
use kore.Base.Table.{Table, lookup, contains_key, insert, remove, update, or_insert}
use kore.Stream.Id.{
  StreamId, Chars, zero_id, max_id, lt_id, eq_id, next_id, parse_explicit, parse, saturating_add,
}
use kore.Stream.Index.{Index, find, contains, put, delete, select, ids, values, last_key}
use kore.Stream.State.{
  StreamEntry, PendingEntry, Consumer, ConsumerGroup, RedisStream, StreamError, Result, from_id,
}
use kore.Stream.Groups.{release, lose_one, gain_one, new_consumer, with_group}

pub record XClaimOpts : Type 0 where
  pub min_idle_ms : ℕ
  pub force : Bool
  pub time_ms : Option ℕ
  pub idle_ms : Option ℕ
  pub retrycount : Option ℕ
  pub just_id : Bool

delivery_time : ℕ → XClaimOpts → ℕ
delivery_time now o = elim o.time_ms [
  | some t ↦ t
  | none ↦ elim o.idle_ms [ some idle ↦ now - idle | none ↦ now ]
]

claimed_count : XClaimOpts → ℕ → ℕ
claimed_count o n = elim o.retrycount [
  | some dc ↦ dc
  | none ↦ if not o.just_id then max (saturating_add n 1) 1 else if n == 0 then 1 else n
]

-- The entry of the pending list that a claim works on, or the new one of FORCE.
unfoldable pub pending_or_new : Bytes → StreamId → ℕ → Option PendingEntry → PendingEntry
pending_or_new name id time none = record {
  id = id;
  consumer = name;
  delivery_time_ms = time;
  delivery_count = 0;
}
pending_or_new name id time (some pe) = pe

-- The claimant exists, and was seen now.
unfoldable pub see_consumer : ℕ → Bytes → Table Consumer → Table Consumer
unfolding new_consumer
see_consumer now name cs =
    update name (λ c. record c { seen_time_ms = now }) (or_insert name (new_consumer name now) cs)

-- The counts of the old owner and of the claimant.
move_count : Bytes → PendingEntry → Bool → Table Consumer → Table Consumer
unfolding lose_one gain_one
move_count name pe is_new cs =
    if not (same pe.consumer name)
    then update name gain_one (update pe.consumer lose_one cs)
    else if is_new
    then update name gain_one cs
    else cs

is_none {ℓ} : {A : Type ℓ} → Option A → Bool
is_none none = true
is_none (some a) = false

unfoldable pub take_over : ℕ → Bytes → XClaimOpts → StreamId → ConsumerGroup → ConsumerGroup
unfolding delivery_time claimed_count pending_or_new see_consumer move_count is_none
take_over now name o id g =
    let old = find id g.pending in
    let time = delivery_time now o in
    let pe = pending_or_new name id time old in
    record g {
      consumers = move_count name pe (is_none old) (see_consumer now name g.consumers);
      pending =
          put id
            (record pe {
              consumer = name;
              delivery_time_ms = time;
              delivery_count = claimed_count o pe.delivery_count;
            })
            g.pending;
    }

-- Whether the entry may be claimed: pending and idle for long enough, or FORCE.
may_claim : ℕ → XClaimOpts → Option PendingEntry → Bool
may_claim now o none = o.force
may_claim now o (some pe) = leb o.min_idle_ms (now - pe.delivery_time_ms)

unfoldable pub claim_one :
    ℕ → Bytes → XClaimOpts → Index StreamEntry → StreamId → ConsumerGroup → ConsumerGroup × Bool
unfolding may_claim take_over release
claim_one now name o entries id g =
    if not (contains id entries)
    then (release id g, false)
    else if may_claim now o (find id g.pending)
    then (take_over now name o id g, true)
    else (g, false)

claim_all :
    ℕ
    → Bytes
    → XClaimOpts
    → Index StreamEntry
    → List StreamId
    → ConsumerGroup
    → ConsumerGroup × List StreamId
unfolding claim_one
claim_all now name o entries [] g = (g, [])
claim_all now name o entries (id ∷ rest) g =
    let (g', done) = claim_one now name o entries id g in
    let (g'', claimed) = claim_all now name o entries rest g' in
    (g'', if done then id ∷ claimed else claimed)

unfoldable pub xclaim :
    ℕ
    → Bytes
    → Bytes
    → List StreamId
    → XClaimOpts
    → RedisStream
    → Result (RedisStream × List StreamId)
unfolding with_group claim_all
xclaim now group_name name targets o s =
    with_group group_name s (claim_all now name o s.entries targets)

unfoldable pub xclaim_force :
    ℕ
    → Bytes
    → Bytes
    → List StreamId
    → Option ℕ
    → Option ℕ
    → RedisStream
    → Result (RedisStream × List StreamId)
unfolding xclaim
xclaim_force now group_name name targets time count s =
    xclaim now group_name name targets
      (record {
        min_idle_ms = 0;
        force = true;
        time_ms = time;
        idle_ms = none;
        retrycount = count;
        just_id = false;
      })
      s

-- What the loop of XAUTOCLAIM carries along.
pub record Scan : Type 0 where
  pub group : ConsumerGroup
  pub claimed : List StreamId
  pub deleted : List StreamId
  pub last_examined : Option StreamId

autoclaim_opts : ℕ → Bool → XClaimOpts
autoclaim_opts min_idle just_id = record {
  min_idle_ms = min_idle;
  force = false;
  time_ms = none;
  idle_ms = none;
  retrycount = none;
  just_id = just_id;
}

drop_orphan : StreamId → Scan → Scan
unfolding release
drop_orphan id a = record a {
  group = release id a.group;
  deleted = if contains id a.group.pending then a.deleted ++ id ∷ [] else a.deleted;
}

claim_next : ℕ → Bytes → XClaimOpts → Index StreamEntry → StreamId → Scan → Scan
unfolding claim_one
claim_next now name o entries id a =
    let (g, done) = claim_one now name o entries id a.group in
    record a { group = g; claimed = if done then a.claimed ++ id ∷ [] else a.claimed }

autoclaim_loop : ℕ → Bytes → XClaimOpts → ℕ → Index StreamEntry → List StreamId → Scan → Scan
unfolding drop_orphan claim_next
autoclaim_loop now name o count entries [] a = a
autoclaim_loop now name o count entries (id ∷ rest) a =
    let seen : Scan = record a { last_examined = some id } in
    elim (contains id entries) [
      | false ↦ autoclaim_loop now name o count entries rest (drop_orphan id seen)
      | true ↦ elim (leb count (length a.claimed)) [
        | true ↦ seen
        | false ↦
            let next = claim_next now name o entries id seen in
            elim (leb count (length next.claimed)) [
              | true ↦ next
              | false ↦ autoclaim_loop now name o count entries rest next
            ]
      ]
    ]

first_id {ℓ} : {V : Type ℓ} → Index V → StreamId
first_id [] = zero_id
first_id ((id, v) ∷ m) = id

-- The pending IDs from `start` on that are idle for long enough, or whose entry is gone.
candidates : ℕ → ℕ → StreamId → Index StreamEntry → ConsumerGroup → List StreamId
candidates now min_idle start entries g = ids (
    select (λ id pe. not (contains id entries) || leb min_idle (now - pe.delivery_time_ms))
      (from_id start g.pending))

next_cursor : Index PendingEntry → Option StreamId → StreamId
unfolding first_id
next_cursor pel none = zero_id
next_cursor pel (some last) = first_id (from_id (next_id last) pel)

autoclaim_group :
    ℕ
    → Bytes
    → ℕ
    → StreamId
    → ℕ
    → Bool
    → Index StreamEntry
    → ConsumerGroup
    → ConsumerGroup × (StreamId × List StreamId × List StreamId)
unfolding autoclaim_loop autoclaim_opts candidates next_cursor
autoclaim_group now name min_idle start count just_id entries g =
    let a =
      autoclaim_loop now name (autoclaim_opts min_idle just_id) count entries
        (candidates now min_idle start entries g)
        (record { group = g; claimed = []; deleted = []; last_examined = none }) in
    (a.group, (next_cursor a.group.pending a.last_examined, a.claimed, a.deleted))

unfoldable pub xautoclaim :
    ℕ
    → Bytes
    → Bytes
    → ℕ
    → StreamId
    → ℕ
    → Bool
    → RedisStream
    → Result (RedisStream × (StreamId × List StreamId × List StreamId))
unfolding with_group autoclaim_group
xautoclaim now group_name name min_idle start count just_id s =
    with_group group_name s (autoclaim_group now name min_idle start count just_id s.entries)
