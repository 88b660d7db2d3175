-- ===== src/Cluster/Failover.antt =====
-- Failure detection and failover of src/cluster/state.rs: the votes by which a node fails, the election
-- of a replica, and the take-over of the slots.
pub mod Election
pub mod Quorum
use kore.Base.{
  ℕ, zero, suc, ◌+◌, ◌-◌, ◌/◌, Bool, true, false, not, ◌&&◌, ◌||◌, Option, none, some, List, [],
  ◌∷◌, ◌++◌, ltb, leb, ◌==◌, if◌then◌else◌, Bytes, same, leb_bytes, max, length,
}
use kore.Base.Table.{Table, lookup, contains_key, insert, update}
use kore.Cluster.{
  slot_count, ClusterNode, ClusterState, ClusterError, unknown_node, replicate_myself,
  not_a_replica, master_not_failed, not_the_winner, Reply, ok, err, ◌>>=◌, is_empty, no_slot,
  next_epoch, count_slots, set_node_flags,
}
use kore.Cluster.Slots.{without, drop_suspect, hand_over, owns_any, end_transitions}
use kore.Cluster.Gossip.{or_else}

unfoldable pub with_offset : ℕ → ClusterNode → ClusterNode
with_offset offset n = record n { repl_offset = offset }

unfoldable pub set_local_repl_offset : ℕ → ClusterState → ClusterState
unfolding set_node_flags with_offset
set_local_repl_offset offset g =
    set_node_flags g.my_id (with_offset offset) (record g { local_repl_offset = offset })

unfoldable pub with_priority : ℕ → ClusterNode → ClusterNode
with_priority priority n = record n { repl_priority = priority }

unfoldable pub set_local_repl_priority : ℕ → ClusterState → ClusterState
unfolding set_node_flags with_priority
set_local_repl_priority priority g =
    set_node_flags g.my_id (with_priority priority) (record g { local_repl_priority = priority })

unfoldable pub node_test : (ClusterNode → Bool) → Bytes → ClusterState → Bool
node_test p id g = elim (lookup id g.nodes) [ none ↦ false | some n ↦ p n ]

unfoldable pub names : Option Bytes → Bytes → Bool
names none id = false
names (some x) id = same x id

unfoldable pub replicates : Bytes → ClusterNode → Bool
unfolding names
replicates master_id n = not n.master && names n.master_id master_id

unfoldable pub is_replica_of : Bytes → ClusterState → Bool
unfolding node_test replicates
is_replica_of master_id g = node_test (replicates master_id) g.my_id g

unfoldable pub insert_id : Bytes → List Bytes → List Bytes
insert_id x [] = x ∷ []
insert_id x (y ∷ ys) = if leb_bytes x y then x ∷ y ∷ ys else y ∷ insert_id x ys

unfoldable pub sort_ids : List Bytes → List Bytes
unfolding insert_id
sort_ids [] = []
sort_ids (x ∷ xs) = insert_id x (sort_ids xs)

-- `dedup`: a name that equals the next one goes.
unfoldable pub dedup : List Bytes → List Bytes
dedup [] = []
dedup (x ∷ []) = x ∷ []
dedup (x ∷ y ∷ ys) = let rest = dedup (y ∷ ys) in if same x y then rest else x ∷ rest

unfoldable pub replica_ids : Bytes → Table ClusterNode → List Bytes
unfolding replicates
replica_ids master_id [] = []
replica_ids master_id ((k, n) ∷ m) =
    let rest = replica_ids master_id m in
    if not n.fail && replicates master_id n then n.id ∷ rest else rest

unfoldable pub replicas_of : Bytes → ClusterState → List Bytes
unfolding replica_ids sort_ids dedup
replicas_of master_id g = dedup (sort_ids (replica_ids master_id g.nodes))

-- The priority and the offset of a candidate.
unfoldable pub pri_off : ClusterState → Bytes → ℕ × ℕ
pri_off g id =
    if same id g.my_id
    then (g.local_repl_priority, g.local_repl_offset)
    else elim (lookup id g.nodes) [ none ↦ (100, 0) | some n ↦ (n.repl_priority, n.repl_offset) ]

-- The order of the election: by priority, by offset, by name.
unfoldable pub leb_rank : ClusterState → Bytes → Bytes → Bool
unfolding pri_off
leb_rank g a b =
    let (pa, oa) = pri_off g a in
    let (pb, ob) = pri_off g b in
    ltb pa pb || ((pa == pb) && (ltb oa ob || ((oa == ob) && leb_bytes a b)))

unfoldable pub eligible : ClusterState → List Bytes → List Bytes
unfolding pri_off
eligible g [] = []
eligible g (x ∷ xs) = let rest = eligible g xs in if ltb 0 (pri_off g x).0 then x ∷ rest else rest

-- `max_by` keeps the last of the greatest.
unfoldable pub max_rank : ClusterState → Bytes → List Bytes → Bytes
unfolding leb_rank
max_rank g best [] = best
max_rank g best (x ∷ xs) = max_rank g (if leb_rank g best x then x else best) xs

unfoldable pub best_of : ClusterState → List Bytes → Option Bytes
unfolding max_rank
best_of g [] = none
best_of g (x ∷ xs) = some (max_rank g x xs)

unfoldable pub elect : ClusterState → List Bytes → Option Bytes
unfolding best_of eligible
elect g [] = if g.local_repl_priority == 0 then none else some g.my_id
elect g (x ∷ xs) = best_of g (eligible g (x ∷ xs))

unfoldable pub failover_election_winner : Bytes → ClusterState → Option Bytes
unfolding is_replica_of elect
failover_election_winner failed g =
    if not (is_replica_of failed g) then none else elect g (replicas_of failed g)

unfoldable pub should_claim_on_failover : Bytes → ClusterState → Bool
unfolding failover_election_winner names
should_claim_on_failover failed g = names (failover_election_winner failed g) g.my_id

unfoldable pub confirm_fail : ClusterNode → ClusterNode
confirm_fail n = record n { pfail = false; fail = true }

unfoldable pub mark_fail : Bytes → ClusterState → ClusterState
unfolding set_node_flags confirm_fail
mark_fail id g = if same id g.my_id then g else set_node_flags id confirm_fail g

unfoldable pub recover : ClusterNode → ClusterNode
recover n = record n { pfail = false; fail = false }

unfoldable pub touch_pong : ℕ → Bytes → ClusterState → ClusterState
unfolding recover drop_suspect
touch_pong now id g = record g {
  last_pong = insert id now g.last_pong;
  nodes = update id recover g.nodes;
  fail_reports = drop_suspect id g.fail_reports;
}

unfoldable pub count_nodes : (ClusterNode → Bool) → Table ClusterNode → ℕ
count_nodes p [] = 0
count_nodes p ((k, n) ∷ m) = if p n then suc (count_nodes p m) else count_nodes p m

unfoldable pub live_master : ClusterNode → Bool
live_master n = n.master && not n.fail

unfoldable pub master_count : ClusterState → ℕ
unfolding count_nodes live_master
master_count g = max (count_nodes live_master g.nodes) 1

unfoldable pub fail_quorum_size : ClusterState → ℕ
unfolding master_count
fail_quorum_size g = let m = master_count g in if leb m 2 then 1 else m / 2 + 1

unfoldable pub listed : Bytes → List Bytes → Bool
listed id [] = false
listed id (x ∷ xs) = same x id || listed id xs

-- A set of the names of a list.
unfoldable pub to_set : List Bytes → List Bytes
unfolding listed
to_set [] = []
to_set (x ∷ xs) = let rest = to_set xs in if listed x rest then rest else x ∷ rest

unfoldable pub ingest_fail_reports : Bytes → List Bytes → ClusterState → ClusterState
unfolding is_empty to_set
ingest_fail_reports from suspects g =
    if is_empty from
    then g
    else record g { fail_reports = insert from (to_set suspects) g.fail_reports }

unfoldable pub suspected_here : ClusterNode → Bool
suspected_here n = n.pfail || n.fail

unfoldable pub local_suspects : Table ClusterNode → List Bytes
unfolding suspected_here
local_suspects [] = []
local_suspects ((k, n) ∷ m) =
    let rest = local_suspects m in if not n.myself && suspected_here n then n.id ∷ rest else rest

unfoldable pub reported : Table (List Bytes) → List Bytes
reported [] = []
reported ((k, xs) ∷ m) = xs ++ reported m

unfoldable pub candidates : ClusterState → List Bytes
unfolding local_suspects reported to_set without
candidates g = without g.my_id (to_set (local_suspects g.nodes ++ reported g.fail_reports))

-- The reports of live masters other than the candidate.
unfoldable pub peer_votes : ClusterState → Bytes → Table (List Bytes) → ℕ
unfolding node_test live_master listed
peer_votes g cand [] = 0
peer_votes g cand ((reporter, set) ∷ m) =
    let rest = peer_votes g cand m in
    if same reporter cand
    then rest
    else if node_test live_master reporter g && listed cand set
    then suc rest
    else rest

unfoldable pub votes : ClusterState → Bytes → ℕ
unfolding node_test suspected_here peer_votes
votes g cand = (if node_test suspected_here cand g then 1 else 0) + peer_votes g cand g.fail_reports

unfoldable pub node_is_fail : Bytes → ClusterState → Bool
unfolding node_test
node_is_fail id g = node_test (λ n. n.fail) id g

-- One candidate: it fails when it has the votes, if it is known.
unfoldable pub escalate_one : ℕ → Bytes → ClusterState → ClusterState × Bool
unfolding votes node_is_fail set_node_flags confirm_fail
escalate_one quorum cand g =
    if node_is_fail cand g
    then (g, false)
    else if leb quorum (votes g cand) && contains_key cand g.nodes
    then (set_node_flags cand confirm_fail g, true)
    else (g, false)

unfoldable pub escalate_all : ℕ → List Bytes → ClusterState → ClusterState × List Bytes
unfolding escalate_one
escalate_all quorum [] g = (g, [])
escalate_all quorum (c ∷ cs) g =
    let one = escalate_one quorum c g in
    let (g', newly) = escalate_all quorum cs one.0 in (g', if one.1 then c ∷ newly else newly)

unfoldable pub escalate_fails : ClusterState → ClusterState × List Bytes
unfolding fail_quorum_size candidates escalate_all
escalate_fails g = escalate_all (fail_quorum_size g) (candidates g) g

unfoldable pub suspect : ClusterNode → ClusterNode
suspect n = record n { pfail = true }

-- True when the node newly fails.
unfoldable pub note_unreachable : Bytes → ClusterState → ClusterState × Bool
unfolding escalate_fails node_is_fail set_node_flags suspect listed is_empty
note_unreachable id g =
    if is_empty id || same id g.my_id || not (contains_key id g.nodes) || node_is_fail id g
    then (g, false)
    else (let (g', newly) = escalate_fails (set_node_flags id suspect g) in (g', listed id newly))

unfoldable pub as_replica_of : Bytes → ClusterNode → ClusterNode
as_replica_of id n = record n { master = false; master_id = some id; fail = false }

unfoldable pub promoted : ClusterNode → ClusterNode
promoted n = record n { master = true; master_id = none }

unfoldable pub configure_as_replica_of : Bytes → ClusterState → Reply ClusterState
unfolding owns_any hand_over end_transitions set_node_flags as_replica_of promoted
configure_as_replica_of master_id g =
    if same master_id g.my_id
    then err replicate_myself
    else if not (contains_key master_id g.nodes)
    then err unknown_node
    else (let g' = if owns_any g.my_id g then hand_over g.my_id master_id g else g in
        ok (
          set_node_flags master_id promoted
            (set_node_flags g.my_id (as_replica_of master_id) (end_transitions g'))))

unfoldable pub master_alive : ClusterNode → ClusterNode
master_alive n = record n { master = true; master_id = none; fail = false }

-- The number of slots that were claimed comes with the state.
unfoldable pub claim_slots_from : Bytes → ClusterState → Reply (ClusterState × ℕ)
unfolding count_slots hand_over end_transitions set_node_flags master_alive
claim_slots_from failed g =
    if not (contains_key failed g.nodes)
    then err unknown_node
    else (let claimed = count_slots slot_count (λ s. same (g.slot_owner s) failed) in
        let g' = if ltb 0 claimed then hand_over failed g.my_id g else g in
        ok (set_node_flags g.my_id master_alive (end_transitions g'), claimed))

pub data ManualFailoverMode : Type 0 where
  safe force takeover : ManualFailoverMode

unfoldable pub my_master_id : ClusterState → Option Bytes
my_master_id g = elim (lookup g.my_id g.nodes) [
  | none ↦ none
  | some n ↦ if n.master then none else n.master_id
]

unfoldable pub claimed_by : ClusterState → Reply (ClusterState × ℕ) → ClusterState × Reply ℕ
claimed_by old (ok (g', n)) = (g', ok n)
claimed_by old (err e) = (old, err e)

-- A claim that fails after FORCE or TAKEOVER leaves the mark, so the state comes with every result.
unfoldable pub fail_over_from : ManualFailoverMode → Bytes → ClusterState → ClusterState × Reply ℕ
unfolding node_is_fail node_test should_claim_on_failover mark_fail claim_slots_from claimed_by
fail_over_from safe master g =
    if not (node_is_fail master g) && not (node_test (λ n. n.pfail) master g)
    then (g, err master_not_failed)
    else if not (should_claim_on_failover master g)
    then (g, err not_the_winner)
    else claimed_by g (claim_slots_from master g)
fail_over_from force master g =
    if not (should_claim_on_failover master g)
    then (g, err not_the_winner)
    else (let g' = mark_fail master g in claimed_by g' (claim_slots_from master g'))
fail_over_from takeover master g =
    let g' = mark_fail master g in claimed_by g' (claim_slots_from master g')

unfoldable pub manual_failover : ManualFailoverMode → ClusterState → ClusterState × Reply ℕ
unfolding my_master_id fail_over_from
manual_failover mode g = elim (my_master_id g) [
  | none ↦ (g, err not_a_replica)
  | some master ↦ fail_over_from mode master g
]

unfoldable pub winner_alive : ClusterNode → ClusterNode
winner_alive n = record n { master = true; master_id = none; fail = false; pfail = false }

unfoldable pub reconfigure_as_replica_of_failover_winner : Bytes → ClusterState → Reply ClusterState
unfolding is_replica_of set_node_flags winner_alive configure_as_replica_of
reconfigure_as_replica_of_failover_winner winner g =
    if same winner g.my_id
    then err replicate_myself
    else if is_replica_of winner g
    then ok g
    else if not (contains_key winner g.nodes)
    then err unknown_node
    else configure_as_replica_of winner (set_node_flags winner winner_alive g)
