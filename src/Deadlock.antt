-- ===== src/Deadlock.antt =====
-- The deadlock detector of the lock service: src/deadlock.rs. The clock is an argument; a time
-- stamp is the millisecond at which it was taken.
pub mod Search
pub mod Merge
pub mod Holders
pub mod Victims
mod Tests
use kore.Base.{
  ℕ, zero, suc, ◌+◌, ◌-◌, Bool, true, false, not, ◌&&◌, ◌||◌, Option, none, some, List, [], ◌∷◌,
  ◌++◌, ltb, leb, ◌==◌, ◌*◌, map, if◌then◌else◌, length, Bytes, same,
}
use kore.Base.Table.{Table, lookup, contains_key, insert, remove, update, or_insert, retain}
use mathlib.Core.Option

pub record LockInfo : Type 0 where
  pub resource : Bytes
  pub client_id : Bytes
  pub timestamp : ℕ
  pub ttl_ms : ℕ

pub record WaitEdge : Type 0 where
  pub waiter : Bytes
  pub holder : Bytes
  pub resource : Bytes
  pub timestamp : ℕ

pub data VictimSelectionStrategy : Type 0 where
  youngest : VictimSelectionStrategy
  oldest : VictimSelectionStrategy
  fewest_locks : VictimSelectionStrategy

pub record DeadlockDetector : Type 0 where
  pub held_locks : Table LockInfo
  pub waiting_for : Table (List LockInfo)
  pub wait_graph : List WaitEdge
  pub max_wait_time_ms : ℕ
  pub auto_resolve : Bool
  pub victim_strategy : VictimSelectionStrategy

unfoldable pub new_with_strategy : ℕ → Bool → VictimSelectionStrategy → DeadlockDetector
new_with_strategy max_wait_time_ms auto_resolve victim_strategy = record {
  held_locks = [];
  waiting_for = [];
  wait_graph = [];
  max_wait_time_ms = max_wait_time_ms;
  auto_resolve = auto_resolve;
  victim_strategy = victim_strategy;
}

unfoldable pub is_expired : ℕ → LockInfo → Bool
is_expired now info = ltb info.ttl_ms (now - info.timestamp)

unfoldable pub remaining_ttl_ms : ℕ → LockInfo → ℕ
remaining_ttl_ms now info = info.ttl_ms - (now - info.timestamp)

-- `HashSet::contains`.
unfoldable pub member : Bytes → List Bytes → Bool
member x [] = false
member x (y ∷ ys) = same y x || member x ys

-- `Vec::retain`.
unfoldable pub keep {ℓ} : {A : Type ℓ} → (A → Bool) → List A → List A
keep p [] = []
keep p (x ∷ xs) = let rest = keep p xs in if p x then x ∷ rest else rest

-- The test for an edge that is there already, by `(waiter, resource, holder)`.
unfoldable pub edge_exists : List WaitEdge → Bytes → Bytes → Bytes → Bool
edge_exists [] w h r = false
edge_exists (e ∷ es) w h r =
    (same e.waiter w && same e.holder h && same e.resource r) || edge_exists es w h r

-- An edge is pushed unless its key was seen: the keys seen are those of the edges pushed.
unfoldable pub push_new : WaitEdge → List WaitEdge → List WaitEdge
push_new e graph = if edge_exists graph e.waiter e.holder e.resource then graph else graph ++ e ∷ []

-- Keeps the entries of each list that pass, and drops the lists that become empty.
unfoldable pub prune_waiting : (LockInfo → Bool) → Table (List LockInfo) → Table (List LockInfo)
prune_waiting p [] = []
prune_waiting p ((w, infos) ∷ m) =
    let rest = prune_waiting p m in
    elim (keep p infos) [ [] ↦ rest | info ∷ more ↦ (w, info ∷ more) ∷ rest ]

-- The acquirer waits for the resource no more.
unfoldable pub stop_waiting : Bytes → Bytes → Table (List LockInfo) → Table (List LockInfo)
stop_waiting client r m = elim (lookup client m) [
  | none ↦ m
  | some infos ↦ elim (keep (λ i. not (same i.resource r)) infos) [
    | [] ↦ remove client m
    | info ∷ more ↦ insert client (info ∷ more) m
  ]
]

-- The edges of the resource get the acquirer as their holder.
unfoldable pub rewrite_edges : Bytes → Bytes → List WaitEdge → List WaitEdge → List WaitEdge
rewrite_edges r client graph [] = graph
rewrite_edges r client graph (e ∷ es) =
    rewrite_edges r client
      (if same e.resource r
        then if same e.waiter client then graph else push_new (record e { holder = client }) graph
        else push_new e graph)
      es

-- The entries of one waiter for the resource are linked to the acquirer.
unfoldable pub relink_one : Bytes → Bytes → Bytes → List WaitEdge → List LockInfo → List WaitEdge
relink_one r client w graph [] = graph
relink_one r client w graph (i ∷ infos) =
    relink_one r client w
      (if not (same i.resource r)
        then graph
        else push_new
            (record { waiter = w; holder = client; resource = r; timestamp = i.timestamp }) graph)
      infos

unfoldable pub relink_all : Bytes → Bytes → List WaitEdge → Table (List LockInfo) → List WaitEdge
relink_all r client graph [] = graph
relink_all r client graph ((w, infos) ∷ m) =
    relink_all r client (if same w client then graph else relink_one r client w graph infos) m

unfoldable pub record_lock_acquired : ℕ → Bytes → Bytes → ℕ → DeadlockDetector → DeadlockDetector
record_lock_acquired now r client ttl_ms d =
    let waiting = stop_waiting client r d.waiting_for in
    record d {
      held_locks =
          insert r (record { resource = r; client_id = client; timestamp = now; ttl_ms = ttl_ms })
            d.held_locks;
      waiting_for = waiting;
      wait_graph = relink_all r client (rewrite_edges r client [] d.wait_graph) waiting;
    }

unfoldable pub holds : Bytes → Bytes → Table LockInfo → Bool
holds r client held = elim (lookup r held) [ none ↦ false | some info ↦ same info.client_id client ]

unfoldable pub record_lock_released : Bytes → Bytes → DeadlockDetector → DeadlockDetector
record_lock_released r client d =
    if holds r client d.held_locks
    then record d {
      held_locks = remove r d.held_locks;
      wait_graph = keep (λ e. not (same e.resource r && same e.holder client)) d.wait_graph;
    }
    else d

-- `entry(client).or_insert_with(Vec::new).push(info)`.
unfoldable pub push_wait : Bytes → LockInfo → Table (List LockInfo) → Table (List LockInfo)
push_wait client info m = update client (λ infos. infos ++ info ∷ []) (or_insert client [] m)

unfoldable pub record_lock_wait : ℕ → Bytes → Bytes → ℕ → DeadlockDetector → DeadlockDetector
record_lock_wait now r client ttl_ms d =
    let info : LockInfo = record {
      resource = r;
      client_id = client;
      timestamp = now;
      ttl_ms = ttl_ms;
    } in
    let d' : DeadlockDetector = record d { waiting_for = push_wait client info d.waiting_for } in
    elim (lookup r d.held_locks) [
      | none ↦ d'
      | some h ↦ record d' {
        wait_graph =
            d.wait_graph
            ++ record { waiter = client; holder = h.client_id; resource = r; timestamp = now } ∷ [];
      }
    ]

unfoldable pub remove_from_waiting : Bytes → DeadlockDetector → DeadlockDetector
remove_from_waiting client d = record d {
  waiting_for = remove client d.waiting_for;
  wait_graph = keep (λ e. not (same e.waiter client)) d.wait_graph;
}

-- The keys whose value passes a test.
unfoldable pub keys_where : (LockInfo → Bool) → Table LockInfo → List Bytes
keys_where p [] = []
keys_where p ((r, info) ∷ m) = let rest = keys_where p m in if p info then r ∷ rest else rest

unfoldable pub cleanup_expired_into : ℕ → DeadlockDetector → DeadlockDetector
cleanup_expired_into now d =
    let expired = keys_where (is_expired now) d.held_locks in
    record d {
      held_locks = retain (λ _ info. not (is_expired now info)) d.held_locks;
      wait_graph =
          keep (λ e. not (member e.resource expired) && ltb (now - e.timestamp) d.max_wait_time_ms)
            d.wait_graph;
      waiting_for =
          prune_waiting (λ i. not (is_expired now i) && not (member i.resource expired))
            d.waiting_for;
    }

-- The locks of the client are released, and the resources are returned.
unfoldable pub release_client_locks : Bytes → DeadlockDetector → DeadlockDetector × List Bytes
release_client_locks client d =
    let released = keys_where (λ info. same info.client_id client) d.held_locks in
    (
      record d {
        held_locks = retain (λ _ info. not (same info.client_id client)) d.held_locks;
        wait_graph =
            keep
              (λ e.
                not (same e.waiter client)
                && not (same e.holder client)
                && not (member e.resource released))
              d.wait_graph;
        waiting_for =
            prune_waiting (λ i. not (member i.resource released)) (remove client d.waiting_for);
      },
      released,
    )

unfoldable pub held_resources_for_client : Bytes → DeadlockDetector → List Bytes
held_resources_for_client client d = keys_where (λ info. same info.client_id client) d.held_locks

pub record LongWaitInfo : Type 0 where
  pub waiter : Bytes
  pub holder : Bytes
  pub resource : Bytes
  pub wait_duration_ms : ℕ

-- `elapsed > max_wait / 2`, without the rounding of a division.
unfoldable pub check_long_waits : ℕ → DeadlockDetector → List LongWaitInfo
check_long_waits now d =
    map
      (λ e. record {
        waiter = e.waiter;
        holder = e.holder;
        resource = e.resource;
        wait_duration_ms = now - e.timestamp;
      })
      (keep (λ e. ltb d.max_wait_time_ms (2 * (now - e.timestamp))) d.wait_graph)
