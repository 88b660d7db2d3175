-- ===== src/Deadlock/Search.antt =====
-- The search for a cycle in the wait-for graph.
pub mod Trails
pub mod Finds
pub mod Cycles
use kore.Base.{
  ℕ, zero, suc, ◌+◌, Bool, true, false, Option, none, some, List, [], ◌∷◌, ◌++◌, if◌then◌else◌,
  length, Bytes, same, drop, position,
}
use kore.Base.Table.{Table, lookup, update, or_insert, keys}
use kore.Deadlock.{WaitEdge, member}
use mathlib.Core.Option

-- The holders that a client waits for, with the resources.
abbrev pub Adjacency : Type 0
Adjacency = Table (List (Bytes × Bytes))

unfoldable pub add_edge : WaitEdge → Adjacency → Adjacency
add_edge e m = update e.waiter (λ ns. ns ++ (e.holder, e.resource) ∷ []) (or_insert e.waiter [] m)

unfoldable pub adjacency_of : Adjacency → List WaitEdge → Adjacency
adjacency_of m [] = m
adjacency_of m (e ∷ es) = adjacency_of (add_edge e m) es

unfoldable pub neighbors : Bytes → Adjacency → List (Bytes × Bytes)
neighbors node adjacency = Option.get_or (lookup node adjacency) []

pub record Search : Type 0 where
  pub visited : List Bytes
  pub rec_stack : List Bytes
  pub path : List Bytes
  pub resource_path : List Bytes

-- `Vec::pop` and `HashSet::remove`.
unfoldable pub pop {ℓ} : {A : Type ℓ} → List A → List A
pop [] = []
pop (x ∷ []) = []
pop (x ∷ y ∷ ys) = x ∷ pop (y ∷ ys)

unfoldable pub without : Bytes → List Bytes → List Bytes
without x [] = []
without x (y ∷ ys) = let rest = without x ys in if same y x then rest else y ∷ rest

unfoldable pub enter : Bytes → Search → Search
enter node st = record {
  visited = node ∷ st.visited;
  rec_stack = node ∷ st.rec_stack;
  path = st.path ++ node ∷ [];
  resource_path = st.resource_path;
}

unfoldable pub push_resource : Bytes → Search → Search
push_resource r st = record st { resource_path = st.resource_path ++ r ∷ [] }

unfoldable pub pop_resource : Search → Search
pop_resource st = record st { resource_path = pop st.resource_path }

-- After a visit: a cycle ends the search, else the next neighbor follows.
unfoldable pub after_visit : (Search → Bool × Search) → Bool × Search → Bool × Search
after_visit next (true, st) = (true, st)
after_visit next (false, st) = next (pop_resource st)

-- The loop over the neighbors; `visit` is the recursive call.
unfoldable pub scan :
    (Bytes → Search → Bool × Search) → List (Bytes × Bytes) → Search → Bool × Search
scan visit [] st = (false, st)
scan visit ((n, r) ∷ ns) st = elim (member n st.visited) [
  | false ↦ after_visit (scan visit ns) (visit n (push_resource r st))
  | true ↦ elim (member n st.rec_stack) [
    | true ↦ (true, push_resource r st)
    | false ↦ scan visit ns st
  ]
]

unfoldable pub leave : Bytes → Bool × Search → Bool × Search
leave node (true, st) = (true, st)
leave node (false, st) =
    (false, record st { rec_stack = without node st.rec_stack; path = pop st.path })

-- The fuel bounds the depth of the recursion.
unfoldable pub dfs_visit : ℕ → Adjacency → Bytes → Search → Bool × Search
dfs_visit zero adjacency node st = (false, st)
dfs_visit (suc fuel) adjacency node st =
    leave node (scan (dfs_visit fuel adjacency) (neighbors node adjacency) (enter node st))

abbrev pub fresh : Search
fresh = record { visited = []; rec_stack = []; path = []; resource_path = [] }

unfoldable pub cut_path : Bytes → Bool × Search → Option (List Bytes × List Bytes)
cut_path start (false, st) = none
cut_path start (true, st) =
    Option.map (λ i. (drop i st.path, drop i st.resource_path))
      (position (λ c. same c start) st.path)

unfoldable pub find_cycle_dfs : ℕ → Bytes → Adjacency → Option (List Bytes × List Bytes)
find_cycle_dfs fuel start adjacency = cut_path start (dfs_visit fuel adjacency start fresh)

pub data DeadlockStatus : Type 0 where
  no_deadlock : DeadlockStatus
  deadlock : (cycle : List Bytes) (resources : List Bytes) → DeadlockStatus

unfoldable pub try_starts : ℕ → Adjacency → List Bytes → DeadlockStatus
try_starts fuel adjacency [] = no_deadlock
try_starts fuel adjacency (c ∷ cs) = elim (find_cycle_dfs fuel c adjacency) [
  | some (cycle, resources) ↦ deadlock cycle resources
  | none ↦ try_starts fuel adjacency cs
]

-- A search goes at most once into each client: its start, and the holders of the edges.
unfoldable pub detect_from_graph : List WaitEdge → DeadlockStatus
detect_from_graph graph =
    let adjacency = adjacency_of [] graph in
    try_starts (suc (length graph)) adjacency (keys adjacency)
