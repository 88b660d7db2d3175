-- ===== src/Deadlock/Search/Cycles.antt =====
-- The detection as a whole: it finds a cycle exactly when clients wait for each other in one.
use kore.Base.{
  suc, ◌≡◌, refl, ap, sym, ◌∙◌, Bool, true, Option, none, some, List, [], ◌∷◌, ◌++◌, arith,
  if◌then◌else◌, length, Bytes, same, same_iff, same_refl, Bool-cases, ◌⊎◌, inl, inr, subst,
  position, Option-cases,
}
use kore.Base.Table.{Table, lookup, or_insert, keys, lookup-update, lookup-or_insert}
use kore.Deadlock.{WaitEdge, member}
use kore.Deadlock.Search.{
  Adjacency, neighbors, add_edge, adjacency_of, Search, dfs_visit, fresh, cut_path, find_cycle_dfs,
  DeadlockStatus, no_deadlock, deadlock, try_starts, detect_from_graph,
}
use kore.Deadlock.Search.Trails.{In, Edge, Trail, Closed, unseen}
use kore.Deadlock.Search.Finds.{Outcome, found, finished, dfs_visit_lem}
use mathlib.Core.Option

-- An edge of the graph: `a` waits for the resource `r`, held by `b`.
abbrev pub Waits : List WaitEdge → Bytes → Bytes → Bytes → Type 0
Waits [] a r b = ⊥
Waits (e ∷ es) a r b = ((e.waiter ≡ a) × (e.resource ≡ r) × (e.holder ≡ b)) ⊎ Waits es a r b

-- `a` waits for `b`, over one edge or several.
pub data Leads (graph : List WaitEdge) : Bytes → Bytes → Type 0 where
  direct : (a b r : Bytes) → Waits graph a r b → Leads graph a b
  further : (a b c r : Bytes) → Waits graph a r b → Leads graph b c → Leads graph a c

out_edges : Bytes → List WaitEdge → List (Bytes × Bytes)
out_edges a [] = []
out_edges a (e ∷ es) =
    let rest = out_edges a es in if same e.waiter a then (e.holder, e.resource) ∷ rest else rest

neighbors-add_edge :
    (a : Bytes) (e : WaitEdge) (m : Adjacency)
    → neighbors a (add_edge e m)
      ≡ (if same e.waiter a then neighbors a m ++ (e.holder, e.resource) ∷ [] else neighbors a m)
unfolding neighbors add_edge
neighbors-add_edge a e m = ground (
  arith,
  same_iff e.waiter a,
  same_refl a,
  lookup-update e.waiter a (λ ns. ns ++ (e.holder, e.resource) ∷ []) (or_insert e.waiter [] m),
  lookup-or_insert e.waiter a [] m,
)

append_assoc {ℓ} : {A : Type ℓ} (xs ys zs : List A) → (xs ++ ys) ++ zs ≡ xs ++ (ys ++ zs)
append_assoc [] ys zs = refl
append_assoc (x ∷ xs) ys zs = ap (λ ws. x ∷ ws) (append_assoc xs ys zs)

append_nil {ℓ} : {A : Type ℓ} (xs : List A) → xs ++ [] ≡ xs
append_nil [] = refl
append_nil (x ∷ xs) = ap (λ ys. x ∷ ys) (append_nil xs)

neighbors-adjacency_of :
    (a : Bytes) (m : Adjacency) (es : List WaitEdge)
    → neighbors a (adjacency_of m es) ≡ neighbors a m ++ out_edges a es
unfolding adjacency_of out_edges
neighbors-adjacency_of a m [] = sym (append_nil (neighbors a m))
neighbors-adjacency_of a m (e ∷ es) = ground (
  arith,
  neighbors-adjacency_of a (add_edge e m) es,
  neighbors-add_edge a e m,
  append_assoc (neighbors a m) ((e.holder, e.resource) ∷ []) (out_edges a es),
)

out_edges→Waits : (a b r : Bytes) (es : List WaitEdge) → In b r (out_edges a es) → Waits es a r b
unfolding out_edges
out_edges→Waits a b r [] i = i
out_edges→Waits a b r (e ∷ es) i = ground (arith, out_edges→Waits a b r es, same_iff e.waiter a)

Waits→out_edges : (a b r : Bytes) (es : List WaitEdge) → Waits es a r b → In b r (out_edges a es)
unfolding out_edges
Waits→out_edges a b r [] i = i
Waits→out_edges a b r (e ∷ es) i = ground (arith, Waits→out_edges a b r es, same_iff e.waiter a)

neighbors_nil : (a : Bytes) (ns : List (Bytes × Bytes)) → neighbors a [] ++ ns ≡ ns
unfolding neighbors lookup
neighbors_nil a ns = refl

neighbors_of_graph :
    (graph : List WaitEdge) (a : Bytes) → neighbors a (adjacency_of [] graph) ≡ out_edges a graph
neighbors_of_graph graph a = neighbors-adjacency_of a [] graph ∙ neighbors_nil a (out_edges a graph)

graph-Edge :
    (graph : List WaitEdge) (a b r : Bytes) → Edge (adjacency_of [] graph) a r b → Waits graph a r b
graph-Edge graph a b r i =
    out_edges→Waits a b r graph (subst (λ ns. In b r ns) (neighbors_of_graph graph a) i)

Edge-graph :
    (graph : List WaitEdge) (a b r : Bytes) → Waits graph a r b → Edge (adjacency_of [] graph) a r b
Edge-graph graph a b r w =
    subst (λ ns. In b r ns) (sym (neighbors_of_graph graph a)) (Waits→out_edges a b r graph w)

-- The holders of the edges.
abbrev holders : List WaitEdge → List Bytes
holders [] = []
holders (e ∷ es) = e.holder ∷ holders es

Waits-holders :
    (graph : List WaitEdge) (a b r : Bytes) → Waits graph a r b → member b (holders graph) ≡ true
unfolding member
Waits-holders [] a b r w = elim w [ ]
Waits-holders (e ∷ es) a b r w = ground (arith, Waits-holders es a b r, same_iff e.holder b)

unseen-nil : (us : List Bytes) → unseen us [] ≡ length us
unfolding member
unseen-nil [] = refl
unseen-nil (u ∷ us) = ap suc (unseen-nil us)

length-holders : (graph : List WaitEdge) → length (holders graph) ≡ length graph
length-holders [] = refl
length-holders (e ∷ es) = ap suc (length-holders es)

-- A trail leads from each of its clients to its end.
Trail-Leads :
    (graph : List WaitEdge) (path rs : List Bytes) (x y : Bytes)
    → Trail (adjacency_of [] graph) path rs y
    → member x path ≡ true
    → Leads graph x y
unfolding member
Trail-Leads graph [] rs x y t m = absurd (ground arith)
Trail-Leads graph (a ∷ path) [] x y t m = elim t [ ]
Trail-Leads graph (a ∷ []) (r ∷ rs) x y t m =
    let e : a ≡ x = ground (arith, same_iff a x) in
    rw (← e) (direct a y r (graph-Edge graph a y r t.0))
Trail-Leads graph (a ∷ b ∷ path) (r ∷ rs) x y t m =
    let w = graph-Edge graph a b r t.0 in
    elim (Bool-cases (same a x)) [
      | inl p ↦
          let e : a ≡ x = ground (arith, same_iff a x) in
          rw (← e) (
            further a b y r w
              (Trail-Leads graph (b ∷ path) rs b y t.1 (ground (arith, same_refl b))))
      | inr p ↦ Trail-Leads graph (b ∷ path) rs x y t.1 (ground arith)
    ]

-- Clients that are left behind wait only for such clients, and not in a cycle.
Closed-Edge :
    (adjacency : Adjacency) (done : List Bytes) (a r n : Bytes)
    → Closed adjacency done
    → member a done ≡ true
    → Edge adjacency a r n
    → member n done ≡ true
unfolding member
Closed-Edge adjacency [] a r n c m e = ground arith
Closed-Edge adjacency (b ∷ done) a r n c m e = elim (Bool-cases (same b a)) [
  | inl p ↦
      let h = c.0 n r (subst (λ x. Edge adjacency x r n) (sym ((same_iff b a).0 p)) e) in
      ground arith
  | inr p ↦ let h = Closed-Edge adjacency done a r n c.1 (ground arith) e in ground arith
]

Closed-Leads :
    (graph : List WaitEdge) (done : List Bytes) (x y : Bytes)
    → Closed (adjacency_of [] graph) done
    → member x done ≡ true
    → Leads graph x y
    → member y done ≡ true
Closed-Leads graph done _ _ c m (direct a b r w) =
    Closed-Edge (adjacency_of [] graph) done a r b c m (Edge-graph graph a b r w)
Closed-Leads graph done _ _ c m (further a b d r w l) =
    Closed-Leads graph done b d c
      (Closed-Edge (adjacency_of [] graph) done a r b c m (Edge-graph graph a b r w)) l

Closed-head :
    (graph : List WaitEdge) (done : List Bytes) (a y : Bytes)
    → Closed (adjacency_of [] graph) (a ∷ done)
    → Leads graph a y
    → member y done ≡ true
Closed-head graph done _ _ c (direct a b r w) = c.0 b r (Edge-graph graph a b r w)
Closed-head graph done _ _ c (further a b d r w l) =
    Closed-Leads graph done b d c.1 (c.0 b r (Edge-graph graph a b r w)) l

Closed-no_cycle :
    (graph : List WaitEdge) (done : List Bytes) (x : Bytes)
    → Closed (adjacency_of [] graph) done
    → member x done ≡ true
    → ¬ Leads graph x x
unfolding member
Closed-no_cycle graph [] x c m l = ground arith
Closed-no_cycle graph (a ∷ done) x c m l = elim (Bool-cases (same a x)) [
  | inl p ↦
      let c' = subst (λ z. Closed (adjacency_of [] graph) (z ∷ done)) ((same_iff a x).0 p) c in
      Closed-no_cycle graph done x c.1 (Closed-head graph done x x c' l) l
  | inr p ↦ Closed-no_cycle graph done x c.1 (ground arith) l
]

-- What one search from `start` finds.
abbrev Result : List WaitEdge → Bytes → Option (List Bytes × List Bytes) → Type 0
Result graph start none = ¬ Leads graph start start
Result graph start (some (cycle, resources)) =
    (x : Bytes) × Trail (adjacency_of [] graph) cycle resources x × (member x cycle ≡ true)

cut_path_lem :
    (graph : List WaitEdge) (start : Bytes) (res : Bool × Search)
    → Outcome
        (adjacency_of [] graph)
        (start ∷ holders graph)
        (start ∷ [])
        fresh
        []
        (λ d. member start d ≡ true)
        res
    → Result graph start (cut_path start res)
unfolding cut_path position
cut_path_lem graph start _ (finished v d r s m u) = Closed-no_cycle graph d start r.closed m
cut_path_lem graph start _ (found st x rest t m e) =
    rw (e, same_refl start)
      (
        x,
        subst (λ p. Trail (adjacency_of [] graph) p st.resource_path x) e t,
        subst (λ p. member x p ≡ true) e m,
      )

find_cycle_dfs_lem :
    (graph : List WaitEdge) (start : Bytes)
    → Result graph start (find_cycle_dfs (suc (length graph)) start (adjacency_of [] graph))
unfolding find_cycle_dfs member
find_cycle_dfs_lem graph start =
    let adjacency = adjacency_of [] graph in
    let all = start ∷ holders graph in
    cut_path_lem graph start (dfs_visit (suc (length graph)) adjacency start fresh) (
      dfs_visit_lem adjacency all
        (λ a r n e. ground (arith, Waits-holders graph a n r (graph-Edge graph a n r e)))
        (suc (length graph)) start fresh [] (ground (arith, same_refl start)) refl
        (record { closed = tt; split = λ x. refl; on_path = λ x h. h })
        (omega (arith, unseen-nil all, length-holders graph)) tt)

lookup-keys :
    {V : Type 0} (a : Bytes) (v : V) (m : Table V) → lookup a m ≡ some v → member a (keys m) ≡ true
unfolding lookup keys member
lookup-keys a v [] e = ground arith
lookup-keys a v ((k, w) ∷ m) e = ground (arith, lookup-keys a v m)

Edge-keys :
    (adjacency : Adjacency) (a r b : Bytes)
    → Edge adjacency a r b
    → member a (keys adjacency) ≡ true
unfolding neighbors
Edge-keys adjacency a r b e = elim (Option-cases (lookup a adjacency)) [
  | inl p ↦ absurd (subst (λ o. In b r (Option.get_or o [])) p e)
  | inr (ns, p) ↦ lookup-keys a ns adjacency p
]

-- A client that waits for itself is a start of the search.
cycle-keys :
    (graph : List WaitEdge) (x : Bytes)
    → Leads graph x x
    → member x (keys (adjacency_of [] graph)) ≡ true
cycle-keys graph x l = start_of x x l
  where
    start_of : (a b : Bytes) → Leads graph a b → member a (keys (adjacency_of [] graph)) ≡ true
    start_of _ _ (direct a b r w) =
        Edge-keys (adjacency_of [] graph) a r b (Edge-graph graph a b r w)
    start_of _ _ (further a b c r w l) =
        Edge-keys (adjacency_of [] graph) a r b (Edge-graph graph a b r w)

-- What the search from each of some starts finds.
abbrev Verdict : List WaitEdge → List Bytes → DeadlockStatus → Type 0
Verdict graph starts no_deadlock = (x : Bytes) → member x starts ≡ true → ¬ Leads graph x x
Verdict graph starts (deadlock cycle resources) =
    (x : Bytes) × Trail (adjacency_of [] graph) cycle resources x × (member x cycle ≡ true)

more_starts :
    (graph : List WaitEdge) (c : Bytes) (cs : List Bytes) (status : DeadlockStatus)
    → ¬ Leads graph c c
    → Verdict graph cs status
    → Verdict graph (c ∷ cs) status
unfolding member
more_starts graph c cs no_deadlock h v = λ x m l. elim (Bool-cases (same c x)) [
  | inl p ↦ h (subst (λ z. Leads graph z z) (sym ((same_iff c x).0 p)) l)
  | inr p ↦ v x (ground arith) l
]
more_starts graph c cs (deadlock cycle resources) h v = v

after_start :
    (graph : List WaitEdge) (c : Bytes) (cs : List Bytes) (o : Option (List Bytes × List Bytes))
    (status : DeadlockStatus)
    → Result graph c o
    → Verdict graph cs status
    → Verdict graph (c ∷ cs) (elim o [ none ↦ status | some x ↦ deadlock x.0 x.1 ])
after_start graph c cs none status r v = more_starts graph c cs status r v
after_start graph c cs (some x) status r v = r

try_starts_lem :
    (graph : List WaitEdge) (starts : List Bytes)
    → Verdict graph starts (try_starts (suc (length graph)) (adjacency_of [] graph) starts)
unfolding try_starts member
try_starts_lem graph [] = λ x m. ground arith
try_starts_lem graph (c ∷ cs) =
    after_start graph c cs (find_cycle_dfs (suc (length graph)) c (adjacency_of [] graph)) _
      (find_cycle_dfs_lem graph c) (try_starts_lem graph cs)

detect_lem :
    (graph : List WaitEdge) → Verdict graph (keys (adjacency_of [] graph)) (detect_from_graph graph)
unfolding detect_from_graph
detect_lem graph = try_starts_lem graph (keys (adjacency_of [] graph))

-- A reported deadlock is one: the reported clients are a trail, each waits for the next one over the
-- reported resource, the last waits for one of them, and that client waits for itself in a cycle.
pub detect_from_graph_sound :
    (graph : List WaitEdge) (cycle resources : List Bytes)
    → detect_from_graph graph ≡ deadlock cycle resources
    → (x : Bytes) × Trail (adjacency_of [] graph) cycle resources x
      × (member x cycle ≡ true)
      × Leads graph x x
detect_from_graph_sound graph cycle resources e =
    let (x, t, m) = subst (Verdict graph (keys (adjacency_of [] graph))) e (detect_lem graph) in
    (x, t, m, Trail-Leads graph cycle resources x x t m)

-- No deadlock is missed: when none is reported, no client waits for itself in a cycle.
pub detect_from_graph_complete :
    (graph : List WaitEdge) (x : Bytes) → detect_from_graph graph ≡ no_deadlock → ¬ Leads graph x x
detect_from_graph_complete graph x e l =
    subst (Verdict graph (keys (adjacency_of [] graph))) e (detect_lem graph) x
      (cycle-keys graph x l) l
