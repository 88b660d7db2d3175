-- ===== src/Deadlock/Search/Finds.antt =====
-- One depth-first search: it ends at a trail that closes a cycle, or it leaves its start behind among
-- clients that lead to none. Fuel for the clients not visited is enough.
use kore.Base.{
  ℕ, zero, suc, ◌≤◌, ◌≡◌, refl, ap, sym, ◌∙◌, Bool, true, false, ◌||◌, List, [], ◌∷◌, ◌++◌, arith,
  Bytes, same_refl, Bool-cases, inl, inr, subst,
}
use kore.Deadlock.{member}
use kore.Deadlock.Search.{
  Adjacency, neighbors, Search, without, enter, push_resource, pop_resource, after_visit, scan,
  leave, dfs_visit,
}
use kore.Deadlock.Search.Trails.{
  In, Edge, Trail, Closed, unseen, Trail-snoc, pop-snoc, member-snoc, without_missing, unseen_le,
  unseen_lt,
}

append_nil {ℓ} : {A : Type ℓ} (xs : List A) → xs ≡ xs ++ []
append_nil [] = refl
append_nil (x ∷ xs) = ap (λ ys. x ∷ ys) (append_nil xs)

append_assoc {ℓ} : {A : Type ℓ} (xs ys zs : List A) → (xs ++ ys) ++ zs ≡ xs ++ (ys ++ zs)
append_assoc [] ys zs = refl
append_assoc (x ∷ xs) ys zs = ap (λ ws. x ∷ ws) (append_assoc xs ys zs)

member_first : (x : Bytes) (xs : List Bytes) → member x (x ∷ xs) ≡ true
unfolding member
member_first x xs = ground (arith, same_refl x)

member_later : (x y : Bytes) (xs : List Bytes) → member x xs ≡ true → member x (y ∷ xs) ≡ true
unfolding member
member_later x y xs h = ground arith

without_self : (x : Bytes) (xs : List Bytes) → member x xs ≡ false → without x (x ∷ xs) ≡ xs
unfolding without
without_self x xs h = ground (arith, same_refl x, without_missing x xs h)

-- Leaving the stack is being left behind.
split_left :
    (x node : Bytes) (v d s : List Bytes)
    → member x v ≡ (member x d || member x (node ∷ s))
    → member x v ≡ (member x (node ∷ d) || member x s)
unfolding member
split_left x node v d s h = ground arith

left_behind :
    (x : Bytes) (v d s : List Bytes)
    → member x v ≡ (member x d || member x s)
    → member x v ≡ true
    → member x s ≡ false
    → member x d ≡ true
left_behind x v d s h k l = ground arith

at_head :
    (n' r' n r : Bytes) (ns : List (Bytes × Bytes)) (d : List Bytes)
    → member n d ≡ true
    → (In n' r' ns → member n' d ≡ true)
    → In n' r' ((n, r) ∷ ns)
    → member n' d ≡ true
at_head n' r' n r ns d h k (inl (e, e')) = ground arith
at_head n' r' n r ns d h k (inr i) = k i

module _ (adjacency : Adjacency) (all : List Bytes) where
  -- A visited client is left behind in `done` or is on the stack, and the stack is on the path.
  pub record Ready (visited stack path done : List Bytes) : Type 0 where
    pub closed : Closed adjacency done
    pub split : (x : Bytes) → member x visited ≡ (member x done || member x stack)
    pub on_path : (x : Bytes) → member x stack ≡ true → member x path ≡ true

  pub data Outcome (base : List Bytes) (st : Search) (done : List Bytes)
      (must : List Bytes → Type 0) : Bool × Search → Type 0 where
    found :
        (st' : Search) (x : Bytes) (rest : List Bytes)
        → Trail adjacency st'.path st'.resource_path x
        → member x st'.path ≡ true
        → st'.path ≡ base ++ rest
        → Outcome base st done must (true, st')
    finished :
        (v done' : List Bytes)
        → Ready v st.rec_stack st.path done'
        → ((x : Bytes) → member x done ≡ true → member x done' ≡ true)
        → must done'
        → unseen all v ≤ unseen all st.visited
        → Outcome base st done must (false, record st { visited = v })

  widen :
      (base : List Bytes) (st : Search) (done : List Bytes) (must must' : List Bytes → Type 0)
      (res : Bool × Search)
      → ((d : List Bytes)
          → ((x : Bytes) → member x done ≡ true → member x d ≡ true)
          → must d
          → must' d)
      → Outcome base st done must res
      → Outcome base st done must' res
  widen base st done must must' _ h (found st' x rest t m e) = found st' x rest t m e
  widen base st done must must' _ h (finished v d r s m u) = finished v d r s (h d s m) u

  -- From a later state back to an earlier one.
  rebase :
      (base : List Bytes) (st : Search) (v done d : List Bytes) (must : List Bytes → Type 0)
      (res : Bool × Search)
      → ((x : Bytes) → member x done ≡ true → member x d ≡ true)
      → unseen all v ≤ unseen all st.visited
      → Outcome base (record st { visited = v }) d must res
      → Outcome base st done must res
  rebase base st v done d must _ h le (found st' x rest t m e) = found st' x rest t m e
  rebase base st v done d must _ h le (finished w d' r s m u) =
      finished w d' r (λ x i. s x (h x i)) m (omega (arith, le, u))

  after_visit_lem :
      (st : Search) (done : List Bytes) (n r : Bytes) (must : List Bytes → Type 0)
      (next : Search → Bool × Search) (res : Bool × Search)
      → ((v d : List Bytes)
          → Ready v st.rec_stack st.path d
          → ((x : Bytes) → member x done ≡ true → member x d ≡ true)
          → member n d ≡ true
          → unseen all v ≤ unseen all st.visited
          → Outcome st.path (record st { visited = v }) d must (next (record st { visited = v })))
      → Outcome (st.path ++ n ∷ []) (push_resource r st) done (λ d. member n d ≡ true) res
      → Outcome st.path st done must (after_visit next res)
  unfolding after_visit push_resource pop_resource
  after_visit_lem st done n r must next _ h (found st' x rest t m e) =
      found st' x (n ∷ rest) t m (e ∙ append_assoc st.path (n ∷ []) rest)
  after_visit_lem st done n r must next _ h (finished v d k s m u) =
      rw (pop-snoc st.resource_path r)
        (rebase st.path st v done d must (next (record st { visited = v })) s u (h v d k s m u))

  unvisited_off_stack :
      (x : Bytes) (st : Search) (done : List Bytes)
      → Ready st.visited st.rec_stack st.path done
      → member x st.visited ≡ false
      → member x st.rec_stack ≡ false
  unvisited_off_stack x st done k f = let e = k.split x in ground arith

  enter-Ready :
      (n : Bytes) (st : Search) (done : List Bytes)
      → Ready st.visited st.rec_stack st.path done
      → Ready (enter n st).visited (enter n st).rec_stack (enter n st).path done
  unfolding enter member
  enter-Ready n st done k = record {
    closed = k.closed;
    split = λ x. ground (arith, k.split x);
    on_path = λ x h. ground (arith, member-snoc x n st.path, k.on_path x);
  }

  leave_lem :
      (node : Bytes) (st : Search) (done : List Bytes) (res : Bool × Search)
      → Ready st.visited st.rec_stack st.path done
      → member node st.visited ≡ false
      → Outcome
          (st.path ++ node ∷ [])
          (enter node st)
          done
          (λ d. (n r : Bytes) → Edge adjacency node r n → member n d ≡ true)
          res
      → Outcome (st.path ++ node ∷ []) st done (λ d. member node d ≡ true) (leave node res)
  unfolding leave enter
  leave_lem node st done _ k f (found st' x rest t m e) = found st' x rest t m e
  leave_lem node st done _ k f (finished v d r s m u) =
      rw
        (
          pop-snoc st.path node,
          without_self node st.rec_stack (unvisited_off_stack node st done k f),
        )
        (finished v (node ∷ d)
          (record {
            closed = (m, r.closed);
            split = λ x. split_left x node v d st.rec_stack (r.split x);
            on_path = k.on_path;
          })
          (λ x i. member_later x node d (s x i)) (member_first node d)
          (omega (
            arith,
            u,
            unseen_le all st.visited (node ∷ st.visited) (λ x i. member_later x node st.visited i),
          )))

  -- The loop over the neighbors of `a`.
  scan_lem :
      (a : Bytes) (k : ℕ) (visit : Bytes → Search → Bool × Search)
      → ((n : Bytes) (st : Search) (done : List Bytes)
          → member n all ≡ true
          → member n st.visited ≡ false
          → Ready st.visited st.rec_stack st.path done
          → unseen all st.visited ≤ k
          → Trail adjacency st.path st.resource_path n
          → Outcome (st.path ++ n ∷ []) st done (λ d. member n d ≡ true) (visit n st))
      → (ns : List (Bytes × Bytes)) (st : Search) (done path : List Bytes)
      → ((n r : Bytes) → In n r ns → Edge adjacency a r n × (member n all ≡ true))
      → st.path ≡ path ++ a ∷ []
      → Trail adjacency path st.resource_path a
      → Ready st.visited st.rec_stack st.path done
      → unseen all st.visited ≤ k
      → Outcome st.path st done
          (λ d. (n r : Bytes) → In n r ns → member n d ≡ true)
          (scan visit ns st)
  unfolding scan push_resource
  scan_lem a k visit ok [] st done path h e t rd le =
      finished st.visited done rd (λ x i. i) (λ n r i. elim i [ ]) (omega arith)
  scan_lem a k visit ok ((n, r) ∷ ns) st done path h e t rd le =
      let here = h n r (inl (refl, refl)) in
      let trail : Trail adjacency st.path (st.resource_path ++ r ∷ []) n =
        subst (λ p. Trail adjacency p (st.resource_path ++ r ∷ []) n) (sym e)
          (Trail-snoc adjacency path st.resource_path a r n t here.0) in
      elim (Bool-cases (member n st.visited)) [
        | inr p ↦
            rw (p, scan)
              (after_visit_lem st done n r _ (scan visit ns) (visit n (push_resource r st))
                (λ v d rd' s i u.
                  widen _ _ d _ _ _ (λ d' s' m n' r'. at_head n' r' n r ns d' (s' n i) (m n' r'))
                    (scan_lem a k visit ok ns (record st { visited = v }) d path
                      (λ n' r' i'. h n' r' (inr i')) e t rd' (omega (arith, u, le))))
                (ok n (push_resource r st) done here.1 p rd le trail))
        | inl p ↦ elim (Bool-cases (member n st.rec_stack)) [
          | inl q ↦
              rw (p, scan, q)
                (found (push_resource r st) n [] trail (rd.on_path n q) (append_nil st.path))
          | inr q ↦
              rw (p, scan, q)
                (widen _ _ done _ _ _
                  (λ d' s' m n' r'.
                    at_head n' r' n r ns d'
                      (s' n (left_behind n st.visited done st.rec_stack (rd.split n) p q))
                      (m n' r'))
                  (scan_lem a k visit ok ns st done path (λ n' r' i'. h n' r' (inr i')) e t rd le))
        ]
      ]

  -- A search from a client not visited, with fuel for all the clients not visited.
  pub dfs_visit_lem :
      ((a r n : Bytes) → Edge adjacency a r n → member n all ≡ true)
      → (k : ℕ) (n : Bytes) (st : Search) (done : List Bytes) → member n all ≡ true
      → member n st.visited ≡ false
      → Ready st.visited st.rec_stack st.path done
      → unseen all st.visited ≤ k
      → Trail adjacency st.path st.resource_path n
      → Outcome (st.path ++ n ∷ []) st done (λ d. member n d ≡ true) (dfs_visit k adjacency n st)
  unfolding dfs_visit enter
  dfs_visit_lem h zero n st done i f rd le t =
      absurd (omega (arith, unseen_lt all st.visited n i f, le))
  dfs_visit_lem h (suc k) n st done i f rd le t = leave_lem n st done _ rd f (
      scan_lem n k (dfs_visit k adjacency) (dfs_visit_lem h k) (neighbors n adjacency) (enter n st)
        done st.path (λ m r j. (j, h n r m j)) refl t (enter-Ready n st done rd)
        (omega (arith, unseen_lt all st.visited n i f, le)))
