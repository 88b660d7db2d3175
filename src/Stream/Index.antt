-- ===== src/Stream/Index.antt =====
-- `BTreeMap<StreamId, V>`: an association list in the order of its IDs.
use kore.Base.{
  suc, ◌+◌, ◌≡◌, refl, Bool, true, false, Option, none, some, List, [], ◌∷◌, ◌++◌, arith,
  if◌then◌else◌, length,
}
use kore.Stream.Id.{StreamId, lt_id, eq_id}
use kore.Stream.Id.Order.{
  eq_id_iff_0, eq_id_refl, lt_id_irrefl, lt_id_trans, lt_id_asymm, lt_id_total,
}

abbrev pub Index {ℓ} : Type ℓ → Type ℓ
Index V = List (StreamId × V)

module _ {ℓ} {V : Type ℓ} where
  unfoldable pub find : StreamId → Index V → Option V
  find id [] = none
  find id ((j, v) ∷ m) = if eq_id j id then some v else find id m

  unfoldable pub contains : StreamId → Index V → Bool
  contains id m = elim (find id m) [ none ↦ false | some v ↦ true ]

  unfoldable pub put : StreamId → V → Index V → Index V
  put id v [] = (id, v) ∷ []
  put id v ((j, w) ∷ m) =
      if lt_id id j
      then (id, v) ∷ (j, w) ∷ m
      else if eq_id j id
      then (j, v) ∷ m
      else (j, w) ∷ put id v m

  unfoldable pub delete : StreamId → Index V → Index V
  delete id [] = []
  delete id ((j, v) ∷ m) = if eq_id j id then m else (j, v) ∷ delete id m

  -- `range(..)` and `iter().filter(..)`: the pairs that pass a test, in order.
  unfoldable pub select : (StreamId → V → Bool) → Index V → Index V
  select p [] = []
  select p ((j, v) ∷ m) = let rest = select p m in if p j v then (j, v) ∷ rest else rest

  abbrev pub ids : Index V → List StreamId
  ids [] = []
  ids ((j, v) ∷ m) = j ∷ ids m

  abbrev pub values : Index V → List V
  values [] = []
  values ((j, v) ∷ m) = v ∷ values m

  -- `keys().next_back()`.
  unfoldable pub last_key : Index V → Option StreamId
  last_key [] = none
  last_key ((j, v) ∷ m) = elim (last_key m) [ none ↦ some j | some k ↦ some k ]

  -- Every ID of the index is above `id`, and every ID is below `id`.
  abbrev pub Above : StreamId → Index V → Type 0
  Above id [] = Unit
  Above id ((j, v) ∷ m) = (lt_id id j ≡ true) × Above id m

  abbrev pub Below : StreamId → Index V → Type 0
  Below id [] = Unit
  Below id ((j, v) ∷ m) = (lt_id j id ≡ true) × Below id m

  abbrev pub Sorted : Index V → Type 0
  Sorted [] = Unit
  Sorted ((j, v) ∷ m) = Above j m × Sorted m

module _ {ℓ} {V : Type ℓ} where
  pub Above-of_lt : (a b : StreamId) (m : Index V) → lt_id a b ≡ true → Above b m → Above a m
  Above-of_lt a b [] h k = tt
  Above-of_lt a b ((j, v) ∷ m) h k = (lt_id_trans a b j h k.0, Above-of_lt a b m h k.1)

  pub find-Above : (id : StreamId) (m : Index V) → Above id m → find id m ≡ none
  unfolding find
  find-Above id [] h = refl
  find-Above id ((j, v) ∷ m) h =
      ground (arith, eq_id_iff_0 j id, lt_id_irrefl id, find-Above id m h.1)

  pub put-Above :
      (a id : StreamId) (v : V) (m : Index V) → lt_id a id ≡ true → Above a m → Above a (put id v m)
  unfolding put
  put-Above a id v [] h k = (h, tt)
  put-Above a id v ((j, w) ∷ m) h k = ground (arith, put-Above a id v m h k.1)

  pub put-Sorted : (id : StreamId) (v : V) (m : Index V) → Sorted m → Sorted (put id v m)
  unfolding put
  put-Sorted id v [] s = (tt, tt)
  put-Sorted id v ((j, w) ∷ m) s = ground (
    arith,
    Above-of_lt id j m,
    put-Sorted id v m s.1,
    put-Above j id v m,
    eq_id_iff_0 j id,
    lt_id_total j id,
    eq_id_refl id,
  )

  delete-Above : (a id : StreamId) (m : Index V) → Above a m → Above a (delete id m)
  unfolding delete
  delete-Above a id [] h = tt
  delete-Above a id ((j, w) ∷ m) h = ground (arith, delete-Above a id m h.1)

  pub delete-Sorted : (id : StreamId) (m : Index V) → Sorted m → Sorted (delete id m)
  unfolding delete
  delete-Sorted id [] s = tt
  delete-Sorted id ((j, w) ∷ m) s = ground (arith, delete-Sorted id m s.1, delete-Above j id m s.0)

  pub select-Above :
      (p : StreamId → V → Bool) (a : StreamId) (m : Index V) → Above a m → Above a (select p m)
  unfolding select
  select-Above p a [] h = tt
  select-Above p a ((j, w) ∷ m) h = ground (arith, select-Above p a m h.1)

  pub select-Sorted : (p : StreamId → V → Bool) (m : Index V) → Sorted m → Sorted (select p m)
  unfolding select
  select-Sorted p [] s = tt
  select-Sorted p ((j, w) ∷ m) s = ground (arith, select-Sorted p m s.1, select-Above p j m s.0)

  pub find-put :
      (id k : StreamId) (v : V) (m : Index V)
      → find k (put id v m) ≡ (if eq_id id k then some v else find k m)
  unfolding find put
  find-put id k v [] = refl
  find-put id k v ((j, w) ∷ m) =
      ground (
        arith,
        find-put id k v m,
        eq_id_iff_0 j id,
        eq_id_iff_0 j k,
        eq_id_iff_0 id k,
        eq_id_refl id,
      )

  pub find-delete :
      (id k : StreamId) (m : Index V)
      → Sorted m
      → find k (delete id m) ≡ (if eq_id id k then none else find k m)
  unfolding find delete
  find-delete id k [] s = ground arith
  find-delete id k ((j, w) ∷ m) s = ground (
    arith,
    find-delete id k m s.1,
    eq_id_iff_0 j id,
    eq_id_iff_0 j k,
    eq_id_iff_0 id k,
    eq_id_refl id,
    find-Above j m s.0,
  )

  -- An ID above all others goes to the end.
  pub put_last : (id : StreamId) (v : V) (m : Index V) → Below id m → put id v m ≡ m ++ (id, v) ∷ []
  unfolding put
  put_last id v [] h = refl
  put_last id v ((j, w) ∷ m) h =
      ground (arith, put_last id v m h.1, lt_id_asymm j id, eq_id_iff_0 j id, lt_id_irrefl id)

  pub length-delete :
      (id : StreamId) (m : Index V)
      → length (delete id m) + (if contains id m then 1 else 0) ≡ length m
  unfolding delete contains find
  length-delete id [] = refl
  length-delete id ((j, w) ∷ m) = ground (arith, length-delete id m)

  pub length-put :
      (id : StreamId) (v : V) (m : Index V)
      → Sorted m
      → length (put id v m) ≡ (if contains id m then length m else suc (length m))
  unfolding put contains find
  length-put id v [] s = refl
  length-put id v ((j, w) ∷ m) s = ground (
    arith,
    length-put id v m s.1,
    Above-of_lt id j m,
    find-Above id m,
    eq_id_iff_0 j id,
    lt_id_irrefl id,
  )
