-- ===== src/Base/Table.antt =====
-- `HashMap<Bytes, V>` as an association list. The order of the list stands for the unspecified
-- iteration order of the map.
use kore.Base.{
  ◌≡◌, refl, Bool, true, false, Option, none, some, List, [], ◌∷◌, arith, if◌then◌else◌, Bytes,
  same, same_iff, same_refl, Option-cases, inl, inr,
}
use mathlib.Core.Option

abbrev pub Table {ℓ} : Type ℓ → Type ℓ
Table V = List (Bytes × V)

module _ {ℓ} {V : Type ℓ} where
  unfoldable pub lookup : Bytes → Table V → Option V
  lookup k [] = none
  lookup k ((j, v) ∷ m) = if same j k then some v else lookup k m

  unfoldable pub contains_key : Bytes → Table V → Bool
  contains_key k m = elim (lookup k m) [ none ↦ false | some v ↦ true ]

  unfoldable pub insert : Bytes → V → Table V → Table V
  insert k v [] = (k, v) ∷ []
  insert k v ((j, w) ∷ m) = if same j k then (j, v) ∷ m else (j, w) ∷ insert k v m

  unfoldable pub remove : Bytes → Table V → Table V
  remove k [] = []
  remove k ((j, v) ∷ m) = let rest = remove k m in if same j k then rest else (j, v) ∷ rest

  -- `get_mut` followed by a change of the value.
  unfoldable pub update : Bytes → (V → V) → Table V → Table V
  update k f [] = []
  update k f ((j, v) ∷ m) =
      let rest = update k f m in if same j k then (j, f v) ∷ rest else (j, v) ∷ rest

  -- `entry(k).or_insert(v)`.
  unfoldable pub or_insert : Bytes → V → Table V → Table V
  unfolding contains_key
  or_insert k v m = if contains_key k m then m else insert k v m

  unfoldable pub retain : (Bytes → V → Bool) → Table V → Table V
  retain p [] = []
  retain p ((j, v) ∷ m) = let rest = retain p m in if p j v then (j, v) ∷ rest else rest

  unfoldable pub keys : Table V → List Bytes
  keys [] = []
  keys ((k, v) ∷ m) = k ∷ keys m

module _ {ℓ} {V : Type ℓ} where
  pub lookup-insert :
      (k j : Bytes) (v : V) (m : Table V)
      → lookup j (insert k v m) ≡ (if same k j then some v else lookup j m)
  unfolding lookup insert
  lookup-insert k j v [] = refl
  lookup-insert k j v ((i, w) ∷ m) =
      ground (arith, same_iff k j, same_iff i k, same_iff i j, lookup-insert k j v m)

  pub lookup-remove :
      (k j : Bytes) (m : Table V) → lookup j (remove k m) ≡ (if same k j then none else lookup j m)
  unfolding lookup remove
  lookup-remove k j [] = ground arith
  lookup-remove k j ((i, w) ∷ m) =
      ground (arith, same_iff k j, same_iff i k, same_iff i j, lookup-remove k j m)

  pub lookup-update :
      (k j : Bytes) (f : V → V) (m : Table V)
      → lookup j (update k f m) ≡ (if same k j then Option.map f (lookup j m) else lookup j m)
  unfolding lookup update
  lookup-update k j f [] = ground arith
  lookup-update k j f ((i, w) ∷ m) =
      ground (arith, same_iff k j, same_iff i k, same_iff i j, lookup-update k j f m)

  pub lookup-or_insert :
      (k j : Bytes) (v : V) (m : Table V)
      → lookup j (or_insert k v m)
        ≡ (if same k j then some (Option.get_or (lookup k m) v) else lookup j m)
  unfolding or_insert
  lookup-or_insert k j v m = ground (arith, same_iff k j, lookup-insert k j v m)

  -- Each key stands once.
  abbrev pub Distinct : Table V → Type ℓ
  Distinct [] = Unit
  Distinct ((k, v) ∷ m) = (lookup k m ≡ none) × Distinct m

  pub insert-Distinct : (k : Bytes) (v : V) (m : Table V) → Distinct m → Distinct (insert k v m)
  unfolding insert lookup
  insert-Distinct k v [] d = (refl, tt)
  insert-Distinct k v ((j, w) ∷ m) d =
      ground (arith, insert-Distinct k v m d.1, lookup-insert k j v m, same_iff j k, same_iff k j)

  pub remove-Distinct : (k : Bytes) (m : Table V) → Distinct m → Distinct (remove k m)
  unfolding remove lookup
  remove-Distinct k [] d = tt
  remove-Distinct k ((j, w) ∷ m) d = ground (arith, remove-Distinct k m d.1, lookup-remove k j m)

  pub lookup-retain :
      (p : Bytes → V → Bool) (j : Bytes) (m : Table V)
      → Distinct m
      → lookup j (retain p m)
        ≡ elim (lookup j m) [ none ↦ none | some v ↦ if p j v then some v else none ]
  unfolding lookup retain
  lookup-retain p j [] d = refl
  lookup-retain p j ((i, w) ∷ m) d = ground (arith, same_iff i j, lookup-retain p j m d.1)

  pub retain-Distinct : (p : Bytes → V → Bool) (m : Table V) → Distinct m → Distinct (retain p m)
  unfolding retain lookup
  retain-Distinct p [] d = tt
  retain-Distinct p ((j, w) ∷ m) d =
      ground (arith, retain-Distinct p m d.1, lookup-retain p j m d.1)

module _ {ℓ} {V : Type ℓ} where
  pub insert-insert : (k : Bytes) (v w : V) (m : Table V) → insert k v (insert k w m) ≡ insert k v m
  unfolding insert
  insert-insert k v w [] = ground (arith, same_refl k)
  insert-insert k v w ((j, u) ∷ m) = ground (arith, insert-insert k v w m)

module _ {ℓ} {V : Type ℓ} where
  pub contains_key-some :
      (k : Bytes) (m : Table V) → contains_key k m ≡ true → (v : V) × (lookup k m ≡ some v)
  unfolding contains_key
  contains_key-some k m h = elim (Option-cases (lookup k m)) [
    | inl e ↦ absurd (ground (arith, h, e))
    | inr r ↦ r
  ]

-- Every pair of the map has a property.
abbrev pub Every {ℓ κ} : {V : Type ℓ} → (Bytes → V → Type κ) → Table V → Type κ
Every P [] = Unit
Every P ((k, v) ∷ m) = P k v × Every P m

module _ {ℓ κ} {V : Type ℓ} (P : Bytes → V → Type κ) where
  pub lookup-Every : (k : Bytes) (v : V) (m : Table V) → Every P m → lookup k m ≡ some v → P k v
  unfolding lookup
  lookup-Every k v [] a e = ground arith
  lookup-Every k v ((j, w) ∷ m) a e = ground (arith, same_iff j k, lookup-Every k v m a.1)

  pub insert-Every : (k : Bytes) (v : V) (m : Table V) → P k v → Every P m → Every P (insert k v m)
  unfolding insert
  insert-Every k v [] p a = (p, tt)
  insert-Every k v ((j, w) ∷ m) p a = ground (arith, same_iff j k, insert-Every k v m p a.1)

  pub remove-Every : (k : Bytes) (m : Table V) → Every P m → Every P (remove k m)
  unfolding remove
  remove-Every k [] a = tt
  remove-Every k ((j, w) ∷ m) a = ground (arith, remove-Every k m a.1)
