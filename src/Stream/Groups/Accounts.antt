-- ===== src/Stream/Groups/Accounts.antt =====
-- The pending counts of all groups of a stream, under the operations on groups.
use kore.Base.{
  ℕ, ◌≡◌, Bool, Option, some, List, [], ◌∷◌, arith, inl, inr, Bytes, same, Option-cases, Bool-cases,
  subst,
}
use kore.Base.Table.{Table, lookup, insert, remove, contains_key}
use kore.Stream.Id.{StreamId, Chars}
use kore.Stream.Index.{contains}
use kore.Stream.State.{ConsumerGroup, RedisStream, ok, new_group, xadd}
use kore.Stream.Groups.{
  release_in_groups, xdel, xdel_one, group_create, group_destroy, with_group, group_create_consumer,
  group_del_consumer, group_setid, xack, xsetid, create_consumer, del_consumer, set_cursor, ack_all,
}
use kore.Stream.Groups.Counts.{
  IsCounted, release-IsCounted, ack_all-IsCounted, create_consumer-IsCounted,
  del_consumer-IsCounted, set_cursor-IsCounted, new_group-IsCounted,
}

abbrev pub AllCounted : Table ConsumerGroup → Type 0
AllCounted [] = Unit
AllCounted ((n, g) ∷ gs) = IsCounted g × AllCounted gs

pub insert-AllCounted :
    (name : Bytes) (g : ConsumerGroup) (gs : Table ConsumerGroup)
    → IsCounted g
    → AllCounted gs
    → AllCounted (insert name g gs)
unfolding insert
insert-AllCounted name g [] h k = (h, tt)
insert-AllCounted name g ((n, g') ∷ gs) h k = elim (Bool-cases (same n name)) [
  | inl e ↦ rw e (h, k.1)
  | inr e ↦ rw e (k.0, insert-AllCounted name g gs h k.1)
]

remove-AllCounted :
    (name : Bytes) (gs : Table ConsumerGroup) → AllCounted gs → AllCounted (remove name gs)
unfolding remove
remove-AllCounted name [] k = tt
remove-AllCounted name ((n, g') ∷ gs) k = elim (Bool-cases (same n name)) [
  | inl e ↦ rw e (remove-AllCounted name gs k.1)
  | inr e ↦ rw e (k.0, remove-AllCounted name gs k.1)
]

lookup-IsCounted :
    (name : Bytes) (g : ConsumerGroup) (gs : Table ConsumerGroup)
    → AllCounted gs
    → lookup name gs ≡ some g
    → IsCounted g
unfolding lookup
lookup-IsCounted name g [] k e = cc
lookup-IsCounted name g ((n, g') ∷ gs) k e = elim (Bool-cases (same n name)) [
  | inl p ↦ subst IsCounted (ground arith) k.0
  | inr p ↦ lookup-IsCounted name g gs k.1 (ground arith)
]

-- An operation on one group keeps all counts right if it keeps those of its group right.
pub with_group-AllCounted {ℓ} :
    {A : Type ℓ} (name : Bytes) (s s' : RedisStream) (a : A) (f : ConsumerGroup → ConsumerGroup × A)
    → ((g : ConsumerGroup) → IsCounted g → IsCounted (f g).0)
    → AllCounted s.groups
    → with_group name s f ≡ ok (s', a)
    → AllCounted s'.groups
unfolding with_group
with_group-AllCounted name s s' a f keep c e = elim (Option-cases (lookup name s.groups)) [
  | inl p ↦ absurd (ground arith)
  | inr (g, p) ↦
      let q : insert name (f g).0 s.groups ≡ s'.groups = ground arith in
      subst AllCounted q
        (insert-AllCounted name (f g).0 s.groups (keep g (lookup-IsCounted name g s.groups c p)) c)
]

release_in_groups-AllCounted :
    (id : StreamId) (gs : Table ConsumerGroup)
    → AllCounted gs
    → AllCounted (release_in_groups id gs)
unfolding release_in_groups
release_in_groups-AllCounted id [] c = tt
release_in_groups-AllCounted id ((n, g) ∷ gs) c =
    (release-IsCounted id g c.0, release_in_groups-AllCounted id gs c.1)

-- XDEL keeps the counts of every group right.
pub xdel-AllCounted :
    (targets : List StreamId) (s : RedisStream)
    → AllCounted s.groups
    → AllCounted (xdel targets s).0.groups
unfolding xdel
xdel-AllCounted [] s c = c
xdel-AllCounted (id ∷ rest) s c = elim (Bool-cases (contains id s.entries)) [
  | inl e ↦
      rw (e, xdel)
        (xdel-AllCounted rest (xdel_one id s) (release_in_groups-AllCounted id s.groups c))
  | inr e ↦ rw (e, xdel) (xdel-AllCounted rest s c)
]

-- The XGROUP operations and XACK keep the counts of every group right.
module _ (s s' : RedisStream) (c : AllCounted s.groups) where
  pub xack-AllCounted :
      (name : Bytes) (targets : List StreamId) (n : ℕ)
      → xack name targets s ≡ ok (s', n)
      → AllCounted s'.groups
  unfolding xack
  xack-AllCounted name targets n =
      with_group-AllCounted name s s' n (ack_all targets) (ack_all-IsCounted targets) c

  pub group_create-AllCounted :
      (name : Bytes) (id : StreamId) (read : Option ℕ)
      → group_create name id read s ≡ ok s'
      → AllCounted s'.groups
  unfolding group_create
  group_create-AllCounted name id read e = elim (Bool-cases (contains_key name s.groups)) [
    | inl p ↦ absurd (ground arith)
    | inr p ↦
        let g : ConsumerGroup = record (new_group name id) { entries_read = read } in
        let q : insert name g s.groups ≡ s'.groups = ground arith in
        subst AllCounted q (insert-AllCounted name g s.groups (new_group-IsCounted name id read) c)
  ]

  pub group_create_consumer-AllCounted :
      (now : ℕ) (group_name name : Bytes) (b : Bool)
      → group_create_consumer now group_name name s ≡ ok (s', b)
      → AllCounted s'.groups
  unfolding group_create_consumer
  group_create_consumer-AllCounted now group_name name b =
      with_group-AllCounted group_name s s' b (create_consumer now name)
        (create_consumer-IsCounted now name) c

  pub group_del_consumer-AllCounted :
      (group_name name : Bytes) (n : ℕ)
      → group_del_consumer group_name name s ≡ ok (s', n)
      → AllCounted s'.groups
  unfolding group_del_consumer
  group_del_consumer-AllCounted group_name name n =
      with_group-AllCounted group_name s s' n (del_consumer name) (del_consumer-IsCounted name) c

  pub group_setid-AllCounted :
      (name : Bytes) (id : StreamId) (read : Option ℕ)
      → group_setid name id read s ≡ ok (s', tt)
      → AllCounted s'.groups
  unfolding group_setid
  group_setid-AllCounted name id read =
      with_group-AllCounted name s s' tt (set_cursor id read) (set_cursor-IsCounted id read) c

pub group_destroy-AllCounted :
    (name : Bytes) (s : RedisStream)
    → AllCounted s.groups
    → AllCounted (group_destroy name s).0.groups
unfolding group_destroy
group_destroy-AllCounted name s c = remove-AllCounted name s.groups c

pub xsetid-AllCounted :
    (id : StreamId) (n : Option ℕ) (d : Option StreamId) (s s' : RedisStream)
    → AllCounted s.groups
    → xsetid id n d s ≡ ok s'
    → AllCounted s'.groups
unfolding xsetid
xsetid-AllCounted id n d s s' c e =
    let q : s.groups ≡ s'.groups = ground arith in subst AllCounted q c

pub xadd-AllCounted :
    (now : ℕ) (spec : Chars) (fields : List (Bytes × Bytes)) (id : StreamId) (s s' : RedisStream)
    → AllCounted s.groups
    → xadd now spec fields s ≡ ok (s', id)
    → AllCounted s'.groups
unfolding xadd
xadd-AllCounted now spec fields id s s' c e =
    let q : s.groups ≡ s'.groups = ground arith in subst AllCounted q c
