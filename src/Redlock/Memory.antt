-- ===== src/Redlock/Memory.antt =====
-- An instance of the backend interface of src/redlock/backend.rs: a keyspace in memory whose keys do
-- not expire.
use kore.Base.{
  ◌≡◌, ◌≢◌, refl, ap, sym, ◌∙◌, Bool, true, false, none, some, arith, if◌then◌else◌, Bytes, same,
  same_iff, same_refl, Option-cases, Bool-cases, inl, inr,
}
use kore.Base.Table.{Table, lookup, insert, remove, lookup-insert, lookup-remove}
use kore.Redlock.{LockBackend}
use kore.Redlock.Quorum.{IsBackend}

unfoldable pub stores : Bytes → Bytes → Table Bytes → Bool
stores k v s = elim (lookup k s) [ none ↦ false | some w ↦ same w v ]

-- `SET key val NX`.
unfoldable pub set_if_absent : Bytes → Bytes → Table Bytes → Table Bytes × Bool
set_if_absent k v s = elim (lookup k s) [ none ↦ (insert k v s, true) | some w ↦ (s, false) ]

unfoldable pub delete_if_equal : Bytes → Bytes → Table Bytes → Table Bytes
unfolding stores
delete_if_equal k v s = if stores k v s then remove k s else s

abbrev pub memory : LockBackend (Table Bytes)
memory = record {
  try_acquire = λ k v ttl s. set_if_absent k v s;
  release_if_equal = delete_if_equal;
  extend_if_equal = λ k v ttl s. (s, stores k v s);
}

stores-lookup : (k v : Bytes) (s : Table Bytes) → stores k v s ≡ true → lookup k s ≡ some v
unfolding stores
stores-lookup k v s h = elim (Option-cases (lookup k s)) [
  | inl p ↦ absurd (ground arith)
  | inr (w, p) ↦
      let e : w ≡ v =
        (same_iff w v).0 (sym (ap (λ o. elim o [ none ↦ false | some w ↦ same w v ]) p) ∙ h) in
      p ∙ ap some e
]

pub one_value :
    (k v w : Bytes) (s : Table Bytes) → stores k v s ≡ true → stores k w s ≡ true → v ≡ w
one_value k v w s h l = ground (arith, stores-lookup k v s h, stores-lookup k w s l)

pub set_if_absent_lem :
    (k v : Bytes) (s : Table Bytes)
    → (set_if_absent k v s).1 ≡ true
    → stores k v (set_if_absent k v s).0 ≡ true
unfolding stores set_if_absent
set_if_absent_lem k v s h = ground (arith, lookup-insert k k v s, same_refl k, same_refl v)

pub stores-set_if_absent :
    (k v w : Bytes) (s : Table Bytes) → v ≢ w → stores k w (set_if_absent k v s).0 ≡ stores k w s
unfolding stores set_if_absent
stores-set_if_absent k v w s ne = ground (arith, lookup-insert k k v s, same_refl k, same_iff v w)

pub stores-delete_if_equal :
    (k v w : Bytes) (s : Table Bytes) → v ≢ w → stores k w (delete_if_equal k v s) ≡ stores k w s
unfolding delete_if_equal
stores-delete_if_equal k v w s ne = elim (Bool-cases (stores k v s)) [
  | inr p ↦ rw p refl
  | inl p ↦ rw p (both_absent (stores-lookup k v s p))
]
  where
    both_absent : lookup k s ≡ some v → stores k w (remove k s) ≡ stores k w s
    both_absent e = unfold stores in ground (arith, lookup-remove k k s, same_refl k, same_iff v w)

abbrev pub memory-IsBackend : IsBackend memory
memory-IsBackend = record {
  holds = stores;
  one_holder = one_value;
  acquired = λ k v ttl s. set_if_absent_lem k v s;
  acquire_keeps = λ k v w ttl s. stores-set_if_absent k v w s;
  release_keeps = stores-delete_if_equal;
  extended = λ k v ttl s h. h;
  extend_keeps = λ k v w ttl s. refl;
}
