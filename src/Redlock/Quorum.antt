-- ===== src/Redlock/Quorum.antt =====
-- Mutual exclusion: two clients never have a quorum at once, and none of the calls of one client takes
-- an instance from another one.
use kore.Base.{
  ℕ, zero, suc, ◌+◌, ◌≤◌, ◌<◌, ◌≡◌, ◌≢◌, refl, ap, ◌∙◌, Bool, true, none, some, List, [], ◌∷◌,
  arith, if◌then◌else◌, length, Bytes, Option-cases, inl, inr,
}
use kore.Redlock.{
  LockBackend, Lock, quorum_of, lock_key, acquire_all, release_at, unlock_instances, all_indices,
  validity, try_lock, unlock_backends, extend_all, extend,
}

-- What the interface promises, for the value that an instance holds under a key: an acquisition
-- succeeds only on a free key and then the instance holds the value; no call for one value gives an
-- instance to another one or takes it from that one; an extension succeeds only for the owner. An
-- instance may fail to answer at any call.
pub record IsBackend {S : Type 0} (b : LockBackend S) : Type 0 where
  pub holds : Bytes → Bytes → S → Bool
  pub one_holder : (k v w : Bytes) (s : S) → holds k v s ≡ true → holds k w s ≡ true → v ≡ w
  pub acquired :
      (k v : Bytes) (ttl : ℕ) (s : S)
      → (b.try_acquire k v ttl s).1 ≡ true
      → holds k v (b.try_acquire k v ttl s).0 ≡ true
  pub acquire_keeps :
      (k v w : Bytes) (ttl : ℕ) (s : S)
      → v ≢ w
      → holds k w (b.try_acquire k v ttl s).0 ≡ holds k w s
  pub release_keeps :
      (k v w : Bytes) (s : S) → v ≢ w → holds k w (b.release_if_equal k v s) ≡ holds k w s
  pub extended :
      (k v : Bytes) (ttl : ℕ) (s : S)
      → (b.extend_if_equal k v ttl s).1 ≡ true
      → holds k v (b.extend_if_equal k v ttl s).0 ≡ true
  pub extend_keeps :
      (k v w : Bytes) (ttl : ℕ) (s : S) → holds k w (b.extend_if_equal k v ttl s).0 ≡ holds k w s

module _ {S : Type 0} {b : LockBackend S} (i : IsBackend b) where
  -- The number of instances that hold the value.
  abbrev pub owned : Bytes → Bytes → List S → ℕ
  owned k v [] = 0
  owned k v (s ∷ ss) = if i.holds k v s then suc (owned k v ss) else owned k v ss

  abbrev pub HasQuorum : Bytes → Bytes → List S → Type 0
  HasQuorum k v ss = quorum_of (length ss) ≤ owned k v ss

  owned_both : (k v w : Bytes) (ss : List S) → v ≢ w → owned k v ss + owned k w ss ≤ length ss
  owned_both k v w [] ne = omega arith
  owned_both k v w (s ∷ ss) ne = ground (arith, owned_both k v w ss ne, i.one_holder k v w s)

  -- Two clients that both hold a quorum of the instances under a key are the same.
  pub HasQuorum-unique :
      (k v w : Bytes) (ss : List S) → HasQuorum k v ss → HasQuorum k w ss → ¬ (v ≢ w)
  unfolding quorum_of
  HasQuorum-unique k v w ss h l ne = omega (arith, owned_both k v w ss ne, h, l)

  acquire_all-keeps :
      (k v w : Bytes) (ttl idx : ℕ) (ss : List S)
      → v ≢ w
      → owned k w (acquire_all b k v ttl idx ss).0 ≡ owned k w ss
  unfolding acquire_all
  acquire_all-keeps k v w ttl idx [] ne = refl
  acquire_all-keeps k v w ttl idx (s ∷ ss) ne =
      ground (arith, acquire_all-keeps k v w ttl (suc idx) ss ne, i.acquire_keeps k v w ttl s ne)

  acquire_all-owned :
      (k v : Bytes) (ttl idx : ℕ) (ss : List S)
      → length (acquire_all b k v ttl idx ss).1 ≤ owned k v (acquire_all b k v ttl idx ss).0
  unfolding acquire_all
  acquire_all-owned k v ttl idx [] = omega arith
  acquire_all-owned k v ttl idx (s ∷ ss) =
      ground (arith, acquire_all-owned k v ttl (suc idx) ss, i.acquired k v ttl s)

  length-acquire_all :
      (k v : Bytes) (ttl idx : ℕ) (ss : List S)
      → length (acquire_all b k v ttl idx ss).0 ≡ length ss
  unfolding acquire_all
  length-acquire_all k v ttl idx [] = refl
  length-acquire_all k v ttl idx (s ∷ ss) = ap suc (length-acquire_all k v ttl (suc idx) ss)

  release_at-keeps :
      (k v w : Bytes) (idx : ℕ) (ss : List S)
      → v ≢ w
      → owned k w (release_at b k v idx ss) ≡ owned k w ss
  unfolding release_at
  release_at-keeps k v w idx [] ne = refl
  release_at-keeps k v w zero (s ∷ ss) ne = ground (arith, i.release_keeps k v w s ne)
  release_at-keeps k v w (suc idx) (s ∷ ss) ne = ground (arith, release_at-keeps k v w idx ss ne)

  pub unlock_instances-keeps :
      (k v w : Bytes) (is : List ℕ) (ss : List S)
      → v ≢ w
      → owned k w (unlock_instances b k v is ss) ≡ owned k w ss
  unfolding unlock_instances
  unlock_instances-keeps k v w [] ss ne = refl
  unlock_instances-keeps k v w (idx ∷ is) ss ne =
      unlock_instances-keeps k v w is _ ne ∙ release_at-keeps k v w idx ss ne

  extend_all-keeps :
      (k v w : Bytes) (ttl : ℕ) (ss : List S) → owned k w (extend_all b k v ttl ss).0 ≡ owned k w ss
  unfolding extend_all
  extend_all-keeps k v w ttl [] = refl
  extend_all-keeps k v w ttl (s ∷ ss) =
      ground (arith, extend_all-keeps k v w ttl ss, i.extend_keeps k v w ttl s)

  extend_all-owned :
      (k v : Bytes) (ttl : ℕ) (ss : List S) → (extend_all b k v ttl ss).1 ≤ owned k v ss
  unfolding extend_all
  extend_all-owned k v ttl [] = omega arith
  extend_all-owned k v ttl (s ∷ ss) =
      ground (arith, extend_all-owned k v ttl ss, i.extended k v ttl s, i.extend_keeps k v v ttl s)

  -- A lock that `try_lock` returns is held on a quorum of the instances and is valid for a time.
  pub try_lock-HasQuorum :
      (elapsed scaled : ℕ) (resource val : Bytes) (ttl : ℕ) (ss : List S) (l : Lock)
      → (try_lock b elapsed scaled resource val ttl ss).1 ≡ some l
      → HasQuorum (lock_key resource) val (try_lock b elapsed scaled resource val ttl ss).0
        × (0 < l.validity_time)
        × (elapsed + scaled + l.validity_time < ttl)
  unfolding try_lock validity
  try_lock-HasQuorum elapsed scaled resource val ttl ss l e = ground (
    arith,
    acquire_all-owned (lock_key resource) val ttl 0 ss,
    length-acquire_all (lock_key resource) val ttl 0 ss,
  )

  -- `try_lock` for one client, whether it succeeds or fails, neither gives an instance to another
  -- client nor takes one from it.
  pub try_lock-keeps :
      (elapsed scaled : ℕ) (resource val other : Bytes) (ttl : ℕ) (ss : List S)
      → val ≢ other
      → owned (lock_key resource) other (try_lock b elapsed scaled resource val ttl ss).0
        ≡ owned (lock_key resource) other ss
  unfolding try_lock
  try_lock-keeps elapsed scaled resource val other ttl ss ne =
      let key = lock_key resource in
      let (held, is) = acquire_all b key val ttl 0 ss in
      ground (
        arith,
        acquire_all-keeps key val other ttl 0 ss ne,
        unlock_instances-keeps key val other is held ne,
      )

  length-release_at :
      (k v : Bytes) (idx : ℕ) (ss : List S) → length (release_at b k v idx ss) ≡ length ss
  unfolding release_at
  length-release_at k v idx [] = refl
  length-release_at k v zero (s ∷ ss) = refl
  length-release_at k v (suc idx) (s ∷ ss) = ap suc (length-release_at k v idx ss)

  length-unlock_instances :
      (k v : Bytes) (is : List ℕ) (ss : List S) → length (unlock_instances b k v is ss) ≡ length ss
  unfolding unlock_instances
  length-unlock_instances k v [] ss = refl
  length-unlock_instances k v (idx ∷ is) ss =
      length-unlock_instances k v is _ ∙ length-release_at k v idx ss

  length-try_lock :
      (elapsed scaled : ℕ) (resource val : Bytes) (ttl : ℕ) (ss : List S)
      → length (try_lock b elapsed scaled resource val ttl ss).0 ≡ length ss
  unfolding try_lock
  length-try_lock elapsed scaled resource val ttl ss =
      let key = lock_key resource in
      let (held, is) = acquire_all b key val ttl 0 ss in
      ground (arith, length-acquire_all key val ttl 0 ss, length-unlock_instances key val is held)

  -- While one client holds a quorum, no other one gets the lock, and the first one keeps its quorum.
  pub try_lock_excluded :
      (elapsed scaled : ℕ) (resource val owner : Bytes) (ttl : ℕ) (ss : List S)
      → val ≢ owner
      → HasQuorum (lock_key resource) owner ss
      → ((try_lock b elapsed scaled resource val ttl ss).1 ≡ none)
        × HasQuorum (lock_key resource) owner (try_lock b elapsed scaled resource val ttl ss).0
  try_lock_excluded elapsed scaled resource val owner ttl ss ne h =
      let key = lock_key resource in
      let ss' = (try_lock b elapsed scaled resource val ttl ss).0 in
      let kept : HasQuorum key owner ss' =
        rw
          (
            length-try_lock elapsed scaled resource val ttl ss,
            try_lock-keeps elapsed scaled resource val owner ttl ss ne,
          )
          h in
      elim (Option-cases (try_lock b elapsed scaled resource val ttl ss).1) [
        | inl p ↦ (p, kept)
        | inr (l, p) ↦ absurd (
            HasQuorum-unique key val owner ss'
              (try_lock-HasQuorum elapsed scaled resource val ttl ss l p).0 kept ne)
      ]

  -- An extension that succeeds finds the value on a quorum of the instances, and no extension changes
  -- who holds an instance.
  pub extend-HasQuorum :
      (l : Lock) (ttl : ℕ) (ss : List S)
      → ((extend b l ttl ss).1 ≡ true → HasQuorum (lock_key l.resource) l.val ss)
        × ((w : Bytes)
            → owned (lock_key l.resource) w (extend b l ttl ss).0
              ≡ owned (lock_key l.resource) w ss)
  unfolding extend
  extend-HasQuorum l ttl ss = (
    λ e. ground (arith, extend_all-owned (lock_key l.resource) l.val ttl ss),
    λ w. extend_all-keeps (lock_key l.resource) l.val w ttl ss,
  )

  -- Unlocking gives up the instances of its own client only.
  pub unlock_backends-keeps :
      (l : Lock) (w : Bytes) (ss : List S)
      → l.val ≢ w
      → owned (lock_key l.resource) w (unlock_backends b l ss) ≡ owned (lock_key l.resource) w ss
  unfolding unlock_backends
  unlock_backends-keeps l w ss ne =
      unlock_instances-keeps (lock_key l.resource) l.val w (all_indices b 0 ss) ss ne
