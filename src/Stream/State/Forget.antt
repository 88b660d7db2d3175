-- ===== src/Stream/State/Forget.antt =====
-- What a trim does to the pending counts of a group: remove_entry_and_pel of src/stream_type.rs.
use kore.Base.{
  ◌+◌, ◌-◌, ◌<◌, ◌≡◌, ◌↔◌, refl, ap, sym, subst, ◌∙◌, true, false, Option, none, some, [], ◌∷◌,
  ◌++◌, arith, ltb, if◌then◌else◌, Bytes, same, same_iff, same_refl, Bool-cases, inl, inr,
}
use kore.Base.Table.{Table, lookup, Distinct}
use kore.Stream.Id.{StreamId}
use kore.Stream.Index.{Index, find, contains, delete, delete-Sorted}
use kore.Stream.State.{
  PendingEntry, Consumer, ConsumerGroup, drop_first_pending, forget_in_group, owned,
}
use kore.Stream.Groups.Counts.{IsCounted, pending_of, counted, owned-delete}

abbrev pub NonePending : Table Consumer → Type 0
NonePending [] = Unit
NonePending ((n, c) ∷ cs) = (c.pending ≡ 0) × NonePending cs

-- The first consumer of a table that has pending entries.
pub record FirstPending (cs : Table Consumer) : Type 0 where
  pub before : Table Consumer
  pub name : Bytes
  pub consumer : Consumer
  pub after : Table Consumer
  pub split : cs ≡ before ++ (name, consumer) ∷ after
  pub none_before : NonePending before
  pub some_pending : 0 < consumer.pending

abbrev pub one_less : Consumer → Consumer
one_less c = record c { pending = c.pending - 1 }

first_pending : (n : Bytes) (cs : Table Consumer) → 0 < pending_of n cs → FirstPending cs
unfolding pending_of lookup
first_pending n [] h = absurd (omega (arith, h))
first_pending n ((k, c) ∷ cs) h = elim (Bool-cases (ltb 0 c.pending)) [
  | inl p ↦ record {
    before = [];
    name = k;
    consumer = c;
    after = cs;
    split = refl;
    none_before = tt;
    some_pending = ground (arith, p);
  }
  | inr p ↦
      let f = first_pending n cs (ground (arith, h, p)) in
      record {
        before = (k, c) ∷ f.before;
        name = f.name;
        consumer = f.consumer;
        after = f.after;
        split = ap (◌∷◌ (k, c)) f.split;
        none_before = (ground (arith, p), f.none_before);
        some_pending = f.some_pending;
      }
]

drop_first_pending_lem :
    (before after : Table Consumer) (n : Bytes) (c : Consumer)
    → NonePending before
    → 0 < c.pending
    → drop_first_pending (before ++ (n, c) ∷ after) ≡ before ++ (n, one_less c) ∷ after
unfolding drop_first_pending
drop_first_pending_lem [] after n c h p = ground (arith, p)
drop_first_pending_lem ((k, d) ∷ before) after n c h p =
    ground (arith, h.0, drop_first_pending_lem before after n c h.1 p)

absent :
    (k n : Bytes) (c : Consumer) (before after : Table Consumer)
    → lookup k (before ++ (n, c) ∷ after) ≡ none
    → same n k ≡ false
unfolding lookup
absent k n c [] after h = ground (arith, h)
absent k n c ((j, x) ∷ before) after h = absent k n c before after (ground (arith, h))

same-false : (n k m : Bytes) → same k m ≡ true → same n k ≡ false → same n m ≡ false
same-false n k m h e = rw (sym ((same_iff k m).0 h)) e

module _ (m k : Bytes) (x : Consumer) (cs : Table Consumer) where
  pending_of-hit : same k m ≡ true → pending_of m ((k, x) ∷ cs) ≡ x.pending
  unfolding pending_of lookup
  pending_of-hit p = rw (p, pending_of) refl

  pending_of-miss : same k m ≡ false → pending_of m ((k, x) ∷ cs) ≡ pending_of m cs
  unfolding pending_of lookup
  pending_of-miss p = rw (p, pending_of) refl

-- The count under a name depends on one consumer only, in a table without a name twice.
pending_of-at :
    (m n : Bytes) (c d : Consumer) (before after : Table Consumer)
    → Distinct (before ++ (n, c) ∷ after)
    → pending_of m (before ++ (n, d) ∷ after)
      ≡ (if same n m then d.pending else pending_of m (before ++ (n, c) ∷ after))
pending_of-at m n c d [] after h = elim (Bool-cases (same n m)) [
  | inl p ↦ rw p (pending_of-hit m n d after p)
  | inr p ↦ rw p (pending_of-miss m n d after p ∙ sym (pending_of-miss m n c after p))
]
pending_of-at m n c d ((k, x) ∷ before) after h =
    let old = before ++ (n, c) ∷ after in
    let new = before ++ (n, d) ∷ after in
    elim (Bool-cases (same k m)) [
      | inl p ↦
          let q = same-false n k m p (absent k n c before after h.0) in
          pending_of-hit m k x new p ∙ rw q (sym (pending_of-hit m k x old p))
      | inr p ↦
          pending_of-miss m k x new p
          ∙ pending_of-at m n c d before after h.1
          ∙ ap (λ v. if same n m then d.pending else v) (sym (pending_of-miss m k x old p))
    ]

owned_at :
    (m : Bytes) (id : StreamId) (pe : PendingEntry) (g : ConsumerGroup)
    → find id g.pending ≡ some pe
    → owned m (delete id g.pending) + (if same pe.consumer m then 1 else 0) ≡ owned m g.pending
owned_at m id pe g e =
    ap (λ (o : Option PendingEntry). owned m (delete id g.pending) + counted m o) (sym e)
    ∙ owned-delete m id g.pending

owner_has :
    (id : StreamId) (pe : PendingEntry) (g : ConsumerGroup)
    → IsCounted g
    → find id g.pending ≡ some pe
    → 0 < pending_of pe.consumer g.consumers
owner_has id pe g k e =
    ground (arith, k.counts pe.consumer, owned_at pe.consumer id pe g e, same_refl pe.consumer)

-- What a trim does to a group in which the entry is pending.
abbrev pub IsForgotten :
    (id : StreamId) (g : ConsumerGroup) → FirstPending g.consumers → ConsumerGroup → Type 0
IsForgotten id g f g' =
    (g'.pending ≡ delete id g.pending)
    × (g'.consumers ≡ f.before ++ (f.name, one_less f.consumer) ∷ f.after)

contains-some :
    (id : StreamId) (m : Index PendingEntry) (pe : PendingEntry)
    → find id m ≡ some pe
    → contains id m ≡ true
unfolding contains
contains-some id m pe e = rw (e, contains) refl

forgotten :
    (id : StreamId) (pe : PendingEntry) (g : ConsumerGroup) (f : FirstPending g.consumers)
    → find id g.pending ≡ some pe
    → IsForgotten id g f (forget_in_group id g)
unfolding forget_in_group
forgotten id pe g f e = rw (contains-some id g.pending pe e) (
  refl,
  ap drop_first_pending f.split
      ∙ drop_first_pending_lem f.before f.after f.name f.consumer f.none_before f.some_pending,
)

count_after :
    (id : StreamId) (g : ConsumerGroup) (f : FirstPending g.consumers)
    → Distinct g.consumers
    → (g' : ConsumerGroup) → IsForgotten id g f g'
    → (m : Bytes)
    → pending_of m g'.consumers
      ≡ (if same f.name m then pending_of m g.consumers - 1 else pending_of m g.consumers)
count_after id g f d g' h m =
    let c = f.consumer in
    let x = subst Distinct f.split d in
    ground (
      arith,
      ap (pending_of m) h.1,
      ap (pending_of m) f.split,
      pending_of-at m f.name c (one_less c) f.before f.after x,
      pending_of-at m f.name c c f.before f.after x,
    )

first_has :
    (g : ConsumerGroup) (f : FirstPending g.consumers)
    → Distinct g.consumers
    → 0 < pending_of f.name g.consumers
first_has g f d = ground (
  arith,
  f.some_pending,
  ap (pending_of f.name) f.split,
  pending_of-at f.name f.name f.consumer f.consumer f.before f.after (subst Distinct f.split d),
  same_refl f.name,
)

-- A trim takes an entry off the pending list of a group, and takes one off the count of the first
-- consumer of the table that has any; it changes no other count. So the counts stay right exactly when
-- that consumer is the owner of the entry. The counts are right before, the entry is in the list, and
-- the table has no name twice.
pub forget_in_group_lem :
    (id : StreamId) (pe : PendingEntry) (g : ConsumerGroup)
    → IsCounted g
    → Distinct g.consumers
    → find id g.pending ≡ some pe
    → (f : FirstPending g.consumers) × IsForgotten id g f (forget_in_group id g)
      × (IsCounted (forget_in_group id g) ↔ (pe.consumer ≡ f.name))
forget_in_group_lem id pe g k d e =
    let f = first_pending pe.consumer g.consumers (owner_has id pe g k e) in
    let h = forgotten id pe g f e in
    let g' = forget_in_group id g in
    let counts = count_after id g f d g' h in
    (
      f,
      h,
      (
        λ broken. elim (Bool-cases (same pe.consumer f.name)) [
          | inl p ↦ (same_iff pe.consumer f.name).0 p
          | inr p ↦ absurd (
              ground (
                arith,
                p,
                first_has g f d,
                counts f.name,
                broken.counts f.name,
                k.counts f.name,
                ap (owned f.name) h.0,
                owned_at f.name id pe g e,
                same_refl f.name,
              ))
        ],
        λ same_name. record {
          sorted = rw h.0 (delete-Sorted id g.pending k.sorted);
          counts = λ m. ground (
            arith,
            counts m,
            k.counts m,
            ap (owned m) h.0,
            owned_at m id pe g e,
            ap (λ (z : Bytes). same z m) same_name,
          );
        },
      ),
    )
