-- ===== src/Stream/Reading/Delivery.antt =====
-- What XREADGROUP with `>` delivers: the entries above the cursor of the group, each of them once.
use kore.Base.{
  ℕ, zero, suc, ◌≡◌, ◌≢◌, refl, ap, sym, ◌∙◌, Bool, true, false, Option, List, [], ◌∷◌, arith,
  if◌then◌else◌, inl, inr, length, Bytes, take, drop, Bool-cases,
}
use kore.Stream.Id.{StreamId, lt_id, next_id, max_id}
use kore.Stream.Id.Order.{
  IsWord, next_id_least, lt-le_id_trans, le-lt_id_trans, le_id_trans, lt_id_asymm, lt_id_irrefl,
}
use kore.Stream.Index.{Index, select, values, Sorted, Above, select-Sorted}
use kore.Stream.State.{StreamEntry, ConsumerGroup, from_id}
use kore.Stream.Reading.{deliver_all, recount, see, collect, read_new}

-- Every entry has a 64-bit ID, which is its key.
abbrev pub Keyed : Index StreamEntry → Type 0
Keyed [] = Unit
Keyed ((j, e) ∷ m) = IsWord j × (e.id ≡ j) × Keyed m

-- The entries above an ID.
abbrev pub after : StreamId → Index StreamEntry → Index StreamEntry
after last = select (λ id _. lt_id last id)

from_next :
    (last : StreamId) (m : Index StreamEntry)
    → IsWord last
    → last ≢ max_id
    → Keyed m
    → from_id (next_id last) m ≡ after last m
unfolding from_id select
from_next last [] w ne k = refl
from_next last ((j, e) ∷ m) w ne k =
    let (above, _, least) = next_id_least last j w k.0 ne in
    ground (arith, from_next last m w ne k.2, above, least, lt-le_id_trans last (next_id last) j)

after-Above : (last : StreamId) (m : Index StreamEntry) → Above last (after last m)
unfolding select
after-Above last [] = tt
after-Above last ((j, e) ∷ m) = ground (arith, after-Above last m)

after-Keyed : (last : StreamId) (m : Index StreamEntry) → Keyed m → Keyed (after last m)
unfolding select
after-Keyed last [] k = tt
after-Keyed last ((j, e) ∷ m) k = elim (Bool-cases (lt_id last j)) [
  | inl p ↦ rw p (k.0, k.1, after-Keyed last m k.2)
  | inr p ↦ rw p (after-Keyed last m k.2)
]

after-after :
    (last c : StreamId) (m : Index StreamEntry)
    → lt_id c last ≡ false
    → after c (after last m) ≡ after c m
unfolding select
after-after last c [] h = refl
after-after last c ((j, e) ∷ m) h = ground (arith, after-after last c m h, le-lt_id_trans last c j)

after_all : (last : StreamId) (m : Index StreamEntry) → Above last m → after last m ≡ m
unfolding select
after_all last [] h = refl
after_all last ((j, e) ∷ m) h = ground (arith, after_all last m h.1)

-- The cursor after the first `k` entries.
cursor : StreamId → Index StreamEntry → ℕ → StreamId
cursor last m zero = last
cursor last [] (suc k) = last
cursor last ((j, e) ∷ m) (suc k) = cursor j m k

cursor-le :
    (last : StreamId) (m : Index StreamEntry) (k : ℕ)
    → Above last m
    → Sorted m
    → lt_id (cursor last m k) last ≡ false
unfolding cursor
cursor-le last m zero h s = lt_id_irrefl last
cursor-le last [] (suc k) h s = lt_id_irrefl last
cursor-le last ((j, e) ∷ m) (suc k) h s =
    le_id_trans last j (cursor j m k) (lt_id_asymm last j h.0) (cursor-le j m k s.0 s.1)

after_skip :
    (c j : StreamId) (e : StreamEntry) (m : Index StreamEntry)
    → lt_id c j ≡ false
    → after c ((j, e) ∷ m) ≡ after c m
unfolding select
after_skip c j e m h = rw h refl

after-cursor :
    (last : StreamId) (m : Index StreamEntry) (k : ℕ)
    → Above last m
    → Sorted m
    → after (cursor last m k) m ≡ drop k m
unfolding cursor
after-cursor last m zero h s = after_all last m h
after-cursor last [] (suc k) h s = unfold select in refl
after-cursor last ((j, e) ∷ m) (suc k) h s =
    after_skip (cursor j m k) j e m (cursor-le j m k s.0 s.1) ∙ after-cursor j m k s.0 s.1

-- `collect` returns a first part of the entries.
collect_prefix :
    (count : Option ℕ) (n : ℕ) (es : List StreamEntry)
    → collect count n es ≡ take (length (collect count n es)) es
unfolding collect
collect_prefix count n [] = refl
collect_prefix count n (e ∷ es) = ground (arith, collect_prefix count (suc n) es)

deliver_all-cursor :
    (now : ℕ) (name : Bytes) (noack : Bool) (last : StreamId) (m : Index StreamEntry) (k : ℕ)
    (g : ConsumerGroup)
    → Keyed m
    → g.last_delivered_id ≡ last
    → (deliver_all now name noack (take k (values m)) g).last_delivered_id ≡ cursor last m k
unfolding deliver_all cursor
deliver_all-cursor now name noack last m zero g w e = e
deliver_all-cursor now name noack last [] (suc k) g w e = e
deliver_all-cursor now name true last ((j, v) ∷ m) (suc k) g w e =
    deliver_all-cursor now name true j m k _ w.2 w.1
deliver_all-cursor now name false last ((j, v) ∷ m) (suc k) g w e =
    deliver_all-cursor now name false j m k _ w.2 w.1

values-drop : (k : ℕ) (m : Index StreamEntry) → values (drop k m) ≡ drop k (values m)
values-drop zero m = refl
values-drop (suc k) [] = refl
values-drop (suc k) ((j, e) ∷ m) = values-drop k m

collect-cursor :
    (now : ℕ) (name : Bytes) (noack : Bool) (count : Option ℕ) (last : StreamId)
    (m : Index StreamEntry) (g : ConsumerGroup)
    → Keyed m
    → g.last_delivered_id ≡ last
    → let es = collect count 0 (values m) in
      (deliver_all now name noack es g).last_delivered_id ≡ cursor last m (length es)
collect-cursor now name noack count last m g w e =
    let es = collect count 0 (values m) in
    ap (λ xs. (deliver_all now name noack xs g).last_delivered_id)
      (collect_prefix count 0 (values m))
    ∙ deliver_all-cursor now name noack last m (length es) g w e

-- The cursor of the group after the read of the entries `m`.
read_cursor :
    (now : ℕ) (name : Bytes) (count : Option ℕ) (noack : Bool) (last : StreamId)
    (m : Index StreamEntry) (g : ConsumerGroup)
    → Keyed m
    → g.last_delivered_id ≡ last
    → let es = collect count 0 (values m) in
      let g' = deliver_all now name noack es (see now name g) in
      (if noack then g' else recount name g').last_delivered_id ≡ cursor last m (length es)
unfolding recount see
read_cursor now name count true last m g w e = collect-cursor now name true count last m _ w e
read_cursor now name count false last m g w e = collect-cursor now name false count last m _ w e

rest_of_read :
    (last : StreamId) (m : Index StreamEntry) (k : ℕ)
    → Sorted m
    → values (after (cursor last (after last m) k) m) ≡ drop k (values (after last m))
rest_of_read last m k s =
    let fresh = after last m in
    let above = after-Above last m in
    let sorted = select-Sorted (λ id _. lt_id last id) m s in
    ap values (
      sym (after-after last (cursor last fresh k) m (cursor-le last fresh k above sorted))
      ∙ after-cursor last fresh k above sorted)
    ∙ values-drop k fresh

-- A read of new entries returns a first part of the entries above the cursor of the group, in order,
-- and the entries above the new cursor are exactly the others: no entry is skipped and none is
-- delivered twice. The log is in order under 64-bit IDs, and the cursor is not the greatest ID.
pub read_new_once :
    (now : ℕ) (name : Bytes) (count : Option ℕ) (noack : Bool) (entries : Index StreamEntry)
    (g : ConsumerGroup)
    → Sorted entries
    → Keyed entries
    → IsWord g.last_delivered_id
    → g.last_delivered_id ≢ max_id
    → let (g', es) = read_new now name count noack entries g in
      let fresh = values (after g.last_delivered_id entries) in
      (es ≡ take (length es) fresh)
      × (values (after g'.last_delivered_id entries) ≡ drop (length es) fresh)
unfolding read_new
read_new_once now name count noack entries g s w v ne =
    let last = g.last_delivered_id in
    let fresh = after last entries in
    let keyed = after-Keyed last entries w in
    let read : from_id (next_id last) entries ≡ fresh = from_next last entries v ne w in
    rw read (
      collect_prefix count 0 (values fresh),
      ap (λ c. values (after c entries)) (read_cursor now name count noack last fresh g keyed refl)
          ∙ rest_of_read last entries (length (collect count 0 (values fresh))) s,
    )
