-- ===== src/Stream/State/Trim.antt =====
-- Trimming a stream: which entries go.
use kore.Base.{
  ℕ, zero, suc, ◌-◌, ◌≤◌, ◌≡◌, refl, ap, sym, ◌∙◌, false, Option, none, some, List, [], ◌∷◌, arith,
  length, take, drop, length-take, length-drop,
}
use kore.Stream.Id.{StreamId, lt_id}
use kore.Stream.Id.Order.{eq_id_refl, lt_id_trans}
use kore.Stream.Index.{Index, find, contains, delete, select, ids, Sorted, Above}
use kore.Stream.State.{
  StreamEntry, RedisStream, remove_entry_and_pel, remove_all, at_most, take_opt, trim_maxlen_limit,
  trim_minid_limit,
}

length-ids : (m : Index StreamEntry) → length (ids m) ≡ length m
length-ids [] = refl
length-ids ((j, v) ∷ m) = ap suc (length-ids m)

remove_head :
    (s : RedisStream) (j : StreamId) (v : StreamEntry) (m : Index StreamEntry)
    → s.entries ≡ (j, v) ∷ m
    → (remove_entry_and_pel j s).entries ≡ m
unfolding remove_entry_and_pel contains find delete
remove_head s j v m e = ground (arith, eq_id_refl j)

remove_all_prefix :
    (n : ℕ) (m : Index StreamEntry) (s : RedisStream)
    → s.entries ≡ m
    → (remove_all (take n (ids m)) s).entries ≡ drop n m
unfolding remove_all
remove_all_prefix zero m s e = e
remove_all_prefix (suc n) [] s e = e
remove_all_prefix (suc n) ((j, v) ∷ m) s e =
    remove_all_prefix n m (remove_entry_and_pel j s) (remove_head s j v m e)

-- MAXLEN trims the oldest entries: as many as the log is too long, but at most the LIMIT. It returns
-- how many that were, and without a LIMIT the log then has at most `max` entries.
pub trim_maxlen_limit_lem :
    (max : ℕ) (limit : Option ℕ) (s : RedisStream)
    → let (s', n) = trim_maxlen_limit max limit s in
      (s'.entries ≡ drop n s.entries)
      × (n ≡ at_most limit (length s.entries - max))
      × (limit ≡ none → length s'.entries ≤ max)
unfolding trim_maxlen_limit at_most
trim_maxlen_limit_lem max limit s =
    let over = at_most limit (length s.entries - max) in
    let size = length-take over (ids s.entries) in
    let len = length-ids s.entries in
    (
      ground (arith, remove_all_prefix over s.entries s, size, len),
      ground (arith, size, len),
      λ h.
          ground (arith, remove_all_prefix over s.entries s, size, len, length-drop over s.entries),
    )

-- The entries with an ID below `minid`, in order.
abbrev pub below : StreamId → Index StreamEntry → Index StreamEntry
below minid = select (λ id _. lt_id id minid)

below_none :
    (minid j : StreamId) (m : Index StreamEntry)
    → lt_id j minid ≡ false
    → Above j m
    → below minid m ≡ []
unfolding select
below_none minid j [] h k = refl
below_none minid j ((i, v) ∷ m) h k =
    ground (arith, below_none minid j m h k.1, lt_id_trans j i minid)

below_prefix :
    (minid : StreamId) (m : Index StreamEntry)
    → Sorted m
    → ids (below minid m) ≡ take (length (below minid m)) (ids m)
unfolding select
below_prefix minid [] s = refl
below_prefix minid ((j, v) ∷ m) s = ground (arith, below_prefix minid m s.1, below_none minid j m)

take-take : (k n : ℕ) (xs : List StreamId) → k ≤ n → take k (take n xs) ≡ take k xs
take-take zero n xs h = refl
take-take (suc k) zero xs h = absurd (omega arith)
take-take (suc k) (suc n) [] h = refl
take-take (suc k) (suc n) (x ∷ xs) h = ap (◌∷◌ x) (take-take k n xs (omega arith))

take_opt_lem :
    (limit : Option ℕ) (n : ℕ) (xs : List StreamId)
    → n ≤ length xs
    → take_opt limit (take n xs) ≡ take (at_most limit n) xs
unfolding take_opt at_most
take_opt_lem none n xs h = refl
take_opt_lem (some k) n xs h = ground (arith, length-take n xs, take-take k n xs)

length-below-le :
    (minid : StreamId) (m : Index StreamEntry) → length (below minid m) ≤ length (ids m)
unfolding select
length-below-le minid [] = omega arith
length-below-le minid ((j, v) ∷ m) = ground (arith, length-below-le minid m)

at_most-le : (limit : Option ℕ) (n : ℕ) → at_most limit n ≤ n
unfolding at_most
at_most-le none n = omega arith
at_most-le (some k) n = omega arith

-- MINID trims the entries below the ID, which are the oldest ones of a log in order, but at most the
-- LIMIT of them; it returns how many that were.
pub trim_minid_limit_lem :
    (minid : StreamId) (limit : Option ℕ) (s : RedisStream)
    → Sorted s.entries
    → let (s', n) = trim_minid_limit minid limit s in
      (s'.entries ≡ drop n s.entries) × (n ≡ at_most limit (length (below minid s.entries)))
unfolding trim_minid_limit
trim_minid_limit_lem minid limit s h =
    let n = length (below minid s.entries) in
    let le = length-below-le minid s.entries in
    let gone : take_opt limit (ids (below minid s.entries))
        ≡ take (at_most limit n) (ids s.entries) =
      ap (take_opt limit) (below_prefix minid s.entries h)
      ∙ take_opt_lem limit n (ids s.entries) le in
    let size : length (take_opt limit (ids (below minid s.entries))) ≡ at_most limit n =
      ap length gone
      ∙ length-take (at_most limit n) (ids s.entries)
      ∙ omega (arith, at_most-le limit n) in
    (
      ap (λ t. (remove_all t s).entries) gone
          ∙ remove_all_prefix (at_most limit n) s.entries s refl
          ∙ ap (λ t. drop t s.entries) (sym size),
      size,
    )
