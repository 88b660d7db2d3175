-- ===== src/Stream/State/Log.antt =====
-- The log of a stream: what XADD appends, and where it fails.
use kore.Base.{
  ℕ, ◌≤◌, ◌<◌, ◌≡◌, refl, ap, sym, ◌∙◌, true, false, Option, none, some, List, [], ◌∷◌, ◌++◌, arith,
  if◌then◌else◌, length, Bytes, subst, same, same_iff,
}
use kore.Stream.Id.{
  StreamId, Chars, lt_id, eq_id, zero_id, u64_max, saturating_add, parse_explicit, to_string_id,
  is_white_space,
}
use kore.Stream.Id.Order.{eq_id_refl, lt_id_irrefl, le-lt_id_trans, lt_id_asymm, IsWord}
use kore.Stream.Id.Text.{parse-to_string_id}
use kore.Stream.Index.{
  Index, find, find-put, contains, Sorted, Below, put-Sorted, put_last, length-put,
}
use kore.Stream.State.{
  StreamEntry, RedisStream, ok, err, id_not_positive, id_too_small, next_auto_id, check_explicit,
  assign_id, append_entry, xadd,
}

-- No ID of the index is above `id`.
abbrev pub AtMost {ℓ} : {V : Type ℓ} → StreamId → Index V → Type 0
AtMost id [] = Unit
AtMost id ((j, v) ∷ m) = (lt_id id j ≡ false) × AtMost id m

-- The log is in order, and no ID is above the last generated one.
pub record IsLog (s : RedisStream) : Type 0 where
  pub sorted : Sorted s.entries
  pub bounded : AtMost s.last_generated_id s.entries

AtMost-Below : (a b : StreamId) (m : Index StreamEntry) → lt_id a b ≡ true → AtMost a m → Below b m
AtMost-Below a b [] h k = tt
AtMost-Below a b ((j, v) ∷ m) h k = (le-lt_id_trans j a b k.0 h, AtMost-Below a b m h k.1)

Below-AtMost : (id : StreamId) (m : Index StreamEntry) → Below id m → AtMost id m
Below-AtMost id [] h = tt
Below-AtMost id ((j, v) ∷ m) h = (lt_id_asymm j id h.0, Below-AtMost id m h.1)

AtMost-append_self :
    (id : StreamId) (e : StreamEntry) (m : Index StreamEntry)
    → AtMost id m
    → AtMost id (m ++ (id, e) ∷ [])
AtMost-append_self id e [] h = (lt_id_irrefl id, tt)
AtMost-append_self id e ((j, v) ∷ m) h = (h.0, AtMost-append_self id e m h.1)

next_auto_id_above :
    (now : ℕ) (last : StreamId) → last.seq < u64_max → lt_id last (next_auto_id now last) ≡ true
unfolding next_auto_id lt_id saturating_add
next_auto_id_above now last h = ground arith

next_auto_id_stuck :
    (now : ℕ) (last : StreamId) → last.seq ≡ u64_max → now ≤ last.ms → next_auto_id now last ≡ last
unfolding next_auto_id saturating_add
next_auto_id_stuck now last h k = ground arith

check_explicit_above :
    (last id : StreamId) (o : Option StreamId)
    → check_explicit last o ≡ ok id
    → lt_id last id ≡ true
unfolding check_explicit
check_explicit_above last id none e = absurd (ground arith)
check_explicit_above last id (some j) e = ground arith

-- The ID that XADD assigns is above the last generated one, if that one can still be counted up.
assign_id_above :
    (now : ℕ) (spec : Chars) (last id : StreamId)
    → last.seq < u64_max
    → assign_id now spec last ≡ ok id
    → lt_id last id ≡ true
unfolding assign_id
assign_id_above now spec last id h e =
    ground (arith, next_auto_id_above now last, check_explicit_above last id (parse_explicit spec))

-- The stream after an accepted XADD.
pub added_log : StreamId → List (Bytes × Bytes) → RedisStream → RedisStream
added_log id fields s = (append_entry fields s id).0

xadd_ok :
    (now : ℕ) (spec : Chars) (fields : List (Bytes × Bytes)) (s s' : RedisStream) (id : StreamId)
    → xadd now spec fields s ≡ ok (s', id)
    → (assign_id now spec s.last_generated_id ≡ ok id) × (added_log id fields s ≡ s')
unfolding xadd added_log
xadd_ok now spec fields s s' id e = (ground arith, ground arith)

added_log-IsLog :
    (id : StreamId) (fields : List (Bytes × Bytes)) (s : RedisStream)
    → IsLog s
    → lt_id s.last_generated_id id ≡ true
    → ((added_log id fields s).entries
        ≡ s.entries ++ (id, record { id = id; fields = fields }) ∷ [])
      × IsLog (added_log id fields s)
unfolding added_log append_entry
added_log-IsLog id fields s v h =
    let e : StreamEntry = record { id = id; fields = fields } in
    let below = AtMost-Below s.last_generated_id id s.entries h v.bounded in
    let last = put_last id e s.entries below in
    (
      last,
      record {
        sorted = put-Sorted id e s.entries v.sorted;
        bounded = rw last (AtMost-append_self id e s.entries (Below-AtMost id s.entries below));
      },
    )

-- A successful XADD, while the last sequence number is below its maximum, appends one entry with the
-- given fields at the end of the log, under an ID above every earlier one, which becomes the last
-- generated one, and leaves the groups alone; the log stays in order.
pub xadd_appends :
    (now : ℕ) (spec : Chars) (fields : List (Bytes × Bytes)) (s s' : RedisStream) (id : StreamId)
    → IsLog s
    → s.last_generated_id.seq < u64_max
    → xadd now spec fields s ≡ ok (s', id)
    → (s'.entries ≡ s.entries ++ (id, record { id = id; fields = fields }) ∷ [])
      × (lt_id s.last_generated_id id ≡ true)
      × (s'.last_generated_id ≡ id)
      × (s'.groups ≡ s.groups)
      × IsLog s'
unfolding added_log append_entry
xadd_appends now spec fields s s' id v h e =
    let (a, q) = xadd_ok now spec fields s s' id e in
    let above = assign_id_above now spec s.last_generated_id id h a in
    let (appended, log) = added_log-IsLog id fields s v above in
    (
      ap (λ (t : RedisStream). t.entries) (sym q) ∙ appended,
      above,
      ap (λ (t : RedisStream). t.last_generated_id) (sym q),
      ap (λ (t : RedisStream). t.groups) (sym q),
      subst IsLog q log,
    )

parse_star : parse_explicit (b'*' ∷ []) ≡ none
unfolding parse_explicit is_white_space
parse_star = refl

to_string_id-not-star : (id : StreamId) → IsWord id → same (to_string_id id) (b'*' ∷ []) ≡ false
to_string_id-not-star id w =
    ground (arith, same_iff (to_string_id id) (b'*' ∷ []), parse_star, parse-to_string_id id w)

-- XADD with an explicit ID that is printed as `ms-seq` accepts exactly the IDs above the last
-- generated one, other than 0-0; a zero ID and one that is not above it have errors of their own.
pub xadd_explicit :
    (now : ℕ) (id : StreamId) (f : Bytes × Bytes) (fs : List (Bytes × Bytes)) (s : RedisStream)
    → IsWord id
    → xadd now (to_string_id id) (f ∷ fs) s ≡ (
        if eq_id id zero_id
        then err id_not_positive
        else if lt_id s.last_generated_id id
        then ok (added_log id (f ∷ fs) s, id)
        else err id_too_small)
unfolding xadd assign_id added_log check_explicit
xadd_explicit now id f fs s w = ground (arith, to_string_id-not-star id w, parse-to_string_id id w)

-- If the last sequence number is the greatest one and the clock is not past the last ID, XADD `*`
-- assigns the last ID once more: it is not above the last generated one. The new entry then stands
-- under it, and if there was an entry under it before, the log does not grow. The log is in order.
pub xadd_saturated :
    (now : ℕ) (f : Bytes × Bytes) (fs : List (Bytes × Bytes)) (s : RedisStream)
    → IsLog s
    → s.last_generated_id.seq ≡ u64_max
    → now ≤ s.last_generated_id.ms
    → (s' : RedisStream) × (xadd now (b'*' ∷ []) (f ∷ fs) s ≡ ok (s', s.last_generated_id))
      × (find s.last_generated_id s'.entries
          ≡ some (record { id = s.last_generated_id; fields = f ∷ fs }))
      × (contains s.last_generated_id s.entries ≡ true → length s'.entries ≡ length s.entries)
unfolding xadd assign_id added_log append_entry same
xadd_saturated now f fs s v h k =
    let last = s.last_generated_id in
    (
      added_log last (f ∷ fs) s,
      ground (arith, next_auto_id_stuck now last h k),
      ground (
        arith,
        find-put last last (record { id = last; fields = f ∷ fs }) s.entries,
        eq_id_refl last,
      ),
      λ there.
          ground
            (arith, length-put last (record { id = last; fields = f ∷ fs }) s.entries v.sorted),
    )
