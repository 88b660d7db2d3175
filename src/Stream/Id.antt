-- ===== src/Stream/Id.antt =====
-- `StreamId` of src/stream_type.rs: its order, its text form and `next_id`. A text is the list of its
-- code points.
pub mod Order
pub mod Text
use kore.Base.{
  ℕ, zero, suc, ◌+◌, ◌-◌, ◌^◌, ◌≤◌, ◌<◌, ◌≡◌, ◌≢◌, refl, ap, Bool, true, false, not, ◌&&◌, ◌||◌,
  Option, none, some, List, [], ◌∷◌, ◌++◌, arith, ltb, leb, ◌==◌, if◌then◌else◌, Bytes, same,
  same_iff, same_refl, ◌⊎◌, inl, inr, Bool-cases,
}
use mathlib.Core.List.{reverse}
use kore.Base.Decimal.{show, parse_unsigned, parse_unsigned-show, parse_unsigned-le}

abbrev pub Chars : Type 0
Chars = List ℕ

abbrev pub u64_max : ℕ
u64_max = 2 ^ 64 - 1

-- `saturating_add` of `u64` and of `usize`.
unfoldable pub saturating_add : ℕ → ℕ → ℕ
saturating_add a b = if leb (a + b) u64_max then a + b else u64_max

pub record StreamId : Type 0 where
  pub ms : ℕ
  pub seq : ℕ

-- `StreamId::ZERO`, which is also `StreamId::MIN`, and `StreamId::MAX`.
abbrev pub zero_id : StreamId
zero_id = record { ms = 0; seq = 0 }

abbrev pub max_id : StreamId
max_id = record { ms = u64_max; seq = u64_max }

-- The derived order and equality: first by `ms`, then by `seq`.
unfoldable pub lt_id : StreamId → StreamId → Bool
lt_id a b = if ltb a.ms b.ms then true else a.ms == b.ms && ltb a.seq b.seq

unfoldable pub eq_id : StreamId → StreamId → Bool
eq_id a b = a.ms == b.ms && a.seq == b.seq

-- White space, as `str::trim` takes it off.
unfoldable pub is_white_space : ℕ → Bool
is_white_space c =
    leb 9 c && leb c 13
    || c == 0x20
    || c == 0x85
    || c == 0xa0
    || c == 0x1680
    || leb 0x2000 c && leb c 0x200a
    || c == 0x2028
    || c == 0x2029
    || c == 0x202f
    || c == 0x205f
    || c == 0x3000

trim_start : Chars → Chars
trim_start [] = []
trim_start (c ∷ cs) = let rest = trim_start cs in if is_white_space c then rest else c ∷ cs

unfoldable pub trim : Chars → Chars
unfolding trim_start
trim s = reverse (trim_start (reverse (trim_start s)))

keep_before : ℕ → Option (Chars × Chars) → Option (Chars × Chars)
keep_before c none = none
keep_before c (some (a, b)) = some (c ∷ a, b)

-- `split_once('-')`.
unfoldable pub split_dash : Chars → Option (Chars × Chars)
unfolding keep_before
split_dash [] = none
split_dash (c ∷ cs) =
    let rest = keep_before c (split_dash cs) in if c == b'-' then some ([], cs) else rest

id_of : Option ℕ → Option ℕ → Option StreamId
id_of (some m) (some s) = some (record { ms = m; seq = s })
id_of _ _ = none

parse_parts : Option (Chars × Chars) → Option StreamId
unfolding id_of
parse_parts none = none
parse_parts (some (a, b)) = id_of (parse_unsigned u64_max a) (parse_unsigned u64_max b)

unfoldable pub parse_explicit : Chars → Option StreamId
unfolding trim split_dash parse_parts
parse_explicit s = parse_parts (split_dash (trim s))

parse_bare : Chars → Option (Chars × Chars) → Option StreamId
unfolding id_of parse_parts
parse_bare s none = id_of (parse_unsigned u64_max s) (some 0)
parse_bare s (some p) = parse_parts (some p)

parse_trimmed : Chars → Option StreamId
unfolding split_dash parse_bare
parse_trimmed s =
    if same s []
    then none
    else if same s (b'-' ∷ [])
    then some zero_id
    else if same s (b'+' ∷ [])
    then some max_id
    else if same s (b'$' ∷ []) || same s (b'*' ∷ [])
    then none
    else parse_bare s (split_dash s)

unfoldable pub parse : Chars → Option StreamId
unfolding trim parse_trimmed
parse s = parse_trimmed (trim s)

unfoldable pub to_string_id : StreamId → Chars
to_string_id id = show id.ms ++ b'-' ∷ show id.seq

unfoldable pub next_id : StreamId → StreamId
next_id id =
    if ltb id.seq u64_max
    then record { ms = id.ms; seq = id.seq + 1 }
    else if ltb id.ms u64_max
    then record { ms = id.ms + 1; seq = 0 }
    else max_id
