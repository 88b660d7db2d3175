-- ===== src/Stream/Id/Text.antt =====
-- The text form of a stream ID: printing and parsing.
use kore.Base.{ℕ, ◌≤◌, ◌≡◌, refl, ap, ◌∙◌, false, arith, [], ◌∷◌, ◌++◌, some, same}
use mathlib.Core.List.{reverse, reverse-cons, reverse-reverse}
use kore.Base.Decimal.{
  is_digit, BeginsWithDigit-append, show, parse_unsigned-show, show-AllDigits, AllDigits,
  show-BeginsWithDigit, BeginsWithDigit,
}
use kore.Stream.Id.{
  StreamId, Chars, u64_max, trim, trim_start, is_white_space, split_dash, parse_explicit, parse,
  to_string_id, parse_trimmed, parse_parts,
}
use kore.Stream.Id.Order.{IsWord}

-- No white space.
abbrev Solid : Chars → Type 0
Solid [] = Unit
Solid (c ∷ cs) = (is_white_space c ≡ false) × Solid cs

Solid-append : (xs ys : Chars) → Solid xs → Solid ys → Solid (xs ++ ys)
Solid-append [] ys h k = k
Solid-append (x ∷ xs) ys h k = (h.0, Solid-append xs ys h.1 k)

Solid-reverse : (xs : Chars) → Solid xs → Solid (reverse xs)
Solid-reverse [] h = tt
Solid-reverse (x ∷ xs) h =
    rw (reverse-cons x xs) (Solid-append (reverse xs) (x ∷ []) (Solid-reverse xs h.1) (h.0, tt))

trim_start-Solid : (xs : Chars) → Solid xs → trim_start xs ≡ xs
unfolding trim_start
trim_start-Solid [] h = refl
trim_start-Solid (x ∷ xs) h = rw (h.0)

trim-Solid : (xs : Chars) → Solid xs → trim xs ≡ xs
unfolding trim
trim-Solid xs h =
    rw (trim_start-Solid xs h, trim_start-Solid (reverse xs) (Solid-reverse xs h))
      (reverse-reverse xs)

digit_solid : (c : ℕ) → 48 ≤ c → c ≤ 57 → is_white_space c ≡ false
unfolding is_white_space
digit_solid c h k = ground arith

AllDigits-Solid : (xs : Chars) → AllDigits xs → Solid xs
AllDigits-Solid [] h = tt
AllDigits-Solid (x ∷ xs) h = (digit_solid x h.0 h.1, AllDigits-Solid xs h.2)

split_dash-append : (xs ys : Chars) → AllDigits xs → split_dash (xs ++ b'-' ∷ ys) ≡ some (xs, ys)
unfolding split_dash
split_dash-append [] ys h = refl
split_dash-append (x ∷ xs) ys h = ground (arith, split_dash-append xs ys h.2)

to_string_id-Solid : (id : StreamId) → Solid (to_string_id id)
unfolding to_string_id is_white_space
to_string_id-Solid id =
    Solid-append (show id.ms) _ (AllDigits-Solid _ (show-AllDigits id.ms))
      (refl, AllDigits-Solid _ (show-AllDigits id.seq))

split-to_string_id :
    (id : StreamId) → split_dash (trim (to_string_id id)) ≡ some (show id.ms, show id.seq)
split-to_string_id id =
    rw (trim-Solid (to_string_id id) (to_string_id-Solid id))
      (unfold to_string_id in split_dash-append (show id.ms) (show id.seq) (show-AllDigits id.ms))

parse_parts-show :
    (id : StreamId) → IsWord id → parse_parts (some (show id.ms, show id.seq)) ≡ some id
unfolding parse_parts
parse_parts-show id w =
    rw (parse_unsigned-show u64_max id.ms w.ms_fits, parse_unsigned-show u64_max id.seq w.seq_fits)

-- A text of at least two characters that begins with a digit is none of the special forms.
parse_trimmed_plain :
    (xs a b : Chars)
    → BeginsWithDigit xs
    → split_dash xs ≡ some (a, b)
    → parse_trimmed xs ≡ parse_parts (some (a, b))
unfolding parse_trimmed same is_digit
parse_trimmed_plain [] a b h e = absurd h
parse_trimmed_plain (x ∷ xs) a b h e = ground arith

-- A printed ID is read back, by the parser for explicit IDs and by the one that knows the special forms.
pub parse-to_string_id :
    (id : StreamId)
    → IsWord id
    → (parse_explicit (to_string_id id) ≡ some id) × (parse (to_string_id id) ≡ some id)
unfolding parse_explicit parse
parse-to_string_id id w = (
  ap parse_parts (split-to_string_id id) ∙ parse_parts-show id w,
  parse_trimmed_plain (trim (to_string_id id)) (show id.ms) (show id.seq)
        (rw (trim-Solid (to_string_id id) (to_string_id-Solid id)) (
          unfold to_string_id in
          BeginsWithDigit-append (show id.ms) _ (show-BeginsWithDigit id.ms)))
        (split-to_string_id id)
      ∙ parse_parts-show id w,
)
