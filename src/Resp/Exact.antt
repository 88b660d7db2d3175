-- ===== src/Resp/Exact.antt =====
-- A parser takes a prefix of the cursor that fixes what it returns: for the parsers of
-- src/protocol/resp.rs.
pub mod Nested
pub mod Fuel
pub mod Deeper
use kore.Base.{
  ℕ, zero, suc, ◌+◌, ◌-◌, ◌≤◌, ◌<◌, ◌≡◌, ◌≢◌, refl, ap, sym, ◌∙◌, subst, Bool, true, false, ◌&&◌,
  Option, none, some, List, [], ◌∷◌, ◌++◌, arith, if◌then◌else◌, ltb, leb, ◌==◌, length,
  length-append, Bytes, take, drop, take-append-drop, length-take, Bool-cases, ◌⊎◌, inl, inr, min,
}
use kore.Base.Int.{ℤ, pos, negsuc}
use kore.Resp.{RespValue, Values, Pairs}
use kore.Resp.Parser.{
  Parsed, parsed, parse_error, no_memory, out_of_fuel, Parser, bind, ◌>>=◌, ◌>>◌, pure, fail,
  get_u8, at_crlf, longer, read_line, expect_crlf, parse_i64, lift, read_int, natural, at_most,
  take_bytes, bulk_body, bulk_of, bool_of, reserve, parse_many, parse_pairs, array_of, TypeByte,
  plus, minus, colon, dollar, star, percent, hash, underscore, greater, other, type_byte,
  parse_bool, parse_map, parse_push, parse_body, parse_value, max_bulk, max_array,
}

-- What is read is read off any input that begins with the bytes that were used.
abbrev pub Exact {ℓ} : {A : Type ℓ} → Parser A → Type ℓ
Exact {A = A} p =
    (xs : Bytes) (v : A) (rest : Bytes)
    → p xs ≡ parsed v rest
    → (used : Bytes) × (xs ≡ used ++ rest) × ((more : Bytes) → p (used ++ more) ≡ parsed v more)

pub append_assoc : (a b c : Bytes) → (a ++ b) ++ c ≡ a ++ (b ++ c)
append_assoc [] b c = refl
append_assoc (x ∷ a) b c = ap (λ l. x ∷ l) (append_assoc a b c)

pub bind-eq-parsed {ℓ κ} :
    {A : Type ℓ} {B : Type κ} (m : Parsed A) (f : A → Parser B) (v : B) (rest : Bytes)
    → bind m f ≡ parsed v rest
    → (a : A) × (mid : Bytes) × (m ≡ parsed a mid) × (f a mid ≡ parsed v rest)
bind-eq-parsed (parsed a mid) f v rest h = (a, mid, refl, h)
bind-eq-parsed parse_error f v rest h = cc
bind-eq-parsed no_memory f v rest h = cc
bind-eq-parsed out_of_fuel f v rest h = cc

module _ {ℓ} {A : Type ℓ} where
  pub Exact-pure : (a : A) → Exact (pure a)
  Exact-pure a xs v rest h = ([], cc, λ more. cc)

  pub Exact-fail : Exact (fail {A = A})
  Exact-fail xs v rest h = cc

  pub Exact-lift : (o : Option A) → Exact (lift o)
  Exact-lift none = Exact-fail
  Exact-lift (some a) = Exact-pure a

pub Exact-bind {ℓ κ} :
    {A : Type ℓ} {B : Type κ} (p : Parser A) (f : A → Parser B)
    → Exact p
    → ((a : A) → Exact (f a))
    → Exact (p >>= f)
Exact-bind p f e k xs v rest h =
    let (a, mid, i, j) = bind-eq-parsed (p xs) f v rest h in
    let (used, x, y) = e xs a mid i in
    let (used', x', y') = k a mid v rest j in
    (
      used ++ used',
      x ∙ ap (λ l. used ++ l) x' ∙ sym (append_assoc used used' rest),
      λ more.
          ap (λ l. bind (p l) f) (append_assoc used used' more)
          ∙ ap (λ m. bind m f) (y (used' ++ more))
          ∙ y' more,
    )

pub get_u8-Exact : Exact get_u8
unfolding get_u8
get_u8-Exact [] v rest h = cc
get_u8-Exact (c ∷ cs) v rest h = (c ∷ [], cc, λ more. cc)

pub expect_crlf-Exact : Exact expect_crlf
unfolding expect_crlf at_crlf
expect_crlf-Exact [] v rest h = cc
expect_crlf-Exact (c ∷ []) v rest h = cc
expect_crlf-Exact (c ∷ d ∷ cs) v rest h = elim (Bool-cases ((c == 13) && (d == 10))) [
  | inl p ↦ (c ∷ d ∷ [], ground arith, λ more. rw p refl)
  | inr p ↦ absurd (ground arith)
]

longer-eq-parsed :
    (c : ℕ) (m : Parsed Bytes) (v rest : Bytes)
    → longer c m ≡ parsed v rest
    → (line : Bytes) × (m ≡ parsed line rest) × (v ≡ c ∷ line)
unfolding longer
longer-eq-parsed c (parsed line r) v rest h = (line, cc, cc)
longer-eq-parsed c parse_error v rest h = cc
longer-eq-parsed c no_memory v rest h = cc
longer-eq-parsed c out_of_fuel v rest h = cc

read_line_more :
    (c : ℕ) (cs : Bytes) → at_crlf (c ∷ cs) ≡ false → read_line (c ∷ cs) ≡ longer c (read_line cs)
unfolding read_line
read_line_more c cs h = rw h refl

read_line_end :
    (c d : ℕ) (cs : Bytes) → ((c == 13) && (d == 10)) ≡ true → read_line (c ∷ d ∷ cs) ≡ parsed [] cs
unfolding read_line
read_line_end c d cs h = rw h refl

read_line-longer :
    (c : ℕ) (cs line used rest : Bytes)
    → at_crlf (c ∷ cs) ≡ false
    → cs ≡ used ++ rest
    → ((more : Bytes) → read_line (used ++ more) ≡ parsed line more)
    → (more : Bytes) → read_line (c ∷ used ++ more) ≡ parsed (c ∷ line) more
unfolding at_crlf longer
read_line-longer c cs line [] rest h e k more = absurd (no_line (k []))
  where
    no_line : read_line [] ≡ parsed line [] → ⊥
    no_line q = unfold read_line in cc
read_line-longer c cs line (d ∷ used) rest h e k more =
    let open_line : at_crlf (c ∷ d ∷ used ++ more) ≡ false =
      subst (λ l. at_crlf (c ∷ l) ≡ false) e h in
    read_line_more c (d ∷ used ++ more) open_line ∙ ap (longer c) (k more)

pub read_line-Exact : Exact read_line
unfolding at_crlf
read_line-Exact [] v rest h = unfold read_line in cc
read_line-Exact (c ∷ []) v rest h = unfold read_line longer in cc
read_line-Exact (c ∷ d ∷ cs) v rest h = elim (Bool-cases ((c == 13) && (d == 10))) [
  | inl p ↦
      let q : parsed [] cs ≡ parsed v rest = sym (read_line_end c d cs p) ∙ h in
      (c ∷ d ∷ [], cc, λ more. read_line_end c d more p ∙ cc)
  | inr p ↦
      let (line, i, j) =
        longer-eq-parsed c (read_line (d ∷ cs)) v rest (sym (read_line_more c (d ∷ cs) p) ∙ h) in
      let (used, x, y) = read_line-Exact (d ∷ cs) line rest i in
      (
        c ∷ used,
        ap (λ l. c ∷ l) x,
        λ more. read_line-longer c (d ∷ cs) line used rest p x y more ∙ cc,
      )
]
