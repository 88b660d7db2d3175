-- ===== src/Resp/Exact/Nested.antt =====
-- Every value of the RESP parser is read off a prefix that fixes it: `parse_value` of
-- src/protocol/resp.rs.
use kore.Base.{
  ℕ, zero, suc, ◌+◌, ◌≤◌, ◌≡◌, refl, ap, ◌∙◌, true, false, none, some, [], ◌∷◌, ◌++◌, arith, ltb,
  leb, length, length-append, Bytes, take, drop, take-append-drop, length-take, Bool-cases, leb→le,
  inl, inr,
}
use kore.Base.Int.{ℤ, pos, negsuc}
use kore.Resp.{
  RespValue, simple_string, error, integer, bulk_string, array, null_array, map, null, push,
  no_values, value, no_pairs, pair,
}
use kore.Resp.Parser.{
  parsed, parse_error, Parser, ◌>>=◌, ◌>>◌, pure, at_crlf, expect_crlf, parse_i64, read_int,
  natural, at_most, take_bytes, bulk_body, bulk_of, bool_of, reserve, parse_many, parse_pairs,
  array_of, TypeByte, plus, minus, colon, dollar, star, percent, hash, underscore, greater, other,
  type_byte, parse_bool, parse_map, parse_push, parse_body, parse_value, max_bulk, max_array,
}
use kore.Resp.Exact.{
  Exact, bind-eq-parsed, Exact-pure, Exact-fail, Exact-lift, Exact-bind, get_u8-Exact,
  expect_crlf-Exact, read_line-Exact,
}

pub read_int-Exact : Exact read_int
unfolding read_int
read_int-Exact = Exact-bind _ _ read_line-Exact (λ line. Exact-lift (parse_i64 line))

pub at_most-Exact : (bound n : ℕ) → Exact (at_most bound n)
at_most-Exact bound n xs v rest h = ([], ground arith, λ more. ground arith)

pub natural-Exact : (n : ℤ) → Exact (natural n)
natural-Exact (pos n) = Exact-pure n
natural-Exact (negsuc n) = Exact-fail

pub reserve-Exact : (memory len : ℕ) → Exact (reserve memory len)
reserve-Exact memory len xs v rest h = ([], ground arith, λ more. ground arith)

pub take_all :
    (used more : Bytes)
    → (take (length used) (used ++ more) ≡ used) × (drop (length used) (used ++ more) ≡ more)
take_all [] more = (refl, refl)
take_all (c ∷ used) more = (ap (λ l. c ∷ l) (take_all used more).0, (take_all used more).1)

pub take_bytes-append :
    (n : ℕ) (used more : Bytes) → length used ≡ n → take_bytes n (used ++ more) ≡ parsed used more
unfolding take_bytes
take_bytes-append n used more e =
    let (t, d) = take_all used more in
    let fits : leb n (length (used ++ more)) ≡ true = ground (arith, length-append used more) in
    rw (fits, ← e, t, d) refl

take_bytes-eq-parsed :
    (n : ℕ) (xs v rest : Bytes)
    → take_bytes n xs ≡ parsed v rest
    → (xs ≡ v ++ rest) × (length v ≡ n)
unfolding take_bytes
take_bytes-eq-parsed n xs v rest h = elim (Bool-cases (leb n (length xs))) [
  | inl p ↦
      let q : parsed (take n xs) (drop n xs) ≡ parsed v rest = rw p at h in
      let e : take n xs ≡ v = cc in
      let f : drop n xs ≡ rest = cc in
      (
        rw (← e, ← f, take-append-drop n xs) refl,
        rw (← e) (omega (arith, length-take n xs, leb→le n (length xs) p)),
      )
  | inr p ↦ absurd (ground arith)
]

pub take_bytes-Exact : (n : ℕ) → Exact (take_bytes n)
take_bytes-Exact n xs v rest h =
    let (e, l) = take_bytes-eq-parsed n xs v rest h in (v, e, λ more. take_bytes-append n v more l)

-- The string of a bulk string and the end of its line.
abbrev pub bulk_parts : ℕ → Parser RespValue
bulk_parts len = do s ← take_bytes len; expect_crlf; pure (bulk_string (some s))

bulk_parts-Exact : (len : ℕ) → Exact (bulk_parts len)
bulk_parts-Exact len =
    Exact-bind _ _ (take_bytes-Exact len)
      (λ s. Exact-bind _ _ expect_crlf-Exact (λ _. Exact-pure (bulk_string (some s))))

expect_crlf_needs :
    (xs : Bytes) (u : Unit {0}) (rest : Bytes) → expect_crlf xs ≡ parsed u rest → 2 ≤ length xs
unfolding expect_crlf at_crlf
expect_crlf_needs [] u rest h = cc
expect_crlf_needs (c ∷ []) u rest h = cc
expect_crlf_needs (c ∷ d ∷ xs) u rest h = omega arith

-- Where the parts are read there were enough bytes.
bulk_parts_needs :
    (len : ℕ) (xs : Bytes) (v : RespValue) (rest : Bytes)
    → bulk_parts len xs ≡ parsed v rest
    → ltb (length xs) (len + 2) ≡ false
bulk_parts_needs len xs v rest h =
    let (s, mid, i, j) = bind-eq-parsed (take_bytes len xs) _ v rest h in
    let (u, mid', i', j') = bind-eq-parsed (expect_crlf mid) _ v rest j in
    let (e, l) = take_bytes-eq-parsed len xs s mid i in
    let n : length xs ≡ length s + length mid = ap length e ∙ length-append s mid in
    let two = expect_crlf_needs mid u mid' i' in ground arith

pub bulk_body_parts :
    (len : ℕ) (xs : Bytes) (v : RespValue) (rest : Bytes)
    → bulk_parts len xs ≡ parsed v rest
    → bulk_body len xs ≡ parsed v rest
unfolding bulk_body
bulk_body_parts len xs v rest h = rw (bulk_parts_needs len xs v rest h) h

bulk_body-Exact : (len : ℕ) → Exact (bulk_body len)
unfolding bulk_body
bulk_body-Exact len xs v rest h = elim (Bool-cases (ltb (length xs) (len + 2))) [
  | inl p ↦ let q : bulk_body len xs ≡ parse_error = rw (p, bulk_body) refl in absurd (cc)
  | inr p ↦
      let (used, e, k) = bulk_parts-Exact len xs v rest (rw (p, bulk_body) at h) in
      (used, e, λ more. bulk_body_parts len (used ++ more) v more (k more))
]

pub bulk_of-Exact : (n : ℤ) → Exact (bulk_of n)
unfolding bulk_of
bulk_of-Exact (negsuc zero) = Exact-pure (bulk_string none)
bulk_of-Exact (negsuc (suc n)) = Exact-fail
bulk_of-Exact (pos len) = Exact-bind _ _ (at_most-Exact max_bulk len) (λ _. bulk_body-Exact len)

pub bool_of-Exact : (b : ℕ) → Exact (bool_of b)
unfolding bool_of
bool_of-Exact b xs v rest h = ([], ground arith, λ more. ground arith)

module _ (read : Parser RespValue) (exact : Exact read) where
  pub parse_many-Exact : (n : ℕ) → Exact (parse_many read n)
  unfolding parse_many
  parse_many-Exact zero = Exact-pure no_values
  parse_many-Exact (suc n) =
      Exact-bind _ _ exact
        (λ v. Exact-bind _ _ (parse_many-Exact n) (λ vs. Exact-pure (value v vs)))

  pub parse_pairs-Exact : (n : ℕ) → Exact (parse_pairs read n)
  unfolding parse_pairs
  parse_pairs-Exact zero = Exact-pure no_pairs
  parse_pairs-Exact (suc n) = Exact-bind _ _ exact (λ k.
      Exact-bind _ _ exact
        (λ v. Exact-bind _ _ (parse_pairs-Exact n) (λ ps. Exact-pure (pair k v ps))))

  pub array_of-Exact : (n : ℤ) → Exact (array_of read n)
  unfolding array_of
  array_of-Exact (negsuc zero) = Exact-pure null_array
  array_of-Exact (negsuc (suc n)) = Exact-fail
  array_of-Exact (pos len) =
      Exact-bind _ _ (at_most-Exact max_array len)
        (λ _. Exact-bind _ _ (parse_many-Exact len) (λ vs. Exact-pure (array vs)))

  parse_body-Exact : (memory : ℕ) (t : TypeByte) → Exact (parse_body memory read t)
  unfolding parse_body parse_map parse_push parse_bool
  parse_body-Exact memory plus = Exact-bind _ _ read_line-Exact (λ l. Exact-pure (simple_string l))
  parse_body-Exact memory minus = Exact-bind _ _ read_line-Exact (λ l. Exact-pure (error l))
  parse_body-Exact memory colon = Exact-bind _ _ read_int-Exact (λ n. Exact-pure (integer n))
  parse_body-Exact memory dollar = Exact-bind _ _ read_int-Exact bulk_of-Exact
  parse_body-Exact memory star = Exact-bind _ _ read_int-Exact array_of-Exact
  parse_body-Exact memory percent = Exact-bind _ _ read_int-Exact (λ n.
      Exact-bind _ _ (natural-Exact n) (λ len.
        Exact-bind _ _ (reserve-Exact memory (len + len))
          (λ _. Exact-bind _ _ (parse_pairs-Exact len) (λ ps. Exact-pure (map ps)))))
  parse_body-Exact memory hash =
      Exact-bind _ _ get_u8-Exact (λ b. Exact-bind _ _ expect_crlf-Exact (λ _. bool_of-Exact b))
  parse_body-Exact memory underscore = Exact-bind _ _ expect_crlf-Exact (λ _. Exact-pure null)
  parse_body-Exact memory greater = Exact-bind _ _ read_int-Exact (λ n.
      Exact-bind _ _ (natural-Exact n) (λ len.
        Exact-bind _ _ (reserve-Exact memory len)
          (λ _. Exact-bind _ _ (parse_many-Exact len) (λ vs. Exact-pure (push vs)))))
  parse_body-Exact memory other = Exact-fail

pub parse_value-Exact : (memory fuel : ℕ) → Exact (parse_value memory fuel)
unfolding parse_value
parse_value-Exact memory zero = λ xs v rest h. cc
parse_value-Exact memory (suc fuel) = Exact-bind _ _ get_u8-Exact (λ c.
    parse_body-Exact (parse_value memory fuel) (parse_value-Exact memory fuel) memory (type_byte c))

-- A value is read off a prefix of the cursor: the same bytes give the same value, whatever follows
-- them, and what follows is left.
pub parse_value_prefix :
    (memory fuel : ℕ) (xs : Bytes) (v : RespValue) (rest : Bytes)
    → parse_value memory fuel xs ≡ parsed v rest
    → (used : Bytes) × (xs ≡ used ++ rest)
      × ((more : Bytes) → parse_value memory fuel (used ++ more) ≡ parsed v more)
parse_value_prefix = parse_value-Exact
