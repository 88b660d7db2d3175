-- ===== src/Resp/Exact/Deeper.antt =====
-- More fuel does not change what the RESP parser reads: `parse_value` of src/protocol/resp.rs.
use kore.Base.{ℕ, zero, suc, ◌+◌, ◌≤◌, ◌≡◌, ap, ◌∙◌, arith, Bytes}
use kore.Base.Int.{ℤ, pos, negsuc}
use kore.Resp.{RespValue, array, null_array, map, push, no_values, value, no_pairs, pair}
use kore.Resp.Parser.{
  parsed, Parser, bind, ◌>>=◌, pure, fail, get_u8, read_int, natural, at_most, reserve, parse_many,
  parse_pairs, array_of, TypeByte, plus, minus, colon, dollar, star, percent, hash, underscore,
  greater, other, type_byte, parse_map, parse_push, parse_body, parse_value, max_array,
}
use kore.Resp.Exact.{bind-eq-parsed}

-- What the first parser reads the second one reads too.
abbrev Extends {ℓ} : {A : Type ℓ} → Parser A → Parser A → Type ℓ
Extends {A = A} p q =
    (xs : Bytes) (v : A) (rest : Bytes) → p xs ≡ parsed v rest → q xs ≡ parsed v rest

Extends-refl {ℓ} : {A : Type ℓ} (p : Parser A) → Extends p p
Extends-refl p xs v rest h = h

Extends-bind {ℓ κ} :
    {A : Type ℓ} {B : Type κ} (p q : Parser A) (f g : A → Parser B)
    → Extends p q
    → ((a : A) → Extends (f a) (g a))
    → Extends (p >>= f) (q >>= g)
Extends-bind p q f g e k xs v rest h =
    let (a, mid, i, j) = bind-eq-parsed (p xs) f v rest h in
    ap (λ m. bind m g) (e xs a mid i) ∙ k a mid v rest j

-- The same parser first, and then one that reads more.
Extends-then {ℓ κ} :
    {A : Type ℓ} {B : Type κ} (p : Parser A) (f g : A → Parser B)
    → ((a : A) → Extends (f a) (g a))
    → Extends (p >>= f) (p >>= g)
Extends-then p f g = Extends-bind p p f g (Extends-refl p)

module _ (read read' : Parser RespValue) (more : Extends read read') where
  parse_many-Extends : (n : ℕ) → Extends (parse_many read n) (parse_many read' n)
  unfolding parse_many
  parse_many-Extends zero = Extends-refl (pure no_values)
  parse_many-Extends (suc n) =
      Extends-bind _ _ _ _ more
        (λ v. Extends-bind _ _ _ _ (parse_many-Extends n) (λ vs. Extends-refl (pure (value v vs))))

  parse_pairs-Extends : (n : ℕ) → Extends (parse_pairs read n) (parse_pairs read' n)
  unfolding parse_pairs
  parse_pairs-Extends zero = Extends-refl (pure no_pairs)
  parse_pairs-Extends (suc n) = Extends-bind _ _ _ _ more (λ k.
      Extends-bind _ _ _ _ more (λ v.
        Extends-bind _ _ _ _ (parse_pairs-Extends n) (λ ps. Extends-refl (pure (pair k v ps)))))

  array_of-Extends : (i : ℤ) → Extends (array_of read i) (array_of read' i)
  unfolding array_of
  array_of-Extends (negsuc zero) = Extends-refl (pure null_array)
  array_of-Extends (negsuc (suc n)) = Extends-refl fail
  array_of-Extends (pos len) =
      Extends-then (at_most max_array len) _ _
        (λ _. Extends-bind _ _ _ _ (parse_many-Extends len) (λ vs. Extends-refl (pure (array vs))))

  parse_body-Extends :
      (memory : ℕ) (t : TypeByte) → Extends (parse_body memory read t) (parse_body memory read' t)
  unfolding parse_body parse_map parse_push
  parse_body-Extends memory plus = Extends-refl (parse_body memory read plus)
  parse_body-Extends memory minus = Extends-refl (parse_body memory read minus)
  parse_body-Extends memory colon = Extends-refl (parse_body memory read colon)
  parse_body-Extends memory dollar = Extends-refl (parse_body memory read dollar)
  parse_body-Extends memory star = Extends-then read_int _ _ array_of-Extends
  parse_body-Extends memory percent = Extends-then read_int _ _ (λ i.
      Extends-then (natural i) _ _ (λ len.
        Extends-then (reserve memory (len + len)) _ _ (λ _.
          Extends-bind _ _ _ _ (parse_pairs-Extends len) (λ ps. Extends-refl (pure (map ps))))))
  parse_body-Extends memory hash = Extends-refl (parse_body memory read hash)
  parse_body-Extends memory underscore = Extends-refl (parse_body memory read underscore)
  parse_body-Extends memory greater = Extends-then read_int _ _ (λ i.
      Extends-then (natural i) _ _ (λ len.
        Extends-then (reserve memory len) _ _ (λ _.
          Extends-bind _ _ _ _ (parse_many-Extends len) (λ vs. Extends-refl (pure (push vs))))))
  parse_body-Extends memory other = Extends-refl fail

pub parse_value_mono :
    (memory f g : ℕ) (xs : Bytes) (v : RespValue) (rest : Bytes)
    → f ≤ g
    → parse_value memory f xs ≡ parsed v rest
    → parse_value memory g xs ≡ parsed v rest
unfolding parse_value
parse_value_mono memory zero g xs v rest h e = cc
parse_value_mono memory (suc f) zero xs v rest h e = absurd (omega arith)
parse_value_mono memory (suc f) (suc g) xs v rest h e =
    Extends-then get_u8 _ _
      (λ c.
        parse_body-Extends (parse_value memory f) (parse_value memory g)
          (λ ys w r. parse_value_mono memory f g ys w r (omega arith)) memory (type_byte c))
      xs v rest e
