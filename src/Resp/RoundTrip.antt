-- ===== src/Resp/RoundTrip.antt =====
-- A RESP value is read back from its wire format: `write_to` and `parse_value` of src/protocol/resp.rs.
use kore.Base.{
  ℕ, suc, ◌+◌, ◌≤◌, ◌≡◌, refl, ap, ◌∙◌, true, false, ◌&&◌, none, some, [], ◌∷◌, ◌++◌, arith, leb,
  ◌==◌, length, Bytes,
}
use kore.Base.Int.{ℤ, pos, negsuc}
use kore.Resp.{
  RespValue, Values, Pairs, simple_string, error, integer, bulk_string, array, null_array, map,
  bool, null, push, multiple, no_values, value, no_pairs, pair, values_len, pairs_len, show_int,
  crlf,
}
use kore.Resp.Parser.{
  parsed, Parser, bind, ◌>>=◌, ◌>>◌, pure, at_crlf, longer, read_line, expect_crlf, parse_i64,
  read_int, natural, at_most, take_bytes, bulk_of, reserve, parse_many, parse_pairs, array_of,
  colon, dollar, star, percent, greater, parse_map, parse_push, parse_body, max_bulk, max_array,
}
use kore.Base.Decimal.{
  read_number, show, is_digit, read_number-show, BeginsWithDigit, show-BeginsWithDigit, AllDigits,
  show-AllDigits,
}
use kore.Resp.Parser.{i64_max, map_option, neg}
use kore.Resp.Exact.{append_assoc}
use kore.Resp.Exact.Nested.{take_bytes-append, bulk_body_parts}

-- No line ends within the bytes.
abbrev pub NoCrlf : Bytes → Type 0
NoCrlf [] = Unit
NoCrlf (c ∷ []) = Unit
NoCrlf (c ∷ d ∷ cs) = (((c == 13) && (d == 10)) ≡ false) × NoCrlf (d ∷ cs)

abbrev pub IsI64 : ℤ → Type 0
IsI64 (pos n) = n ≤ i64_max
IsI64 (negsuc n) = n ≤ i64_max

-- What the wire format can carry: lines without a line end, 64-bit integers, and lengths within the
-- limits of the parser. `Multiple` is not one value on the wire.
abbrev mutual
  pub IsWire : ℕ → RespValue → Type 0
  IsWire memory (simple_string s) = NoCrlf s
  IsWire memory (error e) = NoCrlf e
  IsWire memory (integer i) = IsI64 i
  IsWire memory (bulk_string none) = Unit
  IsWire memory (bulk_string (some s)) = length s ≤ max_bulk
  IsWire memory (array vs) = (values_len vs ≤ max_array) × AllWire memory vs
  IsWire memory null_array = Unit
  IsWire memory (multiple vs) = ⊥
  IsWire memory (map ps) =
      (pairs_len ps + pairs_len ps ≤ memory) × (pairs_len ps ≤ i64_max) × PairsWire memory ps
  IsWire memory (bool b) = Unit
  IsWire memory null = Unit
  IsWire memory (push vs) = (values_len vs ≤ memory) × (values_len vs ≤ i64_max) × AllWire memory vs

  pub AllWire : ℕ → Values → Type 0
  AllWire memory no_values = Unit
  AllWire memory (value v vs) = IsWire memory v × AllWire memory vs

  pub PairsWire : ℕ → Pairs → Type 0
  PairsWire memory no_pairs = Unit
  PairsWire memory (pair k v ps) = IsWire memory k × IsWire memory v × PairsWire memory ps

read_line-append : (s rest : Bytes) → NoCrlf s → read_line (s ++ (crlf ++ rest)) ≡ parsed s rest
unfolding read_line longer at_crlf
read_line-append [] rest h = refl
read_line-append (c ∷ []) rest h = ground arith
read_line-append (c ∷ d ∷ s) rest h = rw (h.0, read_line-append (d ∷ s) rest h.1) refl

AllDigits-NoCrlf : (s : Bytes) → AllDigits s → NoCrlf s
AllDigits-NoCrlf [] a = tt
AllDigits-NoCrlf (c ∷ []) a = tt
AllDigits-NoCrlf (c ∷ d ∷ s) a = (ground arith, AllDigits-NoCrlf (d ∷ s) a.2)

show_int-NoCrlf : (i : ℤ) → NoCrlf (show_int i)
unfolding show_int at_crlf
show_int-NoCrlf (pos n) = AllDigits-NoCrlf (show n) (show-AllDigits n)
show_int-NoCrlf (negsuc n) =
    minus_first (show (suc n)) (AllDigits-NoCrlf (show (suc n)) (show-AllDigits (suc n)))
  where
    minus_first : (s : Bytes) → NoCrlf s → NoCrlf (b'-' ∷ s)
    minus_first [] a = tt
    minus_first (c ∷ s) a = (refl, a)

parse_i64_digits :
    (s : Bytes) → BeginsWithDigit s → parse_i64 s ≡ map_option pos (read_number i64_max s)
unfolding parse_i64 is_digit
parse_i64_digits [] h = absurd h
parse_i64_digits (c ∷ s) h = ground arith

parse_i64-show_int : (i : ℤ) → IsI64 i → parse_i64 (show_int i) ≡ some i
unfolding show_int
parse_i64-show_int (pos n) h =
    parse_i64_digits (show n) (show-BeginsWithDigit n)
    ∙ ap (map_option pos) (read_number-show i64_max n h)
parse_i64-show_int (negsuc n) h =
    unfold parse_i64 in ap (map_option neg) (read_number-show (suc i64_max) (suc n) (omega arith))

read_int-show_int :
    (i : ℤ) (rest : Bytes) → IsI64 i → read_int (show_int i ++ (crlf ++ rest)) ≡ parsed i rest
unfolding read_int
read_int-show_int i rest h =
    rw (read_line-append (show_int i) rest (show_int-NoCrlf i), parse_i64-show_int i h) refl

read_int-head :
    (i : ℤ) (body rest : Bytes)
    → IsI64 i
    → read_int (((show_int i ++ crlf) ++ body) ++ rest) ≡ parsed i (body ++ rest)
read_int-head i body rest h =
    ap read_int
      (append_assoc (show_int i ++ crlf) body rest ∙ append_assoc (show_int i) crlf (body ++ rest))
    ∙ read_int-show_int i (body ++ rest) h

read_int-minus_one :
    (rest : Bytes) → read_int (b'-' ∷ b'1' ∷ 13 ∷ 10 ∷ rest) ≡ parsed (negsuc 0) rest
unfolding read_int read_line parse_i64 read_number
read_int-minus_one rest = refl

-- A cursor after the type byte, for each kind of value.
module _ (memory : ℕ) (read : Parser RespValue) (rest : Bytes) where
  pub reads_line : (s : Bytes) → NoCrlf s → read_line ((s ++ crlf) ++ rest) ≡ parsed s rest
  reads_line s h = ap read_line (append_assoc s crlf rest) ∙ read_line-append s rest h

  pub reads_no_bulk :
      parse_body memory read dollar (b'-' ∷ b'1' ∷ 13 ∷ 10 ∷ rest) ≡ parsed (bulk_string none) rest
  unfolding parse_body bulk_of
  reads_no_bulk = ap (λ m. bind m bulk_of) (read_int-minus_one rest)

  pub reads_null_array :
      parse_body memory read star (b'-' ∷ b'1' ∷ 13 ∷ 10 ∷ rest) ≡ parsed null_array rest
  unfolding parse_body array_of
  reads_null_array = ap (λ m. bind m (array_of read)) (read_int-minus_one rest)

  pub reads_integer :
      (i : ℤ)
      → IsI64 i
      → parse_body memory read colon ((show_int i ++ crlf) ++ rest) ≡ parsed (integer i) rest
  unfolding parse_body
  reads_integer i h =
      ap (λ m. bind m (λ n. pure (integer n)))
        (ap read_int (append_assoc (show_int i) crlf rest) ∙ read_int-show_int i rest h)

  pub reads_bulk :
      (s : Bytes)
      → length s ≤ max_bulk
      → parse_body memory read dollar (((show_int (pos (length s)) ++ crlf) ++ (s ++ crlf)) ++ rest)
        ≡ parsed (bulk_string (some s)) rest
  unfolding parse_body bulk_of expect_crlf at_crlf
  reads_bulk s h =
      let body : take_bytes (length s) (s ++ (crlf ++ rest)) ≡ parsed s (crlf ++ rest) =
        take_bytes-append (length s) s (crlf ++ rest) refl in
      let fits : leb (length s) max_bulk ≡ true = ground arith in
      ap (λ m. bind m bulk_of) (read_int-head (pos (length s)) (s ++ crlf) rest (omega arith))
      ∙ rw (fits, at_most)
          (bulk_body_parts (length s) ((s ++ crlf) ++ rest) (bulk_string (some s)) rest
            (rw (append_assoc s crlf rest, body) refl))

  module _ (vs : Values) (body : Bytes)
      (inner : parse_many read (values_len vs) (body ++ rest) ≡ parsed vs rest) where
    pub reads_array :
        values_len vs ≤ max_array
        → parse_body memory read star (((show_int (pos (values_len vs)) ++ crlf) ++ body) ++ rest)
          ≡ parsed (array vs) rest
    unfolding parse_body array_of
    reads_array h =
        let fits : leb (values_len vs) max_array ≡ true = ground arith in
        ap (λ m. bind m (array_of read))
          (read_int-head (pos (values_len vs)) body rest (omega arith))
        ∙ rw (fits, at_most) (ap (λ m. bind m (λ l. pure (array l))) inner)

    pub reads_push :
        values_len vs ≤ memory
        → values_len vs ≤ i64_max
        → parse_body memory read greater
            (((show_int (pos (values_len vs)) ++ crlf) ++ body) ++ rest)
          ≡ parsed (push vs) rest
    unfolding parse_body parse_push
    reads_push h k =
        let fits : leb (values_len vs) memory ≡ true = ground arith in
        ap
          (λ m. bind m (λ i. natural i >>= λ len.
            reserve memory len >> (parse_many read len >>= λ l. pure (push l))))
          (read_int-head (pos (values_len vs)) body rest k)
        ∙ rw (fits, reserve) (ap (λ m. bind m (λ l. pure (push l))) inner)

  pub reads_map :
      (ps : Pairs) (body : Bytes)
      → parse_pairs read (pairs_len ps) (body ++ rest) ≡ parsed ps rest
      → pairs_len ps + pairs_len ps ≤ memory
      → pairs_len ps ≤ i64_max
      → parse_body memory read percent (((show_int (pos (pairs_len ps)) ++ crlf) ++ body) ++ rest)
        ≡ parsed (map ps) rest
  unfolding parse_body parse_map
  reads_map ps body inner h k =
      let fits : leb (pairs_len ps + pairs_len ps) memory ≡ true = ground arith in
      ap
        (λ m. bind m (λ i. natural i >>= λ len.
          reserve memory (len + len) >> (parse_pairs read len >>= λ l. pure (map l))))
        (read_int-head (pos (pairs_len ps)) body rest k)
      ∙ rw (fits, reserve) (ap (λ m. bind m (λ l. pure (map l))) inner)
