-- ===== src/Resp/Parser.antt =====
-- The RESP parser: `RespParser` of src/protocol/resp.rs. A cursor is the list of the bytes that are
-- left of the buffer.
use kore.Base.{
  ℕ, zero, suc, ◌+◌, ◌-◌, Bool, true, false, ◌&&◌, ◌||◌, Option, none, some, [], ◌∷◌, ◌++◌,
  if◌then◌else◌, ltb, leb, ◌==◌, length, Bytes, take, drop,
}
use kore.Base.Int.{ℤ, pos, negsuc}
use kore.Base.Decimal.{read_number}
use kore.Resp.{
  RespValue, Values, Pairs, simple_string, error, integer, bulk_string, array, null_array, map,
  bool, null, push, no_values, value, no_pairs, pair,
}

-- Every failure of the parser is a ParseError. `no_memory` is a `Vec::with_capacity` that cannot be
-- served, which ends the process.
pub data Parsed {ℓ} (A : Type ℓ) : Type ℓ where
  parsed : A → Bytes → Parsed A
  parse_error no_memory out_of_fuel : Parsed A

abbrev pub Parser {ℓ} : Type ℓ → Type ℓ
Parser A = Bytes → Parsed A

abbrev pub bind {ℓ κ} : {A : Type ℓ} {B : Type κ} → Parsed A → (A → Parser B) → Parsed B
bind (parsed a rest) f = f a rest
bind parse_error f = parse_error
bind no_memory f = no_memory
bind out_of_fuel f = out_of_fuel

infixl 1 ◌>>=◌ ◌>>◌
abbrev pub ◌>>=◌ {ℓ κ} : {A : Type ℓ} {B : Type κ} → Parser A → (A → Parser B) → Parser B
p >>= f = λ xs. bind (p xs) f

abbrev pub ◌>>◌ {ℓ κ} : {A : Type ℓ} {B : Type κ} → Parser A → Parser B → Parser B
p >> q = p >>= λ _. q

abbrev pub pure {ℓ} : {A : Type ℓ} → A → Parser A
pure a xs = parsed a xs

abbrev pub fail {ℓ} : {A : Type ℓ} → Parser A
fail xs = parse_error

unfoldable pub get_u8 : Parser ℕ
get_u8 [] = parse_error
get_u8 (c ∷ cs) = parsed c cs

-- The two bytes after which a line ends.
unfoldable pub at_crlf : Bytes → Bool
at_crlf [] = false
at_crlf (c ∷ []) = false
at_crlf (c ∷ d ∷ cs) = (c == 13) && (d == 10)

unfoldable pub longer : ℕ → Parsed Bytes → Parsed Bytes
longer c (parsed line rest) = parsed (c ∷ line) rest
longer c parse_error = parse_error
longer c no_memory = no_memory
longer c out_of_fuel = out_of_fuel

unfoldable pub read_line : Parser Bytes
unfolding at_crlf longer
read_line [] = parse_error
read_line (c ∷ cs) =
    let rest = read_line cs in if at_crlf (c ∷ cs) then parsed [] (drop 1 cs) else longer c rest

unfoldable pub expect_crlf : Parser (Unit {0})
unfolding at_crlf
expect_crlf xs = if at_crlf xs then parsed tt (drop 2 xs) else parse_error

abbrev pub i64_max : ℕ
i64_max = 9223372036854775807

abbrev pub neg : ℕ → ℤ
neg zero = pos 0
neg (suc n) = negsuc n

abbrev pub map_option {ℓ κ} : {A : Type ℓ} {B : Type κ} → (A → B) → Option A → Option B
map_option f none = none
map_option f (some a) = some (f a)

-- `parse::<i64>()`, which refuses what is not ASCII as `from_utf8` before it may.
unfoldable pub parse_i64 : Bytes → Option ℤ
parse_i64 [] = none
parse_i64 (c ∷ cs) =
    if c == b'-'
    then map_option neg (read_number (suc i64_max) cs)
    else if c == b'+'
    then map_option pos (read_number i64_max cs)
    else map_option pos (read_number i64_max (c ∷ cs))

abbrev pub lift {ℓ} : {A : Type ℓ} → Option A → Parser A
lift none = fail
lift (some a) = pure a

unfoldable pub read_int : Parser ℤ
unfolding read_line parse_i64
read_int = do line ← read_line; lift (parse_i64 line)

-- A length that is refused below 0.
abbrev pub natural : ℤ → Parser ℕ
natural (pos n) = pure n
natural (negsuc n) = fail

abbrev pub at_most : ℕ → ℕ → Parser (Unit {0})
at_most bound n = if leb n bound then pure tt else fail

unfoldable pub take_bytes : ℕ → Parser Bytes
take_bytes n xs = if leb n (length xs) then parsed (take n xs) (drop n xs) else parse_error

abbrev pub max_bulk : ℕ
max_bulk = 524288000

abbrev pub max_array : ℕ
max_array = 100000

-- The test of `len + 2` bytes that are left, the string, and its end.
unfoldable pub bulk_body : ℕ → Parser RespValue
unfolding take_bytes expect_crlf
bulk_body len xs =
    if ltb (length xs) (len + 2)
    then parse_error
    else (do s ← take_bytes len; expect_crlf; pure (bulk_string (some s))) xs

unfoldable pub bulk_of : ℤ → Parser RespValue
unfolding bulk_body
bulk_of (negsuc zero) = pure (bulk_string none)
bulk_of (negsuc (suc n)) = fail
bulk_of (pos len) = at_most max_bulk len >> bulk_body len

unfoldable pub bool_of : ℕ → Parser RespValue
bool_of b =
    if (b == b't') || (b == b'T')
    then pure (bool true)
    else if (b == b'f') || (b == b'F')
    then pure (bool false)
    else fail

-- `Vec::with_capacity(len)`: there is room for at most `memory` values, and a pair takes that of two.
abbrev pub reserve : ℕ → ℕ → Parser (Unit {0})
reserve memory len xs = if leb len memory then parsed tt xs else no_memory

-- The loops over a number of values and of pairs, by the parser of one value.
unfoldable pub parse_many : Parser RespValue → ℕ → Parser Values
parse_many read zero = pure no_values
parse_many read (suc n) = do v ← read; vs ← parse_many read n; pure (value v vs)

unfoldable pub parse_pairs : Parser RespValue → ℕ → Parser Pairs
parse_pairs read zero = pure no_pairs
parse_pairs read (suc n) = do k ← read; v ← read; ps ← parse_pairs read n; pure (pair k v ps)

unfoldable pub array_of : Parser RespValue → ℤ → Parser RespValue
unfolding parse_many
array_of read (negsuc zero) = pure null_array
array_of read (negsuc (suc n)) = fail
array_of read (pos len) = do at_most max_array len; vs ← parse_many read len; pure (array vs)

pub data TypeByte : Type 0 where
  plus minus colon dollar star percent hash underscore greater other : TypeByte

unfoldable pub type_byte : ℕ → TypeByte
type_byte c =
    if c == b'+'
    then plus
    else if c == b'-'
    then minus
    else if c == b':'
    then colon
    else if c == b'$'
    then dollar
    else if c == b'*'
    then star
    else if c == b'%'
    then percent
    else if c == b'#'
    then hash
    else if c == b'_'
    then underscore
    else if c == b'>'
    then greater
    else other

unfoldable pub parse_bool : Parser RespValue
unfolding get_u8 expect_crlf bool_of
parse_bool = do b ← get_u8; expect_crlf; bool_of b

unfoldable pub parse_map : ℕ → Parser RespValue → Parser RespValue
unfolding read_int parse_pairs
parse_map memory read = do
  n ← read_int
  len ← natural n
  reserve memory (len + len)
  ps ← parse_pairs read len
  pure (map ps)

unfoldable pub parse_push : ℕ → Parser RespValue → Parser RespValue
unfolding read_int parse_many
parse_push memory read = do
  n ← read_int
  len ← natural n
  reserve memory len
  vs ← parse_many read len
  pure (push vs)

-- The rest of a value after its type byte, by the parser of the values in it.
unfoldable pub parse_body : ℕ → Parser RespValue → TypeByte → Parser RespValue
unfolding read_line read_int bulk_of array_of parse_map parse_push parse_bool expect_crlf
parse_body memory read plus = do line ← read_line; pure (simple_string line)
parse_body memory read minus = do line ← read_line; pure (error line)
parse_body memory read colon = do n ← read_int; pure (integer n)
parse_body memory read dollar = do n ← read_int; bulk_of n
parse_body memory read star = do n ← read_int; array_of read n
parse_body memory read percent = parse_map memory read
parse_body memory read hash = parse_bool
parse_body memory read underscore = do expect_crlf; pure null
parse_body memory read greater = parse_push memory read
parse_body memory read other = fail

-- The recursion spends fuel by the depth of a value.
unfoldable pub parse_value : ℕ → ℕ → Parser RespValue
unfolding get_u8 type_byte parse_body
parse_value memory zero xs = out_of_fuel
parse_value memory (suc fuel) xs =
    (do c ← get_u8; parse_body memory (parse_value memory fuel) (type_byte c)) xs

pub record RespParser : Type 0 where
  pub buffer : Bytes

unfoldable pub new : RespParser
new = record { buffer = [] }

unfoldable pub feed : Bytes → RespParser → RespParser
feed more p = record { buffer = p.buffer ++ more }

-- `Ok(Some((value, pos)))` and `Ok(None)`; the parser has no error of another kind.
pub data Outcome : Type 0 where
  got : RespValue → ℕ → Outcome
  waiting crashed unfinished : Outcome

unfoldable pub advance : RespParser → Parsed RespValue → Outcome × RespParser
advance p (parsed v rest) =
    let consumed = length p.buffer - length rest in
    (got v consumed, record { buffer = drop consumed p.buffer })
advance p parse_error = (waiting, p)
advance p no_memory = (crashed, p)
advance p out_of_fuel = (unfinished, p)

unfoldable pub is_empty : Bytes → Bool
is_empty [] = true
is_empty (c ∷ cs) = false

unfoldable pub parse_with_consumed : ℕ → RespParser → Outcome × RespParser
unfolding advance is_empty
parse_with_consumed memory p =
    if is_empty p.buffer
    then (waiting, p)
    else advance p (parse_value memory (suc (length p.buffer)) p.buffer)

-- The process ends where there is no memory: it has no result.
unfoldable pub value_of : Outcome → Option (Option RespValue)
value_of (got v n) = some (some v)
value_of waiting = some none
value_of crashed = none
value_of unfinished = none

unfoldable pub parse : ℕ → RespParser → Option (Option RespValue) × RespParser
unfolding parse_with_consumed value_of
parse memory p = let (o, p') = parse_with_consumed memory p in (value_of o, p')
