-- ===== src/Resp.antt =====
-- The RESP values and their wire format: `RespValue` of src/protocol/resp.rs.
pub mod Parser
pub mod Exact
pub mod RoundTrip
pub mod Framing
pub mod Buffer
mod Tests
use kore.Base.{
  ℕ, zero, suc, ◌+◌, Bool, true, false, Option, none, some, List, [], ◌∷◌, ◌++◌, length, Bytes,
}
use kore.Base.Int.{ℤ, pos, negsuc}
use kore.Base.Decimal.{show}

mutual
  pub data RespValue : Type 0 where
    simple_string : Bytes → RespValue
    error : Bytes → RespValue
    integer : ℤ → RespValue
    bulk_string : Option Bytes → RespValue
    array : Values → RespValue
    null_array : RespValue
    multiple : Values → RespValue
    map : Pairs → RespValue
    bool : Bool → RespValue
    null : RespValue
    push : Values → RespValue

  pub data Values : Type 0 where
    no_values : Values
    value : RespValue → Values → Values

  pub data Pairs : Type 0 where
    no_pairs : Pairs
    pair : RespValue → RespValue → Pairs → Pairs

unfoldable pub values_len : Values → ℕ
values_len no_values = 0
values_len (value v vs) = suc (values_len vs)

unfoldable pub pairs_len : Pairs → ℕ
pairs_len no_pairs = 0
pairs_len (pair k v ps) = suc (pairs_len ps)

-- `i.to_string()` of an `i64`.
unfoldable pub show_int : ℤ → Bytes
show_int (pos n) = show n
show_int (negsuc n) = b'-' ∷ show (suc n)

abbrev pub crlf : Bytes
crlf = 13 ∷ 10 ∷ []

-- A type byte, a length or an integer, and the end of the line.
unfoldable pub head_line : ℕ → ℤ → Bytes
head_line c n = c ∷ (show_int n ++ crlf)

-- What `write_to` appends to the buffer.
unfoldable mutual
  pub write_to : RespValue → Bytes
  write_to (simple_string s) = b'+' ∷ (s ++ crlf)
  write_to (error e) = b'-' ∷ (e ++ crlf)
  write_to (integer i) = head_line b':' i
  write_to (bulk_string none) = b'$' ∷ b'-' ∷ b'1' ∷ crlf
  write_to (bulk_string (some s)) = head_line b'$' (pos (length s)) ++ (s ++ crlf)
  write_to (array vs) = head_line b'*' (pos (values_len vs)) ++ write_all vs
  write_to null_array = b'*' ∷ b'-' ∷ b'1' ∷ crlf
  write_to (multiple vs) = write_all vs
  write_to (map ps) = head_line b'%' (pos (pairs_len ps)) ++ write_pairs ps
  write_to (bool true) = b'#' ∷ b't' ∷ crlf
  write_to (bool false) = b'#' ∷ b'f' ∷ crlf
  write_to null = b'_' ∷ crlf
  write_to (push vs) = head_line b'>' (pos (values_len vs)) ++ write_all vs

  pub write_all : Values → Bytes
  write_all no_values = []
  write_all (value v vs) = write_to v ++ write_all vs

  pub write_pairs : Pairs → Bytes
  write_pairs no_pairs = []
  write_pairs (pair k v ps) = write_to k ++ (write_to v ++ write_pairs ps)

-- `serialize`, whose special case for OK writes the same bytes.
unfoldable pub serialize : RespValue → Bytes
serialize v = write_to v
