-- ===== src/Resp/Tests.antt =====
-- Runs of the RESP writer and parser of src/protocol/resp.rs on small values and buffers.
use kore.Base.{
  ℕ, zero, suc, ◌+◌, ◌-◌, ◌≤◌, ◌<◌, ◌≡◌, ◌≢◌, refl, Bool, true, false, Option, none, some, List, [],
  ◌∷◌, ◌++◌, arith, length, Bytes, take, drop,
}
use kore.Base.Int.{pos, negsuc}
use kore.Resp.{
  RespValue, simple_string, integer, bulk_string, array, map, push, no_values, value, no_pairs,
  pair, values_len, pairs_len, write_to, serialize,
}
use kore.Resp.Parser.{
  Parsed, parsed, out_of_fuel, parse_value, RespParser, feed, Outcome, got, unfinished,
  parse_with_consumed,
}
use kore.Resp.RoundTrip.{IsWire}
use kore.Resp.Buffer.{
  parse_with_consumed-feed, parse_with_consumed-serialize, parse_with_consumed_short,
  parse_with_consumed_ends,
}

-- A key and a map of a number, as an array.
abbrev sample : RespValue
sample = array (
    value (bulk_string (some (b'k' ∷ [])))
      (value (map (pair (simple_string (b'n' ∷ [])) (integer (negsuc 4)) no_pairs)) no_values))

sample-IsWire : IsWire 10 sample
unfolding values_len pairs_len
sample-IsWire = omega arith

abbrev one : RespValue
one = integer (pos 1)

one-IsWire : IsWire 10 one
one-IsWire = omega arith

abbrev one_bytes : Bytes
one_bytes = b':' ∷ b'1' ∷ 13 ∷ 10 ∷ []

abbrev one_buffer : RespParser
one_buffer = record { buffer = one_bytes }

abbrev no_buffer : RespParser
no_buffer = record { buffer = [] }

one_written : serialize one ≡ one_bytes
unfolding serialize write_to kore.Resp.head_line kore.Resp.show_int kore.Base.Decimal.show
one_written = refl

one_read : parse_with_consumed 10 one_buffer ≡ (got one 4, no_buffer)
unfolding parse_with_consumed parse_value kore.Resp.Parser.read_int kore.Resp.Parser.read_line
    kore.Resp.Parser.parse_i64 kore.Base.Decimal.read_number
one_read = refl

one_parsed : parse_value 10 5 one_bytes ≡ parsed one []
unfolding parse_value kore.Resp.Parser.read_int kore.Resp.Parser.read_line
    kore.Resp.Parser.parse_i64 kore.Base.Decimal.read_number
one_parsed = refl

sample_short : length (write_to sample) < 60
unfolding write_to kore.Resp.head_line kore.Resp.show_int kore.Base.Decimal.show values_len
    pairs_len
sample_short = omega arith

parse_with_consumed-serialize_example :
    parse_with_consumed 10 (record { buffer = serialize sample ++ one_bytes })
    ≡ (got sample (length (serialize sample)), record { buffer = one_bytes })
parse_with_consumed-serialize_example =
    parse_with_consumed-serialize 10 sample one_bytes sample-IsWire

parse_with_consumed-feed_example :
    (4 ≤ length one_buffer.buffer)
    × (no_buffer.buffer ≡ drop 4 one_buffer.buffer)
    × (parse_with_consumed 10 (feed one_bytes one_buffer) ≡ (got one 4, feed one_bytes no_buffer))
parse_with_consumed-feed_example =
    parse_with_consumed-feed 10 one_bytes one 4 one_buffer no_buffer one_read

parse_with_consumed_short_example :
    parse_with_consumed 10 (record { buffer = (b':' ∷ []) }) ≢ (got sample 9, no_buffer)
parse_with_consumed_short_example =
    parse_with_consumed_short 10 one sample 9 b'1' (b':' ∷ []) (13 ∷ 10 ∷ []) no_buffer one-IsWire
      one_written

parse_with_consumed_ends_example : (parse_with_consumed 10 one_buffer).0 ≢ unfinished
parse_with_consumed_ends_example = parse_with_consumed_ends 10 one_buffer
