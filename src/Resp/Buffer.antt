-- ===== src/Resp/Buffer.antt =====
-- The buffer of the RESP parser: `RespParser` of src/protocol/resp.rs. What is fed later does not change
-- what comes first.
use kore.Base.{
  ℕ, suc, ◌-◌, ◌≤◌, ◌≡◌, ◌≢◌, refl, ap, sym, ◌∙◌, [], ◌∷◌, ◌++◌, arith, length, length-append,
  Bytes, drop,
}
use kore.Resp.{RespValue, write_to, serialize}
use kore.Resp.Parser.{Parsed, parsed, parse_error, no_memory, out_of_fuel, parse_value}
use kore.Resp.Parser.{
  RespParser, feed, got, waiting, crashed, unfinished, advance, is_empty, parse_with_consumed,
}
use kore.Resp.Exact.{append_assoc}
use kore.Resp.Exact.Nested.{parse_value_prefix, take_all}
use kore.Resp.Exact.Fuel.{parse_value_ends}
use kore.Resp.Exact.Deeper.{parse_value_mono}
use kore.Resp.RoundTrip.{IsWire}
use kore.Resp.Framing.{parse_value-write_to, write_to_pos}

advance-eq-got :
    (p : RespParser) (m : Parsed RespValue) (v : RespValue) (n : ℕ) (p' : RespParser)
    → advance p m ≡ (got v n, p')
    → (rest : Bytes) × (m ≡ parsed v rest)
      × (n ≡ length p.buffer - length rest)
      × (p'.buffer ≡ drop n p.buffer)
unfolding advance
advance-eq-got p (parsed w rest) v n p' h =
    let o : got w (length p.buffer - length rest) ≡ got v n = ap (λ r. r.0) h in
    let b : drop (length p.buffer - length rest) p.buffer ≡ p'.buffer = ap (λ r. r.1.buffer) h in
    let k : length p.buffer - length rest ≡ n = cc in
    (rest, cc, sym k, sym b ∙ ap (λ i. drop i p.buffer) k)
advance-eq-got p parse_error v n p' h = let o : waiting ≡ got v n = ap (λ r. r.0) h in absurd (cc)
advance-eq-got p no_memory v n p' h = let o : crashed ≡ got v n = ap (λ r. r.0) h in absurd (cc)
advance-eq-got p out_of_fuel v n p' h =
    let o : unfinished ≡ got v n = ap (λ r. r.0) h in absurd (cc)

advance-parsed :
    (used rest : Bytes) (v : RespValue)
    → advance (record { buffer = used ++ rest }) (parsed v rest)
      ≡ (got v (length used), record { buffer = rest })
unfolding advance
advance-parsed used rest v =
    let n : length (used ++ rest) - length rest ≡ length used =
      omega (arith, length-append used rest) in
    rw (n, (take_all used rest).1) refl

parse_prefix :
    (memory c : ℕ) (cs used rest : Bytes) (v : RespValue)
    → c ∷ cs ≡ used ++ rest
    → parse_value memory (suc (suc (length cs))) (c ∷ cs) ≡ parsed v rest
    → parse_with_consumed memory (record { buffer = c ∷ cs })
      ≡ (got v (length used), record { buffer = rest })
unfolding parse_with_consumed is_empty
parse_prefix memory c cs used rest v e h =
    ap (advance (record { buffer = c ∷ cs })) h
    ∙ ap (λ b. advance (record { buffer = b }) (parsed v rest)) e
    ∙ advance-parsed used rest v

-- The result on a buffer, and what is read when there is more in it.
feed_bytes :
    (memory : ℕ) (xs more : Bytes) (v : RespValue) (n : ℕ) (p' : RespParser)
    → parse_with_consumed memory (record { buffer = xs }) ≡ (got v n, p')
    → (n ≤ length xs)
      × (p'.buffer ≡ drop n xs)
      × (parse_with_consumed memory (record { buffer = xs ++ more })
          ≡ (got v n, record { buffer = p'.buffer ++ more }))
unfolding parse_with_consumed is_empty
feed_bytes memory [] more v n p' h = let o : waiting ≡ got v n = ap (λ r. r.0) h in absurd (cc)
feed_bytes memory (c ∷ cs) more v n p' h =
    let p : RespParser = record { buffer = c ∷ cs } in
    let (rest, m, k, b) =
      advance-eq-got p (parse_value memory (suc (suc (length cs))) (c ∷ cs)) v n p' h in
    let (used, e, again) = parse_value_prefix memory (suc (suc (length cs))) (c ∷ cs) v rest m in
    let l : n ≡ length used = omega (arith, k, ap length e, length-append used rest) in
    let left : p'.buffer ≡ rest =
      b ∙ ap (λ i. drop i (c ∷ cs)) l ∙ ap (drop (length used)) e ∙ (take_all used rest).1 in
    let longer_cursor : (c ∷ cs) ++ more ≡ used ++ (rest ++ more) =
      ap (λ l. l ++ more) e ∙ append_assoc used rest more in
    let first : parse_value memory (suc (suc (length cs))) (c ∷ cs ++ more)
        ≡ parsed v (rest ++ more) =
      ap (parse_value memory (suc (suc (length cs)))) longer_cursor ∙ again (rest ++ more) in
    let deeper : parse_value memory (suc (suc (length (cs ++ more)))) (c ∷ cs ++ more)
        ≡ parsed v (rest ++ more) =
      parse_value_mono memory (suc (suc (length cs))) (suc (suc (length (cs ++ more))))
        (c ∷ cs ++ more) v (rest ++ more) (omega (arith, length-append cs more)) first in
    (
      omega (arith, l, ap length e, length-append used rest),
      b,
      parse_prefix memory c (cs ++ more) used (rest ++ more) v longer_cursor deeper
          ∙ ap (λ i. (got v i, record { buffer = rest ++ more })) (sym l)
          ∙ ap (λ r. (got v n, record { buffer = r ++ more })) (sym left),
    )

-- When a value is read, it takes a front part of the buffer and leaves the rest, and bytes that are fed
-- later change neither the value nor the number of bytes that it takes: they come after the rest.
pub parse_with_consumed-feed :
    (memory : ℕ) (more : Bytes) (v : RespValue) (n : ℕ) (p p' : RespParser)
    → parse_with_consumed memory p ≡ (got v n, p')
    → (n ≤ length p.buffer)
      × (p'.buffer ≡ drop n p.buffer)
      × (parse_with_consumed memory (feed more p) ≡ (got v n, feed more p'))
unfolding feed
parse_with_consumed-feed memory more v n p p' h = feed_bytes memory p.buffer more v n p' h

-- A value that was serialized is read from the front of the buffer: all its bytes are consumed and
-- the rest stays.
pub parse_with_consumed-serialize :
    (memory : ℕ) (v : RespValue) (rest : Bytes)
    → IsWire memory v
    → parse_with_consumed memory (record { buffer = serialize v ++ rest })
      ≡ (got v (length (serialize v)), record { buffer = rest })
unfolding serialize
parse_with_consumed-serialize memory v rest w =
    let (c, cs, e) = write_to_pos memory v w in
    let whole : c ∷ (cs ++ rest) ≡ write_to v ++ rest = ap (λ l. l ++ rest) (sym e) in
    let read : parse_value memory (suc (suc (length (cs ++ rest)))) (c ∷ (cs ++ rest))
        ≡ parsed v rest =
      ap (parse_value memory (suc (suc (length (cs ++ rest))))) whole
      ∙ parse_value-write_to memory _ v rest w
          (omega (arith, ap length e, length-append cs rest)) in
    ap (λ b. parse_with_consumed memory (record { buffer = b })) (sym whole)
    ∙ parse_prefix memory c (cs ++ rest) (write_to v) rest v whole read

-- As long as a part of a serialized value is missing, nothing is read: the parser waits, or the process
-- ends because there is no memory for a length that it has read.
pub parse_with_consumed_short :
    (memory : ℕ) (v w : RespValue) (n d : ℕ) (part missing : Bytes) (p' : RespParser)
    → IsWire memory v
    → serialize v ≡ part ++ d ∷ missing
    → parse_with_consumed memory (record { buffer = part }) ≢ (got w n, p')
parse_with_consumed_short memory v w n d part missing p' i e h =
    let (a, b, c) = feed_bytes memory part (d ∷ missing) w n p' h in
    let nothing : serialize v ++ [] ≡ part ++ d ∷ missing = append_nil (serialize v) ∙ e in
    let whole = parse_with_consumed-serialize memory v [] i in
    let q : (got v (length (serialize v)), record { buffer = [] })
        ≡ (got w n, record { buffer = p'.buffer ++ d ∷ missing }) =
      sym whole ∙ ap (λ b. parse_with_consumed memory (record { buffer = b })) nothing ∙ c in
    no_bytes p'.buffer (ap (λ r. r.1.buffer) q)
  where
    append_nil : (l : Bytes) → l ++ [] ≡ l
    append_nil [] = refl
    append_nil (x ∷ l) = ap (λ m. x ∷ m) (append_nil l)

    no_bytes : (l : Bytes) → [] ≡ l ++ d ∷ missing → ⊥
    no_bytes [] q = cc
    no_bytes (x ∷ l) q = cc

-- The parser comes to an end on every buffer: its recursion is no deeper than the buffer is long.
pub parse_with_consumed_ends :
    (memory : ℕ) (p : RespParser) → (parse_with_consumed memory p).0 ≢ unfinished
parse_with_consumed_ends memory p = ends p.buffer
  where
    stops : (q : RespParser) (m : Parsed RespValue) → m ≢ out_of_fuel → (advance q m).0 ≢ unfinished
    stops q (parsed v rest) h = unfold advance in λ e. cc
    stops q parse_error h = unfold advance in λ e. cc
    stops q no_memory h = unfold advance in λ e. cc
    stops q out_of_fuel h = absurd (h refl)

    ends : (xs : Bytes) → (parse_with_consumed memory (record { buffer = xs })).0 ≢ unfinished
    ends [] = unfold parse_with_consumed is_empty in λ e. cc
    ends (c ∷ cs) =
        unfold parse_with_consumed is_empty in
        stops (record { buffer = c ∷ cs }) (parse_value memory (suc (suc (length cs))) (c ∷ cs))
          (parse_value_ends memory (suc (suc (length cs))) (c ∷ cs) (omega arith))
