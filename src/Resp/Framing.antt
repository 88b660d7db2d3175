-- ===== src/Resp/Framing.antt =====
-- The wire format of a RESP value is read back, at the front of any bytes: `serialize`, `feed` and
-- `parse_with_consumed` of src/protocol/resp.rs.
use kore.Base.{
  ℕ, zero, suc, ◌+◌, ◌≤◌, ◌<◌, ◌≡◌, refl, ap, sym, ◌∙◌, true, false, none, some, ◌∷◌, ◌++◌, arith,
  length, length-append, Bytes,
}
use kore.Base.Int.{pos}
use kore.Resp.{
  RespValue, Values, Pairs, simple_string, error, integer, bulk_string, array, null_array, map,
  bool, null, push, multiple, no_values, value, no_pairs, pair, values_len, pairs_len, show_int,
  crlf, head_line, write_to, write_all, write_pairs,
}
use kore.Resp.Parser.{parsed, bind, ◌>>=◌, pure, parse_many, parse_pairs, parse_value}
use kore.Resp.Exact.{append_assoc}
use kore.Resp.RoundTrip.{
  IsWire, AllWire, PairsWire, reads_line, reads_no_bulk, reads_null_array, reads_integer,
  reads_bulk, reads_array, reads_push, reads_map,
}

-- Each value is read back in front of any bytes, when the fuel covers its own bytes.
mutual
  unfolding write_to write_all write_pairs values_len pairs_len head_line parse_value parse_many
      parse_pairs

  reads :
      (memory f : ℕ) (v : RespValue) (rest : Bytes)
      → IsWire memory v
      → length (write_to v) ≤ f
      → parse_value memory (suc f) (write_to v ++ rest) ≡ parsed v rest
  reads memory f (simple_string s) rest w h =
      ap (λ m. bind m (λ l. pure (simple_string l)))
        (reads_line memory (parse_value memory f) rest s w)
  reads memory f (error e) rest w h =
      ap (λ m. bind m (λ l. pure (error l))) (reads_line memory (parse_value memory f) rest e w)
  reads memory f (integer i) rest w h = reads_integer memory (parse_value memory f) rest i w
  reads memory f (bulk_string none) rest w h = reads_no_bulk memory (parse_value memory f) rest
  reads memory f (bulk_string (some s)) rest w h = reads_bulk memory (parse_value memory f) rest s w
  reads memory f (array vs) rest w h =
      reads_array memory (parse_value memory f) rest vs (write_all vs)
        (reads_all memory f vs rest w.1
          (omega (arith, length-append (show_int (pos (values_len vs)) ++ crlf) (write_all vs))))
        w.0
  reads memory f null_array rest w h = reads_null_array memory (parse_value memory f) rest
  reads memory f (multiple vs) rest w h = absurd w
  reads memory f (map ps) rest w h =
      reads_map memory (parse_value memory f) rest ps (write_pairs ps)
        (reads_pairs memory f ps rest w.2
          (omega (arith, length-append (show_int (pos (pairs_len ps)) ++ crlf) (write_pairs ps))))
        w.0 w.1
  reads memory f (bool true) rest w h = refl
  reads memory f (bool false) rest w h = refl
  reads memory f null rest w h = refl
  reads memory f (push vs) rest w h =
      reads_push memory (parse_value memory f) rest vs (write_all vs)
        (reads_all memory f vs rest w.2
          (omega (arith, length-append (show_int (pos (values_len vs)) ++ crlf) (write_all vs))))
        w.0 w.1

  reads_all :
      (memory f : ℕ) (vs : Values) (rest : Bytes)
      → AllWire memory vs
      → length (write_all vs) < f
      → parse_many (parse_value memory f) (values_len vs) (write_all vs ++ rest) ≡ parsed vs rest
  reads_all memory f no_values rest w h = refl
  reads_all memory zero (value v vs) rest w h = absurd (omega arith)
  reads_all memory (suc f) (value v vs) rest w h =
      let both = length-append (write_to v) (write_all vs) in
      ap (parse_many (parse_value memory (suc f)) (suc (values_len vs)))
        (append_assoc (write_to v) (write_all vs) rest)
      ∙ ap
          (λ m. bind m (λ x.
            parse_many (parse_value memory (suc f)) (values_len vs) >>= λ xs. pure (value x xs)))
          (reads memory f v (write_all vs ++ rest) w.0 (omega arith))
      ∙ ap (λ m. bind m (λ xs. pure (value v xs)))
          (reads_all memory (suc f) vs rest w.1 (omega arith))

  reads_pairs :
      (memory f : ℕ) (ps : Pairs) (rest : Bytes)
      → PairsWire memory ps
      → length (write_pairs ps) < f
      → parse_pairs (parse_value memory f) (pairs_len ps) (write_pairs ps ++ rest) ≡ parsed ps rest
  reads_pairs memory f no_pairs rest w h = refl
  reads_pairs memory zero (pair k v ps) rest w h = absurd (omega arith)
  reads_pairs memory (suc f) (pair k v ps) rest w h =
      let all = length-append (write_to k) (write_to v ++ write_pairs ps) in
      let both = length-append (write_to v) (write_pairs ps) in
      let read = parse_value memory (suc f) in
      let apart =
        append_assoc (write_to k) (write_to v ++ write_pairs ps) rest
        ∙ ap (λ l. write_to k ++ l) (append_assoc (write_to v) (write_pairs ps) rest) in
      ap (parse_pairs read (suc (pairs_len ps))) apart
      ∙ ap
          (λ m.
            bind m
              (λ i. read >>= λ x. parse_pairs read (pairs_len ps) >>= λ xs. pure (pair i x xs)))
          (reads memory f k (write_to v ++ (write_pairs ps ++ rest)) w.0 (omega arith))
      ∙ ap (λ m. bind m (λ x. parse_pairs read (pairs_len ps) >>= λ xs. pure (pair k x xs)))
          (reads memory f v (write_pairs ps ++ rest) w.1 (omega arith))
      ∙ ap (λ m. bind m (λ xs. pure (pair k v xs)))
          (reads_pairs memory (suc f) ps rest w.2 (omega arith))

-- A value that the wire format can carry is read back from what is written of it, whatever bytes
-- follow, and these are left. The fuel is above the number of bytes.
pub parse_value-write_to :
    (memory fuel : ℕ) (v : RespValue) (rest : Bytes)
    → IsWire memory v
    → length (write_to v) < fuel
    → parse_value memory fuel (write_to v ++ rest) ≡ parsed v rest
parse_value-write_to memory zero v rest w h = absurd (omega arith)
parse_value-write_to memory (suc fuel) v rest w h = reads memory fuel v rest w (omega arith)

-- What is written has at least one byte.
pub write_to_pos :
    (memory : ℕ) (v : RespValue) → IsWire memory v → (c : ℕ) × (cs : Bytes) × (write_to v ≡ c ∷ cs)
unfolding write_to head_line
write_to_pos memory (simple_string s) w = (_, _, refl)
write_to_pos memory (error e) w = (_, _, refl)
write_to_pos memory (integer i) w = (_, _, refl)
write_to_pos memory (bulk_string none) w = (_, _, refl)
write_to_pos memory (bulk_string (some s)) w = (_, _, refl)
write_to_pos memory (array vs) w = (_, _, refl)
write_to_pos memory null_array w = (_, _, refl)
write_to_pos memory (multiple vs) w = absurd w
write_to_pos memory (map ps) w = (_, _, refl)
write_to_pos memory (bool true) w = (_, _, refl)
write_to_pos memory (bool false) w = (_, _, refl)
write_to_pos memory null w = (_, _, refl)
write_to_pos memory (push vs) w = (_, _, refl)

-- The wire format is free of prefixes: two values that are written at the front of the same bytes are
-- one value.
pub write_to_prefix_free :
    (memory : ℕ) (v w : RespValue) (a b : Bytes)
    → IsWire memory v
    → IsWire memory w
    → write_to v ++ a ≡ write_to w ++ b
    → (v ≡ w) × (a ≡ b)
write_to_prefix_free memory v w a b i j e =
    let fuel = suc (length (write_to v) + length (write_to w)) in
    let left = parse_value-write_to memory fuel v a i (omega arith) in
    let right = parse_value-write_to memory fuel w b j (omega arith) in
    let same_value : parsed v a ≡ parsed w b = sym left ∙ ap (parse_value memory fuel) e ∙ right in
    (cc, cc)
