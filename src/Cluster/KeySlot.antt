-- ===== src/Cluster/KeySlot.antt =====
-- The hash slot of a key: src/cluster/crc16.rs.
pub mod Placed
use kore.Base.{
  ℕ, zero, suc, ◌*◌, ◌%◌, Bool, Option, none, some, List, [], ◌∷◌, ◌==◌, if◌then◌else◌, Bytes,
}
use Prim.Native.Nat.{bit_and, bit_xor}

-- One bit of a byte: the shift drops the carry of a 16-bit number.
unfoldable pub crc_bit : ℕ → ℕ
crc_bit crc =
    let shifted = crc * 2 % 65536 in
    if bit_and crc 32768 == 0 then shifted else bit_xor shifted 4129

unfoldable pub crc_bits : ℕ → ℕ → ℕ
unfolding crc_bit
crc_bits zero crc = crc
crc_bits (suc n) crc = crc_bits n (crc_bit crc)

unfoldable pub crc_bytes : ℕ → Bytes → ℕ
unfolding crc_bits
crc_bytes crc [] = crc
crc_bytes crc (byte ∷ bytes) = crc_bytes (crc_bits 8 (bit_xor crc (byte * 256))) bytes

unfoldable pub crc16 : Bytes → ℕ
unfolding crc_bytes
crc16 bytes = crc_bytes 0 bytes

-- The bytes after the first one of a kind, and those before it.
unfoldable pub after : ℕ → Bytes → Option Bytes
after c [] = none
after c (x ∷ xs) = if x == c then some xs else after c xs

abbrev pub with_first : ℕ → Option Bytes → Option Bytes
with_first x none = none
with_first x (some xs) = some (x ∷ xs)

unfoldable pub before : ℕ → Bytes → Option Bytes
before c [] = none
before c (x ∷ xs) = let rest = before c xs in if x == c then some [] else with_first x rest

-- What stands for the key: the bytes between the braces, if there are any.
abbrev pub tag_or : Bytes → Option Bytes → Bytes
tag_or key none = key
tag_or key (some []) = key
tag_or key (some (c ∷ cs)) = c ∷ cs

unfoldable pub hash_tag_bytes : Bytes → Bytes
unfolding after before
hash_tag_bytes key = elim (after b'{' key) [
  | none ↦ key
  | some rest ↦ tag_or key (before b'}' rest)
]

unfoldable pub key_hash_slot : Bytes → ℕ
unfolding hash_tag_bytes crc16
key_hash_slot key = bit_and (crc16 (hash_tag_bytes key)) 16383
