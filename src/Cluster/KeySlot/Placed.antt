-- ===== src/Cluster/KeySlot/Placed.antt =====
-- Which keys share a slot: key_hash_slot of src/cluster/crc16.rs.
use kore.Base.{
  ℕ, ◌≡◌, ◌≢◌, refl, sym, ap, ◌∙◌, Bool, true, false, some, [], ◌∷◌, ◌++◌, arith, ◌==◌,
  if◌then◌else◌, Bytes,
}
use Prim.Native.Nat.{bit_and}
use kore.Cluster.KeySlot.{crc16, after, before, tag_or, hash_tag_bytes, key_hash_slot}

-- No byte of the text is that one.
abbrev pub lacks : ℕ → Bytes → Bool
lacks c [] = true
lacks c (x ∷ xs) = if x == c then false else lacks c xs

after-append : (c : ℕ) (p rest : Bytes) → lacks c p ≡ true → after c (p ++ c ∷ rest) ≡ some rest
unfolding after
after-append c [] rest h = ground arith
after-append c (x ∷ p) rest h = ground (arith, after-append c p rest)

before-append : (c : ℕ) (p rest : Bytes) → lacks c p ≡ true → before c (p ++ c ∷ rest) ≡ some p
unfolding before
before-append c [] rest h = ground arith
before-append c (x ∷ p) rest h = ground (arith, before-append c p rest)

abbrev pub tagged : Bytes → Bytes → Bytes → Bytes
tagged p tag rest = p ++ b'{' ∷ (tag ++ b'}' ∷ rest)

tag_or-some : (key tag : Bytes) → tag ≢ [] → tag_or key (some tag) ≡ tag
tag_or-some key [] h = absurd (h refl)
tag_or-some key (c ∷ cs) h = refl

hash_tag_bytes-tagged :
    (p tag rest : Bytes)
    → lacks b'{' p ≡ true
    → lacks b'}' tag ≡ true
    → tag ≢ []
    → hash_tag_bytes (tagged p tag rest) ≡ tag
unfolding hash_tag_bytes
hash_tag_bytes-tagged p tag rest h k n =
    rw (after-append b'{' p (tag ++ b'}' ∷ rest) h, hash_tag_bytes, before-append b'}' tag rest k)
      (tag_or-some (tagged p tag rest) tag n)

-- Keys with the same tag have the same slot: the tag is not empty and has no closing brace, and there is
-- no opening brace before it.
pub key_hash_slot-tagged :
    (p q tag s t : Bytes)
    → lacks b'{' p ≡ true
    → lacks b'{' q ≡ true
    → lacks b'}' tag ≡ true
    → tag ≢ []
    → key_hash_slot (tagged p tag s) ≡ key_hash_slot (tagged q tag t)
unfolding key_hash_slot
key_hash_slot-tagged p q tag s t h k l n =
    let same_tag =
      hash_tag_bytes-tagged p tag s h l n ∙ sym (hash_tag_bytes-tagged q tag t k l n) in
    ap (λ (x : Bytes). bit_and (crc16 x) 16383) same_tag
