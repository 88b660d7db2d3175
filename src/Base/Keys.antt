-- ===== src/Base/Keys.antt =====
-- Byte strings and names as keys: `Bytes` and `String` of the source, compared by `==`.
use kore.Base.Tests.{◌==◌, ltb}
use Prim.Native.Nat.{ℕ}
use mathlib.Core.Path.{◌≡◌, refl}
use mathlib.Core.Logic.{◌↔◌}
use mathlib.Core.Bool.{Bool, true, false, ◌&&◌, ◌||◌}
use mathlib.Core.List.{List, [], ◌∷◌}
use native.Mathlib.Omega.{arith}

-- A byte string; a text is given by its bytes too.
abbrev pub Bytes : Type 0
Bytes = List ℕ

unfoldable pub same : Bytes → Bytes → Bool
same [] [] = true
same (x ∷ xs) (y ∷ ys) = (x == y) && same xs ys
same _ _ = false

same→eq : (xs ys : Bytes) → same xs ys ≡ true → xs ≡ ys
unfolding same
same→eq [] [] h = refl
same→eq (x ∷ xs) (y ∷ ys) h = ground (arith, same→eq xs ys)
same→eq [] (y ∷ ys) h = ground arith
same→eq (x ∷ xs) [] h = ground arith

pub same_refl : (xs : Bytes) → same xs xs ≡ true
unfolding same
same_refl [] = refl
same_refl (x ∷ xs) = ground (arith, same_refl xs)

eq→same : (xs ys : Bytes) → xs ≡ ys → same xs ys ≡ true
eq→same xs ys h = ground (arith, same_refl xs)

pub same_iff : (xs ys : Bytes) → (same xs ys ≡ true) ↔ (xs ≡ ys)
same_iff xs ys = (same→eq xs ys, eq→same xs ys)

-- The order of byte strings.
unfoldable pub leb_bytes : Bytes → Bytes → Bool
leb_bytes [] ys = true
leb_bytes (x ∷ xs) [] = false
leb_bytes (x ∷ xs) (y ∷ ys) = ltb x y || ((x == y) && leb_bytes xs ys)

pub leb_bytes_total : (xs ys : Bytes) → leb_bytes xs ys ≡ false → leb_bytes ys xs ≡ true
unfolding leb_bytes
leb_bytes_total [] ys h = cc
leb_bytes_total (x ∷ xs) [] h = refl
leb_bytes_total (x ∷ xs) (y ∷ ys) h = ground (arith, leb_bytes_total xs ys)

pub leb_bytes_trans :
    (xs ys zs : Bytes) → leb_bytes xs ys ≡ true → leb_bytes ys zs ≡ true → leb_bytes xs zs ≡ true
unfolding leb_bytes
leb_bytes_trans [] ys zs h k = refl
leb_bytes_trans (x ∷ xs) [] zs h k = cc
leb_bytes_trans (x ∷ xs) (y ∷ ys) [] h k = cc
leb_bytes_trans (x ∷ xs) (y ∷ ys) (z ∷ zs) h k = ground (arith, leb_bytes_trans xs ys zs)

pub leb_bytes_antisymm : (xs ys : Bytes) → leb_bytes xs ys ≡ true → leb_bytes ys xs ≡ true → xs ≡ ys
unfolding leb_bytes
leb_bytes_antisymm [] [] h k = refl
leb_bytes_antisymm [] (y ∷ ys) h k = cc
leb_bytes_antisymm (x ∷ xs) [] h k = cc
leb_bytes_antisymm (x ∷ xs) (y ∷ ys) h k = ground (arith, leb_bytes_antisymm xs ys)
