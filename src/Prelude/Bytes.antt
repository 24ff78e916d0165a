-- ===== src/Prelude/Bytes.antt =====
-- Bytes as numbers below 256: big-endian integers, slices, equality and the order of byte strings.
use Prim.Native.Nat.{ℕ, zero, suc, ◌+◌, ◌-◌, ◌*◌, ◌/◌, ◌%◌, ◌^◌, ◌<◌}
use mathlib.Core.Path.{◌≡◌, refl, ap, ◌∙◌}
use mathlib.Core.Logic.{◌↔◌}
use mathlib.Core.Bool.{Bool, true, false, ◌&&◌}
use mathlib.Core.List.{List, [], ◌∷◌, reverse, reverse-reverse}
use native.Mathlib.Omega.{arith}
use native.Mathlib.Nat.{pow-suc}
use bolina_rs.Prelude.Tests.{ltb, ◌==◌, if◌then◌else◌}
use bolina_rs.Prelude.Lists.{length, length-reverse, take, drop, All, All-reverse}

abbrev pub Bytes : Type 0
Bytes = List ℕ

abbrev pub IsByte : ℕ → Type 0
IsByte b = b < 256

-- `v.to_le_bytes()` of a `k`-byte integer, and `from_le_bytes`.
unfoldable pub to_le_bytes : ℕ → ℕ → Bytes
to_le_bytes zero v = []
to_le_bytes (suc k) v = (v % 256) ∷ to_le_bytes k (v / 256)

unfoldable pub from_le_bytes : Bytes → ℕ
from_le_bytes [] = 0
from_le_bytes (b ∷ bs) = b + 256 * from_le_bytes bs

-- `v.to_be_bytes()` of a `k`-byte integer, and `from_be_bytes`.
unfoldable pub to_be_bytes : ℕ → ℕ → Bytes
unfolding to_le_bytes
to_be_bytes k v = reverse (to_le_bytes k v)

unfoldable pub from_be_bytes : Bytes → ℕ
unfolding from_le_bytes
from_be_bytes bs = from_le_bytes (reverse bs)

-- `buf[from..to]`
abbrev pub slice : ℕ → ℕ → Bytes → Bytes
slice from to buf = take (to - from) (drop from buf)

-- `a == b` on byte strings.
unfoldable pub bytes_eq : Bytes → Bytes → Bool
bytes_eq [] [] = true
bytes_eq [] (y ∷ ys) = false
bytes_eq (x ∷ xs) [] = false
bytes_eq (x ∷ xs) (y ∷ ys) = x == y && bytes_eq xs ys

-- `a <= b` on byte strings: the lexicographic order of slices.
unfoldable pub bytes_le : Bytes → Bytes → Bool
bytes_le [] ys = true
bytes_le (x ∷ xs) [] = false
bytes_le (x ∷ xs) (y ∷ ys) =
    let rest = bytes_le xs ys in if ltb x y then true else if x == y then rest else false

pub bytes_eq_iff : (xs ys : Bytes) → (bytes_eq xs ys ≡ true) ↔ (xs ≡ ys)
unfolding bytes_eq
bytes_eq_iff [] [] = ground arith
bytes_eq_iff [] (y ∷ ys) = ground arith
bytes_eq_iff (x ∷ xs) [] = ground arith
bytes_eq_iff (x ∷ xs) (y ∷ ys) = ground (arith, bytes_eq_iff xs ys)

pub bytes_eq_refl : (xs : Bytes) → bytes_eq xs xs ≡ true
bytes_eq_refl xs = (bytes_eq_iff xs xs).1 refl

length-to_le_bytes : (k v : ℕ) → length (to_le_bytes k v) ≡ k
unfolding to_le_bytes
length-to_le_bytes zero v = refl
length-to_le_bytes (suc k) v = ap suc (length-to_le_bytes k (v / 256))

to_le_bytes-IsByte : (k v : ℕ) → All IsByte (to_le_bytes k v)
unfolding to_le_bytes
to_le_bytes-IsByte zero v = tt
to_le_bytes-IsByte (suc k) v = (omega arith, to_le_bytes-IsByte k (v / 256))

div_step : (b n : ℕ) → b < 256 → ((b + 256 * n) % 256 ≡ b) × ((b + 256 * n) / 256 ≡ n)
div_step b n h = omega arith

to_le_bytes-from : (bs : Bytes) → All IsByte bs → to_le_bytes (length bs) (from_le_bytes bs) ≡ bs
unfolding to_le_bytes from_le_bytes
to_le_bytes-from [] h = refl
to_le_bytes-from (b ∷ bs) h = ground (arith, to_le_bytes-from bs, div_step b (from_le_bytes bs))

from_le_bytes-to : (k v : ℕ) → v < 256 ^ k → from_le_bytes (to_le_bytes k v) ≡ v
unfolding to_le_bytes from_le_bytes
from_le_bytes-to zero v h = omega arith
from_le_bytes-to (suc k) v h =
    omega (arith, pow-suc 256 k, from_le_bytes-to k (v / 256) (omega (arith, pow-suc 256 k)))

from_le_bytes-lt : (bs : Bytes) → All IsByte bs → from_le_bytes bs < 256 ^ length bs
unfolding from_le_bytes
from_le_bytes-lt [] h = omega arith
from_le_bytes-lt (b ∷ bs) h = omega (arith, pow-suc 256 (length bs), from_le_bytes-lt bs h.1)

pub length-to_be_bytes : (k v : ℕ) → length (to_be_bytes k v) ≡ k
unfolding to_be_bytes
length-to_be_bytes k v = length-reverse (to_le_bytes k v) ∙ length-to_le_bytes k v

pub to_be_bytes-IsByte : (k v : ℕ) → All IsByte (to_be_bytes k v)
unfolding to_be_bytes
to_be_bytes-IsByte k v = All-reverse IsByte (to_le_bytes k v) (to_le_bytes-IsByte k v)

-- Bytes are read back as the number that wrote them, and the other way round.
pub from_be_bytes-to : (k v : ℕ) → v < 256 ^ k → from_be_bytes (to_be_bytes k v) ≡ v
unfolding to_be_bytes from_be_bytes
from_be_bytes-to k v h = rw reverse-reverse (from_le_bytes-to k v h)

pub to_be_bytes-from :
    (k : ℕ) (bs : Bytes) → All IsByte bs → length bs ≡ k → to_be_bytes k (from_be_bytes bs) ≡ bs
unfolding to_be_bytes from_be_bytes
to_be_bytes-from k bs h e =
    rw (← e, ← length-reverse)
      (ap reverse (to_le_bytes-from (reverse bs) (All-reverse IsByte bs h)) ∙ reverse-reverse bs)

pub from_be_bytes-lt :
    (k : ℕ) (bs : Bytes) → All IsByte bs → length bs ≡ k → from_be_bytes bs < 256 ^ k
unfolding from_be_bytes
from_be_bytes-lt k bs h e =
    rw (← e, ← length-reverse) (from_le_bytes-lt (reverse bs) (All-reverse IsByte bs h))
