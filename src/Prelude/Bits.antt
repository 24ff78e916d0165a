-- ===== src/Prelude/Bits.antt =====
-- Words of 64 bits as lists of Booleans, the lowest bit first: the shifts, `|`, and the test of a
-- mask with one bit.
use Prim.Native.Nat.{ℕ, zero, suc, ◌+◌, ◌-◌, ◌≤◌, ◌<◌}
use mathlib.Core.Path.{◌≡◌, refl, ap, ◌∙◌}
use mathlib.Core.Logic.{◌⊎◌, inl, inr}
use mathlib.Core.Bool.{Bool, true, false, ◌&&◌, ◌||◌}
use mathlib.Core.List.{List, [], ◌∷◌, ◌++◌}
use native.Mathlib.Omega.{arith}
use bolina_rs.Prelude.Tests.{ltb, ◌==◌, if◌then◌else◌}
use bolina_rs.Prelude.Lists.{length, length-append, get_or, take, drop}

abbrev pub Word : Type 0
Word = List Bool

unfoldable pub repeat {ℓ} : {A : Type ℓ} → ℕ → A → List A
repeat zero x = []
repeat (suc n) x = x ∷ repeat n x

unfoldable pub zero_word : Word
unfolding repeat
zero_word = repeat 64 false

-- `v << s`
unfoldable pub shl : ℕ → Word → Word
unfolding repeat
shl s v = take 64 (repeat s false ++ v)

-- `v >> s`
unfoldable pub shr : ℕ → Word → Word
unfolding repeat
shr s v = drop s v ++ repeat s false

unfoldable pub bit_or : Word → Word → Word
bit_or [] ys = ys
bit_or (x ∷ xs) [] = x ∷ xs
bit_or (x ∷ xs) (y ∷ ys) = (x || y) ∷ bit_or xs ys

-- `a & b != 0`
unfoldable pub meets : Word → Word → Bool
meets [] ys = false
meets (x ∷ xs) [] = false
meets (x ∷ xs) (y ∷ ys) = (x && y) || meets xs ys

-- `1u64 << b`
unfoldable pub one_shl : ℕ → Word
unfolding shl
one_shl b = shl b (true ∷ [])

-- The bit of a word, false beyond its end.
abbrev pub bit : Word → ℕ → Bool
bit v k = get_or v k false

bit-repeat : (n k : ℕ) → bit (repeat n false) k ≡ false
unfolding repeat
bit-repeat zero k = refl
bit-repeat (suc n) zero = refl
bit-repeat (suc n) (suc k) = bit-repeat n k

pub bit-zero_word : (k : ℕ) → bit zero_word k ≡ false
unfolding zero_word
bit-zero_word k = bit-repeat 64 k

bit-behind :
    (s : ℕ) (v : Word) (k : ℕ)
    → bit (repeat s false ++ v) k ≡ (if ltb k s then false else bit v (k - s))
unfolding repeat
bit-behind zero v k = ground arith
bit-behind (suc s) v zero = ground arith
bit-behind (suc s) v (suc k) = ground (arith, bit-behind s v k)

bit-take : (n : ℕ) (v : Word) (k : ℕ) → k < n → bit (take n v) k ≡ bit v k
bit-take zero v k h = absurd (omega arith)
bit-take (suc n) [] k h = refl
bit-take (suc n) (b ∷ v) zero h = refl
bit-take (suc n) (b ∷ v) (suc k) h = bit-take n v k (omega arith)

pub bit-shl :
    (s : ℕ) (v : Word) (k : ℕ)
    → k < 64
    → bit (shl s v) k ≡ (if ltb k s then false else bit v (k - s))
unfolding shl
bit-shl s v k h = bit-take 64 (repeat s false ++ v) k h ∙ bit-behind s v k

bit-front : (v : Word) (n k : ℕ) → bit (v ++ repeat n false) k ≡ bit v k
bit-front [] n k = bit-repeat n k
bit-front (b ∷ v) n zero = refl
bit-front (b ∷ v) n (suc k) = bit-front v n k

bit-drop : (s : ℕ) (v : Word) (k : ℕ) → bit (drop s v) k ≡ bit v (k + s)
bit-drop zero v k = ap (bit v) (omega arith)
bit-drop (suc s) [] k = refl
bit-drop (suc s) (b ∷ v) k = let e : k + suc s ≡ suc (k + s) = omega arith in rw e (bit-drop s v k)

pub bit-shr : (s : ℕ) (v : Word) (k : ℕ) → bit (shr s v) k ≡ bit v (k + s)
unfolding shr
bit-shr s v k = bit-front (drop s v) s k ∙ bit-drop s v k

pub bit-bit_or : (v w : Word) (k : ℕ) → bit (bit_or v w) k ≡ (bit v k || bit w k)
unfolding bit_or
bit-bit_or [] w k = refl
bit-bit_or (x ∷ v) [] k = ground arith
bit-bit_or (x ∷ v) (y ∷ w) zero = refl
bit-bit_or (x ∷ v) (y ∷ w) (suc k) = bit-bit_or v w k

pub compare-cases : (b k : ℕ) → (k < b) ⊎ ((k ≡ b) ⊎ (b < k))
compare-cases b k = omega arith

pub bit-one_shl : (b k : ℕ) → k < 64 → bit (one_shl b) k ≡ (k == b)
unfolding one_shl
bit-one_shl b k h = bit-shl b (true ∷ []) k h ∙ (elim (compare-cases b k) [
  | inl below ↦ ground (arith, below)
  | inr (inl same) ↦ (let e : k - b ≡ 0 = omega (arith, same) in rw e (ground (arith, same)))
  | inr (inr above) ↦
      (let e : k - b ≡ suc (k - b - 1) = omega (arith, above) in rw e (ground (arith, above)))
])

meets-nil : (v : Word) → meets v [] ≡ false
unfolding meets
meets-nil [] = refl
meets-nil (x ∷ v) = refl

meets_single : (v : Word) (b : ℕ) → meets v (repeat b false ++ true ∷ []) ≡ bit v b
unfolding meets repeat
meets_single [] b = refl
meets_single (x ∷ v) zero = ground (arith, meets-nil v)
meets_single (x ∷ v) (suc b) = ground (arith, meets_single v b)

take_short {ℓ} : {A : Type ℓ} (n : ℕ) (v : List A) → length v ≤ n → take n v ≡ v
take_short zero [] h = refl
take_short (suc n) [] h = refl
take_short zero (x ∷ v) h = absurd (omega arith)
take_short (suc n) (x ∷ v) h = ap (λ t. x ∷ t) (take_short n v (omega arith))

length-mask : (b : ℕ) → length (repeat b false ++ true ∷ []) ≡ suc b
unfolding repeat
length-mask zero = refl
length-mask (suc b) = ap suc (length-mask b)

-- The test of a mask with one bit.
pub meets-one_shl : (v : Word) (b : ℕ) → b < 64 → meets v (one_shl b) ≡ bit v b
unfolding one_shl shl
meets-one_shl v b h =
    rw (take_short 64 (repeat b false ++ true ∷ []) (omega (arith, length-mask b)))
      (meets_single v b)

pub bit-beyond : (v : Word) (k : ℕ) → length v ≤ k → bit v k ≡ false
bit-beyond [] k h = refl
bit-beyond (x ∷ v) zero h = absurd (omega arith)
bit-beyond (x ∷ v) (suc k) h = bit-beyond v k (omega arith)

-- No word grows beyond 64 bits.
length-take_le : (n : ℕ) (v : Word) → length (take n v) ≤ n
length-take_le zero v = omega arith
length-take_le (suc n) [] = omega arith
length-take_le (suc n) (x ∷ v) = omega (arith, length-take_le n v)

pub length-shl_le : (s : ℕ) (v : Word) → length (shl s v) ≤ 64
unfolding shl
length-shl_le s v = length-take_le 64 (repeat s false ++ v)

pub length-repeat {ℓ} : {A : Type ℓ} (n : ℕ) (x : A) → length (repeat n x) ≡ n
unfolding repeat
length-repeat zero x = refl
length-repeat (suc n) x = ap suc (length-repeat n x)

length-drop : (s : ℕ) (v : Word) → length (drop s v) ≡ length v - s
length-drop zero v = omega arith
length-drop (suc s) [] = omega arith
length-drop (suc s) (x ∷ v) = omega (arith, length-drop s v)

pub length-shr_le : (s : ℕ) (v : Word) → s ≤ 64 → length v ≤ 64 → length (shr s v) ≤ 64
unfolding shr
length-shr_le s v h k =
    omega (arith, length-append (drop s v) (repeat s false), length-drop s v, length-repeat s false)

pub length-bit_or_le : (v w : Word) (n : ℕ) → length v ≤ n → length w ≤ n → length (bit_or v w) ≤ n
unfolding bit_or
length-bit_or_le [] w n h k = k
length-bit_or_le (x ∷ v) [] n h k = h
length-bit_or_le (x ∷ v) (y ∷ w) zero h k = absurd (omega arith)
length-bit_or_le (x ∷ v) (y ∷ w) (suc n) h k =
    omega (arith, length-bit_or_le v w n (omega arith) (omega arith))

pub length-one_shl_le : (b : ℕ) → length (one_shl b) ≤ 64
unfolding one_shl
length-one_shl_le b = length-shl_le b (true ∷ [])
