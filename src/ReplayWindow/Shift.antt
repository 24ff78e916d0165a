-- ===== src/ReplayWindow/Shift.antt =====
-- The bitmap of src/transport/replay.rs bit by bit, and what `shift_left` does to it.
use bolina_rs.Prelude.{
  ℕ, zero, suc, ◌+◌, ◌-◌, ◌*◌, ◌/◌, ◌%◌, ◌≤◌, ◌<◌, ◌≡◌, refl, sym, ◌∙◌, Bool, true, false, ◌||◌,
  List, length, get_or, set, All, ltb, leb, ◌==◌, if◌then◌else◌, Bool-cases, arith, inl, inr,
}
use bolina_rs.Prelude.Tests.{if_known}
use bolina_rs.Prelude.Lists.{
  length-set_same, get_or-set_same, get_or-set_other, All-get_or, All-set_any,
}
use bolina_rs.Prelude.Bits.{
  compare-cases, Word, bit, repeat, zero_word, shl, shr, bit_or, one_shl, bit-zero_word, bit-shl,
  bit-shr, bit-bit_or, bit-one_shl, bit-beyond, length-shl_le, length-shr_le, length-bit_or_le,
  length-repeat, length-one_shl_le,
}
use bolina_rs.ReplayWindow.{word_at, empty_window, shifted_word, shift_loop, shift_left, or_into}

-- Bit `k` of the bitmap.
abbrev pub window_bit : List Word → ℕ → Bool
window_bit win k = bit (word_at win (k / 64)) (k % 64)

abbrev pub IsShort : Word → Type 0
IsShort v = length v ≤ 64

-- Sixteen words of at most 64 bits.
pub record IsWindow (win : List Word) : Type 0 where
  pub words : length win ≡ 16
  pub short : All IsShort win

zero_word-IsShort : IsShort zero_word
unfolding zero_word
zero_word-IsShort = omega (arith, length-repeat 64 false)

word_at-IsShort : (win : List Word) (w : ℕ) → All IsShort win → IsShort (word_at win w)
word_at-IsShort win w h = All-get_or IsShort win w zero_word h zero_word-IsShort

shl-zero_word-IsShort :
    (ws bs : ℕ) (win : List Word) (w : ℕ)
    → IsShort (if leb ws w then shl bs (word_at win (w - ws)) else zero_word)
shl-zero_word-IsShort ws bs win w =
    if_known IsShort (leb ws w) _ _ (λ _. length-shl_le bs (word_at win (w - ws)))
      (λ _. zero_word-IsShort)

shifted_word-IsShort :
    (ws bs : ℕ) (win : List Word) (w : ℕ)
    → bs < 64
    → All IsShort win
    → IsShort (shifted_word ws bs win w)
unfolding shifted_word
shifted_word-IsShort ws bs win w h short =
    if_known IsShort (bs == 0) _ _
      (λ _.
        if_known IsShort (leb ws w) _ _ (λ _. word_at-IsShort win (w - ws) short)
          (λ _. zero_word-IsShort))
      (λ _. length-bit_or_le _ _ 64 (shl-zero_word-IsShort ws bs win w) (
        if_known IsShort (leb (ws + 1) w) _ _
          (λ _. length-shr_le (64 - bs) _ (omega arith) (word_at-IsShort win (w - ws - 1) short))
          (λ _. zero_word-IsShort)))

window_bit-at :
    (win : List Word) (n c k : ℕ)
    → k ≡ 64 * n + c
    → c < 64
    → window_bit win k ≡ bit (word_at win n) c
window_bit-at win n c k e h =
    let word : k / 64 ≡ n = omega arith in
    let place : k % 64 ≡ c = omega arith in rw (word, place) refl

-- The two halves of a word that is shifted by part of a word.
low_half :
    (ws bs : ℕ) (win : List Word) (w b : ℕ)
    → b < 64
    → bit (if leb ws w then shl bs (word_at win (w - ws)) else zero_word) b ≡ (
        if leb ws w
        then (if ltb b bs then false else bit (word_at win (w - ws)) (b - bs))
        else false)
low_half ws bs win w b h = elim (Bool-cases (leb ws w)) [
  | inl e ↦ rw e (bit-shl bs (word_at win (w - ws)) b h)
  | inr e ↦ rw e (bit-zero_word b)
]

high_half :
    (ws bs : ℕ) (win : List Word) (w b : ℕ)
    → bit (if leb (ws + 1) w then shr (64 - bs) (word_at win (w - ws - 1)) else zero_word) b
      ≡ (if leb (ws + 1) w then bit (word_at win (w - ws - 1)) (b + (64 - bs)) else false)
high_half ws bs win w b = elim (Bool-cases (leb (ws + 1) w)) [
  | inl e ↦ rw e (bit-shr (64 - bs) (word_at win (w - ws - 1)) b)
  | inr e ↦ rw e (bit-zero_word b)
]

-- The word that the loop writes holds the bits from `64 * ws + bs` places below.
bit-shifted_word :
    (ws bs : ℕ) (win : List Word) (w b : ℕ)
    → bs < 64
    → b < 64
    → All IsShort win
    → bit (shifted_word ws bs win w) b ≡ (
        if ltb (64 * w + b) (64 * ws + bs)
        then false
        else window_bit win (64 * w + b - (64 * ws + bs)))
unfolding shifted_word
bit-shifted_word ws bs win w b h k short = elim (Bool-cases (bs == 0)) [
  | inl whole ↦
      let none : bs ≡ 0 = ground arith in
      elim (Bool-cases (leb ws w)) [
        | inl e ↦
            let at = window_bit-at win (w - ws) b (64 * w + b - (64 * ws + bs)) (ground arith) k in
            let above : ltb (64 * w + b) (64 * ws + bs) ≡ false = ground arith in
            rw (whole, e, above) (sym at)
        | inr e ↦
            let below : ltb (64 * w + b) (64 * ws + bs) ≡ true = ground arith in
            rw (whole, e, below) (bit-zero_word b)
      ]
  | inr part ↦
      let some_bits : 0 < bs = ground arith in
      let low = low_half ws bs win w b k in
      let high = high_half ws bs win w b in rw (part, bit-bit_or, low, high) (halves some_bits)
]
  where
    halves :
        0 < bs
        → ((if leb ws w
              then (if ltb b bs then false else bit (word_at win (w - ws)) (b - bs))
              else false)
            || (if leb (ws + 1) w then bit (word_at win (w - ws - 1)) (b + (64 - bs)) else false))
          ≡ (if ltb (64 * w + b) (64 * ws + bs)
              then false
              else window_bit win (64 * w + b - (64 * ws + bs)))
    halves pos = elim (Bool-cases (ltb b bs)) [
      | inl borrow ↦ elim (Bool-cases (leb (ws + 1) w)) [
        | inl e ↦
            let at =
              window_bit-at win (w - ws - 1) (b + (64 - bs)) (64 * w + b - (64 * ws + bs))
                (ground arith) (ground arith) in
            ground (arith, e, borrow, at)
        | inr e ↦ ground (arith, e, borrow)
      ]
      | inr direct ↦ elim (Bool-cases (leb ws w)) [
        | inl e ↦
            let at =
              window_bit-at win (w - ws) (b - bs) (64 * w + b - (64 * ws + bs)) (ground arith)
                (ground arith) in
            let out : bit (word_at win (w - ws - 1)) (b + (64 - bs)) ≡ false =
              bit-beyond (word_at win (w - ws - 1)) (b + (64 - bs))
                (ground (arith, word_at-IsShort win (w - ws - 1) short)) in
            ground (arith, e, direct, at, out)
        | inr e ↦ ground (arith, e, direct)
      ]
    ]

-- A word depends only on those not above it.
shifted_word-below :
    (ws bs : ℕ) (win : List Word) (v : Word) (w j : ℕ)
    → j < w
    → shifted_word ws bs (set win w v) j ≡ shifted_word ws bs win j
unfolding shifted_word
shifted_word-below ws bs win v w j h =
    let a = get_or-set_other win w (j - ws) v zero_word (λ e. omega arith) in
    let b = get_or-set_other win w (j - ws - 1) v zero_word (λ e. omega arith) in rw (a, b) refl

word_at-shift_loop :
    (ws bs n : ℕ) (win : List Word) (j : ℕ)
    → n ≤ length win
    → word_at (shift_loop ws bs n win) j
      ≡ (if ltb j n then shifted_word ws bs win j else word_at win j)
unfolding shift_loop
word_at-shift_loop ws bs zero win j h = ground arith
word_at-shift_loop ws bs (suc n) win j h =
    let win' = set win n (shifted_word ws bs win n) in
    let rest =
      word_at-shift_loop ws bs n win' j
        (omega (arith, length-set_same win n (shifted_word ws bs win n))) in
    rest ∙ (elim (compare-cases n j) [
      | inl below ↦
          let b1 : ltb j n ≡ true = ground arith in
          let b2 : ltb j (suc n) ≡ true = ground arith in
          rw (b1, b2) (shifted_word-below ws bs win (shifted_word ws bs win n) n j below)
      | inr (inl same) ↦
          let b1 : ltb j n ≡ false = ground arith in
          let b2 : ltb j (suc n) ≡ true = ground arith in
          rw (b1, b2, same)
            (get_or-set_same win n (shifted_word ws bs win n) zero_word (omega arith))
      | inr (inr above) ↦
          let b1 : ltb j n ≡ false = ground arith in
          let b2 : ltb j (suc n) ≡ false = ground arith in
          rw (b1, b2)
            (get_or-set_other win n j (shifted_word ws bs win n) zero_word (λ e. omega arith))
    ])

length-shift_loop : (ws bs n : ℕ) (win : List Word) → length (shift_loop ws bs n win) ≡ length win
unfolding shift_loop
length-shift_loop ws bs zero win = refl
length-shift_loop ws bs (suc n) win =
    length-shift_loop ws bs n (set win n (shifted_word ws bs win n))
    ∙ length-set_same win n (shifted_word ws bs win n)

shift_loop-IsShort :
    (ws bs n : ℕ) (win : List Word)
    → bs < 64
    → All IsShort win
    → All IsShort (shift_loop ws bs n win)
unfolding shift_loop
shift_loop-IsShort ws bs zero win h short = short
shift_loop-IsShort ws bs (suc n) win h short =
    shift_loop-IsShort ws bs n (set win n (shifted_word ws bs win n)) h
      (All-set_any IsShort win n _ short (shifted_word-IsShort ws bs win n h short))

All-repeat : (n : ℕ) (v : Word) → IsShort v → All IsShort (repeat n v)
unfolding repeat
All-repeat zero v h = tt
All-repeat (suc n) v h = (h, All-repeat n v h)

pub empty_window-IsWindow : IsWindow empty_window
unfolding empty_window
empty_window-IsWindow = record {
  words = length-repeat 16 zero_word;
  short = All-repeat 16 zero_word zero_word-IsShort;
}

pub shift_left-IsWindow : (s : ℕ) (win : List Word) → IsWindow win → IsWindow (shift_left s win)
unfolding shift_left
shift_left-IsWindow s win v =
    if_known IsWindow (leb 1024 s) _ _ (λ _. empty_window-IsWindow)
      (λ _. record {
        words = length-shift_loop (s / 64) (s % 64) 16 win ∙ v.words;
        short = shift_loop-IsShort (s / 64) (s % 64) 16 win (omega arith) v.short;
      })

pub window_bit-empty : (k : ℕ) → window_bit empty_window k ≡ false
unfolding empty_window
window_bit-empty k = get_or-repeat 16 (k / 64) ∙ bit-zero_word (k % 64)
  where
    get_or-repeat :
        (n i : ℕ) → bit (get_or (repeat n zero_word) i zero_word) (k % 64) ≡ bit zero_word (k % 64)
    get_or-repeat zero i = refl
    get_or-repeat (suc n) zero = refl
    get_or-repeat (suc n) (suc i) = get_or-repeat n i

-- `shift_left` by `s` moves every bit of the window up by `s` places; what it moves in is zero.
pub shift_left_moves :
    (s : ℕ) (win : List Word) (k : ℕ)
    → IsWindow win
    → k < 1024
    → window_bit (shift_left s win) k ≡ (if ltb k s then false else window_bit win (k - s))
unfolding shift_left
shift_left_moves s win k v h = elim (Bool-cases (leb 1024 s)) [
  | inl far ↦ (let below : ltb k s ≡ true = ground arith in rw (far, below) (window_bit-empty k))
  | inr near ↦
      let word : ltb (k / 64) 16 ≡ true = ground arith in
      let whole : 64 * (k / 64) + k % 64 ≡ k = omega arith in
      let amount : 64 * (s / 64) + s % 64 ≡ s = omega arith in
      let at = word_at-shift_loop (s / 64) (s % 64) 16 win (k / 64) (omega (arith, v.words)) in
      let shifted =
        bit-shifted_word (s / 64) (s % 64) win (k / 64) (k % 64) (omega arith) (omega arith)
          v.short in
      rw (near, at, word) (rw (whole, amount) at shifted)
]

-- Setting a bit.
pub or_into-IsWindow :
    (d : ℕ) (win : List Word) → IsWindow win → IsWindow (or_into (d / 64) (one_shl (d % 64)) win)
unfolding or_into
or_into-IsWindow d win v = record {
  words = length-set_same win (d / 64) _ ∙ v.words;
  short =
      All-set_any IsShort win (d / 64) _ v.short (
        length-bit_or_le _ _ 64 (word_at-IsShort win (d / 64) v.short)
          (length-one_shl_le (d % 64)));
}

pub window_bit-or_into :
    (d : ℕ) (win : List Word) (k : ℕ)
    → IsWindow win
    → d < 1024
    → k < 1024
    → window_bit (or_into (d / 64) (one_shl (d % 64)) win) k ≡ (window_bit win k || (k == d))
unfolding or_into
window_bit-or_into d win k v h j = elim (Bool-cases (k / 64 == d / 64)) [
  | inl same ↦
      let e : k / 64 ≡ d / 64 = ground arith in
      let at =
        get_or-set_same win (d / 64) (bit_or (word_at win (d / 64)) (one_shl (d % 64))) zero_word
          (omega (arith, v.words)) in
      let one = bit-one_shl (d % 64) (k % 64) (omega arith) in
      rw (e, at, bit-bit_or, one) (ground arith)
  | inr other ↦
      let at =
        get_or-set_other win (d / 64) (k / 64) (bit_or (word_at win (d / 64)) (one_shl (d % 64)))
          zero_word (λ e. ground arith) in
      rw at (ground arith)
]
