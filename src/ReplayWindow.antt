-- ===== src/ReplayWindow.antt =====
-- src/transport/replay.rs: the sliding window of 1024 counters against replays. A `u64` of the bitmap
-- is the list of its bits, the lowest first.
pub mod Shift
pub mod Spec
pub mod Refinement
pub mod Examples
use bolina_rs.Prelude.{
  ℕ, zero, suc, ◌+◌, ◌-◌, ◌*◌, ◌/◌, ◌%◌, Bool, true, false, List, length, get_or, set, ltb, leb,
  ◌==◌, if◌then◌else◌,
}
use bolina_rs.Prelude.Bits.{Word, repeat, zero_word, shl, shr, bit_or, meets, one_shl}

abbrev pub window_bits : ℕ
window_bits = 1024

abbrev pub word_bits : ℕ
word_bits = 64

abbrev pub window_words : ℕ
window_words = window_bits / word_bits

pub record ReplayWindow : Type 0 where
  pub window : List Word
  pub largest : ℕ
  pub initialized : Bool

unfoldable pub empty_window : List Word
unfolding repeat zero_word
empty_window = repeat window_words zero_word

unfoldable pub new : ReplayWindow
unfolding empty_window
new = record { window = empty_window; largest = 0; initialized = false }

-- `win[w]`
abbrev pub word_at : List Word → ℕ → Word
word_at win w = get_or win w zero_word

-- What the loop of `shift_left` writes to `win[w]`.
unfoldable pub shifted_word : ℕ → ℕ → List Word → ℕ → Word
unfolding bit_or shl shr zero_word
shifted_word word_shift bit_shift win w =
    if bit_shift == 0
    then (if leb word_shift w then word_at win (w - word_shift) else zero_word)
    else bit_or
        (if leb word_shift w then shl bit_shift (word_at win (w - word_shift)) else zero_word)
        (if leb (word_shift + 1) w
          then shr (word_bits - bit_shift) (word_at win (w - word_shift - 1))
          else zero_word)

-- The loop, from `w` down to 0, in place.
unfoldable pub shift_loop : ℕ → ℕ → ℕ → List Word → List Word
unfolding shifted_word
shift_loop word_shift bit_shift zero win = win
shift_loop word_shift bit_shift (suc w) win =
    shift_loop word_shift bit_shift w (set win w (shifted_word word_shift bit_shift win w))

unfoldable pub shift_left : ℕ → List Word → List Word
unfolding shift_loop empty_window
shift_left shift win =
    if leb window_bits shift
    then empty_window
    else shift_loop (shift / word_bits) (shift % word_bits) window_words win

-- `win[w] |= mask`
unfoldable pub or_into : ℕ → Word → List Word → List Word
unfolding bit_or
or_into w mask win = set win w (bit_or (word_at win w) mask)

-- The part of `check` for a counter at most `largest`.
unfoldable pub check_back : ℕ → ReplayWindow → ReplayWindow × Bool
unfolding or_into one_shl meets
check_back diff r =
    if leb window_bits diff
    then (r, false)
    else if meets (word_at r.window (diff / word_bits)) (one_shl (diff % word_bits))
    then (r, false)
    else (
      record r { window = or_into (diff / word_bits) (one_shl (diff % word_bits)) r.window },
      true,
    )

unfoldable pub check : ℕ → ReplayWindow → ReplayWindow × Bool
unfolding check_back shift_left
check counter r =
    if r.initialized
    then if ltb r.largest counter
      then (
        record r {
          window = or_into 0 (one_shl 0) (shift_left (counter - r.largest) r.window);
          largest = counter;
        },
        true,
      )
      else check_back (r.largest - counter) r
    else (
      record { window = or_into 0 (one_shl 0) r.window; largest = counter; initialized = true },
      true,
    )
