-- ===== src/Codec/RoundTrip/Lengths.antt =====
-- The length prefixes that the encoders of src/codec.rs write: an `as u16` or `as u32` loses nothing.
use bolina_rs.Prelude.{ℕ, ◌≡◌, ◌%◌, ◌^◌, ap, ◌++◌, length, arith}
use bolina_rs.Prelude.Bytes.{Bytes, to_be_bytes}
use bolina_rs.Codec.Cursor.Fields.{sized}
use bolina_rs.Codec.Encode.{push_field16, push_field32}

low_two : (v : ℕ) → to_be_bytes 2 (v % 2 ^ 16) ≡ to_be_bytes 2 v
unfolding to_be_bytes
low_two v = ground arith

pub low_four : (v : ℕ) → to_be_bytes 4 (v % 2 ^ 32) ≡ to_be_bytes 4 v
unfolding to_be_bytes
low_four v = ground arith

pub push_field16-sized : (v : Bytes) → push_field16 v ≡ sized 2 v
unfolding push_field16
push_field16-sized v = ap (λ t. t ++ v) (low_two (length v))

pub push_field32-sized : (v : Bytes) → push_field32 v ≡ sized 4 v
unfolding push_field32
push_field32-sized v = ap (λ t. t ++ v) (low_four (length v))

pub ruleset wire_laws = (low_four, push_field16-sized, push_field32-sized)
