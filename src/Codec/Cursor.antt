-- ===== src/Codec/Cursor.antt =====
-- `ParseError` and `Cursor` of src/codec.rs. A parser maps a cursor to its result and the cursor
-- behind what it read; `?` is the bind. After an error nothing reads the cursor.
pub mod Reads
pub mod Fields
use Prim.Native.Nat.{ℕ, ◌+◌}
use bolina_rs.Prelude.{Bool, true, false, [], ◌∷◌, length, get_or, drop, leb, ltb, if◌then◌else◌}
use bolina_rs.Prelude.{Result, ok, err}
use bolina_rs.Prelude.Bytes.{Bytes, slice, from_be_bytes}

pub data ParseError : Type 0 where
  truncated oversize trailing_bytes malformed : ParseError

pub record Cursor : Type 0 where
  pub buf : Bytes
  pub pos : ℕ

abbrev pub new : Bytes → Cursor
new buf = record { buf = buf; pos = 0 }

abbrev pub Parser : Type 0 → Type 0
Parser A = Cursor → Result (A × Cursor) ParseError

abbrev pub next :
    {A B : Type 0}
    → (A → Parser B)
    → Result (A × Cursor) ParseError
    → Result (B × Cursor) ParseError
next f (ok (a, c)) = f a c
next f (err e) = err e

infixl 5 ◌>>=◌ ◌>>◌
abbrev pub ◌>>=◌ : {A B : Type 0} → Parser A → (A → Parser B) → Parser B
◌>>=◌ m f c = next f (m c)

abbrev pub ◌>>◌ : {B : Type 0} → Parser (Unit {0}) → Parser B → Parser B
m >> k = m >>= λ _. k

abbrev pub pure : {A : Type 0} → A → Parser A
pure a c = ok (a, c)

-- `if b { return Err(e) }`
unfoldable pub refuse_if : Bool → ParseError → Parser (Unit {0})
refuse_if true e c = err e
refuse_if false e c = ok (tt, c)

unfoldable pub need : ℕ → Parser (Unit {0})
need n c = if leb (c.pos + n) (length c.buf) then ok (tt, c) else err truncated

-- `self.buf[self.pos + i]`
unfoldable pub at : Cursor → ℕ → ℕ
at c i = get_or c.buf (c.pos + i) 0

unfoldable pub advance : Cursor → ℕ → Cursor
advance c n = record c { pos = c.pos + n }

unfoldable pub u8r : Parser ℕ
unfolding need at advance
u8r = need 1 >> λ c. ok (at c 0, advance c 1)

unfoldable pub u16be : Parser ℕ
unfolding need at advance from_be_bytes
u16be = need 2 >> λ c. ok (from_be_bytes (at c 0 ∷ at c 1 ∷ []), advance c 2)

unfoldable pub u32be : Parser ℕ
unfolding need at advance from_be_bytes
u32be = need 4 >> λ c. ok (from_be_bytes (at c 0 ∷ at c 1 ∷ at c 2 ∷ at c 3 ∷ []), advance c 4)

unfoldable pub u64be : Parser ℕ
unfolding need advance from_be_bytes
u64be = need 8 >> λ c. ok (from_be_bytes (slice c.pos (c.pos + 8) c.buf), advance c 8)

unfoldable pub take : ℕ → Parser Bytes
unfolding need advance
take n = need n >> λ c. ok (slice c.pos (c.pos + n) c.buf, advance c n)

unfoldable pub field16 : ℕ → Parser Bytes
unfolding u16be refuse_if take
field16 max = do len ← u16be; refuse_if (ltb max len) oversize; take len

unfoldable pub field32 : ℕ → Parser Bytes
unfolding u32be refuse_if take
field32 max = do len ← u32be; refuse_if (ltb max len) oversize; take len

rest : Cursor → Bytes
rest c = drop c.pos c.buf

unfoldable pub is_empty : Bytes → Bool
is_empty [] = true
is_empty (b ∷ bs) = false

-- `if !c.rest().is_empty() { return Err(ParseError::TrailingBytes) }`
unfoldable pub expect_end : Parser (Unit {0})
unfolding rest is_empty
expect_end c = if is_empty (rest c) then ok (tt, c) else err trailing_bytes

-- `&buf[from..c.pos]`
unfoldable pub since : ℕ → Parser Bytes
since from c = ok (slice from c.pos c.buf, c)

-- `c.pos`
unfoldable pub position : Parser ℕ
position c = ok (c.pos, c)

-- A parse of the whole buffer.
abbrev pub result : {A : Type 0} → Result (A × Cursor) ParseError → Result A ParseError
result (ok (a, c)) = ok a
result (err e) = err e

unfoldable pub run : {A : Type 0} → Parser A → Bytes → Result A ParseError
run m buf = result (m (new buf))
