-- ===== src/Codec/Cursor/Fields.antt =====
-- Each reader of `Cursor` reads the field that its encoder writes.
use Prim.Native.Nat.{ℕ, suc}
use mathlib.Core.Path.{subst}
use bolina_rs.Prelude.{
  ◌+◌, ◌-◌, ◌^◌, ◌<◌, ◌≤◌, ◌≡◌, refl, sym, ap, ◌∙◌, inl, inr, [], ◌∷◌, ◌++◌, append_assoc, length,
  length-append, take as take_list, drop, get_or, All, arith, ok, err, leb, ltb, if◌then◌else◌,
  Bool-cases,
}
use bolina_rs.Prelude.Bytes.{
  Bytes, IsByte, slice, from_be_bytes, to_be_bytes, from_be_bytes-to, to_be_bytes-from,
  from_be_bytes-lt, length-to_be_bytes,
}
use bolina_rs.Prelude.Tests.{le→leb, lt→leb, leb→le, leb→lt, ltb→le, le→ltb}
use bolina_rs.Prelude.Lists.{
  drop-append_left, take-append_left, take-append-drop, length-take_le, All-append_left,
  All-append_right,
}
use bolina_rs.Codec.Cursor.{
  Cursor, Parser, ◌>>=◌, ◌>>◌, truncated, need, at, advance, u8r, u16be, u32be, u64be, take,
  field16, field32, refuse_if, oversize,
}
use bolina_rs.Codec.Cursor.Reads.{
  Reads, cur, next-eq_ok, run-bind, Cut-bind, Cut-refuse_if, refuse_if-pass, refuse_if-stop,
}

need_at :
    (p r : Bytes) (n : ℕ)
    → need n (cur p r) ≡ (if leb n (length r) then ok (tt, cur p r) else err truncated)
unfolding need
need_at p r n = ground (arith, length-append p r)

slice_behind : (p r : Bytes) (n : ℕ) → slice (length p) (length p + n) (p ++ r) ≡ take_list n r
slice_behind p r n = let e : length p + n - length p ≡ n = omega arith in rw (drop-append_left, e)

advance_over :
    (p w left : Bytes) (n : ℕ) → length w ≡ n → advance (cur p (w ++ left)) n ≡ cur (p ++ w) left
unfolding advance
advance_over p w left n e = ground (arith, append_assoc p w left, length-append p w)

-- A reader of `n` bytes, with the value that `g` makes of them.
fixed : {A : Type 0} → ℕ → (Bytes → A) → Parser A
fixed n g = need n >> λ c. ok (g (slice c.pos (c.pos + n) c.buf), advance c n)

fixed_enough :
    {A : Type 0} (n : ℕ) (g : Bytes → A) (p w left : Bytes)
    → length w ≡ n
    → fixed n g (cur p (w ++ left)) ≡ ok (g w, cur (p ++ w) left)
unfolding fixed
fixed_enough n g p w left e = rw (
  need_at,
  le→leb n (length (w ++ left)) (omega (arith, length-append w left)),
  slice_behind,
  ← e,
  take-append_left,
  advance_over p w left (length w) refl,
)

fixed_short :
    {A : Type 0} (n : ℕ) (g : Bytes → A) (p r : Bytes)
    → length r < n
    → fixed n g (cur p r) ≡ err truncated
unfolding fixed
fixed_short n g p r h = rw (need_at, lt→leb n (length r) h)

module _ {A : Type 0} (n : ℕ) (g : Bytes → A) (enc : A → Bytes) (V : A → Type 0) where
  Back : Type 0
  Back = (w : Bytes) → All IsByte w → length w ≡ n → (enc (g w) ≡ w) × V (g w)

  Forth : Type 0
  Forth = (a : A) → V a → (length (enc a) ≡ n) × (g (enc a) ≡ a)

  fixed-split :
      (p w left : Bytes) (a : A) (c : Cursor)
      → Back
      → All IsByte w
      → length w ≡ n
      → fixed n g (cur p (w ++ left)) ≡ ok (a, c)
      → (l : Bytes) × (w ++ left ≡ enc a ++ l) × (c ≡ cur (p ++ enc a) l) × V a
  unfolding Back
  fixed-split p w left a c back bytes e h =
      let (inverse, v) = back w bytes e in
      let same : g w ≡ a = cc (h, fixed_enough n g p w left e) in
      let there : c ≡ cur (p ++ w) left = cc (h, fixed_enough n g p w left e) in
      let back' : enc a ≡ w = cc (inverse, same) in
      (left, cc (back'), there ∙ ap (λ t. cur (p ++ t) left) (sym back'), subst V same v)

  fixed_sound :
      (p r : Bytes) (a : A) (c : Cursor)
      → Back
      → All IsByte r
      → fixed n g (cur p r) ≡ ok (a, c)
      → (l : Bytes) × (r ≡ enc a ++ l) × (c ≡ cur (p ++ enc a) l) × V a
  fixed_sound p r a c back bytes h = elim (Bool-cases (leb n (length r))) [
    | inl enough ↦
        let e = take-append-drop n r in
        let (l, split, there, v) =
          fixed-split p (take_list n r) (drop n r) a c back
            (All-append_left IsByte (take_list n r) (drop n r) (subst (All IsByte) (sym e) bytes))
            (length-take_le n r (leb→le n (length r) enough))
            (subst (λ t. fixed n g (cur p t) ≡ ok (a, c)) (sym e) h) in
        (l, sym e ∙ split, there, v)
    | inr short ↦ absurd (cc (h, fixed_short n g p r (leb→lt n (length r) short)))
  ]

  -- Such a reader reads a field if `g` and `enc` are inverse on `n` bytes and on the values.
  Reads-fixed : Back → Forth → Reads (fixed n g) enc V
  unfolding Forth
  Reads-fixed back forth = record {
    sound = λ p r a c bytes h. fixed_sound p r a c back bytes h;
    complete = λ p r a v.
        let (e, inverse) = forth a v in
        fixed_enough n g p (enc a) r e ∙ ap (λ t. ok (t, cur (p ++ enc a) r)) inverse;
    cut = λ p front behind x a v e.
        fixed_short n g p front
          (omega (arith, ap length e, length-append front (x ∷ behind), (forth a v).0));
  }

-- Reading depends on what a parser does at the cursors `cur p r` alone.
Reads-eq :
    {A : Type 0} {m m' : Parser A} {enc : A → Bytes} {V : A → Type 0}
    → ((p r : Bytes) → m (cur p r) ≡ m' (cur p r))
    → Reads m' enc V
    → Reads m enc V
Reads-eq same F = record {
  sound = λ p r a c bytes h. F.sound p r a c bytes (sym (same p r) ∙ h);
  complete = λ p r a v. same p _ ∙ F.complete p r a v;
  cut = λ p front back x a v e. same p front ∙ F.cut p front back x a v e;
}

-- `take`: the bytes themselves.
pub Reads-take : (n : ℕ) → Reads (take n) (λ w. w) (λ w. length w ≡ n)
unfolding take fixed Back Forth
Reads-take n = Reads-fixed n (λ w. w) (λ w. w) _ (λ w bytes e. (refl, e)) (λ w e. (e, refl))

abbrev pub Fits : ℕ → ℕ → Type 0
Fits k v = v < 256 ^ k

Reads-be : (k : ℕ) → Reads (fixed k from_be_bytes) (to_be_bytes k) (Fits k)
unfolding Back Forth
Reads-be k =
    Reads-fixed k from_be_bytes (to_be_bytes k) (Fits k)
      (λ w bytes e. (to_be_bytes-from k w bytes e, from_be_bytes-lt k w bytes e))
      (λ v h. (length-to_be_bytes k v, from_be_bytes-to k v h))

pub Reads-u64be : Reads u64be (to_be_bytes 8) (Fits 8)
unfolding u64be fixed
Reads-u64be = Reads-be 8

at_behind : (p r : Bytes) (i : ℕ) → at (cur p r) i ≡ get_or r i 0
unfolding at
at_behind [] r i = let e : 0 + i ≡ i = omega arith in rw e
at_behind (x ∷ p) r i =
    let e : suc (length p) + i ≡ suc (length p + i) = omega arith in rw e (at_behind p r i)

-- A reader that takes its bytes one by one, by their indices.
indexed-fixed :
    {A : Type 0} (n : ℕ) (h : Cursor → A) (g : Bytes → A) (p r : Bytes)
    → (n ≤ length r → h (cur p r) ≡ g (take_list n r))
    → (need n >> λ c. ok (h c, advance c n)) (cur p r) ≡ fixed n g (cur p r)
unfolding fixed
indexed-fixed n h g p r same = elim (Bool-cases (leb n (length r))) [
  | inl enough ↦ rw (need_at, enough, slice_behind, same (leb→le n (length r) enough))
  | inr short ↦ rw (need_at, short)
]

first_one : (r : Bytes) → 1 ≤ length r → get_or r 0 0 ∷ [] ≡ take_list 1 r
first_one [] h = absurd (omega arith)
first_one (a ∷ r) h = refl

first_two : (r : Bytes) → 2 ≤ length r → get_or r 0 0 ∷ get_or r 1 0 ∷ [] ≡ take_list 2 r
first_two [] h = absurd (omega arith)
first_two (a ∷ []) h = absurd (omega arith)
first_two (a ∷ b ∷ r) h = refl

first_four :
    (r : Bytes)
    → 4 ≤ length r
    → get_or r 0 0 ∷ get_or r 1 0 ∷ get_or r 2 0 ∷ get_or r 3 0 ∷ [] ≡ take_list 4 r
first_four [] h = absurd (omega arith)
first_four (a ∷ []) h = absurd (omega arith)
first_four (a ∷ b ∷ []) h = absurd (omega arith)
first_four (a ∷ b ∷ c ∷ []) h = absurd (omega arith)
first_four (a ∷ b ∷ c ∷ d ∷ r) h = refl

first_or_zero : Bytes → ℕ
first_or_zero w = get_or w 0 0

first_one_or_zero : (r : Bytes) → 1 ≤ length r → get_or r 0 0 ≡ first_or_zero (take_list 1 r)
unfolding first_or_zero
first_one_or_zero [] h = absurd (omega arith)
first_one_or_zero (a ∷ r) h = refl

Reads-first : Reads (fixed 1 first_or_zero) (λ b. b ∷ []) IsByte
unfolding Back Forth first_or_zero
Reads-first = Reads-fixed 1 first_or_zero (λ b. b ∷ []) IsByte back (λ b h. (refl, refl))
  where
    back :
        (w : Bytes) → All IsByte w → length w ≡ 1 → (get_or w 0 0 ∷ [] ≡ w) × IsByte (get_or w 0 0)
    back [] bytes e = absurd (omega arith)
    back (a ∷ []) bytes e = (refl, bytes.0)
    back (a ∷ b ∷ w) bytes e = absurd (omega arith)

pub Reads-u8r : Reads u8r (λ b. b ∷ []) IsByte
unfolding u8r
Reads-u8r =
    Reads-eq
      (λ p r.
        indexed-fixed 1 (λ c. at c 0) first_or_zero p r
          (λ h. at_behind p r 0 ∙ first_one_or_zero r h))
      Reads-first

pub Reads-u16be : Reads u16be (to_be_bytes 2) (Fits 2)
unfolding u16be
Reads-u16be =
    Reads-eq
      (λ p r.
        indexed-fixed 2 (λ c. from_be_bytes (at c 0 ∷ at c 1 ∷ [])) from_be_bytes p r
          (λ h. simp at_behind (ap from_be_bytes (first_two r h))))
      (Reads-be 2)

pub Reads-u32be : Reads u32be (to_be_bytes 4) (Fits 4)
unfolding u32be
Reads-u32be =
    Reads-eq
      (λ p r.
        indexed-fixed 4 (λ c. from_be_bytes (at c 0 ∷ at c 1 ∷ at c 2 ∷ at c 3 ∷ [])) from_be_bytes
          p r (λ h. simp at_behind (ap from_be_bytes (first_four r h))))
      (Reads-be 4)

-- A length-prefixed field: the length in `k` bytes, and as many bytes, at most `max`.
abbrev pub sized : ℕ → Bytes → Bytes
sized k w = to_be_bytes k (length w) ++ w

module _ (k max : ℕ) (m : Parser ℕ) (F : Reads m (to_be_bytes k) (Fits k))
    (small : Fits k max) where
  field : Parser Bytes
  unfolding refuse_if take
  field = do len ← m; refuse_if (ltb max len) oversize; take len

  checked_take_sound :
      (len : ℕ) (c : Cursor) {y : Bytes × Cursor}
      → (refuse_if (ltb max len) oversize >> take len) c ≡ ok y
      → (len ≤ max) × (take len c ≡ ok y)
  checked_take_sound len c h = elim (Bool-cases (ltb max len)) [
    | inl over ↦ absurd (cc (h, refuse_if-stop oversize (take len) c over))
    | inr within ↦ (ltb→le max len within, sym (refuse_if-pass oversize (take len) c within) ∙ h)
  ]

  field_sound :
      (p r : Bytes) (a : Bytes) (c : Cursor)
      → All IsByte r
      → field (cur p r) ≡ ok (a, c)
      → (l : Bytes) × (r ≡ sized k a ++ l) × (c ≡ cur (p ++ sized k a) l) × (length a ≤ max)
  unfolding field
  field_sound p r a c bytes h =
      let (len, d, e, g) = next-eq_ok _ (m (cur p r)) h in
      let (l, split, e', fits) = F.sound p r len d bytes e in
      let (within, g') = checked_take_sound len d g in
      let (l', split', e'', exact) =
        (Reads-take len).sound (p ++ to_be_bytes k len) l a c
          (All-append_right IsByte (to_be_bytes k len) l (subst (All IsByte) split bytes))
          (subst (λ t. take len t ≡ ok (a, c)) e' g') in
      let regrouped : r ≡ (to_be_bytes k (length a) ++ a) ++ l' =
        split
        ∙ ap (λ t. to_be_bytes k len ++ t) split'
        ∙ ap (λ t. to_be_bytes k t ++ (a ++ l')) (sym exact)
        ∙ sym (append_assoc (to_be_bytes k (length a)) a l') in
      (l', regrouped, rw (exact, ← append_assoc p (to_be_bytes k len) a) e'', rw exact within)

  Fits-length : (a : Bytes) → length a ≤ max → Fits k (length a)
  Fits-length a v = omega (arith, small)

  field_tail-runs :
      (p r a : Bytes)
      → length a ≤ max
      → (refuse_if (ltb max (length a)) oversize >> take (length a)) (cur p (a ++ r))
        ≡ ok (a, cur (p ++ a) r)
  field_tail-runs p r a v =
      refuse_if-pass oversize (take (length a)) (cur p (a ++ r)) (le→ltb max (length a) v)
      ∙ (Reads-take (length a)).complete p r a refl

  Reads-field : Reads field (sized k) (λ w. length w ≤ max)
  unfolding field
  Reads-field = record {
    sound = field_sound;
    complete = λ p r a v.
        rw (append_assoc, ← append_assoc p (to_be_bytes k (length a)) a)
          (run-bind F p (a ++ r) (length a) _ (Fits-length a v)
            ∙ field_tail-runs (p ++ to_be_bytes k (length a)) r a v);
    cut = λ p front back x a v e.
        (Cut-bind F p a (length a) _ (Fits-length a v) (
            Cut-refuse_if (p ++ to_be_bytes k (length a)) a oversize (take (length a))
              (le→ltb max (length a) v)
              (record {
                at = λ front' back' x' e'.
                    (Reads-take (length a)).cut (p ++ to_be_bytes k (length a)) front' back' x' a
                      refl e';
              }))).at
          front back x e;
  }

pub Reads-field16 : (max : ℕ) → max < 65536 → Reads (field16 max) (sized 2) (λ w. length w ≤ max)
unfolding field16 field
Reads-field16 max small = Reads-field 2 max u16be Reads-u16be (omega arith)

pub Reads-field32 :
    (max : ℕ) → max < 4294967296 → Reads (field32 max) (sized 4) (λ w. length w ≤ max)
unfolding field32 field
Reads-field32 max small = Reads-field 4 max u32be Reads-u32be (omega arith)
