-- ===== src/Codec/Cursor/Reads.antt =====
-- What it means that a parser reads one field, and the rules that follow a chain of fields.
use Prim.Native.Nat.{ℕ}
use bolina_rs.Prelude.{
  ◌-◌, ◌≡◌, refl, sym, ap, ◌∙◌, ◌⊎◌, inl, inr, [], ◌∷◌, ◌++◌, append-nil, append_assoc,
  length-append, length, All, arith, ok, err, Result, Bool, true, false, if◌then◌else◌,
}
use mathlib.Core.Path.{subst}
use bolina_rs.Prelude.Bytes.{Bytes, IsByte, slice}
use bolina_rs.Prelude.Lists.{All-append_right, take-append_left, drop-append_left}
use bolina_rs.Codec.Cursor.{
  Cursor, Parser, ParseError, ◌>>=◌, ◌>>◌, truncated, trailing_bytes, run, is_empty, expect_end,
  since, position, pure, refuse_if, result, next,
}

-- The cursor between what was read and what is left.
abbrev pub cur : Bytes → Bytes → Cursor
cur p r = record { buf = p ++ r; pos = length p }

-- `m` reads a field written as `enc a`, for the values with `V a`, and nothing else.
pub record Reads {A : Type 0} (m : Parser A) (enc : A → Bytes) (V : A → Type 0) : Type 0 where
  pub sound :
      (p r : Bytes) (a : A) (c : Cursor)
      → All IsByte r
      → m (cur p r) ≡ ok (a, c)
      → (left : Bytes) × (r ≡ enc a ++ left) × (c ≡ cur (p ++ enc a) left) × V a
  pub complete : (p r : Bytes) (a : A) → V a → m (cur p (enc a ++ r)) ≡ ok (a, cur (p ++ enc a) r)
  pub cut :
      (p front back : Bytes) (x : ℕ) (a : A)
      → V a
      → enc a ≡ front ++ (x ∷ back)
      → m (cur p front) ≡ err truncated

-- After the prefix `p`, whatever `m` returns has `Q` with the whole buffer.
pub record Sound {A : Type 0} (p : Bytes) (m : Parser A) (Q : A → Bytes → Type 0) : Type 0 where
  pub at : (r : Bytes) (a : A) (c : Cursor) → All IsByte r → m (cur p r) ≡ ok (a, c) → Q a (p ++ r)

-- After the prefix `p`, `m` reads `w` and comes to the last test with the result `a`.
pub record Runs {A : Type 0} (p : Bytes) (m : Parser A) (w : Bytes) (a : A) : Type 0 where
  pub at : (r : Bytes) → m (cur p (w ++ r)) ≡ (expect_end >> pure a) (cur (p ++ w) r)

-- After the prefix `p`, every proper prefix of `w` is refused as truncated.
pub record Cut {A : Type 0} (p : Bytes) (m : Parser A) (w : Bytes) : Type 0 where
  pub at : (front back : Bytes) (x : ℕ) → w ≡ front ++ (x ∷ back) → m (cur p front) ≡ err truncated

pub next-eq_ok :
    {A B : Type 0} (f : A → Parser B) (z : Result (A × Cursor) ParseError) {y : B × Cursor}
    → next f z ≡ ok y
    → (a : A) × (d : Cursor) × (z ≡ ok (a, d)) × (f a d ≡ ok y)
next-eq_ok f (ok (a, d)) h = (a, d, refl, h)
next-eq_ok f (err e) h = absurd (cc)

-- A proper prefix of `u ++ w` is a proper prefix of `u`, or `u` and a proper prefix of `w`.
prefix_cases :
    (u w front back : Bytes) (x : ℕ)
    → u ++ w ≡ front ++ (x ∷ back)
    → ((more : Bytes) × (u ≡ front ++ (x ∷ more)))
      ⊎ ((behind : Bytes) × (front ≡ u ++ behind) × (w ≡ behind ++ (x ∷ back)))
prefix_cases [] w front back x h = inr (front, refl, h)
prefix_cases (a ∷ u) w [] back x h = inl (u, cc)
prefix_cases (a ∷ u) w (b ∷ front) back x h = elim (prefix_cases u w front back x (cc)) [
  | inl (more, e) ↦ inl (more, cc)
  | inr (behind, e, k) ↦ inr (behind, cc, k)
]

slice_start : (p r : Bytes) → slice 0 (length p) (p ++ r) ≡ p
slice_start p r = let e : length p - 0 ≡ length p = omega arith in rw e (take-append_left p r)

expect_end_at :
    (p : Bytes) (r : Bytes)
    → expect_end (cur p r) ≡ (if is_empty r then ok (tt, cur p r) else err trailing_bytes)
unfolding expect_end
expect_end_at p r = rw drop-append_left

module _ {A B : Type 0} {m : Parser A} {enc : A → Bytes} {V : A → Type 0} (F : Reads m enc V) where
  -- A chain whose first step reads a field: the three rules.
  pub Sound-bind :
      (p : Bytes) (f : A → Parser B) (Q : B → Bytes → Type 0)
      → ((a : A) → V a → Sound (p ++ enc a) (f a) Q)
      → Sound p (m >>= f) Q
  Sound-bind p f Q k = record { at = go }
    where
      go :
          (r : Bytes) (b : B) (c : Cursor)
          → All IsByte r
          → (m >>= f) (cur p r) ≡ ok (b, c)
          → Q b (p ++ r)
      go r b c bytes h =
          let (a, d, e, g) = next-eq_ok f (m (cur p r)) h in
          let (left, split, e', v) = F.sound p r a d bytes e in
          subst (λ (t : Bytes). Q b t) (append_assoc p (enc a) left ∙ ap (λ t. p ++ t) (sym split))
            ((k a v).at left b c
              (All-append_right IsByte (enc a) left (subst (All IsByte) split bytes))
              (subst (λ t. f a t ≡ ok (b, c)) e' g))

  pub run-bind :
      (p r : Bytes) (a : A) (f : A → Parser B)
      → V a
      → (m >>= f) (cur p (enc a ++ r)) ≡ f a (cur (p ++ enc a) r)
  run-bind p r a f v = ap (next f) (F.complete p r a v)

  pub Cut-bind :
      (p w : Bytes) (a : A) (f : A → Parser B)
      → V a
      → Cut (p ++ enc a) (f a) w
      → Cut p (m >>= f) (enc a ++ w)
  Cut-bind p w a f v k = record {
    at = λ front back x h. elim (prefix_cases (enc a) w front back x h) [
      | inl (more, e) ↦ ap (next f) (F.cut p front more x a v e)
      | inr (behind, e, g) ↦ rw e (run-bind p behind a f v ∙ k.at behind back x g)
    ];
  }

  pub Runs-bind :
      (p w : Bytes) (a : A) (f : A → Parser B) {b : B}
      → V a
      → Runs (p ++ enc a) (f a) w b
      → Runs p (m >>= f) (enc a ++ w) b
  Runs-bind p w a f v k = record {
    at = λ r.
        rw (append_assoc (enc a) w r, ← append_assoc p (enc a) w)
          (run-bind p (w ++ r) a f v ∙ k.at r);
  }

module _ {B : Type 0} where
  -- A guard: in a run that goes on, its test was false.
  pub Sound-refuse_if :
      (p : Bytes) (b : Bool) (e : ParseError) (k : Parser B) (Q : B → Bytes → Type 0)
      → (b ≡ false → Sound p k Q)
      → Sound p (refuse_if b e >> k) Q
  unfolding refuse_if
  Sound-refuse_if p true e k Q h = record { at = λ r y c bytes g. absurd (cc) }
  Sound-refuse_if p false e k Q h = record { at = (h refl).at }

  pub refuse_if-pass :
      {b : Bool} (e : ParseError) (k : Parser B) (c : Cursor)
      → b ≡ false
      → (refuse_if b e >> k) c ≡ k c
  unfolding refuse_if
  refuse_if-pass e k c h = rw h

  pub refuse_if-stop :
      {b : Bool} (e : ParseError) (k : Parser B) (c : Cursor)
      → b ≡ true
      → (refuse_if b e >> k) c ≡ err e
  unfolding refuse_if
  refuse_if-stop e k c h = rw h

  pub Cut-refuse_if :
      (p w : Bytes) {b : Bool} (e : ParseError) (k : Parser B)
      → b ≡ false
      → Cut p k w
      → Cut p (refuse_if b e >> k) w
  Cut-refuse_if p w e k off h = record {
    at = λ front back x g. refuse_if-pass e k (cur p front) off ∙ h.at front back x g;
  }

  pub Runs-refuse_if :
      (p w : Bytes) {b : Bool} (e : ParseError) (k : Parser B) {y : B}
      → b ≡ false
      → Runs p k w y
      → Runs p (refuse_if b e >> k) w y
  Runs-refuse_if p w e k off h = record {
    at = λ r. refuse_if-pass e k (cur p (w ++ r)) off ∙ h.at r;
  }

  -- The bytes so far, `&buf[0..c.pos]`.
  pub since_start : (p r : Bytes) (f : Bytes → Parser B) → (since 0 >>= f) (cur p r) ≡ f p (cur p r)
  unfolding since
  since_start p r f = ap (λ t. f t (cur p r)) (slice_start p r)

  pub Sound-since :
      (p : Bytes) (f : Bytes → Parser B) (Q : B → Bytes → Type 0)
      → Sound p (f p) Q
      → Sound p (since 0 >>= f) Q
  Sound-since p f Q k = record {
    at = λ r b c bytes h. k.at r b c bytes (sym (since_start p r f) ∙ h);
  }

  pub Cut-since : (p w : Bytes) (f : Bytes → Parser B) → Cut p (f p) w → Cut p (since 0 >>= f) w
  Cut-since p w f k = record { at = λ front back x h. since_start p front f ∙ k.at front back x h }

  pub Runs-since :
      (p w : Bytes) (f : Bytes → Parser B) {b : B} → Runs p (f p) w b → Runs p (since 0 >>= f) w b
  Runs-since p w f k = record { at = λ r. since_start p (w ++ r) f ∙ k.at r }

  -- The end of the buffer.
  pub at_end : (p : Bytes) (b : B) → (expect_end >> pure b) (cur p []) ≡ ok (b, cur p [])
  unfolding is_empty
  at_end p b = ap (next (λ _. pure b)) (expect_end_at p [])

  not_at_end :
      (p r : Bytes) (x : ℕ) (b : B) → (expect_end >> pure b) (cur p (x ∷ r)) ≡ err trailing_bytes
  unfolding is_empty
  not_at_end p r x b = ap (next (λ _. pure b)) (expect_end_at p (x ∷ r))

  end-eq_ok :
      (p r : Bytes) (b b' : B) (c : Cursor)
      → (expect_end >> pure b) (cur p r) ≡ ok (b', c)
      → (b ≡ b') × (r ≡ [])
  end-eq_ok p [] b b' c h = (cc (h, at_end p b), refl)
  end-eq_ok p (x ∷ r) b b' c h = absurd (cc (h, not_at_end p r x b))

  pub Sound-expect_end :
      (p : Bytes) (b : B) (Q : B → Bytes → Type 0) → Q b p → Sound p (expect_end >> pure b) Q
  Sound-expect_end p b Q q = record {
    at = λ r b' c bytes h.
        let (same, empty) = end-eq_ok p r b b' c h in
        rw (empty, append-nil) (subst (λ t. Q t p) same q);
  }

  pub Runs-expect_end : (p : Bytes) {b b' : B} → b ≡ b' → Runs p (expect_end >> pure b) [] b'
  Runs-expect_end p same = record { at = λ r. rw (append-nil, same) }

  pub Cut-nil : (p : Bytes) (m : Parser B) → Cut p m []
  Cut-nil p m = record { at = no_prefix }
    where
      no_prefix :
          (front back : Bytes) (x : ℕ) → [] ≡ front ++ (x ∷ back) → m (cur p front) ≡ err truncated
      no_prefix [] back x h = absurd (cc)
      no_prefix (y ∷ front) back x h = absurd (cc)

-- A step that reads nothing and returns `a`.
module _ {A B : Type 0} (m : Parser A) (p : Bytes) (a : A) where
  Sound-peek :
      (f : A → Parser B) (Q : B → Bytes → Type 0)
      → ((r : Bytes) → m (cur p r) ≡ ok (a, cur p r))
      → Sound p (f a) Q
      → Sound p (m >>= f) Q
  Sound-peek f Q e k = record {
    at = λ r b c bytes h. k.at r b c bytes (sym (ap (next f) (e r)) ∙ h);
  }

  Runs-peek :
      (w : Bytes) (f : A → Parser B) {b : B}
      → ((r : Bytes) → m (cur p r) ≡ ok (a, cur p r))
      → Runs p (f a) w b
      → Runs p (m >>= f) w b
  Runs-peek w f e k = record { at = λ r. ap (next f) (e (w ++ r)) ∙ k.at r }

  Cut-peek :
      (w : Bytes) (f : A → Parser B)
      → ((r : Bytes) → m (cur p r) ≡ ok (a, cur p r))
      → Cut p (f a) w
      → Cut p (m >>= f) w
  Cut-peek w f e k = record { at = λ front back x h. ap (next f) (e front) ∙ k.at front back x h }

position_at : (p r : Bytes) → position (cur p r) ≡ ok (length p, cur p r)
unfolding position
position_at p r = refl

since_at : (p w r : Bytes) → since (length p) (cur (p ++ w) r) ≡ ok (w, cur (p ++ w) r)
unfolding since
since_at p w r =
    let e : length (p ++ w) - length p ≡ length w = omega (arith, length-append p w) in
    rw (append_assoc, drop-append_left, e, take-append_left)

-- `c.pos`, and the bytes since an earlier position.
module _ {B : Type 0} (p : Bytes) where
  pub Sound-position :
      (f : ℕ → Parser B) (Q : B → Bytes → Type 0)
      → Sound p (f (length p)) Q
      → Sound p (position >>= f) Q
  Sound-position f Q = Sound-peek position p (length p) f Q (position_at p)

  pub Runs-position :
      (w : Bytes) (f : ℕ → Parser B) {b : B}
      → Runs p (f (length p)) w b
      → Runs p (position >>= f) w b
  Runs-position w f = Runs-peek position p (length p) w f (position_at p)

  pub Cut-position :
      (w : Bytes) (f : ℕ → Parser B) → Cut p (f (length p)) w → Cut p (position >>= f) w
  Cut-position w f = Cut-peek position p (length p) w f (position_at p)

  pub Sound-since_from :
      (w : Bytes) (f : Bytes → Parser B) (Q : B → Bytes → Type 0)
      → Sound (p ++ w) (f w) Q
      → Sound (p ++ w) (since (length p) >>= f) Q
  Sound-since_from w f Q = Sound-peek (since (length p)) (p ++ w) w f Q (since_at p w)

  pub Runs-since_from :
      (w v : Bytes) (f : Bytes → Parser B) {b : B}
      → Runs (p ++ w) (f w) v b
      → Runs (p ++ w) (since (length p) >>= f) v b
  Runs-since_from w v f = Runs-peek (since (length p)) (p ++ w) w v f (since_at p w)

-- Whole buffers.
result-eq_ok :
    {A : Type 0} (z : Result (A × Cursor) ParseError) {a : A}
    → result z ≡ ok a
    → (c : Cursor) × (z ≡ ok (a, c))
result-eq_ok (ok (a, c)) h = (c, cc)
result-eq_ok (err e) h = absurd (cc)

pub run-sound :
    {A : Type 0} (m : Parser A) (Q : A → Bytes → Type 0) (buf : Bytes) (a : A)
    → All IsByte buf
    → Sound [] m Q
    → run m buf ≡ ok a
    → Q a buf
unfolding run
run-sound m Q buf a bytes h e = let (c, g) = result-eq_ok (m (cur [] buf)) e in h.at buf a c bytes g

-- What `m` reads is accepted alone, and refused for its trailing bytes with more behind it.
pub run-encode :
    {A : Type 0} (m : Parser A) (w : Bytes) (a : A) (more : Bytes)
    → Runs [] m w a
    → run m (w ++ more) ≡ (if is_empty more then ok a else err trailing_bytes)
unfolding run is_empty
run-encode m w a [] h = ap result (h.at [] ∙ at_end w a)
run-encode m w a (x ∷ more) h = ap result (h.at (x ∷ more) ∙ not_at_end w more x a)

pub run-Cut :
    {A : Type 0} (m : Parser A) (w front back : Bytes) (x : ℕ)
    → Cut [] m w
    → w ≡ front ++ (x ∷ back)
    → run m front ≡ err truncated
unfolding run
run-Cut m w front back x h e = ap result (h.at front back x e)
