-- ===== src/Prelude/Outcome.antt =====
-- Rust's `Result<T, E>`.
use mathlib.Core.Path.{◌≡◌, refl}
use mathlib.Core.Bool.{Bool, true, false}
use mathlib.Core.Option.{Option, none, some}
use mathlib.Core.Logic.{◌⊎◌, inl, inr}

pub data Result {ℓ} (A E : Type ℓ) : Type ℓ where
  ok : A → Result A E
  err : E → Result A E

-- `r.map(f)`
abbrev pub map_ok {ℓ} : {A B E : Type ℓ} → (A → B) → Result A E → Result B E
map_ok f (ok a) = ok (f a)
map_ok f (err e) = err e

-- What a mapped success was before.
pub map_ok-eq_ok {ℓ} :
    {A B E : Type ℓ} (f : A → B) (r : Result A E) {b : B}
    → map_ok f r ≡ ok b
    → (a : A) × (r ≡ ok a) × (f a ≡ b)
map_ok-eq_ok f (ok a) h = (a, refl, cc)
map_ok-eq_ok f (err e) h = absurd (cc)

-- `?` on results: a `do` block stops at the first error.
infixl 5 ◌>>=◌ ◌>>◌
abbrev pub ◌>>=◌ {ℓ} : {A B E : Type ℓ} → Result A E → (A → Result B E) → Result B E
◌>>=◌ (ok a) f = f a
◌>>=◌ (err e) f = err e

abbrev pub ◌>>◌ {ℓ} : {A B E : Type ℓ} → Result A E → Result B E → Result B E
m >> k = m >>= λ _. k

-- `if b { return Err(e) }`
unfoldable pub refuse_if : {E : Type 0} → Bool → E → Result (Unit {0}) E
refuse_if true e = err e
refuse_if false e = ok tt

-- `o.ok_or(e)`
unfoldable pub ok_or {ℓ} : {A E : Type ℓ} → E → Option A → Result A E
ok_or e none = err e
ok_or e (some a) = ok a

-- `r.map_err(f)`
abbrev pub map_err {ℓ} : {A E F : Type ℓ} → (E → F) → Result A E → Result A F
map_err f (ok a) = ok a
map_err f (err e) = err (f e)

-- A block that comes through came through its first part.
pub bind-ok {ℓ} :
    {A B E : Type ℓ} (m : Result A E) (f : A → Result B E) {b : B}
    → (m >>= f) ≡ ok b
    → (a : A) × (m ≡ ok a) × (f a ≡ ok b)
bind-ok (ok a) f h = (a, refl, h)
bind-ok (err e) f h = absurd (cc)

pub refuse_if-ok :
    {B E : Type 0} (t : Bool) (e : E) (f : Unit {0} → Result B E) {b : B}
    → (refuse_if t e >>= f) ≡ ok b
    → (t ≡ false) × (f tt ≡ ok b)
unfolding refuse_if
refuse_if-ok true e f h = absurd (cc)
refuse_if-ok false e f h = (refl, h)

pub refuse_if-false :
    {B E : Type 0} (t : Bool) (e : E) (f : Unit {0} → Result B E)
    → t ≡ false
    → (refuse_if t e >>= f) ≡ f tt
unfolding refuse_if
refuse_if-false true e f h = absurd (cc)
refuse_if-false false e f h = refl

pub ok_or-ok {ℓ} : {A E : Type ℓ} (e : E) (o : Option A) {a : A} → ok_or e o ≡ ok a → o ≡ some a
unfolding ok_or
ok_or-ok e none h = absurd (cc)
ok_or-ok e (some a) h = cc

pub refuse_if-passed :
    {E : Type 0} (t : Bool) (e : E) {u : Unit {0}} → refuse_if t e ≡ ok u → t ≡ false
unfolding refuse_if
refuse_if-passed true e h = absurd (cc)
refuse_if-passed false e h = refl

pub Result-cases {ℓ} :
    {A E : Type ℓ} (r : Result A E) → ((a : A) × (r ≡ ok a)) ⊎ ((e : E) × (r ≡ err e))
Result-cases (ok a) = inl (a, refl)
Result-cases (err e) = inr (e, refl)

pub map_err-ok {ℓ} :
    {A E F : Type ℓ} (f : E → F) (r : Result A E) {a : A} → map_err f r ≡ ok a → r ≡ ok a
map_err-ok f (ok b) h = cc (h)
map_err-ok f (err e) h = absurd (cc (h))
