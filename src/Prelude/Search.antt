-- ===== src/Prelude/Search.antt =====
-- Rust's iterator tests on lists: `any`, `position`, `retain`, and what updates do to them.
use Prim.Native.Nat.{ℕ, zero, suc, ◌≤◌}
use mathlib.Core.Path.{◌≡◌, refl, ap, subst}
use mathlib.Core.Bool.{Bool, true, false, ◌||◌}
use mathlib.Core.Logic.{inl, inr}
use mathlib.Core.Option
use mathlib.Core.Option.{Option, none, some}
use mathlib.Core.List.{List, [], ◌∷◌, ◌++◌}
use native.Mathlib.Omega.{arith}
use bolina_rs.Prelude.Tests.{◌==◌, if◌then◌else◌, Bool-cases, Option-cases}
use bolina_rs.Prelude.Lists.{length, set, take, drop, All}

module _ {ℓ} {A : Type ℓ} where
  abbrev pub get_elem? : List A → ℕ → Option A
  get_elem? [] i = none
  get_elem? (x ∷ xs) zero = some x
  get_elem? (x ∷ xs) (suc i) = get_elem? xs i

  unfoldable pub any : (A → Bool) → List A → Bool
  any p [] = false
  any p (x ∷ xs) = p x || any p xs

  -- The index of the first hit.
  unfoldable pub find_index : (A → Bool) → List A → Option ℕ
  find_index p [] = none
  find_index p (x ∷ xs) =
      let later = Option.map suc (find_index p xs) in if p x then some 0 else later

  -- `iter().find(p)`
  unfoldable pub find : (A → Bool) → List A → Option A
  find p [] = none
  find p (x ∷ xs) = let later = find p xs in if p x then some x else later

  -- `Vec::retain`, `filter`
  unfoldable pub retain : (A → Bool) → List A → List A
  retain p [] = []
  retain p (x ∷ xs) = let rest = retain p xs in if p x then x ∷ rest else rest

module _ {ℓ} {A : Type ℓ} where
  pub any-append : (p : A → Bool) (xs ys : List A) → any p (xs ++ ys) ≡ (any p xs || any p ys)
  unfolding any
  any-append p [] ys = refl
  any-append p (x ∷ xs) ys = ground (arith, any-append p xs ys)

  pub any_weaker :
      (p q : A → Bool) (xs : List A)
      → ((x : A) → p x ≡ true → q x ≡ true)
      → any q xs ≡ false
      → any p xs ≡ false
  unfolding any
  any_weaker p q [] imp h = refl
  any_weaker p q (x ∷ xs) imp h = ground (arith, imp x, any_weaker p q xs imp)

  pub any_never : (p : A → Bool) (xs : List A) → ((x : A) → p x ≡ false) → any p xs ≡ false
  unfolding any
  any_never p [] never = refl
  any_never p (x ∷ xs) never = ground (arith, never x, any_never p xs never)

  pub any-set :
      (p : A → Bool) (xs : List A) (i : ℕ) (e e' : A)
      → get_elem? xs i ≡ some e
      → (p e' ≡ true → p e ≡ true)
      → any p xs ≡ false
      → any p (set xs i e') ≡ false
  unfolding any
  any-set p [] i e e' at imp h = refl
  any-set p (x ∷ xs) zero e e' at imp h = ground arith
  any-set p (x ∷ xs) (suc i) e e' at imp h = ground (arith, any-set p xs i e e' at imp)

  pub any-retain : (p q : A → Bool) (xs : List A) → any p xs ≡ false → any p (retain q xs) ≡ false
  unfolding any retain
  any-retain p q [] h = refl
  any-retain p q (x ∷ xs) h = ground (arith, any-retain p q xs)

  pub length-retain_le : (q : A → Bool) (xs : List A) → length (retain q xs) ≤ length xs
  unfolding retain
  length-retain_le q [] = omega arith
  length-retain_le q (x ∷ xs) = ground (arith, length-retain_le q xs)

  pub All-retain {κ} :
      (P : A → Type κ) (q : A → Bool) (xs : List A) → All P xs → All P (retain q xs)
  unfolding retain
  All-retain P q [] h = h
  All-retain P q (x ∷ xs) h = elim (Bool-cases (q x)) [
    | inl e ↦ rw e (h.0, All-retain P q xs h.1)
    | inr e ↦ rw e (All-retain P q xs h.1)
  ]

  pub All-retain_self : (q : A → Bool) (xs : List A) → All (λ x. q x ≡ true) (retain q xs)
  unfolding retain
  All-retain_self q [] = tt
  All-retain_self q (x ∷ xs) = elim (Bool-cases (q x)) [
    | inl e ↦ rw e (e, All-retain_self q xs)
    | inr e ↦ rw e (All-retain_self q xs)
  ]

  -- No element clashes with a later one.
  abbrev pub NoClash : (A → A → Bool) → List A → Type 0
  NoClash r [] = Unit {0}
  NoClash r (x ∷ xs) = (any (r x) xs ≡ false) × NoClash r xs

  pub NoClash-retain :
      (r : A → A → Bool) (q : A → Bool) (xs : List A) → NoClash r xs → NoClash r (retain q xs)
  unfolding retain
  NoClash-retain r q [] h = h
  NoClash-retain r q (x ∷ xs) h = elim (Bool-cases (q x)) [
    | inl e ↦ rw e (any-retain (r x) q xs h.0, NoClash-retain r q xs h.1)
    | inr e ↦ rw e (NoClash-retain r q xs h.1)
  ]

  pub NoClash-push :
      (r : A → A → Bool) (xs : List A) (n : A)
      → NoClash r xs
      → any (λ x. r x n) xs ≡ false
      → NoClash r (xs ++ n ∷ [])
  unfolding any
  NoClash-push r [] n h k = (refl, tt)
  NoClash-push r (x ∷ xs) n h k =
      (ground (arith, any-append (r x) xs (n ∷ [])), NoClash-push r xs n h.1 (ground arith))

  -- A replacement that clashes with no more than what it replaces.
  pub NoClash-set :
      (r : A → A → Bool) (xs : List A) (i : ℕ) (e e' : A)
      → get_elem? xs i ≡ some e
      → ((x : A) → r e' x ≡ true → r e x ≡ true)
      → ((x : A) → r x e' ≡ true → r x e ≡ true)
      → NoClash r xs
      → NoClash r (set xs i e')
  NoClash-set r [] i e e' at below above h = h
  NoClash-set r (x ∷ xs) zero e e' at below above h =
      (any_weaker (r e') (r x) xs (λ y c. ground (arith, below y)) h.0, h.1)
  NoClash-set r (x ∷ xs) (suc i) e e' at below above h =
      (any-set (r x) xs i e e' at (above x) h.0, NoClash-set r xs i e e' at below above h.1)

  pub All-set {κ} :
      (P : A → Type κ) (xs : List A) (i : ℕ) (e' : A) → P e' → All P xs → All P (set xs i e')
  All-set P [] i e' p h = h
  All-set P (x ∷ xs) zero e' p h = (p, h.1)
  All-set P (x ∷ xs) (suc i) e' p h = (h.0, All-set P xs i e' p h.1)

  pub length-set : (xs : List A) (i : ℕ) (v : A) → length (set xs i v) ≡ length xs
  length-set [] i v = refl
  length-set (x ∷ xs) zero v = refl
  length-set (x ∷ xs) (suc i) v = ap suc (length-set xs i v)

  -- What `find_index` finds is a hit; if it finds nothing there is none.
  pub find_index-some :
      (p : A → Bool) (xs : List A) (i : ℕ)
      → find_index p xs ≡ some i
      → (x : A) × (get_elem? xs i ≡ some x) × (p x ≡ true)
  unfolding find_index
  find_index-some p [] i h = absurd (cc)
  find_index-some p (x ∷ xs) i h = elim (Bool-cases (p x)) [
    | inl hit ↦
        let e : 0 ≡ i = cc (rw hit at h) in
        (x, subst (λ t. get_elem? (x ∷ xs) t ≡ some x) e refl, hit)
    | inr miss ↦ elim (Option-cases (find_index p xs)) [
      | inl nowhere ↦ absurd (cc (rw (miss, nowhere) at h))
      | inr (j, found) ↦
          let e : suc j ≡ i = cc (rw (miss, found) at h) in
          let (y, at, hit) = find_index-some p xs j found in
          (y, subst (λ t. get_elem? (x ∷ xs) t ≡ some y) e at, hit)
    ]
  ]

  pub find_index-none : (p : A → Bool) (xs : List A) → find_index p xs ≡ none → any p xs ≡ false
  unfolding find_index any
  find_index-none p [] h = refl
  find_index-none p (x ∷ xs) h = ground (arith, find_index-none p xs)

  -- An element is among the list that is tested.
  pub any-get_elem? :
      (p : A → Bool) (xs : List A) (i : ℕ) (e : A)
      → get_elem? xs i ≡ some e
      → any p xs ≡ false
      → p e ≡ false
  unfolding any
  any-get_elem? p [] i e at h = absurd (cc)
  any-get_elem? p (x ∷ xs) zero e at h = ground arith
  any-get_elem? p (x ∷ xs) (suc i) e at h = ground (arith, any-get_elem? p xs i e at)

  -- Where any two elements with `p` clash, no other element has it.
  pub NoClash-others :
      (r : A → A → Bool) (p : A → Bool) (xs : List A) (i : ℕ) (e : A)
      → ((x y : A) → p x ≡ true → p y ≡ true → r x y ≡ true)
      → NoClash r xs
      → get_elem? xs i ≡ some e
      → p e ≡ true
      → any p (take i xs ++ drop (suc i) xs) ≡ false
  unfolding any
  NoClash-others r p [] i e clash h at hit = absurd (cc)
  NoClash-others r p (x ∷ xs) zero e clash h at hit =
      any_weaker p (r x) xs (λ y hy. clash x y (ground arith) hy) h.0
  NoClash-others r p (x ∷ xs) (suc i) e clash h at hit = ground (
    arith,
    clash x e,
    any-get_elem? (r x) xs i e at h.0,
    NoClash-others r p xs i e clash h.1 at hit,
  )

  pub retain-All : (q : A → Bool) (xs : List A) → All (λ x. q x ≡ true) xs → retain q xs ≡ xs
  unfolding retain
  retain-All q [] h = refl
  retain-All q (x ∷ xs) h = ground (arith, retain-All q xs h.1)

  -- To make one kept element fail the test is to take it out.
  pub retain-set :
      (q : A → Bool) (xs : List A) (i : ℕ) (e e' : A)
      → All (λ x. q x ≡ true) xs
      → get_elem? xs i ≡ some e
      → q e' ≡ false
      → retain q (set xs i e') ≡ take i xs ++ drop (suc i) xs
  unfolding retain
  retain-set q [] i e e' h at off = absurd (cc)
  retain-set q (x ∷ xs) zero e e' h at off = ground (arith, retain-All q xs h.1)
  retain-set q (x ∷ xs) (suc i) e e' h at off = ground (arith, retain-set q xs i e e' h.1 at off)

  -- Two hits at two places: one is among the others of the other.
  pub get_elem?-others :
      (p : A → Bool) (xs : List A) (i j : ℕ) (e : A)
      → any p (take i xs ++ drop (suc i) xs) ≡ false
      → get_elem? xs j ≡ some e
      → p e ≡ true
      → i ≡ j
  unfolding any
  get_elem?-others p [] i j e h at hit = absurd (cc)
  get_elem?-others p (x ∷ xs) zero zero e h at hit = refl
  get_elem?-others p (x ∷ xs) zero (suc j) e h at hit =
      absurd (cc (any-get_elem? p xs j e at h, hit))
  get_elem?-others p (x ∷ xs) (suc i) zero e h at hit = ground arith
  get_elem?-others p (x ∷ xs) (suc i) (suc j) e h at hit =
      ap suc (get_elem?-others p xs i j e (ground arith) at hit)

  pub find_index-append :
      (p : A → Bool) (xs : List A) (n : A)
      → any p xs ≡ false
      → p n ≡ true
      → find_index p (xs ++ n ∷ []) ≡ some (length xs)
  unfolding find_index any
  find_index-append p [] n h hit = ground arith
  find_index-append p (x ∷ xs) n h hit = ground (arith, find_index-append p xs n)

  pub find_index-no_hit : (p : A → Bool) (xs : List A) → any p xs ≡ false → find_index p xs ≡ none
  unfolding find_index any
  find_index-no_hit p [] h = refl
  find_index-no_hit p (x ∷ xs) h = ground (arith, find_index-no_hit p xs)

  pub get_elem?-set :
      (xs : List A) (i : ℕ) (e e' : A)
      → get_elem? xs i ≡ some e
      → get_elem? (set xs i e') i ≡ some e'
  get_elem?-set [] i e e' at = absurd (cc)
  get_elem?-set (x ∷ xs) zero e e' at = refl
  get_elem?-set (x ∷ xs) (suc i) e e' at = get_elem?-set xs i e e' at

  pub any-some :
      (p : A → Bool) (xs : List A)
      → any p xs ≡ true
      → (i : ℕ) × (e : A) × (get_elem? xs i ≡ some e) × (p e ≡ true)
  unfolding any get_elem?
  any-some p [] h = absurd (cc)
  any-some p (x ∷ xs) h = elim (Bool-cases (p x)) [
    | inl hit ↦ (zero, x, refl, hit)
    | inr miss ↦
        let (i, e, at, hit) = any-some p xs (ground (arith, h, miss)) in (suc i, e, at, hit)
  ]

  pub any-hit :
      (p : A → Bool) (xs : List A) (i : ℕ) (e : A)
      → get_elem? xs i ≡ some e
      → p e ≡ true
      → any p xs ≡ true
  any-hit p xs i e at hit = elim (Bool-cases (any p xs)) [
    | inl some_hit ↦ some_hit
    | inr no_hit ↦ absurd (cc (any-get_elem? p xs i e at no_hit, hit))
  ]

module _ {ℓ} {A : Type ℓ} (p : A → Bool) where
  -- An element that is as the one before it leaves the first hit where it is.
  pub find_index-set_like :
      (xs : List A) (i : ℕ) (x y : A)
      → get_elem? xs i ≡ some x
      → p y ≡ p x
      → find_index p (set xs i y) ≡ find_index p xs
  unfolding find_index
  find_index-set_like [] i x y at same = refl
  find_index-set_like (z ∷ xs) zero x y at same =
      let e : z ≡ x = cc (at) in let like : p y ≡ p z = rw e same in rw like refl
  find_index-set_like (z ∷ xs) (suc i) x y at same = rw (find_index-set_like xs i x y at same) refl

  pub find_index-append_left :
      (xs ys : List A) (i : ℕ) → find_index p xs ≡ some i → find_index p (xs ++ ys) ≡ some i
  unfolding find_index
  find_index-append_left [] ys i h = absurd (cc)
  find_index-append_left (x ∷ xs) ys i h = elim (Bool-cases (p x)) [
    | inl hit ↦ rw hit (rw hit at h)
    | inr miss ↦ elim (Option-cases (find_index p xs)) [
      | inl nowhere ↦ absurd (cc (rw (miss, nowhere) at h))
      | inr (j, found) ↦ rw (miss, find_index-append_left xs ys j found) (rw (miss, found) at h)
    ]
  ]

module _ {ℓ} {A : Type ℓ} where
  pub get_elem?-append_left :
      (xs ys : List A) (i : ℕ) (x : A) → get_elem? xs i ≡ some x → get_elem? (xs ++ ys) i ≡ some x
  get_elem?-append_left [] ys i x h = absurd (cc)
  get_elem?-append_left (y ∷ xs) ys zero x h = h
  get_elem?-append_left (y ∷ xs) ys (suc i) x h = get_elem?-append_left xs ys i x h

  pub get_elem?-append_last : (xs : List A) (x : A) → get_elem? (xs ++ x ∷ []) (length xs) ≡ some x
  get_elem?-append_last [] x = refl
  get_elem?-append_last (y ∷ xs) x = get_elem?-append_last xs x

  pub get_elem?-set_other :
      (xs : List A) (i j : ℕ) (y : A) → (j == i) ≡ false → get_elem? (set xs j y) i ≡ get_elem? xs i
  get_elem?-set_other [] i j y h = refl
  get_elem?-set_other (x ∷ xs) zero zero y h = absurd (ground (arith, h))
  get_elem?-set_other (x ∷ xs) zero (suc j) y h = refl
  get_elem?-set_other (x ∷ xs) (suc i) zero y h = refl
  get_elem?-set_other (x ∷ xs) (suc i) (suc j) y h =
      get_elem?-set_other xs i j y (ground (arith, h))

  pub All-elem {κ} :
      (P : A → Type κ) (xs : List A) (i : ℕ) (x : A) → All P xs → get_elem? xs i ≡ some x → P x
  All-elem P [] i x h at = absurd (cc)
  All-elem P (y ∷ xs) zero x h at = (let e : y ≡ x = cc (at) in subst P e h.0)
  All-elem P (y ∷ xs) (suc i) x h at = All-elem P xs i x h.1 at
