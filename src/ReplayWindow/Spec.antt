-- ===== src/ReplayWindow/Spec.antt =====
-- What a window against replays promises: of the counters that lie less than `width` below the largest
-- one accepted, and of those above it, each is accepted once; all others are refused.
use bolina_rs.Prelude.{
  ℕ, ◌-◌, ◌≤◌, ◌<◌, ◌≡◌, refl, sym, ◌∙◌, Bool, true, false, not, ◌&&◌, ◌||◌, List, [], ◌∷◌, All,
  ltb, ◌==◌, if◌then◌else◌, Bool-cases, arith,
}

-- The counters accepted so far, the newest first.
abbrev pub History : Type 0
History = List ℕ

unfoldable pub maximum : History → ℕ
maximum [] = 0
maximum (x ∷ h) = let m = maximum h in if ltb m x then x else m

unfoldable pub member : ℕ → History → Bool
member c [] = false
member c (x ∷ h) = x == c || member c h

unfoldable pub accepts : ℕ → History → ℕ → Bool
unfolding maximum member
accepts width [] c = true
accepts width (x ∷ h) c =
    ltb (maximum (x ∷ h)) c || (ltb (maximum (x ∷ h) - c) width && not (member c (x ∷ h)))

unfoldable pub record_counter : ℕ → History → ℕ → History
unfolding accepts
record_counter width h c = if accepts width h c then c ∷ h else h

-- The answers to a list of counters, the first one first.
unfoldable pub answers : ℕ → History → List ℕ → List Bool
unfolding record_counter
answers width h [] = []
answers width h (c ∷ cs) = accepts width h c ∷ answers width (record_counter width h c) cs

pub member-maximum_le : (c : ℕ) (h : History) → member c h ≡ true → c ≤ maximum h
unfolding member maximum
member-maximum_le c [] e = absurd (cc)
member-maximum_le c (x ∷ h) e = ground (arith, member-maximum_le c h)

pub member-beyond : (c : ℕ) (h : History) → maximum h < c → member c h ≡ false
member-beyond c h e = ground (arith, member-maximum_le c h, Bool-cases (member c h))

pub member-accepts : (width c : ℕ) (h : History) → member c h ≡ true → accepts width h c ≡ false
unfolding accepts
member-accepts width c [] e = absurd (ground (arith, e))
member-accepts width c (x ∷ h) e = ground (arith, e, member-maximum_le c (x ∷ h) e)

pub member-record_counter :
    (width c d : ℕ) (h : History) → member c h ≡ true → member c (record_counter width h d) ≡ true
unfolding record_counter member
member-record_counter width c d h e = ground (arith, e)

pub accepts-first : (width c : ℕ) → accepts width [] c ≡ true
unfolding accepts
accepts-first width c = refl

pub accepts-member :
    (width c : ℕ) (h : History)
    → accepts width h c ≡ true
    → member c (record_counter width h c) ≡ true
unfolding record_counter member
accepts-member width c h e = ground (arith, e)

-- The state and the answers behind a list of counters.
abbrev pub check_all {ℓ} : {R : Type ℓ} → (ℕ → R → R × Bool) → List ℕ → R → R × List Bool
check_all check [] r = (r, [])
check_all check (c ∷ cs) r =
    ((check_all check cs (check c r).0).0, (check c r).1 ∷ (check_all check cs (check c r).0).1)

-- A filter of counters, with the histories that its states stand for. Only counters of `V` are asked.
module _ {ℓ} {R : Type ℓ} (width : ℕ) (check : ℕ → R → R × Bool) (V : ℕ → Type 0)
    (Represents : R → History → Type 0)
    (step : (c : ℕ) (r : R) (h : History)
      → V c
      → Represents r h
      → ((check c r).1 ≡ accepts width h c)
        × Represents (check c r).0 (record_counter width h c)) where
  pub check_all-answers :
      (cs : List ℕ) (r : R) (h : History)
      → All V cs
      → Represents r h
      → (check_all check cs r).1 ≡ answers width h cs
  unfolding answers
  check_all-answers [] r h v rep = refl
  check_all-answers (c ∷ cs) r h v rep =
      let (now, rep') = step c r h v.0 rep in
      rw (now, check_all-answers cs (check c r).0 (record_counter width h c) v.1 rep') refl

  -- What the history has stays there.
  pub check_all-keeps :
      (c : ℕ) (cs : List ℕ) (r : R) (h : History)
      → All V cs
      → Represents r h
      → member c h ≡ true
      → (h' : History) × Represents (check_all check cs r).0 h' × (member c h' ≡ true)
  check_all-keeps c [] r h v rep e = (h, rep, e)
  check_all-keeps c (d ∷ cs) r h v rep e =
      check_all-keeps c cs (check d r).0 (record_counter width h d) v.1 (step d r h v.0 rep).1
        (member-record_counter width c d h e)

  pub check_all-Represents :
      (cs : List ℕ) (r : R) (h : History)
      → All V cs
      → Represents r h
      → (h' : History) × Represents (check_all check cs r).0 h'
  check_all-Represents [] r h v rep = (h, rep)
  check_all-Represents (d ∷ cs) r h v rep =
      check_all-Represents cs (check d r).0 (record_counter width h d) v.1 (step d r h v.0 rep).1

  -- A counter that was accepted is refused ever after.
  pub accepted_once :
      (c : ℕ) (before after : List ℕ) (r : R) (h : History)
      → V c
      → All V before
      → All V after
      → Represents r h
      → (check c (check_all check before r).0).1 ≡ true
      → (check c (check_all check after (check c (check_all check before r).0).0).0).1 ≡ false
  accepted_once c before after r h v vb va rep yes_c =
      let (h1, rep1) = check_all-Represents before r h vb rep in
      let (now, rep2) = step c (check_all check before r).0 h1 v rep1 in
      let held = accepts-member width c h1 (sym now ∙ yes_c) in
      let (h3, rep3, held3) =
        check_all-keeps c after (check c (check_all check before r).0).0 (record_counter width h1 c)
          va rep2 held in
      (step c (check_all check after (check c (check_all check before r).0).0).0 h3 v rep3).0
      ∙ member-accepts width c h3 held3
