-- ===== src/ReplayWindow/Refinement.antt =====
-- src/transport/replay.rs: the bitmap and its largest counter stand for the set of counters accepted.
use bolina_rs.Prelude.{
  ℕ, ◌-◌, ◌/◌, ◌%◌, ◌≤◌, ◌<◌, ◌≡◌, refl, ◌∙◌, Bool, true, false, not, ◌&&◌, List, [], ◌∷◌, All, ltb,
  leb, if◌then◌else◌, Bool-cases, arith, inl, inr,
}
use bolina_rs.Prelude.Tests.{if-true, if-false}
use bolina_rs.Prelude.Bits.{one_shl, meets, meets-one_shl}
use bolina_rs.ReplayWindow.{ReplayWindow, new, check, check_back, shift_left, or_into, word_at}
use bolina_rs.ReplayWindow.Shift.{
  window_bit, IsWindow, empty_window-IsWindow, shift_left-IsWindow, shift_left_moves,
  or_into-IsWindow, window_bit-or_into, window_bit-empty,
}
use bolina_rs.ReplayWindow.Spec.{
  History, maximum, member, accepts, record_counter, answers, member-beyond, check_all,
  check_all-answers, accepted_once,
}

abbrev has_any : History → Bool
has_any [] = false
has_any (x ∷ h) = true

pub record Represents (r : ReplayWindow) (h : History) : Type 0 where
  window : IsWindow r.window
  initialized : r.initialized ≡ has_any h
  largest : r.largest ≡ maximum h
  bits : (k : ℕ) → k < 1024 → window_bit r.window k ≡ (leb k r.largest && member (r.largest - k) h)

pub new-Represents : Represents new []
unfolding new member maximum
new-Represents = record {
  window = empty_window-IsWindow;
  initialized = refl;
  largest = refl;
  bits = λ k h. ground (arith, window_bit-empty k);
}

-- The first counter.
first-Represents :
    (c : ℕ) (r : ReplayWindow)
    → Represents r []
    → Represents
        (record { window = or_into 0 (one_shl 0) r.window; largest = c; initialized = true })
        (c ∷ [])
unfolding maximum member
first-Represents c r v = record {
  window = or_into-IsWindow 0 r.window v.window;
  initialized = refl;
  largest = ground arith;
  bits =
      λ k h. ground (arith, window_bit-or_into 0 r.window k v.window (omega arith) h, v.bits k h);
}

forward-Represents :
    (c : ℕ) (r : ReplayWindow) (h : History)
    → Represents r h
    → r.initialized ≡ true
    → r.largest < c
    → Represents
        (record r {
          window = or_into 0 (one_shl 0) (shift_left (c - r.largest) r.window);
          largest = c;
        })
        (c ∷ h)
unfolding maximum member
forward-Represents c r h v on above = record {
  window = or_into-IsWindow 0 _ (shift_left-IsWindow (c - r.largest) r.window v.window);
  initialized = on;
  largest = ground (arith, v.largest);
  bits = λ k small.
      let moved = shift_left_moves (c - r.largest) r.window k v.window small in
      let set_bit =
        window_bit-or_into 0 (shift_left (c - r.largest) r.window) k
          (shift_left-IsWindow (c - r.largest) r.window v.window) (omega arith) small in
      set_bit ∙ (elim (Bool-cases (ltb k (c - r.largest))) [
        | inl fresh ↦
            let none : member (c - k) h ≡ false =
              member-beyond (c - k) h (ground (arith, v.largest)) in
            ground (arith, moved, fresh, none)
        | inr old ↦
            let same : r.largest - (k - (c - r.largest)) ≡ c - k = ground arith in
            let was = v.bits (k - (c - r.largest)) (omega arith) in
            ground (arith, moved, old, was, same)
      ]);
}

back-Represents :
    (c : ℕ) (r : ReplayWindow) (h : History)
    → Represents r h
    → r.initialized ≡ true
    → c ≤ r.largest
    → r.largest - c < 1024
    → Represents
        (record r {
          window = or_into ((r.largest - c) / 64) (one_shl ((r.largest - c) % 64)) r.window;
        })
        (c ∷ h)
unfolding maximum member
back-Represents c r h v on below near = record {
  window = or_into-IsWindow (r.largest - c) r.window v.window;
  initialized = on;
  largest = ground (arith, v.largest);
  bits = λ k small.
      let set_bit = window_bit-or_into (r.largest - c) r.window k v.window near small in
      ground (arith, set_bit, v.bits k small);
}

answered :
    (c : ℕ) (r r' : ReplayWindow) (h : History) (b : Bool)
    → check c r ≡ (r', b)
    → accepts 1024 h c ≡ b
    → Represents r' (if b then c ∷ h else h)
    → ((check c r).1 ≡ accepts 1024 h c) × Represents (check c r).0 (record_counter 1024 h c)
unfolding record_counter
answered c r r' h b e a v = rw (e, a) (refl, v)

-- A counter at most the largest.
check_back-answered :
    (c : ℕ) (r : ReplayWindow) (h : History)
    → Represents r h
    → r.initialized ≡ true
    → c ≤ r.largest
    → (r' : ReplayWindow) × (b : Bool) × (check_back (r.largest - c) r ≡ (r', b))
      × ((ltb (maximum h - c) 1024 && not (member c h)) ≡ b)
      × Represents r' (if b then c ∷ h else h)
unfolding check_back
check_back-answered c r h v on below = elim (Bool-cases (leb 1024 (r.largest - c))) [
  | inl far ↦ (r, false, if-true _ _ far, ground (arith, v.largest), v)
  | inr near ↦
      let d : ℕ = r.largest - c in
      let small : d < 1024 = ground arith in
      let seen : meets (word_at r.window (d / 64)) (one_shl (d % 64)) ≡ member c h =
        meets-one_shl (word_at r.window (d / 64)) (d % 64) (omega arith)
        ∙ v.bits d small
        ∙ (let back : r.largest - d ≡ c = omega arith in rw back (ground arith)) in
      elim (Bool-cases (member c h)) [
        | inl held ↦
            (r, false, if-false _ _ near ∙ if-true _ _ (seen ∙ held), ground (arith, held), v)
        | inr new ↦ (
          record r { window = or_into (d / 64) (one_shl (d % 64)) r.window },
          true,
          if-false _ _ near ∙ if-false _ _ (seen ∙ new),
          ground (arith, new, v.largest),
          back-Represents c r h v on below small,
        )
      ]
]

-- One call of `check` answers as the history says, and records it.
pub check-Represents :
    (c : ℕ) (r : ReplayWindow) (h : History)
    → Unit {0}
    → Represents r h
    → ((check c r).1 ≡ accepts 1024 h c) × Represents (check c r).0 (record_counter 1024 h c)
unfolding check accepts
check-Represents c r [] u v =
    answered c r _ [] true (if-false _ _ v.initialized) refl (first-Represents c r v)
check-Represents c r (x ∷ h) u v = elim (Bool-cases (ltb r.largest c)) [
  | inl above ↦
      let newer : ltb (maximum (x ∷ h)) c ≡ true = rw v.largest at above in
      answered c r _ (x ∷ h) true (if-true _ _ v.initialized ∙ if-true _ _ above)
        (ground (arith, newer)) (forward-Represents c r (x ∷ h) v v.initialized (ground arith))
  | inr within ↦
      let older : ltb (maximum (x ∷ h)) c ≡ false = rw v.largest at within in
      let (r', b, e, same, v') = check_back-answered c r (x ∷ h) v v.initialized (ground arith) in
      answered c r r' (x ∷ h) b (if-true _ _ v.initialized ∙ if-false _ _ within ∙ e)
        (ground (arith, older, same)) v'
]

any_counters : (cs : List ℕ) → All (λ c. Unit {0}) cs
any_counters [] = tt
any_counters (c ∷ cs) = (tt, any_counters cs)

-- From a new window, whatever counters arrive, the bitmap answers as the set of the accepted counters
-- does: the first counter and any above the largest are accepted, one less than 1024 below the largest
-- is accepted when it was not before, and all others are refused.
pub check-refines : (cs : List ℕ) → (check_all check cs new).1 ≡ answers 1024 [] cs
check-refines cs =
    check_all-answers 1024 check (λ c. Unit {0}) Represents check-Represents cs new []
      (any_counters cs) new-Represents

-- From a new window, a counter that was accepted once is refused ever after, whatever counters arrive
-- before and behind it.
pub check_once :
    (c : ℕ) (before after : List ℕ)
    → (check c (check_all check before new).0).1 ≡ true
    → (check c (check_all check after (check c (check_all check before new).0).0).0).1 ≡ false
check_once c before after h =
    accepted_once 1024 check (λ c. Unit {0}) Represents check-Represents c before after new [] tt
      (any_counters before) (any_counters after) new-Represents h
