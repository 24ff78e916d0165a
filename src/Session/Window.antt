-- ===== src/Session/Window.antt =====
-- src/transport/session.rs: the mask of the replay window stands for the set of counters accepted,
-- as long as no counter is 0.
use bolina_rs.Prelude.{
  ℕ, ◌-◌, ◌<◌, ◌≡◌, refl, ap, ◌∙◌, Bool, true, false, not, ◌&&◌, List, [], ◌∷◌, All, ltb, leb, ◌==◌,
  if◌then◌else◌, Bool-cases, arith, inl, inr,
}
use bolina_rs.Prelude.Tests.{if-true, if-false}
use bolina_rs.Prelude.Bits.{
  Word, bit, one_shl, meets, shl, bit_or, zero_word, meets-one_shl, bit-one_shl, bit-shl,
  bit-bit_or, bit-zero_word,
}
use bolina_rs.ReplayWindow.Spec.{
  History, maximum, member, accepts, record_counter, answers, member-beyond, check_all,
  check_all-answers, accepted_once,
}
use bolina_rs.Session.{ReplayWindow, new_window, check, check_behind}

-- A counter that the window can tell from none.
abbrev pub IsPositive : ℕ → Type 0
IsPositive c = 0 < c

record Represents (w : ReplayWindow) (h : History) : Type 0 where
  highest : w.highest ≡ maximum h
  positive : All IsPositive h
  -- while nothing is accepted the mask is never read
  bits :
      (k : ℕ)
      → 0 < w.highest
      → k < 64
      → bit w.mask k ≡ (leb k w.highest && member (w.highest - k) h)

new-Represents : Represents new_window []
unfolding new_window maximum
new-Represents = record {
  highest = refl;
  positive = tt;
  bits = λ k pos small. absurd (omega arith);
}

maximum-positive : (x : ℕ) (h : History) → All IsPositive (x ∷ h) → 0 < maximum (x ∷ h)
unfolding maximum
maximum-positive x h p = ground (arith, p.0)

answered :
    (c : ℕ) (w w' : ReplayWindow) (h : History) (b : Bool)
    → check c w ≡ (w', b)
    → accepts 64 h c ≡ b
    → Represents w' (if b then c ∷ h else h)
    → ((check c w).1 ≡ accepts 64 h c) × Represents (check c w).0 (record_counter 64 h c)
unfolding record_counter
answered c w w' h b e a v = rw (e, a) (refl, v)

first-Represents : (c : ℕ) → 0 < c → Represents (record { highest = c; mask = one_shl 0 }) (c ∷ [])
unfolding maximum member
first-Represents c pos = record {
  highest = ground arith;
  positive = (pos, tt);
  bits = λ k _ small. ground (arith, bit-one_shl 0 k small);
}

bit-moved_mask :
    (s : ℕ) (v : Word) (k : ℕ)
    → k < 64
    → bit (if leb 64 s then zero_word else shl s v) k ≡ (if ltb k s then false else bit v (k - s))
bit-moved_mask s v k h = elim (Bool-cases (leb 64 s)) [
  | inl far ↦ (let below : ltb k s ≡ true = ground arith in rw (far, below) (bit-zero_word k))
  | inr near ↦ rw near (bit-shl s v k h)
]

forward-Represents :
    (c : ℕ) (w : ReplayWindow) (h : History)
    → Represents w h
    → 0 < w.highest
    → w.highest < c
    → Represents
        (record {
          highest = c;
          mask =
              bit_or
                (if leb 64 (c - w.highest) then zero_word else shl (c - w.highest) w.mask)
                (one_shl 0);
        })
        (c ∷ h)
unfolding maximum member
forward-Represents c w h v on above = record {
  highest = ground (arith, v.highest);
  positive = (omega arith, v.positive);
  bits = λ k _ small.
      let moved = bit-moved_mask (c - w.highest) w.mask k small in
      let set_bit =
        bit-bit_or (if leb 64 (c - w.highest) then zero_word else shl (c - w.highest) w.mask)
          (one_shl 0) k in
      let one = bit-one_shl 0 k small in
      set_bit ∙ (elim (Bool-cases (ltb k (c - w.highest))) [
        | inl fresh ↦
            let none : member (c - k) h ≡ false =
              member-beyond (c - k) h (ground (arith, v.highest)) in
            ground (arith, moved, fresh, none, one)
        | inr old ↦
            let same : w.highest - (k - (c - w.highest)) ≡ c - k = ground arith in
            let was = v.bits (k - (c - w.highest)) on (omega arith) in
            ground (arith, moved, old, was, same, one)
      ]);
}

behind-Represents :
    (c : ℕ) (w : ReplayWindow) (h : History)
    → Represents w h
    → 0 < c
    → c < w.highest
    → w.highest - c < 64
    → Represents (record w { mask = bit_or w.mask (one_shl (w.highest - c)) }) (c ∷ h)
unfolding maximum member
behind-Represents c w h v pos below near = record {
  highest = ground (arith, v.highest);
  positive = (pos, v.positive);
  bits = λ k on small. ground (
    arith,
    bit-bit_or w.mask (one_shl (w.highest - c)) k,
    bit-one_shl (w.highest - c) k small,
    v.bits k on small,
  );
}

member-maximum : (x : ℕ) (h : History) → member (maximum (x ∷ h)) (x ∷ h) ≡ true
unfolding member maximum
member-maximum x [] = ground arith
member-maximum x (y ∷ h) = ground (arith, member-maximum y h)

check_behind-answered :
    (c : ℕ) (w : ReplayWindow) (h : History)
    → Represents w h
    → 0 < c
    → c < w.highest
    → (w' : ReplayWindow) × (b : Bool) × (check_behind (w.highest - c) w ≡ (w', b))
      × ((ltb (maximum h - c) 64 && not (member c h)) ≡ b)
      × Represents w' (if b then c ∷ h else h)
unfolding check_behind
check_behind-answered c w h v pos below = elim (Bool-cases (leb 64 (w.highest - c))) [
  | inl far ↦ (w, false, if-true _ _ far, ground (arith, v.highest), v)
  | inr near ↦
      let small : w.highest - c < 64 = ground arith in
      let seen : meets w.mask (one_shl (w.highest - c)) ≡ member c h =
        meets-one_shl w.mask (w.highest - c) small
        ∙ v.bits (w.highest - c) (omega arith) small
        ∙ (let back : w.highest - (w.highest - c) ≡ c = omega arith in rw back (ground arith)) in
      elim (Bool-cases (member c h)) [
        | inl held ↦
            (w, false, if-false _ _ near ∙ if-true _ _ (seen ∙ held), ground (arith, held), v)
        | inr new ↦ (
          record w { mask = bit_or w.mask (one_shl (w.highest - c)) },
          true,
          if-false _ _ near ∙ if-false _ _ (seen ∙ new),
          ground (arith, new, v.highest),
          behind-Represents c w h v pos below small,
        )
      ]
]

check-Represents :
    (c : ℕ) (w : ReplayWindow) (h : History)
    → IsPositive c
    → Represents w h
    → ((check c w).1 ≡ accepts 64 h c) × Represents (check c w).0 (record_counter 64 h c)
unfolding check accepts maximum
check-Represents c w [] pos v =
    let none_high : (w.highest == 0) ≡ true = ground (arith, v.highest) in
    answered c w _ [] true (if-true _ _ none_high) refl (first-Represents c pos)
check-Represents c w (x ∷ h) pos v =
    let some_high : 0 < w.highest = omega (arith, v.highest, maximum-positive x h v.positive) in
    let on : (w.highest == 0) ≡ false = ground arith in
    elim (Bool-cases (ltb w.highest c)) [
      | inl above ↦
          let newer : ltb (maximum (x ∷ h)) c ≡ true = rw v.highest at above in
          answered c w _ (x ∷ h) true (if-false _ _ on ∙ if-true _ _ above) (ground (arith, newer))
            (forward-Represents c w (x ∷ h) v some_high (ground arith))
      | inr within ↦
          let older : ltb (maximum (x ∷ h)) c ≡ false = rw v.highest at within in
          elim (Bool-cases (c == w.highest)) [
            | inl top ↦
                let held : member c (x ∷ h) ≡ true =
                  (let e : c ≡ maximum (x ∷ h) = ground (arith, v.highest) in
                    ap (λ n. member n (x ∷ h)) e ∙ member-maximum x h) in
                answered c w w (x ∷ h) false
                  (if-false _ _ on ∙ if-false _ _ within ∙ if-true _ _ top)
                  (ground (arith, older, held)) v
            | inr under ↦
                let (w', b, e, same, v') = check_behind-answered c w (x ∷ h) v pos (ground arith) in
                answered c w w' (x ∷ h) b
                  (if-false _ _ on ∙ if-false _ _ within ∙ if-false _ _ under ∙ e)
                  (ground (arith, older, same)) v'
          ]
    ]

-- From a new window, whatever positive counters arrive, the mask answers as the set of the accepted
-- counters does: the first counter and any above the highest are accepted, one less than 64 below the
-- highest is accepted when it was not before, and all others are refused.
pub window-refines :
    (cs : List ℕ) → All IsPositive cs → (check_all check cs new_window).1 ≡ answers 64 [] cs
window-refines cs h =
    check_all-answers 64 check IsPositive Represents check-Represents cs new_window [] h
      new-Represents

-- From a new window, a positive counter that was accepted once is refused ever after, whatever
-- positive counters arrive before and behind it.
pub positive_once :
    (c : ℕ) (before after : List ℕ)
    → IsPositive c
    → All IsPositive before
    → All IsPositive after
    → (check c (check_all check before new_window).0).1 ≡ true
    → (check c (check_all check after (check c (check_all check before new_window).0).0).0).1
      ≡ false
positive_once c before after pos vb va h =
    accepted_once 64 check IsPositive Represents check-Represents c before after new_window [] pos
      vb va new-Represents h

-- A window whose highest counter is 0 takes any counter, and forgets what it had.
check-blank :
    (c : ℕ) (w : ReplayWindow)
    → w.highest ≡ 0
    → check c w ≡ (record { highest = c; mask = one_shl 0 }, true)
unfolding check
check-blank c w none = (let blank : (w.highest == 0) ≡ true = ground arith in if-true _ _ blank)

-- Behind a first counter below 64 the bit of the counter 0 is free.
check-zero_behind :
    (n : ℕ)
    → 0 < n
    → n < 64
    → check 0 (record { highest = n; mask = one_shl 0 })
      ≡ (record { highest = n; mask = bit_or (one_shl 0) (one_shl n) }, true)
unfolding check check_behind
check-zero_behind n pos small =
    let on : (n == 0) ≡ false = ground arith in
    let within : ltb n 0 ≡ false = ground arith in
    let under : (0 == n) ≡ false = ground arith in
    let near : leb 64 n ≡ false = ground arith in
    let free : meets (one_shl 0) (one_shl n) ≡ false =
      meets-one_shl (one_shl 0) n small ∙ (let b = bit-one_shl 0 n small in ground (arith, b)) in
    let all_of : n - 0 ≡ n = omega arith in
    if-false _ _ on
    ∙ if-false _ _ within
    ∙ if-false _ _ under
    ∙ ap (λ k. check_behind k (record { highest = n; mask = one_shl 0 })) all_of
    ∙ if-false _ _ near
    ∙ if-false _ _ free

-- The counter 0 is accepted again and again by a window whose highest counter is 0, and once more
-- behind any counter below 64 that comes next.
pub zero_again :
    (w : ReplayWindow) (n : ℕ)
    → w.highest ≡ 0
    → 0 < n
    → n < 64
    → ((check 0 w).1 ≡ true)
      × ((check 0 (check 0 w).0).1 ≡ true)
      × ((check 0 (check n (check 0 (check 0 w).0).0).0).1 ≡ true)
zero_again w n none pos small =
    rw
      (
        check-blank 0 w none,
        check-blank 0 (record { highest = 0; mask = one_shl 0 }) refl,
        check-blank n (record { highest = 0; mask = one_shl 0 }) refl,
        check-zero_behind n pos small,
      )
      (refl, refl, refl)
