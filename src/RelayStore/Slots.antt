-- ===== src/RelayStore/Slots.antt =====
-- src/transport/relay_store.rs: what purging, filling and releasing do to the packets in use.
use bolina_rs.Prelude.{
  ℕ, zero, suc, ◌+◌, ◌≤◌, ◌≡◌, refl, sym, ap, ◌∙◌, true, false, ◌||◌, ◌&&◌, ◌==◌, Option, none,
  some, List, [], ◌∷◌, length, set, ltb, arith, Bool-cases, inl, inr, ◌⊎◌, if◌then◌else◌,
}
use bolina_rs.Prelude.Bytes.{Bytes, bytes_eq}
use bolina_rs.Prelude.Search.{get_elem?}
use bolina_rs.RelayStore.{
  StoredPacket, is_stale, purge, is_other, usage, fill, behind, place, best_from,
}

-- The packets in use.
unfoldable pub used : List StoredPacket → ℕ
used [] = 0
used (p ∷ ps) = let n = used ps in if p.in_use then n + 1 else n

pub used-purge :
    (now : ℕ) (ps : List StoredPacket) → used (purge now ps).0 + (purge now ps).1 ≡ used ps
unfolding used purge is_stale
used-purge now [] = refl
used-purge now (p ∷ ps) = ground (arith, used-purge now ps)

pub length-purge : (now : ℕ) (ps : List StoredPacket) → length (purge now ps).0 ≡ length ps
unfolding purge
length-purge now [] = refl
length-purge now (p ∷ ps) = ground (arith, length-purge now ps)

pub usage-purge_le :
    (now : ℕ) (addr : Bytes) (ps : List StoredPacket)
    → ((usage addr (purge now ps).0).0 ≤ (usage addr ps).0)
      × ((usage addr (purge now ps).0).1 ≤ (usage addr ps).1)
unfolding usage purge is_stale is_other
usage-purge_le now addr [] = (omega arith, omega arith)
usage-purge_le now addr (p ∷ ps) =
    let (n, bytes) = usage-purge_le now addr ps in (ground (arith, n), ground (arith, bytes))

behind-none : (p : StoredPacket) (o : Option (List StoredPacket)) → behind p o ≡ none → o ≡ none
behind-none p none h = refl
behind-none p (some rs) h = absurd (cc)

behind-some :
    (p : StoredPacket) (o : Option (List StoredPacket)) (qs : List StoredPacket)
    → behind p o ≡ some qs
    → (rs : List StoredPacket) × (o ≡ some rs) × (qs ≡ p ∷ rs)
behind-some p none qs h = absurd (cc)
behind-some p (some rs) qs h = (rs, refl, cc)

module _ (addr : Bytes) (sender : ℕ) (body : Bytes) (now : ℕ) where
  filled : {x : List StoredPacket} (qs : List StoredPacket) → some x ≡ some qs → qs ≡ x
  filled qs h = cc

  place_busy :
      (p : StoredPacket) (ps : List StoredPacket)
      → p.in_use ≡ true
      → place addr sender body now (p ∷ ps) ≡ behind p (place addr sender body now ps)
  unfolding place
  place_busy p ps busy =
      ap
        (λ b.
          if b
          then behind p (place addr sender body now ps)
          else some (fill addr sender body now p ∷ ps))
        busy

  pub used-place :
      (ps qs : List StoredPacket)
      → place addr sender body now ps ≡ some qs
      → (used qs ≡ used ps + 1)
        × (length qs ≡ length ps)
        × ((a : Bytes) → (usage a qs).0 ≤ (usage a ps).0 + (if bytes_eq addr a then 1 else 0))
        × ((a : Bytes)
            → (usage a qs).1 ≤ (usage a ps).1 + (if bytes_eq addr a then length body else 0))
  unfolding used place usage fill is_other
  used-place [] qs h = absurd (cc)
  used-place (p ∷ ps) qs h = elim (Bool-cases p.in_use) [
    | inl busy ↦
        let (rs, e, same) =
          behind-some p (place addr sender body now ps) qs (sym (place_busy p ps busy) ∙ h) in
        let (n, l, u, b) = used-place ps rs e in
        rw same
          (ground (arith, n, busy), ap suc l, λ a. ground (arith, u a), λ a. ground (arith, b a))
    | inr free ↦
        let same : qs ≡ fill addr sender body now p ∷ ps = filled qs (rw free at h) in
        rw same (ground (arith, free), refl, λ a. ground (arith, free), λ a. ground (arith, free))
  ]

  pub place-set :
      (ps qs : List StoredPacket)
      → place addr sender body now ps ≡ some qs
      → (i : ℕ) × (p : StoredPacket) × (get_elem? ps i ≡ some p)
        × (p.in_use ≡ false)
        × (qs ≡ set ps i (fill addr sender body now p))
  unfolding place get_elem?
  place-set [] qs h = absurd (cc)
  place-set (p ∷ ps) qs h = elim (Bool-cases p.in_use) [
    | inl busy ↦
        let (rs, e, same) =
          behind-some p (place addr sender body now ps) qs (sym (place_busy p ps busy) ∙ h) in
        let (i, q, at, free, filled_in) = place-set ps rs e in
        (suc i, q, at, free, same ∙ ap (λ r. p ∷ r) filled_in)
    | inr free ↦ (zero, p, refl, free, filled qs (rw free at h))
  ]

  pub place-none :
      (ps : List StoredPacket) → place addr sender body now ps ≡ none → used ps ≡ length ps
  unfolding used place
  place-none [] h = refl
  place-none (p ∷ ps) h = elim (Bool-cases p.in_use) [
    | inl busy ↦
        let rest =
          place-none ps
            (behind-none p (place addr sender body now ps) (sym (place_busy p ps busy) ∙ h)) in
        ground (arith, rest, busy)
    | inr free ↦ absurd (ground (arith, free, h))
  ]

pub used-set :
    (ps : List StoredPacket) (i : ℕ) (p : StoredPacket)
    → get_elem? ps i ≡ some p
    → p.in_use ≡ true
    → (used (set ps i (record p { in_use = false })) + 1 ≡ used ps)
      × (length (set ps i (record p { in_use = false })) ≡ length ps)
      × ((a : Bytes) → (usage a (set ps i (record p { in_use = false }))).0 ≤ (usage a ps).0)
      × ((a : Bytes) → (usage a (set ps i (record p { in_use = false }))).1 ≤ (usage a ps).1)
unfolding used usage is_other get_elem?
used-set [] i p at busy = absurd (cc)
used-set (q ∷ ps) zero p at busy =
    let same : q ≡ p = cc in
    rw (same, busy) (refl, refl, λ a. ground (arith, busy), λ a. ground (arith, busy))
used-set (q ∷ ps) (suc i) p at busy =
    let (n, l, u, b) = used-set ps i p at busy in
    (ground (arith, n), ap suc l, λ a. ground (arith, u a), λ a. ground (arith, b a))

some_inj : {x y : ℕ} → some x ≡ some y → x ≡ y
some_inj h = cc

first_of : {i t idx time : ℕ} → ◌≡◌ {A = Option (ℕ × ℕ)} (some (i, t)) (some (idx, time)) → i ≡ idx
first_of h = cc

abbrev pub Picked : Bytes → ℕ → List StoredPacket → ℕ → Type 0
Picked addr i ps idx =
    (j : ℕ) × (p : StoredPacket) × (idx ≡ i + j)
    × (get_elem? ps j ≡ some p)
    × (is_other addr p ≡ false)

Picked-later :
    (addr : Bytes) (i idx : ℕ) (p : StoredPacket) (ps : List StoredPacket)
    → Picked addr (i + 1) ps idx
    → Picked addr i (p ∷ ps) idx
unfolding get_elem?
Picked-later addr i idx p ps (j, q, e, at, mine) = (suc j, q, omega (arith, e), at, mine)

-- What the loop of `drain_next` picks is the best that it began with, or a packet in use that is for
-- the recipient.
pub best_from-Picked :
    (addr : Bytes) (ps : List StoredPacket) (i idx : ℕ) (best : Option (ℕ × ℕ))
    → best_from addr i best ps ≡ some idx
    → ((time : ℕ) × (best ≡ some (idx, time))) ⊎ Picked addr i ps idx
unfolding best_from get_elem?
best_from-Picked addr [] i idx none h = absurd (cc)
best_from-Picked addr [] i idx (some (b, time)) h =
    inl (time, ap (λ x. some (x, time)) (some_inj h))
best_from-Picked addr (p ∷ ps) i idx none h = elim (Bool-cases (is_other addr p)) [
  | inl other ↦ elim (best_from-Picked addr ps (i + 1) idx none (rw (best_from, other) at h)) [
    | inl (time, e) ↦ absurd (cc)
    | inr found ↦ inr (Picked-later addr i idx p ps found)
  ]
  | inr mine ↦
      elim (best_from-Picked addr ps (i + 1) idx (some (i, p.stored_at_ms))
        (rw (best_from, mine) at h)) [
          | inl (time, e) ↦ inr (0, p, omega (arith, first_of e), refl, mine)
          | inr found ↦ inr (Picked-later addr i idx p ps found)
        ]
]
best_from-Picked addr (p ∷ ps) i idx (some (b, time)) h =
    elim (Bool-cases
      (is_other addr p || (ltb time p.stored_at_ms || (p.stored_at_ms == time && ltb b i)))) [
        | inl keep ↦
            elim (best_from-Picked addr ps (i + 1) idx (some (b, time))
              (rw (best_from, keep) at h)) [
                | inl same ↦ inl same
                | inr found ↦ inr (Picked-later addr i idx p ps found)
              ]
        | inr change ↦
            elim (best_from-Picked addr ps (i + 1) idx (some (i, p.stored_at_ms))
              (rw (best_from, change) at h)) [
                | inl (time', e) ↦ inr (0, p, omega (arith, first_of e), refl, ground arith)
                | inr found ↦ inr (Picked-later addr i idx p ps found)
              ]
      ]
