-- ===== src/Dag/Search.antt =====
-- src/transport/dag.rs: the search comes to its end, and finds an ancestor exactly where there is one.
use bolina_rs.Prelude.{
  ℕ, zero, suc, ◌+◌, ◌<◌, ◌≡◌, ◌≢◌, ◌⊎◌, ◌↔◌, refl, sym, ap, ◌∙◌, Bool, true, false, ◌||◌, none,
  some, List, [], ◌∷◌, ◌++◌, length, length-append, get_or, set, ◌==◌, if◌then◌else◌, arith,
  Bool-cases, Option-cases, inl, inr, All,
}
use bolina_rs.Prelude.Lists.{length-set_same, get_or-set_same, get_or-set_other, All-get_or}
use bolina_rs.Prelude.Tests.{==_iff}
use bolina_rs.Prelude.Bits.{repeat, length-repeat}
use bolina_rs.Prelude.Search.{any, any-append}
use bolina_rs.Dag.{parents_of, has, scan, search, is_ancestor_idx}

-- `p` is an ancestor of `c`: a parent, or an ancestor of a parent.
pub data Above (ps : List (List ℕ)) (p : ℕ) : ℕ → Type 0 where
  parent : {c : ℕ} → has p (parents_of ps c) ≡ true → Above ps p c
  further : {c : ℕ} (m : ℕ) → has m (parents_of ps c) ≡ true → Above ps p m → Above ps p c

-- The nodes that are not visited.
abbrev unset : List Bool → ℕ
unset [] = 0
unset (b ∷ bs) = (if b then 0 else 1) + unset bs

unset-set :
    (v : List Bool) (p : ℕ)
    → p < length v
    → get_or v p false ≡ false
    → unset v ≡ suc (unset (set v p true))
unset-set [] p h e = absurd (omega (arith, h))
unset-set (true ∷ v) zero h e = absurd (cc (e))
unset-set (false ∷ v) zero h e = omega arith
unset-set (b ∷ v) (suc p) h e = omega (arith, unset-set v p (omega (arith, h)) e)

IsVisited : List Bool → ℕ → Type 0
IsVisited v i = get_or v i false ≡ true

-- What the scan of parents did.
record Scanned (a : ℕ) (ps : List ℕ) (v : List Bool) (q : List ℕ) (v' : List Bool) (q' : List ℕ)
    : Type 0 where
  size : length v' ≡ length v
  measure : length q' + unset v' ≡ length q + unset v
  kept : (i : ℕ) → get_or v i false ≡ true → get_or v' i false ≡ true
  queued : (i : ℕ) → has i q ≡ true → has i q' ≡ true
  fresh : (i : ℕ) → get_or v' i false ≡ true → (get_or v i false ≡ true) ⊎ (has i q' ≡ true)
  all : (p : ℕ) → has p ps ≡ true → ((p == a) ≡ false) × (get_or v' p false ≡ true)

pub same_index : (p i : ℕ) → (p == i) ≡ true → p ≡ i
same_index p i h = (==_iff p i).0 h

pub other_index : (p i : ℕ) → (p == i) ≡ false → p ≢ i
other_index p i h e = ground (arith, h, e)

pub has-push : (i p : ℕ) (q : List ℕ) → has i (q ++ p ∷ []) ≡ (has i q || (p == i))
unfolding has any
has-push i p q = any-append (λ x. x == i) q (p ∷ []) ∙ ground arith

has-cons : (i p : ℕ) (q : List ℕ) → has i (p ∷ q) ≡ (p == i || has i q)
unfolding has any
has-cons i p q = refl

scan-Scanned :
    (a : ℕ) (ps : List ℕ) (v : List Bool) (q : List ℕ) (v' : List Bool) (q' : List ℕ)
    → All (λ p. p < length v) ps
    → scan a ps v q ≡ some (v', q')
    → Scanned a ps v q v' q'
unfolding scan has any
scan-Scanned a [] v q v' q' h e =
    let ev : v ≡ v' = cc (e) in
    let eq : q ≡ q' = cc (e) in
    rw (sym ev, sym eq)
      (record {
        size = refl;
        measure = refl;
        kept = λ i x. x;
        queued = λ i x. x;
        fresh = λ i x. inl x;
        all = λ p x. absurd (cc (x));
      })
scan-Scanned a (p ∷ ps) v q v' q' h e = elim (Bool-cases (p == a)) [
  | inl hit ↦ absurd (cc (rw hit at e))
  | inr other ↦ elim (Bool-cases (get_or v p false)) [
    | inl seen ↦
        let s = scan-Scanned a ps v q v' q' h.1 (rw (other, seen) at e) in
        record {
          size = s.size;
          measure = s.measure;
          kept = s.kept;
          queued = s.queued;
          fresh = s.fresh;
          all = λ i x. elim (Bool-cases (p == i)) [
            | inl same ↦ (let e = same_index p i same in rw (sym e) (other, s.kept p seen))
            | inr ne ↦ s.all i (rw (has-cons i p ps, ne) at x)
          ];
        }
    | inr new ↦
        let v1 : List Bool = set v p true in
        let size1 : length v1 ≡ length v = length-set_same v p true in
        let s = scan-Scanned a ps v1 (q ++ p ∷ []) v' q' (rw size1 h.1) (rw (other, new) at e) in
        let marked : get_or v1 p false ≡ true = get_or-set_same v p true false h.0 in
        record {
          size = s.size ∙ size1;
          measure = omega (arith, s.measure, length-append q (p ∷ []), unset-set v p h.0 new);
          kept = λ i x. elim (Bool-cases (p == i)) [
            | inl same ↦ (let e = same_index p i same in rw (sym e) (s.kept p marked))
            | inr ne ↦ s.kept i (get_or-set_other v p i true false (other_index p i ne) ∙ x)
          ];
          queued = λ i x. s.queued i (rw (has-push i p q, x) refl);
          fresh = λ i x. elim (s.fresh i x) [
            | inr queued ↦ inr queued
            | inl before ↦ elim (Bool-cases (p == i)) [
              | inl same ↦ inr (s.queued i (has-push i p q ∙ ground (arith, same)))
              | inr ne ↦ inl (sym (get_or-set_other v p i true false (other_index p i ne)) ∙ before)
            ]
          ];
          all = λ i x. elim (Bool-cases (p == i)) [
            | inl same ↦ (let e = same_index p i same in rw (sym e) (other, s.kept p marked))
            | inr ne ↦ s.all i (rw (has-cons i p ps, ne) at x)
          ];
        }
  ]
]

-- Every parent is a node.
unfoldable pub IsGraph : List (List ℕ) → Type 0
IsGraph ps = All (λ l. All (λ p. p < length ps) l) ps

module _ (ps : List (List ℕ)) (a : ℕ) where
  -- A visited node waits in the queue, or its parents are visited and none is the ancestor.
  IsClosed : List ℕ → List Bool → Type 0
  IsClosed q v =
      (i : ℕ)
      → get_or v i false ≡ true
      → (has i q ≡ true)
        ⊎ ((p : ℕ)
            → has p (parents_of ps i) ≡ true
            → ((p == a) ≡ false) × (get_or v p false ≡ true))

  closed_none : (v : List Bool) → IsClosed [] v → (i : ℕ) → get_or v i false ≡ true → ¬ Above ps a i
  unfolding IsClosed has any
  closed_none v closed i vis (parent h) = elim (closed i vis) [
    | inl queued ↦ cc (queued)
    | inr all ↦ (let (other, _) = all a h in ground (arith, other))
  ]
  closed_none v closed i vis (further m h above) = elim (closed i vis) [
    | inl queued ↦ cc (queued)
    | inr all ↦ (let (_, seen) = all m h in closed_none v closed m seen above)
  ]

  Scanned-IsClosed :
      (cur : ℕ) (q : List ℕ) (v : List Bool) (v' : List Bool) (q' : List ℕ)
      → IsClosed (cur ∷ q) v
      → Scanned a (parents_of ps cur) v q v' q'
      → IsClosed q' v'
  unfolding IsClosed
  Scanned-IsClosed cur q v v' q' closed s i vis = elim (s.fresh i vis) [
    | inr queued ↦ inl queued
    | inl before ↦ elim (closed i before) [
      | inr all ↦ inr (λ p h. let (other, seen) = all p h in (other, s.kept p seen))
      | inl queued ↦ elim (Bool-cases (cur == i)) [
        | inl same ↦ (let e = same_index cur i same in inr (λ p h. s.all p (rw e h)))
        | inr ne ↦ inl (s.queued i (sym (has-cons i cur q ∙ rw ne refl) ∙ queued))
      ]
    ]
  ]

  search_complete :
      (fuel : ℕ) (q : List ℕ) (v : List Bool)
      → IsGraph ps
      → length v ≡ length ps
      → IsClosed q v
      → length q + unset v < fuel
      → search fuel ps a q v ≡ false
      → (i : ℕ) → get_or v i false ≡ true
      → ¬ Above ps a i
  unfolding search IsGraph
  search_complete zero q v graph size closed enough h i vis above = absurd (omega (arith, enough))
  search_complete (suc fuel) [] v graph size closed enough h i vis above =
      closed_none v closed i vis above
  search_complete (suc fuel) (cur ∷ q) v graph size closed enough h i vis above =
      elim (Option-cases (scan a (parents_of ps cur) v q)) [
        | inl hit ↦ cc (rw (search, hit) at h)
        | inr ((v', q'), e) ↦
            let within : All (λ p. p < length v) (parents_of ps cur) =
              rw size (All-get_or (λ l. All (λ p. p < length ps) l) ps cur [] graph tt) in
            let s = scan-Scanned a (parents_of ps cur) v q v' q' within e in
            search_complete fuel q' v' graph (s.size ∙ size)
              (Scanned-IsClosed cur q v v' q' closed s) (omega (arith, s.measure, enough))
              (rw (search, e) at h) i (s.kept i vis) above
      ]

unset-repeat : (n : ℕ) → unset (repeat n false) ≡ n
unfolding repeat
unset-repeat zero = refl
unset-repeat (suc n) = omega (arith, unset-repeat n)

get_or-repeat : (n i : ℕ) → get_or (repeat n false) i false ≡ false
unfolding repeat
get_or-repeat zero i = refl
get_or-repeat (suc n) zero = refl
get_or-repeat (suc n) (suc i) = get_or-repeat n i

-- Where the search for another node answers no there is no way up to it.
pub is_ancestor_idx_complete :
    (ps : List (List ℕ)) (a d : ℕ)
    → IsGraph ps
    → d < length ps
    → a ≢ d
    → is_ancestor_idx a d ps ≡ false
    → ¬ Above ps a d
unfolding is_ancestor_idx IsClosed has any
is_ancestor_idx_complete ps a d graph known differ h above =
    let other : (a == d) ≡ false = ground (arith, differ) in
    let v0 : List Bool = repeat (length ps) false in
    let v : List Bool = set v0 d true in
    let size0 : length v0 ≡ length ps = length-repeat (length ps) false in
    let inside : d < length v0 = omega (arith, size0, known) in
    let marked : get_or v d false ≡ true = get_or-set_same v0 d true false inside in
    let closed : IsClosed ps a (d ∷ []) v = λ i vis. elim (Bool-cases (d == i)) [
      | inl same ↦ inl (rw same refl)
      | inr ne ↦
          let e =
            get_or-set_other v0 d i true false (other_index d i ne) ∙ get_or-repeat (length ps) i in
          absurd (cc (vis, e))
    ] in
    search_complete ps a (length ps + 1) (d ∷ []) v graph (length-set_same v0 d true ∙ size0) closed
      (omega (arith, unset-set v0 d inside (get_or-repeat (length ps) d), unset-repeat (length ps)))
      (rw other at h) d marked above

-- Where the scan stops, the ancestor is one of the parents; else what it queues are parents.
scan_hit :
    (a : ℕ) (ps : List ℕ) (v : List Bool) (q : List ℕ) → scan a ps v q ≡ none → has a ps ≡ true
unfolding scan has any
scan_hit a [] v q h = absurd (cc (h))
scan_hit a (p ∷ ps) v q h = elim (Bool-cases (p == a)) [
  | inl hit ↦ has-cons a p ps ∙ rw hit refl
  | inr miss ↦ has-cons a p ps ∙ rw miss (scan_hit a ps _ _ (rw (scan, miss) at h))
]

scan_queued :
    (a : ℕ) (ps : List ℕ) (v : List Bool) (q : List ℕ) (r : List Bool × List ℕ) (i : ℕ)
    → scan a ps v q ≡ some r
    → has i r.1 ≡ true
    → (has i q ≡ true) ⊎ (has i ps ≡ true)
unfolding scan has any
scan_queued a [] v q r i h queued =
    let e : (v, q) ≡ r = cc (h) in inl (ap (λ (r : List Bool × List ℕ). has i r.1) e ∙ queued)
scan_queued a (p ∷ ps) v q r i h queued = elim (Bool-cases (p == a)) [
  | inl hit ↦ absurd (cc (rw (scan, hit) at h))
  | inr miss ↦ elim (scan_queued a ps _ _ r i (rw (scan, miss) at h) queued) [
    | inr later ↦ inr (has-cons i p ps ∙ ground (arith, later))
    | inl before ↦ elim (Bool-cases (get_or v p false)) [
      | inl seen ↦ inl (rw seen at before)
      | inr new ↦ elim (Bool-cases (p == i)) [
        | inl same ↦ inr (has-cons i p ps ∙ ground (arith, same))
        | inr ne ↦ inl (ground (arith, sym (has-push i p q) ∙ (rw new at before), ne))
      ]
    ]
  ]
]

Above-under :
    {ps : List (List ℕ)} (x c : ℕ) {d : ℕ}
    → Above ps c d
    → has x (parents_of ps c) ≡ true
    → Above ps x d
Above-under x c (parent h) up = further c h (parent up)
Above-under x c (further m h above) up = further m h (Above-under x c above up)

only_one : (d i : ℕ) → has i (d ∷ []) ≡ true → i ≡ d
unfolding has any
only_one d i h = ground (arith, h)

module _ (ps : List (List ℕ)) (a d : ℕ) where
  -- What waits in the queue is where the search began or above it.
  IsAbove : List ℕ → Type 0
  IsAbove q = (i : ℕ) → has i q ≡ true → (i ≡ d) ⊎ Above ps i d

  up_from : (c x : ℕ) → (c ≡ d) ⊎ Above ps c d → has x (parents_of ps c) ≡ true → Above ps x d
  up_from c x (inl at_d) h = parent (ap (λ i. has x (parents_of ps i)) (sym at_d) ∙ h)
  up_from c x (inr above) h = Above-under x c above h

  search_sound :
      (fuel : ℕ) (q : List ℕ) (v : List Bool)
      → IsAbove q
      → search fuel ps a q v ≡ true
      → Above ps a d
  unfolding search IsAbove
  search_sound zero q v waits h = absurd (cc (h))
  search_sound (suc fuel) [] v waits h = absurd (cc (h))
  search_sound (suc fuel) (cur ∷ q) v waits h =
      let from_cur = waits cur (has-cons cur cur q ∙ ground arith) in
      elim (Option-cases (scan a (parents_of ps cur) v q)) [
        | inl hit ↦ up_from cur a from_cur (scan_hit a (parents_of ps cur) v q hit)
        | inr (r, e) ↦
            search_sound fuel r.1 r.0
              (λ i queued. elim (scan_queued a (parents_of ps cur) v q r i e queued) [
                | inl before ↦ waits i (has-cons i cur q ∙ ground (arith, before))
                | inr its_parent ↦ inr (up_from cur i from_cur its_parent)
              ])
              (rw (search, e) at h)
      ]

-- The search for another node answers yes exactly where there is a way up to it over parents, within
-- the fuel of one turn more than there are nodes; from a node to itself it answers no.
pub is_ancestor_idx_exact :
    (ps : List (List ℕ)) (a d : ℕ)
    → IsGraph ps
    → d < length ps
    → (a ≢ d → (is_ancestor_idx a d ps ≡ true) ↔ Above ps a d) × (is_ancestor_idx d d ps ≡ false)
unfolding is_ancestor_idx IsAbove
is_ancestor_idx_exact ps a d graph known = (
  λ differ. (
    λ yes_up.
        let other : (a == d) ≡ false = ground (arith, differ) in
        search_sound ps a d (length ps + 1) (d ∷ []) (set (repeat (length ps) false) d true)
          (λ i queued. inl (only_one d i queued)) (rw other at yes_up),
    λ above. elim (Bool-cases (is_ancestor_idx a d ps)) [
      | inl yes_up ↦ yes_up
      | inr no_up ↦ absurd (is_ancestor_idx_complete ps a d graph known differ no_up above)
    ],
  ),
  (let same : (d == d) ≡ true = ground arith in rw same refl),
)
