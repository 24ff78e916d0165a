-- ===== src/Dag/Acyclic.antt =====
-- src/transport/dag.rs: whatever edges are inserted, no node is its own ancestor.
use bolina_rs.Prelude.{
  ℕ, zero, suc, ◌≤◌, ◌<◌, ◌≡◌, ◌≢◌, ◌⊎◌, refl, sym, ap, ◌∙◌, true, false, some, List, [], ◌∷◌, ◌++◌,
  length, length-append, get_or, set, leb, ◌==◌, arith, Result, ok, err, Bool-cases, Option-cases,
  inl, inr, All,
}
use bolina_rs.Prelude.Lists.{
  length-set_same, get_or-set_same, get_or-set_other, All-get_or, All-set_any, All-append,
}
use bolina_rs.Prelude.Tests.{if_known}
use bolina_rs.Prelude.Bytes.{Bytes, bytes_eq, bytes_eq_iff, bytes_eq_refl}
use bolina_rs.Prelude.Search.{
  any, get_elem?, find_index, find_index-some, get_elem?-append_left, get_elem?-append_last,
}
use bolina_rs.Dag.{
  Dag, DagError, max_nodes, max_parents, new, parents_of, has, index_of, is_ancestor_idx, intern_at,
  intern, add_edge, insert_child, insert_parent, insert,
}
use bolina_rs.Dag.Search.{
  Above, parent, further, IsGraph, is_ancestor_idx_complete, other_index, same_index, has-push,
}

pub IsAcyclic : List (List ℕ) → Type 0
IsAcyclic ps = (i : ℕ) → ¬ Above ps i i

Above-trans : {ps : List (List ℕ)} {x y z : ℕ} → Above ps x y → Above ps y z → Above ps x z
Above-trans xy (parent h) = further _ h xy
Above-trans xy (further m h ym) = further m h (Above-trans xy ym)

-- One edge more, from `c` to its parent `p`.
module _ (ps : List (List ℕ)) (p c : ℕ) (known : c < length ps) where
  abbrev more : List (List ℕ)
  more = set ps c (parents_of ps c ++ p ∷ [])

  edge_split :
      (x y : ℕ)
      → has x (parents_of more y) ≡ true
      → (has x (parents_of ps y) ≡ true) ⊎ ((x ≡ p) × (y ≡ c))
  edge_split x y h = elim (Bool-cases (c == y)) [
    | inr ne ↦
        let same = get_or-set_other ps c y (parents_of ps c ++ p ∷ []) [] (other_index c y ne) in
        inl (sym (ap (has x) same) ∙ h)
    | inl eq ↦
        let e : c ≡ y = same_index c y eq in
        let at_c : parents_of more y ≡ parents_of ps c ++ p ∷ [] =
          ap (parents_of more) (sym e)
          ∙ get_or-set_same ps c (parents_of ps c ++ p ∷ []) [] known in
        let either = sym (ap (has x) at_c ∙ has-push x p (parents_of ps c)) ∙ h in
        elim (Bool-cases (p == x)) [
          | inl new_one ↦ inr (sym (same_index p x new_one), sym e)
          | inr old ↦ inl (ap (λ i. has x (parents_of ps i)) (sym e) ∙ ground (arith, either, old))
        ]
  ]

  Above-split :
      (x y : ℕ)
      → Above more x y
      → Above ps x y ⊎ (((x ≡ p) ⊎ Above ps x p) × ((y ≡ c) ⊎ Above ps c y))
  Above-split x y (parent h) = elim (edge_split x y h) [
    | inl old ↦ inl (parent old)
    | inr (at_p, at_c) ↦ inr (inl at_p, inl at_c)
  ]
  Above-split x y (further m h above) = elim (Above-split x m above) [
    | inl xm ↦ elim (edge_split m y h) [
      | inl old ↦ inl (further m old xm)
      | inr (at_p, at_c) ↦ inr (inr (rw (sym at_p) xm), inl at_c)
    ]
    | inr (xp, cm) ↦ elim (edge_split m y h) [
      | inl old ↦ inr (
        xp,
        inr (elim cm [
          | inl at_c ↦ rw (sym at_c) (parent old)
          | inr above_c ↦ further m old above_c
        ]),
      )
      | inr (at_p, at_c) ↦ inr (xp, inl at_c)
    ]
  ]

  more-IsAcyclic : IsAcyclic ps → p ≢ c → ¬ Above ps c p → IsAcyclic more
  unfolding IsAcyclic
  more-IsAcyclic acyclic differ none_up i cycle = elim (Above-split i i cycle) [
    | inl old ↦ acyclic i old
    | inr (inl at_p, inl at_c) ↦ differ (sym at_p ∙ at_c)
    | inr (inl at_p, inr ci) ↦ none_up (rw (sym at_p) ci)
    | inr (inr ip, inl at_c) ↦ none_up (rw (sym at_c) ip)
    | inr (inr ip, inr ci) ↦ none_up (Above-trans ci ip)
  ]

get_or-push : (ps : List (List ℕ)) (i : ℕ) → get_or (ps ++ [] ∷ []) i [] ≡ get_or ps i []
get_or-push [] zero = refl
get_or-push [] (suc i) = refl
get_or-push (l ∷ ps) zero = refl
get_or-push (l ∷ ps) (suc i) = get_or-push ps i

Above-push : (ps : List (List ℕ)) (x y : ℕ) → Above (ps ++ [] ∷ []) x y → Above ps x y
Above-push ps x y (parent h) = parent (sym (ap (has x) (get_or-push ps y)) ∙ h)
Above-push ps x y (further m h above) =
    further m (sym (ap (has m) (get_or-push ps y)) ∙ h) (Above-push ps x m above)

-- What every call keeps.
pub record IsValid (d : Dag) : Type 0 where
  pub room : length d.nodes ≤ max_nodes
  pub size : length d.parents ≡ length d.nodes
  pub graph : IsGraph d.parents
  pub few_parents : All (λ l. length l ≤ max_parents) d.parents
  pub acyclic : IsAcyclic d.parents

All-below : (m n : ℕ) (l : List ℕ) → m ≤ n → All (λ p. p < m) l → All (λ p. p < n) l
All-below m n [] h a = tt
All-below m n (p ∷ l) h a = (omega (arith, h, a.0), All-below m n l h a.1)

All-below_all :
    (m n : ℕ) (ps : List (List ℕ))
    → m ≤ n
    → All (λ l. All (λ p. p < m) l) ps
    → All (λ l. All (λ p. p < n) l) ps
All-below_all m n [] h a = tt
All-below_all m n (l ∷ ps) h a = (All-below m n l h a.0, All-below_all m n ps h a.1)

-- The node at an index.
IsNamed : Dag → ℕ → Bytes → Type 0
IsNamed d i hash = (n : Bytes) × (get_elem? d.nodes i ≡ some n) × (bytes_eq n hash ≡ true)

record IsInterned (hash : Bytes) (d d' : Dag) (i : ℕ) : Type 0 where
  valid : IsValid d'
  named : IsNamed d' i hash
  kept : (j : ℕ) (other : Bytes) → IsNamed d j other → IsNamed d' j other

intern-IsValid : (hash : Bytes) (d : Dag) → IsValid d → IsValid (intern hash d).0
unfolding intern intern_at IsGraph IsAcyclic
intern-IsValid hash d v = elim (Option-cases (index_of hash d)) [
  | inr (i, found) ↦ rw found v
  | inl new_hash ↦ rw new_hash (
      if_known (λ (x : Dag × Result ℕ DagError). IsValid x.0) (leb max_nodes (length d.nodes)) _ _
        (λ _. v)
        (λ room.
          let nodes = length-append d.nodes (hash ∷ []) in
          let parents = length-append d.parents ([] ∷ []) in
          record {
            room = ground (arith, room, nodes);
            size = omega (arith, nodes, parents, v.size);
            graph =
                All-append _ d.parents ([] ∷ [])
                  (All-below_all (length d.parents) (length (d.parents ++ [] ∷ [])) d.parents
                    (omega (arith, parents)) v.graph)
                  (tt, tt);
            few_parents =
                All-append (λ l. length l ≤ max_parents) d.parents ([] ∷ []) v.few_parents
                  (omega arith, tt);
            acyclic = λ i cycle. v.acyclic i (Above-push d.parents i i cycle);
          }))
]

ap-IsValid : {A : Type 0} (x : Dag × A) (d' : Dag) (r : A) → x ≡ (d', r) → IsValid x.0 → IsValid d'
ap-IsValid x d' r h v = rw (sym (ap (λ y. y.0) h)) v

intern-IsInterned :
    (hash : Bytes) (d d' : Dag) (i : ℕ)
    → IsValid d
    → intern hash d ≡ (d', ok i)
    → IsInterned hash d d' i
unfolding intern intern_at index_of IsNamed
intern-IsInterned hash d d' i v h =
    let valid : IsValid d' = ap-IsValid (intern hash d) d' (ok i) h (intern-IsValid hash d v) in
    elim (Option-cases (find_index (λ n. bytes_eq n hash) d.nodes)) [
      | inr (j, found) ↦
          let e = rw found at h in
          let same : d ≡ d' = cc (e) in
          let index : j ≡ i = cc (e) in
          let (n, at, hit) = find_index-some (λ n. bytes_eq n hash) d.nodes j found in
          record {
            valid = valid;
            named = rw (sym same, sym index) (n, at, hit);
            kept = λ k other named. rw (sym same) named;
          }
      | inl new_hash ↦ elim (Bool-cases (leb max_nodes (length d.nodes))) [
        | inl full ↦ absurd (cc (rw (new_hash, full) at h))
        | inr room ↦
            let e = rw (new_hash, room) at h in
            let nodes : d.nodes ++ hash ∷ [] ≡ d'.nodes =
              ap (λ (x : Dag × Result ℕ DagError). x.0.nodes) e in
            let index : length d.nodes ≡ i = cc (e) in
            record {
              valid = valid;
              named =
                  rw (sym nodes, sym index)
                    (hash, get_elem?-append_last d.nodes hash, bytes_eq_refl hash);
              kept = λ k other (n, at, hit).
                  rw (sym nodes) (n, get_elem?-append_left d.nodes (hash ∷ []) k n at, hit);
            }
      ]
    ]

get_elem?-lt : (xs : List Bytes) (i : ℕ) (x : Bytes) → get_elem? xs i ≡ some x → i < length xs
get_elem?-lt [] i x h = absurd (cc (h))
get_elem?-lt (y ∷ xs) zero x h = omega arith
get_elem?-lt (y ∷ xs) (suc i) x h = omega (arith, get_elem?-lt xs i x h)

IsNamed-lt : (d : Dag) (i : ℕ) (hash : Bytes) → IsNamed d i hash → i < length d.nodes
unfolding IsNamed
IsNamed-lt d i hash (n, at, hit) = get_elem?-lt d.nodes i n at

named_apart :
    (d : Dag) (i j : ℕ) (x y : Bytes) → IsNamed d i x → IsNamed d j y → bytes_eq x y ≡ false → i ≢ j
unfolding IsNamed
named_apart d i j x y (n, at, hit) (m, at', hit') differ e =
    let same : n ≡ m = cc (at, at', e) in
    let nx : n ≡ x = (bytes_eq_iff n x).0 hit in
    let my : m ≡ y = (bytes_eq_iff m y).0 hit' in
    let xy : x ≡ y = sym nx ∙ same ∙ my in cc (differ, (bytes_eq_iff x y).1 xy)

abbrev Returned : Type 0
Returned = Dag × Result (Unit {0}) DagError

add_edge-IsValid :
    (p c : ℕ) (d : Dag)
    → IsValid d
    → p < length d.nodes
    → c < length d.nodes
    → p ≢ c
    → IsValid (add_edge p c d).0
unfolding add_edge IsGraph
add_edge-IsValid p c d v kp kc differ =
    let old = parents_of d.parents c in
    let known_p : p < length d.parents = omega (arith, kp, v.size) in
    let known_c : c < length d.parents = omega (arith, kc, v.size) in
    if_known (λ (x : Returned). IsValid x.0) (is_ancestor_idx c p d.parents) _ _ (λ _. v)
      (λ none_up.
        if_known (λ (x : Returned). IsValid x.0) (has p old) _ _ (λ _. v)
          (λ _.
            if_known (λ (x : Returned). IsValid x.0) (leb max_parents (length old)) _ _ (λ _. v)
              (λ few.
                let l : List ℕ = old ++ p ∷ [] in
                let count = length-set_same d.parents c l in
                let not_above =
                  is_ancestor_idx_complete d.parents c p v.graph known_p (λ e. differ (sym e))
                    none_up in
                record {
                  room = v.room;
                  size = count ∙ v.size;
                  graph = rw count (
                      All-set_any (λ l. All (λ p. p < length d.parents) l) d.parents c l v.graph
                        (All-append (λ p. p < length d.parents) old (p ∷ [])
                          (All-get_or (λ l. All (λ p. p < length d.parents) l) d.parents c []
                            v.graph tt)
                          (known_p, tt)));
                  few_parents =
                      All-set_any (λ l. length l ≤ max_parents) d.parents c l v.few_parents
                        (ground (arith, few, length-append old (p ∷ [])));
                  acyclic = more-IsAcyclic d.parents p c known_c v.acyclic differ not_above;
                })))

insert_child-IsValid :
    (up child : Bytes) (p : ℕ) (d : Dag) (x : Dag × Result ℕ DagError)
    → IsValid d
    → IsNamed d p up
    → bytes_eq up child ≡ false
    → intern child d ≡ x
    → IsValid (insert_child p x).0
unfolding insert_child
insert_child-IsValid up child p d (d', err e) v named differ h =
    ap-IsValid (intern child d) d' (err e) h (intern-IsValid child d v)
insert_child-IsValid up child p d (d', ok c) v named differ h =
    let c_in = intern-IsInterned child d d' c v h in
    let p_in = c_in.kept p up named in
    add_edge-IsValid p c d' c_in.valid (IsNamed-lt d' p up p_in) (IsNamed-lt d' c child c_in.named)
      (named_apart d' p c up child p_in c_in.named differ)

insert_parent-IsValid :
    (up child : Bytes) (d : Dag)
    → IsValid d
    → bytes_eq up child ≡ false
    → (x : Dag × Result ℕ DagError) → intern up d ≡ x
    → IsValid (insert_parent child x).0
unfolding insert_parent
insert_parent-IsValid up child d v differ (d', err e) h =
    ap-IsValid (intern up d) d' (err e) h (intern-IsValid up d v)
insert_parent-IsValid up child d v differ (d', ok p) h =
    let p_in = intern-IsInterned up d d' p v h in
    insert_child-IsValid up child p d' (intern child d') p_in.valid p_in.named differ refl

insert-IsValid : (up child : Bytes) (d : Dag) → IsValid d → IsValid (insert up child d).0
unfolding insert
insert-IsValid up child d v =
    if_known (λ (x : Returned). IsValid x.0) (bytes_eq up child) _ _ (λ _. v)
      (λ differ. insert_parent-IsValid up child d v differ (intern up d) refl)

pub data Inserts (s : Dag) : Dag → Type 0 where
  none_yet : Inserts s s
  inserts : (up child : Bytes) {d : Dag} → Inserts s d → Inserts s (insert up child d).0

Inserts-IsValid : {s d : Dag} → IsValid s → Inserts s d → IsValid d
Inserts-IsValid v none_yet = v
Inserts-IsValid v (inserts up child {d} calls) = insert-IsValid up child d (Inserts-IsValid v calls)

empty-IsAcyclic : IsAcyclic []
unfolding IsAcyclic has any
empty-IsAcyclic i (parent h) = cc (h)
empty-IsAcyclic i (further m h above) = cc (h)

-- Whatever edges are inserted into an empty graph, in whatever order and with whatever errors: no node
-- is its own ancestor, each parent is a node, and there are at most 128 nodes with 8 parents each.
pub Inserts-new-IsValid : (d : Dag) → Inserts new d → IsValid d
unfolding IsGraph
Inserts-new-IsValid d calls =
    Inserts-IsValid
      (record {
        room = omega arith;
        size = refl;
        graph = tt;
        few_parents = tt;
        acyclic = empty-IsAcyclic;
      })
      calls
