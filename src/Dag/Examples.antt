-- ===== src/Dag/Examples.antt =====
-- A graph of src/transport/dag.rs with three nodes.
use bolina_rs.Prelude.{ℕ, zero, ◌≡◌, ◌≢◌, ◌↔◌, true, false, List, [], ◌∷◌, arith}
use bolina_rs.Dag.{new, insert, is_ancestor_idx}
use bolina_rs.Dag.Search.{Above, IsGraph, is_ancestor_idx_exact}
use bolina_rs.Dag.Acyclic.{IsValid, none_yet, inserts, Inserts-new-IsValid}

Inserts-new-IsValid_example :
    IsValid
      (insert (3 ∷ []) (1 ∷ []) (insert (2 ∷ []) (3 ∷ []) (insert (1 ∷ []) (2 ∷ []) new).0).0).0
Inserts-new-IsValid_example =
    Inserts-new-IsValid
      (insert (3 ∷ []) (1 ∷ []) (insert (2 ∷ []) (3 ∷ []) (insert (1 ∷ []) (2 ∷ []) new).0).0).0
      (inserts (3 ∷ []) (1 ∷ []) (inserts (2 ∷ []) (3 ∷ []) (inserts (1 ∷ []) (2 ∷ []) none_yet)))

-- Node 2 has the parent 1, which has the parent 0.
abbrev chain : List (List ℕ)
chain = [] ∷ (0 ∷ []) ∷ (1 ∷ []) ∷ []

chain-IsGraph : IsGraph chain
unfolding IsGraph
chain-IsGraph = (tt, ((omega arith, tt), ((omega arith, tt), tt)))

is_ancestor_idx_exact_example :
    (zero ≢ 2 → (is_ancestor_idx 0 2 chain ≡ true) ↔ Above chain 0 2)
    × (is_ancestor_idx 2 2 chain ≡ false)
is_ancestor_idx_exact_example = is_ancestor_idx_exact chain 0 2 chain-IsGraph (omega arith)
