-- ===== src/Dag.antt =====
-- src/transport/dag.rs: the causal graph over the hashes of envelopes. An array with its count is the
-- list of what is counted. The bitmap `visited` and the queue are used only within a search, behind
-- which the bitmap is cleared; they are arguments of the search.
pub mod Search
pub mod Acyclic
pub mod Examples
use bolina_rs.Prelude.{
  ℕ, zero, suc, ◌+◌, Bool, true, false, not, ◌&&◌, ◌||◌, Option, none, some, List, [], ◌∷◌, ◌++◌,
  length, get_or, set, leb, ◌==◌, if◌then◌else◌, Result, ok, err,
}
use bolina_rs.Prelude.Bits.{repeat}
use bolina_rs.Prelude.Bytes.{Bytes, bytes_eq}
use bolina_rs.Prelude.Search.{find_index, any}

abbrev pub node_bytes : ℕ
node_bytes = 32

abbrev pub max_nodes : ℕ
max_nodes = 128

abbrev pub max_parents : ℕ
max_parents = 8

pub data DagError : Type 0 where
  overflow cyclic not_node : DagError

pub record Dag : Type 0 where
  pub nodes : List Bytes
  pub parents : List (List ℕ)

abbrev pub new : Dag
new = record { nodes = []; parents = [] }

unfoldable pub index_of : Bytes → Dag → Option ℕ
unfolding find_index
index_of hash d = find_index (λ n. bytes_eq n hash) d.nodes

abbrev is_some : Option ℕ → Bool
is_some none = false
is_some (some i) = true

pub contains : Bytes → Dag → Bool
unfolding index_of
contains hash d = is_some (index_of hash d)

-- `self.parents[i][..parent_count[i]]`
abbrev pub parents_of : List (List ℕ) → ℕ → List ℕ
parents_of ps i = get_or ps i []

unfoldable pub has : ℕ → List ℕ → Bool
unfolding any
has p ps = any (λ q. q == p) ps

-- The inner loop of the search, over the parents of a node: `none` if one of them is the ancestor,
-- else the bitmap and the queue.
unfoldable pub scan : ℕ → List ℕ → List Bool → List ℕ → Option (List Bool × List ℕ)
scan a [] visited queue = some (visited, queue)
scan a (p ∷ ps) visited queue =
    let seen = get_or visited p false in
    let rest =
      scan a ps (if seen then visited else set visited p true)
        (if seen then queue else queue ++ p ∷ []) in
    if p == a then none else rest

-- The outer loop, at most as many times as the fuel.
unfoldable pub search : ℕ → List (List ℕ) → ℕ → List ℕ → List Bool → Bool
unfolding scan
search zero ps a queue visited = false
search (suc fuel) ps a [] visited = false
search (suc fuel) ps a (cur ∷ queue) visited = elim (scan a (parents_of ps cur) visited queue) [
  | none ↦ true
  | some next ↦ search fuel ps a next.1 next.0
]

unfoldable pub is_ancestor_idx : ℕ → ℕ → List (List ℕ) → Bool
unfolding search scan repeat
is_ancestor_idx a d ps =
    if a == d
    then false
    else search (length ps + 1) ps a (d ∷ []) (set (repeat (length ps) false) d true)

unfoldable intern_at : Option ℕ → Bytes → Dag → Dag × Result ℕ DagError
intern_at (some i) hash d = (d, ok i)
intern_at none hash d = if leb max_nodes (length d.nodes) then (d, err overflow) else (
  record { nodes = d.nodes ++ hash ∷ []; parents = d.parents ++ [] ∷ [] },
  ok (length d.nodes),
)

unfoldable pub intern : Bytes → Dag → Dag × Result ℕ DagError
unfolding intern_at index_of
intern hash d = intern_at (index_of hash d) hash d

-- The edge from the child at `c` to the parent at `p`.
unfoldable pub add_edge : ℕ → ℕ → Dag → Dag × Result (Unit {0}) DagError
unfolding is_ancestor_idx has
add_edge p c d =
    if is_ancestor_idx c p d.parents
    then (d, err cyclic)
    else if has p (parents_of d.parents c)
    then (d, ok tt)
    else if leb max_parents (length (parents_of d.parents c))
    then (d, err overflow)
    else (record d { parents = set d.parents c (parents_of d.parents c ++ p ∷ []) }, ok tt)

unfoldable insert_child : ℕ → Dag × Result ℕ DagError → Dag × Result (Unit {0}) DagError
unfolding add_edge
insert_child p (d, err e) = (d, err e)
insert_child p (d, ok c) = add_edge p c d

unfoldable insert_parent : Bytes → Dag × Result ℕ DagError → Dag × Result (Unit {0}) DagError
unfolding insert_child intern
insert_parent child (d, err e) = (d, err e)
insert_parent child (d, ok p) = insert_child p (intern child d)

pub insert : Bytes → Bytes → Dag → Dag × Result (Unit {0}) DagError
unfolding insert_parent intern
insert parent child d =
    if bytes_eq parent child then (d, err cyclic) else insert_parent child (intern parent d)

abbrev ancestor_at : Option ℕ → Option ℕ → Dag → Bool
ancestor_at none d' g = false
ancestor_at (some a) none g = false
ancestor_at (some a) (some d) g = is_ancestor_idx a d g.parents

pub is_ancestor : Bytes → Bytes → Dag → Bool
unfolding index_of
is_ancestor ancestor descendant d = ancestor_at (index_of ancestor d) (index_of descendant d) d

pub supersedes : Bytes → Bytes → Bytes → Dag → Bool
unfolding is_ancestor
supersedes origin effect claim d = is_ancestor origin effect d && is_ancestor effect claim d

pub node_from_slice : Bytes → Result Bytes DagError
node_from_slice s = if not (length s == node_bytes) then err not_node else ok s
