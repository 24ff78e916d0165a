-- ===== src/Prelude/Maps.antt =====
-- Rust's `HashMap` and `HashSet` with byte strings for keys, as lists of entries. The order of the
-- entries stands for the unspecified order of iteration.
use Prim.Native.Nat.{◌+◌, ◌≤◌}
use mathlib.Core.Path.{◌≡◌, refl}
use mathlib.Core.Bool.{Bool, true, false}
use mathlib.Core.Option.{Option, none, some}
use mathlib.Core.List.{List, [], ◌∷◌}
use native.Mathlib.Omega.{arith}
use bolina_rs.Prelude.Tests.{if◌then◌else◌}
use bolina_rs.Prelude.Lists.{length}
use bolina_rs.Prelude.Bytes.{Bytes, bytes_eq, bytes_eq_iff}

abbrev pub Map : Type 0 → Type 0
Map V = List (Bytes × V)

module _ {V : Type 0} where
  -- `m.get(k)`
  unfoldable pub lookup : Bytes → Map V → Option V
  lookup k [] = none
  lookup k ((j, v) ∷ m) = let later = lookup k m in if bytes_eq j k then some v else later

  -- `m.insert(k, v)`
  unfoldable pub insert : Bytes → V → Map V → Map V
  insert k v [] = (k, v) ∷ []
  insert k v ((j, w) ∷ m) =
      let later = insert k v m in if bytes_eq j k then (k, v) ∷ m else (j, w) ∷ later

  -- `m.remove(k)`
  unfoldable pub remove : Bytes → Map V → Map V
  remove k [] = []
  remove k ((j, w) ∷ m) = let later = remove k m in if bytes_eq j k then later else (j, w) ∷ later

abbrev is_some : {V : Type 0} → Option V → Bool
is_some none = false
is_some (some v) = true

-- `m.contains_key(k)`
unfoldable pub contains_key : {V : Type 0} → Bytes → Map V → Bool
unfolding lookup
contains_key k m = is_some (lookup k m)

-- `s.contains(k)`, and `s.insert(k)` for a set.
unfoldable pub contains : Bytes → List Bytes → Bool
contains k [] = false
contains k (j ∷ s) = let later = contains k s in if bytes_eq j k then true else later

unfoldable pub insert_key : Bytes → List Bytes → List Bytes
unfolding contains
insert_key k s = if contains k s then s else k ∷ s

module _ {V : Type 0} where
  pub lookup-insert :
      (k j : Bytes) (v : V) (m : Map V)
      → lookup j (insert k v m) ≡ (if bytes_eq k j then some v else lookup j m)
  unfolding lookup insert
  lookup-insert k j v [] = refl
  lookup-insert k j v ((i, w) ∷ m) =
      ground (arith, bytes_eq_iff k j, bytes_eq_iff i k, bytes_eq_iff i j, lookup-insert k j v m)

  pub lookup-remove :
      (k j : Bytes) (m : Map V)
      → lookup j (remove k m) ≡ (if bytes_eq k j then none else lookup j m)
  unfolding lookup remove
  lookup-remove k j [] = ground arith
  lookup-remove k j ((i, w) ∷ m) =
      ground (arith, bytes_eq_iff k j, bytes_eq_iff i k, bytes_eq_iff i j, lookup-remove k j m)

  pub length-remove_le : (k : Bytes) (m : Map V) → length (remove k m) ≤ length m
  unfolding remove
  length-remove_le k [] = omega arith
  length-remove_le k ((i, w) ∷ m) = ground (arith, length-remove_le k m)

  pub length-insert_le : (k : Bytes) (v : V) (m : Map V) → length (insert k v m) ≤ length m + 1
  unfolding insert
  length-insert_le k v [] = omega arith
  length-insert_le k v ((i, w) ∷ m) = ground (arith, length-insert_le k v m)

pub contains-insert_key :
    (k j : Bytes) (s : List Bytes)
    → contains j (insert_key k s) ≡ (if bytes_eq k j then true else contains j s)
unfolding contains insert_key
contains-insert_key k j s = ground (arith, bytes_eq_iff k j)

pub ruleset map_laws = (lookup-insert, lookup-remove, contains-insert_key)
