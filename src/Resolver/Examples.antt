-- ===== src/Resolver/Examples.antt =====
-- A small set of resources of src/transport/resolver.rs.
use bolina_rs.Prelude.{◌≤◌, ◌<◌, ◌≡◌, ◌≢◌, refl, some, [], ◌∷◌, ◌++◌, length, take, ok, err}
use bolina_rs.Prelude.Outcome.{refuse_if, ok_or}
use bolina_rs.Prelude.Bytes.{Bytes, bytes_eq}
use bolina_rs.Prelude.Search.{any}
use bolina_rs.Intent as Pending
use bolina_rs.Resolver.{
  Resolver, buffer_too_small, new, add, add_alias, alias_hits, names, on_hit, resolve_loop,
  canonical_of, resolve, serialized_len, serialize, after_admit, admit_resolved, resolve_and_admit,
}
use bolina_rs.Resolver.Lookup.{resolve_and_admit_locks}
use bolina_rs.Resolver.Sets.{IsValid, none_yet, adds, aliases, Sets_new-IsValid, serialize_bounds}

abbrev fingerprint : Bytes
fingerprint = 48 ∷ 49 ∷ 50 ∷ 51 ∷ 52 ∷ 53 ∷ 54 ∷ 55 ∷ 56 ∷ 57 ∷ 97 ∷ 98 ∷ 99 ∷ 100 ∷ 101 ∷ 102 ∷ []

-- "bol:0123456789abcdef/a/b"
abbrev canonical : Bytes
canonical = 98 ∷ 111 ∷ 108 ∷ 58 ∷ (fingerprint ++ (47 ∷ 97 ∷ 47 ∷ 98 ∷ []))

-- Two entries, and an alias of the first.
abbrev two : Resolver
two = record {
  own_fp = fingerprint;
  entries = canonical ∷ (canonical ++ 99 ∷ []) ∷ [];
  aliases = record { bytes = 1 ∷ []; entry = 0 } ∷ [];
}

resolve_itself : resolve canonical two ≡ ok canonical
unfolding resolve resolve_loop names on_hit alias_hits canonical_of any bytes_eq refuse_if ok_or
resolve_itself = refl

resolve_alias : resolve (1 ∷ []) two ≡ ok canonical
unfolding resolve resolve_loop names on_hit alias_hits canonical_of any bytes_eq refuse_if ok_or
resolve_alias = refl

abbrev locked : Pending.Table
locked = (resolve_and_admit (5 ∷ []) canonical 0 two Pending.new).0

locks : resolve_and_admit (5 ∷ []) canonical 0 two Pending.new ≡ (locked, ok tt)
unfolding resolve_and_admit admit_resolved after_admit resolve resolve_loop names on_hit alias_hits
    canonical_of any bytes_eq refuse_if ok_or Pending.admit
locks = refl

resolve_and_admit_locks_example :
    (Pending.match_for_grant (5 ∷ []) locked ≡ some 0)
    × ((resolve_and_admit (6 ∷ []) (1 ∷ []) 9 two locked).1 ≢ ok tt)
resolve_and_admit_locks_example =
    resolve_and_admit_locks (5 ∷ []) canonical (1 ∷ []) canonical 0 two Pending.new locked (6 ∷ [])
      9 resolve_itself resolve_alias locks

abbrev prefix : Bytes → Bytes
prefix bytes = take 32 bytes

Sets_new-IsValid_example :
    IsValid (add_alias canonical (1 ∷ []) (add canonical (new prefix fingerprint)).0).0
Sets_new-IsValid_example =
    Sets_new-IsValid prefix fingerprint
      (add_alias canonical (1 ∷ []) (add canonical (new prefix fingerprint)).0).0
      (aliases canonical (1 ∷ []) (adds canonical none_yet))

serialize-two :
    (serialized_len two ≤ 2 → (serialize (0 ∷ 0 ∷ []) two).1 ≡ ok (serialized_len two))
    × (2 < serialized_len two → serialize (0 ∷ 0 ∷ []) two ≡ (0 ∷ 0 ∷ [], err buffer_too_small))
    × (length (serialize (0 ∷ 0 ∷ []) two).0 ≡ 2)
serialize-two = serialize_bounds (0 ∷ 0 ∷ []) two
