-- ===== src/Resolver/Sets.antt =====
-- src/transport/resolver.rs: what the calls keep of a set of resources, and how it is written out.
use bolina_rs.Prelude.{
  ℕ, zero, suc, ◌+◌, ◌≤◌, ◌<◌, ◌≡◌, refl, ap, true, false, not, ◌||◌, Option, none, some, List, [],
  ◌∷◌, ◌++◌, length, length-append, drop, ltb, ◌==◌, arith, Result, ok, err, Bool-cases, inl, inr,
  All,
}
use bolina_rs.Prelude.Lists.{length-drop, All-append}
use bolina_rs.Prelude.Tests.{if_known, not-false}
use bolina_rs.Prelude.Bytes.{Bytes, bytes_eq, to_be_bytes, length-to_be_bytes}
use bolina_rs.Prelude.Search.{any, find_index-some, get_elem?, NoClash, NoClash-push}
use bolina_rs.Resolver.Grammar.{id_max, validate_canonical}
use bolina_rs.Resolver.{
  Resolver, Alias, ResolveError, buffer_too_small, new, max_resources, max_aliases, add, add_alias,
  add_alias_at, find_entry, aliases_of, aliases_len, len_from, serialized_len, alias_bytes,
  bytes_from, serialize,
}

-- What every call keeps.
pub record IsValid (r : Resolver) : Type 0 where
  pub room : length r.entries ≤ max_resources
  pub unique : NoClash bytes_eq r.entries
  pub canonical : All (λ e. validate_canonical e ≡ true) r.entries
  pub room_aliases : length r.aliases ≤ max_aliases
  pub aliased : All (λ (a : Alias). a.entry < length r.entries) r.aliases

All-weaken :
    (m n : ℕ) (xs : List Alias)
    → m ≤ n
    → All (λ (a : Alias). a.entry < m) xs
    → All (λ (a : Alias). a.entry < n) xs
All-weaken m n [] h p = tt
All-weaken m n (a ∷ xs) h p = (omega (arith, h, p.0), All-weaken m n xs h p.1)

pushed-IsValid :
    (c : Bytes) (r : Resolver)
    → IsValid r
    → validate_canonical c ≡ true
    → (length r.entries == max_resources) ≡ false
    → any (λ e. bytes_eq e c) r.entries ≡ false
    → IsValid (record r { entries = r.entries ++ c ∷ [] })
pushed-IsValid c r v good room new =
    let size = length-append r.entries (c ∷ []) in
    record {
      room = ground (arith, v.room, room, size);
      unique = NoClash-push bytes_eq r.entries c v.unique new;
      canonical =
          All-append (λ e. validate_canonical e ≡ true) r.entries (c ∷ []) v.canonical (good, tt);
      room_aliases = v.room_aliases;
      aliased =
          All-weaken (length r.entries) (length (r.entries ++ c ∷ [])) r.aliases
            (omega (arith, size)) v.aliased;
    }

abbrev Returned : Type 0
Returned = Resolver × Result (Unit {0}) ResolveError

add-IsValid : (c : Bytes) (r : Resolver) → IsValid r → IsValid (add c r).0
unfolding add
add-IsValid c r v =
    if_known (λ (x : Returned). IsValid x.0) (not (validate_canonical c)) _ _ (λ _. v)
      (λ good.
        if_known (λ (x : Returned). IsValid x.0) (ltb id_max (length c)) _ _ (λ _. v)
          (λ _.
            if_known (λ (x : Returned). IsValid x.0) (length r.entries == max_resources) _ _
              (λ _. v)
              (λ room.
                if_known (λ (x : Returned). IsValid x.0) (any (λ e. bytes_eq e c) r.entries) _ _
                  (λ _. v) (pushed-IsValid c r v (not-false _ good) room))))

get_elem?-lt : {A : Type 0} (xs : List A) (i : ℕ) (x : A) → get_elem? xs i ≡ some x → i < length xs
get_elem?-lt [] i x h = absurd (cc (h))
get_elem?-lt (y ∷ xs) zero x h = omega arith
get_elem?-lt (y ∷ xs) (suc i) x h = omega (arith, get_elem?-lt xs i x h)

add_alias_at-IsValid :
    (o : Option ℕ) (c alias : Bytes) (r : Resolver)
    → find_entry c r ≡ o
    → IsValid r
    → IsValid (add_alias_at o alias r).0
unfolding add_alias_at find_entry
add_alias_at-IsValid none c alias r at v = v
add_alias_at-IsValid (some idx) c alias r at v =
    if_known (λ (x : Returned). IsValid x.0) (length r.aliases == max_aliases) _ _ (λ _. v)
      (λ room.
        let a : Alias = record { bytes = alias; entry = idx } in
        let (e, found, _) = find_index-some (λ e. bytes_eq e c) r.entries idx at in
        record {
          room = v.room;
          unique = v.unique;
          canonical = v.canonical;
          room_aliases = ground (arith, v.room_aliases, room, length-append r.aliases (a ∷ []));
          aliased =
              All-append (λ (a : Alias). a.entry < length r.entries) r.aliases (a ∷ []) v.aliased
                (get_elem?-lt r.entries idx e found, tt);
        })

add_alias-IsValid : (c alias : Bytes) (r : Resolver) → IsValid r → IsValid (add_alias c alias r).0
unfolding add_alias
add_alias-IsValid c alias r v =
    if_known (λ (x : Returned). IsValid x.0) (length alias == 0 || ltb id_max (length alias)) _ _
      (λ _. v) (λ _. add_alias_at-IsValid (find_entry c r) c alias r refl v)

pub data Calls (s : Resolver) : Resolver → Type 0 where
  none_yet : Calls s s
  adds : (c : Bytes) {r : Resolver} → Calls s r → Calls s (add c r).0
  aliases : (c alias : Bytes) {r : Resolver} → Calls s r → Calls s (add_alias c alias r).0

Calls-IsValid : {s r : Resolver} → IsValid s → Calls s r → IsValid r
Calls-IsValid v none_yet = v
Calls-IsValid v (adds c {r} calls) = add-IsValid c r (Calls-IsValid v calls)
Calls-IsValid v (aliases c alias {r} calls) = add_alias-IsValid c alias r (Calls-IsValid v calls)

-- Whatever calls of `add` and `add_alias` a new set of resources gets, it has at most 32 entries and
-- 64 aliases, no entry twice, only entries that the grammar accepts, and each alias names an entry.
pub Sets_new-IsValid :
    (hash : Bytes → Bytes) (key : Bytes) (r : Resolver) → Calls (new hash key) r → IsValid r
unfolding new
Sets_new-IsValid hash key r calls =
    Calls-IsValid
      (record {
        room = omega arith;
        unique = tt;
        canonical = tt;
        room_aliases = omega arith;
        aliased = tt;
      })
      calls

length-alias_bytes : (xs : List Alias) → length (alias_bytes xs) ≡ aliases_len xs
unfolding alias_bytes aliases_len
length-alias_bytes [] = refl
length-alias_bytes (a ∷ xs) = omega (
  arith,
  length-append (to_be_bytes 2 (length a.bytes)) (a.bytes ++ alias_bytes xs),
  length-to_be_bytes 2 (length a.bytes),
  length-append a.bytes (alias_bytes xs),
  length-alias_bytes xs,
)

length-bytes_from :
    (r : Resolver) (i : ℕ) (es : List Bytes) → length (bytes_from r i es) ≡ len_from r i es
unfolding bytes_from len_from
length-bytes_from r i [] = refl
length-bytes_from r i (e ∷ es) =
    let mine = aliases_of i r.aliases in
    omega (
      arith,
      length-append (to_be_bytes 2 (length e))
          (e ++ (to_be_bytes 2 (length mine) ++ (alias_bytes mine ++ bytes_from r (i + 1) es))),
      length-to_be_bytes 2 (length e),
      length-append e
          (to_be_bytes 2 (length mine) ++ (alias_bytes mine ++ bytes_from r (i + 1) es)),
      length-append (to_be_bytes 2 (length mine)) (alias_bytes mine ++ bytes_from r (i + 1) es),
      length-to_be_bytes 2 (length mine),
      length-append (alias_bytes mine) (bytes_from r (i + 1) es),
      length-alias_bytes mine,
      length-bytes_from r (i + 1) es,
    )

-- A buffer that is large enough, and no other, is written: within its bounds, which stay, and the
-- count that is returned is `serialized_len`.
pub serialize_bounds :
    (out : Bytes) (r : Resolver)
    → (serialized_len r ≤ length out → (serialize out r).1 ≡ ok (serialized_len r))
      × (length out < serialized_len r → serialize out r ≡ (out, err buffer_too_small))
      × (length (serialize out r).0 ≡ length out)
unfolding serialize serialized_len
serialize_bounds out r =
    let size = length-bytes_from r 0 r.entries in
    let whole =
      length-append (bytes_from r 0 r.entries) (drop (length (bytes_from r 0 r.entries)) out) in
    let rest = length-drop (length (bytes_from r 0 r.entries)) out in
    elim (Bool-cases (ltb (length out) (len_from r 0 r.entries))) [
      | inl small ↦ rw small (λ enough. absurd (ground (arith, small, enough)), λ _. refl, refl)
      | inr large ↦ rw large (
        λ _. ap ok size,
        λ few. absurd (ground (arith, large, few)),
        ground (arith, size, whole, rest, large),
      )
    ]
