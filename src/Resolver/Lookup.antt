-- ===== src/Resolver/Lookup.antt =====
-- src/transport/resolver.rs: what a name resolves to, and what the set of resources keeps.
use bolina_rs.Prelude.{
  ℕ, ◌+◌, ◌<◌, ◌≡◌, ◌≢◌, ◌⊎◌, refl, Option, none, some, List, [], ◌∷◌, length, ltb, if◌then◌else◌,
  Result, ok, err, Bool-cases, inl, inr,
}
use bolina_rs.Prelude.Outcome.{Result-cases}
use bolina_rs.Prelude.Bytes.{Bytes}
use bolina_rs.Intent as Pending
use bolina_rs.Intent.Outcomes.{admit_locks, admit-cases}
use bolina_rs.Resolver.{
  Resolver, ResolveError, ambiguous_resource, unknown_resource, malformed_canonical, intent, names,
  canonical_of, resolve, padded, after_admit, admit_resolved, resolve_and_admit,
}

-- The indices of the entries that go by a name.
unfoldable pub hits : Resolver → Bytes → ℕ → List Bytes → List ℕ
hits r proposed i [] = []
hits r proposed i (e ∷ es) =
    let rest = hits r proposed (i + 1) es in if names r proposed i e then i ∷ rest else rest

-- What the loop answers for the hits that are left.
abbrev the_one : Option ℕ → List ℕ → Result (Option ℕ) ResolveError
the_one found [] = ok found
the_one none (i ∷ []) = ok (some i)
the_one none (i ∷ j ∷ is) = err ambiguous_resource
the_one (some f) (i ∷ is) = err ambiguous_resource

-- What was found stands before the entries that are left.
abbrev IsBefore : ℕ → Option ℕ → Type 0
IsBefore i none = Unit {0}
IsBefore i (some f) = f < i

-- What a list of hits resolves to.
abbrev pub resolved : Resolver → List ℕ → Result Bytes ResolveError
resolved r [] = err unknown_resource
resolved r (i ∷ []) = canonical_of (some i) r
resolved r (i ∷ j ∷ is) = err ambiguous_resource

after_admit-ok :
    (p : Pending.Table × Result (Unit {0}) Pending.IntentError)
    → (after_admit p).1 ≡ ok tt
    → p.1 ≡ ok tt
unfolding after_admit
after_admit-ok (t, ok u) h = refl
after_admit-ok (t, err e) h = absurd (cc (h))

after_admit-both :
    (p : Pending.Table × Result (Unit {0}) Pending.IntentError) (t' : Pending.Table)
    → after_admit p ≡ (t', ok tt)
    → p ≡ (t', ok tt)
unfolding after_admit
after_admit-both (t, ok u) t' h = cc (h)
after_admit-both (t, err e) t' h = absurd (cc (h))

-- The lock is on the canonical bytes: when two names resolve to the same and an intent was admitted
-- under the first, none is admitted under the second.
pub resolve_and_admit_locks :
    (id p q c : Bytes) (now : ℕ) (r : Resolver) (t t' : Pending.Table) (id' : Bytes) (now' : ℕ)
    → resolve p r ≡ ok c
    → resolve q r ≡ ok c
    → resolve_and_admit id p now r t ≡ (t', ok tt)
    → (Pending.match_for_grant id t' ≡ some (length t.entries))
      × ((resolve_and_admit id' q now' r t').1 ≢ ok tt)
unfolding resolve_and_admit admit_resolved after_admit
resolve_and_admit_locks id p q c now r t t' id' now' first second h =
    elim (Bool-cases (ltb 256 (length c))) [
      | inl long ↦ absurd (cc (rw (first, long) at h))
      | inr short ↦
          let e = rw (first, short) at h in
          let (_, matches, _, held) =
            admit_locks id (padded c) (length c) now t t' id' (padded c) (length c) now'
              (after_admit-both _ t' e) in
          (
            matches,
            λ granted. held (
                after_admit-ok (Pending.admit id' (padded c) (length c) now' t')
                  (rw (second, short) at granted)),
          )
    ]

-- An admission changes nothing and is refused, or the intent waits behind the others.
pub resolve_and_admit-cases :
    (id proposed : Bytes) (now : ℕ) (r : Resolver) (t : Pending.Table)
    → ((e : ResolveError) × (resolve_and_admit id proposed now r t ≡ (t, err e)))
      ⊎ ((t' : Pending.Table) × (resolve_and_admit id proposed now r t ≡ (t', ok tt))
          × (Pending.match_for_grant id t' ≡ some (length t.entries)))
unfolding resolve_and_admit admit_resolved after_admit
resolve_and_admit-cases id proposed now r t = elim (Result-cases (resolve proposed r)) [
  | inr (e, failed) ↦ inl (e, rw failed refl)
  | inl (c, found) ↦ elim (Bool-cases (ltb 256 (length c))) [
    | inl long ↦ inl (malformed_canonical, rw (found, long) refl)
    | inr short ↦ elim (admit-cases id (padded c) (length c) now t) [
      | inl (e, refused) ↦ inl (intent e, rw (found, short, refused) refl)
      | inr (t', admitted) ↦
          let (_, waits, _, _) =
            admit_locks id (padded c) (length c) now t t' id (padded c) (length c) now admitted in
          inr (t', rw (found, short, admitted) refl, waits)
    ]
  ]
]
