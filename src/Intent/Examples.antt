-- ===== src/Intent/Examples.antt =====
-- A table with two intents of src/state/intent.rs, and the theorems on it.
use bolina_rs.Prelude.{
  ℕ, ◌+◌, ◌^◌, ◌≤◌, ◌⊎◌, ◌≡◌, ◌≢◌, refl, true, false, ◌∷◌, ◌++◌, [], some, none, length, take, drop,
  ok, err,
}
use bolina_rs.Prelude.Bytes.{bytes_eq}
use bolina_rs.Prelude.Search.{get_elem?, any, find_index, retain}
use bolina_rs.Intent.{
  Table, Entry, State, RefusalOutcome, no_match, duplicate_intent_id, not_pending, new, admit,
  match_for_grant, begin_executing, apply_refusal, expire_timeouts, overflows, sweep, mark_expired,
  timed_out, compact, t_pending_ms, holds, awaits, fresh,
}
use bolina_rs.Intent.Invariant.{IsValid, Reach, here, next, admits, Reach-IsValid}
use bolina_rs.Intent.Outcomes.{
  match_for_grant_unique, admit_locks, apply_refusal_releases, apply_refusal-no_match, began,
  begin_executing_once, Swept, expire_timeouts_exact,
}

abbrev one : Table
one = record { entries = fresh (1 ∷ []) (7 ∷ []) 1 100 ∷ [] }

abbrev two : Table
two = record { entries = fresh (1 ∷ []) (7 ∷ []) 1 100 ∷ fresh (2 ∷ []) (8 ∷ []) 1 200 ∷ [] }

admits_one : (admit (1 ∷ []) (7 ∷ []) 1 100 new).0 ≡ one
unfolding admit any
admits_one = refl

admits_two : admit (2 ∷ []) (8 ∷ []) 1 200 one ≡ (two, ok tt)
unfolding admit any awaits holds bytes_eq
admits_two = refl

two-Reach : Reach new two
unfolding admit any awaits holds bytes_eq
two-Reach = next (next here (admits (1 ∷ []) (7 ∷ []) 1 100)) (admits (2 ∷ []) (8 ∷ []) 1 200)

two-IsValid : IsValid two
two-IsValid = Reach-IsValid two two-Reach

Reach-IsValid_example : IsValid two
Reach-IsValid_example = Reach-IsValid two two-Reach

finds_two : match_for_grant (2 ∷ []) two ≡ some 1
unfolding match_for_grant find_index awaits bytes_eq
finds_two = refl

at_two : get_elem? two.entries 1 ≡ some (fresh (2 ∷ []) (8 ∷ []) 1 200)
unfolding get_elem?
at_two = refl

match_for_grant_two :
    ((e : Entry) × (get_elem? two.entries 1 ≡ some e)
      × (e.state ≡ State.pending)
      × (e.intent_id ≡ 2 ∷ []))
    × (◌≡◌ {A = ℕ} 1 1)
match_for_grant_two =
    match_for_grant_unique (2 ∷ []) two 1 1 (fresh (2 ∷ []) (8 ∷ []) 1 200) two-IsValid finds_two
      at_two refl refl

admit_locks_example :
    (two.entries ≡ one.entries ++ fresh (2 ∷ []) (8 ∷ []) 1 200 ∷ [])
    × (match_for_grant (2 ∷ []) two ≡ some (length one.entries))
    × ((admit (2 ∷ []) (9 ∷ []) 1 300 two).1 ≡ err duplicate_intent_id)
    × ((admit (3 ∷ []) (8 ∷ []) 1 300 two).1 ≢ ok tt)
admit_locks_example = admit_locks (2 ∷ []) (8 ∷ []) 1 200 one two (3 ∷ []) (9 ∷ []) 1 300 admits_two

apply_refusal_releases_example :
    ((apply_refusal (2 ∷ []) two).1 ≡ RefusalOutcome.rejected)
    × ((apply_refusal (2 ∷ []) two).0.entries ≡ take 1 two.entries ++ drop 2 two.entries)
    × (match_for_grant (2 ∷ []) (apply_refusal (2 ∷ []) two).0 ≡ none)
    × (any (holds (8 ∷ [])) (apply_refusal (2 ∷ []) two).0.entries ≡ false)
apply_refusal_releases_example =
    apply_refusal_releases (2 ∷ []) two 1 (fresh (2 ∷ []) (8 ∷ []) 1 200) two-IsValid finds_two
      at_two

misses_three : match_for_grant (3 ∷ []) two ≡ none
unfolding match_for_grant find_index awaits bytes_eq
misses_three = refl

apply_refusal_three : apply_refusal (3 ∷ []) two ≡ (two, no_match)
apply_refusal_three = apply_refusal-no_match (3 ∷ []) two misses_three

begin_executing-two :
    (begin_executing 1 two ≡ (began 1 (fresh (2 ∷ []) (8 ∷ []) 1 200) two, ok tt))
    × (begin_executing 1 (began 1 (fresh (2 ∷ []) (8 ∷ []) 1 200) two)
        ≡ (began 1 (fresh (2 ∷ []) (8 ∷ []) 1 200) two, err not_pending))
    × (match_for_grant (2 ∷ []) (began 1 (fresh (2 ∷ []) (8 ∷ []) 1 200) two) ≢ some 1)
    × (any (holds (8 ∷ [])) (began 1 (fresh (2 ∷ []) (8 ∷ []) 1 200) two).entries ≡ true)
begin_executing-two = begin_executing_once 1 two (fresh (2 ∷ []) (8 ∷ []) 1 200) at_two refl

expire_timeouts_exact_example :
    ((i : ℕ) × (e : Entry) × (get_elem? two.entries i ≡ some e)
      × (e.state ≡ State.pending)
      × (2 ^ 64 ≤ e.admitted_ms + t_pending_ms)
      × (expire_timeouts 900101 two ≡ none))
    ⊎ ((t' : Table) × (n : ℕ) × (expire_timeouts 900101 two ≡ some (t', n))
        × Swept 900101 two.entries t'.entries n)
expire_timeouts_exact_example = expire_timeouts_exact 900101 two two-IsValid

-- The first intent is past its deadline, the second is not.
expires_first :
    expire_timeouts 900101 two ≡ some (record { entries = fresh (2 ∷ []) (8 ∷ []) 1 200 ∷ [] }, 1)
unfolding expire_timeouts overflows sweep mark_expired timed_out compact any retain
expires_first = refl
