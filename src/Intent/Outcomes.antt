-- ===== src/Intent/Outcomes.antt =====
-- What each method of the intent table does, by its result.
use mathlib.Core.Path.{subst}
use bolina_rs.Prelude.{
  ℕ, suc, ◌+◌, ◌^◌, ◌≤◌, ◌<◌, ◌≡◌, refl, sym, ap, ◌∙◌, ◌≢◌, ◌⊎◌, leb, Bool, true, false, none, some,
  List, [], ◌∷◌, ◌++◌, length, take, drop, set, All, arith, ltb, Bool-cases, inl, inr, ok, err,
}
use bolina_rs.Prelude.Bytes.{Bytes, bytes_eq_iff, bytes_eq_refl}
use bolina_rs.Prelude.Search.{
  get_elem?, any, any-append, retain, NoClash-others, retain-set, retain-All, get_elem?-others,
  find_index-append, find_index-some, find_index-no_hit, get_elem?-set, any-hit, any-some,
}
use bolina_rs.Intent.{
  Table, Entry, State, IntentError, table_full, resource_held, max_pending, duplicate_intent_id,
  not_pending, RefusalOutcome, no_match, is_pending, is_live, awaits, holds, fresh, admit, begin_at,
  begin_executing, match_for_grant, compact, refuse_at, apply_refusal, timed_out, mark_expired,
  overflows, sweep, expire_timeouts, t_pending_ms,
}
use bolina_rs.Intent.Invariant.{IsValid, IsLive, shares_id, shares_resource, mark_expired_zero}

-- Two entries that await one identifier share it; so with the resource.
awaits-shares_id :
    (id : Bytes) (x y : Entry) → awaits id x ≡ true → awaits id y ≡ true → shares_id x y ≡ true
unfolding awaits shares_id
awaits-shares_id id x y h k =
    ground (arith, bytes_eq_iff x.intent_id id, bytes_eq_iff y.intent_id id, bytes_eq_refl id)

holds-shares_resource :
    (name : Bytes) (x y : Entry)
    → holds name x ≡ true
    → holds name y ≡ true
    → shares_resource x y ≡ true
unfolding holds shares_resource
holds-shares_resource name x y h k = ground (
  arith,
  bytes_eq_iff (take x.resource_len x.resource_id) name,
  bytes_eq_iff (take y.resource_len y.resource_id) name,
  bytes_eq_refl name,
)

is_pending-pending : (s : State) → is_pending s ≡ true → s ≡ State.pending
is_pending-pending State.pending h = refl
is_pending-pending State.executing h = cc
is_pending-pending State.expired h = cc
is_pending-pending State.rejected h = cc

awaits-parts :
    (id : Bytes) (e : Entry) → awaits id e ≡ true → (e.state ≡ State.pending) × (e.intent_id ≡ id)
unfolding awaits
awaits-parts id e h =
    (is_pending-pending e.state (ground arith), ground (arith, bytes_eq_iff e.intent_id id))

awaits-of_parts :
    (id : Bytes) (e : Entry) → e.state ≡ State.pending → e.intent_id ≡ id → awaits id e ≡ true
unfolding awaits
awaits-of_parts id e waits same = rw (waits, same) (bytes_eq_refl id)

-- In a valid table the match for a grant is an entry that is pending under the grant's identifier,
-- and every entry that is pending under it stands at that index.
pub match_for_grant_unique :
    (id : Bytes) (t : Table) (i j : ℕ) (f : Entry)
    → IsValid t
    → match_for_grant id t ≡ some i
    → get_elem? t.entries j ≡ some f
    → f.state ≡ State.pending
    → f.intent_id ≡ id
    → ((e : Entry) × (get_elem? t.entries i ≡ some e)
        × (e.state ≡ State.pending)
        × (e.intent_id ≡ id))
      × (i ≡ j)
unfolding match_for_grant
match_for_grant_unique id t i j f v h at' waits same =
    let (e, at, hit) = find_index-some (awaits id) t.entries i h in
    (
      (e, at, (awaits-parts id e hit).0, (awaits-parts id e hit).1),
      get_elem?-others (awaits id) t.entries i j f
          (NoClash-others shares_id (awaits id) t.entries i e (awaits-shares_id id) v.unique at hit)
          at' (awaits-of_parts id f waits same),
    )

fresh-awaits : (id resource : Bytes) (len now : ℕ) → awaits id (fresh id resource len now) ≡ true
unfolding awaits
fresh-awaits id resource len now = bytes_eq_refl id

fresh-holds :
    (id resource : Bytes) (len now : ℕ)
    → holds (take len resource) (fresh id resource len now) ≡ true
unfolding holds
fresh-holds id resource len now = bytes_eq_refl (take len resource)

-- What a successful `admit` tested and did.
admit-ok :
    (id resource : Bytes) (len now : ℕ) (t : Table)
    → (admit id resource len now t).1 ≡ ok tt
    → ((admit id resource len now t).0.entries ≡ t.entries ++ fresh id resource len now ∷ [])
      × (any (awaits id) t.entries ≡ false)
unfolding admit
admit-ok id resource len now t h = ground arith

-- A refused admission changes nothing.
pub admit-cases :
    (id resource : Bytes) (len now : ℕ) (t : Table)
    → ((e : IntentError) × (admit id resource len now t ≡ (t, err e)))
      ⊎ ((t' : Table) × (admit id resource len now t ≡ (t', ok tt)))
unfolding admit
admit-cases id resource len now t = elim (Bool-cases (any (awaits id) t.entries)) [
  | inl again ↦ inl (duplicate_intent_id, rw again refl)
  | inr fresh_id ↦ elim (Bool-cases (any (holds (take len resource)) t.entries)) [
    | inl held ↦ inl (resource_held, rw (fresh_id, held) refl)
    | inr free ↦ elim (Bool-cases (leb max_pending (length t.entries))) [
      | inl full ↦ inl (table_full, rw (fresh_id, free, full) refl)
      | inr room ↦ inr (
        record { entries = t.entries ++ fresh id resource len now ∷ [] },
        rw (fresh_id, free, room) refl,
      )
    ]
  ]
]

any-push :
    (p : Entry → Bool) (es : List Entry) (n : Entry) → p n ≡ true → any p (es ++ n ∷ []) ≡ true
unfolding any
any-push p es n h = ground (arith, any-append p es (n ∷ []))

admit_duplicate :
    (id resource : Bytes) (len now : ℕ) (t : Table)
    → any (awaits id) t.entries ≡ true
    → (admit id resource len now t).1 ≡ err duplicate_intent_id
unfolding admit
admit_duplicate id resource len now t h = rw h

admit_held :
    (id resource : Bytes) (len now : ℕ) (t : Table)
    → any (holds (take len resource)) t.entries ≡ true
    → (admit id resource len now t).1 ≢ ok tt
unfolding admit
admit_held id resource len now t h e = ground arith

-- An admitted intent stands behind the entries that there were, and is the match for a grant of
-- its identifier. Then a second admission under the identifier is refused as a duplicate, and none
-- for the same resource succeeds.
pub admit_locks :
    (id resource : Bytes) (len now : ℕ) (t t' : Table) (id' resource' : Bytes) (len' now' : ℕ)
    → admit id resource len now t ≡ (t', ok tt)
    → (t'.entries ≡ t.entries ++ fresh id resource len now ∷ [])
      × (match_for_grant id t' ≡ some (length t.entries))
      × ((admit id resource' len' now' t').1 ≡ err duplicate_intent_id)
      × ((admit id' resource len now' t').1 ≢ ok tt)
unfolding match_for_grant
admit_locks id resource len now t t' id' resource' len' now' h =
    let (pushed, free) = admit-ok id resource len now t (ap (λ r. r.1) h) in
    let e : t'.entries ≡ t.entries ++ fresh id resource len now ∷ [] =
      ap (λ r. r.0.entries) (sym h) ∙ pushed in
    (
      e,
      rw e (find_index-append (awaits id) t.entries _ free (fresh-awaits id resource len now)),
      admit_duplicate id resource' len' now' t'
          (rw e (any-push (awaits id) t.entries _ (fresh-awaits id resource len now))),
      admit_held id' resource len now' t' (
          rw e
            (any-push (holds (take len resource)) t.entries _ (fresh-holds id resource len now))),
    )

awaits-holds :
    (id : Bytes) (e : Entry)
    → awaits id e ≡ true
    → holds (take e.resource_len e.resource_id) e ≡ true
unfolding holds
awaits-holds id e h = rw (awaits-parts id e h).0 (bytes_eq_refl (take e.resource_len e.resource_id))

executing-holds :
    (e : Entry)
    → holds (take e.resource_len e.resource_id) (record e { state = State.executing }) ≡ true
unfolding holds
executing-holds e = bytes_eq_refl (take e.resource_len e.resource_id)

executing-not_awaits :
    (id : Bytes) (e f : Entry) → f ≡ record e { state = State.executing } → awaits id f ≡ true → ⊥
unfolding awaits
executing-not_awaits id e f same hit = cc (rw same at hit)

refuse_at-some :
    (t : Table) (i : ℕ) (e : Entry)
    → get_elem? t.entries i ≡ some e
    → (refuse_at (some i) t).0.entries
      ≡ retain (λ x. is_live x.state) (set t.entries i (record e { state = State.rejected }))
unfolding refuse_at
refuse_at-some t i e at = rw at

refuse_at-outcome : (t : Table) (i : ℕ) → (refuse_at (some i) t).1 ≡ RefusalOutcome.rejected
unfolding refuse_at
refuse_at-outcome t i = refl

-- A refusal that matches an entry of a valid table takes that entry out and leaves the others in
-- order. Then no entry awaits its identifier, and none holds its resource.
pub apply_refusal_releases :
    (id : Bytes) (t : Table) (i : ℕ) (e : Entry)
    → IsValid t
    → match_for_grant id t ≡ some i
    → get_elem? t.entries i ≡ some e
    → ((apply_refusal id t).1 ≡ RefusalOutcome.rejected)
      × ((apply_refusal id t).0.entries ≡ take i t.entries ++ drop (suc i) t.entries)
      × (match_for_grant id (apply_refusal id t).0 ≡ none)
      × (any (holds (take e.resource_len e.resource_id)) (apply_refusal id t).0.entries ≡ false)
unfolding apply_refusal match_for_grant
apply_refusal_releases id t i e v h at =
    let (e', at', hit) = find_index-some (awaits id) t.entries i h in
    let same : e' ≡ e = cc (at, at') in
    let left : (refuse_at (some i) t).0.entries ≡ take i t.entries ++ drop (suc i) t.entries =
      refuse_at-some t i e at
      ∙ retain-set (λ x. is_live x.state) t.entries i e (record e { state = State.rejected }) v.live
          at refl in
    rw h (
      refuse_at-outcome t i,
      left,
      rw left (
          find_index-no_hit (awaits id) _ (
            NoClash-others shares_id (awaits id) t.entries i e (awaits-shares_id id) v.unique at
              (rw same at hit))),
      rw left (
          NoClash-others shares_resource (holds (take e.resource_len e.resource_id)) t.entries i e
            (holds-shares_resource (take e.resource_len e.resource_id)) v.exclusive at
            (awaits-holds id e (rw same at hit))),
    )

-- A refusal that matches nothing changes nothing.
pub apply_refusal-no_match :
    (id : Bytes) (t : Table) → match_for_grant id t ≡ none → apply_refusal id t ≡ (t, no_match)
unfolding apply_refusal match_for_grant refuse_at
apply_refusal-no_match id t h = rw h

begin_at-pending :
    (idx : ℕ) (e : Entry) (t : Table)
    → e.state ≡ State.pending
    → begin_at idx (some e) t
      ≡ (record { entries = set t.entries idx (record e { state = State.executing }) }, ok tt)
unfolding begin_at
begin_at-pending idx e t h = rw h

begin_at-other :
    (idx : ℕ) (e : Entry) (t : Table)
    → is_pending e.state ≡ false
    → begin_at idx (some e) t ≡ (t, err not_pending)
unfolding begin_at
begin_at-other idx e t h = rw h

-- The table with the entry at `idx` executing.
abbrev pub began : ℕ → Entry → Table → Table
began idx e t = record { entries = set t.entries idx (record e { state = State.executing }) }

-- Execution begins at a pending entry and changes nothing but its state. It does not begin twice,
-- the entry matches no further grant, and its resource stays held.
pub begin_executing_once :
    (idx : ℕ) (t : Table) (e : Entry)
    → get_elem? t.entries idx ≡ some e
    → e.state ≡ State.pending
    → (begin_executing idx t ≡ (began idx e t, ok tt))
      × (begin_executing idx (began idx e t) ≡ (began idx e t, err not_pending))
      × (match_for_grant e.intent_id (began idx e t) ≢ some idx)
      × (any (holds (take e.resource_len e.resource_id)) (began idx e t).entries ≡ true)
unfolding begin_executing match_for_grant
begin_executing_once idx t e at waits =
    let at' = get_elem?-set t.entries idx e (record e { state = State.executing }) at in
    (
      rw at (begin_at-pending idx e t waits),
      rw at' (begin_at-other idx (record e { state = State.executing }) (began idx e t) refl),
      λ h.
          let (f, there, hit) = find_index-some (awaits e.intent_id) _ idx h in
          executing-not_awaits e.intent_id e f (cc (there, at')) hit,
      any-hit (holds (take e.resource_len e.resource_id)) _ idx _ at' (executing-holds e),
    )

compact-entries :
    (es : List Entry)
    → (compact (record { entries = es })).entries ≡ retain (λ e. is_live e.state) es
unfolding compact
compact-entries es = refl

-- What `expire_timeouts` owes: of the entries in order, those that are pending and past their deadline
-- go and are counted; the others stay as they are, and of these the pending ones are not past theirs.
pub data Swept (now : ℕ) : List Entry → List Entry → ℕ → Type 0 where
  none_left : Swept now [] [] 0
  stays :
      {e : Entry} {es kept : List Entry} {n : ℕ}
      → (e.state ≡ State.pending → now ≤ e.admitted_ms + t_pending_ms)
      → Swept now es kept n
      → Swept now (e ∷ es) (e ∷ kept) n
  goes :
      {e : Entry} {es kept : List Entry} {n : ℕ}
      → e.state ≡ State.pending
      → e.admitted_ms + t_pending_ms < now
      → Swept now es kept n
      → Swept now (e ∷ es) kept (n + 1)

mark_expired-Swept :
    (now : ℕ) (es : List Entry)
    → All IsLive es
    → Swept now es (retain (λ e. is_live e.state) (mark_expired now es).0) (mark_expired now es).1
unfolding mark_expired retain timed_out
mark_expired-Swept now [] h = none_left
mark_expired-Swept now (e ∷ es) h =
    let rest = mark_expired-Swept now es h.1 in
    elim (Bool-cases (timed_out now e)) [
      | inl out ↦
          rw out
            (goes (is_pending-pending e.state (ground (arith, out))) (ground (arith, out)) rest)
      | inr in_time ↦
          rw (in_time, h.0)
            (stays (λ waits. let p = ap is_pending waits in ground (arith, in_time, p)) rest)
    ]

sweep-Swept :
    (now : ℕ) (t : Table) → IsValid t → Swept now t.entries (sweep now t).0.entries (sweep now t).1
unfolding sweep
sweep-Swept now t v =
    let swept = mark_expired-Swept now t.entries v.live in
    elim (Bool-cases (ltb 0 (mark_expired now t.entries).1)) [
      | inl some_out ↦ rw (some_out, compact-entries) swept
      | inr none_out ↦
          let unchanged = mark_expired_zero now t.entries (ground arith) in
          rw none_out (
            subst (λ es. Swept now t.entries es (mark_expired now t.entries).1)
              (ap (retain (λ e. is_live e.state)) unchanged
                ∙ retain-All (λ e. is_live e.state) t.entries v.live
                ∙ sym unchanged)
              swept)
    ]

-- `expire_timeouts` on a valid table either meets a pending entry whose deadline does not fit in a
-- `u64`, and the program stops with a panic; or it takes out exactly the pending entries that are past
-- their deadline, returns their number, and leaves the others, those that execute included, as they
-- were and in order.
pub expire_timeouts_exact :
    (now : ℕ) (t : Table)
    → IsValid t
    → ((i : ℕ) × (e : Entry) × (get_elem? t.entries i ≡ some e)
        × (e.state ≡ State.pending)
        × (2 ^ 64 ≤ e.admitted_ms + t_pending_ms)
        × (expire_timeouts now t ≡ none))
      ⊎ ((t' : Table) × (n : ℕ) × (expire_timeouts now t ≡ some (t', n))
          × Swept now t.entries t'.entries n)
unfolding expire_timeouts overflows
expire_timeouts_exact now t v = elim (Bool-cases (any overflows t.entries)) [
  | inl out ↦
      let (i, e, at, hit) = any-some overflows t.entries out in
      inl (
        i,
        e,
        at,
        is_pending-pending e.state (ground (arith, hit)),
        ground (arith, hit),
        rw out refl,
      )
  | inr fits ↦ inr ((sweep now t).0, (sweep now t).1, rw fits refl, sweep-Swept now t v)
]
