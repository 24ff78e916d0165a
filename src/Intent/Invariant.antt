-- ===== src/Intent/Invariant.antt =====
-- Every operation of the intent table keeps its invariant, hence every table that is reached has it.
use mathlib.Core.Path.{subst}
use bolina_rs.Prelude.{
  ℕ, ◌≤◌, ◌≡◌, refl, ap, Bool, true, false, ◌&&◌, Option, none, some, List, [], ◌∷◌, length,
  length-append, take, set, All, arith, ltb, leb, Bool-cases, inl, inr,
}
use bolina_rs.Prelude.Lists.{All-append}
use bolina_rs.Prelude.Bytes.{Bytes}
use bolina_rs.Prelude.Search.{
  get_elem?, any, any_never, find_index, NoClash, NoClash-push, NoClash-set, NoClash-retain,
  All-retain_self, All-set, length-set, length-retain_le, find_index-some,
}
use bolina_rs.Intent.{
  Table, Entry, State, new, is_pending, is_live, awaits, holds, fresh, max_pending, admit, begin_at,
  begin_executing, compact, refuse_at, apply_refusal, timed_out, mark_expired, overflows, sweep,
  expire_timeouts,
}

abbrev pub IsLive : Entry → Type 0
IsLive e = is_live e.state ≡ true

-- Both live, for one resource.
unfoldable pub shares_resource : Entry → Entry → Bool
unfolding holds
shares_resource e f = is_live f.state && holds (take f.resource_len f.resource_id) e

-- Both pending, under one identifier.
unfoldable pub shares_id : Entry → Entry → Bool
unfolding awaits
shares_id e f = is_pending f.state && awaits f.intent_id e

pub record IsValid (t : Table) : Type 0 where
  pub room : length t.entries ≤ max_pending
  -- dead entries do not stay
  pub live : All IsLive t.entries
  -- a resource is held by one entry
  pub exclusive : NoClash shares_resource t.entries
  -- an identifier is pending once
  pub unique : NoClash shares_id t.entries

IsValid-new : IsValid new
IsValid-new = record { room = omega arith; live = tt; exclusive = tt; unique = tt }

admit-IsValid :
    (id resource : Bytes) (len now : ℕ) (t : Table)
    → IsValid t
    → IsValid (admit id resource len now t).0
unfolding admit shares_resource shares_id
admit-IsValid id resource len now t v = elim (Bool-cases (any (awaits id) t.entries)) [
  | inl dup ↦ rw dup v
  | inr free_id ↦ elim (Bool-cases (any (holds (take len resource)) t.entries)) [
    | inl held ↦ rw (free_id, held) v
    | inr free ↦ elim (Bool-cases (leb max_pending (length t.entries))) [
      | inl full ↦ rw (free_id, free, full) v
      | inr room ↦
          rw (free_id, free, room)
            (record {
              room = ground (arith, length-append t.entries (fresh id resource len now ∷ []));
              live = All-append IsLive t.entries _ v.live (refl, tt);
              exclusive = NoClash-push _ t.entries _ v.exclusive free;
              unique = NoClash-push _ t.entries _ v.unique free_id;
            })
    ]
  ]
]

-- A table with an entry that clashes with no more than the one that it replaces.
replaced-IsValid :
    (t : Table) (i : ℕ) (e : Entry) (s : State)
    → get_elem? t.entries i ≡ some e
    → (is_live s ≡ true → is_live e.state ≡ true)
    → (is_pending s ≡ true → is_pending e.state ≡ true)
    → IsValid t
    → (length (set t.entries i (record e { state = s })) ≤ max_pending)
      × NoClash shares_resource (set t.entries i (record e { state = s }))
      × NoClash shares_id (set t.entries i (record e { state = s }))
unfolding shares_resource shares_id holds awaits
replaced-IsValid t i e s at live pending v = (
  omega (arith, length-set t.entries i (record e { state = s }), v.room),
  NoClash-set _ t.entries i e _ at (λ x c. ground arith) (λ x c. ground arith) v.exclusive,
  NoClash-set _ t.entries i e _ at (λ x c. ground arith) (λ x c. ground arith) v.unique,
)

begin_executing-IsValid : (idx : ℕ) (t : Table) → IsValid t → IsValid (begin_executing idx t).0
unfolding begin_executing
begin_executing-IsValid idx t v = go (get_elem? t.entries idx) refl
  where
    go : (o : Option Entry) → get_elem? t.entries idx ≡ o → IsValid (begin_at idx o t).0
    go none at = v
    go (some e) at = elim (Bool-cases (is_pending e.state)) [
      | inr other ↦ rw other v
      | inl waits ↦
          let (room, exclusive, unique) =
            replaced-IsValid t idx e State.executing at (λ _. ground arith) (λ h. cc) v in
          rw waits (record {
            room = room;
            live = All-set IsLive t.entries idx _ refl v.live;
            exclusive = exclusive;
            unique = unique;
          })
    ]

-- What `compact` leaves of entries without clashes.
compact-IsValid :
    (es : List Entry)
    → length es ≤ max_pending
    → NoClash shares_resource es
    → NoClash shares_id es
    → IsValid (compact (record { entries = es }))
unfolding compact
compact-IsValid es room exclusive unique = record {
  room = omega (arith, length-retain_le (λ e. is_live e.state) es);
  live = All-retain_self (λ e. is_live e.state) es;
  exclusive = NoClash-retain shares_resource (λ e. is_live e.state) es exclusive;
  unique = NoClash-retain shares_id (λ e. is_live e.state) es unique;
}

apply_refusal-IsValid : (id : Bytes) (t : Table) → IsValid t → IsValid (apply_refusal id t).0
unfolding apply_refusal
apply_refusal-IsValid id t v = go (find_index (awaits id) t.entries) refl
  where
    go : (o : Option ℕ) → find_index (awaits id) t.entries ≡ o → IsValid (refuse_at o t).0
    go none h = v
    go (some i) h =
        let (e, at, hit) = find_index-some (awaits id) t.entries i h in
        let (room, exclusive, unique) =
          replaced-IsValid t i e State.rejected at (λ h. absurd (cc)) (λ h. absurd (cc)) v in
        rw at (compact-IsValid _ room exclusive unique)

-- Marking entries expired adds no clash.
mark_expired-any :
    (p : Entry → Bool) (now : ℕ) (es : List Entry)
    → ((e : Entry) → p (record e { state = State.expired }) ≡ false)
    → any p es ≡ false
    → any p (mark_expired now es).0 ≡ false
unfolding mark_expired any
mark_expired-any p now [] dead h = refl
mark_expired-any p now (e ∷ es) dead h = ground (arith, dead e, mark_expired-any p now es dead)

mark_expired-NoClash :
    (r : Entry → Entry → Bool) (now : ℕ) (es : List Entry)
    → ((e x : Entry) → r x (record e { state = State.expired }) ≡ false)
    → ((e x : Entry) → r (record e { state = State.expired }) x ≡ false)
    → NoClash r es
    → NoClash r (mark_expired now es).0
unfolding mark_expired
mark_expired-NoClash r now [] right left h = tt
mark_expired-NoClash r now (e ∷ es) right left h = elim (Bool-cases (timed_out now e)) [
  | inl out ↦ rw out (
    any_never (r (record e { state = State.expired })) (mark_expired now es).0 (left e),
    mark_expired-NoClash r now es right left h.1,
  )
  | inr kept ↦ rw kept (
    mark_expired-any (r e) now es (λ x. right x e) h.0,
    mark_expired-NoClash r now es right left h.1,
  )
]

length-mark_expired : (now : ℕ) (es : List Entry) → length (mark_expired now es).0 ≡ length es
unfolding mark_expired
length-mark_expired now [] = refl
length-mark_expired now (e ∷ es) = ground (arith, length-mark_expired now es)

-- Nothing collapsed: nothing changed.
pub mark_expired_zero :
    (now : ℕ) (es : List Entry) → (mark_expired now es).1 ≡ 0 → (mark_expired now es).0 ≡ es
unfolding mark_expired
mark_expired_zero now [] h = refl
mark_expired_zero now (e ∷ es) h = ground (arith, mark_expired_zero now es)

dead-shares_resource_right :
    (e x : Entry) → shares_resource x (record e { state = State.expired }) ≡ false
unfolding shares_resource
dead-shares_resource_right e x = refl

dead-shares_resource_left :
    (e x : Entry) → shares_resource (record e { state = State.expired }) x ≡ false
unfolding shares_resource holds
dead-shares_resource_left e x = ground arith

dead-shares_id_right : (e x : Entry) → shares_id x (record e { state = State.expired }) ≡ false
unfolding shares_id
dead-shares_id_right e x = refl

dead-shares_id_left : (e x : Entry) → shares_id (record e { state = State.expired }) x ≡ false
unfolding shares_id awaits
dead-shares_id_left e x = ground arith

sweep-IsValid : (now : ℕ) (t : Table) → IsValid t → IsValid (sweep now t).0
unfolding sweep
sweep-IsValid now t v = elim (Bool-cases (ltb 0 (mark_expired now t.entries).1)) [
  | inl some_out ↦ rw some_out (
      compact-IsValid (mark_expired now t.entries).0
        (omega (arith, length-mark_expired now t.entries, v.room))
        (mark_expired-NoClash shares_resource now t.entries dead-shares_resource_right
          dead-shares_resource_left v.exclusive)
        (mark_expired-NoClash shares_id now t.entries dead-shares_id_right dead-shares_id_left
          v.unique))
  | inr none_out ↦ rw (none_out, mark_expired_zero now t.entries (ground arith)) v
]

pub swept_to :
    (now n : ℕ) (t u : Table)
    → expire_timeouts now t ≡ some (u, n)
    → (any overflows t.entries ≡ false) × (sweep now t ≡ (u, n))
unfolding expire_timeouts
swept_to now n t u h = elim (Bool-cases (any overflows t.entries)) [
  | inl out ↦ absurd (cc (rw out at h))
  | inr fits ↦ (fits, cc (rw fits at h))
]

expire_timeouts-IsValid :
    (now n : ℕ) (t u : Table) → expire_timeouts now t ≡ some (u, n) → IsValid t → IsValid u
expire_timeouts-IsValid now n t u h v =
    subst IsValid (ap (λ r. r.0) (swept_to now n t u h).1) (sweep-IsValid now t v)

-- One call of a method that returns, whatever its arguments and its result.
pub data Step : Table → Table → Type 0 where
  admits : (id resource : Bytes) (len now : ℕ) {t : Table} → Step t (admit id resource len now t).0
  begins : (idx : ℕ) {t : Table} → Step t (begin_executing idx t).0
  refuses : (id : Bytes) {t : Table} → Step t (apply_refusal id t).0
  expires : (now n : ℕ) {t u : Table} → expire_timeouts now t ≡ some (u, n) → Step t u

pub data Reach (s : Table) : Table → Type 0 where
  here : Reach s s
  next : {t u : Table} → Reach s t → Step t u → Reach s u

Step-IsValid : {t u : Table} → Step t u → IsValid t → IsValid u
Step-IsValid (admits id resource len now {t}) v = admit-IsValid id resource len now t v
Step-IsValid (begins idx {t}) v = begin_executing-IsValid idx t v
Step-IsValid (refuses id {t}) v = apply_refusal-IsValid id t v
Step-IsValid (expires now n {t} {u} swept) v = expire_timeouts-IsValid now n t u swept v

Steps-IsValid : {s t : Table} → IsValid s → Reach s t → IsValid t
Steps-IsValid v here = v
Steps-IsValid v (next r st) = Step-IsValid st (Steps-IsValid v r)

-- Every table that calls of the methods reach from the empty one holds at most `max_pending`
-- entries, all pending or executing, no two of them for one resource, and no two pending under one
-- identifier.
pub Reach-IsValid : (t : Table) → Reach new t → IsValid t
Reach-IsValid t r = Steps-IsValid IsValid-new r
