-- ===== src/Session/Slots.antt =====
-- src/transport/session.rs: the table of sessions by their local index.
use bolina_rs.Prelude.{
  ℕ, ◌≡◌, ◌≢◌, refl, sym, ap, ◌∙◌, true, false, none, some, set, leb, ◌==◌, arith, Result, ok, err,
  Bool-cases, Option-cases, inl, inr,
}
use bolina_rs.Prelude.Bytes.{Bytes}
use bolina_rs.Prelude.Search.{get_elem?, get_elem?-set, get_elem?-set_other}
use bolina_rs.Session.{
  Session, SessionTable, TransportError, slot_full, new_window, lookup, admitted, admit_at, admit,
  released, release_at, release,
}

-- What a successful admission found in the slot, and what it left there.
record IsFilled (i : ℕ) (s' : Session) (t t' : SessionTable) : Type 0 where
  old : Session
  within : leb 512 i ≡ false
  at : get_elem? t.slots i ≡ some old
  slots : t'.slots ≡ set t.slots i s'

admit-IsFilled :
    (i peer : ℕ) (send_key recv_key hash : Bytes) (now : ℕ) (t t' : SessionTable)
    → admit i peer send_key recv_key hash now t ≡ (t', ok tt)
    → (s' : Session) × IsFilled i s' t t'
      × ((s : Session) → admitted i peer send_key recv_key hash now s ≡ s')
unfolding admit admit_at admitted
admit-IsFilled i peer send_key recv_key hash now t t' h = elim (Bool-cases (leb 512 i)) [
  | inl beyond ↦ absurd (cc (rw beyond at h))
  | inr within ↦ elim (Option-cases (get_elem? t.slots i)) [
    | inl out ↦ absurd (cc (rw (within, out) at h))
    | inr (s, at) ↦ elim (Bool-cases s.in_use) [
      | inl taken ↦ absurd (cc (rw (within, at, taken) at h))
      | inr free ↦
          let e = rw (within, at, free) at h in
          (
            admitted i peer send_key recv_key hash now s,
            record {
              old = s;
              within = within;
              at = at;
              slots =
                  ap (λ (x : SessionTable × Result (Unit {0}) TransportError). x.0.slots) (sym e);
            },
            λ _. refl,
          )
    ]
  ]
]

filled_at :
    (i : ℕ) (s' : Session) (t t' : SessionTable)
    → IsFilled i s' t t'
    → get_elem? t'.slots i ≡ some s'
filled_at i s' t t' f = rw f.slots (get_elem?-set t.slots i f.old s' f.at)

lookup-live :
    (i : ℕ) (s : Session) (t : SessionTable)
    → leb 512 i ≡ false
    → get_elem? t.slots i ≡ some s
    → s.in_use ≡ true
    → lookup i t ≡ some s
unfolding lookup
lookup-live i s t within at live = rw (within, at, live) refl

lookup-other :
    (i j : ℕ) (s' : Session) (t t' : SessionTable)
    → t'.slots ≡ set t.slots i s'
    → j ≢ i
    → lookup j t' ≡ lookup j t
unfolding lookup
lookup-other i j s' t t' e other =
    let apart : (i == j) ≡ false = ground (arith, other) in
    rw (e, get_elem?-set_other t.slots j i s' apart) refl

release_filled :
    (i : ℕ) (s : Session) (t : SessionTable)
    → leb 512 i ≡ false
    → get_elem? t.slots i ≡ some s
    → (release i t).slots ≡ set t.slots i (released s)
unfolding release release_at
release_filled i s t within at = rw (within, at) refl

lookup-free :
    (i : ℕ) (s : Session) (t : SessionTable)
    → leb 512 i ≡ false
    → get_elem? t.slots i ≡ some s
    → lookup i (release i t) ≡ none
unfolding lookup release release_at released
lookup-free i s t within at = rw (within, at, get_elem?-set t.slots i s (released s) at) refl

admit-full :
    (i peer : ℕ) (send_key recv_key hash : Bytes) (now : ℕ) (s : Session) (t : SessionTable)
    → leb 512 i ≡ false
    → get_elem? t.slots i ≡ some s
    → s.in_use ≡ true
    → admit i peer send_key recv_key hash now t ≡ (t, err slot_full)
unfolding admit admit_at
admit-full i peer send_key recv_key hash now s t within at live = rw (within, at, live) refl

-- A session that was admitted is the one that is looked up under its local index, with the keys given,
-- a send counter of 0 and a new window, and not bound yet; the other indices are as they were. The
-- slot is not given again until it is released: an admission under it changes nothing. After a release
-- nothing is looked up there, and the other indices are as they were.
pub admit_slot :
    (i peer : ℕ) (send_key recv_key hash : Bytes) (now : ℕ) (t t' : SessionTable) (j : ℕ)
    → admit i peer send_key recv_key hash now t ≡ (t', ok tt)
    → j ≢ i
    → (lookup i t'
        ≡ some (record {
          local_index = i;
          peer_index = peer;
          send = record { key = send_key; counter = 0 };
          recv = record { key = recv_key; window = new_window };
          handshake_hash = hash;
          key_epoch_ms = now;
          bound = false;
          in_use = true;
        }))
      × (lookup j t' ≡ lookup j t)
      × (admit i peer send_key recv_key hash now t' ≡ (t', err slot_full))
      × (lookup i (release i t') ≡ none)
      × (lookup j (release i t') ≡ lookup j t)
unfolding admitted
admit_slot i peer send_key recv_key hash now t t' j h other =
    let (s', f, same) = admit-IsFilled i peer send_key recv_key hash now t t' h in
    let at = filled_at i s' t t' f in
    let fields = same f.old in
    let live : s'.in_use ≡ true = ap (λ (s : Session). s.in_use) (sym fields) in
    (
      lookup-live i s' t' f.within at live ∙ ap some (sym fields),
      lookup-other i j s' t t' f.slots other,
      admit-full i peer send_key recv_key hash now s' t' f.within at live,
      lookup-free i s' t' f.within at,
      lookup-other i j (released s') t' (release i t') (release_filled i s' t' f.within at) other
          ∙ lookup-other i j s' t t' f.slots other,
    )
