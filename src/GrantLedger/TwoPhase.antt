-- ===== src/GrantLedger/TwoPhase.antt =====
-- src/state/ledger.rs: the two phases of a grant, consumed and published, and the changes that the
-- operations make to the maps.
use bolina_rs.Prelude.{
  ℕ, ◌≤◌, ◌≡◌, refl, ap, Bool, true, false, ◌||◌, List, [], ◌∷◌, ◌++◌, length, arith, leb,
  Bool-cases, inl, inr, if◌then◌else◌,
}
use bolina_rs.Prelude.Bytes.{Bytes, bytes_eq, bytes_eq_iff}
use bolina_rs.Prelude.Maps.{
  Map, lookup, insert, remove, contains_key, contains, lookup-insert, lookup-remove,
  contains-insert_key, length-remove_le, length-insert_le,
}
use bolina_rs.Prelude.Search.{retain}
use bolina_rs.GrantLedger.Log.{Caches, empty, orphans}
use bolina_rs.GrantLedger.{max_live, remove_all, drop_expired, consume, publish, revoke, receive}

pub record IsTwoPhase (c : Caches) : Type 0 where
  -- a published grant is not consumed
  pub apart : (id : Bytes) → contains id c.published ≡ true → contains_key id c.consumed ≡ false
  -- the order of commits has every consumed grant
  pub ordered :
      (id : Bytes) → contains_key id c.consumed ≡ true → contains id c.consumed_order ≡ true
  pub room : length c.consumed ≤ max_live
  pub room_revoked : length c.revoked ≤ max_live

pub IsTwoPhase-empty : IsTwoPhase empty
unfolding contains_key contains lookup
IsTwoPhase-empty = record {
  apart = λ id h. refl;
  ordered = λ id h. absurd (cc);
  room = omega arith;
  room_revoked = omega arith;
}

contains_key-insert :
    (k j : Bytes) (v : ℕ) (m : Map ℕ)
    → contains_key j (insert k v m) ≡ (bytes_eq k j || contains_key j m)
unfolding contains_key
contains_key-insert k j v m = ground (arith, lookup-insert k j v m)

contains_key-remove :
    (k j : Bytes) (m : Map ℕ)
    → contains_key j (remove k m) ≡ (if bytes_eq k j then false else contains_key j m)
unfolding contains_key
contains_key-remove k j m = ground (arith, lookup-remove k j m)

contains-append :
    (id k : Bytes) (s : List Bytes) → contains id (s ++ k ∷ []) ≡ (contains id s || bytes_eq k id)
unfolding contains
contains-append id k [] = ground arith
contains-append id k (j ∷ s) = ground (arith, contains-append id k s)

pub contains-retain :
    (p : Bytes → Bool) (id : Bytes) (s : List Bytes)
    → contains id (retain p s) ≡ (if p id then contains id s else false)
unfolding contains retain
contains-retain p id [] = ground arith
contains-retain p id (j ∷ s) =
    let rest = contains-retain p id s in
    elim (Bool-cases (bytes_eq j id)) [
      | inl e ↦
          let same : j ≡ id = (bytes_eq_iff j id).0 e in rw (e, ap p same) (ground (arith, rest, e))
      | inr e ↦ ground (arith, rest, e)
    ]

pub consume-IsTwoPhase :
    (id : Bytes) (expiry : ℕ) (c : Caches)
    → contains_key id c.consumed ≡ false
    → contains id c.published ≡ false
    → leb max_live (length c.consumed) ≡ false
    → IsTwoPhase c
    → IsTwoPhase (consume id expiry c)
consume-IsTwoPhase id expiry c new unspent room v = record {
  apart = λ j h.
      ground (arith, contains_key-insert id j expiry c.consumed, v.apart j, bytes_eq_iff id j);
  ordered = λ j h. ground (
    arith,
    contains_key-insert id j expiry c.consumed,
    contains-append j id c.consumed_order,
    v.ordered j,
  );
  room = ground (arith, length-insert_le id expiry c.consumed);
  room_revoked = v.room_revoked;
}

pub publish-IsTwoPhase : (id : Bytes) (c : Caches) → IsTwoPhase c → IsTwoPhase (publish id c)
publish-IsTwoPhase id c v = record {
  apart = λ j h.
      ground (
        arith,
        contains_key-remove id j c.consumed,
        contains-insert_key id j c.published,
        v.apart j,
      );
  ordered = λ j h. ground (arith, contains_key-remove id j c.consumed, v.ordered j);
  room = omega (arith, v.room, length-remove_le id c.consumed);
  room_revoked = v.room_revoked;
}

pub revoke-IsTwoPhase :
    (pk : Bytes) (expiry : ℕ) (c : Caches)
    → leb max_live (length c.revoked) ≡ false
    → IsTwoPhase c
    → IsTwoPhase (revoke pk expiry c)
revoke-IsTwoPhase pk expiry c room v = record {
  apart = v.apart;
  ordered = v.ordered;
  room = v.room;
  room_revoked = ground (arith, length-insert_le pk expiry c.revoked);
}

pub receive-IsTwoPhase :
    (id : Bytes) (time : ℕ) (c : Caches) → IsTwoPhase c → IsTwoPhase (receive id time c)
receive-IsTwoPhase id time c v = record {
  apart = v.apart;
  ordered = v.ordered;
  room = v.room;
  room_revoked = v.room_revoked;
}

pub remove_all-subset :
    (ids : List Bytes) (j : Bytes) (m : Map ℕ)
    → contains_key j (remove_all ids m) ≡ true
    → contains_key j m ≡ true
unfolding remove_all
remove_all-subset [] j m h = h
remove_all-subset (id ∷ ids) j m h =
    let rest = remove_all-subset ids j (remove id m) h in ground (arith, contains_key-remove id j m)

length-remove_all_le : (ids : List Bytes) (m : Map ℕ) → length (remove_all ids m) ≤ length m
unfolding remove_all
length-remove_all_le [] m = omega arith
length-remove_all_le (id ∷ ids) m =
    omega (arith, length-remove_all_le ids (remove id m), length-remove_le id m)

pub drop_expired-IsTwoPhase :
    (ids : List Bytes) (c : Caches) → IsTwoPhase c → IsTwoPhase (drop_expired ids c)
unfolding drop_expired
drop_expired-IsTwoPhase ids c v = record {
  apart = λ j h. ground (arith, remove_all-subset ids j c.consumed, v.apart j);
  ordered = λ j h. ground (
    arith,
    remove_all-subset ids j c.consumed,
    contains-retain (λ id. contains_key id (remove_all ids c.consumed)) j c.consumed_order,
    v.ordered j,
  );
  room = omega (arith, v.room, length-remove_all_le ids c.consumed);
  room_revoked = v.room_revoked;
}

-- The orphans are the consumed grants.
pub contains-orphans :
    (id : Bytes) (c : Caches) → IsTwoPhase c → contains id (orphans c) ≡ contains_key id c.consumed
unfolding orphans
contains-orphans id c v =
    ground
      (arith, contains-retain (λ id. contains_key id c.consumed) id c.consumed_order, v.ordered id)
