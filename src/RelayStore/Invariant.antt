-- ===== src/RelayStore/Invariant.antt =====
-- src/transport/relay_store.rs: what every call of the store keeps.
use bolina_rs.Prelude.{
  ℕ, zero, suc, ◌+◌, ◌≤◌, ◌<◌, ◌≡◌, refl, sym, ap, ◌∙◌, true, false, ◌||◌, Option, none, some, List,
  [], ◌∷◌, length, take, drop, set, leb, ltb, arith, Result, ok, inl, inr,
}
use bolina_rs.Prelude.Tests.{if_known}
use bolina_rs.Prelude.Bytes.{Bytes, bytes_eq_iff}
use bolina_rs.Prelude.Lists.{take-append_left}
use bolina_rs.Prelude.Search.{get_elem?}
use bolina_rs.RelayStore.{
  StoredPacket, Store, StoreError, store_full, recipient_quota, max_stored, max_per_recipient,
  max_bytes_per_recipient, max_body, repeat, empty_packet, new, release_all, reset, purge_expired,
  usage, is_other, fill, place, put, refuse, store_purged, store, best_from, release_at, drain_at,
  drain_next,
}
use bolina_rs.RelayStore.Slots.{
  used, used-purge, length-purge, usage-purge_le, used-place, place-none, place-set, used-set,
  best_from-Picked,
}

pub record IsValid (s : Store) : Type 0 where
  pub slots : length s.packets ≡ max_stored
  pub counted : s.count ≡ used s.packets
  -- no recipient has more packets, or more bytes, than its quota
  pub quota : (addr : Bytes) → (usage addr s.packets).0 ≤ max_per_recipient
  pub quota_bytes : (addr : Bytes) → (usage addr s.packets).1 ≤ max_bytes_per_recipient

length-repeat : {A : Type 0} (n : ℕ) (x : A) → length (repeat n x) ≡ n
unfolding repeat
length-repeat zero x = refl
length-repeat (suc n) x = ap suc (length-repeat n x)

used-unused :
    (ps : List StoredPacket)
    → ((addr : Bytes) → usage addr (release_all ps) ≡ (0, 0)) × (used (release_all ps) ≡ 0)
unfolding release_all usage used is_other
used-unused [] = (λ addr. refl, refl)
used-unused (p ∷ ps) = used-unused ps

length-release_all : (ps : List StoredPacket) → length (release_all ps) ≡ length ps
unfolding release_all
length-release_all [] = refl
length-release_all (p ∷ ps) = ap suc (length-release_all ps)

reset-IsValid : (s : Store) → length s.packets ≡ max_stored → IsValid (reset s)
unfolding reset
reset-IsValid s h =
    let (none_used, n) = used-unused s.packets in
    record {
      slots = length-release_all s.packets ∙ h;
      counted = sym n;
      quota = λ addr. omega (arith, ap (λ r. r.0) (none_used addr));
      quota_bytes = λ addr. omega (arith, ap (λ r. r.1) (none_used addr));
    }

unused_repeat :
    (n : ℕ)
    → (used (repeat n empty_packet) ≡ 0)
      × ((addr : Bytes) → usage addr (repeat n empty_packet) ≡ (0, 0))
unfolding repeat used usage is_other empty_packet
unused_repeat zero = (refl, λ addr. refl)
unused_repeat (suc n) = unused_repeat n

new-IsValid : IsValid new
unfolding new
new-IsValid =
    let (n, none_used) = unused_repeat max_stored in
    record {
      slots = length-repeat max_stored empty_packet;
      counted = sym n;
      quota = λ addr. omega (arith, ap (λ r. r.0) (none_used addr));
      quota_bytes = λ addr. omega (arith, ap (λ r. r.1) (none_used addr));
    }

purge_expired-IsValid : (now : ℕ) (s : Store) → IsValid s → IsValid (purge_expired now s).0
unfolding purge_expired
purge_expired-IsValid now s v = record {
  slots = length-purge now s.packets ∙ v.slots;
  counted = omega (arith, v.counted, used-purge now s.packets);
  quota = λ addr. omega (arith, v.quota addr, (usage-purge_le now addr s.packets).0);
  quota_bytes = λ addr. omega (arith, v.quota_bytes addr, (usage-purge_le now addr s.packets).1);
}

refuse-IsValid : (e : StoreError) (s : Store) → IsValid s → IsValid (refuse e s).0
refuse-IsValid e s v = record {
  slots = v.slots;
  counted = v.counted;
  quota = v.quota;
  quota_bytes = v.quota_bytes;
}

put-IsValid :
    (addr : Bytes) (sender : ℕ) (body : Bytes) (now : ℕ) (o : Option (List StoredPacket))
    (s : Store)
    → place addr sender body now s.packets ≡ o
    → (usage addr s.packets).0 < max_per_recipient
    → (usage addr s.packets).1 + length body ≤ max_bytes_per_recipient
    → IsValid s
    → IsValid (put o s).0
unfolding put
put-IsValid addr sender body now none s h few small v = refuse-IsValid store_full s v
put-IsValid addr sender body now (some ps) s h few small v =
    let (n, l, u, b) = used-place addr sender body now s.packets ps h in
    record {
      slots = l ∙ v.slots;
      counted = omega (arith, n, v.counted);
      quota = λ a. ground (arith, u a, bytes_eq_iff addr a, v.quota a);
      quota_bytes = λ a. ground (arith, b a, bytes_eq_iff addr a, v.quota_bytes a);
    }

store_purged-IsValid :
    (addr : Bytes) (sender : ℕ) (body : Bytes) (now : ℕ) (s : Store)
    → IsValid s
    → IsValid (store_purged addr sender body now s).0
unfolding store_purged
store_purged-IsValid addr sender body now s v =
    if_known (λ (r : Store × Result (Unit {0}) StoreError). IsValid r.0) (leb max_stored s.count) _
      _ (λ _. refuse-IsValid store_full s v)
      (λ _.
        if_known (λ (r : Store × Result (Unit {0}) StoreError). IsValid r.0)
          (leb max_per_recipient (usage addr s.packets).0
            || ltb max_bytes_per_recipient ((usage addr s.packets).1 + length body))
          _ _ (λ _. refuse-IsValid recipient_quota s v)
          (λ room.
            put-IsValid addr sender body now (place addr sender body now s.packets) s refl
              (ground arith) (ground arith) v))

store-IsValid :
    (addr : Bytes) (sender : ℕ) (body : Bytes) (now : ℕ) (s : Store)
    → IsValid s
    → IsValid (store addr sender body now s).0
unfolding store
store-IsValid addr sender body now s v =
    if_known (λ (r : Store × Result (Unit {0}) StoreError). IsValid r.0)
      (ltb max_body (length body)) _ _ (λ _. v)
      (λ _.
        store_purged-IsValid addr sender body now (purge_expired now s).0
          (purge_expired-IsValid now s v))

release_at-IsValid :
    (idx : ℕ) (p : StoredPacket) (s : Store)
    → get_elem? s.packets idx ≡ some p
    → p.in_use ≡ true
    → IsValid s
    → IsValid (release_at idx (some p) s).0
unfolding release_at
release_at-IsValid idx p s at busy v =
    let (n, l, u, b) = used-set s.packets idx p at busy in
    record {
      slots = l ∙ v.slots;
      counted = omega (arith, n, v.counted);
      quota = λ a. omega (arith, u a, v.quota a);
      quota_bytes = λ a. omega (arith, b a, v.quota_bytes a);
    }

drain_at-IsValid :
    (addr : Bytes) (o : Option ℕ) (s : Store)
    → best_from addr 0 none s.packets ≡ o
    → IsValid s
    → IsValid (drain_at o s).0
unfolding drain_at is_other
drain_at-IsValid addr none s h v = v
drain_at-IsValid addr (some idx) s h v = elim (best_from-Picked addr s.packets 0 idx none h) [
  | inl (time, e) ↦ absurd (cc)
  | inr (j, p, e, at, mine) ↦
      let here : get_elem? s.packets idx ≡ some p =
        (let same : idx ≡ j = omega (arith, e) in rw same at) in
      rw here (release_at-IsValid idx p s here (ground arith) v)
]

drain_next-IsValid :
    (addr : Bytes) (now : ℕ) (s : Store) → IsValid s → IsValid (drain_next addr now s).0
unfolding drain_next
drain_next-IsValid addr now s v =
    drain_at-IsValid addr (best_from addr 0 none (purge_expired now s).0.packets)
      (purge_expired now s).0 refl (purge_expired-IsValid now s v)

-- One call of a method.
pub data Call : Store → Store → Type 0 where
  stores :
      (addr : Bytes) (sender : ℕ) (body : Bytes) (now : ℕ) {s : Store}
      → Call s (store addr sender body now s).0
  drains : (addr : Bytes) (now : ℕ) {s : Store} → Call s (drain_next addr now s).0
  purges : (now : ℕ) {s : Store} → Call s (purge_expired now s).0
  resets : {s : Store} → Call s (reset s)

pub data Calls (s : Store) : Store → Type 0 where
  here : Calls s s
  next : {t u : Store} → Calls s t → Call t u → Calls s u

Call-IsValid : {s t : Store} → Call s t → IsValid s → IsValid t
Call-IsValid (stores addr sender body now {s}) v = store-IsValid addr sender body now s v
Call-IsValid (drains addr now {s}) v = drain_next-IsValid addr now s v
Call-IsValid (purges now {s}) v = purge_expired-IsValid now s v
Call-IsValid (resets {s}) v = reset-IsValid s v.slots

from-IsValid : {s t : Store} → IsValid s → Calls s t → IsValid t
from-IsValid v here = v
from-IsValid v (next r c) = Call-IsValid c (from-IsValid v r)

-- Every store that calls of its methods reach from the empty one has its `max_stored` slots, its
-- `count` is the number of packets in use, and no recipient has more packets or more bytes waiting
-- than its quota.
pub Calls_new-IsValid : (t : Store) → Calls new t → IsValid t
Calls_new-IsValid t r = from-IsValid new-IsValid r

-- What is kept of a packet in its slot.
pub record Carries (addr : Bytes) (sender : ℕ) (body : Bytes) (now : ℕ) (p : StoredPacket)
    : Type 0 where
  pub busy : p.in_use ≡ true
  pub recipient : p.recipient_addr ≡ addr
  pub sender_index : p.sender_index ≡ sender
  -- the bytes that a drain returns
  pub body_bytes : take p.body_len p.body ≡ body
  pub stored_at : p.stored_at_ms ≡ now

fill-Carries :
    (addr : Bytes) (sender : ℕ) (body : Bytes) (now : ℕ) (p : StoredPacket)
    → Carries addr sender body now (fill addr sender body now p)
unfolding fill
fill-Carries addr sender body now p = record {
  busy = refl;
  recipient = refl;
  sender_index = refl;
  body_bytes = take-append_left body (drop (length body) p.body);
  stored_at = refl;
}

-- What `store` did to the store `s`: a slot that was free carries the packet, and nothing else changed
-- but the count.
pub record Stored (addr : Bytes) (sender : ℕ) (body : Bytes) (now : ℕ) (s t : Store) : Type 0 where
  pub slot : ℕ
  pub before : StoredPacket
  pub packet : StoredPacket
  pub found : get_elem? s.packets slot ≡ some before
  pub free : before.in_use ≡ false
  pub carries : Carries addr sender body now packet
  pub changed : t ≡ record s { packets = set s.packets slot packet; count = s.count + 1 }

put-Stored :
    (addr : Bytes) (sender : ℕ) (body : Bytes) (now : ℕ) (o : Option (List StoredPacket))
    (s : Store)
    → place addr sender body now s.packets ≡ o
    → IsValid s
    → s.count < max_stored
    → ((put o s).1 ≡ ok tt) × Stored addr sender body now s (put o s).0
unfolding put
put-Stored addr sender body now none s h v room =
    absurd (omega (arith, place-none addr sender body now s.packets h, v.slots, v.counted, room))
put-Stored addr sender body now (some ps) s h v room =
    let (i, p, at, idle, same) = place-set addr sender body now s.packets ps h in
    (
      refl,
      record {
        slot = i;
        before = p;
        packet = fill addr sender body now p;
        found = at;
        free = idle;
        carries = fill-Carries addr sender body now p;
        changed = ap (λ qs. record s { packets = qs; count = s.count + 1 }) same;
      },
    )

-- In a valid store a body within its limit is stored whenever, behind the purge, the store and the
-- recipient have room for it: it returns `ok`, a slot that was free carries the sender, the recipient,
-- the whole body and the time, and beside the count nothing else changes.
pub store_accepts :
    (addr : Bytes) (sender : ℕ) (body : Bytes) (now : ℕ) (s : Store)
    → IsValid s
    → length body ≤ max_body
    → (purge_expired now s).0.count < max_stored
    → (usage addr (purge_expired now s).0.packets).0 < max_per_recipient
    → (usage addr (purge_expired now s).0.packets).1 + length body ≤ max_bytes_per_recipient
    → ((store addr sender body now s).1 ≡ ok tt)
      × Stored addr sender body now (purge_expired now s).0 (store addr sender body now s).0
unfolding store store_purged
store_accepts addr sender body now s v small room few few_bytes =
    let s' : Store = (purge_expired now s).0 in
    let fits : ltb max_body (length body) ≡ false = ground arith in
    let free : leb max_stored s'.count ≡ false = ground arith in
    let within : (leb max_per_recipient (usage addr s'.packets).0
          || ltb max_bytes_per_recipient ((usage addr s'.packets).1 + length body))
        ≡ false =
      ground arith in
    rw (fits, free, within)
      (put-Stored addr sender body now (place addr sender body now s'.packets) s' refl
        (purge_expired-IsValid now s v) room)
