-- ===== src/RelayStore.antt =====
-- src/transport/relay_store.rs: the store of packets that wait for their recipients. A method returns
-- the new store beside its result; `count` never falls below 0, since it
-- counts the packets in use. The program stops if `refused_quota`, a `u64`, overflows.

pub mod Slots
pub mod Invariant
pub mod Examples
use bolina_rs.Prelude.{
  ℕ, zero, suc, ◌+◌, ◌-◌, ◌*◌, ◌%◌, ◌^◌, Bool, true, false, not, ◌&&◌, ◌||◌, Option, none, some,
  List, [], ◌∷◌, ◌++◌, length, take, drop, set, ltb, leb, ◌==◌, if◌then◌else◌, Result, ok, err,
}
use bolina_rs.Prelude.Bytes.{Bytes, bytes_eq}
use bolina_rs.Prelude.Search.{get_elem?}

abbrev pub max_body : ℕ
max_body = 2048

abbrev pub max_per_recipient : ℕ
max_per_recipient = 64

abbrev pub max_bytes_per_recipient : ℕ
max_bytes_per_recipient = 4 * 1024 * 1024

abbrev pub ttl_ms : ℕ
ttl_ms = 120 * 1000

abbrev pub max_stored : ℕ
max_stored = 1024

pub data StoreError : Type 0 where
  body_too_large recipient_quota store_full : StoreError

pub record StoredPacket : Type 0 where
  pub in_use : Bool
  pub sender_index : ℕ
  pub recipient_addr : Bytes
  pub body_len : ℕ
  pub body : Bytes
  pub stored_at_ms : ℕ

pub record DrainedPacket : Type 0 where
  pub sender_index : ℕ
  pub body : Bytes

pub record Store : Type 0 where
  pub packets : List StoredPacket
  pub count : ℕ
  pub refused_quota : ℕ

unfoldable pub repeat : {A : Type 0} → ℕ → A → List A
repeat zero x = []
repeat (suc n) x = x ∷ repeat n x

-- `StoredPacket::default()`
unfoldable pub empty_packet : StoredPacket
unfolding repeat
empty_packet = record {
  in_use = false;
  sender_index = 0;
  recipient_addr = repeat 16 0;
  body_len = 0;
  body = repeat max_body 0;
  stored_at_ms = 0;
}

unfoldable pub new : Store
unfolding repeat
new = record { packets = repeat max_stored empty_packet; count = 0; refused_quota = 0 }

release_all : List StoredPacket → List StoredPacket
release_all [] = []
release_all (p ∷ ps) = record p { in_use = false } ∷ release_all ps

pub reset : Store → Store
unfolding release_all
reset s = record { packets = release_all s.packets; count = 0; refused_quota = 0 }

-- `now_ms >= p.stored_at_ms && now_ms - p.stored_at_ms >= TTL_MS`, of a packet in use.
unfoldable pub is_stale : ℕ → StoredPacket → Bool
is_stale now p = p.in_use && (leb p.stored_at_ms now && leb ttl_ms (now - p.stored_at_ms))

-- The loop of `purge_expired`: the packets, and how many it released.
unfoldable pub purge : ℕ → List StoredPacket → List StoredPacket × ℕ
unfolding is_stale
purge now [] = ([], 0)
purge now (p ∷ ps) =
    let (ps', purged) = purge now ps in
    if is_stale now p then (record p { in_use = false } ∷ ps', purged + 1) else (p ∷ ps', purged)

unfoldable pub purge_expired : ℕ → Store → Store × ℕ
unfolding purge
purge_expired now s =
    let (ps, purged) = purge now s.packets in
    (record s { packets = ps; count = s.count - purged }, purged)

-- `!p.in_use || p.recipient_addr != recipient_addr`
unfoldable pub is_other : Bytes → StoredPacket → Bool
is_other addr p = not p.in_use || not (bytes_eq p.recipient_addr addr)

-- `recip_count` and `recip_bytes`.
unfoldable pub usage : Bytes → List StoredPacket → ℕ × ℕ
unfolding is_other
usage addr [] = (0, 0)
usage addr (p ∷ ps) =
    let (n, bytes) = usage addr ps in
    if is_other addr p then (n, bytes) else (n + 1, bytes + p.body_len)

unfoldable pub fill : Bytes → ℕ → Bytes → ℕ → StoredPacket → StoredPacket
fill addr sender body now p = record {
  in_use = true;
  sender_index = sender;
  recipient_addr = addr;
  body_len = length body;
  body = body ++ drop (length body) p.body;
  stored_at_ms = now;
}

abbrev pub behind : StoredPacket → Option (List StoredPacket) → Option (List StoredPacket)
behind p none = none
behind p (some ps) = some (p ∷ ps)

-- The first packet that is not in use is filled.
unfoldable pub place : Bytes → ℕ → Bytes → ℕ → List StoredPacket → Option (List StoredPacket)
unfolding fill
place addr sender body now [] = none
place addr sender body now (p ∷ ps) =
    let later = behind p (place addr sender body now ps) in
    if p.in_use then later else some (fill addr sender body now p ∷ ps)

abbrev pub refuse : StoreError → Store → Store × Result (Unit {0}) StoreError
refuse e s = (record s { refused_quota = s.refused_quota + 1 }, err e)

unfoldable pub put : Option (List StoredPacket) → Store → Store × Result (Unit {0}) StoreError
put none s = refuse store_full s
put (some ps) s = (record s { packets = ps; count = s.count + 1 }, ok tt)

-- `store` behind the purge.
unfoldable pub store_purged : Bytes → ℕ → Bytes → ℕ → Store → Store × Result (Unit {0}) StoreError
unfolding usage put place
store_purged addr sender body now s =
    if leb max_stored s.count
    then refuse store_full s
    else if leb max_per_recipient (usage addr s.packets).0
        || ltb max_bytes_per_recipient ((usage addr s.packets).1 + length body)
    then refuse recipient_quota s
    else put (place addr sender body now s.packets) s

pub store : Bytes → ℕ → Bytes → ℕ → Store → Store × Result (Unit {0}) StoreError
unfolding purge_expired store_purged
store addr sender body now s =
    if ltb max_body (length body)
    then (s, err body_too_large)
    else store_purged addr sender body now (purge_expired now s).0

-- The loop of `drain_next` from index `i`: the best packet so far, by its index and its time.
unfoldable pub best_from : Bytes → ℕ → Option (ℕ × ℕ) → List StoredPacket → Option ℕ
unfolding is_other
best_from addr i none [] = none
best_from addr i (some (b, time)) [] = some b
best_from addr i none (p ∷ ps) = elim (is_other addr p) [
  | true ↦ best_from addr (i + 1) none ps
  | false ↦ best_from addr (i + 1) (some (i, p.stored_at_ms)) ps
]
best_from addr i (some (b, time)) (p ∷ ps) =
    elim (is_other addr p || (ltb time p.stored_at_ms || (p.stored_at_ms == time && ltb b i))) [
      | true ↦ best_from addr (i + 1) (some (b, time)) ps
      | false ↦ best_from addr (i + 1) (some (i, p.stored_at_ms)) ps
    ]

unfoldable pub release_at : ℕ → Option StoredPacket → Store → Store × Option DrainedPacket
release_at idx none s = (s, none)
release_at idx (some p) s = (
  record s { packets = set s.packets idx (record p { in_use = false }); count = s.count - 1 },
  some (record { sender_index = p.sender_index; body = take p.body_len p.body }),
)

unfoldable pub drain_at : Option ℕ → Store → Store × Option DrainedPacket
unfolding release_at get_elem?
drain_at none s = (s, none)
drain_at (some idx) s = release_at idx (get_elem? s.packets idx) s

pub drain_next : Bytes → ℕ → Store → Store × Option DrainedPacket
unfolding drain_at best_from purge_expired
drain_next addr now s =
    drain_at (best_from addr 0 none (purge_expired now s).0.packets) (purge_expired now s).0
