-- ===== src/Reassembly.antt =====
-- src/transport/reassembly.rs: the accounts of fragmented messages. The words of `seen` are lists of
-- bits, the lowest first. Where a sum overflows, or a word is out of range, the program panics: the event is
-- then `stopped`.
pub mod Accounts
pub mod Examples
use bolina_rs.Prelude.{
  ℕ, zero, suc, ◌+◌, ◌-◌, ◌*◌, ◌/◌, ◌%◌, ◌^◌, Bool, true, false, not, ◌&&◌, ◌||◌, Option, none,
  some, List, [], ◌∷◌, length, set, ltb, leb, ◌==◌, if◌then◌else◌,
}
use bolina_rs.Prelude.Bits.{Word, repeat, zero_word, one_shl, meets}
use bolina_rs.Prelude.Search.{get_elem?, find_index}
use bolina_rs.ReplayWindow.{word_at, or_into}

abbrev pub max_message : ℕ
max_message = 2 ^ 20

abbrev pub memory_per_peer : ℕ
memory_per_peer = 8 * 2 ^ 20

abbrev pub sessions_per_node : ℕ
sessions_per_node = 512

abbrev pub memory_per_node : ℕ
memory_per_node = 256 * 2 ^ 20

abbrev pub incomplete_timeout_ms : ℕ
incomplete_timeout_ms = 30000

pub data PeerEvent : Type 0 where
  complete partial duplicate message_dropped : PeerEvent
  -- none of the source's events: the program stopped with a panic
  stopped : PeerEvent

pub data NodeEvent : Type 0 where
  admitted refused : NodeEvent

pub record Context : Type 0 where
  pub msg_id : ℕ
  pub total : ℕ
  pub received : ℕ
  pub bytes : ℕ
  pub updated_ms : ℕ
  pub in_use : Bool
  pub seen : List Word

unfoldable pub no_fragment : List Word
unfolding repeat zero_word
no_fragment = repeat 16 zero_word

unfoldable pub new_context : Context
unfolding no_fragment
new_context = record {
  msg_id = 0;
  total = 0;
  received = 0;
  bytes = 0;
  updated_ms = 0;
  in_use = false;
  seen = no_fragment;
}

pub record PeerReassembler : Type 0 where
  pub contexts : List Context
  pub active : ℕ
  pub bytes_used : ℕ

-- For `max_contexts`.
unfoldable pub new : ℕ → PeerReassembler
unfolding repeat new_context
new max_contexts = record { contexts = repeat max_contexts new_context; active = 0; bytes_used = 0 }

unfoldable pub free_at : ℕ → Option Context → PeerReassembler → PeerReassembler
free_at idx none r = r
free_at idx (some c) r =
    if c.in_use
    then record {
      contexts = set r.contexts idx (record c { in_use = false });
      active = r.active - 1;
      bytes_used = r.bytes_used - c.bytes;
    }
    else r

unfoldable pub free_context : ℕ → PeerReassembler → PeerReassembler
unfolding free_at get_elem?
free_context idx r = free_at idx (get_elem? r.contexts idx) r

-- The context `c` with one fragment more.
unfoldable pub with_fragment : ℕ → ℕ → ℕ → Context → Context
unfolding or_into one_shl
with_fragment now index frag_bytes c = record c {
  seen = or_into (index / 64) (one_shl (index % 64)) c.seen;
  received = c.received + 1;
  bytes = c.bytes + frag_bytes;
  updated_ms = now;
}

-- The value does not fit in a `usize` of 64 bits (`overflow-checks = true`).
abbrev pub overflows : ℕ → Bool
overflows n = leb (2 ^ 64) n

-- `ingest` from the test for a duplicate on, for the context `c` at `idx`.
unfoldable pub accept_at : ℕ → ℕ → ℕ → ℕ → Context → PeerReassembler → PeerReassembler × PeerEvent
unfolding meets one_shl free_context with_fragment
accept_at now idx index frag_bytes c r =
    let r' : PeerReassembler = record r {
      contexts = set r.contexts idx (with_fragment now index frag_bytes c);
      bytes_used = r.bytes_used + frag_bytes;
    } in
    if leb (length c.seen) (index / 64)
    then (r, stopped)
    else if meets (word_at c.seen (index / 64)) (one_shl (index % 64))
    then (r, duplicate)
    else if overflows (c.bytes + frag_bytes)
    then (r, stopped)
    else if ltb max_message (c.bytes + frag_bytes)
    then (free_context idx r, message_dropped)
    else if overflows (r.bytes_used + frag_bytes)
    then (r, stopped)
    else if ltb memory_per_peer (r.bytes_used + frag_bytes)
    then (free_context idx r, message_dropped)
    else if leb c.total (c.received + 1)
    then (free_context idx r', complete)
    else (r', partial)

unfoldable pub created : ℕ → ℕ → ℕ → Context
unfolding no_fragment
created now msg_id total = record {
  msg_id = msg_id;
  total = total;
  received = 0;
  bytes = 0;
  updated_ms = now;
  in_use = true;
  seen = no_fragment;
}

-- A new context at the free slot.
unfoldable pub create_at :
    ℕ → ℕ → ℕ → ℕ → ℕ → Option ℕ → PeerReassembler → PeerReassembler × PeerEvent
unfolding accept_at created
create_at now msg_id index total frag_bytes none r = (r, message_dropped)
create_at now msg_id index total frag_bytes (some idx) r =
    if leb (2 ^ 8) (r.active + 1)
    then (r, stopped)
    else accept_at now idx index frag_bytes (created now msg_id total) (record r {
      contexts = set r.contexts idx (created now msg_id total);
      active = r.active + 1;
    })

-- The context that was found.
unfoldable pub continue_at :
    ℕ → ℕ → ℕ → ℕ → ℕ → Option Context → PeerReassembler → PeerReassembler × PeerEvent
unfolding accept_at free_context
continue_at now idx index total frag_bytes none r = (r, message_dropped)
continue_at now idx index total frag_bytes (some c) r =
    if not (c.total == total)
    then (free_context idx r, message_dropped)
    else accept_at now idx index frag_bytes c r

unfoldable pub is_message : ℕ → Context → Bool
is_message msg_id c = c.in_use && c.msg_id == msg_id

unfoldable pub ingest_at :
    ℕ → ℕ → ℕ → ℕ → ℕ → Option ℕ → PeerReassembler → PeerReassembler × PeerEvent
unfolding create_at continue_at find_index get_elem?
ingest_at now msg_id index total frag_bytes (some idx) r =
    continue_at now idx index total frag_bytes (get_elem? r.contexts idx) r
ingest_at now msg_id index total frag_bytes none r =
    create_at now msg_id index total frag_bytes
      (find_index (λ (c : Context). not c.in_use) r.contexts) r

-- The first argument is `MAX_FRAGMENTS`.
pub ingest : ℕ → ℕ → ℕ → ℕ → ℕ → ℕ → PeerReassembler → PeerReassembler × PeerEvent
unfolding ingest_at find_index is_message
ingest max_fragments now msg_id index total frag_bytes r =
    if total == 0 || leb total index || ltb max_fragments total
    then (r, message_dropped)
    else ingest_at now msg_id index total frag_bytes (find_index (is_message msg_id) r.contexts) r

-- `now_ms.wrapping_sub(updated_ms) >= INCOMPLETE_TIMEOUT_MS`
unfoldable pub too_old : ℕ → Context → Bool
too_old now c = leb incomplete_timeout_ms ((now + 2 ^ 64 - c.updated_ms) % 2 ^ 64)

unfoldable pub evict_at : ℕ → ℕ → Option Context → PeerReassembler → PeerReassembler
unfolding free_context too_old
evict_at now i none r = r
evict_at now i (some c) r = if c.in_use && too_old now c then free_context i r else r

-- The loop, over `n` contexts from `i` on.
unfoldable pub evict_from : ℕ → ℕ → ℕ → PeerReassembler → PeerReassembler
unfolding evict_at get_elem?
evict_from now i zero r = r
evict_from now i (suc n) r = evict_from now (i + 1) n (evict_at now i (get_elem? r.contexts i) r)

pub evict_expired : ℕ → PeerReassembler → PeerReassembler
unfolding evict_from
evict_expired now r = evict_from now 0 (length r.contexts) r

pub record NodeCapacity : Type 0 where
  pub sessions : ℕ
  pub bytes : ℕ

abbrev pub new_node : NodeCapacity
new_node = record { sessions = 0; bytes = 0 }

pub try_admit_session : NodeCapacity → NodeCapacity × NodeEvent
try_admit_session n =
    if leb sessions_per_node n.sessions
    then (n, refused)
    else (record n { sessions = n.sessions + 1 }, admitted)

pub release_session : NodeCapacity → NodeCapacity
release_session n = record n { sessions = n.sessions - 1 }

-- `none` where the sum overflows and the program panics.
pub within_memory : ℕ → NodeCapacity → Option Bool
within_memory additional n =
    if overflows (n.bytes + additional)
    then none
    else some (leb (n.bytes + additional) memory_per_node)

-- `saturating_add`
pub add_bytes : ℕ → NodeCapacity → NodeCapacity
add_bytes k n = record n {
  bytes = if ltb (2 ^ 64 - 1) (n.bytes + k) then 2 ^ 64 - 1 else n.bytes + k;
}

pub release_bytes : ℕ → NodeCapacity → NodeCapacity
release_bytes k n = record n { bytes = n.bytes - k }
