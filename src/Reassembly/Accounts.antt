-- ===== src/Reassembly/Accounts.antt =====
-- src/transport/reassembly.rs: the counters agree with the contexts, and the limits of a peer hold.
use bolina_rs.Prelude.{
  ℕ, zero, suc, ◌+◌, ◌/◌, ◌%◌, ◌^◌, ◌≤◌, ◌<◌, ◌≡◌, refl, sym, ap, ◌∙◌, true, false, not, ◌&&◌, ◌||◌,
  Option, none, some, List, [], ◌∷◌, length, set, leb, ltb, ◌==◌, if◌then◌else◌, arith, Bool-cases,
  Option-cases, inl, inr, All,
}
use bolina_rs.Prelude.Lists.{length-set_same}
use bolina_rs.Prelude.Tests.{if_known}
use bolina_rs.Prelude.Bits.{repeat, meets, one_shl}
use bolina_rs.Prelude.Search.{
  get_elem?, get_elem?-set, find_index, find_index-some, All-set, All-elem,
}
use bolina_rs.ReplayWindow.{word_at}
use bolina_rs.Reassembly.{
  Context, PeerReassembler, PeerEvent, max_message, memory_per_peer, new, new_context, free_at,
  free_context, with_fragment, overflows, accept_at, created, create_at, continue_at, is_message,
  ingest_at, ingest, too_old, evict_at, evict_from, evict_expired,
}

abbrev pub live_bytes : Context → ℕ
live_bytes c = if c.in_use then c.bytes else 0

abbrev pub live_one : Context → ℕ
live_one c = if c.in_use then 1 else 0

abbrev pub sum : (Context → ℕ) → List Context → ℕ
sum w [] = 0
sum w (c ∷ cs) = w c + sum w cs

sum-set :
    (w : Context → ℕ) (cs : List Context) (i : ℕ) (c c' : Context)
    → get_elem? cs i ≡ some c
    → sum w (set cs i c') + w c ≡ sum w cs + w c'
sum-set w [] i c c' at = absurd (cc (at))
sum-set w (x ∷ cs) zero c c' at = (let e : x ≡ c = cc (at) in rw e (omega arith))
sum-set w (x ∷ cs) (suc i) c c' at = omega (arith, sum-set w cs i c c' at)

sum-le : (cs : List Context) → sum live_one cs ≤ length cs
sum-le [] = omega arith
sum-le (c ∷ cs) = ground (arith, sum-le cs)

-- What every call keeps.
pub record IsValid (n : ℕ) (r : PeerReassembler) : Type 0 where
  pub count : length r.contexts ≡ n
  pub active : r.active ≡ sum live_one r.contexts
  pub bytes_used : r.bytes_used ≡ sum live_bytes r.contexts
  pub message_bound : All (λ c. live_bytes c ≤ max_message) r.contexts
  pub peer_bound : r.bytes_used ≤ memory_per_peer

module _ (n : ℕ) (few : n < 256) where
  free_context-IsValid : (i : ℕ) (r : PeerReassembler) → IsValid n r → IsValid n (free_context i r)
  unfolding free_context free_at
  free_context-IsValid i r v = elim (Option-cases (get_elem? r.contexts i)) [
    | inl out ↦ rw out v
    | inr (c, at) ↦ elim (Bool-cases c.in_use) [
      | inr idle ↦ rw (at, idle) v
      | inl live ↦
          let c' : Context = record c { in_use = false } in
          let ones = sum-set live_one r.contexts i c c' at in
          let bytes = sum-set live_bytes r.contexts i c c' at in
          let one : live_one c ≡ 1 = ground (arith, live) in
          let size : live_bytes c ≡ c.bytes = ground (arith, live) in
          rw (at, live)
            (record {
              count = length-set_same r.contexts i c' ∙ v.count;
              active = omega (arith, ones, one, v.active, v.count, few, sum-le r.contexts);
              bytes_used = omega (arith, bytes, size, v.bytes_used);
              message_bound =
                  All-set (λ c. live_bytes c ≤ max_message) r.contexts i c' (omega arith)
                    v.message_bound;
              peer_bound = omega (arith, v.peer_bound);
            })
    ]
  ]

  abbrev Returned : Type 0
  Returned = PeerReassembler × PeerEvent

  with_fragment-IsValid :
      (now idx index frag_bytes : ℕ) (c : Context) (r : PeerReassembler)
      → IsValid n r
      → get_elem? r.contexts idx ≡ some c
      → c.in_use ≡ true
      → c.bytes + frag_bytes ≤ max_message
      → r.bytes_used + frag_bytes ≤ memory_per_peer
      → IsValid n (record r {
        contexts = set r.contexts idx (with_fragment now index frag_bytes c);
        bytes_used = r.bytes_used + frag_bytes;
      })
  unfolding with_fragment
  with_fragment-IsValid now idx index frag_bytes c r v at live fits fits_peer =
      let c' : Context = with_fragment now index frag_bytes c in
      let ones = sum-set live_one r.contexts idx c c' at in
      let bytes = sum-set live_bytes r.contexts idx c c' at in
      let before : live_bytes c ≡ c.bytes = ground (arith, live) in
      let after : live_bytes c' ≡ c.bytes + frag_bytes = ground (arith, live) in
      let same : live_one c' ≡ live_one c = refl in
      let bound : live_bytes c ≤ max_message =
        All-elem (λ c. live_bytes c ≤ max_message) r.contexts idx c v.message_bound at in
      record {
        count = length-set_same r.contexts idx c' ∙ v.count;
        active = omega (arith, ones, same, v.active);
        bytes_used = omega (arith, bytes, before, after, bound, v.bytes_used, v.peer_bound);
        message_bound =
            All-set (λ c. live_bytes c ≤ max_message) r.contexts idx c' (omega (arith, after, fits))
              v.message_bound;
        peer_bound = fits_peer;
      }

  accept_at-IsValid :
      (now idx index frag_bytes : ℕ) (c : Context) (r : PeerReassembler)
      → IsValid n r
      → get_elem? r.contexts idx ≡ some c
      → c.in_use ≡ true
      → IsValid n (accept_at now idx index frag_bytes c r).0
  unfolding accept_at with_fragment
  accept_at-IsValid now idx index frag_bytes c r v at live =
      let c' : Context = with_fragment now index frag_bytes c in
      let r' : PeerReassembler = record r {
        contexts = set r.contexts idx c';
        bytes_used = r.bytes_used + frag_bytes;
      } in
      let P : Returned → Type 0 = λ x. IsValid n x.0 in
      let dropped = free_context-IsValid idx r v in
      if_known P (leb (length c.seen) (index / 64)) _ _ (λ _. v)
        (λ _.
          if_known P (meets (word_at c.seen (index / 64)) (one_shl (index % 64))) _ _ (λ _. v)
            (λ _.
              if_known P (overflows (c.bytes + frag_bytes)) _ _ (λ _. v)
                (λ _.
                  if_known P (ltb max_message (c.bytes + frag_bytes)) _ _ (λ _. dropped)
                    (λ short.
                      if_known P (overflows (r.bytes_used + frag_bytes)) _ _ (λ _. v)
                        (λ _.
                          if_known P (ltb memory_per_peer (r.bytes_used + frag_bytes)) _ _
                            (λ _. dropped)
                            (λ within.
                              let grown : IsValid n r' =
                                with_fragment-IsValid now idx index frag_bytes c r v at live
                                  (ground (arith, short)) (ground (arith, within)) in
                              if_known P (leb c.total (c.received + 1)) _ _
                                (λ _. free_context-IsValid idx r' grown) (λ _. grown)))))))

  created-IsValid :
      (now msg_id total idx : ℕ) (c : Context) (r : PeerReassembler)
      → IsValid n r
      → get_elem? r.contexts idx ≡ some c
      → c.in_use ≡ false
      → IsValid n (record r {
        contexts = set r.contexts idx (created now msg_id total);
        active = r.active + 1;
      })
  unfolding created
  created-IsValid now msg_id total idx c r v at idle =
      let c' : Context = created now msg_id total in
      let ones = sum-set live_one r.contexts idx c c' at in
      let bytes = sum-set live_bytes r.contexts idx c c' at in
      let none_before : live_bytes c ≡ 0 = ground (arith, idle) in
      let no_one : live_one c ≡ 0 = ground (arith, idle) in
      let room = sum-le (set r.contexts idx c') in
      let size = length-set_same r.contexts idx c' in
      record {
        count = size ∙ v.count;
        active = omega (arith, ones, no_one, v.active, room, size, v.count, few);
        bytes_used = omega (arith, bytes, none_before, v.bytes_used);
        message_bound =
            All-set (λ c. live_bytes c ≤ max_message) r.contexts idx c' (omega arith)
              v.message_bound;
        peer_bound = v.peer_bound;
      }

  ingest-IsValid :
      (max_fragments now msg_id index total frag_bytes : ℕ) (r : PeerReassembler)
      → IsValid n r
      → IsValid n (ingest max_fragments now msg_id index total frag_bytes r).0
  unfolding ingest ingest_at create_at continue_at is_message created
  ingest-IsValid max_fragments now msg_id index total frag_bytes r v =
      if_known (λ (x : Returned). IsValid n x.0)
        (total == 0 || leb total index || ltb max_fragments total) _ _ (λ _. v)
        (λ _. elim (Option-cases (find_index (is_message msg_id) r.contexts)) [
          | inr (idx, found) ↦
              let (c, at, hit) = find_index-some (is_message msg_id) r.contexts idx found in
              rw (found, at)
                (if_known (λ (x : Returned). IsValid n x.0) (not (c.total == total)) _ _
                  (λ _. free_context-IsValid idx r v)
                  (λ _. accept_at-IsValid now idx index frag_bytes c r v at (ground (arith, hit))))
          | inl new_message ↦
              elim (Option-cases (find_index (λ (c : Context). not c.in_use) r.contexts)) [
                | inl full ↦ rw (new_message, full) v
                | inr (idx, free) ↦
                    let (c, at, idle) =
                      find_index-some (λ (c : Context). not c.in_use) r.contexts idx free in
                    let r' : PeerReassembler = record r {
                      contexts = set r.contexts idx (created now msg_id total);
                      active = r.active + 1;
                    } in
                    rw (new_message, free)
                      (if_known (λ (x : Returned). IsValid n x.0) (leb (2 ^ 8) (r.active + 1)) _ _
                        (λ _. v)
                        (λ _.
                          accept_at-IsValid now idx index frag_bytes (created now msg_id total) r'
                            (created-IsValid now msg_id total idx c r v at (ground (arith, idle)))
                            (get_elem?-set r.contexts idx c (created now msg_id total) at) refl))
              ]
        ])

  evict_at-IsValid :
      (now i : ℕ) (o : Option Context) (r : PeerReassembler)
      → IsValid n r
      → IsValid n (evict_at now i o r)
  unfolding evict_at
  evict_at-IsValid now i none r v = v
  evict_at-IsValid now i (some c) r v =
      if_known (IsValid n) (c.in_use && too_old now c) _ _ (λ _. free_context-IsValid i r v)
        (λ _. v)

  evict_from-IsValid :
      (now i k : ℕ) (r : PeerReassembler) → IsValid n r → IsValid n (evict_from now i k r)
  unfolding evict_from
  evict_from-IsValid now i zero r v = v
  evict_from-IsValid now i (suc k) r v =
      evict_from-IsValid now (i + 1) k (evict_at now i (get_elem? r.contexts i) r)
        (evict_at-IsValid now i (get_elem? r.contexts i) r v)

-- The calls: a fragment that arrives, and an eviction.
pub data Arrivals (max_fragments : ℕ) (s : PeerReassembler) : PeerReassembler → Type 0 where
  start : Arrivals max_fragments s s
  arrives :
      (now msg_id index total frag_bytes : ℕ) {r : PeerReassembler}
      → Arrivals max_fragments s r
      → Arrivals max_fragments s (ingest max_fragments now msg_id index total frag_bytes r).0
  evicts :
      (now : ℕ) {r : PeerReassembler}
      → Arrivals max_fragments s r
      → Arrivals max_fragments s (evict_expired now r)

Arrivals-IsValid :
    (n max_fragments : ℕ)
    → n < 256
    → {s r : PeerReassembler} → IsValid n s
    → Arrivals max_fragments s r
    → IsValid n r
unfolding evict_expired
Arrivals-IsValid n max_fragments few v start = v
Arrivals-IsValid n max_fragments few v (arrives now msg_id index total frag_bytes {r} calls) =
    ingest-IsValid n few max_fragments now msg_id index total frag_bytes r
      (Arrivals-IsValid n max_fragments few v calls)
Arrivals-IsValid n max_fragments few v (evicts now {r} calls) =
    evict_from-IsValid n few now 0 (length r.contexts) r
      (Arrivals-IsValid n max_fragments few v calls)

repeated :
    (n : ℕ)
    → (length (repeat n new_context) ≡ n)
      × (sum live_one (repeat n new_context) ≡ 0)
      × (sum live_bytes (repeat n new_context) ≡ 0)
      × All (λ c. live_bytes c ≤ max_message) (repeat n new_context)
unfolding repeat new_context
repeated zero = (refl, refl, refl, tt)
repeated (suc n) =
    let (a, b, c, d) = repeated n in
    (ap suc a, omega (arith, b), omega (arith, c), (omega arith, d))

-- Whatever fragments arrive at a new reassembler of fewer than 256 contexts, of whatever length and for
-- whatever limit of fragments, and however it evicts:
-- `active` is the number of messages in progress and `bytes_used` the sum of their bytes, no message
-- has more than 1 MiB, and all together no more than 8 MiB.
pub Arrivals-new-IsValid :
    (n max_fragments : ℕ) (r : PeerReassembler)
    → n < 256
    → Arrivals max_fragments (new n) r
    → IsValid n r
unfolding new
Arrivals-new-IsValid n max_fragments r few calls =
    let (a, b, c, d) = repeated n in
    Arrivals-IsValid n max_fragments few
      (record {
        count = a;
        active = sym b;
        bytes_used = sym c;
        message_bound = d;
        peer_bound = omega arith;
      })
      calls
