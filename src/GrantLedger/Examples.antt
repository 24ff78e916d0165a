-- ===== src/GrantLedger/Examples.antt =====
-- Small logs of src/state/ledger.rs, and the theorems on them.
use bolina_rs.Prelude.{
  ℕ, zero, suc, ◌/◌, ◌%◌, ◌<◌, ◌≤◌, ◌≡◌, refl, true, false, List, [], ◌∷◌, ◌++◌, ◌⊎◌, length, All,
  ok, arith,
}
use bolina_rs.Prelude.Bytes.{Bytes, to_be_bytes, bytes_eq}
use bolina_rs.Prelude.Maps.{Map, contains, contains_key, lookup, insert, insert_key, remove}
use bolina_rs.GrantLedger.Disk.{done, write_failed, write_synced}
use bolina_rs.GrantLedger.Log.{empty, replay, orphans}
use bolina_rs.GrantLedger.Replay.{
  LogRecord, committed, revoked, IsRecord, bytes_of, log_bytes, apply_all, replay-log,
}
use bolina_rs.GrantLedger.Durable.{IsDurable}
use bolina_rs.GrantLedger.Operations.{
  Reach, here, next, commits, publishes, opened_on, recovered_from, restart_restores,
  commit_consumed-atomic,
}
use bolina_rs.GrantLedger.TwoPhase.{IsTwoPhase, IsTwoPhase-empty}
use bolina_rs.GrantLedger.Calls.{Call, Calls, Calls-IsTwoPhase, published_forever}
use bolina_rs.GrantLedger.Orphans.{recover-orphans}
use bolina_rs.GrantLedger.Losses.{
  image_records, prune_expired-forgets, append-lost, commit_consumed-overwrites,
}
use bolina_rs.GrantLedger.{
  GrantLedger, Recovery, PruneIo, commit_below_cap, remove_all, open_ledger, recover, append,
  commit_consumed, mark_published, prune_expired, expired_ids, drop_expired, is_published,
  is_consumed, consume, image, max_live,
}

fill : ℕ → ℕ → Bytes
fill zero b = []
fill (suc n) b = b ∷ fill n b

abbrev grant_a : Bytes
grant_a = fill 16 1

abbrev grant_b : Bytes
grant_b = fill 16 2

one_log : List LogRecord
one_log = committed grant_a 50 ∷ []

one_log-IsRecord : All IsRecord one_log
unfolding one_log fill
one_log-IsRecord = ((refl, omega arith), tt)

replay-log_example : replay (log_bytes one_log ++ 3 ∷ fill 31 9) ≡ (apply_all one_log empty, ok tt)
unfolding fill bytes_of to_be_bytes
replay-log_example =
    replay-log one_log (revoked (fill 32 9) 60) (3 ∷ fill 31 9)
      (0 ∷ 0 ∷ 0 ∷ 0 ∷ 0 ∷ 0 ∷ 0 ∷ 60 ∷ []) 9 one_log-IsRecord (refl, omega arith) refl

abbrev fresh_ledger : GrantLedger
fresh_ledger = (recover true (opened_on (log_bytes []))).0

abbrev spent : GrantLedger
spent =
    (mark_published done grant_a
      (commit_consumed done PruneIo.pruned grant_a 50 10 fresh_ledger).0).0

spent-Reach : Reach fresh_ledger spent
unfolding fill recover expired_ids log_bytes replay
spent-Reach =
    next (next here (commits PruneIo.pruned grant_a 50 10 (refl, omega arith) (λ _ _. refl)))
      (publishes grant_a refl)

restart_restores_example :
    (s : GrantLedger) × (open_ledger spent.file.synced true true true ≡ ok s)
    × ((recover true s).0.caches ≡ spent.caches)
    × ((recover true s).1
        ≡ ok (record {
          orphans = orphans spent.caches;
          consumed_count = length spent.caches.consumed;
          revoked_count = length spent.caches.revoked;
        }))
restart_restores_example = restart_restores [] spent tt spent-Reach

fresh-IsDurable : IsDurable fresh_ledger
fresh-IsDurable = recovered_from [] tt

fresh-IsTwoPhase : IsTwoPhase fresh_ledger.caches
unfolding recover log_bytes replay
fresh-IsTwoPhase = IsTwoPhase-empty

nothing_expired : expired_ids 10 fresh_ledger.caches.consumed ≡ []
unfolding recover expired_ids log_bytes replay
nothing_expired = refl

-- The write stops behind five bytes.
commit_consumed-atomic_example :
    let s' : GrantLedger =
      (commit_consumed (write_failed 5) PruneIo.pruned grant_a 50 10 fresh_ledger).0 in
    ((replay s'.file.written ≡ (fresh_ledger.caches, ok tt))
      ⊎ (replay s'.file.written ≡ (consume grant_a 50 fresh_ledger.caches, ok tt)))
    × ((commit_consumed (write_failed 5) PruneIo.pruned grant_a 50 10 fresh_ledger).1 ≡ ok tt
        → replay s'.file.written ≡ (s'.caches, ok tt))
unfolding fill
commit_consumed-atomic_example =
    commit_consumed-atomic (write_failed 5) PruneIo.pruned grant_a 50 10 fresh_ledger
      fresh-IsDurable (refl, omega arith) nothing_expired

spent-Calls : Calls fresh_ledger spent
spent-Calls =
    Calls.next (Calls.next Calls.here (Call.commits done PruneIo.pruned grant_a 50 10))
      (Call.publishes done grant_a)

Calls-IsTwoPhase_small : IsTwoPhase spent.caches
Calls-IsTwoPhase_small = Calls-IsTwoPhase fresh_ledger spent fresh-IsTwoPhase spent-Calls

spent-IsTwoPhase : IsTwoPhase spent.caches
spent-IsTwoPhase = Calls-IsTwoPhase fresh_ledger spent fresh-IsTwoPhase spent-Calls

published_a : is_published grant_a spent ≡ true
unfolding is_published recover log_bytes replay commit_consumed mark_published fill contains
    contains_key lookup insert_key bytes_eq commit_below_cap append write_synced
published_a = refl

abbrev later : GrantLedger
later = (commit_consumed done PruneIo.pruned grant_b 60 20 spent).0

published_forever_example :
    (is_published grant_a later ≡ true)
    × (is_consumed grant_a later ≡ false)
    × (commit_consumed (write_failed 3) PruneIo.lock_lost grant_a 50 30 later ≡ (later, ok tt))
    × (mark_published (write_failed 3) grant_a later ≡ (later, ok tt))
published_forever_example =
    published_forever grant_a spent later (write_failed 3) PruneIo.lock_lost 50 30 spent-IsTwoPhase
      published_a (Calls.next Calls.here (Call.commits done PruneIo.pruned grant_b 60 20))

later-Reach : Reach fresh_ledger later
unfolding fill recover expired_ids log_bytes replay remove contains contains_key commit_consumed
    commit_below_cap append write_synced lookup bytes_eq insert_key insert mark_published
later-Reach =
    next spent-Reach (commits PruneIo.pruned grant_b 60 20 (refl, omega arith) (λ _ _. refl))

recover-orphans_example :
    (s : GrantLedger) × (r : Recovery) × (open_ledger later.file.synced true true true ≡ ok s)
    × ((recover true s).1 ≡ ok r)
    × (contains grant_b r.orphans ≡ is_consumed grant_b later)
    × (is_published grant_b later ≡ true → contains grant_b r.orphans ≡ false)
recover-orphans_example = recover-orphans grant_b later later-Reach

-- One record of a revocation is torn behind three bytes; a commit follows.
append-lost_example :
    let s : GrantLedger = (recover true (opened_on (log_bytes one_log ++ 3 ∷ 9 ∷ 9 ∷ []))).0 in
    (s.caches ≡ apply_all one_log empty)
    × ((append done (bytes_of (committed grant_b 70)) s).1 ≡ ok tt)
    × (replay (append done (bytes_of (committed grant_b 70)) s).0.file.synced
        ≡ (apply_all one_log empty, ok tt))
unfolding fill bytes_of to_be_bytes
append-lost_example =
    append-lost one_log (revoked (fill 32 9) 60) (committed grant_b 70) 3 (9 ∷ 9 ∷ [])
      (fill 29 9 ++ (0 ∷ 0 ∷ 0 ∷ 0 ∷ 0 ∷ 0 ∷ 0 ∷ 60 ∷ [])) 9 one_log-IsRecord (refl, omega arith)
      refl (omega arith)

-- One grant is published, one is expired.
abbrev half_spent : GrantLedger
half_spent = record {
  is_open = true;
  read_only = false;
  file = record { written = []; synced = []; pos = 0 };
  caches = record {
    consumed = (grant_b, 5) ∷ [];
    consumed_order = grant_b ∷ [];
    published = grant_a ∷ [];
    revoked = [];
    first_receipts = [];
  };
}

prune_expired-forgets_example :
    let t : GrantLedger = (prune_expired PruneIo.pruned 10 half_spent).0 in
    ((prune_expired PruneIo.pruned 10 half_spent).1 ≡ ok tt)
    × (is_published grant_a t ≡ is_published grant_a half_spent)
    × (is_published grant_a (recover true t).0 ≡ false)
    × ((replay t.file.written).1 ≡ ok tt)
unfolding fill expired_ids drop_expired remove bytes_eq image_records
prune_expired-forgets_example = prune_expired-forgets grant_a 10 grant_b [] half_spent refl refl tt

-- Two bytes for each key below `n`.
many : ℕ → Map ℕ
many zero = []
many (suc n) = (n / 256 ∷ n % 256 ∷ [], 50) ∷ many n

-- At the cap, with one expired grant, behind a log whose bytes do not matter.
abbrev full : GrantLedger
full = record {
  is_open = true;
  read_only = false;
  file = record { written = []; synced = []; pos = 0 };
  caches = record {
    consumed = (9 ∷ 9 ∷ [], 5) ∷ many 1023;
    consumed_order = [];
    published = [];
    revoked = [];
    first_receipts = [];
  };
}

full_new : contains_key (8 ∷ 8 ∷ []) full.caches.consumed ≡ false
unfolding contains_key lookup bytes_eq many
full_new = refl

full_at_cap : max_live ≤ length full.caches.consumed
unfolding many
full_at_cap = omega arith

full_expired : expired_ids 10 full.caches.consumed ≡ (9 ∷ 9 ∷ []) ∷ []
unfolding expired_ids many
full_expired = refl

full_kept :
    (drop_expired ((9 ∷ 9 ∷ []) ∷ []) full.caches).consumed
    ≡ (1022 / 256 ∷ 1022 % 256 ∷ [], 50) ∷ many 1022
unfolding drop_expired remove_all remove bytes_eq many
full_kept = refl

full_room : suc (length (many 1022)) < max_live
unfolding many
full_room = omega arith

commit_consumed-overwrites_example :
    ((commit_consumed done PruneIo.pruned (8 ∷ 8 ∷ []) 70 10 full).1 ≡ ok tt)
    × ((commit_consumed done PruneIo.pruned (8 ∷ 8 ∷ []) 70 10 full).0.file.written
        ≡ image (record (drop_expired ((9 ∷ 9 ∷ []) ∷ []) full.caches) {
          consumed = (8 ∷ 8 ∷ [], 70) ∷ many 1022;
        }))
unfolding contains
commit_consumed-overwrites_example =
    commit_consumed-overwrites (8 ∷ 8 ∷ []) (1022 / 256 ∷ 1022 % 256 ∷ []) 70 50 10 (9 ∷ 9 ∷ []) []
      (many 1022) full refl full_new refl full_at_cap full_expired full_kept full_room refl
