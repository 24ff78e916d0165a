-- ===== src/GrantLedger/Operations.antt =====
-- src/state/ledger.rs: the operations of a `GrantLedger` keep the file in step with the maps, so that
-- a restart at any point finds them again.
use mathlib.Core.Path.{subst}
use bolina_rs.Prelude.{
  ℕ, ◌≡◌, refl, sym, ap, ◌∙◌, ◌⊎◌, inl, inr, true, false, ◌||◌, List, [], length, All, arith,
  Result, ok, err, leb, Bool-cases,
}
use bolina_rs.Prelude.Bytes.{Bytes}
use bolina_rs.Prelude.Maps.{contains_key, contains}
use bolina_rs.GrantLedger.Disk.{
  LedgerError, resource_exhausted, Io, done, write_failed, sync_failed,
}
use bolina_rs.GrantLedger.Log.{Caches, empty, replay, orphans}
use bolina_rs.GrantLedger.Replay.{
  LogRecord, committed, published, revoked, received, IsRecord, bytes_of, apply, log_bytes,
  replay_whole,
}
use bolina_rs.GrantLedger.{
  GrantLedger, PruneIo, append, after, recover, max_live, expired_ids, prune_expired, prune_ids,
  commit_below_cap, consume, publish, revoke, receive, commit_pruned, commit_consumed,
  mark_published, commit_revocation, record_first_receipt,
}
use bolina_rs.GrantLedger.{open_ledger}
use bolina_rs.GrantLedger.Durable.{IsDurable, append-atomic, logged-IsDurable}

no_prune :
    (io : PruneIo) (now : ℕ) (s : GrantLedger)
    → s.read_only ≡ false
    → expired_ids now s.caches.consumed ≡ []
    → prune_expired io now s ≡ (s, ok tt)
unfolding prune_expired prune_ids
no_prune io now s writable none_out = simp (writable, none_out)

-- A commit that looks for expired grants, of a new id at the cap, finds none.
abbrev pub PrunesNone : Bytes → ℕ → GrantLedger → Type 0
PrunesNone id now s =
    (contains_key id s.caches.consumed || contains id s.caches.published) ≡ false
    → leb max_live (length s.caches.consumed) ≡ true
    → expired_ids now s.caches.consumed ≡ []

-- A commit that prunes nothing: of a known id, of a new one at the cap, or below it.
commit_cases :
    (io : Io) (outcome : PruneIo) (id : Bytes) (expiry now : ℕ) (s : GrantLedger)
    → s.read_only ≡ false
    → PrunesNone id now s
    → (commit_consumed io outcome id expiry now s ≡ (s, ok tt))
      ⊎ ((commit_consumed io outcome id expiry now s ≡ (s, err resource_exhausted))
          ⊎ ((contains_key id s.caches.consumed ≡ false)
              × (contains id s.caches.published ≡ false)
              × (commit_consumed io outcome id expiry now s ≡ commit_below_cap io id expiry s)))
unfolding commit_consumed commit_pruned
commit_cases io outcome id expiry now s writable none_out =
    elim (Bool-cases (contains_key id s.caches.consumed || contains id s.caches.published)) [
      | inl known ↦ inl (rw known)
      | inr new ↦ elim (Bool-cases (leb max_live (length s.caches.consumed))) [
        | inl full ↦ inr (
            inl (
              rw (new, full)
                (ap (commit_pruned io id expiry)
                    (no_prune outcome now s writable (none_out new full))
                  ∙ rw full)))
        | inr room ↦ inr (inr (ground arith, ground arith, rw (new, room)))
      ]
    ]

-- The change of the maps in `commit_consumed` is that of its record's replay, for a new id.
commit_replays :
    (id : Bytes) (expiry : ℕ) (c : Caches)
    → contains_key id c.consumed ≡ false
    → contains id c.published ≡ false
    → consume id expiry c ≡ apply (committed id expiry) c
unfolding apply
commit_replays id expiry c h k = simp (h, k)

receipt_replays :
    (id : Bytes) (time : ℕ) (c : Caches)
    → contains_key id c.first_receipts ≡ false
    → receive id time c ≡ apply (received id time) c
unfolding apply
receipt_replays id time c h = simp h

commit_consumed-IsDurable :
    (outcome : PruneIo) (id : Bytes) (expiry now : ℕ) (s : GrantLedger)
    → IsRecord (committed id expiry)
    → PrunesNone id now s
    → IsDurable s
    → IsDurable (commit_consumed done outcome id expiry now s).0
unfolding commit_below_cap bytes_of
commit_consumed-IsDurable outcome id expiry now s h none_out v =
    elim (commit_cases done outcome id expiry now s v.writable none_out) [
      | inl e ↦ rw e v
      | inr (inl e) ↦ rw e v
      | inr (inr (new, unspent, e)) ↦ rw e (
          logged-IsDurable s v (committed id expiry) (consume id expiry) h
            (commit_replays id expiry s.caches new unspent))
    ]

mark_published-IsDurable :
    (id : Bytes) (s : GrantLedger)
    → IsRecord (published id)
    → IsDurable s
    → IsDurable (mark_published done id s).0
unfolding mark_published bytes_of apply
mark_published-IsDurable id s h v = elim (Bool-cases (contains id s.caches.published)) [
  | inl known ↦ rw known v
  | inr new ↦ rw new (logged-IsDurable s v (published id) (publish id) h refl)
]

commit_revocation-IsDurable :
    (pk : Bytes) (expiry : ℕ) (s : GrantLedger)
    → IsRecord (revoked pk expiry)
    → IsDurable s
    → IsDurable (commit_revocation done pk expiry s).0
unfolding commit_revocation bytes_of apply
commit_revocation-IsDurable pk expiry s h v = elim (Bool-cases (contains_key pk s.caches.revoked)) [
  | inl known ↦ rw known v
  | inr new ↦ elim (Bool-cases (leb max_live (length s.caches.revoked))) [
    | inl full ↦ rw (new, full) v
    | inr room ↦ rw (new, room) (logged-IsDurable s v (revoked pk expiry) (revoke pk expiry) h refl)
  ]
]

record_first_receipt-IsDurable :
    (id : Bytes) (time : ℕ) (s : GrantLedger)
    → IsRecord (received id time)
    → IsDurable s
    → IsDurable (record_first_receipt done id time s).0
unfolding record_first_receipt bytes_of
record_first_receipt-IsDurable id time s h v =
    elim (Bool-cases (contains_key id s.caches.first_receipts)) [
      | inl known ↦ rw known v
      | inr new ↦ rw new (
          logged-IsDurable s v (received id time) (receive id time) h
            (receipt_replays id time s.caches new))
    ]

-- Recovery finds what is there: the maps, and the end of the file, stay.
pub recover-unchanged : (s : GrantLedger) → IsDurable s → (recover true s).0 ≡ s
unfolding recover
recover-unchanged s v =
    let e : replay s.file.written ≡ (s.caches, ok tt) =
      rw (v.written, v.replayed) (replay_whole v.records v.whole) in
    ground (arith, e, v.opened, v.at_end)

-- One operation whose system calls succeed, on keys and times of the Rust types. Where a commit or
-- `prune_expired` looks for expired grants it finds none.
pub data Step : GrantLedger → GrantLedger → Type 0 where
  commits :
      (outcome : PruneIo) (id : Bytes) (expiry now : ℕ) {s : GrantLedger}
      → IsRecord (committed id expiry)
      → PrunesNone id now s
      → Step s (commit_consumed done outcome id expiry now s).0
  publishes :
      (id : Bytes) {s : GrantLedger} → IsRecord (published id) → Step s (mark_published done id s).0
  revokes :
      (pk : Bytes) (expiry : ℕ) {s : GrantLedger}
      → IsRecord (revoked pk expiry)
      → Step s (commit_revocation done pk expiry s).0
  receives :
      (id : Bytes) (time : ℕ) {s : GrantLedger}
      → IsRecord (received id time)
      → Step s (record_first_receipt done id time s).0
  prunes :
      (outcome : PruneIo) (now : ℕ) {s : GrantLedger}
      → expired_ids now s.caches.consumed ≡ []
      → Step s (prune_expired outcome now s).0
  recovers : {s : GrantLedger} → Step s (recover true s).0

pub data Reach (s : GrantLedger) : GrantLedger → Type 0 where
  here : Reach s s
  next : {t u : GrantLedger} → Reach s t → Step t u → Reach s u

Step-IsDurable : {s t : GrantLedger} → Step s t → IsDurable s → IsDurable t
Step-IsDurable (commits outcome id expiry now {s} h none_out) v =
    commit_consumed-IsDurable outcome id expiry now s h none_out v
Step-IsDurable (publishes id {s} h) v = mark_published-IsDurable id s h v
Step-IsDurable (revokes pk expiry {s} h) v = commit_revocation-IsDurable pk expiry s h v
Step-IsDurable (receives id time {s} h) v = record_first_receipt-IsDurable id time s h v
Step-IsDurable (prunes outcome now {s} none_out) v =
    subst IsDurable (ap (λ r. r.0) (sym (no_prune outcome now s v.writable none_out))) v
Step-IsDurable (recovers {s}) v = subst IsDurable (sym (recover-unchanged s v)) v

pub Steps-IsDurable : {s t : GrantLedger} → IsDurable s → Reach s t → IsDurable t
Steps-IsDurable v here = v
Steps-IsDurable v (next r st) = Step-IsDurable st (Steps-IsDurable v r)

-- What `open_ledger` returns for a file with these bytes.
abbrev pub opened_on : Bytes → GrantLedger
opened_on content = record {
  is_open = true;
  read_only = false;
  file = record { written = content; synced = content; pos = 0 };
  caches = empty;
}

pub recovered_from :
    (rs : List LogRecord) → All IsRecord rs → IsDurable (recover true (opened_on (log_bytes rs))).0
unfolding recover
recovered_from rs h = record {
  opened = refl;
  writable = refl;
  records = rs;
  whole = h;
  written = refl;
  synced = refl;
  at_end = refl;
  replayed = ap (λ r. r.0) (replay_whole rs h);
}

-- After the recovery of a log of whole records, and any commits, publications, revocations, first
-- receipts, prunings and recoveries whose system calls succeed, on keys and times of the Rust types: if
-- no pruning, and no commit of a new id at the cap, found an expired grant to drop, then opening the
-- synced bytes of the file again and recovering gives the maps that the ledger had, without an error,
-- and reports their orphans and counts.
pub restart_restores :
    (rs : List LogRecord) (t : GrantLedger)
    → All IsRecord rs
    → Reach (recover true (opened_on (log_bytes rs))).0 t
    → (s : GrantLedger) × (open_ledger t.file.synced true true true ≡ ok s)
      × ((recover true s).0.caches ≡ t.caches)
      × ((recover true s).1
          ≡ ok (record {
            orphans = orphans t.caches;
            consumed_count = length t.caches.consumed;
            revoked_count = length t.caches.revoked;
          }))
unfolding open_ledger recover
restart_restores rs t h reach =
    let v : IsDurable t = Steps-IsDurable (recovered_from rs h) reach in
    let e : replay t.file.synced ≡ (t.caches, ok tt) =
      rw (v.synced, v.written, v.replayed) (replay_whole v.records v.whole) in
    (_, refl, rw e refl, rw e refl)

IsDurable-replays : (s : GrantLedger) → IsDurable s → replay s.file.written ≡ (s.caches, ok tt)
IsDurable-replays s v = rw (v.written, v.replayed) (replay_whole v.records v.whole)

after-written :
    (f : Caches → Caches) (x : GrantLedger × Result (Unit {0}) LedgerError)
    → (after f x).0.file.written ≡ x.0.file.written
after-written f (s, ok u) = refl
after-written f (s, err e) = refl

-- Where the append returns `ok`, the file replays to the maps with the record.
after-ok :
    (io : Io) (r : LogRecord) (f : Caches → Caches) (s : GrantLedger)
    → IsDurable s
    → IsRecord r
    → f s.caches ≡ apply r s.caches
    → (after f (append io (bytes_of r) s)).1 ≡ ok tt
    → replay (append io (bytes_of r) s).0.file.written
      ≡ ((after f (append io (bytes_of r) s)).0.caches, ok tt)
unfolding append
after-ok done r f s v h same e =
    rw after-written at (IsDurable-replays _ (logged-IsDurable s v r f h same))
after-ok (write_failed n) r f s v h same e = absurd (ground (arith, v.writable, v.opened, e))
after-ok sync_failed r f s v h same e = absurd (ground (arith, v.writable, v.opened, e))

-- In a ledger whose file holds the records of its maps, whatever becomes of the write and the sync of
-- a commit that has nothing to prune, the file replays without an error to the maps before the commit
-- or to those with the grant consumed; when the commit returns `ok`, to the maps that the ledger then
-- has.
pub commit_consumed-atomic :
    (io : Io) (outcome : PruneIo) (id : Bytes) (expiry now : ℕ) (s : GrantLedger)
    → IsDurable s
    → IsRecord (committed id expiry)
    → expired_ids now s.caches.consumed ≡ []
    → let s' : GrantLedger = (commit_consumed io outcome id expiry now s).0 in
      ((replay s'.file.written ≡ (s.caches, ok tt))
        ⊎ (replay s'.file.written ≡ (consume id expiry s.caches, ok tt)))
      × ((commit_consumed io outcome id expiry now s).1 ≡ ok tt
          → replay s'.file.written ≡ (s'.caches, ok tt))
unfolding commit_below_cap bytes_of
commit_consumed-atomic io outcome id expiry now s v h none_out =
    let same = IsDurable-replays s v in
    elim (commit_cases io outcome id expiry now s v.writable (λ _ _. none_out)) [
      | inl e ↦ rw e (inl same, λ _. same)
      | inr (inl e) ↦ rw e (inl same, λ _. same)
      | inr (inr (new, unspent, e)) ↦
          let replays = commit_replays id expiry s.caches new unspent in
          rw (e, after-written)
            (
              rw (sym replays) at (append-atomic s v io (committed id expiry) h),
              after-ok io (committed id expiry) (consume id expiry) s v h replays,
            )
    ]
