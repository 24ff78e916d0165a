-- ===== src/GrantLedger.antt =====
-- src/state/ledger.rs: the durable two-phase grant ledger over one log file.
-- `Disk` is the file, `Log` its records, the maps and the replay that rebuilds them; the operations stand
-- here, each with the outcomes of its system calls as arguments.
pub mod Disk
pub mod Log
pub mod Replay
pub mod Durable
pub mod Operations
pub mod TwoPhase
pub mod Calls
pub mod Orphans
pub mod Losses
pub mod Examples
use bolina_rs.Prelude.{
  ℕ, Bool, true, false, ◌||◌, Option, none, some, List, [], ◌∷◌, ◌++◌, length, leb, if◌then◌else◌,
  Result, ok, err,
}
use bolina_rs.Prelude.Bytes.{Bytes}
use bolina_rs.Prelude.Maps.{Map, lookup, insert, remove, contains_key, contains, insert_key}
use bolina_rs.Prelude.Search.{retain}
use bolina_rs.GrantLedger.Disk.{
  LedgerError, disk_error, locked, resource_exhausted, LogFile, Io, write_synced,
}
use bolina_rs.GrantLedger.Log.{
  Caches, empty, replay, orphans, commit_record, published_record, revoke_record,
  first_receipt_record,
}

abbrev pub max_live : ℕ
max_live = 1024

pub record GrantLedger : Type 0 where
  -- `self.file` is `Some`
  pub is_open : Bool
  pub read_only : Bool
  pub file : LogFile
  pub caches : Caches

pub record Recovery : Type 0 where
  pub orphans : List Bytes
  pub consumed_count : ℕ
  pub revoked_count : ℕ

-- `GrantLedger::open` on a file with these bytes. The arguments say whether the file opens, whether
-- the lock is granted, and whether a stale temporary file is absent or can be removed.
pub open_ledger : Bytes → Bool → Bool → Bool → Result GrantLedger LedgerError
open_ledger content opens granted cleaned =
    if opens
    then if granted
      then if cleaned
        then ok (record {
          is_open = true;
          read_only = false;
          file = record { written = content; synced = content; pos = 0 };
          caches = empty;
        })
        else err disk_error
      else err locked
    else err disk_error

pub open_read_only : Bytes → Bool → Result GrantLedger LedgerError
open_read_only content opens =
    if opens
    then ok (record {
      is_open = true;
      read_only = true;
      file = record { written = content; synced = content; pos = 0 };
      caches = empty;
    })
    else err disk_error

abbrev recovered : Caches → Result (Unit {0}) LedgerError → Result Recovery LedgerError
recovered c (ok u) = ok (record {
  orphans = orphans c;
  consumed_count = length c.consumed;
  revoked_count = length c.revoked;
})
recovered c (err e) = err e

-- The argument says whether the file can be read. Reading leaves the handle at the end.
pub recover : Bool → GrantLedger → GrantLedger × Result Recovery LedgerError
unfolding replay orphans
recover readable s =
    if s.is_open
    then if readable
      then (
        record s {
          file = record s.file { pos = length s.file.written };
          caches = (replay s.file.written).0;
        },
        recovered (replay s.file.written).0 (replay s.file.written).1,
      )
      else (s, err disk_error)
    else (s, err disk_error)

pub append : Io → Bytes → GrantLedger → GrantLedger × Result (Unit {0}) LedgerError
unfolding write_synced
append io rec s =
    if s.read_only
    then (s, err disk_error)
    else if s.is_open
    then (let (f, r) = write_synced io rec s.file in (record s { file = f }, r))
    else (s, err disk_error)

-- `self.append(&rec)?`, then a change of the maps.
abbrev after :
    (Caches → Caches)
    → GrantLedger × Result (Unit {0}) LedgerError
    → GrantLedger × Result (Unit {0}) LedgerError
after f (s, ok u) = (record s { caches = f s.caches }, ok tt)
after f (s, err e) = (s, err e)

-- What becomes of the system calls of `prune_expired`, up to the first that fails.
pub data PruneIo : Type 0 where
  pruned temp_failed rename_failed reopen_failed lock_lost : PruneIo

-- The image of the maps that replaces the log. Published ids are not in it.
image_commits : Map ℕ → Bytes
unfolding commit_record
image_commits [] = []
image_commits ((id, expiry) ∷ m) = commit_record id expiry ++ image_commits m

image_revocations : Map ℕ → Bytes
unfolding revoke_record
image_revocations [] = []
image_revocations ((pk, expiry) ∷ m) = revoke_record pk expiry ++ image_revocations m

image_receipts : Map ℕ → Bytes
unfolding first_receipt_record
image_receipts [] = []
image_receipts ((id, time) ∷ m) = first_receipt_record id time ++ image_receipts m

pub image : Caches → Bytes
unfolding image_commits image_revocations image_receipts
image c =
    image_commits c.consumed ++ (image_revocations c.revoked ++ image_receipts c.first_receipts)

-- `.filter(|(_, &exp)| exp <= now_ms)`, the ids.
pub expired_ids : ℕ → Map ℕ → List Bytes
expired_ids now [] = []
expired_ids now ((id, expiry) ∷ m) =
    let later = expired_ids now m in if leb expiry now then id ∷ later else later

pub remove_all : List Bytes → Map ℕ → Map ℕ
remove_all [] m = m
remove_all (id ∷ ids) m = remove_all ids (remove id m)

pub drop_expired : List Bytes → Caches → Caches
unfolding remove_all
drop_expired ids c = record c {
  consumed = remove_all ids c.consumed;
  consumed_order = retain (λ id. contains_key id (remove_all ids c.consumed)) c.consumed_order;
}

-- The new log, with the handle closed: `self.file = None`.
abbrev replaced : Caches → GrantLedger → GrantLedger
replaced c s = record s {
  is_open = false;
  file = record { written = image c; synced = image c; pos = 0 };
  caches = c;
}

-- Temporary file, rename, reopening and lock, from the caches without the expired grants.
rewrite : PruneIo → Caches → GrantLedger → GrantLedger × Result (Unit {0}) LedgerError
unfolding image
rewrite temp_failed c s = (record s { caches = c }, err disk_error)
rewrite rename_failed c s = (record s { caches = c }, err disk_error)
rewrite reopen_failed c s = (replaced c s, err disk_error)
rewrite lock_lost c s = (replaced c s, err locked)
rewrite pruned c s = (record (replaced c s) { is_open = true }, ok tt)

prune_ids : PruneIo → List Bytes → GrantLedger → GrantLedger × Result (Unit {0}) LedgerError
unfolding rewrite drop_expired
prune_ids io [] s = (s, ok tt)
prune_ids io (id ∷ ids) s = rewrite io (drop_expired (id ∷ ids) s.caches) s

pub prune_expired : PruneIo → ℕ → GrantLedger → GrantLedger × Result (Unit {0}) LedgerError
unfolding prune_ids expired_ids
prune_expired io now s =
    if s.read_only then (s, err disk_error) else prune_ids io (expired_ids now s.caches.consumed) s

-- What each operation does to the maps behind its record.
abbrev pub consume : Bytes → ℕ → Caches → Caches
consume id expiry c = record c {
  consumed_order = c.consumed_order ++ id ∷ [];
  consumed = insert id expiry c.consumed;
}

abbrev pub publish : Bytes → Caches → Caches
publish id c = record c { consumed = remove id c.consumed; published = insert_key id c.published }

abbrev pub revoke : Bytes → ℕ → Caches → Caches
revoke pk expiry c = record c { revoked = insert pk expiry c.revoked }

abbrev pub receive : Bytes → ℕ → Caches → Caches
receive id time c = record c { first_receipts = insert id time c.first_receipts }

-- Phase 1 below the cap: the record, then the maps.
commit_below_cap : Io → Bytes → ℕ → GrantLedger → GrantLedger × Result (Unit {0}) LedgerError
unfolding append commit_record
commit_below_cap io id expiry s = after (consume id expiry) (append io (commit_record id expiry) s)

-- The test behind a prune that succeeded.
commit_pruned :
    Io
    → Bytes
    → ℕ
    → GrantLedger × Result (Unit {0}) LedgerError
    → GrantLedger × Result (Unit {0}) LedgerError
unfolding commit_below_cap
commit_pruned io id expiry (s, err e) = (s, err e)
commit_pruned io id expiry (s, ok u) =
    if leb max_live (length s.caches.consumed)
    then (s, err resource_exhausted)
    else commit_below_cap io id expiry s

pub commit_consumed :
    Io → PruneIo → Bytes → ℕ → ℕ → GrantLedger → GrantLedger × Result (Unit {0}) LedgerError
unfolding commit_below_cap commit_pruned
commit_consumed io outcome id expiry now s =
    if contains_key id s.caches.consumed || contains id s.caches.published
    then (s, ok tt)
    else if leb max_live (length s.caches.consumed)
    then commit_pruned io id expiry (prune_expired outcome now s)
    else commit_below_cap io id expiry s

pub mark_published : Io → Bytes → GrantLedger → GrantLedger × Result (Unit {0}) LedgerError
unfolding append published_record
mark_published io id s =
    if contains id s.caches.published
    then (s, ok tt)
    else after (publish id) (append io (published_record id) s)

pub commit_revocation : Io → Bytes → ℕ → GrantLedger → GrantLedger × Result (Unit {0}) LedgerError
unfolding append revoke_record
commit_revocation io pk expiry s =
    if contains_key pk s.caches.revoked
    then (s, ok tt)
    else if leb max_live (length s.caches.revoked)
    then (s, err resource_exhausted)
    else after (revoke pk expiry) (append io (revoke_record pk expiry) s)

pub record_first_receipt :
    Io → Bytes → ℕ → GrantLedger → GrantLedger × Result (Unit {0}) LedgerError
unfolding append first_receipt_record
record_first_receipt io id time s =
    if contains_key id s.caches.first_receipts
    then (s, ok tt)
    else after (receive id time) (append io (first_receipt_record id time) s)

pub get_first_receipt : Bytes → GrantLedger → Option ℕ
get_first_receipt id s = lookup id s.caches.first_receipts

pub is_consumed : Bytes → GrantLedger → Bool
is_consumed id s = contains_key id s.caches.consumed

pub is_published : Bytes → GrantLedger → Bool
is_published id s = contains id s.caches.published

pub is_revoked : Bytes → GrantLedger → Bool
is_revoked pk s = contains_key pk s.caches.revoked

pub close : GrantLedger → GrantLedger
close s = record s { is_open = false }
