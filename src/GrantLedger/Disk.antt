-- ===== src/GrantLedger/Disk.antt =====
-- The log file behind a `GrantLedger`: its bytes, those that are known to be on disk, and the
-- position of the open handle. A call of the operating system may fail, at a place that the
-- environment chooses: `Io` is what becomes of one `write_all` and the `sync_all` behind it.
use bolina_rs.Prelude.{ℕ, ◌+◌, ◌++◌, length, take, drop, Result, ok, err}
use bolina_rs.Prelude.Bytes.{Bytes}

-- `LedgerError` of src/state/ledger.rs.
pub data LedgerError : Type 0 where
  bad_log resource_exhausted disk_error locked : LedgerError

pub record LogFile : Type 0 where
  -- what a read of the file returns
  pub written : Bytes
  -- what was there at the last `sync_all` that succeeded
  pub synced : Bytes
  -- where the next write of the handle begins
  pub pos : ℕ

pub data Io : Type 0 where
  done : Io
  -- the write failed behind so many bytes
  write_failed : ℕ → Io
  sync_failed : Io

-- The bytes of a file after `bytes` is written at `pos`.
abbrev pub write_at : ℕ → Bytes → Bytes → Bytes
write_at pos bytes file = take pos file ++ (bytes ++ drop (pos + length bytes) file)

-- `f.write_all(rec)` and `f.sync_all()`.
unfoldable pub write_synced : Io → Bytes → LogFile → LogFile × Result (Unit {0}) LedgerError
write_synced done rec f = (
  record {
    written = write_at f.pos rec f.written;
    synced = write_at f.pos rec f.written;
    pos = f.pos + length rec;
  },
  ok tt,
)
write_synced (write_failed n) rec f = (
  record f { written = write_at f.pos (take n rec) f.written; pos = f.pos + length (take n rec) },
  err disk_error,
)
write_synced sync_failed rec f =
    (record f { written = write_at f.pos rec f.written; pos = f.pos + length rec }, err disk_error)
