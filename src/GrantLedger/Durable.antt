-- ===== src/GrantLedger/Durable.antt =====
-- src/state/ledger.rs: what `append` leaves in a file that holds the records of the maps.
use bolina_rs.Prelude.{
  ℕ, zero, suc, ◌+◌, ◌≡◌, refl, sym, ap, ◌∙◌, ◌⊎◌, inl, inr, true, false, List, [], ◌∷◌, ◌++◌,
  append-nil, length, length-append, take, drop, All, arith, ok,
}
use bolina_rs.Prelude.Lists.{take-append-drop, All-append}
use bolina_rs.Prelude.Bytes.{Bytes}
use bolina_rs.GrantLedger.Disk.{Io, done, write_failed, sync_failed, write_at}
use bolina_rs.GrantLedger.Log.{Caches, empty, replay}
use bolina_rs.GrantLedger.Replay.{
  LogRecord, IsRecord, bytes_of, apply, log_bytes, apply_all, replay-log, replay_whole,
  log_bytes-append, apply_all-append,
}
use bolina_rs.GrantLedger.{GrantLedger, append, after}

pub record IsDurable (s : GrantLedger) : Type 0 where
  pub opened : s.is_open ≡ true
  pub writable : s.read_only ≡ false
  -- the records of the file
  pub records : List LogRecord
  pub whole : All IsRecord records
  pub written : s.file.written ≡ log_bytes records
  pub synced : s.file.synced ≡ s.file.written
  pub at_end : s.file.pos ≡ length s.file.written
  pub replayed : s.caches ≡ apply_all records empty

drop_all : (w : Bytes) (n : ℕ) → drop (length w + n) w ≡ []
drop_all [] zero = refl
drop_all [] (suc n) = let e : 0 + suc n ≡ suc n = omega arith in rw e
drop_all (b ∷ w) n =
    let e : suc (length w) + n ≡ suc (length w + n) = omega arith in rw e (drop_all w n)

take_all : (w : Bytes) → take (length w) w ≡ w
take_all [] = refl
take_all (b ∷ w) = ap (λ t. b ∷ t) (take_all w)

pub write_at_end : (w bytes : Bytes) → write_at (length w) bytes w ≡ w ++ bytes
write_at_end w bytes = rw (take_all, drop_all, append-nil)

module _ (s : GrantLedger) (v : IsDurable s) where
  -- What any outcome of the system calls appends to the file.
  append-written :
      (io : Io) (rec : Bytes)
      → (front : Bytes) × (back : Bytes) × (rec ≡ front ++ back)
        × ((append io rec s).0.file.written ≡ s.file.written ++ front)
  unfolding append
  append-written done rec = (
    rec,
    [],
    sym (append-nil rec),
    rw (v.writable, v.opened, v.at_end) (write_at_end s.file.written rec),
  )
  append-written (write_failed n) rec = (
    take n rec,
    drop n rec,
    sym (take-append-drop n rec),
    rw (v.writable, v.opened, v.at_end) (write_at_end s.file.written (take n rec)),
  )
  append-written sync_failed rec = (
    rec,
    [],
    sym (append-nil rec),
    rw (v.writable, v.opened, v.at_end) (write_at_end s.file.written rec),
  )

  replay_front :
      (r : LogRecord) (front back : Bytes)
      → IsRecord r
      → bytes_of r ≡ front ++ back
      → (replay (s.file.written ++ front) ≡ (s.caches, ok tt))
        ⊎ (replay (s.file.written ++ front) ≡ (apply r s.caches, ok tt))
  unfolding log_bytes apply_all
  replay_front r front (x ∷ back) h e =
      inl (rw (v.written, v.replayed) (replay-log v.records r front back x v.whole h e))
  replay_front r front [] h e =
      let same : front ≡ bytes_of r = sym (append-nil front) ∙ sym e in
      let all : log_bytes v.records ++ front ≡ log_bytes (v.records ++ r ∷ []) =
        ap (λ t. log_bytes v.records ++ t) (same ∙ sym (append-nil (bytes_of r)))
        ∙ sym (log_bytes-append v.records (r ∷ [])) in
      inr (
        rw (v.written, all, v.replayed)
          (replay_whole (v.records ++ r ∷ [])
              (All-append IsRecord v.records (r ∷ []) v.whole (h, tt))
            ∙ ap (λ t. (t, ok tt)) (apply_all-append v.records (r ∷ []) empty)))

  -- Whatever becomes of the system calls, the file replays to the maps before the record or to
  -- those with it.
  pub append-atomic :
      (io : Io) (r : LogRecord)
      → IsRecord r
      → (replay (append io (bytes_of r) s).0.file.written ≡ (s.caches, ok tt))
        ⊎ (replay (append io (bytes_of r) s).0.file.written ≡ (apply r s.caches, ok tt))
  append-atomic io r h =
      let (front, back, split, e) = append-written io (bytes_of r) in
      rw e (replay_front r front back h split)

  append_done :
      (rec : Bytes)
      → append done rec s ≡ (
        record s {
          file = record {
            written = write_at s.file.pos rec s.file.written;
            synced = write_at s.file.pos rec s.file.written;
            pos = s.file.pos + length rec;
          };
        },
        ok tt,
      )
  unfolding append
  append_done rec = simp (v.writable, v.opened)

  written_end : (rec : Bytes) → write_at s.file.pos rec s.file.written ≡ s.file.written ++ rec
  written_end rec = rw v.at_end (write_at_end s.file.written rec)

  -- A record that is written and synced, with the change of the maps that its replay makes.
  pub logged-IsDurable :
      (r : LogRecord) (f : Caches → Caches)
      → IsRecord r
      → f s.caches ≡ apply r s.caches
      → IsDurable (after f (append done (bytes_of r) s)).0
  unfolding log_bytes apply_all
  logged-IsDurable r f h same = rw append_done (record {
    opened = v.opened;
    writable = v.writable;
    records = v.records ++ r ∷ [];
    whole = All-append IsRecord v.records (r ∷ []) v.whole (h, tt);
    written =
        written_end (bytes_of r)
        ∙ ap (λ t. t ++ bytes_of r) v.written
        ∙ ap (λ t. log_bytes v.records ++ t) (sym (append-nil (bytes_of r)))
        ∙ sym (log_bytes-append v.records (r ∷ []));
    synced = refl;
    at_end = rw written_end (omega (arith, v.at_end, length-append s.file.written (bytes_of r)));
    replayed = same ∙ ap (apply r) v.replayed ∙ sym (apply_all-append v.records (r ∷ []) empty);
  })
