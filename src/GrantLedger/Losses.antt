-- ===== src/GrantLedger/Losses.antt =====
-- src/state/ledger.rs: where a restart does not find what the ledger held: behind a pruning, and behind
-- a torn record.
use bolina_rs.Prelude.{
  ℕ, suc, ◌+◌, ◌<◌, ◌≤◌, ◌≡◌, refl, ap, ◌∙◌, true, false, List, [], ◌∷◌, ◌++◌, append_assoc, length,
  length-append, arith, All, ok, leb,
}
use bolina_rs.Prelude.Lists.{drop-append_left}
use bolina_rs.Prelude.Bytes.{Bytes, to_be_bytes, length-to_be_bytes}
use bolina_rs.Prelude.Maps.{Map, contains_key, contains}
use bolina_rs.GrantLedger.Disk.{done, write_at}
use bolina_rs.GrantLedger.Log.{
  Caches, empty, replay, replay_loop, commit_record, revoke_record, first_receipt_record,
}
use bolina_rs.GrantLedger.Replay.{
  LogRecord, committed, revoked, received, IsRecord, bytes_of, apply, log_bytes, apply_all,
  replay_whole, replay-log, replay-log_bytes, torn_record, bytes_of-shape, log_bytes-append,
}
use bolina_rs.GrantLedger.Durable.{write_at_end}
use bolina_rs.GrantLedger.Operations.{opened_on}
use bolina_rs.GrantLedger.{
  GrantLedger, PruneIo, append, recover, max_live, expired_ids, drop_expired, image, image_commits,
  image_revocations, image_receipts, prune_expired, prune_ids, rewrite, commit_consumed,
  commit_pruned, commit_below_cap, is_published,
}

length-commit_record : (id : Bytes) (e : ℕ) → length (commit_record id e) ≡ length id + 9
unfolding commit_record
length-commit_record id e =
    omega (arith, length-append id (to_be_bytes 8 e), length-to_be_bytes 8 e)

-- A write at the start of an image replaces its first record.
overwrite_first :
    (id live : Bytes) (expiry e : ℕ) (m : Map ℕ) (c : Caches)
    → length id ≡ length live
    → write_at 0 (commit_record id expiry) (image (record c { consumed = (live, e) ∷ m }))
      ≡ image (record c { consumed = (id, expiry) ∷ m })
unfolding image image_commits
overwrite_first id live expiry e m c same =
    let size : 0 + length (commit_record id expiry) ≡ length (commit_record live e) =
      omega (arith, same, length-commit_record id expiry, length-commit_record live e) in
    rw
      (
        append_assoc (commit_record live e),
        append_assoc (commit_record id expiry),
        size,
        drop-append_left,
      )
      refl

-- The ledger behind a pruning that succeeded.
abbrev reopened : Caches → GrantLedger → GrantLedger
unfolding image
reopened c s = record {
  is_open = true;
  read_only = s.read_only;
  file = record { written = image c; synced = image c; pos = 0 };
  caches = c;
}

prune_reopens :
    (now : ℕ) (x : Bytes) (xs : List Bytes) (s : GrantLedger)
    → s.read_only ≡ false
    → expired_ids now s.caches.consumed ≡ x ∷ xs
    → prune_expired PruneIo.pruned now s ≡ (reopened (drop_expired (x ∷ xs) s.caches) s, ok tt)
unfolding prune_expired prune_ids rewrite reopened
prune_reopens now x xs s writable out = rw (writable, out) refl

-- The first record behind a pruning goes to the start of the file.
commit_reopened :
    (id : Bytes) (expiry : ℕ) (c : Caches) (s : GrantLedger)
    → s.read_only ≡ false
    → length c.consumed < max_live
    → ((commit_pruned done id expiry (reopened c s, ok tt)).1 ≡ ok tt)
      × ((commit_pruned done id expiry (reopened c s, ok tt)).0.file.written
          ≡ write_at 0 (commit_record id expiry) (image c))
unfolding commit_pruned commit_below_cap append reopened
commit_reopened id expiry c s writable room =
    let fits : leb max_live (length c.consumed) ≡ false = ground arith in
    (rw (fits, writable) refl, rw (fits, writable) refl)

commit_consumed-prunes :
    (id : Bytes) (expiry now : ℕ) (outcome : PruneIo) (s : GrantLedger)
    → contains_key id s.caches.consumed ≡ false
    → contains id s.caches.published ≡ false
    → max_live ≤ length s.caches.consumed
    → commit_consumed done outcome id expiry now s
      ≡ commit_pruned done id expiry (prune_expired outcome now s)
unfolding commit_consumed
commit_consumed-prunes id expiry now outcome s new unspent full =
    let at_cap : leb max_live (length s.caches.consumed) ≡ true = ground arith in
    rw (new, unspent, at_cap) refl

-- A commit of a new grant at the cap that prunes, and leaves a live grant, returns `ok`, but its
-- record stands in place of the first one that the pruning kept: the file is the image of the maps
-- without that live grant.
pub commit_consumed-overwrites :
    (id live : Bytes) (expiry e now : ℕ) (x : Bytes) (xs : List Bytes) (m : Map ℕ) (s : GrantLedger)
    → s.read_only ≡ false
    → contains_key id s.caches.consumed ≡ false
    → contains id s.caches.published ≡ false
    → max_live ≤ length s.caches.consumed
    → expired_ids now s.caches.consumed ≡ x ∷ xs
    → (drop_expired (x ∷ xs) s.caches).consumed ≡ (live, e) ∷ m
    → suc (length m) < max_live
    → length id ≡ length live
    → ((commit_consumed done PruneIo.pruned id expiry now s).1 ≡ ok tt)
      × ((commit_consumed done PruneIo.pruned id expiry now s).0.file.written
          ≡ image (record (drop_expired (x ∷ xs) s.caches) { consumed = (id, expiry) ∷ m }))
commit_consumed-overwrites id live expiry e now x xs m s writable new unspent full out kept room
      same =
    let c : Caches = drop_expired (x ∷ xs) s.caches in
    let (fine, file) =
      commit_reopened id expiry c s writable (omega (arith, room, ap length kept)) in
    rw
      (
        commit_consumed-prunes id expiry now PruneIo.pruned s new unspent full,
        prune_reopens now x xs s writable out,
      )
      (
        fine,
        file
            ∙ ap (λ m'. write_at 0 (commit_record id expiry) (image (record c { consumed = m' })))
                kept
            ∙ overwrite_first id live expiry e m c same,
      )

-- The records of an image.
records_of_commits : Map ℕ → List LogRecord
records_of_commits [] = []
records_of_commits ((id, e) ∷ m) = committed id e ∷ records_of_commits m

records_of_revocations : Map ℕ → List LogRecord
records_of_revocations [] = []
records_of_revocations ((pk, e) ∷ m) = revoked pk e ∷ records_of_revocations m

records_of_receipts : Map ℕ → List LogRecord
records_of_receipts [] = []
records_of_receipts ((id, t) ∷ m) = received id t ∷ records_of_receipts m

unfoldable pub image_records : Caches → List LogRecord
unfolding records_of_commits records_of_revocations records_of_receipts
image_records c =
    records_of_commits c.consumed
    ++ (records_of_revocations c.revoked ++ records_of_receipts c.first_receipts)

image_commits-log_bytes : (m : Map ℕ) → image_commits m ≡ log_bytes (records_of_commits m)
unfolding image_commits records_of_commits log_bytes bytes_of
image_commits-log_bytes [] = refl
image_commits-log_bytes ((id, e) ∷ m) =
    ap (λ t. commit_record id e ++ t) (image_commits-log_bytes m)

image_revocations-log_bytes :
    (m : Map ℕ) → image_revocations m ≡ log_bytes (records_of_revocations m)
unfolding image_revocations records_of_revocations log_bytes bytes_of
image_revocations-log_bytes [] = refl
image_revocations-log_bytes ((pk, e) ∷ m) =
    ap (λ t. revoke_record pk e ++ t) (image_revocations-log_bytes m)

image_receipts-log_bytes : (m : Map ℕ) → image_receipts m ≡ log_bytes (records_of_receipts m)
unfolding image_receipts records_of_receipts log_bytes bytes_of
image_receipts-log_bytes [] = refl
image_receipts-log_bytes ((id, t) ∷ m) =
    ap (λ z. first_receipt_record id t ++ z) (image_receipts-log_bytes m)

image-log_bytes : (c : Caches) → image c ≡ log_bytes (image_records c)
unfolding image image_records
image-log_bytes c = simp (
  log_bytes-append, image_commits-log_bytes, image_revocations-log_bytes, image_receipts-log_bytes,
)

commits_keep_published :
    (m : Map ℕ) (rs : List LogRecord) (c : Caches)
    → (d : Caches) × (apply_all (records_of_commits m ++ rs) c ≡ apply_all rs d)
      × (d.published ≡ c.published)
unfolding records_of_commits apply_all apply
commits_keep_published [] rs c = (c, refl, refl)
commits_keep_published ((id, e) ∷ m) rs c = commits_keep_published m rs (apply (committed id e) c)

revocations_keep_published :
    (m : Map ℕ) (rs : List LogRecord) (c : Caches)
    → (d : Caches) × (apply_all (records_of_revocations m ++ rs) c ≡ apply_all rs d)
      × (d.published ≡ c.published)
unfolding records_of_revocations apply_all apply
revocations_keep_published [] rs c = (c, refl, refl)
revocations_keep_published ((pk, e) ∷ m) rs c =
    revocations_keep_published m rs (apply (revoked pk e) c)

receipts_keep_published :
    (m : Map ℕ) (c : Caches) → (apply_all (records_of_receipts m) c).published ≡ c.published
unfolding records_of_receipts apply_all apply
receipts_keep_published [] c = refl
receipts_keep_published ((id, t) ∷ m) c = receipts_keep_published m (apply (received id t) c)

image-published : (c : Caches) → (apply_all (image_records c) empty).published ≡ []
unfolding image_records
image-published c =
    let (d, e, kept) =
      commits_keep_published c.consumed
        (records_of_revocations c.revoked ++ records_of_receipts c.first_receipts) empty in
    let (d', e', kept') =
      revocations_keep_published c.revoked (records_of_receipts c.first_receipts) d in
    rw (e, e') (receipts_keep_published c.first_receipts d' ∙ kept' ∙ kept)

-- A pruning that drops a grant and succeeds leaves a log without the published grants: whatever was
-- published before, the recovery behind it finds no grant published, and reports no error.
pub prune_expired-forgets :
    (id : Bytes) (now : ℕ) (x : Bytes) (xs : List Bytes) (s : GrantLedger)
    → s.read_only ≡ false
    → expired_ids now s.caches.consumed ≡ x ∷ xs
    → All IsRecord (image_records (drop_expired (x ∷ xs) s.caches))
    → let t : GrantLedger = (prune_expired PruneIo.pruned now s).0 in
      ((prune_expired PruneIo.pruned now s).1 ≡ ok tt)
      × (is_published id t ≡ is_published id s)
      × (is_published id (recover true t).0 ≡ false)
      × ((replay t.file.written).1 ≡ ok tt)
unfolding is_published recover contains drop_expired reopened
prune_expired-forgets id now x xs s writable out whole =
    let c : Caches = drop_expired (x ∷ xs) s.caches in
    let again : replay (image c) ≡ (apply_all (image_records c) empty, ok tt) =
      rw image-log_bytes (replay_whole (image_records c) whole) in
    rw (prune_reopens now x xs s writable out)
      (refl, refl, rw (again, image-published c) refl, rw again refl)

-- A torn record stays in the file: where a recovery passes over one that lacks more bytes than the
-- next record has, that next record is written and synced, the append returns `ok`, and the replay
-- of the file is still that of the records before the torn one, without an error.
pub append-lost :
    (rs : List LogRecord) (r r' : LogRecord) (tag : ℕ) (front back : Bytes) (x : ℕ)
    → All IsRecord rs
    → IsRecord r
    → bytes_of r ≡ tag ∷ (front ++ (x ∷ back))
    → length (bytes_of r') ≤ length back
    → let s : GrantLedger = (recover true (opened_on (log_bytes rs ++ tag ∷ front))).0 in
      (s.caches ≡ apply_all rs empty)
      × ((append done (bytes_of r') s).1 ≡ ok tt)
      × (replay (append done (bytes_of r') s).0.file.synced ≡ (apply_all rs empty, ok tt))
unfolding recover append replay
append-lost rs r r' tag front back x hs h split short =
    let (tag', w, shape, known) = bytes_of-shape r h in
    let same : tag' ≡ tag = cc (shape, split) in
    let rest : w ≡ front ++ (x ∷ back) = cc (shape, split) in
    let torn : replay_loop 0 (tag ∷ (front ++ bytes_of r')) (apply_all rs empty)
        ≡ (apply_all rs empty, ok tt) =
      torn_record tag (suc (length w)) (front ++ bytes_of r') _ (rw same at known) (
        omega (
          arith,
          ap length rest,
          length-append front (x ∷ back),
          length-append front (bytes_of r'),
          short,
        )) in
    (
      ap (λ r. r.0) (replay-log rs r (tag ∷ front) back x hs h split),
      refl,
      rw
          (
            write_at_end (log_bytes rs ++ tag ∷ front) (bytes_of r'),
            append_assoc (log_bytes rs) (tag ∷ front) (bytes_of r'),
          )
          (replay-log_bytes rs (tag ∷ (front ++ bytes_of r')) empty hs ∙ torn),
    )
