-- ===== src/GrantLedger/Replay.antt =====
-- The replay in `recover` of src/state/ledger.rs on whole records and on a torn tail.
use bolina_rs.Prelude.{
  ℕ, suc, ◌+◌, ◌-◌, ◌<◌, ◌^◌, ◌≡◌, refl, sym, ap, ◌∙◌, List, [], ◌∷◌, ◌++◌, append_assoc,
  append-nil, length, length-append, take, drop, arith, ok, some, All,
}
use bolina_rs.Prelude.Tests.{lt→ltb, le→ltb}
use bolina_rs.Prelude.Lists.{take-append_left, drop-append_left}
use bolina_rs.Prelude.Bytes.{Bytes, to_be_bytes, from_be_bytes-to, length-to_be_bytes}
use bolina_rs.GrantLedger.Log.{
  Caches, empty, commit_record, published_record, revoke_record, first_receipt_record, apply_commit,
  apply_published, apply_revoke, apply_first_receipt, record_len, apply_bytes, replay_loop, replay,
  grant_id_len, sig_pubkey_len,
}

-- The records of a log.
pub data LogRecord : Type 0 where
  committed : Bytes → ℕ → LogRecord
  published : Bytes → LogRecord
  revoked : Bytes → ℕ → LogRecord
  received : Bytes → ℕ → LogRecord

unfoldable pub bytes_of : LogRecord → Bytes
unfolding commit_record published_record revoke_record first_receipt_record
bytes_of (committed id expiry) = commit_record id expiry
bytes_of (published id) = published_record id
bytes_of (revoked pk expiry) = revoke_record pk expiry
bytes_of (received id time) = first_receipt_record id time

-- Keys of their fixed length, and times that are `u64`.
abbrev pub IsRecord : LogRecord → Type 0
IsRecord (committed id expiry) = (length id ≡ grant_id_len) × (expiry < 2 ^ 64)
IsRecord (published id) = length id ≡ grant_id_len
IsRecord (revoked pk expiry) = (length pk ≡ sig_pubkey_len) × (expiry < 2 ^ 64)
IsRecord (received id time) = (length id ≡ grant_id_len) × (time < 2 ^ 64)

unfoldable pub apply : LogRecord → Caches → Caches
unfolding apply_commit apply_published apply_revoke apply_first_receipt
apply (committed id expiry) c = apply_commit id expiry c
apply (published id) c = apply_published id c
apply (revoked pk expiry) c = apply_revoke pk expiry c
apply (received id time) c = apply_first_receipt id time c

unfoldable pub log_bytes : List LogRecord → Bytes
unfolding bytes_of
log_bytes [] = []
log_bytes (r ∷ rs) = bytes_of r ++ log_bytes rs

unfoldable pub apply_all : List LogRecord → Caches → Caches
unfolding apply
apply_all [] c = c
apply_all (r ∷ rs) c = apply_all rs (apply r c)

skip_over :
    (w rest : Bytes) (c : Caches) → replay_loop (length w) (w ++ rest) c ≡ replay_loop 0 rest c
unfolding replay_loop
skip_over [] rest c = refl
skip_over (b ∷ w) rest c = skip_over w rest c

whole_record :
    (tag need : ℕ) (w rest : Bytes) (c : Caches)
    → record_len tag ≡ some need
    → need ≡ suc (length w)
    → replay_loop 0 (tag ∷ (w ++ rest)) c ≡ replay_loop 0 rest (apply_bytes tag (tag ∷ w) c)
unfolding replay_loop
whole_record tag need w rest c known size =
    let enough = le→ltb (suc (length (w ++ rest))) need (omega (arith, length-append w rest)) in
    let one_off : need - 1 ≡ length w = omega arith in
    let whole : take need (tag ∷ (w ++ rest)) ≡ tag ∷ w =
      rw size (ap (λ t. tag ∷ t) (take-append_left w rest)) in
    rw (known, replay_loop, enough, one_off, whole) (skip_over w rest _)

-- What is read of a record with a key and a time.
key_part : (n : ℕ) (key time : Bytes) → length key ≡ n → take ((1 + n) - 1) (key ++ time) ≡ key
key_part n key time e =
    let size : (1 + n) - 1 ≡ length key = omega arith in rw size (take-append_left key time)

time_part :
    (n : ℕ) (tag : ℕ) (key time : Bytes)
    → length key ≡ n
    → drop (1 + n) (tag ∷ (key ++ time)) ≡ time
time_part n tag key time e =
    let size : 1 + n ≡ suc (length key) = omega arith in rw size (drop-append_left key time)

timed_size :
    (key : Bytes) (t n : ℕ) → length key ≡ n → n + 9 ≡ suc (length (key ++ to_be_bytes 8 t))
timed_size key t n e = omega (arith, length-append key (to_be_bytes 8 t), length-to_be_bytes 8 t)

-- The replay passes a whole record by applying it.
replay-record :
    (r : LogRecord) (rest : Bytes) (c : Caches)
    → IsRecord r
    → replay_loop 0 (bytes_of r ++ rest) c ≡ replay_loop 0 rest (apply r c)
unfolding bytes_of apply record_len apply_bytes
replay-record (committed id expiry) rest c (size, small) =
    whole_record 1 25 (id ++ to_be_bytes 8 expiry) rest c refl (timed_size id expiry 16 size)
    ∙ rw (
      key_part 16 id (to_be_bytes 8 expiry) size,
      time_part 16 1 id (to_be_bytes 8 expiry) size,
      from_be_bytes-to 8 expiry small,
    )
replay-record (published id) rest c size = whole_record 2 17 id rest c refl (omega (arith, size))
replay-record (revoked pk expiry) rest c (size, small) =
    whole_record 3 41 (pk ++ to_be_bytes 8 expiry) rest c refl (timed_size pk expiry 32 size)
    ∙ rw (
      key_part 32 pk (to_be_bytes 8 expiry) size,
      time_part 32 3 pk (to_be_bytes 8 expiry) size,
      from_be_bytes-to 8 expiry small,
    )
replay-record (received id time) rest c (size, small) =
    whole_record 4 25 (id ++ to_be_bytes 8 time) rest c refl (timed_size id time 16 size)
    ∙ rw (
      key_part 16 id (to_be_bytes 8 time) size,
      time_part 16 4 id (to_be_bytes 8 time) size,
      from_be_bytes-to 8 time small,
    )

pub replay-log_bytes :
    (rs : List LogRecord) (rest : Bytes) (c : Caches)
    → All IsRecord rs
    → replay_loop 0 (log_bytes rs ++ rest) c ≡ replay_loop 0 rest (apply_all rs c)
unfolding log_bytes apply_all
replay-log_bytes [] rest c h = refl
replay-log_bytes (r ∷ rs) rest c h =
    rw (append_assoc (bytes_of r) (log_bytes rs) rest)
      (replay-record r (log_bytes rs ++ rest) c h.0 ∙ replay-log_bytes rs rest (apply r c) h.1)

-- A record that is not there whole ends the replay without an error.
pub torn_record :
    (tag need : ℕ) (w : Bytes) (c : Caches)
    → record_len tag ≡ some need
    → suc (length w) < need
    → replay_loop 0 (tag ∷ w) c ≡ (c, ok tt)
unfolding replay_loop
torn_record tag need w c known short = rw (known, replay_loop, lt→ltb (suc (length w)) need short)

pub bytes_of-shape :
    (r : LogRecord)
    → IsRecord r
    → (tag : ℕ) × (w : Bytes) × (bytes_of r ≡ tag ∷ w) × (record_len tag ≡ some (suc (length w)))
unfolding bytes_of record_len
bytes_of-shape (committed id expiry) (size, small) =
    (1, id ++ to_be_bytes 8 expiry, refl, ap some (timed_size id expiry 16 size))
bytes_of-shape (published id) size = (2, id, refl, ap some (ap suc (sym size)))
bytes_of-shape (revoked pk expiry) (size, small) =
    (3, pk ++ to_be_bytes 8 expiry, refl, ap some (timed_size pk expiry 32 size))
bytes_of-shape (received id time) (size, small) =
    (4, id ++ to_be_bytes 8 time, refl, ap some (timed_size id time 16 size))

replay-torn :
    (r : LogRecord) (front back : Bytes) (x : ℕ) (c : Caches)
    → IsRecord r
    → bytes_of r ≡ front ++ (x ∷ back)
    → replay_loop 0 front c ≡ (c, ok tt)
unfolding replay_loop
replay-torn r [] back x c h e = refl
replay-torn r (tag ∷ front) back x c h e =
    let (tag', w, shape, known) = bytes_of-shape r h in
    let same : tag' ≡ tag = cc (shape, e) in
    let split : w ≡ front ++ (x ∷ back) = cc (shape, e) in
    torn_record tag (suc (length w)) front c (rw same at known)
      (omega (arith, ap length split, length-append front (x ∷ back)))

-- The replay of a log of whole records is the application of the records in order, and a record
-- behind them that is not there whole, a torn last write, changes nothing and is no error.
pub replay-log :
    (rs : List LogRecord) (r : LogRecord) (front back : Bytes) (x : ℕ)
    → All IsRecord rs
    → IsRecord r
    → bytes_of r ≡ front ++ (x ∷ back)
    → replay (log_bytes rs ++ front) ≡ (apply_all rs empty, ok tt)
unfolding replay
replay-log rs r front back x hs h e =
    replay-log_bytes rs front empty hs ∙ replay-torn r front back x (apply_all rs empty) h e

pub replay_whole :
    (rs : List LogRecord) → All IsRecord rs → replay (log_bytes rs) ≡ (apply_all rs empty, ok tt)
unfolding replay
replay_whole rs hs = rw append-nil at (replay-log_bytes rs [] empty hs)

pub log_bytes-append :
    (rs qs : List LogRecord) → log_bytes (rs ++ qs) ≡ log_bytes rs ++ log_bytes qs
unfolding log_bytes
log_bytes-append [] qs = refl
log_bytes-append (r ∷ rs) qs =
    ap (λ t. bytes_of r ++ t) (log_bytes-append rs qs)
    ∙ sym (append_assoc (bytes_of r) (log_bytes rs) (log_bytes qs))

pub apply_all-append :
    (rs qs : List LogRecord) (c : Caches) → apply_all (rs ++ qs) c ≡ apply_all qs (apply_all rs c)
unfolding apply_all
apply_all-append [] qs c = refl
apply_all-append (r ∷ rs) qs c = apply_all-append rs qs (apply r c)
