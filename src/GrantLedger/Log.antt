-- ===== src/GrantLedger/Log.antt =====
-- The maps of a `GrantLedger`, its log records, and the replay of a log in `recover`.
use bolina_rs.Prelude.{
  ℕ, zero, suc, ◌+◌, ◌-◌, true, false, not, ◌&&◌, Option, none, some, List, [], ◌∷◌, ◌++◌, length,
  take, drop, ltb, ◌==◌, if◌then◌else◌, Result, ok, err,
}
use bolina_rs.Prelude.Bytes.{Bytes, slice, from_be_bytes, to_be_bytes}
use bolina_rs.Prelude.Maps.{Map, insert, remove, contains_key, contains, insert_key}
use bolina_rs.Prelude.Search.{retain}
use bolina_rs.GrantLedger.Disk.{LedgerError, bad_log}

abbrev pub tag_commit : ℕ
tag_commit = 1

abbrev pub tag_published : ℕ
tag_published = 2

abbrev pub tag_revoke : ℕ
tag_revoke = 3

abbrev pub tag_first_receipt : ℕ
tag_first_receipt = 4

abbrev pub rec_commit_len : ℕ
rec_commit_len = 25

abbrev pub rec_published_len : ℕ
rec_published_len = 17

abbrev pub rec_revoke_len : ℕ
rec_revoke_len = 41

abbrev pub rec_first_receipt_len : ℕ
rec_first_receipt_len = 25

abbrev pub grant_id_len : ℕ
grant_id_len = 16

abbrev pub sig_pubkey_len : ℕ
sig_pubkey_len = 32

pub record Caches : Type 0 where
  pub consumed : Map ℕ
  pub consumed_order : List Bytes
  pub published : List Bytes
  pub revoked : Map ℕ
  pub first_receipts : Map ℕ

abbrev pub empty : Caches
empty = record {
  consumed = [];
  consumed_order = [];
  published = [];
  revoked = [];
  first_receipts = [];
}

-- The records that the operations write: the tag, the key and, but for `published`, a time.
unfoldable pub commit_record : Bytes → ℕ → Bytes
commit_record id expiry = tag_commit ∷ (id ++ to_be_bytes 8 expiry)

unfoldable pub published_record : Bytes → Bytes
published_record id = tag_published ∷ id

unfoldable pub revoke_record : Bytes → ℕ → Bytes
revoke_record pk expiry = tag_revoke ∷ (pk ++ to_be_bytes 8 expiry)

unfoldable pub first_receipt_record : Bytes → ℕ → Bytes
first_receipt_record id time = tag_first_receipt ∷ (id ++ to_be_bytes 8 time)

-- What the replay of one record does to the maps.
unfoldable pub apply_commit : Bytes → ℕ → Caches → Caches
apply_commit id expiry c = record c {
  consumed_order =
      if not (contains id c.published) && not (contains_key id c.consumed)
      then c.consumed_order ++ id ∷ []
      else c.consumed_order;
  consumed = insert id expiry c.consumed;
}

unfoldable pub apply_published : Bytes → Caches → Caches
apply_published id c = record c {
  consumed = remove id c.consumed;
  published = insert_key id c.published;
}

unfoldable pub apply_revoke : Bytes → ℕ → Caches → Caches
apply_revoke pk expiry c = record c { revoked = insert pk expiry c.revoked }

-- `entry(id).or_insert(time)`
unfoldable pub apply_first_receipt : Bytes → ℕ → Caches → Caches
apply_first_receipt id time c = record c {
  first_receipts =
      if contains_key id c.first_receipts
      then c.first_receipts
      else insert id time c.first_receipts;
}

-- The length of a record by its tag; `none` for an unknown tag.
unfoldable pub record_len : ℕ → Option ℕ
record_len tag =
    if tag == tag_commit
    then some rec_commit_len
    else if tag == tag_published
    then some rec_published_len
    else if tag == tag_revoke
    then some rec_revoke_len
    else if tag == tag_first_receipt
    then some rec_first_receipt_len
    else none

-- `be64(&rec[1 + n..])`
abbrev time_behind : ℕ → Bytes → ℕ
time_behind n rec = from_be_bytes (drop (1 + n) rec)

-- `match tag` of the loop, on one whole record.
unfoldable pub apply_bytes : ℕ → Bytes → Caches → Caches
unfolding apply_commit apply_published apply_revoke apply_first_receipt
apply_bytes tag rec c =
    if tag == tag_commit
    then apply_commit (slice 1 (1 + grant_id_len) rec) (time_behind grant_id_len rec) c
    else if tag == tag_published
    then apply_published (drop 1 rec) c
    else if tag == tag_revoke
    then apply_revoke (slice 1 (1 + sig_pubkey_len) rec) (time_behind sig_pubkey_len rec) c
    else apply_first_receipt (slice 1 (1 + grant_id_len) rec) (time_behind grant_id_len rec) c

-- The loop of `recover` over the buffer; `skip` bytes of the last record are still to be passed.
-- A record that the file does not hold whole ends the replay. The maps rebuilt so far come back
-- beside the error.
unfoldable pub replay_loop : ℕ → Bytes → Caches → Caches × Result (Unit {0}) LedgerError
replay_loop skip [] c = (c, ok tt)
replay_loop (suc skip) (b ∷ rest) c = replay_loop skip rest c
replay_loop zero (tag ∷ rest) c = elim (record_len tag) [
  | none ↦ (c, err bad_log)
  | some need ↦ elim (ltb (suc (length rest)) need) [
    | true ↦ (c, ok tt)
    | false ↦ replay_loop (need - 1) rest (apply_bytes tag (take need (tag ∷ rest)) c)
  ]
]

unfoldable pub replay : Bytes → Caches × Result (Unit {0}) LedgerError
unfolding replay_loop record_len apply_bytes
replay buf = replay_loop 0 buf empty

-- Ids committed and never published, in the order of the log.
unfoldable pub orphans : Caches → List Bytes
orphans c = retain (λ id. contains_key id c.consumed) c.consumed_order
