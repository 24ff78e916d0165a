-- ===== src/EvidenceLedger.antt =====
-- src/ledger_envelope.rs: the ledger of accepted envelopes, anchors and revocations in memory. A
-- method returns the new ledger beside its result; the program stops if one of its counters, a
-- `u64`, overflows. The windows
-- of sequence numbers are those of src/transport/replay.rs.

pub mod Invariant
pub mod Records
pub mod Windows
pub mod Examples
use bolina_rs.Prelude.{
  ℕ, zero, suc, ◌+◌, ◌-◌, ◌%◌, ◌^◌, Bool, true, false, ◌&&◌, Option, none, some, List, [], ◌∷◌,
  ◌++◌, length, take, set, ltb, leb, ◌==◌, if◌then◌else◌, Result, ok, err,
}
use bolina_rs.Prelude.Bytes.{Bytes, bytes_eq}
use bolina_rs.Prelude.Search.{get_elem?, any, find, find_index}
use bolina_rs.ReplayWindow as Replay
use bolina_rs.ReplayWindow.{ReplayWindow}

abbrev pub max_envelopes : ℕ
max_envelopes = 4096

abbrev pub max_seq_windows : ℕ
max_seq_windows = 256

abbrev pub max_anchors : ℕ
max_anchors = 256

abbrev pub max_revocations : ℕ
max_revocations = 64

pub data LedgerError : Type 0 where
  store_full seq_windows_full anchors_full revocations_full divergence window_stale : LedgerError

pub record EnvelopeEntry : Type 0 where
  pub hash : Bytes
  pub sender : Bytes
  pub channel : Bytes
  pub seq : ℕ

pub record SeqWindow : Type 0 where
  pub sender : Bytes
  pub channel : Bytes
  pub replay : ReplayWindow

pub record AnchorEntry : Type 0 where
  pub pubkey : Bytes
  pub hash : Bytes

pub record RevocationEntry : Type 0 where
  pub pubkey : Bytes
  pub revoke_hash : Bytes
  pub cert_expiry_ms : ℕ

pub record Ledger : Type 0 where
  pub envelopes : List EnvelopeEntry
  pub seq_windows : List SeqWindow
  pub anchors : List AnchorEntry
  pub revocations : List RevocationEntry
  pub inserts_total : ℕ
  pub storefull_total : ℕ

abbrev pub new : Ledger
new = record {
  envelopes = [];
  seq_windows = [];
  anchors = [];
  revocations = [];
  inserts_total = 0;
  storefull_total = 0;
}

-- `e.sender == *sender && e.channel == *channel && e.seq == seq`
unfoldable pub is_of : Bytes → Bytes → ℕ → EnvelopeEntry → Bool
is_of sender channel seq e =
    bytes_eq e.sender sender && bytes_eq e.channel channel && (e.seq == seq)

abbrev hash_of : Option EnvelopeEntry → Option Bytes
hash_of none = none
hash_of (some e) = some e.hash

pub find_envelope : Bytes → Bytes → ℕ → Ledger → Option Bytes
unfolding find is_of
find_envelope sender channel seq l = hash_of (find (is_of sender channel seq) l.envelopes)

-- Behind the scan: an entry that was found answers, else the capacity is tested.
unfoldable pub insert_scanned :
    Option EnvelopeEntry → EnvelopeEntry → Ledger → Ledger × Result (Unit {0}) LedgerError
insert_scanned (some existing) entry l =
    if bytes_eq existing.hash entry.hash then (l, ok tt) else (l, err divergence)
insert_scanned none entry l =
    if leb max_envelopes (length l.envelopes)
    then (
      record l { inserts_total = l.inserts_total + 1; storefull_total = l.storefull_total + 1 },
      err store_full,
    )
    else (
      record l { envelopes = l.envelopes ++ entry ∷ []; inserts_total = l.inserts_total + 1 },
      ok tt,
    )

unfoldable pub insert_envelope : EnvelopeEntry → Ledger → Ledger × Result (Unit {0}) LedgerError
unfolding insert_scanned find is_of
insert_envelope entry l =
    insert_scanned (find (is_of entry.sender entry.channel entry.seq) l.envelopes) entry l

-- `self.envelopes.iter().any(|e| &e.hash == p)`, for every parent.
unfoldable pub all_parents_present : List Bytes → Ledger → Bool
unfolding any
all_parents_present [] l = true
all_parents_present (p ∷ ps) l =
    any (λ e. bytes_eq e.hash p) l.envelopes && all_parents_present ps l

unfoldable pub is_window_of : Bytes → Bytes → SeqWindow → Bool
is_window_of sender channel w = bytes_eq w.sender sender && bytes_eq w.channel channel

-- The window at `i` asks its replay window, which changes in place.
unfoldable pub check_window :
    ℕ → ℕ → Option SeqWindow → Ledger → Ledger × Result (Unit {0}) LedgerError
unfolding Replay.check
check_window i seq none l = (l, err window_stale)
check_window i seq (some w) l =
    let l' : Ledger = record l {
      seq_windows = set l.seq_windows i (record w { replay = (Replay.check seq w.replay).0 });
    } in
    if (Replay.check seq w.replay).1 then (l', ok tt) else (l', err window_stale)

unfoldable pub seeded : Bytes → Bytes → ℕ → SeqWindow
unfolding Replay.check Replay.new
seeded sender channel seq = record {
  sender = sender;
  channel = channel;
  replay = (Replay.check seq Replay.new).0;
}

unfoldable pub seq_scanned :
    Option ℕ → Bytes → Bytes → ℕ → Ledger → Ledger × Result (Unit {0}) LedgerError
unfolding check_window get_elem?
seq_scanned (some i) sender channel seq l = check_window i seq (get_elem? l.seq_windows i) l
seq_scanned none sender channel seq l =
    if leb max_seq_windows (length l.seq_windows)
    then (l, err seq_windows_full)
    else (record l { seq_windows = l.seq_windows ++ seeded sender channel seq ∷ [] }, ok tt)

unfoldable pub check_seq : Bytes → Bytes → ℕ → Ledger → Ledger × Result (Unit {0}) LedgerError
unfolding seq_scanned find_index is_window_of
check_seq sender channel seq l =
    seq_scanned (find_index (is_window_of sender channel) l.seq_windows) sender channel seq l

unfoldable pub anchors_key : Bytes → AnchorEntry → Bool
anchors_key pubkey a = bytes_eq a.pubkey pubkey

unfoldable set_scanned :
    Option AnchorEntry → Bytes → Bytes → Ledger → Ledger × Result (Unit {0}) LedgerError
set_scanned (some a) pubkey hash l =
    if bytes_eq a.hash hash then (l, ok tt) else (l, err divergence)
set_scanned none pubkey hash l =
    if leb max_anchors (length l.anchors)
    then (l, err anchors_full)
    else (record l { anchors = l.anchors ++ (record { pubkey = pubkey; hash = hash }) ∷ [] }, ok tt)

pub set_anchor : Bytes → Bytes → Ledger → Ledger × Result (Unit {0}) LedgerError
unfolding set_scanned find anchors_key
set_anchor pubkey hash l = set_scanned (find (anchors_key pubkey) l.anchors) pubkey hash l

abbrev anchor_hash : Option AnchorEntry → Option Bytes
anchor_hash none = none
anchor_hash (some a) = some a.hash

pub get_anchor : Bytes → Ledger → Option Bytes
unfolding find anchors_key
get_anchor pubkey l = anchor_hash (find (anchors_key pubkey) l.anchors)

unfoldable pub revokes_key : Bytes → RevocationEntry → Bool
revokes_key pubkey r = bytes_eq r.pubkey pubkey

-- `enumerate().min_by_key(|(_, r)| r.cert_expiry_ms)`: the first of the lowest, from the index and
-- the expiry of the best so far.
unfoldable pub min_from : ℕ → ℕ → ℕ → List RevocationEntry → ℕ
min_from best lowest i [] = best
min_from best lowest i (r ∷ rs) = elim (ltb r.cert_expiry_ms lowest) [
  | true ↦ min_from i r.cert_expiry_ms (i + 1) rs
  | false ↦ min_from best lowest (i + 1) rs
]

unfoldable pub min_index : List RevocationEntry → Option ℕ
unfolding min_from
min_index [] = none
min_index (r ∷ rs) = some (min_from 0 r.cert_expiry_ms 1 rs)

-- `Vec::swap_remove(i)`: the last element takes the place of the one at `i`.
put_last : ℕ → Option RevocationEntry → List RevocationEntry → List RevocationEntry
put_last i none rs = rs
put_last i (some last) rs = take (length rs - 1) (set rs i last)

unfoldable pub swap_remove : ℕ → List RevocationEntry → List RevocationEntry
unfolding put_last get_elem?
swap_remove i rs = put_last i (get_elem? rs (length rs - 1)) rs

abbrev pub push_revocation : RevocationEntry → List RevocationEntry → Ledger → Ledger
push_revocation r rs l = record l { revocations = rs ++ r ∷ [] }

evict : Option ℕ → RevocationEntry → Ledger → Ledger × Result (Unit {0}) LedgerError
unfolding swap_remove
evict none r l = (l, err revocations_full)
evict (some i) r l = (push_revocation r (swap_remove i l.revocations) l, ok tt)

pub revoke_scanned :
    Option RevocationEntry → RevocationEntry → Ledger → Ledger × Result (Unit {0}) LedgerError
unfolding evict min_index
revoke_scanned (some existing) r l =
    if bytes_eq existing.revoke_hash r.revoke_hash then (l, ok tt) else (l, err divergence)
revoke_scanned none r l =
    if leb max_revocations (length l.revocations)
    then evict (min_index l.revocations) r l
    else (push_revocation r l.revocations l, ok tt)

pub set_revocation : Bytes → Bytes → ℕ → Ledger → Ledger × Result (Unit {0}) LedgerError
unfolding revoke_scanned find revokes_key
set_revocation pubkey revoke_hash expiry l =
    revoke_scanned (find (revokes_key pubkey) l.revocations)
      (record { pubkey = pubkey; revoke_hash = revoke_hash; cert_expiry_ms = expiry }) l

pub is_revoked : Bytes → Ledger → Bool
unfolding any revokes_key
is_revoked pubkey l = any (revokes_key pubkey) l.revocations

abbrev revoke_hash_of : Option RevocationEntry → Option Bytes
revoke_hash_of none = none
revoke_hash_of (some r) = some r.revoke_hash

pub get_revoke_hash : Bytes → Ledger → Option Bytes
unfolding find revokes_key
get_revoke_hash pubkey l = revoke_hash_of (find (revokes_key pubkey) l.revocations)
