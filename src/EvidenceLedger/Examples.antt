-- ===== src/EvidenceLedger/Examples.antt =====
-- A small ledger of src/ledger_envelope.rs, and the theorems on it.
use bolina_rs.Prelude.{◌≤◌, ◌≡◌, ◌≢◌, refl, true, false, some, [], ◌∷◌, length, ok, err}
use bolina_rs.Prelude.Search.{any, find, find_index}
use bolina_rs.EvidenceLedger.{
  EnvelopeEntry, Ledger, divergence, max_revocations, new, insert_envelope, find_envelope,
  set_revocation, is_revoked, check_seq, seq_scanned, is_window_of, window_stale,
}
use bolina_rs.EvidenceLedger.Windows.{check_seq_once}
use bolina_rs.EvidenceLedger.Invariant.{IsValid, inserts, checks, here, next, Reach_new-IsValid}
use bolina_rs.EvidenceLedger.Records.{insert_envelope_forever, set_revocation_admits}

abbrev first : EnvelopeEntry
first = record { hash = 1 ∷ []; sender = 2 ∷ []; channel = 3 ∷ []; seq = 0 }

abbrev second : EnvelopeEntry
second = record { hash = 5 ∷ []; sender = 2 ∷ []; channel = 3 ∷ []; seq = 1 }

abbrev holding_first : Ledger
holding_first = (insert_envelope first new).0

abbrev holding_both : Ledger
holding_both = (insert_envelope second holding_first).0

Reach_new-IsValid_example : IsValid holding_both
Reach_new-IsValid_example =
    Reach_new-IsValid holding_both (next (next here (inserts first)) (inserts second))

first_accepted : insert_envelope first new ≡ (holding_first, ok tt)
unfolding insert_envelope find
first_accepted = refl

other_hash : (9 ∷ []) ≢ first.hash
other_hash h = absurd (cc)

insert_envelope_forever_example :
    (find_envelope (2 ∷ []) (3 ∷ []) 0 holding_both ≡ some (1 ∷ []))
    × (insert_envelope first holding_both ≡ (holding_both, ok tt))
    × (insert_envelope (record first { hash = 9 ∷ [] }) holding_both
        ≡ (holding_both, err divergence))
insert_envelope_forever_example =
    insert_envelope_forever first new holding_first holding_both (9 ∷ []) first_accepted
      (next here (inserts second)) other_hash

new-IsValid : IsValid new
new-IsValid = Reach_new-IsValid new here

not_revoked : is_revoked (4 ∷ []) new ≡ false
unfolding is_revoked any
not_revoked = refl

set_revocation_admits_example :
    ((set_revocation (4 ∷ []) (6 ∷ []) 50 new).1 ≡ ok tt)
    × (is_revoked (4 ∷ []) (set_revocation (4 ∷ []) (6 ∷ []) 50 new).0 ≡ true)
    × (length (set_revocation (4 ∷ []) (6 ∷ []) 50 new).0.revocations ≤ max_revocations)
set_revocation_admits_example =
    set_revocation_admits (4 ∷ []) (6 ∷ []) 50 new new-IsValid not_revoked

abbrev sender_seen : Ledger
sender_seen = (check_seq (2 ∷ []) (3 ∷ []) 7 new).0

seven_accepted : (check_seq (2 ∷ []) (3 ∷ []) 7 new).1 ≡ ok tt
unfolding check_seq seq_scanned find_index is_window_of
seven_accepted = refl

check_seq_once_example :
    (check_seq (2 ∷ []) (3 ∷ []) 7 (check_seq (2 ∷ []) (4 ∷ []) 7 sender_seen).0).1
    ≡ err window_stale
check_seq_once_example =
    check_seq_once (2 ∷ []) (3 ∷ []) 7 new (check_seq (2 ∷ []) (4 ∷ []) 7 sender_seen).0 here
      seven_accepted (next here (checks (2 ∷ []) (4 ∷ []) 7))
