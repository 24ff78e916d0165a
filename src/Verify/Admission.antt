-- ===== src/Verify/Admission.antt =====
-- src/transport/verify.rs: the admission of an envelope to the ledger of src/ledger_envelope.rs:
-- parents, then the window of sequence numbers, then the store.
use bolina_rs.Prelude.{
  ℕ, ◌≡◌, refl, sym, ap, true, some, List, Result, ok, err, if◌then◌else◌, Bool-cases, inl, inr,
}
use bolina_rs.Prelude.Bytes.{Bytes}
use bolina_rs.EvidenceLedger.{
  Ledger, LedgerError, EnvelopeEntry, new, window_stale, all_parents_present, check_seq,
  insert_envelope, find_envelope,
}
use bolina_rs.EvidenceLedger.Invariant.{Reach, Reach_trans, here, next, inserts}
use bolina_rs.EvidenceLedger.Windows.{check_seq_once}
use bolina_rs.EvidenceLedger.Records.{insert_envelope_found}
use bolina_rs.Verify.{VerifyError, unknown_parents, seq_window_stale, equivocation}

-- Both `map_err` have one answer for all errors.
unfoldable pub after_insert :
    Ledger × Result (Unit {0}) LedgerError → Ledger × Result (Unit {0}) VerifyError
after_insert (l, ok u) = (l, ok tt)
after_insert (l, err e) = (l, err equivocation)

unfoldable pub after_seq :
    EnvelopeEntry → Ledger × Result (Unit {0}) LedgerError → Ledger × Result (Unit {0}) VerifyError
unfolding after_insert
after_seq entry (l, ok u) = after_insert (insert_envelope entry l)
after_seq entry (l, err e) = (l, err seq_window_stale)

unfoldable pub verify_envelope_admission :
    Bytes → Bytes → Bytes → ℕ → List Bytes → Ledger → Ledger × Result (Unit {0}) VerifyError
unfolding after_seq
verify_envelope_admission hash sender channel seq parents l =
    if all_parents_present parents l
    then after_seq (record { hash = hash; sender = sender; channel = channel; seq = seq })
        (check_seq sender channel seq l)
    else (l, err unknown_parents)

-- What an admission that succeeds did.
record IsAdmitted (hash sender channel : Bytes) (seq : ℕ) (parents : List Bytes) (l l' : Ledger)
    : Type 0 where
  parents_present : all_parents_present parents l ≡ true
  fresh : (check_seq sender channel seq l).1 ≡ ok tt
  inserted :
      insert_envelope
        (record { hash = hash; sender = sender; channel = channel; seq = seq })
        (check_seq sender channel seq l).0
      ≡ (l', ok tt)

after_insert-ok :
    (p : Ledger × Result (Unit {0}) LedgerError) (l' : Ledger)
    → after_insert p ≡ (l', ok tt)
    → p ≡ (l', ok tt)
unfolding after_insert
after_insert-ok (l, ok u) l' h = cc (h)
after_insert-ok (l, err e) l' h = absurd (cc (h))

after_seq-ok :
    (entry : EnvelopeEntry) (p : Ledger × Result (Unit {0}) LedgerError) (l' : Ledger)
    → after_seq entry p ≡ (l', ok tt)
    → (p.1 ≡ ok tt) × (insert_envelope entry p.0 ≡ (l', ok tt))
unfolding after_seq
after_seq-ok entry (l, ok u) l' h = (refl, after_insert-ok (insert_envelope entry l) l' h)
after_seq-ok entry (l, err e) l' h = absurd (cc (h))

after_seq-stale :
    (entry : EnvelopeEntry) (p : Ledger × Result (Unit {0}) LedgerError)
    → p.1 ≡ err window_stale
    → (after_seq entry p).1 ≡ err seq_window_stale
unfolding after_seq
after_seq-stale entry (l, ok u) h = absurd (cc (h))
after_seq-stale entry (l, err e) h = refl

admission-IsAdmitted :
    (hash sender channel : Bytes) (seq : ℕ) (parents : List Bytes) (l l' : Ledger)
    → verify_envelope_admission hash sender channel seq parents l ≡ (l', ok tt)
    → IsAdmitted hash sender channel seq parents l l'
unfolding verify_envelope_admission
admission-IsAdmitted hash sender channel seq parents l l' h =
    elim (Bool-cases (all_parents_present parents l)) [
      | inl present ↦
          let (fresh, inserted) =
            after_seq-ok (record { hash = hash; sender = sender; channel = channel; seq = seq })
              (check_seq sender channel seq l) l' (rw present at h) in
          record { parents_present = present; fresh = fresh; inserted = inserted }
      | inr missing ↦ absurd (cc (rw missing at h))
    ]

-- An envelope that is admitted had all its parents in the ledger, and is in the ledger then under its
-- sender, channel and sequence number.
pub admission_records :
    (hash sender channel : Bytes) (seq : ℕ) (parents : List Bytes) (l l' : Ledger)
    → verify_envelope_admission hash sender channel seq parents l ≡ (l', ok tt)
    → (all_parents_present parents l ≡ true) × (find_envelope sender channel seq l' ≡ some hash)
admission_records hash sender channel seq parents l l' h =
    let a = admission-IsAdmitted hash sender channel seq parents l l' h in
    (
      a.parents_present,
      insert_envelope_found (record { hash = hash; sender = sender; channel = channel; seq = seq })
          (check_seq sender channel seq l).0 l' a.inserted,
    )

-- From an empty ledger: an envelope that was admitted is not admitted again, and neither is another
-- one under its sender, channel and sequence number, whatever its hash and whatever calls arrive in
-- between. When the parents are present the error is that of a stale sequence number: the repetition
-- is not accepted as one, and the equivocation is not reported as one.
pub admission_once :
    (hash other sender channel : Bytes) (seq : ℕ) (parents more : List Bytes) (l l' t : Ledger)
    → Reach new l
    → verify_envelope_admission hash sender channel seq parents l ≡ (l', ok tt)
    → Reach l' t
    → (verify_envelope_admission other sender channel seq more t).1
      ≡ (if all_parents_present more t then err seq_window_stale else err unknown_parents)
unfolding verify_envelope_admission
admission_once hash other sender channel seq parents more l l' t before admitted after =
    let a = admission-IsAdmitted hash sender channel seq parents l l' admitted in
    let entry : EnvelopeEntry = record {
      hash = hash;
      sender = sender;
      channel = channel;
      seq = seq;
    } in
    let inserted : Reach (check_seq sender channel seq l).0 l' =
      (let e = ap (λ (p : Ledger × Result (Unit {0}) LedgerError). p.0) a.inserted in
        rw (sym e) (next here (inserts entry))) in
    let stale = check_seq_once sender channel seq l t before a.fresh (Reach_trans inserted after) in
    elim (Bool-cases (all_parents_present more t)) [
      | inl present ↦ rw present (after_seq-stale _ (check_seq sender channel seq t) stale)
      | inr missing ↦ rw missing refl
    ]
