-- ===== src/Verify/Examples.antt =====
-- The checks of src/transport/verify.rs at small inputs: the hash is the first bytes of what is
-- hashed, and a signature is good if it begins with the key.
use bolina_rs.Prelude.{
  ℕ, ◌+◌, ◌≡◌, ◌⊎◌, ◌↔◌, refl, Bool, true, false, [], ◌∷◌, ◌++◌, take, ok, err, if◌then◌else◌,
}
use bolina_rs.Prelude.Bytes.{Bytes, bytes_eq}
use bolina_rs.Prelude.Search.{find, find_index}
use bolina_rs.Codec.Messages.{Envelope, Grant, Refusal, Cert}
use bolina_rs.Intent as Pending
use bolina_rs.EvidenceLedger.{
  Ledger, new, all_parents_present, check_seq, seq_scanned, insert_envelope, insert_scanned, is_of,
  is_window_of,
}
use bolina_rs.EvidenceLedger.Invariant.{here}
use bolina_rs.Verify.{
  VerifyError, GrantContext, EffectOutcome, fired, unknown_parents, seq_window_stale,
  cert_carries_scope, scope_covers_resource, verify_grant_then,
}
use bolina_rs.Verify.Grants.{Authorized, verify_grant_then_executes}
use bolina_rs.Verify.Scopes.{IsAncestor, scope_covers_resource_exact}
use bolina_rs.Verify.Control.{
  RefusalContext, IsRefusal, refused_with, verify_refusal_then, verify_refusal_then_cases,
}
use bolina_rs.Verify.Admission.{verify_envelope_admission, after_seq, after_insert, admission_once}

abbrev prefix : Bytes → Bytes
prefix bytes = take 32 bytes

abbrev begins_with_key : Bytes → Bytes → Bytes → Bool
begins_with_key key message sig = bytes_eq (take 32 sig) key

abbrev not_revoked : Bytes → Bool
not_revoked key = false

abbrev id_a : Bytes
id_a = 1 ∷ 2 ∷ 3 ∷ 4 ∷ 5 ∷ 6 ∷ 7 ∷ 8 ∷ 9 ∷ 10 ∷ 11 ∷ 12 ∷ 13 ∷ 14 ∷ 15 ∷ 16 ∷ []

abbrev key_a : Bytes
key_a = id_a ++ id_a

abbrev cert_a : Cert
cert_a = record {
  version = 3;
  role_bits = 10;
  sig_pubkey = key_a;
  kex_pubkey = key_a;
  not_before = 0;
  not_after = 100;
  name = [];
  scope_count = 1;
  scope_ids = 97 ∷ 98 ∷ 99 ∷ 100 ∷ 101 ∷ 102 ∷ 103 ∷ 104 ∷ [];
  ca_sig_count = 1;
  ca_sigs = [];
  tbs = [];
}

-- "abcdefgh/i"
abbrev resource : Bytes
resource = 97 ∷ 98 ∷ 99 ∷ 100 ∷ 101 ∷ 102 ∷ 103 ∷ 104 ∷ 47 ∷ 105 ∷ []

scope_covers_resource_exact_example :
    (scope_covers_resource prefix begins_with_key cert_a resource ≡ true) ↔ (
      (k : ℕ) × IsAncestor resource 10 k
      × (cert_carries_scope cert_a (take 8 (prefix (take k resource))) ≡ true))
scope_covers_resource_exact_example =
    scope_covers_resource_exact prefix begins_with_key cert_a resource

abbrev env_a : ℕ → Envelope
env_a body_type = record {
  version = 1;
  channel_id = key_a;
  sender = key_a;
  seq = 0;
  parent_count = 0;
  parents = [];
  ts = 0;
  body_type = body_type;
  body = [];
  tbs = [];
  sig = key_a ++ key_a;
}

abbrev grant_a : Grant
grant_a = record {
  version = 2;
  grant_id = id_a;
  intent_id = id_a;
  approver = key_a;
  subject = key_a;
  executor = key_a;
  resource_id = resource;
  action_digest = 7 ∷ [];
  not_after = 60;
  tbs = [];
  sig = key_a ++ key_a;
}

abbrev waiting : Pending.Table
waiting = record {
  entries =
      record {
        intent_id = id_a;
        resource_id = resource;
        resource_len = 10;
        state = Pending.State.pending;
        admitted_ms = 40;
      }
      ∷ [];
}

abbrev context_a : GrantContext
context_a = record {
  own_pubkey = key_a;
  approver_cert = cert_a;
  subject_cert = cert_a;
  trusted_ca_keys = [];
  intent_table = waiting;
  sender_table = record {
    entries = record { intent_id = id_a; sender = key_a; action = 7 ∷ 0 ∷ []; action_len = 1 } ∷ [];
  };
  now_ms = 50;
  first_receipt_ms = 50;
  t_max_s = 3600;
  t_recv_s = 300;
}

-- The world counts what was committed and what ran.
abbrev commit_count : Bytes → ℕ → ℕ → ℕ × ℕ → (ℕ × ℕ) × Bool
commit_count id not_after now (committed, ran) = ((committed + 1, ran), false)

abbrev run_count : Grant → ℕ × ℕ → (ℕ × ℕ) × EffectOutcome
run_count grant (committed, ran) = ((committed, ran + 1), fired)

verify_grant_then_executes_example :
    (verify_grant_then prefix begins_with_key not_revoked commit_count run_count
        (env_a 3)
        grant_a
        context_a
        (0, 0)
      ≡ ((1, 1), ok fired))
    ↔ (Authorized prefix begins_with_key not_revoked (env_a 3) grant_a context_a
        × ((commit_count id_a 60 50 (0, 0)).1 ≡ false)
        × (run_count grant_a (commit_count id_a 60 50 (0, 0)).0 ≡ ((1, 1), fired)))
verify_grant_then_executes_example =
    verify_grant_then_executes prefix begins_with_key not_revoked commit_count run_count (env_a 3)
      grant_a context_a (0, 0) (1, 1) fired

abbrev refusal_a : Refusal
refusal_a = record { intent_id = id_a; note = []; tbs = []; sig = key_a ++ key_a }

abbrev refusal_context_a : RefusalContext
refusal_context_a = record {
  trusted_ca_keys = [];
  approver_cert = cert_a;
  now_ms = 50;
  intent_table = waiting;
}

abbrev call_back : Bytes → ℕ → ℕ
call_back id n = n + 1

verify_refusal_then_cases_example :
    ((e : VerifyError) × (verify_refusal_then prefix begins_with_key call_back
          (env_a 6)
          refusal_a
          refusal_context_a
          0
        ≡ (waiting, 0, err e)))
    ⊎ (IsRefusal prefix begins_with_key call_back (env_a 6) refusal_a refusal_context_a
        × (verify_refusal_then prefix begins_with_key call_back
              (env_a 6)
              refusal_a
              refusal_context_a
              0
            ≡ (
              (Pending.apply_refusal id_a waiting).0,
              refused_with prefix begins_with_key call_back id_a 0
                  (Pending.apply_refusal id_a waiting).1,
              ok tt,
            )))
verify_refusal_then_cases_example =
    verify_refusal_then_cases prefix begins_with_key call_back (env_a 6) refusal_a refusal_context_a
      0

abbrev admitted_ledger : Ledger
admitted_ledger = (verify_envelope_admission (9 ∷ []) (2 ∷ []) (3 ∷ []) 7 [] new).0

admitted_seven :
    verify_envelope_admission (9 ∷ []) (2 ∷ []) (3 ∷ []) 7 [] new ≡ (admitted_ledger, ok tt)
unfolding verify_envelope_admission after_seq after_insert all_parents_present check_seq seq_scanned
    find_index is_window_of insert_envelope insert_scanned find is_of
admitted_seven = refl

admission_once_example :
    (verify_envelope_admission (8 ∷ []) (2 ∷ []) (3 ∷ []) 7 [] admitted_ledger).1
    ≡ (if all_parents_present [] admitted_ledger then err seq_window_stale else err unknown_parents)
admission_once_example =
    admission_once (9 ∷ []) (8 ∷ []) (2 ∷ []) (3 ∷ []) 7 [] [] new admitted_ledger admitted_ledger
      here admitted_seven here
