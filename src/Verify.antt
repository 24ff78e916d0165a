-- ===== src/Verify.antt =====
-- src/transport/verify.rs: who may do what. The hash BLAKE2s-256 and the verification of Ed25519
-- signatures are parameters, and so are the hooks that the caller gives. Where a sum or product of `u64` overflows the program panics:
-- the result is then the error `stopped`, which no code behind it recovers from.
pub mod Grants
pub mod Control
pub mod Scopes
pub mod Admission
pub mod Examples
use bolina_rs.Prelude.{
  ℕ, zero, suc, ◌+◌, ◌-◌, ◌*◌, ◌%◌, ◌^◌, Bool, true, false, not, ◌&&◌, ◌||◌, Option, none, some,
  List, [], ◌∷◌, ◌++◌, length, get_or, take, ltb, leb, ◌==◌, if◌then◌else◌, Result, ok, err,
}
use Prim.Native.Nat.{bit_and}
use bolina_rs.Prelude.Outcome.{◌>>=◌, ◌>>◌, refuse_if, ok_or}
use bolina_rs.Prelude.Bytes.{Bytes, bytes_eq, slice}
use bolina_rs.Prelude.Search.{get_elem?, find}
use bolina_rs.Codec.Limits.{len_pubkey, len_sig, len_intent_id, len_scope_id}
use bolina_rs.Codec.Messages.{Envelope, Grant, Refusal, Cert}
use bolina_rs.Intent as Pending

-- The domain, body and role tags of src/codec.rs.
abbrev pub domain_cert : ℕ
domain_cert = 1

abbrev pub domain_envelope : ℕ
domain_envelope = 2

abbrev pub domain_grant : ℕ
domain_grant = 4

abbrev pub domain_refusal : ℕ
domain_refusal = 6

abbrev pub body_utterance : ℕ
body_utterance = 1

abbrev pub body_intent : ℕ
body_intent = 2

abbrev pub body_grant : ℕ
body_grant = 3

abbrev pub body_effect : ℕ
body_effect = 4

abbrev pub body_control : ℕ
body_control = 5

abbrev pub body_refusal : ℕ
body_refusal = 6

abbrev pub role_agent : ℕ
role_agent = 2

abbrev pub role_executor : ℕ
role_executor = 4

abbrev pub role_approver : ℕ
role_approver = 8

pub data VerifyError : Type 0 where
  bad_version bad_envelope_binding bad_signature malformed_key bad_approver_cert : VerifyError
  bad_subject_cert approver_revoked approver_out_of_scope subject_revoked : VerifyError
  subject_out_of_scope wrong_executor wrong_subject no_matching_intent wrong_resource : VerifyError
  action_digest_mismatch expired already_consumed wrong_body_type seq_window_stale : VerifyError
  equivocation unknown_parents bad_control_body : VerifyError
  -- none of the source's classes: a sum overflowed, and the program stopped with a panic
  stopped : VerifyError

-- `(role_bits & role) == 0`
unfoldable pub lacks_role : ℕ → Cert → Bool
lacks_role role c = bit_and c.role_bits role == 0

-- The value does not fit in a `u64` (`overflow-checks = true`).
abbrev pub overflows : ℕ → Bool
overflows n = leb (2 ^ 64) n

unfoldable pub check_expiry : ℕ → ℕ → ℕ → ℕ → ℕ → Result (Unit {0}) VerifyError
unfolding refuse_if
check_expiry not_after now first_receipt t_max_s t_recv_s = do
  refuse_if (overflows (t_max_s * 1000) || overflows (t_recv_s * 1000)) stopped
  refuse_if (leb not_after now) expired
  refuse_if (overflows (first_receipt + t_max_s * 1000)) stopped
  refuse_if (ltb (first_receipt + t_max_s * 1000) not_after) expired
  refuse_if (overflows (first_receipt + t_recv_s * 1000)) stopped
  refuse_if (ltb (first_receipt + t_recv_s * 1000) now) expired

abbrev pub sender_max_action : ℕ
sender_max_action = 512

pub record SenderEntry : Type 0 where
  pub intent_id : Bytes
  pub sender : Bytes
  pub action : Bytes
  pub action_len : ℕ

pub record SenderTable : Type 0 where
  pub entries : List SenderEntry

unfoldable pub lookup : Bytes → SenderTable → Option SenderEntry
unfolding find
lookup intent_id t = find (λ e. bytes_eq e.intent_id intent_id) t.entries

pub record GrantContext : Type 0 where
  pub own_pubkey : Bytes
  pub approver_cert : Cert
  pub subject_cert : Cert
  pub trusted_ca_keys : List Bytes
  pub intent_table : Pending.Table
  pub sender_table : SenderTable
  pub now_ms : ℕ
  pub first_receipt_ms : ℕ
  pub t_max_s : ℕ
  pub t_recv_s : ℕ

pub data EffectOutcome : Type 0 where
  fired refused : EffectOutcome

-- The loop of `cert_carries_scope`, and of `cert_carries_scope_raw`, over `n` scopes from `i` on.
unfoldable pub carries_from : ℕ → ℕ → Bytes → Bytes → Bool
carries_from zero i ids scope = false
carries_from (suc n) i ids scope =
    let rest = carries_from n (i + 1) ids scope in
    if leb (i * len_scope_id + len_scope_id) (length ids)
      && bytes_eq (slice (i * len_scope_id) (i * len_scope_id + len_scope_id) ids) scope
    then true
    else rest

unfoldable pub cert_carries_scope : Cert → Bytes → Bool
unfolding carries_from
cert_carries_scope c scope = carries_from c.scope_count 0 c.scope_ids scope

-- The inner loop of `scope_covers_resource`, from `new_end` down to a slash.
unfoldable pub back_to_slash : ℕ → Bytes → ℕ
back_to_slash zero resource = 0
back_to_slash (suc n) resource =
    if get_or resource n 0 == 47 then suc n else back_to_slash n resource

abbrev entry_at : Pending.Table → Option ℕ → Option Pending.Entry
entry_at t none = none
entry_at t (some i) = get_elem? t.entries i

-- The entry of the table that waits for the grant.
pub pending_entry : Bytes → Pending.Table → Option Pending.Entry
pending_entry id t = entry_at t (Pending.match_for_grant id t)

module _ (hash : Bytes → Bytes) (ed25519 : Bytes → Bytes → Bytes → Bool) where
  -- `verify_signed` of src/codec.rs. The parameter `ed25519`, at key, message and signature, is false
  -- also where the key is no point or the signature is not of its form.
  unfoldable pub verify_signed : ℕ → Bytes → Bytes → Bytes → Bool
  verify_signed tag tbs sig signer =
      if length signer == 32 then ed25519 signer (tag ∷ tbs) sig else false

  unfoldable pub verify_signed_err : ℕ → Bytes → Bytes → Bytes → Result (Unit {0}) VerifyError
  unfolding verify_signed
  verify_signed_err tag tbs sig pubkey =
      if not (length pubkey == len_pubkey)
      then err malformed_key
      else if not (length sig == len_sig)
      then err bad_signature
      else if verify_signed tag tbs sig pubkey
      then ok tt
      else err bad_signature

  unfoldable pub verify_envelope : Envelope → Result (Unit {0}) VerifyError
  unfolding verify_signed_err
  verify_envelope env = verify_signed_err domain_envelope env.tbs env.sig env.sender

  pub action_digest : Bytes → Bytes
  action_digest action = hash action

  -- The outer loop of `scope_covers_resource`, at most as many times as there are bytes.
  unfoldable covers_from : ℕ → Cert → Bytes → ℕ → Bool
  unfolding cert_carries_scope back_to_slash
  covers_from zero c resource end = false
  covers_from (suc fuel) c resource end =
      let start = back_to_slash end resource in
      let rest = covers_from fuel c resource (start - 1) in
      if end == 0
      then false
      else if cert_carries_scope c (take len_scope_id (hash (take end resource)))
      then true
      else if start == 0
      then false
      else rest

  pub scope_covers_resource : Cert → Bytes → Bool
  unfolding covers_from
  scope_covers_resource c resource = covers_from (length resource + 1) c resource (length resource)

  -- `if cert.version >= 3 { if !scope_covers_resource(..) { return Err(..) } }`
  unfoldable pub out_of_scope : Cert → Bytes → Bool
  out_of_scope c resource = leb 3 c.version && not (scope_covers_resource c resource)

  module _ (is_revoked : Bytes → Bool) where
    -- Checks 1 to 10, for the entry and the sender that the intent has.
    unfoldable checks_for :
        Envelope
        → Grant
        → GrantContext
        → Pending.Entry
        → SenderEntry
        → Result (Unit {0}) VerifyError
    unfolding refuse_if verify_signed_err lacks_role out_of_scope check_expiry
    checks_for env grant ctx entry sender = do
      refuse_if (not (env.body_type == body_grant)) bad_envelope_binding
      refuse_if (not (bytes_eq env.sender grant.approver)) bad_envelope_binding
      verify_signed_err domain_grant grant.tbs grant.sig grant.approver
      refuse_if (lacks_role role_approver ctx.approver_cert) bad_approver_cert
      refuse_if (not (bytes_eq ctx.approver_cert.sig_pubkey grant.approver)) bad_approver_cert
      refuse_if (is_revoked ctx.approver_cert.sig_pubkey) approver_revoked
      refuse_if (out_of_scope ctx.approver_cert grant.resource_id) approver_out_of_scope
      refuse_if (lacks_role role_agent ctx.subject_cert) bad_subject_cert
      refuse_if (not (bytes_eq ctx.subject_cert.sig_pubkey grant.subject)) bad_subject_cert
      refuse_if (is_revoked ctx.subject_cert.sig_pubkey) subject_revoked
      refuse_if (out_of_scope ctx.subject_cert grant.resource_id) subject_out_of_scope
      refuse_if (not (bytes_eq grant.executor ctx.own_pubkey)) wrong_executor
      refuse_if (not (bytes_eq grant.subject sender.sender)) wrong_subject
      refuse_if (not (bytes_eq grant.intent_id entry.intent_id)) no_matching_intent
      refuse_if (not (bytes_eq grant.resource_id (take entry.resource_len entry.resource_id)))
          wrong_resource
      refuse_if
          (not
            (bytes_eq grant.action_digest (action_digest (take sender.action_len sender.action))))
          action_digest_mismatch
      check_expiry grant.not_after ctx.now_ms ctx.first_receipt_ms ctx.t_max_s ctx.t_recv_s

    -- What comes before check 11.
    pub grant_checks : Envelope → Grant → GrantContext → Result (Unit {0}) VerifyError
    unfolding refuse_if ok_or lookup checks_for
    grant_checks env grant ctx = do
      refuse_if (not (grant.version == 2)) bad_version
      refuse_if (not (length grant.intent_id == len_intent_id)) bad_envelope_binding
      entry ← ok_or no_matching_intent (pending_entry grant.intent_id ctx.intent_table)
      sender ← ok_or no_matching_intent (lookup grant.intent_id ctx.sender_table)
      checks_for env grant ctx entry sender

    -- The hooks that change what is outside, a value of `W`: the ledger of consumed grants and the effect.
    module _ {W : Type 0} (already_consumed : Bytes → ℕ → ℕ → W → W × Bool)
        (execute : Grant → W → W × EffectOutcome) where
      unfoldable run_effect : Grant → W × Bool → W × Result EffectOutcome VerifyError
      run_effect grant (w, true) = (w, err VerifyError.already_consumed)
      run_effect grant (w, false) = (let (w', outcome) = execute grant w in (w', ok outcome))

      unfoldable after_checks :
          Grant → ℕ → W → Result (Unit {0}) VerifyError → W × Result EffectOutcome VerifyError
      unfolding run_effect
      after_checks grant now w (err e) = (w, err e)
      after_checks grant now w (ok u) =
          run_effect grant (already_consumed grant.grant_id grant.not_after now w)

      pub verify_grant_then :
          Envelope → Grant → GrantContext → W → W × Result EffectOutcome VerifyError
      unfolding after_checks
      verify_grant_then env grant ctx w =
          after_checks grant ctx.now_ms w (grant_checks env grant ctx)
