-- ===== src/Dispatch/Grants.antt =====
-- src/transport/dispatch.rs: grants, for which the certificate of the sender is taken both as the
-- approver's and as the subject's.
use bolina_rs.Prelude.{
  ℕ, ◌≡◌, refl, sym, ◌∙◌, Bool, true, false, ◌&&◌, Option, some, Result, ok, err, Option-cases, inl,
  inr,
}
use bolina_rs.Prelude.Outcome.{Result-cases}
use bolina_rs.Prelude.Bytes.{Bytes}
use bolina_rs.Codec.Messages.{Envelope, Grant, Cert}
use bolina_rs.Codec.Parse.{parse_grant}
use bolina_rs.Verify.{
  VerifyError, EffectOutcome, role_agent, role_approver, lacks_role, verify_grant_then,
}
use bolina_rs.Verify.Grants.{Authorized, verify_grant_then_executes, verify_grant_then_unauthorized}
use bolina_rs.Binding.{has_role, check_role_constraints}
use bolina_rs.Binding.Chain.{check_role_constraints_sound}
use bolina_rs.Dispatch.{
  Dispatch, DispatchError, Outcome, bad_body, unknown_sender, verify, grant_context, after_grant,
  grant_from, grant_parsed, dispatch_grant,
}

-- A certificate with the roles of an agent and of an approver breaks the constraint on roles.
both_roles :
    (c : Cert)
    → lacks_role role_agent c ≡ false
    → lacks_role role_approver c ≡ false
    → (has_role c.role_bits role_agent && has_role c.role_bits role_approver) ≡ true
unfolding lacks_role has_role
both_roles c a b = rw (a, b) refl

module _ (hash : Bytes → Bytes) (ed25519 : Bytes → Bytes → Bytes → Bool)
    (cert_for_sender : Bytes → Option Cert) (is_revoked : Bytes → Bool) {W : Type 0}
    (already_consumed : Bytes → ℕ → ℕ → W → W × Bool)
    (execute_effect : Grant → W → W × EffectOutcome) (on_rejected : Bytes → W → W) where
  -- What a grant that was executed had.
  pub record IsExecuted (env : Envelope) (now : ℕ) (d : Dispatch) : Type 0 where
    pub grant : Grant
    pub cert : Cert
    pub parsed : parse_grant env.body ≡ ok grant
    pub known : cert_for_sender env.sender ≡ some cert
    pub authorized : Authorized hash ed25519 is_revoked env grant (
        grant_context hash ed25519 cert_for_sender is_revoked already_consumed execute_effect
          on_rejected now d cert)
    pub one_key : grant.approver ≡ grant.subject

  context_one_key :
      (env : Envelope) (now : ℕ) (d : Dispatch) (grant : Grant) (cert : Cert)
      → Authorized hash ed25519 is_revoked env grant (
          grant_context hash ed25519 cert_for_sender is_revoked already_consumed execute_effect
            on_rejected now d cert)
      → grant.approver ≡ grant.subject
  unfolding grant_context
  context_one_key env now d grant cert a = sym a.approver_key ∙ a.subject_key

  context_roles :
      (env : Envelope) (now : ℕ) (d : Dispatch) (grant : Grant) (cert : Cert)
      → Authorized hash ed25519 is_revoked env grant (
          grant_context hash ed25519 cert_for_sender is_revoked already_consumed execute_effect
            on_rejected now d cert)
      → (has_role cert.role_bits role_agent && has_role cert.role_bits role_approver) ≡ true
  unfolding grant_context
  context_roles env now d grant cert a = both_roles cert a.subject_role a.approver_role

  after_grant-ok :
      (p : W × Result EffectOutcome VerifyError) (w' : W) (o : Outcome)
      → after_grant hash ed25519 cert_for_sender is_revoked already_consumed execute_effect
          on_rejected p
        ≡ (w', ok o)
      → (e : EffectOutcome) × (p ≡ (w', ok e))
  unfolding after_grant
  after_grant-ok (w, err e) w' o h = absurd (cc (h))
  after_grant-ok (w, ok EffectOutcome.fired) w' o h = (EffectOutcome.fired, cc (h))
  after_grant-ok (w, ok EffectOutcome.refused) w' o h = (EffectOutcome.refused, cc (h))

  -- A grant is executed only when its body parses, the sender has a certificate, and all that
  -- BE-GRANT-03 asks for holds with that certificate in both places; so the approver and the subject
  -- of the grant are the same key.
  pub dispatch_grant_one_key :
      (env : Envelope) (now : ℕ) (d : Dispatch) (w w' : W) (o : Outcome)
      → dispatch_grant hash ed25519 cert_for_sender is_revoked already_consumed execute_effect
          on_rejected env now d w
        ≡ (w', ok o)
      → IsExecuted env now d
  unfolding dispatch_grant grant_parsed grant_from
  dispatch_grant_one_key env now d w w' o h = elim (Result-cases (parse_grant env.body)) [
    | inr (e, failed) ↦ absurd (cc (rw failed at h))
    | inl (grant, parsed) ↦ elim (Option-cases (cert_for_sender env.sender)) [
      | inl unknown ↦ absurd (cc (rw (parsed, unknown) at h))
      | inr (cert, known) ↦
          let ctx =
            grant_context hash ed25519 cert_for_sender is_revoked already_consumed execute_effect
              on_rejected now d cert in
          let (e, ran) =
            after_grant-ok
              (verify_grant_then hash ed25519 is_revoked already_consumed execute_effect env grant
                ctx w)
              w' o (rw (parsed, known) at h) in
          let (a, _, _) =
            (verify_grant_then_executes hash ed25519 is_revoked already_consumed execute_effect env
                grant ctx w w' e).0
              ran in
          record {
            grant = grant;
            cert = cert;
            parsed = parsed;
            known = known;
            authorized = a;
            one_key = context_one_key env now d grant cert a;
          }
    ]
  ]

  -- When every certificate that is known for a sender keeps the constraints on roles, no grant is ever
  -- executed: the answer is an error, whatever the envelope, and nothing outside changes.
  pub dispatch_grant_never :
      (env : Envelope) (now : ℕ) (d : Dispatch) (w : W)
      → ((key : Bytes) (c : Cert)
          → cert_for_sender key ≡ some c
          → check_role_constraints c.role_bits ≡ ok tt)
      → (e : DispatchError) × (dispatch_grant hash ed25519 cert_for_sender is_revoked
            already_consumed execute_effect on_rejected env now d w
          ≡ (w, err e))
  unfolding dispatch_grant grant_parsed grant_from after_grant
  dispatch_grant_never env now d w separated = elim (Result-cases (parse_grant env.body)) [
    | inr (e, failed) ↦ (bad_body, rw failed refl)
    | inl (grant, parsed) ↦ elim (Option-cases (cert_for_sender env.sender)) [
      | inl unknown ↦ (unknown_sender, rw (parsed, unknown) refl)
      | inr (cert, known) ↦
          let ctx =
            grant_context hash ed25519 cert_for_sender is_revoked already_consumed execute_effect
              on_rejected now d cert in
          let apart =
            (check_role_constraints_sound cert.role_bits
              (separated env.sender cert known)).agent_approver in
          let (e, refused) =
            verify_grant_then_unauthorized hash ed25519 is_revoked already_consumed execute_effect
              env grant ctx w (λ a. cc (apart, context_roles env now d grant cert a)) in
          (verify e, rw (parsed, known, refused) refl)
    ]
  ]
