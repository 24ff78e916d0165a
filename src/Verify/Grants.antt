-- ===== src/Verify/Grants.antt =====
-- src/transport/verify.rs: what a grant that comes through all checks has.
use bolina_rs.Prelude.{
  ℕ, ◌+◌, ◌*◌, ◌^◌, ◌≤◌, ◌<◌, ◌≡◌, ◌⊎◌, ◌↔◌, refl, ◌∙◌, Bool, true, false, not, ◌||◌, some, ◌∷◌,
  length, take, leb, ltb, ◌==◌, arith, ok, err, Bool-cases, inl, inr,
}
use bolina_rs.Prelude.Outcome.{
  refuse_if, ok_or, bind-ok, refuse_if-ok, refuse_if-false, refuse_if-passed, ok_or-ok,
  Result-cases,
}
use bolina_rs.Prelude.Bytes.{Bytes, bytes_eq, bytes_eq_iff}
use bolina_rs.Codec.Messages.{Envelope, Grant, Cert}
use bolina_rs.Intent as Pending
use bolina_rs.Verify.{
  VerifyError, no_matching_intent, SenderEntry, GrantContext, EffectOutcome, domain_grant,
  body_grant, role_agent, role_approver, lacks_role, check_expiry, overflows, lookup, pending_entry,
  verify_signed, verify_signed_err, action_digest, scope_covers_resource, out_of_scope, checks_for,
  grant_checks, run_effect, after_checks, verify_grant_then,
}

-- The outcomes of the tests that the checks are made of.
pub passes_eq : (a b : Bytes) → not (bytes_eq a b) ≡ false → a ≡ b
passes_eq a b h = (bytes_eq_iff a b).0 (ground (arith, h))

pub eq_passes : (a b : Bytes) → a ≡ b → not (bytes_eq a b) ≡ false
eq_passes a b h = (let e = (bytes_eq_iff a b).1 h in ground (arith, e))

-- `t_s` seconds after `from`, in milliseconds.
abbrev pub deadline : ℕ → ℕ → ℕ
deadline from t_s = from + t_s * 1000

-- The three conditions of BE-GRANT-05, on deadlines that fit in a `u64`.
pub record IsCurrent (not_after now first_receipt t_max_s t_recv_s : ℕ) : Type 0 where
  pub fits : deadline first_receipt t_max_s < 2 ^ 64
  pub fits_recv : deadline first_receipt t_recv_s < 2 ^ 64
  pub before_end : now < not_after
  pub bounded : not_after ≤ deadline first_receipt t_max_s
  pub received : now ≤ deadline first_receipt t_recv_s

check_expiry_iff :
    (not_after now first_receipt t_max_s t_recv_s : ℕ)
    → (check_expiry not_after now first_receipt t_max_s t_recv_s ≡ ok tt)
      ↔ IsCurrent not_after now first_receipt t_max_s t_recv_s
unfolding check_expiry refuse_if
check_expiry_iff not_after now first_receipt t_max_s t_recv_s = (
  λ h.
      let (_, h) = refuse_if-ok (overflows (t_max_s * 1000) || overflows (t_recv_s * 1000)) _ _ h in
      let (a, h) = refuse_if-ok (leb not_after now) _ _ h in
      let (f, h) = refuse_if-ok (overflows (deadline first_receipt t_max_s)) _ _ h in
      let (b, h) = refuse_if-ok (ltb (deadline first_receipt t_max_s) not_after) _ _ h in
      let (g, h) = refuse_if-ok (overflows (deadline first_receipt t_recv_s)) _ _ h in
      let d = refuse_if-passed (ltb (deadline first_receipt t_recv_s) now) _ h in
      record {
        fits = ground (arith, f);
        fits_recv = ground (arith, g);
        before_end = ground (arith, a);
        bounded = ground (arith, b);
        received = ground (arith, d);
      },
  λ c.
      let z : (overflows (t_max_s * 1000) || overflows (t_recv_s * 1000)) ≡ false =
        ground (arith, c.fits, c.fits_recv) in
      let a : leb not_after now ≡ false = ground (arith, c.before_end) in
      let f : overflows (deadline first_receipt t_max_s) ≡ false = ground (arith, c.fits) in
      let b : ltb (deadline first_receipt t_max_s) not_after ≡ false = ground (arith, c.bounded) in
      let g : overflows (deadline first_receipt t_recv_s) ≡ false = ground (arith, c.fits_recv) in
      let d : ltb (deadline first_receipt t_recv_s) now ≡ false = ground (arith, c.received) in
      rw (z, a, f, b, g, d) refl,
)

module _ (hash : Bytes → Bytes) (ed25519 : Bytes → Bytes → Bytes → Bool) where
  pub record IsSigned (tag : ℕ) (tbs sig pubkey : Bytes) : Type 0 where
    pub key_size : length pubkey ≡ 32
    pub sig_size : length sig ≡ 64
    pub verifies : ed25519 pubkey (tag ∷ tbs) sig ≡ true

  pub verify_signed_err_iff :
      (tag : ℕ) (tbs sig pubkey : Bytes)
      → (verify_signed_err hash ed25519 tag tbs sig pubkey ≡ ok tt) ↔ IsSigned tag tbs sig pubkey
  unfolding verify_signed_err verify_signed
  verify_signed_err_iff tag tbs sig pubkey = (
    λ h. record {
      key_size = ground (arith, h);
      sig_size = ground (arith, h);
      verifies = ground (arith, h);
    },
    λ s. ground (arith, s.key_size, s.sig_size, s.verifies),
  )

  -- The scope of a certificate from version 3 on.
  abbrev pub IsInScope : Cert → Bytes → Type 0
  IsInScope c resource = 3 ≤ c.version → scope_covers_resource hash ed25519 c resource ≡ true

  out_of_scope_iff :
      (c : Cert) (resource : Bytes)
      → (out_of_scope hash ed25519 c resource ≡ false) ↔ IsInScope c resource
  unfolding out_of_scope
  out_of_scope_iff c resource = (
    λ h new_cert. ground (arith, h),
    λ covers. elim (Bool-cases (leb 3 c.version)) [
      | inl new_cert ↦ (let e = covers (ground (arith, new_cert)) in ground (arith, e))
      | inr old ↦ ground (arith, old)
    ],
  )

  module _ (is_revoked : Bytes → Bool) where
    -- What the code asks of a grant before check 11, for the entry and the sender that its intent has. Of
    -- the checks 3 and 4 of BE-GRANT-03 it asks for the role, the key, the revocation and the scope of a
    -- certificate; neither its signatures nor its period of validity are looked at.
    pub record Authorized (env : Envelope) (grant : Grant) (ctx : GrantContext) : Type 0 where
      pub entry : Pending.Entry
      pub sender : SenderEntry
      pub version : grant.version ≡ 2
      pub id_size : length grant.intent_id ≡ 16
      pub waits : pending_entry grant.intent_id ctx.intent_table ≡ some entry
      pub sent : lookup grant.intent_id ctx.sender_table ≡ some sender
      pub is_grant : env.body_type ≡ body_grant
      pub from_approver : env.sender ≡ grant.approver
      pub signed : IsSigned domain_grant grant.tbs grant.sig grant.approver
      pub approver_role : lacks_role role_approver ctx.approver_cert ≡ false
      pub approver_key : ctx.approver_cert.sig_pubkey ≡ grant.approver
      pub approver_live : is_revoked ctx.approver_cert.sig_pubkey ≡ false
      pub approver_scope : IsInScope ctx.approver_cert grant.resource_id
      pub subject_role : lacks_role role_agent ctx.subject_cert ≡ false
      pub subject_key : ctx.subject_cert.sig_pubkey ≡ grant.subject
      pub subject_live : is_revoked ctx.subject_cert.sig_pubkey ≡ false
      pub subject_scope : IsInScope ctx.subject_cert grant.resource_id
      pub executor : grant.executor ≡ ctx.own_pubkey
      pub subject : grant.subject ≡ sender.sender
      pub same_intent : grant.intent_id ≡ entry.intent_id
      pub resource : grant.resource_id ≡ take entry.resource_len entry.resource_id
      pub action : grant.action_digest ≡ hash (take sender.action_len sender.action)
      pub current :
          IsCurrent grant.not_after ctx.now_ms ctx.first_receipt_ms ctx.t_max_s ctx.t_recv_s

    pub grant_checks_sound :
        (env : Envelope) (grant : Grant) (ctx : GrantContext)
        → grant_checks hash ed25519 is_revoked env grant ctx ≡ ok tt
        → Authorized env grant ctx
    unfolding grant_checks checks_for action_digest
    grant_checks_sound env grant ctx h =
        let (c0, h) = refuse_if-ok (not (grant.version == 2)) _ _ h in
        let (c1, h) = refuse_if-ok (not (length grant.intent_id == 16)) _ _ h in
        let (e, c2, h) =
          bind-ok (ok_or no_matching_intent (pending_entry grant.intent_id ctx.intent_table)) _ h in
        let (s, c3, h) =
          bind-ok (ok_or no_matching_intent (lookup grant.intent_id ctx.sender_table)) _ h in
        let (c4, h) = refuse_if-ok (not (env.body_type == body_grant)) _ _ h in
        let (c5, h) = refuse_if-ok (not (bytes_eq env.sender grant.approver)) _ _ h in
        let (_, c6, h) =
          bind-ok (verify_signed_err hash ed25519 domain_grant grant.tbs grant.sig grant.approver) _
            h in
        let (c7, h) = refuse_if-ok (lacks_role role_approver ctx.approver_cert) _ _ h in
        let (c8, h) =
          refuse_if-ok (not (bytes_eq ctx.approver_cert.sig_pubkey grant.approver)) _ _ h in
        let (c9, h) = refuse_if-ok (is_revoked ctx.approver_cert.sig_pubkey) _ _ h in
        let (c10, h) =
          refuse_if-ok (out_of_scope hash ed25519 ctx.approver_cert grant.resource_id) _ _ h in
        let (c11, h) = refuse_if-ok (lacks_role role_agent ctx.subject_cert) _ _ h in
        let (c12, h) =
          refuse_if-ok (not (bytes_eq ctx.subject_cert.sig_pubkey grant.subject)) _ _ h in
        let (c13, h) = refuse_if-ok (is_revoked ctx.subject_cert.sig_pubkey) _ _ h in
        let (c14, h) =
          refuse_if-ok (out_of_scope hash ed25519 ctx.subject_cert grant.resource_id) _ _ h in
        let (c15, h) = refuse_if-ok (not (bytes_eq grant.executor ctx.own_pubkey)) _ _ h in
        let (c16, h) = refuse_if-ok (not (bytes_eq grant.subject s.sender)) _ _ h in
        let (c17, h) = refuse_if-ok (not (bytes_eq grant.intent_id e.intent_id)) _ _ h in
        let (c18, h) =
          refuse_if-ok (not (bytes_eq grant.resource_id (take e.resource_len e.resource_id))) _ _
            h in
        let (c19, h) =
          refuse_if-ok (not (bytes_eq grant.action_digest (hash (take s.action_len s.action)))) _ _
            h in
        record {
          entry = e;
          sender = s;
          version = ground (arith, c0);
          id_size = ground (arith, c1);
          waits = ok_or-ok no_matching_intent (pending_entry grant.intent_id ctx.intent_table) c2;
          sent = ok_or-ok no_matching_intent (lookup grant.intent_id ctx.sender_table) c3;
          is_grant = ground (arith, c4);
          from_approver = passes_eq env.sender grant.approver c5;
          signed = (verify_signed_err_iff domain_grant grant.tbs grant.sig grant.approver).0 c6;
          approver_role = c7;
          approver_key = passes_eq ctx.approver_cert.sig_pubkey grant.approver c8;
          approver_live = c9;
          approver_scope = (out_of_scope_iff ctx.approver_cert grant.resource_id).0 c10;
          subject_role = c11;
          subject_key = passes_eq ctx.subject_cert.sig_pubkey grant.subject c12;
          subject_live = c13;
          subject_scope = (out_of_scope_iff ctx.subject_cert grant.resource_id).0 c14;
          executor = passes_eq grant.executor ctx.own_pubkey c15;
          subject = passes_eq grant.subject s.sender c16;
          same_intent = passes_eq grant.intent_id e.intent_id c17;
          resource = passes_eq grant.resource_id (take e.resource_len e.resource_id) c18;
          action = passes_eq grant.action_digest (hash (take s.action_len s.action)) c19;
          current =
              (check_expiry_iff grant.not_after ctx.now_ms ctx.first_receipt_ms ctx.t_max_s
                  ctx.t_recv_s).0
                h;
        }

    grant_checks_complete :
        (env : Envelope) (grant : Grant) (ctx : GrantContext)
        → Authorized env grant ctx
        → grant_checks hash ed25519 is_revoked env grant ctx ≡ ok tt
    unfolding grant_checks checks_for action_digest ok_or
    grant_checks_complete env grant ctx a =
        let version : not (grant.version == 2) ≡ false = ground (arith, a.version) in
        let id_size : not (length grant.intent_id == 16) ≡ false = ground (arith, a.id_size) in
        let is_grant : not (env.body_type == body_grant) ≡ false = ground (arith, a.is_grant) in
        let signed =
          (verify_signed_err_iff domain_grant grant.tbs grant.sig grant.approver).1 a.signed in
        let current =
          (check_expiry_iff grant.not_after ctx.now_ms ctx.first_receipt_ms ctx.t_max_s
              ctx.t_recv_s).1
            a.current in
        refuse_if-false _ _ _ version
        ∙ refuse_if-false _ _ _ id_size
        ∙ rw (a.waits, a.sent)
            (refuse_if-false _ _ _ is_grant
              ∙ refuse_if-false _ _ _ (eq_passes env.sender grant.approver a.from_approver)
              ∙ rw signed (
                  refuse_if-false _ _ _ a.approver_role
                  ∙ refuse_if-false _ _ _
                      (eq_passes ctx.approver_cert.sig_pubkey grant.approver a.approver_key)
                  ∙ refuse_if-false _ _ _ a.approver_live
                  ∙ refuse_if-false _ _ _
                      ((out_of_scope_iff ctx.approver_cert grant.resource_id).1 a.approver_scope)
                  ∙ refuse_if-false _ _ _ a.subject_role
                  ∙ refuse_if-false _ _ _
                      (eq_passes ctx.subject_cert.sig_pubkey grant.subject a.subject_key)
                  ∙ refuse_if-false _ _ _ a.subject_live
                  ∙ refuse_if-false _ _ _
                      ((out_of_scope_iff ctx.subject_cert grant.resource_id).1 a.subject_scope)
                  ∙ refuse_if-false _ _ _ (eq_passes grant.executor ctx.own_pubkey a.executor)
                  ∙ refuse_if-false _ _ _ (eq_passes grant.subject a.sender.sender a.subject)
                  ∙ refuse_if-false _ _ _
                      (eq_passes grant.intent_id a.entry.intent_id a.same_intent)
                  ∙ refuse_if-false _ _ _ (
                      eq_passes grant.resource_id (take a.entry.resource_len a.entry.resource_id)
                        a.resource)
                  ∙ refuse_if-false _ _ _ (
                      eq_passes grant.action_digest
                        (hash (take a.sender.action_len a.sender.action)) a.action)
                  ∙ current))

    module _ {W : Type 0} (already_consumed : Bytes → ℕ → ℕ → W → W × Bool)
        (execute : Grant → W → W × EffectOutcome) where
      run_effect-ok :
          (grant : Grant) (p : W × Bool) (w' : W) (o : EffectOutcome)
          → (run_effect hash ed25519 is_revoked already_consumed execute grant p ≡ (w', ok o))
            ↔ ((p.1 ≡ false) × (execute grant p.0 ≡ (w', o)))
      unfolding run_effect
      run_effect-ok grant (w, true) w' o = (λ h. absurd (cc (h)), λ (hit, _). absurd (cc (hit)))
      run_effect-ok grant (w, false) w' o = (λ h. (refl, cc (h)), λ (_, ran). cc (ran))

      run_effect-err :
          (grant : Grant) (p : W × Bool) (w' : W) (e : VerifyError)
          → run_effect hash ed25519 is_revoked already_consumed execute grant p ≡ (w', err e)
          → (e ≡ VerifyError.already_consumed) × (p ≡ (w', true))
      unfolding run_effect
      run_effect-err grant (w, true) w' e h = (cc (h), cc (h))
      run_effect-err grant (w, false) w' e h = absurd (cc (h))

      -- A grant is executed exactly when it is authorized, its deadlines fit in a `u64`, and the ledger's
      -- hook answers that it is not consumed: the effect runs once, on the grant, behind the hook, and
      -- what it leaves and returns is what the call leaves and returns. Authorized does not say that a
      -- certificate is valid at the time, nor that an authority signed it: the code does not ask for it.
      pub verify_grant_then_executes :
          (env : Envelope) (grant : Grant) (ctx : GrantContext) (w w' : W) (o : EffectOutcome)
          → (verify_grant_then hash ed25519 is_revoked already_consumed execute env grant ctx w
              ≡ (w', ok o))
            ↔ (Authorized env grant ctx
                × ((already_consumed grant.grant_id grant.not_after ctx.now_ms w).1 ≡ false)
                × (execute grant (already_consumed grant.grant_id grant.not_after ctx.now_ms w).0
                    ≡ (w', o)))
      unfolding verify_grant_then after_checks
      verify_grant_then_executes env grant ctx w w' o =
          let now_consumed = already_consumed grant.grant_id grant.not_after ctx.now_ms w in
          (
            λ h. elim (Result-cases (grant_checks hash ed25519 is_revoked env grant ctx)) [
              | inl (u, passed) ↦
                  let (fresh, ran) = (run_effect-ok grant now_consumed w' o).0 (rw passed at h) in
                  (grant_checks_sound env grant ctx passed, fresh, ran)
              | inr (e, failed) ↦ absurd (cc (rw failed at h))
            ],
            λ (a, fresh, ran).
                rw (grant_checks_complete env grant ctx a)
                  ((run_effect-ok grant now_consumed w' o).1 (fresh, ran)),
          )

      -- A refusal leaves what is outside as it was, but for the grant that the ledger's hook says is
      -- consumed: then it is as the hook left it. The effect does not run.
      pub verify_grant_then_refuses :
          (env : Envelope) (grant : Grant) (ctx : GrantContext) (w w' : W) (e : VerifyError)
          → verify_grant_then hash ed25519 is_revoked already_consumed execute env grant ctx w
            ≡ (w', err e)
          → (w' ≡ w)
            ⊎ (Authorized env grant ctx
                × (e ≡ VerifyError.already_consumed)
                × (already_consumed grant.grant_id grant.not_after ctx.now_ms w ≡ (w', true)))
      unfolding verify_grant_then after_checks
      verify_grant_then_refuses env grant ctx w w' e h =
          elim (Result-cases (grant_checks hash ed25519 is_revoked env grant ctx)) [
            | inl (u, passed) ↦
                let (why, hook) =
                  run_effect-err grant
                    (already_consumed grant.grant_id grant.not_after ctx.now_ms w) w' e
                    (rw passed at h) in
                inr (grant_checks_sound env grant ctx passed, why, hook)
            | inr (e', failed) ↦ inl (cc (rw failed at h))
          ]

      -- Without what BE-GRANT-03 asks for, nothing outside is touched.
      pub verify_grant_then_unauthorized :
          (env : Envelope) (grant : Grant) (ctx : GrantContext) (w : W)
          → ¬ Authorized env grant ctx
          → (e : VerifyError) × (verify_grant_then hash ed25519 is_revoked already_consumed execute
                env grant ctx w
              ≡ (w, err e))
      unfolding verify_grant_then after_checks
      verify_grant_then_unauthorized env grant ctx w not_authorized =
          elim (Result-cases (grant_checks hash ed25519 is_revoked env grant ctx)) [
            | inl (u, passed) ↦ absurd (not_authorized (grant_checks_sound env grant ctx passed))
            | inr (e, failed) ↦ (e, rw failed refl)
          ]
