-- ===== src/Verify/Control.antt =====
-- src/transport/verify.rs: refusals, the control of channels, the roles of bodies, and certificates
-- that a relay serves.
use bolina_rs.Prelude.{
  ℕ, ◌+◌, ◌-◌, ◌^◌, ◌≤◌, ◌≡◌, ◌⊎◌, ◌↔◌, refl, sym, ap, ◌∙◌, Bool, true, false, not, ◌&&◌, ◌||◌,
  List, ◌++◌, length, take, drop, leb, ltb, ◌==◌, if◌then◌else◌, arith, Result, ok, err, inl, inr,
}
use bolina_rs.Prelude.Outcome.{
  ◌>>◌, refuse_if, bind-ok, refuse_if-ok, refuse_if-false, refuse_if-passed, Result-cases,
}
use bolina_rs.Prelude.{All}
use bolina_rs.Prelude.Tests.{not-false}
use bolina_rs.Prelude.Lists.{take-split, length-drop, length-take_le, All-take, All-drop}
use bolina_rs.Prelude.Bytes.{
  Bytes, IsByte, to_be_bytes-from, bytes_eq, slice, from_be_bytes, to_be_bytes,
}
use bolina_rs.Prelude.Search.{any}
use bolina_rs.Codec.Messages.{Envelope, Refusal, Cert}
use bolina_rs.Intent as Pending
use bolina_rs.Verify.{
  VerifyError, bad_envelope_binding, bad_approver_cert, domain_cert, domain_refusal, body_intent,
  body_grant, body_effect, body_control, body_refusal, role_agent, role_approver, role_executor,
  lacks_role, verify_signed, verify_signed_err, carries_from,
}
use bolina_rs.Verify.Grants.{IsSigned, verify_signed_err_iff, passes_eq}
use Prim.Native.Nat.{bit_and}

pub record RefusalContext : Type 0 where
  pub trusted_ca_keys : List Bytes
  pub approver_cert : Cert
  pub now_ms : ℕ
  pub intent_table : Pending.Table

pub data ChannelError : Type 0 where
  bad_match_rule bad_channel_id duplicate_genesis genesis_not_admin bad_action_type : ChannelError
  revoke_not_admin subject_revoked not_member : ChannelError

unfoldable cert_carries_scope_raw : Cert → Bytes → Bool
unfolding carries_from
cert_carries_scope_raw c scope = carries_from c.scope_count 0 c.scope_ids scope

pub verify_control : ℕ → Cert → Bytes → Result (Unit {0}) ChannelError
unfolding refuse_if cert_carries_scope_raw
verify_control action_type sender_cert admin_group = do
  refuse_if (not (action_type == 1) && not (action_type == 2)) bad_action_type
  refuse_if (action_type == 2 && not (cert_carries_scope_raw sender_cert admin_group))
      revoke_not_admin

pub body_type_allowed : ℕ → ℕ → Bool
body_type_allowed body_type role_bits =
    let is_agent = not (bit_and role_bits role_agent == 0) in
    let is_approver = not (bit_and role_bits role_approver == 0) in
    let is_executor = not (bit_and role_bits role_executor == 0) in
    if body_type == body_intent
    then is_agent
    else if body_type == body_grant || body_type == body_refusal
    then is_approver
    else if body_type == body_effect
    then is_executor
    else body_type == body_control

pub revoke_prune_expiry : Bytes → ℕ
unfolding from_be_bytes
revoke_prune_expiry body = if leb 8 (length body) then from_be_bytes (take 8 body) else 2 ^ 64 - 1

pub data MeshError : Type 0 where
  untrusted expired bad_signature malformed_cert : MeshError

pub record MeshContext : Type 0 where
  pub trusted_anchors : List Bytes
  pub now_ms : ℕ

pub require_member : (Bytes → Bool) → Cert → Bytes → Result (Unit {0}) ChannelError
unfolding refuse_if cert_carries_scope_raw
require_member is_revoked sender_cert member_group = do
  refuse_if (is_revoked sender_cert.sig_pubkey) subject_revoked
  refuse_if (not (cert_carries_scope_raw sender_cert member_group)) not_member

module _ (hash : Bytes → Bytes) (ed25519 : Bytes → Bytes → Bytes → Bool) where
  pub verify_control_genesis :
      (Bytes → Bool) → Bytes → Bytes → Cert → Bytes → Bytes → Result (Unit {0}) ChannelError
  unfolding refuse_if cert_carries_scope_raw
  verify_control_genesis genesis_exists name ca_key_0 admin_cert admin_group channel_id = do
    refuse_if (not (cert_carries_scope_raw admin_cert admin_group)) genesis_not_admin
    refuse_if (not (bytes_eq channel_id (hash (name ++ ca_key_0)))) bad_channel_id
    refuse_if (genesis_exists channel_id) duplicate_genesis

  -- What is signed: the key and the expiry.
  abbrev served_tbs : Bytes → Bytes
  served_tbs cert_bytes =
      take 32 cert_bytes ++ to_be_bytes 8 (from_be_bytes (slice 32 40 cert_bytes))

  -- What `then` makes of the key.
  module _ {R : Type 0} (is_revoked : Bytes → Bool) (then_with : Bytes → R) where
    pub verify_served_cert_then : Bytes → MeshContext → Result R MeshError
    unfolding refuse_if verify_signed any from_be_bytes
    verify_served_cert_then cert_bytes ctx = do
      refuse_if (ltb (length cert_bytes) (32 + 8 + 64)) malformed_cert
      refuse_if (ltb (from_be_bytes (slice 32 40 cert_bytes)) ctx.now_ms) MeshError.expired
      refuse_if
          (not (
            any
              (λ anchor.
                verify_signed hash ed25519 domain_cert (served_tbs cert_bytes)
                  (slice 40 104 cert_bytes) anchor)
              ctx.trusted_anchors))
          untrusted
      refuse_if (is_revoked (take 32 cert_bytes)) untrusted
      ok (then_with (take 32 cert_bytes))

  module _ {W : Type 0} (on_rejected : Bytes → W → W) where
    refusal_checks : Envelope → Refusal → RefusalContext → Result (Unit {0}) VerifyError
    unfolding refuse_if verify_signed_err lacks_role
    refusal_checks env refusal ctx = do
      refuse_if (not (env.body_type == body_refusal)) bad_envelope_binding
      verify_signed_err hash ed25519 domain_refusal refusal.tbs refusal.sig env.sender
      refuse_if (lacks_role role_approver ctx.approver_cert) bad_approver_cert
      refuse_if (not (bytes_eq ctx.approver_cert.sig_pubkey env.sender)) bad_approver_cert
      refuse_if (not (length refusal.intent_id == 16)) bad_envelope_binding

    apply_verified :
        Bytes
        → W
        → Pending.Table × Pending.RefusalOutcome
        → Pending.Table × W × Result (Unit {0}) VerifyError
    apply_verified id w (t, Pending.rejected) = (t, on_rejected id w, ok tt)
    apply_verified id w (t, Pending.no_match) = (t, w, ok tt)

    after_refusal_checks :
        Refusal
        → Pending.Table
        → W
        → Result (Unit {0}) VerifyError
        → Pending.Table × W × Result (Unit {0}) VerifyError
    unfolding apply_verified
    after_refusal_checks refusal t w (err e) = (t, w, err e)
    after_refusal_checks refusal t w (ok u) =
        apply_verified refusal.intent_id w (Pending.apply_refusal refusal.intent_id t)

    -- The table of the context comes back as the call leaves it.
    pub verify_refusal_then :
        Envelope → Refusal → RefusalContext → W → Pending.Table × W × Result (Unit {0}) VerifyError
    unfolding refusal_checks after_refusal_checks
    verify_refusal_then env refusal ctx w =
        after_refusal_checks refusal ctx.intent_table w (refusal_checks env refusal ctx)

-- What `take 32 cert_bytes ++ …` is: the expiry is written back as it was read.
module _ (hash : Bytes → Bytes) (ed25519 : Bytes → Bytes → Bytes → Bool) where
  served_tbs_lem :
      (cert_bytes : Bytes)
      → All IsByte cert_bytes
      → 104 ≤ length cert_bytes
      → served_tbs hash ed25519 cert_bytes ≡ take 40 cert_bytes
  served_tbs_lem cert_bytes bytes long =
      let expiry : Bytes = slice 32 40 cert_bytes in
      let bytes_of : All IsByte expiry =
        All-take IsByte 8 (drop 32 cert_bytes) (All-drop IsByte 32 cert_bytes bytes) in
      let size : length expiry ≡ 8 =
        length-take_le 8 (drop 32 cert_bytes) (omega (arith, long, length-drop 32 cert_bytes)) in
      ap (λ t. take 32 cert_bytes ++ t) (to_be_bytes-from 8 expiry bytes_of size)
      ∙ take-split 32 8 40 cert_bytes refl

  -- What a served certificate must have: the key, the expiry and the signature, and an anchor whose
  -- signature over the key and the expiry it is.
  pub record IsServed (is_revoked : Bytes → Bool) (ctx : MeshContext) (cert_bytes : Bytes)
      : Type 0 where
    pub long : 104 ≤ length cert_bytes
    pub current : ctx.now_ms ≤ from_be_bytes (slice 32 40 cert_bytes)
    pub anchored :
        any
          (λ anchor.
            verify_signed hash ed25519 domain_cert
              (take 40 cert_bytes)
              (slice 40 104 cert_bytes)
              anchor)
          ctx.trusted_anchors
        ≡ true
    pub live : is_revoked (take 32 cert_bytes) ≡ false

  module _ {R : Type 0} (is_revoked : Bytes → Bool) (then_with : Bytes → R) where
    -- The callback gets the key of a served certificate exactly when the bytes are long enough, the
    -- expiry is not past, a trusted anchor signed the first forty bytes, and the key is not revoked.
    pub verify_served_cert_then_exact :
        (cert_bytes : Bytes) (ctx : MeshContext) (r : R)
        → All IsByte cert_bytes
        → (verify_served_cert_then hash ed25519 is_revoked then_with cert_bytes ctx ≡ ok r)
          ↔ (IsServed is_revoked ctx cert_bytes × (then_with (take 32 cert_bytes) ≡ r))
    unfolding verify_served_cert_then
    verify_served_cert_then_exact cert_bytes ctx r bytes = (
      λ h.
          let (a, h) = refuse_if-ok (ltb (length cert_bytes) 104) _ _ h in
          let (b, h) =
            refuse_if-ok (ltb (from_be_bytes (slice 32 40 cert_bytes)) ctx.now_ms) _ _ h in
          let (c, h) =
            refuse_if-ok
              (not (
                any
                  (λ anchor.
                    verify_signed hash ed25519 domain_cert (served_tbs hash ed25519 cert_bytes)
                      (slice 40 104 cert_bytes) anchor)
                  ctx.trusted_anchors))
              _ _ h in
          let (d, h) = refuse_if-ok (is_revoked (take 32 cert_bytes)) _ _ h in
          let long : 104 ≤ length cert_bytes = ground (arith, a) in
          (
            record {
              long = long;
              current = ground (arith, b);
              anchored = rw (sym (served_tbs_lem cert_bytes bytes long)) (not-false _ c);
              live = d;
            },
            cc (h),
          ),
      λ (s, same).
          let a : ltb (length cert_bytes) 104 ≡ false = ground (arith, s.long) in
          let b : ltb (from_be_bytes (slice 32 40 cert_bytes)) ctx.now_ms ≡ false =
            ground (arith, s.current) in
          refuse_if-false _ _ _ a
          ∙ refuse_if-false _ _ _ b
          ∙ rw (served_tbs_lem cert_bytes bytes s.long, s.anchored)
              (refuse_if-false _ _ _ s.live ∙ ap ok same),
    )

  module _ {W : Type 0} (on_rejected : Bytes → W → W) where
    -- What a refusal must have.
    pub record IsRefusal (env : Envelope) (refusal : Refusal) (ctx : RefusalContext) : Type 0 where
      pub is_refusal : env.body_type ≡ body_refusal
      pub signed : IsSigned hash ed25519 domain_refusal refusal.tbs refusal.sig env.sender
      pub approver_role : lacks_role role_approver ctx.approver_cert ≡ false
      pub approver_key : ctx.approver_cert.sig_pubkey ≡ env.sender
      pub id_size : length refusal.intent_id ≡ 16

    refusal_checks_sound :
        (env : Envelope) (refusal : Refusal) (ctx : RefusalContext)
        → refusal_checks hash ed25519 on_rejected env refusal ctx ≡ ok tt
        → IsRefusal env refusal ctx
    unfolding refusal_checks
    refusal_checks_sound env refusal ctx h =
        let (a, h) = refuse_if-ok (not (env.body_type == body_refusal)) _ _ h in
        let (_, b, h) =
          bind-ok (verify_signed_err hash ed25519 domain_refusal refusal.tbs refusal.sig env.sender)
            _ h in
        let (c, h) = refuse_if-ok (lacks_role role_approver ctx.approver_cert) _ _ h in
        let (d, h) = refuse_if-ok (not (bytes_eq ctx.approver_cert.sig_pubkey env.sender)) _ _ h in
        let e = refuse_if-passed (not (length refusal.intent_id == 16)) _ h in
        record {
          is_refusal = ground (arith, a);
          signed =
              (verify_signed_err_iff hash ed25519 domain_refusal refusal.tbs refusal.sig
                  env.sender).0
                b;
          approver_role = c;
          approver_key = passes_eq ctx.approver_cert.sig_pubkey env.sender d;
          id_size = ground (arith, e);
        }

    -- What a verified refusal does: `apply_refusal`, and the callback once if it rejected an intent.
    abbrev pub refused_with : Bytes → W → Pending.RefusalOutcome → W
    refused_with id w Pending.rejected = on_rejected id w
    refused_with id w Pending.no_match = w

    apply_verified_lem :
        (id : Bytes) (w : W) (p : Pending.Table × Pending.RefusalOutcome)
        → apply_verified hash ed25519 on_rejected id w p ≡ (p.0, refused_with id w p.1, ok tt)
    unfolding apply_verified
    apply_verified_lem id w (t, Pending.rejected) = refl
    apply_verified_lem id w (t, Pending.no_match) = refl

    -- A refusal either fails a check, and then it changes nothing; or it is signed by its sender, the
    -- approver of the certificate, with the approver's role, and then it does to the table what
    -- `apply_refusal` does, and calls back once if that rejected an intent and not otherwise.
    pub verify_refusal_then_cases :
        (env : Envelope) (refusal : Refusal) (ctx : RefusalContext) (w : W)
        → ((e : VerifyError) × (verify_refusal_then hash ed25519 on_rejected env refusal ctx w
              ≡ (ctx.intent_table, w, err e)))
          ⊎ (IsRefusal env refusal ctx
              × (verify_refusal_then hash ed25519 on_rejected env refusal ctx w ≡ (
                (Pending.apply_refusal refusal.intent_id ctx.intent_table).0,
                refused_with refusal.intent_id w
                    (Pending.apply_refusal refusal.intent_id ctx.intent_table).1,
                ok tt,
              )))
    unfolding verify_refusal_then after_refusal_checks
    verify_refusal_then_cases env refusal ctx w =
        elim (Result-cases (refusal_checks hash ed25519 on_rejected env refusal ctx)) [
          | inl (u, passed) ↦ inr (
            refusal_checks_sound env refusal ctx passed,
            rw passed (
                apply_verified_lem refusal.intent_id w
                  (Pending.apply_refusal refusal.intent_id ctx.intent_table)),
          )
          | inr (e, failed) ↦ inl (e, rw failed refl)
        ]
