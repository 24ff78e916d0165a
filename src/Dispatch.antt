-- ===== src/Dispatch.antt =====
-- src/transport/dispatch.rs: the router of envelopes. The hooks are parameters; those that change what
-- is outside map a value of `W` to its next. The seams of the durable ledger and of the events, which
-- do nothing, are not modelled.
pub mod Grants
pub mod Intents
pub mod Records
pub mod Examples
use bolina_rs.Prelude.{
  ℕ, ◌+◌, ◌-◌, Bool, true, false, not, Option, none, some, List, [], ◌∷◌, ◌++◌, length, ltb, ◌==◌,
  if◌then◌else◌, Result, ok, err,
}
use bolina_rs.Prelude.Bits.{repeat}
use bolina_rs.Prelude.Bytes.{Bytes}
use bolina_rs.Codec.Cursor.{ParseError}
use bolina_rs.Codec.Messages.{Envelope, Intent, Grant, Refusal, Cert}
use bolina_rs.Codec.Parse.{parse_envelope, parse_intent, parse_grant, parse_refusal}
use bolina_rs.Intent as Pending
use bolina_rs.Resolver.{Resolver, ResolveError, resolve_and_admit}
use bolina_rs.Verify.{
  VerifyError, SenderEntry, SenderTable, GrantContext, EffectOutcome, sender_max_action,
  body_utterance, body_intent, body_grant, body_effect, body_control, body_refusal, verify_envelope,
  verify_grant_then,
}
use bolina_rs.Verify.Control.{RefusalContext, verify_refusal_then}

abbrev pub t_max_s_default : ℕ
t_max_s_default = 3600

abbrev pub t_recv_s_default : ℕ
t_recv_s_default = 300

abbrev pub max_action : ℕ
max_action = sender_max_action

pub data DispatchError : Type 0 where
  bad_envelope bad_body unsupported_body no_pending_intent unknown_sender : DispatchError
  action_too_large disk_error : DispatchError
  verify : VerifyError → DispatchError
  resolve : ResolveError → DispatchError

pub data Outcome : Type 0 where
  intent_admitted grant_executed effect_refused refusal_applied utterance control effect : Outcome

pub record Dispatch : Type 0 where
  pub resolver : Resolver
  pub intent_table : Pending.Table
  pub sender_table : SenderTable
  pub own_pubkey : Bytes
  pub own_cert : Cert
  pub trusted_ca_keys : List Bytes

-- The record of a sender, its buffers filled with zeros.
unfoldable pub sender_entry : Envelope → Intent → SenderEntry
unfolding repeat
sender_entry env i = record {
  intent_id = i.intent_id;
  sender = if length env.sender == 32 then env.sender else repeat 32 0;
  action = i.action ++ repeat (sender_max_action - length i.action) 0;
  action_len = length i.action;
}

unfoldable pub after_admission :
    Envelope
    → Intent
    → Dispatch
    → Pending.Table × Result (Unit {0}) ResolveError
    → Dispatch × Result Outcome DispatchError
unfolding sender_entry
after_admission env i d (t, err e) = (record d { intent_table = t }, err (resolve e))
after_admission env i d (t, ok u) =
    if ltb max_action (length i.action)
    then (record d { intent_table = t }, err action_too_large)
    else (
      record d {
        intent_table = t;
        sender_table = record { entries = d.sender_table.entries ++ sender_entry env i ∷ [] };
      },
      ok intent_admitted,
    )

unfoldable pub admit_parsed :
    Envelope → ℕ → Dispatch → Result Intent ParseError → Dispatch × Result Outcome DispatchError
unfolding after_admission
admit_parsed env now d (err e) = (d, err bad_body)
admit_parsed env now d (ok i) =
    if not (length i.intent_id == 16)
    then (d, err bad_body)
    else after_admission env i d
        (resolve_and_admit i.intent_id i.resource_id now d.resolver d.intent_table)

pub dispatch_intent : Envelope → ℕ → Dispatch → Dispatch × Result Outcome DispatchError
unfolding admit_parsed
dispatch_intent env now d = admit_parsed env now d (parse_intent env.body)

module _ (hash : Bytes → Bytes) (ed25519 : Bytes → Bytes → Bytes → Bool)
    (cert_for_sender : Bytes → Option Cert) (is_revoked : Bytes → Bool) {W : Type 0}
    (already_consumed : Bytes → ℕ → ℕ → W → W × Bool)
    (execute_effect : Grant → W → W × EffectOutcome) (on_rejected : Bytes → W → W) where
  unfoldable pub grant_context : ℕ → Dispatch → Cert → GrantContext
  grant_context now d sender_cert = record {
    own_pubkey = d.own_pubkey;
    approver_cert = sender_cert;
    subject_cert = sender_cert;
    trusted_ca_keys = d.trusted_ca_keys;
    intent_table = d.intent_table;
    sender_table = d.sender_table;
    now_ms = now;
    first_receipt_ms = now;
    t_max_s = t_max_s_default;
    t_recv_s = t_recv_s_default;
  }

  unfoldable after_grant : W × Result EffectOutcome VerifyError → W × Result Outcome DispatchError
  after_grant (w, err e) = (w, err (verify e))
  after_grant (w, ok EffectOutcome.fired) = (w, ok grant_executed)
  after_grant (w, ok EffectOutcome.refused) = (w, ok effect_refused)

  unfoldable grant_from :
      Envelope → ℕ → Dispatch → W → Grant → Option Cert → W × Result Outcome DispatchError
  unfolding grant_context after_grant
  grant_from env now d w grant none = (w, err unknown_sender)
  grant_from env now d w grant (some cert) = after_grant (
      verify_grant_then hash ed25519 is_revoked already_consumed execute_effect env grant
        (grant_context now d cert) w)

  unfoldable grant_parsed :
      Envelope → ℕ → Dispatch → W → Result Grant ParseError → W × Result Outcome DispatchError
  unfolding grant_from
  grant_parsed env now d w (err e) = (w, err bad_body)
  grant_parsed env now d w (ok grant) = grant_from env now d w grant (cert_for_sender env.sender)

  pub dispatch_grant : Envelope → ℕ → Dispatch → W → W × Result Outcome DispatchError
  unfolding grant_parsed
  dispatch_grant env now d w = grant_parsed env now d w (parse_grant env.body)

  unfoldable after_refusal :
      Dispatch
      → Pending.Table × W × Result (Unit {0}) VerifyError
      → Dispatch × W × Result Outcome DispatchError
  after_refusal d (t, w, err e) = (record d { intent_table = t }, w, err (verify e))
  after_refusal d (t, w, ok u) = (record d { intent_table = t }, w, ok refusal_applied)

  unfoldable refusal_from :
      Envelope
      → ℕ
      → Dispatch
      → W
      → Refusal
      → Option Cert
      → Dispatch × W × Result Outcome DispatchError
  unfolding after_refusal
  refusal_from env now d w refusal none = (d, w, err unknown_sender)
  refusal_from env now d w refusal (some cert) = after_refusal d (
      verify_refusal_then hash ed25519 on_rejected env refusal
        (record {
          trusted_ca_keys = d.trusted_ca_keys;
          approver_cert = cert;
          now_ms = now;
          intent_table = d.intent_table;
        })
        w)

  unfoldable refusal_parsed :
      Envelope
      → ℕ
      → Dispatch
      → W
      → Result Refusal ParseError
      → Dispatch × W × Result Outcome DispatchError
  unfolding refusal_from
  refusal_parsed env now d w (err e) = (d, w, err bad_body)
  refusal_parsed env now d w (ok refusal) =
      refusal_from env now d w refusal (cert_for_sender env.sender)

  pub dispatch_refusal : Envelope → ℕ → Dispatch → W → Dispatch × W × Result Outcome DispatchError
  unfolding refusal_parsed
  dispatch_refusal env now d w = refusal_parsed env now d w (parse_refusal env.body)

  -- `match env.body_type`
  unfoldable route : Envelope → ℕ → Dispatch → W → Dispatch × W × Result Outcome DispatchError
  unfolding dispatch_intent dispatch_grant dispatch_refusal
  route env now d w =
      if env.body_type == body_intent
      then (let (d', r) = dispatch_intent env now d in (d', w, r))
      else if env.body_type == body_grant
      then (let (w', r) = dispatch_grant env now d w in (d, w', r))
      else if env.body_type == body_refusal
      then dispatch_refusal env now d w
      else if env.body_type == body_utterance
      then (d, w, ok utterance)
      else if env.body_type == body_effect
      then (d, w, ok effect)
      else if env.body_type == body_control
      then (d, w, ok control)
      else (d, w, err unsupported_body)

  unfoldable route_verified :
      Envelope
      → ℕ
      → Dispatch
      → W
      → Result (Unit {0}) VerifyError
      → Dispatch × W × Result Outcome DispatchError
  unfolding route
  route_verified env now d w (err e) = (d, w, err (verify e))
  route_verified env now d w (ok u) = route env now d w

  unfoldable dispatch_parsed :
      ℕ → Dispatch → W → Result Envelope ParseError → Dispatch × W × Result Outcome DispatchError
  unfolding route_verified verify_envelope
  dispatch_parsed now d w (err e) = (d, w, err bad_envelope)
  dispatch_parsed now d w (ok env) = route_verified env now d w (verify_envelope hash ed25519 env)

  pub dispatch : Bytes → ℕ → Dispatch → W → Dispatch × W × Result Outcome DispatchError
  unfolding dispatch_parsed
  dispatch env_bytes now d w = dispatch_parsed now d w (parse_envelope env_bytes)
