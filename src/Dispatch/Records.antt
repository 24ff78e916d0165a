-- ===== src/Dispatch/Records.antt =====
-- src/transport/dispatch.rs: the records of senders through any envelopes, and what a grant is checked
-- against.
use bolina_rs.Prelude.{
  ℕ, ◌≡◌, ◌⊎◌, inl, inr, Bool, Option, none, some, [], ◌∷◌, take, ◌==◌, Result, ok, err,
}
use bolina_rs.Prelude.Outcome.{Result-cases}
use bolina_rs.Prelude.Tests.{if_known}
use bolina_rs.Prelude.Bytes.{Bytes, bytes_eq}
use bolina_rs.Codec.Cursor.{ParseError}
use bolina_rs.Codec.Messages.{Envelope, Grant, Refusal, Cert}
use bolina_rs.Codec.Parse.{parse_envelope, parse_refusal}
use bolina_rs.Intent as Pending
use bolina_rs.EvidenceLedger.Invariant.{find-append}
use bolina_rs.Verify.{
  VerifyError, SenderEntry, EffectOutcome, lookup, grant_checks, verify_envelope, body_utterance,
  body_intent, body_grant, body_effect, body_control, body_refusal,
}
use bolina_rs.Verify.Grants.{grant_checks_sound}
use bolina_rs.Dispatch.{
  Dispatch, DispatchError, Outcome, dispatch_intent, grant_context, after_refusal, refusal_from,
  refusal_parsed, dispatch_refusal, route, route_verified, dispatch_parsed, dispatch,
}
use bolina_rs.Dispatch.Intents.{
  IntentStep, unparsed, odd_id, unresolved, unrecorded, recorded, dispatch_intent-IntentStep,
}

step-lookup :
    (env : Envelope) (now : ℕ) (d d' : Dispatch) (r : Result Outcome DispatchError) (id : Bytes)
    (e : SenderEntry)
    → IntentStep env now d d' r
    → lookup id d.sender_table ≡ some e
    → lookup id d'.sender_table ≡ some e
unfolding lookup
step-lookup env now d d' r id e (unparsed failed) h = h
step-lookup env now d d' r id e (odd_id i parsed odd) h = h
step-lookup env now d d' r id e (unresolved i parsed size refused) h = h
step-lookup env now d d' r id e (unrecorded i parsed size admitted waits large) h = h
step-lookup env now d d' r id e (recorded {s = s} i parsed size admitted waits small records) h =
    find-append (λ x. bytes_eq x.intent_id id) d.sender_table.entries (s ∷ []) e h

module _ (hash : Bytes → Bytes) (ed25519 : Bytes → Bytes → Bytes → Bool)
    (cert_for_sender : Bytes → Option Cert) (is_revoked : Bytes → Bool) {W : Type 0}
    (already_consumed : Bytes → ℕ → ℕ → W → W × Bool)
    (execute_effect : Grant → W → W × EffectOutcome) (on_rejected : Bytes → W → W) where
  abbrev Returned : Type 0
  Returned = Dispatch × W × Result Outcome DispatchError

  -- The sender's record under `id` is `e`.
  abbrev Keeps : Bytes → SenderEntry → Returned → Type 0
  Keeps id e x = lookup id x.0.sender_table ≡ some e

  after_refusal-Keeps :
      (id : Bytes) (e : SenderEntry) (d : Dispatch)
      (x : Pending.Table × W × Result (Unit {0}) VerifyError)
      → lookup id d.sender_table ≡ some e
      → Keeps id e (
          after_refusal hash ed25519 cert_for_sender is_revoked already_consumed execute_effect
            on_rejected d x)
  unfolding after_refusal
  after_refusal-Keeps id e d (t, w, ok u) h = h
  after_refusal-Keeps id e d (t, w, err f) h = h

  refusal_from-Keeps :
      (id : Bytes) (e : SenderEntry) (env : Envelope) (now : ℕ) (d : Dispatch) (w : W)
      (refusal : Refusal) (o : Option Cert)
      → lookup id d.sender_table ≡ some e
      → Keeps id e (
          refusal_from hash ed25519 cert_for_sender is_revoked already_consumed execute_effect
            on_rejected env now d w refusal o)
  unfolding refusal_from
  refusal_from-Keeps id e env now d w refusal none h = h
  refusal_from-Keeps id e env now d w refusal (some cert) h = after_refusal-Keeps id e d _ h

  refusal_parsed-Keeps :
      (id : Bytes) (e : SenderEntry) (env : Envelope) (now : ℕ) (d : Dispatch) (w : W)
      (r : Result Refusal ParseError)
      → lookup id d.sender_table ≡ some e
      → Keeps id e (
          refusal_parsed hash ed25519 cert_for_sender is_revoked already_consumed execute_effect
            on_rejected env now d w r)
  unfolding refusal_parsed
  refusal_parsed-Keeps id e env now d w (err f) h = h
  refusal_parsed-Keeps id e env now d w (ok refusal) h =
      refusal_from-Keeps id e env now d w refusal (cert_for_sender env.sender) h

  route-Keeps :
      (id : Bytes) (e : SenderEntry) (env : Envelope) (now : ℕ) (d : Dispatch) (w : W)
      → lookup id d.sender_table ≡ some e
      → Keeps id e (
          route hash ed25519 cert_for_sender is_revoked already_consumed execute_effect on_rejected
            env now d w)
  unfolding route dispatch_refusal
  route-Keeps id e env now d w h =
      let P : Returned → Type 0 = Keeps id e in
      if_known P (env.body_type == body_intent) _ _
        (λ _.
          step-lookup env now d (dispatch_intent env now d).0 (dispatch_intent env now d).1 id e
            (dispatch_intent-IntentStep env now d) h)
        (λ _.
          if_known P (env.body_type == body_grant) _ _ (λ _. h)
            (λ _.
              if_known P (env.body_type == body_refusal) _ _
                (λ _. refusal_parsed-Keeps id e env now d w (parse_refusal env.body) h)
                (λ _.
                  if_known P (env.body_type == body_utterance) _ _ (λ _. h)
                    (λ _.
                      if_known P (env.body_type == body_effect) _ _ (λ _. h)
                        (λ _. if_known P (env.body_type == body_control) _ _ (λ _. h) (λ _. h))))))

  dispatch-Keeps :
      (id : Bytes) (e : SenderEntry) (bytes : Bytes) (now : ℕ) (d : Dispatch) (w : W)
      → lookup id d.sender_table ≡ some e
      → Keeps id e (
          dispatch hash ed25519 cert_for_sender is_revoked already_consumed execute_effect
            on_rejected bytes now d w)
  unfolding dispatch dispatch_parsed route_verified
  dispatch-Keeps id e bytes now d w h = elim (Result-cases (parse_envelope bytes)) [
    | inr (f, failed) ↦ rw failed h
    | inl (env, parsed) ↦ elim (Result-cases (verify_envelope hash ed25519 env)) [
      | inr (f, failed) ↦ rw (parsed, failed) h
      | inl (u, passed) ↦ rw (parsed, passed) (route-Keeps id e env now d w h)
    ]
  ]

  -- Any envelopes that arrive, valid or not, one after the other.
  pub data Runs (d : Dispatch) (w : W) : Dispatch → W → Type 0 where
    start : Runs d w d w
    arrives :
        (bytes : Bytes) (now : ℕ) {d' : Dispatch} {w' : W}
        → Runs d w d' w'
        → Runs d w
            (dispatch hash ed25519 cert_for_sender is_revoked already_consumed execute_effect
              on_rejected bytes now d' w').0
            (dispatch hash ed25519 cert_for_sender is_revoked already_consumed execute_effect
              on_rejected bytes now d' w').1

  Runs-lookup :
      (id : Bytes) (e : SenderEntry) {d : Dispatch} {w : W} {d' : Dispatch} {w' : W}
      → lookup id d.sender_table ≡ some e
      → Runs d w d' w'
      → lookup id d'.sender_table ≡ some e
  Runs-lookup id e h start = h
  Runs-lookup id e h (arrives bytes now {d'} {w'} runs) =
      dispatch-Keeps id e bytes now d' w' (Runs-lookup id e h runs)

  -- Once a sender is recorded under an intent's identifier, that record is the one looked up behind any
  -- further envelopes, intents of the same identifier included; and a grant for the identifier is then
  -- refused, or it names the recorded sender as its subject and carries the digest of the recorded
  -- action.
  pub first_record_binds :
      (env : Envelope) (grant : Grant) (now : ℕ) (cert : Cert) (e : SenderEntry) (d d' : Dispatch)
      (w w' : W)
      → lookup grant.intent_id d.sender_table ≡ some e
      → Runs d w d' w'
      → (lookup grant.intent_id d'.sender_table ≡ some e)
        × (((f : VerifyError) × (grant_checks hash ed25519 is_revoked env grant (
                  grant_context hash ed25519 cert_for_sender is_revoked already_consumed
                    execute_effect on_rejected now d' cert)
                ≡ err f))
            ⊎ ((grant.subject ≡ e.sender)
                × (grant.action_digest ≡ hash (take e.action_len e.action))))
  unfolding grant_context
  first_record_binds env grant now cert e d d' w w' h runs =
      let stays = Runs-lookup grant.intent_id e h runs in
      (
        stays,
        elim (Result-cases (
            grant_checks hash ed25519 is_revoked env grant (
              grant_context hash ed25519 cert_for_sender is_revoked already_consumed execute_effect
                on_rejected now d' cert))) [
                  | inr (f, failed) ↦ inl (f, failed)
                  | inl (u, passed) ↦
                      let a = grant_checks_sound hash ed25519 is_revoked env grant _ passed in
                      let same : a.sender ≡ e = cc (a.sent, stays) in
                      inr (rw same at a.subject, rw same at a.action)
                ],
      )
