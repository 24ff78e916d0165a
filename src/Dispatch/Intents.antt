-- ===== src/Dispatch/Intents.antt =====
-- src/transport/dispatch.rs: what an intent leaves in the table of intents and in that of the senders.
use bolina_rs.Prelude.{
  ℕ, ◌≤◌, ◌<◌, ◌≡◌, ◌≢◌, refl, true, not, some, [], ◌∷◌, ◌++◌, length, take, ltb, ◌==◌, arith,
  Result, ok, err, Bool-cases, inl, inr,
}
use bolina_rs.Prelude.Lists.{take-append_left}
use bolina_rs.Prelude.Outcome.{Result-cases}
use bolina_rs.Codec.Cursor.{ParseError}
use bolina_rs.Codec.Messages.{Envelope, Intent}
use bolina_rs.Codec.Parse.{parse_intent}
use bolina_rs.Intent as Pending
use bolina_rs.Resolver.{ResolveError, resolve_and_admit}
use bolina_rs.Resolver.Lookup.{resolve_and_admit-cases}
use bolina_rs.Verify.{SenderEntry}
use bolina_rs.Dispatch.{
  Dispatch, DispatchError, Outcome, bad_body, resolve, action_too_large, intent_admitted,
  max_action, sender_entry, after_admission, admit_parsed, dispatch_intent,
}

-- A record of the sender and the action of an intent.
pub record Records (env : Envelope) (i : Intent) (s : SenderEntry) : Type 0 where
  pub under : s.intent_id ≡ i.intent_id
  pub sender : length env.sender ≡ 32 → s.sender ≡ env.sender
  pub action : take s.action_len s.action ≡ i.action

sender_entry-Records : (env : Envelope) (i : Intent) → Records env i (sender_entry env i)
unfolding sender_entry
sender_entry-Records env i = record {
  under = refl;
  sender =
      λ size. let sized : (length env.sender == 32) ≡ true = ground (arith, size) in rw sized refl;
  action = take-append_left i.action _;
}

-- What an envelope with an intent does to the dispatcher, with what it returns.
pub data IntentStep (env : Envelope) (now : ℕ) (d : Dispatch)
    : Dispatch → Result Outcome DispatchError → Type 0 where
  -- the body is no intent
  unparsed :
      {e : ParseError} → parse_intent env.body ≡ err e → IntentStep env now d d (err bad_body)
  odd_id :
      (i : Intent)
      → parse_intent env.body ≡ ok i
      → length i.intent_id ≢ 16
      → IntentStep env now d d (err bad_body)
  -- its resource is not resolved, or the table does not admit it
  unresolved :
      {e : ResolveError} (i : Intent)
      → parse_intent env.body ≡ ok i
      → length i.intent_id ≡ 16
      → resolve_and_admit i.intent_id i.resource_id now d.resolver d.intent_table
        ≡ (d.intent_table, err e)
      → IntentStep env now d d (err (resolve e))
  -- it is admitted, and its action is too long to be recorded
  unrecorded :
      {t : Pending.Table} (i : Intent)
      → parse_intent env.body ≡ ok i
      → length i.intent_id ≡ 16
      → resolve_and_admit i.intent_id i.resource_id now d.resolver d.intent_table ≡ (t, ok tt)
      → Pending.match_for_grant i.intent_id t ≡ some (length d.intent_table.entries)
      → 512 < length i.action
      → IntentStep env now d (record d { intent_table = t }) (err action_too_large)
  -- it is admitted, and its sender and action are recorded behind the others
  recorded :
      {t : Pending.Table} {s : SenderEntry} (i : Intent)
      → parse_intent env.body ≡ ok i
      → length i.intent_id ≡ 16
      → resolve_and_admit i.intent_id i.resource_id now d.resolver d.intent_table ≡ (t, ok tt)
      → Pending.match_for_grant i.intent_id t ≡ some (length d.intent_table.entries)
      → length i.action ≤ 512
      → Records env i s
      → IntentStep env now d
          (record d {
            intent_table = t;
            sender_table = record { entries = d.sender_table.entries ++ s ∷ [] };
          })
          (ok intent_admitted)

-- An intent that does not parse, or that the resolver or the table refuses, changes nothing, and the
-- error says which. Otherwise it waits for a grant, behind the entries that there were: with an action
-- of at most 512 bytes its sender and action are recorded and it is admitted; with a longer one the
-- error says that the action is too large, and yet the intent waits, without a record of its sender.
pub dispatch_intent-IntentStep :
    (env : Envelope) (now : ℕ) (d : Dispatch)
    → IntentStep env now d (dispatch_intent env now d).0 (dispatch_intent env now d).1
unfolding dispatch_intent admit_parsed after_admission
dispatch_intent-IntentStep env now d = elim (Result-cases (parse_intent env.body)) [
  | inr (e, failed) ↦ rw failed (unparsed failed)
  | inl (i, parsed) ↦ elim (Bool-cases (not (length i.intent_id == 16))) [
    | inl odd ↦ rw (parsed, odd) (odd_id i parsed (λ same. ground (arith, odd, same)))
    | inr sized ↦
        let size : length i.intent_id ≡ 16 = ground (arith, sized) in
        elim (resolve_and_admit-cases i.intent_id i.resource_id now d.resolver d.intent_table) [
          | inl (e, refused) ↦ rw (parsed, sized, refused) (unresolved i parsed size refused)
          | inr (t, admitted, waits) ↦ elim (Bool-cases (ltb max_action (length i.action))) [
            | inl large ↦
                rw (parsed, sized, admitted, large)
                  (unrecorded i parsed size admitted waits (ground (arith, large)))
            | inr small ↦
                rw (parsed, sized, admitted, small)
                  (recorded i parsed size admitted waits (ground (arith, small))
                    (sender_entry-Records env i))
          ]
        ]
  ]
]
