-- ===== src/Dispatch/Examples.antt =====
-- Small runs of src/transport/dispatch.rs.
use bolina_rs.Prelude.{
  ℕ, ◌+◌, ◌≡◌, ◌⊎◌, refl, sym, Bool, false, Option, some, [], ◌∷◌, ◌++◌, take, Result, ok, err,
}
use bolina_rs.Prelude.Outcome.{refuse_if, ok_or}
use bolina_rs.Prelude.Bytes.{Bytes, bytes_eq, from_be_bytes, to_be_bytes}
use bolina_rs.Prelude.Search.{find, any}
use bolina_rs.Codec.Cursor as Cursor
use bolina_rs.Codec.Parse as Parse
use bolina_rs.Codec.Messages.{Envelope, Grant, Cert}
use bolina_rs.Intent as Pending
use bolina_rs.Codec.Encode.{encode_envelope}
use bolina_rs.Verify.{
  VerifyError, verify_envelope, verify_signed, verify_signed_err, grant_checks, EffectOutcome,
  fired, SenderEntry, lookup,
}
use bolina_rs.Binding.{has_role, check_role_constraints}
use bolina_rs.Resolver.{
  Resolver, alias_hits, names, on_hit, resolve_loop, canonical_of, resolve, after_admit,
  admit_resolved, resolve_and_admit,
}
use bolina_rs.Dispatch.{
  Dispatch, DispatchError, Outcome, intent_admitted, admit_parsed, after_admission, dispatch_intent,
  dispatch_grant, grant_context, route, route_verified, dispatch_parsed, dispatch,
}
use bolina_rs.Dispatch.Grants.{dispatch_grant_never}
use bolina_rs.Dispatch.Intents.{IntentStep, dispatch_intent-IntentStep}
use bolina_rs.Dispatch.Records.{start, arrives, first_record_binds}

abbrev agent : Cert
agent = record {
  version = 2;
  role_bits = 2;
  sig_pubkey = 1 ∷ [];
  kex_pubkey = [];
  not_before = 0;
  not_after = 100;
  name = [];
  scope_count = 0;
  scope_ids = [];
  ca_sig_count = 0;
  ca_sigs = [];
  tbs = [];
}

abbrev id_a : Bytes
id_a = 1 ∷ 2 ∷ 3 ∷ 4 ∷ 5 ∷ 6 ∷ 7 ∷ 8 ∷ 9 ∷ 10 ∷ 11 ∷ 12 ∷ 13 ∷ 14 ∷ 15 ∷ 16 ∷ []

abbrev old_sender : SenderEntry
old_sender = record { intent_id = id_a; sender = 1 ∷ []; action = []; action_len = 0 }

abbrev fingerprint : Bytes
fingerprint = 48 ∷ 49 ∷ 50 ∷ 51 ∷ 52 ∷ 53 ∷ 54 ∷ 55 ∷ 56 ∷ 57 ∷ 97 ∷ 98 ∷ 99 ∷ 100 ∷ 101 ∷ 102 ∷ []

-- "bol:0123456789abcdef/a", known as "a".
abbrev resources : Resolver
resources = record {
  own_fp = fingerprint;
  entries = (98 ∷ 111 ∷ 108 ∷ 58 ∷ (fingerprint ++ (47 ∷ 97 ∷ []))) ∷ [];
  aliases = record { bytes = 97 ∷ []; entry = 0 } ∷ [];
}

abbrev executor : Dispatch
executor = record {
  resolver = resources;
  intent_table = Pending.new;
  sender_table = record { entries = old_sender ∷ [] };
  own_pubkey = 1 ∷ [];
  own_cert = agent;
  trusted_ca_keys = [];
}

-- The body is an intent: its identifier, a resource of one byte, and an action of one byte.
abbrev envelope : Envelope
envelope = record {
  version = 1;
  channel_id = [];
  sender = 1 ∷ [];
  seq = 0;
  parent_count = 0;
  parents = [];
  ts = 0;
  body_type = 2;
  body = id_a ++ (0 ∷ 1 ∷ 97 ∷ 0 ∷ 0 ∷ 0 ∷ 1 ∷ 98 ∷ 0 ∷ 0 ∷ []);
  tbs = [];
  sig = [];
}

dispatch_intent-IntentStep_example :
    IntentStep envelope 5 executor
      (dispatch_intent envelope 5 executor).0
      (dispatch_intent envelope 5 executor).1
dispatch_intent-IntentStep_example = dispatch_intent-IntentStep envelope 5 executor

-- The intent is admitted and its sender recorded.
admits : (dispatch_intent envelope 5 executor).1 ≡ ok intent_admitted
unfolding dispatch_intent admit_parsed after_admission Parse.parse_intent Parse.intent Cursor.run
    Cursor.take Cursor.field16 Cursor.field32 Cursor.u16be Cursor.u32be Cursor.need Cursor.at
    Cursor.advance Cursor.refuse_if Cursor.expect_end Cursor.is_empty from_be_bytes
    resolve_and_admit admit_resolved after_admit resolve resolve_loop names on_hit alias_hits
    canonical_of any bytes_eq refuse_if ok_or Pending.admit
admits = refl

old_first : lookup id_a executor.sender_table ≡ some old_sender
unfolding lookup find bytes_eq
old_first = refl

abbrev prefix : Bytes → Bytes
prefix bytes = take 32 bytes

abbrev begins_with_key : Bytes → Bytes → Bytes → Bool
begins_with_key key message sig = bytes_eq (take 32 sig) key

abbrev agents_only : Bytes → Option Cert
agents_only key = some agent

abbrev not_revoked : Bytes → Bool
not_revoked key = false

abbrev commit_count : Bytes → ℕ → ℕ → ℕ → ℕ × Bool
commit_count id not_after now n = (n + 1, false)

abbrev run_count : Grant → ℕ → ℕ × EffectOutcome
run_count grant n = (n + 1, fired)

abbrev call_back : Bytes → ℕ → ℕ
call_back id n = n + 1

agent_separated : check_role_constraints agent.role_bits ≡ ok tt
unfolding check_role_constraints has_role refuse_if
agent_separated = refl

all_separated :
    (key : Bytes) (c : Cert) → agents_only key ≡ some c → check_role_constraints c.role_bits ≡ ok tt
all_separated key c h = (let e : agent ≡ c = cc (h) in rw (sym e) agent_separated)

dispatch_grant_never_example :
    (e : DispatchError) × (dispatch_grant prefix begins_with_key agents_only not_revoked
        commit_count run_count call_back envelope 5 executor 0
      ≡ (0, err e))
dispatch_grant_never_example =
    dispatch_grant_never prefix begins_with_key agents_only not_revoked commit_count run_count
      call_back envelope 5 executor 0 all_separated

abbrev key : Bytes
key = id_a ++ id_a

-- The envelope above from a sender with a key of 32 bytes, and signed.
abbrev signed : Envelope
signed = record envelope { channel_id = key; sender = key; sig = key ++ key }

abbrev arrived : Dispatch × ℕ × Result Outcome DispatchError
arrived =
    dispatch prefix begins_with_key agents_only not_revoked commit_count run_count call_back
      (encode_envelope signed) 5 executor 0

abbrev grant : Grant
grant = record {
  version = 2;
  grant_id = id_a;
  intent_id = id_a;
  approver = key;
  subject = key;
  executor = 1 ∷ [];
  resource_id = 97 ∷ [];
  action_digest = 98 ∷ [];
  not_after = 60;
  tbs = [];
  sig = key ++ key;
}

arrived_admits : arrived.2 ≡ ok intent_admitted
unfolding dispatch dispatch_parsed route_verified route dispatch_intent admit_parsed after_admission
    verify_envelope verify_signed_err verify_signed encode_envelope to_be_bytes Parse.parse_envelope
    Parse.envelope Parse.parse_intent Parse.intent Cursor.run Cursor.u8r Cursor.u64be Cursor.since
    Cursor.take Cursor.field16 Cursor.field32 Cursor.u16be Cursor.u32be Cursor.need Cursor.at
    Cursor.advance Cursor.refuse_if Cursor.expect_end Cursor.is_empty from_be_bytes
    resolve_and_admit admit_resolved after_admit resolve resolve_loop names on_hit alias_hits
    canonical_of any bytes_eq refuse_if ok_or Pending.admit
arrived_admits = refl

-- The second record under the identifier, of another sender, is not the one that counts.
first_record_binds_example :
    (lookup grant.intent_id arrived.0.sender_table ≡ some old_sender)
    × (((f : VerifyError) × (grant_checks prefix begins_with_key not_revoked signed grant (
              grant_context prefix begins_with_key agents_only not_revoked commit_count run_count
                call_back 6 arrived.0 agent)
            ≡ err f))
        ⊎ ((grant.subject ≡ old_sender.sender) × (grant.action_digest ≡ prefix [])))
first_record_binds_example =
    first_record_binds prefix begins_with_key agents_only not_revoked commit_count run_count
      call_back signed grant 6 agent old_sender executor arrived.0 0 arrived.1 old_first
      (arrives (encode_envelope signed) 5 start)
