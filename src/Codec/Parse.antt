-- ===== src/Codec/Parse.antt =====
-- The parsers of src/codec.rs. Each `parse_m` runs the reader of its message over the whole buffer.
use bolina_rs.Prelude.{ℕ, zero, suc, ◌+◌, ◌*◌, [], ltb, ◌==◌, ◌&&◌, Result}
use bolina_rs.Prelude.Bytes.{Bytes, bytes_le}
use bolina_rs.Codec.Limits.{
  max_body, len_pubkey, len_sig, max_parents, max_resource, max_action, max_rationale, max_note,
  max_name, max_scope, max_ca_sigs, len_channel_id, len_parent, len_intent_id, len_grant_id,
  len_action_digest, len_scope_id, len_ca_key, len_span_id, len_trace_id, len_origin, len_digest,
}
use bolina_rs.Codec.Cursor.{
  Parser, ParseError, oversize, malformed, ◌>>=◌, ◌>>◌, pure, refuse_if, u8r, u32be, u64be, take,
  field16, field32, since, position, expect_end, run,
}
use bolina_rs.Codec.Messages.{Envelope, Intent, Grant, Refusal, Span, Cert}

unfoldable pub envelope : Parser Envelope
envelope = do
  version ← u8r
  channel_id ← take len_channel_id
  sender ← take len_pubkey
  seq ← u64be
  parent_count ← u8r
  refuse_if (ltb max_parents parent_count) oversize
  parents ← take (parent_count * len_parent)
  ts ← u64be
  body_type ← u8r
  body_len ← u32be
  refuse_if (ltb max_body body_len) oversize
  body ← take body_len
  tbs ← since 0
  sig ← take len_sig
  expect_end
  pure (record {
    version = version;
    channel_id = channel_id;
    sender = sender;
    seq = seq;
    parent_count = parent_count;
    parents = parents;
    ts = ts;
    body_type = body_type;
    body = body;
    tbs = tbs;
    sig = sig;
  })

unfoldable pub parse_envelope : Bytes → Result Envelope ParseError
unfolding run
parse_envelope buf = run envelope buf

unfoldable pub intent : Parser Intent
intent = do
  intent_id ← take len_intent_id
  resource_id ← field16 max_resource
  action ← field32 max_action
  rationale ← field16 max_rationale
  expect_end
  pure (record {
    intent_id = intent_id;
    resource_id = resource_id;
    action = action;
    rationale = rationale;
  })

unfoldable pub parse_intent : Bytes → Result Intent ParseError
unfolding run
parse_intent buf = run intent buf

unfoldable pub grant : Parser Grant
grant = do
  version ← u8r
  grant_id ← take len_grant_id
  intent_id ← take len_intent_id
  approver ← take len_pubkey
  subject ← take len_pubkey
  executor ← take len_pubkey
  resource_id ← field16 max_resource
  action_digest ← take len_action_digest
  not_after ← u64be
  tbs ← since 0
  sig ← take len_sig
  expect_end
  pure (record {
    version = version;
    grant_id = grant_id;
    intent_id = intent_id;
    approver = approver;
    subject = subject;
    executor = executor;
    resource_id = resource_id;
    action_digest = action_digest;
    not_after = not_after;
    tbs = tbs;
    sig = sig;
  })

unfoldable pub parse_grant : Bytes → Result Grant ParseError
unfolding run
parse_grant buf = run grant buf

unfoldable pub refusal : Parser Refusal
refusal = do
  intent_id ← take len_intent_id
  note ← field16 max_note
  tbs ← since 0
  sig ← take len_sig
  expect_end
  pure (record { intent_id = intent_id; note = note; tbs = tbs; sig = sig })

unfoldable pub parse_refusal : Bytes → Result Refusal ParseError
unfolding run
parse_refusal buf = run refusal buf

unfoldable pub span : Parser Span
span = do
  version ← u8r
  span_id ← take len_span_id
  trace_id ← take len_trace_id
  resource_id ← field16 max_resource
  method_id ← u8r
  volatility ← u8r
  origin ← take len_origin
  observed_at ← u64be
  digest ← take len_digest
  executor ← take len_pubkey
  tbs ← since 0
  sig ← take len_sig
  expect_end
  pure (record {
    version = version;
    span_id = span_id;
    trace_id = trace_id;
    resource_id = resource_id;
    method_id = method_id;
    volatility = volatility;
    origin = origin;
    observed_at = observed_at;
    digest = digest;
    executor = executor;
    tbs = tbs;
    sig = sig;
  })

unfoldable pub parse_span : Bytes → Result Span ParseError
unfolding run
parse_span buf = run span buf

-- `for i in 0..ca_sig_count`, with the rounds left first: each key is above the one before it.
unfoldable pub ca_loop : ℕ → ℕ → Bytes → Parser (Unit {0})
ca_loop zero i prev_key = pure tt
ca_loop (suc n) i prev_key = do
  ca_key ← take len_ca_key
  refuse_if (ltb 0 i && bytes_le ca_key prev_key) malformed
  sig ← take len_sig
  ca_loop n (i + 1) ca_key

unfoldable pub cert : Parser Cert
unfolding ca_loop
cert = do
  version ← u8r
  role_bits ← u8r
  sig_pubkey ← take len_pubkey
  kex_pubkey ← take len_pubkey
  not_before ← u64be
  not_after ← u64be
  name ← field16 max_name
  scope_count ← u8r
  refuse_if (ltb max_scope scope_count) oversize
  scope_ids ← take (scope_count * len_scope_id)
  tbs ← since 0
  ca_sig_count ← u8r
  refuse_if (ca_sig_count == 0) malformed
  refuse_if (ltb max_ca_sigs ca_sig_count) oversize
  ca_start ← position
  ca_loop ca_sig_count 0 []
  ca_sigs ← since ca_start
  expect_end
  pure (record {
    version = version;
    role_bits = role_bits;
    sig_pubkey = sig_pubkey;
    kex_pubkey = kex_pubkey;
    not_before = not_before;
    not_after = not_after;
    name = name;
    scope_count = scope_count;
    scope_ids = scope_ids;
    ca_sig_count = ca_sig_count;
    ca_sigs = ca_sigs;
    tbs = tbs;
  })

unfoldable pub parse_cert : Bytes → Result Cert ParseError
unfolding run
parse_cert buf = run cert buf
