-- ===== src/Codec/Examples.antt =====
-- Small messages of src/codec.rs, and the theorems of `RoundTrip` on them.
use bolina_rs.Prelude.{
  ℕ, zero, suc, ◌≡◌, refl, Bool, true, ◌&&◌, [], ◌∷◌, ◌++◌, ltb, All, arith, ok, err, ◌↔◌,
}
use bolina_rs.Prelude.Bytes.{Bytes, IsByte, to_be_bytes, bytes_le}
use bolina_rs.Codec.Cursor.{truncated, trailing_bytes, is_empty}
use bolina_rs.Codec.Messages.{Envelope, Intent, Grant, Refusal, Span, Cert}
use bolina_rs.Codec.Encode.{
  encode_envelope, encode_intent, encode_grant, encode_refusal, encode_span, encode_cert,
  push_field16, push_field32,
}
use bolina_rs.Codec.Parse.{
  parse_envelope, parse_intent, parse_grant, parse_refusal, parse_span, parse_cert,
}
use bolina_rs.Codec.RoundTrip.Envelopes.{IsEnvelope, parse_envelope_exact, parse_envelope-truncated}
use bolina_rs.Codec.RoundTrip.Intents.{IsIntent, parse_intent_exact}
use bolina_rs.Codec.RoundTrip.Grants.{IsGrant, parse_grant_exact, parse_grant-truncated}
use bolina_rs.Codec.RoundTrip.Refusals.{IsRefusal, parse_refusal_sound, parse_refusal-encode}
use bolina_rs.Codec.RoundTrip.Spans.{IsSpan, parse_span_sound, parse_span-encode}
use bolina_rs.Codec.RoundTrip.Certs.{IsCert, parse_cert_exact, parse_cert-truncated}

fill : ℕ → ℕ → Bytes
fill zero b = []
fill (suc n) b = b ∷ fill n b

are_bytes : Bytes → Bool
are_bytes [] = true
are_bytes (b ∷ w) = ltb b 256 && are_bytes w

are_bytes-All : (w : Bytes) → are_bytes w ≡ true → All IsByte w
unfolding are_bytes
are_bytes-All [] h = tt
are_bytes-All (b ∷ w) h = (ground arith, are_bytes-All w (ground arith))

abbrev small_envelope : Envelope
unfolding fill
small_envelope = record {
  version = 1;
  channel_id = fill 32 2;
  sender = fill 32 3;
  seq = 7;
  parent_count = 1;
  parents = fill 32 4;
  ts = 9;
  body_type = 5;
  body = 6 ∷ 7 ∷ [];
  tbs =
      1
      ∷ (fill 32 2
          ++ (fill 32 3
              ++ (0
                  ∷ 0
                  ∷ 0
                  ∷ 0
                  ∷ 0
                  ∷ 0
                  ∷ 0
                  ∷ 7
                  ∷ 1
                  ∷ (fill 32 4
                      ++ (0 ∷ 0 ∷ 0 ∷ 0 ∷ 0 ∷ 0 ∷ 0 ∷ 9 ∷ 5 ∷ 0 ∷ 0 ∷ 0 ∷ 2 ∷ 6 ∷ 7 ∷ [])))));
  sig = fill 64 8;
}

small_envelope-IsEnvelope : IsEnvelope small_envelope
unfolding small_envelope fill encode_envelope to_be_bytes
small_envelope-IsEnvelope = record {
  version = omega arith;
  channel_id = refl;
  sender = refl;
  seq = omega arith;
  parent_count = omega arith;
  parent_count_bound = omega arith;
  parents = refl;
  ts = omega arith;
  body_type = omega arith;
  body = omega arith;
  sig = refl;
  signed = refl;
}

small_envelope-bytes : All IsByte (encode_envelope small_envelope ++ [])
unfolding are_bytes small_envelope fill encode_envelope push_field16 push_field32 to_be_bytes
small_envelope-bytes = are_bytes-All (encode_envelope small_envelope ++ []) refl

parse_envelope_exact_example :
    (parse_envelope (encode_envelope small_envelope ++ []) ≡ ok small_envelope) ↔ (
      (encode_envelope small_envelope ≡ encode_envelope small_envelope ++ [])
      × IsEnvelope small_envelope)
parse_envelope_exact_example =
    parse_envelope_exact (encode_envelope small_envelope ++ []) small_envelope small_envelope-bytes

parse_envelope-truncated_example : parse_envelope (small_envelope.tbs ++ fill 63 8) ≡ err truncated
unfolding small_envelope fill encode_envelope push_field16 push_field32 to_be_bytes
parse_envelope-truncated_example =
    parse_envelope-truncated small_envelope (small_envelope.tbs ++ fill 63 8) [] 8
      small_envelope-IsEnvelope refl

abbrev small_intent : Intent
unfolding fill
small_intent = record {
  intent_id = fill 16 1;
  resource_id = 2 ∷ [];
  action = 3 ∷ 4 ∷ [];
  rationale = [];
}

small_intent-IsIntent : IsIntent small_intent
unfolding small_intent fill encode_intent push_field16 push_field32 to_be_bytes
small_intent-IsIntent = record {
  intent_id = refl;
  resource_id = omega arith;
  action = omega arith;
  rationale = omega arith;
}

small_intent-bytes : All IsByte (encode_intent small_intent ++ [])
unfolding are_bytes small_intent fill encode_intent push_field16 push_field32 to_be_bytes
small_intent-bytes = are_bytes-All (encode_intent small_intent ++ []) refl

parse-IsIntent_small :
    (parse_intent (encode_intent small_intent ++ []) ≡ ok small_intent)
    ↔ ((encode_intent small_intent ≡ encode_intent small_intent ++ []) × IsIntent small_intent)
parse-IsIntent_small =
    parse_intent_exact (encode_intent small_intent ++ []) small_intent small_intent-bytes

abbrev small_grant : Grant
unfolding fill
small_grant = record {
  version = 1;
  grant_id = fill 16 1;
  intent_id = fill 16 2;
  approver = fill 32 3;
  subject = fill 32 4;
  executor = fill 32 5;
  resource_id = 6 ∷ [];
  action_digest = fill 32 7;
  not_after = 9;
  tbs =
      1
      ∷ (fill 16 1
          ++ (fill 16 2
              ++ (fill 32 3
                  ++ (fill 32 4
                      ++ (fill 32 5
                          ++ (0 ∷ 1 ∷ 6 ∷ (fill 32 7 ++ (0 ∷ 0 ∷ 0 ∷ 0 ∷ 0 ∷ 0 ∷ 0 ∷ 9 ∷ []))))))));
  sig = fill 64 8;
}

small_grant-IsGrant : IsGrant small_grant
unfolding small_grant fill encode_grant push_field16 push_field32 to_be_bytes
small_grant-IsGrant = record {
  version = omega arith;
  grant_id = refl;
  intent_id = refl;
  approver = refl;
  subject = refl;
  executor = refl;
  resource_id = omega arith;
  action_digest = refl;
  not_after = omega arith;
  sig = refl;
  signed = refl;
}

small_grant-bytes : All IsByte (encode_grant small_grant ++ [])
unfolding are_bytes small_grant fill encode_grant push_field16 push_field32 to_be_bytes
small_grant-bytes = are_bytes-All (encode_grant small_grant ++ []) refl

parse_grant_exact_example :
    (parse_grant (encode_grant small_grant ++ []) ≡ ok small_grant)
    ↔ ((encode_grant small_grant ≡ encode_grant small_grant ++ []) × IsGrant small_grant)
parse_grant_exact_example =
    parse_grant_exact (encode_grant small_grant ++ []) small_grant small_grant-bytes

parse_grant_cut : parse_grant (small_grant.tbs ++ fill 63 8) ≡ err truncated
unfolding small_grant fill encode_grant push_field16 push_field32 to_be_bytes
parse_grant_cut =
    parse_grant-truncated small_grant (small_grant.tbs ++ fill 63 8) [] 8 small_grant-IsGrant refl

abbrev small_refusal : Refusal
unfolding fill
small_refusal = record {
  intent_id = fill 16 1;
  note = 2 ∷ 3 ∷ [];
  tbs = fill 16 1 ++ (0 ∷ 2 ∷ 2 ∷ 3 ∷ []);
  sig = fill 64 8;
}

small_refusal-IsRefusal : IsRefusal small_refusal
unfolding small_refusal fill encode_refusal push_field16 push_field32 to_be_bytes
small_refusal-IsRefusal = record { intent_id = refl; note = omega arith; sig = refl; signed = refl }

small_refusal-bytes : All IsByte (encode_refusal small_refusal ++ [])
unfolding are_bytes small_refusal fill encode_refusal push_field16 push_field32 to_be_bytes
small_refusal-bytes = are_bytes-All (encode_refusal small_refusal ++ []) refl

parse-IsRefusal_small :
    (encode_refusal small_refusal ≡ encode_refusal small_refusal ++ []) × IsRefusal small_refusal
unfolding is_empty
parse-IsRefusal_small =
    parse_refusal_sound (encode_refusal small_refusal ++ []) small_refusal small_refusal-bytes
      (parse_refusal-encode small_refusal [] small_refusal-IsRefusal)

parse_refusal_more : parse_refusal (encode_refusal small_refusal ++ 0 ∷ []) ≡ err trailing_bytes
unfolding is_empty
parse_refusal_more = parse_refusal-encode small_refusal (0 ∷ []) small_refusal-IsRefusal

abbrev small_span : Span
unfolding fill
small_span = record {
  version = 1;
  span_id = fill 16 1;
  trace_id = fill 16 2;
  resource_id = 3 ∷ [];
  method_id = 4;
  volatility = 5;
  origin = fill 32 6;
  observed_at = 9;
  digest = fill 32 7;
  executor = fill 32 10;
  tbs =
      1
      ∷ (fill 16 1
          ++ (fill 16 2
              ++ (0
                  ∷ 1
                  ∷ 3
                  ∷ 4
                  ∷ 5
                  ∷ (fill 32 6 ++ (0 ∷ 0 ∷ 0 ∷ 0 ∷ 0 ∷ 0 ∷ 0 ∷ 9 ∷ (fill 32 7 ++ fill 32 10))))));
  sig = fill 64 8;
}

small_span-IsSpan : IsSpan small_span
unfolding small_span fill encode_span push_field16 push_field32 to_be_bytes
small_span-IsSpan = record {
  version = omega arith;
  span_id = refl;
  trace_id = refl;
  resource_id = omega arith;
  method_id = omega arith;
  volatility = omega arith;
  origin = refl;
  observed_at = omega arith;
  digest = refl;
  executor = refl;
  sig = refl;
  signed = refl;
}

small_span-bytes : All IsByte (encode_span small_span ++ [])
unfolding are_bytes small_span fill encode_span push_field16 push_field32 to_be_bytes
small_span-bytes = are_bytes-All (encode_span small_span ++ []) refl

parse-IsSpan_small : (encode_span small_span ≡ encode_span small_span ++ []) × IsSpan small_span
unfolding is_empty
parse-IsSpan_small =
    parse_span_sound (encode_span small_span ++ []) small_span small_span-bytes
      (parse_span-encode small_span [] small_span-IsSpan)

parse_span_more : parse_span (encode_span small_span ++ 0 ∷ []) ≡ err trailing_bytes
unfolding is_empty
parse_span_more = parse_span-encode small_span (0 ∷ []) small_span-IsSpan

abbrev small_cert : Cert
unfolding fill
small_cert = record {
  version = 1;
  role_bits = 3;
  sig_pubkey = fill 32 1;
  kex_pubkey = fill 32 2;
  not_before = 4;
  not_after = 5;
  name = 97 ∷ [];
  scope_count = 1;
  scope_ids = fill 8 6;
  ca_sig_count = 2;
  ca_sigs = fill 32 1 ++ (fill 64 7 ++ (fill 32 2 ++ fill 64 8));
  tbs =
      1
      ∷ 3
      ∷ (fill 32 1
          ++ (fill 32 2
              ++ (0
                  ∷ 0
                  ∷ 0
                  ∷ 0
                  ∷ 0
                  ∷ 0
                  ∷ 0
                  ∷ 4
                  ∷ 0
                  ∷ 0
                  ∷ 0
                  ∷ 0
                  ∷ 0
                  ∷ 0
                  ∷ 0
                  ∷ 5
                  ∷ 0
                  ∷ 1
                  ∷ 97
                  ∷ 1
                  ∷ fill 8 6)));
}

small_cert-IsCert : IsCert small_cert
unfolding bytes_le small_cert fill encode_cert push_field16 push_field32 to_be_bytes
small_cert-IsCert = record {
  version = omega arith;
  role_bits = omega arith;
  sig_pubkey = refl;
  kex_pubkey = refl;
  not_before = omega arith;
  not_after = omega arith;
  name = omega arith;
  scope_count = omega arith;
  scope_ids = refl;
  some_sig = omega arith;
  few_sigs = omega arith;
  signers = (fill 32 1, fill 64 7) ∷ (fill 32 2, fill 64 8) ∷ [];
  signers_count = refl;
  signers_ascend = (refl, refl, (refl, refl, refl, tt));
  signers_bytes = refl;
  signed = refl;
}

small_cert-bytes : All IsByte (encode_cert small_cert ++ [])
unfolding are_bytes small_cert fill encode_cert push_field16 push_field32 to_be_bytes
small_cert-bytes = are_bytes-All (encode_cert small_cert ++ []) refl

parse_cert_exact_example :
    (parse_cert (encode_cert small_cert ++ []) ≡ ok small_cert)
    ↔ ((encode_cert small_cert ≡ encode_cert small_cert ++ []) × IsCert small_cert)
parse_cert_exact_example =
    parse_cert_exact (encode_cert small_cert ++ []) small_cert small_cert-bytes

parse_cert_cut :
    parse_cert (small_cert.tbs ++ (2 ∷ (fill 32 1 ++ (fill 64 7 ++ (fill 32 2 ++ fill 63 8)))))
    ≡ err truncated
unfolding small_cert fill encode_cert push_field16 push_field32 to_be_bytes
parse_cert_cut =
    parse_cert-truncated small_cert
      (small_cert.tbs ++ (2 ∷ (fill 32 1 ++ (fill 64 7 ++ (fill 32 2 ++ fill 63 8))))) [] 8
      small_cert-IsCert refl
