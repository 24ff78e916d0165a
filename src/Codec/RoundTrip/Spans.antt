-- ===== src/Codec/RoundTrip/Spans.antt =====
-- `parse_span` and `encode_span` of src/codec.rs.
use mathlib.Core.List.{append_cancel_right}
use bolina_rs.Prelude.{
  ℕ, ◌≤◌, ◌≡◌, ◌∙◌, ◌∷◌, ◌++◌, ap, sym, [], append-nil, append_assoc, length, All, ok, err, arith,
  if◌then◌else◌,
}
use bolina_rs.Prelude.Bytes.{Bytes, IsByte, to_be_bytes}
use bolina_rs.Codec.Limits.{
  len_digest, len_origin, len_pubkey, len_sig, len_span_id, len_trace_id, max_resource,
}
use bolina_rs.Codec.Cursor.{trailing_bytes, truncated, is_empty}
use bolina_rs.Codec.Cursor.Reads.{
  Sound, Sound-bind, Sound-since, Sound-expect_end, Runs, Runs-bind, Runs-since, Runs-expect_end,
  Cut, Cut-bind, Cut-since, Cut-nil, run-sound, run-encode, run-Cut,
}
use bolina_rs.Codec.Cursor.Fields.{Fits, sized, Reads-take, Reads-u8r, Reads-u64be, Reads-field16}
use bolina_rs.Codec.RoundTrip.Lengths.{wire_laws}
use bolina_rs.Codec.Messages.{Span}
use bolina_rs.Codec.Parse.{span, parse_span}
use bolina_rs.Codec.Encode.{encode_span}

pub record IsSpan (s : Span) : Type 0 where
  pub version : IsByte s.version
  pub span_id : length s.span_id ≡ len_span_id
  pub trace_id : length s.trace_id ≡ len_trace_id
  pub resource_id : length s.resource_id ≤ max_resource
  pub method_id : IsByte s.method_id
  pub volatility : IsByte s.volatility
  pub origin : length s.origin ≡ len_origin
  pub observed_at : Fits 8 s.observed_at
  pub digest : length s.digest ≡ len_digest
  pub executor : length s.executor ≡ len_pubkey
  pub sig : length s.sig ≡ len_sig
  -- what is signed is all that stands before the signature
  pub signed : encode_span s ≡ s.tbs ++ s.sig

abbrev Parsed : Span → Bytes → Type 0
Parsed s buf = (encode_span s ≡ buf) × IsSpan s

-- The bytes of a span, field by field.
abbrev wire : Span → Bytes
wire s =
    (s.version ∷ [])
    ++ (s.span_id
        ++ (s.trace_id
            ++ (sized 2 s.resource_id
                ++ ((s.method_id ∷ [])
                    ++ ((s.volatility ∷ [])
                        ++ (s.origin
                            ++ (to_be_bytes 8 s.observed_at
                                ++ (s.digest ++ (s.executor ++ (s.sig ++ ([])))))))))))

encode_span-wire : (s : Span) → encode_span s ≡ wire s
unfolding encode_span
encode_span-wire s = simp (wire_laws, append_assoc, append-nil)

span-Sound : Sound [] span Parsed
unfolding span
span-Sound = Sound-bind Reads-u8r [] _ Parsed λ version version_ok.
    Sound-bind (Reads-take len_span_id) _ _ Parsed λ span_id span_id_ok.
      Sound-bind (Reads-take len_trace_id) _ _ Parsed λ trace_id trace_id_ok.
        Sound-bind (Reads-field16 max_resource (omega arith)) _ _ Parsed
          λ resource_id resource_id_ok. Sound-bind Reads-u8r _ _ Parsed λ method_id method_id_ok.
            Sound-bind Reads-u8r _ _ Parsed λ volatility volatility_ok.
              Sound-bind (Reads-take len_origin) _ _ Parsed λ origin origin_ok.
                Sound-bind Reads-u64be _ _ Parsed λ observed_at observed_at_ok.
                  Sound-bind (Reads-take len_digest) _ _ Parsed λ digest digest_ok.
                    Sound-bind (Reads-take len_pubkey) _ _ Parsed λ executor executor_ok.
                      Sound-since _ _ Parsed (
                        Sound-bind (Reads-take len_sig) _ _ Parsed λ sig sig_ok.
                          let written = encode_span-wire _ ∙ simp (append_assoc, append-nil) in
                          Sound-expect_end _ _ Parsed (
                            written,
                            record {
                              version = version_ok;
                              span_id = span_id_ok;
                              trace_id = trace_id_ok;
                              resource_id = resource_id_ok;
                              method_id = method_id_ok;
                              volatility = volatility_ok;
                              origin = origin_ok;
                              observed_at = observed_at_ok;
                              digest = digest_ok;
                              executor = executor_ok;
                              sig = sig_ok;
                              signed = written;
                            },
                          ))

-- What `parse_span` accepts is, byte for byte, the encoding of what it returns, whose fields have
-- their lengths and whose `tbs` is all that stands before the signature.
pub parse_span_sound :
    (buf : Bytes) (s : Span)
    → All IsByte buf
    → parse_span buf ≡ ok s
    → (encode_span s ≡ buf) × IsSpan s
unfolding parse_span
parse_span_sound buf s bytes h = run-sound span Parsed buf s bytes span-Sound h

module _ (s : Span) (h : IsSpan s) where
  tbs-prefix :
      (s.version ∷ [])
        ++ s.span_id
        ++ s.trace_id
        ++ sized 2 s.resource_id
        ++ (s.method_id ∷ [])
        ++ (s.volatility ∷ [])
        ++ s.origin
        ++ to_be_bytes 8 s.observed_at
        ++ s.digest
        ++ s.executor
      ≡ s.tbs
  tbs-prefix =
      append_cancel_right
        ((s.version ∷ [])
          ++ s.span_id
          ++ s.trace_id
          ++ sized 2 s.resource_id
          ++ (s.method_id ∷ [])
          ++ (s.volatility ∷ [])
          ++ s.origin
          ++ to_be_bytes 8 s.observed_at
          ++ s.digest
          ++ s.executor)
        s.tbs s.sig (sym (encode_span-wire s ∙ simp (append_assoc, append-nil)) ∙ h.signed)

  span-Runs : Runs [] span (wire s) s
  unfolding span
  span-Runs = Runs-bind Reads-u8r [] _ s.version _ h.version (
      Runs-bind (Reads-take len_span_id) _ _ s.span_id _ h.span_id (
        Runs-bind (Reads-take len_trace_id) _ _ s.trace_id _ h.trace_id (
          Runs-bind (Reads-field16 max_resource (omega arith)) _ _ s.resource_id _ h.resource_id (
            Runs-bind Reads-u8r _ _ s.method_id _ h.method_id (
              Runs-bind Reads-u8r _ _ s.volatility _ h.volatility (
                Runs-bind (Reads-take len_origin) _ _ s.origin _ h.origin (
                  Runs-bind Reads-u64be _ _ s.observed_at _ h.observed_at (
                    Runs-bind (Reads-take len_digest) _ _ s.digest _ h.digest (
                      Runs-bind (Reads-take len_pubkey) _ _ s.executor _ h.executor (
                        Runs-since _ _ _ (
                          Runs-bind (Reads-take len_sig) _ _ s.sig _ h.sig (
                            Runs-expect_end _
                              (ap (λ t. record s { tbs = t }) tbs-prefix)))))))))))))

  span-Cut : Cut [] span (wire s)
  unfolding span
  span-Cut = Cut-bind Reads-u8r [] _ s.version _ h.version (
      Cut-bind (Reads-take len_span_id) _ _ s.span_id _ h.span_id (
        Cut-bind (Reads-take len_trace_id) _ _ s.trace_id _ h.trace_id (
          Cut-bind (Reads-field16 max_resource (omega arith)) _ _ s.resource_id _ h.resource_id (
            Cut-bind Reads-u8r _ _ s.method_id _ h.method_id (
              Cut-bind Reads-u8r _ _ s.volatility _ h.volatility (
                Cut-bind (Reads-take len_origin) _ _ s.origin _ h.origin (
                  Cut-bind Reads-u64be _ _ s.observed_at _ h.observed_at (
                    Cut-bind (Reads-take len_digest) _ _ s.digest _ h.digest (
                      Cut-bind (Reads-take len_pubkey) _ _ s.executor _ h.executor (
                        Cut-since _ _ _
                          (Cut-bind (Reads-take len_sig) _ _ s.sig _ h.sig (Cut-nil _ _))))))))))))

-- The encoding of a well-formed span parses to it, and with any byte behind it the parser refuses
-- with `trailing_bytes`.
pub parse_span-encode :
    (s : Span) (more : Bytes)
    → IsSpan s
    → parse_span (encode_span s ++ more) ≡ (if is_empty more then ok s else err trailing_bytes)
unfolding parse_span
parse_span-encode s more h = rw encode_span-wire (run-encode span (wire s) s more (span-Runs s h))

-- Every proper prefix of the encoding of a well-formed span is refused as truncated.
pub parse_span-truncated :
    (s : Span) (front back : Bytes) (x : ℕ)
    → IsSpan s
    → encode_span s ≡ front ++ (x ∷ back)
    → parse_span front ≡ err truncated
unfolding parse_span
parse_span-truncated s front back x h split =
    run-Cut span (wire s) front back x (span-Cut s h) (sym (encode_span-wire s) ∙ split)
