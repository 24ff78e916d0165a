-- ===== src/Codec/Encode.antt =====
-- The encoders of src/codec.rs: what each pushes to `out`, in order.
use bolina_rs.Prelude.{◌%◌, ◌^◌, ◌∷◌, ◌++◌, length}
use bolina_rs.Prelude.Bytes.{Bytes, to_be_bytes}
use bolina_rs.Codec.Messages.{Envelope, Intent, Grant, Refusal, Span, Cert}

-- `(v.len() as u16).to_be_bytes()`, then `v`.
unfoldable pub push_field16 : Bytes → Bytes
push_field16 v = to_be_bytes 2 (length v % 2 ^ 16) ++ v

unfoldable pub push_field32 : Bytes → Bytes
push_field32 v = to_be_bytes 4 (length v % 2 ^ 32) ++ v

unfoldable pub encode_envelope : Envelope → Bytes
encode_envelope e =
    e.version
    ∷ (e.channel_id
        ++ (e.sender
            ++ (to_be_bytes 8 e.seq
                ++ (e.parent_count
                    ∷ (e.parents
                        ++ (to_be_bytes 8 e.ts
                            ++ (e.body_type
                                ∷ (to_be_bytes 4 (length e.body % 2 ^ 32)
                                    ++ (e.body ++ e.sig)))))))))

unfoldable pub encode_intent : Intent → Bytes
encode_intent i =
    i.intent_id
    ++ (push_field16 i.resource_id ++ (push_field32 i.action ++ push_field16 i.rationale))

unfoldable pub encode_grant : Grant → Bytes
encode_grant g =
    g.version
    ∷ (g.grant_id
        ++ (g.intent_id
            ++ (g.approver
                ++ (g.subject
                    ++ (g.executor
                        ++ (push_field16 g.resource_id
                            ++ (g.action_digest ++ (to_be_bytes 8 g.not_after ++ g.sig))))))))

unfoldable pub encode_refusal : Refusal → Bytes
encode_refusal r = r.intent_id ++ (push_field16 r.note ++ r.sig)

unfoldable pub encode_span : Span → Bytes
encode_span s =
    s.version
    ∷ (s.span_id
        ++ (s.trace_id
            ++ (push_field16 s.resource_id
                ++ (s.method_id
                    ∷ (s.volatility
                        ∷ (s.origin
                            ++ (to_be_bytes 8 s.observed_at
                                ++ (s.digest ++ (s.executor ++ s.sig)))))))))

unfoldable pub encode_cert : Cert → Bytes
encode_cert c =
    c.version
    ∷ (c.role_bits
        ∷ (c.sig_pubkey
            ++ (c.kex_pubkey
                ++ (to_be_bytes 8 c.not_before
                    ++ (to_be_bytes 8 c.not_after
                        ++ (push_field16 c.name
                            ++ (c.scope_count ∷ (c.scope_ids ++ (c.ca_sig_count ∷ c.ca_sigs)))))))))
