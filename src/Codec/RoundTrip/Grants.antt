-- ===== src/Codec/RoundTrip/Grants.antt =====
-- `parse_grant` and `encode_grant` of src/codec.rs.
use mathlib.Core.List.{append_cancel_right}
use bolina_rs.Prelude.{
  ℕ, ◌≤◌, ◌≡◌, ◌↔◌, ◌∙◌, ap, ◌∷◌, ◌++◌, sym, [], append-nil, append_assoc, length, All, ok, err,
  arith, if◌then◌else◌,
}
use bolina_rs.Prelude.Bytes.{Bytes, IsByte, to_be_bytes}
use bolina_rs.Codec.Limits.{
  len_action_digest, len_grant_id, len_intent_id, len_pubkey, len_sig, max_resource,
}
use bolina_rs.Codec.Cursor.{trailing_bytes, truncated, is_empty}
use bolina_rs.Codec.Cursor.Reads.{
  Sound, Sound-bind, Sound-since, Sound-expect_end, Runs, Runs-bind, Runs-since, Runs-expect_end,
  Cut, Cut-bind, Cut-since, Cut-nil, run-sound, run-encode, run-Cut,
}
use bolina_rs.Codec.Cursor.Fields.{Fits, sized, Reads-take, Reads-u8r, Reads-u64be, Reads-field16}
use bolina_rs.Codec.RoundTrip.Lengths.{wire_laws}
use bolina_rs.Codec.Messages.{Grant}
use bolina_rs.Codec.Parse.{grant, parse_grant}
use bolina_rs.Codec.Encode.{encode_grant}

pub record IsGrant (g : Grant) : Type 0 where
  pub version : IsByte g.version
  pub grant_id : length g.grant_id ≡ len_grant_id
  pub intent_id : length g.intent_id ≡ len_intent_id
  pub approver : length g.approver ≡ len_pubkey
  pub subject : length g.subject ≡ len_pubkey
  pub executor : length g.executor ≡ len_pubkey
  pub resource_id : length g.resource_id ≤ max_resource
  pub action_digest : length g.action_digest ≡ len_action_digest
  pub not_after : Fits 8 g.not_after
  pub sig : length g.sig ≡ len_sig
  -- what is signed is all that stands before the signature
  pub signed : encode_grant g ≡ g.tbs ++ g.sig

abbrev Parsed : Grant → Bytes → Type 0
Parsed g buf = (encode_grant g ≡ buf) × IsGrant g

-- The bytes of a grant, field by field.
abbrev wire : Grant → Bytes
wire g =
    (g.version ∷ [])
    ++ (g.grant_id
        ++ (g.intent_id
            ++ (g.approver
                ++ (g.subject
                    ++ (g.executor
                        ++ (sized 2 g.resource_id
                            ++ (g.action_digest
                                ++ (to_be_bytes 8 g.not_after ++ (g.sig ++ ([]))))))))))

encode_grant-wire : (g : Grant) → encode_grant g ≡ wire g
unfolding encode_grant
encode_grant-wire g = simp (wire_laws, append_assoc, append-nil)

grant-Sound : Sound [] grant Parsed
unfolding grant
grant-Sound = Sound-bind Reads-u8r [] _ Parsed λ version version_ok.
    Sound-bind (Reads-take len_grant_id) _ _ Parsed λ grant_id grant_id_ok.
      Sound-bind (Reads-take len_intent_id) _ _ Parsed λ intent_id intent_id_ok.
        Sound-bind (Reads-take len_pubkey) _ _ Parsed λ approver approver_ok.
          Sound-bind (Reads-take len_pubkey) _ _ Parsed λ subject subject_ok.
            Sound-bind (Reads-take len_pubkey) _ _ Parsed λ executor executor_ok.
              Sound-bind (Reads-field16 max_resource (omega arith)) _ _ Parsed
                λ resource_id resource_id_ok.
                  Sound-bind (Reads-take len_action_digest) _ _ Parsed
                    λ action_digest action_digest_ok.
                      Sound-bind Reads-u64be _ _ Parsed λ not_after not_after_ok.
                        Sound-since _ _ Parsed (
                          Sound-bind (Reads-take len_sig) _ _ Parsed λ sig sig_ok.
                            let written = encode_grant-wire _ ∙ simp (append_assoc, append-nil) in
                            Sound-expect_end _ _ Parsed (
                              written,
                              record {
                                version = version_ok;
                                grant_id = grant_id_ok;
                                intent_id = intent_id_ok;
                                approver = approver_ok;
                                subject = subject_ok;
                                executor = executor_ok;
                                resource_id = resource_id_ok;
                                action_digest = action_digest_ok;
                                not_after = not_after_ok;
                                sig = sig_ok;
                                signed = written;
                              },
                            ))

-- What `parse_grant` accepts is, byte for byte, the encoding of what it returns, whose fields have
-- their lengths and whose `tbs` is all that stands before the signature.
pub parse_grant_sound :
    (buf : Bytes) (g : Grant)
    → All IsByte buf
    → parse_grant buf ≡ ok g
    → (encode_grant g ≡ buf) × IsGrant g
unfolding parse_grant
parse_grant_sound buf g bytes h = run-sound grant Parsed buf g bytes grant-Sound h

module _ (g : Grant) (h : IsGrant g) where
  tbs-prefix :
      (g.version ∷ [])
        ++ g.grant_id
        ++ g.intent_id
        ++ g.approver
        ++ g.subject
        ++ g.executor
        ++ sized 2 g.resource_id
        ++ g.action_digest
        ++ to_be_bytes 8 g.not_after
      ≡ g.tbs
  tbs-prefix =
      append_cancel_right
        ((g.version ∷ [])
          ++ g.grant_id
          ++ g.intent_id
          ++ g.approver
          ++ g.subject
          ++ g.executor
          ++ sized 2 g.resource_id
          ++ g.action_digest
          ++ to_be_bytes 8 g.not_after)
        g.tbs g.sig (sym (encode_grant-wire g ∙ simp (append_assoc, append-nil)) ∙ h.signed)

  grant-Runs : Runs [] grant (wire g) g
  unfolding grant
  grant-Runs = Runs-bind Reads-u8r [] _ g.version _ h.version (
      Runs-bind (Reads-take len_grant_id) _ _ g.grant_id _ h.grant_id (
        Runs-bind (Reads-take len_intent_id) _ _ g.intent_id _ h.intent_id (
          Runs-bind (Reads-take len_pubkey) _ _ g.approver _ h.approver (
            Runs-bind (Reads-take len_pubkey) _ _ g.subject _ h.subject (
              Runs-bind (Reads-take len_pubkey) _ _ g.executor _ h.executor (
                Runs-bind (Reads-field16 max_resource (omega arith)) _ _ g.resource_id _
                  h.resource_id
                  (Runs-bind (Reads-take len_action_digest) _ _ g.action_digest _ h.action_digest (
                    Runs-bind Reads-u64be _ _ g.not_after _ h.not_after (
                      Runs-since _ _ _ (
                        Runs-bind (Reads-take len_sig) _ _ g.sig _ h.sig
                          (Runs-expect_end _ (ap (λ t. record g { tbs = t }) tbs-prefix))))))))))))

  grant-Cut : Cut [] grant (wire g)
  unfolding grant
  grant-Cut = Cut-bind Reads-u8r [] _ g.version _ h.version (
      Cut-bind (Reads-take len_grant_id) _ _ g.grant_id _ h.grant_id (
        Cut-bind (Reads-take len_intent_id) _ _ g.intent_id _ h.intent_id (
          Cut-bind (Reads-take len_pubkey) _ _ g.approver _ h.approver (
            Cut-bind (Reads-take len_pubkey) _ _ g.subject _ h.subject (
              Cut-bind (Reads-take len_pubkey) _ _ g.executor _ h.executor (
                Cut-bind (Reads-field16 max_resource (omega arith)) _ _ g.resource_id _
                  h.resource_id
                  (Cut-bind (Reads-take len_action_digest) _ _ g.action_digest _ h.action_digest (
                    Cut-bind Reads-u64be _ _ g.not_after _ h.not_after (
                      Cut-since _ _ _
                        (Cut-bind (Reads-take len_sig) _ _ g.sig _ h.sig (Cut-nil _ _)))))))))))

-- The encoding of a well-formed grant parses to it, and with any byte behind it the parser refuses
-- with `trailing_bytes`.
pub parse_grant-encode :
    (g : Grant) (more : Bytes)
    → IsGrant g
    → parse_grant (encode_grant g ++ more) ≡ (if is_empty more then ok g else err trailing_bytes)
unfolding parse_grant
parse_grant-encode g more h =
    rw encode_grant-wire (run-encode grant (wire g) g more (grant-Runs g h))

-- Every proper prefix of the encoding of a well-formed grant is refused as truncated.
pub parse_grant-truncated :
    (g : Grant) (front back : Bytes) (x : ℕ)
    → IsGrant g
    → encode_grant g ≡ front ++ (x ∷ back)
    → parse_grant front ≡ err truncated
unfolding parse_grant
parse_grant-truncated g front back x h split =
    run-Cut grant (wire g) front back x (grant-Cut g h) (sym (encode_grant-wire g) ∙ split)

-- The parser and the encoder are inverse: of bytes, `parse_grant` accepts the encodings of well-formed
-- grants and nothing else, and returns the grant that was encoded.
pub parse_grant_exact :
    (buf : Bytes) (g : Grant)
    → All IsByte buf
    → (parse_grant buf ≡ ok g) ↔ ((encode_grant g ≡ buf) × IsGrant g)
unfolding is_empty
parse_grant_exact buf g bytes = (
  parse_grant_sound buf g bytes,
  λ (e, well).
      ap parse_grant (sym (append-nil (encode_grant g) ∙ e)) ∙ parse_grant-encode g [] well,
)
