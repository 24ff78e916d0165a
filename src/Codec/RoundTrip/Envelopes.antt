-- ===== src/Codec/RoundTrip/Envelopes.antt =====
-- `parse_envelope` and `encode_envelope` of src/codec.rs.
use mathlib.Core.List.{append_cancel_right}
use bolina_rs.Prelude.{
  ℕ, ◌*◌, ◌≤◌, ◌≡◌, ◌↔◌, ◌∙◌, ap, ◌∷◌, ◌++◌, refl, sym, [], append-nil, append_assoc, length, All,
  ok, err, arith, if◌then◌else◌,
}
use bolina_rs.Prelude.Tests.{ltb→le, le→ltb}
use bolina_rs.Prelude.Bytes.{Bytes, IsByte, to_be_bytes}
use bolina_rs.Codec.Limits.{len_channel_id, len_parent, len_pubkey, len_sig, max_body, max_parents}
use bolina_rs.Codec.Cursor.{oversize, trailing_bytes, truncated, is_empty}
use bolina_rs.Codec.Cursor.Reads.{
  Sound, Sound-bind, Sound-refuse_if, Sound-since, Sound-expect_end, Runs, Runs-bind,
  Runs-refuse_if, Runs-since, Runs-expect_end, Cut, Cut-bind, Cut-refuse_if, Cut-since, Cut-nil,
  run-sound, run-encode, run-Cut,
}
use bolina_rs.Codec.Cursor.Fields.{Fits, Reads-take, Reads-u8r, Reads-u32be, Reads-u64be}
use bolina_rs.Codec.RoundTrip.Lengths.{wire_laws}
use bolina_rs.Codec.Messages.{Envelope}
use bolina_rs.Codec.Parse.{envelope, parse_envelope}
use bolina_rs.Codec.Encode.{encode_envelope}

pub record IsEnvelope (e : Envelope) : Type 0 where
  pub version : IsByte e.version
  pub channel_id : length e.channel_id ≡ len_channel_id
  pub sender : length e.sender ≡ len_pubkey
  pub seq : Fits 8 e.seq
  pub parent_count : IsByte e.parent_count
  pub parent_count_bound : e.parent_count ≤ max_parents
  pub parents : length e.parents ≡ e.parent_count * len_parent
  pub ts : Fits 8 e.ts
  pub body_type : IsByte e.body_type
  pub body : length e.body ≤ max_body
  pub sig : length e.sig ≡ len_sig
  -- what is signed is all that stands before the signature
  pub signed : encode_envelope e ≡ e.tbs ++ e.sig

abbrev Parsed : Envelope → Bytes → Type 0
Parsed e buf = (encode_envelope e ≡ buf) × IsEnvelope e

-- The bytes of an envelope, field by field.
abbrev wire : Envelope → Bytes
wire e =
    (e.version ∷ [])
    ++ (e.channel_id
        ++ (e.sender
            ++ (to_be_bytes 8 e.seq
                ++ ((e.parent_count ∷ [])
                    ++ (e.parents
                        ++ (to_be_bytes 8 e.ts
                            ++ ((e.body_type ∷ [])
                                ++ (to_be_bytes 4 (length e.body)
                                    ++ (e.body ++ (e.sig ++ ([])))))))))))

encode_envelope-wire : (e : Envelope) → encode_envelope e ≡ wire e
unfolding encode_envelope
encode_envelope-wire e = simp (wire_laws, append-nil)

envelope-Sound : Sound [] envelope Parsed
unfolding envelope
envelope-Sound = Sound-bind Reads-u8r [] _ Parsed λ version version_ok.
    Sound-bind (Reads-take len_channel_id) _ _ Parsed λ channel_id channel_id_ok.
      Sound-bind (Reads-take len_pubkey) _ _ Parsed λ sender sender_ok.
        Sound-bind Reads-u64be _ _ Parsed λ seq seq_ok.
          Sound-bind Reads-u8r _ _ Parsed λ parent_count parent_count_ok.
            Sound-refuse_if _ _ oversize _ Parsed λ parent_count_bound.
              Sound-bind (Reads-take (parent_count * len_parent)) _ _ Parsed λ parents parents_ok.
                Sound-bind Reads-u64be _ _ Parsed λ ts ts_ok.
                  Sound-bind Reads-u8r _ _ Parsed λ body_type body_type_ok.
                    Sound-bind Reads-u32be _ _ Parsed λ body_len body_fits.
                      Sound-refuse_if _ _ oversize _ Parsed λ body_bound.
                        Sound-bind (Reads-take body_len) _ _ Parsed λ body body_ok.
                          Sound-since _ _ Parsed (
                            Sound-bind (Reads-take len_sig) _ _ Parsed λ sig sig_ok.
                              let written =
                                encode_envelope-wire _ ∙ simp (append_assoc, append-nil, body_ok) in
                              Sound-expect_end _ _ Parsed (
                                written,
                                record {
                                  version = version_ok;
                                  channel_id = channel_id_ok;
                                  sender = sender_ok;
                                  seq = seq_ok;
                                  parent_count = parent_count_ok;
                                  parent_count_bound =
                                      ltb→le max_parents parent_count parent_count_bound;
                                  parents = parents_ok;
                                  ts = ts_ok;
                                  body_type = body_type_ok;
                                  body = rw body_ok (ltb→le max_body body_len body_bound);
                                  sig = sig_ok;
                                  signed = written;
                                },
                              ))

-- What `parse_envelope` accepts is, byte for byte, the encoding of what it returns, whose fields have
-- their lengths and whose `tbs` is all that stands before the signature.
pub parse_envelope_sound :
    (buf : Bytes) (e : Envelope)
    → All IsByte buf
    → parse_envelope buf ≡ ok e
    → (encode_envelope e ≡ buf) × IsEnvelope e
unfolding parse_envelope
parse_envelope_sound buf e bytes h = run-sound envelope Parsed buf e bytes envelope-Sound h

module _ (e : Envelope) (h : IsEnvelope e) where
  tbs-prefix :
      (e.version ∷ [])
        ++ e.channel_id
        ++ e.sender
        ++ to_be_bytes 8 e.seq
        ++ (e.parent_count ∷ [])
        ++ e.parents
        ++ to_be_bytes 8 e.ts
        ++ (e.body_type ∷ [])
        ++ to_be_bytes 4 (length e.body)
        ++ e.body
      ≡ e.tbs
  tbs-prefix =
      append_cancel_right
        ((e.version ∷ [])
          ++ e.channel_id
          ++ e.sender
          ++ to_be_bytes 8 e.seq
          ++ (e.parent_count ∷ [])
          ++ e.parents
          ++ to_be_bytes 8 e.ts
          ++ (e.body_type ∷ [])
          ++ to_be_bytes 4 (length e.body)
          ++ e.body)
        e.tbs e.sig (sym (encode_envelope-wire e ∙ simp (append_assoc, append-nil)) ∙ h.signed)

  fits : Fits 4 (length e.body)
  fits = omega (arith, h.body)

  envelope-Runs : Runs [] envelope (wire e) e
  unfolding envelope
  envelope-Runs = Runs-bind Reads-u8r [] _ e.version _ h.version (
      Runs-bind (Reads-take len_channel_id) _ _ e.channel_id _ h.channel_id (
        Runs-bind (Reads-take len_pubkey) _ _ e.sender _ h.sender (
          Runs-bind Reads-u64be _ _ e.seq _ h.seq (
            Runs-bind Reads-u8r _ _ e.parent_count _ h.parent_count (
              Runs-refuse_if _ _ oversize _ (le→ltb max_parents e.parent_count h.parent_count_bound)
                (Runs-bind (Reads-take (e.parent_count * len_parent)) _ _ e.parents _ h.parents (
                  Runs-bind Reads-u64be _ _ e.ts _ h.ts (
                    Runs-bind Reads-u8r _ _ e.body_type _ h.body_type (
                      Runs-bind Reads-u32be _ _ (length e.body) _ fits (
                        Runs-refuse_if _ _ oversize _ (le→ltb max_body (length e.body) h.body) (
                          Runs-bind (Reads-take (length e.body)) _ _ e.body _ refl (
                            Runs-since _ _ _ (
                              Runs-bind (Reads-take len_sig) _ _ e.sig _ h.sig (
                                Runs-expect_end _
                                  (ap (λ t. record e { tbs = t }) tbs-prefix)))))))))))))))

  envelope-Cut : Cut [] envelope (wire e)
  unfolding envelope
  envelope-Cut = Cut-bind Reads-u8r [] _ e.version _ h.version (
      Cut-bind (Reads-take len_channel_id) _ _ e.channel_id _ h.channel_id (
        Cut-bind (Reads-take len_pubkey) _ _ e.sender _ h.sender (
          Cut-bind Reads-u64be _ _ e.seq _ h.seq (
            Cut-bind Reads-u8r _ _ e.parent_count _ h.parent_count (
              Cut-refuse_if _ _ oversize _ (le→ltb max_parents e.parent_count h.parent_count_bound)
                (Cut-bind (Reads-take (e.parent_count * len_parent)) _ _ e.parents _ h.parents (
                  Cut-bind Reads-u64be _ _ e.ts _ h.ts (
                    Cut-bind Reads-u8r _ _ e.body_type _ h.body_type (
                      Cut-bind Reads-u32be _ _ (length e.body) _ fits (
                        Cut-refuse_if _ _ oversize _ (le→ltb max_body (length e.body) h.body) (
                          Cut-bind (Reads-take (length e.body)) _ _ e.body _ refl (
                            Cut-since _ _ _ (
                              Cut-bind (Reads-take len_sig) _ _ e.sig _ h.sig
                                (Cut-nil _ _))))))))))))))

-- The encoding of a well-formed envelope parses to it, and with any byte behind it the parser refuses
-- with `trailing_bytes`.
pub parse_envelope-encode :
    (e : Envelope) (more : Bytes)
    → IsEnvelope e
    → parse_envelope (encode_envelope e ++ more)
      ≡ (if is_empty more then ok e else err trailing_bytes)
unfolding parse_envelope
parse_envelope-encode e more h =
    rw encode_envelope-wire (run-encode envelope (wire e) e more (envelope-Runs e h))

-- Every proper prefix of the encoding of a well-formed envelope is refused as truncated.
pub parse_envelope-truncated :
    (e : Envelope) (front back : Bytes) (x : ℕ)
    → IsEnvelope e
    → encode_envelope e ≡ front ++ (x ∷ back)
    → parse_envelope front ≡ err truncated
unfolding parse_envelope
parse_envelope-truncated e front back x h split =
    run-Cut envelope (wire e) front back x (envelope-Cut e h) (sym (encode_envelope-wire e) ∙ split)

-- The parser and the encoder are inverse: of bytes, `parse_envelope` accepts the encodings of well-formed
-- envelopes and nothing else, and returns the envelope that was encoded.
pub parse_envelope_exact :
    (buf : Bytes) (e : Envelope)
    → All IsByte buf
    → (parse_envelope buf ≡ ok e) ↔ ((encode_envelope e ≡ buf) × IsEnvelope e)
unfolding is_empty
parse_envelope_exact buf e bytes = (
  parse_envelope_sound buf e bytes,
  λ (same, well).
      ap parse_envelope (sym (append-nil (encode_envelope e) ∙ same))
      ∙ parse_envelope-encode e [] well,
)
