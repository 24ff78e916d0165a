-- ===== src/Codec/RoundTrip/Refusals.antt =====
-- `parse_refusal` and `encode_refusal` of src/codec.rs.
use mathlib.Core.List.{append_cancel_right}
use bolina_rs.Prelude.{
  ℕ, ◌≤◌, ◌≡◌, ◌∙◌, ◌∷◌, ◌++◌, ap, sym, [], append-nil, append_assoc, length, All, ok, err, arith,
  if◌then◌else◌,
}
use bolina_rs.Prelude.Bytes.{Bytes, IsByte}
use bolina_rs.Codec.Limits.{len_intent_id, len_sig, max_note}
use bolina_rs.Codec.Cursor.{trailing_bytes, truncated, is_empty}
use bolina_rs.Codec.Cursor.Reads.{
  Sound, Sound-bind, Sound-since, Sound-expect_end, Runs, Runs-bind, Runs-since, Runs-expect_end,
  Cut, Cut-bind, Cut-since, Cut-nil, run-sound, run-encode, run-Cut,
}
use bolina_rs.Codec.Cursor.Fields.{sized, Reads-take, Reads-field16}
use bolina_rs.Codec.RoundTrip.Lengths.{wire_laws}
use bolina_rs.Codec.Messages.{Refusal}
use bolina_rs.Codec.Parse.{refusal, parse_refusal}
use bolina_rs.Codec.Encode.{encode_refusal}

pub record IsRefusal (r : Refusal) : Type 0 where
  pub intent_id : length r.intent_id ≡ len_intent_id
  pub note : length r.note ≤ max_note
  pub sig : length r.sig ≡ len_sig
  -- what is signed is all that stands before the signature
  pub signed : encode_refusal r ≡ r.tbs ++ r.sig

abbrev Parsed : Refusal → Bytes → Type 0
Parsed r buf = (encode_refusal r ≡ buf) × IsRefusal r

-- The bytes of a refusal, field by field.
abbrev wire : Refusal → Bytes
wire r = r.intent_id ++ (sized 2 r.note ++ (r.sig ++ ([])))

encode_refusal-wire : (r : Refusal) → encode_refusal r ≡ wire r
unfolding encode_refusal
encode_refusal-wire r = simp (wire_laws, append_assoc, append-nil)

refusal-Sound : Sound [] refusal Parsed
unfolding refusal
refusal-Sound = Sound-bind (Reads-take len_intent_id) [] _ Parsed λ intent_id intent_id_ok.
    Sound-bind (Reads-field16 max_note (omega arith)) _ _ Parsed λ note note_ok.
      Sound-since _ _ Parsed (
        Sound-bind (Reads-take len_sig) _ _ Parsed λ sig sig_ok.
          let written = encode_refusal-wire _ ∙ simp (append_assoc, append-nil) in
          Sound-expect_end _ _ Parsed (
            written,
            record { intent_id = intent_id_ok; note = note_ok; sig = sig_ok; signed = written },
          ))

-- What `parse_refusal` accepts is, byte for byte, the encoding of what it returns, whose fields have
-- their lengths and whose `tbs` is all that stands before the signature.
pub parse_refusal_sound :
    (buf : Bytes) (r : Refusal)
    → All IsByte buf
    → parse_refusal buf ≡ ok r
    → (encode_refusal r ≡ buf) × IsRefusal r
unfolding parse_refusal
parse_refusal_sound buf r bytes h = run-sound refusal Parsed buf r bytes refusal-Sound h

module _ (r : Refusal) (h : IsRefusal r) where
  tbs-prefix : r.intent_id ++ sized 2 r.note ≡ r.tbs
  tbs-prefix =
      append_cancel_right (r.intent_id ++ sized 2 r.note) r.tbs r.sig
        (sym (encode_refusal-wire r ∙ simp (append_assoc, append-nil)) ∙ h.signed)

  refusal-Runs : Runs [] refusal (wire r) r
  unfolding refusal
  refusal-Runs = Runs-bind (Reads-take len_intent_id) [] _ r.intent_id _ h.intent_id (
      Runs-bind (Reads-field16 max_note (omega arith)) _ _ r.note _ h.note (
        Runs-since _ _ _ (
          Runs-bind (Reads-take len_sig) _ _ r.sig _ h.sig
            (Runs-expect_end _ (ap (λ t. record r { tbs = t }) tbs-prefix)))))

  refusal-Cut : Cut [] refusal (wire r)
  unfolding refusal
  refusal-Cut = Cut-bind (Reads-take len_intent_id) [] _ r.intent_id _ h.intent_id (
      Cut-bind (Reads-field16 max_note (omega arith)) _ _ r.note _ h.note
        (Cut-since _ _ _ (Cut-bind (Reads-take len_sig) _ _ r.sig _ h.sig (Cut-nil _ _))))

-- The encoding of a well-formed refusal parses to it, and with any byte behind it the parser refuses
-- with `trailing_bytes`.
pub parse_refusal-encode :
    (r : Refusal) (more : Bytes)
    → IsRefusal r
    → parse_refusal (encode_refusal r ++ more)
      ≡ (if is_empty more then ok r else err trailing_bytes)
unfolding parse_refusal
parse_refusal-encode r more h =
    rw encode_refusal-wire (run-encode refusal (wire r) r more (refusal-Runs r h))

-- Every proper prefix of the encoding of a well-formed refusal is refused as truncated.
pub parse_refusal-truncated :
    (r : Refusal) (front back : Bytes) (x : ℕ)
    → IsRefusal r
    → encode_refusal r ≡ front ++ (x ∷ back)
    → parse_refusal front ≡ err truncated
unfolding parse_refusal
parse_refusal-truncated r front back x h split =
    run-Cut refusal (wire r) front back x (refusal-Cut r h) (sym (encode_refusal-wire r) ∙ split)
