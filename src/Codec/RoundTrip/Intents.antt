-- ===== src/Codec/RoundTrip/Intents.antt =====
-- `parse_intent` and `encode_intent` of src/codec.rs.
use bolina_rs.Prelude.{
  ℕ, ◌≤◌, ◌≡◌, ◌↔◌, ◌∙◌, ap, ◌∷◌, ◌++◌, refl, sym, [], append-nil, append_assoc, length, All, ok,
  err, arith, if◌then◌else◌,
}
use bolina_rs.Prelude.Bytes.{Bytes, IsByte}
use bolina_rs.Codec.Limits.{len_intent_id, max_action, max_rationale, max_resource}
use bolina_rs.Codec.Cursor.{trailing_bytes, truncated, is_empty}
use bolina_rs.Codec.Cursor.Reads.{
  Sound, Sound-bind, Sound-expect_end, Runs, Runs-bind, Runs-expect_end, Cut, Cut-bind, Cut-nil,
  run-sound, run-encode, run-Cut,
}
use bolina_rs.Codec.Cursor.Fields.{sized, Reads-take, Reads-field16, Reads-field32}
use bolina_rs.Codec.RoundTrip.Lengths.{wire_laws}
use bolina_rs.Codec.Messages.{Intent}
use bolina_rs.Codec.Parse.{intent, parse_intent}
use bolina_rs.Codec.Encode.{encode_intent}

pub record IsIntent (i : Intent) : Type 0 where
  pub intent_id : length i.intent_id ≡ len_intent_id
  pub resource_id : length i.resource_id ≤ max_resource
  pub action : length i.action ≤ max_action
  pub rationale : length i.rationale ≤ max_rationale

abbrev Parsed : Intent → Bytes → Type 0
Parsed i buf = (encode_intent i ≡ buf) × IsIntent i

-- The bytes of an intent, field by field.
abbrev wire : Intent → Bytes
wire i =
    i.intent_id ++ (sized 2 i.resource_id ++ (sized 4 i.action ++ (sized 2 i.rationale ++ ([]))))

encode_intent-wire : (i : Intent) → encode_intent i ≡ wire i
unfolding encode_intent
encode_intent-wire i = simp (wire_laws, append_assoc, append-nil)

intent-Sound : Sound [] intent Parsed
unfolding intent
intent-Sound = Sound-bind (Reads-take len_intent_id) [] _ Parsed λ intent_id intent_id_ok.
    Sound-bind (Reads-field16 max_resource (omega arith)) _ _ Parsed λ resource_id resource_id_ok.
      Sound-bind (Reads-field32 max_action (omega arith)) _ _ Parsed λ action action_ok.
        Sound-bind (Reads-field16 max_rationale (omega arith)) _ _ Parsed λ rationale rationale_ok.
          let written = encode_intent-wire _ ∙ simp (append_assoc, append-nil) in
          Sound-expect_end _ _ Parsed (
            written,
            record {
              intent_id = intent_id_ok;
              resource_id = resource_id_ok;
              action = action_ok;
              rationale = rationale_ok;
            },
          )

-- What `parse_intent` accepts is, byte for byte, the encoding of what it returns, whose fields have
-- their lengths.
pub parse_intent_sound :
    (buf : Bytes) (i : Intent)
    → All IsByte buf
    → parse_intent buf ≡ ok i
    → (encode_intent i ≡ buf) × IsIntent i
unfolding parse_intent
parse_intent_sound buf i bytes h = run-sound intent Parsed buf i bytes intent-Sound h

module _ (i : Intent) (h : IsIntent i) where
  intent-Runs : Runs [] intent (wire i) i
  unfolding intent
  intent-Runs = Runs-bind (Reads-take len_intent_id) [] _ i.intent_id _ h.intent_id (
      Runs-bind (Reads-field16 max_resource (omega arith)) _ _ i.resource_id _ h.resource_id (
        Runs-bind (Reads-field32 max_action (omega arith)) _ _ i.action _ h.action (
          Runs-bind (Reads-field16 max_rationale (omega arith)) _ _ i.rationale _ h.rationale
            (Runs-expect_end _ refl))))

  intent-Cut : Cut [] intent (wire i)
  unfolding intent
  intent-Cut = Cut-bind (Reads-take len_intent_id) [] _ i.intent_id _ h.intent_id (
      Cut-bind (Reads-field16 max_resource (omega arith)) _ _ i.resource_id _ h.resource_id (
        Cut-bind (Reads-field32 max_action (omega arith)) _ _ i.action _ h.action (
          Cut-bind (Reads-field16 max_rationale (omega arith)) _ _ i.rationale _ h.rationale
            (Cut-nil _ _))))

-- The encoding of a well-formed intent parses to it, and with any byte behind it the parser refuses
-- with `trailing_bytes`.
pub parse_intent-encode :
    (i : Intent) (more : Bytes)
    → IsIntent i
    → parse_intent (encode_intent i ++ more) ≡ (if is_empty more then ok i else err trailing_bytes)
unfolding parse_intent
parse_intent-encode i more h =
    rw encode_intent-wire (run-encode intent (wire i) i more (intent-Runs i h))

-- Every proper prefix of the encoding of a well-formed intent is refused as truncated.
pub parse_intent-truncated :
    (i : Intent) (front back : Bytes) (x : ℕ)
    → IsIntent i
    → encode_intent i ≡ front ++ (x ∷ back)
    → parse_intent front ≡ err truncated
unfolding parse_intent
parse_intent-truncated i front back x h split =
    run-Cut intent (wire i) front back x (intent-Cut i h) (sym (encode_intent-wire i) ∙ split)

-- The parser and the encoder are inverse: of bytes, `parse_intent` accepts the encodings of well-formed
-- intents and nothing else, and returns the intent that was encoded.
pub parse_intent_exact :
    (buf : Bytes) (i : Intent)
    → All IsByte buf
    → (parse_intent buf ≡ ok i) ↔ ((encode_intent i ≡ buf) × IsIntent i)
unfolding is_empty
parse_intent_exact buf i bytes = (
  parse_intent_sound buf i bytes,
  λ (e, well).
      ap parse_intent (sym (append-nil (encode_intent i) ∙ e)) ∙ parse_intent-encode i [] well,
)
