-- ===== src/Codec/Limits.antt =====
-- The limits and tags at the top of src/codec.rs.
use bolina_rs.Prelude.{ℕ, ◌-◌, ◌*◌, ◌^◌}

abbrev pub max_message : ℕ
max_message = 2 ^ 20

abbrev pub len_pubkey : ℕ
len_pubkey = 32

abbrev pub len_sig : ℕ
len_sig = 64

abbrev pub max_header : ℕ
max_header = 512

abbrev pub max_body : ℕ
max_body = max_message - max_header

abbrev pub max_parents : ℕ
max_parents = 4

abbrev pub max_resource : ℕ
max_resource = 256

abbrev pub max_action : ℕ
max_action = 256 * 1024

abbrev pub max_rationale : ℕ
max_rationale = 4 * 1024

abbrev pub max_note : ℕ
max_note = 1024

abbrev pub max_name : ℕ
max_name = 64

abbrev pub max_scope : ℕ
max_scope = 8

abbrev pub max_ca_sigs : ℕ
max_ca_sigs = 4

abbrev pub len_channel_id : ℕ
len_channel_id = 32

abbrev pub len_parent : ℕ
len_parent = 32

abbrev pub len_intent_id : ℕ
len_intent_id = 16

abbrev pub len_grant_id : ℕ
len_grant_id = 16

abbrev pub len_action_digest : ℕ
len_action_digest = 32

abbrev pub len_scope_id : ℕ
len_scope_id = 8

abbrev pub len_ca_key : ℕ
len_ca_key = 32

abbrev pub len_span_id : ℕ
len_span_id = 16

abbrev pub len_trace_id : ℕ
len_trace_id = 16

abbrev pub len_origin : ℕ
len_origin = 32

abbrev pub len_digest : ℕ
len_digest = 32
