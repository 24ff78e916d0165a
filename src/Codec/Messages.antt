-- ===== src/Codec/Messages.antt =====
-- The structures of src/codec.rs. A slice `&[u8]` is the list of its bytes.
use bolina_rs.Prelude.{ℕ}
use bolina_rs.Prelude.Bytes.{Bytes}

pub record Envelope : Type 0 where
  pub version : ℕ
  pub channel_id : Bytes
  pub sender : Bytes
  pub seq : ℕ
  pub parent_count : ℕ
  pub parents : Bytes
  pub ts : ℕ
  pub body_type : ℕ
  pub body : Bytes
  pub tbs : Bytes
  pub sig : Bytes

pub record Intent : Type 0 where
  pub intent_id : Bytes
  pub resource_id : Bytes
  pub action : Bytes
  pub rationale : Bytes

pub record Grant : Type 0 where
  pub version : ℕ
  pub grant_id : Bytes
  pub intent_id : Bytes
  pub approver : Bytes
  pub subject : Bytes
  pub executor : Bytes
  pub resource_id : Bytes
  pub action_digest : Bytes
  pub not_after : ℕ
  pub tbs : Bytes
  pub sig : Bytes

pub record Refusal : Type 0 where
  pub intent_id : Bytes
  pub note : Bytes
  pub tbs : Bytes
  pub sig : Bytes

pub record Span : Type 0 where
  pub version : ℕ
  pub span_id : Bytes
  pub trace_id : Bytes
  pub resource_id : Bytes
  pub method_id : ℕ
  pub volatility : ℕ
  pub origin : Bytes
  pub observed_at : ℕ
  pub digest : Bytes
  pub executor : Bytes
  pub tbs : Bytes
  pub sig : Bytes

pub record Cert : Type 0 where
  pub version : ℕ
  pub role_bits : ℕ
  pub sig_pubkey : Bytes
  pub kex_pubkey : Bytes
  pub not_before : ℕ
  pub not_after : ℕ
  pub name : Bytes
  pub scope_count : ℕ
  pub scope_ids : Bytes
  pub ca_sig_count : ℕ
  pub ca_sigs : Bytes
  pub tbs : Bytes
