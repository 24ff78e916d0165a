-- ===== src/Binding/Examples.antt =====
-- A session of src/transport/binding.rs that is bound: a signature is good if it begins with the key.
use bolina_rs.Prelude.{◌≡◌, refl, Bool, [], ◌∷◌, ◌++◌, take, ok}
use bolina_rs.Prelude.Outcome.{refuse_if}
use bolina_rs.Prelude.Bytes.{Bytes, bytes_eq}
use bolina_rs.Prelude.Search.{any}
use bolina_rs.Verify.{verify_signed}
use bolina_rs.Binding.{
  CertView, has_role, check_role_constraints, in_trust_set, chain_loop, validate_cert_chain,
  validate_cert, bind_session,
}
use bolina_rs.Binding.Chain.{IsBound, bind_session_sound}

abbrev prefix : Bytes → Bytes
prefix bytes = take 32 bytes

abbrev begins_with_key : Bytes → Bytes → Bytes → Bool
begins_with_key key message sig = bytes_eq (take 32 sig) key

abbrev sixteen : Bytes
sixteen = 1 ∷ 2 ∷ 3 ∷ 4 ∷ 5 ∷ 6 ∷ 7 ∷ 8 ∷ 9 ∷ 10 ∷ 11 ∷ 12 ∷ 13 ∷ 14 ∷ 15 ∷ 16 ∷ []

abbrev ca_key : Bytes
ca_key = sixteen ++ sixteen

abbrev agent_cert : CertView
agent_cert = record {
  sig_pubkey = ca_key;
  kex_pubkey = 9 ∷ [];
  role_bits = 2;
  not_before = 10;
  not_after = 20;
  tbs = [];
  ca_sigs = ca_key ++ (ca_key ++ ca_key);
  ca_sig_count = 1;
}

agent_bound :
    bind_session prefix begins_with_key agent_cert
      (ca_key ++ ca_key)
      (5 ∷ [])
      (9 ∷ [])
      (ca_key ∷ [])
      15
    ≡ ok tt
unfolding bind_session validate_cert validate_cert_chain check_role_constraints has_role chain_loop
    verify_signed in_trust_set any bytes_eq refuse_if
agent_bound = refl

bind_session_sound_example :
    IsBound prefix begins_with_key agent_cert (ca_key ++ ca_key) (5 ∷ []) (9 ∷ []) (ca_key ∷ []) 15
bind_session_sound_example =
    bind_session_sound prefix begins_with_key agent_cert (ca_key ++ ca_key) (5 ∷ []) (9 ∷ [])
      (ca_key ∷ []) 15 agent_bound
