-- ===== src/Binding.antt =====
-- src/transport/binding.rs: the chain of a certificate and the binding of a session. A hash and the
-- verification of signatures are parameters, as for src/transport/verify.rs.
pub mod Chain
pub mod Examples
use bolina_rs.Prelude.{
  ℕ, zero, suc, ◌+◌, ◌-◌, ◌*◌, Bool, true, false, not, ◌&&◌, ◌||◌, List, [], ◌∷◌, length, take, leb,
  ltb, ◌==◌, if◌then◌else◌, Result, ok, err,
}
use Prim.Native.Nat.{bit_and}
use bolina_rs.Prelude.Outcome.{◌>>=◌, ◌>>◌, refuse_if, map_err}
use bolina_rs.Prelude.Bytes.{Bytes, bytes_eq, slice}
use bolina_rs.Prelude.Search.{any}
use bolina_rs.Verify.{domain_cert, role_agent, role_executor, role_approver, verify_signed}

abbrev pub domain_binding : ℕ
domain_binding = 5

abbrev pub max_privileged_lifetime_ms : ℕ
max_privileged_lifetime_ms = 2592000000

abbrev pub approver_quorum : ℕ
approver_quorum = 2

abbrev pub len_overlay_addr : ℕ
len_overlay_addr = 16

abbrev pub overlay_prefix : ℕ
overlay_prefix = 253

pub data BindingError : Type 0 where
  malformed_key bad_ca_signature untrusted_ca cert_expired cert_too_long_lived : BindingError
  role_agent_approver role_agent_executor role_approver_executor approver_no_quorum : BindingError
  bad_binding_sig kex_pubkey_mismatch : BindingError

pub data CertChainError : Type 0 where
  malformed_key bad_ca_signature untrusted_ca cert_too_long_lived role_agent_approver :
      CertChainError
  role_agent_executor role_approver_executor approver_no_quorum : CertChainError

pub record CertView : Type 0 where
  pub sig_pubkey : Bytes
  pub kex_pubkey : Bytes
  pub role_bits : ℕ
  pub not_before : ℕ
  pub not_after : ℕ
  pub tbs : Bytes
  pub ca_sigs : Bytes
  pub ca_sig_count : ℕ

abbrev pub len_ca_key : ℕ
len_ca_key = 32

abbrev pub len_ca_sig : ℕ
len_ca_sig = 64

-- `(role_bits & role) != 0`
unfoldable pub has_role : ℕ → ℕ → Bool
has_role role_bits role = not (bit_and role_bits role == 0)

unfoldable pub check_role_constraints : ℕ → Result (Unit {0}) CertChainError
unfolding refuse_if has_role
check_role_constraints role_bits = do
  refuse_if (has_role role_bits role_agent && has_role role_bits role_approver)
      CertChainError.role_agent_approver
  refuse_if (has_role role_bits role_agent && has_role role_bits role_executor)
      CertChainError.role_agent_executor
  refuse_if (has_role role_bits role_approver && has_role role_bits role_executor)
      CertChainError.role_approver_executor

unfoldable pub in_trust_set : Bytes → List Bytes → Bool
unfolding any
in_trust_set ca_key trusted = any (λ k. bytes_eq k ca_key) trusted

unfoldable pub chain_to_binding : CertChainError → BindingError
chain_to_binding CertChainError.malformed_key = BindingError.malformed_key
chain_to_binding CertChainError.bad_ca_signature = BindingError.bad_ca_signature
chain_to_binding CertChainError.untrusted_ca = BindingError.untrusted_ca
chain_to_binding CertChainError.cert_too_long_lived = BindingError.cert_too_long_lived
chain_to_binding CertChainError.role_agent_approver = BindingError.role_agent_approver
chain_to_binding CertChainError.role_agent_executor = BindingError.role_agent_executor
chain_to_binding CertChainError.role_approver_executor = BindingError.role_approver_executor
chain_to_binding CertChainError.approver_no_quorum = BindingError.approver_no_quorum

-- The parts of the pair at `off`.
abbrev pub key_at : Bytes → ℕ → Bytes
key_at ca_sigs off = slice off (off + len_ca_key) ca_sigs

abbrev pub sig_at : Bytes → ℕ → Bytes
sig_at ca_sigs off = slice (off + len_ca_key) (off + (len_ca_key + len_ca_sig)) ca_sigs

module _ (hash : Bytes → Bytes) (ed25519 : Bytes → Bytes → Bytes → Bool) where
  pub derive_overlay_addr : Bytes → Bytes
  derive_overlay_addr sig_pubkey = overlay_prefix ∷ take (len_overlay_addr - 1) (hash sig_pubkey)

  -- The loop of `validate_cert_chain`, over `n` pairs from `i` on.
  unfoldable chain_loop : ℕ → ℕ → CertView → List Bytes → Result (Unit {0}) CertChainError
  unfolding refuse_if verify_signed in_trust_set
  chain_loop zero i cert trusted = ok tt
  chain_loop (suc n) i cert trusted = do
    refuse_if
        (ltb (length cert.ca_sigs) (i * (len_ca_key + len_ca_sig) + (len_ca_key + len_ca_sig)))
        CertChainError.bad_ca_signature
    refuse_if
        (not (
          verify_signed hash ed25519 domain_cert cert.tbs
            (sig_at cert.ca_sigs (i * (len_ca_key + len_ca_sig)))
            (key_at cert.ca_sigs (i * (len_ca_key + len_ca_sig)))))
        CertChainError.bad_ca_signature
    refuse_if (not (in_trust_set (key_at cert.ca_sigs (i * (len_ca_key + len_ca_sig))) trusted))
        CertChainError.untrusted_ca
    chain_loop n (i + 1) cert trusted

  unfoldable pub validate_cert_chain : CertView → List Bytes → Result (Unit {0}) CertChainError
  unfolding check_role_constraints refuse_if has_role chain_loop
  validate_cert_chain cert trusted = do
    check_role_constraints cert.role_bits
    refuse_if (has_role cert.role_bits role_approver && ltb cert.ca_sig_count approver_quorum)
        CertChainError.approver_no_quorum
    refuse_if
        (has_role cert.role_bits (role_approver + role_executor)
          && ltb max_privileged_lifetime_ms (cert.not_after - cert.not_before))
        CertChainError.cert_too_long_lived
    chain_loop cert.ca_sig_count 0 cert trusted

  pub validate_cert_no_clock : CertView → List Bytes → Result (Unit {0}) CertChainError
  unfolding validate_cert_chain
  validate_cert_no_clock cert trusted = validate_cert_chain cert trusted

  unfoldable pub validate_cert : CertView → List Bytes → ℕ → Result (Unit {0}) BindingError
  unfolding validate_cert_chain chain_to_binding refuse_if
  validate_cert cert trusted now = do
    map_err chain_to_binding (validate_cert_chain cert trusted)
    refuse_if (ltb now cert.not_before || leb cert.not_after now) cert_expired

  pub bind_session :
      CertView → Bytes → Bytes → Bytes → List Bytes → ℕ → Result (Unit {0}) BindingError
  unfolding validate_cert refuse_if verify_signed
  bind_session cert binding_sig handshake_hash remote_kex_pubkey trusted now = do
    validate_cert cert trusted now
    refuse_if (not (bytes_eq cert.kex_pubkey remote_kex_pubkey)) kex_pubkey_mismatch
    refuse_if
        (not (verify_signed hash ed25519 domain_binding handshake_hash binding_sig cert.sig_pubkey))
        bad_binding_sig
