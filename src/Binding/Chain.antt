-- ===== src/Binding/Chain.antt =====
-- src/transport/binding.rs: what a certificate of a bound session has.
use bolina_rs.Prelude.{
  ℕ, zero, suc, ◌+◌, ◌-◌, ◌*◌, ◌≤◌, ◌<◌, ◌≡◌, sym, Bool, true, false, not, ◌&&◌, ◌||◌, List, length,
  leb, ltb, ◌==◌, arith, ok, Bool-cases, inl, inr,
}
use bolina_rs.Prelude.Outcome.{bind-ok, refuse_if-ok, refuse_if-passed, map_err, map_err-ok}
use bolina_rs.Prelude.Tests.{not-false}
use bolina_rs.Prelude.Bytes.{Bytes, bytes_eq}
use bolina_rs.Verify.{domain_cert, role_agent, role_executor, role_approver, verify_signed}
use bolina_rs.Verify.Grants.{passes_eq}
use bolina_rs.Binding.{
  CertView, domain_binding, has_role, check_role_constraints, in_trust_set, key_at, sig_at,
  chain_to_binding, chain_loop, validate_cert_chain, validate_cert, bind_session,
}

-- Of the roles agent, approver and executor, one at most.
pub record IsSeparated (role_bits : ℕ) : Type 0 where
  pub agent_approver : (has_role role_bits role_agent && has_role role_bits role_approver) ≡ false
  pub agent_executor : (has_role role_bits role_agent && has_role role_bits role_executor) ≡ false
  pub approver_executor :
      (has_role role_bits role_approver && has_role role_bits role_executor) ≡ false

pub check_role_constraints_sound :
    (role_bits : ℕ) → check_role_constraints role_bits ≡ ok tt → IsSeparated role_bits
unfolding check_role_constraints
check_role_constraints_sound role_bits h =
    let (a, h) =
      refuse_if-ok (has_role role_bits role_agent && has_role role_bits role_approver) _ _ h in
    let (b, h) =
      refuse_if-ok (has_role role_bits role_agent && has_role role_bits role_executor) _ _ h in
    let c =
      refuse_if-passed (has_role role_bits role_approver && has_role role_bits role_executor) _ h in
    record { agent_approver = a; agent_executor = b; approver_executor = c }

module _ (hash : Bytes → Bytes) (ed25519 : Bytes → Bytes → Bytes → Bool) where
  -- The pair number `k` is within the bytes, a signature of the certificate, and by a trusted key.
  pub record IsVouched (cert : CertView) (trusted : List Bytes) (k : ℕ) : Type 0 where
    pub within : k * 96 + 96 ≤ length cert.ca_sigs
    pub signs :
        verify_signed hash ed25519 domain_cert cert.tbs
          (sig_at cert.ca_sigs (k * 96))
          (key_at cert.ca_sigs (k * 96))
        ≡ true
    pub trusted_key : in_trust_set (key_at cert.ca_sigs (k * 96)) trusted ≡ true

  chain_loop_sound :
      (n i : ℕ) (cert : CertView) (trusted : List Bytes)
      → chain_loop hash ed25519 n i cert trusted ≡ ok tt
      → (k : ℕ) → i ≤ k
      → k < i + n
      → IsVouched cert trusted k
  unfolding chain_loop
  chain_loop_sound zero i cert trusted h k low high = absurd (omega (arith, low, high))
  chain_loop_sound (suc n) i cert trusted h k low high =
      let (a, h) = refuse_if-ok (ltb (length cert.ca_sigs) (i * 96 + 96)) _ _ h in
      let (b, h) =
        refuse_if-ok
          (not (
            verify_signed hash ed25519 domain_cert cert.tbs (sig_at cert.ca_sigs (i * 96))
              (key_at cert.ca_sigs (i * 96))))
          _ _ h in
      let (c, h) = refuse_if-ok (not (in_trust_set (key_at cert.ca_sigs (i * 96)) trusted)) _ _ h in
      elim (Bool-cases (i == k)) [
        | inl e ↦
            let same : i ≡ k = ground (arith, e) in
            rw (sym same) (record {
              within = ground (arith, a);
              signs = not-false _ b;
              trusted_key = not-false _ c;
            })
        | inr ne ↦
            chain_loop_sound n (i + 1) cert trusted h k (ground (arith, ne, low))
              (omega (arith, high))
      ]

  -- What a session is bound to: one role, a quorum for an approver, a bounded lifetime for the
  -- privileged roles, a clock within the certificate's time, and trusted signatures all along.
  pub record IsBound (cert : CertView) (binding_sig handshake_hash remote_kex_pubkey : Bytes)
      (trusted : List Bytes) (now : ℕ) : Type 0 where
    pub separated : IsSeparated cert.role_bits
    pub quorum : has_role cert.role_bits role_approver ≡ true → 2 ≤ cert.ca_sig_count
    pub lifetime : has_role cert.role_bits 12 ≡ true → cert.not_after - cert.not_before ≤ 2592000000
    pub vouched : (k : ℕ) → k < cert.ca_sig_count → IsVouched cert trusted k
    pub started : cert.not_before ≤ now
    pub unexpired : now < cert.not_after
    pub same_kex : cert.kex_pubkey ≡ remote_kex_pubkey
    pub signed :
        verify_signed hash ed25519 domain_binding handshake_hash binding_sig cert.sig_pubkey ≡ true

  -- A session is bound only to a certificate of one role at most, with two signatures at least if it is
  -- an approver's, of thirty days at most if it is privileged, within its time, each of whose
  -- signatures a trusted authority made, whose exchange key is the peer's of the handshake, and whose
  -- key signed the hash of this handshake.
  pub bind_session_sound :
      (cert : CertView) (binding_sig handshake_hash remote_kex_pubkey : Bytes)
      (trusted : List Bytes) (now : ℕ)
      → bind_session hash ed25519 cert binding_sig handshake_hash remote_kex_pubkey trusted now
        ≡ ok tt
      → IsBound cert binding_sig handshake_hash remote_kex_pubkey trusted now
  unfolding bind_session validate_cert validate_cert_chain
  bind_session_sound cert binding_sig handshake_hash remote_kex_pubkey trusted now h =
      let (_, v, h) = bind-ok (validate_cert hash ed25519 cert trusted now) _ h in
      let (a, h) = refuse_if-ok (not (bytes_eq cert.kex_pubkey remote_kex_pubkey)) _ _ h in
      let b =
        refuse_if-passed
          (not
            (verify_signed hash ed25519 domain_binding handshake_hash binding_sig cert.sig_pubkey))
          _ h in
      let (_, m, v) =
        bind-ok (map_err chain_to_binding (validate_cert_chain hash ed25519 cert trusted)) _ v in
      let c = refuse_if-passed (ltb now cert.not_before || leb cert.not_after now) _ v in
      let m = map_err-ok chain_to_binding (validate_cert_chain hash ed25519 cert trusted) m in
      let (_, d, m) = bind-ok (check_role_constraints cert.role_bits) _ m in
      let (e, m) =
        refuse_if-ok (has_role cert.role_bits role_approver && ltb cert.ca_sig_count 2) _ _ m in
      let (f, m) =
        refuse_if-ok
          (has_role cert.role_bits 12 && ltb 2592000000 (cert.not_after - cert.not_before)) _ _ m in
      record {
        separated = check_role_constraints_sound cert.role_bits d;
        quorum = λ is. ground (arith, e, is);
        lifetime = λ is. ground (arith, f, is);
        vouched = λ k few.
            chain_loop_sound cert.ca_sig_count 0 cert trusted m k (omega arith)
              (omega (arith, few));
        started = ground (arith, c);
        unexpired = ground (arith, c);
        same_kex = passes_eq cert.kex_pubkey remote_kex_pubkey a;
        signed = not-false _ b;
      }
