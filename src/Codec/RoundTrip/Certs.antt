-- ===== src/Codec/RoundTrip/Certs.antt =====
-- `parse_cert` and `encode_cert` of src/codec.rs.
use mathlib.Core.List.{append_cancel_right}
use mathlib.Core.Path.{subst}
use bolina_rs.Prelude.{
  ℕ, ◌*◌, ◌≤◌, ◌≡◌, ◌↔◌, ◌∙◌, ap, sym, List, [], ◌∷◌, ◌++◌, append-nil, append_assoc, length, All,
  ok, err, arith, if◌then◌else◌, ◌==◌, false, refl,
}
use bolina_rs.Prelude.Tests.{ltb→le, le→ltb}
use bolina_rs.Prelude.Bytes.{Bytes, IsByte, to_be_bytes}
use bolina_rs.Codec.Limits.{len_pubkey, len_scope_id, max_ca_sigs, max_name, max_scope}
use bolina_rs.Codec.Cursor.{oversize, malformed, trailing_bytes, truncated, is_empty, run}
use bolina_rs.Codec.Cursor.Reads.{
  Sound, Sound-bind, Sound-refuse_if, Sound-since, Sound-expect_end, Runs, Runs-bind,
  Runs-refuse_if, Runs-since, Runs-expect_end, Cut, Cut-bind, Cut-refuse_if, Cut-since, run-sound,
  run-encode, run-Cut,
}
use bolina_rs.Codec.Cursor.Fields.{Fits, sized, Reads-take, Reads-u8r, Reads-u64be, Reads-field16}
use bolina_rs.Codec.RoundTrip.Lengths.{wire_laws}
use bolina_rs.Codec.RoundTrip.CaSigs.{
  CaSig, ca_bytes, AreAscending, Sound-ca_sigs, Runs-ca_sigs, Cut-ca_sigs,
}
use bolina_rs.Codec.Messages.{Cert}
use bolina_rs.Codec.Parse.{cert, parse_cert}
use bolina_rs.Codec.Encode.{encode_cert}

pub record IsCert (c : Cert) : Type 0 where
  pub version : IsByte c.version
  pub role_bits : IsByte c.role_bits
  pub sig_pubkey : length c.sig_pubkey ≡ len_pubkey
  pub kex_pubkey : length c.kex_pubkey ≡ len_pubkey
  pub not_before : Fits 8 c.not_before
  pub not_after : Fits 8 c.not_after
  pub name : length c.name ≤ max_name
  pub scope_count : c.scope_count ≤ max_scope
  pub scope_ids : length c.scope_ids ≡ c.scope_count * len_scope_id
  pub some_sig : 1 ≤ c.ca_sig_count
  pub few_sigs : c.ca_sig_count ≤ max_ca_sigs
  -- the keys and signatures of the CAs, as many as the count says
  pub signers : List CaSig
  pub signers_count : length signers ≡ c.ca_sig_count
  pub signers_ascend : AreAscending signers
  pub signers_bytes : c.ca_sigs ≡ ca_bytes signers
  -- what is signed is all that stands before the count of signatures
  pub signed : encode_cert c ≡ c.tbs ++ (c.ca_sig_count ∷ c.ca_sigs)

abbrev Parsed : Cert → Bytes → Type 0
Parsed c buf = (encode_cert c ≡ buf) × IsCert c

-- The bytes of a certificate, field by field.
abbrev wire : Cert → Bytes
wire c =
    (c.version ∷ [])
    ++ ((c.role_bits ∷ [])
        ++ (c.sig_pubkey
            ++ (c.kex_pubkey
                ++ (to_be_bytes 8 c.not_before
                    ++ (to_be_bytes 8 c.not_after
                        ++ (sized 2 c.name
                            ++ ((c.scope_count ∷ [])
                                ++ (c.scope_ids
                                    ++ ((c.ca_sig_count ∷ []) ++ (c.ca_sigs ++ []))))))))))

encode_cert-wire : (c : Cert) → encode_cert c ≡ wire c
unfolding encode_cert
encode_cert-wire c = simp (wire_laws, append_assoc, append-nil)

nonzero : (n : ℕ) → (n == 0) ≡ false → 1 ≤ n
nonzero n h = ground arith

zero_test : (n : ℕ) → 1 ≤ n → (n == 0) ≡ false
zero_test n h = ground arith

IsByte-count : (n : ℕ) → n ≤ 8 → IsByte n
IsByte-count n h = omega arith

cert-Sound : Sound [] cert Parsed
unfolding cert
cert-Sound = Sound-bind Reads-u8r [] _ Parsed λ version version_ok.
    Sound-bind Reads-u8r _ _ Parsed λ role_bits role_ok.
      Sound-bind (Reads-take len_pubkey) _ _ Parsed λ sig_pubkey sig_ok.
        Sound-bind (Reads-take len_pubkey) _ _ Parsed λ kex_pubkey kex_ok.
          Sound-bind Reads-u64be _ _ Parsed λ not_before before_ok.
            Sound-bind Reads-u64be _ _ Parsed λ not_after after_ok.
              Sound-bind (Reads-field16 max_name (omega arith)) _ _ Parsed λ name name_ok.
                Sound-bind Reads-u8r _ _ Parsed λ scope_count scope_byte.
                  Sound-refuse_if _ _ oversize _ Parsed λ scope_bound.
                    Sound-bind (Reads-take (scope_count * len_scope_id)) _ _ Parsed
                      λ scope_ids scopes_ok. Sound-since _ _ Parsed (
                        Sound-bind Reads-u8r _ _ Parsed λ ca_sig_count count_byte.
                          Sound-refuse_if _ _ malformed _ Parsed λ count_some.
                            Sound-refuse_if _ _ oversize _ Parsed λ count_bound.
                              Sound-ca_sigs ca_sig_count _ _ Parsed λ es count ascend.
                                Sound-expect_end _ _ Parsed (
                                  encode_cert-wire _ ∙ simp (append_assoc, append-nil),
                                  record {
                                    version = version_ok;
                                    role_bits = role_ok;
                                    sig_pubkey = sig_ok;
                                    kex_pubkey = kex_ok;
                                    not_before = before_ok;
                                    not_after = after_ok;
                                    name = name_ok;
                                    scope_count = ltb→le max_scope scope_count scope_bound;
                                    scope_ids = scopes_ok;
                                    some_sig = nonzero ca_sig_count count_some;
                                    few_sigs = ltb→le max_ca_sigs ca_sig_count count_bound;
                                    signers = es;
                                    signers_count = count;
                                    signers_ascend = ascend;
                                    signers_bytes = refl;
                                    signed = encode_cert-wire _ ∙ simp (append_assoc, append-nil);
                                  },
                                ))

-- What `parse_cert` accepts is, byte for byte, the encoding of what it returns, whose fields have
-- their lengths, whose CA keys strictly ascend, one to four of them, and whose `tbs` is all that
-- stands before their count.
pub parse_cert_sound :
    (buf : Bytes) (c : Cert)
    → All IsByte buf
    → parse_cert buf ≡ ok c
    → (encode_cert c ≡ buf) × IsCert c
unfolding parse_cert
parse_cert_sound buf c bytes h = run-sound cert Parsed buf c bytes cert-Sound h

module _ (c : Cert) (h : IsCert c) where
  tbs-prefix :
      (c.version ∷ [])
        ++ (c.role_bits ∷ [])
        ++ c.sig_pubkey
        ++ c.kex_pubkey
        ++ to_be_bytes 8 c.not_before
        ++ to_be_bytes 8 c.not_after
        ++ sized 2 c.name
        ++ (c.scope_count ∷ [])
        ++ c.scope_ids
      ≡ c.tbs
  tbs-prefix =
      append_cancel_right _ c.tbs (c.ca_sig_count ∷ c.ca_sigs)
        (sym (encode_cert-wire c ∙ simp (append_assoc, append-nil)) ∙ h.signed)

  -- The certificate with its signers in place of their bytes.
  abbrev signed_by : List CaSig → Cert
  signed_by es = record c { ca_sigs = ca_bytes es }

  cert-Runs : Runs [] cert (wire (signed_by h.signers)) (signed_by h.signers)
  unfolding cert
  cert-Runs = Runs-bind Reads-u8r [] _ c.version _ h.version (
      Runs-bind Reads-u8r _ _ c.role_bits _ h.role_bits (
        Runs-bind (Reads-take len_pubkey) _ _ c.sig_pubkey _ h.sig_pubkey (
          Runs-bind (Reads-take len_pubkey) _ _ c.kex_pubkey _ h.kex_pubkey (
            Runs-bind Reads-u64be _ _ c.not_before _ h.not_before (
              Runs-bind Reads-u64be _ _ c.not_after _ h.not_after (
                Runs-bind (Reads-field16 max_name (omega arith)) _ _ c.name _ h.name (
                  Runs-bind Reads-u8r _ _ c.scope_count _ (IsByte-count c.scope_count h.scope_count)
                    (Runs-refuse_if _ _ oversize _ (le→ltb max_scope c.scope_count h.scope_count) (
                      Runs-bind (Reads-take (c.scope_count * len_scope_id)) _ _ c.scope_ids _
                        h.scope_ids
                        (Runs-since _ _ _ (
                          Runs-bind Reads-u8r _ _ c.ca_sig_count _
                            (IsByte-count c.ca_sig_count (omega (arith, h.few_sigs)))
                            (Runs-refuse_if _ _ malformed _ (zero_test c.ca_sig_count h.some_sig) (
                              Runs-refuse_if _ _ oversize _
                                (le→ltb max_ca_sigs c.ca_sig_count h.few_sigs)
                                (Runs-ca_sigs c.ca_sig_count _ _ [] h.signers h.signers_count
                                  h.signers_ascend
                                  (Runs-expect_end _ (
                                    ap (λ t. record (signed_by h.signers) { tbs = t })
                                      tbs-prefix))))))))))))))))

  cert-Cut : Cut [] cert (wire (signed_by h.signers))
  unfolding cert
  cert-Cut = Cut-bind Reads-u8r [] _ c.version _ h.version (
      Cut-bind Reads-u8r _ _ c.role_bits _ h.role_bits (
        Cut-bind (Reads-take len_pubkey) _ _ c.sig_pubkey _ h.sig_pubkey (
          Cut-bind (Reads-take len_pubkey) _ _ c.kex_pubkey _ h.kex_pubkey (
            Cut-bind Reads-u64be _ _ c.not_before _ h.not_before (
              Cut-bind Reads-u64be _ _ c.not_after _ h.not_after (
                Cut-bind (Reads-field16 max_name (omega arith)) _ _ c.name _ h.name (
                  Cut-bind Reads-u8r _ _ c.scope_count _ (IsByte-count c.scope_count h.scope_count)
                    (Cut-refuse_if _ _ oversize _ (le→ltb max_scope c.scope_count h.scope_count) (
                      Cut-bind (Reads-take (c.scope_count * len_scope_id)) _ _ c.scope_ids _
                        h.scope_ids
                        (Cut-since _ _ _ (
                          Cut-bind Reads-u8r _ _ c.ca_sig_count _
                            (IsByte-count c.ca_sig_count (omega (arith, h.few_sigs)))
                            (Cut-refuse_if _ _ malformed _ (zero_test c.ca_sig_count h.some_sig) (
                              Cut-refuse_if _ _ oversize _
                                (le→ltb max_ca_sigs c.ca_sig_count h.few_sigs)
                                (Cut-ca_sigs c.ca_sig_count _ _ h.signers h.signers_count
                                  h.signers_ascend))))))))))))))

  by_signers : signed_by h.signers ≡ c
  by_signers = ap (λ t. record c { ca_sigs = t }) (sym h.signers_bytes)

-- The encoding of a well-formed certificate parses to it, and with any byte behind it the parser
-- refuses with `trailing_bytes`.
pub parse_cert-encode :
    (c : Cert) (more : Bytes)
    → IsCert c
    → parse_cert (encode_cert c ++ more) ≡ (if is_empty more then ok c else err trailing_bytes)
unfolding parse_cert
parse_cert-encode c more h = rw encode_cert-wire (
    subst (λ t. run cert (wire t ++ more) ≡ (if is_empty more then ok t else err trailing_bytes))
      (by_signers c h) (run-encode cert _ _ more (cert-Runs c h)))

-- Every proper prefix of the encoding of a well-formed certificate is refused as truncated.
pub parse_cert-truncated :
    (c : Cert) (front back : Bytes) (x : ℕ)
    → IsCert c
    → encode_cert c ≡ front ++ (x ∷ back)
    → parse_cert front ≡ err truncated
unfolding parse_cert
parse_cert-truncated c front back x h split =
    run-Cut cert _ front back x (cert-Cut c h)
      (ap wire (by_signers c h) ∙ sym (encode_cert-wire c) ∙ split)

-- The parser and the encoder are inverse: of bytes, `parse_cert` accepts the encodings of well-formed
-- certificates and nothing else, and returns the certificate that was encoded.
pub parse_cert_exact :
    (buf : Bytes) (c : Cert)
    → All IsByte buf
    → (parse_cert buf ≡ ok c) ↔ ((encode_cert c ≡ buf) × IsCert c)
unfolding is_empty
parse_cert_exact buf c bytes = (
  parse_cert_sound buf c bytes,
  λ (e, well). ap parse_cert (sym (append-nil (encode_cert c) ∙ e)) ∙ parse_cert-encode c [] well,
)
