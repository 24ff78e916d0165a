-- ===== src/EvidenceLedger/Records.antt =====
-- src/ledger_envelope.rs: an envelope or an anchor that is recorded stays, and answers later calls.
use bolina_rs.Prelude.{
  ℕ, ◌≤◌, ◌≡◌, ◌≢◌, refl, sym, ap, ◌∙◌, Bool, true, false, Option, none, some, List, [], ◌∷◌, ◌++◌,
  length, length-append, leb, arith, Result, ok, err, Bool-cases, inl, inr,
}
use bolina_rs.Prelude.Tests.{if_known}
use bolina_rs.Prelude.Bytes.{Bytes, bytes_eq, bytes_eq_iff, bytes_eq_refl}
use bolina_rs.Prelude.Search.{any, find, any-append}
use bolina_rs.EvidenceLedger.{
  EnvelopeEntry, AnchorEntry, RevocationEntry, Ledger, LedgerError, divergence, max_envelopes,
  max_anchors, max_revocations, is_of, find_envelope, insert_scanned, insert_envelope, anchors_key,
  set_scanned, set_anchor, revokes_key, min_index, evict, revoke_scanned, set_revocation,
  is_revoked,
}
use bolina_rs.EvidenceLedger.Invariant.{
  find-append, find-push, IsValid, Step, inserts, anchors, revokes, Reach, here, next, revokes_new,
  checks, check_seq_windows,
}

abbrev Returned : Type 0
Returned = Ledger × Result (Unit {0}) LedgerError

-- What an append keeps of the envelopes, and of the anchors.
module _ (P : List EnvelopeEntry → Type 0)
    (push : (es : List EnvelopeEntry) (e : EnvelopeEntry) → P es → P (es ++ e ∷ [])) where
  insert_scanned-keeps :
      (o : Option EnvelopeEntry) (e : EnvelopeEntry) (l : Ledger)
      → P l.envelopes
      → P (insert_scanned o e l).0.envelopes
  unfolding insert_scanned
  insert_scanned-keeps (some x) e l v =
      if_known (λ (r : Returned). P r.0.envelopes) (bytes_eq x.hash e.hash) _ _ (λ _. v) (λ _. v)
  insert_scanned-keeps none e l v =
      if_known (λ (r : Returned). P r.0.envelopes) (leb max_envelopes (length l.envelopes)) _ _
        (λ _. v) (λ _. push l.envelopes e v)

  set_scanned-keeps :
      (o : Option AnchorEntry) (pubkey hash : Bytes) (l : Ledger)
      → P l.envelopes
      → P (set_scanned o pubkey hash l).0.envelopes
  unfolding set_scanned
  set_scanned-keeps (some a) pubkey hash l v =
      if_known (λ (r : Returned). P r.0.envelopes) (bytes_eq a.hash hash) _ _ (λ _. v) (λ _. v)
  set_scanned-keeps none pubkey hash l v =
      if_known (λ (r : Returned). P r.0.envelopes) (leb max_anchors (length l.anchors)) _ _ (λ _. v)
        (λ _. v)

  evict-keeps :
      (o : Option ℕ) (r : RevocationEntry) (l : Ledger)
      → P l.envelopes
      → P (evict o r l).0.envelopes
  unfolding evict
  evict-keeps none r l v = v
  evict-keeps (some i) r l v = v

  revoke_scanned-keeps :
      (o : Option RevocationEntry) (r : RevocationEntry) (l : Ledger)
      → P l.envelopes
      → P (revoke_scanned o r l).0.envelopes
  unfolding revoke_scanned
  revoke_scanned-keeps (some x) r l v =
      if_known (λ (r : Returned). P r.0.envelopes) (bytes_eq x.revoke_hash r.revoke_hash) _ _
        (λ _. v) (λ _. v)
  revoke_scanned-keeps none r l v =
      if_known (λ (r : Returned). P r.0.envelopes) (leb max_revocations (length l.revocations)) _ _
        (λ _. evict-keeps (min_index l.revocations) r l v) (λ _. v)

  Step-keeps : {s t : Ledger} → Step s t → P s.envelopes → P t.envelopes
  unfolding insert_envelope set_anchor set_revocation
  Step-keeps (inserts e {l}) v =
      insert_scanned-keeps (find (is_of e.sender e.channel e.seq) l.envelopes) e l v
  Step-keeps (anchors pubkey hash {l}) v =
      set_scanned-keeps (find (anchors_key pubkey) l.anchors) pubkey hash l v
  Step-keeps (revokes pubkey hash expiry {l}) v =
      revoke_scanned-keeps (find (revokes_key pubkey) l.revocations) _ l v
  Step-keeps (checks sender channel seq {l}) v =
      let (ws, e) = check_seq_windows sender channel seq l in rw e v

  Reach-keeps : {s t : Ledger} → Reach s t → P s.envelopes → P t.envelopes
  Reach-keeps here v = v
  Reach-keeps (next r st) v = Step-keeps st (Reach-keeps r v)

record Found (e : EnvelopeEntry) (es : List EnvelopeEntry) : Type 0 where
  entry : EnvelopeEntry
  at : find (is_of e.sender e.channel e.seq) es ≡ some entry
  same_hash : entry.hash ≡ e.hash

insert_scanned-Found :
    (o : Option EnvelopeEntry) (e : EnvelopeEntry) (l l' : Ledger)
    → find (is_of e.sender e.channel e.seq) l.envelopes ≡ o
    → insert_scanned o e l ≡ (l', ok tt)
    → Found e l'.envelopes
unfolding insert_scanned is_of
insert_scanned-Found (some x) e l l' h ok_h = elim (Bool-cases (bytes_eq x.hash e.hash)) [
  | inl k ↦
      let same : l ≡ l' = ap (λ (r : Returned). r.0) (rw k at ok_h) in
      record {
        entry = x;
        at = sym (ap (λ (l : Ledger). find (is_of e.sender e.channel e.seq) l.envelopes) same) ∙ h;
        same_hash = (bytes_eq_iff x.hash e.hash).0 k;
      }
  | inr k ↦ absurd (ground (arith, k, ap (λ (r : Returned). r.1) ok_h))
]
insert_scanned-Found none e l l' h ok_h =
    elim (Bool-cases (leb max_envelopes (length l.envelopes))) [
      | inl full ↦ absurd (ground (arith, full, ap (λ (r : Returned). r.1) ok_h))
      | inr room ↦
          let same : l.envelopes ++ e ∷ [] ≡ l'.envelopes =
            ap (λ (r : Returned). r.0.envelopes) (rw room at ok_h) in
          record {
            entry = e;
            at = rw (sym same) (
                find-push (is_of e.sender e.channel e.seq) l.envelopes e h
                  (ground (arith, bytes_eq_refl e.sender, bytes_eq_refl e.channel)));
            same_hash = refl;
          }
    ]

insert_found :
    (x e : EnvelopeEntry) (l : Ledger)
    → ((x.hash ≡ e.hash) → insert_scanned (some x) e l ≡ (l, ok tt))
      × ((x.hash ≢ e.hash) → insert_scanned (some x) e l ≡ (l, err divergence))
unfolding insert_scanned
insert_found x e l = (
  λ same. let k : bytes_eq x.hash e.hash ≡ true = (bytes_eq_iff x.hash e.hash).1 same in rw k refl,
  λ other. elim (Bool-cases (bytes_eq x.hash e.hash)) [
    | inl k ↦ absurd (other ((bytes_eq_iff x.hash e.hash).0 k))
    | inr k ↦ rw k refl
  ],
)

-- An envelope that was accepted stays: after any calls its hash is found under its sender, channel
-- and sequence number, inserting it again returns `ok` and changes nothing, even in a full store, and
-- inserting another hash under them is refused as a divergence and changes nothing.
pub insert_envelope_forever :
    (e : EnvelopeEntry) (l l' t : Ledger) (other : Bytes)
    → insert_envelope e l ≡ (l', ok tt)
    → Reach l' t
    → other ≢ e.hash
    → (find_envelope e.sender e.channel e.seq t ≡ some e.hash)
      × (insert_envelope e t ≡ (t, ok tt))
      × (insert_envelope (record e { hash = other }) t ≡ (t, err divergence))
unfolding insert_envelope find_envelope
insert_envelope_forever e l l' t other accepted r differs =
    let found : Found e l'.envelopes =
      insert_scanned-Found (find (is_of e.sender e.channel e.seq) l.envelopes) e l l' refl
        accepted in
    let at : find (is_of e.sender e.channel e.seq) t.envelopes ≡ some found.entry =
      Reach-keeps (λ es. find (is_of e.sender e.channel e.seq) es ≡ some found.entry)
        (λ es n h. find-append (is_of e.sender e.channel e.seq) es (n ∷ []) found.entry h) r
        found.at in
    (
      rw at (ap some found.same_hash),
      rw at ((insert_found found.entry e t).0 found.same_hash),
      rw at (
          (insert_found found.entry (record e { hash = other }) t).1
            (λ same. differs (sym same ∙ found.same_hash))),
    )

pub insert_envelope_found :
    (e : EnvelopeEntry) (l l' : Ledger)
    → insert_envelope e l ≡ (l', ok tt)
    → find_envelope e.sender e.channel e.seq l' ≡ some e.hash
unfolding insert_envelope find_envelope
insert_envelope_found e l l' accepted =
    let found : Found e l'.envelopes =
      insert_scanned-Found (find (is_of e.sender e.channel e.seq) l.envelopes) e l l' refl
        accepted in
    rw found.at (ap some found.same_hash)

any-find :
    (p : RevocationEntry → Bool) (rs : List RevocationEntry) → any p rs ≡ false → find p rs ≡ none
unfolding any find
any-find p [] h = refl
any-find p (r ∷ rs) h = ground (arith, any-find p rs)

-- The revocation of a key that is not revoked always succeeds in a ledger within its bounds, at the
-- cap by an eviction, and never returns `revocations_full`: the key is revoked then, and the number of
-- revocations is still within its bound.
pub set_revocation_admits :
    (pubkey hash : Bytes) (expiry : ℕ) (l : Ledger)
    → IsValid l
    → is_revoked pubkey l ≡ false
    → ((set_revocation pubkey hash expiry l).1 ≡ ok tt)
      × (is_revoked pubkey (set_revocation pubkey hash expiry l).0 ≡ true)
      × (length (set_revocation pubkey hash expiry l).0.revocations ≤ max_revocations)
unfolding set_revocation is_revoked revokes_key any
set_revocation_admits pubkey hash expiry l v new =
    let r : RevocationEntry = record {
      pubkey = pubkey;
      revoke_hash = hash;
      cert_expiry_ms = expiry;
    } in
    let missing : find (revokes_key pubkey) l.revocations ≡ none =
      any-find (revokes_key pubkey) l.revocations new in
    let (rs, e, room) = revokes_new r l v.room_revocations in
    rw (missing, e)
      (
        refl,
        any-append (revokes_key pubkey) rs (r ∷ []) ∙ ground (arith, bytes_eq_refl pubkey),
        omega (arith, room, length-append rs (r ∷ [])),
      )
