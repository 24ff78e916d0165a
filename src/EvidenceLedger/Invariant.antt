-- ===== src/EvidenceLedger/Invariant.antt =====
-- src/ledger_envelope.rs: what every call keeps, and what stays recorded.
use bolina_rs.Prelude.{
  ℕ, zero, suc, ◌-◌, ◌≤◌, ◌<◌, ◌≡◌, refl, Bool, true, false, Option, none, some, List, [], ◌∷◌,
  ◌++◌, length, length-append, take, set, leb, arith, ok, Bool-cases, Option-cases, inl, inr,
}
use bolina_rs.Prelude.Bytes.{Bytes, bytes_eq}
use bolina_rs.Prelude.Search.{any, find, NoClash, NoClash-push, get_elem?, find_index}
use bolina_rs.ReplayWindow.{check}
use bolina_rs.EvidenceLedger.{
  EnvelopeEntry, AnchorEntry, RevocationEntry, Ledger, max_envelopes, max_anchors, max_revocations,
  new, is_of, insert_scanned, insert_envelope, anchors_key, set_scanned, set_anchor, revokes_key,
  min_index, put_last, swap_remove, push_revocation, evict, revoke_scanned, set_revocation,
  SeqWindow, check_seq, seq_scanned, check_window, is_window_of, seeded, max_seq_windows,
}

module _ {A : Type 0} (p : A → Bool) where
  find-none : (xs : List A) → find p xs ≡ none → any p xs ≡ false
  unfolding find any
  find-none [] h = refl
  find-none (x ∷ xs) h = ground (arith, find-none xs)

  pub find-append : (xs ys : List A) (x : A) → find p xs ≡ some x → find p (xs ++ ys) ≡ some x
  unfolding find
  find-append [] ys x h = absurd (cc)
  find-append (y ∷ xs) ys x h = elim (Bool-cases (p y)) [
    | inl e ↦ rw e (rw e at h)
    | inr e ↦ rw e (find-append xs ys x (rw e at h))
  ]

  pub find-push :
      (xs : List A) (x : A) → find p xs ≡ none → p x ≡ true → find p (xs ++ x ∷ []) ≡ some x
  unfolding find
  find-push [] x h hit = rw hit refl
  find-push (y ∷ xs) x h hit = elim (Bool-cases (p y)) [
    | inl e ↦ absurd (ground (arith, e, h))
    | inr e ↦ rw e (find-push xs x (rw e at h) hit)
  ]

-- One envelope for a sender, a channel and a sequence number.
unfoldable pub same_identity : EnvelopeEntry → EnvelopeEntry → Bool
unfolding is_of
same_identity e f = is_of f.sender f.channel f.seq e

unfoldable pub same_key : AnchorEntry → AnchorEntry → Bool
unfolding anchors_key
same_key a b = anchors_key b.pubkey a

pub record IsValid (l : Ledger) : Type 0 where
  pub room : length l.envelopes ≤ max_envelopes
  pub unique : NoClash same_identity l.envelopes
  pub room_anchors : length l.anchors ≤ max_anchors
  pub unique_anchors : NoClash same_key l.anchors
  pub room_revocations : length l.revocations ≤ max_revocations

insert_scanned-IsValid :
    (o : Option EnvelopeEntry) (e : EnvelopeEntry) (l : Ledger)
    → find (is_of e.sender e.channel e.seq) l.envelopes ≡ o
    → IsValid l
    → IsValid (insert_scanned o e l).0
unfolding insert_scanned same_identity
insert_scanned-IsValid (some x) e l h v = elim (Bool-cases (bytes_eq x.hash e.hash)) [
  | inl k ↦ rw k v
  | inr k ↦ rw k v
]
insert_scanned-IsValid none e l h v = elim (Bool-cases (leb max_envelopes (length l.envelopes))) [
  | inl full ↦ rw full (record {
    room = v.room;
    unique = v.unique;
    room_anchors = v.room_anchors;
    unique_anchors = v.unique_anchors;
    room_revocations = v.room_revocations;
  })
  | inr room ↦ rw room (record {
    room = ground (arith, length-append l.envelopes (e ∷ []));
    unique = NoClash-push _ l.envelopes e v.unique (find-none _ l.envelopes h);
    room_anchors = v.room_anchors;
    unique_anchors = v.unique_anchors;
    room_revocations = v.room_revocations;
  })
]

insert_envelope-IsValid :
    (e : EnvelopeEntry) (l : Ledger) → IsValid l → IsValid (insert_envelope e l).0
unfolding insert_envelope
insert_envelope-IsValid e l v = insert_scanned-IsValid _ e l refl v

set_scanned-IsValid :
    (o : Option AnchorEntry) (pubkey hash : Bytes) (l : Ledger)
    → find (anchors_key pubkey) l.anchors ≡ o
    → IsValid l
    → IsValid (set_scanned o pubkey hash l).0
unfolding set_scanned same_key
set_scanned-IsValid (some a) pubkey hash l h v = elim (Bool-cases (bytes_eq a.hash hash)) [
  | inl k ↦ rw k v
  | inr k ↦ rw k v
]
set_scanned-IsValid none pubkey hash l h v =
    elim (Bool-cases (leb max_anchors (length l.anchors))) [
      | inl full ↦ rw full v
      | inr room ↦ rw room (record {
        room = v.room;
        unique = v.unique;
        room_anchors =
            ground (arith, length-append l.anchors (record { pubkey = pubkey; hash = hash } ∷ []));
        unique_anchors = NoClash-push _ l.anchors _ v.unique_anchors (find-none _ l.anchors h);
        room_revocations = v.room_revocations;
      })
    ]

set_anchor-IsValid :
    (pubkey hash : Bytes) (l : Ledger) → IsValid l → IsValid (set_anchor pubkey hash l).0
unfolding set_anchor
set_anchor-IsValid pubkey hash l v = set_scanned-IsValid _ pubkey hash l refl v

length-take_le : (n : ℕ) (rs : List RevocationEntry) → length (take n rs) ≤ n
length-take_le zero rs = omega arith
length-take_le (suc n) [] = omega arith
length-take_le (suc n) (r ∷ rs) = omega (arith, length-take_le n rs)

get_elem?-last :
    (rs : List RevocationEntry) (n : ℕ)
    → length rs ≡ suc n
    → (r : RevocationEntry) × (get_elem? rs n ≡ some r)
unfolding get_elem?
get_elem?-last [] n h = absurd (omega (arith, h))
get_elem?-last (r ∷ rs) zero h = (r, refl)
get_elem?-last (r ∷ rs) (suc n) h = get_elem?-last rs n (omega (arith, h))

-- One revocation fewer, where there is one.
length-swap_remove_le :
    (i : ℕ) (rs : List RevocationEntry) (n : ℕ) → length rs ≡ suc n → length (swap_remove i rs) ≤ n
unfolding swap_remove put_last
length-swap_remove_le i rs n h =
    let (r, at) = get_elem?-last rs n h in
    let before : length rs - 1 ≡ n = omega (arith, h) in
    rw (before, at, put_last, before) (length-take_le n (set rs i r))

room_for_revocation :
    (rs : List RevocationEntry) (r : RevocationEntry) (l : Ledger)
    → length rs < max_revocations
    → IsValid l
    → IsValid (push_revocation r rs l)
room_for_revocation rs r l room v = record {
  room = v.room;
  unique = v.unique;
  room_anchors = v.room_anchors;
  unique_anchors = v.unique_anchors;
  room_revocations = omega (arith, room, length-append rs (r ∷ []));
}

min_index-some : (rs : List RevocationEntry) → 0 < length rs → (i : ℕ) × (min_index rs ≡ some i)
unfolding min_index
min_index-some [] h = absurd (omega (arith, h))
min_index-some (r ∷ rs) h = (_, refl)

-- The revocation of a new key: at the cap another one is evicted.
pub revokes_new :
    (r : RevocationEntry) (l : Ledger)
    → length l.revocations ≤ max_revocations
    → (rs : List RevocationEntry) × (revoke_scanned none r l ≡ (push_revocation r rs l, ok tt))
      × (length rs < max_revocations)
unfolding revoke_scanned evict
revokes_new r l room = elim (Bool-cases (leb max_revocations (length l.revocations))) [
  | inr free ↦ (l.revocations, rw free refl, ground arith)
  | inl full ↦
      let many : length l.revocations ≡ 64 = ground arith in
      let (i, at) = min_index-some l.revocations (omega (arith, many)) in
      (
        swap_remove i l.revocations,
        rw (full, at) refl,
        omega (arith, length-swap_remove_le i l.revocations 63 many),
      )
]

revoke_scanned-IsValid :
    (o : Option RevocationEntry) (r : RevocationEntry) (l : Ledger)
    → IsValid l
    → IsValid (revoke_scanned o r l).0
unfolding revoke_scanned
revoke_scanned-IsValid (some x) r l v = elim (Bool-cases (bytes_eq x.revoke_hash r.revoke_hash)) [
  | inl k ↦ rw k v
  | inr k ↦ rw k v
]
revoke_scanned-IsValid none r l v =
    let (rs, e, room) = revokes_new r l v.room_revocations in
    rw e (room_for_revocation rs r l room v)

set_revocation-IsValid :
    (pubkey hash : Bytes) (expiry : ℕ) (l : Ledger)
    → IsValid l
    → IsValid (set_revocation pubkey hash expiry l).0
unfolding set_revocation
set_revocation-IsValid pubkey hash expiry l v =
    revoke_scanned-IsValid (find (revokes_key pubkey) l.revocations) _ l v

with_windows-IsValid :
    (ws : List SeqWindow) (l : Ledger) → IsValid l → IsValid (record l { seq_windows = ws })
with_windows-IsValid ws l v = record {
  room = v.room;
  unique = v.unique;
  room_anchors = v.room_anchors;
  unique_anchors = v.unique_anchors;
  room_revocations = v.room_revocations;
}

-- A call of `check_seq` changes nothing but the windows.
pub check_seq_windows :
    (sender channel : Bytes) (seq : ℕ) (l : Ledger)
    → (ws : List SeqWindow) × ((check_seq sender channel seq l).0 ≡ record l { seq_windows = ws })
unfolding check_seq seq_scanned check_window
check_seq_windows sender channel seq l =
    elim (Option-cases (find_index (is_window_of sender channel) l.seq_windows)) [
      | inl nowhere ↦ elim (Bool-cases (leb max_seq_windows (length l.seq_windows))) [
        | inl full ↦ (l.seq_windows, rw (nowhere, full) refl)
        | inr room ↦ (l.seq_windows ++ seeded sender channel seq ∷ [], rw (nowhere, room) refl)
      ]
      | inr (i, found) ↦ elim (Option-cases (get_elem? l.seq_windows i)) [
        | inl out ↦ (l.seq_windows, rw (found, out) refl)
        | inr (w, at) ↦ (
          set l.seq_windows i (record w { replay = (check seq w.replay).0 }),
          elim (Bool-cases (check seq w.replay).1) [
            | inl yes_seq ↦ rw (found, at, yes_seq) refl
            | inr no_seq ↦ rw (found, at, no_seq) refl
          ],
        )
      ]
    ]

check_seq-IsValid :
    (sender channel : Bytes) (seq : ℕ) (l : Ledger)
    → IsValid l
    → IsValid (check_seq sender channel seq l).0
check_seq-IsValid sender channel seq l v =
    let (ws, e) = check_seq_windows sender channel seq l in rw e (with_windows-IsValid ws l v)

-- One call of a method that changes what is recorded.
pub data Step : Ledger → Ledger → Type 0 where
  inserts : (e : EnvelopeEntry) {l : Ledger} → Step l (insert_envelope e l).0
  anchors : (pubkey hash : Bytes) {l : Ledger} → Step l (set_anchor pubkey hash l).0
  revokes :
      (pubkey hash : Bytes) (expiry : ℕ) {l : Ledger}
      → Step l (set_revocation pubkey hash expiry l).0
  checks :
      (sender channel : Bytes) (seq : ℕ) {l : Ledger} → Step l (check_seq sender channel seq l).0

pub data Reach (s : Ledger) : Ledger → Type 0 where
  here : Reach s s
  next : {t u : Ledger} → Reach s t → Step t u → Reach s u

pub Reach_trans : {s t u : Ledger} → Reach s t → Reach t u → Reach s u
Reach_trans r here = r
Reach_trans r (next r' st) = next (Reach_trans r r') st

Step-IsValid : {s t : Ledger} → Step s t → IsValid s → IsValid t
Step-IsValid (inserts e {l}) v = insert_envelope-IsValid e l v
Step-IsValid (anchors pubkey hash {l}) v = set_anchor-IsValid pubkey hash l v
Step-IsValid (revokes pubkey hash expiry {l}) v = set_revocation-IsValid pubkey hash expiry l v
Step-IsValid (checks sender channel seq {l}) v = check_seq-IsValid sender channel seq l v

Steps-IsValid : {s t : Ledger} → IsValid s → Reach s t → IsValid t
Steps-IsValid v here = v
Steps-IsValid v (next r st) = Step-IsValid st (Steps-IsValid v r)

-- Every ledger that calls of `insert_envelope`, `set_anchor`, `set_revocation` and `check_seq` reach
-- from the empty one keeps its three bounds, holds one envelope at most for a sender, a channel and a sequence
-- number, and one anchor at most for a key.
pub Reach_new-IsValid : (t : Ledger) → Reach new t → IsValid t
Reach_new-IsValid t r =
    Steps-IsValid
      (record {
        room = omega arith;
        unique = tt;
        room_anchors = omega arith;
        unique_anchors = tt;
        room_revocations = omega arith;
      })
      r
