-- ===== src/EvidenceLedger/Windows.antt =====
-- src/ledger_envelope.rs: the windows of sequence numbers, one for a sender and a channel.
use bolina_rs.Prelude.{
  ℕ, ◌≤◌, ◌≡◌, refl, sym, ap, ◌∙◌, Bool, true, false, Option, none, some, List, [], ◌∷◌, ◌++◌,
  length, length-append, set, leb, ◌==◌, if◌then◌else◌, arith, Result, ok, err, Bool-cases,
  Option-cases, inl, inr, All, ◌+◌,
}
use bolina_rs.Prelude.Lists.{All-append}
use bolina_rs.Prelude.Tests.{if_known, ==_iff}
use bolina_rs.Prelude.Bytes.{Bytes, bytes_eq_refl}
use bolina_rs.Prelude.Search.{
  get_elem?, find_index, find_index-none, find_index-append, find_index-set_like,
  find_index-append_left, get_elem?-append_left, get_elem?-append_last, get_elem?-set_other,
  get_elem?-set, All-elem, All-set, length-set,
}
use bolina_rs.ReplayWindow.{check}
use bolina_rs.ReplayWindow as Replay
use bolina_rs.ReplayWindow.Spec.{
  History, member, record_counter, accepts-first, accepts-member, member-accepts,
  member-record_counter,
}
use bolina_rs.ReplayWindow.Refinement.{Represents, new-Represents, check-Represents}
use bolina_rs.EvidenceLedger.{
  EnvelopeEntry, AnchorEntry, RevocationEntry, Ledger, LedgerError, SeqWindow, window_stale,
  seq_windows_full, max_seq_windows, new, insert_scanned, insert_envelope, set_scanned, set_anchor,
  evict, revoke_scanned, min_index, set_revocation, is_window_of, check_window, seeded, seq_scanned,
  check_seq,
}
use bolina_rs.EvidenceLedger.Invariant.{Step, inserts, anchors, revokes, checks, Reach, here, next}

abbrev Returned : Type 0
Returned = Ledger × Result (Unit {0}) LedgerError

-- What the other methods do to the windows: nothing.
insert_scanned-windows :
    (o : Option EnvelopeEntry) (e : EnvelopeEntry) (l : Ledger)
    → (insert_scanned o e l).0.seq_windows ≡ l.seq_windows
unfolding insert_scanned
insert_scanned-windows (some x) e l = ground arith
insert_scanned-windows none e l = ground arith

set_scanned-windows :
    (o : Option AnchorEntry) (pubkey hash : Bytes) (l : Ledger)
    → (set_scanned o pubkey hash l).0.seq_windows ≡ l.seq_windows
unfolding set_scanned
set_scanned-windows (some a) pubkey hash l = ground arith
set_scanned-windows none pubkey hash l = ground arith

evict-windows :
    (o : Option ℕ) (r : RevocationEntry) (l : Ledger) → (evict o r l).0.seq_windows ≡ l.seq_windows
unfolding evict
evict-windows none r l = refl
evict-windows (some i) r l = refl

revoke_scanned-windows :
    (o : Option RevocationEntry) (r : RevocationEntry) (l : Ledger)
    → (revoke_scanned o r l).0.seq_windows ≡ l.seq_windows
unfolding revoke_scanned
revoke_scanned-windows (some x) r l = ground arith
revoke_scanned-windows none r l = ground (arith, evict-windows (min_index l.revocations) r l)

-- What holds of the windows and what each call of `check_seq` keeps holds ever after.
module _ (P : List SeqWindow → Type 0)
    (keep : (sender channel : Bytes) (seq : ℕ) (l : Ledger)
      → P l.seq_windows
      → P (check_seq sender channel seq l).0.seq_windows) where
  Step-windows : {s t : Ledger} → Step s t → P s.seq_windows → P t.seq_windows
  unfolding insert_envelope set_anchor set_revocation
  Step-windows (inserts e {l}) v = rw (insert_scanned-windows _ e l) v
  Step-windows (anchors pubkey hash {l}) v = rw (set_scanned-windows _ pubkey hash l) v
  Step-windows (revokes pubkey hash expiry {l}) v = rw (revoke_scanned-windows _ _ l) v
  Step-windows (checks sender channel seq {l}) v = keep sender channel seq l v

  Reach-windows : {s t : Ledger} → Reach s t → P s.seq_windows → P t.seq_windows
  Reach-windows here v = v
  Reach-windows (next r st) v = Step-windows st (Reach-windows r v)

-- The cases of a call: no room for a new window, a new window, and a window that is asked.
module _ (sender channel : Bytes) (seq : ℕ) (l : Ledger) (P : Returned → Type 0)
    (full : find_index (is_window_of sender channel) l.seq_windows ≡ none
      → P (l, err seq_windows_full))
    (fresh : find_index (is_window_of sender channel) l.seq_windows ≡ none
      → length l.seq_windows + 1 ≤ max_seq_windows
      → P (record l { seq_windows = l.seq_windows ++ seeded sender channel seq ∷ [] }, ok tt))
    (asked : (i : ℕ) (w : SeqWindow) (accepted : Bool) (r : Result (Unit {0}) LedgerError)
      → find_index (is_window_of sender channel) l.seq_windows ≡ some i
      → get_elem? l.seq_windows i ≡ some w
      → (check seq w.replay).1 ≡ accepted
      → r ≡ (if accepted then ok tt else err window_stale)
      → P (
        record l {
          seq_windows = set l.seq_windows i (record w { replay = (check seq w.replay).0 });
        },
        r,
      ))
    (lost : (i : ℕ)
      → find_index (is_window_of sender channel) l.seq_windows ≡ some i
      → get_elem? l.seq_windows i ≡ none
      → P (l, err window_stale)) where
  check_seq-cases : P (check_seq sender channel seq l)
  unfolding check_seq seq_scanned check_window
  check_seq-cases = elim (Option-cases (find_index (is_window_of sender channel) l.seq_windows)) [
    | inl nowhere ↦ rw nowhere (
        if_known P (leb max_seq_windows (length l.seq_windows)) _ _ (λ _. full nowhere)
          (λ e. fresh nowhere (ground (arith, e))))
    | inr (i, found) ↦ elim (Option-cases (get_elem? l.seq_windows i)) [
      | inl out ↦ rw (found, out) (lost i found out)
      | inr (w, at) ↦
          rw (found, at)
            (if_known P (check seq w.replay).1 _ _ (λ e. asked i w true _ found at e refl)
              (λ e. asked i w false _ found at e refl))
    ]
  ]

-- The windows of a ledger: each stands for a history of sequence numbers, and there are at most 256.
IsTracked : SeqWindow → Type 0
IsTracked w = (h : History) × Represents w.replay h

record WindowsValid (ws : List SeqWindow) : Type 0 where
  room : length ws ≤ max_seq_windows
  tracked : All IsTracked ws

seeded-IsTracked : (sender channel : Bytes) (seq : ℕ) → IsTracked (seeded sender channel seq)
unfolding IsTracked seeded
seeded-IsTracked sender channel seq =
    (record_counter 1024 [] seq, (check-Represents seq Replay.new [] tt new-Represents).1)

check_seq-WindowsValid :
    (sender channel : Bytes) (seq : ℕ) (l : Ledger)
    → WindowsValid l.seq_windows
    → WindowsValid (check_seq sender channel seq l).0.seq_windows
unfolding IsTracked
check_seq-WindowsValid sender channel seq l v =
    check_seq-cases sender channel seq l (λ r. WindowsValid r.0.seq_windows) (λ _. v)
      (λ _ room. record {
        room = omega (arith, room, length-append l.seq_windows (seeded sender channel seq ∷ []));
        tracked =
            All-append IsTracked l.seq_windows (seeded sender channel seq ∷ []) v.tracked
              (seeded-IsTracked sender channel seq, tt);
      })
      (λ i w _ _ _ at _ _.
        let (h, rep) = All-elem IsTracked l.seq_windows i w v.tracked at in
        record {
          room = omega (
            arith,
            v.room,
            length-set l.seq_windows i (record w { replay = (check seq w.replay).0 }),
          );
          tracked =
              All-set IsTracked l.seq_windows i _
                (record_counter 1024 h seq, (check-Represents seq w.replay h tt rep).1) v.tracked;
        })
      (λ _ _ _. v)

-- A sequence number that a sender used on a channel.
record Seen (sender channel : Bytes) (seq : ℕ) (ws : List SeqWindow) : Type 0 where
  index : ℕ
  window : SeqWindow
  history : History
  found : find_index (is_window_of sender channel) ws ≡ some index
  at : get_elem? ws index ≡ some window
  represents : Represents window.replay history
  used : member seq history ≡ true

-- The window that a call asks is left in its place, and stands for one sequence number more at most.
asked-Seen :
    (sender channel : Bytes) (seq m i : ℕ) (w : SeqWindow) (ws : List SeqWindow)
    → get_elem? ws i ≡ some w
    → IsTracked w
    → Seen sender channel seq ws
    → Seen sender channel seq (set ws i (record w { replay = (check m w.replay).0 }))
unfolding is_window_of
asked-Seen sender channel seq m i w ws at rep seen =
    let w' : SeqWindow = record w { replay = (check m w.replay).0 } in
    let found : find_index (is_window_of sender channel) (set ws i w') ≡ some seen.index =
      find_index-set_like (is_window_of sender channel) ws i w w' at refl ∙ seen.found in
    elim (Bool-cases (i == seen.index)) [
      | inl here_i ↦
          let e : i ≡ seen.index = (==_iff i seen.index).0 here_i in
          let same : w ≡ seen.window = cc (at, seen.at, e) in
          let rep : Represents w.replay seen.history = rw same seen.represents in
          record {
            index = seen.index;
            window = w';
            history = record_counter 1024 seen.history m;
            found = found;
            at = rw (sym e) (get_elem?-set ws i w w' at);
            represents = (check-Represents m w.replay seen.history tt rep).1;
            used = member-record_counter 1024 seq m seen.history seen.used;
          }
      | inr other ↦ record {
        index = seen.index;
        window = seen.window;
        history = seen.history;
        found = found;
        at = get_elem?-set_other ws seen.index i w' other ∙ seen.at;
        represents = seen.represents;
        used = seen.used;
      }
    ]

check_seq-Seen :
    (s c : Bytes) (n : ℕ) (sender channel : Bytes) (m : ℕ) (l : Ledger)
    → WindowsValid l.seq_windows
    → Seen s c n l.seq_windows
    → Seen s c n (check_seq sender channel m l).0.seq_windows
check_seq-Seen s c n sender channel m l v seen =
    check_seq-cases sender channel m l (λ r. Seen s c n r.0.seq_windows) (λ _. seen)
      (λ _ _. record {
        index = seen.index;
        window = seen.window;
        history = seen.history;
        found = find_index-append_left (is_window_of s c) l.seq_windows _ seen.index seen.found;
        at = get_elem?-append_left l.seq_windows _ seen.index seen.window seen.at;
        represents = seen.represents;
        used = seen.used;
      })
      (λ i w _ _ _ at _ _.
        asked-Seen s c n m i w l.seq_windows at (All-elem IsTracked l.seq_windows i w v.tracked at)
          seen)
      (λ _ _ _. seen)

seeded-Seen :
    (s c : Bytes) (n : ℕ) (l : Ledger)
    → find_index (is_window_of s c) l.seq_windows ≡ none
    → Seen s c n (l.seq_windows ++ seeded s c n ∷ [])
unfolding is_window_of seeded
seeded-Seen s c n l nowhere =
    let (now, rep) = check-Represents n Replay.new [] tt new-Represents in
    record {
      index = length l.seq_windows;
      window = record { sender = s; channel = c; replay = (check n Replay.new).0 };
      history = record_counter 1024 [] n;
      found =
          find_index-append (is_window_of s c) l.seq_windows (seeded s c n)
            (find_index-none (is_window_of s c) l.seq_windows nowhere)
            (ground (arith, bytes_eq_refl s, bytes_eq_refl c));
      at = get_elem?-append_last l.seq_windows (seeded s c n);
      represents = rep;
      used = accepts-member 1024 n [] (accepts-first 1024 n);
    }

-- What a call that succeeds leaves behind, and what the next call for the same number answers.
accepted-Seen :
    (s c : Bytes) (n : ℕ) (l : Ledger)
    → WindowsValid l.seq_windows
    → (check_seq s c n l).1 ≡ ok tt
    → Seen s c n (check_seq s c n l).0.seq_windows
unfolding IsTracked is_window_of
accepted-Seen s c n l v =
    check_seq-cases s c n l (λ r. r.1 ≡ ok tt → Seen s c n r.0.seq_windows) (λ _ h. absurd (cc))
      (λ nowhere _ _. seeded-Seen s c n l nowhere)
      (λ i w b r found at says result h.
        let (history, rep) = All-elem IsTracked l.seq_windows i w v.tracked at in
        let w' : SeqWindow = record w { replay = (check n w.replay).0 } in
        let yes_b : b ≡ true = ground (arith, result, h) in
        let (now, rep') = check-Represents n w.replay history tt rep in
        record {
          index = i;
          window = w';
          history = record_counter 1024 history n;
          found = find_index-set_like (is_window_of s c) l.seq_windows i w w' at refl ∙ found;
          at = get_elem?-set l.seq_windows i w w' at;
          represents = rep';
          used = accepts-member 1024 n history (sym now ∙ says ∙ yes_b);
        })
      (λ _ _ _ h. absurd (cc))

Seen-refused :
    (s c : Bytes) (n : ℕ) (l : Ledger)
    → Seen s c n l.seq_windows
    → (check_seq s c n l).1 ≡ err window_stale
Seen-refused s c n l seen =
    check_seq-cases s c n l (λ r. r.1 ≡ err window_stale)
      (λ nowhere. absurd (cc (nowhere, seen.found)))
      (λ nowhere _. absurd (cc (nowhere, seen.found)))
      (λ i w b r found at says result.
        let same_i : i ≡ seen.index = cc (found, seen.found) in
        let same : w ≡ seen.window = cc (at, seen.at, same_i) in
        let (now, _) = check-Represents n seen.window.replay seen.history tt seen.represents in
        let no_b : b ≡ false =
          sym says
          ∙ ap (λ (x : SeqWindow). (check n x.replay).1) same
          ∙ now
          ∙ member-accepts 1024 n seen.history seen.used in
        ground (arith, result, no_b))
      (λ _ _ _. refl)

new-WindowsValid : WindowsValid new.seq_windows
new-WindowsValid = record { room = omega arith; tracked = tt }

-- From an empty ledger, whatever calls arrive in between: a sequence number that `check_seq` accepted
-- for a sender and a channel is refused as stale ever after.
pub check_seq_once :
    (s c : Bytes) (n : ℕ) (l t : Ledger)
    → Reach new l
    → (check_seq s c n l).1 ≡ ok tt
    → Reach (check_seq s c n l).0 t
    → (check_seq s c n t).1 ≡ err window_stale
check_seq_once s c n l t before accepted after =
    let v = Reach-windows WindowsValid check_seq-WindowsValid before new-WindowsValid in
    let (_, seen) =
      Reach-windows (λ ws. WindowsValid ws × Seen s c n ws)
        (λ s' c' m l both.
          (check_seq-WindowsValid s' c' m l both.0, check_seq-Seen s c n s' c' m l both.0 both.1))
        after (check_seq-WindowsValid s c n l v, accepted-Seen s c n l v accepted) in
    Seen-refused s c n t seen
