-- ===== src/Session/Transport.antt =====
-- src/transport/session.rs: what one end seals the other end opens, once. The cipher promises that it
-- opens what it sealed, and that a ciphertext is sixteen bytes longer than its message.
use bolina_rs.Prelude.{
  ℕ, ◌+◌, ◌-◌, ◌≤◌, ◌≡◌, ◌≢◌, ◌⊎◌, refl, sym, ap, ◌∙◌, true, false, Option, some, List, [], ◌∷◌,
  ◌++◌, append_assoc, length, length-append, take, drop, leb, ltb, arith, Result, ok, err,
  Bool-cases, Option-cases, inl, inr, All,
}
use bolina_rs.Prelude.Lists.{take-append_left, drop-append_left, length-take_le}
use bolina_rs.Prelude.Bytes.{Bytes, to_be_bytes, length-to_be_bytes}
use bolina_rs.ReplayWindow.Spec.{check_all}
use bolina_rs.Session.{
  ReplayWindow, Session, TransportError, new_window, check, transport_nonce, copy_into, seal_with,
  cipher_seal, open_with, recv_open, header_of, seal_result, seal, open_packet,
  rekey_after_messages,
}
use bolina_rs.Session.Window.{IsPositive, positive_once}

-- `take` and `drop` at the length of the first part.
take-append_at : (k : ℕ) (xs ys : Bytes) → length xs ≡ k → take k (xs ++ ys) ≡ xs
take-append_at k xs ys h = rw (sym h) (take-append_left xs ys)

drop-append_at : (k : ℕ) (xs ys : Bytes) → length xs ≡ k → drop k (xs ++ ys) ≡ ys
drop-append_at k xs ys h = rw (sym h) (drop-append_left xs ys)

module _ (encrypt decrypt : Bytes → Bytes → Bytes → Bytes → Option Bytes) where
  length-header_of : (s : Session) → length (header_of encrypt decrypt s) ≡ 16
  unfolding header_of
  length-header_of s = omega (
    arith,
    length-append (to_be_bytes 4 s.peer_index) (to_be_bytes 8 s.send.counter),
    length-to_be_bytes 4 s.peer_index,
    length-to_be_bytes 8 s.send.counter,
  )

  -- What a successful `seal` wrote, and how it left the session.
  record IsSealed (s s' : Session) (out plaintext out' : Bytes) (n : ℕ) : Type 0 where
    ciphertext : Bytes
    sealed :
        encrypt s.send.key (transport_nonce s.send.counter) (header_of encrypt decrypt s) plaintext
        ≡ some ciphertext
    written : out' ≡ copy_into 0 (header_of encrypt decrypt s) (copy_into 16 ciphertext out)
    size : n ≡ 16 + length plaintext + 16
    room : n ≤ length out
    counted : s' ≡ record s { send = record s.send { counter = s.send.counter + 1 } }

  seal-IsSealed :
      (s s' : Session) (out plaintext out' : Bytes) (n : ℕ)
      → seal encrypt decrypt out plaintext s ≡ (s', out', ok n)
      → IsSealed s s' out plaintext out' n
  unfolding seal cipher_seal seal_with seal_result
  seal-IsSealed s s' out plaintext out' n h =
      let header = header_of encrypt decrypt s in
      elim (Bool-cases (ltb (length out) (16 + length plaintext + 16))) [
        | inl short ↦ absurd (cc (rw short at h))
        | inr room ↦ elim (Bool-cases (leb rekey_after_messages s.send.counter)) [
          | inl spent ↦ absurd (cc (rw (room, spent) at h))
          | inr live ↦
              let fits : ltb (16 + length plaintext + 16 - 16) (length plaintext + 16) ≡ false =
                ground arith in
              elim (Option-cases
                (encrypt s.send.key (transport_nonce s.send.counter) header plaintext)) [
                  | inl failed ↦ absurd (cc (rw (room, live, fits, failed) at h))
                  | inr (ct, sealed) ↦
                      let e = rw (room, live, fits, sealed) at h in
                      let count : 16 + length plaintext + 16 ≡ n = cc (e) in
                      record {
                        ciphertext = ct;
                        sealed = sealed;
                        written = cc (e);
                        size = sym count;
                        room = ground (arith, room, count);
                        counted = cc (e);
                      }
                ]
        ]
      ]

  -- The packet in the buffer: the header and the ciphertext.
  packet_lem :
      (header ct out : Bytes) (n : ℕ)
      → length header ≡ 16
      → n ≡ 16 + length ct
      → n ≤ length out
      → take n (copy_into 0 header (copy_into 16 ct out)) ≡ header ++ ct
  packet_lem header ct out n size count room =
      let tail = drop (16 + length ct) out in
      let start : length (take 16 out) ≡ 16 = length-take_le 16 out (omega (arith, count, room)) in
      let behind : drop (0 + length header) (copy_into 16 ct out) ≡ ct ++ tail =
        (let k : 0 + length header ≡ 16 = omega (arith, size) in
          ap (λ k. drop k (copy_into 16 ct out)) k)
        ∙ drop-append_at 16 (take 16 out) (ct ++ tail) start in
      ap (λ t. take n (header ++ t)) behind
      ∙ ap (take n) (sym (append_assoc header ct tail))
      ∙ take-append_at n (header ++ ct) tail (omega (arith, length-append header ct, size, count))

  -- A packet of a header and a ciphertext, opened.
  open_parts :
      (header ct buf pt : Bytes) (c : ℕ) (r : Session)
      → length header ≡ 16
      → length ct ≡ length pt + 16
      → length pt ≤ length buf
      → decrypt r.recv.key (transport_nonce c) header ct ≡ some pt
      → (check c r.recv.window).1 ≡ true
      → open_packet encrypt decrypt (header ++ ct) c buf r ≡ (
        record r { recv = record r.recv { window = (check c r.recv.window).0 } },
        copy_into 0 pt buf,
        ok (length pt),
      )
  unfolding open_packet recv_open open_with
  open_parts header ct buf pt c r size longer room opened fresh =
      let long : ltb (length (header ++ ct)) 16 ≡ false =
        ground (arith, length-append header ct, size) in
      let tagged : ltb (length ct) 16 ≡ false = ground (arith, longer) in
      let fits : ltb (length buf) (length ct - 16) ≡ false = ground (arith, longer, room) in
      let count : length ct - 16 ≡ length pt = omega (arith, longer) in
      rw
        (
          long,
          take-append_at 16 header ct size,
          drop-append_at 16 header ct size,
          tagged,
          fits,
          opened,
          fresh,
          count,
        )
        refl

  module _
      (opens : (key nonce ad message ct : Bytes)
        → encrypt key nonce ad message ≡ some ct
        → decrypt key nonce ad ct ≡ some message)
      (sizes : (key nonce ad message ct : Bytes)
        → encrypt key nonce ad message ≡ some ct
        → length ct ≡ length message + 16) where
    -- What a session sealed, its peer with the same key opens under the counter of the header, into a
    -- buffer that is large enough, as long as its window takes the counter: the message is at the front
    -- of the buffer, its length is returned, and the window has the counter.
    pub open_packet-seal :
        (s s' r : Session) (out plaintext out' buf : Bytes) (n : ℕ)
        → seal encrypt decrypt out plaintext s ≡ (s', out', ok n)
        → r.recv.key ≡ s.send.key
        → length plaintext ≤ length buf
        → (check s.send.counter r.recv.window).1 ≡ true
        → open_packet encrypt decrypt (take n out') s.send.counter buf r ≡ (
          record r { recv = record r.recv { window = (check s.send.counter r.recv.window).0 } },
          copy_into 0 plaintext buf,
          ok (length plaintext),
        )
    open_packet-seal s s' r out plaintext out' buf n h same room fresh =
        let v = seal-IsSealed s s' out plaintext out' n h in
        let longer =
          sizes s.send.key (transport_nonce s.send.counter) (header_of encrypt decrypt s) plaintext
            v.ciphertext v.sealed in
        let opened =
          opens s.send.key (transport_nonce s.send.counter) (header_of encrypt decrypt s) plaintext
            v.ciphertext v.sealed in
        let packet : take n out' ≡ header_of encrypt decrypt s ++ v.ciphertext =
          ap (take n) v.written
          ∙ packet_lem (header_of encrypt decrypt s) v.ciphertext out n (length-header_of s)
              (omega (arith, v.size, longer)) v.room in
        ap (λ p. open_packet encrypt decrypt p s.send.counter buf r) packet
        ∙ open_parts (header_of encrypt decrypt s) v.ciphertext buf plaintext s.send.counter r
            (length-header_of s) longer room (rw same opened) fresh

  -- Packets arrive, each with its counter and the buffer it is opened into.
  abbrev pub open_all : List (Bytes × ℕ × Bytes) → Session → Session
  open_all [] r = r
  open_all ((packet, c, buf) ∷ arrivals) r =
      open_all arrivals (open_packet encrypt decrypt packet c buf r).0

  -- What an opening did to the window: it was asked for the counter or left as it was, and it was
  -- asked and took the counter if the opening succeeded.
  data WindowStep (c : ℕ) (w : ReplayWindow) : ReplayWindow → Result ℕ TransportError → Type 0 where
    left : {e : TransportError} → WindowStep c w w (err e)
    refused : {e : TransportError} → WindowStep c w (check c w).0 (err e)
    taken : {m : ℕ} → (check c w).1 ≡ true → WindowStep c w (check c w).0 (ok m)

  open_packet-WindowStep :
      (packet : Bytes) (c : ℕ) (buf : Bytes) (r : Session)
      → WindowStep c r.recv.window
          (open_packet encrypt decrypt packet c buf r).0.recv.window
          (open_packet encrypt decrypt packet c buf r).2
  unfolding open_packet recv_open open_with
  open_packet-WindowStep packet c buf r = elim (Bool-cases (ltb (length packet) 16)) [
    | inl short ↦ rw short left
    | inr long ↦ elim (Bool-cases (ltb (length (drop 16 packet)) 16)) [
      | inl untagged ↦ rw (long, untagged) left
      | inr tagged ↦ elim (Bool-cases (ltb (length buf) (length (drop 16 packet) - 16))) [
        | inl small ↦ rw (long, tagged, small) left
        | inr fits ↦
            elim (Option-cases
              (decrypt r.recv.key (transport_nonce c) (take 16 packet) (drop 16 packet))) [
                | inl failed ↦ rw (long, tagged, fits, failed) left
                | inr (pt, opened) ↦ elim (Bool-cases (check c r.recv.window).1) [
                  | inl fresh ↦ rw (long, tagged, fits, opened, fresh) (taken fresh)
                  | inr old ↦ rw (long, tagged, fits, opened, old) refused
                ]
              ]
      ]
    ]
  ]

  asked_or_left :
      (c : ℕ) (w w' : ReplayWindow) (res : Result ℕ TransportError)
      → WindowStep c w w' res
      → (w' ≡ w) ⊎ (w' ≡ (check c w).0)
  asked_or_left c w w' res left = inl refl
  asked_or_left c w w' res refused = inr refl
  asked_or_left c w w' res (taken fresh) = inr refl

  taken_fresh :
      (c : ℕ) (w w' : ReplayWindow) (res : Result ℕ TransportError)
      → WindowStep c w w' res
      → (m : ℕ) → res ≡ ok m
      → ((check c w).1 ≡ true) × (w' ≡ (check c w).0)
  taken_fresh c w w' res left m h = absurd (cc (h))
  taken_fresh c w w' res refused m h = absurd (cc (h))
  taken_fresh c w w' res (taken fresh) m h = (fresh, refl)

  -- The counters that the window was asked for.
  open_all-asked :
      (arrivals : List (Bytes × ℕ × Bytes)) (r : Session)
      → All (λ a. IsPositive a.1) arrivals
      → (cs : List ℕ) × All IsPositive cs
        × ((open_all arrivals r).recv.window ≡ (check_all check cs r.recv.window).0)
  open_all-asked [] r pos = ([], tt, refl)
  open_all-asked ((packet, c, buf) ∷ arrivals) r pos =
      let (cs, all, e) =
        open_all-asked arrivals (open_packet encrypt decrypt packet c buf r).0 pos.1 in
      elim (asked_or_left c r.recv.window _ _ (open_packet-WindowStep packet c buf r)) [
        | inl same ↦ (cs, all, e ∙ ap (λ w. (check_all check cs w).0) same)
        | inr asked ↦ (c ∷ cs, (pos.0, all), e ∙ ap (λ w. (check_all check cs w).0) asked)
      ]

  -- In a session whose window was new, under a positive counter one packet at most is opened, whatever
  -- packets with positive counters arrive before, in between and behind, and whatever the cipher does.
  pub open_once :
      (before after : List (Bytes × ℕ × Bytes)) (r : Session) (packet buf packet' buf' : Bytes)
      (c m m' : ℕ)
      → r.recv.window ≡ new_window
      → IsPositive c
      → All (λ a. IsPositive a.1) before
      → All (λ a. IsPositive a.1) after
      → (open_packet encrypt decrypt packet c buf (open_all before r)).2 ≡ ok m
      → (open_packet encrypt decrypt packet' c buf'
          (open_all after (open_packet encrypt decrypt packet c buf (open_all before r)).0)).2
        ≢ ok m'
  open_once before after r packet buf packet' buf' c m m' blank pos pb pa first again =
      let r1 = open_all before r in
      let r2 = (open_packet encrypt decrypt packet c buf r1).0 in
      let r3 = open_all after r2 in
      let (cs, all, e) = open_all-asked before r pb in
      let w1 : r1.recv.window ≡ (check_all check cs new_window).0 =
        e ∙ ap (λ w. (check_all check cs w).0) blank in
      let (fresh, e2) =
        taken_fresh c r1.recv.window _ _ (open_packet-WindowStep packet c buf r1) m first in
      let (cs', all', e3) = open_all-asked after r2 pa in
      let (fresh', _) =
        taken_fresh c r3.recv.window _ _ (open_packet-WindowStep packet' c buf' r3) m' again in
      let stale = positive_once c cs cs' pos all all' (rw (sym w1) fresh) in
      let w3 : r3.recv.window
          ≡ (check_all check cs' (check c (check_all check cs new_window).0).0).0 =
        e3 ∙ ap (λ w. (check_all check cs' w).0) (e2 ∙ ap (λ w. (check c w).0) w1) in
      let fresh_again = ap (λ w. (check c w).1) (sym w3) ∙ fresh' in
      absurd (cc (stale, fresh_again))
