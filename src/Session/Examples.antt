-- ===== src/Session/Examples.antt =====
-- Sessions of src/transport/session.rs with a cipher that only adds a tag.
use bolina_rs.Prelude.{
  ◌+◌, ◌-◌, ◌≡◌, ◌≢◌, refl, sym, ap, ◌∙◌, true, Option, some, [], ◌∷◌, ◌++◌, length, length-append,
  take, arith, ok,
}
use bolina_rs.Prelude.Lists.{take-append_left}
use bolina_rs.Prelude.Bytes.{Bytes, to_be_bytes}
use bolina_rs.Session.{
  Session, new_window, check, new_session, seal, open_packet, copy_into, cipher_seal, seal_with,
  seal_result, header_of,
}
use bolina_rs.Session.Window.{zero_again}
use bolina_rs.Session.Transport.{open_packet-seal, open_once}

abbrev tag : Bytes
tag = 0 ∷ 0 ∷ 0 ∷ 0 ∷ 0 ∷ 0 ∷ 0 ∷ 0 ∷ 0 ∷ 0 ∷ 0 ∷ 0 ∷ 0 ∷ 0 ∷ 0 ∷ 0 ∷ []

abbrev add_tag : Bytes → Bytes → Bytes → Bytes → Option Bytes
add_tag key nonce ad message = some (message ++ tag)

abbrev drop_tag : Bytes → Bytes → Bytes → Bytes → Option Bytes
drop_tag key nonce ad ct = some (take (length ct - 16) ct)

drop-add :
    (key nonce ad message ct : Bytes)
    → add_tag key nonce ad message ≡ some ct
    → drop_tag key nonce ad ct ≡ some message
drop-add key nonce ad message ct h =
    let e : message ++ tag ≡ ct = cc (h) in
    let count : length (message ++ tag) - 16 ≡ length message =
      omega (arith, length-append message tag) in
    rw (sym e) (ap some (ap (λ k. take k (message ++ tag)) count ∙ take-append_left message tag))

length-add :
    (key nonce ad message ct : Bytes)
    → add_tag key nonce ad message ≡ some ct
    → length ct ≡ length message + 16
length-add key nonce ad message ct h =
    let e : message ++ tag ≡ ct = cc (h) in rw (sym e) (length-append message tag)

-- A session that sent five packets, and its peer.
abbrev sender : Session
sender = record new_session { send = record { key = 1 ∷ []; counter = 5 }; in_use = true }

abbrev receiver : Session
receiver = record new_session { recv = record { key = 1 ∷ []; window = new_window }; in_use = true }

abbrev out : Bytes
out = tag ++ (tag ++ tag)

abbrev message : Bytes
message = 7 ∷ 8 ∷ 9 ∷ []

abbrev packet : Bytes
packet = take 35 (seal add_tag drop_tag out message sender).1

seal_ok : seal add_tag drop_tag out message sender ≡ (
  (seal add_tag drop_tag out message sender).0,
  (seal add_tag drop_tag out message sender).1,
  ok 35,
)
unfolding seal cipher_seal seal_with seal_result header_of to_be_bytes new_session
seal_ok = refl

same_key : receiver.recv.key ≡ sender.send.key
same_key = refl

five_fresh : (check 5 receiver.recv.window).1 ≡ true
unfolding check new_window
five_fresh = refl

sender_counter : sender.send.counter ≡ 5
sender_counter = refl

open_packet-seal_example : open_packet add_tag drop_tag packet 5 out receiver ≡ (
  record receiver { recv = record receiver.recv { window = (check 5 receiver.recv.window).0 } },
  copy_into 0 message out,
  ok 3,
)
open_packet-seal_example =
    open_packet-seal add_tag drop_tag drop-add length-add sender
      (seal add_tag drop_tag out message sender).0 receiver out message
      (seal add_tag drop_tag out message sender).1 out 35 seal_ok same_key (omega arith) five_fresh

opened : (open_packet add_tag drop_tag packet 5 out receiver).2 ≡ ok 3
opened =
    ap (λ x. x.2)
      (open_packet-seal add_tag drop_tag drop-add length-add sender
        (seal add_tag drop_tag out message sender).0 receiver out message
        (seal add_tag drop_tag out message sender).1 out 35 seal_ok same_key (omega arith)
        five_fresh)

blank : receiver.recv.window ≡ new_window
blank = refl

open_once_example :
    (open_packet add_tag drop_tag packet 5 out
      (open_packet add_tag drop_tag packet 6 out
        (open_packet add_tag drop_tag packet 5 out receiver).0).0).2
    ≢ ok 3
open_once_example =
    open_once add_tag drop_tag [] ((packet, 6, out) ∷ []) receiver packet out packet out 5 3 3 blank
      (omega arith) tt (omega arith, tt) opened

new_highest : new_window.highest ≡ 0
unfolding new_window
new_highest = refl

zero_again_example :
    ((check 0 new_window).1 ≡ true)
    × ((check 0 (check 0 new_window).0).1 ≡ true)
    × ((check 0 (check 1 (check 0 (check 0 new_window).0).0).0).1 ≡ true)
zero_again_example = zero_again new_window 1 new_highest (omega arith) (omega arith)
