-- ===== src/Session.antt =====
-- src/transport/session.rs: transport sessions behind a handshake. The cipher ChaCha20-Poly1305 is a
-- parameter, and a buffer `out` is the list of its bytes, which comes back as the call leaves it. The
-- 64-bit mask of the window is the list of its bits, the lowest first.

pub mod Window
pub mod Transport
pub mod Slots
pub mod Examples
use bolina_rs.Prelude.{
  ℕ, zero, suc, ◌+◌, ◌-◌, ◌^◌, ◌%◌, Bool, true, false, ◌||◌, Option, none, some, List, [], ◌∷◌,
  ◌++◌, length, take, drop, set, ltb, leb, ◌==◌, if◌then◌else◌, Result, ok, err,
}
use bolina_rs.Prelude.Bytes.{Bytes, to_be_bytes}
use bolina_rs.Prelude.Bits.{Word, repeat, zero_word, shl, bit_or, meets, one_shl}
use bolina_rs.Prelude.Search.{get_elem?}

abbrev pub max_sessions : ℕ
max_sessions = 512

abbrev pub rekey_after_ms : ℕ
rekey_after_ms = 120000

abbrev pub rekey_after_messages : ℕ
rekey_after_messages = 2 ^ 48

abbrev pub header_size : ℕ
header_size = 16

abbrev pub msg_type_transport : ℕ
msg_type_transport = 4

pub data TransportError : Type 0 where
  rekey_required decrypt_failed replay slot_full out_of_range not_bound : TransportError

pub record ReplayWindow : Type 0 where
  pub highest : ℕ
  pub mask : Word

unfoldable pub new_window : ReplayWindow
unfolding zero_word
new_window = record { highest = 0; mask = zero_word }

-- `check` for a counter below `highest`.
unfoldable pub check_behind : ℕ → ReplayWindow → ReplayWindow × Bool
unfolding meets one_shl bit_or
check_behind behind w =
    if leb 64 behind
    then (w, false)
    else if meets w.mask (one_shl behind)
    then (w, false)
    else (record w { mask = bit_or w.mask (one_shl behind) }, true)

unfoldable pub check : ℕ → ReplayWindow → ReplayWindow × Bool
unfolding check_behind one_shl bit_or shl zero_word
check counter w =
    if w.highest == 0
    then (record { highest = counter; mask = one_shl 0 }, true)
    else if ltb w.highest counter
    then (
      record {
        highest = counter;
        mask =
            bit_or
              (if leb 64 (counter - w.highest) then zero_word else shl (counter - w.highest) w.mask)
              (one_shl 0);
      },
      true,
    )
    else if counter == w.highest
    then (w, false)
    else check_behind (w.highest - counter) w

pub record CipherState : Type 0 where
  pub key : Bytes
  pub counter : ℕ

pub record RecvState : Type 0 where
  pub key : Bytes
  pub window : ReplayWindow

pub record Session : Type 0 where
  pub local_index : ℕ
  pub peer_index : ℕ
  pub send : CipherState
  pub recv : RecvState
  pub handshake_hash : Bytes
  pub key_epoch_ms : ℕ
  pub bound : Bool
  pub in_use : Bool

unfoldable pub zero_key : Bytes
unfolding repeat
zero_key = repeat 32 0

-- `CipherState::new`, which `zero` goes back to, and the same for `RecvState`.
unfoldable pub new_cipher : CipherState
unfolding zero_key
new_cipher = record { key = zero_key; counter = 0 }

unfoldable pub new_recv : RecvState
unfolding zero_key new_window
new_recv = record { key = zero_key; window = new_window }

unfoldable pub new_session : Session
unfolding new_cipher new_recv zero_key
new_session = record {
  local_index = 0;
  peer_index = 0;
  send = new_cipher;
  recv = new_recv;
  handshake_hash = zero_key;
  key_epoch_ms = 0;
  bound = false;
  in_use = false;
}

-- The nonce of src/transport/noise.rs: four zero bytes and the counter.
unfoldable pub transport_nonce : ℕ → Bytes
transport_nonce counter = 0 ∷ 0 ∷ 0 ∷ 0 ∷ to_be_bytes 8 counter

-- `out[from..from + bytes.len()].copy_from_slice(bytes)`
abbrev pub copy_into : ℕ → Bytes → Bytes → Bytes
copy_into from bytes out = take from out ++ (bytes ++ drop (from + length bytes) out)

-- The cipher: key, nonce, associated data, and the message or the ciphertext.
module _ (encrypt decrypt : Bytes → Bytes → Bytes → Bytes → Option Bytes) where
  unfoldable seal_with :
      Option Bytes
      → ℕ
      → Bytes
      → CipherState
      → CipherState × Bytes × Result (Unit {0}) TransportError
  seal_with none from out c = (c, out, err decrypt_failed)
  seal_with (some ct) from out c =
      (record c { counter = c.counter + 1 }, copy_into from ct out, ok tt)

  -- `CipherState::seal` into `out[from..to]`.
  unfoldable pub cipher_seal :
      ℕ
      → ℕ
      → Bytes
      → Bytes
      → Bytes
      → CipherState
      → CipherState × Bytes × Result (Unit {0}) TransportError
  unfolding seal_with transport_nonce
  cipher_seal from to out plaintext ad c =
      if leb rekey_after_messages c.counter
      then (c, out, err rekey_required)
      else if ltb (to - from) (length plaintext + 16)
      then (c, out, err out_of_range)
      else seal_with (encrypt c.key (transport_nonce c.counter) ad plaintext) from out c

  unfoldable open_with :
      Option Bytes → ℕ → ℕ → Bytes → RecvState → RecvState × Bytes × Result ℕ TransportError
  unfolding check
  open_with none counter pt_len out r = (r, out, err decrypt_failed)
  open_with (some pt) counter pt_len out r =
      if (check counter r.window).1
      then (record r { window = (check counter r.window).0 }, copy_into 0 pt out, ok pt_len)
      else (record r { window = (check counter r.window).0 }, out, err replay)

  unfoldable pub recv_open :
      Bytes → Bytes → Bytes → ℕ → RecvState → RecvState × Bytes × Result ℕ TransportError
  unfolding open_with transport_nonce
  recv_open out ad ct counter r =
      if ltb (length ct) 16
      then (r, out, err decrypt_failed)
      else if ltb (length out) (length ct - 16)
      then (r, out, err out_of_range)
      else open_with (decrypt r.key (transport_nonce counter) ad ct) counter (length ct - 16) out r

  unfoldable pub header_of : Session → Bytes
  header_of s =
      msg_type_transport ∷ 0 ∷ 0 ∷ 0 ∷ (to_be_bytes 4 s.peer_index ++ to_be_bytes 8 s.send.counter)

  unfoldable seal_result :
      Bytes
      → ℕ
      → Session
      → CipherState × Bytes × Result (Unit {0}) TransportError
      → Session × Bytes × Result ℕ TransportError
  seal_result header total s (c, out, ok u) =
      (record s { send = c }, copy_into 0 header out, ok total)
  seal_result header total s (c, out, err e) = (record s { send = c }, out, err e)

  pub seal : Bytes → Bytes → Session → Session × Bytes × Result ℕ TransportError
  unfolding seal_result cipher_seal header_of
  seal out plaintext s =
      if ltb (length out) (header_size + length plaintext + 16)
      then (s, out, err out_of_range)
      else seal_result (header_of s) (header_size + length plaintext + 16) s (
          cipher_seal header_size (header_size + length plaintext + 16) out plaintext (header_of s)
            s.send)

  pub open_packet : Bytes → ℕ → Bytes → Session → Session × Bytes × Result ℕ TransportError
  unfolding recv_open
  open_packet packet hdr_counter out s =
      if ltb (length packet) header_size
      then (s, out, err out_of_range)
      else (let (r, out', res) =
            recv_open out (take header_size packet) (drop header_size packet) hdr_counter s.recv in
          (record s { recv = r }, out', res))

-- `none` where the sum overflows and the program panics (`overflow-checks = true`).
pub due_for_rekey : ℕ → Session → Option Bool
due_for_rekey now s =
    if leb rekey_after_messages s.send.counter
    then some true
    else if leb (2 ^ 64) (s.key_epoch_ms + rekey_after_ms)
    then none
    else some (leb (s.key_epoch_ms + rekey_after_ms) now)

pub rotate : Bytes → Bytes → Bytes → ℕ → Session → Session
unfolding new_window
rotate send_key recv_key hash now s = record s {
  send = record { key = send_key; counter = 0 };
  recv = record { key = recv_key; window = new_window };
  handshake_hash = hash;
  key_epoch_ms = now;
}

pub record SessionTable : Type 0 where
  pub slots : List Session

unfoldable pub new_table : SessionTable
unfolding repeat new_session
new_table = record { slots = repeat max_sessions new_session }

abbrev live_slot : Option Session → Option Session
live_slot none = none
live_slot (some s) = if s.in_use then some s else none

pub lookup : ℕ → SessionTable → Option Session
lookup i t = if leb max_sessions i then none else live_slot (get_elem? t.slots i)

unfoldable admitted : ℕ → ℕ → Bytes → Bytes → Bytes → ℕ → Session → Session
unfolding new_window
admitted i peer send_key recv_key hash now s = record {
  local_index = i;
  peer_index = peer;
  send = record { key = send_key; counter = 0 };
  recv = record { key = recv_key; window = new_window };
  handshake_hash = hash;
  key_epoch_ms = now;
  bound = false;
  in_use = true;
}

unfoldable admit_at :
    ℕ
    → ℕ
    → Bytes
    → Bytes
    → Bytes
    → ℕ
    → Option Session
    → SessionTable
    → SessionTable × Result (Unit {0}) TransportError
unfolding admitted
admit_at i peer send_key recv_key hash now none t = (t, err out_of_range)
admit_at i peer send_key recv_key hash now (some s) t =
    if s.in_use
    then (t, err slot_full)
    else (record { slots = set t.slots i (admitted i peer send_key recv_key hash now s) }, ok tt)

pub admit :
    ℕ
    → ℕ
    → Bytes
    → Bytes
    → Bytes
    → ℕ
    → SessionTable
    → SessionTable × Result (Unit {0}) TransportError
unfolding admit_at
admit i peer send_key recv_key hash now t =
    if leb max_sessions i
    then (t, err out_of_range)
    else admit_at i peer send_key recv_key hash now (get_elem? t.slots i) t

unfoldable released : Session → Session
unfolding new_cipher new_recv zero_key
released s = record s {
  send = new_cipher;
  recv = new_recv;
  handshake_hash = zero_key;
  bound = false;
  in_use = false;
}

unfoldable release_at : ℕ → Option Session → SessionTable → SessionTable
unfolding released
release_at i none t = t
release_at i (some s) t = record { slots = set t.slots i (released s) }

pub release : ℕ → SessionTable → SessionTable
unfolding release_at
release i t = if leb max_sessions i then t else release_at i (get_elem? t.slots i) t
