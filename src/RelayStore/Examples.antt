-- ===== src/RelayStore/Examples.antt =====
-- A packet in the store of src/transport/relay_store.rs, and the theorems on it.
use bolina_rs.Prelude.{◌+◌, ◌≡◌, ◌<◌, ◌≤◌, [], ◌∷◌, ok, arith}
use bolina_rs.RelayStore.{
  Store, new, repeat, empty_packet, purge_expired, usage, store, drain_next, max_stored,
  max_per_recipient, max_bytes_per_recipient,
}
use bolina_rs.RelayStore.Invariant.{
  IsValid, Stored, here, next, stores, drains, Calls_new-IsValid, store_accepts,
}

abbrev one_packet : Store
one_packet = (store (1 ∷ []) 7 (5 ∷ 6 ∷ []) 100 new).0

Calls_new-IsValid_example : IsValid (drain_next (1 ∷ []) 200 one_packet).0
Calls_new-IsValid_example =
    Calls_new-IsValid (drain_next (1 ∷ []) 200 one_packet).0
      (next (next here (stores (1 ∷ []) 7 (5 ∷ 6 ∷ []) 100)) (drains (1 ∷ []) 200))

new-IsValid : IsValid new
new-IsValid = Calls_new-IsValid new here

new_room : (purge_expired 100 new).0.count < max_stored
unfolding purge_expired new
new_room = omega arith

new_few : (usage (1 ∷ []) (purge_expired 100 new).0.packets).0 < max_per_recipient
unfolding purge_expired new repeat empty_packet usage
new_few = omega arith

new_few_bytes : (usage (1 ∷ []) (purge_expired 100 new).0.packets).1 + 2 ≤ max_bytes_per_recipient
unfolding purge_expired new repeat empty_packet usage
new_few_bytes = omega arith

store_accepts_example :
    ((store (1 ∷ []) 7 (5 ∷ 6 ∷ []) 100 new).1 ≡ ok tt)
    × Stored
        (1 ∷ [])
        7
        (5 ∷ 6 ∷ [])
        100
        (purge_expired 100 new).0
        (store (1 ∷ []) 7 (5 ∷ 6 ∷ []) 100 new).0
store_accepts_example =
    store_accepts (1 ∷ []) 7 (5 ∷ 6 ∷ []) 100 new new-IsValid (omega arith) new_room new_few
      new_few_bytes
