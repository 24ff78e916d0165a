-- ===== src/Reassembly/Examples.antt =====
-- Fragments of src/transport/reassembly.rs: two of one message, and an eviction.
use bolina_rs.Prelude.{arith}
use bolina_rs.Reassembly.{PeerReassembler, new, ingest, evict_expired}
use bolina_rs.Reassembly.Accounts.{IsValid, start, arrives, evicts, Arrivals-new-IsValid}

abbrev first_part : PeerReassembler
first_part = (ingest 64 1000 7 0 2 500 (new 8)).0

abbrev second_part : PeerReassembler
second_part = (ingest 64 1010 7 1 2 400 first_part).0

Arrivals-new-IsValid_example : IsValid 8 (evict_expired 40000 second_part)
Arrivals-new-IsValid_example =
    Arrivals-new-IsValid 8 64 (evict_expired 40000 second_part) (omega arith)
      (evicts 40000 (arrives 1010 7 1 2 400 (arrives 1000 7 0 2 500 start)))
