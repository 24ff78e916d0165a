-- ===== src/Lib.antt =====
-- Bolina: an authenticated channel in which agents ask for actions (intents), approvers grant or
-- refuse them, and executors perform each granted action once.
--
-- Parts and files
--   Codec         src/codec.rs: the wire formats of the six signed messages. `Cursor` is the reader
--                 (`Cursor`, `need`, `u8r` to `field32`), `Messages` the structures, `Parse` the
--                 functions `parse_*`, `Encode` the functions `encode_*`, `Limits` the constants.
--                 A slice is the list of its bytes. `tbs`, the bytes that a signature covers, is
--                 what the parser cuts out of its buffer.
--   Intent        src/state/intent.rs: the table of pending and executing intents, with `admit`,
--                 `match_for_grant`, `begin_executing`, `apply_refusal`, `expire_timeouts` and
--                 `compact`. A method returns the new table beside its result.
--   GrantLedger   src/state/ledger.rs: the durable ledger of consumed and published grants, revoked
--                 keys and first receipts. `Disk` is the log file: its bytes, the bytes known to be
--                 on disk, and the position of the handle. `Log` has the records, the maps and the
--                 replay of `recover`; the methods stand in `GrantLedger` itself.
--   EvidenceLedger  src/ledger_envelope.rs: the hashes of accepted envelopes, the anchors and the
--                 revocations in memory, with `insert_envelope`, `check_seq`, `set_anchor`,
--                 `set_revocation` and the queries. `check_seq` asks a window of `ReplayWindow`.
--   ReplayWindow  src/transport/replay.rs: the bitmap of 1024 counters, `check` and `shift_left`.
--                 `Spec` says what a window promises; `Session` uses it for its own window too.
--   Session       src/transport/session.rs: `ReplayWindow` (the mask of 64 counters), `CipherState`,
--                 `RecvState`, `Session` and `SessionTable`, with `transport_nonce` of
--                 src/transport/noise.rs.
--   Verify        src/transport/verify.rs and `verify_signed` of src/codec.rs: `verify_grant_then`
--                 with the checks 0 to 11 in their order, scopes; `Control` has refusals, control
--                 messages, bodies by role and served certificates, `Admission` the admission of
--                 envelopes to `EvidenceLedger`.
--   Binding       src/transport/binding.rs: the chain of a certificate, and `bind_session`.
--   Resolver      src/transport/resolver.rs: `Grammar` has `validate_canonical`; the set of entries
--                 and aliases, `resolve`, `serialize` and `resolve_and_admit`, which admits to
--                 `Intent`.
--   Dispatch      src/transport/dispatch.rs: the router, over `Codec`, `Resolver`, `Intent` and
--                 `Verify`.
--   RelayStore    src/transport/relay_store.rs: the store of packets that wait at a relay, with
--                 `store`, `drain_next`, `purge_expired` and `reset`.
--   Reassembly    src/transport/reassembly.rs: the accounts of fragmented messages, `ingest` and
--                 `evict_expired` of a peer, and the capacity of a node.
--   Dag           src/transport/dag.rs: the causal graph over hashes, with `insert`, `is_ancestor` and
--                 `supersedes`.
--   Prelude       lists, bytes, words of bits, tests, `Result`, maps and searches that the parts share.
-- In the program `Dispatch` parses an envelope with `Codec`, verifies its signature, and routes it: an
-- intent is resolved and admitted to the table and its sender recorded; a grant passes the checks of
-- `Verify`, whose last is a hook that commits it to the ledger, and is executed; a refusal releases the
-- intent. `GrantLedger` is what the hook commits to.
--
-- How the program is rendered
--   Numbers are natural numbers, and casts of lengths to `u16` and `u32` are written out. The release
--   profile has `overflow-checks = true`: a sum that does not fit in its width stops the program with a
--   panic. Where the inputs can bring that about the model has a value for it: the error `stopped` of
--   `Verify`, the event `stopped` of `Reassembly`, and `none` for `expire_timeouts`, `due_for_rekey` and
--   `within_memory`. The counters of events (`inserts_total`, `refused_quota`), which would take 2^64
--   calls to overflow, are sums without a bound; `wrapping_sub` and `saturating_add` are written out.
--
--   A `HashMap` is a list of entries whose order stands for the unspecified order of iteration. An
--   outcome of a system call is an argument: `Io` for a write and its sync, `PruneIo` for the rewriting
--   of the log, Booleans for opening and reading. A write that fails may leave any front of its bytes.
--   The loops of `parse_cert` and `recover` are structural, over the count and over the buffer, so
--   no fuel is needed. Allocation does not fail, and the temporary file of a pruning is known only
--   by the outcome of its calls.
--
--   The hash BLAKE2s-256, the verification of Ed25519 signatures and the cipher ChaCha20-Poly1305 are
--   parameters; what the cipher promises is a hypothesis of the theorem that uses it. The hooks of a
--   caller are parameters too, those with effects as functions on a value of any type `W`. The loop of
--   `scope_covers_resource` has as much fuel as the resource has bytes, and one more; each turn drops
--   one byte at least. The search of `Dag` has one turn more than there are nodes, and each turn takes
--   a node from the queue that no other turn does. A word of 64 bits is the list of its bits. An array
--   with its count is the list of what is counted.
--
-- Not modelled: the handshake and the Noise patterns, the synchronisation and the relay protocol, the
-- parser of HTTP, the control interface, and all input and output of the daemon; of the dispatcher the
-- seams of the durable ledger and of the events, which do nothing.
pub mod Prelude
pub mod Codec
pub mod Intent
pub mod GrantLedger
pub mod ReplayWindow
pub mod EvidenceLedger
pub mod RelayStore
pub mod Session
pub mod Verify
pub mod Binding
pub mod Resolver
pub mod Dispatch
pub mod Reassembly
pub mod Dag
