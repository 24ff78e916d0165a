-- ===== src/Codec.antt =====
-- src/codec.rs: the wire formats of the authenticated channel.
-- `Cursor` is the reader behind every parser, `Messages` the records, `Parse` and `Encode` the two
-- directions; the modules below `Cursor` and `RoundTrip` hold the proofs.
pub mod Limits
pub mod Cursor
pub mod Messages
pub mod Parse
pub mod Encode
pub mod RoundTrip
pub mod Examples
