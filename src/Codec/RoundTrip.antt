-- ===== src/Codec/RoundTrip.antt =====
-- The parsers of src/codec.rs against its encoders: a module for each message.
mod Lengths
mod CaSigs
pub mod Certs
pub mod Envelopes
pub mod Intents
pub mod Grants
pub mod Refusals
pub mod Spans
