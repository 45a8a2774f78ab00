-- ===== src/Frame.antt =====
-- frame.rs: the layout of a mux frame and its codec.
-- `Types` has the types, `Codec` the functions; the other children prove what they are named for.
pub mod CloseCode
pub mod Types
pub mod Codec
pub mod Bytes
pub mod Header
pub mod RoundTrip
pub mod Stream
pub mod Payloads
