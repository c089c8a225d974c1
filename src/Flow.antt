-- ===== src/Flow.antt =====
-- outlet/flow: a raw flow is decoded into flow messages, and the callback `finalize` of the caller ends
-- each of them.
pub mod Stream
pub mod Fill
pub mod Sflow
pub mod Netflow
pub mod Decode
