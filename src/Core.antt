-- ===== src/Core.antt =====
-- outlet/core: what the outlet does with a decoded flow before it goes to ClickHouse. A text is the
-- list of its bytes.
pub mod Info
pub mod Sources
pub mod Classify
pub mod Services
pub mod Learn
pub mod Fill
pub mod Enrich
pub mod Rate
pub mod Worker
