-- ===== src/Schema.antt =====
-- common/schema: the columns of a flow, the message that collects them and the columnar batch.
-- Values follow proto.Column of ch-go, which is not under the repository: what it does to a column
-- is the parameter `ChGo`, with its documented effect as laws.
pub mod Keys
pub mod Columns
pub mod Message
pub mod Batch
