-- ===== src/Ingestion.antt =====
-- The parts that take in the node's files: server/src/listeners/order_book/ingestion.rs, the queues
-- of utils.rs and the limits of mod.rs.
pub mod Limits
pub mod Batches
pub mod DirtyFiles
pub mod Cursor
pub mod Scoped
pub mod Retired
