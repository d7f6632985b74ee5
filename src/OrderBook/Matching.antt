-- ===== src/OrderBook/Matching.antt =====
-- Matching in order_book/mod.rs, on a book over bare lists of entries: what a taker takes at one
-- level (Level), and over the levels of a side (Crossing).
pub mod Level
pub mod Crossing
pub mod Uncrossed
pub mod Resting
pub mod Keeps
pub mod Runs
