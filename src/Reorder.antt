-- ===== src/Reorder.antt =====
-- src/reorder/mod.rs: the reordering of the articles of a page stream, and its restoration.
pub mod Pages
pub mod Keys
pub mod Signature
pub mod Novelty
pub mod Shuffle
pub mod Orders
