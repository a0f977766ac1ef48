-- ===== src/Transform.antt =====
-- src/transform/mod.rs: the reversible byte transforms.
pub mod Case
pub mod Hoist
pub mod IdList
pub mod Stem
pub mod WordMap
pub mod Words
pub mod Wordwise
