-- ===== src/Archive.antt =====
-- src/archive.rs: the container.
pub mod Coder
pub mod Method
pub mod Pipeline
pub mod Header
pub mod Sfx
