-- ===== src/Context.antt =====
-- src/context/mod.rs: the parts of the model that are modelled: the match model and the context tables.
pub mod Hash
pub mod Match
pub mod Table
