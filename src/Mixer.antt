-- ===== src/Mixer.antt =====
-- src/mixer/mod.rs: the logistic curve, its inverse table, the mixer and the probability map.
pub mod Apm
pub mod Mix
pub mod Squash
pub mod Stretch
