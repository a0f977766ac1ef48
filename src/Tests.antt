-- ===== src/Tests.antt =====
-- Concrete runs, and the theorems at concrete inputs.
mod Coding
mod Transforms
mod Tokens
mod Container
mod Reordering
mod Pipeline
mod Models
mod Grammars
