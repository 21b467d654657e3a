-- ===== src/Algos.antt =====
-- The algorithms on automata (vcsn/algos).
pub mod Evaluate
pub mod Accessible
pub mod Checks
pub mod Complement
