-- ===== src/Security.antt =====
-- The security gate: what of a file may leave for analysis.
pub mod Minimization
mod Tests
