-- ===== src/License.antt =====
-- The license analysis: SPDX expressions and the policy over them.
pub mod Spdx
pub mod Policy
mod Tests
