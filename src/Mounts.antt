-- ===== src/Mounts.antt =====
-- The mounts of a risk workspace: core/mounts/.
pub mod Alias
pub mod Models
pub mod Plans
mod Tests
