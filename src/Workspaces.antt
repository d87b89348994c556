-- ===== src/Workspaces.antt =====
-- Risk workspaces and their settings: core/workspaces/.
pub mod LicenseProfile
pub mod PolicyVersion
pub mod Models
pub mod Ownership
pub mod Invitations
pub mod Members
pub mod Administration
pub mod Service
mod Tests
