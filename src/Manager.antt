-- ===== src/Manager.antt =====
-- pkg/fs: the service manager.
pub mod Pagination
pub mod Connections
pub mod Acquire
pub mod Mutations
pub mod Services
pub mod Sources
pub mod Containment
pub mod Listing
pub mod Storage
