-- ===== src/Types.antt =====
-- pkg/types: the data model that adapters, the manager and the retry middleware share.
pub mod Listing
pub mod Locations
pub mod ErrorClass
pub mod Degradation
pub mod Ambiguous
