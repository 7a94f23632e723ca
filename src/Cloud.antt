-- ===== src/Cloud.antt =====
-- pkg/cloud: the descriptors of browse roots.
pub mod Browse
pub mod Tokens
