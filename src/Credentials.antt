-- ===== src/Credentials.antt =====
-- pkg/credentials: the retry middleware around adapter calls.
pub mod Retry
pub mod AuthRetry
pub mod ClassifiedRetry
