-- ===== src/Adapters/Dropbox.antt =====
-- pkg/fs/dropbox: the upload sessions and the batches of the adapter.
pub mod Paths
pub mod Sessions
pub mod Batch
pub mod Streaming
use sylos_fs.Base.{ℕ, ◌*◌}

-- uploadSessionChunk of client.go
abbrev pub upload_session_chunk : ℕ
upload_session_chunk = 16 * 1024 * 1024
