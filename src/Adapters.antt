-- ===== src/Adapters.antt =====
-- pkg/fs/msgraph, box, dropbox, googledrive and the local errors of pkg/types: how the adapters turn
-- errors into classes, and the retry that they run their calls in.
pub mod Classify
pub mod Calls
pub mod Errno
pub mod GraphWriter
pub mod Timeouts
pub mod Streams
pub mod Dropbox
pub mod PendingFiles
pub mod Box
pub mod LocalSafety
