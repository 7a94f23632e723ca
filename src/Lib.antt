-- ===== src/Lib.antt =====
-- Sylos-FS, verified: file-system adapters behind one interface, their retries and their manager.
--
-- The program gives a migration engine one adapter interface over local disks, Spectra and cloud
-- providers. Its parts and the files that model them:
--
--   * pkg/types: listings and the in-memory pager (Types/Listing, Types/Listing/Pager), logical paths
--     (Types/Locations), the classes of errors (Types/ErrorClass), the degradation state that all
--     operations of a session share (Types/Degradation), and the tracker that promotes ambiguous
--     errors to suspected throttles (Types/Ambiguous). local_classify_unix.go, which classes local
--     errors, is in Adapters/Errno.
--   * pkg/credentials: DoWithAuthRetry (Credentials/AuthRetry) and DoWithClassifiedRetry, each with a loop
--     of its own. Credentials/Retry has the configuration of both and the rounds of the second, up to the
--     classification; Credentials/ClassifiedRetry has the buckets. An adapter passes in its
--     classifier and hooks; the loop calls the tracker of pkg/types.
--   * pkg/cloud: the browse roots and their descriptors (Cloud/Browse), the access tokens (Cloud/Tokens).
--   * pkg/fs/manager.go, manager_cloud.go, manager_mutations.go: pages of listings (Manager/Pagination),
--     the pool of counted connections (Manager/Connections), adapters for a service and a root
--     (Manager/Acquire), the mutations while browsing (Manager/Mutations), the services
--     (Manager/Services), the list of sources (Manager/Sources), the listing of children
--     (Manager/Listing) and the storage information, for which manager_storage.go acquires adapters
--     (Manager/Storage). Acquisition and listing take the descriptors of pkg/cloud and the pool.
--     pkg/pathutil, which keeps local listings under a root, is in Manager/Containment.
--   * pkg/fs/msgraph, box, dropbox, googledrive: the classifiers (Adapters/Classify), the retry that
--     the calls of three of them run in (Adapters/Calls), and what a retried call answers and reads from
--     a pipe (Adapters/Calls/Results, Piped). pkg/fs/optimeout, which tries calls again, is in
--     Adapters/Timeouts.
--   * pkg/fs/local: the paths that are never listed (Adapters/LocalSafety).
--   * Uploads: Graph's writer (Adapters/GraphWriter). Dropbox's paths and ids of pending files
--     (Adapters/Dropbox/Paths), upload sessions (Sessions), batches (Batch) and writer (Streaming). Box's
--     uploads in parts and writer (Adapters/Box); its ids of pending files are in
--     Adapters/PendingFiles, with Graph's, which are parsed alike. The reader of an upload is in
--     Adapters/Streams.
--
-- Base has the shared helpers: Boolean tests, lists measured by native numbers, integers, maps with
-- text keys, answers with errors (Base/Results), and what the source uses of packages strings
-- (Base/Text), path (Base/Text/Paths) and strconv (Base/Text/Decimal). Tests has runs at concrete inputs.
--
-- Correspondence. A struct is a record and an interface or enumeration a data type, with the source's
-- names in lower case. A method that runs under a lock is a function from state to state, and
-- interleavings are lists of such steps. Errors are values: an Option where nil is success, or an error
-- type of the component. What a closure or a provider can see or change is a world W, and the calls of
-- providers, sessions, timers and clocks are functions on it that the theorems quantify over. Go's int
-- is an integer without bounds, except in applyPagination, where offset + limit is added as 64 bits.
-- Times and durations are numbers of nanoseconds.
--
-- Loops and fuel. DoWithClassifiedRetry and DoWithAuthRetry have their own bound, MaxIterations, which
-- is the fuel, and so has DoIf its number of attempts. Each round of Graph's flush takes one fragment
-- from the buffer, so the length of the buffer is enough fuel. Reading all pages is bounded by one more
-- round than there are children. The polling of a Dropbox batch has 1202 rounds, more than the seconds of
-- its deadline; an append to a Dropbox session takes a buffer in each round that goes on, so the length
-- of the stream and one is enough, and a round of Box sends a byte or more, so the declared size is
-- enough. All other loops are recursion on the data.
--
-- Not modelled: HTTP, JSON, cryptography and system calls; the manager's registration of
-- sessions; Windows paths; the SFTP, Spectra and local adapters; Google Drive's and Graph's adapter
-- operations. A writer's pipe is the bytes that have gone into it: that a Write waits for the upload is
-- not modelled.
pub mod Base
pub mod Types
pub mod Credentials
pub mod Cloud
pub mod Adapters
pub mod Manager
pub mod Tests
