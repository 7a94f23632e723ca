-- ===== src/Adapters/Classify/Dropbox.antt =====
-- pkg/fs/dropbox/classify.go: the classifier.
use sylos_fs.Base.{pos, String, str_eq, Bool, Option, none, some, ◌==◌, if◌then◌else◌}
use sylos_fs.Base.Text.{to_lower, trim_space, contains}
use sylos_fs.Types.ErrorClass.{FsErrorBucket, FsErrorClassification}
use sylos_fs.Adapters.Classify.{ApiError, FsError, class_of, fatal_class}

abbrev pub is_write_contention_tag : String → Bool
is_write_contention_tag tag = contains (to_lower (trim_space tag)) "too_many_write_operations"

abbrev pub or_fallback : String → String → String
or_fallback code fallback = if str_eq code "" then fallback else code

-- classifyDropboxAPIError
abbrev pub by_api : ApiError → FsErrorClassification
by_api api =
    if is_write_contention_tag api.code
    then class_of FsErrorBucket.throttle (or_fallback api.code "too_many_write_operations") (pos 0)
    else if api.status == 401
    then class_of FsErrorBucket.retryable (or_fallback api.code "unauthorized") (pos 0)
    else if api.status == 429
    then class_of FsErrorBucket.throttle (or_fallback api.code "too_many_requests") (pos 0)
    else class_of FsErrorBucket.fatal api.code (pos 0)

-- ClassifyDropboxError
unfoldable pub classify : Option (FsError ApiError) → FsErrorClassification
classify none = fatal_class
classify (some err) =
    if err.needs_refresh
    then class_of FsErrorBucket.retryable "needs_refresh" (pos 0)
    else elim err.api [
      | none ↦ class_of FsErrorBucket.fatal "unknown" (pos 0)
      | some api ↦ by_api api
    ]
