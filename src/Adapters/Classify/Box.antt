-- ===== src/Adapters/Classify/Box.antt =====
-- pkg/fs/box/classify.go: the classifier.
use sylos_fs.Base.{ℕ, pos, String, str_eq, Bool, ◌||◌, Option, none, some, ◌==◌, if◌then◌else◌}
use sylos_fs.Base.Text.{to_lower, trim_space}
use sylos_fs.Types.ErrorClass.{FsErrorBucket, FsErrorClassification}
use sylos_fs.Adapters.Classify.{ApiError, FsError, class_of, fatal_class}

abbrev pub code_of : ApiError → String
code_of api =
    let code = to_lower (trim_space api.code) in if str_eq code "" then "box_error" else code

abbrev pub is_server_status : ℕ → Bool
is_server_status s = s == 500 || (s == 502 || (s == 503 || s == 504))

abbrev pub by_api : ApiError → FsErrorClassification
by_api api =
    if api.status == 401
    then class_of FsErrorBucket.retryable (code_of api) (pos 0)
    else if api.status == 429
    then class_of FsErrorBucket.throttle (code_of api) (pos 0)
    else if is_server_status api.status
    then class_of FsErrorBucket.retryable (code_of api) (pos 0)
    else class_of FsErrorBucket.fatal (code_of api) (pos 0)

-- ClassifyBoxError
unfoldable pub classify : Option (FsError ApiError) → FsErrorClassification
classify none = fatal_class
classify (some err) =
    if err.needs_refresh
    then class_of FsErrorBucket.retryable "needs_refresh" (pos 0)
    else elim err.api [
      | none ↦ class_of FsErrorBucket.fatal "unknown" (pos 0)
      | some api ↦ by_api api
    ]
