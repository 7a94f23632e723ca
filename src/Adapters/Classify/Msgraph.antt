-- ===== src/Adapters/Classify/Msgraph.antt =====
-- pkg/fs/msgraph/classify.go: the classifier.
use sylos_fs.Base.{ℕ, String, Bool, ◌||◌, Option, none, some, ◌==◌, if◌then◌else◌}
use sylos_fs.Base.Text.{to_lower, contains}
use sylos_fs.Types.ErrorClass.{FsErrorBucket, FsErrorClassification}
use sylos_fs.Adapters.Classify.{ApiError, FsError, class_of, fatal_class, retryable_class}

abbrev pub by_message : FsError ApiError → FsErrorClassification
by_message err =
    let msg = to_lower err.message in
    if contains msg "timeout" || (contains msg "temporary" || contains msg "connection reset")
    then retryable_class
    else fatal_class

abbrev pub throttle_code : String → Bool
throttle_code code = contains (to_lower code) "throttl" || contains (to_lower code) "activitylimit"

abbrev pub is_fatal_status : ℕ → Bool
is_fatal_status s = s == 404 || (s == 403 || (s == 409 || s == 400))

abbrev pub is_transient_status : ℕ → Bool
is_transient_status s = s == 408 || (s == 502 || s == 504)

abbrev pub by_api : FsError ApiError → ApiError → FsErrorClassification
by_api err api =
    if api.status == 401
    then retryable_class
    else if api.status == 429 || api.status == 503
    then class_of FsErrorBucket.throttle "" api.retry_after
    else if is_fatal_status api.status
    then fatal_class
    else if is_transient_status api.status
    then retryable_class
    else if throttle_code api.code
    then class_of FsErrorBucket.throttle "" api.retry_after
    else by_message err

-- ClassifyError; `none` is a nil error.
unfoldable pub classify : Option (FsError ApiError) → FsErrorClassification
classify none = fatal_class
classify (some err) =
    if err.needs_refresh
    then retryable_class
    else elim err.api [ none ↦ by_message err | some api ↦ by_api err api ]
