-- ===== src/Adapters/Classify/Drive.antt =====
-- pkg/fs/googledrive/classify.go: the classifier.
use sylos_fs.Base.{
  ℕ, ◌*◌, ℤ, pos, negsuc, String, str_eq, List, [], ◌∷◌, Bool, true, false, ◌||◌, Option, none,
  some, ◌==◌, if◌then◌else◌,
}
use sylos_fs.Base.Text.{to_lower, contains}
use sylos_fs.Types.ErrorClass.{FsErrorBucket, FsErrorClassification}
use sylos_fs.Types.Degradation.{second}
use sylos_fs.Adapters.Classify.{GoogleError, FsError, class_of, fatal_class, retryable_class}

abbrev pub is_throttle_reason : String → Bool
is_throttle_reason r =
    str_eq r "userRateLimitExceeded"
    || (str_eq r "rateLimitExceeded"
        || (str_eq r "sharingRateLimitExceeded" || str_eq r "quotaExceeded"))

abbrev pub any_throttle_reason : List String → Bool
any_throttle_reason [] = false
any_throttle_reason (r ∷ rs) = is_throttle_reason r || any_throttle_reason rs

abbrev pub says_rate_limit : GoogleError → Bool
says_rate_limit e = contains (to_lower e.message) "rate limit"

-- googleAPIThrottleReason
abbrev pub throttle_reason : GoogleError → Bool
throttle_reason e =
    if e.code == 429
    then true
    else if e.code == 403
    then any_throttle_reason e.reasons || says_rate_limit e
    else false

abbrev pub positive : Option ℤ → Option ℕ
positive none = none
positive (some (pos n)) = if n == 0 then none else some n
positive (some (negsuc n)) = none

-- headerRetryAfter
abbrev pub header_retry_after : GoogleError → ℤ
header_retry_after e = elim e.header [
  | none ↦ pos 0
  | some (seconds, duration) ↦ elim (positive seconds) [
    | some n ↦ pos (n * second)
    | none ↦ elim (positive duration) [ some d ↦ pos d | none ↦ pos 0 ]
  ]
]

abbrev pub throttle_class : GoogleError → FsErrorClassification
throttle_class e = class_of FsErrorBucket.throttle "" (header_retry_after e)

abbrev pub by_message : FsError GoogleError → FsErrorClassification
by_message err =
    let msg = to_lower err.message in
    if contains msg "timeout" || contains msg "temporary" then retryable_class else fatal_class

abbrev pub is_transient_status : ℕ → Bool
is_transient_status s = s == 408 || (s == 502 || (s == 503 || s == 504))

abbrev pub by_api : FsError GoogleError → GoogleError → FsErrorClassification
by_api err e =
    if e.code == 401
    then retryable_class
    else if e.code == 429
    then throttle_class e
    else if e.code == 403
    then (if throttle_reason e then throttle_class e else fatal_class)
    else if e.code == 404
    then fatal_class
    else if is_transient_status e.code
    then retryable_class
    else if says_rate_limit e
    then throttle_class e
    else by_message err

-- ClassifyGoogleDriveError
unfoldable pub classify : Option (FsError GoogleError) → FsErrorClassification
classify none = fatal_class
classify (some err) =
    if err.needs_refresh
    then retryable_class
    else elim err.api [ none ↦ by_message err | some e ↦ by_api err e ]
