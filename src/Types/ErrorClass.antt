-- ===== src/Types/ErrorClass.antt =====
-- pkg/types/errorclass.go: the two-axis decision for one error episode.
use sylos_fs.Base.{ℤ, String, Bool, true, false}

pub data FsErrorBucket : Type 0 where
  fatal throttle ambiguous retryable : FsErrorBucket

pub record FsErrorClassification : Type 0 where
  pub bucket : FsErrorBucket
  pub error_code : String
  pub retry_after : ℤ

abbrev pub is_retryable : FsErrorClassification → Bool
is_retryable c = elim c.bucket [
  | FsErrorBucket.throttle ↦ true
  | FsErrorBucket.ambiguous ↦ true
  | FsErrorBucket.retryable ↦ true
  | _ ↦ false
]

abbrev pub inflate_throttle_backoff : FsErrorClassification → Bool
inflate_throttle_backoff c = elim c.bucket [ FsErrorBucket.throttle ↦ true | _ ↦ false ]
