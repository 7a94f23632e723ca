-- ===== src/Adapters/Classify.antt =====
-- classify.go of pkg/fs/msgraph, box, dropbox and googledrive. An error is what the classifiers ask of
-- it: whether errors.Is finds ErrNeedsRefresh, the API error that errors.As finds, and its text.
pub mod Msgraph
pub mod Box
pub mod Dropbox
pub mod Drive
pub mod Auth
use sylos_fs.Base.{
  ℕ, ◌+◌, ◌*◌, ℤ, pos, negsuc, String, str_eq, List, [], ◌∷◌, Bool, true, false, ◌&&◌, ◌||◌, Option,
  none, some, ◌==◌, if◌then◌else◌,
}
use sylos_fs.Base.Text.{to_lower, trim_space, contains}
use sylos_fs.Types.ErrorClass.{FsErrorBucket, FsErrorClassification}
use sylos_fs.Types.Degradation.{second}

-- Graph's and Box's APIError, and Dropbox's with the tag that dropboxErrorCode finds as its code.
pub record ApiError : Type 0 where
  pub status : ℕ
  pub code : String
  pub retry_after : ℤ

-- googleapi.Error. The header's value is absent if it is empty, and else what Atoi and
-- ParseDuration make of it.
pub record GoogleError : Type 0 where
  pub code : ℕ
  pub message : String
  pub reasons : List String
  pub header : Option (Option ℤ × Option ℤ)

pub record FsError (A : Type 0) : Type 0 where
  pub needs_refresh : Bool
  pub api : Option A
  pub message : String

abbrev pub class_of : FsErrorBucket → String → ℤ → FsErrorClassification
class_of bucket code retry_after = record {
  bucket = bucket;
  error_code = code;
  retry_after = retry_after;
}

-- The classes without a code or a wait.
abbrev pub fatal_class : FsErrorClassification
fatal_class = class_of FsErrorBucket.fatal "" (pos 0)

abbrev pub retryable_class : FsErrorClassification
retryable_class = class_of FsErrorBucket.retryable "" (pos 0)

-- IsAuthFailure of msgraph, and in the same words the field of the other three configurations; the
-- argument reads the status of an API error.
unfoldable pub is_auth_failure : {A : Type 0} → (A → ℕ) → FsError A → Bool
is_auth_failure status err =
    err.needs_refresh || elim err.api [ none ↦ false | some api ↦ status api == 401 ]
