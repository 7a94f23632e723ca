-- ===== src/Adapters/Classify/Auth.antt =====
-- Auth failures against classes: what DoWithClassifiedRetry does with an error that IsAuthFailure
-- finds, once the one refresh has been spent, depends on its class.
use sylos_fs.Base.{true, false, some, ◌≡◌, Bool-cases, Option-cases, ◌≢◌, ◌↔◌, ◌⊎◌, inl, inr, arith}
use sylos_fs.Types.ErrorClass.{FsErrorBucket}
use sylos_fs.Adapters.Classify.{ApiError, GoogleError, FsError, is_auth_failure}
use sylos_fs.Adapters.Classify.Msgraph.{classify as classify_msgraph}
use sylos_fs.Adapters.Classify.Box.{classify as classify_box}
use sylos_fs.Adapters.Classify.Drive.{classify as classify_drive}
use sylos_fs.Adapters.Classify.Dropbox.{classify as classify_dropbox, is_write_contention_tag}

-- An auth failure of Graph or Box is classed as retryable, and one of Dropbox is never classed as
-- fatal.
pub auth_failure_classes :
    (err : FsError ApiError)
    → is_auth_failure (λ api. api.status) err ≡ true
    → ((classify_msgraph (some err)).bucket ≡ FsErrorBucket.retryable)
      × ((classify_box (some err)).bucket ≡ FsErrorBucket.retryable)
      × ((classify_dropbox (some err)).bucket ≢ FsErrorBucket.fatal)
unfolding classify_msgraph classify_box classify_dropbox is_auth_failure
auth_failure_classes err h = (ground arith, ground arith, ground arith)

-- An auth failure of Google Drive is classed as retryable.
pub auth_failure_class_drive :
    (err : FsError GoogleError)
    → is_auth_failure (λ e. e.code) err ≡ true
    → (classify_drive (some err)).bucket ≡ FsErrorBucket.retryable
unfolding classify_drive is_auth_failure
auth_failure_class_drive err h = ground arith

-- A Dropbox error is classed as retryable exactly if it asks for a refresh, or the API answered 401
-- without the tag of write contention.
pub dropbox-retryable_iff :
    (err : FsError ApiError)
    → ((classify_dropbox (some err)).bucket ≡ FsErrorBucket.retryable) ↔ (
        (err.needs_refresh ≡ true)
        ⊎ ((api : ApiError) × (err.api ≡ some api)
            × (api.status ≡ 401)
            × (is_write_contention_tag api.code ≡ false)))
unfolding classify_dropbox
dropbox-retryable_iff err = (
  λ h. elim (Bool-cases err.needs_refresh) [
    | inl refreshing ↦ inl refreshing
    | inr known ↦ elim (Option-cases err.api) [
      | inl none' ↦ absurd (ground arith)
      | inr (api, some') ↦ inr (api, some', ground arith, ground arith)
    ]
  ],
  λ h. elim h [ inl refreshing ↦ ground arith | inr (api, some', status, tag) ↦ ground arith ],
)
