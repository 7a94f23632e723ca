-- ===== src/Adapters/Errno.antt =====
-- pkg/types/local_classify_unix.go: errors of local paths. An error is what the classifier can ask of
-- it: whether errors.Is finds ErrPathBlocked, the errno that it wraps, if that is one of those named,
-- and what os.IsNotExist and os.IsPermission say of it. syscall's Errno.Is, which errors.Is calls, also
-- matches errnos against os errors only, so an errno is found under its own name alone.
pub mod Codes
use sylos_fs.Base.{String, pos, Bool, true, false, ◌||◌, Option, none, some, if◌then◌else◌}
use sylos_fs.Types.ErrorClass.{FsErrorBucket, FsErrorClassification}
use sylos_fs.Adapters.Classify.{class_of, fatal_class}

pub data Errno : Type 0 where
  eacces eperm enoent eio eagain ebusy emfile enfile enomem enotdir eisdir enametoolong eloop enospc
        edquot efbig erofs exdev einval enotsup etimedout eintr :
      Errno

pub record LocalError : Type 0 where
  pub path_blocked : Bool
  pub errno : Option Errno
  pub is_not_exist : Bool
  pub is_permission : Bool

abbrev pub load_errno : Errno → Bool
load_errno e = elim e [
  | Errno.eagain ↦ true
  | Errno.ebusy ↦ true
  | Errno.eio ↦ true
  | Errno.emfile ↦ true
  | Errno.enfile ↦ true
  | Errno.enomem ↦ true
  | _ ↦ false
]

-- isLocalLoadErrno
unfoldable pub is_local_load_errno : LocalError → Bool
is_local_load_errno err = elim err.errno [ none ↦ false | some e ↦ load_errno e ]

abbrev pub fatal_errno : Errno → Bool
fatal_errno e = elim e [
  | Errno.eacces ↦ true
  | Errno.eperm ↦ true
  | Errno.enoent ↦ true
  | Errno.enotdir ↦ true
  | Errno.eisdir ↦ true
  | Errno.enametoolong ↦ true
  | Errno.eloop ↦ true
  | Errno.enospc ↦ true
  | Errno.edquot ↦ true
  | Errno.efbig ↦ true
  | Errno.erofs ↦ true
  | Errno.exdev ↦ true
  | Errno.einval ↦ true
  | Errno.enotsup ↦ true
  | _ ↦ false
]

-- isLocalFatalErrno
unfoldable pub is_local_fatal_errno : LocalError → Bool
is_local_fatal_errno err =
    elim err.errno [ none ↦ false | some e ↦ fatal_errno e ]
    || (err.is_not_exist || err.is_permission)

abbrev pub errno_code : Errno → String
errno_code e = elim e [
  | Errno.eacces ↦ "EACCES"
  | Errno.eperm ↦ "EPERM"
  | Errno.enoent ↦ "ENOENT"
  | Errno.eio ↦ "EIO"
  | Errno.eagain ↦ "EAGAIN"
  | Errno.ebusy ↦ "EBUSY"
  | Errno.emfile ↦ "EMFILE"
  | Errno.enfile ↦ "ENFILE"
  | Errno.enomem ↦ "ENOMEM"
  | Errno.enotdir ↦ "ENOTDIR"
  | Errno.eisdir ↦ "EISDIR"
  | Errno.enametoolong ↦ "ENAMETOOLONG"
  | Errno.eloop ↦ "ELOOP"
  | Errno.enospc ↦ "ENOSPC"
  | Errno.edquot ↦ "EDQUOT"
  | Errno.efbig ↦ "EFBIG"
  | Errno.erofs ↦ "EROFS"
  | Errno.exdev ↦ "EXDEV"
  | Errno.einval ↦ "EINVAL"
  | Errno.enotsup ↦ "ENOTSUP"
  | Errno.etimedout ↦ "ETIMEDOUT"
  | Errno.eintr ↦ "EINTR"
]

-- localErrorCode
unfoldable pub local_error_code : Option LocalError → String
local_error_code none = "nil"
local_error_code (some err) = elim err.errno [
  | some e ↦ errno_code e
  | none ↦
      if err.is_not_exist
      then "not_exist"
      else if err.is_permission
      then "permission"
      else "unclassified"
]

-- ClassifyLocalError; `none` is a nil error. ETIMEDOUT and EINTR have the answer of the default case.
unfoldable pub classify_local_error : Option LocalError → FsErrorClassification
unfolding local_error_code is_local_fatal_errno is_local_load_errno
classify_local_error none = fatal_class
classify_local_error (some err) =
    let code = local_error_code (some err) in
    if err.path_blocked
    then class_of FsErrorBucket.fatal "path_blocked" (pos 0)
    else if is_local_fatal_errno err
    then class_of FsErrorBucket.fatal code (pos 0)
    else if is_local_load_errno err
    then class_of FsErrorBucket.ambiguous code (pos 0)
    else class_of FsErrorBucket.retryable code (pos 0)
