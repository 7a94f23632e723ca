-- ===== src/Adapters/Errno/Codes.antt =====
-- The classes of local errors: what may look like a rate limit, and the keys of the tracker.
use sylos_fs.Base.{
  String, str_eq, true, false, Option, none, some, ◌≡◌, ◌↔◌, refl, sym, ap, ◌∙◌, arith,
  if◌then◌else◌,
}
use sylos_fs.Types.ErrorClass.{FsErrorBucket}
use sylos_fs.Adapters.Errno.{
  Errno, LocalError, errno_code, is_local_load_errno, is_local_fatal_errno, local_error_code,
  classify_local_error,
}

-- The errno that a code names.
abbrev errno_of : String → Option Errno
errno_of s =
    if str_eq s "EACCES"
    then some Errno.eacces
    else if str_eq s "EPERM"
    then some Errno.eperm
    else if str_eq s "ENOENT"
    then some Errno.enoent
    else if str_eq s "EIO"
    then some Errno.eio
    else if str_eq s "EAGAIN"
    then some Errno.eagain
    else if str_eq s "EBUSY"
    then some Errno.ebusy
    else if str_eq s "EMFILE"
    then some Errno.emfile
    else if str_eq s "ENFILE"
    then some Errno.enfile
    else if str_eq s "ENOMEM"
    then some Errno.enomem
    else if str_eq s "ENOTDIR"
    then some Errno.enotdir
    else if str_eq s "EISDIR"
    then some Errno.eisdir
    else if str_eq s "ENAMETOOLONG"
    then some Errno.enametoolong
    else if str_eq s "ELOOP"
    then some Errno.eloop
    else if str_eq s "ENOSPC"
    then some Errno.enospc
    else if str_eq s "EDQUOT"
    then some Errno.edquot
    else if str_eq s "EFBIG"
    then some Errno.efbig
    else if str_eq s "EROFS"
    then some Errno.erofs
    else if str_eq s "EXDEV"
    then some Errno.exdev
    else if str_eq s "EINVAL"
    then some Errno.einval
    else if str_eq s "ENOTSUP"
    then some Errno.enotsup
    else if str_eq s "ETIMEDOUT"
    then some Errno.etimedout
    else if str_eq s "EINTR"
    then some Errno.eintr
    else none

errno_of-code : (e : Errno) → errno_of (errno_code e) ≡ some e
errno_of-code Errno.eacces = refl
errno_of-code Errno.eperm = refl
errno_of-code Errno.enoent = refl
errno_of-code Errno.eio = refl
errno_of-code Errno.eagain = refl
errno_of-code Errno.ebusy = refl
errno_of-code Errno.emfile = refl
errno_of-code Errno.enfile = refl
errno_of-code Errno.enomem = refl
errno_of-code Errno.enotdir = refl
errno_of-code Errno.eisdir = refl
errno_of-code Errno.enametoolong = refl
errno_of-code Errno.eloop = refl
errno_of-code Errno.enospc = refl
errno_of-code Errno.edquot = refl
errno_of-code Errno.efbig = refl
errno_of-code Errno.erofs = refl
errno_of-code Errno.exdev = refl
errno_of-code Errno.einval = refl
errno_of-code Errno.enotsup = refl
errno_of-code Errno.etimedout = refl
errno_of-code Errno.eintr = refl

some-inj : {e f : Errno} → some e ≡ some f → e ≡ f
some-inj h = cc h

code_lem :
    (err : LocalError) (e : Errno)
    → err.path_blocked ≡ false
    → err.errno ≡ some e
    → (classify_local_error (some err)).error_code ≡ errno_code e
unfolding classify_local_error local_error_code
code_lem err e open' h = ground arith

-- A local error is classed as ambiguous, which is the one class that the tracker can promote to a
-- throttle, exactly if it wraps an errno of load and the path is not blocked and it is neither a
-- missing file nor a refused permission for the os package.
pub classify_local_error-ambiguous_iff :
    (err : LocalError)
    → ((classify_local_error (some err)).bucket ≡ FsErrorBucket.ambiguous) ↔ (
        (is_local_load_errno err ≡ true)
        × (err.path_blocked ≡ false)
        × (err.is_not_exist ≡ false)
        × (err.is_permission ≡ false))
unfolding classify_local_error is_local_fatal_errno is_local_load_errno
classify_local_error-ambiguous_iff err = ground arith

-- Two errors that each wrap one of the errnos, on paths that are not blocked, have the same code only
-- if the errnos are the same.
pub classify_local_error_code-inj :
    (err err' : LocalError) (e e' : Errno)
    → err.path_blocked ≡ false
    → err'.path_blocked ≡ false
    → err.errno ≡ some e
    → err'.errno ≡ some e'
    → (classify_local_error (some err)).error_code ≡ (classify_local_error (some err')).error_code
    → e ≡ e'
classify_local_error_code-inj err err' e e' open' open'' h h' same = some-inj (
    sym (errno_of-code e)
    ∙ ap errno_of (sym (code_lem err e open' h) ∙ same ∙ code_lem err' e' open'' h')
    ∙ errno_of-code e')
