-- ===== src/Tests/Local.antt =====
-- Blocked paths at concrete inputs.
use sylos_fs.Base.{true, false, ◌≡◌, refl}
use sylos_fs.Base.Text.{to_lower}
use sylos_fs.Base.Text.Paths.{clean}
use sylos_fs.Types.Locations.{forward_slashes}
use sylos_fs.Adapters.LocalSafety.{
  trim_slash, normalize_fs_path, is_blocked_path, is_blocked_path-below,
}

is_blocked_path-below_example : is_blocked_path "/proc/../sys//kernel" ≡ true
unfolding is_blocked_path normalize_fs_path trim_slash forward_slashes clean to_lower
is_blocked_path-below_example =
    is_blocked_path-below "/sys/" "/proc/../sys//kernel" "kernel" refl refl

similar_name : is_blocked_path "/system" ≡ false
unfolding is_blocked_path normalize_fs_path trim_slash forward_slashes clean to_lower
similar_name = refl
