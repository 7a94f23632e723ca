-- ===== src/Types/Locations.antt =====
-- pkg/types/types.go: logical paths. A metadata map is an association list, and nil is the empty one.
pub mod Normal
use Prim.Native.Char.{Char, code}
use Prim.Native.String.{◌++◌, char_at}
use sylos_fs.Base.{ℕ, String, str_eq, List, Option, none, some, Bool, ◌||◌, ◌==◌, if◌then◌else◌}
use sylos_fs.Base.Dict.{lookup}
use sylos_fs.Base.Text.{has_prefix}
use sylos_fs.Base.Text.Paths.{clean, dir}

abbrev pub forward : Char → Char
forward c = if code c == 92 then char_at "/" 0 else c

-- strings.ReplaceAll(p, "\\", "/")
unfoldable pub forward_slashes : String → String
forward_slashes String.[] = ""
forward_slashes (String.◌∷◌ c s) = String.◌∷◌ (forward c) (forward_slashes s)

abbrev pub rooted : String → String
rooted p = if has_prefix p "/" then p else "/" ++ p

abbrev pub root_for_dot : String → String
root_for_dot p = if str_eq p "." then "/" else p

unfoldable pub normalize_location_path : String → String
unfolding forward_slashes clean
normalize_location_path p =
    if str_eq p "" then "/" else root_for_dot (clean (rooted (forward_slashes p)))

pub list_children_base_path : String → String → String
unfolding normalize_location_path
list_children_base_path root_location_path parent_path =
    if str_eq parent_path ""
    then normalize_location_path root_location_path
    else normalize_location_path parent_path

-- metadata[key], which is "" for a missing key.
abbrev pub metadata_at : List (String × String) → String → String
metadata_at metadata key = elim (lookup key metadata) [ none ↦ "" | some v ↦ v ]

abbrev pub parent_of_location : String → String
parent_of_location loc =
    let up = dir loc in if str_eq up "." || str_eq up "" then "/" else normalize_location_path up

unfoldable pub logical_parent_from_create_metadata : List (String × String) → String → String
logical_parent_from_create_metadata metadata fallback =
    let loc = metadata_at metadata "location_path" in
    let pp = metadata_at metadata "parent_path" in
    if str_eq loc ""
    then (if str_eq pp "" then normalize_location_path fallback else normalize_location_path pp)
    else parent_of_location (normalize_location_path loc)

abbrev pub child_of_parent : String → String → String
child_of_parent pp name =
    if str_eq pp "/"
    then normalize_location_path ("/" ++ name)
    else normalize_location_path (pp ++ "/" ++ name)

unfoldable pub child_location_from_create_metadata :
    List (String × String) → String → String → String
child_location_from_create_metadata metadata parent_path name =
    let loc = metadata_at metadata "location_path" in
    if str_eq loc ""
    then child_of_parent (normalize_location_path parent_path) name
    else normalize_location_path loc

pub normalize_parent_path : String → String
unfolding normalize_location_path
normalize_parent_path p = if str_eq p "" then "" else normalize_location_path p
