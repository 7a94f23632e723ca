-- ===== src/Tests/Locations.antt =====
-- Logical paths at concrete inputs.
use sylos_fs.Base.{◌≡◌, refl}
use sylos_fs.Base.Text.{contains_any}
use sylos_fs.Base.Text.Paths.Clean.{Plain}
use sylos_fs.Types.Locations.{normalize_location_path}
use sylos_fs.Types.Locations.Normal.{IsNormal, normalize_location_path_idem}

normalized : normalize_location_path "a\\b/../c//d/." ≡ "/a/c/d"
unfolding normalize_location_path
normalized = refl

normalize_location_path_idem_example :
    IsNormal (normalize_location_path "a\\b/../c//d/.")
    × (normalize_location_path (normalize_location_path "a\\b/../c//d/.")
        ≡ normalize_location_path "a\\b/../c//d/.")
normalize_location_path_idem_example = normalize_location_path_idem "a\\b/../c//d/."

report_name-Plain : Plain "report 1.txt"
unfolding contains_any
report_name-Plain = record { nonempty = refl; not_here = refl; not_up = refl; whole = refl }
