-- ===== src/Manager/Sources.antt =====
-- pkg/fs/manager.go: ListSources. Go ranges over the service map in no order, so the services come
-- in any order; sort.Slice is an insertion sort by display name, and texts compare by code point,
-- as UTF-8 does by byte. What ctx says before the n-th service is an argument.
pub mod Sorted
use Prim.Native.Char.{Char, code}
use sylos_fs.Base.{
  ℕ, ◌+◌, String, str_eq, List, [], ◌∷◌, ◌++◌, Bool, true, false, ◌&&◌, ◌||◌, Option, none, some,
  Answer, ok, err, ltb, ◌==◌, if◌then◌else◌,
}
use sylos_fs.Manager.Connections.{ServiceType}
use sylos_fs.Manager.Acquire.{ServiceDefinition, SpectraConfig}

pub record Source : Type 0 where
  pub id : String
  pub display_name : String
  pub type : ServiceType
  pub metadata : List (String × String)

-- sources, hasSpectra and spectraConfigPath
pub record Gathered : Type 0 where
  pub sources : List Source
  pub has_spectra : Bool
  pub spectra_config_path : String

-- The entry of a metadata map that is left out for an empty text.
abbrev pub unless_empty : String → String → List (String × String)
unless_empty key value = if str_eq value "" then [] else (key, value) ∷ []

abbrev pub root_metadata : Option String → List (String × String)
root_metadata none = []
root_metadata (some root) = unless_empty "rootPath" root

abbrev pub source_of : ServiceDefinition → List (String × String) → Source
source_of svc more = record {
  id = svc.id;
  display_name = svc.name;
  type = svc.type;
  metadata = ("name", svc.name) ∷ more;
}

abbrev pub config_path_of : Option SpectraConfig → String
config_path_of none = ""
config_path_of (some cfg) = cfg.config_path

abbrev pub add_source : Source → Gathered → Gathered
add_source s g = record g { sources = g.sources ++ s ∷ [] }

abbrev pub add_cloud : ServiceDefinition → Option String → Gathered → Gathered
add_cloud svc none g = g
add_cloud svc (some provider) g = add_source (source_of svc (("providerId", provider) ∷ [])) g

-- The switch of the loop.
abbrev pub gather_service : ServiceType → ServiceDefinition → Gathered → Gathered
gather_service ServiceType.local svc g = add_source (source_of svc (root_metadata svc.local_root)) g
gather_service ServiceType.spectra svc g =
    if g.has_spectra
    then g
    else record g { has_spectra = true; spectra_config_path = config_path_of svc.spectra }
gather_service ServiceType.cloud svc g = add_cloud svc svc.cloud_provider g

abbrev pub spectra_source : String → Source
spectra_source config_path = record {
  id = "spectra";
  display_name = "Spectra";
  type = ServiceType.spectra;
  metadata = ("name", "Spectra") ∷ unless_empty "configPath" config_path;
}

-- One entry for all Spectra services.
abbrev pub with_spectra : Gathered → List Source
with_spectra g =
    if g.has_spectra then g.sources ++ spectra_source g.spectra_config_path ∷ [] else g.sources

-- Go's `<` on texts.
unfoldable pub less : String → String → Bool
less s String.[] = false
less String.[] (String.◌∷◌ d t) = true
less (String.◌∷◌ c s) (String.◌∷◌ d t) =
    let later = less s t in ltb (code c) (code d) || code c == code d && later

unfoldable pub insert_source : Source → List Source → List Source
insert_source s [] = s ∷ []
insert_source s (t ∷ rest) =
    let later = insert_source s rest in
    if less s.display_name t.display_name then s ∷ t ∷ rest else t ∷ later

unfoldable pub sort_sources : List Source → List Source
sort_sources [] = []
sort_sources (s ∷ rest) = insert_source s (sort_sources rest)

module _ {E : Type 0} (ctx_err : ℕ → Option E) where
  unfoldable pub gather : ℕ → List (String × ServiceDefinition) → Gathered → Answer E Gathered
  gather n [] g = ok g
  gather n ((id, svc) ∷ services) g =
      let rest = gather (n + 1) services (gather_service svc.type svc g) in
      elim (ctx_err n) [ none ↦ rest | some e ↦ err e ]

  abbrev pub sorted_sources : Answer E Gathered → Answer E (List Source)
  sorted_sources (ok g) = ok (sort_sources (with_spectra g))
  sorted_sources (err e) = err e

  unfoldable pub list_sources : List (String × ServiceDefinition) → Answer E (List Source)
  list_sources services =
      sorted_sources
        (gather 0 services (record { sources = []; has_spectra = false; spectra_config_path = "" }))
