-- ===== src/Tests/Services.antt =====
-- The manager's services and sources at concrete inputs.
use mathlib.Core.List.{Perm}
use sylos_fs.Base.{true, ℕ, String, List, [], ◌∷◌, ◌++◌, Option, none, some, Answer, ok, ◌≡◌, refl}
use sylos_fs.Manager.Connections.{ServiceType}
use sylos_fs.Manager.Acquire.{ServiceDefinition}
use sylos_fs.Manager.Services.{
  LocalServiceConfig, SpectraServiceConfig, CloudServiceConfig, missing_config_path, get_service,
  load_services, load_each, local_definition, spectra_definition,
}
use sylos_fs.Manager.Services.Loaded.{
  definitions, first_error, before_error, latest, load_services-latest,
}
use sylos_fs.Manager.Sources.{
  spectra_source, gather, insert_source, sort_sources, less, list_sources,
}
use sylos_fs.Manager.Sources.Sorted.{
  Ascending, own_sources, shared_source, first_spectra, list_sources-Perm,
}

abbrev in_home : String → Answer String String
in_home p = ok "/home/p"

abbrev locals : List LocalServiceConfig
locals =
    (record { id = "disk"; name = ""; root_path = "p" })
    ∷ (record { id = "disk"; name = "Disk"; root_path = "" })
    ∷ []

-- The second one has no configuration.
abbrev spectras : List SpectraServiceConfig
spectras =
    (record {
      id = "s1";
      name = "S";
      world = "";
      root_id = "";
      config_path = "c";
      diverging_tree_mode = some true;
    })
    ∷ (record {
      id = "s2";
      name = "T";
      world = "";
      root_id = "";
      config_path = "";
      diverging_tree_mode = none;
    })
    ∷ []

abbrev clouds : List CloudServiceConfig
clouds = record { id = "box"; name = "Box"; provider_id = "box" } ∷ []

load_services-latest_example :
    let (error, m) = load_services in_home locals spectras clouds [] in
    let answers = definitions in_home locals spectras clouds in
    (error ≡ first_error answers)
    × ((id : String) → get_service m id ≡ latest id (before_error answers) (get_service [] id))
load_services-latest_example = load_services-latest in_home locals spectras clouds []

refused : (load_services in_home locals spectras clouds []).0 ≡ some (missing_config_path "s2")
unfolding load_services load_each local_definition spectra_definition
refused = refl

abbrev disk : String → ServiceType → Option String → ServiceDefinition
disk name typ provider = record {
  id = name;
  name = name;
  type = typ;
  local_root = none;
  spectra = none;
  cloud_provider = provider;
}

abbrev services : List (String × ServiceDefinition)
services =
    ("s", disk "s" ServiceType.spectra none)
    ∷ ("z", disk "Z" ServiceType.local none)
    ∷ ("b", disk "Box" ServiceType.cloud (some "box"))
    ∷ ("t", disk "t" ServiceType.spectra none)
    ∷ []

abbrev live : ℕ → Option String
live n = none

list_sources-Perm_example :
    let listed =
      (record {
        id = "Box";
        display_name = "Box";
        type = ServiceType.cloud;
        metadata = ("name", "Box") ∷ ("providerId", "box") ∷ [];
      })
      ∷ spectra_source ""
      ∷ (record {
        id = "Z";
        display_name = "Z";
        type = ServiceType.local;
        metadata = ("name", "Z") ∷ [];
      })
      ∷ [] in
    Ascending listed × Perm listed (own_sources services ++ shared_source (first_spectra services))
unfolding list_sources gather sort_sources insert_source less
list_sources-Perm_example = list_sources-Perm live services _ refl
