-- ===== src/Tests/Listing.antt =====
-- A listing of a local service at a concrete request.
use sylos_fs.Base.{pos, String, [], ◌∷◌, false, none, some, ok, err, ◌≡◌, refl}
use sylos_fs.Base.Dict.{lookup}
use sylos_fs.Base.Text.{contains_any}
use sylos_fs.Base.Text.Paths.{join_segments}
use sylos_fs.Types.Listing.{ListResult}
use sylos_fs.Manager.Connections.{ServiceType, Pool}
use sylos_fs.Manager.Acquire.{ServiceDefinition}
use sylos_fs.Manager.Services.{Services, get_service}
use sylos_fs.Manager.Listing.{ListChildrenRequest, outside_root, Listers, list_children}
use sylos_fs.Manager.Listing.Contained.{Restricted, list_children-contained}

abbrev nothing : ListResult
nothing = record { folders = []; files = [] }

abbrev listers : Listers String
listers = record {
  abs = λ p. ok p;
  list_local = λ root p. ok nothing;
  is_closed = λ s. false;
  is_ephemeral = λ s. false;
  list_spectra = λ s root world target depth parent. ok nothing;
  list_cloud = λ s folder id. ok nothing;
}

abbrev disk : ServiceDefinition
disk = record {
  id = "disk";
  name = "Disk";
  type = ServiceType.local;
  local_root = some "/data";
  spectra = none;
  cloud_provider = none;
}

abbrev services : Services
services = ("disk", disk) ∷ []

abbrev pool : Pool
pool = record { connections = []; closed = [] }

abbrev request : ListChildrenRequest
request = record {
  service_id = "disk";
  identifier = "/data2";
  role = "";
  session_id = "";
  root_type = "";
  drive_id = "";
  offset = pos 0;
  limit = pos 10;
  folders_only = false;
  depth = none;
  parent_path = "";
}

abbrev restricted : Restricted listers services request "/data"
unfolding get_service lookup
restricted = record {
  def = disk;
  found = refl;
  is_local = refl;
  rooted = refl;
  nonempty = refl;
  own_id = (refl, refl);
}

-- "/data2" begins with the text "/data" and is outside.
list_children-contained_example :
    list_children listers services pool request ≡ err (outside_root "/data2")
unfolding contains_any join_segments
list_children-contained_example =
    list_children-contained listers services pool request "/data" ("data" ∷ []) ("data2" ∷ [])
      restricted refl refl refl
      (record { nonempty = refl; not_here = refl; not_up = refl; whole = refl }, tt)
      (record { nonempty = refl; not_here = refl; not_up = refl; whole = refl }, tt)
