-- ===== src/Manager/Listing/Contained.antt =====
-- Which paths ListChildren of pkg/fs/manager.go lists for a local service with a root.
use sylos_fs.Base.{
  String, str_eq, List, All, false, some, ok, err, ◌≡◌, refl, Bool-cases, inl, inr, if◌then◌else◌,
}
use sylos_fs.Base.Text.Paths.Clean.{Plain, path_of, clean-path_of}
use sylos_fs.Manager.Connections.{ServiceType, Pool}
use sylos_fs.Manager.Acquire.{ServiceDefinition, default_to}
use sylos_fs.Manager.Services.{Services, get_service}
use sylos_fs.Manager.Containment.{is_prefix, within_root-is_prefix}
use sylos_fs.Manager.Listing.{
  ListChildrenRequest, outside_root, Listers, paginated, list_local_children, list_children,
}

module _ {E : Type 0} (l : Listers E) where
  -- A request for a local service with a root path, by an id that is neither "local" nor "spectra".
  pub record Restricted (services : Services) (req : ListChildrenRequest) (root : String)
      : Type 0 where
    pub def : ServiceDefinition
    pub found : get_service services req.service_id ≡ some def
    pub is_local : def.type ≡ ServiceType.local
    pub rooted : def.local_root ≡ some root
    pub nonempty : str_eq root "" ≡ false
    pub own_id : (str_eq req.service_id "spectra" ≡ false) × (str_eq req.service_id "local" ≡ false)

  -- Where filepath.Abs gives rooted paths of plain segments for the root and for the identifier
  -- (the root, if it is empty) and leaves the latter path as it is: the answer is a page of what
  -- the adapter of the root lists at that path, if its segments begin with those of the root, and
  -- else the error that it is outside.
  pub list_children-contained :
      (services : Services) (pool : Pool) (req : ListChildrenRequest) (root : String)
      (base segs : List String)
      → Restricted services req root
      → l.abs root ≡ ok (path_of base)
      → l.abs (default_to req.identifier root) ≡ ok (path_of segs)
      → l.abs (path_of segs) ≡ ok (path_of segs)
      → All Plain base
      → All Plain segs
      → list_children l services pool req ≡ (
          if is_prefix base segs
          then paginated req (l.list_local root (path_of segs))
          else err (outside_root (path_of segs)))
  unfolding list_children list_local_children
  list_children-contained services pool req root base segs r root_at target_at still h k =
      let (not_spectra, not_local) = r.own_id in
      let found = r.found in
      let is_local = r.is_local in
      let rooted = r.rooted in
      let nonempty = r.nonempty in
      let cleaned = clean-path_of segs k in
      let within = within_root-is_prefix l.abs root (path_of segs) base segs root_at still h k in
      elim (Bool-cases (is_prefix base segs)) [
        | inl inside ↦
            rw
              (
                not_spectra, not_local, found, is_local, rooted, nonempty, target_at, cleaned,
                within, inside,
              )
              refl
        | inr outside ↦
            rw
              (
                not_spectra, not_local, found, is_local, rooted, nonempty, target_at, cleaned,
                within, outside,
              )
              refl
      ]
