-- ===== src/Cloud/Browse/Roots.antt =====
-- The folder descriptors of browse requests: when there is one, and what it says.
use sylos_fs.Base.{
  String, str_eq, eq_iff, true, false, not, some, ◌≡◌, ◌≢◌, refl, sym, ap, ◌∙◌, inl, inr, arith,
  Option-cases, Bool-cases,
}
use sylos_fs.Base.Text.{trim_space}
use sylos_fs.Types.Listing.{Folder}
use sylos_fs.Cloud.Browse.{
  RootType, root_type_text, root_type_of, listing_of, is_virtual_root_listing, or_else, at_root,
  unless_empty, team_space_folder, browse_root, browse_folder,
}

pub root_type_of-text : (s : String) (t : RootType) → root_type_of s ≡ some t → s ≡ root_type_text t
root_type_of-text s t h = ground (
  arith,
  eq_iff s "my_drive",
  eq_iff s "shared_with_me",
  eq_iff s "shared_drive",
  eq_iff s "user_root",
  eq_iff s "team_space",
  eq_iff s "team_folder",
  eq_iff s "shared_folder",
  eq_iff s "sharepoint_site",
  eq_iff s "sharepoint_drive",
)

-- What is said of every folder that a root type gives.
pub record AtRoot (t : RootType) (f : Folder) : Type 0 where
  pub typed : f.type ≡ root_type_text t
  pub located : f.location_path ≡ "/"
  pub named : f.service_id ≢ ""

literal_ne : (s : String) → str_eq s "" ≡ false → s ≢ ""
literal_ne s h = ground (arith, eq_iff s "")

or_else-ne : (id : String) → or_else id "root" ≢ ""
or_else-ne id h = elim (Bool-cases (str_eq id "")) [
  | inl e ↦ ground (arith, eq_iff "root" "")
  | inr e ↦ ground (arith, eq_iff id "")
]

pub some-inj : {f g : Folder} → some f ≡ some g → f ≡ g
some-inj e = cc e

root_ne : ◌≢◌ {A = String} "root" ""
root_ne = ground (arith, eq_iff "root" "")

unless_empty-inj : {f g : Folder} → (id : String) → unless_empty id f ≡ some g → f ≡ g
unless_empty-inj id e = ground arith

at_root-AtRoot :
    (t : RootType) (id parent name : String) (f : Folder)
    → id ≢ ""
    → at_root id parent name (root_type_text t) ≡ f
    → AtRoot t f
at_root-AtRoot t id parent name f named i = record {
  typed = sym (ap (λ g. g.type) i);
  located = sym (ap (λ g. g.location_path) i);
  named = λ h. named (ap (λ g. g.service_id) i ∙ h);
}

unless_empty-ne : (id : String) (f g : Folder) → unless_empty id f ≡ some g → id ≢ ""
unless_empty-ne id f g e = ground (arith, eq_iff id "")

shared_with_me_ne : ◌≢◌ {A = String} "sharedWithMe" ""
shared_with_me_ne = ground (arith, eq_iff "sharedWithMe" "")

team_space_ne : ◌≢◌ {A = String} "teamSpace" ""
team_space_ne = ground (arith, eq_iff "teamSpace" "")

team_space_folder-inj :
    (ns : String) (f : Folder)
    → team_space_folder ns ≡ some f
    → at_root "teamSpace" ns "Team space" "team_space" ≡ f
team_space_folder-inj ns f e = ground arith

pub browse_root-AtRoot :
    (t : RootType) (id drive : String) (f : Folder) → browse_root id drive t ≡ some f → AtRoot t f
browse_root-AtRoot RootType.my_drive id drive f e =
    at_root-AtRoot RootType.my_drive _ _ _ f (or_else-ne id) (some-inj e)
browse_root-AtRoot RootType.shared_drive id drive f e =
    at_root-AtRoot RootType.shared_drive _ _ _ f root_ne (unless_empty-inj id e)
browse_root-AtRoot RootType.user_root id drive f e =
    at_root-AtRoot RootType.user_root _ _ _ f root_ne (some-inj e)
browse_root-AtRoot RootType.team_space id drive f e =
    at_root-AtRoot RootType.team_space _ _ _ f team_space_ne
      (team_space_folder-inj (or_else drive id) f e)
browse_root-AtRoot RootType.team_folder id drive f e =
    at_root-AtRoot RootType.team_folder _ _ _ f (unless_empty-ne id _ _ e) (unless_empty-inj id e)
browse_root-AtRoot RootType.shared_folder id drive f e =
    at_root-AtRoot RootType.shared_folder _ _ _ f (unless_empty-ne id _ _ e) (unless_empty-inj id e)
browse_root-AtRoot RootType.sharepoint_site id drive f e =
    at_root-AtRoot RootType.sharepoint_site _ _ _ f (unless_empty-ne id _ _ e)
      (unless_empty-inj id e)
browse_root-AtRoot RootType.sharepoint_drive id drive f e =
    at_root-AtRoot RootType.sharepoint_drive _ _ _ f root_ne (unless_empty-inj id e)
browse_root-AtRoot RootType.shared_with_me id drive f e =
    at_root-AtRoot RootType.shared_with_me _ _ _ f shared_with_me_ne (some-inj e)

-- A descriptor of a browse request with a root type that is not blank has that type, trimmed, which is
-- one of the nine known ones, stands at "/", and has an id.
pub browse_folder-AtRoot :
    (identifier root_type drive : String) (f : Folder)
    → trim_space root_type ≢ ""
    → browse_folder identifier root_type drive ≡ some f
    → (t : RootType) × (trim_space root_type ≡ root_type_text t) × AtRoot t f
unfolding browse_folder
browse_folder-AtRoot identifier root_type drive f named e =
    elim (Option-cases (root_type_of (trim_space root_type))) [
      | inl none' ↦ absurd (ground (arith, eq_iff (trim_space root_type) ""))
      | inr (t, some') ↦ (
        t,
        root_type_of-text (trim_space root_type) t some',
        browse_root-AtRoot t (trim_space identifier) drive f
            (ground (arith, eq_iff (trim_space root_type) "")),
      )
    ]

unless_empty-some :
    (id : String) (f : Folder)
    → not (str_eq id "") ≡ true
    → (g : Folder) × (unless_empty id f ≡ some g)
unless_empty-some id f h = (f, ground arith)

browse_root-listing :
    (t : RootType) (id drive : String)
    → listing_of id t ≡ true
    → (t ≡ RootType.team_space → (drive ≢ "") × (drive ≢ "root") × (drive ≢ "teamSpace"))
    → (f : Folder) × (browse_root id drive t ≡ some f)
browse_root-listing RootType.shared_with_me id drive h named = (_, refl)
browse_root-listing RootType.my_drive id drive h named = (_, refl)
browse_root-listing RootType.user_root id drive h named = (_, refl)
browse_root-listing RootType.team_space id drive h named =
    let n = named refl in
    (
      at_root "teamSpace" drive "Team space" "team_space",
      ground (arith, eq_iff drive "", eq_iff drive "root", eq_iff drive "teamSpace"),
    )
browse_root-listing RootType.shared_drive id drive h named = unless_empty-some id _ h
browse_root-listing RootType.team_folder id drive h named = unless_empty-some id _ h
browse_root-listing RootType.shared_folder id drive h named = unless_empty-some id _ h
browse_root-listing RootType.sharepoint_site id drive h named = unless_empty-some id _ h
browse_root-listing RootType.sharepoint_drive id drive h named = unless_empty-some id _ h

browse_folder_lem :
    (identifier root_type drive : String) (t : RootType)
    → str_eq (trim_space root_type) "" ≡ false
    → root_type_of (trim_space root_type) ≡ some t
    → browse_folder identifier root_type drive ≡ browse_root (trim_space identifier) drive t
unfolding browse_folder
browse_folder_lem identifier root_type drive t named e = ground arith

-- A request that opens a virtual root gets a descriptor, provided that a team space comes with a
-- namespace id other than the two placeholders.
pub browse_folder-listing :
    (identifier root_type drive : String)
    → is_virtual_root_listing identifier root_type ≡ true
    → (trim_space root_type ≡ "team_space"
        → (drive ≢ "") × (drive ≢ "root") × (drive ≢ "teamSpace"))
    → (f : Folder) × (browse_folder identifier root_type drive ≡ some f)
unfolding browse_folder is_virtual_root_listing
browse_folder-listing identifier root_type drive opened named =
    elim (Option-cases (root_type_of (trim_space root_type))) [
      | inl none' ↦ absurd (ground arith)
      | inr (t, some') ↦ rw (browse_folder_lem identifier root_type drive t (ground arith) some') (
          browse_root-listing t (trim_space identifier) drive (ground arith)
            (λ e. named (root_type_of-text (trim_space root_type) t some' ∙ ap root_type_text e)))
    ]
