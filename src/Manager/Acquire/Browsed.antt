-- ===== src/Manager/Acquire/Browsed.antt =====
-- Browsing and then acquiring: the descriptors of pkg/cloud/browse.go handed to acquireCloudAdapter.
use sylos_fs.Base.{
  String, str_eq, eq_iff, Bool, true, false, ◌||◌, some, ◌≡◌, ◌≢◌, refl, sym, ◌∙◌, arith,
}
use sylos_fs.Base.Text.{trim_space}
use sylos_fs.Types.Listing.{Folder}
use sylos_fs.Cloud.Browse.{RootType, root_type_text, browse_folder}
use sylos_fs.Cloud.Browse.Roots.{browse_folder-AtRoot}
use sylos_fs.Manager.Connections.{Pool}
use sylos_fs.Manager.Acquire.{
  Providers, AcquireError, Acquired, validate_migration_root_folder, cloud_folder,
  acquire_cloud_adapter,
}

-- The root types of listings that hold no files of their own.
abbrev pub is_virtual : RootType → Bool
is_virtual RootType.sharepoint_site = true
is_virtual RootType.shared_with_me = true
is_virtual RootType.team_space = true
is_virtual _ = false

abbrev pub forbidden_type : String → Bool
forbidden_type s =
    str_eq s "sharepoint_site" || (str_eq s "shared_with_me" || str_eq s "team_space")

forbidden_type_lem : (t : RootType) → forbidden_type (root_type_text t) ≡ is_virtual t
forbidden_type_lem RootType.my_drive = refl
forbidden_type_lem RootType.shared_with_me = refl
forbidden_type_lem RootType.shared_drive = refl
forbidden_type_lem RootType.user_root = refl
forbidden_type_lem RootType.team_space = refl
forbidden_type_lem RootType.team_folder = refl
forbidden_type_lem RootType.shared_folder = refl
forbidden_type_lem RootType.sharepoint_site = refl
forbidden_type_lem RootType.sharepoint_drive = refl

text_ne : (t : RootType) → str_eq (root_type_text t) "" ≡ false
text_ne RootType.my_drive = refl
text_ne RootType.shared_with_me = refl
text_ne RootType.shared_drive = refl
text_ne RootType.user_root = refl
text_ne RootType.team_space = refl
text_ne RootType.team_folder = refl
text_ne RootType.shared_folder = refl
text_ne RootType.sharepoint_site = refl
text_ne RootType.sharepoint_drive = refl

text-ne : (t : RootType) → root_type_text t ≢ ""
text-ne t h = let e = text_ne t in ground (arith, eq_iff (root_type_text t) "")

cloud_folder_typed :
    (f : Folder) → str_eq f.type "" ≡ false → str_eq f.service_id "" ≡ false → cloud_folder f ≡ f
cloud_folder_typed f typed named = ground arith

-- The descriptor of a browse request with a root type goes to the session as it is: filling in an
-- empty type and an empty id changes nothing.
pub cloud_folder-browse_folder :
    (identifier root_type drive : String) (f : Folder)
    → trim_space root_type ≢ ""
    → browse_folder identifier root_type drive ≡ some f
    → cloud_folder f ≡ f
cloud_folder-browse_folder identifier root_type drive f named e =
    let (t, known, r) = browse_folder-AtRoot identifier root_type drive f named e in
    let typed = text_ne t in
    let same = r.typed in
    let other = r.named in
    cloud_folder_typed f (rw (same) typed) (ground (arith, eq_iff f.service_id ""))

validate_virtual :
    {A : Type 0} (p : Providers A) (provider : String) (t : RootType) (f : Folder)
    → f.type ≡ root_type_text t
    → is_virtual t ≡ true
    → validate_migration_root_folder p provider f ≡ some AcquireError.forbidden_root
unfolding validate_migration_root_folder
validate_virtual p provider t f typed virtual = let e = forbidden_type_lem t in ground arith

-- A listing that holds no files of its own, whose descriptor a browse request gave, is refused as a
-- migration root for every provider and every connection, and the pool is left as it was.
pub acquire_cloud-browse_folder :
    {A : Type 0} (p : Providers A) (identifier root_type drive : String) (f : Folder) (t : RootType)
    (provider id : String) (m : Pool)
    → browse_folder identifier root_type drive ≡ some f
    → trim_space root_type ≡ root_type_text t
    → is_virtual t ≡ true
    → acquire_cloud_adapter p (some provider) f id m
      ≡ (Acquired.failed AcquireError.forbidden_root, m)
unfolding acquire_cloud_adapter
acquire_cloud-browse_folder p identifier root_type drive f t provider id m e known virtual =
    let named : trim_space root_type ≢ "" = λ h. text-ne t (sym known ∙ h) in
    let (t', known', r) = browse_folder-AtRoot identifier root_type drive f named e in
    let v = validate_virtual p provider t f (r.typed ∙ sym known' ∙ known) virtual in ground arith
