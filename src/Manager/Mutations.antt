-- ===== src/Manager/Mutations.antt =====
-- pkg/fs/manager_mutations.go: deleting nodes and naming folders while browsing. The adapter is a
-- parameter: a world W that its calls change, and what DeleteNode and CreateFolder answer.
pub mod Deletion
pub mod Names
use sylos_fs.Base.{
  String, str_eq, List, [], ◌∷◌, ◌++◌, Bool, true, false, ◌||◌, Option, none, some, ◌⊎◌, inl, inr,
  if◌then◌else◌,
}
use sylos_fs.Base.Text.{trim_space, to_lower, contains_any, has_prefix}
use sylos_fs.Types.Listing.{Folder}

pub record NodeRef : Type 0 where
  pub id : String
  pub type : String

pub data MutationError (E : Type 0) : Type 0 where
  id_required unsupported_type cannot_delete_root : MutationError E
  name_required invalid_name parent_required nothing_to_delete : MutationError E
  adapter_error : E → MutationError E

pub record DeleteNodesResult (E : Type 0) : Type 0 where
  pub deleted : List String
  pub errors : List (String × MutationError E)

-- sanitizeFolderName: the error, or the name that is used.
pub data Sanitized (E : Type 0) : Type 0 where
  name : String → Sanitized E
  refused : MutationError E → Sanitized E

unfoldable pub sanitize_folder_name : {E : Type 0} → String → Sanitized E
unfolding trim_space contains_any
sanitize_folder_name given =
    let trimmed = trim_space given in
    if str_eq trimmed ""
    then refused name_required
    else if contains_any trimmed "/\\" || (str_eq trimmed "." || str_eq trimmed "..")
    then refused invalid_name
    else name trimmed

unfoldable pub validate_delete_node : {E : Type 0} → NodeRef → Option (MutationError E)
unfolding trim_space to_lower
validate_delete_node node =
    let id = trim_space node.id in
    let lower = to_lower id in
    if str_eq id ""
    then some id_required
    else if str_eq node.type "file" || str_eq node.type "folder"
    then if str_eq lower "root" || (str_eq lower "/" || has_prefix lower "\\\\.\\")
      then some cannot_delete_root
      else none
    else some unsupported_type

pub record Adapter (E W : Type 0) : Type 0 where
  pub delete_node : String → String → W → Option E × W
  pub create_folder : String → String → W → (E ⊎ Folder) × W

abbrev pub add_error :
    {E : Type 0} → NodeRef → MutationError E → DeleteNodesResult E → DeleteNodesResult E
add_error node e r = record r { errors = r.errors ++ (node.id, e) ∷ [] }

abbrev pub add_deleted : {E : Type 0} → NodeRef → DeleteNodesResult E → DeleteNodesResult E
add_deleted node r = record r { deleted = r.deleted ++ node.id ∷ [] }

abbrev pub after_delete :
    {E W : Type 0} → NodeRef → DeleteNodesResult E → Option E × W → DeleteNodesResult E × W
after_delete node r (none, w) = (add_deleted node r, w)
after_delete node r (some e, w) = (add_error node (adapter_error e) r, w)

-- The body of the loop for one node.
abbrev pub delete_one :
    {E W : Type 0} → Adapter E W → NodeRef → DeleteNodesResult E × W → DeleteNodesResult E × W
delete_one adapter node (r, w) = elim (validate_delete_node node) [
  | some e ↦ (add_error node e r, w)
  | none ↦ after_delete node r (adapter.delete_node node.id node.type w)
]

abbrev pub delete_loop :
    {E W : Type 0} → Adapter E W → List NodeRef → DeleteNodesResult E × W → DeleteNodesResult E × W
delete_loop adapter [] s = s
delete_loop adapter (node ∷ nodes) s = delete_loop adapter nodes (delete_one adapter node s)

abbrev pub nothing_yet : {E : Type 0} → DeleteNodesResult E
nothing_yet = record { deleted = []; errors = [] }

-- DeleteNodes, given the adapter that browseAdapter found.
pub delete_nodes :
    {E W : Type 0}
    → Adapter E W
    → List NodeRef
    → W
    → (Option (MutationError E) × DeleteNodesResult E) × W
delete_nodes adapter [] w = ((some nothing_to_delete, nothing_yet), w)
delete_nodes adapter (node ∷ nodes) w =
    let (r, w') = delete_loop adapter (node ∷ nodes) (nothing_yet, w) in ((none, r), w')

abbrev pub after_create : {E W : Type 0} → (E ⊎ Folder) × W → (MutationError E ⊎ Folder) × W
after_create (inl e, w) = (inl (adapter_error e), w)
after_create (inr f, w) = (inr f, w)

-- CreateFolder, given the adapter.
pub create_folder :
    {E W : Type 0} → Adapter E W → String → String → W → (MutationError E ⊎ Folder) × W
unfolding sanitize_folder_name trim_space
create_folder adapter parent given w = elim (sanitize_folder_name given) [
  | refused e ↦ (inl e, w)
  | name n ↦
      if str_eq (trim_space parent) ""
      then (inl parent_required, w)
      else after_create (adapter.create_folder parent n w)
]
