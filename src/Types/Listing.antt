-- ===== src/Types/Listing.antt =====
-- pkg/types/types.go: nodes, list results and the in-memory pager over a full listing.
pub mod Pager
use sylos_fs.Base.{ℕ, ℤ, String, List, ◌++◌, map, Bool}

pub record Folder : Type 0 where
  pub service_id : String
  pub parent_id : String
  pub parent_path : String
  pub display_name : String
  pub location_path : String
  pub last_updated : String
  pub depth_level : ℤ
  pub type : String

pub record File : Type 0 where
  pub service_id : String
  pub parent_id : String
  pub parent_path : String
  pub display_name : String
  pub location_path : String
  pub last_updated : String
  pub depth_level : ℤ
  pub size : ℤ
  pub type : String

-- The interface Node has these two implementations.
pub data Node : Type 0 where
  folder : Folder → Node
  file : File → Node

pub record ListResult : Type 0 where
  pub folders : List Folder
  pub files : List File

-- The children of a listing in the order in which both pagers number them: folders, then files.
abbrev pub entries : List Folder → List File → List Node
entries folders files = map folder folders ++ map file files

pub record ListPage : Type 0 where
  pub folders : List Folder
  pub files : List File
  pub total : ℕ
  pub page : ℕ
  pub page_size : ℕ
  pub has_more : Bool
