-- ===== src/Manager/Connections.antt =====
-- pkg/fs/manager.go and manager_cloud.go: the pool of connections. Every function here runs under
-- the manager's lock or calls others that do, so each is one step from state to state. Sessions
-- belong to the providers: a session is a number, and the state keeps the list of those that the
-- manager has closed, in the order of the Close calls.
pub mod Lifetime
use sylos_fs.Base.{
  ℕ, ℤ, pos, negsuc, ◌+ℤ◌, ◌-ℤ◌, ltb_ℤ, leb_ℤ, String, str_eq, List, [], ◌∷◌, ◌++◌, Bool, true,
  false, ◌&&◌, ◌||◌, not, Option, none, some, is_none, if◌then◌else◌,
}
use sylos_fs.Base.Dict.{lookup, insert, delete}

pub data ServiceType : Type 0 where
  local spectra cloud : ServiceType

pub record ServiceConnection : Type 0 where
  pub typ : ServiceType
  pub session : Option ℕ
  pub cloud_session : Option ℕ
  pub cloud_provider : String
  pub ref_count : ℤ

pub record Pool : Type 0 where
  pub connections : List (String × ServiceConnection)
  pub closed : List ℕ

pub data ConnectionError : Type 0 where
  already_exists in_use not_found : String → ConnectionError

unfoldable pub get_connection : Pool → String → Option ServiceConnection
get_connection m id = lookup id m.connections

-- `_ = session.Close()`, where there is one.
abbrev pub close : Option ℕ → Pool → Pool
close none m = m
close (some s) m = record m { closed = m.closed ++ s ∷ [] }

abbrev pub put_connection : String → ServiceConnection → Pool → Pool
put_connection id conn m = record m { connections = insert id conn m.connections }

abbrev pub drop_connection : String → Pool → Pool
drop_connection id m = record m { connections = delete id m.connections }

pub register_connection : String → ServiceConnection → Pool → Option ConnectionError × Pool
register_connection id conn m = elim (lookup id m.connections) [
  | some existing ↦ (some (already_exists id), m)
  | none ↦ (none, put_connection id conn m)
]

-- An idle connection of that name is closed and replaced.
pub replace_or_register_connection :
    String → ServiceConnection → Pool → Option ConnectionError × Pool
replace_or_register_connection id conn m = elim (lookup id m.connections) [
  | some existing ↦
      if ltb_ℤ (pos 0) existing.ref_count
      then (some (in_use id), m)
      else (none, put_connection id conn (close existing.cloud_session m))
  | none ↦ (none, put_connection id conn m)
]

abbrev pub add_ref : ServiceConnection → ServiceConnection
add_ref conn = record conn { ref_count = conn.ref_count +ℤ pos 1 }

abbrev pub drop_ref : ServiceConnection → ServiceConnection
drop_ref conn = record conn { ref_count = conn.ref_count -ℤ pos 1 }

unfoldable pub increment_connection_ref_count : String → Pool → Option ServiceConnection × Pool
increment_connection_ref_count id m = elim (lookup id m.connections) [
  | none ↦ (none, m)
  | some conn ↦ (some (add_ref conn), put_connection id (add_ref conn) m)
]

-- The connection, if there is one, and whether it was deleted from the pool.
unfoldable pub decrement_connection_ref_count :
    String → Pool → (Option ServiceConnection × Bool) × Pool
decrement_connection_ref_count id m = elim (lookup id m.connections) [
  | none ↦ ((none, false), m)
  | some conn ↦
      if leb_ℤ (drop_ref conn).ref_count (pos 0)
      then ((some (drop_ref conn), true), drop_connection id m)
      else ((some (drop_ref conn), false), put_connection id (drop_ref conn) m)
]

-- What ReleaseConnection closes of a connection that it took out of the pool.
abbrev pub close_by_type : ServiceConnection → Pool → Pool
close_by_type conn m = elim conn.typ [
  | ServiceType.spectra ↦ close conn.session m
  | ServiceType.cloud ↦ close conn.cloud_session m
  | ServiceType.local ↦ m
]

abbrev pub close_released : Option ServiceConnection × Bool → Pool → Pool
close_released (none, gone) m = m
close_released (some conn, true) m = close_by_type conn m
close_released (some conn, false) m = m

unfoldable pub release_connection : String → Pool → Pool
unfolding decrement_connection_ref_count
release_connection id m =
    let (r, m') = decrement_connection_ref_count id m in
    if str_eq id "" then m else close_released r m'

-- The release function of a cloud adapter, and RevokeCloudConnection but for the token store.
abbrev pub close_cloud : Option ServiceConnection × Bool → Pool → Pool
close_cloud (none, gone) m = m
close_cloud (some conn, true) m = close conn.cloud_session m
close_cloud (some conn, false) m = m

unfoldable pub release_cloud : String → Pool → Pool
unfolding decrement_connection_ref_count
release_cloud id m = let (r, m') = decrement_connection_ref_count id m in close_cloud r m'

pub has_connection : Pool → String → Bool
unfolding get_connection
has_connection m id = if str_eq id "" then false else not (is_none (get_connection m id))

pub cloud_connection_provider : Pool → String → Option String
unfolding get_connection
cloud_connection_provider m id = elim (get_connection m id) [
  | none ↦ none
  | some conn ↦ elim conn.typ [
    | ServiceType.cloud ↦ if str_eq conn.cloud_provider "" then none else some conn.cloud_provider
    | _ ↦ none
  ]
]
