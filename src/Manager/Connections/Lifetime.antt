-- ===== src/Manager/Connections/Lifetime.antt =====
-- The life of one connection: counted while adapters hold it, closed once with the last of them.
use sylos_fs.Base.{
  ℕ, zero, suc, ◌+◌, ◌-◌, ◌≤◌, ◌<◌, pos, leb_ℤ, String, str_eq, eq_iff, List, [], ◌∷◌, ◌++◌, true,
  false, Option, none, some, ◌≡◌, ◌≢◌, refl, arith,
}
use sylos_fs.Base.Dict.{lookup, insert, delete, lookup-insert, lookup-delete}
use sylos_fs.Manager.Connections.{
  ServiceType, ServiceConnection, Pool, put_connection, drop_connection, add_ref, drop_ref,
  increment_connection_ref_count, decrement_connection_ref_count, close_by_type, close_released,
  release_connection,
}

pub str_eq_self : (s : String) → str_eq s s ≡ true
str_eq_self s = (eq_iff s s).1 refl

pub lookup-insert_self :
    (id : String) (conn : ServiceConnection) (cs : List (String × ServiceConnection))
    → lookup id (insert id conn cs) ≡ some conn
lookup-insert_self id conn cs = rw (lookup-insert id id conn cs, str_eq_self id)

pub lookup-delete_self :
    (id : String) (cs : List (String × ServiceConnection)) → lookup id (delete id cs) ≡ none
lookup-delete_self id cs = rw (lookup-delete id id cs, str_eq_self id)

pub acquires : ℕ → String → Pool → Pool
acquires zero id m = m
acquires (suc n) id m = acquires n id (increment_connection_ref_count id m).1

pub releases : ℕ → String → Pool → Pool
releases zero id m = m
releases (suc n) id m = releases n id (release_connection id m)

-- The connection with n adapters on it.
abbrev pub held : ServiceConnection → ℕ → ServiceConnection
held conn n = record conn { ref_count = pos n }

-- `id` has the connection with n adapters on it, and these sessions have been closed.
pub record Shows (id : String) (conn : Option ServiceConnection) (closed : List ℕ) (m : Pool)
    : Type 0 where
  pub pooled : lookup id m.connections ≡ conn
  pub shut : m.closed ≡ closed

pub add_ref-held : (conn : ServiceConnection) (n : ℕ) → add_ref (held conn n) ≡ held conn (suc n)
add_ref-held conn n = ground arith

pub drop_ref-held : (conn : ServiceConnection) (n : ℕ) → drop_ref (held conn (suc n)) ≡ held conn n
drop_ref-held conn n = ground arith

pub increment_lem :
    (id : String) (conn : ServiceConnection) (m : Pool)
    → lookup id m.connections ≡ some conn
    → increment_connection_ref_count id m
      ≡ (some (add_ref conn), put_connection id (add_ref conn) m)
unfolding increment_connection_ref_count
increment_lem id conn m h = rw (h, increment_connection_ref_count)

pub decrement_kept :
    (id : String) (conn : ServiceConnection) (m : Pool)
    → lookup id m.connections ≡ some conn
    → leb_ℤ (drop_ref conn).ref_count (pos 0) ≡ false
    → decrement_connection_ref_count id m
      ≡ ((some (drop_ref conn), false), put_connection id (drop_ref conn) m)
unfolding decrement_connection_ref_count
decrement_kept id conn m h more = rw (h, decrement_connection_ref_count, more)

pub decrement_last :
    (id : String) (conn : ServiceConnection) (m : Pool)
    → lookup id m.connections ≡ some conn
    → leb_ℤ (drop_ref conn).ref_count (pos 0) ≡ true
    → decrement_connection_ref_count id m ≡ ((some (drop_ref conn), true), drop_connection id m)
unfolding decrement_connection_ref_count
decrement_last id conn m h last = rw (h, decrement_connection_ref_count, last)

pub decrement_none :
    (id : String) (m : Pool)
    → lookup id m.connections ≡ none
    → decrement_connection_ref_count id m ≡ ((none, false), m)
unfolding decrement_connection_ref_count
decrement_none id m h = rw (h, decrement_connection_ref_count)

release_lem :
    (id : String) (m : Pool)
    → id ≢ ""
    → release_connection id m
      ≡ close_released
          (decrement_connection_ref_count id m).0
          (decrement_connection_ref_count id m).1
unfolding release_connection
release_lem id m named = ground (arith, eq_iff id "")

pub increment-Shows :
    (id : String) (conn : ServiceConnection) (closed : List ℕ) (n : ℕ) (m : Pool)
    → Shows id (some (held conn n)) closed m
    → Shows id (some (held conn (suc n))) closed (increment_connection_ref_count id m).1
increment-Shows id conn closed n m v =
    rw (increment_lem id (held conn n) m v.pooled, add_ref-held conn n)
      (record { pooled = lookup-insert_self id (held conn (suc n)) m.connections; shut = v.shut })

pub release_kept-Shows :
    (id : String) (conn : ServiceConnection) (closed : List ℕ) (n : ℕ) (m : Pool)
    → id ≢ ""
    → Shows id (some (held conn (suc (suc n)))) closed m
    → Shows id (some (held conn (suc n))) closed (release_connection id m)
release_kept-Shows id conn closed n m named v =
    rw
      (
        release_lem id m named,
        decrement_kept id (held conn (suc (suc n))) m v.pooled (ground arith),
        drop_ref-held conn (suc n),
      )
      (record { pooled = lookup-insert_self id (held conn (suc n)) m.connections; shut = v.shut })

-- The session that goes with the connection.
abbrev pub session_of : ServiceConnection → Option ℕ
session_of conn = elim conn.typ [
  | ServiceType.spectra ↦ conn.session
  | ServiceType.cloud ↦ conn.cloud_session
  | ServiceType.local ↦ none
]

abbrev pub and_session : List ℕ → Option ℕ → List ℕ
and_session closed none = closed
and_session closed (some s) = closed ++ s ∷ []

close_by_type-Shows :
    (id : String) (conn : ServiceConnection) (m : Pool)
    → lookup id m.connections ≡ none
    → Shows id none (and_session m.closed (session_of conn)) (close_by_type conn m)
close_by_type-Shows id conn m h = record { pooled = ground arith; shut = ground arith }

pub release_last-Shows :
    (id : String) (conn : ServiceConnection) (closed : List ℕ) (n : ℕ) (m : Pool)
    → n ≤ 1
    → id ≢ ""
    → Shows id (some (held conn n)) closed m
    → Shows id none (and_session closed (session_of conn)) (release_connection id m)
release_last-Shows id conn closed n m few named v =
    rw (release_lem id m named, decrement_last id (held conn n) m v.pooled (ground arith), ← v.shut)
      (close_by_type-Shows id conn (drop_connection id m) (lookup-delete_self id m.connections))

release_none-Shows :
    (id : String) (closed : List ℕ) (m : Pool)
    → id ≢ ""
    → Shows id none closed m
    → Shows id none closed (release_connection id m)
release_none-Shows id closed m named v = rw (release_lem id m named, decrement_none id m v.pooled) v

acquires-Shows :
    (n j : ℕ) (id : String) (conn : ServiceConnection) (closed : List ℕ) (m : Pool)
    → Shows id (some (held conn j)) closed m
    → Shows id (some (held conn (j + n))) closed (acquires n id m)
unfolding acquires
acquires-Shows zero j id conn closed m v = let e : j + zero ≡ j = omega arith in rw e v
acquires-Shows (suc n) j id conn closed m v =
    let e : j + suc n ≡ suc j + n = omega arith in
    rw e (
      acquires-Shows n (suc j) id conn closed (increment_connection_ref_count id m).1
        (increment-Shows id conn closed j m v))

releases-none-Shows :
    (k : ℕ) (id : String) (closed : List ℕ) (m : Pool)
    → id ≢ ""
    → Shows id none closed m
    → Shows id none closed (releases k id m)
unfolding releases
releases-none-Shows zero id closed m named v = v
releases-none-Shows (suc k) id closed m named v =
    releases-none-Shows k id closed (release_connection id m) named
      (release_none-Shows id closed m named v)

releases_kept-Shows :
    (k n : ℕ) (id : String) (conn : ServiceConnection) (closed : List ℕ) (m : Pool)
    → id ≢ ""
    → k < n
    → Shows id (some (held conn n)) closed m
    → Shows id (some (held conn (n - k))) closed (releases k id m)
unfolding releases
releases_kept-Shows zero n id conn closed m named less v =
    let e : n - zero ≡ n = omega arith in rw e v
releases_kept-Shows (suc k) zero id conn closed m named less v = absurd (omega arith)
releases_kept-Shows (suc k) (suc zero) id conn closed m named less v = absurd (omega arith)
releases_kept-Shows (suc k) (suc (suc n)) id conn closed m named less v =
    let e : suc (suc n) - suc k ≡ suc n - k = omega arith in
    rw e (
      releases_kept-Shows k (suc n) id conn closed (release_connection id m) named (omega arith)
        (release_kept-Shows id conn closed n m named v))

releases_all-Shows :
    (k n : ℕ) (id : String) (conn : ServiceConnection) (closed : List ℕ) (m : Pool)
    → id ≢ ""
    → n ≤ suc k
    → Shows id (some (held conn n)) closed m
    → Shows id none (and_session closed (session_of conn)) (releases (suc k) id m)
unfolding releases
releases_all-Shows k zero id conn closed m named enough v =
    releases-none-Shows k id _ (release_connection id m) named
      (release_last-Shows id conn closed zero m (omega arith) named v)
releases_all-Shows k (suc zero) id conn closed m named enough v =
    releases-none-Shows k id _ (release_connection id m) named
      (release_last-Shows id conn closed (suc zero) m (omega arith) named v)
releases_all-Shows zero (suc (suc n)) id conn closed m named enough v = absurd (omega arith)
releases_all-Shows (suc k) (suc (suc n)) id conn closed m named enough v =
    releases_all-Shows k (suc n) id conn closed (release_connection id m) named (omega arith)
      (release_kept-Shows id conn closed n m named v)

acquired-Shows :
    (n : ℕ) (id : String) (conn : ServiceConnection) (m : Pool)
    → lookup id m.connections ≡ some (held conn 0)
    → Shows id (some (held conn n)) m.closed (acquires n id m)
acquired-Shows n id conn m idle =
    let same : 0 + n ≡ n = omega arith in
    rw same at (acquires-Shows n 0 id conn m.closed m (record { pooled = idle; shut = refl }))

-- While fewer adapters have been released than acquired an idle connection, it is in the pool with
-- the difference as its reference count, and no session has been closed.
pub releases_kept-acquires :
    (n k : ℕ) (id : String) (conn : ServiceConnection) (m : Pool)
    → id ≢ ""
    → lookup id m.connections ≡ some (held conn 0)
    → k < n
    → Shows id (some (held conn (n - k))) m.closed (releases k id (acquires n id m))
releases_kept-acquires n k id conn m named idle less =
    releases_kept-Shows k n id conn m.closed (acquires n id m) named less
      (acquired-Shows n id conn m idle)

-- Once as many releases as acquisitions of an idle connection have been made, and at least one, the
-- connection is out of the pool and its session has been closed exactly once, however many more
-- releases follow.
pub releases_all-acquires :
    (n k : ℕ) (id : String) (conn : ServiceConnection) (m : Pool)
    → id ≢ ""
    → lookup id m.connections ≡ some (held conn 0)
    → n ≤ suc k
    → Shows id none (and_session m.closed (session_of conn)) (releases (suc k) id (acquires n id m))
releases_all-acquires n k id conn m named idle enough =
    releases_all-Shows k n id conn m.closed (acquires n id m) named enough
      (acquired-Shows n id conn m idle)
