-- ===== src/Manager/Acquire/Balance.antt =====
-- Acquisitions counted: what acquiring an adapter, with success or without, leaves of the connection
-- it names, and what the release function puts back.
use sylos_fs.Base.{
  ℕ, suc, String, eq_iff, List, [], ◌∷◌, ◌++◌, false, Option, none, some, err, ◌≡◌, ◌≢◌, refl, ap,
  inl, inr, arith, Option-cases,
}
use sylos_fs.Base.Dict.{lookup}
use sylos_fs.Types.Listing.{Folder}
use sylos_fs.Manager.Connections.{
  ServiceType, ServiceConnection, Pool, add_ref, increment_connection_ref_count,
  decrement_connection_ref_count, release_cloud,
}
use sylos_fs.Manager.Connections.Lifetime.{
  Shows, held, lookup-insert_self, lookup-delete_self, increment_lem, decrement_kept,
  decrement_last, drop_ref-held, increment-Shows, release_kept-Shows, release_last-Shows,
}
use sylos_fs.Manager.Acquire.{
  Providers, SpectraConfig, ServiceDefinition, AcquireError, Release, Acquired, run_release,
  validate_migration_root_folder, cloud_folder, default_to, counted_spectra_adapter,
  acquire_spectra_adapter, cloud_adapter, counted_cloud_adapter, acquire_cloud_adapter,
  acquire_adapter,
}

decrement_kept-Shows :
    (id : String) (conn : ServiceConnection) (closed : List ℕ) (n : ℕ) (m : Pool)
    → Shows id (some (held conn (suc (suc n)))) closed m
    → Shows id (some (held conn (suc n))) closed (decrement_connection_ref_count id m).1
decrement_kept-Shows id conn closed n m v =
    rw
      (
        decrement_kept id (held conn (suc (suc n))) m v.pooled (ground arith),
        drop_ref-held conn (suc n),
      )
      (record { pooled = lookup-insert_self id (held conn (suc n)) m.connections; shut = v.shut })

release_cloud_kept-Shows :
    (id : String) (conn : ServiceConnection) (closed : List ℕ) (n : ℕ) (m : Pool)
    → Shows id (some (held conn (suc (suc n)))) closed m
    → Shows id (some (held conn (suc n))) closed (release_cloud id m)
unfolding release_cloud
release_cloud_kept-Shows id conn closed n m v =
    rw
      (
        decrement_kept id (held conn (suc (suc n))) m v.pooled (ground arith),
        drop_ref-held conn (suc n),
      )
      (record { pooled = lookup-insert_self id (held conn (suc n)) m.connections; shut = v.shut })

decrement_last-Shows :
    (id : String) (conn : ServiceConnection) (closed : List ℕ) (m : Pool)
    → Shows id (some (held conn 1)) closed m
    → Shows id none closed (decrement_connection_ref_count id m).1
decrement_last-Shows id conn closed m v =
    rw (decrement_last id (held conn 1) m v.pooled (ground arith))
      (record { pooled = lookup-delete_self id m.connections; shut = v.shut })

-- An adapter is acquired with the connection counted once more, and its release takes the count back;
-- an acquisition that fails, or that needs no release, leaves the count.
abbrev pub Settled :
    {A : Type 0} → String → ServiceConnection → List ℕ → ℕ → Acquired A × Pool → Type 0
Settled id conn closed n (Acquired.failed e, m) = Shows id (some (held conn n)) closed m
Settled id conn closed n (Acquired.adapter a Release.nothing, m) =
    Shows id (some (held conn n)) closed m
Settled id conn closed n (Acquired.adapter a r, m) =
    Shows id (some (held conn (suc n))) closed m
    × Shows id (some (held conn n)) closed (run_release r m)

module _ {A : Type 0} (p : Providers A) where
  cloud_adapter-Settled :
      (root : Folder) (id : String) (c conn : ServiceConnection) (closed : List ℕ) (n : ℕ)
      (m : Pool)
      → Shows id (some (held conn (suc (suc n)))) closed m
      → Settled id conn closed (suc n) (cloud_adapter p root id c m)
  unfolding run_release
  cloud_adapter-Settled root id c conn closed n m v =
      let d = decrement_kept-Shows id conn closed n m v in
      let r = release_cloud_kept-Shows id conn closed n m v in ground arith

  counted_spectra-Settled :
      (cfg : SpectraConfig) (root id : String) (session : ℕ) (c conn : ServiceConnection)
      (closed : List ℕ) (n : ℕ) (q : Option ServiceConnection × Pool)
      → id ≢ ""
      → q.0 ≡ some c
      → Shows id (some (held conn (suc (suc n)))) closed q.1
      → Settled id conn closed (suc n) (counted_spectra_adapter p cfg root id session q)
  unfolding run_release
  counted_spectra-Settled cfg root id session c conn closed n (none, m) named e v =
      absurd (ground arith)
  counted_spectra-Settled cfg root id session c conn closed n (some c', m) named e v =
      let r = release_kept-Shows id conn closed n m named v in ground arith

  counted_cloud-Settled :
      (root : Folder) (id : String) (c conn : ServiceConnection) (closed : List ℕ) (n : ℕ)
      (q : Option ServiceConnection × Pool)
      → q.0 ≡ some c
      → Shows id (some (held conn (suc (suc n)))) closed q.1
      → Settled id conn closed (suc n) (counted_cloud_adapter p root id q)
  counted_cloud-Settled root id c conn closed n (none, m) e v = absurd (ground arith)
  counted_cloud-Settled root id c conn closed n (some c', m) e v =
      cloud_adapter-Settled root id c' conn closed n m v

  acquire_spectra-Settled :
      (cfg : SpectraConfig) (root id : String) (conn : ServiceConnection) (closed : List ℕ) (n : ℕ)
      (m : Pool)
      → id ≢ ""
      → Shows id (some (held conn (suc n))) closed m
      → Settled id conn closed (suc n) (acquire_spectra_adapter p cfg root id m)
  unfolding acquire_spectra_adapter
  acquire_spectra-Settled cfg root id conn closed n m named v =
      let h = v.pooled in
      elim (Option-cases conn.session) [
        | inl none' ↦ ground arith
        | inr (session, some') ↦
            let s =
              counted_spectra-Settled cfg (default_to root cfg.root_id) id session
                (add_ref (held conn (suc n))) conn closed n (increment_connection_ref_count id m)
                named (ap (λ q. q.0) (increment_lem id (held conn (suc n)) m v.pooled))
                (increment-Shows id conn closed (suc n) m v) in
            ground arith
      ]

  acquire_cloud-Settled :
      (provider : Option String) (root : Folder) (id : String) (conn : ServiceConnection)
      (closed : List ℕ) (n : ℕ) (m : Pool)
      → Shows id (some (held conn (suc n))) closed m
      → Settled id conn closed (suc n) (acquire_cloud_adapter p provider root id m)
  unfolding acquire_cloud_adapter
  acquire_cloud-Settled none root id conn closed n m v = v
  acquire_cloud-Settled (some provider) root id conn closed n m v =
      let c =
        counted_cloud-Settled root id (add_ref (held conn (suc n))) conn closed n
          (increment_connection_ref_count id m)
          (ap (λ q. q.0) (increment_lem id (held conn (suc n)) m v.pooled))
          (increment-Shows id conn closed (suc n) m v) in
      ground arith

  -- Whatever service and root an adapter is acquired for on a named connection that other adapters
  -- hold: the connection is counted once more exactly when the acquisition gives an adapter whose
  -- release function names it, and running that function takes the count back, with no session closed
  -- in either step; a failing acquisition leaves count and sessions as they were.
  pub acquire_adapter-Settled :
      (def : ServiceDefinition) (root : Folder) (id : String) (conn : ServiceConnection)
      (closed : List ℕ) (n : ℕ) (m : Pool)
      → id ≢ ""
      → Shows id (some (held conn (suc n))) closed m
      → Settled id conn closed (suc n) (acquire_adapter p def root id m)
  unfolding acquire_adapter
  acquire_adapter-Settled def root id conn closed n m named v =
      let c = acquire_cloud-Settled def.cloud_provider root id conn closed n m v in
      elim (Option-cases def.spectra) [
        | inl none' ↦ ground arith
        | inr (cfg, some') ↦
            let s =
              acquire_spectra-Settled cfg (default_to root.service_id "root") id conn closed n m
                named v in
            ground arith
      ]

  -- On an idle cloud connection (count 0) with a session, for a root that is not forbidden: when
  -- CreateAdapter fails, the acquisition fails with that error, the connection is gone from the pool,
  -- and no session has been closed.
  pub failed_cloud_drops :
      (provider : String) (root : Folder) (id : String) (conn : ServiceConnection) (session : ℕ)
      (m : Pool) (e : String)
      → lookup id m.connections ≡ some (held conn 0)
      → conn.typ ≡ ServiceType.cloud
      → conn.cloud_session ≡ some session
      → validate_migration_root_folder p provider root ≡ none
      → p.create_cloud session (cloud_folder root) ≡ err e
      → ((acquire_cloud_adapter p (some provider) root id m).0
          ≡ Acquired.failed (AcquireError.adapter_failed e))
        × Shows id none m.closed (acquire_cloud_adapter p (some provider) root id m).1
  unfolding acquire_cloud_adapter
  failed_cloud_drops provider root id conn session m e idle typ some_session valid fails =
      let i = increment-Shows id conn m.closed 0 m (record { pooled = idle; shut = refl }) in
      let d = decrement_last-Shows id conn m.closed (increment_connection_ref_count id m).1 i in
      let counted = increment_lem id (held conn 0) m idle in ground arith

  -- On an idle Spectra connection (count 0) with an open session: when CreateAdapter fails, the
  -- acquisition fails with an error that wraps that error, the connection is gone from the pool,
  -- and its session has been closed once.
  pub failed_spectra_closes :
      (cfg : SpectraConfig) (root : String) (id : String) (conn : ServiceConnection) (session : ℕ)
      (m : Pool) (e : String)
      → id ≢ ""
      → lookup id m.connections ≡ some (held conn 0)
      → conn.typ ≡ ServiceType.spectra
      → conn.session ≡ some session
      → p.is_closed session ≡ false
      → p.create_spectra session (default_to root cfg.root_id) cfg.world ≡ err e
      → ((acquire_spectra_adapter p cfg root id m).0
          ≡ Acquired.failed (AcquireError.adapter_from_session_failed e))
        × Shows id none (m.closed ++ session ∷ []) (acquire_spectra_adapter p cfg root id m).1
  unfolding acquire_spectra_adapter
  failed_spectra_closes cfg root id conn session m e named idle typ some_session opened fails =
      let i = increment-Shows id conn m.closed 0 m (record { pooled = idle; shut = refl }) in
      let d =
        release_last-Shows id conn m.closed 1 (increment_connection_ref_count id m).1 (omega arith)
          named i in
      let counted = increment_lem id (held conn 0) m idle in let t = eq_iff id "" in ground arith
