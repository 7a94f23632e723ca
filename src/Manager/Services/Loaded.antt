-- ===== src/Manager/Services/Loaded.antt =====
-- What LoadServices of pkg/fs/manager.go leaves in the service map.
use sylos_fs.Base.{
  String, str_eq, eq_iff, List, [], ◌∷◌, ◌++◌, map, false, Option, none, some, Answer, ok, err,
  Bool-cases, inl, inr, if◌then◌else◌, ◌≡◌, refl, sym, ap, ◌∙◌, arith,
}
use sylos_fs.Base.Dict.{lookup-insert}
use sylos_fs.Manager.Acquire.{ServiceDefinition}
use sylos_fs.Manager.Services.{
  LocalServiceConfig, SpectraServiceConfig, CloudServiceConfig, LoadError, Services, get_service,
  set_service, local_definition, spectra_definition, cloud_definition, load_next, load_each,
  unless_failed, load_cloud_services, load_services, local_with, spectra_with,
}

-- The answers up to the first error, and that error.
abbrev pub before_error : {E A : Type 0} → List (Answer E A) → List A
before_error [] = []
before_error (ok a ∷ rest) = a ∷ before_error rest
before_error (err e ∷ rest) = []

abbrev pub first_error : {E A : Type 0} → List (Answer E A) → Option E
first_error [] = none
first_error (ok a ∷ rest) = first_error rest
first_error (err e ∷ rest) = some e

-- The last definition with the id, or what was there.
abbrev pub latest :
    String → List ServiceDefinition → Option ServiceDefinition → Option ServiceDefinition
latest id [] found = found
latest id (def ∷ defs) found = latest id defs (if str_eq def.id id then some def else found)

failed-append :
    {E A : Type 0} (first second : List (Answer E A)) (e : E)
    → first_error first ≡ some e
    → (first_error (first ++ second) ≡ some e)
      × (before_error (first ++ second) ≡ before_error first)
failed-append [] second e h = absurd (cc h)
failed-append (ok a ∷ first) second e h =
    let (error, before) = failed-append first second e h in (error, ap (λ l. a ∷ l) before)
failed-append (err f ∷ first) second e h = (h, refl)

passed-append :
    {E A : Type 0} (first second : List (Answer E A))
    → first_error first ≡ none
    → (first_error (first ++ second) ≡ first_error second)
      × (before_error (first ++ second) ≡ before_error first ++ before_error second)
passed-append [] second h = (refl, refl)
passed-append (ok a ∷ first) second h =
    let (error, before) = passed-append first second h in (error, ap (λ l. a ∷ l) before)
passed-append (err f ∷ first) second h = absurd (cc h)

latest-append :
    (id : String) (xs ys : List ServiceDefinition) (found : Option ServiceDefinition)
    → latest id (xs ++ ys) found ≡ latest id ys (latest id xs found)
latest-append id [] ys found = refl
latest-append id (x ∷ xs) ys found =
    latest-append id xs ys (if str_eq x.id id then some x else found)

get_service-set_service :
    (key id : String) (def : ServiceDefinition) (m : Services)
    → get_service (set_service key def m) id
      ≡ (if str_eq key id then some def else get_service m id)
unfolding get_service set_service
get_service-set_service key id def m = lookup-insert key id def m

module _ {E : Type 0} (abs : String → Answer E String) where
  -- What every definition of the three lists is, in the order of LoadServices.
  abbrev pub definitions :
      List LocalServiceConfig
      → List SpectraServiceConfig
      → List CloudServiceConfig
      → List (Answer (LoadError E) ServiceDefinition)
  definitions locals spectras clouds =
      (map (local_definition abs) locals ++ map (spectra_definition abs) spectras)
      ++ map (cloud_definition abs) clouds

  -- An answer of the loops, as these definitions give it.
  abbrev Explains :
      List (Answer (LoadError E) ServiceDefinition)
      → Services
      → Option (LoadError E) × Services
      → Type 0
  Explains answers m r =
      (r.0 ≡ first_error answers)
      × ((id : String) → get_service r.1 id ≡ latest id (before_error answers) (get_service m id))

  load_each-Explains :
      {C : Type 0} (make : C → Answer (LoadError E) ServiceDefinition) (svcs : List C)
      (m : Services)
      → Explains (map make svcs) m (load_each abs make svcs m)
  unfolding load_each
  load_each-Explains make [] m = (refl, λ id. refl)
  load_each-Explains {C} make (svc ∷ svcs) m = go (make svc) (λ n. load_each-Explains make svcs n)
    where
      go :
          (a : Answer (LoadError E) ServiceDefinition)
          → ((n : Services) → Explains (map make svcs) n (load_each abs make svcs n))
          → Explains (a ∷ map make svcs) m (load_next abs a (load_each abs make svcs) m)
      go (err e) ih = (refl, λ id. refl)
      go (ok def) ih =
          let (error, found) = ih (set_service def.id def m) in
          (
            error,
            λ id.
                found id
                ∙ ap (latest id (before_error (map make svcs)))
                    (get_service-set_service def.id id def m),
          )

  then-Explains :
      (first second : List (Answer (LoadError E) ServiceDefinition))
      (next : Services → Option (LoadError E) × Services) (m : Services)
      (r : Option (LoadError E) × Services)
      → Explains first m r
      → ((n : Services) → Explains second n (next n))
      → Explains (first ++ second) m (unless_failed abs next r)
  then-Explains first second next m (some e, n) (error, found) k =
      let (same, before) = failed-append first second e (sym error) in
      (sym same, λ id. found id ∙ ap (λ l. latest id l (get_service m id)) (sym before))
  then-Explains first second next m (none, n) (error, found) k =
      let (same, before) = passed-append first second (sym error) in
      let (later, finds) = k n in
      (
        later ∙ sym same,
        λ id.
            finds id
            ∙ ap (latest id (before_error second)) (found id)
            ∙ sym (latest-append id (before_error first) (before_error second) (get_service m id))
            ∙ ap (λ l. latest id l (get_service m id)) (sym before),
      )

  -- LoadServices returns the error of the first service, in the order local, Spectra, cloud, that
  -- cannot be defined, if there is one. Under every id it then finds the last of
  -- the services before that one with this id, and what was there before if there is none.
  pub load_services-latest :
      (locals : List LocalServiceConfig) (spectras : List SpectraServiceConfig)
      (clouds : List CloudServiceConfig) (m : Services)
      → let (error, m') = load_services abs locals spectras clouds m in
        let answers = definitions locals spectras clouds in
        (error ≡ first_error answers)
        × ((id : String) → get_service m' id ≡ latest id (before_error answers) (get_service m id))
  unfolding load_services load_cloud_services
  load_services-latest locals spectras clouds m =
      let first = map (local_definition abs) locals in
      let second = map (spectra_definition abs) spectras in
      let third = map (cloud_definition abs) clouds in
      let rs = load_each abs (local_definition abs) locals m in
      then-Explains (first ++ second) third (load_each abs (cloud_definition abs) clouds) m
        (unless_failed abs (load_each abs (spectra_definition abs) spectras) rs)
        (then-Explains first second (load_each abs (spectra_definition abs) spectras) m rs
          (load_each-Explains (local_definition abs) locals m)
          (load_each-Explains (spectra_definition abs) spectras))
        (load_each-Explains (cloud_definition abs) clouds)

-- Every service stands under its own id, which is not empty, and has a name.
pub record Keyed (m : Services) : Type 0 where
  pub own_id : (id : String) (def : ServiceDefinition) → get_service m id ≡ some def → def.id ≡ id
  pub identified :
      (id : String) (def : ServiceDefinition)
      → get_service m id ≡ some def
      → str_eq def.id "" ≡ false
  pub named :
      (id : String) (def : ServiceDefinition)
      → get_service m id ≡ some def
      → str_eq def.name "" ≡ false

-- A definition that LoadServices makes.
record Proper (def : ServiceDefinition) : Type 0 where
  identified : str_eq def.id "" ≡ false
  named : str_eq def.name "" ≡ false

set_service-Keyed :
    (def : ServiceDefinition) (m : Services)
    → Proper def
    → Keyed m
    → Keyed (set_service def.id def m)
set_service-Keyed def m p k = record {
  own_id = λ id d h.
      ground (arith, eq_iff def.id id, get_service-set_service def.id id def m, k.own_id id d, h);
  identified = λ id d h.
      ground (arith, get_service-set_service def.id id def m, k.identified id d, p.identified, h);
  named =
      λ id d h. ground (arith, get_service-set_service def.id id def m, k.named id d, p.named, h);
}

module _ {E : Type 0} (abs : String → Answer E String) where
  local_with-Proper :
      (svc : LocalServiceConfig) (r : Answer (LoadError E) String) (def : ServiceDefinition)
      → str_eq svc.id "" ≡ false
      → local_with abs svc r ≡ ok def
      → Proper def
  local_with-Proper svc (err e) def given h = absurd (cc h)
  local_with-Proper svc (ok root) def given h = record {
    identified = ground (arith, h);
    named = ground (arith, h);
  }

  spectra_with-Proper :
      (svc : SpectraServiceConfig) (r : Answer (LoadError E) String) (def : ServiceDefinition)
      → str_eq svc.id "" ≡ false
      → spectra_with abs svc r ≡ ok def
      → Proper def
  spectra_with-Proper svc (err e) def given h = absurd (cc h)
  spectra_with-Proper svc (ok root) def given h = record {
    identified = ground (arith, h);
    named = ground (arith, h);
  }

  local_definition-Proper :
      (svc : LocalServiceConfig) (def : ServiceDefinition)
      → local_definition abs svc ≡ ok def
      → Proper def
  unfolding local_definition
  local_definition-Proper svc def h = elim (Bool-cases (str_eq svc.id "")) [
    | inl missing ↦ absurd (cc (rw missing at h))
    | inr given ↦ local_with-Proper svc _ def given (rw given at h)
  ]

  spectra_definition-Proper :
      (svc : SpectraServiceConfig) (def : ServiceDefinition)
      → spectra_definition abs svc ≡ ok def
      → Proper def
  unfolding spectra_definition
  spectra_definition-Proper svc def h = elim (Bool-cases (str_eq svc.id "")) [
    | inl missing ↦ absurd (cc (rw missing at h))
    | inr given ↦ elim (Bool-cases (str_eq svc.config_path "")) [
      | inl without ↦ absurd (cc (rw (given, without) at h))
      | inr configured ↦ spectra_with-Proper svc _ def given (rw (given, configured) at h)
    ]
  ]

  cloud_definition-Proper :
      (svc : CloudServiceConfig) (def : ServiceDefinition)
      → cloud_definition abs svc ≡ ok def
      → Proper def
  unfolding cloud_definition
  cloud_definition-Proper svc def h = record {
    identified = ground (arith, h);
    named = ground (arith, h);
  }

  load_each-Keyed :
      {C : Type 0} (make : C → Answer (LoadError E) ServiceDefinition) (svcs : List C)
      (m : Services)
      → ((svc : C) (def : ServiceDefinition) → make svc ≡ ok def → Proper def)
      → Keyed m
      → Keyed (load_each abs make svcs m).1
  unfolding load_each
  load_each-Keyed make [] m proper k = k
  load_each-Keyed make (svc ∷ svcs) m proper k =
      go (make svc) (proper svc) (λ n. load_each-Keyed make svcs n proper)
    where
      go :
          (a : Answer (LoadError E) ServiceDefinition)
          → ((def : ServiceDefinition) → a ≡ ok def → Proper def)
          → ((n : Services) → Keyed n → Keyed (load_each abs make svcs n).1)
          → Keyed (load_next abs a (load_each abs make svcs) m).1
      go (err e) p ih = k
      go (ok def) p ih = ih (set_service def.id def m) (set_service-Keyed def m (p def refl) k)

  then-Keyed :
      (next : Services → Option (LoadError E) × Services) (r : Option (LoadError E) × Services)
      → Keyed r.1
      → ((n : Services) → Keyed n → Keyed (next n).1)
      → Keyed (unless_failed abs next r).1
  then-Keyed next (none, n) k step = step n k
  then-Keyed next (some e, n) k step = k

  -- LoadServices keeps every service under its own id, not empty and with a name, whether it fails
  -- or not.
  pub load_services-Keyed :
      (locals : List LocalServiceConfig) (spectras : List SpectraServiceConfig)
      (clouds : List CloudServiceConfig) (m : Services)
      → Keyed m
      → Keyed (load_services abs locals spectras clouds m).1
  unfolding load_services load_cloud_services
  load_services-Keyed locals spectras clouds m k =
      then-Keyed (load_each abs (cloud_definition abs) clouds) _
        (then-Keyed (load_each abs (spectra_definition abs) spectras) _
          (load_each-Keyed (local_definition abs) locals m local_definition-Proper k)
          (λ n. load_each-Keyed (spectra_definition abs) spectras n spectra_definition-Proper))
        (λ n. load_each-Keyed (cloud_definition abs) clouds n cloud_definition-Proper)
