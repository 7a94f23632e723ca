-- ===== src/Manager/Sources/Sorted.antt =====
-- What ListSources of pkg/fs/manager.go lists, and in which order.
use mathlib.Core.List.{Perm}
use mathlib.Core.List.Perm
use sylos_fs.Base.{
  ℕ, ◌+◌, String, List, [], ◌∷◌, ◌++◌, true, false, Option, none, some, Answer, ok, err,
  if◌then◌else◌, Bool-cases, Option-cases, inl, inr, ◌≡◌, refl, sym, subst, ap, ◌∙◌, arith,
  append-nil, append_assoc,
}
use sylos_fs.Manager.Connections.{ServiceType}
use sylos_fs.Manager.Acquire.{ServiceDefinition}
use sylos_fs.Manager.Sources.{
  Source, Gathered, root_metadata, source_of, config_path_of, gather_service, spectra_source,
  with_spectra, less, insert_source, sort_sources, gather, sorted_sources, list_sources,
}

less-asym : (s t : String) → less s t ≡ true → less t s ≡ false
unfolding less
less-asym String.[] String.[] h = refl
less-asym String.[] (String.◌∷◌ d t) h = refl
less-asym (String.◌∷◌ c s) String.[] h = absurd (cc h)
less-asym (String.◌∷◌ c s) (String.◌∷◌ d t) h = ground (arith, less-asym s t, h)

-- The name of the first source of the list is not less than that of s.
abbrev pub Follows : Source → List Source → Type 0
Follows s [] = Unit {0}
Follows s (t ∷ l) = less t.display_name s.display_name ≡ false

-- Each source follows the one before it.
pub data Ascending : List Source → Type 0 where
  no_source : Ascending []
  ascends : {s : Source} {l : List Source} → Follows s l → Ascending l → Ascending (s ∷ l)

insert_source-Follows :
    (t s : Source) (l : List Source)
    → less s.display_name t.display_name ≡ false
    → Follows t l
    → Follows t (insert_source s l)
unfolding insert_source
insert_source-Follows t s [] after f = after
insert_source-Follows t s (u ∷ l) after f = elim (Bool-cases (less s.display_name u.display_name)) [
  | inl before ↦ rw before after
  | inr later ↦ rw later f
]

insert_source-Ascending :
    (s : Source) (l : List Source) → Ascending l → Ascending (insert_source s l)
unfolding insert_source
insert_source-Ascending s [] a = ascends tt no_source
insert_source-Ascending s (t ∷ l) (ascends f a) =
    elim (Bool-cases (less s.display_name t.display_name)) [
      | inl before ↦
          rw before (ascends (less-asym s.display_name t.display_name before) (ascends f a))
      | inr after ↦
          rw after (ascends (insert_source-Follows t s l after f) (insert_source-Ascending s l a))
    ]

sort_sources-Ascending : (l : List Source) → Ascending (sort_sources l)
unfolding sort_sources
sort_sources-Ascending [] = no_source
sort_sources-Ascending (s ∷ l) =
    insert_source-Ascending s (sort_sources l) (sort_sources-Ascending l)

insert_source-Perm : (s : Source) (l : List Source) → Perm (insert_source s l) (s ∷ l)
unfolding insert_source
insert_source-Perm s [] = Perm.refl (s ∷ [])
insert_source-Perm s (t ∷ l) = elim (Bool-cases (less s.display_name t.display_name)) [
  | inl before ↦ rw before (Perm.refl (s ∷ t ∷ l))
  | inr after ↦ rw after (Perm.trans (Perm.cons t (insert_source-Perm s l)) (Perm.swap s t l))
]

sort_sources-Perm : (l : List Source) → Perm (sort_sources l) l
unfolding sort_sources
sort_sources-Perm [] = Perm.refl []
sort_sources-Perm (s ∷ l) =
    Perm.trans (insert_source-Perm s (sort_sources l)) (Perm.cons s (sort_sources-Perm l))

-- The entry of a service of its own: each local one, and each cloud one with a configuration.
abbrev pub cloud_source : ServiceDefinition → Option String → List Source
cloud_source svc none = []
cloud_source svc (some provider) = source_of svc (("providerId", provider) ∷ []) ∷ []

abbrev pub own_source : ServiceType → ServiceDefinition → List Source
own_source ServiceType.local svc = source_of svc (root_metadata svc.local_root) ∷ []
own_source ServiceType.spectra svc = []
own_source ServiceType.cloud svc = cloud_source svc svc.cloud_provider

abbrev pub own_sources : List (String × ServiceDefinition) → List Source
own_sources [] = []
own_sources ((id, svc) ∷ services) = own_source svc.type svc ++ own_sources services

-- The configuration path of the first Spectra service, if there is one.
abbrev pub spectra_or : ServiceType → ServiceDefinition → Option String → Option String
spectra_or ServiceType.spectra svc later = some (config_path_of svc.spectra)
spectra_or _ svc later = later

abbrev pub first_spectra : List (String × ServiceDefinition) → Option String
first_spectra [] = none
first_spectra ((id, svc) ∷ services) = spectra_or svc.type svc (first_spectra services)

abbrev pub shared_source : Option String → List Source
shared_source none = []
shared_source (some path) = spectra_source path ∷ []

-- Of the services that have been gathered, and then those still to come.
abbrev spectra_seen : Gathered → Option String → Option String
spectra_seen g later = if g.has_spectra then some g.spectra_config_path else later

with_spectra-seen :
    (g : Gathered) → with_spectra g ≡ (g.sources ++ []) ++ shared_source (spectra_seen g none)
with_spectra-seen g = elim (Bool-cases g.has_spectra) [
  | inl seen ↦ rw (seen, append-nil g.sources) refl
  | inr unseen ↦ rw (unseen, append-nil g.sources) (sym (append-nil g.sources))
]

gather_service-sources :
    (typ : ServiceType) (svc : ServiceDefinition) (g : Gathered) (l : List Source)
    → (gather_service typ svc g).sources ++ l ≡ g.sources ++ (own_source typ svc ++ l)
gather_service-sources ServiceType.local svc g l =
    append_assoc g.sources (own_source ServiceType.local svc) l
gather_service-sources ServiceType.spectra svc g l = elim (Bool-cases g.has_spectra) [
  | inl seen ↦ rw seen refl
  | inr unseen ↦ rw unseen refl
]
gather_service-sources ServiceType.cloud svc g l = elim (Option-cases svc.cloud_provider) [
  | inl missing ↦ rw missing refl
  | inr (provider, given) ↦ rw given (append_assoc g.sources (cloud_source svc (some provider)) l)
]

gather_service-seen :
    (typ : ServiceType) (svc : ServiceDefinition) (g : Gathered) (later : Option String)
    → spectra_seen (gather_service typ svc g) later ≡ spectra_seen g (spectra_or typ svc later)
gather_service-seen ServiceType.local svc g later = refl
gather_service-seen ServiceType.spectra svc g later = elim (Bool-cases g.has_spectra) [
  | inl seen ↦ rw seen refl
  | inr unseen ↦ rw unseen refl
]
gather_service-seen ServiceType.cloud svc g later = elim (Option-cases svc.cloud_provider) [
  | inl missing ↦ rw missing refl
  | inr (provider, given) ↦ rw given refl
]

module _ {E : Type 0} (ctx_err : ℕ → Option E) where
  gather-with_spectra :
      (n : ℕ) (services : List (String × ServiceDefinition)) (g r : Gathered)
      → gather ctx_err n services g ≡ ok r
      → with_spectra r
        ≡ (g.sources ++ own_sources services)
          ++ shared_source (spectra_seen g (first_spectra services))
  unfolding gather
  gather-with_spectra n [] g r h =
      let same : g ≡ r = cc h in ap with_spectra (sym same) ∙ with_spectra-seen g
  gather-with_spectra n ((id, svc) ∷ services) g r h = elim (Option-cases (ctx_err n)) [
    | inr (e, done) ↦ absurd (cc (rw (gather, done) at h))
    | inl live ↦
        let g' = gather_service svc.type svc g in
        let later = first_spectra services in
        let own = own_sources services in
        gather-with_spectra (n + 1) services g' r (rw (gather, live) at h)
        ∙ ap (λ l. l ++ shared_source (spectra_seen g' later))
            (gather_service-sources svc.type svc g own)
        ∙ ap (λ p. (g.sources ++ (own_source svc.type svc ++ own)) ++ shared_source p)
            (gather_service-seen svc.type svc g later)
  ]

  sorted_sources-ok :
      (a : Answer E Gathered) (listed : List Source)
      → sorted_sources ctx_err a ≡ ok listed
      → (g : Gathered) × (a ≡ ok g) × (listed ≡ sort_sources (with_spectra g))
  sorted_sources-ok (ok g) listed h = (g, refl, cc h)
  sorted_sources-ok (err e) listed h = absurd (cc h)

  -- When ListSources returns no error, what it lists is in the order of the display names, and is,
  -- in some order, one entry for each local service and each cloud service that has a
  -- configuration, and one entry for all Spectra services together, with the configuration path of
  -- the first one, if there is any.
  pub list_sources-Perm :
      (services : List (String × ServiceDefinition)) (listed : List Source)
      → list_sources ctx_err services ≡ ok listed
      → Ascending listed
        × Perm listed (own_sources services ++ shared_source (first_spectra services))
  unfolding list_sources
  list_sources-Perm services listed h =
      let (g, gathered, e) = sorted_sources-ok (gather ctx_err 0 services _) listed h in
      let all = gather-with_spectra 0 services _ g gathered in
      (
        subst Ascending (sym e) (sort_sources-Ascending (with_spectra g)),
        subst (λ l. Perm l (own_sources services ++ shared_source (first_spectra services))) (sym e)
            (subst (λ l. Perm (sort_sources (with_spectra g)) l) all
              (sort_sources-Perm (with_spectra g))),
      )
