-- ===== src/Haproxy/Proxier/Listed.antt =====
-- GetServices on the frontends and the backends that syncProxyRules puts into haproxy.
use kube_haproxy.Prelude.{
  String, Bool, true, false, Option, none, some, List, [], ◌∷◌, ◌≡◌, refl, ap, subst, ◌∙◌, ◌+++◌,
  if◌then◌else◌, trim, string_eq, Bool-cases, inl, inr, ◌==◌, ==_iff, get, put, get-put, GoMap,
  IsNodup, EachEntry, EachEntry-of_get, to_lower, is_empty, ◌||◌,
}
use kube_haproxy.Controller.Service.{BaseServiceInfo}
use kube_haproxy.Haproxy.Types.{
  Backend, Frontend, Service, empty_backend, frontend_prefix, backend_prefix,
}
use kube_haproxy.Haproxy.Dataplane.{Dataplane}
use kube_haproxy.Haproxy.Handle.{services_of, index_backends}
use kube_haproxy.Haproxy.Operations.{get_services, get_backends, get_frontends}
use kube_haproxy.Haproxy.Sync.Entries.{same_prefix}
use kube_haproxy.Haproxy.Proxier.{Config, frontend_entry, haproxy_info}
use kube_haproxy.Haproxy.Proxier.Called.{backend_entry-name}
use kube_haproxy.Haproxy.Proxier.Names.{
  starts_outside, ends_outside, not_stats, trim-frontend_entry,
}

module _ (config : Config) where
  -- The services that a sync puts into haproxy, by their names there.
  abbrev pub Called : Type 0
  Called = GoMap String BaseServiceInfo

  abbrev pub frontends_for : Called → List Frontend
  frontends_for [] = []
  frontends_for ((name, info) ∷ m) = (haproxy_info config name info).frontend ∷ frontends_for m

  abbrev pub backends_for : Called → List Backend
  backends_for [] = []
  backends_for ((name, info) ∷ m) = (haproxy_info config name info).backend ∷ backends_for m

  abbrev pub service_for : String → BaseServiceInfo → Service
  service_for name info = record {
    name = name;
    frontend = (haproxy_info config name info).frontend;
    backend = (haproxy_info config name info).backend;
  }

  abbrev pub services_for : Called → List Service
  services_for [] = []
  services_for ((name, info) ∷ m) = service_for name info ∷ services_for m

  -- The first and the last character are none of F, R, O, N, T, E, D and the dot.
  abbrev pub Outside : String → BaseServiceInfo → Type 0
  Outside name info =
      (starts_outside frontend_prefix name ≡ true) × (ends_outside frontend_prefix name ≡ true)

  backend_name :
      (name : String) (info : BaseServiceInfo)
      → (haproxy_info config name info).backend.name ≡ backend_prefix +++ name
  unfolding haproxy_info
  backend_name name info = backend_entry-name config name (to_lower info.protocol)

  -- A put of a service's backend, seen at the name of a service's backend.
  put_backend :
      (j k : String) (info : BaseServiceInfo) (bs : GoMap String Backend)
      → (let b = (haproxy_info config j info).backend in
          get (backend_prefix +++ k) (put b.name b bs)
          ≡ (if j == k then some b else get (backend_prefix +++ k) bs))
  put_backend j k info bs =
      let b = (haproxy_info config j info).backend in
      let key = backend_prefix +++ k in
      get-put key b.name b bs
      ∙ ap (λ c. if c then some b else get key bs)
          (ap (λ n. n == key) (backend_name j info) ∙ same_prefix backend_prefix j k)

  index-other :
      (k : String) (m : Called) (bs : GoMap String Backend)
      → get k m ≡ none
      → get (backend_prefix +++ k) (index_backends (backends_for m) bs)
        ≡ get (backend_prefix +++ k) bs
  unfolding index_backends get
  index-other k [] bs h = refl
  index-other k ((j, info) ∷ m) bs h = elim (Bool-cases (j == k)) [
    | inl e ↦ cc (rw e at h)
    | inr e ↦
        let b = (haproxy_info config j info).backend in
        index-other k m (put b.name b bs) (rw e at h)
        ∙ put_backend j k info bs
        ∙ ap (λ c. if c then some b else get (backend_prefix +++ k) bs) e
  ]

  index-own :
      (k : String) (info : BaseServiceInfo) (m : Called) (bs : GoMap String Backend)
      → IsNodup m
      → get k m ≡ some info
      → get (backend_prefix +++ k) (index_backends (backends_for m) bs)
        ≡ some ((haproxy_info config k info).backend)
  unfolding index_backends get
  index-own k info [] bs d h = cc h
  index-own k info ((j, i) ∷ m) bs d h = elim (Bool-cases (j == k)) [
    | inl e ↦
        let b = (haproxy_info config j i).backend in
        let found : some i ≡ some info = rw e at h in
        let same : i ≡ info = cc in
        let j_is : j ≡ k = (==_iff j k).0 e in
        index-other k m (put b.name b bs) (subst (λ n. get n m ≡ none) j_is d.0)
        ∙ put_backend j k i bs
        ∙ ap (λ c. if c then some b else get (backend_prefix +++ k) bs) e
        ∙ ap (λ n. some ((haproxy_info config n i).backend)) j_is
        ∙ ap (λ o. some ((haproxy_info config k o).backend)) same
    | inr e ↦
        let b = (haproxy_info config j i).backend in
        index-own k info m (put b.name b bs) d.1 (rw e at h)
  ]

  -- One turn of the loop of GetServices.
  abbrev listed : Frontend → Bool → String → Option Backend → List Service → List Service
  listed f stats name backend rest =
      if stats
      then rest
      else record {
        name = name;
        frontend = f;
        backend = elim backend [ none ↦ empty_backend | some b ↦ b ];
      }
        ∷ rest

  services_of-called :
      (m : Called) (bs : GoMap String Backend)
      → EachEntry
          (λ name info.
            get (backend_prefix +++ name) bs ≡ some ((haproxy_info config name info).backend))
          m
      → EachEntry Outside m
      → services_of (frontends_for m) bs ≡ services_for m
  unfolding services_of haproxy_info frontend_entry
  services_of-called [] bs h o = refl
  services_of-called ((name, info) ∷ m) bs h o =
      let f = (haproxy_info config name info).frontend in
      let b = (haproxy_info config name info).backend in
      ap
        (λ stats.
          listed f stats (trim f.name frontend_prefix) (get f.default_backend bs)
            (services_of (frontends_for m) bs))
        (not_stats name)
      ∙ ap (λ n. listed f false n (get f.default_backend bs) (services_of (frontends_for m) bs))
          (trim-frontend_entry name (to_lower info.protocol) o.0.0 o.0.1)
      ∙ ap (λ found. listed f false name found (services_of (frontends_for m) bs)) h.0
      ∙ ap (listed f false name (some b)) (services_of-called m bs h.1 o.1)

  -- What GetServices makes of the two answers.
  abbrev listed_from : List Backend → List Frontend → List Service
  listed_from backends frontends =
      if is_empty frontends || is_empty backends
      then []
      else services_of frontends (index_backends backends [])

  all_listed :
      (m : Called)
      → IsNodup m
      → EachEntry Outside m
      → listed_from (backends_for m) (frontends_for m) ≡ services_for m
  all_listed [] d o = refl
  all_listed ((name, info) ∷ m) d o =
      services_of-called ((name, info) ∷ m) (index_backends (backends_for ((name, info) ∷ m)) [])
        (EachEntry-of_get _ ((name, info) ∷ m) d
          (λ k i found. index-own k i ((name, info) ∷ m) [] d found))
        o

  -- GetServices reads back what syncProxyRules puts into haproxy: where haproxy answers with just the
  -- frontends and the backends that services with different names call for, GetServices gives each
  -- service, under its name, with its own frontend and its own backend; for names whose first and last
  -- characters are none of F, R, O, N, T, E, D and the dot.
  pub get_services-called :
      (dp : Dataplane) (m : Called) (w w1 w2 : dp.World)
      → IsNodup m
      → EachEntry Outside m
      → get_backends dp w ≡ (backends_for m, w1)
      → get_frontends dp w1 ≡ (frontends_for m, w2)
      → get_services dp w ≡ (services_for m, w2)
  unfolding get_services
  get_services-called dp m w w1 w2 d o b f =
      ap
        (λ (r : List Backend × dp.World).
          let (frontends, w') = get_frontends dp r.1 in (listed_from r.0 frontends, w'))
        b
      ∙ ap (λ (r : List Frontend × dp.World). (listed_from (backends_for m) r.0, r.1)) f
      ∙ ap {B = List Service × dp.World} (λ services. (services, w2)) (all_listed m d o)
