-- ===== src/Controller/Endpoints/LocalIps.antt =====
-- controller/endpoints.go, getLocalEndpointIPs: the sets of addresses, described by themselves.
use kube_haproxy.Prelude.{
  String, Bool, true, false, Option, none, some, List, [], ◌∷◌, ◌==◌, ==_iff, if◌then◌else◌,
  Bool-cases, get, put, get-put, GoMap, ◌≡◌, refl, sym, ◌∙◌, ap, subst, string_eq, arith, inl, inr,
  ◌⊎◌, ◌↔◌, ◌&&◌, ◌||◌, In, here, there, In-cases, not_in_nil,
}
use kube_haproxy.Kube.{NamespacedName, namespaced_name_eq}
use kube_haproxy.External.{External}
use kube_haproxy.Api.{ServicePortName}
use kube_haproxy.Controller.Endpoint.{Endpoint, EndpointsMap, endpoint_string, get_is_local}
use kube_haproxy.Controller.Endpoints.{add_local_ips, get_local_endpoint_ips}

module _ (x : External) where
  open x.string_set use {
    Carrier as StringSet, contains as has, empty, add, contains-add, contains-empty,
  }

  abbrev pub Ips : Type 0
  Ips = GoMap NamespacedName StringSet

  -- Whether the address is in the set of the name, if it has one.
  abbrev pub holds : String → Option StringSet → Bool
  holds ip none = false
  holds ip (some s) = has ip s

  -- A local endpoint of the list with this address.
  pub record LocalAt (ip : String) (eps : List Endpoint) : Type 0 where
    pub ep : Endpoint
    pub listed : In ep eps
    pub local : get_is_local ep ≡ true
    pub is : x.ip_part (endpoint_string ep) ≡ ip

  -- A local endpoint with this address, of a port of the service in the map.
  pub record LocalEndpoint (nn : NamespacedName) (ip : String) (em : EndpointsMap) : Type 0 where
    pub key : ServicePortName
    pub eps : List Endpoint
    pub entry : In (key, eps) em
    pub is_of : key.namespaced_name ≡ nn
    pub found : LocalAt ip eps

  abbrev or_empty : Option StringSet → StringSet
  or_empty o = elim o [ none ↦ empty | some s ↦ s ]

  has-or_empty : (ip : String) (o : Option StringSet) → has ip (or_empty o) ≡ holds ip o
  has-or_empty ip none = contains-empty ip
  has-or_empty ip (some s) = refl

  holds-put :
      (nn nn' : NamespacedName) (ip a : String) (ips : Ips)
      → holds ip (get nn' (put nn (add a (or_empty (get nn ips))) ips))
        ≡ ((nn == nn' && ip == a) || holds ip (get nn' ips))
  holds-put nn nn' ip a ips =
      ap (holds ip) (get-put nn' nn (add a (or_empty (get nn ips))) ips)
      ∙ elim (Bool-cases (nn == nn')) [
        | inr h ↦ rw h refl
        | inl h ↦ rw h (
            contains-add ip a (or_empty (get nn ips))
            ∙ ap (λ b. ip == a || b)
                (has-or_empty ip (get nn ips)
                  ∙ ap (λ n. holds ip (get n ips)) ((==_iff nn nn').0 h)))
      ]

  -- The sets with the address of one endpoint, if it is local.
  abbrev with_local : NamespacedName → Endpoint → Ips → Ips
  with_local nn ep ips =
      if get_is_local ep
      then put nn (add (x.ip_part (endpoint_string ep)) (or_empty (get nn ips))) ips
      else ips

  holds-with_local :
      (nn nn' : NamespacedName) (ip : String) (ep : Endpoint) (ips : Ips)
      → holds ip (get nn' (with_local nn ep ips)) ≡ (
          (get_is_local ep && nn == nn' && ip == x.ip_part (endpoint_string ep))
          || holds ip (get nn' ips))
  holds-with_local nn nn' ip ep ips = elim (Bool-cases (get_is_local ep)) [
    | inr h ↦ rw (h, with_local) refl
    | inl h ↦ rw (h, with_local) (holds-put nn nn' ip (x.ip_part (endpoint_string ep)) ips)
  ]

  abbrev Added : NamespacedName → NamespacedName → String → List Endpoint → Ips → Type 0
  Added nn nn' ip eps ips = (holds ip (get nn' ips) ≡ true) ⊎ ((nn ≡ nn') × LocalAt ip eps)

  local_later :
      {ip : String} {eps : List Endpoint} (e : Endpoint) → LocalAt ip eps → LocalAt ip (e ∷ eps)
  local_later e l = record { ep = l.ep; listed = there l.listed; local = l.local; is = l.is }

  add_local_ips_sound :
      (nn nn' : NamespacedName) (ip : String) (eps : List Endpoint) (ips : Ips)
      → holds ip (get nn' (add_local_ips x nn eps ips)) ≡ true
      → Added nn nn' ip eps ips
  unfolding add_local_ips
  add_local_ips_sound nn nn' ip [] ips h = inl h
  add_local_ips_sound nn nn' ip (ep ∷ eps) ips h =
      elim (add_local_ips_sound nn nn' ip eps (with_local nn ep ips) h) [
        | inr (e, l) ↦ inr (e, local_later ep l)
        | inl g ↦ elim (Bool-cases (holds ip (get nn' ips))) [
          | inl old ↦ inl old
          | inr absent ↦
              let new = sym (holds-with_local nn nn' ip ep ips) ∙ g in
              inr (
                ground (arith, ==_iff nn nn'),
                record {
                  ep = ep;
                  listed = here refl;
                  local = ground arith;
                  is = ground (arith, ==_iff ip (x.ip_part (endpoint_string ep)));
                },
              )
        ]
      ]

  with_local-hit :
      (nn nn' : NamespacedName) (ip : String) (ep : Endpoint) (ips : Ips)
      → nn ≡ nn'
      → get_is_local ep ≡ true
      → x.ip_part (endpoint_string ep) ≡ ip
      → holds ip (get nn' (with_local nn ep ips)) ≡ true
  with_local-hit nn nn' ip ep ips e l i =
      holds-with_local nn nn' ip ep ips
      ∙ ground (arith, ==_iff nn nn', ==_iff ip (x.ip_part (endpoint_string ep)))

  add_local_ips_complete :
      (nn nn' : NamespacedName) (ip : String) (eps : List Endpoint) (ips : Ips)
      → Added nn nn' ip eps ips
      → holds ip (get nn' (add_local_ips x nn eps ips)) ≡ true
  unfolding add_local_ips
  add_local_ips_complete nn nn' ip [] ips (inl h) = h
  add_local_ips_complete nn nn' ip [] ips (inr (e, l)) = absurd (not_in_nil l.listed)
  add_local_ips_complete nn nn' ip (ep ∷ eps) ips (inl h) =
      add_local_ips_complete nn nn' ip eps (with_local nn ep ips)
        (inl (holds-with_local nn nn' ip ep ips ∙ ground arith))
  add_local_ips_complete nn nn' ip (ep ∷ eps) ips (inr (e, l)) = elim (In-cases l.listed) [
    | inr i ↦
        add_local_ips_complete nn nn' ip eps (with_local nn ep ips)
          (inr (e, record { ep = l.ep; listed = i; local = l.local; is = l.is }))
    | inl same ↦ add_local_ips_complete nn nn' ip eps (with_local nn ep ips) (
        inl (
          with_local-hit nn nn' ip ep ips e (sym (ap get_is_local same) ∙ l.local)
            (sym (ap (λ d. x.ip_part (endpoint_string d)) same) ∙ l.is)))
  ]

  entry_later :
      {nn : NamespacedName} {ip : String} {em : EndpointsMap} (e : ServicePortName × List Endpoint)
      → LocalEndpoint nn ip em
      → LocalEndpoint nn ip (e ∷ em)
  entry_later e l = record {
    key = l.key;
    eps = l.eps;
    entry = there l.entry;
    is_of = l.is_of;
    found = l.found;
  }

  -- getLocalEndpointIPs has an address in the set of a service if and only if some port of the service
  -- in the map has a local endpoint with that address.
  pub get_local_endpoint_ips_iff :
      (nn : NamespacedName) (ip : String) (em : EndpointsMap)
      → (holds ip (get nn (get_local_endpoint_ips x em)) ≡ true) ↔ LocalEndpoint nn ip em
  unfolding get_local_endpoint_ips get
  get_local_endpoint_ips_iff nn ip [] = (λ h. cc h, λ l. absurd (not_in_nil l.entry))
  get_local_endpoint_ips_iff nn ip ((k, eps) ∷ em) =
      let ips = get_local_endpoint_ips x em in
      let ih = get_local_endpoint_ips_iff nn ip em in
      (
        λ h. elim (add_local_ips_sound k.namespaced_name nn ip eps ips h) [
          | inl old ↦ entry_later (k, eps) (ih.0 old)
          | inr (e, l) ↦ record { key = k; eps = eps; entry = here refl; is_of = e; found = l }
        ],
        λ l. elim (In-cases l.entry) [
          | inr i ↦ add_local_ips_complete k.namespaced_name nn ip eps ips (
              inl (
                ih.1 (record {
                  key = l.key;
                  eps = l.eps;
                  entry = i;
                  is_of = l.is_of;
                  found = l.found;
                })))
          | inl same ↦ add_local_ips_complete k.namespaced_name nn ip eps ips (
              inr (
                sym (ap (λ (e : ServicePortName × List Endpoint). e.0.namespaced_name) same)
                    ∙ l.is_of,
                subst (LocalAt ip) (ap (λ (e : ServicePortName × List Endpoint). e.1) same) l.found,
              ))
        ],
      )
