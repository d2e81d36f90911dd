-- ===== src/Controller/Checkout/Offered.antt =====
-- controller/endpointsslice.go, getEndpointsMap: which service port names get an entry.
use kube_haproxy.Prelude.{
  ℕ, String, Bool, true, false, not, Option, none, some, List, [], ◌∷◌, DecEq, ◌==◌, ==_iff,
  if◌then◌else◌, if_keeps, Bool-cases, is_some, is_empty, get, put, subst, get-put, put-IsNodup,
  IsNodup, GoMap, NilMap, ◌&&◌, ◌||◌, ◌≡◌, refl, sym, ◌∙◌, ap, string_eq, nat_eq, inl, inr, arith,
  map,
}
use kube_haproxy.Kube.{NamespacedName, namespaced_name_eq, SlicePort}
use kube_haproxy.Api.{ServicePortName, service_port_name_eq}
use kube_haproxy.External.{External}
use kube_haproxy.Controller.Endpoint.{wrong_ip_version}
use kube_haproxy.Controller.Slices.{
  EndpointInfo, EndpointSliceInfo, EndpointSliceInfoByName, EndpointSliceCache, sort_by, ip_less,
}
use kube_haproxy.Controller.Checkout.{
  EndpointsByIp, SpToEndpointMap, add_endpoints_by_ip, add_by_ip, add_slice_ports, by_ip_or_new,
  service_port_name, endpoint_info_by_service_port, endpoints_map_from_endpoint_info,
  get_endpoints_map, is_local, hostname_label,
}
use kube_haproxy.Controller.Checkout.Mapping.{port_added}

abbrev pub any : {A : Type 0} → (A → Bool) → List A → Bool
any p [] = false
any p (a ∷ rest) = p a || any p rest

put_filled :
    {K V : Type 0} ⦃e : DecEq K⦄ → (k : K) (v : V) (m : GoMap K V) → is_empty (put k v m) ≡ false
unfolding put
put_filled k v [] = refl
put_filled k v ((j, w) ∷ m) = ground (arith)

get_filled :
    {K V : Type 0} ⦃e : DecEq K⦄
    → (k : K) (m : GoMap K V) → is_some (get k m) ≡ true
    → is_empty m ≡ false
unfolding get
get_filled k [] h = cc h
get_filled k (a ∷ m) h = refl

module _ (x : External) (cache : EndpointSliceCache) where
  -- The first address of an endpoint is there, and of the cache's family.
  abbrev pub is_usable : EndpointInfo → Bool
  is_usable e = elim e.addresses [
    | [] ↦ false
    | ip ∷ _ ↦ not (wrong_ip_version x cache.is_ipv6_mode ip)
  ]

  -- A port has a name and a number that is not 0, and goes by the service port name `k`.
  abbrev pub matches : NamespacedName → ServicePortName → SlicePort → Bool
  matches nn k port = elim port.name [
    | none ↦ false
    | some name ↦ elim port.port [
      | none ↦ false
      | some number ↦ not (number == 0) && service_port_name nn name port.protocol == k
    ]
  ]

  -- A slice offers `k`: it has such a port, and an endpoint that can be used.
  abbrev pub offers : NamespacedName → ServicePortName → String × EndpointSliceInfo → Bool
  offers nn k entry = any (matches nn k) entry.1.ports && any is_usable entry.1.endpoints

  add_by_ip_filled :
      (n : ℕ) (ip : String) (topology : NilMap String String) (by_ip : EndpointsByIp)
      → is_empty (add_by_ip x cache n ip topology by_ip) ≡ false
  add_by_ip_filled n ip topology by_ip =
      let key = x.ip_part (x.join_host_port ip n) in
      elim (Bool-cases (is_some (get key by_ip))) [
        | inl s ↦ elim (Bool-cases (is_local cache (hostname_label topology))) [
          | inl l ↦ rw (s, l) (put_filled key _ by_ip)
          | inr l ↦ rw (s, l) (get_filled key by_ip s)
        ]
        | inr s ↦ rw s (put_filled key _ by_ip)
      ]

  first_added :
      (n : ℕ) (e : EndpointInfo) (addresses : List String) (by_ip : EndpointsByIp)
      → is_empty (elim addresses as (λ _. EndpointsByIp) [
        | [] ↦ by_ip
        | ip ∷ _ ↦
            if wrong_ip_version x cache.is_ipv6_mode ip
            then by_ip
            else add_by_ip x cache n ip e.topology by_ip
      ])
        ≡ (is_empty by_ip
            && not (elim addresses as (λ _. Bool) [
              | [] ↦ false
              | ip ∷ _ ↦ not (wrong_ip_version x cache.is_ipv6_mode ip)
            ]))
  first_added n e [] by_ip = ground arith
  first_added n e (ip ∷ _) by_ip = elim (Bool-cases (wrong_ip_version x cache.is_ipv6_mode ip)) [
    | inl w ↦ rw w (ground arith)
    | inr w ↦ rw w (add_by_ip_filled n ip e.topology by_ip ∙ ground arith)
  ]

  by_ip_filled :
      (n : ℕ) (eps : List EndpointInfo) (by_ip : EndpointsByIp)
      → is_empty (add_endpoints_by_ip x cache n by_ip eps)
        ≡ (is_empty by_ip && not (any is_usable eps))
  unfolding add_endpoints_by_ip
  by_ip_filled n [] by_ip = ground arith
  by_ip_filled n (e ∷ eps) by_ip =
      by_ip_filled n eps _
      ∙ ap (λ b. b && not (any is_usable eps)) (first_added n e e.addresses by_ip)
      ∙ ground arith

  abbrev filled : Option EndpointsByIp → Bool
  filled o = not (is_empty (elim o [ none ↦ [] | some by_ip ↦ by_ip ]))

  -- A service port name has endpoints.
  abbrev served : ServicePortName → SpToEndpointMap → Bool
  served k by_sp = filled (get k by_sp)

  served-put :
      (k j : ServicePortName) (by_ip : EndpointsByIp) (by_sp : SpToEndpointMap)
      → served k (put j by_ip by_sp) ≡ (if j == k then not (is_empty by_ip) else served k by_sp)
  served-put k j by_ip by_sp = ap filled (get-put k j by_ip by_sp) ∙ choice (j == k)
    where
      choice :
          (b : Bool)
          → filled (if b then some by_ip else get k by_sp)
            ≡ (if b then not (is_empty by_ip) else served k by_sp)
      choice true = refl
      choice false = refl

  abbrev named : NamespacedName → ServicePortName → String → Option String → Option ℕ → Bool
  named nn k protocol port_name port_number = elim port_name [
    | none ↦ false
    | some name ↦ elim port_number [
      | none ↦ false
      | some number ↦ not (number == 0) && service_port_name nn name protocol == k
    ]
  ]

  added_here :
      (k j : ServicePortName) (n : ℕ) (eps : List EndpointInfo) (by_sp : SpToEndpointMap)
      → served k (put j (add_endpoints_by_ip x cache n (by_ip_or_new x j by_sp) eps) by_sp)
        ≡ (served k by_sp || (j == k && any is_usable eps))
  added_here k j n eps by_sp = elim (Bool-cases (j == k)) [
    | inl e ↦
        let same : served j by_sp ≡ served k by_sp = ap (λ i. served i by_sp) ((==_iff j k).0 e) in
        served-put k j _ by_sp
        ∙ rw e (ap not (by_ip_filled n eps (by_ip_or_new x j by_sp)) ∙ rw (← same) (ground arith))
    | inr e ↦ served-put k j _ by_sp ∙ rw e (ground arith)
  ]

  port-served :
      (nn : NamespacedName) (k : ServicePortName) (eps : List EndpointInfo) (protocol : String)
      (by_sp : SpToEndpointMap) (name : Option String) (number : Option ℕ)
      → served k (port_added x cache nn eps protocol by_sp name number)
        ≡ (served k by_sp || (named nn k protocol name number && any is_usable eps))
  port-served nn k eps protocol by_sp none number = ground arith
  port-served nn k eps protocol by_sp (some name) none = ground arith
  port-served nn k eps protocol by_sp (some name) (some number) = elim (Bool-cases (number == 0)) [
    | inl z ↦ rw z (ground arith)
    | inr z ↦
        rw z (added_here k (service_port_name nn name protocol) number eps by_sp ∙ ground arith)
  ]

  ports-served :
      (nn : NamespacedName) (k : ServicePortName) (eps : List EndpointInfo) (ports : List SlicePort)
      (by_sp : SpToEndpointMap)
      → served k (add_slice_ports x cache nn eps ports by_sp)
        ≡ (served k by_sp || (any (matches nn k) ports && any is_usable eps))
  unfolding add_slice_ports
  ports-served nn k eps [] by_sp = ground arith
  ports-served nn k eps (port ∷ ports) by_sp =
      ports-served nn k eps ports _
      ∙ ap (λ b. b || (any (matches nn k) ports && any is_usable eps))
          (port-served nn k eps port.protocol by_sp port.name port.port)
      ∙ ground arith

  infos-served :
      (nn : NamespacedName) (k : ServicePortName) (infos : EndpointSliceInfoByName)
      → served k (endpoint_info_by_service_port x cache nn infos) ≡ any (offers nn k) infos
  unfolding endpoint_info_by_service_port get
  infos-served nn k [] = refl
  infos-served nn k ((name, info) ∷ infos) =
      ports-served nn k info.endpoints info.ports _
      ∙ ap (λ b. b || (any (matches nn k) info.ports && any is_usable info.endpoints))
          (infos-served nn k infos)
      ∙ ground arith

  port-IsNodup :
      (nn : NamespacedName) (eps : List EndpointInfo) (protocol : String) (by_sp : SpToEndpointMap)
      (name : Option String) (number : Option ℕ)
      → IsNodup by_sp
      → IsNodup (port_added x cache nn eps protocol by_sp name number)
  port-IsNodup nn eps protocol by_sp none number d = d
  port-IsNodup nn eps protocol by_sp (some name) none d = d
  port-IsNodup nn eps protocol by_sp (some name) (some number) d =
      if_keeps IsNodup (number == 0) _ _ d (put-IsNodup _ _ by_sp d)

  ports-IsNodup :
      (nn : NamespacedName) (eps : List EndpointInfo) (ports : List SlicePort)
      (by_sp : SpToEndpointMap)
      → IsNodup by_sp
      → IsNodup (add_slice_ports x cache nn eps ports by_sp)
  unfolding add_slice_ports
  ports-IsNodup nn eps [] by_sp d = d
  ports-IsNodup nn eps (port ∷ ports) by_sp d =
      ports-IsNodup nn eps ports _ (port-IsNodup nn eps port.protocol by_sp port.name port.port d)

  infos-IsNodup :
      (nn : NamespacedName) (infos : EndpointSliceInfoByName)
      → IsNodup (endpoint_info_by_service_port x cache nn infos)
  unfolding endpoint_info_by_service_port
  infos-IsNodup nn [] = tt
  infos-IsNodup nn ((name, info) ∷ infos) =
      ports-IsNodup nn info.endpoints info.ports _ (infos-IsNodup nn infos)

  map-served :
      (k : ServicePortName) (by_sp : SpToEndpointMap)
      → IsNodup by_sp
      → is_some (get k (endpoints_map_from_endpoint_info by_sp)) ≡ served k by_sp
  unfolding endpoints_map_from_endpoint_info get
  map-served k [] d = refl
  map-served k ((j, by_ip) ∷ by_sp) d =
      let rest = endpoints_map_from_endpoint_info by_sp in
      let eps = sort_by ip_less (map (λ e. e.1) by_ip) in
      elim (Bool-cases (is_empty by_ip)) [
        | inl e ↦ elim (Bool-cases (j == k)) [
          | inl here ↦
              let absent = subst (λ i. get i by_sp ≡ none) ((==_iff j k).0 here) d.0 in
              rw e (rw here (map-served k by_sp d.1 ∙ ap filled absent ∙ ap not (sym e)))
          | inr there ↦ rw e (rw there (map-served k by_sp d.1))
        ]
        | inr e ↦ elim (Bool-cases (j == k)) [
          | inl here ↦ rw e (rw here (ap is_some (get-put k j eps rest) ∙ rw here (ap not (sym e))))
          | inr there ↦
              rw e
                (rw there (ap is_some (get-put k j eps rest) ∙ rw there (map-served k by_sp d.1)))
        ]
      ]

  -- getEndpointsMap has an entry for a service port name exactly if one of the slices offers it: the
  -- slice has a port with a name and a number that is not 0, which goes by the service port name, and
  -- an endpoint whose first address is there and of the address family of the cache.
  pub get_endpoints_map-offers :
      (nn : NamespacedName) (infos : EndpointSliceInfoByName) (k : ServicePortName)
      → is_some (get k (get_endpoints_map x cache nn infos)) ≡ any (offers nn k) infos
  unfolding get_endpoints_map
  get_endpoints_map-offers nn infos k =
      map-served k (endpoint_info_by_service_port x cache nn infos) (infos-IsNodup nn infos)
      ∙ infos-served nn k infos
