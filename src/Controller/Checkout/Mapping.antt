-- ===== src/Controller/Checkout/Mapping.antt =====
-- controller/endpointsslice.go, getEndpointsMap: its keys name the service, and of the cache it reads
-- the configuration only.
use kube_haproxy.Prelude.{
  ℕ, String, Option, none, some, List, [], ◌∷◌, ◌==◌, if◌then◌else◌, if_keeps, is_empty, put,
  EachEntry, EachEntry-put, EachEntry-get, ◌≡◌, refl, ◌∙◌, ap, string_eq, nat_eq,
}
use kube_haproxy.Kube.{NamespacedName, SlicePort}
use kube_haproxy.Api.{ServicePortName, service_port_name_eq}
use kube_haproxy.External.{External}
use kube_haproxy.Controller.Changes.Tracking.{Confined}
use kube_haproxy.Controller.Slices.{EndpointInfo, EndpointSliceInfoByName, EndpointSliceCache}
use kube_haproxy.Controller.Checkout.{
  EndpointsByIp, SpToEndpointMap, add_endpoints_by_ip, add_slice_ports, by_ip_or_new,
  service_port_name, endpoint_info_by_service_port, endpoints_map_from_endpoint_info,
  get_endpoints_map,
}

abbrev OfService : {V : Type 0} → NamespacedName → ServicePortName → V → Type 0
OfService nn k v = k.namespaced_name ≡ nn

map-OfService :
    (nn : NamespacedName) (by_sp : SpToEndpointMap)
    → EachEntry (OfService nn) by_sp
    → EachEntry (OfService nn) (endpoints_map_from_endpoint_info by_sp)
unfolding endpoints_map_from_endpoint_info
map-OfService nn [] h = tt
map-OfService nn ((k, by_ip) ∷ by_sp) h =
    let rest = map-OfService nn by_sp h.1 in
    if_keeps (EachEntry (OfService nn)) (is_empty by_ip) _ _ rest
      (EachEntry-put (OfService nn) k _ _ h.0 rest)

module _ (x : External) where
  -- The loop body of endpointInfoByServicePort, for the name and the number of a port.
  abbrev pub port_added :
      EndpointSliceCache
      → NamespacedName
      → List EndpointInfo
      → String
      → SpToEndpointMap
      → Option String
      → Option ℕ
      → SpToEndpointMap
  port_added cache nn eps protocol by_sp port_name port_number = elim port_name [
    | none ↦ by_sp
    | some name ↦ elim port_number [
      | none ↦ by_sp
      | some number ↦
          let k = service_port_name nn name protocol in
          if number == 0
          then by_sp
          else put k (add_endpoints_by_ip x cache number (by_ip_or_new x k by_sp) eps) by_sp
    ]
  ]

  port-OfService :
      (cache : EndpointSliceCache) (nn : NamespacedName) (eps : List EndpointInfo)
      (protocol : String) (by_sp : SpToEndpointMap) (name : Option String) (number : Option ℕ)
      → EachEntry (OfService nn) by_sp
      → EachEntry (OfService nn) (port_added cache nn eps protocol by_sp name number)
  port-OfService cache nn eps protocol by_sp none number h = h
  port-OfService cache nn eps protocol by_sp (some name) none h = h
  port-OfService cache nn eps protocol by_sp (some name) (some number) h =
      if_keeps (EachEntry (OfService nn)) (number == 0) _ _ h
        (EachEntry-put (OfService nn) _ _ by_sp refl h)

  ports-OfService :
      (cache : EndpointSliceCache) (nn : NamespacedName) (eps : List EndpointInfo)
      (ports : List SlicePort) (by_sp : SpToEndpointMap)
      → EachEntry (OfService nn) by_sp
      → EachEntry (OfService nn) (add_slice_ports x cache nn eps ports by_sp)
  unfolding add_slice_ports
  ports-OfService cache nn eps [] by_sp h = h
  ports-OfService cache nn eps (port ∷ ports) by_sp h =
      ports-OfService cache nn eps ports _
        (port-OfService cache nn eps port.protocol by_sp port.name port.port h)

  slices-OfService :
      (cache : EndpointSliceCache) (nn : NamespacedName) (infos : EndpointSliceInfoByName)
      → EachEntry (OfService nn) (endpoint_info_by_service_port x cache nn infos)
  unfolding endpoint_info_by_service_port
  slices-OfService cache nn [] = tt
  slices-OfService cache nn ((_, info) ∷ infos) =
      ports-OfService cache nn info.endpoints info.ports _ (slices-OfService cache nn infos)

  -- The endpoints map of a service has keys of that service only.
  pub get_endpoints_map-Confined :
      (cache : EndpointSliceCache) (nn : NamespacedName) (infos : EndpointSliceInfoByName)
      → Confined nn (some (get_endpoints_map x cache nn infos))
  unfolding get_endpoints_map
  get_endpoints_map-Confined cache nn infos k v g =
      EachEntry-get (OfService nn) _ k v (map-OfService nn _ (slices-OfService cache nn infos)) g

  -- The cache without its trackers.
  abbrev pub bare : EndpointSliceCache → EndpointSliceCache
  bare cache = record cache { tracker_by_service_map = [] }

  by_ip-bare :
      (cache : EndpointSliceCache) (n : ℕ) (eps : List EndpointInfo) (by_ip : EndpointsByIp)
      → add_endpoints_by_ip x cache n by_ip eps ≡ add_endpoints_by_ip x (bare cache) n by_ip eps
  unfolding add_endpoints_by_ip
  by_ip-bare cache n [] by_ip = refl
  by_ip-bare cache n (e ∷ eps) by_ip = by_ip-bare cache n eps _

  port-bare :
      (cache : EndpointSliceCache) (nn : NamespacedName) (eps : List EndpointInfo)
      (protocol : String) (by_sp : SpToEndpointMap) (name : Option String) (number : Option ℕ)
      → port_added cache nn eps protocol by_sp name number
        ≡ port_added (bare cache) nn eps protocol by_sp name number
  port-bare cache nn eps protocol by_sp none number = refl
  port-bare cache nn eps protocol by_sp (some name) none = refl
  port-bare cache nn eps protocol by_sp (some name) (some number) =
      let k = service_port_name nn name protocol in
      ap (λ by_ip. if number == 0 then by_sp else put k by_ip by_sp)
        (by_ip-bare cache number eps (by_ip_or_new x k by_sp))

  ports-bare :
      (cache : EndpointSliceCache) (nn : NamespacedName) (eps : List EndpointInfo)
      (ports : List SlicePort) (by_sp : SpToEndpointMap)
      → add_slice_ports x cache nn eps ports by_sp
        ≡ add_slice_ports x (bare cache) nn eps ports by_sp
  unfolding add_slice_ports
  ports-bare cache nn eps [] by_sp = refl
  ports-bare cache nn eps (port ∷ ports) by_sp =
      ports-bare cache nn eps ports _
      ∙ ap (add_slice_ports x (bare cache) nn eps ports)
          (port-bare cache nn eps port.protocol by_sp port.name port.port)

  slices-bare :
      (cache : EndpointSliceCache) (nn : NamespacedName) (infos : EndpointSliceInfoByName)
      → endpoint_info_by_service_port x cache nn infos
        ≡ endpoint_info_by_service_port x (bare cache) nn infos
  unfolding endpoint_info_by_service_port
  slices-bare cache nn [] = refl
  slices-bare cache nn ((_, info) ∷ infos) =
      ports-bare cache nn info.endpoints info.ports _
      ∙ ap (add_slice_ports x (bare cache) nn info.endpoints info.ports)
          (slices-bare cache nn infos)

  -- The trackers of the cache do not matter for the map of given slices.
  pub get_endpoints_map-bare :
      (cache : EndpointSliceCache) (nn : NamespacedName) (infos : EndpointSliceInfoByName)
      → get_endpoints_map x cache nn infos ≡ get_endpoints_map x (bare cache) nn infos
  unfolding get_endpoints_map
  get_endpoints_map-bare cache nn infos =
      ap endpoints_map_from_endpoint_info (slices-bare cache nn infos)
