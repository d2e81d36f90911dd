-- ===== src/Controller/Checkout.antt =====
-- controller/endpointsslice.go: from the slices of a service to its endpoints map, and checkoutChanges.
pub mod Mapping
pub mod Pending
pub mod Updating
pub mod History
pub mod Tracked
pub mod Offered
pub mod WellFormed
use kube_haproxy.Prelude.{
  ℕ, String, Bool, true, false, not, Option, none, some, List, [], ◌∷◌, ◌++◌, ◌==◌, if◌then◌else◌,
  is_some, is_empty, get, put, delete, GoMap, NilMap, entries, ◌&&◌, ◌||◌, string_eq, nat_eq, map,
}
use kube_haproxy.Kube.{NamespacedName, namespaced_name_eq, SlicePort}
use kube_haproxy.External.{External}
use kube_haproxy.Api.{ServicePortName, service_port_name_eq}
use kube_haproxy.Controller.Changes.{Change, Items}
use kube_haproxy.Controller.Endpoint.{
  Endpoint, EndpointsMap, BaseEndpointInfo, make_endpoint, new_base_endpoint_info, wrong_ip_version,
}
use kube_haproxy.Controller.Slices.{
  EndpointInfo, EndpointSliceInfo, EndpointSliceInfoByName, EndpointSliceTracker,
  EndpointSliceCache, sort_by, ip_less,
}

abbrev pub EndpointsByIp : Type 0
EndpointsByIp = GoMap String Endpoint

-- spToEndpointMap
abbrev pub SpToEndpointMap : Type 0
SpToEndpointMap = GoMap ServicePortName EndpointsByIp

abbrev pub service_port_name : NamespacedName → String → String → ServicePortName
service_port_name nn name protocol = record {
  namespaced_name = nn;
  port = name;
  protocol = protocol;
}

-- EndpointSliceCache.isLocal
unfoldable pub is_local : EndpointSliceCache → String → Bool
is_local cache hostname = not (cache.hostname == "") && hostname == cache.hostname

-- endpoint.Topology[v1.LabelHostname], "" where it is missing
abbrev pub hostname_label : NilMap String String → String
hostname_label topology = elim (get "kubernetes.io/hostname" (entries topology)) [
  | none ↦ ""
  | some hostname ↦ hostname
]

-- The loop body of checkoutChanges over the pending slices of one service.
unfoldable pub apply_pending :
    EndpointSliceInfoByName → EndpointSliceInfoByName → EndpointSliceInfoByName
apply_pending [] applied = applied
apply_pending ((name, info) ∷ pending) applied =
    let applied' = apply_pending pending applied in
    if info.remove then delete name applied' else put name info applied'

-- endpointsMapFromEndpointInfo
unfoldable pub endpoints_map_from_endpoint_info : SpToEndpointMap → EndpointsMap
unfolding sort_by
endpoints_map_from_endpoint_info [] = []
endpoints_map_from_endpoint_info ((k, by_ip) ∷ by_sp) =
    let rest = endpoints_map_from_endpoint_info by_sp in
    if is_empty by_ip then rest else put k (sort_by ip_less (map (λ e. e.1) by_ip)) rest

module _ (x : External) where
  abbrev pub endpoint_ip : BaseEndpointInfo → String
  endpoint_ip info = x.ip_part info.endpoint

  -- The loop body of addEndpointsByIP, for an endpoint whose first address is `ip`.
  abbrev pub add_by_ip :
      EndpointSliceCache → ℕ → String → NilMap String String → EndpointsByIp → EndpointsByIp
  add_by_ip cache port_num ip topology by_ip =
      let local = is_local cache (hostname_label topology) in
      let info = new_base_endpoint_info x ip port_num local topology in
      if not (is_some (get (endpoint_ip info) by_ip)) || local
      then put (endpoint_ip info) (make_endpoint cache.make_endpoint_info info) by_ip
      else by_ip

  -- addEndpointsByIP
  unfoldable pub add_endpoints_by_ip :
      EndpointSliceCache → ℕ → EndpointsByIp → List EndpointInfo → EndpointsByIp
  unfolding is_local
  add_endpoints_by_ip cache port_num by_ip [] = by_ip
  add_endpoints_by_ip cache port_num by_ip (e ∷ es) =
      add_endpoints_by_ip cache port_num
        (elim e.addresses [
          | [] ↦ by_ip
          | ip ∷ _ ↦
              if wrong_ip_version x cache.is_ipv6_mode ip
              then by_ip
              else add_by_ip cache port_num ip e.topology by_ip
        ])
        es

  abbrev pub by_ip_or_new : ServicePortName → SpToEndpointMap → EndpointsByIp
  by_ip_or_new k by_sp = elim (get k by_sp) [ none ↦ [] | some by_ip ↦ by_ip ]

  -- The loop of endpointInfoByServicePort over the ports of one slice.
  unfoldable pub add_slice_ports :
      EndpointSliceCache
      → NamespacedName
      → List EndpointInfo
      → List SlicePort
      → SpToEndpointMap
      → SpToEndpointMap
  unfolding add_endpoints_by_ip
  add_slice_ports cache nn eps [] by_sp = by_sp
  add_slice_ports cache nn eps (port ∷ ports) by_sp =
      add_slice_ports cache nn eps ports (elim port.name [
        | none ↦ by_sp
        | some name ↦ elim port.port [
          | none ↦ by_sp
          | some number ↦
              let k = service_port_name nn name port.protocol in
              if number == 0
              then by_sp
              else put k (add_endpoints_by_ip cache number (by_ip_or_new k by_sp) eps) by_sp
        ]
      ])

  -- endpointInfoByServicePort
  unfoldable pub endpoint_info_by_service_port :
      EndpointSliceCache → NamespacedName → EndpointSliceInfoByName → SpToEndpointMap
  unfolding add_slice_ports
  endpoint_info_by_service_port cache nn [] = []
  endpoint_info_by_service_port cache nn ((_, info) ∷ infos) =
      add_slice_ports cache nn info.endpoints info.ports
        (endpoint_info_by_service_port cache nn infos)

  -- getEndpointsMap
  unfoldable pub get_endpoints_map :
      EndpointSliceCache → NamespacedName → EndpointSliceInfoByName → EndpointsMap
  unfolding endpoint_info_by_service_port endpoints_map_from_endpoint_info
  get_endpoints_map cache nn infos =
      endpoints_map_from_endpoint_info (endpoint_info_by_service_port cache nn infos)

  -- The change of one service with pending slices.
  unfoldable pub slice_change :
      EndpointSliceCache → NamespacedName → EndpointSliceTracker → Change (List Endpoint)
  unfolding get_endpoints_map apply_pending
  slice_change cache nn tracker = record {
    previous = some (get_endpoints_map cache nn tracker.applied);
    current = some (get_endpoints_map cache nn (apply_pending tracker.pending tracker.applied));
  }

  -- The loop of checkoutChanges: the changes, under the names of their services, and the trackers.
  unfoldable pub checkout_trackers :
      EndpointSliceCache
      → GoMap NamespacedName EndpointSliceTracker
      → Items (List Endpoint) × GoMap NamespacedName EndpointSliceTracker
  unfolding slice_change
  checkout_trackers cache [] = ([], [])
  checkout_trackers cache ((nn, tracker) ∷ trackers) =
      let (changes, rest) = checkout_trackers cache trackers in
      if is_empty tracker.pending then (changes, (nn, tracker) ∷ rest) else (
        (nn, slice_change cache nn tracker) ∷ changes,
        (nn, record { applied = apply_pending tracker.pending tracker.applied; pending = [] })
            ∷ rest,
      )

  -- EndpointSliceCache.checkoutChanges
  unfoldable pub checkout_changes : EndpointSliceCache → Items (List Endpoint) × EndpointSliceCache
  unfolding checkout_trackers
  checkout_changes cache =
      let (changes, trackers) = checkout_trackers cache cache.tracker_by_service_map in
      (changes, record cache { tracker_by_service_map = trackers })
