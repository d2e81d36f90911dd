-- ===== src/Controller/EndpointsTracker.antt =====
-- controller/endpoints.go: the tracker of endpoints changes, and what it makes of an endpoints object.
use kube_haproxy.Prelude.{
  ℕ, String, Bool, false, Option, none, some, List, [], ◌∷◌, ◌++◌, ◌==◌, if◌then◌else◌, put, GoMap,
  NilMap, string_eq, nat_eq, bool_eq, get_or_empty, list_eq,
}
use kube_haproxy.Kube.{
  NamespacedName, namespaced_name_eq, KubeEndpoints, EndpointSubset, EndpointPort, EndpointAddress,
}
use kube_haproxy.External.{External}
use kube_haproxy.Api.{ServicePortName, service_port_name_eq}
use kube_haproxy.Controller.Changes.{Items}
use kube_haproxy.Controller.Endpoint.{
  Endpoint, EndpointsMap, Maker, endpoint_eq, make_endpoint, new_base_endpoint_info,
  wrong_ip_version,
}
use kube_haproxy.Controller.Slices.{EndpointSliceCache, new_endpoint_slice_cache}

abbrev pub TriggerTimes : Type 0
TriggerTimes = GoMap NamespacedName (List ℕ)

-- EndpointChangeTracker. NewProxier passes no processEndpointsMapChange; the recorder only logs events.
pub record EndpointChangeTracker : Type 0 where
  pub hostname : String
  pub items : Items (List Endpoint)
  pub make_endpoint_info : Maker
  pub is_ipv6_mode : Option Bool
  pub endpoint_slice_cache : Option EndpointSliceCache
  pub last_change_trigger_times : TriggerTimes

-- NewEndpointChangeTracker
unfoldable pub new_endpoint_change_tracker :
    String → Maker → Option Bool → Bool → EndpointChangeTracker
unfolding new_endpoint_slice_cache
new_endpoint_change_tracker hostname make is_ipv6_mode endpoint_slices_enabled = record {
  hostname = hostname;
  items = [];
  make_endpoint_info = make;
  is_ipv6_mode = is_ipv6_mode;
  endpoint_slice_cache =
      if endpoint_slices_enabled
      then some (new_endpoint_slice_cache hostname is_ipv6_mode make)
      else none;
  last_change_trigger_times = [];
}

module _ (x : External) where
  -- NodeName is set, and is this host.
  abbrev pub is_local_address : String → EndpointAddress → Bool
  is_local_address hostname addr = elim addr.node_name [
    | none ↦ false
    | some node ↦ node == hostname
  ]

  -- The innermost loop of endpointsToEndpointsMap, over the addresses of a subset.
  unfoldable pub add_addresses :
      EndpointChangeTracker
      → ServicePortName
      → ℕ
      → List EndpointAddress
      → EndpointsMap
      → EndpointsMap
  add_addresses ect k port [] m = m
  add_addresses ect k port (addr ∷ addrs) m = add_addresses ect k port addrs (
      if addr.ip == ""
      then m
      else if wrong_ip_version x ect.is_ipv6_mode addr.ip
      then m
      else put k
          (get_or_empty k m
            ++ make_endpoint ect.make_endpoint_info
                (new_base_endpoint_info x addr.ip port (is_local_address ect.hostname addr) none)
              ∷ [])
          m)

  abbrev pub endpoints_key : KubeEndpoints → NamespacedName
  endpoints_key eps = record { namespace = eps.namespace; name = eps.name }

  -- The loop over the ports of a subset.
  unfoldable pub add_ports :
      EndpointChangeTracker
      → KubeEndpoints
      → List EndpointAddress
      → List EndpointPort
      → EndpointsMap
      → EndpointsMap
  unfolding add_addresses
  add_ports ect eps addrs [] m = m
  add_ports ect eps addrs (port ∷ ports) m = add_ports ect eps addrs ports (
      if port.port == 0
      then m
      else add_addresses ect
          (record {
            namespaced_name = endpoints_key eps;
            port = port.name;
            protocol = port.protocol;
          })
          port.port addrs m)

  -- The loop over the subsets.
  unfoldable pub add_subsets :
      EndpointChangeTracker → KubeEndpoints → List EndpointSubset → EndpointsMap → EndpointsMap
  unfolding add_ports
  add_subsets ect eps [] m = m
  add_subsets ect eps (ss ∷ subsets) m =
      add_subsets ect eps subsets (add_ports ect eps ss.addresses ss.ports m)

  unfoldable pub endpoints_to_endpoints_map :
      EndpointChangeTracker → Option KubeEndpoints → NilMap ServicePortName (List Endpoint)
  unfolding add_subsets
  endpoints_to_endpoints_map ect none = none
  endpoints_to_endpoints_map ect (some eps) = some (add_subsets ect eps eps.subsets [])
