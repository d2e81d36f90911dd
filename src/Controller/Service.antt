-- ===== src/Controller/Service.antt =====
-- controller/service.go: service ports, the service map, and the tracker of service changes.
pub mod Merging
pub mod StaleIps
pub mod HealthPorts
pub mod Refinement
use kube_haproxy.Prelude.{
  ℕ, ◌%◌, ◌^◌, String, Bool, true, false, not, Option, none, some, List, [], ◌∷◌, map, DecEq, ◌==◌,
  if◌then◌else◌, is_some, get, put, delete, GoMap, NilMap, entries, trim_space, ltb, ℕ_discrete,
  String_discrete, is_empty, ◌&&◌, string_eq, nat_eq, bool_eq,
}
use kube_haproxy.Kube.{
  NamespacedName, namespaced_name_eq, KubeService, KubeServicePort, LoadBalancerIngress,
  protocol_udp, service_affinity_client_ip,
}
use kube_haproxy.External.{External, GoSet, Ip}
use kube_haproxy.Api.{ServicePortName, service_port_name_eq, service_port_name_string}
use kube_haproxy.Controller.Changes.{Change, Items, track, apply_all}

pub record BaseServiceInfo : Type 0 where
  pub cluster_ip : Ip
  pub port : ℕ
  pub protocol : String
  pub node_port : ℕ
  pub load_balancer_status : List LoadBalancerIngress
  pub session_affinity_type : String
  pub sticky_max_age_seconds : ℕ
  pub external_ips : List String
  pub load_balancer_source_ranges : List String
  pub health_check_node_port : ℕ
  pub only_node_local_endpoints : Bool
  pub topology_keys : List String

-- api.ServicePort: an interface. Its implementations are BaseServiceInfo and, with the precomputed
-- name, haproxy.serviceInfo, which embeds a BaseServiceInfo and has its methods.
pub data ServicePort : Type 0 where
  base_service_info : BaseServiceInfo → ServicePort
  service_info : BaseServiceInfo → String → ServicePort

unfoldable pub ServicePort_discrete : Discrete ServicePort
unfolding ℕ_discrete String_discrete
ServicePort_discrete = hlevel (ℕ_discrete, String_discrete)

instance abbrev pub service_port_eq : DecEq ServicePort
service_port_eq = record { dec = ServicePort_discrete }

abbrev pub base_of : ServicePort → BaseServiceInfo
base_of (base_service_info info) = info
base_of (service_info info name) = info

-- The methods of ServicePort.
abbrev pub port_of : ServicePort → ℕ
port_of s = (base_of s).port

abbrev pub session_affinity_type_of : ServicePort → String
session_affinity_type_of s = (base_of s).session_affinity_type

abbrev pub sticky_max_age_seconds_of : ServicePort → ℕ
sticky_max_age_seconds_of s = (base_of s).sticky_max_age_seconds

abbrev pub load_balancer_source_ranges_of : ServicePort → List String
load_balancer_source_ranges_of s = (base_of s).load_balancer_source_ranges

abbrev pub node_port_of : ServicePort → ℕ
node_port_of s = (base_of s).node_port

abbrev pub external_ip_strings : ServicePort → List String
external_ip_strings s = (base_of s).external_ips

abbrev pub only_node_local_endpoints_of : ServicePort → Bool
only_node_local_endpoints_of s = (base_of s).only_node_local_endpoints

abbrev pub topology_keys_of : ServicePort → List String
topology_keys_of s = (base_of s).topology_keys

abbrev pub protocol_of : ServicePort → String
protocol_of s = (base_of s).protocol

abbrev pub cluster_ip_of : ServicePort → Ip
cluster_ip_of s = (base_of s).cluster_ip

abbrev pub health_check_node_port_of : ServicePort → ℕ
health_check_node_port_of s = (base_of s).health_check_node_port

abbrev pub load_balancer_ip_strings : ServicePort → List String
load_balancer_ip_strings s = map (λ i. i.ip) (base_of s).load_balancer_status

abbrev pub ServiceMap : Type 0
ServiceMap = GoMap ServicePortName ServicePort

-- ServiceChangeTracker. NewProxier passes no processServiceMapChange; the recorder only logs events.
pub record ServiceChangeTracker : Type 0 where
  pub items : Items ServicePort
  pub make_service_info : Option (KubeServicePort → KubeService → BaseServiceInfo → ServicePort)
  pub is_ipv6_mode : Option Bool

-- NewServiceChangeTracker leaves isIPv6Mode nil.
unfoldable pub new_service_change_tracker :
    Option (KubeServicePort → KubeService → BaseServiceInfo → ServicePort) → ServiceChangeTracker
new_service_change_tracker make = record {
  items = [];
  make_service_info = make;
  is_ipv6_mode = none;
}

-- ServiceMap.filter: its loop over the entries, which deletes from the map.
unfoldable pub filter_entries : ServiceMap → ServiceMap → ServiceMap → ServiceMap
filter_entries [] sm other = sm
filter_entries ((k, _) ∷ rest) sm other =
    let sm' = filter_entries rest sm other in if is_some (get k other) then delete k sm' else sm'

unfoldable pub filter : ServiceMap → ServiceMap → ServiceMap
unfolding filter_entries
filter sm other = filter_entries sm sm other

-- UpdateServiceMap's loop that collects the health check node ports, as uint16.
unfoldable pub health_check_node_ports : ServiceMap → GoMap NamespacedName ℕ
health_check_node_ports [] = []
health_check_node_ports ((k, info) ∷ sm) =
    let rest = health_check_node_ports sm in
    if health_check_node_port_of info == 0
    then rest
    else put k.namespaced_name (health_check_node_port_of info % 2 ^ 16) rest

module _ (x : External) where
  open x.string_set use {Carrier as StringSet, empty, add}

  -- The statements under `if sct.isIPv6Mode == nil`, and their else branch.
  unfoldable pub filter_by_ip_version :
      Option Bool → KubeService → BaseServiceInfo → BaseServiceInfo
  filter_by_ip_version none service info = record info {
    load_balancer_source_ranges = map trim_space service.load_balancer_source_ranges;
    external_ips = service.external_ips;
    load_balancer_status = service.ingress;
  }
  filter_by_ip_version (some is_ipv6) service info =
      let ranges = map trim_space service.load_balancer_source_ranges in
      let ips = map (λ (i : LoadBalancerIngress). i.ip) service.ingress in
      record info {
        external_ips = (x.filter_incorrect_ip_version service.external_ips is_ipv6).0;
        load_balancer_source_ranges = (x.filter_incorrect_cidr_version ranges is_ipv6).0;
        load_balancer_status = elim ips [
          | [] ↦ []
          | some_ips ↦
              map (λ ip. record { ip = ip; hostname = "" })
                (x.filter_incorrect_ip_version some_ips is_ipv6).0
        ];
      }

  unfoldable pub new_base_service_info :
      Option Bool → KubeServicePort → KubeService → BaseServiceInfo
  unfolding filter_by_ip_version
  new_base_service_info is_ipv6_mode port service =
      let info : BaseServiceInfo = record {
        cluster_ip = x.parse_ip service.cluster_ip;
        port = port.port;
        protocol = port.protocol;
        node_port = port.node_port;
        load_balancer_status = [];
        session_affinity_type = service.session_affinity;
        sticky_max_age_seconds =
            if service.session_affinity == service_affinity_client_ip
            then service.client_ip_timeout
            else 0;
        external_ips = [];
        load_balancer_source_ranges = [];
        health_check_node_port = 0;
        only_node_local_endpoints = x.requests_only_local_traffic service;
        topology_keys = service.topology_keys;
      } in
      let filtered = filter_by_ip_version is_ipv6_mode service info in
      if x.needs_health_check service && not (service.health_check_node_port == 0)
      then record filtered { health_check_node_port = service.health_check_node_port }
      else filtered

  abbrev pub service_key : KubeService → NamespacedName
  service_key service = record { namespace = service.namespace; name = service.name }

  abbrev pub port_key : KubeService → KubeServicePort → ServicePortName
  port_key service port = record {
    namespaced_name = service_key service;
    port = port.name;
    protocol = port.protocol;
  }

  -- The body of the loop over the ports: the value that is stored.
  abbrev pub service_port_for : ServiceChangeTracker → KubeService → KubeServicePort → ServicePort
  service_port_for sct service port =
      let info = new_base_service_info sct.is_ipv6_mode port service in
      elim sct.make_service_info [
        | some make ↦ make port service info
        | none ↦ base_service_info info
      ]

  unfoldable pub add_ports :
      ServiceChangeTracker → KubeService → List KubeServicePort → ServiceMap → ServiceMap
  add_ports sct service [] m = m
  add_ports sct service (port ∷ ports) m =
      add_ports sct service ports
        (put (port_key service port) (service_port_for sct service port) m)

  -- The address family of the cluster IP is not the tracker's.
  abbrev pub wrong_ip_version : Option Bool → String → Bool
  wrong_ip_version none ip = false
  wrong_ip_version (some is_ipv6) ip = not (x.is_ipv6_string ip == is_ipv6)

  unfoldable pub service_to_service_map :
      ServiceChangeTracker → Option KubeService → NilMap ServicePortName ServicePort
  unfolding add_ports
  service_to_service_map sct none = none
  service_to_service_map sct (some service) =
      if x.should_skip_service service
      then none
      else if not (service.cluster_ip == "") && wrong_ip_version sct.is_ipv6_mode service.cluster_ip
      then none
      else some (add_ports sct service service.ports [])

  -- Update, once it has its object: both arguments are not nil.
  unfoldable pub update_object :
      ServiceChangeTracker
      → NamespacedName
      → Option KubeService
      → Option KubeService
      → ServiceChangeTracker × Bool
  unfolding service_to_service_map
  update_object sct nn previous current =
      let items =
        track nn (service_to_service_map sct previous) (service_to_service_map sct current)
          sct.items in
      (record sct { items = items }, not (is_empty items))

  -- ServiceChangeTracker.Update: the new tracker, and whether changes are pending.
  unfoldable pub update :
      ServiceChangeTracker → Option KubeService → Option KubeService → ServiceChangeTracker × Bool
  update sct none none = (sct, false)
  update sct previous (some current) =
      update_object sct (service_key current) previous (some current)
  update sct (some previous) none = update_object sct (service_key previous) (some previous) none

  -- ServiceMap.merge, with the set of the names that it saw.
  unfoldable pub merge : ServiceMap → ServiceMap → ServiceMap × StringSet
  merge sm [] = (sm, empty)
  merge sm ((k, info) ∷ other) =
      let (sm', existing_ports) = merge sm other in
      (put k info sm', add (service_port_name_string x k) existing_ports)

  -- The body of the loop of unmerge.
  unfoldable pub unmerge_port : ServicePortName → ServiceMap × StringSet → ServiceMap × StringSet
  unmerge_port k (sm, stale) = elim (get k sm) [
    | none ↦ (sm, stale)
    | some info ↦ (
      delete k sm,
      if protocol_of info == protocol_udp
          then add (x.ip_string (cluster_ip_of info)) stale
          else stale,
    )
  ]

  -- ServiceMap.unmerge, with the set that it fills.
  unfoldable pub unmerge : ServiceMap → ServiceMap → StringSet → ServiceMap × StringSet
  unmerge sm [] stale = (sm, stale)
  unmerge sm ((k, _) ∷ other) stale = unmerge_port k (unmerge sm other stale)

  -- The loop body of ServiceMap.apply for one change.
  unfoldable pub apply_change : Change ServicePort → ServiceMap × StringSet → ServiceMap × StringSet
  apply_change change (sm, stale) =
      let (merged, _) = merge sm (entries change.current) in
      unmerge merged (filter (entries change.previous) (entries change.current)) stale

  -- ServiceMap.apply: the map, the stale set, and the tracker with its items cleared.
  unfoldable pub apply :
      ServiceMap → ServiceChangeTracker → StringSet → ServiceMap × StringSet × ServiceChangeTracker
  apply sm sct stale =
      let (sm', stale') = apply_all apply_change sct.items (sm, stale) in
      (sm', stale', record sct { items = [] })

-- UpdateServiceMapResult
pub record UpdateServiceMapResult (x : External) : Type 0 where
  pub hc_service_node_ports : GoMap NamespacedName ℕ
  pub udp_stale_cluster_ip : x.string_set.Carrier

-- UpdateServiceMap
unfoldable pub update_service_map :
    (x : External)
    → ServiceMap
    → ServiceChangeTracker
    → ServiceMap × ServiceChangeTracker × UpdateServiceMapResult x
unfolding apply apply_change merge filter unmerge unmerge_port health_check_node_ports
update_service_map x sm sct =
    let (sm', stale, sct') = apply x sm sct x.string_set.empty in
    (
      sm',
      sct',
      record { hc_service_node_ports = health_check_node_ports sm'; udp_stale_cluster_ip = stale },
    )
