-- ===== src/Scenarios/Maps.antt =====
-- The service map and the endpoints map of a cluster with one DNS service.
use kube_haproxy.Prelude.{
  ℕ, String, true, false, none, some, List, [], ◌∷◌, ◌≡◌, refl, ◌↔◌, ◌⊎◌, get, is_some, deciding,
  string_eq, put, get_or_empty, In,
}
use kube_haproxy.Kube.{KubeService, KubeEndpoints, namespaced_name_eq, NamespacedName_discrete}
use kube_haproxy.Api.{ServicePortName, service_port_name_eq, ServiceEndpoint}
use kube_haproxy.External.{elem_of}
use kube_haproxy.Controller.Changes.History.{Cluster, with_object}
use kube_haproxy.Controller.Endpoint.{Endpoint, EndpointsMap, endpoints_info}
use kube_haproxy.Controller.Endpoints.{update_endpoints_map}
use kube_haproxy.Controller.EndpointsTracker.{new_endpoint_change_tracker, endpoints_key}
use kube_haproxy.Controller.Endpoints
use kube_haproxy.Controller.Endpoints.Refinement.{
  wanted as wanted_endpoints, update_endpoints_map-wanted,
}
use kube_haproxy.Controller.Endpoints.Refinement
use kube_haproxy.Controller.Endpoints.LocalIps.{holds, LocalEndpoint, get_local_endpoint_ips_iff}
use kube_haproxy.Controller.Service.{
  ServiceMap, ServicePort, base_service_info, new_service_change_tracker, service_key, update,
  update_service_map, unmerge, health_check_node_ports,
}
use kube_haproxy.Controller.Service.Refinement.{
  start, added, wanted as wanted_services, update_service_map-wanted,
}
use kube_haproxy.Controller.Service.StaleIps.{Left, unmerge_stale_iff}
use kube_haproxy.Controller.Service.HealthPorts.{Asks, health_check_node_ports_exact}
use kube_haproxy.Controller.Stale.{detect_stale_endpoints, detect_stale_services}
use kube_haproxy.Controller.Stale.Exact.{StaleEndpoint, detect_stale_endpoints_exact}
use kube_haproxy.Controller.Stale.Services.{NewlyServed, detect_stale_services_exact}
use kube_haproxy.Haproxy.Proxier.{
  Proxier, Config, new_proxier, new_service_info, new_endpoint_info, is_initialized,
  sync_proxy_rules, on_service_update, on_endpoints_update, on_service_synced, on_endpoints_synced,
}
use kube_haproxy.Haproxy.Proxier.Converges.{
  new, service_added, endpoints_added, services_synced, endpoints_synced,
  sync_proxy_rules-converges,
}
use kube_haproxy.Haproxy.Graceful.{SrvItem, srv_item_eq}
use kube_haproxy.Haproxy.Types.{server_eq}
use kube_haproxy.Scenarios.Parts.{net, list_set, answering}

abbrev pub dns : KubeService
dns = record {
  namespace = "kube-system";
  name = "kube-dns";
  cluster_ip = "10.0.0.1";
  ports = record { name = "dns"; protocol = "UDP"; port = 53; node_port = 0 } ∷ [];
  session_affinity = "None";
  client_ip_timeout = 0;
  external_ips = [];
  load_balancer_source_ranges = [];
  ingress = [];
  health_check_node_port = 0;
  topology_keys = [];
}

abbrev pub dns_endpoints : KubeEndpoints
dns_endpoints = record {
  namespace = "kube-system";
  name = "kube-dns";
  annotations = [];
  subsets =
      record {
        addresses = record { ip = "10.1.0.7"; node_name = none } ∷ [];
        ports = record { name = "dns"; port = 53; protocol = "UDP" } ∷ [];
      }
      ∷ [];
}

abbrev pub dns_port : ServicePortName
dns_port = record {
  namespaced_name = record { namespace = "kube-system"; name = "kube-dns" };
  port = "dns";
  protocol = "UDP";
}

abbrev pub services : Cluster KubeService
services = with_object (service_key net dns) (some dns) (λ _. none)

abbrev pub all_endpoints : Cluster KubeEndpoints
all_endpoints = with_object (endpoints_key net dns_endpoints) (some dns_endpoints) (λ _. none)

update_service_map-wanted_example :
    get dns_port
      (update_service_map net [] (update net (new_service_change_tracker none) none (some dns)).0).0
    ≡ wanted_services net none services dns_port
update_service_map-wanted_example =
    update_service_map-wanted net none (added start dns refl) dns_port

update_endpoints_map-wanted_example :
    get dns_port
      (update_endpoints_map net []
        (Endpoints.update net
          (new_endpoint_change_tracker "node" none none false)
          none
          (some dns_endpoints)).0).0.endpoints_map
    ≡ wanted_endpoints net "node" none none all_endpoints dns_port
update_endpoints_map-wanted_example =
    update_endpoints_map-wanted net "node" none none
      (Refinement.added Refinement.start dns_endpoints refl) dns_port

abbrev pub config : Config
config = record {
  mode = "local";
  server_algorithm = "roundrobin";
  is_health_check = false;
  proxy_ip = "0.0.0.0";
}

abbrev pub P : Type 0
P = Proxier (List SrvItem)

abbrev told : P
told =
    (on_endpoints_update net config list_set list_set (answering 200) none (some dns_endpoints)
      (on_service_update net config list_set list_set (answering 200) none (some dns)
        (new_proxier net [] "node" false)).0).0

abbrev half : P
half = (on_service_synced net config list_set list_set (answering 200) told []).0

abbrev ready : P
ready = (on_endpoints_synced net config list_set list_set (answering 200) half []).0

ready-initialized : is_initialized ready ≡ true
unfolding new_proxier on_service_update on_endpoints_update on_service_synced on_endpoints_synced
    sync_proxy_rules
ready-initialized = refl

sync_proxy_rules-converges_example :
    (get dns_port
        (sync_proxy_rules net config list_set list_set (answering 200) ready []).0.service_map
      ≡ wanted_services net (some (new_service_info net)) services dns_port)
    × (get dns_port
          (sync_proxy_rules net config list_set list_set (answering 200) ready []).0.endpoints_map
        ≡ wanted_endpoints net "node" (some new_endpoint_info) (some false) all_endpoints dns_port)
sync_proxy_rules-converges_example =
    sync_proxy_rules-converges net config list_set list_set (answering 200) [] "node"
      (endpoints_synced
        (services_synced (endpoints_added (service_added new dns refl) dns_endpoints refl) []) [])
      ready-initialized [] dns_port

abbrev dns_info : ServicePort
dns_info = base_service_info (record {
  cluster_ip = [];
  port = 53;
  protocol = "UDP";
  node_port = 0;
  load_balancer_status = [];
  session_affinity_type = "None";
  sticky_max_age_seconds = 0;
  external_ips = [];
  load_balancer_source_ranges = [];
  health_check_node_port = 70000;
  only_node_local_endpoints = true;
  topology_keys = [];
})

abbrev one_service : ServiceMap
one_service = (dns_port, dns_info) ∷ []

unmerge_stale_iff_example :
    (elem_of "10.0.0.1" (unmerge net one_service one_service []).1 ≡ true) ↔ (
      (elem_of {T = String} "10.0.0.1" [] ≡ true)
      ⊎ Left net one_service (unmerge net one_service one_service []).0 "10.0.0.1")
unmerge_stale_iff_example = unmerge_stale_iff net "10.0.0.1" one_service one_service []

health_check_node_ports_exact_example :
    ((n : ℕ)
      → get dns_port.namespaced_name (health_check_node_ports one_service) ≡ some n
      → Asks one_service dns_port.namespaced_name n)
    × ((n : ℕ)
        → Asks one_service dns_port.namespaced_name n
        → is_some (get dns_port.namespaced_name (health_check_node_ports one_service)) ≡ true)
health_check_node_ports_exact_example =
    health_check_node_ports_exact one_service dns_port.namespaced_name

-- The node port 70000 is reported as a uint16.
port_wraps : get dns_port.namespaced_name (health_check_node_ports one_service) ≡ some 4464
unfolding deciding health_check_node_ports get put NamespacedName_discrete
port_wraps = refl

abbrev dns_endpoint : Endpoint
dns_endpoint =
    endpoints_info (record { endpoint = "10.1.0.7:53"; is_local = false; topology = none }) ""

abbrev served : EndpointsMap
served = (dns_port, dns_endpoint ∷ []) ∷ []

abbrev dns_stale : ServiceEndpoint
dns_stale = record { endpoint = "10.1.0.7:53"; service_port_name = dns_port }

detect_stale_endpoints_exact_example :
    In dns_stale (detect_stale_endpoints served []) ↔ StaleEndpoint served [] dns_stale
detect_stale_endpoints_exact_example = detect_stale_endpoints_exact served [] dns_stale

detect_stale_services_exact_example :
    In dns_port (detect_stale_services [] served) ↔ NewlyServed [] served dns_port
detect_stale_services_exact_example = detect_stale_services_exact [] served dns_port

-- The endpoint that is gone is found, and so is the service that has its first one.
stale_found :
    (detect_stale_endpoints served [] ≡ dns_stale ∷ [])
    × (detect_stale_services [] served ≡ dns_port ∷ [])
unfolding deciding detect_stale_endpoints detect_stale_services get_or_empty get
stale_found = (refl, refl)

abbrev local_endpoint : Endpoint
local_endpoint =
    endpoints_info (record { endpoint = "10.1.0.8:53"; is_local = true; topology = none }) ""

abbrev with_local : EndpointsMap
with_local = (dns_port, dns_endpoint ∷ local_endpoint ∷ []) ∷ []

get_local_endpoint_ips_iff_example :
    (holds net "10.1.0.8:53"
        (get dns_port.namespaced_name (Endpoints.get_local_endpoint_ips net with_local))
      ≡ true)
    ↔ LocalEndpoint net dns_port.namespaced_name "10.1.0.8:53" with_local
get_local_endpoint_ips_iff_example =
    get_local_endpoint_ips_iff net dns_port.namespaced_name "10.1.0.8:53" with_local
