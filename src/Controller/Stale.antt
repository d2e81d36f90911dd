-- ===== src/Controller/Stale.antt =====
-- controller/endpoints.go, detectStaleConnections.
pub mod Exact
pub mod Services
use kube_haproxy.Prelude.{
  ℕ, String, Bool, true, false, not, Option, none, some, List, [], ◌∷◌, ◌++◌, DecEq, ◌==◌,
  if◌then◌else◌, is_some, get, put, delete, GoMap, NilMap, entries, ◌&&◌, ◌||◌, string_eq, nat_eq,
  bool_eq, is_empty, String_discrete, Bool_discrete, get_or_empty, list_eq, map,
}
use kube_haproxy.Kube.{
  NamespacedName, namespaced_name_eq, KubeEndpoints, EndpointSubset, EndpointPort, EndpointAddress,
  protocol_udp,
}
use kube_haproxy.External.{External}
use kube_haproxy.Api.{ServicePortName, service_port_name_eq, ServiceEndpoint}
use kube_haproxy.Controller.Endpoint.{Endpoint, EndpointsMap, endpoint_equal, endpoint_string}

-- The loop over the new endpoints: one of them equals `ep`.
unfoldable pub some_equal : List Endpoint → Endpoint → Bool
some_equal [] ep = false
some_equal (e ∷ es) ep = endpoint_equal e ep || some_equal es ep

-- The loop over the endpoints of one old entry.
unfoldable pub stale_endpoints_of :
    ServicePortName → List Endpoint → List Endpoint → List ServiceEndpoint
stale_endpoints_of k [] new_eps = []
stale_endpoints_of k (ep ∷ eps) new_eps =
    let rest = stale_endpoints_of k eps new_eps in
    if some_equal new_eps ep
    then rest
    else record { endpoint = endpoint_string ep; service_port_name = k } ∷ rest

-- detectStaleConnections, its first loop: endpoints of UDP ports that are gone.
unfoldable pub detect_stale_endpoints : EndpointsMap → EndpointsMap → List ServiceEndpoint
unfolding stale_endpoints_of some_equal
detect_stale_endpoints [] new_map = []
detect_stale_endpoints ((k, eps) ∷ old_map) new_map =
    let rest = detect_stale_endpoints old_map new_map in
    if k.protocol == protocol_udp
    then stale_endpoints_of k eps (get_or_empty k new_map) ++ rest
    else rest

-- detectStaleConnections, its second loop: UDP ports that had no endpoint and have one now.
unfoldable pub detect_stale_services : EndpointsMap → EndpointsMap → List ServicePortName
detect_stale_services old_map [] = []
detect_stale_services old_map ((k, eps) ∷ new_map) =
    let rest = detect_stale_services old_map new_map in
    if k.protocol == protocol_udp
    then if not (is_empty eps) && is_empty (get_or_empty k old_map) then k ∷ rest else rest
    else rest
