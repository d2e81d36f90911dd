-- ===== src/Haproxy/Proxier/Converges.antt =====
-- The proxier's maps against the cluster, where services and endpoints are watched.
use kube_haproxy.Prelude.{true, false, none, some, ◌≡◌, get, Bool-cases, inl, inr, String}
use kube_haproxy.Kube.{KubeService, KubeEndpoints, namespaced_name_eq}
use kube_haproxy.External.{External, GoSet}
use kube_haproxy.Api.{ServicePortName, service_port_name_eq}
use kube_haproxy.Controller.Changes.History.{Cluster, with_object}
use kube_haproxy.Controller.EndpointsTracker.{endpoints_key}
use kube_haproxy.Controller.Endpoints.Refinement.{
  History as EndpointsHistory, wanted as wanted_endpoints, update_endpoints_map-wanted,
}
use kube_haproxy.Controller.Endpoints.Refinement
use kube_haproxy.Controller.Service.{service_key}
use kube_haproxy.Controller.Service.Refinement.{
  History as ServiceHistory, start, added, updated, deleted, synced, wanted as wanted_services,
  update_service_map-wanted,
}
use kube_haproxy.Haproxy.Types.{Server, server_eq}
use kube_haproxy.Haproxy.Dataplane.{Dataplane}
use kube_haproxy.Haproxy.Graceful.{SrvItem, srv_item_eq}
use kube_haproxy.Haproxy.Proxier.{
  Proxier, Config, new_proxier, new_service_info, new_endpoint_info, is_initialized,
  sync_proxy_rules, on_service_update, on_endpoints_update, on_service_synced, on_endpoints_synced,
}

module _ (x : External) (config : Config) (servers : GoSet Server) (set : GoSet SrvItem)
    (dp : Dataplane) (list : set.Carrier) (hostname : String) where
  abbrev P : Type 0
  P = Proxier set.Carrier

  -- What the informers and the sync runner may do to a new proxier: the handlers are told of the
  -- objects that the cluster had and has, and the Synced handlers and the runner sync at any moment.
  pub data Watched : Cluster KubeService → Cluster KubeEndpoints → P → Type 0 where
    new : Watched (λ _. none) (λ _. none) (new_proxier x list hostname false)
    service_added :
        {svcs : Cluster KubeService} {epss : Cluster KubeEndpoints} {p : P}
        → Watched svcs epss p
        → (service : KubeService) → none ≡ svcs (service_key x service)
        → Watched
            (with_object (service_key x service) (some service) svcs)
            epss
            (on_service_update x config servers set dp none (some service) p).0
    service_updated :
        {svcs : Cluster KubeService} {epss : Cluster KubeEndpoints} {p : P}
        → Watched svcs epss p
        → (old service : KubeService) → some old ≡ svcs (service_key x service)
        → Watched
            (with_object (service_key x service) (some service) svcs)
            epss
            (on_service_update x config servers set dp (some old) (some service) p).0
    service_deleted :
        {svcs : Cluster KubeService} {epss : Cluster KubeEndpoints} {p : P}
        → Watched svcs epss p
        → (old : KubeService) → some old ≡ svcs (service_key x old)
        → Watched
            (with_object (service_key x old) none svcs)
            epss
            (on_service_update x config servers set dp (some old) none p).0
    endpoints_added :
        {svcs : Cluster KubeService} {epss : Cluster KubeEndpoints} {p : P}
        → Watched svcs epss p
        → (eps : KubeEndpoints) → none ≡ epss (endpoints_key x eps)
        → Watched svcs
            (with_object (endpoints_key x eps) (some eps) epss)
            (on_endpoints_update x config servers set dp none (some eps) p).0
    endpoints_updated :
        {svcs : Cluster KubeService} {epss : Cluster KubeEndpoints} {p : P}
        → Watched svcs epss p
        → (old eps : KubeEndpoints) → some old ≡ epss (endpoints_key x eps)
        → Watched svcs
            (with_object (endpoints_key x eps) (some eps) epss)
            (on_endpoints_update x config servers set dp (some old) (some eps) p).0
    endpoints_deleted :
        {svcs : Cluster KubeService} {epss : Cluster KubeEndpoints} {p : P}
        → Watched svcs epss p
        → (old : KubeEndpoints) → some old ≡ epss (endpoints_key x old)
        → Watched svcs
            (with_object (endpoints_key x old) none epss)
            (on_endpoints_update x config servers set dp (some old) none p).0
    services_synced :
        {svcs : Cluster KubeService} {epss : Cluster KubeEndpoints} {p : P}
        → Watched svcs epss p
        → (w : dp.World) → Watched svcs epss (on_service_synced x config servers set dp p w).0
    endpoints_synced :
        {svcs : Cluster KubeService} {epss : Cluster KubeEndpoints} {p : P}
        → Watched svcs epss p
        → (w : dp.World) → Watched svcs epss (on_endpoints_synced x config servers set dp p w).0
    rules_synced :
        {svcs : Cluster KubeService} {epss : Cluster KubeEndpoints} {p : P}
        → Watched svcs epss p
        → (w : dp.World) → Watched svcs epss (sync_proxy_rules x config servers set dp p w).0

  record Histories (svcs : Cluster KubeService) (epss : Cluster KubeEndpoints) (p : P)
      : Type 0 where
    of_services : ServiceHistory x (some (new_service_info x)) svcs p.service_map p.service_changes
    of_endpoints :
        EndpointsHistory x hostname
          (some new_endpoint_info)
          (some false)
          epss
          p.endpoints_map
          p.endpoints_changes

  -- An initialized proxier's sync updates both maps; the others leave everything as it is.
  sync-Histories :
      {svcs : Cluster KubeService} {epss : Cluster KubeEndpoints} (p : P) (w : dp.World)
      → Histories svcs epss p
      → Histories svcs epss (sync_proxy_rules x config servers set dp p w).0
  unfolding sync_proxy_rules
  sync-Histories p w h = elim (Bool-cases (is_initialized p)) [
    | inl e ↦ rw e (record {
      of_services = synced h.of_services;
      of_endpoints = Refinement.synced h.of_endpoints;
    })
    | inr e ↦ rw e (record { of_services = h.of_services; of_endpoints = h.of_endpoints })
  ]

  Watched-Histories :
      {svcs : Cluster KubeService} {epss : Cluster KubeEndpoints} {p : P}
      → Watched svcs epss p
      → Histories svcs epss p
  unfolding new_proxier on_service_update on_endpoints_update on_service_synced on_endpoints_synced
  Watched-Histories new = record { of_services = start; of_endpoints = Refinement.start }
  Watched-Histories (service_added run service e) =
      let h = Watched-Histories run in
      record { of_services = added h.of_services service e; of_endpoints = h.of_endpoints }
  Watched-Histories (service_updated run old service e) =
      let h = Watched-Histories run in
      record { of_services = updated h.of_services old service e; of_endpoints = h.of_endpoints }
  Watched-Histories (service_deleted run old e) =
      let h = Watched-Histories run in
      record { of_services = deleted h.of_services old e; of_endpoints = h.of_endpoints }
  Watched-Histories (endpoints_added run eps e) =
      let h = Watched-Histories run in
      record { of_services = h.of_services; of_endpoints = Refinement.added h.of_endpoints eps e }
  Watched-Histories (endpoints_updated run old eps e) =
      let h = Watched-Histories run in
      record {
        of_services = h.of_services;
        of_endpoints = Refinement.updated h.of_endpoints old eps e;
      }
  Watched-Histories (endpoints_deleted run old e) =
      let h = Watched-Histories run in
      record { of_services = h.of_services; of_endpoints = Refinement.deleted h.of_endpoints old e }
  Watched-Histories (services_synced run w) =
      let h = Watched-Histories run in
      sync-Histories _ w (record { of_services = h.of_services; of_endpoints = h.of_endpoints })
  Watched-Histories (endpoints_synced run w) =
      let h = Watched-Histories run in
      sync-Histories _ w (record { of_services = h.of_services; of_endpoints = h.of_endpoints })
  Watched-Histories (rules_synced run w) = sync-Histories _ w (Watched-Histories run)

  -- Where services and endpoints are watched: whatever the handlers, the Synced handlers and the sync
  -- runner did to a new proxier, in any order, a syncProxyRules of an initialized proxier leaves in its
  -- service map and in its endpoints map exactly the entries that the objects call for which the
  -- cluster has at that moment, for every service port name.
  pub sync_proxy_rules-converges :
      {svcs : Cluster KubeService} {epss : Cluster KubeEndpoints} {p : P}
      → Watched svcs epss p
      → is_initialized p ≡ true
      → (w : dp.World) (k : ServicePortName)
      → (get k (sync_proxy_rules x config servers set dp p w).0.service_map
          ≡ wanted_services x (some (new_service_info x)) svcs k)
        × (get k (sync_proxy_rules x config servers set dp p w).0.endpoints_map
            ≡ wanted_endpoints x hostname (some new_endpoint_info) (some false) epss k)
  unfolding sync_proxy_rules
  sync_proxy_rules-converges {p} run ready w k =
      let h = Watched-Histories run in
      rw ready (
        update_service_map-wanted x (some (new_service_info x)) h.of_services k,
        update_endpoints_map-wanted x hostname (some new_endpoint_info) (some false) h.of_endpoints
            k,
      )
