-- ===== src/App/Wiring/Informed.antt =====
-- server/app/server.go, ProxyServer.Run with services and endpoints: what may happen after its start.
use kube_haproxy.Prelude.{true, false, none, some, ◌≡◌, ◌⊎◌, String}
use kube_haproxy.Kube.{KubeService, KubeEndpoints, namespaced_name_eq}
use kube_haproxy.External.{External, GoSet}
use kube_haproxy.Api.{service_port_name_eq}
use kube_haproxy.App.Wiring.{
  Event, added, updated, deleted, cache_synced, Kind, of_services, of_endpoints, of_slices, deliver,
  State, server_configs, runner_sync,
}
use kube_haproxy.Config.{service, endpoints, Delivered, delivered_object, as_service, as_endpoints}
use kube_haproxy.Controller.Changes.History.{Cluster, with_object}
use kube_haproxy.Controller.EndpointsTracker.{endpoints_key}
use kube_haproxy.Controller.Service.{service_key}
use kube_haproxy.Haproxy.Types.{Server, server_eq}
use kube_haproxy.Haproxy.Dataplane.{Dataplane}
use kube_haproxy.Haproxy.Graceful.{SrvItem, srv_item_eq}
use kube_haproxy.Haproxy.Proxier.{Config, new_proxier}

-- An event that no handler is told of: an object of another kind, a sync that failed, or any event of
-- slices, for which there is no informer.
abbrev pub IsForeign : Kind → Event → Type 0
IsForeign of_services (added obj) = as_service obj ≡ none
IsForeign of_services (updated old obj) = (as_service old ≡ none) ⊎ (as_service obj ≡ none)
IsForeign of_services (deleted obj) = as_service (delivered_object obj) ≡ none
IsForeign of_services (cache_synced ok) = ok ≡ false
IsForeign of_endpoints (added obj) = as_endpoints obj ≡ none
IsForeign of_endpoints (updated old obj) = (as_endpoints old ≡ none) ⊎ (as_endpoints obj ≡ none)
IsForeign of_endpoints (deleted obj) = as_endpoints (delivered_object obj) ≡ none
IsForeign of_endpoints (cache_synced ok) = ok ≡ false
IsForeign of_slices event = Unit

module _ (x : External) (config : Config) (servers : GoSet Server) (set : GoSet SrvItem)
    (dp : Dataplane) (list : set.Carrier) (hostname : String) where
  abbrev pub S : Type 0
  S = State x config servers set dp

  -- An event of an informer of a server that watches endpoints.
  abbrev pub told : Kind → Event → S → S
  told = deliver (server_configs x config servers set dp false)

  -- What happens after Run has started: the informers deliver their events, each with the object that
  -- they held and the one they hold now, a deleted object bare or in a tombstone; anything else may be
  -- delivered too; and the runner syncs at any moment.
  pub data Informed : Cluster KubeService → Cluster KubeEndpoints → S → Type 0 where
    started :
        (w : dp.World)
        → Informed (λ _. none) (λ _. none) (some (new_proxier x list hostname false, w))
    add_service :
        {svcs : Cluster KubeService} {epss : Cluster KubeEndpoints} {s : S}
        → Informed svcs epss s
        → (svc : KubeService) → none ≡ svcs (service_key x svc)
        → Informed
            (with_object (service_key x svc) (some svc) svcs)
            epss
            (told of_services (added (service svc)) s)
    update_service :
        {svcs : Cluster KubeService} {epss : Cluster KubeEndpoints} {s : S}
        → Informed svcs epss s
        → (old svc : KubeService) → some old ≡ svcs (service_key x svc)
        → Informed
            (with_object (service_key x svc) (some svc) svcs)
            epss
            (told of_services (updated (service old) (service svc)) s)
    delete_service :
        {svcs : Cluster KubeService} {epss : Cluster KubeEndpoints} {s : S}
        → Informed svcs epss s
        → (old : KubeService) (obj : Delivered) → delivered_object obj ≡ service old
        → some old ≡ svcs (service_key x old)
        → Informed
            (with_object (service_key x old) none svcs)
            epss
            (told of_services (deleted obj) s)
    add_endpoints :
        {svcs : Cluster KubeService} {epss : Cluster KubeEndpoints} {s : S}
        → Informed svcs epss s
        → (eps : KubeEndpoints) → none ≡ epss (endpoints_key x eps)
        → Informed svcs
            (with_object (endpoints_key x eps) (some eps) epss)
            (told of_endpoints (added (endpoints eps)) s)
    update_endpoints :
        {svcs : Cluster KubeService} {epss : Cluster KubeEndpoints} {s : S}
        → Informed svcs epss s
        → (old eps : KubeEndpoints) → some old ≡ epss (endpoints_key x eps)
        → Informed svcs
            (with_object (endpoints_key x eps) (some eps) epss)
            (told of_endpoints (updated (endpoints old) (endpoints eps)) s)
    delete_endpoints :
        {svcs : Cluster KubeService} {epss : Cluster KubeEndpoints} {s : S}
        → Informed svcs epss s
        → (old : KubeEndpoints) (obj : Delivered) → delivered_object obj ≡ endpoints old
        → some old ≡ epss (endpoints_key x old)
        → Informed svcs
            (with_object (endpoints_key x old) none epss)
            (told of_endpoints (deleted obj) s)
    caches_synced :
        {svcs : Cluster KubeService} {epss : Cluster KubeEndpoints} {s : S}
        → Informed svcs epss s
        → (kind : Kind) → Informed svcs epss (told kind (cache_synced true) s)
    foreign :
        {svcs : Cluster KubeService} {epss : Cluster KubeEndpoints} {s : S}
        → Informed svcs epss s
        → (kind : Kind) (event : Event) → IsForeign kind event
        → Informed svcs epss (told kind event s)
    runner_synced :
        {svcs : Cluster KubeService} {epss : Cluster KubeEndpoints} {s : S}
        → Informed svcs epss s
        → Informed svcs epss (runner_sync x config servers set dp s)
