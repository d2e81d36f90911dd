-- ===== src/Scenarios/Watching.antt =====
-- A proxier that watches slices, with one service and one slice.
use kube_haproxy.Prelude.{
  string_eq, true, false, none, some, [], ◌∷◌, ◌≡◌, refl, get, put, deciding, nil_map_eq,
}
use kube_haproxy.Kube.{
  NamespacedName, namespaced_name_eq, NamespacedName_discrete, SlicePort_discrete,
}
use kube_haproxy.Api.{ServicePortName, service_port_name_eq, ServicePortName_discrete}
use kube_haproxy.Controller.Changes.{apply_all}
use kube_haproxy.Controller.Checkout.{checkout_changes}
use kube_haproxy.Controller.Endpoints.{endpoint_slice_update, update_endpoints_map}
use kube_haproxy.Controller.EndpointsTracker.{EndpointChangeTracker, new_endpoint_change_tracker}
use kube_haproxy.Controller.Endpoints.FromSlices.{
  ShowsLast, unused, slice_event, update_endpoints_map-ShowsLast,
}
use kube_haproxy.Controller.Endpoints.SliceEvents.{handled}
use kube_haproxy.Controller.Service.Refinement.{wanted}
use kube_haproxy.Controller.Slices.{EndpointSliceCache, new_endpoint_slice_cache}
use kube_haproxy.Haproxy.Types.{server_eq}
use kube_haproxy.Haproxy.Graceful.{srv_item_eq}
use kube_haproxy.Haproxy.Proxier.{
  new_proxier, new_service_info, new_endpoint_info, is_initialized, sync_proxy_rules,
  on_service_update, on_endpoint_slice, on_service_synced, on_endpoint_slices_synced,
}
use kube_haproxy.Haproxy.Proxier.Slices.{
  new, service_added, slice_handled, services_synced, slices_synced, sync_proxy_rules-ShowsLast,
}
use kube_haproxy.Scenarios.Parts.{net, list_set, answering}
use kube_haproxy.Scenarios.Maps.{dns, services, config, P}
use kube_haproxy.Scenarios.Slices.{slice, info, web}

abbrev empty_cache : EndpointSliceCache
empty_cache = new_endpoint_slice_cache "node" (some false) (some new_endpoint_info)

abbrev waiting : EndpointSliceCache
waiting = record empty_cache {
  tracker_by_service_map = (web, record { applied = []; pending = ("web-1", info) ∷ [] }) ∷ [];
}

abbrev new_tracker : EndpointChangeTracker
new_tracker = new_endpoint_change_tracker "node" (some new_endpoint_info) (some false) true

abbrev told : EndpointChangeTracker
told = record new_tracker { endpoint_slice_cache = some waiting }

slice_taken : endpoint_slice_update net new_tracker (some slice) false ≡ some (told, true)
unfolding deciding endpoint_slice_update get put new_endpoint_slice_cache
    new_endpoint_change_tracker NamespacedName_discrete SlicePort_discrete nil_map_eq
slice_taken = refl

update_endpoints_map-ShowsLast_example :
    ShowsLast net "node"
      (some false)
      (some new_endpoint_info)
      (handled slice false (λ _ _. none))
      web
      (update_endpoints_map net [] told).0.endpoints_map
update_endpoints_map-ShowsLast_example =
    update_endpoints_map-ShowsLast net "node" (some false) (some new_endpoint_info)
      (slice_event unused slice false told true slice_taken) web

-- The endpoint of the slice is in the map.
slice_shown :
    get
      (record { namespaced_name = web; port = "http"; protocol = "TCP" })
      (update_endpoints_map net [] told).0.endpoints_map
    ≡ some (
        new_endpoint_info (record { endpoint = "10.1.0.9:80"; is_local = false; topology = none })
        ∷ [])
unfolding deciding update_endpoints_map get put new_endpoint_slice_cache new_endpoint_change_tracker
    NamespacedName_discrete ServicePortName_discrete SlicePort_discrete nil_map_eq apply_all
    checkout_changes
slice_shown = refl

abbrev served : P
served =
    (on_service_update net config list_set list_set (answering 200) none (some dns)
      (new_proxier net [] "node" true)).0

abbrev with_slice : P
with_slice = record served { endpoints_changes = told }

slice_handed :
    on_endpoint_slice net config list_set list_set (answering 200) (some slice) false served
    ≡ some (with_slice, false)
unfolding deciding on_endpoint_slice endpoint_slice_update get put new_endpoint_slice_cache
    on_service_update new_proxier new_endpoint_change_tracker NamespacedName_discrete
    SlicePort_discrete nil_map_eq
slice_handed = refl

abbrev half : P
half = (on_service_synced net config list_set list_set (answering 200) with_slice []).0

abbrev ready : P
ready = (on_endpoint_slices_synced net config list_set list_set (answering 200) half []).0

ready-initialized : is_initialized ready ≡ true
unfolding new_proxier on_service_update on_service_synced on_endpoint_slices_synced sync_proxy_rules
ready-initialized = refl

sync_proxy_rules-ShowsLast_example :
    ((k : ServicePortName)
      → get k (sync_proxy_rules net config list_set list_set (answering 200) ready []).0.service_map
        ≡ wanted net (some (new_service_info net)) services k)
    × ((svc : NamespacedName)
        → ShowsLast net "node"
            (some false)
            (some new_endpoint_info)
            (handled slice false (λ _ _. none))
            svc
            (sync_proxy_rules net config list_set list_set
              (answering 200)
              ready
              []).0.endpoints_map)
sync_proxy_rules-ShowsLast_example =
    sync_proxy_rules-ShowsLast net config list_set list_set (answering 200) [] "node"
      (slices_synced
        (services_synced
          (slice_handled (service_added new dns refl) slice false with_slice false slice_handed) [])
        [])
      ready-initialized []
