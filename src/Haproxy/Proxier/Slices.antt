-- ===== src/Haproxy/Proxier/Slices.antt =====
-- The proxier's maps, where services and endpoint slices are watched.
use kube_haproxy.Prelude.{
  Bool, true, false, Option, none, some, ◌≡◌, refl, sym, ◌∙◌, ap, subst, get, Bool-cases,
  Option-cases, inl, inr, String, ◌&&◌,
}
use kube_haproxy.Kube.{NamespacedName, KubeService, EndpointSlice, namespaced_name_eq}
use kube_haproxy.External.{External, GoSet}
use kube_haproxy.Api.{ServicePortName, service_port_name_eq}
use kube_haproxy.Controller.Changes.History.{Cluster, with_object}
use kube_haproxy.Controller.Checkout.History.{LastEvents}
use kube_haproxy.Controller.Endpoints.{endpoint_slice_update}
use kube_haproxy.Controller.EndpointsTracker.{EndpointChangeTracker}
use kube_haproxy.Controller.Endpoints.FromSlices.{
  SliceHistory, unused, slice_event, ShowsLast, update_endpoints_map-ShowsLast,
}
use kube_haproxy.Controller.Endpoints.FromSlices
use kube_haproxy.Controller.Endpoints.SliceEvents.{handled}
use kube_haproxy.Controller.Service.{service_key}
use kube_haproxy.Controller.Service.Refinement.{
  History, start, added, updated, deleted, synced, wanted, update_service_map-wanted,
}
use kube_haproxy.Haproxy.Types.{Server, server_eq}
use kube_haproxy.Haproxy.Dataplane.{Dataplane}
use kube_haproxy.Haproxy.Graceful.{SrvItem, srv_item_eq}
use kube_haproxy.Haproxy.Proxier.{
  Proxier, Config, new_proxier, new_service_info, new_endpoint_info, is_initialized,
  sync_proxy_rules, on_service_update, on_endpoint_slice, on_service_synced,
  on_endpoint_slices_synced,
}

module _ (x : External) (config : Config) (servers : GoSet Server) (set : GoSet SrvItem)
    (dp : Dataplane) (list : set.Carrier) (hostname : String) where
  abbrev P : Type 0
  P = Proxier set.Carrier

  -- What the informers and the sync runner may do to a new proxier that watches slices. An event that
  -- panics has no next state.
  pub data Sliced : Cluster KubeService → LastEvents → P → Type 0 where
    new : Sliced (λ _. none) (λ _ _. none) (new_proxier x list hostname true)
    service_added :
        {svcs : Cluster KubeService} {last : LastEvents} {p : P}
        → Sliced svcs last p
        → (service : KubeService) → none ≡ svcs (service_key x service)
        → Sliced
            (with_object (service_key x service) (some service) svcs)
            last
            (on_service_update x config servers set dp none (some service) p).0
    service_updated :
        {svcs : Cluster KubeService} {last : LastEvents} {p : P}
        → Sliced svcs last p
        → (old service : KubeService) → some old ≡ svcs (service_key x service)
        → Sliced
            (with_object (service_key x service) (some service) svcs)
            last
            (on_service_update x config servers set dp (some old) (some service) p).0
    service_deleted :
        {svcs : Cluster KubeService} {last : LastEvents} {p : P}
        → Sliced svcs last p
        → (old : KubeService) → some old ≡ svcs (service_key x old)
        → Sliced
            (with_object (service_key x old) none svcs)
            last
            (on_service_update x config servers set dp (some old) none p).0
    slice_handled :
        {svcs : Cluster KubeService} {last : LastEvents} {p : P}
        → Sliced svcs last p
        → (slice : EndpointSlice) (remove : Bool) (p' : P) (asks : Bool)
        → on_endpoint_slice x config servers set dp (some slice) remove p ≡ some (p', asks)
        → Sliced svcs (handled slice remove last) p'
    services_synced :
        {svcs : Cluster KubeService} {last : LastEvents} {p : P}
        → Sliced svcs last p
        → (w : dp.World) → Sliced svcs last (on_service_synced x config servers set dp p w).0
    slices_synced :
        {svcs : Cluster KubeService} {last : LastEvents} {p : P}
        → Sliced svcs last p
        → (w : dp.World)
        → Sliced svcs last (on_endpoint_slices_synced x config servers set dp p w).0
    rules_synced :
        {svcs : Cluster KubeService} {last : LastEvents} {p : P}
        → Sliced svcs last p
        → (w : dp.World) → Sliced svcs last (sync_proxy_rules x config servers set dp p w).0

  record Histories (svcs : Cluster KubeService) (last : LastEvents) (p : P) : Type 0 where
    of_services : History x (some (new_service_info x)) svcs p.service_map p.service_changes
    of_slices :
        SliceHistory x hostname
          (some false)
          (some new_endpoint_info)
          last
          p.endpoints_map
          p.endpoints_changes

  sync-Histories :
      {svcs : Cluster KubeService} {last : LastEvents} (p : P) (w : dp.World)
      → Histories svcs last p
      → Histories svcs last (sync_proxy_rules x config servers set dp p w).0
  unfolding sync_proxy_rules
  sync-Histories p w h = elim (Bool-cases (is_initialized p)) [
    | inl e ↦
        rw e
          (record { of_services = synced h.of_services; of_slices = FromSlices.synced h.of_slices })
    | inr e ↦ rw e (record { of_services = h.of_services; of_slices = h.of_slices })
  ]

  -- The proxier after an event of a slice, for what the tracker makes of it.
  abbrev with_changes : P → EndpointChangeTracker → P
  with_changes p ect = record p { endpoints_changes = ect }

  abbrev handed_on : P → Option (EndpointChangeTracker × Bool) → Option (P × Bool)
  handed_on p result = elim result [
    | none ↦ none
    | some (ect, changed) ↦ some (with_changes p ect, changed && is_initialized p)
  ]

  on_endpoint_slice-handed_on :
      (slice : Option EndpointSlice) (remove : Bool) (p : P)
      → on_endpoint_slice x config servers set dp slice remove p
        ≡ handed_on p (endpoint_slice_update x p.endpoints_changes slice remove)
  unfolding on_endpoint_slice
  on_endpoint_slice-handed_on slice remove p = refl

  slice-Histories :
      {svcs : Cluster KubeService} {last : LastEvents} {p : P}
      → Histories svcs last p
      → (slice : EndpointSlice) (remove : Bool) (p' : P) (asks : Bool)
      → on_endpoint_slice x config servers set dp (some slice) remove p ≡ some (p', asks)
      → Histories svcs (handled slice remove last) p'
  slice-Histories {svcs} {last} {p} h slice remove p' asks e =
      let result = endpoint_slice_update x p.endpoints_changes (some slice) remove in
      let e' = sym (on_endpoint_slice-handed_on (some slice) remove p) ∙ e in
      elim (Option-cases result) [
        | inl r ↦ cc (ap (handed_on p) (sym r) ∙ e')
        | inr ((ect, changed), r) ↦
            let done : handed_on p (some (ect, changed)) ≡ some (p', asks) =
              ap (handed_on p) (sym r) ∙ e' in
            let is : with_changes p ect ≡ p' = cc done in
            subst (Histories svcs (handled slice remove last)) is (record {
              of_services = h.of_services;
              of_slices = slice_event h.of_slices slice remove ect changed r;
            })
      ]

  Sliced-Histories :
      {svcs : Cluster KubeService} {last : LastEvents} {p : P}
      → Sliced svcs last p
      → Histories svcs last p
  unfolding new_proxier on_service_update on_service_synced on_endpoint_slices_synced
  Sliced-Histories new = record { of_services = start; of_slices = unused }
  Sliced-Histories (service_added run service e) =
      let h = Sliced-Histories run in
      record { of_services = added h.of_services service e; of_slices = h.of_slices }
  Sliced-Histories (service_updated run old service e) =
      let h = Sliced-Histories run in
      record { of_services = updated h.of_services old service e; of_slices = h.of_slices }
  Sliced-Histories (service_deleted run old e) =
      let h = Sliced-Histories run in
      record { of_services = deleted h.of_services old e; of_slices = h.of_slices }
  Sliced-Histories (slice_handled run slice remove p' asks e) =
      slice-Histories (Sliced-Histories run) slice remove p' asks e
  Sliced-Histories (services_synced run w) =
      let h = Sliced-Histories run in
      sync-Histories _ w (record { of_services = h.of_services; of_slices = h.of_slices })
  Sliced-Histories (slices_synced run w) =
      let h = Sliced-Histories run in
      sync-Histories _ w (record { of_services = h.of_services; of_slices = h.of_slices })
  Sliced-Histories (rules_synced run w) = sync-Histories _ w (Sliced-Histories run)

  -- Where services and endpoint slices are watched: whatever the handlers, the Synced handlers and the
  -- sync runner did to a new proxier, in any order, a syncProxyRules of an initialized proxier leaves
  -- in its service map exactly the entries that the services of the cluster call for, and in its
  -- endpoints map, for each service, just what getEndpointsMap makes of slices of which each agrees
  -- with the last event of its name.
  pub sync_proxy_rules-ShowsLast :
      {svcs : Cluster KubeService} {last : LastEvents} {p : P}
      → Sliced svcs last p
      → is_initialized p ≡ true
      → (w : dp.World)
      → ((k : ServicePortName)
          → get k (sync_proxy_rules x config servers set dp p w).0.service_map
            ≡ wanted x (some (new_service_info x)) svcs k)
        × ((svc : NamespacedName)
            → ShowsLast x hostname
                (some false)
                (some new_endpoint_info)
                last
                svc
                (sync_proxy_rules x config servers set dp p w).0.endpoints_map)
  unfolding sync_proxy_rules
  sync_proxy_rules-ShowsLast {p = p} run ready w =
      let h = Sliced-Histories run in
      rw ready (
        λ k. update_service_map-wanted x (some (new_service_info x)) h.of_services k,
        λ svc.
            update_endpoints_map-ShowsLast x hostname (some false) (some new_endpoint_info)
              h.of_slices svc,
      )
