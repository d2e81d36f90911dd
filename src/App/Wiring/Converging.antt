-- ===== src/App/Wiring/Converging.antt =====
-- ProxyServer.Run with services and endpoints: from what the informers deliver to the proxier's maps.
use kube_haproxy.Prelude.{
  true, false, none, some, ◌≡◌, refl, sym, ◌∙◌, ap, subst, get, Option-cases, inl, inr, String,
}
use kube_haproxy.Kube.{KubeService, KubeEndpoints, namespaced_name_eq}
use kube_haproxy.External.{External, GoSet}
use kube_haproxy.Api.{ServicePortName, service_port_name_eq}
use kube_haproxy.App.Wiring.{
  Event, added, updated, deleted, cache_synced, Kind, of_services, of_endpoints, of_slices, deliver,
  server_configs, runner_sync,
}
use kube_haproxy.Config.{
  service, endpoints, Delivered, delivered_object, as_service, as_endpoints, handle_add,
  handle_update, handle_delete, run,
}
use kube_haproxy.Controller.Changes.History.{Cluster}
use kube_haproxy.Controller.Endpoints.Refinement.{wanted as wanted_endpoints}
use kube_haproxy.Controller.Service.Refinement.{wanted as wanted_services}
use kube_haproxy.Haproxy.Types.{Server, server_eq}
use kube_haproxy.Haproxy.Dataplane.{Dataplane}
use kube_haproxy.Haproxy.Graceful.{SrvItem, srv_item_eq}
use kube_haproxy.Haproxy.Proxier.{
  Proxier, Config, new_proxier, new_service_info, new_endpoint_info, is_initialized,
  sync_proxy_rules, on_service_update, on_endpoints_update, on_service_synced, on_endpoints_synced,
}
use kube_haproxy.Haproxy.Proxier.Converges.{
  Watched, new, service_added, service_updated, service_deleted, endpoints_added, endpoints_updated,
  endpoints_deleted, services_synced, endpoints_synced, rules_synced, sync_proxy_rules-converges,
}
use kube_haproxy.App.Wiring.Informed.{
  IsForeign, S, told, Informed, started, add_service, update_service, delete_service, add_endpoints,
  update_endpoints, delete_endpoints, caches_synced, foreign, runner_synced,
}

module _ (x : External) (config : Config) (servers : GoSet Server) (set : GoSet SrvItem)
    (dp : Dataplane) (list : set.Carrier) (hostname : String) where
  -- The state is a proxier that went through the same.
  record Seen (svcs : Cluster KubeService) (epss : Cluster KubeEndpoints)
      (s : S x config servers set dp list hostname) : Type 0 where
    proxier : Proxier set.Carrier
    world : dp.World
    is : s ≡ some (proxier, world)
    watched : Watched x config servers set dp list hostname svcs epss proxier

  foreign-told :
      (kind : Kind) (event : Event) (s : S x config servers set dp list hostname)
      → IsForeign kind event
      → told x config servers set dp list hostname kind event s ≡ s
  unfolding server_configs deliver handle_add handle_update handle_delete run
  foreign-told of_services (added obj) s h = rw (h, handle_add) refl
  foreign-told of_services (updated old obj) s (inl h) = rw (h, handle_update) refl
  foreign-told of_services (updated old obj) s (inr h) = elim (Option-cases (as_service old)) [
    | inl o ↦ rw (o, handle_update) refl
    | inr (t, o) ↦ rw (o, h, handle_update) refl
  ]
  foreign-told of_services (deleted obj) s h = rw (h, handle_delete) refl
  foreign-told of_services (cache_synced ok) s h = rw h refl
  foreign-told of_endpoints (added obj) s h = rw (h, handle_add) refl
  foreign-told of_endpoints (updated old obj) s (inl h) = rw (h, handle_update) refl
  foreign-told of_endpoints (updated old obj) s (inr h) = elim (Option-cases (as_endpoints old)) [
    | inl o ↦ rw (o, handle_update) refl
    | inr (t, o) ↦ rw (o, h, handle_update) refl
  ]
  foreign-told of_endpoints (deleted obj) s h = rw (h, handle_delete) refl
  foreign-told of_endpoints (cache_synced ok) s h = rw h refl
  foreign-told of_slices event s h = refl

  -- A step from a state that is a proxier to another one.
  stepped :
      {svcs svcs' : Cluster KubeService} {epss epss' : Cluster KubeEndpoints}
      {s : S x config servers set dp list hostname}
      (f : S x config servers set dp list hostname → S x config servers set dp list hostname)
      (h : Seen svcs epss s) (p : Proxier set.Carrier) (w : dp.World)
      → f (some (h.proxier, h.world)) ≡ some (p, w)
      → Watched x config servers set dp list hostname svcs' epss' p
      → Seen svcs' epss' (f s)
  stepped f h p w e watched = record {
    proxier = p;
    world = w;
    is = ap f h.is ∙ e;
    watched = watched;
  }

  deleted_service :
      (old : KubeService) (obj : Delivered) (p : Proxier set.Carrier) (w : dp.World)
      → delivered_object obj ≡ service old
      → told x config servers set dp list hostname of_services (deleted obj) (some (p, w))
        ≡ some ((on_service_update x config servers set dp (some old) none p).0, w)
  unfolding server_configs deliver handle_delete
  deleted_service old obj p w e = rw (ap as_service e, handle_delete) refl

  deleted_endpoints :
      (old : KubeEndpoints) (obj : Delivered) (p : Proxier set.Carrier) (w : dp.World)
      → delivered_object obj ≡ endpoints old
      → told x config servers set dp list hostname of_endpoints (deleted obj) (some (p, w))
        ≡ some ((on_endpoints_update x config servers set dp (some old) none p).0, w)
  unfolding server_configs deliver handle_delete
  deleted_endpoints old obj p w e = rw (ap as_endpoints e, handle_delete) refl

  synced_kind :
      {svcs : Cluster KubeService} {epss : Cluster KubeEndpoints}
      {s : S x config servers set dp list hostname} (kind : Kind)
      → Seen svcs epss s
      → Seen svcs epss (told x config servers set dp list hostname kind (cache_synced true) s)
  unfolding server_configs deliver run
  synced_kind of_services h =
      stepped (told x config servers set dp list hostname of_services (cache_synced true)) h
        (on_service_synced x config servers set dp h.proxier h.world).0
        (on_service_synced x config servers set dp h.proxier h.world).1 refl
        (services_synced h.watched h.world)
  synced_kind of_endpoints h =
      stepped (told x config servers set dp list hostname of_endpoints (cache_synced true)) h
        (on_endpoints_synced x config servers set dp h.proxier h.world).0
        (on_endpoints_synced x config servers set dp h.proxier h.world).1 refl
        (endpoints_synced h.watched h.world)
  synced_kind of_slices h = h

  Informed-Seen :
      {svcs : Cluster KubeService} {epss : Cluster KubeEndpoints}
      {s : S x config servers set dp list hostname}
      → Informed x config servers set dp list hostname svcs epss s
      → Seen svcs epss s
  unfolding server_configs deliver handle_add handle_update runner_sync
  Informed-Seen (started w) = record {
    proxier = new_proxier x list hostname false;
    world = w;
    is = refl;
    watched = new;
  }
  Informed-Seen (add_service run svc e) =
      let h = Informed-Seen run in
      stepped (told x config servers set dp list hostname of_services (added (service svc))) h _
        h.world refl (service_added h.watched svc e)
  Informed-Seen (update_service run old svc e) =
      let h = Informed-Seen run in
      stepped
        (told x config servers set dp list hostname of_services
          (updated (service old) (service svc)))
        h _ h.world refl (service_updated h.watched old svc e)
  Informed-Seen (delete_service run old obj d e) =
      let h = Informed-Seen run in
      stepped (told x config servers set dp list hostname of_services (deleted obj)) h _ h.world
        (deleted_service old obj h.proxier h.world d) (service_deleted h.watched old e)
  Informed-Seen (add_endpoints run eps e) =
      let h = Informed-Seen run in
      stepped (told x config servers set dp list hostname of_endpoints (added (endpoints eps))) h _
        h.world refl (endpoints_added h.watched eps e)
  Informed-Seen (update_endpoints run old eps e) =
      let h = Informed-Seen run in
      stepped
        (told x config servers set dp list hostname of_endpoints
          (updated (endpoints old) (endpoints eps)))
        h _ h.world refl (endpoints_updated h.watched old eps e)
  Informed-Seen (delete_endpoints run old obj d e) =
      let h = Informed-Seen run in
      stepped (told x config servers set dp list hostname of_endpoints (deleted obj)) h _ h.world
        (deleted_endpoints old obj h.proxier h.world d) (endpoints_deleted h.watched old e)
  Informed-Seen (caches_synced run kind) = synced_kind kind (Informed-Seen run)
  Informed-Seen {svcs} {epss} (foreign {s = s} run kind event f) =
      subst (Seen svcs epss) (sym (foreign-told kind event s f)) (Informed-Seen run)
  Informed-Seen (runner_synced run) =
      let h = Informed-Seen run in
      stepped (runner_sync x config servers set dp) h
        (sync_proxy_rules x config servers set dp h.proxier h.world).0
        (sync_proxy_rules x config servers set dp h.proxier h.world).1 refl
        (rules_synced h.watched h.world)

  -- The maps of the proxier show the objects that the cluster has.
  pub record ShowsCluster (svcs : Cluster KubeService) (epss : Cluster KubeEndpoints)
      (s : S x config servers set dp list hostname) : Type 0 where
    pub proxier : Proxier set.Carrier
    pub world : dp.World
    pub is : s ≡ some (proxier, world)
    pub services :
        (k : ServicePortName)
        → get k proxier.service_map ≡ wanted_services x (some (new_service_info x)) svcs k
    pub endpoints :
        (k : ServicePortName)
        → get k proxier.endpoints_map
          ≡ wanted_endpoints x hostname (some new_endpoint_info) (some false) epss k

  abbrev pub IsReady : S x config servers set dp list hostname → Type 0
  IsReady s = (p : Proxier set.Carrier) (w : dp.World) → s ≡ some (p, w) → is_initialized p ≡ true

  -- ProxyServer.Run without endpoint slices: whatever the informers deliver after the start, updates,
  -- deletions bare or in tombstones, events of other kinds or of failed syncs, and whenever the runner
  -- syncs in between, the proxier does not panic, and once it is initialized a sync of the runner
  -- leaves its two maps with exactly the entries that the objects of the cluster call for.
  pub runner_sync-ShowsCluster :
      {svcs : Cluster KubeService} {epss : Cluster KubeEndpoints}
      {s : S x config servers set dp list hostname}
      → Informed x config servers set dp list hostname svcs epss s
      → IsReady s
      → ShowsCluster svcs epss (runner_sync x config servers set dp s)
  unfolding runner_sync
  runner_sync-ShowsCluster informed ready =
      let h = Informed-Seen informed in
      let initialized = ready h.proxier h.world h.is in
      record {
        proxier = (sync_proxy_rules x config servers set dp h.proxier h.world).0;
        world = (sync_proxy_rules x config servers set dp h.proxier h.world).1;
        is = ap (runner_sync x config servers set dp) h.is;
        services = λ k.
            (sync_proxy_rules-converges x config servers set dp list hostname h.watched initialized
              h.world k).0;
        endpoints = λ k.
            (sync_proxy_rules-converges x config servers set dp list hostname h.watched initialized
              h.world k).1;
      }
