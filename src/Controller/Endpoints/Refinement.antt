-- ===== src/Controller/Endpoints/Refinement.antt =====
-- The endpoints map against the cluster: a history of updates and syncs, in any order.
use kube_haproxy.Prelude.{
  get, Option, none, some, List, [], ◌≡◌, refl, ◌∙◌, ap, Bool, false, String, string_eq, nat_eq,
  list_eq,
}
use kube_haproxy.Kube.{KubeEndpoints}
use kube_haproxy.Api.{ServicePortName, service_port_name_eq}
use kube_haproxy.External.{External}
use kube_haproxy.Controller.Changes.{Items, apply_all}
use kube_haproxy.Controller.Changes.Tracking.{view, Tracks-empty}
use kube_haproxy.Controller.Changes.History.{
  Cluster, with_object, IsNamed, InStep, InStep-update, InStep-shows, InStep-sync,
}
use kube_haproxy.Controller.Endpoint.{EndpointsMap, Endpoint, Maker, endpoint_eq}
use kube_haproxy.Controller.Endpoints.{
  Applied, update, update_object, apply, checkout_changes, apply_change, update_endpoints_map,
}
use kube_haproxy.Controller.EndpointsTracker.{
  EndpointChangeTracker, new_endpoint_change_tracker, endpoints_to_endpoints_map, endpoints_key,
}
use kube_haproxy.Controller.Endpoints.Merging.{read, apply_change-HasEffect}
use kube_haproxy.Controller.Endpoints.Translation.{
  SameConfig, translation-config, translation-Confined,
}

-- What the informer and the sync runner may do, from the start.
pub data History (x : External) (hostname : String) (make : Maker) (is_ipv6_mode : Option Bool)
    : Cluster KubeEndpoints → EndpointsMap → EndpointChangeTracker → Type 0 where
  start :
      History x hostname make is_ipv6_mode
        (λ _. none)
        []
        (new_endpoint_change_tracker hostname make is_ipv6_mode false)
  added :
      {cluster : Cluster KubeEndpoints} {em : EndpointsMap} {ect : EndpointChangeTracker}
      → History x hostname make is_ipv6_mode cluster em ect
      → (new : KubeEndpoints) → none ≡ cluster (endpoints_key x new)
      → History x hostname make is_ipv6_mode
          (with_object (endpoints_key x new) (some new) cluster)
          em
          (update x ect none (some new)).0
  updated :
      {cluster : Cluster KubeEndpoints} {em : EndpointsMap} {ect : EndpointChangeTracker}
      → History x hostname make is_ipv6_mode cluster em ect
      → (old new : KubeEndpoints) → some old ≡ cluster (endpoints_key x new)
      → History x hostname make is_ipv6_mode
          (with_object (endpoints_key x new) (some new) cluster)
          em
          (update x ect (some old) (some new)).0
  deleted :
      {cluster : Cluster KubeEndpoints} {em : EndpointsMap} {ect : EndpointChangeTracker}
      → History x hostname make is_ipv6_mode cluster em ect
      → (old : KubeEndpoints) → some old ≡ cluster (endpoints_key x old)
      → History x hostname make is_ipv6_mode
          (with_object (endpoints_key x old) none cluster)
          em
          (update x ect (some old) none).0
  synced :
      {cluster : Cluster KubeEndpoints} {em : EndpointsMap} {ect : EndpointChangeTracker}
      → History x hostname make is_ipv6_mode cluster em ect
      → History x hostname make is_ipv6_mode cluster
          (update_endpoints_map x em ect).0.endpoints_map
          (update_endpoints_map x em ect).3

module _ (x : External) (hostname : String) (make : Maker) (is_ipv6_mode : Option Bool) where
  abbrev ect₀ : EndpointChangeTracker
  ect₀ = new_endpoint_change_tracker hostname make is_ipv6_mode false

  -- The entries that the cluster's endpoints call for.
  abbrev pub wanted : Cluster KubeEndpoints → ServicePortName → Option (List Endpoint)
  wanted cluster k = view (endpoints_to_endpoints_map x ect₀ (cluster k.namespaced_name)) k

  abbrev unapplied : EndpointsMap → Applied
  unapplied em = record { endpoints_map = em; stale_endpoints = []; stale_service_names = [] }

  abbrev Shown : Cluster KubeEndpoints → EndpointsMap → Items (List Endpoint) → Type 0
  Shown cluster em items =
      InStep (endpoints_key x) (endpoints_to_endpoints_map x ect₀) (translation-Confined x ect₀)
        read apply_change apply_change-HasEffect cluster items (unapplied em)

  record Inv (cluster : Cluster KubeEndpoints) (em : EndpointsMap) (ect : EndpointChangeTracker)
      : Type 0 where
    config : SameConfig x ect ect₀
    shown : Shown cluster em ect.items

  update-Inv :
      {cluster : Cluster KubeEndpoints} {em : EndpointsMap} {ect : EndpointChangeTracker}
      → Inv cluster em ect
      → (eps : KubeEndpoints) (old new : Option KubeEndpoints) → old ≡ cluster (endpoints_key x eps)
      → IsNamed (endpoints_key x) (endpoints_key x eps) new
      → Inv (with_object (endpoints_key x eps) new cluster) em (update_object x ect eps old new).0
  unfolding update_object
  update-Inv h eps old new e named = record {
    config = record {
      hostname = h.config.hostname;
      maker = h.config.maker;
      family = h.config.family;
      cache = h.config.cache;
    };
    shown =
        rw (translation-config x h.config old, translation-config x h.config new)
          (InStep-update (endpoints_key x) (endpoints_to_endpoints_map x ect₀)
            (translation-Confined x ect₀) read apply_change apply_change-HasEffect h.shown
            (endpoints_key x eps) old new e named);
  }

  start-Inv : Inv (λ _. none) [] ect₀
  unfolding endpoints_to_endpoints_map get new_endpoint_change_tracker
  start-Inv = record {
    config = record { hostname = refl; maker = refl; family = refl; cache = refl };
    shown = record {
      synced = λ _. none;
      synced_keyed = λ _. tt;
      keyed = λ _. tt;
      tracks = Tracks-empty _;
      shows = λ k. refl;
    };
  }

  checkout_items :
      (ect : EndpointChangeTracker)
      → ect.endpoint_slice_cache ≡ none
      → checkout_changes x ect ≡ (ect.items, record ect { items = [] })
  unfolding checkout_changes
  checkout_items ect e = rw e

  abbrev cleared : EndpointChangeTracker → EndpointChangeTracker
  cleared ect = record ect { items = []; last_change_trigger_times = [] }

  updated_map :
      (em : EndpointsMap) (ect : EndpointChangeTracker)
      → ect.endpoint_slice_cache ≡ none
      → (update_endpoints_map x em ect).0.endpoints_map
        ≡ (apply_all apply_change ect.items (unapplied em)).endpoints_map
  unfolding update_endpoints_map apply
  updated_map em ect e =
      ap {A = Items (List Endpoint) × EndpointChangeTracker}
        (λ c. (apply_all apply_change c.0 (unapplied em)).endpoints_map) (checkout_items ect e)

  updated_tracker :
      (em : EndpointsMap) (ect : EndpointChangeTracker)
      → ect.endpoint_slice_cache ≡ none
      → (update_endpoints_map x em ect).3 ≡ cleared ect
  unfolding update_endpoints_map apply
  updated_tracker em ect e =
      ap {A = Items (List Endpoint) × EndpointChangeTracker} {B = EndpointChangeTracker}
        (λ c. record (c.1) { last_change_trigger_times = [] }) (checkout_items ect e)

  no_cache : {ect : EndpointChangeTracker} → SameConfig x ect ect₀ → ect.endpoint_slice_cache ≡ none
  unfolding new_endpoint_change_tracker
  no_cache c = c.cache

  applied-Inv :
      {cluster : Cluster KubeEndpoints} {em : EndpointsMap} {ect : EndpointChangeTracker}
      → Inv cluster em ect
      → Inv cluster (apply_all apply_change ect.items (unapplied em)).endpoints_map (cleared ect)
  applied-Inv h =
      let next =
        InStep-sync (endpoints_key x) (endpoints_to_endpoints_map x ect₀)
          (translation-Confined x ect₀) read apply_change apply_change-HasEffect h.shown in
      record {
        config = record {
          hostname = h.config.hostname;
          maker = h.config.maker;
          family = h.config.family;
          cache = h.config.cache;
        };
        shown = record {
          synced = next.synced;
          synced_keyed = next.synced_keyed;
          keyed = next.keyed;
          tracks = next.tracks;
          shows = next.shows;
        };
      }

  synced-Inv :
      {cluster : Cluster KubeEndpoints} {em : EndpointsMap} {ect : EndpointChangeTracker}
      → Inv cluster em ect
      → Inv cluster
          (update_endpoints_map x em ect).0.endpoints_map
          (update_endpoints_map x em ect).3
  synced-Inv {em} {ect} h =
      rw (updated_map em ect (no_cache h.config), updated_tracker em ect (no_cache h.config))
        (applied-Inv h)

  History-Inv :
      {cluster : Cluster KubeEndpoints} {em : EndpointsMap} {ect : EndpointChangeTracker}
      → History x hostname make is_ipv6_mode cluster em ect
      → Inv cluster em ect
  unfolding update
  History-Inv start = start-Inv
  History-Inv (added h new e) = update-Inv (History-Inv h) new none (some new) e refl
  History-Inv (updated h old new e) = update-Inv (History-Inv h) new (some old) (some new) e refl
  History-Inv (deleted h old e) = update-Inv (History-Inv h) old (some old) none e tt
  History-Inv (synced h) = synced-Inv (History-Inv h)

  -- After any history of the three handlers and of syncs, in any order, one more call of
  -- EndpointsMap.Update leaves in the map exactly the endpoint lists of the objects that the cluster
  -- has now, for every service port name.
  pub update_endpoints_map-wanted :
      {cluster : Cluster KubeEndpoints} {em : EndpointsMap} {ect : EndpointChangeTracker}
      → History x hostname make is_ipv6_mode cluster em ect
      → (k : ServicePortName)
      → get k (update_endpoints_map x em ect).0.endpoints_map ≡ wanted cluster k
  update_endpoints_map-wanted {em} {ect} h k =
      ap (get k) (updated_map em ect (no_cache (History-Inv h).config))
      ∙ InStep-shows (endpoints_key x) (endpoints_to_endpoints_map x ect₀)
          (translation-Confined x ect₀) read apply_change apply_change-HasEffect
          (History-Inv h).shown k
