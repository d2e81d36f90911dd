-- ===== src/Controller/Endpoints/FromSlices.antt =====
-- The endpoints map against the endpoint slices: a history of slice events and syncs, in any order.
use kube_haproxy.Prelude.{
  String, Bool, true, Option, none, some, List, [], get, IsNodup, ◌≡◌, refl, sym, ◌∙◌, ap,
  string_eq,
}
use kube_haproxy.Kube.{NamespacedName, namespaced_name_eq, EndpointSlice}
use kube_haproxy.Api.{ServicePortName, service_port_name_eq}
use kube_haproxy.External.{External}
use kube_haproxy.Controller.Changes.{Items, apply_all}
use kube_haproxy.Controller.Changes.Applying.{apply_all-view}
use kube_haproxy.Controller.Endpoint.{EndpointsMap, Endpoint, Maker, endpoint_eq}
use kube_haproxy.Controller.Slices.{
  EndpointSliceInfoByName, EndpointSliceCache, new_endpoint_slice_cache, tracker_or_new,
}
use kube_haproxy.Controller.Checkout
use kube_haproxy.Controller.Checkout.{get_endpoints_map}
use kube_haproxy.Controller.Checkout.History.{
  History, LastEvents, start, slice_updated, checked_out, AgreesLast, updated-applied,
  checkout_changes-AgreesLast,
}
use kube_haproxy.Controller.Checkout.Mapping.{get_endpoints_map-bare}
use kube_haproxy.Controller.Checkout.Tracked.{checkout_changes-Tracks, maps-IsProper}
use kube_haproxy.Controller.Checkout.Updating.{updated, update_pending-updated}
use kube_haproxy.Controller.Checkout.WellFormed.{History-IsWellFormed}
use kube_haproxy.Controller.Endpoints.{
  Applied, endpoint_slice_update, checkout_changes, apply, apply_change, update_endpoints_map,
}
use kube_haproxy.Controller.EndpointsTracker.{EndpointChangeTracker, new_endpoint_change_tracker}
use kube_haproxy.Controller.Endpoints.Merging.{read, apply_change-HasEffect}
use kube_haproxy.Controller.Endpoints.SliceEvents.{
  handled, Taken, endpoint_slice_update-Next, ignored, taken,
}

-- What the informer of slices and the sync runner may do to a new tracker, with the last event of each
-- slice. An event that panics has no next state.
pub data SliceHistory (x : External) (hostname : String) (mode : Option Bool) (make : Maker)
    : LastEvents → EndpointsMap → EndpointChangeTracker → Type 0 where
  unused :
      SliceHistory x hostname mode make
        (λ _ _. none)
        []
        (new_endpoint_change_tracker hostname make mode true)
  slice_event :
      {last : LastEvents} {em : EndpointsMap} {ect : EndpointChangeTracker}
      → SliceHistory x hostname mode make last em ect
      → (slice : EndpointSlice) (remove : Bool) (ect' : EndpointChangeTracker) (changed : Bool)
      → endpoint_slice_update x ect (some slice) remove ≡ some (ect', changed)
      → SliceHistory x hostname mode make (handled slice remove last) em ect'
  synced :
      {last : LastEvents} {em : EndpointsMap} {ect : EndpointChangeTracker}
      → SliceHistory x hostname mode make last em ect
      → SliceHistory x hostname mode make last
          (update_endpoints_map x em ect).0.endpoints_map
          (update_endpoints_map x em ect).3

module _ (x : External) (hostname : String) (mode : Option Bool) (make : Maker) where
  -- The endpoints map of the given slices of a service.
  abbrev pub map_of_slices : NamespacedName → EndpointSliceInfoByName → EndpointsMap
  map_of_slices = get_endpoints_map x (new_endpoint_slice_cache hostname mode make)

  -- The map shows the slices that are applied.
  record Inv (last : LastEvents) (em : EndpointsMap) (ect : EndpointChangeTracker) : Type 0 where
    cache : EndpointSliceCache
    held : ect.endpoint_slice_cache ≡ some cache
    run : History x hostname mode make last cache
    shows :
        (k : ServicePortName)
        → get k em
          ≡ get k (map_of_slices k.namespaced_name (tracker_or_new k.namespaced_name cache).applied)

  map_of_slices-run :
      {last : LastEvents} {cache : EndpointSliceCache}
      → History x hostname mode make last cache
      → (nn : NamespacedName) (infos : EndpointSliceInfoByName)
      → get_endpoints_map x cache nn infos ≡ map_of_slices nn infos
  map_of_slices-run {cache = cache} run nn infos =
      get_endpoints_map-bare x cache nn infos
      ∙ ap (λ c. get_endpoints_map x c nn infos)
          (History-IsWellFormed x hostname mode make run).config

  taken-Inv :
      {last last' : LastEvents} {em : EndpointsMap} {ect ect' : EndpointChangeTracker}
      (h : Inv last em ect) (cache' : EndpointSliceCache)
      → ect'.endpoint_slice_cache ≡ some cache'
      → Taken h.cache last last' cache'
      → Inv last' em ect'
  taken-Inv h cache' held ignored = record {
    cache = h.cache;
    held = held;
    run = h.run;
    shows = h.shows;
  }
  taken-Inv h cache' held (taken slice remove svc name new keys info) = record {
    cache = (updated h.cache svc name new).0;
    held = held;
    run =
        slice_updated h.run slice remove svc name new (updated h.cache svc name new).0
          (updated h.cache svc name new).1 keys info
          (update_pending-updated h.cache slice remove svc name new keys info);
    shows = λ k.
        let nn = k.namespaced_name in
        h.shows k
        ∙ ap (λ infos. get k (map_of_slices nn infos))
            (sym (updated-applied h.cache svc nn name new));
  }

  no_slices : (k : ServicePortName) → none ≡ get k (map_of_slices k.namespaced_name [])
  unfolding get_endpoints_map get
  no_slices k = refl

  abbrev unapplied : EndpointsMap → Applied
  unapplied em = record { endpoints_map = em; stale_endpoints = []; stale_service_names = [] }

  checkout_cache :
      (ect : EndpointChangeTracker) (cache : EndpointSliceCache)
      → ect.endpoint_slice_cache ≡ some cache
      → checkout_changes x ect ≡ (
        (Checkout.checkout_changes x cache).0,
        record ect { endpoint_slice_cache = some (Checkout.checkout_changes x cache).1 },
      )
  unfolding checkout_changes
  checkout_cache ect cache e = rw e

  updated_map :
      (em : EndpointsMap) (ect : EndpointChangeTracker) (cache : EndpointSliceCache)
      → ect.endpoint_slice_cache ≡ some cache
      → (update_endpoints_map x em ect).0.endpoints_map
        ≡ (apply_all apply_change
            (Checkout.checkout_changes x cache).0
            (unapplied em)).endpoints_map
  unfolding update_endpoints_map apply
  updated_map em ect cache e =
      ap {A = Items (List Endpoint) × EndpointChangeTracker}
        (λ c. (apply_all apply_change c.0 (unapplied em)).endpoints_map)
        (checkout_cache ect cache e)

  updated_cache :
      (em : EndpointsMap) (ect : EndpointChangeTracker) (cache : EndpointSliceCache)
      → ect.endpoint_slice_cache ≡ some cache
      → (update_endpoints_map x em ect).3.endpoint_slice_cache
        ≡ some (Checkout.checkout_changes x cache).1
  unfolding update_endpoints_map apply
  updated_cache em ect cache e =
      ap {A = Items (List Endpoint) × EndpointChangeTracker} {B = Option EndpointSliceCache}
        (λ c. (c.1).endpoint_slice_cache) (checkout_cache ect cache e)

  synced-shows :
      {last : LastEvents} {em : EndpointsMap} {ect : EndpointChangeTracker} (h : Inv last em ect)
      (k : ServicePortName)
      → get k (update_endpoints_map x em ect).0.endpoints_map
        ≡ get k (
            map_of_slices k.namespaced_name
              (tracker_or_new k.namespaced_name (Checkout.checkout_changes x h.cache).1).applied)
  synced-shows {em = em} {ect} h k =
      let nn = k.namespaced_name in
      let same = map_of_slices-run h.run nn in
      ap (get k) (updated_map em ect h.cache h.held)
      ∙ apply_all-view read apply_change apply_change-HasEffect k
          (Checkout.checkout_changes x h.cache).0 (unapplied em)
          (maps-IsProper x h.cache (λ svc. tracker_or_new svc h.cache))
          (maps-IsProper x h.cache
            (λ svc. tracker_or_new svc (Checkout.checkout_changes x h.cache).1))
          (checkout_changes-Tracks x h.cache
            (History-IsWellFormed x hostname mode make h.run).trackers)
          (h.shows k ∙ ap (get k) (sym (same (tracker_or_new nn h.cache).applied)))
      ∙ ap (get k) (same _)

  SliceHistory-Inv :
      {last : LastEvents} {em : EndpointsMap} {ect : EndpointChangeTracker}
      → SliceHistory x hostname mode make last em ect
      → Inv last em ect
  unfolding new_endpoint_change_tracker new_endpoint_slice_cache get
  SliceHistory-Inv unused = record {
    cache = new_endpoint_slice_cache hostname mode make;
    held = refl;
    run = start;
    shows = λ k. no_slices k;
  }
  SliceHistory-Inv (slice_event {last} {ect = ect} h slice remove ect' changed e) =
      let i = SliceHistory-Inv h in
      let n = endpoint_slice_update-Next x ect slice remove i.cache last i.held e in
      taken-Inv i n.cache' n.is n.by_event
  SliceHistory-Inv (synced {em = em} {ect} h) =
      let i = SliceHistory-Inv h in
      record {
        cache = (Checkout.checkout_changes x i.cache).1;
        held = updated_cache em ect i.cache i.held;
        run = checked_out i.run;
        shows = synced-shows i;
      }

  -- The entries of a service in a map are those of slices that agree with the last events.
  pub record ShowsLast (last : LastEvents) (svc : NamespacedName) (em : EndpointsMap) : Type 0 where
    pub slices : EndpointSliceInfoByName
    pub nodup : IsNodup slices
    pub agree : (name : String) → AgreesLast (last svc name) (get name slices)
    pub shown :
        (k : ServicePortName)
        → k.namespaced_name ≡ svc
        → get k em ≡ get k (map_of_slices svc slices)

  -- Where slices are watched: after any history of slice events and syncs of a new tracker, in any
  -- order, one more call of EndpointsMap.Update leaves in the map, under every service port name of a
  -- service, just what getEndpointsMap makes of slices of which each agrees with the last event of
  -- its name: there is none where the slice had no event or was deleted last, else the entry made
  -- from the slice as it was last, or one equal to that for reflect.DeepEqual.
  pub update_endpoints_map-ShowsLast :
      {last : LastEvents} {em : EndpointsMap} {ect : EndpointChangeTracker}
      → SliceHistory x hostname mode make last em ect
      → (svc : NamespacedName) → ShowsLast last svc (update_endpoints_map x em ect).0.endpoints_map
  update_endpoints_map-ShowsLast h svc =
      let i = SliceHistory-Inv h in
      let after = (Checkout.checkout_changes x i.cache).1 in
      record {
        slices = (tracker_or_new svc after).applied;
        nodup = (History-IsWellFormed x hostname mode make (checked_out i.run)).applied svc;
        agree = checkout_changes-AgreesLast x hostname mode make i.run svc;
        shown = λ k e.
            synced-shows i k
            ∙ ap (λ nn. get k (map_of_slices nn (tracker_or_new nn after).applied)) e;
      }
