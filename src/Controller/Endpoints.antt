-- ===== src/Controller/Endpoints.antt =====
-- controller/endpoints.go: endpoints, the endpoints map, and the tracker of endpoints changes. The
-- cache of endpoint slices, which the tracker may hold, is in Slices.
pub mod Merging
pub mod Translation
pub mod LocalIps
pub mod Refinement
pub mod SliceEvents
pub mod FromSlices
use kube_haproxy.Prelude.{
  ℕ, String, Bool, true, false, not, Option, none, some, List, [], ◌∷◌, ◌++◌, DecEq, ◌==◌,
  if◌then◌else◌, is_some, get, put, delete, GoMap, NilMap, entries, ◌&&◌, ◌||◌, string_eq, nat_eq,
  bool_eq, is_empty, String_discrete, Bool_discrete, get_or_empty, list_eq, map,
}
use kube_haproxy.Kube.{
  NamespacedName, namespaced_name_eq, KubeEndpoints, EndpointSlice, EndpointSubset, EndpointPort,
  EndpointAddress, protocol_udp,
}
use kube_haproxy.External.{External}
use kube_haproxy.Api.{ServicePortName, service_port_name_eq, ServiceEndpoint}
use kube_haproxy.Controller.Changes.{Change, Items, track, apply_all}
use kube_haproxy.Controller.Endpoint.{
  Endpoint, EndpointsMap, Maker, endpoint_eq, endpoint_string, get_is_local, make_endpoint,
  new_base_endpoint_info, wrong_ip_version,
}
use kube_haproxy.Controller.Slices.{
  EndpointSliceCache, new_endpoint_slice_cache, update_pending, endpoint_slice_cache_keys,
}
use kube_haproxy.Controller.Checkout
use kube_haproxy.Controller.Stale.{detect_stale_endpoints, detect_stale_services}
use kube_haproxy.Controller.EndpointsTracker.{
  TriggerTimes, EndpointChangeTracker, new_endpoint_change_tracker, is_local_address, add_addresses,
  endpoints_key, add_ports, add_subsets, endpoints_to_endpoints_map,
}

-- supportedEndpointSliceAddressTypes
abbrev pub is_supported_address_type : String → Bool
is_supported_address_type t = t == "IP" || t == "IPv4" || t == "IPv6"

-- EndpointsMap.merge: `other` wins.
unfoldable pub merge : EndpointsMap → EndpointsMap → EndpointsMap
merge em [] = em
merge em ((k, eps) ∷ other) = put k eps (merge em other)

-- EndpointsMap.unmerge
unfoldable pub unmerge : EndpointsMap → EndpointsMap → EndpointsMap
unmerge em [] = em
unmerge em ((k, _) ∷ other) = delete k (unmerge em other)

-- What EndpointsMap.apply reads and writes: the map, the stale endpoints and the stale services.
pub record Applied : Type 0 where
  pub endpoints_map : EndpointsMap
  pub stale_endpoints : List ServiceEndpoint
  pub stale_service_names : List ServicePortName

-- The loop body of EndpointsMap.apply.
unfoldable pub apply_change : Change (List Endpoint) → Applied → Applied
apply_change change s = record {
  endpoints_map =
      merge (unmerge s.endpoints_map (entries change.previous)) (entries change.current);
  stale_endpoints =
      s.stale_endpoints
      ++ detect_stale_endpoints (entries change.previous) (entries change.current);
  stale_service_names =
      s.stale_service_names
      ++ detect_stale_services (entries change.previous) (entries change.current);
}

-- checkoutTriggerTimes: the times that it was given, with those of the tracker appended.
unfoldable pub checkout_trigger_times : TriggerTimes → TriggerTimes → TriggerTimes
checkout_trigger_times [] times = times
checkout_trigger_times ((k, v) ∷ own) times =
    let times' = checkout_trigger_times own times in put k (get_or_empty k times' ++ v) times'

module _ (x : External) where
  -- getLastChangeTriggerTime: 0 is the zero time.
  unfoldable pub get_last_change_trigger_time : GoMap String String → ℕ
  get_last_change_trigger_time annotations =
      elim (get "endpoints.kubernetes.io/last-change-trigger-time" annotations) [
        | none ↦ 0
        | some text ↦ elim (x.parse_time text) [ none ↦ 0 | some t ↦ t ]
      ]

  -- The trigger times that Update records, before it looks for a change.
  abbrev pub note_trigger_time :
      NamespacedName → GoMap String String → Bool → TriggerTimes → TriggerTimes
  note_trigger_time nn annotations is_current times =
      let t = get_last_change_trigger_time annotations in
      if not (t == 0) && is_current then put nn (get_or_empty nn times ++ t ∷ []) times else times

  -- Update, once it has its object.
  unfoldable pub update_object :
      EndpointChangeTracker
      → KubeEndpoints
      → Option KubeEndpoints
      → Option KubeEndpoints
      → EndpointChangeTracker × Bool
  unfolding endpoints_to_endpoints_map get_last_change_trigger_time
  update_object ect eps previous current =
      let nn = endpoints_key x eps in
      let items =
        track nn (endpoints_to_endpoints_map x ect previous)
          (endpoints_to_endpoints_map x ect current) ect.items in
      let times =
        note_trigger_time nn eps.annotations (is_some current) ect.last_change_trigger_times in
      -- the object is still pending exactly if the change did not undo itself
      (
        record ect {
          items = items;
          last_change_trigger_times = if is_some (get nn items) then times else delete nn times;
        },
        not (is_empty items),
      )

  -- EndpointChangeTracker.Update: the new tracker, and whether changes are pending.
  unfoldable pub update :
      EndpointChangeTracker
      → Option KubeEndpoints
      → Option KubeEndpoints
      → EndpointChangeTracker × Bool
  update ect none none = (ect, false)
  update ect previous (some current) = update_object ect current previous (some current)
  update ect (some previous) none = update_object ect previous (some previous) none

  -- EndpointSliceUpdate: the tracker and whether it changed; none is a panic. Its test for a nil slice
  -- stands behind the first use of the slice, so a nil slice is another panic.
  unfoldable pub endpoint_slice_update :
      EndpointChangeTracker → Option EndpointSlice → Bool → Option (EndpointChangeTracker × Bool)
  unfolding get_last_change_trigger_time update_pending endpoint_slice_cache_keys
  endpoint_slice_update ect none remove = none
  endpoint_slice_update ect (some slice) remove =
      if not (is_supported_address_type slice.address_type)
      then some (ect, false)
      else (elim (endpoint_slice_cache_keys slice) [
        | none ↦ some (ect, false)
        | some (nn, _) ↦ elim ect.endpoint_slice_cache [
          | none ↦ none
          | some cache ↦ elim (update_pending cache slice remove) [
            | none ↦ none
            | some (cache', change_needed) ↦ some (
              record ect {
                endpoint_slice_cache = some cache';
                last_change_trigger_times =
                    if change_needed
                    then note_trigger_time nn slice.annotations (not remove)
                        ect.last_change_trigger_times
                    else ect.last_change_trigger_times;
              },
              change_needed,
            )
          ]
        ]
      ])

  -- EndpointChangeTracker.checkoutChanges
  unfoldable pub checkout_changes :
      EndpointChangeTracker → Items (List Endpoint) × EndpointChangeTracker
  checkout_changes ect = elim ect.endpoint_slice_cache [
    | some cache ↦
        let (changes, cache') = Checkout.checkout_changes x cache in
        (changes, record ect { endpoint_slice_cache = some cache' })
    | none ↦ (ect.items, record ect { items = [] })
  ]

  -- EndpointsMap.apply
  unfoldable pub apply :
      EndpointsMap
      → EndpointChangeTracker
      → TriggerTimes
      → Applied × TriggerTimes × EndpointChangeTracker
  unfolding apply_change merge unmerge detect_stale_endpoints detect_stale_services checkout_changes
  apply em ect times =
      let (changes, ect') = checkout_changes ect in
      (
        apply_all apply_change changes
            (record { endpoints_map = em; stale_endpoints = []; stale_service_names = [] }),
        checkout_trigger_times ect.last_change_trigger_times times,
        record ect' { last_change_trigger_times = [] },
      )

  -- getLocalEndpointIPs: the addresses of the local endpoints, by namespaced name.
  unfoldable pub add_local_ips :
      NamespacedName
      → List Endpoint
      → GoMap NamespacedName x.string_set.Carrier
      → GoMap NamespacedName x.string_set.Carrier
  add_local_ips nn [] ips = ips
  add_local_ips nn (ep ∷ eps) ips = add_local_ips nn eps (
      if get_is_local ep
      then put nn
          (x.string_set.add (x.ip_part (endpoint_string ep))
            (elim (get nn ips) [ none ↦ x.string_set.empty | some s ↦ s ]))
          ips
      else ips)

  unfoldable pub get_local_endpoint_ips : EndpointsMap → GoMap NamespacedName x.string_set.Carrier
  unfolding add_local_ips
  get_local_endpoint_ips [] = []
  get_local_endpoint_ips ((k, eps) ∷ em) =
      add_local_ips k.namespaced_name eps (get_local_endpoint_ips em)

  -- EndpointsMap.Update, with UpdateEndpointMapResult as the applied record, the sizes of the sets of
  -- local addresses, and the trigger times.
  unfoldable pub update_endpoints_map :
      EndpointsMap
      → EndpointChangeTracker
      → Applied × GoMap NamespacedName ℕ × TriggerTimes × EndpointChangeTracker
  unfolding apply get_local_endpoint_ips
  update_endpoints_map em ect =
      let (applied, times, ect') = apply em ect [] in
      (
        applied,
        map (λ e. (e.0, x.string_set.size e.1)) (get_local_endpoint_ips applied.endpoints_map),
        times,
        ect',
      )
