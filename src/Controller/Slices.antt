-- ===== src/Controller/Slices.antt =====
-- controller/endpointsslice.go: the cache of endpoint slices. Go's nil pointer panics are `none`.
pub mod Sorting
use kube_haproxy.Prelude.{
  ℕ, String, Bool, true, false, not, Option, none, some, List, [], ◌∷◌, ◌++◌, ◌==◌, if◌then◌else◌,
  is_some, is_empty, get, put, delete, GoMap, NilMap, entries, nil_map_eq, ◌&&◌, ◌||◌, string_eq,
  nat_eq, bool_eq, list_eq, ltb, text_lt, join,
}
use kube_haproxy.Kube.{
  NamespacedName, namespaced_name_eq, EndpointSlice, SlicePort, SliceEndpoint, slice_port_eq,
}
use kube_haproxy.External.{External}
use kube_haproxy.Api.{ServicePortName, service_port_name_eq}
use kube_haproxy.Controller.Changes.{Change, Items}
use kube_haproxy.Controller.Endpoint.{
  Endpoint, EndpointsMap, Maker, BaseEndpointInfo, endpoint_string, make_endpoint,
  new_base_endpoint_info, wrong_ip_version,
}

-- endpointInfo
pub record EndpointInfo : Type 0 where
  pub addresses : List String
  pub topology : NilMap String String

-- endpointSliceInfo
pub record EndpointSliceInfo : Type 0 where
  pub ports : List SlicePort
  pub endpoints : List EndpointInfo
  pub remove : Bool

abbrev pub EndpointSliceInfoByName : Type 0
EndpointSliceInfoByName = GoMap String EndpointSliceInfo

-- endpointSliceTracker
pub record EndpointSliceTracker : Type 0 where
  pub applied : EndpointSliceInfoByName
  pub pending : EndpointSliceInfoByName

abbrev pub new_endpoint_slice_tracker : EndpointSliceTracker
new_endpoint_slice_tracker = record { applied = []; pending = [] }

-- EndpointSliceCache
pub record EndpointSliceCache : Type 0 where
  pub tracker_by_service_map : GoMap NamespacedName EndpointSliceTracker
  pub make_endpoint_info : Maker
  pub hostname : String
  pub is_ipv6_mode : Option Bool

-- NewEndpointSliceCache; standardEndpointInfo is what `make_endpoint` does where there is no maker.
unfoldable pub new_endpoint_slice_cache : String → Option Bool → Maker → EndpointSliceCache
new_endpoint_slice_cache hostname is_ipv6_mode make = record {
  tracker_by_service_map = [];
  make_endpoint_info = make;
  hostname = hostname;
  is_ipv6_mode = is_ipv6_mode;
}

-- sort.Sort leaves the order of equal elements open; this is one such sort, by insertion.
module _ {A : Type 0} (less : A → A → Bool) where
  unfoldable pub insert_sorted : A → List A → List A
  insert_sorted a [] = a ∷ []
  insert_sorted a (b ∷ bs) =
      let rest = insert_sorted a bs in if less b a then b ∷ rest else a ∷ b ∷ bs

  unfoldable pub sort_by : List A → List A
  unfolding insert_sorted
  sort_by [] = []
  sort_by (a ∷ as') = insert_sorted a (sort_by as')

abbrev pub prepend : {A : Type 0} → A → Option (List A) → Option (List A)
prepend a none = none
prepend a (some as') = some (a ∷ as')

-- byPort.Less: it follows both pointers, and none is the panic on a nil one.
unfoldable pub port_less : SlicePort → SlicePort → Option Bool
port_less p q = elim p.port [
  | none ↦ none
  | some m ↦ elim q.port [ none ↦ none | some n ↦ some (ltb m n) ]
]

-- sort.Sort(byPort(...)): the same sort by insertion, with a panic where a Less panics.
unfoldable pub insert_port : SlicePort → List SlicePort → Option (List SlicePort)
unfolding port_less
insert_port a [] = some (a ∷ [])
insert_port a (b ∷ bs) =
    let rest = insert_port a bs in
    elim (port_less b a) [
      | none ↦ none
      | some less ↦ if less then prepend b rest else some (a ∷ b ∷ bs)
    ]

unfoldable pub sort_ports : List SlicePort → Option (List SlicePort)
unfolding insert_port
sort_ports [] = some []
sort_ports (a ∷ as') =
    let rest = sort_ports as' in elim rest [ none ↦ none | some sorted ↦ insert_port a sorted ]

-- byAddress.Less
abbrev pub address_less : EndpointInfo → EndpointInfo → Bool
address_less e f = text_lt (join e.addresses ",") (join f.addresses ",")

-- byIP.Less
abbrev pub ip_less : Endpoint → Endpoint → Bool
ip_less e f = text_lt (endpoint_string e) (endpoint_string f)

-- The loop of newEndpointSliceInfo: the endpoints that are ready, or do not say.
unfoldable pub ready_endpoints : List SliceEndpoint → List EndpointInfo
ready_endpoints [] = []
ready_endpoints (e ∷ es) =
    let rest = ready_endpoints es in
    if (elim e.ready [ none ↦ true | some ready ↦ ready ])
    then record { addresses = e.addresses; topology = e.topology } ∷ rest
    else rest

-- newEndpointSliceInfo
unfoldable pub new_endpoint_slice_info : EndpointSlice → Bool → Option EndpointSliceInfo
unfolding sort_ports ready_endpoints sort_by
new_endpoint_slice_info slice remove = elim (sort_ports slice.ports) [
  | none ↦ none
  | some ports ↦ some (record {
    ports = ports;
    endpoints = if remove then [] else sort_by address_less (ready_endpoints slice.endpoints);
    remove = remove;
  })
]

-- endpointSliceCacheKeys: none is its error.
unfoldable pub endpoint_slice_cache_keys : EndpointSlice → Option (NamespacedName × String)
endpoint_slice_cache_keys slice = elim (get "kubernetes.io/service-name" slice.labels) [
  | none ↦ none
  | some service_name ↦
      if service_name == ""
      then none
      else if slice.namespace == "" || slice.name == ""
      then none
      else some (record { namespace = slice.namespace; name = service_name }, slice.name)
]

-- reflect.DeepEqual on endpointSliceInfo
unfoldable pub endpoints_eq : List EndpointInfo → List EndpointInfo → Bool
endpoints_eq [] [] = true
endpoints_eq (e ∷ es) (f ∷ fs) =
    (e.addresses == f.addresses && nil_map_eq e.topology f.topology) && endpoints_eq es fs
endpoints_eq _ _ = false

unfoldable pub info_eq : EndpointSliceInfo → EndpointSliceInfo → Bool
unfolding endpoints_eq
info_eq a b = a.ports == b.ports && endpoints_eq a.endpoints b.endpoints && a.remove == b.remove

-- esInfoChanged, on the tracker of the service if there is one
unfoldable pub es_info_changed :
    EndpointSliceCache → NamespacedName → String → EndpointSliceInfo → Bool
unfolding info_eq
es_info_changed cache service_key slice_key info =
    elim (get service_key cache.tracker_by_service_map) [
      | none ↦ not info.remove
      | some tracker ↦ elim (get slice_key tracker.pending) [
        | some pending_info ↦ not (info_eq info pending_info)
        | none ↦ elim (get slice_key tracker.applied) [
          | some applied_info ↦ not (info_eq info applied_info)
          | none ↦ not info.remove
        ]
      ]
    ]

abbrev pub tracker_or_new : NamespacedName → EndpointSliceCache → EndpointSliceTracker
tracker_or_new service_key cache = elim (get service_key cache.tracker_by_service_map) [
  | none ↦ new_endpoint_slice_tracker
  | some tracker ↦ tracker
]

-- updatePending: the cache and whether it changed; none is the panic of the sort.
unfoldable pub update_pending :
    EndpointSliceCache → EndpointSlice → Bool → Option (EndpointSliceCache × Bool)
unfolding endpoint_slice_cache_keys new_endpoint_slice_info es_info_changed
update_pending cache slice remove = elim (endpoint_slice_cache_keys slice) [
  | none ↦ some (cache, false)
  | some (service_key, slice_key) ↦ elim (new_endpoint_slice_info slice remove) [
    | none ↦ none
    | some info ↦
        let tracker = tracker_or_new service_key cache in
        let with_tracker = record cache {
          tracker_by_service_map = put service_key tracker cache.tracker_by_service_map;
        } in
        if es_info_changed with_tracker service_key slice_key info
        then some (
          record cache {
            tracker_by_service_map =
                put service_key (record tracker { pending = put slice_key info tracker.pending })
                  cache.tracker_by_service_map;
          },
          true,
        )
        else some (with_tracker, false)
  ]
]
