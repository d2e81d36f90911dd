-- ===== src/Scenarios/Slices.antt =====
-- One endpoint slice, added, changed, and checked out.
use kube_haproxy.Prelude.{
  string_eq, Bool, true, false, none, some, [], ◌∷◌, ◌≡◌, ◌≤◌, refl, ◌↔◌, get, length, deciding,
  is_some, put, nil_map_eq,
}
use kube_haproxy.Kube.{
  NamespacedName, namespaced_name_eq, NamespacedName_discrete, SlicePort_discrete, EndpointSlice,
  SlicePort,
}
use kube_haproxy.Controller.Slices.{
  EndpointSliceInfo, EndpointSliceCache, new_endpoint_slice_cache, new_endpoint_slice_info,
  endpoint_slice_cache_keys, update_pending, tracker_or_new, sort_ports,
}
use kube_haproxy.Api.{ServicePortName, service_port_name_eq}
use kube_haproxy.Controller.Slices.Sorting.{Unnumbered, sort_ports_panic_iff}
use kube_haproxy.Controller.Checkout.{checkout_changes, get_endpoints_map}
use kube_haproxy.Controller.Checkout.Offered.{any, offers, get_endpoints_map-offers}
use kube_haproxy.Controller.Checkout.Pending.{IsSettled, checkout_changes-IsSettled}
use kube_haproxy.Controller.Checkout.History.{
  AgreesLast, with_event, start, slice_updated, checkout_changes-AgreesLast,
}
use kube_haproxy.Controller.Checkout.Updating.{IsApplied, Agrees, due, update_pending-Agrees}
use kube_haproxy.Scenarios.Parts.{net}

abbrev pub web : NamespacedName
web = record { namespace = "default"; name = "web" }

abbrev pub http : SlicePort
http = record { name = some "http"; port = some 80; protocol = "TCP"; app_protocol = none }

abbrev unnumbered : SlicePort
unnumbered = record { name = some "any"; port = none; protocol = "TCP"; app_protocol = none }

abbrev pub slice : EndpointSlice
slice = record {
  namespace = "default";
  name = "web-1";
  labels = ("kubernetes.io/service-name", "web") ∷ [];
  annotations = [];
  address_type = "IPv4";
  endpoints = record { addresses = "10.1.0.9" ∷ []; ready = some true; topology = none } ∷ [];
  ports = http ∷ [];
}

abbrev pub info : EndpointSliceInfo
info = record {
  ports = http ∷ [];
  endpoints = record { addresses = "10.1.0.9" ∷ []; topology = none } ∷ [];
  remove = false;
}

abbrev waiting : EndpointSliceCache
waiting = record (new_endpoint_slice_cache "node" none none) {
  tracker_by_service_map = (web, record { applied = []; pending = ("web-1", info) ∷ [] }) ∷ [];
}

keys_found : endpoint_slice_cache_keys slice ≡ some (web, "web-1")
unfolding deciding endpoint_slice_cache_keys get
keys_found = refl

info_made : new_endpoint_slice_info slice false ≡ some info
unfolding new_endpoint_slice_info
info_made = refl

nothing-IsApplied : IsApplied (tracker_or_new web waiting)
unfolding deciding get NamespacedName_discrete
nothing-IsApplied name old e = cc e

update_pending-Agrees_example :
    (cache' : EndpointSliceCache) × (changed : Bool) × (update_pending waiting slice false
      ≡ some (cache', changed))
    × Agrees info (due (tracker_or_new web cache') "web-1")
update_pending-Agrees_example =
    update_pending-Agrees waiting slice false web "web-1" info keys_found info_made
      nothing-IsApplied

-- The slice that is pending already counts as no change.
no_change : (update_pending waiting slice false ≡ some (waiting, false))
unfolding deciding update_pending get put new_endpoint_slice_cache NamespacedName_discrete
    SlicePort_discrete nil_map_eq
no_change = refl

checkout_changes-IsSettled_example :
    IsSettled net (tracker_or_new web waiting) (tracker_or_new web (checkout_changes net waiting).1)
checkout_changes-IsSettled_example = checkout_changes-IsSettled net waiting web

sort_ports_panic_iff_example :
    (sort_ports (http ∷ unnumbered ∷ []) ≡ none)
    ↔ ((2 ≤ length (http ∷ unnumbered ∷ [])) × Unnumbered (http ∷ unnumbered ∷ []))
sort_ports_panic_iff_example = sort_ports_panic_iff (http ∷ unnumbered ∷ [])

abbrev new_cache : EndpointSliceCache
new_cache = new_endpoint_slice_cache "node" none none

web_pending : update_pending new_cache slice false ≡ some (waiting, true)
unfolding deciding update_pending get put new_endpoint_slice_cache NamespacedName_discrete
    SlicePort_discrete nil_map_eq
web_pending = refl

checkout_changes-AgreesLast_example :
    AgreesLast
      (with_event web "web-1" info (λ _ _. none) web "web-1")
      (get "web-1" (tracker_or_new web (checkout_changes net waiting).1).applied)
checkout_changes-AgreesLast_example =
    checkout_changes-AgreesLast net "node" none none
      (slice_updated start slice false web "web-1" info waiting true keys_found info_made
        web_pending)
      web "web-1"

abbrev web_http : ServicePortName
web_http = record { namespaced_name = web; port = "http"; protocol = "TCP" }

get_endpoints_map-offers_example :
    is_some (get web_http (get_endpoints_map net new_cache web (("web-1", info) ∷ [])))
    ≡ any (offers net new_cache web web_http) (("web-1", info) ∷ [])
get_endpoints_map-offers_example =
    get_endpoints_map-offers net new_cache web (("web-1", info) ∷ []) web_http
