-- ===== src/Controller/Checkout/Tracked.antt =====
-- controller/endpointsslice.go, checkoutChanges: its changes lead from the maps of the slices that were
-- applied before to the maps of those that are applied after it.
use kube_haproxy.Prelude.{
  Option, none, some, List, [], ◌∷◌, ◌==◌, ==_iff, if◌then◌else◌, Bool-cases, is_empty, get,
  IsNodup, GoMap, ◌≡◌, refl, sym, ◌∙◌, ap, subst, inl, inr,
}
use kube_haproxy.Kube.{NamespacedName, namespaced_name_eq}
use kube_haproxy.External.{External}
use kube_haproxy.Api.{ServicePortName, service_port_name_eq}
use kube_haproxy.Controller.Changes.{Change}
use kube_haproxy.Controller.Changes.Tracking.{World, Tracks, view, IsProper}
use kube_haproxy.Controller.Endpoint.{Endpoint}
use kube_haproxy.Controller.Slices.{
  EndpointSliceInfoByName, EndpointSliceTracker, EndpointSliceCache, tracker_or_new,
}
use kube_haproxy.Controller.Checkout.{
  apply_pending, slice_change, checkout_trackers, checkout_changes, get_endpoints_map,
}
use kube_haproxy.Controller.Checkout.Pending.{
  settled, found, tracker_or_new-found, get-checkout_trackers,
}
use kube_haproxy.Controller.Checkout.Mapping.{get_endpoints_map-Confined}

module _ (x : External) (cache : EndpointSliceCache) where
  abbrev change_of : NamespacedName → Option EndpointSliceTracker → Option (Change (List Endpoint))
  change_of nn none = none
  change_of nn (some t) = if is_empty t.pending then none else some (slice_change x cache nn t)

  get-checkout_items :
      (nn : NamespacedName) (trackers : GoMap NamespacedName EndpointSliceTracker)
      → IsNodup trackers
      → get nn (checkout_trackers x cache trackers).0 ≡ change_of nn (get nn trackers)
  unfolding checkout_trackers get
  get-checkout_items nn [] d = refl
  get-checkout_items nn ((svc, t) ∷ trackers) d = elim (Bool-cases (svc == nn)) [
    | inl here ↦
        let is : svc ≡ nn = (==_iff svc nn).0 here in
        let rest : get nn (checkout_trackers x cache trackers).0 ≡ none =
          get-checkout_items nn trackers d.1
          ∙ ap (change_of nn) (subst (λ s. get s trackers ≡ none) is d.0) in
        elim (Bool-cases (is_empty t.pending)) [
          | inl e ↦ rw e (rw here (rw e rest))
          | inr e ↦ rw e (rw here (rw e (ap (λ s. some (slice_change x cache s t)) is)))
        ]
    | inr there ↦ elim (Bool-cases (is_empty t.pending)) [
      | inl e ↦ rw e (rw there (get-checkout_items nn trackers d.1))
      | inr e ↦ rw e (rw there (get-checkout_items nn trackers d.1))
    ]
  ]

  items-IsNodup :
      (trackers : GoMap NamespacedName EndpointSliceTracker)
      → IsNodup trackers
      → IsNodup (checkout_trackers x cache trackers).0
  unfolding checkout_trackers
  items-IsNodup [] d = tt
  items-IsNodup ((svc, t) ∷ trackers) d = elim (Bool-cases (is_empty t.pending)) [
    | inl e ↦ rw e (items-IsNodup trackers d.1)
    | inr e ↦
        rw e
          (get-checkout_items svc trackers d.1 ∙ ap (change_of svc) d.0, items-IsNodup trackers d.1)
  ]

  abbrev pub map_of :
      NamespacedName → EndpointSliceTracker → Option (List (ServicePortName × List Endpoint))
  map_of nn t = some (get_endpoints_map x cache nn t.applied)

  change-kept :
      (nn : NamespacedName) (o : Option EndpointSliceTracker) (c : Change (List Endpoint))
      → change_of nn o ≡ some c
      → (c.previous ≡ map_of nn (found o)) × (c.current ≡ map_of nn (settled o))
  unfolding slice_change
  change-kept nn none c e = cc e
  change-kept nn (some t) c e = elim (Bool-cases (is_empty t.pending)) [
    | inl p ↦ cc (rw p at e)
    | inr p ↦
        let same : some (slice_change x cache nn t) ≡ some c = rw p at e in
        let is : slice_change x cache nn t ≡ c = cc same in
        (
          sym (ap (λ (d : Change (List Endpoint)). d.previous) is),
          sym (ap (λ (d : Change (List Endpoint)). d.current) is),
        )
  ]

  applied_only :
      (nn : NamespacedName) (applied pending : EndpointSliceInfoByName)
      → change_of nn (some (record { applied = applied; pending = pending })) ≡ none
      → get_endpoints_map x cache nn applied
        ≡ get_endpoints_map x cache nn (apply_pending pending applied)
  unfolding apply_pending
  applied_only nn applied [] e = refl
  applied_only nn applied (p ∷ pending) e = cc e

  unchanged :
      (nn : NamespacedName) (o : Option EndpointSliceTracker)
      → change_of nn o ≡ none
      → map_of nn (found o) ≡ map_of nn (settled o)
  unfolding apply_pending
  unchanged nn none e = refl
  unchanged nn (some t) e = ap some (applied_only nn t.applied t.pending e)

  -- The maps of the slices that are applied before, and after.
  abbrev pub before : World (List Endpoint)
  before nn = map_of nn (tracker_or_new nn cache)

  abbrev pub after : World (List Endpoint)
  after nn = map_of nn (tracker_or_new nn (checkout_changes x cache).1)

  pub before-found :
      (nn : NamespacedName) → before nn ≡ map_of nn (found (get nn cache.tracker_by_service_map))
  before-found nn = ap (map_of nn) (tracker_or_new-found x cache nn)

  pub after-settled :
      (nn : NamespacedName) → after nn ≡ map_of nn (settled (get nn cache.tracker_by_service_map))
  unfolding checkout_changes
  after-settled nn = ap (map_of nn) (
      tracker_or_new-found x (checkout_changes x cache).1 nn
      ∙ get-checkout_trackers x cache nn cache.tracker_by_service_map)

  pub checkout_changes-Tracks :
      IsNodup cache.tracker_by_service_map → Tracks before after (checkout_changes x cache).0
  unfolding checkout_changes
  checkout_changes-Tracks d = record {
    nodup = items-IsNodup cache.tracker_by_service_map d;
    pending = λ nn c g.
        let change = sym (get-checkout_items nn cache.tracker_by_service_map d) ∙ g in
        let kept = change-kept nn (get nn cache.tracker_by_service_map) c change in
        (
          λ k. ap (λ m. view m k) (kept.0 ∙ sym (before-found nn)),
          λ k. ap (λ m. view m k) (kept.1 ∙ sym (after-settled nn)),
        );
    settled = λ nn g k.
        let change = sym (get-checkout_items nn cache.tracker_by_service_map d) ∙ g in
        let same = unchanged nn (get nn cache.tracker_by_service_map) change in
        ap (λ m. view m k) (before-found nn ∙ same ∙ sym (after-settled nn));
  }

  pub maps-IsProper :
      (w : NamespacedName → EndpointSliceTracker) → IsProper (λ nn. map_of nn (w nn))
  maps-IsProper w nn = get_endpoints_map-Confined x cache nn (w nn).applied
