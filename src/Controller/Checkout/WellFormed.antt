-- ===== src/Controller/Checkout/WellFormed.antt =====
-- controller/endpointsslice.go, EndpointSliceCache: its configuration stays, and its maps hold each key
-- once, over any sequence of updates and checkouts.
use kube_haproxy.Prelude.{
  String, Bool, Option, none, some, [], ◌∷◌, ◌==◌, Bool-cases, is_empty, get, IsNodup, put-IsNodup,
  GoMap, ◌≡◌, refl, sym, ◌∙◌, ap, subst, string_eq, inl, inr,
}
use kube_haproxy.Kube.{NamespacedName, namespaced_name_eq}
use kube_haproxy.External.{External}
use kube_haproxy.Controller.Endpoint.{Maker}
use kube_haproxy.Controller.Slices.{
  EndpointSliceInfo, EndpointSliceTracker, EndpointSliceCache, new_endpoint_slice_cache,
  tracker_or_new,
}
use kube_haproxy.Controller.Checkout.{checkout_trackers, checkout_changes}
use kube_haproxy.Controller.Checkout.History.{
  History, LastEvents, start, slice_updated, checked_out, updated_cases, updated-applied,
}
use kube_haproxy.Controller.Checkout.Mapping.{bare}
use kube_haproxy.Controller.Checkout.Pending.{
  settled, found, tracker_or_new-found, get-checkout_trackers, apply_pending-IsNodup,
}
use kube_haproxy.Controller.Checkout.Updating.{updated, update_pending-updated}

module _ (x : External) (cache₀ : EndpointSliceCache) where
  -- The configuration is that of `cache₀`, each service has one tracker, and each tracker one applied
  -- entry for a slice.
  pub record IsWellFormed (cache : EndpointSliceCache) : Type 0 where
    pub config : bare x cache ≡ cache₀
    pub trackers : IsNodup cache.tracker_by_service_map
    pub applied : (svc : NamespacedName) → IsNodup (tracker_or_new svc cache).applied

  updated-IsWellFormed :
      (cache : EndpointSliceCache) (svc : NamespacedName) (name : String) (new : EndpointSliceInfo)
      → IsWellFormed cache
      → IsWellFormed (updated cache svc name new).0
  updated-IsWellFormed cache svc name new h =
      let (t, e, a, p) = updated_cases cache svc name new in
      record {
        config = ap (bare x) e ∙ h.config;
        trackers =
            subst (λ (c : EndpointSliceCache). IsNodup c.tracker_by_service_map) (sym e)
              (put-IsNodup svc t cache.tracker_by_service_map h.trackers);
        applied =
            λ svc'. subst IsNodup (sym (updated-applied cache svc svc' name new)) (h.applied svc');
      }

  settled-IsNodup :
      (o : Option EndpointSliceTracker) → IsNodup (found o).applied → IsNodup (settled o).applied
  settled-IsNodup none d = tt
  settled-IsNodup (some t) d = apply_pending-IsNodup t.pending t.applied d

  -- A checkout keeps the services of the trackers.
  checkout-get-none :
      (cache : EndpointSliceCache) (svc : NamespacedName)
      (trackers : GoMap NamespacedName EndpointSliceTracker)
      → get svc trackers ≡ none
      → get svc (checkout_trackers x cache trackers).1 ≡ none
  unfolding checkout_trackers get
  checkout-get-none cache svc [] g = refl
  checkout-get-none cache svc ((nn, t) ∷ trackers) g = elim (Bool-cases (nn == svc)) [
    | inl here ↦ cc (rw here at g)
    | inr there ↦
        let rest = checkout-get-none cache svc trackers (rw there at g) in
        elim (Bool-cases (is_empty t.pending)) [
          | inl e ↦ rw e (rw there rest)
          | inr e ↦ rw e (rw there rest)
        ]
  ]

  checkout-IsNodup :
      (cache : EndpointSliceCache) (trackers : GoMap NamespacedName EndpointSliceTracker)
      → IsNodup trackers
      → IsNodup (checkout_trackers x cache trackers).1
  unfolding checkout_trackers
  checkout-IsNodup cache [] d = tt
  checkout-IsNodup cache ((nn, t) ∷ trackers) d =
      let absent = checkout-get-none cache nn trackers d.0 in
      let rest = checkout-IsNodup cache trackers d.1 in
      elim (Bool-cases (is_empty t.pending)) [
        | inl e ↦ rw e (absent, rest)
        | inr e ↦ rw e (absent, rest)
      ]

  checkout-IsWellFormed :
      (cache : EndpointSliceCache) → IsWellFormed cache → IsWellFormed (checkout_changes x cache).1
  unfolding checkout_changes
  checkout-IsWellFormed cache h = record {
    config = h.config;
    trackers = checkout-IsNodup cache cache.tracker_by_service_map h.trackers;
    applied = λ svc.
        let found_is = tracker_or_new-found x cache svc in
        let after =
          tracker_or_new-found x (checkout_changes x cache).1 svc
          ∙ get-checkout_trackers x cache svc cache.tracker_by_service_map in
        subst (λ (u : EndpointSliceTracker). IsNodup u.applied) (sym after)
          (settled-IsNodup (get svc cache.tracker_by_service_map)
            (subst (λ (u : EndpointSliceTracker). IsNodup u.applied) found_is (h.applied svc)));
  }

module _ (x : External) (hostname : String) (mode : Option Bool) (make : Maker) where
  -- Over any sequence of slice updates and checkouts of a new cache: its host name, address family and
  -- constructor of endpoints are those it was made with, no service has two trackers, and no tracker
  -- has two applied entries for one slice.
  pub History-IsWellFormed :
      {last : LastEvents} {cache : EndpointSliceCache}
      → History x hostname mode make last cache
      → IsWellFormed x (new_endpoint_slice_cache hostname mode make) cache
  unfolding new_endpoint_slice_cache get
  History-IsWellFormed start = record { config = refl; trackers = tt; applied = λ svc. tt }
  History-IsWellFormed
        (slice_updated {last} {cache} run slice remove svc name new cache' changed keys info e) =
      let same : some (updated cache svc name new) ≡ some (cache', changed) =
        sym (update_pending-updated cache slice remove svc name new keys info) ∙ e in
      let next : (updated cache svc name new).0 ≡ cache' = cc same in
      subst (IsWellFormed x (new_endpoint_slice_cache hostname mode make)) next
        (updated-IsWellFormed x _ cache svc name new (History-IsWellFormed run))
  History-IsWellFormed (checked_out {last} {cache} run) =
      checkout-IsWellFormed x _ cache (History-IsWellFormed run)
