-- ===== src/Controller/Checkout/Pending.antt =====
-- controller/endpointsslice.go, checkoutChanges: pending slices become applied ones, once.
use kube_haproxy.Prelude.{
  String, Option, none, some, List, [], ◌∷◌, ◌==◌, ==_iff, if◌then◌else◌, if_keeps, Bool-cases,
  Option-cases, is_empty, get, get-put, get-delete, IsNodup, put-IsNodup, delete-IsNodup, GoMap,
  subst, ◌≡◌, refl, sym, ◌∙◌, ap, string_eq, arith, inl, inr,
}
use kube_haproxy.Kube.{NamespacedName, namespaced_name_eq}
use kube_haproxy.Controller.Changes.{Items}
use kube_haproxy.Controller.Endpoint.{Endpoint}
use kube_haproxy.External.{External}
use kube_haproxy.Controller.Slices.{
  EndpointSliceInfo, EndpointSliceInfoByName, EndpointSliceTracker, EndpointSliceCache,
  tracker_or_new, new_endpoint_slice_tracker,
}
use kube_haproxy.Controller.Checkout.{apply_pending, checkout_trackers, checkout_changes}

-- What a slice's entry becomes: the pending one, where there is one and it is not a removal.
abbrev pub shown : Option EndpointSliceInfo → Option EndpointSliceInfo → Option EndpointSliceInfo
shown none applied = applied
shown (some info) applied = if info.remove then none else some info

get-apply_pending :
    (name : String) (pending applied : EndpointSliceInfoByName)
    → get name (apply_pending pending applied) ≡ shown (get name pending) (get name applied)
unfolding apply_pending get
get-apply_pending name [] applied = refl
get-apply_pending name ((j, info) ∷ pending) applied = elim (Bool-cases info.remove) [
  | inl r ↦ ground (
    arith,
    ==_iff j name,
    get-delete name j (apply_pending pending applied),
    get-apply_pending name pending applied,
  )
  | inr r ↦ ground (
    arith,
    ==_iff j name,
    get-put name j info (apply_pending pending applied),
    get-apply_pending name pending applied,
  )
]

pub apply_pending-IsNodup :
    (pending applied : EndpointSliceInfoByName)
    → IsNodup applied
    → IsNodup (apply_pending pending applied)
unfolding apply_pending
apply_pending-IsNodup [] applied d = d
apply_pending-IsNodup ((name, info) ∷ pending) applied d =
    let rest = apply_pending-IsNodup pending applied d in
    if_keeps IsNodup info.remove _ _ (delete-IsNodup name _ rest) (put-IsNodup name info _ rest)

-- What checkoutChanges makes of one tracker.
abbrev pub settled : Option EndpointSliceTracker → EndpointSliceTracker
settled none = new_endpoint_slice_tracker
settled (some t) = record { applied = apply_pending t.pending t.applied; pending = [] }

abbrev pub found : Option EndpointSliceTracker → EndpointSliceTracker
found none = new_endpoint_slice_tracker
found (some t) = t

module _ (x : External) where
  trackers_twice :
      (cache : EndpointSliceCache) (trackers : GoMap NamespacedName EndpointSliceTracker)
      → checkout_trackers x cache (checkout_trackers x cache trackers).1
        ≡ ([], (checkout_trackers x cache trackers).1)
  unfolding checkout_trackers
  trackers_twice cache [] = refl
  trackers_twice cache ((nn, tracker) ∷ trackers) = elim (Bool-cases (is_empty tracker.pending)) [
    | inl e ↦ rw (e, checkout_trackers) (rw (e, trackers_twice cache trackers) refl)
    | inr e ↦ rw (e, checkout_trackers) (rw (trackers_twice cache trackers) refl)
  ]

  -- A second checkoutChanges right after the first finds no change and leaves the cache as it is.
  pub checkout_changes_once :
      (cache : EndpointSliceCache)
      → checkout_changes x (checkout_changes x cache).1 ≡ ([], (checkout_changes x cache).1)
  unfolding checkout_changes
  checkout_changes_once cache =
      ap {B = Items (List Endpoint) × EndpointSliceCache}
        (λ (r : Items (List Endpoint) × GoMap NamespacedName EndpointSliceTracker).
          (r.0, record cache { tracker_by_service_map = r.1 }))
        (trackers_twice cache cache.tracker_by_service_map)

  pub tracker_or_new-found :
      (cache : EndpointSliceCache) (svc : NamespacedName)
      → tracker_or_new svc cache ≡ found (get svc cache.tracker_by_service_map)
  tracker_or_new-found cache svc = elim (Option-cases (get svc cache.tracker_by_service_map)) [
    | inl e ↦ rw (e, tracker_or_new) refl
    | inr (t, e) ↦ rw (e, tracker_or_new) refl
  ]

  checkout_step :
      (cache : EndpointSliceCache) (nn : NamespacedName) (applied pending : EndpointSliceInfoByName)
      (trackers : GoMap NamespacedName EndpointSliceTracker)
      → (checkout_trackers x cache
          ((nn, record { applied = applied; pending = pending }) ∷ trackers)).1
        ≡ (nn, settled (some (record { applied = applied; pending = pending })))
          ∷ (checkout_trackers x cache trackers).1
  unfolding checkout_trackers apply_pending
  checkout_step cache nn applied [] trackers = refl
  checkout_step cache nn applied (p ∷ pending) trackers = refl

  pub get-checkout_trackers :
      (cache : EndpointSliceCache) (svc : NamespacedName)
      (trackers : GoMap NamespacedName EndpointSliceTracker)
      → found (get svc (checkout_trackers x cache trackers).1) ≡ settled (get svc trackers)
  unfolding checkout_trackers get
  get-checkout_trackers cache svc [] = refl
  get-checkout_trackers cache svc ((nn, tracker) ∷ trackers) =
      ap (λ l. found (get svc l)) (checkout_step cache nn tracker.applied tracker.pending trackers)
      ∙ elim (Bool-cases (nn == svc)) [
        | inl h ↦ rw h refl
        | inr h ↦ rw h (get-checkout_trackers cache svc trackers)
      ]

  abbrev pub IsSettled : EndpointSliceTracker → EndpointSliceTracker → Type 0
  IsSettled before after =
      (after.pending ≡ [])
      × ((name : String)
          → get name after.applied ≡ shown (get name before.pending) (get name before.applied))

  settled-IsSettled : (o : Option EndpointSliceTracker) → IsSettled (found o) (settled o)
  unfolding get
  settled-IsSettled none = (refl, λ name. refl)
  settled-IsSettled (some t) = (refl, λ name. get-apply_pending name t.pending t.applied)

  -- checkoutChanges leaves no slice of any service pending, and applies under each slice name exactly
  -- the pending entry, nothing if that is a removal, and what was applied before if none is pending.
  pub checkout_changes-IsSettled :
      (cache : EndpointSliceCache) (svc : NamespacedName)
      → IsSettled (tracker_or_new svc cache) (tracker_or_new svc (checkout_changes x cache).1)
  unfolding checkout_changes
  checkout_changes-IsSettled cache svc =
      let o = get svc cache.tracker_by_service_map in
      let after = tracker_or_new svc (checkout_changes x cache).1 in
      subst (λ t. IsSettled t after) (sym (tracker_or_new-found cache svc))
        (subst (IsSettled (found o))
          (sym (
            tracker_or_new-found (checkout_changes x cache).1 svc
            ∙ get-checkout_trackers cache svc cache.tracker_by_service_map))
          (settled-IsSettled o))
