-- ===== src/Controller/Changes.antt =====
-- What ServiceChangeTracker (controller/service.go) and EndpointChangeTracker (controller/endpoints.go)
-- have in common: the pending changes, each with the map before and the map after, and their order.
pub mod Tracking
pub mod Applying
pub mod History
use kube_haproxy.Prelude.{
  DecEq, ◌==◌, if◌then◌else◌, GoMap, get, put, delete, NilMap, entries, nil_map_eq, Option, none,
  some, [], ◌∷◌, ◌≡◌,
}
use kube_haproxy.Kube.{NamespacedName, namespaced_name_eq}
use kube_haproxy.Api.{ServicePortName, service_port_name_eq}

-- serviceChange, endpointsChange
pub record Change (V : Type 0) : Type 0 where
  pub previous : NilMap ServicePortName V
  pub current : NilMap ServicePortName V

abbrev pub Items : Type 0 → Type 0
Items V = GoMap NamespacedName (Change V)

module _ {V : Type 0} where
  -- The change pending for a key, or a new one that starts from `previous`.
  unfoldable pub pending_change : NamespacedName → NilMap ServicePortName V → Items V → Change V
  pending_change nn previous items = elim (get nn items) [
    | none ↦ record { previous = previous; current = none }
    | some change ↦ change
  ]

  -- The loop of both apply methods, over the pending changes in the order of the list.
  unfoldable pub apply_all {ℓ} : {S : Type ℓ} → (Change V → S → S) → Items V → S → S
  apply_all step [] s = s
  apply_all step ((nn, change) ∷ items) s = step change (apply_all step items s)

module _ {V : Type 0} ⦃d : DecEq V⦄ where
  -- The middle of both Update methods: accumulate the change, and drop it if it undoes itself.
  unfoldable pub track :
      NamespacedName → NilMap ServicePortName V → NilMap ServicePortName V → Items V → Items V
  unfolding pending_change
  track nn previous current items =
      let change = record (pending_change nn previous items) { current = current } in
      let items' = put nn change items in
      if nil_map_eq change.previous change.current then delete nn items' else items'
