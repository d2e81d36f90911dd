-- ===== src/Controller/Service/Merging.antt =====
-- What merge, filter and unmerge do to each key, and what apply does with one change.
use kube_haproxy.Prelude.{
  ◌==◌, ==_iff, if◌then◌else◌, is_some, get, get-put, get-delete, entries, none, [], ◌∷◌, ◌≡◌, refl,
  ◌∙◌, ◌&&◌, arith, string_eq,
}
use kube_haproxy.Api.{ServicePortName, service_port_name_eq}
use kube_haproxy.External.{External}
use kube_haproxy.Controller.Changes.Applying.{settle, HasEffect}
use kube_haproxy.Controller.Service.{
  ServiceMap, merge, filter, filter_entries, unmerge, unmerge_port, apply_change,
}

module _ (x : External) where
  -- `other` always wins.
  pub get-merge :
      (k : ServicePortName) (sm other : ServiceMap)
      → get k (merge x sm other).0 ≡ settle (get k other) none (get k sm)
  unfolding merge get
  get-merge k sm [] = refl
  get-merge k sm ((j, info) ∷ other) =
      get-put k j info (merge x sm other).0 ∙ ground (arith, get-merge k sm other)

  get-filter_entries :
      (k : ServicePortName) (rest sm other : ServiceMap)
      → get k (filter_entries rest sm other)
        ≡ (if is_some (get k rest) && is_some (get k other) then none else get k sm)
  unfolding filter_entries get
  get-filter_entries k [] sm other = refl
  get-filter_entries k ((j, v) ∷ rest) sm other = ground (
    arith,
    ==_iff j k,
    get-filter_entries k rest sm other,
    get-delete k j (filter_entries rest sm other),
  )

  pub get-filter :
      (k : ServicePortName) (sm other : ServiceMap)
      → get k (filter sm other) ≡ (if is_some (get k other) then none else get k sm)
  unfolding filter
  get-filter k sm other = get-filter_entries k sm sm other ∙ ground arith

  pub get-unmerge_port :
      (k j : ServicePortName) (sm : ServiceMap) (stale : x.string_set.Carrier)
      → get k (unmerge_port x j (sm, stale)).0 ≡ (if j == k then none else get k sm)
  unfolding unmerge_port
  get-unmerge_port k j sm stale = ground (arith, ==_iff j k, get-delete k j sm)

  pub get-unmerge :
      (k : ServicePortName) (sm other : ServiceMap) (stale : x.string_set.Carrier)
      → get k (unmerge x sm other stale).0 ≡ (if is_some (get k other) then none else get k sm)
  unfolding unmerge get
  get-unmerge k sm [] stale = refl
  get-unmerge k sm ((j, v) ∷ other) stale =
      get-unmerge_port k j (unmerge x sm other stale).0 (unmerge x sm other stale).1
      ∙ ground (arith, get-unmerge k sm other stale)

  pub apply_change-HasEffect :
      HasEffect {S = ServiceMap × x.string_set.Carrier} (λ s k. get k s.0) (apply_change x)
  unfolding apply_change
  apply_change-HasEffect c (sm, stale) k =
      get-unmerge k (merge x sm (entries c.current)).0
        (filter (entries c.previous) (entries c.current)) stale
      ∙ ground (
        arith,
        get-filter k (entries c.previous) (entries c.current),
        get-merge k sm (entries c.current),
      )
