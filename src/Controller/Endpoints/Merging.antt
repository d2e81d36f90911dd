-- ===== src/Controller/Endpoints/Merging.antt =====
-- What merge and unmerge do to each key, and what apply does with one change of endpoints.
use kube_haproxy.Prelude.{
  if◌then◌else◌, is_some, get, get-put, get-delete, entries, Option, none, List, [], ◌∷◌, ◌≡◌, refl,
  ◌∙◌, arith,
}
use kube_haproxy.Api.{ServicePortName, service_port_name_eq}
use kube_haproxy.Controller.Changes.Applying.{settle, HasEffect}
use kube_haproxy.Controller.Endpoint.{EndpointsMap, Endpoint}
use kube_haproxy.Controller.Endpoints.{Applied, merge, unmerge, apply_change}

pub get-merge :
    (k : ServicePortName) (em other : EndpointsMap)
    → get k (merge em other) ≡ settle (get k other) none (get k em)
unfolding merge get
get-merge k em [] = refl
get-merge k em ((j, eps) ∷ other) =
    get-put k j eps (merge em other) ∙ ground (arith, get-merge k em other)

pub get-unmerge :
    (k : ServicePortName) (em other : EndpointsMap)
    → get k (unmerge em other) ≡ (if is_some (get k other) then none else get k em)
unfolding unmerge get
get-unmerge k em [] = refl
get-unmerge k em ((j, eps) ∷ other) =
    get-delete k j (unmerge em other) ∙ ground (arith, get-unmerge k em other)

abbrev pub read : Applied → ServicePortName → Option (List Endpoint)
read s k = get k s.endpoints_map

pub apply_change-HasEffect : HasEffect read apply_change
unfolding apply_change
apply_change-HasEffect c s k =
    get-merge k (unmerge s.endpoints_map (entries c.previous)) (entries c.current)
    ∙ ground (arith, get-unmerge k s.endpoints_map (entries c.previous))
