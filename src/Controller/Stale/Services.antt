-- ===== src/Controller/Stale/Services.antt =====
-- controller/endpoints.go, detectStaleConnections: its second result, described by itself.
use kube_haproxy.Prelude.{
  Bool, true, false, not, List, [], ◌∷◌, ◌≡◌, refl, sym, ap, subst, ◌∙◌, ◌&&◌, ◌==◌, ==_iff,
  string_eq, Bool-cases, inl, inr, ◌↔◌, arith, In, here, there, In-cases, not_in_nil, get_or_empty,
  is_empty,
}
use kube_haproxy.Kube.{protocol_udp}
use kube_haproxy.Api.{ServicePortName, service_port_name_eq}
use kube_haproxy.Controller.Endpoint.{Endpoint, EndpointsMap}
use kube_haproxy.Controller.Stale.{detect_stale_services}

abbrev Entry : Type 0
Entry = ServicePortName × List Endpoint

-- A UDP port that has endpoints in the new map and had none in the old one.
pub record NewlyServed (old_map new_map : EndpointsMap) (k : ServicePortName) : Type 0 where
  pub eps : List Endpoint
  pub entry : In (k, eps) new_map
  pub is_udp : k.protocol ≡ protocol_udp
  pub some_now : is_empty eps ≡ false
  pub none_before : is_empty (get_or_empty k old_map) ≡ true

-- The test of the second loop on one entry.
abbrev newly : EndpointsMap → ServicePortName → List Endpoint → Bool
newly old_map k eps = not (is_empty eps) && is_empty (get_or_empty k old_map)

served_later :
    {old_map new_map : EndpointsMap} {k : ServicePortName} (e : Entry)
    → NewlyServed old_map new_map k
    → NewlyServed old_map (e ∷ new_map) k
served_later e s = record {
  eps = s.eps;
  entry = there s.entry;
  is_udp = s.is_udp;
  some_now = s.some_now;
  none_before = s.none_before;
}

services_sound :
    (old_map new_map : EndpointsMap) (k : ServicePortName)
    → In k (detect_stale_services old_map new_map)
    → NewlyServed old_map new_map k
unfolding detect_stale_services
services_sound old_map [] k i = absurd (not_in_nil i)
services_sound old_map ((j, eps) ∷ new_map) k i =
    let rest = λ (i' : In k (detect_stale_services old_map new_map)).
      served_later (j, eps) (services_sound old_map new_map k i') in
    elim (Bool-cases (j.protocol == protocol_udp)) [
      | inr p ↦ rest (rw p at i)
      | inl p ↦ elim (Bool-cases (newly old_map j eps)) [
        | inr q ↦ rest (rw (p, q) at i)
        | inl q ↦ elim (In-cases (rw (p, q) at i)) [
          | inr i' ↦ rest i'
          | inl e ↦ rw e (record {
            eps = eps;
            entry = here refl;
            is_udp = (==_iff j.protocol protocol_udp).0 p;
            some_now = ground arith;
            none_before = ground arith;
          })
        ]
      ]
    ]

services_complete :
    (old_map new_map : EndpointsMap) (e : Entry)
    → In e new_map
    → e.0.protocol ≡ protocol_udp
    → newly old_map e.0 e.1 ≡ true
    → In e.0 (detect_stale_services old_map new_map)
unfolding detect_stale_services
services_complete old_map [] e i udp n = absurd (not_in_nil i)
services_complete old_map ((j, eps) ∷ new_map) e i udp n = elim (In-cases i) [
  | inl q ↦
      let same : e.0 ≡ j = ap {A = Entry} (λ t. t.0) q in
      let here_newly : newly old_map j eps ≡ true =
        subst {A = Entry} (λ t. newly old_map t.0 t.1 ≡ true) q n in
      rw
        (
          (==_iff j.protocol protocol_udp).1
              (ap (λ (m : ServicePortName). m.protocol) (sym same) ∙ udp),
          here_newly,
        )
        (here same)
  | inr later_entry ↦
      let rest = services_complete old_map new_map e later_entry udp n in
      elim (Bool-cases (j.protocol == protocol_udp)) [
        | inr p ↦ rw p rest
        | inl p ↦ elim (Bool-cases (newly old_map j eps)) [
          | inl q ↦ rw (p, q) (there rest)
          | inr q ↦ rw (p, q) rest
        ]
      ]
]

-- The stale services are exactly the UDP ports that went from no endpoint to some.
pub detect_stale_services_exact :
    (old_map new_map : EndpointsMap) (k : ServicePortName)
    → In k (detect_stale_services old_map new_map) ↔ NewlyServed old_map new_map k
detect_stale_services_exact old_map new_map k = (
  services_sound old_map new_map k,
  λ s.
      services_complete old_map new_map (k, s.eps) s.entry s.is_udp
        (rw (s.some_now, s.none_before)),
)
