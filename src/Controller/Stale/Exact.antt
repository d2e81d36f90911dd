-- ===== src/Controller/Stale/Exact.antt =====
-- controller/endpoints.go, detectStaleConnections: its first result, described by itself.
use kube_haproxy.Prelude.{
  false, List, [], ◌∷◌, ◌≡◌, refl, sym, ap, subst, ◌∙◌, ◌==◌, ==_iff, string_eq, Bool-cases, inl,
  inr, ◌↔◌, In, here, there, In-cases, In-append, not_in_nil, get_or_empty,
}
use kube_haproxy.Kube.{protocol_udp}
use kube_haproxy.Api.{ServicePortName, ServiceEndpoint, service_port_name_eq}
use kube_haproxy.Controller.Endpoint.{Endpoint, EndpointsMap, endpoint_string}
use kube_haproxy.Controller.Stale.{some_equal, stale_endpoints_of, detect_stale_endpoints}

abbrev pub service_endpoint : ServicePortName → Endpoint → ServiceEndpoint
service_endpoint k ep = record { endpoint = endpoint_string ep; service_port_name = k }

-- An endpoint of the list that equals none of the new ones.
pub record StaleIn (k : ServicePortName) (eps new_eps : List Endpoint) (se : ServiceEndpoint)
    : Type 0 where
  pub ep : Endpoint
  pub listed : In ep eps
  pub gone : some_equal new_eps ep ≡ false
  pub is : se ≡ service_endpoint k ep

-- An endpoint of a UDP port of the old map that equals none of the same port in the new map.
pub record StaleEndpoint (old_map new_map : EndpointsMap) (se : ServiceEndpoint) : Type 0 where
  pub key : ServicePortName
  pub eps : List Endpoint
  pub entry : In (key, eps) old_map
  pub is_udp : key.protocol ≡ protocol_udp
  pub stale : StaleIn key eps (get_or_empty key new_map) se

later :
    {k : ServicePortName} {eps new_eps : List Endpoint} {se : ServiceEndpoint} (e : Endpoint)
    → StaleIn k eps new_eps se
    → StaleIn k (e ∷ eps) new_eps se
later e s = record { ep = s.ep; listed = there s.listed; gone = s.gone; is = s.is }

stale_sound :
    (k : ServicePortName) (eps new_eps : List Endpoint) (se : ServiceEndpoint)
    → In se (stale_endpoints_of k eps new_eps)
    → StaleIn k eps new_eps se
unfolding stale_endpoints_of
stale_sound k [] new_eps se i = absurd (not_in_nil i)
stale_sound k (e ∷ eps) new_eps se i = elim (Bool-cases (some_equal new_eps e)) [
  | inl p ↦ later e (stale_sound k eps new_eps se (rw p at i))
  | inr p ↦ elim (In-cases (rw p at i)) [
    | inl q ↦ record { ep = e; listed = here refl; gone = p; is = q }
    | inr j ↦ later e (stale_sound k eps new_eps se j)
  ]
]

stale_complete :
    (k : ServicePortName) (eps new_eps : List Endpoint) (se : ServiceEndpoint) (ep : Endpoint)
    → In ep eps
    → some_equal new_eps ep ≡ false
    → se ≡ service_endpoint k ep
    → In se (stale_endpoints_of k eps new_eps)
unfolding stale_endpoints_of
stale_complete k [] new_eps se ep i g e = absurd (not_in_nil i)
stale_complete k (e' ∷ eps) new_eps se ep i g e = elim (In-cases i) [
  | inl q ↦ rw (ap (some_equal new_eps) (sym q) ∙ g) (here (e ∙ ap (service_endpoint k) q))
  | inr j ↦
      let found = stale_complete k eps new_eps se ep j g e in
      elim (Bool-cases (some_equal new_eps e')) [ inl p ↦ rw p found | inr p ↦ rw p (there found) ]
]

earlier :
    {old_map new_map : EndpointsMap} {se : ServiceEndpoint} (e : ServicePortName × List Endpoint)
    → StaleEndpoint old_map new_map se
    → StaleEndpoint (e ∷ old_map) new_map se
earlier e s = record {
  key = s.key;
  eps = s.eps;
  entry = there s.entry;
  is_udp = s.is_udp;
  stale = s.stale;
}

pub detect_stale_endpoints_sound :
    (old_map new_map : EndpointsMap) (se : ServiceEndpoint)
    → In se (detect_stale_endpoints old_map new_map)
    → StaleEndpoint old_map new_map se
unfolding detect_stale_endpoints
detect_stale_endpoints_sound [] new_map se i = absurd (not_in_nil i)
detect_stale_endpoints_sound ((k, eps) ∷ old_map) new_map se i =
    elim (Bool-cases (k.protocol == protocol_udp)) [
      | inr p ↦ earlier (k, eps) (detect_stale_endpoints_sound old_map new_map se (rw p at i))
      | inl p ↦
          elim ((In-append (stale_endpoints_of k eps (get_or_empty k new_map))
              (detect_stale_endpoints old_map new_map)).0
            (rw p at i)) [
              | inl j ↦ record {
                key = k;
                eps = eps;
                entry = here refl;
                is_udp = (==_iff k.protocol protocol_udp).0 p;
                stale = stale_sound k eps (get_or_empty k new_map) se j;
              }
              | inr j ↦ earlier (k, eps) (detect_stale_endpoints_sound old_map new_map se j)
            ]
    ]

abbrev Entry : Type 0
Entry = ServicePortName × List Endpoint

-- What the first loop does for an entry of a UDP port lands in its result.
entry_complete :
    (old_map new_map : EndpointsMap) (e : Entry) (se : ServiceEndpoint)
    → In e old_map
    → e.0.protocol ≡ protocol_udp
    → In se (stale_endpoints_of e.0 e.1 (get_or_empty e.0 new_map))
    → In se (detect_stale_endpoints old_map new_map)
unfolding detect_stale_endpoints
entry_complete [] new_map e se i udp j = absurd (not_in_nil i)
entry_complete ((k, eps) ∷ old_map) new_map e se i udp j =
    let append =
      (In-append {a = se} (stale_endpoints_of k eps (get_or_empty k new_map))
        (detect_stale_endpoints old_map new_map)).1 in
    elim (In-cases i) [
      | inl q ↦
          let same : e.0 ≡ k = ap {A = Entry} (λ t. t.0) q in
          rw
            ((==_iff k.protocol protocol_udp).1
              (ap (λ (n : ServicePortName). n.protocol) (sym same) ∙ udp))
            (append (
              inl (
                subst {A = Entry}
                  (λ t. In se (stale_endpoints_of t.0 t.1 (get_or_empty t.0 new_map))) q j)))
      | inr later_entry ↦
          let rest = entry_complete old_map new_map e se later_entry udp j in
          elim (Bool-cases (k.protocol == protocol_udp)) [
            | inl p ↦ rw p (append (inr rest))
            | inr p ↦ rw p rest
          ]
    ]

-- The stale endpoints are exactly the endpoints of a UDP port in the old map that are Equal to no
-- endpoint of the same port in the new map.
pub detect_stale_endpoints_exact :
    (old_map new_map : EndpointsMap) (se : ServiceEndpoint)
    → In se (detect_stale_endpoints old_map new_map) ↔ StaleEndpoint old_map new_map se
detect_stale_endpoints_exact old_map new_map se = (
  detect_stale_endpoints_sound old_map new_map se,
  λ s.
      entry_complete old_map new_map (s.key, s.eps) se s.entry s.is_udp
        (stale_complete s.key s.eps (get_or_empty s.key new_map) se s.stale.ep s.stale.listed
          s.stale.gone s.stale.is),
)
