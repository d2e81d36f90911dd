-- ===== src/Controller/Service/StaleIps.antt =====
-- controller/service.go, unmerge: the stale cluster IPs and the UDP ports that leave the service map.
use kube_haproxy.Prelude.{
  ◌==◌, ==_iff, ==_refl, Bool-cases, Option-cases, get, Option, none, some, [], ◌∷◌, ◌≡◌, refl, sym,
  ◌∙◌, ap, subst, ◌&&◌, ◌||◌, Bool, true, arith, inl, inr, String, string_eq, ◌↔◌, ◌⊎◌,
}
use kube_haproxy.Kube.{namespaced_name_eq, protocol_udp}
use kube_haproxy.Api.{ServicePortName, service_port_name_eq}
use kube_haproxy.External.{External}
use kube_haproxy.Controller.Service.{
  ServiceMap, ServicePort, unmerge, unmerge_port, protocol_of, cluster_ip_of,
}
use kube_haproxy.Controller.Service.Merging.{get-unmerge, get-unmerge_port}

module _ (x : External) where
  open x.string_set use {Carrier as StringSet, contains as has, add, contains-add}

  -- A UDP port with this cluster IP.
  abbrev pub IsUdpAt : String → ServicePort → Type 0
  IsUdpAt ip info = (protocol_of info ≡ protocol_udp) × (x.ip_string (cluster_ip_of info) ≡ ip)

  -- A UDP port with this cluster IP that the first map has and the second has not.
  pub record Left (before after : ServiceMap) (ip : String) : Type 0 where
    pub key : ServicePortName
    pub info : ServicePort
    pub was : get key before ≡ some info
    pub gone : get key after ≡ none
    pub udp : IsUdpAt ip info

  -- Whether one step of unmerge leaves the address in the set.
  abbrev kept : String → StringSet → Option ServicePort → Bool
  kept ip stale none = has ip stale
  kept ip stale (some info) =
      (protocol_of info == protocol_udp && ip == x.ip_string (cluster_ip_of info)) || has ip stale

  port_kept :
      (ip : String) (j : ServicePortName) (sm : ServiceMap) (stale : StringSet)
      → has ip (unmerge_port x j (sm, stale)).1 ≡ kept ip stale (get j sm)
  unfolding unmerge_port
  port_kept ip j sm stale = elim (Option-cases (get j sm)) [
    | inl e ↦ rw (e, unmerge_port) refl
    | inr (info, e) ↦ elim (Bool-cases (protocol_of info == protocol_udp)) [
      | inl u ↦ rw (e, u, unmerge_port) (contains-add ip (x.ip_string (cluster_ip_of info)) stale)
      | inr u ↦ rw (e, u, unmerge_port) refl
    ]
  ]

  port_only :
      (ip : String) (stale : StringSet) (o : Option ServicePort)
      → kept ip stale o ≡ true
      → (has ip stale ≡ true) ⊎ ((info : ServicePort) × (o ≡ some info) × IsUdpAt ip info)
  port_only ip stale none h = inl h
  port_only ip stale (some info) h = elim (Bool-cases (has ip stale)) [
    | inl s ↦ inl s
    | inr s ↦ inr (
      info,
      refl,
      ground (
        arith,
        ==_iff (protocol_of info) protocol_udp,
        ==_iff ip (x.ip_string (cluster_ip_of info)),
      ),
    )
  ]

  port_keeps :
      (ip : String) (stale : StringSet) (o : Option ServicePort)
      → has ip stale ≡ true
      → kept ip stale o ≡ true
  port_keeps ip stale none h = h
  port_keeps ip stale (some info) h = ground arith

  port_adds :
      (ip : String) (stale : StringSet) (info : ServicePort)
      → IsUdpAt ip info
      → kept ip stale (some info) ≡ true
  port_adds ip stale info (p, q) =
      ground (
        arith,
        ==_iff (protocol_of info) protocol_udp,
        ==_iff ip (x.ip_string (cluster_ip_of info)),
      )

  abbrev Stale : String → StringSet → ServiceMap → ServiceMap → StringSet → Type 0
  Stale ip stale before after found =
      (has ip found ≡ true) ↔ ((has ip stale ≡ true) ⊎ Left before after ip)

  -- What one more step adds to what the steps before it have found.
  port-Stale :
      (ip : String) (j : ServicePortName) (sm mid : ServiceMap) (stale found : StringSet)
      → ((k : ServicePortName) (info : ServicePort) → get k mid ≡ some info → get k sm ≡ some info)
      → Stale ip stale sm mid found
      → Stale ip stale sm (unmerge_port x j (mid, found)).0 (unmerge_port x j (mid, found)).1
  port-Stale ip j sm mid stale found sub ih = (
    λ h. elim (port_only ip found (get j mid) (sym (port_kept ip j mid found) ∙ h)) [
      | inl s ↦ elim (ih.0 s) [
        | inl old ↦ inl old
        | inr left ↦ inr (record {
          key = left.key;
          info = left.info;
          was = left.was;
          udp = left.udp;
          gone = get-unmerge_port x left.key j mid found ∙ ground (arith, left.gone);
        })
      ]
      | inr (info, e, u) ↦ inr (record {
        key = j;
        info = info;
        was = sub j info e;
        udp = u;
        gone = get-unmerge_port x j j mid found ∙ ground (arith, ==_refl j);
      })
    ],
    λ s. port_kept ip j mid found ∙ elim s [
      | inl old ↦ port_keeps ip found (get j mid) (ih.1 (inl old))
      | inr left ↦ elim (Option-cases (get left.key mid)) [
        | inl e ↦ port_keeps ip found (get j mid) (
            ih.1 (
              inr (record {
                key = left.key;
                info = left.info;
                was = left.was;
                udp = left.udp;
                gone = e;
              })))
        | inr (info, e) ↦
            let here : j ≡ left.key =
              (==_iff j left.key).0
                (ground (arith, e, left.gone, get-unmerge_port x left.key j mid found)) in
            subst (λ o. kept ip found o ≡ true)
              (sym (ap (λ k. get k mid) here ∙ e ∙ sym (sub left.key info e) ∙ left.was))
              (port_adds ip found left.info left.udp)
      ]
    ],
  )

  unmerge_only_removes :
      (k : ServicePortName) (sm other : ServiceMap) (stale : StringSet) (info : ServicePort)
      → get k (unmerge x sm other stale).0 ≡ some info
      → get k sm ≡ some info
  unmerge_only_removes k sm other stale info e = ground (arith, get-unmerge x k sm other stale)

  -- unmerge puts into the stale set exactly the cluster IPs of the UDP ports that it takes out of the
  -- map: after it, an address is in the set if and only if it was there before, or some UDP port with
  -- that cluster IP was in the map before and is no longer there.
  pub unmerge_stale_iff :
      (ip : String) (sm other : ServiceMap) (stale : StringSet)
      → (has ip (unmerge x sm other stale).1 ≡ true)
        ↔ ((has ip stale ≡ true) ⊎ Left sm (unmerge x sm other stale).0 ip)
  unfolding unmerge
  unmerge_stale_iff ip sm [] stale =
      (λ h. inl h, λ s. elim s [ inl h ↦ h | inr left ↦ cc (left.was, left.gone) ])
  unmerge_stale_iff ip sm ((j, v) ∷ other) stale =
      port-Stale ip j sm (unmerge x sm other stale).0 stale (unmerge x sm other stale).1
        (λ k info e. unmerge_only_removes k sm other stale info e)
        (unmerge_stale_iff ip sm other stale)
