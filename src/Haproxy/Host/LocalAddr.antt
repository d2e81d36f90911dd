-- ===== src/Haproxy/Host/LocalAddr.antt =====
-- haproxy/haproxy.go, GetLocalAddr: the first IPv4 address of an interface.
use kube_haproxy.Prelude.{
  String, Option, none, some, List, [], ◌∷◌, ◌≡◌, refl, ◌∙◌, ap, sym, ◌↔◌, ◌⊎◌, inl, inr,
  Option-cases, ◌+++◌,
}
use kube_haproxy.External.{Ip}
use kube_haproxy.Haproxy.Host.{Addr, ip_net, other_addr, first_ipv4, get_local_addr}

module _ (to4 : Ip → Option Ip) where
  -- The list starts with addresses that are not IPv4, and the next one has the IPv4 form `ip4`.
  pub data FirstIpv4 (ip4 : Ip) : List Addr → Type 0 where
    here : {addrs : List Addr} (ip : Ip) → to4 ip ≡ some ip4 → FirstIpv4 ip4 (ip_net ip ∷ addrs)
    later :
        {addrs : List Addr} (ip : Ip)
        → to4 ip ≡ none
        → FirstIpv4 ip4 addrs
        → FirstIpv4 ip4 (ip_net ip ∷ addrs)

  step :
      (ip : Ip) (addrs : List Addr)
      → to4 ip ≡ none
      → first_ipv4 to4 (ip_net ip ∷ addrs) ≡ first_ipv4 to4 addrs
  unfolding first_ipv4
  step ip addrs e = rw (e, first_ipv4) refl

  stop :
      (ip ip4 : Ip) (addrs : List Addr)
      → to4 ip ≡ some ip4
      → first_ipv4 to4 (ip_net ip ∷ addrs) ≡ some (some ip4)
  unfolding first_ipv4
  stop ip ip4 addrs e = rw (e, first_ipv4) refl

  finds :
      (ip4 : Ip) {addrs : List Addr} → FirstIpv4 ip4 addrs → first_ipv4 to4 addrs ≡ some (some ip4)
  finds ip4 (here {addrs} ip e) = stop ip ip4 addrs e
  finds ip4 (later {addrs} ip e rest) = step ip addrs e ∙ finds ip4 rest

  found :
      (addrs : List Addr) (ip4 : Ip) → first_ipv4 to4 addrs ≡ some (some ip4) → FirstIpv4 ip4 addrs
  unfolding first_ipv4
  found [] ip4 e = cc e
  found (other_addr ∷ addrs) ip4 e = cc e
  found (ip_net ip ∷ addrs) ip4 e = elim (Option-cases (to4 ip)) [
    | inl n ↦ later ip n (found addrs ip4 (sym (step ip addrs n) ∙ e))
    | inr (ip', s) ↦
        let same : some (some ip') ≡ some (some ip4) = sym (stop ip ip' addrs s) ∙ e in
        here ip (s ∙ cc same)
  ]

  -- GetLocalAddr, by what its loop finds.
  abbrev reported : String → Option (Option Ip) → Option (String ⊎ Ip)
  reported dev o = elim o [
    | none ↦ none
    | some ipv4_addr ↦ elim ipv4_addr [
      | none ↦ some (inl ("interface " +++ dev +++ " don't have an ipv4 address\n"))
      | some ip4 ↦ some (inr ip4)
    ]
  ]

  get_local_addr-reported :
      (dev : String) (addrs : List Addr)
      → get_local_addr to4 dev (inr addrs) ≡ reported dev (first_ipv4 to4 addrs)
  unfolding get_local_addr
  get_local_addr-reported dev addrs = refl

  reported-ip :
      (dev : String) (o : Option (Option Ip)) (ip4 : Ip)
      → reported dev o ≡ some (inr ip4)
      → o ≡ some (some ip4)
  reported-ip dev none ip4 e = cc e
  reported-ip dev (some none) ip4 e = cc e
  reported-ip dev (some (some ip)) ip4 e = cc e

  -- GetLocalAddr gives an address and no error exactly when that is the IPv4 form of the first address
  -- of the interface that has one: the addresses before it are IP networks without an IPv4 form.
  pub get_local_addr-FirstIpv4 :
      (dev : String) (addrs : List Addr) (ip4 : Ip)
      → (get_local_addr to4 dev (inr addrs) ≡ some (inr ip4)) ↔ FirstIpv4 ip4 addrs
  get_local_addr-FirstIpv4 dev addrs ip4 = (
    λ e.
        found addrs ip4 (
          reported-ip dev (first_ipv4 to4 addrs) ip4 (sym (get_local_addr-reported dev addrs) ∙ e)),
    λ f. get_local_addr-reported dev addrs ∙ ap (reported dev) (finds ip4 f),
  )
