-- ===== src/Controller/Endpoints/Translation.antt =====
-- The translation of an endpoints object: it reads the tracker's configuration, and names the object.
use kube_haproxy.Prelude.{
  ℕ, ◌==◌, ==_iff, if_keeps, Bool-cases, get, put, get-put, Option, none, some, List, [], ◌∷◌, ◌≡◌,
  refl, sym, ◌∙◌, ap, inl, inr, string_eq, nat_eq, list_eq,
}
use kube_haproxy.Kube.{NamespacedName, KubeEndpoints, EndpointSubset, EndpointPort, EndpointAddress}
use kube_haproxy.Api.{ServicePortName, service_port_name_eq}
use kube_haproxy.External.{External}
use kube_haproxy.Controller.Changes.Tracking.{Confined}
use kube_haproxy.Controller.Changes.History.{IsNamed}
use kube_haproxy.Controller.Endpoint.{EndpointsMap, Endpoint, endpoint_eq, wrong_ip_version}
use kube_haproxy.Controller.EndpointsTracker.{
  EndpointChangeTracker, add_addresses, add_ports, add_subsets, endpoints_to_endpoints_map,
  endpoints_key,
}

module _ (x : External) where
  -- Two trackers with the same configuration.
  pub record SameConfig (a b : EndpointChangeTracker) : Type 0 where
    pub hostname : a.hostname ≡ b.hostname
    pub maker : a.make_endpoint_info ≡ b.make_endpoint_info
    pub family : a.is_ipv6_mode ≡ b.is_ipv6_mode
    pub cache : a.endpoint_slice_cache ≡ b.endpoint_slice_cache

  add_addresses-config :
      {a b : EndpointChangeTracker}
      → SameConfig a b
      → (k : ServicePortName) (port : ℕ) (addrs : List EndpointAddress) (m : EndpointsMap)
      → add_addresses x a k port addrs m ≡ add_addresses x b k port addrs m
  unfolding add_addresses
  add_addresses-config c k port [] m = refl
  add_addresses-config {a} {b} c k port (addr ∷ addrs) m =
      rw (c.hostname, c.maker, c.family) (add_addresses-config c k port addrs _)

  add_ports-config :
      {a b : EndpointChangeTracker}
      → SameConfig a b
      → (eps : KubeEndpoints) (addrs : List EndpointAddress) (ports : List EndpointPort)
        (m : EndpointsMap)
      → add_ports x a eps addrs ports m ≡ add_ports x b eps addrs ports m
  unfolding add_ports
  add_ports-config c eps addrs [] m = refl
  add_ports-config c eps addrs (port ∷ ports) m =
      rw (add_addresses-config c _ port.port addrs m) (add_ports-config c eps addrs ports _)

  add_subsets-config :
      {a b : EndpointChangeTracker}
      → SameConfig a b
      → (eps : KubeEndpoints) (subsets : List EndpointSubset) (m : EndpointsMap)
      → add_subsets x a eps subsets m ≡ add_subsets x b eps subsets m
  unfolding add_subsets
  add_subsets-config c eps [] m = refl
  add_subsets-config c eps (ss ∷ subsets) m =
      rw (add_ports-config c eps ss.addresses ss.ports m) (add_subsets-config c eps subsets _)

  pub translation-config :
      {a b : EndpointChangeTracker}
      → SameConfig a b
      → (o : Option KubeEndpoints)
      → endpoints_to_endpoints_map x a o ≡ endpoints_to_endpoints_map x b o
  unfolding endpoints_to_endpoints_map
  translation-config c none = refl
  translation-config c (some eps) = ap some (add_subsets-config c eps eps.subsets [])

  -- Every key is one of the given object.
  abbrev OfObject : NamespacedName → EndpointsMap → Type 0
  OfObject nn m =
      (k : ServicePortName) (v : List Endpoint) → get k m ≡ some v → k.namespaced_name ≡ nn

  put-OfObject :
      {nn : NamespacedName} (m : EndpointsMap) (j : ServicePortName) (eps : List Endpoint)
      → j.namespaced_name ≡ nn
      → OfObject nn m
      → OfObject nn (put j eps m)
  put-OfObject m j eps e h k v g = elim (Bool-cases (j == k)) [
    | inl here ↦ ap (λ (i : ServicePortName). i.namespaced_name) (sym ((==_iff j k).0 here)) ∙ e
    | inr there ↦ h k v (rw (get-put, there) at g)
  ]

  add_addresses-OfObject :
      {nn : NamespacedName} (ect : EndpointChangeTracker) (k : ServicePortName) (port : ℕ)
      (addrs : List EndpointAddress) (m : EndpointsMap)
      → k.namespaced_name ≡ nn
      → OfObject nn m
      → OfObject nn (add_addresses x ect k port addrs m)
  unfolding add_addresses
  add_addresses-OfObject ect k port [] m e h = h
  add_addresses-OfObject ect k port (addr ∷ addrs) m e h =
      add_addresses-OfObject ect k port addrs _ e (
        if_keeps (OfObject _) (addr.ip == "") m _ h (
          if_keeps (OfObject _) (wrong_ip_version x ect.is_ipv6_mode addr.ip) m _ h
            (put-OfObject m k _ e h)))

  add_ports-OfObject :
      (ect : EndpointChangeTracker) (eps : KubeEndpoints) (addrs : List EndpointAddress)
      (ports : List EndpointPort) (m : EndpointsMap)
      → OfObject (endpoints_key x eps) m
      → OfObject (endpoints_key x eps) (add_ports x ect eps addrs ports m)
  unfolding add_ports
  add_ports-OfObject ect eps addrs [] m h = h
  add_ports-OfObject ect eps addrs (port ∷ ports) m h = add_ports-OfObject ect eps addrs ports _ (
      if_keeps (OfObject _) (port.port == 0) m _ h
        (add_addresses-OfObject ect _ port.port addrs m refl h))

  add_subsets-OfObject :
      (ect : EndpointChangeTracker) (eps : KubeEndpoints) (subsets : List EndpointSubset)
      (m : EndpointsMap)
      → OfObject (endpoints_key x eps) m
      → OfObject (endpoints_key x eps) (add_subsets x ect eps subsets m)
  unfolding add_subsets
  add_subsets-OfObject ect eps [] m h = h
  add_subsets-OfObject ect eps (ss ∷ subsets) m h =
      add_subsets-OfObject ect eps subsets _ (add_ports-OfObject ect eps ss.addresses ss.ports m h)

  pub translation-Confined :
      (ect : EndpointChangeTracker) (nn : NamespacedName) (o : Option KubeEndpoints)
      → IsNamed (endpoints_key x) nn o
      → Confined nn (endpoints_to_endpoints_map x ect o)
  unfolding endpoints_to_endpoints_map get
  translation-Confined ect nn none h k v g = cc
  translation-Confined ect nn (some eps) h k v g =
      add_subsets-OfObject ect eps eps.subsets [] (λ j w q. cc q) k v g ∙ h
