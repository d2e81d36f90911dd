-- ===== src/Haproxy/Proxier/Synced.antt =====
-- When the proxier counts as initialized: the three Synced handlers in the two modes of watching.
use kube_haproxy.Prelude.{
  Bool, true, false, Option, none, some, ◌≡◌, refl, ◌∙◌, ◌&&◌, if◌then◌else◌, Bool-cases, inl, inr,
  arith, String,
}
use kube_haproxy.Kube.{KubeService, KubeEndpoints, EndpointSlice}
use kube_haproxy.External.{External, GoSet}
use kube_haproxy.Haproxy.Types.{Server, server_eq}
use kube_haproxy.Haproxy.Dataplane.{Dataplane}
use kube_haproxy.Haproxy.Graceful.{SrvItem, srv_item_eq}
use kube_haproxy.Haproxy.Proxier.{
  Proxier, Config, new_proxier, is_initialized, sync_proxy_rules, on_service_update,
  on_endpoints_update, on_endpoint_slice, on_service_synced, on_endpoints_synced,
  on_endpoint_slices_synced,
}

pub data Synced : Type 0 where
  services endpoints slices : Synced

module _ (x : External) (config : Config) (servers : GoSet Server) (set : GoSet SrvItem)
    (dp : Dataplane) where
  abbrev pub P : Type 0
  P = Proxier set.Carrier

  -- The flags and the counter of two states are the same.
  record SameFlags (p q : P) : Type 0 where
    endpoints_flag : p.endpoints_synced ≡ q.endpoints_synced
    services_flag : p.services_synced ≡ q.services_synced
    counter : p.initialized ≡ q.initialized

  sync-SameFlags :
      (p : P) (w : dp.World) → SameFlags (sync_proxy_rules x config servers set dp p w).0 p
  unfolding sync_proxy_rules
  sync-SameFlags p w = elim (Bool-cases (is_initialized p)) [
    | inl e ↦ rw e (record { endpoints_flag = refl; services_flag = refl; counter = refl })
    | inr e ↦ rw e (record { endpoints_flag = refl; services_flag = refl; counter = refl })
  ]

  -- One call of a handler or of the sync runner; the Synced handlers carry a label.
  pub data Step : Option Synced → P → P → Type 0 where
    service_update :
        (p : P) (old new : Option KubeService)
        → Step none p (on_service_update x config servers set dp old new p).0
    endpoints_update :
        (p : P) (old new : Option KubeEndpoints)
        → Step none p (on_endpoints_update x config servers set dp old new p).0
    endpoint_slice :
        (p q : P) (slice : Option EndpointSlice) (remove changed : Bool)
        → on_endpoint_slice x config servers set dp slice remove p ≡ some (q, changed)
        → Step none p q
    sync : (p : P) (w : dp.World) → Step none p (sync_proxy_rules x config servers set dp p w).0
    service_synced :
        (p : P) (w : dp.World)
        → Step (some services) p (on_service_synced x config servers set dp p w).0
    endpoints_synced :
        (p : P) (w : dp.World)
        → Step (some endpoints) p (on_endpoints_synced x config servers set dp p w).0
    slices_synced :
        (p : P) (w : dp.World)
        → Step (some slices) p (on_endpoint_slices_synced x config servers set dp p w).0

  abbrev pub Allowed : (Synced → Bool) → Option Synced → Type 0
  Allowed allowed none = Unit
  Allowed allowed (some e) = allowed e ≡ true

  -- Calls in any order, with the Synced handlers that are allowed.
  pub data Run (allowed : Synced → Bool) (p : P) : P → Type 0 where
    here : Run allowed p p
    next :
        {q r : P} {label : Option Synced}
        → Run allowed p q
        → Allowed allowed label
        → Step label q r
        → Run allowed p r

  slice-SameFlags :
      (p q : P) (slice : Option EndpointSlice) (remove changed : Bool)
      → on_endpoint_slice x config servers set dp slice remove p ≡ some (q, changed)
      → SameFlags q p
  unfolding on_endpoint_slice
  slice-SameFlags p q slice remove changed e = record {
    endpoints_flag = ground arith;
    services_flag = ground arith;
    counter = ground arith;
  }

  -- The flags after a call, by its label.
  abbrev Flags : Option Synced → P → P → Type 0
  Flags none p q = SameFlags q p
  Flags (some services) p q =
      (q.services_synced ≡ true)
      × (q.endpoints_synced ≡ p.endpoints_synced)
      × (q.initialized ≡ (if p.endpoints_synced then 1 else 0))
  Flags (some endpoints) p q =
      (q.services_synced ≡ p.services_synced)
      × (q.endpoints_synced ≡ true)
      × (q.initialized ≡ (if p.services_synced then 1 else 0))
  Flags (some slices) p q =
      (q.services_synced ≡ p.services_synced)
      × (q.endpoints_synced ≡ p.endpoints_synced)
      × (q.initialized ≡ (if p.services_synced then 1 else 0))

  synced_flags :
      (p : P) (w : dp.World)
      → (let q : P = (sync_proxy_rules x config servers set dp p w).0 in
          (q.services_synced ≡ p.services_synced)
          × (q.endpoints_synced ≡ p.endpoints_synced)
          × (q.initialized ≡ p.initialized))
  synced_flags p w = let f = sync-SameFlags p w in (f.services_flag, f.endpoints_flag, f.counter)

  Step-Flags : {label : Option Synced} {p q : P} → Step label p q → Flags label p q
  unfolding on_service_update on_endpoints_update on_service_synced on_endpoints_synced
      on_endpoint_slices_synced
  Step-Flags (service_update p old new) = record {
    endpoints_flag = refl;
    services_flag = refl;
    counter = refl;
  }
  Step-Flags (endpoints_update p old new) = record {
    endpoints_flag = refl;
    services_flag = refl;
    counter = refl;
  }
  Step-Flags (endpoint_slice p q slice remove changed e) =
      slice-SameFlags p q slice remove changed e
  Step-Flags (sync p w) = sync-SameFlags p w
  Step-Flags (service_synced p w) = synced_flags _ w
  Step-Flags (endpoints_synced p w) = synced_flags _ w
  Step-Flags (slices_synced p w) = synced_flags _ w

  -- Services and endpoints are watched, as without the feature gate EndpointSliceProxying.
  abbrev pub watching_endpoints : Synced → Bool
  watching_endpoints slices = false
  watching_endpoints _ = true

  -- Services and endpoint slices are watched.
  abbrev pub watching_slices : Synced → Bool
  watching_slices endpoints = false
  watching_slices _ = true

  abbrev only_services : Synced → Bool
  only_services services = true
  only_services _ = false

  abbrev Agrees : P → Type 0
  Agrees p = is_initialized p ≡ (p.services_synced && p.endpoints_synced)

  Step-Agrees :
      (label : Option Synced) (p q : P)
      → Allowed watching_endpoints label
      → Flags label p q
      → Agrees p
      → Agrees q
  Step-Agrees none p q ok f h = ground arith
  Step-Agrees (some services) p q ok f h = ground arith
  Step-Agrees (some endpoints) p q ok f h = ground arith
  Step-Agrees (some slices) p q ok f h = cc

  Run-Agrees : {p q : P} → Agrees p → Run watching_endpoints p q → Agrees q
  Run-Agrees h here = h
  Run-Agrees h (next {label} run ok step) =
      Step-Agrees label _ _ ok (Step-Flags step) (Run-Agrees h run)

  -- Where endpoints are watched, the proxier is initialized, at any time and in any order of the calls,
  -- exactly if the services and the endpoints have both been synced.
  pub Run-initialized :
      (list : set.Carrier) (hostname : String) {p : P}
      → Run watching_endpoints (new_proxier x list hostname false) p
      → is_initialized p ≡ (p.services_synced && p.endpoints_synced)
  unfolding new_proxier
  Run-initialized list hostname run = Run-Agrees refl run

  Step-no_endpoints :
      (label : Option Synced) (p q : P)
      → Allowed watching_slices label
      → Flags label p q
      → p.endpoints_synced ≡ false
      → q.endpoints_synced ≡ false
  Step-no_endpoints none p q ok f h = ground arith
  Step-no_endpoints (some services) p q ok f h = ground arith
  Step-no_endpoints (some endpoints) p q ok f h = cc
  Step-no_endpoints (some slices) p q ok f h = ground arith

  Run-no_endpoints :
      {p q : P} → p.endpoints_synced ≡ false → Run watching_slices p q → q.endpoints_synced ≡ false
  Run-no_endpoints h here = h
  Run-no_endpoints h (next {label} run ok step) =
      Step-no_endpoints label _ _ ok (Step-Flags step) (Run-no_endpoints h run)

  abbrev Stuck : P → Type 0
  Stuck p = (p.endpoints_synced ≡ false) × (is_initialized p ≡ false)

  Step-Stuck :
      (label : Option Synced) (p q : P)
      → Allowed only_services label
      → Flags label p q
      → Stuck p
      → Stuck q
  Step-Stuck none p q ok f h = (ground arith, ground arith)
  Step-Stuck (some services) p q ok f h = (ground arith, ground arith)
  Step-Stuck (some endpoints) p q ok f h = cc
  Step-Stuck (some slices) p q ok f h = cc

  Run-Stuck : {p q : P} → Stuck p → Run only_services p q → Stuck q
  Run-Stuck h here = h
  Run-Stuck h (next {label} run ok step) =
      Step-Stuck label _ _ ok (Step-Flags step) (Run-Stuck h run)

  on_service_synced-Stuck :
      (list : set.Carrier) (hostname : String) {p : P} (w : dp.World)
      → Run watching_slices (new_proxier x list hostname true) p
      → Stuck (on_service_synced x config servers set dp p w).0
  unfolding new_proxier
  on_service_synced-Stuck list hostname {p} w before =
      let off : p.endpoints_synced ≡ false = Run-no_endpoints refl before in
      let f = Step-Flags (service_synced p w) in (f.1 ∙ off, ground arith)

  -- Where endpoint slices are watched and the services are the last to be synced, the proxier is not
  -- initialized afterwards, and stays so through every further call but OnEndpointSlicesSynced, which
  -- is called once per lifetime: no sync does anything any more.
  pub services_last_never_syncs :
      (list : set.Carrier) (hostname : String) {p q : P} (w : dp.World)
      → Run watching_slices (new_proxier x list hostname true) p
      → Run only_services (on_service_synced x config servers set dp p w).0 q
      → (w' : dp.World) → sync_proxy_rules x config servers set dp q w' ≡ (q, w')
  unfolding sync_proxy_rules
  services_last_never_syncs list hostname {p} {q} w before after w' =
      let stuck : Stuck q = Run-Stuck (on_service_synced-Stuck list hostname w before) after in
      rw (stuck.1)
