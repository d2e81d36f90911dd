-- ===== src/Haproxy/Proxier/Served.antt =====
-- One turn of the loop of syncProxyRules, on a data plane that keeps what it is sent.
pub mod Loop
use kube_haproxy.Prelude.{
  String, Bool, true, false, Option, none, some, [], ◌∷◌, ◌≡◌, ◌≢◌, refl, sym, ap, subst, ◌∙◌,
  Bool-cases, inl, inr, get, put, get-put, get_or_empty, GoMap, is_some, EachEntry, ◌+++◌, ◌==◌,
  ==_refl, string_eq, if_keeps, to_lower,
}
use text.Mathlib.TextLemmas.{append_cancel_left, append-eq-nil_iff}
use kube_haproxy.External.{External, GoSet}
use kube_haproxy.Api.{ServicePortName, service_port_name_eq}
use kube_haproxy.Controller.Endpoint.{EndpointsMap}
use kube_haproxy.Controller.Service.{
  BaseServiceInfo, ServicePort, ServiceMap, base_service_info, service_info,
}
use kube_haproxy.Haproxy.Types.{
  Backend, Frontend, Server, server_eq, HaproxyInfo, backend_prefix, frontend_prefix, bind_prefix,
  check_timeout,
}
use kube_haproxy.Haproxy.Dataplane.{Dataplane}
use kube_haproxy.Haproxy.Graceful.{SrvItem, srv_item_eq}
use kube_haproxy.Haproxy.Sync.{sync_service}
use kube_haproxy.Haproxy.Sync.Store.{Views, Keeps}
use kube_haproxy.Haproxy.Sync.Created.{Nonzero, sync_service-creates}
use kube_haproxy.Haproxy.Sync.Made.{AbsentOr}
use kube_haproxy.Haproxy.Sync.Elsewhere.{Same, Same-trans, Separates}
use kube_haproxy.Haproxy.Sync.Framed.{Apart, sync_service-Same}
use kube_haproxy.Haproxy.Sync.Neighbours.{sync_endpoint-Same}
use kube_haproxy.Haproxy.Proxier.{
  Config, SyncState, sync_one, sync_all, svc_name_string, backend_entry, frontend_entry,
  haproxy_info, is_skipped,
}
use kube_haproxy.Haproxy.Proxier.Waiting.{step}
use kube_haproxy.Haproxy.Proxier.Called.{called_for, called_for-Nonzero, called_for-Apart}

-- What is active stays active.
active_kept :
    (name other : String) (active : GoMap String Bool)
    → is_some (get name active) ≡ true
    → is_some (get name (put other true active)) ≡ true
active_kept name other active h = elim (Bool-cases (other == name)) [
  | inl e ↦ ap is_some (get-put name other true active) ∙ rw e refl
  | inr e ↦ ap is_some (get-put name other true active) ∙ rw e h
]

module _ (x : External) (config : Config) (servers : GoSet Server) (set : GoSet SrvItem)
    (dp : Dataplane) (views : ServicePortName → Views dp) (endpoints : EndpointsMap) where
  -- What the API documents, for the objects that a service calls for.
  abbrev pub Documented : ServicePortName → ServicePort → Type 0
  Documented k (base_service_info info) = Unit
  Documented k (service_info info name) =
      Keeps dp (called_for x config k info) (views k)
      × Separates dp (called_for x config k info) (views k)

  -- Each object of a service is missing, or as the service calls for it.
  abbrev pub Fits : dp.World → ServicePortName → ServicePort → Type 0
  Fits w k (base_service_info info) = Unit
  Fits w k (service_info info name) =
      AbsentOr (called_for x config k info).backend ((views k).backend_at w)
      × AbsentOr (called_for x config k info).frontend ((views k).frontend_at w)
      × AbsentOr (called_for x config k info).bind ((views k).bind_at w)

  -- Haproxy has the three objects of a service, and it counts as active; where it is not passed over.
  abbrev pub Served : SyncState x config servers set dp → ServicePortName → ServicePort → Type 0
  Served s k (base_service_info info) = Unit
  Served s k (service_info info name) =
      is_skipped config (svc_name_string x k) ≡ false
      → ((views k).backend_at s.1.1 ≡ some (called_for x config k info).backend)
        × ((views k).frontend_at s.1.1 ≡ some (called_for x config k info).frontend)
        × ((views k).bind_at s.1.1 ≡ some (called_for x config k info).bind)
        × (is_some (get (svc_name_string x k) s.0) ≡ true)

  -- No two entries have the same name in haproxy.
  abbrev pub OtherName : ServicePortName → ServicePortName → ServicePort → Type 0
  OtherName k j svc = svc_name_string x j ≢ svc_name_string x k

  abbrev pub Unique : ServiceMap → Type 0
  Unique [] = Unit
  Unique ((k, svc) ∷ sm) = EachEntry (OtherName k) sm × Unique sm

  abbrev pub One :
      ServicePortName
      → ServicePort
      → SyncState x config servers set dp
      → SyncState x config servers set dp
  One = sync_one x config servers set dp endpoints

  -- The loop body on one service leaves the objects of another alone.
  module _ (k : ServicePortName) (info : BaseServiceInfo)
      (s : Separates dp (called_for x config k info) (views k))
      (keeps : Keeps dp (called_for x config k info) (views k)) where
    abbrev Kept : dp.World → dp.World → Type 0
    Kept = Same dp (called_for x config k info) (views k)

    step-Kept :
        (j : ServicePortName) (obj : HaproxyInfo) (active : GoMap String Bool) (list : set.Carrier)
        (w : dp.World) (skipped : Bool) (r : Option String × dp.World)
        → Kept w r.1
        → Kept w (step x config servers set dp endpoints j obj active list w skipped r).1.1
    step-Kept j obj active list w true r h = (refl, refl, refl)
    step-Kept j obj active list w false (some text, w') h = h
    step-Kept j obj active list w false (none, w') h =
        Same-trans dp (called_for x config k info) (views k) w w' _ h (
          sync_endpoint-Same dp (called_for x config k info) (views k) s x servers set
            config.is_health_check (get_or_empty j endpoints) obj.backend.name list w')

    pub sync_one-Kept :
        (j : ServicePortName) (svc : ServicePort) (active : GoMap String Bool) (list : set.Carrier)
        (w : dp.World)
        → Documented j svc
        → OtherName k j svc
        → Fits w j svc
        → Kept w (One j svc (active, (list, w))).1.1
    unfolding sync_one
    sync_one-Kept j (base_service_info other) active list w d n h = (refl, refl, refl)
    sync_one-Kept j (service_info other name) active list w d n h =
        let obj = called_for x config j other in
        step-Kept j obj active list w (is_skipped config (svc_name_string x j))
          (sync_service dp obj w)
          (sync_service-Same dp (called_for x config k info) (views k) s obj (views j) d.0 w
            (called_for-Nonzero x config dp views j other d.0)
            (called_for-Apart x config dp views k info keeps s j other d.0 n) h)

    -- The loop body on the service itself.
    step-Served :
        (name : String) (active : GoMap String Bool) (list : set.Carrier) (w : dp.World)
        (skipped : Bool) (r : Option String × dp.World)
        → skipped ≡ false
        → (r.0 ≡ none)
          × ((views k).backend_at r.1 ≡ some (called_for x config k info).backend)
          × ((views k).frontend_at r.1 ≡ some (called_for x config k info).frontend)
          × ((views k).bind_at r.1 ≡ some (called_for x config k info).bind)
        → Served
            (step x config servers set dp endpoints k
              (called_for x config k info)
              active
              list
              w
              skipped
              r)
            k
            (service_info info name)
    step-Served name active list w true r p h = cc p
    step-Served name active list w false (some text, w') p h = cc h.0
    step-Served name active list w false (none, w') p (e, b, f, i) = λ kept.
        let (b', f', i') =
          sync_endpoint-Same dp (called_for x config k info) (views k) s x servers set
            config.is_health_check (get_or_empty k endpoints)
            (called_for x config k info).backend.name list w' in
        let key = svc_name_string x k in
        (b' ∙ b, f' ∙ f, i' ∙ i, ap is_some (get-put key key true active) ∙ rw (==_refl key) refl)

    pub sync_one-Served :
        (name : String) (active : GoMap String Bool) (list : set.Carrier) (w : dp.World)
        → Fits w k (service_info info name)
        → Served (One k (service_info info name) (active, (list, w))) k (service_info info name)
    unfolding sync_one
    sync_one-Served name active list w (hb, hf, hi) not_skipped =
        let obj = called_for x config k info in
        let (nb, nf, ni) = called_for-Nonzero x config dp views k info keeps in
        step-Served name active list w (is_skipped config (svc_name_string x k))
          (sync_service dp obj w) not_skipped
          (sync_service-creates dp obj (views k) keeps w nb nf ni hb hf hi) not_skipped

  step-active :
      (name : String) (j : ServicePortName) (obj : HaproxyInfo) (active : GoMap String Bool)
      (list : set.Carrier) (w : dp.World) (skipped : Bool) (r : Option String × dp.World)
      → is_some (get name active) ≡ true
      → is_some (get name (step x config servers set dp endpoints j obj active list w skipped r).0)
        ≡ true
  step-active name j obj active list w true r h = h
  step-active name j obj active list w false (some text, w') h = h
  step-active name j obj active list w false (none, w') h =
      active_kept name (svc_name_string x j) active h

  pub sync_one-active :
      (name : String) (j : ServicePortName) (svc : ServicePort) (active : GoMap String Bool)
      (list : set.Carrier) (w : dp.World)
      → is_some (get name active) ≡ true
      → is_some (get name (One j svc (active, (list, w))).0) ≡ true
  unfolding sync_one
  sync_one-active name j (base_service_info other) active list w h = h
  sync_one-active name j (service_info other stored_name) active list w h =
      step-active name j (called_for x config j other) active list w
        (is_skipped config (svc_name_string x j)) (sync_service dp (called_for x config j other) w)
        h
