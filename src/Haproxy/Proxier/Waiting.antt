-- ===== src/Haproxy/Proxier/Waiting.antt =====
-- The proxier and the list of servers that wait for their deletion.
use kube_haproxy.Prelude.{
  String, Bool, true, false, Option, none, some, List, [], ◌∷◌, ◌≡◌, refl, sym, ◌∙◌, ap, subst,
  arith, if◌then◌else◌, Bool-cases, inl, inr, get_or_empty, put, GoMap, string_eq,
}
use kube_haproxy.Kube.{EndpointSlice}
use kube_haproxy.External.{External, GoSet}
use kube_haproxy.Api.{ServicePortName, service_port_name_eq}
use kube_haproxy.Controller.Endpoint.{Endpoint, EndpointsMap}
use kube_haproxy.Controller.Endpoints.{update_endpoints_map}
use kube_haproxy.Controller.Service.{
  ServicePort, ServiceMap, base_service_info, service_info, update_service_map,
}
use kube_haproxy.Haproxy.Types.{Server, server_eq, HaproxyInfo}
use kube_haproxy.Haproxy.Dataplane.{Dataplane}
use kube_haproxy.Haproxy.Graceful.{SrvItem, srv_item_eq, Managed}
use kube_haproxy.Haproxy.Sync.{sync_service, sync_endpoint}
use kube_haproxy.Haproxy.Sync.Servers.{IsClear, sync_endpoint_exact}
use kube_haproxy.Haproxy.Proxier.{
  Proxier, Config, SyncState, new_proxier, is_initialized, sync_one, sync_all, sync_proxy_rules,
  svc_name_string, haproxy_info, is_skipped, on_service_update, on_endpoints_update,
  on_endpoint_slice, on_service_synced, on_endpoints_synced, on_endpoint_slices_synced,
}
use kube_haproxy.Haproxy.Proxier.Synced.{
  Synced, Step, Run, here, next, service_update, endpoints_update, endpoint_slice, sync,
  service_synced, endpoints_synced, slices_synced,
}

module _ (x : External) (config : Config) (servers : GoSet Server) (set : GoSet SrvItem)
    (dp : Dataplane) where
  sync_endpoint-list :
      (eps : List Endpoint) (backend_name : String) (list : set.Carrier) (w : dp.World)
      → IsClear x servers set dp list
      → (sync_endpoint x servers set dp config.is_health_check eps backend_name (list, w)).1.0
        ≡ list
  sync_endpoint-list eps backend_name list w h =
      ap (λ (r : Unit {0} × Managed set dp.World). r.1.0)
        (sync_endpoint_exact x servers set dp config.is_health_check eps backend_name list w h)

  -- sync_one, once it has tested the name and synced the service.
  abbrev pub step :
      EndpointsMap
      → ServicePortName
      → HaproxyInfo
      → GoMap String Bool
      → set.Carrier
      → dp.World
      → Bool
      → Option String × dp.World
      → SyncState x config servers set dp
  step endpoints k obj active list w skipped r =
      if skipped then (active, (list, w)) else (elim r.0 [
        | some text ↦ (active, (list, r.1))
        | none ↦ (
          put (svc_name_string x k) true active,
          (sync_endpoint x servers set dp config.is_health_check (get_or_empty k endpoints)
              obj.backend.name (list, r.1)).1,
        )
      ])

  step-list :
      (endpoints : EndpointsMap) (k : ServicePortName) (obj : HaproxyInfo)
      (active : GoMap String Bool) (list : set.Carrier) (w : dp.World) (skipped : Bool)
      (r : Option String × dp.World)
      → IsClear x servers set dp list
      → (step endpoints k obj active list w skipped r).1.0 ≡ list
  step-list endpoints k obj active list w true r h = refl
  step-list endpoints k obj active list w false (some text, w') h = refl
  step-list endpoints k obj active list w false (none, w') h =
      sync_endpoint-list (get_or_empty k endpoints) obj.backend.name list w' h

  sync_one-list :
      (endpoints : EndpointsMap) (k : ServicePortName) (svc : ServicePort)
      (active : GoMap String Bool) (list : set.Carrier) (w : dp.World)
      → IsClear x servers set dp list
      → (sync_one x config servers set dp endpoints k svc (active, (list, w))).1.0 ≡ list
  unfolding sync_one
  sync_one-list endpoints k (base_service_info info) active list w h = refl
  sync_one-list endpoints k (service_info info name) active list w h =
      let obj = haproxy_info config (svc_name_string x k) info in
      step-list endpoints k obj active list w (is_skipped config (svc_name_string x k))
        (sync_service dp obj w) h

  sync_all-list :
      (endpoints : EndpointsMap) (sm : ServiceMap) (s : SyncState x config servers set dp)
      → IsClear x servers set dp s.1.0
      → (sync_all x config servers set dp endpoints sm s).1.0 ≡ s.1.0
  unfolding sync_all
  sync_all-list endpoints [] s h = refl
  sync_all-list endpoints ((k, svc) ∷ sm) (active, (list, w)) h =
      let same = sync_one-list endpoints k svc active list w h in
      sync_all-list endpoints sm
        (sync_one x config servers set dp endpoints k svc (active, (list, w)))
        (subst (IsClear x servers set dp) (sym same) h)
      ∙ same

  abbrev P : Type 0
  P = Proxier set.Carrier

  sync-list :
      (p : P) (w : dp.World)
      → IsClear x servers set dp p.srv_list
      → (sync_proxy_rules x config servers set dp p w).0.srv_list ≡ p.srv_list
  unfolding sync_proxy_rules
  sync-list p w h = elim (Bool-cases (is_initialized p)) [
    | inl e ↦ rw e (
        sync_all-list (update_endpoints_map x p.endpoints_map p.endpoints_changes).0.endpoints_map
          (update_service_map x p.service_map p.service_changes).0 ([], (p.srv_list, w)) h)
    | inr e ↦ rw e refl
  ]

  slice-list :
      (p q : P) (slice : Option EndpointSlice) (remove changed : Bool)
      → on_endpoint_slice x config servers set dp slice remove p ≡ some (q, changed)
      → q.srv_list ≡ p.srv_list
  unfolding on_endpoint_slice
  slice-list p q slice remove changed e = ground arith

  Step-list :
      {label : Option Synced} {p q : P}
      → Step x config servers set dp label p q
      → IsClear x servers set dp p.srv_list
      → q.srv_list ≡ p.srv_list
  unfolding on_service_update on_endpoints_update on_service_synced on_endpoints_synced
      on_endpoint_slices_synced
  Step-list (service_update p old new) h = refl
  Step-list (endpoints_update p old new) h = refl
  Step-list (endpoint_slice p q slice remove changed e) h = slice-list p q slice remove changed e
  Step-list (sync p w) h = sync-list p w h
  Step-list (service_synced p w) h = sync-list _ w h
  Step-list (endpoints_synced p w) h = sync-list _ w h
  Step-list (slices_synced p w) h = sync-list _ w h

  Run-list :
      {allowed : Synced → Bool} {p q : P}
      → Run x config servers set dp allowed p q
      → IsClear x servers set dp p.srv_list
      → q.srv_list ≡ p.srv_list
  Run-list here h = refl
  Run-list (next run ok step_taken) h =
      let same = Run-list run h in
      Step-list step_taken (subst (IsClear x servers set dp) (sym same) h) ∙ same

  -- Whatever the handlers, the Synced handlers and the syncs do to a new proxier, in any order, its list
  -- of servers that wait for their deletion stays the empty set that it started with: no sync ever
  -- finds a server waiting.
  pub Run-keeps_list :
      (hostname : String) (endpoint_slices_enabled : Bool) {allowed : Synced → Bool} {p : P}
      → Run x config servers set dp allowed
          (new_proxier x set.empty hostname endpoint_slices_enabled)
          p
      → p.srv_list ≡ set.empty
  unfolding new_proxier
  Run-keeps_list hostname endpoint_slices_enabled run = Run-list run set.contains-empty
