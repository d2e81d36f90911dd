-- ===== src/Haproxy/Proxier.antt =====
-- haproxy/proxier.go: the proxier, its event handlers, and syncProxyRules. The mutex of the proxier
-- makes each method atomic; the rate limits of the sync runner are not modelled.
pub mod Synced
pub mod Converges
pub mod Slices
pub mod Waiting
pub mod Called
pub mod Served
pub mod Names
pub mod Listed
use kube_haproxy.Prelude.{
  ℕ, String, Bool, true, false, not, Option, none, some, List, [], ◌∷◌, ◌==◌, DecEq, ltb,
  if◌then◌else◌, is_some, is_empty, get, put, GoMap, ◌&&◌, ◌||◌, string_eq, nat_eq, ◌+++◌, to_lower,
  replace_all, contains, get_or_empty,
}
use Prim.Native.Char.{Char}
use kube_haproxy.Kube.{NamespacedName, KubeService, KubeServicePort, KubeEndpoints, EndpointSlice}
use kube_haproxy.External.{External, GoSet}
use kube_haproxy.Api.{ServicePortName, service_port_name_eq, service_port_name_string}
use kube_haproxy.Controller.Endpoint.{Endpoint, BaseEndpointInfo, EndpointsMap, endpoints_info}
use kube_haproxy.Controller.Endpoints.{update_endpoints_map}
use kube_haproxy.Controller.EndpointsTracker.{EndpointChangeTracker, new_endpoint_change_tracker}
use kube_haproxy.Controller.Endpoints
use kube_haproxy.Controller.Service.{
  BaseServiceInfo, ServicePort, base_service_info, service_info, ServiceMap, ServiceChangeTracker,
  new_service_change_tracker, service_key, update_service_map,
}
use kube_haproxy.Controller.Service
use kube_haproxy.Haproxy.Action.{Action, for_each}
use kube_haproxy.Haproxy.Types.{
  Backend, Frontend, Bind, Server, HaproxyInfo, backend_prefix, frontend_prefix, bind_prefix,
  check_timeout, forword_enable, only_fetch, server_eq,
}
use kube_haproxy.Haproxy.Types
use kube_haproxy.Haproxy.Dataplane.{Dataplane}
use kube_haproxy.Haproxy.Operations.{get_services}
use kube_haproxy.Haproxy.Graceful.{SrvItem, srv_item_eq, Managed}
use kube_haproxy.Haproxy.Sync.{sync_service, sync_endpoint, clean_legacy_service}

-- newServiceInfo: the name that it stores has no protocol.
unfoldable pub new_service_info :
    External → KubeServicePort → KubeService → BaseServiceInfo → ServicePort
new_service_info x port service info = service_info info (
    service_port_name_string x
      (record { namespaced_name = service_key x service; port = port.name; protocol = "" }))

-- newEndpointInfo
abbrev pub new_endpoint_info : BaseEndpointInfo → Endpoint
new_endpoint_info info = endpoints_info info ""

-- What NewProxier takes and keeps. `proxy_ip` is the text of proxyIP, which is 0.0.0.0.
pub record Config : Type 0 where
  pub mode : String
  pub server_algorithm : String
  pub is_health_check : Bool
  pub proxy_ip : String

-- The fields of Proxier that change. `initialized` is the int32 that is read and written atomically.
pub record Proxier (list : Type 0) : Type 0 where
  pub endpoints_changes : EndpointChangeTracker
  pub service_changes : ServiceChangeTracker
  pub service_map : ServiceMap
  pub endpoints_map : EndpointsMap
  pub endpoints_synced : Bool
  pub endpoint_slices_synced : Bool
  pub services_synced : Bool
  pub initialized : ℕ
  pub srv_list : list

-- NewProxier, the state that it builds. The proxy address is IPv4, so the endpoints tracker's mode is.
unfoldable pub new_proxier : {L : Type 0} → External → L → String → Bool → Proxier L
unfolding new_endpoint_change_tracker new_service_change_tracker
new_proxier x empty_list hostname endpoint_slices_enabled = record {
  endpoints_changes =
      new_endpoint_change_tracker hostname (some new_endpoint_info) (some false)
        endpoint_slices_enabled;
  service_changes = new_service_change_tracker (some (new_service_info x));
  service_map = [];
  endpoints_map = [];
  endpoints_synced = false;
  endpoint_slices_synced = false;
  services_synced = false;
  initialized = 0;
  srv_list = empty_list;
}

-- setInitialized
abbrev pub set_initialized : {L : Type 0} → Bool → Proxier L → Proxier L
set_initialized value p = record p { initialized = if value then 1 else 0 }

-- isInitialized
abbrev pub is_initialized : {L : Type 0} → Proxier L → Bool
is_initialized p = ltb 0 p.initialized

-- svcNameString, as syncProxyRules spells it
unfoldable pub svc_name_string : External → ServicePortName → String
unfolding service_port_name_string replace_all
svc_name_string x k = replace_all (replace_all (service_port_name_string x k) "/" ".") ":" "."

-- The backend entry of a service, by the lower-case protocol.
unfoldable pub backend_entry : Config → String → String → Backend
backend_entry config name protocol =
    let base : Backend = record {
      name = backend_prefix +++ name;
      balance_algorithm = some config.server_algorithm;
      mode = protocol;
      check_timeout = some check_timeout;
      httpchk = none;
      forwardfor_enabled = none;
      others = [];
    } in
    if protocol == "tcp"
    then base
    else if protocol == "http"
    then record base {
      httpchk = some (record { method = "get"; uri = "/ping" });
      forwardfor_enabled = some forword_enable;
    }
    else record base { mode = "tcp" }

unfoldable pub frontend_entry : String → String → Frontend
frontend_entry name protocol = record {
  name = frontend_prefix +++ name;
  default_backend = backend_prefix +++ name;
  mode = protocol;
  others = [];
}

-- The entries of a service. The second switch sets Forwardfor once more where it is set already.
unfoldable pub haproxy_info : Config → String → BaseServiceInfo → HaproxyInfo
unfolding backend_entry frontend_entry to_lower
haproxy_info config name info =
    let protocol = to_lower info.protocol in
    record {
      backend = backend_entry config name protocol;
      frontend = frontend_entry name protocol;
      bind = record {
        name = bind_prefix +++ name;
        port = some info.port;
        address = config.proxy_ip;
        others = [];
      };
    }

-- The services that syncProxyRules passes over in only-fetch mode.
unfoldable pub is_skipped : Config → String → Bool
is_skipped config name =
    config.mode == only_fetch
    && (contains name "default.kubernetes" || contains name "kube-system.kube-dns")

-- The loop that fills currentServices, in order: currentServices[svc.Name] = svc.
unfoldable pub index_services :
    List Types.Service → GoMap String Types.Service → GoMap String Types.Service
index_services [] current = current
index_services (svc ∷ services) current = index_services services (put svc.name svc current)

module _ (x : External) (config : Config) (servers : GoSet Server) (set : GoSet SrvItem)
    (dp : Dataplane) where
  -- What the loop of syncProxyRules over the services carries: activeServices, and what the manager
  -- changes.
  abbrev pub SyncState : Type 0
  SyncState = GoMap String Bool × Managed set dp.World

  -- The loop body of syncProxyRules, over the entries of the service map.
  unfoldable pub sync_one : EndpointsMap → ServicePortName → ServicePort → SyncState → SyncState
  unfolding sync_service sync_endpoint svc_name_string haproxy_info is_skipped
  sync_one endpoints k (base_service_info info) s = s
  sync_one endpoints k (service_info info service_name) (active, (list, w)) =
      let name = svc_name_string x k in
      let obj = haproxy_info config name info in
      if is_skipped config name
      then (active, (list, w))
      else (let (e, w') = sync_service dp obj w in
          elim e [
            | some text ↦ (active, (list, w'))
            | none ↦ (
              put name true active,
              (sync_endpoint x servers set dp config.is_health_check (get_or_empty k endpoints)
                  obj.backend.name (list, w')).1,
            )
          ])

  unfoldable pub sync_all : EndpointsMap → ServiceMap → SyncState → SyncState
  unfolding sync_one
  sync_all endpoints [] s = s
  sync_all endpoints ((k, svc) ∷ sm) s = sync_all endpoints sm (sync_one endpoints k svc s)

  -- syncProxyRules. The stale services that it collects are used by nothing and left out;
  -- EnsureHaproxy returns true.
  unfoldable pub sync_proxy_rules : Proxier set.Carrier → dp.World → Proxier set.Carrier × dp.World
  unfolding update_service_map update_endpoints_map sync_all get_services index_services
      clean_legacy_service
  sync_proxy_rules p w =
      if not (is_initialized p)
      then (p, w)
      else (let (sm, sct, _) = update_service_map x p.service_map p.service_changes in
          let (applied, _, _, ect) = update_endpoints_map x p.endpoints_map p.endpoints_changes in
          let (active, (list, w')) = sync_all applied.endpoints_map sm ([], (p.srv_list, w)) in
          let (services, w'') = get_services dp w' in
          (
            record p {
              service_map = sm;
              service_changes = sct;
              endpoints_map = applied.endpoints_map;
              endpoints_changes = ect;
              srv_list = list;
            },
            (clean_legacy_service dp active (index_services services []) w'').1,
          ))

  -- OnServiceUpdate: the proxier, and whether it asks the runner for a sync.
  unfoldable pub on_service_update :
      Option KubeService → Option KubeService → Proxier set.Carrier → Proxier set.Carrier × Bool
  on_service_update old new p =
      let (sct, changed) = Service.update x p.service_changes old new in
      (record p { service_changes = sct }, changed && is_initialized p)

  abbrev pub on_service_add : KubeService → Proxier set.Carrier → Proxier set.Carrier × Bool
  on_service_add service = on_service_update none (some service)

  abbrev pub on_service_delete : KubeService → Proxier set.Carrier → Proxier set.Carrier × Bool
  on_service_delete service = on_service_update (some service) none

  -- OnEndpointsUpdate
  unfoldable pub on_endpoints_update :
      Option KubeEndpoints → Option KubeEndpoints → Proxier set.Carrier → Proxier set.Carrier × Bool
  on_endpoints_update old new p =
      let (ect, changed) = Endpoints.update x p.endpoints_changes old new in
      (record p { endpoints_changes = ect }, changed && is_initialized p)

  abbrev pub on_endpoints_add : KubeEndpoints → Proxier set.Carrier → Proxier set.Carrier × Bool
  on_endpoints_add endpoints = on_endpoints_update none (some endpoints)

  abbrev pub on_endpoints_delete : KubeEndpoints → Proxier set.Carrier → Proxier set.Carrier × Bool
  on_endpoints_delete endpoints = on_endpoints_update (some endpoints) none

  -- OnEndpointSliceAdd, OnEndpointSliceUpdate (remove is false) and OnEndpointSliceDelete (true).
  unfoldable pub on_endpoint_slice :
      Option EndpointSlice → Bool → Proxier set.Carrier → Option (Proxier set.Carrier × Bool)
  on_endpoint_slice slice remove p =
      elim (Endpoints.endpoint_slice_update x p.endpoints_changes slice remove) [
        | none ↦ none
        | some (ect, changed) ↦
            some (record p { endpoints_changes = ect }, changed && is_initialized p)
      ]

  -- OnServiceSynced, OnEndpointsSynced and OnEndpointSlicesSynced: the flags, and the first sync.
  unfoldable pub on_service_synced : Proxier set.Carrier → dp.World → Proxier set.Carrier × dp.World
  unfolding sync_proxy_rules
  on_service_synced p =
      sync_proxy_rules (set_initialized p.endpoints_synced (record p { services_synced = true }))

  unfoldable pub on_endpoints_synced :
      Proxier set.Carrier → dp.World → Proxier set.Carrier × dp.World
  unfolding sync_proxy_rules
  on_endpoints_synced p =
      sync_proxy_rules (set_initialized p.services_synced (record p { endpoints_synced = true }))

  unfoldable pub on_endpoint_slices_synced :
      Proxier set.Carrier → dp.World → Proxier set.Carrier × dp.World
  unfolding sync_proxy_rules
  on_endpoint_slices_synced p =
      sync_proxy_rules
        (set_initialized p.services_synced (record p { endpoint_slices_synced = true }))
