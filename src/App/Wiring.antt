-- ===== src/App/Wiring.antt =====
-- server/app/server.go, ProxyServer.Run: which informer configurations it makes, with the proxier as
-- their handler, and what an informer's event does to the proxier then.
pub mod Informed
pub mod Converging
use kube_haproxy.Prelude.{
  Bool, true, false, Option, none, some, List, [], ◌∷◌, if◌then◌else◌, String,
}
use kube_haproxy.Kube.{KubeService, KubeEndpoints, EndpointSlice}
use kube_haproxy.External.{External, GoSet}
use kube_haproxy.Config.{
  Object, Delivered, EventHandler, register, register_service, register_endpoints,
  register_endpoint_slice, run_services, run_endpoints, run_endpoint_slices, handle_add_service,
  handle_update_service, handle_delete_service, handle_add_endpoints, handle_update_endpoints,
  handle_delete_endpoints, handle_add_endpoint_slice, handle_update_endpoint_slice,
  handle_delete_endpoint_slice,
}
use kube_haproxy.Haproxy.Types.{Server, server_eq}
use kube_haproxy.Haproxy.Dataplane.{Dataplane}
use kube_haproxy.Haproxy.Graceful.{SrvItem, srv_item_eq}
use kube_haproxy.Haproxy.Proxier.{
  Proxier, Config, sync_proxy_rules, on_service_update, on_service_add, on_service_delete,
  on_service_synced, on_endpoints_update, on_endpoints_add, on_endpoints_delete,
  on_endpoints_synced, on_endpoint_slice, on_endpoint_slices_synced,
}

-- The handlers of the configurations that Run makes; none for a configuration that it does not make.
pub record Configs (S : Type 0) : Type 0 where
  pub services : List (EventHandler KubeService S)
  pub endpoints : Option (List (EventHandler KubeEndpoints S))
  pub slices : Option (List (EventHandler EndpointSlice S))

-- The part of ProxyServer.Run that makes and registers them.
unfoldable pub make_configs :
    {S : Type 0}
    → Bool
    → EventHandler KubeService S
    → EventHandler KubeEndpoints S
    → EventHandler EndpointSlice S
    → Configs S
unfolding register
make_configs use_endpoint_slices of_services of_endpoints of_slices = record {
  services = register_service of_services [];
  endpoints = if use_endpoint_slices then none else some (register_endpoints of_endpoints []);
  slices = if use_endpoint_slices then some (register_endpoint_slice of_slices []) else none;
}

-- What an informer calls: one of its three functions, or the end of the initial sync, with the result
-- of WaitForNamedCacheSync.
pub data Event : Type 0 where
  added : Object → Event
  updated : Object → Object → Event
  deleted : Delivered → Event
  cache_synced : Bool → Event

pub data Kind : Type 0 where
  of_services of_endpoints of_slices : Kind

module _ {S : Type 0} where
  -- The three functions that NewServiceConfig, NewEndpointsConfig and NewEndpointSliceConfig give to
  -- their informers, and Run.
  unfoldable pub deliver_service : List (EventHandler KubeService S) → Event → S → S
  deliver_service handlers (added obj) s = handle_add_service handlers obj s
  deliver_service handlers (updated old new) s = handle_update_service handlers old new s
  deliver_service handlers (deleted obj) s = handle_delete_service handlers obj s
  deliver_service handlers (cache_synced ok) s = run_services ok handlers s

  unfoldable pub deliver_endpoints : List (EventHandler KubeEndpoints S) → Event → S → S
  deliver_endpoints handlers (added obj) s = handle_add_endpoints handlers obj s
  deliver_endpoints handlers (updated old new) s = handle_update_endpoints handlers old new s
  deliver_endpoints handlers (deleted obj) s = handle_delete_endpoints handlers obj s
  deliver_endpoints handlers (cache_synced ok) s = run_endpoints ok handlers s

  unfoldable pub deliver_slice : List (EventHandler EndpointSlice S) → Event → S → S
  deliver_slice handlers (added obj) s = handle_add_endpoint_slice handlers obj s
  deliver_slice handlers (updated old new) s = handle_update_endpoint_slice handlers old new s
  deliver_slice handlers (deleted obj) s = handle_delete_endpoint_slice handlers obj s
  deliver_slice handlers (cache_synced ok) s = run_endpoint_slices ok handlers s

  -- An event of one of the informers; a kind that is not watched has no informer.
  unfoldable pub deliver : Configs S → Kind → Event → S → S
  unfolding deliver_service deliver_endpoints deliver_slice
  deliver configs of_services event s = deliver_service configs.services event s
  deliver configs of_endpoints event s = elim configs.endpoints [
    | none ↦ s
    | some handlers ↦ deliver_endpoints handlers event s
  ]
  deliver configs of_slices event s = elim configs.slices [
    | none ↦ s
    | some handlers ↦ deliver_slice handlers event s
  ]

-- The proxier as the handler of the three kinds.
module _ (x : External) (config : Config) (servers : GoSet Server) (set : GoSet SrvItem)
    (dp : Dataplane) where
  -- The proxier and the world; none after a panic.
  abbrev pub State : Type 0
  State = Option (Proxier set.Carrier × dp.World)

  -- A handler of the proxier. The sync that it may ask for is a step of the runner.
  abbrev pub handling : (Proxier set.Carrier → Proxier set.Carrier × Bool) → State → State
  handling handler s = elim s [ none ↦ none | some (p, w) ↦ some ((handler p).0, w) ]

  abbrev pub syncing :
      (Proxier set.Carrier → dp.World → Proxier set.Carrier × dp.World) → State → State
  syncing sync s = elim s [ none ↦ none | some (p, w) ↦ some (sync p w) ]

  abbrev pub handling_slice :
      (Proxier set.Carrier → Option (Proxier set.Carrier × Bool)) → State → State
  handling_slice handler s = elim s [
    | none ↦ none
    | some (p, w) ↦ elim (handler p) [ none ↦ none | some (p', asks) ↦ some (p', w) ]
  ]

  abbrev pub service_handler : EventHandler KubeService State
  service_handler = record {
    on_add = λ t. handling (on_service_add x config servers set dp t);
    on_update = λ old t. handling (on_service_update x config servers set dp (some old) (some t));
    on_delete = λ t. handling (on_service_delete x config servers set dp t);
    on_synced = syncing (on_service_synced x config servers set dp);
  }

  abbrev pub endpoints_handler : EventHandler KubeEndpoints State
  endpoints_handler = record {
    on_add = λ t. handling (on_endpoints_add x config servers set dp t);
    on_update = λ old t. handling (on_endpoints_update x config servers set dp (some old) (some t));
    on_delete = λ t. handling (on_endpoints_delete x config servers set dp t);
    on_synced = syncing (on_endpoints_synced x config servers set dp);
  }

  abbrev pub slice_handler : EventHandler EndpointSlice State
  slice_handler = record {
    on_add = λ t. handling_slice (on_endpoint_slice x config servers set dp (some t) false);
    on_update = λ old t. handling_slice (on_endpoint_slice x config servers set dp (some t) false);
    on_delete = λ t. handling_slice (on_endpoint_slice x config servers set dp (some t) true);
    on_synced = syncing (on_endpoint_slices_synced x config servers set dp);
  }

  -- The configurations of a server, with the proxier registered with each.
  unfoldable pub server_configs : Bool → Configs State
  unfolding make_configs
  server_configs use_endpoint_slices =
      make_configs use_endpoint_slices service_handler endpoints_handler slice_handler

  -- The runner's call of syncProxyRules, which SyncLoop makes again and again.
  unfoldable pub runner_sync : State → State
  unfolding sync_proxy_rules
  runner_sync = syncing (sync_proxy_rules x config servers set dp)
