-- ===== src/Config.antt =====
-- config/config.go: the handlers that the informers call, for endpoints, endpoint slices and services.
pub mod Delivery
use kube_haproxy.Prelude.{Bool, true, false, Option, none, some, List, [], ◌∷◌, ◌++◌}
use kube_haproxy.Kube.{KubeService, KubeEndpoints, EndpointSlice}

-- interface{}, by its dynamic type: a pointer to one of the three kinds, or something else.
pub data Object : Type 0 where
  endpoints : KubeEndpoints → Object
  endpoint_slice : EndpointSlice → Object
  service : KubeService → Object
  unknown : Object

-- What an informer delivers on a deletion: an object, or a cache.DeletedFinalStateUnknown around one.
pub data Delivered : Type 0 where
  object : Object → Delivered
  tombstone : Object → Delivered

abbrev pub delivered_object : Delivered → Object
delivered_object (object obj) = obj
delivered_object (tombstone obj) = obj

-- ServiceHandler, EndpointsHandler and EndpointSliceHandler, as actions on the state behind them.
pub record EventHandler (T : Type 0) (S : Type 0) : Type 0 where
  pub on_add : T → S → S
  pub on_update : T → T → S → S
  pub on_delete : T → S → S
  pub on_synced : S → S

-- ServiceConfig, EndpointsConfig and EndpointSliceConfig: their handlers. `cast` is the type
-- assertion; where it fails, an error is reported and nothing is called.
module _ {T : Type 0} {S : Type 0} where
  -- The loops over eventHandlers.
  unfoldable pub call_each : (EventHandler T S → S → S) → List (EventHandler T S) → S → S
  call_each call [] s = s
  call_each call (h ∷ handlers) s = call_each call handlers (call h s)

  -- RegisterEventHandler
  unfoldable pub register : EventHandler T S → List (EventHandler T S) → List (EventHandler T S)
  register h handlers = handlers ++ h ∷ []

  -- Run: `synced` is the result of WaitForNamedCacheSync.
  unfoldable pub run : Bool → List (EventHandler T S) → S → S
  unfolding call_each
  run false handlers s = s
  run true handlers s = call_each (λ h. h.on_synced) handlers s

  unfoldable pub handle_add : (Object → Option T) → List (EventHandler T S) → Object → S → S
  unfolding call_each
  handle_add cast handlers obj s = elim (cast obj) [
    | none ↦ s
    | some t ↦ call_each (λ h. h.on_add t) handlers s
  ]

  unfoldable pub handle_update :
      (Object → Option T) → List (EventHandler T S) → Object → Object → S → S
  unfolding call_each
  handle_update cast handlers old_obj new_obj s = elim (cast old_obj) [
    | none ↦ s
    | some old ↦ elim (cast new_obj) [
      | none ↦ s
      | some new ↦ call_each (λ h. h.on_update old new) handlers s
    ]
  ]

  unfoldable pub handle_delete : (Object → Option T) → List (EventHandler T S) → Delivered → S → S
  unfolding call_each
  handle_delete cast handlers obj s = elim (cast (delivered_object obj)) [
    | none ↦ s
    | some t ↦ call_each (λ h. h.on_delete t) handlers s
  ]

abbrev pub as_endpoints : Object → Option KubeEndpoints
as_endpoints (endpoints e) = some e
as_endpoints _ = none

abbrev pub as_endpoint_slice : Object → Option EndpointSlice
as_endpoint_slice (endpoint_slice e) = some e
as_endpoint_slice _ = none

abbrev pub as_service : Object → Option KubeService
as_service (service s) = some s
as_service _ = none

module _ {S : Type 0} where
  abbrev pub handle_add_endpoints : List (EventHandler KubeEndpoints S) → Object → S → S
  handle_add_endpoints = handle_add as_endpoints

  abbrev pub handle_update_endpoints : List (EventHandler KubeEndpoints S) → Object → Object → S → S
  handle_update_endpoints = handle_update as_endpoints

  abbrev pub handle_delete_endpoints : List (EventHandler KubeEndpoints S) → Delivered → S → S
  handle_delete_endpoints = handle_delete as_endpoints

  abbrev pub handle_add_endpoint_slice : List (EventHandler EndpointSlice S) → Object → S → S
  handle_add_endpoint_slice = handle_add as_endpoint_slice

  abbrev pub handle_update_endpoint_slice :
      List (EventHandler EndpointSlice S) → Object → Object → S → S
  handle_update_endpoint_slice = handle_update as_endpoint_slice

  abbrev pub handle_delete_endpoint_slice : List (EventHandler EndpointSlice S) → Delivered → S → S
  handle_delete_endpoint_slice = handle_delete as_endpoint_slice

  abbrev pub handle_add_service : List (EventHandler KubeService S) → Object → S → S
  handle_add_service = handle_add as_service

  abbrev pub handle_update_service : List (EventHandler KubeService S) → Object → Object → S → S
  handle_update_service = handle_update as_service

  abbrev pub handle_delete_service : List (EventHandler KubeService S) → Delivered → S → S
  handle_delete_service = handle_delete as_service

  abbrev pub register_endpoints :
      EventHandler KubeEndpoints S
      → List (EventHandler KubeEndpoints S)
      → List (EventHandler KubeEndpoints S)
  register_endpoints = register

  abbrev pub register_endpoint_slice :
      EventHandler EndpointSlice S
      → List (EventHandler EndpointSlice S)
      → List (EventHandler EndpointSlice S)
  register_endpoint_slice = register

  abbrev pub register_service :
      EventHandler KubeService S
      → List (EventHandler KubeService S)
      → List (EventHandler KubeService S)
  register_service = register

  abbrev pub run_endpoints : Bool → List (EventHandler KubeEndpoints S) → S → S
  run_endpoints = run

  abbrev pub run_endpoint_slices : Bool → List (EventHandler EndpointSlice S) → S → S
  run_endpoint_slices = run

  abbrev pub run_services : Bool → List (EventHandler KubeService S) → S → S
  run_services = run

  -- NoopEndpointSliceHandler
  abbrev pub noop_endpoint_slice_handler : EventHandler EndpointSlice S
  noop_endpoint_slice_handler = record {
    on_add = λ t s. s;
    on_update = λ old t s. s;
    on_delete = λ t s. s;
    on_synced = λ s. s;
  }

  -- NoopNodeHandler, for any type of nodes.
  abbrev pub noop_node_handler : {Node : Type 0} → EventHandler Node S
  noop_node_handler = record {
    on_add = λ t s. s;
    on_update = λ old t s. s;
    on_delete = λ t s. s;
    on_synced = λ s. s;
  }
