-- ===== src/Haproxy/Sync.antt =====
-- haproxy/proxier.go: syncService, syncEndpoint and cleanLegacyService, which bring the configuration of
-- haproxy in line with one service, with its endpoints, and with the set of services.
pub mod Entries
pub mod Settled
pub mod Servers
pub mod Store
pub mod Made
pub mod Created
pub mod Replaced
pub mod Elsewhere
pub mod Framed
pub mod Neighbours
use kube_haproxy.Prelude.{
  ℕ, String, Bool, true, false, not, Option, none, some, List, [], ◌∷◌, ◌==◌, DecEq, if◌then◌else◌,
  is_some, is_empty, get, put, GoMap, ◌&&◌, ◌||◌, string_eq, ◌+++◌, to_lower, replace_all, contains,
}
use kube_haproxy.External.{External, GoSet}
use kube_haproxy.Api.{ServicePortName, service_port_name_string}
use kube_haproxy.Controller.Endpoint.{Endpoint, endpoint_string}
use kube_haproxy.Controller.Service.{BaseServiceInfo}
use kube_haproxy.Haproxy.Action.{Action, ◌>>=◌, ◌>>◌, pure, for_each}
use kube_haproxy.Haproxy.Types.{
  Backend, Frontend, Bind, Server, Service, HaproxyInfo, empty_backend, empty_frontend, empty_bind,
  empty_server, backend_eq, frontend_eq, bind_eq, server_eq, backend_prefix, frontend_prefix,
  bind_prefix, server_prefix, check_timeout, forword_enable, only_fetch,
}
use kube_haproxy.Haproxy.Dataplane.{Dataplane}
use kube_haproxy.Haproxy.Handle.{Outcome}
use kube_haproxy.Haproxy.Operations.{
  get_backend, add_backend, replace_backend, get_frontend, add_frontend, replace_frontend, get_bind,
  add_bind, replace_bind, get_servers, add_server_to_backend, delete_frontend, delete_backend,
}
use kube_haproxy.Haproxy.Graceful.{
  SrvItem, srv_item_eq, Managed, in_termination_list, move_rs_out_of_graceful_delete_list,
  graceful_delete_srv,
}

-- The error that stops syncService after an Add: one that did not come with true.
abbrev pub add_error : Outcome → Option String
add_error (true, e) = none
add_error (false, e) = e

-- The error that stops it after a Replace: any.
abbrev pub replace_error : Outcome → Option String
replace_error (ok, e) = e

module _ (dp : Dataplane) where
  -- What follows a step only if the step had no error.
  abbrev pub then_unless_error :
      Action dp.World (Option String)
      → Action dp.World (Option String)
      → Action dp.World (Option String)
  then_unless_error first second w =
      let (e, w') = first w in elim e [ some text ↦ (some text, w') | none ↦ second w' ]

  -- syncService, its parts on the backend, on the frontend and on the bind: what follows the Get.
  unfoldable pub fit_backend : Backend → Backend → Action dp.World (Option String)
  unfolding add_backend replace_backend
  fit_backend wanted backend =
      if backend.mode == "udp"
      then pure none
      else if backend == empty_backend
      then (do outcome ← add_backend dp wanted; pure (add_error outcome))
      else if not (backend == wanted)
      then (do outcome ← replace_backend dp backend.name wanted; pure (replace_error outcome))
      else pure none

  unfoldable pub fit_frontend : Frontend → Frontend → Action dp.World (Option String)
  unfolding add_frontend replace_frontend
  fit_frontend wanted frontend =
      if frontend.mode == "udp"
      then pure none
      else if frontend == empty_frontend
      then (do outcome ← add_frontend dp wanted; pure (add_error outcome))
      else if not (frontend == wanted)
      then (do outcome ← replace_frontend dp frontend wanted; pure (replace_error outcome))
      else pure none

  unfoldable pub fit_bind : Bind → String → Bind → Action dp.World (Option String)
  unfolding add_bind replace_bind
  fit_bind wanted frontend_name bind =
      if bind == empty_bind
      then (do outcome ← add_bind dp wanted frontend_name; pure (add_error outcome))
      else if not (wanted == bind)
      then (do
        outcome ← replace_bind dp bind.name frontend_name wanted
        pure (replace_error outcome))
      else pure none

  -- The three parts, each with its Get.
  unfoldable pub sync_backend : Backend → Action dp.World (Option String)
  unfolding get_backend fit_backend
  sync_backend wanted = do backend ← get_backend dp wanted.name; fit_backend wanted backend

  unfoldable pub sync_frontend : Frontend → Action dp.World (Option String)
  unfolding get_frontend fit_frontend
  sync_frontend wanted = do frontend ← get_frontend dp wanted.name; fit_frontend wanted frontend

  unfoldable pub sync_bind : Bind → String → Action dp.World (Option String)
  unfolding get_bind fit_bind
  sync_bind wanted frontend_name = do
    bind ← get_bind dp wanted.name frontend_name
    fit_bind wanted frontend_name bind

  -- Proxier.syncService
  unfoldable pub sync_service : HaproxyInfo → Action dp.World (Option String)
  unfolding sync_backend sync_frontend sync_bind
  sync_service info =
      then_unless_error (sync_backend info.backend)
        (then_unless_error (sync_frontend info.frontend) (sync_bind info.bind info.frontend.name))

  -- Proxier.cleanLegacyService: its loop body. What it logs says that a deletion failed when it went.
  unfoldable pub clean_service : Service → Action dp.World (Unit {0})
  unfolding delete_frontend delete_backend
  clean_service svc = do
    _ ← delete_frontend dp svc.frontend.name
    _ ← delete_backend dp svc.backend.name
    pure tt

  unfoldable pub clean_legacy_service :
      GoMap String Bool → GoMap String Service → Action dp.World (Unit {0})
  unfolding clean_service for_each
  clean_legacy_service active current =
      for_each current λ e. if is_some (get e.0 active) then pure tt else clean_service e.1

module _ (x : External) (servers : GoSet Server) where
  -- The server of an endpoint; the flag is isHealthCheck.
  unfoldable pub server_of : Bool → Endpoint → Server
  server_of is_health_check ep = record empty_server {
    address = x.ip_part (endpoint_string ep);
    port = x.port_part (endpoint_string ep);
    name = server_prefix +++ endpoint_string ep;
    check = if is_health_check then "enabled" else "";
  }

  -- The loop that fills a set.
  unfoldable pub set_of : List Server → servers.Carrier → servers.Carrier
  set_of [] s = s
  set_of (a ∷ as') s = set_of as' (servers.add a s)

  abbrev pub servers_of_endpoints : Bool → List Endpoint → List Server
  servers_of_endpoints is_health_check [] = []
  servers_of_endpoints is_health_check (ep ∷ eps) =
      server_of is_health_check ep ∷ servers_of_endpoints is_health_check eps

  module _ (set : GoSet SrvItem) (dp : Dataplane) where
    -- The loop body over the new endpoints. Every branch goes on with the next one.
    unfoldable pub create_endpoint :
        servers.Carrier → String → Server → Action (Managed set dp.World) (Unit {0})
    unfolding in_termination_list move_rs_out_of_graceful_delete_list add_server_to_backend
    create_endpoint cur backend_name item (list, w) =
        if servers.contains item cur
        then if not (in_termination_list set dp item backend_name list)
          then (tt, (list, w))
          else (tt, (move_rs_out_of_graceful_delete_list set dp item backend_name (list, w)).1)
        else (tt, (list, (add_server_to_backend dp item backend_name w).1))

    -- The loop body over the endpoints that are gone.
    unfoldable pub delete_endpoint : String → Server → Action (Managed set dp.World) (Unit {0})
    unfolding in_termination_list graceful_delete_srv
    delete_endpoint backend_name server (list, w) =
        if in_termination_list set dp server backend_name list
        then (tt, (list, w))
        else (tt, (graceful_delete_srv set dp server backend_name (list, w)).1)

    -- The members of the first set that the second does not have.
    abbrev pub difference : List Server → servers.Carrier → List Server
    difference [] new = []
    difference (a ∷ as') new =
        let rest = difference as' new in if servers.contains a new then rest else a ∷ rest

    -- Proxier.syncEndpoint; its error is always nil.
    unfoldable pub sync_endpoint :
        Bool → List Endpoint → String → Action (Managed set dp.World) (Unit {0})
    unfolding get_servers server_of set_of create_endpoint delete_endpoint for_each
    sync_endpoint is_health_check endpoints backend_name (list, w) =
        let (cur_dests, w') = get_servers dp backend_name w in
        let cur = set_of cur_dests servers.empty in
        let new = set_of (servers_of_endpoints is_health_check endpoints) servers.empty in
        let (_, s) = for_each (servers.items new) (create_endpoint cur backend_name) (list, w') in
        for_each (difference (servers.items cur) new) (delete_endpoint backend_name) s
