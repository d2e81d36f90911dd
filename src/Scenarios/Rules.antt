-- ===== src/Scenarios/Rules.antt =====
-- haproxy's rules for one service, its servers, and the list of servers to delete.
use kube_haproxy.Prelude.{
  true, false, none, some, List, [], ◌∷◌, ◌≡◌, ◌≢◌, refl, ◌↔◌, ◌&&◌, deciding, ap,
}
use kube_haproxy.External.{elem_of}
use kube_haproxy.Controller.Endpoint.{Endpoint, endpoints_info}
use kube_haproxy.Haproxy.Action.{Action, for_each}
use kube_haproxy.Haproxy.Types.{
  Server, server_eq, Server_discrete, empty_server, Backend, Frontend, Bind, HaproxyInfo,
  empty_backend, empty_frontend, empty_bind,
}
use kube_haproxy.Haproxy.Dataplane.{Dataplane, Request, Response}
use kube_haproxy.Haproxy.Handle.{Outcome, by_name, handle_error}
use kube_haproxy.Haproxy.Handle.Errors.{
  IsDone, IsMixed, handle_error-IsDone_iff, handle_error-IsMixed_iff,
}
use kube_haproxy.Haproxy.Operations.{get_servers, get_backend, get_frontend, get_bind}
use kube_haproxy.Haproxy.Graceful.{
  SrvItem, srv_item_eq, flush_list, try_delete_srv, graceful_delete_srv, delete_srv_func,
}
use kube_haproxy.Haproxy.Graceful.Queue.{
  DeletesOrFails, flush_list_empties, try_delete_srv_empties, start, deleted, History-empty,
}
use kube_haproxy.Haproxy.Sync.{
  sync_service, sync_endpoint, set_of, servers_of_endpoints, difference,
}
use kube_haproxy.Haproxy.Sync.Settled.{sync_service_settled}
use kube_haproxy.Haproxy.Sync.Servers.{IsClear, add_one, delete_one, sync_endpoint_exact}
use kube_haproxy.Haproxy.Proxier.{
  Proxier, Config, new_proxier, is_initialized, sync_proxy_rules, on_service_synced,
  on_endpoints_synced, on_endpoint_slices_synced,
}
use kube_haproxy.Haproxy.Proxier.Synced.{
  service_synced, endpoints_synced, slices_synced, here, next, Run-initialized,
  services_last_never_syncs,
}
use kube_haproxy.Haproxy.Proxier.Waiting.{Run-keeps_list}
use kube_haproxy.Scenarios.Parts.{net, list_set, answering}

abbrev lab : Dataplane
lab = answering 200

abbrev pod : Endpoint
pod = endpoints_info (record { endpoint = "10.1.0.7:53"; is_local = false; topology = none }) ""

abbrev old_server : Server
old_server = record empty_server { address = "10.1.0.6"; name = "POD.10.1.0.6:53"; port = 53 }

abbrev old_item : SrvItem
old_item = record { backend_name = "BACKEND.dns"; srv = old_server }

-- A data plane where the backend has this one server.
abbrev serving : Dataplane
serving = record lab {
  raw_data = λ body. some body;
  decode_servers = λ entry. old_server ∷ [];
  decode_server = λ entry. some old_server;
}

nothing_waits : IsClear net list_set list_set serving []
unfolding elem_of
nothing_waits item = refl

sync_endpoint_exact_example :
    (let (cur_dests, w1) = get_servers serving "BACKEND.dns" [] in
      let cur = set_of net list_set cur_dests [] in
      let new = set_of net list_set (servers_of_endpoints net list_set true (pod ∷ [])) [] in
      let missing = difference net list_set list_set serving new cur in
      let surplus = difference net list_set list_set serving cur new in
      let (_, w2) = for_each missing (add_one net list_set list_set serving "BACKEND.dns") w1 in
      let (_, w3) = for_each surplus (delete_one net list_set list_set serving "BACKEND.dns") w2 in
      sync_endpoint net list_set list_set serving true (pod ∷ []) "BACKEND.dns" ([], [])
      ≡ (tt, ([], w3)))
sync_endpoint_exact_example =
    sync_endpoint_exact net list_set list_set serving true (pod ∷ []) "BACKEND.dns" [] []
      nothing_waits

abbrev pub dns_info : HaproxyInfo
dns_info = record {
  backend = record empty_backend { name = "BACKEND.dns"; mode = "tcp"; check_timeout = some 1 };
  frontend = record empty_frontend {
    name = "FRONTEND.dns";
    default_backend = "BACKEND.dns";
    mode = "tcp";
  };
  bind = record empty_bind { name = "BIND.dns"; port = some 53; address = "0.0.0.0" };
}

-- A data plane that has just these three.
abbrev settled : Dataplane
settled = record lab {
  raw_data = λ body. some body;
  decode_backend = λ entry. some dns_info.backend;
  decode_frontend = λ entry. some dns_info.frontend;
  decode_bind = λ entry. some dns_info.bind;
}

sync_service_settled_example : sync_service settled dns_info [] ≡ (
  none,
  (get_bind settled "BIND.dns" "FRONTEND.dns"
      (get_frontend settled "FRONTEND.dns" (get_backend settled "BACKEND.dns" []).1).1).1,
)
unfolding get_backend get_frontend get_bind
sync_service_settled_example =
    sync_service_settled settled dns_info [] (get_backend settled "BACKEND.dns" []).1
      (get_frontend settled "FRONTEND.dns" (get_backend settled "BACKEND.dns" []).1).1
      (get_bind settled "BIND.dns" "FRONTEND.dns"
        (get_frontend settled "FRONTEND.dns" (get_backend settled "BACKEND.dns" []).1).1).1
      (λ e. cc (ap (λ (b : Backend). b.check_timeout) e))
      (λ e. cc (ap (λ (f : Frontend). f.mode) e)) (λ e. cc (ap (λ (b : Bind). b.port) e)) refl refl
      refl

abbrev config : Config
config = record {
  mode = "local";
  server_algorithm = "roundrobin";
  is_health_check = false;
  proxy_ip = "0.0.0.0";
}

abbrev P : Type 0
P = Proxier (List SrvItem)

abbrev both_synced : P
both_synced =
    (on_endpoints_synced net config list_set list_set lab
      (on_service_synced net config list_set list_set lab (new_proxier net [] "node" false) []).0
      []).0

Run-initialized_example :
    is_initialized both_synced ≡ (both_synced.services_synced && both_synced.endpoints_synced)
Run-initialized_example = Run-initialized net config list_set list_set lab [] "node" (
    next (next here refl (service_synced (new_proxier net [] "node" false) [])) refl (
      endpoints_synced
        (on_service_synced net config list_set list_set lab (new_proxier net [] "node" false) []).0
        []))

abbrev slices_first : P
slices_first =
    (on_endpoint_slices_synced net config list_set list_set lab (new_proxier net [] "node" true)
      []).0

abbrev services_last : P
services_last = (on_service_synced net config list_set list_set lab slices_first []).0

services_last_never_syncs_example :
    sync_proxy_rules net config list_set list_set lab services_last [] ≡ (services_last, [])
services_last_never_syncs_example =
    services_last_never_syncs net config list_set list_set lab [] "node" []
      (next here refl (slices_synced (new_proxier net [] "node" true) [])) here []

-- A handler that deletes whatever it is given.
abbrev always : SrvItem → Action (List Request) Outcome
always item w = ((true, none), w)

always-DeletesOrFails : DeletesOrFails list_set always
always-DeletesOrFails item w e = refl

always_succeeds : (flush_list list_set always (old_item ∷ [], [])).0 ≡ true
unfolding flush_list
always_succeeds = refl

flush_list_empties_example :
    elem_of old_item (flush_list list_set always (old_item ∷ [], [])).1.0 ≡ false
flush_list_empties_example =
    flush_list_empties list_set always (old_item ∷ [], []) always-DeletesOrFails always_succeeds
      old_item

round_succeeds :
    (flush_list list_set (delete_srv_func list_set serving) (old_item ∷ [], [])).0 ≡ true
unfolding flush_list delete_srv_func deciding Server_discrete
round_succeeds = refl

try_delete_srv_empties_example :
    elem_of old_item (try_delete_srv list_set serving (old_item ∷ [], [])).1.0 ≡ false
try_delete_srv_empties_example =
    try_delete_srv_empties list_set serving (old_item ∷ [], []) round_succeeds old_item

History-empty_example :
    elem_of old_item
      (graceful_delete_srv list_set (answering 500) old_server "BACKEND.dns" ([], [])).1.0
    ≡ false
History-empty_example =
    History-empty list_set (answering 500) (deleted (start []) old_server "BACKEND.dns") old_item

abbrev no_content : Response
no_content = record { err = none; code = 204; body = "" }

handle_error-IsDone_iff_example :
    (handle_error no_content (by_name "a") ≡ (true, none))
    ↔ ((no_content.err ≡ none) × IsDone no_content.code)
handle_error-IsDone_iff_example = handle_error-IsDone_iff no_content (by_name "a")

handle_error-IsMixed_iff_example :
    (((handle_error no_content (by_name "a")).0 ≡ true)
      × ((handle_error no_content (by_name "a")).1 ≢ none))
    ↔ ((no_content.err ≡ none) × IsMixed no_content.code)
handle_error-IsMixed_iff_example = handle_error-IsMixed_iff no_content (by_name "a")

Run-keeps_list_example : both_synced.srv_list ≡ []
Run-keeps_list_example =
    Run-keeps_list net config list_set list_set lab "node" false {allowed = λ e. true} (
      next (next here refl (service_synced (new_proxier net [] "node" false) [])) refl (
        endpoints_synced
          (on_service_synced net config list_set list_set lab (new_proxier net [] "node" false)
            []).0
          []))
