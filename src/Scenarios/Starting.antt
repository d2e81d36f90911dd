-- ===== src/Scenarios/Starting.antt =====
-- The command on a host that answers, its start, and the first events of the informers.
use kube_haproxy.Prelude.{
  ℕ, String, Bool, true, false, Option, none, some, List, [], ◌∷◌, ◌≡◌, refl, ◌↔◌, inl, inr,
  deciding, ap, sym, ◌∙◌,
}
use kube_haproxy.External.{Ip}
use kube_haproxy.App.Server.{
  Host, Options, default_options, ProxyServer, ok, new_proxy_server, create_clients, waits, run,
  Sent, returns,
}
use kube_haproxy.App.Server.Building.{IsStarted, new_proxy_server-IsStarted}
use kube_haproxy.App.Server.Waiting.{AllNil, FirstError, run-returns_first}
use kube_haproxy.App.Settings.{pos, algorithm}
use kube_haproxy.App.Wiring.{
  runner_sync, server_configs, deliver, of_services, of_endpoints, added, cache_synced,
}
use kube_haproxy.App.Wiring.Informed.{
  S, told, started, add_service, add_endpoints, caches_synced, foreign,
}
use kube_haproxy.App.Wiring.Converging.{IsReady, ShowsCluster, runner_sync-ShowsCluster}
use kube_haproxy.Config.{service, endpoints, unknown, handle_add, run as run_config}
use kube_haproxy.Haproxy.Host.{ip_net, get_local_addr}
use kube_haproxy.Haproxy.Host.LocalAddr.{FirstIpv4, get_local_addr-FirstIpv4}
use kube_haproxy.Haproxy.Types.{server_eq}
use kube_haproxy.Haproxy.Graceful.{SrvItem, srv_item_eq}
use kube_haproxy.Haproxy.Proxier.{
  new_proxier, is_initialized, on_service_update, on_endpoints_update, on_service_synced,
  on_endpoints_synced, sync_proxy_rules,
}
use kube_haproxy.Scenarios.Maps.{dns, dns_endpoints, services, all_endpoints, config}
use kube_haproxy.Scenarios.Parts.{net, list_set, answering}

abbrev here : Host
here = record {
  Float = ℕ;
  zero = 0;
  Rest = String;
  Client = String;
  get_hostname = inr "node";
  in_cluster_config = inr (record {
    accept_content_types = "";
    content_type = "";
    qps = 0;
    burst = pos 0;
    others = "cluster";
  });
  config_from_file = λ file. inl "no such file";
  new_for_config = λ settings. inr "client";
  endpoint_slice_proxying = false;
  local_addr = λ dev. some (inr (192 ∷ 168 ∷ 0 ∷ 7 ∷ []));
  processes = none;
  url_host = λ url. none;
}

abbrev flags : Options here
flags = record (default_options here) { algorithm = pos 2 }

abbrev no_items : List SrvItem
no_items = []

abbrev with_algorithm : Options here
with_algorithm = record flags {
  haproxy_info = record (flags.haproxy_info) { server_algorithm = "leastconn" };
}

abbrev server : ProxyServer here (List SrvItem)
server = record {
  proxy_mode = "of";
  proxier = some (record {
    settings = record {
      mode = "of";
      server_algorithm = "leastconn";
      is_health_check = false;
      proxy_ip = "10.0.0.1";
    };
    sync_period = 180;
    min_sync_period = 60;
    state = new_proxier net [] "node" false;
  });
  client = some "client";
  event_client = some "client";
  node_name = "node";
  bind_address_hard_fail = false;
  use_endpoint_slices = false;
  config_sync_period = 600;
}

made : new_proxy_server here net [] flags ≡ ok (server, with_algorithm)
unfolding deciding new_proxy_server create_clients algorithm
made = refl

new_proxy_server-IsStarted_example : IsStarted here net [] flags server
new_proxy_server-IsStarted_example = new_proxy_server-IsStarted here net [] flags refl made

-- An error that is handed on after a nil one.
abbrev reported : Sent here
reported = record {
  to_server = some "bind" ∷ [];
  handled_before = none ∷ [];
  handled_after = some "late" ∷ [];
}

run-returns_first_example :
    ((error : String)
      → (run here net no_items (λ handle. answering 200) reported flags [] ≡ returns (some error))
        ↔ FirstError error (none ∷ some "late" ∷ []))
    × ((run here net no_items (λ handle. answering 200) reported flags [] ≡ waits)
        ↔ AllNil (none ∷ some "late" ∷ []))
run-returns_first_example =
    run-returns_first here net [] (λ handle. answering 200) reported flags []
      (server, with_algorithm) refl made

abbrev to4 : Ip → Option Ip
to4 ip = elim ip [ [] ↦ none | b ∷ rest ↦ elim rest [ [] ↦ none | c ∷ more ↦ some (b ∷ c ∷ []) ] ]

get_local_addr-FirstIpv4_example :
    (get_local_addr to4 "eth0" (inr (ip_net [] ∷ ip_net (10 ∷ 7 ∷ []) ∷ []))
      ≡ some (inr (10 ∷ 7 ∷ [])))
    ↔ FirstIpv4 to4 (10 ∷ 7 ∷ []) (ip_net [] ∷ ip_net (10 ∷ 7 ∷ []) ∷ [])
get_local_addr-FirstIpv4_example =
    get_local_addr-FirstIpv4 to4 "eth0" (ip_net [] ∷ ip_net (10 ∷ 7 ∷ []) ∷ []) (10 ∷ 7 ∷ [])

-- The second address is the first that has an IPv4 form.
local_addr_found :
    get_local_addr to4 "eth0" (inr (ip_net [] ∷ ip_net (10 ∷ 7 ∷ []) ∷ []))
    ≡ some (inr (10 ∷ 7 ∷ []))
unfolding get_local_addr
local_addr_found = refl

abbrev St : Type 0
St = S net config list_set list_set (answering 200) [] "node"

abbrev begun : St
begun = some (new_proxier net [] "node" false, [])

abbrev after_events : St
after_events =
    told net config list_set list_set (answering 200) [] "node" of_endpoints (cache_synced true) (
      told net config list_set list_set (answering 200) [] "node" of_services (cache_synced true) (
        told net config list_set list_set (answering 200) [] "node" of_endpoints
          (added (endpoints dns_endpoints))
          (told net config list_set list_set (answering 200) [] "node" of_services (added unknown) (
            told net config list_set list_set (answering 200) [] "node" of_services
              (added (service dns)) begun))))

abbrev ready_flag : St → Bool
ready_flag s = elim s [ none ↦ false | some (p, w) ↦ is_initialized p ]

initialized : ready_flag after_events ≡ true
unfolding server_configs deliver handle_add on_service_update on_endpoints_update on_service_synced
    on_endpoints_synced sync_proxy_rules new_proxier run_config
initialized = refl

after_events-IsReady : IsReady net config list_set list_set (answering 200) [] "node" after_events
after_events-IsReady p w e = sym (ap ready_flag e) ∙ initialized

runner_sync-ShowsCluster_example :
    ShowsCluster net config list_set list_set
      (answering 200)
      []
      "node"
      services
      all_endpoints
      (runner_sync net config list_set list_set (answering 200) after_events)
runner_sync-ShowsCluster_example =
    runner_sync-ShowsCluster net config list_set list_set (answering 200) [] "node"
      (caches_synced
        (caches_synced
          (add_endpoints
            (foreign (add_service (started []) dns refl) of_services (added unknown) refl)
            dns_endpoints refl)
          of_services)
        of_endpoints)
      after_events-IsReady
