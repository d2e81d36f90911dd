-- ===== src/App/Server.antt =====
-- server/app/server.go and newProxyServer of server/app/server_others.go: the options, the construction
-- of the server, its start, and the loop that waits for its end.
pub mod Modes
pub mod Building
pub mod Waiting
use kube_haproxy.Prelude.{
  ℕ, String, Bool, true, false, Option, none, some, List, [], ◌∷◌, ◌++◌, ◌==◌, if◌then◌else◌,
  string_eq, ◌⊎◌, inl, inr, is_empty,
}
use kube_haproxy.External.{External, Ip}
use kube_haproxy.App.Cleanup.{cleanup_and_exit}
use kube_haproxy.App.Settings.{
  ℤ, pos, algorithm, get_proxy_mode, proxy_mode_of, proxy_mode_local, proxy_mode_mesh_all,
}
use kube_haproxy.Haproxy.Dataplane.{Dataplane}
use kube_haproxy.Haproxy.Host.{InitInfo, HaproxyHandle, new_haproxy_handle, new_config}
use kube_haproxy.Haproxy.Proxier.{Proxier, Config, new_proxier}

-- componentbaseconfig.ClientConnectionConfiguration. QPS is a float32, which is passed on as it is.
pub record ClientConnection (Float : Type 0) : Type 0 where
  pub kubeconfig : String
  pub accept_content_types : String
  pub content_type : String
  pub qps : Float
  pub burst : ℤ

-- rest.Config: the fields that createClients sets, and the rest.
pub record RestConfig (Float Rest : Type 0) : Type 0 where
  pub accept_content_types : String
  pub content_type : String
  pub qps : Float
  pub burst : ℤ
  pub others : Rest

-- What the command asks of its host and of client-go: float32 with its zero, the host name, the
-- configuration of a client in a cluster or from a file, a client for a configuration, the feature gate
-- EndpointSliceProxying, and what NewProxier finds on the host.
pub record Host : Type 1 where
  pub Float : Type 0
  pub zero : Float
  pub Rest : Type 0
  pub Client : Type 0
  pub get_hostname : String ⊎ String
  pub in_cluster_config : String ⊎ RestConfig Float Rest
  pub config_from_file : String → String ⊎ RestConfig Float Rest
  pub new_for_config : RestConfig Float Rest → String ⊎ Client
  pub endpoint_slice_proxying : Bool
  pub local_addr : String → Option (String ⊎ Ip)
  pub processes : Option (List (Option String))
  pub url_host : String → Option String

-- What a call that may fail or panic gives.
pub data Result (A : Type 0) : Type 0 where
  ok : A → Result A
  failed : String → Result A
  panics : Result A

module _ (host : Host) where
  -- Options: the flags, which are durations in seconds.
  pub record Options : Type 0 where
    pub config : ClientConnection host.Float
    pub cleanup_and_exit : Bool
    pub sync_period : ℕ
    pub min_sync_period : ℕ
    pub config_sync_period : ℕ
    pub haproxy_info : InitInfo
    pub algorithm : ℤ

  -- NewOptions, with the defaults of AddFlags.
  abbrev pub default_options : Options
  default_options = record {
    config = record {
      kubeconfig = "";
      accept_content_types = "";
      content_type = "";
      qps = host.zero;
      burst = pos 0;
    };
    cleanup_and_exit = false;
    sync_period = 180;
    min_sync_period = 60;
    config_sync_period = 600;
    haproxy_info = record {
      host = "http://127.0.0.1:5555";
      user = "";
      passwd = "";
      dev = "eth0";
      mode = "of";
      is_check_server = false;
      server_algorithm = "";
    };
    algorithm = pos 0;
  }

  -- The Args function of NewProxyCommand: whether it takes the arguments.
  unfoldable pub takes_args : List String → Bool
  takes_args [] = true
  takes_args (arg ∷ args) = let rest = takes_args args in if arg == "" then rest else false

  -- createClients: the client, and the one for events.
  unfoldable pub create_clients : ClientConnection host.Float → String ⊎ (host.Client × host.Client)
  create_clients config =
      elim (if config.kubeconfig == ""
        then host.in_cluster_config
        else host.config_from_file config.kubeconfig) [
          | inl error ↦ inl error
          | inr kube_config ↦
              let settings = record kube_config {
                accept_content_types = config.accept_content_types;
                content_type = config.content_type;
                qps = config.qps;
                burst = config.burst;
              } in
              elim (host.new_for_config settings) [
                | inl error ↦ inl error
                | inr client ↦ elim (host.new_for_config settings) [
                  | inl error ↦ inl error
                  | inr event_client ↦ inr (client, event_client)
                ]
              ]
        ]

  -- What NewProxier keeps: the settings and the first state. The list of servers to delete is empty.
  pub record Provider (L : Type 0) : Type 0 where
    pub settings : Config
    pub sync_period : ℕ
    pub min_sync_period : ℕ
    pub state : Proxier L

  -- ProxyServer. In cleanup mode all its fields are zero.
  pub record ProxyServer (L : Type 0) : Type 0 where
    pub proxy_mode : String
    pub proxier : Option (Provider L)
    pub client : Option host.Client
    pub event_client : Option host.Client
    pub node_name : String
    pub bind_address_hard_fail : Bool
    pub use_endpoint_slices : Bool
    pub config_sync_period : ℕ

  module _ {L : Type 0} (x : External) (empty_list : L) where
    abbrev pub empty_server : ProxyServer L
    empty_server = record {
      proxy_mode = "";
      proxier = none;
      client = none;
      event_client = none;
      node_name = "";
      bind_address_hard_fail = false;
      use_endpoint_slices = false;
      config_sync_period = 0;
    }

    -- NewProxier, as newProxyServer calls it.
    unfoldable pub provider_for : Options → String → InitInfo → String → Option (Provider L)
    unfolding new_config new_proxier
    provider_for opt hostname info mode =
        elim (new_config x info mode (host.local_addr info.dev) host.processes
          (host.url_host info.host)) [
            | none ↦ none
            | some settings ↦ some (record {
              settings = settings;
              sync_period = opt.sync_period;
              min_sync_period = opt.min_sync_period;
              state = new_proxier x empty_list hostname host.endpoint_slice_proxying;
            })
          ]

    -- The switch on the mode: a nil proxier for another mode.
    unfoldable pub switch_mode : Options → String → InitInfo → String → Option (Option (Provider L))
    unfolding provider_for
    switch_mode opt hostname info mode =
        let made : Option (Option (Provider L)) = elim (provider_for opt hostname info mode) [
          | none ↦ none
          | some p ↦ some (some p)
        ] in
        if mode == proxy_mode_of
        then made
        else if mode == proxy_mode_local
        then made
        else if mode == proxy_mode_mesh_all
        then made
        else some none

    -- newProxyServer: the server, and the options with the name of the algorithm.
    unfoldable pub new_proxy_server : Options → Result (ProxyServer L × Options)
    unfolding create_clients get_proxy_mode algorithm switch_mode
    new_proxy_server opt =
        if opt.cleanup_and_exit then ok (empty_server, opt) else (elim host.get_hostname [
          | inl error ↦ failed error
          | inr hostname ↦ elim (create_clients opt.config) [
            | inl error ↦ failed error
            | inr (client, event_client) ↦ elim (algorithm opt.algorithm) [
              | none ↦ panics
              | some name ↦
                  let info = record opt.haproxy_info { server_algorithm = name } in
                  let mode = get_proxy_mode opt.haproxy_info.mode in
                  elim (switch_mode opt hostname info mode) [
                    | none ↦ panics
                    | some proxier ↦ ok (
                      record {
                        proxy_mode = mode;
                        proxier = proxier;
                        client = some client;
                        event_client = some event_client;
                        node_name = hostname;
                        bind_address_hard_fail = false;
                        use_endpoint_slices = host.endpoint_slice_proxying;
                        config_sync_period = opt.config_sync_period;
                      },
                      record opt { haproxy_info = info },
                    )
                  ]
            ]
          ]
        ])

    -- A receive from a channel, nil or with the values that are sent to it: none where it waits forever.
    abbrev pub receive : Option (List (Option String)) → Option (Option String)
    receive none = none
    receive (some []) = none
    receive (some (e ∷ _)) = some e

    -- ProxyServer.Run, its end: it receives from errCh, which is nil unless BindAddressHardFail is set.
    -- `sent` is what anything sends to that channel.
    unfoldable pub server_run : List (Option String) → ProxyServer L → Option (Option String)
    server_run sent s = receive (if s.bind_address_hard_fail then some sent else none)

  -- The loop of runLoop over what it receives: it ends with the first error.
  unfoldable pub receive_error : List (Option String) → Option String
  receive_error [] = none
  receive_error (none ∷ received) = receive_error received
  receive_error (some e ∷ received) = some e

  -- What the goroutine of runLoop sends.
  abbrev pub sent_by : Option (Option String) → List (Option String)
  sent_by none = []
  sent_by (some e) = e ∷ []

  -- How Options.Run ends: with an error or nil, never, or by a panic.
  pub data Ending : Type 0 where
    returns : Option String → Ending
    waits : Ending
    aborts : Ending

  -- What other goroutines send: to the channel of ProxyServer.Run, and by errorHandler to that of the
  -- options, before and after the result of ProxyServer.Run. None stands for a nil error.
  pub record Sent : Type 0 where
    pub to_server : List (Option String)
    pub handled_before : List (Option String)
    pub handled_after : List (Option String)

  -- runLoop
  unfoldable pub run_loop : {L : Type 0} → External → L → Sent → ProxyServer L → Ending
  unfolding server_run receive_error
  run_loop x empty_list sent s =
      let run_end = sent_by (server_run x empty_list sent.to_server s) in
      elim (receive_error (sent.handled_before ++ (run_end ++ sent.handled_after))) [
        | none ↦ waits
        | some error ↦ returns (some error)
      ]

  -- Options.Run. `dp` is the data plane behind the client of a handle.
  unfoldable pub run :
      {L : Type 0}
      → External
      → L
      → (dp : HaproxyHandle → Dataplane) → Sent
      → (opt : Options) → (dp (new_haproxy_handle opt.haproxy_info)).World
      → Ending
  unfolding new_proxy_server cleanup_and_exit run_loop
  run x empty_list dp sent opt w = elim (new_proxy_server x empty_list opt) [
    | failed error ↦ returns (some error)
    | panics ↦ aborts
    | ok (server, opt') ↦
        if opt.cleanup_and_exit
        then returns (cleanup_and_exit (dp (new_haproxy_handle opt.haproxy_info)) w).0
        else run_loop x empty_list sent server
  ]
