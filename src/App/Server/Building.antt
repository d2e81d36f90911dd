-- ===== src/App/Server/Building.antt =====
-- server/app/server_others.go, newProxyServer: what it builds outside the cleanup mode.
use kube_haproxy.Prelude.{
  String, Bool, false, Option, none, some, ◌≡◌, refl, sym, ap, ◌∙◌, ◌⊎◌, inl, inr, if◌then◌else◌,
  string_eq, subst,
}
use kube_haproxy.External.{External}
use kube_haproxy.App.Settings.{algorithm, get_proxy_mode}
use kube_haproxy.App.Server.{
  Host, Result, ok, failed, panics, Options, Provider, ProxyServer, empty_server, create_clients,
  provider_for, switch_mode, new_proxy_server,
}
use kube_haproxy.Haproxy.Host.{InitInfo}
use kube_haproxy.Haproxy.Proxier.{new_proxier}
use kube_haproxy.App.Server.Modes.{
  asked, provider_for-provide, provide-ProviderFor, mode-Known, switch-made,
}

module _ (host : Host) (x : External) {L : Type 0} (empty_list : L) where
  abbrev Built : Type 0
  Built = Result (ProxyServer host L × Options host)

  abbrev server_with :
      Options host
      → String
      → String
      → host.Client × host.Client
      → Option (Provider host L)
      → ProxyServer host L
  server_with opt hostname mode clients proxier = record {
    proxy_mode = mode;
    proxier = proxier;
    client = some clients.0;
    event_client = some clients.1;
    node_name = hostname;
    bind_address_hard_fail = false;
    use_endpoint_slices = host.endpoint_slice_proxying;
    config_sync_period = opt.config_sync_period;
  }

  -- The last step of newProxyServer, for the provider that the switch gives.
  abbrev with_provider :
      Options host
      → String
      → InitInfo
      → String
      → host.Client × host.Client
      → Option (Option (Provider host L))
      → Built
  with_provider opt hostname info mode clients provider = elim provider [
    | none ↦ panics
    | some proxier ↦
        ok (server_with opt hostname mode clients proxier, record opt { haproxy_info = info })
  ]

  abbrev info_for : Options host → String → InitInfo
  info_for opt name = record opt.haproxy_info { server_algorithm = name }

  -- newProxyServer, for what it asks.
  abbrev built :
      Options host
      → Bool
      → String ⊎ String
      → String ⊎ (host.Client × host.Client)
      → Option String
      → Built
  built opt cleanup hostname clients name =
      if cleanup then ok (empty_server host x empty_list, opt) else (elim hostname [
        | inl error ↦ failed error
        | inr hostname' ↦ elim clients [
          | inl error ↦ failed error
          | inr (client, event_client) ↦ elim name [
            | none ↦ panics
            | some name' ↦
                with_provider opt hostname' (info_for opt name')
                  (get_proxy_mode opt.haproxy_info.mode) (client, event_client)
                  (switch_mode host x empty_list opt hostname' (info_for opt name')
                    (get_proxy_mode opt.haproxy_info.mode))
          ]
        ]
      ])

  new_proxy_server-built :
      (opt : Options host)
      → new_proxy_server host x empty_list opt
        ≡ built opt opt.cleanup_and_exit host.get_hostname
            (create_clients host opt.config)
            (algorithm opt.algorithm)
  unfolding new_proxy_server
  new_proxy_server-built opt = refl

  -- The server that newProxyServer gives outside the cleanup mode.
  pub record IsStarted (opt : Options host) (s : ProxyServer host L) : Type 0 where
    pub hostname : String
    pub is_hostname : host.get_hostname ≡ inr hostname
    pub node : s.node_name ≡ hostname
    pub algorithm_name : String
    pub is_algorithm : algorithm opt.algorithm ≡ some algorithm_name
    pub provider : Provider host L
    pub is_provider : s.proxier ≡ some provider
    pub mode : provider.settings.mode ≡ s.proxy_mode
    pub server_algorithm : provider.settings.server_algorithm ≡ algorithm_name
    pub health_check : provider.settings.is_health_check ≡ opt.haproxy_info.is_check_server
    pub address : provider.settings.proxy_ip ≡ x.ip_string (x.parse_ip "0.0.0.0")
    pub hard_fail : s.bind_address_hard_fail ≡ false
    pub state : provider.state ≡ new_proxier x empty_list hostname s.use_endpoint_slices

  module _ (opt : Options host) {s : ProxyServer host L} {opt' : Options host} where
    -- Once the provider is there, for the parts that the server is built of.
    started :
        (hostname name : String) (clients : host.Client × host.Client)
        (o : Option (Provider host L))
        → host.get_hostname ≡ inr hostname
        → algorithm opt.algorithm ≡ some name
        → provider_for host x empty_list opt hostname
            (info_for opt name)
            (get_proxy_mode opt.haproxy_info.mode)
          ≡ o
        → with_provider opt hostname
            (info_for opt name)
            (get_proxy_mode opt.haproxy_info.mode)
            clients
            (elim o [ none ↦ none | some p ↦ some (some p) ])
          ≡ ok (s, opt')
        → IsStarted opt s
    started hostname name clients none h a f e = cc e
    started hostname name clients (some p) h a f e =
        let info = info_for opt name in
        let mode = get_proxy_mode opt.haproxy_info.mode in
        let (settings, state) =
          provide-ProviderFor host x empty_list opt hostname info mode
            (asked host x empty_list info mode) p refl
            (sym (provider_for-provide host x empty_list opt hostname info mode) ∙ f) in
        let is : server_with opt hostname mode clients (some p) ≡ s = cc e in
        subst (IsStarted opt) is (record {
          hostname = hostname;
          is_hostname = h;
          node = refl;
          algorithm_name = name;
          is_algorithm = a;
          provider = p;
          is_provider = refl;
          mode = settings.0;
          server_algorithm = settings.1;
          health_check = settings.2;
          address = settings.3;
          hard_fail = refl;
          state = state;
        })

    from_parts :
        (hostname : String ⊎ String) (clients : String ⊎ (host.Client × host.Client))
        (name : Option String)
        → host.get_hostname ≡ hostname
        → algorithm opt.algorithm ≡ name
        → built opt false hostname clients name ≡ ok (s, opt')
        → IsStarted opt s
    from_parts (inl error) clients name h a e = cc e
    from_parts (inr hostname) (inl error) name h a e = cc e
    from_parts (inr hostname) (inr clients) none h a e = cc e
    from_parts (inr hostname) (inr clients) (some name) h a e =
        let info = info_for opt name in
        let mode = get_proxy_mode opt.haproxy_info.mode in
        started hostname name clients (provider_for host x empty_list opt hostname info mode) h a
          refl
          (ap (with_provider opt hostname info mode clients) (
              sym (
                switch-made host x empty_list opt hostname info mode
                  (mode-Known host x empty_list opt.haproxy_info.mode)))
            ∙ e)

    -- Outside the cleanup mode, a server that newProxyServer gives has a proxier, which has the mode of
    -- the server, the algorithm of the number given, the health check flag, and the address 0.0.0.0
    -- whatever the interface, and is in the first state for the host's name, where the tracker keeps
    -- slices exactly if the server will watch slices; and the server does not fail hard on a bind.
    pub new_proxy_server-IsStarted :
        opt.cleanup_and_exit ≡ false
        → new_proxy_server host x empty_list opt ≡ ok (s, opt')
        → IsStarted opt s
    new_proxy_server-IsStarted c e =
        from_parts host.get_hostname (create_clients host opt.config) (algorithm opt.algorithm) refl
          refl
          (ap
              (λ b.
                built opt b host.get_hostname (create_clients host opt.config)
                  (algorithm opt.algorithm))
              (sym c)
            ∙ sym (new_proxy_server-built opt)
            ∙ e)
