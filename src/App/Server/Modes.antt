-- ===== src/App/Server/Modes.antt =====
-- server/app/server_others.go, the switch of newProxyServer on the mode, and NewProxier's settings.
use kube_haproxy.Prelude.{
  String, Option, none, some, List, ◌≡◌, refl, sym, ◌∙◌, ◌⊎◌, inl, inr, ◌==◌, Bool-cases, string_eq,
  subst, arith, ==_iff,
}
use kube_haproxy.External.{External, Ip}
use kube_haproxy.App.Settings.{get_proxy_mode, proxy_mode_of, proxy_mode_local, proxy_mode_mesh_all}
use kube_haproxy.App.Server.{Host, Options, Provider, provider_for, switch_mode}
use kube_haproxy.Haproxy.Host.{InitInfo, new_config, choose_proxy_ip, local_ip}
use kube_haproxy.Haproxy.Proxier.{Config, new_proxier}

module _ (host : Host) (x : External) {L : Type 0} (empty_list : L) where
  -- What is known of the settings that NewProxier makes.
  abbrev pub SettingsFor : InitInfo → String → Config → Type 0
  SettingsFor info mode c =
      (c.mode ≡ mode)
      × (c.server_algorithm ≡ info.server_algorithm)
      × (c.is_health_check ≡ info.is_check_server)
      × (c.proxy_ip ≡ x.ip_string (x.parse_ip "0.0.0.0"))

  abbrev settings_for : InitInfo → String → Config
  settings_for info mode = record {
    mode = mode;
    server_algorithm = info.server_algorithm;
    is_health_check = info.is_check_server;
    proxy_ip = x.ip_string (x.parse_ip "0.0.0.0");
  }

  abbrev from_local : InitInfo → String → Option Ip → Option Config
  from_local info mode local = elim local [ none ↦ none | some _ ↦ some (settings_for info mode) ]

  new_config-from_local :
      (info : InitInfo) (mode : String) (found : Option (String ⊎ Ip))
      (processes : Option (List (Option String))) (url_host : Option String)
      → new_config x info mode found processes url_host
        ≡ from_local info mode (local_ip x.parse_ip info.dev found)
  unfolding new_config choose_proxy_ip
  new_config-from_local info mode found processes url_host = refl

  from_local-SettingsFor :
      (info : InitInfo) (mode : String) (local : Option Ip) (c : Config)
      → from_local info mode local ≡ some c
      → SettingsFor info mode c
  from_local-SettingsFor info mode none c e = cc e
  from_local-SettingsFor info mode (some ip) c e =
      let is : settings_for info mode ≡ c = cc e in
      subst (SettingsFor info mode) is (refl, refl, refl, refl)

  abbrev pub provided : Options host → String → Config → Provider host L
  provided opt hostname settings = record {
    settings = settings;
    sync_period = opt.sync_period;
    min_sync_period = opt.min_sync_period;
    state = new_proxier x empty_list hostname host.endpoint_slice_proxying;
  }

  abbrev pub provide : Options host → String → Option Config → Option (Provider host L)
  provide opt hostname config = elim config [
    | none ↦ none
    | some settings ↦ some (provided opt hostname settings)
  ]

  abbrev pub ProviderFor : String → InitInfo → String → Provider host L → Type 0
  ProviderFor hostname info mode p =
      SettingsFor info mode p.settings
      × (p.state ≡ new_proxier x empty_list hostname host.endpoint_slice_proxying)

  abbrev pub asked : InitInfo → String → Option Config
  asked info mode =
      new_config x info mode (host.local_addr info.dev) host.processes (host.url_host info.host)

  pub provider_for-provide :
      (opt : Options host) (hostname : String) (info : InitInfo) (mode : String)
      → provider_for host x empty_list opt hostname info mode
        ≡ provide opt hostname (asked info mode)
  unfolding provider_for
  provider_for-provide opt hostname info mode = refl

  pub provide-ProviderFor :
      (opt : Options host) (hostname : String) (info : InitInfo) (mode : String) (o : Option Config)
      (p : Provider host L)
      → asked info mode ≡ o
      → provide opt hostname o ≡ some p
      → ProviderFor hostname info mode p
  provide-ProviderFor opt hostname info mode none p a e = cc e
  provide-ProviderFor opt hostname info mode (some c) p a e =
      let is : provided opt hostname c ≡ p = cc e in
      subst (ProviderFor hostname info mode) is (
        from_local-SettingsFor info mode (local_ip x.parse_ip info.dev (host.local_addr info.dev)) c
            (sym (new_config-from_local info mode _ host.processes (host.url_host info.host)) ∙ a),
        refl,
      )

  abbrev pub made : Options host → String → InitInfo → String → Option (Option (Provider host L))
  made opt hostname info mode = elim (provider_for host x empty_list opt hostname info mode) [
    | none ↦ none
    | some p ↦ some (some p)
  ]

  abbrev pub Known : String → Type 0
  Known mode = (mode ≡ proxy_mode_of) ⊎ (mode ≡ proxy_mode_local) ⊎ (mode ≡ proxy_mode_mesh_all)

  pub mode-Known : (m : String) → Known (get_proxy_mode m)
  unfolding get_proxy_mode
  mode-Known m = elim (Bool-cases (m == proxy_mode_local)) [
    | inl l ↦ rw l (inr (inl refl))
    | inr l ↦ elim (Bool-cases (m == proxy_mode_of)) [
      | inl o ↦ rw (l, o) (inl refl)
      | inr o ↦ elim (Bool-cases (m == proxy_mode_mesh_all)) [
        | inl a ↦ rw (l, o, a) (inr (inr refl))
        | inr a ↦ rw (l, o, a) (inl refl)
      ]
    ]
  ]

  -- For the modes that there are, the switch makes a proxier.
  pub switch-made :
      (opt : Options host) (hostname : String) (info : InitInfo) (mode : String)
      → Known mode
      → switch_mode host x empty_list opt hostname info mode ≡ made opt hostname info mode
  unfolding switch_mode
  switch-made opt hostname info mode h = elim (Bool-cases (mode == proxy_mode_of)) [
    | inl o ↦ rw o refl
    | inr o ↦ elim (Bool-cases (mode == proxy_mode_local)) [
      | inl l ↦ rw (o, l) refl
      | inr l ↦ elim (Bool-cases (mode == proxy_mode_mesh_all)) [
        | inl a ↦ rw (o, l, a) refl
        | inr a ↦ absurd (
            ground (
              arith,
              ==_iff mode proxy_mode_of,
              ==_iff mode proxy_mode_local,
              ==_iff mode proxy_mode_mesh_all,
              h,
            ))
      ]
    ]
  ]
