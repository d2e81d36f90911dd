-- ===== src/Haproxy/Host.antt =====
-- What the client and the proxier ask of their host: haproxy/haproxy.go (checkPortIsAvailable,
-- NewHaproxyHandle, GetLocalAddr, getProcessByName) and the choice of the address in NewProxier
-- (haproxy/proxier.go). The answers of the host are arguments; a panic is none.
pub mod LocalAddr
use kube_haproxy.Prelude.{
  ℕ, String, Bool, true, false, Option, none, some, List, [], ◌∷◌, ◌==◌, if◌then◌else◌, contains,
  string_eq, ◌⊎◌, inl, inr, ◌+++◌,
}
use kube_haproxy.External.{External, Ip}
use kube_haproxy.Haproxy.Types.{only_fetch}
use kube_haproxy.Haproxy.Proxier.{Config}

-- InitInfo
pub record InitInfo : Type 0 where
  pub host : String
  pub user : String
  pub passwd : String
  pub dev : String
  pub mode : String
  pub is_check_server : Bool
  pub server_algorithm : String

-- HaproxyHandle: its address and mode, and what it tells the HTTP client.
pub record HaproxyHandle : Type 0 where
  pub local_addr : String
  pub mode : String
  pub host : String
  pub user : String
  pub passwd : String
  pub content_type : String

unfoldable pub new_haproxy_handle : InitInfo → HaproxyHandle
new_haproxy_handle h = record {
  local_addr = if h.host == "" then "127.0.0.1:5555" else h.host;
  mode = if h.mode == "" then only_fetch else h.mode;
  host = h.host;
  user = h.user;
  passwd = h.passwd;
  content_type = "application/json";
}

-- The error of net.DialTimeout: a *net.OpError with the text of its Err, or another error.
pub data DialError : Type 0 where
  op_error : String → DialError
  other_error : DialError

-- checkPortIsAvailable: for an error that is no *net.OpError it calls Timeout on a nil pointer.
unfoldable pub check_port_is_available :
    (String → String → Option DialError)
    → (String → ℕ → String)
    → HaproxyHandle
    → String
    → ℕ
    → Option Bool
check_port_is_available dial_timeout join_host_port h protocol port =
    elim (dial_timeout protocol (join_host_port h.local_addr port)) [
      | none ↦ some false
      | some error ↦ elim error [
        | op_error text ↦ some (contains text "refused")
        | other_error ↦ none
      ]
    ]

-- net.Addr: a *net.IPNet, or another address, on which the type assertion panics.
pub data Addr : Type 0 where
  ip_net : Ip → Addr
  other_addr : Addr

-- The loop of GetLocalAddr; `to4` is net.IP.To4, with nil as none.
unfoldable pub first_ipv4 : (Ip → Option Ip) → List Addr → Option (Option Ip)
first_ipv4 to4 [] = some none
first_ipv4 to4 (other_addr ∷ addrs) = none
first_ipv4 to4 (ip_net ip ∷ addrs) =
    let rest = first_ipv4 to4 addrs in elim (to4 ip) [ none ↦ rest | some ip4 ↦ some (some ip4) ]

-- GetLocalAddr, on the addresses of the interface or the error of asking for them.
unfoldable pub get_local_addr :
    (Ip → Option Ip) → String → String ⊎ List Addr → Option (String ⊎ Ip)
unfolding first_ipv4
get_local_addr to4 dev (inl error) = some (inl error)
get_local_addr to4 dev (inr addrs) = elim (first_ipv4 to4 addrs) [
  | none ↦ none
  | some found ↦ elim found [
    | none ↦ some (inl ("interface " +++ dev +++ " don't have an ipv4 address\n"))
    | some ip4 ↦ some (inr ip4)
  ]
]

-- The loop of getProcessByName; the name of a process is none where it cannot be read.
unfoldable pub named_process : String → List (Option String) → Bool
named_process process_name [] = false
named_process process_name (none ∷ processes) = false
named_process process_name (some name ∷ processes) =
    let rest = named_process process_name processes in
    if contains name process_name then true else rest

-- getProcessByName
unfoldable pub get_process_by_name : String → Option (List (Option String)) → Bool
unfolding named_process
get_process_by_name process_name none = false
get_process_by_name process_name (some processes) = named_process process_name processes

abbrev pub default_interface : String
default_interface = "eth0"

abbrev pub process_name : String
process_name = "haproxy"

module _ (parse_ip : String → Ip) where
  -- localIP in NewProxier: nil where no interface is named, the loopback where it has no address.
  unfoldable pub local_ip : String → Option (String ⊎ Ip) → Option Ip
  local_ip interface_name found = if interface_name == "" then some [] else (elim found [
    | none ↦ none
    | some (inl error) ↦ some (parse_ip "127.0.0.1")
    | some (inr ip) ↦ some ip
  ])

  -- proxyIP in NewProxier, where localIP is given. `url_host` is the host name in the URL, none where
  -- it does not parse: then the code follows a nil pointer.
  unfoldable pub choose_proxy_ip : Bool → Bool → Option String → Ip → Option Ip
  choose_proxy_ip all_interface haproxy_runs url_host local =
      if all_interface
      then some (parse_ip "0.0.0.0")
      else if haproxy_runs
      then (elim url_host [ none ↦ none | some host ↦ some (parse_ip host) ])
      else some local

-- NewProxier: the settings that it keeps. allInterface is true.
unfoldable pub new_config :
    External
    → InitInfo
    → String
    → Option (String ⊎ Ip)
    → Option (List (Option String))
    → Option String
    → Option Config
unfolding local_ip choose_proxy_ip get_process_by_name
new_config x info mode found processes url_host = elim (local_ip x.parse_ip info.dev found) [
  | none ↦ none
  | some local ↦
      elim (choose_proxy_ip x.parse_ip true (get_process_by_name process_name processes) url_host
        local) [
          | none ↦ none
          | some ip ↦ some (record {
            mode = mode;
            server_algorithm = info.server_algorithm;
            is_health_check = info.is_check_server;
            proxy_ip = x.ip_string ip;
          })
        ]
]
