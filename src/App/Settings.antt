-- ===== src/App/Settings.antt =====
-- server/app/type.go, and the address and mode helpers of server/app/server_others.go and server.go.
pub mod Pairs
use kube_haproxy.Prelude.{
  ℕ, String, Bool, true, false, not, Option, none, some, List, [], ◌∷◌, ◌&&◌, ◌||◌, ◌==◌,
  if◌then◌else◌, ltb, string_eq, nat_eq, split,
}
use kube_haproxy.External.{Ip}

pub data ℤ : Type 0 where
  pos : ℕ → ℤ
  negsuc : ℕ → ℤ

abbrev pub get_elem? : List String → ℕ → Option String
get_elem? [] i = none
get_elem? (x ∷ xs) ℕ.zero = some x
get_elem? (x ∷ xs) (ℕ.suc i) = get_elem? xs i

abbrev pub algorithm_array : List String
algorithm_array =
    "roundrobin" ∷ "static-rr" ∷ "leastconn" ∷ "first " ∷ "source" ∷ "uri" ∷ "url_param" ∷ "hdr"
    ∷ "random" ∷ "rdp-cookie" ∷ []

-- Algorithm: none is the panic of an index out of range.
unfoldable pub algorithm : ℤ → Option String
algorithm (pos a) = if ltb 10 a then get_elem? algorithm_array 0 else get_elem? algorithm_array a
algorithm (negsuc a) = none

abbrev pub proxy_mode_of : String
proxy_mode_of = "of"

abbrev pub proxy_mode_local : String
proxy_mode_local = "local"

abbrev pub proxy_mode_mesh_all : String
proxy_mode_mesh_all = "mesh"

unfoldable pub get_proxy_mode : String → String
get_proxy_mode mode =
    if mode == proxy_mode_local
    then proxy_mode_local
    else if mode == proxy_mode_of
    then proxy_mode_of
    else if mode == proxy_mode_mesh_all
    then proxy_mode_mesh_all
    else proxy_mode_of

-- The variables of cidrTuple: cidrs, foundIPv4, foundIPv6.
pub record CidrState : Type 0 where
  pub cidr4 : String
  pub cidr6 : String
  pub found_ipv4 : Bool
  pub found_ipv6 : Bool

-- The loop body of cidrTuple before its break; `is6` is utilsnet.IsIPv6CIDRString.
unfoldable pub cidr_step : (String → Bool) → String → CidrState → CidrState
cidr_step is6 cidr s =
    if is6 cidr && not s.found_ipv6
    then record s { cidr6 = cidr; found_ipv6 = true }
    else if not s.found_ipv4
    then record s { cidr4 = cidr; found_ipv4 = true }
    else s

unfoldable pub cidr_loop : (String → Bool) → List String → CidrState → CidrState
unfolding cidr_step
cidr_loop is6 [] s = s
cidr_loop is6 (cidr ∷ cidrs) s =
    let s' = cidr_step is6 cidr s in
    let rest = cidr_loop is6 cidrs s' in if s'.found_ipv6 && s'.found_ipv4 then s' else rest

abbrev pub no_cidrs : CidrState
no_cidrs = record { cidr4 = ""; cidr6 = ""; found_ipv4 = false; found_ipv6 = false }

unfoldable pub cidr_tuple : (String → Bool) → String → String × String
unfolding cidr_loop
cidr_tuple is6 cidr_list =
    let s = cidr_loop is6 (split cidr_list ",") no_cidrs in (s.cidr4, s.cidr6)

-- nodeIPTuple: `is6` is utilsnet.IsIPv6, the addresses are net.IPv4zero and net.IPv6zero.
unfoldable pub node_ip_tuple : (String → Ip) → (Ip → Bool) → Ip → Ip → String → Ip × Ip
node_ip_tuple parse_ip is6 ipv4_zero ipv6_zero bind_address =
    let adr = parse_ip bind_address in if is6 adr then (ipv4_zero, adr) else (adr, ipv6_zero)

-- detectNodeIP: `node_ip` is the answer of utilnode.GetNodeIP; nil is the empty address.
unfoldable pub detect_node_ip : (String → Ip) → (Ip → Bool) → Ip → String → Ip
detect_node_ip parse_ip is_unspecified node_ip bind_address =
    let parsed = parse_ip bind_address in
    let chosen = if is_unspecified parsed then node_ip else parsed in
    elim chosen [ [] ↦ parse_ip "127.0.0.1" | b ∷ bs ↦ b ∷ bs ]

-- addressFromDeprecatedFlags; `append_port` is proxyutil.AppendPortIfNeeded.
unfoldable pub address_from_deprecated_flags : (String → ℕ → String) → String → ℕ → String
address_from_deprecated_flags append_port addr port =
    if port == 0 then "" else append_port addr port
