-- ===== src/Controller/Endpoint.antt =====
-- controller/endpoints.go, the endpoint values; and haproxy.endpointsInfo of haproxy/proxier.go.
use kube_haproxy.Prelude.{
  ℕ, String, Bool, false, not, Option, none, some, List, DecEq, ◌==◌, GoMap, NilMap, ◌&&◌,
  string_eq, nat_eq, bool_eq, String_discrete, Bool_discrete, list_eq,
}
use kube_haproxy.Kube.{namespaced_name_eq}
use kube_haproxy.External.{External}
use kube_haproxy.Api.{ServicePortName, service_port_name_eq}

pub record BaseEndpointInfo : Type 0 where
  pub endpoint : String
  pub is_local : Bool
  pub topology : NilMap String String

-- api.Endpoint: an interface. Its implementations are BaseEndpointInfo and haproxy.endpointsInfo,
-- which embeds one, adds a protocol, and overrides Equal.
pub data Endpoint : Type 0 where
  base_endpoint_info : BaseEndpointInfo → Endpoint
  endpoints_info : BaseEndpointInfo → String → Endpoint

unfoldable pub Endpoint_discrete : Discrete Endpoint
unfolding String_discrete Bool_discrete
Endpoint_discrete = hlevel (String_discrete, Bool_discrete)

instance abbrev pub endpoint_eq : DecEq Endpoint
endpoint_eq = record { dec = Endpoint_discrete }

abbrev pub info_of : Endpoint → BaseEndpointInfo
info_of (base_endpoint_info info) = info
info_of (endpoints_info info protocol) = info

-- BaseEndpointInfo.String and GetIsLocal
abbrev pub endpoint_string : Endpoint → String
endpoint_string e = (info_of e).endpoint

abbrev pub get_is_local : Endpoint → Bool
get_is_local e = (info_of e).is_local

abbrev pub get_topology : Endpoint → NilMap String String
get_topology e = (info_of e).topology

-- Equal, by the receiver: BaseEndpointInfo.Equal, and endpointsInfo.Equal in haproxy/proxier.go.
unfoldable pub endpoint_equal : Endpoint → Endpoint → Bool
endpoint_equal (base_endpoint_info info) other =
    info.endpoint == endpoint_string other && info.is_local == get_is_local other
endpoint_equal (endpoints_info info protocol) (base_endpoint_info other) = false
endpoint_equal (endpoints_info info protocol) (endpoints_info other protocol') =
    info.endpoint == other.endpoint && info.is_local == other.is_local && protocol == protocol'

abbrev pub EndpointsMap : Type 0
EndpointsMap = GoMap ServicePortName (List Endpoint)

-- standardEndpointInfo
abbrev pub standard_endpoint_info : BaseEndpointInfo → Endpoint
standard_endpoint_info info = base_endpoint_info info

-- makeEndpointFunc, and the default where it is nil
abbrev pub Maker : Type 0
Maker = Option (BaseEndpointInfo → Endpoint)

abbrev pub make_endpoint : Maker → BaseEndpointInfo → Endpoint
make_endpoint none info = standard_endpoint_info info
make_endpoint (some make) info = make info

module _ (x : External) where
  -- newBaseEndpointInfo
  abbrev pub new_base_endpoint_info : String → ℕ → Bool → NilMap String String → BaseEndpointInfo
  new_base_endpoint_info ip port is_local topology = record {
    endpoint = x.join_host_port ip port;
    is_local = is_local;
    topology = topology;
  }

  abbrev pub wrong_ip_version : Option Bool → String → Bool
  wrong_ip_version none ip = false
  wrong_ip_version (some is_ipv6) ip = not (x.is_ipv6_string ip == is_ipv6)

  -- The methods IP and Port; the port is 0 where there is an error.
  abbrev pub endpoint_ip_of : Endpoint → String
  endpoint_ip_of e = x.ip_part (endpoint_string e)

  abbrev pub endpoint_port_of : Endpoint → ℕ
  endpoint_port_of e = x.port_part (endpoint_string e)
