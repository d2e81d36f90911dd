-- ===== src/Kube.antt =====
-- The Kubernetes types (k8s.io/api, k8s.io/apimachinery) that the program receives. They are not part
-- of the repository: each record has the fields that the program reads.
use kube_haproxy.Prelude.{ℕ, String, Bool, Option, List, GoMap, NilMap, ℕ_discrete}
use kube_haproxy.Prelude.{DecEq, String_discrete}

pub record NamespacedName : Type 0 where
  pub namespace : String
  pub name : String

unfoldable pub NamespacedName_discrete : Discrete NamespacedName
unfolding String_discrete
NamespacedName_discrete = hlevel String_discrete

instance abbrev pub namespaced_name_eq : DecEq NamespacedName
namespaced_name_eq = record { dec = NamespacedName_discrete }

-- v1.Protocol is a string type.
abbrev pub protocol_tcp : String
protocol_tcp = "TCP"

abbrev pub protocol_udp : String
protocol_udp = "UDP"

abbrev pub service_affinity_client_ip : String
service_affinity_client_ip = "ClientIP"

-- v1.ServicePort. A port is an int32 that the API server keeps between 0 and 65535.
pub record KubeServicePort : Type 0 where
  pub name : String
  pub protocol : String
  pub port : ℕ
  pub node_port : ℕ

pub record LoadBalancerIngress : Type 0 where
  pub ip : String
  pub hostname : String

-- v1.Service. `client_ip_timeout` is Spec.SessionAffinityConfig.ClientIP.TimeoutSeconds: the API
-- server guarantees that the pointers are set where the affinity is ClientIP, the one case that reads it.
pub record KubeService : Type 0 where
  pub namespace : String
  pub name : String
  pub cluster_ip : String
  pub ports : List KubeServicePort
  pub session_affinity : String
  pub client_ip_timeout : ℕ
  pub external_ips : List String
  pub load_balancer_source_ranges : List String
  pub ingress : List LoadBalancerIngress
  pub health_check_node_port : ℕ
  pub topology_keys : List String

-- v1.Endpoints: addresses and ports, in subsets.
pub record EndpointAddress : Type 0 where
  pub ip : String
  pub node_name : Option String

pub record EndpointPort : Type 0 where
  pub name : String
  pub port : ℕ
  pub protocol : String

pub record EndpointSubset : Type 0 where
  pub addresses : List EndpointAddress
  pub ports : List EndpointPort

pub record KubeEndpoints : Type 0 where
  pub namespace : String
  pub name : String
  pub annotations : GoMap String String
  pub subsets : List EndpointSubset

-- discovery/v1beta1. Pointers are options; the API server sets a missing protocol to TCP.
pub record SlicePort : Type 0 where
  pub name : Option String
  pub port : Option ℕ
  pub protocol : String
  pub app_protocol : Option String

unfoldable pub SlicePort_discrete : Discrete SlicePort
unfolding String_discrete ℕ_discrete
SlicePort_discrete = hlevel (String_discrete, ℕ_discrete)

instance abbrev pub slice_port_eq : DecEq SlicePort
slice_port_eq = record { dec = SlicePort_discrete }

pub record SliceEndpoint : Type 0 where
  pub addresses : List String
  pub ready : Option Bool
  pub topology : NilMap String String

pub record EndpointSlice : Type 0 where
  pub namespace : String
  pub name : String
  pub labels : GoMap String String
  pub annotations : GoMap String String
  pub address_type : String
  pub endpoints : List SliceEndpoint
  pub ports : List SlicePort
