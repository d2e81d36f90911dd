-- ===== src/Api.antt =====
-- api/types.go: the key of a load-balanced service port.
use kube_haproxy.Prelude.{String, if◌then◌else◌}
use kube_haproxy.Prelude.{DecEq, ◌==◌, String_discrete, string_eq}
use kube_haproxy.Prelude.{◌+++◌}
use kube_haproxy.Kube.{NamespacedName, NamespacedName_discrete}
use kube_haproxy.External.{External}

pub record ServicePortName : Type 0 where
  pub namespaced_name : NamespacedName
  pub port : String
  pub protocol : String

unfoldable pub ServicePortName_discrete : Discrete ServicePortName
unfolding String_discrete NamespacedName_discrete
ServicePortName_discrete = hlevel (String_discrete, NamespacedName_discrete)

instance abbrev pub service_port_name_eq : DecEq ServicePortName
service_port_name_eq = record { dec = ServicePortName_discrete }

unfoldable pub fmt_port_name : String → String
fmt_port_name port = if port == "" then "" else ":" +++ port

-- ServicePortName.String
unfoldable pub service_port_name_string : External → ServicePortName → String
unfolding fmt_port_name
service_port_name_string x spn = x.namespaced_string spn.namespaced_name +++ fmt_port_name spn.port

-- api.ServiceEndpoint
pub record ServiceEndpoint : Type 0 where
  pub endpoint : String
  pub service_port_name : ServicePortName
