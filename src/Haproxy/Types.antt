-- ===== src/Haproxy/Types.antt =====
-- haproxy/types.go, and the types of github.com/haproxytech/models that the program fills and compares.
use kube_haproxy.Prelude.{
  ℕ, String, Bool, false, Option, none, List, [], DecEq, String_discrete, ℕ_discrete, Bool_discrete,
}

abbrev pub backends_path : String
backends_path = "/v2/services/haproxy/configuration/backends"

abbrev pub frontends_path : String
frontends_path = "/v2/services/haproxy/configuration/frontends"

abbrev pub servers_path : String
servers_path = "/v2/services/haproxy/configuration/servers"

abbrev pub version_path : String
version_path = "/v2/services/haproxy/configuration/version"

abbrev pub binds_path : String
binds_path = "/v2/services/haproxy/configuration/binds"

abbrev pub only_fetch : String
only_fetch = "of"

abbrev pub backend_prefix : String
backend_prefix = "BACKEND."

abbrev pub frontend_prefix : String
frontend_prefix = "FRONTEND."

abbrev pub bind_prefix : String
bind_prefix = "BIND."

abbrev pub server_prefix : String
server_prefix = "POD."

-- checkTimeout, forwordEnable
abbrev pub check_timeout : ℕ
check_timeout = 1

abbrev pub forword_enable : String
forword_enable = "enabled"

-- models.Httpchk
pub record Httpchk : Type 0 where
  pub method : String
  pub uri : String

-- models.Backend. `others` stands for the fields that the program leaves at their zero values.
pub record Backend : Type 0 where
  pub name : String
  pub balance_algorithm : Option String
  pub mode : String
  pub check_timeout : Option ℕ
  pub httpchk : Option Httpchk
  pub forwardfor_enabled : Option String
  pub others : List String

abbrev pub empty_backend : Backend
empty_backend = record {
  name = "";
  balance_algorithm = none;
  mode = "";
  check_timeout = none;
  httpchk = none;
  forwardfor_enabled = none;
  others = [];
}

-- models.Frontend
pub record Frontend : Type 0 where
  pub name : String
  pub default_backend : String
  pub mode : String
  pub others : List String

abbrev pub empty_frontend : Frontend
empty_frontend = record { name = ""; default_backend = ""; mode = ""; others = [] }

-- models.Bind
pub record Bind : Type 0 where
  pub name : String
  pub port : Option ℕ
  pub address : String
  pub others : List String

abbrev pub empty_bind : Bind
empty_bind = record { name = ""; port = none; address = ""; others = [] }

-- The program's own Server. Its int64 fields are counts and ports, never negative.
pub record Server : Type 0 where
  pub address : String
  pub allow_0rtt : Bool
  pub backup : String
  pub check : String
  pub cookie : String
  pub inter : ℕ
  pub maintenance : String
  pub maxconn : ℕ
  pub name : String
  pub on_error : String
  pub on_marked_down : String
  pub on_marked_up : String
  pub port : ℕ
  pub send_proxy : String
  pub send_proxy_v2 : String
  pub ssl : String
  pub ssl_cafile : String
  pub ssl_certificate : String
  pub tls_tickets : String
  pub verify : String
  pub weight : ℕ

abbrev pub empty_server : Server
empty_server = record {
  address = "";
  allow_0rtt = false;
  backup = "";
  check = "";
  cookie = "";
  inter = 0;
  maintenance = "";
  maxconn = 0;
  name = "";
  on_error = "";
  on_marked_down = "";
  on_marked_up = "";
  port = 0;
  send_proxy = "";
  send_proxy_v2 = "";
  ssl = "";
  ssl_cafile = "";
  ssl_certificate = "";
  tls_tickets = "";
  verify = "";
  weight = 0;
}

-- HaproxyInfo
pub record HaproxyInfo : Type 0 where
  pub backend : Backend
  pub bind : Bind
  pub frontend : Frontend

-- Service: a frontend with its default backend.
pub record Service : Type 0 where
  pub name : String
  pub backend : Backend
  pub frontend : Frontend

unfoldable pub Backend_discrete : Discrete Backend
unfolding String_discrete ℕ_discrete
Backend_discrete = hlevel (String_discrete, ℕ_discrete)

unfoldable pub Frontend_discrete : Discrete Frontend
unfolding String_discrete
Frontend_discrete = hlevel String_discrete

unfoldable pub Bind_discrete : Discrete Bind
unfolding String_discrete ℕ_discrete
Bind_discrete = hlevel (String_discrete, ℕ_discrete)

unfoldable pub Server_discrete : Discrete Server
unfolding String_discrete ℕ_discrete Bool_discrete
Server_discrete = hlevel (String_discrete, ℕ_discrete, Bool_discrete)

instance abbrev pub backend_eq : DecEq Backend
backend_eq = record { dec = Backend_discrete }

instance abbrev pub frontend_eq : DecEq Frontend
frontend_eq = record { dec = Frontend_discrete }

instance abbrev pub bind_eq : DecEq Bind
bind_eq = record { dec = Bind_discrete }

instance abbrev pub server_eq : DecEq Server
server_eq = record { dec = Server_discrete }
