-- ===== src/Scenarios/Planes.antt =====
-- A data plane that keeps the objects of two services.
pub mod Apart
use kube_haproxy.Prelude.{
  ℕ, String, Bool, true, false, Option, none, some, List, [], ◌∷◌, ◌≡◌, ◌≢◌, refl, sym, ap, subst,
  ◌==◌, ==_iff, string_eq, inl, inr, if◌then◌else◌, if_keeps, Bool-cases, deciding, ◌+++◌, ◌||◌,
  to_lower, replace_all, EachEntry, ◌⊎◌, ◌∙◌,
}
use kube_haproxy.Api.{ServicePortName, service_port_name_string, service_port_name_eq}
use kube_haproxy.Controller.Service.{BaseServiceInfo, service_info, ServiceMap}
use kube_haproxy.Haproxy.Types.{
  HaproxyInfo, Backend, Frontend, Bind, empty_backend, empty_frontend, empty_bind, server_eq,
}
use kube_haproxy.Haproxy.Dataplane.{
  Dataplane, Request, Response, Payload, a_backend, a_frontend, a_bind, a_server, method_get,
  method_post, method_put, method_delete,
}
use kube_haproxy.Haproxy.Graceful.{srv_item_eq}
use kube_haproxy.Haproxy.Operations.{decoded}
use kube_haproxy.Haproxy.Proxier.{
  svc_name_string, haproxy_info, backend_entry, frontend_entry, sync_all,
}
use kube_haproxy.Haproxy.Sync.Made.{AbsentOr}
use kube_haproxy.Haproxy.Sync.Elsewhere.{
  Separates, Same, read, other_backend, other_frontend, other_bind, new_server, old_server,
}
use kube_haproxy.Haproxy.Sync.Store.{Views, Keeps, stored, backend_url, frontend_url, bind_url}
use kube_haproxy.Scenarios.Maps.{config}
use kube_haproxy.Scenarios.Parts.{net, list_set, answering}

abbrev pub web_key : ServicePortName
web_key = record {
  namespaced_name = record { namespace = "shop"; name = "web" };
  port = "http";
  protocol = "TCP";
}

abbrev pub mail_key : ServicePortName
mail_key = record {
  namespaced_name = record { namespace = "shop"; name = "mail" };
  port = "smtp";
  protocol = "TCP";
}

abbrev pub info_of : ℕ → BaseServiceInfo
info_of port = record {
  cluster_ip = 10 ∷ 0 ∷ 0 ∷ 1 ∷ [];
  port = port;
  protocol = "TCP";
  node_port = 0;
  load_balancer_status = [];
  session_affinity_type = "None";
  sticky_max_age_seconds = 0;
  external_ips = [];
  load_balancer_source_ranges = [];
  health_check_node_port = 0;
  only_node_local_endpoints = false;
  topology_keys = [];
}

-- What the two services call for.
abbrev pub object_of : String → ℕ → HaproxyInfo
object_of name port = record {
  backend = record {
    name = "BACKEND." +++ name;
    balance_algorithm = some "roundrobin";
    mode = "tcp";
    check_timeout = some 1;
    httpchk = none;
    forwardfor_enabled = none;
    others = [];
  };
  frontend = record {
    name = "FRONTEND." +++ name;
    default_backend = "BACKEND." +++ name;
    mode = "tcp";
    others = [];
  };
  bind = record { name = "BIND." +++ name; port = some port; address = "0.0.0.0"; others = [] };
}

abbrev pub web_object : HaproxyInfo
web_object = object_of "shop.web.http" 80

abbrev pub mail_object : HaproxyInfo
mail_object = object_of "shop.mail.smtp" 25

pub web_called_for : haproxy_info config (svc_name_string net web_key) (info_of 80) ≡ web_object
unfolding svc_name_string service_port_name_string replace_all deciding haproxy_info backend_entry
    frontend_entry to_lower
web_called_for = refl

pub mail_called_for : haproxy_info config (svc_name_string net mail_key) (info_of 25) ≡ mail_object
unfolding svc_name_string service_port_name_string replace_all deciding haproxy_info backend_entry
    frontend_entry to_lower
mail_called_for = refl

-- The texts of the objects that are there.
abbrev pub Kept : Type 0
Kept = String → Bool

-- The text of an object, by its name.
abbrev pub tag : String → String → String → String → String → String
tag first text second text' name =
    if name == first then text else if name == second then text' else "other"

abbrev pub text_of : Payload → String
text_of (a_backend b) =
    tag web_object.backend.name "web backend" mail_object.backend.name "mail backend" b.name
text_of (a_frontend f) =
    tag web_object.frontend.name "web frontend" mail_object.frontend.name "mail frontend" f.name
text_of (a_bind b) = tag web_object.bind.name "web bind" mail_object.bind.name "mail bind" b.name
text_of (a_server s) = "other"

abbrev pub path : String
path = "/v2/services/haproxy/configuration/"

abbrev pub answer : ℕ → String → Response
answer code body = record { err = none; code = code; body = body }

abbrev pub found : String → Bool → Response
found text true = answer 200 text
found text false = answer 404 ""

abbrev pub look : String → Kept → Response
look url w =
    if url == path +++ "version"
    then answer 200 "1"
    else if url == path +++ "backends/BACKEND.shop.web.http"
    then found "web backend" (w "web backend")
    else if url == path +++ "backends/BACKEND.shop.mail.smtp"
    then found "mail backend" (w "mail backend")
    else if url == path +++ "frontends/FRONTEND.shop.web.http"
    then found "web frontend" (w "web frontend")
    else if url == path +++ "frontends/FRONTEND.shop.mail.smtp"
    then found "mail frontend" (w "mail frontend")
    else if url
        == path +++ "binds/BIND.shop.web.http?parent_type=frontend&frontend=FRONTEND.shop.web.http"
    then found "web bind" (w "web bind")
    else if url
        == path
          +++ "binds/BIND.shop.mail.smtp?parent_type=frontend&frontend=FRONTEND.shop.mail.smtp"
    then found "mail bind" (w "mail bind")
    else answer 404 ""

abbrev pub keep : Option String → Kept → Kept
keep none w = w
keep (some text) w = λ t. t == text || w t

abbrev pub serve : Request → Kept → Response × Kept
serve request w = elim request.method [
  | method_get ↦ (look request.url w, w)
  | method_post ↦ (answer 202 "", keep request.body w)
  | method_put ↦ (answer 200 "", w)
  | method_delete ↦ (answer 202 "", w)
]

abbrev pub one_of : {A : Type 0} → String → A → String → A → String → Option A
one_of text a text' a' entry =
    if entry == text then some a else if entry == text' then some a' else none

abbrev pub plane : Dataplane
plane = record (answering 200) {
  World = Kept;
  send = serve;
  marshal = λ payload. inr (text_of payload);
  raw_data = λ body. some body;
  decode_backend = one_of "web backend" web_object.backend "mail backend" mail_object.backend;
  decode_frontend = one_of "web frontend" web_object.frontend "mail frontend" mail_object.frontend;
  decode_bind = one_of "web bind" web_object.bind "mail bind" mail_object.bind;
}

abbrev pub held : {A : Type 0} → A → Bool → Option A
held a true = some a
held a false = none

abbrev pub view : HaproxyInfo → String → String → String → Views plane
view obj backend frontend bind = record {
  backend_at = λ w. held obj.backend (w backend);
  frontend_at = λ w. held obj.frontend (w frontend);
  bind_at = λ w. held obj.bind (w bind);
  version_at = λ w. "1";
}

abbrev pub web_view : Views plane
web_view = view web_object "web backend" "web frontend" "web bind"

abbrev pub mail_view : Views plane
mail_view = view mail_object "mail backend" "mail frontend" "mail bind"
