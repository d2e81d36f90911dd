-- ===== src/Scenarios/Parts.antt =====
-- Concrete instances of what the program calls: sets as lists, a network library, a data plane that
-- keeps the requests it got and answers each GET with one backend's data.
use kube_haproxy.Prelude.{
  ℕ, string_eq, false, not, none, List, [], ◌∷◌, ◌≡◌, refl, DecEq, ◌==◌, ==_iff, ◌&&◌, ◌||◌,
  if◌then◌else◌, arith, length, inr, ◌+++◌,
}
use kube_haproxy.External.{External, GoSet, elem_of}
use kube_haproxy.Haproxy.Types.{server_eq}
use kube_haproxy.Haproxy.Graceful.{srv_item_eq}
use kube_haproxy.Haproxy.Dataplane.{Dataplane, Request}

module _ {T : Type 0} ⦃e : DecEq T⦄ where
  unfoldable pub without : T → List T → List T
  without b [] = []
  without b (a ∷ s) = let rest = without b s in if a == b then rest else a ∷ rest

  pub elem_of-nil : (a : T) → elem_of a [] ≡ false
  unfolding elem_of
  elem_of-nil a = refl

  pub elem_of-cons : (a b : T) (s : List T) → elem_of a (b ∷ s) ≡ (a == b || elem_of a s)
  unfolding elem_of
  elem_of-cons a b s = refl

  pub elem_of-without :
      (a b : T) (s : List T) → elem_of a (without b s) ≡ (not (a == b) && elem_of a s)
  unfolding elem_of without
  elem_of-without a b [] = ground arith
  elem_of-without a b (c ∷ s) =
      ground (arith, elem_of-without a b s, ==_iff c b, ==_iff a c, ==_iff a b)

  abbrev pub list_set : GoSet T
  list_set = record {
    Carrier = List T;
    empty = [];
    contains = elem_of;
    add = λ a s. a ∷ s;
    remove = without;
    items = λ s. s;
    size = length;
    items_contains = λ a s. refl;
    contains-empty = elem_of-nil;
    contains-add = elem_of-cons;
    contains-remove = elem_of-without;
  }

abbrev pub net : External
net = record {
  parse_ip = λ s. [];
  ip_string = λ ip. "10.0.0.1";
  join_host_port = λ ip port. ip +++ ":80";
  is_ipv6_string = λ s. false;
  namespaced_string = λ nn. nn.namespace +++ ("/" +++ nn.name);
  should_skip_service = λ svc. false;
  requests_only_local_traffic = λ svc. false;
  needs_health_check = λ svc. false;
  filter_incorrect_ip_version = λ ips v6. (ips, []);
  filter_incorrect_cidr_version = λ cidrs v6. (cidrs, []);
  ip_part = λ s. s;
  port_part = λ s. 80;
  parse_time = λ s. none;
  string_set = list_set;
}

-- A data plane whose answers have this code, and whose lists are empty.
abbrev pub answering : ℕ → Dataplane
answering code = record {
  World = List Request;
  send = λ request sent. (record { err = none; code = code; body = "" }, request ∷ sent);
  marshal = λ payload. inr "payload";
  raw_data = λ body. none;
  decode_backend = λ entry. none;
  decode_backends = λ entry. none;
  decode_frontend = λ entry. none;
  decode_frontends = λ entry. none;
  decode_bind = λ entry. none;
  decode_server = λ entry. none;
  decode_servers = λ entry. [];
  decode_bind_list = λ body. [];
  query_escape = λ s. s;
  atoi_text = λ s. "1";
}
