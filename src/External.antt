-- ===== src/External.antt =====
-- What the program calls and does not implement: functions of k8s.io/kubernetes, k8s.io/utils and of
-- Go's net package, and the set types of k8s.io/apimachinery (sets.String) and goset.
use kube_haproxy.Prelude.{ℕ, String, Bool, false, ◌||◌, ◌&&◌, not, Option, List, [], ◌∷◌, ◌≡◌}
use kube_haproxy.Prelude.{DecEq, ◌==◌, string_eq}
use kube_haproxy.Kube.{NamespacedName, KubeService}

unfoldable pub elem_of : {T : Type 0} ⦃e : DecEq T⦄ → T → List T → Bool
elem_of a [] = false
elem_of a (b ∷ bs) = a == b || elem_of a bs

-- A set with its documented behaviour: membership after each operation, and a listing of the members.
pub record GoSet (T : Type 0) ⦃e : DecEq T⦄ : Type 1 where
  pub Carrier : Type 0
  pub empty : Carrier
  pub contains : T → Carrier → Bool
  pub add : T → Carrier → Carrier
  pub remove : T → Carrier → Carrier
  pub items : Carrier → List T
  pub size : Carrier → ℕ
  -- `items` lists each member; the order is not documented.
  pub items_contains : (a : T) (s : Carrier) → contains a s ≡ elem_of a (items s)
  pub contains-empty : (a : T) → contains a empty ≡ false
  pub contains-add : (a b : T) (s : Carrier) → contains a (add b s) ≡ (a == b || contains a s)
  pub contains-remove :
      (a b : T) (s : Carrier) → contains a (remove b s) ≡ (not (a == b) && contains a s)

-- net.IP is a slice of bytes, and the nil address is the empty one.
abbrev pub Ip : Type 0
Ip = List ℕ

pub record External : Type 1 where
  -- net.ParseIP, net.IP.String
  pub parse_ip : String → Ip
  pub ip_string : Ip → String
  -- net.JoinHostPort with strconv.Itoa
  pub join_host_port : String → ℕ → String
  -- utilnet.IsIPv6String
  pub is_ipv6_string : String → Bool
  -- types.NamespacedName.String
  pub namespaced_string : NamespacedName → String
  -- utilproxy.ShouldSkipService, apiservice.RequestsOnlyLocalTraffic, apiservice.NeedsHealthCheck
  pub should_skip_service : KubeService → Bool
  pub requests_only_local_traffic : KubeService → Bool
  pub needs_health_check : KubeService → Bool
  -- utilproxy.FilterIncorrectIPVersion, utilproxy.FilterIncorrectCIDRVersion
  pub filter_incorrect_ip_version : List String → Bool → List String × List String
  pub filter_incorrect_cidr_version : List String → Bool → List String × List String
  -- utilproxy.IPPart, utilproxy.PortPart (the port is 0 where there is an error)
  pub ip_part : String → String
  pub port_part : String → ℕ
  -- time.Parse with RFC3339Nano: none on an error; the zero time is 0
  pub parse_time : String → Option ℕ
  -- sets.String
  pub string_set : GoSet String
