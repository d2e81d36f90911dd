-- ===== src/Controller/Service/HealthPorts.antt =====
-- controller/service.go, UpdateServiceMap: the health check node ports that it reports.
use kube_haproxy.Prelude.{
  ℕ, ◌%◌, ◌^◌, true, some, [], ◌∷◌, ◌==◌, ==_iff, ==_refl, Bool-cases, is_some, get, get-put, ◌≡◌,
  ◌≢◌, refl, sym, ◌∙◌, nat_eq, arith, inl, inr, In, here, there, subst, In-cases, not_in_nil,
}
use kube_haproxy.Kube.{NamespacedName, namespaced_name_eq}
use kube_haproxy.Api.{ServicePortName}
use kube_haproxy.Controller.Service.{
  ServiceMap, ServicePort, health_check_node_port_of, health_check_node_ports,
}

-- A port of the service in the map that asks for health checks, on a node port that is n as a uint16.
pub record Asks (sm : ServiceMap) (nn : NamespacedName) (n : ℕ) : Type 0 where
  pub key : ServicePortName
  pub info : ServicePort
  pub listed : In (key, info) sm
  pub is_of : key.namespaced_name ≡ nn
  pub has_port : health_check_node_port_of info ≢ 0
  pub is : n ≡ health_check_node_port_of info % 2 ^ 16

abbrev further :
    {sm : ServiceMap} {nn : NamespacedName} {n : ℕ} {entry : ServicePortName × ServicePort}
    → Asks sm nn n
    → Asks (entry ∷ sm) nn n
further a = record {
  key = a.key;
  info = a.info;
  listed = there a.listed;
  is_of = a.is_of;
  has_port = a.has_port;
  is = a.is;
}

reported_asks :
    (sm : ServiceMap) (nn : NamespacedName) (n : ℕ)
    → get nn (health_check_node_ports sm) ≡ some n
    → Asks sm nn n
unfolding health_check_node_ports get
reported_asks [] nn n e = cc e
reported_asks ((k, info) ∷ sm) nn n e = elim (Bool-cases (health_check_node_port_of info == 0)) [
  | inl z ↦ further (reported_asks sm nn n (rw (z, health_check_node_ports) at e))
  | inr z ↦
      let e' = sym (get-put nn k.namespaced_name _ _) ∙ rw (z, health_check_node_ports) at e in
      elim (Bool-cases (k.namespaced_name == nn)) [
        | inl h ↦ record {
          key = k;
          info = info;
          listed = here refl;
          is_of = (==_iff _ _).0 h;
          has_port = λ q. cc ((==_iff _ _).1 q, z);
          is = cc (rw h at e');
        }
        | inr h ↦ further (reported_asks sm nn n (rw h at e'))
      ]
]

head_reported :
    (sm : ServiceMap) (k : ServicePortName) (info : ServicePort)
    → health_check_node_port_of info ≢ 0
    → is_some (get k.namespaced_name (health_check_node_ports ((k, info) ∷ sm))) ≡ true
unfolding health_check_node_ports
head_reported sm k info h = ground (
  arith,
  ==_refl k.namespaced_name,
  ==_iff (health_check_node_port_of info) 0,
  get-put k.namespaced_name k.namespaced_name (health_check_node_port_of info % 2 ^ 16)
      (health_check_node_ports sm),
)

asks_reported :
    (sm : ServiceMap) (k : ServicePortName) (info : ServicePort)
    → In (k, info) sm
    → health_check_node_port_of info ≢ 0
    → is_some (get k.namespaced_name (health_check_node_ports sm)) ≡ true
unfolding health_check_node_ports
asks_reported [] k info i h = absurd (not_in_nil i)
asks_reported ((j, other) ∷ sm) k info i h = elim (In-cases i) [
  | inl e ↦
      subst (λ entry. is_some (get k.namespaced_name (health_check_node_ports (entry ∷ sm))) ≡ true)
        e (head_reported sm k info h)
  | inr i' ↦ ground (
    arith,
    asks_reported sm k info i' h,
    get-put k.namespaced_name j.namespaced_name (health_check_node_port_of other % 2 ^ 16)
        (health_check_node_ports sm),
  )
]

-- UpdateServiceMap reports for a service exactly the health check node ports of its ports in the map:
-- a number that it reports is, as a uint16, the node port of a port of that service, not 0; and every
-- service with such a port is reported.
pub health_check_node_ports_exact :
    (sm : ServiceMap) (nn : NamespacedName)
    → ((n : ℕ) → get nn (health_check_node_ports sm) ≡ some n → Asks sm nn n)
      × ((n : ℕ) → Asks sm nn n → is_some (get nn (health_check_node_ports sm)) ≡ true)
health_check_node_ports_exact sm nn = (
  reported_asks sm nn,
  λ n a.
      subst (λ m. is_some (get m (health_check_node_ports sm)) ≡ true) a.is_of
        (asks_reported sm a.key a.info a.listed a.has_port),
)
