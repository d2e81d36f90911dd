-- ===== src/Haproxy/Proxier/Called.antt =====
-- haproxy/proxier.go, syncProxyRules: the objects that a service calls for.
use kube_haproxy.Prelude.{
  String, some, ◌≡◌, ◌≢◌, refl, sym, ap, ◌∙◌, ◌+++◌, ◌==◌, string_eq, if_keeps, to_lower,
}
use text.Mathlib.TextLemmas.{append_cancel_left, append-eq-nil_iff}
use kube_haproxy.External.{External}
use kube_haproxy.Api.{ServicePortName, service_port_name_eq}
use kube_haproxy.Controller.Service.{BaseServiceInfo}
use kube_haproxy.Haproxy.Types.{
  Backend, Frontend, server_eq, HaproxyInfo, backend_prefix, frontend_prefix, bind_prefix,
  check_timeout,
}
use kube_haproxy.Haproxy.Dataplane.{Dataplane}
use kube_haproxy.Haproxy.Graceful.{srv_item_eq}
use kube_haproxy.Haproxy.Sync.Store.{Views, Keeps}
use kube_haproxy.Haproxy.Sync.Created.{Nonzero}
use kube_haproxy.Haproxy.Sync.Elsewhere.{Separates}
use kube_haproxy.Haproxy.Sync.Framed.{Apart}
use kube_haproxy.Haproxy.Proxier.{
  Config, svc_name_string, backend_entry, frontend_entry, haproxy_info,
}

-- The objects that a service calls for are no zero values, and have the service's name.
pub backend_entry-name :
    (config : Config) (name protocol : String)
    → (backend_entry config name protocol).name ≡ backend_prefix +++ name
unfolding backend_entry
backend_entry-name config name protocol =
    if_keeps (λ (b : Backend). b.name ≡ backend_prefix +++ name) (protocol == "tcp") _ _ refl
      (if_keeps (λ (b : Backend). b.name ≡ backend_prefix +++ name) (protocol == "http") _ _ refl
        refl)

backend_entry-check_timeout :
    (config : Config) (name protocol : String)
    → (backend_entry config name protocol).check_timeout ≡ some check_timeout
unfolding backend_entry
backend_entry-check_timeout config name protocol =
    if_keeps (λ (b : Backend). b.check_timeout ≡ some check_timeout) (protocol == "tcp") _ _ refl
      (if_keeps (λ (b : Backend). b.check_timeout ≡ some check_timeout) (protocol == "http") _ _
        refl refl)

prefixed : (prefix a b : String) → a ≢ b → prefix +++ a ≢ prefix +++ b
prefixed prefix a b n e = n (append_cancel_left prefix a b e)

module _ (x : External) (config : Config) where
  abbrev pub called_for : ServicePortName → BaseServiceInfo → HaproxyInfo
  called_for k info = haproxy_info config (svc_name_string x k) info

  module _ (dp : Dataplane) (views : ServicePortName → Views dp) where
    pub called_for-Nonzero :
        (k : ServicePortName) (info : BaseServiceInfo)
        (keeps : Keeps dp (called_for k info) (views k))
        → Nonzero dp (called_for k info) (views k) keeps
    unfolding haproxy_info frontend_entry
    called_for-Nonzero k info keeps = (
      λ e.
          let timeout =
            backend_entry-check_timeout config (svc_name_string x k) (to_lower info.protocol) in
          let none_there = ap (λ (b : Backend). b.check_timeout) e in cc (sym timeout ∙ none_there),
      λ e.
          let prefix_empty : frontend_prefix ≡ "" =
            (append-eq-nil_iff.0 (ap (λ (f : Frontend). f.name) e)).0 in
          cc,
      λ e. cc,
    )

    pub called_for-Apart :
        (k : ServicePortName) (info : BaseServiceInfo)
        (keeps : Keeps dp (called_for k info) (views k))
        (s : Separates dp (called_for k info) (views k)) (j : ServicePortName)
        (other : BaseServiceInfo) (keeps' : Keeps dp (called_for j other) (views j))
        → svc_name_string x j ≢ svc_name_string x k
        → Apart dp (called_for k info) (views k) s (called_for j other) (views j) keeps'
    unfolding haproxy_info frontend_entry
    called_for-Apart k info keeps s j other keeps' n =
        let name = svc_name_string x k in
        let name' = svc_name_string x j in
        (
          λ e. prefixed backend_prefix name' name n (
              sym (backend_entry-name config name' (to_lower other.protocol))
              ∙ e
              ∙ backend_entry-name config name (to_lower info.protocol)),
          prefixed frontend_prefix name' name n,
          prefixed bind_prefix name' name n,
        )
