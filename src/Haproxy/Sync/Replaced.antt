-- ===== src/Haproxy/Sync/Replaced.antt =====
-- syncService on a data plane that keeps what it is sent: a backend that changed.
use kube_haproxy.Prelude.{
  String, Option, none, some, false, ◌≡◌, ◌≢◌, refl, ap, ◌∙◌, ◌==◌, ==_iff, Bool-cases, string_eq,
  inl, inr, ◌+++◌,
}
use kube_haproxy.Haproxy.Action.{Action}
use kube_haproxy.Haproxy.Types.{
  HaproxyInfo, Backend, empty_backend, backend_eq, servers_path, version_path,
}
use kube_haproxy.Haproxy.Dataplane.{Dataplane, method_get, method_put, a_backend}
use kube_haproxy.Haproxy.Handle.{Outcome, by_pointer, named}
use kube_haproxy.Haproxy.Handle.Errors.{IsDone, handle_error-ne-none}
use kube_haproxy.Haproxy.Operations.{get_backend, replace_backend}
use kube_haproxy.Haproxy.Sync.{
  sync_service, sync_backend, sync_frontend, sync_bind, fit_backend, then_unless_error,
  replace_error,
}
use kube_haproxy.Haproxy.Sync.Store.{
  stored, bare, bodied, Views, Keeps, Unchanged, with_version-sends,
}

module _ (dp : Dataplane) (info : HaproxyInfo) (v : Views dp) (k : Keeps dp info v)
    (old : Backend) where
  abbrev pub server_url : String → String
  server_url version = named dp servers_path old.name +++ "?version=" +++ version

  -- A PUT of a server that does not say which backend it belongs to.
  abbrev pub RefusesServer : Type 0
  RefusesServer =
      (w : dp.World) (body : String)
      → (let (r, w') = dp.send (bodied dp method_put (server_url (v.version_at w)) body) w in
          (¬ IsDone r.code) × Unchanged dp v w w')

  abbrev checked : Outcome × dp.World → Option String × dp.World
  checked (outcome, w) = (replace_error outcome, w)

  different : {a b : Backend} → a ≢ b → (a == b) ≡ false
  different {a} {b} n = elim (Bool-cases (a == b)) [
    | inl e ↦ absurd (n ((==_iff a b).0 e))
    | inr e ↦ e
  ]

  fit_backend_changed :
      (w : dp.World)
      → (old.mode == "udp") ≡ false
      → old ≢ empty_backend
      → old ≢ info.backend
      → fit_backend dp info.backend old w ≡ checked (replace_backend dp old.name info.backend w)
  unfolding fit_backend
  fit_backend_changed w m n c = rw (m, different n, different c) refl

  then_error :
      (first second : Action dp.World (Option String)) (w w1 : dp.World) (text : String)
      → first w ≡ (some text, w1)
      → then_unless_error dp first second w ≡ (some text, w1)
  then_error first second w w1 text e =
      ap {B = Option String × dp.World}
        (λ (r : Option String × dp.World). elim r.0 [ some t ↦ (some t, r.1) | none ↦ second r.1 ])
        e

  -- ReplaceBackend sends its PUT to the URL of a server. Where the data plane refuses a server without
  -- a backend: if haproxy has a backend of the name, neither of mode udp nor the zero value, that
  -- differs from the one that the service calls for, syncService reports an error, and leaves the
  -- backend, the frontend and the bind as they are.
  pub sync_service-keeps_changed :
      (w : dp.World)
      → RefusesServer
      → v.backend_at w ≡ some old
      → (old.mode == "udp") ≡ false
      → old ≢ empty_backend
      → old ≢ info.backend
      → (let (e, w') = sync_service dp info w in
          (e ≢ none)
          × (v.backend_at w' ≡ some old)
          × (v.frontend_at w' ≡ v.frontend_at w)
          × (v.bind_at w' ≡ v.bind_at w))
  unfolding sync_service sync_backend get_backend replace_backend
  sync_service-keeps_changed w refuses there m n c =
      let (body, marshalled) = k.marshals (a_backend info.backend) in
      let (get, (b, f, i, _)) = k.reads_backend w in
      let w1 = (get_backend dp info.backend.name w).1 in
      let w2 = (dp.send (bare dp method_get version_path) w1).1 in
      let (_, _, (b2, f2, i2, _)) = k.reads_version w1 in
      let (r, w3) = dp.send (bodied dp method_put (server_url (v.version_at w2)) body) w2 in
      let (refused, (b3, f3, i3, _)) = refuses w2 body in
      let (text, error) = handle_error-ne-none r (by_pointer (a_backend info.backend)) refused in
      let first : sync_backend dp info.backend w ≡ (some text, w3) =
        ap (λ a. fit_backend dp info.backend a w1) (get ∙ ap (stored empty_backend) there)
        ∙ fit_backend_changed w1 m n c
        ∙ ap checked (
            with_version-sends dp k method_put server_url (a_backend info.backend) body w1
              marshalled)
        ∙ ap {B = Option String × dp.World} (λ o. (o, w3)) error in
      let all : sync_service dp info w ≡ (some text, w3) =
        then_error (sync_backend dp info.backend)
          (then_unless_error dp (sync_frontend dp info.frontend)
            (sync_bind dp info.bind info.frontend.name))
          w w3 text first in
      rw all (λ e. cc e, b3 ∙ b2 ∙ b ∙ there, f3 ∙ f2 ∙ f, i3 ∙ i2 ∙ i)
