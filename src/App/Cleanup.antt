-- ===== src/App/Cleanup.antt =====
-- server/app/server.go, CleanupAndExit.
pub mod Refused
use kube_haproxy.Prelude.{
  String, Bool, true, false, Option, none, some, List, [], ◌∷◌, if◌then◌else◌, ◌≡◌, refl, is_empty,
}
use kube_haproxy.Haproxy.Action.{Action}
use kube_haproxy.Haproxy.Types.{Service}
use kube_haproxy.Haproxy.Dataplane.{Dataplane}
use kube_haproxy.Haproxy.Operations.{get_services, delete_backend, delete_frontend}

module _ (dp : Dataplane) where
  -- The loop over the services: the error, if it returned one.
  unfoldable pub cleanup_services : List Service → Action dp.World (Option String)
  unfolding delete_backend delete_frontend
  cleanup_services [] w = (none, w)
  cleanup_services (svc ∷ services) w =
      let (backend_error, w1) = delete_backend dp svc.backend.name w in
      elim backend_error [
        | true ↦ (some "encountered an error while tearing down Backend rules", w1)
        | false ↦
            let (frontend_error, w2) = delete_frontend dp svc.frontend.name w1 in
            elim frontend_error [
              | true ↦ (some "encountered an error while tearing down Frontend rules", w2)
              | false ↦ cleanup_services services w2
            ]
      ]

  unfoldable pub cleanup_and_exit : Action dp.World (Option String)
  unfolding get_services cleanup_services
  cleanup_and_exit w =
      let (services, w1) = get_services dp w in
      elim services [
        | [] ↦ (some "Get all services error.", w1)
        | svc ∷ rest ↦ cleanup_services (svc ∷ rest) w1
      ]
