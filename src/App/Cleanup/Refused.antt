-- ===== src/App/Cleanup/Refused.antt =====
-- server/app/server.go, CleanupAndExit: when it ends without an error.
use kube_haproxy.Prelude.{
  String, false, Option, none, some, List, [], ◌∷◌, ◌≡◌, refl, sym, is_empty, Bool-cases, inl, inr,
  ◌↔◌, subst,
}
use kube_haproxy.Haproxy.Types.{Service}
use kube_haproxy.Haproxy.Dataplane.{Dataplane}
use kube_haproxy.Haproxy.Operations.{get_services, delete_backend, delete_frontend}
use kube_haproxy.App.Cleanup.{cleanup_services, cleanup_and_exit}

module _ (dp : Dataplane) where
  -- The deletions of each service, one after the other, of which none is reported as done.
  pub data NoneDone : List Service → dp.World → Type 0 where
    done : {w : dp.World} → NoneDone [] w
    next :
        {svc : Service} {services : List Service} {w : dp.World}
        → (delete_backend dp svc.backend.name w).0 ≡ false
        → (delete_frontend dp svc.frontend.name (delete_backend dp svc.backend.name w).1).0 ≡ false
        → NoneDone services
            (delete_frontend dp svc.frontend.name (delete_backend dp svc.backend.name w).1).1
        → NoneDone (svc ∷ services) w

  services_ok :
      (services : List Service) (w : dp.World)
      → (cleanup_services dp services w).0 ≡ none
      → NoneDone services w
  unfolding cleanup_services
  services_ok [] w e = done
  services_ok (svc ∷ services) w e =
      let w1 = (delete_backend dp svc.backend.name w).1 in
      elim (Bool-cases (delete_backend dp svc.backend.name w).0) [
        | inl p ↦ cc (rw (p, cleanup_services) at e)
        | inr p ↦ elim (Bool-cases (delete_frontend dp svc.frontend.name w1).0) [
          | inl q ↦ cc (rw (p, q, cleanup_services) at e)
          | inr q ↦ next p q (services_ok services _ (rw (p, q, cleanup_services) at e))
        ]
      ]

  services_none :
      (services : List Service) (w : dp.World)
      → NoneDone services w
      → (cleanup_services dp services w).0 ≡ none
  unfolding cleanup_services
  services_none [] w h = refl
  services_none (svc ∷ services) w (next p q h) =
      rw (p, q, cleanup_services) (services_none services _ h)

  -- CleanupAndExit, once the services are listed.
  abbrev listed : List Service → dp.World → Option String × dp.World
  listed [] w = (some "Get all services error.", w)
  listed (svc ∷ services) w = cleanup_services dp (svc ∷ services) w

  listed_ok_iff :
      (services : List Service) (w : dp.World)
      → ((listed services w).0 ≡ none) ↔ ((is_empty services ≡ false) × NoneDone services w)
  listed_ok_iff [] w = (λ e. cc e, λ h. cc h.0)
  listed_ok_iff (svc ∷ services) w =
      (λ e. (refl, services_ok (svc ∷ services) w e), λ h. services_none (svc ∷ services) w h.1)

  cleanup_and_exit_listed :
      (w : dp.World)
      → (cleanup_and_exit dp w).0 ≡ (listed (get_services dp w).0 (get_services dp w).1).0
  unfolding cleanup_and_exit
  cleanup_and_exit_listed w =
      elim (get_services dp w).0
        as (λ l.
          (elim l as (λ _. Option String × dp.World) [
            | [] ↦ (some "Get all services error.", (get_services dp w).1)
            | svc ∷ rest ↦ cleanup_services dp (svc ∷ rest) (get_services dp w).1
          ]).0
          ≡ (listed l (get_services dp w).1).0) [ [] ↦ refl | svc ∷ rest ↦ refl ]

  -- CleanupAndExit ends without an error exactly when there is a service and no deletion of a backend
  -- or of a frontend is reported as done: one that the dataplane carries out ends it with an error.
  pub cleanup_and_exit_ok_iff :
      (w : dp.World)
      → ((cleanup_and_exit dp w).0 ≡ none) ↔ (
          (is_empty (get_services dp w).0 ≡ false)
          × NoneDone (get_services dp w).0 (get_services dp w).1)
  cleanup_and_exit_ok_iff w =
      subst
        (λ o. (o ≡ none) ↔ (
          (is_empty (get_services dp w).0 ≡ false)
          × NoneDone (get_services dp w).0 (get_services dp w).1))
        (sym (cleanup_and_exit_listed w)) (listed_ok_iff _ _)
