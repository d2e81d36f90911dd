-- ===== src/Haproxy/Sync/Settled.antt =====
-- syncService: what it leaves alone.
use kube_haproxy.Prelude.{
  String, Option, none, some, ◌≡◌, ◌≢◌, refl, ap, ◌∙◌, ◌==◌, ==_iff, ==_refl, string_eq, Bool-cases,
  inl, inr,
}
use kube_haproxy.Haproxy.Action.{Action}
use kube_haproxy.Haproxy.Types.{
  HaproxyInfo, Backend, Frontend, Bind, empty_backend, empty_frontend, empty_bind, backend_eq,
  frontend_eq, bind_eq,
}
use kube_haproxy.Haproxy.Dataplane.{Dataplane}
use kube_haproxy.Haproxy.Operations.{get_backend, get_frontend, get_bind}
use kube_haproxy.Haproxy.Sync.{
  sync_service, sync_backend, sync_frontend, sync_bind, fit_backend, fit_frontend, fit_bind,
  then_unless_error,
}

module _ (dp : Dataplane) where
  pub then_none :
      (first second : Action dp.World (Option String)) (w w1 : dp.World)
      → first w ≡ (none, w1)
      → then_unless_error dp first second w ≡ second w1
  then_none first second w w1 e =
      ap {B = Option String × dp.World}
        (λ (r : Option String × dp.World). elim r.0 [
          | some text ↦ (some text, r.1)
          | none ↦ second r.1
        ])
        e

  pub fit_backend_settled :
      (b : Backend) (w : dp.World) → b ≢ empty_backend → fit_backend dp b b w ≡ (none, w)
  unfolding fit_backend
  fit_backend_settled b w n = elim (Bool-cases (b.mode == "udp")) [
    | inl p ↦ rw p refl
    | inr p ↦ elim (Bool-cases (b == empty_backend)) [
      | inl e ↦ absurd (n ((==_iff b empty_backend).0 e))
      | inr e ↦ rw (p, e, ==_refl b) refl
    ]
  ]

  pub fit_frontend_settled :
      (f : Frontend) (w : dp.World) → f ≢ empty_frontend → fit_frontend dp f f w ≡ (none, w)
  unfolding fit_frontend
  fit_frontend_settled f w n = elim (Bool-cases (f.mode == "udp")) [
    | inl p ↦ rw p refl
    | inr p ↦ elim (Bool-cases (f == empty_frontend)) [
      | inl e ↦ absurd (n ((==_iff f empty_frontend).0 e))
      | inr e ↦ rw (p, e, ==_refl f) refl
    ]
  ]

  pub fit_bind_settled :
      (b : Bind) (frontend_name : String) (w : dp.World)
      → b ≢ empty_bind
      → fit_bind dp b frontend_name b w ≡ (none, w)
  unfolding fit_bind
  fit_bind_settled b frontend_name w n = elim (Bool-cases (b == empty_bind)) [
    | inl e ↦ absurd (n ((==_iff b empty_bind).0 e))
    | inr e ↦ rw (e, ==_refl b) refl
  ]

  backend_settled :
      (b : Backend) (w w1 : dp.World)
      → b ≢ empty_backend
      → get_backend dp b.name w ≡ (b, w1)
      → sync_backend dp b w ≡ (none, w1)
  unfolding sync_backend
  backend_settled b w w1 n g =
      ap (λ (r : Backend × dp.World). fit_backend dp b r.0 r.1) g ∙ fit_backend_settled b w1 n

  frontend_settled :
      (f : Frontend) (w w1 : dp.World)
      → f ≢ empty_frontend
      → get_frontend dp f.name w ≡ (f, w1)
      → sync_frontend dp f w ≡ (none, w1)
  unfolding sync_frontend
  frontend_settled f w w1 n g =
      ap (λ (r : Frontend × dp.World). fit_frontend dp f r.0 r.1) g ∙ fit_frontend_settled f w1 n

  bind_settled :
      (b : Bind) (frontend_name : String) (w w1 : dp.World)
      → b ≢ empty_bind
      → get_bind dp b.name frontend_name w ≡ (b, w1)
      → sync_bind dp b frontend_name w ≡ (none, w1)
  unfolding sync_bind
  bind_settled b frontend_name w w1 n g =
      ap (λ (r : Bind × dp.World). fit_bind dp b frontend_name r.0 r.1) g
      ∙ fit_bind_settled b frontend_name w1 n

  -- Where haproxy answers the three Gets with just the backend, the frontend and the bind that the
  -- service calls for, and none of these is the zero value, syncService sends nothing but the three
  -- Gets, and reports no error.
  pub sync_service_settled :
      (info : HaproxyInfo) (w w1 w2 w3 : dp.World)
      → info.backend ≢ empty_backend
      → info.frontend ≢ empty_frontend
      → info.bind ≢ empty_bind
      → get_backend dp info.backend.name w ≡ (info.backend, w1)
      → get_frontend dp info.frontend.name w1 ≡ (info.frontend, w2)
      → get_bind dp info.bind.name info.frontend.name w2 ≡ (info.bind, w3)
      → sync_service dp info w ≡ (none, w3)
  unfolding sync_service
  sync_service_settled info w w1 w2 w3 nb nf ni gb gf gi =
      then_none (sync_backend dp info.backend)
        (then_unless_error dp (sync_frontend dp info.frontend)
          (sync_bind dp info.bind info.frontend.name))
        w w1 (backend_settled info.backend w w1 nb gb)
      ∙ then_none (sync_frontend dp info.frontend) (sync_bind dp info.bind info.frontend.name) w1 w2
          (frontend_settled info.frontend w1 w2 nf gf)
      ∙ bind_settled info.bind info.frontend.name w2 w3 ni gi
