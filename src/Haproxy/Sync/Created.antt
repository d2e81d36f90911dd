-- ===== src/Haproxy/Sync/Created.antt =====
-- syncService on a data plane that keeps what it is sent: what is missing is created.
use kube_haproxy.Prelude.{String, Option, none, some, ◌≡◌, ◌≢◌, sym, ap, subst, ◌∙◌, string_eq}
use kube_haproxy.Haproxy.Types.{
  HaproxyInfo, empty_backend, empty_frontend, empty_bind, backend_eq, frontend_eq, bind_eq,
}
use kube_haproxy.Haproxy.Dataplane.{Dataplane}
use kube_haproxy.Haproxy.Sync.{
  sync_service, sync_backend, sync_frontend, sync_bind, then_unless_error,
}
use kube_haproxy.Haproxy.Sync.Settled.{then_none}
use kube_haproxy.Haproxy.Sync.Store.{Views, Keeps}
use kube_haproxy.Haproxy.Sync.Made.{
  AbsentOr, Made, backend-Made, frontend-Made, bind-Made, BackendKept, FrontendKept, BindKept,
}

module _ (dp : Dataplane) (info : HaproxyInfo) (v : Views dp) (k : Keeps dp info v) where
  no_error : (r : Option String × dp.World) → r.0 ≡ none → r ≡ (none, r.1)
  no_error r e = ap {B = Option String × dp.World} (λ o. (o, r.1)) e

  -- What the three parts make, one after the other, where syncService comes to the last.
  abbrev Parts : dp.World → Type 0
  Parts w =
      let r1 = sync_backend dp info.backend w in
      let r2 = sync_frontend dp info.frontend r1.1 in
      let r3 = sync_bind dp info.bind info.frontend.name r2.1 in
      Made dp info v k v.backend_at empty_backend info.backend (BackendKept dp info v k w) r1
      × Made dp info v k v.frontend_at empty_frontend info.frontend (FrontendKept dp info v k r1.1)
          r2
      × Made dp info v k v.bind_at empty_bind info.bind (BindKept dp info v k r2.1) r3
      × (sync_service dp info w ≡ r3)

  -- None of the objects that the service calls for is a zero value.
  abbrev pub Nonzero : Type 0
  Nonzero =
      (info.backend ≢ empty_backend) × (info.frontend ≢ empty_frontend) × (info.bind ≢ empty_bind)

  abbrev pub MissingOrRight : dp.World → Type 0
  MissingOrRight w =
      AbsentOr info.backend (v.backend_at w)
      × AbsentOr info.frontend (v.frontend_at w)
      × AbsentOr info.bind (v.bind_at w)

  sync_service-Parts : (w : dp.World) → Nonzero → MissingOrRight w → Parts w
  unfolding sync_service
  sync_service-Parts w (nb, nf, ni) (hb, hf, hi) =
      let r1 = sync_backend dp info.backend w in
      let made1 = backend-Made dp info v k w nb hb in
      let (e1, b1, (f1, i1)) = made1 in
      let r2 = sync_frontend dp info.frontend r1.1 in
      let made2 =
        frontend-Made dp info v k r1.1 nf b1 (subst (AbsentOr info.frontend) (sym f1) hf) in
      let (e2, f2, (b2, i2)) = made2 in
      let made3 =
        bind-Made dp info v k r2.1 ni f2 (subst (AbsentOr info.bind) (sym (i2 ∙ i1)) hi) in
      (
        made1,
        made2,
        made3,
        then_none dp (sync_backend dp info.backend)
              (then_unless_error dp (sync_frontend dp info.frontend)
                (sync_bind dp info.bind info.frontend.name))
              w r1.1 (no_error r1 e1)
            ∙ then_none dp (sync_frontend dp info.frontend)
                (sync_bind dp info.bind info.frontend.name) r1.1 r2.1 (no_error r2 e2),
      )

  -- Where each object is missing or right, syncService comes to the bind, past parts that have left
  -- the objects after them alone.
  pub sync_service-in_steps :
      (w : dp.World)
      → Nonzero
      → MissingOrRight w
      → (let w1 = (sync_backend dp info.backend w).1 in
          let w2 = (sync_frontend dp info.frontend w1).1 in
          (v.frontend_at w1 ≡ v.frontend_at w)
          × (v.bind_at w2 ≡ v.bind_at w)
          × (sync_service dp info w ≡ sync_bind dp info.bind info.frontend.name w2))
  sync_service-in_steps w n h =
      let ((_, _, (f1, i1)), (_, _, (_, i2)), _, all) = sync_service-Parts w n h in
      (f1, i2 ∙ i1, all)

  -- On a data plane that keeps what it is sent: where each of the backend, the frontend and the bind
  -- of a service is missing or is as the service calls for it, syncService reports no error, and
  -- haproxy has all three as the service calls for them afterwards. None of the three is a zero value.
  pub sync_service-creates :
      (w : dp.World)
      → info.backend ≢ empty_backend
      → info.frontend ≢ empty_frontend
      → info.bind ≢ empty_bind
      → AbsentOr info.backend (v.backend_at w)
      → AbsentOr info.frontend (v.frontend_at w)
      → AbsentOr info.bind (v.bind_at w)
      → (let (e, w') = sync_service dp info w in
          (e ≡ none)
          × (v.backend_at w' ≡ some info.backend)
          × (v.frontend_at w' ≡ some info.frontend)
          × (v.bind_at w' ≡ some info.bind))
  sync_service-creates w nb nf ni hb hf hi =
      let ((_, b1, _), (_, f2, (b2, _)), (e3, i3, (b3, f3)), all) =
        sync_service-Parts w (nb, nf, ni) (hb, hf, hi) in
      subst
        (λ (r : Option String × dp.World).
          (r.0 ≡ none)
          × (v.backend_at r.1 ≡ some info.backend)
          × (v.frontend_at r.1 ≡ some info.frontend)
          × (v.bind_at r.1 ≡ some info.bind))
        (sym all) (e3, b3 ∙ b2 ∙ b1, f3 ∙ f2, i3)
