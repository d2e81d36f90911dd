-- ===== src/Haproxy/Sync/Framed.antt =====
-- syncService of one service leaves the objects of another as they are.
use kube_haproxy.Prelude.{
  String, Option, none, ◌≡◌, ◌≢◌, refl, sym, ap, subst, ◌∙◌, inl, inr, ◌+++◌, string_eq,
}
use kube_haproxy.Haproxy.Action.{Action}
use kube_haproxy.Haproxy.Types.{
  HaproxyInfo, Backend, Frontend, Bind, server_eq, backends_path, frontends_path, binds_path,
  empty_backend, empty_frontend, empty_bind,
}
use kube_haproxy.Haproxy.Dataplane.{Dataplane, method_post, a_backend, a_frontend, a_bind}
use kube_haproxy.Haproxy.Handle.{Outcome}
use kube_haproxy.Haproxy.Graceful.{srv_item_eq}
use kube_haproxy.Haproxy.Operations.{
  get_backend, get_frontend, get_bind, add_backend, add_frontend, add_bind,
}
use kube_haproxy.Haproxy.Sync.{
  sync_service, sync_backend, sync_frontend, sync_bind, fit_backend, fit_frontend, fit_bind,
}
use kube_haproxy.Haproxy.Sync.Settled.{fit_backend_settled, fit_frontend_settled, fit_bind_settled}
use kube_haproxy.Haproxy.Sync.Store.{stored, Views, Keeps}
use kube_haproxy.Haproxy.Sync.Created.{Nonzero, MissingOrRight, sync_service-in_steps}
use kube_haproxy.Haproxy.Sync.Made.{
  AbsentOr, checked, fit_backend_absent, fit_frontend_absent, fit_bind_absent,
}
use kube_haproxy.Haproxy.Sync.Elsewhere.{
  Same, Same-trans, Separates, IsFramed, read, other_backend, other_frontend, other_bind,
  with_version-IsFramed,
}

-- The service that is looked at, and how the data plane separates it from the others.
module _ (dp : Dataplane) (info : HaproxyInfo) (v : Views dp) (s : Separates dp info v) where
  add_backend-IsFramed :
      (b : Backend) → b.name ≢ info.backend.name → IsFramed dp info v (add_backend dp b)
  unfolding add_backend
  add_backend-IsFramed b n =
      with_version-IsFramed dp info v s method_post
        (λ version. backends_path +++ "?version=" +++ version) (a_backend b)
        (λ version body m. other_backend b version body n m)

  add_frontend-IsFramed :
      (f : Frontend) → f.name ≢ info.frontend.name → IsFramed dp info v (add_frontend dp f)
  unfolding add_frontend
  add_frontend-IsFramed f n =
      with_version-IsFramed dp info v s method_post
        (λ version. frontends_path +++ "?version=" +++ version) (a_frontend f)
        (λ version body m. other_frontend f version body n m)

  abbrev bind_query : String → String → String
  bind_query frontend_name version =
      "?parent_type=frontend&frontend="
      +++ dp.query_escape frontend_name
      +++ "&version="
      +++ version

  add_bind-IsFramed :
      (b : Bind) (frontend_name : String)
      → b.name ≢ info.bind.name
      → IsFramed dp info v (add_bind dp b frontend_name)
  unfolding add_bind
  add_bind-IsFramed b frontend_name n =
      with_version-IsFramed dp info v s method_post
        (λ version. binds_path +++ bind_query frontend_name version) (a_bind b)
        (λ version body m. other_bind b (bind_query frontend_name version) body n m)

  -- Another service, whose objects are missing or right.
  module _ (other : HaproxyInfo) (u : Views dp) (k : Keeps dp other u) where
    -- One part of syncService after its Get.
    fit-Same :
        {A : Type 0} (fit : A → Action dp.World (Option String)) (m : Action dp.World Outcome)
        (g zero wanted : A) (o : Option A) (w : dp.World)
        → g ≡ stored zero o
        → AbsentOr wanted o
        → fit zero w ≡ checked dp other u k (m w)
        → fit wanted w ≡ (none, w)
        → IsFramed dp info v m
        → Same dp info v w (fit g w).1
    fit-Same fit m g zero wanted o w get (inl absent) adds leaves framed =
        subst (λ (r : Option String × dp.World). Same dp info v w r.1)
          (sym (ap (λ a. fit a w) (get ∙ ap (stored zero) absent) ∙ adds)) (framed w)
    fit-Same fit m g zero wanted o w get (inr right) adds leaves framed =
        subst (λ (r : Option String × dp.World). Same dp info v w r.1)
          (sym (ap (λ a. fit a w) (get ∙ ap (stored zero) right) ∙ leaves)) (refl, refl, refl)

    -- The objects of the other service have other names.
    abbrev pub Apart : Type 0
    Apart =
        (other.backend.name ≢ info.backend.name)
        × (other.frontend.name ≢ info.frontend.name)
        × (other.bind.name ≢ info.bind.name)

    backend-Same :
        (w : dp.World)
        → other.backend ≢ empty_backend
        → other.backend.name ≢ info.backend.name
        → AbsentOr other.backend (u.backend_at w)
        → Same dp info v w (sync_backend dp other.backend w).1
    unfolding sync_backend get_backend
    backend-Same w n a h =
        let w1 = (get_backend dp other.backend.name w).1 in
        Same-trans dp info v w w1 _ (s _ (read _) w) (
          fit-Same (fit_backend dp other.backend) (add_backend dp other.backend) _ empty_backend
            other.backend (u.backend_at w) w1 (k.reads_backend w).0 h
            (fit_backend_absent dp other u k w1) (fit_backend_settled dp other.backend w1 n)
            (add_backend-IsFramed other.backend a))

    frontend-Same :
        (w : dp.World)
        → other.frontend ≢ empty_frontend
        → other.frontend.name ≢ info.frontend.name
        → AbsentOr other.frontend (u.frontend_at w)
        → Same dp info v w (sync_frontend dp other.frontend w).1
    unfolding sync_frontend get_frontend
    frontend-Same w n a h =
        let w1 = (get_frontend dp other.frontend.name w).1 in
        Same-trans dp info v w w1 _ (s _ (read _) w) (
          fit-Same (fit_frontend dp other.frontend) (add_frontend dp other.frontend) _
            empty_frontend other.frontend (u.frontend_at w) w1 (k.reads_frontend w).0 h
            (fit_frontend_absent dp other u k w1) (fit_frontend_settled dp other.frontend w1 n)
            (add_frontend-IsFramed other.frontend a))

    bind-Same :
        (w : dp.World)
        → other.bind ≢ empty_bind
        → other.bind.name ≢ info.bind.name
        → AbsentOr other.bind (u.bind_at w)
        → Same dp info v w (sync_bind dp other.bind other.frontend.name w).1
    unfolding sync_bind get_bind
    bind-Same w n a h =
        let w1 = (get_bind dp other.bind.name other.frontend.name w).1 in
        Same-trans dp info v w w1 _ (s _ (read _) w) (
          fit-Same (fit_bind dp other.bind other.frontend.name)
            (add_bind dp other.bind other.frontend.name) _ empty_bind other.bind (u.bind_at w) w1
            (k.reads_bind w).0 h (fit_bind_absent dp other u k w1)
            (fit_bind_settled dp other.bind other.frontend.name w1 n)
            (add_bind-IsFramed other.bind other.frontend.name a))

    pub sync_service-Same :
        (w : dp.World)
        → Nonzero dp other u k
        → Apart
        → MissingOrRight dp other u k w
        → Same dp info v w (sync_service dp other w).1
    sync_service-Same w n (ab, af, ai) h =
        let (nb, nf, ni) = n in
        let (hb, hf, hi) = h in
        let (f1, i2, all) = sync_service-in_steps dp other u k w n h in
        let w1 = (sync_backend dp other.backend w).1 in
        let w2 = (sync_frontend dp other.frontend w1).1 in
        let third = bind-Same w2 ni ai (subst (AbsentOr other.bind) (sym i2) hi) in
        Same-trans dp info v w w1 _ (backend-Same w nb ab hb) (
          Same-trans dp info v w1 w2 _
            (frontend-Same w1 nf af (subst (AbsentOr other.frontend) (sym f1) hf))
            (subst (λ (r : Option String × dp.World). Same dp info v w2 r.1) (sym all) third))
