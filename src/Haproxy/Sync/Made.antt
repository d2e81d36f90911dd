-- ===== src/Haproxy/Sync/Made.antt =====
-- The three parts of syncService on a data plane that keeps what it is sent.
use kube_haproxy.Prelude.{
  String, Option, none, some, true, ◌≡◌, ◌≢◌, refl, sym, ap, subst, ◌∙◌, ==_refl, string_eq, ◌⊎◌,
  inl, inr, ◌+++◌, deciding,
}
use kube_haproxy.Haproxy.Action.{Action}
use kube_haproxy.Haproxy.Types.{
  HaproxyInfo, empty_backend, empty_frontend, empty_bind, backend_eq, frontend_eq, bind_eq,
  backends_path, frontends_path, version_path,
}
use kube_haproxy.Haproxy.Dataplane.{
  Dataplane, method_get, method_post, Payload, a_backend, a_frontend, a_bind,
}
use kube_haproxy.Haproxy.Handle.{Outcome, by_pointer}
use kube_haproxy.Haproxy.Operations.{
  get_backend, get_frontend, get_bind, add_backend, add_frontend, add_bind,
}
use kube_haproxy.Haproxy.Sync.{
  sync_backend, sync_frontend, sync_bind, fit_backend, fit_frontend, fit_bind, add_error,
}
use kube_haproxy.Haproxy.Sync.Settled.{fit_backend_settled, fit_frontend_settled, fit_bind_settled}
use kube_haproxy.Haproxy.Sync.Store.{
  stored, Accepted, handle_error-Accepted, bare, bodied, Views, Keeps, add_bind_url, with_version,
  with_version-sends,
}

-- The object is missing, or there as it should be.
abbrev pub AbsentOr : {A : Type 0} → A → Option A → Type 0
AbsentOr a o = (o ≡ none) ⊎ (o ≡ some a)

module _ (dp : Dataplane) (info : HaproxyInfo) (v : Views dp) (k : Keeps dp info v) where
  W : Type 0
  W = dp.World

  -- What syncService does with the outcome of an addition.
  abbrev pub checked : Outcome × dp.World → Option String × dp.World
  checked (outcome, w) = (add_error outcome, w)

  module _ {A : Type 0} (look : dp.World → Option A) (zero wanted : A)
      (Kept : dp.World → Type 0) where
    -- No error, the object is there, and the rest is as it was.
    abbrev pub Made : Option String × dp.World → Type 0
    Made r = (r.0 ≡ none) × (look r.1 ≡ some wanted) × Kept r.1

    -- One part of syncService after its Get: it adds what is missing, and leaves what is right.
    fit-Made :
        (fit : A → Action dp.World (Option String)) (url : String → String) (payload : Payload)
        (body : String) (g : A) (w w1 : dp.World)
        → dp.marshal payload ≡ inr body
        → g ≡ stored zero (look w)
        → AbsentOr wanted (look w)
        → fit zero w1 ≡ checked (with_version dp method_post url payload w1)
        → fit wanted w1 ≡ (none, w1)
        → (look w ≡ some wanted → (look w1 ≡ some wanted) × Kept w1)
        → (look w ≡ none
            → (let w2 = (dp.send (bare dp method_get version_path) w1).1 in
                let (r, w3) = dp.send (bodied dp method_post (url (v.version_at w2)) body) w2 in
                Accepted r × (look w3 ≡ some wanted) × Kept w3))
        → Made (fit g w1)
    fit-Made fit url payload body g w w1 m get (inl absent) adds leaves kept added =
        let w2 = (dp.send (bare dp method_get version_path) w1).1 in
        let (r, w3) = dp.send (bodied dp method_post (url (v.version_at w2)) body) w2 in
        let (accepted, there, others) = added absent in
        let sent : with_version dp method_post url payload w1 ≡ ((true, none), w3) =
          with_version-sends dp k method_post url payload body w1 m
          ∙ ap {B = Outcome × dp.World} (λ o. (o, w3))
              (handle_error-Accepted r (by_pointer payload) accepted) in
        let all : fit g w1 ≡ (none, w3) =
          ap (λ a. fit a w1) (get ∙ ap (stored zero) absent) ∙ adds ∙ ap checked sent in
        subst Made (sym all) (refl, there, others)
    fit-Made fit url payload body g w w1 m get (inr right) adds leaves kept added =
        let all : fit g w1 ≡ (none, w1) =
          ap (λ a. fit a w1) (get ∙ ap (stored zero) right) ∙ leaves in
        subst Made (sym all) (refl, (kept right).0, (kept right).1)

  pub fit_backend_absent :
      (w : dp.World)
      → fit_backend dp info.backend empty_backend w ≡ checked (add_backend dp info.backend w)
  unfolding fit_backend deciding
  fit_backend_absent w = rw (==_refl empty_backend) refl

  pub fit_frontend_absent :
      (w : dp.World)
      → fit_frontend dp info.frontend empty_frontend w ≡ checked (add_frontend dp info.frontend w)
  unfolding fit_frontend deciding
  fit_frontend_absent w = rw (==_refl empty_frontend) refl

  pub fit_bind_absent :
      (w : dp.World)
      → fit_bind dp info.bind info.frontend.name empty_bind w
        ≡ checked (add_bind dp info.bind info.frontend.name w)
  unfolding fit_bind
  fit_bind_absent w = rw (==_refl empty_bind) refl

  abbrev pub BackendKept : dp.World → dp.World → Type 0
  BackendKept w w' = (v.frontend_at w' ≡ v.frontend_at w) × (v.bind_at w' ≡ v.bind_at w)

  pub backend-Made :
      (w : dp.World)
      → info.backend ≢ empty_backend
      → AbsentOr info.backend (v.backend_at w)
      → Made v.backend_at empty_backend info.backend
          (BackendKept w)
          (sync_backend dp info.backend w)
  unfolding sync_backend get_backend add_backend
  backend-Made w n h =
      let (body, m) = k.marshals (a_backend info.backend) in
      let (get, (b, f, i, _)) = k.reads_backend w in
      let w1 = (get_backend dp info.backend.name w).1 in
      let w2 = (dp.send (bare dp method_get version_path) w1).1 in
      let (_, _, (b2, f2, i2, _)) = k.reads_version w1 in
      fit-Made v.backend_at empty_backend info.backend (BackendKept w) (fit_backend dp info.backend)
        (λ version. backends_path +++ "?version=" +++ version) (a_backend info.backend) body
        (get_backend dp info.backend.name w).0 w w1 m get h (fit_backend_absent w1)
        (fit_backend_settled dp info.backend w1 n) (λ e. (b ∙ e, (f, i)))
        (λ e.
          let (r, there, f3, i3) = k.adds_backend w2 body m (b2 ∙ b ∙ e) in
          (r, there, (f3 ∙ f2 ∙ f, i3 ∙ i2 ∙ i)))

  abbrev pub FrontendKept : dp.World → dp.World → Type 0
  FrontendKept w w' = (v.backend_at w' ≡ v.backend_at w) × (v.bind_at w' ≡ v.bind_at w)

  pub frontend-Made :
      (w : dp.World)
      → info.frontend ≢ empty_frontend
      → v.backend_at w ≡ some info.backend
      → AbsentOr info.frontend (v.frontend_at w)
      → Made v.frontend_at empty_frontend info.frontend
          (FrontendKept w)
          (sync_frontend dp info.frontend w)
  unfolding sync_frontend get_frontend add_frontend
  frontend-Made w n parent h =
      let (body, m) = k.marshals (a_frontend info.frontend) in
      let (get, (b, f, i, _)) = k.reads_frontend w in
      let w1 = (get_frontend dp info.frontend.name w).1 in
      let w2 = (dp.send (bare dp method_get version_path) w1).1 in
      let (_, _, (b2, f2, i2, _)) = k.reads_version w1 in
      fit-Made v.frontend_at empty_frontend info.frontend (FrontendKept w)
        (fit_frontend dp info.frontend) (λ version. frontends_path +++ "?version=" +++ version)
        (a_frontend info.frontend) body (get_frontend dp info.frontend.name w).0 w w1 m get h
        (fit_frontend_absent w1) (fit_frontend_settled dp info.frontend w1 n) (λ e. (f ∙ e, (b, i)))
        (λ e.
          let (r, b3, there, i3) = k.adds_frontend w2 body m (b2 ∙ b ∙ parent) (f2 ∙ f ∙ e) in
          (r, there, (b3 ∙ b2 ∙ b, i3 ∙ i2 ∙ i)))

  abbrev pub BindKept : dp.World → dp.World → Type 0
  BindKept w w' = (v.backend_at w' ≡ v.backend_at w) × (v.frontend_at w' ≡ v.frontend_at w)

  pub bind-Made :
      (w : dp.World)
      → info.bind ≢ empty_bind
      → v.frontend_at w ≡ some info.frontend
      → AbsentOr info.bind (v.bind_at w)
      → Made v.bind_at empty_bind info.bind
          (BindKept w)
          (sync_bind dp info.bind info.frontend.name w)
  unfolding sync_bind get_bind add_bind
  bind-Made w n parent h =
      let (body, m) = k.marshals (a_bind info.bind) in
      let (get, (b, f, i, _)) = k.reads_bind w in
      let w1 = (get_bind dp info.bind.name info.frontend.name w).1 in
      let w2 = (dp.send (bare dp method_get version_path) w1).1 in
      let (_, _, (b2, f2, i2, _)) = k.reads_version w1 in
      fit-Made v.bind_at empty_bind info.bind (BindKept w)
        (fit_bind dp info.bind info.frontend.name) (add_bind_url dp info) (a_bind info.bind) body
        (get_bind dp info.bind.name info.frontend.name w).0 w w1 m get h (fit_bind_absent w1)
        (fit_bind_settled dp info.bind info.frontend.name w1 n) (λ e. (i ∙ e, (b, f)))
        (λ e.
          let (r, b3, f3, there) = k.adds_bind w2 body m (f2 ∙ f ∙ parent) (i2 ∙ i ∙ e) in
          (r, there, (b3 ∙ b2 ∙ b, f3 ∙ f2 ∙ f)))
