-- ===== src/Haproxy/Sync/Entries.antt =====
-- cleanLegacyService on a data plane that deletes what it is told to: what goes, and what stays.
use kube_haproxy.Prelude.{
  String, Bool, true, false, not, none, [], ◌∷◌, ◌≡◌, refl, sym, ap, ◌∙◌, inl, inr, Bool-cases,
  ◌&&◌, if◌then◌else◌, ◌==◌, ==_iff, ==_refl, is_some, get, GoMap, EachEntry, string_eq, ◌+++◌,
  subst,
}
use text.Mathlib.TextLemmas.{append_cancel_left}
use kube_haproxy.Haproxy.Action.{for_each, pure}
use kube_haproxy.Haproxy.Types.{
  Service, frontends_path, backends_path, version_path, frontend_prefix, backend_prefix,
}
use kube_haproxy.Haproxy.Dataplane.{Dataplane, method_get, method_delete}
use kube_haproxy.Haproxy.Handle.{get_version, send_delete, named}
use kube_haproxy.Haproxy.Operations.{delete_frontend, delete_backend}
use kube_haproxy.Haproxy.Sync.{clean_legacy_service, clean_service}
use kube_haproxy.Haproxy.Sync.Store.{bare, version_text}

-- The services of a map have the names that syncProxyRules gives to a frontend and a backend.
abbrev pub OwnNames : String → Service → Type 0
OwnNames name svc =
    (svc.frontend.name ≡ frontend_prefix +++ name) × (svc.backend.name ≡ backend_prefix +++ name)

-- A service that haproxy has and that is not active.
abbrev pub is_legacy : GoMap String Bool → GoMap String Service → String → Bool
is_legacy active current name = is_some (get name current) && not (is_some (get name active))

-- An active service first in the map makes no name legacy; one that is not active makes its own.
legacy-active :
    (active : GoMap String Bool) (name : String) (svc : Service) (current : GoMap String Service)
    (m : String)
    → is_some (get name active) ≡ true
    → is_legacy active ((name, svc) ∷ current) m ≡ is_legacy active current m
unfolding get
legacy-active active name svc current m a = elim (Bool-cases (name == m)) [
  | inl e ↦
      let active_m : is_some (get m active) ≡ true =
        subst (λ n. is_some (get n active) ≡ true) ((==_iff name m).0 e) a in
      rw (active_m, e) (sym (and_false (is_some (get m current))))
  | inr e ↦ rw e refl
]
  where
    and_false : (b : Bool) → (b && false) ≡ false
    and_false true = refl
    and_false false = refl

legacy-inactive :
    (active : GoMap String Bool) (name : String) (svc : Service) (current : GoMap String Service)
    (m : String) (there : Bool)
    → is_some (get name active) ≡ false
    → (if is_legacy active current m then false else (if name == m then false else there))
      ≡ (if is_legacy active ((name, svc) ∷ current) m then false else there)
unfolding get
legacy-inactive active name svc current m there a = elim (Bool-cases (name == m)) [
  | inl e ↦
      let inactive : is_some (get m active) ≡ false =
        subst (λ n. is_some (get n active) ≡ false) ((==_iff name m).0 e) a in
      rw (inactive, e) (either (is_some (get m current) && true))
  | inr e ↦ rw e refl
]
  where
    either : (b : Bool) → (if b then false else false) ≡ false
    either true = refl
    either false = refl

-- An injective function keeps the test of equality.
pub same_image :
    (f : String → String)
    → ((a b : String) → f a ≡ f b → a ≡ b)
    → (a b : String) → (f a == f b) ≡ (a == b)
same_image f inj a b = elim (Bool-cases (a == b)) [
  | inl e ↦ rw ((==_iff a b).0 e) (==_refl (f b) ∙ sym (==_refl b))
  | inr e ↦ elim (Bool-cases (f a == f b)) [
    | inl same ↦ same ∙ sym ((==_iff a b).1 (inj a b ((==_iff (f a) (f b)).0 same)))
    | inr apart ↦ apart ∙ sym e
  ]
]

pub same_prefix : (prefix a b : String) → (prefix +++ a == prefix +++ b) ≡ (a == b)
same_prefix prefix = same_image (λ n. prefix +++ n) (append_cancel_left prefix)

module _ (dp : Dataplane) where
  -- Whether haproxy has a frontend or a backend of a name, and the version of its configuration.
  pub record Rosters : Type 0 where
    pub has_frontend : dp.World → String → Bool
    pub has_backend : dp.World → String → Bool
    pub version_at : dp.World → String

  abbrev pub without : String → Bool → String → Bool
  without gone there name = if gone == name then false else there

  -- What the API documents of a DELETE with the present version: the frontend of that name goes, and so
  -- does the backend whose frontend is gone; the rest stays.
  pub record Deletes (v : Rosters) : Type 0 where
    pub reads_version :
        (w : dp.World)
        → (let (r, w') = dp.send (bare dp method_get version_path) w in
            (r.err ≡ none)
            × (dp.atoi_text r.body ≡ v.version_at w')
            × ((n : String) → v.has_frontend w' n ≡ v.has_frontend w n)
            × ((n : String) → v.has_backend w' n ≡ v.has_backend w n))
    pub deletes_frontend :
        (w : dp.World) (name : String)
        → (let url = named dp frontends_path name +++ "?version=" +++ v.version_at w in
            let w' = (dp.send (bare dp method_delete url) w).1 in
            ((n : String) → v.has_frontend w' n ≡ without name (v.has_frontend w n) n)
            × ((n : String) → v.has_backend w' n ≡ v.has_backend w n))
    pub deletes_backend :
        (w : dp.World) (name : String)
        → v.has_frontend w (frontend_prefix +++ name) ≡ false
        → (let url =
              named dp backends_path (backend_prefix +++ name) +++ "?version=" +++ v.version_at w in
            let w' = (dp.send (bare dp method_delete url) w).1 in
            ((n : String) → v.has_frontend w' n ≡ v.has_frontend w n)
            × ((n : String)
                → v.has_backend w' n ≡ without (backend_prefix +++ name) (v.has_backend w n) n))

  module _ (v : Rosters) (d : Deletes v) where
    version_read :
        (w : dp.World)
        → (let w1 = (dp.send (bare dp method_get version_path) w).1 in
            get_version dp w ≡ (v.version_at w1, w1))
    unfolding get_version
    version_read w =
        let (r, w1) = dp.send (bare dp method_get version_path) w in
        let (e, version, _, _) = d.reads_version w in
        ap {B = String × dp.World} (λ text. (text, w1)) (version_text dp r e ∙ version)

    frontend_deleted :
        (name : String) (w : dp.World)
        → (let w' = (delete_frontend dp name w).1 in
            ((n : String) → v.has_frontend w' n ≡ without name (v.has_frontend w n) n)
            × ((n : String) → v.has_backend w' n ≡ v.has_backend w n))
    unfolding delete_frontend send_delete
    frontend_deleted name w =
        let w1 = (dp.send (bare dp method_get version_path) w).1 in
        let (_, _, f1, b1) = d.reads_version w in
        let url = λ (version : String). named dp frontends_path name +++ "?version=" +++ version in
        let same : (delete_frontend dp name w).1
            ≡ (dp.send (bare dp method_delete (url (v.version_at w1))) w1).1 =
          ap (λ (r : String × dp.World). (dp.send (bare dp method_delete (url r.0)) r.1).1)
            (version_read w) in
        let (f2, b2) = d.deletes_frontend w1 name in
        (
          λ n. ap (λ u. v.has_frontend u n) same ∙ f2 n ∙ ap (λ b. without name b n) (f1 n),
          λ n. ap (λ u. v.has_backend u n) same ∙ b2 n ∙ b1 n,
        )

    backend_deleted :
        (name : String) (w : dp.World)
        → v.has_frontend w (frontend_prefix +++ name) ≡ false
        → (let w' = (delete_backend dp (backend_prefix +++ name) w).1 in
            ((n : String) → v.has_frontend w' n ≡ v.has_frontend w n)
            × ((n : String)
                → v.has_backend w' n ≡ without (backend_prefix +++ name) (v.has_backend w n) n))
    unfolding delete_backend send_delete
    backend_deleted name w gone =
        let w1 = (dp.send (bare dp method_get version_path) w).1 in
        let (_, _, f1, b1) = d.reads_version w in
        let own = backend_prefix +++ name in
        let url = λ (version : String). named dp backends_path own +++ "?version=" +++ version in
        let same : (delete_backend dp own w).1
            ≡ (dp.send (bare dp method_delete (url (v.version_at w1))) w1).1 =
          ap (λ (r : String × dp.World). (dp.send (bare dp method_delete (url r.0)) r.1).1)
            (version_read w) in
        let (f2, b2) = d.deletes_backend w1 name (f1 (frontend_prefix +++ name) ∙ gone) in
        (
          λ n. ap (λ u. v.has_frontend u n) same ∙ f2 n ∙ f1 n,
          λ n. ap (λ u. v.has_backend u n) same ∙ b2 n ∙ ap (λ b. without own b n) (b1 n),
        )

    -- What haproxy has of the service of a name.
    abbrev pub Has : dp.World → String → Bool → Bool → Type 0
    Has w m frontend backend =
        (v.has_frontend w (frontend_prefix +++ m) ≡ frontend)
        × (v.has_backend w (backend_prefix +++ m) ≡ backend)

    -- The loop body on a service that is not active takes away what has its name.
    service_cleaned :
        (name : String) (svc : Service) (w : dp.World) (m : String)
        → OwnNames name svc
        → Has
            (clean_service dp svc w).1
            m
            (if name == m then false else v.has_frontend w (frontend_prefix +++ m))
            (if name == m then false else v.has_backend w (backend_prefix +++ m))
    unfolding clean_service
    service_cleaned name svc w m own =
        let w1 = (delete_frontend dp svc.frontend.name w).1 in
        let (f1, b1) = frontend_deleted svc.frontend.name w in
        let hit : (svc.frontend.name == frontend_prefix +++ name) ≡ true =
          (==_iff svc.frontend.name (frontend_prefix +++ name)).1 own.0 in
        let gone : v.has_frontend w1 (frontend_prefix +++ name) ≡ false =
          f1 (frontend_prefix +++ name)
          ∙ ap (λ b. if b then false else v.has_frontend w (frontend_prefix +++ name)) hit in
        let (f2, b2) =
          subst
            (λ b.
              (let w' = (delete_backend dp b w1).1 in
                ((n : String) → v.has_frontend w' n ≡ v.has_frontend w1 n)
                × ((n : String) → v.has_backend w' n ≡ without b (v.has_backend w1 n) n)))
            (sym own.1) (backend_deleted name w1 gone) in
        let there = v.has_frontend w (frontend_prefix +++ m) in
        let there' = v.has_backend w (backend_prefix +++ m) in
        (
          f2 (frontend_prefix +++ m)
              ∙ f1 (frontend_prefix +++ m)
              ∙ ap (λ t. without t there (frontend_prefix +++ m)) own.0
              ∙ ap (λ b. if b then false else there) (same_prefix frontend_prefix name m),
          b2 (backend_prefix +++ m)
              ∙ ap (λ b. without svc.backend.name b (backend_prefix +++ m))
                  (b1 (backend_prefix +++ m))
              ∙ ap (λ t. without t there' (backend_prefix +++ m)) own.1
              ∙ ap (λ b. if b then false else there') (same_prefix backend_prefix name m),
        )

    -- What a look at the world sees after the turns on the rest of the map.
    abbrev after_rest :
        GoMap String Bool → GoMap String Service → (dp.World → Bool) → Unit {0} × dp.World → Bool
    after_rest active current look r = look (clean_legacy_service dp active current r.1).1

    -- The clean-up after a sync takes away exactly the services that are not active: afterwards haproxy
    -- has no frontend and no backend of the name of a listed service that is not active, and of every
    -- other name, that of an active service included, it has just what it had before. The data plane
    -- deletes what it is told to, and the listed services have the names that a sync gives.
    pub clean_legacy_service_exact :
        (active : GoMap String Bool) (current : GoMap String Service) (w : dp.World) (m : String)
        → EachEntry OwnNames current
        → (let w' = (clean_legacy_service dp active current w).1 in
            Has w' m
              (if is_legacy active current m
                then false
                else v.has_frontend w (frontend_prefix +++ m))
              (if is_legacy active current m
                then false
                else v.has_backend w (backend_prefix +++ m)))
    unfolding clean_legacy_service for_each get
    clean_legacy_service_exact active [] w m h = (refl, refl)
    clean_legacy_service_exact active ((name, svc) ∷ current) w m h =
        elim (Bool-cases (is_some (get name active))) [
          | inl a ↦
              let (f, b) = clean_legacy_service_exact active current w m h.1 in
              let turn : (if is_some (get name active) then pure tt else clean_service dp svc) w
                  ≡ (tt, w) =
                ap (λ c. (if c then pure tt else clean_service dp svc) w) a in
              let legacy = legacy-active active name svc current m a in
              (
                ap (after_rest active current (λ u. v.has_frontend u (frontend_prefix +++ m))) turn
                    ∙ f
                    ∙ ap (λ c. if c then false else v.has_frontend w (frontend_prefix +++ m))
                        (sym legacy),
                ap (after_rest active current (λ u. v.has_backend u (backend_prefix +++ m))) turn
                    ∙ b
                    ∙ ap (λ c. if c then false else v.has_backend w (backend_prefix +++ m))
                        (sym legacy),
              )
          | inr a ↦
              let w1 = (clean_service dp svc w).1 in
              let (f1, b1) = service_cleaned name svc w m h.0 in
              let (f, b) = clean_legacy_service_exact active current w1 m h.1 in
              let turn : (if is_some (get name active) then pure tt else clean_service dp svc) w
                  ≡ clean_service dp svc w =
                ap (λ c. (if c then pure tt else clean_service dp svc) w) a in
              let there = v.has_frontend w (frontend_prefix +++ m) in
              let there' = v.has_backend w (backend_prefix +++ m) in
              (
                ap (after_rest active current (λ u. v.has_frontend u (frontend_prefix +++ m))) turn
                    ∙ f
                    ∙ ap (λ t. if is_legacy active current m then false else t) f1
                    ∙ legacy-inactive active name svc current m there a,
                ap (after_rest active current (λ u. v.has_backend u (backend_prefix +++ m))) turn
                    ∙ b
                    ∙ ap (λ t. if is_legacy active current m then false else t) b1
                    ∙ legacy-inactive active name svc current m there' a,
              )
        ]
