-- ===== src/Haproxy/Sync/Store.antt =====
-- A data plane that keeps what it is sent, for the three objects of one service: what the API documents
-- of the requests that syncService makes.
use kube_haproxy.Prelude.{
  String, true, Option, none, some, ◌≡◌, refl, ◌∙◌, ap, ◌⊎◌, inl, inr, ◌+++◌, string_eq,
}
use kube_haproxy.Haproxy.Action.{Action, ◌>>=◌}
use kube_haproxy.Haproxy.Types.{
  HaproxyInfo, Backend, Frontend, Bind, empty_backend, empty_frontend, empty_bind, backends_path,
  frontends_path, version_path, binds_path,
}
use kube_haproxy.Haproxy.Dataplane.{
  Dataplane, Request, Response, Method, method_get, method_post, Payload, a_backend, a_frontend,
  a_bind,
}
use kube_haproxy.Haproxy.Handle.{
  Outcome, Resource, by_pointer, handle_error, get_version, send_payload, named,
}
use kube_haproxy.Haproxy.Handle.Errors.{handle_error-IsDone_iff}
use kube_haproxy.Haproxy.Operations.{decoded}

abbrev pub stored : {A : Type 0} → A → Option A → A
stored zero none = zero
stored zero (some a) = a

-- 201, or 202 where haproxy reloads later.
abbrev pub Accepted : Response → Type 0
Accepted r = (r.err ≡ none) × ((r.code ≡ 201) ⊎ (r.code ≡ 202))

pub handle_error-Accepted :
    (r : Response) (res : Resource) → Accepted r → handle_error r res ≡ (true, none)
handle_error-Accepted r res (e, inl c) = (handle_error-IsDone_iff r res).1 (e, inr (inr (inl c)))
handle_error-Accepted r res (e, inr c) = (handle_error-IsDone_iff r res).1 (e, inr (inr (inr c)))

module _ (dp : Dataplane) where
  abbrev pub bare : Method → String → Request
  bare method url = record { method = method; url = url; body = none }

  abbrev pub bodied : Method → String → String → Request
  bodied method url body = record { method = method; url = url; body = some body }

  -- The objects of the names that a service calls for, and the version of the configuration.
  pub record Views : Type 0 where
    pub backend_at : dp.World → Option Backend
    pub frontend_at : dp.World → Option Frontend
    pub bind_at : dp.World → Option Bind
    pub version_at : dp.World → String

  abbrev pub Unchanged : Views → dp.World → dp.World → Type 0
  Unchanged v w w' =
      (v.backend_at w' ≡ v.backend_at w)
      × (v.frontend_at w' ≡ v.frontend_at w)
      × (v.bind_at w' ≡ v.bind_at w)
      × (v.version_at w' ≡ v.version_at w)

  abbrev pub backend_url : HaproxyInfo → String
  backend_url info = named dp backends_path info.backend.name

  abbrev pub frontend_url : HaproxyInfo → String
  frontend_url info = named dp frontends_path info.frontend.name

  abbrev pub bind_url : HaproxyInfo → String
  bind_url info =
      named dp binds_path info.bind.name
      +++ "?parent_type=frontend&frontend="
      +++ dp.query_escape info.frontend.name

  abbrev pub add_bind_url : HaproxyInfo → String → String
  add_bind_url info version =
      binds_path
      +++ "?parent_type=frontend&frontend="
      +++ dp.query_escape info.frontend.name
      +++ "&version="
      +++ version

  -- What the API documents, for a service in a mode that haproxy has (TCP or HTTP, not UDP).
  -- A GET answers with the object, or with the zero value where there is none, and changes nothing; a
  -- POST with the present version adds the object where there is none of its name and its parent is
  -- there, and touches neither of the others.
  pub record Keeps (info : HaproxyInfo) (v : Views) : Type 0 where
    pub marshals : (payload : Payload) → (body : String) × (dp.marshal payload ≡ inr body)
    pub reads_version :
        (w : dp.World)
        → (let (r, w') = dp.send (bare method_get version_path) w in
            (r.err ≡ none) × (dp.atoi_text r.body ≡ v.version_at w') × Unchanged v w w')
    pub reads_backend :
        (w : dp.World)
        → (let (r, w') = dp.send (bare method_get (backend_url info)) w in
            (decoded dp dp.decode_backend empty_backend r ≡ stored empty_backend (v.backend_at w))
            × Unchanged v w w')
    pub reads_frontend :
        (w : dp.World)
        → (let (r, w') = dp.send (bare method_get (frontend_url info)) w in
            (decoded dp dp.decode_frontend empty_frontend r
              ≡ stored empty_frontend (v.frontend_at w))
            × Unchanged v w w')
    pub reads_bind :
        (w : dp.World)
        → (let (r, w') = dp.send (bare method_get (bind_url info)) w in
            (decoded dp dp.decode_bind empty_bind r ≡ stored empty_bind (v.bind_at w))
            × Unchanged v w w')
    pub adds_backend :
        (w : dp.World) (body : String)
        → dp.marshal (a_backend info.backend) ≡ inr body
        → v.backend_at w ≡ none
        → (let (r, w') =
              dp.send
                (bodied method_post (backends_path +++ "?version=" +++ v.version_at w) body)
                w in
            Accepted r
            × (v.backend_at w' ≡ some info.backend)
            × (v.frontend_at w' ≡ v.frontend_at w)
            × (v.bind_at w' ≡ v.bind_at w))
    pub adds_frontend :
        (w : dp.World) (body : String)
        → dp.marshal (a_frontend info.frontend) ≡ inr body
        → v.backend_at w ≡ some info.backend
        → v.frontend_at w ≡ none
        → (let (r, w') =
              dp.send
                (bodied method_post (frontends_path +++ "?version=" +++ v.version_at w) body)
                w in
            Accepted r
            × (v.backend_at w' ≡ v.backend_at w)
            × (v.frontend_at w' ≡ some info.frontend)
            × (v.bind_at w' ≡ v.bind_at w))
    pub adds_bind :
        (w : dp.World) (body : String)
        → dp.marshal (a_bind info.bind) ≡ inr body
        → v.frontend_at w ≡ some info.frontend
        → v.bind_at w ≡ none
        → (let (r, w') = dp.send (bodied method_post (add_bind_url info (v.version_at w)) body) w in
            Accepted r
            × (v.backend_at w' ≡ v.backend_at w)
            × (v.frontend_at w' ≡ v.frontend_at w)
            × (v.bind_at w' ≡ some info.bind))

  -- The operations that send a payload, for the URL that they build from the version.
  abbrev pub with_version : Method → (String → String) → Payload → Action dp.World Outcome
  with_version method url payload = do
    version ← get_version dp
    send_payload dp method (url version) payload

  pub version_text :
      (r : Response)
      → r.err ≡ none
      → (elim r.err [ some _ ↦ "-1" | none ↦ dp.atoi_text r.body ]) ≡ dp.atoi_text r.body
  version_text r e = rw e refl

  get_version_lem :
      {info : HaproxyInfo} {v : Views} (k : Keeps info v) (w : dp.World)
      → (let w1 = (dp.send (bare method_get version_path) w).1 in
          get_version dp w ≡ (v.version_at w1, w1))
  unfolding get_version
  get_version_lem k w =
      let (r, w1) = dp.send (bare method_get version_path) w in
      let (e, version, _) = k.reads_version w in
      ap {B = String × dp.World} (λ text. (text, w1)) (version_text r e ∙ version)

  pub send_payload_lem :
      (method : Method) (url body : String) (payload : Payload) (w : dp.World)
      → dp.marshal payload ≡ inr body
      → (let (r, w') = dp.send (bodied method url body) w in
          send_payload dp method url payload w ≡ (handle_error r (by_pointer payload), w'))
  unfolding send_payload
  send_payload_lem method url body payload w m = rw (m, send_payload) refl

  -- What they send, and what they make of the answer.
  pub with_version-sends :
      {info : HaproxyInfo} {v : Views} (k : Keeps info v) (method : Method) (url : String → String)
      (payload : Payload) (body : String) (w : dp.World)
      → dp.marshal payload ≡ inr body
      → (let w1 = (dp.send (bare method_get version_path) w).1 in
          let (r, w2) = dp.send (bodied method (url (v.version_at w1)) body) w1 in
          with_version method url payload w ≡ (handle_error r (by_pointer payload), w2))
  with_version-sends {v = v} k method url payload body w m =
      let w1 = (dp.send (bare method_get version_path) w).1 in
      ap {B = Outcome × dp.World}
        (λ (r : String × dp.World). send_payload dp method (url r.0) payload r.1)
        (get_version_lem k w)
      ∙ send_payload_lem method (url (v.version_at w1)) body payload w1 m
