-- ===== src/Haproxy/Sync/Elsewhere.antt =====
-- The requests of a sync that are about other services, and what they leave alone.
use kube_haproxy.Prelude.{String, ◌≡◌, ◌≢◌, refl, sym, subst, ◌∙◌, ◌⊎◌, inl, inr, ◌+++◌, string_eq}
use kube_haproxy.Haproxy.Action.{Action, ◌>>=◌}
use kube_haproxy.Haproxy.Types.{
  HaproxyInfo, Backend, Frontend, Bind, Server, backends_path, frontends_path, binds_path,
  servers_path, version_path,
}
use kube_haproxy.Haproxy.Dataplane.{
  Dataplane, Request, Method, method_get, method_post, method_delete, Payload, a_backend,
  a_frontend, a_bind, a_server,
}
use kube_haproxy.Haproxy.Handle.{Outcome, get_version, send_payload, send_delete}
use kube_haproxy.Haproxy.Sync.Store.{bare, bodied, Views, with_version, send_payload_lem}

module _ (dp : Dataplane) (info : HaproxyInfo) where
  -- The requests of the code that are about none of the three objects of this service: each GET, an
  -- addition of an object of another name, and what is done to the servers of any backend.
  pub data Elsewhere : Request → Type 0 where
    read : (url : String) → Elsewhere (bare dp method_get url)
    other_backend :
        (b : Backend) (version body : String)
        → b.name ≢ info.backend.name
        → dp.marshal (a_backend b) ≡ inr body
        → Elsewhere (bodied dp method_post (backends_path +++ "?version=" +++ version) body)
    other_frontend :
        (f : Frontend) (version body : String)
        → f.name ≢ info.frontend.name
        → dp.marshal (a_frontend f) ≡ inr body
        → Elsewhere (bodied dp method_post (frontends_path +++ "?version=" +++ version) body)
    other_bind :
        (b : Bind) (query body : String)
        → b.name ≢ info.bind.name
        → dp.marshal (a_bind b) ≡ inr body
        → Elsewhere (bodied dp method_post (binds_path +++ query) body)
    new_server :
        (s : Server) (query body : String)
        → dp.marshal (a_server s) ≡ inr body
        → Elsewhere (bodied dp method_post (servers_path +++ query) body)
    old_server : (rest : String) → Elsewhere (bare dp method_delete (servers_path +++ rest))

  module _ (v : Views dp) where
    abbrev pub Same : dp.World → dp.World → Type 0
    Same w w' =
        (v.backend_at w' ≡ v.backend_at w)
        × (v.frontend_at w' ≡ v.frontend_at w)
        × (v.bind_at w' ≡ v.bind_at w)

    -- What the API documents of them: they leave the three objects alone.
    abbrev pub Separates : Type 0
    Separates = (r : Request) → Elsewhere r → (w : dp.World) → Same w (dp.send r w).1

    pub Same-trans : (w w' w'' : dp.World) → Same w w' → Same w' w'' → Same w w''
    Same-trans w w' w'' (b, f, i) (b', f', i') = (b' ∙ b, f' ∙ f, i' ∙ i)

    abbrev pub IsFramed : {A : Type 0} → Action dp.World A → Type 0
    IsFramed m = (w : dp.World) → Same w (m w).1

    pub IsFramed-then :
        {A B : Type 0} (m : Action dp.World A) (k : A → Action dp.World B)
        → IsFramed m
        → ((a : A) → IsFramed (k a))
        → IsFramed (m >>= k)
    IsFramed-then m k f g w = Same-trans w (m w).1 _ (f w) (g (m w).0 (m w).1)

    module _ (s : Separates) where
      get_version-IsFramed : IsFramed (get_version dp)
      unfolding get_version
      get_version-IsFramed w = s _ (read version_path) w

      marshalled :
          (method : Method) (url : String) (payload : Payload) (w : dp.World) (m : String ⊎ String)
          → dp.marshal payload ≡ m
          → ((body : String)
              → dp.marshal payload ≡ inr body
              → Elsewhere (bodied dp method url body))
          → Same w (send_payload dp method url payload w).1
      unfolding send_payload
      marshalled method url payload w (inl e) m h = rw (m, send_payload) (refl, refl, refl)
      marshalled method url payload w (inr body) m h =
          subst (λ (r : Outcome × dp.World). Same w r.1)
            (sym (send_payload_lem dp method url body payload w m)) (s _ (h body m) w)

      -- An operation that sends a payload.
      pub with_version-IsFramed :
          (method : Method) (url : String → String) (payload : Payload)
          → ((version body : String)
              → dp.marshal payload ≡ inr body
              → Elsewhere (bodied dp method (url version) body))
          → IsFramed (with_version dp method url payload)
      with_version-IsFramed method url payload h =
          IsFramed-then (get_version dp) (λ version. send_payload dp method (url version) payload)
            get_version-IsFramed
            (λ version w. marshalled method (url version) payload w _ refl (h version))

      -- An operation that deletes a server.
      pub delete_server-IsFramed :
          (rest : String → String) (name : String)
          → IsFramed
              (get_version dp >>= λ version. send_delete dp (servers_path +++ rest version) name)
      unfolding send_delete
      delete_server-IsFramed rest name =
          IsFramed-then (get_version dp)
            (λ version. send_delete dp (servers_path +++ rest version) name) get_version-IsFramed
            (λ version w. s _ (old_server (rest version)) w)
