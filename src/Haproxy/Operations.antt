-- ===== src/Haproxy/Operations.antt =====
-- haproxy/haproxy.go, the operations: each reads the version, builds its URL, and sends one request.
use kube_haproxy.Prelude.{
  String, Bool, false, Option, none, some, List, [], ◌||◌, if◌then◌else◌, is_empty, string_eq,
  ◌+++◌,
}
use kube_haproxy.Haproxy.Action.{◌>>=◌, pure}
use kube_haproxy.Haproxy.Types.{
  Backend, Frontend, Bind, Server, Service, empty_backend, empty_frontend, empty_bind, empty_server,
  backends_path, frontends_path, servers_path, binds_path,
}
use kube_haproxy.Haproxy.Dataplane.{
  Dataplane, Response, method_get, method_post, method_put, a_backend, a_frontend, a_bind, a_server,
}
use kube_haproxy.Haproxy.Handle.{
  Outcome, by_name, handle_error, services_of, index_backends, M, do_request, get_version,
  send_payload, send_delete, named,
}

-- Decoding an answer: the zero value on an error of the request or of either decoding.
abbrev pub decoded : {A : Type 0} → Dataplane → (String → Option A) → A → Response → A
decoded dp decode zero resp = elim resp.err [
  | some _ ↦ zero
  | none ↦ elim (dp.raw_data resp.body) [
    | none ↦ zero
    | some data_entry ↦ elim (decode data_entry) [ none ↦ zero | some a ↦ a ]
  ]
]

module _ (dp : Dataplane) where
  -- EnsureFrontendBind: false if the bind is there, or if the request fails.
  unfoldable pub ensure_frontend_bind : String → String → M dp Bool
  ensure_frontend_bind bind_name frontend_name = do
    resp ← do_request dp method_get (
        named dp binds_path bind_name
        +++ "?parent_type=frontend&parent_name="
        +++ dp.query_escape frontend_name)
    pure (elim resp.err [ some _ ↦ false | none ↦ is_empty (dp.decode_bind_list resp.body) ])

  unfoldable pub ensure_backend : String → M dp Bool
  unfolding handle_error
  ensure_backend name = do
    resp ← do_request dp method_get (named dp backends_path name)
    pure (handle_error resp (by_name name)).0

  unfoldable pub ensure_frontend : String → M dp Bool
  unfolding handle_error
  ensure_frontend name = do
    resp ← do_request dp method_get (named dp frontends_path name)
    pure (handle_error resp (by_name name)).0

  -- EnsureServer: its format has one verb less than arguments, so the backend's name meets "%d".
  unfoldable pub ensure_server : String → String → M dp Bool
  unfolding handle_error get_version
  ensure_server server_name backend_name = do
    v ← get_version dp
    resp ← do_request dp method_get (
        named dp servers_path server_name
        +++ "?version=%!d(string="
        +++ dp.query_escape backend_name
        +++ ")%!(EXTRA int="
        +++ v
        +++ ")")
    pure (handle_error resp (by_name (backend_name +++ ":" +++ server_name))).0

  unfoldable pub ensure_one_bind : String → String → M dp Outcome
  unfolding handle_error get_version
  ensure_one_bind bind_name frontend_name = do
    v ← get_version dp
    resp ← do_request dp method_get (
        named dp binds_path bind_name
        +++ "?parent_type=frontend&frontend="
        +++ dp.query_escape frontend_name
        +++ "&version="
        +++ v)
    pure (handle_error resp (by_name bind_name))

  unfoldable pub add_backend : Backend → M dp Outcome
  unfolding get_version send_payload
  add_backend payload = do
    v ← get_version dp
    send_payload dp method_post (backends_path +++ "?version=" +++ v) (a_backend payload)

  unfoldable pub get_backend : String → M dp Backend
  get_backend name = do
    resp ← do_request dp method_get (named dp backends_path name)
    pure (decoded dp dp.decode_backend empty_backend resp)

  unfoldable pub get_backends : M dp (List Backend)
  get_backends = do
    resp ← do_request dp method_get backends_path
    pure (decoded dp dp.decode_backends [] resp)

  unfoldable pub get_frontends : M dp (List Frontend)
  get_frontends = do
    resp ← do_request dp method_get frontends_path
    pure (decoded dp dp.decode_frontends [] resp)

  unfoldable pub get_services : M dp (List Service)
  unfolding get_backends get_frontends services_of index_backends
  get_services = do
    backends ← get_backends
    frontends ← get_frontends
    pure (
        if is_empty frontends || is_empty backends
        then []
        else services_of frontends (index_backends backends []))

  unfoldable pub delete_backend : String → M dp Bool
  unfolding get_version send_delete
  delete_backend name = do
    v ← get_version dp
    outcome ← send_delete dp (named dp backends_path name +++ "?version=" +++ v) name
    pure outcome.0

  -- ReplaceBackend: its URL is that of the servers.
  unfoldable pub replace_backend : String → Backend → M dp Outcome
  unfolding get_version send_payload
  replace_backend old_name new = do
    v ← get_version dp
    send_payload dp method_put (named dp servers_path old_name +++ "?version=" +++ v)
        (a_backend new)

  unfoldable pub delete_frontend : String → M dp Bool
  unfolding get_version send_delete
  delete_frontend name = do
    v ← get_version dp
    outcome ← send_delete dp (named dp frontends_path name +++ "?version=" +++ v) name
    pure outcome.0

  unfoldable pub add_frontend : Frontend → M dp Outcome
  unfolding get_version send_payload
  add_frontend payload = do
    v ← get_version dp
    send_payload dp method_post (frontends_path +++ "?version=" +++ v) (a_frontend payload)

  unfoldable pub get_frontend : String → M dp Frontend
  get_frontend name = do
    resp ← do_request dp method_get (named dp frontends_path name)
    pure (decoded dp dp.decode_frontend empty_frontend resp)

  -- ReplaceFrontend: it posts where the others put.
  unfoldable pub replace_frontend : Frontend → Frontend → M dp Outcome
  unfolding get_version send_payload
  replace_frontend old new = do
    v ← get_version dp
    send_payload dp method_post (named dp frontends_path old.name +++ "?version=" +++ v)
        (a_frontend new)

  unfoldable pub add_server_to_backend : Server → String → M dp Outcome
  unfolding get_version send_payload
  add_server_to_backend payload backend_name = do
    v ← get_version dp
    send_payload dp method_post
        (servers_path
          +++ "?parent_type=backend&parent_name="
          +++ dp.query_escape backend_name
          +++ "&version="
          +++ v)
        (a_server payload)

  -- DeleteServerFromBackend and GetServer put the server's name into the URL as it is.
  unfoldable pub delete_server_from_backend : String → String → M dp Outcome
  unfolding get_version send_delete
  delete_server_from_backend server_name backend_name = do
    v ← get_version dp
    send_delete dp
        (servers_path
          +++ "/"
          +++ server_name
          +++ "?parent_type=backend&parent_name="
          +++ dp.query_escape backend_name
          +++ "&version="
          +++ v)
        server_name

  unfoldable pub replace_server_from_backend : Server → Server → String → M dp Outcome
  unfolding get_version send_payload
  replace_server_from_backend old new backend_name = do
    v ← get_version dp
    send_payload dp method_put
        (named dp servers_path old.name
          +++ "?parent_type=backend&parent_name="
          +++ dp.query_escape backend_name
          +++ "&version="
          +++ v)
        (a_server new)

  -- GetServers returns its variable after an error of the second decoding.
  unfoldable pub get_servers : String → M dp (List Server)
  get_servers backend_name = do
    resp ←
        do_request dp method_get
          (servers_path +++ "?parent_type=backend&parent_name=" +++ dp.query_escape backend_name)
    pure (elim resp.err [
      | some _ ↦ []
      | none ↦ elim (dp.raw_data resp.body) [
        | none ↦ []
        | some data_entry ↦ dp.decode_servers data_entry
      ]
    ])

  unfoldable pub get_server : String → String → M dp Server
  get_server backend_name srv_name = do
    resp ← do_request dp method_get (
        servers_path
        +++ "/"
        +++ srv_name
        +++ "?parent_type=backend&parent_name="
        +++ dp.query_escape backend_name)
    pure (decoded dp dp.decode_server empty_server resp)

  unfoldable pub unbind_frontend : String → M dp Outcome
  unfolding get_version send_delete
  unbind_frontend bind_name = do
    v ← get_version dp
    send_delete dp
        (binds_path
          +++ "?parent_type=frontend&parent_name="
          +++ dp.query_escape bind_name
          +++ "&version="
          +++ v)
        bind_name

  -- The URL of one bind of a frontend.
  abbrev bind_url : String → String → String
  bind_url bind_name frontend_name =
      named dp binds_path bind_name
      +++ "?parent_type=frontend&frontend="
      +++ dp.query_escape frontend_name

  unfoldable pub get_bind : String → String → M dp Bind
  get_bind bind_name frontend_name = do
    resp ← do_request dp method_get (bind_url bind_name frontend_name)
    pure (decoded dp dp.decode_bind empty_bind resp)

  unfoldable pub add_bind : Bind → String → M dp Outcome
  unfolding get_version send_payload
  add_bind payload frontend_name = do
    v ← get_version dp
    send_payload dp method_post
        (binds_path
          +++ "?parent_type=frontend&frontend="
          +++ dp.query_escape frontend_name
          +++ "&version="
          +++ v)
        (a_bind payload)

  unfoldable pub delete_bind : String → String → M dp Outcome
  unfolding get_version send_delete
  delete_bind bind_name frontend_name = do
    v ← get_version dp
    send_delete dp (bind_url bind_name frontend_name +++ "&version=" +++ v) bind_name

  unfoldable pub replace_bind : String → String → Bind → M dp Outcome
  unfolding get_version send_payload
  replace_bind old_name frontend_name new = do
    v ← get_version dp
    send_payload dp method_put (bind_url old_name frontend_name +++ "&version=" +++ v) (a_bind new)
