-- ===== src/Haproxy/Handle.antt =====
-- haproxy/haproxy.go: the operations of HaproxyHandle, each as an action on the world behind the data
-- plane API. The mutex of the handle makes each action atomic; the logs are left out.
pub mod Errors
use kube_haproxy.Prelude.{
  ℕ, String, Bool, true, false, not, Option, none, some, List, [], ◌∷◌, ◌≡◌, refl, ◌&&◌, ◌||◌, ◌==◌,
  DecEq, if◌then◌else◌, inl, inr, ◌⊎◌, string_eq, nat_eq, is_empty, GoMap, get, put, ◌+++◌, trim,
}
use kube_haproxy.Haproxy.Action.{Action, ◌>>=◌, ◌>>◌, pure}
use kube_haproxy.Haproxy.Types.{
  Backend, Frontend, Bind, Server, Service, empty_backend, empty_frontend, empty_bind, empty_server,
  backends_path, frontends_path, servers_path, version_path, binds_path, only_fetch,
}
use kube_haproxy.Haproxy.Dataplane.{
  Dataplane, Request, Response, Method, method_get, method_post, method_put, method_delete, Payload,
  a_backend, a_frontend, a_bind, a_server,
}

-- The pair that most operations return: a flag and an error, with nil as none.
abbrev pub Outcome : Type 0
Outcome = Bool × Option String

-- The argument `res` of handleError by its dynamic type. The handlers pass names and pointers; the
-- structs by value, which the type switch looks for, are never passed.
pub data Resource : Type 0 where
  by_name : String → Resource
  by_bind : Bind → Resource
  by_frontend : Frontend → Resource
  by_backend : Backend → Resource
  by_server : Server → Resource
  by_pointer : Payload → Resource

-- log204, log400, log404 and log409: the messages that become errors.
-- The message of a Bind on 400 keeps the verb that Sprintf leaves in it; no handler passes a Bind.
unfoldable pub log204 : Resource → String
log204 (by_name name) = "The resource " +++ name +++ " deleted.\n"
log204 _ = ""

unfoldable pub log400 : Resource → String
log400 (by_name name) = ""
log400 (by_bind b) = "Bad request bind: bind\n%!(EXTRA string=" +++ b.name +++ ")"
log400 (by_frontend f) = "Bad request frontend: " +++ f.name +++ "\n"
log400 (by_backend b) = "Bad request backend: " +++ b.name +++ "\n"
log400 (by_server s) = "Bad request server: " +++ s.name +++ "\n"
log400 (by_pointer p) = ""

abbrev not_found : String → String
not_found name = "The specified resource was not found " +++ name +++ "\n"

unfoldable pub log404 : Resource → String
log404 (by_name name) = "The specified resource " +++ name +++ " was not found\n"
log404 (by_bind b) = "The specified resource " +++ b.name +++ " was not found \n"
log404 (by_frontend f) = not_found f.name
log404 (by_backend b) = not_found b.name
log404 (by_server s) = not_found s.name
log404 (by_pointer p) = ""

abbrev already_exists : String → String
already_exists name = "The specified resource " +++ name +++ " already exists.\n"

unfoldable pub log409 : Resource → String
log409 (by_name name) = ""
log409 (by_bind b) = already_exists b.name
log409 (by_frontend f) = already_exists f.name
log409 (by_backend b) = already_exists b.name
log409 (by_server s) = already_exists s.name
log409 (by_pointer p) = ""

-- handleError: the switch on the status code. fmt.Errorf of a message without verbs is the message.
unfoldable pub handle_error : Response → Resource → Outcome
unfolding log204 log400 log404 log409
handle_error response res = elim response.err [
  | some e ↦ (false, some e)
  | none ↦
      if response.code == 0
      then (true, none)
      else if response.code == 200
      then (true, none)
      else if response.code == 201
      then (true, none)
      else if response.code == 202
      then (true, none)
      else if response.code == 204
      then (true, some (log204 res))
      else if response.code == 400
      then (false, some (log400 res))
      else if response.code == 404
      then (false, some (log404 res))
      else if response.code == 409
      then (true, some (log409 res))
      else (false, some ("Unkown error, " +++ response.body))
]

-- The loop of GetServices over the backends: bs[item.Name] = *item.
unfoldable pub index_backends : List Backend → GoMap String Backend → GoMap String Backend
index_backends [] bs = bs
index_backends (b ∷ backends) bs = index_backends backends (put b.name b bs)

abbrev pub backend_or_empty : String → GoMap String Backend → Backend
backend_or_empty name bs = elim (get name bs) [ none ↦ empty_backend | some b ↦ b ]

-- The loop of GetServices over the frontends.
unfoldable pub services_of : List Frontend → GoMap String Backend → List Service
services_of [] bs = []
services_of (f ∷ frontends) bs =
    let rest = services_of frontends bs in
    if f.name == "stats"
    then rest
    else record {
      name = trim f.name "FRONTEND.";
      frontend = f;
      backend = backend_or_empty f.default_backend bs;
    }
      ∷ rest

module _ (dp : Dataplane) where
  abbrev pub M : Type 0 → Type 0
  M A = Action dp.World A

  -- request.Path(url).METHOD().Do, without and with a body
  abbrev pub do_request : Method → String → M Response
  do_request method url = dp.send (record { method = method; url = url; body = none })

  abbrev pub do_request_with_body : Method → String → String → M Response
  do_request_with_body method url body =
      dp.send (record { method = method; url = url; body = some body })

  -- getVersion, as the text that "%d" prints: -1 if the request fails.
  unfoldable pub get_version : M String
  get_version = do
    resp ← do_request method_get version_path
    pure (elim resp.err [ some _ ↦ "-1" | none ↦ dp.atoi_text resp.body ])

  -- The part that the mutating operations share: marshal, send, and read the answer.
  unfoldable pub send_payload : Method → String → Payload → M Outcome
  unfolding handle_error
  send_payload method url payload = elim (dp.marshal payload) [
    | inl e ↦ pure (false, some e)
    | inr body ↦ do
      resp ← do_request_with_body method url body
      pure (handle_error resp (by_pointer payload))
  ]

  unfoldable pub send_delete : String → String → M Outcome
  unfolding handle_error
  send_delete url name = do
    resp ← do_request method_delete url
    pure (handle_error resp (by_name name))

  abbrev pub named : String → String → String
  named path name = path +++ "/" +++ dp.query_escape name
