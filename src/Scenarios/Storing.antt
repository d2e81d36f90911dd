-- ===== src/Scenarios/Storing.antt =====
-- A data plane that keeps the backend, the frontend and the bind of one service.
use kube_haproxy.Prelude.{
  ℕ, String, Bool, true, false, Option, none, some, ◌≡◌, ◌≢◌, refl, ap, ◌==◌, string_eq, inl, inr,
  if◌then◌else◌, deciding, ◌+++◌, arith,
}
use kube_haproxy.Haproxy.Types.{Backend, Frontend, Bind, empty_backend, empty_frontend, empty_bind}
use kube_haproxy.Haproxy.Dataplane.{
  Dataplane, Request, Response, method_get, method_post, method_put, method_delete,
}
use kube_haproxy.Haproxy.Handle.Errors.{IsDone}
use kube_haproxy.Haproxy.Operations.{decoded}
use kube_haproxy.Haproxy.Sync.{sync_service}
use kube_haproxy.Haproxy.Sync.Created.{sync_service-creates}
use kube_haproxy.Haproxy.Sync.Replaced.{RefusesServer, sync_service-keeps_changed}
use kube_haproxy.Haproxy.Sync.Store.{Views, Keeps, stored}
use kube_haproxy.Scenarios.Parts.{answering}
use kube_haproxy.Scenarios.Rules.{dns_info}

abbrev old : Backend
old = record dns_info.backend { mode = "http" }

data Entry : Type 0 where
  absent wanted stale : Entry

record Kept : Type 0 where
  backend : Entry
  frontend : Bool
  bind : Bool

abbrev answer : ℕ → String → Response
answer code body = record { err = none; code = code; body = body }

abbrev found : Bool → Response
found true = answer 200 "wanted"
found false = answer 404 ""

abbrev found_backend : Entry → Response
found_backend absent = answer 404 ""
found_backend wanted = answer 200 "wanted"
found_backend stale = answer 200 "stale"

abbrev config : String
config = "/v2/services/haproxy/configuration/"

abbrev serve : Request → Kept → Response × Kept
serve request w = elim request.method [
  | method_get ↦ (
    if request.url == config +++ "version"
        then answer 200 "1"
        else if request.url == config +++ "backends/BACKEND.dns"
        then found_backend w.backend
        else if request.url == config +++ "frontends/FRONTEND.dns"
        then found w.frontend
        else found w.bind,
    w,
  )
  | method_post ↦
      if request.url == config +++ "backends?version=1"
      then (answer 202 "", record w { backend = wanted })
      else if request.url == config +++ "frontends?version=1"
      then (answer 202 "", record w { frontend = true })
      else (answer 202 "", record w { bind = true })
  | method_put ↦ (answer 422 "", w)
  | method_delete ↦ (answer 404 "", w)
]

abbrev when_wanted : {A : Type 0} → A → String → Option A
when_wanted a entry = if entry == "wanted" then some a else none

abbrev keeping : Dataplane
keeping = record (answering 200) {
  World = Kept;
  send = serve;
  marshal = λ payload. inr "payload";
  raw_data = λ body. some body;
  decode_backend =
      λ entry. if entry == "stale" then some old else when_wanted dns_info.backend entry;
  decode_frontend = when_wanted dns_info.frontend;
  decode_bind = when_wanted dns_info.bind;
}

abbrev backend_of : Entry → Option Backend
backend_of absent = none
backend_of wanted = some dns_info.backend
backend_of stale = some old

abbrev held : {A : Type 0} → A → Bool → Option A
held a true = some a
held a false = none

abbrev views : Views keeping
views = record {
  backend_at = λ w. backend_of w.backend;
  frontend_at = λ w. held dns_info.frontend w.frontend;
  bind_at = λ w. held dns_info.bind w.bind;
  version_at = λ w. "1";
}

reads_backend :
    (e : Entry)
    → decoded keeping keeping.decode_backend empty_backend (found_backend e)
      ≡ stored empty_backend (backend_of e)
unfolding deciding
reads_backend absent = refl
reads_backend wanted = refl
reads_backend stale = refl

reads :
    {A : Type 0} (zero a : A) (b : Bool)
    → decoded keeping (when_wanted a) zero (found b) ≡ stored zero (held a b)
unfolding deciding
reads zero a true = refl
reads zero a false = refl

keeps : Keeps keeping dns_info views
unfolding deciding
keeps = record {
  marshals = λ payload. ("payload", refl);
  reads_version = λ w. (refl, refl, (refl, refl, refl, refl));
  reads_backend = λ w. (reads_backend w.backend, (refl, refl, refl, refl));
  reads_frontend =
      λ w. (reads empty_frontend dns_info.frontend w.frontend, (refl, refl, refl, refl));
  reads_bind = λ w. (reads empty_bind dns_info.bind w.bind, (refl, refl, refl, refl));
  adds_backend = λ w body m e. ((refl, inr refl), refl, refl, refl);
  adds_frontend = λ w body m p e. ((refl, inr refl), refl, refl, refl);
  adds_bind = λ w body m p e. ((refl, inr refl), refl, refl, refl);
}

backend_nonzero : dns_info.backend ≢ empty_backend
backend_nonzero e = cc (ap (λ (b : Backend). b.check_timeout) e)

-- Only the frontend is there yet.
abbrev half_made : Kept
half_made = record { backend = absent; frontend = true; bind = false }

sync_service-creates_example :
    (let (e, w') = sync_service keeping dns_info half_made in
      (e ≡ none)
      × (views.backend_at w' ≡ some dns_info.backend)
      × (views.frontend_at w' ≡ some dns_info.frontend)
      × (views.bind_at w' ≡ some dns_info.bind))
sync_service-creates_example =
    sync_service-creates keeping dns_info views keeps half_made backend_nonzero
      (λ e. cc (ap (λ (f : Frontend). f.mode) e)) (λ e. cc (ap (λ (b : Bind). b.port) e)) (inl refl)
      (inr refl) (inl refl)

abbrev outdated : Kept
outdated = record { backend = stale; frontend = true; bind = false }

refuses : RefusesServer keeping dns_info views keeps old
refuses w body = (not_done, (refl, refl, refl, refl))
  where
    not_done : ¬ IsDone 422
    not_done h = ground (arith, h)

old_is_http : (old.mode == "udp") ≡ false
unfolding deciding
old_is_http = refl

sync_service-keeps_changed_example :
    (let (e, w') = sync_service keeping dns_info outdated in
      (e ≢ none)
      × (views.backend_at w' ≡ some old)
      × (views.frontend_at w' ≡ views.frontend_at outdated)
      × (views.bind_at w' ≡ views.bind_at outdated))
sync_service-keeps_changed_example =
    sync_service-keeps_changed keeping dns_info views keeps old outdated refuses refl old_is_http
      (λ e. cc (ap (λ (b : Backend). b.check_timeout) e)) (λ e. cc (ap (λ (b : Backend). b.mode) e))
