-- ===== src/Scenarios/Cleaning.antt =====
-- A data plane that deletes what it is told to, and one that lists two services.
use kube_haproxy.Prelude.{
  String, Bool, true, false, none, some, [], ◌∷◌, ◌≡◌, ◌≢◌, refl, sym, ap, ◌∙◌, ◌==◌, ==_iff,
  string_eq, if◌then◌else◌, deciding, ◌+++◌, EachEntry, IsNodup, get, GoMap, Bool-cases, inl, inr,
  to_lower,
}
use text.Mathlib.TextLemmas.{append_cancel_left, append_cancel_right, append_assoc}
use kube_haproxy.Haproxy.Types.{Service, frontends_path, backends_path, backend_prefix}
use kube_haproxy.Haproxy.Dataplane.{
  Dataplane, Request, Response, method_get, method_post, method_put, method_delete,
}
use kube_haproxy.Haproxy.Operations.{get_services, get_backends, get_frontends}
use kube_haproxy.Haproxy.Sync.{clean_legacy_service}
use kube_haproxy.Haproxy.Sync.Entries.{
  OwnNames, is_legacy, same_image, Rosters, Deletes, Has, clean_legacy_service_exact,
}
use kube_haproxy.Haproxy.Proxier.{haproxy_info, backend_entry, frontend_entry}
use kube_haproxy.Haproxy.Proxier.Listed.{
  Called, frontends_for, backends_for, service_for, services_for, Outside, get_services-called,
}
use kube_haproxy.Haproxy.Proxier.Names.{starts_outside, starts_outside-append}
use kube_haproxy.Scenarios.Maps.{config}
use kube_haproxy.Scenarios.Parts.{answering}
use kube_haproxy.Scenarios.Planes.{info_of}

-- Which frontends and which backends are there.
abbrev Kept : Type 0
Kept = (String → Bool) × (String → Bool)

abbrev frontend_at : String → String
frontend_at name = (frontends_path +++ "/" +++ name) +++ "?version=" +++ "1"

abbrev backend_at : String → String
backend_at name = (backends_path +++ "/" +++ name) +++ "?version=" +++ "1"

abbrev serve : Request → Kept → Response × Kept
serve request (frontends, backends) = elim request.method [
  | method_get ↦ (record { err = none; code = 200; body = "1" }, (frontends, backends))
  | method_post ↦ (record { err = none; code = 202; body = "" }, (frontends, backends))
  | method_put ↦ (record { err = none; code = 202; body = "" }, (frontends, backends))
  | method_delete ↦ (
    record { err = none; code = 204; body = "" },
    (
      λ n. if request.url == frontend_at n then false else frontends n,
      λ n. if request.url == backend_at n then false else backends n,
    ),
  )
]

abbrev deleting : Dataplane
deleting = record (answering 200) { World = Kept; send = serve }

abbrev rosters : Rosters deleting
rosters = record { has_frontend = λ w n. w.0 n; has_backend = λ w n. w.1 n; version_at = λ w. "1" }

same_frontend : (a b : String) → (frontend_at a == frontend_at b) ≡ (a == b)
same_frontend = same_image frontend_at (λ a b e.
    append_cancel_left "/" a b
      (append_cancel_left frontends_path _ _ (append_cancel_right _ _ ("?version=" +++ "1") e)))

same_backend : (a b : String) → (backend_at a == backend_at b) ≡ (a == b)
same_backend = same_image backend_at (λ a b e.
    append_cancel_left "/" a b
      (append_cancel_left backends_path _ _ (append_cancel_right _ _ ("?version=" +++ "1") e)))

abbrev path : String
path = "/v2/services/haproxy/configuration/"

starts_apart : starts_outside "frontends" "frontends" ≢ starts_outside "frontends" "backends"
unfolding deciding
starts_apart e = cc e

kinds_apart : (a b : String) → frontend_at a ≢ backend_at b
kinds_apart a b e =
    let v = "?version=" +++ "1" in
    let x = ("/" +++ a) +++ v in
    let y = ("/" +++ b) +++ v in
    let flat : frontends_path +++ x ≡ backends_path +++ y =
      sym (append_assoc frontends_path ("/" +++ a) v)
      ∙ e
      ∙ append_assoc backends_path ("/" +++ b) v in
    let rest : "frontends" +++ x ≡ "backends" +++ y =
      append_cancel_left path _ _
        (sym (append_assoc path "frontends" x) ∙ flat ∙ append_assoc path "backends" y) in
    starts_apart (
      sym (starts_outside-append "frontends" x "frontends" (λ f. cc))
      ∙ ap (starts_outside "frontends") rest
      ∙ starts_outside-append "backends" y "frontends" (λ f. cc))

apart : (a b : String) → a ≢ b → (a == b) ≡ false
apart a b n = elim (Bool-cases (a == b)) [ inl e ↦ absurd (n ((==_iff a b).0 e)) | inr e ↦ e ]

deletes : Deletes deleting rosters
deletes = record {
  reads_version = λ w. (refl, refl, (λ n. refl), (λ n. refl));
  deletes_frontend = λ w name. (
    λ n. ap (λ b. if b then false else w.0 n) (same_frontend name n),
    λ n. ap (λ b. if b then false else w.1 n) (apart _ _ (kinds_apart name n)),
  );
  deletes_backend = λ w name gone. (
    λ n.
        ap (λ b. if b then false else w.0 n)
          (apart _ _ (λ e. kinds_apart n (backend_prefix +++ name) (sym e))),
    λ n. ap (λ b. if b then false else w.1 n) (same_backend (backend_prefix +++ name) n),
  );
}

-- The two services that haproxy has; only the second is active.
abbrev called : Called config
called = ("shop.web.http", info_of 80) ∷ ("shop.mail.smtp", info_of 25) ∷ []

abbrev current : GoMap String Service
current =
    ("shop.web.http", service_for config "shop.web.http" (info_of 80))
    ∷ ("shop.mail.smtp", service_for config "shop.mail.smtp" (info_of 25))
    ∷ []

abbrev active : GoMap String Bool
active = ("shop.mail.smtp", true) ∷ []

current-OwnNames : EachEntry OwnNames current
unfolding haproxy_info backend_entry frontend_entry deciding to_lower
current-OwnNames = ((refl, refl), ((refl, refl), tt))

abbrev all_there : Kept
all_there = (λ n. true, λ n. true)

clean_legacy_service_exact_example :
    (let w' = (clean_legacy_service deleting active current all_there).1 in
      Has deleting rosters deletes w' "shop.web.http"
        (if is_legacy active current "shop.web.http" then false else true)
        (if is_legacy active current "shop.web.http" then false else true))
clean_legacy_service_exact_example =
    clean_legacy_service_exact deleting rosters deletes active current all_there "shop.web.http"
      current-OwnNames

web_is_legacy : is_legacy active current "shop.web.http" ≡ true
unfolding deciding get
web_is_legacy = refl

mail_stays : is_legacy active current "shop.mail.smtp" ≡ false
unfolding deciding get
mail_stays = refl

-- A data plane that lists what the two services call for.
abbrev listing : Dataplane
listing = record (answering 200) {
  raw_data = λ body. some body;
  decode_backends = λ entry. some (backends_for config called);
  decode_frontends = λ entry. some (frontends_for config called);
}

called-IsNodup : IsNodup called
unfolding deciding get
called-IsNodup = (refl, (refl, tt))

called-Outside : EachEntry (Outside config) called
unfolding deciding
called-Outside = ((refl, refl), ((refl, refl), tt))

abbrev after_backends : listing.World
after_backends = (get_backends listing []).1

get_services-called_example :
    get_services listing [] ≡ (services_for config called, (get_frontends listing after_backends).1)
unfolding get_backends get_frontends
get_services-called_example =
    get_services-called config listing called [] after_backends
      (get_frontends listing after_backends).1 called-IsNodup called-Outside refl refl
