-- ===== src/Scenarios/Planes/Apart.antt =====
-- The data plane keeps the objects of each of the two services, and keeps them apart.
use kube_haproxy.Prelude.{
  String, Bool, true, false, Option, none, some, ◌≡◌, ◌≢◌, refl, sym, ap, subst, ◌==◌, ==_iff,
  string_eq, inl, inr, if◌then◌else◌, if_keeps, Bool-cases, deciding, ◌||◌, ◌∙◌,
}
use kube_haproxy.Api.{service_port_name_eq}
use kube_haproxy.Haproxy.Types.{
  HaproxyInfo, Backend, Frontend, Bind, empty_backend, empty_frontend, empty_bind, server_eq,
}
use kube_haproxy.Haproxy.Dataplane.{Response, Payload, a_backend, a_frontend, a_bind, a_server}
use kube_haproxy.Haproxy.Graceful.{srv_item_eq}
use kube_haproxy.Haproxy.Operations.{decoded}
use kube_haproxy.Haproxy.Sync.Elsewhere.{
  Separates, Same, read, other_backend, other_frontend, other_bind, new_server, old_server,
}
use kube_haproxy.Haproxy.Sync.Store.{Keeps, stored, backend_url, frontend_url, bind_url}
use kube_haproxy.Scenarios.Planes.{
  web_object, mail_object, Kept, tag, text_of, found, look, keep, plane, held, view,
}

reads :
    {A : Type 0} (decode : String → Option A) (zero a : A) (text : String) (b : Bool)
    → decode text ≡ some a
    → decode "" ≡ none
    → decoded plane decode zero (found text b) ≡ stored zero (held a b)
reads decode zero a text true e e' = rw e refl
reads decode zero a text false e e' = rw e' refl

-- A text that is none of the three changes nothing of them when it is kept.
module _ (obj : HaproxyInfo) (backend frontend bind : String) where
  abbrev Foreign : String → Type 0
  Foreign body =
      ((backend == body) ≡ false) × ((frontend == body) ≡ false) × ((bind == body) ≡ false)

  keep-Same :
      (body : String) (w : Kept)
      → Foreign body
      → Same plane obj (view obj backend frontend bind) w (keep (some body) w)
  keep-Same body w (b, f, i) = (
    ap (λ t. held obj.backend (t || w backend)) b,
    ap (λ t. held obj.frontend (t || w frontend)) f,
    ap (λ t. held obj.bind (t || w bind)) i,
  )

  other_name : (name own : String) → name ≢ own → (name == own) ≡ false
  other_name name own n = elim (Bool-cases (name == own)) [
    | inl e ↦ absurd (n ((==_iff name own).0 e))
    | inr e ↦ e
  ]

  tag-first :
      (first text second text' name : String)
      → name ≢ first
      → Foreign text'
      → Foreign "other"
      → Foreign (tag first text second text' name)
  tag-first first text second text' name n f f' =
      rw (other_name name first n) (if_keeps Foreign (name == second) _ _ f f')

  tag-second :
      (first text second text' name : String)
      → name ≢ second
      → Foreign text
      → Foreign "other"
      → Foreign (tag first text second text' name)
  tag-second first text second text' name n f f' =
      if_keeps Foreign (name == first) _ _ f
        (subst (λ b. Foreign (if b then text' else "other")) (sym (other_name name second n)) f')

same_text :
    (payload : Payload) (body : String) → plane.marshal payload ≡ inr body → text_of payload ≡ body
same_text payload body m = cc m

-- A text that is neither of two others.
abbrev Two : String → String → String → Type 0
Two own text text' = ((text == own) ≡ false) × ((text' == own) ≡ false)

-- What the two services have to show to be kept apart: the texts of their objects, and the answers to
-- the Gets.
pub record IsKept (obj : HaproxyInfo) (backend frontend bind : String) : Type 0 where
  backend_text : text_of (a_backend obj.backend) ≡ backend
  frontend_text : text_of (a_frontend obj.frontend) ≡ frontend
  bind_text : text_of (a_bind obj.bind) ≡ bind
  backend_read : plane.decode_backend backend ≡ some obj.backend
  frontend_read : plane.decode_frontend frontend ≡ some obj.frontend
  bind_read : plane.decode_bind bind ≡ some obj.bind
  backend_found : (w : Kept) → look (backend_url plane obj) w ≡ found backend (w backend)
  frontend_found : (w : Kept) → look (frontend_url plane obj) w ≡ found frontend (w frontend)
  bind_found : (w : Kept) → look (bind_url plane obj) w ≡ found bind (w bind)
  backend_own : Two backend frontend bind
  frontend_own : Two frontend backend bind
  bind_own : Two bind backend frontend
  other_backends :
      (b : Backend)
      → b.name ≢ obj.backend.name
      → Foreign obj backend frontend bind (text_of (a_backend b))
  other_frontends :
      (f : Frontend)
      → f.name ≢ obj.frontend.name
      → Foreign obj backend frontend bind (text_of (a_frontend f))
  other_binds :
      (b : Bind) → b.name ≢ obj.bind.name → Foreign obj backend frontend bind (text_of (a_bind b))
  servers : Foreign obj backend frontend bind "other"

module _ (obj : HaproxyInfo) (backend frontend bind : String)
    (h : IsKept obj backend frontend bind) where
  pub object-Separates : Separates plane obj (view obj backend frontend bind)
  object-Separates r (read url) w = (refl, refl, refl)
  object-Separates r (other_backend b version body n m) w =
      keep-Same obj backend frontend bind body w (
        subst (Foreign obj backend frontend bind) (same_text (a_backend b) body m)
          (h.other_backends b n))
  object-Separates r (other_frontend f version body n m) w =
      keep-Same obj backend frontend bind body w (
        subst (Foreign obj backend frontend bind) (same_text (a_frontend f) body m)
          (h.other_frontends f n))
  object-Separates r (other_bind b query body n m) w =
      keep-Same obj backend frontend bind body w (
        subst (Foreign obj backend frontend bind) (same_text (a_bind b) body m) (h.other_binds b n))
  object-Separates r (new_server server query body m) w =
      keep-Same obj backend frontend bind body w
        (subst (Foreign obj backend frontend bind) (same_text (a_server server) body m) h.servers)
  object-Separates r (old_server rest) w = (refl, refl, refl)

  -- The answer to a Get of one of the objects.
  object_read :
      {A : Type 0} (decode : String → Option A) (zero a : A) (text : String) (r : Response)
      (b : Bool)
      → r ≡ found text b
      → decode text ≡ some a
      → decode "" ≡ none
      → decoded plane decode zero r ≡ stored zero (held a b)
  object_read decode zero a text r b f e e' =
      ap (decoded plane decode zero) f ∙ reads decode zero a text b e e'

  -- Keeping one of the texts brings its object, and nothing else.
  kept_own :
      {A : Type 0} (a : A) (text body : String) (w : Kept)
      → text ≡ body
      → held a (text == body || w text) ≡ some a
  kept_own a text body w e = rw ((==_iff text body).1 e) refl

  kept_other :
      {A : Type 0} (a : A) (own text body : String) (w : Kept)
      → own ≡ body
      → (text == own) ≡ false
      → held a (text == body || w text) ≡ held a (w text)
  kept_other a own text body w e n =
      subst (λ c. held a (text == c || w text) ≡ held a (w text)) e (rw n refl)

  pub object-Keeps : Keeps plane obj (view obj backend frontend bind)
  unfolding deciding
  object-Keeps = record {
    marshals = λ payload. (text_of payload, refl);
    reads_version = λ w. (refl, refl, (refl, refl, refl, refl));
    reads_backend = λ w. (
      object_read plane.decode_backend empty_backend obj.backend backend _ (w backend)
          (h.backend_found w) h.backend_read refl,
      (refl, refl, refl, refl),
    );
    reads_frontend = λ w. (
      object_read plane.decode_frontend empty_frontend obj.frontend frontend _ (w frontend)
          (h.frontend_found w) h.frontend_read refl,
      (refl, refl, refl, refl),
    );
    reads_bind = λ w. (
      object_read plane.decode_bind empty_bind obj.bind bind _ (w bind) (h.bind_found w) h.bind_read
          refl,
      (refl, refl, refl, refl),
    );
    adds_backend = λ w body m e.
        let own = sym h.backend_text ∙ same_text (a_backend obj.backend) body m in
        (
          (refl, inr refl),
          kept_own obj.backend backend body w own,
          kept_other obj.frontend backend frontend body w own h.backend_own.0,
          kept_other obj.bind backend bind body w own h.backend_own.1,
        );
    adds_frontend = λ w body m p e.
        let own = sym h.frontend_text ∙ same_text (a_frontend obj.frontend) body m in
        (
          (refl, inr refl),
          kept_other obj.backend frontend backend body w own h.frontend_own.0,
          kept_own obj.frontend frontend body w own,
          kept_other obj.bind frontend bind body w own h.frontend_own.1,
        );
    adds_bind = λ w body m p e.
        let own = sym h.bind_text ∙ same_text (a_bind obj.bind) body m in
        (
          (refl, inr refl),
          kept_other obj.backend bind backend body w own h.bind_own.0,
          kept_other obj.frontend bind frontend body w own h.bind_own.1,
          kept_own obj.bind bind body w own,
        );
  }

pub web-IsKept : IsKept web_object "web backend" "web frontend" "web bind"
unfolding deciding
web-IsKept = record {
  backend_text = refl;
  frontend_text = refl;
  bind_text = refl;
  backend_read = refl;
  frontend_read = refl;
  bind_read = refl;
  backend_found = λ w. refl;
  frontend_found = λ w. refl;
  bind_found = λ w. refl;
  backend_own = (refl, refl);
  frontend_own = (refl, refl);
  bind_own = (refl, refl);
  other_backends =
      λ b n. tag-first web_object _ _ _ _ _ _ _ b.name n (refl, refl, refl) (refl, refl, refl);
  other_frontends =
      λ f n. tag-first web_object _ _ _ _ _ _ _ f.name n (refl, refl, refl) (refl, refl, refl);
  other_binds =
      λ b n. tag-first web_object _ _ _ _ _ _ _ b.name n (refl, refl, refl) (refl, refl, refl);
  servers = (refl, refl, refl);
}

pub mail-IsKept : IsKept mail_object "mail backend" "mail frontend" "mail bind"
unfolding deciding
mail-IsKept = record {
  backend_text = refl;
  frontend_text = refl;
  bind_text = refl;
  backend_read = refl;
  frontend_read = refl;
  bind_read = refl;
  backend_found = λ w. refl;
  frontend_found = λ w. refl;
  bind_found = λ w. refl;
  backend_own = (refl, refl);
  frontend_own = (refl, refl);
  bind_own = (refl, refl);
  other_backends =
      λ b n. tag-second mail_object _ _ _ _ _ _ _ b.name n (refl, refl, refl) (refl, refl, refl);
  other_frontends =
      λ f n. tag-second mail_object _ _ _ _ _ _ _ f.name n (refl, refl, refl) (refl, refl, refl);
  other_binds =
      λ b n. tag-second mail_object _ _ _ _ _ _ _ b.name n (refl, refl, refl) (refl, refl, refl);
  servers = (refl, refl, refl);
}
