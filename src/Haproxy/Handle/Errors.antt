-- ===== src/Haproxy/Handle/Errors.antt =====
-- How handleError reads an answer, and what its callers make of it.
use kube_haproxy.Prelude.{
  ℕ, String, true, Option-cases, inl, inr, none, some, ◌≡◌, ◌==◌, ==_iff, nat_eq, ◌⊎◌, ◌↔◌, arith,
  ◌≢◌,
}
use kube_haproxy.Haproxy.Dataplane.{Response}
use kube_haproxy.Haproxy.Handle.{Resource, handle_error}

-- The codes that count as done, with no error: 0, 200, 201 and 202.
abbrev pub IsDone : ℕ → Type 0
IsDone code = (code ≡ 0) ⊎ (code ≡ 200) ⊎ (code ≡ 201) ⊎ (code ≡ 202)

-- The codes that come with true and an error: 204 and 409.
abbrev pub IsMixed : ℕ → Type 0
IsMixed code = (code ≡ 204) ⊎ (code ≡ 409)

module _ (code : ℕ) where
  -- The tests of the switch, as facts.
  abbrev Switch : Type 0
  Switch =
      (((code == 0) ≡ true) ↔ (code ≡ 0))
      × (((code == 200) ≡ true) ↔ (code ≡ 200))
      × (((code == 201) ≡ true) ↔ (code ≡ 201))
      × (((code == 202) ≡ true) ↔ (code ≡ 202))
      × (((code == 204) ≡ true) ↔ (code ≡ 204))
      × (((code == 400) ≡ true) ↔ (code ≡ 400))
      × (((code == 404) ≡ true) ↔ (code ≡ 404))
      × (((code == 409) ≡ true) ↔ (code ≡ 409))

  Switch-holds : Switch
  Switch-holds = (
    ==_iff code 0,
    ==_iff code 200,
    ==_iff code 201,
    ==_iff code 202,
    ==_iff code 204,
    ==_iff code 400,
    ==_iff code 404,
    ==_iff code 409,
  )

-- handleError returns true and no error exactly on an answer without a transport error whose code is
-- 0, 200, 201 or 202.
pub handle_error-IsDone_iff :
    (r : Response) (res : Resource)
    → (handle_error r res ≡ (true, none)) ↔ ((r.err ≡ none) × IsDone r.code)
unfolding handle_error
handle_error-IsDone_iff r res =
    (λ h. ground (arith, Switch-holds r.code), λ h. ground (arith, Switch-holds r.code))

-- handleError returns true together with an error exactly on 204 and on 409.
pub handle_error-IsMixed_iff :
    (r : Response) (res : Resource)
    → (((handle_error r res).0 ≡ true) × ((handle_error r res).1 ≢ none))
      ↔ ((r.err ≡ none) × IsMixed r.code)
unfolding handle_error
handle_error-IsMixed_iff r res =
    (λ h. ground (arith, Switch-holds r.code), λ h. ground (arith, Switch-holds r.code))

no_error-IsDone : (r : Response) (res : Resource) → (handle_error r res).1 ≡ none → IsDone r.code
unfolding handle_error
no_error-IsDone r res e = ground (arith, Switch-holds r.code)

-- An answer with another code leaves an error.
pub handle_error-ne-none :
    (r : Response) (res : Resource)
    → ¬ IsDone r.code
    → (text : String) × ((handle_error r res).1 ≡ some text)
handle_error-ne-none r res n = elim (Option-cases (handle_error r res).1) [
  | inr found ↦ found
  | inl e ↦ absurd (n (no_error-IsDone r res e))
]
