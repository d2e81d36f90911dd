-- ===== src/Prelude/Lists.antt =====
-- Membership in a list, as a predicate by recursion, and the length over the native numbers.
use Prim.Native.Nat.{ℕ, suc}
use mathlib.Core.Path.{◌≡◌}
use mathlib.Core.Logic.{◌↔◌, ◌⊎◌, inl, inr}
use mathlib.Core.List.{List, [], ◌∷◌, ◌++◌}

module _ {ℓ} {A : Type ℓ} where
  abbrev pub length : List A → ℕ
  length [] = 0
  length (x ∷ xs) = suc (length xs)

  -- A place where `a` stands.
  pub data In (a : A) : List A → Type ℓ where
    here : {x : A} {xs : List A} → a ≡ x → In a (x ∷ xs)
    there : {x : A} {xs : List A} → In a xs → In a (x ∷ xs)

  pub not_in_nil : {a : A} → In a [] → ⊥
  not_in_nil i = elim i [ ]

  pub In-cases : {a x : A} {xs : List A} → In a (x ∷ xs) → (a ≡ x) ⊎ In a xs
  In-cases (here e) = inl e
  In-cases (there i) = inr i

  pub In-append : {a : A} (xs ys : List A) → In a (xs ++ ys) ↔ (In a xs ⊎ In a ys)
  In-append [] ys = (λ i. inr i, λ s. elim s [ inl i ↦ absurd (not_in_nil i) | inr i ↦ i ])
  In-append (x ∷ xs) ys =
      let ih = In-append xs ys in
      (
        λ i. elim (In-cases i) [
          | inl e ↦ inl (here e)
          | inr j ↦ elim (ih.0 j) [ inl k ↦ inl (there k) | inr k ↦ inr k ]
        ],
        λ s. elim s [
          | inr k ↦ there (ih.1 (inr k))
          | inl k ↦ elim (In-cases k) [ inl e ↦ here e | inr j ↦ there (ih.1 (inl j)) ]
        ],
      )
