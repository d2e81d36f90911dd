-- ===== src/Prelude/Tests.antt =====
-- Boolean tests: on native numbers, by decidable equality, and the conditional.
use Prim.Native.Nat.{ℕ, compare, Ordering}
use Prim.Native.String.{String}
use mathlib.Core.Path.{◌≡◌, refl}
use mathlib.Core.Logic.{◌↔◌, ◌⊎◌, inl, inr}
use mathlib.Core.Bool.{Bool, true, false}
use mathlib.Core.Option.{Option, none, some}
use mathlib.Core.List.{List, [], ◌∷◌}
use native.Mathlib.Decide.{ℕ_discrete}
use native.Mathlib.Omega.{arith}
use text.Mathlib.Text.{◌==◌ as str_eq}
use text.Mathlib.TextEquality.{eq_iff}

abbrev pub ltb : ℕ → ℕ → Bool
ltb a b = elim (compare a b) [ Ordering.lt ↦ true | _ ↦ false ]

abbrev pub leb : ℕ → ℕ → Bool
leb a b = elim (compare a b) [ Ordering.gt ↦ false | _ ↦ true ]

infix 1 if◌then◌else◌
abbrev pub if◌then◌else◌ {ℓ} : {A : Type ℓ} → Bool → A → A → A
if true then x else y = x
if false then x else y = y

-- To split on a computed value and keep the equation.
pub Bool-cases : (b : Bool) → (b ≡ true) ⊎ (b ≡ false)
Bool-cases true = inl refl
Bool-cases false = inr refl

-- What holds of both branches holds of the test's choice.
pub if_keeps {ℓ κ} :
    {A : Type ℓ} (P : A → Type κ) (b : Bool) (x y : A) → P x → P y → P (if b then x else y)
if_keeps P true x y h k = h
if_keeps P false x y h k = k

pub Option-cases {ℓ} : {A : Type ℓ} (o : Option A) → (o ≡ none) ⊎ ((a : A) × (o ≡ some a))
Option-cases none = inl refl
Option-cases (some a) = inr (a, refl)

abbrev pub is_some {ℓ} : {A : Type ℓ} → Option A → Bool
is_some none = false
is_some (some _) = true

-- Equality that the program tests, Go's `==` on comparable types and `reflect.DeepEqual` on others.
pub record DecEq {ℓ} (A : Type ℓ) : Type ℓ where
  pub dec : Discrete A

abbrev pub does {ℓ} : {A : Type ℓ} → Dec A → Bool
does (yes _) = true
does (no _) = false

pub does_iff {ℓ} : {A : Type ℓ} (d : Dec A) → (does d ≡ true) ↔ A
does_iff (yes a) = (λ _. a, λ _. refl)
does_iff (no f) = (λ h. absurd (false_true h), λ a. absurd (f a))
  where
    false_true : false ≡ true → ⊥
    false_true h = cc h

infix 50 ◌==◌
unfoldable pub ◌==◌ {ℓ} : {A : Type ℓ} ⦃e : DecEq A⦄ → A → A → Bool
◌==◌ ⦃e⦄ a b = does (e.dec a b)

pub ==_iff {ℓ} : {A : Type ℓ} ⦃e : DecEq A⦄ (a b : A) → ((a == b) ≡ true) ↔ (a ≡ b)
unfolding ◌==◌
==_iff ⦃e⦄ a b = does_iff (e.dec a b)

pub ==_refl {ℓ} : {A : Type ℓ} ⦃e : DecEq A⦄ (a : A) → (a == a) ≡ true
==_refl a = (==_iff a a).1 refl

pub ne_of_str_eq : (s t : String) → str_eq s t ≡ false → ¬ (s ≡ t)
ne_of_str_eq s t p q = ground (arith, (eq_iff s t).1 q)

unfoldable pub String_discrete : Discrete String
unfolding Bool-cases
String_discrete s t = elim (Bool-cases (str_eq s t)) [
  | inl p ↦ yes ((eq_iff s t).0 p)
  | inr p ↦ no (ne_of_str_eq s t p)
]

unfoldable pub Bool_discrete : Discrete Bool
Bool_discrete = hlevel

instance abbrev pub bool_eq : DecEq Bool
bool_eq = record { dec = Bool_discrete }

instance abbrev pub nat_eq : DecEq ℕ
nat_eq = record { dec = ℕ_discrete }

instance abbrev pub string_eq : DecEq String
string_eq = record { dec = String_discrete }

unfoldable pub Option_discrete {ℓ} : {A : Type ℓ} → Discrete A → Discrete (Option A)
Option_discrete d = hlevel d

unfoldable pub List_discrete {ℓ} : {A : Type ℓ} → Discrete A → Discrete (List A)
List_discrete d = hlevel d

instance abbrev pub option_eq {ℓ} : {A : Type ℓ} ⦃e : DecEq A⦄ → DecEq (Option A)
option_eq ⦃e⦄ = record { dec = Option_discrete e.dec }

instance abbrev pub list_eq {ℓ} : {A : Type ℓ} ⦃e : DecEq A⦄ → DecEq (List A)
list_eq ⦃e⦄ = record { dec = List_discrete e.dec }

-- For tests: a proof that unfolds this runs the equality tests.
unfoldable pub deciding : Unit {0}
unfolding ◌==◌ ℕ_discrete String_discrete Option_discrete List_discrete Bool_discrete
deciding = tt

abbrev pub is_empty {ℓ} : {A : Type ℓ} → List A → Bool
is_empty [] = true
is_empty (_ ∷ _) = false
