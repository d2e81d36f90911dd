-- ===== src/Haproxy/Action.antt =====
-- Actions on the rest of the world: a call of a method that sends requests.
use kube_haproxy.Prelude.{List, [], ◌∷◌}

abbrev pub Action : Type 0 → Type 0 → Type 0
Action W A = W → A × W

infixl 5 ◌>>=◌ ◌>>◌
abbrev pub ◌>>=◌ : {W A B : Type 0} → Action W A → (A → Action W B) → Action W B
◌>>=◌ m f w = let (a, w') = m w in f a w'

abbrev pub ◌>>◌ : {W A B : Type 0} → Action W A → Action W B → Action W B
◌>>◌ m k = m >>= λ _. k

abbrev pub pure : {W A : Type 0} → A → Action W A
pure a w = (a, w)

-- A loop over a list, for its effects.
unfoldable pub for_each : {W A : Type 0} → List A → (A → Action W (Unit {0})) → Action W (Unit {0})
for_each [] body w = (tt, w)
for_each (a ∷ rest) body w = let (_, w') = body a w in for_each rest body w'
