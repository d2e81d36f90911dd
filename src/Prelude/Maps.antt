-- ===== src/Prelude/Maps.antt =====
-- Go's `map[K]V`: entries in some order, since `range` visits them in an order that Go leaves open.
use mathlib.Core.Path.{◌≡◌, refl, sym, subst, ◌∙◌}
use mathlib.Core.Logic.{inl, inr}
use mathlib.Core.Bool.{Bool, true, false, ◌&&◌}
use mathlib.Core.Option.{Option, none, some}
use mathlib.Core.List.{List, [], ◌∷◌}
use native.Mathlib.Omega.{arith}
use kube_haproxy.Prelude.Tests.{
  DecEq, ◌==◌, ==_iff, if◌then◌else◌, Bool-cases, Option-cases, option_eq,
}

abbrev pub GoMap {ℓ κ} : Type ℓ → Type κ → Type (ℓ ⊔ κ)
GoMap K V = List (K × V)

module _ {ℓ κ} {K : Type ℓ} {V : Type κ} ⦃e : DecEq K⦄ where
  -- v, ok := m[k]
  unfoldable pub get : K → GoMap K V → Option V
  get k [] = none
  get k ((j, v) ∷ m) = if j == k then some v else get k m

  -- m[k] = v
  unfoldable pub put : K → V → GoMap K V → GoMap K V
  put k v [] = (k, v) ∷ []
  put k v ((j, w) ∷ m) = if j == k then (k, v) ∷ m else (j, w) ∷ put k v m

  -- delete(m, k)
  unfoldable pub delete : K → GoMap K V → GoMap K V
  delete k [] = []
  delete k ((j, w) ∷ m) = if j == k then delete k m else (j, w) ∷ delete k m

  pub get-put :
      (j k : K) (v : V) (m : GoMap K V) → get j (put k v m) ≡ (if k == j then some v else get j m)
  unfolding get put
  get-put j k v [] = refl
  get-put j k v ((i, w) ∷ m) = ground (arith, ==_iff k j, ==_iff i k, ==_iff i j, get-put j k v m)

  pub get-delete :
      (j k : K) (m : GoMap K V) → get j (delete k m) ≡ (if k == j then none else get j m)
  unfolding get delete
  get-delete j k [] = ground arith
  get-delete j k ((i, w) ∷ m) = ground (arith, ==_iff k j, ==_iff i k, ==_iff i j, get-delete j k m)

  -- A Go map holds each key once.
  abbrev pub IsNodup : GoMap K V → Type κ
  IsNodup [] = Unit
  IsNodup ((k, v) ∷ m) = (get k m ≡ none) × IsNodup m

  pub put-IsNodup : (k : K) (v : V) (m : GoMap K V) → IsNodup m → IsNodup (put k v m)
  unfolding get put
  put-IsNodup k v [] h = (refl, tt)
  put-IsNodup k v ((j, w) ∷ m) h = elim (Bool-cases (j == k)) [
    | inl p ↦ rw p (ground (arith, ==_iff j k), h.1)
    | inr p ↦ rw p (ground (arith, get-put j k v m, ==_iff j k, ==_iff k j), put-IsNodup k v m h.1)
  ]

  pub delete-IsNodup : (k : K) (m : GoMap K V) → IsNodup m → IsNodup (delete k m)
  unfolding get delete
  delete-IsNodup k [] h = tt
  delete-IsNodup k ((j, w) ∷ m) h = elim (Bool-cases (j == k)) [
    | inl p ↦ rw p (delete-IsNodup k m h.1)
    | inr p ↦ rw p (ground (arith, get-delete j k m), delete-IsNodup k m h.1)
  ]

  -- What holds of each key with its value holds of each entry.
  abbrev pub EachEntry {ι} : (K → V → Type ι) → GoMap K V → Type ι
  EachEntry P [] = Unit
  EachEntry P ((k, v) ∷ m) = P k v × EachEntry P m

  pub EachEntry-of_get {ι} :
      (P : K → V → Type ι) (m : GoMap K V)
      → IsNodup m
      → ((k : K) (v : V) → get k m ≡ some v → P k v)
      → EachEntry P m
  unfolding get
  EachEntry-of_get P [] d h = tt
  EachEntry-of_get P ((k, v) ∷ m) d h = (
    h k v (ground (arith, ==_iff k k)),
    EachEntry-of_get P m d.1 (λ j w q. h j w (ground (arith, ==_iff k j))),
  )

  -- It holds of each entry after a put of one of which it holds.
  pub EachEntry-put {ι} :
      (P : K → V → Type ι) (k : K) (v : V) (m : GoMap K V)
      → P k v
      → EachEntry P m
      → EachEntry P (put k v m)
  unfolding put
  EachEntry-put P k v [] p h = (p, tt)
  EachEntry-put P k v ((j, w) ∷ m) p h = elim (Bool-cases (j == k)) [
    | inl e ↦ rw e (p, h.1)
    | inr e ↦ rw e (h.0, EachEntry-put P k v m p h.1)
  ]

  pub EachEntry-get {ι} :
      (P : K → V → Type ι) (m : GoMap K V) (k : K) (v : V)
      → EachEntry P m
      → get k m ≡ some v
      → P k v
  unfolding get
  EachEntry-get P [] k v h g = cc
  EachEntry-get P ((j, w) ∷ m) k v h g = elim (Bool-cases (j == k)) [
    | inl e ↦
        let found : some w ≡ some v = rw e at g in
        let same : w ≡ v = cc in subst (P k) same (subst (λ i. P i w) ((==_iff j k).0 e) h.0)
    | inr e ↦ EachEntry-get P m k v h.1 (rw e at g)
  ]

-- reflect.DeepEqual on maps: the same keys, with equal values.
module _ {ℓ κ} {K : Type ℓ} {V : Type κ} ⦃e : DecEq K⦄ ⦃d : DecEq V⦄ where
  unfoldable pub submap : GoMap K V → GoMap K V → Bool
  submap [] n = true
  submap ((k, v) ∷ m) n = get k n == some v && submap m n

  unfoldable pub map_eq : GoMap K V → GoMap K V → Bool
  map_eq m n = submap m n && submap n m

  submap-get :
      (m n : GoMap K V) (j : K) (v : V) → submap m n ≡ true → get j m ≡ some v → get j n ≡ some v
  unfolding submap get
  submap-get [] n j v h g = ground arith
  submap-get ((k, w) ∷ m) n j v h g = elim (Bool-cases (k == j)) [
    | inl p ↦ ground (arith, ==_iff k j, ==_iff (get k n) (some w))
    | inr p ↦ submap-get m n j v (ground arith) (ground arith)
  ]

  pub map_eq-get : (m n : GoMap K V) → map_eq m n ≡ true → (j : K) → get j m ≡ get j n
  unfolding map_eq
  map_eq-get m n h j = elim (Option-cases (get j m)) [
    | inr (v, p) ↦ p ∙ sym (submap-get m n j v (ground arith) p)
    | inl p ↦ elim (Option-cases (get j n)) [
      | inl q ↦ p ∙ sym q
      | inr (v, q) ↦ submap-get n m j v (ground arith) q ∙ sym q
    ]
  ]

-- A map that may be nil, as Go's zero value of a map type.
abbrev pub NilMap {ℓ κ} : Type ℓ → Type κ → Type (ℓ ⊔ κ)
NilMap K V = Option (GoMap K V)

-- Reading a nil map is reading an empty one.
abbrev pub entries {ℓ κ} : {K : Type ℓ} {V : Type κ} → NilMap K V → GoMap K V
entries none = []
entries (some m) = m

module _ {ℓ κ} {K : Type ℓ} {V : Type κ} ⦃e : DecEq K⦄ ⦃d : DecEq V⦄ where
  unfoldable pub nil_map_eq : NilMap K V → NilMap K V → Bool
  nil_map_eq none none = true
  nil_map_eq (some m) (some n) = map_eq m n
  nil_map_eq _ _ = false

  pub nil_map_eq-get :
      (m n : NilMap K V) → nil_map_eq m n ≡ true → (j : K) → get j (entries m) ≡ get j (entries n)
  unfolding nil_map_eq
  nil_map_eq-get none none h j = refl
  nil_map_eq-get (some m) (some n) h j = map_eq-get m n h j
  nil_map_eq-get none (some n) h j = cc
  nil_map_eq-get (some m) none h j = cc

-- m[k] for a map to slices: the zero value is nil, which reads as the empty slice.
unfoldable pub get_or_empty {ℓ κ} :
    {K : Type ℓ} {W : Type κ} ⦃e : DecEq K⦄ → K → GoMap K (List W) → List W
get_or_empty k m = elim (get k m) [ none ↦ [] | some l ↦ l ]
