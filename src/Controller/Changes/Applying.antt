-- ===== src/Controller/Changes/Applying.antt =====
-- What applying the pending changes does to a map, for any step with the effect of one change.
use kube_haproxy.Prelude.{
  ◌==◌, ==_iff, Bool-cases, Option-cases, get, IsNodup, EachEntry, EachEntry-of_get, NilMap, Option,
  none, some, [], ◌∷◌, ◌≡◌, refl, sym, ◌∙◌, ap, subst, ◌≢◌, arith, inl, inr,
}
use kube_haproxy.Kube.{NamespacedName, namespaced_name_eq}
use kube_haproxy.Api.{ServicePortName}
use kube_haproxy.Controller.Changes.{Change, Items, apply_all}
use kube_haproxy.Controller.Changes.Tracking.{view, World, Confined, IsProper, Tracks}

-- A key is set from the map after the change; a key of the map before it alone is removed.
abbrev pub settle : {V : Type 0} → Option V → Option V → Option V → Option V
settle (some v) previous before = some v
settle none (some w) before = none
settle none none before = before

abbrev pub outcome : {V : Type 0} → Change V → ServicePortName → Option V → Option V
outcome c k before = settle (view c.current k) (view c.previous k) before

abbrev pub HasEffect :
    {V S : Type 0} → (S → ServicePortName → Option V) → (Change V → S → S) → Type 0
HasEffect {V} {S} read step =
    (c : Change V) (s : S) (k : ServicePortName) → read (step c s) k ≡ outcome c k (read s k)

abbrev pub ConfinedChange : {V : Type 0} → NamespacedName → Change V → Type 0
ConfinedChange nn c = Confined nn c.previous × Confined nn c.current

settle_previous : {V : Type 0} (a b : Option V) → settle a b b ≡ a
settle_previous (some v) b = refl
settle_previous none (some w) = refl
settle_previous none none = refl

Tracks-confined :
    {V : Type 0} {base now : World V} {items : Items V}
    → Tracks base now items
    → IsProper base
    → IsProper now
    → EachEntry ConfinedChange items
Tracks-confined {items} t pb pn = EachEntry-of_get ConfinedChange items t.nodup λ nn c g. (
  λ k v h. pb nn k v (sym ((t.pending nn c g).0 k) ∙ h),
  λ k v h. pn nn k v (sym ((t.pending nn c g).1 k) ∙ h),
)

not_viewed :
    {V : Type 0} {nn : NamespacedName} (m : NilMap ServicePortName V) (k : ServicePortName)
    → Confined nn m
    → nn ≢ k.namespaced_name
    → view m k ≡ none
not_viewed m k h ne = elim (Option-cases (view m k)) [
  | inl e ↦ e
  | inr (v, e) ↦ absurd (ne (sym (h k v e)))
]

outcome_elsewhere :
    {V : Type 0} {nn : NamespacedName} (c : Change V) (k : ServicePortName) (before : Option V)
    → ConfinedChange nn c
    → nn ≢ k.namespaced_name
    → outcome c k before ≡ before
outcome_elsewhere c k before h ne =
    rw (not_viewed c.current k h.1 ne, not_viewed c.previous k h.0 ne)

module _ {V : Type 0} {S : Type 0} (read : S → ServicePortName → Option V) (step : Change V → S → S)
    (effect : HasEffect read step) (k : ServicePortName) where
  untouched :
      (items : Items V) (s : S)
      → get k.namespaced_name items ≡ none
      → EachEntry ConfinedChange items
      → read (apply_all step items s) k ≡ read s k
  unfolding apply_all get
  untouched [] s g h = refl
  untouched ((nn, c) ∷ items) s g h = elim (Bool-cases (nn == k.namespaced_name)) [
    | inl p ↦ absurd (ground (arith, g))
    | inr p ↦
        effect c (apply_all step items s) k
        ∙ outcome_elsewhere c k _ h.0 (λ q. ground (arith, (==_iff nn k.namespaced_name).1 q))
        ∙ untouched items s (rw p at g) h.1
  ]

  touched :
      (items : Items V) (s : S) (c : Change V)
      → IsNodup items
      → get k.namespaced_name items ≡ some c
      → EachEntry ConfinedChange items
      → read (apply_all step items s) k ≡ outcome c k (read s k)
  unfolding apply_all get
  touched [] s c d g h = cc
  touched ((nn, c') ∷ items) s c d g h = elim (Bool-cases (nn == k.namespaced_name)) [
    | inl p ↦
        let here : nn ≡ k.namespaced_name = (==_iff nn k.namespaced_name).0 p in
        let found : some c' ≡ some c = rw p at g in
        let same : c' ≡ c = cc in
        effect c' (apply_all step items s) k
        ∙ ap (outcome c' k) (untouched items s (subst (λ x. get x items ≡ none) here d.0) h.1)
        ∙ ap (λ x. outcome x k (read s k)) same
    | inr p ↦
        effect c' (apply_all step items s) k
        ∙ outcome_elsewhere c' k _ h.0 (λ q. ground (arith, (==_iff nn k.namespaced_name).1 q))
        ∙ touched items s c d.1 (rw p at g) h.1
  ]

  -- In step with the world of the last sync before, in step with the present world afterwards.
  pub apply_all-view :
      {base now : World V} (items : Items V) (s : S)
      → IsProper base
      → IsProper now
      → Tracks base now items
      → read s k ≡ view (base k.namespaced_name) k
      → read (apply_all step items s) k ≡ view (now k.namespaced_name) k
  apply_all-view items s pb pn t e = elim (Option-cases (get k.namespaced_name items)) [
    | inl g ↦ untouched items s g (Tracks-confined t pb pn) ∙ e ∙ t.settled k.namespaced_name g k
    | inr (c, g) ↦
        let (before, after) = t.pending k.namespaced_name c g in
        touched items s c t.nodup g (Tracks-confined t pb pn)
        ∙ ap (settle (view c.current k) (view c.previous k)) (e ∙ sym (before k))
        ∙ settle_previous (view c.current k) (view c.previous k)
        ∙ after k
  ]
