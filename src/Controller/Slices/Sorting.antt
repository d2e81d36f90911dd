-- ===== src/Controller/Slices/Sorting.antt =====
-- controller/endpointsslice.go, the sorts: sort.Sort(byPort(...)) follows nil port numbers.
use kube_haproxy.Prelude.{
  ℕ, Bool, true, false, Option, none, some, is_some, ◌&&◌, ltb, List, [], ◌∷◌, ◌≡◌, refl, sym, ◌∙◌,
  ap, Bool-cases, Option-cases, inl, inr, ◌↔◌, ◌≤◌, In, here, there, In-cases, not_in_nil, length,
  arith,
}
use kube_haproxy.Kube.{SlicePort}
use kube_haproxy.Controller.Slices.{port_less, insert_port, sort_ports, prepend}

abbrev all_have_port : List SlicePort → Bool
all_have_port [] = true
all_have_port (p ∷ ps) = is_some p.port && all_have_port ps

-- A port of the list that has no number.
pub record Unnumbered (ports : List SlicePort) : Type 0 where
  pub port : SlicePort
  pub listed : In port ports
  pub nil : port.port ≡ none

missing : (ports : List SlicePort) → all_have_port ports ≡ false → Unnumbered ports
missing [] e = cc e
missing (p ∷ ports) e = elim (Option-cases p.port) [
  | inl n ↦ record { port = p; listed = here refl; nil = n }
  | inr (m, n) ↦
      let u = missing ports (rw n at e) in
      record { port = u.port; listed = there u.listed; nil = u.nil }
]

found :
    (ports : List SlicePort) (p : SlicePort)
    → In p ports
    → p.port ≡ none
    → all_have_port ports ≡ false
found [] p i n = absurd (not_in_nil i)
found (q ∷ ports) p i n = elim (In-cases i) [
  | inl e ↦ rw (sym (ap (λ (r : SlicePort). r.port) e) ∙ n) refl
  | inr j ↦ rw (found ports p j n) (ground arith)
]

-- A sorted list that the sort may go on with: it has an element, and all of them have a number.
record Inserted (sorted : Option (List SlicePort)) : Type 0 where
  first : SlicePort
  rest : List SlicePort
  is : sorted ≡ some (first ∷ rest)
  numbered : all_have_port (first ∷ rest) ≡ true

numbered_less :
    (p q : SlicePort) (m n : ℕ) → p.port ≡ some m → q.port ≡ some n → port_less p q ≡ some (ltb m n)
unfolding port_less
numbered_less p q m n e f = rw (e, f) refl

unnumbered_first : (p q : SlicePort) → p.port ≡ none → port_less p q ≡ none
unfolding port_less
unnumbered_first p q e = rw e refl

unnumbered_second : (p q : SlicePort) → q.port ≡ none → port_less p q ≡ none
unfolding port_less
unnumbered_second p q e = elim (Option-cases p.port) [
  | inl f ↦ rw f refl
  | inr (m, f) ↦ rw (f, e) refl
]

-- An insertion, by what the first comparison gives.
abbrev placed :
    SlicePort
    → SlicePort
    → List SlicePort
    → Option (List SlicePort)
    → Option Bool
    → Option (List SlicePort)
placed a b bs rest none = none
placed a b bs rest (some true) = prepend b rest
placed a b bs rest (some false) = some (a ∷ b ∷ bs)

inserted :
    (a b : SlicePort) (bs : List SlicePort) (c : Option Bool)
    → port_less b a ≡ c
    → insert_port a (b ∷ bs) ≡ placed a b bs (insert_port a bs) c
unfolding insert_port
inserted a b bs none e = rw (e, insert_port) refl
inserted a b bs (some true) e = rw (e, insert_port) refl
inserted a b bs (some false) e = rw (e, insert_port) refl

number_of : (p : SlicePort) → is_some p.port ≡ true → (m : ℕ) × (p.port ≡ some m)
number_of p h = elim (Option-cases p.port) [ inl e ↦ cc (rw e at h) | inr n ↦ n ]

-- Among numbered ports, no comparison of an insertion panics.
insert-Inserted :
    (a : SlicePort) (bs : List SlicePort)
    → is_some a.port ≡ true
    → all_have_port bs ≡ true
    → Inserted (insert_port a bs)
unfolding insert_port
insert-Inserted a [] h hs = record { first = a; rest = []; is = refl; numbered = rw h refl }
insert-Inserted a (b ∷ bs) h hs =
    let hb : is_some b.port ≡ true = ground (arith) in
    let hbs : all_have_port bs ≡ true = ground (arith) in
    let (m, e) = number_of b hb in
    let (n, f) = number_of a h in
    let r = insert-Inserted a bs h hbs in
    elim (Bool-cases (ltb m n)) [
      | inl less ↦ record {
        first = b;
        rest = r.first ∷ r.rest;
        is =
            inserted a b bs (some true) (numbered_less b a m n e f ∙ ap some less)
            ∙ ap (prepend b) r.is;
        numbered = rw (hb, r.numbered) refl;
      }
      | inr less ↦ record {
        first = a;
        rest = b ∷ bs;
        is = inserted a b bs (some false) (numbered_less b a m n e f ∙ ap some less);
        numbered = rw (h, hb, hbs) refl;
      }
    ]

sort-Inserted :
    (p : SlicePort) (ports : List SlicePort)
    → all_have_port (p ∷ ports) ≡ true
    → Inserted (sort_ports (p ∷ ports))
unfolding sort_ports
sort-Inserted p [] h = insert-Inserted p [] (ground (arith)) refl
sort-Inserted p (q ∷ ports) h =
    let hp : is_some p.port ≡ true = ground (arith) in
    let hs : all_have_port (q ∷ ports) ≡ true = ground (arith) in
    let r = sort-Inserted q ports hs in
    rw (r.is) (insert-Inserted p (r.first ∷ r.rest) hp r.numbered)

nil_first :
    (p : SlicePort) (ports : List SlicePort)
    → all_have_port (p ∷ ports) ≡ false
    → all_have_port ports ≡ true
    → p.port ≡ none
nil_first p ports h hs = elim (Option-cases p.port) [
  | inl e ↦ e
  | inr (m, e) ↦ cc (rw (e, hs) at h)
]

-- A port without a number makes a comparison panic once there are two.
sort_panics :
    (p q : SlicePort) (ports : List SlicePort)
    → all_have_port (p ∷ q ∷ ports) ≡ false
    → sort_ports (p ∷ q ∷ ports) ≡ none
unfolding sort_ports insert_port
sort_panics p q [] h = elim (Option-cases q.port) [
  | inl e ↦ inserted p q [] none (unnumbered_first q p e)
  | inr (m, e) ↦ inserted p q [] none (unnumbered_second q p (nil_first p (q ∷ []) h (rw e refl)))
]
sort_panics p q (r ∷ ports) h = elim (Bool-cases (all_have_port (q ∷ r ∷ ports))) [
  | inl hs ↦
      let i = sort-Inserted q (r ∷ ports) hs in
      rw (i.is) (
        inserted p i.first i.rest none
          (unnumbered_second i.first p (nil_first p (q ∷ r ∷ ports) h hs)))
  | inr hs ↦ rw (sort_panics q r ports hs) refl
]

-- newEndpointSliceInfo's sort of the ports panics exactly when the slice has two ports or more and one
-- of them has no number: a lone port without a number is let through.
pub sort_ports_panic_iff :
    (ports : List SlicePort) → (sort_ports ports ≡ none) ↔ ((2 ≤ length ports) × Unnumbered ports)
unfolding sort_ports insert_port
sort_ports_panic_iff [] = (λ e. cc e, λ h. absurd (ground (arith, h.0)))
sort_ports_panic_iff (p ∷ []) = (λ e. cc e, λ h. absurd (ground (arith, h.0)))
sort_ports_panic_iff (p ∷ q ∷ ports) = elim (Bool-cases (all_have_port (p ∷ q ∷ ports))) [
  | inl h ↦ (
    λ e. let i = sort-Inserted p (q ∷ ports) h in cc (sym e ∙ i.is),
    λ u. cc (found (p ∷ q ∷ ports) u.1.port u.1.listed u.1.nil, h),
  )
  | inr h ↦ (λ e. (omega arith, missing (p ∷ q ∷ ports) h), λ u. sort_panics p q ports h)
]
