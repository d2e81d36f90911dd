-- ===== src/App/Settings/Pairs.antt =====
-- server/app/type.go and server/app/server_others.go: the algorithm table and the pair of CIDRs.
use kube_haproxy.Prelude.{
  ℕ, String, Bool, true, false, none, List, [], ◌∷◌, ◌≡◌, refl, ap, if◌then◌else◌, Bool-cases, ltb,
  string_eq, nat_eq, split, arith, inl, inr, ◌⊎◌, ◌↔◌, length, ◌≤◌,
}
use kube_haproxy.App.Settings.{
  ℤ, pos, negsuc, get_elem?, algorithm, algorithm_array, cidr_step, cidr_loop, cidr_tuple,
  CidrState, no_cidrs,
}

get_elem?-none_iff : (xs : List String) (i : ℕ) → (get_elem? xs i ≡ none) ↔ (length xs ≤ i)
get_elem?-none_iff [] i = (λ _. omega arith, λ _. refl)
get_elem?-none_iff (x ∷ xs) ℕ.zero = (λ e. cc e, λ h. absurd (omega arith))
get_elem?-none_iff (x ∷ xs) (ℕ.suc i) =
    let ih = get_elem?-none_iff xs i in
    (λ e. let h = ih.0 e in omega arith, λ h. ih.1 (omega arith))

pos_injective : {a b : ℕ} → pos a ≡ pos b → a ≡ b
pos_injective e = cc e

at_ten : (a : ℕ) → ltb 10 a ≡ false → 10 ≤ a → a ≡ 10
at_ten a p h = ground arith

-- Algorithm panics for exactly the arguments 10, one past the last name of its table, and the
-- negative ones; every other argument has a name.
pub algorithm_panic_iff :
    (a : ℤ) → (algorithm a ≡ none) ↔ ((a ≡ pos 10) ⊎ ((n : ℕ) × (a ≡ negsuc n)))
unfolding algorithm
algorithm_panic_iff (pos a) = elim (Bool-cases (ltb 10 a)) [
  | inl p ↦ (
    λ e. cc (rw p at e),
    λ s. elim s [ inl e ↦ absurd (ground (arith, pos_injective e)) | inr (n, e) ↦ cc e ],
  )
  | inr p ↦ (
    λ e. inl (ap pos (at_ten a p ((get_elem?-none_iff algorithm_array a).0 (rw p at e)))),
    λ s. elim s [ inl e ↦ ap algorithm e | inr (n, e) ↦ cc e ],
  )
]
algorithm_panic_iff (negsuc a) = (λ _. inr (a, refl), λ _. refl)

-- The first IPv6 CIDR of a list, "" where there is none.
abbrev pub first_ipv6 : (String → Bool) → List String → String
first_ipv6 is6 [] = ""
first_ipv6 is6 (c ∷ cs) = if is6 c then c else first_ipv6 is6 cs

abbrev pub head_or_empty : List String → String
head_or_empty [] = ""
head_or_empty (c ∷ cs) = c

-- The first element that is not the first IPv6 CIDR, of whichever family.
abbrev pub first_other : (String → Bool) → List String → String
first_other is6 [] = ""
first_other is6 (c ∷ cs) = if is6 c then head_or_empty cs else c

abbrev with4 : String → CidrState
with4 c = record { cidr4 = c; cidr6 = ""; found_ipv4 = true; found_ipv6 = false }

abbrev with6 : String → CidrState
with6 c = record { cidr4 = ""; cidr6 = c; found_ipv4 = false; found_ipv6 = true }

abbrev slots : CidrState → String × String
slots s = (s.cidr4, s.cidr6)

loop-with4 :
    (is6 : String → Bool) (cs : List String) (c : String)
    → slots (cidr_loop is6 cs (with4 c)) ≡ (c, first_ipv6 is6 cs)
unfolding cidr_loop cidr_step
loop-with4 is6 [] c = refl
loop-with4 is6 (d ∷ cs) c = elim (Bool-cases (is6 d)) [
  | inl p ↦ rw p refl
  | inr p ↦ rw p (loop-with4 is6 cs c)
]

loop-with6 :
    (is6 : String → Bool) (cs : List String) (c : String)
    → slots (cidr_loop is6 cs (with6 c)) ≡ (head_or_empty cs, c)
unfolding cidr_loop cidr_step
loop-with6 is6 [] c = refl
loop-with6 is6 (d ∷ cs) c = elim (Bool-cases (is6 d)) [ inl p ↦ rw p refl | inr p ↦ rw p refl ]

loop-start :
    (is6 : String → Bool) (cs : List String)
    → slots (cidr_loop is6 cs no_cidrs) ≡ (first_other is6 cs, first_ipv6 is6 cs)
unfolding cidr_loop cidr_step
loop-start is6 [] = refl
loop-start is6 (d ∷ cs) = elim (Bool-cases (is6 d)) [
  | inl p ↦ rw p (loop-with6 is6 cs d)
  | inr p ↦ rw p (loop-with4 is6 cs d)
]

-- cidrTuple gives the first IPv6 CIDR of the list as its second result. Its first result is the first
-- element that is not that one, whatever its family: of two IPv6 CIDRs the second one stands in the
-- IPv4 place.
pub cidr_tuple_exact :
    (is6 : String → Bool) (cidr_list : String)
    → cidr_tuple is6 cidr_list
      ≡ (first_other is6 (split cidr_list ","), first_ipv6 is6 (split cidr_list ","))
unfolding cidr_tuple
cidr_tuple_exact is6 cidr_list = loop-start is6 (split cidr_list ",")
