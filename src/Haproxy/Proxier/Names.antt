-- ===== src/Haproxy/Proxier/Names.antt =====
-- The names of frontends, and the names of services that GetServices reads off them.
use Prim.Native.Char.{Char, code}
use text.Mathlib.TextLemmas.{cons-append, nil-append}
use kube_haproxy.Prelude.{
  String, Bool, true, false, not, ◌≡◌, ◌≢◌, refl, sym, ap, ◌∙◌, ◌+++◌, if◌then◌else◌, trim,
  trim_left, trim_right, elem, codes, deciding, string_eq, arith, Bool-cases, inl, inr, ◌==◌,
  ==_iff,
}
use kube_haproxy.Haproxy.Types.{frontend_prefix}
use kube_haproxy.Haproxy.Proxier.{frontend_entry}

-- A character of the cutset.
abbrev pub in_cutset : String → Char → Bool
in_cutset cutset c = elem (code c) (codes cutset)

-- The first character, and the last one, are outside the cutset.
abbrev pub starts_outside : String → String → Bool
starts_outside cutset String.[] = true
starts_outside cutset (String.◌∷◌ c s) = not (in_cutset cutset c)

abbrev pub ends_outside : String → String → Bool
ends_outside cutset String.[] = true
ends_outside cutset (String.◌∷◌ c String.[]) = not (in_cutset cutset c)
ends_outside cutset (String.◌∷◌ c (String.◌∷◌ d s)) = ends_outside cutset (String.◌∷◌ d s)

abbrev all_inside : String → String → Bool
all_inside cutset String.[] = true
all_inside cutset (String.◌∷◌ c s) = if in_cutset cutset c then all_inside cutset s else false

trim_left-append :
    (s t cutset : String)
    → all_inside cutset s ≡ true
    → trim_left (s +++ t) cutset ≡ trim_left t cutset
unfolding trim_left
trim_left-append String.[] t cutset h = rw (nil-append t)
trim_left-append (String.◌∷◌ c s) t cutset h =
    rw (cons-append c s t) (ground (arith, trim_left-append s t cutset))

trim_left_outside : (s cutset : String) → starts_outside cutset s ≡ true → trim_left s cutset ≡ s
unfolding trim_left
trim_left_outside String.[] cutset h = refl
trim_left_outside (String.◌∷◌ c s) cutset h = ground arith

trim_right_outside : (s cutset : String) → ends_outside cutset s ≡ true → trim_right s cutset ≡ s
unfolding trim_right
trim_right_outside String.[] cutset h = refl
trim_right_outside (String.◌∷◌ c String.[]) cutset h = ground arith
trim_right_outside (String.◌∷◌ c (String.◌∷◌ d s)) cutset h =
    rw (trim_right_outside (String.◌∷◌ d s) cutset h)

prefix_inside : all_inside frontend_prefix frontend_prefix ≡ true
unfolding deciding
prefix_inside = refl

-- The trim of GetServices takes off just the prefix of a frontend's name.
pub trim-frontend_entry :
    (name protocol : String)
    → starts_outside frontend_prefix name ≡ true
    → ends_outside frontend_prefix name ≡ true
    → trim (frontend_entry name protocol).name frontend_prefix ≡ name
unfolding frontend_entry trim
trim-frontend_entry name protocol s e =
    ap (λ t. trim_right t frontend_prefix)
      (trim_left-append frontend_prefix name frontend_prefix prefix_inside
        ∙ trim_left_outside name frontend_prefix s)
    ∙ trim_right_outside name frontend_prefix e

pub starts_outside-append :
    (s t cutset : String) → s ≢ "" → starts_outside cutset (s +++ t) ≡ starts_outside cutset s
starts_outside-append String.[] t cutset n = absurd (n refl)
starts_outside-append (String.◌∷◌ c s) t cutset n = rw (cons-append c s t) refl

prefix_starts : starts_outside frontend_prefix frontend_prefix ≡ false
unfolding deciding
prefix_starts = refl

stats_outside : starts_outside frontend_prefix "stats" ≡ true
unfolding deciding
stats_outside = refl

prefix_there : frontend_prefix ≢ ""
prefix_there e = cc

-- No frontend of a service is that of haproxy's statistics.
pub not_stats : (name : String) → (frontend_prefix +++ name == "stats") ≡ false
not_stats name = elim (Bool-cases (frontend_prefix +++ name == "stats")) [
  | inl e ↦
      let same = (==_iff (frontend_prefix +++ name) "stats").0 e in
      cc (
        sym prefix_starts
        ∙ sym (starts_outside-append frontend_prefix name frontend_prefix prefix_there)
        ∙ ap (starts_outside frontend_prefix) same
        ∙ stats_outside)
  | inr e ↦ e
]
