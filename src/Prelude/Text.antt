-- ===== src/Prelude/Text.antt =====
-- Go's strings package, over the native strings: what the program calls of it.
use Prim.Native.Char.{Char, code}
use Prim.Native.Nat.{ℕ}
use Prim.Native.String.{String, ◌++◌, compare}
use text.Mathlib.Text.{find?, is_lt}
use mathlib.Core.Path.{◌≡◌, refl}
use mathlib.Core.Bool.{Bool, false, ◌||◌}
use mathlib.Core.List.{List, [], ◌∷◌}
use kube_haproxy.Prelude.Tests.{◌==◌, nat_eq, deciding, is_some, if◌then◌else◌}

infixr 65 ◌+++◌
abbrev pub ◌+++◌ : String → String → String
s +++ t = s ++ t

abbrev pub codes : String → List ℕ
codes String.[] = []
codes (String.◌∷◌ c s) = code c ∷ codes s

abbrev pub elem : ℕ → List ℕ → Bool
elem a [] = false
elem a (b ∷ bs) = a == b || elem a bs

-- strings.TrimLeft: drop the leading characters that the cutset has.
unfoldable pub trim_left : String → String → String
trim_left String.[] cutset = String.[]
trim_left (String.◌∷◌ c s) cutset =
    if elem (code c) (codes cutset) then trim_left s cutset else String.◌∷◌ c s

abbrev cons_unless_trimmed : Char → String → String → String
cons_unless_trimmed c cutset String.[] =
    if elem (code c) (codes cutset) then String.[] else String.◌∷◌ c String.[]
cons_unless_trimmed c cutset (String.◌∷◌ d t) = String.◌∷◌ c (String.◌∷◌ d t)

-- strings.TrimRight: drop the trailing characters that the cutset has.
unfoldable pub trim_right : String → String → String
trim_right String.[] cutset = String.[]
trim_right (String.◌∷◌ c s) cutset = cons_unless_trimmed c cutset (trim_right s cutset)

-- strings.Trim
unfoldable pub trim : String → String → String
unfolding trim_left trim_right
trim s cutset = trim_right (trim_left s cutset) cutset

-- strings.TrimSpace, on ASCII text
unfoldable pub trim_space : String → String
unfolding trim
trim_space s = trim s "\t\n\u{b}\u{c}\r "

-- strings.ReplaceAll where the old text is one character
unfoldable pub replace_all : String → Char → String → String
replace_all String.[] old new = String.[]
replace_all (String.◌∷◌ c s) old new =
    let rest = replace_all s old new in
    if code c == code old then new +++ rest else String.◌∷◌ c rest

-- The character that stands in `to` where `c` stands in `from`.
translate : String → String → Char → Char
translate String.[] to c = c
translate (String.◌∷◌ u from) String.[] c = c
translate (String.◌∷◌ u from) (String.◌∷◌ l to) c =
    let rest = translate from to c in if code c == code u then l else rest

-- strings.ToLower, on ASCII text
unfoldable pub to_lower : String → String
unfolding translate
to_lower String.[] = String.[]
to_lower (String.◌∷◌ c s) =
    String.◌∷◌ (translate "ABCDEFGHIJKLMNOPQRSTUVWXYZ" "abcdefghijklmnopqrstuvwxyz" c) (to_lower s)

-- The first text of a split, with a character in front.
abbrev cons_first : Char → List String → List String
cons_first c [] = String.◌∷◌ c String.[] ∷ []
cons_first c (s ∷ rest) = String.◌∷◌ c s ∷ rest

-- strings.Split by a separator of one character
unfoldable pub split : String → Char → List String
split String.[] sep = String.[] ∷ []
split (String.◌∷◌ c s) sep =
    let rest = split s sep in if code c == code sep then String.[] ∷ rest else cons_first c rest

-- strings.Contains
abbrev pub contains : String → String → Bool
contains s part = is_some (find? s part)

-- s < t on strings
abbrev pub text_lt : String → String → Bool
text_lt s t = is_lt (compare s t)

-- strings.Join
unfoldable pub join : List String → String → String
join [] sep = String.[]
join (s ∷ []) sep = s
join (s ∷ t ∷ rest) sep = s +++ sep +++ join (t ∷ rest) sep

trim_test : trim "FRONTEND.default.web.http" "FRONTEND." ≡ "default.web.http"
unfolding trim deciding
trim_test = refl

lower_test : to_lower "UDP" ≡ "udp"
unfolding to_lower deciding
lower_test = refl

replace_test : replace_all "default/web:http" "/" "." ≡ "default.web:http"
unfolding replace_all deciding
replace_test = refl
