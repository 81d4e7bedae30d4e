-- ===== src/Base/Text.antt =====
-- Texts as lists of code points, where the program walks their characters.
use Prim.Native.Nat.{ℕ}
use Prim.Native.Char.{code}
use Prim.Native.String.{String}
use mathlib.Core.Path.{◌≡◌}
use mathlib.Core.Bool.{Bool, true, false, ◌&&◌, ◌||◌}
use mathlib.Core.List.{List, [], ◌∷◌}
use text.Mathlib.Text.{◌==◌ as text_eq}
use text.Mathlib.TextEquality.{eq_iff}
use on_step_adapter.Base.Tests.{leb, ◌==◌, if◌then◌else◌}

abbrev pub Text : Type 0
Text = List ℕ

abbrev pub codes : String → Text
codes String.[] = []
codes (String.◌∷◌ c s) = code c ∷ codes s

-- `==` of whole texts
abbrev pub str_eq : String → String → Bool
str_eq a b = text_eq a b

str_eq→eq : (a b : String) → str_eq a b ≡ true → a ≡ b
str_eq→eq a b h = (eq_iff a b).0 h

-- `c in text`
abbrev pub has : ℕ → Text → Bool
has c [] = false
has c (d ∷ t) = c == d || has c t

-- The code points that Python's `str.isspace` accepts.
abbrev pub is_space : ℕ → Bool
is_space c =
    (leb 9 c && leb c 13)
    || (leb 28 c && leb c 32)
    || c == 133
    || c == 160
    || c == 5760
    || (leb 8192 c && leb c 8202)
    || c == 8232
    || c == 8233
    || c == 8239
    || c == 8287
    || c == 12288

abbrev pub is_letter : ℕ → Bool
is_letter c = (leb b'A' c && leb c b'Z') || (leb b'a' c && leb c b'z')

abbrev pub is_digit : ℕ → Bool
is_digit c = leb b'0' c && leb c b'9'

abbrev pub drop_while : (ℕ → Bool) → Text → Text
drop_while test [] = []
drop_while test (c ∷ t) =
    let rest = drop_while test t in elim (test c) [ true ↦ rest | false ↦ c ∷ t ]

abbrev trim_end : (ℕ → Bool) → ℕ → Text → Text
trim_end test c [] = if test c then [] else c ∷ []
trim_end test c (d ∷ t) = c ∷ d ∷ t

-- `rstrip` over a class of characters
abbrev pub rstrip : (ℕ → Bool) → Text → Text
rstrip test [] = []
rstrip test (c ∷ t) = trim_end test c (rstrip test t)

abbrev pub strip : Text → Text
strip t = rstrip is_space (drop_while is_space t)

-- `==` of texts held as code points
abbrev pub eq_text : Text → Text → Bool
eq_text [] [] = true
eq_text [] (d ∷ u) = false
eq_text (c ∷ t) [] = false
eq_text (c ∷ t) (d ∷ u) = c == d && eq_text t u

abbrev pub is_text : Text → String → Bool
is_text t s = eq_text t (codes s)
