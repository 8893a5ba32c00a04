-- ===== src/Python/Fnmatch.antt =====
-- `fnmatch.fnmatch` of the standard library, on POSIX (where `normcase` changes nothing): the
-- pattern is read into tests, and the whole name must match.
use Prim.Native.Char.{Char, code}
use omniscan.Prelude.{ℕ, String, ◌≡◌, refl, Bool, true, false, not, ◌&&◌, List, [], ◌∷◌, any}
use omniscan.Prelude.{Option, none, some, leb, eqb, if◌then◌else◌}
use omniscan.Prelude.Text.{same_char}

-- `*`, `?`, a literal, and a bracket with its ranges (a single character is a range of one).
pub data Glob : Type 0 where
  star question : Glob
  literal : ℕ → Glob
  bracket : Bool → List (ℕ × ℕ) → Glob

-- The body of a bracket: `a-z` is a range, a `-` first, last or after a range is a character.
ranges : String → List (ℕ × ℕ)
ranges String.[] = []
ranges (String.◌∷◌ a String.[]) = (code a, code a) ∷ []
ranges (String.◌∷◌ a (String.◌∷◌ b String.[])) = (code a, code a) ∷ (code b, code b) ∷ []
ranges (String.◌∷◌ a (String.◌∷◌ b (String.◌∷◌ c s))) =
    let spread = (code a, code c) ∷ ranges s in
    let plain = (code a, code a) ∷ ranges (String.◌∷◌ b (String.◌∷◌ c s)) in
    if same_char b "-" then spread else plain

-- The text up to the next `]` and the text behind it, if there is one.
closing : String → Option (String × String)
closing String.[] = none
closing (String.◌∷◌ c s) =
    if same_char c "]"
    then some ("", s)
    else elim (closing s) [ none ↦ none | some (body, rest) ↦ some (String.◌∷◌ c body, rest) ]

-- A `]` that stands first in the bracket belongs to its body.
body_of : String → Option (String × String)
unfolding closing
body_of String.[] = none
body_of (String.◌∷◌ c s) =
    if same_char c "]"
    then elim (closing s) [ none ↦ none | some (body, rest) ↦ some (String.◌∷◌ c body, rest) ]
    else closing (String.◌∷◌ c s)

-- `[!seq]` is the complement.
bracket_of : String → Option (Glob × String)
unfolding body_of ranges
bracket_of String.[] = none
bracket_of (String.◌∷◌ c s) =
    if same_char c "!"
    then elim (body_of s) [
      | none ↦ none
      | some (body, rest) ↦ some (bracket true (ranges body), rest)
    ]
    else elim (body_of (String.◌∷◌ c s)) [
      | none ↦ none
      | some (body, rest) ↦ some (bracket false (ranges body), rest)
    ]

-- One test for each round; the fuel is a bound on the length of the pattern.
compile : ℕ → String → List Glob
unfolding bracket_of
compile fuel String.[] = []
compile ℕ.zero (String.◌∷◌ c s) = []
compile (ℕ.suc fuel) (String.◌∷◌ c s) = elim (bracket_of s) [
  | none ↦ plain c ∷ compile fuel s
  | some (g, rest) ↦
      let closed = g ∷ compile fuel rest in
      let next = plain c ∷ compile fuel s in if same_char c "[" then closed else next
]
  where
    plain : Char → Glob
    plain c =
        if same_char c "*" then star else if same_char c "?" then question else literal (code c)

size : String → ℕ
size String.[] = 0
size (String.◌∷◌ c s) = ℕ.suc (size s)

in_ranges : ℕ → List (ℕ × ℕ) → Bool
in_ranges n rs = any (λ r. leb r.0 n && leb n r.1) rs

accepts : Glob → ℕ → Bool
unfolding in_ranges
accepts star n = true
accepts question n = true
accepts (literal m) n = eqb m n
accepts (bracket negated rs) n = if negated then not (in_ranges n rs) else in_ranges n rs

codes : String → List ℕ
codes String.[] = []
codes (String.◌∷◌ c s) = code c ∷ codes s

matches : List Glob → List ℕ → Bool
unfolding accepts
matches [] [] = true
matches [] (n ∷ s) = false
matches (star ∷ p) [] = matches p []
matches (star ∷ p) (n ∷ s) = elim (matches p (n ∷ s)) [ true ↦ true | false ↦ matches (star ∷ p) s ]
matches (question ∷ p) [] = false
matches (question ∷ p) (n ∷ s) = matches p s
matches (literal m ∷ p) [] = false
matches (literal m ∷ p) (n ∷ s) = elim (eqb m n) [ true ↦ matches p s | false ↦ false ]
matches (bracket b rs ∷ p) [] = false
matches (bracket b rs ∷ p) (n ∷ s) = elim (accepts (bracket b rs) n) [
  | true ↦ matches p s
  | false ↦ false
]

-- `fnmatch.fnmatch(name, pat)`
unfoldable pub fnmatch : String → String → Bool
unfolding compile matches size codes
fnmatch name pat = matches (compile (size pat) pat) (codes name)

star_test : fnmatch "api.example.com" "*.example.com" ≡ true
unfolding fnmatch
star_test = refl

star_miss_test : fnmatch "example.com" "*.example.com" ≡ false
unfolding fnmatch
star_miss_test = refl

range_test : fnmatch "10.0.3.7" "10.0.[1-4].?" ≡ true
unfolding fnmatch
range_test = refl

negated_test : fnmatch "10.0.3.7" "10.0.[!1-4].?" ≡ false
unfolding fnmatch
negated_test = refl

open_bracket_test : fnmatch "a[b" "a[b" ≡ true
unfolding fnmatch
open_bracket_test = refl

all_stars : (s : List ℕ) → matches (star ∷ []) s ≡ true
unfolding matches
all_stars [] = refl
all_stars (n ∷ s) = all_stars s

-- The pattern `*` matches every name.
pub fnmatch-star : (name : String) → fnmatch name "*" ≡ true
unfolding fnmatch
fnmatch-star name = all_stars (codes name)
