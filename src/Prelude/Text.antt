-- ===== src/Prelude/Text.antt =====
-- The methods of Python's `str` that the source calls, on ASCII text.
use Prim.Native.Nat.{ℕ}
use Prim.Native.Char.{Char, code}
use Prim.Native.String.{String}
use mathlib.Core.Path.{◌≡◌, refl}
use mathlib.Core.Bool.{Bool, true, false, ◌||◌, ◌&&◌}
use mathlib.Core.Option.{Option, none, some}
use mathlib.Core.List.{List, [], ◌∷◌}
use text.Mathlib.Text.{◌==◌}
use omniscan.Prelude.Tests.{eqb, ltb, if◌then◌else◌}

abbrev pub same_char : Char → Char → Bool
same_char c d = eqb (code c) (code d)

-- The character of the second text at the place where the first has `c`; `c` if it has none.
translate : String → String → Char → Char
translate (String.◌∷◌ u us) (String.◌∷◌ l ls) c = if same_char u c then l else translate us ls c
translate String.[] _ c = c
translate (String.◌∷◌ _ _) String.[] c = c

lower_char : Char → Char
unfolding translate
lower_char = translate "ABCDEFGHIJKLMNOPQRSTUVWXYZ" "abcdefghijklmnopqrstuvwxyz"

-- `s.lower()`
unfoldable pub lower : String → String
unfolding lower_char
lower String.[] = ""
lower (String.◌∷◌ c s) = String.◌∷◌ (lower_char c) (lower s)

upper_char : Char → Char
unfolding translate
upper_char = translate "abcdefghijklmnopqrstuvwxyz" "ABCDEFGHIJKLMNOPQRSTUVWXYZ"

-- `s.upper()`
unfoldable pub upper : String → String
unfolding upper_char
upper String.[] = ""
upper (String.◌∷◌ c s) = String.◌∷◌ (upper_char c) (upper s)

-- Python's whitespace, in ASCII: HT, LF, VT, FF, CR, the separators 28 to 31, and the blank.
is_space : Char → Bool
is_space c = let n = code c in ltb 8 n && ltb n 14 || ltb 27 n && ltb n 33

unfoldable pub lstrip : String → String
unfolding is_space
lstrip String.[] = ""
lstrip (String.◌∷◌ c s) = if is_space c then lstrip s else String.◌∷◌ c s

unfoldable pub rstrip : String → String
unfolding is_space
rstrip String.[] = ""
rstrip (String.◌∷◌ c s) =
    let rest = rstrip s in
    if is_space c then (if rest == "" then "" else String.◌∷◌ c rest) else String.◌∷◌ c rest

-- `s.strip()`
unfoldable pub strip : String → String
unfolding lstrip rstrip
strip s = lstrip (rstrip s)

-- Truth of an optional text: neither `None` nor "".
abbrev pub truthy : Option String → Bool
truthy none = false
truthy (some s) = if s == "" then false else true

lower_test : lower "GitHub.COM" ≡ "github.com"
unfolding lower
lower_test = refl

strip_test : strip " a b\n" ≡ "a b"
unfolding strip
strip_test = refl

-- `s.startswith(p)`
unfoldable pub begins_with : String → String → Bool
begins_with s String.[] = true
begins_with String.[] (String.◌∷◌ d p) = false
begins_with (String.◌∷◌ c s) (String.◌∷◌ d p) = same_char c d && begins_with s p

-- `needle in hay`
unfoldable pub has_text : String → String → Bool
unfolding begins_with
has_text needle String.[] = needle == ""
has_text needle (String.◌∷◌ c s) = begins_with (String.◌∷◌ c s) needle || has_text needle s

-- `s[n:]`
unfoldable pub drop_text : ℕ → String → String
drop_text ℕ.zero s = s
drop_text (ℕ.suc n) String.[] = ""
drop_text (ℕ.suc n) (String.◌∷◌ c s) = drop_text n s

-- `s[:n]`
unfoldable pub take_text : ℕ → String → String
take_text ℕ.zero s = ""
take_text (ℕ.suc n) String.[] = ""
take_text (ℕ.suc n) (String.◌∷◌ c s) = String.◌∷◌ c (take_text n s)

-- `len(s)`
unfoldable pub text_length : String → ℕ
text_length String.[] = 0
text_length (String.◌∷◌ c s) = ℕ.suc (text_length s)

-- `s.removeprefix(p)`
unfoldable pub remove_prefix : String → String → String
unfolding text_length
remove_prefix p s = if begins_with s p then drop_text (text_length p) s else s

-- The ASCII characters that end a line, besides the carriage return: LF, VT, FF, and the separators
-- 28 to 30.
is_line_end : Char → Bool
is_line_end c = let n = code c in ltb 9 n && ltb n 13 || ltb 27 n && ltb n 31

-- `s.splitlines()`, where "\r\n" ends one line.
glue : Char → List String → List String
glue c [] = String.◌∷◌ c "" ∷ []
glue c (line ∷ rest) = String.◌∷◌ c line ∷ rest

unfoldable pub split_lines : String → List String
unfolding glue is_line_end
split_lines String.[] = []
split_lines (String.◌∷◌ c s) =
    let rest = split_lines s in
    if is_line_end c
    then "" ∷ rest
    else if same_char c "\r"
    then (if begins_with s "\n" then rest else "" ∷ rest)
    else glue c rest

lines_test : split_lines "a\r\nb\n\nc" ≡ "a" ∷ "b" ∷ "" ∷ "c" ∷ []
unfolding split_lines begins_with
lines_test = refl

remove_prefix_test : remove_prefix "/src/" "/src/app.py" ≡ "app.py"
unfolding remove_prefix begins_with drop_text
remove_prefix_test = refl

-- `s < t`
unfoldable pub text_before : String → String → Bool
text_before s String.[] = false
text_before String.[] (String.◌∷◌ d t) = true
text_before (String.◌∷◌ c s) (String.◌∷◌ d t) =
    ltb (code c) (code d) || eqb (code c) (code d) && text_before s t

-- `rstrip("/")`
unfoldable pub strip_slashes : String → String
strip_slashes String.[] = ""
strip_slashes (String.◌∷◌ c s) =
    let rest = strip_slashes s in if rest == "" && same_char c "/" then "" else String.◌∷◌ c rest
