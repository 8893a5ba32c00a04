-- ===== src/Python/Url.antt =====
-- `urllib.parse.urlparse(value).hostname` of the standard library, on ASCII text. The check that a
-- bracketed host is an IP address is not modelled; unbalanced brackets raise, as there.
use Prim.Native.Char.{Char, code}
use omniscan.Prelude.{String, ◌<>◌, ◌≡◌, refl, Bool, true, false, ◌&&◌, ◌||◌, Option, none, some}
use omniscan.Prelude.{leb, ◌==◌, if◌then◌else◌}
use omniscan.Prelude.Text.{same_char, lower}
use omniscan.Prelude.Try.{Try, ok, raise, value_error}

-- The text before the first character that passes the test, and the rest from it on.
unfoldable pub span_to : (Char → Bool) → String → String × String
span_to p String.[] = ("", "")
span_to p (String.◌∷◌ c s) =
    if p c
    then ("", String.◌∷◌ c s)
    else (let (before, rest) = span_to p s in (String.◌∷◌ c before, rest))

abbrev pub drop_char : String → String
drop_char String.[] = ""
drop_char (String.◌∷◌ c s) = s

unfoldable pub has_char : Char → String → Bool
has_char c String.[] = false
has_char c (String.◌∷◌ d s) = same_char d c || has_char c s

-- `s.rpartition(c)[2]`
unfoldable pub after_last : Char → String → String
unfolding has_char
after_last c String.[] = ""
after_last c (String.◌∷◌ d s) =
    let deeper = after_last c s in
    if has_char c s then deeper else if same_char d c then s else String.◌∷◌ d s

-- `needle in s`, for a needle of at most three characters.
unfoldable pub has_scheme_mark : String → Bool
has_scheme_mark String.[] = false
has_scheme_mark (String.◌∷◌ c s) = begins s && same_char c ":" || has_scheme_mark s
  where
    begins : String → Bool
    begins (String.◌∷◌ a (String.◌∷◌ b r)) = same_char a "/" && same_char b "/"
    begins _ = false

is_alpha : Char → Bool
is_alpha c = leb 65 (code c) && leb (code c) 90 || leb 97 (code c) && leb (code c) 122

is_scheme_char : Char → Bool
unfolding is_alpha
is_scheme_char c =
    is_alpha c
    || leb 48 (code c) && leb (code c) 57
    || same_char c "+"
    || same_char c "-"
    || same_char c "."

all_scheme_chars : String → Bool
unfolding is_scheme_char
all_scheme_chars String.[] = true
all_scheme_chars (String.◌∷◌ c s) = is_scheme_char c && all_scheme_chars s

starts_alpha : String → Bool
unfolding is_alpha
starts_alpha String.[] = false
starts_alpha (String.◌∷◌ c s) = is_alpha c

-- The text behind `scheme:`, or the whole text where no scheme stands.
after_scheme : String → String
unfolding span_to starts_alpha all_scheme_chars
after_scheme url =
    let (scheme, rest) = span_to (λ c. same_char c ":") url in
    if rest == ""
    then url
    else if starts_alpha scheme && all_scheme_chars scheme
    then drop_char rest
    else url

netloc : String → String
unfolding span_to
netloc (String.◌∷◌ a (String.◌∷◌ b r)) =
    if same_char a "/" && same_char b "/"
    then (span_to (λ c. same_char c "/" || same_char c "?" || same_char c "#") r).0
    else ""
netloc _ = ""

host_part : String → String
unfolding after_last span_to has_char
host_part loc =
    let info = after_last "@" loc in
    if has_char "[" info
    then (span_to (λ c. same_char c "]") (drop_char (span_to (λ c. same_char c "[") info).1)).0
    else (span_to (λ c. same_char c ":") info).0

-- A zone behind `%` keeps its case.
lower_host : String → Option String
unfolding span_to lower
lower_host host =
    if host == ""
    then none
    else (let (name, zone) = span_to (λ c. same_char c "%") host in some (lower name <> zone))

xor : Bool → Bool → Bool
xor a b = if a then (if b then false else true) else b

-- `urlparse(value).hostname`
unfoldable pub hostname : String → Try (Option String)
unfolding after_scheme netloc host_part lower_host xor
hostname value =
    let loc = netloc (after_scheme value) in
    if xor (has_char "[" loc) (has_char "]" loc)
    then raise (value_error "Invalid IPv6 URL")
    else ok (lower_host (host_part loc))

host_test : hostname "https://user:pw@GitHub.com:8443/org/repo?x=1" ≡ ok (some "github.com")
unfolding hostname
host_test = refl

bare_test : hostname "//10.0.0.1:80/" ≡ ok (some "10.0.0.1")
unfolding hostname
bare_test = refl

no_host_test : hostname "org/repo" ≡ ok none
unfolding hostname
no_host_test = refl

v6_test : hostname "http://[FE80::1]:80/" ≡ ok (some "fe80::1")
unfolding hostname
v6_test = refl
