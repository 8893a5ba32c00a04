-- ===== src/Core/Redact.antt =====
-- core/redact.py: whatever looks like a secret is masked. The parameter `sub` is `re.sub`, of
-- a pattern, a replacement and a text; the pattern of the keys, which is only searched for, is a list
-- of texts, without regard to case.
pub mod Laws
use omniscan.Prelude.{String, Bool, true, false, List, [], ◌∷◌, any, if◌then◌else◌}
use omniscan.Prelude.Text.{lower, has_text}
use omniscan.Python.Json.{Json, Items, Fields, null, boolean, num, str, arr, obj}

-- `_MASK`
abbrev pub mask : String
mask = "***REDACTED***"

-- `_SENSITIVE_KEYS`: the alternatives, with each optional separator written out.
abbrev pub sensitive_words : List String
sensitive_words =
    "secret" ∷ "token" ∷ "password" ∷ "passwd" ∷ "apikey" ∷ "api_key" ∷ "api-key" ∷ "auth"
    ∷ "credential" ∷ "privatekey" ∷ "private_key" ∷ "private-key" ∷ "cookie" ∷ "session" ∷ []

unfoldable pub is_sensitive : String → Bool
is_sensitive key = any (λ word. has_text word (lower key)) sensitive_words

-- `_VALUE_PATTERNS`
abbrev pub value_patterns : List String
value_patterns =
    "(?i)bearer\\s+[A-Za-z0-9\\-._~+/]+=*" ∷ "(?i)\\bvault://\\S+"
    ∷ "\\bgh[pousr]_[A-Za-z0-9]{20,}\\b" ∷ "\\bAKIA[0-9A-Z]{16}\\b"
    ∷ "\\b(?:sk|rk)-[A-Za-z0-9]{20,}\\b"
    ∷ "-----BEGIN [A-Z ]*PRIVATE KEY-----[\\s\\S]+?-----END [A-Z ]*PRIVATE KEY-----" ∷ []

-- The loop of `_redact_str`.
unfoldable pub sub_all : (String → String → String → String) → List String → String → String
sub_all sub [] s = s
sub_all sub (pat ∷ pats) s = sub_all sub pats (sub pat mask s)

-- `_redact_str`
unfoldable pub redact_str : (String → String → String → String) → String → String
unfolding sub_all
redact_str sub s = sub_all sub value_patterns s

unfoldable mutual
  pub redact : (String → String → String → String) → Json → Json
  redact sub null = null
  redact sub (boolean b) = boolean b
  redact sub (num n) = num n
  redact sub (str s) = str (redact_str sub s)
  redact sub (arr xs) = arr (redact_items sub xs)
  redact sub (obj r) = obj (redact_fields sub r)

  pub redact_items : (String → String → String → String) → Items → Items
  redact_items sub Items.nil = Items.nil
  redact_items sub (Items.cons x xs) = Items.cons (redact sub x) (redact_items sub xs)

  pub redact_fields : (String → String → String → String) → Fields → Fields
  redact_fields sub Fields.end = Fields.end
  redact_fields sub (Fields.field k v r) =
      Fields.field k (if is_sensitive k then str mask else redact sub v) (redact_fields sub r)
