-- ===== src/Core/Secrets.antt =====
-- core/secrets.py: references to secrets and the backends that resolve them. The environment and the
-- client of the vault are parameters.
use omniscan.Prelude.{
  String, ◌<>◌, ◌==◌, ◌≡◌, refl, Bool, true, ◌&&◌, ◌||◌, Option, none, some, [], ◌∷◌, contains,
  if◌then◌else◌,
}
use omniscan.Prelude.Text.{begins_with, drop_text, text_length, upper, same_char}
use omniscan.Prelude.Try.{Try, ok, raise, secret_not_found, other_error}
use omniscan.Python.Url.{has_scheme_mark, has_char}

-- `s.partition(sep)`, without the separator: the text before it and the text behind it.
unfoldable pub partition : String → String → String × String
unfolding begins_with drop_text text_length
partition sep String.[] = ("", "")
partition sep (String.◌∷◌ c s) =
    let (before, behind) = partition sep s in
    if begins_with (String.◌∷◌ c s) sep
    then ("", drop_text (text_length sep) (String.◌∷◌ c s))
    else (String.◌∷◌ c before, behind)

unfoldable pub not_found : String → Try String
not_found ref = raise (secret_not_found ("secret reference could not be resolved: " <> ref))

-- `path.split("/", 1)[-1]`
unfoldable pub below_mount : String → String
unfolding partition has_char
below_mount path = if has_char "/" path then (partition "/" path).1 else path

-- `.replace("/", "_").replace("-", "_")`
unfoldable pub underscored : String → String
underscored String.[] = ""
underscored (String.◌∷◌ c s) =
    let rest = underscored s in
    if same_char c "/" || same_char c "-" then String.◌∷◌ "_" rest else String.◌∷◌ c rest

unfoldable pub env_key : String → String
unfolding below_mount underscored upper
env_key path = "OMNISCAN_SECRET_" <> upper (underscored (below_mount path))

-- `EnvSecretsBackend.resolve`
unfoldable pub resolve_in_env : (String → Option String) → String → Try String
unfolding partition not_found env_key
resolve_in_env environ ref =
    let path = (partition "://" ref).1 in
    if path == ""
    then not_found ref
    else elim (environ (env_key path)) [ none ↦ not_found ref | some val ↦ ok val ]

-- `VaultSecretsBackend.resolve`; `read` takes the mount and the path and gives the value at a key, or
-- `none` where the client raises or has no such key.
unfoldable pub resolve_in_vault : (String → String → String → Option String) → String → Try String
unfolding partition not_found
resolve_in_vault read ref =
    let rest = (partition "://" ref).1 in
    let (path, key) = partition "#" rest in
    let (mount, secret_path) = partition "/" path in
    if path == "" || key == ""
    then not_found ref
    else elim (read mount secret_path key) [ none ↦ not_found ref | some val ↦ ok val ]

-- `get_secrets_backend`; `vault` is what the constructor of the vault backend gives.
unfoldable pub get_secrets_backend :
    (String → Option String) → Try (String → Try String) → String → Try (String → Try String)
unfolding resolve_in_env
get_secrets_backend environ vault name =
    if name == "env"
    then ok (resolve_in_env environ)
    else if name == "vault"
    then vault
    else raise (other_error ("unknown secrets backend: " <> name))

unfoldable pub is_secret_ref : String → Bool
unfolding partition has_scheme_mark
is_secret_ref value =
    has_scheme_mark value
    && contains ("vault" ∷ "ref" ∷ "aws-sm" ∷ "gcp-sm" ∷ []) (partition "://" value).0

env_key_test : env_key "omniscan/acme/log-in" ≡ "OMNISCAN_SECRET_ACME_LOG_IN"
unfolding env_key below_mount underscored upper partition has_char begins_with drop_text text_length
env_key_test = refl

is_secret_ref_test : is_secret_ref "vault://omniscan/acme" ≡ true
unfolding is_secret_ref partition has_scheme_mark begins_with drop_text text_length
is_secret_ref_test = refl
