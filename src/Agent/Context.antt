-- ===== src/Agent/Context.antt =====
-- omniscan_iast/context.py: the inputs of the current request. The context variable is an `Option` that
-- the operations take.
use omniscan.Prelude.{
  leb, String, Bool, ◌&&◌, ◌==◌, not, Option, none, some, List, [], ◌∷◌, if◌then◌else◌,
}
use omniscan.Prelude.Text.{has_text, text_length}
use omniscan.Prelude.Dict.{Dict, insert}

pub record RequestContext : Type 0 where
  pub route : String
  pub params : Dict String

-- `pval and len(pval) >= 3 and pval in value`
abbrev pub occurs : String → String → Bool
occurs pval value = not (pval == "") && leb 3 (text_length pval) && has_text pval value

-- The loop of `taint_match`.
unfoldable pub first_match : Dict String → String → Option String
first_match [] value = none
first_match ((name, pval) ∷ params) value =
    if occurs pval value then some name else first_match params value

unfoldable pub taint_match : RequestContext → String → Option String
unfolding first_match
taint_match ctx value = first_match ctx.params value

-- The parameters that `wrap_wsgi` binds: of each name of `parse_qs` the first value.
unfoldable pub first_values : List (String × List String) → Dict String → Dict String
first_values [] params = params
first_values ((name, []) ∷ rest) params = first_values rest params
first_values ((name, v ∷ vs) ∷ rest) params = first_values rest (insert name v params)

-- `wrap_wsgi` up to the call of the application; `path` is `PATH_INFO`, if there is one.
unfoldable pub bind_request : Option String → List (String × List String) → RequestContext
unfolding first_values
bind_request path query = record {
  route = elim path [ none ↦ "/" | some p ↦ p ];
  params = first_values query [];
}
