-- ===== src/Adapters/Rvd/Base.antt =====
-- adapters/rvd/backends/base.py: what a backend of the discovery loop is given and gives.
use omniscan.Prelude.{ℕ, String, Bool, Option, List}
use omniscan.Prelude.Dict.{Dict}
use omniscan.Prelude.Try.{Try}
use omniscan.Python.Json.{JsonDict}

-- `components` holds the `file` of each component.
pub record TargetModel : Type 0 where
  pub workspace_path : Option String
  pub files : List String
  pub components : List String

pub record Hypothesis : Type 0 where
  pub id : String
  pub title : String
  pub rationale : String
  pub composition_path : List String
  pub suspected_severity : String
  pub locations : List JsonDict
  pub focus : Option String
  pub risk_tier : String

-- The confidence is counted in thousandths.
pub record Observation : Type 0 where
  pub hypothesis_id : String
  pub verified : Bool
  pub confidence : ℕ
  pub evidence : String
  pub poc_artifact : Option String

-- What `hypothesize` gives: the hypotheses, the number of random texts that `new_id` drew for them, and
-- the assessments that the backend keeps for `probe`.
pub record Drawn : Type 0 where
  pub hypotheses : List Hypothesis
  pub draws : ℕ
  pub assessments : Dict Observation

-- `hypothesize` also takes the stream of random texts that `new_id` draws from, and `probe` the
-- assessments kept by the backend.
pub record Backend : Type 0 where
  pub name : String
  pub comprehend : Option String → List String → Try TargetModel
  pub hypothesize : (ℕ → String) → TargetModel → String → List String → Try Drawn
  pub probe : Dict Observation → Hypothesis → TargetModel → Bool → Try Observation
