-- ===== src/Tests/Adapters.antt =====
-- The theorems of adapters/ at concrete inputs.
use omniscan.Prelude.{String, some, List, [], ◌∷◌}
use omniscan.Adapters.Rvd.Base.{Hypothesis}
use omniscan.Adapters.Chainability.{Bounded, score, score-Bounded}

abbrev hypothesis : String → String → Hypothesis
hypothesis id focus = record {
  id = id;
  title = "Possible weakness";
  rationale = "";
  composition_path = "api" ∷ [];
  suspected_severity = "medium";
  locations = [];
  focus = some focus;
  risk_tier = "unknown_unknown";
}

abbrev hypotheses : List Hypothesis
hypotheses =
    hypothesis "h1" "auth" ∷ hypothesis "h2" "isolation" ∷ hypothesis "h3" "deserialization" ∷ []

score-Bounded_example : Bounded (score hypotheses).0
score-Bounded_example = score-Bounded hypotheses
