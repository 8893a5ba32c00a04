-- ===== src/Normalize/Fingerprint/Laws.antt =====
-- What a fingerprint depends on, and what it leaves out.
use omniscan.Prelude.{
  String, ◌<>◌, ◌≡◌, ◌≢◌, refl, Option, none, some, List, [], ◌∷◌, arith, All, eq_iff,
}
use text.Mathlib.TextLemmas.{append-eq-nil_iff}
use omniscan.Prelude.Dict.{lookup}
use omniscan.Python.Json.{JsonDict}
use omniscan.Normalize.Runtime.{Runtime}
use omniscan.Normalize.Sarif.{Location, PhysicalLocation, ArtifactLocation, Result}
use omniscan.Normalize.Fingerprint.{
  fingerprint, location_key, parts_of, uri_part, property_parts, location_keys,
}

abbrev pub artifact_in : Option PhysicalLocation → Option ArtifactLocation
artifact_in none = none
artifact_in (some p) = p.artifact_location

abbrev pub artifact_of : Location → Option ArtifactLocation
artifact_of loc = artifact_in loc.physical_location

-- The same place but for the lines: the same artifact and logical locations, and the same values
-- under the five keys that name a route, a parameter or a flow.
pub record SamePlace (a b : Location) : Type 0 where
  pub artifact : artifact_of a ≡ artifact_of b
  pub logical : a.logical_locations ≡ b.logical_locations
  pub signals : All (λ key. lookup key a.properties ≡ lookup key b.properties) location_keys

property_parts-congr :
    (rt : Runtime) (p q : JsonDict) (keys : List String)
    → All (λ key. lookup key p ≡ lookup key q) keys
    → property_parts rt p keys ≡ property_parts rt q keys
unfolding property_parts
property_parts-congr rt p q [] h = refl
property_parts-congr rt p q (k ∷ keys) (e, h) = ground (arith, property_parts-congr rt p q keys h)

uri_part-congr :
    (a b : Option PhysicalLocation) → artifact_in a ≡ artifact_in b → uri_part a ≡ uri_part b
unfolding uri_part
uri_part-congr none none h = refl
uri_part-congr none (some q) h = ground arith
uri_part-congr (some p) none h = ground arith
uri_part-congr (some p) (some q) h = ground arith

parts_of-congr : (rt : Runtime) (a b : Location) → SamePlace a b → parts_of rt a ≡ parts_of rt b
unfolding parts_of
parts_of-congr rt a b h = cc (
  uri_part-congr a.physical_location b.physical_location h.artifact,
  property_parts-congr rt a.properties b.properties location_keys h.signals,
  h.logical,
)

-- Two results of one rule whose first locations are the same place have one fingerprint, whatever
-- their lines, further locations, levels, messages and properties are, and so across tools.
pub fingerprint_stable :
    (rt : Runtime) (scan_class : String) (r s : Result) (a b : Location) (as_ bs : List Location)
    → r.rule_id ≡ s.rule_id
    → r.locations ≡ a ∷ as_
    → s.locations ≡ b ∷ bs
    → SamePlace a b
    → fingerprint rt scan_class r ≡ fingerprint rt scan_class s
unfolding fingerprint
fingerprint_stable rt scan_class r s a b as_ bs rule ra sb place =
    rw (rule, ra, sb, location_key, parts_of-congr rt a b place)

append-ne-nil : (a b : String) → a ≢ "" → a <> b ≢ ""
append-ne-nil a b h e = h (append-eq-nil_iff.0 e).0

-- The result of a rule at one place, with nothing else set.
abbrev pub result_at : String → Location → Result
result_at rule loc = record {
  rule_id = rule;
  level = "warning";
  message = "";
  locations = loc ∷ [];
  properties = [];
}

abbrev pub file_only : String → Location
file_only uri = record {
  physical_location =
      some (record { artifact_location = some (record { uri = some uri }); region = none });
  logical_locations = [];
  properties = [];
}

abbrev pub file_and_name : String → String → Location
file_and_name uri name = record (file_only uri) {
  logical_locations = record { name = some name; fully_qualified_name = none; kind = none } ∷ [];
}

-- The parts are joined by a bar that they may contain: a file whose name holds a bar has the
-- fingerprint of another file with a logical name, at every rule and in every class.
pub fingerprint_collision :
    (rt : Runtime) (scan_class rule a b : String)
    → a ≢ ""
    → b ≢ ""
    → fingerprint rt scan_class (result_at rule (file_only (a <> "|" <> b)))
      ≡ fingerprint rt scan_class (result_at rule (file_and_name a b))
unfolding fingerprint property_parts lookup
fingerprint_collision rt scan_class rule a b ha hb =
    ground (arith, eq_iff a "", eq_iff b "", eq_iff (a <> "|" <> b) "", append-ne-nil a ("|" <> b))
