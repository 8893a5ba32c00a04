-- ===== src/Normalize/Fingerprint.antt =====
-- normalize/fingerprint.py: the key under which findings of several tools and scans collapse.
pub mod Laws
use omniscan.Prelude.{ℕ, zero, suc, String, ◌<>◌, ◌==◌, Bool, true, false, Option, none, some}
use omniscan.Prelude.{List, [], ◌∷◌, ◌++◌, map, if◌then◌else◌}
use omniscan.Prelude.Text.{take_text}
use omniscan.Prelude.Dict.{lookup}
use omniscan.Python.Json.{Json, JsonDict, str}
use omniscan.Normalize.Runtime.{Runtime}
use omniscan.Normalize.Sarif.{Location, LogicalLocation, PhysicalLocation, ArtifactLocation, Result}

-- `a or b or ""`
unfoldable pub first_text : Option String → Option String → String
first_text none none = ""
first_text none (some b) = b
first_text (some a) none = a
first_text (some a) (some b) = if a == "" then b else a

-- `str(value)` inside an f-string.
unfoldable pub format : Runtime → Json → String
format rt (str s) = s
format rt j = rt.show j

-- `sep.join(parts)`
unfoldable pub join : String → List String → String
join sep [] = ""
join sep (p ∷ []) = p
join sep (p ∷ q ∷ ps) = p <> sep <> join sep (q ∷ ps)

-- `[p for p in parts if p]`
unfoldable pub non_empty : List String → List String
non_empty [] = []
non_empty (p ∷ ps) = if p == "" then non_empty ps else p ∷ non_empty ps

uri_part : Option PhysicalLocation → List String
unfolding first_text
uri_part none = []
uri_part (some p) = elim p.artifact_location [ none ↦ [] | some a ↦ first_text a.uri none ∷ [] ]

logical_parts : List LogicalLocation → List String
unfolding first_text
logical_parts [] = []
logical_parts (ll ∷ lls) = first_text ll.fully_qualified_name ll.name ∷ logical_parts lls

property_parts : Runtime → JsonDict → List String → List String
unfolding format
property_parts rt props [] = []
property_parts rt props (key ∷ keys) =
    let rest = property_parts rt props keys in
    elim (lookup key props) [ none ↦ rest | some v ↦ (key <> "=" <> format rt v) ∷ rest ]

abbrev pub location_keys : List String
location_keys = "url" ∷ "route" ∷ "param" ∷ "sink" ∷ "composition_path" ∷ []

unfoldable pub parts_of : Runtime → Location → List String
unfolding uri_part logical_parts property_parts
parts_of rt loc =
    uri_part loc.physical_location
    ++ (logical_parts loc.logical_locations ++ property_parts rt loc.properties location_keys)

-- `_location_key`
unfoldable pub location_key : Runtime → List Location → String
unfolding parts_of join non_empty
location_key rt [] = "noloc"
location_key rt (loc ∷ locs) =
    let key = join "|" (non_empty (parts_of rt loc)) in if key == "" then "noloc" else key

unfoldable pub fingerprint : Runtime → String → Result → String
unfolding location_key take_text
fingerprint rt scan_class result = take_text 32 (
    rt.sha256_hex
      (scan_class <> "::" <> result.rule_id <> "::" <> location_key rt result.locations))
