-- ===== src/Normalize/Sarif.antt =====
-- normalize/sarif.py: the subset of SARIF 2.1.0 that adapters produce and the normalizer reads.
-- Fields that no code of the repository reads (columns, snippets, versions, schema) are left out.
use omniscan.Prelude.{ℕ, String, Option, List}
use omniscan.Python.Json.{JsonDict}

pub record ArtifactLocation : Type 0 where
  pub uri : Option String

pub record Region : Type 0 where
  pub start_line : Option ℕ
  pub end_line : Option ℕ

pub record PhysicalLocation : Type 0 where
  pub artifact_location : Option ArtifactLocation
  pub region : Option Region

pub record LogicalLocation : Type 0 where
  pub name : Option String
  pub fully_qualified_name : Option String
  pub kind : Option String

pub record Location : Type 0 where
  pub physical_location : Option PhysicalLocation
  pub logical_locations : List LogicalLocation
  pub properties : JsonDict

pub record Result : Type 0 where
  pub rule_id : String
  pub level : String
  pub message : String
  pub locations : List Location
  pub properties : JsonDict

pub record ReportingDescriptor : Type 0 where
  pub id : String
  pub name : Option String
  pub short_description : Option String
  pub full_description : Option String
  pub default_configuration : JsonDict
  pub properties : JsonDict

pub record ToolComponent : Type 0 where
  pub name : String
  pub rules : List ReportingDescriptor

pub record Run : Type 0 where
  pub driver : ToolComponent
  pub properties : JsonDict
  pub results : List Result

pub record SarifLog : Type 0 where
  pub runs : List Run
