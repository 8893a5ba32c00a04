-- ===== src/Adapters/Base.antt =====
-- adapters/base.py: the contract that every scanner implements. An adapter is a record of its
-- methods; the raw output of a scanner is a text.
use omniscan.Prelude.{ℕ, String, Bool, Option, List}
use omniscan.Prelude.Try.{Try}
use omniscan.Prelude.Dict.{Dict}
use omniscan.Python.Json.{JsonDict}
use omniscan.Core.Enums.{ScanClass}
use omniscan.Core.Models.{Source, TargetSpec}
use omniscan.Normalize.Sarif.{SarifLog}

pub data NetworkMode : Type 0 where
  none_ egress target : NetworkMode

pub record ScanRequest : Type 0 where
  pub scan_id : String
  pub job_id : String
  pub scan_class : ScanClass
  pub project_id : String
  pub tool : String
  pub source : Source
  pub target : TargetSpec
  pub scope_allow : List String
  pub scope_deny : List String
  pub auth_ref : Option String
  pub options : JsonDict
  pub workspace_path : Option String

-- `cpu` is counted in thousandths.
pub record ResourceLimits : Type 0 where
  pub cpu : ℕ
  pub memory_mb : ℕ
  pub timeout_seconds : ℕ

pub record ContainerSpec : Type 0 where
  pub image : String
  pub args : List String
  pub env : Dict String
  pub secret_refs : Dict String
  pub mounts : Dict String
  pub read_only_root : Bool
  pub writable_tmp : Bool
  pub network : NetworkMode
  pub limits : ResourceLimits
  pub success_exit_codes : List ℕ

pub record ScannerAdapter : Type 0 where
  pub name : String
  pub scan_class : ScanClass
  pub capabilities : List String
  pub native : Bool
  pub validate_inputs : ScanRequest → Try (Unit {0})
  pub build_invocation : ScanRequest → Try ContainerSpec
  pub parse_output : String → Try SarifLog
  pub run_native : ScanRequest → Try String
