-- ===== src/Tests/Data.antt =====
-- A small installation: one project, one git target, one native adapter and one queued scan.
use omniscan.Prelude.{ℕ, String, ◌<>◌, true, false, none, some, [], ◌∷◌}
use omniscan.Prelude.Try.{ok}
use omniscan.Core.Enums.{sast, ScanStatus, high, medium, confirmed}
use omniscan.Core.Models.{
  Source, TargetSpec, Scope, Request, Project, Target, Scan, Finding, TriageRecord, Comment,
  Webhook, Db,
}
use omniscan.Core.World.{World}
use omniscan.Normalize.Runtime.{Runtime}
use omniscan.Normalize.Sarif.{Location, Result, SarifLog}
use omniscan.Adapters.Base.{ScannerAdapter, ContainerSpec, none_}
use omniscan.Adapters.Registry.{Registry}
use omniscan.Adapters.Runner.{Docker, timed_out}
use omniscan.Api.Webhooks.{Courier}
use omniscan.Api.Scans.{ScanCreate}
use omniscan.Engine.Workspace.{Machine}
use omniscan.Engine.Scheduler.Platform.{Platform}

abbrev pub runtime : Runtime
runtime = record { sha256_hex = λ s. s; float_text = λ s. none; show = λ j. "" }

abbrev pub courier : Courier
courier = record { hmac_hex = λ k b. k <> b; dumps = λ d. "{}"; post_ok = λ p. true }

abbrev pub location_at : ℕ → Location
location_at line = record {
  physical_location = some (record {
    artifact_location = some (record { uri = some "app.py" });
    region = some (record { start_line = some line; end_line = none });
  });
  logical_locations = [];
  properties = [];
}

abbrev pub result_with : ℕ → Result
result_with line = record {
  rule_id = "sqli";
  level = "error";
  message = "tainted query";
  locations = location_at line ∷ [];
  properties = [];
}

abbrev pub sarif : SarifLog
sarif = record {
  runs =
      record {
        driver = record { name = "demoscan"; rules = [] };
        properties = [];
        results = result_with 3 ∷ [];
      }
      ∷ [];
}

abbrev pub container : ContainerSpec
container = record {
  image = "demoscan";
  args = [];
  env = [];
  secret_refs = [];
  mounts = [];
  read_only_root = true;
  writable_tmp = true;
  network = none_;
  limits = record { cpu = 1000; memory_mb = 512; timeout_seconds = 60 };
  success_exit_codes = 0 ∷ [];
}

abbrev pub demoscan : ScannerAdapter
demoscan = record {
  name = "demoscan";
  scan_class = sast;
  capabilities = [];
  native = true;
  validate_inputs = λ r. ok tt;
  build_invocation = λ r. ok container;
  parse_output = λ s. ok sarif;
  run_native = λ r. ok "{}";
}

abbrev pub registry : Registry
registry = demoscan ∷ []

abbrev pub machine : Machine
machine = record {
  is_dir = λ p. true;
  resolve_path = λ p. p;
  fresh_dir = "/tmp/ws";
  succeeds = λ c. true;
}

abbrev pub docker : Docker
docker = record {
  path = none;
  resolve_secret = λ s. ok s;
  cpus = λ n. "1";
  megabytes = λ n. "512";
  number = λ n. "n";
  redact = λ s. s;
  launch = λ c n. timed_out;
}

abbrev pub platform : Platform
platform = record {
  registry = registry;
  machine = machine;
  runtime = runtime;
  docker = docker;
  courier = courier;
  redact = λ s. s;
  store = λ k s. ok k;
}

abbrev pub git_source : Source
git_source = record {
  type = some "git";
  url = some "https://git.example.com/app";
  ref = none;
  path = none;
  image = none;
}

abbrev pub no_target : TargetSpec
no_target = record { base_url = none }

abbrev pub scope : Scope
scope = record {
  allow = "git.example.com" ∷ [];
  deny = "prod.example.com" ∷ [];
  ownership_verified = true;
}

abbrev pub request : Request
request = record {
  source = git_source;
  target = no_target;
  tools = none;
  options = [];
  auth_ref = none;
  scope = some scope;
  rvd = none;
  iast_session = none;
}

abbrev pub scan : Scan
scan = record {
  id = "scan_1";
  project_id = "proj_1";
  scan_class = sast;
  status = ScanStatus.queued;
  request = request;
  idempotency_key = some "k1";
  correlation_id = "corr_1";
  error = none;
  created_at = 1;
}

abbrev pub project : Project
project = record {
  id = "proj_1";
  name = "App";
  slug = "app";
  application_id = none;
  created_at = 0;
}

abbrev pub git_target : Target
git_target = record {
  id = "tgt_1";
  project_id = "proj_1";
  kind = "git";
  identifier = "https://git.example.com/app";
  scope_allow = "git.example.com" ∷ [];
  scope_deny = [];
  ownership_verified = true;
  created_at = 0;
}

abbrev pub finding_with : String → Finding
finding_with id = record {
  id = id;
  scan_id = "scan_0";
  project_id = "proj_1";
  scan_class = sast;
  fingerprint = "f";
  rule_id = "sqli";
  title = "SQL injection";
  message = "tainted query";
  severity = high;
  location = [];
  sources = [];
  extra = [];
  chainability_score = 0;
  first_seen = 1;
  created_at = 1;
}

abbrev pub earlier_triage : TriageRecord
earlier_triage = record {
  id = "tri_0";
  finding_id = "fnd_1";
  status = confirmed;
  severity_override = some medium;
  assignee_id = none;
  reason = none;
  actor_id = "alice";
  created_at = 5;
}

abbrev pub comment : Comment
comment = record {
  id = "cmt_1";
  finding_id = "fnd_1";
  parent_id = none;
  author_id = "alice";
  body = "see the query";
  mentions = [];
  edited = false;
  deleted = false;
  created_at = 6;
}

abbrev pub hook : Webhook
hook = record {
  id = "wh_1";
  project_id = none;
  direction = "outbound";
  target_url = some "https://ci.example.com/hook";
  signing_secret = "whsec_a";
  events = "scan.completed" ∷ [];
  active = true;
  created_at = 0;
}

abbrev pub db : Db
db = record {
  applications = [];
  projects = project ∷ [];
  targets = git_target ∷ [];
  scans = scan ∷ [];
  jobs = [];
  findings = finding_with "fnd_1" ∷ [];
  triage_records = earlier_triage ∷ [];
  comments = comment ∷ [];
  sessions = [];
  webhooks = hook ∷ [];
  audit_log = [];
}

abbrev pub world : World
world = record { db = db; rand = λ n. "r"; draws = 0; now = 9; outbox = [] }

abbrev pub body : ScanCreate
body = record {
  scan_class = sast;
  project_id = "proj_1";
  source = some git_source;
  target = none;
  scope = none;
  auth_ref = none;
  tools = none;
  options = [];
  rvd = none;
  idempotency_key = some "k2";
}
