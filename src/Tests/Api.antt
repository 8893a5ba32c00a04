-- ===== src/Tests/Api.antt =====
-- The theorems of api/ at concrete inputs.
use omniscan.Prelude.{String, ◌≡◌, ◌≢◌, ◌≤◌, ◌⊎◌, inl, inr, refl, true, ◌||◌, Option, none, some}
use omniscan.Prelude.{List, [], ◌∷◌, arith, any, contains, map, length, All}
use omniscan.Prelude.Table.{find_by}
use omniscan.Prelude.Try.{ok, raise, value_error}
use omniscan.Core.Enums.{sast, ScanStatus, IastSessionStatus, high, fixed}
use omniscan.Core.Models.{IastSession, Scan}
use omniscan.Core.World.{World}
use omniscan.Api.Audit.{Redactor}
use omniscan.Api.Comments.{comment_key, edit, delete, others_kept, delete_marks}
use omniscan.Api.Findings.{finding_key, effective, triage, assign}
use omniscan.Api.Findings.Triage.{Seen, triage-Seen, assign-Seen}
use omniscan.Api.Projects.{get_project, sorted, set_update, list_targets, resolve_scope, ScopeSpec}
use omniscan.Api.Projects.Merge.{granted, requested, resolve_scope-sets}
use omniscan.Api.Scans.{ScanCreate, replayed, create_new, create_scan}
use omniscan.Api.Scans.Created.{Created, create_scan-Created, create_scan_refused}
use omniscan.Api.Scans.Planned.{Created-plan_scan}
use omniscan.Api.Webhooks.{deliver_to, post_for}
use omniscan.Api.Webhooks.Laws.{In, Subscribed, Justified, deliver_to-Justified, deliver_to-each}
use omniscan.Engine.Planner.Laws.{Available}
use omniscan.Engine.Planner.{planned, requested_hosts, requested_tools}
use omniscan.Prelude.Sort.{sort}
use omniscan.Python.Url.{hostname, has_scheme_mark}
use omniscan.Python.Fnmatch.{fnmatch}
use omniscan.Core.ScopeGuard.{enforce, host_of, matches_any}
use omniscan.Adapters.Registry.{default_tools, names_for_class}
use omniscan.Engine.Scheduler.Execute.{plan_scan}
use omniscan.Api.Iast.{get_session, authenticate_collector}
use omniscan.Python.Json.{JsonDict, str, boolean}
use omniscan.Prelude.Dict.{lookup, insert}
use omniscan.Normalize.Finding.{
  normalize_sarif, normalize_runs, normalize_results, normalize_result, score_of, dedup,
}
use omniscan.Api.Iast.Collect.{event_to_result, recorded, add_event, ingest_events}
use omniscan.Api.Iast.Collect.Repeated.{ingest_events_twice}
use omniscan.Api.Iast.Auth.{Admitted, authenticate_collector-Admitted}
use omniscan.Tests.Data.{
  runtime, db, request, platform, courier, world, body, finding_with, comment, hook,
}

abbrev keep_all : Redactor
keep_all d = d

abbrev extra_hosts : Option ScopeSpec
extra_hosts = some (record { allow = "cdn.example.com" ∷ []; deny = [] })

resolve_scope-sets_example :
    let scope = resolve_scope world.db "proj_1" extra_hosts in
    let targets = list_targets world.db "proj_1" in
    (contains scope.allow "cdn.example.com" ≡ (
      granted (λ t. t.scope_allow) targets "cdn.example.com"
      || requested (λ s. s.allow) extra_hosts "cdn.example.com"))
    × (contains scope.deny "cdn.example.com" ≡ (
        granted (λ t. t.scope_deny) targets "cdn.example.com"
        || requested (λ s. s.deny) extra_hosts "cdn.example.com"))
    × (scope.ownership_verified ≡ any (λ t. t.ownership_verified) targets)
resolve_scope-sets_example = resolve_scope-sets world.db "proj_1" extra_hosts "cdn.example.com"

finding_found : find_by finding_key "fnd_1" world.db.findings ≡ some (finding_with "fnd_1")
unfolding find_by
finding_found = refl

triage-Seen_example :
    Seen
      (finding_with "fnd_1")
      high
      fixed
      world.db
      (triage keep_all "fnd_1" "bob" (some fixed) none none world).1.db
triage-Seen_example =
    triage-Seen keep_all "bob" (some fixed) none none (finding_with "fnd_1") "fnd_1" world
      finding_found (omega arith, tt)

assign-Seen_example :
    Seen
      (finding_with "fnd_1")
      high
      (effective world.db (finding_with "fnd_1")).effective_status
      world.db
      (assign keep_all "fnd_1" "bob" (some "carol") world).1.db
assign-Seen_example =
    assign-Seen keep_all "bob" (some "carol") (finding_with "fnd_1") "fnd_1" world finding_found
      (omega arith, tt)

comment_found : find_by comment_key "cmt_1" world.db.comments ≡ some comment
unfolding find_by
comment_found = refl

others_kept_example :
    (find_by comment_key "cmt_1" (edit keep_all "cmt_1" "bob" "no" world).1.db.comments
      ≡ some comment)
    × (find_by comment_key "cmt_1" (delete keep_all "cmt_1" "bob" world).1.db.comments
        ≡ some comment)
others_kept_example =
    others_kept keep_all "cmt_1" "bob" "no" "cmt_1" comment world comment_found refl

delete_marks_example :
    let (r, v) = delete keep_all "cmt_1" "alice" world in
    (r ≡ ok (record comment { deleted = true; body = "[deleted]" }))
    × (find_by comment_key "cmt_1" v.db.comments
        ≡ some (record comment { deleted = true; body = "[deleted]" }))
    × (v.db.findings ≡ world.db.findings)
    × (v.db.triage_records ≡ world.db.triage_records)
delete_marks_example = delete_marks keep_all "cmt_1" comment world comment_found

abbrev hook_url : String
hook_url = "https://ci.example.com/hook"

subscribed : Subscribed "scan.completed" "proj_1" hook hook_url
subscribed = record {
  outbound = refl;
  active = refl;
  address = refl;
  nonempty = refl;
  asked = refl;
  whose = inl refl;
}

deliver_to-Justified_example :
    let (posts, delivered) = deliver_to courier "scan.completed" (some "proj_1") "{}" (hook ∷ []) in
    All (Justified courier "scan.completed" "proj_1" "{}" (hook ∷ [])) posts
    × (delivered ≤ length posts)
deliver_to-Justified_example =
    deliver_to-Justified courier "scan.completed" "proj_1" "{}" (hook ∷ [])

deliver_to-each_example :
    In
      (post_for courier "scan.completed" "{}" hook hook_url)
      (deliver_to courier "scan.completed" (some "proj_1") "{}" (hook ∷ [])).0
deliver_to-each_example =
    deliver_to-each courier "scan.completed" "proj_1" "{}" hook hook_url (hook ∷ []) subscribed
      (inl refl)

abbrev unknown_project : ScanCreate
unknown_project = record body { project_id = "proj_9" }

refused : (create_scan unknown_project world).0 ≡ raise (value_error "unknown project: proj_9")
unfolding create_scan create_new get_project find_by
refused = refl

create_scan_refused_example : (create_scan unknown_project world).1 ≡ world
create_scan_refused_example =
    create_scan_refused unknown_project (value_error "unknown project: proj_9") world refused

abbrev made : Scan
made = record {
  id = "scan_r";
  project_id = "proj_1";
  scan_class = sast;
  status = ScanStatus.queued;
  request = record request {
    scope = some (record { allow = "git.example.com" ∷ []; deny = []; ownership_verified = true });
  };
  idempotency_key = some "k2";
  correlation_id = "corr_r";
  error = none;
  created_at = 9;
}

admitted : (create_scan body world).0 ≡ ok made
unfolding create_scan create_new get_project find_by requested_hosts hostname enforce resolve_scope
    sorted sort list_targets set_update host_of has_scheme_mark matches_any fnmatch
admitted = refl

create_scan-Created_example :
    ((replayed (some "k2") world.db.scans ≡ some made) × ((create_scan body world).1 ≡ world))
    ⊎ Created body world made (create_scan body world).1
create_scan-Created_example = create_scan-Created body made world admitted

made_is_new :
    ((replayed (some "k2") world.db.scans ≡ some made) × ((create_scan body world).1 ≡ world))
      ⊎ Created body world made (create_scan body world).1
    → Created body world made (create_scan body world).1
unfolding replayed
made_is_new (inl (e, same)) = absurd (cc e)
made_is_new (inr c) = c

some_tool : requested_tools platform.registry sast none ≢ []
unfolding requested_tools default_tools names_for_class
some_tool h = cc h

tools_known : Available platform.registry sast (requested_tools platform.registry sast none)
unfolding requested_tools default_tools names_for_class
tools_known = (refl, tt)

Created-plan_scan_example :
    plan_scan platform made
    ≡ ok (record {
      scan_class = sast;
      jobs = map (planned sast) (requested_tools platform.registry sast none);
    })
Created-plan_scan_example =
    Created-plan_scan platform body world (create_scan body world).1 made
      (made_is_new (create_scan-Created body made world admitted)) some_tool tools_known

abbrev session : IastSession
session = record {
  id = "sess_1";
  project_id = "proj_1";
  runtime = "python";
  status = IastSessionStatus.active;
  collector_token_ref = "ref://iast/sess_1/collector-token";
  collector_token_hash = "iastk_a";
  scan_id = some "scan_1";
  created_at = 1;
  expires_at = 7201;
  finalized_at = none;
}

abbrev with_session : World
with_session = record world { db = record db { sessions = session ∷ [] } }

abbrev plain_hash : String → String
plain_hash s = s

agent_admitted :
    (authenticate_collector plain_hash "sess_1" (some "iastk_a") with_session).0 ≡ ok session
unfolding authenticate_collector get_session find_by
agent_admitted = refl

authenticate_collector-Admitted_example :
    Admitted plain_hash "sess_1" (some "iastk_a") with_session session
authenticate_collector-Admitted_example =
    authenticate_collector-Admitted plain_hash "sess_1" (some "iastk_a") with_session session
      agent_admitted

abbrev events : List JsonDict
events = (("sink", str "cursor.execute") ∷ ("tainted", boolean true) ∷ []) ∷ []

events_taken : (ingest_events runtime session events with_session).0 ≡ ok 1
unfolding ingest_events normalize_sarif normalize_runs normalize_results normalize_result score_of
    lookup event_to_result dedup insert recorded add_event
events_taken = refl

ingest_events_twice_example :
    let v = (ingest_events runtime session events with_session).1 in
    ingest_events runtime session events v ≡ (ok 0, v)
ingest_events_twice_example = ingest_events_twice runtime session events with_session 1 events_taken
