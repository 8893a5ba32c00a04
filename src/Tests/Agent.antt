-- ===== src/Tests/Agent.antt =====
-- The theorems of omniscan_iast/ at concrete inputs.
use omniscan.Prelude.{ℕ, zero, suc, Bool, ◌≡◌, true, false, some, List, [], ◌∷◌, arith}
use omniscan.Prelude.Dict.{Dict, lookup}
use omniscan.Agent.Reporter.{Event, http_reporter}
use omniscan.Agent.Reporter.Batches.{
  Call, reported, flushed, events_of, run, Accounted, run-Accounted,
}
use omniscan.Agent.Sinks.{Function, own, sinks, instrument, uninstrument}
use omniscan.Agent.Sinks.Restored.{uninstrument-instrument}

abbrev event_at : ℕ → Event
event_at line = record {
  sink = "os.system";
  rule_id = "IAST-cmd-injection";
  severity = "high";
  file = "app.py";
  line = line;
  function = "view";
  route = some "/run";
  param = some "cmd";
  tainted = true;
  evidence = "sink os.system reached with tainted input from 'cmd'";
}

abbrev calls : List Call
calls =
    reported (event_at 1)
    ∷ reported (event_at 2)
    ∷ reported (event_at 3)
    ∷ flushed
    ∷ reported (event_at 4)
    ∷ []

-- The first post fails, the others get through.
abbrev net : ℕ → Bool
net zero = false
net (suc n) = true

run-Accounted_example :
    Accounted net
      (events_of calls)
      (run net calls (http_reporter "https://omniscan.example.com" "sess_1" "tok" 2))
run-Accounted_example =
    run-Accounted net "https://omniscan.example.com" "sess_1" "tok" 2 calls (omega arith)

abbrev modules : Dict Function
modules =
    ("os.system", own "system") ∷ ("builtins.eval", own "eval") ∷ ("pickle.loads", own "loads") ∷ []

uninstrument-instrument_example :
    lookup "os.system"
      (uninstrument (instrument sinks (record { table = modules; installed = [] }))).table
    ≡ lookup "os.system" modules
uninstrument-instrument_example = uninstrument-instrument sinks modules "os.system"
