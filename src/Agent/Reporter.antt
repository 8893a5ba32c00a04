-- ===== src/Agent/Reporter.antt =====
-- omniscan_iast/reporter.py: events are buffered and posted in batches. A post is attempted once: if
-- it fails, its events are dropped. `net n` tells whether the n-th attempt gets through.
pub mod Batches
use omniscan.Prelude.{
  ℕ, leb, String, ◌<>◌, ◌==◌, ◌&&◌, Bool, true, false, Option, none, some, List, [], ◌∷◌, ◌++◌,
  length, is_nil, if◌then◌else◌,
}
use omniscan.Prelude.Text.{truthy, strip_slashes}

-- The event that `_record` builds.
pub record Event : Type 0 where
  pub sink : String
  pub rule_id : String
  pub severity : String
  pub file : String
  pub line : ℕ
  pub function : String
  pub route : Option String
  pub param : Option String
  pub tainted : Bool
  pub evidence : String

-- A call of `httpx.post`, and whether it got through or its exception was swallowed.
pub record Attempt : Type 0 where
  pub url : String
  pub token : String
  pub events : List Event
  pub delivered : Bool

-- `HttpReporter`; `attempts` holds the posts attempted so far.
pub record HttpReporter : Type 0 where
  pub url : String
  pub token : String
  pub batch : ℕ
  pub buf : List Event
  pub attempts : List Attempt

-- `__init__`
unfoldable pub http_reporter : String → String → String → ℕ → HttpReporter
unfolding strip_slashes
http_reporter collector_url session_id token batch = record {
  url = strip_slashes collector_url <> "/api/v1/iast/sessions/" <> session_id <> "/events";
  token = token;
  batch = batch;
  buf = [];
  attempts = [];
}

-- The events of a post that raises are in no buffer any more.
unfoldable pub post : (ℕ → Bool) → List Event → HttpReporter → HttpReporter
post net events r =
    let attempt : Attempt = record {
      url = r.url;
      token = r.token;
      events = events;
      delivered = net (length r.attempts);
    } in
    record r { attempts = r.attempts ++ attempt ∷ [] }

-- `_flush_locked`, and `flush`
unfoldable pub flush : (ℕ → Bool) → HttpReporter → HttpReporter
unfolding post
flush net r = if is_nil r.buf then r else post net r.buf (record r { buf = [] })

unfoldable pub report : (ℕ → Bool) → Event → HttpReporter → HttpReporter
unfolding flush
report net event r =
    let filled : HttpReporter = record r { buf = r.buf ++ event ∷ [] } in
    if leb r.batch (length filled.buf) then flush net filled else filled

-- `from_env`: a reporter only if all three variables are set.
unfoldable pub from_env : (String → Option String) → Option HttpReporter
unfolding http_reporter
from_env environ = elim (environ "OMNISCAN_COLLECTOR_URL") [
  | none ↦ none
  | some url ↦ elim (environ "OMNISCAN_IAST_SESSION") [
    | none ↦ none
    | some sid ↦ elim (environ "OMNISCAN_IAST_TOKEN") [
      | none ↦ none
      | some token ↦
          if truthy (some url)
          then if truthy (some sid)
            then if truthy (some token) then some (http_reporter url sid token 10) else none
            else none
          else none
    ]
  ]
]
