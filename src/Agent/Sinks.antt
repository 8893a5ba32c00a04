-- ===== src/Agent/Sinks.antt =====
-- omniscan_iast/agent.py: the sinks, what is reported of a call, and the patching of the modules.
pub mod Restored
use omniscan.Prelude.{
  zero, suc, ℕ, String, ◌<>◌, ◌==◌, Bool, true, false, not, ◌||◌, Option, none, some, List, [], ◌∷◌,
  ◌++◌, if◌then◌else◌,
}
use omniscan.Prelude.Dict.{Dict, lookup, insert}
use omniscan.Normalize.Fingerprint.{join}
use omniscan.Agent.Context.{RequestContext, taint_match}
use omniscan.Agent.Reporter.{Event}

-- An entry of `_SINKS`.
pub record Spec : Type 0 where
  pub mod_ : String
  pub attr : String
  pub rule : String
  pub sev : String
  pub arg : Option ℕ
  pub shell_only : Bool

abbrev spec_of : String → String → String → Option ℕ → Bool → Spec
spec_of mod_ attr rule arg shell_only = record {
  mod_ = mod_;
  attr = attr;
  rule = rule;
  sev = "high";
  arg = arg;
  shell_only = shell_only;
}

-- `_SINKS`
abbrev pub sinks : List Spec
sinks =
    spec_of "os" "system" "IAST-cmd-injection" (some 0) false
    ∷ spec_of "builtins" "eval" "IAST-code-injection" (some 0) false
    ∷ spec_of "builtins" "exec" "IAST-code-injection" (some 0) false
    ∷ spec_of "pickle" "loads" "IAST-insecure-deserialization" none false
    ∷ spec_of "pickle" "load" "IAST-insecure-deserialization" none false
    ∷ spec_of "subprocess" "run" "IAST-shell-injection" (some 0) true
    ∷ spec_of "subprocess" "call" "IAST-shell-injection" (some 0) true
    ∷ spec_of "subprocess" "Popen" "IAST-shell-injection" (some 0) true
    ∷ []

-- An argument of a call: `None`, a text, a list or tuple by the `str` of its items, or anything else by
-- its `str`.
pub data Argument : Type 0 where
  nothing : Argument
  text : String → Argument
  items : List String → Argument
  other : String → Argument

-- `args[idx] if len(args) > idx else None`
argument_at : ℕ → List Argument → Argument
argument_at idx [] = nothing
argument_at zero (a ∷ arguments) = a
argument_at (suc idx) (a ∷ arguments) = argument_at idx arguments

text_of : Argument → Option String
text_of nothing = none
text_of (text s) = some s
text_of (items ss) = some (join " " ss)
text_of (other s) = some s

-- `_candidate_string`
unfoldable pub candidate_string : Spec → List Argument → Option String
unfolding argument_at text_of join
candidate_string spec arguments = elim spec.arg [
  | none ↦ none
  | some idx ↦ text_of (argument_at idx arguments)
]

-- The frame of the application's call.
pub record Frame : Type 0 where
  pub file : String
  pub line : ℕ
  pub function : String

-- `ctx is not None and candidate`, and then `ctx.taint_match(candidate)`
unfoldable pub param_of : Option RequestContext → Option String → Option String
unfolding taint_match
param_of none candidate = none
param_of (some ctx) none = none
param_of (some ctx) (some candidate) = if candidate == "" then none else taint_match ctx candidate

abbrev is_some : Option String → Bool
is_some none = false
is_some (some p) = true

abbrev evidence_of : String → Option String → String
evidence_of sink none = "sink " <> sink <> " reached"
evidence_of sink (some p) = "sink " <> sink <> " reached with tainted input from '" <> p <> "'"

-- `_record`, up to the report of the event.
unfoldable pub event_of : Spec → Frame → Option RequestContext → List Argument → Event
unfolding candidate_string param_of
event_of spec frame ctx arguments =
    let param = param_of ctx (candidate_string spec arguments) in
    let sink = spec.mod_ <> "." <> spec.attr in
    record {
      sink = sink;
      rule_id = spec.rule;
      severity = spec.sev;
      file = frame.file;
      line = frame.line;
      function = frame.function;
      route = elim ctx [ none ↦ none | some c ↦ some c.route ];
      param = param;
      tainted = is_some param;
      evidence = evidence_of sink param;
    }

-- What `wrapper` reports before it calls the original: `shell` is `kwargs.get("shell") is True`.
unfoldable pub recorded : Spec → Frame → Option RequestContext → Bool → List Argument → Option Event
unfolding event_of
recorded spec frame ctx shell arguments =
    if not spec.shell_only || shell then some (event_of spec frame ctx arguments) else none

-- What an attribute of a module holds: a function of its own, or a wrapper.
pub data Function : Type 0 where
  own : String → Function
  wrapper : Function → Spec → Function

-- The attributes of the modules that can be imported, and `_installed`.
pub record Patched : Type 0 where
  pub table : Dict Function
  pub installed : List (String × Function)

-- One round of the loop of `instrument`; the attribute is named by its module and its own name.
abbrev pub key_of : Spec → String
key_of spec = spec.mod_ <> "." <> spec.attr

unfoldable pub patch_with : Option Function → Spec → Patched → Patched
patch_with none spec p = p
patch_with (some (wrapper f s)) spec p = p
patch_with (some (own f)) spec p = record {
  table = insert (key_of spec) (wrapper (own f) spec) p.table;
  installed = p.installed ++ (key_of spec, own f) ∷ [];
}

-- `instrument`
unfoldable pub instrument : List Spec → Patched → Patched
unfolding patch_with
instrument [] p = p
instrument (spec ∷ specs) p = instrument specs (patch_with (lookup (key_of spec) p.table) spec p)

-- The loop of `uninstrument`.
unfoldable pub restore : List (String × Function) → Dict Function → Dict Function
restore [] table = table
restore ((key, original) ∷ installed) table = restore installed (insert key original table)

-- `uninstrument`
unfoldable pub uninstrument : Patched → Patched
unfolding restore
uninstrument p = record { table = restore p.installed p.table; installed = [] }
