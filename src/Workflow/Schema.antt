-- ===== src/Workflow/Schema.antt =====
-- ez/crates/ez-workflow/src/schema.rs: the workflows file.
-- The crates humantime and toml are parameters. A `Duration` is its nanoseconds.
use enzarb.Base.{
  ℕ, ◌*◌, ◌/◌, ◌^◌, Bool, true, false, Option, none, some, List, [], ◌∷◌, ◌++◌, length, ltb,
  if◌then◌else◌, Result, ok, err,
}
use enzarb.Base.Text.{Str, text, show}
use enzarb.Base.Strings.{trim, keys}
use enzarb.Workflow.Json.{
  Value, bool, string, array, object, object_of, collect, strings, no_fields,
}

abbrev pub version_supported : ℕ
version_supported = 1

abbrev pub max_file_bytes : ℕ
max_file_bytes = 256 * 1024

abbrev pub max_workflows : ℕ
max_workflows = 100

abbrev pub max_nodes : ℕ
max_nodes = 200

abbrev pub max_id_len : ℕ
max_id_len = 64

abbrev pub default_max_visits : ℕ
default_max_visits = 5

abbrev pub default_max_runs : ℕ
default_max_runs = 3

abbrev pub max_max_runs : ℕ
max_max_runs = 50

abbrev seconds : ℕ → ℕ
seconds s = s * 10 ^ 9

abbrev pub default_run_timeout : ℕ
default_run_timeout = seconds (14 * 24 * 3600)

abbrev pub max_timeout : ℕ
max_timeout = seconds (90 * 24 * 3600)

pub data NodeType : Type 0 where
  agent command action wait end : NodeType

pub data ActionKind : Type 0 where
  comment open_pull_request add_labels remove_labels : ActionKind

pub data EndStatus : Type 0 where
  done failed cancelled : EndStatus

pub record Edge : Type 0 where
  pub condition : Option Str
  pub to : Str

pub data Next : Type 0 where
  node : Str → Next
  edges : List Edge → Next

pub record AgentNode : Type 0 where
  pub mode : Str
  pub instruction : Str
  pub result : Option (List (Str × Value))
  pub push : Bool
  pub next : Next
  pub max_visits : Option ℕ

pub record CommandNode : Type 0 where
  pub task : Option Str
  pub args : List Str
  pub run : Option Str
  pub next : Next
  pub max_visits : Option ℕ

pub record ActionNode : Type 0 where
  pub action : ActionKind
  pub title : Option Str
  pub body : Option Str
  pub labels : List Str
  pub draft : Option Bool
  pub next : Next
  pub max_visits : Option ℕ

pub record WaitNode : Type 0 where
  pub on : List Str
  pub condition : Option Str
  pub timeout : Option Str
  pub next : Next
  pub max_visits : Option ℕ

pub record EndNode : Type 0 where
  pub status : EndStatus
  pub reason : Option Str

pub data Node : Type 0 where
  agent_node : AgentNode → Node
  command_node : CommandNode → Node
  action_node : ActionNode → Node
  wait_node : WaitNode → Node
  end_node : EndNode → Node

pub record Workflow : Type 0 where
  pub description : Str
  pub on : List Str
  pub condition : Option Str
  pub start : Str
  pub timeout : Option Str
  pub max_runs : Option ℕ
  pub vars : List (Str × Value)
  pub nodes : List (Str × Node)

pub record WorkflowsFile : Type 0 where
  pub version : ℕ
  pub workflows : List (Str × Workflow)

unfoldable pub type_name : NodeType → Str
type_name agent = text "agent"
type_name command = text "command"
type_name action = text "action"
type_name wait = text "wait"
type_name end = text "end"

unfoldable pub outputs : NodeType → List Str
outputs agent = text "result" ∷ text "git" ∷ text "exit" ∷ text "error" ∷ []
outputs command = text "exit_code" ∷ text "output" ∷ text "json" ∷ []
outputs action = text "number" ∷ text "url" ∷ []
outputs wait = text "event" ∷ text "timed_out" ∷ []
outputs end = []

unfoldable pub in_sandbox : NodeType → Bool
in_sandbox agent = true
in_sandbox command = true
in_sandbox t = false

unfoldable pub node_type : Node → NodeType
node_type (agent_node n) = agent
node_type (command_node n) = command
node_type (action_node n) = action
node_type (wait_node n) = wait
node_type (end_node n) = end

unfoldable pub next : Node → Option Next
next (agent_node n) = some n.next
next (command_node n) = some n.next
next (action_node n) = some n.next
next (wait_node n) = some n.next
next (end_node n) = none

abbrev pub unwrap_or {ℓ} : {A : Type ℓ} → A → Option A → A
unwrap_or d none = d
unwrap_or d (some a) = a

-- The `max_visits` that the node sets, as validation reads it too.
unfoldable pub node_max_visits : Node → Option ℕ
node_max_visits (agent_node n) = n.max_visits
node_max_visits (command_node n) = n.max_visits
node_max_visits (action_node n) = n.max_visits
node_max_visits (wait_node n) = n.max_visits
node_max_visits (end_node n) = none

unfoldable pub max_visits : Node → ℕ
unfolding node_max_visits
max_visits n = unwrap_or default_max_visits (node_max_visits n)

-- The edges in order; a plain node id is one unconditional edge.
unfoldable pub edges_of : Next → List Edge
edges_of (node to) = record { condition = none; to = to } ∷ []
edges_of (edges es) = es

unfoldable pub action_name : ActionKind → Str
action_name comment = text "comment"
action_name open_pull_request = text "open_pull_request"
action_name add_labels = text "add_labels"
action_name remove_labels = text "remove_labels"

unfoldable pub status_name : EndStatus → Str
status_name done = text "done"
status_name failed = text "failed"
status_name cancelled = text "cancelled"

unfoldable pub schema_of : List (Str × Value) → Value
schema_of props = object_of (
    (text "type", string (text "object"))
    ∷ (text "properties", object (collect props no_fields))
    ∷ (text "required", array (strings (keys props)))
    ∷ (text "additionalProperties", bool false)
    ∷ [])

-- The JSON Schema for `submit_result`, when the node declares a `result`.
unfoldable pub result_schema : AgentNode → Option Value
result_schema n = elim n.result [ none ↦ none | some props ↦ some (schema_of props) ]

-- humantime's `parse_duration` and `format_duration`
pub record Humantime : Type 0 where
  pub parse : Str → Result Str ℕ
  pub format : ℕ → Str

unfoldable pub name_duration : Str → Result Str ℕ → Result Str ℕ
name_duration s (ok d) = ok d
name_duration s (err e) = err (text "invalid duration `" ++ s ++ text "`: " ++ e)

unfoldable pub parse_duration : Humantime → Str → Result Str ℕ
parse_duration h s = name_duration s (h.parse (trim s))

abbrev result_ok {ℓ κ} : {E : Type ℓ} {A : Type κ} → Result E A → Option A
result_ok (ok a) = some a
result_ok (err e) = none

-- `timeout.as_deref().and_then(|t| parse_duration(t).ok())`
unfoldable pub timeout_of : Humantime → Option Str → Option ℕ
timeout_of h none = none
timeout_of h (some t) = result_ok (parse_duration h t)

unfoldable pub run_timeout : Humantime → Workflow → ℕ
run_timeout h wf = unwrap_or default_run_timeout (timeout_of h wf.timeout)

unfoldable pub run_limit : Workflow → ℕ
run_limit wf = unwrap_or default_max_runs wf.max_runs

unfoldable pub wait_timeout : Humantime → WaitNode → Option ℕ
wait_timeout h n = timeout_of h n.timeout

abbrev pub as_secs : ℕ → ℕ
as_secs d = d / 10 ^ 9

-- `toml::from_str`, its error as it is printed, is the parameter.
unfoldable pub parse : (Str → Result Str WorkflowsFile) → Str → Result Str WorkflowsFile
parse from_str src =
    if ltb max_file_bytes (length src)
    then err (
        text "workflows.toml is "
        ++ show (length src)
        ++ text " bytes; the limit is "
        ++ show max_file_bytes)
    else from_str src
