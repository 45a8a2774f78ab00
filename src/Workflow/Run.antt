-- ===== src/Workflow/Run.antt =====
-- ez/crates/ez-workflow/src/run.rs: a run's state and how it moves through the graph.
-- A method that changes the run takes its state and returns the next one. The order of the entries of
-- `visits` is never read.
pub mod Steps
pub mod Lands
pub mod Started
pub mod Budget
pub mod Bound
pub mod Outcome
pub mod Validated
use enzarb.Base.{
  ℕ, suc, ◌+◌, ◌%◌, ◌^◌, Bool, true, false, not, ◌&&◌, Option, none, some, List, [], ◌∷◌, ◌++◌, any,
  ltb, if◌then◌else◌, Result, ok, err, ◌>>=◌, ok_or, is_empty, is_some,
}
use enzarb.Base.Text.{Str, text, show}
use enzarb.Base.Strings.{str_eq, trim, find, has_key}
use enzarb.Workflow.Json.{
  Value, Fields, null, bool, number, string, object, object_of, no_fields, insert_field, insert_all,
  collect, get, is_object,
}
use enzarb.Workflow.Engine.{Engine, TemplateKind, plain, shell, render, eval_bool}
use enzarb.Workflow.Schema.{
  Workflow, WorkflowsFile, Node, agent_node, command_node, action_node, wait_node, end_node,
  EndNode, EndStatus, done, failed, cancelled, NodeType, ActionKind, Edge, Humantime, node_type,
  next, max_visits, edges_of, result_schema, status_name, type_name, wait_timeout, as_secs,
  unwrap_or,
}
use enzarb.Workflow.Event.{Event, Subject, event_context, subject, subject_json, matches}

pub record RunInfo : Type 0 where
  pub id : Str
  pub attempt : ℕ
  pub test : Bool

pub data RunStatus : Type 0 where
  at : (node : Str) → RunStatus
  ended : EndStatus → (node reason : Option Str) → RunStatus

pub record RunState : Type 0 where
  pub workflow : Str
  pub run : RunInfo
  pub event : Value
  pub subject : Option Subject
  pub nodes : Fields
  pub vars : Fields
  pub visits : List (Str × ℕ)
  pub previous : Option Str
  pub status : RunStatus

pub data Transition : Type 0 where
  moved : (from to : Str) (edge : ℕ) → Transition
  run_ended : EndStatus → (reason : Option Str) → Transition

pub data RunError : Type 0 where
  unknown_workflow : Str → RunError
  unknown_node : Str → RunError
  not_running : RunError
  wrong_node_type : Str → NodeType → RunError

unfoldable pub display : RunError → Str
display (unknown_workflow w) = text "there is no workflow `" ++ w ++ text "`"
display (unknown_node n) = text "there is no node `" ++ n ++ text "`"
display not_running = text "the run has ended"
display (wrong_node_type n t) = text "node `" ++ n ++ text "` is a " ++ type_name t ++ text " node"

pub data Rendered : Type 0 where
  agent_call : (mode instruction : Str) (result_schema : Option Value) (push : Bool) → Rendered
  command_call : (task : Option Str) (args : List Str) (script : Option Str) → Rendered
  action_call : ActionKind → (title body : Option Str) (labels : List Str) (draft : Bool) → Rendered
  wait_for : (on : List Str) (condition : Option Str) (timeout_secs : Option ℕ) → Rendered
  run_end : EndStatus → (reason : Str) → Rendered

-- The outputs a `wait` node records: the event that resumed it, or a timeout.
unfoldable pub wait_outputs : Option Event → Value
wait_outputs none = object_of ((text "event", null) ∷ (text "timed_out", bool true) ∷ [])
wait_outputs (some e) =
    object_of ((text "event", event_context e) ∷ (text "timed_out", bool false) ∷ [])

-- The current node id, while running.
unfoldable pub current : RunStatus → Option Str
current (at n) = some n
current (ended st n reason) = none

unfoldable pub is_ended : RunState → Bool
unfolding current
is_ended s = not (is_some (current s.status))

unfoldable run_json : RunInfo → Value
run_json r = object_of (
    (text "id", string r.id) ∷ (text "attempt", number r.attempt) ∷ (text "test", bool r.test) ∷ [])

-- The template context: `event`, `subject`, `nodes`, `run`, `vars`.
unfoldable pub context : RunState → Value
unfolding run_json
context s = object_of (
    (text "event", s.event)
    ∷ (text "subject", subject_json s.subject)
    ∷ (text "nodes", object s.nodes)
    ∷ (text "run", run_json s.run)
    ∷ (text "vars", object s.vars)
    ∷ [])

-- `end`: every way to end a run.
unfoldable pub end_run : EndStatus → Option Str → Option Str → RunState → Transition × RunState
end_run st n reason s = (run_ended st reason, record s { status = ended st n reason })

-- Ends the run as failed, or as cancelled, unless it is over.
unfoldable pub fail : Str → RunState → RunState
fail reason s = if is_ended s then s else (end_run failed none (some reason) s).1

unfoldable pub cancel : Str → RunState → RunState
cancel reason s = if is_ended s then s else (end_run cancelled none (some reason) s).1

-- `*visits.entry(id).or_insert(0) += 1`
unfoldable pub count : Str → List (Str × ℕ) → List (Str × ℕ)
count id [] = (id, 1) ∷ []
count id (e ∷ d) = if str_eq e.0 id then (e.0, (e.1 + 1) % 2 ^ 32) ∷ d else e ∷ count id d

unfoldable pub visits_of : Str → List (Str × ℕ) → ℕ
visits_of id d = unwrap_or 0 (find id d)

unfoldable pub arrive : Str → Node → RunStatus
arrive id (end_node e) = ended e.status (some id) none
arrive id n = at id

unfoldable pub enter_node : Str → Option Node → RunState → RunState
enter_node id none s =
    (end_run failed none (some (text "there is no node `" ++ id ++ text "`")) s).1
enter_node id (some n) s =
    let visited = record s { visits = count id s.visits } in
    if ltb (max_visits n) (visits_of id (count id s.visits))
    then (end_run failed none
        (some
          (text "node `" ++ id ++ text "` reached max_visits (" ++ show (max_visits n) ++ text ")"))
        visited).1
    else record visited { status = arrive id n }

-- Counts a visit to `id`; ends the run past `max_visits` or on an `end` node.
unfoldable pub enter : Workflow → Str → RunState → RunState
enter wf id s = enter_node id (find id wf.nodes) s

-- The state before the start node is entered.
unfoldable pub fresh : Str → Workflow → Event → RunInfo → RunState
fresh workflow wf e run = record {
  workflow = workflow;
  run = run;
  event = event_context e;
  subject = subject e;
  nodes = no_fields;
  vars = collect wf.vars no_fields;
  visits = [];
  previous = none;
  status = at wf.start;
}

-- A new run of the workflow triggered by the event, at its `start` node.
unfoldable pub start : WorkflowsFile → Str → Event → RunInfo → Result RunError RunState
start file workflow e run = do
  wf ← ok_or (find workflow file.workflows) (unknown_workflow workflow)
  (if has_key wf.start wf.nodes
      then ok (enter wf wf.start (fresh workflow wf e run))
      else err (unknown_node wf.start))

unfoldable pub workflow_of : WorkflowsFile → RunState → Result RunError Workflow
workflow_of file s = ok_or (find s.workflow file.workflows) (unknown_workflow s.workflow)

unfoldable pub current_node : WorkflowsFile → RunState → Result RunError (Workflow × Str × Node)
current_node file s = do
  wf ← workflow_of file s
  id ← ok_or (current s.status) not_running
  n ← ok_or (find id wf.nodes) (unknown_node id)
  ok (wf, id, n)
