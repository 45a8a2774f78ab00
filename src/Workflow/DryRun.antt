-- ===== src/Workflow/DryRun.antt =====
-- ez/crates/ez-workflow/src/dry_run.rs: traces of a file against one event.
-- The loop of `trace` has fuel: it pushes a step in every turn but the last, and stops at `max_steps` steps.
pub mod Bound
use enzarb.Base.{
  ℕ, zero, suc, ◌+◌, Bool, true, false, not, ◌&&◌, Option, none, some, List, [], ◌∷◌, ◌++◌, any,
  length, leb, ◌==◌, if◌then◌else◌, Result, ok, err,
}
use enzarb.Base.Text.{Str, text}
use enzarb.Base.Strings.{str_eq, find}
use enzarb.Workflow.Json.{Value}
use enzarb.Workflow.Engine.{Engine}
use enzarb.Workflow.Event.{Event, TriggerEval, evaluate_triggers}
use enzarb.Workflow.Schema.{
  WorkflowsFile, Workflow, Node, agent_node, NodeType, end, Edge, Next, EndStatus, failed,
  Humantime, node_type, next, edges_of, outputs, unwrap_or,
}
use enzarb.Workflow.Report.{Report, ModeCatalog, is_ok}
use enzarb.Workflow.Validate.File.{validate}
use enzarb.Workflow.Run.{
  RunState, RunInfo, RunStatus, at, ended, Transition, RunError, Rendered, run_end, display, start,
  fail, is_ended,
}
use enzarb.Workflow.Run.Steps.{render_current, advance}

abbrev pub default_max_steps : ℕ
default_max_steps = 200

pub record DryRunOptions : Type 0 where
  pub workflow : Option Str
  pub assume : List (Str × Value)
  pub max_steps : ℕ

pub record ModeView : Type 0 where
  pub id : Str
  pub tools : Option (List Str)

pub record TraceStep : Type 0 where
  pub node : Str
  pub node_type : NodeType
  pub visit : ℕ
  pub rendered : Option Rendered
  pub mode : Option ModeView
  pub assumed : Option Value
  pub transition : Option Transition

pub data TraceEnd : Type 0 where
  trace_ended : EndStatus → (node reason : Option Str) → TraceEnd
  needs_outcome : (node : Str) → NodeType → (outputs : List Str) → List Edge → TraceEnd
  step_limit : ℕ → TraceEnd

pub record Trace : Type 0 where
  pub workflow : Str
  pub forced : Bool
  pub steps : List TraceStep
  pub end : TraceEnd

pub record DryRun : Type 0 where
  pub report : Report
  pub triggers : List TriggerEval
  pub traces : List Trace

abbrev flat : Option (Option (List Str)) → Option (List Str)
flat none = none
flat (some o) = o

unfoldable mode_view : Option ModeCatalog → Node → Option ModeView
mode_view none (agent_node a) = some (record { id = a.mode; tools = none })
mode_view (some m) (agent_node a) =
    some (record { id = a.mode; tools = flat (find a.mode m.modes) })
mode_view modes n = none

abbrev visit_at : RunState → Str → ℕ
visit_at s id = unwrap_or 1 (find id s.visits)

-- The step that is pushed when a run has ended at a node
unfoldable end_step : RunState → EndStatus → Option Str → Option Str → List TraceStep
end_step s st none reason = []
end_step s st (some n) reason =
    record {
      node = n;
      node_type = end;
      visit = visit_at s n;
      rendered = some (run_end st (unwrap_or [] reason));
      mode = none;
      assumed = none;
      transition = none;
    }
    ∷ []

-- The edges of a node; an `end` has none.
abbrev edges_at : Option Next → List Edge
edges_at none = []
edges_at (some nx) = edges_of nx

unfoldable step_at : Option ModeCatalog → RunState → Str → Node → TraceStep
unfolding mode_view
step_at modes s id n = record {
  node = id;
  node_type = node_type n;
  visit = visit_at s id;
  rendered = none;
  mode = mode_view modes n;
  assumed = none;
  transition = none;
}

-- A turn of the loop goes on with a state, is the end of the trace, or is a panic.
pub data Turn : Type 0 where
  goes_on : TraceStep → RunState → Turn
  stops : List TraceStep → TraceEnd → Turn
  panics : Turn

unfoldable dry_run_info : RunInfo
dry_run_info = record { id = text "dry-run"; attempt = 1; test = true }

module _ (engine : Engine) (h : Humantime) (file : WorkflowsFile) (modes : Option ModeCatalog)
    (assume : List (Str × Value)) where
  -- The outcome of `advance`
  unfoldable advanced :
      TraceStep → RunState → Result RunError (Transition × RunState) → TraceStep × RunState
  advanced step s (ok r) = (record step { transition = some r.0 }, r.1)
  advanced step s (err e) = (step, fail (display e) s)

  -- What follows when the node was rendered
  unfoldable assumed_turn : TraceStep → RunState → Str → Node → Option Value → Turn
  unfolding advanced
  assumed_turn step s id n none =
      stops (step ∷ []) (needs_outcome id (node_type n) (outputs (node_type n)) (edges_at (next n)))
  assumed_turn step s id n (some out) =
      let r = advanced (record step { assumed = some out }) s (advance engine file out s) in
      goes_on r.0 r.1

  unfoldable rendered_turn :
      TraceStep → RunState → Str → Node → Result RunError (Result Str Rendered) → Turn
  unfolding assumed_turn
  rendered_turn step s id n (ok (ok r)) =
      assumed_turn (record step { rendered = some r }) s id n (find id assume)
  rendered_turn step s id n (ok (err m)) = goes_on step (fail m s)
  rendered_turn step s id n (err e) = goes_on step (fail (display e) s)

  -- `wf.nodes[&id]` panics for a node that is not there.
  unfoldable turn_at : RunState → Str → Option Node → Turn
  unfolding step_at rendered_turn
  turn_at s id none = panics
  turn_at s id (some n) =
      rendered_turn (step_at modes s id n) s id n (render_current engine h file s)

  -- One turn, by the status of the run
  unfoldable turn : ℕ → Workflow → List TraceStep → RunState → RunStatus → Turn
  unfolding turn_at end_step
  turn max_steps wf steps s (ended st n reason) =
      stops (end_step s st n reason) (trace_ended st n reason)
  turn max_steps wf steps s (at id) =
      if leb max_steps (length steps)
      then stops [] (step_limit max_steps)
      else turn_at s id (find id wf.nodes)

  -- The turns of the loop of `trace`. Nothing for a panic and when the fuel is used up.
  unfoldable pub trace_loop :
      ℕ → ℕ → Workflow → List TraceStep → RunState → Option (List TraceStep × TraceEnd)
  unfolding turn
  trace_loop zero max_steps wf steps s = none
  trace_loop (suc fuel) max_steps wf steps s = elim (turn max_steps wf steps s s.status) [
    | goes_on step t ↦ trace_loop fuel max_steps wf (steps ++ step ∷ []) t
    | stops rest stop ↦ some (steps ++ rest, stop)
    | panics ↦ none
  ]

  abbrev traced : Str → Bool → Option (List TraceStep × TraceEnd) → Option Trace
  traced workflow forced none = none
  traced workflow forced (some r) =
      some (record { workflow = workflow; forced = forced; steps = r.0; end = r.1 })

  -- `file.workflows[workflow]` is the workflow that the run was started in.
  unfoldable trace_from : ℕ → Str → Bool → Option Workflow → Result RunError RunState → Option Trace
  unfolding trace_loop
  trace_from max_steps workflow forced wf (err e) = some (record {
    workflow = workflow;
    forced = forced;
    steps = [];
    end = trace_ended failed none (some (display e));
  })
  trace_from max_steps workflow forced none (ok s) = none
  trace_from max_steps workflow forced (some wf) (ok s) =
      traced workflow forced (trace_loop (suc max_steps) max_steps wf [] s)

  unfoldable pub trace : ℕ → Event → Str → Bool → Option Trace
  unfolding trace_from dry_run_info
  trace max_steps e workflow forced =
      trace_from max_steps workflow forced (find workflow file.workflows)
        (start file workflow e dry_run_info)

-- The workflows whose trigger matched, and the one that the caller named.
unfoldable matched_names : List TriggerEval → List (Str × Bool)
matched_names [] = []
matched_names (t ∷ ts) =
    let rest = matched_names ts in if t.matched then (t.workflow, false) ∷ rest else rest

unfoldable with_forced : Option Str → List (Str × Bool) → List (Str × Bool)
with_forced none ws = ws
with_forced (some w) ws = if any (λ p. str_eq p.0 w) ws then ws else ws ++ (w, true) ∷ []

-- All traces, or nothing when one of them is nothing
unfoldable all_traces : (Str → Bool → Option Trace) → List (Str × Bool) → Option (List Trace)
all_traces f [] = some []
all_traces f (w ∷ ws) =
    let rest = all_traces f ws in
    elim (f w.0 w.1) [ none ↦ none | some t ↦ elim rest [ none ↦ none | some ts ↦ some (t ∷ ts) ] ]

abbrev with_traces : Report → List TriggerEval → Option (List Trace) → Option DryRun
with_traces r evals none = none
with_traces r evals (some ts) = some (record { report = r; triggers = evals; traces = ts })

abbrev steps_limit : ℕ → ℕ
steps_limit n = if n == 0 then default_max_steps else n

-- Validates, evaluates triggers and traces every matching workflow for one event.
unfoldable pub dry_run :
    Engine → Humantime → WorkflowsFile → Option ModeCatalog → Event → DryRunOptions → Option DryRun
unfolding all_traces with_forced matched_names
dry_run engine h file modes e opts =
    let report = validate engine h modes file in
    let evals = evaluate_triggers engine file.workflows e in
    if not (is_ok report)
    then some (record { report = report; triggers = []; traces = [] })
    else with_traces report evals (
        all_traces (trace engine h file modes opts.assume (steps_limit opts.max_steps) e)
          (with_forced opts.workflow (matched_names evals)))
