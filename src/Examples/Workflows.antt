-- ===== src/Examples/Workflows.antt =====
-- Witnesses: a workflow that runs a command again and again until its visits are used up.
use enzarb.Base.{
  ◌≤◌, ◌<◌, ◌≡◌, refl, ◌↔◌, ◌⊎◌, true, false, none, some, [], ◌∷◌, All, length, is_empty, Result,
  ok, err, arith,
}
use enzarb.Base.Text.{text, show}
use enzarb.Base.Strings.{str_eq, split_parts, split_once, find, trim}
use enzarb.Workflow.Json.{Value, null}
use enzarb.Workflow.Engine.{
  Engine, shell_quote, template_vars, expr_vars, filter_globals, root_of, kind_name, node_roots,
  trigger_roots,
}
use enzarb.Workflow.Engine.Quote.{read_word, outside, read_word-shell_quote}
use enzarb.Workflow.Schema.{
  Workflow, WorkflowsFile, Node, command_node, end_node, edges, done, Humantime, next, max_visits,
  node_max_visits, edges_of, outputs, node_type,
}
use enzarb.Workflow.Event.{Event, valid_pattern}
use enzarb.Workflow.Run.{
  RunState, RunInfo, Transition, RunError, start, fresh, enter, enter_node, arrive, count,
  visits_of, current, is_ended, workflow_of, current_node, not_running,
}
use enzarb.Workflow.Run.Steps.{advance, advance_from}
use enzarb.Workflow.Run.Started.{Started}
use enzarb.Workflow.Run.Budget.{budget}
use enzarb.Workflow.Run.Bound.{starts, advances, Runs-bounded}
use enzarb.Workflow.Run.Validated.{Decides, validate-start, validate-Decides}
use enzarb.Workflow.Report.{is_ok, error_if, an_error, a_warning}
use enzarb.Workflow.Validate.File.{validate}
use enzarb.Workflow.Validate.Refs.{
  check_id, valid_id, all_bytes, check_patterns, check_pattern, known_events, check_duration,
  check_expr, check_template, check_read, check_vars,
}
use enzarb.Workflow.Validate.Nodes.{validate_node}
use enzarb.Workflow.Validate.File.Edges.{check_next, check_edges, check_edge, check_condition}
use enzarb.Workflow.Validate.Reach.{
  check_reachability, reachable, search_from, scan, targets, targets_of, can_end, passes, pass,
  end_ids, check_stuck, check_unreachable,
}
use enzarb.Workflow.Validate.Reach.Passes.{CanEnd}
use enzarb.Workflow.Validate.Reach.Ends.{check_reachability_iff}
use enzarb.Workflow.Glob.{glob_matches}
use enzarb.Workflow.Glob.Correct.{Matches, glob_matches_iff}
use enzarb.Workflow.DryRun.{Trace, trace}
use enzarb.Workflow.DryRun.Bound.{trace-some}

-- Renders a template to itself, and finds every condition true.
abbrev engine : Engine
engine = record {
  render_named = λ name src ctx. ok src;
  named_variables = λ name src. ok [];
  eval = λ src ctx. ok (some true);
  expression_variables = λ src. ok [];
}

abbrev humantime : Humantime
humantime = record { parse = λ s. ok 1; format = show }

abbrev again : Node
again = command_node (record {
  task = some (text "test");
  args = [];
  run = none;
  next = edges (
      record { condition = some (text "exit_code"); to = text "a" }
      ∷ record { condition = none; to = text "e" }
      ∷ []);
  max_visits = some 2;
})

abbrev looping : Workflow
looping = record {
  description = [];
  on = text "push" ∷ [];
  condition = none;
  start = text "a";
  timeout = none;
  max_runs = none;
  vars = [];
  nodes = (text "a", again) ∷ (text "e", end_node (record { status = done; reason = none })) ∷ [];
}

abbrev file : WorkflowsFile
file = record { version = 1; workflows = (text "w", looping) ∷ [] }

abbrev push : Event
push = record { name = text "push"; action = none; payload = null }

abbrev run : RunInfo
run = record { id = text "1"; attempt = 1; test = false }

abbrev s0 : RunState
s0 = enter looping looping.start (fresh (text "w") looping push run)

abbrev moved_or : Result RunError (Transition × RunState) → Transition
moved_or (ok r) = r.0
moved_or (err e) = Transition.run_ended done none

abbrev state_or : Result RunError (Transition × RunState) → RunState
state_or (ok r) = r.1
state_or (err e) = s0

abbrev s1 : RunState
s1 = state_or (advance engine file null s0)

valid : is_ok (validate engine humantime none file) ≡ true
unfolding is_ok validate error_if an_error a_warning check_id valid_id text all_bytes check_patterns
    check_pattern valid_pattern split_once known_events str_eq split_parts check_duration find
    validate_node template_vars expr_vars filter_globals root_of kind_name trim check_next
    check_edges check_edge check_condition check_expr check_template check_read check_vars
    node_roots trigger_roots outputs edges_of next node_type node_max_visits check_reachability
    reachable search_from scan targets targets_of can_end passes pass end_ids check_stuck
    check_unreachable
valid = refl

found : find (text "w") file.workflows ≡ some looping
unfolding find str_eq text
found = refl

start_s0 : start file (text "w") push run ≡ ok s0
unfolding start find str_eq text
start_s0 = refl

advance-s1 : advance engine file null s0 ≡ ok (moved_or (advance engine file null s0), s1)
unfolding advance current_node workflow_of find str_eq text enter enter_node max_visits visits_of
    count fresh current arrive advance_from next
advance-s1 = refl

Runs-bounded_example :
    (1 ≤ budget looping.nodes [])
    × (((is_ended s1 ≡ true) × ((out : Value) → advance engine file out s1 ≡ err not_running))
        ⊎ (1 < budget looping.nodes []))
unfolding max_visits node_max_visits
Runs-bounded_example =
    Runs-bounded engine file looping (omega arith, (omega arith, tt)) (text "w") push run s0 s1 1
      found start_s0 (advances null (moved_or (advance engine file null s0)) starts advance-s1)

validate-start_example :
    (s : RunState) × (start file (text "w") push run ≡ ok s) × Started (text "w") looping push run s
validate-start_example =
    validate-start engine humantime none file (text "w") looping push run valid found

validate-Decides_example : (current s1.status ≡ none) ⊎ Decides engine file looping s1
validate-Decides_example =
    validate-Decides engine humantime none file (text "w") looping push run valid found s0 s1 1
      start_s0 (advances null (moved_or (advance engine file null s0)) starts advance-s1)

check_reachability_iff_example :
    (is_ok (check_reachability (text "workflows.w") looping) ≡ true)
    ↔ ((is_empty looping.nodes ≡ false) × All (λ e. CanEnd looping.nodes e.0) looping.nodes)
check_reachability_iff_example = check_reachability_iff (text "workflows.w") looping

trace-some_example :
    (t : Trace) × (trace engine humantime file none [] 200 push (text "w") false ≡ some t)
    × (length t.steps ≤ 201)
trace-some_example = trace-some engine humantime file none [] 200 push (text "w") false

read_word-shell_quote_example :
    read_word outside (shell_quote (text "it's $(rm)")) ≡ some (text "it's $(rm)")
read_word-shell_quote_example = read_word-shell_quote (text "it's $(rm)")

glob_matches_iff_example :
    (glob_matches (text "mcp__*__submit*") (text "mcp__enzarb__submit_result") ≡ true)
    ↔ Matches (text "mcp__*__submit*") (text "mcp__enzarb__submit_result")
glob_matches_iff_example =
    glob_matches_iff (text "mcp__*__submit*") (text "mcp__enzarb__submit_result")
