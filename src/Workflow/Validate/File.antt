-- ===== src/Workflow/Validate/File.antt =====
-- ez/crates/ez-workflow/src/validate.rs: the checks of a file, of its workflows and of the edges.
pub mod Edges
use enzarb.Base.{
  ℕ, suc, ◌+◌, Bool, true, false, not, ◌&&◌, ◌||◌, Option, none, some, List, [], ◌∷◌, ◌++◌, any,
  length, ltb, leb, ◌==◌, if◌then◌else◌, is_empty, Result, ok, err,
}
use enzarb.Base.Text.{Str, text, show}
use enzarb.Base.Strings.{has_key}
use enzarb.Workflow.Json.{Value, is_scalar}
use enzarb.Workflow.Engine.{Engine, node_roots, trigger_roots}
use enzarb.Workflow.Schema.{
  Workflow, WorkflowsFile, Node, agent_node, action_node, Edge, NodeType, Next, ActionKind,
  open_pull_request, Humantime, parse, node_type, next, edges_of, outputs, node_max_visits,
  version_supported, max_workflows, max_nodes, max_max_runs,
}
use enzarb.Workflow.Report.{Report, an_error, a_warning, error_if, ModeCatalog}
use enzarb.Workflow.Validate.Refs.{
  check_id, check_patterns, check_duration, check_expr, each, valid_name,
}
use enzarb.Workflow.Validate.Nodes.{validate_node}
use enzarb.Workflow.Validate.Reach.{check_reachability}
use Edges.{check_next}

module _ (engine : Engine) (h : Humantime) (modes : Option ModeCatalog) where
  unfoldable check_defined : Str → Str × Value → Report
  check_defined path e =
      error_if (not (valid_name e.0)) (path ++ text ".vars." ++ e.0)
        (text "var names use letters, digits and `_`, and don't start with a digit")
      ++ error_if (not (is_scalar e.1)) (path ++ text ".vars." ++ e.0)
          (text "must be a string, number or boolean")

  unfoldable check_condition : Str → Workflow → Option Str → Report
  check_condition path wf none = []
  check_condition path wf (some c) =
      check_expr wf.nodes wf.vars (path ++ text ".if") trigger_roots engine c

  unfoldable check_max_runs : Str → Option ℕ → Report
  check_max_runs path none = []
  check_max_runs path (some m) =
      error_if (not (leb 1 m && leb m max_max_runs)) (path ++ text ".max_runs")
        (text "must be 1-" ++ show max_max_runs)

  unfoldable pub check_max_visits : Str → Option ℕ → Report
  check_max_visits np none = []
  check_max_visits np (some m) =
      error_if (m == 0) (np ++ text ".max_visits") (text "must be at least 1")

  abbrev np_of : Str → Str × Node → Str
  np_of path e = path ++ text ".nodes." ++ e.0

  -- One turn of the loop over the nodes
  unfoldable pub check_entry : Str → Workflow → Str × Node → Report
  unfolding check_max_visits
  check_entry path wf e =
      check_id (np_of path e) (text "node") e.0
      ++ validate_node engine h modes wf.nodes wf.vars (np_of path e) e.1
      ++ check_next engine wf.nodes wf.vars (np_of path e) (node_type e.1) (next e.1)
      ++ check_max_visits (np_of path e) (node_max_visits e.1)

  abbrev pushes : Node → Bool
  pushes n = elim n [ agent_node a ↦ a.push | _ ↦ false ]

  abbrev opens : Node → Bool
  opens n = elim n [
    | action_node a ↦ elim a.action [ open_pull_request ↦ true | _ ↦ false ]
    | _ ↦ false
  ]

  -- What follows when the workflow has a node
  unfoldable pub check_nodes : Str → Workflow → Report
  unfolding check_entry
  check_nodes path wf =
      error_if (ltb max_nodes (length wf.nodes)) (path ++ text ".nodes")
        (show (length wf.nodes) ++ text " nodes; the limit is " ++ show max_nodes)
      ++ error_if (not (has_key wf.start wf.nodes)) (path ++ text ".start")
          (text "there is no node `" ++ wf.start ++ text "`")
      ++ each (check_entry path wf) wf.nodes
      ++ (if not (any (λ e. pushes e.1) wf.nodes) && any (λ e. opens e.1) wf.nodes
          then a_warning (path ++ text ".nodes")
              (text "opens a pull request but no agent node has `push = true`")
          else [])
      ++ check_reachability path wf

  unfoldable pub validate_workflow : Str → Workflow → Report
  unfolding check_defined check_condition check_max_runs check_nodes
  validate_workflow path wf =
      each (check_defined path) wf.vars
      ++ check_patterns (path ++ text ".on") wf.on
      ++ check_condition path wf wf.condition
      ++ check_duration h (path ++ text ".timeout") wf.timeout
      ++ check_max_runs path wf.max_runs
      ++ (if is_empty wf.nodes
          then an_error (path ++ text ".nodes") (text "needs at least one node")
          else check_nodes path wf)

  unfoldable pub check_workflow : Str × Workflow → Report
  unfolding validate_workflow
  check_workflow e =
      check_id (text "workflows." ++ e.0) (text "workflow") e.0
      ++ validate_workflow (text "workflows." ++ e.0) e.1

  -- Validates a parsed file against the modes of the same commit.
  unfoldable pub validate : WorkflowsFile → Report
  unfolding check_workflow
  validate file =
      error_if (not (file.version == version_supported)) (text "version") (
        text "unsupported version "
        ++ show file.version
        ++ text "; expected "
        ++ show version_supported)
      ++ error_if (ltb max_workflows (length file.workflows)) (text "workflows")
          (show (length file.workflows) ++ text " workflows; the limit is " ++ show max_workflows)
      ++ each check_workflow file.workflows

  unfoldable check_file : Result Str WorkflowsFile → Option WorkflowsFile × Report
  unfolding validate
  check_file (ok file) = (some file, validate file)
  check_file (err e) = (none, an_error [] e)

  -- Parses and validates in one go.
  unfoldable pub check : (Str → Result Str WorkflowsFile) → Str → Option WorkflowsFile × Report
  unfolding check_file
  check from_str src = check_file (parse from_str src)
