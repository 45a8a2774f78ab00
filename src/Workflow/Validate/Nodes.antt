-- ===== src/Workflow/Validate/Nodes.antt =====
-- ez/crates/ez-workflow/src/validate.rs: the checks of one node.
use enzarb.Base.{
  Bool, not, ◌&&◌, Option, none, some, List, [], ◌++◌, is_empty, is_some, if◌then◌else◌,
}
use enzarb.Base.Text.{Str, text}
use enzarb.Base.Strings.{trim, find, keys, join, has}
use enzarb.Workflow.Json.{Value, is_object}
use enzarb.Workflow.Engine.{Engine, TemplateKind, plain, shell, node_roots}
use enzarb.Workflow.Schema.{
  Node, agent_node, command_node, action_node, wait_node, end_node, AgentNode, CommandNode,
  ActionNode, WaitNode, ActionKind, comment, open_pull_request, add_labels, remove_labels,
  action_name, Humantime,
}
use enzarb.Workflow.Report.{Report, an_error, a_warning, error_if, ModeCatalog, submit_result_tool}
use enzarb.Workflow.Glob.{allows_submit_result, contains_mode}
use enzarb.Workflow.Validate.Refs.{
  check_patterns, check_duration, check_template, check_expr, each, each_at, index, valid_name,
}

module _ (engine : Engine) (h : Humantime) (modes : Option ModeCatalog) (nodes : List (Str × Node))
    (defined : List (Str × Value)) (np : Str) where
  -- `refs.template` and `refs.expr` on a field of the node
  abbrev template : Str → TemplateKind → Str → Report
  template name kind src =
      check_template nodes defined (np ++ text "." ++ name) node_roots engine kind src

  unfoldable check_tools : Str → Option (Option (List Str)) → ModeCatalog → Report
  check_tools mode none m = an_error (np ++ text ".mode") (
      text "there is no mode `"
      ++ mode
      ++ text "` in .ez/modes.toml (modes: "
      ++ join (text ", ") (keys m.modes)
      ++ text ")")
  check_tools mode (some none) m = []
  check_tools mode (some (some tools)) m =
      if has tools (text "AskUserQuestion")
      then a_warning (np ++ text ".mode") (
          text "mode `"
          ++ mode
          ++ text "` lists AskUserQuestion, which unattended runs never offer")
      else []

  unfoldable check_mode : AgentNode → Option ModeCatalog → Report
  unfolding check_tools
  check_mode a none =
      an_error (np ++ text ".mode") (text "the commit has no `.ez/modes.toml`; agent nodes need it")
  check_mode a (some m) = check_tools a.mode (find a.mode m.modes) m

  unfoldable check_submit : AgentNode → Option ModeCatalog → Report
  check_submit a none = []
  check_submit a (some m) =
      error_if (is_some a.result && contains_mode m a.mode && not (allows_submit_result m a.mode))
        (np ++ text ".mode")
        (text "mode `"
          ++ a.mode
          ++ text "` does not allow `"
          ++ submit_result_tool
          ++ text
              "` in `mcp_tools` (add it or `mcp__*`), so ez would hide the tool this node's `result` needs")

  unfoldable check_property : Str × Value → Report
  check_property p =
      error_if (not (valid_name p.0)) (np ++ text ".result." ++ p.0)
        (text "property names are letters, digits and `_`")
      ++ error_if (not (is_object p.1)) (np ++ text ".result." ++ p.0)
          (text "must be a JSON Schema table (`{ type = \"string\" }`)")

  unfoldable check_result : Option (List (Str × Value)) → Report
  unfolding check_property
  check_result none = []
  check_result (some props) =
      error_if (is_empty props) (np ++ text ".result")
        (text "needs at least one property, or omit it")
      ++ each check_property props

  unfoldable check_agent : AgentNode → Report
  unfolding check_mode check_submit check_result
  check_agent a =
      check_mode a modes
      ++ check_submit a modes
      ++ (if is_empty (trim a.instruction)
          then an_error (np ++ text ".instruction") (text "must not be empty")
          else template (text "instruction") plain a.instruction)
      ++ check_result a.result

  unfoldable check_call : Option Str → Option Str → Report
  check_call (some t) (some s) = an_error np (text "set `task` or `run`, not both")
  check_call none none = an_error np (text "needs `task` (a mise task) or `run` (a shell string)")
  check_call (some t) none =
      error_if (is_empty (trim t)) (np ++ text ".task") (text "must not be empty")
  check_call none (some s) =
      error_if (is_empty (trim s)) (np ++ text ".run") (text "must not be empty")

  unfoldable opt_template : Str → TemplateKind → Option Str → Report
  opt_template name kind none = []
  opt_template name kind (some src) = template name kind src

  unfoldable check_command : CommandNode → Report
  unfolding check_call opt_template
  check_command c =
      check_call c.task c.run
      ++ error_if (is_some c.run && not (is_empty c.args)) (np ++ text ".args")
          (text "`args` go with `task`; put them in `run` instead")
      ++ each_at (λ i a. template (index (text "args") i) plain a) 0 c.args
      ++ opt_template (text "run") shell c.run

  -- The closures `need` and `forbid`
  unfoldable need : ActionKind → Str → Option Str → Report
  need k name none =
      an_error (np ++ text "." ++ name)
        (text "`" ++ action_name k ++ text "` needs `" ++ name ++ text "`")
  need k name (some s) =
      if is_empty (trim s)
      then an_error (np ++ text "." ++ name)
          (text "`" ++ action_name k ++ text "` needs `" ++ name ++ text "`")
      else template name plain s

  unfoldable forbid : ActionKind → Str → Bool → Report
  forbid k name set =
      error_if set (np ++ text "." ++ name)
        (text "`" ++ action_name k ++ text "` doesn't take `" ++ name ++ text "`")

  unfoldable check_labels : ActionNode → Report
  unfolding forbid
  check_labels a =
      error_if (is_empty a.labels) (np ++ text ".labels")
        (text "`" ++ action_name a.action ++ text "` needs `labels`")
      ++ each_at (λ i l. template (index (text "labels") i) plain l) 0 a.labels
      ++ forbid a.action (text "title") (is_some a.title)
      ++ forbid a.action (text "body") (is_some a.body)
      ++ forbid a.action (text "draft") (is_some a.draft)

  unfoldable check_action : ActionNode → ActionKind → Report
  unfolding need forbid check_labels opt_template
  check_action a comment =
      need comment (text "body") a.body
      ++ forbid comment (text "title") (is_some a.title)
      ++ forbid comment (text "labels") (not (is_empty a.labels))
      ++ forbid comment (text "draft") (is_some a.draft)
  check_action a open_pull_request =
      need open_pull_request (text "title") a.title
      ++ opt_template (text "body") plain a.body
      ++ forbid open_pull_request (text "labels") (not (is_empty a.labels))
  check_action a add_labels = check_labels a
  check_action a remove_labels = check_labels a

  unfoldable check_wait : WaitNode → Report
  check_wait w =
      check_patterns (np ++ text ".on") w.on
      ++ (elim w.condition [
        | none ↦ []
        | some c ↦ check_expr nodes defined (np ++ text ".if") node_roots engine c
      ])
      ++ check_duration h (np ++ text ".timeout") w.timeout

  unfoldable pub validate_node : Node → Report
  unfolding check_agent check_command check_action check_wait opt_template
  validate_node (agent_node a) = check_agent a
  validate_node (command_node c) = check_command c
  validate_node (action_node a) = check_action a a.action
  validate_node (wait_node w) = check_wait w
  validate_node (end_node e) = opt_template (text "reason") plain e.reason
