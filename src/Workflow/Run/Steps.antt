-- ===== src/Workflow/Run/Steps.antt =====
-- ez/crates/ez-workflow/src/run.rs: what a node renders to, what resumes it, and `advance`.
use enzarb.Base.{
  ℕ, suc, Bool, true, false, not, ◌&&◌, Option, none, some, List, [], ◌∷◌, ◌++◌, any, if◌then◌else◌,
  Result, ok, err, ◌>>=◌, is_empty,
}
use enzarb.Base.Text.{Str, text, show}
use enzarb.Base.Strings.{trim, find, has_key}
use enzarb.Workflow.Json.{Value, object, insert_field, insert_all, get, is_object}
use enzarb.Workflow.Engine.{Engine, plain, shell, render, eval_bool}
use enzarb.Workflow.Schema.{
  Workflow, WorkflowsFile, Node, agent_node, command_node, action_node, wait_node, end_node,
  EndNode, EndStatus, done, failed, Edge, Next, Humantime, node_type, next, edges_of, result_schema,
  status_name, wait_timeout, as_secs, unwrap_or,
}
use enzarb.Workflow.Event.{Event, event_context, matches}
use enzarb.Workflow.Run.{
  RunState, RunStatus, ended, Transition, moved, run_ended, RunError, wrong_node_type, Rendered,
  agent_call, command_call, action_call, wait_for, run_end, context, end_run, enter, current_node,
}

-- `map_err(|e| format!("{prefix}: {e}"))`
unfoldable pub in_field {ℓ} : {A : Type ℓ} → Str → Result Str A → Result Str A
in_field prefix (ok a) = ok a
in_field prefix (err e) = err (prefix ++ text ": " ++ e)

-- The closures `text`, `opt` and `list` of `render`.
module _ (engine : Engine) (ctx : Value) (id : Str) where
  unfoldable render_field : Str → Str → Result Str Str
  render_field name src =
      in_field (text "node `" ++ id ++ text "` " ++ name) (render engine plain src ctx)

  unfoldable render_opt : Str → Option Str → Result Str (Option Str)
  unfolding render_field
  render_opt name none = ok none
  render_opt name (some src) = do t ← render_field name src; ok (some t)

  unfoldable render_list : Str → ℕ → List Str → Result Str (List Str)
  unfolding render_field
  render_list name i [] = ok []
  render_list name i (src ∷ srcs) = do
    t ← render_field (name ++ text "[" ++ show i ++ text "]") src
    ts ← render_list name (suc i) srcs
    ok (t ∷ ts)

  unfoldable render_script : Option Str → Result Str (Option Str)
  render_script none = ok none
  render_script (some src) = do
    t ← in_field (text "node `" ++ id ++ text "` run") (render engine shell src ctx)
    ok (some t)

unfoldable pub custom_reason : Engine → RunState → Str → EndNode → Result Str Str
custom_reason engine s id e = elim e.reason [
  | none ↦ ok []
  | some src ↦
      in_field (text "node `" ++ id ++ text "` reason") (render engine plain src (context s))
]

-- `ended at `id` (status)`, with the node before it
unfoldable pub generic_reason : Str → EndStatus → Option Str → Str
generic_reason id done p = []
generic_reason id st none = text "ended at `" ++ id ++ text "` (" ++ status_name st ++ text ")"
generic_reason id st (some p) =
    text "ended at `" ++ id ++ text "` (" ++ status_name st ++ text ") after `" ++ p ++ text "`"

-- The reason an `end` node records.
unfoldable pub end_reason : Engine → RunState → Str → EndNode → Result Str Str
end_reason engine s id e = do
  custom ← custom_reason engine s id e
  ok (if is_empty (trim custom) then generic_reason id e.status s.previous else trim custom)

abbrev secs_of : Option ℕ → Option ℕ
secs_of none = none
secs_of (some d) = some (as_secs d)

unfoldable pub render_node : Engine → Humantime → RunState → Str → Node → Result Str Rendered
unfolding render_field render_opt render_list render_script
render_node engine h s id (agent_node a) = do
  instruction ← render_field engine (context s) id (text "instruction") a.instruction
  ok (agent_call a.mode instruction (result_schema a) (a.push && not s.run.test))
render_node engine h s id (command_node c) = do
  args ← render_list engine (context s) id (text "args") 0 c.args
  script ← render_script engine (context s) id c.run
  ok (command_call c.task args script)
render_node engine h s id (action_node a) = do
  title ← render_opt engine (context s) id (text "title") a.title
  body ← render_opt engine (context s) id (text "body") a.body
  labels ← render_list engine (context s) id (text "labels") 0 a.labels
  ok (action_call a.action title body labels (unwrap_or false a.draft))
render_node engine h s id (wait_node w) =
    ok (wait_for w.on w.condition (secs_of (wait_timeout h w)))
render_node engine h s id (end_node e) = do
  reason ← end_reason engine s id e
  ok (run_end e.status reason)

-- The current node with its templates rendered. A template that fails is `ok (err msg)`.
unfoldable pub render_current :
    Engine → Humantime → WorkflowsFile → RunState → Result RunError (Result Str Rendered)
render_current engine h file s = do c ← current_node file s; ok (render_node engine h s c.1 c.2)

abbrev with_event : Value → Value → Value
with_event (object m) ev = object (insert_field (text "event") ev m)
with_event v ev = v

unfoldable accepts_if : Engine → RunState → Str → Event → Option Str → Result Str Bool
accepts_if engine s id e none = ok true
accepts_if engine s id e (some cond) =
    in_field (text "node `" ++ id ++ text "` if")
      (eval_bool engine cond (with_event (context s) (event_context e)))

unfoldable pub wait_test :
    Engine → RunState → Event → Str → Node → Result RunError (Result Str Bool)
unfolding accepts_if
wait_test engine s e id (wait_node w) =
    ok (if any (matches e) w.on then accepts_if engine s id e w.condition else ok false)
wait_test engine s e id n = err (wrong_node_type id (node_type n))

-- Whether the event resumes the current `wait` node.
unfoldable pub wait_accepts :
    Engine → WorkflowsFile → RunState → Event → Result RunError (Result Str Bool)
wait_accepts engine file s e = do c ← current_node file s; wait_test engine s e c.1 c.2

abbrev pub non_empty : Str → Option Str
non_empty [] = none
non_empty (c ∷ s) = some (c ∷ s)

unfoldable pub concluded : Str → EndNode → Result Str Str → RunStatus
concluded n e (ok reason) = ended e.status (some n) (non_empty reason)
concluded n e (err m) = ended failed (some n) (non_empty m)

-- Gives the reason of the `end` node that the run has entered.
unfoldable pub settle : Engine → RunStatus → Option Node → RunState → RunState
settle engine (ended st (some n) reason) (some (end_node e)) s = record s {
  status = concluded n e (end_reason engine s n e);
}
settle engine st n s = s

unfoldable pub transition_of : RunStatus → Transition → Transition
transition_of (ended st none reason) t = run_ended st reason
transition_of st t = t

-- Takes edge number `i` from `id` to `to`.
unfoldable pub take_edge : Engine → Workflow → Str → ℕ → Str → RunState → Transition × RunState
take_edge engine wf id i to s =
    if has_key to wf.nodes
    then (let entered = enter wf to (record s { previous = some id }) in
        let settled = settle engine entered.status (find to wf.nodes) entered in
        (transition_of settled.status (moved id to i), settled))
    else end_run failed none
        (some (
          text "node `"
          ++ id
          ++ text "` next["
          ++ show i
          ++ text "]: there is no node `"
          ++ to
          ++ text "`"))
        s

-- An edge without a condition is taken.
unfoldable pub edge_test : Engine → Value → Option Str → Result Str Bool
edge_test engine ctx none = ok true
edge_test engine ctx (some cond) = eval_bool engine cond ctx

unfoldable pub edge_failed : Str → ℕ → Option Str → Str → Str
edge_failed id i cond e =
    text "node `"
    ++ id
    ++ text "` next["
    ++ show i
    ++ text "] if `"
    ++ unwrap_or [] cond
    ++ text "`: "
    ++ e

-- The edge that matches is taken, a condition that fails ends the run, else the rest is tried.
unfoldable pub decide :
    Engine
    → Workflow
    → Str
    → ℕ
    → Edge
    → RunState
    → Result Str Bool
    → Transition × RunState
    → Transition × RunState
decide engine wf id i e s (ok true) rest = take_edge engine wf id i e.to s
decide engine wf id i e s (ok false) rest = rest
decide engine wf id i e s (err m) rest =
    end_run failed none (some (edge_failed id i e.condition m)) s

unfoldable pub no_edge : Str → Str
no_edge id = text "node `" ++ id ++ text "`: no edge matched"

unfoldable pub follow :
    Engine → Workflow → Str → Value → ℕ → List Edge → RunState → Transition × RunState
follow engine wf id ctx i [] s = end_run failed none (some (no_edge id)) s
follow engine wf id ctx i (e ∷ es) s =
    decide engine wf id i e s (edge_test engine ctx e.condition)
      (follow engine wf id ctx (suc i) es s)

-- The `event` of the outputs of a `wait` node, when it is an object.
unfoldable pub resumed : Node → Value → Value → Value
resumed (wait_node w) out ev = elim (get out (text "event")) [
  | none ↦ ev
  | some e ↦ if is_object e then e else ev
]
resumed n out ev = ev

unfoldable pub record_outputs : Str → Node → Value → RunState → RunState
record_outputs id n out s = record s {
  event = resumed n out s.event;
  nodes = insert_field id out s.nodes;
}

unfoldable pub extend : Value → Value → Value
extend (object c) (object o) = object (insert_all o c)
extend c o = c

unfoldable pub advance_from :
    Engine
    → Workflow
    → Str
    → Node
    → Value
    → RunState
    → Option Next
    → Result RunError (Transition × RunState)
advance_from engine wf id n out s none = err (wrong_node_type id (node_type n))
advance_from engine wf id n out s (some nx) =
    let t = record_outputs id n out s in
    ok (follow engine wf id (extend (context t) out) 0 (edges_of nx) t)

-- Records the current node's outputs and follows its first matching edge.
unfoldable pub advance :
    Engine → WorkflowsFile → Value → RunState → Result RunError (Transition × RunState)
advance engine file out s = do
  c ← current_node file s
  advance_from engine c.0 c.1 c.2 out s (next c.2)
