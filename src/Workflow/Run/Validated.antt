-- ===== src/Workflow/Run/Validated.antt =====
-- Runs of a file that validates without errors.
use enzarb.Base.{
  ℕ, suc, ◌≡◌, refl, ◌∙◌, ◌⊎◌, inl, inr, true, Option, none, some, Bool-cases, ok, arith,
}
use enzarb.Base.Text.{Str}
use enzarb.Base.Strings.{find}
use enzarb.Workflow.Json.{Value}
use enzarb.Workflow.Engine.{Engine}
use enzarb.Workflow.Event.{Event}
use enzarb.Workflow.Schema.{
  Workflow, WorkflowsFile, Node, agent_node, command_node, action_node, wait_node, end_node, Edge,
  Next, Humantime, next, edges_of,
}
use enzarb.Workflow.Report.{ModeCatalog, is_ok}
use enzarb.Workflow.Validate.File.{validate}
use enzarb.Workflow.Validate.Sound.{IsWhole, validate-IsWhole}
use enzarb.Workflow.Run.{
  RunState, RunInfo, at, Transition, current, is_ended, arrive, context, fail, cancel, start, fresh,
  enter, end_run,
}
use enzarb.Workflow.Run.Steps.{record_outputs, extend, advance, advance_from, follow}
use enzarb.Workflow.Run.Lands.{Lands, start-at, start-Lands, advance-Lands, advance-at}
use enzarb.Workflow.Run.Started.{Started, enter-Started}
use enzarb.Workflow.Run.Bound.{Runs, starts, advances, fails, cancels}
use enzarb.Workflow.Run.Outcome.{Picks, Verdict, follow-Verdict}

-- A run of the workflow that is over or at a node with edges.
pub record Stands (file : WorkflowsFile) (wf : Workflow) (s : RunState) : Type 0 where
  pub of : find s.workflow file.workflows ≡ some wf
  pub stands :
      (current s.status ≡ none)
      ⊎ ((id : Str) × (n : Node) × (s.status ≡ at id)
          × (find id wf.nodes ≡ some n)
          × (arrive id n ≡ at id))

pub Lands-Stands :
    (file : WorkflowsFile) (wf : Workflow) (s s' : RunState)
    → find s.workflow file.workflows ≡ some wf
    → Lands wf s s'
    → Stands file wf s'
Lands-Stands file wf s s' f l = record {
  of = rw (l.same) f;
  stands = elim l.lands [
    | inl o ↦ inl o
    | inr v ↦ inr (v.to, v.visited, v.status, v.found, v.goes_on)
  ];
}

pub ended-Stands :
    (file : WorkflowsFile) (wf : Workflow) (reason : Str) (s : RunState)
    → Stands file wf s
    → Stands file wf (fail reason s) × Stands file wf (cancel reason s)
unfolding fail cancel end_run current
ended-Stands file wf reason s b = elim (Bool-cases (is_ended s)) [
  | inl h ↦ rw (h) (b, b)
  | inr h ↦
      rw (h) (record { of = b.of; stands = inl refl }, record { of = b.of; stands = inl refl })
]

Runs-Stands :
    (engine : Engine) (file : WorkflowsFile) (wf : Workflow) (s : RunState)
    → Stands file wf s
    → (n : ℕ) (t : RunState) → Runs engine file s n t
    → Stands file wf t
Runs-Stands engine file wf s b _ _ starts = b
Runs-Stands engine file wf s b (suc n) t (advances {t = u} out m r e) =
    let c = Runs-Stands engine file wf s b n u r in
    Lands-Stands file wf u t c.of (advance-Lands engine file wf out u c.of t m e)
Runs-Stands engine file wf s b n t (fails {t = u} reason r e) =
    rw (e) ((ended-Stands file wf reason u (Runs-Stands engine file wf s b n u r)).0)
Runs-Stands engine file wf s b n t (cancels {t = u} reason r e) =
    rw (e) ((ended-Stands file wf reason u (Runs-Stands engine file wf s b n u r)).1)

has_next : (id : Str) (n : Node) → arrive id n ≡ at id → (nx : Next) × (next n ≡ some nx)
unfolding arrive next
has_next id (agent_node a) h = (a.next, refl)
has_next id (command_node a) h = (a.next, refl)
has_next id (action_node a) h = (a.next, refl)
has_next id (wait_node a) h = (a.next, refl)
has_next id (end_node a) h = absurd (ground arith)

-- What the conditions of the edges see.
abbrev pub edge_context : Str → Node → Value → RunState → Value
edge_context id n out s = extend (context (record_outputs id n out s)) out

-- At a node whose edges are in order every `advance` is one of the three outcomes.
pub record Decides (engine : Engine) (file : WorkflowsFile) (wf : Workflow) (s : RunState)
    : Type 0 where
  pub id : Str
  pub node : Node
  pub next : Next
  pub stands : s.status ≡ at id
  pub found : find id wf.nodes ≡ some node
  pub has : enzarb.Workflow.Schema.next node ≡ some next
  pub decides :
      (out : Value)
      → (r : Transition × RunState) × (advance engine file out s ≡ ok r)
        × ((j : ℕ) × (e : Edge) × Picks engine (edge_context id node out s) 0 (edges_of next) j e
            × Verdict engine wf id (edge_context id node out s) j e r)

at-current : (s : RunState) (id : Str) → s.status ≡ at id → current s.status ≡ some id
unfolding current
at-current s id h = rw (h) refl

advance_from-some :
    (engine : Engine) (wf : Workflow) (id : Str) (n : Node) (out : Value) (s : RunState) (nx : Next)
    (o : Option Next)
    → o ≡ some nx
    → advance_from engine wf id n out s o
      ≡ ok (
          follow engine wf id (edge_context id n out s) 0 (edges_of nx) (record_outputs id n out s))
unfolding advance_from
advance_from-some engine wf id n out s nx o h = rw (h) refl

Stands-Decides :
    (engine : Engine) (file : WorkflowsFile) (wf : Workflow) (s : RunState)
    → IsWhole wf
    → Stands file wf s
    → (current s.status ≡ none) ⊎ Decides engine file wf s
Stands-Decides engine file wf s w b = elim b.stands [
  | inl o ↦ inl o
  | inr (id, n, st, f, go) ↦
      let (nx, h) = has_next id n go in
      inr (record {
        id = id;
        node = n;
        next = nx;
        stands = st;
        found = f;
        has = h;
        decides = λ out. (
          follow engine wf id (edge_context id n out s) 0 (edges_of nx) (record_outputs id n out s),
          advance-at engine file wf out s b.of id n (at-current s id st) f
              ∙ advance_from-some engine wf id n out s nx (next n) h,
          follow-Verdict engine wf id (edge_context id n out s) 0 (edges_of nx)
              (record_outputs id n out s) (w.routes id n nx f h),
        );
      })
]

module _ (engine : Engine) (h : Humantime) (modes : Option ModeCatalog) (file : WorkflowsFile)
    (id : Str) (wf : Workflow) (e : Event) (run : RunInfo)
    (k : is_ok (validate engine h modes file) ≡ true) (f : find id file.workflows ≡ some wf) where
  -- In a file that validates without errors a run of each workflow starts. It has visited the workflow's start node once
  -- and no other node, it is at the start node if edges leave it and otherwise over as that `end` node says, and it has
  -- the run's information and event, no outputs and no node before.
  pub validate-start : (s : RunState) × (start file id e run ≡ ok s) × Started id wf e run s
  validate-start =
      let w = validate-IsWhole engine h modes file id wf k f in
      (
        enter wf wf.start (fresh id wf e run),
        start-at file wf id e run f w.starts,
        enter-Started id wf e run w.starts (w.visitable wf.start),
      )

  -- In a file that validates without errors, wherever the advances, failures and cancellations of a run lead, it is over or
  -- at a node with edges. There each `advance` succeeds, and the first edge whose condition is not false decides: the run
  -- moves along it, or ends as failed because the edge's node has no visit left or because the condition cannot be
  -- evaluated. It never ends for want of an edge or of a node.
  pub validate-Decides :
      (s t : RunState) (n : ℕ)
      → start file id e run ≡ ok s
      → Runs engine file s n t
      → (current t.status ≡ none) ⊎ Decides engine file wf t
  unfolding fresh
  validate-Decides s t n q r =
      let w = validate-IsWhole engine h modes file id wf k f in
      let b = Lands-Stands file wf (fresh id wf e run) s f (start-Lands file wf id e run f s q) in
      Stands-Decides engine file wf t w (Runs-Stands engine file wf s b n t r)
