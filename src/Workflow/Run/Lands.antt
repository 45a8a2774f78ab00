-- ===== src/Workflow/Run/Lands.antt =====
-- Where a run stands after an edge: over, or at a node that it may visit once more.
use enzarb.Base.{
  ℕ, suc, ◌≤◌, ◌≡◌, refl, sym, ap, ◌∙◌, ◌⊎◌, inl, inr, Bool, true, false, Option, none, some, List,
  [], ◌∷◌, Bool-cases, Option-cases, ltb, Result, ok, err, ok_inj, arith,
}
use enzarb.Base.Text.{Str}
use enzarb.Base.Strings.{find, has_key}
use enzarb.Workflow.Json.{Value}
use enzarb.Workflow.Engine.{Engine}
use enzarb.Workflow.Event.{Event}
use enzarb.Workflow.Schema.{
  Workflow, WorkflowsFile, Node, agent_node, command_node, action_node, wait_node, end_node, Edge,
  next, max_visits, edges_of,
}
use enzarb.Workflow.Run.{
  RunState, RunInfo, start, fresh, RunStatus, at, ended, Transition, moved, current, count,
  visits_of, arrive, context, enter_node, enter, RunError, not_running, unknown_node, end_run,
  current_node, workflow_of,
}
use enzarb.Workflow.Run.Steps.{
  edge_test, take_edge, settle, decide, follow, extend, record_outputs, advance_from, advance,
}

-- The run is at a node of the workflow that it has now visited once more, within the node's limit.
pub record Visit (wf : Workflow) (s s' : RunState) : Type 0 where
  pub to : Str
  pub visited : Node
  pub found : find to wf.nodes ≡ some visited
  pub goes_on : arrive to visited ≡ at to
  pub status : s'.status ≡ at to
  pub counted : s'.visits ≡ count to s.visits
  pub within : visits_of to (count to s.visits) ≤ max_visits visited

pub record Lands (wf : Workflow) (s s' : RunState) : Type 0 where
  pub same : s'.workflow ≡ s.workflow
  pub lands : (current s'.status ≡ none) ⊎ Visit wf s s'

-- `Lands` reads the name of the workflow and the visits of the state before.
rebase :
    (wf : Workflow) (s r s' : RunState)
    → r.workflow ≡ s.workflow
    → r.visits ≡ s.visits
    → Lands wf r s'
    → Lands wf s s'
rebase wf s r s' a b l = record {
  same = l.same ∙ a;
  lands = elim l.lands [
    | inl e ↦ inl e
    | inr v ↦ inr (record {
      to = v.to;
      visited = v.visited;
      found = v.found;
      goes_on = v.goes_on;
      status = v.status;
      counted = v.counted ∙ ap (count v.to) b;
      within = rw (← b) v.within;
    })
  ];
}

end_run-Lands :
    (wf : Workflow) (s : RunState) (st : enzarb.Workflow.Schema.EndStatus) (n reason : Option Str)
    → Lands wf s (end_run st n reason s).1
unfolding end_run current
end_run-Lands wf s st n reason = record { same = refl; lands = inl refl }

arrive-cases : (id : Str) (n : Node) → (current (arrive id n) ≡ none) ⊎ (arrive id n ≡ at id)
unfolding arrive current
arrive-cases id (agent_node n) = inr refl
arrive-cases id (command_node n) = inr refl
arrive-cases id (action_node n) = inr refl
arrive-cases id (wait_node n) = inr refl
arrive-cases id (end_node n) = inl refl

ltb-le : (a b : ℕ) → ltb a b ≡ false → b ≤ a
ltb-le a b h = ground arith

pub enter_node-Lands :
    (wf : Workflow) (id : Str) (n : Node) (s : RunState)
    → find id wf.nodes ≡ some n
    → Lands wf s (enter_node id (some n) s)
unfolding enter_node end_run current
enter_node-Lands wf id n s f =
    elim (Bool-cases (ltb (max_visits n) (visits_of id (count id s.visits)))) [
      | inl h ↦ rw (h) (record { same = refl; lands = inl refl })
      | inr h ↦ rw (h) (elim (arrive-cases id n) [
        | inl e ↦ record { same = refl; lands = inl e }
        | inr e ↦ record {
          same = refl;
          lands = inr (record {
            to = id;
            visited = n;
            found = f;
            goes_on = e;
            status = e;
            counted = refl;
            within = ltb-le (max_visits n) (visits_of id (count id s.visits)) h;
          });
        }
      ])
    ]

enter-Lands :
    (wf : Workflow) (id : Str) (s : RunState)
    → has_key id wf.nodes ≡ true
    → Lands wf s (enter wf id s)
unfolding enter
enter-Lands wf id s h = elim (Option-cases (find id wf.nodes)) [
  | inl e ↦ absurd (ground (arith, e))
  | inr (n, e) ↦ rw (e) (enter_node-Lands wf id n s e)
]

concluded-over :
    (n : Str) (e : enzarb.Workflow.Schema.EndNode) (r : Result Str Str)
    → current (enzarb.Workflow.Run.Steps.concluded n e r) ≡ none
unfolding current enzarb.Workflow.Run.Steps.concluded
concluded-over n e (ok a) = refl
concluded-over n e (err m) = refl

-- To settle an end keeps the run where it is.
settle-Lands :
    (engine : Engine) (wf : Workflow) (s t : RunState) (o : Option Node) (st : RunStatus)
    → Lands wf s t
    → Lands wf s (settle engine st o t)
unfolding settle
settle-Lands engine wf s t (some (end_node e)) (ended st (some n) reason) l = record {
  same = l.same;
  lands = inl (concluded-over n e _);
}
settle-Lands engine wf s t none (ended st (some n) reason) l = l
settle-Lands engine wf s t (some (agent_node a)) (ended st (some n) reason) l = l
settle-Lands engine wf s t (some (command_node a)) (ended st (some n) reason) l = l
settle-Lands engine wf s t (some (action_node a)) (ended st (some n) reason) l = l
settle-Lands engine wf s t (some (wait_node a)) (ended st (some n) reason) l = l
settle-Lands engine wf s t o (ended st none reason) l = l
settle-Lands engine wf s t o (at n) l = l

take_edge-Lands :
    (engine : Engine) (wf : Workflow) (id : Str) (i : ℕ) (to : Str) (s : RunState)
    → Lands wf s (take_edge engine wf id i to s).1
unfolding take_edge
take_edge-Lands engine wf id i to s = elim (Bool-cases (has_key to wf.nodes)) [
  | inl h ↦
      let t = enter wf to (record s { previous = some id }) in
      let l = enter-Lands wf to (record s { previous = some id }) h in
      rw (h) (
        settle-Lands engine wf s t (find to wf.nodes) t.status
          (rebase wf s (record s { previous = some id }) t refl refl l))
  | inr h ↦ rw (h) (end_run-Lands wf s _ _ _)
]

decide-Lands :
    (engine : Engine) (wf : Workflow) (id : Str) (i : ℕ) (e : Edge) (s : RunState)
    (r : Result Str Bool) (rest : Transition × RunState)
    → Lands wf s rest.1
    → Lands wf s (decide engine wf id i e s r rest).1
unfolding decide
decide-Lands engine wf id i e s (ok true) rest l = take_edge-Lands engine wf id i e.to s
decide-Lands engine wf id i e s (ok false) rest l = l
decide-Lands engine wf id i e s (err m) rest l = end_run-Lands wf s _ _ _

follow-Lands :
    (engine : Engine) (wf : Workflow) (id : Str) (ctx : Value) (i : ℕ) (es : List Edge)
    (s : RunState)
    → Lands wf s (follow engine wf id ctx i es s).1
unfolding follow
follow-Lands engine wf id ctx i [] s = end_run-Lands wf s _ _ _
follow-Lands engine wf id ctx i (e ∷ es) s =
    decide-Lands engine wf id i e s _ _ (follow-Lands engine wf id ctx (suc i) es s)

advance_from-Lands :
    (engine : Engine) (wf : Workflow) (id : Str) (n : Node) (out : Value) (s s' : RunState)
    (t : Transition) (nx : Option enzarb.Workflow.Schema.Next)
    → advance_from engine wf id n out s nx ≡ ok (t, s')
    → Lands wf s s'
unfolding advance_from record_outputs
advance_from-Lands engine wf id n out s s' t none e = absurd (ground (arith, e))
advance_from-Lands engine wf id n out s s' t (some nx) e =
    let r = record_outputs id n out s in
    let x = follow engine wf id (extend (context r) out) 0 (edges_of nx) r in
    rw (← ap (λ p. p.1) (ok_inj e))
      (rebase wf s r x.1 refl refl (follow-Lands engine wf id _ 0 (edges_of nx) r))

module _ (engine : Engine) (file : WorkflowsFile) (wf : Workflow) (out : Value) (s : RunState)
    (w : find s.workflow file.workflows ≡ some wf) where
  pub current_node-at :
      (id : Str) (n : Node)
      → current s.status ≡ some id
      → find id wf.nodes ≡ some n
      → current_node file s ≡ ok (wf, id, n)
  unfolding current_node workflow_of
  current_node-at id n c f = rw (w, c, f) refl

  pub advance-at :
      (id : Str) (n : Node)
      → current s.status ≡ some id
      → find id wf.nodes ≡ some n
      → advance engine file out s ≡ advance_from engine wf id n out s (next n)
  unfolding advance
  advance-at id n c f = rw (current_node-at id n c f) refl

  -- Over, an unknown node, or a known one.
  current_node-cases :
      ((e : RunError) × (current_node file s ≡ err e))
      ⊎ ((id : Str) × (n : Node) × (current s.status ≡ some id) × (find id wf.nodes ≡ some n))
  unfolding current_node workflow_of
  current_node-cases = elim (Option-cases (current s.status)) [
    | inl c ↦ inl (not_running, rw (w, c) refl)
    | inr (id, c) ↦ elim (Option-cases (find id wf.nodes)) [
      | inl f ↦ inl (unknown_node id, rw (w, c, f) refl)
      | inr (n, f) ↦ inr (id, n, c, f)
    ]
  ]

  advance-err : (e : RunError) → current_node file s ≡ err e → advance engine file out s ≡ err e
  unfolding advance
  advance-err e h = rw (h) refl

  pub advance-over : current s.status ≡ none → advance engine file out s ≡ err not_running
  unfolding advance current_node workflow_of
  advance-over c = rw (w, c) refl

  -- What an `advance` leaves is the run over, or at a node that it has visited once more.
  pub advance-Lands :
      (s' : RunState) (t : Transition) → advance engine file out s ≡ ok (t, s') → Lands wf s s'
  advance-Lands s' t e = elim current_node-cases [
    | inl (x, h) ↦ absurd (ground (arith, advance-err x h, e))
    | inr (id, n, c, f) ↦
        advance_from-Lands engine wf id n out s s' t (next n) (sym (advance-at id n c f) ∙ e)
  ]

module _ (file : WorkflowsFile) (wf : Workflow) (id : Str) (e : Event) (run : RunInfo)
    (f : find id file.workflows ≡ some wf) where
  pub start-at :
      has_key wf.start wf.nodes ≡ true
      → start file id e run ≡ ok (enter wf wf.start (fresh id wf e run))
  unfolding start
  start-at h = rw (f) (rw (h) refl)

  start-missing :
      has_key wf.start wf.nodes ≡ false → start file id e run ≡ err (unknown_node wf.start)
  unfolding start
  start-missing h = rw (f) (rw (h) refl)

  -- A run that starts is over, or at a node that it has visited once.
  pub start-Lands : (s : RunState) → start file id e run ≡ ok s → Lands wf (fresh id wf e run) s
  start-Lands s q = elim (Bool-cases (has_key wf.start wf.nodes)) [
    | inl h ↦ rw (← ok_inj (sym (start-at h) ∙ q)) (enter-Lands wf wf.start (fresh id wf e run) h)
    | inr h ↦ absurd (ground (arith, start-missing h, q))
  ]
