-- ===== src/Workflow/Run/Started.antt =====
-- How a run begins: what `start` leaves when the start node may be visited.
use enzarb.Base.{
  ◌≤◌, ◌≡◌, refl, ◌⊎◌, inl, inr, true, false, none, some, [], ◌∷◌, Option-cases, ltb, arith,
}
use enzarb.Base.Text.{Str}
use enzarb.Base.Strings.{find, has_key, str_eq_refl}
use enzarb.Workflow.Json.{no_fields}
use enzarb.Workflow.Event.{Event, event_context}
use enzarb.Workflow.Schema.{
  Workflow, Node, agent_node, command_node, action_node, wait_node, end_node, EndNode, Next, next,
  max_visits,
}
use enzarb.Workflow.Run.{
  RunState, RunInfo, RunStatus, at, ended, fresh, count, visits_of, arrive, enter, enter_node,
}

-- The status of a run that has come to the node: at it if edges leave it, else over as the node says.
abbrev pub IsAt : Str → Node → RunStatus → Type 0
IsAt id n st =
    ((nx : Next) × (next n ≡ some nx) × (st ≡ at id))
    ⊎ ((e : EndNode) × (n ≡ end_node e) × (st ≡ ended e.status (some id) none))

-- The run has visited the start node once and no other, is there, and has neither outputs nor an edge behind it.
pub record Started (id : Str) (wf : Workflow) (e : Event) (run : RunInfo) (s : RunState)
    : Type 0 where
  pub node : Node
  pub found : find wf.start wf.nodes ≡ some node
  pub visits : s.visits ≡ (wf.start, 1) ∷ []
  pub is_at : IsAt wf.start node s.status
  pub workflow : s.workflow ≡ id
  pub info : s.run ≡ run
  pub event : s.event ≡ event_context e
  pub outputs : s.nodes ≡ no_fields
  pub previous : s.previous ≡ none

arrive-IsAt : (id : Str) (n : Node) → IsAt id n (arrive id n)
unfolding arrive next
arrive-IsAt id (agent_node n) = inl (n.next, refl, refl)
arrive-IsAt id (command_node n) = inl (n.next, refl, refl)
arrive-IsAt id (action_node n) = inl (n.next, refl, refl)
arrive-IsAt id (wait_node n) = inl (n.next, refl, refl)
arrive-IsAt id (end_node n) = inr (n, refl, refl)

visits_of-first : (id : Str) → visits_of id (count id []) ≡ 1
unfolding visits_of count find
visits_of-first id = ground (arith, str_eq_refl id)

enter_node-Started :
    (id : Str) (wf : Workflow) (e : Event) (run : RunInfo) (n : Node)
    → find wf.start wf.nodes ≡ some n
    → 1 ≤ max_visits n
    → Started id wf e run (enter_node wf.start (some n) (fresh id wf e run))
unfolding enter_node fresh count
enter_node-Started id wf e run n f m =
    let v = visits_of-first wf.start in
    let within : ltb (max_visits n) (visits_of wf.start (count wf.start [])) ≡ false =
      ground (arith, v) in
    rw (within) (record {
      node = n;
      found = f;
      visits = refl;
      is_at = arrive-IsAt wf.start n;
      workflow = refl;
      info = refl;
      event = refl;
      outputs = refl;
      previous = refl;
    })

pub enter-Started :
    (id : Str) (wf : Workflow) (e : Event) (run : RunInfo)
    → has_key wf.start wf.nodes ≡ true
    → ((n : Node) → find wf.start wf.nodes ≡ some n → 1 ≤ max_visits n)
    → Started id wf e run (enter wf wf.start (fresh id wf e run))
unfolding enter
enter-Started id wf e run h m = elim (Option-cases (find wf.start wf.nodes)) [
  | inl z ↦ absurd (ground (arith, z))
  | inr (n, f) ↦ rw (f) (enter_node-Started id wf e run n f (m n f))
]
