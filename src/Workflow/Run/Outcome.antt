-- ===== src/Workflow/Run/Outcome.antt =====
-- What `advance` does at a node whose edges are in order.
use enzarb.Base.{
  ℕ, suc, ◌<◌, ◌≡◌, refl, ◌≢◌, ◌⊎◌, inl, inr, true, false, Option, none, some, List, [], ◌∷◌,
  Bool-cases, Option-cases, ltb, Result, ok, err, Result-cases, arith,
}
use enzarb.Base.Text.{Str}
use enzarb.Base.Strings.{find, has_key}
use enzarb.Workflow.Json.{Value}
use enzarb.Workflow.Engine.{Engine}
use enzarb.Workflow.Schema.{
  Workflow, Node, agent_node, command_node, action_node, wait_node, end_node, Edge, EndStatus,
  EndNode, failed, max_visits,
}
use enzarb.Workflow.Run.{
  RunState, RunStatus, at, ended, Transition, moved, run_ended, arrive, enter_node, enter, end_run,
  count, visits_of,
}
use enzarb.Workflow.Run.Steps.{
  edge_test, edge_failed, settle, concluded, transition_of, take_edge, decide, follow,
}
use enzarb.Workflow.Validate.Sound.{Routes}

module _ (engine : Engine) (ctx : Value) where
  -- Edge number `j`, counted from `i`, is the first whose condition is not false.
  pub data Picks : ℕ → List Edge → ℕ → Edge → Type 0 where
    here :
        {i : ℕ} {e : Edge} {es : List Edge}
        → edge_test engine ctx e.condition ≢ ok false
        → Picks i (e ∷ es) i e
    later :
        {i j : ℕ} {e f : Edge} {es : List Edge}
        → edge_test engine ctx e.condition ≡ ok false
        → Picks (suc i) es j f
        → Picks i (e ∷ es) j f

-- The run is at the node, or has ended there.
abbrev pub StandsAt : Str → RunStatus → Type 0
StandsAt id st =
    (st ≡ at id)
    ⊎ ((status : EndStatus) × (reason : Option Str) × (st ≡ ended status (some id) reason))

-- What follows from the edge that was picked: it is taken, or its node is worn out, or its condition failed.
pub data Verdict (engine : Engine) (wf : Workflow) (id : Str) (ctx : Value) (i : ℕ) (e : Edge)
    : Transition × RunState → Type 0 where
  taken :
      {r : Transition × RunState}
      → edge_test engine ctx e.condition ≡ ok true
      → r.0 ≡ moved id e.to i
      → StandsAt e.to r.1.status
      → Verdict engine wf id ctx i e r
  worn_out :
      {r : Transition × RunState} (n : Node) (reason : Str)
      → edge_test engine ctx e.condition ≡ ok true
      → find e.to wf.nodes ≡ some n
      → max_visits n < visits_of e.to r.1.visits
      → r.0 ≡ run_ended failed (some reason)
      → r.1.status ≡ ended failed none (some reason)
      → Verdict engine wf id ctx i e r
  broken :
      {r : Transition × RunState} (m : Str)
      → edge_test engine ctx e.condition ≡ err m
      → r.0 ≡ run_ended failed (some (edge_failed id i e.condition m))
      → r.1.status ≡ ended failed none (some (edge_failed id i e.condition m))
      → Verdict engine wf id ctx i e r

enter-cases :
    (wf : Workflow) (to : Str) (n : Node) (s : RunState)
    → find to wf.nodes ≡ some n
    → ((reason : Str) × ((enter wf to s).status ≡ ended failed none (some reason))
        × (max_visits n < visits_of to (enter wf to s).visits))
      ⊎ ((enter wf to s).status ≡ arrive to n)
unfolding enter enter_node end_run
enter-cases wf to n s f =
    rw (f) (elim (Bool-cases (ltb (max_visits n) (visits_of to (count to s.visits)))) [
      | inl h ↦ rw (h) (inl (_, refl, ground arith))
      | inr h ↦ rw (h) (inr refl)
    ])

concluded-moves :
    (id : Str) (e : EndNode) (r : Result Str Str) (m : Transition)
    → (transition_of (concluded id e r) m ≡ m) × StandsAt id (concluded id e r)
unfolding concluded transition_of
concluded-moves id e (ok a) m = (refl, inr (_, _, refl))
concluded-moves id e (err a) m = (refl, inr (_, _, refl))

-- A run that stands at `to`, once its end has its reason, makes the transition a move.
settled-moves :
    (engine : Engine) (to : Str) (n : Node) (t : RunState) (m : Transition)
    → t.status ≡ arrive to n
    → (transition_of (settle engine t.status (some n) t).status m ≡ m)
      × StandsAt to (settle engine t.status (some n) t).status
unfolding arrive settle transition_of
settled-moves engine to (agent_node a) t m h = rw (h) (refl, inl refl)
settled-moves engine to (command_node a) t m h = rw (h) (refl, inl refl)
settled-moves engine to (action_node a) t m h = rw (h) (refl, inl refl)
settled-moves engine to (wait_node a) t m h = rw (h) (refl, inl refl)
settled-moves engine to (end_node a) t m h = rw (h) (concluded-moves to a _ m)

-- The state when a worn out node ended the run.
settled-over :
    (engine : Engine) (to reason : Str) (n : Node) (t : RunState) (m : Transition)
    → t.status ≡ ended failed none (some reason)
    → (transition_of (settle engine t.status (some n) t).status m ≡ run_ended failed (some reason))
      × ((settle engine t.status (some n) t).status ≡ ended failed none (some reason))
      × ((settle engine t.status (some n) t).visits ≡ t.visits)
unfolding settle transition_of
settled-over engine to reason n t m h = rw (h) (refl, refl, refl)

module _ (engine : Engine) (wf : Workflow) (id : Str) (ctx : Value) where
  take_edge-Verdict :
      (i : ℕ) (e : Edge) (s : RunState) (n : Node)
      → edge_test engine ctx e.condition ≡ ok true
      → find e.to wf.nodes ≡ some n
      → Verdict engine wf id ctx i e (take_edge engine wf id i e.to s)
  unfolding take_edge
  take_edge-Verdict i e s n c f =
      let t = enter wf e.to (record s { previous = some id }) in
      rw (f) (elim (enter-cases wf e.to n (record s { previous = some id }) f) [
        | inl (reason, o, full) ↦
            let d = settled-over engine e.to reason n t (moved id e.to i) o in
            worn_out n reason c f (rw (d.2) full) d.0 d.1
        | inr a ↦ let d = settled-moves engine e.to n t (moved id e.to i) a in taken c d.0 d.1
      ])

  -- An edge is skipped or decides.
  edge-cases :
      (i : ℕ) (e : Edge) (es : List Edge) (s : RunState)
      → has_key e.to wf.nodes ≡ true
      → ((edge_test engine ctx e.condition ≡ ok false)
          × (follow engine wf id ctx i (e ∷ es) s ≡ follow engine wf id ctx (suc i) es s))
        ⊎ ((edge_test engine ctx e.condition ≢ ok false)
            × Verdict engine wf id ctx i e (follow engine wf id ctx i (e ∷ es) s))
  unfolding follow decide end_run
  edge-cases i e es s k = elim (Result-cases (edge_test engine ctx e.condition)) [
    | inl (true, c) ↦ elim (Option-cases (find e.to wf.nodes)) [
      | inl f ↦ absurd (ground (arith, f))
      | inr (n, f) ↦ let v = take_edge-Verdict i e s n c f in inr (λ z. ground (arith, c), rw (c) v)
    ]
    | inl (false, c) ↦ inl (c, rw (c) refl)
    | inr (m, c) ↦ inr (λ z. ground (arith, c), rw (c) (broken m c refl refl))
  ]

  -- The edge that decides is the first whose condition is not false, and there is one.
  pub follow-Verdict :
      (i : ℕ) (es : List Edge) (s : RunState)
      → Routes wf.nodes es
      → (j : ℕ) × (e : Edge) × Picks engine ctx i es j e
        × Verdict engine wf id ctx j e (follow engine wf id ctx i es s)
  unfolding edge_test
  follow-Verdict i [] s r = absurd r
  follow-Verdict i (e ∷ []) s r = elim (edge-cases i e [] s r.0) [
    | inl (c, q) ↦ absurd (ground (arith, rw (r.1) at c))
    | inr (c, v) ↦ (i, e, here c, v)
  ]
  follow-Verdict i (e ∷ f ∷ es) s r = elim (edge-cases i e (f ∷ es) s r.0) [
    | inl (c, q) ↦
        let (j, g, p, v) = follow-Verdict (suc i) (f ∷ es) s r.2 in (j, g, later c p, rw (q) v)
    | inr (c, v) ↦ (i, e, here c, v)
  ]
