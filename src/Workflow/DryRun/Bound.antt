-- ===== src/Workflow/DryRun/Bound.antt =====
-- The walk of a dry run ends, and within its limit of steps.
use enzarb.Base.{
  ℕ, zero, suc, ◌+◌, ◌≤◌, ◌≡◌, refl, sym, ◌∙◌, ap, ◌⊎◌, inl, inr, Bool, Option, none, some, List,
  [], ◌∷◌, ◌++◌, length, length-append, leb, Bool-cases, Option-cases, some_inj, Result, ok, err,
  Result-cases, arith,
}
use enzarb.Base.Text.{Str}
use enzarb.Base.Strings.{find}
use enzarb.Workflow.Json.{Value}
use enzarb.Workflow.Engine.{Engine}
use enzarb.Workflow.Event.{Event}
use enzarb.Workflow.Schema.{WorkflowsFile, Workflow, Node, EndStatus, Humantime}
use enzarb.Workflow.Report.{ModeCatalog}
use enzarb.Workflow.Run.{
  RunState, RunInfo, RunStatus, at, ended, current, RunError, display, start, unknown_workflow,
  fresh,
}
use enzarb.Workflow.Run.Steps.{render_current, advance}
use enzarb.Workflow.Run.Lands.{start-Lands, advance-Lands}
use enzarb.Workflow.Run.Validated.{Stands, Lands-Stands, ended-Stands}
use enzarb.Workflow.DryRun.{
  Trace, TraceStep, TraceEnd, Turn, goes_on, stops, rendered_turn, assumed_turn, advanced, turn_at,
  turn, end_step, trace_loop, trace, trace_from, dry_run_info,
}

at-current : (id : Str) → current (at id) ≡ none → ⊥
unfolding current
at-current id h = ground arith

at_inj : {i j : Str} → at i ≡ at j → i ≡ j
at_inj {i = i} e = ap (λ st. elim st [ at n ↦ n | ended a b c ↦ i ]) e

end_step-length : (s : RunState) (e : EndStatus) (n r : Option Str) → length (end_step s e n r) ≤ 1
unfolding end_step
end_step-length s e none r = omega arith
end_step-length s e (some n) r = omega arith

module _ (engine : Engine) (h : Humantime) (file : WorkflowsFile) (modes : Option ModeCatalog)
    (assume : List (Str × Value)) (wf : Workflow) where
  -- A turn goes on with a run that stands, or stops with one step more.
  TurnIsFine : Turn → Type 0
  TurnIsFine u =
      ((step : TraceStep) × (t : RunState) × (u ≡ goes_on step t) × Stands file wf t)
      ⊎ ((rest : List TraceStep) × (stop : TraceEnd) × (u ≡ stops rest stop) × (length rest ≡ 1))

  assumed_turn-fine :
      (step : TraceStep) (s : RunState) (id : Str) (n : Node) (o : Option Value)
      → Stands file wf s
      → TurnIsFine (assumed_turn engine h file modes assume step s id n o)
  unfolding assumed_turn advanced TurnIsFine
  assumed_turn-fine step s id n none b = inr (_, _, refl, refl)
  assumed_turn-fine step s id n (some out) b = elim (Result-cases (advance engine file out s)) [
    | inl ((m, u), e) ↦ rw (e) (
        inl (
          _,
          u,
          refl,
          Lands-Stands file wf s u b.of (advance-Lands engine file wf out s b.of u m e),
        ))
    | inr (x, e) ↦ rw (e) (inl (_, _, refl, (ended-Stands file wf (display x) s b).0))
  ]

  turn_at-fine :
      (s : RunState) (id : Str) (n : Node)
      → Stands file wf s
      → TurnIsFine (turn_at engine h file modes assume s id (some n))
  unfolding turn_at rendered_turn TurnIsFine
  turn_at-fine s id n b = elim (Result-cases (render_current engine h file s)) [
    | inl (ok r, e) ↦ rw (e) (assumed_turn-fine _ s id n (find id assume) b)
    | inl (err m, e) ↦ rw (e) (inl (_, _, refl, (ended-Stands file wf m s b).0))
    | inr (x, e) ↦ rw (e) (inl (_, _, refl, (ended-Stands file wf (display x) s b).0))
  ]

  -- A turn is fine; while there is room for a step it pushes one, and at most one more when it stops.
  turn-cases :
      (max_steps : ℕ) (steps : List TraceStep) (s : RunState) (st : RunStatus)
      → s.status ≡ st
      → Stands file wf s
      → length steps ≤ max_steps
      → ((step : TraceStep) × (t : RunState) × (turn engine h file modes assume max_steps wf steps s
              st
            ≡ goes_on step t)
          × Stands file wf t
          × (suc (length steps) ≤ max_steps))
        ⊎ ((rest : List TraceStep) × (stop : TraceEnd) × (turn engine h file modes assume max_steps
                wf steps s st
              ≡ stops rest stop)
            × (length rest ≤ 1))
  unfolding turn TurnIsFine
  turn-cases max_steps steps s (ended e n r) q b l = inr (_, _, refl, end_step-length s e n r)
  turn-cases max_steps steps s (at id) q b l = elim (Bool-cases (leb max_steps (length steps))) [
    | inl full ↦ rw (full) (inr ([], _, refl, omega arith))
    | inr room ↦ elim b.stands [
      | inl o ↦ absurd (at-current id (rw (q) at o))
      | inr (j, n, st, g, go) ↦
          let same : id ≡ j = at_inj (sym q ∙ st) in
          rw (room, same, g)
            (elim (turn_at-fine s j n b) [
              | inl (step, t, e, c) ↦ inl (step, t, e, c, ground arith)
              | inr (rest, stop, e, c) ↦ inr (rest, stop, e, omega (arith, c))
            ])
    ]
  ]

  module _ (fuel max_steps : ℕ) (steps : List TraceStep) (s : RunState) where
    trace_loop-goes_on :
        (step : TraceStep) (t : RunState)
        → turn engine h file modes assume max_steps wf steps s s.status ≡ goes_on step t
        → trace_loop engine h file modes assume (suc fuel) max_steps wf steps s
          ≡ trace_loop engine h file modes assume fuel max_steps wf (steps ++ step ∷ []) t
    unfolding trace_loop
    trace_loop-goes_on step t e = rw (e, trace_loop) refl

    trace_loop-stops :
        (rest : List TraceStep) (stop : TraceEnd)
        → turn engine h file modes assume max_steps wf steps s s.status ≡ stops rest stop
        → trace_loop engine h file modes assume (suc fuel) max_steps wf steps s
          ≡ some (steps ++ rest, stop)
    unfolding trace_loop
    trace_loop-stops rest stop e = rw (e, trace_loop) refl

  trace_loop-some :
      (fuel max_steps : ℕ) (steps : List TraceStep) (s : RunState)
      → Stands file wf s
      → length steps ≤ max_steps
      → length steps + fuel ≡ suc max_steps
      → (r : List TraceStep × TraceEnd) × (trace_loop engine h file modes assume fuel max_steps wf
            steps s
          ≡ some r)
        × (length r.0 ≤ suc max_steps)
  unfolding trace_loop
  trace_loop-some zero max_steps steps s b l f = absurd (omega arith)
  trace_loop-some (suc fuel) max_steps steps s b l f =
      elim (turn-cases max_steps steps s s.status refl b l) [
        | inl (step, t, e, c, room) ↦
            let k = length-append steps (step ∷ []) in
            let r =
              trace_loop-some fuel max_steps (steps ++ step ∷ []) t c (omega (arith, k, room))
                (omega (arith, k, f)) in
            (r.0, trace_loop-goes_on fuel max_steps steps s step t e ∙ r.1, r.2)
        | inr (rest, stop, e, c) ↦
            let k = length-append steps rest in
            (
              (steps ++ rest, stop),
              trace_loop-stops fuel max_steps steps s rest stop e,
              omega (arith, k, l, c),
            )
      ]

-- The result of `trace` for a run that may not have started
trace_from-some :
    (engine : Engine) (h : Humantime) (file : WorkflowsFile) (modes : Option ModeCatalog)
    (assume : List (Str × Value)) (max_steps : ℕ) (id : Str) (forced : Bool) (o : Option Workflow)
    (r : Result RunError RunState)
    → ((s : RunState) → r ≡ ok s → (wf : Workflow) × (o ≡ some wf) × Stands file wf s)
    → (t : Trace) × (trace_from engine h file modes assume max_steps id forced o r ≡ some t)
      × (length t.steps ≤ suc max_steps)
unfolding trace_from
trace_from-some engine h file modes assume max_steps id forced o (err x) g = (_, refl, omega arith)
trace_from-some engine h file modes assume max_steps id forced none (ok s) g =
    absurd (ground (arith, (g s refl).1))
trace_from-some engine h file modes assume max_steps id forced (some wf) (ok s) g =
    let (v, q, b) = g s refl in
    let b' : Stands file wf s = rw (some_inj q) b in
    let r =
      trace_loop-some engine h file modes assume wf (suc max_steps) max_steps [] s b' (omega arith)
        (omega arith) in
    (record { workflow = id; forced = forced; steps = r.0.0; end = r.0.1 }, rw (r.1) refl, r.2)

start-none :
    (file : WorkflowsFile) (id : Str) (e : Event) (run : RunInfo)
    → find id file.workflows ≡ none
    → start file id e run ≡ err (unknown_workflow id)
unfolding start
start-none file id e run f = rw (f) refl

-- A trace of a dry run ends, for every workflow, event and assumption: no node that it looks up is missing, and the trace has
-- at most one step more than the limit.
pub trace-some :
    (engine : Engine) (h : Humantime) (file : WorkflowsFile) (modes : Option ModeCatalog)
    (assume : List (Str × Value)) (max_steps : ℕ) (e : Event) (id : Str) (forced : Bool)
    → (t : Trace) × (trace engine h file modes assume max_steps e id forced ≡ some t)
      × (length t.steps ≤ suc max_steps)
unfolding trace fresh
trace-some engine h file modes assume max_steps e id forced =
    trace_from-some engine h file modes assume max_steps id forced (find id file.workflows)
      (start file id e dry_run_info)
      (λ s q. elim (Option-cases (find id file.workflows)) [
        | inl f ↦ absurd (ground (arith, start-none file id e dry_run_info f, q))
        | inr (wf, f) ↦ (
          wf,
          f,
          Lands-Stands file wf (fresh id wf e dry_run_info) s f
              (start-Lands file wf id e dry_run_info f s q),
        )
      ])
