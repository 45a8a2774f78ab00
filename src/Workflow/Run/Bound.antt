-- ===== src/Workflow/Run/Bound.antt =====
-- Runs end: `max_visits` bounds the edges that a run takes.
use enzarb.Base.{
  ℕ, suc, ◌+◌, ◌^◌, ◌≤◌, ◌<◌, ◌≡◌, refl, sym, ◌∙◌, ◌⊎◌, inl, inr, true, none, some, [], Bool-cases,
  some_inj, ok, err, arith,
}
use enzarb.Base.Text.{Str}
use enzarb.Base.Strings.{str_eq, str_eq_refl, str_eq_sound, find}
use enzarb.Workflow.Json.{Value}
use enzarb.Workflow.Engine.{Engine}
use enzarb.Workflow.Event.{Event}
use enzarb.Workflow.Schema.{Workflow, WorkflowsFile, Node, max_visits}
use enzarb.Workflow.Run.{
  RunState, RunInfo, not_running, Transition, current, is_ended, end_run, visits_of, fail, cancel,
  start, fresh,
}
use enzarb.Workflow.Run.Steps.{advance}
use enzarb.Workflow.Run.Lands.{Visit, start-Lands, advance-Lands, advance-over}
use enzarb.Workflow.Run.Budget.{budget, Countable, visits_of-count, budget-spends, Countable-find}

-- After `n` visits each node is within its limit, and what the limits still allow was not used up.
pub record IsWithin (wf : Workflow) (n : ℕ) (s : RunState) : Type 0 where
  pub limited :
      (id : Str) (m : Node) → find id wf.nodes ≡ some m → visits_of id s.visits ≤ max_visits m
  pub spent : n + suc (budget wf.nodes s.visits) ≤ budget wf.nodes []

none_visited : (id : Str) (m : Node) → visits_of id [] ≤ max_visits m
unfolding visits_of find
none_visited id m = omega arith

module _ (wf : Workflow) (c : Countable wf.nodes) where
  Visit-IsWithin :
      (s s' : RunState) (n : ℕ)
      → ((id : Str) (m : Node) → find id wf.nodes ≡ some m → visits_of id s.visits ≤ max_visits m)
      → n + budget wf.nodes s.visits ≤ budget wf.nodes []
      → Visit wf s s'
      → IsWithin wf n s'
  Visit-IsWithin s s' n l b v =
      let fits = Countable-find wf.nodes v.to v.visited c v.found in
      let below = l v.to v.visited v.found in
      let small : visits_of v.to s.visits + 1 < 2 ^ 32 = omega (arith, fits, below) in
      record {
        limited = λ id m f.
            rw (v.counted, visits_of-count id v.to s.visits)
              (elim (Bool-cases (str_eq v.to id)) [
                | inl k ↦
                    let q = str_eq_sound v.to id k in
                    let f' : find v.to wf.nodes ≡ some m = rw (q) f in
                    let e = some_inj (sym v.found ∙ f') in
                    rw (k, ← e)
                      (omega (
                        arith,
                        rw (visits_of-count v.to v.to s.visits, str_eq_refl v.to) at v.within,
                      ))
                | inr k ↦ rw (k) (l id m f)
              ]);
        spent = rw (v.counted) (
            omega
              (arith, b, budget-spends wf.nodes v.to v.visited s.visits v.found v.within small));
      }

-- What holds of a run of the workflow that was advanced `n` times.
pub record IsBounded (file : WorkflowsFile) (wf : Workflow) (n : ℕ) (s : RunState) : Type 0 where
  pub of : find s.workflow file.workflows ≡ some wf
  pub at_most : n ≤ budget wf.nodes []
  pub standing : (current s.status ≡ none) ⊎ IsWithin wf n s

-- The states of a run, with the number of its advances; the outcomes of the nodes are arbitrary.
pub data Runs (engine : Engine) (file : WorkflowsFile) (s : RunState) : ℕ → RunState → Type 0 where
  starts : Runs engine file s 0 s
  advances :
      {n : ℕ} {t u : RunState} (out : Value) (m : Transition)
      → Runs engine file s n t
      → advance engine file out t ≡ ok (m, u)
      → Runs engine file s (suc n) u
  fails :
      {n : ℕ} {t u : RunState} (reason : Str)
      → Runs engine file s n t
      → u ≡ fail reason t
      → Runs engine file s n u
  cancels :
      {n : ℕ} {t u : RunState} (reason : Str)
      → Runs engine file s n t
      → u ≡ cancel reason t
      → Runs engine file s n u

is_ended-over : (s : RunState) → current s.status ≡ none → is_ended s ≡ true
unfolding is_ended
is_ended-over s h = rw (h) refl

module _ (engine : Engine) (file : WorkflowsFile) (wf : Workflow) (c : Countable wf.nodes) where
  start-IsBounded :
      (workflow : Str) (e : Event) (run : RunInfo) (s : RunState)
      → find workflow file.workflows ≡ some wf
      → start file workflow e run ≡ ok s
      → IsBounded file wf 0 s
  unfolding fresh
  start-IsBounded workflow e run s f h =
      let l = start-Lands file wf workflow e run f s h in
      record {
        of = rw (l.same) f;
        at_most = omega arith;
        standing = elim l.lands [
          | inl o ↦ inl o
          | inr v ↦ inr (
              Visit-IsWithin wf c (fresh workflow wf e run) s 0 (λ id m g. none_visited id m)
                (omega arith) v)
        ];
      }

  advance-IsBounded :
      (n : ℕ) (out : Value) (m : Transition) (s s' : RunState)
      → IsBounded file wf n s
      → advance engine file out s ≡ ok (m, s')
      → IsBounded file wf (suc n) s'
  advance-IsBounded n out m s s' b e =
      let l = advance-Lands engine file wf out s b.of s' m e in
      elim b.standing [
        | inl o ↦ absurd (ground (arith, advance-over engine file wf out s b.of o, e))
        | inr w ↦ record {
          of = rw (l.same) b.of;
          at_most = omega (arith, w.spent);
          standing = elim l.lands [
            | inl o ↦ inl o
            | inr v ↦ inr (Visit-IsWithin wf c s s' (suc n) w.limited (omega (arith, w.spent)) v)
          ];
        }
      ]

  fail-IsBounded :
      (n : ℕ) (reason : Str) (s : RunState)
      → IsBounded file wf n s
      → IsBounded file wf n (fail reason s)
  unfolding fail end_run current
  fail-IsBounded n reason s b = elim (Bool-cases (is_ended s)) [
    | inl h ↦ rw (h) b
    | inr h ↦ rw (h) (record { of = b.of; at_most = b.at_most; standing = inl refl })
  ]

  cancel-IsBounded :
      (n : ℕ) (reason : Str) (s : RunState)
      → IsBounded file wf n s
      → IsBounded file wf n (cancel reason s)
  unfolding cancel end_run current
  cancel-IsBounded n reason s b = elim (Bool-cases (is_ended s)) [
    | inl h ↦ rw (h) b
    | inr h ↦ rw (h) (record { of = b.of; at_most = b.at_most; standing = inl refl })
  ]

  Runs-IsBounded :
      (s : RunState)
      → IsBounded file wf 0 s
      → (n : ℕ) (t : RunState) → Runs engine file s n t
      → IsBounded file wf n t
  Runs-IsBounded s b _ _ starts = b
  Runs-IsBounded s b (suc n) t (advances out m r e) =
      advance-IsBounded n out m _ t (Runs-IsBounded s b n _ r) e
  Runs-IsBounded s b n t (fails reason r e) =
      rw (e) (fail-IsBounded n reason _ (Runs-IsBounded s b n _ r))
  Runs-IsBounded s b n t (cancels reason r e) =
      rw (e) (cancel-IsBounded n reason _ (Runs-IsBounded s b n _ r))

  -- A run ends. From the start of a workflow whose limits a count of 32 bits can pass, no run is advanced more often than the
  -- limits of all nodes add up to, whatever the outcomes of its nodes are and whether or not it is failed or cancelled from
  -- outside. It is over, and then no `advance` is possible, or it was advanced less often than that.
  pub Runs-bounded :
      (workflow : Str) (e : Event) (run : RunInfo) (s t : RunState) (n : ℕ)
      → find workflow file.workflows ≡ some wf
      → start file workflow e run ≡ ok s
      → Runs engine file s n t
      → (n ≤ budget wf.nodes [])
        × (((is_ended t ≡ true) × ((out : Value) → advance engine file out t ≡ err not_running))
            ⊎ (n < budget wf.nodes []))
  Runs-bounded workflow e run s t n f h r =
      let b = Runs-IsBounded s (start-IsBounded workflow e run s f h) n t r in
      (
        b.at_most,
        elim b.standing [
          | inl o ↦ inl (is_ended-over t o, λ out. advance-over engine file wf out t b.of o)
          | inr w ↦ inr (omega (arith, w.spent))
        ],
      )
