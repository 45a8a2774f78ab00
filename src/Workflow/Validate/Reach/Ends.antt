-- ===== src/Workflow/Validate/Reach/Ends.antt =====
-- What `check_reachability` reports: exactly the nodes from which no `end` can be reached.
use enzarb.Base.{
  ◌≡◌, refl, ◌↔◌, inl, inr, true, false, Option, some, List, [], ◌∷◌, All, is_empty, Bool-cases,
  arith,
}
use enzarb.Base.Text.{Str}
use enzarb.Base.Strings.{has, has_key, find}
use enzarb.Workflow.Schema.{Node, Workflow, WorkflowsFile, Humantime}
use enzarb.Workflow.Report.{ModeCatalog, is_ok, an_error, error_if}
use enzarb.Workflow.Validate.Refs.{each}
use enzarb.Workflow.Validate.Sound.{right_ok, both_ok, else_ok, validate-reach}
use enzarb.Workflow.Validate.File.{validate}
use enzarb.Workflow.Engine.{Engine}
use enzarb.Workflow.Validate.Reach.{
  targets, is_end, end_ids, pass, passes, can_end, check_stuck, check_unreachable,
  check_reachability,
}
use enzarb.Workflow.Validate.Reach.Passes.{CanEnd, ends, goes, has-end_ids, can_end_iff}

-- The warnings of the search from the start are no errors.
warnings-ok :
    (path : Str) (wf : Workflow) (ns : List (Str × Node))
    → is_ok (each (check_unreachable path wf) ns) ≡ true
unfolding check_unreachable is_ok enzarb.Workflow.Report.a_warning
warnings-ok path wf [] = refl
warnings-ok path wf (e ∷ ns) =
    elim (Bool-cases (has (enzarb.Workflow.Validate.Reach.reachable wf) e.0)) [
      | inl k ↦ rw (k) (warnings-ok path wf ns)
      | inr k ↦ rw (k) (warnings-ok path wf ns)
    ]

stuck-ok :
    (path : Str) (can : List Str) (ns : List (Str × Node))
    → (is_ok (each (check_stuck path can) ns) ≡ true) ↔ All (λ e. has can e.0 ≡ true) ns
unfolding check_stuck error_if is_ok an_error
stuck-ok path can [] = (λ h. tt, λ h. refl)
stuck-ok path can (e ∷ ns) = elim (Bool-cases (has can e.0)) [
  | inl k ↦ let r = stuck-ok path can ns in rw (k) (λ h. (refl, r.0 h), λ a. r.1 a.1)
  | inr k ↦ rw (k) (λ h. absurd (ground arith), λ a. absurd (ground (arith, a.0)))
]

All-map :
    (P Q : Str × Node → Type 0) (ns : List (Str × Node))
    → ((e : Str × Node) → P e → Q e)
    → All P ns
    → All Q ns
All-map P Q [] f a = tt
All-map P Q (e ∷ ns) f a = (f e a.0, All-map P Q ns f a.1)

is_empty-nodes : (ns : List (Str × Node)) → is_empty (end_ids ns) ≡ false → is_empty ns ≡ false
unfolding end_ids
is_empty-nodes [] h = h
is_empty-nodes (e ∷ ns) h = refl

is_empty-has : (xs : List Str) (x : Str) → has xs x ≡ true → is_empty xs ≡ false
is_empty-has [] x h = ground arith
is_empty-has (y ∷ xs) x h = refl

CanEnd-is_empty :
    (nodes : List (Str × Node)) (id : Str) → CanEnd nodes id → is_empty (end_ids nodes) ≡ false
CanEnd-is_empty nodes _ (ends e m h) = is_empty-has (end_ids nodes) e.0 (has-end_ids nodes e m h)
CanEnd-is_empty nodes _ (goes e t m h p) = CanEnd-is_empty nodes t p

some_end :
    (nodes ns : List (Str × Node))
    → is_empty ns ≡ false
    → All (λ e. CanEnd nodes e.0) ns
    → is_empty (end_ids nodes) ≡ false
some_end nodes [] h a = absurd (ground arith)
some_end nodes (e ∷ ns) h a = CanEnd-is_empty nodes e.0 a.0

-- The check of a workflow's graph reports no error exactly when there is a node, and from every node a path of edges leads
-- to an `end`.
pub check_reachability_iff :
    (path : Str) (wf : Workflow)
    → (is_ok (check_reachability path wf) ≡ true)
      ↔ ((is_empty wf.nodes ≡ false) × All (λ e. CanEnd wf.nodes e.0) wf.nodes)
unfolding check_reachability
check_reachability_iff path wf =
    let can = can_end wf.nodes in
    let stuck = stuck-ok path can wf.nodes in
    (
      λ h.
          let (k, g) = else_ok (is_empty (end_ids wf.nodes)) _ _ _ (right_ok _ _ h) in
          (
            is_empty-nodes wf.nodes k,
            All-map (λ e. has can e.0 ≡ true) (λ e. CanEnd wf.nodes e.0) wf.nodes
                (λ e. (can_end_iff wf.nodes e.0).0) (stuck.0 g),
          ),
      λ a.
          let k = some_end wf.nodes wf.nodes a.0 a.1 in
          let all = stuck.1 (
            All-map (λ e. CanEnd wf.nodes e.0) (λ e. has can e.0 ≡ true) wf.nodes
              (λ e. (can_end_iff wf.nodes e.0).1) a.1) in
          rw (k) (elim (Bool-cases (has_key wf.start wf.nodes)) [
            | inl q ↦ rw (q) (both_ok _ _ (warnings-ok path wf wf.nodes) all)
            | inr q ↦ rw (q) all
          ]),
    )

-- In a file that validates without errors every workflow has a node, and from each a path of edges leads to an `end`.
pub validate-CanEnd :
    (engine : Engine) (h : Humantime) (modes : Option ModeCatalog) (file : WorkflowsFile) (id : Str)
    (wf : Workflow)
    → is_ok (validate engine h modes file) ≡ true
    → find id file.workflows ≡ some wf
    → (is_empty wf.nodes ≡ false) × All (λ e. CanEnd wf.nodes e.0) wf.nodes
validate-CanEnd engine h modes file id wf k f =
    let (path, r) = validate-reach engine h modes file id wf k f in
    (check_reachability_iff path wf).0 r
