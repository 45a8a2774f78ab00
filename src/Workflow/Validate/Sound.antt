-- ===== src/Workflow/Validate/Sound.antt =====
-- What a report without errors says of the graph of a workflow.
use enzarb.Base.{
  ℕ, suc, ◌+◌, ◌≤◌, ◌≡◌, refl, sym, ◌∙◌, ap, ◌⊎◌, inl, inr, Bool, true, false, not, ◌&&◌, Option,
  none, some, List, [], ◌∷◌, ◌++◌, length, ◌==◌, is_empty, some_inj, Bool-cases, if◌then◌else◌,
  arith,
}
use enzarb.Base.Text.{Str}
use enzarb.Base.Strings.{find, find-cases, find-nil, has_key}
use enzarb.Workflow.Json.{Value}
use enzarb.Workflow.Engine.{Engine}
use enzarb.Workflow.Schema.{
  Workflow, WorkflowsFile, Node, Edge, Next, next, edges_of, node_type, Humantime, max_visits,
  node_max_visits, default_max_visits, unwrap_or,
}
use enzarb.Workflow.Report.{Report, ModeCatalog, is_ok, is_ok-append, an_error, error_if}
use enzarb.Workflow.Validate.Refs.{each, each_at}
use enzarb.Workflow.Validate.Reach.{check_reachability}
use enzarb.Workflow.Validate.File.{
  check_entry, check_max_visits, check_nodes, validate_workflow, check_workflow, validate,
}
use enzarb.Workflow.Validate.File.Edges.{check_condition, check_edge, check_edges, check_next}

pub left_ok : (r q : Report) → is_ok (r ++ q) ≡ true → is_ok r ≡ true
left_ok r q h = ground (arith, is_ok-append r q)

pub right_ok : (r q : Report) → is_ok (r ++ q) ≡ true → is_ok q ≡ true
right_ok r q h = ground (arith, is_ok-append r q)

pub both_ok : (r q : Report) → is_ok r ≡ true → is_ok q ≡ true → is_ok (r ++ q) ≡ true
both_ok r q h k = ground (arith, is_ok-append r q)

pub error_if-ok : (b : Bool) (p m : Str) → is_ok (error_if b p m) ≡ true → b ≡ false
unfolding error_if an_error is_ok
error_if-ok true p m h = ground arith
error_if-ok false p m h = refl

pub an_error-ok : (p m : Str) → is_ok (an_error p m) ≡ true → ⊥
unfolding an_error is_ok
an_error-ok p m h = ground arith

pub else_ok :
    (b : Bool) (p m : Str) (r : Report)
    → is_ok (if b then an_error p m else r) ≡ true
    → (b ≡ false) × (is_ok r ≡ true)
else_ok true p m r h = absurd (an_error-ok p m h)
else_ok false p m r h = (refl, h)

true-false : ◌≡◌ {A = Bool} true false → ⊥
true-false h = ground arith

pub not-false : (b : Bool) → not b ≡ false → b ≡ true
not-false true h = refl
not-false false h = ground arith

pub each-find {ℓ} :
    {V : Type ℓ} (f : Str × V → Report) (k : Str) (v : V) (d : List (Str × V))
    → is_ok (each f d) ≡ true
    → find k d ≡ some v
    → is_ok (f (k, v)) ≡ true
each-find f k v [] h g = absurd (find-nil k v g)
each-find f k v (e ∷ d) h g = elim (find-cases k e d v g) [
  | inl (p, q) ↦ rw (← p, ← q) (left_ok (f e) (each f d) h)
  | inr (p, q) ↦ each-find f k v d (right_ok (f e) (each f d) h) q
]

-- The edges of a node: each leads to a node, and exactly the last has no condition.
abbrev pub Routes : List (Str × Node) → List Edge → Type 0
Routes nodes [] = ⊥
Routes nodes (e ∷ []) = (has_key e.to nodes ≡ true) × (e.condition ≡ none)
Routes nodes (e ∷ f ∷ es) =
    (has_key e.to nodes ≡ true) × ((c : Str) × (e.condition ≡ some c)) × Routes nodes (f ∷ es)

module _ (engine : Engine) (nodes : List (Str × Node)) (defined : List (Str × Value)) (ep : Str)
    (bare : List Str) where
  condition-last :
      (p : Str) (c : Option Str)
      → is_ok (check_condition engine nodes defined ep bare p c true) ≡ true
      → c ≡ none
  unfolding check_condition an_error
  condition-last p none h = refl
  condition-last p (some c) h = absurd (an_error-ok _ _ (right_ok _ _ h))

  condition-other :
      (p : Str) (c : Option Str)
      → is_ok (check_condition engine nodes defined ep bare p c false) ≡ true
      → (d : Str) × (c ≡ some d)
  unfolding check_condition an_error is_ok
  condition-other p none h = absurd (ground arith)
  condition-other p (some c) h = (c, refl)

  check_edge-ok :
      (count i : ℕ) (e : Edge)
      → is_ok (check_edge engine nodes defined ep bare count i e) ≡ true
      → (has_key e.to nodes ≡ true)
        × ((p : Str) × (is_ok
                (check_condition engine nodes defined ep bare p e.condition (i + 1 == count))
              ≡ true))
  unfolding check_edge
  check_edge-ok count i e h = (not-false _ (error_if-ok _ _ _ (left_ok _ _ h)), (_, right_ok _ _ h))

  each_at-Routes :
      (count i : ℕ) (e : Edge) (es : List Edge)
      → count ≡ i + length (e ∷ es)
      → is_ok (each_at (check_edge engine nodes defined ep bare count) i (e ∷ es)) ≡ true
      → Routes nodes (e ∷ es)
  each_at-Routes count i e [] q h =
      let c = check_edge-ok count i e (left_ok _ [] h) in
      let last : (i + 1 == count) ≡ true = ground (arith, q) in
      (c.0, condition-last c.1.0 e.condition (rw last at c.1.1))
  each_at-Routes count i e (f ∷ es) q h =
      let c = check_edge-ok count i e (left_ok _ _ h) in
      let last : (i + 1 == count) ≡ false = ground (arith, q) in
      let rest = each_at-Routes count (suc i) f es (omega (arith, q)) (right_ok _ _ h) in
      (c.0, condition-other c.1.0 e.condition (rw last at c.1.1), rest)

  pub check_edges-Routes :
      (es : List Edge)
      → is_ok (check_edges engine nodes defined ep bare es) ≡ true
      → Routes nodes es
  unfolding check_edges
  check_edges-Routes [] h = absurd (true-false (error_if-ok true _ _ (left_ok _ [] h)))
  check_edges-Routes (e ∷ es) h =
      each_at-Routes (length (e ∷ es)) 0 e es (omega arith) (right_ok _ _ h)

pub check_next-Routes :
    (engine : Engine) (nodes : List (Str × Node)) (defined : List (Str × Value)) (np : Str)
    (t : enzarb.Workflow.Schema.NodeType) (o : Option Next) (nx : Next)
    → is_ok (check_next engine nodes defined np t o) ≡ true
    → o ≡ some nx
    → Routes nodes (edges_of nx)
unfolding check_next
check_next-Routes engine nodes defined np t none nx h e = absurd (ground arith)
check_next-Routes engine nodes defined np t (some ny) nx h e =
    rw (← some_inj e) (check_edges-Routes engine nodes defined _ _ (edges_of ny) h)

-- A workflow whose graph is whole: it starts at a node, and the edges of each node are in order.
pub record IsWhole (wf : Workflow) : Type 0 where
  pub starts : has_key wf.start wf.nodes ≡ true
  pub routes :
      (id : Str) (n : Node) (nx : Next)
      → find id wf.nodes ≡ some n
      → next n ≡ some nx
      → Routes wf.nodes (edges_of nx)
  pub visitable : (id : Str) (n : Node) → find id wf.nodes ≡ some n → 1 ≤ max_visits n

module _ (engine : Engine) (h : Humantime) (modes : Option ModeCatalog) where
  check_max_visits-ok :
      (np : Str) (o : Option ℕ)
      → is_ok (check_max_visits engine h modes np o) ≡ true
      → 1 ≤ unwrap_or default_max_visits o
  unfolding check_max_visits
  check_max_visits-ok np none k = omega arith
  check_max_visits-ok np (some m) k = ground (arith, error_if-ok (m == 0) _ _ k)

  check_entry-visitable :
      (path : Str) (wf : Workflow) (id : Str) (n : Node)
      → is_ok (check_entry engine h modes path wf (id, n)) ≡ true
      → 1 ≤ max_visits n
  unfolding check_entry max_visits
  check_entry-visitable path wf id n k = check_max_visits-ok _ (node_max_visits n) (right_ok _ _ k)

  check_nodes-IsWhole :
      (path : Str) (wf : Workflow) → is_ok (check_nodes engine h modes path wf) ≡ true → IsWhole wf
  unfolding check_nodes check_entry
  check_nodes-IsWhole path wf k =
      let entries = left_ok _ _ (left_ok _ _ k) in
      record {
        starts = not-false _ (error_if-ok _ _ _ (right_ok _ _ (left_ok _ _ entries)));
        routes = λ id n nx f e.
            let c =
              each-find (check_entry engine h modes path wf) id n wf.nodes (right_ok _ _ entries)
                f in
            check_next-Routes engine wf.nodes wf.vars _ (node_type n) (next n) nx
              (right_ok _ _ (left_ok _ _ c)) e;
        visitable = λ id n f.
            check_entry-visitable path wf id n (
              each-find (check_entry engine h modes path wf) id n wf.nodes (right_ok _ _ entries)
                f);
      }

  check_nodes-ends :
      (path : Str) (wf : Workflow)
      → is_ok (check_nodes engine h modes path wf) ≡ true
      → is_ok (check_reachability path wf) ≡ true
  unfolding check_nodes
  check_nodes-ends path wf k = right_ok _ _ k

  -- The checks of the nodes are part of a report that has no errors.
  validate-check_nodes :
      (file : WorkflowsFile) (id : Str) (wf : Workflow)
      → is_ok (validate engine h modes file) ≡ true
      → find id file.workflows ≡ some wf
      → is_ok (check_nodes engine h modes (enzarb.Base.Text.text "workflows." ++ id) wf) ≡ true
  unfolding validate check_workflow validate_workflow
  validate-check_nodes file id wf k f =
      let w = each-find (check_workflow engine h modes) id wf file.workflows (right_ok _ _ k) f in
      (else_ok (is_empty wf.nodes) _ _ _ (right_ok _ _ (right_ok _ _ w))).1

  -- In a file that validates without errors every workflow starts at one of its nodes, and each node that is not an `end`
  -- has edges, all of them to nodes of the workflow, of which the last and no other is without a condition.
  pub validate-IsWhole :
      (file : WorkflowsFile) (id : Str) (wf : Workflow)
      → is_ok (validate engine h modes file) ≡ true
      → find id file.workflows ≡ some wf
      → IsWhole wf
  validate-IsWhole file id wf k f = check_nodes-IsWhole _ wf (validate-check_nodes file id wf k f)

  pub validate-reach :
      (file : WorkflowsFile) (id : Str) (wf : Workflow)
      → is_ok (validate engine h modes file) ≡ true
      → find id file.workflows ≡ some wf
      → (path : Str) × (is_ok (check_reachability path wf) ≡ true)
  validate-reach file id wf k f = (_, check_nodes-ends _ wf (validate-check_nodes file id wf k f))
