-- ===== src/Workflow/Validate/File/Edges.antt =====
-- ez/crates/ez-workflow/src/validate.rs: the checks of the edges of a node.
use enzarb.Base.{
  ℕ, ◌+◌, Bool, true, false, not, Option, none, some, List, [], ◌++◌, length, ◌==◌, is_empty,
}
use enzarb.Base.Text.{Str, text}
use enzarb.Base.Strings.{has_key}
use enzarb.Workflow.Json.{Value}
use enzarb.Workflow.Engine.{Engine, node_roots}
use enzarb.Workflow.Schema.{Node, Edge, NodeType, Next, edges_of, outputs}
use enzarb.Workflow.Report.{Report, an_error, error_if}
use enzarb.Workflow.Validate.Refs.{check_expr, each_at, index}

module _ (engine : Engine) (nodes : List (Str × Node)) (defined : List (Str × Value)) (ep : Str)
    (bare : List Str) where
  -- The condition of an edge, which the last edge must not have and every other edge must
  unfoldable pub check_condition : Str → Option Str → (last : Bool) → Report
  check_condition p (some c) false = check_expr nodes defined (p ++ text ".if") bare engine c
  check_condition p (some c) true =
      check_expr nodes defined (p ++ text ".if") bare engine c
      ++ an_error p (text "the last edge must not have `if`, so every outcome has a next node")
  check_condition p none true = []
  check_condition p none false =
      an_error p (text "only the last edge may omit `if`; the edges after it never run")

  -- One turn of the loop over `count` edges
  unfoldable pub check_edge : ℕ → ℕ → Edge → Report
  unfolding check_condition
  check_edge count i e =
      error_if (not (has_key e.to nodes)) (index ep i ++ text ".to")
        (text "there is no node `" ++ e.to ++ text "`")
      ++ check_condition (index ep i) e.condition (i + 1 == count)

  unfoldable pub check_edges : List Edge → Report
  unfolding check_edge
  check_edges es =
      error_if (is_empty es) ep (text "needs at least one edge")
      ++ each_at (check_edge (length es)) 0 es

unfoldable pub check_next :
    Engine → List (Str × Node) → List (Str × Value) → Str → NodeType → Option Next → Report
check_next engine nodes defined np t none = []
check_next engine nodes defined np t (some nx) =
    check_edges engine nodes defined (np ++ text ".next") (node_roots ++ outputs t) (edges_of nx)
