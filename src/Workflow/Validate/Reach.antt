-- ===== src/Workflow/Validate/Reach.antt =====
-- ez/crates/ez-workflow/src/validate.rs: `check_reachability`.
-- The hash sets are lists without repetition. Each loop has fuel: an iteration but the last adds a node, so the number of
-- nodes bounds them.
pub mod Passes
pub mod Ends
use enzarb.Base.{
  ℕ, zero, suc, Bool, true, false, not, ◌&&◌, Option, none, some, List, [], ◌∷◌, ◌++◌, map, any,
  length, is_empty, ◌==◌, if◌then◌else◌,
}
use enzarb.Base.Text.{Str, text}
use enzarb.Base.Strings.{has, find, has_key}
use enzarb.Workflow.Schema.{Workflow, Node, agent_node, end_node, Edge, Next, next, edges_of}
use enzarb.Workflow.Report.{Report, an_error, a_warning, error_if}
use enzarb.Workflow.Validate.Refs.{each}

unfoldable pub targets_of : Option Next → List Str
targets_of none = []
targets_of (some nx) = map (λ e. e.to) (edges_of nx)

unfoldable pub targets : Node → List Str
targets n = targets_of (next n)

-- `if nodes.contains_key(t) && seen.insert(t) { q.push_back(t) }` for each target
unfoldable pub scan : List (Str × Node) → List Str → List Str → List Str → List Str × List Str
scan nodes [] seen q = (seen, q)
scan nodes (t ∷ ts) seen q = elim (has_key t nodes && not (has seen t)) [
  | true ↦ scan nodes ts (t ∷ seen) (q ++ t ∷ [])
  | false ↦ scan nodes ts seen q
]

abbrev targets_at : Option Node → List Str
targets_at none = []
targets_at (some n) = targets n

-- The nodes that a search from the queue has seen.
unfoldable pub search_from : ℕ → List (Str × Node) → List Str → List Str → List Str
search_from zero nodes seen q = seen
search_from (suc fuel) nodes seen [] = seen
search_from (suc fuel) nodes seen (id ∷ q) =
    let (seen1, q1) = scan nodes (targets_at (find id nodes)) seen q in
    search_from fuel nodes seen1 q1

unfoldable pub reachable : Workflow → List Str
reachable wf = search_from (suc (length wf.nodes)) wf.nodes (wf.start ∷ []) (wf.start ∷ [])

abbrev pub is_end : Node → Bool
is_end n = elim n [ end_node e ↦ true | _ ↦ false ]

unfoldable pub end_ids : List (Str × Node) → List Str
end_ids [] = []
end_ids (e ∷ ns) = let rest = end_ids ns in if is_end e.1 then e.0 ∷ rest else rest

-- One pass of the reverse search over the nodes
unfoldable pub pass : List (Str × Node) → List Str → List Str
pass [] can = can
pass (e ∷ ns) can =
    pass ns (if not (has can e.0) && any (has can) (targets e.1) then e.0 ∷ can else can)

-- Passes until one adds nothing
unfoldable pub passes : ℕ → List (Str × Node) → List Str → List Str
passes zero nodes can = can
passes (suc fuel) nodes can =
    let rest = passes fuel nodes (pass nodes can) in
    if length (pass nodes can) == length can then pass nodes can else rest

unfoldable pub can_end : List (Str × Node) → List Str
can_end nodes = passes (suc (length nodes)) nodes (end_ids nodes)

unfoldable pub check_unreachable : Str → Workflow → Str × Node → Report
check_unreachable path wf e =
    if has (reachable wf) e.0
    then []
    else a_warning (path ++ text ".nodes." ++ e.0)
        (text "node `" ++ e.0 ++ text "` is not reachable from `" ++ wf.start ++ text "`")

unfoldable pub check_stuck : Str → List Str → Str × Node → Report
check_stuck path can e =
    error_if (not (has can e.0)) (path ++ text ".nodes." ++ e.0)
      (text "no `end` node can be reached from `" ++ e.0 ++ text "`")

-- Unreachable nodes are warnings; a node from which no `end` is reachable is an error.
unfoldable pub check_reachability : Str → Workflow → Report
check_reachability path wf =
    (if has_key wf.start wf.nodes then each (check_unreachable path wf) wf.nodes else [])
    ++ (if is_empty (end_ids wf.nodes)
        then an_error (path ++ text ".nodes") (text "needs at least one `end` node")
        else each (check_stuck path (can_end wf.nodes)) wf.nodes)
