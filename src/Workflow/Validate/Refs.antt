-- ===== src/Workflow/Validate/Refs.antt =====
-- ez/crates/ez-workflow/src/validate.rs: the checks of ids, patterns, durations and of the variables
-- that a template or an expression reads. `seen`, a hash set, is a list.
use enzarb.Base.{
  ℕ, suc, Bool, true, false, not, ◌&&◌, ◌||◌, Option, none, some, List, [], ◌∷◌, ◌++◌, length, ltb,
  leb, ◌==◌, if◌then◌else◌, Result, ok, err, is_empty,
}
use enzarb.Base.Text.{Str, text, show, between}
use enzarb.Base.Strings.{str_eq, has, has_key, join, split_parts}
use enzarb.Workflow.Json.{Value}
use enzarb.Workflow.Engine.{Engine, TemplateKind, root_of, template_vars, expr_vars}
use enzarb.Workflow.Schema.{Node, Humantime, parse_duration, max_timeout, max_id_len}
use enzarb.Workflow.Event.{valid_pattern}
use enzarb.Workflow.Report.{Report, an_error, a_warning, error_if}

abbrev pub alphanumeric : ℕ → Bool
alphanumeric b = between b'a' b'z' b || between b'A' b'Z' b || between b'0' b'9' b

unfoldable pub all_bytes : (ℕ → Bool) → Str → Bool
all_bytes p [] = true
all_bytes p (b ∷ s) = p b && all_bytes p s

unfoldable pub valid_id : Str → Bool
valid_id [] = false
valid_id (b ∷ s) =
    leb (length (b ∷ s)) max_id_len
    && (alphanumeric b && all_bytes (λ c. alphanumeric c || c == b'_' || c == b'-') (b ∷ s))

unfoldable pub check_id : Str → Str → Str → Report
check_id path what id = error_if (not (valid_id id)) path (
    what
    ++ text " id `"
    ++ id
    ++ text "` must be 1-"
    ++ show max_id_len
    ++ text " letters, digits, `_` or `-`, starting with a letter or digit")

-- A name of a variable or of a property of a result
unfoldable pub valid_name : Str → Bool
valid_name [] = false
valid_name (b ∷ s) =
    all_bytes (λ c. alphanumeric c || c == b'_') (b ∷ s) && not (between b'0' b'9' b)

-- `for (i, x) in list.iter().enumerate()`
abbrev pub each_at {ℓ} : {A : Type ℓ} → (ℕ → A → Report) → ℕ → List A → Report
each_at f i [] = []
each_at f i (x ∷ xs) = f i x ++ each_at f (suc i) xs

abbrev pub each {ℓ} : {A : Type ℓ} → (A → Report) → List A → Report
each f [] = []
each f (x ∷ xs) = f x ++ each f xs

abbrev pub index : Str → ℕ → Str
index path i = path ++ text "[" ++ show i ++ text "]"

-- GitHub webhook event names.
unfoldable pub known_events : List Str
known_events =
    text "branch_protection_rule"
    ∷ text "check_run"
    ∷ text "check_suite"
    ∷ text "code_scanning_alert"
    ∷ text "commit_comment"
    ∷ text "create"
    ∷ text "delete"
    ∷ text "dependabot_alert"
    ∷ text "deployment"
    ∷ text "deployment_status"
    ∷ text "discussion"
    ∷ text "discussion_comment"
    ∷ text "fork"
    ∷ text "gollum"
    ∷ text "installation"
    ∷ text "installation_repositories"
    ∷ text "issue_comment"
    ∷ text "issues"
    ∷ text "label"
    ∷ text "manual"
    ∷ text "member"
    ∷ text "merge_group"
    ∷ text "meta"
    ∷ text "milestone"
    ∷ text "package"
    ∷ text "ping"
    ∷ text "public"
    ∷ text "pull_request"
    ∷ text "pull_request_review"
    ∷ text "pull_request_review_comment"
    ∷ text "pull_request_review_thread"
    ∷ text "push"
    ∷ text "registry_package"
    ∷ text "release"
    ∷ text "repository"
    ∷ text "repository_dispatch"
    ∷ text "secret_scanning_alert"
    ∷ text "security_advisory"
    ∷ text "star"
    ∷ text "status"
    ∷ text "sub_issues"
    ∷ text "watch"
    ∷ text "workflow_dispatch"
    ∷ text "workflow_job"
    ∷ text "workflow_run"
    ∷ []

unfoldable pub check_pattern : Str → Str → Report
check_pattern path p =
    if not (valid_pattern p)
    then an_error path (text "`" ++ p ++ text "` is not `event` or `event.action`")
    else if has known_events (split_parts b'.' p).0
    then []
    else a_warning path (text "`" ++ p ++ text "` is not a known GitHub event")

unfoldable pub check_patterns : Str → List Str → Report
check_patterns path on =
    error_if (is_empty on) path (text "needs at least one event")
    ++ each_at (λ i p. check_pattern (index path i) p) 0 on

unfoldable pub check_parsed : Humantime → Str → Str → Result Str ℕ → Report
check_parsed h path v (err e) = an_error path e
check_parsed h path v (ok d) =
    if d == 0
    then an_error path (text "must be longer than zero")
    else error_if (ltb max_timeout d) path
        (text "`" ++ v ++ text "` is longer than the limit of " ++ h.format max_timeout)

unfoldable pub check_duration : Humantime → Str → Option Str → Report
check_duration h path none = []
check_duration h path (some v) = check_parsed h path v (parse_duration h v)

-- `v.split('.').nth(1)`
abbrev second : List Str → Option Str
second [] = none
second (s ∷ rest) = some s

abbrev pub second_of : Str → Option Str
second_of v = second (split_parts b'.' v).1

-- Reports a name that is not known, once.
unfoldable pub note_unknown :
    Str → Option Str → (known : Str → Bool) → (Str → Str) → List Str → Str → Report × List Str
note_unknown root none known message seen path = ([], seen)
note_unknown root (some name) known message seen path =
    let key = root ++ text "." ++ name in
    if not (known name) && not (has seen key)
    then (an_error path (message name), key ∷ seen)
    else ([], seen)

module _ (nodes : List (Str × Node)) (defined : List (Str × Value)) (path : Str)
    (roots : List Str) where
  abbrev unknown_var : Str → Str
  unknown_var name =
      text "`vars."
      ++ name
      ++ text "`: the workflow has no var `"
      ++ name
      ++ text "` (add it under `vars`)"

  abbrev unknown_node : Str → Str
  unknown_node name = text "`nodes." ++ name ++ text "`: there is no node `" ++ name ++ text "`"

  abbrev known_var : Str → Bool
  known_var name = has_key name defined

  abbrev known_node : Str → Bool
  known_node name = has_key name nodes

  -- A variable below `vars` and one below `nodes`: what is reported and what is seen then.
  unfoldable pub check_var : Str → List Str → Report × List Str
  check_var v seen =
      if str_eq (root_of v) (text "vars")
      then note_unknown (text "vars") (second_of v) (known_var) (unknown_var) seen path
      else ([], seen)

  unfoldable pub check_node_ref : Str → List Str → Report × List Str
  check_node_ref v seen =
      if str_eq (root_of v) (text "nodes")
      then note_unknown (text "nodes") (second_of v) (known_node) (unknown_node) seen path
      else ([], seen)

  unfoldable pub unknown_root : Str → Str
  unknown_root root =
      text "unknown variable `"
      ++ root
      ++ text "` (available: "
      ++ join (text ", ") roots
      ++ text ")"

  -- Every variable has a known root, and is defined when it stands below `vars` or `nodes`.
  unfoldable pub check_vars : List Str → List Str → Report
  unfolding check_var check_node_ref
  check_vars seen [] = []
  check_vars seen (v ∷ vs) = elim (has roots (root_of v)) [
    | false ↦ elim (has seen (root_of v)) [
      | true ↦ check_vars seen vs
      | false ↦ an_error path (unknown_root (root_of v)) ++ check_vars (root_of v ∷ seen) vs
    ]
    | true ↦
        let (d1, seen1) = check_var v seen in
        let (d2, seen2) = check_node_ref v seen1 in d1 ++ d2 ++ check_vars seen2 vs
  ]

  -- A template or an expression that was parsed
  unfoldable pub check_read : Result Str (List Str) → Report
  check_read (ok vs) = check_vars [] vs
  check_read (err e) = an_error path e

  unfoldable pub check_template : Engine → TemplateKind → Str → Report
  check_template engine kind src = check_read (template_vars engine kind src)

  unfoldable pub check_expr : Engine → Str → Report
  check_expr engine src = check_read (expr_vars engine src)
