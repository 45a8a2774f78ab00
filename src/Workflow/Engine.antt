-- ===== src/Workflow/Engine.antt =====
-- ez/crates/ez-workflow/src/expr.rs: templates and expressions.
-- MiniJinja is a parameter: the functions of an environment that was set up as `Engine::new` sets it
-- up, their errors already as `describe` prints them.
pub mod Quote
use enzarb.Base.{
  ℕ, ◌*◌, Bool, true, false, not, Option, none, some, List, [], ◌∷◌, ◌++◌, length, ltb, ◌==◌,
  if◌then◌else◌, Result, ok, err, ◌>>=◌, ◌>>◌, fail_if, is_empty,
}
use enzarb.Base.Text.{Str, text, show}
use enzarb.Base.Strings.{has, split_parts, trim}
use enzarb.Workflow.Json.{Value}

abbrev pub max_rendered_bytes : ℕ
max_rendered_bytes = 256 * 1024

unfoldable pub node_roots : List Str
node_roots = text "event" ∷ text "subject" ∷ text "nodes" ∷ text "run" ∷ text "vars" ∷ []

unfoldable pub trigger_roots : List Str
trigger_roots = text "event" ∷ text "subject" ∷ []

unfoldable globals : List Str
globals = text "range" ∷ text "dict" ∷ text "namespace" ∷ text "debug" ∷ []

pub data TemplateKind : Type 0 where
  plain shell : TemplateKind

unfoldable pub kind_name : TemplateKind → Str
kind_name plain = text "template"
kind_name shell = text "run.sh"

-- `template_from_named_str` with `render` and `undeclared_variables`, and `compile_expression` with
-- `eval` (nothing for an undefined value, else its truth) and `undeclared_variables`.
pub record Engine : Type 0 where
  pub render_named : (name src : Str) → Value → Result Str Str
  pub named_variables : (name src : Str) → Result Str (List Str)
  pub eval : (src : Str) → Value → Result Str (Option Bool)
  pub expression_variables : (src : Str) → Result Str (List Str)

-- The first segment of a dotted path
unfoldable pub root_of : Str → Str
root_of path = (split_parts b'.' path).0

unfoldable pub filter_globals : List Str → List Str
unfolding globals
filter_globals [] = []
filter_globals (v ∷ vs) =
    let rest = filter_globals vs in if has globals (root_of v) then rest else v ∷ rest

unfoldable pub render : Engine → TemplateKind → Str → Value → Result Str Str
render engine kind src ctx = do
  out ← engine.render_named (kind_name kind) src ctx
  _ ← fail_if (ltb max_rendered_bytes (length out)) (
      text "rendered text is "
      ++ show (length out)
      ++ text " bytes; the limit is "
      ++ show max_rendered_bytes)
  ok out

unfoldable pub truth : Str → Option Bool → Result Str Bool
truth src none = err (text "`" ++ src ++ text "` is undefined")
truth src (some b) = ok b

unfoldable pub eval_bool : Engine → Str → Value → Result Str Bool
eval_bool engine src ctx = engine.eval src ctx >>= truth src

unfoldable pub template_vars : Engine → TemplateKind → Str → Result Str (List Str)
template_vars engine kind src = do
  vars ← engine.named_variables (kind_name kind) src
  ok (filter_globals vars)

unfoldable pub expr_vars : Engine → Str → Result Str (List Str)
expr_vars engine src = do
  _ ← fail_if (is_empty (trim src)) (text "empty expression")
  vars ← engine.expression_variables src
  ok (filter_globals vars)

abbrev pub quote : ℕ
quote = 39

-- POSIX single-quoting, after the opening quote.
unfoldable pub quote_rest : Str → Str
quote_rest [] = quote ∷ []
quote_rest (c ∷ s) = if c == quote then text "'\\''" ++ quote_rest s else c ∷ quote_rest s

unfoldable pub shell_quote : Str → Str
shell_quote s = quote ∷ quote_rest s
