-- ===== src/Workflow/Report.antt =====
-- ez/crates/ez-workflow/src/validate.rs: diagnostics, reports and the catalog of modes.
-- A check of the source pushes to the report that it is given and reads nothing of it; here it is the
-- list of the diagnostics that it pushes, and checks in sequence are appended.
use enzarb.Base.{Bool, true, false, ◌&&◌, Option, List, [], ◌∷◌, ◌++◌, ◌≡◌, refl, arith}
use enzarb.Base.Text.{Str, text}

pub data Severity : Type 0 where
  error warning : Severity

pub record Diagnostic : Type 0 where
  pub severity : Severity
  pub path : Str
  pub message : Str

abbrev pub Report : Type 0
Report = List Diagnostic

abbrev is_warning : Diagnostic → Bool
is_warning d = elim d.severity [ error ↦ false | warning ↦ true ]

-- No errors (warnings allowed).
unfoldable pub is_ok : Report → Bool
is_ok [] = true
is_ok (d ∷ r) = is_warning d && is_ok r

unfoldable pub an_error : Str → Str → Report
an_error path message = record { severity = error; path = path; message = message } ∷ []

unfoldable pub a_warning : Str → Str → Report
a_warning path message = record { severity = warning; path = path; message = message } ∷ []

unfoldable pub error_if : Bool → Str → Str → Report
error_if true path message = an_error path message
error_if false path message = []

pub is_ok-append : (r q : Report) → is_ok (r ++ q) ≡ (is_ok r && is_ok q)
unfolding is_ok
is_ok-append [] q = refl
is_ok-append (d ∷ r) q = ground (arith, is_ok-append r q)

-- What validation knows about the modes of the same commit.
pub record ModeCatalog : Type 0 where
  pub modes : List (Str × Option (List Str))
  pub mcp_tools : List (Str × List Str)

unfoldable pub submit_result_tool : Str
submit_result_tool = text "mcp__enzarb__submit_result"
