-- ===== src/Examples/Ctrls.antt =====
-- ctrl.rs: the features of a handshake, and the secrets of a step.
use enzarb.Base.{◌≤◌, ◌≢◌, ◌↔◌, arith, some, List, [], ◌∷◌, All, length}
use enzarb.Base.Text.{text, Str}
use enzarb.Ctrl.Step.{StepStart, command, secret_values}
use enzarb.Ctrl.Features.{IsFeature, sanitize_features, max_features, sanitize_features_bounds}
use enzarb.Ctrl.Secrets.{In, Holds, secret_values_iff}

abbrev two : List Str
two = text "steps" ∷ text "files" ∷ []

sanitize_features_bounds_example :
    All IsFeature (sanitize_features (some ([] ∷ two)))
    × (length (sanitize_features (some ([] ∷ two))) ≤ max_features)
sanitize_features_bounds_example = sanitize_features_bounds (some ([] ∷ two))

two-IsFeature : All IsFeature two
unfolding text
two-IsFeature = ground arith

abbrev pub step : StepStart (Unit {0})
step = record {
  run_id = text "r1";
  attempt = 1;
  task_id = text "t1";
  workspaces = [];
  exec = command (text "ls") [];
  outputs = [];
  env = (text "TOKEN", text "abc") ∷ [];
  files = [];
  github_token = some [];
}

secret_values_iff_example :
    In (text "abc") (secret_values step) ↔ ((text "abc" ≢ []) × Holds step (text "abc"))
secret_values_iff_example = secret_values_iff step (text "abc")
