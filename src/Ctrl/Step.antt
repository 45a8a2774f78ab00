-- ===== src/Ctrl/Step.antt =====
-- step.rs: the bodies of the step messages. `Value` is serde_json's type of JSON values and `F64`
-- the type of floats; a map is the list of its entries, and a `Secret` is its text.
use enzarb.Base.{ℕ, Bool, Option, none, some, List, [], ◌∷◌, ◌++◌, map, is_empty, if◌then◌else◌}
use enzarb.Base.Text.{Str}

pub data StepPhase : Type 0 where
  running interrupted finished unknown : StepPhase

pub data Mode : Type 0 where
  read write : Mode

pub record StepWorkspace : Type 0 where
  pub repo : Str
  pub url : Str
  pub mode : Mode
  pub branch : Str
  pub base : Str
  pub start_ref : Option Str
  pub push : Bool
  pub token : Str

pub record Runtime (Value : Type 0) : Type 0 where
  pub name : Str
  pub install : List Str
  pub protocol : Str
  pub command : List Str
  pub env : List (Str × Str)
  pub capabilities : Value

pub record EzSpec : Type 0 where
  pub modes_toml : Str
  pub instruction_files : List (Str × Str)

pub record StepOutput : Type 0 where
  pub file : Str
  pub format : Option Str
  pub optional : Bool

pub data StepExec (Value : Type 0) : Type 0 where
  agent :
      (runtime : Runtime Value) (model : Option Str) (prompt : Str) (result_schema : Option Value)
      (mode : Option Str) (ez : Option EzSpec)
      → StepExec Value
  command : (run : Str) (tools : List Str) → StepExec Value

pub record StepStart (Value : Type 0) : Type 0 where
  pub run_id : Str
  pub attempt : ℕ
  pub task_id : Str
  pub workspaces : List StepWorkspace
  pub exec : StepExec Value
  pub outputs : List (Str × StepOutput)
  pub env : List (Str × Str)
  pub files : List (Str × Str)
  pub github_token : Option Str

pub record SessionEvent (Value : Type 0) : Type 0 where
  pub run_id : Str
  pub seq : ℕ
  pub at : Str
  pub kind : Str
  pub payload : Value
  pub truncated : Bool

pub record StepGit : Type 0 where
  pub repo : Str
  pub branch : Str
  pub head_sha : Str
  pub pushed : Bool

pub data EnvironmentKind : Type 0 where
  disk_full oom toolchain_missing network load unknown : EnvironmentKind

pub record StepEnvironment : Type 0 where
  pub kind : EnvironmentKind
  pub detail : Str

-- ctrl.rs, `Usage`.
pub record Usage (F64 : Type 0) : Type 0 where
  pub input_tokens : Option ℕ
  pub output_tokens : Option ℕ
  pub cache_read_input_tokens : Option ℕ
  pub cache_creation_input_tokens : Option ℕ
  pub models : List Str
  pub cost_usd : Option F64

pub record StepFinished (Value F64 : Type 0) : Type 0 where
  pub run_id : Str
  pub exit : Str
  pub outputs : List (Str × Value)
  pub result : Option Value
  pub git : List StepGit
  pub usage : Option (Usage F64)
  pub environment : Option StepEnvironment
  pub error : Option Str

abbrev pub values : List (Str × Str) → List Str
values = map λ e. e.1

abbrev pub option_list : Option Str → List Str
option_list none = []
option_list (some s) = s ∷ []

-- `v.retain(|s| !s.is_empty())`
unfoldable pub retain_nonempty : List Str → List Str
retain_nonempty [] = []
retain_nonempty (s ∷ ss) = if is_empty s then retain_nonempty ss else s ∷ retain_nonempty ss

-- `StepStart::secret_values`
unfoldable pub secret_values : {Value : Type 0} → StepStart Value → List Str
secret_values s = retain_nonempty (
    values s.env
    ++ (values s.files ++ (map (λ w. w.token) s.workspaces ++ option_list s.github_token)))
