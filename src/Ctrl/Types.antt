-- ===== src/Ctrl/Types.antt =====
-- ctrl.rs: the CTRL messages. A `Secret` is its text; a u16, u32 or u64 is its number.
use enzarb.Base.{ℕ, Bool, Option, List}
use enzarb.Base.Text.{Str}
use enzarb.Ctrl.Step.{StepPhase, StepStart, StepFinished, SessionEvent}

pub data ClientKind : Type 0 where
  ui proxy executor : ClientKind

pub data ChannelKind : Type 0 where
  pty acp unknown : ChannelKind

pub data CredentialKind : Type 0 where
  claude_oauth : CredentialKind

abbrev pub max_repo_len : ℕ
max_repo_len = 2048

abbrev pub max_resume_len : ℕ
max_resume_len = 256

pub record ChatCheckout : Type 0 where
  pub branch : Str
  pub start_ref : Option Str
  pub create : Option Bool

pub record SandboxStats : Type 0 where
  pub ts_ms : ℕ
  pub cpu_usage_usec : Option ℕ
  pub cpu_user_usec : Option ℕ
  pub cpu_system_usec : Option ℕ
  pub memory_bytes : Option ℕ
  pub memory_limit_bytes : Option ℕ
  pub memory_inactive_file_bytes : Option ℕ
  pub io_read_bytes : Option ℕ
  pub io_write_bytes : Option ℕ
  pub storage_used_bytes : Option ℕ
  pub storage_total_bytes : Option ℕ

-- The fields of `Ctrl::Open`.
pub record Open : Type 0 where
  pub channel : ℕ
  pub kind : ChannelKind
  pub cols : ℕ
  pub rows : ℕ
  pub command : Option (List Str)
  pub repo : Option Str
  pub resume : Option Str
  pub claude_token : Option Str
  pub checkout : Option ChatCheckout

pub data Ctrl (Value F64 : Type 0) : Type 0 where
  hello : (versions : List ℕ) (client : ClientKind) (features : Option (List Str)) → Ctrl Value F64
  welcome : (version : ℕ) (features : Option (List Str)) → Ctrl Value F64
  open_channel : Open → Ctrl Value F64
  opened : (channel : ℕ) → Ctrl Value F64
  open_error : (channel : ℕ) (message : Str) (code : Option Str) → Ctrl Value F64
  resize : (channel cols rows : ℕ) → Ctrl Value F64
  step_start : StepStart Value → Ctrl Value F64
  step_accepted : (run_id : Str) (state : StepPhase) (existing : Bool) → Ctrl Value F64
  step_steer : (run_id text : Str) → Ctrl Value F64
  step_stop : (run_id : Str) → Ctrl Value F64
  step_resume : (run_id : Str) → Ctrl Value F64
  step_status : (run_id : Str) (after_seq : ℕ) → Ctrl Value F64
  step_state :
      (run_id : Str) (state : StepPhase) (result : Option (StepFinished Value F64)) → Ctrl Value F64
  session_event : SessionEvent Value → Ctrl Value F64
  step_finished : StepFinished Value F64 → Ctrl Value F64
  credential_captured :
      (kind : CredentialKind) (token : Option Str) (legacy : Option Bool) → Ctrl Value F64
  credential_status : Ctrl Value F64
  credential_state :
      (kind : CredentialKind) (configured : Bool) (scope : Option Str) → Ctrl Value F64
  stats_request : Ctrl Value F64
  stats : SandboxStats → Ctrl Value F64
  file_read : (id path : Str) → Ctrl Value F64
  file : (id path : Str) (content code message : Option Str) → Ctrl Value F64
  credential_clear : (kind : CredentialKind) → Ctrl Value F64
  error : (code message : Str) (run_id : Option Str) (channel : Option ℕ) → Ctrl Value F64
