-- ===== src/Proxy/Guard.antt =====
-- sandbox-proxy/src/guard.rs: the guard of one browser socket.
-- A method returns its value and the guard after it. serde_json's answer for the `type` of a payload that may be no
-- message is a parameter.
pub mod Slot
pub mod Safety
use enzarb.Base.{
  ℕ, Bool, true, false, not, ◌||◌, Option, none, some, List, [], ◌∷◌, length, ltb, ◌==◌, is_some,
  if◌then◌else◌, Result, ok, err, ◌>>=◌,
}
use enzarb.Base.Text.{Str, text}
use enzarb.Base.Strings.{str_eq, has}
use enzarb.Frame.Types.{
  Frame, FrameType, ctrl, data_bin, data_json, window, close, FrameError, code,
}
use enzarb.Frame.Codec.{from_bytes}
use enzarb.Ctrl.Types.{
  Ctrl, Open, ChannelKind, pty, acp, unknown, ui, open_channel, open_error, credential_captured,
  credential_clear, ChatCheckout, max_repo_len, max_resume_len,
}
use enzarb.Ctrl.Direction.{allowed_from, tag}
use enzarb.Ctrl.Json.{Serde, ctrl_bytes, ctrl_message}
use enzarb.Ctrl.OpenErrorCode.{unsupported_kind, invalid_request, chat_limit}

pub data Reject : Type 0 where
  malformed : Str → Reject
  forbidden_ctrl : Str → Reject

pub record Allowed : Type 0 where
  pub frame_type : FrameType
  pub channel : ℕ
  pub payload_len : ℕ

pub record Guard : Type 0 where
  pub acp_enabled : Bool
  pub acp_channel : Option ℕ

abbrev max_checkout_len : ℕ
max_checkout_len = 256

unfoldable pub proxy_features : List Str
proxy_features = text "acp" ∷ text "file_read" ∷ text "file_read_chat" ∷ text "chat_checkout" ∷ []

keep_advertised : List Str → List Str → List Str
keep_advertised [] sandbox = []
keep_advertised (f ∷ fs) sandbox =
    let rest = keep_advertised fs sandbox in if has sandbox f then f ∷ rest else rest

-- The features to advertise to the browser.
unfoldable pub negotiated_features : List Str → List Str
unfolding keep_advertised proxy_features
negotiated_features sandbox = keep_advertised proxy_features sandbox

unfoldable pub new : List Str → Guard
new features = record { acp_enabled = has features (text "acp"); acp_channel = none }

-- `self.acp_channel == Some(channel)`
abbrev pub holds : Option ℕ → ℕ → Bool
holds none channel = false
holds (some c) channel = c == channel

unfoldable pub free : Guard → Guard
free g = record g { acp_channel = none }

-- Free the `acp` slot after the proxy itself refused an admitted open.
unfoldable pub release_acp : Guard → ℕ → Guard
release_acp g channel = if holds g.acp_channel channel then free g else g

abbrev too_long : ℕ → Option Str → Bool
too_long limit none = false
too_long limit (some s) = ltb limit (length s)

abbrev checkout_too_long : Option ChatCheckout → Bool
checkout_too_long none = false
checkout_too_long (some c) =
    ltb max_checkout_len (length c.branch) || too_long max_checkout_len c.start_ref

pub data Verdict (Value F64 : Type 0) : Type 0 where
  forward : Allowed → Verdict Value F64
  reply : List ℕ → Verdict Value F64
  clear : Verdict Value F64
  open_acp : (channel : ℕ) → Ctrl Value F64 → Verdict Value F64

pub data SandboxFrame : Type 0 where
  relay : SandboxFrame
  captured : (token : Option Str) (legacy : Bool) → SandboxFrame

abbrev unwrap_false : Option Bool → Bool
unwrap_false none = false
unwrap_false (some b) = b

-- A method's result, with the guard after it
abbrev pub Checked : Serde → Type 0
Checked J = Result Reject (Verdict (J.Value) (J.F64)) × Guard

module _ (J : Serde) where
  open J use {Value, F64}

  unfoldable answer : Result FrameError (List ℕ) → Result Reject (Verdict Value F64)
  answer (ok b) = ok (reply b)
  answer (err e) = err (malformed (code e))

  -- `open_error`: the answer that refuses an `open`.
  unfoldable pub refuse : ℕ → Str → Str → Result Reject (Verdict Value F64)
  unfolding answer
  refuse channel why message = answer (ctrl_bytes J (open_error channel message (some why)))

  -- The `match kind`
  unfoldable pub check_kind : Guard → Allowed → Open → ChannelKind → Checked J
  unfolding refuse
  check_kind g a o pty =
      if is_some o.claude_token
      then (
        refuse o.channel invalid_request (text "claude_token is not accepted from a browser"),
        g,
      )
      else (ok (forward a), g)
  check_kind g a o acp =
      if not g.acp_enabled
      then (refuse o.channel unsupported_kind (text "acp channels are not available"), g)
      else if is_some g.acp_channel
      then (refuse o.channel chat_limit (text "one chat per connection"), g)
      else (
        ok (open_acp o.channel (open_channel (record o { claude_token = none }))),
        record g { acp_channel = some o.channel },
      )
  check_kind g a o unknown =
      (refuse o.channel unsupported_kind (text "unsupported channel kind"), g)

  -- An `open` of a browser
  unfoldable pub check_open : Guard → Allowed → Open → Checked J
  unfolding check_kind
  check_open g a o =
      if o.channel == 0
      then (err (malformed (text "open on channel 0")), g)
      else if too_long max_repo_len o.repo || too_long max_resume_len o.resume
      then (refuse o.channel invalid_request (text "repo or resume too long"), g)
      else if checkout_too_long o.checkout
      then (refuse o.channel invalid_request (text "checkout too long"), g)
      else if holds g.acp_channel o.channel
      then (refuse o.channel invalid_request (text "channel already in use"), g)
      else check_kind g a o o.kind

  -- A message that the table of directions lets a browser send
  unfoldable pub check_message : Guard → Allowed → Ctrl Value F64 → Checked J
  unfolding check_open
  check_message g a (credential_clear kind) = (ok clear, g)
  check_message g a (open_channel o) = check_open g a o
  check_message g a m = (ok (forward a), g)

  unfoldable pub check_ctrl : Guard → Allowed → Result FrameError (Ctrl Value F64) → Checked J
  unfolding check_message
  check_ctrl g a (err e) = (err (malformed (code e)), g)
  check_ctrl g a (ok m) =
      if allowed_from m ui then check_message g a m else (err (forbidden_ctrl (tag m)), g)

  abbrev allowed_of : Frame → Allowed
  allowed_of f = record {
    frame_type = f.frame_type;
    channel = f.channel;
    payload_len = length f.payload;
  }

  -- The `match frame.frame_type`
  unfoldable pub check_typed : Guard → Frame → FrameType → Checked J
  unfolding check_ctrl
  check_typed g f ctrl = check_ctrl g (allowed_of f) (ctrl_message J f)
  check_typed g f close =
      (ok (forward (allowed_of f)), if holds g.acp_channel f.channel then free g else g)
  check_typed g f t = (ok (forward (allowed_of f)), g)

  unfoldable check_parsed : Guard → Result FrameError Frame → Checked J
  unfolding check_typed
  check_parsed g (err e) = (err (malformed (code e)), g)
  check_parsed g (ok f) = check_typed g f f.frame_type

  -- Validate one websocket message of a browser.
  unfoldable pub check_browser_message : Guard → List ℕ → Checked J
  unfolding check_parsed
  check_browser_message g msg = check_parsed g (from_bytes msg)

  -- An `open_error` of the sandbox on the slot's channel
  unfoldable pub refuses_slot : Result FrameError (Ctrl Value F64) → ℕ → Bool
  refuses_slot (ok (open_error channel message why)) slot = channel == slot
  refuses_slot m slot = false

  -- The sandbox closes the slot's channel, or refuses its `open`.
  unfoldable pub frees_slot : Frame → FrameType → ℕ → Bool
  unfolding refuses_slot
  frees_slot f close slot = f.channel == slot
  frees_slot f ctrl slot = refuses_slot (ctrl_message J f) slot
  frees_slot f t slot = false

  unfoldable pub observe_frame : Guard → Option ℕ → Result FrameError Frame → Guard
  unfolding frees_slot
  observe_frame g none f = g
  observe_frame g (some slot) (err e) = g
  observe_frame g (some slot) (ok f) = if frees_slot f f.frame_type slot then free g else g

  -- Observe a frame of the sandbox to track the `acp` slot.
  unfoldable pub observe_sandbox_message : Guard → List ℕ → Guard
  unfolding observe_frame
  observe_sandbox_message g msg = observe_frame g g.acp_channel (from_bytes msg)

  -- `type_only` stands for `serde_json::from_slice::<TypeOnly>`, whose result is the payload's `type`.
  module _ (type_only : List ℕ → Result Str Str) where
    unfoldable pub is_captured_type : List ℕ → Bool
    is_captured_type payload = elim (type_only payload) [
      | ok ty ↦ str_eq ty (text "credential_captured")
      | err e ↦ false
    ]

    unfoldable pub capture : List ℕ → Result FrameError (Ctrl Value F64) → SandboxFrame
    unfolding is_captured_type
    capture payload (ok (credential_captured kind token legacy)) =
        captured token (unwrap_false legacy)
    capture payload (ok m) = relay
    capture payload (err e) = if is_captured_type payload then captured none false else relay

    unfoldable pub intercept_typed : Frame → FrameType → SandboxFrame
    unfolding capture
    intercept_typed f ctrl = capture f.payload (ctrl_message J f)
    intercept_typed f t = relay

    unfoldable pub intercept_frame : Result FrameError Frame → SandboxFrame
    unfolding intercept_typed
    intercept_frame (err e) = relay
    intercept_frame (ok f) = intercept_typed f f.frame_type

    -- Classify a frame of the sandbox.
    unfoldable pub intercept_sandbox_message : Guard → List ℕ → SandboxFrame × Guard
    unfolding intercept_frame
    intercept_sandbox_message g msg =
        (intercept_frame (from_bytes msg), observe_sandbox_message g msg)
