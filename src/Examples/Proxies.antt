-- ===== src/Examples/Proxies.antt =====
-- sandbox-proxy/src/guard.rs: a terminal's `resize`, a chat that is opened twice, and messages of the sandbox.
-- The codec reads one byte as one of these messages.
use enzarb.Base.{
  ℕ, ◌≡◌, refl, sym, ap, ◌∙◌, arith, ok_inj, inl, inr, ◌≢◌, ◌⊎◌, Bool, true, false, none, some,
  List, [], ◌∷◌, Result, ok, err, ◌==◌, if◌then◌else◌,
}
use enzarb.Base.Text.{Str, text}
use enzarb.Base.Strings.{str_eq}
use enzarb.Frame.Types.{Frame, ctrl, close, FrameError, from_u8}
use enzarb.Frame.Codec.{
  from_bytes, parse_header, check_channel, check_payload, validate, u32_from_be,
}
use enzarb.Ctrl.Types.{Ctrl, Open, acp, resize, open_channel, stats_request}
use enzarb.Ctrl.Direction.{allowed_from, direction}
use enzarb.Ctrl.Json.{Serde, ctrl_message}
use enzarb.Proxy.Guard.{
  Guard, Allowed, forward, open_acp, relay, check_browser_message, check_typed, check_ctrl,
  check_message, check_open, check_kind, intercept_sandbox_message, intercept_frame,
  intercept_typed, capture, is_captured_type,
}
use enzarb.Proxy.Guard.Safety.{
  MaySend, is_captured, check_browser_message-forward, intercept_sandbox_message-relay,
}
use enzarb.Proxy.Guard.Slot.{
  Call, browser, sandbox, release, run, Closes, Refuses, check_browser_message_once,
}

abbrev chat : Open
chat = record {
  channel = 9;
  kind = acp;
  cols = 80;
  rows = 24;
  command = none;
  repo = none;
  resume = none;
  claude_token = some (text "t");
  checkout = none;
}

abbrev read_byte : List ℕ → Result (List ℕ) (Ctrl Bool Bool)
read_byte [] = err []
read_byte (b ∷ s) =
    if b == 1
    then ok (resize 7 80 24)
    else if b == 2
    then ok (open_channel chat)
    else if b == 3
    then ok stats_request
    else err []

abbrev codec : Serde
codec = record { Value = Bool; F64 = Bool; to_vec = λ m. ok (1 ∷ []); from_slice = read_byte }

abbrev message : ℕ → List ℕ
message b = 1 ∷ 0 ∷ 0 ∷ 0 ∷ 0 ∷ 0 ∷ 0 ∷ 0 ∷ 0 ∷ 1 ∷ b ∷ []

abbrev guard : Guard
guard = record { acp_enabled = true; acp_channel = none }

abbrev allowed : Allowed
allowed = record { frame_type = ctrl; channel = 0; payload_len = 1 }

abbrev admitted : Open
admitted = record chat { claude_token = none }

forwarded : (check_browser_message codec guard (message 1)).0 ≡ ok (forward allowed)
unfolding check_browser_message check_typed check_ctrl check_message check_open check_kind
    allowed_from direction from_bytes parse_header from_u8 u32_from_be check_channel validate
    check_payload ctrl_message
forwarded = refl

opened : (check_browser_message codec guard (message 2)).0 ≡ ok (open_acp 9 (open_channel admitted))
unfolding check_browser_message check_typed check_ctrl check_message check_open check_kind
    allowed_from direction from_bytes parse_header from_u8 u32_from_be check_channel validate
    check_payload ctrl_message
opened = refl

check_browser_message-forward_example :
    (f : Frame) × (from_bytes (message 1) ≡ ok f)
    × ((f.frame_type ≢ ctrl)
        ⊎ ((m : Ctrl Bool Bool) × (ctrl_message codec f ≡ ok m) × MaySend Bool Bool m))
check_browser_message-forward_example =
    check_browser_message-forward codec guard (message 1) allowed forwarded

abbrev frame_of : ℕ → Frame
frame_of b = record { frame_type = ctrl; flags = 0; channel = 0; payload = b ∷ [] }

parsed : (b : ℕ) → from_bytes (message b) ≡ ok (frame_of b)
unfolding from_bytes parse_header from_u8 u32_from_be check_channel validate check_payload
parsed b = refl

is_frame : (b : ℕ) (f : Frame) → from_bytes (message b) ≡ ok f → frame_of b ≡ f
is_frame b f e = ok_inj (sym (parsed b) ∙ e)

no_close : (b : ℕ) → Closes codec (message b) 9 → ⊥
no_close b z =
    let q : ctrl ≡ close = ap (λ f. f.frame_type) (is_frame b z.frame z.read) ∙ z.kind in
    ground (arith, q)

no_refusal : Refuses codec (message 3) 9 → ⊥
unfolding ctrl_message
no_refusal z =
    let q = ap (ctrl_message codec) (is_frame 3 z.frame z.read) ∙ z.says in ground (arith, q)

abbrev happens : List Call
happens = browser (message 1) ∷ sandbox (message 3) ∷ release 4 ∷ []

check_browser_message_once_example :
    (check_browser_message codec
      (run codec happens (check_browser_message codec guard (message 2)).1)
      (message 2)).0
    ≢ ok (open_acp 9 (open_channel admitted))
check_browser_message_once_example =
    check_browser_message_once codec guard (message 2) (message 2) 9 9 (open_channel admitted)
      (open_channel admitted) happens opened
      (
        no_close 1,
        ((λ z. elim z [ inl a ↦ no_close 3 a | inr r ↦ no_refusal r ]), (λ z. omega arith, tt)),
      )

-- The payload 4 is no message; its `type` is another one.
abbrev type_of : List ℕ → Result Str Str
type_of [] = err []
type_of (b ∷ s) = if b == 4 then ok (text "later") else ok (text "credential_captured")

relayed : (intercept_sandbox_message codec type_of guard (message 4)).0 ≡ relay
unfolding intercept_sandbox_message intercept_frame intercept_typed capture is_captured_type text
    from_bytes parse_header from_u8 u32_from_be check_channel validate check_payload ctrl_message
    str_eq
relayed = refl

intercept_sandbox_message-relay_example :
    ((m : Ctrl Bool Bool) × (ctrl_message codec (frame_of 4) ≡ ok m)
      × (is_captured codec m ≡ false))
    ⊎ ((e : FrameError) × (ctrl_message codec (frame_of 4) ≡ err e)
        × (type_of (4 ∷ []) ≢ ok (text "credential_captured")))
intercept_sandbox_message-relay_example =
    intercept_sandbox_message-relay codec type_of guard (message 4) (frame_of 4) relayed (parsed 4)
      refl
