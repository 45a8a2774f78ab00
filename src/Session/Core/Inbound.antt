-- ===== src/Session/Core/Inbound.antt =====
-- session/core.rs: the frames that arrive, by the driver.
-- `find` is by address; the reply that a pending request gets is sent through its oneshot.
use enzarb.Base.{
  ℕ, Bool, true, false, ◌||◌, Option, none, some, List, [], ◌∷◌, ◌++◌, if◌then◌else◌, Result, ok,
  err,
}
use enzarb.Base.Text.{Str, text, show}
use enzarb.Base.Strings.{str_eq, contains_str}
use enzarb.Base.Dict.{lookup}
use enzarb.Frame.Types.{Frame, FrameError, ctrl, data_bin, data_json, window, close, display}
use enzarb.Frame.Codec.{window_credit, close_info}
use enzarb.Flow.{FlowError}
use enzarb.Flow.{display as display_flow}
use enzarb.Ctrl.Types.{Ctrl}
use enzarb.Ctrl.Json.{Serde, ctrl_message}
use enzarb.Ctrl.ErrorCode
use enzarb.Session.Errors.{remote}
use enzarb.Session.Channel.{on_data, on_window, on_close, abort}
use enzarb.Session.Core.State.{Inner, Pending, step_start, step_status, credential_status}
use enzarb.Session.Core.Outbound.{call, send_error, fail_pending}

-- `pending.iter().position(p)` and `remove`: the first entry that passes, and the rest.
unfoldable pub take_first : (Pending → Bool) → List Pending → Option Pending × List Pending
take_first p [] = (none, [])
take_first p (x ∷ xs) =
    let (found, rest) = take_first p xs in if p x then (some x, xs) else (found, x ∷ rest)

-- The request is a `step_start` of this run, a `step_status` of it, either, or a `credential_status`.
unfoldable pub starts_run : Str → Pending → Bool
starts_run id (step_start run_id tx) = str_eq run_id id
starts_run id _ = false

unfoldable pub asks_run : Str → Pending → Bool
asks_run id (step_status run_id tx) = str_eq run_id id
asks_run id _ = false

unfoldable pub of_run : Str → Pending → Bool
of_run id (step_start run_id tx) = str_eq run_id id
of_run id (step_status run_id tx) = str_eq run_id id
of_run id (credential_status tx) = false

unfoldable pub asks_credential : Pending → Bool
asks_credential (credential_status tx) = true
asks_credential _ = false

-- The codes of an `error` that may answer the oldest request.
unfoldable pub is_run_code : Str → Bool
is_run_code code =
    str_eq code ErrorCode.unknown_run
    || (str_eq code ErrorCode.internal
        || (str_eq code ErrorCode.unauthorized
            || (str_eq code ErrorCode.unknown_message || str_eq code ErrorCode.unimplemented)))

-- `st.pending.pop_front()`
abbrev pop_front : List Pending → Option Pending × List Pending
pop_front [] = (none, [])
pop_front (p ∷ ps) = (some p, ps)

-- The request that an `error` is attributed to, and the ones that stay.
unfoldable pub attributed : Str → Option Str → List Pending → Option Pending × List Pending
attributed code (some id) pending = take_first (of_run id) pending
attributed code none pending = if is_run_code code then pop_front pending else (none, pending)

module _ {Value F64 : Type 0} where
  -- `Inner::attribute_error`, by the fields of the `error`: whether it was consumed.
  unfoldable pub attribute_error : Str → Str → Option Str → Inner Value F64 → Bool × Inner Value F64
  attribute_error code message run_id w =
      let (found, rest) = attributed code run_id w.state.pending in
      let v = record w { state = record w.state { pending = rest } } in
      elim found [ some p ↦ (true, fail_pending p (remote code message) v) | none ↦ (false, v) ]

module _ (J : Serde) where
  open J use {Value, F64}

  -- `Inner::violation`
  unfoldable pub violation : ℕ → Str → Str → Inner Value F64 → Inner Value F64
  violation addr code msg w =
      let id = (w.heap addr).id in
      let v = send_error J code (text "channel " ++ (show id ++ (text ": " ++ msg))) w in
      (call addr (λ i. abort i msg) v).1

  -- A frame for a channel that refused it.
  unfoldable pub or_violation : ℕ → Result FlowError (Unit {0}) × Inner Value F64 → Inner Value F64
  or_violation addr (ok _, w) = w
  or_violation addr (err e, w) = violation addr ErrorCode.flow_control (display_flow e) w

  unfoldable pub data_frame : Bool → Frame → Inner Value F64 → Inner Value F64
  data_frame is_json f w = elim (lookup f.channel w.state.channels) [
    | none ↦
        send_error J ErrorCode.unknown_channel (text "data for unknown channel " ++ show f.channel)
          w
    | some addr ↦ or_violation addr (call addr (λ id. on_data id is_json f.payload) w)
  ]

  abbrev unwrap_or_zero : {E : Type 0} → Result E ℕ → ℕ
  unwrap_or_zero (ok n) = n
  unwrap_or_zero (err e) = 0

  unfoldable pub window_frame_in : Frame → Inner Value F64 → Inner Value F64
  window_frame_in f w = elim (lookup f.channel w.state.channels) [
    | none ↦ w
    | some addr ↦
        or_violation addr (call addr (λ _. on_window (unwrap_or_zero (window_credit f))) w)
  ]

  unfoldable pub close_frame_in : Frame → Inner Value F64 → Inner Value F64
  close_frame_in f w = elim (lookup f.channel w.state.channels) [
    | none ↦ w
    | some addr ↦ elim (close_info f) [ ok info ↦ (call addr (λ _. on_close info) w).1 | err e ↦ w ]
  ]

  -- A CTRL frame whose payload does not parse.
  unfoldable pub bad_ctrl : Str → Inner Value F64 → Inner Value F64
  bad_ctrl msg w =
      send_error J
        (if contains_str msg (text "unknown variant")
          then ErrorCode.unknown_message
          else ErrorCode.protocol_violation)
        msg w

  -- A CTRL frame, by what its payload parses to, given `Inner::handle_ctrl`.
  unfoldable pub ctrl_in :
      (Ctrl Value F64 → Inner Value F64 → Inner Value F64)
      → Result FrameError (Ctrl Value F64)
      → Inner Value F64
      → Inner Value F64
  unfolding bad_ctrl
  ctrl_in handle_ctrl (ok m) w = handle_ctrl m w
  ctrl_in handle_ctrl (err e) w = bad_ctrl (display e) w

  -- `Inner::handle_frame`, given `Inner::handle_ctrl`.
  unfoldable pub handle_frame_by :
      (Ctrl Value F64 → Inner Value F64 → Inner Value F64)
      → Frame
      → Inner Value F64
      → Inner Value F64
  handle_frame_by handle_ctrl f w = elim f.frame_type [
    | ctrl ↦ ctrl_in handle_ctrl (ctrl_message J f) w
    | data_bin ↦ data_frame false f w
    | data_json ↦ data_frame true f w
    | window ↦ window_frame_in f w
    | close ↦ close_frame_in f w
  ]
