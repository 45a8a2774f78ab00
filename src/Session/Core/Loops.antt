-- ===== src/Session/Core/Loops.antt =====
-- session/core.rs: the dispatch of CTRL messages, and one round of each of the two tasks.
use enzarb.Base.{
  if◌then◌else◌, ℕ, Bool, true, false, Option, none, some, List, [], ◌∷◌, ◌++◌, Result, ok, err,
}
use enzarb.Base.Text.{Str, text}
use enzarb.Frame.Types.{Frame, FrameError, display}
use enzarb.Frame.Codec.{from_bytes}
use enzarb.Ctrl.Types.{
  Ctrl, hello, welcome, open_channel, opened, open_error, resize, step_start, step_accepted,
  step_steer, step_stop, step_resume, step_status, step_state, session_event, step_finished,
  credential_captured, credential_status, credential_state, stats_request, stats, file_read, file,
  credential_clear, error,
}
use enzarb.Ctrl.Direction.{tag}
use enzarb.Ctrl.Json.{Serde}
use enzarb.Ctrl.ErrorCode
use enzarb.Session.Errors.{Role, client, server, peer_closed, transport}
use enzarb.Session.Errors.{closed as end_closed}
use enzarb.Session.Core.State.{Inner, frame, close, ctrl_event}
use enzarb.Session.Core.Outbound.{send_error, finish, fatal}
use enzarb.Session.Core.Inbound.{attribute_error, handle_frame_by}
use enzarb.Session.Core.Server.{emit, handle_open, handle_resize}
use enzarb.Session.Core.Client.{
  handle_opened, handle_open_error, handle_step_accepted, handle_step_state,
  handle_credential_state,
}

-- `Debug` of a `Role`.
show_role : Role → Str
show_role client = text "Client"
show_role server = text "Server"

-- What the websocket gives next.
pub data Message : Type 0 where
  binary : List ℕ → Message
  text_message ping closing ended : Message
  failed : Str → Message

module _ (J : Serde) where
  open J use {Value, F64}

  -- The two messages that only the handshake knows.
  unfoldable pub unexpected_handshake : Inner Value F64 → Inner Value F64
  unexpected_handshake w =
      send_error J ErrorCode.protocol_violation (text "unexpected handshake message") w

  -- The last arm: a message that this side does not take.
  unfoldable pub unexpected : Ctrl Value F64 → Inner Value F64 → Inner Value F64
  unfolding show_role
  unexpected m w =
      send_error J ErrorCode.protocol_violation
        (text "unexpected message for the " ++ (show_role w.role ++ (text " side: " ++ tag m))) w

  unfoldable pub handle_error :
      Str → Str → Option Str → Option ℕ → Inner Value F64 → Inner Value F64
  unfolding emit
  handle_error code message run_id channel w =
      let (consumed, v) = attribute_error code message run_id w in
      elim consumed [ true ↦ v | false ↦ emit (ctrl_event (error code message run_id channel)) v ]

  unfoldable pub pass : Ctrl Value F64 → Inner Value F64 → Inner Value F64
  unfolding emit
  pass m w = emit (ctrl_event m) w

  -- `Inner::handle_ctrl` at the server.
  unfoldable pub handle_server : Ctrl Value F64 → Inner Value F64 → Inner Value F64
  unfolding unexpected_handshake unexpected handle_error pass
  handle_server (hello a b c) w = unexpected_handshake w
  handle_server (error a b c d) w = handle_error a b c d w
  handle_server (open_channel o) w = handle_open J o w
  handle_server (resize channel cols rows) w = handle_resize J channel cols rows w
  handle_server (step_start s) w = pass (step_start s) w
  handle_server (step_status a b) w = pass (step_status a b) w
  handle_server (step_steer a b) w = pass (step_steer a b) w
  handle_server (step_stop a) w = pass (step_stop a) w
  handle_server (step_resume a) w = pass (step_resume a) w
  handle_server credential_status w = pass credential_status w
  handle_server stats_request w = pass stats_request w
  handle_server (file_read a b) w = pass (file_read a b) w
  handle_server (credential_clear a) w = pass (credential_clear a) w
  handle_server (credential_state a b c) w = pass (credential_state a b c) w
  handle_server m w = unexpected m w

  -- `Inner::handle_ctrl` at the client.
  unfoldable pub handle_client : Ctrl Value F64 → Inner Value F64 → Inner Value F64
  unfolding unexpected_handshake unexpected handle_error pass
  handle_client (hello a b c) w = unexpected_handshake w
  handle_client (welcome a b) w = unexpected_handshake w
  handle_client (error a b c d) w = handle_error a b c d w
  handle_client (opened channel) w = handle_opened J channel w
  handle_client (open_error channel message code) w = handle_open_error channel message code w
  handle_client (step_accepted a b c) w = handle_step_accepted a b c w
  handle_client (step_state a b c) w = handle_step_state a b c w
  handle_client (credential_captured a b c) w = pass (credential_captured a b c) w
  handle_client (stats a) w = pass (stats a) w
  handle_client (file a b c d e) w = pass (file a b c d e) w
  handle_client (session_event a) w = pass (session_event a) w
  handle_client (step_finished a) w = pass (step_finished a) w
  handle_client (credential_state a b c) w = handle_credential_state a b c w
  handle_client m w = unexpected m w

  -- `Inner::handle_ctrl`
  unfoldable pub handle_ctrl : Ctrl Value F64 → Inner Value F64 → Inner Value F64
  unfolding handle_server handle_client
  handle_ctrl m w = elim w.role [ server ↦ handle_server m w | client ↦ handle_client m w ]

  -- `Inner::handle_frame`
  unfoldable pub handle_frame : Frame → Inner Value F64 → Inner Value F64
  handle_frame = handle_frame_by J handle_ctrl

  unfoldable pub bad_frame : FrameError → Inner Value F64 → Inner Value F64
  bad_frame e w = fatal J (text "bad frame: " ++ display e) w

  unfoldable pub binary_in : Result FrameError Frame → Inner Value F64 → Bool × Inner Value F64
  unfolding handle_frame bad_frame
  binary_in (ok f) w = (true, handle_frame f w)
  binary_in (err e) w = (false, bad_frame e w)

  unfoldable pub read_alive : Message → Inner Value F64 → Bool × Inner Value F64
  unfolding binary_in
  read_alive ended w = (false, finish peer_closed w)
  read_alive closing w = (false, finish peer_closed w)
  read_alive (failed e) w = (false, finish (transport e) w)
  read_alive (binary b) w = binary_in (from_bytes b) w
  read_alive text_message w = (false, fatal J (text "text websocket message") w)
  read_alive ping w = (true, w)

  -- A round of `read_loop`: whether the task goes on, and the session. Once the session has ended, `select!` may take
  -- either of its branches: the message that is ready (`picked`), or the end, which leaves the loop with no change.
  unfoldable pub read_round : (picked : Bool) → Message → Inner Value F64 → Bool × Inner Value F64
  unfolding read_alive
  read_round picked m w = elim w.end [
    | some e ↦ if picked then read_alive m w else (false, w)
    | none ↦ read_alive m w
  ]

-- The writer's end of its queue is gone with its task.
abbrev stop_writer : {Value F64 : Type 0} → Inner Value F64 → Inner Value F64
stop_writer w = record w { out = []; out_open = false }

-- A round of `write_loop` with something in its queue: what goes to the websocket, given whether it takes it
-- (`none`) or fails with a text, whether the task goes on, and the session.
unfoldable pub write_round :
    {Value F64 : Type 0} → Option Str → Inner Value F64 → Option (List ℕ) × Bool × Inner Value F64
write_round sink w = elim w.out [
  | [] ↦ (none, true, w)
  | frame b ∷ rest ↦ elim sink [
    | none ↦ (some b, true, record w { out = rest })
    | some e ↦ (none, false, stop_writer (finish (transport e) (record w { out = rest })))
  ]
  | close ∷ rest ↦ (none, false, stop_writer (finish end_closed (record w { out = rest })))
]
