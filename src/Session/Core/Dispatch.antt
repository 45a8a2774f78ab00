-- ===== src/Session/Core/Dispatch.antt =====
-- session/core.rs: which messages reach the server, by the table of directions in ctrl.rs.
use enzarb.Base.{
  ◌≡◌, refl, inl, inr, Bool-cases, Result-cases, ◌>>=◌, none, ℕ, true, false, List, [], ◌∷◌, ◌++◌,
  ok, err, ◌⊎◌,
}
use enzarb.Base.Text.{Str, text}
use enzarb.Frame.Types.{FrameError}
use enzarb.Frame.Codec.{to_bytes}
use enzarb.Ctrl.Types.{
  Ctrl, hello, welcome, open_channel, opened, open_error, resize, step_start, step_accepted,
  step_steer, step_stop, step_resume, step_status, step_state, session_event, step_finished,
  credential_captured, credential_status, credential_state, stats_request, stats, file_read, file,
  credential_clear, error,
}
use enzarb.Ctrl.Direction.{Direction, direction, server_to_client, client_to_server, handshake}
use enzarb.Ctrl.Json.{Serde, ctrl_frame, ctrl_bytes}
use enzarb.Ctrl.ErrorCode
use enzarb.Session.Core.State.{Inner, Out, frame}
use enzarb.Session.Core.Outbound.{send_error, send_ctrl, send_frame, send_out}
use enzarb.Session.Core.Loops.{handle_server, unexpected_handshake, unexpected}

-- Not a message from a client to the server.
abbrev pub IsForeign : Direction → Type 0
IsForeign handshake = Unit {0}
IsForeign server_to_client = Unit {0}
IsForeign (client_to_server kinds) = ⊥

module _ {Value F64 : Type 0} where
  -- Nothing but the queue to the websocket changed.
  abbrev pub SameButOut : Inner Value F64 → Inner Value F64 → Type 0
  SameButOut v w = v ≡ record w { out = v.out }

  pub send_out-SameButOut : (o : Out) (w : Inner Value F64) → SameButOut (send_out o w) w
  unfolding send_out
  send_out-SameButOut o w = elim (Bool-cases w.out_open) [
    | inl t ↦ rw (t, send_out) refl
    | inr f ↦ rw (f, send_out) refl
  ]

module _ (J : Serde) where
  open J use {Value, F64}

  -- The session's queue got the bytes of the `error`, or it stayed as it was because the writer no longer receives or the
  -- message does not encode; nothing else changed.
  abbrev pub Answered : Str → Str → Inner Value F64 → Inner Value F64 → Type 0
  Answered code msg w v =
      ((b : List ℕ) × (ctrl_bytes J (error code msg none none) ≡ ok b)
        × (w.out_open ≡ true)
        × (v ≡ record w { out = w.out ++ (frame b ∷ []) }))
      ⊎ (((w.out_open ≡ false)
            ⊎ ((x : FrameError) × (ctrl_bytes J (error code msg none none) ≡ err x)))
          × (v ≡ w))

  send_error-Answered :
      (code msg : Str) (w : Inner Value F64) → Answered code msg w (send_error J code msg w)
  unfolding send_error send_ctrl send_frame ctrl_bytes
  send_error-Answered code msg w =
      elim (Result-cases (ctrl_frame J (error code msg none none) >>= to_bytes)) [
        | inl (b, e) ↦ elim (Bool-cases w.out_open) [
          | inl t ↦ inl (b, e, t, rw (e, t, send_error, send_frame, send_out) refl)
          | inr f ↦ inr (inl f, rw (e, f, send_error, send_frame, send_out) refl)
        ]
        | inr (x, e) ↦ inr (inr (x, e), rw (e, send_error, send_frame) refl)
      ]

  -- A message that the table of directions gives to the handshake or to the client is answered at the server with an
  -- `error` of `protocol_violation`: one frame with the bytes of that message joins the end of the queue to the websocket,
  -- and nothing else of the session changes. The queue also stays as it was only if the writer no longer receives or the
  -- `error` does not encode.
  pub handle_server-foreign :
      (m : Ctrl Value F64) (w : Inner Value F64)
      → IsForeign (direction m)
      → (msg : Str) × Answered (text "protocol_violation") msg w (handle_server J m w)
  unfolding handle_server unexpected_handshake unexpected direction ErrorCode.protocol_violation
  handle_server-foreign (hello a b c) w h = (_, send_error-Answered _ _ w)
  handle_server-foreign (welcome a b) w h = (_, send_error-Answered _ _ w)
  handle_server-foreign (open_channel a) w h = absurd h
  handle_server-foreign (opened a) w h = (_, send_error-Answered _ _ w)
  handle_server-foreign (open_error a b c) w h = (_, send_error-Answered _ _ w)
  handle_server-foreign (resize a b c) w h = absurd h
  handle_server-foreign (step_start a) w h = absurd h
  handle_server-foreign (step_accepted a b c) w h = (_, send_error-Answered _ _ w)
  handle_server-foreign (step_steer a b) w h = absurd h
  handle_server-foreign (step_stop a) w h = absurd h
  handle_server-foreign (step_resume a) w h = absurd h
  handle_server-foreign (step_status a b) w h = absurd h
  handle_server-foreign (step_state a b c) w h = (_, send_error-Answered _ _ w)
  handle_server-foreign (session_event a) w h = (_, send_error-Answered _ _ w)
  handle_server-foreign (step_finished a) w h = (_, send_error-Answered _ _ w)
  handle_server-foreign (credential_captured a b c) w h = (_, send_error-Answered _ _ w)
  handle_server-foreign credential_status w h = absurd h
  handle_server-foreign (credential_state a b c) w h = absurd h
  handle_server-foreign stats_request w h = absurd h
  handle_server-foreign (stats a) w h = (_, send_error-Answered _ _ w)
  handle_server-foreign (file_read a b) w h = absurd h
  handle_server-foreign (file a b c d e) w h = (_, send_error-Answered _ _ w)
  handle_server-foreign (credential_clear a) w h = absurd h
  handle_server-foreign (error a b c d) w h = absurd h
