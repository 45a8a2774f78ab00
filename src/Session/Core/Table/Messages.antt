-- ===== src/Session/Core/Table/Messages.antt =====
-- session/core.rs: the CTRL messages that arrive keep the tables consistent, on either side.
use enzarb.Base.{
  true, false, none, ℕ, arith, Bool, ◌||◌, Bool-cases, inl, inr, Option, ◌==◌, is_some,
}
use enzarb.Base.Text.{Str, text}
use enzarb.Base.Dict.{lookup, add, remove}
use enzarb.Ctrl.Types.{
  max_repo_len, max_resume_len, Ctrl, Open, hello, welcome, open_channel, opened, open_error,
  resize, step_start, step_accepted, step_steer, step_stop, step_resume, step_status, step_state,
  session_event, step_finished, credential_captured, credential_status, credential_state,
  stats_request, stats, file_read, file, credential_clear, error,
}
use enzarb.Ctrl.Json.{Serde}
use enzarb.Session.Errors.{server, client}
use enzarb.Session.Core.State
use enzarb.Session.Core.State.{Inner, State, Out, Pending, PendingOpen, frame, in_use}
use enzarb.Session.Core.Outbound.{from_inner, send_ctrl, reject_open}
use enzarb.Session.Core.Inbound.{attribute_error}
use enzarb.Session.Core.Server.{
  drop_request, hand_over, handle_open, admit_open, handle_resize, is_unknown, too_long,
}
use enzarb.Session.Core.Loops.{
  unexpected_handshake, unexpected, pass, handle_error, handle_server, handle_client, handle_ctrl,
}
use enzarb.Session.Core.Table.{dropped-IsTable, IsTable, reserved-IsTable}
use enzarb.Session.Core.Table.Effects.{
  emit-IsTable, drop_session-IsTable, same, attribute_error-IsTable, send_ctrl-state,
  send_error-IsTable,
}
use enzarb.Session.Core.Table.Replies.{
  handle_step_accepted-IsTable, handle_step_state-IsTable, handle_credential_state-IsTable,
  handle_open_error-IsTable, handle_opened-IsTable,
}

module _ (J : Serde) where
  open J use {Value, F64}

  drop_request-IsTable :
      (o : Open) (w : Inner Value F64)
      → IsTable (record w.state { reserved = remove o.channel w.state.reserved })
      → IsTable (drop_request J o w).state
  unfolding drop_request reject_open
  drop_request-IsTable o w t =
      let v = record w {
        state = record w.state { reserved = remove o.channel w.state.reserved };
      } in
      drop_session-IsTable
        (send_ctrl J (open_error o.channel (text "open request was not handled") none) v).1
        (same
          (send_ctrl-state J (open_error o.channel (text "open request was not handled") none) v) t)

  hand_over-IsTable :
      (there : Bool) (o : Open) (w : Inner Value F64)
      → IsTable w.state
      → IsTable (record w.state { reserved = remove o.channel w.state.reserved })
      → IsTable (hand_over J there o w).state
  unfolding hand_over
  hand_over-IsTable true o w t d = emit-IsTable (State.open_event o) w t
  hand_over-IsTable false o w t d = drop_request-IsTable o w d

  admit_open-IsTable :
      (o : Open) (w : Inner Value F64) → IsTable w.state → IsTable (admit_open J o w).state
  unfolding admit_open from_inner
  admit_open-IsTable o w t =
      let v =
        from_inner
          (record w { state = record w.state { reserved = add o.channel w.state.reserved } }) in
      elim (Bool-cases (o.channel == 0 || in_use w.state o.channel)) [
        | inl y ↦ rw (y, admit_open) (same (send_ctrl-state J _ w) t)
        | inr n ↦
            rw (n, admit_open)
              (hand_over-IsTable w.events_open o v
                (reserved-IsTable o.channel w.state (ground arith) (ground arith) t)
                (dropped-IsTable o.channel w.state (ground arith) t))
      ]

  handle_open-IsTable :
      (o : Open) (w : Inner Value F64) → IsTable w.state → IsTable (handle_open J o w).state
  unfolding handle_open
  handle_open-IsTable o w t = elim (Bool-cases (is_unknown o.kind)) [
    | inl y ↦ rw (y, handle_open) (same (send_ctrl-state J _ w) t)
    | inr n ↦ elim (Bool-cases (too_long o.repo max_repo_len || too_long o.resume max_resume_len)) [
      | inl y ↦ rw (n, y, handle_open) (same (send_ctrl-state J _ w) t)
      | inr k ↦ rw (n, k, handle_open) (admit_open-IsTable o w t)
    ]
  ]

  handle_resize-IsTable :
      (channel cols rows : ℕ) (w : Inner Value F64)
      → IsTable w.state
      → IsTable (handle_resize J channel cols rows w).state
  unfolding handle_resize
  handle_resize-IsTable channel cols rows w t =
      elim (Bool-cases (is_some (lookup channel w.state.channels))) [
        | inl y ↦ rw (y, handle_resize) (emit-IsTable _ w t)
        | inr n ↦ rw (n, handle_resize) (send_error-IsTable J _ _ w t)
      ]

  handle_error-IsTable :
      (code message : Str) (run_id : Option Str) (channel : Option ℕ) (w : Inner Value F64)
      → IsTable w.state
      → IsTable (handle_error J code message run_id channel w).state
  unfolding handle_error
  handle_error-IsTable code message run_id channel w t =
      let kept = attribute_error-IsTable code message run_id w t in
      elim (Bool-cases (attribute_error code message run_id w).0) [
        | inl y ↦ rw (y, handle_error) kept
        | inr n ↦
            rw (n, handle_error) (emit-IsTable _ (attribute_error code message run_id w).1 kept)
      ]

  handle_server-IsTable :
      (m : Ctrl Value F64) (w : Inner Value F64)
      → IsTable w.state
      → IsTable (handle_server J m w).state
  unfolding handle_server unexpected_handshake unexpected pass
  handle_server-IsTable (hello a b c) w t = send_error-IsTable J _ _ w t
  handle_server-IsTable (welcome a b) w t = send_error-IsTable J _ _ w t
  handle_server-IsTable (open_channel a) w t = handle_open-IsTable a w t
  handle_server-IsTable (opened a) w t = send_error-IsTable J _ _ w t
  handle_server-IsTable (open_error a b c) w t = send_error-IsTable J _ _ w t
  handle_server-IsTable (resize a b c) w t = handle_resize-IsTable a b c w t
  handle_server-IsTable (step_start a) w t = emit-IsTable _ w t
  handle_server-IsTable (step_accepted a b c) w t = send_error-IsTable J _ _ w t
  handle_server-IsTable (step_steer a b) w t = emit-IsTable _ w t
  handle_server-IsTable (step_stop a) w t = emit-IsTable _ w t
  handle_server-IsTable (step_resume a) w t = emit-IsTable _ w t
  handle_server-IsTable (step_status a b) w t = emit-IsTable _ w t
  handle_server-IsTable (step_state a b c) w t = send_error-IsTable J _ _ w t
  handle_server-IsTable (session_event a) w t = send_error-IsTable J _ _ w t
  handle_server-IsTable (step_finished a) w t = send_error-IsTable J _ _ w t
  handle_server-IsTable (credential_captured a b c) w t = send_error-IsTable J _ _ w t
  handle_server-IsTable credential_status w t = emit-IsTable _ w t
  handle_server-IsTable (credential_state a b c) w t = emit-IsTable _ w t
  handle_server-IsTable stats_request w t = emit-IsTable _ w t
  handle_server-IsTable (stats a) w t = send_error-IsTable J _ _ w t
  handle_server-IsTable (file_read a b) w t = emit-IsTable _ w t
  handle_server-IsTable (file a b c d e) w t = send_error-IsTable J _ _ w t
  handle_server-IsTable (credential_clear a) w t = emit-IsTable _ w t
  handle_server-IsTable (error a b c d) w t = handle_error-IsTable a b c d w t

  handle_client-IsTable :
      (m : Ctrl Value F64) (w : Inner Value F64)
      → IsTable w.state
      → IsTable (handle_client J m w).state
  unfolding handle_client unexpected_handshake unexpected pass
  handle_client-IsTable (hello a b c) w t = send_error-IsTable J _ _ w t
  handle_client-IsTable (welcome a b) w t = send_error-IsTable J _ _ w t
  handle_client-IsTable (open_channel a) w t = send_error-IsTable J _ _ w t
  handle_client-IsTable (opened a) w t = handle_opened-IsTable J a w t
  handle_client-IsTable (open_error a b c) w t = handle_open_error-IsTable J a b c w t
  handle_client-IsTable (resize a b c) w t = send_error-IsTable J _ _ w t
  handle_client-IsTable (step_start a) w t = send_error-IsTable J _ _ w t
  handle_client-IsTable (step_accepted a b c) w t = handle_step_accepted-IsTable J a b c w t
  handle_client-IsTable (step_steer a b) w t = send_error-IsTable J _ _ w t
  handle_client-IsTable (step_stop a) w t = send_error-IsTable J _ _ w t
  handle_client-IsTable (step_resume a) w t = send_error-IsTable J _ _ w t
  handle_client-IsTable (step_status a b) w t = send_error-IsTable J _ _ w t
  handle_client-IsTable (step_state a b c) w t = handle_step_state-IsTable J a b c w t
  handle_client-IsTable (session_event a) w t = emit-IsTable _ w t
  handle_client-IsTable (step_finished a) w t = emit-IsTable _ w t
  handle_client-IsTable (credential_captured a b c) w t = emit-IsTable _ w t
  handle_client-IsTable credential_status w t = send_error-IsTable J _ _ w t
  handle_client-IsTable (credential_state a b c) w t = handle_credential_state-IsTable J a b c w t
  handle_client-IsTable stats_request w t = send_error-IsTable J _ _ w t
  handle_client-IsTable (stats a) w t = emit-IsTable _ w t
  handle_client-IsTable (file_read a b) w t = send_error-IsTable J _ _ w t
  handle_client-IsTable (file a b c d e) w t = emit-IsTable _ w t
  handle_client-IsTable (credential_clear a) w t = send_error-IsTable J _ _ w t
  handle_client-IsTable (error a b c d) w t = handle_error-IsTable a b c d w t

  pub handle_ctrl-IsTable :
      (m : Ctrl Value F64) (w : Inner Value F64)
      → IsTable w.state
      → IsTable (handle_ctrl J m w).state
  unfolding handle_ctrl
  handle_ctrl-IsTable m w t =
      elim w.role
        as (λ r.
          IsTable
            (elim r as (λ _. Inner Value F64) [
              | server ↦ handle_server J m w
              | client ↦ handle_client J m w
            ]).state) [
              | server ↦ handle_server-IsTable m w t
              | client ↦ handle_client-IsTable m w t
            ]
