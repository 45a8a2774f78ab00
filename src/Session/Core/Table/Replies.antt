-- ===== src/Session/Core/Table/Replies.antt =====
-- session/core.rs: the replies that arrive at a client keep the tables consistent.
use enzarb.Base.{ℕ, ap, Bool, Bool-cases, Option-cases, inl, inr, Option, is_some}
use enzarb.Base.Text.{Str}
use enzarb.Base.Dict.{lookup, mem}
use enzarb.Ctrl.Types.{CredentialKind}
use enzarb.Ctrl.Json.{Serde}
use enzarb.Session.Core.State
use enzarb.Session.Core.State.{Inner, State, Out, Pending, PendingOpen, frame, in_use}
use enzarb.Session.Core.Outbound.{reply}
use enzarb.Session.Core.Inbound.{take_first, starts_run, asks_run, asks_credential}
use enzarb.Session.Core.Client.{
  handle_opened, handle_open_error, handle_step_accepted, handle_step_state,
  handle_credential_state, promoted,
}
use enzarb.Ctrl.Step.{StepPhase, StepFinished}
use enzarb.Session.Core.Table.{IsTable, promoted-IsTable, refused-IsTable, pending-IsTable}
use enzarb.Session.Core.Table.Effects.{emit-IsTable, call-IsTable, send_error-IsTable}

module _ (J : Serde) where
  open J use {Value, F64}

  pub handle_step_accepted-IsTable :
      (run_id : Str) (state : StepPhase) (existing : Bool) (w : Inner Value F64)
      → IsTable w.state
      → IsTable (handle_step_accepted {Value = Value} {F64 = F64} run_id state existing w).state
  unfolding handle_step_accepted reply
  handle_step_accepted-IsTable run_id state existing w t =
      let kept = pending-IsTable (take_first (starts_run run_id) w.state.pending).1 w.state t in
      elim (Option-cases (take_first (starts_run run_id) w.state.pending).0) [
        | inl n ↦
            rw (n, handle_step_accepted)
              (emit-IsTable _
                (record w {
                  state = record w.state {
                    pending = (take_first (starts_run run_id) w.state.pending).1;
                  };
                })
                kept)
        | inr (State.step_start _ _, e) ↦ rw (e, handle_step_accepted) kept
        | inr (State.step_status _ _, e) ↦
            rw (e, handle_step_accepted)
              (emit-IsTable _
                (record w {
                  state = record w.state {
                    pending = (take_first (starts_run run_id) w.state.pending).1;
                  };
                })
                kept)
        | inr (State.credential_status _, e) ↦
            rw (e, handle_step_accepted)
              (emit-IsTable _
                (record w {
                  state = record w.state {
                    pending = (take_first (starts_run run_id) w.state.pending).1;
                  };
                })
                kept)
      ]

  pub handle_step_state-IsTable :
      (run_id : Str) (state : StepPhase) (result : Option (StepFinished Value F64))
      (w : Inner Value F64)
      → IsTable w.state
      → IsTable (handle_step_state {Value = Value} {F64 = F64} run_id state result w).state
  unfolding handle_step_state reply
  handle_step_state-IsTable run_id state result w t =
      let kept = pending-IsTable (take_first (asks_run run_id) w.state.pending).1 w.state t in
      elim (Option-cases (take_first (asks_run run_id) w.state.pending).0) [
        | inl n ↦
            rw (n, handle_step_state)
              (emit-IsTable _
                (record w {
                  state = record w.state {
                    pending = (take_first (asks_run run_id) w.state.pending).1;
                  };
                })
                kept)
        | inr (State.step_start _ _, e) ↦
            rw (e, handle_step_state)
              (emit-IsTable _
                (record w {
                  state = record w.state {
                    pending = (take_first (asks_run run_id) w.state.pending).1;
                  };
                })
                kept)
        | inr (State.step_status _ _, e) ↦ rw (e, handle_step_state) kept
        | inr (State.credential_status _, e) ↦
            rw (e, handle_step_state)
              (emit-IsTable _
                (record w {
                  state = record w.state {
                    pending = (take_first (asks_run run_id) w.state.pending).1;
                  };
                })
                kept)
      ]

  pub handle_credential_state-IsTable :
      (kind : CredentialKind) (configured : Bool) (scope : Option Str) (w : Inner Value F64)
      → IsTable w.state
      → IsTable (handle_credential_state {Value = Value} {F64 = F64} kind configured scope w).state
  unfolding handle_credential_state reply
  handle_credential_state-IsTable kind configured scope w t =
      let kept = pending-IsTable (take_first asks_credential w.state.pending).1 w.state t in
      elim (Option-cases (take_first asks_credential w.state.pending).0) [
        | inl n ↦
            rw (n, handle_credential_state)
              (emit-IsTable _
                (record w {
                  state = record w.state {
                    pending = (take_first asks_credential w.state.pending).1;
                  };
                })
                kept)
        | inr (State.step_start _ _, e) ↦
            rw (e, handle_credential_state)
              (emit-IsTable _
                (record w {
                  state = record w.state {
                    pending = (take_first asks_credential w.state.pending).1;
                  };
                })
                kept)
        | inr (State.step_status _ _, e) ↦
            rw (e, handle_credential_state)
              (emit-IsTable _
                (record w {
                  state = record w.state {
                    pending = (take_first asks_credential w.state.pending).1;
                  };
                })
                kept)
        | inr (State.credential_status _, e) ↦ rw (e, handle_credential_state) kept
      ]

  pub handle_open_error-IsTable :
      (channel : ℕ) (message : Str) (code : Option Str) (w : Inner Value F64)
      → IsTable w.state
      → IsTable (handle_open_error channel message code w).state
  unfolding handle_open_error reply
  handle_open_error-IsTable channel message code w t =
      let kept = refused-IsTable channel w.state t in
      elim (Option-cases (lookup channel w.state.pending_open)) [
        | inl n ↦ rw (n, handle_open_error) kept
        | inr (p, e) ↦ rw (e, handle_open_error) kept
      ]

  pub handle_opened-IsTable :
      (channel : ℕ) (w : Inner Value F64)
      → IsTable w.state
      → IsTable (handle_opened J channel w).state
  unfolding handle_opened reply
  handle_opened-IsTable channel w t = elim (Option-cases (lookup channel w.state.pending_open)) [
    | inl n ↦ rw (n, handle_opened) (send_error-IsTable J _ _ w t)
    | inr (p, e) ↦
        let kept = promoted-IsTable channel p.chan w.state (ap is_some e) t in
        elim (Bool-cases (mem p.tx w.gone)) [
          | inl y ↦
              rw (e, y, handle_opened)
                (call-IsTable p.chan _ (record w { state = promoted channel p.chan w.state }) kept)
          | inr n ↦ rw (e, n, handle_opened) kept
        ]
  ]
