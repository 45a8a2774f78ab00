-- ===== src/Session/Core/Client.antt =====
-- session/core.rs: the client's side, the replies that it awaits and the requests that it sends.
-- A request is the part of its async function up to `rx.await`: it returns the oneshot that the
-- reply will come through.
use enzarb.Base.{
  ℕ, suc, Bool, ◌||◌, Option, none, some, List, [], ◌∷◌, ◌++◌, if◌then◌else◌, Result, ok, err,
  ◌>>=◌,
}
use enzarb.Base.Text.{Str, text, show}
use enzarb.Base.Dict.{lookup, insert, erase, add, remove, mem}
use enzarb.Frame.CloseCode
use enzarb.Ctrl.Types.{
  Ctrl, Open, acp, ChatCheckout, CredentialKind, open_channel, step_start, step_status,
  step_accepted, step_state, credential_status, credential_state, max_repo_len, max_resume_len,
}
use enzarb.Ctrl.Step.{StepPhase, StepStart, StepFinished}
use enzarb.Ctrl.Json.{Serde}
use enzarb.Ctrl.ErrorCode
use enzarb.Ctrl.OpenErrorCode
use enzarb.Session.Errors.{
  Role, client, server, SessionError, wrong_role, open_rejected, open_rejected_code,
}
use enzarb.Session.Channel.{close_local}
use enzarb.Session.Core.State.{
  Inner, State, Pending, PendingOpen, Event, ctrl_event, Reply, opened, accepted, status,
  credential, StepAccepted, StepInfo, CredentialInfo, alloc,
}
use enzarb.Session.Core.State
use enzarb.Session.Core.Outbound.{call, check_alive, reply, send_ctrl, send_error}
use enzarb.Session.Core.Inbound.{take_first, starts_run, asks_run, asks_credential}
use enzarb.Session.Core.Server.{emit, new_chan, too_long}

abbrev refusal : Option Str → Str → SessionError
refusal (some code) message = open_rejected_code code message
refusal none message = open_rejected message

module _ {Value F64 : Type 0} where
  abbrev with_pending : List Pending → Inner Value F64 → Inner Value F64
  with_pending ps w = record w { state = record w.state { pending = ps } }

  -- `Ctrl::StepAccepted` at the client.
  unfoldable pub handle_step_accepted : Str → StepPhase → Bool → Inner Value F64 → Inner Value F64
  unfolding emit
  handle_step_accepted run_id state existing w =
      let (found, rest) = take_first (starts_run run_id) w.state.pending in
      elim found [
        | some (State.step_start _ tx) ↦
            reply tx
              (accepted (ok (record { run_id = run_id; state = state; existing = existing })))
              (with_pending rest w)
        | _ ↦ emit (ctrl_event (step_accepted run_id state existing)) (with_pending rest w)
      ]

  -- `Ctrl::StepState` at the client.
  unfoldable pub handle_step_state :
      Str → StepPhase → Option (StepFinished Value F64) → Inner Value F64 → Inner Value F64
  unfolding emit
  handle_step_state run_id state result w =
      let (found, rest) = take_first (asks_run run_id) w.state.pending in
      elim found [
        | some (State.step_status _ tx) ↦
            reply tx (status (ok (record { run_id = run_id; state = state; result = result })))
              (with_pending rest w)
        | _ ↦ emit (ctrl_event (step_state run_id state result)) (with_pending rest w)
      ]

  -- `Ctrl::CredentialState` at the client.
  unfoldable pub handle_credential_state :
      CredentialKind → Bool → Option Str → Inner Value F64 → Inner Value F64
  unfolding emit
  handle_credential_state kind configured scope w =
      let (found, rest) = take_first asks_credential w.state.pending in
      elim found [
        | some (State.credential_status tx) ↦
            reply tx
              (credential (ok (record { kind = kind; configured = configured; scope = scope })))
              (with_pending rest w)
        | _ ↦ emit (ctrl_event (credential_state kind configured scope)) (with_pending rest w)
      ]

  -- `Ctrl::OpenError` at the client.
  unfoldable pub handle_open_error : ℕ → Str → Option Str → Inner Value F64 → Inner Value F64
  handle_open_error channel message code w =
      let s = w.state in
      let v = record w {
        state = record s {
          reserved = remove channel s.reserved;
          pending_open = erase channel s.pending_open;
        };
      } in
      elim (lookup channel s.pending_open) [
        | none ↦ v
        | some p ↦ reply p.tx (opened (err (refusal code message))) v
      ]

  -- `Session::require`
  unfoldable pub require : Role → Inner Value F64 → Result SessionError (Unit {0})
  require client w = elim w.role [ client ↦ ok tt | server ↦ err (wrong_role client) ]
  require server w = elim w.role [ server ↦ ok tt | client ↦ err (wrong_role server) ]

  -- A fresh oneshot.
  abbrev new_tx : Inner Value F64 → Inner Value F64
  new_tx w = record w { next_tx = suc w.next_tx }

-- The table after `opened` for a channel that was pending.
abbrev pub promoted : ℕ → ℕ → State → State
promoted channel addr s = record s {
  pending_open = erase channel s.pending_open;
  reserved = remove channel s.reserved;
  channels = insert channel addr s.channels;
}

module _ (J : Serde) where
  open J use {Value, F64}

  -- The opener is told, or the channel is closed if it gave up.
  abbrev finish_open : PendingOpen → Inner Value F64 → Inner Value F64
  finish_open p w =
      if mem p.tx w.gone
      then (call p.chan (λ id. close_local id CloseCode.cancelled (text "open cancelled")) w).1
      else reply p.tx (opened (ok tt)) w

  -- `Ctrl::Opened` at the client.
  unfoldable pub handle_opened : ℕ → Inner Value F64 → Inner Value F64
  handle_opened channel w = elim (lookup channel w.state.pending_open) [
    | some p ↦ finish_open p (record w { state = promoted channel p.chan w.state })
    | none ↦
        send_error J ErrorCode.protocol_violation
          (text "unsolicited opened for channel " ++ show channel) w
  ]

  -- A request that returns early drops the receiver of its oneshot.
  abbrev gone_after : Result SessionError (Unit {0}) → ℕ → List ℕ → List ℕ
  gone_after (ok u) tx gone = gone
  gone_after (err e) tx gone = tx ∷ gone

  -- `send_ctrl(..)?` of a request, behind its entry in the state.
  abbrev request : Ctrl Value F64 → ℕ → Inner Value F64 → Result SessionError ℕ × Inner Value F64
  request m tx w =
      let (r, v) = send_ctrl J m w in
      (r >>= (λ _. ok tx), record v { gone = gone_after r tx v.gone })

  abbrev pub checked : Inner Value F64 → Result SessionError (Unit {0})
  checked w = require client w >>= (λ _. check_alive w)

  -- `Session::step_start`
  unfoldable pub start_step :
      StepStart Value → Inner Value F64 → Result SessionError ℕ × Inner Value F64
  start_step step w = elim (checked w) [
    | err e ↦ (err e, w)
    | ok _ ↦
        request (step_start step) w.next_tx (
          with_pending (w.state.pending ++ (State.step_start step.run_id w.next_tx ∷ []))
            (new_tx w))
  ]

  -- `Session::step_status`
  unfoldable pub ask_status : Str → ℕ → Inner Value F64 → Result SessionError ℕ × Inner Value F64
  ask_status run_id after_seq w = elim (checked w) [
    | err e ↦ (err e, w)
    | ok _ ↦
        request (step_status run_id after_seq) w.next_tx
          (with_pending (w.state.pending ++ (State.step_status run_id w.next_tx ∷ [])) (new_tx w))
  ]

  -- `Session::credential_status`
  unfoldable pub ask_credential : Inner Value F64 → Result SessionError ℕ × Inner Value F64
  ask_credential w = elim (checked w) [
    | err e ↦ (err e, w)
    | ok _ ↦
        request credential_status w.next_tx
          (with_pending (w.state.pending ++ (State.credential_status w.next_tx ∷ [])) (new_tx w))
  ]

  -- The entries of `open_kind` for the id that it was given.
  abbrev pub reserve_open : ℕ → ℕ → Inner Value F64 → Inner Value F64
  reserve_open id addr w =
      let s = w.state in
      record w {
        state = record s {
          reserved = add id s.reserved;
          pending_open = insert id (record { chan = addr; tx = w.next_tx }) s.pending_open;
        };
        next_tx = suc w.next_tx;
      }

  unfoldable pub open_with : Open → ℕ → Inner Value F64 → Result SessionError ℕ × Inner Value F64
  open_with o id w =
      let (addr, v) = new_chan id w in
      request (open_channel (record o { channel = id })) v.next_tx (reserve_open id addr v)

  -- `Session::open_kind`; the `channel` of the argument is not used.
  unfoldable pub open_kind : Open → Inner Value F64 → Result SessionError ℕ × Inner Value F64
  unfolding open_with new_chan
  open_kind o w = elim (checked w) [
    | err e ↦ (err e, w)
    | ok _ ↦
        let (r, s) = alloc w.state in
        elim r [
          | err e ↦ (err e, record w { state = s })
          | ok id ↦ open_with o id (record w { state = s })
        ]
  ]

  -- `Session::open_acp_checkout`
  unfoldable pub open_acp :
      Option Str
      → Option Str
      → Option Str
      → Option ChatCheckout
      → Inner Value F64
      → Result SessionError ℕ × Inner Value F64
  open_acp repo resume claude_token checkout w =
      if too_long repo max_repo_len || too_long resume max_resume_len
      then (
        err (open_rejected_code OpenErrorCode.invalid_request (text "repo or resume too long")),
        w,
      )
      else open_kind
          (record {
            channel = 0;
            kind = acp;
            cols = 0;
            rows = 0;
            command = none;
            repo = repo;
            resume = resume;
            claude_token = claude_token;
            checkout = checkout;
          })
          w
