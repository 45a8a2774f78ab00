-- ===== src/Session/Core/Outbound.antt =====
-- session/core.rs: what a session sends, and how it ends.
use enzarb.Base.{
  ℕ, suc, ◌-◌, Option, none, some, List, [], ◌∷◌, ◌++◌, ◌==◌, if◌then◌else◌, Result, ok, err, ◌>>=◌,
  is_some,
}
use enzarb.Base.Text.{Str, text}
use enzarb.Base.Dict.{lookup, erase, remove}
use enzarb.Frame.CloseCode
use enzarb.Frame.Types.{Frame, FrameError}
use enzarb.Frame.Codec.{to_bytes}
use enzarb.Ctrl.Types.{Ctrl, error, open_error}
use enzarb.Ctrl.Json.{Serde, ctrl_frame}
use enzarb.Ctrl.ErrorCode
use enzarb.Session.Errors.{SessionEnd, closed, protocol, SessionError, ended, frame_failed}
use enzarb.Session.Channel.{ChanState, Effect, sends, wakes, forgets, Done, fail, close_local}
use enzarb.Session.Core.State.{
  Inner, State, Chan, PendingOpen, Pending, step_start, step_status, credential_status, Reply,
  opened, accepted, status, credential, Out, frame, close,
}

abbrev pub update : (ℕ → Chan) → ℕ → Chan → ℕ → Chan
update heap a c b = if b == a then c else heap b

abbrev pub unwrap_or : Option SessionEnd → SessionEnd → SessionEnd
unwrap_or none d = d
unwrap_or (some e) d = e

-- The state that `finish` leaves behind its lock: the tables are taken.
abbrev pub emptied : State → State
emptied s = record s { channels = []; reserved = []; pending_open = []; pending = [] }

module _ {Value F64 : Type 0} where
  -- `out.send(o)`: whether the writer still receives, and the queue behind it.
  unfoldable pub send_out : Out → Inner Value F64 → Inner Value F64
  send_out o w = if w.out_open then record w { out = w.out ++ (o ∷ []) } else w

  -- `Inner::forget_channel`: only the table's own entry for this very channel goes.
  unfoldable pub forget_channel : ℕ → Inner Value F64 → Inner Value F64
  forget_channel addr w =
      let id = (w.heap addr).id in
      elim (lookup id w.state.channels) [
        | none ↦ w
        | some a ↦
            if a == addr
            then record w { state = record w.state { channels = erase id w.state.channels } }
            else w
      ]

  -- What an operation on the channel at an address did outside of it.
  unfoldable pub run_effects : ℕ → List Effect → Inner Value F64 → Inner Value F64
  unfolding send_out forget_channel
  run_effects addr [] w = w
  run_effects addr (sends b ∷ es) w = run_effects addr es (send_out (frame b) w)
  run_effects addr (wakes t ∷ es) w = run_effects addr es (record w { woken = w.woken ++ (t ∷ []) })
  run_effects addr (forgets ∷ es) w = run_effects addr es (forget_channel addr w)

  -- An operation of the channel at an address.
  unfoldable pub call :
      {A : Type 0} → ℕ → (ℕ → ChanState → Done A) → Inner Value F64 → A × Inner Value F64
  unfolding run_effects
  call addr op w =
      let c = w.heap addr in
      let d = op c.id c.st in
      (
        d.value,
        run_effects addr d.effects
            (record w { heap = update w.heap addr (record c { st = d.state }) }),
      )

  -- `Inner::ended`
  unfoldable pub ended_error : Inner Value F64 → SessionError
  ended_error w = ended (unwrap_or w.end closed)

  -- `Inner::check_alive`
  unfoldable pub check_alive : Inner Value F64 → Result SessionError (Unit {0})
  unfolding ended_error
  check_alive w = if is_some w.end then err (ended_error w) else ok tt

  -- `Inner::send_frame`
  unfoldable pub send_frame :
      Result FrameError Frame → Inner Value F64 → Result SessionError (Unit {0}) × Inner Value F64
  unfolding send_out ended_error
  send_frame f w = elim (f >>= to_bytes) [
    | err e ↦ (err (frame_failed e), w)
    | ok b ↦ (if w.out_open then ok tt else err (ended_error w), send_out (frame b) w)
  ]

  -- `tx.send(..)` of a oneshot: its receiver gets the value, unless it is gone.
  unfoldable pub reply : ℕ → Reply Value F64 → Inner Value F64 → Inner Value F64
  reply tx r w = record w { replies = w.replies ++ ((tx, r) ∷ []) }

  -- `Pending::fail`
  unfoldable pub fail_pending : Pending → SessionError → Inner Value F64 → Inner Value F64
  unfolding reply
  fail_pending (step_start _ tx) e w = reply tx (accepted (err e)) w
  fail_pending (step_status _ tx) e w = reply tx (status (err e)) w
  fail_pending (credential_status tx) e w = reply tx (credential (err e)) w

  -- The three loops of `finish`.
  unfoldable pub fail_channels : SessionEnd → List (ℕ × ℕ) → Inner Value F64 → Inner Value F64
  fail_channels end [] w = w
  fail_channels end (c ∷ cs) w = fail_channels end cs (call c.1 (λ _. fail end) w).1

  unfoldable pub fail_opens :
      SessionEnd → List (ℕ × PendingOpen) → Inner Value F64 → Inner Value F64
  unfolding reply
  fail_opens end [] w = w
  fail_opens end (p ∷ ps) w =
      fail_opens end ps
        (reply p.1.tx (opened (err (ended end))) (call p.1.chan (λ _. fail end) w).1)

  unfoldable pub fail_all : SessionEnd → List Pending → Inner Value F64 → Inner Value F64
  unfolding fail_pending
  fail_all end [] w = w
  fail_all end (p ∷ ps) w = fail_all end ps (fail_pending p (ended end) w)

  -- `Inner::finish`
  unfoldable pub finish : SessionEnd → Inner Value F64 → Inner Value F64
  unfolding fail_channels fail_opens fail_all send_out
  finish why w =
      let end = unwrap_or w.end why in
      let s = w.state in
      send_out close (
        fail_all end s.pending (
          fail_opens end s.pending_open
            (fail_channels end s.channels (record w { end = some end; state = emptied s }))))

  -- The loop of `begin_close`, over the channels that were open when it began.
  unfoldable pub close_channels : List (ℕ × ℕ) → Inner Value F64 → Inner Value F64
  close_channels [] w = w
  close_channels (c ∷ cs) w =
      close_channels cs
        (call c.1 (λ id. close_local id CloseCode.going_away (text "going away")) w).1

  -- `Inner::begin_close`
  unfoldable pub begin_close : Inner Value F64 → Inner Value F64
  unfolding close_channels send_out
  begin_close w = send_out close (close_channels w.state.channels w)

  -- `Session::from_inner` and `drop` of a `Session`.
  unfoldable pub from_inner : Inner Value F64 → Inner Value F64
  from_inner w = record w { handles = suc w.handles }

  unfoldable pub drop_session : Inner Value F64 → Inner Value F64
  unfolding begin_close
  drop_session w =
      let v = record w { handles = w.handles - 1 } in if w.handles == 1 then begin_close v else v

module _ (J : Serde) where
  open J use {Value, F64}

  -- `Inner::send_ctrl`
  unfoldable pub send_ctrl :
      Ctrl Value F64 → Inner Value F64 → Result SessionError (Unit {0}) × Inner Value F64
  unfolding send_frame
  send_ctrl m w = send_frame (ctrl_frame J m) w

  -- `Inner::send_error`
  unfoldable pub send_error : Str → Str → Inner Value F64 → Inner Value F64
  unfolding send_ctrl
  send_error code message w = (send_ctrl (error code message none none) w).1

  -- `Inner::reject_open`
  unfoldable pub reject_open : ℕ → Str → Option Str → Inner Value F64 → Inner Value F64
  unfolding send_ctrl
  reject_open channel message code w =
      (send_ctrl (open_error channel message code)
        (record w { state = record w.state { reserved = remove channel w.state.reserved } })).1

  -- `Inner::fatal`
  unfoldable pub fatal : Str → Inner Value F64 → Inner Value F64
  unfolding send_error finish
  fatal reason w = finish (protocol reason) (send_error ErrorCode.protocol_violation reason w)
