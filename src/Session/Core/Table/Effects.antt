-- ===== src/Session/Core/Table/Effects.antt =====
-- session/core.rs: what is sent, the effects of a channel and the end of the session keep the tables consistent.
use enzarb.Base.{
  ◌==◌, ◌-◌, ℕ, ◌≡◌, refl, ap, Bool-cases, Option-cases, Result-cases, inl, inr, Option, none, List,
  [], ◌∷◌, ◌++◌, ◌==◌, Result, ok, err, ◌>>=◌,
}
use enzarb.Base.Text.{Str, text}
use enzarb.Base.Dict.{lookup}
use enzarb.Frame.Codec.{to_bytes}
use enzarb.Ctrl.Types.{Ctrl, error}
use enzarb.Ctrl.Json.{Serde, ctrl_frame}
use enzarb.Session.Errors.{SessionEnd, SessionError, remote}
use enzarb.Session.Channel.{Effect, sends, wakes, forgets, ChanState, Done, close_local}
use enzarb.Session.Core.State
use enzarb.Flow.{FlowError}
use enzarb.Session.Core.State.{Inner, State, Out, Event, close, Pending, PendingOpen, frame, in_use}
use enzarb.Frame.CloseCode
use enzarb.Session.Core.Server.{emit}
use enzarb.Session.Core.Outbound.{
  close_channels, begin_close, drop_session, update, send_out, forget_channel, run_effects, call,
  send_ctrl, send_frame, send_error, reply, fail_pending, finish,
}
use enzarb.Session.Core.Inbound.{attributed, attribute_error, or_violation, violation}
use enzarb.Session.Core.Finish.{finish-ends}
use enzarb.Session.Core.Dispatch.{send_out-SameButOut}
use enzarb.Session.Core.Table.{IsTable, emptied-IsTable, forgotten-IsTable, pending-IsTable}

abbrev pub same : {s t : State} → s ≡ t → IsTable t → IsTable s
same e t = rw (e) t

module _ {Value F64 : Type 0} where
  forget_channel-IsTable :
      (addr : ℕ) (w : Inner Value F64) → IsTable w.state → IsTable (forget_channel addr w).state
  unfolding forget_channel
  forget_channel-IsTable addr w t =
      let forgotten = forgotten-IsTable (w.heap addr).id w.state t in
      elim (Option-cases (lookup (w.heap addr).id w.state.channels)) [
        | inl n ↦ rw (n, forget_channel) t
        | inr (a, e) ↦ elim (Bool-cases (a == addr)) [
          | inl y ↦ rw (e, y, forget_channel) forgotten
          | inr n ↦ rw (e, n, forget_channel) t
        ]
      ]

  run_effects-IsTable :
      (addr : ℕ) (es : List Effect) (w : Inner Value F64)
      → IsTable w.state
      → IsTable (run_effects addr es w).state
  unfolding run_effects
  run_effects-IsTable addr [] w t = t
  run_effects-IsTable addr (sends b ∷ es) w t =
      run_effects-IsTable addr es (send_out (frame b) w)
        (same (ap (λ v. v.state) (send_out-SameButOut (frame b) w)) t)
  run_effects-IsTable addr (wakes i ∷ es) w t =
      run_effects-IsTable addr es (record w { woken = w.woken ++ (i ∷ []) }) t
  run_effects-IsTable addr (forgets ∷ es) w t =
      run_effects-IsTable addr es (forget_channel addr w) (forget_channel-IsTable addr w t)

  pub call-IsTable :
      {A : Type 0} (addr : ℕ) (op : ℕ → ChanState → Done A) (w : Inner Value F64)
      → IsTable w.state
      → IsTable (call addr op w).1.state
  unfolding call
  call-IsTable addr op w t =
      let d = op (w.heap addr).id (w.heap addr).st in
      run_effects-IsTable addr d.effects
        (record w { heap = update w.heap addr (record (w.heap addr) { st = d.state }) }) t

  close_channels-IsTable :
      (cs : List (ℕ × ℕ)) (w : Inner Value F64)
      → IsTable w.state
      → IsTable (close_channels cs w).state
  unfolding close_channels
  close_channels-IsTable [] w t = t
  close_channels-IsTable (c ∷ cs) w t =
      close_channels-IsTable cs
        (call c.1 (λ id. close_local id CloseCode.going_away (text "going away")) w).1
        (call-IsTable c.1 (λ id. close_local id CloseCode.going_away (text "going away")) w t)

  begin_close-IsTable : (w : Inner Value F64) → IsTable w.state → IsTable (begin_close w).state
  unfolding begin_close
  begin_close-IsTable w t =
      let v = close_channels w.state.channels w in
      same (ap (λ u. u.state) (send_out-SameButOut close v))
        (close_channels-IsTable w.state.channels w t)

  pub drop_session-IsTable :
      (w : Inner Value F64) → IsTable w.state → IsTable (drop_session w).state
  unfolding drop_session
  drop_session-IsTable w t =
      let v = record w { handles = w.handles - 1 } in
      elim (Bool-cases (w.handles == 1)) [
        | inl y ↦ rw (y, drop_session) (begin_close-IsTable v t)
        | inr n ↦ rw (n, drop_session) t
      ]

  pub emit-IsTable :
      (e : Event Value F64) (w : Inner Value F64) → IsTable w.state → IsTable (emit e w).state
  unfolding emit
  emit-IsTable e w t = elim (Bool-cases w.events_open) [
    | inl y ↦ rw (y, emit) t
    | inr n ↦ rw (n, emit) t
  ]

  fail_pending-state :
      (p : Pending) (e : SessionError) (w : Inner Value F64) → (fail_pending p e w).state ≡ w.state
  unfolding fail_pending reply
  fail_pending-state (State.step_start _ _) e w = refl
  fail_pending-state (State.step_status _ _) e w = refl
  fail_pending-state (State.credential_status _) e w = refl

  pub finish-IsTable : (why : SessionEnd) (w : Inner Value F64) → IsTable (finish why w).state
  finish-IsTable why w = same (finish-ends why w).1 (emptied-IsTable w.state)

  pub attribute_error-IsTable :
      (code message : Str) (run_id : Option Str) (w : Inner Value F64)
      → IsTable w.state
      → IsTable (attribute_error code message run_id w).1.state
  unfolding attribute_error
  attribute_error-IsTable code message run_id w t =
      let kept = pending-IsTable (attributed code run_id w.state.pending).1 w.state t in
      let v = record w {
        state = record w.state { pending = (attributed code run_id w.state.pending).1 };
      } in
      elim (Option-cases (attributed code run_id w.state.pending).0) [
        | inl n ↦ rw (n, attribute_error) kept
        | inr (p, e) ↦
            rw (e, attribute_error) (same (fail_pending-state p (remote code message) v) kept)
      ]

module _ (J : Serde) where
  open J use {Value, F64}

  pub send_ctrl-state :
      (m : Ctrl Value F64) (w : Inner Value F64) → (send_ctrl J m w).1.state ≡ w.state
  unfolding send_ctrl send_frame
  send_ctrl-state m w = elim (Result-cases (ctrl_frame J m >>= to_bytes)) [
    | inl (b, e) ↦
        rw (e, send_ctrl, send_frame) (ap (λ v. v.state) (send_out-SameButOut (frame b) w))
    | inr (x, e) ↦ rw (e, send_ctrl, send_frame) refl
  ]

  pub send_error-IsTable :
      (code msg : Str) (w : Inner Value F64)
      → IsTable w.state
      → IsTable (send_error J code msg w).state
  unfolding send_error
  send_error-IsTable code msg w t = same (send_ctrl-state (error code msg none none) w) t

  pub violation-IsTable :
      (addr : ℕ) (code msg : Str) (w : Inner Value F64)
      → IsTable w.state
      → IsTable (violation J addr code msg w).state
  unfolding violation
  violation-IsTable addr code msg w t = call-IsTable addr _ _ (send_error-IsTable _ _ w t)

  pub or_violation-IsTable :
      (addr : ℕ) (r : Result FlowError (Unit {0})) (w : Inner Value F64)
      → IsTable w.state
      → IsTable (or_violation J addr (r, w)).state
  unfolding or_violation
  or_violation-IsTable addr (ok _) w t = t
  or_violation-IsTable addr (err e) w t = violation-IsTable addr _ _ w t

  pub on_channel-IsTable :
      (addr : ℕ) (op : ℕ → ChanState → Done (Result FlowError (Unit {0}))) (w : Inner Value F64)
      → IsTable w.state
      → IsTable (or_violation J addr (call addr op w)).state
  on_channel-IsTable addr op w t =
      or_violation-IsTable addr (call addr op w).0 (call addr op w).1 (call-IsTable addr op w t)
