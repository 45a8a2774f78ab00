-- ===== src/Session/Core/Server.antt =====
-- session/core.rs: the server's side, the `open` requests and the messages that go to `Events`.
use enzarb.Base.{
  ℕ, suc, Bool, true, false, ◌||◌, Option, none, some, [], ◌∷◌, ◌++◌, ltb, ◌==◌, if◌then◌else◌,
  Result, ok, err, is_some, length,
}
use enzarb.Base.Text.{Str, text, show}
use enzarb.Base.Dict.{lookup, insert, add, remove}
use enzarb.Ctrl.Types.{
  Open, ChannelKind, unknown, opened, open_error, resize, max_repo_len, max_resume_len,
}
use enzarb.Ctrl.Json.{Serde}
use enzarb.Ctrl.ErrorCode
use enzarb.Ctrl.OpenErrorCode
use enzarb.Session.Errors.{SessionError}
use enzarb.Session.Channel.{new}
use enzarb.Session.Core.State.{Inner, State, Event, open_event, ctrl_event, in_use}
use enzarb.Session.Core.Outbound.{
  update, check_alive, send_ctrl, send_error, reject_open, from_inner, drop_session,
}

module _ {Value F64 : Type 0} where
  -- `events.send(e)`
  unfoldable pub emit : Event Value F64 → Inner Value F64 → Inner Value F64
  emit e w = if w.events_open then record w { events = w.events ++ (e ∷ []) } else w

  -- `Chan::new`: the address of the new channel.
  unfoldable pub new_chan : ℕ → Inner Value F64 → ℕ × Inner Value F64
  new_chan id w = (
    w.next_addr,
    record w {
      heap = update w.heap w.next_addr (record { id = id; st = new });
      next_addr = suc w.next_addr;
    },
  )

abbrev pub too_long : Option Str → ℕ → Bool
too_long none n = false
too_long (some s) n = ltb n (length s)

abbrev pub is_unknown : ChannelKind → Bool
is_unknown unknown = true
is_unknown _ = false

module _ (J : Serde) where
  open J use {Value, F64}

  abbrev refuse : ℕ → Str → Option Str → Inner Value F64 → Inner Value F64
  refuse channel message code w = (send_ctrl J (open_error channel message code) w).1

  -- `drop` of an `OpenRequest` that was neither accepted nor rejected.
  unfoldable pub drop_request : Open → Inner Value F64 → Inner Value F64
  drop_request o w =
      drop_session (reject_open J o.channel (text "open request was not handled") none w)

  -- `emit(Event::Open(..))`, given whether the receiver is there: a request that nobody receives is dropped.
  unfoldable pub hand_over : Bool → Open → Inner Value F64 → Inner Value F64
  unfolding emit drop_request
  hand_over true o w = emit (open_event o) w
  hand_over false o w = drop_request o w

  -- The id of an `open` that passed its checks is reserved, unless it is in use.
  unfoldable pub admit_open : Open → Inner Value F64 → Inner Value F64
  unfolding hand_over
  admit_open o w =
      let v =
        from_inner
          (record w { state = record w.state { reserved = add o.channel w.state.reserved } }) in
      if o.channel == 0 || in_use w.state o.channel
      then refuse o.channel
          (if o.channel == 0 then text "channel 0 is reserved" else text "channel already in use")
          none w
      else hand_over w.events_open o v

  -- `Ctrl::Open` at the server.
  unfoldable pub handle_open : Open → Inner Value F64 → Inner Value F64
  unfolding admit_open
  handle_open o w =
      if is_unknown o.kind
      then refuse o.channel (text "unsupported channel kind") (some OpenErrorCode.unsupported_kind)
          w
      else if too_long o.repo max_repo_len || too_long o.resume max_resume_len
      then refuse o.channel (text "repo or resume too long") (some OpenErrorCode.invalid_request) w
      else admit_open o w

  -- `Ctrl::Resize` at the server.
  unfoldable pub handle_resize : ℕ → ℕ → ℕ → Inner Value F64 → Inner Value F64
  unfolding emit
  handle_resize channel cols rows w =
      if is_some (lookup channel w.state.channels)
      then emit (ctrl_event (resize channel cols rows)) w
      else send_error J ErrorCode.unknown_channel
          (text "resize for unknown channel " ++ show channel) w

  abbrev registered : ℕ → ℕ → State → State
  registered channel addr s = record s {
    reserved = remove channel s.reserved;
    channels = insert channel addr s.channels;
  }

  accept_alive : ℕ → ℕ → Inner Value F64 → Result SessionError ℕ × Inner Value F64
  accept_alive channel addr w =
      let (r, v) =
        send_ctrl J (opened channel) (record w { state = registered channel addr w.state }) in
      (elim r [ ok _ ↦ ok addr | err e ↦ err e ], v)

  accept_checked :
      Result SessionError (Unit {0})
      → ℕ
      → ℕ
      → Inner Value F64
      → Result SessionError ℕ × Inner Value F64
  unfolding accept_alive
  accept_checked (err e) channel addr w = (err e, w)
  accept_checked (ok _) channel addr w = accept_alive channel addr w

  -- `OpenRequest::accept`: the address of the channel that the handle is for. The request, and the
  -- session that it holds, is dropped at the end.
  unfoldable pub accept : Open → Inner Value F64 → Result SessionError ℕ × Inner Value F64
  unfolding accept_checked new_chan
  accept o w =
      let (addr, v) = new_chan o.channel w in
      let (r, u) = accept_checked (check_alive v) o.channel addr v in (r, drop_session u)

  -- `OpenRequest::reject` and `reject_with_code`.
  unfoldable pub reject : Open → Str → Option Str → Inner Value F64 → Inner Value F64
  reject o message code w = drop_session (reject_open J o.channel message code w)
