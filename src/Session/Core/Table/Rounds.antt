-- ===== src/Session/Core/Table/Rounds.antt =====
-- session/core.rs: every round of the read loop keeps the tables consistent.
use enzarb.Base.{
  Bool, true, false, if◌then◌else◌, Option-cases, Result-cases, inl, inr, none, some, Result, ok,
  err,
}
use enzarb.Base.Text.{Str}
use enzarb.Base.Dict.{lookup}
use enzarb.Frame.Types.{Frame, FrameError, ctrl, data_bin, data_json, window, close}
use enzarb.Frame.Codec.{from_bytes, close_info}
use enzarb.Ctrl.Types.{Ctrl}
use enzarb.Ctrl.Json.{Serde, ctrl_message}
use enzarb.Session.Errors.{protocol, peer_closed, transport}
use enzarb.Ctrl.ErrorCode
use enzarb.Session.Core.Loops.{Message}
use enzarb.Session.Core.State.{Inner}
use enzarb.Session.Core.Outbound.{send_error, fatal}
use enzarb.Session.Core.Inbound.{
  data_frame, window_frame_in, close_frame_in, bad_ctrl, ctrl_in, handle_frame_by,
}
use enzarb.Session.Core.Loops.{
  read_round, handle_ctrl, handle_frame, bad_frame, binary_in, read_alive,
}
use enzarb.Session.Core.Table.{IsTable}
use enzarb.Session.Core.Table.Effects.{
  call-IsTable, finish-IsTable, send_error-IsTable, on_channel-IsTable,
}
use enzarb.Session.Core.Table.Messages.{handle_ctrl-IsTable}

module _ (J : Serde) where
  open J use {Value, F64}

  data_frame-IsTable :
      (is_json : Bool) (f : Frame) (w : Inner Value F64)
      → IsTable w.state
      → IsTable (data_frame J is_json f w).state
  unfolding data_frame
  data_frame-IsTable is_json f w t = elim (Option-cases (lookup f.channel w.state.channels)) [
    | inl n ↦ rw (n, data_frame) (send_error-IsTable J _ _ w t)
    | inr (addr, e) ↦ rw (e, data_frame) (on_channel-IsTable J addr _ w t)
  ]

  window_frame_in-IsTable :
      (f : Frame) (w : Inner Value F64) → IsTable w.state → IsTable (window_frame_in J f w).state
  unfolding window_frame_in
  window_frame_in-IsTable f w t = elim (Option-cases (lookup f.channel w.state.channels)) [
    | inl n ↦ rw (n, window_frame_in) t
    | inr (addr, e) ↦ rw (e, window_frame_in) (on_channel-IsTable J addr _ w t)
  ]

  close_frame_in-IsTable :
      (f : Frame) (w : Inner Value F64) → IsTable w.state → IsTable (close_frame_in J f w).state
  unfolding close_frame_in
  close_frame_in-IsTable f w t = elim (Option-cases (lookup f.channel w.state.channels)) [
    | inl n ↦ rw (n, close_frame_in) t
    | inr (addr, e) ↦ elim (Result-cases (close_info f)) [
      | inl (info, i) ↦ rw (e, i, close_frame_in) (call-IsTable addr _ w t)
      | inr (x, i) ↦ rw (e, i, close_frame_in) t
    ]
  ]

  ctrl_in-IsTable :
      (r : Result FrameError (Ctrl Value F64)) (w : Inner Value F64)
      → IsTable w.state
      → IsTable (ctrl_in J (handle_ctrl J) r w).state
  unfolding ctrl_in bad_ctrl
  ctrl_in-IsTable (ok m) w t = handle_ctrl-IsTable J m w t
  ctrl_in-IsTable (err e) w t = send_error-IsTable J _ _ w t

  handle_frame-IsTable :
      (f : Frame) (w : Inner Value F64) → IsTable w.state → IsTable (handle_frame J f w).state
  unfolding handle_frame handle_frame_by
  handle_frame-IsTable f w t =
      elim f.frame_type
        as (λ k.
          IsTable
            (elim k as (λ _. Inner Value F64) [
              | ctrl ↦ ctrl_in J (handle_ctrl J) (ctrl_message J f) w
              | data_bin ↦ data_frame J false f w
              | data_json ↦ data_frame J true f w
              | window ↦ window_frame_in J f w
              | close ↦ close_frame_in J f w
            ]).state) [
              | ctrl ↦ ctrl_in-IsTable (ctrl_message J f) w t
              | data_bin ↦ data_frame-IsTable false f w t
              | data_json ↦ data_frame-IsTable true f w t
              | window ↦ window_frame_in-IsTable f w t
              | close ↦ close_frame_in-IsTable f w t
            ]

  fatal-IsTable : (reason : Str) (w : Inner Value F64) → IsTable (fatal J reason w).state
  unfolding fatal
  fatal-IsTable reason w =
      finish-IsTable (protocol reason) (send_error J ErrorCode.protocol_violation reason w)

  binary_in-IsTable :
      (r : Result FrameError Frame) (w : Inner Value F64)
      → IsTable w.state
      → IsTable (binary_in J r w).1.state
  unfolding binary_in bad_frame
  binary_in-IsTable (ok f) w t = handle_frame-IsTable f w t
  binary_in-IsTable (err e) w t = fatal-IsTable _ w

  read_alive-IsTable :
      (m : Message) (w : Inner Value F64) → IsTable w.state → IsTable (read_alive J m w).1.state
  unfolding read_alive
  read_alive-IsTable Message.ended w t = finish-IsTable peer_closed w
  read_alive-IsTable Message.closing w t = finish-IsTable peer_closed w
  read_alive-IsTable (Message.failed e) w t = finish-IsTable (transport e) w
  read_alive-IsTable (Message.binary b) w t = binary_in-IsTable (from_bytes b) w t
  read_alive-IsTable Message.text_message w t = fatal-IsTable _ w
  read_alive-IsTable Message.ping w t = t

  picked_round :
      (picked : Bool) (m : Message) (w : Inner Value F64)
      → IsTable w.state
      → IsTable (if picked then read_alive J m w else (false, w)).1.state
  picked_round true m w t = read_alive-IsTable m w t
  picked_round false m w t = t

  -- A round of the read loop, whatever arrives, on either side, before or after the session's end and whichever branch
  -- `select!` takes there, keeps the tables consistent: no id is 0, no id is both reserved and a channel, and an open that waits has its id reserved.
  pub read_round-IsTable :
      (picked : Bool) (m : Message) (w : Inner Value F64)
      → IsTable w.state
      → IsTable (read_round J picked m w).1.state
  unfolding read_round
  read_round-IsTable picked m w t =
      elim w.end
        as (λ k.
          IsTable
            (elim k as (λ _. Bool × Inner Value F64) [
              | some e ↦ if picked then read_alive J m w else (false, w)
              | none ↦ read_alive J m w
            ]).1.state) [ some e ↦ picked_round picked m w t | none ↦ read_alive-IsTable m w t ]
