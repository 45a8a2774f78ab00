-- ===== src/Examples/Sessions.antt =====
-- session/core.rs: a server with a channel, a client that waits, and a serialiser of one text.
use enzarb.Base.{
  true, ◌≡◌, ◌⊎◌, refl, arith, true, false, none, some, List, [], ◌∷◌, ◌++◌, map, if◌then◌else◌,
  ◌==◌, ok, err, ◌+◌, length,
}
use enzarb.Base.Text.{Str, text}
use enzarb.Base.Dict.{mem}
use enzarb.Frame.Types.{max_payload_len, payload_too_large}
use enzarb.Frame.Codec.{to_bytes, validate}
use enzarb.Frame.Codec.{new as new_frame}
use enzarb.Examples.Channels.{zeros, length-zeros}
use enzarb.Ctrl.Types
use enzarb.Examples.Ctrls.{step}
use enzarb.Ctrl.Types.{Ctrl, hello, stats, opened, Open, pty}
use enzarb.Ctrl.Json.{Serde, ctrl_bytes}
use enzarb.Ctrl.Direction.{direction}
use enzarb.Session.Errors.{Role, client, server, ended, peer_closed, frame_failed, remote}
use enzarb.Session.Channel.{new}
use enzarb.Session.Core.State.{Inner, State, Pending, step_start, in_use, next_after, alloc}
use enzarb.Session.Core.Outbound.{emptied, finish, fail_pending}
use enzarb.Session.Core.Inbound.{attribute_error, of_run}
use enzarb.Session.Core.Loops.{read_round, handle_server}
use enzarb.Session.Core.Loops
use enzarb.Session.Core.Client.{open_kind, start_step}
use enzarb.Session.Core.Alloc.{IsFresh, alloc-ok}
use enzarb.Session.Core.Dispatch.{Answered, IsForeign, handle_server-foreign}
use enzarb.Session.Core.Finish.{opens_told, pending_told, finish-ends}
use enzarb.Session.Core.Routing.{IsFirst, AllFail, attribute_error-run, start_step_leaves}
use enzarb.Session.Core.Table.{IsTable}
use enzarb.Session.Core.Table.Rounds.{read_round-IsTable}
use enzarb.Session.Core.Table.Users.{open_kind-IsTable}

-- Channel 2 is open, 5 is reserved, and a `step_start` of run 9 waits.
abbrev tables : State
tables = record {
  channels = (2, 0) ∷ [];
  reserved = 5 ∷ [];
  pending_open = (5, record { chan = 1; tx = 1 }) ∷ [];
  pending = step_start (57 ∷ []) 0 ∷ [];
  next_id = 1;
}

abbrev session : Role → Inner (Unit {0}) (Unit {0})
session role = record {
  role = role;
  state = tables;
  end = none;
  handles = 1;
  heap = λ a. record { id = if a == 0 then 2 else 5; st = new };
  next_addr = 2;
  next_tx = 2;
  out = [];
  out_open = true;
  events = [];
  events_open = true;
  replies = [];
  gone = [];
  woken = [];
}

abbrev failing : Serde
failing = record {
  Value = Unit {0};
  F64 = Unit {0};
  to_vec = λ m. err (text "no");
  from_slice = λ v. err (text "no");
}

tables-IsTable : IsTable tables
unfolding in_use
tables-IsTable = record {
  nonzero = λ id h. ground arith;
  apart = λ id h. ground arith;
  waiting = λ id h. ground arith;
}

read_round-IsTable_example :
    IsTable (read_round failing true (Loops.binary (9 ∷ [])) (session client)).1.state
read_round-IsTable_example =
    read_round-IsTable failing true (Loops.binary (9 ∷ [])) (session client) tables-IsTable

finish-ends_example :
    ((finish peer_closed (session client)).end ≡ some peer_closed)
    × ((finish peer_closed (session client)).state ≡ emptied tables)
    × ((finish peer_closed (session client)).replies
        ≡ []
          ++ (opens_told peer_closed tables.pending_open
              ++ map (pending_told (ended peer_closed)) tables.pending))
finish-ends_example = finish-ends peer_closed (session client)

tables-alloc : (alloc tables).0 ≡ ok 3
unfolding alloc in_use next_after
tables-alloc = refl

alloc-ok_example : IsFresh tables 3 × ((alloc tables).1 ≡ record tables { next_id = 3 })
alloc-ok_example = alloc-ok tables 3 (omega arith) tables-alloc

attribute_error-run_example :
    let w = session client in
    ((x : Pending) × (rest : List Pending) × IsFirst (of_run (57 ∷ [])) x rest w.state.pending
      × (attribute_error [] [] (some (57 ∷ [])) w ≡ (
        true,
        fail_pending x (remote [] []) (record w { state = record w.state { pending = rest } }),
      )))
    ⊎ (AllFail (of_run (57 ∷ [])) w.state.pending
        × (attribute_error [] [] (some (57 ∷ [])) w ≡ (false, w)))
attribute_error-run_example = attribute_error-run [] [] (57 ∷ []) (session client)

opened-IsForeign : IsForeign (direction {Value = Unit {0}} {F64 = Unit {0}} (opened 3))
unfolding direction
opened-IsForeign = tt

-- A serialiser that writes every message as `{}`.
abbrev braces : Serde
braces = record {
  Value = Unit {0};
  F64 = Unit {0};
  to_vec = λ m. ok (text "{}");
  from_slice = λ v. err (text "no");
}

handle_server-foreign_example :
    (msg : Str) × Answered braces
      (text "protocol_violation")
      msg
      (session server)
      (handle_server braces (opened 3) (session server))
handle_server-foreign_example =
    handle_server-foreign braces (opened 3) (session server) opened-IsForeign

abbrev shell : Open
shell = record {
  channel = 0;
  kind = pty;
  cols = 80;
  rows = 24;
  command = none;
  repo = none;
  resume = none;
  claude_token = none;
  checkout = none;
}

open_kind-IsTable_example : IsTable (open_kind failing shell (session client)).1.state
open_kind-IsTable_example =
    open_kind-IsTable failing shell (session client) (omega arith) tables-IsTable

-- A serialiser whose messages exceed the largest payload by a byte.
abbrev huge : Serde
huge = record {
  Value = Unit {0};
  F64 = Unit {0};
  to_vec = λ m. ok (zeros (max_payload_len + 1));
  from_slice = λ v. err (text "no");
}

too_large :
    ctrl_bytes huge (Types.step_start step)
    ≡ err (payload_too_large (length (zeros (max_payload_len + 1))))
unfolding ctrl_bytes new_frame to_bytes validate
too_large = ground (arith, length-zeros (max_payload_len + 1))

start_step_leaves_example :
    let r = start_step huge step (session client) in
    (r.0 ≡ err (frame_failed (payload_too_large (length (zeros (max_payload_len + 1))))))
    × (r.1.out ≡ [])
    × (r.1.state.pending ≡ tables.pending ++ (step_start step.run_id 2 ∷ []))
    × (mem 2 r.1.gone ≡ true)
start_step_leaves_example =
    start_step_leaves huge step (payload_too_large (length (zeros (max_payload_len + 1))))
      (session client) refl refl too_large
