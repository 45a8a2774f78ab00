-- ===== src/Session/Channel/Calls.antt =====
-- Any sequence of calls on a channel, by the driver and by both halves of its handle.
use enzarb.Base.{ℕ, ◌≤◌, Bool, List, [], ◌∷◌, length, arith}
use enzarb.Base.Text.{Str}
use enzarb.Frame.Types.{CloseInfo, initial_window}
use enzarb.Flow.{default}
use enzarb.Flow.Invariant.{new-IsValid}
use enzarb.Session.Errors.{SessionEnd}
use enzarb.Session.Channel.{
  ChanState, Effect, Done, new, on_data, on_window, on_close, abort, fail, close_local,
  poll_reserve,
}
use enzarb.Session.Channel.Halves.{ReadBuf, poll_item, poll_read_into, drop_receiver}
use enzarb.Session.Channel.Invariant.{
  IsValid, on_data-IsValid, on_window-IsValid, on_close-IsValid, abort-IsValid, fail-IsValid,
  close_local-IsValid, drop_receiver-IsValid,
}
use enzarb.Session.Channel.Reading.{poll_item-IsValid, poll_read_into-IsValid}
use enzarb.Session.Channel.Reserve.{poll_reserve-IsValid}

pub data Call : Type 0 where
  data_in : (is_json : Bool) (payload : List ℕ) → 1 ≤ length payload → Call
  window_in : ℕ → Call
  close_in : CloseInfo → Call
  aborts : Str → Call
  fails : SessionEnd → Call
  closes : (code : ℕ) (reason : Str) → Call
  reserves : (waker want : ℕ) (exact : Bool) → Call
  takes_item : (waker : ℕ) → Call
  reads : (waker : ℕ) → ReadBuf → Call
  drops_receiver : Call

abbrev pub outcome : {A : Type 0} → Done A → ChanState × List Effect
outcome d = (d.state, d.effects)

-- What a call leaves of the channel `id`, and what it does outside.
unfoldable pub apply : ℕ → Call → ChanState → ChanState × List Effect
apply id (data_in is_json payload _) st = outcome (on_data id is_json payload st)
apply id (window_in credit) st = outcome (on_window credit st)
apply id (close_in info) st = outcome (on_close info st)
apply id (aborts reason) st = outcome (abort id reason st)
apply id (fails end) st = outcome (fail end st)
apply id (closes code reason) st = outcome (close_local id code reason st)
apply id (reserves waker want exact) st = outcome (poll_reserve waker want exact st)
apply id (takes_item waker) st = outcome (poll_item id waker st)
apply id (reads waker buf) st = outcome (poll_read_into id waker buf st)
apply id drops_receiver st = outcome (drop_receiver id st)

unfoldable pub run : ℕ → List Call → ChanState → ChanState
run id [] st = st
run id (c ∷ cs) st = run id cs (apply id c st).0

apply-IsValid : (id : ℕ) (c : Call) (st : ChanState) → IsValid st → IsValid (apply id c st).0
unfolding apply
apply-IsValid id (data_in is_json payload h) st v = on_data-IsValid st v id is_json payload h
apply-IsValid id (window_in credit) st v = on_window-IsValid st v credit
apply-IsValid id (close_in info) st v = on_close-IsValid st v info
apply-IsValid id (aborts reason) st v = abort-IsValid st v id reason
apply-IsValid id (fails end) st v = fail-IsValid st v end
apply-IsValid id (closes code reason) st v = close_local-IsValid st v id code reason
apply-IsValid id (reserves waker want exact) st v = poll_reserve-IsValid waker want exact st v
apply-IsValid id (takes_item waker) st v = poll_item-IsValid st v id waker
apply-IsValid id (reads waker buf) st v = poll_read_into-IsValid st v id waker buf
apply-IsValid id drops_receiver st v = drop_receiver-IsValid st v id

run-IsValid : (id : ℕ) (cs : List Call) (st : ChanState) → IsValid st → IsValid (run id cs st)
unfolding run
run-IsValid id [] st v = v
run-IsValid id (c ∷ cs) st v = run-IsValid id cs (apply id c st).0 (apply-IsValid id c st v)

channel_new-IsValid : IsValid new
unfolding new default
channel_new-IsValid = record {
  flow_ok = new-IsValid initial_window initial_window (omega arith);
  held = omega arith;
  filled = tt;
}

-- After any calls on a new channel, its receive window is conserved, the bytes in the inbox are
-- received and unreleased ones, and no entry of the inbox is empty.
pub run-new-IsValid : (id : ℕ) (cs : List Call) → IsValid (run id cs new)
run-new-IsValid id cs = run-IsValid id cs new channel_new-IsValid
