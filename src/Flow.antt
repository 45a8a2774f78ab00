-- ===== src/Flow.antt =====
-- flow.rs: the flow-control state of one channel at one endpoint.
-- Every u64 sum is taken modulo 2^64, and `g as u32` modulo 2^32. A method that changes the state
-- returns the new one; each error is returned before anything is changed.
pub mod Invariant
pub mod Link
pub mod Methods
pub mod Safety
pub mod Progress
use enzarb.Base.{
  ℕ, ◌+◌, ◌-◌, ◌/◌, ◌%◌, ◌^◌, min, max, Bool, true, false, not, ◌&&◌, ◌||◌, Option, none, some, ltb,
  ◌==◌, if◌then◌else◌, Result, ok, err, ◌>>=◌, ◌>>◌, fail_if, ◌++◌,
}
use enzarb.Base.Text.{Str, text, show}
use enzarb.Frame.Types.{max_credit, initial_window}

pub data FlowError : Type 0 where
  insufficient_credit : ℕ → ℕ → FlowError
  local_closed already_closed : FlowError
  overrun : ℕ → ℕ → FlowError
  data_after_close credit_overflow release_underflow : FlowError

-- `Display` of a `FlowError`.
unfoldable pub display : FlowError → Str
display (insufficient_credit needed available) =
    text "send of " ++ (show needed ++ (text " bytes exceeds credit " ++ show available))
display local_closed = text "send after local close"
display already_closed = text "local side already closed"
display (overrun got granted) =
    text "peer sent "
    ++ (show got ++ (text " bytes with only " ++ (show granted ++ text " granted")))
display data_after_close = text "data after peer close"
display credit_overflow = text "window grant would push credit past 2^31-1"
display release_underflow = text "released more bytes than were received"

pub record FlowControl : Type 0 where
  pub send_credit : ℕ
  pub recv_granted : ℕ
  pub recv_unreleased : ℕ
  pub pending_grant : ℕ
  pub grant_threshold : ℕ
  pub local_closed : Bool
  pub remote_closed : Bool

abbrev add64 : ℕ → ℕ → ℕ
add64 a b = (a + b) % 2 ^ 64

unfoldable pub new : ℕ → ℕ → FlowControl
new initial_send initial_recv = record {
  send_credit = min initial_send max_credit;
  recv_granted = min initial_recv max_credit;
  recv_unreleased = 0;
  pending_grant = 0;
  grant_threshold = max (initial_recv / 2) 1;
  local_closed = false;
  remote_closed = false;
}

-- `FlowControl::default`
unfoldable pub default : FlowControl
unfolding new
default = new initial_window initial_window

unfoldable pub sendable : FlowControl → ℕ → ℕ
sendable c want = if c.local_closed then 0 else min c.send_credit want

unfoldable pub on_send : FlowControl → ℕ → Result FlowError FlowControl
on_send c len = do
  fail_if c.local_closed local_closed
  fail_if (ltb c.send_credit len) (insufficient_credit len c.send_credit)
  ok (record c { send_credit = c.send_credit - len })

unfoldable pub on_window : FlowControl → ℕ → Result FlowError FlowControl
on_window c credit =
    if c.local_closed
    then ok c
    else let total = add64 c.send_credit credit in
      (fail_if (ltb max_credit total) credit_overflow >> ok (record c { send_credit = total }))

unfoldable pub close_local : FlowControl → Result FlowError FlowControl
close_local c = do
  fail_if c.local_closed already_closed
  ok (record c { local_closed = true; send_credit = 0 })

unfoldable pub on_data : FlowControl → ℕ → Result FlowError FlowControl
on_data c len = do
  fail_if c.remote_closed data_after_close
  fail_if (ltb c.recv_granted len) (overrun len c.recv_granted)
  ok (record c {
    recv_granted = c.recv_granted - len;
    recv_unreleased = add64 c.recv_unreleased len;
  })

unfoldable pub take_grant : FlowControl → FlowControl × Option ℕ
take_grant c =
    if c.pending_grant == 0
    then (c, none)
    else let g = c.pending_grant in
      (record c { pending_grant = 0; recv_granted = add64 c.recv_granted g }, some (g % 2 ^ 32))

-- The state of `release` behind its two assignments.
abbrev released : FlowControl → ℕ → FlowControl
released c len = record c {
  recv_unreleased = c.recv_unreleased - len;
  pending_grant = add64 c.pending_grant len;
}

unfoldable pub release : FlowControl → ℕ → Result FlowError (FlowControl × Option ℕ)
unfolding take_grant
release c len = do
  fail_if (ltb c.recv_unreleased len) release_underflow
  let c' = released c len
  ok (
      if c'.remote_closed || ltb c'.pending_grant c'.grant_threshold
      then (c', none)
      else take_grant c')

unfoldable pub flush_grant : FlowControl → FlowControl × Option ℕ
unfolding take_grant
flush_grant c = if c.remote_closed then (c, none) else take_grant c

unfoldable pub on_close_remote : FlowControl → FlowControl
on_close_remote c = record c { remote_closed = true }

unfoldable pub is_closed : FlowControl → Bool
is_closed c = c.local_closed && c.remote_closed

unfoldable pub is_local_closed : FlowControl → Bool
is_local_closed c = c.local_closed

unfoldable pub is_remote_closed : FlowControl → Bool
is_remote_closed c = c.remote_closed
