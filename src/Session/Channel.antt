-- ===== src/Session/Channel.antt =====
-- session/channel.rs: the state of one data channel and its operations.
-- A task that waits is a number (its waker), `Poll` is what a poll function returns, and an
-- operation returns the new state with what it did outside of it, in order: bytes put on the
-- session's out queue, a waker woken, the channel dropped from the session's table.
pub mod Halves
pub mod Invariant
pub mod Wakers
pub mod Reading
pub mod Order
pub mod Reserve
pub mod Sending
pub mod Calls
pub mod Json
use enzarb.Base.{
  ℕ, ◌+◌, ◌*◌, ◌<◌, min, Bool, true, false, not, ◌&&◌, ◌||◌, Option, none, some, List, [], ◌∷◌,
  ◌++◌, ltb, ◌==◌, if◌then◌else◌, is_some, is_empty, length, take, drop, Result, ok, err,
}
use enzarb.Base.Text.{Str}
use enzarb.Frame.CloseCode
use enzarb.Frame.Types.{CloseInfo, Frame}
use enzarb.Frame.Codec.{to_bytes, window_frame, close_frame}
use enzarb.Flow.{
  FlowControl, FlowError, default, sendable, on_send, release, flush_grant, on_close_remote,
  is_closed,
}
use enzarb.Flow
use enzarb.Session.Errors.{SessionEnd, SessionError, ended, channel_closed, channel_aborted}

abbrev pub send_chunk : ℕ
send_chunk = 16 * 1024

pub data Data : Type 0 where
  bin json : List ℕ → Data

-- `Data::bytes`
unfoldable pub data_bytes : Data → List ℕ
data_bytes (bin b) = b
data_bytes (json b) = b

pub data Fail : Type 0 where
  session : SessionEnd → Fail
  aborted : Str → Fail

-- `Fail::error`
unfoldable pub fail_error : Fail → SessionError
fail_error (session e) = ended e
fail_error (aborted r) = channel_aborted r

pub record ChanState : Type 0 where
  pub flow : FlowControl
  pub inbox : List Data
  pub read_waker : Option ℕ
  pub write_waker : Option ℕ
  pub remote_close : Option CloseInfo
  pub failed : Option Fail
  pub recv_dropped : Bool

pub data Effect : Type 0 where
  sends : List ℕ → Effect
  wakes : ℕ → Effect
  forgets : Effect

-- What an operation of type `A` leaves behind.
pub record Done (A : Type 0) : Type 0 where
  pub value : A
  pub state : ChanState
  pub effects : List Effect

-- `Panicked` is the `expect` of `poll_reserve`.
pub data Poll (A : Type 0) : Type 0 where
  ready : A → Poll A
  pending panicked : Poll A

abbrev pub wake : Option ℕ → List Effect
wake none = []
wake (some w) = wakes w ∷ []

-- `Chan::push`: a frame that does not encode is dropped.
unfoldable pub push : Frame → List Effect
push f = elim (to_bytes f) [ ok b ↦ sends b ∷ [] | err e ↦ [] ]

-- `Chan::grant`
unfoldable pub grant : ℕ → Option ℕ → List Effect
unfolding push
grant id none = []
grant id (some g) = push (window_frame id g)

abbrev forget_if : Bool → List Effect
forget_if true = forgets ∷ []
forget_if false = []

-- `ChanState` in `Chan::new`
unfoldable pub new : ChanState
unfolding default
new = record {
  flow = default;
  inbox = [];
  read_waker = none;
  write_waker = none;
  remote_close = none;
  failed = none;
  recv_dropped = false;
}

-- `.release(len).ok().flatten()`: an error leaves the state alone and grants nothing.
unfoldable pub release_ok : FlowControl → ℕ → FlowControl × Option ℕ
release_ok c len = elim (release c len) [ ok r ↦ r | err e ↦ (c, none) ]

-- `.or_else(|| st.flow.flush_grant())`
unfoldable pub release_or_flush : FlowControl → ℕ → FlowControl × Option ℕ
unfolding release_ok
release_or_flush c len =
    let (d, g) = release_ok c len in elim g [ none ↦ flush_grant d | some n ↦ (d, some n) ]

-- The two ends of `Chan::on_data`, behind the flow control.
unfoldable pub discard : ℕ → ℕ → ChanState → Done (Result FlowError (Unit {0}))
unfolding release_or_flush grant
discard id len st =
    let (flow, g) = release_or_flush st.flow len in
    record { value = ok tt; state = record st { flow = flow }; effects = grant id g }

unfoldable pub deliver : Bool → List ℕ → ChanState → Done (Result FlowError (Unit {0}))
deliver is_json payload st = record {
  value = ok tt;
  state = record st {
    inbox = st.inbox ++ ((if is_json then json payload else bin payload) ∷ []);
    read_waker = none;
  };
  effects = wake st.read_waker;
}

-- `Chan::on_data`
unfoldable pub on_data : ℕ → Bool → List ℕ → ChanState → Done (Result FlowError (Unit {0}))
unfolding discard deliver
on_data id is_json payload st = elim (Flow.on_data st.flow (length payload)) [
  | err e ↦ record { value = err e; state = st; effects = [] }
  | ok flow ↦
      if st.recv_dropped || is_some st.failed
      then discard id (length payload) (record st { flow = flow })
      else deliver is_json payload (record st { flow = flow })
]

-- `Chan::on_window`
unfoldable pub on_window : ℕ → ChanState → Done (Result FlowError (Unit {0}))
on_window credit st = elim (Flow.on_window st.flow credit) [
  | err e ↦ record { value = err e; state = st; effects = [] }
  | ok flow ↦ record {
    value = ok tt;
    state = record st { flow = flow; write_waker = none };
    effects = wake st.write_waker;
  }
]

-- `Chan::on_close`
unfoldable pub on_close : CloseInfo → ChanState → Done (Unit {0})
unfolding on_close_remote is_closed
on_close info st =
    let flow = on_close_remote st.flow in
    record {
      value = tt;
      state = record st {
        flow = flow;
        remote_close = some info;
        read_waker = none;
        write_waker = none;
      };
      effects = wake st.read_waker ++ (wake st.write_waker ++ forget_if (is_closed flow));
    }

-- `flow.close_local()`, with the state that it leaves and whether it was `Ok`.
unfoldable pub try_close : FlowControl → FlowControl × Bool
try_close c = elim (Flow.close_local c) [ ok d ↦ (d, true) | err e ↦ (c, false) ]

-- `Chan::abort`
unfoldable pub abort : ℕ → Str → ChanState → Done (Unit {0})
unfolding try_close push
abort id reason st =
    let (flow, send_close) = try_close st.flow in
    record {
      value = tt;
      state = record st {
        flow = flow;
        failed = some (aborted reason);
        inbox = [];
        read_waker = none;
        write_waker = none;
      };
      effects =
          (if send_close then push (close_frame id CloseCode.protocol_error reason) else [])
          ++ (wake st.read_waker ++ (wake st.write_waker ++ (forgets ∷ [])));
    }

-- `Chan::fail`
unfoldable pub fail : SessionEnd → ChanState → Done (Unit {0})
fail end st = record {
  value = tt;
  state = record st {
    failed = elim st.failed [ none ↦ some (session end) | some f ↦ some f ];
    read_waker = none;
    write_waker = none;
  };
  effects = wake st.read_waker ++ wake st.write_waker;
}

-- `Chan::close_local`
unfoldable pub close_local : ℕ → ℕ → Str → ChanState → Done (Result SessionError (Unit {0}))
unfolding push is_closed
close_local id code reason st = elim (Flow.close_local st.flow) [
  | err e ↦ record { value = err channel_closed; state = st; effects = [] }
  | ok flow ↦ record {
    value = ok tt;
    state = record st { flow = flow; write_waker = none };
    effects =
        wake st.write_waker ++ (push (close_frame id code reason) ++ forget_if (is_closed flow));
  }
]

-- `Chan::poll_reserve`, by the waker of the polling task.
unfoldable pub reserve : FlowControl → ℕ → ChanState → Done (Poll (Result SessionError ℕ))
reserve flow n st = elim (on_send flow n) [
  | ok flow' ↦ record { value = ready (ok n); state = record st { flow = flow' }; effects = [] }
  | err e ↦ record { value = panicked; state = st; effects = [] }
]

unfoldable pub reserve_alive : ℕ → ℕ → Bool → ChanState → Done (Poll (Result SessionError ℕ))
unfolding reserve
reserve_alive waker want exact st =
    let n = sendable st.flow (if exact then want else min want send_chunk) in
    if n == 0 || (exact && ltb n want)
    then record { value = pending; state = record st { write_waker = some waker }; effects = [] }
    else reserve st.flow n st

unfoldable pub poll_reserve : ℕ → ℕ → Bool → ChanState → Done (Poll (Result SessionError ℕ))
unfolding reserve_alive
poll_reserve waker want exact st = elim st.failed [
  | some f ↦ record { value = ready (err (fail_error f)); state = st; effects = [] }
  | none ↦
      if Flow.is_local_closed st.flow
      then record { value = ready (err channel_closed); state = st; effects = [] }
      else reserve_alive waker want exact st
]
