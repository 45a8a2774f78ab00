-- ===== src/Session/Channel/Halves.antt =====
-- session/channel.rs: receiving and sending through the two halves of a `ChannelHandle`.
-- A poll function that takes a buffer returns the buffer too; `send` and `send_json` are the
-- polls of the futures that the async functions are, each from the data that is left to send.
use enzarb.Base.{
  ℕ, zero, suc, ◌+◌, ◌-◌, min, true, false, ◌||◌, Option, none, some, List, [], ◌∷◌, ◌++◌, ltb,
  ◌==◌, if◌then◌else◌, is_some, is_empty, length, take, drop, Result, ok, err,
}
use enzarb.Base.Text.{Str}
use enzarb.Frame.CloseCode
use enzarb.Frame.Types.{initial_window, data_json}
use enzarb.Frame.Codec.{data_bin_frame}
use enzarb.Frame.Codec.{new as new_frame}
use enzarb.Session.Errors.{SessionError, json_too_large, json_failed, IoErrorKind, io_err}
use enzarb.Session.Channel.{
  Data, bin, json, data_bytes, ChanState, fail_error, Effect, Done, Poll, ready, pending, panicked,
  push, grant, release_ok, release_or_flush, close_local, poll_reserve,
}

-- `Chan::poll_item`
unfoldable pub item_of : ℕ → ℕ → List Data → ChanState → Done (Poll (Option Data))
item_of id waker (d ∷ rest) st =
    let (flow, g) = release_ok st.flow (length (data_bytes d)) in
    record {
      value = ready (some d);
      state = record st { flow = flow; inbox = rest };
      effects = grant id g;
    }
item_of id waker [] st =
    if is_some st.remote_close || is_some st.failed
    then record { value = ready none; state = st; effects = [] }
    else record { value = pending; state = record st { read_waker = some waker }; effects = [] }

unfoldable pub poll_item : ℕ → ℕ → ChanState → Done (Poll (Option Data))
unfolding item_of
poll_item id waker st = item_of id waker st.inbox st

-- tokio's `ReadBuf`: the bytes filled in so far, and the room behind them.
pub record ReadBuf : Type 0 where
  pub filled : List ℕ
  pub remaining : ℕ

-- `buf.put_slice(b)`, for a slice that fits.
abbrev pub put_slice : ReadBuf → List ℕ → ReadBuf
put_slice buf b = record { filled = buf.filled ++ b; remaining = buf.remaining - length b }

-- `b.advance(n)` inside the entry.
unfoldable pub advance : Data → ℕ → Data
advance (bin b) n = bin (drop n b)
advance (json b) n = json (drop n b)

-- The inbox after `n` bytes of its first entry were read.
abbrev pub advanced : Data → ℕ → List Data → List Data
advanced d n rest = if is_empty (data_bytes (advance d n)) then rest else advance d n ∷ rest

unfoldable pub read_front :
    ℕ
    → Data
    → List Data
    → ReadBuf
    → ChanState
    → Done (Poll (Result IoErrorKind (Unit {0})) × ReadBuf)
read_front id d rest buf st =
    let n = min (length (data_bytes d)) buf.remaining in
    let (flow, g) = release_ok st.flow n in
    if n == 0 then record { value = (ready (ok tt), buf); state = st; effects = [] } else record {
      value = (ready (ok tt), put_slice buf (take n (data_bytes d)));
      state = record st { flow = flow; inbox = advanced d n rest };
      effects = grant id g;
    }

unfoldable pub read_empty :
    ℕ → ReadBuf → ChanState → Done (Poll (Result IoErrorKind (Unit {0})) × ReadBuf)
read_empty waker buf st = elim st.remote_close [
  | some info ↦ record { value = (ready (ok tt), buf); state = st; effects = [] }
  | none ↦ elim st.failed [
    | some f ↦ record {
      value = (ready (err (io_err (fail_error f))), buf);
      state = st;
      effects = [];
    }
    | none ↦ record {
      value = (pending, buf);
      state = record st { read_waker = some waker };
      effects = [];
    }
  ]
]

-- `Chan::poll_read_into`
unfoldable pub poll_read_into :
    ℕ → ℕ → ReadBuf → ChanState → Done (Poll (Result IoErrorKind (Unit {0})) × ReadBuf)
unfolding read_front read_empty
poll_read_into id waker buf st = elim st.inbox [
  | [] ↦ read_empty waker buf st
  | d ∷ rest ↦ read_front id d rest buf st
]

-- A poll of the future of `ChannelSender::send`: how it ends, and the data that is left.
pub record Sent : Type 0 where
  pub poll : Poll (Result SessionError (Unit {0}))
  pub rest : List ℕ

abbrev pub behind : {A : Type 0} → List Effect → Done A → Done A
behind es d = record { value = d.value; state = d.state; effects = es ++ d.effects }

-- The `while` loop of `send`. `none` means that the fuel ran out.
unfoldable pub send_loop : ℕ → ℕ → ℕ → List ℕ → ChanState → Option (Done Sent)
send_loop fuel id waker [] st =
    some (record { value = record { poll = ready (ok tt); rest = [] }; state = st; effects = [] })
send_loop zero id waker (x ∷ xs) st = none
send_loop (suc fuel) id waker (x ∷ xs) st =
    let r = poll_reserve waker (length (x ∷ xs)) false st in
    elim r.value [
      | pending ↦ some (record {
        value = record { poll = pending; rest = x ∷ xs };
        state = r.state;
        effects = r.effects;
      })
      | panicked ↦ some (record {
        value = record { poll = panicked; rest = x ∷ xs };
        state = r.state;
        effects = r.effects;
      })
      | ready (err e) ↦ some (record {
        value = record { poll = ready (err e); rest = x ∷ xs };
        state = r.state;
        effects = r.effects;
      })
      | ready (ok n) ↦ elim (send_loop fuel id waker (drop n (x ∷ xs)) r.state) [
        | none ↦ none
        | some d ↦ some (behind (r.effects ++ push (data_bin_frame id (take n (x ∷ xs)))) d)
      ]
    ]

-- Each round sends a byte at least, so the length of the data is fuel enough.
unfoldable pub send : ℕ → ℕ → List ℕ → ChanState → Option (Done Sent)
unfolding send_loop
send id waker data_left st = send_loop (length data_left) id waker data_left st

unfoldable pub send_body : ℕ → ℕ → List ℕ → ChanState → Done (Poll (Result SessionError (Unit {0})))
send_body id waker body st =
    let r = poll_reserve waker (length body) true st in
    elim r.value [
      | pending ↦ record { value = pending; state = r.state; effects = r.effects }
      | panicked ↦ record { value = panicked; state = r.state; effects = r.effects }
      | ready (err e) ↦ record { value = ready (err e); state = r.state; effects = r.effects }
      | ready (ok n) ↦ record {
        value = ready (ok tt);
        state = r.state;
        effects = r.effects ++ push (new_frame data_json id body);
      }
    ]

-- A poll of `ChannelSender::send_json`, by what `serde_json::to_vec` gave.
unfoldable pub send_json :
    ℕ → ℕ → Result Str (List ℕ) → ChanState → Done (Poll (Result SessionError (Unit {0})))
unfolding send_body
send_json id waker (err e) st = record {
  value = ready (err (json_failed e));
  state = st;
  effects = [];
}
send_json id waker (ok body) st =
    if ltb initial_window (length body)
    then record { value = ready (err (json_too_large (length body))); state = st; effects = [] }
    else send_body id waker body st

-- `ChannelSender::poll_write`
unfoldable pub poll_write : ℕ → ℕ → List ℕ → ChanState → Done (Poll (Result IoErrorKind ℕ))
poll_write id waker [] st = record { value = ready (ok 0); state = st; effects = [] }
poll_write id waker (x ∷ xs) st =
    let r = poll_reserve waker (length (x ∷ xs)) false st in
    elim r.value [
      | pending ↦ record { value = pending; state = r.state; effects = r.effects }
      | panicked ↦ record { value = panicked; state = r.state; effects = r.effects }
      | ready (err e) ↦ record {
        value = ready (err (io_err e));
        state = r.state;
        effects = r.effects;
      }
      | ready (ok n) ↦ record {
        value = ready (ok n);
        state = r.state;
        effects = r.effects ++ push (data_bin_frame id (take n (x ∷ xs)));
      }
    ]

-- `ChannelSender::poll_shutdown`, and `drop` of the sender.
unfoldable pub shutdown : ℕ → ChanState → Done (Unit {0})
shutdown id st =
    let d = close_local id CloseCode.normal [] st in
    record { value = tt; state = d.state; effects = d.effects }

abbrev pub inbox_bytes : List Data → ℕ
inbox_bytes [] = 0
inbox_bytes (d ∷ ds) = length (data_bytes d) + inbox_bytes ds

-- `drop` of the `ChannelReceiver`.
unfoldable pub drop_receiver : ℕ → ChanState → Done (Unit {0})
drop_receiver id st =
    let (flow, g) = release_or_flush st.flow (inbox_bytes st.inbox) in
    record {
      value = tt;
      state = record st { flow = flow; inbox = []; recv_dropped = true };
      effects = grant id g;
    }
