-- ===== src/Session/Channel/Invariant.antt =====
-- What every operation on a channel keeps, and that no error is swallowed on the way.
use enzarb.Base.{
  ℕ, ◌+◌, ◌≤◌, ◌≡◌, Bool, ◌||◌, List, [], ◌∷◌, ◌++◌, arith, All, All-append, ok, Result-cases,
  Option-cases, Bool-cases, inl, inr, length, is_some, if◌then◌else◌,
}
use enzarb.Base.Text.{Str}
use enzarb.Frame.Types.{CloseInfo, initial_window}
use enzarb.Flow
use enzarb.Flow.{FlowControl}
use enzarb.Flow.Invariant
use enzarb.Session.Errors.{SessionEnd}
use enzarb.Session.Channel.{
  Data, bin, json, data_bytes, ChanState, release_ok, release_or_flush, discard, deliver, on_data,
  on_window, on_close, try_close, abort, fail, close_local,
}
use enzarb.Session.Channel.Halves.{inbox_bytes, drop_receiver}

abbrev pub IsFilled : Data → Type 0
IsFilled d = 1 ≤ length (data_bytes d)

-- What waits in the inbox is counted as received and not yet released, and no entry is empty.
pub record IsValid (st : ChanState) : Type 0 where
  pub flow_ok : Flow.Invariant.IsValid initial_window st.flow
  pub held : inbox_bytes st.inbox ≤ st.flow.recv_unreleased
  pub filled : All IsFilled st.inbox

pub inbox_bytes-append :
    (ds : List Data) (d : Data)
    → inbox_bytes (ds ++ (d ∷ [])) ≡ inbox_bytes ds + length (data_bytes d)
inbox_bytes-append [] d = omega arith
inbox_bytes-append (x ∷ ds) d = omega (arith, inbox_bytes-append ds d)

pub release_ok_lem :
    {w : ℕ} (c : FlowControl) (n : ℕ)
    → Flow.Invariant.IsValid w c
    → n ≤ c.recv_unreleased
    → Flow.Invariant.IsValid w (release_ok c n).0
      × ((release_ok c n).0.recv_unreleased + n ≡ c.recv_unreleased)
      × (Flow.release c n ≡ ok (release_ok c n))
unfolding release_ok Flow.release
release_ok_lem c n v h = (ground arith, ground arith, ground arith)

flush_unreleased : (c : FlowControl) → (Flow.flush_grant c).0.recv_unreleased ≡ c.recv_unreleased
unfolding Flow.flush_grant
flush_unreleased c = ground arith

release_or_flush_lem :
    {w : ℕ} (c : FlowControl) (n : ℕ)
    → Flow.Invariant.IsValid w c
    → n ≤ c.recv_unreleased
    → Flow.Invariant.IsValid w (release_or_flush c n).0
      × ((release_or_flush c n).0.recv_unreleased + n ≡ c.recv_unreleased)
unfolding release_or_flush
release_or_flush_lem c n v h =
    let (v', e, _) = release_ok_lem c n v h in
    elim (Option-cases (release_ok c n).1) [
      | inl q ↦
          rw (q, release_or_flush)
            (
              Flow.Invariant.flush_grant-IsValid (release_ok c n).0 v',
              omega (arith, e, flush_unreleased (release_ok c n).0),
            )
      | inr (g, q) ↦ rw (q, release_or_flush) (v', e)
    ]

pub on_data_lem :
    {w : ℕ} (c d : FlowControl) (n : ℕ)
    → Flow.Invariant.IsValid w c
    → Flow.on_data c n ≡ ok d
    → d.recv_unreleased ≡ c.recv_unreleased + n
unfolding Flow.on_data
on_data_lem c d n v e = ground arith

on_window_lem :
    (c d : FlowControl) (n : ℕ) → Flow.on_window c n ≡ ok d → d.recv_unreleased ≡ c.recv_unreleased
unfolding Flow.on_window
on_window_lem c d n e = ground arith

close_local_lem :
    (c d : FlowControl) → Flow.close_local c ≡ ok d → d.recv_unreleased ≡ c.recv_unreleased
unfolding Flow.close_local
close_local_lem c d e = ground arith

try_close_lem :
    {w : ℕ} (c : FlowControl)
    → Flow.Invariant.IsValid w c
    → Flow.Invariant.IsValid w (try_close c).0
unfolding try_close Flow.close_local
try_close_lem c v = ground arith

module _ (st : ChanState) (v : IsValid st) where
  open st use {flow, inbox}

  discard-IsValid :
      (id n : ℕ) (d : FlowControl)
      → Flow.on_data flow n ≡ ok d
      → IsValid (discard id n (record st { flow = d })).state
  unfolding discard
  discard-IsValid id n d e =
      let f = Flow.Invariant.on_data-IsValid flow v.flow_ok n d e in
      let u = on_data_lem flow d n v.flow_ok e in
      let (g, r) = release_or_flush_lem d n f (omega (arith, u)) in
      record { flow_ok = g; held = omega (arith, u, r, v.held); filled = v.filled }

  deliver-IsValid :
      (is_json : Bool) (payload : List ℕ) (d : FlowControl)
      → 1 ≤ length payload
      → Flow.on_data flow (length payload) ≡ ok d
      → IsValid (deliver is_json payload (record st { flow = d })).state
  unfolding deliver data_bytes
  deliver-IsValid is_json payload d h e =
      let u = on_data_lem flow d (length payload) v.flow_ok e in
      let x = if is_json then json payload else bin payload in
      let k : length (data_bytes x) ≡ length payload = ground arith in
      record {
        flow_ok = Flow.Invariant.on_data-IsValid flow v.flow_ok _ d e;
        held = omega (arith, u, k, v.held, inbox_bytes-append inbox x);
        filled = All-append IsFilled inbox (x ∷ []) v.filled (omega (arith, k, h), tt);
      }

  pub on_data-IsValid :
      (id : ℕ) (is_json : Bool) (payload : List ℕ)
      → 1 ≤ length payload
      → IsValid (on_data id is_json payload st).state
  unfolding on_data
  on_data-IsValid id is_json payload h = elim (Result-cases (Flow.on_data flow (length payload))) [
    | inr (x, e) ↦ rw (e, on_data) v
    | inl (d, e) ↦ elim (Bool-cases (st.recv_dropped || is_some st.failed)) [
      | inl c ↦ rw (e, c, on_data) (discard-IsValid id _ d e)
      | inr c ↦ rw (e, c, on_data) (deliver-IsValid is_json payload d h e)
    ]
  ]

  pub on_window-IsValid : (credit : ℕ) → IsValid (on_window credit st).state
  unfolding on_window
  on_window-IsValid credit = elim (Result-cases (Flow.on_window flow credit)) [
    | inr (x, e) ↦ rw (e, on_window) v
    | inl (d, e) ↦
        rw (e, on_window)
          (record {
            flow_ok = Flow.Invariant.on_window-IsValid flow v.flow_ok credit d e;
            held = omega (arith, on_window_lem flow d credit e, v.held);
            filled = v.filled;
          })
  ]

  pub on_close-IsValid : (info : CloseInfo) → IsValid (on_close info st).state
  unfolding on_close
  on_close-IsValid info = record {
    flow_ok = Flow.Invariant.on_close_remote-IsValid flow v.flow_ok;
    held = v.held;
    filled = v.filled;
  }

  pub abort-IsValid : (id : ℕ) (reason : Str) → IsValid (abort id reason st).state
  unfolding abort
  abort-IsValid id reason = record {
    flow_ok = try_close_lem flow v.flow_ok;
    held = omega arith;
    filled = tt;
  }

  pub fail-IsValid : (end : SessionEnd) → IsValid (fail end st).state
  unfolding fail
  fail-IsValid end = record { flow_ok = v.flow_ok; held = v.held; filled = v.filled }

  pub close_local-IsValid :
      (id code : ℕ) (reason : Str) → IsValid (close_local id code reason st).state
  unfolding close_local
  close_local-IsValid id code reason = elim (Result-cases (Flow.close_local flow)) [
    | inr (x, e) ↦ rw (e, close_local) v
    | inl (d, e) ↦
        rw (e, close_local)
          (record {
            flow_ok = Flow.Invariant.close_local-IsValid flow v.flow_ok d e;
            held = omega (arith, close_local_lem flow d e, v.held);
            filled = v.filled;
          })
  ]

  pub drop_receiver-IsValid : (id : ℕ) → IsValid (drop_receiver id st).state
  unfolding drop_receiver
  drop_receiver-IsValid id =
      let (g, r) = release_or_flush_lem flow (inbox_bytes inbox) v.flow_ok v.held in
      record { flow_ok = g; held = omega arith; filled = tt }
