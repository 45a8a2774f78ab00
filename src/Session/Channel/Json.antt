-- ===== src/Session/Channel/Json.antt =====
-- `ChannelSender::send_json`: one frame needs its whole size in credit.
use enzarb.Base.{
  ℕ, ◌+◌, ◌/◌, ◌^◌, ◌≤◌, ◌<◌, ◌≡◌, ◌≢◌, ◌⊎◌, inl, inr, refl, ◌∙◌, false, Bool-cases, none, some,
  List, [], ◌∷◌, ◌++◌, arith, Result, ok, ltb, length,
}
use enzarb.Frame.Types.{initial_window, max_payload_len, data_json}
use enzarb.Frame.Codec.{from_bytes, header_bytes, validate, check_payload, check_channel}
use enzarb.Frame.Codec.{new as new_frame}
use enzarb.Frame.RoundTrip.{from_bytes-to_bytes, to_bytes-eq}
use enzarb.Session.Errors.{SessionError}
use enzarb.Flow
use enzarb.Flow.Link.{Reach, opened}
use enzarb.Flow.Progress.{IsQuiet, withheld, withheld_credit}
use enzarb.Session.Channel.{
  ChanState, sends, Done, Poll, ready, pending, push, new, poll_reserve, reserve_alive, reserve,
}
use enzarb.Session.Channel.Halves.{send_json, send_body}

-- A DATA_JSON frame is valid on every channel but 0, unless it is empty or too large.
validate-data_json :
    (id : ℕ) (body : List ℕ)
    → id ≢ 0
    → 1 ≤ length body
    → length body ≤ max_payload_len
    → validate (new_frame data_json id body) ≡ ok tt
unfolding validate check_payload check_channel new_frame
validate-data_json id [] n lo hi = absurd (omega arith)
validate-data_json id (x ∷ xs) n lo hi = ground arith

push-data_json :
    (id : ℕ) (body : List ℕ)
    → id ≢ 0
    → id < 2 ^ 32
    → 1 ≤ length body
    → length body ≤ max_payload_len
    → (b : List ℕ) × (push (new_frame data_json id body) ≡ sends b ∷ [])
      × (from_bytes b ≡ ok (new_frame data_json id body))
unfolding push
push-data_json id body n h lo hi =
    let f = new_frame data_json id body in
    let e = to_bytes-eq f (validate-data_json id body n lo hi) in
    (header_bytes f ++ f.payload, rw (e, push), from_bytes-to_bytes f _ (unfold new_frame in h) e)

-- The value left as one frame that a peer decodes as the DATA_JSON frame of the channel with the whole body, and its size
-- was taken from the credit.
pub record SentWhole (id : ℕ) (body : List ℕ) (st : ChanState)
    (d : Done (Poll (Result SessionError (Unit {0})))) : Type 0 where
  pub bytes : List ℕ
  pub value : d.value ≡ ready (ok tt)
  pub effects : d.effects ≡ sends bytes ∷ []
  pub decodes :
      from_bytes bytes
      ≡ ok record { frame_type = data_json; flags = 0; channel = id; payload = body }
  pub paid : d.state.flow.send_credit + length body ≡ st.flow.send_credit

-- Nothing left, and the task is woken by the next change of the credit.
pub record Waits (waker : ℕ) (st : ChanState) (d : Done (Poll (Result SessionError (Unit {0}))))
    : Type 0 where
  pub value : d.value ≡ pending
  pub effects : d.effects ≡ []
  pub state : d.state ≡ record st { write_waker = some waker }

module _ (id waker : ℕ) (body : List ℕ) (st : ChanState) (f : st.failed ≡ none)
    (c : st.flow.local_closed ≡ false) (lo : 1 ≤ length body)
    (hi : length body ≤ initial_window) where
  send_json-Waits :
      st.flow.send_credit < length body → Waits waker st (send_json id waker (ok body) st)
  unfolding send_json send_body poll_reserve reserve_alive Flow.is_local_closed Flow.sendable
  send_json-Waits h = record { value = ground arith; effects = ground arith; state = ground arith }

  send_json-SentWhole :
      id ≢ 0
      → id < 2 ^ 32
      → length body ≤ st.flow.send_credit
      → SentWhole id body st (send_json id waker (ok body) st)
  unfolding send_json send_body poll_reserve reserve_alive reserve Flow.is_local_closed
      Flow.sendable Flow.on_send
  send_json-SentWhole n k h =
      let (b, p, d) = push-data_json id body n k lo (omega arith) in
      record {
        bytes = b;
        value = ground arith;
        effects = ground (arith, p);
        decodes = d ∙ unfold new_frame in refl;
        paid = ground arith;
      }

-- On a channel that can send, a JSON value that fits the window leaves as one DATA_JSON frame with the whole of it when
-- the credit covers all of it, at the price of its size; otherwise nothing leaves and the call waits for credit.
pub send_json-credit :
    (id waker : ℕ) (body : List ℕ) (st : ChanState)
    → id ≢ 0
    → id < 2 ^ 32
    → st.failed ≡ none
    → st.flow.local_closed ≡ false
    → 1 ≤ length body
    → length body ≤ initial_window
    → ((length body ≤ st.flow.send_credit) × SentWhole id body st (send_json id waker (ok body) st))
      ⊎ ((st.flow.send_credit < length body) × Waits waker st (send_json id waker (ok body) st))
send_json-credit id waker body st n k f c lo hi =
    elim (Bool-cases (ltb st.flow.send_credit (length body))) [
      | inl t ↦
          let h : st.flow.send_credit < length body = ground arith in
          inr (h, send_json-Waits id waker body st f c lo hi h)
      | inr u ↦
          let h : length body ≤ st.flow.send_credit = ground arith in
          inl (h, send_json-SentWhole id waker body st f c lo hi n k h)
    ]

-- A value that the documentation admits can wait for ever: once a frame of `p` bytes, fewer than half the window,
-- was sent, delivered and consumed in full, the receiver holds `p` bytes back, nothing is on the way,
-- and a value of more than the window less `p` bytes finds too little credit.
pub send_json_stalls :
    (p id waker : ℕ) (body : List ℕ)
    → p < initial_window / 2
    → initial_window < length body + p
    → length body ≤ initial_window
    → Reach (opened initial_window) (withheld p)
      × IsQuiet (withheld p)
      × ((send_json id waker (ok body) (record new { flow = (withheld p).sender })).value ≡ pending)
send_json_stalls p id waker body h k fits =
    let (r, q, _) = withheld_credit p h in
    let st = record new { flow = (withheld p).sender } in
    (
      r,
      q,
      (send_json-Waits id waker body st (unfold new in refl) (unfold Flow.new in refl) (omega arith)
          fits (omega arith)).value,
    )
