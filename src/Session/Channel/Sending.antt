-- ===== src/Session/Channel/Sending.antt =====
-- `ChannelSender::send`: what leaves is the front of the data, in chunks that the credit covers.
use enzarb.Base.{
  ℕ, zero, suc, ◌+◌, ◌^◌, ◌≤◌, ◌<◌, ◌≡◌, refl, ap, ◌∙◌, ◌≢◌, false, some, List, [], ◌∷◌, ◌++◌,
  arith, append_assoc, ok, err, Result, length, length-take, length-append, length-drop, take, drop,
  take-append-drop, inl, inr, ◌⊎◌,
}
use enzarb.Frame.Codec.{data_bin_frame, from_bytes, header_bytes}
use enzarb.Frame.RoundTrip.{from_bytes-to_bytes, to_bytes-eq}
use enzarb.Frame.Payloads.{validate-data_bin_frame}
use enzarb.Session.Errors.{SessionError}
use enzarb.Session.Channel.{
  ChanState, Effect, sends, Done, Poll, ready, pending, panicked, push, poll_reserve, send_chunk,
}
use enzarb.Session.Channel.Halves.{Sent, send_loop, send, behind}
use enzarb.Session.Channel.Reserve.{
  poll_reserve-ready, poll_reserve-pending, poll_reserve-none, poll_reserve-ne-panicked, taken,
}

-- Frames that a peer decodes as DATA_BIN frames of the channel, of 1 to `send_chunk` bytes each,
-- whose payloads make up the bytes.
pub data Carries (id : ℕ) : List Effect → List ℕ → Type 0 where
  empty : Carries id [] []
  chunk :
      (b payload : List ℕ) {es : List Effect} {rest : List ℕ}
      → from_bytes b ≡ ok (data_bin_frame id payload)
      → 1 ≤ length payload
      → length payload ≤ send_chunk
      → Carries id es rest
      → Carries id (sends b ∷ es) (payload ++ rest)

Poll-cases :
    (p : Poll (Result SessionError ℕ))
    → (p ≡ pending)
      ⊎ ((p ≡ panicked)
          ⊎ (((e : SessionError) × (p ≡ ready (err e))) ⊎ ((n : ℕ) × (p ≡ ready (ok n)))))
Poll-cases pending = inl refl
Poll-cases panicked = inr (inl refl)
Poll-cases (ready (err e)) = inr (inr (inl (e, refl)))
Poll-cases (ready (ok n)) = inr (inr (inr (n, refl)))

-- What one poll of `send` did with the data.
pub record Sends (id : ℕ) (bytes : List ℕ) (st : ChanState) (d : Done Sent) : Type 0 where
  pub front : List ℕ
  pub split : front ++ d.value.rest ≡ bytes
  pub carried : Carries id d.effects front
  pub paid : d.state.flow.send_credit + length front ≡ st.flow.send_credit
  pub no_panic : d.value.poll ≢ panicked
  pub waits : d.value.poll ≡ pending → d.state.flow.send_credit ≡ 0
  pub complete : d.value.poll ≡ ready (ok tt) → d.value.rest ≡ []

push-data_bin :
    (id : ℕ) (payload : List ℕ)
    → id ≢ 0
    → id < 2 ^ 32
    → 1 ≤ length payload
    → length payload ≤ send_chunk
    → (b : List ℕ) × (push (data_bin_frame id payload) ≡ sends b ∷ [])
      × (from_bytes b ≡ ok (data_bin_frame id payload))
unfolding push
push-data_bin id payload n h lo hi =
    let f = data_bin_frame id payload in
    let e = to_bytes-eq f (validate-data_bin_frame id payload n lo (omega arith)) in
    (
      header_bytes f ++ f.payload,
      rw (e, push),
      from_bytes-to_bytes f _ (unfold data_bin_frame in h) e,
    )

-- A round that gets no credit ends the loop with all of the data left.
idle-Sends :
    (id waker : ℕ) (bytes : List ℕ) (st : ChanState) (p : Poll (Result SessionError (Unit {0})))
    → let r = poll_reserve waker (length bytes) false st in
      ((k : ℕ) → r.value ≢ ready (ok k))
      → 1 ≤ length bytes
      → (p ≡ pending → r.value ≡ pending)
      → p ≢ panicked
      → p ≢ ready (ok tt)
      → Sends id bytes st (record {
        value = record { poll = p; rest = bytes };
        state = r.state;
        effects = r.effects;
      })
idle-Sends id waker bytes st p none_given h w np nr =
    let (e, c) = poll_reserve-none waker (length bytes) false st none_given in
    record {
      front = [];
      split = refl;
      carried = rw e empty;
      paid = rw c (omega arith);
      no_panic = np;
      waits = λ z. rw c (waiting z);
      complete = λ z. absurd (nr z);
    }
  where
    waiting : p ≡ pending → st.flow.send_credit ≡ 0
    waiting z =
        let (_, u) = poll_reserve-pending waker (length bytes) false st (w z) in
        elim u [ inl v ↦ omega (arith, v) | inr v ↦ absurd (omega (arith, v, h)) ]

-- A round that gets credit sends the first `m` bytes.
chunk-Sends :
    (id m : ℕ) (bytes : List ℕ) (st : ChanState) (d : Done Sent)
    → id ≢ 0
    → id < 2 ^ 32
    → 1 ≤ m
    → m ≤ length bytes
    → m ≤ send_chunk
    → m ≤ st.flow.send_credit
    → Sends id (drop m bytes) (record st { flow = taken st.flow m }) d
    → Sends id bytes st (behind ([] ++ push (data_bin_frame id (take m bytes))) d)
chunk-Sends id m bytes st d n h lo len hi fits s =
    let l : length (take m bytes) ≡ m = omega (arith, length-take m bytes) in
    let (b, e, f) = push-data_bin id (take m bytes) n h (omega (arith, l)) (omega (arith, l)) in
    record {
      front = take m bytes ++ s.front;
      split =
          append_assoc (take m bytes) s.front d.value.rest
          ∙ ap (◌++◌ (take m bytes)) s.split
          ∙ take-append-drop m bytes;
      carried = rw e (chunk b (take m bytes) f (omega (arith, l)) (omega (arith, l)) s.carried);
      paid = omega (arith, l, length-append (take m bytes) s.front, s.paid, fits);
      no_panic = s.no_panic;
      waits = s.waits;
      complete = s.complete;
    }

send_loop-Sends :
    (fuel id waker : ℕ) (bytes : List ℕ) (st : ChanState)
    → id ≢ 0
    → id < 2 ^ 32
    → length bytes ≤ fuel
    → (d : Done Sent) × (send_loop fuel id waker bytes st ≡ some d) × Sends id bytes st d
unfolding send_loop
send_loop-Sends fuel id waker [] st n h k = (
  _,
  refl,
  record {
    front = [];
    split = refl;
    carried = empty;
    paid = omega arith;
    no_panic = λ z. cc;
    waits = λ z. cc;
    complete = λ z. refl;
  },
)
send_loop-Sends zero id waker (x ∷ xs) st n h k = absurd (omega arith)
send_loop-Sends (suc fuel) id waker (x ∷ xs) st n h k =
    let len = length (x ∷ xs) in
    elim (Poll-cases (poll_reserve waker len false st).value) [
      | inl e ↦ (
        _,
        rw (e, send_loop),
        idle-Sends id waker (x ∷ xs) st pending (λ j. rw e (λ z. cc)) (omega arith) (λ z. e)
            (λ z. cc) (λ z. cc),
      )
      | inr (inl e) ↦ absurd (poll_reserve-ne-panicked waker len false st e)
      | inr (inr (inl (y, e))) ↦ (
        _,
        rw (e, send_loop),
        idle-Sends id waker (x ∷ xs) st (ready (err y)) (λ j. rw e (λ z. cc)) (omega arith)
            (λ z. cc) (λ z. cc) (λ z. cc),
      )
      | inr (inr (inr (m, e))) ↦
          let (lo, hi, fits, _, _, _, q) = poll_reserve-ready waker len false st m e in
          let front = take m (x ∷ xs) in
          let (d, p, s) =
            send_loop-Sends fuel id waker (drop m (x ∷ xs)) (record st { flow = taken st.flow m }) n
              h (omega (arith, length-drop m (x ∷ xs), lo)) in
          (
            behind ([] ++ push (data_bin_frame id front)) d,
            ground (arith, q, p),
            chunk-Sends id m (x ∷ xs) st d n h lo (omega (arith, hi)) (omega (arith, hi)) fits s,
          )
    ]

-- One poll of `send` always ends, never panics, and splits the data into a front that was sent and
-- a rest: the front went out as DATA_BIN frames of the channel that the peer can decode, each of 1 to
-- 16384 bytes, and cost as much credit as it has bytes; the poll waits only when no credit is left,
-- and is done only when no data is left.
pub send-Sends :
    (id waker : ℕ) (bytes : List ℕ) (st : ChanState)
    → id ≢ 0
    → id < 2 ^ 32
    → (d : Done Sent) × (send id waker bytes st ≡ some d) × Sends id bytes st d
unfolding send
send-Sends id waker bytes st n h =
    send_loop-Sends (length bytes) id waker bytes st n h (omega arith)
