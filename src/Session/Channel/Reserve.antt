-- ===== src/Session/Channel/Reserve.antt =====
-- Reserving send credit: `poll_reserve` never reaches its `expect`, and takes what it says.
use enzarb.Base.{
  [], ap, ◌∙◌, ℕ, ◌-◌, ◌≤◌, ◌<◌, min, ◌≡◌, refl, ◌≢◌, Bool, true, false, ◌||◌, ◌&&◌, none, some,
  arith, ok, err, Result, Option-cases, Bool-cases, inl, inr, ◌⊎◌, ◌==◌, ltb, if◌then◌else◌,
}
use enzarb.Flow
use enzarb.Flow.{FlowControl}
use enzarb.Flow.Invariant
use enzarb.Session.Errors.{SessionError, channel_closed}
use enzarb.Session.Channel.{
  ChanState, Done, Fail, fail_error, Poll, ready, pending, panicked, poll_reserve, reserve_alive,
  reserve, send_chunk,
}
use enzarb.Session.Channel.Invariant.{IsValid}

-- The flow control after `n` bytes were reserved.
abbrev pub taken : FlowControl → ℕ → FlowControl
taken c n = record c { send_credit = c.send_credit - n }

on_send-sendable :
    (c : FlowControl) (want : ℕ)
    → (Flow.sendable c want == 0) ≡ false
    → (Flow.on_send c (Flow.sendable c want) ≡ ok (taken c (Flow.sendable c want)))
      × (Flow.sendable c want ≤ c.send_credit)
      × (Flow.sendable c want ≤ want)
unfolding Flow.sendable Flow.on_send
on_send-sendable c want h = (ground arith, ground arith, ground arith)

-- What a poll asks the flow control for.
abbrev pub asked : Bool → ℕ → ℕ
asked exact want = if exact then want else min want send_chunk

module _ (waker want : ℕ) (exact : Bool) (st : ChanState) where
  abbrev offered : ℕ
  offered = Flow.sendable st.flow (asked exact want)

  -- The three ways in which a poll ends while the channel can send.
  reserve_alive-cases :
      ((offered == 0 || (exact && ltb offered want)) ≡ true)
        × (reserve_alive waker want exact st ≡ record {
          value = pending;
          state = record st { write_waker = some waker };
          effects = [];
        })
      ⊎ ((offered == 0 || (exact && ltb offered want)) ≡ false)
        × (reserve_alive waker want exact st ≡ record {
          value = ready (ok offered);
          state = record st { flow = taken st.flow offered };
          effects = [];
        })
  unfolding reserve_alive reserve
  reserve_alive-cases = elim (Bool-cases (offered == 0 || (exact && ltb offered want))) [
    | inl e ↦ inl (e, rw e)
    | inr e ↦
        let (q, _, _) = on_send-sendable st.flow (asked exact want) (ground arith) in
        inr (e, rw (e, reserve, q))
  ]

  abbrev granted : ℕ → Done (Poll (Result SessionError ℕ))
  granted k = record {
    value = ready (ok k);
    state = record st { flow = taken st.flow k };
    effects = [];
  }

  -- The outcome of a poll for credit, by the state of the channel.
  abbrev Outcome : Done (Poll (Result SessionError ℕ)) → Type 0
  Outcome d =
      ((f : Fail) × (st.failed ≡ some f)
        × (d ≡ record { value = ready (err (fail_error f)); state = st; effects = [] }))
      ⊎ ((st.failed ≡ none)
            × (st.flow.local_closed ≡ true)
            × (d ≡ record { value = ready (err channel_closed); state = st; effects = [] })
          ⊎ ((st.failed ≡ none)
                × (st.flow.local_closed ≡ false)
                × ((offered == 0 || (exact && ltb offered want)) ≡ true)
                × (d ≡ record {
                  value = pending;
                  state = record st { write_waker = some waker };
                  effects = [];
                })
              ⊎ ((st.failed ≡ none)
                  × (st.flow.local_closed ≡ false)
                  × ((offered == 0 || (exact && ltb offered want)) ≡ false)
                  × (d ≡ record {
                    value = ready (ok offered);
                    state = record st { flow = taken st.flow offered };
                    effects = [];
                  }))))

  poll_reserve-cases : Outcome (poll_reserve waker want exact st)
  unfolding poll_reserve Flow.is_local_closed
  poll_reserve-cases = elim (Option-cases st.failed) [
    | inr (f, e) ↦ inl (f, e, ground arith)
    | inl e ↦ elim (Bool-cases st.flow.local_closed) [
      | inl c ↦ inr (inl (e, c, ground arith))
      | inr c ↦ elim reserve_alive-cases [
        | inl (x, q) ↦ inr (inr (inl (e, c, x, ground (arith, q))))
        | inr (x, q) ↦ inr (inr (inr (e, c, x, ground (arith, q))))
      ]
    ]
  ]

  -- A poll for credit never panics.
  pub poll_reserve-ne-panicked : (poll_reserve waker want exact st).value ≢ panicked
  poll_reserve-ne-panicked = elim poll_reserve-cases [
    | inl (_, _, q) ↦ rw q (λ z. cc)
    | inr (inl (_, _, q)) ↦ rw q (λ z. cc)
    | inr (inr (inl (_, _, _, q))) ↦ rw q (λ z. cc)
    | inr (inr (inr (_, _, _, q))) ↦ rw q (λ z. cc)
  ]

  -- Credit that is reserved was there, is at least a byte, at most a chunk or just what was asked
  -- for, and is taken off the flow control; nothing else changes.
  pub poll_reserve-ready :
      (k : ℕ)
      → (poll_reserve waker want exact st).value ≡ ready (ok k)
      → (1 ≤ k)
        × (k ≤ asked exact want)
        × (k ≤ st.flow.send_credit)
        × (exact ≡ true → k ≡ want)
        × (st.failed ≡ none)
        × (st.flow.local_closed ≡ false)
        × (poll_reserve waker want exact st ≡ record {
          value = ready (ok k);
          state = record st { flow = taken st.flow k };
          effects = [];
        })
  poll_reserve-ready k h = elim poll_reserve-cases [
    | inl (_, _, q) ↦ absurd (ground (arith, q))
    | inr (inl (_, _, q)) ↦ absurd (ground (arith, q))
    | inr (inr (inl (_, _, _, q))) ↦ absurd (ground (arith, q))
    | inr (inr (inr (e, c, x, q))) ↦
        let k_eq : offered ≡ k = ground (arith, q) in
        let (_, s, t) = on_send-sendable st.flow (asked exact want) (ground arith) in
        (ground arith, ground arith, ground arith, λ z. ground arith, e, c, q ∙ ap granted k_eq)
  ]

  -- A poll that waits has left its waker, and what it waits for is not there.
  pub poll_reserve-pending :
      (poll_reserve waker want exact st).value ≡ pending
      → ((poll_reserve waker want exact st).state ≡ record st { write_waker = some waker })
        × (st.flow.send_credit < (if exact then want else 1) ⊎ (want ≡ 0))
  unfolding Flow.sendable
  poll_reserve-pending h = elim poll_reserve-cases [
    | inl (_, _, q) ↦ absurd (ground (arith, q))
    | inr (inl (_, _, q)) ↦ absurd (ground (arith, q))
    | inr (inr (inl (e, c, x, q))) ↦ (
      ap (λ d. d.state) q,
      elim (Bool-cases exact) [ inl y ↦ ground arith | inr y ↦ ground arith ],
    )
    | inr (inr (inr (_, _, _, q))) ↦ absurd (ground (arith, q))
  ]

  pub poll_reserve-IsValid : IsValid st → IsValid (poll_reserve waker want exact st).state
  poll_reserve-IsValid v = elim poll_reserve-cases [
    | inl (_, _, q) ↦ rw q v
    | inr (inl (_, _, q)) ↦ rw q v
    | inr (inr (inl (_, _, _, q))) ↦
        rw q (record { flow_ok = v.flow_ok; held = v.held; filled = v.filled })
    | inr (inr (inr (e, c, x, q))) ↦
        let (s, _, _) = on_send-sendable st.flow (asked exact want) (ground arith) in
        rw q (record {
          flow_ok = Flow.Invariant.on_send-IsValid st.flow v.flow_ok offered _ s;
          held = v.held;
          filled = v.filled;
        })
  ]

  -- A poll that gives no credit takes none and sends nothing.
  pub poll_reserve-none :
      ((k : ℕ) → (poll_reserve waker want exact st).value ≢ ready (ok k))
      → ((poll_reserve waker want exact st).effects ≡ [])
        × ((poll_reserve waker want exact st).state.flow ≡ st.flow)
  poll_reserve-none h = elim poll_reserve-cases [
    | inl (_, _, q) ↦ rw q (refl, refl)
    | inr (inl (_, _, q)) ↦ rw q (refl, refl)
    | inr (inr (inl (_, _, _, q))) ↦ rw q (refl, refl)
    | inr (inr (inr (_, _, _, q))) ↦ absurd (h offered (ap (λ d. d.value) q))
  ]
