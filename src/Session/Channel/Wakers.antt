-- ===== src/Session/Channel/Wakers.antt =====
-- No wakeup is lost: what the driver does that a waiting task could see wakes that task.
use enzarb.Base.{
  ℕ, ◌≡◌, refl, Bool, ◌||◌, Option, none, some, List, [], ◌∷◌, ◌++◌, arith, ok, Result-cases,
  Bool-cases, inl, inr, ◌⊎◌, length, is_some,
}
use enzarb.Flow
use enzarb.Session.Channel.{
  ChanState, Effect, wakes, wake, on_data, on_window, on_close, abort, fail, close_local, discard,
  deliver, release_or_flush,
}
use enzarb.Session.Channel.Calls.{
  Call, data_in, window_in, close_in, aborts, fails, closes, reserves, takes_item, reads,
  drops_receiver, apply,
}

-- The effects wake the task, if one waits.
abbrev In : ℕ → List Effect → Type 0
In w [] = ⊥
In w (e ∷ es) = (e ≡ wakes w) ⊎ In w es

abbrev pub IsWoken : Option ℕ → List Effect → Type 0
IsWoken none es = Unit {0}
IsWoken (some w) es = In w es

-- What a task that waits for credit, and one that waits for data, can see of the channel.
abbrev pub SameForWriter : ChanState → ChanState → Type 0
SameForWriter s t =
    (t.write_waker ≡ s.write_waker)
    × (t.failed ≡ s.failed)
    × (t.flow.local_closed ≡ s.flow.local_closed)
    × (t.flow.send_credit ≡ s.flow.send_credit)

abbrev pub SameForReader : ChanState → ChanState → Type 0
SameForReader s t =
    (t.read_waker ≡ s.read_waker)
    × (t.failed ≡ s.failed)
    × (t.remote_close ≡ s.remote_close)
    × (t.inbox ≡ s.inbox)

-- A call from the driver's side of the channel.
abbrev pub IsDriver : Call → Type 0
IsDriver (data_in _ _ _) = Unit {0}
IsDriver (window_in _) = Unit {0}
IsDriver (close_in _) = Unit {0}
IsDriver (aborts _) = Unit {0}
IsDriver (fails _) = Unit {0}
IsDriver (closes _ _) = Unit {0}
IsDriver _ = ⊥

IsWoken-front : (w : Option ℕ) (es : List Effect) → IsWoken w (wake w ++ es)
IsWoken-front none es = tt
IsWoken-front (some w) es = inl refl

IsWoken-behind : (w : Option ℕ) (fs es : List Effect) → IsWoken w es → IsWoken w (fs ++ es)
IsWoken-behind w [] es h = h
IsWoken-behind none (f ∷ fs) es h = tt
IsWoken-behind (some w) (f ∷ fs) es h = inr (IsWoken-behind (some w) fs es h)

IsWoken-alone : (w : Option ℕ) → IsWoken w (wake w)
IsWoken-alone none = tt
IsWoken-alone (some w) = inl refl

release_or_flush-send :
    (c : Flow.FlowControl) (n : ℕ)
    → ((release_or_flush c n).0.send_credit ≡ c.send_credit)
      × ((release_or_flush c n).0.local_closed ≡ c.local_closed)
unfolding release_or_flush Flow.release Flow.flush_grant
release_or_flush-send c n = (ground arith, ground arith)

on_data-send :
    (c d : Flow.FlowControl) (n : ℕ)
    → Flow.on_data c n ≡ ok d
    → (d.send_credit ≡ c.send_credit) × (d.local_closed ≡ c.local_closed)
unfolding Flow.on_data
on_data-send c d n e = (ground arith, ground arith)

-- The waker is registered no more, and has been woken.
abbrev pub Woken : Option ℕ → Option ℕ → List Effect → Type 0
Woken before after es = (after ≡ none) × IsWoken before es

module _ (id : ℕ) (st : ChanState) where
  on_data-writer :
      (is_json : Bool) (payload : List ℕ) → SameForWriter st (on_data id is_json payload st).state
  unfolding on_data discard deliver
  on_data-writer is_json payload = elim (Result-cases (Flow.on_data st.flow (length payload))) [
    | inr (x, e) ↦ (ground (arith, e), ground (arith, e), ground (arith, e), ground (arith, e))
    | inl (d, e) ↦
        let (a, b) = on_data-send st.flow d (length payload) e in
        let (f, g) = release_or_flush-send d (length payload) in
        (
          ground (arith, e),
          ground (arith, e),
          ground (arith, e, a, b, f, g),
          ground (arith, e, a, b, f, g),
        )
  ]

  on_data-reader :
      (is_json : Bool) (payload : List ℕ)
      → let d = on_data id is_json payload st in
        SameForReader st d.state ⊎ Woken st.read_waker d.state.read_waker d.effects
  unfolding on_data discard deliver
  on_data-reader is_json payload = elim (Result-cases (Flow.on_data st.flow (length payload))) [
    | inr (x, e) ↦ inl (ground (arith, e), ground (arith, e), ground (arith, e), ground (arith, e))
    | inl (d, e) ↦ elim (Bool-cases (st.recv_dropped || is_some st.failed)) [
      | inl c ↦ inl (ground (arith, e), ground (arith, e), ground (arith, e), ground (arith, e))
      | inr c ↦ inr (rw (e, c, on_data) (refl, IsWoken-alone st.read_waker))
    ]
  ]

  on_window-writer :
      (credit : ℕ)
      → let d = on_window credit st in
        SameForWriter st d.state ⊎ Woken st.write_waker d.state.write_waker d.effects
  unfolding on_window
  on_window-writer credit = elim (Result-cases (Flow.on_window st.flow credit)) [
    | inr (x, e) ↦ inl (ground (arith, e), ground (arith, e), ground (arith, e), ground (arith, e))
    | inl (d, e) ↦ inr (rw (e, on_window) (refl, IsWoken-alone st.write_waker))
  ]

  on_window-reader : (credit : ℕ) → SameForReader st (on_window credit st).state
  unfolding on_window
  on_window-reader credit = (ground arith, ground arith, ground arith, ground arith)

  close_local-writer :
      (code : ℕ) (reason : List ℕ)
      → let d = close_local id code reason st in
        SameForWriter st d.state ⊎ Woken st.write_waker d.state.write_waker d.effects
  unfolding close_local
  close_local-writer code reason = elim (Result-cases (Flow.close_local st.flow)) [
    | inr (x, e) ↦ inl (ground (arith, e), ground (arith, e), ground (arith, e), ground (arith, e))
    | inl (d, e) ↦ inr (rw (e, close_local) (refl, IsWoken-front st.write_waker _))
  ]

  close_local-reader :
      (code : ℕ) (reason : List ℕ) → SameForReader st (close_local id code reason st).state
  unfolding close_local
  close_local-reader code reason = (ground arith, ground arith, ground arith, ground arith)

  -- Whatever the driver does to a channel, a task that waits for credit and a task that waits for data
  -- each either see nothing new and stay registered, or are woken and registered no more.
  pub driver_wakes :
      (c : Call)
      → IsDriver c
      → let (t, es) = apply id c st in
        (SameForWriter st t ⊎ Woken st.write_waker t.write_waker es)
        × (SameForReader st t ⊎ Woken st.read_waker t.read_waker es)
  unfolding apply
  driver_wakes (data_in is_json payload _) h =
      (inl (on_data-writer is_json payload), on_data-reader is_json payload)
  driver_wakes (window_in credit) h = (on_window-writer credit, inl (on_window-reader credit))
  driver_wakes (close_in info) h =
      unfold on_close in
      (
        inr (refl, IsWoken-behind _ (wake st.read_waker) _ (IsWoken-front st.write_waker _)),
        inr (refl, IsWoken-front st.read_waker _),
      )
  driver_wakes (aborts reason) h =
      unfold abort in
      (
        inr (
          refl,
          IsWoken-behind _ _ _
              (IsWoken-behind _ (wake st.read_waker) _ (IsWoken-front st.write_waker _)),
        ),
        inr (refl, IsWoken-behind _ _ _ (IsWoken-front st.read_waker _)),
      )
  driver_wakes (fails end) h =
      unfold fail in
      (
        inr (refl, IsWoken-behind _ (wake st.read_waker) _ (IsWoken-alone st.write_waker)),
        inr (refl, IsWoken-front st.read_waker _),
      )
  driver_wakes (closes code reason) h =
      (close_local-writer code reason, inl (close_local-reader code reason))
  driver_wakes (reserves _ _ _) h = elim h [ ]
  driver_wakes (takes_item _) h = elim h [ ]
  driver_wakes (reads _ _) h = elim h [ ]
  driver_wakes drops_receiver h = elim h [ ]
