-- ===== src/Session/Channel/Order.antt =====
-- Reading gives the received bytes in order, without loss, and credits each byte that is read.
use enzarb.Base.{
  ℕ, ◌+◌, ◌≤◌, ◌<◌, min, ◌≡◌, refl, sym, ap, ◌∙◌, ◌≢◌, true, false, List, [], ◌∷◌, ◌++◌, arith,
  append_assoc, ok, Result, length, length-append, length-take, take, drop, take-append-drop,
  is_empty, inl, inr, ◌⊎◌, Bool-cases, List-cases, ◌==◌,
}
use enzarb.Session.Errors.{IoErrorKind}
use enzarb.Session.Channel.{Data, bin, json, data_bytes, ChanState, Done, Poll, ready}
use enzarb.Session.Channel.Halves.{
  ReadBuf, poll_read_into, read_front, read_empty, advance, advanced, inbox_bytes,
}
use enzarb.Session.Channel.Invariant.{IsValid, release_ok_lem}

-- The bytes that wait in the inbox, in the order of their arrival.
abbrev pub contents : List Data → List ℕ
contents [] = []
contents (d ∷ ds) = data_bytes d ++ contents ds

data_bytes-advance : (d : Data) (n : ℕ) → data_bytes (advance d n) ≡ drop n (data_bytes d)
unfolding data_bytes advance
data_bytes-advance (bin b) n = refl
data_bytes-advance (json b) n = refl

contents-advanced :
    (d : Data) (n : ℕ) (rest : List Data)
    → contents (advanced d n rest) ≡ drop n (data_bytes d) ++ contents rest
contents-advanced d n rest = elim (Empty-cases (data_bytes (advance d n))) [
  | inl (e, z) ↦ rw e (rw (← data_bytes-advance d n, z))
  | inr e ↦ rw (e, data_bytes-advance d n)
]
  where
    Empty-cases : (b : List ℕ) → ((is_empty b ≡ true) × (b ≡ [])) ⊎ (is_empty b ≡ false)
    Empty-cases [] = inl (refl, refl)
    Empty-cases (x ∷ b) = inr refl

-- What one poll for bytes did.
pub record Reads (st : ChanState) (buf : ReadBuf)
    (d : Done (Poll (Result IoErrorKind (Unit {0})) × ReadBuf)) : Type 0 where
  pub ordered : d.value.1.filled ++ contents d.state.inbox ≡ buf.filled ++ contents st.inbox
  pub room : d.value.1.remaining + length d.value.1.filled ≡ buf.remaining + length buf.filled
  pub credited :
      d.state.flow.recv_unreleased + length d.value.1.filled
      ≡ st.flow.recv_unreleased + length buf.filled
  pub progress :
      1 ≤ buf.remaining
      → st.inbox ≢ []
      → (d.value.0 ≡ ready (ok tt)) × (length buf.filled < length d.value.1.filled)

poll_read_into-nil :
    (st : ChanState) (id waker : ℕ) (buf : ReadBuf)
    → st.inbox ≡ []
    → poll_read_into id waker buf st ≡ read_empty waker buf st
unfolding poll_read_into
poll_read_into-nil st id waker buf e = ground arith

poll_read_into-cons :
    (st : ChanState) (id waker : ℕ) (buf : ReadBuf) (d : Data) (rest : List Data)
    → st.inbox ≡ d ∷ rest
    → poll_read_into id waker buf st ≡ read_front id d rest buf st
unfolding poll_read_into
poll_read_into-cons st id waker buf d rest e = ground arith

module _ (st : ChanState) (v : IsValid st) where
  idle-Reads :
      (buf : ReadBuf) (d : Done (Poll (Result IoErrorKind (Unit {0})) × ReadBuf))
      → st.inbox ≡ []
      → d.value.1 ≡ buf
      → d.state.inbox ≡ st.inbox
      → d.state.flow ≡ st.flow
      → Reads st buf d
  idle-Reads buf d e b i f = record {
    ordered = rw (b, i);
    room = rw b;
    credited = rw (b, f);
    progress = λ _ n. absurd (n e);
  }

  read_empty-idle :
      (waker : ℕ) (buf : ReadBuf)
      → ((read_empty waker buf st).value.1 ≡ buf)
        × ((read_empty waker buf st).state.inbox ≡ st.inbox)
        × ((read_empty waker buf st).state.flow ≡ st.flow)
  unfolding read_empty
  read_empty-idle waker buf = (ground arith, ground arith, ground arith)

  read_empty-Reads :
      (waker : ℕ) (buf : ReadBuf) → st.inbox ≡ [] → Reads st buf (read_empty waker buf st)
  read_empty-Reads waker buf i =
      let (b, k, f) = read_empty-idle waker buf in idle-Reads buf (read_empty waker buf st) i b k f

  read_front-Reads :
      (id : ℕ) (d : Data) (rest : List Data) (buf : ReadBuf)
      → st.inbox ≡ d ∷ rest
      → Reads st buf (read_front id d rest buf st)
  unfolding read_front
  read_front-Reads id d rest buf e =
      let n = min (length (data_bytes d)) buf.remaining in
      let c : contents st.inbox ≡ data_bytes d ++ contents rest = rw e in
      let h : length (data_bytes d) + inbox_bytes rest ≤ st.flow.recv_unreleased = rw e at v.held in
      let full : 1 ≤ length (data_bytes d) = (rw e at v.filled).0 in
      let (_, r, _) = release_ok_lem st.flow n v.flow_ok (omega (arith, h)) in
      let front = take n (data_bytes d) in
      let l : length front ≡ n = omega (arith, length-take n (data_bytes d)) in
      let m = length-append buf.filled front in
      elim (Bool-cases (n == 0)) [
        | inl z ↦
            rw (z, read_front)
              (record {
                ordered = refl;
                room = refl;
                credited = refl;
                progress = λ k _. absurd (ground (arith, full));
              })
        | inr z ↦
            rw (z, read_front)
              (record {
                ordered =
                    append_assoc buf.filled front _
                    ∙ ap (◌++◌ buf.filled) (
                        ap (◌++◌ front) (contents-advanced d n rest)
                        ∙ sym (append_assoc front (drop n (data_bytes d)) (contents rest))
                        ∙ ap (λ b. b ++ contents rest) (take-append-drop n (data_bytes d))
                        ∙ sym c);
                room = omega (arith, m, l);
                credited = omega (arith, m, l, r);
                progress = λ k _. (refl, ground (arith, m, l));
              })
      ]

  -- A read moves bytes from the front of the inbox to the end of the buffer, in order and as many as
  -- it takes off the room; just these are released to the flow control. With room in the buffer and data
  -- in the inbox it makes progress, so an empty read is never taken for the end of the stream.
  pub poll_read_into-Reads :
      (id waker : ℕ) (buf : ReadBuf) → Reads st buf (poll_read_into id waker buf st)
  poll_read_into-Reads id waker buf = elim (List-cases st.inbox) [
    | inl e ↦ rw (poll_read_into-nil st id waker buf e) (read_empty-Reads waker buf e)
    | inr (d, rest, e) ↦
        rw (poll_read_into-cons st id waker buf d rest e) (read_front-Reads id d rest buf e)
  ]
