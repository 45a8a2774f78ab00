-- ===== src/Session/Channel/Reading.antt =====
-- Receiving keeps the invariant of a channel: what leaves the inbox is released.
use enzarb.Base.{
  ℕ, ◌+◌, ◌-◌, ◌≤◌, min, ◌≡◌, refl, true, false, ◌||◌, List, [], ◌∷◌, arith, All, Option-cases,
  List-cases, Bool-cases, inl, inr, ◌⊎◌, length, length-drop, is_some, is_empty, ◌==◌,
}
use enzarb.Session.Channel.{Data, bin, json, data_bytes, ChanState}
use enzarb.Session.Channel.Halves.{
  poll_item, item_of, ReadBuf, poll_read_into, read_front, read_empty, advance, advanced,
  inbox_bytes,
}
use enzarb.Session.Channel.Invariant.{IsFilled, IsValid, release_ok_lem}

pub nonempty-cases :
    (b : List ℕ) → ((is_empty b ≡ true) × (length b ≡ 0)) ⊎ ((is_empty b ≡ false) × (1 ≤ length b))
nonempty-cases [] = inl (refl, refl)
nonempty-cases (x ∷ b) = inr (refl, omega arith)

pub length-advance :
    (d : Data) (n : ℕ) → length (data_bytes (advance d n)) ≡ length (data_bytes d) - n
unfolding advance data_bytes
length-advance (bin b) n = length-drop n b
length-advance (json b) n = length-drop n b

pub advanced-IsFilled :
    (d : Data) (n : ℕ) (rest : List Data)
    → All IsFilled rest
    → n ≤ length (data_bytes d)
    → All IsFilled (advanced d n rest)
      × (inbox_bytes (advanced d n rest) + n ≡ length (data_bytes d) + inbox_bytes rest)
advanced-IsFilled d n rest h k =
    let l = length-advance d n in
    elim (nonempty-cases (data_bytes (advance d n))) [
      | inl (e, z) ↦ rw e (h, omega (arith, l, z))
      | inr (e, z) ↦ rw e ((z, h), omega (arith, l))
    ]

module _ (st : ChanState) (v : IsValid st) where
  open st use {flow, inbox}

  -- Taking an entry off the inbox, or the first bytes of one.
  item_of-IsValid :
      (id waker : ℕ) (ds : List Data) → inbox ≡ ds → IsValid (item_of id waker ds st).state
  unfolding item_of
  item_of-IsValid id waker [] e = elim (Bool-cases (is_some st.remote_close || is_some st.failed)) [
    | inl c ↦ rw c v
    | inr c ↦ rw c (record { flow_ok = v.flow_ok; held = v.held; filled = v.filled })
  ]
  item_of-IsValid id waker (d ∷ rest) e =
      let h : length (data_bytes d) + inbox_bytes rest ≤ flow.recv_unreleased = rw e at v.held in
      let f : IsFilled d × All IsFilled rest = rw e at v.filled in
      let (g, r, _) = release_ok_lem flow (length (data_bytes d)) v.flow_ok (omega (arith, h)) in
      record { flow_ok = g; held = omega (arith, r, h); filled = f.1 }

  pub poll_item-IsValid : (id waker : ℕ) → IsValid (poll_item id waker st).state
  unfolding poll_item
  poll_item-IsValid id waker = item_of-IsValid id waker inbox refl

  pub read_front-IsValid :
      (id : ℕ) (d : Data) (rest : List Data) (buf : ReadBuf)
      → inbox ≡ d ∷ rest
      → IsValid (read_front id d rest buf st).state
  unfolding read_front
  read_front-IsValid id d rest buf e =
      let n = min (length (data_bytes d)) buf.remaining in
      let h : length (data_bytes d) + inbox_bytes rest ≤ flow.recv_unreleased = rw e at v.held in
      let f : IsFilled d × All IsFilled rest = rw e at v.filled in
      let (g, r, _) = release_ok_lem flow n v.flow_ok (omega (arith, h)) in
      let (a, b) = advanced-IsFilled d n rest f.1 (omega arith) in
      elim (Bool-cases (n == 0)) [
        | inl z ↦ rw (z, read_front) v
        | inr z ↦
            rw (z, read_front) (record { flow_ok = g; held = omega (arith, r, h, b); filled = a })
      ]

  read_empty-IsValid : (waker : ℕ) (buf : ReadBuf) → IsValid (read_empty waker buf st).state
  unfolding read_empty
  read_empty-IsValid waker buf = elim (Option-cases st.remote_close) [
    | inr (x, e) ↦ rw (e, read_empty) v
    | inl e ↦ elim (Option-cases st.failed) [
      | inr (y, f) ↦ rw (e, f, read_empty) v
      | inl f ↦
          rw (e, f, read_empty) (record { flow_ok = v.flow_ok; held = v.held; filled = v.filled })
    ]
  ]

  pub poll_read_into-IsValid :
      (id waker : ℕ) (buf : ReadBuf) → IsValid (poll_read_into id waker buf st).state
  unfolding poll_read_into
  poll_read_into-IsValid id waker buf = elim (List-cases inbox) [
    | inl e ↦ rw (e, poll_read_into) (read_empty-IsValid waker buf)
    | inr (d, rest, e) ↦ rw (e, poll_read_into) (read_front-IsValid id d rest buf e)
  ]
