-- ===== src/Flow/Safety.antt =====
-- Two endpoints that run flow.rs never violate flow control.
use enzarb.Base.{
  ℕ, ◌+◌, ◌≤◌, ◌≡◌, refl, Bool, true, false, Option, List, [], ◌∷◌, ◌++◌, arith, ok, ◌⊎◌, inl, inr,
  Result-cases,
}
use enzarb.Frame.Types.{max_credit}
use enzarb.Flow.{
  FlowControl, new, on_send, on_window, close_local, on_data, release, flush_grant, on_close_remote,
}
use enzarb.Flow.Invariant.{
  IsValid, new-IsValid, on_data-IsValid, release-IsValid, flush_grant-IsValid,
  on_close_remote-IsValid,
}
use enzarb.Flow.Methods.{
  on_send-ok, close_local-ok, on_window-ok, on_data-ok, release-ok, flush_grant-ok,
}
use enzarb.Flow.Link.{
  Item, payload, closing, Link, bytes, sum, to_list, opened, Step, send, close, deliver,
  deliver_close, consume, flush, grant, Reach, here, next, IsOpen, IsClosing, InOrder,
}

-- The credit that the receiver has given out is what the sender holds, what is on the way as data,
-- and what is on the way as grants; after a local close the sender gives up its part.
pub record IsSound (w : ℕ) (l : Link) : Type 0 where
  pub valid_receiver : IsValid w l.receiver
  pub credit : l.sender.send_credit + bytes l.wire + sum l.grants ≤ l.receiver.recv_granted
  pub exact :
      (l.sender.local_closed ≡ true)
      ⊎ (l.sender.send_credit + bytes l.wire + sum l.grants ≡ l.receiver.recv_granted)
  pub closed_credit : (l.sender.local_closed ≡ false) ⊎ (l.sender.send_credit ≡ 0)
  pub order : InOrder l.sender.local_closed l.receiver.remote_closed l.wire

bytes-append : (is : List Item) (i : Item) → bytes (is ++ (i ∷ [])) ≡ bytes is + bytes (i ∷ [])
bytes-append [] i = omega arith
bytes-append (payload n ∷ is) i = omega (arith, bytes-append is i)
bytes-append (closing ∷ is) i = bytes-append is i

sum-append : (gs : List ℕ) (g : Option ℕ) → sum (gs ++ to_list g) ≡ sum gs + sum (to_list g)
sum-append [] g = omega arith
sum-append (x ∷ gs) g = omega (arith, sum-append gs g)

IsOpen-payload : (is : List Item) (n : ℕ) → IsOpen is → IsOpen (is ++ (payload n ∷ []))
IsOpen-payload [] n h = tt
IsOpen-payload (payload m ∷ is) n h = IsOpen-payload is n h
IsOpen-payload (closing ∷ is) n h = elim h [ ]

IsOpen-closing : (is : List Item) → IsOpen is → IsClosing (is ++ (closing ∷ []))
IsOpen-closing [] h = refl
IsOpen-closing (payload m ∷ is) h = IsOpen-closing is h
IsOpen-closing (closing ∷ is) h = elim h [ ]

-- Of an open sender nothing closed is on the way, and the receiver has seen no CLOSE.
pub InOrder-IsOpen :
    (lc rc : Bool) (is : List Item) → lc ≡ false → InOrder lc rc is → (rc ≡ false) × IsOpen is
InOrder-IsOpen false false is e h = (refl, h)
InOrder-IsOpen false true is e h = elim h [ ]
InOrder-IsOpen true rc is e h = cc

open-InOrder :
    (lc rc : Bool) (is : List Item) → lc ≡ false → rc ≡ false → IsOpen is → InOrder lc rc is
open-InOrder lc rc is e f h = rw (e, f) h

closing-InOrder :
    (lc rc : Bool) (is : List Item) → lc ≡ true → rc ≡ false → IsClosing is → InOrder lc rc is
closing-InOrder lc rc is e f h = rw (e, f) h

InOrder-deliver :
    (lc rc : Bool) (n : ℕ) (is : List Item)
    → InOrder lc rc (payload n ∷ is)
    → (rc ≡ false) × InOrder lc rc is
InOrder-deliver false false n is h = (refl, h)
InOrder-deliver false true n is h = elim h [ ]
InOrder-deliver true false n is h = (refl, h)
InOrder-deliver true true n is h = cc

InOrder-deliver_close :
    (lc rc : Bool) (is : List Item) → InOrder lc rc (closing ∷ is) → InOrder lc true is
InOrder-deliver_close false false is h = elim h [ ]
InOrder-deliver_close false true is h = elim h [ ]
InOrder-deliver_close true false is h = h
InOrder-deliver_close true true is h = cc

module _ {w : ℕ} (l : Link) (s : IsSound w l) where
  send-IsSound :
      (n : ℕ) (c : FlowControl)
      → on_send l.sender n ≡ ok c
      → IsSound w (record l { sender = c; wire = l.wire ++ (payload n ∷ []) })
  send-IsSound n c e =
      let (lc, lc', eq) = on_send-ok l.sender c n e in
      let (rc, op) = InOrder-IsOpen _ _ l.wire lc s.order in
      let b = bytes-append l.wire (payload n) in
      record {
        valid_receiver = s.valid_receiver;
        credit = ground (arith, b);
        exact = ground (arith, b);
        closed_credit = inl lc';
        order = open-InOrder _ _ _ lc' rc (IsOpen-payload l.wire n op);
      }

  close-IsSound :
      (c : FlowControl)
      → close_local l.sender ≡ ok c
      → IsSound w (record l { sender = c; wire = l.wire ++ (closing ∷ []) })
  close-IsSound c e =
      let (lc, lc', z) = close_local-ok l.sender c e in
      let (rc, op) = InOrder-IsOpen _ _ l.wire lc s.order in
      let b = bytes-append l.wire closing in
      record {
        valid_receiver = s.valid_receiver;
        credit = ground (arith, b);
        exact = inl lc';
        closed_credit = inr z;
        order = closing-InOrder _ _ _ lc' rc (IsOpen-closing l.wire op);
      }

  deliver-IsSound :
      (n : ℕ) (rest : List Item) (c : FlowControl)
      → l.wire ≡ payload n ∷ rest
      → on_data l.receiver n ≡ ok c
      → IsSound w (record l { receiver = c; wire = rest })
  deliver-IsSound n rest c q e =
      let (rc, rc', eq) = on_data-ok l.receiver c n e in
      let (_, o) = InOrder-deliver _ _ n rest (rw q at s.order) in
      let b : bytes l.wire ≡ n + bytes rest = rw q in
      record {
        valid_receiver = on_data-IsValid l.receiver s.valid_receiver n c e;
        credit = ground (arith, b);
        exact = ground (arith, b);
        closed_credit = s.closed_credit;
        order = rw rc' (rw rc at o);
      }

  deliver_close-IsSound :
      (rest : List Item)
      → l.wire ≡ closing ∷ rest
      → IsSound w (record l { receiver = on_close_remote l.receiver; wire = rest })
  unfolding on_close_remote
  deliver_close-IsSound rest q =
      let b : bytes l.wire ≡ bytes rest = rw q in
      record {
        valid_receiver = on_close_remote-IsValid l.receiver s.valid_receiver;
        credit = ground (arith, b);
        exact = ground (arith, b);
        closed_credit = s.closed_credit;
        order = InOrder-deliver_close _ _ rest (rw q at s.order);
      }

  consume-IsSound :
      (n : ℕ) (c : FlowControl) (g : Option ℕ)
      → release l.receiver n ≡ ok (c, g)
      → IsSound w (record l { receiver = c; grants = l.grants ++ to_list g })
  consume-IsSound n c g e =
      let (rc, eq) = release-ok l.receiver c n g s.valid_receiver e in
      let b = sum-append l.grants g in
      record {
        valid_receiver = release-IsValid l.receiver s.valid_receiver n c g e;
        credit = ground (arith, b);
        exact = ground (arith, b);
        closed_credit = s.closed_credit;
        order = rw rc s.order;
      }

  flush-IsSound : IsSound w (record l {
    receiver = (flush_grant l.receiver).0;
    grants = l.grants ++ to_list (flush_grant l.receiver).1;
  })
  flush-IsSound =
      let (rc, eq) = flush_grant-ok l.receiver s.valid_receiver in
      let b = sum-append l.grants (flush_grant l.receiver).1 in
      record {
        valid_receiver = flush_grant-IsValid l.receiver s.valid_receiver;
        credit = ground (arith, b, eq);
        exact = ground (arith, b, eq);
        closed_credit = s.closed_credit;
        order = rw rc s.order;
      }

  grant-IsSound :
      (g : ℕ) (rest : List ℕ) (c : FlowControl)
      → l.grants ≡ g ∷ rest
      → on_window l.sender g ≡ ok c
      → IsSound w (record l { sender = c; grants = rest })
  grant-IsSound g rest c q e =
      let b : sum l.grants ≡ g + sum rest = rw q in
      let (lc, eq) =
        on_window-ok l.sender c g
          (omega (arith, b, s.credit, s.valid_receiver.conserved, s.valid_receiver.window_fits))
          e in
      record {
        valid_receiver = s.valid_receiver;
        credit = ground (arith, b);
        exact = ground (arith, b);
        closed_credit = ground (arith);
        order = rw lc s.order;
      }

-- Whatever the endpoints do, the credit stays accounted for.
pub Step-IsSound : {w : ℕ} {l m : Link} → Step l m → IsSound w l → IsSound w m
Step-IsSound (send l n c e) s = send-IsSound l s n c e
Step-IsSound (close l c e) s = close-IsSound l s c e
Step-IsSound (deliver l n rest c q e) s = deliver-IsSound l s n rest c q e
Step-IsSound (deliver_close l rest q) s = deliver_close-IsSound l s rest q
Step-IsSound (consume l n c g e) s = consume-IsSound l s n c g e
Step-IsSound (flush l) s = flush-IsSound l s
Step-IsSound (grant l g rest c q e) s = grant-IsSound l s g rest c q e

opened-IsSound : (w : ℕ) → w ≤ max_credit → IsSound w (opened w)
opened-IsSound w h = record {
  valid_receiver = new-IsValid w w h;
  credit = unfold new in omega arith;
  exact = inr (unfold new in omega arith);
  closed_credit = inl (unfold new in refl);
  order = unfold new in tt;
}

-- In every history of a channel, what the receiver has granted is what an open sender holds plus the data and the
-- grants on the way, at most that after a local close, and nothing is on the way behind a CLOSE.
pub Reach-IsSound : {w : ℕ} {l : Link} → w ≤ max_credit → Reach (opened w) l → IsSound w l
Reach-IsSound {w} h here = opened-IsSound w h
Reach-IsSound h (next r st) = Step-IsSound st (Reach-IsSound h r)

on_data_total :
    (c : FlowControl) (n : ℕ)
    → c.remote_closed ≡ false
    → n ≤ c.recv_granted
    → (d : FlowControl) × (on_data c n ≡ ok d)
unfolding on_data
on_data_total c n h k = elim (Result-cases (on_data c n)) [
  | inl found ↦ found
  | inr (x, e) ↦ absurd (ground arith)
]

on_window_total :
    (c : FlowControl) (g : ℕ)
    → c.send_credit + g ≤ max_credit
    → (d : FlowControl) × (on_window c g ≡ ok d)
unfolding on_window
on_window_total c g h = elim (Result-cases (on_window c g)) [
  | inl found ↦ found
  | inr (x, e) ↦ absurd (ground arith)
]

-- In every history of a channel, the data frame that is next to arrive is accepted: it neither
-- overruns the credit nor comes behind a CLOSE.
pub Reach-on_data :
    (w n : ℕ) (l : Link) (rest : List Item)
    → w ≤ max_credit
    → Reach (opened w) l
    → l.wire ≡ payload n ∷ rest
    → (c : FlowControl) × (on_data l.receiver n ≡ ok c)
Reach-on_data w n l rest h r q =
    let s = Reach-IsSound h r in
    let b : bytes l.wire ≡ n + bytes rest = rw q in
    on_data_total l.receiver n (InOrder-deliver _ _ n rest (rw q at s.order)).0
      (omega (arith, b, s.credit))

-- In every history of a channel, the grant that is next to arrive does not overflow the credit.
pub Reach-on_window :
    (w g : ℕ) (l : Link) (rest : List ℕ)
    → w ≤ max_credit
    → Reach (opened w) l
    → l.grants ≡ g ∷ rest
    → (c : FlowControl) × (on_window l.sender g ≡ ok c)
Reach-on_window w g l rest h r q =
    let s = Reach-IsSound h r in
    let b : sum l.grants ≡ g + sum rest = rw q in
    on_window_total l.sender g
      (omega (arith, b, s.credit, s.valid_receiver.conserved, s.valid_receiver.window_fits))
