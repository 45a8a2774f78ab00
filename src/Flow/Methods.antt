-- ===== src/Flow/Methods.antt =====
-- What a method of flow.rs has done when it returns no error.
use enzarb.Base.{ℕ, ◌+◌, ◌≤◌, ◌≡◌, true, false, Option, arith, ok, ◌⊎◌}
use enzarb.Frame.Types.{max_credit}
use enzarb.Flow.{FlowControl, on_send, on_window, close_local, on_data, release, flush_grant}
use enzarb.Flow.Invariant.{IsValid}
use enzarb.Flow.Link.{sum, to_list}

pub on_send-ok :
    (c d : FlowControl) (n : ℕ)
    → on_send c n ≡ ok d
    → (c.local_closed ≡ false) × (d.local_closed ≡ false) × (d.send_credit + n ≡ c.send_credit)
unfolding on_send
on_send-ok c d n e = ground arith

pub close_local-ok :
    (c d : FlowControl)
    → close_local c ≡ ok d
    → (c.local_closed ≡ false) × (d.local_closed ≡ true) × (d.send_credit ≡ 0)
unfolding close_local
close_local-ok c d e = ground arith

-- A grant is taken as it is, or ignored after a local close.
pub on_window-ok :
    (c d : FlowControl) (g : ℕ)
    → c.send_credit + g ≤ max_credit
    → on_window c g ≡ ok d
    → (d.local_closed ≡ c.local_closed)
      × (((c.local_closed ≡ false) × (d.send_credit ≡ c.send_credit + g))
          ⊎ ((c.local_closed ≡ true) × (d.send_credit ≡ c.send_credit)))
unfolding on_window
on_window-ok c d g h e = ground arith

pub on_data-ok :
    (c d : FlowControl) (n : ℕ)
    → on_data c n ≡ ok d
    → (c.remote_closed ≡ false) × (d.remote_closed ≡ false) × (d.recv_granted + n ≡ c.recv_granted)
unfolding on_data
on_data-ok c d n e = ground arith

-- What is released is granted again, at once or later.
pub release-ok :
    {w : ℕ} (c d : FlowControl) (n : ℕ) (g : Option ℕ)
    → IsValid w c
    → release c n ≡ ok (d, g)
    → (d.remote_closed ≡ c.remote_closed) × (d.recv_granted ≡ c.recv_granted + sum (to_list g))
unfolding release
release-ok c d n g v e = ground arith

pub flush_grant-ok :
    {w : ℕ} (c : FlowControl)
    → IsValid w c
    → ((flush_grant c).0.remote_closed ≡ c.remote_closed)
      × ((flush_grant c).0.recv_granted ≡ c.recv_granted + sum (to_list (flush_grant c).1))
unfolding flush_grant
flush_grant-ok c v = ground arith
