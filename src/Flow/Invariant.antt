-- ===== src/Flow/Invariant.antt =====
-- What every method of one endpoint keeps: the bytes of the receive window are conserved.
use enzarb.Base.{ℕ, ◌+◌, ◌/◌, ◌≤◌, ◌<◌, max, ◌≡◌, true, false, Option, some, arith, ok, ◌⊎◌}
use enzarb.Frame.Types.{max_credit}
use enzarb.Flow.{
  FlowControl, new, on_send, on_window, close_local, on_data, release, flush_grant, on_close_remote,
}

-- `window` is the receive window that the endpoint opened with.
pub record IsValid (window : ℕ) (c : FlowControl) : Type 0 where
  pub conserved : c.recv_granted + c.recv_unreleased + c.pending_grant ≡ window
  pub window_fits : window ≤ max_credit
  pub credit_fits : c.send_credit ≤ max_credit
  pub threshold : c.grant_threshold ≡ max (window / 2) 1
  pub closed_credit : (c.local_closed ≡ false) ⊎ (c.send_credit ≡ 0)
  pub regrants : (c.remote_closed ≡ true) ⊎ (c.pending_grant < c.grant_threshold)

pub new-IsValid :
    (initial_send initial_recv : ℕ)
    → initial_recv ≤ max_credit
    → IsValid initial_recv (new initial_send initial_recv)
unfolding new
new-IsValid s r h = ground arith

module _ {w : ℕ} (c : FlowControl) (v : IsValid w c) where
  pub on_send-IsValid : (n : ℕ) (d : FlowControl) → on_send c n ≡ ok d → IsValid w d
  unfolding on_send
  on_send-IsValid n d e = ground arith

  pub on_window-IsValid : (n : ℕ) (d : FlowControl) → on_window c n ≡ ok d → IsValid w d
  unfolding on_window
  on_window-IsValid n d e = ground arith

  pub close_local-IsValid : (d : FlowControl) → close_local c ≡ ok d → IsValid w d
  unfolding close_local
  close_local-IsValid d e = ground arith

  pub on_data-IsValid : (n : ℕ) (d : FlowControl) → on_data c n ≡ ok d → IsValid w d
  unfolding on_data
  on_data-IsValid n d e = ground arith

  pub release-IsValid :
      (n : ℕ) (d : FlowControl) (g : Option ℕ) → release c n ≡ ok (d, g) → IsValid w d
  unfolding release
  release-IsValid n d g e = ground arith

  pub flush_grant-IsValid : IsValid w (flush_grant c).0
  unfolding flush_grant
  flush_grant-IsValid = ground arith

  pub on_close_remote-IsValid : IsValid w (on_close_remote c)
  unfolding on_close_remote
  on_close_remote-IsValid = ground arith

  -- A grant is the credit of a valid WINDOW frame, and is exactly what it adds to the peer's credit.
  pub release_grant :
      (n g : ℕ) (d : FlowControl)
      → release c n ≡ ok (d, some g)
      → (1 ≤ g) × (g ≤ max_credit) × (d.recv_granted ≡ c.recv_granted + g) × (d.pending_grant ≡ 0)
  unfolding release
  release_grant n g d e = ground arith

  pub flush_grant_grant :
      (g : ℕ)
      → (flush_grant c).1 ≡ some g
      → (1 ≤ g) × (g ≤ max_credit) × ((flush_grant c).0.recv_granted ≡ c.recv_granted + g)
  unfolding flush_grant
  flush_grant_grant g e = ground arith

-- Any method call of an endpoint that returns no error.
pub data Step (c : FlowControl) (d : FlowControl) : Type 0 where
  sends : (n : ℕ) → on_send c n ≡ ok d → Step c d
  gains : (n : ℕ) → on_window c n ≡ ok d → Step c d
  closes : close_local c ≡ ok d → Step c d
  receives : (n : ℕ) → on_data c n ≡ ok d → Step c d
  releases : (n : ℕ) (g : Option ℕ) → release c n ≡ ok (d, g) → Step c d
  flushes : d ≡ (flush_grant c).0 → Step c d
  hears_close : d ≡ on_close_remote c → Step c d

-- Every method keeps the receive window conserved, the credits within 2^31 - 1, and less than
-- half the window waiting to be granted again while the peer may still send.
pub Step-IsValid : {w : ℕ} (c d : FlowControl) → IsValid w c → Step c d → IsValid w d
Step-IsValid c d v (sends n e) = on_send-IsValid c v n d e
Step-IsValid c d v (gains n e) = on_window-IsValid c v n d e
Step-IsValid c d v (closes e) = close_local-IsValid c v d e
Step-IsValid c d v (receives n e) = on_data-IsValid c v n d e
Step-IsValid c d v (releases n g e) = release-IsValid c v n d g e
Step-IsValid c d v (flushes e) = rw e (flush_grant-IsValid c v)
Step-IsValid c d v (hears_close e) = rw e (on_close_remote-IsValid c v)
