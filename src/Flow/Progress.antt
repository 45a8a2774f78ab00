-- ===== src/Flow/Progress.antt =====
-- When a sender can go on: what the receiver holds back, and what that means for one large frame.
use enzarb.Base.{ℕ, ◌+◌, ◌-◌, ◌/◌, ◌≤◌, ◌<◌, ◌≡◌, refl, max, false, none, [], ◌∷◌, arith}
use enzarb.Frame.Types.{max_credit, initial_window}
use enzarb.Flow.{new, sendable, on_send, on_data, release}
use enzarb.Flow.Link.{
  payload, Link, opened, Step, send, deliver, consume, Reach, here, next, bytes, sum,
}
use enzarb.Flow.Safety.{IsSound, Reach-IsSound, InOrder-IsOpen}

-- Nothing is on the way, and the application has consumed all that arrived.
pub record IsQuiet (l : Link) : Type 0 where
  pub no_data : l.wire ≡ []
  pub no_grants : l.grants ≡ []
  pub consumed : l.receiver.recv_unreleased ≡ 0

quiet_credit :
    {w : ℕ} (l : Link)
    → IsSound w l
    → IsQuiet l
    → l.sender.local_closed ≡ false
    → w < l.sender.send_credit + max (w / 2) 1
quiet_credit l s q lc =
    let b : bytes l.wire ≡ 0 = rw q.no_data in
    let g : sum l.grants ≡ 0 = rw q.no_grants in
    let (rc, _) = InOrder-IsOpen _ _ l.wire lc s.order in ground (arith, b, g)

-- A sender is never starved: once no data and no grants are on the way and the receiver has consumed all
-- that arrived, an open sender may send any frame of up to half the window.
pub quiet-sendable :
    (w n : ℕ) (l : Link)
    → w ≤ max_credit
    → Reach (opened w) l
    → IsQuiet l
    → l.sender.local_closed ≡ false
    → n + max (w / 2) 1 ≤ w + 1
    → sendable l.sender n ≡ n
unfolding sendable
quiet-sendable w n l h r q lc k = ground (arith, quiet_credit l (Reach-IsSound h r) q lc)

-- After one frame of `p` bytes was sent, delivered and consumed.
abbrev pub sent : ℕ → Link
sent p = record (opened initial_window) {
  sender = record (new initial_window initial_window) { send_credit = initial_window - p };
  wire = payload p ∷ [];
}

abbrev pub received : ℕ → Link
received p = record (sent p) {
  receiver = record (new initial_window initial_window) {
    recv_granted = initial_window - p;
    recv_unreleased = p;
  };
  wire = [];
}

abbrev pub withheld : ℕ → Link
withheld p = record (received p) {
  receiver = record (new initial_window initial_window) {
    recv_granted = initial_window - p;
    pending_grant = p;
  };
}

sent-Step : (p : ℕ) → p < initial_window / 2 → Step (opened initial_window) (sent p)
sent-Step p h = send (opened initial_window) p (sent p).sender (unfold new on_send in ground arith)

received-Step : (p : ℕ) → p < initial_window / 2 → Step (sent p) (received p)
received-Step p h =
    deliver (sent p) p [] (received p).receiver refl (unfold new on_data in ground arith)

withheld-Step : (p : ℕ) → p < initial_window / 2 → Step (received p) (withheld p)
withheld-Step p h =
    consume (received p) p (withheld p).receiver none (unfold new release in ground arith)

-- The receiver gives nothing back before half the window is consumed: after a frame of fewer
-- bytes was sent, delivered and consumed in full, nothing is on the way and the sender's credit
-- stays short of the initial window by the size of that frame.
pub withheld_credit :
    (p : ℕ)
    → p < initial_window / 2
    → Reach (opened initial_window) (withheld p)
      × IsQuiet (withheld p)
      × (sendable (withheld p).sender initial_window ≡ initial_window - p)
unfolding new sendable
withheld_credit p h = (
  next (next (next here (sent-Step p h)) (received-Step p h)) (withheld-Step p h),
  record { no_data = refl; no_grants = refl; consumed = refl },
  ground arith,
)
