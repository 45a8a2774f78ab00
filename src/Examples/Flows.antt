-- ===== src/Examples/Flows.antt =====
-- flow.rs: a channel with a window of 8 bytes, on which 5 bytes are sent, delivered and consumed.
use enzarb.Base.{ℕ, ◌+◌, ◌≤◌, ◌≡◌, refl, arith, some, [], ◌∷◌, ok}
use enzarb.Frame.Types.{max_credit}
use enzarb.Flow.{FlowControl, new, on_send, on_data, on_window, release, sendable}
use enzarb.Flow.Invariant.{IsValid, Step-IsValid, release_grant, new-IsValid}
use enzarb.Flow.Invariant
use enzarb.Flow.Link.{Link, Reach, here, next, send, deliver, consume, grant, opened, payload}
use enzarb.Flow.Safety.{IsSound, Reach-IsSound, Reach-on_data, Reach-on_window}
use enzarb.Flow.Progress.{quiet-sendable}

-- The endpoints, by what they hold.
abbrev side : ℕ → ℕ → ℕ → ℕ → FlowControl
side credit granted unreleased held = record (new 8 8) {
  send_credit = credit;
  recv_granted = granted;
  recv_unreleased = unreleased;
  pending_grant = held;
}

abbrev after_send : Link
after_send = record (opened 8) { sender = side 3 8 0 0; wire = payload 5 ∷ [] }

abbrev after_deliver : Link
after_deliver = record after_send { receiver = side 8 3 5 0; wire = [] }

abbrev after_consume : Link
after_consume = record after_deliver { receiver = side 8 8 0 0; grants = 5 ∷ [] }

abbrev after_grant : Link
after_grant = record after_consume { sender = side 8 8 0 0; grants = [] }

sending : Reach (opened 8) after_send
sending = next here (send (opened 8) 5 (side 3 8 0 0) (unfold new on_send in refl))

delivered : Reach (opened 8) after_deliver
delivered = next sending (deliver after_send 5 [] (side 8 3 5 0) refl (unfold new on_data in refl))

consumed : Reach (opened 8) after_consume
consumed =
    next delivered (consume after_deliver 5 (side 8 8 0 0) (some 5) (unfold new release in refl))

granted : Reach (opened 8) after_grant
granted =
    next consumed (grant after_consume 5 [] (side 8 8 0 0) refl (unfold new on_window in refl))

Reach-on_data_example : (c : FlowControl) × (on_data (opened 8).receiver 5 ≡ ok c)
Reach-on_data_example = Reach-on_data 8 5 after_send [] (omega arith) sending refl

Reach-on_window_example : (c : FlowControl) × (on_window (side 3 8 0 0) 5 ≡ ok c)
Reach-on_window_example = Reach-on_window 8 5 after_consume [] (omega arith) consumed refl

Reach-IsSound_example : IsSound 8 after_consume
Reach-IsSound_example = Reach-IsSound (omega arith) consumed

quiet-sendable_example : sendable (side 8 8 0 0) 4 ≡ 4
quiet-sendable_example =
    quiet-sendable 8 4 after_grant (omega arith) granted
      (record { no_data = refl; no_grants = refl; consumed = unfold new in refl })
      (unfold new in refl) (omega arith)

Step-IsValid_example : IsValid 8 (side 8 3 5 0)
Step-IsValid_example =
    Step-IsValid (new 8 8) (side 8 3 5 0) (new-IsValid 8 8 (omega arith))
      (Invariant.receives 5 (unfold new on_data in refl))

release_grant_example :
    (1 ≤ 5)
    × (5 ≤ max_credit)
    × ((side 8 8 0 0).recv_granted ≡ (side 8 3 5 0).recv_granted + 5)
    × ((side 8 8 0 0).pending_grant ≡ 0)
release_grant_example =
    release_grant (side 8 3 5 0)
      (Step-IsValid (new 8 8) (side 8 3 5 0) (new-IsValid 8 8 (omega arith))
        (Invariant.receives 5 (unfold new on_data in refl)))
      5 5 (side 8 8 0 0) (unfold new release in refl)
