-- ===== src/Examples/Channels.antt =====
-- session/channel.rs: a new channel, one with data, one that sends, and a JSON value that never leaves.
use enzarb.Base.{
  ℕ, zero, suc, ◌≡◌, ◌≢◌, ◌≤◌, ◌<◌, ◌⊎◌, refl, arith, false, some, List, [], ◌∷◌, ok, length,
}
use enzarb.Frame.Types.{initial_window}
use enzarb.Flow
use enzarb.Flow.Link.{Reach, opened}
use enzarb.Flow.Progress.{IsQuiet, withheld}
use enzarb.Session.Channel.{ChanState, new, Done, pending, panicked, poll_reserve}
use enzarb.Session.Channel.Halves.{poll_read_into, Sent, send, send_json}
use enzarb.Session.Channel.Invariant.{IsValid}
use enzarb.Session.Channel.Calls.{Call, data_in, window_in, takes_item, run, apply, run-new-IsValid}
use enzarb.Session.Channel.Order.{Reads, poll_read_into-Reads}
use enzarb.Session.Channel.Sending.{Sends, send-Sends}
use enzarb.Session.Channel.Reserve.{poll_reserve-ne-panicked}
use enzarb.Session.Channel.Json.{SentWhole, Waits, send_json-credit, send_json_stalls}
use enzarb.Session.Channel.Wakers.{SameForWriter, SameForReader, Woken, driver_wakes}

abbrev hi : List ℕ
hi = 104 ∷ 105 ∷ []

abbrev calls : List Call
calls = data_in false hi (omega arith) ∷ takes_item 4 ∷ window_in 10 ∷ []

run-new-IsValid_example : IsValid (run 7 calls new)
run-new-IsValid_example = run-new-IsValid 7 calls

abbrev filled : ChanState
filled = run 7 (data_in false hi (omega arith) ∷ []) new

poll_read_into-Reads_example :
    Reads filled
      (record { filled = []; remaining = 1 })
      (poll_read_into 7 4 (record { filled = []; remaining = 1 }) filled)
poll_read_into-Reads_example =
    poll_read_into-Reads filled (run-new-IsValid 7 (data_in false hi (omega arith) ∷ [])) 7 4
      (record { filled = []; remaining = 1 })

send-Sends_example : (d : Done Sent) × (send 7 4 hi new ≡ some d) × Sends 7 hi new d
send-Sends_example = send-Sends 7 4 hi new (omega arith) (omega arith)

poll_reserve-ne-panicked_example : (poll_reserve 4 2 false new).value ≢ panicked
poll_reserve-ne-panicked_example = poll_reserve-ne-panicked 4 2 false new

send_json-credit_example :
    ((length hi ≤ new.flow.send_credit) × SentWhole 7 hi new (send_json 7 4 (ok hi) new))
    ⊎ ((new.flow.send_credit < length hi) × Waits 4 new (send_json 7 4 (ok hi) new))
unfolding new Flow.default Flow.new
send_json-credit_example =
    send_json-credit 7 4 hi new (λ z. omega arith) (omega arith) refl refl (omega arith)
      (omega arith)

-- A body of so many bytes.
unfoldable pub zeros : ℕ → List ℕ
zeros zero = []
zeros (suc n) = 48 ∷ zeros n

pub length-zeros : (n : ℕ) → length (zeros n) ≡ n
unfolding zeros
length-zeros zero = refl
length-zeros (suc n) = omega (arith, length-zeros n)

send_json_stalls_example :
    Reach (opened initial_window) (withheld 1000)
    × IsQuiet (withheld 1000)
    × ((send_json 7 4 (ok (zeros 262000)) (record new { flow = (withheld 1000).sender })).value
        ≡ pending)
send_json_stalls_example =
    send_json_stalls 1000 7 4 (zeros 262000) (omega arith) (omega (arith, length-zeros 262000))
      (omega (arith, length-zeros 262000))

driver_wakes_example :
    let st = record new { read_waker = some 4 } in
    let (t, es) = apply 7 (data_in false hi (omega arith)) st in
    (SameForWriter st t ⊎ Woken st.write_waker t.write_waker es)
    × (SameForReader st t ⊎ Woken st.read_waker t.read_waker es)
driver_wakes_example =
    driver_wakes 7 (record new { read_waker = some 4 }) (data_in false hi (omega arith)) tt
