-- ===== src/Session/Core/Table/Users.antt =====
-- session/core.rs: the calls of a session's users keep the tables consistent.
use enzarb.Base.{◌^◌, ◌<◌, ℕ, ◌≡◌, ◌≢◌, ap, ◌∙◌, false, Result-cases, inl, inr, ok}
use enzarb.Ctrl.Types.{Open, open_channel}
use enzarb.Ctrl.Json.{Serde}
use enzarb.Session.Core.State.{Inner, State, in_use}
use enzarb.Session.Core.Table.{IsTable}
use enzarb.Session.Core.Table.Effects.{same, send_ctrl-state}
use enzarb.Session.Core.Alloc.{alloc-ok}
use enzarb.Session.Core.Table.{opening-IsTable}
use enzarb.Session.Core.State.{alloc}
use enzarb.Session.Core.Client.{open_kind, open_with, checked, reserve_open}
use enzarb.Session.Core.Server.{new_chan}

module _ (J : Serde) where
  open J use {Value, F64}

  open_with-IsTable :
      (o : Open) (id : ℕ) (w : Inner Value F64)
      → id ≢ 0
      → in_use w.state id ≡ false
      → IsTable w.state
      → IsTable (open_with J o id w).1.state
  unfolding open_with new_chan
  open_with-IsTable o id w id0 free t =
      same
        (send_ctrl-state J (open_channel (record o { channel = id }))
          (reserve_open J id w.next_addr (new_chan id w).1))
        (opening-IsTable id (record { chan = w.next_addr; tx = w.next_tx }) w.state id0 free t)

  next_id-IsTable : (n : ℕ) (s : State) → IsTable s → IsTable (record s { next_id = n })
  unfolding in_use
  next_id-IsTable n s t = record { nonzero = t.nonzero; apart = t.apart; waiting = t.waiting }

  alloc-IsTable : (s : State) → IsTable s → IsTable (alloc s).1
  unfolding alloc
  alloc-IsTable s t = next_id-IsTable _ s t

  alloc-free :
      (s : State) (id : ℕ)
      → s.next_id < 2 ^ 32
      → (alloc s).0 ≡ ok id
      → (id ≢ 0) × (in_use (alloc s).1 id ≡ false)
  unfolding in_use
  alloc-free s id h e =
      let (fresh, next) = alloc-ok s id h e in (fresh.0, ap (λ v. in_use v id) next ∙ fresh.2)

  -- `open` keeps the tables consistent, whether it is refused, finds no id, fails to send or waits for its answer.
  pub open_kind-IsTable :
      (o : Open) (w : Inner Value F64)
      → w.state.next_id < 2 ^ 32
      → IsTable w.state
      → IsTable (open_kind J o w).1.state
  unfolding open_kind
  open_kind-IsTable o w h t = elim (Result-cases (checked J w)) [
    | inr (e, c) ↦ rw (c, open_kind) t
    | inl (u, c) ↦ elim (Result-cases (alloc w.state).0) [
      | inr (e, a) ↦ rw (c, a, open_kind) (alloc-IsTable w.state t)
      | inl (id, a) ↦
          rw (c, a, open_kind)
            (open_with-IsTable o id (record w { state = (alloc w.state).1 })
              (alloc-free w.state id h a).0 (alloc-free w.state id h a).1 (alloc-IsTable w.state t))
    ]
  ]
