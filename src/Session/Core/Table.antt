-- ===== src/Session/Core/Table.antt =====
-- session/core.rs: the tables of `State`, and that what arrives keeps them consistent.
pub mod Effects
pub mod Replies
pub mod Messages
pub mod Rounds
pub mod Users
use enzarb.Base.{
  ℕ, ◌≡◌, ◌≢◌, refl, ap, sym, ◌∙◌, arith, Bool, true, false, ◌||◌, Bool-cases, Option-cases, inl,
  inr, Option, none, some, List, [], ◌∷◌, ◌++◌, ◌==◌, if◌then◌else◌, is_some, Result, ok, err,
}
use enzarb.Base.Dict.{
  lookup, contains, erase, insert, mem, remove, add, lookup-erase, lookup-insert, mem-remove,
}
use enzarb.Session.Core.State.{State, PendingOpen, Pending, in_use}
use enzarb.Session.Core.Outbound.{emptied}
use enzarb.Session.Core.Client.{promoted}

-- No id is 0, no id is both reserved and a channel, and an open that waits for its answer has its id reserved.
pub record IsTable (s : State) : Type 0 where
  pub nonzero : (id : ℕ) → in_use s id ≡ true → id ≢ 0
  pub apart : (id : ℕ) → contains id s.channels ≡ true → mem id s.reserved ≡ false
  pub waiting : (id : ℕ) → contains id s.pending_open ≡ true → mem id s.reserved ≡ true

pub emptied-IsTable : (s : State) → IsTable (emptied s)
unfolding in_use
emptied-IsTable s = record {
  nonzero = λ id h. ground arith;
  apart = λ id h. ground arith;
  waiting = λ id h. ground arith;
}

pub reserved-IsTable :
    (c : ℕ) (s : State)
    → c ≢ 0
    → in_use s c ≡ false
    → IsTable s
    → IsTable (record s { reserved = add c s.reserved })
unfolding in_use
reserved-IsTable c s c0 free t = record {
  nonzero = λ id h. ground (arith, t.nonzero id, mem-remove id c s.reserved);
  apart = λ id h. ground (arith, t.apart id, mem-remove id c s.reserved);
  waiting = λ id h. ground (arith, t.waiting id, mem-remove id c s.reserved);
}

pub dropped-IsTable :
    (c : ℕ) (s : State)
    → in_use s c ≡ false
    → IsTable s
    → IsTable (record s { reserved = remove c (add c s.reserved) })
unfolding in_use
dropped-IsTable c s free t = record {
  nonzero = λ id h.
      ground (arith, t.nonzero id, mem-remove id c (add c s.reserved), mem-remove id c s.reserved);
  apart = λ id h.
      ground (arith, t.apart id, mem-remove id c (add c s.reserved), mem-remove id c s.reserved);
  waiting = λ id h.
      ground (arith, t.waiting id, mem-remove id c (add c s.reserved), mem-remove id c s.reserved);
}

pub opening-IsTable :
    (c : ℕ) (p : PendingOpen) (s : State)
    → c ≢ 0
    → in_use s c ≡ false
    → IsTable s
    → IsTable (record s { reserved = add c s.reserved; pending_open = insert c p s.pending_open })
unfolding in_use
opening-IsTable c p s c0 free t = record {
  nonzero = λ id h. ground (arith, t.nonzero id, mem-remove id c s.reserved);
  apart = λ id h. ground (arith, t.apart id, mem-remove id c s.reserved);
  waiting = λ id h.
      ground (arith, t.waiting id, mem-remove id c s.reserved, lookup-insert id c p s.pending_open);
}

pub promoted-IsTable :
    (c addr : ℕ) (s : State)
    → contains c s.pending_open ≡ true
    → IsTable s
    → IsTable (promoted c addr s)
unfolding in_use
promoted-IsTable c addr s h0 t = record {
  nonzero = λ id h. ground (
    arith,
    t.nonzero id,
    t.waiting id,
    mem-remove id c s.reserved,
    lookup-insert id c addr s.channels,
  );
  apart = λ id h.
      ground (arith, t.apart id, mem-remove id c s.reserved, lookup-insert id c addr s.channels);
  waiting = λ id h.
      ground (arith, t.waiting id, mem-remove id c s.reserved, lookup-erase id c s.pending_open);
}

pub refused-IsTable :
    (c : ℕ) (s : State)
    → IsTable s
    → IsTable (record s { reserved = remove c s.reserved; pending_open = erase c s.pending_open })
unfolding in_use
refused-IsTable c s t = record {
  nonzero = λ id h. ground (arith, t.nonzero id, mem-remove id c s.reserved);
  apart = λ id h. ground (arith, t.apart id, mem-remove id c s.reserved);
  waiting = λ id h.
      ground (arith, t.waiting id, mem-remove id c s.reserved, lookup-erase id c s.pending_open);
}

pub forgotten-IsTable :
    (c : ℕ) (s : State) → IsTable s → IsTable (record s { channels = erase c s.channels })
unfolding in_use
forgotten-IsTable c s t = record {
  nonzero = λ id h. ground (arith, t.nonzero id, lookup-erase id c s.channels);
  apart = λ id h. ground (arith, t.apart id, lookup-erase id c s.channels);
  waiting = t.waiting;
}

pub pending-IsTable :
    (ps : List Pending) (s : State) → IsTable s → IsTable (record s { pending = ps })
unfolding in_use
pending-IsTable ps s t = record { nonzero = t.nonzero; apart = t.apart; waiting = t.waiting }
