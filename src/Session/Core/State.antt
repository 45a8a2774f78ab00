-- ===== src/Session/Core/State.antt =====
-- session/core.rs: the types of a session and its state.
-- The model is sequential: each function runs to its end with the locks that it takes. A `Chan` that
-- several places share is an address of the heap; a oneshot sender is a number, and what was sent
-- through it is kept in `replies`. `out`, `events` and `woken` are the queues, oldest first.
use enzarb.Base.{
  ℕ, zero, suc, ◌+◌, ◌^◌, Bool, ◌||◌, Option, none, some, List, ◌==◌, if◌then◌else◌, Result, ok,
  err,
}
use enzarb.Base.Text.{Str}
use enzarb.Base.Dict.{contains, mem}
use enzarb.Ctrl.Types.{Ctrl, Open, CredentialKind}
use enzarb.Ctrl.Step.{StepPhase, StepFinished}
use enzarb.Session.Errors.{Role, SessionEnd, SessionError, no_free_channel}
use enzarb.Session.Channel.{ChanState}

pub record StepAccepted : Type 0 where
  pub run_id : Str
  pub state : StepPhase
  pub existing : Bool

pub record StepInfo (Value F64 : Type 0) : Type 0 where
  pub run_id : Str
  pub state : StepPhase
  pub result : Option (StepFinished Value F64)

pub record CredentialInfo : Type 0 where
  pub kind : CredentialKind
  pub configured : Bool
  pub scope : Option Str

-- `Event::Open` carries the fields of its `OpenRequest`.
pub data Event (Value F64 : Type 0) : Type 0 where
  open_event : Open → Event Value F64
  ctrl_event : Ctrl Value F64 → Event Value F64

-- `Pending`, each with its oneshot sender.
pub data Pending : Type 0 where
  step_start step_status : (run_id : Str) (tx : ℕ) → Pending
  credential_status : (tx : ℕ) → Pending

-- What a oneshot sender was given.
pub data Reply (Value F64 : Type 0) : Type 0 where
  opened : Result SessionError (Unit {0}) → Reply Value F64
  accepted : Result SessionError StepAccepted → Reply Value F64
  status : Result SessionError (StepInfo Value F64) → Reply Value F64
  credential : Result SessionError CredentialInfo → Reply Value F64

pub data Out : Type 0 where
  frame : List ℕ → Out
  close : Out

pub record Chan : Type 0 where
  pub id : ℕ
  pub st : ChanState

pub record PendingOpen : Type 0 where
  pub chan : ℕ
  pub tx : ℕ

-- `State`
pub record State : Type 0 where
  pub channels : List (ℕ × ℕ)
  pub reserved : List ℕ
  pub pending_open : List (ℕ × PendingOpen)
  pub pending : List Pending
  pub next_id : ℕ

-- `Inner`, with the heap and the queues that it writes to. `out_open` says whether the writer task
-- still receives, `events_open` whether the receiver of `Events` is there, and `gone` lists the oneshots whose
-- receiver was dropped; `replies` has what every sender was given, its receiver there or not.
pub record Inner (Value F64 : Type 0) : Type 0 where
  pub role : Role
  pub state : State
  pub end : Option SessionEnd
  pub handles : ℕ
  pub heap : ℕ → Chan
  pub next_addr : ℕ
  pub next_tx : ℕ
  pub out : List Out
  pub out_open : Bool
  pub events : List (Event Value F64)
  pub events_open : Bool
  pub replies : List (ℕ × Reply Value F64)
  pub gone : List ℕ
  pub woken : List ℕ

-- `State::in_use`
unfoldable pub in_use : State → ℕ → Bool
in_use s id = contains id s.channels || mem id s.reserved

-- `self.next_id.checked_add(1).unwrap_or(1)`
unfoldable pub next_after : ℕ → ℕ
next_after id = if id + 1 == 2 ^ 32 then 1 else id + 1

-- The rounds of `State::alloc`: the last `next_id`, and the id if one was free.
unfoldable pub alloc_loop : ℕ → State → ℕ → Option ℕ × ℕ
unfolding next_after
alloc_loop zero s id = (none, id)
alloc_loop (suc rounds) s id =
    let more = alloc_loop rounds s (next_after id) in
    if in_use s (next_after id) then more else (some (next_after id), next_after id)

-- `State::alloc`
unfoldable pub alloc : State → Result SessionError ℕ × State
unfolding alloc_loop
alloc s =
    let (found, next) = alloc_loop 1024 s s.next_id in
    (elim found [ some id ↦ ok id | none ↦ err no_free_channel ], record s { next_id = next })
