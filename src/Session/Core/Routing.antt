-- ===== src/Session/Core/Routing.antt =====
-- session/core.rs: which request a reply goes to, and what a request that was not sent leaves behind.
use enzarb.Base.{
  ◌≡◌, ◌↔◌, ◌⊎◌, refl, ap, arith, Bool, true, false, Bool-cases, inl, inr, Option, none, some, List,
  [], ◌∷◌, ◌++◌, ok, err, ◌>>=◌, ==_refl,
}
use enzarb.Base.Text.{Str}
use enzarb.Base.Dict.{mem}
use enzarb.Frame.Types.{FrameError}
use enzarb.Ctrl.Types.{Ctrl}
use enzarb.Ctrl.Step.{StepStart}
use enzarb.Ctrl.Json.{Serde, ctrl_bytes}
use enzarb.Session.Errors.{client, remote, frame_failed}
use enzarb.Session.Core.State.{Inner, Pending, step_start, step_status, credential_status}
use enzarb.Base.Strings.{str_eq_refl, str_eq_sound}
use enzarb.Session.Core.Inbound.{take_first, of_run, attributed, attribute_error}
use enzarb.Session.Core.Outbound.{fail_pending, check_alive, send_ctrl, send_frame}
use enzarb.Session.Core.Client.{start_step, require}

abbrev pub AllFail : (Pending → Bool) → List Pending → Type 0
AllFail p [] = Unit {0}
AllFail p (x ∷ xs) = (p x ≡ false) × AllFail p xs

-- `x` is the first entry of `xs` that passes `p`, and `rest` the others in their order.
pub record IsFirst (p : Pending → Bool) (x : Pending) (rest xs : List Pending) : Type 0 where
  pub before : List Pending
  pub after : List Pending
  pub split : xs ≡ before ++ (x ∷ after)
  pub others : rest ≡ before ++ after
  pub passes : p x ≡ true
  pub earlier : AllFail p before

abbrev add_failing :
    {p : Pending → Bool} {x y : Pending} {rest xs : List Pending}
    → p y ≡ false
    → IsFirst p x rest xs
    → IsFirst p x (y ∷ rest) (y ∷ xs)
add_failing {y} e f = record {
  before = y ∷ f.before;
  after = f.after;
  split = ap (λ l. y ∷ l) f.split;
  others = ap (λ l. y ∷ l) f.others;
  passes = f.passes;
  earlier = (e, f.earlier);
}

-- `position` and `remove`: either the first entry that passes is taken out, or none passes and nothing changes.
pub take_first-cases :
    (p : Pending → Bool) (xs : List Pending)
    → ((x : Pending) × ((take_first p xs).0 ≡ some x) × IsFirst p x (take_first p xs).1 xs)
      ⊎ (((take_first p xs).0 ≡ none) × ((take_first p xs).1 ≡ xs) × AllFail p xs)
unfolding take_first
take_first-cases p [] = inr (refl, refl, tt)
take_first-cases p (y ∷ xs) = elim (Bool-cases (p y)) [
  | inl t ↦ rw (t) (
      inl (
        y,
        refl,
        record { before = []; after = xs; split = refl; others = refl; passes = t; earlier = tt },
      ))
  | inr f ↦ elim (take_first-cases p xs) [
    | inl (x, e, i) ↦ rw (f) (inl (x, e, add_failing f i))
    | inr (e, same, all) ↦ rw (f) (inr (e, ap (λ l. y ∷ l) same, (refl, all)))
  ]
]

-- The run that a request names.
abbrev pub run_of : Pending → Option Str
run_of (step_start run_id tx) = some run_id
run_of (step_status run_id tx) = some run_id
run_of (credential_status tx) = none

pub of_run_iff : (id : Str) (p : Pending) → (of_run id p ≡ true) ↔ (run_of p ≡ some id)
unfolding of_run
of_run_iff id (step_start run_id tx) =
    (λ h. ap some (str_eq_sound run_id id h), λ h. ground (arith, str_eq_refl id))
of_run_iff id (step_status run_id tx) =
    (λ h. ap some (str_eq_sound run_id id h), λ h. ground (arith, str_eq_refl id))
of_run_iff id (credential_status tx) = (λ h. ground arith, λ h. ground arith)

module _ {Value F64 : Type 0} where
  abbrev with_pending : List Pending → Inner Value F64 → Inner Value F64
  with_pending ps w = record w { state = record w.state { pending = ps } }

  -- An `error` that names a run fails the oldest request of that run, and only that one leaves the table. If no request
  -- is of the run then the `error` is not consumed and the session is as it was.
  pub attribute_error-run :
      (code message id : Str) (w : Inner Value F64)
      → ((x : Pending) × (rest : List Pending) × IsFirst (of_run id) x rest w.state.pending
          × (attribute_error code message (some id) w
              ≡ (true, fail_pending x (remote code message) (with_pending rest w))))
        ⊎ (AllFail (of_run id) w.state.pending
            × (attribute_error code message (some id) w ≡ (false, w)))
  unfolding attribute_error attributed
  attribute_error-run code message id w = elim (take_first-cases (of_run id) w.state.pending) [
    | inl (x, e, i) ↦
        inl (
          x,
          (take_first (of_run id) w.state.pending).1,
          i,
          rw (e, attribute_error, attributed) refl,
        )
    | inr (e, same, all) ↦ inr (all, rw (e, same, attribute_error, attributed) refl)
  ]

module _ (J : Serde) where
  open J use {Value, F64}

  -- A `step_start` whose frame does not encode, as when the message exceeds the largest payload, fails with that error,
  -- and its entry stays in the table though nothing was sent: it is the last of `pending`, and the receiver of its oneshot
  -- is gone.
  pub start_step_leaves :
      (step : StepStart Value) (x : FrameError) (w : Inner Value F64)
      → w.role ≡ client
      → w.end ≡ none
      → ctrl_bytes J (Ctrl.step_start step) ≡ err x
      → ((start_step J step w).0 ≡ err (frame_failed x))
        × ((start_step J step w).1.out ≡ w.out)
        × ((start_step J step w).1.state.pending
            ≡ w.state.pending ++ (step_start step.run_id w.next_tx ∷ []))
        × (mem w.next_tx (start_step J step w).1.gone ≡ true)
  unfolding start_step send_ctrl send_frame require check_alive ctrl_bytes
  start_step_leaves step x w c alive e =
      let ready : (require {Value = Value} {F64 = F64} client w >>= (λ _. check_alive w)) ≡ ok tt =
        ground arith in
      rw (ready, e, start_step, send_ctrl, send_frame)
        (refl, refl, refl, ground (arith, ==_refl w.next_tx))
