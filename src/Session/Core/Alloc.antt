-- ===== src/Session/Core/Alloc.antt =====
-- session/core.rs: what `State::alloc` gives.
use enzarb.Base.{
  ℕ, zero, suc, ◌^◌, ◌<◌, ◌≡◌, ◌≢◌, true, false, none, some, ap, ◌∙◌, arith, Bool-cases,
  Option-cases, ok, err, inl, inr,
}
use enzarb.Session.Errors.{SessionError, no_free_channel}
use enzarb.Session.Core.State.{State, in_use, next_after, alloc_loop, alloc}

-- The id after a number of rounds.
abbrev pub nth_after : ℕ → ℕ → ℕ
nth_after zero id = id
nth_after (suc k) id = nth_after k (next_after id)

abbrev pub IsFresh : State → ℕ → Type 0
IsFresh s id = (id ≢ 0) × (id < 2 ^ 32) × (in_use s id ≡ false)

next_after-bounds : (id : ℕ) → id < 2 ^ 32 → (next_after id ≢ 0) × (next_after id < 2 ^ 32)
unfolding next_after
next_after-bounds id h = ground arith

alloc_loop-some :
    (rounds : ℕ) (s : State) (last id : ℕ)
    → last < 2 ^ 32
    → (alloc_loop rounds s last).0 ≡ some id
    → IsFresh s id × ((alloc_loop rounds s last).1 ≡ id)
unfolding alloc_loop
alloc_loop-some zero s last id h e = ground arith
alloc_loop-some (suc rounds) s last id h e =
    let (n0, n32) = next_after-bounds last h in
    elim (Bool-cases (in_use s (next_after last))) [
      | inl t ↦ ground (arith, t, alloc_loop-some rounds s (next_after last) id n32)
      | inr f ↦ ground (arith, f, n0, n32)
    ]

alloc_loop-none :
    (rounds : ℕ) (s : State) (last : ℕ)
    → (alloc_loop rounds s last).0 ≡ none
    → (k : ℕ) → k < rounds
    → in_use s (nth_after (suc k) last) ≡ true
unfolding alloc_loop
alloc_loop-none zero s last e k h = ground arith
alloc_loop-none (suc rounds) s last e zero h = ground arith
alloc_loop-none (suc rounds) s last e (suc k) h =
    ground (arith, alloc_loop-none rounds s (next_after last) _ k)

-- An id that `alloc` gives is neither zero nor in use, and is below 2 ^ 32 when `next_id` was. The
-- state only keeps it as the new `next_id`.
pub alloc-ok :
    (s : State) (id : ℕ)
    → s.next_id < 2 ^ 32
    → (alloc s).0 ≡ ok id
    → IsFresh s id × ((alloc s).1 ≡ record s { next_id = id })
unfolding alloc
alloc-ok s id h e = elim (Option-cases (alloc_loop 1024 s s.next_id).0) [
  | inl n ↦ ground (arith, n)
  | inr (x, x_eq) ↦
      let (fresh, next) = alloc_loop-some 1024 s s.next_id x h x_eq in
      let x_id : x ≡ id = ground (arith, x_eq) in
      (rw (← x_id) fresh, ap (λ n. record s { next_id = n }) (next ∙ x_id))
]

-- If `alloc` gives no id then it gives `NoFreeChannel`, and each of the 1024 ids behind `next_id` is in use.
pub alloc-err :
    (s : State) (e : SessionError) (k : ℕ)
    → (alloc s).0 ≡ err e
    → k < 1024
    → (e ≡ no_free_channel) × (in_use s (nth_after (suc k) s.next_id) ≡ true)
unfolding alloc
alloc-err s e k h less = elim (Option-cases (alloc_loop 1024 s s.next_id).0) [
  | inl n ↦ (ground (arith, n), alloc_loop-none 1024 s s.next_id n k less)
  | inr (x, x_eq) ↦ ground (arith, x_eq)
]
