-- ===== src/Proxy/Guard/Safety.antt =====
-- What the guard lets through, in both directions.
use enzarb.Base.{
  ℕ, ◌≡◌, refl, ◌≢◌, ◌⊎◌, inl, inr, Bool, true, false, not, ◌||◌, Option, none, some, List, ◌==◌,
  is_some, Bool-cases, if◌then◌else◌, Result, ok, err, arith,
}
use enzarb.Base.Text.{Str, text}
use enzarb.Base.Strings.{str_eq_refl}
use enzarb.Frame.Types.{Frame, FrameType, ctrl, FrameError}
use enzarb.Frame.Codec.{from_bytes}
use enzarb.Ctrl.Types.{
  Ctrl, Open, ChannelKind, pty, acp, unknown, ui, open_channel, resize, error, credential_status,
  file_read, credential_captured, max_repo_len, max_resume_len,
}
use enzarb.Ctrl.Direction.{allowed_from, direction}
use enzarb.Ctrl.Json.{Serde, ctrl_message}
use enzarb.Proxy.Guard.{
  Guard, Allowed, forward, Checked, relay, refuse, answer, check_kind, check_open, check_message,
  check_ctrl, check_typed, check_parsed, check_browser_message, allowed_of, capture,
  is_captured_type, intercept_frame, intercept_typed, intercept_sandbox_message, holds, too_long,
  checkout_too_long,
}

-- The messages that may reach a sandbox from a browser as they are.
pub data MaySend (Value F64 : Type 0) : Ctrl Value F64 → Type 0 where
  terminal :
      (o : Open)
      → o.kind ≡ pty
      → o.claude_token ≡ none
      → o.channel ≢ 0
      → too_long max_repo_len o.repo ≡ false
      → too_long max_resume_len o.resume ≡ false
      → MaySend Value F64 (open_channel o)
  resizes : (channel cols rows : ℕ) → MaySend Value F64 (resize channel cols rows)
  reports :
      (code message : Str) (run_id : Option Str) (channel : Option ℕ)
      → MaySend Value F64 (error code message run_id channel)
  asks : MaySend Value F64 credential_status
  reads : (id path : Str) → MaySend Value F64 (file_read id path)

is_some-none {ℓ} : {A : Type ℓ} (o : Option A) → is_some o ≡ false → o ≡ none
is_some-none none h = refl
is_some-none (some a) h = ground arith

module _ (J : Serde) where
  open J use {Value, F64}

  -- A result is not of the given verdict: an answer never forwards and never admits.
  answer-forward : (r : Result FrameError (List ℕ)) (b : Allowed) → answer J r ≡ ok (forward b) → ⊥
  unfolding answer
  answer-forward (ok x) b h = ground arith
  answer-forward (err x) b h = ground arith

  refuse-forward : (c : ℕ) (w m : Str) (b : Allowed) → refuse J c w m ≡ ok (forward b) → ⊥
  unfolding refuse
  refuse-forward c w m b h = answer-forward _ b h

  -- A test whose first branch does not forward
  if_forward :
      (t : Bool) (x y : Checked J) (b : Allowed)
      → (x.0 ≡ ok (forward b) → ⊥)
      → (if t then x else y).0 ≡ ok (forward b)
      → (t ≡ false) × (y.0 ≡ ok (forward b))
  if_forward true x y b n h = absurd (n h)
  if_forward false x y b n h = (refl, h)

  check_kind-forward :
      (g : Guard) (a b : Allowed) (o : Open) (k : ChannelKind)
      → (check_kind J g a o k).0 ≡ ok (forward b)
      → (k ≡ pty) × (o.claude_token ≡ none)
  unfolding check_kind
  check_kind-forward g a b o pty h =
      let r = if_forward (is_some o.claude_token) _ _ b (refuse-forward _ _ _ b) h in
      (refl, is_some-none o.claude_token r.0)
  check_kind-forward g a b o acp h =
      let r = if_forward (not g.acp_enabled) _ _ b (refuse-forward _ _ _ b) h in
      let q = if_forward (is_some g.acp_channel) _ _ b (refuse-forward _ _ _ b) r.1 in
      absurd (ground (arith, q.1))
  check_kind-forward g a b o unknown h = absurd (refuse-forward _ _ _ b h)

  check_open-forward :
      (g : Guard) (a b : Allowed) (o : Open)
      → (check_open J g a o).0 ≡ ok (forward b)
      → MaySend Value F64 (open_channel o)
  unfolding check_open
  check_open-forward g a b o h =
      let zero = if_forward (o.channel == 0) _ _ b (λ q. ground (arith, q)) h in
      let long =
        if_forward (too_long max_repo_len o.repo || too_long max_resume_len o.resume) _ _ b
          (refuse-forward _ _ _ b) zero.1 in
      let checkout =
        if_forward (checkout_too_long o.checkout) _ _ b (refuse-forward _ _ _ b) long.1 in
      let held =
        if_forward (holds g.acp_channel o.channel) _ _ b (refuse-forward _ _ _ b) checkout.1 in
      let kind = check_kind-forward g a b o o.kind held.1 in
      terminal o kind.0 kind.1 (λ q. ground (arith, zero.0, q)) (ground (arith, long.0))
        (ground (arith, long.0))

  check_message-forward :
      (g : Guard) (a b : Allowed) (m : Ctrl Value F64)
      → allowed_from m ui ≡ true
      → (check_message J g a m).0 ≡ ok (forward b)
      → MaySend Value F64 m
  unfolding check_message allowed_from direction
  check_message-forward g a b (open_channel o) h e = check_open-forward g a b o e
  check_message-forward g a b (resize c x y) h e = resizes c x y
  check_message-forward g a b (error c m r d) h e = reports c m r d
  check_message-forward g a b credential_status h e = asks
  check_message-forward g a b (file_read id path) h e = reads id path
  check_message-forward g a b m h e = ground (arith, e)

  check_ctrl-forward :
      (g : Guard) (a b : Allowed) (r : Result FrameError (Ctrl Value F64))
      → (check_ctrl J g a r).0 ≡ ok (forward b)
      → (m : Ctrl Value F64) × (r ≡ ok m) × MaySend Value F64 m
  unfolding check_ctrl
  check_ctrl-forward g a b (err x) e = ground (arith, e)
  check_ctrl-forward g a b (ok m) e = elim (Bool-cases (allowed_from m ui)) [
    | inl h ↦ (m, refl, check_message-forward g a b m h (rw h at e))
    | inr h ↦ absurd (ground (arith, rw h at e))
  ]

  -- A frame that is forwarded is no CTRL frame, or its message is one that may be sent.
  IsFit : Frame → FrameType → Type 0
  IsFit f t = (t ≢ ctrl) ⊎ ((m : Ctrl Value F64) × (ctrl_message J f ≡ ok m) × MaySend Value F64 m)

  check_typed-forward :
      (g : Guard) (f : Frame) (t : FrameType) (b : Allowed)
      → (check_typed J g f t).0 ≡ ok (forward b)
      → IsFit f t
  unfolding check_typed IsFit
  check_typed-forward g f ctrl b e =
      inr (check_ctrl-forward g (allowed_of J f) b (ctrl_message J f) e)
  check_typed-forward g f t b e = inl (λ z. ground (arith, z))

  check_parsed-forward :
      (g : Guard) (r : Result FrameError Frame) (b : Allowed)
      → (check_parsed J g r).0 ≡ ok (forward b)
      → (f : Frame) × (r ≡ ok f) × IsFit f f.frame_type
  unfolding check_parsed
  check_parsed-forward g (err x) b e = ground (arith, e)
  check_parsed-forward g (ok f) b e = (f, refl, check_typed-forward g f f.frame_type b e)

  -- The bytes of a browser reach the sandbox only when they are exactly one frame that is well formed, and the frame is no
  -- CTRL frame or its message is one of five: an `open` of a terminal without a token, on a channel other than 0 and within
  -- the limits of `repo` and `resume`, a `resize`, an `error`, a `credential_status` or a `file_read`.
  pub check_browser_message-forward :
      (g : Guard) (msg : List ℕ) (b : Allowed)
      → (check_browser_message J g msg).0 ≡ ok (forward b)
      → (f : Frame) × (from_bytes msg ≡ ok f)
        × ((f.frame_type ≢ ctrl)
            ⊎ ((m : Ctrl Value F64) × (ctrl_message J f ≡ ok m) × MaySend Value F64 m))
  unfolding check_browser_message IsFit
  check_browser_message-forward g msg b e = check_parsed-forward g (from_bytes msg) b e

  abbrev pub is_captured : Ctrl Value F64 → Bool
  is_captured m = elim m [ credential_captured k t l ↦ true | _ ↦ false ]

  module _ (type_only : List ℕ → Result Str Str) where
    is_captured_type-false :
        (payload : List ℕ)
        → is_captured_type J type_only payload ≡ false
        → type_only payload ≢ ok (text "credential_captured")
    unfolding is_captured_type
    is_captured_type-false payload h q =
        ground (arith, rw (q, is_captured_type) at h, str_eq_refl (text "credential_captured"))

    -- The message is no `credential_captured`, or cannot be read and does not name that type.
    IsClean : List ℕ → Result FrameError (Ctrl Value F64) → Type 0
    IsClean payload r =
        ((m : Ctrl Value F64) × (r ≡ ok m) × (is_captured m ≡ false))
        ⊎ ((e : FrameError) × (r ≡ err e) × (type_only payload ≢ ok (text "credential_captured")))

    capture-relay :
        (payload : List ℕ) (r : Result FrameError (Ctrl Value F64))
        → capture J type_only payload r ≡ relay
        → IsClean payload r
    unfolding capture IsClean
    capture-relay payload (ok (credential_captured k t l)) h = ground (arith, h)
    capture-relay payload (ok m) h = inl (m, refl, refl)
    capture-relay payload (err x) h = elim (Bool-cases (is_captured_type J type_only payload)) [
      | inl t ↦ absurd (ground (arith, rw t at h))
      | inr f ↦ inr (x, refl, is_captured_type-false payload f)
    ]

    intercept_typed-relay :
        (f : Frame) (t : FrameType)
        → intercept_typed J type_only f t ≡ relay
        → t ≡ ctrl
        → IsClean f.payload (ctrl_message J f)
    unfolding intercept_typed
    intercept_typed-relay f ctrl h c = capture-relay f.payload (ctrl_message J f) h
    intercept_typed-relay f t h c = ground (arith, c)

    -- No credential is relayed to a browser: of a CTRL frame that is relayed the message is read and is no
    -- `credential_captured`, or it cannot be read and what serde_json reads as the payload's type, if anything, is not
    -- the text `credential_captured`.
    pub intercept_sandbox_message-relay :
        (g : Guard) (msg : List ℕ) (f : Frame)
        → (intercept_sandbox_message J type_only g msg).0 ≡ relay
        → from_bytes msg ≡ ok f
        → f.frame_type ≡ ctrl
        → ((m : Ctrl Value F64) × (ctrl_message J f ≡ ok m) × (is_captured m ≡ false))
          ⊎ ((e : FrameError) × (ctrl_message J f ≡ err e)
              × (type_only f.payload ≢ ok (text "credential_captured")))
    unfolding intercept_sandbox_message intercept_frame IsClean
    intercept_sandbox_message-relay g msg f h p c =
        intercept_typed-relay f f.frame_type (rw p at h) c
