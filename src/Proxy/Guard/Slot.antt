-- ===== src/Proxy/Guard/Slot.antt =====
-- One chat per socket: an `acp` channel is admitted only when the one before it was freed.
use enzarb.Base.{
  ℕ, ◌≡◌, refl, sym, ap, ◌∙◌, ◌≢◌, ◌⊎◌, inl, inr, Bool, true, false, not, ◌||◌, Option, none, some,
  List, [], ◌∷◌, All, ◌==◌, is_some, Bool-cases, if◌then◌else◌, Result, ok, err, ok_inj, arith,
}
use enzarb.Base.Text.{Str}
use enzarb.Frame.Types.{Frame, FrameType, ctrl, close, FrameError}
use enzarb.Frame.Codec.{from_bytes}
use enzarb.Ctrl.Types.{
  Ctrl, Open, ChannelKind, pty, acp, unknown, ui, open_channel, open_error, max_repo_len,
  max_resume_len,
}
use enzarb.Ctrl.Direction.{allowed_from}
use enzarb.Ctrl.Json.{Serde, ctrl_message}
use enzarb.Proxy.Guard.{
  Guard, Allowed, Reject, Verdict, open_acp, Checked, refuse, answer, check_kind, check_open,
  check_message, check_ctrl, check_typed, check_parsed, check_browser_message, allowed_of, holds,
  free, release_acp, frees_slot, refuses_slot, observe_frame, observe_sandbox_message, too_long,
  checkout_too_long,
}

-- What happens to a guard: a message of the browser, a message of the sandbox, a refusal by the proxy itself.
pub data Call : Type 0 where
  browser sandbox : List ℕ → Call
  release : ℕ → Call

module _ (J : Serde) where
  open J use {Value, F64}

  -- What an admitted `open` says of the guard and of the `open` that the browser sent.
  pub record Admits (g g' : Guard) (c : ℕ) (m : Ctrl Value F64) : Type 0 where
    pub sent : Open
    pub stripped : m ≡ open_channel (record sent { claude_token = none })
    pub kind : sent.kind ≡ acp
    pub channel : sent.channel ≡ c
    pub enabled : g.acp_enabled ≡ true
    pub slot_free : g.acp_channel ≡ none
    pub slot_taken : g'.acp_channel ≡ some c

  answer-open_acp :
      (r : Result FrameError (List ℕ)) (c : ℕ) (m : Ctrl Value F64)
      → answer J r ≡ ok (open_acp c m)
      → ⊥
  unfolding answer
  answer-open_acp (ok x) c m h = ground arith
  answer-open_acp (err x) c m h = ground arith

  refuse-open_acp :
      (d : ℕ) (w t : Str) (c : ℕ) (m : Ctrl Value F64) → refuse J d w t ≡ ok (open_acp c m) → ⊥
  unfolding refuse
  refuse-open_acp d w t c m h = answer-open_acp _ c m h

  IsAdmission : Guard → Checked J → ℕ → Ctrl Value F64 → Type 0
  IsAdmission g r c m = r.0 ≡ ok (open_acp c m) → Admits g r.1 c m

  if_admits :
      (g : Guard) (t : Bool) (x y : Checked J) (c : ℕ) (m : Ctrl Value F64)
      → (x.0 ≡ ok (open_acp c m) → ⊥)
      → (t ≡ false → IsAdmission g y c m)
      → IsAdmission g (if t then x else y) c m
  unfolding IsAdmission
  if_admits g true x y c m n k h = absurd (n h)
  if_admits g false x y c m n k h = k refl h

  not-true : (b : Bool) → not b ≡ false → b ≡ true
  not-true true h = refl
  not-true false h = ground arith

  is_some-none : (o : Option ℕ) → is_some o ≡ false → o ≡ none
  is_some-none none h = refl
  is_some-none (some a) h = ground arith

  open_acp_inj :
      {c d : ℕ} {m n : Ctrl Value F64}
      → ◌≡◌ {A = Result Reject (Verdict Value F64)} (ok (open_acp c m)) (ok (open_acp d n))
      → (c ≡ d) × (m ≡ n)
  open_acp_inj {c = c} {m = m} e = (
    ap (λ v. elim v [ open_acp x y ↦ x | _ ↦ c ]) (ok_inj e),
    ap (λ v. elim v [ open_acp x y ↦ y | _ ↦ m ]) (ok_inj e),
  )

  check_kind-Admits :
      (g : Guard) (a : Allowed) (o : Open) (k : ChannelKind) (c : ℕ) (m : Ctrl Value F64)
      → o.kind ≡ k
      → IsAdmission g (check_kind J g a o k) c m
  unfolding check_kind IsAdmission
  check_kind-Admits g a o pty c m q =
      if_admits g (is_some o.claude_token) _ _ c m (refuse-open_acp _ _ _ c m)
        (λ n h. ground (arith, h))
  check_kind-Admits g a o unknown c m q = λ h. absurd (refuse-open_acp _ _ _ c m h)
  check_kind-Admits g a o acp c m q =
      if_admits g (not g.acp_enabled) _ _ c m (refuse-open_acp _ _ _ c m) (λ on.
        if_admits g (is_some g.acp_channel) _ _ c m (refuse-open_acp _ _ _ c m) (λ empty h.
          let (d, n) = open_acp_inj h in
          record {
            sent = o;
            stripped = sym n;
            kind = q;
            channel = d;
            enabled = not-true g.acp_enabled on;
            slot_free = is_some-none g.acp_channel empty;
            slot_taken = ap some d;
          }))

  check_open-Admits :
      (g : Guard) (a : Allowed) (o : Open) (c : ℕ) (m : Ctrl Value F64)
      → IsAdmission g (check_open J g a o) c m
  unfolding check_open
  check_open-Admits g a o c m =
      if_admits g (o.channel == 0) _ _ c m (λ h. ground (arith, h))
        (λ n.
          if_admits g (too_long max_repo_len o.repo || too_long max_resume_len o.resume) _ _ c m
            (refuse-open_acp _ _ _ c m)
            (λ n.
              if_admits g (checkout_too_long o.checkout) _ _ c m (refuse-open_acp _ _ _ c m) (λ n.
                if_admits g (holds g.acp_channel o.channel) _ _ c m (refuse-open_acp _ _ _ c m)
                  (λ n. check_kind-Admits g a o o.kind c m refl))))

  check_message-Admits :
      (g : Guard) (a : Allowed) (n : Ctrl Value F64) (c : ℕ) (m : Ctrl Value F64)
      → (check_message J g a n).0 ≡ ok (open_acp c m)
      → Admits g (check_message J g a n).1 c m
  unfolding check_message IsAdmission
  check_message-Admits g a (open_channel o) c m h = check_open-Admits g a o c m h
  check_message-Admits g a n c m h = ground (arith, h)

  check_ctrl-Admits :
      (g : Guard) (a : Allowed) (r : Result FrameError (Ctrl Value F64)) (c : ℕ)
      (m : Ctrl Value F64)
      → (check_ctrl J g a r).0 ≡ ok (open_acp c m)
      → Admits g (check_ctrl J g a r).1 c m
  unfolding check_ctrl
  check_ctrl-Admits g a (err x) c m h = ground (arith, h)
  check_ctrl-Admits g a (ok n) c m h = elim (Bool-cases (allowed_from n ui)) [
    | inl k ↦ rw (k) (check_message-Admits g a n c m (rw k at h))
    | inr k ↦ absurd (ground (arith, rw k at h))
  ]

  check_typed-Admits :
      (g : Guard) (f : Frame) (t : FrameType) (c : ℕ) (m : Ctrl Value F64)
      → (check_typed J g f t).0 ≡ ok (open_acp c m)
      → Admits g (check_typed J g f t).1 c m
  unfolding check_typed
  check_typed-Admits g f ctrl c m h = check_ctrl-Admits g (allowed_of J f) (ctrl_message J f) c m h
  check_typed-Admits g f t c m h = ground (arith, h)

  check_parsed-Admits :
      (g : Guard) (r : Result FrameError Frame) (c : ℕ) (m : Ctrl Value F64)
      → (check_parsed J g r).0 ≡ ok (open_acp c m)
      → Admits g (check_parsed J g r).1 c m
  unfolding check_parsed
  check_parsed-Admits g (err x) c m h = ground (arith, h)
  check_parsed-Admits g (ok f) c m h = check_typed-Admits g f f.frame_type c m h

  -- A chat is admitted only when the socket has the feature and no other chat, its channel then holds the slot, and the
  -- `open` that goes on is one of a chat on that channel, without a token.
  pub check_browser_message-Admits :
      (g : Guard) (msg : List ℕ) (c : ℕ) (m : Ctrl Value F64)
      → (check_browser_message J g msg).0 ≡ ok (open_acp c m)
      → Admits g (check_browser_message J g msg).1 c m
  unfolding check_browser_message
  check_browser_message-Admits g msg c m h = check_parsed-Admits g (from_bytes msg) c m h

  -- The bytes are a CLOSE frame on the channel.
  pub record Closes (msg : List ℕ) (c : ℕ) : Type 0 where
    pub frame : Frame
    pub read : from_bytes msg ≡ ok frame
    pub kind : frame.frame_type ≡ close
    pub on : frame.channel ≡ c

  -- The bytes are a CTRL frame with an `open_error` for the channel.
  pub record Refuses (msg : List ℕ) (c : ℕ) : Type 0 where
    pub frame : Frame
    pub message : Str
    pub why : Option Str
    pub read : from_bytes msg ≡ ok frame
    pub kind : frame.frame_type ≡ ctrl
    pub says : ctrl_message J frame ≡ ok (open_error c message why)

  -- The browser closes the channel, the sandbox closes it or refuses its `open`, or the proxy gives it back.
  abbrev pub Frees : Call → ℕ → Type 0
  Frees (browser msg) c = Closes msg c
  Frees (sandbox msg) c = Closes msg c ⊎ Refuses msg c
  Frees (release d) c = d ≡ c

  unfoldable pub step : Call → Guard → Guard
  step (browser msg) g = (check_browser_message J g msg).1
  step (sandbox msg) g = observe_sandbox_message J g msg
  step (release d) g = release_acp g d

  unfoldable pub run : List Call → Guard → Guard
  unfolding step
  run [] g = g
  run (k ∷ ks) g = run ks (step k g)

  module _ (g : Guard) (c : ℕ) (slot : g.acp_channel ≡ some c) where
    if_same : (t : Bool) (x y : Checked J) → x.1 ≡ g → y.1 ≡ g → (if t then x else y).1 ≡ g
    if_same true x y p q = p
    if_same false x y p q = q

    if_taken : (t : Bool) (x y : Checked J) → t ≡ true → x.1 ≡ g → (if t then x else y).1 ≡ g
    if_taken true x y h p = p
    if_taken false x y h p = ground (arith, h)

    check_kind-same : (a : Allowed) (o : Open) (k : ChannelKind) → (check_kind J g a o k).1 ≡ g
    unfolding check_kind
    check_kind-same a o pty = if_same (is_some o.claude_token) _ _ refl refl
    check_kind-same a o acp =
        if_same (not g.acp_enabled) _ _ refl
          (if_taken (is_some g.acp_channel) _ _ (rw (slot) refl) refl)
    check_kind-same a o unknown = refl

    check_message-same : (a : Allowed) (m : Ctrl Value F64) → (check_message J g a m).1 ≡ g
    unfolding check_message check_open
    check_message-same a (open_channel o) = if_same (o.channel == 0) _ _ refl (
        if_same (too_long max_repo_len o.repo || too_long max_resume_len o.resume) _ _ refl (
          if_same (checkout_too_long o.checkout) _ _ refl
            (if_same (holds g.acp_channel o.channel) _ _ refl (check_kind-same a o o.kind))))
    check_message-same a m = refl

    check_ctrl-same :
        (a : Allowed) (r : Result FrameError (Ctrl Value F64)) → (check_ctrl J g a r).1 ≡ g
    unfolding check_ctrl
    check_ctrl-same a (err e) = refl
    check_ctrl-same a (ok m) = if_same (allowed_from m ui) _ _ (check_message-same a m) refl

    -- The slot stays taken when what would free it cannot be.
    free-keeps : (t : Bool) → (t ≡ true → ⊥) → (if t then free g else g).acp_channel ≡ some c
    free-keeps true h = absurd (h refl)
    free-keeps false h = slot

    holds-channel : (d : ℕ) → holds g.acp_channel d ≡ true → d ≡ c
    holds-channel d h = ground (arith, rw slot at h)

    check_typed-keeps :
        (f : Frame) (t : FrameType)
        → (t ≡ close → f.channel ≡ c → ⊥)
        → (check_typed J g f t).1.acp_channel ≡ some c
    unfolding check_typed
    check_typed-keeps f ctrl h = ap (λ x. x.acp_channel) (check_ctrl-same _ _) ∙ slot
    check_typed-keeps f close h =
        free-keeps (holds g.acp_channel f.channel) (λ e. h refl (holds-channel f.channel e))
    check_typed-keeps f t h = slot

    check_parsed-keeps :
        (r : Result FrameError Frame)
        → ((f : Frame) → r ≡ ok f → f.frame_type ≡ close → f.channel ≡ c → ⊥)
        → (check_parsed J g r).1.acp_channel ≡ some c
    unfolding check_parsed
    check_parsed-keeps (err e) h = slot
    check_parsed-keeps (ok f) h = check_typed-keeps f f.frame_type (h f refl)

    refuses_slot-says :
        (r : Result FrameError (Ctrl Value F64))
        → refuses_slot J r c ≡ true
        → (message : Str) × (why : Option Str) × (r ≡ ok (open_error c message why))
    unfolding refuses_slot
    refuses_slot-says (ok (open_error d message why)) h =
        let q : d ≡ c = ground (arith, h) in (message, why, rw q refl)
    refuses_slot-says r h = absurd (ground (arith, h))

    -- Whatever frees the slot is a CLOSE on its channel or an `open_error` for it.
    frees_slot_sound :
        (f : Frame) (t : FrameType)
        → frees_slot J f t c ≡ true
        → ((t ≡ close) × (f.channel ≡ c))
          ⊎ ((t ≡ ctrl)
              × ((message : Str) × (why : Option Str) × (ctrl_message J f
                    ≡ ok (open_error c message why))))
    unfolding frees_slot
    frees_slot_sound f close h = inl (refl, ground (arith, h))
    frees_slot_sound f ctrl h = inr (refl, refuses_slot-says (ctrl_message J f) h)
    frees_slot_sound f t h = absurd (ground (arith, h))

    observe-keeps :
        (msg : List ℕ) (r : Result FrameError Frame)
        → from_bytes msg ≡ r
        → (Closes msg c ⊎ Refuses msg c → ⊥)
        → (observe_frame J g (some c) r).acp_channel ≡ some c
    unfolding observe_frame
    observe-keeps msg (err e) p h = slot
    observe-keeps msg (ok f) p h = free-keeps (frees_slot J f f.frame_type c) (λ e.
        h (elim (frees_slot_sound f f.frame_type e) [
          | inl (k, q) ↦ inl (record { frame = f; read = p; kind = k; on = q })
          | inr (k, (m, w, q)) ↦
              inr (record { frame = f; message = m; why = w; read = p; kind = k; says = q })
        ]))

    observe_slot-keeps :
        (o : Option ℕ) (msg : List ℕ)
        → o ≡ some c
        → (Closes msg c ⊎ Refuses msg c → ⊥)
        → (observe_frame J g o (from_bytes msg)).acp_channel ≡ some c
    observe_slot-keeps o msg e h = rw (e) (observe-keeps msg (from_bytes msg) refl h)

    step-keeps : (k : Call) → (Frees k c → ⊥) → (step k g).acp_channel ≡ some c
    unfolding step check_browser_message observe_sandbox_message release_acp
    step-keeps (browser msg) h =
        check_parsed-keeps (from_bytes msg)
          (λ f p k q. h (record { frame = f; read = p; kind = k; on = q }))
    step-keeps (sandbox msg) h = observe_slot-keeps g.acp_channel msg slot h
    step-keeps (release d) h = free-keeps (holds g.acp_channel d) (λ e. h (holds-channel d e))

  run-keeps :
      (ks : List Call) (g : Guard) (c : ℕ)
      → g.acp_channel ≡ some c
      → All (λ k. Frees k c → ⊥) ks
      → (run ks g).acp_channel ≡ some c
  unfolding run
  run-keeps [] g c slot h = slot
  run-keeps (k ∷ ks) g c slot h = run-keeps ks (step k g) c (step-keeps g c slot k h.0) h.1

  -- One chat per connection. After a chat was admitted on a channel, and as long as the browser sends no CLOSE on that
  -- channel, the sandbox no CLOSE on it and no `open_error` for it, and the proxy does not give it back, no `open` of the
  -- browser is admitted as a chat, whatever else happens to the socket.
  pub check_browser_message_once :
      (g : Guard) (first msg : List ℕ) (c d : ℕ) (m n : Ctrl Value F64) (ks : List Call)
      → (check_browser_message J g first).0 ≡ ok (open_acp c m)
      → All (λ k. Frees k c → ⊥) ks
      → (check_browser_message J (run ks (check_browser_message J g first).1) msg).0
        ≢ ok (open_acp d n)
  check_browser_message_once g first msg c d m n ks e h q =
      let a = check_browser_message-Admits g first c m e in
      let t = (check_browser_message J g first).1 in
      let k = run-keeps ks t c a.slot_taken h in
      let b = check_browser_message-Admits (run ks t) msg d n q in
      ground (arith, sym k ∙ b.slot_free)
