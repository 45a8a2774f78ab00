-- ===== src/Session/Core/Finish.antt =====
-- session/core.rs: what `Inner::finish` does, the only way that a session ends.
use enzarb.Base.{
  ℕ, ◌≡◌, refl, ap, ◌∙◌, sym, arith, none, some, List, [], ◌∷◌, ◌++◌, map, append_assoc, append-nil,
  err,
}
use enzarb.Base.Dict.{lookup}
use enzarb.Session.Errors.{SessionEnd, ended, SessionError}
use enzarb.Session.Channel.{Effect, sends, wakes, forgets, ChanState, Done, fail}
use enzarb.Session.Core.State.{
  Inner, PendingOpen, Pending, step_start, step_status, credential_status, Reply, opened, accepted,
  status, credential, Out, frame, close,
}
use enzarb.Session.Core.Outbound.{
  update, unwrap_or, emptied, send_out, forget_channel, run_effects, call, reply, fail_pending,
  fail_channels, fail_opens, fail_all, finish,
}

module _ {Value F64 : Type 0} where
  -- What the loops of `finish` keep of a session whose tables are taken.
  record Keeps (v w : Inner Value F64) : Type 0 where
    pub state : v.state ≡ w.state
    pub end : v.end ≡ w.end
    pub replies : v.replies ≡ w.replies

  abbrev then : {u v w : Inner Value F64} → Keeps u v → Keeps v w → Keeps u w
  then a b = record {
    state = a.state ∙ b.state;
    end = a.end ∙ b.end;
    replies = a.replies ∙ b.replies;
  }

  send_out-Keeps : (o : Out) (w : Inner Value F64) → Keeps (send_out o w) w
  unfolding send_out
  send_out-Keeps o w = ground arith

  forget_channel-Keeps :
      (addr : ℕ) (w : Inner Value F64) → w.state.channels ≡ [] → Keeps (forget_channel addr w) w
  unfolding forget_channel
  forget_channel-Keeps addr w h =
      let e : lookup (w.heap addr).id w.state.channels ≡ none = ap (lookup (w.heap addr).id) h in
      rw (e, forget_channel) (record { state = refl; end = refl; replies = refl })

  run_effects-Keeps :
      (addr : ℕ) (es : List Effect) (w : Inner Value F64)
      → w.state.channels ≡ []
      → Keeps (run_effects addr es w) w
  unfolding run_effects
  run_effects-Keeps addr [] w h = record { state = refl; end = refl; replies = refl }
  run_effects-Keeps addr (sends b ∷ es) w h =
      let k = send_out-Keeps (frame b) w in
      then (run_effects-Keeps addr es _ (ap (λ s. s.channels) k.state ∙ h)) k
  run_effects-Keeps addr (wakes t ∷ es) w h =
      let k = run_effects-Keeps addr es (record w { woken = w.woken ++ (t ∷ []) }) h in
      record { state = k.state; end = k.end; replies = k.replies }
  run_effects-Keeps addr (forgets ∷ es) w h =
      let k = forget_channel-Keeps addr w h in
      then (run_effects-Keeps addr es _ (ap (λ s. s.channels) k.state ∙ h)) k

  call-Keeps :
      {A : Type 0} (addr : ℕ) (op : ℕ → ChanState → Done A) (w : Inner Value F64)
      → w.state.channels ≡ []
      → Keeps (call addr op w).1 w
  unfolding call
  call-Keeps addr op w h =
      let d = op (w.heap addr).id (w.heap addr).st in
      let moved = record w { heap = update w.heap addr (record (w.heap addr) { st = d.state }) } in
      let k = run_effects-Keeps addr d.effects moved h in
      record { state = k.state; end = k.end; replies = k.replies }

  fail_channels-Keeps :
      (end : SessionEnd) (cs : List (ℕ × ℕ)) (w : Inner Value F64)
      → w.state.channels ≡ []
      → Keeps (fail_channels end cs w) w
  unfolding fail_channels
  fail_channels-Keeps end [] w h = record { state = refl; end = refl; replies = refl }
  fail_channels-Keeps end (c ∷ cs) w h =
      let k = call-Keeps c.1 (λ _. fail end) w h in
      then (fail_channels-Keeps end cs _ (ap (λ s. s.channels) k.state ∙ h)) k

  -- What the openers and the requesters are told.
  pub opens_told : SessionEnd → List (ℕ × PendingOpen) → List (ℕ × Reply Value F64)
  opens_told end ps = map (λ p. (p.1.tx, opened (err (ended end)))) ps

  pub pending_told : SessionError → Pending → ℕ × Reply Value F64
  pending_told e (step_start _ tx) = (tx, accepted (err e))
  pending_told e (step_status _ tx) = (tx, status (err e))
  pending_told e (credential_status tx) = (tx, credential (err e))

  -- The session `v` is `w` but for the replies, which are more.
  record Tells (more : List (ℕ × Reply Value F64)) (v w : Inner Value F64) : Type 0 where
    pub state : v.state ≡ w.state
    pub end : v.end ≡ w.end
    pub replies : v.replies ≡ w.replies ++ more

  fail_opens-Tells :
      (end : SessionEnd) (ps : List (ℕ × PendingOpen)) (w : Inner Value F64)
      → w.state.channels ≡ []
      → Tells (opens_told end ps) (fail_opens end ps w) w
  unfolding fail_opens opens_told
  fail_opens-Tells end [] w h = record { state = refl; end = refl; replies = sym (append-nil _) }
  fail_opens-Tells end (p ∷ ps) w h =
      let k = call-Keeps p.1.chan (λ _. fail end) w h in
      let called = (call p.1.chan (λ _. fail end) w).1 in
      let told : ℕ × Reply Value F64 = (p.1.tx, opened (err (ended end))) in
      let t =
        fail_opens-Tells end ps (reply p.1.tx (opened (err (ended end))) called)
          (ap (λ s. s.channels) k.state ∙ h) in
      record {
        state = t.state ∙ k.state;
        end = t.end ∙ k.end;
        replies =
            t.replies
            ∙ (append_assoc called.replies (told ∷ []) (opens_told end ps)
                ∙ ap (λ r. r ++ (told ∷ opens_told end ps)) k.replies);
      }

  fail_all-Tells :
      (end : SessionEnd) (ps : List Pending) (w : Inner Value F64)
      → Tells (map (pending_told (ended end)) ps) (fail_all end ps w) w
  unfolding fail_all fail_pending reply pending_told
  fail_all-Tells end [] w = record { state = refl; end = refl; replies = sym (append-nil _) }
  fail_all-Tells end (step_start run_id tx ∷ ps) w =
      let t = fail_all-Tells end ps (reply tx (accepted (err (ended end))) w) in
      record {
        state = t.state;
        end = t.end;
        replies =
            t.replies
            ∙ append_assoc w.replies ((tx, accepted (err (ended end))) ∷ [])
                (map (pending_told (ended end)) ps);
      }
  fail_all-Tells end (step_status run_id tx ∷ ps) w =
      let t = fail_all-Tells end ps (reply tx (status (err (ended end))) w) in
      record {
        state = t.state;
        end = t.end;
        replies =
            t.replies
            ∙ append_assoc w.replies ((tx, status (err (ended end))) ∷ [])
                (map (pending_told (ended end)) ps);
      }
  fail_all-Tells end (credential_status tx ∷ ps) w =
      let t = fail_all-Tells end ps (reply tx (credential (err (ended end))) w) in
      record {
        state = t.state;
        end = t.end;
        replies =
            t.replies
            ∙ append_assoc w.replies ((tx, credential (err (ended end))) ∷ [])
                (map (pending_told (ended end)) ps);
      }

  -- After `finish` the reason of the end is the first that was given. The tables are empty. Each opener that waited and
  -- each request that waited was told that the session ended, with that reason, and nobody else was told anything.
  pub finish-ends :
      (why : SessionEnd) (w : Inner Value F64)
      → let end = unwrap_or w.end why in
        ((finish why w).end ≡ some end)
        × ((finish why w).state ≡ emptied w.state)
        × ((finish why w).replies
            ≡ w.replies
              ++ (opens_told end w.state.pending_open
                  ++ map (pending_told (ended end)) w.state.pending))
  unfolding finish
  finish-ends why w =
      let end = unwrap_or w.end why in
      let w0 = record w { end = some end; state = emptied w.state } in
      let w1 = fail_channels end w.state.channels w0 in
      let w2 = fail_opens end w.state.pending_open w1 in
      let w3 = fail_all end w.state.pending w2 in
      let k1 = fail_channels-Keeps end w.state.channels w0 refl in
      let t2 = fail_opens-Tells end w.state.pending_open w1 (ap (λ s. s.channels) k1.state) in
      let t3 = fail_all-Tells end w.state.pending w2 in
      let opening = opens_told end w.state.pending_open in
      let asked = map (pending_told (ended end)) w.state.pending in
      let k4 = send_out-Keeps close w3 in
      (
        k4.end ∙ (t3.end ∙ (t2.end ∙ k1.end)),
        k4.state ∙ (t3.state ∙ (t2.state ∙ k1.state)),
        k4.replies
            ∙ (t3.replies
                ∙ (ap (λ r. r ++ asked) t2.replies
                    ∙ (append_assoc w1.replies opening asked
                        ∙ ap (λ r. r ++ (opening ++ asked)) k1.replies))),
      )
