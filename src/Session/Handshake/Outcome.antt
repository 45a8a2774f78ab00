-- ===== src/Session/Handshake/Outcome.antt =====
-- What `server_handshake_with_features` may end in, whatever the websocket gives.
use enzarb.Base.{
  ℕ, ◌≤◌, Bool, true, false, Option, none, some, List, [], ◌∷◌, ◌++◌, length, All, Result, ok, err,
  ◌≡◌, refl, ◌⊎◌, inl, inr,
}
use enzarb.Base.Dict.{mem}
use enzarb.Base.Text.{Str, text}
use enzarb.Frame.Types.{Frame, FrameError, display}
use enzarb.Ctrl.Types.{ClientKind, welcome, error}
use enzarb.Ctrl.Json.{Serde, ctrl_bytes, ctrl_message}
use enzarb.Ctrl.ErrorCode
use enzarb.Ctrl.Features.{
  negotiate_version, negotiate_version-mem, negotiate_version-highest, negotiate_version-apart,
  IsFeature, max_features, sanitize_features_bounds,
}
use enzarb.Session.Errors.{
  HandshakeError, transport, protocol, unsupported_version, rejected, closed,
}
use enzarb.Session.Core.Loops.{Message}
use enzarb.Session.Handshake.First.{
  Ends, Greeted, OptionGreeted, next_read-Ends, next_read-Gives, hello_of-Greeted,
}
use enzarb.Session.Handshake.{
  next_read, Websocket, ServerHello, ws_send, send_by, or_transport, send_bytes, send_ctrl,
  unless_empty, next_frame, hello_of, reject, refuse, answer, after_welcome, on_hello, on_first,
  server_handshake_with_features,
}

-- What the other side sees of a websocket: what was sent, and whether it was closed.
abbrev pub Seen : Type 0
Seen = List (List ℕ) × Bool

abbrev pub seen : Websocket → Seen
seen w = (w.sent, w.is_closed)

-- Nothing was sent, and the websocket was not closed.
abbrev pub Same : Seen → Websocket → Type 0
Same s v = (v.sent ≡ s.0) × (v.is_closed ≡ s.1)

-- The bytes were sent, and the websocket was not closed.
abbrev pub Sent : List ℕ → Seen → Websocket → Type 0
Sent b s v = (v.sent ≡ s.0 ++ (b ∷ [])) × (v.is_closed ≡ s.1)

module _ (J : Serde) where
  open J use {Value, F64}

  -- The websocket is closed, and before that nothing was sent or an `error` with this code and text.
  abbrev pub Refused : Str → Str → Seen → Websocket → Type 0
  Refused code message s v =
      (v.is_closed ≡ true)
      × ((v.sent ≡ s.0)
          ⊎ ((b : List ℕ) × (ctrl_bytes J (error code message none none) ≡ ok b)
              × (v.sent ≡ s.0 ++ (b ∷ []))))

  -- A success: the version is the highest of both lists, the features are in their limits, and the `welcome` was sent.
  pub record Welcomed (supported : List ℕ) (features : List Str) (ms : List Message) (s : Seen)
      (v : Websocket) (h : ServerHello) : Type 0 where
    pub greeted : Greeted J ms h.offered h.client h.features
    pub offered : mem h.version h.offered ≡ true
    pub supports : mem h.version supported ≡ true
    pub highest : All (λ u. (mem u supported ≡ false) ⊎ (u ≤ h.version)) h.offered
    pub kept : All IsFeature h.features × (length h.features ≤ max_features)
    pub bytes : List ℕ
    pub encodes : ctrl_bytes J (welcome h.version (unless_empty features)) ≡ ok bytes
    pub sent : Sent bytes s v

  -- What each end of the handshake says of what the websocket gave, and of it before and after.
  abbrev pub IsOutcome :
      List ℕ
      → List Str
      → List Message
      → Seen
      → Result HandshakeError ServerHello × Websocket
      → Type 0
  IsOutcome supported features ms s (ok h, v) = Welcomed supported features ms s v h
  IsOutcome supported features ms s (err (unsupported_version offered), v) =
      All (λ u. mem u supported ≡ false) offered
      × ((client : ClientKind) × (kept : List Str) × Greeted J ms offered client kept)
      × ((message : Str) × Refused (text "unsupported_version") message s v)
  IsOutcome supported features ms s (err (protocol message), v) =
      Refused (text "protocol_violation") message s v
      ⊎ ((version : ℕ) × (x : FrameError) × (ctrl_bytes J (welcome version (unless_empty features))
            ≡ err x)
          × (message ≡ display x)
          × Same s v)
  IsOutcome supported features ms s (err (transport e), v) = Same s v
  IsOutcome supported features ms s (err closed, v) = Ends ms × Same s v
  IsOutcome supported features ms s (err (rejected code message), v) = ⊥

  -- What a send may give.
  abbrev IsSend :
      Result FrameError (List ℕ) → Websocket → Result HandshakeError (Unit {0}) × Websocket → Type 0
  IsSend r w (ok u, v) = (b : List ℕ) × (r ≡ ok b) × Sent b (seen w) v
  IsSend r w (err (transport e), v) = Same (seen w) v
  IsSend r w (err (protocol e), v) =
      (x : FrameError) × (r ≡ err x) × (e ≡ display x) × Same (seen w) v
  IsSend r w (err e, v) = ⊥

  send_by-IsSend :
      (sink : List (Option Str)) (b : List ℕ) (w : Websocket)
      → IsSend (ok b) w (or_transport (send_by sink b w))
  send_by-IsSend [] b w = (b, refl, (refl, refl))
  send_by-IsSend (none ∷ rest) b w = (b, refl, (refl, refl))
  send_by-IsSend (some e ∷ rest) b w = (refl, refl)

  send_bytes-IsSend : (r : Result FrameError (List ℕ)) (w : Websocket) → IsSend r w (send_bytes r w)
  unfolding send_bytes ws_send
  send_bytes-IsSend (ok b) w = send_by-IsSend w.sink b w
  send_bytes-IsSend (err x) w = (x, refl, refl, (refl, refl))

  sent_or_not :
      (r : Result FrameError (List ℕ)) (w : Websocket)
      (q : Result HandshakeError (Unit {0}) × Websocket)
      → IsSend r w q
      → (q.1.sent ≡ w.sent) ⊎ ((b : List ℕ) × (r ≡ ok b) × (q.1.sent ≡ w.sent ++ (b ∷ [])))
  sent_or_not r w (ok u, v) (b, e, s) = inr (b, e, s.0)
  sent_or_not r w (err (transport e), v) s = inl s.0
  sent_or_not r w (err (protocol e), v) (x, p, d, s) = inl s.0
  sent_or_not r w (err e, v) s = absurd s

  reject-Refused :
      (code message : Str) (w : Websocket)
      → Refused code message (seen w) (reject J code message w).1
  unfolding reject send_ctrl
  reject-Refused code message w =
      let r = ctrl_bytes J (error code message none none) in
      (refl, sent_or_not r w (send_bytes r w) (send_bytes-IsSend r w))

  refuse-IsOutcome :
      (supported : List ℕ) (features : List Str) (ms : List Message) (message : Str) (w : Websocket)
      → IsOutcome supported features ms
          (seen w)
          (refuse J {A = ServerHello} ErrorCode.protocol_violation message w)
  unfolding refuse reject ErrorCode.protocol_violation
  refuse-IsOutcome supported features ms message w =
      inl (reject-Refused ErrorCode.protocol_violation message w)

  after_welcome-IsOutcome :
      (supported : List ℕ) (features : List Str) (ms : List Message) (w : Websocket)
      (h : ServerHello) (r : Result HandshakeError (Unit {0}) × Websocket)
      → negotiate_version h.offered supported ≡ some h.version
      → Greeted J ms h.offered h.client h.features
      → IsSend (ctrl_bytes J (welcome h.version (unless_empty features))) w r
      → IsOutcome supported features ms (seen w) (after_welcome J h r)
  unfolding after_welcome
  after_welcome-IsOutcome supported features ms w h (ok u, v) n k (b, e, s) =
      let (a, c) = negotiate_version-mem h.offered supported h.version n in
      record {
        offered = a;
        supports = c;
        highest = negotiate_version-highest h.offered supported h.version n;
        greeted = k;
        kept = rw k.keeps (sanitize_features_bounds k.offer);
        bytes = b;
        encodes = e;
        sent = s;
      }
  after_welcome-IsOutcome supported features ms w h (err (transport e), v) n k s = s
  after_welcome-IsOutcome supported features ms w h (err (protocol e), v) n k s =
      let (x, e, d, u) = s in inr (h.version, x, e, d, u)
  after_welcome-IsOutcome supported features ms w h (err e, v) n k s = absurd s

  answer-IsOutcome :
      (supported : List ℕ) (features : List Str) (ms : List Message) (versions : List ℕ)
      (client : ClientKind) (peer : List Str) (o : Option ℕ) (w : Websocket)
      → negotiate_version versions supported ≡ o
      → Greeted J ms versions client peer
      → IsOutcome supported features ms (seen w) (answer J features (versions, client, peer) o w)
  unfolding answer send_ctrl ErrorCode.unsupported_version
  answer-IsOutcome supported features ms versions client peer none w n k = (
    negotiate_version-apart versions supported n,
    (client, peer, k),
    (_, reject-Refused ErrorCode.unsupported_version _ w),
  )
  answer-IsOutcome supported features ms versions client peer (some v) w n k =
      let r = ctrl_bytes J (welcome v (unless_empty features)) in
      after_welcome-IsOutcome supported features ms w
        record { version = v; client = client; offered = versions; features = peer }
        (send_bytes r w) n k (send_bytes-IsSend r w)

  on_hello-IsOutcome :
      (supported : List ℕ) (features : List Str) (ms : List Message)
      (h : Option (List ℕ × ClientKind × List Str)) (w : Websocket)
      → OptionGreeted J ms h
      → IsOutcome supported features ms (seen w) (on_hello J supported features h w)
  unfolding on_hello
  on_hello-IsOutcome supported features ms none w k = refuse-IsOutcome supported features ms _ w
  on_hello-IsOutcome supported features ms (some (versions, client, peer)) w k =
      answer-IsOutcome supported features ms versions client peer
        (negotiate_version versions supported) w refl k

  on_first-IsOutcome :
      (supported : List ℕ) (features : List Str) (ms : List Message)
      (r : Result Str (Option Frame) × Websocket)
      → (next_read ms).0 ≡ r.0
      → IsOutcome supported features ms (seen r.1) (on_first J supported features r)
  unfolding on_first
  on_first-IsOutcome supported features ms (ok (some f), w) e =
      let (b, g, p) = next_read-Gives ms f e in
      on_hello-IsOutcome supported features ms (hello_of J f.frame_type (ctrl_message J f)) w
        (hello_of-Greeted J ms b f f.frame_type (ctrl_message J f) g p refl)
  on_first-IsOutcome supported features ms (ok none, w) e = (next_read-Ends ms e, (refl, refl))
  on_first-IsOutcome supported features ms (err x, w) e = refuse-IsOutcome supported features ms x w

  -- Whatever the websocket gives and however it takes what is sent. A handshake that succeeds at the server has read a
  -- `hello` as the first frame, past pings, and returns its versions, its client and its features, sanitized to at most 64
  -- of 1 to 64 bytes each; the version is the highest of both lists, and the `welcome` is the one message that was sent.
  -- One that fails for want of a version has read a `hello` of which the server lacks every version, the websocket is
  -- closed, and nothing but an `error` of `unsupported_version` was sent. One that fails by the protocol leaves the
  -- websocket closed, and nothing but an `error` of `protocol_violation` was sent, or else its `welcome` does not encode. In
  -- that last case, if a send fails, and if the websocket ended before a frame came, nothing was sent and the websocket is
  -- not closed. The server never fails as rejected.
  pub server_handshake-IsOutcome :
      (supported : List ℕ) (features : List Str) (w : Websocket)
      → IsOutcome supported features w.incoming
          (seen w)
          (server_handshake_with_features J supported features w)
  unfolding server_handshake_with_features next_frame
  server_handshake-IsOutcome supported features w =
      on_first-IsOutcome supported features w.incoming (next_frame w) refl
