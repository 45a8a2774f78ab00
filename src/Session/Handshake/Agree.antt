-- ===== src/Session/Handshake/Agree.antt =====
-- What the two sides of a handshake know once each has read what the other sent.
use enzarb.Base.{ℕ, true, false, Option, some, List, [], ◌∷◌, ok, ◌≡◌, refl, arith, ◌∙◌}
use enzarb.Base.Dict.{mem}
use enzarb.Base.Text.{Str}
use enzarb.Frame.Types.{Frame, ctrl}
use enzarb.Frame.Codec.{from_bytes}
use enzarb.Ctrl.Types.{Ctrl, ClientKind, hello, welcome}
use enzarb.Ctrl.Json.{Serde, ctrl_bytes, ctrl_message, ctrl_bytes_arrives}
use enzarb.Ctrl.Features.{
  sanitize_features, negotiate_version, negotiate_version-mem, supported_versions,
}
use enzarb.Session.Core.Loops.{Message, binary}
use enzarb.Session.Handshake.{
  Websocket, ws_send, send_bytes, send_ctrl, next_read, next_frame, unless_empty, hello_of, answer,
  after_welcome, on_hello, on_first, on_welcome, on_answer, await_welcome,
  server_handshake_with_features, client_handshake_offering,
}

-- A websocket on which nothing was sent yet, whose sends are all taken.
abbrev pub fresh : List Message → Websocket
fresh ms = record { incoming = ms; sink = []; sent = []; is_closed = false }

abbrev pub after : List Message → List ℕ → Websocket
after ms b = record { incoming = ms; sink = []; sent = b ∷ []; is_closed = false }

module _ (J : Serde) where
  open J use {Value, F64, to_vec, from_slice}

  message_type : (f : Frame) (m : Ctrl Value F64) → ctrl_message J f ≡ ok m → f.frame_type ≡ ctrl
  unfolding ctrl_message
  message_type f m e = ground (arith, e)

  -- A frame's bytes are the first message that the websocket gives.
  next_frame_binary :
      (b : List ℕ) (f : Frame) (w : Websocket) (ms : List Message)
      → from_bytes b ≡ ok f
      → next_frame (record w { incoming = binary b ∷ ms })
        ≡ (ok (some f), record w { incoming = ms })
  unfolding next_frame next_read
  next_frame_binary b f w ms e = rw e refl

  server_reads_hello :
      (supported versions : List ℕ) (kind : ClientKind) (offer : Option (List Str))
      (features : List Str) (b : List ℕ) (ms : List Message)
      → ((v : List ℕ)
          → to_vec (hello versions kind offer) ≡ ok v
          → from_slice v ≡ ok (hello versions kind offer))
      → ctrl_bytes J (hello versions kind offer) ≡ ok b
      → server_handshake_with_features J supported features (fresh (binary b ∷ ms))
        ≡ answer J features
            (versions, kind, sanitize_features offer)
            (negotiate_version versions supported)
            (fresh ms)
  unfolding server_handshake_with_features on_first on_hello hello_of
  server_reads_hello supported versions kind offer features b ms back e =
      let (f, d, m, c) = ctrl_bytes_arrives J (hello versions kind offer) b back e in
      rw (next_frame_binary b f (fresh ms) ms d, message_type f (hello versions kind offer) m, m)
        refl

  send_ctrl-fresh :
      (m : Ctrl Value F64) (b : List ℕ) (ms : List Message)
      → ctrl_bytes J m ≡ ok b
      → send_ctrl J m (fresh ms) ≡ (ok tt, after ms b)
  unfolding send_ctrl send_bytes ws_send
  send_ctrl-fresh m b ms e = rw e refl

  answer_welcomes :
      (features : List Str) (versions : List ℕ) (kind : ClientKind) (peer : List Str) (v : ℕ)
      (b : List ℕ) (ms : List Message)
      → ctrl_bytes J (welcome v (unless_empty features)) ≡ ok b
      → answer J features (versions, kind, peer) (some v) (fresh ms) ≡ (
        ok record { version = v; client = kind; offered = versions; features = peer },
        after ms b,
      )
  unfolding answer after_welcome
  answer_welcomes features versions kind peer v b ms e =
      rw (send_ctrl-fresh (welcome v (unless_empty features)) b ms e) refl

  client_reads_welcome :
      (kind : ClientKind) (offer : List Str) (v : ℕ) (features : Option (List Str)) (b c : List ℕ)
      (ms : List Message)
      → ((p : List ℕ) → to_vec (welcome v features) ≡ ok p → from_slice p ≡ ok (welcome v features))
      → ctrl_bytes J (hello supported_versions kind (unless_empty offer)) ≡ ok b
      → ctrl_bytes J (welcome v features) ≡ ok c
      → mem v supported_versions ≡ true
      → client_handshake_offering J kind offer (fresh (binary c ∷ ms))
        ≡ (ok record { version = v; features = sanitize_features features }, after ms b)
  unfolding client_handshake_offering await_welcome on_answer on_welcome
  client_reads_welcome kind offer v features b c ms back e h k =
      let (f, d, m, z) = ctrl_bytes_arrives J (welcome v features) c back h in
      rw
        (
          send_ctrl-fresh (hello supported_versions kind (unless_empty offer)) b (binary c ∷ ms) e,
          next_frame_binary c f (after ms b) ms d,
          message_type f (welcome v features) m,
          m,
          k,
        )
        refl

  -- A server that shares a version with the client and reads the client's `hello`, and a client that reads
  -- the server's `welcome`, both succeed, agree on the version, and each knows the other's features, sanitized;
  -- the server also knows the client's kind. Each sends the one message that the other reads, and the messages
  -- after it stay unread. The conditions: serde_json reads the two messages back as they were written, their
  -- frames encode, and the sends are taken.
  pub handshake_agrees :
      (kind : ClientKind) (supported : List ℕ) (offer features : List Str) (v : ℕ) (b c : List ℕ)
      (ms ns : List Message)
      → ((p : List ℕ)
          → to_vec (hello supported_versions kind (unless_empty offer)) ≡ ok p
          → from_slice p ≡ ok (hello supported_versions kind (unless_empty offer)))
      → ((p : List ℕ)
          → to_vec (welcome v (unless_empty features)) ≡ ok p
          → from_slice p ≡ ok (welcome v (unless_empty features)))
      → ctrl_bytes J (hello supported_versions kind (unless_empty offer)) ≡ ok b
      → ctrl_bytes J (welcome v (unless_empty features)) ≡ ok c
      → negotiate_version supported_versions supported ≡ some v
      → (server_handshake_with_features J supported features (fresh (binary b ∷ ms)) ≡ (
        ok record {
          version = v;
          client = kind;
          offered = supported_versions;
          features = sanitize_features (unless_empty offer);
        },
        after ms c,
      ))
        × (client_handshake_offering J kind offer (fresh (binary c ∷ ns)) ≡ (
          ok record { version = v; features = sanitize_features (unless_empty features) },
          after ns b,
        ))
  handshake_agrees kind supported offer features v b c ms ns hello_back welcome_back e h n =
      let o = unless_empty offer in
      (
        server_reads_hello supported supported_versions kind o features b ms hello_back e
            ∙ rw n
                (answer_welcomes features supported_versions kind (sanitize_features o) v c ms h),
        client_reads_welcome kind offer v (unless_empty features) b c ns welcome_back e h
            (negotiate_version-mem supported_versions supported v n).0,
      )
