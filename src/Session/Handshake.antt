-- ===== src/Session/Handshake.antt =====
-- session/handshake.rs: the hello and welcome that open a session, over one websocket.
-- The websocket is what it gives next and how it takes what is sent: `sink` holds the answers to
-- the sends to come, a text for one that fails, and every send past its end is taken.
use enzarb.Base.{
  ℕ, Bool, true, false, Option, none, some, List, [], ◌∷◌, ◌++◌, Result, ok, err, map, is_empty,
  if◌then◌else◌,
}
use enzarb.Base.Text.{Str, text, show}
use enzarb.Base.Strings.{join}
use enzarb.Base.Dict.{mem}
use enzarb.Frame.Types.{Frame, FrameType, FrameError, ctrl, display}
use enzarb.Frame.Codec.{from_bytes}
use enzarb.Ctrl.Types.{Ctrl, ClientKind, hello, welcome, error}
use enzarb.Ctrl.Json.{Serde, ctrl_bytes, ctrl_message}
use enzarb.Ctrl.ErrorCode
use enzarb.Ctrl.Features.{sanitize_features, negotiate_version, supported_versions}
use enzarb.Session.Errors.{
  HandshakeError, transport, protocol, unsupported_version, rejected, closed,
}
use enzarb.Session.Core.Loops.{Message, binary, text_message, ping, closing, ended, failed}
pub mod Agree
pub mod First
pub mod Outcome

pub record Websocket : Type 0 where
  pub incoming : List Message
  pub sink : List (Option Str)
  pub sent : List (List ℕ)
  pub is_closed : Bool

pub record ServerHello : Type 0 where
  pub version : ℕ
  pub client : ClientKind
  pub offered : List ℕ
  pub features : List Str

pub record ClientWelcome : Type 0 where
  pub version : ℕ
  pub features : List Str

-- `Sink::send` of a binary message, by the answers to come.
abbrev pub send_by : List (Option Str) → List ℕ → Websocket → Result Str (Unit {0}) × Websocket
send_by [] b w = (ok tt, record w { sent = w.sent ++ (b ∷ []) })
send_by (none ∷ rest) b w = (ok tt, record w { sink = rest; sent = w.sent ++ (b ∷ []) })
send_by (some e ∷ rest) b w = (err e, record w { sink = rest })

unfoldable pub ws_send : List ℕ → Websocket → Result Str (Unit {0}) × Websocket
ws_send b w = send_by w.sink b w

-- `SinkExt::close`
abbrev ws_close : Websocket → Websocket
ws_close w = record w { is_closed = true }

abbrev pub or_transport :
    Result Str (Unit {0}) × Websocket → Result HandshakeError (Unit {0}) × Websocket
or_transport (ok u, w) = (ok u, w)
or_transport (err e, w) = (err (transport e), w)

unfoldable pub send_bytes :
    Result FrameError (List ℕ) → Websocket → Result HandshakeError (Unit {0}) × Websocket
unfolding ws_send
send_bytes (ok b) w = or_transport (ws_send b w)
send_bytes (err e) w = (err (protocol (display e)), w)

abbrev read_frame : Result FrameError Frame → Result Str (Option Frame)
read_frame (ok f) = ok (some f)
read_frame (err e) = err (display e)

-- `next_frame` on what the websocket gives, with what it leaves unread.
unfoldable pub next_read : List Message → Result Str (Option Frame) × List Message
next_read [] = (ok none, [])
next_read (ended ∷ ms) = (ok none, ms)
next_read (closing ∷ ms) = (ok none, ms)
next_read (failed e ∷ ms) = (err (text "websocket: " ++ e), ms)
next_read (binary b ∷ ms) = (read_frame (from_bytes b), ms)
next_read (text_message ∷ ms) = (err (text "text message"), ms)
next_read (ping ∷ ms) = next_read ms

unfoldable pub next_frame : Websocket → Result Str (Option Frame) × Websocket
unfolding next_read
next_frame w = let (r, ms) = next_read w.incoming in (r, record w { incoming = ms })

-- `(!features.is_empty()).then(|| features.to_vec())`
abbrev pub unless_empty : List Str → Option (List Str)
unless_empty fs = if is_empty fs then none else some fs

-- `{versions:?}`
show_versions : List ℕ → Str
show_versions vs = text "[" ++ (join (text ", ") (map show vs) ++ text "]")

module _ (J : Serde) where
  open J use {Value, F64}

  unfoldable pub send_ctrl :
      Ctrl Value F64 → Websocket → Result HandshakeError (Unit {0}) × Websocket
  unfolding send_bytes
  send_ctrl m w = send_bytes (ctrl_bytes J m) w

  -- The error is sent as well as it can be, and the websocket is closed.
  unfoldable pub reject : Str → Str → Websocket → HandshakeError × Websocket
  unfolding send_ctrl
  reject code message w =
      let (sent, v) = send_ctrl (error code message none none) w in (protocol message, ws_close v)

  unfoldable pub refuse : {A : Type 0} → Str → Str → Websocket → Result HandshakeError A × Websocket
  unfolding reject
  refuse code message w = let (e, v) = reject code message w in (err e, v)

  -- The `hello` that a first frame of this type and with this message is.
  unfoldable pub hello_of :
      FrameType → Result FrameError (Ctrl Value F64) → Option (List ℕ × ClientKind × List Str)
  hello_of ctrl (ok (hello versions client features)) =
      some (versions, client, sanitize_features features)
  hello_of _ _ = none

  unfoldable pub after_welcome :
      ServerHello
      → Result HandshakeError (Unit {0}) × Websocket
      → Result HandshakeError ServerHello × Websocket
  after_welcome h (ok u, w) = (ok h, w)
  after_welcome h (err e, w) = (err e, w)

  -- The server's answer, given the version agreed on.
  unfoldable pub answer :
      List Str
      → List ℕ × ClientKind × List Str
      → Option ℕ
      → Websocket
      → Result HandshakeError ServerHello × Websocket
  unfolding send_ctrl reject after_welcome show_versions
  answer features (versions, client, peer_features) none w =
      let msg = text "no common version (client offered " ++ (show_versions versions ++ text ")") in
      let (e, v) = reject ErrorCode.unsupported_version msg w in
      (err (unsupported_version versions), v)
  answer features (versions, client, peer_features) (some version) w =
      after_welcome
        record { version = version; client = client; offered = versions; features = peer_features }
        (send_ctrl (welcome version (unless_empty features)) w)

  unfoldable pub on_hello :
      List ℕ
      → List Str
      → Option (List ℕ × ClientKind × List Str)
      → Websocket
      → Result HandshakeError ServerHello × Websocket
  unfolding refuse answer
  on_hello supported features none w =
      refuse ErrorCode.protocol_violation (text "first frame must be CTRL hello") w
  on_hello supported features (some h) w = answer features h (negotiate_version h.0 supported) w

  unfoldable pub on_first :
      List ℕ
      → List Str
      → Result Str (Option Frame) × Websocket
      → Result HandshakeError ServerHello × Websocket
  unfolding refuse on_hello hello_of
  on_first supported features (ok (some f), w) =
      on_hello supported features (hello_of f.frame_type (ctrl_message J f)) w
  on_first supported features (ok none, w) = (err closed, w)
  on_first supported features (err e, w) = refuse ErrorCode.protocol_violation e w

  unfoldable pub server_handshake_with_features :
      List ℕ → List Str → Websocket → Result HandshakeError ServerHello × Websocket
  unfolding next_frame on_first
  server_handshake_with_features supported features w = on_first supported features (next_frame w)

  -- What the client makes of a first frame of this type and with this message.
  unfoldable pub on_welcome :
      FrameType
      → Result FrameError (Ctrl Value F64)
      → Websocket
      → Result HandshakeError ClientWelcome × Websocket
  unfolding refuse
  on_welcome ctrl (ok (welcome version features)) w =
      if mem version supported_versions
      then (ok record { version = version; features = sanitize_features features }, w)
      else (err (protocol (text "server chose unsupported version " ++ show version)), w)
  on_welcome ctrl (ok (error code message run_id channel)) w =
      (err (rejected code message), ws_close w)
  on_welcome _ _ w = refuse ErrorCode.protocol_violation (text "expected CTRL welcome") w

  unfoldable pub on_answer :
      Result Str (Option Frame) × Websocket → Result HandshakeError ClientWelcome × Websocket
  unfolding on_welcome
  on_answer (ok (some f), w) = on_welcome f.frame_type (ctrl_message J f) w
  on_answer (ok none, w) = (err closed, w)
  on_answer (err e, w) = (err (protocol e), w)

  unfoldable pub await_welcome :
      Result HandshakeError (Unit {0}) × Websocket → Result HandshakeError ClientWelcome × Websocket
  unfolding next_frame on_answer
  await_welcome (ok u, w) = on_answer (next_frame w)
  await_welcome (err e, w) = (err e, w)

  unfoldable pub client_handshake_offering :
      ClientKind → List Str → Websocket → Result HandshakeError ClientWelcome × Websocket
  unfolding send_ctrl await_welcome
  client_handshake_offering kind features w =
      await_welcome (send_ctrl (hello supported_versions kind (unless_empty features)) w)

  unfoldable pub server_handshake :
      List ℕ → Websocket → Result HandshakeError ServerHello × Websocket
  server_handshake supported w = server_handshake_with_features supported [] w

  unfoldable pub client_handshake_with_features :
      ClientKind → Websocket → Result HandshakeError ClientWelcome × Websocket
  client_handshake_with_features kind w = client_handshake_offering kind [] w

  abbrev its_version : Result HandshakeError ClientWelcome → Result HandshakeError ℕ
  its_version (ok c) = ok c.version
  its_version (err e) = err e

  unfoldable pub client_handshake : ClientKind → Websocket → Result HandshakeError ℕ × Websocket
  client_handshake kind w = let (r, v) = client_handshake_with_features kind w in (its_version r, v)
