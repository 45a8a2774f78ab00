-- ===== src/Session/Errors.antt =====
-- session/error.rs: why a session ended, and the errors of its operations. A serde_json error is
-- known by its text.
use enzarb.Base.{ℕ, List, Option, some, none}
use enzarb.Base.Text.{Str}
use enzarb.Frame.Types.{FrameError}

pub data Role : Type 0 where
  client server : Role

pub data SessionEnd : Type 0 where
  closed peer_closed : SessionEnd
  protocol transport : Str → SessionEnd

pub data SessionError : Type 0 where
  ended : SessionEnd → SessionError
  channel_in_use : ℕ → SessionError
  reserved_channel no_free_channel : SessionError
  open_rejected : Str → SessionError
  open_rejected_code : (code message : Str) → SessionError
  remote : (code message : Str) → SessionError
  wrong_role : Role → SessionError
  channel_closed : SessionError
  channel_aborted : Str → SessionError
  json_too_large : ℕ → SessionError
  frame_failed : FrameError → SessionError
  json_failed : Str → SessionError

-- `SessionError::open_error_code`
unfoldable pub open_error_code : SessionError → Option Str
open_error_code (open_rejected_code code message) = some code
open_error_code _ = none

pub data HandshakeError : Type 0 where
  transport protocol : Str → HandshakeError
  unsupported_version : (offered : List ℕ) → HandshakeError
  rejected : (code message : Str) → HandshakeError
  closed : HandshakeError

-- The kinds of `std::io::Error` that `io_err` chooses from.
pub data IoErrorKind : Type 0 where
  connection_aborted broken_pipe other : IoErrorKind

unfoldable pub io_err : SessionError → IoErrorKind
io_err (ended e) = connection_aborted
io_err (channel_aborted r) = connection_aborted
io_err channel_closed = broken_pipe
io_err _ = other
