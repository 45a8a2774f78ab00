-- ===== src/Frame/Types.antt =====
-- frame.rs: the constants, the types of a frame, and the errors with their texts.
use enzarb.Base.{
  ℕ, ◌+◌, ◌-◌, ◌*◌, ◌/◌, ◌%◌, ◌^◌, ◌<◌, Option, none, some, List, [], ◌∷◌, ◌++◌, ltb, ◌==◌,
  if◌then◌else◌, All,
}
use enzarb.Base.Text.{Str, text, show, IsByte}

abbrev pub header_len : ℕ
header_len = 10

abbrev pub max_payload_len : ℕ
max_payload_len = 2 ^ 20

abbrev pub max_credit : ℕ
max_credit = 2 ^ 31 - 1

abbrev pub initial_window : ℕ
initial_window = 256 * 1024

pub data FrameType : Type 0 where
  ctrl data_bin data_json window close : FrameType

-- `FrameType::from_u8`
unfoldable pub from_u8 : ℕ → Option FrameType
from_u8 b =
    if b == 1
    then some ctrl
    else if b == 2
    then some data_bin
    else if b == 3
    then some data_json
    else if b == 4
    then some window
    else if b == 5
    then some close
    else none

-- `self.frame_type as u8`
unfoldable pub to_u8 : FrameType → ℕ
to_u8 ctrl = 1
to_u8 data_bin = 2
to_u8 data_json = 3
to_u8 window = 4
to_u8 close = 5

unfoldable pub name : FrameType → Str
name ctrl = text "CTRL"
name data_bin = text "DATA_BIN"
name data_json = text "DATA_JSON"
name window = text "WINDOW"
name close = text "CLOSE"

pub data FrameError : Type 0 where
  truncated : FrameError
  trailing_bytes : ℕ → FrameError
  unknown_type : ℕ → FrameError
  unknown_flags : ℕ → FrameError
  payload_too_large : ℕ → FrameError
  ctrl_channel : FrameError
  zero_channel : Str → FrameError
  empty_data bad_window_payload bad_credit bad_close_payload : FrameError
  json : Str → FrameError

-- `FrameError::code`
unfoldable pub code : FrameError → Str
code truncated = text "truncated"
code (trailing_bytes n) = text "trailing_bytes"
code (unknown_type b) = text "unknown_type"
code (unknown_flags b) = text "unknown_flags"
code (payload_too_large n) = text "payload_too_large"
code ctrl_channel = text "ctrl_channel"
code (zero_channel t) = text "zero_channel"
code empty_data = text "empty_data"
code bad_window_payload = text "bad_window_payload"
code bad_credit = text "bad_credit"
code bad_close_payload = text "bad_close_payload"
code (json e) = text "json"

hex_digit : ℕ → ℕ
hex_digit d = if ltb d 10 then b'0' + d else b'a' + (d - 10)

-- `{:#04x}` of a byte.
show_hex : ℕ → Str
unfolding hex_digit
show_hex b = text "0x" ++ (hex_digit (b / 16) ∷ hex_digit (b % 16) ∷ [])

-- `Display` of a `FrameError`.
unfoldable pub display : FrameError → Str
unfolding show_hex
display truncated = text "truncated frame"
display (trailing_bytes n) = show n ++ text " trailing bytes after frame"
display (unknown_type b) = text "unknown frame type " ++ show b
display (unknown_flags b) = text "non-zero flags " ++ show_hex b
display (payload_too_large n) = text "payload of " ++ (show n ++ text " bytes exceeds the maximum")
display ctrl_channel = text "CTRL frames must use channel 0"
display (zero_channel t) = t ++ text " frames must not use channel 0"
display empty_data = text "empty data frame"
display bad_window_payload = text "WINDOW payload must be 4 bytes"
display bad_credit = text "WINDOW credit must be in 1..=2^31-1"
display bad_close_payload = text "malformed CLOSE payload"
display (json e) = text "json: " ++ e

pub record CloseInfo : Type 0 where
  pub code : ℕ
  pub reason : Str

pub record Frame : Type 0 where
  pub frame_type : FrameType
  pub flags : ℕ
  pub channel : ℕ
  pub payload : List ℕ

pub record FrameHeader : Type 0 where
  pub frame_type : FrameType
  pub flags : ℕ
  pub channel : ℕ
  pub len : ℕ

-- What the types of the source say of a `Frame`'s fields.
pub record IsFrame (f : Frame) : Type 0 where
  pub flags_byte : IsByte f.flags
  pub channel_u32 : f.channel < 2 ^ 32
  pub payload_bytes : All IsByte f.payload
