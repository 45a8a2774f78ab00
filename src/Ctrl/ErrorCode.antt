-- ===== src/Ctrl/ErrorCode.antt =====
-- ctrl.rs, `error_code`: the standard values of `error.code`.
use enzarb.Base.Text.{Str, text}

unfoldable pub unsupported_version : Str
unsupported_version = text "unsupported_version"

unfoldable pub unknown_message : Str
unknown_message = text "unknown_message"

unfoldable pub protocol_violation : Str
protocol_violation = text "protocol_violation"

unfoldable pub flow_control : Str
flow_control = text "flow_control"

unfoldable pub unauthorized : Str
unauthorized = text "unauthorized"

unfoldable pub unknown_channel : Str
unknown_channel = text "unknown_channel"

unfoldable pub unknown_run : Str
unknown_run = text "unknown_run"

unfoldable pub internal : Str
internal = text "internal"

unfoldable pub unimplemented : Str
unimplemented = text "unimplemented"
