-- ===== src/Ctrl/OpenErrorCode.antt =====
-- ctrl.rs, `open_error_code`: the values of `open_error.code` that the session core and the proxy send.
use enzarb.Base.Text.{Str, text}

unfoldable pub unsupported_kind : Str
unsupported_kind = text "unsupported_kind"

unfoldable pub invalid_request : Str
invalid_request = text "invalid_request"

unfoldable pub chat_limit : Str
chat_limit = text "chat_limit"
