-- ===== src/Frame/CloseCode.antt =====
-- frame.rs, `close_code`: the codes of a CLOSE frame.
use Prim.Native.Nat.{ℕ}

abbrev pub normal : ℕ
normal = 0

abbrev pub protocol_error : ℕ
protocol_error = 1

abbrev pub going_away : ℕ
going_away = 2

abbrev pub cancelled : ℕ
cancelled = 3
