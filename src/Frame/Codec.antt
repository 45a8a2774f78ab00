-- ===== src/Frame/Codec.antt =====
-- frame.rs: parsing, checking, encoding and decoding of frames.
-- A byte is a number below 256, and a buffer is the list of its bytes. Callers of `parse_header`
-- have checked that ten bytes are there.
use enzarb.Base.{
  ℕ, ◌+◌, ◌-◌, ◌*◌, ◌/◌, ◌%◌, ◌^◌, not, ◌&&◌, ◌||◌, Option, none, some, List, [], ◌∷◌, ◌++◌, ltb,
  ◌==◌, if◌then◌else◌, length, get_or, take, drop, is_empty, Result, ok, err, ◌>>=◌, ◌>>◌, fail_if,
  ok_or,
}
use enzarb.Base.Text.{Str, is_utf8}
use enzarb.Frame.CloseCode
use enzarb.Frame.Types.{
  header_len, max_payload_len, max_credit, FrameType, ctrl, data_bin, data_json, window, close,
  from_u8, to_u8, name, FrameError, truncated, trailing_bytes, unknown_type, unknown_flags,
  payload_too_large, ctrl_channel, zero_channel, empty_data, bad_window_payload, bad_credit,
  bad_close_payload, CloseInfo, Frame, FrameHeader,
}

-- `u32::from_be_bytes` and `to_be_bytes`, and the same for u16.
unfoldable pub u32_from_be : ℕ → ℕ → ℕ → ℕ → ℕ
u32_from_be a b c d = a * 2 ^ 24 + b * 2 ^ 16 + c * 2 ^ 8 + d

unfoldable pub u32_to_be : ℕ → List ℕ
u32_to_be v = (v / 2 ^ 24 % 256) ∷ (v / 2 ^ 16 % 256) ∷ (v / 2 ^ 8 % 256) ∷ (v % 256) ∷ []

unfoldable pub u16_from_be : ℕ → ℕ → ℕ
u16_from_be a b = a * 2 ^ 8 + b

unfoldable pub u16_to_be : ℕ → List ℕ
u16_to_be v = (v / 2 ^ 8 % 256) ∷ (v % 256) ∷ []

-- `b[i]`; the code indexes only where it has checked the length.
abbrev byte_at : List ℕ → ℕ → ℕ
byte_at b i = get_or b i 0

unfoldable pub check_channel : FrameType → ℕ → Result FrameError (Unit {0})
check_channel ctrl channel = if channel == 0 then ok tt else err ctrl_channel
check_channel data_bin channel = if channel == 0 then err (zero_channel (name data_bin)) else ok tt
check_channel data_json channel =
    if channel == 0 then err (zero_channel (name data_json)) else ok tt
check_channel window channel = if channel == 0 then err (zero_channel (name window)) else ok tt
check_channel close channel = if channel == 0 then err (zero_channel (name close)) else ok tt

unfoldable pub parse_header : List ℕ → Result FrameError FrameHeader
parse_header b = do
  frame_type ← ok_or (from_u8 (byte_at b 0)) (unknown_type (byte_at b 0))
  let flags = byte_at b 1
  fail_if (not (flags == 0)) (unknown_flags flags)
  let channel = u32_from_be (byte_at b 2) (byte_at b 3) (byte_at b 4) (byte_at b 5)
  let len = u32_from_be (byte_at b 6) (byte_at b 7) (byte_at b 8) (byte_at b 9)
  fail_if (ltb max_payload_len len) (payload_too_large len)
  check_channel frame_type channel
  ok (record { frame_type = frame_type; flags = flags; channel = channel; len = len })

-- `FrameHeader::parse`
unfoldable pub parse : List ℕ → Result FrameError FrameHeader
parse b = do fail_if (ltb (length b) header_len) truncated; parse_header b

-- `Frame::new`
unfoldable pub new : FrameType → ℕ → List ℕ → Frame
new frame_type channel payload = record {
  frame_type = frame_type;
  flags = 0;
  channel = channel;
  payload = payload;
}

-- The constructors `Frame::data_bin`, `Frame::window` and `Frame::close`.
unfoldable pub data_bin_frame : ℕ → List ℕ → Frame
unfolding new
data_bin_frame channel payload = new data_bin channel payload

unfoldable pub window_frame : ℕ → ℕ → Frame
unfolding new
window_frame channel credit = new window channel (u32_to_be credit)

unfoldable pub close_payload : ℕ → Str → List ℕ
close_payload code reason = if code == 0 && is_empty reason then [] else u16_to_be code ++ reason

unfoldable pub close_frame : ℕ → ℕ → Str → Frame
unfolding new
close_frame channel code reason = new close channel (close_payload code reason)

-- `Frame::window_credit`
unfoldable pub window_credit : Frame → Result FrameError ℕ
window_credit f = do
  fail_if (not (length f.payload == 4)) bad_window_payload
  let b = f.payload
  let c = u32_from_be (byte_at b 0) (byte_at b 1) (byte_at b 2) (byte_at b 3)
  fail_if (c == 0 || ltb max_credit c) bad_credit
  ok c

-- `Frame::close_info`, by the length of the payload.
unfoldable pub close_info_of : List ℕ → Result FrameError CloseInfo
close_info_of [] = ok (record { code = CloseCode.normal; reason = [] })
close_info_of (a ∷ []) = err bad_close_payload
close_info_of (a ∷ b ∷ reason) =
    if is_utf8 reason
    then ok (record { code = u16_from_be a b; reason = reason })
    else err bad_close_payload

unfoldable pub close_info : Frame → Result FrameError CloseInfo
unfolding close_info_of
close_info f = close_info_of f.payload

-- The last test of `Frame::validate`, by frame type.
unfoldable pub check_payload : FrameType → Frame → Result FrameError (Unit {0})
check_payload ctrl f = ok tt
check_payload data_bin f = fail_if (is_empty f.payload) empty_data
check_payload data_json f = fail_if (is_empty f.payload) empty_data
check_payload window f = do _ ← window_credit f; ok tt
check_payload close f = do _ ← close_info f; ok tt

unfoldable pub validate : Frame → Result FrameError (Unit {0})
unfolding check_payload
validate f = do
  fail_if (not (f.flags == 0)) (unknown_flags f.flags)
  fail_if (ltb max_payload_len (length f.payload)) (payload_too_large (length f.payload))
  check_channel f.frame_type f.channel
  check_payload f.frame_type f

unfoldable pub encoded_len : Frame → ℕ
encoded_len f = header_len + length f.payload

-- The ten bytes that `encode` puts before the payload.
unfoldable pub header_bytes : Frame → List ℕ
header_bytes f =
    to_u8 f.frame_type ∷ f.flags ∷ u32_to_be f.channel ++ u32_to_be (length f.payload % 2 ^ 32)

-- `Frame::encode`: the new `dst`. A refusal leaves `dst` as it was.
unfoldable pub encode : Frame → List ℕ → Result FrameError (List ℕ)
encode f dst = do validate f; ok (dst ++ (header_bytes f ++ f.payload))

unfoldable pub to_bytes : Frame → Result FrameError (List ℕ)
unfolding encode
to_bytes f = encode f []

abbrev pub frame_of : FrameHeader → List ℕ → Frame
frame_of h payload = record {
  frame_type = h.frame_type;
  flags = h.flags;
  channel = h.channel;
  payload = payload;
}

-- `Frame::from_bytes`
unfoldable pub from_bytes : List ℕ → Result FrameError Frame
from_bytes msg = do
  fail_if (ltb (length msg) header_len) truncated
  h ← parse_header msg
  let total = header_len + h.len
  fail_if (ltb (length msg) total) truncated
  fail_if (ltb total (length msg)) (trailing_bytes (length msg - total))
  let f = frame_of h (drop header_len msg)
  validate f
  ok f

-- The part of `Frame::decode` behind a header: what it returns, and the buffer that it leaves.
unfoldable pub decode_body : List ℕ → FrameHeader → Result FrameError (Option Frame) × List ℕ
decode_body buf h =
    if ltb (length buf) (header_len + h.len)
    then (ok none, buf)
    else let f = frame_of h (take h.len (drop header_len buf)) in
      (validate f >>= (λ _. ok (some f)), drop h.len (drop header_len buf))

-- `Frame::decode`: remove one frame from the front of `buf`.
unfoldable pub decode : List ℕ → Result FrameError (Option Frame) × List ℕ
unfolding decode_body
decode buf =
    if ltb (length buf) header_len
    then (ok none, buf)
    else elim (parse_header buf) [ ok h ↦ decode_body buf h | err e ↦ (err e, buf) ]
