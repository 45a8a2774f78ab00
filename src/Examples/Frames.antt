-- ===== src/Examples/Frames.antt =====
-- frame.rs: a DATA_BIN frame of two bytes on channel 7, a WINDOW frame and a CLOSE frame.
use enzarb.Base.{
  ℕ, ◌≡◌, ◌↔◌, ◌≤◌, ◌+◌, refl, arith, true, none, some, List, [], ◌∷◌, ◌++◌, ok, All, length,
}
use enzarb.Base.Text.{text, IsByte, is_utf8}
use enzarb.Frame.Types.{
  Frame, FrameType, FrameHeader, data_bin, bad_credit, max_credit, max_payload_len,
}
use enzarb.Frame.Codec.{
  to_bytes, from_bytes, decode, parse, window_frame, close_frame, data_bin_frame, window_credit,
  close_info, validate,
}
use enzarb.Frame.RoundTrip.{from_bytes-to_bytes, to_bytes-from_bytes}
use enzarb.Frame.Stream.{decode-to_bytes, decode_partial, from_bytes_iff}
use enzarb.Frame.Payloads.{close_info-close_frame}
use enzarb.Frame

abbrev hi : Frame
hi = record { frame_type = data_bin; flags = 0; channel = 7; payload = 104 ∷ 105 ∷ [] }

abbrev hi_bytes : List ℕ
hi_bytes = 2 ∷ 0 ∷ 0 ∷ 0 ∷ 0 ∷ 7 ∷ 0 ∷ 0 ∷ 0 ∷ 2 ∷ 104 ∷ 105 ∷ []

hi-to_bytes : to_bytes hi ≡ ok hi_bytes
unfolding to_bytes validate Frame.Codec.check_channel Frame.Codec.header_bytes Frame.Codec.u32_to_be
    Frame.Types.to_u8
hi-to_bytes = refl

hi-from_bytes : from_bytes hi_bytes ≡ ok hi
unfolding from_bytes Frame.Codec.parse_header Frame.Codec.check_channel Frame.Codec.u32_from_be
    Frame.Types.from_u8 validate
hi-from_bytes = refl

from_bytes-to_bytes_example : from_bytes hi_bytes ≡ ok hi
from_bytes-to_bytes_example = from_bytes-to_bytes hi hi_bytes (omega arith) hi-to_bytes

hi_bytes-All : All IsByte hi_bytes
hi_bytes-All = ground arith

to_bytes-from_bytes_example : to_bytes hi ≡ ok hi_bytes
to_bytes-from_bytes_example = to_bytes-from_bytes hi_bytes hi hi_bytes-All hi-from_bytes

decode-to_bytes_example : decode (hi_bytes ++ (1 ∷ 0 ∷ [])) ≡ (ok (some hi), 1 ∷ 0 ∷ [])
decode-to_bytes_example = decode-to_bytes hi hi_bytes (1 ∷ 0 ∷ []) (omega arith) hi-to_bytes

decode_partial_example :
    decode (2 ∷ 0 ∷ 0 ∷ 0 ∷ 0 ∷ 7 ∷ 0 ∷ 0 ∷ 0 ∷ 2 ∷ 104 ∷ [])
    ≡ (ok none, 2 ∷ 0 ∷ 0 ∷ 0 ∷ 0 ∷ 7 ∷ 0 ∷ 0 ∷ 0 ∷ 2 ∷ 104 ∷ [])
decode_partial_example =
    decode_partial hi (2 ∷ 0 ∷ 0 ∷ 0 ∷ 0 ∷ 7 ∷ 0 ∷ 0 ∷ 0 ∷ 2 ∷ 104 ∷ []) [] 105 (omega arith)
      hi-to_bytes

from_bytes_iff_example : (from_bytes hi_bytes ≡ ok hi) ↔ (decode hi_bytes ≡ (ok (some hi), []))
from_bytes_iff_example = from_bytes_iff hi_bytes hi

bye-is_utf8 : is_utf8 (text "bye") ≡ true
unfolding is_utf8 text
bye-is_utf8 = refl

bye-fits : length (text "bye") + 2 ≤ max_payload_len
unfolding text
bye-fits = omega arith

close_info-close_frame_example :
    close_info (close_frame 7 1001 (text "bye")) ≡ ok (record { code = 1001; reason = text "bye" })
close_info-close_frame_example =
    close_info-close_frame 7 1001 (text "bye") (omega arith) bye-is_utf8
