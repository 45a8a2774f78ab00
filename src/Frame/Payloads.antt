-- ===== src/Frame/Payloads.antt =====
-- The payloads of WINDOW and CLOSE frames, and `FrameHeader::parse` against the full decoder.
use enzarb.Base.{
  ℕ, ◌+◌, ◌^◌, ◌≤◌, ◌<◌, ◌≡◌, arith, List, [], ◌∷◌, length, true, ok, err, ◌≢◌, ◌↔◌, ltb, ◌==◌,
  if◌then◌else◌, ◌||◌,
}
use enzarb.Base.Text.{Str, is_utf8}
use enzarb.Frame.Types.{max_credit, max_payload_len, Frame, FrameError, bad_credit}
use enzarb.Frame.Codec.{
  parse, validate, from_bytes, window_frame, window_credit, close_frame, data_bin_frame,
  close_payload, close_info, close_info_of, u32_to_be, u16_to_be, check_channel, check_payload,
}
use enzarb.Frame.Bytes.{from_be-to_be, u16_from_be-to_be}
use enzarb.Frame.RoundTrip.{from_bytes-ok}

-- A WINDOW frame carries its credit, and is refused with `bad_credit` outside 1 to 2^31 - 1.
pub window_credit-window_frame :
    (channel credit : ℕ)
    → credit < 2 ^ 32
    → window_credit (window_frame channel credit)
      ≡ (if credit == 0 || ltb max_credit credit then err bad_credit else ok credit)
unfolding window_credit window_frame u32_to_be
window_credit-window_frame channel credit h = rw (from_be-to_be credit h) (ground arith)

-- On a channel other than 0 a WINDOW frame is valid exactly when its credit is.
pub validate-window_frame :
    (channel credit : ℕ)
    → credit < 2 ^ 32
    → channel ≢ 0
    → (validate (window_frame channel credit) ≡ ok tt) ↔ ((1 ≤ credit) × (credit ≤ max_credit))
unfolding validate check_payload check_channel window_frame u32_to_be
validate-window_frame channel credit h hc =
    let e = window_credit-window_frame channel credit h in
    (
      unfold window_frame u32_to_be in (λ v. ground (arith, e)),
      unfold window_frame u32_to_be in (λ v. ground (arith, e)),
    )

-- A CLOSE frame carries its code and reason.
pub close_info-close_frame :
    (channel code : ℕ) (reason : Str)
    → code < 2 ^ 16
    → is_utf8 reason ≡ true
    → close_info (close_frame channel code reason) ≡ ok (record { code = code; reason = reason })
unfolding close_info close_frame close_payload close_info_of u16_to_be
close_info-close_frame channel code [] h u = ground (arith, u16_from_be-to_be code h)
close_info-close_frame channel code (x ∷ xs) h u = ground (arith, u16_from_be-to_be code h)

length-close_payload :
    (code : ℕ) (reason : Str) → length (close_payload code reason) ≤ length reason + 2
unfolding close_payload u16_to_be
length-close_payload code reason = ground arith

-- It is valid on every channel but 0, while its reason leaves room for the code.
pub validate-close_frame :
    (channel code : ℕ) (reason : Str)
    → code < 2 ^ 16
    → is_utf8 reason ≡ true
    → channel ≢ 0
    → length reason + 2 ≤ max_payload_len
    → validate (close_frame channel code reason) ≡ ok tt
unfolding validate check_payload check_channel
validate-close_frame channel code reason h u hc n =
    let e = close_info-close_frame channel code reason h u in
    let m = length-close_payload code reason in unfold close_frame in ground (arith, e, m)

-- An error of the header alone is the error of the full decoder.
pub parse_err : (b : List ℕ) (e : FrameError) → parse b ≡ err e → from_bytes b ≡ err e
unfolding parse from_bytes
parse_err b e h = ground arith

-- A message that decodes has a header that parses, with the frame's type and channel and the payload's length.
pub from_bytes-parse :
    (b : List ℕ) (f : Frame)
    → from_bytes b ≡ ok f
    → parse b
      ≡ ok (record {
        frame_type = f.frame_type;
        flags = f.flags;
        channel = f.channel;
        len = length f.payload;
      })
unfolding parse
from_bytes-parse b f e = let (h, ph, hl, hf, v) = from_bytes-ok b f e in ground (arith, ph, hl, hf)

-- A DATA_BIN frame is valid on every channel but 0, unless it is empty or too large.
pub validate-data_bin_frame :
    (channel : ℕ) (payload : List ℕ)
    → channel ≢ 0
    → 1 ≤ length payload
    → length payload ≤ max_payload_len
    → validate (data_bin_frame channel payload) ≡ ok tt
unfolding validate check_payload check_channel data_bin_frame
validate-data_bin_frame channel [] hc lo hi = absurd (omega arith)
validate-data_bin_frame channel (x ∷ xs) hc lo hi = ground arith
