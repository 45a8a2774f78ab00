-- ===== src/Frame/Header.antt =====
-- `validate` taken apart, and the header that `parse_header` reads from what `encode` wrote.
use enzarb.Base.{ℕ, ◌^◌, ◌≤◌, ◌<◌, ◌≡◌, refl, arith, List, ◌++◌, length, ok}
use enzarb.Frame.Types.{header_len, max_payload_len, Frame}
use enzarb.Frame.Codec.{
  u32_to_be, check_channel, parse_header, check_payload, validate, header_bytes,
}
use enzarb.Frame.Bytes.{from_be-to_be, from_u8-to_u8}

pub record IsChecked (f : Frame) : Type 0 where
  pub no_flags : f.flags ≡ 0
  pub fits : length f.payload ≤ max_payload_len
  pub channel_ok : check_channel f.frame_type f.channel ≡ ok tt
  pub payload_ok : check_payload f.frame_type f ≡ ok tt

pub validate-IsChecked : (f : Frame) → validate f ≡ ok tt → IsChecked f
unfolding validate
validate-IsChecked f h = ground arith

pub IsChecked-validate : (f : Frame) → IsChecked f → validate f ≡ ok tt
unfolding validate
IsChecked-validate f h = ground arith

pub length-header_bytes : (f : Frame) → length (header_bytes f) ≡ header_len
unfolding header_bytes u32_to_be
length-header_bytes f = refl

pub parse_header-header_bytes :
    (f : Frame) (rest : List ℕ)
    → f.channel < 2 ^ 32
    → IsChecked f
    → parse_header (header_bytes f ++ rest)
      ≡ ok (record {
        frame_type = f.frame_type;
        flags = f.flags;
        channel = f.channel;
        len = length f.payload;
      })
unfolding parse_header header_bytes u32_to_be
parse_header-header_bytes f rest hc v = ground (
  arith,
  from_u8-to_u8 f.frame_type,
  from_be-to_be f.channel hc,
  from_be-to_be (length f.payload) (omega (arith, v.fits)),
)
