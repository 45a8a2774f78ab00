-- ===== src/Frame/Bytes.antt =====
-- The big-endian forms of u32 and u16, and the frame type byte, in both directions.
use enzarb.Base.{ℕ, ◌/◌, ◌%◌, ◌^◌, ◌<◌, ◌≡◌, refl, some, arith, All, [], ◌∷◌}
use enzarb.Base.Text.{IsByte}
use enzarb.Frame.Types.{FrameType, ctrl, data_bin, data_json, window, close, from_u8, to_u8}
use enzarb.Frame.Codec.{u32_from_be, u32_to_be, u16_from_be, u16_to_be}

pub from_be-to_be :
    (v : ℕ)
    → v < 2 ^ 32
    → u32_from_be (v / 2 ^ 24 % 256) (v / 2 ^ 16 % 256) (v / 2 ^ 8 % 256) (v % 256) ≡ v
unfolding u32_from_be
from_be-to_be v h = omega arith

pub to_be-from_be :
    (a b c d : ℕ)
    → IsByte a
    → IsByte b
    → IsByte c
    → IsByte d
    → u32_to_be (u32_from_be a b c d) ≡ a ∷ b ∷ c ∷ d ∷ []
unfolding u32_from_be u32_to_be
to_be-from_be a b c d ha hb hc hd = ground arith

pub from_be-lt :
    (a b c d : ℕ) → IsByte a → IsByte b → IsByte c → IsByte d → u32_from_be a b c d < 2 ^ 32
unfolding u32_from_be
from_be-lt a b c d ha hb hc hd = omega arith

pub u16_from_be-to_be : (v : ℕ) → v < 2 ^ 16 → u16_from_be (v / 2 ^ 8 % 256) (v % 256) ≡ v
unfolding u16_from_be
u16_from_be-to_be v h = omega arith

pub u16_to_be-from_be : (a b : ℕ) → IsByte a → IsByte b → u16_to_be (u16_from_be a b) ≡ a ∷ b ∷ []
unfolding u16_from_be u16_to_be
u16_to_be-from_be a b ha hb = ground arith

pub u32_to_be-IsByte : (v : ℕ) → All IsByte (u32_to_be v)
unfolding u32_to_be
u32_to_be-IsByte v = omega arith

pub from_u8-to_u8 : (t : FrameType) → from_u8 (to_u8 t) ≡ some t
unfolding from_u8 to_u8
from_u8-to_u8 ctrl = refl
from_u8-to_u8 data_bin = refl
from_u8-to_u8 data_json = refl
from_u8-to_u8 window = refl
from_u8-to_u8 close = refl

pub to_u8-from_u8 : (b : ℕ) (t : FrameType) → from_u8 b ≡ some t → to_u8 t ≡ b
unfolding from_u8 to_u8
to_u8-from_u8 b t h = ground arith
