-- ===== src/Frame/RoundTrip.antt =====
-- `to_bytes` and `from_bytes` are inverse to one another on what either accepts.
use enzarb.Base.{
  ℕ, ◌+◌, ◌^◌, ◌≤◌, ◌<◌, ◌≡◌, refl, ap, ◌∙◌, arith, All, List, ◌∷◌, ◌++◌, length, ok, Result-cases,
  inl, inr, length-append, get_or, drop,
}
use enzarb.Base.Text.{IsByte}
use enzarb.Frame.Types.{header_len, max_payload_len, to_u8, Frame, FrameHeader}
use enzarb.Frame.Codec.{
  u32_from_be, u32_to_be, check_channel, parse_header, validate, header_bytes, to_bytes, from_bytes,
  frame_of, encoded_len,
}
use enzarb.Frame.Bytes.{to_be-from_be, from_be-lt, to_u8-from_u8}
use enzarb.Frame.Header.{validate-IsChecked, length-header_bytes, parse_header-header_bytes}

pub to_bytes-ok :
    (f : Frame) (b : List ℕ)
    → to_bytes f ≡ ok b
    → (validate f ≡ ok tt) × (header_bytes f ++ f.payload ≡ b)
unfolding to_bytes
to_bytes-ok f b h = ground arith

pub to_bytes-eq : (f : Frame) → validate f ≡ ok tt → to_bytes f ≡ ok (header_bytes f ++ f.payload)
unfolding to_bytes
to_bytes-eq f h = rw h

pub length-to_bytes : (f : Frame) (b : List ℕ) → to_bytes f ≡ ok b → length b ≡ encoded_len f
unfolding encoded_len
length-to_bytes f b h =
    let (_, e) = to_bytes-ok f b h in
    rw (← e, length-append (header_bytes f) f.payload, length-header_bytes f)

pub drop-header_bytes :
    (f : Frame) (rest : List ℕ) → drop header_len (header_bytes f ++ rest) ≡ rest
unfolding header_bytes u32_to_be
drop-header_bytes f rest = refl

pub length-encoded :
    (f : Frame) (rest : List ℕ) → length (header_bytes f ++ rest) ≡ header_len + length rest
length-encoded f rest = rw (length-append (header_bytes f) rest, length-header_bytes f)

-- A frame that encodes, on a channel below 2 ^ 32, is what its encoding decodes to.
pub from_bytes-to_bytes :
    (f : Frame) (b : List ℕ) → f.channel < 2 ^ 32 → to_bytes f ≡ ok b → from_bytes b ≡ ok f
unfolding from_bytes
from_bytes-to_bytes f b hc h =
    let (v, e) = to_bytes-ok f b h in
    rw (← e) (
      ground (
        arith,
        v,
        length-encoded f f.payload,
        parse_header-header_bytes f f.payload hc (validate-IsChecked f v),
        drop-header_bytes f f.payload,
      ))

-- What a header that parses says of the first ten bytes.
pub parse_header-ok :
    (b : List ℕ) (h : FrameHeader)
    → parse_header b ≡ ok h
    → (to_u8 h.frame_type ≡ get_or b 0 0)
      × (h.flags ≡ get_or b 1 0)
      × (h.channel ≡ u32_from_be (get_or b 2 0) (get_or b 3 0) (get_or b 4 0) (get_or b 5 0))
      × (h.len ≡ u32_from_be (get_or b 6 0) (get_or b 7 0) (get_or b 8 0) (get_or b 9 0))
      × (h.len ≤ max_payload_len)
      × (h.flags ≡ 0)
      × (check_channel h.frame_type h.channel ≡ ok tt)
unfolding parse_header
parse_header-ok b h e = ground (arith, to_u8-from_u8 (get_or b 0 0) h.frame_type)

pub from_bytes-ok :
    (b : List ℕ) (f : Frame)
    → from_bytes b ≡ ok f
    → (h : FrameHeader) × (parse_header b ≡ ok h)
      × (length b ≡ header_len + h.len)
      × (f ≡ frame_of h (drop header_len b))
      × (validate f ≡ ok tt)
unfolding from_bytes
from_bytes-ok b f e = elim (Result-cases (parse_header b)) [
  | inl (h, p) ↦ (h, p, ground arith, ground arith, ground arith)
  | inr (x, p) ↦ ground arith
]

-- The bytes of a message are those that its frame encodes to.
from_bytes-bytes :
    (b : List ℕ) (f : Frame)
    → All IsByte b
    → header_len ≤ length b
    → from_bytes b ≡ ok f
    → header_bytes f ++ f.payload ≡ b
from_bytes-bytes (a ∷ fl ∷ c0 ∷ c1 ∷ c2 ∷ c3 ∷ l0 ∷ l1 ∷ l2 ∷ l3 ∷ p) f hb _ e =
    let (h, ph, hl, hf, v) = from_bytes-ok _ f e in
    let (ht, hfl, hc, hlen, _, _, _) = parse_header-ok _ h ph in
    unfold header_bytes in
    ground (
      arith,
      ht,
      hfl,
      hc,
      hlen,
      hl,
      hf,
      to_be-from_be c0 c1 c2 c3,
      to_be-from_be l0 l1 l2 l3,
      from_be-lt l0 l1 l2 l3,
    )
from_bytes-bytes _ f hb h e = absurd (omega arith)

-- The encoding is canonical: a message that decodes is the encoding of its frame.
pub to_bytes-from_bytes :
    (b : List ℕ) (f : Frame) → All IsByte b → from_bytes b ≡ ok f → to_bytes f ≡ ok b
to_bytes-from_bytes b f hb e =
    let (h, ph, hl, hf, v) = from_bytes-ok b f e in
    to_bytes-eq f v ∙ ap ok (from_bytes-bytes b f hb (omega arith) e)
