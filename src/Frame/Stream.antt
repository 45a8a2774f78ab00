-- ===== src/Frame/Stream.antt =====
-- The streaming decoder `decode`, against the encoder and against the decoder of whole messages.
use enzarb.Base.{
  ℕ, ◌^◌, ◌≤◌, ◌<◌, ◌≡◌, refl, ap, ◌∙◌, some, none, arith, List, [], ◌∷◌, ◌++◌, length, ok,
  Result-cases, inl, inr, length-append, drop, drop-append, take-append, append_assoc, ◌↔◌,
  take_all, drop_all, length-drop,
}
use enzarb.Frame.Types.{header_len, Frame, FrameHeader}
use enzarb.Frame.Codec.{
  parse_header, validate, header_bytes, to_bytes, from_bytes, decode, decode_body,
}
use enzarb.Frame.Header.{validate-IsChecked, parse_header-header_bytes}
use enzarb.Frame.RoundTrip.{to_bytes-ok, length-encoded, drop-header_bytes, from_bytes-ok}

decode-body :
    (buf : List ℕ) (h : FrameHeader)
    → header_len ≤ length buf
    → parse_header buf ≡ ok h
    → decode buf ≡ decode_body buf h
unfolding decode decode_body
decode-body buf h n e = ground arith

decode-header_bytes :
    (f : Frame) (rest : List ℕ)
    → f.channel < 2 ^ 32
    → validate f ≡ ok tt
    → decode (header_bytes f ++ (f.payload ++ rest)) ≡ (ok (some f), rest)
decode-header_bytes f rest hc v =
    let p = f.payload ++ rest in
    decode-body _ _ (omega (arith, length-encoded f p))
      (parse_header-header_bytes f p hc (validate-IsChecked f v))
    ∙ unfold decode_body in
      ground (
        arith,
        v,
        length-encoded f p,
        length-append f.payload rest,
        drop-header_bytes f p,
        take-append f.payload rest,
        drop-append f.payload rest,
      )

-- A frame's encoding at the front of the buffer is decoded to the frame and removed; what follows stays.
pub decode-to_bytes :
    (f : Frame) (b rest : List ℕ)
    → f.channel < 2 ^ 32
    → to_bytes f ≡ ok b
    → decode (b ++ rest) ≡ (ok (some f), rest)
decode-to_bytes f b rest hc h =
    let (v, e) = to_bytes-ok f b h in
    rw (← e, append_assoc (header_bytes f) f.payload rest) (decode-header_bytes f rest hc v)

-- The header is read from the first ten bytes alone.
parse_header-append :
    (b more : List ℕ) → header_len ≤ length b → parse_header (b ++ more) ≡ parse_header b
unfolding parse_header
parse_header-append (a ∷ fl ∷ c0 ∷ c1 ∷ c2 ∷ c3 ∷ l0 ∷ l1 ∷ l2 ∷ l3 ∷ p) more h = refl
parse_header-append _ more h = absurd (omega arith)

-- Until the whole frame is there, the decoder asks for more and keeps the buffer.
pub decode_partial :
    (f : Frame) (front back : List ℕ) (x : ℕ)
    → f.channel < 2 ^ 32
    → to_bytes f ≡ ok (front ++ (x ∷ back))
    → decode front ≡ (ok none, front)
decode_partial f front back x hc h =
    let (v, e) = to_bytes-ok f _ h in
    let full : parse_header (front ++ (x ∷ back))
        ≡ ok (record {
          frame_type = f.frame_type;
          flags = f.flags;
          channel = f.channel;
          len = length f.payload;
        }) =
      rw (← e) (parse_header-header_bytes f f.payload hc (validate-IsChecked f v)) in
    unfold decode decode_body in
    ground (
      arith,
      full,
      ap length e,
      length-encoded f f.payload,
      length-append front (x ∷ back),
      parse_header-append front (x ∷ back),
    )

from_bytes→decode : (b : List ℕ) (f : Frame) → from_bytes b ≡ ok f → decode b ≡ (ok (some f), [])
from_bytes→decode b f e =
    let (h, ph, hl, hf, v) = from_bytes-ok b f e in
    let p = drop header_len b in
    decode-body b h (omega arith) ph
    ∙ unfold decode_body in
      ground (arith, v, hf, length-drop header_len b, take_all h.len p, drop_all h.len p)

decode→from_bytes : (b : List ℕ) (f : Frame) → decode b ≡ (ok (some f), []) → from_bytes b ≡ ok f
unfolding decode decode_body from_bytes
decode→from_bytes b f e = elim (Result-cases (parse_header b)) [
  | inl (h, p) ↦ ground (
    arith,
    p,
    length-drop header_len b,
    length-drop h.len (drop header_len b),
    take_all h.len (drop header_len b),
  )
  | inr (x, p) ↦ ground arith
]

-- The two decoders accept the same messages, and give the same frame.
pub from_bytes_iff :
    (b : List ℕ) (f : Frame) → (from_bytes b ≡ ok f) ↔ (decode b ≡ (ok (some f), []))
from_bytes_iff b f = (from_bytes→decode b f, decode→from_bytes b f)
