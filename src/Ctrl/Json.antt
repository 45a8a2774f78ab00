-- ===== src/Ctrl/Json.antt =====
-- frame.rs: the frames that carry a CTRL message or a JSON value.
-- `Serde` stands for serde_json at these types: writing a value as compact JSON bytes, and reading
-- bytes, each with an error that is known by its text.
use enzarb.Base.{ℕ, List, ◌≡◌, refl, arith, Result, ok, err, ◌>>=◌, Result-cases, inl, inr}
use enzarb.Base.Text.{Str}
use enzarb.Frame.Types.{Frame, ctrl, FrameError, ctrl_channel, json}
use enzarb.Frame.Codec.{new, to_bytes, from_bytes}
use enzarb.Frame.RoundTrip.{from_bytes-to_bytes}
use enzarb.Ctrl.Types.{Ctrl}

pub record Serde : Type 1 where
  pub Value : Type 0
  pub F64 : Type 0
  pub to_vec : Ctrl Value F64 → Result Str (List ℕ)
  pub from_slice : List ℕ → Result Str (Ctrl Value F64)

abbrev map_err {ℓ} : {A : Type ℓ} → Result Str A → Result FrameError A
map_err (ok a) = ok a
map_err (err e) = err (json e)

module _ (J : Serde) where
  open J use {Value, F64, to_vec, from_slice}

  -- `Frame::ctrl`
  unfoldable pub ctrl_frame : Ctrl Value F64 → Result FrameError Frame
  ctrl_frame msg = do v ← map_err (to_vec msg); ok (new ctrl 0 v)

  -- `Frame::ctrl_message`
  unfoldable pub ctrl_message : Frame → Result FrameError (Ctrl Value F64)
  ctrl_message f = elim f.frame_type [
    | ctrl ↦ map_err (from_slice f.payload)
    | _ ↦ err ctrl_channel
  ]

  -- The bytes of `Frame::ctrl(msg)` and `to_bytes`, as `Inner::send_ctrl` chains them.
  unfoldable pub ctrl_bytes : Ctrl Value F64 → Result FrameError (List ℕ)
  unfolding ctrl_frame
  ctrl_bytes msg = do f ← ctrl_frame msg; to_bytes f

  -- A message that serde_json reads back as it was written arrives as it was sent: the bytes decode to a CTRL
  -- frame on channel 0, and the frame's message is the one that was sent.
  pub ctrl_bytes_arrives :
      (msg : Ctrl Value F64) (b : List ℕ)
      → ((v : List ℕ) → to_vec msg ≡ ok v → from_slice v ≡ ok msg)
      → ctrl_bytes msg ≡ ok b
      → (f : Frame) × (from_bytes b ≡ ok f) × (ctrl_message f ≡ ok msg) × (f.channel ≡ 0)
  unfolding ctrl_bytes ctrl_message new
  ctrl_bytes_arrives msg b back e = elim (Result-cases (to_vec msg)) [
    | inl (v, p) ↦ (
      new ctrl 0 v,
      from_bytes-to_bytes (new ctrl 0 v) b (omega arith) (ground (arith, p)),
      rw (back v p),
      refl,
    )
    | inr (x, p) ↦ ground (arith, p)
  ]
