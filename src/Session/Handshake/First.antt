-- ===== src/Session/Handshake/First.antt =====
-- What `next_frame` finds first on a websocket, and the `hello` in it.
use enzarb.Base.{
  ℕ, ◌≡◌, refl, ap, arith, Option, none, some, some_inj, List, [], ◌∷◌, Result, ok, err, ok_inj,
}
use enzarb.Base.Text.{Str}
use enzarb.Frame.Types.{Frame, FrameType, FrameError, ctrl}
use enzarb.Frame.Codec.{from_bytes}
use enzarb.Ctrl.Types.{Ctrl, ClientKind, hello}
use enzarb.Ctrl.Json.{Serde, ctrl_message}
use enzarb.Ctrl.Features.{sanitize_features}
use enzarb.Session.Core.Loops.{Message, binary, text_message, ping, closing, ended, failed}
use enzarb.Session.Handshake.{read_frame, next_read, hello_of}

-- Past pings, the websocket closes or gives nothing more.
pub data Ends : List Message → Type 0 where
  nothing : Ends []
  closes : (ms : List Message) → Ends (closing ∷ ms)
  stops : (ms : List Message) → Ends (ended ∷ ms)
  pings : (ms : List Message) → Ends ms → Ends (ping ∷ ms)

-- Past pings, the first message is the binary message.
pub data Gives (b : List ℕ) : List Message → Type 0 where
  gives : (ms : List Message) → Gives b (binary b ∷ ms)
  pinged : (ms : List Message) → Gives b ms → Gives b (ping ∷ ms)

read_frame-some : (r : Result FrameError Frame) → read_frame r ≡ ok none → ⊥
read_frame-some (ok f) h = ground (arith, h)
read_frame-some (err x) h = ground (arith, h)

pub next_read-Ends : (ms : List Message) → (next_read ms).0 ≡ ok none → Ends ms
unfolding next_read
next_read-Ends [] h = nothing
next_read-Ends (ended ∷ ms) h = stops ms
next_read-Ends (closing ∷ ms) h = closes ms
next_read-Ends (ping ∷ ms) h = pings ms (next_read-Ends ms h)
next_read-Ends (binary b ∷ ms) h = absurd (read_frame-some (from_bytes b) h)
next_read-Ends (failed e ∷ ms) h = absurd (ground (arith, h))
next_read-Ends (text_message ∷ ms) h = absurd (ground (arith, h))

read_frame-ok : (r : Result FrameError Frame) (f : Frame) → read_frame r ≡ ok (some f) → r ≡ ok f
read_frame-ok (ok g) f h = ap ok (some_inj (ok_inj h))
read_frame-ok (err x) f h = absurd (ground (arith, h))

pub next_read-Gives :
    (ms : List Message) (f : Frame)
    → (next_read ms).0 ≡ ok (some f)
    → (b : List ℕ) × Gives b ms × (from_bytes b ≡ ok f)
unfolding next_read
next_read-Gives [] f h = absurd (ground (arith, h))
next_read-Gives (ping ∷ ms) f h = let (b, g, e) = next_read-Gives ms f h in (b, pinged ms g, e)
next_read-Gives (binary b ∷ ms) f h = (b, gives ms, read_frame-ok (from_bytes b) f h)
next_read-Gives (ended ∷ ms) f h = absurd (ground (arith, h))
next_read-Gives (closing ∷ ms) f h = absurd (ground (arith, h))
next_read-Gives (failed e ∷ ms) f h = absurd (ground (arith, h))
next_read-Gives (text_message ∷ ms) f h = absurd (ground (arith, h))

module _ (J : Serde) where
  open J use {Value, F64}

  -- The first message of the websocket is a CTRL frame with a `hello` of these versions and this client, and the features
  -- are the sanitized ones that it offers.
  pub record Greeted (ms : List Message) (versions : List ℕ) (client : ClientKind)
      (features : List Str) : Type 0 where
    pub bytes : List ℕ
    pub frame : Frame
    pub offer : Option (List Str)
    pub first : Gives bytes ms
    pub read : from_bytes bytes ≡ ok frame
    pub says : ctrl_message J frame ≡ ok (hello versions client offer)
    pub keeps : features ≡ sanitize_features offer

  abbrev pub OptionGreeted : List Message → Option (List ℕ × ClientKind × List Str) → Type 0
  OptionGreeted ms none = Unit
  OptionGreeted ms (some (versions, client, features)) = Greeted ms versions client features

  pub hello_of-Greeted :
      (ms : List Message) (b : List ℕ) (f : Frame) (t : FrameType)
      (m : Result FrameError (Ctrl Value F64))
      → Gives b ms
      → from_bytes b ≡ ok f
      → ctrl_message J f ≡ m
      → OptionGreeted ms (hello_of J t m)
  unfolding hello_of
  hello_of-Greeted ms b f ctrl (ok (hello versions client features)) g p e = record {
    bytes = b;
    frame = f;
    offer = features;
    first = g;
    read = p;
    says = e;
    keeps = refl;
  }
  hello_of-Greeted ms b f t m g p e = ground arith
