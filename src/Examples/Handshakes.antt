-- ===== src/Examples/Handshakes.antt =====
-- session/handshake.rs: a client and a server that share a version, and a websocket that fails.
use enzarb.Base.{
  ℕ, false, ◌≡◌, refl, sym, ap, some, List, [], ◌∷◌, Result, ok, err, ok_inj, if◌then◌else◌, ◌==◌,
}
use enzarb.Base.Text.{Str, text}
use enzarb.Frame
use enzarb.Ctrl.Types.{Ctrl, hello, welcome, executor}
use enzarb.Ctrl.Json.{Serde, ctrl_bytes}
use enzarb.Ctrl.Features.{sanitize_features, negotiate_version, supported_versions}
use enzarb.Session.Core.Loops.{binary, ping, failed}
use enzarb.Session.Handshake.{
  Websocket, unless_empty, server_handshake_with_features, client_handshake_offering,
}
use enzarb.Session.Handshake.Agree.{fresh, after, handshake_agrees}
use enzarb.Session.Handshake.Outcome.{seen, IsOutcome, server_handshake-IsOutcome}

abbrev offer : List Str
offer = text "steps" ∷ []

abbrev features : List Str
features = text "files" ∷ text "steps" ∷ []

abbrev greeting : Ctrl (Unit {0}) (Unit {0})
greeting = hello supported_versions executor (unless_empty offer)

abbrev reply : Ctrl (Unit {0}) (Unit {0})
reply = welcome 1 (unless_empty features)

abbrev write : Ctrl (Unit {0}) (Unit {0}) → Result Str (List ℕ)
write (hello versions client fs) = ok (1 ∷ [])
write (welcome version fs) = ok (2 ∷ [])
write m = err []

abbrev read : List ℕ → Result Str (Ctrl (Unit {0}) (Unit {0}))
read [] = err []
read (b ∷ s) = if b == 1 then ok greeting else ok reply

abbrev codec : Serde
codec = record { Value = Unit {0}; F64 = Unit {0}; to_vec = write; from_slice = read }

abbrev message : ℕ → List ℕ
message b = 1 ∷ 0 ∷ 0 ∷ 0 ∷ 0 ∷ 0 ∷ 0 ∷ 0 ∷ 0 ∷ 1 ∷ b ∷ []

greeting_bytes : ctrl_bytes codec greeting ≡ ok (message 1)
unfolding ctrl_bytes Frame.Codec.new Frame.Codec.to_bytes Frame.Codec.validate
    Frame.Codec.check_channel Frame.Codec.header_bytes Frame.Codec.u32_to_be Frame.Types.to_u8
greeting_bytes = refl

reply_bytes : ctrl_bytes codec reply ≡ ok (message 2)
unfolding ctrl_bytes Frame.Codec.new Frame.Codec.to_bytes Frame.Codec.validate
    Frame.Codec.check_channel Frame.Codec.header_bytes Frame.Codec.u32_to_be Frame.Types.to_u8
reply_bytes = refl

handshake_agrees_example :
    (server_handshake_with_features codec (2 ∷ 1 ∷ []) features (fresh (binary (message 1) ∷ []))
      ≡ (
        ok record {
          version = 1;
          client = executor;
          offered = supported_versions;
          features = sanitize_features (unless_empty offer);
        },
        after [] (message 2),
      ))
    × (client_handshake_offering codec executor offer (fresh (binary (message 2) ∷ ping ∷ [])) ≡ (
      ok record { version = 1; features = sanitize_features (unless_empty features) },
      after (ping ∷ []) (message 1),
    ))
handshake_agrees_example =
    handshake_agrees codec executor (2 ∷ 1 ∷ []) offer features 1 (message 1) (message 2) []
      (ping ∷ []) (λ p e. ap read (sym (ok_inj e))) (λ p e. ap read (sym (ok_inj e))) greeting_bytes
      reply_bytes (unfold negotiate_version in refl)

abbrev failing : Websocket
failing = record {
  incoming = ping ∷ binary (message 1) ∷ failed (text "reset") ∷ [];
  sink = some (text "broken pipe") ∷ [];
  sent = [];
  is_closed = false;
}

server_handshake-IsOutcome_example :
    IsOutcome codec
      (3 ∷ [])
      []
      failing.incoming
      (seen failing)
      (server_handshake_with_features codec (3 ∷ []) [] failing)
server_handshake-IsOutcome_example = server_handshake-IsOutcome codec (3 ∷ []) [] failing
