-- ===== src/Ctrl/Direction.antt =====
-- ctrl.rs: the wire tags, and the table of who may send which message.
use enzarb.Base.{Bool, true, false, ◌||◌, List, [], ◌∷◌}
use enzarb.Base.Text.{Str, text}
use enzarb.Ctrl.Types.{
  ClientKind, ui, proxy, executor, Ctrl, hello, welcome, open_channel, opened, open_error, resize,
  step_start, step_accepted, step_steer, step_stop, step_resume, step_status, step_state,
  session_event, step_finished, credential_captured, credential_status, credential_state,
  stats_request, stats, file_read, file, credential_clear, error,
}

pub data Direction : Type 0 where
  handshake : Direction
  client_to_server : List ClientKind → Direction
  server_to_client : Direction

abbrev pub any_client : List ClientKind
any_client = ui ∷ proxy ∷ executor ∷ []

abbrev same_kind : ClientKind → ClientKind → Bool
same_kind ui ui = true
same_kind proxy proxy = true
same_kind executor executor = true
same_kind _ _ = false

abbrev has_kind : List ClientKind → ClientKind → Bool
has_kind [] k = false
has_kind (x ∷ xs) k = same_kind x k || has_kind xs k

abbrev permits : Direction → ClientKind → Bool
permits handshake k = false
permits (client_to_server kinds) k = has_kind kinds k
permits server_to_client k = false

module _ {Value F64 : Type 0} where
  -- `Ctrl::tag`
  unfoldable pub tag : Ctrl Value F64 → Str
  tag (hello _ _ _) = text "hello"
  tag (welcome _ _) = text "welcome"
  tag (open_channel _) = text "open"
  tag (opened _) = text "opened"
  tag (open_error _ _ _) = text "open_error"
  tag (resize _ _ _) = text "resize"
  tag (step_start _) = text "step_start"
  tag (step_accepted _ _ _) = text "step_accepted"
  tag (step_steer _ _) = text "step_steer"
  tag (step_stop _) = text "step_stop"
  tag (step_resume _) = text "step_resume"
  tag (step_status _ _) = text "step_status"
  tag (step_state _ _ _) = text "step_state"
  tag (session_event _) = text "session_event"
  tag (step_finished _) = text "step_finished"
  tag (credential_captured _ _ _) = text "credential_captured"
  tag credential_status = text "credential_status"
  tag (credential_state _ _ _) = text "credential_state"
  tag stats_request = text "stats_request"
  tag (stats _) = text "stats"
  tag (file_read _ _) = text "file_read"
  tag (file _ _ _ _ _) = text "file"
  tag (credential_clear _) = text "credential_clear"
  tag (error _ _ _ _) = text "error"

  -- `Ctrl::direction`
  unfoldable pub direction : Ctrl Value F64 → Direction
  direction (hello _ _ _) = handshake
  direction (welcome _ _) = handshake
  direction (open_channel _) = client_to_server any_client
  direction (resize _ _ _) = client_to_server any_client
  direction (error _ _ _ _) = client_to_server any_client
  direction credential_status = client_to_server (ui ∷ proxy ∷ [])
  direction (credential_clear _) = client_to_server (ui ∷ proxy ∷ [])
  direction (file_read _ _) = client_to_server (ui ∷ proxy ∷ [])
  direction (credential_state _ _ _) = client_to_server (proxy ∷ [])
  direction stats_request = client_to_server (proxy ∷ [])
  direction (step_start _) = client_to_server (executor ∷ [])
  direction (step_steer _ _) = client_to_server (executor ∷ [])
  direction (step_stop _) = client_to_server (executor ∷ [])
  direction (step_resume _) = client_to_server (executor ∷ [])
  direction (step_status _ _) = client_to_server (executor ∷ [])
  direction (opened _) = server_to_client
  direction (open_error _ _ _) = server_to_client
  direction (step_accepted _ _ _) = server_to_client
  direction (step_state _ _ _) = server_to_client
  direction (session_event _) = server_to_client
  direction (step_finished _) = server_to_client
  direction (credential_captured _ _ _) = server_to_client
  direction (stats _) = server_to_client
  direction (file _ _ _ _ _) = server_to_client

  -- `Ctrl::allowed_from`
  unfoldable pub allowed_from : Ctrl Value F64 → ClientKind → Bool
  unfolding direction
  allowed_from m kind = permits (direction m) kind
