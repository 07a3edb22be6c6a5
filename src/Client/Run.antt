-- ===== src/Client/Run.antt =====
-- The inputs of a session in the order in which the select loop of autoconnect-ws/src/handler.rs
-- hands them to the client. It ends at the first error.
use autopush_rs.Prelude.{ℕ, List, [], ◌∷◌, ◌++◌}
use autopush_rs.Protocol.{ClientMessage, ServerNotification, ServerMessage}
use autopush_rs.Services.{Services}
use autopush_rs.Client.{M, pure, ◌>>=◌}
use autopush_rs.Client.Storage.{on_server_notif}
use autopush_rs.Client.Messages.{on_client_msg}

pub data Input : Type 0 where
  from_client : ClientMessage → Input
  from_registry : ServerNotification → Input

module _ (s : Services) where
  unfoldable pub handle : ℕ → Input → M s (List ServerMessage)
  handle fuel (from_client msg) = on_client_msg s fuel msg
  handle fuel (from_registry snotif) = on_server_notif s fuel snotif

  unfoldable pub run : ℕ → List Input → M s (List ServerMessage)
  run fuel [] = pure []
  run fuel (i ∷ is) = do smsgs ← handle fuel i; rest ← run fuel is; pure (smsgs ++ rest)
