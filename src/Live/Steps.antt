-- ===== src/Live/Steps.antt =====
-- The states that the live stream reaches, with the messages that were broadcast on the way.
use cyrenus.Live.{ws_server_round, server_writeable, established, ws_broadcast_message, cut, boot}
use cyrenus.Live.{Server}
use cyrenus.Prelude.{◌⊎◌, ◌≡◌, ◌∷◌, [], Text, List, ℕ}

-- A run from the start, by its messages, the latest first, and its state.
pub data Run : List Text → Server → Type 0 where
  start : Run [] boot
  broadcast :
      {history : List Text} {s : Server}
      → Run history s
      → (msg : Text) → Run (cut msg ∷ history) (ws_broadcast_message s msg)
  connects :
      {history : List Text} {s : Server} → Run history s → (c : ℕ) → Run history (established s c)
  writes :
      {history : List Text} {s : Server}
      → Run history s
      → (c : ℕ) → Run history (server_writeable s c)
  polls : {history : List Text} {s : Server} → Run history s → Run history (ws_server_round s).1

-- Some of the messages of a history, each at most once and in order.
abbrev pub Sublist : List Text → List Text → Type 0
Sublist [] ys = Unit
Sublist (x ∷ xs) [] = ⊥
Sublist (x ∷ xs) (y ∷ ys) = ((x ≡ y) × Sublist xs ys) ⊎ Sublist (x ∷ xs) ys

-- The last message of a history.
abbrev pub latest : List Text → Text
latest [] = []
latest (m ∷ history) = m
