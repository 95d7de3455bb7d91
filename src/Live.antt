-- ===== src/Live.antt =====
-- The live stream of src/websocket_server.c: the message that all clients are sent, its version, and
-- the version that each client has seen. A lock guards each operation, so that they run one by one.
pub mod Steps
pub mod Order
pub mod Delivery
pub mod Tests
use cyrenus.Prelude.{
  false, ◌∷◌, true, none, ◌==◌, ◌+◌, ltb, some, List, Text, [], Option, if◌then◌else◌, Bool, ℕ,
  take,
}

abbrev pub max_msg_len : ℕ
max_msg_len = 4096

-- struct pss_cyrenus, and what was written to the socket, the latest first.
pub record Client : Type 0 where
  pub last_msg_id : ℕ
  pub written : List Text

-- The static variables, and the clients of the service by their number.
pub record Server : Type 0 where
  pub broadcast_msg : Text
  pub current_msg_id : ℕ
  pub server_last_msg_id : ℕ
  pub clients : ℕ → Option Client

abbrev pub boot : Server
boot = record {
  broadcast_msg = [];
  current_msg_id = 0;
  server_last_msg_id = 0;
  clients = λ c. none;
}

abbrev pub set_client : (ℕ → Option Client) → ℕ → Client → ℕ → Option Client
set_client clients c client d = if c == d then some client else clients d

-- What the buffer holds of a message.
abbrev pub cut : Text → Text
cut msg = take 4095 msg

unfoldable pub ws_broadcast_message : Server → Text → Server
ws_broadcast_message s json_message = record s {
  broadcast_msg = cut json_message;
  current_msg_id = s.current_msg_id + 1;
}

-- LWS_CALLBACK_ESTABLISHED
unfoldable pub established : Server → ℕ → Server
established s c = record s {
  clients = set_client s.clients c (record { last_msg_id = s.current_msg_id; written = [] });
}

-- The write of the current version, to a client that has not seen it.
unfoldable pub write_client : Server → Client → Client
write_client s client =
    if ltb client.last_msg_id s.current_msg_id
    then record { last_msg_id = s.current_msg_id; written = cut s.broadcast_msg ∷ client.written }
    else client

abbrev pub with_written : Server → ℕ → Option Client → Server
with_written s c none = s
with_written s c (some client) = record s {
  clients = set_client s.clients c (write_client s client);
}

-- LWS_CALLBACK_SERVER_WRITEABLE
unfoldable pub server_writeable : Server → ℕ → Server
server_writeable s c = with_written s c (s.clients c)

-- One round of `ws_server_thread_impl` behind lws_service: whether it asks for a callback of all
-- clients, and the state.
unfoldable pub ws_server_round : Server → Bool × Server
ws_server_round s =
    if ltb s.server_last_msg_id s.current_msg_id
    then (true, record s { server_last_msg_id = s.current_msg_id })
    else (false, s)
