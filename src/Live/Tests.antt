-- ===== src/Live/Tests.antt =====
-- Tests of the live stream, and its theorems at concrete inputs.
use cyrenus.Live.Delivery.{run-delivers}
use cyrenus.Live.Steps.{start, connects, writes, Run, Sublist, broadcast}
use cyrenus.Live.{
  established, ws_broadcast_message, cut, Server, Client, server_writeable, write_client, boot,
}
use cyrenus.Prelude.{◌≤◌, [], refl, ◌∷◌, some, codes, ◌≡◌, Text}

abbrev hello : Text
hello = codes "hello"

abbrev joined : Server
joined = established boot 3

-- A client connects, a message is broadcast, and the service lets the client write.
abbrev told : Server
told = server_writeable (ws_broadcast_message joined hello) 3

abbrev told_run : Run (cut hello ∷ []) told
told_run = writes (broadcast (connects start 3) hello) 3

abbrev told_client : Client
told_client = record { last_msg_id = 1; written = cut (cut hello) ∷ [] }

told-client : told.clients 3 ≡ some told_client
unfolding server_writeable ws_broadcast_message established write_client
told-client = refl

run-delivers_example :
    Sublist told_client.written (cut hello ∷ []) × (told_client.last_msg_id ≤ told.current_msg_id)
run-delivers_example = run-delivers (cut hello ∷ []) told 3 told_client told_run told-client
