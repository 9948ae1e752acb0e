-- ===== src/SockClient/Send.antt =====
-- client_socket.c: messages that the user writes.
pub mod Messages
pub mod Forward
use practice_project.Prelude.{
  ℕ, List, [], ◌∷◌, ◌++◌, Option, none, some, ◌>>=◌, Bool, true, false, if◌then◌else◌, replicate,
}
use practice_project.Memory.{write_bytes}
use practice_project.SockServer.Handlers.{Message}
use practice_project.SockClient.{SocketType, type_code, Client, Task}
use practice_project.SockClient.Switch.{server_endid, send_msg_by_socket}

-- The buffer before the loop.
abbrev pub first_msg : (destid : ℕ) → Client → Message
first_msg destid c = record {
  msg_type = type_code c.socket_type;
  srcid = c.endid;
  destid = destid;
  msg_data = replicate 512 0;
}

-- The loop, for the reads that are left: `none` stands for a `read` that fails, `[]` for one that
-- returns 0. `quits` is the search for the word that ends the loop. The result are the tasks.
pub send_loop :
    (quits : List ℕ → Bool)
    → (reads : List (Option (List ℕ))) → Message
    → SocketType
    → Option (List Task)
send_loop quits [] m t = some []
send_loop quits (none ∷ rs) m t = send_loop quits rs m t
send_loop quits (some [] ∷ rs) m t = send_loop quits rs m t
send_loop quits (some (x ∷ xs) ∷ rs) m t = do
  bytes ← write_bytes m.msg_data 0 (x ∷ xs)
  let m' : Message = record m { msg_data = bytes }
  let more : Option (List Task) = (do
    rest ← send_loop quits rs m' t
    some (send_msg_by_socket m' t ++ rest))
  if quits bytes then some [] else more

-- `send_msg_to_server`. The type of the socket stays, as it changes in this thread only.
pub send_msg_to_server :
    (quits : List ℕ → Bool) → (reads : List (Option (List ℕ))) → Client → Option (List Task)
send_msg_to_server quits reads c = send_loop quits reads (first_msg server_endid c) c.socket_type

-- `send_msg_to_other_cli`; `destid` is what the user enters.
pub send_msg_to_other_cli :
    (quits : List ℕ → Bool)
    → (destid : ℕ) → (reads : List (Option (List ℕ))) → Client
    → Option (List Task)
send_msg_to_other_cli quits destid reads c =
    send_loop quits reads (first_msg destid c) c.socket_type
