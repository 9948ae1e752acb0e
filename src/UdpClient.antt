-- ===== src/UdpClient.antt =====
-- c/old_practice/work_srcs/socket_udp/client/client_udp/client_udp.c: what the client sends, and what
-- it does with a message of the server. Allocations succeed; a task's argument is its copy.
pub mod Registration
pub mod Setup
mod Tests
use practice_project.Prelude.{
  ℕ, List, [], ◌∷◌, Option, none, some, ◌>>=◌, Bool, true, false, ◌==◌, if◌then◌else◌, replicate,
}
use practice_project.Memory.{write_bytes, memcpy}
use practice_project.LcMsg.{
  lcmsg_data_maxlen, save_cli_info, data_msg, code, init_tx_buf, set_check_sum,
}
use practice_project.LcMsg.Fields.{read_int}
use practice_project.LcMsg.Heads.{set_head}

-- `SETVER_ENDID`.
abbrev pub server_end_id : ℕ
server_end_id = 0

-- The flag of client.c, the client's end and its socket.
pub record Client : Type 0 where
  pub bool_init_cli_info : Bool
  pub lc_end_id : ℕ
  pub udp_fd : ℕ

-- A datagram to the server's address, or a message that is shown.
pub data Effect : Type 0 where
  to_server : (fd : ℕ) → List ℕ → Effect
  shown : List ℕ → Effect

-- `ProcessServerMsg`.
pub process_server_msg : List ℕ → Client → List Effect × Client
process_server_msg m c =
    if read_int m 0 == code save_cli_info
    then ([], record c { bool_init_cli_info = true })
    else if read_int m 0 == code data_msg
    then (shown m ∷ [], c)
    else ([], c)

-- `SendMsgBufToServer`.
pub send_msg_buf_to_server : List ℕ → Client → Option (List Effect)
send_msg_buf_to_server m c = do tx ← set_check_sum m; some (to_server c.udp_fd tx ∷ [])

-- `InitClientInfoToServer`: the argument of the task `SendMsgBufToServer`. `junk` is what the new
-- buffer holds.
pub init_client_info_to_server : (junk : List ℕ) → Client → Option (List ℕ)
init_client_info_to_server junk c = set_head (code save_cli_info) c.lc_end_id server_end_id junk

-- What a round of the loop that reads messages does.
pub data Round : Type 0 where
  again : Round
  stop : Round
  task : (tx_buf : List ℕ) → Round

-- A round of the loop of `SendMsgToOtherClient`. `rx` is what `read` gives, `quits` the search for the
-- word that ends the loop, `tx_buf` and `rx_data` the buffers.
pub send_msg_to_other_client_round :
    (quits : List ℕ → Bool)
    → (remote_end_id : ℕ) → (tx_buf rx_data : List ℕ) → (rx : Option (List ℕ)) → Client
    → Option Round
send_msg_to_other_client_round quits remote tx_buf rx_data none c = some again
send_msg_to_other_client_round quits remote tx_buf rx_data (some []) c = some again
send_msg_to_other_client_round quits remote tx_buf rx_data (some (x ∷ xs)) c = do
  cleared ← write_bytes rx_data 0 (replicate lcmsg_data_maxlen 0)
  filled ← write_bytes cleared 0 (x ∷ xs)
  tx ← init_tx_buf c.lc_end_id tx_buf remote
  tx' ← memcpy tx 12 filled 0 lcmsg_data_maxlen
  some (if quits filled then stop else task tx')

-- A round of the loop of `SendMsgToServer`.
pub send_msg_to_server_round :
    (quits : List ℕ → Bool)
    → (tx_buf rx_data : List ℕ) → (rx : Option (List ℕ)) → Client
    → Option Round
send_msg_to_server_round quits tx_buf rx_data rx c =
    send_msg_to_other_client_round quits server_end_id tx_buf rx_data rx c
