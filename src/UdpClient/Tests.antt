-- ===== src/UdpClient/Tests.antt =====
-- Client 7, and a server that has just started.
use practice_project.Prelude.{
  ℕ, ◌≡◌, refl, List, [], ◌∷◌, none, some, true, false, arith, replicate, length-replicate,
}
use practice_project.ListApi.{ListApi, plain_lists}
use practice_project.Statics.{Static, null}
use practice_project.LcMsg.{lc_msg_size, check_check_sum}
use practice_project.UdpServer.Clients.{ClisInfoListNode}
use practice_project.UdpServer.Clients.Lookup.{lookup_id}
use practice_project.UdpServer.Handlers
use practice_project.UdpServer.Handlers.{Server, porcess_udp_msg}
use practice_project.UdpClient.{
  Client, to_server, process_server_msg, send_msg_buf_to_server, init_client_info_to_server, again,
  send_msg_to_other_client_round, send_msg_to_server_round,
}
use practice_project.UdpClient.Registration.{client_registers}

abbrev clients : ListApi ClisInfoListNode
clients = plain_lists ClisInfoListNode

abbrev messages : ListApi (List ℕ)
messages = plain_lists (List ℕ)

abbrev server : Server clients messages
server = record { infos = null; queue = null; udp_fd = 3; lc_end_id = 0 }

abbrev client : Client
client = record { bool_init_cli_info = false; lc_end_id = 7; udp_fd = 4 }

abbrev junk : List ℕ
junk = replicate lc_msg_size 5

client_registers_example :
    (m tx answer : List ℕ) × (infos : Static clients.Head) × (init_client_info_to_server junk client
      ≡ some m)
    × (send_msg_buf_to_server m client ≡ some (to_server 4 tx ∷ []))
    × (check_check_sum tx ≡ some 1)
    × (porcess_udp_msg clients messages true (some (tx, 70)) server
        ≡ some (true, Handlers.sent 3 answer 70 ∷ [], record server { infos = infos }))
    × (lookup_id clients 7 infos ≡ some (record { cli_id = 7; addr = 70 }))
    × (process_server_msg answer client ≡ ([], record client { bool_init_cli_info = true }))
client_registers_example =
    client_registers clients messages server client junk 70 (tt, λ e. absurd (ground arith)) refl
      (omega arith) (length-replicate {A = ℕ} lc_msg_size 5)

-- Nothing was read.
send_msg_to_server_round-again :
    send_msg_to_server_round (λ xs. false) junk [] none client ≡ some again
unfolding send_msg_to_server_round send_msg_to_other_client_round
send_msg_to_server_round-again = refl
