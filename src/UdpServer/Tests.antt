-- ===== src/UdpServer/Tests.antt =====
-- A server that has just started; end 7 registers from address 70 and end 9 writes to it.
use practice_project.Prelude.{
  ℕ, ◌≡◌, refl, List, [], ◌∷◌, none, some, true, ◌==◌, arith, set, if◌then◌else◌,
}
use practice_project.Array.{get! }
use practice_project.Memory.{write_bytes}
use practice_project.ListApi.{ListApi, plain_lists}
use practice_project.Statics.{Static, null, live}
use practice_project.LcMsg.{save_cli_info, data_msg, code}
use practice_project.LcMsg.Heads.{HasHead}
use practice_project.Queues.{Code}
use practice_project.UdpServer.Clients.{
  ClisInfoListNode, destory_cli_info_list, add_node_to_cli_info_list,
  del_cli_info_node_form_list_by_cli_id,
}
use practice_project.UdpServer.Clients.Lookup.{
  IsUsable, lookup_id, add_node_to_cli_info_list-lookup,
  del_cli_info_node_form_list_by_cli_id-lookup, destory_cli_info_list-stale,
}
use practice_project.UdpServer.Queue.{de_srv_msg_queue, waiting, Taken, de_srv_msg_queue-waiting}
use practice_project.UdpServer.Handlers.{
  Effect, sent, zero_msg, Server, porcess_udp_msg, srv_msg_process_task, srv_msg_process_round,
}
use practice_project.UdpServer.Handlers.Delivery.{IsRunning, registration_then_message}

abbrev clients : ListApi ClisInfoListNode
clients = plain_lists ClisInfoListNode

abbrev messages : ListApi (List ℕ)
messages = plain_lists (List ℕ)

abbrev started : Server clients messages
started = record { infos = null; queue = null; udp_fd = 3; lc_end_id = 0 }

started-IsRunning : IsRunning clients messages started
started-IsRunning = (tt, λ e. absurd (ground arith))

abbrev reg : List ℕ
reg = set (set zero_msg 0 1) 4 7

abbrev msg : List ℕ
msg = set (set (set zero_msg 0 2) 4 9) 8 7

abbrev reg_tail : List ℕ
reg_tail = 0 ∷ 0 ∷ 0 ∷ 7 ∷ 0 ∷ 0 ∷ 0 ∷ []

abbrev msg_tail : List ℕ
msg_tail = 0 ∷ 0 ∷ 0 ∷ 9 ∷ 0 ∷ 0 ∷ 0 ∷ 7 ∷ []

reg-written : write_bytes zero_msg 0 (1 ∷ reg_tail) ≡ some reg
unfolding write_bytes
reg-written = refl

msg-written : write_bytes zero_msg 0 (2 ∷ msg_tail) ≡ some msg
unfolding write_bytes
msg-written = refl

reg-HasHead : HasHead (code save_cli_info) 7 0 reg
unfolding get!
reg-HasHead = record { type_at = refl; src_at = refl; dest_at = refl }

msg-HasHead : HasHead (code data_msg) 9 7 msg
unfolding get!
msg-HasHead = record { type_at = refl; src_at = refl; dest_at = refl }

registration_then_message_example :
    (s1 s2 s3 s4 : Server clients messages) × (answer : List Effect) × (porcess_udp_msg clients
        messages true
        (some (1 ∷ reg_tail, 70))
        started
      ≡ some (true, answer, s1))
    × (porcess_udp_msg clients messages true (some (2 ∷ msg_tail, 90)) s1 ≡ some (true, [], s2))
    × (srv_msg_process_round clients messages true [] s2 ≡ some (some msg, s3))
    × (srv_msg_process_task clients messages true (some msg) s3
        ≡ some (true, sent 3 msg 70 ∷ [], s4))
    × (waiting messages s4.queue ≡ [])
registration_then_message_example =
    registration_then_message clients messages started 1 2 reg_tail msg_tail reg msg [] 7 9 70 90
      started-IsRunning refl reg-written reg-HasHead (omega arith) (omega arith)
      (λ e. absurd (ground arith)) msg-written msg-HasHead

-- Ends 7 and 9 are registered.
abbrev two : List ClisInfoListNode
two = record { cli_id = 9; addr = 90 } ∷ record { cli_id = 7; addr = 70 } ∷ []

add_node_to_cli_info_list-lookup_example :
    (t : Static clients.Head) × (add_node_to_cli_info_list clients true 7 75 (live two) ≡ some t)
    × IsUsable clients t
    × ((k : ℕ)
        → lookup_id clients k t ≡ (
            if 7 == k
            then some (record { cli_id = 7; addr = 75 })
            else lookup_id clients k (live two)))
add_node_to_cli_info_list-lookup_example =
    add_node_to_cli_info_list-lookup clients 7 75 (live two) tt

del_cli_info_node_form_list_by_cli_id-lookup_example :
    (t : Static clients.Head) × (del_cli_info_node_form_list_by_cli_id clients true 9 (live two)
      ≡ some t)
    × IsUsable clients t
    × (lookup_id clients 7 t ≡ some (record { cli_id = 7; addr = 70 }))
del_cli_info_node_form_list_by_cli_id-lookup_example =
    del_cli_info_node_form_list_by_cli_id-lookup clients 9 7 (live two)
      (record { cli_id = 9; addr = 90 }) tt refl refl

destory_cli_info_list-stale_example :
    (t : Static clients.Head) × (destory_cli_info_list clients 3 (live two) ≡ some t)
    × (add_node_to_cli_info_list clients true 7 70 t ≡ none)
destory_cli_info_list-stale_example =
    destory_cli_info_list-stale clients 3 7 70 true two (omega arith)

de_srv_msg_queue-waiting_example :
    (r : Code) × (o : List ℕ) × (q : messages.Head) × (de_srv_msg_queue messages true
        (some [])
        (live (reg ∷ msg ∷ []))
      ≡ some ((r, some o), live q))
    × Taken messages [] (reg ∷ msg ∷ []) r o q
de_srv_msg_queue-waiting_example =
    de_srv_msg_queue-waiting messages [] (live (reg ∷ msg ∷ [])) (reg ∷ msg ∷ [])
      (λ e. absurd (ground arith)) refl
