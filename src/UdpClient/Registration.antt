-- ===== src/UdpClient/Registration.antt =====
-- A client that registers with the server of UdpServer, and a message that it writes.
use practice_project.Prelude.{
  ℕ, ◌+◌, ◌^◌, ◌≤◌, ◌<◌, ◌≡◌, ◌∙◌, sym, refl, List, [], ◌∷◌, some, Bool, true, arith, if◌then◌else◌,
  length, replicate, length-replicate, Returns-value,
}
use mathlib.Core.Path.{subst}
use practice_project.Memory.{
  write_bytes, write_bytes-Written, write_bytes_whole, memcpy, memcpy-Written, bytes_at,
  length-bytes_at,
}
use practice_project.ListApi.{ListApi}
use practice_project.Statics.{Static}
use practice_project.LcMsg.{
  lcmsg_data_maxlen, lc_msg_size, save_cli_info, data_msg, code, init_tx_buf, check_check_sum,
}
use practice_project.LcMsg.CheckSum.{check_check_sum-set_check_sum}
use practice_project.LcMsg.Fields.{read_int, read_int-same, init_tx_buf-TxReady}
use practice_project.LcMsg.Heads.{HasHead, set_head-HasHead, memcpy-HasHead}
use practice_project.UdpServer.Clients.{ClisInfoListNode}
use practice_project.UdpServer.Clients.Lookup.{lookup_id}
use practice_project.UdpServer.Handlers
use practice_project.UdpServer.Handlers.{Server, zero_msg, porcess_udp_msg}
use practice_project.UdpServer.Handlers.Delivery.{IsRunning, porcess_udp_msg-registers}
use practice_project.UdpClient.{
  server_end_id, Client, to_server, process_server_msg, send_msg_buf_to_server,
  init_client_info_to_server, stop, task, send_msg_to_other_client_round,
}

-- A datagram of the size of the server's buffer fills it.
write_bytes-whole : (tx : List ℕ) → length tx ≡ lc_msg_size → write_bytes zero_msg 0 tx ≡ some tx
write_bytes-whole tx size =
    write_bytes_whole tx zero_msg (size ∙ sym (length-replicate {A = ℕ} lc_msg_size 0))

-- What `SendMsgBufToServer` sends: the message with its checksum.
send_msg_buf_to_server-HasHead :
    (t src dest : ℕ) (m : List ℕ) (c : Client)
    → HasHead t src dest m
    → length m ≡ lc_msg_size
    → (tx : List ℕ) × (send_msg_buf_to_server m c ≡ some (to_server c.udp_fd tx ∷ []))
      × HasHead t src dest tx
      × (length tx ≡ lc_msg_size)
      × (check_check_sum tx ≡ some 1)
unfolding send_msg_buf_to_server
send_msg_buf_to_server-HasHead t src dest m c head size =
    let (tx, e, passes, same, others) = check_check_sum-set_check_sum m (omega arith) in
    let kept : (off : ℕ) → off + 4 ≤ 12 → read_int tx off ≡ read_int m off =
      λ off low. read_int-same tx m off (λ k lo hi. others k (λ at. absurd (omega arith))) in
    (
      tx,
      rw e refl,
      record {
        type_at = kept 0 (omega arith) ∙ head.type_at;
        src_at = kept 4 (omega arith) ∙ head.src_at;
        dest_at = kept 8 (omega arith) ∙ head.dest_at;
      },
      same ∙ size,
      passes,
    )

module _ (clients : ListApi ClisInfoListNode) (messages : ListApi (List ℕ)) where
  -- A datagram of the whole size, which is not empty.
  server_registers :
      (s : Server clients messages) (tx : List ℕ) (end addr : ℕ)
      → IsRunning clients messages s
      → length tx ≡ lc_msg_size
      → HasHead (code save_cli_info) end s.lc_end_id tx
      → end < 2 ^ 32
      → s.lc_end_id < 2 ^ 32
      → (answer : List ℕ) × (infos : Static clients.Head) × (porcess_udp_msg clients messages true
            (some (tx, addr))
            s
          ≡ some (true, Handlers.sent s.udp_fd answer addr ∷ [], record s { infos = infos }))
        × HasHead (code save_cli_info) s.lc_end_id end answer
        × (lookup_id clients end infos ≡ some (record { cli_id = end; addr = addr }))
  server_registers s [] end addr run size head small small' = absurd (ground arith)
  server_registers s (x ∷ xs) end addr run size head small small' =
      let (answer, infos, e, answered, _, found) =
        porcess_udp_msg-registers clients messages s x xs (x ∷ xs) end addr run
          (write_bytes-whole (x ∷ xs) size) head small small' in
      (answer, infos, e, answered, ground (arith, found end))

  -- The registration that a client makes and sends, whatever its new buffer held, passes the
  -- checksum; the server, whose end is SETVER_ENDID, then has the client's address for its end, and
  -- its answer sets the client's flag. (With memory; the end is an `int`.)
  pub client_registers :
      (s : Server clients messages) (c : Client) (junk : List ℕ) (addr : ℕ)
      → IsRunning clients messages s
      → s.lc_end_id ≡ server_end_id
      → c.lc_end_id < 2 ^ 32
      → length junk ≡ lc_msg_size
      → (m tx answer : List ℕ) × (infos : Static clients.Head) × (init_client_info_to_server junk c
          ≡ some m)
        × (send_msg_buf_to_server m c ≡ some (to_server c.udp_fd tx ∷ []))
        × (check_check_sum tx ≡ some 1)
        × (porcess_udp_msg clients messages true (some (tx, addr)) s
            ≡ some (true, Handlers.sent s.udp_fd answer addr ∷ [], record s { infos = infos }))
        × (lookup_id clients c.lc_end_id infos
            ≡ some (record { cli_id = c.lc_end_id; addr = addr }))
        × (process_server_msg answer c ≡ ([], record c { bool_init_cli_info = true }))
  unfolding init_client_info_to_server process_server_msg
  client_registers s c junk addr run server small size =
      let (m, made, (head, same)) = Returns-value (
        set_head-HasHead (code save_cli_info) c.lc_end_id server_end_id junk (omega arith) small
          (omega arith) (omega arith)) in
      let (tx, e, tx_head, tx_size, passes) =
        send_msg_buf_to_server-HasHead (code save_cli_info) c.lc_end_id server_end_id m c head
          (same ∙ size) in
      let at_server : HasHead (code save_cli_info) c.lc_end_id s.lc_end_id tx = record {
        type_at = tx_head.type_at;
        src_at = tx_head.src_at;
        dest_at = tx_head.dest_at ∙ sym server;
      } in
      let (answer, infos, e', answered, found) =
        server_registers s tx c.lc_end_id addr run tx_size at_server small
          (omega (arith, server)) in
      (m, tx, answer, infos, made, e, passes, e', found, rw answered.type_at refl)

send_msg_to_other_client_round-step :
    (quits : List ℕ → Bool) (remote x : ℕ) (xs tx_buf rx_data cleared filled a m : List ℕ)
    (c : Client)
    → write_bytes rx_data 0 (replicate lcmsg_data_maxlen 0) ≡ some cleared
    → write_bytes cleared 0 (x ∷ xs) ≡ some filled
    → init_tx_buf c.lc_end_id tx_buf remote ≡ some a
    → memcpy a 12 filled 0 lcmsg_data_maxlen ≡ some m
    → send_msg_to_other_client_round quits remote tx_buf rx_data (some (x ∷ xs)) c
      ≡ some (if quits filled then stop else task m)
unfolding send_msg_to_other_client_round
send_msg_to_other_client_round-step quits remote x xs tx_buf rx_data cleared filled a m c e e' f g =
    rw (e, e', f, g) refl

-- From buffers of their sizes, for two ends that are `int`s and a message of at most the size of the
-- data, the loop ends if the message has the word for this, and else the round makes a task with a
-- DataMsg from the client to the other end, whose data start with the message.
pub send_msg_to_other_client_round-task :
    (quits : List ℕ → Bool) (remote x : ℕ) (xs tx_buf rx_data : List ℕ) (c : Client)
    → remote < 2 ^ 32
    → c.lc_end_id < 2 ^ 32
    → length tx_buf ≡ lc_msg_size
    → length rx_data ≡ lcmsg_data_maxlen
    → length (x ∷ xs) ≤ lcmsg_data_maxlen
    → (m filled : List ℕ) × (send_msg_to_other_client_round quits remote tx_buf rx_data
          (some (x ∷ xs))
          c
        ≡ some (if quits filled then stop else task m))
      × HasHead (code data_msg) c.lc_end_id remote m
      × (bytes_at filled 0 (length (x ∷ xs)) ≡ x ∷ xs)
      × (bytes_at m 12 lcmsg_data_maxlen ≡ bytes_at filled 0 lcmsg_data_maxlen)
send_msg_to_other_client_round-task quits remote x xs tx_buf rx_data c small small' size room few =
    let zeros : List ℕ = replicate lcmsg_data_maxlen 0 in
    let len : length zeros ≡ lcmsg_data_maxlen = length-replicate {A = ℕ} lcmsg_data_maxlen 0 in
    let (cleared, e, v) = Returns-value (write_bytes-Written zeros rx_data 0 (omega arith)) in
    let (filled, e', w) =
      Returns-value (write_bytes-Written (x ∷ xs) cleared 0 (omega (arith, v.same_length))) in
    let (a, f, ready) = init_tx_buf-TxReady tx_buf c.lc_end_id remote (omega arith) small' small in
    let (m, g, u) = Returns-value (
      memcpy-Written a 12 filled 0 lcmsg_data_maxlen (omega (arith, ready.same_length))
        (omega (arith, v.same_length, w.same_length))) in
    let head : HasHead (code data_msg) c.lc_end_id remote a = record {
      type_at = ready.msg_type;
      src_at = ready.src_end_id;
      dest_at = ready.dest;
    } in
    let copied : List ℕ = bytes_at filled 0 lcmsg_data_maxlen in
    (
      m,
      filled,
      send_msg_to_other_client_round-step quits remote x xs tx_buf rx_data cleared filled a m c e e'
          f g,
      memcpy-HasHead (code data_msg) c.lc_end_id remote a m copied head u,
      w.there,
      subst (λ n. bytes_at m 12 n ≡ copied) (length-bytes_at filled 0 lcmsg_data_maxlen) u.there,
    )
