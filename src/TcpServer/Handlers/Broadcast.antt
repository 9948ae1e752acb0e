-- ===== src/TcpServer/Handlers/Broadcast.antt =====
-- A message from the server to every client.
use practice_project.Prelude.{
  ℕ, ◌^◌, ◌≤◌, ◌<◌, ◌≡◌, ◌∙◌, refl, List, [], ◌∷◌, some, Bool, true, false, arith, if◌then◌else◌,
  length, replicate, length-replicate, Returns-value,
}
use mathlib.Core.Path.{subst}
use practice_project.Memory.{
  memcpy, memcpy-Written, write_bytes, write_bytes-Written, bytes_at, length-bytes_at,
}
use practice_project.ListApi.{ListApi}
use practice_project.LcMsg.Heads.{HasHead, set_head, set_head-HasHead, memcpy-HasHead}
use practice_project.ClientInfo.{CliInfoNode, CliRet, done, failed, get_cli_info_manager}
use practice_project.TcpServer.LocalQueue.{msg_buf_size}
use practice_project.TcpServer.Handlers.{
  max_msg_len, process_msg_type, server_end_id, Effect, send, write, close, add_epoll, sent_ret,
  Server, send_each, send_msg_all_client, broadcast_all_client, got,
}

-- The ends of the clients are `int`s.
abbrev pub IntEnds : List CliInfoNode → Type 0
IntEnds [] = Unit
IntEnds (c ∷ cs) = (c.cli_endid < 2 ^ 32) × IntEnds cs

-- One `send` to each client, of a PROCESS_MSG from the server to its end with the message's data.
abbrev pub SentTo : List ℕ → List CliInfoNode → List Effect → Type 0
SentTo m [] [] = Unit
SentTo m [] (e ∷ es) = ⊥
SentTo m (c ∷ cs) [] = ⊥
SentTo m (c ∷ cs) (send fd tx ∷ es) =
    (fd ≡ c.fd)
    × HasHead process_msg_type server_end_id c.cli_endid tx
    × (bytes_at tx 12 max_msg_len ≡ bytes_at m 12 max_msg_len)
    × SentTo m cs es
SentTo m (c ∷ cs) (write fd tx ∷ es) = ⊥
SentTo m (c ∷ cs) (close fd ∷ es) = ⊥
SentTo m (c ∷ cs) (add_epoll fd ∷ es) = ⊥

-- 0 if every `send` sends all bytes, else -1.
abbrev pub worst : (sent : ℕ → Bool) → List CliInfoNode → CliRet
worst sent [] = done
worst sent (c ∷ cs) = let rest = worst sent cs in if sent c.fd then rest else failed

-- The return value so far, and that of the clients left.
abbrev pub both : CliRet → CliRet → CliRet
both done r = r
both failed r = failed

both-failed : (r : CliRet) → both r failed ≡ failed
both-failed done = refl
both-failed failed = refl

both-done : (r : CliRet) → both r done ≡ r
both-done done = refl
both-done failed = refl

both-sent_ret :
    (ret : CliRet) (all : Bool) (r : CliRet)
    → both (sent_ret all ret) r ≡ both ret (if all then r else failed)
both-sent_ret ret true r = refl
both-sent_ret ret false r = rw (both-failed ret) refl

module _ (api : ListApi CliInfoNode) where
  send_each-step :
      (sent : ℕ → Bool) (m : List ℕ) (c : CliInfoNode) (cs : List CliInfoNode) (ret r r' : CliRet)
      (tx a b tx' : List ℕ) (es : List Effect)
      → set_head process_msg_type server_end_id c.cli_endid tx ≡ some a
      → memcpy a 12 m 12 max_msg_len ≡ some b
      → send_each api sent m cs (sent_ret (sent c.fd) ret) b ≡ some (r, es, tx')
      → r ≡ r'
      → send_each api sent m (c ∷ cs) ret tx ≡ some (r', send c.fd b ∷ es, tx')
  unfolding send_each
  send_each-step sent m c cs ret r r' tx a b tx' es e e' rest same = rw (e, e', rest, same) refl

  broadcast_all_client-step :
      (sent : ℕ → Bool) (bytes cleared buf : List ℕ) (s s' : Server api) (r : CliRet)
      (es : List Effect)
      → write_bytes s.rx_buf 12 (replicate max_msg_len 0) ≡ some cleared
      → write_bytes cleared 12 bytes ≡ some buf
      → send_msg_all_client api sent buf (record s { rx_buf = buf }) ≡ some (r, es, s')
      → broadcast_all_client api sent (got bytes) s ≡ some (r, es, s')
  unfolding broadcast_all_client
  broadcast_all_client-step sent bytes cleared buf s s' r es e e' all = rw (e, e', all) refl

  send_each-SentTo :
      (sent : ℕ → Bool) (m : List ℕ) (cs : List CliInfoNode) (ret : CliRet) (tx : List ℕ)
      → IntEnds cs
      → length m ≡ msg_buf_size
      → length tx ≡ msg_buf_size
      → (effects : List Effect) × (tx' : List ℕ) × (send_each api sent m cs ret tx
          ≡ some (both ret (worst sent cs), effects, tx'))
        × SentTo m cs effects
  unfolding send_each
  send_each-SentTo sent m [] ret tx ints size room = ([], tx, rw (both-done ret) refl, tt)
  send_each-SentTo sent m (c ∷ cs) ret tx (small, ints) size room =
      let (a, written, (head, same)) = Returns-value (
        set_head-HasHead process_msg_type server_end_id c.cli_endid tx (omega arith) (omega arith)
          small (omega arith)) in
      let (b, copied, w) =
        Returns-value (memcpy-Written a 12 m 12 max_msg_len (omega (arith, same)) (omega arith)) in
      let there : bytes_at b 12 max_msg_len ≡ bytes_at m 12 max_msg_len =
        subst (λ n. bytes_at b 12 n ≡ bytes_at m 12 max_msg_len) (length-bytes_at m 12 max_msg_len)
          w.there in
      let (effects, tx', rest, ok) =
        send_each-SentTo sent m cs (sent_ret (sent c.fd) ret) b ints size
          (w.same_length ∙ same ∙ room) in
      (
        send c.fd b ∷ effects,
        tx',
        send_each-step sent m c cs ret (both (sent_ret (sent c.fd) ret) (worst sent cs))
            (both ret (if sent c.fd then worst sent cs else failed)) tx a b tx' effects written
            copied rest (both-sent_ret ret (sent c.fd) (worst sent cs)),
        (
          refl,
          memcpy-HasHead process_msg_type server_end_id c.cli_endid a b (bytes_at m 12 max_msg_len)
              head w,
          there,
          ok,
        ),
      )

  send_msg_all_client-SentTo :
      (sent : ℕ → Bool) (m : List ℕ) (s : Server api) (h : api.Head)
      → s.clients ≡ some h
      → IntEnds (api.entries h)
      → length m ≡ msg_buf_size
      → length s.tx_buf ≡ msg_buf_size
      → (effects : List Effect) × (s' : Server api) × (send_msg_all_client api sent m s
          ≡ some (worst sent (api.entries h), effects, s'))
        × SentTo m (api.entries h) effects
  unfolding send_msg_all_client get_cli_info_manager
  send_msg_all_client-SentTo sent m s h made ints size room =
      let (effects, tx, e, ok) =
        send_each-SentTo sent m (api.entries h) done s.tx_buf ints size room in
      (effects, record s { clients = some h; tx_buf = tx }, rw (made, e) refl, ok)

  -- To clients whose ends are `int`s, from buffers of `sizeof(MsgBuf)` bytes and for at most
  -- MAX_MSG_LEN bytes that `read` gives, `BroadcastAllClient` sends, in the order of the list and also
  -- after a `send` that fails, each client a PROCESS_MSG from the server to its end whose data start
  -- with these bytes, and returns 0 if every `send` sends all bytes, else -1.
  pub broadcast_all_client-SentTo :
      (sent : ℕ → Bool) (bytes : List ℕ) (s : Server api) (h : api.Head)
      → s.clients ≡ some h
      → IntEnds (api.entries h)
      → length s.rx_buf ≡ msg_buf_size
      → length s.tx_buf ≡ msg_buf_size
      → length bytes ≤ max_msg_len
      → (effects : List Effect) × (s' : Server api) × (buf : List ℕ) × (broadcast_all_client api
            sent
            (got bytes)
            s
          ≡ some (worst sent (api.entries h), effects, s'))
        × SentTo buf (api.entries h) effects
        × (bytes_at buf 12 (length bytes) ≡ bytes)
  broadcast_all_client-SentTo sent bytes s h made ints rx_room room few =
      let zeros : List ℕ = replicate max_msg_len 0 in
      let len : length zeros ≡ max_msg_len = length-replicate {A = ℕ} max_msg_len 0 in
      let (cleared, e, v) = Returns-value (write_bytes-Written zeros s.rx_buf 12 (omega arith)) in
      let (buf, e', w) =
        Returns-value (write_bytes-Written bytes cleared 12 (omega (arith, v.same_length))) in
      let (effects, s', sent_all, ok) =
        send_msg_all_client-SentTo sent buf (record s { rx_buf = buf }) h made ints
          (w.same_length ∙ v.same_length ∙ rx_room) room in
      (
        effects,
        s',
        buf,
        broadcast_all_client-step sent bytes cleared buf s s' (worst sent (api.entries h)) effects e
            e' sent_all,
        ok,
        w.there,
      )
