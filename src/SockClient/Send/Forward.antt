-- ===== src/SockClient/Send/Forward.antt =====
-- A line that the user writes, on its way through the server of SockServer.
use practice_project.Prelude.{
  ℕ, ◌≤◌, ◌≡◌, ◌≢◌, refl, List, [], ◌∷◌, Option, some, Bool, true, false, arith, length,
  length-replicate, Returns-value, replicate, inr, ◌∙◌, ◌==◌, ◌<◌,
}
use practice_project.Memory.{bytes_at, write_bytes-Written, get!-replicate}
use practice_project.Array.{get! }
use practice_project.ListApi.{ListApi}
use practice_project.SqlApi.{SqlApi}
use practice_project.SockServer.Queue.{waiting}
use practice_project.SockServer.Handlers
use practice_project.SockServer.Handlers.{
  Message, Server, recv_tcp_cli_msg, socket_msg_process_round,
}
use practice_project.SockServer.Handlers.Delivery.{running, arrival_to_task}
use practice_project.SockClient.{tcp_link, Client, send, send_msg_by_tcp}
use practice_project.SockClient.Link.{run_task}
use practice_project.SockClient.Switch.{send_msg_by_socket}
use practice_project.SockClient.Send.{send_loop, send_msg_to_other_cli}

-- Data of a line and zeros.
pub record Padded (line m : List ℕ) : Type 0 where
  pub starts : bytes_at m 0 (length line) ≡ line
  pub zero_after : (k : ℕ) → length line ≤ k → k < 512 → get! m k ≡ 0

module _ (sql : SqlApi) (messages : ListApi Message) where
  -- A line of 1 to 512 bytes that a client on TCP writes for an end other than the server's, for
  -- which the search finds no word to quit in data of this line and zeros, is one task, which sends one
  -- message on the client's socket. When a server whose queue is not destroyed receives it, and has
  -- memory, its queue's thread takes it next and hands it to `forward_msg_clients`. The message's data
  -- are the line and zeros, and it names the client and the end.
  pub line_to_forward :
      (quits : List ℕ → Bool) (destid x : ℕ) (xs : List ℕ) (c : Client) (s : Server sql messages)
      (q : Option messages.Head) (fd : ℕ) (buf : Message)
      → length (x ∷ xs) ≤ 512
      → ((bytes : List ℕ) → Padded (x ∷ xs) bytes → quits bytes ≡ false)
      → c.socket_type ≡ tcp_link
      → destid ≢ s.endid
      → (m : Message) × (q1 q2 : messages.Head) × (send_msg_to_other_cli quits destid
            (some (x ∷ xs) ∷ [])
            c
          ≡ some (send_msg_by_tcp m ∷ []))
        × (run_task (send_msg_by_tcp m) c ≡ (send c.cli_tcpfd m ∷ [], c))
        × (recv_tcp_cli_msg sql messages true fd (Handlers.got m) (running sql messages q s)
            ≡ some (true, [], running sql messages (some q1) s))
        × (socket_msg_process_round sql messages true buf (running sql messages (some q1) s)
            ≡ some (some (Handlers.forward_msg_clients m), running sql messages (some q2) s))
        × (messages.entries q2 ≡ waiting messages q)
        × (m.srcid ≡ c.endid)
        × (m.destid ≡ destid)
        × Padded (x ∷ xs) m.msg_data
  unfolding send_msg_to_other_cli send_loop send_msg_by_socket run_task
  line_to_forward quits destid x xs c s q fd buf short goes_on on_tcp other =
      let (bytes, wrote, w) = Returns-value (
        write_bytes-Written (x ∷ xs) (replicate 512 0) 0
          (omega (arith, length-replicate {A = ℕ} 512 0))) in
      let m : Message = record {
        msg_type = 1;
        srcid = c.endid;
        destid = destid;
        msg_data = bytes;
      } in
      let p : Padded (x ∷ xs) bytes = record {
        starts = w.there;
        zero_after = λ k past low. w.others k (inr (omega arith)) ∙ get!-replicate 512 0 k low;
      } in
      let not_server : (destid == s.endid) ≡ false = ground arith in
      let (q1, q2, arrived, taken, rest) =
        arrival_to_task sql messages s q fd m buf (λ e. absurd (ground arith)) in
      (
        m,
        q1,
        q2,
        rw (on_tcp, wrote, goes_on bytes p) refl,
        refl,
        arrived,
        rw not_server at taken,
        rest,
        refl,
        refl,
        p,
      )
