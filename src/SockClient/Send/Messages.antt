-- ===== src/SockClient/Send/Messages.antt =====
-- What the loop of client_socket.c that reads the user's messages sends.
use practice_project.Prelude.{
  ℕ, ◌≤◌, ◌≡◌, refl, List, [], ◌∷◌, ◌++◌, Option, none, some, Bool, true, false, arith, length,
  length-replicate, replicate, Returns, returns, Returns-bind, Returns-if,
}
use practice_project.Memory.{Written, write_bytes-Written}
use practice_project.SockServer.Handlers.{Message}
use practice_project.SockClient.{SocketType, type_code, Client, Task}
use practice_project.SockClient.Switch.{server_endid, send_msg_by_socket}
use practice_project.SockClient.Send.{first_msg, send_loop, send_msg_to_server}

-- `read` returns at most `n` bytes.
pub data Fits (n : ℕ) : List (Option (List ℕ)) → Type 0 where
  no_read : Fits n []
  failed_read : {rs : List (Option (List ℕ))} → Fits n rs → Fits n (none ∷ rs)
  short_read :
      {xs : List ℕ} {rs : List (Option (List ℕ))}
      → length xs ≤ n
      → Fits n rs
      → Fits n (some xs ∷ rs)

-- The lines read, without the reads that fail or that give nothing.
abbrev pub lines_of : List (Option (List ℕ)) → List (List ℕ)
lines_of [] = []
lines_of (none ∷ rs) = lines_of rs
lines_of (some [] ∷ rs) = lines_of rs
lines_of (some (x ∷ xs) ∷ rs) = (x ∷ xs) ∷ lines_of rs

-- What the loop does with the lines that it reads, from the data that the buffer holds: a line is written
-- over the start of the data. If the search then finds the word, nothing is sent and the loop ends;
-- else it sends one message from `src` to `dest` with the data, on the socket `t`, and goes on.
pub data Sent (quits : List ℕ → Bool) (t : SocketType) (src dest : ℕ)
    : (buf : List ℕ) → List (List ℕ) → List Task → Type 0 where
  no_line : {buf : List ℕ} → Sent quits t src dest buf [] []
  quit_line :
      (bytes : List ℕ) {buf line : List ℕ} {lines : List (List ℕ)}
      → Written buf 0 line bytes
      → quits bytes ≡ true
      → Sent quits t src dest buf (line ∷ lines) []
  one_message :
      (m : Message) {buf line : List ℕ} {lines : List (List ℕ)} {tasks : List Task}
      → Written buf 0 line m.msg_data
      → quits m.msg_data ≡ false
      → m.msg_type ≡ type_code t
      → m.srcid ≡ src
      → m.destid ≡ dest
      → Sent quits t src dest m.msg_data lines tasks
      → Sent quits t src dest buf (line ∷ lines) (send_msg_by_socket m t ++ tasks)

send_loop-Sent :
    (quits : List ℕ → Bool) (reads : List (Option (List ℕ))) (m : Message) (t : SocketType)
    → m.msg_type ≡ type_code t
    → length m.msg_data ≡ 512
    → Fits 512 reads
    → Returns
        (Sent quits t m.srcid m.destid m.msg_data (lines_of reads))
        (send_loop quits reads m t)
unfolding send_loop
send_loop-Sent quits [] m t code size fits = returns no_line
send_loop-Sent quits (none ∷ rs) m t code size (failed_read fits) =
    send_loop-Sent quits rs m t code size fits
send_loop-Sent quits (some [] ∷ rs) m t code size (short_read le fits) =
    send_loop-Sent quits rs m t code size fits
send_loop-Sent quits (some (x ∷ xs) ∷ rs) m t code size (short_read le fits) =
    Returns-bind (write_bytes-Written (x ∷ xs) m.msg_data 0 (ground arith)) λ bytes w.
      let m' : Message = record m { msg_data = bytes } in
      let full : length bytes ≡ 512 = ground (arith, w.same_length) in
      Returns-if (quits bytes) (λ quit. returns (quit_line bytes w quit))
        λ go_on.
          Returns-bind (send_loop-Sent quits rs m' t code full fits)
            λ tasks sent. returns (one_message m' w go_on code refl refl sent)

-- The same of `send_msg_to_server`, whose messages go to the server's end.
pub send_msg_to_server-Sent :
    (quits : List ℕ → Bool) (reads : List (Option (List ℕ))) (c : Client)
    → Fits 512 reads
    → Returns
        (Sent quits c.socket_type c.endid server_endid (replicate 512 0) (lines_of reads))
        (send_msg_to_server quits reads c)
unfolding send_msg_to_server
send_msg_to_server-Sent quits reads c fits =
    send_loop-Sent quits reads (first_msg server_endid c) c.socket_type refl
      (length-replicate {A = ℕ} 512 0) fits
