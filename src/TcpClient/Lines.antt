-- ===== src/TcpClient/Lines.antt =====
-- What a line that the user writes becomes.
use practice_project.Prelude.{
  ℕ, ◌+◌, ◌-◌, ◌^◌, ◌≤◌, ◌<◌, ◌≡◌, ◌∙◌, sym, refl, ap, List, [], ◌∷◌, some, Bool, false, arith, inr,
  length, replicate, length-replicate, Returns-value,
}
use mathlib.Core.Path.{subst}
use practice_project.Array.{get! }
use practice_project.Memory.{
  write_bytes, write_bytes-Written, memcpy, memcpy-Written, Written, bytes_at, bytes_at-same,
  length-bytes_at, get!-bytes_at, get!-replicate,
}
use practice_project.LcMsg.Heads.{HasHead, set_head, set_head-HasHead, memcpy-HasHead}
use practice_project.TcpServer.LocalQueue.{msg_buf_size}
use practice_project.TcpServer.Handlers.{max_msg_len, process_msg_type, server_end_id}
use practice_project.TcpClient.{Client, send, sent, tx_to_other_cli_round, tx_to_server_round}

-- The buffers have the size of a message, and the end is an `int`.
pub record Sized (c : Client) : Type 0 where
  pub rx_size : length c.rx_buf ≡ msg_buf_size
  pub tx_size : length c.tx_buf ≡ msg_buf_size
  pub end_int : c.end_id < 2 ^ 32

-- The data of a message: the line, and zeros after it.
pub record Padded (line m : List ℕ) : Type 0 where
  pub starts : bytes_at m 12 (length line) ≡ line
  pub zero_after : (k : ℕ) → length line ≤ k → k < max_msg_len → get! m (12 + k) ≡ 0

-- `memset`, and then `read`.
filled-Padded :
    (rx line : List ℕ)
    → length rx ≡ msg_buf_size
    → length line ≤ max_msg_len
    → (cleared filled : List ℕ) × (write_bytes rx 12 (replicate max_msg_len 0) ≡ some cleared)
      × (write_bytes cleared 12 line ≡ some filled)
      × (length filled ≡ msg_buf_size)
      × Padded line filled
filled-Padded rx line size few =
    let zeros : List ℕ = replicate max_msg_len 0 in
    let len : length zeros ≡ max_msg_len = length-replicate {A = ℕ} max_msg_len 0 in
    let (cleared, e, v) = Returns-value (write_bytes-Written zeros rx 12 (omega arith)) in
    let (filled, e', w) =
      Returns-value (write_bytes-Written line cleared 12 (omega (arith, v.same_length))) in
    let clear : bytes_at cleared 12 max_msg_len ≡ zeros =
      subst (λ n. bytes_at cleared 12 n ≡ zeros) len v.there in
    (
      cleared,
      filled,
      e,
      e',
      w.same_length ∙ v.same_length ∙ size,
      record {
        starts = w.there;
        zero_after = λ k past low.
            w.others (12 + k) (inr (omega arith))
            ∙ sym (get!-bytes_at cleared 12 max_msg_len k low)
            ∙ ap (λ l. get! l k) clear
            ∙ get!-replicate max_msg_len 0 k low;
      },
    )

-- `memcpy` of the data.
copied-Padded :
    (head filled tx line : List ℕ)
    → length line ≤ max_msg_len
    → Padded line filled
    → Written head 12 (bytes_at filled 12 max_msg_len) tx
    → Padded line tx
copied-Padded head filled tx line few p w =
    let there : bytes_at tx 12 max_msg_len ≡ bytes_at filled 12 max_msg_len =
      subst (λ n. bytes_at tx 12 n ≡ bytes_at filled 12 max_msg_len)
        (length-bytes_at filled 12 max_msg_len) w.there in
    let same : (k : ℕ) → k < max_msg_len → get! tx (12 + k) ≡ get! filled (12 + k) = λ k low.
      sym (get!-bytes_at tx 12 max_msg_len k low)
      ∙ ap (λ l. get! l k) there
      ∙ get!-bytes_at filled 12 max_msg_len k low in
    record {
      starts =
          bytes_at-same tx filled 12 (length line) (λ k lo hi.
            subst (λ j. get! tx j ≡ get! filled j) (omega arith) (same (k - 12) (omega arith)))
          ∙ p.starts;
      zero_after = λ k past low. same k low ∙ p.zero_after k past low;
    }

tx_to_other_cli_round-step :
    (quits : List ℕ → Bool) (dest : ℕ) (line cleared filled head tx : List ℕ) (c : Client)
    → write_bytes c.rx_buf 12 (replicate max_msg_len 0) ≡ some cleared
    → write_bytes cleared 12 line ≡ some filled
    → quits filled ≡ false
    → set_head process_msg_type c.end_id dest c.tx_buf ≡ some head
    → memcpy head 12 filled 12 max_msg_len ≡ some tx
    → tx_to_other_cli_round quits dest (some line) c
      ≡ some (sent (send c.client_fd tx ∷ []), record c { rx_buf = filled; tx_buf = tx })
unfolding tx_to_other_cli_round
tx_to_other_cli_round-step quits dest line cleared filled head tx c e1 e2 e3 e4 e5 =
    rw (e1, e2, e3, e4, e5) refl

-- From buffers of `sizeof(MsgBuf)` bytes, for two ends that are `int`s and a line of at most MAX_MSG_LEN
-- bytes for which the search finds no word to quit in data of this line and zeros, a round of the loop
-- sends one message on the client's socket: a
-- PROCESS_MSG from the client to the end, whose data are the line and zeros after it, whatever the
-- buffers held before. The buffers keep their size.
pub tx_to_other_cli_round-sent :
    (quits : List ℕ → Bool) (dest : ℕ) (line : List ℕ) (c : Client)
    → Sized c
    → dest < 2 ^ 32
    → length line ≤ max_msg_len
    → ((bytes : List ℕ) → Padded line bytes → quits bytes ≡ false)
    → (tx rx : List ℕ) × (tx_to_other_cli_round quits dest (some line) c
        ≡ some (sent (send c.client_fd tx ∷ []), record c { rx_buf = rx; tx_buf = tx }))
      × HasHead process_msg_type c.end_id dest tx
      × Padded line tx
      × Sized (record c { rx_buf = rx; tx_buf = tx })
tx_to_other_cli_round-sent quits dest line c v small few goes_on =
    let (cleared, filled, e, e', rx_size, p) = filled-Padded c.rx_buf line v.rx_size few in
    let (a, written, (head, same)) = Returns-value (
      set_head-HasHead process_msg_type c.end_id dest c.tx_buf (omega arith) v.end_int small
        (omega (arith, v.tx_size))) in
    let (tx, copied, w) =
      Returns-value (
        memcpy-Written a 12 filled 12 max_msg_len (omega (arith, same, v.tx_size)) (omega arith)) in
    (
      tx,
      filled,
      tx_to_other_cli_round-step quits dest line cleared filled a tx c e e' (goes_on filled p)
          written copied,
      memcpy-HasHead process_msg_type c.end_id dest a tx (bytes_at filled 12 max_msg_len) head w,
      copied-Padded a filled tx line few p w,
      record { rx_size = rx_size; tx_size = w.same_length ∙ same ∙ v.tx_size; end_int = v.end_int },
    )

-- The same of a round of `TxToServer`, whose messages go to the server's end.
pub tx_to_server_round-sent :
    (quits : List ℕ → Bool) (line : List ℕ) (c : Client)
    → Sized c
    → length line ≤ max_msg_len
    → ((bytes : List ℕ) → Padded line bytes → quits bytes ≡ false)
    → (tx rx : List ℕ) × (tx_to_server_round quits (some line) c
        ≡ some (sent (send c.client_fd tx ∷ []), record c { rx_buf = rx; tx_buf = tx }))
      × HasHead process_msg_type c.end_id server_end_id tx
      × Padded line tx
      × Sized (record c { rx_buf = rx; tx_buf = tx })
unfolding tx_to_server_round
tx_to_server_round-sent quits line c v few goes_on =
    tx_to_other_cli_round-sent quits server_end_id line c v (omega arith) few goes_on
