-- ===== src/SockClient/Switch/Invariant.antt =====
-- Which sockets are open, while the thread that receives and the pool run beside a switch.
use practice_project.Prelude.{
  ℕ, ◌≡◌, ◌≢◌, refl, Option, some, Bool, true, false, arith, Bool-cases, inl, inr, ◌⊎◌,
}
use mathlib.Core.Path.{subst}
use practice_project.Fd.{check_fd}
use practice_project.SockClient.{
  SocketType, unset, tcp_link, udp_link, Client, started, Task, send_msg_by_tcp, send_msg_by_udp,
  dispaly_msg_package, complete_init_client_info,
}
use practice_project.SockClient.Link.{
  init_client_tcp, try_destroy_client_tcp, init_client_udp, try_destroy_client_udp, run_task,
}
use practice_project.SockClient.Switch.{next_type, close_other, open_new, destroy_socket}

-- Where the thread that switches is: outside, or in `switch_socket_type` after the new type is set, or
-- after the other socket is closed. `init_client_info` changes no variable.
pub data Pc : Type 0 where
  outside chosen closed : Pc

-- Where the thread that receives is: in `recv`, or in `try_destroy_client_tcp` before its assignment.
pub data RxPc : Type 0 where
  receiving shutting : RxPc

pub record State : Type 0 where
  pub client : Client
  pub pc : Pc
  pub rx_pc : RxPc

-- A step of a thread. Only one thread switches; it reads and writes the variables without a mutex.
pub data Step (s : State) : State → Type 0 where
  choose :
      s.pc ≡ outside
      → Step s (record s {
        client = record s.client { socket_type = next_type s.client.socket_type };
        pc = chosen;
      })
  close_first :
      s.pc ≡ chosen
      → Step s (record s { client = (close_other s.client.socket_type s.client).1; pc = closed })
  open_then :
      (fd : Option ℕ)
      → s.pc ≡ closed
      → Step s (record s { client = (open_new s.client.socket_type fd s.client).1; pc = outside })
  -- The connection ends: the flag is reset and the socket is closed; then the variable is set to 0.
  shut :
      s.rx_pc ≡ receiving
      → Step s (record s { client = record s.client { init_cli_info = false }; rx_pc = shutting })
  clear :
      s.rx_pc ≡ shutting
      → Step s (record s { client = record s.client { cli_tcpfd = some 0 }; rx_pc = receiving })
  -- A thread of the pool.
  run : (t : Task) → Step s (record s { client = (run_task t s.client).1 })

pub data Reach (endid : ℕ) : State → Type 0 where
  start : Reach endid (record { client = started endid; pc = outside; rx_pc = receiving })
  later : {s t : State} → Reach endid s → Step s t → Reach endid t

-- Not both sockets are open, and one that is open is that of the type, except between the choice and
-- the close of the other socket.
record Inv (c : Client) (pc : Pc) : Type 0 where
  one : check_fd c.cli_tcpfd ≡ true → check_fd c.cli_udpfd ≡ false
  tcp_open : pc ≢ chosen → check_fd c.cli_tcpfd ≡ true → c.socket_type ≡ tcp_link
  udp_open : pc ≢ chosen → check_fd c.cli_udpfd ≡ true → c.socket_type ≡ udp_link
  is_set : pc ≡ chosen → c.socket_type ≢ unset

next_type-set : (t : SocketType) → next_type t ≢ unset
next_type-set unset e = absurd (ground arith)
next_type-set tcp_link e = absurd (ground arith)
next_type-set udp_link e = absurd (ground arith)

choose-Inv :
    (c : Client) → Inv c outside → Inv (record c { socket_type = next_type c.socket_type }) chosen
choose-Inv c v = record {
  one = v.one;
  tcp_open = λ n h. absurd (n refl);
  udp_open = λ n h. absurd (n refl);
  is_set = λ e. next_type-set c.socket_type;
}

close_first-Inv :
    (t : SocketType) (c : Client)
    → c.socket_type ≡ t
    → Inv c chosen
    → Inv (close_other t c).1 closed
unfolding close_other try_destroy_client_tcp try_destroy_client_udp
close_first-Inv unset c at v = absurd (v.is_set refl at)
close_first-Inv tcp_link c at v = record {
  one = λ h. ground (arith, v.one);
  tcp_open = λ n h. ground (arith, at);
  udp_open = λ n h. absurd (ground (arith, v.one));
  is_set = λ e. absurd (ground arith);
}
close_first-Inv udp_link c at v = record {
  one = λ h. absurd (ground (arith, v.one));
  tcp_open = λ n h. absurd (ground (arith, v.one));
  udp_open = λ n h. ground (arith, at);
  is_set = λ e. absurd (ground arith);
}

closed-chosen : closed ≢ chosen
closed-chosen e = absurd (ground arith)

open_then-Inv :
    (t : SocketType) (fd : Option ℕ) (c : Client)
    → c.socket_type ≡ t
    → Inv c closed
    → Inv (open_new t fd c).1 outside
unfolding open_new init_client_tcp init_client_udp
open_then-Inv unset fd c at v = record {
  one = v.one;
  tcp_open = λ n. v.tcp_open closed-chosen;
  udp_open = λ n. v.udp_open closed-chosen;
  is_set = λ e. absurd (ground arith);
}
open_then-Inv tcp_link fd c at v = record {
  one = λ h. ground (arith, v.udp_open closed-chosen);
  tcp_open = λ n h. ground (arith, at);
  udp_open = λ n h. absurd (ground (arith, at, v.udp_open closed-chosen));
  is_set = λ e. absurd (ground arith);
}
open_then-Inv udp_link fd c at v = record {
  one = λ h. absurd (ground (arith, at, v.tcp_open closed-chosen));
  tcp_open = λ n h. absurd (ground (arith, at, v.tcp_open closed-chosen));
  udp_open = λ n h. ground (arith, at);
  is_set = λ e. absurd (ground arith);
}

run-Inv : (t : Task) (c : Client) (pc : Pc) → Inv c pc → Inv (run_task t c).1 pc
unfolding run_task
run-Inv (send_msg_by_tcp m) c pc v = v
run-Inv (send_msg_by_udp m) c pc v = v
run-Inv (dispaly_msg_package m) c pc v = v
run-Inv complete_init_client_info c pc v = record {
  one = v.one;
  tcp_open = v.tcp_open;
  udp_open = v.udp_open;
  is_set = v.is_set;
}

Step-Inv : {s t : State} → Step s t → Inv s.client s.pc → Inv t.client t.pc
Step-Inv {s} (choose at) v = choose-Inv s.client (subst (Inv s.client) at v)
Step-Inv {s} (close_first at) v =
    close_first-Inv s.client.socket_type s.client refl (subst (Inv s.client) at v)
Step-Inv {s} (open_then fd at) v =
    open_then-Inv s.client.socket_type fd s.client refl (subst (Inv s.client) at v)
Step-Inv (shut at) v = record {
  one = v.one;
  tcp_open = v.tcp_open;
  udp_open = v.udp_open;
  is_set = v.is_set;
}
Step-Inv (clear at) v = record {
  one = λ h. absurd (ground arith);
  tcp_open = λ n h. absurd (ground arith);
  udp_open = v.udp_open;
  is_set = v.is_set;
}
Step-Inv {s} (run t) v = run-Inv t s.client s.pc v

Reach-Inv : {endid : ℕ} {s : State} → Reach endid s → Inv s.client s.pc
Reach-Inv start = record {
  one = λ h. absurd (ground arith);
  tcp_open = λ n h. absurd (ground arith);
  udp_open = λ n h. absurd (ground arith);
  is_set = λ e. absurd (ground arith);
}
Reach-Inv (later r st) = Step-Inv st (Reach-Inv r)

chosen_or : {A : Type 0} (p : Pc) → (p ≢ chosen → A) → (p ≡ chosen) ⊎ A
chosen_or outside h = inr (h λ e. absurd (ground arith))
chosen_or chosen h = inl refl
chosen_or closed h = inr (h λ e. absurd (ground arith))

of_type : (b : Bool) {t u : SocketType} → (b ≡ true → t ≡ u) → (b ≡ false) ⊎ (t ≡ u)
of_type true h = inr (h refl)
of_type false h = inl refl

-- However the thread that switches, the thread that receives and the pool run, whatever `socket` and
-- `recv` return: the variables of the two sockets never hold two open sockets at once. A socket that is
-- open is that of `socket_type`, except while a switch is between the choice of the type and the
-- close of the other socket.
pub Reach-one_socket :
    {endid : ℕ} {s : State}
    → Reach endid s
    → ((check_fd s.client.cli_tcpfd ≡ false) ⊎ (check_fd s.client.cli_udpfd ≡ false))
      × ((s.pc ≡ chosen)
          ⊎ ((check_fd s.client.cli_tcpfd ≡ false) ⊎ (s.client.socket_type ≡ tcp_link))
            × ((check_fd s.client.cli_udpfd ≡ false) ⊎ (s.client.socket_type ≡ udp_link)))
Reach-one_socket {s = s} r =
    let v = Reach-Inv r in
    let types : s.pc ≢ chosen
        → ((check_fd s.client.cli_tcpfd ≡ false) ⊎ (s.client.socket_type ≡ tcp_link))
          × ((check_fd s.client.cli_udpfd ≡ false) ⊎ (s.client.socket_type ≡ udp_link)) =
      λ n. (
        of_type (check_fd s.client.cli_tcpfd) (v.tcp_open n),
        of_type (check_fd s.client.cli_udpfd) (v.udp_open n),
      ) in
    (
      elim (Bool-cases (check_fd s.client.cli_tcpfd)) [
        | inl open_tcp ↦ inr (v.one open_tcp)
        | inr shut_tcp ↦ inl shut_tcp
      ],
      chosen_or s.pc types,
    )

-- `destroy_socket` leaves no socket open.
pub destroy_socket-closes :
    (c : Client)
    → (check_fd (destroy_socket c).1.cli_tcpfd ≡ false)
      × (check_fd (destroy_socket c).1.cli_udpfd ≡ false)
unfolding destroy_socket try_destroy_client_tcp try_destroy_client_udp
destroy_socket-closes c = (ground arith, ground arith)
