-- ===== src/UdpClient/Setup.antt =====
-- c/old_practice/work_srcs/socket_udp/client: the flag of client.c and the socket of
-- client_udp/client_udp.c. A pointer is `none` if it is NULL.
use practice_project.Prelude.{
  ℕ, ◌<◌, ◌≡◌, refl, List, [], ◌∷◌, Option, none, some, Bool, true, false, if◌then◌else◌, ltb,
  lt→ltb,
}
use practice_project.LcMsg.{set_check_sum}
use practice_project.UdpClient.{Client, to_server, send_msg_buf_to_server}

-- `InitCliFlag`, with the flag that `g_cliFlag` points to; `mem` says whether `malloc` succeeds. The
-- mutex at NULL is a fault.
pub init_cli_flag : (mem : Bool) → Option Bool → Option (Option Bool)
init_cli_flag mem (some flag) = some (some flag)
init_cli_flag true none = some (some false)
init_cli_flag false none = none

-- `DestoryCliFlag`.
pub destory_cli_flag : Option Bool → Option (Option Bool)
destory_cli_flag (some flag) = some (some flag)
destory_cli_flag none = none

-- `GetCliFlag`.
pub get_cli_flag : (mem : Bool) → Option Bool → Option (Option Bool)
get_cli_flag mem none = init_cli_flag mem none
get_cli_flag mem (some flag) = some (some flag)

-- `DestoryCliFlag` never frees the flag, and faults where there is none; with memory, `GetCliFlag` makes
-- the flag, which is not set, at its first use, and keeps it from then on.
pub destory_cli_flag-keeps :
    (p : Option Bool)
    → (flag : Bool) × (get_cli_flag true p ≡ some (some flag))
      × (get_cli_flag false (some flag) ≡ some (some flag))
      × (destory_cli_flag (some flag) ≡ some (some flag))
      × (destory_cli_flag none ≡ none)
unfolding get_cli_flag init_cli_flag destory_cli_flag
destory_cli_flag-keeps none = (false, refl, refl, refl, refl)
destory_cli_flag-keeps (some flag) = (flag, refl, refl, refl, refl)

-- `InitClientUdp`: whether it returns 0. `fd` is what `socket` returns, `none` for -1, and `opt` says
-- whether `setsockopt` succeeds.
pub init_client_udp : (fd : Option ℕ) → (opt : Bool) → Client → Bool × Client
init_client_udp none opt c = (false, c)
init_client_udp (some fd) false c = (false, c)
init_client_udp (some fd) true c = (true, record c { udp_fd = fd })

-- `DestoryCliUdp`: whether it returns 0, and the descriptor that it closes.
pub destory_cli_udp : Client → Bool × List ℕ
destory_cli_udp c = if ltb 2 c.udp_fd then (true, c.udp_fd ∷ []) else (false, [])

-- After an `InitClientUdp` that succeeds with a descriptor that is no standard one, a message goes out
-- on this descriptor with its checksum, and `DestoryCliUdp` closes the descriptor.
pub init_client_udp-then_send :
    (fd : ℕ) (m tx : List ℕ) (c : Client)
    → 2 < fd
    → set_check_sum m ≡ some tx
    → (c' : Client) × (init_client_udp (some fd) true c ≡ (true, c'))
      × (send_msg_buf_to_server m c' ≡ some (to_server fd tx ∷ []))
      × (destory_cli_udp c' ≡ (true, fd ∷ []))
unfolding init_client_udp send_msg_buf_to_server destory_cli_udp
init_client_udp-then_send fd m tx c made summed =
    (record c { udp_fd = fd }, refl, rw summed refl, rw (lt→ltb 2 fd made) refl)
