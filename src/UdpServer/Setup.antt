-- ===== src/UdpServer/Setup.antt =====
-- server_udp/server_udp.c and server_epoll/server_epoll.c: the server's descriptors and the choice of
-- what runs on an event. `none` is the descriptor -1.
use practice_project.Prelude.{
  ℕ, ◌<◌, ◌≡◌, ◌≢◌, refl, List, [], ◌∷◌, Option, none, some, Bool, true, false, arith,
  if◌then◌else◌, lt→ltb, ◌==◌,
}
use practice_project.Fd.{check_fd}

-- `GetSrvUdp()->udpFd` and `g_epFd`.
pub record Descriptors : Type 0 where
  pub udp_fd : Option ℕ
  pub ep_fd : Option ℕ

abbrev pub no_descriptors : Descriptors
no_descriptors = record { udp_fd = some 0; ep_fd = some 0 }

-- `InitSrvUdp`: whether it returns 0. `fd` is what `socket` returns. What `setsockopt` and `bind` return
-- is only logged.
pub init_srv_udp : (fd : Option ℕ) → Descriptors → Bool × Descriptors
init_srv_udp fd s = if check_fd s.udp_fd then (false, s) else (true, record s { udp_fd = fd })

-- `DestorySrvUdp`: whether it returns 0, and the descriptor that it closes.
pub destory_srv_udp : (closed : Bool) → Descriptors → Bool × List (Option ℕ)
destory_srv_udp closed s = if check_fd s.udp_fd then (closed, s.udp_fd ∷ []) else (false, [])

-- `InitServerEpoll`, which returns 0. `created` is what `epoll_create1` returns.
pub init_server_epoll : (created : Option ℕ) → Descriptors → Descriptors
init_server_epoll created s = if check_fd s.ep_fd then s else record s { ep_fd = created }

-- `DestoryServerEpoll`.
pub destory_server_epoll : (closed : Bool) → Descriptors → Bool × List (Option ℕ)
destory_server_epoll closed s = if check_fd s.ep_fd then (closed, s.ep_fd ∷ []) else (true, [])

-- `AddFdToSrvEpollWithFd`: the descriptor that EPOLL_CTL_ADD gets.
pub add_fd_to_srv_epoll : (fd : Option ℕ) → Descriptors → List (Option ℕ)
add_fd_to_srv_epoll fd s = if check_fd s.ep_fd then fd ∷ [] else []

-- The handler that the pool gets for an event.
pub data EventTask : Type 0 where
  stdin_task : EventTask
  udp_task : EventTask

-- The body of the loop of `ServerEpollThread` over the events.
pub event_task : (fd : ℕ) → Descriptors → Option EventTask
event_task fd s =
    let udp : Option EventTask = elim s.udp_fd [
      | none ↦ none
      | some k ↦ if fd == k then some udp_task else none
    ] in
    if fd == 0 then some stdin_task else udp

-- After a start in which `socket` and `epoll_create1` return descriptors that are no standard ones, epoll
-- gets the UDP socket, an event of it runs `PorcessUdpMsg`, one of standard input `ProcessStdin`, and
-- one of another descriptor nothing; the end closes the two descriptors.
pub start_then_events :
    (fd ep : ℕ)
    → 2 < fd
    → 2 < ep
    → (s : Descriptors) × (init_srv_udp (some fd) (init_server_epoll (some ep) no_descriptors)
        ≡ (true, s))
      × (add_fd_to_srv_epoll s.udp_fd s ≡ some fd ∷ [])
      × (event_task fd s ≡ some udp_task)
      × (event_task 0 s ≡ some stdin_task)
      × ((k : ℕ) → k ≢ 0 → k ≢ fd → event_task k s ≡ none)
      × (destory_srv_udp true s ≡ (true, some fd ∷ []))
      × (destory_server_epoll true s ≡ (true, some ep ∷ []))
unfolding init_srv_udp init_server_epoll add_fd_to_srv_epoll event_task destory_srv_udp
    destory_server_epoll
start_then_events fd ep fd_made ep_made =
    let udp_open = lt→ltb 2 fd fd_made in
    let ep_open = lt→ltb 2 ep ep_made in
    let s : Descriptors = record { udp_fd = some fd; ep_fd = some ep } in
    let not_stdin : (fd == 0) ≡ false = ground arith in
    let same : (fd == fd) ≡ true = ground arith in
    (
      s,
      refl,
      rw ep_open refl,
      rw (not_stdin, same) refl,
      refl,
      λ k k0 kf.
          let a : (k == 0) ≡ false = ground arith in
          let b : (k == fd) ≡ false = ground arith in rw (a, b) refl,
      rw udp_open refl,
      rw ep_open refl,
    )
