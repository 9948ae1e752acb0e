-- ===== src/Lib.antt =====
-- Verification of the C code under c/old_practice: sorting programs, two queues of blocks of bytes,
-- and the queues, messages, lists of clients, thread pools and servers of the socket programs.
--
-- The program's parts and the files that model them:
-- - Sort: practice_srcs/sort_algo, a file per program. `lc_insert_sort` is Sort/Insertion.antt,
--   `lc_selection_sort` Sort/Selection.antt, `lc_bubble_sort` Sort/Bubble.antt, `lc_shell_sort`
--   Sort/Shell.antt and `lc_quick_sort` Sort/Quick.antt. What a sort promises is in Sort/Spec.antt.
--   Each loop is a function, which takes and returns the array. Sort/Agree.antt compares the sorts.
-- - SeqQueue: lib_srcs/lib_queue/seq/seq_queue.c, a circular queue in one block. Its refinement to a
--   list is in SeqQueue/Refine.antt, that of a client's calls in SeqQueue/Run.antt.
-- - LinkQueue: lib_srcs/lib_queue/link/link_queue.c, a queue of nodes and blocks on a heap, which
--   the commands take and return. LinkQueue/Chain.antt says which heap holds which queue; the
--   other files are for the operations.
-- - LcMsg: work_srcs/socket_udp/common/lcmsg/lcmsg.c, messages as bytes and their checksum.
-- - Queues: the task and message queues of work_srcs/socket_udp/common and work_srcs/socket/common.
--   They use list.h, whose functions are the interface of ListApi.antt: a record of operations
--   and laws, which a section takes as a parameter.
-- - ClientInfo: work_srcs/socket_tcp/server/client_info, the server's list of clients, on the same
--   interface.
-- - ThreadPool: common/thread_pool/thread_pool.c of work_srcs/socket (ThreadPool/Sock.antt) and of
--   work_srcs/socket_udp (ThreadPool/Udp.antt). The threads are a step relation on the mutex, the
--   queue and the counter, with the states that they reach; ThreadPool/Create.antt is the block of
--   thread ids, ThreadPool/Statics.antt the pools of the programs, and
--   ThreadPool/Sock/Progress.antt, on ThreadPool/Sock/Wakeups.antt, how a task that waits gets to
--   run. In socket the threads of the pool are told from those that add tasks; a wait ends with a
--   broadcast, and in a state that is reached it may also have ended without one.
-- - UdpServer: work_srcs/socket_udp/server. Its list of clients (UdpServer/Clients.antt), its static
--   queue and that of the client (UdpServer/Queue.antt), on the queue of Queues/UdpMsg.antt, and the
--   handlers of server_udp.c (UdpServer/Handlers.antt); the descriptors are UdpServer/Setup.antt.
--   UdpServer/Handlers/Delivery.antt follows a message through them.
-- - UdpClient: work_srcs/socket_udp/client/client_udp, what the client sends and what it does with an
--   answer; UdpClient/Setup.antt is its flag, of client.c, and its socket. UdpClient/Registration.antt
--   puts it and UdpServer together.
-- - SqlApi and SockServer: work_srcs/socket/server. What cli_sqlite3.c relies on of sqlite3 is the
--   interface SqlApi; SockServer/Database.antt is the table of clients, SockServer/Queue.antt the
--   static queue, on Queues/SockMsg.antt, and SockServer/Handlers.antt the handlers of
--   server_socket and server_epoll, which SockServer/Handlers/Delivery.antt composes.
--   The descriptors that server_tcp.c, server_udp.c and server_epoll.c make are
--   SockServer/Setup.antt.
-- - SockClient: work_srcs/socket/client/client_socket. SockClient/Link.antt is client_tcp.c and
--   client_udp.c, SockClient/Switch.antt the choice of the socket and the registration, and
--   SockClient/Send.antt the lines that the user writes. SockClient/Switch/Registration.antt and
--   SockClient/Send/Forward.antt put it and SockServer together. SockClient/Switch/Invariant.antt
--   runs a switch in steps beside the thread that receives and the pool.
-- - TcpServer: work_srcs/socket_tcp, as its include.mk builds it, with LOCAL_DEBUG.
--   common/local_queue is TcpServer/LocalQueue.antt, on LinkQueue; what server/client_info sends,
--   server_socket.c and server_epoll.c are TcpServer/Handlers.antt, on ClientInfo, and the thread
--   that takes messages from the queue TcpServer/Thread.antt. TcpServer/Handlers/Delivery.antt
--   follows a client from its connection on.
-- - TcpClient: work_srcs/socket_tcp/client/client_socket, what the client sends and what it does with
--   a message. TcpClient/Forward.antt follows a line from one client to another.
-- - Search and Statics: the search in a list by a number, and static pointers that are made at their
--   first use.
-- - Fd: the test `CHECK_FD` of a descriptor.
-- - Prelude, Array and Memory: numbers, lists, code that may fault, arrays, and `memcpy`.
--
-- How the code is read: `Option` stands for code that may fault, and `none` is a fault: an access
-- out of bounds, a use of NULL or of a freed address, a signed overflow where the code can reach
-- it, or fuel that has run out. What an allocation returns is an argument. Arrays have fewer than
-- 2 ^ 31 elements, so their counts and indices are numbers; an element `x` of an `int` array stands
-- as `x + 2 ^ 31`, which keeps its order. In the circular queue the indices stay below `nodeCnt`,
-- an `int`. What a handler receives is an argument, and what it sends is a list of effects in its
-- result. A call that runs under a mutex is one step, except in the thread pools, and a switch of
-- the socket client is a sequence of steps where its threads are concerned. An `int` in a message is
-- the number of its four bytes.
--
-- Bounds and fuel: the loops with a counter recurse on the rounds that are left. The inner loop of
-- the shell sort has `i + 1` rounds, as a gap is positive; its outer loop `cnt / 2 + 1`, as the gap
-- halves. The quick sort's scans have `right - left + 1` rounds, its partition
-- `2 * (end - start) + 2`, and its stack loop `cnt + 1`, since each range on the stack has an index
-- that no other one has. The loops that empty a queue take their fuel as an argument, and more
-- rounds than items are enough.
--
-- Not modelled: what prints or logs, the programs' `main`, the copy of the kernel's list.h, the calls
-- that make threads and the loops that wait for epoll, the wrappers that copy arguments for the
-- thread pools, the menus of the clients, and the sort of practice_srcs/sort_algo/test.c.
pub mod Prelude
pub mod Array
pub mod Sort
pub mod Memory
pub mod SeqQueue
pub mod LinkQueue
pub mod LcMsg
pub mod ListApi
pub mod Queues
pub mod ClientInfo
pub mod Search
pub mod Statics
pub mod UdpServer
pub mod ThreadPool
pub mod SqlApi
pub mod Fd
pub mod SockServer
pub mod SockClient
pub mod TcpServer
pub mod TcpClient
pub mod UdpClient
