-- ===== src/Queues.antt =====
-- The queues on list.h: of tasks and messages, in c/old_practice/work_srcs/socket_udp/common and
-- c/old_practice/work_srcs/socket/common. A struct on a list is copied as a whole, so its type is a
-- parameter, and a pointer to a head is an optional head, `none` for NULL.
pub mod Order
pub mod UdpTask
pub mod UdpMsg
pub mod SockTask
pub mod SockMsg
mod Tests
use practice_project.Prelude.{List, [], ◌∷◌, Option, none, some}

-- QUEUE_SUCCESS, QUEUE_ERROR, QUEUE_EMPTY and QUEUE_FULL.
pub data Code : Type 0 where
  success error empty full : Code

-- `list_entry(head->next, ..)`: the struct after the head, which must be there.
abbrev pub first : {A : Type 0} → List A → Option A
first [] = none
first (x ∷ xs) = some x

-- `*to = *from` for a pointer `to` that may be NULL.
abbrev pub assign : {A : Type 0} → Option A → A → Option A
assign none x = none
assign (some old) x = some x

-- The struct of a new node: `*from`, or what the allocation left there for a NULL `from`.
abbrev pub content : {A : Type 0} → Option A → A → A
content none junk = junk
content (some x) junk = x
