-- ===== src/Queues/Tests.antt =====
-- The queues on plain lists as heads.
use practice_project.Prelude.{ℕ, ◌≡◌, refl, List, [], ◌∷◌, some, ◌>>=◌, true}
use practice_project.ListApi.{ListApi, plain_lists}
use practice_project.Queues.UdpTask
use practice_project.Queues.UdpMsg
use practice_project.Queues.SockTask
use practice_project.Queues.SockMsg
use practice_project.Queues.Order.{put_all, take_all, onto, messages_lifo, tasks_fifo}

abbrev plain : ListApi ℕ
plain = plain_lists ℕ

abbrev three : List ℕ
three = 1 ∷ 2 ∷ 3 ∷ []

messages_lifo_example :
    (put_all plain (λ p x. SockMsg.en_msg_to_queue plain p (some x) true) three (some [])
      >>= take_all plain (λ p. SockMsg.de_msg_from_queue plain p (some 0)) 3)
    ≡ some (onto plain three [])
messages_lifo_example = messages_lifo plain three [] 9 0 refl

tasks_fifo_example :
    (put_all plain (λ p x. UdpTask.en_task_queue plain p (some x) (some 9)) three (some [])
      >>= take_all plain (λ p. UdpTask.de_task_queue plain p (some 0)) 3)
    ≡ some three
tasks_fifo_example = tasks_fifo plain three [] 9 0 refl

sock_init :
    (SockTask.init_task_queue plain true ≡ some (some []))
    × (SockMsg.init_msg_queue plain true ≡ some (some []))
unfolding SockTask.init_task_queue SockMsg.init_msg_queue
sock_init = (refl, refl)

udp_init :
    (UdpTask.init_task_queue plain true ≡ some []) × (UdpMsg.init_msg_queue plain true ≡ some [])
unfolding UdpTask.init_task_queue UdpMsg.init_msg_queue
udp_init = (refl, refl)
