-- ===== src/Queues/Order.antt =====
-- The order in which a client's items come out of the queues.
use practice_project.Prelude.{
  ℕ, zero, suc, ◌≡◌, refl, ◌∙◌, List, [], ◌∷◌, ◌++◌, Option, ◌+◌, sym, none, some, ◌>>=◌, arith,
  length, true,
}
use practice_project.ListApi.{ListApi}
use practice_project.Queues.{Code}
use practice_project.Queues.UdpTask.{
  en_task_queue, de_task_queue, en_task_queue-entries, de_task_queue-entries_at,
}
use practice_project.Queues.SockMsg.{
  en_msg_to_queue, de_msg_from_queue, en_msg_to_queue-entries, de_msg_from_queue-entries_at,
}
use mathlib.Core.List.{append-nil, append_assoc}

module _ {A : Type 0} (api : ListApi A) where
  -- A client puts each item in, and then takes as many out.
  pub put_all :
      (Option api.Head → A → Option (Code × Option api.Head))
      → List A
      → Option api.Head
      → Option (Option api.Head)
  put_all en [] q = some q
  put_all en (x ∷ xs) q = do (_, q') ← en q x; put_all en xs q'

  pub take_all :
      (Option api.Head → Option (Code × Option A × Option api.Head))
      → ℕ
      → Option api.Head
      → Option (List A)
  take_all de zero q = some []
  take_all de (suc n) q = do (_, out, q') ← de q; x ← out; xs ← take_all de n q'; some (x ∷ xs)

  -- The items in the opposite order, before others.
  abbrev pub onto : List A → List A → List A
  onto [] ys = ys
  onto (x ∷ xs) ys = onto xs (x ∷ ys)

  put_all-tasks :
      (xs : List A) (q : api.Head) (junk : A)
      → (h : api.Head) × (put_all (λ p x. en_task_queue api p (some x) (some junk)) xs (some q)
          ≡ some (some h))
        × (api.entries h ≡ api.entries q ++ xs)
  unfolding put_all
  put_all-tasks [] q junk = (q, refl, sym (append-nil (api.entries q)))
  put_all-tasks (x ∷ xs) q junk =
      let (g, e, items) = (en_task_queue-entries api q (some x) none junk).0 in
      let (h, rest, all) = put_all-tasks xs g junk in
      (h, rw e rest, all ∙ rw items (append_assoc (api.entries q) (x ∷ []) xs))

  take_all-tasks :
      (xs : List A) (q : api.Head) (place : A)
      → api.entries q ≡ xs
      → take_all (λ p. de_task_queue api p (some place)) (length xs) (some q) ≡ some xs
  unfolding take_all
  take_all-tasks [] q place e = refl
  take_all-tasks (x ∷ xs) q place e =
      let (r, eq, (ret, out, (h, same, items))) =
        de_task_queue-entries_at api q (some place) (x ∷ xs) e in
      rw (eq, out, same, take_all-tasks xs h place items)

  -- With memory for every node, tasks that are put in an empty queue of socket_udp come out in the
  -- order in which they went in.
  pub tasks_fifo :
      (xs : List A) (q : api.Head) (junk place : A)
      → api.entries q ≡ []
      → (put_all (λ p x. en_task_queue api p (some x) (some junk)) xs (some q)
          >>= take_all (λ p. de_task_queue api p (some place)) (length xs))
        ≡ some xs
  tasks_fifo xs q junk place none_in =
      let (h, e, items) = put_all-tasks xs q junk in
      rw e (take_all-tasks xs h place (rw none_in at items))

  length-onto_add : (xs ys : List A) → length (onto xs ys) ≡ length xs + length ys
  length-onto_add [] ys = omega arith
  length-onto_add (x ∷ xs) ys = omega (arith, length-onto_add xs (x ∷ ys))

  length-onto : (xs : List A) → length (onto xs []) ≡ length xs
  length-onto xs = omega (arith, length-onto_add xs [])

  put_all-msgs :
      (xs : List A) (q : api.Head) (junk : A)
      → (h : api.Head) × (put_all (λ p x. en_msg_to_queue api p (some x) true) xs (some q)
          ≡ some (some h))
        × (api.entries h ≡ onto xs (api.entries q))
  unfolding put_all
  put_all-msgs [] q junk = (q, refl, refl)
  put_all-msgs (x ∷ xs) q junk =
      let (g, e, items) = (en_msg_to_queue-entries api q (some q) x none true).0 in
      let (h, rest, all) = put_all-msgs xs g junk in (h, rw e rest, all ∙ rw items)

  take_all-msgs :
      (xs : List A) (q : api.Head) (place : A)
      → api.entries q ≡ xs
      → take_all (λ p. de_msg_from_queue api p (some place)) (length xs) (some q) ≡ some xs
  unfolding take_all
  take_all-msgs [] q place e = refl
  take_all-msgs (x ∷ xs) q place e =
      let (r, eq, (ret, out, (h, same, items))) =
        de_msg_from_queue-entries_at api q (some place) (x ∷ xs) e in
      rw (eq, out, same, take_all-msgs xs h place items)

  -- With memory for every node, messages that are put in an empty queue of socket come out in the
  -- opposite order: the last one first.
  pub messages_lifo :
      (xs : List A) (q : api.Head) (junk place : A)
      → api.entries q ≡ []
      → (put_all (λ p x. en_msg_to_queue api p (some x) true) xs (some q)
          >>= take_all (λ p. de_msg_from_queue api p (some place)) (length xs))
        ≡ some (onto xs [])
  messages_lifo xs q junk place none_in =
      let (h, e, items) = put_all-msgs xs q junk in
      rw e (rw (← length-onto xs) (take_all-msgs (onto xs []) h place (rw none_in at items)))
