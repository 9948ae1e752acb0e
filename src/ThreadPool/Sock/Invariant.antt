-- ===== src/ThreadPool/Sock/Invariant.antt =====
-- What holds in every state that the threads reach.
use practice_project.Prelude.{
  ℕ, ◌+◌, ◌%◌, ◌^◌, ◌<◌, ◌≡◌, refl, ap, ◌∙◌, sym, [], ◌∷◌, ◌++◌, Option, none, some, Bool, true,
  false, arith, length, length-append,
}
use mathlib.Core.Path.{subst}
use mathlib.Core.List.{append_assoc}
use practice_project.ThreadPool.{at_thread}
use practice_project.ThreadPool.Sock.{
  Pc, outside, adding, queued, counted, told, taking, waiting, woken, wake_up, took, dropped,
  running, State, Step, add_task, process_task, lock_add, en_queue, count_up, broadcast, unlock_add,
  lock_take, wait, wake, de_queue, count_down, unlock_take, handled, fresh, Reach, start, later,
  spurious,
}

-- The lines between a lock of the mutex and its unlock.
abbrev pub holds : Pc → Bool
holds outside = false
holds (adding t) = true
holds queued = true
holds counted = true
holds told = true
holds taking = true
holds waiting = false
holds woken = false
holds (took t) = true
holds (dropped t) = true
holds (running t) = false

-- A task that is queued and not counted yet, and one that is taken and still counted.
abbrev pub uncounted : Pc → ℕ
uncounted queued = 1
uncounted p = 0

abbrev pub still_counted : Pc → ℕ
still_counted (took t) = 1
still_counted p = 0

-- The counter and the queue, as the owner of the mutex leaves them.
abbrev pub Balanced : State → Option ℕ → Type 0
Balanced s none = s.cur_tasks_cnt ≡ length s.queue % 2 ^ 32
Balanced s (some i) =
    (s.cur_tasks_cnt + uncounted (s.pc i)) % 2 ^ 32
    ≡ (length s.queue + still_counted (s.pc i)) % 2 ^ 32

pub record Inv (s : State) : Type 0 where
  pub owned : (i : ℕ) → holds (s.pc i) ≡ true → s.owner ≡ some i
  pub balanced : Balanced s s.owner
  pub word : s.cur_tasks_cnt < 2 ^ 32
  pub in_order : s.added ≡ s.taken ++ s.queue

fresh-Inv : (workers : ℕ) → Inv (fresh workers)
fresh-Inv workers = record {
  owned = λ i h. absurd (ground arith);
  balanced = omega arith;
  word = omega arith;
  in_order = refl;
}

Inv-Balanced : {s : State} {o : Option ℕ} → Inv s → s.owner ≡ o → Balanced s o
Inv-Balanced {s} v e = subst (λ o. Balanced s o) e v.balanced

-- The thread that holds the mutex.
owner_at : {s : State} {i : ℕ} {p : Pc} → Inv s → s.pc i ≡ p → holds p ≡ true → s.owner ≡ some i
owner_at {s} {i} v at h = v.owned i (ap holds at ∙ h)

pub holds-wake_up : (p : Pc) → holds (wake_up p) ≡ holds p
holds-wake_up outside = refl
holds-wake_up (adding t) = refl
holds-wake_up queued = refl
holds-wake_up counted = refl
holds-wake_up told = refl
holds-wake_up taking = refl
holds-wake_up waiting = refl
holds-wake_up woken = refl
holds-wake_up (took t) = refl
holds-wake_up (dropped t) = refl
holds-wake_up (running t) = refl

-- A wake-up without a broadcast changes nothing that the counter depends on.
woken-Balanced :
    (s : State) (i : ℕ) (o : Option ℕ)
    → s.pc i ≡ waiting
    → Balanced s o
    → Balanced (record s { pc = at_thread s.pc i woken }) o
woken-Balanced s i none at b = b
woken-Balanced s i (some k) at b = ground arith

-- Nor does the end of a handler.
handled-Balanced :
    (s : State) (i t : ℕ) (o : Option ℕ)
    → s.pc i ≡ running t
    → Balanced s o
    → Balanced (record s { pc = at_thread s.pc i outside }) o
handled-Balanced s i t none at b = b
handled-Balanced s i t (some k) at b = ground arith

pub Step-Inv : {s : State} (i : ℕ) {t : State} → Step s i t → Inv s → Inv t
Step-Inv {s} i (add_task (lock_add t adder at free)) v =
    let b = Inv-Balanced v free in
    record {
      owned = λ j h. ground (arith, v.owned j);
      balanced = ground arith;
      word = v.word;
      in_order = v.in_order;
    }
Step-Inv {s} i (add_task (en_queue t at)) v =
    let mine = owner_at v at refl in
    let b = Inv-Balanced v mine in
    record {
      owned = λ j h. ground (arith, v.owned j);
      balanced = rw mine (ground (arith, length-append s.queue (t ∷ [])));
      word = v.word;
      in_order = ap (λ l. l ++ t ∷ []) v.in_order ∙ append_assoc s.taken s.queue (t ∷ []);
    }
Step-Inv {s} i (add_task (count_up at)) v =
    let mine = owner_at v at refl in
    let b = Inv-Balanced v mine in
    record {
      owned = λ j h. ground (arith, v.owned j);
      balanced = rw mine (ground arith);
      word = ground arith;
      in_order = v.in_order;
    }
Step-Inv {s} i (add_task (broadcast at)) v =
    let mine = owner_at v at refl in
    let b = Inv-Balanced v mine in
    record {
      owned = λ j h. ground (arith, v.owned j, holds-wake_up (s.pc j));
      balanced = rw mine (ground arith);
      word = v.word;
      in_order = v.in_order;
    }
Step-Inv {s} i (add_task (unlock_add at)) v =
    let mine = owner_at v at refl in
    let b = Inv-Balanced v mine in
    record {
      owned = λ j h. ground (arith, v.owned j);
      balanced = ground (arith, v.word);
      word = v.word;
      in_order = v.in_order;
    }
Step-Inv {s} i (process_task (lock_take worker at free)) v =
    let b = Inv-Balanced v free in
    record {
      owned = λ j h. ground (arith, v.owned j);
      balanced = ground arith;
      word = v.word;
      in_order = v.in_order;
    }
Step-Inv {s} i (process_task (wait at none_in)) v =
    let mine = owner_at v at refl in
    let b = Inv-Balanced v mine in
    record {
      owned = λ j h. ground (arith, v.owned j);
      balanced = ground (arith, v.word);
      word = v.word;
      in_order = v.in_order;
    }
Step-Inv {s} i (process_task (wake at free)) v =
    let b = Inv-Balanced v free in
    record {
      owned = λ j h. ground (arith, v.owned j);
      balanced = ground arith;
      word = v.word;
      in_order = v.in_order;
    }
Step-Inv {s} i (process_task (de_queue t rest at e)) v =
    let mine = owner_at v at refl in
    let b = Inv-Balanced v mine in
    record {
      owned = λ j h. ground (arith, v.owned j);
      balanced = rw mine (ground (arith, ap length e));
      word = v.word;
      in_order = v.in_order ∙ rw e (sym (append_assoc s.taken (t ∷ []) rest));
    }
Step-Inv {s} i (process_task (count_down t at)) v =
    let mine = owner_at v at refl in
    let b = Inv-Balanced v mine in
    record {
      owned = λ j h. ground (arith, v.owned j);
      balanced = rw mine (ground arith);
      word = ground arith;
      in_order = v.in_order;
    }
Step-Inv {s} i (process_task (unlock_take t at)) v =
    let mine = owner_at v at refl in
    let b = Inv-Balanced v mine in
    record {
      owned = λ j h. ground (arith, v.owned j);
      balanced = ground (arith, v.word);
      word = v.word;
      in_order = v.in_order;
    }
Step-Inv {s} i (process_task (handled t at)) v = record {
  owned = λ j h. ground (arith, v.owned j);
  balanced = handled-Balanced s i t s.owner at v.balanced;
  word = v.word;
  in_order = v.in_order;
}

pub Reach-Inv : {s : State} → Reach s → Inv s
Reach-Inv (start workers) = fresh-Inv workers
Reach-Inv (later i r st) = Step-Inv i st (Reach-Inv r)
Reach-Inv (spurious {s} i r at) =
    let v = Reach-Inv r in
    record {
      owned = λ j h. ground (arith, v.owned j);
      balanced = woken-Balanced s i s.owner at v.balanced;
      word = v.word;
      in_order = v.in_order;
    }

-- In every state that the threads of a pool can reach: two threads that are between a lock of the
-- mutex and its unlock are the same one.
pub Reach-one_holder :
    {s : State} → Reach s → (i j : ℕ) → holds (s.pc i) ≡ true → holds (s.pc j) ≡ true → i ≡ j
Reach-one_holder r i j hi hj = let v = Reach-Inv r in ground (arith, v.owned i hi, v.owned j hj)

-- In every state that the threads of a pool can reach and in which the mutex is free, the counter
-- `cur_tasks_cnt` is the number of waiting tasks, modulo 2 ^ 32.
pub Reach-counted :
    {s : State} → Reach s → s.owner ≡ none → s.cur_tasks_cnt ≡ length s.queue % 2 ^ 32
Reach-counted r free = Inv-Balanced (Reach-Inv r) free

-- In every state that the threads of a pool can reach, the tasks that were queued are the tasks
-- that were taken, followed by the tasks that wait: each one is taken at most once, and in the order
-- in which they were queued.
pub Reach-in_order : {s : State} → Reach s → s.added ≡ s.taken ++ s.queue
Reach-in_order r = (Reach-Inv r).in_order
