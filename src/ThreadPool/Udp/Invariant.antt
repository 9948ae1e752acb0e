-- ===== src/ThreadPool/Udp/Invariant.antt =====
-- What holds in every state that the threads reach, and what does not.
use practice_project.Prelude.{
  ℕ, ◌≡◌, refl, ap, ◌∙◌, sym, [], ◌∷◌, ◌++◌, none, some, Bool, true, false, arith,
}
use mathlib.Core.List.{append_assoc}
use practice_project.ThreadPool.Udp.{
  Pc, outside, adding, queued, loaded_up, counted, taking, waiting, took, unlocked, loaded_down,
  running, State, Step, add_task, process_task, lock_add, en_queue, load_up, store_up, unlock_add,
  lock_take, wait, wake, de_queue, unlock_take, load_down, store_down, handled, Reach, start, later,
}

-- The lines between a lock of the mutex and its unlock.
abbrev pub holds : Pc → Bool
holds outside = false
holds (adding t) = true
holds queued = true
holds (loaded_up c) = true
holds counted = true
holds taking = true
holds waiting = false
holds (took t) = true
holds (unlocked t) = false
holds (loaded_down t c) = false
holds (running t) = false

pub record Inv (s : State) : Type 0 where
  pub owned : (i : ℕ) → holds (s.pc i) ≡ true → s.owner ≡ some i
  pub in_order : s.added ≡ s.taken ++ s.queue

owner_at : {s : State} {i : ℕ} {p : Pc} → Inv s → s.pc i ≡ p → holds p ≡ true → s.owner ≡ some i
owner_at {s} {i} v at h = v.owned i (ap holds at ∙ h)

pub Step-Inv : {s : State} (i : ℕ) {t : State} → Step s i t → Inv s → Inv t
Step-Inv {s} i (add_task (lock_add t at free)) v = record {
  owned = λ j h. ground (arith, v.owned j);
  in_order = v.in_order;
}
Step-Inv {s} i (add_task (load_up at)) v =
    let mine = owner_at v at refl in
    record { owned = λ j h. ground (arith, v.owned j); in_order = v.in_order }
Step-Inv {s} i (add_task (store_up c at)) v =
    let mine = owner_at v at refl in
    record { owned = λ j h. ground (arith, v.owned j); in_order = v.in_order }
Step-Inv {s} i (add_task (unlock_add at)) v =
    let mine = owner_at v at refl in
    record { owned = λ j h. ground (arith, v.owned j); in_order = v.in_order }
Step-Inv {s} i (process_task (lock_take at free)) v = record {
  owned = λ j h. ground (arith, v.owned j);
  in_order = v.in_order;
}
Step-Inv {s} i (process_task (wait at none_in)) v =
    let mine = owner_at v at refl in
    record { owned = λ j h. ground (arith, v.owned j); in_order = v.in_order }
Step-Inv {s} i (process_task (wake at free)) v = record {
  owned = λ j h. ground (arith, v.owned j);
  in_order = v.in_order;
}
Step-Inv {s} i (process_task (unlock_take t at)) v =
    let mine = owner_at v at refl in
    record { owned = λ j h. ground (arith, v.owned j); in_order = v.in_order }
Step-Inv {s} i (process_task (load_down t at)) v = record {
  owned = λ j h. ground (arith, v.owned j);
  in_order = v.in_order;
}
Step-Inv {s} i (process_task (store_down t c at)) v = record {
  owned = λ j h. ground (arith, v.owned j);
  in_order = v.in_order;
}
Step-Inv {s} i (process_task (handled t at)) v = record {
  owned = λ j h. ground (arith, v.owned j);
  in_order = v.in_order;
}
Step-Inv {s} i (add_task (en_queue t at)) v =
    let mine = owner_at v at refl in
    record {
      owned = λ j h. ground (arith, v.owned j);
      in_order = ap (λ l. l ++ t ∷ []) v.in_order ∙ append_assoc s.taken s.queue (t ∷ []);
    }
Step-Inv {s} i (process_task (de_queue t rest at e)) v =
    let mine = owner_at v at refl in
    record {
      owned = λ j h. ground (arith, v.owned j);
      in_order = v.in_order ∙ rw e (sym (append_assoc s.taken (t ∷ []) rest));
    }

pub Reach-Inv : {s : State} → Reach s → Inv s
Reach-Inv start = record { owned = λ i h. absurd (ground arith); in_order = refl }
Reach-Inv (later i r st) = Step-Inv i st (Reach-Inv r)

-- In every state that the threads of a pool can reach, the tasks that were queued are the tasks
-- that were taken, followed by the tasks that wait.
pub Reach-queued : {s : State} → Reach s → s.added ≡ s.taken ++ s.queue
Reach-queued r = (Reach-Inv r).in_order

-- The counter is no count of the waiting tasks: for any two tasks, the threads of a pool reach a
-- state in which the mutex is free and the second task waits, but `curTaskCnt` is 0, since the
-- store of its increment is overwritten.
pub lost_update :
    (t u : ℕ)
    → (s : State) × Reach s
      × (s.owner ≡ none)
      × (s.added ≡ t ∷ u ∷ [])
      × (s.queue ≡ u ∷ [])
      × (s.cur_task_cnt ≡ 0)
lost_update t u = (
  _,
  later 1
      (later 0
        (later 0
          (later 0
            (later 0
              (later 0
                (later 1
                  (later 1
                    (later 1
                      (later 1
                        (later 0
                          (later 0
                            (later 0
                              (later 0 (later 0 start (add_task (lock_add t refl refl)))
                                (add_task (en_queue t refl)))
                              (add_task (load_up refl)))
                            (add_task (store_up 0 refl)))
                          (add_task (unlock_add refl)))
                        (process_task (lock_take refl refl)))
                      (process_task (de_queue t [] refl refl)))
                    (process_task (unlock_take t refl)))
                  (process_task (load_down t refl)))
                (add_task (lock_add u refl refl)))
              (add_task (en_queue u refl)))
            (add_task (load_up refl)))
          (add_task (store_up 1 refl)))
        (add_task (unlock_add refl)))
      (process_task (store_down t 1 refl)),
  refl,
  refl,
  refl,
  refl,
)
