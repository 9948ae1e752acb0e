-- ===== src/ThreadPool/Sock/Progress.antt =====
-- What the threads can always do next.
use practice_project.Prelude.{
  ℕ, ◌≡◌, ◌≢◌, refl, ap, ◌⊎◌, inl, inr, List, [], ◌∷◌, ◌++◌, Option, none, some, true, false, arith,
  ◌<◌, ◌∙◌,
}
use practice_project.ThreadPool.{at_thread}
use practice_project.ThreadPool.Sock.{
  Pc, outside, adding, queued, counted, told, taking, waiting, woken, wake_up, took, dropped,
  running, State, Step, add_task, process_task, en_queue, count_up, broadcast, unlock_add,
  lock_take, wake, de_queue, count_down, unlock_take, Reach,
}
use practice_project.ThreadPool.Sock.Wakeups.{
  OwnerHolds, Reach-OwnerHolds, pending, pending-holds, Reach-Awake,
}
use practice_project.ThreadPool.Sock.Invariant.{holds, Reach-Inv}

-- A sequence of steps, in which no wait ends without a broadcast.
pub data Steps : State → State → Type 0 where
  here : {s : State} → Steps s s
  next : {s t u : State} (i : ℕ) → Step s i t → Steps t u → Steps s u

Steps-trans : {s t u : State} → Steps s t → Steps t u → Steps s u
Steps-trans here q = q
Steps-trans (next i st p) q = next i st (Steps-trans p q)

at_thread_self : {A : Type 0} (f : ℕ → A) (i : ℕ) (a : A) → at_thread f i a i ≡ a
at_thread_self f i a = ground arith

-- A thread at `taking` can run the first task that waits.
run_first :
    (s : State) (i t : ℕ) (rest : List ℕ)
    → s.pc i ≡ taking
    → s.queue ≡ t ∷ rest
    → (s' : State) × Steps s s' × (s'.pc i ≡ running t)
run_first s i t rest at e = (
  _,
  next i (process_task (de_queue t rest at e)) (
      next i (process_task (count_down t (at_thread_self s.pc i (took t)))) (
        next i
          (process_task (unlock_take t (at_thread_self (at_thread s.pc i (took t)) i (dropped t))))
          here)),
  at_thread_self (at_thread (at_thread s.pc i (took t)) i (dropped t)) i (running t),
)

-- A thread that has no task: between two rounds of the loop, or in `pthread_cond_wait`.
abbrev pub IsIdle : Pc → Type 0
IsIdle p = (p ≡ outside) ⊎ (p ≡ waiting) ⊎ (p ≡ woken)

-- One that needs no broadcast.
abbrev IsReady : Pc → Type 0
IsReady p = (p ≡ outside) ⊎ (p ≡ woken)

-- When the mutex is free, a thread of the pool that is ready can run the first task.
ready_runs :
    (s : State) (i t : ℕ) (rest : List ℕ)
    → i < s.workers
    → s.owner ≡ none
    → IsReady (s.pc i)
    → s.queue ≡ t ∷ rest
    → (s' : State) × Steps s s' × (s'.pc i ≡ running t)
ready_runs s i t rest worker free (inl at) e =
    let s1 : State = record s { owner = some i; pc = at_thread s.pc i taking } in
    let (s', steps, runs) = run_first s1 i t rest (at_thread_self s.pc i taking) e in
    (s', next i (process_task (lock_take worker at free)) steps, runs)
ready_runs s i t rest worker free (inr at) e =
    let s1 : State = record s { owner = some i; pc = at_thread s.pc i taking } in
    let (s', steps, runs) = run_first s1 i t rest (at_thread_self s.pc i taking) e in
    (s', next i (process_task (wake at free)) steps, runs)

-- Where the owner can get to: it runs the first task, or the mutex is free, the task is still the
-- first one, and another thread, if it is ready or the owner has still to broadcast, is ready.
data Released (s : State) (j k t : ℕ) : Type 0 where
  runs : (s' : State) → Steps s s' → s'.pc j ≡ running t → Released s j k t
  free :
      (s' : State) (rest : List ℕ)
      → Steps s s'
      → s'.owner ≡ none
      → s'.workers ≡ s.workers
      → s'.queue ≡ t ∷ rest
      → IsReady (s'.pc k)
      → Released s j k t

-- After the broadcast a thread that was idle is ready.
IsReady-after :
    (pc : ℕ → Pc) (j k : ℕ) (p : Pc)
    → j ≢ k
    → IsIdle (pc k)
    → IsReady (at_thread (at_thread (λ i. wake_up (pc i)) j told) j p k)
IsReady-after pc j k p ne (inl out) = inl (ground arith)
IsReady-after pc j k p ne (inr (inl wt)) = inr (ground arith)
IsReady-after pc j k p ne (inr (inr wk)) = inr (ground arith)

-- Other steps of the owner leave it as it is.
IsReady-still :
    (pc : ℕ → Pc) (j k : ℕ) (p : Pc) → j ≢ k → IsReady (pc k) → IsReady (at_thread pc j p k)
IsReady-still pc j k p ne (inl out) = inl (ground arith)
IsReady-still pc j k p ne (inr wk) = inr (ground arith)

IsIdle-still :
    (pc : ℕ → Pc) (j k : ℕ) (p : Pc) → j ≢ k → IsIdle (pc k) → IsIdle (at_thread pc j p k)
IsIdle-still pc j k p ne (inl out) = inl (ground arith)
IsIdle-still pc j k p ne (inr (inl wt)) = inr (inl (ground arith))
IsIdle-still pc j k p ne (inr (inr wk)) = inr (inr (ground arith))

from_counted :
    (s : State) (j k t : ℕ) (rest : List ℕ)
    → s.pc j ≡ counted
    → j ≢ k
    → IsIdle (s.pc k)
    → s.queue ≡ t ∷ rest
    → Released s j k t
from_counted s j k t rest at ne idle e =
    free _ rest
      (next j (add_task (broadcast at))
        (next j (add_task (unlock_add (at_thread_self (λ i. wake_up (s.pc i)) j told))) here))
      refl refl e (IsReady-after s.pc j k outside ne idle)

-- The first steps of an owner that still has to broadcast.
before :
    {s s1 : State} {j k t : ℕ}
    → Steps s s1
    → s1.workers ≡ s.workers
    → Released s1 j k t
    → Released s j k t
before first same (runs s' steps r) = runs s' (Steps-trans first steps) r
before first same (free s' rest steps o w q ready) =
    free s' rest (Steps-trans first steps) o (w ∙ same) q ready

from_queued :
    (s : State) (j k t : ℕ) (rest : List ℕ)
    → s.pc j ≡ queued
    → j ≢ k
    → IsIdle (s.pc k)
    → s.queue ≡ t ∷ rest
    → Released s j k t
from_queued s j k t rest at ne idle e = before (next j (add_task (count_up at)) here) refl (
    from_counted _ j k t rest (at_thread_self s.pc j counted) ne
      (IsIdle-still s.pc j k counted ne idle) e)

from_adding :
    (s : State) (j k t u : ℕ) (rest : List ℕ)
    → s.pc j ≡ adding u
    → j ≢ k
    → IsIdle (s.pc k)
    → s.queue ≡ t ∷ rest
    → Released s j k t
from_adding s j k t u rest at ne idle e = before (next j (add_task (en_queue u at)) here) refl (
    from_queued _ j k t (rest ++ u ∷ []) (at_thread_self s.pc j queued) ne
      (IsIdle-still s.pc j k queued ne idle) (ap (λ q. q ++ u ∷ []) e))

release_at :
    (s : State) (j k t : ℕ) (rest : List ℕ) (p : Pc)
    → s.pc j ≡ p
    → holds p ≡ true
    → j ≢ k
    → IsIdle (s.pc k)
    → (pending p ≡ false → IsReady (s.pc k))
    → s.queue ≡ t ∷ rest
    → Released s j k t
release_at s j k t rest outside at h ne idle ready e = absurd (ground arith)
release_at s j k t rest (adding u) at h ne idle ready e = from_adding s j k t u rest at ne idle e
release_at s j k t rest queued at h ne idle ready e = from_queued s j k t rest at ne idle e
release_at s j k t rest counted at h ne idle ready e = from_counted s j k t rest at ne idle e
release_at s j k t rest told at h ne idle ready e =
    free _ rest (next j (add_task (unlock_add at)) here) refl refl e
      (IsReady-still s.pc j k outside ne (ready refl))
release_at s j k t rest taking at h ne idle ready e =
    let (s', steps, r) = run_first s j t rest at e in runs s' steps r
release_at s j k t rest waiting at h ne idle ready e = absurd (ground arith)
release_at s j k t rest woken at h ne idle ready e = absurd (ground arith)
release_at s j k t rest (took u) at h ne idle ready e =
    free _ rest
      (next j (process_task (count_down u at))
        (next j (process_task (unlock_take u (at_thread_self s.pc j (dropped u)))) here))
      refl refl e
      (IsReady-still (at_thread s.pc j (dropped u)) j k (running u) ne
        (IsReady-still s.pc j k (dropped u) ne (ready refl)))
release_at s j k t rest (dropped u) at h ne idle ready e =
    free _ rest (next j (process_task (unlock_take u at)) here) refl refl e
      (IsReady-still s.pc j k (running u) ne (ready refl))
release_at s j k t rest (running u) at h ne idle ready e = absurd (ground arith)

-- While a task waits, a thread of the pool that is idle waits for a broadcast only if the owner of the
-- mutex has still to broadcast.
IsReady-unless :
    {s : State} (i : ℕ)
    → Reach s
    → IsIdle (s.pc i)
    → s.queue ≢ []
    → ((j : ℕ) → s.owner ≡ some j → pending (s.pc j) ≡ false)
    → IsReady (s.pc i)
IsReady-unless i r (inl out) some_in done = inl out
IsReady-unless i r (inr (inr wk)) some_in done = inr wk
IsReady-unless {s} i r (inr (inl wt)) some_in done = elim (Reach-Awake r i wt) [
  | inl none_in ↦ absurd (some_in none_in)
  | inr (j, to_come) ↦
      let mine : s.owner ≡ some j = (Reach-Inv r).owned j (pending-holds (s.pc j) to_come) in
      absurd (ground (arith, done j mine))
]

-- Whoever has the mutex, the first task gets to a thread.
served_from :
    (s : State) (i t : ℕ) (rest : List ℕ) (o : Option ℕ)
    → Reach s
    → i < s.workers
    → s.owner ≡ o
    → OwnerHolds s.pc o
    → IsIdle (s.pc i)
    → s.queue ≡ t ∷ rest
    → (s' : State) × (j : ℕ) × Steps s s' × (s'.pc j ≡ running t)
served_from s i t rest none r worker at v idle e =
    let ready =
      IsReady-unless i r idle (λ none_in. absurd (ground arith)) λ j mine. absurd (ground arith) in
    let (s', steps, done) = ready_runs s i t rest worker at ready e in (s', i, steps, done)
served_from s i t rest (some j) r worker at v idle e =
    let other : j ≢ i = λ same. elim idle [
      | inl out ↦ absurd (ground arith)
      | inr (inl wt) ↦ absurd (ground arith)
      | inr (inr wk) ↦ absurd (ground arith)
    ] in
    let ready : pending (s.pc j) ≡ false → IsReady (s.pc i) = λ not_pending.
      IsReady-unless i r idle (λ none_in. absurd (ground arith)) λ k mine. ground arith in
    elim (release_at s j i t rest (s.pc j) refl v other idle ready e) [
      | runs s' steps done ↦ (s', j, steps, done)
      | free s1 rest' steps free' same e' ready' ↦
          let worker' : i < s1.workers = omega (arith, worker, same) in
          let (s', steps', done) = ready_runs s1 i t rest' worker' free' ready' e' in
          (s', i, Steps-trans steps steps', done)
    ]

-- In every state that the threads of a pool can reach and in which a task waits, if some thread of the
-- pool has no task, be it that it waits for the condition, then whoever has the mutex and whatever it
-- does with it, the threads can go on, without any wake-up that no broadcast causes, to a state in
-- which one of them runs the task that waits longest.
pub Reach-served :
    {s : State} {t : ℕ} {rest : List ℕ}
    → Reach s
    → (i : ℕ) → i < s.workers
    → IsIdle (s.pc i)
    → s.queue ≡ t ∷ rest
    → (s' : State) × (j : ℕ) × Steps s s' × (s'.pc j ≡ running t)
Reach-served {s} {t} {rest} r i worker idle e =
    served_from s i t rest s.owner r worker refl (Reach-OwnerHolds r) idle e
