-- ===== src/ThreadPool/Sock/Wakeups.antt =====
-- Who holds the mutex, and which broadcasts are still to come.
use practice_project.Prelude.{
  ℕ, ◌≡◌, ◌≢◌, refl, ◌⊎◌, inl, inr, List, [], ◌∷◌, ◌++◌, Option, none, some, Bool, true, false,
  arith,
}
use practice_project.ThreadPool.{at_thread}
use practice_project.ThreadPool.Sock.{
  Pc, outside, adding, queued, counted, told, taking, waiting, woken, wake_up, took, dropped,
  running, State, Step, add_task, process_task, lock_add, en_queue, count_up, broadcast, unlock_add,
  lock_take, wait, wake, de_queue, count_down, unlock_take, handled, Reach, start, later, spurious,
}
use practice_project.ThreadPool.Sock.Invariant.{holds, holds-wake_up}

-- The owner of the mutex stands between a lock and an unlock.
abbrev pub OwnerHolds : (ℕ → Pc) → Option ℕ → Type 0
OwnerHolds pc none = Unit
OwnerHolds pc (some j) = holds (pc j) ≡ true

OwnerHolds-at_thread :
    (pc : ℕ → Pc) (i : ℕ) (p : Pc) (o : Option ℕ)
    → holds p ≡ true
    → OwnerHolds pc o
    → OwnerHolds (at_thread pc i p) o
OwnerHolds-at_thread pc i p none h v = tt
OwnerHolds-at_thread pc i p (some k) h v = ground arith

-- A thread that runs a handler is not the owner.
OwnerHolds-handled :
    (pc : ℕ → Pc) (i t : ℕ) (o : Option ℕ)
    → pc i ≡ running t
    → OwnerHolds pc o
    → OwnerHolds (at_thread pc i outside) o
OwnerHolds-handled pc i t none at v = tt
OwnerHolds-handled pc i t (some k) at v = ground arith

-- A broadcast, and a wake-up without one.
OwnerHolds-broadcast :
    (pc : ℕ → Pc) (i : ℕ) (o : Option ℕ)
    → OwnerHolds pc o
    → OwnerHolds (at_thread (λ j. wake_up (pc j)) i told) o
OwnerHolds-broadcast pc i none v = tt
OwnerHolds-broadcast pc i (some k) v = ground (arith, holds-wake_up (pc k))

OwnerHolds-woken :
    (pc : ℕ → Pc) (i : ℕ) (o : Option ℕ)
    → pc i ≡ waiting
    → OwnerHolds pc o
    → OwnerHolds (at_thread pc i woken) o
OwnerHolds-woken pc i none at v = tt
OwnerHolds-woken pc i (some k) at v = ground arith

Step-OwnerHolds :
    {s : State} (i : ℕ) {t : State} → Step s i t → OwnerHolds s.pc s.owner → OwnerHolds t.pc t.owner
Step-OwnerHolds {s} i (add_task (lock_add t adder at free)) v = ground arith
Step-OwnerHolds {s} i (add_task (en_queue t at)) v =
    OwnerHolds-at_thread s.pc i queued s.owner refl v
Step-OwnerHolds {s} i (add_task (count_up at)) v =
    OwnerHolds-at_thread s.pc i counted s.owner refl v
Step-OwnerHolds {s} i (add_task (broadcast at)) v = OwnerHolds-broadcast s.pc i s.owner v
Step-OwnerHolds {s} i (add_task (unlock_add at)) v = tt
Step-OwnerHolds {s} i (process_task (lock_take worker at free)) v = ground arith
Step-OwnerHolds {s} i (process_task (wait at e)) v = tt
Step-OwnerHolds {s} i (process_task (wake at free)) v = ground arith
Step-OwnerHolds {s} i (process_task (de_queue t rest at e)) v =
    OwnerHolds-at_thread s.pc i (took t) s.owner refl v
Step-OwnerHolds {s} i (process_task (count_down t at)) v =
    OwnerHolds-at_thread s.pc i (dropped t) s.owner refl v
Step-OwnerHolds {s} i (process_task (unlock_take t at)) v = tt
Step-OwnerHolds {s} i (process_task (handled t at)) v = OwnerHolds-handled s.pc i t s.owner at v

pub Reach-OwnerHolds : {s : State} → Reach s → OwnerHolds s.pc s.owner
Reach-OwnerHolds (start workers) = tt
Reach-OwnerHolds (later i r st) = Step-OwnerHolds i st (Reach-OwnerHolds r)
Reach-OwnerHolds (spurious {s} i r at) = OwnerHolds-woken s.pc i s.owner at (Reach-OwnerHolds r)

-- A thread that has queued a task and not broadcast yet.
abbrev pub pending : Pc → Bool
pending queued = true
pending counted = true
pending p = false

-- If a thread waits for a broadcast, there is no task, or a broadcast is to come.
abbrev pub Awake : (ℕ → Pc) → List ℕ → Type 0
Awake pc queue = (k : ℕ) → pc k ≡ waiting → (queue ≡ []) ⊎ ((j : ℕ) × (pending (pc j) ≡ true))

Awake-at_thread :
    (pc : ℕ → Pc) (queue : List ℕ) (i : ℕ) (p : Pc)
    → pending (pc i) ≡ false
    → p ≢ waiting
    → Awake pc queue
    → Awake (at_thread pc i p) queue
Awake-at_thread pc queue i p other not_waiting v k at =
    let there : pc k ≡ waiting = ground arith in
    elim (v k there) [ inl none_in ↦ inl none_in | inr (j, to_come) ↦ inr (j, ground arith) ]

-- A thread that has just queued a task.
Awake-pending :
    (pc : ℕ → Pc) (queue : List ℕ) (i : ℕ) (p : Pc)
    → pending p ≡ true
    → Awake (at_thread pc i p) queue
Awake-pending pc queue i p to_come k at = inr (i, ground arith)

pub pending-holds : (p : Pc) → pending p ≡ true → holds p ≡ true
pending-holds queued to_come = refl
pending-holds counted to_come = refl
pending-holds outside to_come = absurd (ground arith)
pending-holds (adding t) to_come = refl
pending-holds told to_come = refl
pending-holds taking to_come = refl
pending-holds waiting to_come = absurd (ground arith)
pending-holds woken to_come = absurd (ground arith)
pending-holds (took t) to_come = refl
pending-holds (dropped t) to_come = refl
pending-holds (running t) to_come = absurd (ground arith)

not_waiting : (p : Pc) → wake_up p ≢ waiting
not_waiting outside e = absurd (ground arith)
not_waiting (adding t) e = absurd (ground arith)
not_waiting queued e = absurd (ground arith)
not_waiting counted e = absurd (ground arith)
not_waiting told e = absurd (ground arith)
not_waiting taking e = absurd (ground arith)
not_waiting waiting e = absurd (ground arith)
not_waiting woken e = absurd (ground arith)
not_waiting (took t) e = absurd (ground arith)
not_waiting (dropped t) e = absurd (ground arith)
not_waiting (running t) e = absurd (ground arith)

Step-Awake : {s : State} (i : ℕ) {t : State} → Step s i t → Awake s.pc s.queue → Awake t.pc t.queue
Step-Awake {s} i (add_task (lock_add t adder at free)) v =
    Awake-at_thread s.pc s.queue i (adding t) (ground arith) (λ e. absurd (ground arith)) v
Step-Awake {s} i (add_task (en_queue t at)) v = Awake-pending s.pc (s.queue ++ t ∷ []) i queued refl
Step-Awake {s} i (add_task (count_up at)) v = Awake-pending s.pc s.queue i counted refl
Step-Awake {s} i (add_task (broadcast at)) v = λ k w. absurd (ground (arith, not_waiting (s.pc k)))
Step-Awake {s} i (add_task (unlock_add at)) v =
    Awake-at_thread s.pc s.queue i outside (ground arith) (λ e. absurd (ground arith)) v
Step-Awake {s} i (process_task (lock_take worker at free)) v =
    Awake-at_thread s.pc s.queue i taking (ground arith) (λ e. absurd (ground arith)) v
Step-Awake {s} i (process_task (wait at e)) v = λ k w. inl e
Step-Awake {s} i (process_task (wake at free)) v =
    Awake-at_thread s.pc s.queue i taking (ground arith) (λ e. absurd (ground arith)) v
Step-Awake {s} i (process_task (de_queue t rest at e)) v =
    let w = Awake-at_thread s.pc s.queue i (took t) (ground arith) (λ e. absurd (ground arith)) v in
    λ k at'. elim (w k at') [ inl none_in ↦ absurd (ground arith) | inr to_come ↦ inr to_come ]
Step-Awake {s} i (process_task (count_down t at)) v =
    Awake-at_thread s.pc s.queue i (dropped t) (ground arith) (λ e. absurd (ground arith)) v
Step-Awake {s} i (process_task (unlock_take t at)) v =
    Awake-at_thread s.pc s.queue i (running t) (ground arith) (λ e. absurd (ground arith)) v
Step-Awake {s} i (process_task (handled t at)) v =
    Awake-at_thread s.pc s.queue i outside (ground arith) (λ e. absurd (ground arith)) v

pub Reach-Awake : {s : State} → Reach s → Awake s.pc s.queue
Reach-Awake (start workers) = λ k at. inl refl
Reach-Awake (later i r st) = Step-Awake i st (Reach-Awake r)
Reach-Awake (spurious {s} i r at) =
    Awake-at_thread s.pc s.queue i woken (ground arith) (λ e. absurd (ground arith)) (Reach-Awake r)
