-- ===== src/RateMonotonic/Lost.antt =====
-- What goes wrong with `mp2_curr_task` of mp2.c: no function but the dispatcher ever changes it.
use mathlib.Core.List.{append_assoc}
use linux_kernel_development.Prelude.{
  ℕ, ◌≤◌, ◌<◌, ◌≡◌, refl, ap, inl, inr, arith, Bool-cases, ltb, ◌==◌, ◌&&◌, true, false, lt→ltb,
  ==_iff, ◌-◌,
}
use linux_kernel_development.Prelude.{Option, none, some, List, [], ◌∷◌, ◌++◌}
use linux_kernel_development.RateMonotonic.Tasks.{
  ready, Task, find_pid, find_addr, update, remove, Distinct, KeepsNames, find_addr-update_self,
  find_addr-of_pid, find_addr-remove, update-Distinct, find_pid-update_self,
}
use linux_kernel_development.RateMonotonic.{
  ok, faults, use_after_free, Scheduler, Kernel, wake_up_dispatcher, set_current_state,
  task_interruptible, task_uninterruptible, rearm, timer_callback, sleep_until_deadline, yield,
  deregistration, choose, current, switch, round, dispatch, is_ready,
}
use linux_kernel_development.RateMonotonic.Timer.{rearm-KeepsNames, timer_callback_lem}

current-found :
    (s : Scheduler) (c : Task)
    → s.curr_task ≡ some c.addr
    → find_addr c.addr s.tasks ≡ some c
    → current s ≡ ok (some c)
unfolding current
current-found s c own found = rw (own, current) (rw found)

current-freed :
    (s : Scheduler) (a : ℕ)
    → s.curr_task ≡ some a
    → find_addr a s.tasks ≡ none
    → current s ≡ faults use_after_free
unfolding current
current-freed s a own gone = rw (own, current) (rw gone)

-- The current task is freed, but `mp2_curr_task` still points to it: if the current task
-- deregisters, in a list of distinct tasks, the next round of the dispatcher reads freed memory.
pub deregistration-dispatch_faults :
    (s : Scheduler) (c : Task)
    → Distinct s.tasks
    → find_pid c.pid s.tasks ≡ some c
    → s.curr_task ≡ some c.addr
    → dispatch (deregistration c.pid s).1 ≡ faults use_after_free
unfolding dispatch deregistration
deregistration-dispatch_faults s c distinct found own =
    let gone = find_addr-remove c.pid s.tasks c distinct found in
    let s' : Scheduler = record s { tasks = remove c.pid s.tasks; allocated = s.allocated - 1 } in
    let after : (deregistration c.pid s).1 ≡ s' = rw (found, deregistration) in
    rw after (rw (current-freed s' c.addr own gone))

-- No task of the list has a shorter period.
abbrev pub NoShorter : ℕ → List Task → Type 0
NoShorter period [] = Unit
NoShorter period (t ∷ ts) = (period ≤ t.period) × NoShorter period ts

choose-NoShorter :
    (ts : List Task) (min : ℕ) (best : Option Task) → NoShorter min ts → choose ts min best ≡ best
unfolding choose
choose-NoShorter [] min best least = refl
choose-NoShorter (t ∷ ts) min best least =
    let worse : (is_ready t.state && ltb t.period min) ≡ false =
      elim (Bool-cases (is_ready t.state)) [ inl e ↦ rw e (ground arith) | inr e ↦ rw e ] in
    rw worse (choose-NoShorter ts min best least.1)

pub NoShorter-update :
    (f : Task → Task) (a period : ℕ) (ts : List Task)
    → ((t : Task) → (f t).period ≡ t.period)
    → NoShorter period ts
    → NoShorter period (update a f ts)
NoShorter-update f a period [] same least = tt
NoShorter-update f a period (t ∷ ts) same least =
    (ground (arith, same t), NoShorter-update f a period ts same least.1)

round-stays :
    (s : Scheduler) (c : Task)
    → s.curr_task ≡ some c.addr
    → choose s.tasks c.period (some c) ≡ some c
    → round (some c) s ≡ record s { log = s.log ++ set_current_state task_interruptible ∷ [] }
unfolding round switch
round-stays s c own chosen =
    let itself : (c.addr == c.addr) ≡ true = (==_iff c.addr c.addr).1 refl in
    rw chosen (rw own (rw itself))

-- A round leaves the current task in place if no task has a shorter period, whether it runs, sleeps
-- or is ready: nobody is woken.
pub dispatch-NoShorter :
    (s : Scheduler) (c : Task)
    → s.curr_task ≡ some c.addr
    → find_addr c.addr s.tasks ≡ some c
    → NoShorter c.period s.tasks
    → dispatch s ≡ ok (record s { log = s.log ++ set_current_state task_interruptible ∷ [] })
unfolding dispatch
dispatch-NoShorter s c own found least =
    rw (current-found s c own found)
      (ap ok (round-stays s c own (choose-NoShorter s.tasks c.period (some c) least)))

pub sleep-KeepsNames : KeepsNames sleep_until_deadline
unfolding sleep_until_deadline
sleep-KeepsNames = record { same_addr = λ t. refl; same_pid = λ t. refl }

pub yield-early :
    (s : Scheduler) (c : Task) (jiffies jiffies' : ℕ)
    → find_pid c.pid s.tasks ≡ some c
    → jiffies < c.deadline_jiff
    → (yield jiffies jiffies' c.pid s).1 ≡ record s {
      tasks = update c.addr sleep_until_deadline s.tasks;
      log = s.log ++ set_current_state task_uninterruptible ∷ [];
    }
unfolding yield
yield-early s c jiffies jiffies' found early =
    rw (found, yield) (rw (lt→ltb jiffies c.deadline_jiff early))

module _ (k : Kernel) where
  -- The states after the task slept, after its timer expired, and after the round that follows.
  after_sleep : Task → Scheduler → Scheduler
  after_sleep c s = record s {
    tasks = update c.addr sleep_until_deadline s.tasks;
    log = s.log ++ set_current_state task_uninterruptible ∷ [];
  }

  after_timer : Task → Scheduler → Scheduler
  after_timer c s =
      let s₁ = after_sleep c s in
      record s₁ {
        tasks = update c.addr (rearm k) s₁.tasks;
        log = s₁.log ++ wake_up_dispatcher ∷ [];
      }

  -- If the current task has the shortest period, in a list of distinct tasks: after it has yielded
  -- before its deadline, its timer has expired and the dispatcher has run once, it is ready, but no
  -- call has woken it or raised its priority.
  yield-dispatch_not_woken :
      (s : Scheduler) (c : Task) (jiffies jiffies' : ℕ)
      → Distinct s.tasks
      → find_pid c.pid s.tasks ≡ some c
      → s.curr_task ≡ some c.addr
      → NoShorter c.period s.tasks
      → jiffies < c.deadline_jiff
      → (s₂ : Scheduler) × (s₃ : Scheduler) × (c' : Task) × (timer_callback k c.addr
            (yield jiffies jiffies' c.pid s).1
          ≡ ok s₂)
        × (dispatch s₂ ≡ ok s₃)
        × (find_addr c.addr s₃.tasks ≡ some c')
        × (c'.state ≡ ready)
        × (s₃.log
            ≡ s.log
              ++ (set_current_state task_uninterruptible
                  ∷ wake_up_dispatcher
                  ∷ set_current_state task_interruptible
                  ∷ []))
  unfolding after_sleep after_timer rearm sleep_until_deadline
  yield-dispatch_not_woken s c jiffies jiffies' distinct found own least early =
      let there = find_addr-of_pid c.pid s.tasks c distinct found in
      let s₁ = after_sleep c s in
      let s₂ = after_timer c s in
      let asleep : find_pid c.pid s₁.tasks ≡ some (sleep_until_deadline c) =
        find_pid-update_self sleep_until_deadline sleep-KeepsNames c.addr c.pid s.tasks c distinct
          found there in
      let asleep' : find_addr c.addr s₁.tasks ≡ some (sleep_until_deadline c) =
        find_addr-update_self sleep_until_deadline sleep-KeepsNames c.addr s.tasks c there in
      let awake : find_addr c.addr s₂.tasks ≡ some (rearm k (sleep_until_deadline c)) =
        find_addr-update_self (rearm k) (rearm-KeepsNames k) c.addr s₁.tasks
          (sleep_until_deadline c) asleep' in
      let least' : NoShorter c.period s₂.tasks =
        NoShorter-update (rearm k) c.addr c.period s₁.tasks (λ t. refl)
          (NoShorter-update sleep_until_deadline c.addr c.period s.tasks (λ t. refl) least) in
      let distinct' =
        update-Distinct sleep_until_deadline sleep-KeepsNames c.addr s.tasks distinct in
      (
        s₂,
        record s₂ { log = s₂.log ++ set_current_state task_interruptible ∷ [] },
        rearm k (sleep_until_deadline c),
        rw (yield-early s c jiffies jiffies' found early)
            (timer_callback_lem k s₁ (sleep_until_deadline c) distinct' asleep),
        dispatch-NoShorter s₂ (rearm k (sleep_until_deadline c)) own awake least',
        awake,
        refl,
        simp append_assoc,
      )
