-- ===== src/RateMonotonic/Starved.antt =====
-- A task of mp2.c with the shortest period that yields while it is the current one: what the timers,
-- the other tasks and the dispatcher do from then on.
use mathlib.Core.List.{append_assoc, append-nil}
use linux_kernel_development.Prelude.{
  ℕ, ◌<◌, ◌≡◌, refl, ap, ◌∙◌, sym, inl, inr, Bool-cases, Bool, ltb, ◌==◌, true, false, ==_iff,
}
use linux_kernel_development.Prelude.{some, Option-cases, List, [], ◌∷◌, ◌++◌}
use linux_kernel_development.RateMonotonic.Tasks.{
  Task, Distinct, find_addr-of_pid, find_pid, find_addr, update, KeepsNames, find_addr-addr,
  find_addr-update_self, find_addr-update_ne,
}
use linux_kernel_development.RateMonotonic.{
  ok, Scheduler, Kernel, Call, sched_setattr_nocheck, wake_up_process, wake_up_dispatcher,
  set_current_state, task_interruptible, task_uninterruptible, rearm, callback_loop, timer_callback,
  sleep_until_deadline, wake_at, yield, dispatch,
}
use linux_kernel_development.RateMonotonic.Timer.{rearm-KeepsNames}
use linux_kernel_development.RateMonotonic.Lost.{
  NoShorter, NoShorter-update, dispatch-NoShorter, sleep-KeepsNames, yield-early,
}

-- Yields, timers and rounds of the dispatcher, in any order.
pub data Waits (k : Kernel) (s : Scheduler) : Scheduler → Type 0 where
  now : Waits k s s
  then_yields :
      (jiffies jiffies' pid : ℕ) (t : Scheduler)
      → Waits k s t
      → Waits k s (yield jiffies jiffies' pid t).1
  then_expires :
      (addr : ℕ) (t u : Scheduler) → Waits k s t → timer_callback k addr t ≡ ok u → Waits k s u
  then_dispatches : (t u : Scheduler) → Waits k s t → dispatch t ≡ ok u → Waits k s u

-- Whether one of the calls wakes a process or changes its scheduling.
abbrev pub raises : List Call → Bool
raises [] = false
raises (wake_up_process task ∷ cs) = true
raises (sched_setattr_nocheck task policy priority ∷ cs) = true
raises (wake_up_dispatcher ∷ cs) = raises cs
raises (set_current_state state ∷ cs) = raises cs

raises-append : (cs ds : List Call) → raises cs ≡ false → raises (cs ++ ds) ≡ raises ds
raises-append [] ds quiet = refl
raises-append (wake_up_process task ∷ cs) ds quiet = cc
raises-append (sched_setattr_nocheck task policy priority ∷ cs) ds quiet = cc
raises-append (wake_up_dispatcher ∷ cs) ds quiet = raises-append cs ds quiet
raises-append (set_current_state state ∷ cs) ds quiet = raises-append cs ds quiet

-- The task at an address has this period, and no task a shorter one.
abbrev Shortest : ℕ → ℕ → List Task → Type 0
Shortest a p ts = (c : Task) × (find_addr a ts ≡ some c) × (c.period ≡ p) × NoShorter p ts

Shortest-update :
    (f : Task → Task) (a p b : ℕ) (ts : List Task)
    → KeepsNames f
    → ((t : Task) → (f t).period ≡ t.period)
    → Shortest a p ts
    → Shortest a p (update b f ts)
Shortest-update f a p b ts keeps same (c, found, period, least) =
    let least' = NoShorter-update f b p ts same least in
    elim (Bool-cases (a == b)) [
      | inl itself ↦
          let at : a ≡ b = (==_iff a b).0 itself in
          (f c, rw (← at) (find_addr-update_self f keeps a ts c found), same c ∙ period, least')
      | inr there ↦ (c, find_addr-update_ne f keeps a b ts there ∙ found, period, least')
    ]

-- The task at the address is the current one, with the shortest period, and since the log was `start`
-- no call has woken a process or changed its scheduling.
abbrev Stuck : ℕ → ℕ → List Call → Scheduler → Type 0
Stuck a p start s =
    (s.curr_task ≡ some a)
    × Shortest a p s.tasks
    × ((cs : List Call) × (s.log ≡ start ++ cs) × (raises cs ≡ false))

logged :
    (start log : List Call) (c : Call)
    → raises (c ∷ []) ≡ false
    → ((cs : List Call) × (log ≡ start ++ cs) × (raises cs ≡ false))
    → (cs : List Call) × (log ++ c ∷ [] ≡ start ++ cs) × (raises cs ≡ false)
logged start log c harmless (cs, e, quiet) = (
  cs ++ c ∷ [],
  ap (λ xs. xs ++ c ∷ []) e ∙ append_assoc start cs (c ∷ []),
  raises-append cs (c ∷ []) quiet ∙ harmless,
)

sleep-period : (t : Task) → (sleep_until_deadline t).period ≡ t.period
unfolding sleep_until_deadline
sleep-period t = refl

wake-KeepsNames : (jiffies : ℕ) → KeepsNames (wake_at jiffies)
unfolding wake_at
wake-KeepsNames jiffies = record { same_addr = λ t. refl; same_pid = λ t. refl }

yield-Stuck :
    (a p : ℕ) (start : List Call) (jiffies jiffies' pid : ℕ) (s : Scheduler)
    → Stuck a p start s
    → Stuck a p start (yield jiffies jiffies' pid s).1
unfolding yield sleep_until_deadline wake_at
yield-Stuck a p start jiffies jiffies' pid s (own, shortest, calls) =
    elim (Option-cases (find_pid pid s.tasks)) [
      | inl absent ↦ rw (absent, yield) (own, shortest, calls)
      | inr (t, found) ↦ elim (Bool-cases (ltb jiffies t.deadline_jiff)) [
        | inl early ↦
            rw (found, yield)
              (rw early (
                own,
                Shortest-update sleep_until_deadline a p t.addr s.tasks sleep-KeepsNames (λ x. refl)
                    shortest,
                logged start s.log (set_current_state task_uninterruptible) refl calls,
              ))
        | inr late ↦
            rw (found, yield)
              (rw late (
                own,
                Shortest-update (wake_at jiffies') a p t.addr s.tasks (wake-KeepsNames jiffies')
                    (λ x. refl) shortest,
                calls,
              ))
      ]
    ]

module _ (k : Kernel) (a p : ℕ) (start : List Call) where
  callback_loop-Shortest :
      (addr pid : ℕ) (ts tasks : List Task)
      → Shortest a p tasks
      → Shortest a p (callback_loop k addr pid ts tasks)
  unfolding callback_loop rearm
  callback_loop-Shortest addr pid [] tasks shortest = shortest
  callback_loop-Shortest addr pid (t ∷ ts) tasks shortest = elim (Bool-cases (t.pid == pid)) [
    | inl this ↦ rw this (
        callback_loop-Shortest addr pid ts (update addr (rearm k) tasks)
          (Shortest-update (rearm k) a p addr tasks (rearm-KeepsNames k) (λ x. refl) shortest))
    | inr other ↦ rw other (callback_loop-Shortest addr pid ts tasks shortest)
  ]

  timer_callback-Stuck :
      (addr : ℕ) (s s' : Scheduler)
      → timer_callback k addr s ≡ ok s'
      → Stuck a p start s
      → Stuck a p start s'
  unfolding timer_callback
  timer_callback-Stuck addr s s' returned (own, shortest, calls) =
      elim (Option-cases (find_addr addr s.tasks)) [
        | inl gone ↦ let faulted = rw (gone, timer_callback) at returned in cc
        | inr (c, found) ↦
            let after : Scheduler = record s {
              tasks = callback_loop k addr c.pid s.tasks s.tasks;
              log = s.log ++ wake_up_dispatcher ∷ [];
            } in
            let done : ok after ≡ ok s' = rw (found, timer_callback) at returned in
            let same : after ≡ s' = cc in
            rw (← same) (
              own,
              callback_loop-Shortest addr c.pid s.tasks s.tasks shortest,
              logged start s.log wake_up_dispatcher refl calls,
            )
      ]

  dispatch-Stuck : (s s' : Scheduler) → dispatch s ≡ ok s' → Stuck a p start s → Stuck a p start s'
  dispatch-Stuck s s' returned (own, (c, found, period, least), calls) =
      let at : c.addr ≡ a = find_addr-addr a s.tasks c found in
      let own' : s.curr_task ≡ some c.addr = rw at own in
      let found' : find_addr c.addr s.tasks ≡ some c =
        ap (λ (b : ℕ). find_addr b s.tasks) at ∙ found in
      let least' : NoShorter c.period s.tasks = rw period least in
      let stays = dispatch-NoShorter s c own' found' least' in
      let after : Scheduler = record s {
        log = s.log ++ set_current_state task_interruptible ∷ [];
      } in
      let same : after ≡ s' = cc in
      rw (← same) (
        own,
        (c, found, period, least),
        logged start s.log (set_current_state task_interruptible) refl calls,
      )

  Waits-Stuck : (s s' : Scheduler) → Waits k s s' → Stuck a p start s → Stuck a p start s'
  Waits-Stuck s s' now stuck = stuck
  Waits-Stuck s s' (then_yields jiffies jiffies' pid t waits) stuck =
      yield-Stuck a p start jiffies jiffies' pid t (Waits-Stuck s t waits stuck)
  Waits-Stuck s s' (then_expires addr t _ waits returned) stuck =
      timer_callback-Stuck addr t s' returned (Waits-Stuck s t waits stuck)
  Waits-Stuck s s' (then_dispatches t _ waits returned) stuck =
      dispatch-Stuck t s' returned (Waits-Stuck s t waits stuck)

-- The current task yields before its deadline in a list of distinct tasks, none of which has a
-- shorter period. However yields, expiring timers and rounds of the dispatcher follow, it has put
-- itself to sleep, it stays the current task, and no call since has woken any process or changed
-- the scheduling of one.
pub yield-never_woken :
    (k : Kernel) (s s' : Scheduler) (c : Task) (jiffies jiffies' : ℕ)
    → Distinct s.tasks
    → find_pid c.pid s.tasks ≡ some c
    → s.curr_task ≡ some c.addr
    → NoShorter c.period s.tasks
    → jiffies < c.deadline_jiff
    → Waits k (yield jiffies jiffies' c.pid s).1 s'
    → (s'.curr_task ≡ some c.addr)
      × ((cs : List Call) × (s'.log ≡ (s.log ++ set_current_state task_uninterruptible ∷ []) ++ cs)
          × (raises cs ≡ false))
yield-never_woken k s s' c jiffies jiffies' distinct found own least early waits =
    let slept : List Call = s.log ++ set_current_state task_uninterruptible ∷ [] in
    let shortest : Shortest c.addr c.period s.tasks =
      (c, find_addr-of_pid c.pid s.tasks c distinct found, refl, least) in
    let asleep : Stuck c.addr c.period slept (yield jiffies jiffies' c.pid s).1 =
      rw (yield-early s c jiffies jiffies' found early) (
        own,
        Shortest-update sleep_until_deadline c.addr c.period c.addr s.tasks sleep-KeepsNames
            sleep-period shortest,
        ([], sym (append-nil slept), refl),
      ) in
    let stuck = Waits-Stuck k c.addr c.period slept _ s' waits asleep in (stuck.0, stuck.2)
