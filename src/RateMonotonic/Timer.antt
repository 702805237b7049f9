-- ===== src/RateMonotonic/Timer.antt =====
-- The wake-up timer of mp2.c: what `mp2_timer_callback` does to the task whose timer expired.
use linux_kernel_development.Prelude.{ℕ, ◌≡◌, refl, inl, inr, arith, Bool-cases, ◌==◌}
use linux_kernel_development.Prelude.{none, some, List, [], ◌∷◌, ◌++◌}
use linux_kernel_development.RateMonotonic.Tasks.{
  Task, find_pid, update, Distinct, KeepsNames, find_addr-of_pid,
}
use linux_kernel_development.RateMonotonic.{
  ok, Scheduler, Kernel, wake_up_dispatcher, rearm, callback_loop, timer_callback,
}

module _ (k : Kernel) where
  pub rearm-KeepsNames : KeepsNames (rearm k)
  unfolding rearm
  rearm-KeepsNames = record { same_addr = λ t. refl; same_pid = λ t. refl }

  callback_loop-none :
      (addr pid : ℕ) (ts tasks : List Task)
      → find_pid pid ts ≡ none
      → callback_loop k addr pid ts tasks ≡ tasks
  unfolding callback_loop
  callback_loop-none addr pid [] tasks absent = refl
  callback_loop-none addr pid (t ∷ ts) tasks absent =
      ground (arith, callback_loop-none addr pid ts tasks)

  -- Process ids are distinct: the loop finds one entry.
  callback_loop-once :
      (addr pid : ℕ) (ts tasks : List Task) (t : Task)
      → Distinct ts
      → find_pid pid ts ≡ some t
      → callback_loop k addr pid ts tasks ≡ update addr (rearm k) tasks
  unfolding callback_loop
  callback_loop-once addr pid [] tasks t distinct found = cc
  callback_loop-once addr pid (x ∷ ts) tasks t distinct found = elim (Bool-cases (x.pid == pid)) [
    | inl here ↦
        let absent : find_pid pid ts ≡ none = ground (arith, distinct.1) in
        rw here (callback_loop-none addr pid ts (update addr (rearm k) tasks) absent)
    | inr there ↦
        let rest : find_pid pid ts ≡ some t = rw there at found in
        rw there (callback_loop-once addr pid ts tasks t distinct.2 rest)
  ]

  -- When a task's timer expires in a list of distinct tasks, the task becomes ready, its deadline and
  -- its timer move on by one period, no other task changes, and the dispatcher is woken.
  pub timer_callback_lem :
      (s : Scheduler) (c : Task)
      → Distinct s.tasks
      → find_pid c.pid s.tasks ≡ some c
      → timer_callback k c.addr s
        ≡ ok (record s {
          tasks = update c.addr (rearm k) s.tasks;
          log = s.log ++ wake_up_dispatcher ∷ [];
        })
  unfolding timer_callback
  timer_callback_lem s c distinct found =
      let there = find_addr-of_pid c.pid s.tasks c distinct found in
      rw (there, timer_callback)
        (rw (callback_loop-once c.addr c.pid s.tasks s.tasks c distinct found))
