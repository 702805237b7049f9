-- ===== src/RateMonotonic/Sound.antt =====
-- The invariant of mp2.c, and that each of its functions keeps it: distinct nodes, and only the
-- current task runs.
use linux_kernel_development.Prelude.{ℕ, ◌≡◌, refl, inl, inr, Bool-cases, ltb, ◌==◌}
use linux_kernel_development.Prelude.{Option, none, some, Option-cases, List, [], ◌∷◌, ◌++◌}
use linux_kernel_development.RateMonotonic.Tasks.{
  TaskState, ready, running, sleeping, Task, find_pid, find_addr, update, remove, Distinct,
  KeepsNames, update-Distinct, remove-Distinct, append-Distinct,
}
use linux_kernel_development.RateMonotonic.{
  ok, Scheduler, Kernel, enlist, yield, deregistration, rearm, callback_loop, timer_callback,
  wake_up_dispatcher, sleep_until_deadline, wake_at, new_proc,
}
use linux_kernel_development.RateMonotonic.Timer.{rearm-KeepsNames}
use linux_kernel_development.RateMonotonic.Lost.{sleep-KeepsNames}

-- Memory that the allocator hands out is no node of the list.
abbrev pub Fresh : Option ℕ → List Task → Type 0
Fresh none ts = Unit
Fresh (some addr) ts = find_addr addr ts ≡ none

-- A task at an address may run only if it is the current one.
abbrev pub MayBe : Option ℕ → ℕ → TaskState → Type 0
MayBe curr addr running = curr ≡ some addr
MayBe curr addr ready = Unit
MayBe curr addr sleeping = Unit

abbrev pub AllMayBe : Option ℕ → List Task → Type 0
AllMayBe curr [] = Unit
AllMayBe curr (t ∷ ts) = MayBe curr t.addr t.state × AllMayBe curr ts

-- Nodes and process ids are distinct, and no task but the current one runs.
pub record IsSound (s : Scheduler) : Type 0 where
  pub distinct : Distinct s.tasks
  pub may_be : AllMayBe s.curr_task s.tasks

AllMayBe-update :
    (curr : Option ℕ) (f : Task → Task) (a : ℕ) (ts : List Task)
    → ((t : Task) → MayBe curr t.addr t.state → MayBe curr (f t).addr (f t).state)
    → AllMayBe curr ts
    → AllMayBe curr (update a f ts)
AllMayBe-update curr f a [] keeps all = tt
AllMayBe-update curr f a (t ∷ ts) keeps all = elim (Bool-cases (t.addr == a)) [
  | inl own ↦ rw own (keeps t all.0, AllMayBe-update curr f a ts keeps all.1)
  | inr other ↦ rw other (all.0, AllMayBe-update curr f a ts keeps all.1)
]

AllMayBe-remove :
    (curr : Option ℕ) (p : ℕ) (ts : List Task) → AllMayBe curr ts → AllMayBe curr (remove p ts)
AllMayBe-remove curr p [] all = tt
AllMayBe-remove curr p (t ∷ ts) all = elim (Bool-cases (t.pid == p)) [
  | inl own ↦ rw own all.1
  | inr other ↦ rw other (all.0, AllMayBe-remove curr p ts all.1)
]

AllMayBe-append :
    (curr : Option ℕ) (ts : List Task) (t : Task)
    → AllMayBe curr ts
    → MayBe curr t.addr t.state
    → AllMayBe curr (ts ++ t ∷ [])
AllMayBe-append curr [] t all may = (may, tt)
AllMayBe-append curr (x ∷ ts) t all may = (all.0, AllMayBe-append curr ts t all.1 may)

pub enlist-IsSound :
    (k : Kernel) (alloc : Option ℕ) (jiffies pid period processing_time : ℕ) (s : Scheduler)
    → Fresh alloc s.tasks
    → IsSound s
    → IsSound (enlist k alloc jiffies pid period processing_time s).1
unfolding enlist new_proc
enlist-IsSound k none jiffies pid period c s fresh sound =
    elim (Option-cases (find_pid pid s.tasks)) [
      | inl absent ↦ rw (absent, enlist) sound
      | inr (t, found) ↦ rw (found, enlist) sound
    ]
enlist-IsSound k (some addr) jiffies pid period c s fresh sound =
    elim (Option-cases (find_pid pid s.tasks)) [
      | inr (t, found) ↦ rw (found, enlist) sound
      | inl absent ↦ elim (Bool-cases (k.find_task_by_pid pid == 0)) [
        | inl unknown ↦
            rw (absent, enlist)
              (rw unknown record { distinct = sound.distinct; may_be = sound.may_be })
        | inr known ↦
            rw (absent, enlist)
              (rw known record {
                distinct =
                    append-Distinct s.tasks (new_proc k addr jiffies pid period c) sound.distinct
                      fresh absent;
                may_be =
                    AllMayBe-append s.curr_task s.tasks (new_proc k addr jiffies pid period c)
                      sound.may_be tt;
              })
      ]
    ]

wake_at-KeepsNames : (jiffies : ℕ) → KeepsNames (wake_at jiffies)
unfolding wake_at
wake_at-KeepsNames jiffies = record { same_addr = λ t. refl; same_pid = λ t. refl }

pub yield-IsSound :
    (jiffies jiffies' pid : ℕ) (s : Scheduler)
    → IsSound s
    → IsSound (yield jiffies jiffies' pid s).1
unfolding yield sleep_until_deadline wake_at
yield-IsSound jiffies jiffies' pid s sound = elim (Option-cases (find_pid pid s.tasks)) [
  | inl absent ↦ rw (absent, yield) sound
  | inr (t, found) ↦ elim (Bool-cases (ltb jiffies t.deadline_jiff)) [
    | inl early ↦
        rw (found, yield)
          (rw early record {
            distinct =
                update-Distinct sleep_until_deadline sleep-KeepsNames t.addr s.tasks sound.distinct;
            may_be =
                AllMayBe-update s.curr_task sleep_until_deadline t.addr s.tasks (λ x may. tt)
                  sound.may_be;
          })
    | inr late ↦
        rw (found, yield)
          (rw late record {
            distinct =
                update-Distinct (wake_at jiffies') (wake_at-KeepsNames jiffies') t.addr s.tasks
                  sound.distinct;
            may_be =
                AllMayBe-update s.curr_task (wake_at jiffies') t.addr s.tasks (λ x may. may)
                  sound.may_be;
          })
  ]
]

pub deregistration-IsSound :
    (pid : ℕ) (s : Scheduler) → IsSound s → IsSound (deregistration pid s).1
unfolding deregistration
deregistration-IsSound pid s sound = elim (Option-cases (find_pid pid s.tasks)) [
  | inl absent ↦ rw (absent, deregistration) sound
  | inr (t, found) ↦
      rw (found, deregistration)
        record {
          distinct = remove-Distinct pid s.tasks sound.distinct;
          may_be = AllMayBe-remove s.curr_task pid s.tasks sound.may_be;
        }
]

module _ (k : Kernel) where
  callback_loop-keeps :
      (curr : Option ℕ) (addr pid : ℕ) (ts tasks : List Task)
      → Distinct tasks
      → AllMayBe curr tasks
      → Distinct (callback_loop k addr pid ts tasks)
        × AllMayBe curr (callback_loop k addr pid ts tasks)
  unfolding callback_loop rearm
  callback_loop-keeps curr addr pid [] tasks distinct may = (distinct, may)
  callback_loop-keeps curr addr pid (t ∷ ts) tasks distinct may = elim (Bool-cases (t.pid == pid)) [
    | inl own ↦ rw own (
        callback_loop-keeps curr addr pid ts (update addr (rearm k) tasks)
          (update-Distinct (rearm k) (rearm-KeepsNames k) addr tasks distinct)
          (AllMayBe-update curr (rearm k) addr tasks (λ x may'. tt) may))
    | inr other ↦ rw other (callback_loop-keeps curr addr pid ts tasks distinct may)
  ]

  pub timer_callback-IsSound :
      (addr : ℕ) (s s' : Scheduler) → timer_callback k addr s ≡ ok s' → IsSound s → IsSound s'
  unfolding timer_callback
  timer_callback-IsSound addr s s' returned sound = elim (Option-cases (find_addr addr s.tasks)) [
    | inl gone ↦ let fails = rw (gone, timer_callback) at returned in cc
    | inr (c, found) ↦
        let done = rw (found, timer_callback) at returned in
        let (distinct, may) =
          callback_loop-keeps s.curr_task addr c.pid s.tasks s.tasks sound.distinct sound.may_be in
        let final : record s {
          tasks = callback_loop k addr c.pid s.tasks s.tasks;
          log = s.log ++ wake_up_dispatcher ∷ [];
        }
            ≡ s' =
          cc in
        rw (← final) record { distinct = distinct; may_be = may }
  ]
