-- ===== src/Tests/Scheduling.antt =====
-- The rate-monotonic scheduler at concrete task lists.
use linux_kernel_development.Prelude.{◌^◌}
use linux_kernel_development.RateMonotonic.{◌>>=◌}
use linux_kernel_development.Prelude.{
  ℕ, suc, ◌*◌, ◌≢◌, ◌+◌, ◌-◌, ◌<◌, ◌≤◌, ◌≡◌, ◌⊎◌, refl, arith, Option, none, some, [], ◌∷◌, ◌++◌,
}
use linux_kernel_development.Prelude.Words.{neg32}
use linux_kernel_development.RateMonotonic.Tasks.{
  TaskState, ready, running, sleeping, Task, find_addr, Distinct,
}
use linux_kernel_development.RateMonotonic.{
  ok, faults, out_of_bounds, use_after_free, Scheduler, Kernel, wake_up_dispatcher,
  set_current_state, sched_setattr_nocheck, sched_fifo, wake_up_process, task_interruptible,
  task_uninterruptible, initial, totals, admission_control, new_proc, enlist, registration,
  deregistration, yield, timer_callback, callback_loop, rearm, dispatch, current, round, choose,
  switch, switch_to, preempt, set_state,
}
use linux_kernel_development.RateMonotonic.Admission.{
  periods, processing_times, admission_control-Light, admission_control-overload,
}
use linux_kernel_development.RateMonotonic.Priority.{dispatch-shortest}
use linux_kernel_development.RateMonotonic.Registry.{
  deregistration-registration, registration-refused,
}
use linux_kernel_development.Sysctl.Decimal.{number, within, decimal, number-digits}
use linux_kernel_development.RateMonotonic.Command.{
  Parsers, Supplies, extended, write, register_message,
}
use linux_kernel_development.RateMonotonic.Status.{status_line, Buffer, read}
use linux_kernel_development.RateMonotonic.Listing.{read-overflow, read-third_misplaced}
use linux_kernel_development.Prelude.{get_elem?}
use linux_kernel_development.RateMonotonic.Messages.{ReadsNumbers, write-register_message}
use linux_kernel_development.RateMonotonic.Lost.{deregistration-dispatch_faults}
use linux_kernel_development.RateMonotonic.Steps.{
  enlists, expires, dispatches, Reach, here, next, Reach-one_running,
}
use linux_kernel_development.RateMonotonic.Starved.{
  then_expires, then_dispatches, now, raises, yield-never_woken,
}
use linux_kernel_development.Prelude.{List, false}
use linux_kernel_development.RateMonotonic.{Call, sleep_until_deadline}

-- A jiffy is a millisecond, and a process is found for every id but 0.
abbrev kernel : Kernel
kernel = record { msecs_to_jiffies = λ ms. ms; find_task_by_pid = λ pid. pid }

abbrev task : ℕ → ℕ → ℕ → TaskState → Task
task addr pid period state = record {
  addr = addr;
  pid = pid;
  period = period;
  processing_time = 600;
  deadline_jiff = 5000;
  task = pid;
  timer = none;
  state = state;
}

-- 100 runs every second; 200, every two seconds, is ready.
abbrev busy : Scheduler
busy = record {
  tasks = task 0x10 100 1000 running ∷ task 0x20 200 2000 ready ∷ [];
  curr_task = some 0x10;
  allocated = 2;
  log = [];
}

-- 600 ms of every 2000 ms, beside a task with 600 ms of every 1000 ms.
admission_control-Light_example :
    admission_control (task 0x10 100 1000 running ∷ []) 2000 600 ≡ ok 0
admission_control-Light_example =
    admission_control-Light (task 0x10 100 1000 running ∷ []) 2000 600 (omega arith) (omega arith)
      (omega arith) (omega arith, tt) (omega arith)

-- Two tasks that need 600 ms of every second each.
admission_control-overload_example :
    (admission_control (task 0x10 100 1000 running ∷ []) 1000 600 ≡ ok 0)
    × (1000 < 600 + processing_times (task 0x10 100 1000 running ∷ []))
admission_control-overload_example =
    admission_control-overload (task 0x10 100 1000 running ∷ []) 1000 600 (refl, refl, tt)
      (omega arith) (omega arith) (omega arith) (omega arith) (omega arith)

busy-Distinct : Distinct busy.tasks
busy-Distinct = (refl, refl, (refl, refl, tt))

-- The running task has the shortest period, and keeps the processor.
busy_after : Scheduler
busy_after = record busy { log = set_current_state task_interruptible ∷ [] }

busy_dispatched : dispatch busy ≡ ok busy_after
unfolding dispatch current round choose switch busy_after
busy_dispatched = refl

dispatch-shortest_example :
    (c : Task) × (busy_after.curr_task ≡ some c.addr)
    × (find_addr c.addr busy_after.tasks ≡ some c)
    × (c.period ≤ 2000)
unfolding busy_after
dispatch-shortest_example =
    dispatch-shortest busy busy_after 1 (task 0x20 200 2000 ready) busy-Distinct busy_dispatched
      refl refl (omega arith)

deregistration-dispatch_faults_example :
    dispatch (deregistration 100 busy).1 ≡ faults use_after_free
deregistration-dispatch_faults_example =
    deregistration-dispatch_faults busy (task 0x10 100 1000 running) busy-Distinct refl refl

-- The running task yields, its timer expires, and the dispatcher runs.
abbrev woken_task : Task
woken_task = record (task 0x10 100 1000 ready) { deadline_jiff = 6000; timer = some 6000 }

abbrev expired : Scheduler
expired = record {
  tasks = woken_task ∷ task 0x20 200 2000 ready ∷ [];
  curr_task = some 0x10;
  allocated = 2;
  log = set_current_state task_uninterruptible ∷ wake_up_dispatcher ∷ [];
}

abbrev expired_after : Scheduler
expired_after = record expired {
  log =
      set_current_state task_uninterruptible
      ∷ wake_up_dispatcher
      ∷ set_current_state task_interruptible
      ∷ [];
}

busy_expires : timer_callback kernel 0x10 (yield 4000 4000 100 busy).1 ≡ ok expired
unfolding timer_callback callback_loop rearm yield sleep_until_deadline
busy_expires = refl

expired_dispatched : dispatch expired ≡ ok expired_after
unfolding dispatch current round choose switch
expired_dispatched = refl

yield-never_woken_example :
    (expired_after.curr_task ≡ some 0x10)
    × ((cs : List Call) × (expired_after.log
          ≡ ([] ++ set_current_state task_uninterruptible ∷ []) ++ cs)
        × (raises cs ≡ false))
yield-never_woken_example =
    yield-never_woken kernel busy expired_after (task 0x10 100 1000 running) 4000 4000 busy-Distinct
      refl refl (omega arith) (omega arith)
      (then_dispatches expired expired_after
        (then_expires 0x10 (yield 4000 4000 100 busy).1 expired now busy_expires)
        expired_dispatched)

-- The first process registers, its timer expires, and the dispatcher runs.
first : ℕ → Option ℕ → TaskState → Task
first deadline timer state = record {
  addr = 0x10;
  pid = 100;
  period = 1000;
  processing_time = 600;
  deadline_jiff = deadline;
  task = 100;
  timer = timer;
  state = state;
}

abbrev enlisted : Scheduler
enlisted = record {
  tasks = first 1000 none sleeping ∷ [];
  curr_task = none;
  allocated = 1;
  log = set_current_state task_uninterruptible ∷ [];
}

abbrev awake : Scheduler
awake = record {
  tasks = first 2000 (some 2000) ready ∷ [];
  curr_task = none;
  allocated = 1;
  log = set_current_state task_uninterruptible ∷ wake_up_dispatcher ∷ [];
}

abbrev dispatched : Scheduler
dispatched = record {
  tasks = first 2000 (some 2000) running ∷ [];
  curr_task = some 0x10;
  allocated = 1;
  log =
      set_current_state task_uninterruptible
      ∷ wake_up_dispatcher
      ∷ sched_setattr_nocheck 100 sched_fifo 99
      ∷ wake_up_process 100
      ∷ set_current_state task_interruptible
      ∷ [];
}

registered : registration kernel (some 0x10) 0 100 1000 600 initial ≡ ok (0, enlisted)
unfolding registration admission_control totals enlist new_proc initial first
registered = refl

dispatched_reached : Reach kernel initial dispatched
unfolding enlist new_proc initial first timer_callback callback_loop rearm dispatch current round
    choose switch preempt switch_to set_state
dispatched_reached =
    next
      (next (next here (enlists (some 0x10) 0 100 1000 600 initial enlisted refl refl))
        (expires 0x10 enlisted awake refl))
      (dispatches awake dispatched refl)

Reach-one_running_example : ◌≡◌ {A = ℕ} 0 0 × (dispatched.curr_task ≡ some 0x10)
unfolding first
Reach-one_running_example =
    Reach-one_running kernel dispatched 0 0 (first 2000 (some 2000) running)
      (first 2000 (some 2000) running) dispatched_reached refl refl refl refl

deregistration-registration_example :
    ((deregistration 100 enlisted).1.tasks ≡ [])
    × ((deregistration 100 enlisted).1.allocated ≡ 0)
    × ((deregistration 100 enlisted).1.curr_task ≡ none)
unfolding initial
deregistration-registration_example =
    deregistration-registration kernel 0x10 0 100 1000 600 initial enlisted refl registered

-- There is no process 0.
leaked :
    registration kernel (some 0x30) 0 0 1000 100 busy ≡ ok (neg32 1, record busy { allocated = 3 })
unfolding registration admission_control totals enlist
leaked = refl

abbrev object : Option ℕ
object = some 0x30

registration-refused_example :
    (busy.tasks ≡ busy.tasks)
    × (busy.curr_task ≡ busy.curr_task)
    × (busy.log ≡ busy.log)
    × (((694 * (1000 + periods busy.tasks) ≤ 1000 * (100 + processing_times busy.tasks))
          × (neg32 1 ≡ 1)
          × (3 ≡ busy.allocated))
        ⊎ ((1000 * (100 + processing_times busy.tasks) < 694 * (1000 + periods busy.tasks))
            × (neg32 1 ≡ neg32 1)
            × (((object ≡ none) × (3 ≡ busy.allocated))
                ⊎ ((object ≢ none) × (kernel.find_task_by_pid 0 ≡ 0) × (3 ≡ busy.allocated + 1)))))
registration-refused_example =
    registration-refused kernel object 0 0 1000 100 (neg32 1) busy (record busy { allocated = 3 })
      (omega arith) (omega arith) (omega arith) leaked (omega arith)

-- Parsers that read digits, for numbers that fit.
abbrev parsers : Parsers
parsers = record {
  kstrtoint = λ cs. within (2 ^ 31 - 1) (number 0 cs);
  kstrtoul = λ cs. within (2 ^ 64 - 1) (number 0 cs);
  einval = 22;
  efault = 14;
}

within-decimal : (limit n : ℕ) → n ≤ limit → within limit (number 0 (decimal n)) ≡ some n
within-decimal limit n le = rw (number-digits (suc n) n (omega arith)) (ground arith)

parsers-ReadsNumbers : ReadsNumbers parsers
parsers-ReadsNumbers = record {
  reads_int = λ n lt. within-decimal (2 ^ 31 - 1) n (omega arith);
  reads_ulong = λ n lt. within-decimal (2 ^ 64 - 1) n (omega arith);
}

abbrev supplies : Supplies
supplies = record { alloc = some 0x10; jiffies = 0; jiffies' = 0 }

write-register_message_example :
    write kernel parsers supplies 0 15 (some (register_message 100 1000 600)) initial
    ≡ (registration kernel (some 0x10) 0 100 1000 600 initial >>= extended)
write-register_message_example =
    write-register_message kernel parsers parsers-ReadsNumbers supplies 100 1000 600 15 initial
      (omega arith) (omega arith) (omega arith)

-- The lines of the tasks below have 15 bytes each.
read-overflow_example : read 0 20 0 busy ≡ faults out_of_bounds
unfolding status_line
read-overflow_example =
    read-overflow (task 0x10 100 1000 running) (task 0x20 200 2000 ready) [] 20 0 busy refl
      (omega arith) (omega arith)

abbrev crowded : Scheduler
crowded = record busy { tasks = busy.tasks ++ task 0x30 300 3000 sleeping ∷ [] }

read-third_misplaced_example :
    (out : Buffer) × (offp : ℕ) × (read 0 128 0 crowded ≡ ok (45, out, offp))
    × (get_elem? out 30 ≡ some (some 0))
unfolding status_line
read-third_misplaced_example =
    read-third_misplaced (task 0x10 100 1000 running) (task 0x20 200 2000 ready)
      (task 0x30 300 3000 sleeping) 128 crowded refl (omega arith) (omega arith)
