-- ===== src/RateMonotonic.antt =====
-- The rate-monotonic scheduler, a kernel module in C (rate-monotonic-scheduler/mp2.c). Each function
-- that takes the lock is one step on the module's state, with what it asks of the kernel in a log.
-- A number is the bit pattern of its C type. The kernel's functions are parameters: `kmem_cache_alloc`
-- is the address that it returns, and `jiffies` the value at each read.
pub mod Tasks
pub mod Admission
pub mod Choice
pub mod Dispatch
pub mod Priority
pub mod Timer
pub mod Lost
pub mod Starved
pub mod Registry
pub mod Sound
pub mod Preemption
pub mod Steps
pub mod Command
pub mod Messages
pub mod Status
pub mod Buffers
pub mod Listing
use linux_kernel_development.Prelude.{ℕ, ◌+◌, ◌-◌, ◌*◌, ◌/◌, ◌%◌, ◌^◌}
use linux_kernel_development.Prelude.{ltb, leb, ◌==◌, if◌then◌else◌, Bool, true, false, not, ◌&&◌}
use linux_kernel_development.Prelude.{Option, none, some, List, [], ◌∷◌, ◌++◌, length}
use linux_kernel_development.Prelude.Words.{as_u32, as_u64, neg32}
use linux_kernel_development.RateMonotonic.Tasks.{
  TaskState, ready, running, sleeping, Task, find_pid, find_addr, update, remove,
}

-- What ends a function of the kernel for good.
pub data Fault : Type 0 where
  divide_error use_after_free out_of_bounds uninitialized_read invalid_free : Fault

pub data Checked (A : Type 0) : Type 0 where
  ok : A → Checked A
  faults : Fault → Checked A

infixl 5 ◌>>=◌
abbrev pub ◌>>=◌ : {A B : Type 0} → Checked A → (A → Checked B) → Checked B
ok a >>= f = f a
faults e >>= f = faults e

pub data Policy : Type 0 where
  sched_normal sched_fifo : Policy

pub data SleepState : Type 0 where
  task_interruptible task_uninterruptible : SleepState

-- The calls that concern processes. `set_current_state` is about the process that makes the call.
pub data Call : Type 0 where
  sched_setattr_nocheck : ℕ → Policy → ℕ → Call
  wake_up_process : ℕ → Call
  wake_up_dispatcher : Call
  set_current_state : SleepState → Call

-- `mp2_process_list`, `mp2_curr_task`, the number of objects of `mp2_task_struct_cachep` that are not
-- freed, and the calls so far.
pub record Scheduler : Type 0 where
  pub tasks : List Task
  pub curr_task : Option ℕ
  pub allocated : ℕ
  pub log : List Call

-- After `mp2_init`.
unfoldable pub initial : Scheduler
initial = record { tasks = []; curr_task = none; allocated = 0; log = [] }

-- `mp2_init`, with whether `proc_mkdir_mode` and `proc_create` succeed: the result, and the state of a
-- module that was loaded. What the other two calls return is not looked at.
unfoldable init : Bool → Bool → ℕ × Option Scheduler
unfolding initial
init dir file =
    if not dir then (neg32 1, none) else if not file then (neg32 2, none) else (0, some initial)

-- `msecs_to_jiffies`, which takes an `unsigned int`, and `find_task_by_pid`, with 0 for NULL.
pub record Kernel : Type 0 where
  pub msecs_to_jiffies : ℕ → ℕ
  pub find_task_by_pid : ℕ → ℕ

-- The loop of `mp2_admission_control`.
unfoldable pub totals : List Task → ℕ → ℕ → ℕ × ℕ
totals [] total_period total_processing_time = (total_period, total_processing_time)
totals (t ∷ ts) total_period total_processing_time =
    totals ts (as_u64 (total_period + t.period))
      (as_u64 (total_processing_time + t.processing_time))

-- The returned value.
unfoldable pub admission_control : List Task → ℕ → ℕ → Checked ℕ
admission_control tasks period processing_time =
    let sums = totals tasks period processing_time in
    if sums.0 == 0
    then faults divide_error
    else ok (if leb (as_u64 (sums.1 * 1000) / sums.0) 693 then 0 else 1)

module _ (k : Kernel) where
  -- The node that `mp2_registration` fills in.
  unfoldable pub new_proc : ℕ → ℕ → ℕ → ℕ → ℕ → Task
  new_proc addr jiffies pid period processing_time = record {
    addr = addr;
    pid = pid;
    period = period;
    processing_time = processing_time;
    deadline_jiff = as_u64 (jiffies + k.msecs_to_jiffies (as_u32 period));
    task = k.find_task_by_pid pid;
    timer = none;
    state = sleeping;
  }

  -- The part of `mp2_registration` that holds the lock: the returned value and the state. The check
  -- for a negative process id before it never applies, since the number is unsigned.
  unfoldable pub enlist : Option ℕ → ℕ → ℕ → ℕ → ℕ → Scheduler → ℕ × Scheduler
  unfolding new_proc
  enlist alloc jiffies pid period processing_time s = elim (find_pid pid s.tasks) [
    | some t ↦ (0, s)
    | none ↦ elim alloc [
      | none ↦ (neg32 1, s)
      | some addr ↦
          if k.find_task_by_pid pid == 0
          then (neg32 1, record s { allocated = s.allocated + 1 })
          else (
            0,
            record s {
              tasks = s.tasks ++ new_proc addr jiffies pid period processing_time ∷ [];
              allocated = s.allocated + 1;
              log = s.log ++ set_current_state task_uninterruptible ∷ [];
            },
          )
    ]
  ]

  unfoldable pub registration : Option ℕ → ℕ → ℕ → ℕ → ℕ → Scheduler → Checked (ℕ × Scheduler)
  registration alloc jiffies pid period processing_time s =
      admission_control s.tasks period processing_time >>= λ refused.
      ok (if refused == 0 then enlist alloc jiffies pid period processing_time s else (1, s))

  -- `mp2_timer_callback`: what it does to the task for each entry of the list with its process id.
  unfoldable pub rearm : Task → Task
  rearm t =
      let deadline = as_u64 (t.deadline_jiff + k.msecs_to_jiffies (as_u32 t.period)) in
      record t { state = ready; deadline_jiff = deadline; timer = some deadline }

  unfoldable pub callback_loop : ℕ → ℕ → List Task → List Task → List Task
  callback_loop addr pid [] tasks = tasks
  callback_loop addr pid (t ∷ ts) tasks =
      callback_loop addr pid ts (if t.pid == pid then update addr (rearm) tasks else tasks)

  -- The timer of the node at `addr` has expired.
  unfoldable pub timer_callback : ℕ → Scheduler → Checked Scheduler
  unfolding callback_loop
  timer_callback addr s = elim (find_addr addr s.tasks) [
    | none ↦ faults use_after_free
    | some c ↦ ok (record s {
      tasks = callback_loop addr c.pid s.tasks s.tasks;
      log = s.log ++ wake_up_dispatcher ∷ [];
    })
  ]

-- What `mp2_yield` does to the task when its deadline is still to come, and when it has passed.
unfoldable pub sleep_until_deadline : Task → Task
sleep_until_deadline t = record t { state = sleeping; timer = some t.deadline_jiff }

unfoldable pub wake_at : ℕ → Task → Task
wake_at jiffies t = record t { timer = some jiffies }

-- `mp2_yield`, with the values of `jiffies` at its two reads.
unfoldable pub yield : ℕ → ℕ → ℕ → Scheduler → ℕ × Scheduler
unfolding sleep_until_deadline wake_at
yield jiffies jiffies' pid s = elim (find_pid pid s.tasks) [
  | none ↦ (0, s)
  | some t ↦
      if ltb jiffies t.deadline_jiff
      then (
        0,
        record s {
          tasks = update t.addr sleep_until_deadline s.tasks;
          log = s.log ++ set_current_state task_uninterruptible ∷ [];
        },
      )
      else (0, record s { tasks = update t.addr (wake_at jiffies') s.tasks })
]

unfoldable pub deregistration : ℕ → Scheduler → ℕ × Scheduler
deregistration pid s = elim (find_pid pid s.tasks) [
  | none ↦ (0, s)
  | some t ↦ (0, record s { tasks = remove pid s.tasks; allocated = s.allocated - 1 })
]

-- `mp2_exit`, once the dispatcher has stopped.
unfoldable pub exit : Scheduler → Scheduler
exit s = record s { tasks = []; allocated = s.allocated - length s.tasks }

-- One round of `mp2_dispatcher`. The loop over the list, with `min_period` and
-- `highest_priority_task`.
abbrev pub is_ready : TaskState → Bool
is_ready ready = true
is_ready running = false
is_ready sleeping = false

unfoldable pub choose : List Task → ℕ → Option Task → Option Task
choose [] min_period highest = highest
choose (t ∷ ts) min_period highest =
    let better = is_ready t.state && ltb t.period min_period in
    choose ts (if better then t.period else min_period) (if better then some t else highest)

-- Reading through `mp2_curr_task`.
unfoldable pub current : Scheduler → Checked (Option Task)
current s = elim s.curr_task [
  | none ↦ ok none
  | some addr ↦ elim (find_addr addr s.tasks) [
    | none ↦ faults use_after_free
    | some c ↦ ok (some c)
  ]
]

abbrev pub ulong_max : ℕ
ulong_max = 2 ^ 64 - 1

abbrev pub first_min_period : Option Task → ℕ
first_min_period none = ulong_max
first_min_period (some c) = c.period

unfoldable pub set_state : TaskState → Task → Task
set_state st t = record t { state = st }

-- Takes the processor from the current task, if there is one.
unfoldable pub preempt : Option Task → Scheduler → Scheduler
unfolding set_state
preempt none s = s
preempt (some c) s = record s {
  tasks = update c.addr (set_state ready) s.tasks;
  log = s.log ++ sched_setattr_nocheck c.task sched_normal 0 ∷ [];
}

unfoldable pub switch_to : Task → Scheduler → Scheduler
unfolding set_state
switch_to h s = record s {
  tasks = update h.addr (set_state running) s.tasks;
  curr_task = some h.addr;
  log = s.log ++ sched_setattr_nocheck h.task sched_fifo 99 ∷ wake_up_process h.task ∷ [];
}

abbrev pub is_current : Option ℕ → ℕ → Bool
is_current none addr = false
is_current (some a) addr = a == addr

unfoldable pub switch : Option Task → Option Task → Scheduler → Scheduler
unfolding preempt switch_to
switch c none s = s
switch c (some h) s = if is_current s.curr_task h.addr then s else switch_to h (preempt c s)

-- A round, once `mp2_curr_task` is read.
unfoldable pub round : Option Task → Scheduler → Scheduler
round c s =
    let s' = switch c (choose s.tasks (first_min_period c) c) s in
    record s' { log = s'.log ++ set_current_state task_interruptible ∷ [] }

unfoldable pub dispatch : Scheduler → Checked Scheduler
dispatch s = current s >>= λ c. ok (round c s)
