-- ===== src/RateMonotonic/Steps.antt =====
-- The module of mp2.c as a whole: its functions interleave in any order, each under the lock.
use linux_kernel_development.Prelude.{ℕ, zero, suc, ◌≡◌, refl, ap, arith}
use linux_kernel_development.Prelude.{Option, some, List, [], ◌∷◌, get_elem?}
use linux_kernel_development.RateMonotonic.Tasks.{running, Task, Distinct, find_addr-of_elem}
use linux_kernel_development.RateMonotonic.{
  ok, Scheduler, Kernel, initial, enlist, yield, deregistration, timer_callback, dispatch,
}
use linux_kernel_development.RateMonotonic.Preemption.{dispatch-IsSound}
use linux_kernel_development.RateMonotonic.Sound.{
  Fresh, AllMayBe, IsSound, enlist-IsSound, yield-IsSound, deregistration-IsSound,
  timer_callback-IsSound,
}

-- Admission control changes nothing and gives up the lock, so that `enlist` may follow in a later
-- state, or not at all.
pub data Step (k : Kernel) : Scheduler → Scheduler → Type 0 where
  enlists :
      (alloc : Option ℕ) (jiffies pid period processing_time : ℕ) (s s' : Scheduler)
      → Fresh alloc s.tasks
      → (enlist k alloc jiffies pid period processing_time s).1 ≡ s'
      → Step k s s'
  yields :
      (jiffies jiffies' pid : ℕ) (s s' : Scheduler)
      → (yield jiffies jiffies' pid s).1 ≡ s'
      → Step k s s'
  deregisters : (pid : ℕ) (s s' : Scheduler) → (deregistration pid s).1 ≡ s' → Step k s s'
  expires : (addr : ℕ) (s s' : Scheduler) → timer_callback k addr s ≡ ok s' → Step k s s'
  dispatches : (s s' : Scheduler) → dispatch s ≡ ok s' → Step k s s'

pub data Reach (k : Kernel) (s : Scheduler) : Scheduler → Type 0 where
  here : Reach k s s
  next : {t u : Scheduler} → Reach k s t → Step k t u → Reach k s u

module _ (k : Kernel) where
  Step-IsSound : {s s' : Scheduler} → Step k s s' → IsSound s → IsSound s'
  Step-IsSound (enlists alloc jiffies pid period c s s' fresh done) sound =
      rw (← done) (enlist-IsSound k alloc jiffies pid period c s fresh sound)
  Step-IsSound (yields jiffies jiffies' pid s s' done) sound =
      rw (← done) (yield-IsSound jiffies jiffies' pid s sound)
  Step-IsSound (deregisters pid s s' done) sound = rw (← done) (deregistration-IsSound pid s sound)
  Step-IsSound (expires addr s s' returned) sound =
      timer_callback-IsSound k addr s s' returned sound
  Step-IsSound (dispatches s s' returned) sound = dispatch-IsSound s s' returned sound

  pub Reach-IsSound : {s s' : Scheduler} → Reach k s s' → IsSound s → IsSound s'
  Reach-IsSound here sound = sound
  Reach-IsSound (next r step) sound = Step-IsSound step (Reach-IsSound r sound)

pub initial-IsSound : IsSound initial
unfolding initial
initial-IsSound = record { distinct = tt; may_be = tt }

MayBe-running :
    (curr : Option ℕ) (ts : List Task) (i : ℕ) (t : Task)
    → AllMayBe curr ts
    → get_elem? ts i ≡ some t
    → t.state ≡ running
    → curr ≡ some t.addr
MayBe-running curr [] i t all at runs = cc
MayBe-running curr (x ∷ ts) zero t all at runs =
    let same : x ≡ t = cc in
    let runs' : x.state ≡ running = rw same runs in
    let own : curr ≡ some x.addr = rw runs' at all.0 in rw (← same) own
MayBe-running curr (x ∷ ts) (suc i) t all at runs = MayBe-running curr ts i t all.1 at runs

-- In a list of distinct tasks a node has one place.
place_unique :
    (ts : List Task) (i j : ℕ) (t u : Task)
    → Distinct ts
    → get_elem? ts i ≡ some t
    → get_elem? ts j ≡ some u
    → t.addr ≡ u.addr
    → i ≡ j
place_unique [] i j t u distinct at at' same = cc
place_unique (x ∷ ts) zero zero t u distinct at at' same = refl
place_unique (x ∷ ts) zero (suc j) t u distinct at at' same =
    let found = find_addr-of_elem ts j u distinct.2 at' in absurd (ground arith)
place_unique (x ∷ ts) (suc i) zero t u distinct at at' same =
    let found = find_addr-of_elem ts i t distinct.2 at in absurd (ground arith)
place_unique (x ∷ ts) (suc i) (suc j) t u distinct at at' same =
    ap suc (place_unique ts i j t u distinct.2 at at' same)

-- However registrations, yields, timers, deregistrations and rounds of the dispatcher follow upon
-- each other, at most one task runs, and it is the one that `mp2_curr_task` points to, if the
-- allocator never hands out memory that is in use.
pub Reach-one_running :
    (k : Kernel) (s : Scheduler) (i j : ℕ) (t u : Task)
    → Reach k initial s
    → get_elem? s.tasks i ≡ some t
    → get_elem? s.tasks j ≡ some u
    → t.state ≡ running
    → u.state ≡ running
    → (i ≡ j) × (s.curr_task ≡ some t.addr)
Reach-one_running k s i j t u reached at at' runs runs' =
    let sound = Reach-IsSound k reached initial-IsSound in
    let own = MayBe-running s.curr_task s.tasks i t sound.may_be at runs in
    let own' = MayBe-running s.curr_task s.tasks j u sound.may_be at' runs' in
    (place_unique s.tasks i j t u sound.distinct at at' (ground arith), own)
