-- ===== src/RateMonotonic/Preemption.antt =====
-- A round of the dispatcher of mp2.c keeps the invariant: the preempted task stops, and only then does
-- the chosen one run.
use linux_kernel_development.Prelude.{ℕ, ◌≡◌, inl, inr, arith, Bool-cases, ◌==◌, false}
use linux_kernel_development.Prelude.{Option, none, some, List, [], ◌∷◌}
use linux_kernel_development.RateMonotonic.Tasks.{
  TaskState, ready, running, sleeping, Task, update, Distinct, update-Distinct,
}
use linux_kernel_development.RateMonotonic.{ok, Scheduler, dispatch, set_state}
use linux_kernel_development.RateMonotonic.Dispatch.{
  Finds, Round, idle, stays, moves, switched, set_state-KeepsNames, dispatch-Round,
}
use linux_kernel_development.RateMonotonic.Sound.{MayBe, AllMayBe, IsSound}

-- No task runs.
abbrev Still : List Task → Type 0
Still ts = AllMayBe none ts

MayBe-weaken : (curr : Option ℕ) (a : ℕ) (st : TaskState) → MayBe none a st → MayBe curr a st
MayBe-weaken curr a ready may = tt
MayBe-weaken curr a running may = cc
MayBe-weaken curr a sleeping may = tt

MayBe-other : (a b : ℕ) (st : TaskState) → (b == a) ≡ false → MayBe (some a) b st → MayBe none b st
MayBe-other a b ready ne may = tt
MayBe-other a b running ne may = absurd (ground arith)
MayBe-other a b sleeping ne may = tt

AllMayBe-weaken : (curr : Option ℕ) (ts : List Task) → Still ts → AllMayBe curr ts
AllMayBe-weaken curr [] all = tt
AllMayBe-weaken curr (t ∷ ts) all =
    (MayBe-weaken curr t.addr t.state all.0, AllMayBe-weaken curr ts all.1)

-- Once the current task has to go, no task runs.
Still-preempted :
    (a : ℕ) (ts : List Task) → AllMayBe (some a) ts → Still (update a (set_state ready) ts)
unfolding set_state
Still-preempted a [] all = tt
Still-preempted a (t ∷ ts) all = elim (Bool-cases (t.addr == a)) [
  | inl own ↦ rw own (tt, Still-preempted a ts all.1)
  | inr other ↦ rw other (MayBe-other a t.addr t.state other all.0, Still-preempted a ts all.1)
]

-- After a task is made the running one, only it runs.
AllMayBe-running :
    (a : ℕ) (ts : List Task) → Still ts → AllMayBe (some a) (update a (set_state running) ts)
unfolding set_state
AllMayBe-running a [] all = tt
AllMayBe-running a (t ∷ ts) all = elim (Bool-cases (t.addr == a)) [
  | inl own ↦ rw own (ground arith, AllMayBe-running a ts all.1)
  | inr other ↦ rw other (MayBe-weaken (some a) t.addr t.state all.0, AllMayBe-running a ts all.1)
]

switched-AllMayBe :
    (s : Scheduler) (c : Option Task) (h : Task)
    → IsSound s
    → Finds s c
    → AllMayBe (some h.addr) (switched c h s.tasks)
unfolding switched
switched-AllMayBe s none h sound finds = AllMayBe-running h.addr s.tasks (rw finds at sound.may_be)
switched-AllMayBe s (some c) h sound finds =
    AllMayBe-running h.addr (update c.addr (set_state ready) s.tasks)
      (Still-preempted c.addr s.tasks (rw finds.0 at sound.may_be))

switched-Distinct :
    (c : Option Task) (h : Task) (ts : List Task) → Distinct ts → Distinct (switched c h ts)
unfolding switched
switched-Distinct none h ts distinct =
    update-Distinct (set_state running) (set_state-KeepsNames running) h.addr ts distinct
switched-Distinct (some c) h ts distinct =
    update-Distinct (set_state running) (set_state-KeepsNames running) h.addr
      (update c.addr (set_state ready) ts)
      (update-Distinct (set_state ready) (set_state-KeepsNames ready) c.addr ts distinct)

pub dispatch-IsSound : (s s' : Scheduler) → dispatch s ≡ ok s' → IsSound s → IsSound s'
dispatch-IsSound s s' returned sound =
    let (c, finds, round) = dispatch-Round s s' returned in by_round c finds round
  where
    same : s'.tasks ≡ s.tasks → s'.curr_task ≡ s.curr_task → IsSound s'
    same tasks curr = record {
      distinct = rw tasks sound.distinct;
      may_be = rw (tasks, curr) sound.may_be;
    }

    by_round : (c : Option Task) → Finds s c → Round s s' c → IsSound s'
    by_round c finds (idle _ tasks curr) = same tasks curr
    by_round c finds (stays _ _ _ tasks curr) = same tasks curr
    by_round c finds (moves h _ _ tasks curr) = record {
      distinct = rw tasks (switched-Distinct c h s.tasks sound.distinct);
      may_be = rw (tasks, curr) (switched-AllMayBe s c h sound finds);
    }
