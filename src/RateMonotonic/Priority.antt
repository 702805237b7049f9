-- ===== src/RateMonotonic/Priority.antt =====
-- The rate-monotonic rule after a round of `mp2_dispatcher` of mp2.c.
use linux_kernel_development.Prelude.{ℕ, ◌≤◌, ◌<◌, ◌≡◌, ◌⊎◌, ◌∙◌, inl, inr, arith}
use linux_kernel_development.Prelude.{Option, none, some, get_elem?, false, ◌==◌}
use linux_kernel_development.RateMonotonic.Tasks.{
  ready, running, Task, find_addr, update, Distinct, find_addr-update_ne, find_addr-update_self,
  find_addr-of_elem,
}
use linux_kernel_development.RateMonotonic.{
  ok, Scheduler, choose, ulong_max, first_min_period, set_state, is_current, dispatch,
}
use linux_kernel_development.RateMonotonic.Choice.{choose_le, choose_shortest}
use linux_kernel_development.RateMonotonic.Dispatch.{
  Finds, Round, idle, stays, moves, switched, set_state-KeepsNames, dispatch-Round, chosen-found,
  ready-switched,
}

-- A current task other than `h` leaves `h` findable when it goes.
switched-found :
    (s : Scheduler) (c : Option Task) (h : Task)
    → Finds s c
    → is_current s.curr_task h.addr ≡ false
    → find_addr h.addr s.tasks ≡ some h
    → find_addr h.addr (switched c h s.tasks) ≡ some (set_state running h)
unfolding switched
switched-found s none h finds other found =
    find_addr-update_self (set_state running) (set_state-KeepsNames running) h.addr s.tasks h found
switched-found s (some c) h finds other found =
    let ne : (h.addr == c.addr) ≡ false = ground (arith, finds.0) in
    find_addr-update_self (set_state running) (set_state-KeepsNames running) h.addr
      (update c.addr (set_state ready) s.tasks) h
      (find_addr-update_ne (set_state ready) (set_state-KeepsNames ready) h.addr c.addr s.tasks ne
        ∙ found)

-- What takes over has no longer a period than a task that was ready or current before.
moved-le :
    (s : Scheduler) (c : Option Task) (h : Task) (i : ℕ) (t : Task)
    → Distinct s.tasks
    → Finds s c
    → choose s.tasks (first_min_period c) c ≡ some h
    → get_elem? s.tasks i ≡ some t
    → (t.state ≡ ready) ⊎ ((x : Task) × (c ≡ some x) × (t.addr ≡ x.addr))
    → h.period ≤ t.period
moved-le s c h i t distinct finds chosen at (inl is) =
    ground (arith, chosen, choose_shortest s.tasks c i t at is)
moved-le s none h i t distinct finds chosen at (inr (x, own, same)) = cc
moved-le s (some c) h i t distinct finds chosen at (inr (x, own, same)) =
    let found = find_addr-of_elem s.tasks i t distinct at in
    let itself : t ≡ c = ground arith in
    rw itself (ground (arith, chosen, choose_le s.tasks (some c)))

-- After a round, the current task's period is at most that of any ready task, in a list of distinct
-- tasks. (A period of ULONG_MAX is never chosen.)
pub dispatch-shortest :
    (s s' : Scheduler) (i : ℕ) (t : Task)
    → Distinct s.tasks
    → dispatch s ≡ ok s'
    → get_elem? s'.tasks i ≡ some t
    → t.state ≡ ready
    → t.period < ulong_max
    → (c : Task) × (s'.curr_task ≡ some c.addr)
      × (find_addr c.addr s'.tasks ≡ some c)
      × (c.period ≤ t.period)
unfolding set_state
dispatch-shortest s s' i t distinct returned at is small =
    let (c, finds, round) = dispatch-Round s s' returned in by_round c finds round
  where
    by_round :
        (c : Option Task)
        → Finds s c
        → Round s s' c
        → (h : Task) × (s'.curr_task ≡ some h.addr)
          × (find_addr h.addr s'.tasks ≡ some h)
          × (h.period ≤ t.period)
    by_round c finds (idle nobody same _) =
        let least = choose_shortest s.tasks c i t (rw same at at) is in
        absurd (ground (arith, nobody, least))
    by_round c finds (stays h chosen own same same') =
        let least = choose_shortest s.tasks c i t (rw same at at) is in
        (
          h,
          same' ∙ own,
          rw same (chosen-found s c h distinct finds chosen),
          ground (arith, chosen, least),
        )
    by_round c finds (moves h chosen other same same') =
        let found = chosen-found s c h distinct finds chosen in
        let (t', at', period, how) = ready-switched c h s.tasks i t (rw same at at) is in
        (
          set_state running h,
          same',
          rw same (switched-found s c h finds other found),
          omega (arith, moved-le s c h i t' distinct finds chosen at' how),
        )
