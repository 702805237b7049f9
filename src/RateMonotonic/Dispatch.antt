-- ===== src/RateMonotonic/Dispatch.antt =====
-- What one round of `mp2_dispatcher` of mp2.c chooses.
use linux_kernel_development.Prelude.{ℕ, zero, suc, ◌≡◌, ◌⊎◌, refl, inl, inr, arith, Bool-cases}
use linux_kernel_development.Prelude.{
  Option, none, some, Option-cases, List, [], ◌∷◌, get_elem?, true, false, ◌==◌,
}
use linux_kernel_development.RateMonotonic.Tasks.{
  TaskState, ready, running, Task, find_addr, update, Distinct, KeepsNames, find_addr-addr,
  find_addr-of_elem,
}
use linux_kernel_development.RateMonotonic.{
  Checked, ok, faults, ◌>>=◌, Scheduler, choose, current, first_min_period, set_state, preempt,
  switch_to, switch, is_current, round, dispatch,
}
use linux_kernel_development.RateMonotonic.Choice.{choose-from}

pub set_state-KeepsNames : (st : TaskState) → KeepsNames (set_state st)
unfolding set_state
set_state-KeepsNames st = record { same_addr = λ t. refl; same_pid = λ t. refl }

-- A task after a switch was there before, with the same period; if it is ready now, then it was, or
-- it was the current one.
pub get_elem?-set_state :
    (st : TaskState) (a : ℕ) (ts : List Task) (i : ℕ) (t : Task)
    → get_elem? (update a (set_state st) ts) i ≡ some t
    → (t' : Task) × (get_elem? ts i ≡ some t')
      × (t.period ≡ t'.period)
      × (t.addr ≡ t'.addr)
      × ((t ≡ t') ⊎ ((t'.addr ≡ a) × (t.state ≡ st)))
unfolding set_state
get_elem?-set_state st a [] i t at = cc
get_elem?-set_state st a (x ∷ ts) zero t at = elim (Bool-cases (x.addr == a)) [
  | inl here ↦ (x, refl, ground arith, ground arith, inr (ground arith, ground arith))
  | inr there ↦ (x, refl, ground arith, ground arith, inl (ground arith))
]
get_elem?-set_state st a (x ∷ ts) (suc i) t at = get_elem?-set_state st a ts i t at

-- What reading through `mp2_curr_task` finds.
abbrev pub Finds : Scheduler → Option Task → Type 0
Finds s none = s.curr_task ≡ none
Finds s (some c) = (s.curr_task ≡ some c.addr) × (find_addr c.addr s.tasks ≡ some c)

pub current-Finds : (s : Scheduler) (c : Option Task) → current s ≡ ok c → Finds s c
unfolding current
current-Finds s none e = ground arith
current-Finds s (some c) e = elim (Option-cases s.curr_task) [
  | inl free ↦ ground arith
  | inr (a, held) ↦ ground (arith, find_addr-addr a s.tasks c)
]

-- The tasks after a switch from one to another.
unfoldable pub switched : Option Task → Task → List Task → List Task
switched none h ts = update h.addr (set_state running) ts
switched (some c) h ts = update h.addr (set_state running) (update c.addr (set_state ready) ts)

-- The three ways of a round: no task to run, the current one stays, or another one takes over.
pub data Round (s s' : Scheduler) (c : Option Task) : Type 0 where
  idle :
      choose s.tasks (first_min_period c) c ≡ none
      → s'.tasks ≡ s.tasks
      → s'.curr_task ≡ s.curr_task
      → Round s s' c
  stays :
      (h : Task)
      → choose s.tasks (first_min_period c) c ≡ some h
      → s.curr_task ≡ some h.addr
      → s'.tasks ≡ s.tasks
      → s'.curr_task ≡ s.curr_task
      → Round s s' c
  moves :
      (h : Task)
      → choose s.tasks (first_min_period c) c ≡ some h
      → is_current s.curr_task h.addr ≡ false
      → s'.tasks ≡ switched c h s.tasks
      → s'.curr_task ≡ some h.addr
      → Round s s' c

switch-tasks :
    (c : Option Task) (h : Task) (s : Scheduler)
    → (switch_to h (preempt c s)).tasks ≡ switched c h s.tasks
unfolding switch_to preempt switched
switch-tasks none h s = refl
switch-tasks (some c) h s = refl

switch-curr_task :
    (c : Option Task) (h : Task) (s : Scheduler)
    → (switch_to h (preempt c s)).curr_task ≡ some h.addr
unfolding switch_to
switch-curr_task c h s = refl

is_current-eq : (curr : Option ℕ) (a : ℕ) → is_current curr a ≡ true → curr ≡ some a
is_current-eq none a e = cc
is_current-eq (some b) a e = ground arith

round-Round : (s : Scheduler) (c : Option Task) → Round s (round c s) c
unfolding round switch
round-Round s c = elim (Option-cases (choose s.tasks (first_min_period c) c)) [
  | inl nobody ↦ Round.idle nobody (rw nobody) (rw nobody)
  | inr (h, chosen) ↦ elim (Bool-cases (is_current s.curr_task h.addr)) [
    | inl same ↦
        Round.stays h chosen (is_current-eq s.curr_task h.addr same) (rw (chosen, same))
          (rw (chosen, same))
    | inr other ↦
        Round.moves h chosen other (rw (chosen, other) (switch-tasks c h s))
          (rw (chosen, other) (switch-curr_task c h s))
  ]
]

pub dispatch-Round :
    (s s' : Scheduler) → dispatch s ≡ ok s' → (c : Option Task) × Finds s c × Round s s' c
unfolding dispatch
dispatch-Round s s' returned = by_current (current s) refl returned
  where
    by_current :
        (m : Checked (Option Task))
        → current s ≡ m
        → (m >>= λ c. ok (round c s)) ≡ ok s'
        → (c : Option Task) × Finds s c × Round s s' c
    by_current (ok c) read returned =
        let final : round c s ≡ s' = cc in
        (c, current-Finds s c read, rw (← final) (round-Round s c))
    by_current (faults e) read returned = cc

-- The chosen task is in the list.
pub chosen-found :
    (s : Scheduler) (c : Option Task) (h : Task)
    → Distinct s.tasks
    → Finds s c
    → choose s.tasks (first_min_period c) c ≡ some h
    → find_addr h.addr s.tasks ≡ some h
chosen-found s c h distinct finds chosen =
    elim (choose-from s.tasks (first_min_period c) c h chosen) [
      | inl own ↦ by_current c finds own
      | inr (i, at, is) ↦ find_addr-of_elem s.tasks i h distinct at
    ]
  where
    by_current : (c : Option Task) → Finds s c → c ≡ some h → find_addr h.addr s.tasks ≡ some h
    by_current none finds own = cc
    by_current (some x) finds own = let same : x ≡ h = cc in rw (← same) finds.1

-- A ready task after a switch was ready before, or it is the one that had to go.
pub ready-switched :
    (c : Option Task) (h : Task) (ts : List Task) (i : ℕ) (t : Task)
    → get_elem? (switched c h ts) i ≡ some t
    → t.state ≡ ready
    → (t' : Task) × (get_elem? ts i ≡ some t')
      × (t.period ≡ t'.period)
      × ((t'.state ≡ ready) ⊎ ((x : Task) × (c ≡ some x) × (t'.addr ≡ x.addr)))
unfolding switched
ready-switched none h ts i t at is =
    let (t', at', same, _, how) = get_elem?-set_state running h.addr ts i t at in
    (t', at', same, inl (ground arith))
ready-switched (some c) h ts i t at is =
    let (t₁, at₁, same₁, _, how₁) =
      get_elem?-set_state running h.addr (update c.addr (set_state ready) ts) i t at in
    let (t₂, at₂, same₂, _, how₂) = get_elem?-set_state ready c.addr ts i t₁ at₁ in
    let kept : t ≡ t₁ = ground arith in
    (
      t₂,
      at₂,
      ground arith,
      elim how₂ [ inl old ↦ inl (rw (← old, ← kept) is) | inr (own, _) ↦ inr (c, refl, own) ],
    )
