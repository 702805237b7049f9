-- ===== src/RateMonotonic/Registry.antt =====
-- Registering and deregistering in mp2.c.
use linux_kernel_development.Prelude.{
  ℕ, ◌+◌, ◌-◌, ◌≡◌, ◌≢◌, ◌⊎◌, refl, ap, sym, ◌*◌, ◌^◌, ◌<◌, ◌≤◌, ◌∙◌, ==_iff, inl, inr, arith,
  Bool-cases, ltb, ◌==◌, if◌then◌else◌, true, false,
}
use linux_kernel_development.Prelude.{Option, none, some, Option-cases, [], ◌∷◌, ◌++◌}
use linux_kernel_development.Prelude.Words.{neg32}
use linux_kernel_development.RateMonotonic.Admission.{
  periods, processing_times, admission_control_iff,
}
use linux_kernel_development.RateMonotonic.Tasks.{Task, find_pid, remove-append, find_pid-append}
use linux_kernel_development.RateMonotonic.{
  Checked, ok, faults, ◌>>=◌, Scheduler, Kernel, set_current_state, task_uninterruptible,
  admission_control, new_proc, enlist, registration, deregistration,
}

module _ (k : Kernel) where
  -- The states after a process was registered, and after it could not be found.
  abbrev added : ℕ → ℕ → ℕ → ℕ → ℕ → Scheduler → Scheduler
  added addr jiffies pid period c s = record s {
    tasks = s.tasks ++ new_proc k addr jiffies pid period c ∷ [];
    allocated = s.allocated + 1;
    log = s.log ++ set_current_state task_uninterruptible ∷ [];
  }

  abbrev leaked : Scheduler → Scheduler
  leaked s = record s { allocated = s.allocated + 1 }

  enlist_known :
      (addr jiffies pid period c : ℕ) (s : Scheduler)
      → find_pid pid s.tasks ≡ none
      → (k.find_task_by_pid pid == 0) ≡ false
      → enlist k (some addr) jiffies pid period c s ≡ (0, added addr jiffies pid period c s)
  unfolding enlist
  enlist_known addr jiffies pid period c s absent known = rw (absent, enlist) (rw known)

  enlist_unknown :
      (addr jiffies pid period c : ℕ) (s : Scheduler)
      → find_pid pid s.tasks ≡ none
      → (k.find_task_by_pid pid == 0) ≡ true
      → enlist k (some addr) jiffies pid period c s ≡ (neg32 1, leaked s)
  unfolding enlist
  enlist_unknown addr jiffies pid period c s absent unknown = rw (absent, enlist) (rw unknown)

  enlist_again :
      (addr jiffies pid period c : ℕ) (s : Scheduler) (t : Task)
      → find_pid pid s.tasks ≡ some t
      → enlist k (some addr) jiffies pid period c s ≡ (0, s)
  unfolding enlist
  enlist_again addr jiffies pid period c s t found = rw (found, enlist)

  deregistration-added :
      (addr jiffies pid period c : ℕ) (s : Scheduler)
      → find_pid pid s.tasks ≡ none
      → (deregistration pid (added addr jiffies pid period c s)).1
        ≡ record s { log = s.log ++ set_current_state task_uninterruptible ∷ [] }
  unfolding deregistration new_proc
  deregistration-added addr jiffies pid period c s absent =
      let new = new_proc k addr jiffies pid period c in
      let own : (pid == pid) ≡ true = (==_iff pid pid).1 refl in
      let last : find_pid pid (new ∷ []) ≡ some new = rw own in
      let found : find_pid pid (s.tasks ++ new ∷ []) ≡ some new =
        find_pid-append pid s.tasks new ∙ rw absent last in
      let count : s.allocated + 1 - 1 ≡ s.allocated = omega arith in
      rw (found, deregistration) (rw (remove-append s.tasks new absent, count))

  -- A registration that returned passed admission control, or was refused, returned 1 and changed nothing.
  registration_cases :
      (alloc : Option ℕ) (jiffies pid period c v : ℕ) (s s' : Scheduler)
      → registration k alloc jiffies pid period c s ≡ ok (v, s')
      → ((admission_control s.tasks period c ≡ ok 0)
          × (enlist k alloc jiffies pid period c s ≡ (v, s')))
        ⊎ ((admission_control s.tasks period c ≢ ok 0) × (v ≡ 1) × (s' ≡ s))
  unfolding registration
  registration_cases alloc jiffies pid period c v s s' returned =
      by_admission (admission_control s.tasks period c) refl returned
    where
      not_admitted : (n : ℕ) → (n == 0) ≡ false → ok n ≢ ok 0
      not_admitted n nonzero same = let zero : n ≡ 0 = cc in ground arith

      by_admission :
          (m : Checked ℕ)
          → admission_control s.tasks period c ≡ m
          → (m >>= λ refused.
              ok (if refused == 0 then enlist k alloc jiffies pid period c s else (1, s)))
            ≡ ok (v, s')
          → ((admission_control s.tasks period c ≡ ok 0)
              × (enlist k alloc jiffies pid period c s ≡ (v, s')))
            ⊎ ((admission_control s.tasks period c ≢ ok 0) × (v ≡ 1) × (s' ≡ s))
      by_admission (faults e) e' returned = cc
      by_admission (ok refused) e' returned = elim (Bool-cases (refused == 0)) [
        | inl admitted ↦
            let taken = rw admitted at returned in
            inl (e' ∙ ap ok ((==_iff refused 0).0 admitted), cc)
        | inr refuses ↦
            let taken = rw refuses at returned in
            inr (λ zero. not_admitted refused refuses (sym e' ∙ zero), cc, cc)
      ]

  -- Deregistering a process right after it was registered restores the list, the objects in use and
  -- the current task, if the process was not registered before.
  pub deregistration-registration :
      (addr jiffies pid period processing_time : ℕ) (s s' : Scheduler)
      → find_pid pid s.tasks ≡ none
      → registration k (some addr) jiffies pid period processing_time s ≡ ok (0, s')
      → ((deregistration pid s').1.tasks ≡ s.tasks)
        × ((deregistration pid s').1.allocated ≡ s.allocated)
        × ((deregistration pid s').1.curr_task ≡ s.curr_task)
  deregistration-registration addr jiffies pid period c s s' absent returned =
      elim (registration_cases (some addr) jiffies pid period c 0 s s' returned) [
        | inr (_, one, _) ↦ absurd (omega (arith, one))
        | inl (_, enlisted) ↦ elim (Bool-cases (k.find_task_by_pid pid == 0)) [
          | inl unknown ↦
              let fails = enlist_unknown addr jiffies pid period c s absent unknown in
              absurd (ground (arith, fails))
          | inr known ↦
              let gives = enlist_known addr jiffies pid period c s absent known in
              let final : added addr jiffies pid period c s ≡ s' = cc in
              rw (← final)
                (rw (deregistration-added addr jiffies pid period c s absent) (refl, refl, refl))
        ]
      ]

  -- How a registration that was admitted fails: no object can be had, or the process is not found,
  -- and the object stays in use.
  enlist_fails :
      (alloc : Option ℕ) (jiffies pid period c v : ℕ) (s s' : Scheduler)
      → enlist k alloc jiffies pid period c s ≡ (v, s')
      → v ≢ 0
      → (v ≡ neg32 1)
        × (((alloc ≡ none) × (s' ≡ s))
            ⊎ ((alloc ≢ none) × (k.find_task_by_pid pid ≡ 0) × (s' ≡ leaked s)))
  unfolding enlist
  enlist_fails alloc jiffies pid period c v s s' enlisted fails =
      elim (Option-cases (find_pid pid s.tasks)) [
        | inr (t, found) ↦
            let done : ◌≡◌ {A = ℕ × Scheduler} (0, s) (v, s') = rw (found, enlist) at enlisted in
            absurd (fails (ground arith))
        | inl absent ↦ elim (Option-cases alloc) [
          | inl empty ↦
              let out : ◌≡◌ {A = ℕ × Scheduler} (neg32 1, s) (v, s') =
                rw (absent, empty, enlist) at enlisted in
              (cc, inl (empty, cc))
          | inr (addr, got) ↦ elim (Bool-cases (k.find_task_by_pid pid == 0)) [
            | inr known ↦
                let done = enlist_known addr jiffies pid period c s absent known in
                let enlisted' = rw got at enlisted in absurd (fails (ground (arith, done)))
            | inl unknown ↦
                let gives = enlist_unknown addr jiffies pid period c s absent unknown in
                let enlisted' = rw got at enlisted in
                (cc, inr (λ empty. cc, (==_iff _ 0).0 unknown, cc))
          ]
        ]
      ]

  -- A registration that does not return 0 leaves the list, the current task and the log as they are,
  -- if one of the periods is positive, and the sum of all periods and a thousand times the sum of all
  -- processing times, the new ones included, are below 2 ^ 64. Either the processing times are 0.694
  -- of the periods or more: then it returns 1, and nothing changes at all. Or they are less, and it
  -- returns -1: nothing changes if there was no memory for the task; otherwise there is no such
  -- process, and the object that was taken from the cache stays in use.
  pub registration-refused :
      (alloc : Option ℕ) (jiffies pid period processing_time v : ℕ) (s s' : Scheduler)
      → 0 < period + periods s.tasks
      → period + periods s.tasks < 2 ^ 64
      → (processing_time + processing_times s.tasks) * 1000 < 2 ^ 64
      → registration k alloc jiffies pid period processing_time s ≡ ok (v, s')
      → v ≢ 0
      → (s'.tasks ≡ s.tasks)
        × (s'.curr_task ≡ s.curr_task)
        × (s'.log ≡ s.log)
        × (((694 * (period + periods s.tasks) ≤ 1000 * (processing_time + processing_times s.tasks))
              × (v ≡ 1)
              × (s'.allocated ≡ s.allocated))
            ⊎ ((1000 * (processing_time + processing_times s.tasks)
                  < 694 * (period + periods s.tasks))
                × (v ≡ neg32 1)
                × (((alloc ≡ none) × (s'.allocated ≡ s.allocated))
                    ⊎ ((alloc ≢ none)
                        × (k.find_task_by_pid pid ≡ 0)
                        × (s'.allocated ≡ s.allocated + 1)))))
  registration-refused alloc jiffies pid period c v s s' pos fits fits' returned fails =
      let admits = admission_control_iff s.tasks period c pos fits fits' in
      elim (registration_cases alloc jiffies pid period c v s s' returned) [
        | inr (refused, one, same) ↦
            let heavy : 694 * (period + periods s.tasks) ≤ 1000 * (c + processing_times s.tasks) =
              elim (Bool-cases
                (ltb (1000 * (c + processing_times s.tasks)) (694 * (period + periods s.tasks)))) [
                  | inl light ↦ absurd (refused (admits.1 (ground (arith, light))))
                  | inr heavy ↦ ground (arith, heavy)
                ] in
            rw same (refl, refl, refl, inl (heavy, one, refl))
        | inl (admitted, enlisted) ↦
            let light = admits.0 admitted in
            let (value, how) = enlist_fails alloc jiffies pid period c v s s' enlisted fails in
            elim how [
              | inl (empty, same) ↦
                  rw same (refl, refl, refl, inr (light, value, inl (empty, refl)))
              | inr (some_object, unknown, same) ↦
                  rw same (refl, refl, refl, inr (light, value, inr (some_object, unknown, refl)))
            ]
      ]
