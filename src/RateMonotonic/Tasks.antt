-- ===== src/RateMonotonic/Tasks.antt =====
-- The list of registered tasks of rate-monotonic-scheduler/mp2.c: looking up a node, changing it
-- through a pointer, taking it out.
use linux_kernel_development.Prelude.{ℕ, zero, suc, ◌≡◌, refl, inl, inr, arith}
use linux_kernel_development.Prelude.{Option, none, some, false, List, [], ◌∷◌, ◌++◌, get_elem?}
use linux_kernel_development.Prelude.{◌==◌, if◌then◌else◌, Bool-cases}

-- `enum task_state`.
pub data TaskState : Type 0 where
  ready running sleeping : TaskState

-- `struct mp2_task_struct` at its address. `task` is the address of the process, and `timer` the
-- moment at which the wake-up timer is to expire, if it is pending.
pub record Task : Type 0 where
  pub addr : ℕ
  pub pid : ℕ
  pub period : ℕ
  pub processing_time : ℕ
  pub deadline_jiff : ℕ
  pub task : ℕ
  pub timer : Option ℕ
  pub state : TaskState

abbrev pub find_pid : ℕ → List Task → Option Task
find_pid pid [] = none
find_pid pid (t ∷ ts) = if t.pid == pid then some t else find_pid pid ts

-- What a pointer points to; `none` if the node is not there any more.
abbrev pub find_addr : ℕ → List Task → Option Task
find_addr addr [] = none
find_addr addr (t ∷ ts) = if t.addr == addr then some t else find_addr addr ts

-- Writes through a pointer.
abbrev pub update : ℕ → (Task → Task) → List Task → List Task
update addr f [] = []
update addr f (t ∷ ts) = (if t.addr == addr then f t else t) ∷ update addr f ts

-- `list_del` at the first task with the process id.
abbrev pub remove : ℕ → List Task → List Task
remove pid [] = []
remove pid (t ∷ ts) = if t.pid == pid then ts else t ∷ remove pid ts

-- No two nodes have one address, and no two one process id.
abbrev pub Distinct : List Task → Type 0
Distinct [] = Unit
Distinct (t ∷ ts) = (find_addr t.addr ts ≡ none) × (find_pid t.pid ts ≡ none) × Distinct ts

-- A change that keeps where a node is and whose it is.
pub record KeepsNames (f : Task → Task) : Type 0 where
  pub same_addr : (t : Task) → (f t).addr ≡ t.addr
  pub same_pid : (t : Task) → (f t).pid ≡ t.pid

pub find_addr-addr : (a : ℕ) (ts : List Task) (t : Task) → find_addr a ts ≡ some t → t.addr ≡ a
find_addr-addr a [] t found = cc
find_addr-addr a (x ∷ ts) t found = ground (arith, find_addr-addr a ts t)

pub find_pid-pid : (p : ℕ) (ts : List Task) (t : Task) → find_pid p ts ≡ some t → t.pid ≡ p
find_pid-pid p [] t found = cc
find_pid-pid p (x ∷ ts) t found = ground (arith, find_pid-pid p ts t)

module _ (f : Task → Task) (keeps : KeepsNames f) where
  open keeps use {same_addr, same_pid}

  pub find_addr-update_ne :
      (a b : ℕ) (ts : List Task) → (a == b) ≡ false → find_addr a (update b f ts) ≡ find_addr a ts
  find_addr-update_ne a b [] ne = refl
  find_addr-update_ne a b (t ∷ ts) ne = ground (arith, same_addr t, find_addr-update_ne a b ts ne)

  find_addr-update_none :
      (a b : ℕ) (ts : List Task) → find_addr a ts ≡ none → find_addr a (update b f ts) ≡ none
  find_addr-update_none a b [] e = refl
  find_addr-update_none a b (t ∷ ts) e = ground (arith, same_addr t, find_addr-update_none a b ts)

  find_pid-update_none :
      (p b : ℕ) (ts : List Task) → find_pid p ts ≡ none → find_pid p (update b f ts) ≡ none
  find_pid-update_none p b [] e = refl
  find_pid-update_none p b (t ∷ ts) e = ground (arith, same_pid t, find_pid-update_none p b ts)

  pub find_addr-update_self :
      (a : ℕ) (ts : List Task) (t : Task)
      → find_addr a ts ≡ some t
      → find_addr a (update a f ts) ≡ some (f t)
  find_addr-update_self a [] t found = cc
  find_addr-update_self a (x ∷ ts) t found =
      ground (arith, same_addr x, find_addr-update_self a ts t)

  pub find_pid-update_self :
      (a p : ℕ) (ts : List Task) (t : Task)
      → Distinct ts
      → find_pid p ts ≡ some t
      → find_addr a ts ≡ some t
      → find_pid p (update a f ts) ≡ some (f t)
  find_pid-update_self a p [] t d found there = cc
  find_pid-update_self a p (x ∷ ts) t d found there = ground (
    arith,
    same_addr x,
    same_pid x,
    find_pid-update_self a p ts t d.2,
    find_addr-addr a ts t,
    find_pid-pid p ts t,
  )

  pub update-Distinct : (b : ℕ) (ts : List Task) → Distinct ts → Distinct (update b f ts)
  update-Distinct b [] d = tt
  update-Distinct b (t ∷ ts) d =
      let apart = find_addr-update_none t.addr b ts d.0 in
      let apart' = find_pid-update_none t.pid b ts d.1 in
      let rest = update-Distinct b ts d.2 in
      elim (Bool-cases (t.addr == b)) [
        | inl here ↦ rw (here, same_addr t, same_pid t) (apart, apart', rest)
        | inr there ↦ rw there (apart, apart', rest)
      ]

-- In a list of distinct tasks a task is found by its address.
pub find_addr-of_elem :
    (ts : List Task) (i : ℕ) (t : Task)
    → Distinct ts
    → get_elem? ts i ≡ some t
    → find_addr t.addr ts ≡ some t
find_addr-of_elem [] i t d at = cc
find_addr-of_elem (x ∷ ts) zero t d at = ground arith
find_addr-of_elem (x ∷ ts) (suc i) t d at = ground (arith, find_addr-of_elem ts i t d.2 at)

-- A task that is found by its process id is found by its address.
pub find_addr-of_pid :
    (p : ℕ) (ts : List Task) (t : Task)
    → Distinct ts
    → find_pid p ts ≡ some t
    → find_addr t.addr ts ≡ some t
find_addr-of_pid p [] t d found = cc
find_addr-of_pid p (x ∷ ts) t d found = ground (arith, find_addr-of_pid p ts t d.2)

-- After a task is taken out no node has its address.
pub find_addr-remove :
    (p : ℕ) (ts : List Task) (t : Task)
    → Distinct ts
    → find_pid p ts ≡ some t
    → find_addr t.addr (remove p ts) ≡ none
find_addr-remove p [] t d found = cc
find_addr-remove p (x ∷ ts) t d found =
    ground (arith, find_addr-remove p ts t d.2, find_addr-of_pid p ts t d.2)

find_addr-remove-none :
    (p a : ℕ) (ts : List Task) → find_addr a ts ≡ none → find_addr a (remove p ts) ≡ none
find_addr-remove-none p a [] h = refl
find_addr-remove-none p a (x ∷ ts) h = ground (arith, find_addr-remove-none p a ts)

find_pid-remove-none :
    (p q : ℕ) (ts : List Task) → find_pid q ts ≡ none → find_pid q (remove p ts) ≡ none
find_pid-remove-none p q [] h = refl
find_pid-remove-none p q (x ∷ ts) h = ground (arith, find_pid-remove-none p q ts)

pub remove-Distinct : (p : ℕ) (ts : List Task) → Distinct ts → Distinct (remove p ts)
remove-Distinct p [] d = tt
remove-Distinct p (x ∷ ts) d =
    let apart = find_addr-remove-none p x.addr ts d.0 in
    let apart' = find_pid-remove-none p x.pid ts d.1 in
    let rest = remove-Distinct p ts d.2 in
    elim (Bool-cases (x.pid == p)) [
      | inl here ↦ rw here d.2
      | inr there ↦ rw there (apart, apart', rest)
    ]

find_addr-append :
    (a : ℕ) (ts : List Task) (t : Task)
    → find_addr a (ts ++ t ∷ [])
      ≡ elim (find_addr a ts) [ some x ↦ some x | none ↦ find_addr a (t ∷ []) ]
find_addr-append a [] t = refl
find_addr-append a (x ∷ ts) t = ground (arith, find_addr-append a ts t)

pub find_pid-append :
    (p : ℕ) (ts : List Task) (t : Task)
    → find_pid p (ts ++ t ∷ [])
      ≡ elim (find_pid p ts) [ some x ↦ some x | none ↦ find_pid p (t ∷ []) ]
find_pid-append p [] t = refl
find_pid-append p (x ∷ ts) t = ground (arith, find_pid-append p ts t)

pub append-Distinct :
    (ts : List Task) (t : Task)
    → Distinct ts
    → find_addr t.addr ts ≡ none
    → find_pid t.pid ts ≡ none
    → Distinct (ts ++ t ∷ [])
append-Distinct [] t d fresh fresh' = (refl, refl, tt)
append-Distinct (x ∷ ts) t d fresh fresh' = (
  ground (arith, find_addr-append x.addr ts t),
  ground (arith, find_pid-append x.pid ts t),
  append-Distinct ts t d.2 (ground arith) (ground arith),
)

-- Taking out the task that was added last.
pub remove-append :
    (ts : List Task) (t : Task) → find_pid t.pid ts ≡ none → remove t.pid (ts ++ t ∷ []) ≡ ts
remove-append [] t fresh = ground arith
remove-append (x ∷ ts) t fresh = ground (arith, remove-append ts t)
