-- ===== src/Spinlock.antt =====
-- inner_unikernel_rt/src/spinlock.rs: the guard of a spin lock. The kernel's two calls are parameters;
-- a lock is its address. A program that uses guards is a sequence of steps: it makes a guard, a guard
-- goes out of scope, or the program panics, which runs the handler of panic.rs and no `drop`.
pub mod Scopes
use linux_kernel_development.Prelude.{ℕ, Bool, false, List, [], ◌∷◌, ◌++◌, ◌≡◌, Outcome, ok, ◌>>=◌}
use linux_kernel_development.Cleanup.{CleanupEntry}
use linux_kernel_development.Cleanup.Laws.{cleared}
use linux_kernel_development.Cleanup.Message.{PanicInfo, panic_handler}

-- The kernel's `bpf_spin_lock` and `bpf_spin_unlock`.
pub record LockCalls (S : Type 0) : Type 0 where
  pub lock : ℕ → S → ℕ × S
  pub unlock : ℕ → S → ℕ × S

-- `iu_spinlock_guard`.
pub record SpinlockGuard : Type 0 where
  pub lock : ℕ

module _ {S : Type 0} (k : LockCalls S) where
  unfoldable pub bpf_spin_lock : ℕ → S → ℕ × S
  bpf_spin_lock lock s = k.lock lock s

  unfoldable pub bpf_spin_unlock : ℕ → S → ℕ × S
  bpf_spin_unlock lock s = k.unlock lock s

  unfoldable pub new : ℕ → S → SpinlockGuard × S
  new lock s = let (ret, s') = bpf_spin_lock lock s in (record { lock = lock }, s')

  unfoldable pub unlock : SpinlockGuard → S → S
  unlock guard s = (bpf_spin_unlock guard.lock s).1

  unfoldable pub drop : SpinlockGuard → S → S
  drop guard s = unlock guard s

-- The kernel's state, the guards that are alive and the CPU's clean-up table.
pub record Running (S : Type 0) : Type 0 where
  pub kernel : S
  pub guards : List SpinlockGuard
  pub table : List (CleanupEntry S)

module _ {S : Type 0} (k : LockCalls S) (held : S → ℕ → Bool) where
  -- `new` returns only once the lock is free.
  pub data Step (r : Running S) : Running S → Type 0 where
    lock :
        (p : ℕ)
        → held r.kernel p ≡ false
        → Step r (record {
          kernel = (new k p r.kernel).1;
          guards = (new k p r.kernel).0 ∷ r.guards;
          table = r.table;
        })
    leave_scope :
        (front back : List SpinlockGuard) (guard : SpinlockGuard)
        → r.guards ≡ front ++ guard ∷ back
        → Step r
            (record { kernel = drop k guard r.kernel; guards = front ++ back; table = r.table })

  pub data Reach (start : S) (n : ℕ) : Running S → Type 0 where
    begin : Reach start n (record { kernel = start; guards = []; table = cleared n })
    later : {r r' : Running S} → Reach start n r → Step r r' → Reach start n r'

-- What a panic leaves: the guards are forgotten.
pub panic : {S : Type 0} → Running S → PanicInfo → Outcome (Running S × List ℕ)
panic r info = do
  (table', kernel', msg) ← panic_handler r.table r.kernel info
  ok (record { kernel = kernel'; guards = []; table = table' }, msg)
