-- ===== src/Tests/Locks.antt =====
-- Two spin locks, of which one is still held.
use linux_kernel_development.Prelude.{ℕ, ◌≡◌, refl, Bool, true, false, List, [], ◌∷◌, none, ok}
use linux_kernel_development.Prelude.{◌==◌, if◌then◌else◌}
use linux_kernel_development.Cleanup.Message.{PanicInfo}
use linux_kernel_development.Cleanup.Laws.{cleared}
use linux_kernel_development.Spinlock.{
  LockCalls, SpinlockGuard, bpf_spin_lock, bpf_spin_unlock, new, unlock, drop, Running, lock,
  leave_scope, Reach, begin, later, panic,
}
use linux_kernel_development.Spinlock.Scopes.{Locking, guards_of, Reach-Balanced, panic-held}

abbrev Locks : Type 0
Locks = ℕ → Bool

abbrev lock_calls : LockCalls Locks
lock_calls = record {
  lock = λ p s. (0, λ q. if p == q then true else s q);
  unlock = λ p s. (0, λ q. if p == q then false else s q);
}

abbrev is_held : Locks → ℕ → Bool
is_held s p = s p

locking : Locking lock_calls is_held
locking = record { locks = λ p s q. refl; unlocks = λ p s q. refl }

abbrev all_free : Locks
all_free p = false

abbrev guard : ℕ → SpinlockGuard
guard p = record { lock = p }

-- After locks 5 and 6 are taken and the guard of 5 goes out of scope.
abbrev one_left : Running Locks
one_left = record {
  kernel = drop lock_calls (guard 5) (new lock_calls 6 (new lock_calls 5 all_free).1).1;
  guards = guard 6 ∷ [];
  table = cleared 64;
}

reach : Reach lock_calls is_held all_free 64 one_left
unfolding new bpf_spin_lock drop unlock bpf_spin_unlock
reach =
    later (later (later begin (lock 5 refl)) (lock 6 refl))
      (leave_scope (guard 6 ∷ []) [] (guard 5) refl)

Reach-Balanced_example : guards_of 6 (guard 6 ∷ []) ≡ (if one_left.kernel 6 then 1 else 0)
Reach-Balanced_example = Reach-Balanced lock_calls is_held locking all_free 64 (λ p. refl) reach 6

abbrev silent : PanicInfo
silent = record { message = none; payload = none }

panic-held_example :
    (after : Running Locks) × (msg : List ℕ) × (panic one_left silent ≡ ok (after, msg))
    × (after.guards ≡ [])
    × ((p : ℕ) → (if after.kernel p then 1 else 0) ≡ guards_of p (guard 6 ∷ []))
panic-held_example = panic-held lock_calls is_held locking all_free 64 (λ p. refl) silent reach
