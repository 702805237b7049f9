-- ===== src/Spinlock/Scopes.antt =====
-- Locks and guards go together (spinlock.rs), except over a panic.
use linux_kernel_development.Prelude.{
  ℕ, ◌+◌, ◌≡◌, refl, sym, arith, Bool, true, false, List, [], ◌∷◌, ◌++◌, length,
}
use linux_kernel_development.Prelude.{◌==◌, if◌then◌else◌, ok}
use linux_kernel_development.Cleanup.{CleanupEntry}
use linux_kernel_development.Cleanup.Laws.{run, live, cleared, live-cleared}
use linux_kernel_development.Cleanup.Message.{PanicInfo, panic_handler_lem}
use linux_kernel_development.Spinlock.{
  LockCalls, SpinlockGuard, bpf_spin_lock, bpf_spin_unlock, new, unlock, drop, Running, Step, lock,
  leave_scope, Reach, begin, later, panic,
}

-- The kernel's promise: taking a lock and giving it back change whether that lock is held, and no
-- other.
pub record Locking {S : Type 0} (k : LockCalls S) (held : S → ℕ → Bool) : Type 0 where
  pub locks : (p : ℕ) (s : S) (q : ℕ) → held (k.lock p s).1 q ≡ (if p == q then true else held s q)
  pub unlocks :
      (p : ℕ) (s : S) (q : ℕ) → held (k.unlock p s).1 q ≡ (if p == q then false else held s q)

-- How many of the guards are of the lock `p`.
abbrev pub guards_of : ℕ → List SpinlockGuard → ℕ
guards_of p [] = 0
guards_of p (guard ∷ guards) = (if guard.lock == p then 1 else 0) + guards_of p guards

guards_of-append :
    (p : ℕ) (front back : List SpinlockGuard)
    → guards_of p (front ++ back) ≡ guards_of p front + guards_of p back
guards_of-append p [] back = omega arith
guards_of-append p (guard ∷ front) back = omega (arith, guards_of-append p front back)

module _ {S : Type 0} (k : LockCalls S) (held : S → ℕ → Bool) (locking : Locking k held) (start : S)
    (n : ℕ) (free : (p : ℕ) → held start p ≡ false) where
  -- A held lock has one guard, a free one none.
  abbrev Balanced : Running S → Type 0
  Balanced r = (p : ℕ) → guards_of p r.guards ≡ (if held r.kernel p then 1 else 0)

  Step-Balanced : {r r' : Running S} → Balanced r → Step k held r r' → Balanced r'
  unfolding new bpf_spin_lock drop unlock bpf_spin_unlock
  Step-Balanced {r} balanced (lock q is_free) p =
      ground (arith, balanced p, locking.locks q r.kernel p)
  Step-Balanced {r} balanced (leave_scope front back guard among) p = ground (
    arith,
    balanced p,
    among,
    guards_of-append p front back,
    guards_of-append p front (guard ∷ back),
    locking.unlocks guard.lock r.kernel p,
  )

  -- For a kernel whose calls take and give back one lock each, from a state in which no lock is
  -- held: whatever guards a program makes and lets go out of scope, in any order, every lock that
  -- is held has exactly one live guard, and a lock that is free has none, as long as the program
  -- does not panic.
  pub Reach-Balanced :
      {r : Running S}
      → Reach k held start n r
      → (p : ℕ) → guards_of p r.guards ≡ (if held r.kernel p then 1 else 0)
  Reach-Balanced begin p = rw (free p) refl
  Reach-Balanced (later before step) p = Step-Balanced (Reach-Balanced before) step p

  Reach-table : {r : Running S} → Reach k held start n r → r.table ≡ cleared n
  Reach-table begin = refl
  Reach-table (later before (lock q is_free)) = Reach-table before
  Reach-table (later before (leave_scope front back guard among)) = Reach-table before

  -- For a kernel whose calls take and give back one lock each, in any state that a program reaches
  -- by guards from free locks and an empty clean-up table: a panic is handled, and leaves every
  -- lock as it was. No guard's `unlock` runs, neither by `drop`, which a panic skips, nor from the
  -- table, in which `new` registers nothing: the locks of all live guards stay held, although no
  -- guard is left.
  pub panic-held :
      {r : Running S} (info : PanicInfo)
      → Reach k held start n r
      → (after : Running S) × (msg : List ℕ) × (panic r info ≡ ok (after, msg))
        × (after.guards ≡ [])
        × ((p : ℕ) → (if held after.kernel p then 1 else 0) ≡ guards_of p r.guards)
  unfolding panic
  panic-held {r} info reach =
      let (msg, shows, handled) = panic_handler_lem r.table r.kernel info in
      (
        record { kernel = r.kernel; guards = []; table = cleared (length r.table) },
        msg,
        rw (handled, nothing_runs r.table (Reach-table reach)) refl,
        refl,
        λ p. sym (Reach-Balanced reach p),
      )
    where
      nothing_runs :
          (table : List (CleanupEntry S))
          → table ≡ cleared n
          → run (live table) r.kernel ≡ ok r.kernel
      nothing_runs table empty = rw (empty, live-cleared {W = S} n) refl
