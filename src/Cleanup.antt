-- ===== src/Cleanup.antt =====
-- inner_unikernel_rt/src/panic.rs: the table of clean-up entries of one CPU, the panic handler and
-- the stack check. A clean-up function acts on the world `W` outside the table (locks, references)
-- and may itself panic.
pub mod Laws
pub mod Register
pub mod Message
use linux_kernel_development.Prelude.{
  ℕ, zero, suc, ◌+◌, ◌-◌, ◌^◌, ◌%◌, Option, none, some, List, [], ◌∷◌,
}
use linux_kernel_development.Prelude.{ltb, ◌==◌, if◌then◌else◌, min, length}
use linux_kernel_development.Prelude.{
  Outcome, ok, panics, ◌>>=◌, object_count_exceeded, stack_overflow,
}
use linux_kernel_development.Prelude.Slices.{read, write}
use linux_kernel_development.Build.{Build}
use linux_kernel_development.PerCpu.{Cpu, Symbols, this_cpu_ptr}

abbrev pub entries_size : ℕ
entries_size = 64

abbrev pub CleanupFn : Type 0 → Type 0
CleanupFn W = ℕ → W → Outcome W

pub record CleanupEntry (W : Type 0) : Type 0 where
  pub valid : ℕ
  pub cleanup_fn : Option (CleanupFn W)
  pub cleanup_arg : ℕ

module _ {W : Type 0} where
  -- `CleanupEntry::new`.
  pub new_entry : CleanupFn W → ℕ → CleanupEntry W
  new_entry cleanup_fn cleanup_arg = record {
    valid = 1;
    cleanup_fn = some cleanup_fn;
    cleanup_arg = cleanup_arg;
  }

  pub cleanup : CleanupEntry W → W → Outcome W
  cleanup entry w =
      if entry.valid == 0
      then ok w
      else (elim entry.cleanup_fn [ none ↦ ok w | some f ↦ f entry.cleanup_arg w ])

-- `Default::default()`.
pub default_entry : (W : Type 0) → CleanupEntry W
default_entry W = record { valid = 0; cleanup_fn = none; cleanup_arg = 0 }

module _ {W : Type 0} where
  -- The loop of `find_next_emtpy_entry`, at index `idx`.
  unfoldable pub find_from : ℕ → List (CleanupEntry W) → Outcome (ℕ × CleanupEntry W)
  find_from idx [] = panics object_count_exceeded
  find_from idx (entry ∷ entries) =
      if entry.valid == 0 then ok (idx, entry) else find_from (idx + 1) entries

  unfoldable pub find_next_empty_entry : List (CleanupEntry W) → Outcome (ℕ × CleanupEntry W)
  find_next_empty_entry entries = find_from 0 entries

  -- `cleanup_all`: the table and the world after it.
  pub cleanup_all : List (CleanupEntry W) → W → Outcome (List (CleanupEntry W) × W)
  unfolding cleanup default_entry
  cleanup_all [] w = ok ([], w)
  cleanup_all (entry ∷ entries) w = do
    w' ← cleanup entry w
    (entries', w'') ← cleanup_all entries w'
    ok (default_entry W ∷ entries', w'')

  -- `self.entries[index]` and its mutable form.
  pub index : List (CleanupEntry W) → ℕ → Outcome (CleanupEntry W)
  index entries i = read entries i

  pub index_mut : List (CleanupEntry W) → ℕ → CleanupEntry W → Outcome (List (CleanupEntry W))
  index_mut entries i entry = write entries i entry

-- `cleanup_entries_this_cpu`: `table_at` is the table of so many entries in memory at an address.
pub cleanup_entries_this_cpu :
    {W : Type 0}
    → Build
    → Symbols
    → Cpu
    → (ℕ → ℕ → List (CleanupEntry W))
    → Outcome (List (CleanupEntry W))
cleanup_entries_this_cpu b syms cpu table_at = do
  entries_ptr ← this_cpu_ptr b syms cpu syms.iu_cleanup_entries
  ok (table_at entries_ptr entries_size)

-- `__iu_check_stack`: `iu_stack_ptr` is the top of the CPU's stack for programs, and the jump is
-- taken (`ja`) if the stack pointer is above the top less two pages, as unsigned words.
unfoldable check_stack : ℕ → ℕ → Outcome (Unit {0})
check_stack iu_stack_ptr rsp =
    if ltb ((iu_stack_ptr + 2 ^ 64 - 0x2000) % 2 ^ 64) rsp then ok tt else panics stack_overflow
