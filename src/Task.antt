-- ===== src/Task.antt =====
-- inner_unikernel_rt/src/task_struct.rs: the current task and what a program may read of it.
pub mod Laws
use linux_kernel_development.Prelude.{
  ℕ, ◌+◌, ◌-◌, ◌*◌, ◌%◌, ◌^◌, min, List, length, Option, none, some,
}
use linux_kernel_development.Prelude.{◌==◌, if◌then◌else◌, Outcome, ok, ◌>>=◌}
use linux_kernel_development.Prelude.Slices.{copy_prefix, write}
use linux_kernel_development.Prelude.Words.{neg32}
use linux_kernel_development.Build.{Build, add64, sub64}
use linux_kernel_development.PerCpu.{Cpu, Symbols, this_cpu_read, read_const_ptr}
use linux_kernel_development.Registers.{pt_regs_size}

-- The fields of the kernel's `struct task_struct` that the crate reads.
pub record KernelTask : Type 0 where
  pub pid : ℕ
  pub tgid : ℕ
  pub stack : ℕ
  pub comm : List ℕ

pub record TaskStruct : Type 0 where
  pub kptr : KernelTask

abbrev pub page_size : ℕ
page_size = 1 * 2 ^ 12

abbrev pub thread_size : ℕ
thread_size = page_size * 2 ^ 2

-- `task_at` is the task structure behind a pointer.
unfoldable pub get_current_task : Symbols → Cpu → (ℕ → KernelTask) → Option TaskStruct
get_current_task syms cpu task_at =
    let current = this_cpu_read cpu read_const_ptr syms.current_task in
    if current == 0 then none else some (record { kptr = task_at current })

unfoldable pub get_pid : TaskStruct → ℕ
get_pid t = t.kptr.pid

unfoldable get_tgid : TaskStruct → ℕ
get_tgid t = t.kptr.tgid

module _ (b : Build) where
  -- The returned status and the buffer after the call; `einval` is the kernel's EINVAL.
  pub get_comm : ℕ → TaskStruct → List ℕ → Outcome (ℕ × List ℕ)
  get_comm einval t buf = if length buf == 0 then ok (neg32 einval, buf) else do
    size ← sub64 b (min (length buf) (length t.kptr.comm)) 1
    if size == 0
        then ok (neg32 einval, buf)
        else do buf' ← copy_prefix buf t.kptr.comm size; buf'' ← write buf' size 0; ok (0, buf'')

  -- The address of the saved registers. The padding at the top of the stack is 0.
  pub get_pt_regs : TaskStruct → Outcome ℕ
  get_pt_regs t = do
    top ← add64 b t.kptr.stack thread_size
    stack_top ← sub64 b top 0
    sub64 b stack_top pt_regs_size
