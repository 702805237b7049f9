-- ===== src/Samples/Setting.antt =====
-- What the sample programs are run with.
use linux_kernel_development.Prelude.{ℕ}
use linux_kernel_development.PerCpu.{Cpu, Symbols}
use linux_kernel_development.Task.{KernelTask}
use linux_kernel_development.BaseHelper.{MapCalls, Calls}
use linux_kernel_development.BaseHelper.Methods.{Helpers, base_helper_defs}

-- The kernel's calls, at 64-bit map values, and its generated constants; `deref` reads what a map's
-- reference points to, `task_at` the task structure at an address.
pub record Kernel (S : Type 0) : Type 0 where
  pub maps : MapCalls S ℕ ℕ
  pub calls : Calls S
  pub einval : ℕ
  pub bpf_any : ℕ
  pub deref : S → ℕ → ℕ
  pub syms : Symbols
  pub cpu : Cpu
  pub task_at : ℕ → KernelTask

-- The object that the program is given.
abbrev pub obj : {S : Type 0} → Kernel S → Helpers S ℕ ℕ
obj k = base_helper_defs k.maps k.calls k.einval k.syms k.cpu
