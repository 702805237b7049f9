-- ===== src/PerCpu.antt =====
-- inner_unikernel_rt/src/per_cpu.rs: reads of per-CPU variables, relative to the segment base `gs`
-- of the CPU, and addresses of per-CPU variables. A read never faults in the model.
use linux_kernel_development.Prelude.{ℕ, zero, suc, ◌+◌, ◌*◌, ◌%◌, ◌^◌, ◌<◌, ◌≡◌, ap, ◌∙◌, arith}
use linux_kernel_development.Prelude.{List, Outcome, ◌>>=◌}
use Prim.Native.Nat.add
use native.Mathlib.Nat.{pow-suc, zero-add}
use linux_kernel_development.Prelude.Slices.{read}
use linux_kernel_development.Prelude.Words.{as_u8}
use linux_kernel_development.Build.{Build, add64}

-- The byte at each address.
abbrev pub Memory : Type 0
Memory = ℕ → ℕ

-- `count` bytes from an address on, the lowest first.
unfoldable pub load : Memory → ℕ → ℕ → ℕ
load mem zero addr = 0
load mem (suc count) addr = as_u8 (mem addr) + 2 ^ 8 * load mem count ((addr + 1) % 2 ^ 64)

-- The types that `PerCPURead` is implemented for; a pointer is eight bytes.
pub data ReadType : Type 0 where
  read_u64 read_u32 read_u16 read_u8 read_const_ptr read_mut_ptr : ReadType

-- The register that the `mov` of each implementation fills.
unfoldable pub read_size : ReadType → ℕ
read_size read_u64 = 8
read_size read_u32 = 4
read_size read_u16 = 2
read_size read_u8 = 1
read_size read_const_ptr = 8
read_size read_mut_ptr = 8

-- What a CPU sees: its segment base and the memory.
pub record Cpu : Type 0 where
  pub gs : ℕ
  pub mem : Memory

-- `mov var, gs:[rcx]`.
unfoldable pub this_cpu_read : Cpu → ReadType → ℕ → ℕ
unfolding load read_size
this_cpu_read cpu ty addr = load cpu.mem (read_size ty) ((cpu.gs + addr) % 2 ^ 64)

-- The symbols of the kernel that the crate links against (stub.rs): addresses of per-CPU variables,
-- and the values of global ones.
pub record Symbols : Type 0 where
  pub cpu_number : ℕ
  pub numa_node : ℕ
  pub iu_cleanup_entries : ℕ
  pub iu_stack_ptr : ℕ
  pub current_task : ℕ
  pub just_return_func : ℕ
  pub per_cpu_offset : List ℕ
  pub jiffies : ℕ

module _ (b : Build) (syms : Symbols) (cpu : Cpu) where
  -- `__this_cpu_ptr`, and with it `this_cpu_ptr` and `this_cpu_ptr_mut`.
  unfoldable pub this_cpu_ptr : ℕ → Outcome ℕ
  this_cpu_ptr pcp_addr = do
    let cpu_id = this_cpu_read cpu read_u32 syms.cpu_number
    offset ← read syms.per_cpu_offset cpu_id
    add64 b pcp_addr offset

pub load-lt : (mem : Memory) (count addr : ℕ) → load mem count addr < 256 ^ count
unfolding load
load-lt mem zero addr = omega arith
load-lt mem (suc count) addr =
    omega (arith, load-lt mem count ((addr + 1) % 2 ^ 64), pow-suc 256 count)

-- A read of more bytes has the shorter read as its low part; the rest is what lies behind it.
pub load-add :
    (mem : Memory) (n k addr : ℕ)
    → addr < 2 ^ 64
    → load mem (n + k) addr ≡ load mem n addr + 256 ^ n * load mem k ((addr + n) % 2 ^ 64)
unfolding load
load-add mem zero k addr lt = ground (arith, zero-add k)
load-add mem (suc n) k addr lt =
    let next : ℕ = (addr + 1) % 2 ^ 64 in
    let ih = load-add mem n k next (omega arith) in
    let place : (next + n) % 2 ^ 64 ≡ (addr + suc n) % 2 ^ 64 = omega arith in
    ap (λ (t : ℕ). load mem t addr) (add.suc n k)
    ∙ omega (
      arith,
      ih,
      ap (λ (t : ℕ). 256 ^ n * load mem k t) place,
      ap (λ (t : ℕ). t * load mem k ((addr + suc n) % 2 ^ 64)) (pow-suc 256 n),
    )
