-- ===== src/Samples/Tracex.antt =====
-- samples/tracex5/src/main.rs: a kprobe on the seccomp filter that prints some system calls. The
-- kernel's structure and the numbers of the calls are generated at build time.
pub mod Lines
use linux_kernel_development.Prelude.{ok, ℕ, Bool, ◌&&◌, List, [], ◌∷◌, ◌++◌, get_or, replicate}
use linux_kernel_development.Prelude.{ltb, leb, ◌==◌, if◌then◌else◌}
use linux_kernel_development.Prelude.Slices.{bytes}
use linux_kernel_development.Prelude.Words.{as_u32}
use linux_kernel_development.Registers.{Reg, rsi, rdi}
use linux_kernel_development.Utils.{Result}
use linux_kernel_development.Programs.{Regs}
use linux_kernel_development.Programs.Objects.{Program, new_kprobe}
use linux_kernel_development.BaseHelper.{Calls, bpf_printk, bpf_probe_read_kernel}

-- `seccomp_data`; `args` has six entries.
pub record SeccompData : Type 0 where
  pub nr : ℕ
  pub arch : ℕ
  pub instruction_pointer : ℕ
  pub args : List ℕ

abbrev pub arg : SeccompData → ℕ → ℕ
arg sd i = get_or sd.args i 0

-- The `__NR_` constants.
pub record Numbers : Type 0 where
  pub nr_read : ℕ
  pub nr_write : ℕ
  pub nr_mmap : ℕ
  pub nr_getuid : ℕ
  pub nr_getsid : ℕ

-- The buffer that a probe starts with.
abbrev pub empty_data : SeccompData
empty_data = record { nr = 0; arch = 0; instruction_pointer = 0; args = replicate 6 0 }

-- The formats.
abbrev pub write_line : List ℕ
write_line = bytes "write(fd=%d, buf=%p, size=%d)" ++ 10 ∷ []

abbrev pub read_line : List ℕ
read_line = bytes "read(fd=%d, buf=%p, size=%d)" ++ 10 ∷ []

abbrev pub mmap_line : List ℕ
mmap_line = bytes "mmap" ++ 10 ∷ []

abbrev pub ids_line : List ℕ
ids_line = bytes "syscall=%d (one of get/set uid/pid/gid)" ++ 10 ∷ []

module _ {S : Type 0} (c : Calls S) (probe : ℕ → ℕ → SeccompData → S → ℕ × SeccompData × S)
    (size : ℕ) where
  func_sys_write : Regs → S → Result × S
  func_sys_write ctx s =
      let (ret, sd, s1) = bpf_probe_read_kernel probe size empty_data (ctx rsi) s in
      elim ret [
        | Result.err e ↦ (Result.err e, s1)
        | Result.ok v ↦
            (if arg sd 2 == 512
              then (Result.ok 0, bpf_printk c write_line (arg sd 0) (arg sd 1) (arg sd 2) s1)
              else (Result.ok 0, s1))
      ]

  func_sys_read : Regs → S → Result × S
  func_sys_read ctx s =
      let (ret, sd, s1) = bpf_probe_read_kernel probe size empty_data (ctx rsi) s in
      elim ret [
        | Result.err e ↦ (Result.err e, s1)
        | Result.ok v ↦
            (if ltb 128 (arg sd 2) && leb (arg sd 2) 1024
              then (Result.ok 0, bpf_printk c read_line (arg sd 0) (arg sd 1) (arg sd 2) s1)
              else (Result.ok 0, s1))
      ]

  func_sys_mmap : Regs → S → Result × S
  func_sys_mmap ctx s = (Result.ok 0, bpf_printk c mmap_line 0 0 0 s)

  pub iu_prog1_fn : Numbers → Regs → S → Result × S
  iu_prog1_fn n ctx s =
      let nr = as_u32 (ctx rdi) in
      if nr == n.nr_read
      then func_sys_read ctx s
      else if nr == n.nr_write
      then func_sys_write ctx s
      else if nr == n.nr_mmap
      then func_sys_mmap ctx s
      else if leb n.nr_getuid nr && leb nr n.nr_getsid
      then (Result.ok 0, bpf_printk c ids_line (ctx rdi) 0 0 s)
      else (Result.ok 0, s)

  -- `PROG`.
  unfoldable prog : Numbers → ℕ → Program Regs S
  prog n bpf_prog_type_kprobe =
      new_kprobe bpf_prog_type_kprobe (λ ctx s. ok (iu_prog1_fn n ctx s)) (bytes "iu_prog1")
