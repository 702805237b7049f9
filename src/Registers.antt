-- ===== src/Registers.antt =====
-- The saved registers: `pt_regs` of inner_unikernel_rt/src/kprobe/binding.rs, which
-- perf_event/binding.rs repeats. The structure is `repr(C)` with 21 fields of eight bytes.
use linux_kernel_development.Prelude.{ℕ, ◌+◌, ◌*◌, ◌%◌, ◌^◌, ◌<◌, ◌≡◌, refl, arith}
use linux_kernel_development.PerCpu.{Memory, load}

pub data Reg : Type 0 where
  r15 r14 r13 r12 rbp rbx r11 r10 r9 r8 rax rcx rdx rsi rdi orig_rax rip cs eflags rsp ss : Reg

-- The place of each field in the declaration.
unfoldable pub field_index : Reg → ℕ
field_index r15 = 0
field_index r14 = 1
field_index r13 = 2
field_index r12 = 3
field_index rbp = 4
field_index rbx = 5
field_index r11 = 6
field_index r10 = 7
field_index r9 = 8
field_index r8 = 9
field_index rax = 10
field_index rcx = 11
field_index rdx = 12
field_index rsi = 13
field_index rdi = 14
field_index orig_rax = 15
field_index rip = 16
field_index cs = 17
field_index eflags = 18
field_index rsp = 19
field_index ss = 20

-- `size_of::<pt_regs>()`.
abbrev pub pt_regs_size : ℕ
pt_regs_size = 21 * 8

-- The accessor of a register (`decl_reg_accessors!`), of the structure at an address.
unfoldable pub get_reg : Memory → ℕ → Reg → ℕ
unfolding load
get_reg mem addr r = load mem 8 ((addr + 8 * field_index r) % 2 ^ 64)

pub field_index-lt : (r : Reg) → field_index r < 21
unfolding field_index
field_index-lt r15 = omega arith
field_index-lt r14 = omega arith
field_index-lt r13 = omega arith
field_index-lt r12 = omega arith
field_index-lt rbp = omega arith
field_index-lt rbx = omega arith
field_index-lt r11 = omega arith
field_index-lt r10 = omega arith
field_index-lt r9 = omega arith
field_index-lt r8 = omega arith
field_index-lt rax = omega arith
field_index-lt rcx = omega arith
field_index-lt rdx = omega arith
field_index-lt rsi = omega arith
field_index-lt rdi = omega arith
field_index-lt orig_rax = omega arith
field_index-lt rip = omega arith
field_index-lt cs = omega arith
field_index-lt eflags = omega arith
field_index-lt rsp = omega arith
field_index-lt ss = omega arith

pub field_index-rax : (r : Reg) → field_index r ≡ 10 → r ≡ rax
unfolding field_index
field_index-rax r15 e = absurd (omega (arith, e))
field_index-rax r14 e = absurd (omega (arith, e))
field_index-rax r13 e = absurd (omega (arith, e))
field_index-rax r12 e = absurd (omega (arith, e))
field_index-rax rbp e = absurd (omega (arith, e))
field_index-rax rbx e = absurd (omega (arith, e))
field_index-rax r11 e = absurd (omega (arith, e))
field_index-rax r10 e = absurd (omega (arith, e))
field_index-rax r9 e = absurd (omega (arith, e))
field_index-rax r8 e = absurd (omega (arith, e))
field_index-rax rax e = refl
field_index-rax rcx e = absurd (omega (arith, e))
field_index-rax rdx e = absurd (omega (arith, e))
field_index-rax rsi e = absurd (omega (arith, e))
field_index-rax rdi e = absurd (omega (arith, e))
field_index-rax orig_rax e = absurd (omega (arith, e))
field_index-rax rip e = absurd (omega (arith, e))
field_index-rax cs e = absurd (omega (arith, e))
field_index-rax eflags e = absurd (omega (arith, e))
field_index-rax rsp e = absurd (omega (arith, e))
field_index-rax ss e = absurd (omega (arith, e))

pub field_index-rip : (r : Reg) → field_index r ≡ 16 → r ≡ rip
unfolding field_index
field_index-rip r15 e = absurd (omega (arith, e))
field_index-rip r14 e = absurd (omega (arith, e))
field_index-rip r13 e = absurd (omega (arith, e))
field_index-rip r12 e = absurd (omega (arith, e))
field_index-rip rbp e = absurd (omega (arith, e))
field_index-rip rbx e = absurd (omega (arith, e))
field_index-rip r11 e = absurd (omega (arith, e))
field_index-rip r10 e = absurd (omega (arith, e))
field_index-rip r9 e = absurd (omega (arith, e))
field_index-rip r8 e = absurd (omega (arith, e))
field_index-rip rax e = absurd (omega (arith, e))
field_index-rip rcx e = absurd (omega (arith, e))
field_index-rip rdx e = absurd (omega (arith, e))
field_index-rip rsi e = absurd (omega (arith, e))
field_index-rip rdi e = absurd (omega (arith, e))
field_index-rip orig_rax e = absurd (omega (arith, e))
field_index-rip rip e = refl
field_index-rip cs e = absurd (omega (arith, e))
field_index-rip eflags e = absurd (omega (arith, e))
field_index-rip rsp e = absurd (omega (arith, e))
field_index-rip ss e = absurd (omega (arith, e))
