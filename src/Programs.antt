-- ===== src/Programs.antt =====
-- The other program types of inner_unikernel_rt/src (kprobe/kprobe_impl.rs, tracepoint/tp_impl.rs,
-- perf_event/perf_event_impl.rs) and the entry points of lib.rs. A program is a function of its
-- context and of the kernel's state `S`, and may panic. The generated constants that an entry needs
-- (`XDP_PASS`, `TC_ACT_OK`) are arguments. A context that is a pointer stands for what it points to
-- when the program starts.
pub mod Entry
pub mod Objects
pub mod PerfEvent
use linux_kernel_development.Prelude.{ℕ, ◌+◌, ◌%◌, ◌^◌, ◌==◌, if◌then◌else◌, Outcome, ok, ◌>>=◌}
use linux_kernel_development.PerCpu.{Memory, Symbols, load}
use linux_kernel_development.Registers.{Reg, rax, rip, field_index, get_reg}
use linux_kernel_development.Layout.{offset_of, read_at}
use linux_kernel_development.Layout.Perf.{
  SampleField, period, sample_index, perf_sample_data, KernField, kern_index, get_perf_reg,
  bpf_perf_event_data_kern,
}
use linux_kernel_development.Utils.{Result, to_result64, unwrap_or_else}
use linux_kernel_development.BaseHelper.{IuMap}
use linux_kernel_development.Build.{Build}
use linux_kernel_development.Xdp
use linux_kernel_development.Xdp.{XdpBuff, XdpMd}
use linux_kernel_development.SchedCls
use linux_kernel_development.SchedCls.{KernelSkBuff, SkBuff}

-- The registers of a `pt_regs`, by name.
abbrev pub Regs : Type 0
Regs = Reg → ℕ

-- A program's run, and what the kernel is given of its result.
abbrev finish : {S : Type 0} → Outcome (Result × S) → ℕ → Outcome (ℕ × S)
finish run default = do (result, s') ← run; ok (unwrap_or_else result default, s')

-- `convert_ctx` of kprobe_impl.rs: the registers at the context's address.
unfoldable pub kprobe_ctx : Memory → ℕ → Regs
kprobe_ctx mem ctx r = get_reg mem ctx r

pub kprobe_run : {S : Type 0} → (Regs → S → Outcome (Result × S)) → Memory → ℕ → S → Outcome (ℕ × S)
kprobe_run prog mem ctx s = finish (prog (kprobe_ctx mem ctx) s) 0

-- `bpf_override_return`: the registers after it; the call itself returns 0.
pub bpf_override_return : Symbols → Regs → ℕ → ℕ × Regs
bpf_override_return syms regs rc = (
  0,
  λ r.
      if field_index r == field_index rax
      then rc
      else if field_index r == field_index rip
      then syms.just_return_func
      else regs r,
)

-- The argument structures of tracepoint/binding.rs, of eight-byte fields.
pub record SyscallsEnterOpenArgs : Type 0 where
  pub unused : ℕ
  pub syscall_nr : ℕ
  pub filename_ptr : ℕ
  pub flags : ℕ
  pub mode : ℕ

pub record SyscallsExitOpenArgs : Type 0 where
  pub unused : ℕ
  pub syscall_nr : ℕ
  pub ret : ℕ

pub data TpType : Type 0 where
  void syscalls_enter_open syscalls_exit_open : TpType

pub data TpCtx : Type 0 where
  void : TpCtx
  syscalls_enter_open : SyscallsEnterOpenArgs → TpCtx
  syscalls_exit_open : SyscallsExitOpenArgs → TpCtx

-- The eight-byte field at an offset of the context.
abbrev field : Memory → ℕ → ℕ → ℕ
field mem ctx offset = load mem 8 ((ctx + offset) % 2 ^ 64)

unfoldable pub tracepoint_ctx : TpType → Memory → ℕ → TpCtx
tracepoint_ctx TpType.void mem ctx = TpCtx.void
tracepoint_ctx TpType.syscalls_enter_open mem ctx = TpCtx.syscalls_enter_open (record {
  unused = field mem ctx 0;
  syscall_nr = field mem ctx 8;
  filename_ptr = field mem ctx 16;
  flags = field mem ctx 24;
  mode = field mem ctx 32;
})
tracepoint_ctx TpType.syscalls_exit_open mem ctx =
    TpCtx.syscalls_exit_open
      (record { unused = field mem ctx 0; syscall_nr = field mem ctx 8; ret = field mem ctx 16 })

pub tracepoint_run :
    {S : Type 0} → (TpCtx → S → Outcome (Result × S)) → TpType → Memory → ℕ → S → Outcome (ℕ × S)
tracepoint_run prog ty mem ctx s = finish (prog (tracepoint_ctx ty mem ctx) s) 0

pub record PerfEventData : Type 0 where
  pub regs : Regs
  pub sample_period : ℕ
  pub addr : ℕ
  pub kptr : ℕ

-- `convert_ctx` of perf_event_impl.rs: the registers and the sample that the kernel's structure at
-- the context's address points to.
unfoldable pub perf_event_ctx : Memory → ℕ → PerfEventData
perf_event_ctx mem ctx =
    let regs = read_at mem ctx (offset_of bpf_perf_event_data_kern (kern_index KernField.regs)) 8 in
    let sample =
      read_at mem ctx (offset_of bpf_perf_event_data_kern (kern_index KernField.sample_data)) 8 in
    record {
      regs = λ r. get_perf_reg mem regs r;
      sample_period = read_at mem sample (offset_of perf_sample_data (sample_index period)) 8;
      addr = read_at mem sample (offset_of perf_sample_data (sample_index SampleField.addr)) 8;
      kptr = ctx;
    }

pub perf_event_run :
    {S : Type 0} → (PerfEventData → S → Outcome (Result × S)) → Memory → ℕ → S → Outcome (ℕ × S)
perf_event_run prog mem ctx s = finish (prog (perf_event_ctx mem ctx) s) 0

-- `bpf_perf_prog_read_value` with a buffer of type `B` of `size` bytes, which the kernel fills.
unfoldable bpf_perf_prog_read_value :
    {S B : Type 0} → (ℕ → B → ℕ → S → ℕ × B × S) → ℕ → PerfEventData → B → S → Result × B × S
bpf_perf_prog_read_value call size ctx buf s =
    let (ret, buf', s') = call ctx.kptr buf size s in (to_result64 ret, buf', s')

unfoldable bpf_get_stackid_pe :
    {S : Type 0} → (ℕ → ℕ → ℕ → S → ℕ × S) → ℕ → PerfEventData → IuMap → ℕ → S → Result × S
bpf_get_stackid_pe call einval ctx map flags s =
    if map.kptr == 0
    then (Result.err einval, s)
    else (let (ret, s') = call ctx.kptr map.kptr flags s in (to_result64 ret, s'))

-- A program of each type, with the context that the kernel passes to its entry point.
pub data Event (S : Type 0) : Type 0 where
  tracepoint : (TpCtx → S → Outcome (Result × S)) → TpType → Memory → ℕ → Event S
  kprobe : (Regs → S → Outcome (Result × S)) → Memory → ℕ → Event S
  perf_event : (PerfEventData → S → Outcome (Result × S)) → Memory → ℕ → Event S
  xdp : (XdpMd → S → Outcome (Result × S)) → XdpBuff → Event S
  sched_cls : (SkBuff → S → Outcome (Result × S)) → KernelSkBuff → Event S

-- The entry points that `define_prog_entry!` makes.
pub entry : {S : Type 0} → Build → ℕ → ℕ → Event S → S → Outcome (ℕ × S)
entry b xdp_pass tc_act_ok (tracepoint prog ty mem ctx) s = tracepoint_run prog ty mem ctx s
entry b xdp_pass tc_act_ok (kprobe prog mem ctx) s = kprobe_run prog mem ctx s
entry b xdp_pass tc_act_ok (perf_event prog mem ctx) s = perf_event_run prog mem ctx s
entry b xdp_pass tc_act_ok (xdp prog kptr) s = Xdp.prog_run b prog xdp_pass kptr s
entry b xdp_pass tc_act_ok (sched_cls prog kptr) s = SchedCls.prog_run prog tc_act_ok kptr s
