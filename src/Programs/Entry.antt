-- ===== src/Programs/Entry.antt =====
-- What the kernel gets from the entry points of lib.rs.
use linux_kernel_development.Prelude.{ℕ, ◌≡◌, ◌≢◌, refl, arith, Outcome, ok, ◌>>=◌}
use linux_kernel_development.PerCpu.{Symbols}
use linux_kernel_development.Registers.{
  Reg, rax, rip, field_index, field_index-rax, field_index-rip,
}
use linux_kernel_development.Utils.{Result, unwrap_or_else}
use linux_kernel_development.Build.{Build}
use linux_kernel_development.Xdp
use linux_kernel_development.SchedCls
use linux_kernel_development.Programs.{
  Regs, Event, tracepoint, kprobe, perf_event, xdp, sched_cls, entry, kprobe_run, tracepoint_run,
  perf_event_run, kprobe_ctx, tracepoint_ctx, perf_event_ctx, bpf_override_return,
}

-- What the kernel does with the event when its program fails: an XDP program passes the packet, a
-- classifier accepts it, and for the others the event is discarded.
unfoldable pub verdict_on_error : {S : Type 0} → ℕ → ℕ → Event S → ℕ
verdict_on_error xdp_pass tc_act_ok (xdp prog kptr) = xdp_pass
verdict_on_error xdp_pass tc_act_ok (sched_cls prog kptr) = tc_act_ok
verdict_on_error xdp_pass tc_act_ok (tracepoint prog ty mem ctx) = 0
verdict_on_error xdp_pass tc_act_ok (kprobe prog mem ctx) = 0
verdict_on_error xdp_pass tc_act_ok (perf_event prog mem ctx) = 0

-- The program of an event, at the context that `convert_ctx` makes for it.
unfoldable pub program_run : {S : Type 0} → Build → Event S → S → Outcome (Result × S)
program_run b (xdp prog kptr) s = Xdp.convert_ctx b kptr >>= λ ctx. prog ctx s
program_run b (tracepoint prog ty mem ctx) s = prog (tracepoint_ctx ty mem ctx) s
program_run b (kprobe prog mem ctx) s = prog (kprobe_ctx mem ctx) s
program_run b (perf_event prog mem ctx) s = prog (perf_event_ctx mem ctx) s
program_run b (sched_cls prog kptr) s = prog (SchedCls.convert_ctx kptr) s

-- An entry point panics exactly if its program does, or the making of its context. Otherwise the
-- kernel gets the program's value if it succeeded, and the verdict of the program's type if it
-- failed, whatever the error number; the state is the one that the program left.
pub entry_lem :
    {S : Type 0} (b : Build) (xdp_pass tc_act_ok : ℕ) (e : Event S) (s : S)
    → entry b xdp_pass tc_act_ok e s ≡ (
        program_run b e s >>= λ (result, s'). ok (
          elim result [ Result.ok v ↦ v | Result.err code ↦ verdict_on_error xdp_pass tc_act_ok e ],
          s',
        ))
unfolding entry program_run verdict_on_error kprobe_run tracepoint_run perf_event_run Xdp.prog_run
    SchedCls.prog_run unwrap_or_else
entry_lem b xdp_pass tc_act_ok (xdp prog kptr) s = ground arith
entry_lem b xdp_pass tc_act_ok (tracepoint prog ty mem ctx) s = ground arith
entry_lem b xdp_pass tc_act_ok (kprobe prog mem ctx) s = ground arith
entry_lem b xdp_pass tc_act_ok (perf_event prog mem ctx) s = ground arith
entry_lem b xdp_pass tc_act_ok (sched_cls prog kptr) s = ground arith

-- Overriding a probed function's result sets its return value and sends it back at once; no other
-- register changes.
bpf_override_return_lem :
    (syms : Symbols) (regs : Regs) (rc : ℕ) (r : Reg)
    → r ≢ rax
    → r ≢ rip
    → let (status, regs') = bpf_override_return syms regs rc in
      (status ≡ 0) × (regs' rax ≡ rc) × (regs' rip ≡ syms.just_return_func) × (regs' r ≡ regs r)
unfolding bpf_override_return field_index
bpf_override_return_lem syms regs rc r not_rax not_rip =
    let a : field_index r ≢ 10 = λ e. not_rax (field_index-rax r e) in
    let b : field_index r ≢ 16 = λ e. not_rip (field_index-rip r e) in
    (refl, refl, refl, ground arith)
