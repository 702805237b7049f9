-- ===== src/Programs/Objects.antt =====
-- The program objects of each type (`new` in kprobe_impl.rs, tp_impl.rs, perf_event_impl.rs, xdp_impl.rs
-- and sched_cls_impl.rs), and the event that the kernel raises when it calls one. The numbers of the
-- program types are generated.
use linux_kernel_development.Prelude.{ℕ, List, Outcome}
use linux_kernel_development.PerCpu.{Memory}
use linux_kernel_development.Utils.{Result}
use linux_kernel_development.Xdp.{XdpBuff, XdpMd}
use linux_kernel_development.SchedCls.{KernelSkBuff, SkBuff}
use linux_kernel_development.Programs.{
  Regs, TpCtx, TpType, PerfEventData, Event, tracepoint, kprobe, perf_event, xdp, sched_cls,
}

-- `kprobe`, `perf_event`, `xdp` and `sched_cls`, by the type of their context.
pub record Program (C S : Type 0) : Type 0 where
  pub rtti : ℕ
  pub prog : C → S → Outcome (Result × S)
  pub name : List ℕ

-- `tracepoint`.
pub record Tracepoint (S : Type 0) : Type 0 where
  pub rtti : ℕ
  pub prog : TpCtx → S → Outcome (Result × S)
  pub name : List ℕ
  pub tp_type : TpType

module _ {S : Type 0} where
  unfoldable pub new_tracepoint :
      ℕ → (TpCtx → S → Outcome (Result × S)) → List ℕ → TpType → Tracepoint S
  new_tracepoint bpf_prog_type_tracepoint f nm tp_ty = record {
    rtti = bpf_prog_type_tracepoint;
    prog = f;
    name = nm;
    tp_type = tp_ty;
  }

  unfoldable pub new_kprobe : ℕ → (Regs → S → Outcome (Result × S)) → List ℕ → Program Regs S
  new_kprobe bpf_prog_type_kprobe f nm = record { rtti = bpf_prog_type_kprobe; prog = f; name = nm }

  unfoldable new_perf_event :
      ℕ → (PerfEventData → S → Outcome (Result × S)) → List ℕ → Program PerfEventData S
  new_perf_event bpf_prog_type_perf_event f nm = record {
    rtti = bpf_prog_type_perf_event;
    prog = f;
    name = nm;
  }

  unfoldable pub new_xdp : (XdpMd → S → Outcome (Result × S)) → List ℕ → ℕ → Program XdpMd S
  new_xdp f nm rtti = record { rtti = rtti; prog = f; name = nm }

  unfoldable new_sched_cls : (SkBuff → S → Outcome (Result × S)) → List ℕ → ℕ → Program SkBuff S
  new_sched_cls f nm rtti = record { rtti = rtti; prog = f; name = nm }

  -- What reaches the entry point of the type: the object's function and the kernel's context.
  unfoldable pub tracepoint_event : Tracepoint S → Memory → ℕ → Event S
  tracepoint_event p mem ctx = tracepoint p.prog p.tp_type mem ctx

  unfoldable kprobe_event : Program Regs S → Memory → ℕ → Event S
  kprobe_event p mem ctx = kprobe p.prog mem ctx

  unfoldable perf_event_event : Program PerfEventData S → Memory → ℕ → Event S
  perf_event_event p mem ctx = perf_event p.prog mem ctx

  unfoldable xdp_event : Program XdpMd S → XdpBuff → Event S
  xdp_event p kptr = xdp p.prog kptr

  unfoldable sched_cls_event : Program SkBuff S → KernelSkBuff → Event S
  sched_cls_event p kptr = sched_cls p.prog kptr
