-- ===== src/Samples/Hello.antt =====
-- samples/hello/src/main.rs: a tracepoint program that prints who triggered it; and
-- samples/mp4-sample/src/main.rs, an XDP program that passes every packet.
use linux_kernel_development.Prelude.{ok, ℕ, none, some}
use linux_kernel_development.Prelude.{List, [], ◌∷◌, ◌++◌}
use linux_kernel_development.Prelude.Slices.{bytes}
use linux_kernel_development.Prelude.Words.{as_u32, sign_extend32}
use linux_kernel_development.Task.{get_current_task, get_pid}
use linux_kernel_development.Utils.{Result}
use linux_kernel_development.Xdp.{XdpMd}
use linux_kernel_development.Programs.{TpCtx, TpType}
use linux_kernel_development.Programs.Objects.{Tracepoint, Program, new_tracepoint, new_xdp}
use linux_kernel_development.BaseHelper.{bpf_printk}
use linux_kernel_development.Samples.Setting.{Kernel, obj}

abbrev hello : List ℕ
hello = bytes "Rust triggered from PID %u on CPU %u." ++ 10 ∷ []

unfoldable iu_prog1_fn : {S : Type 0} → Kernel S → TpCtx → S → Result × S
iu_prog1_fn k ctx s =
    let option_task = get_current_task k.syms k.cpu k.task_at in
    elim option_task [
      | none ↦ (Result.ok 0, s)
      | some task ↦
          (let cpu = (obj k).bpf_get_smp_processor_id in
            let pid = get_pid task in
            (Result.ok 0, bpf_printk k.calls hello (sign_extend32 pid) cpu 0 s))
    ]

unfoldable xdp_rx_filter_fn : {S : Type 0} → ℕ → XdpMd → S → Result × S
xdp_rx_filter_fn xdp_pass ctx s = (Result.ok (as_u32 xdp_pass), s)

-- The statics `PROG` and `PROG1`.
unfoldable prog : {S : Type 0} → Kernel S → ℕ → Tracepoint S
prog k bpf_prog_type_tracepoint =
    new_tracepoint bpf_prog_type_tracepoint (λ ctx s. ok (iu_prog1_fn k ctx s)) (bytes "iu_prog1")
      TpType.void

unfoldable xdp_prog : {S : Type 0} → ℕ → ℕ → Program XdpMd S
xdp_prog xdp_pass bpf_prog_type_xdp =
    new_xdp (λ ctx s. ok (xdp_rx_filter_fn xdp_pass ctx s)) (bytes "xdp_rx_filter")
      bpf_prog_type_xdp
