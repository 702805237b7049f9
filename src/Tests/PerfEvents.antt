-- ===== src/Tests/PerfEvents.antt =====
-- The structures of perf events at concrete contents.
use linux_kernel_development.Prelude.{◌≡◌, refl, arith, [], ◌∷◌}
use linux_kernel_development.PerCpu.{Memory}
use linux_kernel_development.Registers.{rip, field_index}
use linux_kernel_development.Layout.Perf.{sample_index}
use linux_kernel_development.Programs.{perf_event_ctx}
use linux_kernel_development.Programs.PerfEvent.{
  KernelEvent, prepare, IsPlaced, perf_event_ctx-prepare,
}

abbrev memory : Memory
memory addr = addr

-- The registers are 0 to 20; the sample has a period of 4000 at address 0xbeef.
abbrev sampled : KernelEvent
sampled = record {
  regs_at = 0x1000;
  sample_at = 0x2000;
  ctx = 0x3000;
  event = 0x4000;
  regs =
      0 ∷ 1 ∷ 2 ∷ 3 ∷ 4 ∷ 5 ∷ 6 ∷ 7 ∷ 8 ∷ 9 ∷ 10 ∷ 11 ∷ 12 ∷ 13 ∷ 14 ∷ 15 ∷ 16 ∷ 17 ∷ 18 ∷ 19 ∷ 20
      ∷ [];
  sample = 0xbeef ∷ 0 ∷ 0 ∷ 4000 ∷ [];
}

sampled-IsPlaced : IsPlaced sampled
sampled-IsPlaced = omega arith

perf_event_ctx-prepare_example :
    ((perf_event_ctx (prepare memory sampled) 0x3000).regs rip ≡ 16)
    × ((perf_event_ctx (prepare memory sampled) 0x3000).sample_period ≡ 4000)
    × ((perf_event_ctx (prepare memory sampled) 0x3000).addr ≡ 0xbeef)
    × ((perf_event_ctx (prepare memory sampled) 0x3000).kptr ≡ 0x3000)
unfolding field_index sample_index
perf_event_ctx-prepare_example =
    perf_event_ctx-prepare memory sampled rip 16 4000 0xbeef sampled-IsPlaced refl refl refl
      (omega arith) (omega arith) (omega arith)

-- The third of four counters of eight bytes.
