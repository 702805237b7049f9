-- ===== src/Tests/Samples.antt =====
-- The sample programs with a small kernel: one map from numbers to numbers, which hands out the
-- pointer `key + 1`, and the log of what it is asked to print.
use linux_kernel_development.Prelude.{
  ℕ, ◌-◌, ◌^◌, ◌≡◌, ◌⊎◌, inl, refl, arith, List, [], ◌∷◌, none, some, true, ok,
}
use linux_kernel_development.Prelude.{◌==◌, if◌then◌else◌}
use linux_kernel_development.Prelude.Words.{is_neg64}
use linux_kernel_development.Programs.{TpCtx, Regs, entry}
use linux_kernel_development.Programs.Objects.{tracepoint_event}
use linux_kernel_development.Tests.Kernel.{
  Held, pointer, behind, found_again, same_key, map, symbols, cpu,
}
use linux_kernel_development.BaseHelper.{MapCalls, Calls}
use linux_kernel_development.BaseHelper.Maps.{MapContract}
use linux_kernel_development.BaseHelper.Traced.{Line, line, Tracing}
use linux_kernel_development.Samples.Setting.{Kernel}
use linux_kernel_development.Samples.MapTest.{
  not_found, deleted, found_val, updated, test1_failed, test2_failed, current_pid, map_test1,
  iu_prog1_fn, prog,
}
use linux_kernel_development.Samples.MapTest.Trace.{
  stores, erases, first_lines, Stopped, Finished, map_test1_lem,
}
use linux_kernel_development.Samples.MapTest.Program.{
  Reported, stored_lines, second_lines, all_lines,
}
use linux_kernel_development.Samples.MapTest.Entry.{entry-prog}
use linux_kernel_development.PerCpu.{Memory}
use linux_kernel_development.Tests.{debug}
use linux_kernel_development.Samples.Tracex
use linux_kernel_development.Samples.Tracex.{SeccompData, Numbers}
use linux_kernel_development.Samples.Tracex.Lines.{Probing, Shown, iu_prog1_fn-Shown}

record World : Type 0 where
  held : Held
  log : List Line

abbrev map_calls : MapCalls World ℕ ℕ
map_calls = record {
  lookup = λ p key s. (pointer (s.held key) key, s);
  update = λ p key v flags s.
      (0, record { held = λ key'. if key == key' then some v else s.held key'; log = s.log });
  delete = λ p key s.
      (0, record { held = λ key'. if key == key' then none else s.held key'; log = s.log });
  push = λ p v flags s. (2 ^ 64 - 95, s);
  pop = λ p v s. (2 ^ 64 - 95, v, s);
  peek = λ p v s. (2 ^ 64 - 95, v, s);
}

abbrev other_calls : Calls World
other_calls = record {
  trace_printk = λ fmt size a b c s. (size, record { held = s.held; log = line fmt a b c ∷ s.log });
  ringbuf_reserve = λ p size flags s. (0, s);
  ringbuf_submit = λ ptr flags s. s;
  snprintf = λ str size fmt args count s. (0, str, s);
  get_random_u32 = λ s. (4, s);
  ktime_get_mono_fast_ns = λ s. 0;
  ktime_get_boot_fast_ns = λ s. 0;
}

abbrev kernel : Kernel World
kernel = record {
  maps = map_calls;
  calls = other_calls;
  einval = 22;
  bpf_any = 0;
  deref = λ s ptr. behind (s.held (ptr - 1));
  syms = symbols;
  cpu = cpu;
  task_at = λ ptr. record { pid = 77; tgid = 77; stack = 0x8000; comm = [] };
}

abbrev kept : MapContract map_calls 0x1000
kept = record {
  view = λ s key. s.held key;
  at = λ s ptr. behind (s.held (ptr - 1));
  same = λ key key'. key == key';
  same_refl = λ key. same_key key;
  lookup_keeps = λ key s key'. refl;
  lookup_finds = λ key s v e. found_again key s.held v e;
  lookup_misses = λ key s e. rw e refl;
  update_status = λ key v flags s. inl refl;
  update_stores = λ key v flags s e key'. refl;
  delete_status = λ key s. inl refl;
  delete_removes = λ key s e key'. refl;
  update_refused = λ key v flags s failed key'. absurd (failed refl);
  delete_refused = λ key s failed key'. absurd (failed refl);
}

abbrev traced : Tracing map_calls other_calls 0x1000 kept (λ s. s.log)
traced = record {
  prints = λ fmt size a b c s. refl;
  print_keeps = λ fmt size a b c s key. refl;
  lookup_silent = λ key s. refl;
  update_silent = λ key v flags s. refl;
  delete_silent = λ key s. refl;
}

abbrev empty_world : World
empty_world = record { held = λ key. none; log = [] }

map_test1_lem_example :
    let run = map_test1 kernel map empty_world in
    let first =
      first_lines kernel map
        (λ z. omega arith)
        kept
        (λ s p. refl)
        (λ s. s.log)
        traced
        empty_world in
    let stored = line found_val (current_pid kernel) 0 0 ∷ line updated 0 0 0 ∷ first in
    Stopped kernel map
      (λ z. omega arith)
      kept
      (λ s p. refl)
      (λ s. s.log)
      traced
      (stores kernel map)
      run
      first
      (λ key. none)
    ⊎ Stopped kernel map
        (λ z. omega arith)
        kept
        (λ s p. refl)
        (λ s. s.log)
        traced
        (erases kernel map)
        run
        stored
        (λ key. if 0 == key then some (current_pid kernel) else none)
    ⊎ Finished kernel map
        (λ z. omega arith)
        kept
        (λ s p. refl)
        (λ s. s.log)
        traced
        run
        (line not_found 0 0 0 ∷ line deleted 0 0 0 ∷ stored)
        (λ key. if 0 == key then none else none)
map_test1_lem_example =
    map_test1_lem kernel map (λ z. omega arith) kept (λ s p. refl) (λ s. s.log) traced empty_world

abbrev memory : Memory
memory addr = 0

abbrev empty_first : List Line
empty_first =
    first_lines kernel map (λ z. omega arith) kept (λ w p. refl) (λ w. w.log) traced empty_world

entry-prog_example :
    let (result, s) = iu_prog1_fn kernel map map TpCtx.void empty_world in
    (entry debug 2 0 (tracepoint_event (prog kernel 5 map map) memory 0x9000) empty_world
      ≡ ok (0, s))
    × (Reported kernel (λ w. w.log) (stores kernel map) (result, s) test1_failed empty_first
        ⊎ Reported kernel
            (λ w. w.log)
            (erases kernel map)
            (result, s)
            test1_failed
            (stored_lines kernel (λ w. w.log) empty_first)
        ⊎ Reported kernel
            (λ w. w.log)
            (stores kernel map)
            (result, s)
            test2_failed
            (second_lines kernel (λ w. w.log) empty_first)
        ⊎ (s.log ≡ all_lines kernel (λ w. w.log) empty_first))
entry-prog_example =
    entry-prog kernel (λ w. w.log) map map (λ z. omega arith) (λ z. omega arith) kept kept
      (λ w p. refl) (λ w p. refl) traced traced debug 2 0 5 memory 0x9000 empty_world

abbrev numbers : Numbers
numbers = record { nr_read = 0; nr_write = 1; nr_mmap = 9; nr_getuid = 102; nr_getsid = 124 }

abbrev asked : SeccompData
asked = record { nr = 1; arch = 62; instruction_pointer = 0; args = 1 ∷ 2 ∷ 512 ∷ 0 ∷ 0 ∷ 0 ∷ [] }

abbrev probe : ℕ → ℕ → SeccompData → World → ℕ × SeccompData × World
probe size ptr d s = (0, asked, s)

asked_read : (sd : SeccompData) → some asked ≡ some sd → asked ≡ sd
asked_read sd e = ground arith

never_unread : (status : ℕ) → some asked ≡ none → is_neg64 status ≡ true
never_unread status e = cc

abbrev probing : Probing other_calls probe
probing = record {
  log = λ s. s.log;
  readable = λ s ptr. some asked;
  prints = λ fmt size a b c s. refl;
  probe_silent = λ size ptr d s. refl;
  probe_reads = λ size ptr d s sd e. (refl, asked_read sd e);
  probe_fails = λ size ptr d s e. never_unread 0 e;
}

abbrev writing : Regs
writing r = 1

iu_prog1_fn-Shown_example :
    Shown other_calls probe 64 numbers probing writing empty_world
      (Tracex.iu_prog1_fn other_calls probe 64 numbers writing empty_world)
iu_prog1_fn-Shown_example =
    iu_prog1_fn-Shown other_calls probe 64 numbers probing writing empty_world
