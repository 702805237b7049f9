-- ===== src/BaseHelper/Methods.antt =====
-- `base_helper_defs!` of base_helper.rs: the helpers as the methods that each program type gives its
-- object. A program calls these; the macro passes them on to the functions of the module.
use linux_kernel_development.Prelude.{ℕ, List, Option}
use linux_kernel_development.PerCpu.{Cpu, Symbols}
use linux_kernel_development.Utils.{Result}
use linux_kernel_development.BaseHelper.{MapCalls, Calls, IuMap, Slice}
use linux_kernel_development.BaseHelper

-- The object of a program, at keys `K` and values `V`. `bpf_probe_read_kernel` is generic in the type
-- that it reads, and stands by itself.
pub record Helpers (S K V : Type 0) : Type 0 where
  pub bpf_get_smp_processor_id : ℕ
  pub bpf_trace_printk : List ℕ → ℕ → ℕ → ℕ → S → Result × S
  pub bpf_map_lookup_elem : IuMap → K → S → Option ℕ × S
  pub bpf_map_update_elem : IuMap → K → V → ℕ → S → Result × S
  pub bpf_map_delete_elem : IuMap → K → S → Result × S
  pub bpf_map_push_elem : IuMap → V → ℕ → S → Result × S
  pub bpf_map_pop_elem : IuMap → V → S → Result × V × S
  pub bpf_map_peek_elem : IuMap → V → S → Result × V × S
  pub bpf_get_numa_node_id : ℕ
  pub bpf_ktime_get_ns_origin : S → ℕ
  pub bpf_ktime_get_boot_ns_origin : S → ℕ
  pub bpf_get_prandom_u32 : S → ℕ × S
  pub bpf_snprintf : List ℕ → List ℕ → List ℕ → S → Result × List ℕ × S
  pub bpf_ringbuf_reserve : IuMap → ℕ → ℕ → S → Option Slice × S
  pub bpf_ringbuf_submit : Slice → ℕ → S → S

abbrev pub base_helper_defs :
    {S K V : Type 0} → MapCalls S K V → Calls S → ℕ → Symbols → Cpu → Helpers S K V
base_helper_defs maps calls einval syms cpu = record {
  bpf_get_smp_processor_id = BaseHelper.bpf_get_smp_processor_id syms cpu;
  bpf_trace_printk = λ fmt arg1 arg2 arg3 s. BaseHelper.bpf_trace_printk calls fmt arg1 arg2 arg3 s;
  bpf_map_lookup_elem = λ map key s. BaseHelper.bpf_map_lookup_elem maps einval map key s;
  bpf_map_update_elem =
      λ map key value flags s. BaseHelper.bpf_map_update_elem maps einval map key value flags s;
  bpf_map_delete_elem = λ map key s. BaseHelper.bpf_map_delete_elem maps einval map key s;
  bpf_map_push_elem =
      λ map value flags s. BaseHelper.bpf_map_push_elem maps einval map value flags s;
  bpf_map_pop_elem = λ map value s. BaseHelper.bpf_map_pop_elem maps einval map value s;
  bpf_map_peek_elem = λ map value s. BaseHelper.bpf_map_peek_elem maps einval map value s;
  bpf_get_numa_node_id = BaseHelper.bpf_get_numa_node_id syms cpu;
  bpf_ktime_get_ns_origin = λ s. BaseHelper.bpf_ktime_get_ns_origin calls s;
  bpf_ktime_get_boot_ns_origin = λ s. BaseHelper.bpf_ktime_get_boot_ns_origin calls s;
  bpf_get_prandom_u32 = λ s. BaseHelper.bpf_get_prandom_u32 calls s;
  bpf_snprintf = λ buf fmt args s. BaseHelper.bpf_snprintf calls buf fmt args s;
  bpf_ringbuf_reserve = λ map size flags s. BaseHelper.bpf_ringbuf_reserve calls map size flags s;
  bpf_ringbuf_submit = λ slice flags s. BaseHelper.bpf_ringbuf_submit calls slice flags s;
}
