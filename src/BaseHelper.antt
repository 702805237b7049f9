-- ===== src/BaseHelper.antt =====
-- inner_unikernel_rt/src/base_helper.rs and map.rs: the helpers that every program type offers.
-- The kernel's side of a call (stub.rs) is a parameter: a function of the arguments and of the
-- kernel's state `S`. Keys and values are passed as what the pointers point to.
pub mod Laws
pub mod Maps
pub mod Traced
pub mod Methods
pub mod Session
use linux_kernel_development.Prelude.{ℕ, ◌+◌, ◌-◌, ◌%◌, ◌^◌, Bool, List, length, Option, none, some}
use linux_kernel_development.Prelude.{◌==◌, if◌then◌else◌}
use linux_kernel_development.Prelude.Words.{as_u32}
use linux_kernel_development.PerCpu.{Cpu, Symbols, this_cpu_read, read_u32, read_u64}
use linux_kernel_development.Utils.{Result, to_result64, to_result32}

-- The kernel's map calls, at keys `K` and values `V`. A `long` is its 64-bit pattern, a pointer its
-- address with 0 for null. `pop` and `peek` write the value behind the pointer that they are given.
pub record MapCalls (S K V : Type 0) : Type 0 where
  pub lookup : ℕ → K → S → ℕ × S
  pub update : ℕ → K → V → ℕ → S → ℕ × S
  pub delete : ℕ → K → S → ℕ × S
  pub push : ℕ → V → ℕ → S → ℕ × S
  pub pop : ℕ → V → S → ℕ × V × S
  pub peek : ℕ → V → S → ℕ × V × S

-- The other calls: texts are their bytes.
pub record Calls (S : Type 0) : Type 0 where
  pub trace_printk : List ℕ → ℕ → ℕ → ℕ → ℕ → S → ℕ × S
  pub ringbuf_reserve : ℕ → ℕ → ℕ → S → ℕ × S
  pub ringbuf_submit : ℕ → ℕ → S → S
  pub snprintf : List ℕ → ℕ → List ℕ → List ℕ → ℕ → S → ℕ × List ℕ × S
  pub get_random_u32 : S → ℕ × S
  pub ktime_get_mono_fast_ns : S → ℕ
  pub ktime_get_boot_fast_ns : S → ℕ

-- `IUMap`; the loader sets `kptr`.
pub record IuMap : Type 0 where
  pub map_type : ℕ
  pub key_size : ℕ
  pub val_size : ℕ
  pub max_size : ℕ
  pub map_flag : ℕ
  pub kptr : ℕ

-- `IUMap::new` at a map type and the sizes of its key and value types.
pub new_map : ℕ → ℕ → ℕ → ℕ → ℕ → IuMap
new_map map_type key_size val_size ms mf = record {
  map_type = map_type;
  key_size = as_u32 key_size;
  val_size = as_u32 val_size;
  max_size = ms;
  map_flag = mf;
  kptr = 0;
}

-- A slice: where it begins and how many bytes it has.
pub record Slice : Type 0 where
  pub ptr : ℕ
  pub len : ℕ

module _ {S K V : Type 0} (k : MapCalls S K V) (einval : ℕ) where
  pub bpf_map_lookup_elem : IuMap → K → S → Option ℕ × S
  bpf_map_lookup_elem map key s =
      if map.kptr == 0
      then (none, s)
      else (let (value, s') = k.lookup map.kptr key s in
          if value == 0 then (none, s') else (some value, s'))

  unfoldable pub bpf_map_update_elem : IuMap → K → V → ℕ → S → Result × S
  bpf_map_update_elem map key value flags s =
      if map.kptr == 0
      then (Result.err einval, s)
      else (let (ret, s') = k.update map.kptr key value flags s in (to_result32 (as_u32 ret), s'))

  unfoldable pub bpf_map_delete_elem : IuMap → K → S → Result × S
  bpf_map_delete_elem map key s =
      if map.kptr == 0
      then (Result.err einval, s)
      else (let (ret, s') = k.delete map.kptr key s in (to_result32 (as_u32 ret), s'))

  pub bpf_map_push_elem : IuMap → V → ℕ → S → Result × S
  bpf_map_push_elem map value flags s =
      if map.kptr == 0
      then (Result.err einval, s)
      else (let (ret, s') = k.push map.kptr value flags s in (to_result32 (as_u32 ret), s'))

  -- The last two give the value behind the caller's reference after the call.
  pub bpf_map_pop_elem : IuMap → V → S → Result × V × S
  bpf_map_pop_elem map value s =
      if map.kptr == 0
      then (Result.err einval, value, s)
      else (let (ret, value', s') = k.pop map.kptr value s in
          (to_result32 (as_u32 ret), value', s'))

  pub bpf_map_peek_elem : IuMap → V → S → Result × V × S
  bpf_map_peek_elem map value s =
      if map.kptr == 0
      then (Result.err einval, value, s)
      else (let (ret, value', s') = k.peek map.kptr value s in
          (to_result32 (as_u32 ret), value', s'))

module _ {S : Type 0} (k : Calls S) where
  unfoldable pub bpf_trace_printk : List ℕ → ℕ → ℕ → ℕ → S → Result × S
  bpf_trace_printk fmt arg1 arg2 arg3 s =
      let (ret, s') = k.trace_printk fmt (as_u32 (length fmt)) arg1 arg2 arg3 s in
      (to_result64 ret, s')

  -- `bpf_printk!`: the result is thrown away.
  unfoldable pub bpf_printk : List ℕ → ℕ → ℕ → ℕ → S → S
  bpf_printk fmt arg1 arg2 arg3 s = (bpf_trace_printk fmt arg1 arg2 arg3 s).1

  -- The result, and the buffer after the call.
  unfoldable pub bpf_snprintf : List ℕ → List ℕ → List ℕ → S → Result × List ℕ × S
  bpf_snprintf str fmt args s =
      let (ret, str', s') =
        k.snprintf str (as_u32 (length str)) fmt args (as_u32 (length args)) s in
      (to_result32 (as_u32 ret), str', s')

  pub bpf_ringbuf_reserve : IuMap → ℕ → ℕ → S → Option Slice × S
  bpf_ringbuf_reserve map size flags s =
      if map.kptr == 0
      then (none, s)
      else (let (start, s') = k.ringbuf_reserve map.kptr size flags s in
          if start == 0 then (none, s') else (some (record { ptr = start; len = size }), s'))

  pub bpf_ringbuf_submit : Slice → ℕ → S → S
  bpf_ringbuf_submit slice flags s = k.ringbuf_submit slice.ptr flags s

  -- `bpf_user_rnd_u32` of random32.rs.
  unfoldable pub bpf_get_prandom_u32 : S → ℕ × S
  bpf_get_prandom_u32 s = k.get_random_u32 s

  unfoldable pub bpf_ktime_get_ns_origin : S → ℕ
  bpf_ktime_get_ns_origin s = k.ktime_get_mono_fast_ns s

  unfoldable pub bpf_ktime_get_boot_ns_origin : S → ℕ
  bpf_ktime_get_boot_ns_origin s = k.ktime_get_boot_fast_ns s

-- `bpf_probe_read_kernel` at a type `T` of `size` bytes: the kernel fills `dst`.
unfoldable pub bpf_probe_read_kernel :
    {S T : Type 0} → (ℕ → ℕ → T → S → ℕ × T × S) → ℕ → T → ℕ → S → Result × T × S
bpf_probe_read_kernel call size dst unsafe_ptr s =
    let (ret, dst', s') = call (as_u32 size) unsafe_ptr dst s in (to_result64 ret, dst', s')

unfoldable pub bpf_get_smp_processor_id : Symbols → Cpu → ℕ
bpf_get_smp_processor_id syms cpu = this_cpu_read cpu read_u32 syms.cpu_number

-- The result is an `i64` with the pattern that was read.
pub bpf_get_numa_node_id : Symbols → Cpu → ℕ
bpf_get_numa_node_id syms cpu = this_cpu_read cpu read_u64 syms.numa_node

unfoldable bpf_jiffies64 : Symbols → ℕ
bpf_jiffies64 syms = syms.jiffies
