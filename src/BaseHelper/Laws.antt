-- ===== src/BaseHelper/Laws.antt =====
-- Helpers of base_helper.rs on a map that was never loaded, and those that read per-CPU variables.
use linux_kernel_development.Prelude.{ℕ, ◌+◌, ◌*◌, ◌%◌, ◌^◌, ◌≡◌, ◌≢◌, refl, arith, none, some}
use linux_kernel_development.PerCpu.{
  Cpu, Symbols, this_cpu_read, read_u32, read_size, load, load-add,
}
use linux_kernel_development.Utils.{Result}
use linux_kernel_development.BaseHelper.{
  MapCalls, Calls, IuMap, Slice, new_map, bpf_map_lookup_elem, bpf_map_update_elem,
  bpf_map_delete_elem, bpf_map_push_elem, bpf_map_pop_elem, bpf_map_peek_elem, bpf_ringbuf_reserve,
  bpf_ringbuf_submit, bpf_get_numa_node_id,
}

-- A map as `IUMap::new` makes it has no kernel side yet. No helper calls the kernel with it or
-- changes anything: lookups and reservations find nothing, all other calls fail with EINVAL.
new_map-unusable :
    {S K V : Type 0} (k : MapCalls S K V) (c : Calls S) (einval ty ks vs ms mf : ℕ) (key : K)
    (val : V) (flags size : ℕ) (s : S)
    → let map = new_map ty ks vs ms mf in
      (bpf_map_lookup_elem k einval map key s ≡ (none, s))
      × (bpf_map_update_elem k einval map key val flags s ≡ (Result.err einval, s))
      × (bpf_map_delete_elem k einval map key s ≡ (Result.err einval, s))
      × (bpf_map_push_elem k einval map val flags s ≡ (Result.err einval, s))
      × (bpf_map_pop_elem k einval map val s ≡ (Result.err einval, val, s))
      × (bpf_map_peek_elem k einval map val s ≡ (Result.err einval, val, s))
      × (bpf_ringbuf_reserve c map size flags s ≡ (none, s))
unfolding new_map bpf_map_lookup_elem bpf_map_update_elem bpf_map_delete_elem bpf_map_push_elem
    bpf_map_pop_elem bpf_map_peek_elem bpf_ringbuf_reserve
new_map-unusable k c einval ty ks vs ms mf key val flags size s =
    (refl, refl, refl, refl, refl, refl, refl)

-- The node number that `bpf_get_numa_node_id` returns is the kernel's `int` only in its low half:
-- the read is eight bytes wide, and the upper half is whatever lies behind the variable.
bpf_get_numa_node_id_lem :
    (syms : Symbols) (cpu : Cpu)
    → let at = (cpu.gs + syms.numa_node) % 2 ^ 64 in
      bpf_get_numa_node_id syms cpu
      ≡ this_cpu_read cpu read_u32 syms.numa_node + 2 ^ 32 * load cpu.mem 4 ((at + 4) % 2 ^ 64)
unfolding bpf_get_numa_node_id this_cpu_read read_size
bpf_get_numa_node_id_lem syms cpu =
    load-add cpu.mem 4 4 ((cpu.gs + syms.numa_node) % 2 ^ 64) (omega arith)

-- A reservation that succeeds gives a slice of the size asked for at the kernel's non-null address,
-- and submitting the slice hands the kernel that address again.
bpf_ringbuf_reserve_lem :
    {S : Type 0} (c : Calls S) (map : IuMap) (size flags flags' : ℕ) (s s' : S) (slice : Slice)
    → bpf_ringbuf_reserve c map size flags s ≡ (some slice, s')
    → (slice.len ≡ size)
      × (slice.ptr ≢ 0)
      × (c.ringbuf_reserve map.kptr size flags s ≡ (slice.ptr, s'))
      × (bpf_ringbuf_submit c slice flags' s' ≡ c.ringbuf_submit slice.ptr flags' s')
unfolding bpf_ringbuf_reserve bpf_ringbuf_submit
bpf_ringbuf_reserve_lem c map size flags flags' s s' slice h = ground arith
