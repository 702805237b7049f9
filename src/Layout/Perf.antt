-- ===== src/Layout/Perf.antt =====
-- The structures of inner_unikernel_rt/src/perf_event/binding.rs that the kernel and a perf event
-- program share. A pointer, a `c_ulong` and a function pointer have eight bytes.
use linux_kernel_development.Prelude.{ℕ, ◌≡◌, refl}
use linux_kernel_development.Prelude.{List, [], ◌∷◌, replicate}
use linux_kernel_development.PerCpu.{Memory}
use linux_kernel_development.Registers.{Reg, field_index}
use linux_kernel_development.Layout.{
  Field, round_up, offset_of, end_from, align_of, size_of, struct_field, union_field, largest,
  packed, read_at,
}
use linux_kernel_development.Layout.Array.{incomplete_array}

abbrev pub u64 : Field
u64 = record { size = 8; align = 8 }

abbrev pub u32 : Field
u32 = record { size = 4; align = 4 }

abbrev pub u16 : Field
u16 = record { size = 2; align = 2 }

abbrev pub pointer : Field
pointer = record { size = 8; align = 8 }

-- `[T; 0]`, which only aligns what follows.
abbrev align_to : ℕ → Field
align_to align = record { size = 0; align = align }

-- `__BindgenBitfieldUnit<[u8; n]>`.
abbrev bitfield_unit : ℕ → Field
bitfield_unit n = record { size = n; align = 1 }

unfoldable pub pt_regs : List Field
pt_regs = replicate 21 u64

-- The accessor of a register, of the structure at an address.
unfoldable pub get_perf_reg : Memory → ℕ → Reg → ℕ
get_perf_reg mem at r = read_at mem at (offset_of pt_regs (field_index r)) 8

unfoldable perf_raw_frag_next : Field
perf_raw_frag_next = union_field (pointer ∷ u64 ∷ [])

unfoldable perf_raw_frag : List Field
unfolding perf_raw_frag_next
perf_raw_frag = packed (perf_raw_frag_next ∷ pointer ∷ pointer ∷ u32 ∷ [])

unfoldable perf_raw_record : List Field
unfolding perf_raw_frag
perf_raw_record = struct_field perf_raw_frag ∷ u32 ∷ []

unfoldable perf_branch_entry : List Field
perf_branch_entry = u64 ∷ u64 ∷ align_to 8 ∷ bitfield_unit 8 ∷ []

unfoldable perf_branch_stack : List Field
unfolding perf_branch_entry
perf_branch_stack = u64 ∷ u64 ∷ incomplete_array (struct_field perf_branch_entry) ∷ []

unfoldable weight_words : List Field
weight_words = u32 ∷ u16 ∷ u16 ∷ []

unfoldable perf_sample_weight : Field
unfolding weight_words
perf_sample_weight = union_field (u64 ∷ struct_field weight_words ∷ [])

-- `align(8)` on a structure of a bit-field unit.
unfoldable mem_data_src_bits : Field
mem_data_src_bits = record {
  size = round_up (size_of (align_to 4 ∷ bitfield_unit 8 ∷ [])) 8;
  align = 8;
}

unfoldable perf_mem_data_src : Field
unfolding mem_data_src_bits
perf_mem_data_src = union_field (u64 ∷ mem_data_src_bits ∷ [])

unfoldable perf_callchain_entry : List Field
perf_callchain_entry = u64 ∷ incomplete_array u64 ∷ []

unfoldable perf_regs : List Field
perf_regs = u64 ∷ pointer ∷ []

unfoldable tid_entry : List Field
tid_entry = u32 ∷ u32 ∷ []

unfoldable cpu_entry : List Field
cpu_entry = u32 ∷ u32 ∷ []

-- The fields of `perf_sample_data` before its bit fields, and their places in the declaration.
pub data SampleField : Type 0 where
  addr raw br_stack period weight txn data_src type_ ip tid time id stream_id cpu : SampleField
  callchain aux_size regs_user regs_intr stack_user_size phys_addr cgroup : SampleField
  data_page_size code_page_size : SampleField

unfoldable pub sample_index : SampleField → ℕ
sample_index addr = 0
sample_index raw = 1
sample_index br_stack = 2
sample_index period = 3
sample_index weight = 4
sample_index txn = 5
sample_index data_src = 6
sample_index type_ = 7
sample_index ip = 8
sample_index tid = 9
sample_index time = 10
sample_index id = 11
sample_index stream_id = 12
sample_index cpu = 13
sample_index callchain = 14
sample_index aux_size = 15
sample_index regs_user = 16
sample_index regs_intr = 17
sample_index stack_user_size = 18
sample_index phys_addr = 19
sample_index cgroup = 20
sample_index data_page_size = 21
sample_index code_page_size = 22

unfoldable pub perf_sample_data : List Field
unfolding perf_sample_weight perf_mem_data_src tid_entry cpu_entry perf_regs
perf_sample_data =
    u64
    ∷ pointer
    ∷ pointer
    ∷ u64
    ∷ perf_sample_weight
    ∷ u64
    ∷ perf_mem_data_src
    ∷ u64
    ∷ u64
    ∷ struct_field tid_entry
    ∷ u64
    ∷ u64
    ∷ u64
    ∷ struct_field cpu_entry
    ∷ pointer
    ∷ u64
    ∷ struct_field perf_regs
    ∷ struct_field perf_regs
    ∷ u64
    ∷ u64
    ∷ u64
    ∷ u64
    ∷ u64
    ∷ align_to 1
    ∷ bitfield_unit 56
    ∷ []

pub data KernField : Type 0 where
  regs sample_data event : KernField

unfoldable pub kern_index : KernField → ℕ
kern_index regs = 0
kern_index sample_data = 1
kern_index event = 2

unfoldable pub bpf_perf_event_data_kern : List Field
bpf_perf_event_data_kern = pointer ∷ pointer ∷ pointer ∷ []

-- The sizes, and two offsets that programs rely on.
sizes :
    (size_of pt_regs ≡ 168)
    × (size_of perf_raw_frag ≡ 28)
    × (size_of perf_raw_record ≡ 32)
    × (size_of perf_branch_entry ≡ 24)
    × (size_of perf_branch_stack ≡ 16)
    × (size_of perf_callchain_entry ≡ 8)
    × (size_of perf_sample_data ≡ 256)
unfolding size_of round_up end_from align_of pt_regs perf_raw_frag perf_raw_record perf_branch_entry
    perf_branch_stack perf_callchain_entry perf_sample_data struct_field union_field largest packed
    incomplete_array
sizes = (refl, refl, refl, refl, refl, refl, refl)
