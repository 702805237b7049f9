-- ===== src/Programs/PerfEvent.antt =====
-- What a perf event program sees of the structures that the kernel has filled in (perf_event/
-- perf_event_impl.rs, `convert_ctx`).
use linux_kernel_development.Prelude.{
  ℕ, zero, suc, ◌+◌, ◌*◌, ◌%◌, ◌^◌, ◌≤◌, ◌<◌, ◌≡◌, ◌⊎◌, refl, ◌∙◌, arith,
}
use linux_kernel_development.Prelude.{List, [], ◌∷◌, some, get_elem?, replicate}
use linux_kernel_development.PerCpu.{Memory}
use linux_kernel_development.Registers.{Reg, field_index, field_index-lt, get_reg}
use linux_kernel_development.Layout.{
  Field, round_up, offset_from, offset_of, end_from, align_of, size_of, struct_field, union_field,
  largest, read_at, write_struct,
}
use linux_kernel_development.Layout.Places.{offset_from-inside, end_from-le-size_of}
use linux_kernel_development.Layout.Written.{read_at-write_struct, read_at-write_struct_apart}
use linux_kernel_development.Layout.Perf.{
  u64, pt_regs, SampleField, period, sample_index, perf_sample_data, KernField, kern_index,
  get_perf_reg, bpf_perf_event_data_kern,
}
use linux_kernel_development.Programs.{perf_event_ctx}

sizes :
    (size_of pt_regs ≡ 168)
    × (size_of perf_sample_data ≡ 256)
    × (size_of bpf_perf_event_data_kern ≡ 24)
unfolding size_of round_up end_from align_of pt_regs perf_sample_data bpf_perf_event_data_kern
    struct_field union_field largest
sizes = (refl, refl, refl)

get_elem?-replicate : (n i : ℕ) (f : Field) → i < n → get_elem? (replicate n f) i ≡ some f
get_elem?-replicate zero i f lt = absurd (omega arith)
get_elem?-replicate (suc n) zero f lt = refl
get_elem?-replicate (suc n) (suc i) f lt = get_elem?-replicate n i f (omega arith)

offset_from-replicate :
    (n at i : ℕ) → at % 8 ≡ 0 → i < n → offset_from at (replicate n u64) i ≡ at + 8 * i
unfolding offset_from round_up
offset_from-replicate zero at i multiple lt = absurd (omega arith)
offset_from-replicate (suc n) at zero multiple lt = omega arith
offset_from-replicate (suc n) at (suc i) multiple lt =
    omega (arith, offset_from-replicate n (round_up at 8 + 8) i (omega arith) (omega arith))

-- The accessors' offset of a register is that of the declared structure.
offset_of-pt_regs : (r : Reg) → offset_of pt_regs (field_index r) ≡ 8 * field_index r
unfolding offset_of pt_regs
offset_of-pt_regs r =
    omega (arith, offset_from-replicate 21 0 (field_index r) refl (field_index-lt r))

-- Two areas of memory, by address and size, that share no byte.
abbrev pub Apart : ℕ → ℕ → ℕ → ℕ → Type 0
Apart a n b k = (a + n ≤ b) ⊎ (b + k ≤ a)

-- What the kernel prepares for a program: the registers, the sample, and the structure that points
-- to both, at three addresses.
pub record KernelEvent : Type 0 where
  pub regs_at : ℕ
  pub sample_at : ℕ
  pub ctx : ℕ
  pub event : ℕ
  pub regs : List ℕ
  pub sample : List ℕ

pub prepare : Memory → KernelEvent → Memory
prepare mem e =
    let with_regs = write_struct mem e.regs_at pt_regs e.regs in
    let with_sample = write_struct with_regs e.sample_at perf_sample_data e.sample in
    write_struct with_sample e.ctx bpf_perf_event_data_kern (e.regs_at ∷ e.sample_at ∷ e.event ∷ [])

-- The three structures lie inside memory and apart from each other.
pub record IsPlaced (e : KernelEvent) : Type 0 where
  pub regs_fit : e.regs_at + 168 ≤ 2 ^ 64
  pub sample_fits : e.sample_at + 256 ≤ 2 ^ 64
  pub ctx_fits : e.ctx + 24 ≤ 2 ^ 64
  pub regs_sample : Apart e.regs_at 168 e.sample_at 256
  pub regs_ctx : Apart e.regs_at 168 e.ctx 24
  pub sample_ctx : Apart e.sample_at 256 e.ctx 24

-- The accessors of the two copies of `pt_regs` read the same bytes.
get_perf_reg-eq-get_reg :
    (mem : Memory) (at : ℕ) (r : Reg) → get_perf_reg mem at r ≡ get_reg mem at r
unfolding get_perf_reg get_reg read_at
get_perf_reg-eq-get_reg mem at r = rw (offset_of-pt_regs r)

-- A field of the sample lies inside the sample.
sample_inside :
    (i : ℕ) → get_elem? perf_sample_data i ≡ some u64 → offset_of perf_sample_data i + 8 ≤ 256
unfolding offset_of
sample_inside i declared = omega (
  arith,
  offset_from-inside perf_sample_data 0 i declared,
  end_from-le-size_of perf_sample_data,
  sizes.1,
)

module _ (mem : Memory) (e : KernelEvent) (placed : IsPlaced e) where
  open placed use {regs_fit, sample_fits, ctx_fits, regs_sample, regs_ctx, sample_ctx}

  abbrev with_regs : Memory
  with_regs = write_struct mem e.regs_at pt_regs e.regs

  abbrev with_sample : Memory
  with_sample = write_struct with_regs e.sample_at perf_sample_data e.sample

  abbrev kern : List ℕ
  kern = e.regs_at ∷ e.sample_at ∷ e.event ∷ []

  abbrev pointer_at : KernField → ℕ
  pointer_at f = read_at (prepare mem e) e.ctx (offset_of bpf_perf_event_data_kern (kern_index f)) 8

  pointers :
      (pointer_at KernField.regs ≡ e.regs_at) × (pointer_at KernField.sample_data ≡ e.sample_at)
  unfolding prepare kern_index bpf_perf_event_data_kern
  pointers =
      let fits : e.ctx + size_of bpf_perf_event_data_kern ≤ 2 ^ 64 = omega (arith, sizes.2) in
      (
        read_at-write_struct with_sample e.ctx bpf_perf_event_data_kern kern 0 u64 e.regs_at fits
            refl refl (omega arith) (omega arith),
        read_at-write_struct with_sample e.ctx bpf_perf_event_data_kern kern 1 u64 e.sample_at fits
            refl refl (omega arith) (omega arith),
      )

  -- Filling in the third structure leaves the others alone.
  read_at-prepare :
      (other offset size : ℕ)
      → other + offset + size ≤ 2 ^ 64
      → 0 < size
      → Apart (other + offset) size e.ctx 24
      → read_at (prepare mem e) other offset size ≡ read_at with_sample other offset size
  unfolding prepare
  read_at-prepare other offset size fits pos apart =
      read_at-write_struct_apart with_sample e.ctx bpf_perf_event_data_kern kern other offset size
        (omega (arith, sizes.2)) fits pos (omega (arith, apart, sizes.2))

  sample_kept :
      (i v : ℕ)
      → get_elem? perf_sample_data i ≡ some u64
      → get_elem? e.sample i ≡ some v
      → v < 2 ^ 64
      → read_at (prepare mem e) e.sample_at (offset_of perf_sample_data i) 8 ≡ v
  sample_kept i v declared given small =
      let inside = sample_inside i declared in
      read_at-prepare e.sample_at (offset_of perf_sample_data i) 8 (omega arith) (omega arith)
        (omega arith)
      ∙ read_at-write_struct with_regs e.sample_at perf_sample_data e.sample i u64 v
          (omega (arith, sizes.1)) declared given (omega arith) (omega arith)

  regs_kept :
      (r : Reg) (v : ℕ)
      → get_elem? e.regs (field_index r) ≡ some v
      → v < 2 ^ 64
      → get_perf_reg (prepare mem e) e.regs_at r ≡ v
  unfolding get_perf_reg
  regs_kept r v given small =
      let place = offset_of-pt_regs r in
      let lt = field_index-lt r in
      let at = offset_of pt_regs (field_index r) in
      let declared : get_elem? pt_regs (field_index r) ≡ some u64 =
        unfold pt_regs in get_elem?-replicate 21 (field_index r) u64 lt in
      read_at-prepare e.regs_at at 8 (omega arith) (omega arith) (omega arith)
      ∙ read_at-write_struct_apart with_regs e.sample_at perf_sample_data e.sample e.regs_at at 8
          (omega (arith, sizes.1)) (omega arith) (omega arith) (omega (arith, sizes.1))
      ∙ read_at-write_struct mem e.regs_at pt_regs e.regs (field_index r) u64 v
          (omega (arith, sizes.0)) declared given (omega arith) (omega arith)

-- What the kernel has filled in is what the program's context shows, if the three structures lie
-- apart from each other inside memory and the values are 64-bit words: each register, the period and
-- the address of the sample; and the pointer that is handed back to the kernel is the context itself.
pub perf_event_ctx-prepare :
    (mem : Memory) (e : KernelEvent) (r : Reg) (v period_value addr_value : ℕ)
    → IsPlaced e
    → get_elem? e.regs (field_index r) ≡ some v
    → get_elem? e.sample (sample_index period) ≡ some period_value
    → get_elem? e.sample (sample_index SampleField.addr) ≡ some addr_value
    → v < 2 ^ 64
    → period_value < 2 ^ 64
    → addr_value < 2 ^ 64
    → ((perf_event_ctx (prepare mem e) e.ctx).regs r ≡ v)
      × ((perf_event_ctx (prepare mem e) e.ctx).sample_period ≡ period_value)
      × ((perf_event_ctx (prepare mem e) e.ctx).addr ≡ addr_value)
      × ((perf_event_ctx (prepare mem e) e.ctx).kptr ≡ e.ctx)
unfolding perf_event_ctx sample_index perf_sample_data
perf_event_ctx-prepare mem e r v period_value addr_value placed reg sampled at small small'
      small'' =
    let (regs, sample) = pointers mem e placed in
    (
      rw regs (regs_kept mem e placed r v reg small),
      rw sample (sample_kept mem e placed 3 period_value refl sampled small'),
      rw sample (sample_kept mem e placed 0 addr_value refl at small''),
      refl,
    )
