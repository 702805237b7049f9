-- ===== src/Layout.antt =====
-- How a `repr(C)` structure lies in memory (the structures of inner_unikernel_rt/src/perf_event/
-- binding.rs, in Layout.Perf): each field at the next multiple of its alignment, the whole at a
-- multiple of the largest alignment. A structure is the list of its fields; an array of unknown
-- length at its end (`__IncompleteArrayField`) has no size, and starts where the structure ends.
pub mod Store
pub mod Places
pub mod Written
pub mod Array
pub mod Perf
use linux_kernel_development.Prelude.{
  ℕ, zero, suc, ◌+◌, ◌-◌, ◌*◌, ◌%◌, ◌^◌, max, List, [], ◌∷◌, map,
}
use linux_kernel_development.PerCpu.{Memory, load}
use linux_kernel_development.Layout.Store.{store}

pub record Field : Type 0 where
  pub size : ℕ
  pub align : ℕ

-- The next multiple of an alignment.
unfoldable pub round_up : ℕ → ℕ → ℕ
round_up n align = n + (align - n % align) % align

-- The offset of field `i` of those that start at `at` or behind.
unfoldable pub offset_from : ℕ → List Field → ℕ → ℕ
offset_from at [] i = at
offset_from at (f ∷ fs) zero = round_up at f.align
offset_from at (f ∷ fs) (suc i) = offset_from (round_up at f.align + f.size) fs i

-- Where the last field ends.
unfoldable pub end_from : ℕ → List Field → ℕ
end_from at [] = at
end_from at (f ∷ fs) = end_from (round_up at f.align + f.size) fs

unfoldable pub align_of : List Field → ℕ
align_of [] = 1
align_of (f ∷ fs) = max f.align (align_of fs)

unfoldable pub offset_of : List Field → ℕ → ℕ
offset_of fs i = offset_from 0 fs i

-- `size_of`.
unfoldable pub size_of : List Field → ℕ
size_of fs = round_up (end_from 0 fs) (align_of fs)

-- A structure as a field of another one.
unfoldable pub struct_field : List Field → Field
struct_field fs = record { size = size_of fs; align = align_of fs }

unfoldable pub largest : List Field → ℕ
largest [] = 0
largest (f ∷ fs) = max f.size (largest fs)

-- A union: its members share their first byte.
unfoldable pub union_field : List Field → Field
union_field fs = record { size = round_up (largest fs) (align_of fs); align = align_of fs }

-- The fields of a `packed` structure stand side by side.
unfoldable pub packed : List Field → List Field
packed fs = map (λ f. record { size = f.size; align = 1 }) fs

-- Reads `size` bytes at an offset of the structure at `base`.
unfoldable pub read_at : Memory → ℕ → ℕ → ℕ → ℕ
read_at mem base offset size = load mem size ((base + offset) % 2 ^ 64)

-- Writes the fields in turn, as C code does that fills in the structure at `base`.
unfoldable pub write_from : Memory → ℕ → ℕ → List Field → List ℕ → Memory
write_from mem base at [] vs = mem
write_from mem base at (f ∷ fs) [] = mem
write_from mem base at (f ∷ fs) (v ∷ vs) =
    let offset = round_up at f.align in
    write_from (store mem f.size (base + offset) v) base (offset + f.size) fs vs

unfoldable pub write_struct : Memory → ℕ → List Field → List ℕ → Memory
write_struct mem base fs vs = write_from mem base 0 fs vs
