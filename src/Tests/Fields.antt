-- ===== src/Tests/Fields.antt =====
-- Bit fields of binding.rs at concrete units.
use linux_kernel_development.Prelude.{◌%◌, ◌^◌, ◌≡◌, inl, arith, [], ◌∷◌}
use linux_kernel_development.Prelude.{ok, ◌>>=◌}
use linux_kernel_development.Tests.{debug, debug_big_endian}
use linux_kernel_development.Bitfield.{BitfieldUnit, get, set_field}
use linux_kernel_development.Bitfield.Laws.{get-set_field, get-set_field_disjoint}
use linux_kernel_development.PerfBinding.BranchEntry.{PerfBranchEntry}
use linux_kernel_development.PerfBinding.MemDataSrc.{MemDataBits}

abbrev three_bytes : BitfieldUnit
three_bytes = record { storage = 0xa5 ∷ 0xff ∷ 0x01 ∷ [] }

abbrev eight_bytes : BitfieldUnit
eight_bytes = record { storage = 1 ∷ 2 ∷ 3 ∷ 4 ∷ 5 ∷ 6 ∷ 7 ∷ 8 ∷ [] }

abbrev branch : PerfBranchEntry
branch = record { from = 0x400000; to = 0x400100; bitfield_1 = eight_bytes }

abbrev source : MemDataBits
source = record { bitfield_1 = eight_bytes }

get-set_field_example :
    (set_field debug_big_endian three_bytes 5 9 1000 >>= λ out. get debug_big_endian out 5 9)
    ≡ ok (1000 % 2 ^ 9)
get-set_field_example = get-set_field debug_big_endian three_bytes 5 9 1000 (omega arith)

get-set_field_disjoint_example :
    (set_field debug three_bytes 5 9 1000 >>= λ out. get debug out 14 10)
    ≡ get debug three_bytes 14 10
get-set_field_disjoint_example =
    get-set_field_disjoint debug three_bytes 5 9 1000 14 10 (omega arith) (omega arith)
      (inl (omega arith))
