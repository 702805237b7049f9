-- ===== src/Tests/Values.antt =====
-- Strings, results, checksums, random numbers and derived items at concrete values.
use linux_kernel_development.Prelude.{ℕ, ◌-◌, ◌%◌, ◌^◌, ◌<◌, ◌≡◌, ◌↔◌, arith}
use linux_kernel_development.Prelude.{List, [], ◌∷◌, set, ltb, if◌then◌else◌, ok}
use linux_kernel_development.Tests.{release}
use linux_kernel_development.Strings.{minus_one, bpf_strcmp}
use linux_kernel_development.Strings.Order.{Before, bpf_strcmp_lem}
use linux_kernel_development.Checksum.{compute_ip_checksum}
use linux_kernel_development.Checksum.Laws.{total, folded, compute_ip_checksum_lem}
use linux_kernel_development.Random.{RndState, prandom_u32_state}
use linux_kernel_development.Random.Sequences.{sequence}
use linux_kernel_development.Random.Draws.{after, prandom_u32_state-sequence}
use linux_kernel_development.Prelude.Bits.{bit}
use linux_kernel_development.Prelude.{◌+◌, ◌%◌}
use linux_kernel_development.StructFilter.{
  Ty, path, array, named, Item, struct, generated, ensure_numberic,
}
use linux_kernel_development.Prelude.{Option, none, some}
use Prim.Native.String.{String}
use linux_kernel_development.StructFilter.Laws.{IsDerivable, ensure_numberic-generated_iff}

abbrev foo : List ℕ
foo = 102 ∷ 111 ∷ 111 ∷ []

abbrev fob : List ℕ
fob = 102 ∷ 111 ∷ 98 ∷ []

bpf_strcmp_lem_example :
    ((bpf_strcmp foo fob ≡ 0) ↔ (foo ≡ fob))
    × ((bpf_strcmp foo fob ≡ minus_one) ↔ Before foo fob)
    × ((bpf_strcmp foo fob ≡ 1) ↔ Before fob foo)
bpf_strcmp_lem_example = bpf_strcmp_lem foo fob

abbrev ip_header : List ℕ
ip_header =
    0x4500 ∷ 0x0073 ∷ 0x0000 ∷ 0x4000 ∷ 0x4011 ∷ 0xffff ∷ 0xc0a8 ∷ 0x0001 ∷ 0xc0a8 ∷ 0x00c7 ∷ []

compute_ip_checksum_lem_example :
    (sum : ℕ) × (compute_ip_checksum release 5 ip_header ≡ ok (set ip_header 5 0, sum))
    × (sum < 2 ^ 16)
    × (total (set ip_header 5 sum) % (2 ^ 16 - 1)
        ≡ (if ltb (folded release (total (set ip_header 5 0))) (2 ^ 16) then 0 else 1))
compute_ip_checksum_lem_example =
    compute_ip_checksum_lem release 5 ip_header (omega arith) (omega arith) (omega arith)

abbrev seed : RndState
seed = record { s1 = 123456789; s2 = 362436069; s3 = 521288629; s4 = 88675123 }

abbrev other_seed : RndState
other_seed = record { s1 = 5; s2 = 77; s3 = 4000000000; s4 = 1000 }

abbrev low : RndState
low = record { s1 = 1; s2 = 7; s3 = 15; s4 = 127 }

prandom_u32_state-sequence_example :
    bit (prandom_u32_state (after 1 seed)).0 26
    ≡ (sequence 31 6 seed.s1 41
        + sequence 29 2 seed.s2 9
        + sequence 28 13 seed.s3 19
        + sequence 25 3 seed.s4 31)
      % 2
prandom_u32_state-sequence_example = prandom_u32_state-sequence seed 1 5 (omega arith) (omega arith)

-- `[u8; 6]` and a structure with two fields.
abbrev mac : Ty
mac = array (path ("u8" ∷ []))

abbrev header : Item
header = struct (named (("h_dest", mac) ∷ ("h_proto", path ("u16" ∷ [])) ∷ []))

ensure_numberic-generated_iff_example :
    (ensure_numberic header ≡ ok (generated (mac ∷ path ("u16" ∷ []) ∷ [])))
    ↔ IsDerivable header (mac ∷ path ("u16" ∷ []) ∷ [])
ensure_numberic-generated_iff_example =
    ensure_numberic-generated_iff header (mac ∷ path ("u16" ∷ []) ∷ [])

-- A path is the primitive type of its only segment.
abbrev primitives : List String → Option String
primitives [] = none
primitives (segment ∷ []) = some segment
primitives (segment ∷ next ∷ segments) = none
