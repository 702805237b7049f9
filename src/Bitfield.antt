-- ===== src/Bitfield.antt =====
-- `__BindgenBitfieldUnit` of inner_unikernel_rt/src/perf_event/binding.rs: bit fields in an array of
-- bytes. The loops of `get` and `set` recur on the rounds left, `i` counting up from 0.
pub mod Bit
pub mod Field
pub mod Laws
pub mod Sequence
use linux_kernel_development.Prelude.{ℕ, zero, suc, ◌+◌, ◌-◌, ◌*◌, ◌/◌, ◌%◌, ◌^◌, bit_and, bit_or}
use linux_kernel_development.Prelude.{Bool, true, false, List, Option, none, some}
use linux_kernel_development.Prelude.{
  ltb, leb, ◌==◌, if◌then◌else◌, length, get_elem?, set, replicate,
}
use linux_kernel_development.Prelude.{Outcome, ok, panics, out_of_bounds, ◌>>=◌, ◌>>◌}
use linux_kernel_development.Prelude.Slices.{read}
use linux_kernel_development.Build.{Build, debug_assert, add64, shl64}

pub record BitfieldUnit : Type 0 where
  pub storage : List ℕ

-- `Default::default()` at `[u8; size]`.
unfoldable pub default_unit : ℕ → BitfieldUnit
default_unit size = record { storage = replicate size 0 }

module _ (b : Build) where
  abbrev pub bit_index : ℕ → ℕ
  bit_index index = if b.big_endian then 7 - index % 8 else index % 8

  pub get_bit : BitfieldUnit → ℕ → Outcome Bool
  get_bit u index = do
    debug_assert b (ltb (index / 8) (length u.storage))
    byte ← read u.storage (index / 8)
    let mask = 2 ^ bit_index index
    ok (bit_and byte mask == mask)

  pub set_bit : BitfieldUnit → ℕ → Bool → Outcome BitfieldUnit
  set_bit u index val = do
    debug_assert b (ltb (index / 8) (length u.storage))
    byte ← read u.storage (index / 8)
    let mask = 2 ^ bit_index index
    let new = if val then bit_or byte mask else bit_and byte (255 - mask)
    ok (record { storage = set u.storage (index / 8) new })

  -- The place in the value of the field's `i`-th bit.
  abbrev pub slot : ℕ → ℕ → ℕ
  slot bit_width i = if b.big_endian then bit_width - 1 - i else i

  -- `val |= 1 << index` if the bit is set.
  pub merge_bit : ℕ → Bool → ℕ → Outcome ℕ
  merge_bit index is_set val = elim is_set [
    | true ↦ do mask ← shl64 b 1 index; ok (bit_or val mask)
    | false ↦ ok val
  ]

  pub get_loop : BitfieldUnit → ℕ → ℕ → ℕ → ℕ → ℕ → Outcome ℕ
  get_loop u bit_offset bit_width zero i val = ok val
  get_loop u bit_offset bit_width (suc left) i val = do
    index ← add64 b i bit_offset
    is_set ← get_bit u index
    val' ← merge_bit (slot bit_width i) is_set val
    get_loop u bit_offset bit_width left (i + 1) val'

  -- The three `debug_assert!` lines at the head of `get` and of `set`.
  pub assert_field : BitfieldUnit → ℕ → ℕ → Outcome (Unit {0})
  assert_field u bit_offset bit_width = do
    debug_assert b (leb bit_width 64)
    debug_assert b (ltb (bit_offset / 8) (length u.storage))
    (if b.debug_assertions
        then (do
          bit_end ← add64 b bit_offset bit_width
          debug_assert b (leb (bit_end / 8) (length u.storage)))
        else ok tt)

  pub get : BitfieldUnit → ℕ → ℕ → Outcome ℕ
  get u bit_offset bit_width = do
    assert_field u bit_offset bit_width
    get_loop u bit_offset bit_width bit_width 0 0

  pub set_loop : ℕ → ℕ → ℕ → ℕ → ℕ → BitfieldUnit → Outcome BitfieldUnit
  set_loop bit_offset bit_width val zero i u = ok u
  set_loop bit_offset bit_width val (suc left) i u = do
    mask ← shl64 b 1 i
    let val_bit_is_set = bit_and val mask == mask
    index ← add64 b (slot bit_width i) bit_offset
    u' ← set_bit u index val_bit_is_set
    set_loop bit_offset bit_width val left (i + 1) u'

  pub set_field : BitfieldUnit → ℕ → ℕ → ℕ → Outcome BitfieldUnit
  set_field u bit_offset bit_width val = do
    assert_field u bit_offset bit_width
    set_loop bit_offset bit_width val bit_width 0 u
