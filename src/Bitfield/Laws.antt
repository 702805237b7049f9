-- ===== src/Bitfield/Laws.antt =====
-- What a reader of the bit fields of binding.rs relies on: a field reads back as it was stored, and
-- fields that do not overlap are independent.
use linux_kernel_development.Prelude.{ℕ, ◌+◌, ◌/◌, ◌%◌, ◌^◌, ◌≤◌}
use linux_kernel_development.Prelude.{◌≡◌, ap, ◌∙◌, sym, ◌⊎◌, arith, length}
use linux_kernel_development.Prelude.{ok, panics, ◌>>=◌, out_of_bounds, assertion_failed}
use linux_kernel_development.Prelude.{if◌then◌else◌, get_elem?-none}
use linux_kernel_development.Prelude.Bits.{bit_ext, bit-mod}
use native.Mathlib.Nat.{mod-lt, one-le-pow}
use linux_kernel_development.Build.{Build}
use linux_kernel_development.Bitfield.{BitfieldUnit, get, set_field, slot, get_bit}
use linux_kernel_development.Bitfield.Field.{InRange, get_lem, set_field_lem, slot-lt, slot-slot}

-- A field of the unit that `set` returned lies in it if it lay in the unit before.
pub InRange-same_length :
    {u out : BitfieldUnit} {off w : ℕ}
    → length out.storage ≡ length u.storage
    → InRange u off w
    → InRange out off w
InRange-same_length e r = record {
  not_empty = r.not_empty;
  word = r.word;
  inside = omega arith;
  addressable = omega arith;
}

module _ (b : Build) where
  -- For a field of 1 to 64 bits inside an array that fits the address space: storing a value
  -- returns, and reading the field back gives the low `bit_width` bits of the value. This holds for
  -- both byte orders and every profile.
  pub get-set_field :
      (u : BitfieldUnit) (off w val : ℕ)
      → InRange u off w
      → (set_field b u off w val >>= λ out. get b out off w) ≡ ok (val % 2 ^ w)
  get-set_field u off w val r =
      let (out, returns, same_length, bits) = set_field_lem b off w val u r in
      let (v, gets, lt, reads) = get_lem b out off w (InRange-same_length same_length r) in
      let low = mod-lt val {m = 2 ^ w} (one-le-pow w 2 (omega arith)) in
      let same : v ≡ val % 2 ^ w = bit_ext w v (val % 2 ^ w) lt low (λ n h. ground (
        arith,
        reads n h,
        bits (slot b w n + off),
        slot-lt b w n h,
        slot-slot b w n h,
        bit-mod w val n h,
      )) in
      rw (returns, ◌>>=◌) (gets ∙ ap ok same)

  -- For two fields of 1 to 64 bits inside an array that fits the address space, which do not
  -- overlap: storing into the one leaves what is read from the other as it was.
  pub get-set_field_disjoint :
      (u : BitfieldUnit) (off w val off' w' : ℕ)
      → InRange u off w
      → InRange u off' w'
      → (off + w ≤ off') ⊎ (off' + w' ≤ off)
      → (set_field b u off w val >>= λ out. get b out off' w') ≡ get b u off' w'
  get-set_field_disjoint u off w val off' w' r r' apart =
      let (out, returns, same_length, bits) = set_field_lem b off w val u r in
      let (v, gets, lt, reads) = get_lem b out off' w' (InRange-same_length same_length r') in
      let (old, got, old_lt, old_reads) = get_lem b u off' w' r' in
      let same : v ≡ old = bit_ext w' v old lt old_lt (λ n h.
        ground (arith, reads n h, old_reads n h, bits (slot b w' n + off'), slot-lt b w' n h)) in
      rw (returns, ◌>>=◌) (gets ∙ ap ok same ∙ sym got)

  -- A bit beyond the array is never read: the call panics under every profile, by the assertion
  -- where it is compiled in and by the index check where it is not.
  get_bit_beyond :
      (u : BitfieldUnit) (index : ℕ)
      → length u.storage ≤ index / 8
      → get_bit b u index ≡ panics (if b.debug_assertions then assertion_failed else out_of_bounds)
  unfolding get_bit
  get_bit_beyond u index h = ground (arith, get_elem?-none u.storage (index / 8) h)
