-- ===== src/Bitfield/Field.antt =====
-- Whole fields: what the loops of `get` and `set` in binding.rs compute, bit by bit.
use linux_kernel_development.Prelude.{ℕ, zero, suc, ◌+◌, ◌-◌, ◌*◌, ◌^◌, ◌≤◌, ◌<◌, bit_or}
use linux_kernel_development.Prelude.{◌≡◌, refl, ap, ◌∙◌, arith}
use linux_kernel_development.Prelude.{◌&&◌}
use linux_kernel_development.Prelude.{ltb, leb, ◌==◌, if◌then◌else◌, length}
use linux_kernel_development.Prelude.{ok}
use linux_kernel_development.Prelude.Bits.{
  bit, bit-lt, bit-bit_or, bit-pow, bit_or-lt, bit-zero_left,
}
use native.Mathlib.Nat.{pow-le-pow_right, one-le-pow, pow-suc}
use linux_kernel_development.Build.{Build, add64-fits, shl64, shl64-fits}
use linux_kernel_development.Bitfield.{
  BitfieldUnit, slot, merge_bit, get_loop, set_loop, assert_field, get, set_field,
}
use linux_kernel_development.Bitfield.Bit.{
  bit_of-eq_one, mask_test, bit_at, bit_at-lt, get_bit_lem, set_bit_lem, put_bit, length-put_bit,
  bit_at-put_bit,
}

-- A field of 1 to 64 bits inside an array that fits the address space.
pub record InRange (u : BitfieldUnit) (bit_offset bit_width : ℕ) : Type 0 where
  pub not_empty : 0 < bit_width
  pub word : bit_width ≤ 64
  pub inside : bit_offset + bit_width ≤ 8 * length u.storage
  pub addressable : 8 * length u.storage < 2 ^ 64

pow_mono : (i j : ℕ) → i ≤ j → 2 ^ i ≤ 2 ^ j
pow_mono i j h = pow-le-pow_right {n = 2} (omega arith) h

pow-lt : (i j : ℕ) → i < j → 2 ^ i < 2 ^ j
pow-lt i j h = omega (arith, pow_mono (suc i) j h, pow-suc 2 i, one-le-pow i 2 (omega arith))

module _ (b : Build) where
  shl64-one : (i : ℕ) → i < 64 → shl64 b 1 i ≡ ok (2 ^ i)
  shl64-one i h = shl64-fits b 1 i h (omega (arith, pow-lt i 64 h)) ∙ ap ok (omega arith)

  assert_field_lem :
      (u : BitfieldUnit) (off w : ℕ) → InRange u off w → assert_field b u off w ≡ ok tt
  unfolding assert_field
  assert_field_lem u off w r =
      let fits : off + w < 2 ^ 64 = omega (arith, r.inside, r.addressable) in
      ground (arith, add64-fits b off w fits, r.inside)

  pub slot-lt : (w i : ℕ) → i < w → slot b w i < w
  slot-lt w i h = ground arith

  pub slot-slot : (w i : ℕ) → i < w → slot b w (slot b w i) ≡ i
  slot-slot w i h = ground arith

  -- What one round of `get` makes of the value.
  merged : ℕ → ℕ → ℕ → ℕ
  merged index new val = if new == 1 then bit_or val (2 ^ index) else val

  merge_bit_lem :
      (index new val : ℕ)
      → index < 64
      → merge_bit b index (new == 1) val ≡ ok (merged index new val)
  unfolding merge_bit merged
  merge_bit_lem index new val h = ground (arith, shl64-one index h)

  bit-merged :
      (index new val n : ℕ)
      → bit val index ≡ 0
      → new < 2
      → bit (merged index new val) n ≡ (if index == n then new else bit val n)
  unfolding merged
  bit-merged index new val n h lt =
      ground (arith, bit-bit_or n val (2 ^ index), bit-pow index n, bit-lt val n)

  merged-lt : (w index new val : ℕ) → index < w → val < 2 ^ w → merged index new val < 2 ^ w
  unfolding merged
  merged-lt w index new val h lt = ground (arith, bit_or-lt w val (2 ^ index) lt (pow-lt index w h))

  -- `val` holds the bits that the first `i` rounds have read, and no other.
  abbrev Loaded : BitfieldUnit → ℕ → ℕ → ℕ → ℕ → Type 0
  Loaded u off w i val =
      (n : ℕ)
      → n < w
      → bit val n ≡ (if ltb (slot b w n) i then bit_at b u (slot b w n + off) else 0)

  module _ (u : BitfieldUnit) (off w : ℕ) (r : InRange u off w) where
    Loaded-merged :
        (i val : ℕ)
        → i < w
        → Loaded u off w i val
        → Loaded u off w (i + 1) (merged (slot b w i) (bit_at b u (i + off)) val)
    Loaded-merged i val h loaded n lt = ground (
      arith,
      loaded n,
      loaded (slot b w i),
      slot-slot w i h,
      slot-slot w n lt,
      slot-lt w i h,
      bit-merged (slot b w i) (bit_at b u (i + off)) val n,
      bit_at-lt b u (i + off),
    )

    get_loop_step :
        (left i val : ℕ)
        → i < w
        → get_loop b u off w (suc left) i val
          ≡ get_loop b u off w left (i + 1) (merged (slot b w i) (bit_at b u (i + off)) val)
    unfolding get_loop
    get_loop_step left i val h = ground (
      arith,
      add64-fits b i off,
      get_bit_lem b u (i + off),
      merge_bit_lem (slot b w i) (bit_at b u (i + off)) val,
      slot-lt w i h,
    )

    get_loop_lem :
        (left i val : ℕ)
        → i + left ≡ w
        → val < 2 ^ w
        → Loaded u off w i val
        → (out : ℕ) × (get_loop b u off w left i val ≡ ok out)
          × (out < 2 ^ w)
          × Loaded u off w w out
    get_loop_lem zero i val e lt loaded =
        (val, unfold get_loop in refl, lt, λ n h. ground (arith, loaded n h))
    get_loop_lem (suc left) i val e lt loaded = rw (get_loop_step left i val (omega arith)) (
        get_loop_lem left (i + 1) (merged (slot b w i) (bit_at b u (i + off)) val) (omega arith)
          (merged-lt w (slot b w i) (bit_at b u (i + off)) val (slot-lt w i (omega arith)) lt)
          (Loaded-merged i val (omega arith) loaded))

    -- `get` returns the field's bits, as a number of `bit_width` bits.
    pub get_lem :
        (out : ℕ) × (get b u off w ≡ ok out)
        × (out < 2 ^ w)
        × ((n : ℕ) → n < w → bit out n ≡ bit_at b u (slot b w n + off))
    unfolding get
    get_lem =
        let (out, returns, lt, loaded) =
          get_loop_lem w 0 0 (omega arith) (one-le-pow w 2 (omega arith)) none_loaded in
        (
          out,
          rw (assert_field_lem u off w r) returns,
          lt,
          λ n h. ground (arith, loaded n h, slot-lt w n h),
        )
      where
        none_loaded : Loaded u off w 0 0
        none_loaded n h = ground (arith, bit-zero_left n)

  -- The bits of a unit after rounds `i` to `w` of `set`.
  abbrev written : BitfieldUnit → ℕ → ℕ → ℕ → ℕ → ℕ → ℕ
  written u off w val i j =
      if leb off j && ltb j (off + w) && leb i (slot b w (j - off))
      then bit val (slot b w (j - off))
      else bit_at b u j

  module _ (off w val : ℕ) where
    abbrev after_round : BitfieldUnit → ℕ → BitfieldUnit
    after_round u i = put_bit b u (slot b w i + off) (bit val i == 1)

    InRange-after_round :
        (u : BitfieldUnit) (i : ℕ) → InRange u off w → InRange (after_round u i) off w
    InRange-after_round u i r =
        let e = length-put_bit b u (slot b w i + off) (bit val i == 1) in
        record {
          not_empty = r.not_empty;
          word = r.word;
          inside = omega (arith, e);
          addressable = omega (arith, e);
        }

    set_loop_step :
        (u : BitfieldUnit) (left i : ℕ)
        → InRange u off w
        → i < w
        → set_loop b off w val (suc left) i u ≡ set_loop b off w val left (i + 1) (after_round u i)
    unfolding set_loop
    set_loop_step u left i r h = ground (
      arith,
      shl64-one i,
      mask_test i val,
      add64-fits b (slot b w i) off,
      slot-lt w i h,
      set_bit_lem b u (slot b w i + off) (bit val i == 1),
    )

    written-after_round :
        (u : BitfieldUnit) (i j : ℕ)
        → InRange u off w
        → i < w
        → written (after_round u i) off w val (i + 1) j ≡ written u off w val i j
    written-after_round u i j r h = ground (
      arith,
      slot-lt w i h,
      slot-slot w i h,
      slot-slot w (j - off),
      bit_at-put_bit b u (slot b w i + off) j (bit val i == 1),
      bit_of-eq_one (bit val i) (bit-lt val i),
    )

    set_loop_lem :
        (left i : ℕ) (u : BitfieldUnit)
        → i + left ≡ w
        → InRange u off w
        → (out : BitfieldUnit) × (set_loop b off w val left i u ≡ ok out)
          × (length out.storage ≡ length u.storage)
          × ((j : ℕ) → bit_at b out j ≡ written u off w val i j)
    set_loop_lem zero i u e r =
        (u, unfold set_loop in refl, refl, λ j. ground (arith, slot-lt w (j - off)))
    set_loop_lem (suc left) i u e r =
        let (out, returns, same_length, bits) =
          set_loop_lem left (i + 1) (after_round u i) (omega arith) (InRange-after_round u i r) in
        (
          out,
          set_loop_step u left i r (omega arith) ∙ returns,
          same_length ∙ length-put_bit b u (slot b w i + off) (bit val i == 1),
          λ j. bits j ∙ written-after_round u i j r (omega arith),
        )

    -- `set` stores the low `bit_width` bits of `val` in the field and changes no other bit.
    pub set_field_lem :
        (u : BitfieldUnit)
        → InRange u off w
        → (out : BitfieldUnit) × (set_field b u off w val ≡ ok out)
          × (length out.storage ≡ length u.storage)
          × ((j : ℕ) → bit_at b out j ≡ written u off w val 0 j)
    unfolding set_field
    set_field_lem u r =
        let (out, returns, same_length, bits) = set_loop_lem w 0 u (omega arith) r in
        (out, rw (assert_field_lem u off w r) returns, same_length, bits)
