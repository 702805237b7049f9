-- ===== src/Bitfield/Bit.antt =====
-- One bit of a unit: what `get_bit` reads and what `set_bit` changes, in binding.rs.
use linux_kernel_development.Prelude.{ℕ, ◌-◌, ◌/◌, ◌^◌, ◌<◌, bit_and, bit_or}
use linux_kernel_development.Prelude.{◌≡◌, arith}
use linux_kernel_development.Prelude.{Bool, true, false, List}
use linux_kernel_development.Prelude.{◌==◌, if◌then◌else◌, length, get_or, set}
use linux_kernel_development.Prelude.{
  length-set, get_elem?-eq-get_or, get_or-set_self, get_or-set_ne, get_or-set_cases,
}
use linux_kernel_development.Prelude.{ok}
use linux_kernel_development.Prelude.Bits.{
  bit, bit-lt, bit-bit_or, bit-bit_and, bit_and-lt, bit-pow, bit-complement, bit_and_pow, bit_or-lt,
}
use native.Mathlib.Nat.{pow-le-pow_right, one-le-pow}
use linux_kernel_development.Prelude.Slices.{read}
use linux_kernel_development.Build.{Build}
use linux_kernel_development.Bitfield.{BitfieldUnit, bit_index, get_bit, set_bit}

pub read-in_range : (xs : List ℕ) (i : ℕ) → i < length xs → read xs i ≡ ok (get_or xs i 0)
read-in_range xs i h = rw (get_elem?-eq-get_or xs i 0 h, read)

-- A `u8` as written by `set_bit`.
pub with_bit : ℕ → ℕ → Bool → ℕ
with_bit byte k val = if val then bit_or byte (2 ^ k) else bit_and byte (255 - 2 ^ k)

pub bit_of : Bool → ℕ
bit_of true = 1
bit_of false = 0

pub bit_of-eq_one : (n : ℕ) → n < 2 → bit_of (n == 1) ≡ n
unfolding bit_of
bit_of-eq_one n h = ground arith

pow-lt_byte : (k : ℕ) → k < 8 → 2 ^ k < 256
pow-lt_byte k h =
    omega (arith, pow-le-pow_right {n = 2} (omega arith) {i = k} {j = 7} (omega arith))

bit-with_bit :
    (byte k j : ℕ) (val : Bool)
    → k < 8
    → j < 8
    → bit (with_bit byte k val) j ≡ (if k == j then bit_of val else bit byte j)
unfolding with_bit bit_of
bit-with_bit byte k j true hk hj =
    ground (arith, bit-bit_or j byte (2 ^ k), bit-pow k j, bit-lt byte j)
bit-with_bit byte k j false hk hj = ground (
  arith,
  bit-bit_and j byte (255 - 2 ^ k),
  bit-complement 8 (2 ^ k) j (pow-lt_byte k hk) hj,
  bit-pow k j,
  bit-lt byte j,
)

with_bit-lt : (byte k : ℕ) (val : Bool) → byte < 256 → k < 8 → with_bit byte k val < 256
unfolding with_bit
with_bit-lt byte k true hb hk = bit_or-lt 8 byte (2 ^ k) hb (pow-lt_byte k hk)
with_bit-lt byte k false hb hk = bit_and-lt 8 byte (255 - 2 ^ k) hb

-- `byte & (1 << k) == 1 << k` tests bit `k`.
pub mask_test : (k byte : ℕ) → (bit_and byte (2 ^ k) == 2 ^ k) ≡ (bit byte k == 1)
mask_test k byte = ground (arith, bit_and_pow k byte, bit-lt byte k, one-le-pow k 2 (omega arith))

-- Every stored element is a byte.
abbrev pub IsBytes : BitfieldUnit → Type 0
IsBytes u = (i : ℕ) → get_or u.storage i 0 < 256

module _ (b : Build) where
  bit_index-lt : (i : ℕ) → bit_index b i < 8
  bit_index-lt i = ground arith

  -- The bit that an index of the unit names.
  pub bit_at : BitfieldUnit → ℕ → ℕ
  bit_at u i = bit (get_or u.storage (i / 8) 0) (bit_index b i)

  pub bit_at-lt : (u : BitfieldUnit) (i : ℕ) → bit_at u i < 2
  unfolding bit_at
  bit_at-lt u i = bit-lt _ (bit_index b i)

  -- Two indices in one byte name different bits.
  bit_index-injective : (i j : ℕ) → i / 8 ≡ j / 8 → bit_index b i ≡ bit_index b j → i ≡ j
  bit_index-injective i j p q = ground arith

  pub get_bit_lem :
      (u : BitfieldUnit) (i : ℕ) → i / 8 < length u.storage → get_bit b u i ≡ ok (bit_at u i == 1)
  unfolding get_bit bit_at
  get_bit_lem u i h = ground (
    arith,
    read-in_range u.storage (i / 8) h,
    mask_test (bit_index b i) (get_or u.storage (i / 8) 0),
  )

  pub put_bit : BitfieldUnit → ℕ → Bool → BitfieldUnit
  put_bit u i val = record {
    storage = set u.storage (i / 8) (with_bit (get_or u.storage (i / 8) 0) (bit_index b i) val);
  }

  pub set_bit_lem :
      (u : BitfieldUnit) (i : ℕ) (val : Bool)
      → i / 8 < length u.storage
      → set_bit b u i val ≡ ok (put_bit u i val)
  unfolding set_bit put_bit with_bit
  set_bit_lem u i val h = ground (arith, read-in_range u.storage (i / 8) h)

  pub length-put_bit :
      (u : BitfieldUnit) (i : ℕ) (val : Bool) → length (put_bit u i val).storage ≡ length u.storage
  unfolding put_bit
  length-put_bit u i val = length-set u.storage (i / 8) _

  pub bit_at-put_bit :
      (u : BitfieldUnit) (i j : ℕ) (val : Bool)
      → i / 8 < length u.storage
      → bit_at (put_bit u i val) j ≡ (if i == j then bit_of val else bit_at u j)
  unfolding put_bit bit_at
  bit_at-put_bit u i j val h = ground (
    arith,
    get_or-set_self u.storage (i / 8) (with_bit (get_or u.storage (i / 8) 0) (bit_index b i) val) 0
        h,
    get_or-set_ne u.storage (i / 8) (j / 8)
        (with_bit (get_or u.storage (i / 8) 0) (bit_index b i) val) 0,
    bit-with_bit (get_or u.storage (i / 8) 0) (bit_index b i) (bit_index b j) val (bit_index-lt i)
        (bit_index-lt j),
    bit_index-injective i j,
  )

  pub put_bit-IsBytes :
      (u : BitfieldUnit) (i : ℕ) (val : Bool) → IsBytes u → IsBytes (put_bit u i val)
  unfolding put_bit
  put_bit-IsBytes u i val h j = ground (
    arith,
    h j,
    get_or-set_cases u.storage (i / 8) j new 0,
    with_bit-lt (get_or u.storage (i / 8) 0) (bit_index b i) val (h (i / 8)) (bit_index-lt i),
  )
    where
      new : ℕ
      new = with_bit (get_or u.storage (i / 8) 0) (bit_index b i) val
