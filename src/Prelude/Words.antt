-- ===== src/Prelude/Words.antt =====
-- Machine words as natural numbers: a cast cuts off by `%`, a shift is `*` or `/` by a power of two,
-- and a signed word is its two's complement bit pattern.
use Prim.Native.Nat.{ℕ, ◌+◌, ◌-◌, ◌%◌, ◌^◌, compare, Ordering}
use mathlib.Core.Bool.{Bool, true, false}

-- `x as u8` and so on, also between words of one width and opposite sign.
abbrev pub as_u8 : ℕ → ℕ
as_u8 x = x % 2 ^ 8

abbrev pub as_u16 : ℕ → ℕ
as_u16 x = x % 2 ^ 16

abbrev pub as_u32 : ℕ → ℕ
as_u32 x = x % 2 ^ 32

abbrev pub as_u64 : ℕ → ℕ
as_u64 x = x % 2 ^ 64

-- `val < 0` at the signed words of 32 and of 64 bits.
abbrev pub is_neg32 : ℕ → Bool
is_neg32 w = elim (compare (2 ^ 31) w) [ Ordering.gt ↦ false | _ ↦ true ]

abbrev pub is_neg64 : ℕ → Bool
is_neg64 w = elim (compare (2 ^ 63) w) [ Ordering.gt ↦ false | _ ↦ true ]

-- The patterns of `-x` for a small `x`.
abbrev pub neg32 : ℕ → ℕ
neg32 x = (2 ^ 32 - x) % 2 ^ 32

abbrev pub neg64 : ℕ → ℕ
neg64 x = (2 ^ 64 - x) % 2 ^ 64

-- `x as u64` and `x as i64` at an `i32`: the sign fills the upper half.
abbrev pub sign_extend32 : ℕ → ℕ
sign_extend32 w = elim (is_neg32 w) [ true ↦ w + (2 ^ 64 - 2 ^ 32) | false ↦ w ]
