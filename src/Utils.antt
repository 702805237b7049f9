-- ===== src/Utils.antt =====
-- inner_unikernel_rt/src/utils.rs: the result of kernel calls, `to_result!` and big-endian words.
-- A `c_int` is its 32-bit pattern.
use linux_kernel_development.Prelude.{
  ℕ, ◌+◌, ◌-◌, ◌*◌, ◌/◌, ◌%◌, ◌^◌, ◌≤◌, ◌<◌, ◌≡◌, ◌⊎◌, refl, arith,
}
use linux_kernel_development.Prelude.{if◌then◌else◌, inl, inr}
use linux_kernel_development.Prelude.Words.{as_u32, is_neg32, is_neg64}

pub data Result : Type 0 where
  ok : ℕ → Result
  err : ℕ → Result

pub Result-cases : (r : Result) → ((e : ℕ) × (r ≡ Result.err e)) ⊎ ((v : ℕ) × (r ≡ Result.ok v))
Result-cases (Result.err e) = inl (e, refl)
Result-cases (Result.ok v) = inr (v, refl)

-- `to_result!` at an `i64` and at an `i32`.
unfoldable pub to_result64 : ℕ → Result
to_result64 val = if is_neg64 val then Result.err (as_u32 val) else Result.ok (as_u32 val)

unfoldable pub to_result32 : ℕ → Result
to_result32 val = if is_neg32 val then Result.err val else Result.ok val

-- `unwrap_or_else(|_| default) as u32`.
unfoldable pub unwrap_or_else : Result → ℕ → ℕ
unwrap_or_else (Result.ok v) default = v
unwrap_or_else (Result.err e) default = default

-- `call?; rest`: an error returns at once. What a call returns on success is thrown away.
unfoldable pub and_then : {S : Type 0} → Result × S → (S → Result × S) → Result × S
and_then (Result.err e, s) rest = (Result.err e, s)
and_then (Result.ok v, s) rest = rest s

pub and_then-of_err :
    {S : Type 0} (call : Result × S) (rest : S → Result × S) (e : ℕ)
    → call.0 ≡ Result.err e
    → and_then call rest ≡ (Result.err e, call.1)
unfolding and_then
and_then-of_err (Result.err e', s) rest e failed = rw failed refl
and_then-of_err (Result.ok v, s) rest e failed = cc

pub and_then-of_ok :
    {S : Type 0} (call : Result × S) (rest : S → Result × S) (v : ℕ)
    → call.0 ≡ Result.ok v
    → and_then call rest ≡ rest call.1
unfolding and_then
and_then-of_ok (Result.err e, s) rest v done = cc
and_then-of_ok (Result.ok v', s) rest v done = refl

-- `u16::from(u16be)`, on a little-endian machine: the two bytes change places.
pub from_be16 : ℕ → ℕ
from_be16 v = v % 2 ^ 8 * 2 ^ 8 + v / 2 ^ 8

-- Casting a helper's `long` to `i32` before `to_result!` or after it makes no difference on values
-- that an `i32` holds.
to_result32-to_result64 :
    (val : ℕ)
    → val < 2 ^ 64
    → (val < 2 ^ 31) ⊎ (2 ^ 64 - 2 ^ 31 ≤ val)
    → to_result32 (as_u32 val) ≡ to_result64 val
unfolding to_result32 to_result64
to_result32-to_result64 val lt fits = ground arith

-- Swapping the bytes again gives the stored word.
from_be16-from_be16 : (v : ℕ) → v < 2 ^ 16 → from_be16 (from_be16 v) ≡ v
unfolding from_be16
from_be16-from_be16 v h = omega arith
