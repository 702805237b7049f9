-- ===== src/Build.antt =====
-- How the crate is compiled: the target's byte order and the two checks that a Cargo profile turns
-- on or off. Index arithmetic and shifts of rust-inner-unikernels/inner_unikernel_rt go through
-- these, so that a model says what the code does under every profile.
use linux_kernel_development.Prelude.{ℕ, ◌+◌, ◌-◌, ◌*◌, ◌%◌, ◌^◌, ◌≤◌, ◌<◌, ◌≡◌, arith}
use linux_kernel_development.Prelude.{Bool, true, false, not, ◌||◌, ltb, leb, if◌then◌else◌}
use linux_kernel_development.Prelude.Words.{is_neg64}
use linux_kernel_development.Prelude.{Outcome, ok, panics, assertion_failed, overflow, check}

pub record Build : Type 0 where
  pub big_endian : Bool
  pub debug_assertions : Bool
  pub overflow_checks : Bool

-- `debug_assert!(test)`.
abbrev pub debug_assert : Build → Bool → Outcome (Unit {0})
debug_assert b test = if b.debug_assertions then check test assertion_failed else ok tt

-- What an operation at 64 bits gives whose exact result is `exact`, in or out of range.
abbrev overflowing : Build → Bool → ℕ → ℕ → Outcome ℕ
overflowing b fits exact wrapped =
    if fits then ok exact else if b.overflow_checks then panics overflow else ok wrapped

-- `x + y`, `x - y`, `x * y` and `x << k` at `u64` or `usize`.
unfoldable pub add64 : Build → ℕ → ℕ → Outcome ℕ
add64 b x y = overflowing b (ltb (x + y) (2 ^ 64)) (x + y) ((x + y) % 2 ^ 64)

unfoldable pub sub64 : Build → ℕ → ℕ → Outcome ℕ
sub64 b x y = overflowing b (leb y x) (x - y) ((x + 2 ^ 64 - y) % 2 ^ 64)

unfoldable pub mul64 : Build → ℕ → ℕ → Outcome ℕ
mul64 b x y = overflowing b (ltb (x * y) (2 ^ 64)) (x * y) (x * y % 2 ^ 64)

pub shl64 : Build → ℕ → ℕ → Outcome ℕ
shl64 b x k = overflowing b (ltb k 64) (x * 2 ^ k % 2 ^ 64) (x * 2 ^ (k % 64) % 2 ^ 64)

-- `x + y` and `x * y` at `i64`, on the patterns.
abbrev magnitude : ℕ → ℕ
magnitude x = if is_neg64 x then 2 ^ 64 - x else x

abbrev differ : Bool → Bool → Bool
differ true d = not d
differ false d = d

pub iadd64 : Build → ℕ → ℕ → Outcome ℕ
iadd64 b x y =
    let sum = (x + y) % 2 ^ 64 in
    overflowing b (differ (is_neg64 x) (is_neg64 y) || not (differ (is_neg64 x) (is_neg64 sum))) sum
      sum

pub imul64 : Build → ℕ → ℕ → Outcome ℕ
imul64 b x y =
    let product = x * y % 2 ^ 64 in
    let size = magnitude x * magnitude y in
    overflowing b
      (if differ (is_neg64 x) (is_neg64 y) then leb size (2 ^ 63) else ltb size (2 ^ 63)) product
      product

module _ (b : Build) where
  pub debug_assert-true : (test : Bool) → test ≡ true → debug_assert b test ≡ ok tt
  debug_assert-true test h = ground arith

  pub add64-fits : (x y : ℕ) → x + y < 2 ^ 64 → add64 b x y ≡ ok (x + y)
  unfolding add64
  add64-fits x y h = ground arith

  pub sub64-fits : (x y : ℕ) → y ≤ x → sub64 b x y ≡ ok (x - y)
  unfolding sub64
  sub64-fits x y h = ground arith

  pub mul64-fits : (x y : ℕ) → x * y < 2 ^ 64 → mul64 b x y ≡ ok (x * y)
  unfolding mul64
  mul64-fits x y h = ground arith

  pub shl64-fits : (x k : ℕ) → k < 64 → x * 2 ^ k < 2 ^ 64 → shl64 b x k ≡ ok (x * 2 ^ k)
  unfolding shl64
  shl64-fits x k h fits = ground (arith, package.native.Mathlib.Nat.mod-eq_of_lt fits)

  pub iadd64-fits : (x y : ℕ) → x + y < 2 ^ 63 → iadd64 b x y ≡ ok (x + y)
  unfolding iadd64
  iadd64-fits x y h = ground arith

  pub imul64-fits : (x y : ℕ) → x < 2 ^ 63 → y < 2 ^ 63 → x * y < 2 ^ 63 → imul64 b x y ≡ ok (x * y)
  unfolding imul64
  imul64-fits x y small_x small_y h = ground arith

  pub iadd64-wraps : b.overflow_checks ≡ false → (x y : ℕ) → iadd64 b x y ≡ ok ((x + y) % 2 ^ 64)
  unfolding iadd64
  iadd64-wraps wraps x y = ground (arith, wraps)
