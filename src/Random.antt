-- ===== src/Random.antt =====
-- The pseudo-random generator of inner_unikernel_rt/src/random32.rs. A `u32` is a number below
-- 2 ^ 32; `<<` cuts off above it.
pub mod Linear
pub mod Laws
pub mod Sequences
pub mod Draws
use linux_kernel_development.Prelude.{ℕ, ◌+◌, ◌*◌, ◌/◌, ◌%◌, ◌^◌, bit_and, bit_xor}

-- `rnd_state` of the kernel's bindings, as far as it is used.
pub record RndState : Type 0 where
  pub s1 : ℕ
  pub s2 : ℕ
  pub s3 : ℕ
  pub s4 : ℕ

-- `TAUSWORTHE!`.
pub tausworthe : ℕ → ℕ → ℕ → ℕ → ℕ → ℕ
tausworthe s a b c d =
    bit_xor (bit_and s c * 2 ^ d % 2 ^ 32) (bit_xor (s * 2 ^ a % 2 ^ 32) s / 2 ^ b)

pub prandom_u32_state : RndState → ℕ × RndState
prandom_u32_state state =
    let s1 : ℕ = tausworthe state.s1 6 13 4294967294 18 in
    let s2 : ℕ = tausworthe state.s2 2 27 4294967288 2 in
    let s3 : ℕ = tausworthe state.s3 13 21 4294967280 7 in
    let s4 : ℕ = tausworthe state.s4 3 12 4294967168 13 in
    (bit_xor (bit_xor (bit_xor s1 s2) s3) s4, record { s1 = s1; s2 = s2; s3 = s3; s4 = s4 })
