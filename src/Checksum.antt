-- ===== src/Checksum.antt =====
-- `compute_ip_checksum` of inner_unikernel_rt/src/xdp/xdp_impl.rs. A header is its memory as 16-bit
-- words; `check_word` is the place of the field `check`, by the layout of the generated `iphdr`.
pub mod Laws
use linux_kernel_development.Prelude.{ℕ, ◌+◌, ◌-◌, ◌/◌, ◌%◌, ◌^◌, bit_and, List, [], ◌∷◌, set}
use linux_kernel_development.Prelude.{ltb, if◌then◌else◌, Outcome, ok, panics, overflow, ◌>>=◌}
use linux_kernel_development.Prelude.Words.{as_u16}
use linux_kernel_development.Build.{Build}

module _ (b : Build) where
  -- `x + y` at `u32`.
  pub add32 : ℕ → ℕ → Outcome ℕ
  add32 x y =
      if ltb (x + y) (2 ^ 32)
      then ok (x + y)
      else if b.overflow_checks
      then panics overflow
      else ok ((x + y) % 2 ^ 32)

  -- `for &word in u16_slice { sum += word as u32; }`
  pub sum_words : ℕ → List ℕ → Outcome ℕ
  sum_words sum [] = ok sum
  sum_words sum (word ∷ words) = do sum' ← add32 sum word; sum_words sum' words

  -- The header with its check field cleared, and the checksum.
  pub compute_ip_checksum : ℕ → List ℕ → Outcome (List ℕ × ℕ)
  compute_ip_checksum check_word ip_header = do
    let cleared = set ip_header check_word 0
    sum ← sum_words 0 cleared
    folded ← add32 (bit_and sum 0xffff) (sum / 2 ^ 16)
    ok (cleared, as_u16 (2 ^ 32 - 1 - folded))
