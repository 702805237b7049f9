-- ===== src/Checksum/Laws.antt =====
-- When the checksum of xdp_impl.rs is the one that a receiver accepts (RFC 1071): the 16-bit words
-- of the header, the checksum among them, have a one's complement sum of zero.
use linux_kernel_development.Prelude.{
  ℕ, zero, suc, ◌+◌, ◌-◌, ◌*◌, ◌/◌, ◌%◌, ◌^◌, ◌≤◌, ◌<◌, ◌≡◌, arith,
}
use linux_kernel_development.Prelude.{List, [], ◌∷◌, set, length, length-set, ltb, if◌then◌else◌}
use linux_kernel_development.Prelude.{ok}
use linux_kernel_development.Prelude.Words.{as_u16}
use linux_kernel_development.Prelude.Bits.{bit_and_mask}
use linux_kernel_development.Build.{Build}
use linux_kernel_development.Checksum.{add32, sum_words, compute_ip_checksum}

pub total : List ℕ → ℕ
total [] = 0
total (x ∷ xs) = x + total xs

-- Every element is a 16-bit word.
abbrev pub AllWords : List ℕ → Type 0
AllWords [] = Unit
AllWords (x ∷ xs) = (x < 2 ^ 16) × AllWords xs

AllWords-set : (xs : List ℕ) (i v : ℕ) → v < 2 ^ 16 → AllWords xs → AllWords (set xs i v)
AllWords-set [] i v lt h = tt
AllWords-set (x ∷ xs) zero v lt h = (lt, h.1)
AllWords-set (x ∷ xs) (suc i) v lt h = (h.0, AllWords-set xs i v lt h.1)

total-le : (xs : List ℕ) → AllWords xs → total xs ≤ length xs * (2 ^ 16 - 1)
unfolding total
total-le [] h = omega arith
total-le (x ∷ xs) h = omega (arith, total-le xs h.1)

total-set : (xs : List ℕ) (i v : ℕ) → i < length xs → total (set xs i v) ≡ total (set xs i 0) + v
unfolding total
total-set [] i v h = absurd (omega arith)
total-set (x ∷ xs) zero v h = omega arith
total-set (x ∷ xs) (suc i) v h = omega (arith, total-set xs i v (omega arith))

module _ (b : Build) where
  sum_words-eq-total :
      (xs : List ℕ) (sum : ℕ) → sum + total xs < 2 ^ 32 → sum_words b sum xs ≡ ok (sum + total xs)
  unfolding sum_words total add32
  sum_words-eq-total [] sum h = ground arith
  sum_words-eq-total (x ∷ xs) sum h = ground (arith, sum_words-eq-total xs (sum + x))

  -- The sum of the words after one fold of the carries.
  abbrev pub folded : ℕ → ℕ
  folded s = s % 2 ^ 16 + s / 2 ^ 16

  -- On a header of at most 2 ^ 15 words of 16 bits, with the check field among them: a call returns
  -- and clears the check field, and its checksum stored there makes the header verify exactly when
  -- one fold of the carries leaves no further carry. If one is left, the checksum is off by one:
  -- the one's complement sum of the header comes out as 1.
  pub compute_ip_checksum_lem :
      (check_word : ℕ) (ip_header : List ℕ)
      → AllWords ip_header
      → length ip_header ≤ 2 ^ 15
      → check_word < length ip_header
      → (sum : ℕ) × (compute_ip_checksum b check_word ip_header
          ≡ ok (set ip_header check_word 0, sum))
        × (sum < 2 ^ 16)
        × (total (set ip_header check_word sum) % (2 ^ 16 - 1)
            ≡ (if ltb (folded (total (set ip_header check_word 0))) (2 ^ 16) then 0 else 1))
  unfolding compute_ip_checksum add32
  compute_ip_checksum_lem check_word ip_header words few inside =
      let cleared : List ℕ = set ip_header check_word 0 in
      let s : ℕ = total cleared in
      let few' = length-set ip_header check_word 0 in
      let small : s ≤ length cleared * (2 ^ 16 - 1) =
        total-le cleared (AllWords-set ip_header check_word 0 (omega arith) words) in
      let sum : ℕ = as_u16 (2 ^ 32 - 1 - folded s) in
      (
        sum,
        ground (arith, sum_words-eq-total cleared 0, bit_and_mask 16 s),
        omega arith,
        ground (arith, total-set ip_header check_word sum inside),
      )
