-- ===== src/Random/Sequences.antt =====
-- The sequences of bits behind random32.rs: each bit is the sum of two earlier ones. A word of the
-- generator's state is a window of such a sequence, read from its highest bit on.
use linux_kernel_development.Prelude.{
  ℕ, zero, suc, ◌+◌, ◌-◌, ◌*◌, ◌/◌, ◌%◌, ◌^◌, ◌<◌, ◌≤◌, ◌≡◌, ap, ◌∙◌, refl, arith, sym, inl, inr,
}
use linux_kernel_development.Prelude.{bit_and, bit_xor, leb, ltb, ◌==◌, if◌then◌else◌, Bool-cases}
use linux_kernel_development.Prelude.Bits.{
  bit, bit-bit_and, bit-bit_xor, bit-lt, bit-mod, bit-high, bit-complement, bit-zero_left,
  bit_xor-lt,
}
use native.Mathlib.Nat.{one-le-pow}
use linux_kernel_development.Prelude.{true, false}
use linux_kernel_development.Random.{tausworthe}
use linux_kernel_development.Random.Linear.{bit-shl, bit-shr}

module _ (k q : ℕ) where
  -- The next `k` bits of the sequence: the first leaves, and the sum of two comes in at the end.
  abbrev shift : (ℕ → ℕ) → ℕ → ℕ
  shift f i = if suc i == k then (f 0 + f q) % 2 else f (suc i)

  abbrev shifts : ℕ → (ℕ → ℕ) → ℕ → ℕ
  shifts zero f = f
  shifts (suc n) f = shift (shifts n f)

  -- The sequence that begins with the `k` highest bits of a 32-bit word.
  unfoldable pub sequence : ℕ → ℕ → ℕ
  sequence x n = shifts n (λ i. bit x (31 - i)) 0

  shifts-turn : (i n : ℕ) (f : ℕ → ℕ) → i < k → shifts n f i ≡ shifts (n + i) f 0
  shifts-turn zero n f lt = ap (λ (m : ℕ). shifts m f 0) (omega arith)
  shifts-turn (suc i) n f lt =
      let inside : (suc i == k) ≡ false = ground (arith, lt) in
      let turned : shifts (suc n) f i ≡ shifts n f (suc i) = rw inside refl in
      sym turned
      ∙ shifts-turn i (suc n) f (omega (arith, lt))
      ∙ ap (λ (m : ℕ). shifts m f 0) (omega arith)

  pub sequence-start : (x i : ℕ) → i < k → sequence x i ≡ bit x (31 - i)
  unfolding sequence
  sequence-start x i lt = sym (
      shifts-turn i 0 (λ j. bit x (31 - j)) lt
      ∙ ap (λ (m : ℕ). shifts m (λ j. bit x (31 - j)) 0) (omega arith))

  -- Each bit is the sum of the one `k` before and the one that follows that by `q`.
  pub sequence-next :
      (x n : ℕ) → 0 < k → q < k → sequence x (n + k) ≡ (sequence x n + sequence x (n + q)) % 2
  unfolding sequence
  sequence-next x n pos lt =
      let f = λ (i : ℕ). bit x (31 - i) in
      let ends : (suc (k - 1) == k) ≡ true = ground (arith, pos) in
      let summed : shifts (suc n) f (k - 1) ≡ (shifts n f 0 + shifts n f q) % 2 = rw ends refl in
      ap (λ (m : ℕ). shifts m f 0) (omega (arith, pos))
      ∙ sym (shifts-turn (k - 1) (suc n) f (omega (arith, pos)))
      ∙ summed
      ∙ ap (λ (b : ℕ). (shifts n f 0 + b) % 2) (shifts-turn q n f lt)

-- The word holds `len` bits of the sequence from `t` on.
abbrev pub IsWindow : (ℕ → ℕ) → ℕ → ℕ → ℕ → Type 0
IsWindow y t len x = (i : ℕ) → i < len → bit x (31 - i) ≡ y (t + i)

bit-ones : (k j : ℕ) → j < k → bit (2 ^ k - 1) j ≡ 1
bit-ones k j lt =
    ap (λ (n : ℕ). bit n j) (omega arith)
    ∙ bit-complement k 0 j (omega (arith, one-le-pow k 2 (omega arith))) lt
    ∙ omega (arith, bit-zero_left j)

-- The mask of the `k` highest bits.
abbrev pub high_bits : ℕ → ℕ
high_bits k = (2 ^ k - 1) * 2 ^ (32 - k)

bit-high_bits :
    (k j : ℕ) → k ≤ 32 → j < 32 → bit (high_bits k) j ≡ (if leb (32 - k) j then 1 else 0)
bit-high_bits k j le lt = elim (Bool-cases (leb (32 - k) j)) [
  | inl inside ↦ rw inside (
      bit-shl (32 - k) (2 ^ k - 1) j
      ∙ rw inside (bit-ones k (j - (32 - k)) (ground (arith, inside))))
  | inr outside ↦ rw outside (bit-shl (32 - k) (2 ^ k - 1) j ∙ rw outside refl)
]

-- One step of a word, for a recurrence whose sums reach no further than its `k` highest bits.
module _ (k q s : ℕ) (y : ℕ → ℕ) (recurs : (n : ℕ) → y (n + k) ≡ (y n + y (n + q)) % 2)
    (k_lt : k < 32) (s_lt : s < k) (reaches : 31 + s + q < k + k) where
  abbrev kept : ℕ → ℕ
  kept x = bit_and x (high_bits k) * 2 ^ s % 2 ^ 32

  abbrev fed : ℕ → ℕ
  fed x = bit_xor (x * 2 ^ q % 2 ^ 32) x / 2 ^ (k - s)

  kept-below : (x i : ℕ) → i + s < k → bit (kept x) (31 - i) ≡ bit x (31 - (i + s))
  kept-below x i lt =
      let shifts_in : leb s (31 - i) ≡ true = ground (arith, lt, k_lt) in
      let at : 31 - i - s ≡ 31 - (i + s) = omega (arith, lt, k_lt) in
      let inside : leb (32 - k) (31 - (i + s)) ≡ true = ground (arith, lt, k_lt) in
      bit-mod 32 (bit_and x (high_bits k) * 2 ^ s) (31 - i) (omega arith)
      ∙ bit-shl s (bit_and x (high_bits k)) (31 - i)
      ∙ rw (shifts_in, at)
          (bit-bit_and (31 - (i + s)) x (high_bits k)
            ∙ rw (bit-high_bits k (31 - (i + s)) (omega (arith, k_lt)) (omega arith), inside)
                (omega (arith, bit-lt x (31 - (i + s)))))

  kept-above : (x i : ℕ) → k ≤ i + s → i < 32 → bit (kept x) (31 - i) ≡ 0
  kept-above x i le lt =
      bit-mod 32 (bit_and x (high_bits k) * 2 ^ s) (31 - i) (omega arith)
      ∙ bit-shl s (bit_and x (high_bits k)) (31 - i)
      ∙ elim (Bool-cases (leb s (31 - i))) [
        | inr out ↦ rw out refl
        | inl shifts_in ↦
            let outside : leb (32 - k) (31 - i - s) ≡ false =
              ground (arith, le, lt, k_lt, shifts_in) in
            rw shifts_in (
              bit-bit_and (31 - i - s) x (high_bits k)
              ∙ rw (bit-high_bits k (31 - i - s) (omega (arith, k_lt)) (omega arith), outside)
                  (omega arith))
      ]

  fed-below : (x i : ℕ) → x < 2 ^ 32 → i + s < k → bit (fed x) (31 - i) ≡ 0
  fed-below x i word lt =
      bit-shr (k - s) (bit_xor (x * 2 ^ q % 2 ^ 32) x) (31 - i)
      ∙ bit-high 32 (bit_xor (x * 2 ^ q % 2 ^ 32) x) (k - s + (31 - i))
          (bit_xor-lt 32 (x * 2 ^ q % 2 ^ 32) x (omega arith) word) (omega (arith, lt, k_lt))

  fed-above :
      (x i : ℕ)
      → k ≤ i + s
      → i < 32
      → bit (fed x) (31 - i) ≡ (bit x (31 - (i + s - k)) + bit x (31 - (i + s - k + q))) % 2
  fed-above x i le lt =
      let n : ℕ = i + s - k in
      let at : k - s + (31 - i) ≡ 31 - (i + s - k) = omega (arith, le, lt, s_lt) in
      let shifts_in : leb q (31 - (i + s - k)) ≡ true = ground (arith, le, lt, reaches) in
      let at' : 31 - (i + s - k) - q ≡ 31 - (i + s - k + q) = omega arith in
      let first : bit (x * 2 ^ q % 2 ^ 32) (31 - (i + s - k)) ≡ bit x (31 - (i + s - k + q)) =
        bit-mod 32 (x * 2 ^ q) (31 - (i + s - k)) (omega arith)
        ∙ bit-shl q x (31 - (i + s - k))
        ∙ rw (shifts_in, at') refl in
      bit-shr (k - s) (bit_xor (x * 2 ^ q % 2 ^ 32) x) (31 - i)
      ∙ rw at (bit-bit_xor (31 - (i + s - k)) (x * 2 ^ q % 2 ^ 32) x ∙ rw first (omega arith))

  -- The step moves the window on by `s`, and fills all 32 bits.
  pub tausworthe-IsWindow :
      (x t : ℕ)
      → x < 2 ^ 32
      → IsWindow y t k x
      → IsWindow y (t + s) 32 (tausworthe x q (k - s) (high_bits k) s)
  unfolding tausworthe
  tausworthe-IsWindow x t word window i lt =
      let split = bit-bit_xor (31 - i) (kept x) (fed x) in
      elim (Bool-cases (ltb (i + s) k)) [
        | inl below ↦
            let lt' : i + s < k = ground (arith, below) in
            let place : t + (i + s) ≡ t + s + i = omega arith in
            split
            ∙ rw (kept-below x i lt', fed-below x i word lt')
                (omega (arith, bit-lt x (31 - (i + s))) ∙ window (i + s) lt' ∙ ap y place)
        | inr above ↦
            let le : k ≤ i + s = ground (arith, above) in
            let place : t + (i + s - k) + k ≡ t + s + i = omega (arith, le) in
            let place' : t + (i + s - k) + q ≡ t + (i + s - k + q) = omega arith in
            split
            ∙ rw
                (
                  kept-above x i le lt,
                  fed-above x i le lt,
                  window (i + s - k) (omega (arith, lt, s_lt)),
                  window (i + s - k + q) (omega (arith, lt, le, reaches)),
                )
                (omega arith
                  ∙ ap (λ (m : ℕ). (y (t + (i + s - k)) + y m) % 2) (sym place')
                  ∙ sym (recurs (t + (i + s - k)))
                  ∙ ap y place)
      ]
