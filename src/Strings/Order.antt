-- ===== src/Strings/Order.antt =====
-- The comparisons of base_helper.rs against the lexicographic order of strings.
use linux_kernel_development.Prelude.{ℕ, zero, suc, ◌<◌, ◌≡◌, ◌↔◌, ◌⊎◌, refl, arith}
use linux_kernel_development.Prelude.{List, [], ◌∷◌, take}
use linux_kernel_development.Prelude.Words.{neg32}
use linux_kernel_development.Strings.{minus_one, bpf_strcmp, bpf_strncmp}

-- `s` comes before `t` in a dictionary.
abbrev pub Before : List ℕ → List ℕ → Type 0
Before [] [] = ⊥
Before [] (d ∷ t) = Unit
Before (c ∷ s) [] = ⊥
Before (c ∷ s) (d ∷ t) = (c < d) ⊎ ((c ≡ d) × Before s t)

-- `bpf_strcmp` returns 0 on equal strings only, -1 exactly when the first comes before the second,
-- and 1 exactly when it comes after it.
pub bpf_strcmp_lem :
    (s t : List ℕ)
    → ((bpf_strcmp s t ≡ 0) ↔ (s ≡ t))
      × ((bpf_strcmp s t ≡ minus_one) ↔ Before s t)
      × ((bpf_strcmp s t ≡ 1) ↔ Before t s)
unfolding bpf_strcmp
bpf_strcmp_lem [] [] = ground arith
bpf_strcmp_lem [] (d ∷ t) = ground arith
bpf_strcmp_lem (c ∷ s) [] = ground arith
bpf_strcmp_lem (c ∷ s) (d ∷ t) = ground (arith, bpf_strcmp_lem s t)

-- Every comparison has one of the three results.
bpf_strcmp_range :
    (s t : List ℕ) → (bpf_strcmp s t ≡ 0) ⊎ (bpf_strcmp s t ≡ minus_one) ⊎ (bpf_strcmp s t ≡ 1)
unfolding bpf_strcmp
bpf_strcmp_range [] [] = ground arith
bpf_strcmp_range [] (d ∷ t) = ground arith
bpf_strcmp_range (c ∷ s) [] = ground arith
bpf_strcmp_range (c ∷ s) (d ∷ t) = ground (arith, bpf_strcmp_range s t)

-- Swapping the strings negates the result.
bpf_strcmp_swap : (s t : List ℕ) → bpf_strcmp t s ≡ neg32 (bpf_strcmp s t)
unfolding bpf_strcmp
bpf_strcmp_swap [] [] = refl
bpf_strcmp_swap [] (d ∷ t) = refl
bpf_strcmp_swap (c ∷ s) [] = refl
bpf_strcmp_swap (c ∷ s) (d ∷ t) = ground (arith, bpf_strcmp_swap s t)

-- `bpf_strncmp` compares the first `cnt` characters as `bpf_strcmp` would.
bpf_strncmp-eq-strcmp-take :
    (cnt : ℕ) (s t : List ℕ) → bpf_strncmp s t cnt ≡ bpf_strcmp (take cnt s) (take cnt t)
unfolding bpf_strcmp bpf_strncmp
bpf_strncmp-eq-strcmp-take zero s t = refl
bpf_strncmp-eq-strcmp-take (suc cnt) [] [] = refl
bpf_strncmp-eq-strcmp-take (suc cnt) [] (d ∷ t) = refl
bpf_strncmp-eq-strcmp-take (suc cnt) (c ∷ s) [] = refl
bpf_strncmp-eq-strcmp-take (suc cnt) (c ∷ s) (d ∷ t) =
    ground (arith, bpf_strncmp-eq-strcmp-take cnt s t)
