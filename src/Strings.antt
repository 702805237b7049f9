-- ===== src/Strings.antt =====
-- `bpf_strcmp` and `bpf_strncmp` of inner_unikernel_rt/src/base_helper.rs. A string is the list of
-- its characters' code points, in the order in which `chars()` gives them; `next` on an exhausted
-- iterator gives `None` again. Results are the bit patterns of the returned `i32`.
pub mod Order
use linux_kernel_development.Prelude.{ℕ, zero, suc, List, [], ◌∷◌, ltb, ◌==◌, if◌then◌else◌}
use linux_kernel_development.Prelude.Words.{neg32}

abbrev pub minus_one : ℕ
minus_one = neg32 1

pub bpf_strcmp : List ℕ → List ℕ → ℕ
bpf_strcmp (c₁ ∷ s₁) (c₂ ∷ s₂) =
    if c₁ == c₂ then bpf_strcmp s₁ s₂ else if ltb c₁ c₂ then minus_one else 1
bpf_strcmp [] (c₂ ∷ s₂) = minus_one
bpf_strcmp (c₁ ∷ s₁) [] = 1
bpf_strcmp [] [] = 0

-- The last argument counts the rounds that `idx < cnt` still allows.
pub bpf_strncmp : List ℕ → List ℕ → ℕ → ℕ
bpf_strncmp s₁ s₂ zero = 0
bpf_strncmp (c₁ ∷ s₁) (c₂ ∷ s₂) (suc cnt) =
    if c₁ == c₂ then bpf_strncmp s₁ s₂ cnt else if ltb c₁ c₂ then minus_one else 1
bpf_strncmp [] (c₂ ∷ s₂) (suc cnt) = minus_one
bpf_strncmp (c₁ ∷ s₁) [] (suc cnt) = 1
bpf_strncmp [] [] (suc cnt) = 0
