-- ===== src/Layout/Store.antt =====
-- Writing words to memory, and what a read returns after a write. `load` is in PerCpu.
use linux_kernel_development.Prelude.{
  ℕ, zero, suc, ◌+◌, ◌/◌, ◌%◌, ◌^◌, ◌≤◌, ◌<◌, ◌≡◌, ◌⊎◌, refl, ◌∙◌, arith,
}
use linux_kernel_development.Prelude.{◌==◌, if◌then◌else◌}
use native.Mathlib.Nat.{pow-suc}
use linux_kernel_development.PerCpu.{Memory, load}

-- Writes `count` bytes of a word from an address on, the lowest first.
unfoldable pub store : Memory → ℕ → ℕ → ℕ → Memory
store mem zero addr v = mem
store mem (suc count) addr v =
    store (λ a. if a == addr then v % 2 ^ 8 else mem a) count ((addr + 1) % 2 ^ 64) (v / 2 ^ 8)

pub store-outside :
    (mem : Memory) (count addr v a : ℕ)
    → addr + count ≤ 2 ^ 64
    → (a < addr) ⊎ (addr + count ≤ a)
    → store mem count addr v a ≡ mem a
unfolding store
store-outside mem zero addr v a fits out = refl
store-outside mem (suc count) addr v a fits out =
    store-outside (λ a'. if a' == addr then v % 2 ^ 8 else mem a') count ((addr + 1) % 2 ^ 64)
      (v / 2 ^ 8) a (omega arith) (ground arith)
    ∙ ground arith

-- A read depends on the bytes that it reads.
load-ext :
    (mem mem' : Memory) (count addr : ℕ)
    → addr + count ≤ 2 ^ 64
    → ((a : ℕ) → addr ≤ a → a < addr + count → mem a ≡ mem' a)
    → load mem count addr ≡ load mem' count addr
unfolding load
load-ext mem mem' zero addr fits same = refl
load-ext mem mem' (suc count) addr fits same =
    let here = same addr (omega arith) (omega arith) in
    let rest =
      load-ext mem mem' count ((addr + 1) % 2 ^ 64) (omega arith)
        (λ a lo hi. same a (omega arith) (omega arith)) in
    rw (here, rest)

-- A read of other bytes returns what it returned before the write.
pub load-store_apart :
    (mem : Memory) (n addr v k a : ℕ)
    → addr + n ≤ 2 ^ 64
    → a + k ≤ 2 ^ 64
    → (a + k ≤ addr) ⊎ (addr + n ≤ a)
    → load (store mem n addr v) k a ≡ load mem k a
load-store_apart mem n addr v k a fits fits' apart =
    load-ext (store mem n addr v) mem k a fits'
      (λ x lo hi. store-outside mem n addr v x fits (ground arith))

-- A read of the written bytes returns the word that was written.
pub load-store_same :
    (mem : Memory) (n addr v : ℕ)
    → addr + n ≤ 2 ^ 64
    → v < 256 ^ n
    → load (store mem n addr v) n addr ≡ v
unfolding load store
load-store_same mem zero addr v fits small = omega arith
load-store_same mem (suc n) addr v fits small =
    let next : ℕ = (addr + 1) % 2 ^ 64 in
    let first : Memory = λ a. if a == addr then v % 2 ^ 8 else mem a in
    let kept = store-outside first n next (v / 2 ^ 8) addr (omega arith) (ground arith) in
    let rest =
      load-store_same first n next (v / 2 ^ 8) (omega arith) (omega (arith, pow-suc 256 n)) in
    rw (kept, rest) (ground arith)
