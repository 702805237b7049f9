-- ===== src/Prelude/Bits.antt =====
-- Single bits of `&`, `|` and `^`, at every width.
use Prim.Native.Nat.{ℕ, zero, suc, ◌+◌, ◌-◌, ◌*◌, ◌/◌, ◌%◌, ◌^◌, ◌≤◌, ◌<◌, min, max}
use Prim.Native.Nat.{bit_and, bit_or, bit_xor, digits, bitwise, differ}
use Prim.Native.Nat.{bit_and-bitwise, bit_or-bitwise, bit_xor-bitwise, differ}
use mathlib.Core.Path.{◌≡◌, refl, ap, sym, ◌∙◌}
use mathlib.Core.Logic.{◌≢◌}
use native.Mathlib.Nat.{pow-suc, one-le-pow, div-add-mod', mod-lt}
use native.Mathlib.Nat.{add-mul-mod_self_right, mod-eq_of_lt}
use native.Mathlib.Omega.{arith}
use linux_kernel_development.Prelude.Tests.{◌==◌, if◌then◌else◌}

-- The native operations recur on binary digits with fuel. One more unit of fuel than a number needs
-- changes nothing, and so neither do many.
module _ (z : ℕ → ℕ) (digit : ℕ → ℕ → ℕ) where
  fuel_step : (fuel x y : ℕ) → x ≤ fuel → digits z digit (suc fuel) x y ≡ digits z digit fuel x y
  fuel_step zero zero y enough = refl
  fuel_step zero (suc x) y enough = absurd (omega (arith, enough))
  fuel_step (suc fuel) zero y enough = refl
  fuel_step (suc fuel) (suc x) y enough =
      let half = fuel_step fuel (suc x / 2) (y / 2) (omega (arith, enough)) in rw half refl

  fuel_enough : (extra x y : ℕ) → digits z digit (extra + x) x y ≡ digits z digit x x y
  fuel_enough zero x y = let none_left : 0 + x ≡ x = omega arith in rw none_left refl
  fuel_enough (suc extra) x y =
      let one_more : suc extra + x ≡ suc (extra + x) = omega arith in
      rw one_more (fuel_step (extra + x) x y (omega arith) ∙ fuel_enough extra x y)

  -- The lowest digit of a result, and the digits above it.
  abbrev split_off : (ℕ → ℕ → ℕ) → ℕ → ℕ → ℕ
  split_off op x y = 2 * op (x / 2) (y / 2) + digit (x % 2) (y % 2)

  bitwise-suc : (x y : ℕ) → bitwise z digit (suc x) y ≡ split_off (bitwise z digit) (suc x) y
  bitwise-suc x y =
      let spare : x - suc x / 2 + suc x / 2 ≡ x = omega arith in
      let cut = fuel_enough (x - suc x / 2) (suc x / 2) (y / 2) in
      omega (arith, ap (λ fuel. digits z digit fuel (suc x / 2) (y / 2)) spare, cut)

-- One digit of each operation.
pub bit_or_step : (x y : ℕ) → bit_or x y ≡ bit_or (x / 2) (y / 2) * 2 + max (x % 2) (y % 2)
bit_or_step zero y = omega (arith, bit_or-bitwise 0 y, bit_or-bitwise 0 (y / 2))
bit_or_step (suc x) y = omega (
  arith,
  bit_or-bitwise (suc x) y,
  bit_or-bitwise (suc x / 2) (y / 2),
  bitwise-suc (λ rest. rest) max x y,
)

pub bit_and_step : (x y : ℕ) → bit_and x y ≡ bit_and (x / 2) (y / 2) * 2 + min (x % 2) (y % 2)
bit_and_step zero y = omega (arith, bit_and-bitwise 0 y, bit_and-bitwise 0 (y / 2))
bit_and_step (suc x) y = omega (
  arith,
  bit_and-bitwise (suc x) y,
  bit_and-bitwise (suc x / 2) (y / 2),
  bitwise-suc (λ rest. 0) min x y,
)

differ-mod : (a b : ℕ) → a < 2 → b < 2 → differ a b ≡ (a + b) % 2
differ-mod zero b p q = omega arith
differ-mod (suc zero) zero p q = refl
differ-mod (suc zero) (suc zero) p q = refl
differ-mod (suc zero) (suc (suc b)) p q = absurd (omega arith)
differ-mod (suc (suc a)) b p q = absurd (omega arith)

pub bit_xor_step : (a b : ℕ) → bit_xor a b ≡ bit_xor (a / 2) (b / 2) * 2 + (a + b) % 2
bit_xor_step zero b = simp bit_xor-bitwise (omega arith)
bit_xor_step (suc a) b = simp bit_xor-bitwise (
    omega (
      arith,
      bitwise-suc (λ y. y) differ a b,
      differ-mod (suc a % 2) (b % 2) (omega arith) (omega arith),
    ))

-- Bit `k` of `x`, as 0 or 1.
abbrev pub bit : ℕ → ℕ → ℕ
bit x zero = x % 2
bit x (suc k) = bit (x / 2) k

pub bit-lt : (x k : ℕ) → bit x k < 2
bit-lt x zero = omega arith
bit-lt x (suc k) = bit-lt (x / 2) k

pub bit-zero_left : (k : ℕ) → bit 0 k ≡ 0
bit-zero_left zero = refl
bit-zero_left (suc k) = bit-zero_left k

pub bit-bit_or : (k a b : ℕ) → bit (bit_or a b) k ≡ max (bit a k) (bit b k)
bit-bit_or zero a b = omega (arith, bit_or_step a b)
bit-bit_or (suc k) a b =
    ap (λ (t : ℕ). bit t k) (omega (arith, bit_or_step a b)) ∙ bit-bit_or k (a / 2) (b / 2)

pub bit-bit_and : (k a b : ℕ) → bit (bit_and a b) k ≡ min (bit a k) (bit b k)
bit-bit_and zero a b = omega (arith, bit_and_step a b)
bit-bit_and (suc k) a b =
    ap (λ (t : ℕ). bit t k) (omega (arith, bit_and_step a b)) ∙ bit-bit_and k (a / 2) (b / 2)

pub bit-bit_xor : (k a b : ℕ) → bit (bit_xor a b) k ≡ (bit a k + bit b k) % 2
bit-bit_xor zero a b = omega (arith, bit_xor_step a b)
bit-bit_xor (suc k) a b =
    ap (λ (t : ℕ). bit t k) (omega (arith, bit_xor_step a b)) ∙ bit-bit_xor k (a / 2) (b / 2)

-- Division by 2 of a power.
half-pow : (k : ℕ) → 2 ^ suc k / 2 ≡ 2 ^ k
half-pow k = omega (arith, pow-suc 2 k)

pub bit-pow_self : (k : ℕ) → bit (2 ^ k) k ≡ 1
bit-pow_self zero = refl
bit-pow_self (suc k) = ap (λ (t : ℕ). bit t k) (half-pow k) ∙ bit-pow_self k

pub bit-pow_ne : (k j : ℕ) → k ≢ j → bit (2 ^ k) j ≡ 0
bit-pow_ne zero zero h = absurd (h refl)
bit-pow_ne zero (suc j) h = bit-zero_left j
bit-pow_ne (suc k) zero h = omega (arith, pow-suc 2 k)
bit-pow_ne (suc k) (suc j) h =
    ap (λ (t : ℕ). bit t j) (half-pow k) ∙ bit-pow_ne k j (λ e. h (ap suc e))

pub bit-pow : (k j : ℕ) → bit (2 ^ k) j ≡ (if k == j then 1 else 0)
bit-pow k j = ground (arith, bit-pow_ne k j, bit-pow_self k)

-- Numbers of `w` bits that agree on each are equal.
pub bit_ext : (w a b : ℕ) → a < 2 ^ w → b < 2 ^ w → ((j : ℕ) → j < w → bit a j ≡ bit b j) → a ≡ b
bit_ext zero a b p q h = omega arith
bit_ext (suc w) a b p q h = omega (
  arith,
  h 0 (omega arith),
  bit_ext w (a / 2) (b / 2) (omega (arith, pow-suc 2 w)) (omega (arith, pow-suc 2 w))
      (λ j lt. h (suc j) (omega arith)),
)

pub bit-high : (w x j : ℕ) → x < 2 ^ w → w ≤ j → bit x j ≡ 0
bit-high zero x j p q = ap (λ (t : ℕ). bit t j) (omega arith) ∙ bit-zero_left j
bit-high (suc w) x zero p q = absurd (omega arith)
bit-high (suc w) x (suc j) p q = bit-high w (x / 2) j (omega (arith, pow-suc 2 w)) (omega arith)

mod-half : (w x : ℕ) → x % 2 ^ suc w / 2 ≡ x / 2 % 2 ^ w
mod-half w x =
    let q : ℕ = x / 2 ^ suc w in
    let r : ℕ = x % 2 ^ suc w in
    let split : x / 2 ≡ r / 2 + q * 2 ^ w =
      omega (arith, div-add-mod' x (2 ^ suc w), pow-suc 2 w, ap (λ (t : ℕ). q * t) (pow-suc 2 w)) in
    let small : r / 2 < 2 ^ w =
      omega (arith, mod-lt x {m = 2 ^ suc w} (one-le-pow (suc w) 2 (omega arith)), pow-suc 2 w) in
    sym (
      ap (λ (t : ℕ). t % 2 ^ w) split
      ∙ add-mul-mod_self_right (r / 2) q (2 ^ w)
      ∙ mod-eq_of_lt small)

pub bit-mod : (w x j : ℕ) → j < w → bit (x % 2 ^ w) j ≡ bit x j
bit-mod zero x j p = absurd (omega arith)
bit-mod (suc w) x zero p =
    let q : ℕ = x / 2 ^ suc w in
    omega (arith, div-add-mod' x (2 ^ suc w), ap (λ (t : ℕ). q * t) (pow-suc 2 w))
bit-mod (suc w) x (suc j) p =
    ap (λ (t : ℕ). bit t j) (mod-half w x) ∙ bit-mod w (x / 2) j (omega arith)

pub bit_or-lt : (w a b : ℕ) → a < 2 ^ w → b < 2 ^ w → bit_or a b < 2 ^ w
bit_or-lt zero a b p q =
    let a0 : a ≡ 0 = omega arith in let b0 : b ≡ 0 = omega arith in rw (a0, b0) (omega arith)
bit_or-lt (suc w) a b p q = omega (
  arith,
  bit_or_step a b,
  pow-suc 2 w,
  bit_or-lt w (a / 2) (b / 2) (omega (arith, pow-suc 2 w)) (omega (arith, pow-suc 2 w)),
)

pub bit_and-lt : (w a b : ℕ) → a < 2 ^ w → bit_and a b < 2 ^ w
bit_and-lt zero a b p = let a0 : a ≡ 0 = omega arith in rw (a0, bit_and-bitwise) (omega arith)
bit_and-lt (suc w) a b p = omega (
  arith,
  bit_and_step a b,
  pow-suc 2 w,
  bit_and-lt w (a / 2) (b / 2) (omega (arith, pow-suc 2 w)),
)

-- Complementing a word of `w` bits flips each.
pub bit-complement : (w x j : ℕ) → x < 2 ^ w → j < w → bit (2 ^ w - 1 - x) j ≡ 1 - bit x j
bit-complement zero x j p q = absurd (omega arith)
bit-complement (suc w) x zero p q = omega (arith, pow-suc 2 w)
bit-complement (suc w) x (suc j) p q =
    ap (λ (t : ℕ). bit t j) (omega (arith, pow-suc 2 w))
    ∙ bit-complement w (x / 2) j (omega (arith, pow-suc 2 w)) (omega arith)

bit_and-zero_below : (bound a : ℕ) → a < bound → bit_and a 0 ≡ 0
bit_and-zero_below zero a lt = absurd (omega (arith, lt))
bit_and-zero_below (suc bound) zero lt = refl
bit_and-zero_below (suc bound) (suc a) lt =
    let half = bit_and-zero_below bound (suc a / 2) (omega (arith, lt)) in
    omega (arith, half, bit_and_step (suc a) 0)

bit_and-zero : (a : ℕ) → bit_and a 0 ≡ 0
bit_and-zero a = bit_and-zero_below (suc a) a (omega arith)

-- `v & (1 << k)` is the mask itself if bit `k` is set, and 0 if not.
pub bit_and_pow : (k v : ℕ) → bit_and v (2 ^ k) ≡ bit v k * 2 ^ k
bit_and_pow zero v = omega (arith, bit_and_step v 1, bit_and-zero (v / 2))
bit_and_pow (suc k) v = omega (
  arith,
  bit_and_step v (2 ^ suc k),
  pow-suc 2 k,
  ap (λ (t : ℕ). bit_and (v / 2) t) (half-pow k),
  bit_and_pow k (v / 2),
  ap (λ (t : ℕ). bit (v / 2) k * t) (pow-suc 2 k),
)

half-mask : (k : ℕ) → (2 ^ suc k - 1) / 2 ≡ 2 ^ k - 1
half-mask k = omega (arith, pow-suc 2 k, one-le-pow k 2 (omega arith))

-- A mask of `k` ones cuts off all but the low `k` bits.
pub bit_and_mask : (k x : ℕ) → bit_and x (2 ^ k - 1) ≡ x % 2 ^ k
bit_and_mask zero x = omega (arith, bit_and-zero x)
bit_and_mask (suc k) x = omega (
  arith,
  bit_and_step x (2 ^ suc k - 1),
  pow-suc 2 k,
  one-le-pow k 2 (omega arith),
  ap (λ (t : ℕ). bit_and (x / 2) t) (half-mask k),
  bit_and_mask k (x / 2),
  mod-half k x,
  bit-mod (suc k) x 0 (omega arith),
)

pub bit_xor-lt : (w a b : ℕ) → a < 2 ^ w → b < 2 ^ w → bit_xor a b < 2 ^ w
bit_xor-lt zero a b p q =
    let a0 : a ≡ 0 = omega arith in let b0 : b ≡ 0 = omega arith in rw (a0, b0) (omega arith)
bit_xor-lt (suc w) a b p q = omega (
  arith,
  bit_xor_step a b,
  pow-suc 2 w,
  bit_xor-lt w (a / 2) (b / 2) (omega (arith, pow-suc 2 w)) (omega (arith, pow-suc 2 w)),
)
