-- ===== src/Random/Linear.antt =====
-- The generator of random32.rs is linear over the bits.
use linux_kernel_development.Prelude.{
  ℕ, zero, suc, ◌+◌, ◌-◌, ◌*◌, ◌/◌, ◌%◌, ◌^◌, ◌<◌, ◌≡◌, ap, ◌∙◌, refl, arith, sym,
}
use linux_kernel_development.Prelude.{ap₂, bit_and, bit_xor, leb, if◌then◌else◌}
use linux_kernel_development.Prelude.Bits.{
  bit, bit-bit_and, bit-bit_xor, bit_ext, bit-lt, bit-mod, bit_and-lt, bit_xor-lt,
}
use linux_kernel_development.Random.{RndState, tausworthe}
use native.Mathlib.Nat.{pow-suc, div-div-eq-div-mul, mod-lt, div-le_self}

-- Bit `j` of `x << d`, before it is cut off.
abbrev shifted : (ℕ → ℕ) → ℕ → ℕ → ℕ
shifted f d j = if leb d j then f (j - d) else 0

pub bit-shl : (d x j : ℕ) → bit (x * 2 ^ d) j ≡ shifted (bit x) d j
bit-shl zero x j =
    let same : x * 2 ^ 0 ≡ x = omega arith in ground (arith, ap (λ (t : ℕ). bit t j) same)
bit-shl (suc d) x zero = grind (arith, ap (λ (t : ℕ). x * t) (pow-suc 2 d))
bit-shl (suc d) x (suc j) =
    let same : suc j - suc d ≡ j - d = omega arith in
    let half : bit (x * 2 ^ suc d) (suc j) ≡ bit (x * 2 ^ d) j =
      ap (λ (t : ℕ). bit t j) (omega (arith, ap (λ (t : ℕ). x * t) (pow-suc 2 d))) in
    ground (arith, half, bit-shl d x j, ap (bit x) same)

pub bit-shr : (b x j : ℕ) → bit (x / 2 ^ b) j ≡ bit x (b + j)
bit-shr zero x j =
    let same : x / 2 ^ 0 ≡ x = omega arith in
    let start : 0 + j ≡ j = omega arith in rw start (ap (λ (t : ℕ). bit t j) same)
bit-shr (suc b) x j =
    let turn : suc b + j ≡ suc (b + j) = omega arith in
    rw turn (ap (λ (t : ℕ). bit t j) half ∙ bit-shr b (x / 2) j)
  where
    half : x / 2 ^ suc b ≡ x / 2 / 2 ^ b
    half = ap (λ (t : ℕ). x / t) (omega (arith, pow-suc 2 b)) ∙ sym (div-div-eq-div-mul x 2 (2 ^ b))

-- A function of 32-bit words that commutes with `^`.
pub record IsLinear (f : ℕ → ℕ) : Type 0 where
  pub range : (x : ℕ) → x < 2 ^ 32 → f x < 2 ^ 32
  pub additive : (x y : ℕ) → x < 2 ^ 32 → y < 2 ^ 32 → f (bit_xor x y) ≡ bit_xor (f x) (f y)

id-IsLinear : IsLinear (λ x. x)
id-IsLinear = record { range = λ x p. p; additive = λ x y p q. refl }

and-IsLinear : (c : ℕ) → IsLinear (λ x. bit_and x c)
and-IsLinear c = record {
  range = λ x p. bit_and-lt 32 x c p;
  additive = λ x y p q.
      bit_ext 32 (bit_and (bit_xor x y) c) (bit_xor (bit_and x c) (bit_and y c))
        (bit_and-lt 32 (bit_xor x y) c (bit_xor-lt 32 x y p q))
        (bit_xor-lt 32 (bit_and x c) (bit_and y c) (bit_and-lt 32 x c p) (bit_and-lt 32 y c q))
        (λ j lt. omega (
          arith,
          bit-bit_and j (bit_xor x y) c,
          bit-bit_xor j x y,
          bit-bit_xor j (bit_and x c) (bit_and y c),
          bit-bit_and j x c,
          bit-bit_and j y c,
          bit-lt x j,
          bit-lt y j,
          bit-lt c j,
        ));
}

shl-IsLinear : (d : ℕ) → IsLinear (λ x. x * 2 ^ d % 2 ^ 32)
shl-IsLinear d = record {
  range = λ x p. mod-lt (x * 2 ^ d) {m = 2 ^ 32} (omega arith);
  additive = λ x y p q.
      bit_ext 32 (bit_xor x y * 2 ^ d % 2 ^ 32) (bit_xor (x * 2 ^ d % 2 ^ 32) (y * 2 ^ d % 2 ^ 32))
        (omega arith)
        (bit_xor-lt 32 (x * 2 ^ d % 2 ^ 32) (y * 2 ^ d % 2 ^ 32) (omega arith) (omega arith))
        (λ j lt. ground (
          arith,
          bit-mod 32 (bit_xor x y * 2 ^ d) j lt,
          bit-mod 32 (x * 2 ^ d) j lt,
          bit-mod 32 (y * 2 ^ d) j lt,
          bit-shl d (bit_xor x y) j,
          bit-shl d x j,
          bit-shl d y j,
          bit-bit_xor (j - d) x y,
          bit-bit_xor j (x * 2 ^ d % 2 ^ 32) (y * 2 ^ d % 2 ^ 32),
        ));
}

shr-IsLinear : (b : ℕ) → IsLinear (λ x. x / 2 ^ b)
shr-IsLinear b = record {
  range = λ x p. below x p;
  additive = λ x y p q.
      bit_ext 32 (bit_xor x y / 2 ^ b) (bit_xor (x / 2 ^ b) (y / 2 ^ b))
        (below (bit_xor x y) (bit_xor-lt 32 x y p q))
        (bit_xor-lt 32 (x / 2 ^ b) (y / 2 ^ b) (below x p) (below y q))
        (λ j lt. omega (
          arith,
          bit-shr b (bit_xor x y) j,
          bit-shr b x j,
          bit-shr b y j,
          bit-bit_xor (b + j) x y,
          bit-bit_xor j (x / 2 ^ b) (y / 2 ^ b),
        ));
}
  where
    below : (x : ℕ) → x < 2 ^ 32 → x / 2 ^ b < 2 ^ 32
    below x p = omega (arith, div-le_self x (2 ^ b))

-- The `^` of two pairs, pair by pair or side by side.
pub xor_interchange :
    (a b c d : ℕ)
    → a < 2 ^ 32
    → b < 2 ^ 32
    → c < 2 ^ 32
    → d < 2 ^ 32
    → bit_xor (bit_xor a b) (bit_xor c d) ≡ bit_xor (bit_xor a c) (bit_xor b d)
xor_interchange a b c d p q r s =
    bit_ext 32 (bit_xor (bit_xor a b) (bit_xor c d)) (bit_xor (bit_xor a c) (bit_xor b d))
      (bit_xor-lt 32 (bit_xor a b) (bit_xor c d) (bit_xor-lt 32 a b p q) (bit_xor-lt 32 c d r s))
      (bit_xor-lt 32 (bit_xor a c) (bit_xor b d) (bit_xor-lt 32 a c p r) (bit_xor-lt 32 b d q s))
      (λ j lt. omega (
        arith,
        bit-bit_xor j (bit_xor a b) (bit_xor c d),
        bit-bit_xor j (bit_xor a c) (bit_xor b d),
        bit-bit_xor j a b,
        bit-bit_xor j c d,
        bit-bit_xor j a c,
        bit-bit_xor j b d,
      ))

module _ {f g : ℕ → ℕ} (hf : IsLinear f) (hg : IsLinear g) where
  xor-IsLinear : IsLinear (λ x. bit_xor (f x) (g x))
  xor-IsLinear = record {
    range = λ x p. bit_xor-lt 32 (f x) (g x) (hf.range x p) (hg.range x p);
    additive = λ x y p q.
        ap₂ bit_xor (hf.additive x y p q) (hg.additive x y p q)
        ∙ xor_interchange (f x) (f y) (g x) (g y) (hf.range x p) (hf.range y q) (hg.range x p)
            (hg.range y q);
  }

  comp-IsLinear : IsLinear (λ x. f (g x))
  comp-IsLinear = record {
    range = λ x p. hf.range (g x) (hg.range x p);
    additive = λ x y p q.
        ap f (hg.additive x y p q) ∙ hf.additive (g x) (g y) (hg.range x p) (hg.range y q);
  }

pub tausworthe-IsLinear : (a b c d : ℕ) → IsLinear (λ s. tausworthe s a b c d)
unfolding tausworthe
tausworthe-IsLinear a b c d =
    xor-IsLinear (comp-IsLinear (shl-IsLinear d) (and-IsLinear c))
      (comp-IsLinear (shr-IsLinear b) (xor-IsLinear (shl-IsLinear a) id-IsLinear))

-- The words of a state are of 32 bits.
pub record IsState (s : RndState) : Type 0 where
  pub s1_lt : s.s1 < 2 ^ 32
  pub s2_lt : s.s2 < 2 ^ 32
  pub s3_lt : s.s3 < 2 ^ 32
  pub s4_lt : s.s4 < 2 ^ 32

-- The `^` of two states, word by word.
unfoldable pub xor_state : RndState → RndState → RndState
xor_state s t = record {
  s1 = bit_xor s.s1 t.s1;
  s2 = bit_xor s.s2 t.s2;
  s3 = bit_xor s.s3 t.s3;
  s4 = bit_xor s.s4 t.s4;
}
