-- ===== src/Random/Laws.antt =====
-- What `prandom_u32_state` of random32.rs does to combined states, and which bits of a state it reads.
use linux_kernel_development.Prelude.{ℕ, ◌*◌, ◌/◌, ◌%◌, ◌^◌, ◌<◌, ◌≡◌, ap, ◌∙◌, refl, arith}
use linux_kernel_development.Prelude.{bit_and, bit_xor}
use linux_kernel_development.Prelude.Bits.{
  bit-bit_and, bit-bit_xor, bit_ext, bit-lt, bit-high, bit-zero_left, bit_and-lt, bit_xor-lt,
}
use linux_kernel_development.Random.{RndState, tausworthe, prandom_u32_state}
use linux_kernel_development.Random.Linear.{
  IsState, IsLinear, tausworthe-IsLinear, xor_interchange, xor_state, bit-shl,
}
use native.Mathlib.Nat.{div-eq_of_lt}

abbrev new_word : ℕ → ℕ → ℕ → ℕ → ℕ → ℕ
new_word a b c d s = tausworthe s a b c d

additive :
    (a b c d x y : ℕ)
    → x < 2 ^ 32
    → y < 2 ^ 32
    → tausworthe (bit_xor x y) a b c d ≡ bit_xor (tausworthe x a b c d) (tausworthe y a b c d)
additive a b c d x y p q = IsLinear.additive (tausworthe-IsLinear a b c d) x y p q

tausworthe-lt : (a b c d x : ℕ) → x < 2 ^ 32 → tausworthe x a b c d < 2 ^ 32
tausworthe-lt a b c d x p = IsLinear.range (tausworthe-IsLinear a b c d) x p

-- The `^` of four words.
abbrev drawn : RndState → ℕ
drawn s = bit_xor (bit_xor (bit_xor s.s1 s.s2) s.s3) s.s4

drawn-lt : (s : RndState) → IsState s → drawn s < 2 ^ 32
drawn-lt s h =
    bit_xor-lt 32 (bit_xor (bit_xor s.s1 s.s2) s.s3) s.s4
      (bit_xor-lt 32 (bit_xor s.s1 s.s2) s.s3 (bit_xor-lt 32 s.s1 s.s2 h.s1_lt h.s2_lt) h.s3_lt)
      h.s4_lt

drawn-xor :
    (s t : RndState) → IsState s → IsState t → drawn (xor_state s t) ≡ bit_xor (drawn s) (drawn t)
unfolding xor_state
drawn-xor s t hs ht =
    let s12 = bit_xor-lt 32 s.s1 s.s2 hs.s1_lt hs.s2_lt in
    let t12 = bit_xor-lt 32 t.s1 t.s2 ht.s1_lt ht.s2_lt in
    let s123 = bit_xor-lt 32 (bit_xor s.s1 s.s2) s.s3 s12 hs.s3_lt in
    let t123 = bit_xor-lt 32 (bit_xor t.s1 t.s2) t.s3 t12 ht.s3_lt in
    ap (λ u. bit_xor (bit_xor u (bit_xor s.s3 t.s3)) (bit_xor s.s4 t.s4))
      (xor_interchange s.s1 t.s1 s.s2 t.s2 hs.s1_lt ht.s1_lt hs.s2_lt ht.s2_lt)
    ∙ ap (λ u. bit_xor u (bit_xor s.s4 t.s4))
        (xor_interchange (bit_xor s.s1 s.s2) (bit_xor t.s1 t.s2) s.s3 t.s3 s12 t12 hs.s3_lt
          ht.s3_lt)
    ∙ xor_interchange (bit_xor (bit_xor s.s1 s.s2) s.s3) (bit_xor (bit_xor t.s1 t.s2) t.s3) s.s4
        t.s4 s123 t123 hs.s4_lt ht.s4_lt

pub next-IsState : (s : RndState) → IsState s → IsState (prandom_u32_state s).1
unfolding prandom_u32_state
next-IsState s h = record {
  s1_lt = tausworthe-lt 6 13 4294967294 18 s.s1 h.s1_lt;
  s2_lt = tausworthe-lt 2 27 4294967288 2 s.s2 h.s2_lt;
  s3_lt = tausworthe-lt 13 21 4294967280 7 s.s3 h.s3_lt;
  s4_lt = tausworthe-lt 3 12 4294967168 13 s.s4 h.s4_lt;
}

-- From a state of 32-bit words, the words of the new state and the number drawn are of 32 bits.
prandom_u32_state-IsState :
    (s : RndState)
    → IsState s
    → ((prandom_u32_state s).0 < 2 ^ 32) × IsState (prandom_u32_state s).1
unfolding prandom_u32_state
prandom_u32_state-IsState s h =
    (drawn-lt (prandom_u32_state s).1 (next-IsState s h), next-IsState s h)

next-xor :
    (s t : RndState)
    → IsState s
    → IsState t
    → (prandom_u32_state (xor_state s t)).1
      ≡ xor_state (prandom_u32_state s).1 (prandom_u32_state t).1
unfolding prandom_u32_state xor_state
next-xor s t hs ht =
    rw
      (
        additive 6 13 4294967294 18 s.s1 t.s1 hs.s1_lt ht.s1_lt,
        additive 2 27 4294967288 2 s.s2 t.s2 hs.s2_lt ht.s2_lt,
        additive 13 21 4294967280 7 s.s3 t.s3 hs.s3_lt ht.s3_lt,
        additive 3 12 4294967168 13 s.s4 t.s4 hs.s4_lt ht.s4_lt,
      )
      refl

-- On states of 32-bit words the generator is linear over the bits: from the `^` of two states it
-- draws the `^` of the numbers that it draws from each, and leaves the `^` of the states that they
-- leave.
pub prandom_u32_state-xor_state :
    (s t : RndState)
    → IsState s
    → IsState t
    → ((prandom_u32_state (xor_state s t)).0
        ≡ bit_xor (prandom_u32_state s).0 (prandom_u32_state t).0)
      × ((prandom_u32_state (xor_state s t)).1
          ≡ xor_state (prandom_u32_state s).1 (prandom_u32_state t).1)
unfolding prandom_u32_state
prandom_u32_state-xor_state s t hs ht = (
  ap drawn (next-xor s t hs ht)
      ∙ drawn-xor (prandom_u32_state s).1 (prandom_u32_state t).1 (next-IsState s hs)
          (next-IsState t ht),
  next-xor s t hs ht,
)

mask_low : (k e m : ℕ) → e < 2 ^ k → e < 2 ^ 32 → bit_and e (m * 2 ^ k) ≡ 0
mask_low k e m lt word =
    bit_ext 32 (bit_and e (m * 2 ^ k)) 0 (bit_and-lt 32 e (m * 2 ^ k) word) (omega arith) (λ j j_lt.
      grind (arith, bit-bit_and j e (m * 2 ^ k), bit-shl k m j, bit-high k e j lt, bit-zero_left j))

-- The low bits of a word are all shifted out.
low_bits_vanish :
    (a b d k m e : ℕ)
    → e < 2 ^ k
    → e < 2 ^ 32
    → e < 2 ^ b
    → e * 2 ^ a % 2 ^ 32 < 2 ^ b
    → tausworthe e a b (m * 2 ^ k) d ≡ 0
unfolding tausworthe
low_bits_vanish a b d k m e lt word high shifted =
    let right : bit_xor (e * 2 ^ a % 2 ^ 32) e / 2 ^ b ≡ 0 =
      div-eq_of_lt (bit_xor-lt b (e * 2 ^ a % 2 ^ 32) e shifted high) in
    let empty : 0 * 2 ^ d % 2 ^ 32 ≡ 0 = omega arith in
    rw (mask_low k e m lt word, right, empty) refl

xor_zero : (x : ℕ) → x < 2 ^ 32 → bit_xor x 0 ≡ x
xor_zero x p =
    bit_ext 32 (bit_xor x 0) x (bit_xor-lt 32 x 0 p (omega arith)) p
      (λ j lt. omega (arith, bit-bit_xor j x 0, bit-zero_left j, bit-lt x j))

same_word :
    (a b d k m x e : ℕ)
    → x < 2 ^ 32
    → e < 2 ^ k
    → e < 2 ^ 32
    → e < 2 ^ b
    → e * 2 ^ a % 2 ^ 32 < 2 ^ b
    → tausworthe (bit_xor x e) a b (m * 2 ^ k) d ≡ tausworthe x a b (m * 2 ^ k) d
same_word a b d k m x e p lt word high shifted =
    additive a b (m * 2 ^ k) d x e p word
    ∙ ap (bit_xor (tausworthe x a b (m * 2 ^ k) d))
        (low_bits_vanish a b d k m e lt word high shifted)
    ∙ xor_zero (tausworthe x a b (m * 2 ^ k) d) (tausworthe-lt a b (m * 2 ^ k) d x p)

-- In a state of 32-bit words, the lowest bit of the first word, the lowest three of the second,
-- four of the third and seven of the fourth make no difference to what is drawn, now or later: a
-- seed counts only above them.
prandom_u32_state-low_bits :
    (s e : RndState)
    → IsState s
    → e.s1 < 2
    → e.s2 < 8
    → e.s3 < 16
    → e.s4 < 128
    → prandom_u32_state (xor_state s e) ≡ prandom_u32_state s
unfolding prandom_u32_state xor_state
prandom_u32_state-low_bits s e h p q r t =
    rw
      (
        same_word 6 13 18 1 2147483647 s.s1 e.s1 h.s1_lt p (omega arith) (omega arith)
            (omega arith),
        same_word 2 27 2 3 536870911 s.s2 e.s2 h.s2_lt q (omega arith) (omega arith) (omega arith),
        same_word 13 21 7 4 268435455 s.s3 e.s3 h.s3_lt r (omega arith) (omega arith) (omega arith),
        same_word 3 12 13 7 33554431 s.s4 e.s4 h.s4_lt t (omega arith) (omega arith) (omega arith),
      )
      refl
