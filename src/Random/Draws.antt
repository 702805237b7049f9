-- ===== src/Random/Draws.antt =====
-- What `prandom_u32_state` of random32.rs draws, call by call, against the four bit sequences that
-- its constants stand for: the combined Tausworthe generator.
use linux_kernel_development.Prelude.{
  ℕ, zero, suc, ◌+◌, ◌-◌, ◌*◌, ◌%◌, ◌<◌, ◌≡◌, ap, ◌∙◌, refl, arith, sym,
}
use linux_kernel_development.Prelude.{bit_xor}
use linux_kernel_development.Prelude.Bits.{bit, bit-bit_xor}
use linux_kernel_development.Random.{RndState, prandom_u32_state}
use linux_kernel_development.Random.Linear.{IsState}
use linux_kernel_development.Random.Laws.{next-IsState}
use linux_kernel_development.Random.Sequences.{
  sequence, sequence-start, sequence-next, IsWindow, tausworthe-IsWindow,
}

-- The state after some calls.
abbrev pub after : ℕ → RndState → RndState
after zero state = state
after (suc n) state = (prandom_u32_state (after n state)).1

-- The sequences that a state starts, and the sum of a bit of each.
abbrev y₁ : RndState → ℕ → ℕ
y₁ state n = sequence 31 6 state.s1 n

abbrev y₂ : RndState → ℕ → ℕ
y₂ state n = sequence 29 2 state.s2 n

abbrev y₃ : RndState → ℕ → ℕ
y₃ state n = sequence 28 13 state.s3 n

abbrev y₄ : RndState → ℕ → ℕ
y₄ state n = sequence 25 3 state.s4 n

-- Where the words of a state stand in the sequences of `start` after `n` calls.
record Follows (start : RndState) (n : ℕ) (state : RndState) : Type 0 where
  word1 : IsWindow (y₁ start) (18 * n) 31 state.s1
  word2 : IsWindow (y₂ start) (2 * n) 29 state.s2
  word3 : IsWindow (y₃ start) (7 * n) 28 state.s3
  word4 : IsWindow (y₄ start) (13 * n) 25 state.s4

-- The windows of a state that was drawn are of 32 bits.
record Filled (start : RndState) (n : ℕ) (state : RndState) : Type 0 where
  all1 : IsWindow (y₁ start) (18 * n) 32 state.s1
  all2 : IsWindow (y₂ start) (2 * n) 32 state.s2
  all3 : IsWindow (y₃ start) (7 * n) 32 state.s3
  all4 : IsWindow (y₄ start) (13 * n) 32 state.s4

Filled-Follows :
    (start : RndState) (n : ℕ) (state : RndState) → Filled start n state → Follows start n state
Filled-Follows start n state h = record {
  word1 = λ i lt. h.all1 i (omega (arith, lt));
  word2 = λ i lt. h.all2 i (omega (arith, lt));
  word3 = λ i lt. h.all3 i (omega (arith, lt));
  word4 = λ i lt. h.all4 i (omega (arith, lt));
}

start-Follows : (start : RndState) → Follows start 0 start
start-Follows start = record {
  word1 = λ i lt. sym (sequence-start 31 6 start.s1 i lt) ∙ ap (y₁ start) (omega arith);
  word2 = λ i lt. sym (sequence-start 29 2 start.s2 i lt) ∙ ap (y₂ start) (omega arith);
  word3 = λ i lt. sym (sequence-start 28 13 start.s3 i lt) ∙ ap (y₃ start) (omega arith);
  word4 = λ i lt. sym (sequence-start 25 3 start.s4 i lt) ∙ ap (y₄ start) (omega arith);
}

moved : (y : ℕ → ℕ) (t t' x : ℕ) → t ≡ t' → IsWindow y t 32 x → IsWindow y t' 32 x
moved y t t' x same window i lt = window i lt ∙ ap (λ (m : ℕ). y (m + i)) same

next-Filled :
    (start : RndState) (n : ℕ) (state : RndState)
    → IsState state
    → Follows start n state
    → Filled start (suc n) (prandom_u32_state state).1
unfolding prandom_u32_state
next-Filled start n state h follows = record {
  all1 = moved (y₁ start) (18 * n + 18) (18 * suc n) _ (omega arith) (
      tausworthe-IsWindow 31 6 18 (y₁ start)
        (λ m. sequence-next 31 6 start.s1 m (omega arith) (omega arith)) (omega arith) (omega arith)
        (omega arith) state.s1 (18 * n) h.s1_lt follows.word1);
  all2 = moved (y₂ start) (2 * n + 2) (2 * suc n) _ (omega arith) (
      tausworthe-IsWindow 29 2 2 (y₂ start)
        (λ m. sequence-next 29 2 start.s2 m (omega arith) (omega arith)) (omega arith) (omega arith)
        (omega arith) state.s2 (2 * n) h.s2_lt follows.word2);
  all3 = moved (y₃ start) (7 * n + 7) (7 * suc n) _ (omega arith) (
      tausworthe-IsWindow 28 13 7 (y₃ start)
        (λ m. sequence-next 28 13 start.s3 m (omega arith) (omega arith)) (omega arith)
        (omega arith) (omega arith) state.s3 (7 * n) h.s3_lt follows.word3);
  all4 = moved (y₄ start) (13 * n + 13) (13 * suc n) _ (omega arith) (
      tausworthe-IsWindow 25 3 13 (y₄ start)
        (λ m. sequence-next 25 3 start.s4 m (omega arith) (omega arith)) (omega arith) (omega arith)
        (omega arith) state.s4 (13 * n) h.s4_lt follows.word4);
}

after-IsState : (n : ℕ) (state : RndState) → IsState state → IsState (after n state)
after-IsState zero state h = h
after-IsState (suc n) state h = next-IsState (after n state) (after-IsState n state h)

after-Follows : (n : ℕ) (state : RndState) → IsState state → Follows state n (after n state)
after-Follows zero state h = start-Follows state
after-Follows (suc n) state h =
    Filled-Follows state (suc n) (after (suc n) state)
      (next-Filled state n (after n state) (after-IsState n state h) (after-Follows n state h))

bit-drawn :
    (state : RndState) (j : ℕ)
    → let next = (prandom_u32_state state).1 in
      bit (prandom_u32_state state).0 j
      ≡ (bit next.s1 j + bit next.s2 j + bit next.s3 j + bit next.s4 j) % 2
unfolding prandom_u32_state
bit-drawn state j =
    let next = (prandom_u32_state state).1 in
    omega (
      arith,
      bit-bit_xor j (bit_xor (bit_xor next.s1 next.s2) next.s3) next.s4,
      bit-bit_xor j (bit_xor next.s1 next.s2) next.s3,
      bit-bit_xor j next.s1 next.s2,
    )

-- From a state of 32-bit words, the numbers that the calls draw are those of the combined Tausworthe
-- generator with the parameters (31, 6, 18), (29, 2, 2), (28, 13, 7), (25, 3, 13). For (k, q, s), the
-- `k` highest bits of a word begin a sequence in which each bit is the sum of the one `k` places
-- before it and of the one `q` places after that, modulo 2. Read from its highest bit on, the number
-- that the call `n` draws (counted from 1) is the sum modulo 2 of the four sequences from the places
-- `n` times `s` on.
pub prandom_u32_state-sequence :
    (state : RndState) (n i : ℕ)
    → IsState state
    → i < 32
    → bit (prandom_u32_state (after n state)).0 (31 - i)
      ≡ (sequence 31 6 state.s1 (18 * suc n + i)
          + sequence 29 2 state.s2 (2 * suc n + i)
          + sequence 28 13 state.s3 (7 * suc n + i)
          + sequence 25 3 state.s4 (13 * suc n + i))
        % 2
prandom_u32_state-sequence state n i h lt =
    let filled =
      next-Filled state n (after n state) (after-IsState n state h) (after-Follows n state h) in
    bit-drawn (after n state) (31 - i)
    ∙ rw (filled.all1 i lt, filled.all2 i lt, filled.all3 i lt, filled.all4 i lt) refl
