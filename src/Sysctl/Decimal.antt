-- ===== src/Sysctl/Decimal.antt =====
-- What the number parsers of sysctl.rs accept, and that they read back what is printed.
use linux_kernel_development.Prelude.{
  ℕ, zero, suc, ◌+◌, ◌-◌, ◌*◌, ◌/◌, ◌%◌, ◌^◌, ◌≤◌, ◌<◌, ◌≡◌, refl, ap, ◌∙◌, arith,
}
use linux_kernel_development.Prelude.{
  List, [], ◌∷◌, ◌++◌, Option, none, some, leb, ltb, ◌&&◌, if◌then◌else◌, Bool-cases, Option-cases,
  inl, inr,
}
use linux_kernel_development.Prelude.Words.{is_neg64}
use linux_kernel_development.Sysctl.{parse_digits, digits_after_sign, parse_u64, parse_i64}

-- The number that digits spell behind `n`, however large.
abbrev pub number : ℕ → List ℕ → Option ℕ
number n [] = some n
number n (c ∷ cs) =
    let rest = number (n * 10 + (c - 48)) cs in if leb 48 c && leb c 57 then rest else none

-- A number that is in range.
abbrev pub within : ℕ → Option ℕ → Option ℕ
within limit none = none
within limit (some v) = if leb v limit then some v else none

number-ge : (cs : List ℕ) (n v : ℕ) → number n cs ≡ some v → n ≤ v
number-ge [] n v h = ground arith
number-ge (c ∷ cs) n v h = ground (arith, number-ge cs (n * 10 + (c - 48)) v)

within-over : (cs : List ℕ) (limit n : ℕ) → limit < n → within limit (number n cs) ≡ none
within-over cs limit n over = elim (Option-cases (number n cs)) [
  | inl e ↦ rw e refl
  | inr (v, e) ↦ rw e (ground (arith, number-ge cs n v e))
]

-- Testing the bound at every digit is the same as testing it once at the end.
pub parse_digits-number :
    (limit : ℕ) (cs : List ℕ) (n : ℕ)
    → n ≤ limit
    → parse_digits limit n cs ≡ within limit (number n cs)
unfolding parse_digits
parse_digits-number limit [] n le = ground arith
parse_digits-number limit (c ∷ cs) n le = elim (Bool-cases (leb (n * 10 + (c - 48)) limit)) [
  | inl fits ↦
      ground (arith, fits, parse_digits-number limit cs (n * 10 + (c - 48)) (ground (arith, fits)))
  | inr over ↦ ground (arith, over, within-over cs limit (n * 10 + (c - 48)) (ground (arith, over)))
]

-- The decimal digits of a number; each round of fuel is a digit.
abbrev pub digits : ℕ → ℕ → List ℕ
digits zero n = []
digits (suc fuel) n = (if ltb n 10 then [] else digits fuel (n / 10)) ++ (48 + n % 10) ∷ []

abbrev pub decimal : ℕ → List ℕ
decimal n = digits (suc n) n

number-append :
    (cs : List ℕ) (d n v : ℕ)
    → d < 10
    → number n cs ≡ some v
    → number n (cs ++ (48 + d) ∷ []) ≡ some (v * 10 + d)
number-append [] d n v lt h = ground arith
number-append (c ∷ cs) d n v lt h = ground (arith, number-append cs d (n * 10 + (c - 48)) v lt)

pub number-digits : (fuel n : ℕ) → n < fuel → number 0 (digits fuel n) ≡ some n
number-digits zero n lt = absurd (omega arith)
number-digits (suc fuel) n lt = elim (Bool-cases (ltb n 10)) [
  | inl last ↦
      rw last (number-append [] (n % 10) 0 0 (omega arith) refl ∙ ap some (ground (arith, last)))
  | inr more ↦ rw more (
      number-append (digits fuel (n / 10)) (n % 10) 0 (n / 10) (omega arith)
        (number-digits fuel (n / 10) (ground (arith, more)))
      ∙ ap some (omega arith))
]

-- What is printed begins with a digit.
digits-first :
    (fuel n : ℕ)
    → n < fuel
    → (c : ℕ) × (cs : List ℕ) × (digits fuel n ≡ c ∷ cs) × (48 ≤ c) × (c ≤ 57)
digits-first zero n lt = absurd (omega arith)
digits-first (suc fuel) n lt = elim (Bool-cases (ltb n 10)) [
  | inl last ↦ (48 + n % 10, [], rw last refl, omega arith, omega arith)
  | inr more ↦
      (let (c, cs, e, low, high) = digits-first fuel (n / 10) (ground (arith, more)) in
        (c, cs ++ (48 + n % 10) ∷ [], rw (more, e) refl, low, high))
]

-- How a word is printed, as a `u64` and as an `i64`.
abbrev pub print_u64 : ℕ → List ℕ
print_u64 = decimal

abbrev pub print_i64 : ℕ → List ℕ
print_i64 x = if is_neg64 x then 45 ∷ decimal (2 ^ 64 - x) else decimal x

parse_digits-decimal : (limit n : ℕ) → n ≤ limit → parse_digits limit 0 (decimal n) ≡ some n
parse_digits-decimal limit n le =
    parse_digits-number limit (decimal n) 0 (omega arith)
    ∙ rw (number-digits (suc n) n (omega arith)) (ground (arith, le))

pub parse_u64-print : (n : ℕ) → n < 2 ^ 64 → parse_u64 (print_u64 n) ≡ some n
unfolding parse_u64
parse_u64-print n lt =
    let (c, cs, e, low, high) = digits-first (suc n) n (omega arith) in
    let read = rw e at (parse_digits-decimal (2 ^ 64 - 1) n (omega arith)) in
    rw e (ground (arith, low, read))

pub parse_i64-print : (x : ℕ) → x < 2 ^ 64 → parse_i64 (print_i64 x) ≡ some x
unfolding parse_i64 digits_after_sign
parse_i64-print x lt = elim (Bool-cases (is_neg64 x)) [
  | inl negative ↦
      (let m = 2 ^ 64 - x in
        let (c, cs, e, low, high) = digits-first (suc m) m (omega arith) in
        let read = rw e at (parse_digits-decimal (2 ^ 63) m (ground (arith, negative))) in
        rw (negative, e, read) (ground (arith, negative)))
  | inr positive ↦
      (let (c, cs, e, low, high) = digits-first (suc x) x (omega arith) in
        let read = rw e at (parse_digits-decimal (2 ^ 63 - 1) x (ground (arith, positive))) in
        rw (positive, e) (ground (arith, low, high, read)))
]
