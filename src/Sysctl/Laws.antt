-- ===== src/Sysctl/Laws.antt =====
-- The helpers of sysctl.rs: which texts they read as numbers, and what they do to a buffer.
use linux_kernel_development.Prelude.{
  ℕ, ◌-◌, ◌^◌, ◌<◌, ◌≡◌, ◌≢◌, ◌⊎◌, inl, inr, refl, arith, true, false, not,
}
use linux_kernel_development.Prelude.{
  List, [], ◌∷◌, length, replicate, Option, none, some, ◌==◌, if◌then◌else◌, Bool-cases,
}
use linux_kernel_development.Prelude.Slices.{bytes}
use linux_kernel_development.Prelude.Words.{neg64, is_neg32, is_neg64, sign_extend32}
use linux_kernel_development.BaseHelper.{Calls, bpf_trace_printk}
use linux_kernel_development.Sysctl.{
  negated, digits_after_sign, parse_u64, parse_i64, str_to_i64, str_to_u64, SysctlKern, SysctlCalls,
  copy_sysctl_value, all_zero, bpf_sysctl_get_new_value,
}
use linux_kernel_development.Sysctl.Decimal.{
  number, within, parse_digits-number, print_u64, print_i64, parse_u64-print, parse_i64-print,
}

-- The number, however large, that a text spells: one digit or more, behind a `+` or not.
abbrev one_or_more : List ℕ → Option ℕ
one_or_more [] = none
one_or_more (c ∷ cs) = number 0 (c ∷ cs)

abbrev pub unsigned : List ℕ → Option ℕ
unsigned [] = none
unsigned (c ∷ cs) = if c == 43 then one_or_more cs else number 0 (c ∷ cs)

-- The `u64` that a text spells, and the `i64`: a `-` may stand in place of the `+`.
abbrev pub as_u64_text : List ℕ → Option ℕ
as_u64_text text = within (2 ^ 64 - 1) (unsigned text)

abbrev pub as_i64_text : List ℕ → Option ℕ
as_i64_text [] = none
as_i64_text (c ∷ cs) =
    if c == 45
    then negated (within (2 ^ 63) (one_or_more cs))
    else within (2 ^ 63 - 1) (unsigned (c ∷ cs))

digits_after_sign-within :
    (limit : ℕ) (cs : List ℕ) → digits_after_sign limit cs ≡ within limit (one_or_more cs)
unfolding digits_after_sign
digits_after_sign-within limit [] = refl
digits_after_sign-within limit (c ∷ cs) = parse_digits-number limit (c ∷ cs) 0 (omega arith)

parse_u64-as_u64_text : (text : List ℕ) → parse_u64 text ≡ as_u64_text text
unfolding parse_u64
parse_u64-as_u64_text [] = refl
parse_u64-as_u64_text (c ∷ cs) = elim (Bool-cases (c == 43)) [
  | inl plus ↦ rw plus (digits_after_sign-within (2 ^ 64 - 1) cs)
  | inr other ↦ rw other (parse_digits-number (2 ^ 64 - 1) (c ∷ cs) 0 (omega arith))
]

parse_i64-as_i64_text : (text : List ℕ) → parse_i64 text ≡ as_i64_text text
unfolding parse_i64
parse_i64-as_i64_text [] = refl
parse_i64-as_i64_text (c ∷ cs) = elim (Bool-cases (c == 43)) [
  | inl plus ↦
      (let not_minus : (c == 45) ≡ false = ground (arith, plus) in
        rw (plus, not_minus) (digits_after_sign-within (2 ^ 63 - 1) cs))
  | inr other ↦ elim (Bool-cases (c == 45)) [
    | inl dash ↦ rw (other, dash, digits_after_sign-within (2 ^ 63) cs) refl
    | inr digit ↦ rw (other, digit) (parse_digits-number (2 ^ 63 - 1) (c ∷ cs) 0 (omega arith))
  ]
]

module _ {S : Type 0} (k : Calls S) where
  -- A text is read as the number that it spells if it is one or more digits behind an optional sign,
  -- where only an `i64` takes a `-`, and the number fits the type. For every other text the result is
  -- 0 and one message is printed. Stopping at the digit that exceeds the type makes no difference.
  pub str_to_lem :
      (text : List ℕ) (s : S)
      → (str_to_u64 k text s ≡ (elim (as_u64_text text) [
        | some n ↦ (n, s)
        | none ↦ (0, (bpf_trace_printk k (bytes "Error parsing string to u64") 0 0 0 s).1)
      ]))
        × (str_to_i64 k text s ≡ (elim (as_i64_text text) [
          | some n ↦ (n, s)
          | none ↦ (0, (bpf_trace_printk k (bytes "Error parsing string to i64") 0 0 0 s).1)
        ]))
  unfolding str_to_u64 str_to_i64
  str_to_lem text s = (
    rw (str_to_u64, parse_u64-as_u64_text text) refl,
    rw (str_to_i64, parse_i64-as_i64_text text) refl,
  )

  -- Reading back a printed word gives that word and prints nothing, at both types.
  pub str_to-print :
      (x : ℕ) (s : S)
      → x < 2 ^ 64
      → (str_to_u64 k (print_u64 x) s ≡ (x, s)) × (str_to_i64 k (print_i64 x) s ≡ (x, s))
  unfolding str_to_u64 str_to_i64
  str_to-print x s lt =
      (rw (str_to_u64, parse_u64-print x lt) refl, rw (str_to_i64, parse_i64-print x lt) refl)

all_zero-replicate : (buf : List ℕ) → all_zero buf ≡ true → buf ≡ replicate (length buf) 0
unfolding all_zero
all_zero-replicate [] h = refl
all_zero-replicate (value ∷ buf) h = ground (arith, all_zero-replicate buf)

is_neg64-sign_extend32 : (w : ℕ) → w < 2 ^ 32 → is_neg64 (sign_extend32 w) ≡ is_neg32 w
is_neg64-sign_extend32 w lt = elim (Bool-cases (is_neg32 w)) [
  | inl negative ↦ rw negative (ground (arith, negative))
  | inr positive ↦ rw positive (ground (arith, positive))
]

-- On a read of the parameter there is no new value: the kernel is not called, the buffer comes back
-- full of zeros whatever it held, and the result is EINVAL negated. On a write the kernel gets the
-- whole buffer with the new value and its length, and the result is negative exactly if the
-- kernel's status, which is a 32-bit word, is.
pub bpf_sysctl_get_new_value_lem :
    {S : Type 0} (k : SysctlCalls S) (einval : ℕ) (ctx : SysctlKern) (buf : List ℕ) (s : S)
    → (k.copy_value buf (length buf) ctx.new_val ctx.new_len s).0 < 2 ^ 32
    → let (ret, buf', s') = bpf_sysctl_get_new_value k einval ctx buf s in
      let (status, copied, after) = k.copy_value buf (length buf) ctx.new_val ctx.new_len s in
      ((ctx.write ≡ 0) × (ret ≡ neg64 einval) × (buf' ≡ replicate (length buf) 0) × (s' ≡ s))
      ⊎ ((ctx.write ≢ 0) × (is_neg64 ret ≡ is_neg32 status) × (buf' ≡ copied) × (s' ≡ after))
unfolding bpf_sysctl_get_new_value copy_sysctl_value
bpf_sysctl_get_new_value_lem k einval ctx buf s int = elim (Bool-cases (ctx.write == 0)) [
  | inl reading ↦ inl (
    ground (arith, reading),
    rw (bpf_sysctl_get_new_value, reading) refl,
    rw (bpf_sysctl_get_new_value, reading) zeroed,
    rw (bpf_sysctl_get_new_value, reading) refl,
  )
  | inr writing ↦ inr (
    ground (arith, writing),
    rw (bpf_sysctl_get_new_value, writing) (is_neg64-sign_extend32 _ int),
    rw (bpf_sysctl_get_new_value, writing) refl,
    rw (bpf_sysctl_get_new_value, writing) refl,
  )
]
  where
    zeroed :
        (if not (all_zero buf) then replicate (length buf) 0 else buf) ≡ replicate (length buf) 0
    zeroed = elim (Bool-cases (all_zero buf)) [
      | inl zeros ↦ rw zeros (all_zero-replicate buf zeros)
      | inr others ↦ rw others refl
    ]
