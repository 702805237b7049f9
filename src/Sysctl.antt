-- ===== src/Sysctl.antt =====
-- inner_unikernel_rt/src/sysctl.rs: numbers from texts, and the values of a kernel parameter. A text
-- is its bytes, an `i64` its pattern, and the kernel's helpers are parameters.
pub mod Decimal
pub mod Laws
use linux_kernel_development.Prelude.{ℕ, ◌+◌, ◌-◌, ◌*◌, ◌^◌, Bool, true, false, not, ◌&&◌}
use linux_kernel_development.Prelude.{
  List, [], ◌∷◌, length, map, replicate, Option, none, some, leb, ◌==◌, if◌then◌else◌,
}
use linux_kernel_development.Prelude.Slices.{bytes}
use linux_kernel_development.Prelude.Words.{neg64, sign_extend32}
use linux_kernel_development.BaseHelper.{Calls, bpf_trace_printk}

-- The digits of `parse::<u64>()` and `parse::<i64>()` behind a number `n`; none as soon as a byte is
-- no digit or the number exceeds `limit`.
pub parse_digits : ℕ → ℕ → List ℕ → Option ℕ
parse_digits limit n [] = some n
parse_digits limit n (c ∷ cs) =
    let m = n * 10 + (c - 48) in
    let rest = parse_digits limit m cs in if leb 48 c && leb c 57 && leb m limit then rest else none

-- A sign alone is refused.
digits_after_sign : ℕ → List ℕ → Option ℕ
digits_after_sign limit [] = none
digits_after_sign limit (c ∷ cs) = parse_digits limit 0 (c ∷ cs)

pub parse_u64 : List ℕ → Option ℕ
unfolding digits_after_sign
parse_u64 [] = none
parse_u64 (c ∷ cs) =
    if c == 43 then digits_after_sign (2 ^ 64 - 1) cs else parse_digits (2 ^ 64 - 1) 0 (c ∷ cs)

abbrev pub negated : Option ℕ → Option ℕ
negated none = none
negated (some n) = some (neg64 n)

pub parse_i64 : List ℕ → Option ℕ
unfolding digits_after_sign
parse_i64 [] = none
parse_i64 (c ∷ cs) =
    if c == 43
    then digits_after_sign (2 ^ 63 - 1) cs
    else if c == 45
    then negated (digits_after_sign (2 ^ 63) cs)
    else parse_digits (2 ^ 63 - 1) 0 (c ∷ cs)

module _ {S : Type 0} (k : Calls S) where
  pub str_to_i64 : List ℕ → S → ℕ × S
  str_to_i64 text s = elim (parse_i64 text) [
    | some n ↦ (n, s)
    | none ↦ (0, (bpf_trace_printk k (bytes "Error parsing string to i64") 0 0 0 s).1)
  ]

  pub str_to_u64 : List ℕ → S → ℕ × S
  str_to_u64 text s = elim (parse_u64 text) [
    | some n ↦ (n, s)
    | none ↦ (0, (bpf_trace_printk k (bytes "Error parsing string to u64") 0 0 0 s).1)
  ]

-- The fields of `bpf_sysctl_kern` that are read; values are pointers.
pub record SysctlKern : Type 0 where
  pub cur_val : ℕ
  pub cur_len : ℕ
  pub new_val : ℕ
  pub new_len : ℕ
  pub write : ℕ

-- The kernel's helpers; a buffer is what it holds before and after the call.
pub record SysctlCalls (S : Type 0) : Type 0 where
  pub copy_value : List ℕ → ℕ → ℕ → ℕ → S → ℕ × List ℕ × S
  pub set_new_value : SysctlKern → List ℕ → ℕ → S → ℕ × SysctlKern × S
  pub get_name : SysctlKern → List ℕ → ℕ → ℕ → S → ℕ × List ℕ × S

-- `buf.iter().all(|&value| value == 0)`.
pub all_zero : List ℕ → Bool
all_zero [] = true
all_zero (value ∷ buf) = value == 0 && all_zero buf

module _ {S : Type 0} (k : SysctlCalls S) where
  pub copy_sysctl_value : List ℕ → ℕ → ℕ → S → ℕ × List ℕ × S
  copy_sysctl_value dst src src_len s = k.copy_value dst (length dst) src src_len s

  pub bpf_sysctl_get_current_value : SysctlKern → List ℕ → S → ℕ × List ℕ × S
  bpf_sysctl_get_current_value ctx buf s =
      let (ret, buf', s') = copy_sysctl_value buf ctx.cur_val ctx.cur_len s in
      (sign_extend32 ret, buf', s')

  pub bpf_sysctl_get_new_value : ℕ → SysctlKern → List ℕ → S → ℕ × List ℕ × S
  bpf_sysctl_get_new_value einval ctx buf s =
      if ctx.write == 0
      then (neg64 einval, (if not (all_zero buf) then replicate (length buf) 0 else buf), s)
      else (let (ret, buf', s') = copy_sysctl_value buf ctx.new_val ctx.new_len s in
          (sign_extend32 ret, buf', s'))

  pub bpf_sysctl_set_new_value : SysctlKern → List ℕ → S → ℕ × SysctlKern × S
  bpf_sysctl_set_new_value ctx buf s = k.set_new_value ctx buf (length buf) s

  pub bpf_sysctl_get_name : SysctlKern → List ℕ → ℕ → S → ℕ × List ℕ × S
  bpf_sysctl_get_name ctx buf flags s = k.get_name ctx buf (length buf) flags s
