-- ===== src/Tests/Parsing.antt =====
-- Numbers of sysctl.rs, a buffer, and the conversion of a time.
use linux_kernel_development.Prelude.{
  ℕ, ◌+◌, ◌-◌, ◌*◌, ◌^◌, ◌≤◌, ◌<◌, ◌≡◌, ◌⊎◌, arith, none, some, ok,
}
use linux_kernel_development.Prelude.Slices.{bytes}
use linux_kernel_development.Tests.{debug}
use linux_kernel_development.Tests.Kernel.{idle, start}
use linux_kernel_development.BaseHelper.{bpf_trace_printk}
use linux_kernel_development.Timekeeping.Clocks.{timespec64_to_ktime, timespec64_to_ktime_lem}
use linux_kernel_development.Sysctl.{str_to_i64, str_to_u64}
use linux_kernel_development.Sysctl.Decimal.{print_u64, print_i64}
use linux_kernel_development.Sysctl.Laws.{as_u64_text, as_i64_text, str_to_lem, str_to-print}

str_to_lem_example :
    (str_to_u64 idle (bytes "-5") start ≡ (elim (as_u64_text (bytes "-5")) [
      | some n ↦ (n, start)
      | none ↦ (0, (bpf_trace_printk idle (bytes "Error parsing string to u64") 0 0 0 start).1)
    ]))
    × (str_to_i64 idle (bytes "-5") start ≡ (elim (as_i64_text (bytes "-5")) [
      | some n ↦ (n, start)
      | none ↦ (0, (bpf_trace_printk idle (bytes "Error parsing string to i64") 0 0 0 start).1)
    ]))
str_to_lem_example = str_to_lem idle (bytes "-5") start

str_to-print_example :
    (str_to_u64 idle (print_u64 (2 ^ 64 - 5)) start ≡ (2 ^ 64 - 5, start))
    × (str_to_i64 idle (print_i64 (2 ^ 64 - 5)) start ≡ (2 ^ 64 - 5, start))
str_to-print_example = str_to-print idle (2 ^ 64 - 5) start (omega arith)

timespec64_to_ktime_lem_example :
    (r : ℕ) × (timespec64_to_ktime debug (record { tv_sec = 9223372036; tv_nsec = 5 }) ≡ ok r)
    × (((9223372036 * 1000000000 + 5 < 9223372036000000000) × (r ≡ 9223372036 * 1000000000 + 5))
        ⊎ ((9223372036000000000 ≤ 9223372036 * 1000000000 + 5) × (r ≡ 2 ^ 63 - 1)))
timespec64_to_ktime_lem_example =
    timespec64_to_ktime_lem debug 9223372036 5 (omega arith) (omega arith)
