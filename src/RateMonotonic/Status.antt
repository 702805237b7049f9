-- ===== src/RateMonotonic/Status.antt =====
-- The proc file of mp2.c: `mp2_read`, which lists the registered tasks. The buffer that it allocates
-- is a list of bytes in which `none` is a byte that nothing was written to. The counts of the function
-- are `int`; they are taken not to overflow, as the kernel reads less than 2 ^ 31 bytes at a time.
use linux_kernel_development.Prelude.{ℕ, zero, suc, ◌+◌, ◌-◌, ◌^◌}
use linux_kernel_development.Prelude.{Option, none, some, List, [], ◌∷◌, ◌++◌, length, take}
use linux_kernel_development.Prelude.{replicate, ◌==◌, leb, true, false, if◌then◌else◌}
use linux_kernel_development.Prelude.Words.{as_u32, is_neg32, sign_extend32}
use linux_kernel_development.Sysctl.Decimal.{decimal}
use linux_kernel_development.RateMonotonic.Tasks.{Task}
use linux_kernel_development.RateMonotonic.{Checked, ok, faults, out_of_bounds, Scheduler}

-- The format `%d` of an `unsigned int`.
abbrev pub print_i32 : ℕ → List ℕ
print_i32 x = if is_neg32 x then 45 ∷ decimal (2 ^ 32 - x) else decimal x

-- `"%d: %lu, %lu\n"`.
unfoldable pub status_line : Task → List ℕ
status_line t =
    print_i32 t.pid
    ++ (58 ∷ 32 ∷ decimal t.period ++ (44 ∷ 32 ∷ decimal t.processing_time ++ 10 ∷ []))

abbrev pub Buffer : Type 0
Buffer = List (Option ℕ)

-- Bytes from the start of a buffer on; `none` if they go on behind it.
abbrev pub put : List ℕ → Buffer → Option Buffer
put [] buf = some buf
put (c ∷ cs) [] = none
put (c ∷ cs) (b ∷ buf) = elim (put cs buf) [ none ↦ none | some buf' ↦ some (some c ∷ buf') ]

abbrev pub put_at : ℕ → List ℕ → Buffer → Option Buffer
put_at zero cs buf = put cs buf
put_at (suc n) cs [] = none
put_at (suc n) cs (b ∷ buf) = elim (put_at n cs buf) [ none ↦ none | some buf' ↦ some (b ∷ buf') ]

-- `snprintf(buf + offset, size, …)` of a text: what it writes, with the NUL.
abbrev pub snprintf : ℕ → ℕ → List ℕ → Buffer → Option Buffer
snprintf offset zero text buf = some buf
snprintf offset (suc room) text buf = put_at offset (take room text ++ 0 ∷ []) buf

-- The loop, with `bytes_to_write` and `*offp`. The size that it gives `snprintf` is that of the whole
-- buffer, and the offset moves on by all bytes so far.
unfoldable pub listing : ℕ → List Task → Buffer → ℕ → ℕ → Checked (Buffer × ℕ × ℕ)
unfolding status_line
listing count [] buf bytes_to_write offp = ok (buf, bytes_to_write, offp)
listing count (t ∷ ts) buf bytes_to_write offp = elim (snprintf offp count (status_line t) buf) [
  | none ↦ faults out_of_bounds
  | some buf' ↦
      (let total = bytes_to_write + length (status_line t) in
        elim (leb count total) [
          | true ↦ ok (buf', bytes_to_write, offp)
          | false ↦ listing count ts buf' total (offp + total)
        ])
]

-- `mp2_read`: the result, what reaches the application, and `*offp`. `uncopied` is what
-- `copy_to_user` returns. The allocation of the buffer does not fail.
unfoldable pub read : ℕ → ℕ → ℕ → Scheduler → Checked (ℕ × Buffer × ℕ)
unfolding listing
read offp count uncopied s =
    if offp == 0
    then (elim (listing count s.tasks (replicate count none) 0 0) [
      | faults f ↦ faults f
      | ok (buf, bytes_to_write, offp') ↦ ok (
        sign_extend32 (as_u32 (bytes_to_write + (2 ^ 32 - as_u32 uncopied))),
        take (count - uncopied) buf,
        offp',
      )
    ])
    else ok (0, [], offp)
