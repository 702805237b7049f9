-- ===== src/Timekeeping.antt =====
-- The fast clock of inner_unikernel_rt/src/timekeeping.rs, with its latch of seqlock.rs. The reader
-- runs while a writer in the kernel changes the clock: `seen k` is the structure at the reader's
-- `k`-th load, and `clock_read clock k` what the clock source gives then. A round makes nine loads.
pub mod Returning
pub mod Latch
pub mod Clocks
use linux_kernel_development.Prelude.{
  ℕ, zero, suc, ◌+◌, ◌-◌, ◌*◌, ◌/◌, ◌%◌, ◌^◌, bit_and, Bool, true, false, not,
}
use linux_kernel_development.Prelude.{
  ltb, ◌==◌, if◌then◌else◌, Option, none, some, Outcome, ok, panics, overflow, ◌>>=◌,
}
use linux_kernel_development.Seqlock.{
  Shared, SeqcountLatch, raw_read_seqcount_latch, read_seqcount_latch_retry,
}
use linux_kernel_development.Build.{Build, add64, sub64, mul64}

-- The fields of `tk_read_base` that are read; `clock` is a pointer, `base` an `i64`.
pub record TkReadBase : Type 0 where
  pub clock : ℕ
  pub mask : ℕ
  pub cycle_last : ℕ
  pub mult : ℕ
  pub shift : ℕ
  pub xtime_nsec : ℕ
  pub base : ℕ

-- `TimeKeeperFast`, its array of two written out.
pub record TimeKeeperFast : Type 0 where
  pub seq : ℕ
  pub base0 : TkReadBase
  pub base1 : TkReadBase

-- `&tkf.base[i]`, where `i` is 0 or 1.
unfoldable pub base_at : TimeKeeperFast → ℕ → TkReadBase
base_at tkf i = if i == 0 then tkf.base0 else tkf.base1

module _ (b : Build) where
  -- `x >> k` at `u64`.
  pub shr64 : ℕ → ℕ → Outcome ℕ
  shr64 x k =
      if ltb k 64
      then ok (x / 2 ^ k)
      else if b.overflow_checks
      then panics overflow
      else ok (x / 2 ^ (k % 64))

  -- `validate` is the generated CONFIG_CLOCKSOURCE_VALIDATE_LAST_CYCLE.
  pub clocksource_delta : ℕ → ℕ → ℕ → ℕ → Outcome ℕ
  clocksource_delta validate now last mask = do
    difference ← sub64 b now last
    let ret = bit_and difference mask
    if validate == 0
        then (do again ← sub64 b now last; ok (bit_and again mask))
        else if bit_and ret (2 ^ 64 - 1 - mask / 2) == 0
        then ok ret
        else ok 0

  pub timekeeping_delta_to_ns : ℕ → ℕ → ℕ → ℕ → Outcome ℕ
  timekeeping_delta_to_ns delta mult xtime_nsec shift = do
    product ← mul64 b delta mult
    nsec ← add64 b product xtime_nsec
    shr64 nsec shift

  -- The time by the values that a round loads: `cycles` from the clock, the others from the base.
  pub time_of : ℕ → ℕ → ℕ → ℕ → ℕ → ℕ → ℕ → ℕ → Outcome ℕ
  time_of validate base cycles cycle_last mask mult xtime_nsec shift = do
    delta ← clocksource_delta validate cycles cycle_last mask
    nsec ← timekeeping_delta_to_ns delta mult xtime_nsec shift
    add64 b base nsec

-- The latch at each load.
abbrev pub latch_of : (ℕ → TimeKeeperFast) → Shared SeqcountLatch
latch_of seen k = record { seqcount = record { sequence = (seen k).seq } }

module _ (b : Build) (validate : ℕ) (seen : ℕ → TimeKeeperFast) (clock_read : ℕ → ℕ → ℕ) where
  -- The base that a round which began at load `n` reads from at load `k`.
  pub tkr_at : ℕ → ℕ → TkReadBase
  tkr_at n k = base_at (seen k) (bit_and (raw_read_seqcount_latch (latch_of seen) n) 1)

  -- One round from load `n` on: the time, and whether the round must be repeated.
  pub round : ℕ → Outcome (ℕ × Bool)
  round n = do
    let cycles = clock_read (tkr_at n (n + 2)).clock (n + 2)
    now ←
        time_of b validate (tkr_at n (n + 1)).base cycles (tkr_at n (n + 3)).cycle_last
          (tkr_at n (n + 4)).mask (tkr_at n (n + 5)).mult (tkr_at n (n + 6)).xtime_nsec
          (tkr_at n (n + 7)).shift
    retry ←
        read_seqcount_latch_retry (latch_of seen) (raw_read_seqcount_latch (latch_of seen) n)
          (n + 8)
    ok (now, retry)

  -- The loop; `none` if the rounds run out.
  pub ktime_get_fast_ns : ℕ → ℕ → Outcome (Option ℕ)
  ktime_get_fast_ns zero n = ok none
  ktime_get_fast_ns (suc rounds) n = do
    (now, retry) ← round n
    let rest = ktime_get_fast_ns rounds (n + 9)
    if retry then rest else ok (some now)
