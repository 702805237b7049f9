-- ===== src/Timekeeping/Clocks.antt =====
-- The other clocks of timekeeping.rs: the coarse clock, and the monotonic and boot clocks by the fast
-- one. An `i64` is its pattern.
use linux_kernel_development.Prelude.{
  ℕ, ◌+◌, ◌-◌, ◌*◌, ◌%◌, ◌^◌, ◌≤◌, ◌<◌, ◌≡◌, ◌⊎◌, inl, inr, refl, arith,
}
use linux_kernel_development.Prelude.{
  Bool, false, leb, if◌then◌else◌, Bool-cases, Option, none, some, Outcome, ok, ◌>>=◌,
}
use linux_kernel_development.Prelude.Words.{is_neg64}
use linux_kernel_development.Build.{Build, iadd64, imul64, iadd64-fits, imul64-fits, iadd64-wraps}
use linux_kernel_development.Timekeeping.Latch.{
  Latched, time_by, selected, reading, ktime_get_fast_ns_lem,
}
use linux_kernel_development.Timekeeping.{TimeKeeperFast, ktime_get_fast_ns}

abbrev pub nsec_per_sec : ℕ
nsec_per_sec = 1000000000

-- `!(1u64 << 63) as i64`.
abbrev pub ktime_max : ℕ
ktime_max = 2 ^ 64 - 1 - 2 ^ 63

-- `KTIME_MAX / NSEC_PER_SEC`.
abbrev pub ktime_sec_max : ℕ
ktime_sec_max = 9223372036

-- `x >= y` at `i64`, for a `y` that is not negative.
abbrev at_least : ℕ → ℕ → Bool
at_least x y = if is_neg64 x then false else leb y x

-- `timespec64`.
pub record Timespec64 : Type 0 where
  pub tv_sec : ℕ
  pub tv_nsec : ℕ

module _ (b : Build) where
  pub ktime_set : ℕ → ℕ → Outcome ℕ
  ktime_set secs nsecs =
      if at_least secs ktime_sec_max
      then ok ktime_max
      else (do product ← imul64 b secs nsec_per_sec; iadd64 b product nsecs)

  pub timespec64_to_ktime : Timespec64 → Outcome ℕ
  timespec64_to_ktime ts = ktime_set ts.tv_sec ts.tv_nsec

  -- `ts64` is the kernel's `ktime_get_coarse_ts64`, which fills in the structure.
  pub ktime_get_coarse : {S : Type 0} → (Timespec64 → S → Timespec64 × S) → S → Outcome (ℕ × S)
  ktime_get_coarse ts64 s =
      let (ts, s') = ts64 (record { tv_sec = 0; tv_nsec = 0 }) s in
      timespec64_to_ktime ts >>= λ time. ok (time, s')

  module _ (validate : ℕ) (seen_at : ℕ → ℕ → TimeKeeperFast) (clock_read : ℕ → ℕ → ℕ) where
    -- `tk_fast_mono` is the address that stub.rs gives; the other two arguments are those of the loop.
    pub ktime_get_mono_fast_ns : ℕ → ℕ → ℕ → Outcome (Option ℕ)
    ktime_get_mono_fast_ns tk_fast_mono rounds n =
        ktime_get_fast_ns b validate (seen_at tk_fast_mono) clock_read rounds n

    -- `offs_boot` is the timekeeper's field.
    pub ktime_get_boot_fast_ns : ℕ → ℕ → ℕ → ℕ → Outcome (Option ℕ)
    ktime_get_boot_fast_ns offs_boot tk_fast_mono rounds n = do
      mono ← ktime_get_mono_fast_ns tk_fast_mono rounds n
      elim mono [ none ↦ ok none | some now ↦ (do boot ← iadd64 b now offs_boot; ok (some boot)) ]

  -- Under every profile and for every time that is not negative, with less than a second of
  -- nanoseconds: the conversion never overflows. It is the exact number of nanoseconds if there are
  -- fewer than 9223372036 seconds, and the largest `i64` from there on.
  pub timespec64_to_ktime_lem :
      (secs nsecs : ℕ)
      → secs < 2 ^ 63
      → nsecs < 1000000000
      → (r : ℕ) × (timespec64_to_ktime (record { tv_sec = secs; tv_nsec = nsecs }) ≡ ok r)
        × (((secs * 1000000000 + nsecs < 9223372036000000000) × (r ≡ secs * 1000000000 + nsecs))
            ⊎ ((9223372036000000000 ≤ secs * 1000000000 + nsecs) × (r ≡ 2 ^ 63 - 1)))
  unfolding timespec64_to_ktime ktime_set
  timespec64_to_ktime_lem secs nsecs not_negative within =
      elim (Bool-cases (leb ktime_sec_max secs)) [
        | inl late ↦ (2 ^ 63 - 1, ground (arith, late), inr (ground (arith, late), refl))
        | inr early ↦
            let scaled =
              imul64-fits b secs nsec_per_sec not_negative (omega arith) (ground (arith, early)) in
            let added = iadd64-fits b (secs * nsec_per_sec) nsecs (ground (arith, early)) in
            (
              secs * 1000000000 + nsecs,
              ground (arith, early, scaled, added),
              inl (ground (arith, early), refl),
            )
      ]

  -- Of two such times, the later is never converted to the smaller number.
  timespec64_to_ktime_mono :
      (secs nsecs secs' nsecs' r r' : ℕ)
      → secs < 2 ^ 63
      → secs' < 2 ^ 63
      → nsecs < 1000000000
      → nsecs' < 1000000000
      → (secs < secs') ⊎ ((secs ≡ secs') × (nsecs ≤ nsecs'))
      → timespec64_to_ktime (record { tv_sec = secs; tv_nsec = nsecs }) ≡ ok r
      → timespec64_to_ktime (record { tv_sec = secs'; tv_nsec = nsecs' }) ≡ ok r'
      → r ≤ r'
  timespec64_to_ktime_mono secs nsecs secs' nsecs' r r' p p' q q' ordered h h' =
      let (x, hx, cases) = timespec64_to_ktime_lem secs nsecs p q in
      let (x', hx', cases') = timespec64_to_ktime_lem secs' nsecs' p' q' in
      ground (arith, hx, hx', cases, cases', ordered)

-- Under a writer that keeps to the latch, and where overflow wraps around: if the sequence word stays
-- the same over one of the rounds that are left, the boot clock returns the time of one copy of the
-- clock's data, as it stood at the start of that round or of an earlier one, plus the offset.
pub ktime_get_boot_fast_ns_lem :
    (b : Build) (validate : ℕ) (seen_at : ℕ → ℕ → TimeKeeperFast) (clock_read : ℕ → ℕ → ℕ)
    (offs_boot tk_fast_mono : ℕ)
    → Latched (seen_at tk_fast_mono)
    → b.overflow_checks ≡ false
    → (rounds r n : ℕ) → r < rounds
    → (seen_at tk_fast_mono (n + 9 * r + 8)).seq ≡ (seen_at tk_fast_mono (n + 9 * r)).seq
    → let seen = seen_at tk_fast_mono in
      (k : ℕ) × (now : ℕ) × (k ≤ r)
      × (ktime_get_boot_fast_ns b validate seen_at clock_read offs_boot tk_fast_mono rounds n
          ≡ ok (some ((now + offs_boot) % 2 ^ 64)))
      × (time_by b validate (selected seen (n + 9 * k)) (reading seen clock_read (n + 9 * k))
          ≡ ok now)
unfolding ktime_get_boot_fast_ns ktime_get_mono_fast_ns
ktime_get_boot_fast_ns_lem b validate seen_at clock_read offs_boot tk_fast_mono latch wraps rounds r
      n lt same =
    let (k, now, before, returned, timed) =
      ktime_get_fast_ns_lem b validate (seen_at tk_fast_mono) clock_read latch wraps rounds r n lt
        same in
    (k, now, before, rw (returned, iadd64-wraps b wraps now offs_boot) refl, timed)
