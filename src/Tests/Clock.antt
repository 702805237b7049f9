-- ===== src/Tests/Clock.antt =====
-- The fast clock of timekeeping.rs with a writer that begins one update at the reader's fifth load.
use linux_kernel_development.Prelude.{
  ℕ, ◌+◌, ◌-◌, ◌*◌, ◌^◌, ◌≤◌, ◌≡◌, refl, arith, ltb, if◌then◌else◌, false, some,
}
use linux_kernel_development.Prelude.{ok, ◌>>=◌}
use linux_kernel_development.Timekeeping.Clocks.{ktime_get_boot_fast_ns, ktime_get_boot_fast_ns_lem}
use linux_kernel_development.Prelude.{◌%◌}
use linux_kernel_development.Tests.{release}
use linux_kernel_development.Timekeeping.{
  TkReadBase, TimeKeeperFast, base_at, round, ktime_get_fast_ns,
}
use linux_kernel_development.Timekeeping.Latch.{
  Latched, time_by, selected, reading, round-time_by, ktime_get_fast_ns_lem,
}

abbrev copy : TkReadBase
copy = record {
  clock = 0x4000;
  mask = 2 ^ 64 - 1;
  cycle_last = 100;
  mult = 8;
  shift = 2;
  xtime_nsec = 40;
  base = 1000000;
}

abbrev updates : ℕ → ℕ
updates k = if ltb k 4 then 6 else 7

abbrev seen : ℕ → TimeKeeperFast
seen k = record { seq = updates k; base0 = copy; base1 = copy }

latched : Latched seen
unfolding base_at
latched = record {
  count = updates;
  seq_count = λ k. ground arith;
  grows = λ k. ground arith;
  few = λ k. ground arith;
  steady = λ k e. refl;
}

abbrev ticking : ℕ → ℕ → ℕ
ticking clock k = 200 + k

round-time_by_example :
    round release 1 seen ticking 9
    ≡ (time_by release 1 (selected seen 9) (reading seen ticking 9) >>= λ now. ok (now, false))
round-time_by_example = round-time_by release 1 seen ticking latched 9 (omega arith)

ktime_get_fast_ns_lem_example :
    (k : ℕ) × (now : ℕ) × (k ≤ 1)
    × (ktime_get_fast_ns release 1 seen ticking 5 0 ≡ ok (some now))
    × (time_by release 1 (selected seen (0 + 9 * k)) (reading seen ticking (0 + 9 * k)) ≡ ok now)
ktime_get_fast_ns_lem_example =
    ktime_get_fast_ns_lem release 1 seen ticking latched refl 5 1 0 (omega arith) (omega arith)

ktime_get_boot_fast_ns_lem_example :
    (k : ℕ) × (now : ℕ) × (k ≤ 1)
    × (ktime_get_boot_fast_ns release 1 (λ addr. seen) ticking 500 0x7000 5 0
        ≡ ok (some ((now + 500) % 2 ^ 64)))
    × (time_by release 1 (selected seen (0 + 9 * k)) (reading seen ticking (0 + 9 * k)) ≡ ok now)
ktime_get_boot_fast_ns_lem_example =
    ktime_get_boot_fast_ns_lem release 1 (λ addr. seen) ticking 500 0x7000 latched refl 5 1 0
      (omega arith) (omega arith)
