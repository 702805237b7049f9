-- ===== src/Timekeeping/Latch.antt =====
-- What the latch of seqlock.rs gives the reader of timekeeping.rs.
use linux_kernel_development.Prelude.{
  ℕ, zero, suc, ◌+◌, ◌-◌, ◌*◌, ◌%◌, ◌^◌, ◌≤◌, ◌<◌, ◌≡◌, ap, sym, ◌∙◌, refl, arith, bit_and,
}
use linux_kernel_development.Prelude.{Bool, true, false, not, ◌↔◌, Bool-cases, inl, inr, ◌==◌, some}
use linux_kernel_development.Prelude.{Outcome, ok, ◌>>=◌}
use linux_kernel_development.Build.{Build}
use linux_kernel_development.Seqlock.{
  seq_prop, seq_prop_ptr, unlikely, read_once, read_volatile, do_read_seqcount_retry,
  do_read_seqcount_retry_wrap, read_seqcount_retry, raw_read_seqcount_latch,
  read_seqcount_latch_retry, read_seqcount_latch_retry_lem,
}
use linux_kernel_development.Timekeeping.Returning.{time_of-Returns}
use linux_kernel_development.Timekeeping.{
  TkReadBase, TimeKeeperFast, latch_of, base_at, time_of, tkr_at, round, ktime_get_fast_ns,
}

-- The kernel's side of the latch: `count` is the number of updates begun, of which `seq` is the low
-- word; it never falls, a round sees fewer than 2 ^ 32 updates, and the copy that the count selects
-- is not written while the count stands.
pub record Latched (seen : ℕ → TimeKeeperFast) : Type 0 where
  pub count : ℕ → ℕ
  pub seq_count : (k : ℕ) → (seen k).seq ≡ count k % 2 ^ 32
  pub grows : (k : ℕ) → count k ≤ count (k + 1)
  pub few : (k : ℕ) → count (k + 8) < count k + 2 ^ 32
  pub steady :
      (k : ℕ)
      → count (k + 1) ≡ count k
      → base_at (seen (k + 1)) (bit_and (seen k).seq 1) ≡ base_at (seen k) (bit_and (seen k).seq 1)

-- The time of one copy of the clock's data, with the clock's reading.
abbrev pub time_by : Build → ℕ → TkReadBase → ℕ → Outcome ℕ
time_by b validate tkr cycles =
    time_of b validate tkr.base cycles tkr.cycle_last tkr.mask tkr.mult tkr.xtime_nsec tkr.shift

module _ (seen : ℕ → TimeKeeperFast) (latch : Latched seen) where
  count-grows : (k j : ℕ) → latch.count k ≤ latch.count (k + j)
  count-grows k zero = let same : k + 0 ≡ k = omega arith in rw same (omega arith)
  count-grows k (suc j) =
      let next : k + suc j ≡ k + j + 1 = omega arith in
      rw next (omega (arith, count-grows k j, latch.grows (k + j)))

  -- Equal words mean that there was no update at all.
  unchanged : (n : ℕ) → (seen (n + 8)).seq ≡ (seen n).seq → latch.count (n + 8) ≡ latch.count n
  unchanged n same =
      omega (arith, same, latch.seq_count n, latch.seq_count (n + 8), latch.few n, count-grows n 8)

  -- Under a writer that keeps to the latch, the test at the end of a read section never panics, for
  -- all that `seq_prop` may, and it asks for a repetition if and only if an update began since the
  -- section did: the 32-bit word that it compares never comes back to an old value.
  read_seqcount_latch_retry-count :
      (n : ℕ)
      → (retry : Bool) × (read_seqcount_latch_retry
            (latch_of seen)
            (raw_read_seqcount_latch (latch_of seen) n)
            (n + 8)
          ≡ ok retry)
        × ((retry ≡ true) ↔ (latch.count n < latch.count (n + 8)))
  read_seqcount_latch_retry-count n =
      let (retry, tested, differs) = read_seqcount_latch_retry_lem (latch_of seen) n (n + 8) in
      let first = latch.seq_count n in
      let last = latch.seq_count (n + 8) in
      let grown = count-grows n 8 in
      (
        retry,
        tested,
        (
          λ again. let ne = differs.0 again in grind (arith, ne, first, last, grown),
          λ lt. differs.1 (λ same. omega (arith, lt, unchanged n same)),
        ),
      )

  -- The copy that the round selected is the same at each of its loads.
  held :
      (n j : ℕ)
      → latch.count (n + 8) ≡ latch.count n
      → j ≤ 8
      → base_at (seen (n + j)) (bit_and (seen n).seq 1) ≡ base_at (seen n) (bit_and (seen n).seq 1)
  held n zero quiet le = let same : n + 0 ≡ n = omega arith in rw same refl
  held n (suc j) quiet le =
      let next : n + suc j ≡ n + j + 1 = omega arith in
      let behind : n + j + 1 + (7 - j) ≡ n + 8 = omega arith in
      let last : latch.count (n + j + 1 + (7 - j)) ≡ latch.count (n + 8) = ap latch.count behind in
      let grown = count-grows (n + j + 1) (7 - j) in
      let here : latch.count (n + j) ≡ latch.count n =
        omega (arith, grown, last, quiet, count-grows n j, latch.grows (n + j)) in
      let there : latch.count (n + j + 1) ≡ latch.count (n + j) =
        omega (arith, grown, last, quiet, here, latch.grows (n + j)) in
      let word : (seen (n + j)).seq ≡ (seen n).seq =
        omega (arith, here, latch.seq_count n, latch.seq_count (n + j)) in
      let at : ℕ → ℕ → TkReadBase = λ k word'. base_at (seen k) (bit_and word' 1) in
      rw next (
        ap (at (n + j + 1)) (sym word)
        ∙ latch.steady (n + j) there
        ∙ ap (at (n + j)) word
        ∙ held n j quiet (omega arith))

-- The copy that the round from load `n` selects, and the clock's reading in that round.
abbrev pub selected : (ℕ → TimeKeeperFast) → ℕ → TkReadBase
selected seen n = base_at (seen n) (bit_and (seen n).seq 1)

abbrev pub reading : (ℕ → TimeKeeperFast) → (ℕ → ℕ → ℕ) → ℕ → ℕ
reading seen clock_read n = clock_read (selected seen n).clock (n + 2)

module _ (b : Build) (validate : ℕ) (seen : ℕ → TimeKeeperFast) (clock_read : ℕ → ℕ → ℕ)
    (latch : Latched seen) where
  -- Under a writer that keeps to the latch: if the sequence word is the same at the end of a round
  -- as at its start, the round is not repeated, and its time is that of one copy of the clock's
  -- data as it stood when the round began: the loads in between never mix two updates.
  pub round-time_by :
      (n : ℕ)
      → (seen (n + 8)).seq ≡ (seen n).seq
      → round b validate seen clock_read n ≡ (
          time_by b validate (selected seen n) (reading seen clock_read n) >>= λ now.
          ok (now, false))
  unfolding round tkr_at read_seqcount_latch_retry read_seqcount_retry seq_prop seq_prop_ptr
      do_read_seqcount_retry do_read_seqcount_retry_wrap unlikely read_once read_volatile
      raw_read_seqcount_latch
  round-time_by n same =
      let quiet = unchanged seen latch n same in
      let kept = λ (j : ℕ) (le : j ≤ 8). held seen latch n j quiet le in
      rw
        (
          kept 1 (omega arith),
          kept 2 (omega arith),
          kept 3 (omega arith),
          kept 4 (omega arith),
          kept 5 (omega arith),
          kept 6 (omega arith),
          kept 7 (omega arith),
        )
        (ground (arith, same))

  -- A round ends with a time, and is repeated if the sequence word has changed.
  round-Returns :
      b.overflow_checks ≡ false
      → (n : ℕ)
      → (now : ℕ) × (round b validate seen clock_read n
          ≡ ok (now, not ((seen (n + 8)).seq == (seen n).seq)))
  unfolding round read_seqcount_latch_retry read_seqcount_retry seq_prop seq_prop_ptr
      do_read_seqcount_retry do_read_seqcount_retry_wrap unlikely read_once read_volatile
      raw_read_seqcount_latch
  round-Returns wraps n =
      let tkr : ℕ → TkReadBase = tkr_at b validate seen clock_read n in
      let (now, timed) =
        time_of-Returns b wraps validate (tkr (n + 1)).base (clock_read (tkr (n + 2)).clock (n + 2))
          (tkr (n + 3)).cycle_last (tkr (n + 4)).mask (tkr (n + 5)).mult (tkr (n + 6)).xtime_nsec
          (tkr (n + 7)).shift in
      (now, rw timed refl)

  ends-quiet :
      b.overflow_checks ≡ false
      → (rounds n : ℕ) → (seen (n + 8)).seq ≡ (seen n).seq
      → (now : ℕ) × (ktime_get_fast_ns b validate seen clock_read (suc rounds) n ≡ ok (some now))
        × (time_by b validate (selected seen n) (reading seen clock_read n) ≡ ok now)
  unfolding ktime_get_fast_ns
  ends-quiet wraps rounds n same =
      let tkr : TkReadBase = selected seen n in
      let (now, timed) =
        time_of-Returns b wraps validate tkr.base (reading seen clock_read n) tkr.cycle_last
          tkr.mask tkr.mult tkr.xtime_nsec tkr.shift in
      (now, rw (round-time_by n same, timed) refl, timed)

  -- Under a writer that keeps to the latch, and where overflow wraps around, the loop ends: if the
  -- sequence word stays the same over one of the rounds that are left, the loop returns the time of
  -- one copy of the clock's data as it stood at the start of that round or of an earlier one.
  pub ktime_get_fast_ns_lem :
      b.overflow_checks ≡ false
      → (rounds r n : ℕ) → r < rounds
      → (seen (n + 9 * r + 8)).seq ≡ (seen (n + 9 * r)).seq
      → (k : ℕ) × (now : ℕ) × (k ≤ r)
        × (ktime_get_fast_ns b validate seen clock_read rounds n ≡ ok (some now))
        × (time_by b validate (selected seen (n + 9 * k)) (reading seen clock_read (n + 9 * k))
            ≡ ok now)
  unfolding ktime_get_fast_ns
  ktime_get_fast_ns_lem wraps zero r n lt same = absurd (omega arith)
  ktime_get_fast_ns_lem wraps (suc rounds) zero n lt same =
      let start : n + 9 * 0 ≡ n = omega arith in
      let (now, returned, timed) = ends-quiet wraps rounds n (rw start at same) in
      (0, now, omega arith, returned, rw start timed)
  ktime_get_fast_ns_lem wraps (suc rounds) (suc r) n lt same =
      elim (Bool-cases ((seen (n + 8)).seq == (seen n).seq)) [
        | inl quiet ↦
            let start : n + 9 * 0 ≡ n = omega arith in
            let (now, returned, timed) = ends-quiet wraps rounds n (ground (arith, quiet)) in
            (0, now, omega arith, returned, rw start timed)
        | inr disturbed ↦
            let place : n + 9 * suc r ≡ n + 9 + 9 * r = omega arith in
            let (lost, repeated) = round-Returns wraps n in
            let (k, now, before, returned, timed) =
              ktime_get_fast_ns_lem wraps rounds r (n + 9) (omega arith) (rw place at same) in
            let found_at : n + 9 * suc k ≡ n + 9 + 9 * k = omega arith in
            (suc k, now, omega arith, rw (repeated, disturbed) returned, rw found_at timed)
      ]
