-- ===== src/RateMonotonic/Admission.antt =====
-- What `mp2_admission_control` of mp2.c lets in.
use linux_kernel_development.Prelude.{ℕ, ◌+◌, ◌*◌, ◌%◌, ◌^◌, ◌≤◌, ◌<◌, ◌≡◌, ◌↔◌, ◌∙◌, arith}
use linux_kernel_development.Prelude.{List, [], ◌∷◌, length}
use native.Mathlib.Nat.{div-lt_iff_lt-mul}
use linux_kernel_development.RateMonotonic.Tasks.{Task}
use linux_kernel_development.RateMonotonic.{ok, totals, admission_control}

-- The sums over the registered tasks, without wrapping around.
abbrev pub periods : List Task → ℕ
periods [] = 0
periods (t ∷ ts) = t.period + periods ts

abbrev pub processing_times : List Task → ℕ
processing_times [] = 0
processing_times (t ∷ ts) = t.processing_time + processing_times ts

totals-fits :
    (ts : List Task) (p c : ℕ)
    → p + periods ts < 2 ^ 64
    → c + processing_times ts < 2 ^ 64
    → totals ts p c ≡ (p + periods ts, c + processing_times ts)
unfolding totals
totals-fits [] p c fits fits' = ground arith
totals-fits (t ∷ ts) p c fits fits' =
    let here : (p + t.period) % 2 ^ 64 ≡ p + t.period = omega arith in
    let here' : (c + t.processing_time) % 2 ^ 64 ≡ c + t.processing_time = omega arith in
    rw (here, here')
      (totals-fits ts (p + t.period) (c + t.processing_time) (omega arith) (omega arith)
        ∙ ground arith)

-- If no sum wraps around and one of the periods is positive, a task is admitted exactly if the sum of
-- all processing times, the new one included, is less than 0.694 of the sum of all periods.
pub admission_control_iff :
    (ts : List Task) (period processing_time : ℕ)
    → 0 < period + periods ts
    → period + periods ts < 2 ^ 64
    → (processing_time + processing_times ts) * 1000 < 2 ^ 64
    → (admission_control ts period processing_time ≡ ok 0)
      ↔ (1000 * (processing_time + processing_times ts) < 694 * (period + periods ts))
unfolding admission_control
admission_control_iff ts period processing_time pos fits fits' =
    let p : ℕ = period + periods ts in
    let c : ℕ = processing_time + processing_times ts in
    let whole : c * 1000 % 2 ^ 64 ≡ c * 1000 = omega arith in
    rw (totals-fits ts period processing_time fits (omega arith), whole)
      (ground (arith, div-lt_iff_lt-mul {k = p} {x = c * 1000} {y = 694} pos))

-- Every task takes at most 0.693 of its period.
abbrev pub Light : List Task → Type 0
Light [] = Unit
Light (t ∷ ts) = (1000 * t.processing_time ≤ 693 * t.period) × Light ts

sums-Light : (ts : List Task) → Light ts → 1000 * processing_times ts ≤ 693 * periods ts
sums-Light [] light = omega arith
sums-Light (t ∷ ts) light = omega (arith, sums-Light ts light.1)

-- A task with a positive period is admitted if it and every registered task take at most 0.693 of
-- their periods, and if the sum of all periods and a thousand times the sum of all processing times,
-- the new ones included, are below 2 ^ 64.
pub admission_control-Light :
    (ts : List Task) (period processing_time : ℕ)
    → 0 < period
    → period + periods ts < 2 ^ 64
    → (processing_time + processing_times ts) * 1000 < 2 ^ 64
    → Light ts
    → 1000 * processing_time ≤ 693 * period
    → admission_control ts period processing_time ≡ ok 0
admission_control-Light ts period processing_time pos fits fits' light own =
    (admission_control_iff ts period processing_time (omega arith) fits fits').1
      (omega (arith, sums-Light ts light))

-- Every task has this period and this processing time.
abbrev pub Alike : ℕ → ℕ → List Task → Type 0
Alike period processing_time [] = Unit
Alike period processing_time (t ∷ ts) =
    (t.period ≡ period) × (t.processing_time ≡ processing_time) × Alike period processing_time ts

-- Their demand is a multiple of one task's, and so is the sum of the periods.
sums-Alike :
    (p c : ℕ) (ts : List Task)
    → Alike p c ts
    → 1000 * c < 694 * p
    → 1000 * processing_times ts ≤ 694 * periods ts
sums-Alike p c [] alike light = omega arith
sums-Alike p c (t ∷ ts) alike light =
    omega (arith, alike.0, alike.1, sums-Alike p c ts alike.2 light)

-- The rule of the module is no bound on the load: beside one or more tasks with the same period and
-- the same processing time, which takes more than half and less than 0.694 of the period, another
-- such task is admitted, and together they need more time in a period than it has. (The sum of all
-- periods and a thousand times the sum of all processing times, the new ones included, are to be
-- below 2 ^ 64.)
pub admission_control-overload :
    (ts : List Task) (period processing_time : ℕ)
    → Alike period processing_time ts
    → 0 < length ts
    → period < 2 * processing_time
    → 1000 * processing_time < 694 * period
    → period + periods ts < 2 ^ 64
    → (processing_time + processing_times ts) * 1000 < 2 ^ 64
    → (admission_control ts period processing_time ≡ ok 0)
      × (period < processing_time + processing_times ts)
admission_control-overload [] p c alike some_task heavy light fits fits' = absurd (omega arith)
admission_control-overload (t ∷ ts) p c alike some_task heavy light fits fits' = (
  (admission_control_iff (t ∷ ts) p c (omega arith) fits fits').1
      (omega (arith, sums-Alike p c (t ∷ ts) alike light)),
  omega (arith, alike.1),
)
