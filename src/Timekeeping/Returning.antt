-- ===== src/Timekeeping/Returning.antt =====
-- The arithmetic of timekeeping.rs never panics in a build that wraps around on overflow.
use linux_kernel_development.Prelude.{
  ℕ, ◌+◌, ◌-◌, ◌*◌, ◌/◌, ◌%◌, ◌^◌, ◌≡◌, ◌∙◌, refl, arith, bit_and,
}
use linux_kernel_development.Prelude.{false, Bool-cases, inl, inr, ltb, leb, ◌==◌}
use linux_kernel_development.Prelude.{Outcome, ok, ◌>>=◌, >>=-of_ok}
use linux_kernel_development.Build.{Build, add64, sub64, mul64}
use linux_kernel_development.Timekeeping.{
  shr64, clocksource_delta, timekeeping_delta_to_ns, time_of,
}

-- A call that does not panic.
abbrev pub Returns : {A : Type 0} → Outcome A → Type 0
Returns {A} m = (a : A) × (m ≡ ok a)

Returns->>= :
    {A B : Type 0} {m : Outcome A} {f : A → Outcome B}
    → Returns m
    → ((a : A) → Returns (f a))
    → Returns (m >>= f)
Returns->>= {f = f} (a, first) rest =
    let (result, second) = rest a in (result, >>=-of_ok f first ∙ second)

-- Without overflow checks, no operation on words panics.
module _ (b : Build) (wraps : b.overflow_checks ≡ false) where
  add64-Returns : (x y : ℕ) → Returns (add64 b x y)
  unfolding add64
  add64-Returns x y = elim (Bool-cases (ltb (x + y) (2 ^ 64))) [
    | inl fits ↦ (x + y, ground (arith, fits))
    | inr over ↦ ((x + y) % 2 ^ 64, ground (arith, over, wraps))
  ]

  sub64-Returns : (x y : ℕ) → Returns (sub64 b x y)
  unfolding sub64
  sub64-Returns x y = elim (Bool-cases (leb y x)) [
    | inl fits ↦ (x - y, ground (arith, fits))
    | inr over ↦ ((x + 2 ^ 64 - y) % 2 ^ 64, ground (arith, over, wraps))
  ]

  mul64-Returns : (x y : ℕ) → Returns (mul64 b x y)
  unfolding mul64
  mul64-Returns x y = elim (Bool-cases (ltb (x * y) (2 ^ 64))) [
    | inl fits ↦ (x * y, ground (arith, fits))
    | inr over ↦ (x * y % 2 ^ 64, ground (arith, over, wraps))
  ]

  shr64-Returns : (x k : ℕ) → Returns (shr64 b x k)
  unfolding shr64
  shr64-Returns x k = elim (Bool-cases (ltb k 64)) [
    | inl fits ↦ (x / 2 ^ k, ground (arith, fits))
    | inr over ↦ (x / 2 ^ (k % 64), ground (arith, over, wraps))
  ]

  clocksource_delta-Returns :
      (validate now last mask : ℕ) → Returns (clocksource_delta b validate now last mask)
  unfolding clocksource_delta
  clocksource_delta-Returns validate now last mask =
      Returns->>= (sub64-Returns now last) (λ difference. elim (Bool-cases (validate == 0)) [
        | inl off ↦
            rw off (Returns->>= (sub64-Returns now last) (λ again. (bit_and again mask, refl)))
        | inr on ↦
            rw on
              (elim (Bool-cases (bit_and (bit_and difference mask) (2 ^ 64 - 1 - mask / 2) == 0)) [
                | inl small ↦ (bit_and difference mask, ground (arith, small))
                | inr large ↦ (0, ground (arith, large))
              ])
      ])

  pub time_of-Returns :
      (validate base cycles cycle_last mask mult xtime_nsec shift : ℕ)
      → Returns (time_of b validate base cycles cycle_last mask mult xtime_nsec shift)
  unfolding time_of timekeeping_delta_to_ns
  time_of-Returns validate base cycles cycle_last mask mult xtime_nsec shift =
      Returns->>= (clocksource_delta-Returns validate cycles cycle_last mask) (λ delta.
        Returns->>=
          (Returns->>= (mul64-Returns delta mult) (λ product.
            Returns->>= (add64-Returns product xtime_nsec) (λ nsec. shr64-Returns nsec shift)))
          (λ nsec. add64-Returns base nsec))
