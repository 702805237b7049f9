-- ===== src/RateMonotonic/Choice.antt =====
-- What the loop of `mp2_dispatcher` of mp2.c finds.
use linux_kernel_development.Prelude.{
  ℕ, zero, suc, ◌≤◌, ◌≡◌, ◌⊎◌, refl, inl, inr, arith, Bool-cases,
}
use linux_kernel_development.Prelude.{
  Option, some, List, [], ◌∷◌, get_elem?, Bool, true, false, ltb, ◌&&◌,
}
use linux_kernel_development.RateMonotonic.Tasks.{TaskState, ready, running, sleeping, Task}
use linux_kernel_development.RateMonotonic.{is_ready, choose, first_min_period}

-- The loop never raises the period of its choice, and no ready task has a shorter one.
pub choose_le :
    (ts : List Task) (best : Option Task)
    → first_min_period (choose ts (first_min_period best) best) ≤ first_min_period best
unfolding choose
choose_le [] best = omega arith
choose_le (t ∷ ts) best =
    elim (Bool-cases (is_ready t.state && ltb t.period (first_min_period best))) [
      | inl better ↦ rw better (ground (arith, choose_le ts (some t)))
      | inr worse ↦ rw worse (choose_le ts best)
    ]

pub choose_shortest :
    (ts : List Task) (best : Option Task) (i : ℕ) (t : Task)
    → get_elem? ts i ≡ some t
    → t.state ≡ ready
    → first_min_period (choose ts (first_min_period best) best) ≤ t.period
unfolding choose
choose_shortest [] best i t at is = cc
choose_shortest (x ∷ ts) best zero t at is =
    let here : x ≡ t = cc in
    let ready_here : is_ready x.state ≡ true = rw (here, is) in
    elim (Bool-cases (is_ready x.state && ltb x.period (first_min_period best))) [
      | inl better ↦ rw better (ground (arith, choose_le ts (some x)))
      | inr worse ↦ rw worse (ground (arith, choose_le ts best))
    ]
choose_shortest (x ∷ ts) best (suc i) t at is =
    elim (Bool-cases (is_ready x.state && ltb x.period (first_min_period best))) [
      | inl better ↦ rw better (choose_shortest ts (some x) i t at is)
      | inr worse ↦ rw worse (choose_shortest ts best i t at is)
    ]

is_ready-eq : (st : TaskState) → is_ready st ≡ true → st ≡ ready
is_ready-eq ready e = refl
is_ready-eq running e = cc
is_ready-eq sleeping e = cc

&&-left : (a b : Bool) → (a && b) ≡ true → a ≡ true
&&-left true b e = refl
&&-left false b e = e

-- The choice is what the loop started with, or a ready task of the list.
pub choose-from :
    (ts : List Task) (min : ℕ) (best : Option Task) (h : Task)
    → choose ts min best ≡ some h
    → (best ≡ some h) ⊎ ((i : ℕ) × (get_elem? ts i ≡ some h) × (h.state ≡ ready))
unfolding choose
choose-from [] min best h chosen = inl chosen
choose-from (x ∷ ts) min best h chosen = elim (Bool-cases (is_ready x.state && ltb x.period min)) [
  | inl better ↦
      let from : choose ts x.period (some x) ≡ some h = rw better at chosen in
      elim (choose-from ts x.period (some x) h from) [
        | inl own ↦
            let is : is_ready x.state ≡ true = &&-left _ _ better in
            let same : x ≡ h = cc in inr (0, own, rw (← same) (is_ready-eq x.state is))
        | inr (i, at, is) ↦ inr (suc i, at, is)
      ]
  | inr worse ↦
      let from : choose ts min best ≡ some h = rw worse at chosen in
      elim (choose-from ts min best h from) [
        | inl own ↦ inl own
        | inr (i, at, is) ↦ inr (suc i, at, is)
      ]
]
