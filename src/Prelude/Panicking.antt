-- ===== src/Prelude/Panicking.antt =====
-- A Rust call returns a value or panics. A panic does not return: what follows it does not run.
use mathlib.Core.Path.{◌≡◌, refl, ap}
use mathlib.Core.Bool.{Bool, true, false}

-- Why a call panicked.
pub data Panic : Type 0 where
  out_of_bounds assertion_failed overflow not_implemented : Panic
  object_count_exceeded stack_overflow unwrap_none explicit_panic : Panic

pub data Outcome {ℓ} (A : Type ℓ) : Type ℓ where
  ok : A → Outcome A
  panics : Panic → Outcome A

infixl 5 ◌>>=◌ ◌>>◌
abbrev pub ◌>>=◌ {ℓ κ} : {A : Type ℓ} {B : Type κ} → Outcome A → (A → Outcome B) → Outcome B
ok a >>= f = f a
panics p >>= f = panics p

abbrev pub ◌>>◌ {ℓ} : {B : Type ℓ} → Outcome (Unit {0}) → Outcome B → Outcome B
m >> k = m >>= λ _. k

-- `assert!(test)`, with the panic that a failure raises.
abbrev pub check : Bool → Panic → Outcome (Unit {0})
check true p = ok tt
check false p = panics p

-- Inversion of a bind that returned.
pub >>=-eq-ok {ℓ κ} :
    {A : Type ℓ} {B : Type κ} {result : B} (first : Outcome A) (rest : A → Outcome B)
    → (first >>= rest) ≡ ok result
    → (a : A) × (first ≡ ok a) × (rest a ≡ ok result)
>>=-eq-ok (ok a) rest returned = (a, refl, returned)
>>=-eq-ok (panics p) rest returned = cc

pub >>=-of_ok {ℓ κ} :
    {A : Type ℓ} {B : Type κ} {m : Outcome A} {a : A} (f : A → Outcome B)
    → m ≡ ok a
    → (m >>= f) ≡ f a
>>=-of_ok f h = ap (λ t. t >>= f) h
